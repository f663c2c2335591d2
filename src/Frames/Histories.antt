-- ===== src/Frames/Histories.antt =====
-- Histories of frame requests, commits, frames and sendings.
use aurora_compositor.Base.{ℕ, suc, ◌≡◌, refl, ap, ◌∙◌, List, [], ◌∷◌, ◌++◌, arith}
use aurora_compositor.Frames.{
  FrameCallback, Frames, no_frames, frame, commit_frames, frame_started, send_frame_callbacks,
  remove_frame_callback, FrameOp, request, commit, start, send, remove, step, run,
}
use aurora_compositor.Frames.Sending.{
  names, ready, waiting, names-append, append_assoc, append-nil, send_frame_callbacks-splits,
}
use aurora_compositor.Frames.Order.{
  IsRising, IsRising-append, IsRising-split, remove_one-IsRising, IsWaiting, IsReadyFirst,
  IsReadyFirst_lem, IsReadyFirst-of_waiting, IsWaiting-append, IsReadyFirst-append,
  started-IsReadyFirst, names-started, remove_one-IsWaiting, remove_one-IsReadyFirst,
}

-- All names in the order sent, committed, pending.
abbrev pub all_names : Frames → List ℕ
all_names s = s.sent ++ (names s.frame_callbacks ++ names s.pending_frame_callbacks)

-- The names rise, the callbacks that can be sent stand before the others, and a pending one cannot be
-- sent.
pub record IsOrdered (s : Frames) : Type 0 where
  pub rising : IsRising 0 s.next (all_names s)
  pub first : IsReadyFirst s.frame_callbacks
  pub pending : IsWaiting s.pending_frame_callbacks

frame-names : (s : Frames) → all_names (frame s) ≡ all_names s ++ s.next ∷ []
unfolding frame
frame-names s = simp (names-append, append_assoc) refl

frame-IsOrdered : (s : Frames) → IsOrdered s → IsOrdered (frame s)
unfolding frame
frame-IsOrdered s o = record {
  rising = rw (frame-names s) (
      IsRising-append 0 s.next (suc s.next) (all_names s) (s.next ∷ []) o.rising
        (omega arith, omega arith));
  first = o.first;
  pending = IsWaiting-append s.pending_frame_callbacks _ o.pending (refl, tt);
}

commit_frames-IsOrdered : (s : Frames) → IsOrdered s → IsOrdered (commit_frames s)
unfolding commit_frames
commit_frames-IsOrdered s o = record {
  rising = simp (names-append, append-nil) o.rising;
  first = IsReadyFirst-append s.frame_callbacks s.pending_frame_callbacks o.first o.pending;
  pending = tt;
}

frame_started-IsOrdered : (s : Frames) → IsOrdered s → IsOrdered (frame_started s)
unfolding frame_started
frame_started-IsOrdered s o = record {
  rising = simp names-started o.rising;
  first = started-IsReadyFirst s.frame_callbacks;
  pending = o.pending;
}

sending-names :
    (sent : List ℕ) (cs ps : List FrameCallback)
    → IsReadyFirst cs
    → (sent ++ names (ready cs)) ++ (names (waiting cs) ++ names ps)
      ≡ sent ++ (names cs ++ names ps)
sending-names sent cs ps h =
    let e = ap names (IsReadyFirst_lem cs h).0 ∙ names-append (ready cs) (waiting cs) in
    rw e (simp append_assoc refl)

send_frame_callbacks-IsOrdered : (s : Frames) → IsOrdered s → IsOrdered (send_frame_callbacks s)
send_frame_callbacks-IsOrdered s o = rw (send_frame_callbacks-splits s) (record {
  rising = rw (sending-names s.sent s.frame_callbacks s.pending_frame_callbacks o.first) o.rising;
  first = IsReadyFirst-of_waiting _ (IsReadyFirst_lem s.frame_callbacks o.first).1;
  pending = o.pending;
})

remove_frame_callback-IsOrdered :
    (name : ℕ) (s : Frames) → IsOrdered s → IsOrdered (remove_frame_callback name s)
unfolding remove_frame_callback
remove_frame_callback-IsOrdered name s o =
    let (mid1, a, bc) = IsRising-split 0 s.next s.sent _ o.rising in
    let (mid2, b, c) =
      IsRising-split mid1 s.next (names s.frame_callbacks) (names s.pending_frame_callbacks) bc in
    record {
      rising = IsRising-append 0 mid1 s.next _ _ a (
          IsRising-append mid1 mid2 s.next _ _
            (remove_one-IsRising mid1 mid2 name s.frame_callbacks b)
            (remove_one-IsRising mid2 s.next name s.pending_frame_callbacks c));
      first = remove_one-IsReadyFirst name s.frame_callbacks o.first;
      pending = remove_one-IsWaiting name s.pending_frame_callbacks o.pending;
    }

step-IsOrdered : (op : FrameOp) (s : Frames) → IsOrdered s → IsOrdered (step op s)
unfolding step
step-IsOrdered request s o = frame-IsOrdered s o
step-IsOrdered commit s o = commit_frames-IsOrdered s o
step-IsOrdered start s o = frame_started-IsOrdered s o
step-IsOrdered send s o = send_frame_callbacks-IsOrdered s o
step-IsOrdered (remove name) s o = remove_frame_callback-IsOrdered name s o

run-IsOrdered : (ops : List FrameOp) (s : Frames) → IsOrdered s → IsOrdered (run ops s)
unfolding run
run-IsOrdered [] s o = o
run-IsOrdered (op ∷ ops) s o = run-IsOrdered ops (step op s) (step-IsOrdered op s o)

no_frames-IsOrdered : IsOrdered no_frames
no_frames-IsOrdered = record { rising = omega arith; first = tt; pending = tt }

-- After any history of a surface, the callbacks were sent in the order of their requests, each at most
-- once, and every callback that is still waiting was requested after all that were sent, those not
-- yet committed after those that are.
pub run_in_order :
    (ops : List FrameOp) → IsRising 0 (run ops no_frames).next (all_names (run ops no_frames))
run_in_order ops = (run-IsOrdered ops no_frames no_frames-IsOrdered).rising
