-- ===== src/Xdg/Toplevel/Modes.antt =====
-- The window's mode and activation in the states that are sent to the client, against an abstract
-- view of them (sendMaximized and its siblings, handleFocusReceived, handleFocusLost).
use aurora_compositor.Base.{
  sym, ap, ◌∙◌, ◌&&◌, ℕ, ◌≡◌, inl, inr, refl, Bool, true, false, List, [], ◌∷◌, ◌++◌, arith,
  contains, Bool-cases,
}
use aurora_compositor.Geometry.{Size, is_valid}
use aurora_compositor.Xdg.Effect.{Effect, send_toplevel_configure}
use aurora_compositor.Xdg.Toplevel.{
  new_toplevel, Toplevel, last_sent_configure, send_maximized, send_unmaximized, send_fullscreen,
  send_resizing, handle_focus_lost, handle_focus_received,
}
use aurora_compositor.Xdg.Toplevel.Showing.{
  Mode, normal, Shows, told, IsTold, Sends, send_configure-Sends, Intent, maximize, unmaximize,
  make_fullscreen, resize, activate, deactivate, target, activation, perform, maximize-Shows,
  unmaximize-Shows, fullscreen-Shows, resizing-Shows, deactivate-Shows, activate-Shows,
  active-Shows,
}

module _ (client : List ℕ) (t : Toplevel) {mode : Mode} {activated : Bool}
    (h : IsTold mode activated client t) where
  shown : Shows mode activated (last_sent_configure t).states
  shown = rw h.remembered h.shows

  focus_received-Sends : (serial : ℕ) → Sends mode true client (handle_focus_received serial t)
  unfolding handle_focus_received told
  focus_received-Sends serial = elim (Bool-cases (contains 4 (last_sent_configure t).states)) [
    | inl e ↦ simp e (record {
      shows = active-Shows client h.shows (ap (λ xs. contains 4 xs) (sym h.remembered) ∙ e);
      remembered = h.remembered;
      size = h.size;
    })
    | inr e ↦ simp e (send_configure-Sends serial _ _ client t h.size (activate-Shows _ shown e))
  ]

  perform-Sends :
      (i : Intent) (serial : ℕ) (size : Size)
      → is_valid size ≡ true
      → Sends (target i mode) (activation i activated) client (perform i serial size t)
  unfolding send_maximized send_unmaximized send_fullscreen send_resizing handle_focus_lost
  perform-Sends maximize serial size v =
      send_configure-Sends serial size _ client t v (maximize-Shows _ shown)
  perform-Sends unmaximize serial size v =
      send_configure-Sends serial size _ client t v (unmaximize-Shows _ shown)
  perform-Sends make_fullscreen serial size v =
      send_configure-Sends serial size _ client t v (fullscreen-Shows _ shown)
  perform-Sends resize serial size v =
      send_configure-Sends serial size _ client t v (resizing-Shows _ shown)
  perform-Sends activate serial size v = focus_received-Sends serial
  perform-Sends deactivate serial size v =
      send_configure-Sends serial _ _ client t h.size (deactivate-Shows _ shown)

-- A call with its serial and its size.
pub record Command : Type 0 where
  pub intent : Intent
  pub serial : ℕ
  pub size : Size

unfoldable pub run : List Command → Toplevel → Toplevel × List Effect
run [] t = (t, [])
run (c ∷ cs) t =
    let (t1, serial, now) = perform c.intent c.serial c.size t in
    let (t2, later) = run cs t1 in (t2, now ++ later)

abbrev pub final_mode : List Command → Mode → Mode
final_mode [] mode = mode
final_mode (c ∷ cs) mode = final_mode cs (target c.intent mode)

abbrev pub final_activation : List Command → Bool → Bool
final_activation [] activated = activated
final_activation (c ∷ cs) activated = final_activation cs (activation c.intent activated)

abbrev pub all_valid : List Command → Bool
all_valid [] = true
all_valid (c ∷ cs) = is_valid c.size && all_valid cs

told-append :
    (states : List ℕ) (es later : List Effect)
    → told states (es ++ later) ≡ told (told states es) later
unfolding told
told-append states [] later = refl
told-append states (send_toplevel_configure size sent ∷ es) later = told-append sent es later
told-append states (e ∷ es) later = told-append states es later

and_parts : (a b : Bool) → a && b ≡ true → (a ≡ true) × (b ≡ true)
and_parts a b h = ground arith

run-IsTold :
    (cs : List Command) (client : List ℕ) (t : Toplevel) {mode : Mode} {activated : Bool}
    → all_valid cs ≡ true
    → IsTold mode activated client t
    → Shows (final_mode cs mode) (final_activation cs activated) (told client (run cs t).1)
unfolding run told
run-IsTold [] client t v h = h.shows
run-IsTold (c ∷ cs) client t v h =
    let (valid, rest) = and_parts (is_valid c.size) (all_valid cs) v in
    let r = perform c.intent c.serial c.size t in
    let sent = perform-Sends client t h c.intent c.serial c.size valid in
    rw (told-append client r.2 (run cs r.0).1) (run-IsTold cs (told client r.2) r.0 rest sent)

new_toplevel-IsTold : (serial : ℕ) → Sends normal false [] (new_toplevel serial)
unfolding new_toplevel
new_toplevel-IsTold serial = send_configure-Sends serial _ [] [] _ refl (record {
  maximized_once = refl;
  fullscreen_once = refl;
  resizing_once = refl;
  activated_once = refl;
})

-- The states in the last xdg_toplevel.configure event, from the constructor on, refine the abstract mode
-- and activation after any calls of sendMaximized, sendUnmaximized, sendFullscreen and sendResizing with
-- valid sizes and any changes of the keyboard focus: each of the four sends the mode that it names and
-- keeps the activation, and the focus sets or clears the activation and keeps the mode.
pub run-Shows :
    (serial : ℕ) (cs : List Command)
    → all_valid cs ≡ true
    → Shows
        (final_mode cs normal)
        (final_activation cs false)
        (told [] ((new_toplevel serial).2 ++ (run cs (new_toplevel serial).0).1))
run-Shows serial cs v =
    let r = new_toplevel serial in
    rw (told-append [] r.2 (run cs r.0).1)
      (run-IsTold cs (told [] r.2) r.0 v (new_toplevel-IsTold serial))
