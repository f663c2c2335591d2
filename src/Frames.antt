-- ===== src/Frames.antt =====
-- The frame callbacks of a surface: WaylandSurfacePrivate and Internal::FrameCallback in
-- src/compositor/compositor_api/aurorawaylandsurface.cpp.
pub mod Sending
pub mod Order
pub mod Histories
mod Tests
use aurora_compositor.Base.{
  ℕ, zero, suc, Bool, true, false, List, [], ◌∷◌, ◌++◌, Option, none, some, ◌==◌, if◌then◌else◌,
  length, get_elem?, map,
}

-- A callback is named by the count of the frame requests before it.
pub record FrameCallback : Type 0 where
  pub name : ℕ
  pub can_send : Bool

-- `sent` is the log of the `done` events, the oldest first.
pub record Frames : Type 0 where
  pub pending_frame_callbacks : List FrameCallback
  pub frame_callbacks : List FrameCallback
  pub next : ℕ
  pub sent : List ℕ

abbrev pub no_frames : Frames
no_frames = record { pending_frame_callbacks = []; frame_callbacks = []; next = 0; sent = [] }

unfoldable pub frame : Frames → Frames
frame s = record s {
  pending_frame_callbacks =
      s.pending_frame_callbacks ++ record { name = s.next; can_send = false } ∷ [];
  next = suc s.next;
}

-- What a commit of the surface does to the callbacks.
unfoldable pub commit_frames : Frames → Frames
commit_frames s = record s {
  frame_callbacks = s.frame_callbacks ++ s.pending_frame_callbacks;
  pending_frame_callbacks = [];
}

abbrev pub set_can_send : FrameCallback → FrameCallback
set_can_send c = record c { can_send = true }

unfoldable pub frame_started : Frames → Frames
frame_started s = record s { frame_callbacks = map set_can_send s.frame_callbacks }

abbrev pub remove_at {ℓ} : {A : Type ℓ} → ℕ → List A → List A
remove_at i [] = []
remove_at zero (x ∷ xs) = xs
remove_at (suc i) (x ∷ xs) = x ∷ remove_at i xs

-- The loop of sendFrameCallbacks from the index `i`, which stays where a callback is taken out; the
-- first argument bounds the rounds.
unfoldable pub send_loop : ℕ → ℕ → List FrameCallback → List FrameCallback × List ℕ
send_loop zero i cs = (cs, [])
send_loop (suc rounds) i cs = elim (get_elem? cs i) [
  | none ↦ (cs, [])
  | some c ↦ elim c.can_send [
    | true ↦ let (left, names) = send_loop rounds i (remove_at i cs) in (left, c.name ∷ names)
    | false ↦ send_loop rounds (suc i) cs
  ]
]

-- Each round takes a callback out or passes it, so that the length is enough rounds.
unfoldable pub send_frame_callbacks : Frames → Frames
send_frame_callbacks s =
    let (left, names) = send_loop (length s.frame_callbacks) 0 s.frame_callbacks in
    record s { frame_callbacks = left; sent = s.sent ++ names }

-- `removeOne`.
abbrev pub remove_one : ℕ → List FrameCallback → List FrameCallback
remove_one name [] = []
remove_one name (c ∷ cs) = let rest = remove_one name cs in if c.name == name then cs else c ∷ rest

-- The resource of a callback is destroyed before it is sent (destroyCallback).
unfoldable pub remove_frame_callback : ℕ → Frames → Frames
remove_frame_callback name s = record s {
  pending_frame_callbacks = remove_one name s.pending_frame_callbacks;
  frame_callbacks = remove_one name s.frame_callbacks;
}

pub data FrameOp : Type 0 where
  request : FrameOp
  commit : FrameOp
  start : FrameOp
  send : FrameOp
  remove : ℕ → FrameOp

unfoldable pub step : FrameOp → Frames → Frames
step request s = frame s
step commit s = commit_frames s
step start s = frame_started s
step send s = send_frame_callbacks s
step (remove name) s = remove_frame_callback name s

unfoldable pub run : List FrameOp → Frames → Frames
run [] s = s
run (op ∷ ops) s = run ops (step op s)
