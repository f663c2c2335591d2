-- ===== src/Frames/Sending.antt =====
-- The loop that sends the frame callbacks.
use aurora_compositor.Base.{
  ℕ, suc, ◌≡◌, refl, ap, ◌∙◌, true, false, List, [], ◌∷◌, ◌++◌, some, if◌then◌else◌, length,
  get_elem?, map, Bool-cases, inl, inr,
}
use aurora_compositor.Frames.{
  FrameCallback, Frames, set_can_send, remove_at, send_loop, send_frame_callbacks, commit_frames,
  frame_started,
}

-- The names of the callbacks that can be sent, and those that wait.
abbrev pub names : List FrameCallback → List ℕ
names [] = []
names (c ∷ cs) = c.name ∷ names cs

abbrev pub ready : List FrameCallback → List FrameCallback
ready [] = []
ready (c ∷ cs) = let rest = ready cs in if c.can_send then c ∷ rest else rest

abbrev pub waiting : List FrameCallback → List FrameCallback
waiting [] = []
waiting (c ∷ cs) = let rest = waiting cs in if c.can_send then rest else c ∷ rest

module _ {ℓ} {A : Type ℓ} where
  get_elem?-middle :
      (xs : List A) (y : A) (ys : List A) → get_elem? (xs ++ y ∷ ys) (length xs) ≡ some y
  get_elem?-middle [] y ys = refl
  get_elem?-middle (x ∷ xs) y ys = get_elem?-middle xs y ys

  remove_at-middle :
      (xs : List A) (y : A) (ys : List A) → remove_at (length xs) (xs ++ y ∷ ys) ≡ xs ++ ys
  remove_at-middle [] y ys = refl
  remove_at-middle (x ∷ xs) y ys = ap (◌∷◌ x) (remove_at-middle xs y ys)

  pub append_assoc : (xs ys zs : List A) → (xs ++ ys) ++ zs ≡ xs ++ (ys ++ zs)
  append_assoc [] ys zs = refl
  append_assoc (x ∷ xs) ys zs = ap (◌∷◌ x) (append_assoc xs ys zs)

  pub append-nil : (xs : List A) → xs ++ [] ≡ xs
  append-nil [] = refl
  append-nil (x ∷ xs) = ap (◌∷◌ x) (append-nil xs)

  length-snoc : (xs : List A) (y : A) → length (xs ++ y ∷ []) ≡ suc (length xs)
  length-snoc [] y = refl
  length-snoc (x ∷ xs) y = ap suc (length-snoc xs y)

-- One round, at a callback that can be sent and at one that waits.
round_ready :
    (n : ℕ) (xs : List FrameCallback) (y : FrameCallback) (ys : List FrameCallback)
    → y.can_send ≡ true
    → send_loop (suc n) (length xs) (xs ++ y ∷ ys)
      ≡ ((send_loop n (length xs) (xs ++ ys)).0, y.name ∷ (send_loop n (length xs) (xs ++ ys)).1)
unfolding send_loop
round_ready n xs y ys e =
    simp (send_loop, get_elem?-middle xs y ys, e, remove_at-middle xs y ys) refl

round_waiting :
    (n : ℕ) (xs : List FrameCallback) (y : FrameCallback) (ys : List FrameCallback)
    → y.can_send ≡ false
    → send_loop (suc n) (length xs) (xs ++ y ∷ ys)
      ≡ send_loop n (length (xs ++ y ∷ [])) ((xs ++ y ∷ []) ++ ys)
unfolding send_loop
round_waiting n xs y ys e =
    simp (send_loop, length-snoc xs y, append_assoc xs (y ∷ []) ys, get_elem?-middle xs y ys, e)
      refl

-- From any index, the loop keeps what is before it and splits the rest.
send_loop-split :
    (ys xs : List FrameCallback)
    → send_loop (length ys) (length xs) (xs ++ ys) ≡ (xs ++ waiting ys, names (ready ys))
unfolding send_loop
send_loop-split [] xs = refl
send_loop-split (y ∷ ys) xs = elim (Bool-cases y.can_send) [
  | inl e ↦ round_ready (length ys) xs y ys e ∙ rw (e, send_loop-split ys xs) refl
  | inr e ↦
      round_waiting (length ys) xs y ys e
      ∙ send_loop-split ys (xs ++ y ∷ [])
      ∙ simp (e, append_assoc xs (y ∷ []) (waiting ys)) refl
]

-- Sending sends the callbacks that a frame was started for, each once and in their order, and keeps
-- the others in theirs.
pub send_frame_callbacks-splits :
    (s : Frames)
    → send_frame_callbacks s ≡ record s {
      frame_callbacks = waiting s.frame_callbacks;
      sent = s.sent ++ names (ready s.frame_callbacks);
    }
unfolding send_frame_callbacks
send_frame_callbacks-splits s = rw (send_loop-split s.frame_callbacks []) refl

pub ready-started :
    (cs : List FrameCallback)
    → (names (ready (map set_can_send cs)) ≡ names cs) × (waiting (map set_can_send cs) ≡ [])
ready-started [] = (refl, refl)
ready-started (c ∷ cs) = let (a, b) = ready-started cs in (ap (◌∷◌ c.name) a, b)

pub names-append : (xs ys : List FrameCallback) → names (xs ++ ys) ≡ names xs ++ names ys
names-append [] ys = refl
names-append (x ∷ xs) ys = ap (◌∷◌ x.name) (names-append xs ys)

-- A commit, a started frame and the sending after it answer every request made before the commit, the
-- earlier first, and leave no callback behind.
pub frame_cycle :
    (s : Frames)
    → send_frame_callbacks (frame_started (commit_frames s)) ≡ record s {
      frame_callbacks = [];
      pending_frame_callbacks = [];
      sent = s.sent ++ (names s.frame_callbacks ++ names s.pending_frame_callbacks);
    }
unfolding commit_frames frame_started
frame_cycle s =
    let (a, b) = ready-started (s.frame_callbacks ++ s.pending_frame_callbacks) in
    send_frame_callbacks-splits _
    ∙ rw (a, b, names-append s.frame_callbacks s.pending_frame_callbacks) refl
