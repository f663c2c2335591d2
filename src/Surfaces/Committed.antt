-- ===== src/Surfaces/Committed.antt =====
-- What the commits of a history take over.
use aurora_compositor.Base.{
  ◌≡◌, refl, sym, ap, ◌∙◌, ℕ, Bool, true, false, List, [], ◌∷◌, Option, none, some, if◌then◌else◌,
  Bool-cases, inl, inr,
}
use aurora_compositor.Base.Int.{pos}
use aurora_compositor.Surfaces.{Surface, SurfaceEffect, new_surface}
use aurora_compositor.Surfaces.Commit.{
  surface_size, Buffers, commit, commit-some, finish, apply_pending,
}
use aurora_compositor.Surfaces.Requests.{
  Request, committed, update, step, run, is_commit, divides_by_zero, scale_of, or_else,
}
use aurora_compositor.Surfaces.Updates.{
  update-scale, update-shown_scale, update-buffer, update-next_buffer, next_buffer, buffer_set,
}
use aurora_compositor.Surfaces.Runs.{chain-some, step-some, run-returns}

-- The part of a history up to its last commit.
unfoldable pub has_commit : List Request → Bool
has_commit [] = false
has_commit (committed buffers views ∷ rs) = true
has_commit (r ∷ rs) = has_commit rs

unfoldable pub up_to_commit : List Request → List Request
unfolding has_commit
up_to_commit [] = []
up_to_commit (r ∷ rs) = if has_commit (r ∷ rs) then r ∷ up_to_commit rs else []

-- What the last request to set a value has set, or `a` if there is none.
unfoldable pub last_set : {A : Type 0} → (Request → Option A) → A → List Request → A
last_set set a [] = a
last_set set a (r ∷ rs) = last_set set (or_else (set r) a) rs

up_to_commit-none : (rs : List Request) → has_commit rs ≡ false → up_to_commit rs ≡ []
unfolding up_to_commit
up_to_commit-none [] h = refl
up_to_commit-none (r ∷ rs) h = simp h refl

-- A value of the surface, with the one that the next commit is to give it.
module _ {A : Type 0} (now next : Surface → A) (set : Request → Option A) where
  record Tracks : Type 0 where
    keeps : (r : Request) (s : Surface) → now (update r s).0 ≡ now s
    takes : (r : Request) (s : Surface) → next (update r s).0 ≡ or_else (set r) (next s)
    shows :
        (b : Buffers) (views : List ℕ) (s : Surface)
        → now (finish b views (surface_size b s) s).0 ≡ next s
    rests :
        (b : Buffers) (views : List ℕ) (s : Surface)
        → next (finish b views (surface_size b s) s).0 ≡ next s
    no_set : (b : Buffers) (views : List ℕ) → set (committed b views) ≡ none

  abbrev expected : List Request → A → A → A
  expected rs a n = if has_commit rs then last_set set n (up_to_commit rs) else a

  expected-cons :
      (r : Request) (rs : List Request) (a n : A)
      → is_commit r ≡ false
      → expected (r ∷ rs) a n ≡ expected rs a (or_else (set r) n)
  unfolding has_commit up_to_commit last_set
  expected-cons (committed b views) rs a n h = absurd cc
  expected-cons r rs a n h = by_commit (has_commit rs) (up_to_commit rs)
    where
      by_commit :
          (c : Bool) (before : List Request)
          → (if c then last_set set n (if c then r ∷ before else []) else a)
            ≡ (if c then last_set set (or_else (set r) n) before else a)
      by_commit true before = refl
      by_commit false before = refl

  expected-same : (rs : List Request) (a : A) → expected rs a a ≡ last_set set a (up_to_commit rs)
  unfolding last_set
  expected-same rs a = elim (Bool-cases (has_commit rs)) [
    | inl e ↦ simp e refl
    | inr e ↦ simp (e, up_to_commit-none rs e) refl
  ]

  expected-commit :
      (b : Buffers) (views : List ℕ) (rs : List Request) (a n : A)
      → set (committed b views) ≡ none
      → expected (committed b views ∷ rs) a n ≡ expected rs n n
  unfolding has_commit up_to_commit last_set
  expected-commit b views rs a n h =
      ap (λ o. last_set set (or_else o n) (up_to_commit rs)) h ∙ sym (expected-same rs n)

  updated :
      Tracks
      → (r : Request) (rs : List Request) (s s1 : Surface) (effects : List SurfaceEffect)
      → is_commit r ≡ false
      → step r s ≡ some (s1, effects)
      → expected rs (now s1) (next s1) ≡ expected (r ∷ rs) (now s) (next s)
  updated t r rs s s1 effects plain h =
      ap (λ p. expected rs (now p.0) (next p.0)) (sym (step-some r s s1 effects plain h))
      ∙ (rw (t.keeps r s, t.takes r s) refl ∙ sym (expected-cons r rs (now s) (next s) plain))

  tracks :
      Tracks
      → (rs : List Request) (s after : Surface) (effects : List SurfaceEffect)
      → run rs s ≡ some (after, effects)
      → now after ≡ expected rs (now s) (next s)
  unfolding run step has_commit
  tracks t [] s after effects h = cc
  tracks t (committed b views ∷ rs) s after effects h =
      let (s1, es, later, first, rest, all) =
        chain-some (run rs) (commit b views s) after effects h in
      let done = commit-some b views s s1 es first in
      tracks t rs s1 after later rest
      ∙ (ap (λ p. expected rs (now p.0) (next p.0)) (sym done)
          ∙ (rw (t.shows b views s, t.rests b views s) refl
              ∙ sym (expected-commit b views rs (now s) (next s) (t.no_set b views))))
  tracks t (r ∷ rs) s after effects h =
      let (s1, es, later, first, rest, all) = chain-some (run rs) (step r s) after effects h in
      tracks t rs s1 after later rest ∙ updated t r rs s s1 es refl first

buffer-Tracks : Tracks (λ s. s.buffer_ref) next_buffer buffer_set
unfolding finish apply_pending next_buffer buffer_set
buffer-Tracks = record {
  keeps = update-buffer;
  takes = update-next_buffer;
  shows = λ b views s. refl;
  rests = λ b views s. refl;
  no_set = λ b views. refl;
}

scale-Tracks : Tracks (λ s. s.buffer_scale) (λ s. s.pending.buffer_scale) scale_of
unfolding finish apply_pending scale_of
scale-Tracks = record {
  keeps = update-shown_scale;
  takes = update-scale;
  shows = λ b views s. refl;
  rests = λ b views s. refl;
  no_set = λ b views. refl;
}

-- A history of a new surface without a commit at a scale of 0 runs to its end. Then the surface has the
-- buffer that was attached last before the last commit, none without one, and the scale that was set
-- last before it, 1 without one.
pub run-takes_last :
    (rs : List Request)
    → divides_by_zero (pos 1) rs ≡ false
    → (after : Surface) × (effects : List SurfaceEffect) × (run rs new_surface
        ≡ some (after, effects))
      × (after.buffer_ref ≡ last_set buffer_set none (up_to_commit rs))
      × (after.buffer_scale ≡ last_set scale_of (pos 1) (up_to_commit rs))
unfolding next_buffer
run-takes_last rs h =
    let (after, effects, e) = run-returns rs new_surface h in
    (
      after,
      effects,
      e,
      tracks (λ s. s.buffer_ref) next_buffer buffer_set buffer-Tracks rs new_surface after effects e
          ∙ expected-same (λ s. s.buffer_ref) next_buffer buffer_set rs none,
      tracks (λ s. s.buffer_scale) (λ s. s.pending.buffer_scale) scale_of scale-Tracks rs
            new_surface after effects e
          ∙ expected-same (λ s. s.buffer_scale) (λ s. s.pending.buffer_scale) scale_of rs (pos 1),
    )
