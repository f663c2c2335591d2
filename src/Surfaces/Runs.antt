-- ===== src/Surfaces/Runs.antt =====
-- A run of requests and its parts.
use aurora_compositor.Base.{
  ◌≡◌, refl, sym, inl, inr, Bool-cases, ap, ◌∙◌, Bool, true, false, List, [], ◌∷◌, ◌++◌, Option,
  none, some,
}
use aurora_compositor.Base.Int.{ℤ, pos, eq_ℤ}
use aurora_compositor.Surfaces.{Surface, SurfaceEffect}
use aurora_compositor.Surfaces.Commit.{
  commit, finish, commit-finish, commit-none, surface_size, apply_pending,
}
use aurora_compositor.Surfaces.Requests.{
  Request, committed, update, step, run, also, chain, is_commit, or_else, scale_of, divides_by_zero,
}
use aurora_compositor.Surfaces.Updates.{update-scale}

pub step-update : (r : Request) (s : Surface) → is_commit r ≡ false → step r s ≡ some (update r s)
unfolding step
step-update (committed buffers views) s h = absurd cc
step-update r s h = refl

pub step-some :
    (r : Request) (s after : Surface) (effects : List SurfaceEffect)
    → is_commit r ≡ false
    → step r s ≡ some (after, effects)
    → update r s ≡ (after, effects)
step-some r s after effects h e =
    let returned : some (update r s) ≡ some (after, effects) = sym (step-update r s h) ∙ e in cc

pub divides_by_zero-cons :
    (r : Request) (rs : List Request) (n : ℤ)
    → is_commit r ≡ false
    → divides_by_zero n (r ∷ rs) ≡ divides_by_zero (or_else (scale_of r) n) rs
unfolding divides_by_zero scale_of
divides_by_zero-cons (committed buffers views) rs n h = absurd cc
divides_by_zero-cons r rs n h = refl

unfoldable pub is_none : Option (Surface × List SurfaceEffect) → Bool
is_none none = true
is_none (some r) = false

is_none-also :
    (es : List SurfaceEffect) (o : Option (Surface × List SurfaceEffect))
    → is_none (also es o) ≡ is_none o
unfolding is_none
is_none-also es none = refl
is_none-also es (some (s, later)) = refl

pub run-is_none :
    (rs : List Request) (s : Surface)
    → is_none (run rs s) ≡ divides_by_zero s.pending.buffer_scale rs
unfolding run step is_none divides_by_zero commit finish apply_pending
run-is_none [] s = refl
run-is_none (committed b views ∷ rs) s = elim (Bool-cases (eq_ℤ s.pending.buffer_scale (pos 0))) [
  | inl e ↦ ap (λ o. is_none (chain (run rs) o)) (commit-none b views s e) ∙ simp e refl
  | inr e ↦
      ap (λ o. is_none (chain (run rs) o)) (commit-finish b views s e)
      ∙ (is_none-also (finish b views (surface_size b s) s).1
            (run rs (finish b views (surface_size b s) s).0)
          ∙ (run-is_none rs (finish b views (surface_size b s) s).0 ∙ simp (finish, e) refl))
]
run-is_none (r ∷ rs) s =
    is_none-also (update r s).1 (run rs (update r s).0)
    ∙ (run-is_none rs (update r s).0
        ∙ (ap (λ n. divides_by_zero n rs) (update-scale r s)
            ∙ sym (divides_by_zero-cons r rs s.pending.buffer_scale refl)))

-- The first request and the rest of a run that returns.
pub chain-some :
    (next : Surface → Option (Surface × List SurfaceEffect))
    (first : Option (Surface × List SurfaceEffect)) (after : Surface) (effects : List SurfaceEffect)
    → chain next first ≡ some (after, effects)
    → (s : Surface) × (now : List SurfaceEffect) × (later : List SurfaceEffect) × (first
        ≡ some (s, now))
      × (next s ≡ some (after, later))
      × (effects ≡ now ++ later)
chain-some next none after effects h = absurd cc
chain-some next (some (s, now)) after effects h = rest (next s) refl h
  where
    rest :
        (o : Option (Surface × List SurfaceEffect))
        → next s ≡ o
        → also now o ≡ some (after, effects)
        → (s' : Surface) × (now' : List SurfaceEffect) × (later : List SurfaceEffect) × ◌≡◌
            {A = Option (Surface × List SurfaceEffect)}
            (some (s, now))
            (some (s', now'))
          × (next s' ≡ some (after, later))
          × (effects ≡ now' ++ later)
    rest none e g = absurd cc
    rest (some (s2, later)) e g = (s, now, later, refl, e ∙ cc, cc)

pub run-returns :
    (rs : List Request) (s : Surface)
    → divides_by_zero s.pending.buffer_scale rs ≡ false
    → (after : Surface) × (effects : List SurfaceEffect) × (run rs s ≡ some (after, effects))
unfolding is_none
run-returns rs s h = returned (run rs s) refl (run-is_none rs s ∙ h)
  where
    returned :
        (o : Option (Surface × List SurfaceEffect))
        → run rs s ≡ o
        → is_none o ≡ false
        → (after : Surface) × (effects : List SurfaceEffect) × (run rs s ≡ some (after, effects))
    returned none e k = absurd cc
    returned (some (after, effects)) e k = (after, effects, e)
