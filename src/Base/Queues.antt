-- ===== src/Base/Queues.antt =====
-- A queue from which entries are taken until one with a given key.
use Prim.Native.Nat.{ℕ}
use mathlib.Core.Path.{◌≡◌, refl, ap}
use mathlib.Core.Logic.{◌≢◌, ◌⊎◌, inl, inr}
use mathlib.Core.List.{List, [], ◌∷◌, ◌++◌}
use mathlib.Core.Option.{Option, none, some}
use native.Mathlib.Omega.{arith}
use aurora_compositor.Base.Tests.{◌==◌, if◌then◌else◌, Bool-cases, ==_iff}
use aurora_compositor.Base.Lists.{All}

module _ {ℓ} {A : Type ℓ} (key : A → ℕ) where
  -- `none`: the queue ran empty.
  abbrev pub take_until : ℕ → List A → Option (A × List A)
  take_until k [] = none
  take_until k (x ∷ xs) = let rest = take_until k xs in if key x == k then some (x, xs) else rest

  -- No entry has the key, or the first that has it is taken with all before it.
  pub take_until_cases :
      (k : ℕ) (xs : List A)
      → ((take_until k xs ≡ none) × All (λ x. key x ≢ k) xs)
        ⊎ ((older : List A) × (x : A) × (rest : List A) × (take_until k xs ≡ some (x, rest))
            × (xs ≡ older ++ x ∷ rest)
            × (key x ≡ k)
            × All (λ y. key y ≢ k) older)
  take_until_cases k [] = inl (refl, tt)
  take_until_cases k (x ∷ xs) = elim (Bool-cases (key x == k)) [
    | inl hit ↦ inr ([], x, xs, simp hit refl, refl, (==_iff _ _).0 hit, tt)
    | inr miss ↦ elim (take_until_cases k xs) [
      | inl (e, w) ↦ inl (simp miss e, (ground arith, w))
      | inr (older, y, rest, e, split, same, w) ↦
          inr (x ∷ older, y, rest, simp miss e, ap (◌∷◌ x) split, same, (ground arith, w))
    ]
  ]

  pub take_until-last :
      (xs : List A) (x : A)
      → All (λ y. key y ≢ key x) xs
      → take_until (key x) (xs ++ x ∷ []) ≡ some (x, [])
  take_until-last [] x w = ground arith
  take_until-last (y ∷ xs) x (h, w) = ground (arith, take_until-last xs x w)
