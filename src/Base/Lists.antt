-- ===== src/Base/Lists.antt =====
-- Lists measured and indexed by native numbers, under the library's names.
use Prim.Native.Nat.{ℕ, zero, suc, ◌+◌, ◌-◌, ◌<◌}
use mathlib.Core.Path.{◌≡◌, refl}
use mathlib.Core.Bool.{Bool, false, not, ◌||◌}
use mathlib.Core.List.{List, [], ◌∷◌, ◌++◌}
use mathlib.Core.Option.{Option, none, some}
use native.Mathlib.Omega.{arith}
use aurora_compositor.Base.Tests.{◌==◌, if◌then◌else◌}

module _ {ℓ} {A : Type ℓ} where
  abbrev pub length : List A → ℕ
  length [] = 0
  length (x ∷ xs) = suc (length xs)

  abbrev pub get_elem? : List A → ℕ → Option A
  get_elem? [] i = none
  get_elem? (x ∷ xs) zero = some x
  get_elem? (x ∷ xs) (suc i) = get_elem? xs i

  abbrev pub get_or : List A → ℕ → A → A
  get_or [] i d = d
  get_or (x ∷ xs) zero d = x
  get_or (x ∷ xs) (suc i) d = get_or xs i d

  abbrev pub drop : ℕ → List A → List A
  drop zero xs = xs
  drop (suc n) [] = []
  drop (suc n) (x ∷ xs) = drop n xs

  abbrev pub take : ℕ → List A → List A
  take zero xs = []
  take (suc n) [] = []
  take (suc n) (x ∷ xs) = x ∷ take n xs

  -- `last()` of a list, or `d` when it is empty.
  abbrev pub last_or : A → List A → A
  last_or d [] = d
  last_or d (x ∷ xs) = last_or x xs

  pub length-append : (xs ys : List A) → length (xs ++ ys) ≡ length xs + length ys
  length-append [] ys = omega arith
  length-append (x ∷ xs) ys = omega (arith, length-append xs ys)

module _ {ℓ} {A : Type ℓ} where
  pub last_or-append : (d y : A) (xs : List A) → last_or d (xs ++ y ∷ []) ≡ y
  last_or-append d y [] = refl
  last_or-append d y (x ∷ xs) = last_or-append x y xs

  pub length-drop : (n : ℕ) (xs : List A) → length (drop n xs) ≡ length xs - n
  length-drop zero xs = omega arith
  length-drop (suc n) [] = omega arith
  length-drop (suc n) (x ∷ xs) = omega (arith, length-drop n xs)

  -- An index below the length is answered.
  pub get_elem?-lt_length :
      (xs : List A) (i : ℕ) (d : A) → i < length xs → get_elem? xs i ≡ some (get_or xs i d)
  get_elem?-lt_length [] i d h = elim h [ ]
  get_elem?-lt_length (x ∷ xs) zero d h = refl
  get_elem?-lt_length (x ∷ xs) (suc i) d h = get_elem?-lt_length xs i d (omega arith)

-- Each element satisfies the predicate; at a list in constructors this is a tuple.
abbrev pub All {ℓ κ} : {A : Type ℓ} → (A → Type κ) → List A → Type κ
All holds [] = Unit
All holds (a ∷ rest) = holds a × All holds rest

-- `contains` of a container of numbers.
abbrev pub contains : ℕ → List ℕ → Bool
contains a [] = false
contains a (x ∷ xs) = (x == a) || contains a xs

-- How often a number stands in a list.
abbrev pub count : ℕ → List ℕ → ℕ
count s [] = 0
count s (x ∷ xs) = if x == s then 1 + count s xs else count s xs

pub count-append : (s : ℕ) (xs ys : List ℕ) → count s (xs ++ ys) ≡ count s xs + count s ys
count-append s [] ys = omega arith
count-append s (x ∷ xs) ys = ground (arith, count-append s xs ys)

-- A Boolean that is turned round at each element with the test.
module _ {ℓ} {A : Type ℓ} (test : A → Bool) where
  abbrev pub toggles_by : List A → Bool → Bool
  toggles_by [] b = b
  toggles_by (x ∷ xs) b = toggles_by xs (if test x then not b else b)

  pub toggles_by-append :
      (xs ys : List A) (b : Bool) → toggles_by (xs ++ ys) b ≡ toggles_by ys (toggles_by xs b)
  toggles_by-append [] ys b = refl
  toggles_by-append (x ∷ xs) ys b = toggles_by-append xs ys (if test x then not b else b)
