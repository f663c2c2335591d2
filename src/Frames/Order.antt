-- ===== src/Frames/Order.antt =====
-- The order in which frame callbacks are sent.
use aurora_compositor.Base.{
  ℕ, suc, ◌≤◌, ◌≡◌, ◌⊎◌, inl, inr, refl, ap, true, false, List, [], ◌∷◌, ◌++◌, arith, ◌==◌, map,
  Bool-cases,
}
use aurora_compositor.Frames.{FrameCallback, set_can_send, remove_one}
use aurora_compositor.Frames.Sending.{names, ready, waiting}

-- The numbers rise strictly, from `lo` on and below `hi`.
abbrev pub IsRising : ℕ → ℕ → List ℕ → Type 0
IsRising lo hi [] = lo ≤ hi
IsRising lo hi (x ∷ xs) = (lo ≤ x) × IsRising (suc x) hi xs

pub IsRising-le : (lo hi : ℕ) (xs : List ℕ) → IsRising lo hi xs → lo ≤ hi
IsRising-le lo hi [] h = h
IsRising-le lo hi (x ∷ xs) (h, hs) = omega (arith, h, IsRising-le (suc x) hi xs hs)

IsRising-lower :
    (lo1 lo2 hi : ℕ) (xs : List ℕ) → lo1 ≤ lo2 → IsRising lo2 hi xs → IsRising lo1 hi xs
IsRising-lower lo1 lo2 hi [] k h = omega (arith, k, h)
IsRising-lower lo1 lo2 hi (x ∷ xs) k (h, hs) = (omega (arith, k, h), hs)

pub IsRising-append :
    (lo mid hi : ℕ) (xs ys : List ℕ)
    → IsRising lo mid xs
    → IsRising mid hi ys
    → IsRising lo hi (xs ++ ys)
IsRising-append lo mid hi [] ys h k = IsRising-lower lo mid hi ys h k
IsRising-append lo mid hi (x ∷ xs) ys (h, hs) k = (h, IsRising-append (suc x) mid hi xs ys hs k)

pub IsRising-split :
    (lo hi : ℕ) (xs ys : List ℕ)
    → IsRising lo hi (xs ++ ys)
    → (mid : ℕ) × IsRising lo mid xs × IsRising mid hi ys
IsRising-split lo hi [] ys h = (lo, omega arith, h)
IsRising-split lo hi (x ∷ xs) ys (h, hs) =
    let (mid, a, b) = IsRising-split (suc x) hi xs ys hs in (mid, (h, a), b)

pub remove_one-IsRising :
    (lo hi name : ℕ) (cs : List FrameCallback)
    → IsRising lo hi (names cs)
    → IsRising lo hi (names (remove_one name cs))
remove_one-IsRising lo hi name [] h = h
remove_one-IsRising lo hi name (c ∷ cs) (h, hs) = elim (Bool-cases (c.name == name)) [
  | inl e ↦ simp e (IsRising-lower lo (suc c.name) hi (names cs) (omega (arith, h)) hs)
  | inr e ↦ simp e (h, remove_one-IsRising (suc c.name) hi name cs hs)
]

-- None can be sent; those that can be sent come first.
abbrev pub IsWaiting : List FrameCallback → Type 0
IsWaiting [] = Unit
IsWaiting (c ∷ cs) = (c.can_send ≡ false) × IsWaiting cs

abbrev pub IsReadyFirst : List FrameCallback → Type 0
IsReadyFirst [] = Unit
IsReadyFirst (c ∷ cs) = ((c.can_send ≡ true) × IsReadyFirst cs) ⊎ IsWaiting (c ∷ cs)

pub IsWaiting_lem : (cs : List FrameCallback) → IsWaiting cs → (ready cs ≡ []) × (waiting cs ≡ cs)
IsWaiting_lem [] h = (refl, refl)
IsWaiting_lem (c ∷ cs) (h, hs) =
    let (a, b) = IsWaiting_lem cs hs in (simp (h, a) refl, simp (h, b) refl)

pub IsReadyFirst_lem :
    (cs : List FrameCallback)
    → IsReadyFirst cs
    → (cs ≡ ready cs ++ waiting cs) × IsWaiting (waiting cs)
IsReadyFirst_lem [] h = (refl, tt)
IsReadyFirst_lem (c ∷ cs) (inl (h, hs)) =
    let (a, b) = IsReadyFirst_lem cs hs in (simp h (ap (◌∷◌ c) a), simp h b)
IsReadyFirst_lem (c ∷ cs) (inr w) =
    let (a, b) = IsWaiting_lem (c ∷ cs) w in (simp (a, b) refl, simp b w)

pub IsReadyFirst-of_waiting : (cs : List FrameCallback) → IsWaiting cs → IsReadyFirst cs
IsReadyFirst-of_waiting [] h = tt
IsReadyFirst-of_waiting (c ∷ cs) h = inr h

pub IsWaiting-append :
    (xs ys : List FrameCallback) → IsWaiting xs → IsWaiting ys → IsWaiting (xs ++ ys)
IsWaiting-append [] ys h k = k
IsWaiting-append (x ∷ xs) ys (h, hs) k = (h, IsWaiting-append xs ys hs k)

pub IsReadyFirst-append :
    (xs ys : List FrameCallback) → IsReadyFirst xs → IsWaiting ys → IsReadyFirst (xs ++ ys)
IsReadyFirst-append [] ys h k = IsReadyFirst-of_waiting ys k
IsReadyFirst-append (x ∷ xs) ys (inl (h, hs)) k = inl (h, IsReadyFirst-append xs ys hs k)
IsReadyFirst-append (x ∷ xs) ys (inr w) k = inr (IsWaiting-append (x ∷ xs) ys w k)

pub started-IsReadyFirst : (cs : List FrameCallback) → IsReadyFirst (map set_can_send cs)
started-IsReadyFirst [] = tt
started-IsReadyFirst (c ∷ cs) = inl (refl, started-IsReadyFirst cs)

pub names-started : (cs : List FrameCallback) → names (map set_can_send cs) ≡ names cs
names-started [] = refl
names-started (c ∷ cs) = ap (◌∷◌ c.name) (names-started cs)

pub remove_one-IsWaiting :
    (name : ℕ) (cs : List FrameCallback) → IsWaiting cs → IsWaiting (remove_one name cs)
remove_one-IsWaiting name [] h = tt
remove_one-IsWaiting name (c ∷ cs) (h, hs) = elim (Bool-cases (c.name == name)) [
  | inl e ↦ simp e hs
  | inr e ↦ simp e (h, remove_one-IsWaiting name cs hs)
]

pub remove_one-IsReadyFirst :
    (name : ℕ) (cs : List FrameCallback) → IsReadyFirst cs → IsReadyFirst (remove_one name cs)
remove_one-IsReadyFirst name [] h = tt
remove_one-IsReadyFirst name (c ∷ cs) (inr w) =
    IsReadyFirst-of_waiting _ (remove_one-IsWaiting name (c ∷ cs) w)
remove_one-IsReadyFirst name (c ∷ cs) (inl (h, hs)) = elim (Bool-cases (c.name == name)) [
  | inl e ↦ simp e hs
  | inr e ↦ simp e (inl (h, remove_one-IsReadyFirst name cs hs))
]
