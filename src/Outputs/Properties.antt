-- ===== src/Outputs/Properties.antt =====
-- Histories of requests on the configuration of a head.
use aurora_compositor.Base.{
  ◌≡◌, refl, ◌∙◌, arith, ℕ, Bool, true, false, ◌&&◌, ◌||◌, List, [], ◌∷◌, Option, none, some,
  if◌then◌else◌,
}
use aurora_compositor.Base.Int.{ℤ, pos, leb_ℤ, ltb_ℤ}
use aurora_compositor.Geometry.{Size, Point}
use aurora_compositor.Outputs.{ConfigEffect}
use aurora_compositor.Outputs.Head.{
  ConfigHead, new_head, take_mode, set_mode, set_custom_mode, set_position, set_transform,
  set_scale,
}

pub data HeadRequest : Type 0 where
  mode_wanted : Option ℕ → HeadRequest
  custom_mode_wanted : Size → ℤ → HeadRequest
  position_wanted : Point → HeadRequest
  transform_wanted scale_wanted : ℤ → HeadRequest

-- `modes` are the modes of the head.
unfoldable pub step : List ℕ → HeadRequest → ConfigHead → ConfigHead × List ConfigEffect
unfolding set_mode set_custom_mode set_position set_transform set_scale
step modes (mode_wanted mode) h = set_mode modes mode h
step modes (custom_mode_wanted size refresh) h = set_custom_mode size refresh h
step modes (position_wanted p) h = set_position p h
step modes (transform_wanted t) h = set_transform t h
step modes (scale_wanted v) h = set_scale v h

unfoldable pub run : List ℕ → List HeadRequest → ConfigHead → ConfigHead
unfolding step
run modes [] h = h
run modes (r ∷ rs) h = run modes rs (step modes r h).0

-- What the first request that asks for a value asks for, or `a` if there is none.
abbrev pub first_or : {A : Type 0} → Option A → A → A
first_or none b = b
first_or (some c) b = c

unfoldable pub first : {A : Type 0} → (HeadRequest → Option A) → A → List HeadRequest → A
first ask a [] = a
first ask a (r ∷ rs) = first_or (ask r) (first ask a rs)

unfoldable pub position_asked : HeadRequest → Option Point
position_asked (position_wanted p) = some p
position_asked r = none

-- A request that is refused for its value does not count.
unfoldable pub transform_asked : HeadRequest → Option ℤ
transform_asked (transform_wanted t) = if leb_ℤ (pos 0) t && leb_ℤ t (pos 7) then some t else none
transform_asked r = none

unfoldable pub scale_asked : HeadRequest → Option ℤ
scale_asked (scale_wanted v) = if ltb_ℤ (pos 0) v then some v else none
scale_asked r = none

abbrev is_asked : {A : Type 0} → Option A → Bool
is_asked none = false
is_asked (some a) = true

-- A value that the first request for it sets, and the mark that it is set.
module _ {A : Type 0} (value : ConfigHead → A) (mark : ConfigHead → Bool)
    (ask : HeadRequest → Option A) where
  record SetsOnce (modes : List ℕ) : Type 0 where
    sets :
        (r : HeadRequest) (h : ConfigHead)
        → value (step modes r h).0 ≡ (if mark h then value h else first_or (ask r) (value h))
    marks :
        (r : HeadRequest) (h : ConfigHead) → mark (step modes r h).0 ≡ (mark h || is_asked (ask r))

  run-first :
      {modes : List ℕ}
      → SetsOnce modes
      → (rs : List HeadRequest) (h : ConfigHead)
      → value (run modes rs h) ≡ (if mark h then value h else first ask (value h) rs)
  unfolding run first
  run-first t [] h = same (mark h)
    where
      same : (b : Bool) → value h ≡ (if b then value h else value h)
      same true = refl
      same false = refl
  run-first {modes} t (r ∷ rs) h =
      run-first t rs (step modes r h).0
      ∙ (rw (t.sets r h, t.marks r h) refl ∙ joined (mark h) (ask r))
    where
      joined :
          (b : Bool) (o : Option A)
          → (if b || is_asked o
              then (if b then value h else first_or o (value h))
              else first ask (if b then value h else first_or o (value h)) rs)
            ≡ (if b then value h else first_or o (first ask (value h) rs))
      joined true o = refl
      joined false none = refl
      joined false (some a) = refl

position-SetsOnce :
    (modes : List ℕ) → SetsOnce (λ h. h.position) (λ h. h.position_set) position_asked modes
unfolding step set_mode take_mode set_custom_mode set_position set_transform set_scale
    position_asked
position-SetsOnce modes = record { sets = sets; marks = marks }
  where
    sets :
        (r : HeadRequest) (h : ConfigHead)
        → (step modes r h).0.position
          ≡ (if h.position_set then h.position else first_or (position_asked r) h.position)
    sets (mode_wanted none) h = ground arith
    sets (mode_wanted (some m)) h = ground arith
    sets r h = ground arith

    marks :
        (r : HeadRequest) (h : ConfigHead)
        → (step modes r h).0.position_set ≡ (h.position_set || is_asked (position_asked r))
    marks (mode_wanted none) h = ground arith
    marks (mode_wanted (some m)) h = ground arith
    marks r h = ground arith

transform-SetsOnce :
    (modes : List ℕ) → SetsOnce (λ h. h.transform) (λ h. h.transform_set) transform_asked modes
unfolding step set_mode take_mode set_custom_mode set_position set_transform set_scale
    transform_asked
transform-SetsOnce modes = record { sets = sets; marks = marks }
  where
    sets :
        (r : HeadRequest) (h : ConfigHead)
        → (step modes r h).0.transform
          ≡ (if h.transform_set then h.transform else first_or (transform_asked r) h.transform)
    sets (mode_wanted none) h = ground arith
    sets (mode_wanted (some m)) h = ground arith
    sets r h = ground arith

    marks :
        (r : HeadRequest) (h : ConfigHead)
        → (step modes r h).0.transform_set ≡ (h.transform_set || is_asked (transform_asked r))
    marks (mode_wanted none) h = ground arith
    marks (mode_wanted (some m)) h = ground arith
    marks r h = ground arith

scale-SetsOnce : (modes : List ℕ) → SetsOnce (λ h. h.scale) (λ h. h.scale_set) scale_asked modes
unfolding step set_mode take_mode set_custom_mode set_position set_transform set_scale scale_asked
scale-SetsOnce modes = record { sets = sets; marks = marks }
  where
    sets :
        (r : HeadRequest) (h : ConfigHead)
        → (step modes r h).0.scale
          ≡ (if h.scale_set then h.scale else first_or (scale_asked r) h.scale)
    sets (mode_wanted none) h = ground arith
    sets (mode_wanted (some m)) h = ground arith
    sets r h = ground arith

    marks :
        (r : HeadRequest) (h : ConfigHead)
        → (step modes r h).0.scale_set ≡ (h.scale_set || is_asked (scale_asked r))
    marks (mode_wanted none) h = ground arith
    marks (mode_wanted (some m)) h = ground arith
    marks r h = ground arith

-- Whatever requests come for the configuration of a head, its position, transform and scale are those
-- that the first request which asks for one with a valid value asks for, and those of the start
-- without one.
pub run-takes_first :
    (modes : List ℕ) (rs : List HeadRequest)
    → ((run modes rs new_head).position ≡ first position_asked new_head.position rs)
      × ((run modes rs new_head).transform ≡ first transform_asked (pos 0) rs)
      × ((run modes rs new_head).scale ≡ first scale_asked (pos 256) rs)
run-takes_first modes rs = (
  run-first (λ h. h.position) (λ h. h.position_set) position_asked (position-SetsOnce modes) rs
      new_head,
  run-first (λ h. h.transform) (λ h. h.transform_set) transform_asked (transform-SetsOnce modes) rs
      new_head,
  run-first (λ h. h.scale) (λ h. h.scale_set) scale_asked (scale-SetsOnce modes) rs new_head,
)
