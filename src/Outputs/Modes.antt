-- ===== src/Outputs/Modes.antt =====
-- The mode and the custom mode of a configured head.
use aurora_compositor.Base.{
  if_lem, ◌≡◌, refl, arith, ℕ, Bool, true, false, not, ◌&&◌, ◌||◌, List, [], ◌∷◌, Option, none,
  some, if◌then◌else◌, contains,
}
use aurora_compositor.Base.Int.{ℤ, pos, eq_ℤ, ltb_ℤ, leb_ℤ}
use aurora_compositor.Geometry.{Size, eq_size}
use aurora_compositor.Outputs.{ConfigEffect}
use aurora_compositor.Outputs.Head.{
  ConfigHead, new_head, zero_size, found, take_mode, set_mode, set_custom_mode, set_position,
  set_transform, set_scale,
}
use aurora_compositor.Outputs.Properties.{
  HeadRequest, mode_wanted, custom_mode_wanted, position_wanted, transform_wanted, scale_wanted,
  step, run,
}

-- No custom mode beside a mode, which is one of the head, and otherwise none or a full one.
abbrev is_exclusive : List ℕ → Option ℕ → Size → ℤ → Bool
is_exclusive modes none size refresh =
    (eq_size size zero_size && eq_ℤ refresh (pos 0))
    || (ltb_ℤ (pos 0) size.width && ltb_ℤ (pos 0) size.height && ltb_ℤ (pos 0) refresh)
is_exclusive modes (some m) size refresh =
    contains m modes && (eq_size size zero_size && eq_ℤ refresh (pos 0))

unfoldable pub has_one_mode : List ℕ → ConfigHead → Bool
has_one_mode modes h = is_exclusive modes h.mode h.custom_mode_size h.custom_mode_refresh

keeps_if :
    (modes : List ℕ) (c : Bool) (p q : ConfigHead × List ConfigEffect)
    → (c ≡ true → has_one_mode modes p.0 ≡ true)
    → (c ≡ false → has_one_mode modes q.0 ≡ true)
    → has_one_mode modes (if c then p else q).0 ≡ true
keeps_if modes = if_lem (λ (p : ConfigHead × List ConfigEffect). has_one_mode modes p.0 ≡ true)

no_mode :
    (modes : List ℕ) (o : Option ℕ) (size : Size) (v : ℤ)
    → is_exclusive modes o size v ≡ true
    → is_exclusive modes none size v ≡ true
no_mode modes none size v k = k
no_mode modes (some m) size v k = no_custom (contains m modes) _ _ k
  where
    no_custom : (a b c : Bool) → (a && b) ≡ true → (b || c) ≡ true
    no_custom true true c h = refl
    no_custom true false c h = absurd cc
    no_custom false b c h = absurd cc

take_mode-has_one_mode :
    (modes : List ℕ) (mode : Option ℕ) (h : ConfigHead)
    → not (found modes mode) ≡ false
    → has_one_mode modes h ≡ true
    → has_one_mode modes (take_mode mode h).0 ≡ true
unfolding take_mode has_one_mode
take_mode-has_one_mode modes none h there k =
    no_mode modes h.mode h.custom_mode_size h.custom_mode_refresh k
take_mode-has_one_mode modes (some m) h there k = ground arith

full :
    (size : Size) (v : ℤ)
    → (leb_ℤ size.width (pos 0) || leb_ℤ size.height (pos 0) || leb_ℤ v (pos 0)) ≡ false
    → is_exclusive [] none size v ≡ true
full size v valid = ground arith

step-has_one_mode :
    (modes : List ℕ) (r : HeadRequest) (h : ConfigHead)
    → has_one_mode modes h ≡ true
    → has_one_mode modes (step modes r h).0 ≡ true
unfolding step set_mode take_mode set_custom_mode set_position set_transform set_scale has_one_mode
step-has_one_mode modes (mode_wanted mode) h k =
    keeps_if modes h.mode_set _ _ (λ e. k)
      (λ e.
        keeps_if modes (not (found modes mode)) _ _ (λ missing. k)
          (λ there. take_mode-has_one_mode modes mode h there k))
step-has_one_mode modes (custom_mode_wanted size v) h k =
    keeps_if modes (leb_ℤ size.width (pos 0) || leb_ℤ size.height (pos 0) || leb_ℤ v (pos 0)) _ _
      (λ e. k) (λ valid. keeps_if modes h.custom_mode_set _ _ (λ e. k) (λ e. full size v valid))
step-has_one_mode modes (position_wanted p) h k =
    keeps_if modes h.position_set _ _ (λ e. k) (λ e. k)
step-has_one_mode modes (transform_wanted t) h k =
    keeps_if modes (ltb_ℤ t (pos 0) || ltb_ℤ (pos 7) t) _ _ (λ e. k)
      (λ e. keeps_if modes h.transform_set _ _ (λ e. k) (λ e. k))
step-has_one_mode modes (scale_wanted v) h k =
    keeps_if modes (leb_ℤ v (pos 0)) _ _ (λ e. k)
      (λ e. keeps_if modes h.scale_set _ _ (λ e. k) (λ e. k))

-- Whatever requests come for the configuration of a head, a mode that it has is one of the head and
-- stands without a custom mode, and a custom mode has a size and a refresh rate above 0.
pub run-has_one_mode :
    (modes : List ℕ) (rs : List HeadRequest) → has_one_mode modes (run modes rs new_head) ≡ true
unfolding has_one_mode run
run-has_one_mode modes rs = keeps modes rs new_head refl
  where
    keeps :
        (modes : List ℕ) (rs : List HeadRequest) (h : ConfigHead)
        → has_one_mode modes h ≡ true
        → has_one_mode modes (run modes rs h) ≡ true
    keeps modes [] h k = k
    keeps modes (r ∷ rs) h k = keeps modes rs (step modes r h).0 (step-has_one_mode modes r h k)
