-- ===== src/Outputs/Head.antt =====
-- The configuration of one head: WaylandWlrOutputConfigurationHeadV1.
use aurora_compositor.Base.{
  ℕ, Bool, true, false, not, ◌||◌, List, [], ◌∷◌, Option, none, some, if◌then◌else◌, contains,
}
use aurora_compositor.Base.Int.{ℤ, pos, leb_ℤ, ltb_ℤ}
use aurora_compositor.Geometry.{Size, Point}
use aurora_compositor.Outputs.{
  ConfigEffect, config_error, already_set, invalid_mode, invalid_custom_mode, invalid_transform,
  invalid_scale, mode_changed, custom_mode_changed, position_changed, transform_changed,
  scale_changed,
}

pub record ConfigHead : Type 0 where
  pub mode : Option ℕ
  pub custom_mode_size : Size
  pub custom_mode_refresh : ℤ
  pub position : Point
  pub transform : ℤ
  pub scale : ℤ
  pub mode_set : Bool
  pub custom_mode_set : Bool
  pub position_set : Bool
  pub transform_set : Bool
  pub scale_set : Bool

abbrev pub zero_size : Size
zero_size = record { width = pos 0; height = pos 0 }

abbrev pub new_head : ConfigHead
new_head = record {
  mode = none;
  custom_mode_size = zero_size;
  custom_mode_refresh = pos 0;
  position = record { x = pos 0; y = pos 0 };
  transform = pos 0;
  scale = pos 256;
  mode_set = false;
  custom_mode_set = false;
  position_set = false;
  transform_set = false;
  scale_set = false;
}

-- Whether the head has the mode: `modes` are its modes.
abbrev pub found : List ℕ → Option ℕ → Bool
found [] none = true
found (m ∷ modes) none = false
found modes (some mode) = contains mode modes

unfoldable pub take_mode : Option ℕ → ConfigHead → ConfigHead × List ConfigEffect
take_mode none h = (record h { mode = none; mode_set = true }, mode_changed none ∷ [])
take_mode (some mode) h = (
  record h {
    mode = some mode;
    mode_set = true;
    custom_mode_size = zero_size;
    custom_mode_refresh = pos 0;
  },
  mode_changed (some mode) ∷ custom_mode_changed zero_size (pos 0) ∷ [],
)

unfoldable pub set_mode : List ℕ → Option ℕ → ConfigHead → ConfigHead × List ConfigEffect
unfolding take_mode
set_mode modes mode h =
    if h.mode_set
    then (h, config_error already_set ∷ [])
    else if not (found modes mode)
    then (h, config_error invalid_mode ∷ [])
    else take_mode mode h

unfoldable pub set_custom_mode : Size → ℤ → ConfigHead → ConfigHead × List ConfigEffect
set_custom_mode size refresh h =
    if leb_ℤ size.width (pos 0) || leb_ℤ size.height (pos 0) || leb_ℤ refresh (pos 0)
    then (h, config_error invalid_custom_mode ∷ [])
    else if h.custom_mode_set
    then (h, config_error already_set ∷ [])
    else (
      record h {
        mode = none;
        custom_mode_size = size;
        custom_mode_refresh = refresh;
        custom_mode_set = true;
      },
      mode_changed none ∷ custom_mode_changed size refresh ∷ [],
    )

unfoldable pub set_position : Point → ConfigHead → ConfigHead × List ConfigEffect
set_position p h =
    if h.position_set
    then (h, config_error already_set ∷ [])
    else (record h { position = p; position_set = true }, position_changed p ∷ [])

unfoldable pub set_transform : ℤ → ConfigHead → ConfigHead × List ConfigEffect
set_transform t h =
    if ltb_ℤ t (pos 0) || ltb_ℤ (pos 7) t
    then (h, config_error invalid_transform ∷ [])
    else if h.transform_set
    then (h, config_error already_set ∷ [])
    else (record h { transform = t; transform_set = true }, transform_changed t ∷ [])

unfoldable pub set_scale : ℤ → ConfigHead → ConfigHead × List ConfigEffect
set_scale value h =
    if leb_ℤ value (pos 0)
    then (h, config_error invalid_scale ∷ [])
    else if h.scale_set
    then (h, config_error already_set ∷ [])
    else (record h { scale = value; scale_set = true }, scale_changed value ∷ [])
