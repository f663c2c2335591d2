-- ===== src/Surfaces.antt =====
-- A wl_surface and its double-buffered state: WaylandSurfacePrivate in
-- src/compositor/compositor_api/aurorawaylandsurface.cpp. Buffers, views and surfaces are named by
-- numbers. A QRectF is a rectangle in 256ths of a pixel, which is what a wl_fixed_t counts; regions are
-- sets of pixels. The frame callbacks are those of Frames, the list of views is that of Views.
pub mod Viewport
pub mod Commit
pub mod Damage
pub mod Requests
pub mod Updates
pub mod Runs
pub mod Committed
pub mod Effects
pub mod Signals
pub mod Opaque
mod Tests
use aurora_compositor.Base.{
  ℕ, Bool, true, false, not, ◌&&◌, ◌||◌, List, [], ◌∷◌, ◌++◌, map, Option, none, some, ◌==◌,
  if◌then◌else◌,
}
use aurora_compositor.Base.Int.{ℤ, pos, negsuc, ◌*ℤ◌, ltb_ℤ}
use aurora_compositor.Geometry.{Size, Point, Rect, no_size, no_rect}
use aurora_compositor.Geometry.Regions.{Region, Box, box_of, united}
use aurora_compositor.Frames.{Frames, frame, no_frames}

-- `infiniteRegion`.
unfoldable pub infinite_region : Region
infinite_region =
    record {
      left = negsuc 2147483647;
      top = negsuc 2147483647;
      right = pos 2147483648;
      bottom = pos 2147483648;
    }
    ∷ []

pub data Orientation : Type 0 where
  primary portrait inverted_portrait inverted_landscape landscape : Orientation

pub data ViewportError : Type 0 where
  bad_value bad_size out_of_buffer no_surface viewport_exists : ViewportError

pub data SurfaceEffect : Type 0 where
  is_opaque_changed buffer_size_changed buffer_scale_changed destination_size_changed :
      SurfaceEffect
  source_geometry_changed has_content_changed content_orientation_changed redraw : SurfaceEffect
  surface_destroyed cursor_surface_changed : SurfaceEffect
  offset_for_next_frame : Point → SurfaceEffect
  damaged : Region → SurfaceEffect
  set_committed : ℕ → Region → SurfaceEffect
  view_committed : ℕ → Option ℕ → Region → SurfaceEffect
  mark_surface_as_destroyed : ℕ → SurfaceEffect
  post_error : ViewportError → SurfaceEffect

pub record Pending : Type 0 where
  pub buffer : Option ℕ
  pub surface_damage : Region
  pub buffer_damage : Region
  pub offset : Point
  pub newly_attached : Bool
  pub input_region : Region
  pub buffer_scale : ℤ
  pub source_geometry : Rect
  pub destination_size : Size
  pub opaque_region : Region

-- `viewport`: whether the surface has one.
pub record Surface : Type 0 where
  pub pending : Pending
  pub buffer_ref : Option ℕ
  pub damage : Region
  pub input_region : Region
  pub opaque_region : Region
  pub source_geometry : Rect
  pub destination_size : Size
  pub buffer_size : Size
  pub buffer_scale : ℤ
  pub is_cursor_surface : Bool
  pub destroyed : Bool
  pub has_content : Bool
  pub is_opaque : Bool
  pub content_orientation : Orientation
  pub viewport : Bool
  pub frames : Frames

abbrev pub no_point : Point
no_point = record { x = pos 0; y = pos 0 }

abbrev pub new_pending : Pending
new_pending = record {
  buffer = none;
  surface_damage = [];
  buffer_damage = [];
  offset = no_point;
  newly_attached = false;
  input_region = infinite_region;
  buffer_scale = pos 1;
  source_geometry = no_rect;
  destination_size = no_size;
  opaque_region = [];
}

abbrev pub new_surface : Surface
new_surface = record {
  pending = new_pending;
  buffer_ref = none;
  damage = [];
  input_region = infinite_region;
  opaque_region = [];
  source_geometry = no_rect;
  destination_size = no_size;
  buffer_size = no_size;
  buffer_scale = pos 1;
  is_cursor_surface = false;
  destroyed = false;
  has_content = false;
  is_opaque = false;
  content_orientation = primary;
  viewport = false;
  frames = no_frames;
}

-- A request that writes the pending state.
abbrev pub with_pending : (Pending → Pending) → Surface → Surface
with_pending f s = record s { pending = f s.pending }

-- `buffer`: what the buffer manager has for the wl_buffer, none for a null one.
unfoldable pub attach : Option ℕ → ℤ → ℤ → Surface → Surface
attach buffer x y s =
    with_pending
      (λ p. record p { buffer = buffer; offset = record { x = x; y = y }; newly_attached = true }) s

unfoldable pub add_damage : Rect → Surface → Surface
unfolding box_of united
add_damage r s =
    with_pending (λ p. record p { surface_damage = united p.surface_damage (box_of r) }) s

unfoldable pub damage_buffer : Rect → Surface → Surface
unfolding box_of united
damage_buffer r s =
    with_pending (λ p. record p { buffer_damage = united p.buffer_damage (box_of r) }) s

unfoldable pub request_frame : Surface → Surface
unfolding frame
request_frame s = record s { frames = frame s.frames }

abbrev pub region_or : Region → Option Region → Region
region_or other none = other
region_or other (some r) = r

unfoldable pub set_opaque_region : Option Region → Surface → Surface
set_opaque_region r s = with_pending (λ p. record p { opaque_region = region_or [] r }) s

unfoldable pub set_input_region : Option Region → Surface → Surface
set_input_region r s = with_pending (λ p. record p { input_region = region_or infinite_region r }) s

unfoldable pub set_buffer_scale : ℤ → Surface → Surface
set_buffer_scale scale s = with_pending (λ p. record p { buffer_scale = scale }) s

-- The transforms of wl_output by their numbers; `portrait_screen` is about the primary screen.
abbrev pub orientation_for : Bool → ℕ → Orientation
orientation_for portrait_screen n =
    if n == 1
    then (if portrait_screen then inverted_landscape else portrait)
    else if n == 2
    then (if portrait_screen then inverted_portrait else inverted_landscape)
    else if n == 3
    then (if portrait_screen then landscape else inverted_portrait)
    else primary

abbrev pub eq_orientation : Orientation → Orientation → Bool
eq_orientation primary primary = true
eq_orientation portrait portrait = true
eq_orientation inverted_portrait inverted_portrait = true
eq_orientation inverted_landscape inverted_landscape = true
eq_orientation landscape landscape = true
eq_orientation a b = false

unfoldable pub set_buffer_transform : Bool → ℕ → Surface → Surface × List SurfaceEffect
set_buffer_transform portrait_screen transform s =
    let new = orientation_for portrait_screen transform in
    (
      record s { content_orientation = new },
      if eq_orientation new s.content_orientation then [] else content_orientation_changed ∷ [],
    )

unfoldable pub mark_as_cursor_surface : Bool → Surface → Surface × List SurfaceEffect
mark_as_cursor_surface cursor s =
    if (if cursor then s.is_cursor_surface else not s.is_cursor_surface)
    then (s, [])
    else (record s { is_cursor_surface = cursor }, cursor_surface_changed ∷ [])

-- `notifyViewsAboutDestruction`.
unfoldable pub notify_views : List ℕ → Surface → Surface × List SurfaceEffect
notify_views views s = (
  record s { has_content = false },
  map mark_surface_as_destroyed views ++ (if s.has_content then has_content_changed ∷ [] else []),
)

unfoldable pub destroy_resource : List ℕ → Surface → Surface × List SurfaceEffect
unfolding notify_views
destroy_resource views s =
    let (s1, effects) = notify_views views s in
    (record s1 { destroyed = true }, effects ++ surface_destroyed ∷ [])
