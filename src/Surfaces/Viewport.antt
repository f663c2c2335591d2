-- ===== src/Surfaces/Viewport.antt =====
-- The viewport of a surface, src/compositor/extensions/aurorawaylandviewporter.cpp.
pub mod Checks
use aurora_compositor.Base.{Bool, true, false, not, ◌&&◌, ◌||◌, List, [], ◌∷◌, if◌then◌else◌}
use aurora_compositor.Base.Int.{ℤ, pos, negsuc, ◌+ℤ◌, ◌-ℤ◌, ◌*ℤ◌, ltb_ℤ, leb_ℤ, eq_ℤ, round_div}
use aurora_compositor.Geometry.{Size, Rect, no_size, no_rect, is_valid, eq_size, eq_rect, rect_size}
use aurora_compositor.Geometry.Regions.{min_ℤ, max_ℤ}
use aurora_compositor.Surfaces.{
  Surface, Pending, SurfaceEffect, post_error, bad_value, bad_size, out_of_buffer, no_surface,
  viewport_exists, with_pending,
}

-- `QRectF::isValid`, and `QRectF::united`, which takes the other rectangle for a null one.
abbrev pub is_valid_rect : Rect → Bool
is_valid_rect r = ltb_ℤ (pos 0) r.width && ltb_ℤ (pos 0) r.height

abbrev pub is_null : Rect → Bool
is_null r = eq_ℤ r.width (pos 0) && eq_ℤ r.height (pos 0)

abbrev pub start_of : ℤ → ℤ → ℤ
start_of a w = if ltb_ℤ w (pos 0) then a +ℤ w else a

abbrev pub end_of : ℤ → ℤ → ℤ
end_of a w = if ltb_ℤ w (pos 0) then a else a +ℤ w

abbrev pub united_rect : Rect → Rect → Rect
united_rect r s =
    if is_null r
    then s
    else if is_null s
    then r
    else let x = min_ℤ (start_of r.x r.width) (start_of s.x s.width) in
      let y = min_ℤ (start_of r.y r.height) (start_of s.y s.height) in
      record {
        x = x;
        y = y;
        width = max_ℤ (end_of r.x r.width) (end_of s.x s.width) -ℤ x;
        height = max_ℤ (end_of r.y r.height) (end_of s.y s.height) -ℤ y;
      }

-- A QSize in 256ths, and `QSizeF::toSize`.
abbrev pub units : Size → Size
units s = record { width = s.width *ℤ pos 256; height = s.height *ℤ pos 256 }

unfoldable pub to_size : Size → Size
to_size s = record { width = round_div s.width (pos 256); height = round_div s.height (pos 256) }

-- `QSize / qreal`, and a rectangle at the origin.
unfoldable pub scaled_size : Size → ℤ → Size
scaled_size s scale = record { width = round_div s.width scale; height = round_div s.height scale }

abbrev pub at_origin : Size → Rect
at_origin s = record { x = pos 0; y = pos 0; width = s.width; height = s.height }

-- `surface` says whether the wl_surface is there, and `exists` whether it has a viewport.
unfoldable pub get_viewport : Bool → Surface → Surface × List SurfaceEffect
get_viewport surface s =
    if not surface
    then (s, [])
    else if s.viewport
    then (s, post_error viewport_exists ∷ [])
    else (record s { viewport = true }, [])

-- `wp_viewport_destroy`, with the destructor that follows.
unfoldable pub destroy_viewport : Surface → Surface
destroy_viewport s =
    record (with_pending (λ p. record p { destination_size = no_size; source_geometry = no_rect })
      s) { viewport = false }

-- The resource of the viewport goes without a request, with its client.
unfoldable pub viewport_gone : Surface → Surface
viewport_gone s = record s { viewport = false }

abbrev pub unset_source : Rect
unset_source = record { x = negsuc 255; y = negsuc 255; width = negsuc 255; height = negsuc 255 }

-- `set_source` in 256ths; `there` is about the wl_surface.
unfoldable pub set_source : Bool → Rect → Surface → Surface × List SurfaceEffect
set_source there r s =
    if not there
    then (s, post_error no_surface ∷ [])
    else if eq_rect r unset_source
    then (with_pending (λ p. record p { source_geometry = no_rect }) s, [])
    else if ltb_ℤ r.x (pos 0) || ltb_ℤ r.y (pos 0)
    then (s, post_error bad_value ∷ [])
    else if not (is_valid (rect_size r))
    then (s, post_error bad_value ∷ [])
    else (with_pending (λ p. record p { source_geometry = r }) s, [])

unfoldable pub set_destination : Bool → Size → Surface → Surface × List SurfaceEffect
set_destination there size s =
    if not there
    then (s, post_error no_surface ∷ [])
    else if not (is_valid size) && not (eq_size size no_size)
    then (s, post_error bad_value ∷ [])
    else (with_pending (λ p. record p { destination_size = size }) s, [])

-- `checkCommittedState`, in a commit that has taken over the buffer and its scale.
unfoldable pub check_committed_state : Surface → List SurfaceEffect
unfolding to_size scaled_size
check_committed_state s =
    let source = s.pending.source_geometry in
    let max = at_origin (units (scaled_size s.buffer_size s.buffer_scale)) in
    if not (is_valid s.pending.destination_size)
      && not (eq_size (rect_size source) (units (to_size (rect_size source))))
    then post_error bad_size ∷ []
    else if is_valid s.buffer_size && not (eq_rect (united_rect max source) max)
    then post_error out_of_buffer ∷ []
    else []
