-- ===== src/Surfaces/Requests.antt =====
-- The requests on a surface and on its viewport, in the order in which they come.
use aurora_compositor.Base.{ℕ, Bool, true, false, ◌||◌, List, [], ◌∷◌, ◌++◌, Option, none, some}
use aurora_compositor.Base.Int.{ℤ, pos, eq_ℤ}
use aurora_compositor.Geometry.{Size, Rect}
use aurora_compositor.Geometry.Regions.{Region}
use aurora_compositor.Surfaces.{
  Surface, SurfaceEffect, attach, add_damage, damage_buffer, request_frame, set_opaque_region,
  set_input_region, set_buffer_scale, set_buffer_transform, mark_as_cursor_surface, notify_views,
  destroy_resource,
}
use aurora_compositor.Surfaces.Viewport.{
  get_viewport, destroy_viewport, viewport_gone, set_source, set_destination,
}
use aurora_compositor.Surfaces.Commit.{Buffers, commit}

-- `committed` carries what the buffers are at that time and the views of the surface.
pub data Request : Type 0 where
  attached : Option ℕ → ℤ → ℤ → Request
  surface_damaged buffer_damaged : Rect → Request
  frame_wanted viewport_destroyed viewport_lost : Request
  opaque_set input_set : Option Region → Request
  scale_set : ℤ → Request
  transform_set : Bool → ℕ → Request
  committed : Buffers → List ℕ → Request
  cursor_marked viewport_wanted : Bool → Request
  views_notified resource_destroyed : List ℕ → Request
  source_set : Bool → Rect → Request
  destination_set : Bool → Size → Request

-- A request that is not a commit.
unfoldable pub update : Request → Surface → Surface × List SurfaceEffect
update (attached b x y) s = (attach b x y s, [])
update (surface_damaged r) s = (add_damage r s, [])
update (buffer_damaged r) s = (damage_buffer r s, [])
update frame_wanted s = (request_frame s, [])
update viewport_destroyed s = (destroy_viewport s, [])
update viewport_lost s = (viewport_gone s, [])
update (opaque_set r) s = (set_opaque_region r s, [])
update (input_set r) s = (set_input_region r s, [])
update (scale_set n) s = (set_buffer_scale n s, [])
update (transform_set portrait n) s = set_buffer_transform portrait n s
update (committed buffers views) s = (s, [])
update (cursor_marked cursor) s = mark_as_cursor_surface cursor s
update (viewport_wanted there) s = get_viewport there s
update (views_notified views) s = notify_views views s
update (resource_destroyed views) s = destroy_resource views s
update (source_set there r) s = set_source there r s
update (destination_set there size) s = set_destination there size s

abbrev pub is_commit : Request → Bool
is_commit (committed buffers views) = true
is_commit r = false

unfoldable pub step : Request → Surface → Option (Surface × List SurfaceEffect)
unfolding update commit
step (committed buffers views) s = commit buffers views s
step r s = some (update r s)

abbrev pub also :
    List SurfaceEffect
    → Option (Surface × List SurfaceEffect)
    → Option (Surface × List SurfaceEffect)
also es none = none
also es (some (s, later)) = some (s, es ++ later)

abbrev pub chain :
    (Surface → Option (Surface × List SurfaceEffect))
    → Option (Surface × List SurfaceEffect)
    → Option (Surface × List SurfaceEffect)
chain next none = none
chain next (some (s, es)) = also es (next s)

-- `none` when one of the commits divides by 0.
unfoldable pub run : List Request → Surface → Option (Surface × List SurfaceEffect)
unfolding step
run [] s = some (s, [])
run (r ∷ rs) s = chain (run rs) (step r s)

abbrev pub or_else : {A : Type 0} → Option A → A → A
or_else none a = a
or_else (some b) a = b

unfoldable pub scale_of : Request → Option ℤ
scale_of (scale_set n) = some n
scale_of r = none

-- Whether a history has a commit while the scale is 0, from the scale that is pending.
unfoldable pub divides_by_zero : ℤ → List Request → Bool
divides_by_zero n [] = false
divides_by_zero n (scale_set m ∷ rs) = divides_by_zero m rs
divides_by_zero n (committed buffers views ∷ rs) = eq_ℤ n (pos 0) || divides_by_zero n rs
divides_by_zero n (r ∷ rs) = divides_by_zero n rs
