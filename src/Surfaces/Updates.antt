-- ===== src/Surfaces/Updates.antt =====
-- What the requests other than a commit leave as it was.
use aurora_compositor.Base.{◌≡◌, refl, arith, ℕ, ◌||◌, Option, none, some, if◌then◌else◌}
use aurora_compositor.Surfaces.{
  Surface, attach, add_damage, damage_buffer, request_frame, set_opaque_region, set_input_region,
  set_buffer_scale, set_buffer_transform, mark_as_cursor_surface, notify_views, destroy_resource,
}
use aurora_compositor.Surfaces.Viewport.{
  get_viewport, destroy_viewport, viewport_gone, set_source, set_destination,
}
use aurora_compositor.Surfaces.Commit.{is_some}
use aurora_compositor.Surfaces.Requests.{
  Request, attached, scale_set, cursor_marked, viewport_wanted, source_set, destination_set, update,
  or_else, scale_of,
}

pub update-scale :
    (r : Request) (s : Surface)
    → (update r s).0.pending.buffer_scale ≡ or_else (scale_of r) s.pending.buffer_scale
unfolding update scale_of attach add_damage damage_buffer request_frame set_opaque_region
    set_input_region set_buffer_scale set_buffer_transform mark_as_cursor_surface notify_views
    destroy_resource get_viewport set_source set_destination destroy_viewport viewport_gone
update-scale (scale_set n) s = refl
update-scale (cursor_marked cursor) s = ground arith
update-scale (viewport_wanted there) s = ground arith
update-scale (source_set there r) s = ground arith
update-scale (destination_set there r) s = ground arith
update-scale r s = refl

pub update-buffer : (r : Request) (s : Surface) → (update r s).0.buffer_ref ≡ s.buffer_ref
unfolding update attach add_damage damage_buffer request_frame set_opaque_region set_input_region
    set_buffer_scale set_buffer_transform mark_as_cursor_surface notify_views destroy_resource
    get_viewport set_source set_destination destroy_viewport viewport_gone
update-buffer (cursor_marked cursor) s = ground arith
update-buffer (viewport_wanted there) s = ground arith
update-buffer (source_set there r) s = ground arith
update-buffer (destination_set there r) s = ground arith
update-buffer r s = refl

pub update-shown_scale : (r : Request) (s : Surface) → (update r s).0.buffer_scale ≡ s.buffer_scale
unfolding update scale_of attach add_damage damage_buffer request_frame set_opaque_region
    set_input_region set_buffer_scale set_buffer_transform mark_as_cursor_surface notify_views
    destroy_resource get_viewport set_source set_destination destroy_viewport viewport_gone
update-shown_scale (cursor_marked cursor) s = ground arith
update-shown_scale (viewport_wanted there) s = ground arith
update-shown_scale (source_set there r) s = ground arith
update-shown_scale (destination_set there r) s = ground arith
update-shown_scale r s = refl

unfoldable pub buffer_set : Request → Option (Option ℕ)
buffer_set (attached b x y) = some b
buffer_set r = none

-- The buffer that the next commit is to show.
unfoldable pub next_buffer : Surface → Option ℕ
next_buffer s =
    if is_some s.pending.buffer || s.pending.newly_attached then s.pending.buffer else s.buffer_ref

pub update-next_buffer :
    (r : Request) (s : Surface)
    → next_buffer (update r s).0 ≡ or_else (buffer_set r) (next_buffer s)
unfolding update scale_of attach add_damage damage_buffer request_frame set_opaque_region
    set_input_region set_buffer_scale set_buffer_transform mark_as_cursor_surface notify_views
    destroy_resource get_viewport set_source set_destination destroy_viewport viewport_gone
    next_buffer buffer_set
update-next_buffer (attached none x y) s = refl
update-next_buffer (attached (some b) x y) s = refl
update-next_buffer (cursor_marked cursor) s = ground arith
update-next_buffer (viewport_wanted there) s = ground arith
update-next_buffer (source_set there r) s = ground arith
update-next_buffer (destination_set there r) s = ground arith
update-next_buffer r s = refl
