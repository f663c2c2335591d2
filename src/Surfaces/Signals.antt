-- ===== src/Surfaces/Signals.antt =====
-- The signals that tell of the content of a surface and of its being opaque.
use mathlib.Core.Path.{subst}
use aurora_compositor.Base.{
  ◌≡◌, refl, sym, ℕ, Bool, true, false, not, ◌&&◌, ◌||◌, List, [], ◌∷◌, some, if◌then◌else◌,
  toggles_by,
}
use aurora_compositor.Base.Int.{pos, ltb_ℤ}
use aurora_compositor.Geometry.{eq_size, eq_rect, is_valid, rect_size, no_size}
use aurora_compositor.Surfaces.{
  Surface, SurfaceEffect, ViewportError, orientation_for, eq_orientation, bad_value, no_surface,
  viewport_exists, new_surface, has_content_changed, post_error, mark_surface_as_destroyed, attach,
  add_damage, damage_buffer, request_frame, set_opaque_region, set_input_region, set_buffer_scale,
  set_buffer_transform, mark_as_cursor_surface, notify_views, destroy_resource,
}
use aurora_compositor.Surfaces.Viewport.{
  unset_source, get_viewport, set_source, set_destination, destroy_viewport, viewport_gone,
}
use aurora_compositor.Surfaces.Commit.{surface_size, commit-some}
use aurora_compositor.Surfaces.Requests.{
  Request, committed, cursor_marked, viewport_wanted, views_notified, resource_destroyed,
  source_set, destination_set, transform_set, update, step, run, divides_by_zero,
}
use aurora_compositor.Surfaces.Runs.{chain-some, step-some, run-returns}
use aurora_compositor.Surfaces.Effects.{
  Turns, tells_content, tells_opaque, Turns-append, Turns-none, Turns-one, Turns-if, Turns-map,
  finish-content, finish-opaque,
}

-- A step from `s` whose effects tell of both values.
record Tells (s : Surface) (p : Surface × List SurfaceEffect) : Type 0 where
  content : Turns tells_content p.1 s.has_content p.0.has_content
  opaque : Turns tells_opaque p.1 s.is_opaque p.0.is_opaque

Tells-if :
    {s : Surface} (c : Bool) {p q : Surface × List SurfaceEffect}
    → Tells s p
    → Tells s q
    → Tells s (if c then p else q)
Tells-if true h k = h
Tells-if false h k = k

notify_views-Tells : (views : List ℕ) (s : Surface) → Tells s (notify_views views s)
unfolding notify_views tells_content tells_opaque
notify_views-Tells views s = record {
  content =
      Turns-append (Turns-map mark_surface_as_destroyed views (λ v. refl)) (hidden s.has_content);
  opaque =
      Turns-append (Turns-map mark_surface_as_destroyed views (λ v. refl))
        (Turns-if s.has_content (Turns-one refl) Turns-none);
}
  where
    hidden : (b : Bool) → Turns tells_content (if b then has_content_changed ∷ [] else []) b false
    hidden true = record { turned = refl }
    hidden false = Turns-none

Tells-error : {s : Surface} (e : ViewportError) → Tells s (s, post_error e ∷ [])
unfolding tells_content tells_opaque
Tells-error e = record { content = Turns-one refl; opaque = Turns-one refl }

update-Tells : (r : Request) (s : Surface) → Tells s (update r s)
unfolding update tells_content tells_opaque attach add_damage damage_buffer request_frame
    set_opaque_region set_input_region set_buffer_scale set_buffer_transform mark_as_cursor_surface
    notify_views destroy_resource get_viewport set_source set_destination destroy_viewport
    viewport_gone
update-Tells (transform_set portrait n) s =
    let same = eq_orientation (orientation_for portrait n) s.content_orientation in
    record {
      content = Turns-if same Turns-none (Turns-one refl);
      opaque = Turns-if same Turns-none (Turns-one refl);
    }
update-Tells (cursor_marked cursor) s =
    Tells-if (if cursor then s.is_cursor_surface else not s.is_cursor_surface)
      (record { content = Turns-none; opaque = Turns-none })
      (record { content = Turns-one refl; opaque = Turns-one refl })
update-Tells (views_notified views) s = notify_views-Tells views s
update-Tells (resource_destroyed views) s =
    let noted = notify_views-Tells views s in
    record {
      content = Turns-append noted.content (Turns-one refl);
      opaque = Turns-append noted.opaque (Turns-one refl);
    }
update-Tells (viewport_wanted there) s =
    Tells-if (not there) (record { content = Turns-none; opaque = Turns-none })
      (Tells-if s.viewport (Tells-error viewport_exists)
        (record { content = Turns-none; opaque = Turns-none }))
update-Tells (source_set there r) s = Tells-if (not there) (Tells-error no_surface) (
    Tells-if (eq_rect r unset_source) (record { content = Turns-none; opaque = Turns-none })
      (Tells-if (ltb_ℤ r.x (pos 0) || ltb_ℤ r.y (pos 0)) (Tells-error bad_value) (
        Tells-if (not (is_valid (rect_size r))) (Tells-error bad_value)
          (record { content = Turns-none; opaque = Turns-none }))))
update-Tells (destination_set there size) s = Tells-if (not there) (Tells-error no_surface) (
    Tells-if (not (is_valid size) && not (eq_size size no_size)) (Tells-error bad_value)
      (record { content = Turns-none; opaque = Turns-none }))
update-Tells r s = record { content = Turns-none; opaque = Turns-none }

step-Tells :
    (r : Request) (s after : Surface) (effects : List SurfaceEffect)
    → step r s ≡ some (after, effects)
    → Tells s (after, effects)
unfolding step
step-Tells (committed b views) s after effects h =
    subst (λ p. Tells s p) (commit-some b views s after effects h)
      (record {
        content = finish-content b views (surface_size b s) s;
        opaque = finish-opaque b views (surface_size b s) s;
      })
step-Tells r s after effects h =
    subst (λ p. Tells s p) (step-some r s after effects refl h) (update-Tells r s)

run-Tells :
    (rs : List Request) (s after : Surface) (effects : List SurfaceEffect)
    → run rs s ≡ some (after, effects)
    → Tells s (after, effects)
unfolding run
run-Tells [] s after effects h =
    let same : ◌≡◌ {A = Surface × List SurfaceEffect} (s, []) (after, effects) = cc in
    subst (λ p. Tells s p) same (record { content = Turns-none; opaque = Turns-none })
run-Tells (r ∷ rs) s after effects h =
    let (s1, es, later, first, rest, all) = chain-some (run rs) (step r s) after effects h in
    let now = step-Tells r s s1 es first in
    let next = run-Tells rs s1 after later rest in
    subst (λ es. Tells s (after, es)) (sym all)
      (record {
        content = Turns-append now.content next.content;
        opaque = Turns-append now.opaque next.opaque;
      })

-- A history of a new surface without a commit at a scale of 0 runs to its end. Who starts with false and
-- turns round at each signal hasContentChanged has at the end whether the surface has content; likewise
-- for isOpaqueChanged and whether it is opaque.
pub run-tells_changes :
    (rs : List Request)
    → divides_by_zero (pos 1) rs ≡ false
    → (after : Surface) × (effects : List SurfaceEffect) × (run rs new_surface
        ≡ some (after, effects))
      × (toggles_by tells_content effects false ≡ after.has_content)
      × (toggles_by tells_opaque effects false ≡ after.is_opaque)
run-tells_changes rs h =
    let (after, effects, e) = run-returns rs new_surface h in
    let told = run-Tells rs new_surface after effects e in
    (after, effects, e, told.content.turned, told.opaque.turned)
