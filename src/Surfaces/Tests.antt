-- ===== src/Surfaces/Tests.antt =====
-- Runs of the model of surfaces, and examples of its theorems.
use aurora_compositor.Base.{
  not, ◌&&◌, inr, ◌≡◌, refl, arith, true, false, List, [], ◌∷◌, flatten, none, some, toggles_by,
}
use aurora_compositor.Base.Int.{ℤ, pos, round_div, ◌+ℤ◌, ◌-ℤ◌, ◌*ℤ◌}
use aurora_compositor.Geometry.{Size}
use aurora_compositor.Geometry.Regions.{
  Box, in_box, contains, box_of, meet, united, intersected, bounding_rect_contains,
}
use aurora_compositor.Surfaces.{Surface, SurfaceEffect, new_surface, new_pending}
use aurora_compositor.Surfaces.Viewport.{to_size, scaled_size, units, check_committed_state}
use aurora_compositor.Surfaces.Commit.{
  surface_size, Buffers, commit, apply_pending, finish, commit-finish, commit_effects,
  commit_buffer, signal_unless,
}
use aurora_compositor.Surfaces.Requests.{
  Request, attached, scale_set, committed, run, divides_by_zero, scale_of,
}
use aurora_compositor.Surfaces.Updates.{buffer_set}
use aurora_compositor.Surfaces.Effects.{tells_content, tells_opaque}
use aurora_compositor.Surfaces.Damage.{commit-covers_damage, surface_box}
use aurora_compositor.Surfaces.Committed.{run-takes_last, last_set, up_to_commit}
use aurora_compositor.Surfaces.Signals.{run-tells_changes}
use aurora_compositor.Surfaces.Viewport.Checks.{commit-checked_source, is_inside, posts_error}
use aurora_compositor.Surfaces.Opaque.{commit-opaque_corners, corners}

abbrev square : ℤ → Size
square n = record { width = n; height = n }

abbrev one_size : Buffers
one_size = record { size = λ b. square (pos 8); has_content = λ b. true }

abbrev pixel : ℤ → ℤ → Box
pixel x y = record { left = x; top = y; right = x +ℤ pos 1; bottom = y +ℤ pos 1 }

abbrev scaled : Surface
scaled = record new_surface {
  pending = record new_pending {
    buffer = some 7;
    newly_attached = true;
    buffer_scale = pos 2;
    buffer_damage = record { left = pos 5; top = pos 3; right = pos 6; bottom = pos 4 } ∷ [];
    surface_damage = record { left = pos 0; top = pos 0; right = pos 1; bottom = pos 1 } ∷ [];
  };
}

-- The client damages the buffer only.
abbrev buffer_damaged_only : Surface
buffer_damaged_only = record scaled { pending = record scaled.pending { surface_damage = [] } }

commit-covers_damage_example :
    (after : Surface) × (effects : List SurfaceEffect) × (commit one_size [] buffer_damaged_only
      ≡ some (after, effects))
    × (contains after.damage (pos 2) (pos 1) ≡ true)
    × (contains after.damage (pos 9) (pos 9)
          && not (in_box (pos 9) (pos 9) (surface_box one_size buffer_damaged_only))
        ≡ false)
unfolding contains in_box surface_box apply_pending box_of to_size scaled_size round_div ◌*ℤ◌ ◌+ℤ◌
commit-covers_damage_example =
    commit-covers_damage one_size [] buffer_damaged_only 2 (pos 2) (pos 1) (pos 9) (pos 9) refl
      (omega arith) (inr (5, 3, refl, refl, refl)) refl

abbrev history : List Request
history =
    attached (some 3) (pos 0) (pos 0)
    ∷ scale_set (pos 2)
    ∷ committed one_size (1 ∷ 2 ∷ [])
    ∷ attached (some 4) (pos 0) (pos 0)
    ∷ scale_set (pos 0)
    ∷ []

run-takes_last_example :
    (after : Surface) × (effects : List SurfaceEffect) × (run history new_surface
      ≡ some (after, effects))
    × (after.buffer_ref ≡ last_set buffer_set none (up_to_commit history))
    × (after.buffer_scale ≡ last_set scale_of (pos 1) (up_to_commit history))
unfolding divides_by_zero
run-takes_last_example = run-takes_last history refl

run-tells_changes_example :
    (after : Surface) × (effects : List SurfaceEffect) × (run history new_surface
      ≡ some (after, effects))
    × (toggles_by tells_content effects false ≡ after.has_content)
    × (toggles_by tells_opaque effects false ≡ after.is_opaque)
unfolding divides_by_zero
run-tells_changes_example = run-tells_changes history refl

last_buffer : last_set buffer_set none (up_to_commit history) ≡ some 3
unfolding last_set up_to_commit buffer_set
last_buffer = refl

abbrev cropped : Surface
cropped = record scaled {
  viewport = true;
  pending = record scaled.pending {
    source_geometry = record { x = pos 256; y = pos 128; width = pos 512; height = pos 256 };
  };
}

commit-checked_source_example :
    is_inside (finish one_size [] (surface_size one_size cropped) cropped).0.source_geometry (
      units (
        scaled_size
          (finish one_size [] (surface_size one_size cropped) cropped).0.buffer_size
          (finish one_size [] (surface_size one_size cropped) cropped).0.buffer_scale))
    ≡ true
unfolding finish apply_pending commit posts_error check_committed_state commit_effects signal_unless
    commit_buffer flatten to_size scaled_size round_div ◌*ℤ◌ ◌+ℤ◌ ◌-ℤ◌ bounding_rect_contains
    intersected meet united box_of
commit-checked_source_example =
    commit-checked_source one_size [] cropped
      (finish one_size [] (surface_size one_size cropped) cropped).0
      (finish one_size [] (surface_size one_size cropped) cropped).1 refl
      (commit-finish one_size [] cropped refl) refl refl

-- A surface as large as its buffer.
abbrev patchy : Surface
patchy = record new_surface {
  pending = record new_pending {
    buffer = some 7;
    newly_attached = true;
    opaque_region = corners 6 6;
  };
}

commit-opaque_corners_example :
    (after : Surface) × (effects : List SurfaceEffect) × (commit one_size [] patchy
      ≡ some (after, effects))
    × (after.is_opaque ≡ true)
    × (contains after.opaque_region (pos 1) (pos 0) ≡ false)
unfolding apply_pending to_size scaled_size round_div ◌*ℤ◌
commit-opaque_corners_example = commit-opaque_corners one_size [] patchy 6 6 refl refl refl
