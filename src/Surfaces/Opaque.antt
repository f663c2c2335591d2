-- ===== src/Surfaces/Opaque.antt =====
-- Whether a surface is opaque, by the bounding rectangle of its opaque region.
use aurora_compositor.Base.{refl, ◌≡◌, ap, ◌∙◌, arith, ℕ, ◌+◌, true, false, List, [], ◌∷◌, some}
use aurora_compositor.Base.Int.{pos, ◌+ℤ◌, eq_ℤ}
use aurora_compositor.Geometry.{Size}
use aurora_compositor.Geometry.Regions.{
  Region, box_of, intersected, meet, united, contains, in_box, bounding_rect_contains,
}
use aurora_compositor.Surfaces.{Surface, SurfaceEffect}
use aurora_compositor.Surfaces.Viewport.{at_origin}
use aurora_compositor.Surfaces.Commit.{
  Buffers, apply_pending, commit, finish, commit-finish, surface_size,
}

-- The two pixels at the ends of a diagonal of a rectangle.
abbrev pub corners : ℕ → ℕ → Region
corners w h =
    record { left = pos 0; top = pos 0; right = pos 1; bottom = pos 1 }
    ∷ record { left = pos (w + 1); top = pos (h + 1); right = pos (w + 2); bottom = pos (h + 2) }
    ∷ []

abbrev pub large : ℕ → ℕ → Size
large w h = record { width = pos (w + 2); height = pos (h + 2) }

cut_corners : (w h : ℕ) → intersected (corners w h) (box_of (at_origin (large w h))) ≡ corners w h
unfolding intersected united meet box_of ◌+ℤ◌
cut_corners w h = ground arith

spanned : (w h : ℕ) → bounding_rect_contains (corners w h) (box_of (at_origin (large w h))) ≡ true
unfolding bounding_rect_contains box_of ◌+ℤ◌
spanned w h = ground arith

missed : (w h : ℕ) → contains (corners w h) (pos 1) (pos 0) ≡ false
unfolding contains in_box
missed w h = ground arith

cut :
    (w h : ℕ) (size : Size) (region : Region)
    → size ≡ large w h
    → region ≡ corners w h
    → let to = box_of (at_origin size) in
      (intersected region to ≡ corners w h)
      × (bounding_rect_contains (intersected region to) to ≡ true)
cut w h size region same_size same_region =
    rw (same_size, same_region, cut_corners w h) (refl, spanned w h)

-- Let a commit at a scale other than 0 give the surface a size of at least two pixels each way, by its
-- buffer or by its viewport, and let the opaque region that is pending be the first and the last of
-- these pixels. Then the commit returns and makes the surface opaque, though the second pixel of the
-- first row is not in its opaque region.
pub commit-opaque_corners :
    (buffers : Buffers) (views : List ℕ) (s : Surface) (w h : ℕ)
    → eq_ℤ s.pending.buffer_scale (pos 0) ≡ false
    → (apply_pending buffers (surface_size buffers s) s).destination_size ≡ large w h
    → s.pending.opaque_region ≡ corners w h
    → (after : Surface) × (effects : List SurfaceEffect) × (commit buffers views s
        ≡ some (after, effects))
      × (after.is_opaque ≡ true)
      × (contains after.opaque_region (pos 1) (pos 0) ≡ false)
unfolding finish apply_pending
commit-opaque_corners buffers views s w h scale size region =
    let (opaque, spans) =
      cut w h (apply_pending buffers (surface_size buffers s) s).destination_size
        s.pending.opaque_region size region in
    (
      (finish buffers views (surface_size buffers s) s).0,
      (finish buffers views (surface_size buffers s) s).1,
      commit-finish buffers views s scale,
      spans,
      ap (λ r. contains r (pos 1) (pos 0)) opaque ∙ missed w h,
    )
