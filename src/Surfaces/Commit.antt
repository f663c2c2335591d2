-- ===== src/Surfaces/Commit.antt =====
-- The commit of a surface.
use aurora_compositor.Base.{
  ◌≡◌, refl, sym, ◌∙◌, Bool-cases, inl, inr, ℕ, Bool, true, false, not, ◌&&◌, ◌||◌, List, [], ◌∷◌,
  ◌++◌, map, flatten, Option, none, some, if◌then◌else◌,
}
use aurora_compositor.Base.Int.{ℤ, pos, ◌+ℤ◌, ◌-ℤ◌, eq_ℤ, leb_ℤ, quot_ℤ}
use aurora_compositor.Geometry.{Size, Point, Rect, no_size, eq_size, eq_rect, rect_size}
use aurora_compositor.Geometry.Regions.{
  Region, Box, box_of, intersected, meet, united, bounding_rect_contains,
}
use aurora_compositor.Frames.{commit_frames}
use aurora_compositor.Surfaces.{
  Surface, Pending, SurfaceEffect, no_point, with_pending, is_opaque_changed, buffer_size_changed,
  buffer_scale_changed, destination_size_changed, source_geometry_changed, has_content_changed,
  redraw, offset_for_next_frame, damaged, set_committed, view_committed,
}
use aurora_compositor.Surfaces.Viewport.{
  is_valid_rect, units, to_size, scaled_size, at_origin, check_committed_state,
}

-- What a reference gives of its buffer at the time of the commit.
pub record Buffers : Type 0 where
  pub size : ℕ → Size
  pub has_content : ℕ → Bool

abbrev pub size_of : Buffers → Option ℕ → Size
size_of buffers none = no_size
size_of buffers (some b) = buffers.size b

abbrev pub content_of : Buffers → Option ℕ → Bool
content_of buffers none = false
content_of buffers (some b) = buffers.has_content b

abbrev pub is_some : Option ℕ → Bool
is_some none = false
is_some (some b) = true

-- The pixels of the surface for a box of pixels of the buffer.
unfoldable pub transform : ℤ → Box → Box
transform scale b = record {
  left = quot_ℤ b.left scale;
  top = quot_ℤ b.top scale;
  right = quot_ℤ (b.right -ℤ pos 1 +ℤ scale -ℤ pos 1) scale +ℤ pos 1;
  bottom = quot_ℤ (b.bottom -ℤ pos 1 +ℤ scale -ℤ pos 1) scale +ℤ pos 1;
}

-- `damage |= …` for each rectangle, and for all of a region.
unfoldable pub add_transformed : ℤ → Box → Region → Region → Region
unfolding transform meet united
add_transformed scale to [] damage = damage
add_transformed scale to (b ∷ bs) damage =
    add_transformed scale to bs (united damage (meet (transform scale b) to))

unfoldable pub damage_for : ℤ → Box → Pending → Region
unfolding intersected add_transformed
damage_for scale to p =
    let on_surface = intersected p.surface_damage to in
    if eq_ℤ scale (pos 1)
    then intersected p.buffer_damage to ++ on_surface
    else add_transformed scale to p.buffer_damage on_surface

abbrev pub is_empty_size : Size → Bool
is_empty_size s = leb_ℤ s.width (pos 0) || leb_ℤ s.height (pos 0)

abbrev pub source_for : Rect → Size → Rect
source_for pending surface = if is_valid_rect pending then pending else at_origin (units surface)

abbrev pub destination_for : Size → Rect → Size
destination_for pending source =
    if is_empty_size pending then to_size (rect_size source) else pending

-- The buffer after the commit.
abbrev pub next_ref : Surface → Option ℕ
next_ref s =
    if is_some s.pending.buffer || s.pending.newly_attached then s.pending.buffer else s.buffer_ref

-- `bufferSize / bufferScale`, for a scale that is not 0.
abbrev pub surface_size : Buffers → Surface → Size
surface_size buffers s = scaled_size (size_of buffers (next_ref s)) s.pending.buffer_scale

-- The state of the surface up to `checkCommittedState`, with the size of the buffer in surface pixels.
unfoldable pub apply_pending : Buffers → Size → Surface → Surface
unfolding damage_for to_size scaled_size box_of bounding_rect_contains intersected commit_frames
apply_pending buffers surface s =
    let p = s.pending in
    let buffer = next_ref s in
    let size = size_of buffers buffer in
    let source = source_for p.source_geometry surface in
    let destination = destination_for p.destination_size source in
    let to = box_of (at_origin destination) in
    let opaque = intersected p.opaque_region to in
    record s {
      buffer_ref = buffer;
      buffer_scale = p.buffer_scale;
      buffer_size = size;
      source_geometry = source;
      destination_size = destination;
      damage = damage_for p.buffer_scale to p;
      has_content = content_of buffers buffer;
      frames = commit_frames s.frames;
      input_region = intersected p.input_region to;
      opaque_region = opaque;
      is_opaque = bounding_rect_contains opaque to;
    }

abbrev pub clear : Pending → Pending
clear p = record p {
  buffer = none;
  offset = no_point;
  newly_attached = false;
  buffer_damage = [];
  surface_damage = [];
}

abbrev pub eq_bool : Bool → Bool → Bool
eq_bool true b = b
eq_bool false b = not b

unfoldable pub signal_unless : Bool → SurfaceEffect → List SurfaceEffect
signal_unless same e = if same then [] else e ∷ []

unfoldable pub commit_buffer : Option ℕ → Region → List SurfaceEffect
commit_buffer none damage = []
commit_buffer (some b) damage = set_committed b damage ∷ []

-- `old` is the surface before the commit and `s` after it, with the offset that was pending.
unfoldable pub commit_effects : List ℕ → Point → Surface → Surface → List SurfaceEffect
unfolding commit_buffer signal_unless flatten
commit_effects views offset old s = flatten (
    commit_buffer s.buffer_ref s.damage
    ∷ map (λ v. view_committed v s.buffer_ref s.damage) views
    ∷ (damaged s.damage ∷ [])
    ∷ signal_unless (eq_size old.buffer_size s.buffer_size) buffer_size_changed
    ∷ signal_unless (eq_ℤ old.buffer_scale s.buffer_scale) buffer_scale_changed
    ∷ signal_unless (eq_size old.destination_size s.destination_size) destination_size_changed
    ∷ signal_unless (eq_rect old.source_geometry s.source_geometry) source_geometry_changed
    ∷ signal_unless (eq_bool old.has_content s.has_content) has_content_changed
    ∷ signal_unless (eq_ℤ offset.x (pos 0) && eq_ℤ offset.y (pos 0)) (offset_for_next_frame offset)
    ∷ (redraw ∷ [])
    ∷ [])

-- The rest of the commit, from the state before it.
unfoldable pub finish : Buffers → List ℕ → Size → Surface → Surface × List SurfaceEffect
unfolding apply_pending check_committed_state commit_effects signal_unless
finish buffers views surface s =
    let applied = apply_pending buffers surface s in
    let done = with_pending clear applied in
    (
      done,
      signal_unless (eq_bool s.is_opaque applied.is_opaque) is_opaque_changed
          ++ ((if s.viewport then check_committed_state applied else [])
              ++ commit_effects views s.pending.offset s done),
    )

-- `QSize / int`, which has no result for 0.
unfoldable pub divide : Size → ℤ → Option Size
unfolding scaled_size
divide size scale = if eq_ℤ scale (pos 0) then none else some (scaled_size size scale)

abbrev pub on_size :
    (Size → Surface × List SurfaceEffect) → Option Size → Option (Surface × List SurfaceEffect)
on_size rest none = none
on_size rest (some size) = some (rest size)

-- `none` where a division has no result. That of the size comes first, for each commit; those of the
-- damage in `transform` have the same divisor.
unfoldable pub commit : Buffers → List ℕ → Surface → Option (Surface × List SurfaceEffect)
unfolding divide finish
commit buffers views s =
    on_size (λ size. finish buffers views size s)
      (divide (size_of buffers (next_ref s)) s.pending.buffer_scale)

pub commit-finish :
    (buffers : Buffers) (views : List ℕ) (s : Surface)
    → eq_ℤ s.pending.buffer_scale (pos 0) ≡ false
    → commit buffers views s ≡ some (finish buffers views (surface_size buffers s) s)
unfolding commit divide
commit-finish buffers views s h = simp h refl

pub commit-none :
    (buffers : Buffers) (views : List ℕ) (s : Surface)
    → eq_ℤ s.pending.buffer_scale (pos 0) ≡ true
    → commit buffers views s ≡ none
unfolding commit divide
commit-none buffers views s h = simp h refl

pub commit-some :
    (buffers : Buffers) (views : List ℕ) (s after : Surface) (effects : List SurfaceEffect)
    → commit buffers views s ≡ some (after, effects)
    → finish buffers views (surface_size buffers s) s ≡ (after, effects)
commit-some buffers views s after effects h =
    elim (Bool-cases (eq_ℤ s.pending.buffer_scale (pos 0))) [
      | inl e ↦ let stopped = commit-none buffers views s e in absurd cc
      | inr e ↦
          let returned : some (finish buffers views (surface_size buffers s) s)
              ≡ some (after, effects) =
            sym (commit-finish buffers views s e) ∙ h in
          cc
    ]
