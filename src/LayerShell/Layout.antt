-- ===== src/LayerShell/Layout.antt =====
-- The arrangement of layer surfaces on an output,
-- compositor/extensions/aurorawaylandsurfacelayout.cpp under src/. Lengths are numbers of half pixels, so
-- that a centred surface has an exact place; the bounding rectangle has whole pixels. The order in
-- depth and the choice of the item with the focus at the end of `layoutItems` are left out.
pub mod Panels
pub mod Passes
use aurora_compositor.Base.{
  ℕ, suc, ◌+◌, Bool, true, false, not, ◌&&◌, ◌||◌, List, [], ◌∷◌, ◌++◌, ◌==◌, if◌then◌else◌, map,
  ltb, ◌%◌, ◌/◌,
}
use aurora_compositor.Base.Int.{ℤ, pos, negsuc, ◌+ℤ◌, ◌-ℤ◌, half_ℤ, neg_ℤ, eq_ℤ, ltb_ℤ}
use aurora_compositor.Geometry.{Size, Rect, rect_size}
use aurora_compositor.LayerShell.{State, LayerSurface, LayerEffect, Margins, send_configure, close}

pub data LayoutEffect : Type 0 where
  set_position : ℕ → ℤ → ℤ → LayoutEffect
  on_surface : ℕ → LayerEffect → LayoutEffect
  close_warning : LayoutEffect
  set_available_geometry : Rect → LayoutEffect

abbrev pub top_anchor : ℕ
top_anchor = 1

abbrev pub bottom_anchor : ℕ
bottom_anchor = 2

abbrev pub left_anchor : ℕ
left_anchor = 4

abbrev pub right_anchor : ℕ
right_anchor = 8

-- `testFlag` of one anchor.
abbrev pub has_anchor : ℕ → ℕ → Bool
has_anchor anchor anchors = anchors / anchor % 2 == 1

abbrev pub half_pixels : ℤ → ℤ
half_pixels a = a +ℤ a

-- `QRectF::adjust`.
unfoldable pub adjust : ℤ → ℤ → ℤ → ℤ → Rect → Rect
adjust left top right bottom r = record {
  x = r.x +ℤ left;
  y = r.y +ℤ top;
  width = r.width +ℤ (right -ℤ left);
  height = r.height +ℤ (bottom -ℤ top);
}

-- `applyExclusive`, with the sets of anchors as numbers.
unfoldable pub apply_exclusive : State → Rect → Rect
unfolding adjust
apply_exclusive s available =
    if not (ltb_ℤ (pos 0) s.exclusive_zone)
    then available
    else if s.anchors == left_anchor || s.anchors == left_anchor + top_anchor + bottom_anchor
    then adjust (half_pixels (s.margins.left +ℤ s.exclusive_zone)) (pos 0) (pos 0) (pos 0) available
    else if s.anchors == right_anchor || s.anchors == right_anchor + top_anchor + bottom_anchor
    then adjust (pos 0) (pos 0) (half_pixels (neg_ℤ s.margins.right -ℤ s.exclusive_zone)) (pos 0)
        available
    else if s.anchors == top_anchor || s.anchors == top_anchor + left_anchor + right_anchor
    then adjust (pos 0) (half_pixels (s.margins.top +ℤ s.exclusive_zone)) (pos 0) (pos 0) available
    else if s.anchors == bottom_anchor || s.anchors == bottom_anchor + left_anchor + right_anchor
    then adjust (pos 0) (pos 0) (pos 0) (half_pixels (neg_ℤ s.margins.bottom -ℤ s.exclusive_zone))
        available
    else available

-- One direction of a rectangle.
pub record Span : Type 0 where
  pub start : ℤ
  pub length : ℤ

-- Left and right, or top and bottom: `near` and `far` are the anchors.
unfoldable pub place : Bool → Bool → Span → ℤ → Span
place near far bounds length =
    if near && far && eq_ℤ length (pos 0)
    then bounds
    else if near
    then record { start = bounds.start; length = length }
    else if far
    then record { start = bounds.start +ℤ bounds.length -ℤ length; length = length }
    else record { start = bounds.start +ℤ half_ℤ (bounds.length -ℤ length); length = length }

unfoldable pub apply_margins : Bool → Bool → ℤ → ℤ → Span → Span
apply_margins near far before after box =
    if near && far
    then record { start = box.start +ℤ before; length = box.length +ℤ (neg_ℤ after -ℤ before) }
    else if near
    then record box { start = box.start +ℤ before }
    else if far
    then record box { start = box.start +ℤ neg_ℤ after }
    else box

unfoldable pub box_for : State → Rect → Rect
unfolding place apply_margins
box_for s bounds =
    let left = has_anchor left_anchor s.anchors in
    let right = has_anchor right_anchor s.anchors in
    let top = has_anchor top_anchor s.anchors in
    let bottom = has_anchor bottom_anchor s.anchors in
    let across =
      apply_margins left right (half_pixels s.margins.left) (half_pixels s.margins.right) (
        place left right (record { start = bounds.x; length = bounds.width })
          (half_pixels s.desired_size.width)) in
    let down = apply_margins top bottom (half_pixels s.margins.top) (half_pixels s.margins.bottom) (
      place top bottom (record { start = bounds.y; length = bounds.height })
        (half_pixels s.desired_size.height)) in
    record { x = across.start; y = down.start; width = across.length; height = down.length }

-- `QRectF::isValid`.
abbrev pub is_valid_box : Rect → Bool
is_valid_box r = ltb_ℤ (pos 0) r.width && ltb_ℤ (pos 0) r.height

-- The layer surfaces by name, the next serial, and the geometry that is left.
pub record Layout : Type 0 where
  pub surface : ℕ → LayerSurface
  pub serial : ℕ
  pub available : Rect

abbrev pub with_surface : ℕ → LayerSurface → Layout → Layout
with_surface n s l = record l { surface = λ k. if k == n then s else l.surface k }

abbrev pub bounds_for : Rect → State → Rect → Rect
bounds_for bounding s available = if eq_ℤ s.exclusive_zone (negsuc 0) then bounding else available

-- A valid box is sent to the client, and a surface with another is closed.
unfoldable pub settle : Rect → ℕ → Layout → Layout × List LayoutEffect
unfolding send_configure close
settle box n l =
    let size : Size = record { width = half_ℤ box.width; height = half_ℤ box.height } in
    let sent = send_configure l.serial size (l.surface n) in
    let closed = close (l.surface n) in
    if is_valid_box box
    then (
      record (with_surface n sent.0 l) { serial = suc l.serial },
      set_position n box.x box.y ∷ map (on_surface n) sent.2,
    )
    else (with_surface n closed.0 l, close_warning ∷ map (on_surface n) closed.1)

-- One round of `arrangeLayer` for a surface that is neither in another layer nor in the other pass.
unfoldable pub arrange_item : Rect → Bool → ℕ → Layout → Layout × List LayoutEffect
unfolding box_for settle apply_exclusive
arrange_item bounding exclusive n l =
    let s = (l.surface n).current in
    let settled = settle (box_for s (bounds_for bounding s l.available)) n l in
    (
      if exclusive && ltb_ℤ (pos 0) s.exclusive_zone
          then record (settled.0) { available = apply_exclusive s l.available }
          else settled.0,
      settled.1,
    )

abbrev pub eq_bool : Bool → Bool → Bool
eq_bool true b = b
eq_bool false b = not b

-- The surfaces in the order of the child items.
unfoldable pub arrange_layer : Rect → ℕ → Bool → List ℕ → Layout → Layout × List LayoutEffect
unfolding arrange_item
arrange_layer bounding layer exclusive [] l = (l, [])
arrange_layer bounding layer exclusive (n ∷ ns) l =
    let s = (l.surface n).current in
    let skipped = arrange_layer bounding layer exclusive ns l in
    let (l1, e1) = arrange_item bounding exclusive n l in
    let (l2, e2) = arrange_layer bounding layer exclusive ns l1 in
    if not (s.layer == layer) || not (eq_bool exclusive (ltb_ℤ (pos 0) s.exclusive_zone))
    then skipped
    else (l2, e1 ++ e2)

-- In whole pixels.
abbrev pub pixels : Rect → Rect
pixels r = record {
  x = half_ℤ r.x;
  y = half_ℤ r.y;
  width = half_ℤ r.width;
  height = half_ℤ r.height;
}

abbrev pub then_layer :
    Layout × List LayoutEffect → (Layout → Layout × List LayoutEffect) → Layout × List LayoutEffect
then_layer (l, e) f = let r = f l in (r.0, e ++ r.1)

-- The overlay layer first, the background last.
unfoldable pub all_layers :
    Rect → Bool → List ℕ → Layout × List LayoutEffect → Layout × List LayoutEffect
unfolding arrange_layer
all_layers bounding exclusive ns r =
    then_layer
      (then_layer
        (then_layer (then_layer r (arrange_layer bounding 3 exclusive ns))
          (arrange_layer bounding 2 exclusive ns))
        (arrange_layer bounding 1 exclusive ns))
      (arrange_layer bounding 0 exclusive ns)

-- `layoutItems` up to the geometry of the output; `has_output` is about the member `output`.
unfoldable pub layout_items : Rect → Bool → List ℕ → Layout → Layout × List LayoutEffect
unfolding all_layers
layout_items bounding has_output ns l =
    let done =
      all_layers bounding false ns
        (all_layers bounding true ns (record l { available = bounding }, [])) in
    (
      done.0,
      done.1 ++ (if has_output then set_available_geometry (pixels done.0.available) ∷ [] else []),
    )
