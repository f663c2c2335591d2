-- ===== src/LayerShell/Layout/Panels.antt =====
-- Panels that reserve a strip of the output.
use aurora_compositor.Base.{
  ℕ, ◌+◌, ◌≡◌, refl, ap, ◌∙◌, ◌⊎◌, inl, inr, Bool, true, false, ◌&&◌, ◌||◌, List, ◌∷◌, ◌==◌, arith,
  if◌then◌else◌,
}
use aurora_compositor.Base.Int.{ℤ, pos, negsuc, ◌+ℤ◌, ◌≤ℤ◌, eq_ℤ, ltb_ℤ, leb_ℤ, int_laws}
use aurora_compositor.Geometry.{Rect}
use aurora_compositor.LayerShell.{State}
use aurora_compositor.LayerShell.Layout.{
  Layout, LayoutEffect, set_position, place, apply_margins, box_for, apply_exclusive, adjust,
  bounds_for, settle, arrange_item, is_valid_box,
}

abbrev pub is_side : ℕ → ℕ → ℕ → Bool
is_side anchor others anchors = anchors == anchor || anchors == anchor + others

-- A panel at one edge, with its anchors as the protocol wants them, that is not thicker than the strip
-- that it reserves.
abbrev pub is_panel : State → Bool
is_panel s =
    ltb_ℤ (pos 0) s.exclusive_zone
    && ((is_side 4 3 s.anchors || is_side 8 3 s.anchors)
          && leb_ℤ s.desired_size.width s.exclusive_zone
        || (is_side 1 12 s.anchors || is_side 2 12 s.anchors)
          && leb_ℤ s.desired_size.height s.exclusive_zone)

-- The one is to the left, to the right, above or below the other.
abbrev pub Clear : Rect → Rect → Type 0
Clear b a =
    (b.x +ℤ b.width ≤ℤ a.x)
    ⊎ (a.x +ℤ a.width ≤ℤ b.x)
    ⊎ (b.y +ℤ b.height ≤ℤ a.y)
    ⊎ (a.y +ℤ a.height ≤ℤ b.y)

side_cases :
    (anchor others anchors : ℕ)
    → is_side anchor others anchors ≡ true
    → (anchors ≡ anchor) ⊎ (anchors ≡ anchor + others)
side_cases anchor others anchors h = ground arith

module _ (s : State) (a : Rect) (reserves : ltb_ℤ (pos 0) s.exclusive_zone ≡ true) where
  left-Clear :
      is_side 4 3 s.anchors ≡ true
      → s.desired_size.width ≤ℤ s.exclusive_zone
      → Clear (box_for s a) (apply_exclusive s a)
  unfolding box_for place apply_margins apply_exclusive adjust
  left-Clear side thin = elim (side_cases 4 3 s.anchors side) [
    | inl e ↦ simp (reserves, e) (inl (omega int_laws))
    | inr e ↦ simp (reserves, e) (inl (omega int_laws))
  ]

  right-Clear :
      is_side 8 3 s.anchors ≡ true
      → s.desired_size.width ≤ℤ s.exclusive_zone
      → Clear (box_for s a) (apply_exclusive s a)
  unfolding box_for place apply_margins apply_exclusive adjust
  right-Clear side thin = elim (side_cases 8 3 s.anchors side) [
    | inl e ↦ simp (reserves, e) (inr (inl (omega int_laws)))
    | inr e ↦ simp (reserves, e) (inr (inl (omega int_laws)))
  ]

  top-Clear :
      is_side 1 12 s.anchors ≡ true
      → s.desired_size.height ≤ℤ s.exclusive_zone
      → Clear (box_for s a) (apply_exclusive s a)
  unfolding box_for place apply_margins apply_exclusive adjust
  top-Clear side thin = elim (side_cases 1 12 s.anchors side) [
    | inl e ↦ simp (reserves, e) (inr (inr (inl (omega int_laws))))
    | inr e ↦ simp (reserves, e) (inr (inr (inl (omega int_laws))))
  ]

  bottom-Clear :
      is_side 2 12 s.anchors ≡ true
      → s.desired_size.height ≤ℤ s.exclusive_zone
      → Clear (box_for s a) (apply_exclusive s a)
  unfolding box_for place apply_margins apply_exclusive adjust
  bottom-Clear side thin = elim (side_cases 2 12 s.anchors side) [
    | inl e ↦ simp (reserves, e) (inr (inr (inr (omega int_laws))))
    | inr e ↦ simp (reserves, e) (inr (inr (inr (omega int_laws))))
  ]

pub panel_cases :
    (s : State)
    → is_panel s ≡ true
    → (ltb_ℤ (pos 0) s.exclusive_zone ≡ true)
      × ((((is_side 4 3 s.anchors ≡ true) ⊎ (is_side 8 3 s.anchors ≡ true))
            × (s.desired_size.width ≤ℤ s.exclusive_zone))
          ⊎ (((is_side 1 12 s.anchors ≡ true) ⊎ (is_side 2 12 s.anchors ≡ true))
              × (s.desired_size.height ≤ℤ s.exclusive_zone)))
panel_cases s h = ground arith

pub panel-Clear :
    (s : State) (a : Rect) → is_panel s ≡ true → Clear (box_for s a) (apply_exclusive s a)
panel-Clear s a h =
    let (reserves, sides) = panel_cases s h in
    elim sides [
      | inl (inl left, thin) ↦ left-Clear s a reserves left thin
      | inl (inr right, thin) ↦ right-Clear s a reserves right thin
      | inr (inl top, thin) ↦ top-Clear s a reserves top thin
      | inr (inr bottom, thin) ↦ bottom-Clear s a reserves bottom thin
    ]

settle_places :
    (box : Rect) (n : ℕ) (l : Layout)
    → is_valid_box box ≡ true
    → (rest : List LayoutEffect) × ((settle box n l).1 ≡ set_position n box.x box.y ∷ rest)
unfolding settle
settle_places box n l h = simp h (_, refl)

reserves_not_whole : (z : ℤ) → ltb_ℤ (pos 0) z ≡ true → eq_ℤ z (negsuc 0) ≡ false
reserves_not_whole z h = ground arith

item_box :
    (bounding : Rect) (exclusive : Bool) (n : ℕ) (l : Layout)
    → eq_ℤ (l.surface n).current.exclusive_zone (negsuc 0) ≡ false
    → (arrange_item bounding exclusive n l).1
      ≡ (settle (box_for (l.surface n).current l.available) n l).1
unfolding arrange_item
item_box bounding exclusive n l h =
    ap (λ t. (settle (box_for (l.surface n).current (if t then bounding else l.available)) n l).1) h

pub item_available :
    (bounding : Rect) (n : ℕ) (l : Layout)
    → ltb_ℤ (pos 0) (l.surface n).current.exclusive_zone ≡ true
    → (arrange_item bounding true n l).0.available
      ≡ apply_exclusive (l.surface n).current l.available
unfolding arrange_item
item_available bounding n l h =
    let s = (l.surface n).current in
    let settled : Layout = (settle (box_for s (bounds_for bounding s l.available)) n l).0 in
    ap
      (λ t.
        (if t
          then record settled { available = apply_exclusive s l.available }
          else settled).available)
      h

-- A panel at one edge that is arranged with a valid box in the first pass gets that box as its position
-- in what was available, and what is available after it lies wholly beside the box.
pub panel_gets_strip :
    (bounding : Rect) (n : ℕ) (l : Layout)
    → let s = (l.surface n).current in
      is_panel s ≡ true
      → is_valid_box (box_for s l.available) ≡ true
      → let r = arrange_item bounding true n l in
        ((rest : List LayoutEffect) × (r.1
            ≡ set_position n (box_for s l.available).x (box_for s l.available).y ∷ rest))
        × Clear (box_for s l.available) r.0.available
panel_gets_strip bounding n l panel valid =
    let s = (l.surface n).current in
    let box = box_for s l.available in
    let reserves = (panel_cases s panel).0 in
    let (rest, placed) = settle_places box n l valid in
    (
      (rest, item_box bounding true n l (reserves_not_whole s.exclusive_zone reserves) ∙ placed),
      rw (item_available bounding n l reserves) (panel-Clear s l.available panel),
    )
