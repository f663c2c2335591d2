-- ===== src/Xdg/Positioner/Placement.antt =====
-- Where a positioner places a popup (WaylandXdgPositionerData::anchorPoint, unconstrainedPosition).
use aurora_compositor.Base.{
  ℕ, ◌+◌, ◌*◌, ◌^◌, ◌<◌, ◌≡◌, Bool, true, false, not, arith, if◌then◌else◌,
}
use aurora_compositor.Base.Int.{ℤ, pos, pos_part, neg_part, ◌+ℤ◌, ◌≤ℤ◌, neg_ℤ, half_ℤ, int_laws}
use aurora_compositor.Xdg.Positioner.{
  PositionerData, is_complete, anchor_point, unconstrained_position,
}

-- The point of an interval that the edges at its ends select.
abbrev select : Bool → Bool → ℤ → ℤ → ℤ
select low high a w = if low then a else if high then a +ℤ w else a +ℤ half_ℤ w

select_within :
    (low high : Bool) (a w : ℤ)
    → pos 0 ≤ℤ w
    → (a ≤ℤ select low high a w) × (select low high a w ≤ℤ (a +ℤ w))
select_within true high a w h = omega int_laws
select_within false true a w h = omega int_laws
select_within false false a w h = omega int_laws

complete_sizes :
    (p : PositionerData)
    → is_complete p ≡ true
    → (pos 0 ≤ℤ p.anchor_rect.width) × (pos 0 ≤ℤ p.anchor_rect.height)
unfolding is_complete
complete_sizes p h = ground arith

complete_popup :
    (p : PositionerData) → is_complete p ≡ true → (pos 0 ≤ℤ p.size.width) × (pos 0 ≤ℤ p.size.height)
unfolding is_complete
complete_popup p h = ground arith

-- The anchor point of a complete positioner lies on its anchor rectangle, the borders included.
anchor_point_within :
    (p : PositionerData)
    → is_complete p ≡ true
    → let r = p.anchor_rect in
      let a = anchor_point p in
      (r.x ≤ℤ a.x) × (a.x ≤ℤ (r.x +ℤ r.width)) × (r.y ≤ℤ a.y) × (a.y ≤ℤ (r.y +ℤ r.height))
unfolding anchor_point is_complete
anchor_point_within p h =
    let (w, v) = complete_sizes p h in
    let across = select_within p.anchor_edges.left p.anchor_edges.right p.anchor_rect.x _ w in
    let down = select_within p.anchor_edges.top p.anchor_edges.bottom p.anchor_rect.y _ v in
    (across.0, across.1, down.0, down.1)

-- The shift that the gravity along one axis gives a popup of the length `w`.
abbrev shift : Bool → Bool → ℤ → ℤ
shift low high w = if low then neg_ℤ w else if not high then half_ℤ (neg_ℤ w) else pos 0

-- A position `q` of a popup of the length `w` against an anchor `a`: on the low side of it, on the
-- high side, or around it to within one unit.
abbrev pub Placed : Bool → Bool → ℤ → ℤ → ℤ → Type 0
Placed true high q w a = (q +ℤ w) ≡ a
Placed false true q w a = q ≡ a
Placed false false q w a = ((q +ℤ q) +ℤ w ≤ℤ (a +ℤ a) +ℤ pos 1) × (a +ℤ a ≤ℤ (q +ℤ q) +ℤ w)

shift-Placed :
    (low high : Bool) (a w o : ℤ)
    → pos 0 ≤ℤ w
    → Placed low high ((a +ℤ shift low high w) +ℤ o) w (a +ℤ o)
shift-Placed true high a w o h = omega int_laws
shift-Placed false true a w o h = omega int_laws
shift-Placed false false a w o h = (omega int_laws, omega int_laws)

-- The unconstrained position of a complete positioner puts the popup beside its anchor point moved
-- by the offset, on the side that the gravity names along each axis; where the gravity names no
-- side the popup is centred on that point, to within half a unit.
pub unconstrained_position-Placed :
    (p : PositionerData)
    → is_complete p ≡ true
    → let q = unconstrained_position p in
      let a = anchor_point p in
      let g = p.gravity_edges in
      Placed g.left g.right q.x p.size.width (a.x +ℤ p.offset.x)
      × Placed g.top g.bottom q.y p.size.height (a.y +ℤ p.offset.y)
unfolding unconstrained_position
unconstrained_position-Placed p h =
    let g = p.gravity_edges in
    let (w, v) = complete_popup p h in
    (shift-Placed g.left g.right _ _ _ w, shift-Placed g.top g.bottom _ _ _ v)

-- `n` is more than -b and less than b.
abbrev pub Within : ℕ → ℤ → Type 0
Within b n = (pos_part n < b) × (neg_part n < b)

select_bound :
    (b : ℕ) (low high : Bool) (a w : ℤ)
    → Within b a
    → Within b w
    → Within (b + b) (select low high a w)
select_bound b true high a w h k = omega int_laws
select_bound b false true a w h k = omega int_laws
select_bound b false false a w h k = omega int_laws

shift_bound : (b : ℕ) (low high : Bool) (w : ℤ) → Within b w → Within b (shift low high w)
shift_bound b true high w k = omega int_laws
shift_bound b false true w k = omega int_laws
shift_bound b false false w k = omega int_laws

sum_bound :
    (b : ℕ) (a s o : ℤ)
    → Within (b + b) a
    → Within b s
    → Within b o
    → Within (4 * b) ((a +ℤ s) +ℤ o)
sum_bound b a s o h k l = omega int_laws

-- When every coordinate and length of a positioner is below 2 ^ 29 in magnitude, its unconstrained
-- position is below 2 ^ 31, so that no `int` overflows.
unconstrained_position_fits :
    (p : PositionerData)
    → Within (2 ^ 29) p.anchor_rect.x
    → Within (2 ^ 29) p.anchor_rect.y
    → Within (2 ^ 29) p.anchor_rect.width
    → Within (2 ^ 29) p.anchor_rect.height
    → Within (2 ^ 29) p.size.width
    → Within (2 ^ 29) p.size.height
    → Within (2 ^ 29) p.offset.x
    → Within (2 ^ 29) p.offset.y
    → Within (2 ^ 31) (unconstrained_position p).x × Within (2 ^ 31) (unconstrained_position p).y
unfolding unconstrained_position
unconstrained_position_fits p rx ry rw' rh sw sh ox oy =
    let g = p.gravity_edges in
    let e = p.anchor_edges in
    (
      sum_bound (2 ^ 29) _ _ _ (select_bound (2 ^ 29) e.left e.right _ _ rx rw')
          (shift_bound (2 ^ 29) g.left g.right _ sw) ox,
      sum_bound (2 ^ 29) _ _ _ (select_bound (2 ^ 29) e.top e.bottom _ _ ry rh)
          (shift_bound (2 ^ 29) g.top g.bottom _ sh) oy,
    )
