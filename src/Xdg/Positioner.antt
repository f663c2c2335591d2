-- ===== src/Xdg/Positioner.antt =====
-- WaylandXdgPositionerData and the requests of WaylandXdgPositioner.
pub mod Placement
pub mod Requests
use aurora_compositor.Base.{
  ℕ, Bool, true, false, not, ◌&&◌, ◌||◌, List, [], ◌∷◌, ◌++◌, ◌==◌, if◌then◌else◌,
}
use aurora_compositor.Base.Int.{ℤ, pos, ◌+ℤ◌, neg_ℤ, half_ℤ, ltb_ℤ, leb_ℤ}
use aurora_compositor.Geometry.{
  Size, Point, Rect, Edges, no_size, no_rect, no_edges, has_parallel, add_point,
}
use aurora_compositor.Xdg.Effect.{Effect, post_error, invalid_input, warning}

pub record PositionerData : Type 0 where
  pub size : Size
  pub anchor_rect : Rect
  pub anchor_edges : Edges
  pub gravity_edges : Edges
  pub constraint_adjustments : ℕ
  pub offset : Point

unfoldable pub new_positioner : PositionerData
new_positioner = record {
  size = no_size;
  anchor_rect = no_rect;
  anchor_edges = no_edges;
  gravity_edges = no_edges;
  constraint_adjustments = 0;
  offset = record { x = pos 0; y = pos 0 };
}

unfoldable pub is_complete : PositionerData → Bool
is_complete p =
    ltb_ℤ (pos 0) p.size.width
    && ltb_ℤ (pos 0) p.size.height
    && ltb_ℤ (pos 0) p.anchor_rect.width
    && ltb_ℤ (pos 0) p.anchor_rect.height

-- `right() + 1` and `bottom() + 1` of a QRect are `x + width` and `y + height`.
unfoldable pub anchor_point : PositionerData → Point
anchor_point p = record {
  x = if e.left then r.x else if e.right then r.x +ℤ r.width else r.x +ℤ half_ℤ r.width;
  y = if e.top then r.y else if e.bottom then r.y +ℤ r.height else r.y +ℤ half_ℤ r.height;
}
  where
    open p use {anchor_rect as r, anchor_edges as e}

-- `-size.height() / 2` negates first.
gravity_offset : PositionerData → Point
gravity_offset p = record {
  x = if e.left then neg_ℤ s.width else if not e.right then half_ℤ (neg_ℤ s.width) else pos 0;
  y = if e.top then neg_ℤ s.height else if not e.bottom then half_ℤ (neg_ℤ s.height) else pos 0;
}
  where
    open p use {size as s, gravity_edges as e}

unfoldable pub unconstrained_position : PositionerData → Point
unfolding anchor_point gravity_offset
unconstrained_position p = add_point (add_point (anchor_point p) (gravity_offset p)) p.offset

unfoldable pub set_size : ℤ → ℤ → PositionerData → PositionerData × List Effect
set_size width height p =
    if leb_ℤ width (pos 0) || leb_ℤ height (pos 0)
    then (p, post_error invalid_input ∷ [])
    else (record p { size = record { width = width; height = height } }, [])

unfoldable pub set_anchor_rect : ℤ → ℤ → ℤ → ℤ → PositionerData → PositionerData × List Effect
set_anchor_rect x y width height p =
    if leb_ℤ width (pos 0) || leb_ℤ height (pos 0)
    then (p, post_error invalid_input ∷ [])
    else (record p { anchor_rect = record { x = x; y = y; width = width; height = height } }, [])

-- The numbers of the protocol's enum `anchor`; that of `gravity` has the same. Any other number
-- is logged.
unfoldable pub convert_to_edges : ℕ → Edges × List Effect
convert_to_edges a =
    if a == 0
    then (no_edges, [])
    else if a == 1
    then (record no_edges { top = true }, [])
    else if a == 2
    then (record no_edges { bottom = true }, [])
    else if a == 3
    then (record no_edges { left = true }, [])
    else if a == 4
    then (record no_edges { right = true }, [])
    else if a == 5
    then (record no_edges { top = true; left = true }, [])
    else if a == 6
    then (record no_edges { bottom = true; left = true }, [])
    else if a == 7
    then (record no_edges { top = true; right = true }, [])
    else if a == 8
    then (record no_edges { bottom = true; right = true }, [])
    else (no_edges, warning ∷ [])

unfoldable pub set_anchor : ℕ → PositionerData → PositionerData × List Effect
set_anchor a p =
    let (e, log) = convert_to_edges a in
    if has_parallel e
    then (p, log ++ post_error invalid_input ∷ [])
    else (record p { anchor_edges = e }, log)

unfoldable pub set_gravity : ℕ → PositionerData → PositionerData × List Effect
set_gravity g p =
    let (e, log) = convert_to_edges g in
    if has_parallel e
    then (p, log ++ post_error invalid_input ∷ [])
    else (record p { gravity_edges = e }, log)

unfoldable pub set_constraint_adjustment : ℕ → PositionerData → PositionerData × List Effect
set_constraint_adjustment c p = (record p { constraint_adjustments = c }, [])

unfoldable pub set_offset : ℤ → ℤ → PositionerData → PositionerData × List Effect
set_offset x y p = (record p { offset = record { x = x; y = y } }, [])

-- A request of the client on its positioner.
pub data Request : Type 0 where
  size_request : ℤ → ℤ → Request
  anchor_rect_request : ℤ → ℤ → ℤ → ℤ → Request
  anchor_request : ℕ → Request
  gravity_request : ℕ → Request
  constraint_adjustment_request : ℕ → Request
  offset_request : ℤ → ℤ → Request

unfoldable pub handle : Request → PositionerData → PositionerData × List Effect
handle (size_request w h) p = set_size w h p
handle (anchor_rect_request x y w h) p = set_anchor_rect x y w h p
handle (anchor_request a) p = set_anchor a p
handle (gravity_request g) p = set_gravity g p
handle (constraint_adjustment_request c) p = set_constraint_adjustment c p
handle (offset_request x y) p = set_offset x y p

unfoldable pub handle_all : List Request → PositionerData → PositionerData
handle_all [] p = p
handle_all (r ∷ rs) p = handle_all rs (handle r p).0
