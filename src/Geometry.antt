-- ===== src/Geometry.antt =====
-- The value types of the toolkit that the compositor passes around: sizes, points, rectangles and
-- sets of edges. An `int` is a ℤ.
pub mod Regions
use aurora_compositor.Base.{ℕ, ◌+◌, ◌≡◌, Bool, true, false, ◌&&◌, ◌||◌, ◌↔◌, arith, if◌then◌else◌}
use aurora_compositor.Base.Int.{ℤ, pos, negsuc, ◌+ℤ◌, leb_ℤ, eq_ℤ, eq_ℤ_iff}

pub record Size : Type 0 where
  pub width : ℤ
  pub height : ℤ

pub record Point : Type 0 where
  pub x : ℤ
  pub y : ℤ

pub record Rect : Type 0 where
  pub x : ℤ
  pub y : ℤ
  pub width : ℤ
  pub height : ℤ

-- `QSize()`, which is invalid.
abbrev pub no_size : Size
no_size = record { width = negsuc 0; height = negsuc 0 }

abbrev pub zero_size : Size
zero_size = record { width = pos 0; height = pos 0 }

-- `QRect()`.
abbrev pub no_rect : Rect
no_rect = record { x = pos 0; y = pos 0; width = pos 0; height = pos 0 }

-- `QSize::isValid`: both dimensions are at least 0.
abbrev pub is_valid : Size → Bool
is_valid s = leb_ℤ (pos 0) s.width && leb_ℤ (pos 0) s.height

abbrev pub eq_size : Size → Size → Bool
eq_size s t = eq_ℤ s.width t.width && eq_ℤ s.height t.height

abbrev pub eq_rect : Rect → Rect → Bool
eq_rect r s = eq_ℤ r.x s.x && eq_ℤ r.y s.y && eq_ℤ r.width s.width && eq_ℤ r.height s.height

abbrev pub add_point : Point → Point → Point
add_point p q = record { x = p.x +ℤ q.x; y = p.y +ℤ q.y }

abbrev pub rect_size : Rect → Size
rect_size r = record { width = r.width; height = r.height }

-- `Qt::Edges`.
pub record Edges : Type 0 where
  pub top : Bool
  pub left : Bool
  pub right : Bool
  pub bottom : Bool

abbrev pub no_edges : Edges
no_edges = record { top = false; left = false; right = false; bottom = false }

-- The number that stands for the set: `TopEdge` is 1, `LeftEdge` 2, `RightEdge` 4, `BottomEdge` 8.
abbrev pub edge_flags : Edges → ℕ
edge_flags e =
    (if e.top then 1 else 0)
    + (if e.left then 2 else 0)
    + (if e.right then 4 else 0)
    + (if e.bottom then 8 else 0)

-- Both edges of one direction are in the set.
abbrev pub has_parallel : Edges → Bool
has_parallel e = (e.bottom && e.top) || (e.left && e.right)

pub eq_size_iff : (s t : Size) → (eq_size s t ≡ true) ↔ (s ≡ t)
eq_size_iff s t = ground arith

pub eq_rect_iff : (r s : Rect) → (eq_rect r s ≡ true) ↔ (r ≡ s)
eq_rect_iff r s = ground (arith, eq_ℤ_iff r.x s.x)
