-- ===== src/Geometry/Regions.antt =====
-- QRegion, a set of pixels, as a list of boxes that cover it. The results depend on the pixels alone.
use aurora_compositor.Base.{
  ◌≡◌, refl, ap, ◌∙◌, Bool, true, false, ◌&&◌, ◌||◌, List, [], ◌∷◌, arith, if◌then◌else◌,
}
use aurora_compositor.Base.Int.{ℤ, ◌+ℤ◌, leb_ℤ, ltb_ℤ}
use aurora_compositor.Geometry.{Rect}

-- The left and the top edge are inside, the right and the lower one are not.
pub record Box : Type 0 where
  pub left : ℤ
  pub top : ℤ
  pub right : ℤ
  pub bottom : ℤ

abbrev pub Region : Type 0
Region = List Box

abbrev pub min_ℤ : ℤ → ℤ → ℤ
min_ℤ a b = if leb_ℤ a b then a else b

abbrev pub max_ℤ : ℤ → ℤ → ℤ
max_ℤ a b = if leb_ℤ a b then b else a

unfoldable pub box_of : Rect → Box
box_of r = record { left = r.x; top = r.y; right = r.x +ℤ r.width; bottom = r.y +ℤ r.height }

unfoldable pub in_box : ℤ → ℤ → Box → Bool
in_box x y b = (leb_ℤ b.left x && ltb_ℤ x b.right) && (leb_ℤ b.top y && ltb_ℤ y b.bottom)

unfoldable pub contains : Region → ℤ → ℤ → Bool
unfolding in_box
contains [] x y = false
contains (b ∷ r) x y = in_box x y b || contains r x y

abbrev pub is_empty_box : Box → Bool
is_empty_box b = leb_ℤ b.right b.left || leb_ℤ b.bottom b.top

-- `QRegion::united` with a rectangle.
unfoldable pub united : Region → Box → Region
united r b = if is_empty_box b then r else b ∷ r

unfoldable pub meet : Box → Box → Box
meet a b = record {
  left = max_ℤ a.left b.left;
  top = max_ℤ a.top b.top;
  right = min_ℤ a.right b.right;
  bottom = min_ℤ a.bottom b.bottom;
}

-- `QRegion::intersected` with a rectangle.
unfoldable pub intersected : Region → Box → Region
unfolding meet united
intersected [] b = []
intersected (a ∷ r) b = united (intersected r b) (meet a b)

abbrev pub join : Box → Box → Box
join a b = record {
  left = min_ℤ a.left b.left;
  top = min_ℤ a.top b.top;
  right = max_ℤ a.right b.right;
  bottom = max_ℤ a.bottom b.bottom;
}

abbrev pub bounding_box : Box → Region → Box
bounding_box b [] = b
bounding_box b (a ∷ r) = bounding_box (join b a) r

abbrev pub box_contains : Box → Box → Bool
box_contains b a =
    leb_ℤ b.left a.left && leb_ℤ a.right b.right && (leb_ℤ b.top a.top && leb_ℤ a.bottom b.bottom)

-- `boundingRect().contains(…)`; the bounding rectangle of no pixels contains nothing.
unfoldable pub bounding_rect_contains : Region → Box → Bool
bounding_rect_contains [] a = false
bounding_rect_contains (b ∷ r) a = box_contains (bounding_box b r) a

pub in_box-empty : (x y : ℤ) (b : Box) → is_empty_box b ≡ true → in_box x y b ≡ false
unfolding in_box
in_box-empty x y b h = ground arith

pub contains-united :
    (r : Region) (b : Box) (x y : ℤ) → contains (united r b) x y ≡ (in_box x y b || contains r x y)
unfolding contains united
contains-united r b x y = ground (arith, in_box-empty x y b)

leb-max : (a b x : ℤ) → leb_ℤ (max_ℤ a b) x ≡ (leb_ℤ a x && leb_ℤ b x)
leb-max a b x = ground arith

ltb-min : (a b x : ℤ) → ltb_ℤ x (min_ℤ a b) ≡ (ltb_ℤ x a && ltb_ℤ x b)
ltb-min a b x = ground arith

and_swap : (a b c d : Bool) → ((a && b) && (c && d)) ≡ ((a && c) && (b && d))
and_swap true b true d = refl
and_swap true true false d = refl
and_swap true false false d = refl
and_swap false b c d = refl

and_swaps :
    (a b c d e f g h : Bool)
    → (((a && b) && (c && d)) && ((e && f) && (g && h)))
      ≡ (((a && c) && (e && g)) && ((b && d) && (f && h)))
and_swaps a b c d e f g h =
    ap (λ t. t && ((e && f) && (g && h))) (and_swap a b c d)
    ∙ (ap (λ t. ((a && c) && (b && d)) && t) (and_swap e f g h)
        ∙ and_swap (a && c) (b && d) (e && g) (f && h))

or_and : (a b c : Bool) → ((a && c) || (b && c)) ≡ ((a || b) && c)
or_and true true true = refl
or_and true true false = refl
or_and true false true = refl
or_and true false false = refl
or_and false b c = refl

pub in_box-meet : (a b : Box) (x y : ℤ) → in_box x y (meet a b) ≡ (in_box x y a && in_box x y b)
unfolding in_box meet
in_box-meet a b x y =
    rw
      (
        leb-max a.left b.left x,
        ltb-min a.right b.right x,
        leb-max a.top b.top y,
        ltb-min a.bottom b.bottom y,
      )
      (and_swaps (leb_ℤ a.left x) (leb_ℤ b.left x) (ltb_ℤ x a.right) (ltb_ℤ x b.right)
        (leb_ℤ a.top y) (leb_ℤ b.top y) (ltb_ℤ y a.bottom) (ltb_ℤ y b.bottom))

pub contains-intersected :
    (r : Region) (b : Box) (x y : ℤ)
    → contains (intersected r b) x y ≡ (contains r x y && in_box x y b)
unfolding contains intersected
contains-intersected [] b x y = refl
contains-intersected (a ∷ r) b x y =
    contains-united (intersected r b) (meet a b) x y
    ∙ (ap (λ t. t || contains (intersected r b) x y) (in_box-meet a b x y)
        ∙ (ap (λ t. (in_box x y a && in_box x y b) || t) (contains-intersected r b x y)
            ∙ or_and (in_box x y a) (contains r x y) (in_box x y b)))
