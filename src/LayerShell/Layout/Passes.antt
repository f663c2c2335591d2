-- ===== src/LayerShell/Layout/Passes.antt =====
-- A pass over the surfaces of a layer, and the strips that its panels reserve.
use aurora_compositor.Base.{
  ℕ, ◌≡◌, refl, sym, ap, ◌∙◌, inl, inr, Bool, true, false, not, ◌&&◌, ◌||◌, List, [], ◌∷◌, ◌++◌,
  ◌==◌, ==_iff, arith, if◌then◌else◌, Bool-cases,
}
use aurora_compositor.Base.Int.{ℤ, pos, ◌+ℤ◌, ◌-ℤ◌, neg_ℤ, ◌≤ℤ◌, half_ℤ, ltb_ℤ, leb_ℤ, int_laws}
use aurora_compositor.Geometry.{Rect, Size}
use aurora_compositor.LayerShell.{State, LayerSurface, send_configure, close, unmap}
use aurora_compositor.LayerShell.Layout.{
  Layout, half_pixels, box_for, apply_exclusive, adjust, bounds_for, settle, arrange_item,
  arrange_layer, is_valid_box, with_surface, eq_bool,
}
use aurora_compositor.LayerShell.Layout.Panels.{
  Clear, is_panel, panel-Clear, panel_cases, item_available,
}

-- The one lies within the other.
Inside : Rect → Rect → Type 0
Inside a b =
    (b.x ≤ℤ a.x)
    × (a.x +ℤ a.width ≤ℤ b.x +ℤ b.width)
    × (b.y ≤ℤ a.y)
    × (a.y +ℤ a.height ≤ℤ b.y +ℤ b.height)

abbrev pub has_margins : State → Bool
has_margins s =
    leb_ℤ (pos 0) s.margins.left
    && leb_ℤ (pos 0) s.margins.top
    && leb_ℤ (pos 0) s.margins.right
    && leb_ℤ (pos 0) s.margins.bottom

Inside-Clear : (b a a2 : Rect) → Clear b a → Inside a2 a → Clear b a2
unfolding Inside
Inside-Clear b a a2 (inl h) w = inl (omega int_laws)
Inside-Clear b a a2 (inr (inl h)) w = inr (inl (omega int_laws))
Inside-Clear b a a2 (inr (inr (inl h))) w = inr (inr (inl (omega int_laws)))
Inside-Clear b a a2 (inr (inr (inr h))) w = inr (inr (inr (omega int_laws)))

Inside-refl : (a : Rect) → Inside a a
unfolding Inside
Inside-refl a = (omega arith, omega arith, omega arith, omega arith)

Inside-trans : (a b c : Rect) → Inside a b → Inside b c → Inside a c
unfolding Inside
Inside-trans a b c h w = (omega int_laws, omega int_laws, omega int_laws, omega int_laws)

adjust-Inside :
    (left top right bottom : ℤ) (a : Rect)
    → pos 0 ≤ℤ left
    → pos 0 ≤ℤ top
    → right ≤ℤ pos 0
    → bottom ≤ℤ pos 0
    → Inside (adjust left top right bottom a) a
unfolding Inside adjust
adjust-Inside left top right bottom a h1 h2 h3 h4 =
    (omega int_laws, omega int_laws, omega int_laws, omega int_laws)

-- One edge moves inwards by a margin and a strip.
strip_in :
    (margin zone : ℤ)
    → pos 0 ≤ℤ margin
    → ltb_ℤ (pos 0) zone ≡ true
    → pos 0 ≤ℤ half_pixels (margin +ℤ zone)
strip_in margin zone h w = let positive : pos 0 ≤ℤ zone = ground arith in omega int_laws

strip_out :
    (margin zone : ℤ)
    → pos 0 ≤ℤ margin
    → ltb_ℤ (pos 0) zone ≡ true
    → half_pixels (neg_ℤ margin -ℤ zone) ≤ℤ pos 0
strip_out margin zone h w = let positive : pos 0 ≤ℤ zone = ground arith in omega int_laws

margins_cases :
    (s : State)
    → has_margins s ≡ true
    → (pos 0 ≤ℤ s.margins.left)
      × (pos 0 ≤ℤ s.margins.top)
      × (pos 0 ≤ℤ s.margins.right)
      × (pos 0 ≤ℤ s.margins.bottom)
margins_cases s h = ground arith

zero_le : pos 0 ≤ℤ pos 0
zero_le = omega arith

apply_exclusive-Inside :
    (s : State) (a : Rect) → has_margins s ≡ true → Inside (apply_exclusive s a) a
unfolding apply_exclusive adjust
apply_exclusive-Inside s a h =
    let (left, top, right, bottom) = margins_cases s h in
    elim (Bool-cases (ltb_ℤ (pos 0) s.exclusive_zone)) [
      | inr none_ ↦ simp none_ (Inside-refl a)
      | inl r ↦ elim (Bool-cases (s.anchors == 4 || s.anchors == 7)) [
        | inl e ↦
            simp (r, e) (adjust-Inside _ _ _ _ a (strip_in _ _ left r) zero_le zero_le zero_le)
        | inr ne ↦ elim (Bool-cases (s.anchors == 8 || s.anchors == 11)) [
          | inl e ↦
              simp (r, ne, e)
                (adjust-Inside _ _ _ _ a zero_le zero_le (strip_out _ _ right r) zero_le)
          | inr ne2 ↦ elim (Bool-cases (s.anchors == 1 || s.anchors == 13)) [
            | inl e ↦
                simp (r, ne, ne2, e)
                  (adjust-Inside _ _ _ _ a zero_le (strip_in _ _ top r) zero_le zero_le)
            | inr ne3 ↦ elim (Bool-cases (s.anchors == 2 || s.anchors == 14)) [
              | inl e ↦
                  simp (r, ne, ne2, ne3, e)
                    (adjust-Inside _ _ _ _ a zero_le zero_le zero_le (strip_out _ _ bottom r))
              | inr ne4 ↦ simp (r, ne, ne2, ne3, ne4) (Inside-refl a)
            ]
          ]
        ]
      ]
    ]

send_configure-current :
    (serial : ℕ) (size : Size) (s : LayerSurface)
    → (send_configure serial size s).0.current ≡ s.current
unfolding send_configure
send_configure-current serial size s = ground arith

with_surface-current :
    (n k : ℕ) (s : LayerSurface) (l : Layout)
    → s.current ≡ (l.surface n).current
    → ((with_surface n s l).surface k).current ≡ (l.surface k).current
with_surface-current n k s l h = elim (Bool-cases (k == n)) [
  | inl hit ↦ simp hit (h ∙ ap (λ m. (l.surface m).current) (sym ((==_iff k n).0 hit)))
  | inr miss ↦ simp miss refl
]

settle-current :
    (box : Rect) (n k : ℕ) (l : Layout)
    → ((settle box n l).0.surface k).current ≡ (l.surface k).current
unfolding settle close unmap
settle-current box n k l = elim (Bool-cases (is_valid_box box)) [
  | inl h ↦
      let size : Size = record { width = half_ℤ box.width; height = half_ℤ box.height } in
      simp h (
        with_surface-current n k (send_configure l.serial size (l.surface n)).0 l
          (send_configure-current l.serial size (l.surface n)))
  | inr h ↦ simp h (with_surface-current n k _ l refl)
]

settle-available : (box : Rect) (n : ℕ) (l : Layout) → (settle box n l).0.available ≡ l.available
unfolding settle
settle-available box n l = ground arith

item-current :
    (bounding : Rect) (exclusive : Bool) (n k : ℕ) (l : Layout)
    → ((arrange_item bounding exclusive n l).0.surface k).current ≡ (l.surface k).current
unfolding arrange_item
item-current bounding exclusive n k l =
    let s = (l.surface n).current in
    let box = box_for s (bounds_for bounding s l.available) in
    let settled : Layout = (settle box n l).0 in
    elim (Bool-cases (exclusive && ltb_ℤ (pos 0) s.exclusive_zone)) [
      | inl h ↦
          ap
            (λ t.
              ((if t
                  then record settled { available = apply_exclusive s l.available }
                  else settled).surface
                k).current)
            h
          ∙ settle-current box n k l
      | inr h ↦
          ap
            (λ t.
              ((if t
                  then record settled { available = apply_exclusive s l.available }
                  else settled).surface
                k).current)
            h
          ∙ settle-current box n k l
    ]

item-Inside :
    (bounding : Rect) (exclusive : Bool) (n : ℕ) (l : Layout)
    → has_margins (l.surface n).current ≡ true
    → Inside (arrange_item bounding exclusive n l).0.available l.available
unfolding arrange_item
item-Inside bounding exclusive n l w =
    let s = (l.surface n).current in
    let box = box_for s (bounds_for bounding s l.available) in
    elim (Bool-cases (exclusive && ltb_ℤ (pos 0) s.exclusive_zone)) [
      | inl h ↦ rw h (apply_exclusive-Inside s l.available w)
      | inr h ↦ rw h (rw (settle-available box n l) (Inside-refl l.available))
    ]

pass-Inside :
    (bounding : Rect) (layer : ℕ) (exclusive : Bool) (ns : List ℕ) (l : Layout)
    → ((k : ℕ) → has_margins (l.surface k).current ≡ true)
    → Inside (arrange_layer bounding layer exclusive ns l).0.available l.available
unfolding arrange_layer
pass-Inside bounding layer exclusive [] l w = Inside-refl l.available
pass-Inside bounding layer exclusive (n ∷ ns) l w =
    let s = (l.surface n).current in
    let l1 = (arrange_item bounding exclusive n l).0 in
    elim (Bool-cases
      (not (s.layer == layer) || not (eq_bool exclusive (ltb_ℤ (pos 0) s.exclusive_zone)))) [
        | inl skip ↦ rw skip (pass-Inside bounding layer exclusive ns l w)
        | inr go ↦ rw go (
            Inside-trans _ l1.available l.available
              (pass-Inside bounding layer exclusive ns l1
                (λ k. ap has_margins (item-current bounding exclusive n k l) ∙ w k))
              (item-Inside bounding exclusive n l (w n)))
      ]

takes_turn :
    (s : State)
    → is_panel s ≡ true
    → not (s.layer == s.layer) || not (ltb_ℤ (pos 0) s.exclusive_zone) ≡ false
takes_turn s h = ground (arith, (==_iff s.layer s.layer).1 refl, (panel_cases s h).0)

pass-Clear :
    (bounding : Rect) (n : ℕ) (newer : List ℕ) (l : Layout)
    → ((k : ℕ) → has_margins (l.surface k).current ≡ true)
    → is_panel (l.surface n).current ≡ true
    → Clear
        (box_for (l.surface n).current l.available)
        (arrange_layer bounding (l.surface n).current.layer true (n ∷ newer) l).0.available
unfolding arrange_layer
pass-Clear bounding n newer l w panel =
    let s = (l.surface n).current in
    let l1 = (arrange_item bounding true n l).0 in
    rw (takes_turn s panel) (
      Inside-Clear (box_for s l.available) l1.available _
        (rw (item_available bounding n l (panel_cases s panel).0) (panel-Clear s l.available panel))
        (pass-Inside bounding s.layer true newer l1
          (λ k. ap has_margins (item-current bounding true n k l) ∙ w k)))

pass-Clear_at :
    (bounding : Rect) (n : ℕ) (s : State) (newer : List ℕ) (l : Layout)
    → ((k : ℕ) → has_margins (l.surface k).current ≡ true)
    → (l.surface n).current ≡ s
    → is_panel s ≡ true
    → Clear (box_for s l.available) (arrange_layer bounding s.layer true (n ∷ newer) l).0.available
pass-Clear_at bounding n s newer l w same panel =
    rw⁻¹ same (pass-Clear bounding n newer l w (ap is_panel same ∙ panel))

stays-Clear :
    (bounding : Rect) (n : ℕ) (s : State) (older newer : List ℕ) (l : Layout)
    → ((k : ℕ) → has_margins (l.surface k).current ≡ true)
    → (l.surface n).current ≡ s
    → is_panel s ≡ true
    → Clear
        (box_for s (arrange_layer bounding s.layer true older l).0.available)
        (arrange_layer bounding s.layer true (older ++ n ∷ newer) l).0.available
unfolding arrange_layer
stays-Clear bounding n s [] newer l w same panel = pass-Clear_at bounding n s newer l w same panel
stays-Clear bounding n s (m ∷ older) newer l w same panel =
    let t = (l.surface m).current in
    let l1 = (arrange_item bounding true m l).0 in
    elim (Bool-cases (not (t.layer == s.layer) || not (ltb_ℤ (pos 0) t.exclusive_zone))) [
      | inl skip ↦ rw skip (stays-Clear bounding n s older newer l w same panel)
      | inr go ↦ rw go (
          stays-Clear bounding n s older newer l1
            (λ k. ap has_margins (item-current bounding true m k l) ∙ w k)
            (item-current bounding true m n l ∙ same) panel)
    ]

-- When no surface of the layout has a negative margin, what is available after the pass for the
-- exclusive surfaces of a layer lies wholly beside the box of each panel in it, as that box was when
-- its turn came. A panel has a positive exclusive zone, is anchored to one edge or to one edge and both
-- its sides, and wants to be at most as thick as its exclusive zone.
pub panels_stay-Clear :
    (bounding : Rect) (n : ℕ) (older newer : List ℕ) (l : Layout)
    → ((k : ℕ) → has_margins (l.surface k).current ≡ true)
    → is_panel (l.surface n).current ≡ true
    → let s = (l.surface n).current in
      Clear
        (box_for s (arrange_layer bounding s.layer true older l).0.available)
        (arrange_layer bounding s.layer true (older ++ n ∷ newer) l).0.available
panels_stay-Clear bounding n older newer l w panel =
    stays-Clear bounding n (l.surface n).current older newer l w refl panel
