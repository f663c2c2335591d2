-- ===== src/Xdg/Positioner/Requests.antt =====
-- What a sequence of requests makes of a positioner (aurorawaylandxdgshell.cpp, WaylandXdgPositioner).
use aurora_compositor.Base.{
  ℕ, ◌≡◌, refl, Bool, false, ◌&&◌, ◌||◌, List, [], ◌∷◌, arith, leb, if◌then◌else◌,
}
use aurora_compositor.Base.Int.{pos, ltb_ℤ}
use aurora_compositor.Geometry.{has_parallel}
use aurora_compositor.Xdg.Effect.{warning}
use aurora_compositor.Xdg.Positioner.{
  PositionerData, Request, size_request, anchor_rect_request, anchor_request, gravity_request,
  constraint_adjustment_request, offset_request, handle, handle_all, new_positioner, is_complete,
  convert_to_edges, set_size, set_anchor_rect, set_anchor, set_gravity, set_constraint_adjustment,
  set_offset,
}

convert_to_edges_lem :
    (a : ℕ)
    → (has_parallel (convert_to_edges a).0 ≡ false)
      × ((convert_to_edges a).1 ≡ (if leb a 8 then [] else warning ∷ []))
unfolding convert_to_edges
convert_to_edges_lem a = ground arith

-- For every number a client may send, `set_anchor` stores the converted edges, which are never
-- parallel, and changes nothing else; it posts no error, and logs exactly the numbers above 8.
set_anchor_total :
    (a : ℕ) (p : PositionerData)
    → (set_anchor a p
        ≡ (record p { anchor_edges = (convert_to_edges a).0 }, (convert_to_edges a).1))
      × (has_parallel (set_anchor a p).0.anchor_edges ≡ false)
      × ((set_anchor a p).1 ≡ (if leb a 8 then [] else warning ∷ []))
unfolding set_anchor
set_anchor_total a p = ground (arith, convert_to_edges_lem a)

abbrev sets_size : Request → Bool
sets_size (size_request w h) = ltb_ℤ (pos 0) w && ltb_ℤ (pos 0) h
sets_size _ = false

abbrev sets_anchor_rect : Request → Bool
sets_anchor_rect (anchor_rect_request x y w h) = ltb_ℤ (pos 0) w && ltb_ℤ (pos 0) h
sets_anchor_rect _ = false

-- Some request of the list passes the test.
abbrev pub any : (Request → Bool) → List Request → Bool
any test [] = false
any test (r ∷ rs) = test r || any test rs

abbrev pub sized : PositionerData → Bool
sized p = ltb_ℤ (pos 0) p.size.width && ltb_ℤ (pos 0) p.size.height

abbrev pub anchored : PositionerData → Bool
anchored p = ltb_ℤ (pos 0) p.anchor_rect.width && ltb_ℤ (pos 0) p.anchor_rect.height

handle-sized : (r : Request) (p : PositionerData) → sized (handle r p).0 ≡ sets_size r || sized p
unfolding handle set_size set_anchor_rect set_anchor set_gravity set_constraint_adjustment
    set_offset
handle-sized (size_request w h) p = ground arith
handle-sized (anchor_rect_request x y w h) p = ground arith
handle-sized (anchor_request a) p = ground arith
handle-sized (gravity_request g) p = ground arith
handle-sized (constraint_adjustment_request c) p = refl
handle-sized (offset_request x y) p = refl

handle-anchored :
    (r : Request) (p : PositionerData) → anchored (handle r p).0 ≡ sets_anchor_rect r || anchored p
unfolding handle set_size set_anchor_rect set_anchor set_gravity set_constraint_adjustment
    set_offset
handle-anchored (size_request w h) p = ground arith
handle-anchored (anchor_rect_request x y w h) p = ground arith
handle-anchored (anchor_request a) p = ground arith
handle-anchored (gravity_request g) p = ground arith
handle-anchored (constraint_adjustment_request c) p = refl
handle-anchored (offset_request x y) p = refl

handle_all-sized :
    (rs : List Request) (p : PositionerData) → sized (handle_all rs p) ≡ any sets_size rs || sized p
unfolding handle_all
handle_all-sized [] p = refl
handle_all-sized (r ∷ rs) p = ground (arith, handle_all-sized rs (handle r p).0, handle-sized r p)

handle_all-anchored :
    (rs : List Request) (p : PositionerData)
    → anchored (handle_all rs p) ≡ any sets_anchor_rect rs || anchored p
unfolding handle_all
handle_all-anchored [] p = refl
handle_all-anchored (r ∷ rs) p =
    ground (arith, handle_all-anchored rs (handle r p).0, handle-anchored r p)

-- After any requests, in any order, a new positioner is complete exactly when the requests hold a
-- `set_size` with positive dimensions and a `set_anchor_rect` with positive dimensions.
pub handle_all-is_complete :
    (rs : List Request)
    → is_complete (handle_all rs new_positioner) ≡ any sets_size rs && any sets_anchor_rect rs
unfolding is_complete new_positioner
handle_all-is_complete rs =
    ground (arith, handle_all-sized rs new_positioner, handle_all-anchored rs new_positioner)
