-- ===== src/LayerShell/Mapping.antt =====
-- When a layer surface is mapped, and what a commit applies.
use aurora_compositor.Base.{
  ℕ, ◌≤◌, ◌≡◌, refl, Bool, true, false, not, ◌&&◌, ◌||◌, List, [], ◌∷◌, ◌++◌, arith, ◌==◌, ==_iff,
}
use aurora_compositor.Base.Int.{ℤ, eq_ℤ, eq_ℤ_iff}
use aurora_compositor.Geometry.{Size, eq_size}
use aurora_compositor.LayerShell.{
  State, Margins, eq_margins, LayerSurface, LayerEffect, keep, apply_pending, handle_redraw, unmap,
  close, set_size, set_anchor, set_exclusive_zone, set_margin, set_keyboard_interactivity,
  set_layer, ack_configure, send_configure, new_layer_surface, max_anchor, overlay_layer,
}

keep_lem {ℓ} : {A : Type ℓ} (same : Bool) (c p : A) → (same ≡ true → c ≡ p) → keep same c p ≡ p
keep_lem true c p h = h refl
keep_lem false c p h = refl

eq_size_sound : (s t : Size) → eq_size s t ≡ true → s ≡ t
eq_size_sound s t h = ground (arith, eq_ℤ_iff s.width t.width, eq_ℤ_iff s.height t.height)

eq_margins_sound : (m n : Margins) → eq_margins m n ≡ true → m ≡ n
eq_margins_sound m n h = ground (
  arith,
  eq_ℤ_iff m.left n.left,
  eq_ℤ_iff m.top n.top,
  eq_ℤ_iff m.right n.right,
  eq_ℤ_iff m.bottom n.bottom,
)

apply_pending_lem : (c p : State) → apply_pending c p ≡ p
unfolding apply_pending
apply_pending_lem c p =
    rw
      (
        keep_lem (c.layer == p.layer) c.layer p.layer (==_iff _ _).0,
        keep_lem (eq_size c.desired_size p.desired_size) _ _ (eq_size_sound _ _),
        keep_lem (c.anchors == p.anchors) c.anchors p.anchors (==_iff _ _).0,
        keep_lem (eq_ℤ c.exclusive_zone p.exclusive_zone) _ _ (eq_ℤ_iff _ _).0,
        keep_lem (eq_margins c.margins p.margins) _ _ (eq_margins_sound _ _),
        keep_lem (c.keyboard_interactivity == p.keyboard_interactivity) _ _ (==_iff _ _).0,
      )
      refl

-- What a commit does to a layer surface that is open and that is configured if it has content: the
-- pending state becomes current and stays pending, and the surface is mapped exactly if it has content,
-- if it was not mapped before without being configured.
redraw_applies :
    (has_content : Bool) (s : LayerSurface)
    → s.closed ≡ false
    → has_content && not s.configured ≡ false
    → s.mapped && not s.configured ≡ false
    → let t = (handle_redraw has_content s).0 in
      (t.current ≡ s.client_pending)
      × (t.client_pending ≡ s.client_pending)
      × (t.mapped ≡ has_content)
unfolding handle_redraw unmap
redraw_applies has_content s open_ allowed sound =
    let e = apply_pending_lem s.current s.client_pending in ground (arith, e)

-- The calls and requests that a layer surface sees.
pub data LayerOp : Type 0 where
  size : ℕ → ℕ → LayerOp
  anchor keyboard layer_ ack : ℕ → LayerOp
  zone : ℤ → LayerOp
  margin : ℤ → ℤ → ℤ → ℤ → LayerOp
  configure : ℕ → Size → LayerOp
  redraw : Bool → LayerOp
  closes : LayerOp

unfoldable pub step : LayerOp → LayerSurface → LayerSurface × List LayerEffect
step (size w h) s = (set_size w h s, [])
step (anchor a) s = set_anchor a s
step (keyboard k) s = (set_keyboard_interactivity k s, [])
step (layer_ l) s = set_layer l s
step (ack serial) s = ack_configure serial s
step (zone z) s = (set_exclusive_zone z s, [])
step (margin t r b l) s = (set_margin t r b l s, [])
step (configure serial sz) s = let (s1, _, effects) = send_configure serial sz s in (s1, effects)
step (redraw has_content) s = handle_redraw has_content s
step closes s = close s

unfoldable pub run : List LayerOp → LayerSurface → LayerSurface × List LayerEffect
run [] s = (s, [])
run (op ∷ ops) s = let (s1, e1) = step op s in let (s2, e2) = run ops s1 in (s2, e1 ++ e2)

-- A mapped surface is configured and not closed; layers and anchors are those of the protocol.
pub record IsSound (s : LayerSurface) : Type 0 where
  pub configured : s.mapped && not s.configured ≡ false
  pub open_ : s.mapped && s.closed ≡ false
  pub anchors : s.client_pending.anchors ≤ max_anchor
  pub layer : s.client_pending.layer ≤ overlay_layer
  pub current_anchors : s.current.anchors ≤ max_anchor
  pub current_layer : s.current.layer ≤ overlay_layer

redraw-IsSound :
    (has_content : Bool) (s : LayerSurface) → IsSound s → IsSound (handle_redraw has_content s).0
unfolding handle_redraw unmap
redraw-IsSound has_content s h =
    let e = apply_pending_lem s.current s.client_pending in ground (arith, e)

step-IsSound : (op : LayerOp) (s : LayerSurface) → IsSound s → IsSound (step op s).0
unfolding step set_size set_anchor set_keyboard_interactivity set_layer ack_configure
    set_exclusive_zone set_margin send_configure close
step-IsSound (redraw has_content) s h = redraw-IsSound has_content s h
step-IsSound other s h = ground arith

run-IsSound : (ops : List LayerOp) (s : LayerSurface) → IsSound s → IsSound (run ops s).0
unfolding run
run-IsSound [] s h = h
run-IsSound (op ∷ ops) s h = run-IsSound ops (step op s).0 (step-IsSound op s h)

new_layer_surface-IsSound : (layer : ℕ) → layer ≤ overlay_layer → IsSound (new_layer_surface layer)
unfolding new_layer_surface
new_layer_surface-IsSound layer h = ground arith

-- Whatever happens to a layer surface that was made in a layer of the protocol, it is mapped only while
-- it is configured and not closed, and the layers and the anchors that it has, pending or current,
-- are those of the protocol.
pub run_stays_sound :
    (layer : ℕ) (ops : List LayerOp)
    → layer ≤ overlay_layer
    → let s = (run ops (new_layer_surface layer)).0 in
      (s.mapped && (not s.configured || s.closed) ≡ false)
      × (s.client_pending.anchors ≤ max_anchor)
      × (s.client_pending.layer ≤ overlay_layer)
      × (s.current.anchors ≤ max_anchor)
      × (s.current.layer ≤ overlay_layer)
run_stays_sound layer ops h =
    let k = run-IsSound ops (new_layer_surface layer) (new_layer_surface-IsSound layer h) in
    (ground (arith, k.configured, k.open_), k.anchors, k.layer, k.current_anchors, k.current_layer)
