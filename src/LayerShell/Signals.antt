-- ===== src/LayerShell/Signals.antt =====
-- The signal `mappedChanged` of a layer surface.
use aurora_compositor.Base.{
  ℕ, ◌≡◌, refl, ap, ◌∙◌, Bool, true, false, not, ◌&&◌, List, [], ◌∷◌, ◌++◌, arith, if◌then◌else◌,
}
use aurora_compositor.LayerShell.{
  State, LayerSurface, LayerEffect, LayerSignal, emit, mapped_changed, configured_changed,
  change_signals, signal_if, with_changed, handle_redraw, unmap, close, set_size, set_anchor,
  set_exclusive_zone, set_margin, set_keyboard_interactivity, set_layer, ack_configure,
  send_configure, new_layer_surface,
}
use aurora_compositor.LayerShell.Mapping.{LayerOp, redraw, step, run}

-- Whether the surface is mapped for one who counts the signals.
abbrev pub is_mapped_signal : LayerEffect → Bool
is_mapped_signal (emit mapped_changed) = true
is_mapped_signal e = false

abbrev pub toggles : List LayerEffect → Bool → Bool
toggles [] b = b
toggles (e ∷ es) b = toggles es (if is_mapped_signal e then not b else b)

toggles-append :
    (xs ys : List LayerEffect) (b : Bool) → toggles (xs ++ ys) b ≡ toggles ys (toggles xs b)
toggles-append [] ys b = refl
toggles-append (x ∷ xs) ys b = toggles-append xs ys (if is_mapped_signal x then not b else b)

-- None of the signals is `mappedChanged`.
abbrev quiet : List LayerSignal → Bool
quiet [] = true
quiet (x ∷ xs) = not (is_mapped_signal (emit x)) && quiet xs

quiet-append : (xs ys : List LayerSignal) → quiet (xs ++ ys) ≡ quiet xs && quiet ys
quiet-append [] ys = refl
quiet-append (x ∷ xs) ys = ground (arith, quiet-append xs ys)

quiet-signal_if :
    (same : Bool) (xs : List LayerSignal) → quiet xs ≡ true → quiet (signal_if same xs) ≡ true
quiet-signal_if same xs h = ground arith

change_signals-quiet : (c p : State) → quiet (change_signals c p) ≡ true
unfolding change_signals
change_signals-quiet c p = simp (quiet-append) (ground arith)

toggles-quiet :
    (xs : List LayerSignal) (b : Bool) → quiet xs ≡ true → toggles (with_changed xs) b ≡ b
toggles-quiet [] b h = refl
toggles-quiet (x ∷ []) b h = ground arith
toggles-quiet (x ∷ (y ∷ xs)) b h = ground (arith, toggles-quiet (y ∷ xs) b)

redraw-toggles :
    (has_content : Bool) (s : LayerSurface)
    → toggles (handle_redraw has_content s).1 s.mapped ≡ (handle_redraw has_content s).0.mapped
unfolding handle_redraw unmap
redraw-toggles has_content s =
    let signals = change_signals s.current s.client_pending in
    let unmapped =
      (if s.mapped then emit mapped_changed ∷ [] else [])
      ++ (if s.configured then emit configured_changed ∷ [] else []) in
    ground (
      arith,
      toggles-quiet signals s.mapped (change_signals-quiet s.current s.client_pending),
      toggles-append (with_changed signals) (emit mapped_changed ∷ []) s.mapped,
      toggles-append (with_changed signals) unmapped s.mapped,
    )

step-toggles :
    (op : LayerOp) (s : LayerSurface) → toggles (step op s).1 s.mapped ≡ (step op s).0.mapped
unfolding step set_size set_anchor set_keyboard_interactivity set_layer ack_configure
    set_exclusive_zone set_margin send_configure close
step-toggles (redraw has_content) s = redraw-toggles has_content s
step-toggles other s = ground arith

run_from :
    (ops : List LayerOp) (s : LayerSurface) → toggles (run ops s).1 s.mapped ≡ (run ops s).0.mapped
unfolding run
run_from [] s = refl
run_from (op ∷ ops) s =
    toggles-append (step op s).1 (run ops (step op s).0).1 s.mapped
    ∙ (ap (toggles (run ops (step op s).0).1) (step-toggles op s) ∙ run_from ops (step op s).0)

-- In every history of a layer surface the signal mappedChanged is emitted exactly at the changes: who
-- starts with an unmapped surface and turns round at each signal knows whether it is mapped.
pub run-toggles :
    (layer : ℕ) (ops : List LayerOp)
    → toggles (run ops (new_layer_surface layer)).1 false
      ≡ (run ops (new_layer_surface layer)).0.mapped
unfolding new_layer_surface
run-toggles layer ops = run_from ops (new_layer_surface layer)
