-- ===== src/LayerShell/Tests.antt =====
-- Runs of the layer shell on small inputs.
use aurora_compositor.Base.{ℕ, ◌≡◌, ◌≤◌, refl, true, false, not, ◌&&◌, ◌||◌, List, [], ◌∷◌, arith}
use aurora_compositor.Base.Int.{pos}
use aurora_compositor.Geometry.{Rect}
use aurora_compositor.LayerShell.Layout.{Layout, box_for, arrange_layer}
use aurora_compositor.LayerShell.Layout.Panels.{Clear}
use aurora_compositor.LayerShell.Layout.Passes.{panels_stay-Clear}
use aurora_compositor.LayerShell.{
  LayerSurface, blank_layer_surface, default_state, new_layer_surface, max_anchor, overlay_layer,
  handle_redraw, set_size, set_anchor, set_layer, set_exclusive_zone, ack_configure, send_configure,
  apply_pending,
}
use aurora_compositor.LayerShell.Mapping.{
  LayerOp, size, anchor, layer_, ack, zone, configure, redraw, step, run, run_stays_sound,
}
use aurora_compositor.LayerShell.Signals.{toggles, run-toggles}
use aurora_compositor.LayerShell.Shell.{LayerShell}

-- A panel at the top that is configured, mapped, changed and closed.
abbrev panel_ops : List LayerOp
panel_ops =
    size 0 30
    ∷ anchor 13
    ∷ anchor 16
    ∷ zone (pos 30)
    ∷ redraw false
    ∷ configure 5 (record { width = pos 1920; height = pos 30 })
    ∷ ack 5
    ∷ redraw true
    ∷ layer_ 3
    ∷ []

abbrev panel : LayerSurface
panel = (run panel_ops (new_layer_surface 2)).0

panel_mapped : panel.mapped ≡ true
unfolding run step new_layer_surface set_size set_anchor set_layer set_exclusive_zone ack_configure
    send_configure handle_redraw
panel_mapped = refl

panel_layer : (◌≡◌ {A = ℕ} panel.current.layer 2) × (panel.client_pending.layer ≡ 3)
unfolding run step new_layer_surface set_size set_anchor set_layer set_exclusive_zone ack_configure
    send_configure handle_redraw apply_pending
panel_layer = (refl, refl)

panel_open : (panel.closed ≡ false) × (panel.configured ≡ true)
unfolding run step new_layer_surface set_size set_anchor set_layer set_exclusive_zone ack_configure
    send_configure handle_redraw
panel_open = (refl, refl)

run_stays_sound_example :
    (panel.mapped && (not panel.configured || panel.closed) ≡ false)
    × (panel.client_pending.anchors ≤ max_anchor)
    × (panel.client_pending.layer ≤ overlay_layer)
    × (panel.current.anchors ≤ max_anchor)
    × (panel.current.layer ≤ overlay_layer)
run_stays_sound_example = run_stays_sound 2 panel_ops (omega arith)

run-toggles_example :
    toggles (run panel_ops (new_layer_surface 2)).1 false
    ≡ (run panel_ops (new_layer_surface 2)).0.mapped
run-toggles_example = run-toggles 2 panel_ops

-- Two layer surfaces of which one is mapped.
abbrev two_layers : LayerShell
two_layers = record { surface = λ n. panel; layer_surfaces = 1 ∷ 2 ∷ [] }

-- A bar at the top of a screen, and another under it.
abbrev bar : LayerSurface
bar = record blank_layer_surface {
  current = record default_state {
    layer = 2;
    desired_size = record { width = pos 0; height = pos 30 };
    anchors = 13;
    exclusive_zone = pos 30;
  };
}

abbrev screen : Rect
screen = record { x = pos 0; y = pos 0; width = pos 3840; height = pos 2160 }

abbrev two_bars : Layout
two_bars = record { surface = λ k. bar; serial = 1; available = screen }

panels_stay-Clear_example :
    Clear
      (box_for bar.current (arrange_layer screen 2 true (2 ∷ []) two_bars).0.available)
      (arrange_layer screen 2 true (2 ∷ 1 ∷ []) two_bars).0.available
panels_stay-Clear_example = panels_stay-Clear screen 1 (2 ∷ []) [] two_bars (λ k. refl) refl
