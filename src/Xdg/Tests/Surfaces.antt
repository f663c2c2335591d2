-- ===== src/Xdg/Tests/Surfaces.antt =====
-- The theorems on positioners, popups, surfaces and the shell at concrete objects.
use aurora_compositor.Base.{◌≡◌, ◌⊎◌, refl, true, false, List, [], ◌∷◌, none, some}
use aurora_compositor.Base.Int.{pos, ◌+ℤ◌}
use aurora_compositor.Geometry.{Rect, no_edges}
use aurora_compositor.Xdg.Effect.{post_error, emit, pong, invalid_popup_parent}
use aurora_compositor.Xdg.Positioner.{
  PositionerData, Request, size_request, anchor_rect_request, anchor_request, is_complete,
  anchor_point, unconstrained_position,
}
use aurora_compositor.Xdg.Positioner.Placement.{Placed, unconstrained_position-Placed}
use aurora_compositor.Xdg.Popup.{Popup, parents, redraws, apply_all, new_popup, handle_redraw}
use aurora_compositor.Xdg.Popup.Parent.{xdg_parent_fails_redraw}
use aurora_compositor.Xdg.Surface.{
  WlSurface, XdgSurface, xdg_toplevel, gets_toplevel, handle, sub_window,
}
use aurora_compositor.Xdg.Surface.Roles.{IsRoled, handle-roles}
use aurora_compositor.Xdg.Shell.{Shell, new_shell, handle_pong}
use aurora_compositor.Xdg.Shell.Pings.{pinged, ponged, run, handle_pong-outstanding}

-- A menu under a button, to the lower right.
abbrev menu : PositionerData
menu = record {
  size = record { width = pos 120; height = pos 81 };
  anchor_rect = record { x = pos 10; y = pos 20; width = pos 30; height = pos 15 };
  anchor_edges = record no_edges { bottom = true };
  gravity_edges = record no_edges { bottom = true };
  constraint_adjustments = 0;
  offset = record { x = pos 0; y = pos 2 };
}

abbrev requests : List Request
requests =
    size_request (pos 120) (pos 80)
    ∷ anchor_request 3
    ∷ anchor_rect_request (pos 0) (pos 0) (pos 5) (pos 5)
    ∷ []

menu_complete : is_complete menu ≡ true
unfolding is_complete
menu_complete = refl

unconstrained_position-Placed_example :
    let q = unconstrained_position menu in
    let a = anchor_point menu in
    Placed false false q.x (pos 120) (a.x +ℤ pos 0) × Placed false true q.y (pos 81) (a.y +ℤ pos 2)
unconstrained_position-Placed_example = unconstrained_position-Placed menu menu_complete

abbrev spot : Rect
spot = record { x = pos 1; y = pos 2; width = pos 3; height = pos 4 }

abbrev open_menu : Popup
open_menu = record {
  parent_xdg_surface = some 1;
  parent_surface = none;
  positioner_data = menu;
  geometry = spot;
  pending_configures = record { geometry = spot; serial = 3 } ∷ [];
  awaits_redraw = true;
}

xdg_parent_fails_redraw_example :
    let p = apply_all (redraws ∷ parents (some 8) ∷ []) (new_popup 2 (some 1) menu).0 in
    handle_redraw p ≡ (p, post_error invalid_popup_parent ∷ [])
xdg_parent_fails_redraw_example = xdg_parent_fails_redraw 2 1 menu (redraws ∷ parents (some 8) ∷ [])

abbrev bare : WlSurface
bare = record {
  role = none;
  destination_size = record { width = pos 640; height = pos 480 };
  has_content = false;
}

abbrev plain_window : WlSurface
plain_window = record bare { role = some xdg_toplevel }

abbrev fresh : XdgSurface
fresh = record {
  surface = 5;
  toplevel = none;
  popup = none;
  window_geometry = spot;
  unset_window_geometry = true;
  window_type = sub_window;
}

fresh-IsRoled : IsRoled bare fresh
fresh-IsRoled = record { of_toplevel = refl; of_popup = refl }

handle-roles_example :
    let q = handle (λ _ _. true) (gets_toplevel 4) bare fresh in
    ((bare.role ≡ none) ⊎ (q.0.role ≡ bare.role)) × IsRoled q.0 q.1 × IsRoled q.0 fresh
handle-roles_example =
    handle-roles (λ _ _. true) (gets_toplevel 4) bare fresh fresh fresh-IsRoled fresh-IsRoled

handle_pong-outstanding_example :
    (handle_pong 6 (run (pinged 6 ∷ pinged 7 ∷ ponged 7 ∷ []) new_shell)).1 ≡ emit (pong 6) ∷ []
unfolding new_shell
handle_pong-outstanding_example =
    handle_pong-outstanding 6 (pinged 6 ∷ pinged 7 ∷ ponged 7 ∷ []) new_shell refl

abbrev one_window : Shell
one_window = record {
  pings = [];
  xdg_surfaces = record { client = 1; name = 2; xdg_surface = fresh } ∷ [];
}
