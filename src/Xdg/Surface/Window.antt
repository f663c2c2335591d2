-- ===== src/Xdg/Surface/Window.antt =====
-- The window geometry and the window type of an xdg_surface.
use aurora_compositor.Base.{ℕ, ◌≡◌, Bool, true, false, [], Option, some, arith, if◌then◌else◌}
use aurora_compositor.Base.Int.{ℤ, pos, ltb_ℤ}
use aurora_compositor.Geometry.{eq_rect_iff}
use aurora_compositor.Xdg.Surface.{
  WlSurface, XdgSurface, WindowType, window, sub_window, set_window_geometry, set_window_type,
  update_fallback_window_geometry, calculate_fallback_window_geometry, set_parent, is_some,
}
use aurora_compositor.Xdg.Toplevel.{Toplevel}

-- Until the client sets a window geometry, an update makes it the rectangle of the surface's
-- destination size at the origin. Once it is set, no update changes it.
pub update_fallback_lem :
    (s : WlSurface) (x : XdgSurface)
    → (update_fallback_window_geometry s x).0 ≡ (
        if x.unset_window_geometry
        then record x { window_geometry = calculate_fallback_window_geometry s }
        else x)
unfolding update_fallback_window_geometry
update_fallback_lem s x =
    ground (arith, eq_rect_iff (calculate_fallback_window_geometry s) x.window_geometry)

-- A client with a role that sets a window geometry of positive dimensions has that geometry from
-- then on, whatever the destination size of its surface becomes.
set_window_geometry_stays :
    (x y width height : ℤ) (s t : WlSurface) (w : XdgSurface)
    → is_some s.role ≡ true
    → ltb_ℤ (pos 0) width ≡ true
    → ltb_ℤ (pos 0) height ≡ true
    → let v = (set_window_geometry x y width height s w).0 in
      ((update_fallback_window_geometry t v).0.window_geometry
        ≡ record { x = x; y = y; width = width; height = height })
      × (update_fallback_window_geometry t v ≡ (v, []))
unfolding set_window_geometry update_fallback_window_geometry
set_window_geometry_stays x y width height s t w r p q =
    ground (
      arith,
      eq_rect_iff w.window_geometry (record { x = x; y = y; width = width; height = height }),
    )

abbrev is_sub_window : WindowType → Bool
is_sub_window sub_window = true
is_sub_window _ = false

-- After `set_parent` the toplevel has the parent that was asked for, and the window is a sub-window
-- exactly if that is one; without a parent it is a plain window.
set_parent_lem :
    (parent : Option ℕ) (t : Toplevel) (x : XdgSurface)
    → let y = (set_parent parent t x).0 in
      (y.window_type ≡ (if is_some parent then sub_window else window))
      × (y.toplevel ≡ some (record t { parent_toplevel = parent }))
unfolding set_parent set_window_type
set_parent_lem parent t x = ground arith
