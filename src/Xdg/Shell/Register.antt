-- ===== src/Xdg/Shell/Register.antt =====
-- The register of xdg_surfaces, and the focus changes that go through it.
use mathlib.Core.Option
use aurora_compositor.Base.{
  ℕ, ◌≡◌, refl, false, List, [], ◌∷◌, none, some, arith, ◌==◌, if◌then◌else◌,
}
use aurora_compositor.Xdg.Effect.{Effect, post_error, defunct_surfaces}
use aurora_compositor.Xdg.Surface.{
  WlSurface, XdgSurface, handle_focus_received, handle_focus_lost, new_xdg_surface,
}
use aurora_compositor.Xdg.Shell.{
  Shell, Entry, remove_entry, has_entry, find_surface, update_surface, register_xdg_surface,
  unregister_xdg_surface, xdg_surface_from_surface, wm_base_destroy, get_xdg_surface,
  xdg_surface_destroy, handle_focus_changed,
}

remove_entry-absent :
    (client name : ℕ) (es : List Entry)
    → has_entry client name es ≡ false
    → remove_entry client name es ≡ es
remove_entry-absent client name [] h = refl
remove_entry-absent client name (e ∷ es) h = ground (arith, remove_entry-absent client name es)

-- On a surface without a role an xdg_surface with a new name is created and found by its surface,
-- the client can then not destroy the shell without an error, and destroying the xdg_surface brings
-- the shell back to what it was, with nothing logged.
pub get_xdg_surface-destroy :
    (client name surface : ℕ) (w : WlSurface) (s : Shell)
    → w.role ≡ none
    → has_entry client name s.xdg_surfaces ≡ false
    → let t = (get_xdg_surface client name surface w s).0 in
      (xdg_surface_from_surface surface t ≡ some (new_xdg_surface surface w))
      × (wm_base_destroy client t ≡ post_error defunct_surfaces ∷ [])
      × (xdg_surface_destroy client name t ≡ (s, []))
unfolding get_xdg_surface register_xdg_surface xdg_surface_from_surface find_surface wm_base_destroy
    xdg_surface_destroy unregister_xdg_surface new_xdg_surface
get_xdg_surface-destroy client name surface w s r h =
    ground (arith, remove_entry-absent client name s.xdg_surfaces)

-- A function that leaves the surface of an xdg_surface as it is.
abbrev StaysOn : (XdgSurface → XdgSurface × List Effect) → Type 0
StaysOn f = (x : XdgSurface) → (f x).0.surface ≡ x.surface

focus_received-StaysOn : (serial : ℕ) → StaysOn (handle_focus_received serial)
unfolding handle_focus_received
focus_received-StaysOn serial x = ground arith

focus_lost-StaysOn : (serial : ℕ) → StaysOn (handle_focus_lost serial)
unfolding handle_focus_lost
focus_lost-StaysOn serial x = ground arith

find-update_surface :
    (f : XdgSurface → XdgSurface × List Effect)
    → StaysOn f
    → (y z : ℕ) (es : List Entry)
    → find_surface z (update_surface f y es).0
      ≡ (if y == z then Option.map (λ x. (f x).0) (find_surface z es) else find_surface z es)
unfolding find_surface update_surface
find-update_surface f k y z [] = ground arith
find-update_surface f k y z (e ∷ es) =
    ground (arith, k e.xdg_surface, find-update_surface f k y z es)

-- When the keyboard focus moves between two different surfaces, the xdg_surface of the new one, if
-- there is one, handles the focus that it received, that of the old one the focus that it lost, and
-- the xdg_surface of every other surface stays as it is.
pub handle_focus_changed_lem :
    (first second new old z : ℕ) (s : Shell)
    → (new == old) ≡ false
    → xdg_surface_from_surface z (handle_focus_changed first second (some new) (some old) s).0 ≡ (
        let found = xdg_surface_from_surface z s in
        if new == z
        then Option.map (λ x. (handle_focus_received first x).0) found
        else if old == z
        then Option.map (λ x. (handle_focus_lost second x).0) found
        else found)
unfolding handle_focus_changed xdg_surface_from_surface
handle_focus_changed_lem first second new old z s h = ground (
  arith,
  find-update_surface (handle_focus_received first) (focus_received-StaysOn first) new z
      s.xdg_surfaces,
  find-update_surface (handle_focus_lost second) (focus_lost-StaysOn second) old z
      (update_surface (handle_focus_received first) new s.xdg_surfaces).0,
)
