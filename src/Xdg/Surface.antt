-- ===== src/Xdg/Surface.antt =====
-- WaylandXdgSurface and WaylandXdgSurfacePrivate, with the role of the wl_surface below it
-- (WaylandSurface::setRole in compositor/compositor_api/aurorawaylandsurface.cpp). Objects are named
-- by numbers.
pub mod Roles
pub mod Window
use aurora_compositor.Base.{
  ℕ, ◌≡◌, Bool, true, false, not, ◌&&◌, ◌||◌, List, [], ◌∷◌, ◌++◌, Option, none, some, ◌==◌,
  if◌then◌else◌,
}
use aurora_compositor.Base.Int.{ℤ, pos, leb_ℤ}
use aurora_compositor.Geometry.{Size, Rect, eq_rect, rect_size, no_rect}
use aurora_compositor.Xdg.Effect.{
  Effect, post_error, warning, emit, role, invalid_popup_parent, invalid_positioner,
  already_constructed, not_constructed, window_type_changed, window_geometry_changed,
  toplevel_created, popup_created, parent_toplevel_changed,
}
use aurora_compositor.Xdg.Positioner.{PositionerData, is_complete}
use aurora_compositor.Xdg.Toplevel.{Toplevel}
use aurora_compositor.Xdg.Toplevel
use aurora_compositor.Xdg.Popup.{Popup}
use aurora_compositor.Xdg.Popup

pub data Role : Type 0 where
  xdg_toplevel xdg_popup : Role
  other_role : ℕ → Role

-- What the shell uses of a WaylandSurface.
pub record WlSurface : Type 0 where
  pub role : Option Role
  pub destination_size : Size
  pub has_content : Bool

pub data WindowType : Type 0 where
  window sub_window popup_window : WindowType

pub record XdgSurface : Type 0 where
  pub surface : ℕ
  pub toplevel : Option Toplevel
  pub popup : Option Popup
  pub window_geometry : Rect
  pub unset_window_geometry : Bool
  pub window_type : WindowType

abbrev pub eq_role : Role → Role → Bool
eq_role xdg_toplevel xdg_toplevel = true
eq_role xdg_popup xdg_popup = true
eq_role (other_role a) (other_role b) = a == b
eq_role _ _ = false

-- The role that a surface has by now does not stand against `r`.
abbrev pub allows : Option Role → Role → Bool
allows none r = true
allows (some s) r = eq_role s r

-- The result says whether the role could be assigned.
unfoldable pub set_role : Role → WlSurface → WlSurface × Bool × List Effect
set_role r s =
    if allows s.role r
    then (record s { role = some r }, true, [])
    else (s, false, post_error role ∷ [])

abbrev eq_window_type : WindowType → WindowType → Bool
eq_window_type window window = true
eq_window_type sub_window sub_window = true
eq_window_type popup_window popup_window = true
eq_window_type _ _ = false

unfoldable pub set_window_type : WindowType → XdgSurface → XdgSurface × List Effect
set_window_type w x =
    if eq_window_type x.window_type w
    then (x, [])
    else (record x { window_type = w }, emit window_type_changed ∷ [])

unfoldable pub calculate_fallback_window_geometry : WlSurface → Rect
calculate_fallback_window_geometry s = record {
  x = pos 0;
  y = pos 0;
  width = s.destination_size.width;
  height = s.destination_size.height;
}

-- Called when the destination size or the buffer scale of the surface changes.
unfoldable pub update_fallback_window_geometry : WlSurface → XdgSurface → XdgSurface × List Effect
unfolding calculate_fallback_window_geometry
update_fallback_window_geometry s x =
    let unset_geometry = calculate_fallback_window_geometry s in
    if not x.unset_window_geometry
    then (x, [])
    else if eq_rect unset_geometry x.window_geometry
    then (x, [])
    else (record x { window_geometry = unset_geometry }, emit window_geometry_changed ∷ [])

unfoldable pub new_xdg_surface : ℕ → WlSurface → XdgSurface
unfolding calculate_fallback_window_geometry
new_xdg_surface name s = record {
  surface = name;
  toplevel = none;
  popup = none;
  window_geometry = calculate_fallback_window_geometry s;
  unset_window_geometry = true;
  window_type = window;
}

abbrev pub is_some {ℓ} : {A : Type ℓ} → Option A → Bool
is_some none = false
is_some (some _) = true

abbrev pub is_constructed : XdgSurface → Bool
is_constructed x = is_some x.toplevel || is_some x.popup

unfoldable pub get_toplevel : ℕ → WlSurface → XdgSurface → WlSurface × XdgSurface × List Effect
get_toplevel serial s x =
    let (s', assigned, log) = set_role xdg_toplevel s in
    let (t, _, sent) = Toplevel.new_toplevel serial in
    if is_constructed x
    then (s, x, post_error already_constructed ∷ [])
    else if not assigned
    then (s', x, log)
    else (s', record x { toplevel = some t }, sent ++ emit toplevel_created ∷ [])

-- The construction of a popup once every check is passed.
abbrev pub add_popup :
    ℕ → ℕ → PositionerData → WlSurface → XdgSurface → WlSurface × XdgSurface × List Effect
add_popup serial parent d s x =
    let (s', assigned, log) = set_role xdg_popup s in
    let (x', typed) = set_window_type popup_window x in
    let (p, sent) = Popup.new_popup serial (some parent) d in
    if not assigned
    then (s', x, log)
    else (s', record x' { popup = some p }, typed ++ sent ++ emit popup_created ∷ [])

-- A parent is the name of an xdg_surface and its window geometry. `contains` is `QRect::contains`.
module _ (contains : Rect → Rect → Bool) where
  abbrev pub place_popup :
      ℕ
      → ℕ × Rect
      → Option PositionerData
      → WlSurface
      → XdgSurface
      → WlSurface × XdgSurface × List Effect
  place_popup serial parent none s x = (s, x, post_error invalid_positioner ∷ [])
  place_popup serial (parent, geometry) (some d) s x =
      let bounds = record no_rect { width = geometry.width; height = geometry.height } in
      let outside = (if contains bounds d.anchor_rect then [] else warning ∷ []) in
      let (s', x', log) = add_popup serial parent d s x in
      if not (is_complete d)
      then (s, x, post_error invalid_positioner ∷ [])
      else (s', x', outside ++ log)

  abbrev pub parent_popup :
      ℕ
      → Option (ℕ × Rect)
      → Option PositionerData
      → WlSurface
      → XdgSurface
      → WlSurface × XdgSurface × List Effect
  parent_popup serial none d s x = (s, x, post_error invalid_popup_parent ∷ [])
  parent_popup serial (some parent) d s x = place_popup serial parent d s x

  unfoldable pub get_popup :
      ℕ
      → Option (ℕ × Rect)
      → Option PositionerData
      → WlSurface
      → XdgSurface
      → WlSurface × XdgSurface × List Effect
  get_popup serial parent d s x =
      if is_constructed x
      then (s, x, post_error already_constructed ∷ [])
      else parent_popup serial parent d s x

abbrev ack : ℕ → Option Toplevel → Option Popup → XdgSurface → XdgSurface × List Effect
ack serial (some t) _ x =
    let (t', log) = Toplevel.handle_ack_configure serial t in (record x { toplevel = some t' }, log)
ack serial none (some p) x =
    let (p', log) = Popup.handle_ack_configure serial p in (record x { popup = some p' }, log)
ack serial none none x = (x, post_error not_constructed ∷ [])

unfoldable pub ack_configure : ℕ → XdgSurface → XdgSurface × List Effect
ack_configure serial x = ack serial x.toplevel x.popup x

unfoldable pub set_window_geometry :
    ℤ → ℤ → ℤ → ℤ → WlSurface → XdgSurface → XdgSurface × List Effect
set_window_geometry x y width height s w =
    let geometry : Rect = record { x = x; y = y; width = width; height = height } in
    let set = record w { unset_window_geometry = false } in
    if not (is_some s.role)
    then (w, post_error not_constructed ∷ [])
    else if leb_ℤ width (pos 0) || leb_ℤ height (pos 0)
    then (w, warning ∷ [])
    else if eq_rect w.window_geometry geometry
    then (set, [])
    else (record set { window_geometry = geometry }, emit window_geometry_changed ∷ [])

unfoldable pub handle_focus_lost : ℕ → XdgSurface → XdgSurface × List Effect
handle_focus_lost serial x = elim x.toplevel [
  | none ↦ (x, [])
  | some t ↦
      let (t', _, log) = Toplevel.handle_focus_lost serial t in
      (record x { toplevel = some t' }, log)
]

unfoldable pub handle_focus_received : ℕ → XdgSurface → XdgSurface × List Effect
handle_focus_received serial x = elim x.toplevel [
  | none ↦ (x, [])
  | some t ↦
      let (t', _, log) = Toplevel.handle_focus_received serial t in
      (record x { toplevel = some t' }, log)
]

abbrev eq_name : Option ℕ → Option ℕ → Bool
eq_name none none = true
eq_name (some a) (some b) = a == b
eq_name _ _ = false

-- `set_parent` of the toplevel `t` of `x`; a parent is the name of a toplevel.
unfoldable pub set_parent : Option ℕ → Toplevel → XdgSurface → XdgSurface × List Effect
set_parent parent t x =
    let (x', typed) = set_window_type (if is_some parent then sub_window else window) x in
    if eq_name t.parent_toplevel parent then (record x' { toplevel = some t }, typed) else (
      record x' { toplevel = some (record t { parent_toplevel = parent }) },
      emit parent_toplevel_changed ∷ typed,
    )

-- A request of the client on its xdg_surface, or a change of the keyboard focus.
pub data Request : Type 0 where
  gets_toplevel : ℕ → Request
  gets_popup : ℕ → Option (ℕ × Rect) → Option PositionerData → Request
  acks : ℕ → Request
  sets_window_geometry : ℤ → ℤ → ℤ → ℤ → Request
  gains_focus loses_focus : ℕ → Request

unfoldable pub handle :
    (Rect → Rect → Bool) → Request → WlSurface → XdgSurface → WlSurface × XdgSurface × List Effect
handle contains (gets_toplevel serial) s x = get_toplevel serial s x
handle contains (gets_popup serial parent d) s x = get_popup contains serial parent d s x
handle contains (acks serial) s x = let (x', log) = ack_configure serial x in (s, x', log)
handle contains (sets_window_geometry a b w h) s x =
    let (x', log) = set_window_geometry a b w h s x in (s, x', log)
handle contains (gains_focus serial) s x =
    let (x', log) = handle_focus_received serial x in (s, x', log)
handle contains (loses_focus serial) s x =
    let (x', log) = handle_focus_lost serial x in (s, x', log)
