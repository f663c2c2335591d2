-- ===== src/Xdg/Shell.antt =====
-- WaylandXdgShell and WaylandXdgShellPrivate: the pings that wait for an answer and the register of
-- the xdg_surfaces of each client. Clients, surfaces and resources are named by numbers.
pub mod Pings
pub mod Register
use aurora_compositor.Base.{
  ℕ, Bool, true, false, not, ◌&&◌, ◌||◌, List, [], ◌∷◌, ◌++◌, Option, none, some, ◌==◌,
  if◌then◌else◌, contains,
}
use aurora_compositor.Xdg.Effect.{
  Effect, post_error, warning, emit, send_ping, role, defunct_surfaces, pong, xdg_surface_created,
}
use aurora_compositor.Xdg.Surface.{WlSurface, XdgSurface, new_xdg_surface, is_some}
use aurora_compositor.Xdg.Surface

-- An entry of the multimap: its key, the xdg_surface's name, and the object.
pub record Entry : Type 0 where
  pub client : ℕ
  pub name : ℕ
  pub xdg_surface : XdgSurface

-- `pings` is a set, with no element twice. The entries of a client stand newest first.
pub record Shell : Type 0 where
  pub pings : List ℕ
  pub xdg_surfaces : List Entry

unfoldable pub new_shell : Shell
new_shell = record { pings = []; xdg_surfaces = [] }

abbrev pub remove_all : ℕ → List ℕ → List ℕ
remove_all a [] = []
remove_all a (x ∷ xs) = if x == a then remove_all a xs else x ∷ remove_all a xs

-- `ping` of the shell: the serial is what `nextSerial` returns.
unfoldable pub ping : ℕ → Shell → Shell × List Effect
ping serial s = (
  record s { pings = if contains serial s.pings then s.pings else serial ∷ s.pings },
  send_ping serial ∷ [],
)

unfoldable pub handle_pong : ℕ → Shell → Shell × List Effect
handle_pong serial s =
    if contains serial s.pings
    then (record s { pings = remove_all serial s.pings }, emit (pong serial) ∷ [])
    else (s, warning ∷ [])

unfoldable pub register_xdg_surface : Entry → Shell → Shell
register_xdg_surface e s = record s { xdg_surfaces = e ∷ s.xdg_surfaces }

abbrev pub is_entry : ℕ → ℕ → Entry → Bool
is_entry client name e = e.client == client && e.name == name

abbrev pub remove_entry : ℕ → ℕ → List Entry → List Entry
remove_entry client name [] = []
remove_entry client name (e ∷ es) =
    if is_entry client name e then remove_entry client name es else e ∷ remove_entry client name es

abbrev pub has_entry : ℕ → ℕ → List Entry → Bool
has_entry client name [] = false
has_entry client name (e ∷ es) = is_entry client name e || has_entry client name es

unfoldable pub unregister_xdg_surface : ℕ → ℕ → Shell → Shell × List Effect
unregister_xdg_surface client name s = (
  record s { xdg_surfaces = remove_entry client name s.xdg_surfaces },
  if has_entry client name s.xdg_surfaces then [] else warning ∷ [],
)

unfoldable pub find_surface : ℕ → List Entry → Option XdgSurface
find_surface surface [] = none
find_surface surface (e ∷ es) =
    if surface == e.xdg_surface.surface then some e.xdg_surface else find_surface surface es

unfoldable pub xdg_surface_from_surface : ℕ → Shell → Option XdgSurface
xdg_surface_from_surface surface s = find_surface surface s.xdg_surfaces

abbrev pub has_client : ℕ → List Entry → Bool
has_client client [] = false
has_client client (e ∷ es) = e.client == client || has_client client es

-- `destroy` of xdg_wm_base by a client; its resource goes in either case.
unfoldable pub wm_base_destroy : ℕ → Shell → List Effect
wm_base_destroy client s =
    if has_client client s.xdg_surfaces then post_error defunct_surfaces ∷ [] else []

-- `get_xdg_surface` for the surface named `surface`, whose state is `w`.
unfoldable pub get_xdg_surface : ℕ → ℕ → ℕ → WlSurface → Shell → Shell × List Effect
get_xdg_surface client name surface w s =
    let entry : Entry = record {
      client = client;
      name = name;
      xdg_surface = new_xdg_surface surface w;
    } in
    let log = (if w.has_content then warning ∷ [] else []) in
    if is_some w.role
    then (s, post_error role ∷ [])
    else (register_xdg_surface entry s, log ++ emit xdg_surface_created ∷ [])

-- The slot of `destroy` of an xdg_surface.
unfoldable pub xdg_surface_destroy : ℕ → ℕ → Shell → Shell × List Effect
xdg_surface_destroy client name s = unregister_xdg_surface client name s

-- The first entry for the surface, as `find_surface` finds it, is changed.
unfoldable pub update_surface :
    (XdgSurface → XdgSurface × List Effect) → ℕ → List Entry → List Entry × List Effect
update_surface f surface [] = ([], [])
update_surface f surface (e ∷ es) =
    let (x, log) = f e.xdg_surface in
    let (rest, later) = update_surface f surface es in
    if surface == e.xdg_surface.surface
    then (record e { xdg_surface = x } ∷ es, log)
    else (e ∷ rest, later)

abbrev update_if :
    (XdgSurface → XdgSurface × List Effect) → Option ℕ → List Entry → List Entry × List Effect
update_if f none es = (es, [])
update_if f (some surface) es = update_surface f surface es

-- The keyboard focus moves from one surface to another, or to none; the serials are for the
-- configures that this may send.
unfoldable pub handle_focus_changed : ℕ → ℕ → Option ℕ → Option ℕ → Shell → Shell × List Effect
handle_focus_changed first second new_surface old_surface s =
    let (es, log) = update_if (Surface.handle_focus_received first) new_surface s.xdg_surfaces in
    let (fs, later) = update_if (Surface.handle_focus_lost second) old_surface es in
    (record s { xdg_surfaces = fs }, log ++ later)
