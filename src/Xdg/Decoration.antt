-- ===== src/Xdg/Decoration.antt =====
-- The decoration object of a toplevel:
-- src/compositor/extensions/aurorawaylandxdgdecorationv1.cpp. A mode is its number in the protocol: 1
-- for decorations by the client, 2 for those by the compositor.
pub mod Modes
use aurora_compositor.Base.{
  ℕ, Bool, true, false, not, ◌||◌, List, [], ◌∷◌, ◌++◌, Option, none, some, ◌==◌, if◌then◌else◌,
}

pub data DecorationEffect : Type 0 where
  configure : ℕ → DecorationEffect
  decoration_mode_changed preferred_mode_changed decoration_warning : DecorationEffect

pub record Decoration : Type 0 where
  pub configured_mode : ℕ
  pub client_preferred_mode : ℕ

abbrev pub is_mode : ℕ → Bool
is_mode mode = (mode == 1) || (mode == 2)

unfoldable pub send_mode : ℕ → Decoration → Decoration × List DecorationEffect
send_mode mode d = if d.configured_mode == mode then (d, []) else (
  record d { configured_mode = mode },
  (if is_mode mode then configure mode else decoration_warning) ∷ decoration_mode_changed ∷ [],
)

-- `preferred` is the preferred mode of the manager.
unfoldable pub new_decoration : ℕ → Decoration × List DecorationEffect
unfolding send_mode
new_decoration preferred =
    send_mode preferred (record { configured_mode = 0; client_preferred_mode = 0 })

unfoldable pub handle_preference : ℕ → Decoration → Decoration × List DecorationEffect
unfolding send_mode
handle_preference preferred d =
    if not (d.client_preferred_mode == d.configured_mode)
    then (if d.client_preferred_mode == 0
        then send_mode preferred d
        else send_mode d.client_preferred_mode d)
    else (d, [])

unfoldable pub set_decoration_mode : ℕ → ℕ → Decoration → Decoration × List DecorationEffect
unfolding handle_preference
set_decoration_mode preferred mode d =
    handle_preference preferred (record d { client_preferred_mode = mode })

unfoldable pub unset_decoration_mode : ℕ → Decoration → Decoration × List DecorationEffect
unfolding handle_preference
unset_decoration_mode preferred d =
    handle_preference preferred (record d { client_preferred_mode = 0 })

-- The decoration of a toplevel, if it has one; `there` is about the toplevel.
unfoldable pub get_toplevel_decoration :
    Bool → ℕ → Option Decoration → Option Decoration × List DecorationEffect
unfolding new_decoration
get_toplevel_decoration false preferred old = (old, decoration_warning ∷ [])
get_toplevel_decoration true preferred (some d) = (some d, decoration_warning ∷ [])
get_toplevel_decoration true preferred none =
    let (d, effects) = new_decoration preferred in (some d, effects)

unfoldable pub set_preferred_mode : ℕ → ℕ → ℕ × List DecorationEffect
set_preferred_mode mode old = if old == mode then (old, []) else (mode, preferred_mode_changed ∷ [])

-- The destructor, which the resource of the object calls.
unfoldable pub destroy_decoration : Option Decoration → Option Decoration
destroy_decoration old = none
