-- ===== src/Input/Devices.antt =====
-- The devices of WaylandSeat, which follow its capabilities, and its own record of the keyboard focus.
-- Pointer and touch are only there or not.
pub mod Following
use aurora_compositor.Base.{
  ℕ, ◌≡◌, refl, sym, ap, ◌∙◌, inl, inr, Bool, true, false, not, ◌&&◌, ◌||◌, List, [], ◌∷◌, ◌++◌,
  Option, none, some, if◌then◌else◌, map, arith, Bool-cases,
}
use aurora_compositor.Input.{Seat, is_input_allowed}
use aurora_compositor.Input.Keyboard.{
  Keyboard, KeyEvent, new_keyboard, focused, focus_destroyed, same, without_cursor,
}

pub record Capabilities : Type 0 where
  pub pointer : Bool
  pub keyboard : Bool
  pub touch : Bool

pub data SeatEffect : Type 0 where
  pointer_changed keyboard_changed touch_changed : Bool → SeatEffect
  send_capabilities : ℕ → Capabilities → SeatEffect
  keyboard_event : KeyEvent → SeatEffect
  data_device_focus : Option ℕ → SeatEffect
  keyboard_focus_changed : Option ℕ → Option ℕ → SeatEffect

-- `seat` is what the devices read of it; `resources` are the clients' wl_seat objects.
pub record Devices : Type 0 where
  pub seat : Seat
  pub capabilities : Capabilities
  pub pointer : Bool
  pub keyboard : Option Keyboard
  pub touch : Bool
  pub keyboard_focus : Option ℕ
  pub has_data_device : Bool
  pub resources : List ℕ

abbrev pub xor : Bool → Bool → Bool
xor true b = not b
xor false b = b

abbrev pub eq_capabilities : Capabilities → Capabilities → Bool
eq_capabilities a b =
    not (xor a.pointer b.pointer) && not (xor a.keyboard b.keyboard) && not (xor a.touch b.touch)

abbrev pub is_there : Option Keyboard → Bool
is_there none = false
is_there (some k) = true

-- `keyboard.reset(keyboard.isNull() ? a new one : nullptr)`.
abbrev pub other_keyboard : Option Keyboard → Option Keyboard
other_keyboard none = some new_keyboard
other_keyboard (some k) = none

-- `keyboard->setFocus(surface)` of a keyboard that is there.
unfoldable pub set_focus : Seat → Option ℕ → Option Keyboard → Option Keyboard × List SeatEffect
unfolding focused
set_focus seat surface none = (none, [])
set_focus seat surface (some k) =
    let (k1, events) = focused seat surface k in (some k1, map keyboard_event events)

abbrev pub restore_focus :
    Seat → Bool → Option ℕ → Option Keyboard → Option Keyboard × List SeatEffect
restore_focus seat wanted none k = (k, [])
restore_focus seat wanted (some s) k =
    let moved = set_focus seat (some s) k in if wanted then moved else (k, [])

unfoldable pub set_capabilities : Capabilities → Devices → Devices × List SeatEffect
unfolding set_focus
set_capabilities caps d =
    let pointer = xor d.pointer (xor caps.pointer d.capabilities.pointer) in
    let new = xor caps.keyboard d.capabilities.keyboard in
    let keyboard = if new then other_keyboard d.keyboard else d.keyboard in
    let touch = xor d.touch (xor caps.touch d.capabilities.touch) in
    let restored = restore_focus d.seat (new && caps.keyboard) d.keyboard_focus keyboard in
    if eq_capabilities d.capabilities caps then (d, []) else (
      record d { capabilities = caps; pointer = pointer; keyboard = restored.0; touch = touch },
      (if xor caps.pointer d.capabilities.pointer then pointer_changed pointer ∷ [] else [])
          ++ ((if new then keyboard_changed (is_there keyboard) ∷ [] else [])
              ++ ((if xor caps.touch d.capabilities.touch then touch_changed touch ∷ [] else [])
                  ++ (map (λ r. send_capabilities r caps) d.resources ++ restored.1))),
    )

abbrev pub focus_of : Option Keyboard → Option ℕ
focus_of none = none
focus_of (some k) = k.focus

abbrev pub is_refused : Seat → (ℕ → Bool) → Option ℕ → Bool
is_refused seat destroyed none = false
is_refused seat destroyed (some s) =
    if destroyed s then true else not (is_input_allowed (some s) seat)

-- `setKeyboardFocus`, with its result; `destroyed` tells the surfaces that are.
unfoldable pub set_keyboard_focus :
    (ℕ → Bool) → Option ℕ → Devices → Bool × Devices × List SeatEffect
unfolding set_focus
set_keyboard_focus destroyed surface d =
    let old = focus_of d.keyboard in
    let moved = set_focus d.seat surface d.keyboard in
    if is_refused d.seat destroyed surface
    then (false, d, [])
    else if same surface old
    then (true, d, [])
    else (
      true,
      record d { keyboard_focus = surface; keyboard = moved.0 },
      moved.1
          ++ ((if d.has_data_device then data_device_focus surface ∷ [] else [])
              ++ keyboard_focus_changed surface old ∷ []),
    )

abbrev pub forget_surface : ℕ → Option Keyboard → Option Keyboard
forget_surface s none = none
forget_surface s (some k) = if same k.focus (some s) then some (focus_destroyed k).0 else some k

-- A surface is destroyed: only the keyboard listens.
unfoldable pub surface_destroyed : ℕ → Devices → Devices
surface_destroyed s d = record d { keyboard = forget_surface s d.keyboard }

-- `initialize` makes the devices of the capabilities.
unfoldable pub initialize : Devices → Devices
initialize d = record d {
  pointer = d.pointer || d.capabilities.pointer;
  touch = d.touch || d.capabilities.touch;
  keyboard = if d.capabilities.keyboard then some new_keyboard else d.keyboard;
}
