-- ===== src/Input/Tests.antt =====
-- Runs of the models of the input devices.
use aurora_compositor.Base.{ℕ, ◌≡◌, refl, true, false, List, [], ◌∷◌, none, some, toggles_by}
use aurora_compositor.Base.Int.{pos, ◌+ℤ◌, ◌-ℤ◌}
use aurora_compositor.Input.{Seat, is_input_allowed, set_exclusive_client}
use aurora_compositor.Input.Keyboard.{
  Keyboard, Resource, new_keyboard, reset_keyboard_state, focused, send_enter_to,
  check_focus_resource, add_client, destroy_resource, key_event, send_key_event, to_wayland_key,
}
use aurora_compositor.Input.Keyboard.Focus.{sees_all}
use aurora_compositor.Input.Keyboard.Protocol.{
  KeyCommand, bind, set_focus, key, release, reserve, run, bind_once, step, run-sees,
}
use aurora_compositor.Input.Keyboard.Keys.{reset_keyboard_state-empties}
use aurora_compositor.Input.Devices.{Devices, focus_of, initialize}
use aurora_compositor.Input.Devices.Following
use aurora_compositor.Input.Devices.Following.{
  SeatCommand, change, move_focus, destroy, Follows, run-Follows, without_keyboard, with_keyboard,
  destroyed_focus_returns,
}
use aurora_compositor.Input.Pointer.{
  Pointer, PointerEvent, Views, new_pointer, send_mouse_move_event, send_mouse_press_event,
  send_mouse_release_event, is_button_pressed, entered_surface_destroyed, send_enter, send_leave,
  send_motion, ensure_entered, pointer_focus_changed, set_mouse_focus, mouse_focus_destroyed,
  set_output, reach, send_button, send_mouse_wheel_event,
}
use aurora_compositor.Input.Pointer
use aurora_compositor.Input.Pointer.Calls.{is_button_signal}
use aurora_compositor.Input.Pointer.Buttons.{
  Moment, PointerCommand, may_release, do_command, releases_pressed, run-tells_pressed,
  destroyed-forgets_press,
}
use aurora_compositor.Input.Pointer.Buttons
use aurora_compositor.Input.Pointer.Crossing.{Moved, refused_move_enters}

-- Each surface has the client of its number.
abbrev open_seat : Seat
open_seat = record {
  wayland_client = λ s. s;
  client = λ s. some s;
  is_cursor_surface = λ s. false;
  exclusive_client = none;
}

abbrev bound : ℕ → Resource
bound n = record { name = n; client = n; version = 4 }

-- Two clients; the focus goes to the one, a key is pressed, and then to the other.
abbrev key_history : List KeyCommand
key_history =
    bind (bound 1)
    ∷ set_focus (some 1)
    ∷ key 38 true
    ∷ bind (bound 2)
    ∷ set_focus (some 2)
    ∷ release 1
    ∷ reserve (some 1)
    ∷ set_focus (some 2)
    ∷ []

run-sees_example : sees_all (run key_history open_seat new_keyboard).1 none ≡ some (some 2)
unfolding run step bind_once focused send_enter_to check_focus_resource add_client destroy_resource
    key_event send_key_event to_wayland_key is_input_allowed set_exclusive_client
run-sees_example = run-sees key_history open_seat refl

abbrev typing : Keyboard
typing = record new_keyboard { resources = bound 1 ∷ []; keys = 30 ∷ 31 ∷ 30 ∷ [] }

reset_keyboard_state-empties_example :
    (reset_keyboard_state true (λ code mods. mods) typing).0.keys ≡ []
reset_keyboard_state-empties_example = reset_keyboard_state-empties true (λ code mods. mods) typing

-- Each view shows the surface of its number, on the output 5.
abbrev plain_views : Views
plain_views = record { surface = λ v. some v; output = λ v. some 5; inside = λ s at. at }

abbrev moment : PointerCommand → Moment
moment c = record { has_keyboard = true; views = plain_views; seat = open_seat; command = c }

abbrev pointer_history : List Moment
pointer_history =
    moment (Buttons.bind (some 1) (record { name = 10; client = 1 }))
    ∷ moment (Buttons.move (some 1) 7 8)
    ∷ moment (Buttons.press 1)
    ∷ moment (Buttons.press 2)
    ∷ moment (Buttons.release 1)
    ∷ moment (Buttons.destroy_surface 1)
    ∷ []

pointer_history-releases : releases_pressed pointer_history new_pointer ≡ true
unfolding releases_pressed may_release is_button_pressed Buttons.step do_command Pointer.add_client
    send_mouse_move_event set_mouse_focus is_input_allowed pointer_focus_changed send_leave reach
    ensure_entered send_enter send_motion set_output send_mouse_press_event send_mouse_release_event
    send_button entered_surface_destroyed ◌+ℤ◌ ◌-ℤ◌
pointer_history-releases = refl

run-tells_pressed_example :
    (q : Pointer) × (e : List PointerEvent) × (Buttons.run pointer_history new_pointer
      ≡ some (q, e))
    × (toggles_by is_button_signal e false ≡ is_button_pressed q)
run-tells_pressed_example = run-tells_pressed pointer_history pointer_history-releases

abbrev holding : Pointer
holding = record new_pointer {
  entered_surface = some 1;
  mouse_focus = some 1;
  button_count = pos 1;
}

destroyed-forgets_press_example :
    (q : Pointer) × (e : List PointerEvent) × (entered_surface_destroyed plain_views open_seat
        holding
      ≡ some (q, e))
    × (is_button_pressed
          (send_mouse_press_event plain_views open_seat 1
            (send_mouse_release_event plain_views open_seat 1 q).0).0
        ≡ false)
destroyed-forgets_press_example = destroyed-forgets_press plain_views open_seat 1 1 holding

-- The seat is reserved for the client 1.
abbrev reserved_seat : Seat
reserved_seat = record open_seat { exclusive_client = some 1 }

abbrev with_client_2 : Pointer
with_client_2 = record new_pointer { resources = record { name = 10; client = 2 } ∷ [] }

refused_move_enters_example :
    Moved reserved_seat 2 with_client_2
      (send_mouse_move_event true plain_views reserved_seat (some 2) 7 8 with_client_2)
unfolding is_input_allowed
refused_move_enters_example =
    refused_move_enters true plain_views reserved_seat 2 2 7 8 with_client_2 refl refl refl

-- A seat with a keyboard only, before and after it is initialized.
abbrev bare_seat : Devices
bare_seat = record {
  seat = open_seat;
  capabilities = record { pointer = false; keyboard = true; touch = false };
  pointer = false;
  keyboard = none;
  touch = false;
  keyboard_focus = none;
  has_data_device = true;
  resources = 3 ∷ [];
}

abbrev seat_history : List SeatCommand
seat_history =
    move_focus (λ s. false) (some 1)
    ∷ change (record { pointer = true; keyboard = false; touch = true })
    ∷ destroy 1
    ∷ []

run-Follows_example : Follows (Following.run seat_history (initialize bare_seat))
run-Follows_example = run-Follows seat_history bare_seat refl refl refl

abbrev focused_seat : Devices
focused_seat = record bare_seat { keyboard = some new_keyboard; keyboard_focus = some 1 }

destroyed_focus_returns_example :
    focus_of
      (Following.run
        (destroy 1
          ∷ change (without_keyboard bare_seat.capabilities)
          ∷ change (with_keyboard bare_seat.capabilities)
          ∷ [])
        focused_seat).keyboard
    ≡ some 1
unfolding is_input_allowed
destroyed_focus_returns_example = destroyed_focus_returns 1 focused_seat refl refl refl refl refl
