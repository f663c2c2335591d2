-- ===== src/Input/Pointer.antt =====
-- WaylandPointer, with the mouse focus of WaylandSeat. A function that asserts returns `none` where the
-- assertion fails. Positions are values of QPointF, named by numbers, and 0 is the null point.
pub mod Calls
pub mod Buttons
pub mod Crossing
use aurora_compositor.Base.{
  ℕ, zero, suc, ◌+◌, Bool, true, false, not, ◌&&◌, ◌||◌, List, [], ◌∷◌, ◌++◌, Option, none, some,
  ◌==◌, if◌then◌else◌,
}
use aurora_compositor.Base.Int.{ℤ, pos, negsuc, ◌+ℤ◌, ◌-ℤ◌, eq_ℤ, ltb_ℤ}
use aurora_compositor.Input.{Seat, is_input_allowed}

pub record PointerResource : Type 0 where
  pub name : ℕ
  pub client : ℕ

pub data PointerEvent : Type 0 where
  send_enter_to : ℕ → ℕ → ℕ → ℕ → PointerEvent
  send_leave_to : ℕ → ℕ → ℕ → PointerEvent
  send_motion_to : ℕ → ℕ → PointerEvent
  send_button_to : ℕ → ℕ → ℕ → Bool → PointerEvent
  send_axis_to : ℕ → Bool → ℤ → PointerEvent
  send_key_modifiers : Option ℕ → ℕ → PointerEvent
  mouse_focus_changed output_changed : Option ℕ → PointerEvent
  button_pressed_changed : PointerEvent

-- The surface and the output of a view, and what the view makes of a local position at the right or the
-- lower edge of its surface.
pub record Views : Type 0 where
  pub surface : ℕ → Option ℕ
  pub output : ℕ → Option ℕ
  pub inside : ℕ → ℕ → ℕ

-- `mouse_focus` is the seat's; `resources`: the newest first.
pub record Pointer : Type 0 where
  pub mouse_focus : Option ℕ
  pub entered_surface : Option ℕ
  pub resources : List PointerResource
  pub output : Option ℕ
  pub local_position : ℕ
  pub space_position : ℕ
  pub enter_serial : ℕ
  pub serial : ℕ
  pub button_count : ℤ

abbrev pub new_pointer : Pointer
new_pointer = record {
  mouse_focus = none;
  entered_surface = none;
  resources = [];
  output = none;
  local_position = 0;
  space_position = 0;
  enter_serial = 0;
  serial = 0;
  button_count = pos 0;
}

-- `for (auto resource : resourceMap().values(client))`.
abbrev pub to_each : (ℕ → PointerEvent) → ℕ → List PointerResource → List PointerEvent
to_each e c [] = []
to_each e c (r ∷ rs) = let rest = to_each e c rs in if r.client == c then e r.name ∷ rest else rest

abbrev pub eq_option : Option ℕ → Option ℕ → Bool
eq_option none none = true
eq_option none (some b) = false
eq_option (some a) none = false
eq_option (some a) (some b) = a == b

abbrev pub next_serial : Pointer → Pointer
next_serial p = record p { serial = suc p.serial }

abbrev Result : Type 0
Result = Option (Pointer × List PointerEvent)

abbrev pub after : List PointerEvent → Result → Result
after e none = none
after e (some (q, f)) = some (q, e ++ f)

-- Two calls after each other.
abbrev pub followed_by : Result → (Pointer → Result) → Result
followed_by none g = none
followed_by (some (p, e)) g = after e (g p)

-- `sendEnter`, by what is entered. `has_keyboard`: the seat has one.
abbrev pub enter_from : Option ℕ → Bool → Seat → ℕ → Pointer → Result
enter_from (some entered) has_keyboard seat s p = none
enter_from none has_keyboard seat s p =
    let n = suc p.serial in
    some (
      record p { serial = n; enter_serial = n; entered_surface = some s },
      (if has_keyboard then send_key_modifiers (seat.client s) n ∷ [] else [])
          ++ to_each (λ r. send_enter_to r n s p.local_position) (seat.wayland_client s)
              p.resources,
    )

unfoldable pub send_enter : Bool → Seat → ℕ → Pointer → Result
send_enter has_keyboard seat s p = enter_from p.entered_surface has_keyboard seat s p

abbrev pub leave_from : Option ℕ → Seat → Pointer → Result
leave_from none seat p = none
leave_from (some s) seat p =
    let n = suc p.serial in
    some (
      record p { serial = n; local_position = 0; entered_surface = none },
      to_each (λ r. send_leave_to r n s) (seat.wayland_client s) p.resources,
    )

unfoldable pub send_leave : Seat → Pointer → Result
send_leave seat p = leave_from p.entered_surface seat p

abbrev pub motion_from : Option ℕ → Seat → Pointer → Result
motion_from none seat p = none
motion_from (some s) seat p =
    some (p, to_each (λ r. send_motion_to r p.local_position) (seat.wayland_client s) p.resources)

unfoldable pub send_motion : Seat → Pointer → Result
send_motion seat p = motion_from p.entered_surface seat p

abbrev is_entered : Option ℕ → Bool
is_entered none = false
is_entered (some s) = true

unfoldable pub ensure_entered : Bool → Seat → ℕ → Pointer → Result
unfolding send_enter send_leave
ensure_entered has_keyboard seat s p =
    if eq_option p.entered_surface (some s)
    then some (p, [])
    else followed_by (if is_entered p.entered_surface then send_leave seat p else some (p, []))
        (send_enter has_keyboard seat s)

abbrev pub surface_of : Views → Option ℕ → Option ℕ
surface_of views none = none
surface_of views (some v) = views.surface v

-- `pointerFocusChanged`: a new focus on the entered surface is no leave.
unfoldable pub pointer_focus_changed : Views → Seat → Option ℕ → Pointer → Result
unfolding send_leave
pointer_focus_changed views seat focus p =
    if is_entered p.entered_surface && not (eq_option (surface_of views focus) p.entered_surface)
    then send_leave seat p
    else some (p, [])

-- `WaylandSeat::setMouseFocus`; the signal calls `pointerFocusChanged`.
unfoldable pub set_mouse_focus : Views → Seat → Option ℕ → Pointer → Result
unfolding pointer_focus_changed is_input_allowed
set_mouse_focus views seat view p =
    if eq_option view p.mouse_focus
    then some (p, [])
    else if not (is_input_allowed (surface_of views view) seat)
    then some (p, [])
    else followed_by (pointer_focus_changed views seat view (record p { mouse_focus = view }))
        (λ q. some (q, mouse_focus_changed view ∷ []))

-- `WaylandSeat::handleMouseFocusDestroyed`.
unfoldable pub mouse_focus_destroyed : Views → Seat → Pointer → Result
unfolding pointer_focus_changed
mouse_focus_destroyed views seat p =
    followed_by (pointer_focus_changed views seat none (record p { mouse_focus = none }))
      (λ q. some (q, mouse_focus_changed none ∷ []))

abbrev pub target_on : Seat → ℕ → Option ℕ → Option (ℕ × ℕ)
target_on seat v none = none
target_on seat v (some s) = if seat.is_cursor_surface s then none else some (v, s)

-- A view with a surface that is no cursor, and the surface.
abbrev pub target : Views → Seat → Option ℕ → Option (ℕ × ℕ)
target views seat none = none
target views seat (some v) = target_on seat v (views.surface v)

unfoldable pub set_output : Option ℕ → Pointer → Pointer × List PointerEvent
set_output output p =
    if eq_option p.output output
    then (p, [])
    else (record p { output = output }, output_changed output ∷ [])

abbrev pub view_of : Option (ℕ × ℕ) → Option ℕ
view_of none = none
view_of (some t) = some t.0

unfoldable pub reach : Bool → Views → Seat → Option (ℕ × ℕ) → Pointer → Result
unfolding ensure_entered send_motion set_output
reach has_keyboard views seat none p = some (p, [])
reach has_keyboard views seat (some (v, s)) p =
    followed_by
      (ensure_entered has_keyboard seat s
        (record p { local_position = views.inside s p.local_position }))
      (λ q. followed_by (send_motion seat q) (λ m.
        some (if eq_option (views.output v) none then (m, []) else set_output (views.output v) m)))

unfoldable pub send_mouse_move_event : Bool → Views → Seat → Option ℕ → ℕ → ℕ → Pointer → Result
unfolding set_mouse_focus reach
send_mouse_move_event has_keyboard views seat asked local space p =
    let to = target views seat asked in
    followed_by (set_mouse_focus views seat (view_of to) p) (λ q.
      reach has_keyboard views seat to
        (record q { local_position = local; space_position = space }))

abbrev pub button_to : Option ℕ → Seat → ℕ → Bool → Pointer → Pointer × List PointerEvent
button_to none seat button pressed p = (p, [])
button_to (some s) seat button pressed p =
    if not (is_input_allowed (some s) seat) then (p, []) else (
      next_serial p,
      to_each (λ r. send_button_to r (suc p.serial) button pressed) (seat.wayland_client s)
          p.resources,
    )

-- `sendButton`, to the client of the mouse focus.
unfoldable pub send_button : Views → Seat → ℕ → Bool → Pointer → Pointer × List PointerEvent
send_button views seat button pressed p =
    button_to (surface_of views p.mouse_focus) seat button pressed p

unfoldable pub send_mouse_press_event : Views → Seat → ℕ → Pointer → Pointer × List PointerEvent
unfolding send_button
send_mouse_press_event views seat button p =
    let counted = record p { button_count = p.button_count +ℤ pos 1 } in
    let (q, events) = send_button views seat button true counted in
    (q, (if eq_ℤ counted.button_count (pos 1) then button_pressed_changed ∷ [] else []) ++ events)

unfoldable pub send_mouse_release_event : Views → Seat → ℕ → Pointer → Pointer × List PointerEvent
unfolding send_button
send_mouse_release_event views seat button p =
    let counted = record p { button_count = p.button_count -ℤ pos 1 } in
    let (q, events) = send_button views seat button false counted in
    (q, (if eq_ℤ counted.button_count (pos 0) then button_pressed_changed ∷ [] else []) ++ events)

unfoldable pub is_button_pressed : Pointer → Bool
is_button_pressed p = ltb_ℤ (pos 0) p.button_count

abbrev pub wheel_to : Option ℕ → Seat → Bool → ℤ → Pointer → List PointerEvent
wheel_to none seat horizontal delta p = []
wheel_to (some s) seat horizontal delta p =
    if is_input_allowed (some s) seat
    then to_each (λ r. send_axis_to r horizontal delta) (seat.wayland_client s) p.resources
    else []

-- `sendMouseWheelEvent`; the events carry `-delta / 12`.
unfoldable pub send_mouse_wheel_event : Seat → Bool → ℤ → Pointer → List PointerEvent
send_mouse_wheel_event seat horizontal delta p = wheel_to p.entered_surface seat horizontal delta p

abbrev enter_late : Option ℕ → Seat → Option ℕ → ℕ → Pointer → List PointerEvent
enter_late none seat client n p = []
enter_late (some s) seat client n p =
    if eq_option client (seat.client s)
    then send_enter_to n p.enter_serial s p.local_position ∷ []
    else []

-- `addClient`: the client object, and the new resource.
unfoldable pub add_client :
    Seat → Option ℕ → PointerResource → Pointer → Pointer × List PointerEvent
add_client seat client r p =
    (record p { resources = r ∷ p.resources }, enter_late p.entered_surface seat client r.name p)

abbrev pub reset_count : Pointer → Pointer × List PointerEvent
reset_count p =
    if eq_ℤ p.button_count (pos 0)
    then (p, [])
    else (record p { button_count = pos 0 }, button_pressed_changed ∷ [])

unfoldable pub entered_surface_destroyed : Views → Seat → Pointer → Result
unfolding set_mouse_focus
entered_surface_destroyed views seat p =
    followed_by (set_mouse_focus views seat none (record p { entered_surface = none }))
      (λ q. some (reset_count q))
