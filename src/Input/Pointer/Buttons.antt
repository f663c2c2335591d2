-- ===== src/Input/Pointer/Buttons.antt =====
-- The histories of a pointer: the count of pressed buttons and its signal.
use aurora_compositor.Base.{
  ℕ, ◌≡◌, refl, sym, ap, ◌∙◌, inl, inr, Bool, true, false, ◌&&◌, List, [], ◌∷◌, ◌++◌, Option, none,
  some, arith, if◌then◌else◌, toggles_by, toggles_by-append, Bool-cases,
}
use aurora_compositor.Base.Int.{ℤ, pos, negsuc, ◌+ℤ◌, ◌-ℤ◌, eq_ℤ, eq_ℤ_iff, ltb_ℤ, neg_part}
use aurora_compositor.Input.{Seat, is_input_allowed}
use aurora_compositor.Input.Pointer.{
  Pointer, wheel_to, enter_late, new_pointer, PointerResource, PointerEvent, Views,
  button_pressed_changed, followed_by, after, surface_of, mouse_focus_destroyed,
  send_mouse_move_event, send_button, send_mouse_press_event, send_mouse_release_event,
  is_button_pressed, send_mouse_wheel_event, add_client, reset_count, entered_surface_destroyed,
  button_to, eq_option,
}
use aurora_compositor.Input.Pointer.Calls.{
  Quiet, Quiet-result, Any, is_button_signal, to_each-quiet, move-Quiet,
  mouse_focus_destroyed-Quiet, set_mouse_focus-Quiet,
}

pub data PointerCommand : Type 0 where
  move : Option ℕ → ℕ → ℕ → PointerCommand
  press release : ℕ → PointerCommand
  wheel : Bool → ℤ → PointerCommand
  bind : Option ℕ → PointerResource → PointerCommand
  destroy_resource destroy_surface destroy_view : ℕ → PointerCommand

-- A command, with the seat, the views and the keyboard as they are then.
pub record Moment : Type 0 where
  pub has_keyboard : Bool
  pub views : Views
  pub seat : Seat
  pub command : PointerCommand

abbrev remove_resource : ℕ → List PointerResource → List PointerResource
remove_resource n [] = []
remove_resource n (r ∷ rs) =
    let rest = remove_resource n rs in if eq_option (some r.name) (some n) then rest else r ∷ rest

unfoldable pub do_command :
    PointerCommand → Bool → Views → Seat → Pointer → Option (Pointer × List PointerEvent)
unfolding send_mouse_move_event send_mouse_press_event send_mouse_release_event
    send_mouse_wheel_event add_client entered_surface_destroyed mouse_focus_destroyed
do_command (move view local space) k views seat p =
    send_mouse_move_event k views seat view local space p
do_command (press b) k views seat p = some (send_mouse_press_event views seat b p)
do_command (release b) k views seat p = some (send_mouse_release_event views seat b p)
do_command (wheel h delta) k views seat p = some (p, send_mouse_wheel_event seat h delta p)
do_command (bind client r) k views seat p = some (add_client seat client r p)
do_command (destroy_resource n) k views seat p =
    some (record p { resources = remove_resource n p.resources }, [])
do_command (destroy_surface s) k views seat p =
    let destroyed = entered_surface_destroyed views seat p in
    if eq_option p.entered_surface (some s) then destroyed else some (p, [])
do_command (destroy_view v) k views seat p =
    let destroyed = mouse_focus_destroyed views seat p in
    if eq_option p.mouse_focus (some v) then destroyed else some (p, [])

unfoldable pub step : Moment → Pointer → Option (Pointer × List PointerEvent)
unfolding do_command
step m p = do_command m.command m.has_keyboard m.views m.seat p

unfoldable pub run : List Moment → Pointer → Option (Pointer × List PointerEvent)
unfolding step
run [] p = some (p, [])
run (m ∷ ms) p = followed_by (step m p) (run ms)

-- A button is released only while one counts as pressed.
unfoldable pub may_release : PointerCommand → Pointer → Bool
unfolding is_button_pressed
may_release (release b) p = is_button_pressed p
may_release other p = true

abbrev pub pointer_of : Pointer → Option (Pointer × List PointerEvent) → Pointer
pointer_of p none = p
pointer_of p (some q) = q.0

unfoldable pub releases_pressed : List Moment → Pointer → Bool
unfolding step may_release
releases_pressed [] p = true
releases_pressed (m ∷ ms) p =
    may_release m.command p && releases_pressed ms (pointer_of p (step m p))

-- A call that returns, with the signal as often as it has to be.
pub record Tells (r : Option (Pointer × List PointerEvent)) (p : Pointer) : Type 0 where
  pub pointer : Pointer
  pub events : List PointerEvent
  pub returns : r ≡ some (pointer, events)
  pub not_negative : neg_part pointer.button_count ≡ 0
  pub told : toggles_by is_button_signal events (is_button_pressed p) ≡ is_button_pressed pointer

Quiet-Tells :
    (r : Option (Pointer × List PointerEvent)) (p : Pointer)
    → Quiet Any r p.button_count
    → neg_part p.button_count ≡ 0
    → Tells r p
unfolding is_button_pressed
Quiet-Tells r p h w = record {
  pointer = h.pointer;
  events = h.events;
  returns = h.returns;
  not_negative = ap neg_part h.same_count ∙ w;
  told = h.silent (is_button_pressed p) ∙ ap (ltb_ℤ (pos 0)) (sym h.same_count);
}

button_to-quiet :
    (s : Option ℕ) (seat : Seat) (button : ℕ) (pressed b : Bool) (p : Pointer)
    → (toggles_by is_button_signal (button_to s seat button pressed p).1 b ≡ b)
      × ((button_to s seat button pressed p).0.button_count ≡ p.button_count)
button_to-quiet none seat button pressed b p = (refl, refl)
button_to-quiet (some s) seat button pressed b p =
    elim (Bool-cases (is_input_allowed (some s) seat)) [
      | inl allowed ↦
          simp allowed (to_each-quiet _ (seat.wayland_client s) p.resources b (λ n. refl), refl)
      | inr refused ↦ simp refused (refl, refl)
    ]

abbrev signal_if : Bool → List PointerEvent
signal_if b = if b then button_pressed_changed ∷ [] else []

press_signal :
    (n : ℤ)
    → neg_part n ≡ 0
    → (toggles_by is_button_signal (signal_if (eq_ℤ (n +ℤ pos 1) (pos 1))) (ltb_ℤ (pos 0) n)
        ≡ ltb_ℤ (pos 0) (n +ℤ pos 1))
      × (neg_part (n +ℤ pos 1) ≡ 0)
unfolding ◌+ℤ◌
press_signal (pos n) h = (ground arith, ground arith)
press_signal (negsuc n) h = absurd (omega arith)

release_signal :
    (n : ℤ)
    → ltb_ℤ (pos 0) n ≡ true
    → (toggles_by is_button_signal (signal_if (eq_ℤ (n -ℤ pos 1) (pos 0))) (ltb_ℤ (pos 0) n)
        ≡ ltb_ℤ (pos 0) (n -ℤ pos 1))
      × (neg_part (n -ℤ pos 1) ≡ 0)
unfolding ◌-ℤ◌
release_signal (pos n) h = (ground arith, ground arith)
release_signal (negsuc n) h = absurd (ground arith)

-- A signal or none, and then the events of the button.
button-Tells :
    (views : Views) (seat : Seat) (button : ℕ) (pressed signal : Bool) (n : ℤ) (p : Pointer)
    → (toggles_by is_button_signal (signal_if signal) (is_button_pressed p) ≡ ltb_ℤ (pos 0) n)
      × (neg_part n ≡ 0)
    → Tells
        (some (
          (send_button views seat button pressed (record p { button_count = n })).0,
          signal_if signal
              ++ (send_button views seat button pressed (record p { button_count = n })).1,
        ))
        p
unfolding send_button is_button_pressed
button-Tells views seat button pressed signal n p (told, w) =
    let counted : Pointer = record p { button_count = n } in
    let sent = send_button views seat button pressed counted in
    let quiet = λ (b : Bool).
      button_to-quiet (surface_of views p.mouse_focus) seat button pressed b counted in
    record {
      pointer = sent.0;
      events = signal_if signal ++ sent.1;
      returns = refl;
      not_negative = ap neg_part (quiet true).1 ∙ w;
      told =
          toggles_by-append is_button_signal (signal_if signal) sent.1 _
          ∙ ((quiet _).0 ∙ (told ∙ ap (ltb_ℤ (pos 0)) (sym (quiet true).1)));
    }

reset_told :
    (q : Pointer)
    → neg_part q.button_count ≡ 0
    → (toggles_by is_button_signal (reset_count q).1 (is_button_pressed q)
        ≡ is_button_pressed (reset_count q).0)
      × (neg_part (reset_count q).0.button_count ≡ 0)
unfolding is_button_pressed
reset_told q h = (ground arith, ground arith)

destroyed-Tells :
    (views : Views) (seat : Seat) (p : Pointer)
    → neg_part p.button_count ≡ 0
    → Tells (entered_surface_destroyed views seat p) p
unfolding entered_surface_destroyed is_button_pressed
destroyed-Tells views seat p w =
    let first = set_mouse_focus-Quiet views seat none (record p { entered_surface = none }) in
    let last = reset_told first.pointer (ap neg_part first.same_count ∙ w) in
    record {
      pointer = (reset_count first.pointer).0;
      events = first.events ++ (reset_count first.pointer).1;
      returns = ap (λ x. followed_by x (λ q. some (reset_count q))) first.returns;
      not_negative = last.1;
      told =
          toggles_by-append is_button_signal first.events _ _
          ∙ (ap (toggles_by is_button_signal (reset_count first.pointer).1)
                (first.silent _ ∙ ap (ltb_ℤ (pos 0)) (sym first.same_count))
              ∙ last.0);
    }

wheel_to-quiet :
    (s : Option ℕ) (seat : Seat) (horizontal : Bool) (delta : ℤ) (p : Pointer) (b : Bool)
    → toggles_by is_button_signal (wheel_to s seat horizontal delta p) b ≡ b
wheel_to-quiet none seat horizontal delta p b = refl
wheel_to-quiet (some s) seat horizontal delta p b =
    elim (Bool-cases (is_input_allowed (some s) seat)) [
      | inl allowed ↦
          simp allowed (to_each-quiet _ (seat.wayland_client s) p.resources b (λ n. refl))
      | inr refused ↦ simp refused refl
    ]

enter_late-quiet :
    (s : Option ℕ) (seat : Seat) (client : Option ℕ) (n : ℕ) (p : Pointer) (b : Bool)
    → toggles_by is_button_signal (enter_late s seat client n p) b ≡ b
enter_late-quiet none seat client n p b = refl
enter_late-quiet (some s) seat client n p b = ground arith

command-Tells :
    (c : PointerCommand) (k : Bool) (views : Views) (seat : Seat) (p : Pointer)
    → neg_part p.button_count ≡ 0
    → may_release c p ≡ true
    → Tells (do_command c k views seat p) p
unfolding do_command may_release is_button_pressed send_mouse_press_event send_mouse_release_event
    add_client send_mouse_wheel_event
command-Tells (move view local space) k views seat p w h =
    Quiet-Tells _ p (move-Quiet k views seat view local space p) w
command-Tells (press b) k views seat p w h =
    button-Tells views seat b true _ (p.button_count +ℤ pos 1) p (press_signal p.button_count w)
command-Tells (release b) k views seat p w h =
    button-Tells views seat b false _ (p.button_count -ℤ pos 1) p (release_signal p.button_count h)
command-Tells (wheel horizontal delta) k views seat p w h =
    Quiet-Tells _ p
      (Quiet-result p _ tt (λ b. wheel_to-quiet p.entered_surface seat horizontal delta p b)) w
command-Tells (bind client r) k views seat p w h =
    Quiet-Tells _ p
      (Quiet-result (record p { resources = r ∷ p.resources }) _ tt
        (λ b. enter_late-quiet p.entered_surface seat client r.name p b))
      w
command-Tells (destroy_resource n) k views seat p w h = record {
  pointer = record p { resources = remove_resource n p.resources };
  events = [];
  returns = refl;
  not_negative = w;
  told = refl;
}
command-Tells (destroy_surface s) k views seat p w h =
    elim (Bool-cases (eq_option p.entered_surface (some s))) [
      | inl hit ↦ simp hit (destroyed-Tells views seat p w)
      | inr miss ↦
          simp miss
            (record { pointer = p; events = []; returns = refl; not_negative = w; told = refl })
    ]
command-Tells (destroy_view v) k views seat p w h =
    elim (Bool-cases (eq_option p.mouse_focus (some v))) [
      | inl hit ↦ simp hit (Quiet-Tells _ p (mouse_focus_destroyed-Quiet views seat p) w)
      | inr miss ↦
          simp miss
            (record { pointer = p; events = []; returns = refl; not_negative = w; told = refl })
    ]

step-Tells :
    (m : Moment) (p : Pointer)
    → neg_part p.button_count ≡ 0
    → may_release m.command p ≡ true
    → Tells (step m p) p
unfolding step
step-Tells m p w h = command-Tells m.command m.has_keyboard m.views m.seat p w h

run_from :
    (ms : List Moment) (p : Pointer)
    → neg_part p.button_count ≡ 0
    → releases_pressed ms p ≡ true
    → Tells (run ms p) p
unfolding run releases_pressed
run_from [] p w h = record {
  pointer = p;
  events = [];
  returns = refl;
  not_negative = w;
  told = refl;
}
run_from (m ∷ ms) p w h =
    let first = step-Tells m p w (ground arith) in
    let later : releases_pressed ms first.pointer ≡ true =
      ap (λ r. releases_pressed ms (pointer_of p r)) (sym first.returns) ∙ ground arith in
    let last = run_from ms first.pointer first.not_negative later in
    record {
      pointer = last.pointer;
      events = first.events ++ last.events;
      returns =
          ap (λ x. followed_by x (run ms)) first.returns ∙ ap (after first.events) last.returns;
      not_negative = last.not_negative;
      told =
          toggles_by-append is_button_signal first.events last.events _
          ∙ (ap (toggles_by is_button_signal last.events) first.told ∙ last.told);
    }

-- In every history of a pointer in which a button is released only while one counts as pressed, no
-- assertion of `sendEnter`, `sendLeave` and `sendMotion` fails, and who turns round at each signal
-- buttonPressedChanged, from not pressed, knows at the end whether a button is pressed.
pub run-tells_pressed :
    (ms : List Moment)
    → releases_pressed ms new_pointer ≡ true
    → (q : Pointer) × (e : List PointerEvent) × (run ms new_pointer ≡ some (q, e))
      × (toggles_by is_button_signal e false ≡ is_button_pressed q)
unfolding is_button_pressed
run-tells_pressed ms h =
    let w = run_from ms new_pointer refl h in (w.pointer, w.events, w.returns, w.told)

button_count-sent :
    (views : Views) (seat : Seat) (button : ℕ) (pressed : Bool) (p : Pointer)
    → (send_button views seat button pressed p).0.button_count ≡ p.button_count
unfolding send_button
button_count-sent views seat button pressed p =
    (button_to-quiet (surface_of views p.mouse_focus) seat button pressed true p).1

press-count :
    (views : Views) (seat : Seat) (button : ℕ) (p : Pointer)
    → (send_mouse_press_event views seat button p).0.button_count ≡ p.button_count +ℤ pos 1
unfolding send_mouse_press_event
press-count views seat button p =
    button_count-sent views seat button true (record p { button_count = p.button_count +ℤ pos 1 })

release-count :
    (views : Views) (seat : Seat) (button : ℕ) (p : Pointer)
    → (send_mouse_release_event views seat button p).0.button_count ≡ p.button_count -ℤ pos 1
unfolding send_mouse_release_event
release-count views seat button p =
    button_count-sent views seat button false (record p { button_count = p.button_count -ℤ pos 1 })

click-count :
    (views : Views) (seat : Seat) (held next : ℕ) (p : Pointer)
    → p.button_count ≡ pos 0
    → (send_mouse_press_event views seat next
        (send_mouse_release_event views seat held p).0).0.button_count
      ≡ pos 0
unfolding ◌+ℤ◌ ◌-ℤ◌
click-count views seat held next p h =
    press-count views seat next (send_mouse_release_event views seat held p).0
    ∙ (ap (λ n. n +ℤ pos 1) (release-count views seat held p) ∙ ap (λ n. n -ℤ pos 1 +ℤ pos 1) h)

reset_count-zero : (q : Pointer) → (reset_count q).0.button_count ≡ pos 0
reset_count-zero q = ground (arith, eq_ℤ_iff q.button_count (pos 0))

-- After the entered surface is destroyed, whatever buttons are held then, the release of one of them and
-- the next press leave the pointer without a pressed button.
pub destroyed-forgets_press :
    (views : Views) (seat : Seat) (held next : ℕ) (p : Pointer)
    → (q : Pointer) × (e : List PointerEvent) × (entered_surface_destroyed views seat p
        ≡ some (q, e))
      × (is_button_pressed
            (send_mouse_press_event views seat next
              (send_mouse_release_event views seat held q).0).0
          ≡ false)
unfolding entered_surface_destroyed is_button_pressed
destroyed-forgets_press views seat held next p =
    let first = set_mouse_focus-Quiet views seat none (record p { entered_surface = none }) in
    (
      (reset_count first.pointer).0,
      first.events ++ (reset_count first.pointer).1,
      ap (λ x. followed_by x (λ q. some (reset_count q))) first.returns,
      ap (ltb_ℤ (pos 0)) (
          click-count views seat held next (reset_count first.pointer).0
            (reset_count-zero first.pointer)),
    )
