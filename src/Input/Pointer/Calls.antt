-- ===== src/Input/Pointer/Calls.antt =====
-- What the calls of a pointer return, which is without a failed assertion.

use aurora_compositor.Base.{
  ℕ, ◌≡◌, refl, ap, ◌∙◌, inl, inr, Bool, true, false, not, List, [], ◌∷◌, ◌++◌, Option, none, some,
  if◌then◌else◌, ◌==◌, ==_iff, toggles_by, toggles_by-append, Bool-cases, Option-cases,
}
use aurora_compositor.Base.Int.{ℤ}
use aurora_compositor.Input.{Seat, is_input_allowed}
use aurora_compositor.Input.Pointer.{
  Pointer, PointerResource, PointerEvent, Views, button_pressed_changed, to_each, followed_by,
  after, send_enter, send_leave, send_motion, ensure_entered, surface_of, pointer_focus_changed,
  set_mouse_focus, mouse_focus_destroyed, target, set_output, reach, send_mouse_move_event,
  enter_from, leave_from, eq_option, output_changed,
}

abbrev pub is_button_signal : PointerEvent → Bool
is_button_signal button_pressed_changed = true
is_button_signal e = false

-- A call that returns with the property, leaves the count and does not emit the signal.
pub record Quiet (P : Pointer → Type 0) (r : Option (Pointer × List PointerEvent)) (n : ℤ)
    : Type 0 where
  pub pointer : Pointer
  pub events : List PointerEvent
  pub returns : r ≡ some (pointer, events)
  pub holds : P pointer
  pub same_count : pointer.button_count ≡ n
  pub silent : (b : Bool) → toggles_by is_button_signal events b ≡ b

-- Nothing more, and `s` is entered.
abbrev pub Any : Pointer → Type 0
Any p = Unit

abbrev pub On : ℕ → Pointer → Type 0
On s p = p.entered_surface ≡ some s

followed_by-Quiet :
    {P R : Pointer → Type 0} (r : Option (Pointer × List PointerEvent))
    (g : Pointer → Option (Pointer × List PointerEvent)) (n : ℤ)
    → Quiet P r n
    → ((q : Pointer) → P q → Quiet R (g q) q.button_count)
    → Quiet R (followed_by r g) n
followed_by-Quiet r g n first h =
    let next = h first.pointer first.holds in
    record {
      pointer = next.pointer;
      events = first.events ++ next.events;
      returns = ap (λ x. followed_by x g) first.returns ∙ ap (after first.events) next.returns;
      holds = next.holds;
      same_count = next.same_count ∙ first.same_count;
      silent = λ b.
          toggles_by-append is_button_signal first.events next.events b
          ∙ (next.silent _ ∙ first.silent b);
    }

pub to_each-quiet :
    (e : ℕ → PointerEvent) (c : ℕ) (rs : List PointerResource) (b : Bool)
    → ((n : ℕ) → is_button_signal (e n) ≡ false)
    → toggles_by is_button_signal (to_each e c rs) b ≡ b
to_each-quiet e c [] b h = refl
to_each-quiet e c (r ∷ rs) b h = elim (Bool-cases (r.client == c)) [
  | inl hit ↦ simp hit (
      ap (λ t. toggles_by is_button_signal (to_each e c rs) (if t then not b else b)) (h r.name)
      ∙ to_each-quiet e c rs b h)
  | inr miss ↦ simp miss (to_each-quiet e c rs b h)
]

pub Quiet-result :
    {P : Pointer → Type 0} (q : Pointer) (e : List PointerEvent)
    → P q
    → ((b : Bool) → toggles_by is_button_signal e b ≡ b)
    → Quiet P (some (q, e)) q.button_count
Quiet-result q e h quiet = record {
  pointer = q;
  events = e;
  returns = refl;
  holds = h;
  same_count = refl;
  silent = quiet;
}

enter-Quiet :
    (has_keyboard : Bool) (seat : Seat) (s : ℕ) (p : Pointer)
    → Quiet (On s) (enter_from none has_keyboard seat s p) p.button_count
enter-Quiet true seat s p =
    Quiet-result _ _ refl (λ b. to_each-quiet _ (seat.wayland_client s) p.resources b (λ n. refl))
enter-Quiet false seat s p =
    Quiet-result _ _ refl (λ b. to_each-quiet _ (seat.wayland_client s) p.resources b (λ n. refl))

abbrev Off : Pointer → Type 0
Off p = p.entered_surface ≡ none

leave-Quiet :
    (seat : Seat) (s : ℕ) (p : Pointer) → Quiet Off (leave_from (some s) seat p) p.button_count
leave-Quiet seat s p =
    Quiet-result _ _ refl (λ b. to_each-quiet _ (seat.wayland_client s) p.resources b (λ n. refl))

motion-Quiet :
    (seat : Seat) (s : ℕ) (p : Pointer) → On s p → Quiet (On s) (send_motion seat p) p.button_count
unfolding send_motion
motion-Quiet seat s p h =
    simp h
      (Quiet-result p _ h (λ b. to_each-quiet _ (seat.wayland_client s) p.resources b (λ n. refl)))

nothing-Quiet : {P : Pointer → Type 0} (p : Pointer) → P p → Quiet P (some (p, [])) p.button_count
nothing-Quiet p h = Quiet-result p [] h (λ b. refl)

forget :
    {P : Pointer → Type 0} (r : Option (Pointer × List PointerEvent)) (n : ℤ)
    → Quiet P r n
    → Quiet Any r n
forget r n h = record {
  pointer = h.pointer;
  events = h.events;
  returns = h.returns;
  holds = tt;
  same_count = h.same_count;
  silent = h.silent;
}

pointer_focus_changed-Quiet :
    (views : Views) (seat : Seat) (focus : Option ℕ) (p : Pointer)
    → Quiet Any (pointer_focus_changed views seat focus p) p.button_count
unfolding pointer_focus_changed send_leave
pointer_focus_changed-Quiet views seat focus p = elim (Option-cases p.entered_surface) [
  | inl e ↦ simp e (nothing-Quiet p tt)
  | inr (s, e) ↦ elim (Bool-cases (eq_option (surface_of views focus) (some s))) [
    | inl same ↦ simp (e, same) (nothing-Quiet p tt)
    | inr other ↦ simp (e, other) (forget _ _ (leave-Quiet seat s p))
  ]
]

pub set_mouse_focus-Quiet :
    (views : Views) (seat : Seat) (view : Option ℕ) (p : Pointer)
    → Quiet Any (set_mouse_focus views seat view p) p.button_count
unfolding set_mouse_focus
set_mouse_focus-Quiet views seat view p = elim (Bool-cases (eq_option view p.mouse_focus)) [
  | inl same ↦ simp same (nothing-Quiet p tt)
  | inr other ↦ elim (Bool-cases (is_input_allowed (surface_of views view) seat)) [
    | inl allowed ↦
        simp (other, allowed)
          (followed_by-Quiet
            (pointer_focus_changed views seat view (record p { mouse_focus = view })) _
            p.button_count
            (pointer_focus_changed-Quiet views seat view (record p { mouse_focus = view }))
            (λ q h. Quiet-result q _ tt (λ b. refl)))
    | inr refused ↦ simp (other, refused) (nothing-Quiet p tt)
  ]
]

ensure_entered-Quiet :
    (has_keyboard : Bool) (seat : Seat) (s : ℕ) (p : Pointer)
    → Quiet (On s) (ensure_entered has_keyboard seat s p) p.button_count
unfolding ensure_entered send_leave send_enter
ensure_entered-Quiet has_keyboard seat s p = elim (Option-cases p.entered_surface) [
  | inl e ↦ simp e (enter-Quiet has_keyboard seat s p)
  | inr (old, e) ↦ elim (Bool-cases (old == s)) [
    | inl same ↦ simp (e, same) (nothing-Quiet p (e ∙ ap some ((==_iff old s).0 same)))
    | inr other ↦
        simp (e, other)
          (followed_by-Quiet (leave_from (some old) seat p) (send_enter has_keyboard seat s)
            p.button_count (leave-Quiet seat old p)
            (λ q h. (simp h (enter-Quiet has_keyboard seat s q))))
  ]
]

output-Quiet :
    (views : Views) (s v : ℕ) (m : Pointer)
    → On s m
    → Quiet
        (On s)
        (some (if eq_option (views.output v) none then (m, []) else set_output (views.output v) m))
        m.button_count
unfolding set_output
output-Quiet views s v m at = elim (Bool-cases (eq_option (views.output v) none)) [
  | inl bare ↦ simp bare (nothing-Quiet m at)
  | inr shown ↦ elim (Bool-cases (eq_option m.output (views.output v))) [
    | inl same ↦ simp (shown, same) (nothing-Quiet m at)
    | inr other ↦
        simp (shown, other)
          (Quiet-result (record m { output = views.output v })
            (output_changed (views.output v) ∷ []) at (λ b. refl))
  ]
]

reach-Quiet :
    (has_keyboard : Bool) (views : Views) (seat : Seat) (v s : ℕ) (p : Pointer)
    → Quiet (On s) (reach has_keyboard views seat (some (v, s)) p) p.button_count
unfolding reach set_output
reach-Quiet has_keyboard views seat v s p =
    let placed : Pointer = record p { local_position = views.inside s p.local_position } in
    followed_by-Quiet (ensure_entered has_keyboard seat s placed) _ p.button_count
      (ensure_entered-Quiet has_keyboard seat s placed)
      (λ q on.
        followed_by-Quiet (send_motion seat q) _ q.button_count (motion-Quiet seat s q on)
          (λ m at. output-Quiet views s v m at))

-- A move to a view ends with its surface entered.
pub move-enters :
    (has_keyboard : Bool) (views : Views) (seat : Seat) (asked : Option ℕ) (local space v s : ℕ)
    (p : Pointer)
    → target views seat asked ≡ some (v, s)
    → Quiet
        (On s)
        (send_mouse_move_event has_keyboard views seat asked local space p)
        p.button_count
unfolding send_mouse_move_event
move-enters has_keyboard views seat asked local space v s p e = simp e (
    followed_by-Quiet (set_mouse_focus views seat (some v) p) _ p.button_count
      (set_mouse_focus-Quiet views seat (some v) p)
      (λ q h.
        reach-Quiet has_keyboard views seat v s
          (record q { local_position = local; space_position = space })))

pub move-Quiet :
    (has_keyboard : Bool) (views : Views) (seat : Seat) (asked : Option ℕ) (local space : ℕ)
    (p : Pointer)
    → Quiet Any (send_mouse_move_event has_keyboard views seat asked local space p) p.button_count
unfolding send_mouse_move_event reach
move-Quiet has_keyboard views seat asked local space p =
    elim (Option-cases (target views seat asked)) [
      | inl e ↦ simp e (
          followed_by-Quiet (set_mouse_focus views seat none p) _ p.button_count
            (set_mouse_focus-Quiet views seat none p)
            (λ q h.
              Quiet-result (record q { local_position = local; space_position = space }) [] tt
                (λ b. refl)))
      | inr ((v, s), e) ↦ forget _ _ (move-enters has_keyboard views seat asked local space v s p e)
    ]

pub mouse_focus_destroyed-Quiet :
    (views : Views) (seat : Seat) (p : Pointer)
    → Quiet Any (mouse_focus_destroyed views seat p) p.button_count
unfolding mouse_focus_destroyed
mouse_focus_destroyed-Quiet views seat p =
    followed_by-Quiet (pointer_focus_changed views seat none (record p { mouse_focus = none })) _
      p.button_count (pointer_focus_changed-Quiet views seat none (record p { mouse_focus = none }))
      (λ q h. Quiet-result q _ tt (λ b. refl))
