-- ===== src/Input/Pointer/Crossing.antt =====
-- Moves of the pointer while the seat is reserved for a client.
use aurora_compositor.Base.{
  ℕ, ◌≡◌, refl, sym, ap, ◌∙◌, inl, inr, Bool, false, List, [], ◌++◌, Option, none, some, arith,
  if◌then◌else◌, ◌==◌, ==_iff, Bool-cases, Option-cases,
}
use aurora_compositor.Input.{Seat, is_input_allowed}
use aurora_compositor.Input.Pointer.{
  Pointer, PointerResource, PointerEvent, Views, to_each, followed_by, after, send_enter,
  send_leave, send_motion, ensure_entered, set_mouse_focus, target, set_output, reach,
  send_mouse_move_event, eq_option, send_motion_to, view_of,
}

-- `s` is entered, with the resources and the mouse focus of `p`.
record Entered (s : ℕ) (p q : Pointer) : Type 0 where
  on : q.entered_surface ≡ some s
  same_resources : q.resources ≡ p.resources
  same_focus : q.mouse_focus ≡ p.mouse_focus

ensure_entered-Entered :
    (has_keyboard : Bool) (seat : Seat) (s : ℕ) (p : Pointer)
    → (q : Pointer) × (e : List PointerEvent) × (ensure_entered has_keyboard seat s p ≡ some (q, e))
      × Entered s p q
unfolding ensure_entered send_enter send_leave
ensure_entered-Entered has_keyboard seat s p = elim (Option-cases p.entered_surface) [
  | inl e ↦ simp e (_, _, refl, record { on = refl; same_resources = refl; same_focus = refl })
  | inr (old, e) ↦ elim (Bool-cases (old == s)) [
    | inl same ↦
        simp (e, same)
          (
            p,
            [],
            refl,
            record {
              on = e ∙ ap some ((==_iff old s).0 same);
              same_resources = refl;
              same_focus = refl;
            },
          )
    | inr other ↦
        simp (e, other) (_, _, refl, record { on = refl; same_resources = refl; same_focus = refl })
  ]
]

set_output-same :
    (views : Views) (v : ℕ) (m : Pointer)
    → let r = if eq_option (views.output v) none then (m, []) else set_output (views.output v) m in
      (r.0.entered_surface ≡ m.entered_surface)
      × (r.0.mouse_focus ≡ m.mouse_focus)
      × (r.0.local_position ≡ m.local_position)
unfolding set_output
set_output-same views v m = ground arith

refused_focus :
    (views : Views) (seat : Seat) (v s : ℕ) (p : Pointer)
    → views.surface v ≡ some s
    → is_input_allowed (some s) seat ≡ false
    → set_mouse_focus views seat (some v) p ≡ some (p, [])
unfolding set_mouse_focus
refused_focus views seat v s p e h = elim (Bool-cases (eq_option (some v) p.mouse_focus)) [
  | inl same ↦ simp same refl
  | inr other ↦ simp (other, e, h) refl
]

-- The events have the motion for every resource of the client of the surface, which is entered.
pub record Moved (seat : Seat) (s : ℕ) (p : Pointer) (r : Option (Pointer × List PointerEvent))
    : Type 0 where
  pub pointer : Pointer
  pub before : List PointerEvent
  pub later : List PointerEvent
  pub returns :
      r
      ≡ some (
        pointer,
        before
            ++ (to_each
                  (λ n. send_motion_to n pointer.local_position)
                  (seat.wayland_client s)
                  p.resources
                ++ later),
      )
  pub entered : pointer.entered_surface ≡ some s
  pub old_focus : pointer.mouse_focus ≡ p.mouse_focus

abbrev shown_on : Views → ℕ → Pointer → Pointer × List PointerEvent
unfolding set_output
shown_on views v m =
    if eq_option (views.output v) none then (m, []) else set_output (views.output v) m

abbrev motions : Seat → ℕ → ℕ → List PointerResource → List PointerEvent
motions seat s at rs = to_each (λ n. send_motion_to n at) (seat.wayland_client s) rs

motion-shown :
    (views : Views) (seat : Seat) (v s : ℕ) (q : Pointer)
    → q.entered_surface ≡ some s
    → followed_by (send_motion seat q) (λ m. some (shown_on views v m))
      ≡ some (
        (shown_on views v q).0,
        motions seat s q.local_position q.resources ++ (shown_on views v q).1,
      )
unfolding send_motion
motion-shown views seat v s q e = simp e refl

reach-Moved :
    (has_keyboard : Bool) (views : Views) (seat : Seat) (v s : ℕ) (p : Pointer)
    → Moved seat s p (reach has_keyboard views seat (some (v, s)) p)
unfolding reach
reach-Moved has_keyboard views seat v s p =
    let placed : Pointer = record p { local_position = views.inside s p.local_position } in
    let (q, e, returns, h) = ensure_entered-Entered has_keyboard seat s placed in
    let out : Pointer × List PointerEvent = shown_on views v q in
    let kept = set_output-same views v q in
    record {
      pointer = out.0;
      before = e;
      later = out.1;
      returns =
          ap
            (λ x.
              followed_by x
                (λ m. followed_by (send_motion seat m) (λ o. some (shown_on views v o))))
            returns
          ∙ ap (after e) (
              motion-shown views seat v s q h.on
              ∙ ap (λ x. some (out.0, x ++ out.1))
                  (ap (motions seat s q.local_position) h.same_resources
                    ∙ ap (λ at. motions seat s at p.resources) (sym kept.2)));
      entered = kept.0 ∙ h.on;
      old_focus = kept.1 ∙ h.same_focus;
    }

Moved-from :
    (seat : Seat) (s local space : ℕ) (p : Pointer) (r r2 : Option (Pointer × List PointerEvent))
    → r2 ≡ after [] r
    → Moved seat s (record p { local_position = local; space_position = space }) r
    → Moved seat s p r2
Moved-from seat s local space p r r2 e h = record {
  pointer = h.pointer;
  before = h.before;
  later = h.later;
  returns = e ∙ ap (after []) h.returns;
  entered = h.entered;
  old_focus = h.old_focus;
}

refused_move :
    (has_keyboard : Bool) (views : Views) (seat : Seat) (v s local space : ℕ) (p : Pointer)
    → target views seat (some v) ≡ some (v, s)
    → set_mouse_focus views seat (some v) p ≡ some (p, [])
    → send_mouse_move_event has_keyboard views seat (some v) local space p
      ≡ after [] (
          reach has_keyboard views seat
            (some (v, s))
            (record p { local_position = local; space_position = space }))
unfolding send_mouse_move_event
refused_move has_keyboard views seat v s local space p aimed refused =
    ap
      (λ t. followed_by (set_mouse_focus views seat (view_of t) p) (λ q.
        reach has_keyboard views seat t
          (record q { local_position = local; space_position = space })))
      aimed
    ∙ ap
        (λ x. followed_by x (λ q.
          reach has_keyboard views seat (some (v, s))
            (record q { local_position = local; space_position = space })))
        refused

-- While the seat does not allow input to a surface, a move to a view of it still enters the surface and
-- sends the motion to every pointer resource of its client, and the mouse focus stays where it was.
pub refused_move_enters :
    (has_keyboard : Bool) (views : Views) (seat : Seat) (v s local space : ℕ) (p : Pointer)
    → views.surface v ≡ some s
    → seat.is_cursor_surface s ≡ false
    → is_input_allowed (some s) seat ≡ false
    → Moved seat s p (send_mouse_move_event has_keyboard views seat (some v) local space p)
refused_move_enters has_keyboard views seat v s local space p shown plain refused =
    Moved-from seat s local space p _ _
      (refused_move has_keyboard views seat v s local space p (simp (shown, plain) refl)
        (refused_focus views seat v s p shown refused))
      (reach-Moved has_keyboard views seat v s
        (record p { local_position = local; space_position = space }))
