-- ===== src/Input/Devices/Following.antt =====
-- The devices follow the capabilities, and a keyboard that comes back gets the old focus.
use aurora_compositor.Base.{
  ℕ, ◌≡◌, refl, ap, ◌∙◌, inl, inr, Bool, true, false, not, List, [], ◌∷◌, Option, none, some,
  if◌then◌else◌, arith, Bool-cases,
}
use aurora_compositor.Input.{Seat, is_input_allowed}
use aurora_compositor.Input.Keyboard.{Keyboard, new_keyboard, focused, same}
use aurora_compositor.Input.Devices.{
  Devices, Capabilities, xor, eq_capabilities, is_there, other_keyboard, set_focus, restore_focus,
  set_capabilities, focus_of, is_refused, set_keyboard_focus, forget_surface, surface_destroyed,
  initialize,
}

-- There are the devices that the capabilities name.
abbrev pub Follows : Devices → Type 0
Follows d =
    (d.pointer ≡ d.capabilities.pointer)
    × (is_there d.keyboard ≡ d.capabilities.keyboard)
    × (d.touch ≡ d.capabilities.touch)

pub data SeatCommand : Type 0 where
  change : Capabilities → SeatCommand
  move_focus : (ℕ → Bool) → Option ℕ → SeatCommand
  destroy : ℕ → SeatCommand

unfoldable pub step : SeatCommand → Devices → Devices
unfolding set_capabilities set_keyboard_focus surface_destroyed
step (change caps) d = (set_capabilities caps d).0
step (move_focus destroyed surface) d = (set_keyboard_focus destroyed surface d).1
step (destroy s) d = surface_destroyed s d

unfoldable pub run : List SeatCommand → Devices → Devices
unfolding step
run [] d = d
run (c ∷ cs) d = run cs (step c d)

set_focus-there :
    (seat : Seat) (surface : Option ℕ) (k : Option Keyboard)
    → is_there (set_focus seat surface k).0 ≡ is_there k
unfolding set_focus
set_focus-there seat surface none = refl
set_focus-there seat surface (some k) = refl

restore_focus-there :
    (seat : Seat) (wanted : Bool) (surface : Option ℕ) (k : Option Keyboard)
    → is_there (restore_focus seat wanted surface k).0 ≡ is_there k
restore_focus-there seat wanted none k = refl
restore_focus-there seat true (some s) k = set_focus-there seat (some s) k
restore_focus-there seat false (some s) k = refl

xor_follows : (device c old : Bool) → device ≡ old → xor device (xor c old) ≡ c
xor_follows true true true h = refl
xor_follows true false true h = refl
xor_follows false true false h = refl
xor_follows false false false h = refl
xor_follows true c false h = absurd (cc)
xor_follows false c true h = absurd (cc)

toggled_there :
    (k : Option Keyboard) (c old : Bool)
    → is_there k ≡ old
    → is_there (if xor c old then other_keyboard k else k) ≡ c
toggled_there none c old h = ground arith
toggled_there (some k) c old h = ground arith

forget_surface-there : (s : ℕ) (k : Option Keyboard) → is_there (forget_surface s k) ≡ is_there k
forget_surface-there s none = refl
forget_surface-there s (some k) = ground arith

change-Follows :
    (caps : Capabilities) (d : Devices) → Follows d → Follows (set_capabilities caps d).0
unfolding set_capabilities
change-Follows caps d (pointer, keyboard, touch) =
    elim (Bool-cases (eq_capabilities d.capabilities caps)) [
      | inl old ↦ simp old (pointer, keyboard, touch)
      | inr new ↦ simp new (
        xor_follows d.pointer caps.pointer d.capabilities.pointer pointer,
        restore_focus-there d.seat _ d.keyboard_focus _
            ∙ toggled_there d.keyboard caps.keyboard d.capabilities.keyboard keyboard,
        xor_follows d.touch caps.touch d.capabilities.touch touch,
      )
    ]

move-Follows :
    (destroyed : ℕ → Bool) (surface : Option ℕ) (d : Devices)
    → Follows d
    → Follows (set_keyboard_focus destroyed surface d).1
unfolding set_keyboard_focus
move-Follows destroyed surface d h = elim (Bool-cases (is_refused d.seat destroyed surface)) [
  | inl refused ↦ simp refused h
  | inr free ↦ elim (Bool-cases (same surface (focus_of d.keyboard))) [
    | inl old ↦ simp (free, old) h
    | inr new ↦ simp (free, new) (h.0, set_focus-there d.seat surface d.keyboard ∙ h.1, h.2)
  ]
]

step-Follows : (c : SeatCommand) (d : Devices) → Follows d → Follows (step c d)
unfolding step surface_destroyed
step-Follows (change caps) d h = change-Follows caps d h
step-Follows (move_focus destroyed surface) d h = move-Follows destroyed surface d h
step-Follows (destroy s) d h = (h.0, forget_surface-there s d.keyboard ∙ h.1, h.2)

there_if :
    (c : Bool) (k : Option Keyboard) → k ≡ none → is_there (if c then some new_keyboard else k) ≡ c
there_if true k h = refl
there_if false k h = ap is_there h

run_from : (cs : List SeatCommand) (d : Devices) → Follows d → Follows (run cs d)
unfolding run
run_from [] d h = h
run_from (c ∷ cs) d h = run_from cs (step c d) (step-Follows c d h)

-- After `initialize` of a seat without devices, and after any changes of its capabilities and of its
-- keyboard focus and any destroyed surfaces, there are exactly the devices that the capabilities name.
pub run-Follows :
    (cs : List SeatCommand) (d : Devices)
    → d.pointer ≡ false
    → d.keyboard ≡ none
    → d.touch ≡ false
    → Follows (run cs (initialize d))
unfolding initialize
run-Follows cs d pointer keyboard touch =
    run_from cs (initialize d)
      (ground arith, there_if d.capabilities.keyboard d.keyboard keyboard, ground arith)

changed_keyboard :
    (caps : Capabilities) (d : Devices)
    → xor caps.keyboard d.capabilities.keyboard ≡ true
    → (set_capabilities caps d).0.keyboard
      ≡ (restore_focus d.seat caps.keyboard d.keyboard_focus (other_keyboard d.keyboard)).0
unfolding set_capabilities
changed_keyboard caps d new =
    let differ : eq_capabilities d.capabilities caps ≡ false = ground arith in
    simp (differ, new) refl

abbrev pub without_keyboard : Capabilities → Capabilities
without_keyboard caps = record caps { keyboard = false }

abbrev pub with_keyboard : Capabilities → Capabilities
with_keyboard caps = record caps { keyboard = true }

new_keyboard-focused :
    (seat : Seat) (s : ℕ)
    → is_input_allowed (some s) seat ≡ true
    → seat.is_cursor_surface s ≡ false
    → focus_of (set_focus seat (some s) (some new_keyboard)).0 ≡ some s
unfolding set_focus focused is_input_allowed
new_keyboard-focused seat s allowed plain = simp (allowed, plain) refl

changed_rest :
    (caps : Capabilities) (d : Devices)
    → xor caps.keyboard d.capabilities.keyboard ≡ true
    → let e = (set_capabilities caps d).0 in
      (e.capabilities ≡ caps) × (e.seat ≡ d.seat) × (e.keyboard_focus ≡ d.keyboard_focus)
unfolding set_capabilities
changed_rest caps d new =
    let differ : eq_capabilities d.capabilities caps ≡ false = ground arith in
    simp differ (refl, refl, refl)

restore_nothing :
    (seat : Seat) (f : Option ℕ) (k : Option Keyboard) → (restore_focus seat false f k).0 ≡ k
restore_nothing seat none k = refl
restore_nothing seat (some s) k = refl

other_none : (k : Option Keyboard) → is_there k ≡ true → other_keyboard k ≡ none
other_none none h = absurd (cc)
other_none (some k) h = refl

comes_back :
    (s : ℕ) (seat : Seat) (caps : Capabilities) (e : Devices)
    → e.keyboard ≡ none
    → e.capabilities.keyboard ≡ false
    → e.keyboard_focus ≡ some s
    → e.seat ≡ seat
    → caps.keyboard ≡ true
    → is_input_allowed (some s) seat ≡ true
    → seat.is_cursor_surface s ≡ false
    → focus_of (set_capabilities caps e).0.keyboard ≡ some s
comes_back s seat caps e gone off focus same_seat on allowed plain =
    ap focus_of (
      changed_keyboard caps e (ap (λ b. xor b e.capabilities.keyboard) on ∙ ap not off)
      ∙ (ap (λ b. (restore_focus e.seat b e.keyboard_focus (other_keyboard e.keyboard)).0) on
          ∙ (ap (λ f. (restore_focus e.seat true f (other_keyboard e.keyboard)).0) focus
              ∙ (ap (λ k. (set_focus e.seat (some s) (other_keyboard k)).0) gone
                  ∙ ap (λ t. (set_focus t (some s) (some new_keyboard)).0) same_seat))))
    ∙ new_keyboard-focused seat s allowed plain

-- If the surface that `setKeyboardFocus` moved the focus to last is destroyed, the keyboard that is made
-- when the capability goes and comes back gets the focus on the destroyed surface, provided that input
-- to it was allowed and it was no cursor.
pub destroyed_focus_returns :
    (s : ℕ) (d : Devices)
    → is_there d.keyboard ≡ true
    → d.capabilities.keyboard ≡ true
    → d.keyboard_focus ≡ some s
    → is_input_allowed (some s) d.seat ≡ true
    → d.seat.is_cursor_surface s ≡ false
    → let caps = d.capabilities in
      focus_of
        (run
          (destroy s ∷ change (without_keyboard caps) ∷ change (with_keyboard caps) ∷ [])
          d).keyboard
      ≡ some s
unfolding run step surface_destroyed
destroyed_focus_returns s d held has focus allowed plain =
    let d1 = surface_destroyed s d in
    let off = without_keyboard d.capabilities in
    let (caps, same_seat, same_focus) = changed_rest off d1 has in
    comes_back s d.seat (with_keyboard d.capabilities) (set_capabilities off d1).0
      (changed_keyboard off d1 has
        ∙ (restore_nothing d.seat d.keyboard_focus _
            ∙ other_none d1.keyboard (forget_surface-there s d.keyboard ∙ held)))
      (ap (λ c. c.keyboard) caps) (same_focus ∙ focus) same_seat refl allowed plain
