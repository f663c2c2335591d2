-- ===== src/Input/Keyboard/Keys.antt =====
-- The pressed keys, and what the clients hear of the repeat rate.
use aurora_compositor.Base.{
  ℕ, zero, suc, ◌≡◌, ◌≢◌, ◌≤◌, inl, inr, refl, ap, Bool, true, false, ◌&&◌, List, [], ◌∷◌, ◌++◌,
  arith, ◌==◌, ==_iff, length, Bool-cases, if◌then◌else◌,
}
use aurora_compositor.Input.Keyboard.{
  Keyboard, Resource, Modifiers, KeyEvent, send_repeat_info_to, remove_all, key_event,
  update_modifier_state, release_key, reset_loop, reset_keyboard_state, repeat_infos,
  set_repeat_rate, from_wayland_key, to_wayland_key,
}

length-remove_all : (v : ℕ) (xs : List ℕ) → length (remove_all v xs) ≤ length xs
length-remove_all v [] = ground arith
length-remove_all v (x ∷ xs) = ground (arith, length-remove_all v xs)

keys-update :
    (context : Bool) (mods : Modifiers) (k : Keyboard)
    → (update_modifier_state context mods k).0.keys ≡ k.keys
unfolding update_modifier_state
keys-update context mods k = ground arith

key_event-releases :
    (key : ℕ) (k : Keyboard)
    → (key_event (from_wayland_key key) false k).keys ≡ remove_all key k.keys
unfolding key_event from_wayland_key to_wayland_key
key_event-releases key k = ap (λ z. remove_all z k.keys) (omega arith)

remove_all-first : (key : ℕ) (keys : List ℕ) → length (remove_all key (key ∷ keys)) ≤ length keys
remove_all-first key keys = ground (arith, length-remove_all key keys, (==_iff key key).1 refl)

release_key-length :
    (context : Bool) (mods : ℕ → Modifiers → Modifiers) (key : ℕ) (keys : List ℕ) (k : Keyboard)
    → k.keys ≡ key ∷ keys
    → length (release_key context mods key k).0.keys ≤ length keys
unfolding release_key
release_key-length context mods key keys k e =
    rw
      (
        keys-update context (mods (from_wayland_key key) k.mods)
            (key_event (from_wayland_key key) false k),
        key_event-releases key k,
        e,
      )
      (remove_all-first key keys)

reset_loop-empties :
    (context : Bool) (mods : ℕ → Modifiers → Modifiers) (rounds : ℕ) (keys : List ℕ) (k : Keyboard)
    → k.keys ≡ keys
    → length keys ≤ rounds
    → (reset_loop context mods rounds keys k).0.keys ≡ []
unfolding reset_loop
reset_loop-empties context mods zero [] k e h = e
reset_loop-empties context mods zero (key ∷ keys) k e h = absurd (omega arith)
reset_loop-empties context mods (suc rounds) [] k e h = e
reset_loop-empties context mods (suc rounds) (key ∷ keys) k e h =
    let next = (release_key context mods key k).0 in
    let fewer = release_key-length context mods key keys k e in
    reset_loop-empties context mods rounds next.keys next refl (omega arith)

-- With an xkb context `resetKeyboardState` ends with no key pressed: there are at most as many rounds as
-- keys, since each round removes its key wherever it stands in the list, whatever xkbcommon makes of the
-- releases. Without a context the pressed keys stay.
pub reset_keyboard_state-empties :
    (context : Bool) (mods : ℕ → Modifiers → Modifiers) (k : Keyboard)
    → (reset_keyboard_state context mods k).0.keys ≡ (if context then [] else k.keys)
unfolding reset_keyboard_state
reset_keyboard_state-empties true mods k =
    reset_loop-empties true mods (length k.keys) k.keys k refl (omega arith)
reset_keyboard_state-empties false mods k = refl

abbrev pub tells_rate : ℕ → List KeyEvent → Bool
tells_rate n [] = true
tells_rate n (send_repeat_info_to r told delay ∷ es) = told == n && tells_rate n es
tells_rate n (other ∷ es) = tells_rate n es

repeat_infos-tells_rate :
    (rs : List Resource) (k : Keyboard) (xs : List KeyEvent)
    → tells_rate k.repeat_rate (repeat_infos rs k ++ xs) ≡ tells_rate k.repeat_rate xs
repeat_infos-tells_rate [] k xs = refl
repeat_infos-tells_rate (r ∷ rs) k xs =
    ground (arith, repeat_infos-tells_rate rs k xs, (==_iff k.repeat_rate k.repeat_rate).1 refl)

-- After `setRepeatRate` with another rate than before, the clients have been told the rate of before and
-- the keyboard has the new one.
set_repeat_rate-tells_old :
    (n : ℕ) (k : Keyboard)
    → k.repeat_rate ≢ n
    → (tells_rate k.repeat_rate (set_repeat_rate n k).1 ≡ true)
      × ((set_repeat_rate n k).0.repeat_rate ≡ n)
unfolding set_repeat_rate
set_repeat_rate-tells_old n k h = elim (Bool-cases (k.repeat_rate == n)) [
  | inl hit ↦ absurd (h ((==_iff _ _).0 hit))
  | inr miss ↦ simp miss (repeat_infos-tells_rate k.resources k _, refl)
]
