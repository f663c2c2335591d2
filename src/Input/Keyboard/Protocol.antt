-- ===== src/Input/Keyboard/Protocol.antt =====
-- The histories of a keyboard: what its clients see.
use aurora_compositor.Base.{
  ℕ, ◌≡◌, inl, inr, refl, ◌∙◌, Bool, true, false, ◌&&◌, List, [], ◌∷◌, ◌++◌, Option, none, some,
  arith, ◌==◌, ==_iff, leb, if◌then◌else◌, Bool-cases, Option-cases,
}
use aurora_compositor.Input.{Seat, set_exclusive_client}
use aurora_compositor.Input.Keyboard.{
  Keyboard, Resource, same_modifiers, Modifiers, KeyEvent, new_keyboard, resource_of, same, name_of,
  focused, add_client, destroy_resource, focus_destroyed, key_event, key_to, send_key_event,
  modifiers_to, update_modifier_state, repeat_infos, set_repeat_rate, set_repeat_delay,
}
use aurora_compositor.Input.Keyboard.Focus.{
  IsFocused, focused-sees, focused-IsFocused, sees, sees_rest, sees_all, sees_all-[],
  sees_all-append,
}
use aurora_compositor.Input.Keyboard.Binding.{add_client-IsFocused, destroy_resource-IsFocused}

pub data KeyCommand : Type 0 where
  reserve : Option ℕ → KeyCommand
  set_focus : Option ℕ → KeyCommand
  bind : Resource → KeyCommand
  release destroy_surface_of : ℕ → KeyCommand
  key : ℕ → Bool → KeyCommand
  modifiers : Bool → Modifiers → KeyCommand
  rate delay : ℕ → KeyCommand

unfoldable pub step : KeyCommand → Seat → Keyboard → Keyboard × List KeyEvent
unfolding focused add_client destroy_resource focus_destroyed key_event send_key_event
    update_modifier_state set_repeat_rate set_repeat_delay
step (reserve c) seat k = (k, [])
step (set_focus asked) seat k = focused seat asked k
step (bind r) seat k = add_client seat r k
step (release n) seat k = destroy_resource n k
step (destroy_surface_of s) seat k = if same k.focus (some s) then focus_destroyed k else (k, [])
step (key code pressed) seat k = (key_event code pressed k, send_key_event code pressed k)
step (modifiers context mods) seat k = update_modifier_state context mods k
step (rate n) seat k = set_repeat_rate n k
step (delay n) seat k = set_repeat_delay n k

abbrev pub seat_after : KeyCommand → Seat → Seat
seat_after (reserve c) seat = set_exclusive_client c seat
seat_after other seat = seat

unfoldable pub run : List KeyCommand → Seat → Keyboard → Keyboard × List KeyEvent
unfolding step
run [] seat k = (k, [])
run (c ∷ cs) seat k =
    let (k1, e1) = step c seat k in let (k2, e2) = run cs (seat_after c seat) k1 in (k2, e1 ++ e2)

abbrev pub is_absent : Option Resource → Bool
is_absent none = true
is_absent (some r) = false

-- A client that binds a keyboard has no other.
abbrev pub binds_first : KeyCommand → Keyboard → Bool
binds_first (bind r) k = is_absent (resource_of r.client k.resources)
binds_first other k = true

unfoldable pub bind_once : List KeyCommand → Seat → Keyboard → Bool
unfolding step
bind_once [] seat k = true
bind_once (c ∷ cs) seat k = binds_first c k && bind_once cs (seat_after c seat) (step c seat k).0

key_to-sees :
    (r : Option Resource) (code : ℕ) (pressed : Bool)
    → sees_all (key_to r code pressed) (name_of r) ≡ some (name_of r)
unfolding sees_all sees_rest sees
key_to-sees none code pressed = refl
key_to-sees (some r) code pressed = ground (arith, (==_iff r.name r.name).1 refl)

modifiers_to-sees :
    (r : Option Resource) (mods : Modifiers)
    → sees_all (modifiers_to r mods) (name_of r) ≡ some (name_of r)
unfolding sees_all sees_rest sees
modifiers_to-sees none mods = refl
modifiers_to-sees (some r) mods = refl

update-sees :
    (context : Bool) (mods : Modifiers) (k : Keyboard)
    → (sees_all (update_modifier_state context mods k).1 (name_of k.focus_resource)
        ≡ some (name_of (update_modifier_state context mods k).0.focus_resource))
unfolding update_modifier_state
update-sees false mods k = sees_all-[] _
update-sees true mods k = elim (Bool-cases (same_modifiers k.mods mods)) [
  | inl old ↦ simp old (sees_all-[] _)
  | inr new ↦ simp new (modifiers_to-sees k.focus_resource mods)
]

update-keeps :
    (context : Bool) (mods : Modifiers) (k : Keyboard) (seat : Seat)
    → IsFocused seat k
    → IsFocused seat (update_modifier_state context mods k).0
unfolding update_modifier_state
update-keeps false mods k seat h = h
update-keeps true mods k seat h = elim (Bool-cases (same_modifiers k.mods mods)) [
  | inl old ↦ simp old h
  | inr new ↦ simp new (record { on_surface = h.on_surface; newest = h.newest })
]

repeat_infos-unseen :
    (rs : List Resource) (k : Keyboard) (xs : List KeyEvent) (e : Option ℕ)
    → sees_all (repeat_infos rs k ++ xs) e ≡ sees_all xs e
unfolding sees_all sees_rest sees
repeat_infos-unseen [] k xs e = refl
repeat_infos-unseen (r ∷ rs) k xs e = elim (Bool-cases (leb 4 r.version)) [
  | inl tell ↦ simp tell (repeat_infos-unseen rs k xs e)
  | inr old ↦ simp old (repeat_infos-unseen rs k xs e)
]

-- What each command keeps.
abbrev Follows : KeyCommand → Seat → Keyboard → Type 0
Follows c seat k =
    (sees_all (step c seat k).1 (name_of k.focus_resource)
      ≡ some (name_of (step c seat k).0.focus_resource))
    × IsFocused (seat_after c seat) (step c seat k).0

destroy_surface-Follows :
    (s : ℕ) (seat : Seat) (k : Keyboard) → IsFocused seat k → Follows (destroy_surface_of s) seat k
unfolding step focus_destroyed sees_all sees_rest sees
destroy_surface-Follows s seat k h = elim (Bool-cases (same k.focus (some s))) [
  | inl held ↦
      simp held (refl, record { on_surface = λ r e. absurd (cc); newest = λ r e. absurd (cc) })
  | inr other ↦ simp other (refl, h)
]

rate-Follows :
    (n : ℕ) (seat : Seat) (k : Keyboard)
    → IsFocused seat k
    → Follows (rate n) seat k × Follows (delay n) seat k
unfolding step set_repeat_rate set_repeat_delay sees_all sees_rest sees
rate-Follows n seat k h = (
  elim (Bool-cases (k.repeat_rate == n)) [
    | inl old ↦ simp old (sees_all-[] _, h)
    | inr new ↦ simp new (
      repeat_infos-unseen k.resources k _ _,
      record { on_surface = h.on_surface; newest = h.newest },
    )
  ],
  elim (Bool-cases (k.repeat_delay == n)) [
    | inl old ↦ simp old (sees_all-[] _, h)
    | inr new ↦ simp new (
      repeat_infos-unseen k.resources k _ _,
      record { on_surface = h.on_surface; newest = h.newest },
    )
  ],
)

binds_first-none :
    (r : Resource) (k : Keyboard)
    → binds_first (bind r) k ≡ true
    → resource_of r.client k.resources ≡ none
binds_first-none r k h = elim (Option-cases (resource_of r.client k.resources)) [
  | inl e ↦ e
  | inr (old, e) ↦ absurd (cc (simp e at h))
]

step-Follows :
    (c : KeyCommand) (seat : Seat) (k : Keyboard)
    → IsFocused seat k
    → binds_first c k ≡ true
    → Follows c seat k
unfolding step set_exclusive_client key_event send_key_event
step-Follows (reserve x) seat k h w =
    (sees_all-[] _, record { on_surface = h.on_surface; newest = h.newest })
step-Follows (set_focus asked) seat k h w =
    (focused-sees seat asked k h, focused-IsFocused seat asked k h)
step-Follows (bind r) seat k h w = add_client-IsFocused seat r k h (binds_first-none r k w)
step-Follows (release n) seat k h w = destroy_resource-IsFocused seat n k h
step-Follows (destroy_surface_of s) seat k h w = destroy_surface-Follows s seat k h
step-Follows (key code pressed) seat k h w = (
  key_to-sees k.focus_resource _ pressed,
  record { on_surface = h.on_surface; newest = h.newest },
)
step-Follows (modifiers context mods) seat k h w =
    (update-sees context mods k, update-keeps context mods k seat h)
step-Follows (rate n) seat k h w = (rate-Follows n seat k h).0
step-Follows (delay n) seat k h w = (rate-Follows n seat k h).1

run_from :
    (cs : List KeyCommand) (seat : Seat) (k : Keyboard)
    → IsFocused seat k
    → bind_once cs seat k ≡ true
    → sees_all (run cs seat k).1 (name_of k.focus_resource)
      ≡ some (name_of (run cs seat k).0.focus_resource)
unfolding run bind_once
run_from [] seat k h w = sees_all-[] _
run_from (c ∷ cs) seat k h w =
    let (seen, next) = step-Follows c seat k h (ground arith) in
    sees_all-append (step c seat k).1 _ _ _ seen
    ∙ run_from cs (seat_after c seat) (step c seat k).0 next (ground arith)

-- In every history of a keyboard in which no client binds a second keyboard, the clients see enter,
-- leave and key events as the protocol allows, one keyboard entered at a time and keys only to that one,
-- and they end with the keyboard entered that the code records as the focus.
pub run-sees :
    (cs : List KeyCommand) (seat : Seat)
    → bind_once cs seat new_keyboard ≡ true
    → sees_all (run cs seat new_keyboard).1 none
      ≡ some (name_of (run cs seat new_keyboard).0.focus_resource)
run-sees cs seat w =
    run_from cs seat new_keyboard
      (record { on_surface = λ r e. absurd (cc); newest = λ r e. absurd (cc) }) w
