-- ===== src/Input/Keyboard/Focus.antt =====
-- The enter and leave events that the clients see.
use aurora_compositor.Base.{
  ℕ, ◌≡◌, sym, inl, inr, refl, ap, ◌∙◌, true, false, not, ◌||◌, List, [], ◌∷◌, ◌++◌, Option, none,
  some, arith, ◌==◌, ==_iff, if◌then◌else◌, Bool-cases,
}
use aurora_compositor.Input.{Seat, is_input_allowed}
use aurora_compositor.Input.Keyboard.{
  Keyboard, Resource, KeyEvent, send_enter, send_leave, send_key, resource_gone, surface_gone,
  focus_changed, resource_of, same, name_of, send_enter_to, leave_events, enter_events,
  without_cursor, resource_for, focused,
}

-- The resource that has the focus for the clients, after an event; `none` outside if the event breaks
-- the protocol: an enter without a leave before it, or a leave or a key without an enter.
unfoldable pub sees : KeyEvent → Option ℕ → Option (Option ℕ)
sees (send_enter r surface keys) none = some (some r)
sees (send_enter r surface keys) (some x) = none
sees (send_leave r surface) none = none
sees (send_leave r surface) (some x) = if x == r then some none else none
sees (send_key r key pressed) none = none
sees (send_key r key pressed) (some x) = if x == r then some (some x) else none
sees (resource_gone r) e = some (if same e (some r) then none else e)
sees surface_gone e = some none
sees other e = some e

unfoldable pub sees_rest : List KeyEvent → Option (Option ℕ) → Option (Option ℕ)
sees_rest xs none = none
sees_rest [] (some e) = some e
sees_rest (x ∷ xs) (some e) = sees_rest xs (sees x e)

unfoldable pub sees_all : List KeyEvent → Option ℕ → Option (Option ℕ)
unfolding sees_rest
sees_all xs e = sees_rest xs (some e)

-- Only a surface of the client of the resource has the focus, and the resource is the client's newest.
pub record IsFocused (seat : Seat) (k : Keyboard) : Type 0 where
  pub on_surface :
      (r : Resource)
      → k.focus_resource ≡ some r
      → (s : ℕ) × (k.focus ≡ some s) × (seat.wayland_client s ≡ r.client)
  pub newest :
      (r : Resource) → k.focus_resource ≡ some r → resource_of r.client k.resources ≡ some r

sees_rest-append :
    (xs ys : List KeyEvent) (o : Option (Option ℕ)) (e2 : Option ℕ)
    → sees_rest xs o ≡ some e2
    → sees_rest (xs ++ ys) o ≡ sees_all ys e2
unfolding sees_all sees_rest
sees_rest-append xs ys none e2 h = absurd (cc)
sees_rest-append [] ys (some e) e2 h = rw h refl
sees_rest-append (x ∷ xs) ys (some e) e2 h = sees_rest-append xs ys (sees x e) e2 h

pub sees_all-[] : (e : Option ℕ) → sees_all [] e ≡ some e
unfolding sees_all sees_rest
sees_all-[] e = refl

pub sees_all-append :
    (xs ys : List KeyEvent) (e e2 : Option ℕ)
    → sees_all xs e ≡ some e2
    → sees_all (xs ++ ys) e ≡ sees_all ys e2
unfolding sees_all sees_rest
sees_all-append xs ys e e2 h = sees_rest-append xs ys (some e) e2 h

resource_of-client :
    (c : ℕ) (rs : List Resource) (r : Resource) → resource_of c rs ≡ some r → r.client ≡ c
resource_of-client c [] r h = absurd (cc)
resource_of-client c (x ∷ rs) r h = ground (arith, resource_of-client c rs r, ==_iff x.client c)

pub same_sound : (a b : Option ℕ) → same a b ≡ true → a ≡ b
same_sound none none h = refl
same_sound none (some b) h = absurd (cc)
same_sound (some a) none h = absurd (cc)
same_sound (some a) (some b) h = ap some ((==_iff a b).0 h)

pub same_refl : (a : Option ℕ) → same a a ≡ true
same_refl none = refl
same_refl (some a) = (==_iff a a).1 refl

leave_events-sees :
    (holder : Option Resource) (f : Option ℕ)
    → ((r : Resource) → holder ≡ some r → (s : ℕ) × (f ≡ some s))
    → sees_all (leave_events holder f) (name_of holder) ≡ some none
unfolding sees_all sees_rest sees
leave_events-sees none f h = refl
leave_events-sees (some r) none h = let w = h r refl in absurd (cc)
leave_events-sees (some r) (some s) h = ground (arith, (==_iff r.name r.name).1 refl)

resource_for_sound :
    (seat : Seat) (s : Option ℕ) (k : Keyboard) (r : Resource)
    → resource_for seat s k ≡ some r
    → (x : ℕ) × (s ≡ some x) × (seat.wayland_client x ≡ r.client)
resource_for_sound seat none k r h = absurd (cc)
resource_for_sound seat (some x) k r h =
    (x, refl, sym (resource_of-client (seat.wayland_client x) k.resources r h))

resource_for-newest :
    (seat : Seat) (s : Option ℕ) (k : Keyboard) (r : Resource)
    → resource_for seat s k ≡ some r
    → resource_of r.client k.resources ≡ some r
resource_for-newest seat none k r h = absurd (cc)
resource_for-newest seat (some x) k r h =
    ap (λ c. resource_of c k.resources) (resource_of-client _ _ r h) ∙ h

enter_events-sees :
    (seat : Seat) (s : Option ℕ) (k : Keyboard) (found : Option Resource)
    → found ≡ resource_for seat s k
    → sees_all (enter_events found s k) none ≡ some (name_of found)
unfolding sees_all sees_rest sees send_enter_to
enter_events-sees seat s k none h = refl
enter_events-sees seat none k (some r) h = absurd (cc)
enter_events-sees seat (some x) k (some r) h = refl

stayed-sees :
    (seat : Seat) (s : Option ℕ) (k : Keyboard) (holder found : Option Resource)
    → found ≡ resource_for seat s k
    → ((r : Resource) → holder ≡ some r → found ≡ some r)
    → sees_all
        ((if false || not (same (name_of holder) (name_of found))
            then enter_events found s k
            else [])
          ++ focus_changed s ∷ [])
        (name_of holder)
      ≡ some (name_of found)
unfolding sees_all sees_rest sees
stayed-sees seat s k none none e h = refl
stayed-sees seat s k none (some r) e h =
    sees_all-append (enter_events (some r) s k) _ none (some r.name)
      (enter_events-sees seat s k _ e)
stayed-sees seat s k (some r) found e h = rw (h r refl, same_refl (some r.name)) refl

moved-sees :
    (seat : Seat) (s : Option ℕ) (k : Keyboard) (holder found : Option Resource)
    → found ≡ resource_for seat s k
    → ((r : Resource) → holder ≡ some r → (x : ℕ) × (k.focus ≡ some x))
    → sees_all
        (leave_events holder k.focus ++ (enter_events found s k ++ focus_changed s ∷ []))
        (name_of holder)
      ≡ some (name_of found)
unfolding sees_all sees_rest sees
moved-sees seat s k holder found e h =
    sees_all-append (leave_events holder k.focus) _ _ _ (leave_events-sees holder k.focus h)
    ∙ sees_all-append (enter_events found s k) _ _ _ (enter_events-sees seat s k found e)

found_again :
    (seat : Seat) (s : Option ℕ) (k : Keyboard)
    → IsFocused seat k
    → k.focus ≡ s
    → (r : Resource) → k.focus_resource ≡ some r
    → resource_for seat s k ≡ some r
found_again seat s k h e r held =
    let (x, at, same_client) = h.on_surface r held in
    ap (λ t. resource_for seat t k) (sym e ∙ at)
    ∙ (ap (λ c. resource_of c k.resources) same_client ∙ h.newest r held)

pub focused-sees :
    (seat : Seat) (asked : Option ℕ) (k : Keyboard)
    → IsFocused seat k
    → sees_all (focused seat asked k).1 (name_of k.focus_resource)
      ≡ some (name_of (focused seat asked k).0.focus_resource)
unfolding focused
focused-sees seat asked k h =
    let s = without_cursor seat asked in
    elim (Bool-cases (is_input_allowed asked seat)) [
      | inl allowed ↦ elim (Bool-cases (same k.focus s)) [
        | inl stay ↦
            simp (allowed, stay)
              (stayed-sees seat s k k.focus_resource (resource_for seat s k) refl
                (found_again seat s k h (same_sound k.focus s stay)))
        | inr moved ↦
            simp (allowed, moved)
              (moved-sees seat s k k.focus_resource (resource_for seat s k) refl
                (λ r held. let w = h.on_surface r held in (w.0, w.1)))
      ]
      | inr refused ↦ simp refused (sees_all-[] _)
    ]

pub focused-IsFocused :
    (seat : Seat) (asked : Option ℕ) (k : Keyboard)
    → IsFocused seat k
    → IsFocused seat (focused seat asked k).0
unfolding focused
focused-IsFocused seat asked k h = elim (Bool-cases (is_input_allowed asked seat)) [
  | inl allowed ↦
      let s = without_cursor seat asked in
      simp allowed
        (record { on_surface = resource_for_sound seat s k; newest = resource_for-newest seat s k })
  | inr refused ↦ simp refused h
]
