-- ===== src/Input/Keyboard/Binding.antt =====
-- Keyboard resources that clients bind and destroy while the keyboard has a focus.
use aurora_compositor.Base.{
  ℕ, ◌≡◌, sym, ◌≢◌, inl, inr, refl, ap, ◌∙◌, true, false, List, [], ◌∷◌, ◌++◌, Option, none, some,
  arith, ◌==◌, ==_iff, leb, Bool-cases, Option-cases,
}
use mathlib.Core.Option.{some-injective}
use aurora_compositor.Input.{Seat}
use aurora_compositor.Input.Keyboard.{
  Keyboard, Resource, KeyEvent, send_keymap, resource_of, same, name_of, send_enter_to,
  check_focus_resource, repeat_info, add_client, remove_resource, destroy_resource, check_surface,
}
use aurora_compositor.Input.Keyboard.Focus.{IsFocused, sees, sees_rest, sees_all}

resource_of-remove :
    (n c : ℕ) (rs : List Resource) (r : Resource)
    → resource_of c rs ≡ some r
    → r.name ≢ n
    → resource_of c (remove_resource n rs) ≡ some r
resource_of-remove n c [] r h k = absurd (cc)
resource_of-remove n c (x ∷ rs) r h k = ground (arith, resource_of-remove n c rs r)

repeat_info-unseen :
    (r : Resource) (k : Keyboard) (xs : List KeyEvent) (e : Option ℕ)
    → sees_all (repeat_info r k ++ (send_keymap r.name ∷ xs)) e ≡ sees_all xs e
unfolding sees_all sees_rest sees
repeat_info-unseen r k xs e = elim (Bool-cases (leb 4 r.version)) [
  | inl old ↦ simp old refl
  | inr new ↦ simp new refl
]

-- A resource that the client binds while another client has the focus.
check_surface-sees :
    (seat : Seat) (f : Option ℕ) (r : Resource) (k : Keyboard)
    → ((old : Resource)
        → k.focus_resource ≡ some old
        → (x : ℕ) → f ≡ some x
        → seat.wayland_client x ≢ r.client)
    → (sees_all (check_surface seat f r k).1 (name_of k.focus_resource)
        ≡ some (name_of (check_surface seat f r k).0.focus_resource))
unfolding send_enter_to sees_all sees_rest sees
check_surface-sees seat none r k h = refl
check_surface-sees seat (some x) r k h =
    elim (Bool-cases (same (name_of k.focus_resource) (some r.name))) [
      | inl own ↦ simp own refl
      | inr other ↦ elim (Bool-cases (seat.wayland_client x == r.client)) [
        | inl hit ↦ elim (Option-cases k.focus_resource) [
          | inl e ↦ simp (hit, e) refl
          | inr (old, e) ↦ absurd (h old e x refl ((==_iff _ _).0 hit))
        ]
        | inr miss ↦ simp (other, miss) refl
      ]
    ]

check_surface-IsFocused :
    (seat : Seat) (f : Option ℕ) (r : Resource) (k : Keyboard)
    → k.focus ≡ f
    → resource_of r.client k.resources ≡ some r
    → IsFocused seat k
    → IsFocused seat (check_surface seat f r k).0
check_surface-IsFocused seat none r k at bound h = h
check_surface-IsFocused seat (some x) r k at bound h =
    elim (Bool-cases (same (name_of k.focus_resource) (some r.name))) [
      | inl own ↦ simp own h
      | inr other ↦ elim (Bool-cases (seat.wayland_client x == r.client)) [
        | inl hit ↦
            simp (other, hit)
              (record {
                on_surface =
                    λ r2 e. (x, at, (==_iff _ _).0 hit ∙ ap (λ z. z.client) (some-injective _ _ e));
                newest = λ r2 e.
                    ap (λ z. resource_of z.client k.resources) (sym (some-injective _ _ e))
                    ∙ (bound ∙ e);
              })
        | inr miss ↦ simp (other, miss) h
      ]
    ]

older-differs :
    (r old : Resource) (rs : List Resource)
    → resource_of r.client rs ≡ none
    → resource_of old.client rs ≡ some old
    → old.client ≢ r.client
older-differs r old rs fresh held e =
    let clash : none ≡ some old = sym fresh ∙ (ap (λ c. resource_of c rs) (sym e) ∙ held) in
    absurd (cc)

resource_of-older :
    (r old : Resource) (rs : List Resource)
    → resource_of r.client rs ≡ none
    → resource_of old.client rs ≡ some old
    → resource_of old.client (r ∷ rs) ≡ some old
resource_of-older r old rs fresh held = elim (Bool-cases (r.client == old.client)) [
  | inl hit ↦ absurd (older-differs r old rs fresh held (sym ((==_iff _ _).0 hit)))
  | inr miss ↦ simp miss held
]

bound-IsFocused :
    (seat : Seat) (r : Resource) (k : Keyboard)
    → IsFocused seat k
    → resource_of r.client k.resources ≡ none
    → IsFocused seat (record k { resources = r ∷ k.resources })
bound-IsFocused seat r k h fresh = record {
  on_surface = h.on_surface;
  newest = λ old held. resource_of-older r old k.resources fresh (h.newest old held);
}

bound-resource : (r : Resource) (rs : List Resource) → resource_of r.client (r ∷ rs) ≡ some r
bound-resource r rs = simp ((==_iff r.client r.client).1 refl) refl

pub add_client-IsFocused :
    (seat : Seat) (r : Resource) (k : Keyboard)
    → IsFocused seat k
    → resource_of r.client k.resources ≡ none
    → (sees_all (add_client seat r k).1 (name_of k.focus_resource)
        ≡ some (name_of (add_client seat r k).0.focus_resource))
      × IsFocused seat (add_client seat r k).0
unfolding add_client check_focus_resource
add_client-IsFocused seat r k h fresh =
    let added : Keyboard = record k { resources = r ∷ k.resources } in
    (
      repeat_info-unseen r k _ _
          ∙ check_surface-sees seat k.focus r added (λ old held.
            let w = h.on_surface old held in
            λ x at e.
              older-differs r old k.resources fresh (h.newest old held)
                (sym w.2 ∙ (ap seat.wayland_client (some-injective _ _ (sym w.1 ∙ at)) ∙ e))),
      check_surface-IsFocused seat k.focus r added refl (bound-resource r k.resources)
          (bound-IsFocused seat r k h fresh),
    )

pub destroy_resource-IsFocused :
    (seat : Seat) (n : ℕ) (k : Keyboard)
    → IsFocused seat k
    → (sees_all (destroy_resource n k).1 (name_of k.focus_resource)
        ≡ some (name_of (destroy_resource n k).0.focus_resource))
      × IsFocused seat (destroy_resource n k).0
unfolding destroy_resource sees_all sees_rest sees
destroy_resource-IsFocused seat n k h =
    elim (Bool-cases (same (name_of k.focus_resource) (some n))) [
      | inl held ↦
          simp held (refl, record { on_surface = λ r e. absurd (cc); newest = λ r e. absurd (cc) })
      | inr other ↦ simp other (
        refl,
        record {
          on_surface = h.on_surface;
          newest = λ r e. resource_of-remove n r.client k.resources r (h.newest r e) (λ same_name.
              let hit : same (name_of k.focus_resource) (some n) ≡ true =
                ap (λ o. same (name_of o) (some n)) e ∙ (==_iff r.name n).1 same_name in
              let clash : true ≡ false = sym hit ∙ other in absurd (cc));
        },
      )
    ]
