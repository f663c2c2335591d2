-- ===== src/Xdg/Popup/Acks.antt =====
-- The configures of a popup and the geometry that the client acknowledged.
use aurora_compositor.Base.{
  ℕ, ◌≡◌, ◌≢◌, ◌⊎◌, inl, inr, refl, ap, List, [], ◌∷◌, ◌++◌, none, some, arith, ◌==◌, ==_iff, All,
  Bool-cases,
}
use aurora_compositor.Geometry.{eq_rect, eq_rect_iff}
use aurora_compositor.Xdg.Effect.{warning, emit, configured_geometry_changed}
use aurora_compositor.Xdg.Popup.{Popup, ConfigureEvent, take_acked, handle_ack_configure}

pub data Splits (serial : ℕ) (cs : List ConfigureEvent) (c : ConfigureEvent)
    (rest : List ConfigureEvent) : Type 0 where
  splits :
      (older : List ConfigureEvent)
      → cs ≡ older ++ c ∷ rest
      → c.serial ≡ serial
      → All (λ d. d.serial ≢ serial) older
      → Splits serial cs c rest

take_acked-Splits :
    (serial : ℕ) (cs : List ConfigureEvent)
    → ((take_acked serial cs ≡ none) × All (λ d. d.serial ≢ serial) cs)
      ⊎ ((c : ConfigureEvent) × (rest : List ConfigureEvent) × (take_acked serial cs
            ≡ some (c, rest))
          × Splits serial cs c rest)
unfolding take_acked
take_acked-Splits serial [] = inl (refl, tt)
take_acked-Splits serial (x ∷ cs) = elim (Bool-cases (x.serial == serial)) [
  | inl hit ↦ inr (x, cs, rw hit, splits [] refl ((==_iff _ _).0 hit) tt)
  | inr miss ↦ elim (take_acked-Splits serial cs) [
    | inl (e, w) ↦ inl (rw miss e, (ground arith, w))
    | inr (c, rest, e, splits older split same w) ↦
        inr (c, rest, rw miss e, splits (x ∷ older) (ap (◌∷◌ x) split) same (ground arith, w))
  ]
]

known :
    (serial : ℕ) (p : Popup) (c : ConfigureEvent) (rest : List ConfigureEvent)
    → take_acked serial p.pending_configures ≡ some (c, rest)
    → ((handle_ack_configure serial p).0
        ≡ record p { pending_configures = rest; geometry = c.geometry })
      × (((p.geometry ≡ c.geometry) × ((handle_ack_configure serial p).1 ≡ []))
          ⊎ ((p.geometry ≢ c.geometry)
              × ((handle_ack_configure serial p).1 ≡ emit configured_geometry_changed ∷ [])))
unfolding handle_ack_configure
known serial p c rest e = elim (Bool-cases (eq_rect p.geometry c.geometry)) [
  | inl same ↦
      let q = (eq_rect_iff p.geometry c.geometry).0 same in
      rw (e, handle_ack_configure) (rw same (rw (← q) refl, inl (q, refl)))
  | inr other ↦
      rw (e, handle_ack_configure)
        (rw other
          (refl, inr ((λ q. ground (arith, (eq_rect_iff p.geometry c.geometry).1 q)), refl)))
]

-- Acknowledging a waiting configure makes its rectangle the geometry of the popup and takes it and
-- all before it off the queue, and the change of the geometry is signalled exactly if it is one.
-- Any other serial empties the queue, keeps the geometry and logs a warning.
pub ack_popup_configure :
    (serial : ℕ) (p : Popup)
    → ((c : ConfigureEvent) × (rest : List ConfigureEvent) × Splits serial p.pending_configures c
          rest
        × ((handle_ack_configure serial p).0
            ≡ record p { pending_configures = rest; geometry = c.geometry })
        × (((p.geometry ≡ c.geometry) × ((handle_ack_configure serial p).1 ≡ []))
            ⊎ ((p.geometry ≢ c.geometry)
                × ((handle_ack_configure serial p).1 ≡ emit configured_geometry_changed ∷ []))))
      ⊎ (All (λ d. d.serial ≢ serial) p.pending_configures
          × (handle_ack_configure serial p ≡ (record p { pending_configures = [] }, warning ∷ [])))
unfolding handle_ack_configure
ack_popup_configure serial p = elim (take_acked-Splits serial p.pending_configures) [
  | inl (e, w) ↦ inr (w, rw (e, handle_ack_configure))
  | inr (c, rest, e, s) ↦ let (kept, log) = known serial p c rest e in inl (c, rest, s, kept, log)
]
