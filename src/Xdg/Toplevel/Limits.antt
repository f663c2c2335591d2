-- ===== src/Xdg/Toplevel/Limits.antt =====
-- The limits of a window's size (set_min_size, set_max_size, sizeForResize).
use aurora_compositor.Base.{
  ℕ, ◌≡◌, refl, ◌⊎◌, inl, inr, Bool-cases, Bool, true, false, ◌&&◌, List, [], ◌∷◌, arith,
  if◌then◌else◌,
}
use aurora_compositor.Base.Int.{ℤ, pos, ltb_ℤ, ◌≤ℤ◌}
use aurora_compositor.Geometry.{Size, Edges, is_valid, eq_size}
use aurora_compositor.Xdg.Effect.{warning}
use aurora_compositor.Xdg.Toplevel.{
  Toplevel, Call, apply, configures, maximizes, unmaximizes, fullscreens, resizes, loses_focus,
  gains_focus, acks, titles, identifies, limits_max, limits_min, send_configure, send_maximized,
  send_unmaximized, send_fullscreen, send_resizing, handle_focus_lost, handle_focus_received,
  handle_ack_configure, set_title, set_app_id, set_max_size, set_min_size, is_smaller,
  size_for_resize, min_ℤ, max_ℤ,
}

-- It is not so that both limits are valid and the greatest is smaller in some dimension.
abbrev pub AreConsistent : Size → Size → Type 0
AreConsistent least greatest =
    (is_valid least && is_valid greatest && is_smaller greatest least) ≡ false

set_max_size-limits :
    (w h : ℤ) (t : Toplevel)
    → AreConsistent t.min_size t.max_size
    → AreConsistent (set_max_size w h t).0.min_size (set_max_size w h t).0.max_size
unfolding set_max_size
set_max_size-limits w h t k = ground arith

set_min_size-limits :
    (w h : ℤ) (t : Toplevel)
    → AreConsistent t.min_size t.max_size
    → AreConsistent (set_min_size w h t).0.min_size (set_min_size w h t).0.max_size
unfolding set_min_size
set_min_size-limits w h t k = ground arith

send_configure-limits :
    (serial : ℕ) (size : Size) (states : List ℕ) (t : Toplevel)
    → AreConsistent t.min_size t.max_size
    → let u = (send_configure serial size states t).0 in AreConsistent u.min_size u.max_size
unfolding send_configure
send_configure-limits serial size states t k = ground arith

focus-limits :
    (serial : ℕ) (t : Toplevel)
    → AreConsistent t.min_size t.max_size
    → let u = (handle_focus_received serial t).0 in AreConsistent u.min_size u.max_size
unfolding handle_focus_received send_configure
focus-limits serial t k = ground arith

ack-limits :
    (serial : ℕ) (t : Toplevel)
    → AreConsistent t.min_size t.max_size
    → let u = (handle_ack_configure serial t).0 in AreConsistent u.min_size u.max_size
unfolding handle_ack_configure
ack-limits serial t k = ground arith

-- Every call and every request keeps the limits of a window consistent: where both are valid, the
-- least width and height are at most the greatest.
apply-AreConsistent :
    (c : Call) (t : Toplevel)
    → AreConsistent t.min_size t.max_size
    → AreConsistent (apply c t).min_size (apply c t).max_size
unfolding apply send_maximized send_unmaximized send_fullscreen send_resizing handle_focus_lost
    set_title set_app_id
apply-AreConsistent (configures serial size states) t k =
    send_configure-limits serial size states t k
apply-AreConsistent (maximizes serial size) t k = send_configure-limits serial size _ t k
apply-AreConsistent (unmaximizes serial size) t k = send_configure-limits serial size _ t k
apply-AreConsistent (fullscreens serial size) t k = send_configure-limits serial size _ t k
apply-AreConsistent (resizes serial size) t k = send_configure-limits serial size _ t k
apply-AreConsistent (loses_focus serial) t k = send_configure-limits serial _ _ t k
apply-AreConsistent (gains_focus serial) t k = focus-limits serial t k
apply-AreConsistent (acks serial) t k = ack-limits serial t k
apply-AreConsistent (titles title) t k = ground arith
apply-AreConsistent (identifies app_id) t k = ground arith
apply-AreConsistent (limits_max w h) t k = set_max_size-limits w h t k
apply-AreConsistent (limits_min w h) t k = set_min_size-limits w h t k

-- A window with a least height refuses every greatest size of the height 0, which stands for no
-- limit on the height in the protocol: the request changes nothing and only a warning is logged.
set_max_size_zero_height :
    (w : ℤ) (t : Toplevel)
    → pos 1 ≤ℤ w
    → is_valid t.min_size ≡ true
    → ltb_ℤ (pos 0) t.min_size.height ≡ true
    → eq_size t.max_size (record { width = w; height = pos 0 }) ≡ false
    → set_max_size w (pos 0) t ≡ (t, warning ∷ [])
unfolding set_max_size
set_max_size_zero_height w t h v p n = ground arith

or_bounded {ℓ κ} : {A : Type ℓ} {B : Type κ} → A ⊎ B → A ⊎ ((◌≡◌ {A = Bool} true true) × B)
or_bounded (inl a) = inl a
or_bounded (inr b) = inr (refl, b)

-- One dimension of the size for a resize.
fit_bounded :
    (x least greatest : ℤ)
    → least ≤ℤ greatest
    → let s = min_ℤ (max_ℤ (max_ℤ x least) (pos 1)) greatest in
      (least ≤ℤ s) × (s ≤ℤ greatest) × ((pos 1 ≤ℤ s) ⊎ (greatest ≤ℤ pos 0))
fit_bounded x least greatest h = ground arith

fit_free : (x least : ℤ) → let s = max_ℤ (max_ℤ x least) (pos 1) in (least ≤ℤ s) × (pos 1 ≤ℤ s)
fit_free x least = ground arith

consistent_sizes :
    (s u : Size)
    → is_valid s ≡ true
    → is_valid u ≡ true
    → AreConsistent s u
    → (s.width ≤ℤ u.width) × (s.height ≤ℤ u.height)
consistent_sizes s u v w h = ground arith

module _ {Real : Type 0} (◌⊹◌ ◌∸◌ : Real → Real → Real) (to_int : Real → ℤ) where
  infixl 65 ◌⊹◌ ◌∸◌
  -- The size for an interactive resize is within the window's limits, where these are consistent: it
  -- is at least the least size, at most a valid greatest size, and at least one by one unless the
  -- greatest size is smaller than that.
  pub size_for_resize_limits :
      (width height dx dy : Real) (edges : Edges) (t : Toplevel)
      → is_valid t.min_size ≡ true
      → AreConsistent t.min_size t.max_size
      → let s = size_for_resize ◌⊹◌ ◌∸◌ to_int width height dx dy edges t in
        (t.min_size.width ≤ℤ s.width)
        × (t.min_size.height ≤ℤ s.height)
        × ((is_valid t.max_size ≡ false)
            ⊎ ((s.width ≤ℤ t.max_size.width) × (s.height ≤ℤ t.max_size.height)))
        × ((pos 1 ≤ℤ s.width) ⊎ ((is_valid t.max_size ≡ true) × (t.max_size.width ≤ℤ pos 0)))
        × ((pos 1 ≤ℤ s.height) ⊎ ((is_valid t.max_size ≡ true) × (t.max_size.height ≤ℤ pos 0)))
  unfolding size_for_resize
  size_for_resize_limits width height dx dy edges t v k =
      let w =
        to_int (if edges.left then width ∸ dx else if edges.right then width ⊹ dx else width) in
      let h =
        to_int (if edges.top then height ∸ dy else if edges.bottom then height ⊹ dy else height) in
      elim (Bool-cases (is_valid t.max_size)) [
        | inl e ↦
            let (p, q) = consistent_sizes t.min_size t.max_size v e k in
            let a = fit_bounded w t.min_size.width t.max_size.width p in
            let b = fit_bounded h t.min_size.height t.max_size.height q in
            rw e (a.0, b.0, inr (a.1, b.1), or_bounded a.2, or_bounded b.2)
        | inr e ↦
            let a = fit_free w t.min_size.width in
            let b = fit_free h t.min_size.height in rw e (a.0, b.0, inl refl, inl a.1, inl b.1)
      ]
