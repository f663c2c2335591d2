-- ===== src/Xdg/Popup/Parent.antt =====
-- The parent of a popup and the check of it at each redraw (setParentSurface, handleRedraw).
use aurora_compositor.Base.{ℕ, ◌≡◌, refl, ◌∙◌, true, List, [], ◌∷◌, none, some, arith}
use aurora_compositor.Xdg.Effect.{post_error, warning, invalid_popup_parent}
use aurora_compositor.Xdg.Positioner.{PositionerData}
use aurora_compositor.Xdg.Popup.{
  Popup, Call, configures, acks, parents, redraws, apply, apply_all, new_popup, send_configure,
  handle_ack_configure, set_parent_surface, handle_redraw,
}

-- The popup has a parent xdg_surface and no parent surface, and its redraws are checked.
record IsUnchecked (p : Popup) : Type 0 where
  xdg_parent : (x : ℕ) × (p.parent_xdg_surface ≡ some x)
  no_surface : p.parent_surface ≡ none
  awaits : p.awaits_redraw ≡ true

ack-parent :
    (serial : ℕ) (p : Popup)
    → let q = (handle_ack_configure serial p).0 in
      (q.parent_xdg_surface ≡ p.parent_xdg_surface)
      × (q.parent_surface ≡ p.parent_surface)
      × (q.awaits_redraw ≡ p.awaits_redraw)
unfolding handle_ack_configure
ack-parent serial p = ground arith

apply-IsUnchecked : (c : Call) (p : Popup) → IsUnchecked p → IsUnchecked (apply c p)
unfolding apply send_configure set_parent_surface handle_redraw
apply-IsUnchecked (configures serial g) p u = record {
  xdg_parent = u.xdg_parent;
  no_surface = u.no_surface;
  awaits = u.awaits;
}
apply-IsUnchecked (acks serial) p u =
    let (x, s, a) = ack-parent serial p in
    record {
      xdg_parent = (u.xdg_parent.0, x ∙ u.xdg_parent.1);
      no_surface = s ∙ u.no_surface;
      awaits = a ∙ u.awaits;
    }
apply-IsUnchecked (parents surface) p u = record {
  xdg_parent = (u.xdg_parent.0, ground (arith, u.xdg_parent.1));
  no_surface = ground (arith, u.xdg_parent.1);
  awaits = ground (arith, u.xdg_parent.1);
}
apply-IsUnchecked redraws p u = record {
  xdg_parent = (u.xdg_parent.0, ground (arith, u.xdg_parent.1));
  no_surface = ground arith;
  awaits = ground arith;
}

apply_all-IsUnchecked : (cs : List Call) (p : Popup) → IsUnchecked p → IsUnchecked (apply_all cs p)
unfolding apply_all
apply_all-IsUnchecked [] p u = u
apply_all-IsUnchecked (c ∷ cs) p u = apply_all-IsUnchecked cs (apply c p) (apply-IsUnchecked c p u)

redraw-IsUnchecked :
    (p : Popup) → IsUnchecked p → handle_redraw p ≡ (p, post_error invalid_popup_parent ∷ [])
unfolding handle_redraw
redraw-IsUnchecked p u = ground arith

-- A popup made with a parent xdg_surface posts an invalid-parent error at every redraw, whatever
-- configures, acknowledgements, redraws and attempts to set a parent surface come before.
pub xdg_parent_fails_redraw :
    (serial parent : ℕ) (d : PositionerData) (cs : List Call)
    → let p = apply_all cs (new_popup serial (some parent) d).0 in
      handle_redraw p ≡ (p, post_error invalid_popup_parent ∷ [])
unfolding new_popup
xdg_parent_fails_redraw serial parent d cs = redraw-IsUnchecked _ (
    apply_all-IsUnchecked cs _
      (record { xdg_parent = (parent, refl); no_surface = refl; awaits = refl }))

-- A popup made without a parent xdg_surface posts the error at a redraw until a parent surface is
-- set. With one set, the first redraw passes and ends the checks, and a second attempt to set a
-- parent surface changes nothing and is logged.
parent_surface_passes_redraw :
    (serial surface other : ℕ) (d : PositionerData)
    → let p = (new_popup serial none d).0 in
      let q = (set_parent_surface (some surface) p).0 in
      let r = (handle_redraw q).0 in
      (handle_redraw p ≡ (p, post_error invalid_popup_parent ∷ []))
      × (q.parent_surface ≡ some surface)
      × ((handle_redraw q).1 ≡ [])
      × (handle_redraw r ≡ (r, []))
      × (set_parent_surface (some other) q ≡ (q, warning ∷ []))
unfolding new_popup set_parent_surface handle_redraw
parent_surface_passes_redraw serial surface other d = (refl, refl, refl, refl, refl)
