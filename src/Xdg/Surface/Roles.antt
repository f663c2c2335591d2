-- ===== src/Xdg/Surface/Roles.antt =====
-- The role of a surface and the role objects of the xdg_surfaces on it (setRole, get_toplevel,
-- get_popup).
use aurora_compositor.Base.{
  ℕ, ◌≡◌, ◌⊎◌, inl, inr, refl, Bool, true, false, not, ◌&&◌, List, [], ◌∷◌, Option, none, some,
  arith, Bool-cases,
}
use aurora_compositor.Geometry.{Rect}
use aurora_compositor.Xdg.Effect.{
  Effect, Error, post_error, role, already_constructed, invalid_popup_parent, invalid_positioner,
}
use aurora_compositor.Xdg.Toplevel.{new_toplevel, send_configure}
use aurora_compositor.Xdg.Popup.{new_popup}
use aurora_compositor.Xdg.Positioner.{PositionerData, is_complete}
use aurora_compositor.Xdg.Surface.{
  Role, xdg_toplevel, xdg_popup, WlSurface, XdgSurface, Request, gets_toplevel, gets_popup, acks,
  sets_window_geometry, gains_focus, loses_focus, handle, set_role, set_window_type, get_toplevel,
  get_popup, ack_configure, set_window_geometry, handle_focus_received, handle_focus_lost, is_some,
  is_constructed, allows, eq_role, parent_popup,
}

-- The surface has the role.
abbrev pub has_role : Option Role → Role → Bool
has_role none r = false
has_role (some s) r = eq_role s r

-- The role object of an xdg_surface is of the kind that the surface's role names.
pub record IsRoled (s : WlSurface) (x : XdgSurface) : Type 0 where
  pub of_toplevel : (is_some x.toplevel && not (has_role s.role xdg_toplevel)) ≡ false
  pub of_popup : (is_some x.popup && not (has_role s.role xdg_popup)) ≡ false

abbrev pub complete : Option PositionerData → Bool
complete none = false
complete (some d) = is_complete d

-- The errors of a log.
abbrev pub errors : List Effect → List Error
errors [] = []
errors (post_error e ∷ log) = e ∷ errors log
errors (_ ∷ log) = errors log

-- A role that the surface has stays.
abbrev Keeps : WlSurface → WlSurface → Type 0
Keeps s t = (s.role ≡ none) ⊎ (t.role ≡ s.role)

toplevel-Keeps :
    (serial : ℕ) (s : WlSurface) (x : XdgSurface)
    → let (s', _, _) = get_toplevel serial s x in Keeps s s'
unfolding get_toplevel set_role
toplevel-Keeps serial s x = ground arith

toplevel-IsRoled :
    (serial : ℕ) (s : WlSurface) (x : XdgSurface)
    → IsRoled s x
    → let r = get_toplevel serial s x in IsRoled r.0 r.1
unfolding get_toplevel set_role
toplevel-IsRoled serial s x h = ground arith

module _ (contains : Rect → Rect → Bool) where
  popup-Keeps :
      (serial : ℕ) (parent : Option (ℕ × Rect)) (d : Option PositionerData) (s : WlSurface)
      (x : XdgSurface)
      → Keeps s (get_popup contains serial parent d s x).0
  unfolding get_popup set_role set_window_type
  popup-Keeps serial none d s x = ground arith
  popup-Keeps serial (some p) none s x = ground arith
  popup-Keeps serial (some p) (some d) s x = ground arith

  popup-IsRoled :
      (serial : ℕ) (parent : Option (ℕ × Rect)) (d : Option PositionerData) (s : WlSurface)
      (x : XdgSurface)
      → IsRoled s x
      → let r = get_popup contains serial parent d s x in IsRoled r.0 r.1
  unfolding get_popup set_role set_window_type
  popup-IsRoled serial none d s x h = ground arith
  popup-IsRoled serial (some p) none s x h = ground arith
  popup-IsRoled serial (some p) (some d) s x h = ground arith

  handle-Keeps : (r : Request) (s : WlSurface) (x : XdgSurface) → Keeps s (handle contains r s x).0
  unfolding handle
  handle-Keeps (gets_toplevel serial) s x = toplevel-Keeps serial s x
  handle-Keeps (gets_popup serial parent d) s x = popup-Keeps serial parent d s x
  handle-Keeps (acks serial) s x = inr refl
  handle-Keeps (sets_window_geometry a b w h) s x = inr refl
  handle-Keeps (gains_focus serial) s x = inr refl
  handle-Keeps (loses_focus serial) s x = inr refl

  handle-IsRoled :
      (r : Request) (s : WlSurface) (x : XdgSurface)
      → IsRoled s x
      → let q = handle contains r s x in IsRoled q.0 q.1
  unfolding handle ack_configure set_window_geometry handle_focus_received handle_focus_lost
  handle-IsRoled (gets_toplevel serial) s x h = toplevel-IsRoled serial s x h
  handle-IsRoled (gets_popup serial parent d) s x h = popup-IsRoled serial parent d s x h
  handle-IsRoled (acks serial) s x h = ground arith
  handle-IsRoled (sets_window_geometry a b w v) s x h = ground arith
  handle-IsRoled (gains_focus serial) s x h = ground arith
  handle-IsRoled (loses_focus serial) s x h = ground arith

  -- A request on one xdg_surface of a wl_surface keeps the role that the wl_surface has, if any. The
  -- role object of this xdg_surface, and that of any other on the same wl_surface, stay of the kind
  -- that the role names.
  pub handle-roles :
      (r : Request) (s : WlSurface) (x y : XdgSurface)
      → IsRoled s x
      → IsRoled s y
      → let q = handle contains r s x in
        ((s.role ≡ none) ⊎ (q.0.role ≡ s.role)) × IsRoled q.0 q.1 × IsRoled q.0 y
  handle-roles r s x y h k =
      (handle-Keeps r s x, handle-IsRoled r s x h, other-IsRoled (handle-Keeps r s x))
    where
      other-IsRoled : {t : WlSurface} → Keeps s t → IsRoled t y
      other-IsRoled (inl e) = record { of_toplevel = ground arith; of_popup = ground arith }
      other-IsRoled (inr e) = record { of_toplevel = ground arith; of_popup = ground arith }

  -- A popup is created exactly if the xdg_surface has no role object yet, the parent and the
  -- positioner are there, the positioner is complete and the surface has no role but that of a
  -- popup; if not, neither surface changes and exactly one error is posted.
  pub get_popup_lem :
      (serial : ℕ) (parent : Option (ℕ × Rect)) (d : Option PositionerData) (s : WlSurface)
      (x : XdgSurface)
      → let q = get_popup contains serial parent d s x in
        let fits =
          not (is_constructed x) && is_some parent && complete d && allows s.role xdg_popup in
        ((fits ≡ true)
          × (is_some q.1.popup ≡ true)
          × (q.0.role ≡ some xdg_popup)
          × (errors q.2 ≡ []))
        ⊎ ((fits ≡ false) × (q.0 ≡ s) × (q.1 ≡ x) × ((e : Error) × (errors q.2 ≡ e ∷ [])))
  unfolding get_popup set_role set_window_type new_popup
  get_popup_lem serial parent d s x = elim (Bool-cases (is_constructed x)) [
    | inl e ↦ rw e (inr (refl, refl, refl, (already_constructed, refl)))
    | inr e ↦ rw e (fresh parent d)
  ]
    where
      fresh :
          (parent : Option (ℕ × Rect)) (d : Option PositionerData)
          → let q = parent_popup contains serial parent d s x in
            let fits = is_some parent && complete d && allows s.role xdg_popup in
            ((fits ≡ true)
              × (is_some q.1.popup ≡ true)
              × (q.0.role ≡ some xdg_popup)
              × (errors q.2 ≡ []))
            ⊎ ((fits ≡ false) × (q.0 ≡ s) × (q.1 ≡ x) × ((e : Error) × (errors q.2 ≡ e ∷ [])))
      fresh none d = inr (refl, refl, refl, (invalid_popup_parent, refl))
      fresh (some p) none = inr (refl, refl, refl, (invalid_positioner, refl))
      fresh (some (p, g)) (some d) = elim (Bool-cases (is_complete d)) [
        | inr e ↦ rw e (inr (refl, refl, refl, (invalid_positioner, refl)))
        | inl e ↦ rw e (elim (Bool-cases (allows s.role xdg_popup)) [
          | inl a ↦ rw a (inl (refl, refl, refl, ground arith))
          | inr a ↦ rw a (inr (refl, refl, refl, (role, ground arith)))
        ])
      ]

get_toplevel-fits :
    (serial : ℕ) (s : WlSurface) (x : XdgSurface)
    → is_constructed x ≡ false
    → allows s.role xdg_toplevel ≡ true
    → let a = get_toplevel serial s x in
      (a.0.role ≡ some xdg_toplevel) × (is_some a.1.toplevel ≡ true) × (errors a.2 ≡ [])
unfolding get_toplevel set_role new_toplevel send_configure
get_toplevel-fits serial s x f a = rw (f, a) (refl, refl, refl)

-- Nothing keeps a client from giving one wl_surface two toplevels: of two xdg_surfaces without a role
-- object on a surface without a role, each gets one, and no error is posted.
two_toplevels :
    (first second : ℕ) (s : WlSurface) (x y : XdgSurface)
    → s.role ≡ none
    → is_constructed x ≡ false
    → is_constructed y ≡ false
    → let a = get_toplevel first s x in
      let b = get_toplevel second a.0 y in
      (is_some a.1.toplevel ≡ true)
      × (is_some b.1.toplevel ≡ true)
      × (errors a.2 ≡ [])
      × (errors b.2 ≡ [])
two_toplevels first second s x y e f g =
    let (taken, made, quiet) = get_toplevel-fits first s x f (rw e) in
    let (_, made', quiet') = get_toplevel-fits second _ y g (rw taken) in
    (made, made', quiet, quiet')
