-- ===== src/Surfaces/Viewport/Checks.antt =====
-- What the checks of a viewport keep out.
use mathlib.Core.Path.{subst}
use aurora_compositor.Base.{
  ◌≡◌, refl, sym, ap, ◌∙◌, arith, ℕ, Bool, true, false, not, ◌&&◌, List, [], ◌∷◌, ◌++◌, some,
  if◌then◌else◌, Bool-cases, inl, inr,
}
use aurora_compositor.Base.Int.{ℤ, pos, ◌+ℤ◌, ◌-ℤ◌, leb_ℤ, ltb_ℤ, eq_ℤ, eq_ℤ_iff}
use aurora_compositor.Geometry.{Size, Rect, eq_rect, is_valid}
use aurora_compositor.Geometry.Regions.{min_ℤ, max_ℤ}
use aurora_compositor.Surfaces.{
  Surface, SurfaceEffect, post_error, is_opaque_changed, bad_size, out_of_buffer,
}
use aurora_compositor.Surfaces.Viewport.{
  start_of, end_of, united_rect, is_valid_rect, is_null, at_origin, units, scaled_size,
  check_committed_state,
}
use aurora_compositor.Surfaces.Commit.{
  surface_size, Buffers, commit, finish, apply_pending, commit-some, source_for, signal_unless,
  eq_bool,
}

both_true : {b c : Bool} → b ≡ true → c ≡ true → (b && c) ≡ true
both_true {b} {c} h k = ap (λ t. t && c) h ∙ k

two_true : (a b : Bool) → (a && b) ≡ true → (a ≡ true) × (b ≡ true)
two_true a b h = ground arith

four_true :
    (a b c d : Bool) → (a && b && c && d) ≡ true → (a ≡ true) × (b ≡ true) × (c ≡ true) × (d ≡ true)
four_true a b c d h = ground arith

min_zero : (a b : ℤ) → eq_ℤ (min_ℤ a b) (pos 0) ≡ true → leb_ℤ (pos 0) b ≡ true
min_zero a b h = ground arith

minus_zero : (a : ℤ) → a -ℤ pos 0 ≡ a
unfolding ◌-ℤ◌
minus_zero a = ground arith

le_max : (a b : ℤ) → leb_ℤ b (max_ℤ a b) ≡ true
le_max a b = ground arith

max_most : (a b m size : ℤ) → m ≡ pos 0 → eq_ℤ (max_ℤ a b -ℤ m) size ≡ true → leb_ℤ b size ≡ true
max_most a b m size zero h = most a b size (sym (ap (λ m. eq_ℤ (max_ℤ a b -ℤ m) size) zero) ∙ h)
  where
    most : (a b size : ℤ) → eq_ℤ (max_ℤ a b -ℤ pos 0) size ≡ true → leb_ℤ b size ≡ true
    most a b size h =
        sym (
          ap (λ t. leb_ℤ b t)
            ((eq_ℤ_iff (max_ℤ a b) size).0
              (sym (ap (λ t. eq_ℤ t size) (minus_zero (max_ℤ a b))) ∙ h)))
        ∙ le_max a b

start_valid : (x w : ℤ) → ltb_ℤ (pos 0) w ≡ true → start_of x w ≡ x
start_valid x w h = ground arith

end_valid : (x w : ℤ) → ltb_ℤ (pos 0) w ≡ true → end_of x w ≡ x +ℤ w
end_valid x w h = ground arith

span :
    (size x w : ℤ)
    → eq_ℤ (min_ℤ (start_of (pos 0) size) (start_of x w)) (pos 0) ≡ true
    → eq_ℤ
        (max_ℤ (end_of (pos 0) size) (end_of x w) -ℤ min_ℤ (start_of (pos 0) size) (start_of x w))
        size
      ≡ true
    → ltb_ℤ (pos 0) w ≡ true
    → (leb_ℤ (pos 0) x && leb_ℤ (x +ℤ w) size) ≡ true
span size x w h k v =
    both_true
      (ap (λ t. leb_ℤ (pos 0) t) (sym (start_valid x w v))
        ∙ min_zero (start_of (pos 0) size) (start_of x w) h)
      (ap (λ t. leb_ℤ t size) (sym (end_valid x w v))
        ∙ max_most (end_of (pos 0) size) (end_of x w) _ size ((eq_ℤ_iff _ (pos 0)).0 h) k)

-- A rectangle inside one of the given size at the origin.
unfoldable pub is_inside : Rect → Size → Bool
is_inside r size =
    (leb_ℤ (pos 0) r.x && leb_ℤ (r.x +ℤ r.width) size.width)
    && (leb_ℤ (pos 0) r.y && leb_ℤ (r.y +ℤ r.height) size.height)

abbrev joined : Size → Rect → Rect
joined size r =
    let x = min_ℤ (start_of (pos 0) size.width) (start_of r.x r.width) in
    let y = min_ℤ (start_of (pos 0) size.height) (start_of r.y r.height) in
    record {
      x = x;
      y = y;
      width = max_ℤ (end_of (pos 0) size.width) (end_of r.x r.width) -ℤ x;
      height = max_ℤ (end_of (pos 0) size.height) (end_of r.y r.height) -ℤ y;
    }

joined_inside :
    (size : Size) (r : Rect)
    → is_valid_rect r ≡ true
    → eq_rect (joined size r) (at_origin size) ≡ true
    → is_inside r size ≡ true
unfolding is_inside
joined_inside size r v h =
    let (x, y, w, t) = four_true _ _ _ _ h in
    let (across, down) = two_true _ _ v in
    both_true (span size.width r.x r.width x w across) (span size.height r.y r.height y t down)

no_width :
    {A : Type 0} (w size : ℤ)
    → ltb_ℤ (pos 0) w ≡ true
    → eq_ℤ w size ≡ true
    → eq_ℤ size (pos 0) ≡ true
    → A
no_width w size h k e = absurd (ground arith)

same_width : (r s : Rect) → eq_rect r s ≡ true → eq_ℤ r.width s.width ≡ true
same_width r s h =
    let (x, y, w, t) =
      four_true (eq_ℤ r.x s.x) (eq_ℤ r.y s.y) (eq_ℤ r.width s.width) (eq_ℤ r.height s.height) h in
    w

not_null : (r : Rect) → is_valid_rect r ≡ true → is_null r ≡ false
not_null r v = ground arith

united_inside :
    (size : Size) (r : Rect)
    → is_valid_rect r ≡ true
    → eq_rect (united_rect (at_origin size) r) (at_origin size) ≡ true
    → is_inside r size ≡ true
united_inside size r v h = elim (Bool-cases (is_null (at_origin size))) [
  | inl e ↦
      let taken : eq_rect r (at_origin size) ≡ true = sym (simp e refl) ∙ h in
      no_width r.width size.width (two_true _ _ v).0 (same_width r (at_origin size) taken)
        (two_true _ _ e).0
  | inr e ↦ joined_inside size r v (sym (simp (e, not_null r v) refl) ∙ h)
]

unfoldable pub posts_error : List SurfaceEffect → Bool
posts_error [] = false
posts_error (post_error e ∷ es) = true
posts_error (effect ∷ es) = posts_error es

posts_error-append :
    (es later : List SurfaceEffect)
    → posts_error (es ++ later) ≡ false
    → (posts_error es ≡ false) × (posts_error later ≡ false)
unfolding posts_error
posts_error-append [] later h = (refl, h)
posts_error-append (post_error e ∷ es) later h = absurd cc
posts_error-append (e ∷ es) later h = posts_error-append es later h

checked :
    (s : Surface)
    → posts_error (check_committed_state s) ≡ false
    → is_valid s.buffer_size ≡ true
    → eq_rect
        (united_rect
          (at_origin (units (scaled_size s.buffer_size s.buffer_scale)))
          s.pending.source_geometry)
        (at_origin (units (scaled_size s.buffer_size s.buffer_scale)))
      ≡ true
unfolding check_committed_state posts_error
checked s h v = passed _ _ _ h v
  where
    passed :
        (a valid same : Bool)
        → posts_error (
            if a
            then post_error bad_size ∷ []
            else if valid && not same
            then post_error out_of_buffer ∷ []
            else [])
          ≡ false
        → valid ≡ true
        → same ≡ true
    passed true valid same h v = absurd cc
    passed false true true h v = refl
    passed false true false h v = absurd cc
    passed false false same h v = absurd cc

whole_inside : (size : Size) → is_inside (at_origin size) size ≡ true
unfolding is_inside ◌+ℤ◌
whole_inside size = ground arith

taken_inside :
    (pending : Rect) (size : Size)
    → eq_rect (united_rect (at_origin (units size)) pending) (at_origin (units size)) ≡ true
    → is_inside (source_for pending size) (units size) ≡ true
taken_inside pending size h = elim (Bool-cases (is_valid_rect pending)) [
  | inl e ↦ simp e (united_inside (units size) pending e h)
  | inr e ↦ simp e (whole_inside (units size))
]

finish-checked :
    (buffers : Buffers) (views : List ℕ) (s : Surface)
    → s.viewport ≡ true
    → posts_error (finish buffers views (surface_size buffers s) s).1 ≡ false
    → is_valid (finish buffers views (surface_size buffers s) s).0.buffer_size ≡ true
    → is_inside (finish buffers views (surface_size buffers s) s).0.source_geometry (
        units (
          scaled_size
            (finish buffers views (surface_size buffers s) s).0.buffer_size
            (finish buffers views (surface_size buffers s) s).0.buffer_scale))
      ≡ true
unfolding finish apply_pending
finish-checked buffers views s there quiet valid =
    let applied = apply_pending buffers (surface_size buffers s) s in
    let rest =
      (posts_error-append (signal_unless (eq_bool s.is_opaque applied.is_opaque) is_opaque_changed)
        _ quiet).1 in
    let check =
      (posts_error-append (if s.viewport then check_committed_state applied else []) _ rest).0 in
    let clean =
      ap (λ b. posts_error (if b then check_committed_state applied else [])) (sym there) ∙ check in
    taken_inside s.pending.source_geometry (scaled_size applied.buffer_size applied.buffer_scale)
      (checked applied clean valid)

-- If a surface has a viewport, its commit posts no error and the buffer then has a valid size, the source
-- rectangle that the surface takes lies inside the buffer, as measured in surface pixels.
pub commit-checked_source :
    (buffers : Buffers) (views : List ℕ) (s after : Surface) (effects : List SurfaceEffect)
    → s.viewport ≡ true
    → commit buffers views s ≡ some (after, effects)
    → posts_error effects ≡ false
    → is_valid after.buffer_size ≡ true
    → is_inside after.source_geometry (units (scaled_size after.buffer_size after.buffer_scale))
      ≡ true
commit-checked_source buffers views s after effects there h quiet valid =
    subst
      (λ p.
        posts_error p.1 ≡ false
        → is_valid p.0.buffer_size ≡ true
        → is_inside p.0.source_geometry (units (scaled_size p.0.buffer_size p.0.buffer_scale))
          ≡ true)
      (commit-some buffers views s after effects h) (finish-checked buffers views s there) quiet
      valid
