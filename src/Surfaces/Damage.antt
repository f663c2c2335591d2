-- ===== src/Surfaces/Damage.antt =====
-- The damage of a commit covers the pixels that the client named.
use aurora_compositor.Base.{
  ◌⊎◌, not, if_lem, ℕ, suc, ◌+◌, ◌-◌, ◌/◌, ◌≤◌, ◌<◌, ◌≡◌, refl, sym, ap, ◌∙◌, inl, inr, Bool, true,
  false, ◌&&◌, ◌||◌, List, [], ◌∷◌, ◌++◌, some, arith, Bool-cases, zero,
}
use native.Mathlib.Nat.{le-div_iff_mul-le, div-mul-le_self, div-one, add-zero}
use aurora_compositor.Base.Int.{
  ℤ, pos, negsuc, ◌+ℤ◌, ◌-ℤ◌, eq_ℤ, leb_ℤ, ltb_ℤ, quot_ℤ, int_laws, eq_of_parts,
}
use aurora_compositor.Geometry.Regions.{
  Region, Box, in_box, contains, united, meet, intersected, contains-united, in_box-meet,
  contains-intersected, box_of,
}
use aurora_compositor.Surfaces.{Surface, SurfaceEffect, Pending}
use aurora_compositor.Surfaces.Viewport.{at_origin}
use aurora_compositor.Surfaces.Commit.{
  transform, add_transformed, damage_for, Buffers, apply_pending, commit, finish, commit-finish,
  surface_size,
}

div_mono : (a b k : ℕ) → 0 < k → a ≤ b → a / k ≤ b / k
div_mono a b k w h = (le-div_iff_mul-le w).1 (omega (arith, div-mul-le_self a k))

left_edge :
    (a k : ℕ) (l : ℤ)
    → 0 < k
    → leb_ℤ l (pos a) ≡ true
    → leb_ℤ (quot_ℤ l (pos k)) (pos (a / k)) ≡ true
unfolding quot_ℤ
left_edge a k (pos m) w h = ground (arith, div_mono m a k w (ground arith))
left_edge a k (negsuc m) w h = ground arith

last_pixel : (m k : ℕ) → 0 < k → pos (suc m) -ℤ pos 1 +ℤ pos k -ℤ pos 1 ≡ pos (m + (k - 1))
last_pixel m k w = eq_of_parts _ _ (omega int_laws)

quot-pos : (m k : ℕ) → quot_ℤ (pos m) (pos k) ≡ pos (m / k)
unfolding quot_ℤ
quot-pos m k = rw (add-zero m, add-zero k) (ground arith)

next_pixel : (a b : ℕ) → a ≤ b → ltb_ℤ (pos a) (pos b +ℤ pos 1) ≡ true
unfolding ◌+ℤ◌
next_pixel a b h = ground arith

right_edge :
    (a k : ℕ) (r : ℤ)
    → 0 < k
    → ltb_ℤ (pos a) r ≡ true
    → ltb_ℤ (pos (a / k)) (quot_ℤ (r -ℤ pos 1 +ℤ pos k -ℤ pos 1) (pos k) +ℤ pos 1) ≡ true
right_edge a k (pos zero) w h = absurd (ground arith)
right_edge a k (pos (suc m)) w h =
    rw (last_pixel m k w, quot-pos (m + (k - 1)) k)
      (next_pixel (a / k) ((m + (k - 1)) / k) (div_mono a (m + (k - 1)) k w (ground arith)))
right_edge a k (negsuc m) w h = absurd (ground arith)

in_transform :
    (a b k : ℕ) (box : Box)
    → 0 < k
    → in_box (pos a) (pos b) box ≡ true
    → in_box (pos (a / k)) (pos (b / k)) (transform (pos k) box) ≡ true
unfolding in_box transform
in_transform a b k box w h =
    let (l, r, t, u) =
      edges (leb_ℤ box.left (pos a)) (ltb_ℤ (pos a) box.right) (leb_ℤ box.top (pos b))
        (ltb_ℤ (pos b) box.bottom) h in
    rw
      (
        left_edge a k box.left w l,
        right_edge a k box.right w r,
        left_edge b k box.top w t,
        right_edge b k box.bottom w u,
      )
      refl
  where
    edges :
        (p q s t : Bool)
        → ((p && q) && (s && t)) ≡ true
        → (p ≡ true) × (q ≡ true) × (s ≡ true) × (t ≡ true)
    edges p q s t h = ground arith

and_true : (b c : Bool) → b ≡ true → c ≡ true → (b && c) ≡ true
and_true true c h k = k
and_true false c h k = h

and_false : (p q : Bool) → q ≡ false → (p && q) ≡ false
and_false true q h = h
and_false false q h = refl

or_true : (b c : Bool) → c ≡ true → (b || c) ≡ true
or_true true c h = refl
or_true false c h = h

add_transformed-keeps :
    (scale : ℤ) (to : Box) (bs damage : Region) (x y : ℤ)
    → contains damage x y ≡ true
    → contains (add_transformed scale to bs damage) x y ≡ true
unfolding add_transformed
add_transformed-keeps scale to [] damage x y h = h
add_transformed-keeps scale to (b ∷ bs) damage x y h =
    add_transformed-keeps scale to bs (united damage (meet (transform scale b) to)) x y
      (contains-united damage (meet (transform scale b) to) x y ∙ or_true _ _ h)

in_moved :
    (a b k : ℕ) (c to : Box)
    → 0 < k
    → in_box (pos a) (pos b) c ≡ true
    → in_box (pos (a / k)) (pos (b / k)) to ≡ true
    → in_box (pos (a / k)) (pos (b / k)) (meet (transform (pos k) c) to) ≡ true
in_moved a b k c to w hit inside =
    in_box-meet (transform (pos k) c) to (pos (a / k)) (pos (b / k))
    ∙ and_true _ _ (in_transform a b k c w hit) inside

add_transformed-covers :
    (k : ℕ) (to : Box) (bs damage : Region) (a b : ℕ)
    → 0 < k
    → contains bs (pos a) (pos b) ≡ true
    → in_box (pos (a / k)) (pos (b / k)) to ≡ true
    → contains (add_transformed (pos k) to bs damage) (pos (a / k)) (pos (b / k)) ≡ true
unfolding add_transformed contains
add_transformed-covers k to [] damage a b w h inside = absurd (cc)
add_transformed-covers k to (c ∷ bs) damage a b w h inside =
    let moved = meet (transform (pos k) c) to in
    elim (Bool-cases (in_box (pos a) (pos b) c)) [
      | inl hit ↦
          add_transformed-keeps (pos k) to bs (united damage moved) (pos (a / k)) (pos (b / k)) (
            contains-united damage moved (pos (a / k)) (pos (b / k))
            ∙ ap (λ t. t || contains damage (pos (a / k)) (pos (b / k)))
                (in_moved a b k c to w hit inside))
      | inr miss ↦
          add_transformed-covers k to bs (united damage moved) a b w
            (ap (λ t. t || contains bs (pos a) (pos b)) (sym miss) ∙ h) inside
    ]

add_transformed-within :
    (scale : ℤ) (to : Box) (bs damage : Region) (x y : ℤ)
    → in_box x y to ≡ false
    → contains damage x y ≡ false
    → contains (add_transformed scale to bs damage) x y ≡ false
unfolding add_transformed
add_transformed-within scale to [] damage x y out h = h
add_transformed-within scale to (b ∷ bs) damage x y out h =
    let moved = meet (transform scale b) to in
    add_transformed-within scale to bs (united damage moved) x y out (
      contains-united damage moved x y
      ∙ (ap (λ t. t || contains damage x y)
            (in_box-meet (transform scale b) to x y
              ∙ and_false (in_box x y (transform scale b)) (in_box x y to) out)
          ∙ h))

contains-append :
    (r q : Region) (x y : ℤ) → contains (r ++ q) x y ≡ (contains r x y || contains q x y)
unfolding contains
contains-append [] q x y = refl
contains-append (b ∷ r) q x y =
    ap (λ t. in_box x y b || t) (contains-append r q x y)
    ∙ or_assoc (in_box x y b) (contains r x y) (contains q x y)
  where
    or_assoc : (p q r : Bool) → (p || (q || r)) ≡ ((p || q) || r)
    or_assoc true q r = refl
    or_assoc false q r = refl

intersected-covers :
    (r : Region) (to : Box) (x y : ℤ)
    → contains r x y ≡ true
    → in_box x y to ≡ true
    → contains (intersected r to) x y ≡ true
intersected-covers r to x y h inside = contains-intersected r to x y ∙ and_true _ _ h inside

intersected-within :
    (r : Region) (to : Box) (x y : ℤ)
    → in_box x y to ≡ false
    → contains (intersected r to) x y ≡ false
intersected-within r to x y out = contains-intersected r to x y ∙ and_false _ _ out

div_same : (a k : ℕ) → eq_ℤ (pos k) (pos 1) ≡ true → a / k ≡ a
div_same a k one = ap (λ n. a / n) (ground arith) ∙ div-one a

damage_for-covers :
    (k : ℕ) (to : Box) (p : Pending) (a b : ℕ)
    → 0 < k
    → contains p.buffer_damage (pos a) (pos b) ≡ true
    → in_box (pos (a / k)) (pos (b / k)) to ≡ true
    → contains (damage_for (pos k) to p) (pos (a / k)) (pos (b / k)) ≡ true
unfolding damage_for
damage_for-covers k to p a b w h inside =
    let on_surface = intersected p.surface_damage to in
    let on_buffer = intersected p.buffer_damage to in
    let x = pos (a / k) in
    let y = pos (b / k) in
    if_lem (λ (r : Region). contains r x y ≡ true) (eq_ℤ (pos k) (pos 1)) (on_buffer ++ on_surface)
      (add_transformed (pos k) to p.buffer_damage on_surface)
      (λ one.
        contains-append on_buffer on_surface x y
        ∙ ap (λ t. t || contains on_surface x y)
            (intersected-covers p.buffer_damage to x y (rw (div_same a k one, div_same b k one) h)
              inside))
      (λ more. add_transformed-covers k to p.buffer_damage on_surface a b w h inside)

damage_for-covers_surface :
    (scale : ℤ) (to : Box) (p : Pending) (x y : ℤ)
    → contains p.surface_damage x y ≡ true
    → in_box x y to ≡ true
    → contains (damage_for scale to p) x y ≡ true
unfolding damage_for
damage_for-covers_surface scale to p x y h inside =
    let on_surface = intersected p.surface_damage to in
    let on_buffer = intersected p.buffer_damage to in
    let hit = intersected-covers p.surface_damage to x y h inside in
    if_lem (λ (r : Region). contains r x y ≡ true) (eq_ℤ scale (pos 1)) (on_buffer ++ on_surface)
      (add_transformed scale to p.buffer_damage on_surface)
      (λ one. contains-append on_buffer on_surface x y ∙ or_true _ _ hit)
      (λ more. add_transformed-keeps scale to p.buffer_damage on_surface x y hit)

damage_for-within :
    (scale : ℤ) (to : Box) (p : Pending) (x y : ℤ)
    → in_box x y to ≡ false
    → contains (damage_for scale to p) x y ≡ false
unfolding damage_for
damage_for-within scale to p x y out =
    let on_surface = intersected p.surface_damage to in
    let on_buffer = intersected p.buffer_damage to in
    let miss = intersected-within p.surface_damage to x y out in
    if_lem (λ (r : Region). contains r x y ≡ false) (eq_ℤ scale (pos 1)) (on_buffer ++ on_surface)
      (add_transformed scale to p.buffer_damage on_surface)
      (λ one.
        contains-append on_buffer on_surface x y
        ∙ (ap (λ t. t || contains on_surface x y) (intersected-within p.buffer_damage to x y out)
            ∙ miss))
      (λ more. add_transformed-within scale to p.buffer_damage on_surface x y out miss)

-- The rectangle that the commit makes the surface cover.
unfoldable pub surface_box : Buffers → Surface → Box
unfolding apply_pending box_of
surface_box buffers s =
    box_of (at_origin (apply_pending buffers (surface_size buffers s) s).destination_size)

-- The pixel is damaged by the client: in the pixels of the surface, or as the quotients by the scale of
-- a damaged pixel of the buffer.
abbrev pub IsDamaged : ℕ → Pending → ℤ → ℤ → Type 0
IsDamaged k p x y =
    (contains p.surface_damage x y ≡ true)
    ⊎ ((a : ℕ) × (b : ℕ) × (contains p.buffer_damage (pos a) (pos b) ≡ true)
        × (x ≡ pos (a / k))
        × (y ≡ pos (b / k)))

damage_for-covers_damaged :
    (k : ℕ) (to : Box) (p : Pending) (x y : ℤ)
    → 0 < k
    → IsDamaged k p x y
    → in_box x y to ≡ true
    → contains (damage_for (pos k) to p) x y ≡ true
damage_for-covers_damaged k to p x y w (inl h) inside =
    damage_for-covers_surface (pos k) to p x y h inside
damage_for-covers_damaged k to p x y w (inr (a, b, h, ex, ey)) inside =
    rw (ex, ey) (damage_for-covers k to p a b w h (sym (rw (ex, ey) refl) ∙ inside))

not_both : (d i : Bool) → (i ≡ false → d ≡ false) → d && not i ≡ false
not_both true true f = refl
not_both true false f = f refl
not_both false i f = refl

-- A commit at a scale above 0 returns, and damages each pixel in the rectangle that the surface takes
-- that the client damaged in either way, and no pixel (u, v) outside that rectangle. A pixel of the
-- buffer stands for the pixel at its quotients by the scale, as it does without a viewport.
pub commit-covers_damage :
    (buffers : Buffers) (views : List ℕ) (s : Surface) (k : ℕ) (x y u v : ℤ)
    → s.pending.buffer_scale ≡ pos k
    → 0 < k
    → IsDamaged k s.pending x y
    → in_box x y (surface_box buffers s) ≡ true
    → (after : Surface) × (effects : List SurfaceEffect) × (commit buffers views s
        ≡ some (after, effects))
      × (contains after.damage x y ≡ true)
      × (contains after.damage u v && not (in_box u v (surface_box buffers s)) ≡ false)
unfolding finish apply_pending surface_box
commit-covers_damage buffers views s k x y u v scale w damaged inside =
    let box = surface_box buffers s in
    (
      (finish buffers views (surface_size buffers s) s).0,
      (finish buffers views (surface_size buffers s) s).1,
      commit-finish buffers views s (ap (λ n. eq_ℤ n (pos 0)) scale ∙ ground arith),
      ap (λ n. contains (damage_for n box s.pending) x y) scale
          ∙ damage_for-covers_damaged k box s.pending x y w damaged inside,
      not_both _ _ (damage_for-within s.pending.buffer_scale box s.pending u v),
    )
