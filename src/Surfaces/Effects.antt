-- ===== src/Surfaces/Effects.antt =====
-- The effects of a commit on what the signals of a surface tell.
use aurora_compositor.Base.{
  ◌≡◌, refl, ap, ◌∙◌, ℕ, Bool, true, false, not, ◌&&◌, List, [], ◌∷◌, ◌++◌, map, flatten, Option,
  none, some, if◌then◌else◌, toggles_by, toggles_by-append,
}
use aurora_compositor.Base.Int.{pos, eq_ℤ}
use aurora_compositor.Geometry.{Size, Point, eq_size, eq_rect}
use aurora_compositor.Geometry.Regions.{Region}
use aurora_compositor.Surfaces.{
  Surface, SurfaceEffect, ViewportError, bad_size, out_of_buffer, is_opaque_changed,
  has_content_changed, redraw, post_error, set_committed, view_committed, damaged,
  offset_for_next_frame, buffer_size_changed, buffer_scale_changed, destination_size_changed,
  source_geometry_changed,
}
use aurora_compositor.Surfaces.Viewport.{check_committed_state}
use aurora_compositor.Surfaces.Commit.{
  Buffers, commit_buffer, signal_unless, eq_bool, commit_effects, finish, apply_pending,
}

unfoldable pub tells_content : SurfaceEffect → Bool
tells_content has_content_changed = true
tells_content e = false

unfoldable pub tells_opaque : SurfaceEffect → Bool
tells_opaque is_opaque_changed = true
tells_opaque e = false

-- Effects that turn the value `b` of what a test stands for into `c`.
pub record Turns (test : SurfaceEffect → Bool) (es : List SurfaceEffect) (b c : Bool) : Type 0 where
  pub turned : toggles_by test es b ≡ c

module _ {test : SurfaceEffect → Bool} where
  pub Turns-append :
      {xs ys : List SurfaceEffect} {b c d : Bool}
      → Turns test xs b c
      → Turns test ys c d
      → Turns test (xs ++ ys) b d
  Turns-append {xs} {ys} {b} h k = record {
    turned = toggles_by-append test xs ys b ∙ (ap (λ t. toggles_by test ys t) h.turned ∙ k.turned);
  }

  pub Turns-none : {b : Bool} → Turns test [] b b
  Turns-none = record { turned = refl }

  pub Turns-one : {e : SurfaceEffect} {b : Bool} → test e ≡ false → Turns test (e ∷ []) b b
  Turns-one {b = b} h = record { turned = ap (λ c. if c then not b else b) h }

  pub Turns-if :
      (c : Bool) {xs ys : List SurfaceEffect} {a b : Bool}
      → Turns test xs a b
      → Turns test ys a b
      → Turns test (if c then xs else ys) a b
  Turns-if true h k = h
  Turns-if false h k = k

  pub Turns-unless :
      (c : Bool) (e : SurfaceEffect) {b : Bool}
      → test e ≡ false
      → Turns test (signal_unless c e) b b
  unfolding signal_unless
  Turns-unless c e h = Turns-if c Turns-none (Turns-one h)

  pub Turns-map :
      (f : ℕ → SurfaceEffect) (vs : List ℕ) {b : Bool}
      → ((v : ℕ) → test (f v) ≡ false)
      → Turns test (map f vs) b b
  Turns-map f [] h = Turns-none
  Turns-map f (v ∷ vs) h = Turns-append (Turns-one (h v)) (Turns-map f vs h)

  pub Turns-buffer :
      (o : Option ℕ) (r : Region) {b : Bool}
      → ((v : ℕ) → test (set_committed v r) ≡ false)
      → Turns test (commit_buffer o r) b b
  unfolding commit_buffer
  Turns-buffer none r h = Turns-none
  Turns-buffer (some v) r h = Turns-one (h v)

  pub Turns-eq_bool :
      (old new : Bool) (e : SurfaceEffect)
      → test e ≡ true
      → Turns test (signal_unless (eq_bool old new) e) old new
  unfolding signal_unless
  Turns-eq_bool true true e h = Turns-none
  Turns-eq_bool true false e h = record { turned = ap (λ c. if c then false else true) h }
  Turns-eq_bool false true e h = record { turned = ap (λ c. if c then true else false) h }
  Turns-eq_bool false false e h = Turns-none

  pub Turns-check :
      (s : Surface) {b : Bool}
      → ((e : ViewportError) → test (post_error e) ≡ false)
      → Turns test (check_committed_state s) b b
  unfolding check_committed_state
  Turns-check s h =
      Turns-if _ (Turns-one (h bad_size)) (Turns-if _ (Turns-one (h out_of_buffer)) Turns-none)

-- A test that the effects of a commit, but for the one on the content, do not meet.
pub record IsSilent (test : SurfaceEffect → Bool) : Type 0 where
  pub buffer_size : test buffer_size_changed ≡ false
  pub buffer_scale : test buffer_scale_changed ≡ false
  pub destination : test destination_size_changed ≡ false
  pub source : test source_geometry_changed ≡ false
  pub drawn : test redraw ≡ false
  pub moved : (p : Point) → test (offset_for_next_frame p) ≡ false
  pub damage : (r : Region) → test (damaged r) ≡ false
  pub set : (b : ℕ) (r : Region) → test (set_committed b r) ≡ false
  pub view : (v : ℕ) (b : Option ℕ) (r : Region) → test (view_committed v b r) ≡ false

commit_effects-Turns :
    {test : SurfaceEffect → Bool} {b c : Bool} (views : List ℕ) (offset : Point) (old s : Surface)
    → IsSilent test
    → Turns test (signal_unless (eq_bool old.has_content s.has_content) has_content_changed) b c
    → Turns test (commit_effects views offset old s) b c
unfolding commit_effects flatten
commit_effects-Turns views offset old s t h =
    Turns-append (Turns-buffer s.buffer_ref s.damage (λ v. t.set v s.damage)) (
      Turns-append
        (Turns-map (λ v. view_committed v s.buffer_ref s.damage) views
          (λ v. t.view v s.buffer_ref s.damage))
        (Turns-append (Turns-one (t.damage s.damage)) (
          Turns-append
            (Turns-unless (eq_size old.buffer_size s.buffer_size) buffer_size_changed t.buffer_size)
            (Turns-append
              (Turns-unless (eq_ℤ old.buffer_scale s.buffer_scale) buffer_scale_changed
                t.buffer_scale)
              (Turns-append
                (Turns-unless (eq_size old.destination_size s.destination_size)
                  destination_size_changed t.destination)
                (Turns-append
                  (Turns-unless (eq_rect old.source_geometry s.source_geometry)
                    source_geometry_changed t.source)
                  (Turns-append h (
                    Turns-append
                      (Turns-unless (eq_ℤ offset.x (pos 0) && eq_ℤ offset.y (pos 0))
                        (offset_for_next_frame offset) (t.moved offset))
                      (Turns-append (Turns-one t.drawn) Turns-none)))))))))

content-IsSilent : IsSilent tells_content
unfolding tells_content
content-IsSilent = record {
  buffer_size = refl;
  buffer_scale = refl;
  destination = refl;
  source = refl;
  drawn = refl;
  moved = λ p. refl;
  damage = λ r. refl;
  set = λ b r. refl;
  view = λ v b r. refl;
}

opaque-IsSilent : IsSilent tells_opaque
unfolding tells_opaque
opaque-IsSilent = record {
  buffer_size = refl;
  buffer_scale = refl;
  destination = refl;
  source = refl;
  drawn = refl;
  moved = λ p. refl;
  damage = λ r. refl;
  set = λ b r. refl;
  view = λ v b r. refl;
}

pub finish-content :
    (b : Buffers) (views : List ℕ) (size : Size) (s : Surface)
    → Turns tells_content
        (finish b views size s).1
        s.has_content
        (finish b views size s).0.has_content
unfolding finish tells_content
finish-content b views size s =
    let applied = apply_pending b size s in
    Turns-append (Turns-unless (eq_bool s.is_opaque applied.is_opaque) is_opaque_changed refl) (
      Turns-append (Turns-if s.viewport (Turns-check applied (λ e. refl)) Turns-none) (
        commit_effects-Turns views s.pending.offset s (finish b views size s).0 content-IsSilent
          (Turns-eq_bool s.has_content applied.has_content has_content_changed refl)))

pub finish-opaque :
    (b : Buffers) (views : List ℕ) (size : Size) (s : Surface)
    → Turns tells_opaque (finish b views size s).1 s.is_opaque (finish b views size s).0.is_opaque
unfolding finish tells_opaque
finish-opaque b views size s =
    let applied = apply_pending b size s in
    Turns-append (Turns-eq_bool s.is_opaque applied.is_opaque is_opaque_changed refl) (
      Turns-append (Turns-if s.viewport (Turns-check applied (λ e. refl)) Turns-none) (
        commit_effects-Turns views s.pending.offset s (finish b views size s).0 opaque-IsSilent
          (Turns-unless (eq_bool s.has_content applied.has_content) has_content_changed refl)))
