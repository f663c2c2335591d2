-- ===== src/Views/Discarding.antt =====
-- What `advance` does to the buffers of the views.
use aurora_compositor.Base.{
  ℕ, ◌≡◌, ◌≢◌, refl, ◌∙◌, true, not, ◌&&◌, ◌||◌, List, [], ◌∷◌, none, arith, ◌==◌, if◌then◌else◌,
}
use aurora_compositor.Views.{
  View, Scene, same, has, discard_current_buffer, discard_other, discard_others, primary_views,
  advance,
}

-- A view after it gave up its buffer.
abbrev given_up : View → View
given_up x = record x { current_buffer = none; force_advance_succeed = true }

discard_other-view :
    (this v : ℕ) (w : Scene) (u : ℕ)
    → ((discard_other this v w).view u ≡ (
        if u == v
          && not (u == this)
          && (w.view u).allow_discard_front_buffer
          && same (w.view u).current_buffer (w.view this).current_buffer
        then given_up (w.view u)
        else w.view u))
      × ((discard_other this v w).views ≡ w.views)
unfolding discard_other discard_current_buffer
discard_other-view this v w u = ground arith

pub discard_others-view :
    (this : ℕ) (vs : List ℕ) (w : Scene) (u : ℕ)
    → (discard_others this vs w).view u ≡ (
        if has u vs
          && not (u == this)
          && (w.view u).allow_discard_front_buffer
          && same (w.view u).current_buffer (w.view this).current_buffer
        then given_up (w.view u)
        else w.view u)
unfolding discard_others
discard_others-view this [] w u = refl
discard_others-view this (v ∷ vs) w u = ground (
  arith,
  discard_others-view this vs (discard_other this v w) u,
  discard_other-view this v w u,
  discard_other-view this v w this,
)

pub discard_others-views :
    (this : ℕ) (vs : List ℕ) (w : Scene) → (discard_others this vs w).views ≡ w.views
unfolding discard_others
discard_others-views this [] w = refl
discard_others-views this (v ∷ vs) w =
    discard_others-views this vs (discard_other this v w) ∙ (discard_other-view this v w 0).1

-- A view advances exactly if a buffer was committed or its own was discarded, and it is not locked.
-- Then its current buffer is the last one committed; and, if it is the primary view of its surface,
-- another view of that surface that allows it gives up its current buffer if the two had the same.
-- Otherwise both keep their current buffers.
advance_lem :
    (v u : ℕ) (w : Scene)
    → u ≢ v
    → let advances =
        ((w.view v).next_buffer_committed || (w.view v).force_advance_succeed)
        && not (w.view v).buffer_locked in
      let gives_up =
        advances
        && has u (primary_views v (w.view v).surface w)
        && (w.view u).allow_discard_front_buffer
        && same (w.view u).current_buffer (w.view v).current_buffer in
      ((advance v w).1 ≡ advances)
      × (((advance v w).0.view v).current_buffer
          ≡ (if advances then (w.view v).next_buffer else (w.view v).current_buffer))
      × (((advance v w).0.view u).current_buffer
          ≡ (if gives_up then none else (w.view u).current_buffer))
unfolding advance
advance_lem v u w h = ground (
  arith,
  discard_others-view v (primary_views v (w.view v).surface w) w u,
  discard_others-view v (primary_views v (w.view v).surface w) w v,
)
