-- ===== src/Views/Listing.antt =====
-- A surface lists exactly the views that show it, each once.
use aurora_compositor.Base.{
  count, count-append, ℕ, ◌+◌, ◌≡◌, refl, ◌∙◌, true, false, not, ◌&&◌, List, [], ◌∷◌, Option, none,
  some, arith, ◌==◌, if◌then◌else◌, Bool-cases, inl, inr,
}
use aurora_compositor.Views.{
  Scene, same, set_view, set_views, has, remove_all, buffer_committed, ref_view, deref_view,
  clear_front_buffer, leave, enter, change_surface, set_surface, discard_current_buffer,
  primary_views, advance, set_primary_view, ViewOp, show_surface, make_primary, go_on, discard,
  deliver, lock_buffer, allow_discard, step, run, empty_scene,
}
use aurora_compositor.Views.Discarding.{discard_others-view, discard_others-views}

abbrev pub IsListed : Scene → Type 0
IsListed w = (v s : ℕ) → count v (w.views s) ≡ (if same (w.view v).surface (some s) then 1 else 0)

count-remove_all :
    (v u : ℕ) (xs : List ℕ) → count u (remove_all v xs) ≡ (if u == v then 0 else count u xs)
count-remove_all v u [] = ground arith
count-remove_all v u (x ∷ xs) = ground (arith, count-remove_all v u xs)

has-count : (v : ℕ) (xs : List ℕ) → has v xs ≡ not (count v xs == 0)
has-count v [] = refl
has-count v (x ∷ xs) = ground (arith, has-count v xs)

leave-count :
    (old : Option ℕ) (v : ℕ) (w : Scene) (u s : ℕ)
    → (count u ((leave old v w).views s)
        ≡ (if u == v && same old (some s) then 0 else count u (w.views s)))
      × ((leave old v w).view u ≡ w.view u)
unfolding deref_view
leave-count none v w u s = ground arith
leave-count (some s2) v w u s = ground (arith, count-remove_all v u (w.views s))

enter-count :
    (new : Option ℕ) (v : ℕ) (w : Scene) (u s : ℕ)
    → count v (w.views s) ≡ 0
    → (count u ((enter new v w).views s)
        ≡ count u (w.views s) + (if u == v && same new (some s) then 1 else 0))
      × (((enter new v w).view u).surface ≡ (w.view u).surface)
unfolding ref_view buffer_committed
enter-count none v w u s h = ground arith
enter-count (some s2) v w u s h =
    ground (arith, has-count v (w.views s), count-append u (w.views s) (v ∷ []))

clear_front_buffer-keeps :
    (v : ℕ) (w : Scene) (u : ℕ)
    → ((clear_front_buffer v w).views ≡ w.views)
      × (((clear_front_buffer v w).view u).surface ≡ (w.view u).surface)
unfolding clear_front_buffer
clear_front_buffer-keeps v w u = ground arith

change_surface-IsListed :
    (v : ℕ) (new : Option ℕ) (w : Scene) → IsListed w → IsListed (change_surface v new w)
unfolding change_surface
change_surface-IsListed v new w h = λ u s.
    let old = (w.view v).surface in
    let left = leave old v w in
    ground (
      arith,
      h u s,
      h v s,
      leave-count old v w u s,
      leave-count old v w v s,
      enter-count new v
          (set_view v
            (record (left.view v) {
              surface = new;
              next_buffer = none;
              next_buffer_committed = false;
            })
            left)
          u s (ground (arith, h v s, leave-count old v w v s)),
    )

pub set_surface-IsListed :
    (v : ℕ) (new : Option ℕ) (w : Scene) → IsListed w → IsListed (set_surface v new w)
unfolding set_surface
set_surface-IsListed v new w h = λ u s. ground (
  arith,
  h u s,
  change_surface-IsListed v new w h u s,
  clear_front_buffer-keeps v (change_surface v new w) u,
)

enter-surface :
    (new : Option ℕ) (v : ℕ) (w : Scene) (u : ℕ)
    → ((enter new v w).view u).surface ≡ (w.view u).surface
unfolding ref_view buffer_committed
enter-surface none v w u = refl
enter-surface (some s) v w u = ground arith

same_refl : (o : Option ℕ) → same o o ≡ true
same_refl none = refl
same_refl (some a) = ground arith

change_surface-surface :
    (v : ℕ) (new : Option ℕ) (w : Scene) → ((change_surface v new w).view v).surface ≡ new
unfolding change_surface
change_surface-surface v new w = enter-surface new v _ v ∙ ground arith

set_surface-surface :
    (v : ℕ) (new : Option ℕ) (w : Scene) → same ((set_surface v new w).view v).surface new ≡ true
unfolding set_surface
set_surface-surface v new w = elim (Bool-cases (same (w.view v).surface new)) [
  | inl e ↦ simp e refl
  | inr e ↦
      simp
        (
          e,
          (clear_front_buffer-keeps v (change_surface v new w) v).1,
          change_surface-surface v new w,
        )
        (same_refl new)
]

-- A view that a surface lists moves to the front.
to_front-IsListed :
    (s v : ℕ) (w : Scene)
    → IsListed w
    → count v (w.views s) ≡ 1
    → IsListed (set_views s (v ∷ remove_all v (w.views s)) w)
to_front-IsListed s v w h one =
    λ u t. ground (arith, h u t, h v s, count-remove_all v u (w.views s))

set_primary_view-IsListed : (s v : ℕ) (w : Scene) → IsListed w → IsListed (set_primary_view s v w)
unfolding set_primary_view
set_primary_view-IsListed s v w h = elim (Bool-cases (has v (w.views s))) [
  | inl e ↦ simp e (to_front-IsListed s v w h (ground (arith, h v s, has-count v (w.views s))))
  | inr e ↦
      let w1 = set_surface v (some s) w in
      let h1 = set_surface-IsListed v (some s) w h in
      simp e
        (to_front-IsListed s v w1 h1 (ground (arith, h1 v s, set_surface-surface v (some s) w)))
]

advance-IsListed : (v : ℕ) (w : Scene) → IsListed w → IsListed (advance v w).0
unfolding advance
advance-IsListed v w h = λ u s.
    let others = primary_views v (w.view v).surface w in
    ground (
      arith,
      h u s,
      discard_others-view v others w u,
      discard_others-view v others w v,
      discard_others-views v others w,
    )

step-IsListed : (op : ViewOp) (w : Scene) → IsListed w → IsListed (step op w)
unfolding step discard_current_buffer buffer_committed
step-IsListed (show_surface v new) w h = set_surface-IsListed v new w h
step-IsListed (make_primary s v) w h = set_primary_view-IsListed s v w h
step-IsListed (go_on v) w h = advance-IsListed v w h
step-IsListed (discard v) w h = λ u s. ground (arith, h u s)
step-IsListed (deliver v b) w h = λ u s. ground (arith, h u s)
step-IsListed (lock_buffer v locked) w h = λ u s. ground (arith, h u s)
step-IsListed (allow_discard v allowed) w h = λ u s. ground (arith, h u s)

run-IsListed : (ops : List ViewOp) (w : Scene) → IsListed w → IsListed (run ops w)
unfolding run
run-IsListed [] w h = h
run-IsListed (op ∷ ops) w h = run-IsListed ops (step op w) (step-IsListed op w h)

-- After any history of views and surfaces that starts with no views, a surface lists a view once if
-- the view shows it, and not at all otherwise.
pub run_lists_views :
    (ops : List ViewOp) (buffers : ℕ → Option ℕ) (v s : ℕ)
    → let w = run ops (empty_scene buffers) in
      count v (w.views s) ≡ (if same (w.view v).surface (some s) then 1 else 0)
run_lists_views ops buffers v s = run-IsListed ops (empty_scene buffers) (λ u t. refl) v s
