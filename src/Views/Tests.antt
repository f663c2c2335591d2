-- ===== src/Views/Tests.antt =====
-- Runs of the views on small inputs.
use aurora_compositor.Base.{count, ◌≡◌, refl, true, none, some, List, [], ◌∷◌, if◌then◌else◌}
use aurora_compositor.Views.{
  Scene, ViewOp, same, advance, empty_scene, show_surface, make_primary, go_on, deliver,
  allow_discard, step, run, set_surface, change_surface, clear_front_buffer, ref_view, deref_view,
  buffer_committed, set_primary_view, discard_other, discard_others, discard_current_buffer,
}
use aurora_compositor.Views.Listing.{run_lists_views}

-- Two views show the surface 5, and both have its buffer 9; then it gets the buffer 10.
abbrev two_views : List ViewOp
two_views =
    show_surface 1 (some 5)
    ∷ show_surface 2 (some 5)
    ∷ allow_discard 2 true
    ∷ go_on 1
    ∷ go_on 2
    ∷ make_primary 5 1
    ∷ deliver 1 (some 10)
    ∷ []

abbrev scene : Scene
scene = run two_views (empty_scene (λ s. some 9))

gives_up : ((advance 1 scene).0.view 2).current_buffer ≡ none
unfolding run step set_surface change_surface clear_front_buffer ref_view deref_view
    buffer_committed set_primary_view discard_other discard_others discard_current_buffer advance
gives_up = refl

run_lists_views_example :
    count 2 (scene.views 5) ≡ (if same (scene.view 2).surface (some 5) then 1 else 0)
run_lists_views_example = run_lists_views two_views (λ s. some 9) 2 5
