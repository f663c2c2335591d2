-- ===== src/Outputs/Tests.antt =====
-- Runs of the model of output configurations, and examples of its theorems.
use aurora_compositor.Base.{◌≡◌, refl, ◌+◌, true, List, [], ◌∷◌, none, some, if◌then◌else◌, count}
use aurora_compositor.Base.Int.{pos}
use aurora_compositor.Outputs.{
  new_configuration, apply, config_error, unconfigured_head, check_heads, enable_head, disable_head,
}
use aurora_compositor.Outputs.Head.{new_head}
use aurora_compositor.Outputs.Properties.{
  HeadRequest, mode_wanted, custom_mode_wanted, position_wanted, transform_wanted, scale_wanted,
  run, first, position_asked, transform_asked, scale_asked, run-takes_first,
}
use aurora_compositor.Outputs.Modes.{has_one_mode, run-has_one_mode}
use aurora_compositor.Outputs.Applying
use aurora_compositor.Outputs.Applying.{
  ConfigRequest, enabled, disabled, applied, is_ready, all_named, names, apply-is_ready,
}
use aurora_compositor.Outputs.Heads.{run-lists_once}

abbrev requests : List HeadRequest
requests =
    mode_wanted (some 2)
    ∷ position_wanted (record { x = pos 3; y = pos 4 })
    ∷ transform_wanted (pos 9)
    ∷ transform_wanted (pos 1)
    ∷ custom_mode_wanted (record { width = pos 640; height = pos 480 }) (pos 60000)
    ∷ scale_wanted (pos 512)
    ∷ scale_wanted (pos 256)
    ∷ []

run-takes_first_example :
    ((run (1 ∷ 2 ∷ []) requests new_head).position
      ≡ first position_asked new_head.position requests)
    × ((run (1 ∷ 2 ∷ []) requests new_head).transform ≡ first transform_asked (pos 0) requests)
    × ((run (1 ∷ 2 ∷ []) requests new_head).scale ≡ first scale_asked (pos 256) requests)
run-takes_first_example = run-takes_first (1 ∷ 2 ∷ []) requests

run-has_one_mode_example : has_one_mode (1 ∷ 2 ∷ []) (run (1 ∷ 2 ∷ []) requests new_head) ≡ true
run-has_one_mode_example = run-has_one_mode (1 ∷ 2 ∷ []) requests

first_transform : first transform_asked (pos 0) requests ≡ pos 1
unfolding first transform_asked
first_transform = refl

abbrev config_requests : List ConfigRequest
config_requests =
    enabled (some 1)
    ∷ disabled (some 2)
    ∷ enabled (some 2)
    ∷ applied (1 ∷ 2 ∷ [])
    ∷ disabled none
    ∷ []

apply-is_ready_example :
    is_ready (apply (1 ∷ 2 ∷ []) (Applying.run config_requests new_configuration)).1
    ≡ all_named (1 ∷ 2 ∷ []) config_requests
apply-is_ready_example = apply-is_ready (1 ∷ 2 ∷ []) config_requests

run-lists_once_example :
    count 2 (Applying.run config_requests new_configuration).enabled_heads
      + count 2 (Applying.run config_requests new_configuration).disabled_heads
    ≡ (if names 2 config_requests then 1 else 0)
run-lists_once_example = run-lists_once 2 config_requests

missing_head :
    (apply (3 ∷ []) (Applying.run config_requests new_configuration)).1
    ≡ config_error (unconfigured_head 3) ∷ []
unfolding apply check_heads Applying.run Applying.step enable_head disable_head
missing_head = refl
