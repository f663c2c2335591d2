-- ===== src/Outputs.antt =====
-- The output configurations of wlr-output-management:
-- src/compositor/extensions/aurorawaylandwlroutputmanagementv1.cpp. Heads, modes, clients and
-- configurations are named by numbers. A scale is a wl_fixed_t, in 256ths.
pub mod Head
pub mod Applying
pub mod Properties
pub mod Modes
pub mod Heads
mod Tests
use aurora_compositor.Base.{
  ℕ, suc, zero, Bool, true, false, not, List, [], ◌∷◌, ◌++◌, Option, none, some, ◌==◌,
  if◌then◌else◌, contains,
}
use aurora_compositor.Geometry.{Size, Point}
use aurora_compositor.Base.Int.{ℤ}

pub data ConfigError : Type 0 where
  already_set invalid_mode invalid_custom_mode invalid_transform invalid_scale : ConfigError
  already_configured_head invalid_head : ConfigError
  unconfigured_head : ℕ → ConfigError

pub data ConfigEffect : Type 0 where
  mode_changed : Option ℕ → ConfigEffect
  custom_mode_changed : Size → ℤ → ConfigEffect
  position_changed : Point → ConfigEffect
  transform_changed scale_changed : ℤ → ConfigEffect
  head_enabled head_disabled head_added : ℕ → ConfigEffect
  enabled_heads_changed disabled_heads_changed ready_to_apply ready_to_test : ConfigEffect
  configuration_created client_stopped : ℕ → ConfigEffect
  config_error : ConfigError → ConfigEffect

-- `enabled_heads` has the heads of the configuration heads, which Outputs/Head models one by one.
pub record Configuration : Type 0 where
  pub enabled_heads : List ℕ
  pub disabled_heads : List ℕ
  pub configured_heads : List ℕ

abbrev pub new_configuration : Configuration
new_configuration = record { enabled_heads = []; disabled_heads = []; configured_heads = [] }

-- `head`: none for a resource without a head.
unfoldable pub enable_head : Option ℕ → Configuration → Configuration × List ConfigEffect
enable_head none c = (c, config_error invalid_head ∷ [])
enable_head (some head) c =
    if contains head c.configured_heads then (c, config_error already_configured_head ∷ []) else (
      record c {
        configured_heads = c.configured_heads ++ head ∷ [];
        enabled_heads = c.enabled_heads ++ head ∷ [];
      },
      head_enabled head ∷ enabled_heads_changed ∷ [],
    )

unfoldable pub disable_head : Option ℕ → Configuration → Configuration × List ConfigEffect
disable_head none c = (c, config_error invalid_head ∷ [])
disable_head (some head) c =
    if contains head c.configured_heads then (c, config_error already_configured_head ∷ []) else (
      record c {
        configured_heads = c.configured_heads ++ head ∷ [];
        disabled_heads = c.disabled_heads ++ head ∷ [];
      },
      head_disabled head ∷ disabled_heads_changed ∷ [],
    )

-- The loop of apply and test over the heads of the manager, and what follows it.
unfoldable pub check_heads : List ℕ → ConfigEffect → Configuration → List ConfigEffect
check_heads [] ready c = ready ∷ []
check_heads (head ∷ heads) ready c =
    let rest = check_heads heads ready c in
    if not (contains head c.configured_heads)
    then config_error (unconfigured_head head) ∷ []
    else rest

unfoldable pub apply : List ℕ → Configuration → Configuration × List ConfigEffect
unfolding check_heads
apply heads c = (c, check_heads heads ready_to_apply c)

unfoldable pub test : List ℕ → Configuration → Configuration × List ConfigEffect
unfolding check_heads
test heads c = (c, check_heads heads ready_to_test c)

-- `configurations`: the last configuration for each serial, the latest first.
pub record OutputManager : Type 0 where
  pub heads : List ℕ
  pub stopped_clients : List ℕ
  pub configurations : List (ℕ × ℕ)

unfoldable pub register_head : ℕ → OutputManager → OutputManager × List ConfigEffect
register_head head m =
    if contains head m.heads
    then (m, [])
    else (record m { heads = m.heads ++ head ∷ [] }, head_added head ∷ [])

abbrev pub insert : ℕ → ℕ → List (ℕ × ℕ) → List (ℕ × ℕ)
insert key value [] = (key, value) ∷ []
insert key value ((k, v) ∷ rest) =
    let rest' = insert key value rest in if k == key then (key, value) ∷ rest else (k, v) ∷ rest'

-- `config` is the configuration made by a slot of `configurationRequested` or after it.
unfoldable pub create_configuration : ℕ → ℕ → ℕ → OutputManager → OutputManager × List ConfigEffect
create_configuration client serial config m =
    if contains client m.stopped_clients then (m, []) else (
      record m { configurations = insert serial config m.configurations },
      configuration_created config ∷ [],
    )

unfoldable pub stop : ℕ → OutputManager → OutputManager × List ConfigEffect
stop client m =
    (record m { stopped_clients = m.stopped_clients ++ client ∷ [] }, client_stopped client ∷ [])
