-- ===== src/SessionLock/Surface.antt =====
-- A lock surface: WaylandExtSessionLockSurfaceV1 and its private class.
use aurora_compositor.Base.{
  ℕ, Bool, true, false, not, ◌||◌, List, [], ◌∷◌, ◌++◌, none, some, if◌then◌else◌, take_until,
}
use aurora_compositor.Base.Int.{ltb_ℤ, eq_ℤ, pos}
use aurora_compositor.Geometry.{Size, zero_size}

pub data SurfaceError : Type 0 where
  null_buffer commit_before_first_ack dimensions_mismatch invalid_serial : SurfaceError

pub data SurfaceEffect : Type 0 where
  post_error : SurfaceError → SurfaceEffect
  warning : SurfaceEffect
  send_configure_event : ℕ → Size → SurfaceEffect

pub record ConfigureEvent : Type 0 where
  pub serial : ℕ
  pub size : Size

pub record SurfaceState : Type 0 where
  pub configured : Bool
  pub pending_configures : List ConfigureEvent
  pub last_acked_configure : ConfigureEvent

abbrev pub blank_surface : SurfaceState
blank_surface = record {
  configured = false;
  pending_configures = [];
  last_acked_configure = record { serial = 0; size = zero_size };
}

-- The serial is the one that the compositor's `nextSerial` returns.
unfoldable pub send_configure : ℕ → Size → SurfaceState → SurfaceState × List SurfaceEffect
send_configure serial size s = (
  record s {
    pending_configures = s.pending_configures ++ record { serial = serial; size = size } ∷ [];
  },
  send_configure_event serial size ∷ [],
)

-- The constructor sends the size of the output.
unfoldable pub new_lock_surface : ℕ → Size → SurfaceState × List SurfaceEffect
new_lock_surface serial output_size = send_configure serial output_size blank_surface

-- The slot that checks a surface, whose size in the scene is `current`. The constructor connects it to a
-- signal `damaged()` that surfaces do not have, so nothing calls it.
unfoldable pub handle_surface_damaged : Bool → Size → SurfaceState → List SurfaceEffect
handle_surface_damaged has_content current s =
    let size = s.last_acked_configure.size in
    if not has_content
    then post_error null_buffer ∷ []
    else if not s.configured
    then post_error commit_before_first_ack ∷ []
    else if ltb_ℤ current.width (pos 0)
        || ltb_ℤ current.height (pos 0)
        || not (eq_ℤ current.width size.width)
        || not (eq_ℤ current.height size.height)
    then post_error dimensions_mismatch ∷ []
    else []

abbrev pub serial_of : ConfigureEvent → ℕ
serial_of c = c.serial

-- The loop takes configures from the queue until the serial is found. The error for a wrong serial
-- that the code has after the loop stands under a test that is never true.
unfoldable pub ack_configure : ℕ → SurfaceState → SurfaceState × List SurfaceEffect
ack_configure serial s = elim (take_until serial_of serial s.pending_configures) [
  | none ↦ (record s { pending_configures = [] }, warning ∷ [])
  | some (config, rest) ↦
      (record s { pending_configures = rest; last_acked_configure = config; configured = true }, [])
]
