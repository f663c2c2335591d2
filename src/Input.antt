-- ===== src/Input.antt =====
-- The input devices of a seat, in compositor/compositor_api under src/: aurorawaylandseat.cpp,
-- aurorawaylandkeyboard.cpp and aurorawaylandpointer.cpp. Surfaces, clients and protocol resources are
-- named by numbers.
pub mod Keyboard
pub mod Pointer
pub mod Devices
mod Tests
use aurora_compositor.Base.{ℕ, Bool, true, false, Option, none, some, ◌==◌}

-- The wl_client of a surface, its client object, and the client that a seat is reserved for.
pub record Seat : Type 0 where
  pub wayland_client : ℕ → ℕ
  pub client : ℕ → Option ℕ
  pub is_cursor_surface : ℕ → Bool
  pub exclusive_client : Option ℕ

abbrev pub is_client : ℕ → Option ℕ → Bool
is_client c none = true
is_client c (some d) = c == d

abbrev pub allows : Option ℕ → Option ℕ → Bool
allows none client = true
allows (some c) client = is_client c client

-- `isInputAllowed`: no client, no surface and a surface without a client object pass.
unfoldable pub is_input_allowed : Option ℕ → Seat → Bool
is_input_allowed none seat = true
is_input_allowed (some s) seat = allows seat.exclusive_client (seat.client s)

unfoldable pub set_exclusive_client : Option ℕ → Seat → Seat
set_exclusive_client c seat = record seat { exclusive_client = c }
