-- ===== src/Xdg/Effect.antt =====
-- What the requests of xdg-shell send to the client, signal to the compositor's user, or log.
use aurora_compositor.Base.{ℕ, List}
use aurora_compositor.Geometry.{Size, Rect}

-- The protocol errors that are posted on a resource.
pub data Error : Type 0 where
  role defunct_surfaces invalid_popup_parent invalid_positioner : Error
  already_constructed not_constructed invalid_input : Error

-- The Qt signals.
pub data Signal : Type 0 where
  maximized_changed fullscreen_changed resizing_changed activated_changed states_changed : Signal
  parent_toplevel_changed title_changed app_id_changed max_size_changed min_size_changed : Signal
  window_type_changed window_geometry_changed toplevel_created popup_created : Signal
  configured_geometry_changed parent_surface_changed xdg_surface_created : Signal
  pong : ℕ → Signal

pub data Effect : Type 0 where
  post_error : Error → Effect
  warning : Effect
  emit : Signal → Effect
  send_ping : ℕ → Effect
  send_toplevel_configure : Size → List ℕ → Effect
  send_popup_configure : Rect → Effect
  send_surface_configure : ℕ → Effect
