-- ===== src/Xdg/Popup.antt =====
-- WaylandXdgPopup and WaylandXdgPopupPrivate. A surface is named by a number.
pub mod Acks
pub mod Parent
use Prim.Native.Nat.{bit_and}
use aurora_compositor.Base.{
  ℕ, Bool, true, false, not, ◌||◌, List, [], ◌∷◌, ◌++◌, Option, none, some, ◌==◌, if◌then◌else◌,
}
use aurora_compositor.Geometry.{Size, Point, Rect, no_rect, eq_rect}
use aurora_compositor.Xdg.Effect.{
  Effect, post_error, warning, emit, invalid_popup_parent, send_popup_configure,
  send_surface_configure, configured_geometry_changed, parent_surface_changed,
}
use aurora_compositor.Xdg.Positioner.{PositionerData, unconstrained_position}

pub record ConfigureEvent : Type 0 where
  pub geometry : Rect
  pub serial : ℕ

-- `awaits_redraw`: the slot `handleRedraw` is connected to the surface.
pub record Popup : Type 0 where
  pub parent_xdg_surface : Option ℕ
  pub parent_surface : Option ℕ
  pub positioner_data : PositionerData
  pub geometry : Rect
  pub pending_configures : List ConfigureEvent
  pub awaits_redraw : Bool

unfoldable pub send_configure : ℕ → Rect → Popup → Popup × ℕ × List Effect
send_configure serial geometry p = (
  record p {
    pending_configures =
        p.pending_configures ++ record { geometry = geometry; serial = serial } ∷ [];
  },
  serial,
  send_popup_configure geometry ∷ send_surface_configure serial ∷ [],
)

-- Where the popup goes if nothing constrains it.
unfoldable pub initial_geometry : PositionerData → Rect
initial_geometry d =
    let at = unconstrained_position d in
    record { x = at.x; y = at.y; width = d.size.width; height = d.size.height }

-- The constructor; the window type is set by its caller.
unfoldable pub new_popup : ℕ → Option ℕ → PositionerData → Popup × List Effect
unfolding initial_geometry send_configure
new_popup serial parent d =
    let blank : Popup = record {
      parent_xdg_surface = parent;
      parent_surface = none;
      positioner_data = d;
      geometry = no_rect;
      pending_configures = [];
      awaits_redraw = true;
    } in
    let (p, _, log) = send_configure serial (initial_geometry d) blank in (p, log)

unfoldable pub take_acked : ℕ → List ConfigureEvent → Option (ConfigureEvent × List ConfigureEvent)
take_acked serial [] = none
take_acked serial (c ∷ cs) = if c.serial == serial then some (c, cs) else take_acked serial cs

unfoldable pub handle_ack_configure : ℕ → Popup → Popup × List Effect
handle_ack_configure serial p = elim (take_acked serial p.pending_configures) [
  | none ↦ (record p { pending_configures = [] }, warning ∷ [])
  | some (config, rest) ↦
      if eq_rect p.geometry config.geometry then (record p { pending_configures = rest }, []) else (
        record p { pending_configures = rest; geometry = config.geometry },
        emit configured_geometry_changed ∷ [],
      )
]

abbrev has_parent : Option ℕ → Option ℕ → Bool
has_parent none none = false
has_parent none (some _) = true
has_parent (some _) _ = true

unfoldable pub set_parent_surface : Option ℕ → Popup → Popup × List Effect
set_parent_surface surface p =
    if has_parent p.parent_xdg_surface p.parent_surface then (p, warning ∷ []) else (
      record p { parent_xdg_surface = none; parent_surface = surface },
      emit parent_surface_changed ∷ [],
    )

abbrev redraw : Option ℕ → Popup → Popup × List Effect
redraw none p = (p, post_error invalid_popup_parent ∷ [])
redraw (some _) p = (record p { awaits_redraw = false }, [])

-- The slot runs only while it is connected.
unfoldable pub handle_redraw : Popup → Popup × List Effect
handle_redraw p = if p.awaits_redraw then redraw p.parent_surface p else (p, [])

-- `Qt::Orientations`.
pub record Orientations : Type 0 where
  pub horizontal : Bool
  pub vertical : Bool

abbrev has_flag : ℕ → ℕ → Bool
has_flag flags flag = not (bit_and flags flag == 0)

unfoldable pub slide_constraints : Popup → Orientations
slide_constraints p = record {
  horizontal = has_flag p.positioner_data.constraint_adjustments 1;
  vertical = has_flag p.positioner_data.constraint_adjustments 2;
}

unfoldable pub flip_constraints : Popup → Orientations
flip_constraints p = record {
  horizontal = has_flag p.positioner_data.constraint_adjustments 4;
  vertical = has_flag p.positioner_data.constraint_adjustments 8;
}

unfoldable pub resize_constraints : Popup → Orientations
resize_constraints p = record {
  horizontal = has_flag p.positioner_data.constraint_adjustments 16;
  vertical = has_flag p.positioner_data.constraint_adjustments 32;
}

-- What may happen to a popup after its construction.
pub data Call : Type 0 where
  configures : ℕ → Rect → Call
  acks : ℕ → Call
  parents : Option ℕ → Call
  redraws : Call

unfoldable pub apply : Call → Popup → Popup
apply (configures serial geometry) p = (send_configure serial geometry p).0
apply (acks serial) p = (handle_ack_configure serial p).0
apply (parents surface) p = (set_parent_surface surface p).0
apply redraws p = (handle_redraw p).0

unfoldable pub apply_all : List Call → Popup → Popup
apply_all [] p = p
apply_all (c ∷ cs) p = apply_all cs (apply c p)
