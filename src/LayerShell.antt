-- ===== src/LayerShell.antt =====
-- The layer shell, compositor/extensions/aurorawaylandwlrlayershellv1.cpp and its private header
-- under src/: the surfaces of panels, docks and backgrounds. Layers, sets of anchors and kinds of
-- keyboard interactivity are numbers, as in the protocol.
pub mod Shell
pub mod Mapping
pub mod Signals
pub mod Layout
mod Tests
use aurora_compositor.Base.{
  ℕ, ◌+◌, ◌-◌, ◌<◌, Bool, true, false, not, ◌&&◌, ◌||◌, List, [], ◌∷◌, ◌++◌, Option, none, some,
  ◌==◌, ltb, if◌then◌else◌, take_until, last_or,
}
use aurora_compositor.Base.Int.{ℤ, pos, negsuc, eq_ℤ}
use aurora_compositor.Geometry.{Size, zero_size, is_valid, eq_size}

pub data LayerError : Type 0 where
  invalid_layer invalid_anchor already_constructed : LayerError

pub data LayerSignal : Type 0 where
  layer_changed size_changed anchors_changed exclusive_zone_changed : LayerSignal
  left_margin_changed right_margin_changed top_margin_changed bottom_margin_changed : LayerSignal
  keyboard_interactivity_changed changed mapped_changed configured_changed : LayerSignal
  layer_surface_created : ℕ → LayerSignal
  xdg_popup_parent_changed : ℕ → LayerSignal

pub data LayerEffect : Type 0 where
  post_error : LayerError → LayerEffect
  warning send_closed : LayerEffect
  emit : LayerSignal → LayerEffect
  send_configure_event : ℕ → Size → LayerEffect

pub record Margins : Type 0 where
  pub left : ℤ
  pub top : ℤ
  pub right : ℤ
  pub bottom : ℤ

abbrev pub eq_margins : Margins → Margins → Bool
eq_margins m n =
    eq_ℤ m.left n.left && eq_ℤ m.top n.top && eq_ℤ m.right n.right && eq_ℤ m.bottom n.bottom

pub record State : Type 0 where
  pub layer : ℕ
  pub desired_size : Size
  pub anchors : ℕ
  pub exclusive_zone : ℤ
  pub margins : Margins
  pub keyboard_interactivity : ℕ

abbrev pub background_layer : ℕ
background_layer = 0

abbrev pub overlay_layer : ℕ
overlay_layer = 3

abbrev pub no_keyboard_interactivity : ℕ
no_keyboard_interactivity = 0

-- top 1, bottom 2, left 4, right 8, all of them set.
abbrev pub max_anchor : ℕ
max_anchor = 15

abbrev pub default_state : State
default_state = record {
  layer = background_layer;
  desired_size = zero_size;
  anchors = 0;
  exclusive_zone = pos 0;
  margins = record { left = pos 0; top = pos 0; right = pos 0; bottom = pos 0 };
  keyboard_interactivity = no_keyboard_interactivity;
}

pub record ConfigureEvent : Type 0 where
  pub serial : ℕ
  pub size : Size

-- The member `serverPending` is not used by the code.
pub record LayerSurface : Type 0 where
  pub added : Bool
  pub configured : Bool
  pub mapped : Bool
  pub closed : Bool
  pub client_pending : State
  pub current : State
  pub pending_configures : List ConfigureEvent
  pub last_acked_configure : ConfigureEvent

abbrev pub blank_layer_surface : LayerSurface
blank_layer_surface = record {
  added = false;
  configured = false;
  mapped = false;
  closed = false;
  client_pending = default_state;
  current = default_state;
  pending_configures = [];
  last_acked_configure = record { serial = 0; size = zero_size };
}

unfoldable pub new_layer_surface : ℕ → LayerSurface
new_layer_surface layer = record blank_layer_surface {
  current = record default_state { layer = layer };
  client_pending = record default_state { layer = layer };
}

unfoldable pub last_sent_configure : LayerSurface → ConfigureEvent
last_sent_configure s = last_or s.last_acked_configure s.pending_configures

unfoldable pub unmap : LayerSurface → LayerSurface × List LayerEffect
unmap s = (
  record s { pending_configures = []; mapped = false; configured = false },
  (if s.mapped then emit mapped_changed ∷ [] else [])
      ++ (if s.configured then emit configured_changed ∷ [] else []),
)

-- A number of 32 bits without sign as an `int`.
abbrev pub to_int : ℕ → ℤ
to_int n = if ltb n 0x80000000 then pos n else negsuc (0xffffffff - n)

unfoldable pub set_size : ℕ → ℕ → LayerSurface → LayerSurface
set_size width height s = record s {
  client_pending = record (s.client_pending) {
    desired_size = record { width = to_int width; height = to_int height };
  };
}

unfoldable pub set_anchor : ℕ → LayerSurface → LayerSurface × List LayerEffect
set_anchor anchor s =
    if ltb max_anchor anchor
    then (s, post_error invalid_anchor ∷ [])
    else (record s { client_pending = record (s.client_pending) { anchors = anchor } }, [])

unfoldable pub set_exclusive_zone : ℤ → LayerSurface → LayerSurface
set_exclusive_zone zone s = record s {
  client_pending = record (s.client_pending) { exclusive_zone = zone };
}

unfoldable pub set_margin : ℤ → ℤ → ℤ → ℤ → LayerSurface → LayerSurface
set_margin top right bottom left s = record s {
  client_pending = record (s.client_pending) {
    margins = record { left = left; top = top; right = right; bottom = bottom };
  };
}

unfoldable pub set_keyboard_interactivity : ℕ → LayerSurface → LayerSurface
set_keyboard_interactivity k s = record s {
  client_pending = record (s.client_pending) { keyboard_interactivity = k };
}

unfoldable pub set_layer : ℕ → LayerSurface → LayerSurface × List LayerEffect
set_layer layer s =
    if ltb overlay_layer layer
    then (s, post_error invalid_layer ∷ [])
    else (record s { client_pending = record (s.client_pending) { layer = layer } }, [])

abbrev pub serial_of : ConfigureEvent → ℕ
serial_of c = c.serial

-- The loop takes configures from the queue until the serial is found. The error for a wrong serial
-- that the code has after the loop stands under a test that is never true.
unfoldable pub ack_configure : ℕ → LayerSurface → LayerSurface × List LayerEffect
ack_configure serial s = elim (take_until serial_of serial s.pending_configures) [
  | none ↦ (record s { pending_configures = [] }, warning ∷ [])
  | some (config, rest) ↦ (
    record s { pending_configures = rest; last_acked_configure = config; configured = true },
    if s.configured then [] else emit configured_changed ∷ [],
  )
]

-- The serial is the one that the compositor's `nextSerial` returns. The result is 0 for an invalid
-- size.
unfoldable pub send_configure : ℕ → Size → LayerSurface → LayerSurface × ℕ × List LayerEffect
send_configure serial size s =
    if is_valid size
    then (
      record s {
        pending_configures = s.pending_configures ++ record { serial = serial; size = size } ∷ [];
      },
      serial,
      send_configure_event serial size ∷ [],
    )
    else (s, 0, warning ∷ [])

unfoldable pub close : LayerSurface → LayerSurface × List LayerEffect
unfolding unmap
close s =
    let (s1, effects) = unmap (record s { closed = true }) in (s1, effects ++ send_closed ∷ [])

abbrev pub signal_if : Bool → List LayerSignal → List LayerSignal
signal_if same signals = if same then [] else signals

-- The signals of what a commit changes, without `changed`.
unfoldable pub change_signals : State → State → List LayerSignal
change_signals c p =
    signal_if (c.layer == p.layer) (layer_changed ∷ [])
    ++ (signal_if (eq_size c.desired_size p.desired_size) (size_changed ∷ [])
        ++ (signal_if (c.anchors == p.anchors) (anchors_changed ∷ [])
            ++ (signal_if (eq_ℤ c.exclusive_zone p.exclusive_zone) (exclusive_zone_changed ∷ [])
                ++ (signal_if (eq_margins c.margins p.margins) (
                      left_margin_changed ∷ right_margin_changed ∷ top_margin_changed
                      ∷ bottom_margin_changed ∷ [])
                    ++ signal_if (c.keyboard_interactivity == p.keyboard_interactivity)
                        (keyboard_interactivity_changed ∷ [])))))

abbrev pub keep {ℓ} : {A : Type ℓ} → Bool → A → A → A
keep same c p = if same then c else p

-- Each member is assigned where it differs.
unfoldable pub apply_pending : State → State → State
apply_pending c p = record {
  layer = keep (c.layer == p.layer) c.layer p.layer;
  desired_size = keep (eq_size c.desired_size p.desired_size) c.desired_size p.desired_size;
  anchors = keep (c.anchors == p.anchors) c.anchors p.anchors;
  exclusive_zone = keep (eq_ℤ c.exclusive_zone p.exclusive_zone) c.exclusive_zone p.exclusive_zone;
  margins = keep (eq_margins c.margins p.margins) c.margins p.margins;
  keyboard_interactivity =
      keep (c.keyboard_interactivity == p.keyboard_interactivity) c.keyboard_interactivity
        p.keyboard_interactivity;
}

abbrev pub with_changed : List LayerSignal → List LayerEffect
with_changed [] = []
with_changed (x ∷ []) = emit x ∷ emit changed ∷ []
with_changed (x ∷ (y ∷ xs)) = emit x ∷ with_changed (y ∷ xs)

-- The slot for a commit of the surface, which asks it `hasContent`.
unfoldable pub handle_redraw : Bool → LayerSurface → LayerSurface × List LayerEffect
handle_redraw has_content s =
    if s.closed
    then (s, [])
    else if has_content && not s.configured
    then (s, warning ∷ post_error already_constructed ∷ [])
    else let effects = with_changed (change_signals s.current s.client_pending) in
      let s1 = record s { current = apply_pending s.current s.client_pending; added = true } in
      if s.configured && has_content && not s.mapped
      then (record s1 { mapped = true }, effects ++ emit mapped_changed ∷ [])
      else if s.configured && not has_content && s.mapped
      then (let (s2, more) = unmap s1 in (s2, effects ++ more))
      else (s1, effects)
