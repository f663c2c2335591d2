-- ===== src/Xdg/Toplevel.antt =====
-- WaylandXdgToplevel and WaylandXdgToplevelPrivate. A state of the window is its number in the
-- protocol, since `sendConfigure` takes any number; an object is named by a number.
pub mod Acks
pub mod Modes
pub mod Showing
pub mod Limits
pub mod Changes
use Prim.Native.Nat.{bit_and, bit_or}
use text.Mathlib.Text.{◌==◌ as str_eq}
use Prim.Native.String.{String}
use aurora_compositor.Base.{
  ℕ, ◌+◌, ◌*◌, ◌/◌, ◌≤◌, Bool, true, false, not, ◌&&◌, ◌||◌, List, [], ◌∷◌, ◌++◌, Option, none,
  some, ltb, ◌==◌, if◌then◌else◌, contains, last_or,
}
use aurora_compositor.Base.Int.{ℤ, pos, ltb_ℤ}
use aurora_compositor.Geometry.{Size, Edges, no_size, zero_size, is_valid, eq_size}
use aurora_compositor.Xdg.Effect.{
  Effect, Signal, warning, emit, send_toplevel_configure, send_surface_configure, maximized_changed,
  fullscreen_changed, resizing_changed, activated_changed, states_changed, parent_toplevel_changed,
  title_changed, app_id_changed, max_size_changed, min_size_changed,
}

abbrev pub maximized_state : ℕ
maximized_state = 1

abbrev pub fullscreen_state : ℕ
fullscreen_state = 2

abbrev pub resizing_state : ℕ
resizing_state = 3

abbrev pub activated_state : ℕ
activated_state = 4

pub record ConfigureEvent : Type 0 where
  pub states : List ℕ
  pub size : Size
  pub serial : ℕ

pub record Toplevel : Type 0 where
  pub parent_toplevel : Option ℕ
  pub pending_configures : List ConfigureEvent
  pub last_acked_configure : ConfigureEvent
  pub title : String
  pub app_id : String
  pub max_size : Size
  pub min_size : Size

abbrev pub default_configure : ConfigureEvent
default_configure = record { states = []; size = zero_size; serial = 0 }

unfoldable pub blank_toplevel : Toplevel
blank_toplevel = record {
  parent_toplevel = none;
  pending_configures = [];
  last_acked_configure = default_configure;
  title = "";
  app_id = "";
  max_size = no_size;
  min_size = zero_size;
}

unfoldable pub last_sent_configure : Toplevel → ConfigureEvent
last_sent_configure t = last_or t.last_acked_configure t.pending_configures

-- `removeOne`: the first occurrence goes.
unfoldable pub remove_one : ℕ → List ℕ → List ℕ
remove_one s [] = []
remove_one s (x ∷ xs) = if x == s then xs else x ∷ remove_one s xs

unfoldable pub append_missing : ℕ → List ℕ → List ℕ
append_missing s xs = if contains s xs then xs else xs ++ s ∷ []

-- The serial that the compositor's `nextSerial` returns is the argument `serial`. The result is 0,
-- and nothing is sent, for an invalid size.
unfoldable pub send_configure : ℕ → Size → List ℕ → Toplevel → Toplevel × ℕ × List Effect
send_configure serial size states t =
    if is_valid size
    then (
      record t {
        pending_configures =
            t.pending_configures ++ record { states = states; size = size; serial = serial } ∷ [];
      },
      serial,
      send_toplevel_configure size states ∷ send_surface_configure serial ∷ [],
    )
    else (t, 0, warning ∷ [])

unfoldable pub send_maximized : ℕ → Size → Toplevel → Toplevel × ℕ × List Effect
send_maximized serial size t =
    let states = append_missing maximized_state (last_sent_configure t).states in
    send_configure serial size (remove_one resizing_state (remove_one fullscreen_state states)) t

unfoldable pub send_unmaximized : ℕ → Size → Toplevel → Toplevel × ℕ × List Effect
send_unmaximized serial size t =
    let states = remove_one maximized_state (last_sent_configure t).states in
    send_configure serial size (remove_one resizing_state (remove_one fullscreen_state states)) t

unfoldable pub send_fullscreen : ℕ → Size → Toplevel → Toplevel × ℕ × List Effect
send_fullscreen serial size t =
    let states = append_missing fullscreen_state (last_sent_configure t).states in
    send_configure serial size (remove_one resizing_state (remove_one maximized_state states)) t

unfoldable pub send_resizing : ℕ → Size → Toplevel → Toplevel × ℕ × List Effect
send_resizing serial max_size t =
    let states = append_missing resizing_state (last_sent_configure t).states in
    send_configure serial max_size (remove_one fullscreen_state (remove_one maximized_state states))
      t

unfoldable pub handle_focus_lost : ℕ → Toplevel → Toplevel × ℕ × List Effect
handle_focus_lost serial t =
    let current = last_sent_configure t in
    send_configure serial current.size (remove_one activated_state current.states) t

unfoldable pub handle_focus_received : ℕ → Toplevel → Toplevel × ℕ × List Effect
handle_focus_received serial t =
    let current = last_sent_configure t in
    if contains activated_state current.states
    then (t, 0, [])
    else send_configure serial current.size (current.states ++ activated_state ∷ []) t

-- The constructor's first configure lets the client choose its size.
unfoldable pub new_toplevel : ℕ → Toplevel × ℕ × List Effect
unfolding blank_toplevel
new_toplevel serial = send_configure serial zero_size [] blank_toplevel

-- The loop over the pending configures: those before the acknowledged one are dropped with it, and
-- none is left where the serial is unknown.
unfoldable pub take_acked : ℕ → List ConfigureEvent → Option (ConfigureEvent × List ConfigureEvent)
take_acked serial [] = none
take_acked serial (c ∷ cs) = if c.serial == serial then some (c, cs) else take_acked serial cs

-- `std::set_symmetric_difference` of two ranges, which merges them.
unfoldable pub symmetric_difference : List ℕ → List ℕ → List ℕ
symmetric_difference [] ys = ys
symmetric_difference (x ∷ xs) [] = x ∷ xs
symmetric_difference (x ∷ xs) (y ∷ ys) =
    let first = x ∷ symmetric_difference xs (y ∷ ys) in
    let second = y ∷ symmetric_difference (x ∷ xs) ys in
    let neither = symmetric_difference xs ys in
    if ltb x y then first else if ltb y x then second else neither

unfoldable pub change_signals : List ℕ → List Effect
change_signals [] = []
change_signals (s ∷ ss) =
    let rest = change_signals ss in
    if s == maximized_state
    then emit maximized_changed ∷ rest
    else if s == fullscreen_state
    then emit fullscreen_changed ∷ rest
    else if s == resizing_state
    then emit resizing_changed ∷ rest
    else if s == activated_state
    then emit activated_changed ∷ rest
    else rest

abbrev states_signal : List ℕ → List Effect
states_signal [] = []
states_signal (_ ∷ _) = emit states_changed ∷ []

unfoldable pub handle_ack_configure : ℕ → Toplevel → Toplevel × List Effect
handle_ack_configure serial t = elim (take_acked serial t.pending_configures) [
  | none ↦ (record t { pending_configures = [] }, warning ∷ [])
  | some (config, rest) ↦
      let changed = symmetric_difference t.last_acked_configure.states config.states in
      (
        record t { pending_configures = rest; last_acked_configure = config },
        change_signals changed ++ states_signal changed,
      )
]

-- The Qt edges of the protocol's `resize_edge`, as numbers.
unfoldable pub convert_to_edges : ℕ → ℕ
convert_to_edges edge = bit_or (bit_or (bit_and edge 12 / 2) (bit_and edge 2 * 4)) (bit_and edge 1)

unfoldable pub set_title : String → Toplevel → Toplevel × List Effect
set_title title t =
    if str_eq title t.title then (t, []) else (record t { title = title }, emit title_changed ∷ [])

unfoldable pub set_app_id : String → Toplevel → Toplevel × List Effect
set_app_id app_id t =
    if str_eq app_id t.app_id
    then (t, [])
    else (record t { app_id = app_id }, emit app_id_changed ∷ [])

-- Zero in both dimensions means that there is no limit.
abbrev limit_of : ℤ → ℤ → Size
limit_of width height =
    let size : Size = record { width = width; height = height } in
    if eq_size size zero_size then no_size else size

-- One size is smaller than another in some dimension.
abbrev pub is_smaller : Size → Size → Bool
is_smaller s t = ltb_ℤ s.width t.width || ltb_ℤ s.height t.height

unfoldable pub set_max_size : ℤ → ℤ → Toplevel → Toplevel × List Effect
set_max_size width height t =
    let max_size = limit_of width height in
    if eq_size t.max_size max_size
    then (t, [])
    else if ltb_ℤ width (pos 0) || ltb_ℤ height (pos 0)
    then (t, warning ∷ [])
    else if is_valid t.min_size && is_valid max_size && is_smaller max_size t.min_size
    then (t, warning ∷ [])
    else (record t { max_size = max_size }, emit max_size_changed ∷ [])

unfoldable pub set_min_size : ℤ → ℤ → Toplevel → Toplevel × List Effect
set_min_size width height t =
    let min_size = limit_of width height in
    if eq_size t.min_size min_size
    then (t, [])
    else if ltb_ℤ width (pos 0) || ltb_ℤ height (pos 0)
    then (t, warning ∷ [])
    else if is_valid t.max_size && is_valid min_size && is_smaller t.max_size min_size
    then (t, warning ∷ [])
    else (record t { min_size = min_size }, emit min_size_changed ∷ [])

-- What may happen to a toplevel: the compositor's calls, with the serial that `nextSerial` returns,
-- and the client's requests.
pub data Call : Type 0 where
  configures : ℕ → Size → List ℕ → Call
  maximizes unmaximizes fullscreens resizes : ℕ → Size → Call
  loses_focus gains_focus : ℕ → Call
  acks : ℕ → Call
  titles identifies : String → Call
  limits_max limits_min : ℤ → ℤ → Call

unfoldable pub apply : Call → Toplevel → Toplevel
apply (configures serial size states) t = (send_configure serial size states t).0
apply (maximizes serial size) t = (send_maximized serial size t).0
apply (unmaximizes serial size) t = (send_unmaximized serial size t).0
apply (fullscreens serial size) t = (send_fullscreen serial size t).0
apply (resizes serial size) t = (send_resizing serial size t).0
apply (loses_focus serial) t = (handle_focus_lost serial t).0
apply (gains_focus serial) t = (handle_focus_received serial t).0
apply (acks serial) t = (handle_ack_configure serial t).0
apply (titles title) t = (set_title title t).0
apply (identifies app_id) t = (set_app_id app_id t).0
apply (limits_max width height) t = (set_max_size width height t).0
apply (limits_min width height) t = (set_min_size width height t).0

-- `expandedTo` and `boundedTo` of QSize.
abbrev pub max_ℤ : ℤ → ℤ → ℤ
max_ℤ a b = if ltb_ℤ a b then b else a

abbrev pub min_ℤ : ℤ → ℤ → ℤ
min_ℤ a b = if ltb_ℤ b a then b else a

abbrev pub expanded_to : Size → Size → Size
expanded_to s t = record { width = max_ℤ s.width t.width; height = max_ℤ s.height t.height }

abbrev pub bounded_to : Size → Size → Size
bounded_to s t = record { width = min_ℤ s.width t.width; height = min_ℤ s.height t.height }

-- `qreal`, its sum and difference, and its conversion to an `int` are the platform's.
module _ {Real : Type 0} (◌⊹◌ ◌∸◌ : Real → Real → Real) (to_int : Real → ℤ) where
  infixl 65 ◌⊹◌ ◌∸◌
  unfoldable pub size_for_resize : Real → Real → Real → Real → Edges → Toplevel → Size
  size_for_resize width height dx dy edges t =
      let w = (if edges.left then width ∸ dx else if edges.right then width ⊹ dx else width) in
      let h = (if edges.top then height ∸ dy else if edges.bottom then height ⊹ dy else height) in
      let wanted : Size = record { width = to_int w; height = to_int h } in
      let one : Size = record { width = pos 1; height = pos 1 } in
      let size = expanded_to (expanded_to wanted t.min_size) one in
      if is_valid t.max_size then bounded_to size t.max_size else size
