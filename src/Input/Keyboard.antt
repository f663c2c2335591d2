-- ===== src/Input/Keyboard.antt =====
-- WaylandKeyboard and its private class, in the build with xkbcommon.
pub mod Focus
mod Binding
pub mod Protocol
pub mod Keys
use aurora_compositor.Base.{
  ℕ, zero, suc, ◌+◌, ◌-◌, Bool, true, false, not, ◌&&◌, ◌||◌, List, [], ◌∷◌, ◌++◌, Option, none,
  some, ◌==◌, leb, if◌then◌else◌, length,
}
use aurora_compositor.Input.{Seat, is_input_allowed}

pub record Resource : Type 0 where
  pub name : ℕ
  pub client : ℕ
  pub version : ℕ

pub record Modifiers : Type 0 where
  pub depressed : ℕ
  pub latched : ℕ
  pub locked : ℕ
  pub group : ℕ

-- What a client sees, and the signals. `resource_gone` and `surface_gone` stand for the destruction of
-- a resource and of the surface with the focus, which ends the client's focus without an event.
pub data KeyEvent : Type 0 where
  send_enter : ℕ → ℕ → List ℕ → KeyEvent
  send_leave : ℕ → ℕ → KeyEvent
  send_key : ℕ → ℕ → Bool → KeyEvent
  send_modifiers : ℕ → Modifiers → KeyEvent
  send_repeat_info_to : ℕ → ℕ → ℕ → KeyEvent
  send_keymap resource_gone : ℕ → KeyEvent
  surface_gone : KeyEvent
  focus_changed : Option ℕ → KeyEvent
  repeat_rate_changed repeat_delay_changed : ℕ → KeyEvent

-- `resources`: the newest first.
pub record Keyboard : Type 0 where
  pub focus : Option ℕ
  pub focus_resource : Option Resource
  pub resources : List Resource
  pub keys : List ℕ
  pub mods : Modifiers
  pub repeat_rate : ℕ
  pub repeat_delay : ℕ

abbrev pub new_keyboard : Keyboard
new_keyboard = record {
  focus = none;
  focus_resource = none;
  resources = [];
  keys = [];
  mods = record { depressed = 0; latched = 0; locked = 0; group = 0 };
  repeat_rate = 40;
  repeat_delay = 400;
}

-- `resourceMap().value(client)`: the newest of the client.
abbrev pub resource_of : ℕ → List Resource → Option Resource
resource_of c [] = none
resource_of c (r ∷ rs) = let rest = resource_of c rs in if r.client == c then some r else rest

abbrev pub same : Option ℕ → Option ℕ → Bool
same none none = true
same none (some b) = false
same (some a) none = false
same (some a) (some b) = a == b

abbrev pub name_of : Option Resource → Option ℕ
name_of none = none
name_of (some r) = some r.name

unfoldable pub send_enter_to : ℕ → Resource → Keyboard → List KeyEvent
send_enter_to surface r k = send_modifiers r.name k.mods ∷ send_enter r.name surface k.keys ∷ []

abbrev pub check_client : Seat → ℕ → Resource → Keyboard → Keyboard × List KeyEvent
check_client seat surface r k =
    if seat.wayland_client surface == r.client
    then (record k { focus_resource = some r }, send_enter_to surface r k)
    else (k, [])

abbrev pub check_surface : Seat → Option ℕ → Resource → Keyboard → Keyboard × List KeyEvent
check_surface seat none r k = (k, [])
check_surface seat (some surface) r k =
    if same (name_of k.focus_resource) (some r.name) then (k, []) else check_client seat surface r k

unfoldable pub check_focus_resource : Seat → Resource → Keyboard → Keyboard × List KeyEvent
unfolding send_enter_to
check_focus_resource seat r k = check_surface seat k.focus r k

-- `if (focusResource) send_leave(…, focus->resource())`; a resource with the focus has a surface.
abbrev pub leave_events : Option Resource → Option ℕ → List KeyEvent
leave_events none focus = []
leave_events (some r) none = []
leave_events (some r) (some surface) = send_leave r.name surface ∷ []

abbrev pub enter_events : Option Resource → Option ℕ → Keyboard → List KeyEvent
enter_events none surface k = []
enter_events (some r) none k = []
enter_events (some r) (some surface) k = send_enter_to surface r k

-- The cursor surface counts as none.
abbrev pub without_cursor : Seat → Option ℕ → Option ℕ
without_cursor seat none = none
without_cursor seat (some s) = if seat.is_cursor_surface s then none else some s

abbrev pub resource_for : Seat → Option ℕ → Keyboard → Option Resource
resource_for seat none k = none
resource_for seat (some s) k = resource_of (seat.wayland_client s) k.resources

unfoldable pub focused : Seat → Option ℕ → Keyboard → Keyboard × List KeyEvent
unfolding is_input_allowed send_enter_to
focused seat asked k =
    let surface = without_cursor seat asked in
    let resource = resource_for seat surface k in
    if not (is_input_allowed asked seat) then (k, []) else (
      record k { focus_resource = resource; focus = surface },
      (if same k.focus surface then [] else leave_events k.focus_resource k.focus)
          ++ ((if not (same k.focus surface)
                  || not (same (name_of k.focus_resource) (name_of resource))
                then enter_events resource surface k
                else [])
              ++ focus_changed surface ∷ []),
    )

abbrev pub repeat_info : Resource → Keyboard → List KeyEvent
repeat_info r k =
    if leb 4 r.version then send_repeat_info_to r.name k.repeat_rate k.repeat_delay ∷ [] else []

-- `addClient` binds a new resource.
unfoldable pub add_client : Seat → Resource → Keyboard → Keyboard × List KeyEvent
unfolding check_focus_resource
add_client seat r k =
    let added = record k { resources = r ∷ k.resources } in
    let (k1, events) = check_focus_resource seat r added in
    (k1, repeat_info r k ++ (send_keymap r.name ∷ events))

abbrev pub remove_resource : ℕ → List Resource → List Resource
remove_resource n [] = []
remove_resource n (r ∷ rs) =
    let rest = remove_resource n rs in if r.name == n then rest else r ∷ rest

unfoldable pub destroy_resource : ℕ → Keyboard → Keyboard × List KeyEvent
destroy_resource n k = (
  record k {
    resources = remove_resource n k.resources;
    focus_resource = if same (name_of k.focus_resource) (some n) then none else k.focus_resource;
  },
  resource_gone n ∷ [],
)

-- The surface with the focus is destroyed.
unfoldable pub focus_destroyed : Keyboard → Keyboard × List KeyEvent
focus_destroyed k = (record k { focus = none; focus_resource = none }, surface_gone ∷ [])

abbrev pub xkb_offset : ℕ
xkb_offset = 8

unfoldable pub from_wayland_key : ℕ → ℕ
from_wayland_key key = key + xkb_offset

-- The code asserts that the scan code is at least the offset.
unfoldable pub to_wayland_key : ℕ → ℕ
to_wayland_key code = code - xkb_offset

abbrev pub remove_all : ℕ → List ℕ → List ℕ
remove_all v [] = []
remove_all v (x ∷ xs) = let rest = remove_all v xs in if x == v then rest else x ∷ rest

unfoldable pub key_event : ℕ → Bool → Keyboard → Keyboard
unfolding to_wayland_key
key_event code pressed k =
    let key = to_wayland_key code in
    record k { keys = if pressed then k.keys ++ key ∷ [] else remove_all key k.keys }

abbrev pub key_to : Option Resource → ℕ → Bool → List KeyEvent
key_to none key pressed = []
key_to (some r) key pressed = send_key r.name key pressed ∷ []

unfoldable pub send_key_event : ℕ → Bool → Keyboard → List KeyEvent
unfolding to_wayland_key
send_key_event code pressed k = key_to k.focus_resource (to_wayland_key code) pressed

abbrev pub modifiers_to : Option Resource → Modifiers → List KeyEvent
modifiers_to none mods = []
modifiers_to (some r) mods = send_modifiers r.name mods ∷ []

abbrev pub same_modifiers : Modifiers → Modifiers → Bool
same_modifiers m n =
    m.depressed == n.depressed
    && m.latched == n.latched
    && m.locked == n.locked
    && m.group == n.group

-- `updateModifierState`: `context` says whether there is an xkb context, and `mods` is what xkbcommon
-- has after the key.
unfoldable pub update_modifier_state : Bool → Modifiers → Keyboard → Keyboard × List KeyEvent
update_modifier_state context mods k =
    if not context
    then (k, [])
    else if same_modifiers k.mods mods
    then (k, [])
    else (record k { mods = mods }, modifiers_to k.focus_resource mods)

-- One round of `resetKeyboardState`; `mods` is what xkbcommon makes of a release.
unfoldable pub release_key :
    Bool → (ℕ → Modifiers → Modifiers) → ℕ → Keyboard → Keyboard × List KeyEvent
unfolding from_wayland_key key_event update_modifier_state
release_key context mods key k =
    let code = from_wayland_key key in
    update_modifier_state context (mods code k.mods) (key_event code false k)

-- The rounds left, the keys that are pressed at the test of the loop, and the keyboard.
unfoldable pub reset_loop :
    Bool → (ℕ → Modifiers → Modifiers) → ℕ → List ℕ → Keyboard → Keyboard × List KeyEvent
unfolding release_key
reset_loop context mods zero keys k = (k, [])
reset_loop context mods (suc rounds) [] k = (k, [])
reset_loop context mods (suc rounds) (key ∷ keys) k =
    let (k1, e1) = release_key context mods key k in
    let (k2, e2) = reset_loop context mods rounds k1.keys k1 in (k2, e1 ++ e2)

unfoldable pub reset_keyboard_state :
    Bool → (ℕ → Modifiers → Modifiers) → Keyboard → Keyboard × List KeyEvent
unfolding reset_loop
reset_keyboard_state context mods k =
    let released = reset_loop context mods (length k.keys) k.keys k in
    if not context then (k, []) else released

-- `sendRepeatInfo`, to the resources in their list.
abbrev pub repeat_infos : List Resource → Keyboard → List KeyEvent
repeat_infos [] k = []
repeat_infos (r ∷ rs) k = repeat_info r k ++ repeat_infos rs k

unfoldable pub set_repeat_rate : ℕ → Keyboard → Keyboard × List KeyEvent
set_repeat_rate rate k = if k.repeat_rate == rate then (k, []) else (
  record k { repeat_rate = rate },
  repeat_infos k.resources k ++ repeat_rate_changed rate ∷ [],
)

unfoldable pub set_repeat_delay : ℕ → Keyboard → Keyboard × List KeyEvent
set_repeat_delay delay k = if k.repeat_delay == delay then (k, []) else (
  record k { repeat_delay = delay },
  repeat_infos k.resources k ++ repeat_delay_changed delay ∷ [],
)
