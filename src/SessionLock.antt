-- ===== src/SessionLock.antt =====
-- The session lock, compositor/extensions/aurorawaylandextsessionlockv1.cpp under src/: the manager
-- and the lock objects. Clients, lock objects, surfaces, outputs and seats are named by numbers. A
-- result `none` is the use of a null or dangling pointer.
pub mod Surface
pub mod Locking
pub mod Histories
pub mod Refused
mod Tests
use aurora_compositor.Base.{
  ℕ, Bool, true, false, not, ◌&&◌, ◌||◌, List, [], ◌∷◌, ◌++◌, Option, none, some, ◌==◌,
  if◌then◌else◌, contains,
}

pub data LockError : Type 0 where
  bound_already invalid_destroy already_constructed duplicate_output invalid_unlock : LockError

pub data LockEffect : Type 0 where
  post_error : LockError → LockEffect
  warning locked_changed client_connected_changed : LockEffect
  send_locked send_finished lock_surface_created : ℕ → LockEffect
  set_exclusive_client : ℕ → Option ℕ → LockEffect
  take_focus : ℕ → LockEffect
  set_keyboard_focus : ℕ → ℕ → LockEffect

-- The primary view of a surface that had the focus: none, or the surface is gone; a Qt Quick item; or
-- another view.
pub data PrimaryView : Type 0 where
  missing item other_view : PrimaryView

-- What the manager reads of the compositor: its seats, their keyboard focus, and the primary views.
pub record Desktop : Type 0 where
  pub seats : List ℕ
  pub keyboard_focus : ℕ → Option ℕ
  pub primary_view : ℕ → PrimaryView

pub record LockSurface : Type 0 where
  pub name : ℕ
  pub output : ℕ
  pub surface_client : ℕ
  pub client : ℕ

-- `session_lock` is a guarded pointer; `deleting` are the locks whose deletion is deferred.
pub record LockManager : Type 0 where
  pub session_lock : Option ℕ
  pub deleting : List ℕ
  pub client : Option ℕ
  pub locked : Bool
  pub client_connected : Bool
  pub lock_surfaces : List (ℕ × ℕ)
  pub outputs : List ℕ
  pub old_focus : ℕ → Option ℕ

abbrev pub new_manager : LockManager
new_manager = record {
  session_lock = none;
  deleting = [];
  client = none;
  locked = false;
  client_connected = false;
  lock_surfaces = [];
  outputs = [];
  old_focus = λ s. none;
}

abbrev pub is_some : Option ℕ → Bool
is_some none = false
is_some (some n) = true

abbrev pub is_lock : ℕ → Option ℕ → Bool
is_lock l none = false
is_lock l (some n) = n == l

abbrev pub set_focus : ℕ → Option ℕ → (ℕ → Option ℕ) → ℕ → Option ℕ
set_focus seat f old s = if s == seat then f else old s

-- `if (seat->keyboardFocus()) m_oldFocus[seat] = seat->keyboardFocus();`
abbrev pub remember : ℕ → Option ℕ → (ℕ → Option ℕ) → ℕ → Option ℕ
remember seat none old = old
remember seat (some f) old = set_focus seat (some f) old

-- The loop of `setLocked` over the seats, for a lock.
unfoldable pub lock_seats :
    ℕ → (ℕ → Option ℕ) → List ℕ → (ℕ → Option ℕ) → (ℕ → Option ℕ) × List LockEffect
lock_seats client focus [] old = (old, [])
lock_seats client focus (seat ∷ seats) old =
    let (left, effects) = lock_seats client focus seats (remember seat (focus seat) old) in
    (left, set_exclusive_client seat (some client) ∷ effects)

-- What is done with the focus that a seat had.
abbrev pub restore : ℕ → ℕ → PrimaryView → Option LockEffect
restore seat f missing = none
restore seat f item = some (take_focus seat)
restore seat f other_view = some (set_keyboard_focus seat f)

abbrev pub restore_focus : (ℕ → PrimaryView) → ℕ → Option ℕ → Option LockEffect
restore_focus view seat none = none
restore_focus view seat (some f) = restore seat f (view f)

abbrev pub prepend :
    LockEffect
    → LockEffect
    → Option ((ℕ → Option ℕ) × List LockEffect)
    → Option ((ℕ → Option ℕ) × List LockEffect)
prepend a b none = none
prepend a b (some (old, effects)) = some (old, a ∷ b ∷ effects)

-- The same loop for an unlock: a seat with no remembered focus is a null pointer.
unfoldable pub unlock_seats :
    (ℕ → PrimaryView) → List ℕ → (ℕ → Option ℕ) → Option ((ℕ → Option ℕ) × List LockEffect)
unlock_seats view [] old = some (old, [])
unlock_seats view (seat ∷ seats) old = elim (restore_focus view seat (old seat)) [
  | none ↦ none
  | some effect ↦
      prepend (set_exclusive_client seat none) effect
        (unlock_seats view seats (set_focus seat none old))
]

abbrev pub changed : Bool → Bool → LockEffect → List LockEffect
changed true true e = []
changed false false e = []
changed true false e = e ∷ []
changed false true e = e ∷ []

-- `setLocked(true)`.
unfoldable pub set_locked_true : Desktop → LockManager → Option (LockManager × List LockEffect)
set_locked_true d m = elim m.client [
  | none ↦ none
  | some client ↦
      let (old, effects) = lock_seats client d.keyboard_focus d.seats m.old_focus in
      some (
        record m { locked = true; old_focus = old },
        changed m.locked true locked_changed ++ effects,
      )
]

-- `setLocked(false)`.
unfoldable pub set_locked_false : Desktop → LockManager → Option (LockManager × List LockEffect)
set_locked_false d m = elim (unlock_seats d.primary_view d.seats m.old_focus) [
  | none ↦ none
  | some (old, effects) ↦ some (
    record m { locked = false; session_lock = none; client = none; old_focus = old },
    changed m.locked false locked_changed ++ effects,
  )
]

unfoldable pub set_client_connected : Bool → LockManager → LockManager × List LockEffect
set_client_connected b m =
    (record m { client_connected = b }, changed m.client_connected b client_connected_changed)

unfoldable pub register_lock_surface : LockSurface → LockManager → LockManager
register_lock_surface s m = record m {
  lock_surfaces = (s.surface_client, s.name) ∷ m.lock_surfaces;
  outputs = m.outputs ++ s.output ∷ [];
}

abbrev pub is_pair : ℕ → ℕ → ℕ × ℕ → Bool
is_pair client name (c, n) = c == client && n == name

abbrev pub has_pair : ℕ → ℕ → List (ℕ × ℕ) → Bool
has_pair client name [] = false
has_pair client name (p ∷ ps) = is_pair client name p || has_pair client name ps

abbrev pub remove_pair : ℕ → ℕ → List (ℕ × ℕ) → List (ℕ × ℕ)
remove_pair client name [] = []
remove_pair client name (p ∷ ps) =
    let rest = remove_pair client name ps in if is_pair client name p then rest else p ∷ rest

-- `removeOne`.
abbrev pub remove_output : ℕ → List ℕ → List ℕ
remove_output o [] = []
remove_output o (x ∷ xs) = let rest = remove_output o xs in if x == o then xs else x ∷ rest

unfoldable pub unregister_lock_surface : LockSurface → LockManager → LockManager × List LockEffect
unregister_lock_surface s m =
    if has_pair s.client s.name m.lock_surfaces
    then (
      record m {
        lock_surfaces = remove_pair s.client s.name m.lock_surfaces;
        outputs = remove_output s.output m.outputs;
      },
      [],
    )
    else (m, warning ∷ [])

unfoldable pub bind_resource : LockManager → LockManager × List LockEffect
bind_resource m =
    if is_some m.client then (m, post_error bound_already ∷ []) else set_client_connected true m

unfoldable pub manager_destroy_resource : LockManager → LockManager × List LockEffect
manager_destroy_resource m = set_client_connected false m

abbrev pub defer : Option ℕ → List ℕ → List ℕ
defer none ls = ls
defer (some l) ls = l ∷ ls

-- The request `destroy` of the manager, which destroys its resource too.
unfoldable pub manager_destroy : LockManager → LockManager × List LockEffect
manager_destroy m =
    let (m1, effects) =
      manager_destroy_resource (record m { deleting = defer m.session_lock m.deleting }) in
    (record m1 { client = none }, effects)

-- A lock object is deleted: the guarded pointer to it becomes null.
unfoldable pub delete_lock : ℕ → LockManager → LockManager
delete_lock l m = record m {
  session_lock = if is_lock l m.session_lock then none else m.session_lock;
}

-- The event loop deletes the locks that wait for it.
abbrev pub delete_all : List ℕ → LockManager → LockManager
delete_all [] m = m
delete_all (l ∷ ls) m = delete_all ls (delete_lock l m)

unfoldable pub run_deferred : LockManager → LockManager
run_deferred m = delete_all m.deleting (record m { deleting = [] })

abbrev pub also :
    List LockEffect
    → Option (LockManager × List LockEffect)
    → Option (LockManager × List LockEffect)
also effects none = none
also effects (some (m, more)) = some (m, effects ++ more)

-- The request `lock` of a client, with the name of the new lock object.
unfoldable pub lock : Desktop → ℕ → ℕ → LockManager → Option (LockManager × List LockEffect)
lock d l client m = elim m.session_lock [
  | none ↦
      also (send_locked l ∷ [])
        (set_locked_true d (record m { session_lock = some l; client = some client }))
  | some held ↦ some (m, send_finished l ∷ [])
]

-- The request `destroy` of a lock object.
unfoldable pub lock_destroy : ℕ → LockManager → LockManager × List LockEffect
lock_destroy l m =
    if is_some m.session_lock then (m, post_error invalid_destroy ∷ []) else (delete_lock l m, [])

-- The end of `unlock_and_destroy`, after `setLocked`.
abbrev pub finish_unlock :
    ℕ → Option (LockManager × List LockEffect) → Option (LockManager × List LockEffect)
finish_unlock l none = none
finish_unlock l (some (m, effects)) =
    let (m1, more) = set_client_connected false m in some (delete_lock l m1, effects ++ more)

unfoldable pub unlock_and_destroy :
    Desktop → ℕ → LockManager → Option (LockManager × List LockEffect)
unlock_and_destroy d l m =
    if m.locked
    then finish_unlock l (set_locked_false d m)
    else some (m, post_error invalid_unlock ∷ [])

-- The request `get_lock_surface`. `exists` and `has_content` are about the wl_surface, `output` is
-- none for an unknown wl_output, and `role_set` is the result of `setRole`, which posts its own error.
unfoldable pub get_lock_surface :
    Bool → Bool → Option ℕ → Bool → LockSurface → LockManager → LockManager × List LockEffect
get_lock_surface exists has_content output role_set s m =
    if not exists
    then (m, warning ∷ [])
    else if has_content
    then (m, post_error already_constructed ∷ [])
    else elim output [
      | none ↦ (m, warning ∷ [])
      | some o ↦
          if contains o m.outputs
          then (m, warning ∷ post_error duplicate_output ∷ [])
          else if role_set
          then (register_lock_surface (record s { output = o }) m, lock_surface_created s.name ∷ [])
          else (m, [])
    ]
