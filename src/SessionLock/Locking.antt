-- ===== src/SessionLock/Locking.antt =====
-- The operations on the session lock, and what they keep.
use aurora_compositor.Base.{
  ℕ, ◌≤◌, ◌≡◌, inl, inr, refl, Bool, true, false, not, List, [], ◌∷◌, Option, none, some, arith,
  ◌==◌, Bool-cases, Option-cases, contains, count, count-append,
}
use aurora_compositor.SessionLock.{
  LockManager, LockSurface, LockEffect, Desktop, is_some, unlock_seats, set_locked_true,
  set_locked_false, set_client_connected, register_lock_surface, remove_output,
  unregister_lock_surface, bind_resource, manager_destroy_resource, manager_destroy, delete_lock,
  delete_all, run_deferred, lock, lock_destroy, finish_unlock, also, send_locked,
  unlock_and_destroy, get_lock_surface,
}

-- The requests of clients, with what the compositor's other parts contribute, and the destruction of
-- resources.
pub data LockOp : Type 0 where
  bind manager_gone destroy_manager deferred : LockOp
  request_lock : Desktop → ℕ → ℕ → LockOp
  lock_gone destroy_lock : ℕ → LockOp
  unlock : Desktop → ℕ → LockOp
  add_surface : Bool → Bool → Option ℕ → Bool → LockSurface → LockOp
  surface_gone : LockSurface → LockOp

unfoldable pub step : LockOp → LockManager → Option (LockManager × List LockEffect)
step bind m = some (bind_resource m)
step manager_gone m = some (manager_destroy_resource m)
step destroy_manager m = some (manager_destroy m)
step deferred m = some (run_deferred m, [])
step (request_lock d l client) m = lock d l client m
step (lock_gone l) m = some (delete_lock l m, [])
step (destroy_lock l) m = some (lock_destroy l m)
step (unlock d l) m = unlock_and_destroy d l m
step (add_surface exists content output role_set s) m =
    some (get_lock_surface exists content output role_set s m)
step (surface_gone s) m = some (unregister_lock_surface s m)

unfoldable pub run : List LockOp → LockManager → Option (LockManager × List LockEffect)
run [] m = some (m, [])
run (op ∷ ops) m = elim (step op m) [ none ↦ none | some (m1, effects) ↦ also effects (run ops m1) ]

-- A session with a lock object is locked, and the list of outputs has none twice.
pub record IsSound (m : LockManager) : Type 0 where
  pub held : is_some m.session_lock ≡ true → m.locked ≡ true
  pub single : (o : ℕ) → count o m.outputs ≤ 1

-- A result without a fault is sound.
abbrev pub Kept : Option (LockManager × List LockEffect) → Type 0
Kept none = Unit
Kept (some (m, effects)) = IsSound m

count-contains : (o : ℕ) (xs : List ℕ) → contains o xs ≡ not (count o xs == 0)
count-contains o [] = refl
count-contains o (x ∷ xs) = ground (arith, count-contains o xs)

pub count-remove_output : (o x : ℕ) (xs : List ℕ) → count o (remove_output x xs) ≤ count o xs
count-remove_output o x [] = omega arith
count-remove_output o x (y ∷ xs) = ground (arith, count-remove_output o x xs)

delete_all-keeps :
    (ls : List ℕ) (m : LockManager)
    → ((delete_all ls m).locked ≡ m.locked)
      × ((delete_all ls m).outputs ≡ m.outputs)
      × (is_some (delete_all ls m).session_lock ≡ true → is_some m.session_lock ≡ true)
unfolding delete_lock
delete_all-keeps [] m = (refl, refl, λ e. e)
delete_all-keeps (l ∷ ls) m = ground (arith, delete_all-keeps ls (delete_lock l m))

set_locked_true-IsSound :
    (d : Desktop) (m : LockManager) → ((o : ℕ) → count o m.outputs ≤ 1) → Kept (set_locked_true d m)
unfolding set_locked_true
set_locked_true-IsSound d m h = elim (Option-cases m.client) [
  | inl e ↦ rw (e, set_locked_true) tt
  | inr (c, e) ↦ rw (e, set_locked_true) (record { held = λ _. refl; single = h })
]

set_locked_false-IsSound :
    (d : Desktop) (m : LockManager)
    → ((o : ℕ) → count o m.outputs ≤ 1)
    → Kept (set_locked_false d m)
unfolding set_locked_false
set_locked_false-IsSound d m h =
    elim (Option-cases (unlock_seats d.primary_view d.seats m.old_focus)) [
      | inl e ↦ rw (set_locked_false, e) tt
      | inr (r, e) ↦ rw (set_locked_false, e) (record { held = ground arith; single = h })
    ]

-- What the steps that cannot fail do.
bind_resource-IsSound : (m : LockManager) → IsSound m → IsSound (bind_resource m).0
unfolding bind_resource set_client_connected
bind_resource-IsSound m h = record {
  held = ground (arith, h.held);
  single = λ o. ground (arith, h.single o);
}

manager_destroy-IsSound : (m : LockManager) → IsSound m → IsSound (manager_destroy m).0
unfolding manager_destroy manager_destroy_resource set_client_connected
manager_destroy-IsSound m h = record { held = h.held; single = h.single }

run_deferred-IsSound : (m : LockManager) → IsSound m → IsSound (run_deferred m)
unfolding run_deferred
run_deferred-IsSound m h =
    let (l, o, s) = delete_all-keeps m.deleting (record m { deleting = [] }) in
    record { held = λ e. rw l (h.held (s e)); single = rw o h.single }

delete_lock-IsSound : (l : ℕ) (m : LockManager) → IsSound m → IsSound (delete_lock l m)
unfolding delete_lock
delete_lock-IsSound l m h = record { held = ground (arith, h.held); single = h.single }

get_lock_surface-IsSound :
    (exists content : Bool) (output : Option ℕ) (role_set : Bool) (s : LockSurface)
    (m : LockManager)
    → IsSound m
    → IsSound (get_lock_surface exists content output role_set s m).0
unfolding get_lock_surface register_lock_surface
get_lock_surface-IsSound exists content none role_set s m h = record {
  held = ground (arith, h.held);
  single = λ o. ground (arith, h.single o);
}
get_lock_surface-IsSound exists content (some out) role_set s m h = record {
  held = ground (arith, h.held);
  single = λ o.
      ground (arith, h.single o, count-contains out m.outputs, count-append o m.outputs (out ∷ []));
}

unregister-IsSound :
    (s : LockSurface) (m : LockManager) → IsSound m → IsSound (unregister_lock_surface s m).0
unfolding unregister_lock_surface
unregister-IsSound s m h = record {
  held = ground (arith, h.held);
  single = λ o. ground (arith, h.single o, count-remove_output o s.output m.outputs);
}

also-Kept :
    (effects : List LockEffect) (r : Option (LockManager × List LockEffect))
    → Kept r
    → Kept (also effects r)
also-Kept effects none k = k
also-Kept effects (some (m, more)) k = k

finish_unlock-Kept :
    (l : ℕ) (r : Option (LockManager × List LockEffect)) → Kept r → Kept (finish_unlock l r)
unfolding set_client_connected
finish_unlock-Kept l none k = tt
finish_unlock-Kept l (some (m, effects)) k =
    delete_lock-IsSound l (record m { client_connected = false })
      (record { held = k.held; single = k.single })

lock-IsSound : (d : Desktop) (l client : ℕ) (m : LockManager) → IsSound m → Kept (lock d l client m)
unfolding lock
lock-IsSound d l client m h = elim (Option-cases m.session_lock) [
  | inr (held, e) ↦ simp (lock, e) h
  | inl e ↦ simp (lock, e) (also-Kept (send_locked l ∷ []) _ (set_locked_true-IsSound d _ h.single))
]

unlock-IsSound :
    (d : Desktop) (l : ℕ) (m : LockManager) → IsSound m → Kept (unlock_and_destroy d l m)
unfolding unlock_and_destroy
unlock-IsSound d l m h = elim (Bool-cases m.locked) [
  | inl e ↦ simp e (finish_unlock-Kept l _ (set_locked_false-IsSound d m h.single))
  | inr e ↦ simp e h
]

pub step-IsSound : (op : LockOp) (m : LockManager) → IsSound m → Kept (step op m)
unfolding step lock_destroy manager_destroy_resource set_client_connected
step-IsSound bind m h = bind_resource-IsSound m h
step-IsSound manager_gone m h = record { held = h.held; single = h.single }
step-IsSound destroy_manager m h = manager_destroy-IsSound m h
step-IsSound deferred m h = run_deferred-IsSound m h
step-IsSound (request_lock d l client) m h = lock-IsSound d l client m h
step-IsSound (lock_gone l) m h = delete_lock-IsSound l m h
step-IsSound (destroy_lock l) m h = elim (Bool-cases (is_some m.session_lock)) [
  | inl e ↦ simp e h
  | inr e ↦ simp e (delete_lock-IsSound l m h)
]
step-IsSound (unlock d l) m h = unlock-IsSound d l m h
step-IsSound (add_surface exists content output role_set s) m h =
    get_lock_surface-IsSound exists content output role_set s m h
step-IsSound (surface_gone s) m h = unregister-IsSound s m h
