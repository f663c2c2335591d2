-- ===== src/SessionLock/Tests.antt =====
-- Runs of the session lock on small inputs.
use aurora_compositor.Base.{
  map, ◌≡◌, ◌≤◌, refl, Bool, true, false, not, ◌&&◌, List, [], ◌∷◌, none, some, count,
  if◌then◌else◌, ◌==◌,
}
use aurora_compositor.SessionLock.{
  LockManager, LockEffect, LockSurface, Desktop, item, other_view, new_manager, is_some, lock,
  unlock_and_destroy, lock_destroy, bind_resource, manager_destroy_resource, delete_lock,
  set_locked_true, set_locked_false, set_client_connected, lock_seats, unlock_seats,
  get_lock_surface, register_lock_surface, set_focus, send_locked, locked_changed,
  client_connected_changed, set_exclusive_client, lock_surface_created, warning, duplicate_output,
  set_keyboard_focus, post_error, invalid_destroy, bound_already, send_finished,
}
use aurora_compositor.SessionLock.Histories.{
  History, session_start, next, living, creates, run_keeps_sound,
}
use aurora_compositor.SessionLock.Locking.{LockOp, bind, request_lock, add_surface, step, run}
use aurora_compositor.SessionLock.Refused.{
  is_ok, all_restorable, remembered, unlock-after_lock, refused_lock_unlocks, dead_client_locks_out,
}
use aurora_compositor.SessionLock.Surface
use aurora_compositor.SessionLock.Surface.{
  SurfaceState, new_lock_surface, send_configure, ack_configure, handle_surface_damaged,
  dimensions_mismatch, commit_before_first_ack,
}
use aurora_compositor.Base.Int.{pos}
use aurora_compositor.Geometry.{Size}

-- Two seats of which one has the focus on surface 7, and two of which both have it.
abbrev one_focus : Desktop
one_focus = record {
  seats = 1 ∷ 2 ∷ [];
  keyboard_focus = λ s. if s == 1 then some 7 else none;
  primary_view = λ s. item;
}

abbrev both_focus : Desktop
both_focus = record one_focus { keyboard_focus = λ s. some 7; primary_view = λ s. other_view }

abbrev screen : LockSurface
screen = record { name = 4; output = 3; surface_client = 9; client = 9 }

abbrev some_ops : List LockOp
some_ops =
    bind
    ∷ request_lock both_focus 1 9
    ∷ add_surface true false (some 3) true screen
    ∷ add_surface true false (some 3) true screen
    ∷ []

abbrev after_ops : LockManager
after_ops = record new_manager {
  session_lock = some 1;
  client = some 9;
  locked = true;
  client_connected = true;
  lock_surfaces = (9, 4) ∷ [];
  outputs = 3 ∷ [];
  old_focus = (lock_seats 9 both_focus.keyboard_focus both_focus.seats new_manager.old_focus).0;
}

abbrev after_events : List LockEffect
after_events =
    client_connected_changed
    ∷ send_locked 1
    ∷ locked_changed
    ∷ set_exclusive_client 1 (some 9)
    ∷ set_exclusive_client 2 (some 9)
    ∷ lock_surface_created 4
    ∷ warning
    ∷ post_error duplicate_output
    ∷ []

runs : run some_ops new_manager ≡ some (after_ops, after_events)
unfolding run step bind_resource set_client_connected lock set_locked_true lock_seats
    get_lock_surface register_lock_surface
runs = refl

abbrev lock_four : LockSurface
lock_four = record { name = 4; output = 3; surface_client = 9; client = 9 }

abbrev locked_now : LockManager
locked_now = record after_ops { lock_surfaces = []; outputs = [] }

abbrev bound_now : LockManager
bound_now = record new_manager { client_connected = true }

abbrev locking_events : List LockEffect
locking_events =
    send_locked 1
    ∷ locked_changed
    ∷ set_exclusive_client 1 (some 9)
    ∷ set_exclusive_client 2 (some 9)
    ∷ []

-- The client binds, locks, and makes a lock surface on the output 3; a second one is refused.
ops_history : History after_ops (lock_four ∷ [])
unfolding step bind_resource set_client_connected lock set_locked_true lock_seats get_lock_surface
    register_lock_surface living creates
ops_history =
    next {m = after_ops} (add_surface true false (some 3) true (record lock_four { name = 5 }))
      (warning ∷ post_error duplicate_output ∷ [])
      (next {m = locked_now} (add_surface true false (some 3) true lock_four)
        (lock_surface_created 4 ∷ [])
        (next {m = bound_now} (request_lock both_focus 1 9) locking_events
          (next bind (client_connected_changed ∷ []) session_start refl refl) refl refl)
        refl refl)
      refl refl

run_keeps_sound_example :
    (is_some after_ops.session_lock && not after_ops.locked ≡ false)
    × (count 3 (map (λ s. s.output) (lock_four ∷ [])) ≤ 1)
run_keeps_sound_example = run_keeps_sound ops_history 3

abbrev locked_by : Desktop → LockManager
locked_by d = record new_manager {
  session_lock = some 1;
  client = some 9;
  locked = true;
  old_focus = (lock_seats 9 d.keyboard_focus d.seats new_manager.old_focus).0;
}

-- A seat without a focus makes the unlock fault, and with a focus on each it does not.
unlock_faults : unlock_and_destroy one_focus 1 (locked_by one_focus) ≡ none
unfolding lock_seats unlock_and_destroy set_locked_false unlock_seats
unlock_faults = refl

unlock_works : is_ok (unlock_and_destroy both_focus 1 (locked_by both_focus)) ≡ true
unfolding lock_seats unlock_and_destroy set_locked_false unlock_seats set_client_connected
    delete_lock
unlock_works = refl

-- The lock of the desktop with one focus, granted to the client 9.
abbrev one_events : List LockEffect
one_events =
    send_locked 1
    ∷ locked_changed
    ∷ set_exclusive_client 1 (some 9)
    ∷ set_exclusive_client 2 (some 9)
    ∷ []

locks : lock one_focus 1 9 new_manager ≡ some (locked_by one_focus, one_events)
unfolding lock set_locked_true lock_seats
locks = refl

unlock-after_lock_example :
    is_ok (unlock_and_destroy one_focus 1 (locked_by one_focus))
    ≡ all_restorable one_focus.primary_view
        (remembered one_focus.seats one_focus.keyboard_focus new_manager.old_focus)
        one_focus.seats
unlock-after_lock_example =
    unlock-after_lock one_focus one_focus 1 9 new_manager (locked_by one_focus) one_events refl
      (refl, (refl, tt)) locks

-- A second client, whose lock is refused, unlocks the session.
abbrev unlocked_manager : LockManager
unlocked_manager = record new_manager {
  old_focus =
      set_focus 2 none
        (set_focus 1 none (set_focus 2 (some 7) (set_focus 1 (some 7) new_manager.old_focus)));
}

refuses :
    lock both_focus 2 8 (locked_by both_focus) ≡ some (locked_by both_focus, send_finished 2 ∷ [])
unfolding lock
refuses = refl

abbrev unlock_events : List LockEffect
unlock_events =
    locked_changed
    ∷ set_exclusive_client 1 none
    ∷ set_keyboard_focus 1 7
    ∷ set_exclusive_client 2 none
    ∷ set_keyboard_focus 2 7
    ∷ []

refused_lock_unlocks_example :
    (◌≡◌ {A = List LockEffect} (send_finished 2 ∷ []) (send_finished 2 ∷ []))
    × ((lock_destroy 2 (locked_by both_focus)).1 ≡ post_error invalid_destroy ∷ [])
    × (◌≡◌ {A = Bool} unlocked_manager.locked false)
    × (unlocked_manager.session_lock ≡ none)
unfolding lock_seats unlock_and_destroy set_locked_false unlock_seats set_client_connected
    delete_lock
refused_lock_unlocks_example =
    refused_lock_unlocks both_focus both_focus 1 2 8 (locked_by both_focus) (locked_by both_focus)
      unlocked_manager (send_finished 2 ∷ []) unlock_events refl refl refuses refl

dead_client_locks_out_example :
    let m2 = (manager_destroy_resource (delete_lock 1 (locked_by one_focus))).0 in
    (m2.locked ≡ true)
    × (m2.session_lock ≡ none)
    × ((bind_resource m2).1 ≡ post_error bound_already ∷ [])
dead_client_locks_out_example =
    dead_client_locks_out one_focus 1 9 new_manager (locked_by one_focus) one_events refl locks

-- A lock surface that is told two sizes and acknowledges the second, which the slot would check.
abbrev wide : Size
wide = record { width = pos 8; height = pos 6 }

abbrev tall : Size
tall = record { width = pos 6; height = pos 8 }

abbrev told_twice : SurfaceState
told_twice = (send_configure 2 tall (new_lock_surface 1 wide).0).0

check_unacked :
    handle_surface_damaged true tall told_twice ≡ Surface.post_error commit_before_first_ack ∷ []
unfolding handle_surface_damaged new_lock_surface send_configure
check_unacked = refl

check_acked : handle_surface_damaged true tall (ack_configure 2 told_twice).0 ≡ []
unfolding handle_surface_damaged new_lock_surface send_configure ack_configure
check_acked = refl

check_other_size :
    handle_surface_damaged true wide (ack_configure 2 told_twice).0
    ≡ Surface.post_error dimensions_mismatch ∷ []
unfolding handle_surface_damaged new_lock_surface send_configure ack_configure
check_other_size = refl

acked_queue : (ack_configure 2 told_twice).0.pending_configures ≡ []
unfolding new_lock_surface send_configure ack_configure
acked_queue = refl
