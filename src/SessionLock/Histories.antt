-- ===== src/SessionLock/Histories.antt =====
-- The histories of the session lock, and the lock surfaces that there are in them.
use mathlib.Core.Path.{subst}
use aurora_compositor.Base.{
  ap, ◌∙◌, map, ◌+◌, ◌-◌, ◌||◌, if◌then◌else◌, ℕ, ◌≤◌, ◌≡◌, inl, inr, refl, Bool, true, false, not,
  ◌&&◌, List, [], ◌∷◌, Option, none, some, arith, ◌==◌, Bool-cases, Option-cases, contains, count,
  count-append,
}
use aurora_compositor.SessionLock.{
  lock_surface_created, has_pair, remove_pair, LockManager, LockSurface, LockEffect, Desktop,
  new_manager, is_some, unlock_seats, set_locked_true, set_locked_false, set_client_connected,
  register_lock_surface, remove_output, unregister_lock_surface, bind_resource,
  manager_destroy_resource, manager_destroy, delete_lock, delete_all, run_deferred, lock,
  lock_destroy, also, unlock_and_destroy, get_lock_surface,
}
use aurora_compositor.SessionLock.Locking.{
  LockOp, bind, manager_gone, destroy_manager, deferred, request_lock, lock_gone, destroy_lock,
  unlock, add_surface, surface_gone, step, IsSound, Kept, step-IsSound,
}

-- Whether a request has made a lock surface.
unfoldable pub creates : List LockEffect → Bool
creates [] = false
creates (lock_surface_created n ∷ es) = true
creates (e ∷ es) = creates es

abbrev pub is_same : LockSurface → LockSurface → Bool
is_same s g = g.surface_client == s.client && g.name == s.name

-- The lock surfaces without `s`.
abbrev pub without : LockSurface → List LockSurface → List LockSurface
without s [] = []
without s (g ∷ gs) = let rest = without s gs in if is_same s g then rest else g ∷ rest

-- The lock surfaces that there are after an operation, in their order from the latest.
unfoldable pub living : LockOp → LockManager → List LockSurface → List LockSurface
unfolding creates get_lock_surface
living (add_surface exists content (some o) role_set s) m gs =
    if creates (get_lock_surface exists content (some o) role_set s m).1
    then record s { output = o } ∷ gs
    else gs
living (surface_gone s) m gs = without s gs
living op m gs = gs

-- Whether `s` is among the lock surfaces.
abbrev pub lives : LockSurface → List LockSurface → Bool
lives s [] = false
lives s (g ∷ gs) = (is_same s g && s.output == g.output) || lives s gs

-- Only a lock surface that there is goes.
abbrev pub is_possible : LockOp → List LockSurface → Bool
is_possible (surface_gone s) gs = lives s gs
is_possible op gs = true

-- The histories of a session from its start in which no null pointer is used, with the lock surfaces
-- that there are at the end.
pub data History : LockManager → List LockSurface → Type 0 where
  session_start : History new_manager []
  next :
      {m m1 : LockManager} {gs : List LockSurface} (op : LockOp) (effects : List LockEffect)
      → History m gs
      → is_possible op gs ≡ true
      → step op m ≡ some (m1, effects)
      → History m1 (living op m gs)

-- The manager has the lock surfaces that there are, and an output for each.
record IsListed (m : LockManager) (gs : List LockSurface) : Type 0 where
  pairs : m.lock_surfaces ≡ map (λ s. (s.surface_client, s.name)) gs
  outputs : (o : ℕ) → count o (map (λ s. s.output) gs) ≤ count o m.outputs

count-without :
    (o : ℕ) (s : LockSurface) (gs : List LockSurface)
    → count o (map (λ s. s.output) (without s gs)) ≤ count o (map (λ s. s.output) gs)
count-without o s [] = omega arith
count-without o s (g ∷ gs) = ground (arith, count-without o s gs)

count-without_living :
    (s : LockSurface) (gs : List LockSurface)
    → lives s gs ≡ true
    → count s.output (map (λ s. s.output) (without s gs)) + 1
      ≤ count s.output (map (λ s. s.output) gs)
count-without_living s [] h = absurd cc
count-without_living s (g ∷ gs) h =
    ground (arith, count-without s.output s gs, count-without_living s gs)

has_pair-lives :
    (s : LockSurface) (gs : List LockSurface)
    → lives s gs ≡ true
    → has_pair s.client s.name (map (λ s. (s.surface_client, s.name)) gs) ≡ true
has_pair-lives s [] h = absurd cc
has_pair-lives s (g ∷ gs) h = ground (arith, has_pair-lives s gs)

remove_pair-without :
    (s : LockSurface) (gs : List LockSurface)
    → remove_pair s.client s.name (map (λ s. (s.surface_client, s.name)) gs)
      ≡ map (λ s. (s.surface_client, s.name)) (without s gs)
remove_pair-without s [] = refl
remove_pair-without s (g ∷ gs) = elim (Bool-cases (is_same s g)) [
  | inl e ↦ simp e (remove_pair-without s gs)
  | inr e ↦ simp (e, remove_pair-without s gs) refl
]

count-remove :
    (o x : ℕ) (xs : List ℕ)
    → count o (remove_output x xs) ≡ (if x == o then count o xs - 1 else count o xs)
count-remove o x [] = ground arith
count-remove o x (y ∷ xs) = ground (arith, count-remove o x xs)

-- A result without a fault lists these lock surfaces.
abbrev Lists : Option (LockManager × List LockEffect) → List LockSurface → Type 0
Lists none gs = Unit
Lists (some (m, effects)) gs = IsListed m gs

also-Lists :
    (effects : List LockEffect) (r : Option (LockManager × List LockEffect)) (gs : List LockSurface)
    → Lists r gs
    → Lists (also effects r) gs
also-Lists effects none gs k = k
also-Lists effects (some (m, more)) gs k = k

delete_all-IsListed :
    (ls : List ℕ) (m : LockManager) (gs : List LockSurface)
    → IsListed m gs
    → IsListed (delete_all ls m) gs
unfolding delete_lock
delete_all-IsListed [] m gs h = h
delete_all-IsListed (l ∷ ls) m gs h =
    delete_all-IsListed ls (delete_lock l m) gs (record { pairs = h.pairs; outputs = h.outputs })

lock-Lists :
    (d : Desktop) (l client : ℕ) (m : LockManager) (gs : List LockSurface)
    → IsListed m gs
    → Lists (lock d l client m) gs
unfolding lock set_locked_true
lock-Lists d l client m gs h = elim (Option-cases m.session_lock) [
  | inr (held, e) ↦ simp (lock, e) h
  | inl e ↦ simp (lock, e) (record { pairs = h.pairs; outputs = h.outputs })
]

unlock-Lists :
    (d : Desktop) (l : ℕ) (m : LockManager) (gs : List LockSurface)
    → IsListed m gs
    → Lists (unlock_and_destroy d l m) gs
unfolding unlock_and_destroy set_locked_false set_client_connected delete_lock
unlock-Lists d l m gs h = elim (Bool-cases m.locked) [
  | inr e ↦ simp e h
  | inl e ↦ elim (Option-cases (unlock_seats d.primary_view d.seats m.old_focus)) [
    | inl f ↦ simp (e, set_locked_false, f) tt
    | inr (r, f) ↦ simp (e, set_locked_false, f) (record { pairs = h.pairs; outputs = h.outputs })
  ]
]

bind_resource-IsListed :
    (m : LockManager) (gs : List LockSurface) → IsListed m gs → IsListed (bind_resource m).0 gs
unfolding bind_resource set_client_connected
bind_resource-IsListed m gs h = elim (Bool-cases (is_some m.client)) [
  | inl e ↦ simp e h
  | inr e ↦ simp e (record { pairs = h.pairs; outputs = h.outputs })
]

registered-IsListed :
    (s : LockSurface) (m : LockManager) (gs : List LockSurface)
    → IsListed m gs
    → IsListed (register_lock_surface s m) (s ∷ gs)
unfolding register_lock_surface
registered-IsListed s m gs h = record {
  pairs = ap (λ ps. (s.surface_client, s.name) ∷ ps) h.pairs;
  outputs = λ o. ground (arith, h.outputs o, count-append o m.outputs (s.output ∷ []));
}

add_surface-IsListed :
    (exists content : Bool) (output : Option ℕ) (role_set : Bool) (s : LockSurface)
    (m : LockManager) (gs : List LockSurface)
    → IsListed m gs
    → IsListed
        (get_lock_surface exists content output role_set s m).0
        (living (add_surface exists content output role_set s) m gs)
unfolding get_lock_surface living creates
add_surface-IsListed false content none role_set s m gs h = h
add_surface-IsListed false content (some o) role_set s m gs h = h
add_surface-IsListed true true none role_set s m gs h = h
add_surface-IsListed true true (some o) role_set s m gs h = h
add_surface-IsListed true false none role_set s m gs h = h
add_surface-IsListed true false (some o) role_set s m gs h =
    elim (Bool-cases (contains o m.outputs)) [
      | inl e ↦ simp e h
      | inr e ↦ elim (Bool-cases role_set) [
        | inl set ↦ simp (e, set) (registered-IsListed (record s { output = o }) m gs h)
        | inr unset ↦ simp (e, unset) h
      ]
    ]

surface_gone-IsListed :
    (s : LockSurface) (m : LockManager) (gs : List LockSurface)
    → lives s gs ≡ true
    → IsListed m gs
    → IsListed (unregister_lock_surface s m).0 (without s gs)
unfolding unregister_lock_surface
surface_gone-IsListed s m gs there h =
    let listed = ap (λ ps. has_pair s.client s.name ps) h.pairs ∙ has_pair-lives s gs there in
    simp listed (record {
      pairs = ap (λ ps. remove_pair s.client s.name ps) h.pairs ∙ remove_pair-without s gs;
      outputs = λ o. ground (
        arith,
        h.outputs o,
        count-remove o s.output m.outputs,
        count-without o s gs,
        count-without_living s gs there,
      );
    })

step-Lists :
    (op : LockOp) (m : LockManager) (gs : List LockSurface)
    → is_possible op gs ≡ true
    → IsListed m gs
    → Lists (step op m) (living op m gs)
unfolding step living manager_destroy manager_destroy_resource set_client_connected run_deferred
    delete_lock lock_destroy
step-Lists bind m gs p h = bind_resource-IsListed m gs h
step-Lists manager_gone m gs p h = record { pairs = h.pairs; outputs = h.outputs }
step-Lists destroy_manager m gs p h = record { pairs = h.pairs; outputs = h.outputs }
step-Lists deferred m gs p h =
    delete_all-IsListed m.deleting (record m { deleting = [] }) gs
      (record { pairs = h.pairs; outputs = h.outputs })
step-Lists (request_lock d l client) m gs p h = lock-Lists d l client m gs h
step-Lists (lock_gone l) m gs p h = record { pairs = h.pairs; outputs = h.outputs }
step-Lists (destroy_lock l) m gs p h = elim (Bool-cases (is_some m.session_lock)) [
  | inl e ↦ simp e h
  | inr e ↦ simp e (record { pairs = h.pairs; outputs = h.outputs })
]
step-Lists (unlock d l) m gs p h = unlock-Lists d l m gs h
step-Lists (add_surface exists content none role_set s) m gs p h =
    add_surface-IsListed exists content none role_set s m gs h
step-Lists (add_surface exists content (some o) role_set s) m gs p h =
    add_surface-IsListed exists content (some o) role_set s m gs h
step-Lists (surface_gone s) m gs p h = surface_gone-IsListed s m gs p h

new_manager-IsSound : IsSound new_manager
new_manager-IsSound = record { held = λ h. absurd cc; single = λ o. omega arith }

History-keeps : {m : LockManager} {gs : List LockSurface} → History m gs → IsSound m × IsListed m gs
History-keeps session_start =
    (new_manager-IsSound, record { pairs = refl; outputs = λ o. omega arith })
History-keeps (next {m} {m1} {gs} op effects h possible e) =
    let (sound, listed) = History-keeps h in
    (
      subst (λ r. Kept r) e (step-IsSound op m sound),
      subst (λ r. Lists r (living op m gs)) e (step-Lists op m gs possible listed),
    )

-- After any history of a session from its start in which no null pointer is used, and only a lock
-- surface that there is goes, a session with a lock object is locked, and of the lock surfaces that
-- there are no two have the same output.
pub run_keeps_sound :
    {m : LockManager} {gs : List LockSurface}
    → History m gs
    → (o : ℕ)
    → (is_some m.session_lock && not m.locked ≡ false) × (count o (map (λ s. s.output) gs) ≤ 1)
run_keeps_sound h o =
    let (sound, listed) = History-keeps h in
    let least = listed.outputs o in
    let single = sound.single o in (ground (arith, sound.held), omega arith)
