-- ===== src/SessionLock/Refused.antt =====
-- Locks that are refused, clients that die, and seats without a focus.
use aurora_compositor.Base.{
  ℕ, ◌≡◌, inl, inr, refl, ap, ◌∙◌, Bool, true, false, ◌&&◌, List, [], ◌∷◌, ◌++◌, Option, none, some,
  arith, ◌==◌, if◌then◌else◌, Option-cases, contains, ==_iff,
}
use aurora_compositor.SessionLock.{
  LockManager, LockEffect, Desktop, PrimaryView, missing, item, other_view, set_focus, remember,
  lock_seats, restore_focus, unlock_seats, prepend, set_locked_true, set_locked_false,
  set_client_connected, bind_resource, manager_destroy_resource, delete_lock, lock, lock_destroy,
  unlock_and_destroy, post_error, bound_already, invalid_destroy, send_locked, send_finished,
  changed, locked_changed,
}

abbrev pub IsDistinct : List ℕ → Type 0
IsDistinct [] = Unit
IsDistinct (x ∷ xs) = (contains x xs ≡ false) × IsDistinct xs

abbrev pub is_ok {ℓ} : {A : Type ℓ} → Option A → Bool
is_ok none = false
is_ok (some a) = true

abbrev pub or_else : Option ℕ → Option ℕ → Option ℕ
or_else none b = b
or_else (some a) b = some a

-- The seat had a focus, on a surface that has a view.
abbrev pub has_view : PrimaryView → Bool
has_view missing = false
has_view item = true
has_view other_view = true

abbrev pub is_restorable : (ℕ → PrimaryView) → Option ℕ → Bool
is_restorable view none = false
is_restorable view (some f) = has_view (view f)

abbrev pub all_restorable : (ℕ → PrimaryView) → (ℕ → Option ℕ) → List ℕ → Bool
all_restorable view old [] = true
all_restorable view old (s ∷ ss) = is_restorable view (old s) && all_restorable view old ss

-- The focus that is remembered after a lock.
abbrev pub remembered : List ℕ → (ℕ → Option ℕ) → (ℕ → Option ℕ) → ℕ → Option ℕ
remembered seats focus old s = if contains s seats then or_else (focus s) (old s) else old s

remember-at :
    (seat : ℕ) (f : Option ℕ) (old : ℕ → Option ℕ) (s : ℕ)
    → remember seat f old s ≡ (if s == seat then or_else f (old s) else old s)
remember-at seat none old s = ground arith
remember-at seat (some f) old s = ground arith

or_else-twice : (a b : Option ℕ) → or_else a (or_else a b) ≡ or_else a b
or_else-twice none b = refl
or_else-twice (some a) b = refl

lock_seats-remembers :
    (c : ℕ) (focus : ℕ → Option ℕ) (seats : List ℕ) (old : ℕ → Option ℕ) (s : ℕ)
    → (lock_seats c focus seats old).0 s ≡ remembered seats focus old s
unfolding lock_seats
lock_seats-remembers c focus [] old s = refl
lock_seats-remembers c focus (x ∷ xs) old s = ground (
  arith,
  lock_seats-remembers c focus xs (remember x (focus x) old) s,
  remember-at x (focus x) old s,
  or_else-twice (focus x) (old s),
  ==_iff s x,
)

all_restorable-skips :
    (view : ℕ → PrimaryView) (old : ℕ → Option ℕ) (s : ℕ) (ss : List ℕ)
    → contains s ss ≡ false
    → all_restorable view (set_focus s none old) ss ≡ all_restorable view old ss
all_restorable-skips view old s [] h = refl
all_restorable-skips view old s (x ∷ xs) h = ground (arith, all_restorable-skips view old s xs)

restore_focus-is_ok :
    (view : ℕ → PrimaryView) (seat : ℕ) (f : Option ℕ)
    → is_ok (restore_focus view seat f) ≡ is_restorable view f
restore_focus-is_ok view seat none = refl
restore_focus-is_ok view seat (some f) = ground arith

prepend-is_ok :
    (a b : LockEffect) (r : Option ((ℕ → Option ℕ) × List LockEffect))
    → is_ok (prepend a b r) ≡ is_ok r
prepend-is_ok a b none = refl
prepend-is_ok a b (some r) = refl

all_restorable-ext :
    (view : ℕ → PrimaryView) (f g : ℕ → Option ℕ) (ss : List ℕ)
    → ((s : ℕ) → f s ≡ g s)
    → all_restorable view f ss ≡ all_restorable view g ss
all_restorable-ext view f g [] h = refl
all_restorable-ext view f g (s ∷ ss) h = rw (h s, all_restorable-ext view f g ss h) refl

unlock_seats-is_ok :
    (view : ℕ → PrimaryView) (seats : List ℕ) (old : ℕ → Option ℕ)
    → IsDistinct seats
    → is_ok (unlock_seats view seats old) ≡ all_restorable view old seats
unfolding unlock_seats
unlock_seats-is_ok view [] old h = refl
unlock_seats-is_ok view (s ∷ ss) old (h, hs) =
    let e = restore_focus-is_ok view s (old s) in
    elim (Option-cases (restore_focus view s (old s))) [
      | inl none_left ↦ simp (unlock_seats, none_left, ← e) refl
      | inr (effect, found) ↦
          simp (unlock_seats, found, ← e)
            (prepend-is_ok _ effect _
              ∙ unlock_seats-is_ok view ss (set_focus s none old) hs
              ∙ all_restorable-skips view old s ss h)
    ]

-- What a lock does that is granted.
lock_granted :
    (d : Desktop) (l c : ℕ) (m : LockManager)
    → m.session_lock ≡ none
    → lock d l c m
      ≡ some (
        record m {
          session_lock = some l;
          client = some c;
          locked = true;
          old_focus = (lock_seats c d.keyboard_focus d.seats m.old_focus).0;
        },
        send_locked l
            ∷ (changed m.locked true locked_changed
                ++ (lock_seats c d.keyboard_focus d.seats m.old_focus).1),
      )
unfolding lock set_locked_true
lock_granted d l c m e = simp (lock, e) refl

unlock-is_ok :
    (d : Desktop) (l : ℕ) (m : LockManager)
    → m.locked ≡ true
    → is_ok (unlock_and_destroy d l m) ≡ is_ok (unlock_seats d.primary_view d.seats m.old_focus)
unfolding unlock_and_destroy set_locked_false set_client_connected
unlock-is_ok d l m e = elim (Option-cases (unlock_seats d.primary_view d.seats m.old_focus)) [
  | inl n ↦ simp (e, set_locked_false, n) refl
  | inr (r, n) ↦ simp (e, set_locked_false, n) refl
]

granted :
    (d : Desktop) (l c : ℕ) (m m1 : LockManager) (effects : List LockEffect)
    → m.session_lock ≡ none
    → lock d l c m ≡ some (m1, effects)
    → (m1.locked ≡ true)
      × (m1.session_lock ≡ some l)
      × (m1.client ≡ some c)
      × (m1.old_focus ≡ (lock_seats c d.keyboard_focus d.seats m.old_focus).0)
granted d l c m m1 effects free e = ground (arith, lock_granted d l c m free)

unlocked :
    (d : Desktop) (l : ℕ) (m m2 : LockManager) (effects : List LockEffect)
    → m.locked ≡ true
    → unlock_and_destroy d l m ≡ some (m2, effects)
    → (m2.locked ≡ false) × (m2.session_lock ≡ none)
unfolding unlock_and_destroy set_locked_false set_client_connected delete_lock
unlocked d l m m2 effects locked e = ground arith

-- The unlock after a lock uses a null or dangling pointer exactly if some seat had no keyboard focus
-- at the lock, and none is remembered from before, or the surface that had it has no view any more.
pub unlock-after_lock :
    (d d2 : Desktop) (l c : ℕ) (m m1 : LockManager) (effects : List LockEffect)
    → m.session_lock ≡ none
    → IsDistinct d2.seats
    → lock d l c m ≡ some (m1, effects)
    → is_ok (unlock_and_destroy d2 l m1)
      ≡ all_restorable d2.primary_view (remembered d.seats d.keyboard_focus m.old_focus) d2.seats
unlock-after_lock d d2 l c m m1 effects free distinct e =
    let (locked, held, client, old) = granted d l c m m1 effects free e in
    unlock-is_ok d2 l m1 locked
    ∙ unlock_seats-is_ok d2.primary_view d2.seats m1.old_focus distinct
    ∙ all_restorable-ext d2.primary_view _ _ d2.seats
        (λ s. ap (λ f. f s) old ∙ lock_seats-remembers c d.keyboard_focus d.seats m.old_focus s)

-- While a lock is held, a client whose lock is refused cannot destroy that lock, and its request to
-- unlock ends the session lock of the other client.
pub refused_lock_unlocks :
    (d d2 : Desktop) (held l c : ℕ) (m m1 m2 : LockManager) (effects effects2 : List LockEffect)
    → m.session_lock ≡ some held
    → m.locked ≡ true
    → lock d l c m ≡ some (m1, effects)
    → unlock_and_destroy d2 l m1 ≡ some (m2, effects2)
    → (effects ≡ send_finished l ∷ [])
      × ((lock_destroy l m1).1 ≡ post_error invalid_destroy ∷ [])
      × (m2.locked ≡ false)
      × (m2.session_lock ≡ none)
unfolding lock lock_destroy
refused_lock_unlocks d d2 held l c m m1 m2 effects effects2 h locked e e2 =
    ground (arith, unlocked d2 l m1 m2 effects2)

-- When the client that holds the lock dies, its lock object and its manager being destroyed, the
-- session stays locked and the next client that binds the manager is refused.
pub dead_client_locks_out :
    (d : Desktop) (l c : ℕ) (m m1 : LockManager) (effects : List LockEffect)
    → m.session_lock ≡ none
    → lock d l c m ≡ some (m1, effects)
    → let m2 = (manager_destroy_resource (delete_lock l m1)).0 in
      (m2.locked ≡ true)
      × (m2.session_lock ≡ none)
      × ((bind_resource m2).1 ≡ post_error bound_already ∷ [])
unfolding manager_destroy_resource delete_lock bind_resource set_client_connected
dead_client_locks_out d l c m m1 effects free e = ground (arith, granted d l c m m1 effects)
