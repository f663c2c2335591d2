-- ===== src/Xdg/Toplevel/Changes.antt =====
-- Which signals an acknowledged configure gives rise to (handleAckConfigure).
use aurora_compositor.Base.{
  ℕ, ◌+◌, ◌≤◌, ◌<◌, ◌≡◌, refl, Bool, true, false, List, [], ◌∷◌, ◌++◌, arith, some, ◌||◌, contains,
}
use aurora_compositor.Xdg.Toplevel.{
  symmetric_difference, change_signals, states_signal, take_acked, handle_ack_configure, Toplevel,
  ConfigureEvent,
}
use aurora_compositor.Xdg.Effect.{
  Effect, emit, maximized_changed, fullscreen_changed, resizing_changed, activated_changed,
}

-- The list rises strictly, from `n` on.
abbrev pub From : ℕ → List ℕ → Type 0
From n [] = Unit {0}
From n (x ∷ xs) = (n ≤ x) × From (x + 1) xs

From-contains : (n z : ℕ) (xs : List ℕ) → From n xs → z < n → contains z xs ≡ false
From-contains n z [] f h = refl
From-contains n z (x ∷ xs) f h = ground (arith, From-contains (x + 1) z xs f.1)

From-mono : (m n : ℕ) (xs : List ℕ) → m ≤ n → From n xs → From m xs
From-mono m n [] h f = tt
From-mono m n (x ∷ xs) h f = (omega arith, f.1)

abbrev pub differs : Bool → Bool → Bool
differs true true = false
differs true false = true
differs false b = b

contains-symmetric_difference :
    (n z : ℕ) (xs ys : List ℕ)
    → From n xs
    → From n ys
    → contains z (symmetric_difference xs ys) ≡ differs (contains z xs) (contains z ys)
unfolding symmetric_difference
contains-symmetric_difference n z [] ys f g = refl
contains-symmetric_difference n z (x ∷ xs) [] f g = ground arith
contains-symmetric_difference n z (x ∷ xs) (y ∷ ys) f g = ground (
  arith,
  contains-symmetric_difference (x + 1) z xs (y ∷ ys) f.1,
  contains-symmetric_difference (y + 1) z (x ∷ xs) ys,
  contains-symmetric_difference (x + 1) z xs ys f.1,
  From-contains (x + 1) z xs f.1,
  From-contains (y + 1) z ys g.1,
)

-- Whether a log holds an effect that passes the test.
abbrev pub announces : (Effect → Bool) → List Effect → Bool
announces test [] = false
announces test (e ∷ es) = test e || announces test es

abbrev pub is_maximized_changed : Effect → Bool
is_maximized_changed (emit maximized_changed) = true
is_maximized_changed _ = false

abbrev pub is_fullscreen_changed : Effect → Bool
is_fullscreen_changed (emit fullscreen_changed) = true
is_fullscreen_changed _ = false

abbrev pub is_resizing_changed : Effect → Bool
is_resizing_changed (emit resizing_changed) = true
is_resizing_changed _ = false

abbrev pub is_activated_changed : Effect → Bool
is_activated_changed (emit activated_changed) = true
is_activated_changed _ = false

announces-append :
    (test : Effect → Bool) (es fs : List Effect)
    → announces test (es ++ fs) ≡ announces test es || announces test fs
announces-append test [] fs = refl
announces-append test (e ∷ es) fs = ground (arith, announces-append test es fs)

abbrev Announced : List ℕ → List Effect → Type 0
Announced ss log =
    (announces is_maximized_changed log ≡ contains 1 ss)
    × (announces is_fullscreen_changed log ≡ contains 2 ss)
    × (announces is_resizing_changed log ≡ contains 3 ss)
    × (announces is_activated_changed log ≡ contains 4 ss)

change_signals-Announced : (ss : List ℕ) → Announced ss (change_signals ss)
unfolding change_signals
change_signals-Announced [] = (refl, refl, refl, refl)
change_signals-Announced (s ∷ ss) = ground (arith, change_signals-Announced ss)

states_signal-Announced : (ss : List ℕ) → Announced [] (states_signal ss)
states_signal-Announced [] = (refl, refl, refl, refl)
states_signal-Announced (s ∷ ss) = (refl, refl, refl, refl)

-- When the client acknowledges a configure, and its states and those acknowledged before both rise
-- strictly, the signal of each of the four states is emitted exactly if the state is in one of the
-- two lists and not in the other.
ack_announces_changes :
    (serial : ℕ) (t : Toplevel) (c : ConfigureEvent) (rest : List ConfigureEvent)
    → take_acked serial t.pending_configures ≡ some (c, rest)
    → From 0 t.last_acked_configure.states
    → From 0 c.states
    → let log = (handle_ack_configure serial t).1 in
      let old = t.last_acked_configure.states in
      (announces is_maximized_changed log ≡ differs (contains 1 old) (contains 1 c.states))
      × (announces is_fullscreen_changed log ≡ differs (contains 2 old) (contains 2 c.states))
      × (announces is_resizing_changed log ≡ differs (contains 3 old) (contains 3 c.states))
      × (announces is_activated_changed log ≡ differs (contains 4 old) (contains 4 c.states))
unfolding handle_ack_configure
ack_announces_changes serial t c rest e f g =
    rw (e, handle_ack_configure)
      (
        step is_maximized_changed 1 signals.0 others.0,
        step is_fullscreen_changed 2 signals.1 others.1,
        step is_resizing_changed 3 signals.2 others.2,
        step is_activated_changed 4 signals.3 others.3,
      )
  where
    changed : List ℕ
    changed = symmetric_difference t.last_acked_configure.states c.states

    signals : Announced changed (change_signals changed)
    signals = change_signals-Announced changed

    others : Announced [] (states_signal changed)
    others = states_signal-Announced changed

    step :
        (test : Effect → Bool) (n : ℕ)
        → announces test (change_signals changed) ≡ contains n changed
        → announces test (states_signal changed) ≡ false
        → announces test (change_signals changed ++ states_signal changed)
          ≡ differs (contains n t.last_acked_configure.states) (contains n c.states)
    step test n p q = ground (
      arith,
      announces-append test (change_signals changed) (states_signal changed),
      contains-symmetric_difference 0 n t.last_acked_configure.states c.states f g,
    )
