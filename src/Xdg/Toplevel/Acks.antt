-- ===== src/Xdg/Toplevel/Acks.antt =====
-- The queue of configures that wait for the client's acknowledgement (handleAckConfigure).
use aurora_compositor.Base.{
  ℕ, ◌≤◌, ◌<◌, ◌≡◌, ◌≢◌, ◌⊎◌, inl, inr, refl, List, [], ◌∷◌, ◌++◌, none, some, arith, ◌==◌, All,
  last_or, Bool-cases, ==_iff, ap,
}
use aurora_compositor.Geometry.{Size}
use aurora_compositor.Xdg.Effect.{warning}
use aurora_compositor.Xdg.Toplevel.{
  Toplevel, ConfigureEvent, Call, configures, maximizes, unmaximizes, fullscreens, resizes,
  loses_focus, gains_focus, acks, titles, identifies, limits_max, limits_min, apply, take_acked,
  handle_ack_configure, last_sent_configure, send_configure, send_maximized, send_unmaximized,
  send_fullscreen, send_resizing, handle_focus_lost, handle_focus_received, set_title, set_app_id,
  set_max_size, set_min_size,
}

-- No configure of the list has the serial.
abbrev pub Without : ℕ → List ConfigureEvent → Type 0
Without serial = All (λ c. c.serial ≢ serial)

-- How a queue splits at the first configure with a serial.
pub data Splits (serial : ℕ) (cs : List ConfigureEvent) (c : ConfigureEvent)
    (rest : List ConfigureEvent) : Type 0 where
  splits :
      (older : List ConfigureEvent)
      → cs ≡ older ++ c ∷ rest
      → c.serial ≡ serial
      → Without serial older
      → Splits serial cs c rest

take_acked-Splits :
    (serial : ℕ) (cs : List ConfigureEvent)
    → ((take_acked serial cs ≡ none) × Without serial cs)
      ⊎ ((c : ConfigureEvent) × (rest : List ConfigureEvent) × (take_acked serial cs
            ≡ some (c, rest))
          × Splits serial cs c rest)
unfolding take_acked
take_acked-Splits serial [] = inl (refl, tt)
take_acked-Splits serial (x ∷ cs) = elim (Bool-cases (x.serial == serial)) [
  | inl hit ↦ inr (x, cs, rw hit, splits [] refl ((==_iff _ _).0 hit) tt)
  | inr miss ↦ elim (take_acked-Splits serial cs) [
    | inl (e, w) ↦ inl (rw miss e, (ground arith, w))
    | inr (c, rest, e, splits older split same w) ↦
        inr (c, rest, rw miss e, splits (x ∷ older) (ap (◌∷◌ x) split) same (ground arith, w))
  ]
]

-- An `ack_configure` with a serial that waits in the queue acknowledges the oldest configure with
-- that serial, and takes it and all before it off the queue. With any other serial it empties the
-- queue, leaves the acknowledged configure as it was and logs a warning. No other field changes.
handle_ack_configure_lem :
    (serial : ℕ) (t : Toplevel)
    → ((c : ConfigureEvent) × (rest : List ConfigureEvent) × Splits serial t.pending_configures c
          rest
        × ((handle_ack_configure serial t).0
            ≡ record t { pending_configures = rest; last_acked_configure = c }))
      ⊎ (Without serial t.pending_configures
          × (handle_ack_configure serial t ≡ (record t { pending_configures = [] }, warning ∷ [])))
unfolding handle_ack_configure
handle_ack_configure_lem serial t = elim (take_acked-Splits serial t.pending_configures) [
  | inl (e, w) ↦ inr (w, rw (e, handle_ack_configure))
  | inr (c, rest, e, s) ↦ inl (c, rest, s, rw (e, handle_ack_configure))
]

-- The serials rise along the list, from above `n`.
abbrev pub Rising : ℕ → List ConfigureEvent → Type 0
Rising n [] = Unit {0}
Rising n (c ∷ cs) = (n < c.serial) × Rising c.serial cs

-- The configures that wait were sent after the acknowledged one, in the order of their serials.
abbrev pub IsOrdered : Toplevel → Type 0
IsOrdered t = Rising t.last_acked_configure.serial t.pending_configures

Rising-append :
    (d c : ConfigureEvent) (cs : List ConfigureEvent)
    → Rising d.serial cs
    → (last_or d cs).serial < c.serial
    → Rising d.serial (cs ++ c ∷ [])
Rising-append d c [] r h = (h, tt)
Rising-append d c (x ∷ cs) r h = (r.0, Rising-append x c cs r.1 h)

Rising-suffix :
    (n : ℕ) (older rest : List ConfigureEvent) (c : ConfigureEvent)
    → Rising n (older ++ c ∷ rest)
    → (n < c.serial) × Rising c.serial rest
Rising-suffix n [] rest c r = r
Rising-suffix n (x ∷ older) rest c r =
    let (h, s) = Rising-suffix x.serial older rest c r.1 in (omega arith, s)

send_configure-IsOrdered :
    (serial : ℕ) (size : Size) (states : List ℕ) (t : Toplevel)
    → IsOrdered t
    → (last_sent_configure t).serial < serial
    → IsOrdered (send_configure serial size states t).0
      × ((send_configure serial size states t).0.last_acked_configure.serial
          ≡ t.last_acked_configure.serial)
unfolding send_configure last_sent_configure
send_configure-IsOrdered serial size states t o h = ground (
  arith,
  Rising-append t.last_acked_configure (record { states = states; size = size; serial = serial })
      t.pending_configures o h,
)

ack-IsOrdered :
    (serial : ℕ) (t : Toplevel)
    → IsOrdered t
    → IsOrdered (handle_ack_configure serial t).0
      × (t.last_acked_configure.serial
          ≤ (handle_ack_configure serial t).0.last_acked_configure.serial)
ack-IsOrdered serial t o = elim (handle_ack_configure_lem serial t) [
  | inl (c, rest, splits older split same w, e) ↦
      let (h, r) = Rising-suffix _ older rest c (rw split at o) in rw e (r, omega arith)
  | inr (w, e) ↦ rw e (tt, omega arith)
]

-- A serial that the compositor hands out is above that of the configure sent last.
abbrev pub IsFresh : Call → Toplevel → Type 0
IsFresh (configures serial _ _) t = (last_sent_configure t).serial < serial
IsFresh (maximizes serial _) t = (last_sent_configure t).serial < serial
IsFresh (unmaximizes serial _) t = (last_sent_configure t).serial < serial
IsFresh (fullscreens serial _) t = (last_sent_configure t).serial < serial
IsFresh (resizes serial _) t = (last_sent_configure t).serial < serial
IsFresh (loses_focus serial) t = (last_sent_configure t).serial < serial
IsFresh (gains_focus serial) t = (last_sent_configure t).serial < serial
IsFresh _ t = Unit {0}

-- What a call keeps.
abbrev Keeps : Toplevel → Toplevel → Type 0
Keeps t u = IsOrdered u × (t.last_acked_configure.serial ≤ u.last_acked_configure.serial)

send-Keeps :
    (serial : ℕ) (size : Size) (states : List ℕ) (t : Toplevel)
    → IsOrdered t
    → (last_sent_configure t).serial < serial
    → Keeps t (send_configure serial size states t).0
send-Keeps serial size states t o h =
    let (p, e) = send_configure-IsOrdered serial size states t o h in (p, omega arith)

apply-Keeps : (c : Call) (t : Toplevel) → IsOrdered t → IsFresh c t → Keeps t (apply c t)
unfolding apply send_maximized send_unmaximized send_fullscreen send_resizing handle_focus_lost
    handle_focus_received set_title set_app_id set_max_size set_min_size
apply-Keeps (configures serial size states) t o h = send-Keeps serial size states t o h
apply-Keeps (maximizes serial size) t o h = send-Keeps serial size _ t o h
apply-Keeps (unmaximizes serial size) t o h = send-Keeps serial size _ t o h
apply-Keeps (fullscreens serial size) t o h = send-Keeps serial size _ t o h
apply-Keeps (resizes serial size) t o h = send-Keeps serial size _ t o h
apply-Keeps (loses_focus serial) t o h = send-Keeps serial _ _ t o h
apply-Keeps (gains_focus serial) t o h = ground (
  arith,
  send-Keeps serial (last_sent_configure t).size ((last_sent_configure t).states ++ 4 ∷ []) t o h,
)
apply-Keeps (acks serial) t o h = ack-IsOrdered serial t o
apply-Keeps (titles title) t o h = ground arith
apply-Keeps (identifies app_id) t o h = ground arith
apply-Keeps (limits_max w v) t o h = ground arith
apply-Keeps (limits_min w v) t o h = ground arith

-- A history of calls with fresh serials.
pub data Run (t : Toplevel) : Toplevel → Type 0 where
  done : Run t t
  then : {u : Toplevel} → Run t u → (c : Call) → IsFresh c u → Run t (apply c u)

-- Along every history of calls in which each new serial is above that of the configure sent last,
-- the waiting configures stay ordered behind the acknowledged one, and the acknowledged serial
-- never goes back, whatever serials the client acknowledges.
pub Run-monotone :
    {t u : Toplevel}
    → IsOrdered t
    → Run t u
    → IsOrdered u × (t.last_acked_configure.serial ≤ u.last_acked_configure.serial)
Run-monotone o done = (o, omega arith)
Run-monotone o (then {u} r c f) =
    let (p, h) = Run-monotone o r in let (q, k) = apply-Keeps c u p f in (q, omega arith)
