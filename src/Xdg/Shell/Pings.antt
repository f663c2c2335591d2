-- ===== src/Xdg/Shell/Pings.antt =====
-- Pings and their answers (ping, xdg_wm_base_pong).
use aurora_compositor.Base.{
  ℕ, ◌≡◌, refl, ◌∙◌, Bool, false, List, [], ◌∷◌, ◌||◌, arith, ◌==◌, if◌then◌else◌, contains,
}
use aurora_compositor.Xdg.Effect.{warning, emit, pong}
use aurora_compositor.Xdg.Shell.{Shell, remove_all, ping, handle_pong}

contains-remove_all :
    (a b : ℕ) (xs : List ℕ)
    → contains b (remove_all a xs) ≡ (if a == b then false else contains b xs)
contains-remove_all a b [] = ground arith
contains-remove_all a b (x ∷ xs) = ground (arith, contains-remove_all a b xs)

-- A ping, or a pong of a client with any serial.
pub data Event : Type 0 where
  pinged ponged : ℕ → Event

abbrev pub next : Event → Shell → Shell
next (pinged serial) s = (ping serial s).0
next (ponged serial) s = (handle_pong serial s).0

abbrev pub run : List Event → Shell → Shell
run [] s = s
run (e ∷ es) s = run es (next e s)

-- Whether a ping with the serial was sent after the last pong with it.
abbrev pub outstanding : ℕ → Bool → List Event → Bool
outstanding serial now [] = now
outstanding serial now (pinged a ∷ es) = outstanding serial (a == serial || now) es
outstanding serial now (ponged a ∷ es) = outstanding serial (if a == serial then false else now) es

next-pings :
    (serial : ℕ) (e : Event) (es : List Event) (s : Shell)
    → outstanding serial (contains serial (next e s).pings) es
      ≡ outstanding serial (contains serial s.pings) (e ∷ es)
unfolding ping handle_pong
next-pings serial (pinged a) es s = ground arith
next-pings serial (ponged a) es s = ground (arith, contains-remove_all a serial s.pings)

run-pings :
    (serial : ℕ) (es : List Event) (s : Shell)
    → contains serial (run es s).pings ≡ outstanding serial (contains serial s.pings) es
run-pings serial [] s = refl
run-pings serial (e ∷ es) s = run-pings serial es (next e s) ∙ next-pings serial e es s

-- After any pings and pongs, a pong is accepted, with the signal that names its serial, exactly if
-- a ping with that serial was sent and has not been answered since; any other is only logged.
pub handle_pong-outstanding :
    (serial : ℕ) (es : List Event) (s : Shell)
    → s.pings ≡ []
    → (handle_pong serial (run es s)).1
      ≡ (if outstanding serial false es then emit (pong serial) ∷ [] else warning ∷ [])
unfolding handle_pong
handle_pong-outstanding serial es s h = ground (arith, run-pings serial es s)
