-- ===== src/Xdg/Tests/Toplevels.antt =====
-- The theorems on toplevels at concrete windows.
use aurora_compositor.Base.{◌++◌, ℕ, ◌≤◌, ◌≡◌, refl, true, List, [], ◌∷◌, none, arith}
use aurora_compositor.Base.Int.{pos}
use aurora_compositor.Geometry.{Size, no_size, no_edges, edge_flags}
use aurora_compositor.Xdg.Effect.{emit, maximized_changed, activated_changed, states_changed}
use aurora_compositor.Xdg.Toplevel.{
  new_toplevel, Toplevel, ConfigureEvent, maximizes, acks, apply, handle_ack_configure,
  last_sent_configure, take_acked, symmetric_difference, change_signals, convert_to_edges,
}
use aurora_compositor.Xdg.Toplevel.Acks.{IsOrdered, Run, done, then, Run-monotone}
use aurora_compositor.Xdg.Toplevel.Modes
use aurora_compositor.Xdg.Toplevel.Modes.{Command, run-Shows}
use aurora_compositor.Xdg.Toplevel.Showing.{
  Shows, fullscreen, maximize, make_fullscreen, activate, told,
}

abbrev small : Size
small = record { width = pos 200; height = pos 100 }

abbrev large : Size
large = record { width = pos 800; height = pos 600 }

abbrev configured : List ℕ → ℕ → ConfigureEvent
configured states serial = record { states = states; size = large; serial = serial }

-- Two configures wait, the second for a maximized window with the focus.
abbrev waiting : Toplevel
waiting = record {
  parent_toplevel = none;
  pending_configures = configured (4 ∷ []) 7 ∷ configured (1 ∷ 4 ∷ []) 9 ∷ [];
  last_acked_configure = configured (2 ∷ []) 5;
  title = "editor";
  app_id = "org.editor";
  max_size = no_size;
  min_size = small;
}

waiting-Run : Run waiting (apply (acks 9) (apply (maximizes 12 large) waiting))
unfolding last_sent_configure
waiting-Run = then (then done (maximizes 12 large) (omega arith)) (acks 9) tt

Run-monotone_example :
    let u = apply (acks 9) (apply (maximizes 12 large) waiting) in
    IsOrdered u × (5 ≤ u.last_acked_configure.serial)
Run-monotone_example = Run-monotone {t = waiting} (omega arith) waiting-Run

acked_nine : (handle_ack_configure 9 waiting).0.last_acked_configure ≡ configured (1 ∷ 4 ∷ []) 9
unfolding handle_ack_configure take_acked
acked_nine = refl

-- A serial that does not wait throws away what does.
acked_eight : (handle_ack_configure 8 waiting).0.pending_configures ≡ []
unfolding handle_ack_configure take_acked
acked_eight = refl

abbrev commands : List Command
commands =
    record { intent = maximize; serial = 11; size = large }
    ∷ record { intent = activate; serial = 12; size = large }
    ∷ record { intent = make_fullscreen; serial = 13; size = large }
    ∷ []

run-Shows_example :
    Shows fullscreen true
      (told [] ((new_toplevel 10).2 ++ (Modes.run commands (new_toplevel 10).0).1))
run-Shows_example = run-Shows 10 commands refl

-- States that do not rise: `maximized` stays, and its change is announced twice.
abbrev unsorted : Toplevel
unsorted = record waiting {
  pending_configures = configured (1 ∷ []) 9 ∷ [];
  last_acked_configure = configured (4 ∷ 1 ∷ []) 5;
}

unsorted_announced :
    (handle_ack_configure 9 unsorted).1
    ≡ emit maximized_changed
      ∷ emit activated_changed
      ∷ emit maximized_changed
      ∷ emit states_changed
      ∷ []
unfolding handle_ack_configure take_acked symmetric_difference change_signals
unsorted_announced = refl

abbrev limited : Toplevel
limited = record waiting { max_size = large }

-- The protocol's `bottom_right` is 10.
bottom_right_edges :
    convert_to_edges 10 ≡ edge_flags (record no_edges { right = true; bottom = true })
unfolding convert_to_edges
bottom_right_edges = refl
