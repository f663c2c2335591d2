-- ===== src/Frames/Tests.antt =====
-- Runs of the frame callbacks on small inputs.
use aurora_compositor.Base.{◌≡◌, refl, List, [], ◌∷◌, ◌++◌}
use aurora_compositor.Frames.{
  Frames, no_frames, frame, commit_frames, frame_started, send_frame_callbacks, send_loop,
  remove_frame_callback, FrameOp, request, commit, start, send, remove, step, run,
}
use aurora_compositor.Frames.Sending.{names, frame_cycle}
use aurora_compositor.Frames.Order.{IsRising}
use aurora_compositor.Frames.Histories.{all_names, run_in_order}

-- Two callbacks wait for a frame, the second committed after it started.
abbrev some_ops : List FrameOp
some_ops = request ∷ commit ∷ start ∷ request ∷ commit ∷ request ∷ []

abbrev some_frames : Frames
some_frames = run some_ops no_frames

sent_ready : (send_frame_callbacks some_frames).sent ≡ 0 ∷ []
unfolding run step frame commit_frames frame_started send_frame_callbacks send_loop
sent_ready = refl

removed_not_sent :
    (run (request ∷ request ∷ commit ∷ remove 0 ∷ start ∷ send ∷ []) no_frames).sent ≡ 1 ∷ []
unfolding run step frame commit_frames frame_started send_frame_callbacks send_loop
    remove_frame_callback
removed_not_sent = refl

frame_cycle_example :
    send_frame_callbacks (frame_started (commit_frames some_frames)) ≡ record some_frames {
      frame_callbacks = [];
      pending_frame_callbacks = [];
      sent =
          some_frames.sent
          ++ (names some_frames.frame_callbacks ++ names some_frames.pending_frame_callbacks);
    }
frame_cycle_example = frame_cycle some_frames

run_in_order_example : IsRising 0 (run some_ops no_frames).next (all_names (run some_ops no_frames))
run_in_order_example = run_in_order some_ops
