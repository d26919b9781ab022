-- ===== src/Tests/Frames.antt =====
-- The frame queue at concrete histories.
use obs_zcamera.Prelude.{ℕ, ◌≡◌, refl, false, List, [], ◌∷◌, codes}
use obs_zcamera.FrameQueue.{
  Frame, Event, new, loop_test, starts, enqueues, round, step, run, start, enqueue, thread_round,
  take_first, show,
}
use obs_zcamera.FrameQueue.Tokens.{run-takes_next}
use obs_zcamera.FrameQueue.Shown.{IsAscending, run-IsAscending}

abbrev frame_at : ℕ → Frame
frame_at time = record { bytes = codes "nal"; time = time; no_drop = false }

abbrev history : List Event
history = starts ∷ enqueues (frame_at 40) ∷ round 5000 ∷ round 0 ∷ enqueues (frame_at 80) ∷ []

run-takes_next_example :
    ((step (round 6000) (run history new)).queue ≡ [])
    × ((step (round 6000) (run history new)).thread ≡ loop_test)
unfolding run step start enqueue thread_round take_first show
run-takes_next_example = run-takes_next history 6000 (frame_at 80) [] refl refl

abbrev arrivals : List Event
arrivals = enqueues (frame_at 40) ∷ round 5000 ∷ round 0 ∷ enqueues (frame_at 20) ∷ round 5000 ∷ []

run-IsAscending_example : IsAscending (run arrivals (start new)).shown
run-IsAscending_example = run-IsAscending arrivals new tt refl
