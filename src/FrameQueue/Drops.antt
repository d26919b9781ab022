-- ===== src/FrameQueue/Drops.antt =====
-- VFrameQueue.cpp, `run`: which frames are dropped.
use obs_zcamera.Prelude.{
  ℕ, ◌+◌, ◌-◌, ◌≤◌, ◌<◌, ◌^◌, ◌%◌, ap, length, length-append, ◌↔◌, ◌⊎◌, ◌≡◌, false, List, [], ◌∷◌,
  ◌++◌, arith,
}
use obs_zcamera.FrameQueue.{Frame, FrameQueue, show, discard, is_timely, decide}

unwrapped :
    (f : Frame) (q : FrameQueue)
    → f.time + 15000 < 2 ^ 64
    → q.last_frame_time ≤ f.time
    → (f.time + 2 ^ 64 - q.last_frame_time + 15000) % 2 ^ 64 ≡ f.time - q.last_frame_time + 15000
unwrapped f q h le = omega arith

longer-ne : (fs : List Frame) (f : Frame) → ¬ (fs ≡ fs ++ f ∷ [])
longer-ne fs f e = absurd (omega (arith, ap length e, length-append fs (f ∷ [])))

-- The frames that are dropped, for times that 64 bits hold: one older than the last shown, and one
-- that may be dropped and came no more than the callback's time after it, with 15 ms of grace.
pub decide-discarded :
    (took : ℕ) (f : Frame) (q : FrameQueue)
    → f.time + 15000 < 2 ^ 64
    → ((decide took f q).discarded ≡ q.discarded ++ f ∷ []) ↔ (
        (f.time < q.last_frame_time)
        ⊎ ((f.no_drop ≡ false) × (f.time - q.last_frame_time + 15000 ≤ q.processing_time)))
unfolding decide show discard is_timely
decide-discarded took f q h = ground (arith, unwrapped f q h, longer-ne q.discarded f)
