-- ===== src/FrameQueue.antt =====
-- src/VFrameQueue.cpp: the queue between the receiver and the decoder's thread.
-- The calls and the thread's rounds are events; a round of the thread goes from one wait or test to
-- the next, with the microseconds that the callback took as the event's argument. The copy of a
-- frame's bytes is the frame itself.
pub mod Tokens
pub mod Drops
pub mod Shown
use obs_zcamera.Prelude.{
  ℕ, zero, suc, ◌+◌, ◌-◌, ◌%◌, ◌^◌, Bool, true, false, Option, none, some, List, [], ◌∷◌, ◌++◌,
  Text, ltb, if◌then◌else◌,
}

pub record Frame : Type 0 where
  pub bytes : Text
  pub time : ℕ
  pub no_drop : Bool

-- Where the thread stands: it does not run, it waits for its first frame, it is about to test
-- `running`, it waits in the loop, or it has returned.
pub data Thread : Type 0 where
  absent first_wait loop_test loop_wait returned : Thread

pub record FrameQueue : Type 0 where
  pub queue : List Frame
  pub sem : ℕ
  pub running : Bool
  pub max_time : ℕ
  pub thread : Thread
  pub last_frame_time : ℕ
  pub processing_time : ℕ
  -- What the callback has been given, and what was freed without it, the latest last.
  pub shown : List Frame
  pub discarded : List Frame

abbrev pub new : FrameQueue
new = record {
  queue = [];
  sem = 0;
  running = false;
  max_time = 0;
  thread = absent;
  last_frame_time = 0;
  processing_time = 0;
  shown = [];
  discarded = [];
}

-- `start`, `stop`, `setFrameTime` and `enqueue`. `stop` then waits for the thread to return.
unfoldable pub start : FrameQueue → FrameQueue
start q = record q { running = true; thread = first_wait; last_frame_time = 0; processing_time = 0 }

unfoldable pub stop : FrameQueue → FrameQueue
stop q = record q { running = false; sem = suc q.sem }

unfoldable pub set_frame_time : ℕ → FrameQueue → FrameQueue
set_frame_time time q = record q { max_time = time }

unfoldable pub enqueue : Frame → FrameQueue → FrameQueue
enqueue f q = record q { queue = q.queue ++ f ∷ []; sem = suc q.sem }

-- A frame that is shown: the callback, and the times after it.
unfoldable pub show : ℕ → Frame → FrameQueue → FrameQueue
show took f q = record q {
  shown = q.shown ++ f ∷ [];
  last_frame_time = f.time;
  processing_time = took;
  thread = loop_test;
}

unfoldable pub discard : Frame → FrameQueue → FrameQueue
discard f q = record q { discarded = q.discarded ++ f ∷ []; thread = loop_test }

-- `current.time - lastFrameTime + 15000 > processingTime`, in 64 bits.
unfoldable pub is_timely : Frame → FrameQueue → Bool
is_timely f q = ltb q.processing_time ((f.time + 2 ^ 64 - q.last_frame_time + 15000) % 2 ^ 64)

-- The loop's body on a frame taken off the queue.
unfoldable pub decide : ℕ → Frame → FrameQueue → FrameQueue
unfolding show discard
decide took f q =
    if ltb f.time q.last_frame_time
    then discard f q
    else (if f.no_drop
        then show took f q
        else (if is_timely f q then show took f q else discard f q))

-- What the wait is followed by: the queue is looked at with one token less.
unfoldable pub take_first : ℕ → List Frame → FrameQueue → FrameQueue
unfolding show
take_first took [] q = record q { thread = returned }
take_first took (f ∷ rest) q = show took f (record q { queue = rest })

unfoldable pub take_next : ℕ → List Frame → FrameQueue → FrameQueue
unfolding decide
take_next took [] q = record q { thread = loop_test }
take_next took (f ∷ rest) q = decide took f (record q { queue = rest })

-- `acquire`: blocked without a token.
abbrev pub acquire : ℕ → FrameQueue → (FrameQueue → FrameQueue) → FrameQueue
acquire zero q body = q
acquire (suc tokens) q body = body (record q { sem = tokens })

-- One round of `run`.
unfoldable pub thread_round : ℕ → Thread → FrameQueue → FrameQueue
unfolding take_first take_next
thread_round took absent q = q
thread_round took first_wait q = acquire q.sem q (λ p. take_first took p.queue p)
thread_round took loop_test q = record q { thread = if q.running then loop_wait else returned }
thread_round took loop_wait q = acquire q.sem q (λ p. take_next took p.queue p)
thread_round took returned q = q

pub data Event : Type 0 where
  starts stops : Event
  enqueues : Frame → Event
  -- A round of the thread, whose callback takes so many microseconds.
  round : ℕ → Event

unfoldable pub step : Event → FrameQueue → FrameQueue
unfolding start stop enqueue thread_round
step starts q = start q
step stops q = stop q
step (enqueues f) q = enqueue f q
step (round took) q = thread_round took q.thread q

unfoldable pub run : List Event → FrameQueue → FrameQueue
unfolding step
run [] q = q
run (e ∷ es) q = run es (step e q)
