-- ===== src/FrameQueue/Tokens.antt =====
-- The semaphore of VFrameQueue.cpp and the frames that wait.
use obs_zcamera.Prelude.{
  ℕ, zero, suc, ◌-◌, ◌≤◌, ◌<◌, ◌≡◌, refl, ap, ◌∙◌, List, [], ◌∷◌, arith, length, length-append,
}
use obs_zcamera.FrameQueue.{
  Frame, Thread, absent, first_wait, loop_test, loop_wait, returned, FrameQueue, new, Event, starts,
  stops, enqueues, round, start, stop, enqueue, decide, take_first, take_next, acquire,
  thread_round, step, run,
}

-- Every frame in the queue has a token, so that the thread is never blocked while a frame waits.
abbrev pub IsSignalled : FrameQueue → Type 0
IsSignalled q = length q.queue ≤ q.sem

decide-IsSignalled :
    (took : ℕ) (f : Frame) (q : FrameQueue) → IsSignalled q → IsSignalled (decide took f q)
unfolding decide
decide-IsSignalled took f q h = ground arith

-- A predicate that the wait and both outcomes of a round keep, a round keeps.
pub acquire_rule {ℓ} :
    (P : FrameQueue → Type ℓ) (q : FrameQueue) (tokens : ℕ) (body : FrameQueue → FrameQueue)
    → P q
    → ((n : ℕ) → tokens ≡ suc n → P (body (record q { sem = n })))
    → P (acquire tokens q body)
acquire_rule P q zero body blocked goes = blocked
acquire_rule P q (suc n) body blocked goes = goes n refl

take_first-IsSignalled :
    (took : ℕ) (frames : List Frame) (q : FrameQueue)
    → length frames ≤ suc q.sem
    → q.queue ≡ frames
    → IsSignalled (take_first took frames q)
unfolding take_first
take_first-IsSignalled took [] q h e = rw e (omega arith)
take_first-IsSignalled took (f ∷ rest) q h e = omega arith

take_next-IsSignalled :
    (took : ℕ) (frames : List Frame) (q : FrameQueue)
    → length frames ≤ suc q.sem
    → q.queue ≡ frames
    → IsSignalled (take_next took frames q)
unfolding take_next
take_next-IsSignalled took [] q h e = rw e (omega arith)
take_next-IsSignalled took (f ∷ rest) q h e =
    decide-IsSignalled took f (record q { queue = rest }) (omega arith)

round-IsSignalled :
    (took : ℕ) (t : Thread) (q : FrameQueue) → IsSignalled q → IsSignalled (thread_round took t q)
unfolding thread_round
round-IsSignalled took absent q h = h
round-IsSignalled took first_wait q h =
    acquire_rule IsSignalled q q.sem (λ p. take_first took p.queue p) h
      (λ n e. take_first-IsSignalled took q.queue (record q { sem = n }) (omega arith) refl)
round-IsSignalled took loop_test q h = h
round-IsSignalled took loop_wait q h =
    acquire_rule IsSignalled q q.sem (λ p. take_next took p.queue p) h
      (λ n e. take_next-IsSignalled took q.queue (record q { sem = n }) (omega arith) refl)
round-IsSignalled took returned q h = h

step-IsSignalled : (e : Event) (q : FrameQueue) → IsSignalled q → IsSignalled (step e q)
unfolding step start stop enqueue
step-IsSignalled starts q h = h
step-IsSignalled stops q h = omega arith
step-IsSignalled (enqueues f) q h = omega (arith, length-append q.queue (f ∷ []))
step-IsSignalled (round took) q h = round-IsSignalled took q.thread q h

run-IsSignalled : (es : List Event) (q : FrameQueue) → IsSignalled q → IsSignalled (run es q)
unfolding run
run-IsSignalled [] q h = h
run-IsSignalled (e ∷ es) q h = run-IsSignalled es (step e q) (step-IsSignalled e q h)

decide-shorter :
    (took : ℕ) (f : Frame) (q : FrameQueue)
    → ((decide took f q).queue ≡ q.queue) × ((decide took f q).thread ≡ loop_test)
unfolding decide
decide-shorter took f q = ground arith

take_next-cons :
    (took : ℕ) (f : Frame) (rest : List Frame) (q : FrameQueue)
    → ((take_next took (f ∷ rest) q).queue ≡ rest)
      × ((take_next took (f ∷ rest) q).thread ≡ loop_test)
unfolding take_next
take_next-cons took f rest q = decide-shorter took f (record q { queue = rest })

acquire-pos :
    (tokens : ℕ) (q : FrameQueue) (body : FrameQueue → FrameQueue)
    → 0 < tokens
    → acquire tokens q body ≡ body (record q { sem = tokens - 1 })
acquire-pos zero q body h = absurd (omega arith)
acquire-pos (suc n) q body h = ap (λ k. body (record q { sem = k })) (omega arith)

round-takes_next :
    (took : ℕ) (f : Frame) (rest : List Frame) (q : FrameQueue)
    → IsSignalled q
    → q.thread ≡ loop_wait
    → q.queue ≡ f ∷ rest
    → ((thread_round took q.thread q).queue ≡ rest)
      × ((thread_round took q.thread q).thread ≡ loop_test)
unfolding thread_round
round-takes_next took f rest q h w e =
    let shape : thread_round took q.thread q
        ≡ take_next took (f ∷ rest) (record q { sem = q.sem - 1 }) =
      ap (λ t. thread_round took t q) w
      ∙ acquire-pos q.sem q (λ p. take_next took p.queue p) (omega (arith, ap length e))
      ∙ ap (λ fs. take_next took fs (record q { sem = q.sem - 1 })) e in
    rw shape (take_next-cons took f rest (record q { sem = q.sem - 1 }))

-- No frame waits for ever while the thread is in its loop: after any history since the queue was
-- made, a thread that waits while frames are queued takes the oldest of them in its next round.
pub run-takes_next :
    (es : List Event) (took : ℕ) (f : Frame) (rest : List Frame)
    → (run es new).thread ≡ loop_wait
    → (run es new).queue ≡ f ∷ rest
    → ((step (round took) (run es new)).queue ≡ rest)
      × ((step (round took) (run es new)).thread ≡ loop_test)
unfolding step
run-takes_next es took f rest waits queued =
    round-takes_next took f rest (run es new) (run-IsSignalled es new (omega arith)) waits queued

-- A restart may end at once: `stop` adds a token that the thread need not take, and after the next
-- `start` the wait for the first frame takes it, finds the queue empty and returns.
restart-returned :
    (a b : ℕ) (q : FrameQueue)
    → q.thread ≡ loop_test
    → q.queue ≡ []
    → (run (stops ∷ round a ∷ starts ∷ round b ∷ []) q).thread ≡ returned
unfolding run step start stop thread_round take_first
restart-returned a b q t e = rw t (rw e refl)
