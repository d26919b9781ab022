-- ===== src/FrameQueue/Shown.antt =====
-- VFrameQueue.cpp, `run`: the order in which a thread shows its frames.
use obs_zcamera.Prelude.{
  ℕ, ◌≤◌, ◌≡◌, refl, sym, Bool, true, false, List, [], ◌∷◌, ◌++◌, arith, ltb, if◌then◌else◌,
  not_ltb→le,
}
use obs_zcamera.FrameQueue.{
  Frame, FrameQueue, Thread, absent, first_wait, loop_test, loop_wait, returned, Event, starts,
  stops, enqueues, round, start, stop, enqueue, show, discard, is_timely, decide, take_first,
  take_next, thread_round, step, run,
}
use obs_zcamera.FrameQueue.Tokens.{acquire_rule}

abbrev pub AllUpTo : ℕ → List Frame → Type 0
AllUpTo time [] = Unit
AllUpTo time (f ∷ fs) = (f.time ≤ time) × AllUpTo time fs

abbrev pub AllFrom : ℕ → List Frame → Type 0
AllFrom time [] = Unit
AllFrom time (f ∷ fs) = (time ≤ f.time) × AllFrom time fs

-- No frame is earlier than one before it.
abbrev pub IsAscending : List Frame → Type 0
IsAscending [] = Unit
IsAscending (f ∷ fs) = AllFrom f.time fs × IsAscending fs

AllFrom-snoc :
    (time : ℕ) (fs : List Frame) (g : Frame)
    → AllFrom time fs
    → time ≤ g.time
    → AllFrom time (fs ++ g ∷ [])
AllFrom-snoc time [] g h k = (k, tt)
AllFrom-snoc time (f ∷ fs) g h k = (h.0, AllFrom-snoc time fs g h.1 k)

-- A frame that is no earlier than a bound of the others can follow them.
snoc-IsAscending :
    (fs : List Frame) (g : Frame) (time : ℕ)
    → IsAscending fs
    → AllUpTo time fs
    → time ≤ g.time
    → IsAscending (fs ++ g ∷ []) × AllUpTo g.time (fs ++ g ∷ [])
snoc-IsAscending [] g time h b k = ((tt, tt), (omega arith, tt))
snoc-IsAscending (f ∷ fs) g time h b k =
    let (rest, bounded) = snoc-IsAscending fs g time h.1 b.1 k in
    ((AllFrom-snoc f.time fs g h.0 (omega (arith, b.0)), rest), (omega (arith, b.0), bounded))

-- The shown frames are in order, the last time bounds them, and none is shown before the first wait.
pub record IsOrdered (q : FrameQueue) : Type 0 where
  pub ascending : IsAscending q.shown
  pub bounded : AllUpTo q.last_frame_time q.shown
  pub fresh : q.thread ≡ first_wait → q.shown ≡ []

show-IsOrdered :
    (took : ℕ) (f : Frame) (q : FrameQueue)
    → IsAscending q.shown
    → AllUpTo q.last_frame_time q.shown
    → q.last_frame_time ≤ f.time
    → IsOrdered (show took f q)
unfolding show
show-IsOrdered took f q h b k =
    let (all, bounded) = snoc-IsAscending q.shown f q.last_frame_time h b k in
    record { ascending = all; bounded = bounded; fresh = λ e. cc e }

discard-IsOrdered :
    (f : Frame) (q : FrameQueue)
    → IsAscending q.shown
    → AllUpTo q.last_frame_time q.shown
    → IsOrdered (discard f q)
unfolding discard
discard-IsOrdered f q h b = record { ascending = h; bounded = b; fresh = λ e. cc e }

if_rule {ℓ} :
    {A : Type 0} (P : A → Type ℓ) (b : Bool) (x y : A)
    → (b ≡ true → P x)
    → (b ≡ false → P y)
    → P (if b then x else y)
if_rule P true x y at_true at_false = at_true refl
if_rule P false x y at_true at_false = at_false refl

decide-IsOrdered :
    (took : ℕ) (f : Frame) (q : FrameQueue)
    → IsAscending q.shown
    → AllUpTo q.last_frame_time q.shown
    → IsOrdered (decide took f q)
unfolding decide
decide-IsOrdered took f q h b =
    if_rule IsOrdered (ltb f.time q.last_frame_time) (discard f q)
      (if f.no_drop then show took f q else (if is_timely f q then show took f q else discard f q))
      (λ late. discard-IsOrdered f q h b)
      (λ in_time.
        let shown = show-IsOrdered took f q h b (not_ltb→le f.time q.last_frame_time in_time) in
        if_rule IsOrdered f.no_drop (show took f q)
          (if is_timely f q then show took f q else discard f q) (λ keep. shown)
          (λ may.
            if_rule IsOrdered (is_timely f q) (show took f q) (discard f q) (λ timely. shown)
              (λ slow. discard-IsOrdered f q h b)))

take_next-IsOrdered :
    (took : ℕ) (fs : List Frame) (q : FrameQueue) → IsOrdered q → IsOrdered (take_next took fs q)
unfolding take_next
take_next-IsOrdered took [] q o = record {
  ascending = o.ascending;
  bounded = o.bounded;
  fresh = λ e. cc e;
}
take_next-IsOrdered took (f ∷ rest) q o =
    decide-IsOrdered took f (record q { queue = rest }) o.ascending o.bounded

take_first-IsOrdered :
    (took : ℕ) (fs : List Frame) (q : FrameQueue)
    → IsOrdered q
    → q.shown ≡ []
    → IsOrdered (take_first took fs q)
unfolding take_first show
take_first-IsOrdered took [] q o e = record {
  ascending = o.ascending;
  bounded = o.bounded;
  fresh = λ d. cc d;
}
take_first-IsOrdered took (f ∷ rest) q o e = record {
  ascending = rw e (tt, tt);
  bounded = rw e (omega arith, tt);
  fresh = λ d. cc d;
}

with_sem : (n : ℕ) (q : FrameQueue) → IsOrdered q → IsOrdered (record q { sem = n })
with_sem n q o = record { ascending = o.ascending; bounded = o.bounded; fresh = o.fresh }

round-IsOrdered :
    (took : ℕ) (t : Thread) (q : FrameQueue)
    → t ≡ q.thread
    → IsOrdered q
    → IsOrdered (thread_round took t q)
unfolding thread_round
round-IsOrdered took absent q e o = o
round-IsOrdered took first_wait q e o =
    acquire_rule IsOrdered q q.sem (λ p. take_first took p.queue p) o
      (λ n d.
        take_first-IsOrdered took q.queue (record q { sem = n }) (with_sem n q o) (o.fresh (sym e)))
round-IsOrdered took loop_test q e o = record {
  ascending = o.ascending;
  bounded = o.bounded;
  fresh = λ d. ground arith;
}
round-IsOrdered took loop_wait q e o =
    acquire_rule IsOrdered q q.sem (λ p. take_next took p.queue p) o
      (λ n d. take_next-IsOrdered took q.queue (record q { sem = n }) (with_sem n q o))
round-IsOrdered took returned q e o = o

abbrev pub NoStart : List Event → Type 0
NoStart [] = Unit
NoStart (starts ∷ es) = ⊥
NoStart (_ ∷ es) = NoStart es

run-IsOrdered : (es : List Event) (q : FrameQueue) → NoStart es → IsOrdered q → IsOrdered (run es q)
unfolding run step stop enqueue
run-IsOrdered [] q h o = o
run-IsOrdered (starts ∷ es) q h o = absurd h
run-IsOrdered (stops ∷ es) q h o =
    run-IsOrdered es (stop q) h
      (record { ascending = o.ascending; bounded = o.bounded; fresh = o.fresh })
run-IsOrdered (enqueues f ∷ es) q h o =
    run-IsOrdered es (enqueue f q) h
      (record { ascending = o.ascending; bounded = o.bounded; fresh = o.fresh })
run-IsOrdered (round took ∷ es) q h o =
    run-IsOrdered es (thread_round took q.thread q) h (round-IsOrdered took q.thread q refl o)

-- From a start to the next one, the frames are shown in the order of their times, whatever is
-- enqueued in between and in whatever order: a frame that is earlier than one shown before is never
-- shown. That is for a queue that has shown nothing before the start.
pub run-IsAscending :
    (es : List Event) (q : FrameQueue)
    → NoStart es
    → q.shown ≡ []
    → IsAscending (run es (start q)).shown
unfolding start
run-IsAscending es q h e =
    (run-IsOrdered es (start q) h
      (record { ascending = rw e tt; bounded = rw e tt; fresh = λ d. e })).ascending
