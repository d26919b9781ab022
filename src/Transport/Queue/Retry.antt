-- ===== src/Transport/Queue/Retry.antt =====
-- The transparent retry of `onFinished` in zc_http_transport.cpp, over a history of the queue.
use obs_zcamera.Prelude.{
  ℕ, suc, ◌+◌, ◌*◌, ◌≤◌, ◌≡◌, refl, ap, Bool, true, false, Option, none, some, List, [], ◌∷◌, ◌++◌,
  Text, arith, if◌then◌else◌, Bool-cases, Option-cases, inl, inr,
}
use obs_zcamera.Transport.Digest.{Reply}
use obs_zcamera.Transport.Queue.{
  Request, Flight, Transport, Response, Action, transmit, deliver, Event, ask, finished, fewer,
  response_of, do_request, pump_queue, pump, enqueue, enqueue_all, complete, on_finished, handle,
  run,
}
use obs_zcamera.Transport.Queue.Serial.{
  is_some, is_retried, arrivals, all_arrivals, IsSerial, handle-Serves, handle-idle, handle-busy,
  on_finished-retries, on_finished-completes, enqueue-Adds, enqueue_all-Adds,
}

-- The number, if the request is one of those that are counted.
abbrev pub counted : Bool → ℕ → ℕ
counted true n = n
counted false n = 0

-- How many requests of a class there are, and how often such requests are put on the wire.
abbrev pub count : (Request → Bool) → List Request → ℕ
count p [] = 0
count p (r ∷ rs) = counted (p r) 1 + count p rs

abbrev pub attempts : (Request → Bool) → List Action → ℕ
attempts p [] = 0
attempts p (transmit r a c x ∷ more) = counted (p r) 1 + attempts p more
attempts p (deliver r response ∷ more) = attempts p more

count-append :
    (p : Request → Bool) (rs ts : List Request) → count p (rs ++ ts) ≡ count p rs + count p ts
count-append p [] ts = omega arith
count-append p (r ∷ rs) ts = omega (arith, count-append p rs ts)

attempts-append :
    (p : Request → Bool) (xs ys : List Action)
    → attempts p (xs ++ ys) ≡ attempts p xs + attempts p ys
attempts-append p [] ys = omega arith
attempts-append p (transmit r a c x ∷ xs) ys = omega (arith, attempts-append p xs ys)
attempts-append p (deliver r response ∷ xs) ys = attempts-append p xs ys

abbrev pub spare_flight : (Request → Bool) → Option Flight → ℕ
spare_flight p none = 0
spare_flight p (some f) = counted (p f.request) f.retries

-- The attempts that the requests of the class still have: one retry for the one under way if it is
-- left, and two attempts for each in the queue.
abbrev pub spare : (Request → Bool) → Transport → ℕ
spare p t = spare_flight p t.flight + 2 * count p t.queue

module _ (md5hex : Text → Text) (p : Request → Bool) where
  pump-attempts :
      (t : Transport)
      → t.busy ≡ is_some t.flight
      → attempts p (pump md5hex t).1 + spare p (pump md5hex t).0 ≡ spare p t
  unfolding pump pump_queue do_request
  pump-attempts t e = ground arith

  enqueue-attempts :
      (r : Request) (t : Transport)
      → t.busy ≡ is_some t.flight
      → attempts p (enqueue md5hex r t).1 + spare p (enqueue md5hex r t).0
        ≡ spare p t + 2 * counted (p r) 1
  unfolding enqueue
  enqueue-attempts r t e = omega (
    arith,
    pump-attempts (record t { queue = t.queue ++ r ∷ [] }) e,
    count-append p t.queue (r ∷ []),
  )

  enqueue_all-attempts :
      (rs : List Request) (t : Transport)
      → t.busy ≡ is_some t.flight
      → attempts p (enqueue_all md5hex rs t).1 + spare p (enqueue_all md5hex rs t).0
        ≡ spare p t + 2 * count p rs
  unfolding enqueue_all
  enqueue_all-attempts [] t e = omega arith
  enqueue_all-attempts (r ∷ rs) t e =
      let t' = (enqueue md5hex r t).0 in
      let kept = (enqueue-Adds md5hex r t e).serial.flagged in
      omega (
        arith,
        enqueue-attempts r t e,
        enqueue_all-attempts rs t' kept,
        attempts-append p (enqueue md5hex r t).1 (enqueue_all md5hex rs t').1,
      )

  complete-attempts :
      (r : Request) (response : Response) (rs : List Request) (t : Transport)
      → attempts p (complete md5hex r response rs t).1 + spare p (complete md5hex r response rs t).0
        ≡ 2 * count p t.queue + 2 * count p rs
  unfolding complete
  complete-attempts r response rs t =
      let idle : Transport = record t { busy = false; flight = none } in
      let asked = enqueue_all md5hex rs idle in
      omega (
        arith,
        enqueue_all-attempts rs idle refl,
        pump-attempts asked.0 (enqueue_all-Adds md5hex rs idle refl).2,
        attempts-append p asked.1 (pump md5hex asked.0).1,
      )

  do_request-attempts :
      (f : Flight) (t : Transport)
      → attempts p (do_request md5hex f t).1 + spare p (do_request md5hex f t).0
        ≡ counted (p f.request) (suc f.retries) + 2 * count p t.queue
  unfolding do_request
  do_request-attempts f t = elim (Bool-cases (p f.request)) [
    | inl e ↦ rw e (omega arith)
    | inr e ↦ rw e (omega arith)
  ]

  retried-pos :
      (cnonce : Text) (reply : Reply) (f : Flight) (t : Transport)
      → is_retried cnonce reply f t ≡ true
      → suc (fewer f.retries) ≡ f.retries
  retried-pos cnonce reply f t e = ground arith

  on_finished-attempts :
      (cnonce : Text) (reply : Reply) (more : List Request) (f : Flight) (t : Transport)
      → attempts p (on_finished md5hex cnonce reply more f t).1
          + spare p (on_finished md5hex cnonce reply more f t).0
        ≤ counted (p f.request) f.retries
          + 2 * count p t.queue
          + 2 * count p (if is_retried cnonce reply f t then [] else more)
  on_finished-attempts cnonce reply more f t = elim (Bool-cases (is_retried cnonce reply f t)) [
    | inl again ↦
        let (a, e) = on_finished-retries md5hex cnonce reply more f t again in
        rw (e, again)
          (omega (
            arith,
            do_request-attempts (record { request = f.request; retries = fewer f.retries })
                (record t { auth = a }),
            ap (counted (p f.request)) (retried-pos cnonce reply f t again),
          ))
    | inr done ↦
        let (a, e) = on_finished-completes md5hex cnonce reply more f t done in
        rw (e, done)
          (omega
            (arith, complete-attempts f.request (response_of reply) more (record t { auth = a })))
  ]

  handle-attempts :
      (e : Event) (t : Transport)
      → IsSerial t
      → attempts p (handle md5hex e t).1 + spare p (handle md5hex e t).0
        ≤ spare p t + 2 * count p (arrivals e t)
  unfolding handle
  handle-attempts (ask r) t s = omega (arith, enqueue-attempts r t s.flagged)
  handle-attempts (finished cnonce reply more) t s = elim (Option-cases t.flight) [
    | inl idle ↦
        let (same, nothing) = handle-idle md5hex cnonce reply more t idle in
        rw (same, nothing) (omega arith)
    | inr (f, fl) ↦
        let (same, came) = handle-busy md5hex cnonce reply more t f fl in
        rw (same, came)
          (omega (arith, on_finished-attempts cnonce reply more f t, ap (spare_flight p) fl))
  ]

  run-attempts :
      (es : List Event) (t : Transport)
      → IsSerial t
      → attempts p (run md5hex es t).1 + spare p (run md5hex es t).0
        ≤ spare p t + 2 * count p (all_arrivals md5hex es t)
  unfolding run all_arrivals
  run-attempts [] t s = omega arith
  run-attempts (e ∷ es) t s =
      let t' = (handle md5hex e t).0 in
      omega (
        arith,
        handle-attempts e t s,
        run-attempts es t' (handle-Serves md5hex e t s).0,
        attempts-append p (handle md5hex e t).1 (run md5hex es t').1,
        count-append p (arrivals e t) (all_arrivals md5hex es t'),
      )

  -- Over any history and for every class of requests, also one that picks out a single request: the
  -- requests of the class are put on the wire at most twice as often as such requests came in, besides
  -- what was left to those at hand when it began.
  pub run-attempts-le :
      (es : List Event) (t : Transport)
      → IsSerial t
      → attempts p (run md5hex es t).1 ≤ spare p t + 2 * count p (all_arrivals md5hex es t)
  run-attempts-le es t s = omega (arith, run-attempts es t s)
