-- ===== src/Transport/Queue/Serial.antt =====
-- The queue of zc_http_transport.cpp: the requests that came in, wait, are under way and are answered.
use obs_zcamera.Prelude.{
  ◌≡◌, refl, sym, ap, ap₂, ◌∙◌, Bool, true, false, ◌&&◌, Option, none, some, List, [], ◌∷◌, ◌++◌,
  append_assoc, append-nil, Text, arith, if◌then◌else◌, Bool-cases, Option-cases, inl, inr,
  true≢false,
}
use obs_zcamera.Transport.Digest.{Auth, Reply, parse_challenge}
use obs_zcamera.Transport.Session.{capture_session}
use obs_zcamera.Transport.Queue.{
  Request, Flight, Transport, Response, Action, transmit, deliver, Event, ask, finished, may_retry,
  fewer, response_of, do_request, pump_queue, pump, enqueue, enqueue_all, complete, on_finished,
  handle, run,
}

abbrev pub in_flight : Option Flight → List Request
in_flight none = []
in_flight (some f) = f.request ∷ []

abbrev pub is_some : Option Flight → Bool
is_some none = false
is_some (some f) = true

-- The requests that are not answered yet, the oldest first.
abbrev pub outstanding : Transport → List Request
outstanding t = in_flight t.flight ++ t.queue

-- The requests whose callback ran, in order.
abbrev pub delivered : List Action → List Request
delivered [] = []
delivered (transmit r a c x ∷ more) = delivered more
delivered (deliver r response ∷ more) = r ∷ delivered more

-- The flag tells whether a request is under way, and a queue only waits behind one.
pub record IsSerial (t : Transport) : Type 0 where
  pub flagged : t.busy ≡ is_some t.flight
  pub waiting : t.busy ≡ false → t.queue ≡ []

delivered-append : (xs ys : List Action) → delivered (xs ++ ys) ≡ delivered xs ++ delivered ys
delivered-append [] ys = refl
delivered-append (transmit r a c x ∷ xs) ys = delivered-append xs ys
delivered-append (deliver r response ∷ xs) ys = ap (◌∷◌ r) (delivered-append xs ys)

-- Whether the reply to the request under way is answered by the retry.
abbrev pub is_retried : Text → Reply → Flight → Transport → Bool
is_retried cnonce reply f t =
    let a = capture_session reply t.auth in
    may_retry f.retries reply a && (parse_challenge cnonce reply a).1

-- The requests that an event brings in: those of the client, or those of the callback if it runs.
abbrev pub arrivals : Event → Transport → List Request
arrivals (ask r) t = r ∷ []
arrivals (finished cnonce reply more) t = elim t.flight [
  | none ↦ []
  | some f ↦ if is_retried cnonce reply f t then [] else more
]

-- What one step and the rest conserve, both conserve.
regroup :
    (xs ys zs us vs ws ms : List Request)
    → xs ++ ms ≡ us ++ vs
    → ys ++ zs ≡ ms ++ ws
    → (xs ++ ys) ++ zs ≡ us ++ (vs ++ ws)
regroup xs ys zs us vs ws ms e k =
    append_assoc xs ys zs
    ∙ ap (λ l. xs ++ l) k
    ∙ sym (append_assoc xs ms ws)
    ∙ ap (λ l. l ++ ws) e
    ∙ append_assoc us vs ws

module _ (md5hex : Text → Text) where
  -- A step on the transport that answers nothing and adds `rs` to what is outstanding.
  pub record Adds (rs : List Request) (t : Transport) (out : Transport × List Action) : Type 0 where
    pub serial : IsSerial out.0
    pub quiet : delivered out.1 ≡ []
    pub added : outstanding out.0 ≡ outstanding t ++ rs

  pump-Adds : (t : Transport) → t.busy ≡ is_some t.flight → Adds [] t (pump md5hex t)
  unfolding pump pump_queue do_request
  pump-Adds t e = ground (arith, append-nil (outstanding t), append-nil t.queue)

  pub enqueue-Adds :
      (r : Request) (t : Transport)
      → t.busy ≡ is_some t.flight
      → Adds (r ∷ []) t (enqueue md5hex r t)
  unfolding enqueue
  enqueue-Adds r t e =
      let p = pump-Adds (record t { queue = t.queue ++ r ∷ [] }) e in
      record {
        serial = p.serial;
        quiet = p.quiet;
        added = p.added ∙ append-nil _ ∙ sym (append_assoc (in_flight t.flight) t.queue (r ∷ []));
      }

  pub enqueue_all-Adds :
      (rs : List Request) (t : Transport)
      → t.busy ≡ is_some t.flight
      → (delivered (enqueue_all md5hex rs t).1 ≡ [])
        × (outstanding (enqueue_all md5hex rs t).0 ≡ outstanding t ++ rs)
        × ((enqueue_all md5hex rs t).0.busy ≡ is_some (enqueue_all md5hex rs t).0.flight)
  unfolding enqueue_all
  enqueue_all-Adds [] t e = (refl, sym (append-nil _), e)
  enqueue_all-Adds (r ∷ rs) t e =
      let one = enqueue-Adds r t e in
      let rest = enqueue_all-Adds rs (enqueue md5hex r t).0 one.serial.flagged in
      (
        delivered-append (enqueue md5hex r t).1 (enqueue_all md5hex rs (enqueue md5hex r t).0).1
            ∙ ap₂ ◌++◌ one.quiet rest.0,
        rest.1 ∙ ap (λ l. l ++ rs) one.added ∙ append_assoc (outstanding t) (r ∷ []) rs,
        rest.2,
      )

  -- A step that answers the request under way, and adds `rs`.
  record Answers (r : Request) (rs : List Request) (t : Transport) (out : Transport × List Action)
      : Type 0 where
    serial : IsSerial out.0
    answered : delivered out.1 ≡ r ∷ []
    added : outstanding out.0 ≡ t.queue ++ rs

  complete-Answers :
      (r : Request) (response : Response) (rs : List Request) (t : Transport)
      → Answers r rs t (complete md5hex r response rs t)
  unfolding complete
  complete-Answers r response rs t =
      let idle : Transport = record t { busy = false; flight = none } in
      let asked = enqueue_all-Adds rs idle refl in
      let pumped = pump-Adds (enqueue_all md5hex rs idle).0 asked.2 in
      record {
        serial = pumped.serial;
        answered = ap (◌∷◌ r) (
            delivered-append (enqueue_all md5hex rs idle).1
              (pump md5hex (enqueue_all md5hex rs idle).0).1
            ∙ ap₂ ◌++◌ asked.0 pumped.quiet);
        added = pumped.added ∙ append-nil _ ∙ asked.1;
      }

  pub on_finished-retries :
      (cnonce : Text) (reply : Reply) (more : List Request) (f : Flight) (t : Transport)
      → is_retried cnonce reply f t ≡ true
      → (a : Auth) × (on_finished md5hex cnonce reply more f t
          ≡ do_request md5hex
              (record { request = f.request; retries = fewer f.retries })
              (record t { auth = a }))
  unfolding on_finished
  on_finished-retries cnonce reply more f t e =
      let a = capture_session reply t.auth in
      let parsed = parse_challenge cnonce reply a in
      let both : (may_retry f.retries reply a ≡ true) × (parsed.1 ≡ true) = ground arith in
      (parsed.0, rw (both.0, both.1))

  pub on_finished-completes :
      (cnonce : Text) (reply : Reply) (more : List Request) (f : Flight) (t : Transport)
      → is_retried cnonce reply f t ≡ false
      → (a : Auth) × (on_finished md5hex cnonce reply more f t
          ≡ complete md5hex f.request (response_of reply) more (record t { auth = a }))
  unfolding on_finished
  on_finished-completes cnonce reply more f t e =
      let a = capture_session reply t.auth in
      let parsed = parse_challenge cnonce reply a in
      elim (Bool-cases (may_retry f.retries reply a)) [
        | inr never ↦ (a, rw never)
        | inl may ↦ let useless : parsed.1 ≡ false = ground arith in (parsed.0, rw (may, useless))
      ]

  do_request-IsSerial :
      (f : Flight) (t : Transport)
      → t.busy ≡ true
      → IsSerial (do_request md5hex f t).0
        × (delivered (do_request md5hex f t).1 ++ outstanding (do_request md5hex f t).0
            ≡ f.request ∷ t.queue)
  unfolding do_request
  do_request-IsSerial f t busy =
      (record { flagged = busy; waiting = λ idle. absurd (true≢false (sym busy ∙ idle)) }, refl)

  on_finished-Serves :
      (cnonce : Text) (reply : Reply) (more : List Request) (f : Flight) (t : Transport)
      → t.busy ≡ true
      → t.flight ≡ some f
      → IsSerial (on_finished md5hex cnonce reply more f t).0
        × (delivered (on_finished md5hex cnonce reply more f t).1
              ++ outstanding (on_finished md5hex cnonce reply more f t).0
            ≡ (f.request ∷ t.queue) ++ (if is_retried cnonce reply f t then [] else more))
  on_finished-Serves cnonce reply more f t busy fl =
      elim (Bool-cases (is_retried cnonce reply f t)) [
        | inl again ↦
            let (a, e) = on_finished-retries cnonce reply more f t again in
            rw (e, again, append-nil t.queue)
              (do_request-IsSerial (record { request = f.request; retries = fewer f.retries })
                (record t { auth = a }) busy)
        | inr done ↦
            let (a, e) = on_finished-completes cnonce reply more f t done in
            let c = complete-Answers f.request (response_of reply) more (record t { auth = a }) in
            rw (e, done) (c.serial, ap₂ ◌++◌ c.answered c.added)
      ]

  pub handle-idle :
      (cnonce : Text) (reply : Reply) (more : List Request) (t : Transport)
      → t.flight ≡ none
      → (handle md5hex (finished cnonce reply more) t ≡ (t, []))
        × (arrivals (finished cnonce reply more) t ≡ [])
  unfolding handle
  handle-idle cnonce reply more t e = (
    ap
        (λ o. elim o as (λ _. Transport × List Action) [
          | none ↦ (t, [])
          | some f ↦ on_finished md5hex cnonce reply more f t
        ])
        e,
    ap
        (λ o. elim o as (λ _. List Request) [
          | none ↦ []
          | some f ↦ if is_retried cnonce reply f t then [] else more
        ])
        e,
  )

  pub handle-busy :
      (cnonce : Text) (reply : Reply) (more : List Request) (t : Transport) (f : Flight)
      → t.flight ≡ some f
      → (handle md5hex (finished cnonce reply more) t ≡ on_finished md5hex cnonce reply more f t)
        × (arrivals (finished cnonce reply more) t
            ≡ (if is_retried cnonce reply f t then [] else more))
  unfolding handle
  handle-busy cnonce reply more t f e = (
    ap
        (λ o. elim o as (λ _. Transport × List Action) [
          | none ↦ (t, [])
          | some g ↦ on_finished md5hex cnonce reply more g t
        ])
        e,
    ap
        (λ o. elim o as (λ _. List Request) [
          | none ↦ []
          | some g ↦ if is_retried cnonce reply g t then [] else more
        ])
        e,
  )

  pub handle-Serves :
      (e : Event) (t : Transport)
      → IsSerial t
      → IsSerial (handle md5hex e t).0
        × (delivered (handle md5hex e t).1 ++ outstanding (handle md5hex e t).0
            ≡ outstanding t ++ arrivals e t)
  unfolding handle
  handle-Serves (ask r) t s =
      let asked = enqueue-Adds r t s.flagged in
      (asked.serial, ap (λ l. l ++ outstanding (enqueue md5hex r t).0) asked.quiet ∙ asked.added)
  handle-Serves (finished cnonce reply more) t s = elim (Option-cases t.flight) [
    | inl idle ↦
        let (same, nothing) = handle-idle cnonce reply more t idle in
        rw (same, nothing) (s, sym (append-nil (outstanding t)))
    | inr (f, fl) ↦
        let (same, came) = handle-busy cnonce reply more t f fl in
        let served = on_finished-Serves cnonce reply more f t (s.flagged ∙ ap is_some fl) fl in
        rw (same, came)
          (
            served.0,
            served.1
                ∙ ap
                    (λ o.
                      (in_flight o ++ t.queue)
                      ++ (if is_retried cnonce reply f t then [] else more))
                    (sym fl),
          )
  ]

  -- All the requests that a history brings in, in order.
  unfoldable pub all_arrivals : List Event → Transport → List Request
  all_arrivals [] t = []
  all_arrivals (e ∷ es) t = arrivals e t ++ all_arrivals es (handle md5hex e t).0

  -- After any history of requests and replies, with callbacks that may enqueue more: the requests
  -- answered so far, then the one under way, then the queue, are exactly the requests that came in,
  -- in their order. So each is answered once, none is lost and none overtakes another, and nothing
  -- waits while no request is under way.
  pub run-IsSerial :
      (es : List Event) (t : Transport)
      → IsSerial t
      → IsSerial (run md5hex es t).0
        × (delivered (run md5hex es t).1 ++ outstanding (run md5hex es t).0
            ≡ outstanding t ++ all_arrivals es t)
  unfolding run all_arrivals
  run-IsSerial [] t s = (s, sym (append-nil _))
  run-IsSerial (e ∷ es) t s =
      let one = handle-Serves e t s in
      let rest = run-IsSerial es (handle md5hex e t).0 one.0 in
      (
        rest.0,
        ap (λ l. l ++ outstanding (run md5hex es (handle md5hex e t).0).0)
              (delivered-append (handle md5hex e t).1 (run md5hex es (handle md5hex e t).0).1)
            ∙ regroup (delivered (handle md5hex e t).1) _ _ (outstanding t) (arrivals e t) _ _ one.1
                rest.1,
      )
