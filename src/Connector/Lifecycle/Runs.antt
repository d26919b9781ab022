-- ===== src/Connector/Lifecycle/Runs.antt =====
-- Histories of stops and restarts.
use obs_zcamera.Prelude.{
  ℕ, suc, ◌≡◌, refl, sym, ap, ◌∙◌, Bool, true, false, Option, none, some, List, [], ◌∷◌, ◌++◌,
  append-nil, Bool-cases, inl, inr,
}
use obs_zcamera.Connector.Lifecycle.{
  SspClientIso, new, do_start, destroy_pipe, stop, restart, restart_elsewhere, deliver,
}

-- A client that stands still, or one connector that runs with a thread. Every connector that was started
-- before was ended, once, in order.
abbrev current : {P : Type 0} → Option P → List P
current none = []
current (some p) = p ∷ []

abbrev is_some : {P : Type 0} → Option P → Bool
is_some none = false
is_some (some p) = true

pub record IsTidy {P : Type 0} (c : SspClientIso P) : Type 0 where
  pub runs : c.running ≡ is_some c.pipe
  pub joins : c.joinable ≡ is_some c.pipe
  pub one_at_a_time : c.created ≡ c.destroyed ++ current c.pipe
  pub alive : c.aborted ≡ false

pub data Operation (P : Type 0) : Type 0 where
  stopping : Operation P
  restarting : Option P → Operation P

module _ {P : Type 0} where
  abbrev pub apply : Operation P → SspClientIso P → SspClientIso P
  apply stopping c = stop c
  apply (restarting created) c = restart created c

  abbrev pub run : List (Operation P) → SspClientIso P → SspClientIso P
  run [] c = c
  run (o ∷ os) c = run os (apply o c)

  abbrev IsStill : SspClientIso P → Type 0
  IsStill c =
      (c.running ≡ false)
      × (c.joinable ≡ false)
      × (c.created ≡ c.destroyed)
      × (c.aborted ≡ false)
      × (c.pipe ≡ none)

  stop_pipe-IsStill :
      (pipe : Option P) (c : SspClientIso P) → c.pipe ≡ pipe → IsTidy c → IsStill (stop c)
  unfolding stop destroy_pipe
  stop_pipe-IsStill none c e t =
      let runs = t.runs ∙ ap is_some e in
      let created =
        t.one_at_a_time ∙ ap (λ o. c.destroyed ++ current o) e ∙ append-nil c.destroyed in
      rw runs (refl, t.joins ∙ ap is_some e, created, t.alive, e)
  stop_pipe-IsStill (some p) c e t =
      let runs = t.runs ∙ ap is_some e in
      rw (runs, e)
        (refl, refl, t.one_at_a_time ∙ ap (λ o. c.destroyed ++ current o) e, t.alive, refl)

  do_start-IsTidy :
      (created : Option P) (c : SspClientIso P) → IsStill c → IsTidy (do_start created c)
  unfolding do_start
  do_start-IsTidy none c (r, j, d, a, p) = record {
    runs = r ∙ sym (ap is_some p);
    joins = j ∙ sym (ap is_some p);
    one_at_a_time = d ∙ sym (append-nil c.destroyed) ∙ sym (ap (λ o. c.destroyed ++ current o) p);
    alive = a;
  }
  do_start-IsTidy (some q) c (r, j, d, a, p) =
      rw j
        (record { runs = refl; joins = refl; one_at_a_time = ap (λ l. l ++ q ∷ []) d; alive = a })

  still-IsTidy : (c : SspClientIso P) → IsStill c → IsTidy c
  unfolding do_start
  still-IsTidy c s = do_start-IsTidy none c s

  apply-IsTidy : (o : Operation P) (c : SspClientIso P) → IsTidy c → IsTidy (apply o c)
  unfolding restart
  apply-IsTidy stopping c t = still-IsTidy (stop c) (stop_pipe-IsStill c.pipe c refl t)
  apply-IsTidy (restarting created) c t =
      do_start-IsTidy created (stop c) (stop_pipe-IsStill c.pipe c refl t)

  -- From the first start on, whatever stops and restarts in the client's thread follow and whichever
  -- connectors cannot be started: the client runs exactly if it has a connector, with one thread to join,
  -- and every connector that was started, except that one, was ended, once, in order.
  pub run-IsTidy :
      (os : List (Operation P)) (created : Option P) → IsTidy (run os (do_start created new))
  run-IsTidy os created =
      go os (do_start created new) (do_start-IsTidy created new (refl, refl, refl, refl, refl))
    where
      go : (os : List (Operation P)) (c : SspClientIso P) → IsTidy c → IsTidy (run os c)
      go [] c t = t
      go (o ∷ os) c t = go os (apply o c) (apply-IsTidy o c t)

  queued-destroy_pipe : (o : Option P) (c : SspClientIso P) → (destroy_pipe o c).queued ≡ c.queued
  unfolding destroy_pipe
  queued-destroy_pipe none c = refl
  queued-destroy_pipe (some p) c = refl

  queued-stop : (c : SspClientIso P) → (stop c).queued ≡ c.queued
  unfolding stop
  queued-stop c = elim (Bool-cases c.running) [
    | inl on ↦ rw on (queued-destroy_pipe c.pipe (record c { running = false; joinable = false }))
    | inr off ↦ rw off refl
  ]

  deliver-start :
      (n : ℕ) (p : P) (c : SspClientIso P)
      → c.queued ≡ suc n
      → deliver (some p) c ≡ do_start (some p) (record c { queued = n })
  unfolding deliver
  deliver-start n p c e = rw e refl

  do_start-joinable :
      (p : P) (c : SspClientIso P)
      → ((do_start (some p) c).joinable ≡ true) × ((do_start (some p) c).queued ≡ c.queued)
  unfolding do_start
  do_start-joinable p c = elim (Bool-cases c.joinable) [
    | inl on ↦ rw on (refl, refl)
    | inr off ↦ rw off (refl, refl)
  ]

  do_start-aborts :
      (p : P) (c : SspClientIso P) → c.joinable ≡ true → (do_start (some p) c).aborted ≡ true
  unfolding do_start
  do_start-aborts p c e = rw e refl

  -- After two restarts in another thread the event loop delivers two starts. If both connectors can be
  -- started the second start finds a thread that was not joined, and the program ends.
  deliver-aborts :
      (p q : P) (c : SspClientIso P)
      → (deliver (some q) (deliver (some p) (restart_elsewhere (restart_elsewhere c)))).aborted
        ≡ true
  unfolding restart_elsewhere
  deliver-aborts p q c =
      let c1 = restart_elsewhere c in
      let c2 = restart_elsewhere c1 in
      let twice : c2.queued ≡ suc (suc c.queued) =
        ap suc (queued-stop c1 ∙ ap suc (queued-stop c)) in
      let started = record c2 { queued = suc c.queued } in
      let first = deliver-start (suc c.queued) p c2 twice in
      let ready = do_start-joinable p started in
      let second = deliver-start c.queued q (do_start (some p) started) ready.1 in
      rw (first, second)
        (do_start-aborts q (record (do_start (some p) started) { queued = c.queued }) ready.0)
