-- ===== src/Notifier/Backoff.antt =====
-- The delays between the reconnects of zc_ws_notifier.cpp.
use obs_zcamera.Prelude.{
  ℕ, zero, suc, ◌+◌, ◌≤◌, ◌≡◌, ◌≢◌, ◌↔◌, ap, ◌∙◌, some, List, [], ◌∷◌, arith, Text, false,
}
use native.Mathlib.Nat.{add-zero}
use obs_zcamera.Prelude.Json.{Json}
use obs_zcamera.Notifier.{
  Notifier, Event, start, stop, connected, timeout, text_message, disconnected, socket_error,
  on_text_message, do_connect, is_idle, delay_ms, on_disconnected, on_socket_error,
  schedule_reconnect, handle, run,
}

-- The delay stays within the documented cap of ten seconds in every round but the fifth, which waits
-- sixteen seconds; and it is at least one second and at most sixteen.
delay_ms-le_iff :
    (r : ℕ) → ((delay_ms r ≤ 10000) ↔ (r ≢ 4)) × (1000 ≤ delay_ms r) × (delay_ms r ≤ 16000)
unfolding delay_ms
delay_ms-le_iff zero = ground arith
delay_ms-le_iff (suc zero) = ground arith
delay_ms-le_iff (suc (suc zero)) = ground arith
delay_ms-le_iff (suc (suc (suc zero))) = ground arith
delay_ms-le_iff (suc (suc (suc (suc zero)))) = ground arith
delay_ms-le_iff (suc (suc (suc (suc (suc r))))) = ground arith

-- No start, stop or successful connection.
abbrev pub NoReset : List Event → Type 0
NoReset [] = Unit
NoReset (start host https_origin headers ∷ es) = ⊥
NoReset (stop ∷ es) = ⊥
NoReset (connected ∷ es) = ⊥
NoReset (_ ∷ es) = NoReset es

-- A failed connection is reported by `disconnected` or by an error.
abbrev pub failures : List Event → ℕ
failures [] = 0
failures (disconnected ∷ es) = suc (failures es)
failures (socket_error e ∷ es) = suc (failures es)
failures (_ ∷ es) = failures es

failures-cons : (x : Event) (es : List Event) → failures (x ∷ es) ≡ failures (x ∷ []) + failures es
failures-cons (start host https_origin headers) es = omega arith
failures-cons _ es = omega arith

NoReset-cons : (x : Event) (es : List Event) → NoReset (x ∷ es) → NoReset (x ∷ []) × NoReset es
NoReset-cons (start host https_origin headers) es r = absurd r
NoReset-cons stop es r = absurd r
NoReset-cons connected es r = absurd r
NoReset-cons disconnected es r = (tt, r)
NoReset-cons timeout es r = (tt, r)
NoReset-cons (socket_error e) es r = (tt, r)
NoReset-cons (text_message msg) es r = (tt, r)

module _ {V D : Type 0} (json : Json V D) where
  on_text_message-keeps : (msg : Text) (n : Notifier) → (on_text_message json msg n).0 ≡ n
  unfolding on_text_message
  on_text_message-keeps msg n = ground arith

  handle-retry :
      (e : Event) (n : Notifier)
      → NoReset (e ∷ [])
      → is_idle n ≡ false
      → ((handle json e n).0.retry ≡ n.retry + failures (e ∷ []))
        × (is_idle (handle json e n).0 ≡ false)
  unfolding handle on_disconnected on_socket_error schedule_reconnect do_connect
  handle-retry (start host https_origin headers) n r busy = absurd r
  handle-retry stop n r busy = absurd r
  handle-retry connected n r busy = absurd r
  handle-retry disconnected n r busy = ground arith
  handle-retry timeout n r busy = ground arith
  handle-retry (socket_error e) n r busy = ground arith
  handle-retry (text_message msg) n r busy = ground (arith, on_text_message-keeps msg n)

  failure-timer :
      (e : Event) (n : Notifier)
      → failures (e ∷ []) ≡ 1
      → is_idle n ≡ false
      → (handle json e n).0.timer ≡ some (delay_ms n.retry)
  unfolding handle on_disconnected on_socket_error schedule_reconnect
  failure-timer disconnected n one busy = ground arith
  failure-timer (socket_error e) n one busy = ground arith
  failure-timer e n one busy = absurd (omega arith)

  -- While the notifier runs and no connection succeeds, the delay follows the schedule: after any
  -- history with k failures, the next failure arms the timer with the delay of the count before the
  -- history plus k, however the failures are reported and whatever else happens between them.
  run-failures :
      (es : List Event) (e : Event) (n : Notifier)
      → NoReset es
      → failures (e ∷ []) ≡ 1
      → is_idle n ≡ false
      → (handle json e (run json es n).0).0.timer ≡ some (delay_ms (n.retry + failures es))
  unfolding run
  run-failures [] e n r one busy = rw (add-zero n.retry) (failure-timer e n one busy)
  run-failures (x ∷ es) e n r one busy =
      let kept = handle-retry x n (NoReset-cons x es r).0 busy in
      run-failures es e (handle json x n).0 (NoReset-cons x es r).1 one kept.1
      ∙ ap (λ k. some (delay_ms k)) (omega (arith, kept.0, failures-cons x es))
