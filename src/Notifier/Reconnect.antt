-- ===== src/Notifier/Reconnect.antt =====
-- `doConnect` and the reconnect timer of zc_ws_notifier.cpp.
use obs_zcamera.Prelude.{
  ℕ, ◌≡◌, refl, Bool, true, false, none, some, List, [], ◌∷◌, Text, codes, arith, any, any-append,
  is_empty, ◌⊎◌, inl, inr, if◌then◌else◌,
}
use obs_zcamera.Prelude.Json.{Json}
use obs_zcamera.Notifier.{
  Notifier, Action, open_socket, start_timer, Event, start, stop, connected, disconnected, timeout,
  socket_error, text_message, is_idle, do_connect, start_notifier, stop_notifier, on_connected,
  on_disconnected, on_socket_error, schedule_reconnect, on_text_message, handle, run,
}

-- An action that opens the socket or will open it later.
abbrev pub is_reopening : {V : Type 0} → Action V → Bool
is_reopening (open_socket scheme host port path headers) = true
is_reopening (start_timer ms) = true
is_reopening _ = false

abbrev pub NoStart : List Event → Type 0
NoStart [] = Unit
NoStart (start host https_origin headers ∷ es) = ⊥
NoStart (_ ∷ es) = NoStart es

-- A stopped notifier has no timer armed.
pub record IsStopped (n : Notifier) : Type 0 where
  pub is_stopped : n.stopped ≡ true
  pub no_timer : n.timer ≡ none

NoStart-cons : (e : Event) (es : List Event) → NoStart (e ∷ es) → NoStart (e ∷ []) × NoStart es
NoStart-cons (start host https_origin headers) es s = absurd s
NoStart-cons stop es s = (tt, s)
NoStart-cons connected es s = (tt, s)
NoStart-cons disconnected es s = (tt, s)
NoStart-cons timeout es s = (tt, s)
NoStart-cons (socket_error e) es s = (tt, s)
NoStart-cons (text_message msg) es s = (tt, s)

module _ {V D : Type 0} (json : Json V D) where
  handle-IsStopped :
      (e : Event) (n : Notifier)
      → NoStart (e ∷ [])
      → IsStopped n
      → IsStopped (handle json e n).0 × (any is_reopening (handle json e n).1 ≡ false)
  unfolding handle stop_notifier on_connected on_disconnected on_socket_error schedule_reconnect
      do_connect on_text_message
  handle-IsStopped (start host https_origin headers) n s h = absurd s
  handle-IsStopped stop n s h = ground arith
  handle-IsStopped connected n s h = ground arith
  handle-IsStopped disconnected n s h = ground arith
  handle-IsStopped timeout n s h = ground arith
  handle-IsStopped (socket_error e) n s h = ground arith
  handle-IsStopped (text_message msg) n s h = ground arith

  run-IsStopped :
      (es : List Event) (n : Notifier)
      → NoStart es
      → IsStopped n
      → IsStopped (run json es n).0 × (any is_reopening (run json es n).1 ≡ false)
  unfolding run
  run-IsStopped [] n s h = (h, refl)
  run-IsStopped (e ∷ es) n s h =
      let one = handle-IsStopped e n (NoStart-cons e es s).0 h in
      let rest = run-IsStopped es (handle json e n).0 (NoStart-cons e es s).1 one.0 in
      (
        rest.0,
        any-append is_reopening (handle json e n).1 (run json es (handle json e n).0).1 one.1
            rest.1,
      )

  handle-stop : (n : Notifier) → IsStopped (handle json stop n).0
  unfolding handle stop_notifier
  handle-stop n = record { is_stopped = refl; no_timer = refl }

  handle-stop_quiet : (n : Notifier) → any is_reopening (handle json stop n).1 ≡ false
  unfolding handle stop_notifier
  handle-stop_quiet n = refl

  -- After `stop`, whatever events come late, in whatever order, and until the next `start`: the
  -- socket is not opened, the timer is not armed, and the notifier stays stopped.
  pub run-stop :
      (es : List Event) (n : Notifier)
      → NoStart es
      → IsStopped (run json (stop ∷ es) n).0 × (any is_reopening (run json (stop ∷ es) n).1 ≡ false)
  unfolding run
  run-stop es n s =
      let stopped = run-IsStopped es (handle json stop n).0 s (handle-stop n) in
      (
        stopped.0,
        any-append is_reopening (handle json stop n).1 (run json es (handle json stop n).0).1
            (handle-stop_quiet n) stopped.1,
      )

  -- A lost connection is opened again: while the notifier runs, a disconnect or an error followed by
  -- the timer opens the socket once more, at the same host, with the same headers, over TLS exactly
  -- if the origin was https.
  run-reconnects :
      (e : Event) (n : Notifier)
      → (e ≡ disconnected) ⊎ ((text : Text) × (e ≡ socket_error text))
      → is_idle n ≡ false
      → (handle json timeout (handle json e n).0).1
        ≡ open_socket
            (if n.https_origin then codes "wss" else codes "ws")
            n.host
            81
            (codes "/")
            n.extra_headers
          ∷ []
  unfolding handle on_disconnected on_socket_error schedule_reconnect do_connect
  run-reconnects e n (inl d) busy = rw d (ground arith)
  run-reconnects e n (inr (text, d)) busy = rw d (ground arith)

  -- `start` leaves a timer armed that an earlier failure started: when the new connection is already
  -- up, that timer still opens the socket again, which drops the connection.
  run-start_armed :
      (host headers : Text) (https_origin : Bool) (n : Notifier) (ms : ℕ)
      → is_empty host ≡ false
      → n.timer ≡ some ms
      → let up = (run json (start host https_origin headers ∷ connected ∷ []) n).0 in
        (up.live ≡ true)
        × (up.timer ≡ some ms)
        × (any is_reopening (handle json timeout up).1 ≡ true)
  unfolding run handle start_notifier on_connected do_connect
  run-start_armed host headers https_origin n ms named armed = ground arith
