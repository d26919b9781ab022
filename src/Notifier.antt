-- ===== src/Notifier.antt =====
-- src/cameractrl/zc_ws_notifier.cpp: the notification socket with its reconnects.
-- A method returns the new state and the calls and signals that it makes, in order. The single-shot
-- timer is the delay that it was started with, while it is armed.
pub mod Backoff
pub mod Reconnect
pub mod Observer
use obs_zcamera.Prelude.{
  ℕ, suc, ◌*◌, ◌^◌, Bool, true, false, ◌||◌, Option, none, some, List, [], ◌∷◌, ◌++◌, Text, codes,
  is_empty, ltb, if◌then◌else◌,
}
use obs_zcamera.Prelude.Json.{Json}

pub record Notifier : Type 0 where
  pub host : Text
  pub extra_headers : Text
  pub https_origin : Bool
  pub live : Bool
  pub stopped : Bool
  pub retry : ℕ
  pub timer : Option ℕ

pub data Action (V : Type 0) : Type 0 where
  -- `socket_.open`: the scheme, host, port and path of the URL, and the headers.
  open_socket : Text → Text → ℕ → Text → Text → Action V
  close_socket : Action V
  start_timer : ℕ → Action V
  stop_timer : Action V
  state_changed : Bool → Action V
  event_received : Text → V → Action V

-- A new notifier.
abbrev pub new : Notifier
new = record {
  host = [];
  extra_headers = [];
  https_origin = false;
  live = false;
  stopped = true;
  retry = 0;
  timer = none;
}

-- `(retry_ < 5) ? (1000 << retry_) : 10000`.
unfoldable pub delay_ms : ℕ → ℕ
delay_ms retry = if ltb retry 5 then 1000 * 2 ^ retry else 10000

-- The test of `doConnect` and of `scheduleReconnect`.
abbrev pub is_idle : Notifier → Bool
is_idle n = is_empty n.host || n.stopped

-- What Qt and the camera client call the notifier with.
pub data Event : Type 0 where
  start : Text → Bool → Text → Event
  stop connected disconnected timeout : Event
  socket_error text_message : Text → Event

module _ {V : Type 0} where
  unfoldable pub do_connect : Notifier → Notifier × List (Action V)
  do_connect n = if is_idle n then (n, []) else (
    n,
    open_socket (if n.https_origin then codes "wss" else codes "ws") n.host 81 (codes "/")
          n.extra_headers
        ∷ [],
  )

  unfoldable pub start_notifier : Text → Bool → Text → Notifier → Notifier × List (Action V)
  unfolding do_connect
  start_notifier host https_origin headers n = do_connect (record n {
    host = host;
    https_origin = https_origin;
    extra_headers = headers;
    retry = 0;
    stopped = false;
  })

  unfoldable pub stop_notifier : Notifier → Notifier × List (Action V)
  stop_notifier n = (
    record n { stopped = true; timer = none; live = false },
    stop_timer ∷ close_socket ∷ state_changed false ∷ [],
  )

  unfoldable pub on_connected : Notifier → Notifier × List (Action V)
  on_connected n = (record n { live = true; retry = 0 }, state_changed true ∷ [])

  unfoldable pub schedule_reconnect : Notifier → Notifier × List (Action V)
  unfolding delay_ms
  schedule_reconnect n = if is_idle n then (n, []) else (
    record n { retry = suc n.retry; timer = some (delay_ms n.retry) },
    start_timer (delay_ms n.retry) ∷ [],
  )

  -- A signal before the calls of the rest of the method.
  abbrev pub emit_first : Action V → Notifier × List (Action V) → Notifier × List (Action V)
  emit_first a (n, more) = (n, a ∷ more)

  unfoldable pub on_disconnected : Notifier → Notifier × List (Action V)
  unfolding schedule_reconnect
  on_disconnected n =
      if n.live
      then emit_first (state_changed false) (schedule_reconnect (record n { live = false }))
      else schedule_reconnect n

  unfoldable pub on_socket_error : Notifier → Notifier × List (Action V)
  unfolding schedule_reconnect
  on_socket_error n =
      emit_first (state_changed false) (schedule_reconnect (record n { live = false }))

module _ {V D : Type 0} (json : Json V D) where
  -- The name of an event: `what`, or else `type`.
  unfoldable pub event_name : V → Text
  event_name o =
      let what = json.to_text (json.field o (codes "what")) in
      if is_empty what then json.to_text (json.field o (codes "type")) else what

  unfoldable pub on_text_message : Text → Notifier → Notifier × List (Action V)
  unfolding event_name
  on_text_message msg n = elim (json.parse_object msg) [
    | none ↦ (n, [])
    | some o ↦
        if is_empty (event_name o) then (n, []) else (n, event_received (event_name o) o ∷ [])
  ]

  -- The timer is single-shot: it is no longer armed when `doConnect` runs.
  unfoldable pub handle : Event → Notifier → Notifier × List (Action V)
  unfolding start_notifier stop_notifier on_connected on_disconnected do_connect on_socket_error
      on_text_message
  handle (start host https_origin headers) n = start_notifier host https_origin headers n
  handle stop n = stop_notifier n
  handle connected n = on_connected n
  handle disconnected n = on_disconnected n
  handle timeout n = do_connect (record n { timer = none })
  handle (socket_error e) n = on_socket_error n
  handle (text_message msg) n = on_text_message msg n

  -- A history of events, with all that it does.
  unfoldable pub run : List Event → Notifier → Notifier × List (Action V)
  unfolding handle
  run [] n = (n, [])
  run (e ∷ es) n =
      let (n', actions) = handle e n in let (last, more) = run es n' in (last, actions ++ more)
