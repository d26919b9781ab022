-- ===== src/WsClient/Socket/Tls.antt =====
-- A wss connection of zc_ws_client.cpp: `onSocketConnected` and the slots after it, as events.
use obs_zcamera.Prelude.{
  ◌≡◌, refl, Bool, true, false, Option, none, some, List, [], ◌∷◌, ◌++◌, map, Text, codes, any,
  any-append, ℕ, ◌+◌, take, drop, is_empty, index_of_text, Bool-cases, Option-cases, inl, inr,
  if◌then◌else◌, subst, text_eq,
}
use obs_zcamera.WsClient.Frame.{Effect, receive, Outcome-cases}
use obs_zcamera.WsClient.Socket.Handshake.{
  waiting_signals-quiet, on_reply-waits, on_reply-found, on_ready_read-pending, on_ready_read-done,
}
use obs_zcamera.WsClient.Socket.{
  WsClient, Signal, is_sent, frame, emit_connected, open_socket, on_socket_connected, on_ready_read,
  on_socket_disconnected, handle_incoming, on_header, on_reply, then_connected, is_switching,
  is_accepted, blank_line,
}

-- What Qt calls the client with: the socket's signals, with the peer's address and the key drawn.
pub data Event : Type 0 where
  socket_connected : Text → Text → Event
  ready_read : Text → Event
  socket_disconnected : Event

unfoldable pub handle : (Text → Text) → Event → WsClient → Option (WsClient × List Signal)
unfolding on_socket_connected on_ready_read on_socket_disconnected
handle sha1_base64 (socket_connected peer key) c = some (on_socket_connected peer key c)
handle sha1_base64 (ready_read chunk) c = on_ready_read sha1_base64 chunk c
handle sha1_base64 socket_disconnected c = some (on_socket_disconnected c)

abbrev pub prepend : List Signal → Option (WsClient × List Signal) → Option (WsClient × List Signal)
prepend signals none = none
prepend signals (some (c, more)) = some (c, signals ++ more)

-- The events in order, with all signals; `none` where one of them never returns.
unfoldable pub handle_all : (Text → Text) → List Event → WsClient → Option (WsClient × List Signal)
unfolding handle
handle_all sha1_base64 [] c = some (c, [])
handle_all sha1_base64 (e ∷ es) c = elim (handle sha1_base64 e c) [
  | none ↦ none
  | some (c', signals) ↦ prepend signals (handle_all sha1_base64 es c')
]

any-map_frame : (es : List Effect) → any is_sent (map frame es) ≡ false
any-map_frame [] = refl
any-map_frame (e ∷ es) = any-map_frame es

abbrev Quiet : Bool → Option (WsClient × List Signal) → Type 0
Quiet tls none = Unit
Quiet tls (some (c, signals)) = (c.is_tls ≡ tls) × (any is_sent signals ≡ false)

handle_incoming-Quiet : (bytes : Text) (c : WsClient) → Quiet c.is_tls (handle_incoming bytes c)
unfolding handle_incoming
handle_incoming-Quiet bytes c = elim (Outcome-cases (receive c.recv_buffer bytes)) [
  | inl e ↦ rw (e, handle_incoming) tt
  | inr (rest, es, e) ↦ elim e [
    | inl d ↦ rw (d, handle_incoming) (refl, any-map_frame es)
    | inr d ↦ rw (d, handle_incoming) (refl, any-map_frame es)
  ]
]

then_connected-Quiet :
    (tls : Bool) (o : Option (WsClient × List Signal)) → Quiet tls o → Quiet tls (then_connected o)
then_connected-Quiet tls none q = tt
then_connected-Quiet tls (some (c, signals)) q =
    (q.0, any-append is_sent signals (emit_connected ∷ []) q.1 refl)

on_header-Quiet :
    (sha1_base64 : Text → Text) (received : Text) (at : ℕ) (c : WsClient)
    → Quiet c.is_tls (on_header sha1_base64 received at c)
unfolding on_header
on_header-Quiet sha1_base64 received at c =
    let header = take at received in
    let leftover = drop (at + 4) received in
    let ready = record c { handshake_done = true; handshake = [] } in
    elim (Bool-cases (is_switching header)) [
      | inr other ↦ rw other (refl, refl)
      | inl switching ↦ elim (Bool-cases (is_accepted sha1_base64 c.handshake_key header)) [
        | inr other ↦ rw (switching, other) (refl, refl)
        | inl accepted ↦
            rw (switching, accepted)
              (then_connected-Quiet c.is_tls
                (if is_empty leftover then some (ready, []) else handle_incoming leftover ready)
                (elim (Bool-cases (is_empty leftover)) [
                  | inl none_left ↦ rw none_left (refl, refl)
                  | inr left ↦ rw left (handle_incoming-Quiet leftover ready)
                ]))
      ]
    ]

on_reply-Quiet :
    (sha1_base64 : Text → Text) (received : Text) (c : WsClient)
    → Quiet c.is_tls (on_reply sha1_base64 received c)
on_reply-Quiet sha1_base64 received c = elim (Option-cases (index_of_text blank_line received)) [
  | inl missing ↦
      rw (on_reply-waits sha1_base64 received c missing) (refl, waiting_signals-quiet received)
  | inr (at, found) ↦
      rw (on_reply-found sha1_base64 received at c found)
        (on_header-Quiet sha1_base64 received at c)
]

on_ready_read-Quiet :
    (sha1_base64 : Text → Text) (chunk : Text) (c : WsClient)
    → Quiet c.is_tls (on_ready_read sha1_base64 chunk c)
on_ready_read-Quiet sha1_base64 chunk c = elim (Bool-cases c.handshake_done) [
  | inl done ↦ rw (on_ready_read-done sha1_base64 chunk c done) (handle_incoming-Quiet chunk c)
  | inr pending ↦
      rw (on_ready_read-pending sha1_base64 chunk c pending)
        (on_reply-Quiet sha1_base64 (c.handshake ++ chunk) c)
]

handle-Quiet :
    (sha1_base64 : Text → Text) (e : Event) (c : WsClient)
    → c.is_tls ≡ true
    → Quiet true (handle sha1_base64 e c)
unfolding handle
handle-Quiet sha1_base64 (socket_connected peer key) c tls = rw tls (refl, refl)
handle-Quiet sha1_base64 (ready_read chunk) c tls =
    subst (λ b. Quiet b (on_ready_read sha1_base64 chunk c)) tls
      (on_ready_read-Quiet sha1_base64 chunk c)
handle-Quiet sha1_base64 socket_disconnected c tls = (tls, refl)

prepend-Quiet :
    (signals : List Signal) (o : Option (WsClient × List Signal))
    → any is_sent signals ≡ false
    → Quiet true o
    → Quiet true (prepend signals o)
prepend-Quiet signals none h q = tt
prepend-Quiet signals (some (c, more)) h q = (q.0, any-append is_sent signals more h q.1)

handle_all-Quiet :
    (sha1_base64 : Text → Text) (es : List Event) (c : WsClient)
    → c.is_tls ≡ true
    → Quiet true (handle_all sha1_base64 es c)
unfolding handle_all
handle_all-Quiet sha1_base64 [] c tls = (tls, refl)
handle_all-Quiet sha1_base64 (e ∷ es) c tls = elim (Option-cases (handle sha1_base64 e c)) [
  | inl n ↦ rw (n, handle_all) tt
  | inr ((c', signals), n) ↦
      let q : Quiet true (some (c', signals)) = rw n at (handle-Quiet sha1_base64 e c tls) in
      rw (n, handle_all) (prepend-Quiet signals _ q.1 (handle_all-Quiet sha1_base64 es c' q.0))
]

open_socket-tls :
    (host headers : Text) (port : ℕ) (c : WsClient)
    → (open_socket (codes "wss") host port headers c).0.is_tls ≡ true
unfolding open_socket text_eq
open_socket-tls host headers port c = refl

-- A client that was opened for wss never writes the upgrade request, whatever its socket reports
-- and in whatever order: all that it may write, by itself, are the answers of `handleIncoming`.
pub handle_all-tls :
    (sha1_base64 : Text → Text) (host headers : Text) (port : ℕ) (c : WsClient) (es : List Event)
    (c' : WsClient) (signals : List Signal)
    → handle_all sha1_base64 es (open_socket (codes "wss") host port headers c).0
      ≡ some (c', signals)
    → any is_sent signals ≡ false
handle_all-tls sha1_base64 host headers port c es c' signals e =
    let q : Quiet true (some (c', signals)) = rw e at (
      handle_all-Quiet sha1_base64 es (open_socket (codes "wss") host port headers c).0
        (open_socket-tls host headers port c)) in
    q.1
