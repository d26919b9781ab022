-- ===== src/WsClient/Socket.antt =====
-- The connection code of zc_ws_client.cpp: open, close, the upgrade request and its reply.
-- The hash and the random numbers are Qt's: they are arguments here.
pub mod Handshake
pub mod Tls
pub mod Accepted
use obs_zcamera.Prelude.{
  ℕ, zero, suc, ◌+◌, Bool, true, false, not, ◌&&◌, ◌||◌, Option, none, some, List, [], ◌∷◌, ◌++◌,
  map, Text, codes, length, take, drop, is_empty, ltb, ◌==◌, if◌then◌else◌, text_eq, starts_with,
  index_of, index_of_text, split, trimmed, same_ignoring_case,
}
use obs_zcamera.WsClient.Frame.{Effect, Outcome, drained, closed, out_of_fuel, receive, write_frame}

-- QAbstractSocket::SocketState, as far as the client looks at it.
pub data SocketState : Type 0 where
  unconnected connecting connected closing : SocketState

abbrev pub is_connected : SocketState → Bool
is_connected connected = true
is_connected _ = false

abbrev pub is_unconnected : SocketState → Bool
is_unconnected unconnected = true
is_unconnected _ = false

pub record WsClient : Type 0 where
  pub socket : Option SocketState
  pub is_tls : Bool
  pub extra_headers : Text
  pub handshake_done : Bool
  pub handshake_key : Text
  pub handshake : Text
  pub recv_buffer : Text

-- The calls on the socket and the signals, in order. `frame` is an effect of `handleIncoming`.
pub data Signal : Type 0 where
  frame : Effect → Signal
  sent : Text → Signal
  abort_socket disconnect_from_host close_socket start_encryption : Signal
  connect_to : Text → ℕ → Signal
  emit_connected emit_disconnected : Signal
  emit_error : Text → Signal

-- A write of the client itself, as opposed to a frame that `handleIncoming` answers with.
abbrev pub is_sent : Signal → Bool
is_sent (sent bytes) = true
is_sent _ = false

abbrev pub crlf : Text
crlf = 13 ∷ 10 ∷ []

abbrev pub blank_line : Text
blank_line = 13 ∷ 10 ∷ 13 ∷ 10 ∷ []

-- A line of a header block that is not the header, or its value.
unfoldable pub header_line : Text → Text → Option Text
header_line name line = elim (index_of b':' line) [
  | none ↦ none
  | some zero ↦ none
  | some (suc at) ↦
      if same_ignoring_case (trimmed (take (suc at) line)) name
      then some (trimmed (drop (suc (suc at)) line))
      else none
]

abbrev pub or_else : Option Text → Text → Text
or_else none rest = rest
or_else (some value) rest = value

unfoldable pub header_in : Text → List Text → Text
unfolding header_line
header_in name [] = []
header_in name (line ∷ lines) = or_else (header_line name line) (header_in name lines)

-- `headerValue`.
unfoldable pub header_value : Text → Text → Text
unfolding header_in
header_value header name = header_in name (split 10 header)

-- `open`: an old socket is detached and aborted first.
unfoldable pub open_socket : Text → Text → ℕ → Text → WsClient → WsClient × List Signal
open_socket scheme host port headers c = (
  record c {
    socket = some connecting;
    is_tls = text_eq scheme (codes "wss");
    extra_headers = headers;
    handshake_done = false;
    handshake = [];
    recv_buffer = [];
  },
  (elim c.socket [ none ↦ [] | some s ↦ abort_socket ∷ [] ]) ++ connect_to host port ∷ [],
)

-- `writeFrame`, with the masking key that it draws.
unfoldable pub send_frame : Text → ℕ → Text → WsClient → List Signal
send_frame key opcode payload c = elim c.socket [
  | none ↦ []
  | some s ↦ if is_connected s then sent (write_frame key opcode payload) ∷ [] else []
]

-- `close`.
unfoldable pub close : Text → WsClient → List Signal
unfolding send_frame
close key c = elim c.socket [
  | none ↦ []
  | some s ↦ if is_unconnected s then [] else send_frame key 8 [] c ++ disconnect_from_host ∷ []
]

-- `isOpen`.
unfoldable pub is_open : WsClient → Bool
is_open c = elim c.socket [ none ↦ false | some s ↦ c.handshake_done && is_connected s ]

-- Drops the line ends at the end: `while (extra.endsWith('\n') || extra.endsWith('\r')) chop(1)`.
unfoldable pub chop_line_ends : Text → Text
chop_line_ends [] = []
chop_line_ends (c ∷ s) = elim (chop_line_ends s) [
  | [] ↦ if c == 10 || c == 13 then [] else c ∷ []
  | d ∷ rest ↦ c ∷ d ∷ rest
]

abbrev pub header_block : Text → Text
header_block extra = if is_empty extra then [] else extra ++ crlf

-- The request of `sendHandshake`; the key and the peer's address are Qt's.
unfoldable pub upgrade_request : Text → Text → Text → Text
unfolding chop_line_ends
upgrade_request peer key headers =
    codes "GET / HTTP/1.1"
    ++ (crlf
        ++ (codes "Host: "
            ++ (peer
                ++ (crlf
                    ++ (codes "Upgrade: websocket"
                        ++ (crlf
                            ++ (codes "Connection: Upgrade"
                                ++ (crlf
                                    ++ (codes "Sec-WebSocket-Key: "
                                        ++ (key
                                            ++ (crlf
                                                ++ (codes "Sec-WebSocket-Version: 13"
                                                    ++ (crlf
                                                        ++ (header_block (chop_line_ends headers)
                                                            ++ crlf))))))))))))))

unfoldable pub send_handshake : Text → Text → WsClient → WsClient × List Signal
unfolding upgrade_request
send_handshake peer key c =
    (record c { handshake_key = key }, sent (upgrade_request peer key c.extra_headers) ∷ [])

-- `onSocketConnected`: over TLS the encryption is started, and that is all.
unfoldable pub on_socket_connected : Text → Text → WsClient → WsClient × List Signal
unfolding send_handshake
on_socket_connected peer key c =
    if c.is_tls then (c, start_encryption ∷ []) else send_handshake peer key c

-- `handleIncoming` on the client; `none` where its loop does not end.
unfoldable pub handle_incoming : Text → WsClient → Option (WsClient × List Signal)
unfolding receive
handle_incoming bytes c = elim (receive c.recv_buffer bytes) [
  | drained rest es ↦ some (record c { recv_buffer = rest }, map frame es)
  | closed rest es ↦ some (record c { recv_buffer = rest }, map frame es)
  | out_of_fuel ↦ none
]

abbrev pub is_switching : Text → Bool
is_switching header =
    starts_with header (codes "HTTP/1.1 101") || starts_with header (codes "HTTP/1.0 101")

abbrev pub then_connected : Option (WsClient × List Signal) → Option (WsClient × List Signal)
then_connected none = none
then_connected (some (c, signals)) = some (c, signals ++ emit_connected ∷ [])

-- `sha1_base64` is the hash in base 64; the text is the one of RFC 6455.
module _ (sha1_base64 : Text → Text) where
  unfoldable pub expected_accept : Text → Text
  expected_accept key = sha1_base64 (key ++ codes "258EAFA5-E914-47DA-95CA-C5AB0DC85B11")

  unfoldable pub is_accepted : Text → Text → Bool
  unfolding expected_accept
  is_accepted key header =
      let value = header_value header (codes "Sec-WebSocket-Accept") in
      not (is_empty value) && text_eq value (expected_accept key)

  -- The reply's header block is complete, and `at` bytes long.
  unfoldable pub on_header : Text → ℕ → WsClient → Option (WsClient × List Signal)
  unfolding handle_incoming is_accepted
  on_header received at c =
      let header = take at received in
      let leftover = drop (at + 4) received in
      let ready = record c { handshake_done = true; handshake = [] } in
      if is_switching header
      then (if is_accepted c.handshake_key header
          then then_connected
              (if is_empty leftover then some (ready, []) else handle_incoming leftover ready)
          else some (
            record c { handshake = received },
            emit_error (codes "WebSocket handshake failed: bad Sec-WebSocket-Accept")
                ∷ close_socket
                ∷ [],
          ))
      else some (
        record c { handshake = received },
        emit_error (codes "WebSocket handshake failed: " ++ take 120 header) ∷ close_socket ∷ [],
      )

  -- Before the upgrade is done: the reply as far as it has arrived.
  unfoldable pub on_reply : Text → WsClient → Option (WsClient × List Signal)
  unfolding on_header
  on_reply received c = elim (index_of_text blank_line received) [
    | none ↦ some (
      record c { handshake = received },
      if ltb 16384 (length received)
          then emit_error (codes "WebSocket handshake too large") ∷ []
          else [],
    )
    | some at ↦ on_header received at c
  ]

  -- `onSocketReadyRead`.
  unfoldable pub on_ready_read : Text → WsClient → Option (WsClient × List Signal)
  unfolding on_reply handle_incoming
  on_ready_read chunk c =
      if c.handshake_done then handle_incoming chunk c else on_reply (c.handshake ++ chunk) c

-- `onSocketDisconnected`.
unfoldable pub on_socket_disconnected : WsClient → WsClient × List Signal
on_socket_disconnected c =
    (record c { handshake_done = false; socket = some unconnected }, emit_disconnected ∷ [])
