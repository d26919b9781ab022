-- ===== src/Tests/Sockets.antt =====
-- The frames and the opening handshake at concrete inputs.
use obs_zcamera.Prelude.{
  take, drop, map, ◌≡◌, ◌≢◌, refl, true, false, none, some, List, [], ◌∷◌, ◌++◌, Text, codes, arith,
  any, text_eq, index_of, index_of_text, starts_with, trimmed, split, lower, same_ignoring_case,
}
use obs_zcamera.Prelude.Int.{to_int32, add_int}
use obs_zcamera.WsClient.Frame.{
  text_received, send, drained, out_of_fuel, take_frame, next_frame, write_frame, incoming, receive,
  after, on_frame, length_field, with_length, cut_frame, size_lt, mid, remove_front,
}
use obs_zcamera.WsClient.Frame.Xor.{AllBytes}
use obs_zcamera.WsClient.Frame.Rfc.{rfc_frame, next_frame-rfc_frame, write_frame-rfc_frame}
use obs_zcamera.WsClient.Frame.Loop.{
  Message, stream, receive-stream, receive-append, receive-ne-out_of_fuel, incoming-endless,
  endless,
}
use obs_zcamera.WsClient.Socket.{
  connecting, sent, send_handshake, upgrade_request, WsClient, Signal, connected, unconnected,
  is_sent, crlf, blank_line, start_encryption, emit_disconnected, emit_connected, open_socket,
  on_ready_read, on_reply, on_header, is_accepted, expected_accept, header_value, header_in,
  header_line, on_socket_connected, on_socket_disconnected,
}
use obs_zcamera.WsClient.Socket.Accepted.{Accepts, handle_all-Accepts}
use obs_zcamera.WsClient.Socket.Tls.{
  ready_read, handle, handle_all, handle_all-tls, socket_connected, socket_disconnected,
}

abbrev key : Text
key = 1 ∷ 2 ∷ 3 ∷ 250 ∷ []

abbrev hi : Text
hi = codes "hi"

key_bytes_below : AllBytes key
key_bytes_below = ground arith

hi_bytes : AllBytes hi
hi_bytes = ground arith

zcam_bytes : AllBytes (codes "zcam!")
zcam_bytes = ground arith

-- A plain message and a masked one.
abbrev messages : List Message
messages = (none, hi) ∷ (some key, codes "zcam!") ∷ []

receive-stream_example :
    receive [] (stream messages)
    ≡ drained [] (text_received hi ∷ text_received (codes "zcam!") ∷ [])
receive-stream_example =
    receive-stream messages
      ((tt, omega arith, hi_bytes), (((refl, key_bytes_below), omega arith, zcam_bytes), tt))

next_frame-rfc_frame_example :
    next_frame (rfc_frame true 9 (some key) hi ++ 137 ∷ [])
    ≡ take_frame (record { opcode = 9; fin = true; declared = 2; payload = hi }) (137 ∷ [])
next_frame-rfc_frame_example =
    next_frame-rfc_frame true 9 (some key) hi (137 ∷ []) (omega arith) (omega arith)
      (refl, key_bytes_below) hi_bytes

write_frame-rfc_frame_example : write_frame key 10 hi ≡ rfc_frame true 10 (some key) hi
write_frame-rfc_frame_example = write_frame-rfc_frame key 10 hi (omega arith) (omega arith)

-- A ping, and a message that is cut in two.
abbrev first_chunk : Text
first_chunk = 137 ∷ 1 ∷ 55 ∷ 129 ∷ 2 ∷ b'h' ∷ []

first_received : receive [] first_chunk ≡ drained (129 ∷ 2 ∷ b'h' ∷ []) (send 10 (55 ∷ []) ∷ [])
unfolding receive incoming next_frame with_length length_field cut_frame to_int32 add_int size_lt
    mid remove_front on_frame after
first_received = refl

receive-append_example :
    receive [] (first_chunk ++ b'i' ∷ [])
    ≡ after (send 10 (55 ∷ []) ∷ []) (receive (129 ∷ 2 ∷ b'h' ∷ []) (b'i' ∷ []))
unfolding receive incoming next_frame with_length length_field cut_frame to_int32 add_int size_lt
    mid remove_front on_frame after
receive-append_example =
    receive-append [] first_chunk (b'i' ∷ []) (129 ∷ 2 ∷ b'h' ∷ []) (send 10 (55 ∷ []) ∷ [])
      (omega arith, tt) (omega arith, tt) first_received

receive-ne-out_of_fuel_example : receive [] first_chunk ≢ out_of_fuel
unfolding next_frame with_length length_field cut_frame to_int32 add_int size_lt mid remove_front
receive-ne-out_of_fuel_example = receive-ne-out_of_fuel [] first_chunk (omega arith, tt)

incoming-endless_example : incoming 100 (endless 129 hi) ≡ out_of_fuel
incoming-endless_example = incoming-endless 100 129 hi (omega arith)

-- A client whose upgrade request has been sent, and the accepting reply; the hash is the identity.
abbrev waiting : WsClient
waiting = record {
  socket = some connected;
  is_tls = false;
  extra_headers = [];
  handshake_done = false;
  handshake_key = codes "k";
  handshake = [];
  recv_buffer = [];
}

abbrev hash : Text → Text
hash s = s

abbrev reply : Text
reply =
    codes "HTTP/1.1 101 Switching Protocols"
    ++ crlf
    ++ (codes "sec-websocket-accept: k258EAFA5-E914-47DA-95CA-C5AB0DC85B11" ++ blank_line)

abbrev upgraded : WsClient
upgraded = record waiting { handshake_done = true }

reply_accepted : on_ready_read hash reply waiting ≡ some (upgraded, emit_connected ∷ [])
unfolding on_ready_read on_reply on_header is_accepted expected_accept header_value header_in
    header_line index_of_text index_of starts_with split trimmed lower same_ignoring_case text_eq
reply_accepted = refl

-- A client that is opened for ws gets that reply in two chunks.
abbrev opened : WsClient
opened = record upgraded { socket = some connecting }

abbrev signals_plain : List Signal
signals_plain = sent (upgrade_request hi (codes "k") []) ∷ emit_connected ∷ []

abbrev in_two : List Text
in_two = take 20 reply ∷ drop 20 reply ∷ []

plain_handled :
    handle_all hash
      (socket_connected hi (codes "k") ∷ map ready_read in_two)
      (open_socket (codes "ws") hi 81 [] waiting).0
    ≡ some (opened, signals_plain)
unfolding handle_all handle open_socket on_socket_connected send_handshake on_ready_read on_reply
    on_header is_accepted expected_accept header_value header_in header_line index_of_text index_of
    starts_with split trimmed lower same_ignoring_case text_eq
plain_handled = refl

ws_plain : text_eq (codes "ws") (codes "wss") ≡ false
unfolding text_eq
ws_plain = refl

handle_all-Accepts_example :
    ((more : List Signal) × (signals_plain ≡ sent (upgrade_request hi (codes "k") []) ∷ more))
    × Accepts hash (codes "k") [] in_two
handle_all-Accepts_example =
    handle_all-Accepts hash (codes "ws") hi [] hi (codes "k") 81 in_two waiting opened signals_plain
      ws_plain plain_handled refl

-- A TLS connection that comes up and is lost.
abbrev signals_tls : List Signal
signals_tls = start_encryption ∷ emit_disconnected ∷ []

abbrev closed_tls : WsClient
closed_tls = record waiting { socket = some unconnected; is_tls = true }

tls_handled :
    handle_all hash
      (socket_connected hi (codes "k") ∷ socket_disconnected ∷ [])
      (open_socket (codes "wss") hi 81 [] waiting).0
    ≡ some (closed_tls, signals_tls)
unfolding handle_all handle open_socket on_socket_connected on_socket_disconnected text_eq
tls_handled = refl

handle_all-tls_example : any is_sent signals_tls ≡ false
handle_all-tls_example =
    handle_all-tls hash hi [] 81 waiting
      (socket_connected hi (codes "k") ∷ socket_disconnected ∷ []) closed_tls signals_tls
      tls_handled
