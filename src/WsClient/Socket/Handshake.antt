-- ===== src/WsClient/Socket/Handshake.antt =====
-- The opening handshake of zc_ws_client.cpp: `sendHandshake` and `onSocketReadyRead` before the upgrade.
use obs_zcamera.Prelude.{
  any, ℕ, ◌≡◌, refl, ap, sym, ◌∙◌, true, false, ◌||◌, none, some, List, [], ◌∷◌, ◌++◌, append_assoc,
  Text, codes, length, take, ltb, if◌then◌else◌, text_eq→eq, index_of_text, arith, Option-cases,
  inl, inr, ◌==◌,
}
use obs_zcamera.WsClient.Socket.{
  is_sent, WsClient, Signal, blank_line, crlf, header_value, is_switching, expected_accept,
  is_accepted, on_header, on_reply, emit_error, on_ready_read, handle_incoming, chop_line_ends,
  upgrade_request,
}

pub waiting_signals : Text → List Signal
waiting_signals received =
    if ltb 16384 (length received)
    then emit_error (codes "WebSocket handshake too large") ∷ []
    else []

pub waiting_signals-quiet : (received : Text) → any is_sent (waiting_signals received) ≡ false
unfolding waiting_signals
waiting_signals-quiet received = ground arith

pub on_reply-waits :
    (sha1_base64 : Text → Text) (received : Text) (c : WsClient)
    → index_of_text blank_line received ≡ none
    → on_reply sha1_base64 received c
      ≡ some (record c { handshake = received }, waiting_signals received)
unfolding on_reply waiting_signals
on_reply-waits sha1_base64 received c e = rw (e, on_reply)

pub on_reply-found :
    (sha1_base64 : Text → Text) (received : Text) (at : ℕ) (c : WsClient)
    → index_of_text blank_line received ≡ some at
    → on_reply sha1_base64 received c ≡ on_header sha1_base64 received at c
unfolding on_reply
on_reply-found sha1_base64 received at c e = rw (e, on_reply)

on_reply-handshake :
    (sha1_base64 : Text → Text) (received kept : Text) (c : WsClient)
    → on_reply sha1_base64 received (record c { handshake = kept })
      ≡ on_reply sha1_base64 received c
unfolding on_reply
on_reply-handshake sha1_base64 received kept c = refl

pub on_ready_read-pending :
    (sha1_base64 : Text → Text) (chunk : Text) (c : WsClient)
    → c.handshake_done ≡ false
    → on_ready_read sha1_base64 chunk c ≡ on_reply sha1_base64 (c.handshake ++ chunk) c
unfolding on_ready_read
on_ready_read-pending sha1_base64 chunk c pending =
    ap (λ b. if b then handle_incoming chunk c else on_reply sha1_base64 (c.handshake ++ chunk) c)
      pending

pub on_ready_read-done :
    (sha1_base64 : Text → Text) (chunk : Text) (c : WsClient)
    → c.handshake_done ≡ true
    → on_ready_read sha1_base64 chunk c ≡ handle_incoming chunk c
unfolding on_ready_read
on_ready_read-done sha1_base64 chunk c done =
    ap (λ b. if b then handle_incoming chunk c else on_reply sha1_base64 (c.handshake ++ chunk) c)
      done

-- While the blank line has not arrived, a chunk is only kept, and what the next chunk does is what
-- both do at once.
on_ready_read-append :
    (sha1_base64 : Text → Text) (c : WsClient) (first second : Text)
    → c.handshake_done ≡ false
    → index_of_text blank_line (c.handshake ++ first) ≡ none
    → (signals : List Signal) × (on_ready_read sha1_base64 first c
        ≡ some (record c { handshake = c.handshake ++ first }, signals))
      × (on_ready_read sha1_base64 second (record c { handshake = c.handshake ++ first })
          ≡ on_ready_read sha1_base64 (first ++ second) c)
on_ready_read-append sha1_base64 c first second pending missing = (
  waiting_signals (c.handshake ++ first),
  on_ready_read-pending sha1_base64 first c pending ∙ on_reply-waits sha1_base64 _ c missing,
  on_ready_read-pending sha1_base64 second (record c { handshake = c.handshake ++ first }) pending
      ∙ on_reply-handshake sha1_base64 _ _ c
      ∙ ap (λ r. on_reply sha1_base64 r c) (append_assoc c.handshake first second)
      ∙ sym (on_ready_read-pending sha1_base64 (first ++ second) c pending),
)

-- What a header block shows that makes the client connected.
pub record Upgraded (sha1_base64 : Text → Text) (c : WsClient) (received : Text) : Type 0 where
  pub header_length : ℕ
  pub complete : index_of_text blank_line received ≡ some header_length
  pub switching : is_switching (take header_length received) ≡ true
  pub accepted :
      header_value (take header_length received) (codes "Sec-WebSocket-Accept")
      ≡ expected_accept sha1_base64 c.handshake_key

pub handle_incoming-handshake_done :
    (bytes : Text) (c c' : WsClient) (signals : List Signal)
    → handle_incoming bytes c ≡ some (c', signals)
    → c'.handshake_done ≡ c.handshake_done
unfolding handle_incoming
handle_incoming-handshake_done bytes c c' signals e = ground arith

is_accepted-eq :
    (sha1_base64 : Text → Text) (key header : Text)
    → is_accepted sha1_base64 key header ≡ true
    → header_value header (codes "Sec-WebSocket-Accept") ≡ expected_accept sha1_base64 key
unfolding is_accepted
is_accepted-eq sha1_base64 key header e = text_eq→eq _ _ (ground arith)

on_header-Upgraded :
    (sha1_base64 : Text → Text) (received : Text) (at : ℕ) (c c' : WsClient) (signals : List Signal)
    → on_header sha1_base64 received at c ≡ some (c', signals)
    → c.handshake_done ≡ false
    → c'.handshake_done ≡ true
    → (is_switching (take at received) ≡ true)
      × (is_accepted sha1_base64 c.handshake_key (take at received) ≡ true)
unfolding on_header
on_header-Upgraded sha1_base64 received at c c' signals e pending done = ground arith

-- A client that was not connected counts as connected after a chunk only if the reply's header
-- block is complete, is a 101 reply, and carries the accept value of the key that the client holds.
pub on_ready_read-Upgraded :
    (sha1_base64 : Text → Text) (chunk : Text) (c c' : WsClient) (signals : List Signal)
    → c.handshake_done ≡ false
    → on_ready_read sha1_base64 chunk c ≡ some (c', signals)
    → c'.handshake_done ≡ true
    → Upgraded sha1_base64 c (c.handshake ++ chunk)
on_ready_read-Upgraded sha1_base64 chunk c c' signals pending e done =
    let replied = sym (on_ready_read-pending sha1_base64 chunk c pending) ∙ e in
    elim (Option-cases (index_of_text blank_line (c.handshake ++ chunk))) [
      | inl missing ↦
          absurd (ground (arith, on_reply-waits sha1_base64 (c.handshake ++ chunk) c missing))
      | inr (at, found) ↦
          let shown =
            on_header-Upgraded sha1_base64 (c.handshake ++ chunk) at c c' signals
              (sym (on_reply-found sha1_base64 (c.handshake ++ chunk) at c found) ∙ replied) pending
              done in
          record {
            header_length = at;
            complete = found;
            switching = shown.0;
            accepted = is_accepted-eq sha1_base64 c.handshake_key _ shown.1;
          }
    ]

chop_line_ends-append :
    (s : Text) (c : ℕ)
    → (c == 10 || c == 13) ≡ true
    → chop_line_ends (s ++ c ∷ []) ≡ chop_line_ends s
unfolding chop_line_ends
chop_line_ends-append [] c h = rw h
chop_line_ends-append (d ∷ s) c h = rw (chop_line_ends-append s c h)

chop_line_ends-crlf : (s : Text) → chop_line_ends (s ++ crlf) ≡ chop_line_ends s
chop_line_ends-crlf s =
    ap chop_line_ends (sym (append_assoc s (13 ∷ []) (10 ∷ [])))
    ∙ chop_line_ends-append (s ++ 13 ∷ []) 10 refl
    ∙ chop_line_ends-append s 13 refl

-- The upgrade request is the same for header lines with and without a line end behind them, so that
-- no second blank line is sent.
upgrade_request-crlf :
    (peer key headers : Text)
    → upgrade_request peer key (headers ++ crlf) ≡ upgrade_request peer key headers
unfolding upgrade_request
upgrade_request-crlf peer key headers = rw (chop_line_ends-crlf headers)
