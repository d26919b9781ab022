-- ===== src/WsClient/Socket/Accepted.antt =====
-- A ws connection of zc_ws_client.cpp from `open` to its reply: the slots of the socket, as events.
use obs_zcamera.Prelude.{
  ℕ, ◌≡◌, refl, sym, ap, ◌∙◌, true, false, Option, none, some, List, [], ◌∷◌, ◌++◌, append_assoc,
  append-nil, map, Text, codes, take, drop, is_empty, ◌+◌, index_of_text, arith, Bool-cases,
  Option-cases, inl, inr, text_eq, true≢false, if◌then◌else◌,
}
use obs_zcamera.WsClient.Socket.Handshake.{
  Upgraded, on_ready_read-Upgraded, on_ready_read-pending, on_reply-waits, on_reply-found,
  handle_incoming-handshake_done,
}
use obs_zcamera.WsClient.Socket.Tls.{socket_connected, ready_read, handle, handle_all, prepend}
use obs_zcamera.WsClient.Socket.{
  connecting, WsClient, Signal, sent, blank_line, header_value, is_switching, expected_accept,
  is_accepted, on_header, on_ready_read, open_socket, on_socket_connected, send_handshake,
  upgrade_request, handle_incoming, then_connected,
}

-- The chunks of a stream, as one text.
abbrev pub joined : List Text → Text
joined [] = []
joined (s ∷ ss) = s ++ joined ss

-- The upgrade is not done; the bytes that came so far are kept, and so is the key of the request.
abbrev Waits : Text → Text → WsClient → Type 0
Waits key received c =
    (c.handshake_done ≡ false) × (c.handshake ≡ received) × (c.handshake_key ≡ key)

-- The reply to a request with this key: some of the chunks, from the first on, hold a whole header
-- block, of a 101 reply, with the accept value of the key.
pub record Accepts (sha1_base64 : Text → Text) (key received : Text) (chunks : List Text)
    : Type 0 where
  pub before : List Text
  pub after : List Text
  pub split : before ++ after ≡ chunks
  pub header_length : ℕ
  pub complete : index_of_text blank_line (received ++ joined before) ≡ some header_length
  pub switching : is_switching (take header_length (received ++ joined before)) ≡ true
  pub accepted :
      header_value (take header_length (received ++ joined before)) (codes "Sec-WebSocket-Accept")
      ≡ expected_accept sha1_base64 key

prepend-some :
    (s : List Signal) (o : Option (WsClient × List Signal)) (c' : WsClient) (signals : List Signal)
    → prepend s o ≡ some (c', signals)
    → (more : List Signal) × (o ≡ some (c', more)) × (s ++ more ≡ signals)
prepend-some s none c' signals e = cc e
prepend-some s (some (c, more)) c' signals e = (more, cc e, cc e)

module _ (sha1_base64 : Text → Text) where
  then_connected-done :
      (o : Option (WsClient × List Signal)) (c : WsClient) {signals : List Signal}
      → ((c1 : WsClient) (s1 : List Signal) → o ≡ some (c1, s1) → c1.handshake_done ≡ true)
      → then_connected o ≡ some (c, signals)
      → c.handshake_done ≡ true
  then_connected-done none c h e = cc e
  then_connected-done (some (c1, s1)) c h e = let same : c1 ≡ c = cc e in rw (← same) (h c1 s1 refl)

  on_header-accepts :
      (received : Text) (at : ℕ) (c c' : WsClient) (signals : List Signal)
      → is_switching (take at received) ≡ true
      → is_accepted sha1_base64 c.handshake_key (take at received) ≡ true
      → on_header sha1_base64 received at c ≡ some (c', signals)
      → c'.handshake_done ≡ true
  unfolding on_header
  on_header-accepts received at c c' signals s a e =
      let leftover = drop (at + 4) received in
      let ready = record c { handshake_done = true; handshake = [] } in
      then_connected-done
        (if is_empty leftover then some (ready, []) else handle_incoming leftover ready) c'
        (λ c1 s1 d. elim (Bool-cases (is_empty leftover)) [
          | inl none_left ↦
              let d' : some (ready, []) ≡ some (c1, s1) = rw none_left at d in
              let same : ready ≡ c1 = cc d' in ap (λ x. x.handshake_done) (sym same)
          | inr left ↦
              let d' : handle_incoming leftover ready ≡ some (c1, s1) = rw left at d in
              handle_incoming-handshake_done leftover ready c1 s1 d'
        ])
        (rw (s, a) at e)

  on_header-waits :
      (received : Text) (at : ℕ) (c c' : WsClient) (signals : List Signal)
      → on_header sha1_base64 received at c ≡ some (c', signals)
      → c'.handshake_done ≡ false
      → (c'.handshake ≡ received) × (c'.handshake_key ≡ c.handshake_key)
  unfolding on_header
  on_header-waits received at c c' signals e pending =
      elim (Bool-cases (is_switching (take at received))) [
        | inr other ↦ kept other
        | inl s ↦ elim (Bool-cases (is_accepted sha1_base64 c.handshake_key (take at received))) [
          | inr other ↦ refused s other
          | inl a ↦
              absurd (true≢false (sym (on_header-accepts received at c c' signals s a e) ∙ pending))
        ]
      ]
    where
      kept :
          is_switching (take at received) ≡ false
          → (c'.handshake ≡ received) × (c'.handshake_key ≡ c.handshake_key)
      kept other = ground arith

      refused :
          is_switching (take at received) ≡ true
          → is_accepted sha1_base64 c.handshake_key (take at received) ≡ false
          → (c'.handshake ≡ received) × (c'.handshake_key ≡ c.handshake_key)
      refused s other = ground arith

  -- A chunk after which the upgrade is not done is kept behind the others.
  on_ready_read-Waits :
      (key received chunk : Text) (c c' : WsClient) (signals : List Signal)
      → Waits key received c
      → on_ready_read sha1_base64 chunk c ≡ some (c', signals)
      → c'.handshake_done ≡ false
      → Waits key (received ++ chunk) c'
  on_ready_read-Waits key received chunk c c' signals (pending, kept, k) e waits =
      let replied = sym (on_ready_read-pending sha1_base64 chunk c pending) ∙ e in
      let all : c.handshake ++ chunk ≡ received ++ chunk = ap (λ s. s ++ chunk) kept in
      elim (Option-cases (index_of_text blank_line (c.handshake ++ chunk))) [
        | inl missing ↦
            let next : some (record c { handshake = c.handshake ++ chunk }, _)
                ≡ some (c', signals) =
              sym (on_reply-waits sha1_base64 (c.handshake ++ chunk) c missing) ∙ replied in
            let same : record c { handshake = c.handshake ++ chunk } ≡ c' = cc next in
            (
              waits,
              sym (ap (λ x. x.handshake) same) ∙ all,
              sym (ap (λ x. x.handshake_key) same) ∙ k,
            )
        | inr (at, found) ↦
            let same =
              on_header-waits (c.handshake ++ chunk) at c c' signals
                (sym (on_reply-found sha1_base64 (c.handshake ++ chunk) at c found) ∙ replied)
                waits in
            (waits, same.0 ∙ all, same.1 ∙ k)
      ]

  -- A chunk that completes the reply is the last one that it takes.
  chunk-Accepts :
      (key received chunk : Text) (rest : List Text) (c : WsClient)
      → Waits key received c
      → Upgraded sha1_base64 c (c.handshake ++ chunk)
      → Accepts sha1_base64 key received (chunk ∷ rest)
  chunk-Accepts key received chunk rest c (pending, kept, k) u =
      let all : c.handshake ++ chunk ≡ received ++ joined (chunk ∷ []) =
        ap (λ s. s ++ chunk) kept ∙ ap (λ s. received ++ s) (sym (append-nil chunk)) in
      record {
        before = chunk ∷ [];
        after = rest;
        split = refl;
        header_length = u.header_length;
        complete = rw (← all) u.complete;
        switching = rw (← all) u.switching;
        accepted = rw (← all, ← k) u.accepted;
      }

  later-Accepts :
      (key received chunk : Text) (rest : List Text)
      → Accepts sha1_base64 key (received ++ chunk) rest
      → Accepts sha1_base64 key received (chunk ∷ rest)
  later-Accepts key received chunk rest a =
      let all = append_assoc received chunk (joined a.before) in
      record {
        before = chunk ∷ a.before;
        after = a.after;
        split = ap (λ ss. chunk ∷ ss) a.split;
        header_length = a.header_length;
        complete = rw (← all) a.complete;
        switching = rw (← all) a.switching;
        accepted = rw (← all) a.accepted;
      }

  run-Accepts :
      (key received : Text) (chunks : List Text) (c c' : WsClient) (signals : List Signal)
      → Waits key received c
      → handle_all sha1_base64 (map ready_read chunks) c ≡ some (c', signals)
      → c'.handshake_done ≡ true
      → Accepts sha1_base64 key received chunks
  unfolding handle_all handle
  run-Accepts key received [] c c' signals w e done =
      let same : c ≡ c' = cc e in
      absurd (true≢false (sym done ∙ sym (ap (λ x. x.handshake_done) same) ∙ w.0))
  run-Accepts key received (chunk ∷ rest) c c' signals w e done =
      elim (Option-cases (on_ready_read sha1_base64 chunk c)) [
        | inl n ↦ let e' : none ≡ some (c', signals) = rw (n, handle_all) at e in cc e'
        | inr ((c1, s1), n) ↦ elim (Bool-cases c1.handshake_done) [
          | inl d ↦
              chunk-Accepts key received chunk rest c w
                (on_ready_read-Upgraded sha1_base64 chunk c c1 s1 w.0 n d)
          | inr d ↦
              let e' : prepend s1 (handle_all sha1_base64 (map ready_read rest) c1)
                  ≡ some (c', signals) =
                rw (n, handle_all) at e in
              let (more, later, all) = prepend-some s1 _ c' signals e' in
              later-Accepts key received chunk rest (
                run-Accepts key (received ++ chunk) rest c1 c' more
                  (on_ready_read-Waits key received chunk c c1 s1 w n d) later done)
        ]
      ]

  -- A client that was opened for another scheme than wss, whose socket connects and then delivers chunks of
  -- bytes: if it counts as connected after them, then it has first written the upgrade request with the key
  -- that was drawn, and some of the chunks, from the first on, hold a whole header block of a 101 reply that
  -- carries the accept value of this key.
  pub handle_all-Accepts :
      (scheme host headers peer key : Text) (port : ℕ) (chunks : List Text) (c c' : WsClient)
      (signals : List Signal)
      → text_eq scheme (codes "wss") ≡ false
      → handle_all sha1_base64
          (socket_connected peer key ∷ map ready_read chunks)
          (open_socket scheme host port headers c).0
        ≡ some (c', signals)
      → c'.handshake_done ≡ true
      → ((more : List Signal) × (signals ≡ sent (upgrade_request peer key headers) ∷ more))
        × Accepts sha1_base64 key [] chunks
  unfolding handle_all handle open_socket on_socket_connected send_handshake
  handle_all-Accepts scheme host headers peer key port chunks c c' signals plain e done =
      let asked : WsClient = record {
        socket = some connecting;
        is_tls = false;
        extra_headers = headers;
        handshake_done = false;
        handshake_key = key;
        handshake = [];
        recv_buffer = [];
      } in
      let request = sent (upgrade_request peer key headers) in
      let e' : prepend (request ∷ []) (handle_all sha1_base64 (map ready_read chunks) asked)
          ≡ some (c', signals) =
        rw (plain, handle_all) at e in
      let (more, later, all) = prepend-some (request ∷ []) _ c' signals e' in
      ((more, sym all), run-Accepts key [] chunks asked c' more (refl, refl, refl) later done)
