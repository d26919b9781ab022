-- ===== src/Connector/Writer/Ends.antt =====
-- When the connector goes on and when it ends.
use obs_zcamera.Prelude.{
  ℕ, ◌^◌, ◌≤◌, ◌<◌, ◌≡◌, refl, Bool, true, false, not, ◌||◌, Text, length, ◌==◌, arith, Bool-cases,
  inl, inr,
}
use obs_zcamera.Prelude.Int.{negsuc, to_int32}
use obs_zcamera.Connector.Proto.{Message, type_code}
use obs_zcamera.Connector.Writer.{
  Connector, Event, video, audio, meta, exception, connected, buffer_full, disconnected, Fwrite,
  same_size, msg_write, send, on_general_message, on_video, on_audio, on_meta, exception_bytes,
  on_exception, on_disconnected, handle,
}
use obs_zcamera.Connector.Reader.Messages.{message_of, bytes_of}

-- The callbacks after which the connector ends in any case.
abbrev pub is_last : Event → Bool
is_last (exception code description) = true
is_last disconnected = true
is_last other = false

-- A message that was not written whole.
abbrev pub is_cut : ℕ × Bool → Text → Bool
is_cut out buf = out.1 || not (out.0 == length buf)

-- The library was stopped and the loop ended.
abbrev pub Ends : Connector → Bool → Connector → Type 0
Ends c ends c' =
    (c'.client_stopped ≡ (c.client_stopped || ends)) × (c'.loop_quit ≡ (c.loop_quit || ends))

or-false : (b : Bool) → (b || false) ≡ b
or-false true = refl
or-false false = refl

or-true : (b : Bool) → (b || true) ≡ true
or-true true = refl
or-true false = refl

stop_all-Ends :
    (cut : Bool) (c : Connector)
    → (true ≡ (c.client_stopped || (cut || true))) × (true ≡ (c.loop_quit || (cut || true)))
stop_all-Ends cut c = rw (or-true cut, or-true c.client_stopped, or-true c.loop_quit) (refl, refl)

same_size-taken : (n len : ℕ) → n ≤ len → len < 2 ^ 31 → same_size (to_int32 n) len ≡ (n == len)
unfolding same_size to_int32
same_size-taken n len h k = ground arith

same_size-failed : (len : ℕ) → len < 2 ^ 31 → same_size (negsuc 0) len ≡ false
unfolding same_size
same_size-failed len k = ground arith

module _ (fwrite : Fwrite)
    (at_most : (before buf : Text) → (fwrite before buf).0 ≤ length buf) where
  send-Ends :
      (buf : Text) (c : Connector)
      → length buf < 2 ^ 31
      → Ends c (is_cut (fwrite c.written buf) buf) (send fwrite buf c)
  unfolding send msg_write
  send-Ends buf c h = elim (Bool-cases (fwrite c.written buf).1) [
    | inl failed ↦
        rw (failed, same_size-failed (length buf) h, or-true c.client_stopped, or-true c.loop_quit)
          (refl, refl)
    | inr fine ↦
        let same =
          same_size-taken (fwrite c.written buf).0 (length buf) (at_most c.written buf) h in
        elim (Bool-cases ((fwrite c.written buf).0 == length buf)) [
          | inl whole ↦
              rw (fine, same, whole, or-false c.client_stopped, or-false c.loop_quit) (refl, refl)
          | inr cut ↦
              rw (fine, same, cut, or-true c.client_stopped, or-true c.loop_quit) (refl, refl)
        ]
  ]

  send-Ends_of :
      (m : Message) (c : Connector)
      → length (bytes_of m) < 2 ^ 31
      → Ends c
          (is_cut (fwrite c.written (bytes_of m)) (bytes_of m) || false)
          (send fwrite (bytes_of m) c)
  send-Ends_of m c h =
      rw (or-false (is_cut (fwrite c.written (bytes_of m)) (bytes_of m)))
        (send-Ends (bytes_of m) c h)

  -- A callback whose message is shorter than 2^31 bytes stops the library and ends the loop exactly when
  -- the message was not written whole, or the callback says that the camera disconnected or failed.
  pub handle-Ends :
      (e : Event) (c : Connector)
      → length (bytes_of (message_of e)) < 2 ^ 31
      → Ends c
          (is_cut (fwrite c.written (bytes_of (message_of e))) (bytes_of (message_of e))
            || is_last e)
          (handle fwrite e c)
  unfolding handle on_video on_audio on_meta on_exception exception_bytes on_general_message
      on_disconnected type_code
  handle-Ends (video v) c h = send-Ends_of (message_of (video v)) c h
  handle-Ends (audio a) c h = send-Ends_of (message_of (audio a)) c h
  handle-Ends (meta vmeta ameta m) c h = send-Ends_of (message_of (meta vmeta ameta m)) c h
  handle-Ends (exception code d) c h =
      stop_all-Ends
        (is_cut (fwrite c.written (bytes_of (message_of (exception code d))))
          (bytes_of (message_of (exception code d))))
        c
  handle-Ends connected c h = send-Ends_of (message_of connected) c h
  handle-Ends buffer_full c h = send-Ends_of (message_of buffer_full) c h
  handle-Ends disconnected c h =
      stop_all-Ends
        (is_cut (fwrite c.written (bytes_of (message_of disconnected)))
          (bytes_of (message_of disconnected)))
        c
