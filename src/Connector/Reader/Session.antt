-- ===== src/Connector/Reader/Session.antt =====
-- A whole session: the connector writes what the SSP library calls it with, and the plugin's thread reads
-- the pipe.
use mathlib.Core.List.{map}
use obs_zcamera.Prelude.{
  ℕ, zero, suc, ◌≡◌, refl, sym, ap, subst, ◌∙◌, true, false, Option, none, some, List, [], ◌∷◌,
  ◌++◌, Text, length, ltb, le→not_ltb, lt→ltb, if◌then◌else◌, take, replicate, arith, Bool-cases,
  inl, inr, take-length, append_assoc, append-nil,
}
use obs_zcamera.Connector.Proto.{Message, type_code}
use obs_zcamera.Connector.Writer.{
  Connector, Event, video, audio, meta, exception, connected, buffer_full, disconnected, Fwrite,
  same_size, msg_write, send, on_general_message, on_video, on_audio, on_meta, exception_bytes,
  on_exception, on_disconnected, handle, setup, run,
}
use obs_zcamera.Connector.Reader.{
  Receiver, greeting, loop_test, returned, Callback, dispatch, msg_recv, greeted, received,
  receive_thread, IsPipe,
}
use obs_zcamera.Connector.Reader.Pipes.{parse_message, Parses, msg_recv-parse_message}
use obs_zcamera.Connector.Reader.Messages.{
  message_of, bytes_of, Fits, delivered, parse_message-message_of, dispatch-message_of,
  parse_message-written,
}

-- The messages of the callbacks, in order.
abbrev all_bytes : List Event → Text
all_bytes [] = []
all_bytes (e ∷ es) = bytes_of (message_of e) ++ all_bytes es

abbrev pub AllFit : List Event → Type 0
AllFit [] = Unit
AllFit (e ∷ es) = Fits e × AllFit es

-- An output that takes every byte.
abbrev pub TakesAll : Fwrite → Type 0
TakesAll fwrite = (before buf : Text) → fwrite before buf ≡ (length buf, false)

abbrev hello : Message
hello = record { kind = 8; len = 0; value = [] }

module _ (fwrite : Fwrite) (takes : TakesAll fwrite) where
  msg_write-written :
      (buf : Text) (c : Connector) → (msg_write fwrite buf c).1.written ≡ c.written ++ buf
  unfolding msg_write
  msg_write-written buf c = rw (takes c.written buf, take-length buf) refl

  send-written : (buf : Text) (c : Connector) → (send fwrite buf c).written ≡ c.written ++ buf
  unfolding send
  send-written buf c = elim (Bool-cases (same_size (msg_write fwrite buf c).0 (length buf))) [
    | inl whole ↦ rw whole (msg_write-written buf c)
    | inr cut ↦ rw cut (msg_write-written buf c)
  ]

  setup-written : (setup fwrite).written ≡ bytes_of hello
  unfolding setup on_general_message type_code
  setup-written =
      send-written (bytes_of hello)
        (record { written = []; client_stopped = false; loop_quit = false })

  handle-written :
      (e : Event) (c : Connector)
      → (handle fwrite e c).written ≡ c.written ++ bytes_of (message_of e)
  unfolding handle on_video on_audio on_meta on_exception exception_bytes on_general_message
      on_disconnected type_code
  handle-written (video v) c = send-written (bytes_of (message_of (video v))) c
  handle-written (audio a) c = send-written (bytes_of (message_of (audio a))) c
  handle-written (meta vmeta ameta m) c =
      send-written (bytes_of (message_of (meta vmeta ameta m))) c
  handle-written (exception code d) c =
      msg_write-written (bytes_of (message_of (exception code d))) c
  handle-written connected c = send-written (bytes_of (message_of connected)) c
  handle-written buffer_full c = send-written (bytes_of (message_of buffer_full)) c
  handle-written disconnected c = send-written (bytes_of (message_of disconnected)) c

  run-written :
      (es : List Event) (c : Connector) → (run fwrite es c).written ≡ c.written ++ all_bytes es
  unfolding run
  run-written [] c = sym (append-nil c.written)
  run-written (e ∷ es) c =
      run-written es (handle fwrite e c)
      ∙ ap (λ w. w ++ all_bytes es) (handle-written e c)
      ∙ append_assoc c.written (bytes_of (message_of e)) (all_bytes es)

ltb-suc : (n k : ℕ) → ltb (suc n) (suc k) ≡ ltb n k
ltb-suc n k = ground arith

module _ {S : Type 0} (read : ℕ → S → Text × S) (pending : S → Text)
    (pipe : IsPipe read pending) where
  -- What the thread has called after its rounds, and whether it has seen the end.
  abbrev Has : List Event → ℕ → List Callback → Receiver S → Type 0
  Has es k before r =
      (r.called ≡ before ++ map delivered (take k es))
      × (r.thread ≡ (if ltb (length es) k then returned else loop_test))

  returned-stays :
      (k : ℕ) (s : S) (called : List Callback)
      → receive_thread read
          (replicate k true)
          (record { thread = returned; pipe = s; called = called })
        ≡ record { thread = returned; pipe = s; called = called }
  unfolding receive_thread
  returned-stays zero s called = refl
  returned-stays (suc k) s called = returned-stays k s called

  first_round :
      (k : ℕ) (s : S) (m : Option Message)
      → (msg_recv read s).0 ≡ m
      → receive_thread read
          (replicate (suc k) true)
          (record { thread = greeting; pipe = s; called = [] })
        ≡ receive_thread read
            (replicate k true)
            (greeted read m (record { thread = greeting; pipe = (msg_recv read s).1; called = [] }))
  unfolding receive_thread
  first_round k s m e =
      ap
        (λ o.
          receive_thread read (replicate k true) (
            greeted read o (record { thread = greeting; pipe = (msg_recv read s).1; called = [] })))
        e

  start-Has :
      (es : List Event) (s : S) (called : List Callback)
      → Has es zero called
          (receive_thread read [] (record { thread = loop_test; pipe = s; called = called }))
  unfolding receive_thread
  start-Has es s called =
      (sym (append-nil called), rw (le→not_ltb (length es) 0 (omega arith)) refl)

  -- A round of the loop, for what msg_recv returns.
  loop_round :
      (k : ℕ) (s : S) (called : List Callback) (m : Option Message)
      → (msg_recv read s).0 ≡ m
      → receive_thread read
          (replicate (suc k) true)
          (record { thread = loop_test; pipe = s; called = called })
        ≡ receive_thread read (replicate k true) (
            received read m
              (record { thread = loop_test; pipe = (msg_recv read s).1; called = called }))
  unfolding receive_thread
  loop_round k s called m e =
      ap
        (λ o. receive_thread read (replicate k true) (
          received read o
            (record { thread = loop_test; pipe = (msg_recv read s).1; called = called })))
        e

  loop-Has :
      (es : List Event) (k : ℕ) (s : S) (called : List Callback)
      → AllFit es
      → pending s ≡ all_bytes es
      → Has es k called (
          receive_thread read
            (replicate k true)
            (record { thread = loop_test; pipe = s; called = called }))
  unfolding received
  loop-Has es zero s called fits e = start-Has es s called
  loop-Has [] (suc k) s called fits e =
      let stop =
        subst (λ o. Parses read pending pipe o (msg_recv read s)) (ap parse_message e)
          (msg_recv-parse_message read pending pipe s) in
      let ends = loop_round k s called none stop ∙ returned-stays k (msg_recv read s).1 called in
      subst (Has [] (suc k) called) (sym ends)
        (sym (append-nil called), rw (lt→ltb 0 (suc k) (omega arith)) refl)
  loop-Has (x ∷ es) (suc k) s called (fit, fits) e =
      let parsed = ap parse_message e ∙ parse_message-message_of x (all_bytes es) fit in
      let got =
        subst (λ o. Parses read pending pipe o (msg_recv read s)) parsed
          (msg_recv-parse_message read pending pipe s) in
      let next =
        loop-Has es k (msg_recv read s).1 (called ++ dispatch (message_of x) ∷ []) fits got.1 in
      let order = append_assoc called (delivered x ∷ []) (map delivered (take k es)) in
      let calls =
        next.0
        ∙ ap (λ c. (called ++ c ∷ []) ++ map delivered (take k es)) (dispatch-message_of x fit)
        ∙ order in
      subst (Has (x ∷ es) (suc k) called) (sym (loop_round k s called (some (message_of x)) got.0))
        (calls, rw (ltb-suc (length es) k) next.1)

  -- The connector starts, and its library calls it with `es`: callbacks whose numbers have the sizes of
  -- their types, whose buffers hold what they count, and whose messages are shorter than 2^32. If its
  -- output takes every byte and the plugin, which is not stopped, reads the pipe in whatever pieces, it
  -- makes the callbacks of the first k events in its first k rounds after the greeting, in order and
  -- with the same arguments and no others, and its thread has returned exactly if k is above their number.
  pub receive_thread-setup :
      (fwrite : Fwrite)
      → TakesAll fwrite
      → (es : List Event) (k : ℕ) (s : S) → AllFit es
      → pending s ≡ (run fwrite es (setup fwrite)).written
      → ((receive_thread read
            (replicate (suc k) true)
            (record { thread = greeting; pipe = s; called = [] })).called
          ≡ map delivered (take k es))
        × ((receive_thread read
              (replicate (suc k) true)
              (record { thread = greeting; pipe = s; called = [] })).thread
            ≡ (if ltb (length es) k then returned else loop_test))
  unfolding greeted type_code
  receive_thread-setup fwrite takes es k s fits e =
      let sent =
        e
        ∙ run-written fwrite takes es (setup fwrite)
        ∙ ap (λ w. w ++ all_bytes es) (setup-written fwrite takes) in
      let parsed =
        ap parse_message sent
        ∙ parse_message-written hello (all_bytes es) (omega arith) (omega arith) refl in
      let got =
        subst (λ o. Parses read pending pipe o (msg_recv read s)) parsed
          (msg_recv-parse_message read pending pipe s) in
      subst (Has es k []) (sym (first_round k s (some hello) got.0))
        (loop-Has es k (msg_recv read s).1 [] fits got.1)
