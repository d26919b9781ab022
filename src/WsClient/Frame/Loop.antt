-- ===== src/WsClient/Frame/Loop.antt =====
-- The loop of `handleIncoming` in zc_ws_client.cpp, over the whole buffer and over a stream of frames.
use obs_zcamera.Prelude.{
  ℕ, zero, suc, ◌+◌, ◌/◌, ◌%◌, ◌^◌, ◌<◌, ◌≡◌, refl, sym, ap, ◌≢◌, true, false, Option, List, [],
  ◌∷◌, ◌++◌, append_assoc, map, Text, arith, length, length-append, ◌==◌, Bool-cases, inl, inr, ◌⊎◌,
  le→not_ltb,
}
use obs_zcamera.WsClient.Frame.{
  Frame, Next, wait, take_frame, Effect, text_received, Outcome, drained, closed, out_of_fuel,
  next_frame, on_frame, after, incoming, receive,
}
use obs_zcamera.WsClient.Frame.Xor.{AllBytes}
use obs_zcamera.WsClient.Frame.Rfc.{IsKey, rfc_frame, next_frame-rfc_frame}
use obs_zcamera.WsClient.Frame.Decode.{IsShort, next_frame-append}

-- Every frame that the loop meets in so many rounds has a length that is an int with the longest
-- header.
abbrev pub AllShort : ℕ → Text → Type 0
AllShort zero buffer = Unit
AllShort (suc fuel) buffer = elim (next_frame buffer) [
  | wait ↦ Unit
  | take_frame f rest ↦ IsShort f × AllShort fuel rest
]

pub Next-cases : (n : Next) → (n ≡ wait) ⊎ ((f : Frame) × (rest : Text) × (n ≡ take_frame f rest))
Next-cases wait = inl refl
Next-cases (take_frame f rest) = inr (f, rest, refl)

after-ne-out_of_fuel : (es : List Effect) (o : Outcome) → o ≢ out_of_fuel → after es o ≢ out_of_fuel
unfolding after
after-ne-out_of_fuel es (drained rest more) h = λ e. cc e
after-ne-out_of_fuel es (closed rest more) h = λ e. cc e
after-ne-out_of_fuel es out_of_fuel h = λ e. h refl

incoming-ne-out_of_fuel :
    (fuel : ℕ) (buffer : Text)
    → length buffer < fuel
    → AllShort fuel buffer
    → incoming fuel buffer ≢ out_of_fuel
unfolding incoming
incoming-ne-out_of_fuel zero buffer h s = absurd (omega arith)
incoming-ne-out_of_fuel (suc fuel) buffer h s = elim (Next-cases (next_frame buffer)) [
  | inl e ↦ rw (e, incoming) (λ d. cc d)
  | inr (f, rest, e) ↦
      let s' : IsShort f × AllShort fuel rest = rw (e, AllShort) at s in
      elim (Bool-cases (on_frame f).1) [
        | inl ends ↦ rw (e, incoming, ends) (λ d. cc d)
        | inr goes ↦
            rw (e, incoming, goes)
              (after-ne-out_of_fuel _ _ (
                incoming-ne-out_of_fuel fuel rest
                  (omega (arith, (next_frame-append buffer [] e s'.0).1)) s'.1))
      ]
]

-- With two fuels above the buffer's length the outcome is the same.
incoming-fuel :
    (fuel more : ℕ) (buffer : Text)
    → length buffer < fuel
    → length buffer < more
    → AllShort fuel buffer
    → incoming fuel buffer ≡ incoming more buffer
unfolding incoming
incoming-fuel zero more buffer h k s = absurd (omega arith)
incoming-fuel (suc fuel) zero buffer h k s = absurd (omega arith)
incoming-fuel (suc fuel) (suc more) buffer h k s = elim (Next-cases (next_frame buffer)) [
  | inl e ↦ rw (e, incoming)
  | inr (f, rest, e) ↦
      let s' : IsShort f × AllShort fuel rest = rw (e, AllShort) at s in
      let shorter = (next_frame-append buffer [] e s'.0).1 in
      let same =
        incoming-fuel fuel more rest (omega (arith, shorter)) (omega (arith, shorter)) s'.1 in
      rw (e, incoming)
        (ap
          (λ o. elim (on_frame f).1 [
            | true ↦ closed rest (on_frame f).0
            | false ↦ after (on_frame f).0 o
          ])
          same)
]

after_nil : (o : Outcome) → after [] o ≡ o
unfolding after
after_nil (drained rest es) = refl
after_nil (closed rest es) = refl
after_nil out_of_fuel = refl

after-after : (es fs : List Effect) (o : Outcome) → after es (after fs o) ≡ after (es ++ fs) o
unfolding after
after-after es fs (drained rest gs) = rw append_assoc
after-after es fs (closed rest gs) = rw append_assoc
after-after es fs out_of_fuel = refl

drained-of_after :
    (es : List Effect) (o : Outcome) {rest : Text} {gs : List Effect}
    → after es o ≡ drained rest gs
    → (fs : List Effect) × (o ≡ drained rest fs) × (es ++ fs ≡ gs)
unfolding after
drained-of_after es (drained r fs) e = (fs, cc, cc)
drained-of_after es (closed r fs) e = cc
drained-of_after es out_of_fuel e = cc

after_glue :
    (es fs : List Effect) (o p : Outcome) {gs : List Effect}
    → o ≡ after fs p
    → es ++ fs ≡ gs
    → after es o ≡ after gs p
after_glue es fs o p e k = rw (e, ← k) (after-after es fs p)

-- Where the loop has taken all whole frames off `a`, it goes on with what is left and what follows.
incoming-append :
    (fuel g : ℕ) (a b : Text) {rest : Text} {es : List Effect}
    → length (a ++ b) < g
    → AllShort fuel a
    → incoming fuel a ≡ drained rest es
    → (g' : ℕ) × (length (rest ++ b) < g')
      × (incoming g (a ++ b) ≡ after es (incoming g' (rest ++ b)))
unfolding incoming
incoming-append zero g a b h s e = cc
incoming-append (suc fuel) zero a b h s e = absurd (omega arith)
incoming-append (suc fuel) (suc g) a b {rest} {es} h s e = elim (Next-cases (next_frame a)) [
  | inl n ↦
      let e' : drained a [] ≡ drained rest es = rw (n, incoming) at e in
      let same : a ≡ rest = cc e' in
      let none_sent : [] ≡ es = cc e' in
      (suc g, rw (← same) h, rw (← same, ← none_sent) (sym (after_nil _)))
  | inr (f, r, n) ↦
      let s' : IsShort f × AllShort fuel r = rw (n, AllShort) at s in
      let longer = next_frame-append a b n s'.0 in
      elim (Bool-cases (on_frame f).1) [
        | inl ends ↦
            let e' : closed r (on_frame f).0 ≡ drained rest es = rw (n, incoming, ends) at e in
            cc e'
        | inr goes ↦
            let e' : after (on_frame f).0 (incoming fuel r) ≡ drained rest es =
              rw (n, incoming, goes) at e in
            let (fs, run, all) = drained-of_after (on_frame f).0 (incoming fuel r) e' in
            let (g', enough, eq) =
              incoming-append fuel g r b
                (omega (arith, longer.1, length-append a b, length-append r b)) s'.1 run in
            (g', enough, rw (longer.0, incoming, goes) (after_glue _ _ _ _ eq all))
      ]
]

-- The lengths that the frames in the buffer and in the bytes of a call declare are, as ints, not
-- negative and below 2^31 - 14.
abbrev pub Received : Text → Text → Type 0
Received buffer bytes = AllShort (suc (length (buffer ++ bytes))) (buffer ++ bytes)

-- `handleIncoming` ends on every input, if every length that a frame it takes declares is, as an
-- int, not negative and below 2^31 - 14.
pub receive-ne-out_of_fuel :
    (buffer bytes : Text) → Received buffer bytes → receive buffer bytes ≢ out_of_fuel
unfolding receive
receive-ne-out_of_fuel buffer bytes s =
    incoming-ne-out_of_fuel (suc (length (buffer ++ bytes))) (buffer ++ bytes) (omega arith) s

-- Two chunks of the stream are handled as one: if the first leaves `rest` in the buffer and emits
-- `es`, then both at once give `es` and what the second gives on `rest`, with the same buffer. That
-- holds if every length that a frame taken declares is, as an int, not negative and below 2^31 - 14.
pub receive-append :
    (buffer first second : Text) (rest : Text) (es : List Effect)
    → Received buffer first
    → Received rest second
    → receive buffer first ≡ drained rest es
    → receive buffer (first ++ second) ≡ after es (receive rest second)
unfolding receive
receive-append buffer first second rest es s t e =
    let whole = buffer ++ first in
    let (g, enough, eq) =
      incoming-append (suc (length whole)) (suc (length (whole ++ second))) whole second
        (omega arith) s e in
    rw (← append_assoc buffer first second, eq)
      (ap (after es) (
        sym (
          incoming-fuel (suc (length (rest ++ second))) g (rest ++ second) (omega arith) enough t)))

-- A text message of the peer: its masking key, if it has one, and its bytes.
abbrev pub Message : Type 0
Message = Option Text × Text

abbrev pub AllSent : List Message → Type 0
AllSent [] = Unit
AllSent (m ∷ ms) = (IsKey m.0 × (length m.1 + 14 < 2 ^ 31) × AllBytes m.1) × AllSent ms

-- The final text frames of RFC 6455, one behind the other.
abbrev pub stream : List Message → Text
stream [] = []
stream (m ∷ ms) = rfc_frame true 1 m.0 m.1 ++ stream ms

incoming-stream :
    (fuel : ℕ) (ms : List Message)
    → length (stream ms) < fuel
    → AllSent ms
    → incoming fuel (stream ms) ≡ drained [] (map (λ m. text_received m.1) ms)
unfolding incoming
incoming-stream zero ms h s = absurd (omega arith)
incoming-stream (suc fuel) [] h s = unfold next_frame in refl
incoming-stream (suc fuel) (m ∷ ms) h (s, more) =
    let taken = next_frame-rfc_frame true 1 m.0 m.1 (stream ms) (omega arith) s.1 s.0 s.2 in
    rw (
      taken,
      incoming,
      incoming-stream fuel ms (omega (arith, length-append (rfc_frame true 1 m.0 m.1) (stream ms)))
          more,
    )

-- Final text frames of RFC 6455, masked or not, with payloads shorter than 2^31 - 14 bytes, that
-- arrive in one chunk on an empty buffer are emitted message by message, in order, and nothing is
-- left in the buffer.
pub receive-stream :
    (ms : List Message)
    → AllSent ms
    → receive [] (stream ms) ≡ drained [] (map (λ m. text_received m.1) ms)
unfolding receive
receive-stream ms s = incoming-stream (suc (length (stream ms))) ms (omega arith) s

on_frame-goes : (f : Frame) → f.opcode ≢ 8 → (on_frame f).1 ≡ false
unfolding on_frame
on_frame-goes f h = ground arith

-- An unmasked frame that declares 2^32 - 10 bytes of payload: -10 as an int, so that the header of
-- 10 bytes and the payload have 0 bytes together.
abbrev pub endless : ℕ → Text → Text
endless b0 tail = b0 ∷ 127 ∷ 0 ∷ 0 ∷ 0 ∷ 0 ∷ 255 ∷ 255 ∷ 255 ∷ 246 ∷ tail

next_frame-endless :
    (b0 : ℕ) (tail : Text)
    → (f : Frame) × (next_frame (endless b0 tail) ≡ take_frame f (endless b0 tail))
      × (f.opcode ≡ b0 % 16)
unfolding next_frame
next_frame-endless b0 tail =
    let f : Frame = record {
      opcode = b0 % 16;
      fin = b0 / 128 % 2 == 1;
      declared = 4294967286;
      payload = tail;
    } in
    (
      f,
      rw (
        le→not_ltb (length (endless b0 tail)) 10 (omega arith),
        le→not_ltb (length (endless b0 tail)) 0 (omega arith),
      ),
      refl,
    )

-- A peer that sends that frame, with any opcode but close, makes `handleIncoming` loop for ever: no
-- number of rounds ends the loop, whatever bytes follow.
pub incoming-endless :
    (fuel : ℕ) (b0 : ℕ) (tail : Text) → b0 % 16 ≢ 8 → incoming fuel (endless b0 tail) ≡ out_of_fuel
unfolding incoming
incoming-endless zero b0 tail h = refl
incoming-endless (suc fuel) b0 tail h =
    let (f, taken, code) = next_frame-endless b0 tail in
    let goes : (on_frame f).1 ≡ false = on_frame-goes f (rw code h) in
    rw (taken, incoming, goes, incoming-endless fuel b0 tail h) (unfold after in refl)
