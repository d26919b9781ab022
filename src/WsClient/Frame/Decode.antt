-- ===== src/WsClient/Frame/Decode.antt =====
-- One round of the loop of `handleIncoming` in zc_ws_client.cpp, on a buffer that grows.
use obs_zcamera.Prelude.{
  ℕ, ◌+◌, ◌/◌, ◌%◌, ◌^◌, ◌≤◌, ◌<◌, ◌≡◌, sym, ap, ◌∙◌, Bool, true, false, some, [], ◌∷◌, ◌++◌, Text,
  arith, length, take, drop, ltb, ◌==◌, if◌then◌else◌, length-append, length-drop, take-append_le,
  drop-append_le, le→not_ltb, not_ltb→le, Bool-cases, Option-cases, inl, inr, lt→ltb, ltb→lt,
}
use obs_zcamera.Prelude.Int.{pos, to_int32, add_int, add_int-pos}
use obs_zcamera.WsClient.Frame.{
  Frame, Next, wait, take_frame, length_field, xor_mask, cut_frame, with_length, next_frame,
}

-- The declared length as an int is not negative, and the longest header, of 14 bytes, can be added
-- to it without overflow.
abbrev pub IsShort : Frame → Type 0
IsShort f = f.declared % 2 ^ 32 + 14 < 2 ^ 31

to_int32-pos : (n : ℕ) → n % 2 ^ 32 < 2 ^ 31 → to_int32 n ≡ pos (n % 2 ^ 32)
unfolding to_int32
to_int32-pos n h = ground arith

take-drop_append :
    (i k : ℕ) (a b : Text) → i + k ≤ length a → take k (drop i (a ++ b)) ≡ take k (drop i a)
take-drop_append i k a b h =
    rw (drop-append_le i a b (omega arith))
      (take-append_le k (drop i a) b (omega (arith, length-drop i a)))

abbrev mask_len : Bool → ℕ
mask_len masked = if masked then 4 else 0

abbrev cut_payload : Bool → ℕ → ℕ → Text → Text
cut_payload masked header_len n a =
    let raw = take n (drop (header_len + mask_len masked) a) in
    if masked then xor_mask (take 4 (drop header_len a)) 0 raw else raw

cut_payload-append :
    (masked : Bool) (header_len n : ℕ) (a b : Text)
    → header_len + mask_len masked + n ≤ length a
    → cut_payload masked header_len n (a ++ b) ≡ cut_payload masked header_len n a
cut_payload-append false header_len n a b h = take-drop_append (header_len + 0) n a b h
cut_payload-append true header_len n a b h =
    rw (take-drop_append (header_len + 4) n a b h, take-drop_append header_len 4 a b (omega arith))

-- One round on a frame whose length with its header is an int: it waits, or it takes the frame.
module _ (opcode : ℕ) (fin masked : Bool) (len header_len : ℕ)
    (short : header_len + mask_len masked + len % 2 ^ 32 < 2 ^ 31) where
  abbrev total : ℕ
  total = header_len + mask_len masked + len % 2 ^ 32

  abbrev cut_result : Text → Next
  cut_result a =
      take_frame
        (record {
          opcode = opcode;
          fin = fin;
          declared = len;
          payload = cut_payload masked header_len (len % 2 ^ 32) a;
        })
        (drop total a)

  len-pos : to_int32 len ≡ pos (len % 2 ^ 32)
  len-pos = to_int32-pos len (omega arith)

  sum-pos : add_int (header_len + mask_len masked) (pos (len % 2 ^ 32)) ≡ pos total
  sum-pos = add_int-pos (header_len + mask_len masked) (len % 2 ^ 32) short

  cut_frame_complete :
      (a : Text) → total ≤ length a → cut_frame opcode fin masked len header_len a ≡ cut_result a
  unfolding cut_frame
  cut_frame_complete a h = rw (len-pos, sum-pos, le→not_ltb (length a) total h)

  cut_frame-incomplete :
      (a : Text) → length a < total → cut_frame opcode fin masked len header_len a ≡ wait
  unfolding cut_frame
  cut_frame-incomplete a h = rw (len-pos, sum-pos, lt→ltb (length a) total h)

  total-le :
      (a : Text) {f : Frame} {rest : Text}
      → cut_frame opcode fin masked len header_len a ≡ take_frame f rest
      → total ≤ length a
  total-le a e = elim (Bool-cases (ltb (length a) total)) [
    | inl lt ↦ cc (cut_frame-incomplete a (ltb→lt _ _ lt))
    | inr le ↦ not_ltb→le _ _ le
  ]

  cut_frame-append :
      (a b : Text) {f : Frame} {rest : Text}
      → cut_frame opcode fin masked len header_len a ≡ take_frame f rest
      → cut_frame opcode fin masked len header_len (a ++ b) ≡ take_frame f (rest ++ b)
  cut_frame-append a b {f} {rest} e =
      let h = total-le a e in
      let same = sym (cut_frame_complete a h) ∙ e in
      rw
        (
          cut_frame_complete (a ++ b) (omega (arith, length-append a b)),
          cut_payload-append masked header_len (len % 2 ^ 32) a b h,
          drop-append_le total a b h,
        )
        (cc same)

  cut_frame-shorter :
      (a : Text) {f : Frame} {rest : Text}
      → cut_frame opcode fin masked len header_len a ≡ take_frame f rest
      → length rest + header_len ≤ length a
  cut_frame-shorter a {f} {rest} e =
      let h = total-le a e in
      let same : drop total a ≡ rest = cc (sym (cut_frame_complete a h) ∙ e) in
      rw (← same) (omega (arith, length-drop total a))

length_field-append :
    (len : ℕ) (a b : Text) {n header_len : ℕ}
    → length_field len a ≡ some (n, header_len)
    → length_field len (a ++ b) ≡ some (n, header_len)
unfolding length_field
length_field-append len a b e =
    ground (arith, length-append a b, take-drop_append 2 2 a b, take-drop_append 2 8 a b)

length_field-bounds :
    (len : ℕ) (a : Text) {n header_len : ℕ}
    → length_field len a ≡ some (n, header_len)
    → (2 ≤ header_len) × (header_len ≤ 10)
unfolding length_field
length_field-bounds len a e = ground arith

mask_len-le : (masked : Bool) → mask_len masked ≤ 4
mask_len-le masked = ground arith

cut_frame-declared :
    (opcode : ℕ) (fin masked : Bool) (len header_len : ℕ) (a : Text) {f : Frame} {rest : Text}
    → cut_frame opcode fin masked len header_len a ≡ take_frame f rest
    → len ≡ f.declared
unfolding cut_frame
cut_frame-declared opcode fin masked len header_len a e = ground arith

-- A frame that is taken stays the same when more bytes follow, and the buffer gets shorter.
module _ (opcode : ℕ) (fin masked : Bool) (len : ℕ) (a b : Text) {f : Frame} {rest : Text}
    (short : IsShort f) where
  with_length-append :
      with_length opcode fin masked (length_field len a) a ≡ take_frame f rest
      → (with_length opcode fin masked (length_field len (a ++ b)) (a ++ b)
          ≡ take_frame f (rest ++ b))
        × (length rest < length a)
  unfolding with_length
  with_length-append e = elim (Option-cases (length_field len a)) [
    | inl missing ↦ cc (ap (λ o. with_length opcode fin masked o a) (sym missing) ∙ e)
    | inr ((n, header_len), found) ↦
        let taken = ap (λ o. with_length opcode fin masked o a) (sym found) ∙ e in
        let bounds = length_field-bounds len a found in
        let below : n % 2 ^ 32 + 14 < 2 ^ 31 =
          rw (cut_frame-declared opcode fin masked n header_len a taken) short in
        let fits : header_len + mask_len masked + n % 2 ^ 32 < 2 ^ 31 =
          omega (arith, bounds.1, mask_len-le masked) in
        (
          rw (length_field-append len a b found)
              (cut_frame-append opcode fin masked n header_len fits a b taken),
          omega (arith, bounds.0, cut_frame-shorter opcode fin masked n header_len fits a taken),
        )
  ]

pub next_frame-append :
    (a b : Text) {f : Frame} {rest : Text}
    → next_frame a ≡ take_frame f rest
    → IsShort f
    → (next_frame (a ++ b) ≡ take_frame f (rest ++ b)) × (length rest < length a)
unfolding next_frame
next_frame-append [] b e short = cc
next_frame-append (b0 ∷ []) b e short = cc
next_frame-append (b0 ∷ b1 ∷ more) b e short =
    with_length-append (b0 % 16) (b0 / 128 % 2 == 1) (b1 / 128 % 2 == 1) (b1 % 128) (b0 ∷ b1 ∷ more)
      b short e
