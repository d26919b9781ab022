-- ===== src/WsClient/Frame/Rfc.antt =====
-- The frame layout of RFC 6455, written from the standard and not from the source, and the reading
-- of such a frame by `handleIncoming`.
use obs_zcamera.Prelude.{
  ℕ, zero, suc, ◌+◌, ◌/◌, ◌%◌, ◌^◌, ◌≤◌, ◌<◌, ◌≡◌, refl, ap, ◌∙◌, Bool, true, false, Option, none,
  some, [], ◌∷◌, ◌++◌, append_assoc, Text, arith, length, take, get_or, ltb, ◌==◌, if◌then◌else◌,
  length-append, take-length_append, drop-length_append, le→not_ltb, Bool-cases, inl, inr, ltb→lt,
}
use obs_zcamera.Prelude.Int.{pos, to_int32, add_int-pos}
use obs_zcamera.WsClient.Frame.Xor.{
  AllBytes, masked, xor_mask_twice, length-xor_mask, xor_mask-masked,
}
use obs_zcamera.WsClient.Frame.{
  take_frame, big_endian, length_field, xor_mask, cut_frame, next_frame, written_length,
  write_frame,
}

-- The `k` low bytes of a number, the highest first.
abbrev pub be_bytes : ℕ → ℕ → Text
be_bytes zero n = []
be_bytes (suc k) n = (n / 256 ^ k % 256) ∷ be_bytes k n

-- The length in its shortest form, after the mask bit.
abbrev pub rfc_length : ℕ → ℕ → Text
rfc_length mask_bit len =
    if ltb len 126
    then (mask_bit + len) ∷ []
    else (if ltb len 65536
        then (mask_bit + 126) ∷ be_bytes 2 len
        else (mask_bit + 127) ∷ be_bytes 8 len)

-- The mask bit, the masking key on the wire, and the bytes of the payload on the wire.
abbrev pub mask_bit : Option Text → ℕ
mask_bit none = 0
mask_bit (some key) = 128

abbrev pub key_bytes : Option Text → Text
key_bytes none = []
key_bytes (some key) = key

abbrev pub masked_bytes : Option Text → Text → Text
masked_bytes none payload = payload
masked_bytes (some key) payload =
    masked (get_or key 0 0) (get_or key 1 0) (get_or key 2 0) (get_or key 3 0) payload

abbrev pub rfc_frame : Bool → ℕ → Option Text → Text → Text
rfc_frame fin opcode key payload =
    ((if fin then 128 else 0) + opcode)
    ∷ (rfc_length (mask_bit key) (length payload) ++ (key_bytes key ++ masked_bytes key payload))

big_endian-two : (n : ℕ) → n < 65536 → big_endian 0 (be_bytes 2 n) ≡ n
unfolding big_endian
big_endian-two n h = omega arith

big_endian-eight : (n : ℕ) → n < 2 ^ 31 → big_endian 0 (be_bytes 8 n) ≡ n
unfolding big_endian
big_endian-eight n h = omega arith

to_int32_small : (n : ℕ) → n < 2 ^ 31 → to_int32 n ≡ pos n
unfolding to_int32
to_int32_small n h = ground arith

abbrev mask_len : Bool → ℕ
mask_len masked = if masked then 4 else 0

cut_frame-append :
    (opcode : ℕ) (fin masked : Bool) (header mask body rest : Text)
    → length mask ≡ mask_len masked
    → length header + mask_len masked + length body < 2 ^ 31
    → cut_frame opcode fin masked (length body) (length header) (header ++ (mask ++ (body ++ rest)))
      ≡ take_frame
          (record {
            opcode = opcode;
            fin = fin;
            declared = length body;
            payload = if masked then xor_mask (take 4 (mask ++ (body ++ rest))) 0 body else body;
          })
          rest
unfolding cut_frame
cut_frame-append opcode fin masked header mask body rest e h = rw (
  to_int32_small (length body) (omega arith),
  add_int-pos (length header + mask_len masked) (length body) h,
  drop-length_append header (mask ++ (body ++ rest)),
  ← e,
  ← length-append header mask,
  ← append_assoc header mask (body ++ rest),
  drop-length_append (header ++ mask) (body ++ rest),
  take-length_append body rest,
  ← length-append (header ++ mask) body,
  ← append_assoc (header ++ mask) body rest,
  drop-length_append ((header ++ mask) ++ body) rest,
  fits,
)
  where
    fits :
        ltb (length (((header ++ mask) ++ body) ++ rest)) (length ((header ++ mask) ++ body))
        ≡ false
    fits = le→not_ltb _ _ (omega (arith, length-append ((header ++ mask) ++ body) rest))

-- A masking key has four bytes.
abbrev pub IsKey : Option Text → Type 0
IsKey none = Unit
IsKey (some key) = (length key ≡ 4) × AllBytes key

abbrev has_key : Option Text → Bool
has_key none = false
has_key (some key) = true

-- The payload is cut out and unmasked, whatever the header is.
cut_frame-masked_bytes :
    (opcode : ℕ) (fin : Bool) (header : Text) (key : Option Text) (payload rest : Text)
    → length header ≤ 10
    → length payload + 14 < 2 ^ 31
    → IsKey key
    → AllBytes payload
    → cut_frame opcode fin
        (has_key key)
        (length payload)
        (length header)
        (header ++ (key_bytes key ++ (masked_bytes key payload ++ rest)))
      ≡ take_frame
          (record { opcode = opcode; fin = fin; declared = length payload; payload = payload })
          rest
cut_frame-masked_bytes opcode fin header none payload rest s h k b =
    cut_frame-append opcode fin false header [] payload rest refl (omega arith)
cut_frame-masked_bytes opcode fin header (some key) payload rest s h (four, bytes) b =
    rw (← xor_mask-masked key payload, ← length-xor_mask key 0 payload)
      (cut_frame-append opcode fin true header key (xor_mask key 0 payload) rest four
          (rw (length-xor_mask key 0 payload) (omega arith))
        ∙ ap
            (λ p.
              take_frame
                (record {
                  opcode = opcode;
                  fin = fin;
                  declared = length (xor_mask key 0 payload);
                  payload = p;
                })
                rest)
            unmasked)
  where
    unmasked :
        xor_mask (take 4 (key ++ (xor_mask key 0 payload ++ rest))) 0 (xor_mask key 0 payload)
        ≡ payload
    unmasked =
        rw (← four, take-length_append key (xor_mask key 0 payload ++ rest))
          (xor_mask_twice key 0 payload bytes b)

first_byte :
    (fin : Bool) (opcode : ℕ)
    → opcode < 16
    → ((((if fin then 128 else 0) + opcode) % 16) ≡ opcode)
      × ((((if fin then 128 else 0) + opcode) / 128 % 2 == 1) ≡ fin)
first_byte true opcode h = ground arith
first_byte false opcode h = ground arith

second_byte :
    (key : Option Text) (len : ℕ)
    → len < 128
    → (((mask_bit key + len) % 128) ≡ len) × (((mask_bit key + len) / 128 % 2 == 1) ≡ has_key key)
second_byte none len h = ground arith
second_byte (some key) len h = ground arith

-- The length field reads back the length, and the header's length, from what `rfc_length` wrote.
length_field-rfc_length :
    (b0 : ℕ) (key : Option Text) (len : ℕ) (more : Text)
    → len < 2 ^ 31
    → (b1 : ℕ) × (ext : Text) × (rfc_length (mask_bit key) len ≡ b1 ∷ ext)
      × (length ext ≤ 8)
      × (length_field (b1 % 128) (b0 ∷ b1 ∷ (ext ++ more)) ≡ some (len, length (b0 ∷ b1 ∷ ext)))
      × ((b1 / 128 % 2 == 1) ≡ has_key key)
unfolding length_field
length_field-rfc_length b0 key len more h = elim (Bool-cases (ltb len 126)) [
  | inl short ↦ (
    mask_bit key + len,
    [],
    rw short,
    omega arith,
    rw ((second_byte key len (omega (arith, ltb→lt len 126 short))).0) (ground arith),
    (second_byte key len (omega (arith, ltb→lt len 126 short))).1,
  )
  | inr long ↦ elim (Bool-cases (ltb len 65536)) [
    | inl two ↦ (
      mask_bit key + 126,
      be_bytes 2 len,
      rw (long, two),
      omega arith,
      rw (
        (second_byte key 126 (omega arith)).0,
        le→not_ltb (length (b0 ∷ (mask_bit key + 126) ∷ (be_bytes 2 len ++ more))) 4 (omega arith),
        big_endian-two len (ltb→lt _ _ two),
      ),
      (second_byte key 126 (omega arith)).1,
    )
    | inr eight ↦ (
      mask_bit key + 127,
      be_bytes 8 len,
      rw (long, eight),
      omega arith,
      rw (
        (second_byte key 127 (omega arith)).0,
        le→not_ltb (length (b0 ∷ (mask_bit key + 127) ∷ (be_bytes 8 len ++ more))) 10 (omega arith),
        big_endian-eight len h,
      ),
      (second_byte key 127 (omega arith)).1,
    )
  ]
]

-- A frame of RFC 6455 at the head of the buffer is taken off it, with its payload unmasked, if its
-- payload is shorter than 2^31 - 14 bytes: for every opcode, flag and masking key, and whatever
-- follows.
pub next_frame-rfc_frame :
    (fin : Bool) (opcode : ℕ) (key : Option Text) (payload rest : Text)
    → opcode < 16
    → length payload + 14 < 2 ^ 31
    → IsKey key
    → AllBytes payload
    → next_frame (rfc_frame fin opcode key payload ++ rest)
      ≡ take_frame
          (record { opcode = opcode; fin = fin; declared = length payload; payload = payload })
          rest
unfolding next_frame
next_frame-rfc_frame fin opcode key payload rest o h k b =
    let b0 : ℕ = (if fin then 128 else 0) + opcode in
    let more : Text = key_bytes key ++ (masked_bytes key payload ++ rest) in
    let (b1, ext, written, extended, found, bit) =
      length_field-rfc_length b0 key (length payload) more (omega arith) in
    rw
      (
        written,
        append_assoc ext (key_bytes key ++ masked_bytes key payload) rest,
        append_assoc (key_bytes key) (masked_bytes key payload) rest,
        found,
        bit,
        (first_byte fin opcode o).0,
        (first_byte fin opcode o).1,
      )
      (cut_frame-masked_bytes opcode fin (b0 ∷ b1 ∷ ext) key payload rest (omega arith) h k b)

written_length-rfc_length : (len : ℕ) → len < 2 ^ 31 → written_length len ≡ rfc_length 128 len
unfolding written_length
written_length-rfc_length len h = ground arith

-- What `writeFrame` puts on the wire is the final RFC 6455 frame for a 4-bit opcode, masked under the
-- drawn key, if the payload is shorter than 2^31 bytes.
pub write_frame-rfc_frame :
    (key : Text) (opcode : ℕ) (payload : Text)
    → opcode < 16
    → length payload < 2 ^ 31
    → write_frame key opcode payload ≡ rfc_frame true opcode (some key) payload
unfolding write_frame
write_frame-rfc_frame key opcode payload o h =
    rw (written_length-rfc_length (length payload) h)
      (let e : opcode % 16 ≡ opcode = omega arith in rw (e, xor_mask-masked key payload))
