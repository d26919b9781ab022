-- ===== src/WsClient/Frame.antt =====
-- The frame code of zc_ws_client.cpp: `handleIncoming` and `writeFrame`.
pub mod Xor
pub mod Rfc
pub mod Decode
pub mod Loop
use Prim.Native.Nat.{bit_xor}
use obs_zcamera.Prelude.{
  ℕ, zero, suc, ◌≡◌, refl, ◌⊎◌, inl, inr, ◌+◌, ◌-◌, ◌*◌, ◌/◌, ◌%◌, ◌^◌, Bool, true, false, Option,
  none, some, List, [], ◌∷◌, ◌++◌, Text, codes, length, take, drop, get_or, ltb, leb, ◌==◌,
  if◌then◌else◌,
}
use obs_zcamera.Prelude.Int.{ℤ, pos, negsuc, to_int32, add_int}

-- `size < bound`, both signed.
unfoldable pub size_lt : ℕ → ℤ → Bool
size_lt size (pos n) = ltb size n
size_lt size (negsuc n) = false

-- `QByteArray::mid(at, n)`: all that follows where `n` is negative.
unfoldable pub mid : ℕ → ℤ → Text → Text
mid at (pos n) bytes = take n (drop at bytes)
mid at (negsuc n) bytes = drop at bytes

-- `QByteArray::remove(0, n)`: nothing where `n` is negative.
unfoldable pub remove_front : ℤ → Text → Text
remove_front (pos n) bytes = drop n bytes
remove_front (negsuc n) bytes = bytes

-- `len = (len << 8) | byte`, over the bytes of a field, in 64 bits.
unfoldable pub big_endian : ℕ → Text → ℕ
big_endian acc [] = acc
big_endian acc (b ∷ bs) = big_endian (acc * 256 % 2 ^ 64 + b) bs

-- The payload length and the header's length, from the 7-bit length field; `none` where the buffer
-- is too short for the extended field.
unfoldable pub length_field : ℕ → Text → Option (ℕ × ℕ)
unfolding big_endian
length_field len buffer =
    if len == 126
    then (if ltb (length buffer) 4 then none else some (big_endian 0 (take 2 (drop 2 buffer)), 4))
    else (if len == 127
        then (if ltb (length buffer) 10
            then none
            else some (big_endian 0 (take 8 (drop 2 buffer)), 10))
        else some (len, 2))

-- `payload[i] ^ mask[i % 4]`, from the index `i` on.
unfoldable pub xor_mask : Text → ℕ → Text → Text
xor_mask mask i [] = []
xor_mask mask i (b ∷ bs) = bit_xor b (get_or mask (i % 4) 0) ∷ xor_mask mask (suc i) bs

pub record Frame : Type 0 where
  pub opcode : ℕ
  pub fin : Bool
  -- `len` before the cast.
  pub declared : ℕ
  pub payload : Text

-- What one round of the loop of `handleIncoming` finds in the buffer.
pub data Next : Type 0 where
  wait : Next
  take_frame : Frame → Text → Next

-- The end of a round: the payload is cut out and unmasked, and the frame leaves the buffer.
unfoldable pub cut_frame : ℕ → Bool → Bool → ℕ → ℕ → Text → Next
unfolding mid remove_front xor_mask to_int32 add_int size_lt
cut_frame opcode fin masked len header_len buffer =
    let mask_len = if masked then 4 else 0 in
    let end = add_int (header_len + mask_len) (to_int32 len) in
    let raw = mid (header_len + mask_len) (to_int32 len) buffer in
    if size_lt (length buffer) end
    then wait
    else take_frame
        (record {
          opcode = opcode;
          fin = fin;
          declared = len;
          payload = if masked then xor_mask (take 4 (drop header_len buffer)) 0 raw else raw;
        })
        (remove_front end buffer)

unfoldable pub with_length : ℕ → Bool → Bool → Option (ℕ × ℕ) → Text → Next
unfolding cut_frame
with_length opcode fin masked none buffer = wait
with_length opcode fin masked (some (len, header_len)) buffer =
    cut_frame opcode fin masked len header_len buffer

unfoldable pub next_frame : Text → Next
unfolding with_length length_field
next_frame [] = wait
next_frame (b0 ∷ []) = wait
next_frame (b0 ∷ b1 ∷ more) =
    let buffer = b0 ∷ b1 ∷ more in
    with_length (b0 % 16) (b0 / 128 % 2 == 1) (b1 / 128 % 2 == 1) (length_field (b1 % 128) buffer)
      buffer

-- What the loop does with a frame. `send` is a call of `writeFrame`.
pub data Effect : Type 0 where
  text_received : Text → Effect
  failed : Text → Effect
  hang_up : Effect
  send : ℕ → Text → Effect

pub data Outcome : Type 0 where
  -- The loop waits for more bytes, or has met a close frame; with what is left in the buffer.
  drained closed : Text → List Effect → Outcome
  out_of_fuel : Outcome

pub Outcome-cases :
    (o : Outcome)
    → (o ≡ out_of_fuel)
      ⊎ ((rest : Text) × (es : List Effect) × ((o ≡ drained rest es) ⊎ (o ≡ closed rest es)))
Outcome-cases (drained rest es) = inr (rest, es, inl refl)
Outcome-cases (closed rest es) = inr (rest, es, inr refl)
Outcome-cases out_of_fuel = inl refl

unfoldable pub after : List Effect → Outcome → Outcome
after es (drained rest more) = drained rest (es ++ more)
after es (closed rest more) = closed rest (es ++ more)
after es out_of_fuel = out_of_fuel

-- The dispatch on the opcode: its effects, and whether the function returns.
unfoldable pub on_frame : Frame → List Effect × Bool
on_frame f =
    if f.opcode == 1
    then (
      (if f.fin
            then text_received f.payload
            else failed (codes "Fragmented text frames unsupported"))
          ∷ [],
      false,
    )
    else (if f.opcode == 8
        then (hang_up ∷ [], true)
        else (if f.opcode == 9 then (send 10 f.payload ∷ [], false) else ([], false)))

-- The `while` loop of `handleIncoming`.
unfoldable pub incoming : ℕ → Text → Outcome
unfolding next_frame on_frame after
incoming zero buffer = out_of_fuel
incoming (suc fuel) buffer = elim (next_frame buffer) [
  | wait ↦ drained buffer []
  | take_frame f rest ↦ elim (on_frame f).1 [
    | true ↦ closed rest (on_frame f).0
    | false ↦ after (on_frame f).0 (incoming fuel rest)
  ]
]

-- The bytes that `writeFrame` appends for the length: the 7-bit field and what extends it. The mask
-- bit is set in the first of them.
unfoldable pub written_length : ℕ → Text
written_length len =
    if ltb len 126
    then (128 + len) ∷ []
    else (if leb len 0xFFFF
        then 254 ∷ (len / 256 % 256) ∷ (len % 256) ∷ []
        else 255
          ∷ (len / 2 ^ 56 % 256)
          ∷ (len / 2 ^ 48 % 256)
          ∷ (len / 2 ^ 40 % 256)
          ∷ (len / 2 ^ 32 % 256)
          ∷ (len / 2 ^ 24 % 256)
          ∷ (len / 2 ^ 16 % 256)
          ∷ (len / 2 ^ 8 % 256)
          ∷ (len % 256)
          ∷ [])

-- `writeFrame`, on a connected socket, with the four random bytes that it draws.
unfoldable pub write_frame : Text → ℕ → Text → Text
unfolding written_length xor_mask
write_frame mask opcode payload =
    (128 + opcode % 16) ∷ (written_length (length payload) ++ (mask ++ xor_mask mask 0 payload))

-- `handleIncoming(data)` on the buffer that earlier calls left. The loop takes at most one round for
-- each byte, unless a declared length is negative as an int, or overflows one with the header.
unfoldable pub receive : Text → Text → Outcome
unfolding incoming
receive buffer bytes = incoming (suc (length (buffer ++ bytes))) (buffer ++ bytes)
