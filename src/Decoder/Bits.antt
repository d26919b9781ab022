-- ===== src/Decoder/Bits.antt =====
-- The bit reader of hw_decode.c and its Exp-Golomb codes.
pub mod Stream
pub mod Golomb
use obs_zcamera.Prelude.{
  ℕ, zero, suc, ◌+◌, ◌-◌, ◌*◌, ◌/◌, ◌%◌, ◌^◌, true, false, Option, none, some, Text, length, get_or,
  leb, ◌==◌, if◌then◌else◌,
}

-- `struct zc_bitreader`; `size` is the length of the data.
pub record BitReader : Type 0 where
  pub bytes : Text
  pub pos : ℕ

-- `(byte >> bit) & 1` of the bit at `pos`.
abbrev pub bit_at : Text → ℕ → ℕ
bit_at bytes pos = get_or bytes (pos / 8) 0 / 2 ^ (7 - pos % 8) % 2

-- The loop of `zc_br_read`, with the bits still to be read and the value so far. At the end of the
-- data the whole value is 0.
unfoldable pub read_loop : ℕ → ℕ → BitReader → ℕ × BitReader
read_loop zero v br = (v, br)
read_loop (suc n) v br =
    let rest =
      read_loop n (v * 2 % 2 ^ 64 + bit_at br.bytes br.pos) (record br { pos = suc br.pos }) in
    if leb (length br.bytes) (br.pos / 8) then (0, br) else rest

-- `zc_br_read`.
unfoldable pub read : ℕ → BitReader → ℕ × BitReader
unfolding read_loop
read n br = read_loop n 0 br

-- The loop of `zc_br_ue`: the zeros before the next one bit. `left` counts down from 32 to the
-- test `zeros > 31`, where the code gives up: `none`.
unfoldable pub leading_zeros : ℕ → ℕ → BitReader → Option ℕ × BitReader
leading_zeros zero count br = (none, br)
leading_zeros (suc left) count br =
    let (bit, next) = read 1 br in
    elim (bit == 0) [ true ↦ leading_zeros left (suc count) next | false ↦ (some count, next) ]

-- `(1 << zeros) - 1 + zc_br_read(br, zeros)`, and 0 without a code.
unfoldable pub code_value : Option ℕ → BitReader → ℕ × BitReader
code_value none br = (0, br)
code_value (some zero) br = (0, br)
code_value (some (suc z)) br = let (v, next) = read (suc z) br in (2 ^ suc z - 1 + v, next)

-- `zc_br_ue`.
unfoldable pub read_ue : BitReader → ℕ × BitReader
read_ue br = let (count, next) = leading_zeros 32 0 br in code_value count next
