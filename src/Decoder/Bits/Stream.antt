-- ===== src/Decoder/Bits/Stream.antt =====
-- The bit reader of hw_decode.c as a reader of a list of bits.
use obs_zcamera.Prelude.{
  ℕ, zero, suc, ◌+◌, ◌*◌, ◌/◌, ◌%◌, ◌^◌, ◌≡◌, refl, List, [], ◌∷◌, Text, length, drop, leb,
  if◌then◌else◌, arith, Bool-cases, inl, inr,
}
use obs_zcamera.Decoder.Bits.{BitReader, bit_at, read_loop}

-- The bits of a byte and of a buffer, the highest first.
abbrev pub byte_bits : ℕ → List ℕ → List ℕ
byte_bits b rest =
    (b / 128 % 2)
    ∷ (b / 64 % 2)
    ∷ (b / 32 % 2)
    ∷ (b / 16 % 2)
    ∷ (b / 8 % 2)
    ∷ (b / 4 % 2)
    ∷ (b / 2 % 2)
    ∷ (b % 2)
    ∷ rest

abbrev pub bits : Text → List ℕ
bits [] = []
bits (b ∷ bs) = byte_bits b (bits bs)

-- What the reader has not read.
abbrev pub unread : BitReader → List ℕ
unread br = drop br.pos (bits br.bytes)

leb-suc : (a b : ℕ) → leb (suc a) (suc b) ≡ leb a b
leb-suc a b = ground arith

-- At the end of the data no bit is left; before it the bit at the position is the next.
drop-bits :
    (bytes : Text) (pos : ℕ)
    → drop pos (bits bytes) ≡ (
        if leb (length bytes) (pos / 8) then [] else bit_at bytes pos ∷ drop (suc pos) (bits bytes))
drop-bits [] zero = refl
drop-bits [] (suc pos) = ground arith
drop-bits (b ∷ bs) (suc (suc (suc (suc (suc (suc (suc (suc pos)))))))) =
    let byte : suc (suc (suc (suc (suc (suc (suc (suc pos))))))) / 8 ≡ suc (pos / 8) =
      omega arith in
    let bit : suc (suc (suc (suc (suc (suc (suc (suc pos))))))) % 8 ≡ pos % 8 = omega arith in
    rw (byte, bit, leb-suc (length bs) (pos / 8)) (drop-bits bs pos)
drop-bits (b ∷ bs) pos = ground arith

-- Reading `n` bits off a list of bits, with the value so far.
abbrev pub read_bits : ℕ → ℕ → List ℕ → ℕ × List ℕ
read_bits zero v bs = (v, bs)
read_bits (suc n) v [] = (0, [])
read_bits (suc n) v (b ∷ bs) = read_bits n (v * 2 % 2 ^ 64 + b) bs

-- A result of the reader agrees with one on the list of bits: the same value and the same bits left.
abbrev pub Agrees : {A : Type 0} → A × BitReader → A × List ℕ → Type 0
Agrees out spec = (out.0 ≡ spec.0) × (unread out.1 ≡ spec.1)

pub read_loop-Agrees :
    (n v : ℕ) (br : BitReader) → Agrees (read_loop n v br) (read_bits n v (unread br))
unfolding read_loop
read_loop-Agrees zero v br = (refl, refl)
read_loop-Agrees (suc n) v br = elim (Bool-cases (leb (length br.bytes) (br.pos / 8))) [
  | inl ended ↦
      let empty = rw ended at (drop-bits br.bytes br.pos) in rw (ended, empty) (refl, refl)
  | inr more ↦
      let front = rw more at (drop-bits br.bytes br.pos) in
      rw (more, front)
        (read_loop-Agrees n (v * 2 % 2 ^ 64 + bit_at br.bytes br.pos)
          (record br { pos = suc br.pos }))
]
