-- ===== src/Decoder/Bits/Golomb.antt =====
-- The Exp-Golomb codes ue(v) of H.264 and H.265, written from the standards, and their reading by
-- `zc_br_ue` of hw_decode.c.
use native.Mathlib.Nat.{pow-suc, one-le-pow}
use obs_zcamera.Prelude.{
  ℕ, zero, suc, ◌+◌, ◌-◌, ◌*◌, ◌/◌, ◌%◌, ◌^◌, ◌≤◌, ◌<◌, ◌≡◌, ◌≢◌, refl, subst, sym, ap, ◌∙◌, some,
  List, [], ◌∷◌, ◌++◌, append_assoc, length, drop, ◌==◌, if◌then◌else◌, arith, Bool-cases, inl, inr,
  replicate, length-append,
}
use obs_zcamera.Decoder.Bits.{BitReader, read_loop, read, leading_zeros, code_value, read_ue}
use obs_zcamera.Decoder.Bits.Stream.{unread, read_bits, Agrees, read_loop-Agrees}

abbrev pub AllBits : List ℕ → Type 0
AllBits [] = Unit
AllBits (b ∷ bs) = (b < 2) × AllBits bs

-- The number that bits write behind the bits of `v`.
abbrev pub value_of : ℕ → List ℕ → ℕ
value_of v [] = v
value_of v (b ∷ bs) = value_of (v * 2 + b) bs

value_of-split : (v : ℕ) (bs : List ℕ) → value_of v bs ≡ v * 2 ^ length bs + value_of 0 bs
value_of-split v [] = omega arith
value_of-split v (b ∷ bs) =
    grind (arith, value_of-split (v * 2 + b) bs, value_of-split b bs, pow-suc 2 (length bs))

value_of-lt : (bs : List ℕ) → AllBits bs → value_of 0 bs < 2 ^ length bs
value_of-lt [] h = omega arith
value_of-lt (b ∷ bs) h =
    grind (arith, value_of-split b bs, value_of-lt bs h.1, pow-suc 2 (length bs))

value_of-le : (v : ℕ) (bs : List ℕ) → v ≤ value_of v bs
value_of-le v [] = omega arith
value_of-le v (b ∷ bs) = omega (arith, value_of-le (v * 2 + b) bs)

-- Up to 64 bits are read as the number that they write.
read_bits-append :
    (bs rest : List ℕ) (v : ℕ)
    → AllBits bs
    → value_of v bs < 2 ^ 64
    → read_bits (length bs) v (bs ++ rest) ≡ (value_of v bs, rest)
read_bits-append [] rest v h fits = refl
read_bits-append (b ∷ bs) rest v h fits =
    let small : v * 2 % 2 ^ 64 ≡ v * 2 = omega (arith, value_of-le (v * 2 + b) bs) in
    rw small (read_bits-append bs rest (v * 2 + b) h.1 fits)

-- The reader reads a field: the number of the bits, and what follows them.
pub read-field :
    (bs rest : List ℕ) (br : BitReader)
    → AllBits bs
    → value_of 0 bs < 2 ^ 64
    → unread br ≡ bs ++ rest
    → Agrees (read (length bs) br) (value_of 0 bs, rest)
unfolding read
read-field bs rest br h fits e =
    subst (Agrees (read_loop (length bs) 0 br)) (read_bits-append bs rest 0 h fits) (
      subst (λ l. Agrees (read_loop (length bs) 0 br) (read_bits (length bs) 0 l)) e
        (read_loop-Agrees (length bs) 0 br))

-- The binary digits of a number below 2 ^ fuel, the highest first; none for 0.
abbrev pub digits : ℕ → ℕ → List ℕ
digits zero n = []
digits (suc fuel) n =
    let front = digits fuel (n / 2) in if n == 0 then [] else front ++ (n % 2) ∷ []

pub value_of-snoc : (v b : ℕ) (bs : List ℕ) → value_of v (bs ++ b ∷ []) ≡ value_of v bs * 2 + b
value_of-snoc v b [] = refl
value_of-snoc v b (c ∷ bs) = value_of-snoc (v * 2 + c) b bs

value_of-digits : (fuel n : ℕ) → n < 2 ^ fuel → value_of 0 (digits fuel n) ≡ n
value_of-digits zero n h = omega arith
value_of-digits (suc fuel) n h = ground (
  arith,
  value_of-snoc 0 (n % 2) (digits fuel (n / 2)),
  value_of-digits fuel (n / 2) (omega (arith, pow-suc 2 fuel)),
)

pub AllBits-snoc : (bs : List ℕ) (b : ℕ) → AllBits bs → b < 2 → AllBits (bs ++ b ∷ [])
AllBits-snoc [] b h k = (k, tt)
AllBits-snoc (c ∷ bs) b h k = (h.0, AllBits-snoc bs b h.1 k)

digits-AllBits : (fuel n : ℕ) → AllBits (digits fuel n)
digits-AllBits zero n = tt
digits-AllBits (suc fuel) n =
    ground (
      arith,
      AllBits-snoc (digits fuel (n / 2)) (n % 2) (digits-AllBits fuel (n / 2)) (omega arith),
    )

length-digits : (fuel n : ℕ) → length (digits fuel n) ≤ fuel
length-digits zero n = omega arith
length-digits (suc fuel) n =
    ground (arith, length-digits fuel (n / 2), length-append (digits fuel (n / 2)) ((n % 2) ∷ []))

digits-zero : (fuel : ℕ) → digits fuel 0 ≡ []
digits-zero zero = refl
digits-zero (suc fuel) = refl

-- The first digit of a number that is not 0 is 1.
digits-one : (fuel n : ℕ) → n < 2 ^ fuel → n ≢ 0 → (tail : List ℕ) × (digits fuel n ≡ 1 ∷ tail)
digits-one zero n h k = absurd (omega arith)
digits-one (suc fuel) n h k = elim (Bool-cases (n / 2 == 0)) [
  | inl last ↦ ([], ground (arith, digits-zero fuel, last))
  | inr more ↦
      let (tail, e) = digits-one fuel (n / 2) (omega (arith, pow-suc 2 fuel)) (ground arith) in
      (tail ++ (n % 2) ∷ [], ground (arith, e))
]

-- ue(v) of the standards: the digits of v + 1, behind one zero less than there are digits.
abbrev pub ue_code : ℕ → List ℕ
ue_code v = replicate (length (drop 1 (digits 32 (suc v)))) 0 ++ digits 32 (suc v)

leading_zeros-replicate :
    (left count k : ℕ) (rest : List ℕ) (br : BitReader)
    → k < left
    → unread br ≡ replicate k 0 ++ 1 ∷ rest
    → Agrees (leading_zeros left count br) (some (count + k), rest)
unfolding leading_zeros
leading_zeros-replicate zero count k rest br h e = absurd (omega arith)
leading_zeros-replicate (suc left) count zero rest br h e =
    let (bit, left_over) = read-field (1 ∷ []) rest br (omega arith, tt) (omega arith) e in
    let one : (read 1 br).0 ≡ 1 = bit in rw (one, leading_zeros) (ap some (omega arith), left_over)
leading_zeros-replicate (suc left) count (suc k) rest br h e =
    let (bit, left_over) =
      read-field (0 ∷ []) (replicate k 0 ++ 1 ∷ rest) br (omega arith, tt) (omega arith) e in
    let (found, more) =
      leading_zeros-replicate left (suc count) k rest (read 1 br).1 (omega arith) left_over in
    let zero_bit : (read 1 br).0 ≡ 0 = bit in
    rw (zero_bit, leading_zeros) (found ∙ ap some (omega arith), more)

code_value-field :
    (tail rest : List ℕ) (br : BitReader)
    → AllBits tail
    → value_of 0 tail < 2 ^ 64
    → unread br ≡ tail ++ rest
    → Agrees (code_value (some (length tail)) br) (2 ^ length tail - 1 + value_of 0 tail, rest)
unfolding code_value
code_value-field [] rest br h fits e = (refl, e)
code_value-field (b ∷ tail) rest br h fits e =
    let (value, left_over) = read-field (b ∷ tail) rest br h fits e in
    (ap (λ (k : ℕ). 2 ^ suc (length tail) - 1 + k) value, left_over)

read_ue-digits :
    (v : ℕ) (tail rest : List ℕ) (br : BitReader)
    → v < 2 ^ 32 - 1
    → digits 32 (suc v) ≡ 1 ∷ tail
    → unread br ≡ ue_code v ++ rest
    → Agrees (read_ue br) (v, rest)
unfolding read_ue
read_ue-digits v tail rest br h code e =
    let whole : value_of 1 tail ≡ suc v =
      ap (value_of 0) (sym code) ∙ value_of-digits 32 (suc v) (omega arith) in
    let short : length (1 ∷ tail) ≤ 32 = rw code at (length-digits 32 (suc v)) in
    let all : AllBits (1 ∷ tail) = rw code at (digits-AllBits 32 (suc v)) in
    let shape : unread br ≡ replicate (length tail) 0 ++ 1 ∷ (tail ++ rest) =
      e
      ∙ ap (λ (ds : List ℕ). (replicate (length (drop 1 ds)) 0 ++ ds) ++ rest) code
      ∙ append_assoc (replicate (length tail) 0) (1 ∷ tail) rest in
    let (count, next) =
      leading_zeros-replicate 32 0 (length tail) (tail ++ rest) br (omega (arith, short)) shape in
    let exact : (leading_zeros 32 0 br).0 ≡ some (length tail) = count ∙ ap some (omega arith) in
    let (value, left_over) =
      code_value-field tail rest (leading_zeros 32 0 br).1 all.1
        (omega (arith, value_of-split 1 tail, whole)) next in
    rw exact
      (value ∙ omega (arith, value_of-split 1 tail, whole, one-le-pow (length tail) 2), left_over)

-- `zc_br_ue` reads back every number up to 2^32 - 2 from its Exp-Golomb code, and stops right
-- behind the code.
pub read_ue-ue_code :
    (v : ℕ) (rest : List ℕ) (br : BitReader)
    → v < 2 ^ 32 - 1
    → unread br ≡ ue_code v ++ rest
    → Agrees (read_ue br) (v, rest)
read_ue-ue_code v rest br h e =
    let (tail, code) = digits-one 32 (suc v) (omega arith) (λ z. cc z) in
    read_ue-digits v tail rest br h code e
