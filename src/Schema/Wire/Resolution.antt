-- ===== src/Schema/Wire/Resolution.antt =====
-- What `resolutionParams` selects.
use obs_zcamera.Prelude.{
  ℕ, zero, suc, ◌+◌, ◌/◌, ◌%◌, ◌<◌, ◌≡◌, ◌≢◌, refl, sym, ap, ap₂, ◌∙◌, false, Option, some, [], ◌∷◌,
  ◌++◌, Text, codes, index_of, length, drop, decimal, decimal_from, arith, leb, ltb, Bool-cases,
  inl, inr, length-append, drop-length_append, take-length_append, append_assoc, ◌^◌,
}
use obs_zcamera.Prelude.Int.{ℤ, pos}
use obs_zcamera.Schema.Wire.{resolution_params}

-- No digit is the letter x.
abbrev pub NoX : Text → Type 0
NoX [] = Unit
NoX (c ∷ s) = (c ≢ b'x') × NoX s

NoX-append : (s t : Text) → NoX s → NoX t → NoX (s ++ t)
NoX-append [] t h k = k
NoX-append (c ∷ s) t h k = (h.0, NoX-append s t h.1 k)

decimal_from-NoX : (fuel n : ℕ) → NoX (decimal_from fuel n)
unfolding decimal_from
decimal_from-NoX zero n = tt
decimal_from-NoX (suc fuel) n = ground (
  arith,
  NoX-append (decimal_from fuel (n / 10)) ((b'0' + n % 10) ∷ []) (decimal_from-NoX fuel (n / 10)),
)

index_of-NoX : (s rest : Text) → NoX s → index_of b'x' (s ++ b'x' ∷ rest) ≡ some (length s)
unfolding index_of
index_of-NoX [] rest h = refl
index_of-NoX (c ∷ s) rest h = ground (arith, index_of-NoX s rest h.1)

-- A number has at least one digit.
length-decimal : (n : ℕ) → (k : ℕ) × (length (decimal n) ≡ suc k)
unfolding decimal decimal_from
length-decimal n = elim (Bool-cases (ltb n 10)) [
  | inl small ↦ (0, rw small)
  | inr large ↦ (
    length (decimal_from n (n / 10)),
    rw large (omega (arith, length-append (decimal_from n (n / 10)) ((b'0' + n % 10) ∷ []))),
  )
]

decimal-NoX : (n : ℕ) → NoX (decimal n)
unfolding decimal
decimal-NoX n = decimal_from-NoX (suc n) n

drop-length_append_one : (xs : Text) (c : ℕ) (ys : Text) → drop (length xs + 1) (xs ++ c ∷ ys) ≡ ys
drop-length_append_one xs c ys =
    ap₂ drop (sym (length-append xs (c ∷ []))) (sym (append_assoc xs (c ∷ []) ys))
    ∙ drop-length_append (xs ++ c ∷ []) ys

not_leb : (a b : ℕ) → b < a → leb a b ≡ false
not_leb a b h = ground arith

module _ (to_int : Text → Option ℤ)
    (reads : (n : ℕ) → n < 2 ^ 31 → to_int (decimal n) ≡ some (pos n)) where
  -- A resolution of the form WxH selects its width and its height, if both are positive ints; where
  -- `toInt` reads back the decimal digits of every int that is not negative.
  resolution_params-decimal :
      (w h : ℕ)
      → 0 < w
      → 0 < h
      → w < 2 ^ 31
      → h < 2 ^ 31
      → resolution_params to_int (decimal w ++ b'x' ∷ decimal h)
        ≡ (codes "width", decimal w) ∷ (codes "height", decimal h) ∷ []
  unfolding resolution_params
  resolution_params-decimal zero h p q r s = absurd (omega arith)
  resolution_params-decimal (suc w) zero p q r s = absurd (omega arith)
  resolution_params-decimal (suc w) (suc h) p q r s =
      let (k, e) = length-decimal (suc w) in
      let (j, d) = length-decimal (suc h) in
      let width = decimal (suc w) in
      let height = decimal (suc h) in
      let found = index_of-NoX width height (decimal-NoX (suc w)) ∙ ap some e in
      let longer : leb (length (width ++ b'x' ∷ height)) (length width + 1) ≡ false =
        not_leb _ _ (omega (arith, length-append width (b'x' ∷ height), d)) in
      rw (
        found,
        resolution_params,
        ← e,
        longer,
        take-length_append width (b'x' ∷ height),
        drop-length_append_one width b'x' height,
        reads (suc w) r,
        reads (suc h) s,
      )
