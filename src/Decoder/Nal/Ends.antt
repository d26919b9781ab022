-- ===== src/Decoder/Nal/Ends.antt =====
-- The loops of `zc_nal_bit_depth` in hw_decode.c on any input.
use obs_zcamera.Prelude.{
  ℕ, zero, suc, ◌+◌, ◌-◌, ◌≤◌, ◌<◌, ◌≡◌, ◌≢◌, ◌⊎◌, refl, true, ◌||◌, Option, none, some, [], ◌∷◌,
  Text, length, ltb, not_ltb→le, ◌==◌, if◌then◌else◌, arith, Bool-cases, Option-cases, inl, inr,
  starts_with, take, drop, length-drop,
}
use obs_zcamera.Prelude.Int.{ℤ, pos}
use obs_zcamera.Decoder.Nal.{
  short_code, long_code, find_from, find_start, Codec, try_sps, try_unit, Pass, returned, passed,
  out_of_fuel, unit_at, annexb_loop, annexb, prefix_of, is_prefixed_sps, prefixed_loop,
  nal_bit_depth,
}

starts_with-length : (s p : Text) → starts_with s p ≡ true → length p ≤ length s
unfolding starts_with
starts_with-length s [] h = omega arith
starts_with-length [] (c ∷ p) h = cc h
starts_with-length (b ∷ s) (c ∷ p) h = ground (arith, starts_with-length s p)

find_from-lt : (i n : ℕ) (s : Text) → find_from i s ≡ some n → (i < n) × (n ≤ i + length s)
unfolding find_from
find_from-lt i n [] e = cc e
find_from-lt i n (b ∷ s) e = elim (Bool-cases (starts_with (b ∷ s) short_code)) [
  | inl short ↦
      let e' : some (i + 3) ≡ some n = rw (short, find_from) at e in
      let n_is : i + 3 ≡ n = cc e' in
      omega (arith, n_is, starts_with-length (b ∷ s) short_code short)
  | inr other ↦ elim (Bool-cases (starts_with (b ∷ s) long_code)) [
    | inl long ↦
        let e' : some (i + 4) ≡ some n = rw (other, long, find_from) at e in
        let n_is : i + 4 ≡ n = cc e' in
        omega (arith, n_is, starts_with-length (b ∷ s) long_code long)
    | inr neither ↦
        let e' : find_from (suc i) s ≡ some n = rw (other, neither, find_from) at e in
        omega (arith, find_from-lt (suc i) n s e')
  ]
]

find_start-lt :
    (input : Text) (start n : ℕ)
    → start ≤ length input
    → find_start input start ≡ some n
    → (start < n) × (n ≤ length input)
unfolding find_start
find_start-lt input start n h e =
    let (after, within) = find_from-lt start n (drop start input) e in
    (after, omega (arith, within, length-drop start input))

annexb_loop-none :
    (fuel : ℕ) (codec : Codec) (input : Text)
    → 0 < fuel
    → annexb_loop fuel codec input none ≢ out_of_fuel
unfolding annexb_loop
annexb_loop-none zero codec input h = absurd (omega arith)
annexb_loop-none (suc fuel) codec input h = λ e. cc e

annexb_loop-ne-out_of_fuel :
    (fuel : ℕ) (codec : Codec) (input : Text) (start : ℕ)
    → start ≤ length input
    → length input - start < fuel
    → annexb_loop fuel codec input (some start) ≢ out_of_fuel
unfolding annexb_loop
annexb_loop-ne-out_of_fuel zero codec input start h k = absurd (omega arith)
annexb_loop-ne-out_of_fuel (suc fuel) codec input start h k =
    elim (Option-cases (find_start input start)) [
      | inl last ↦ elim (Option-cases (try_unit codec (unit_at input start none))) [
        | inl other ↦ rw (last, annexb_loop, other, last) (λ e. cc e)
        | inr (depth, sps) ↦ rw (last, annexb_loop, sps) (λ e. cc e)
      ]
      | inr (off, next) ↦ elim (Option-cases (try_unit codec (unit_at input start (some off)))) [
        | inr (depth, sps) ↦ rw (next, annexb_loop, sps) (λ e. cc e)
        | inl other ↦
            let moved = find_start-lt input start off h next in
            elim (Option-cases (find_start input off)) [
              | inl end ↦
                  rw (next, annexb_loop, other, next, end)
                    (annexb_loop-none fuel codec input (omega (arith, moved)))
              | inr (start', more) ↦
                  let moved' = find_start-lt input off start' moved.1 more in
                  rw (next, annexb_loop, other, next, more)
                    (annexb_loop-ne-out_of_fuel fuel codec input start' moved'.1
                      (omega (arith, moved, moved')))
            ]
      ]
    ]

annexb-ne-out_of_fuel : (codec : Codec) (input : Text) → annexb codec input ≢ out_of_fuel
unfolding annexb
annexb-ne-out_of_fuel codec input = elim (Option-cases (find_start input 0)) [
  | inl nothing ↦ rw nothing (annexb_loop-none (suc (suc (length input))) codec input (omega arith))
  | inr (start, found) ↦
      let moved = find_start-lt input 0 start (omega arith) found in
      rw found (
        annexb_loop-ne-out_of_fuel (suc (suc (length input))) codec input start moved.1
          (omega arith))
]

abbrev prefixed_unit : Codec → ℕ → Text → Option ℤ
prefixed_unit codec n body =
    if is_prefixed_sps codec (take n body) then try_sps codec (take n body) else none

prefixed_loop-ne-out_of_fuel :
    (fuel : ℕ) (codec : Codec) (s : Text)
    → length s < fuel
    → prefixed_loop fuel codec s ≢ out_of_fuel
unfolding prefixed_loop
prefixed_loop-ne-out_of_fuel zero codec s h = absurd (omega arith)
prefixed_loop-ne-out_of_fuel (suc fuel) codec s h = elim (Bool-cases (ltb (length s) 4)) [
  | inl end ↦ rw (end, prefixed_loop) (λ e. cc e)
  | inr more ↦ elim (Bool-cases (prefix_of s == 0 || ltb (length (drop 4 s)) (prefix_of s))) [
    | inl broken ↦ rw (more, prefixed_loop, broken) (λ e. cc e)
    | inr whole ↦ elim (Option-cases (prefixed_unit codec (prefix_of s) (drop 4 s))) [
      | inr (depth, sps) ↦ rw (more, prefixed_loop, whole, sps) (λ e. cc e)
      | inl other ↦
          rw (more, prefixed_loop, whole, other)
            (prefixed_loop-ne-out_of_fuel fuel codec (drop (prefix_of s) (drop 4 s)) (
              omega (
                arith,
                not_ltb→le (length s) 4 more,
                length-drop 4 s,
                length-drop (prefix_of s) (drop 4 s),
              )))
    ]
  ]
]

Pass-cases : (p : Pass) → p ≢ out_of_fuel → ((depth : ℤ) × (p ≡ returned depth)) ⊎ (p ≡ passed)
Pass-cases (returned depth) h = inl (depth, refl)
Pass-cases passed h = inr refl
Pass-cases out_of_fuel h = absurd (h refl)

-- `zc_nal_bit_depth` ends on every access unit, well formed or not: both passes move on in each round.
pub nal_bit_depth-ends :
    (codec : Codec) (input : Text) → (depth : ℤ) × (nal_bit_depth codec input ≡ some depth)
unfolding nal_bit_depth
nal_bit_depth-ends codec input = elim (Bool-cases (ltb (length input) 4)) [
  | inl short ↦ (pos 0, rw short)
  | inr long ↦ elim (Pass-cases (annexb codec input) (annexb-ne-out_of_fuel codec input)) [
    | inl (depth, found) ↦ (depth, rw (long, found))
    | inr on ↦
        elim (Pass-cases (prefixed_loop (suc (length input)) codec input)
          (prefixed_loop-ne-out_of_fuel (suc (length input)) codec input (omega arith))) [
            | inl (depth, found) ↦ (depth, rw (long, on, found))
            | inr end ↦ (pos 0, rw (long, on, end))
          ]
  ]
]
