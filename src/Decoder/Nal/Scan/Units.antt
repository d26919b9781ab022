-- ===== src/Decoder/Nal/Scan/Units.antt =====
-- Which units of an access unit `zc_nal_bit_depth` of hw_decode.c looks at.
use obs_zcamera.Prelude.{
  ℕ, zero, suc, ◌+◌, ◌-◌, ◌≤◌, ◌<◌, ◌≡◌, ◌≢◌, refl, sym, ap, ap₂, ◌∙◌, true, false, Option, none,
  some, [], ◌∷◌, ◌++◌, append_assoc, append-nil, Text, length, leb, ltb, le→not_ltb, arith,
  starts_with, take, drop, get_or, is_empty, drop-length_append, length-append,
}
use obs_zcamera.Prelude.Int.{ℤ}
use obs_zcamera.Decoder.Nal.{
  long_code, find_from, find_start, Codec, h264, hevc, header_length, is_sps, sps_bit_depth,
  try_sps, try_unit, returned, passed, unit_at, annexb_loop, annexb, nal_bit_depth,
}
use obs_zcamera.Decoder.Nal.Escape.{escape, to_rbsp-escape}
use obs_zcamera.Decoder.Nal.Scan.{
  Finds, find_from-nonzero, find_from-escape, ends_with_nothing, ends_with_code,
}

abbrev pub AllNonzero : Text → Type 0
AllNonzero [] = Unit
AllNonzero (b ∷ s) = (b ≢ 0) × AllNonzero s

-- The header of a unit: one byte of H.264 or two of H.265, none of which is 0 in the units that a
-- camera sends.
abbrev pub IsHeader : Codec → Text → Type 0
IsHeader codec header = (length header ≡ header_length codec) × AllNonzero header

-- A unit as the standards write it.
abbrev pub unit : Text → Text → Text
unit header payload = header ++ escape 0 payload

find_from-header :
    (header s : Text) (i : ℕ)
    → AllNonzero header
    → find_from i (header ++ s) ≡ find_from (i + length header) s
find_from-header [] s i h = ap (λ (k : ℕ). find_from k s) (omega arith)
find_from-header (b ∷ header) s i h =
    let shifted : suc i + length header ≡ i + length (b ∷ header) = omega arith in
    find_from-nonzero i b (header ++ s) h.0
    ∙ find_from-header header s (suc i) h.1
    ∙ ap (λ (k : ℕ). find_from k s) shifted

find_from-unit :
    (codec : Codec) (header payload tail : Text) (found : ℕ → Option ℕ) (i : ℕ)
    → IsHeader codec header
    → Finds tail found
    → find_from i (unit header payload ++ tail) ≡ found (i + length (unit header payload))
find_from-unit codec header payload tail found i h ends =
    ap (find_from i) (append_assoc header (escape 0 payload) tail)
    ∙ find_from-header header (escape 0 payload ++ tail) i h.1
    ∙ find_from-escape tail found ends 0 (i + length header) payload (omega arith)
    ∙ ap found (omega (arith, length-append header (escape 0 payload)))

find_from-last_unit :
    (codec : Codec) (header payload : Text) (i : ℕ)
    → IsHeader codec header
    → find_from i (unit header payload) ≡ none
find_from-last_unit codec header payload i h =
    ap (find_from i) (sym (append-nil (unit header payload)))
    ∙ find_from-unit codec header payload [] (λ k. none) i h ends_with_nothing

find_start-long_code : (s : Text) → find_start (long_code ++ s) 0 ≡ some 4
unfolding find_start find_from starts_with
find_start-long_code s = refl

drop-header :
    (codec : Codec) (header payload : Text)
    → IsHeader codec header
    → drop (header_length codec) (unit header payload) ≡ escape 0 payload
drop-header codec header payload h =
    ap (λ (n : ℕ). drop n (unit header payload)) (sym h.0)
    ∙ drop-length_append header (escape 0 payload)

first-unit :
    (codec : Codec) (header payload more : Text)
    → IsHeader codec header
    → get_or (unit header payload ++ more) 0 0 ≡ get_or header 0 0
first-unit h264 [] payload more h = cc (h.0)
first-unit hevc [] payload more h = cc (h.0)
first-unit codec (b ∷ header) payload more h = refl

length-escape-pos : (payload : Text) → is_empty payload ≡ false → 0 < length (escape 0 payload)
length-escape-pos [] e = cc e
length-escape-pos (b ∷ s) e = omega arith

-- The SPS of a unit is read out of it.
try_unit-sps :
    (codec : Codec) (header rbsp : Text)
    → IsHeader codec header
    → is_sps codec (get_or header 0 0) ≡ true
    → is_empty rbsp ≡ false
    → length (escape 0 rbsp) ≤ 2048
    → try_unit codec (unit header rbsp) ≡ some (sps_bit_depth codec rbsp)
unfolding try_unit try_sps
try_unit-sps codec header rbsp h sps some_bytes short =
    let size = length-append header (escape 0 rbsp) in
    let pos_size = length-escape-pos rbsp some_bytes in
    let has_header : leb (header_length codec) (length (unit header rbsp)) ≡ true =
      ground (arith, h.0, size) in
    let first : get_or (unit header rbsp) 0 0 ≡ get_or header 0 0 =
      ap (λ s. get_or s 0 0) (sym (append-nil (unit header rbsp)))
      ∙ first-unit codec header rbsp [] h in
    let has_more : leb (length (unit header rbsp)) (header_length codec) ≡ false =
      ground (arith, h.0, size, pos_size) in
    let fits : ltb 2048 (length (escape 0 rbsp)) ≡ false = le→not_ltb 2048 _ short in
    rw (
      has_header,
      first,
      sps,
      drop-header codec header rbsp h,
      has_more,
      fits,
      to_rbsp-escape rbsp,
      some_bytes,
    )

-- A unit of another type is passed over.
try_unit-other :
    (codec : Codec) (nal : Text) → is_sps codec (get_or nal 0 0) ≡ false → try_unit codec nal ≡ none
unfolding try_unit
try_unit-other codec nal other = ground arith

annexb_loop-returned :
    (fuel : ℕ) (codec : Codec) (input : Text) (start : ℕ) (next : Option ℕ) (depth : ℤ)
    → find_start input start ≡ next
    → try_unit codec (unit_at input start next) ≡ some depth
    → annexb_loop (suc fuel) codec input (some start) ≡ returned depth
unfolding annexb_loop
annexb_loop-returned fuel codec input start next depth e t = rw (e, annexb_loop, t)

annexb_loop-goes :
    (fuel : ℕ) (codec : Codec) (input : Text) (start off : ℕ)
    → find_start input start ≡ some off
    → try_unit codec (unit_at input start (some off)) ≡ none
    → annexb_loop (suc fuel) codec input (some start)
      ≡ annexb_loop fuel codec input (find_start input off)
unfolding annexb_loop
annexb_loop-goes fuel codec input start off e t = rw (e, annexb_loop, t, e)

annexb-unit :
    (codec : Codec) (header rbsp : Text)
    → IsHeader codec header
    → is_sps codec (get_or header 0 0) ≡ true
    → is_empty rbsp ≡ false
    → length (escape 0 rbsp) ≤ 2048
    → annexb codec (long_code ++ unit header rbsp) ≡ returned (sps_bit_depth codec rbsp)
unfolding annexb
annexb-unit codec header rbsp h sps some_bytes short =
    let nal = unit header rbsp in
    let input = long_code ++ nal in
    let last : find_start input 4 ≡ none =
      unfold find_start in find_from-last_unit codec header rbsp 4 h in
    rw (find_start-long_code nal) (
      annexb_loop-returned (suc (length input)) codec input 4 none (sps_bit_depth codec rbsp) last
        (try_unit-sps codec header rbsp h sps some_bytes short))

-- A packet of one start code and one unit, an SPS: the bit depth that is reported is the one that the
-- parameter set tells before its escape bytes were put in, for both codecs. The SPS has at least one
-- and, escaped, at most 2048 bytes, and no byte of the unit's header is 0.
pub nal_bit_depth-unit :
    (codec : Codec) (header rbsp : Text)
    → IsHeader codec header
    → is_sps codec (get_or header 0 0) ≡ true
    → is_empty rbsp ≡ false
    → length (escape 0 rbsp) ≤ 2048
    → nal_bit_depth codec (long_code ++ unit header rbsp) ≡ some (sps_bit_depth codec rbsp)
unfolding nal_bit_depth
nal_bit_depth-unit codec header rbsp h sps some_bytes short =
    let long : ltb (length (long_code ++ unit header rbsp)) 4 ≡ false =
      le→not_ltb _ _ (omega arith) in
    rw (long, annexb-unit codec header rbsp h sps some_bytes short)

annexb_loop-passed :
    (fuel : ℕ) (codec : Codec) (input : Text) → annexb_loop (suc fuel) codec input none ≡ passed
unfolding annexb_loop
annexb_loop-passed fuel codec input = refl

first-take : (n : ℕ) (s : Text) → 0 < n → get_or (take n s) 0 0 ≡ get_or s 0 0
first-take zero s h = absurd (omega arith)
first-take (suc n) [] h = refl
first-take (suc n) (b ∷ s) h = refl

drop-two_units :
    (nal second : Text)
    → drop (4 + length nal + 4) (long_code ++ (nal ++ (long_code ++ second))) ≡ second
drop-two_units nal second =
    let size : length ((long_code ++ nal) ++ long_code) ≡ 4 + length nal + 4 =
      omega (arith, length-append nal long_code) in
    ap₂ drop (sym size) (
      sym (
        append_assoc (long_code ++ nal) long_code second
        ∙ append_assoc long_code nal (long_code ++ second)))
    ∙ drop-length_append ((long_code ++ nal) ++ long_code) second

-- The pass over the start codes does not look at the second of two units, whatever it is: behind a
-- first unit that is no SPS, and with no third one, it ends without a result.
pub annexb-second_unit :
    (codec : Codec) (header payload header' payload' : Text)
    → IsHeader codec header
    → IsHeader codec header'
    → is_sps codec (get_or header 0 0) ≡ false
    → annexb codec (long_code ++ (unit header payload ++ (long_code ++ unit header' payload')))
      ≡ passed
unfolding annexb
annexb-second_unit codec header payload header' payload' h h' other =
    let nal = unit header payload in
    let second = unit header' payload' in
    let input = long_code ++ (nal ++ (long_code ++ second)) in
    let off = 4 + length nal + 4 in
    let next : find_start input 4 ≡ some off =
      unfold find_start in
      find_from-unit codec header payload (long_code ++ second) (λ k. some (k + 4)) 4 h
        (ends_with_code second) in
    let first : get_or (take (off - 4) (nal ++ (long_code ++ second))) 0 0 ≡ get_or header 0 0 =
      first-take (off - 4) _ (omega arith)
      ∙ first-unit codec header payload (long_code ++ second) h in
    let passed_over =
      try_unit-other codec (take (off - 4) (nal ++ (long_code ++ second))) (rw first other) in
    let last : find_start input off ≡ none =
      unfold find_start in
      ap (find_from off) (drop-two_units nal second)
      ∙ find_from-last_unit codec header' payload' off h' in
    rw find_start-long_code (
      annexb_loop-goes (suc (length input)) codec input 4 off next passed_over
      ∙ ap (annexb_loop (suc (length input)) codec input) last
      ∙ annexb_loop-passed (length input) codec input)
