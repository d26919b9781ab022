-- ===== src/Decoder/Nal.antt =====
-- The NAL units of hw_decode.c: `zc_nal_find_start`, `zc_nal_to_rbsp` and `zc_nal_bit_depth`.
pub mod Escape
pub mod Scan
pub mod Ends
use obs_zcamera.Prelude.{
  ℕ, zero, suc, ◌+◌, ◌-◌, ◌*◌, ◌/◌, ◌%◌, ◌^◌, Bool, true, false, ◌&&◌, ◌||◌, Option, none, some,
  List, [], ◌∷◌, Text, length, take, drop, get_or, is_empty, starts_with, ltb, leb, ◌==◌,
  if◌then◌else◌,
}
use obs_zcamera.Prelude.Int.{ℤ, pos}
use obs_zcamera.Decoder.Sps.{sps_h264_bit_depth, sps_hevc_bit_depth}

abbrev pub short_code : Text
short_code = 0 ∷ 0 ∷ 1 ∷ []

abbrev pub long_code : Text
long_code = 0 ∷ 0 ∷ 0 ∷ 1 ∷ []

-- The loop of `zc_nal_find_start`, from the offset `i` on, which the text starts at: the offset of
-- the payload behind the next start code, or `none` for SIZE_MAX.
unfoldable pub find_from : ℕ → Text → Option ℕ
unfolding starts_with
find_from i [] = none
find_from i (b ∷ s) =
    let rest = find_from (suc i) s in
    if starts_with (b ∷ s) short_code
    then some (i + 3)
    else (if starts_with (b ∷ s) long_code then some (i + 4) else rest)

-- `zc_nal_find_start`.
unfoldable pub find_start : Text → ℕ → Option ℕ
unfolding find_from
find_start input offset = find_from offset (drop offset input)

-- `zc_nal_to_rbsp`.
abbrev pub is_escape : ℕ → ℕ → ℕ → Bool
is_escape a b c = a == 0 && b == 0 && c == 3

unfoldable pub to_rbsp : Text → Text
to_rbsp [] = []
to_rbsp (a ∷ []) = a ∷ []
to_rbsp (a ∷ b ∷ []) = a ∷ b ∷ []
to_rbsp (a ∷ b ∷ c ∷ s) = elim (is_escape a b c) [
  | true ↦ 0 ∷ 0 ∷ to_rbsp s
  | false ↦ a ∷ to_rbsp (b ∷ c ∷ s)
]

-- `zc_codec_id`, as `zc_nal_bit_depth` uses it.
pub data Codec : Type 0 where
  h264 hevc : Codec

abbrev pub header_length : Codec → ℕ
header_length h264 = 1
header_length hevc = 2

-- `nal_type == sps_type`, of the first byte of a unit.
abbrev pub is_sps : Codec → ℕ → Bool
is_sps h264 byte = byte % 32 == 7
is_sps hevc byte = byte / 2 % 64 == 33

abbrev pub sps_bit_depth : Codec → Text → ℤ
sps_bit_depth h264 rbsp = sps_h264_bit_depth rbsp
sps_bit_depth hevc rbsp = sps_hevc_bit_depth rbsp

-- `ZC_TRY_SPS`: the function's result, or `none` where it goes on.
unfoldable pub try_sps : Codec → Text → Option ℤ
unfolding to_rbsp
try_sps codec nal =
    let payload = drop (header_length codec) nal in
    if leb (length nal) (header_length codec) || ltb 2048 (length payload)
    then none
    else (if is_empty (to_rbsp payload) then none else some (sps_bit_depth codec (to_rbsp payload)))

-- One unit of the Annex-B pass.
unfoldable pub try_unit : Codec → Text → Option ℤ
unfolding try_sps
try_unit codec nal =
    if leb (header_length codec) (length nal) && is_sps codec (get_or nal 0 0)
    then try_sps codec nal
    else none

-- How a pass over the units ends: the function returns, or it goes on behind the pass.
pub data Pass : Type 0 where
  returned : ℤ → Pass
  passed out_of_fuel : Pass

-- `nal_end` and `off` of a round.
abbrev pub unit_at : Text → ℕ → Option ℕ → Text
unit_at input start none = drop start input
unit_at input start (some next) = take (next - start) (drop start input)

-- The loop of the Annex-B pass, from the start of a unit.
unfoldable pub annexb_loop : ℕ → Codec → Text → Option ℕ → Pass
unfolding find_start try_unit
annexb_loop zero codec input start = out_of_fuel
annexb_loop (suc fuel) codec input none = passed
annexb_loop (suc fuel) codec input (some start) =
    let next = find_start input start in
    elim (try_unit codec (unit_at input start next)) [
      | some depth ↦ returned depth
      | none ↦ elim next [
        | none ↦ passed
        | some off ↦ annexb_loop fuel codec input (find_start input off)
      ]
    ]

-- The Annex-B pass. Each round moves on, so a round for each byte and two more are enough.
unfoldable pub annexb : Codec → Text → Pass
unfolding annexb_loop
annexb codec input = annexb_loop (suc (suc (length input))) codec input (find_start input 0)

-- The 4 bytes of a length.
abbrev pub prefix_of : Text → ℕ
prefix_of s = get_or s 0 0 * 2 ^ 24 + get_or s 1 0 * 2 ^ 16 + get_or s 2 0 * 2 ^ 8 + get_or s 3 0

-- The type of a length-prefixed unit, which for HEVC is read as an H.264 one where it has one byte.
abbrev pub is_prefixed_sps : Codec → Text → Bool
is_prefixed_sps h264 nal = is_sps h264 (get_or nal 0 0)
is_prefixed_sps hevc nal =
    if leb 2 (length nal) then is_sps hevc (get_or nal 0 0) else get_or nal 0 0 % 32 == 33

-- The loop of the length-prefixed pass, on what is left of the data.
unfoldable pub prefixed_loop : ℕ → Codec → Text → Pass
unfolding try_sps
prefixed_loop zero codec s = out_of_fuel
prefixed_loop (suc fuel) codec s = elim (ltb (length s) 4) [
  | true ↦ passed
  | false ↦
      let body = drop 4 s in
      let n = prefix_of s in
      elim (n == 0 || ltb (length body) n) [
        | true ↦ returned (pos 0)
        | false ↦
            elim (if is_prefixed_sps codec (take n body)
              then try_sps codec (take n body)
              else none) [
                | some depth ↦ returned depth
                | none ↦ prefixed_loop fuel codec (drop n body)
              ]
      ]
]

abbrev pub or_zero : Pass → Option ℤ
or_zero (returned depth) = some depth
or_zero passed = some (pos 0)
or_zero out_of_fuel = none

-- `zc_nal_bit_depth`; `none` if the fuel were not enough.
unfoldable pub nal_bit_depth : Codec → Text → Option ℤ
unfolding annexb prefixed_loop
nal_bit_depth codec input =
    if ltb (length input) 4 then some (pos 0) else elim (annexb codec input) [
      | returned depth ↦ some depth
      | passed ↦ or_zero (prefixed_loop (suc (length input)) codec input)
      | out_of_fuel ↦ none
    ]
