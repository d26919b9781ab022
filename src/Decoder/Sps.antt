-- ===== src/Decoder/Sps.antt =====
-- `zc_sps_h264_bit_depth` and `zc_sps_hevc_bit_depth` of hw_decode.c.
pub mod Written
use obs_zcamera.Prelude.{ℕ, zero, suc, Bool, List, [], ◌∷◌, Text, ◌==◌, any, if◌then◌else◌}
use obs_zcamera.Prelude.Int.{ℤ, pos, to_int32, add_int}
use obs_zcamera.Decoder.Bits.{BitReader, read, read_ue}

-- A field that is read and not used.
unfoldable pub skip : ℕ → BitReader → BitReader
unfolding read
skip n br = (read n br).1

unfoldable pub skip_ue : BitReader → BitReader
unfolding read_ue
skip_ue br = (read_ue br).1

abbrev pub from_start : Text → BitReader
from_start rbsp = record { bytes = rbsp; pos = 0 }

-- The profiles whose SPS tells the bit depth.
abbrev pub high_profiles : List ℕ
high_profiles = 44 ∷ 83 ∷ 86 ∷ 100 ∷ 110 ∷ 118 ∷ 122 ∷ 128 ∷ 134 ∷ 138 ∷ 139 ∷ 244 ∷ []

abbrev pub is_high : ℕ → Bool
is_high profile = any (λ p. profile == p) high_profiles

-- `8 + (int)bit_depth_luma_minus8`.
abbrev pub depth_of : ℕ → ℤ
depth_of minus8 = add_int 8 (to_int32 minus8)

-- `separate_colour_plane_flag`, which only 4:4:4 has.
abbrev pub skip_plane_flag : ℕ → BitReader → BitReader
skip_plane_flag chroma br = if chroma == 3 then skip 1 br else br

unfoldable pub sps_h264_bit_depth : Text → ℤ
sps_h264_bit_depth rbsp =
    let (profile, level) = read 8 (from_start rbsp) in
    let id = skip 8 (skip 8 level) in
    let (chroma, plane) = read_ue (skip_ue id) in
    let depth = skip_plane_flag chroma plane in
    if is_high profile then depth_of (read_ue depth).0 else pos 8

-- The 88 bits of a profile: 2, 1, 5, 32, four flags and 44 reserved bits.
abbrev pub skip_profile : BitReader → BitReader
skip_profile br =
    skip 44 (skip 1 (skip 1 (skip 1 (skip 1 (skip 32 (skip 5 (skip 1 (skip 2 br))))))))

abbrev pub when_set : ℕ → (BitReader → BitReader) → BitReader → BitReader
when_set flag f br = if flag == 0 then br else f br

-- One round of the loop over the sub-layers.
unfoldable pub skip_sub_layer : BitReader → BitReader
skip_sub_layer br =
    let (profile_present, next) = read 1 (skip 2 br) in
    let (level_present, after) = read 1 next in
    when_set level_present (skip 8) (when_set profile_present skip_profile after)

unfoldable pub skip_sub_layers : ℕ → BitReader → BitReader
unfolding skip_sub_layer
skip_sub_layers zero br = br
skip_sub_layers (suc n) br = skip_sub_layers n (skip_sub_layer br)

-- What follows `profile_tier_level`.
unfoldable pub hevc_tail : BitReader → ℤ
hevc_tail br =
    let (chroma, plane) = read_ue (skip_ue br) in
    let size = skip_plane_flag chroma plane in
    let (window, offsets) = read 1 (skip_ue (skip_ue size)) in
    let depth = when_set window (λ r. skip_ue (skip_ue (skip_ue (skip_ue r)))) offsets in
    depth_of (read_ue depth).0

unfoldable pub sps_hevc_bit_depth : Text → ℤ
unfolding hevc_tail skip_sub_layers
sps_hevc_bit_depth rbsp =
    let (sub_layers, nesting) = read 3 (skip 4 (from_start rbsp)) in
    hevc_tail (skip_sub_layers sub_layers (skip 8 (skip_profile (skip 1 nesting))))
