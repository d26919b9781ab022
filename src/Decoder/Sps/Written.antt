-- ===== src/Decoder/Sps/Written.antt =====
-- The sequence parameter sets of H.264 and H.265 up to the luma bit depth, written from the standards
-- and not from the source, and their reading by hw_decode.c.
use native.Mathlib.Nat.{pow-suc}
use obs_zcamera.Prelude.{
  ℕ, zero, suc, ◌+◌, ◌-◌, ◌*◌, ◌/◌, ◌%◌, ◌^◌, ◌<◌, ◌≡◌, refl, sym, ap, ap₂, ◌∙◌, subst, true,
  Option, none, some, List, [], ◌∷◌, ◌++◌, Text, length, drop, ◌==◌, if◌then◌else◌, arith,
  Bool-cases, inl, inr, length-append, drop-length_append,
}
use obs_zcamera.Prelude.Int.{pos, to_int32, add_int}
use obs_zcamera.Decoder.Bits.{BitReader, read, read_ue}
use obs_zcamera.Decoder.Bits.Stream.{bits, unread, read_bits, Agrees, read_loop-Agrees}
use obs_zcamera.Decoder.Bits.Golomb.{
  AllBits, AllBits-snoc, value_of, value_of-snoc, read-field, ue_code, read_ue-ue_code,
}
use obs_zcamera.Decoder.Sps.{
  skip, skip_ue, from_start, is_high, depth_of, skip_plane_flag, sps_h264_bit_depth, skip_profile,
  when_set, hevc_tail, sps_hevc_bit_depth,
}

-- u(n): a number in so many bits, the highest first.
abbrev pub field : ℕ → ℕ → List ℕ
field zero v = []
field (suc n) v = field n (v / 2) ++ (v % 2) ∷ []

length-field : (n v : ℕ) → length (field n v) ≡ n
length-field zero v = refl
length-field (suc n) v =
    omega (arith, length-field n (v / 2), length-append (field n (v / 2)) ((v % 2) ∷ []))

field-AllBits : (n v : ℕ) → AllBits (field n v)
field-AllBits zero v = tt
field-AllBits (suc n) v =
    AllBits-snoc (field n (v / 2)) (v % 2) (field-AllBits n (v / 2)) (omega arith)

value_of-field : (n v : ℕ) → v < 2 ^ n → value_of 0 (field n v) ≡ v
value_of-field zero v h = omega arith
value_of-field (suc n) v h = omega (
  arith,
  value_of-snoc 0 (v % 2) (field n (v / 2)),
  value_of-field n (v / 2) (omega (arith, pow-suc 2 n)),
)

-- A field is read as its number.
read-u :
    (n v : ℕ) (rest : List ℕ) (br : BitReader)
    → v < 2 ^ n
    → v < 2 ^ 64
    → unread br ≡ field n v ++ rest
    → Agrees (read n br) (v, rest)
read-u n v rest br h fits e =
    subst (λ w. Agrees (read n br) (w, rest)) (value_of-field n v h)
      (subst (λ k. Agrees (read k br) (value_of 0 (field n v), rest)) (length-field n v)
        (read-field (field n v) rest br (field-AllBits n v) (rw (value_of-field n v h) fits) e))

drop-read_bits : (n v : ℕ) (bs : List ℕ) → (read_bits n v bs).1 ≡ drop n bs
drop-read_bits zero v bs = refl
drop-read_bits (suc n) v [] = refl
drop-read_bits (suc n) v (b ∷ bs) = drop-read_bits n (v * 2 % 2 ^ 64 + b) bs

-- Skipping drops that many bits, or all that are left.
unread-skip : (n : ℕ) (br : BitReader) → unread (skip n br) ≡ drop n (unread br)
unfolding skip read
unread-skip n br = (read_loop-Agrees n 0 br).1 ∙ drop-read_bits n 0 (unread br)

drop-nil : (n : ℕ) → drop {A = ℕ} n [] ≡ []
drop-nil zero = refl
drop-nil (suc n) = refl

drop-drop : (m n : ℕ) (xs : List ℕ) → drop m (drop n xs) ≡ drop (n + m) xs
drop-drop m zero xs = ap (λ (k : ℕ). drop k xs) (omega arith)
drop-drop m (suc n) [] = drop-nil m ∙ sym (drop-nil (suc n + m))
drop-drop m (suc n) (x ∷ xs) =
    let shifted : suc (n + m) ≡ suc n + m = omega arith in
    drop-drop m n xs ∙ ap (λ (k : ℕ). drop k (x ∷ xs)) shifted

-- Skipping behind a reader that has dropped some bits already.
skip-drop :
    (m n : ℕ) (bs : List ℕ) (br : BitReader)
    → unread br ≡ drop n bs
    → unread (skip m br) ≡ drop (n + m) bs
skip-drop m n bs br e = unread-skip m br ∙ ap (drop m) e ∙ drop-drop m n bs

skip_profile-drop :
    (n : ℕ) (bs : List ℕ) (br : BitReader)
    → unread br ≡ drop n bs
    → unread (skip_profile br) ≡ drop (n + 2 + 1 + 5 + 32 + 1 + 1 + 1 + 1 + 44) bs
skip_profile-drop n bs br e = skip-drop 44 _ bs _ (
    skip-drop 1 _ bs _ (
      skip-drop 1 _ bs _ (
        skip-drop 1 _ bs _ (
          skip-drop 1 _ bs _ (
            skip-drop 32 _ bs _
              (skip-drop 5 _ bs _ (skip-drop 1 _ bs _ (skip-drop 2 n bs br e))))))))

skip-append :
    (n : ℕ) (front rest : List ℕ) (br : BitReader)
    → length front ≡ n
    → unread br ≡ front ++ rest
    → unread (skip n br) ≡ rest
skip-append n front rest br l e =
    unread-skip n br ∙ ap₂ drop (sym l) e ∙ drop-length_append front rest

skip-ue_code :
    (v : ℕ) (rest : List ℕ) (br : BitReader)
    → v < 2 ^ 32 - 1
    → unread br ≡ ue_code v ++ rest
    → unread (skip_ue br) ≡ rest
unfolding skip_ue
skip-ue_code v rest br h e = (read_ue-ue_code v rest br h e).1

-- `separate_colour_plane_flag`, which only chroma_format_idc 3 has.
abbrev pub plane_flag : ℕ → ℕ → List ℕ → List ℕ
plane_flag chroma flag rest = if chroma == 3 then field 1 flag ++ rest else rest

skip-plane_flag :
    (chroma flag : ℕ) (rest : List ℕ) (br : BitReader)
    → unread br ≡ plane_flag chroma flag rest
    → unread (skip_plane_flag chroma br) ≡ rest
skip-plane_flag chroma flag rest br e = elim (Bool-cases (chroma == 3)) [
  | inl planes ↦ rw planes (skip-append 1 (field 1 flag) rest br refl (rw planes at e))
  | inr other ↦ rw other (rw other at e)
]

-- 8 and a depth more that an int holds.
depth_of-small : (d : ℕ) → 8 + d < 2 ^ 31 → depth_of d ≡ pos (8 + d)
unfolding to_int32 add_int
depth_of-small d h = ground arith

-- The SPS of H.264 in a profile that tells the bit depth: profile_idc, the constraint flags,
-- level_idc, the id, chroma_format_idc, the plane flag, bit_depth_luma_minus8 and the rest.
abbrev pub h264_sps : ℕ → ℕ → ℕ → ℕ → ℕ → ℕ → ℕ → List ℕ → List ℕ
h264_sps profile constraints level id chroma flag minus8 rest =
    field 8 profile
    ++ (field 8 constraints
        ++ (field 8 level
            ++ (ue_code id ++ (ue_code chroma ++ plane_flag chroma flag (ue_code minus8 ++ rest)))))

-- The bit depth of an H.264 SPS in a profile that tells it is read as it was written: for every id,
-- chroma format and level, and whatever follows.
sps_h264_bit_depth-h264_sps :
    (rbsp : Text) (profile constraints level id chroma flag minus8 : ℕ) (rest : List ℕ)
    → bits rbsp ≡ h264_sps profile constraints level id chroma flag minus8 rest
    → profile < 256
    → is_high profile ≡ true
    → id < 2 ^ 32 - 1
    → chroma < 2 ^ 32 - 1
    → 8 + minus8 < 2 ^ 31
    → sps_h264_bit_depth rbsp ≡ pos (8 + minus8)
unfolding sps_h264_bit_depth
sps_h264_bit_depth-h264_sps rbsp profile constraints level id chroma flag minus8 rest e p high i c
      d =
    let b1 = (read 8 (from_start rbsp)).1 in
    let b3 = skip 8 (skip 8 b1) in
    let b5 = (read_ue (skip_ue b3)).1 in
    let (prof, r1) = read-u 8 profile _ (from_start rbsp) p (omega arith) e in
    let r2 = skip-append 8 (field 8 constraints) _ b1 (length-field 8 constraints) r1 in
    let r3 = skip-append 8 (field 8 level) _ (skip 8 b1) (length-field 8 level) r2 in
    let r4 = skip-ue_code id _ b3 i r3 in
    let (chr, r5) = read_ue-ue_code chroma _ (skip_ue b3) c r4 in
    let r6 = skip-plane_flag chroma flag _ b5 r5 in
    let (dep, r7) = read_ue-ue_code minus8 rest (skip_plane_flag chroma b5) (omega arith) r6 in
    rw (prof, high, chr, dep) (depth_of-small minus8 d)

-- The conformance window: a flag, and four offsets where it is set.
abbrev pub window_bits : Option (ℕ × ℕ × ℕ × ℕ) → List ℕ → List ℕ
window_bits none rest = field 1 0 ++ rest
window_bits (some (a, b, c, d)) rest =
    field 1 1 ++ (ue_code a ++ (ue_code b ++ (ue_code c ++ (ue_code d ++ rest))))

abbrev pub IsWindow : Option (ℕ × ℕ × ℕ × ℕ) → Type 0
IsWindow none = Unit
IsWindow (some (a, b, c, d)) =
    (a < 2 ^ 32 - 1) × (b < 2 ^ 32 - 1) × (c < 2 ^ 32 - 1) × (d < 2 ^ 32 - 1)

-- What follows the profile and the levels: the id, the chroma format, the size, the window, the depth.
abbrev pub hevc_rest : ℕ → ℕ → ℕ → ℕ → ℕ → Option (ℕ × ℕ × ℕ × ℕ) → ℕ → List ℕ → List ℕ
hevc_rest id chroma flag width height window minus8 rest =
    ue_code id
    ++ (ue_code chroma
        ++ plane_flag chroma flag
            (ue_code width ++ (ue_code height ++ window_bits window (ue_code minus8 ++ rest))))

skip-window :
    (window : Option (ℕ × ℕ × ℕ × ℕ)) (rest : List ℕ) (br : BitReader)
    → IsWindow window
    → unread br ≡ window_bits window rest
    → unread (when_set (read 1 br).0 (λ r. skip_ue (skip_ue (skip_ue (skip_ue r)))) (read 1 br).1)
      ≡ rest
skip-window none rest br w e =
    let (unset, after) = read-u 1 0 rest br (omega arith) (omega arith) e in rw unset after
skip-window (some (a, b, c, d)) rest br (wa, wb, wc, wd) e =
    let b1 = (read 1 br).1 in
    let (set, r1) = read-u 1 1 _ br (omega arith) (omega arith) e in
    let r2 = skip-ue_code a _ b1 wa r1 in
    let r3 = skip-ue_code b _ (skip_ue b1) wb r2 in
    let r4 = skip-ue_code c _ (skip_ue (skip_ue b1)) wc r3 in
    rw set (skip-ue_code d rest (skip_ue (skip_ue (skip_ue b1))) wd r4)

hevc_tail-hevc_rest :
    (br : BitReader) (id chroma flag width height : ℕ) (window : Option (ℕ × ℕ × ℕ × ℕ))
    (minus8 : ℕ) (rest : List ℕ)
    → unread br ≡ hevc_rest id chroma flag width height window minus8 rest
    → (id < 2 ^ 32 - 1) × (chroma < 2 ^ 32 - 1) × (width < 2 ^ 32 - 1) × (height < 2 ^ 32 - 1)
    → IsWindow window
    → 8 + minus8 < 2 ^ 31
    → hevc_tail br ≡ pos (8 + minus8)
unfolding hevc_tail
hevc_tail-hevc_rest br id chroma flag width height window minus8 rest e (i, c, w, h) win d =
    let b2 = (read_ue (skip_ue br)).1 in
    let b3 = skip_plane_flag chroma b2 in
    let b5 = skip_ue (skip_ue b3) in
    let r1 = skip-ue_code id _ br i e in
    let (chr, r2) = read_ue-ue_code chroma _ (skip_ue br) c r1 in
    let r3 = skip-plane_flag chroma flag _ b2 r2 in
    let r4 = skip-ue_code width _ b3 w r3 in
    let r5 = skip-ue_code height _ (skip_ue b3) h r4 in
    let r6 = skip-window window _ b5 win r5 in
    let (dep, r7) =
      read_ue-ue_code minus8 rest
        (when_set (read 1 b5).0 (λ r. skip_ue (skip_ue (skip_ue (skip_ue r)))) (read 1 b5).1)
        (omega arith) r6 in
    rw (chr, dep) (depth_of-small minus8 d)

-- The bit depth of an H.265 SPS without sub-layers is read as it was written, if it is an int: for every
-- profile and level of 96 bits, for every id, chroma format, size and conformance window of numbers below
-- 2^32 - 1, and whatever follows.
pub sps_hevc_bit_depth-hevc_rest :
    (rbsp : Text) (vps nesting : ℕ) (profile_tier_level : List ℕ) (id chroma flag width height : ℕ)
    (window : Option (ℕ × ℕ × ℕ × ℕ)) (minus8 : ℕ) (rest : List ℕ)
    → bits rbsp
      ≡ field 4 vps
        ++ (field 3 0
            ++ (field 1 nesting
                ++ (profile_tier_level
                    ++ hevc_rest id chroma flag width height window minus8 rest)))
    → length profile_tier_level ≡ 96
    → (id < 2 ^ 32 - 1) × (chroma < 2 ^ 32 - 1) × (width < 2 ^ 32 - 1) × (height < 2 ^ 32 - 1)
    → IsWindow window
    → 8 + minus8 < 2 ^ 31
    → sps_hevc_bit_depth rbsp ≡ pos (8 + minus8)
unfolding sps_hevc_bit_depth
sps_hevc_bit_depth-hevc_rest rbsp vps nesting ptl id chroma flag width height window minus8 rest e l
      b win d =
    let b1 = skip 4 (from_start rbsp) in
    let b2 = (read 3 b1).1 in
    let b3 = skip 1 b2 in
    let r1 = skip-append 4 (field 4 vps) _ (from_start rbsp) (length-field 4 vps) e in
    let (none_more, r2) = read-u 3 0 _ b1 (omega arith) (omega arith) r1 in
    let r3 = skip-append 1 (field 1 nesting) _ b2 refl r2 in
    let tail = hevc_rest id chroma flag width height window minus8 rest in
    let r4 =
      skip-drop 8 88 (ptl ++ tail) (skip_profile b3) (skip_profile-drop 0 (ptl ++ tail) b3 r3) in
    let r5 = r4 ∙ ap (λ (n : ℕ). drop n (ptl ++ tail)) (sym l) ∙ drop-length_append ptl tail in
    rw none_more (
      hevc_tail-hevc_rest (skip 8 (skip_profile b3)) id chroma flag width height window minus8 rest
        r5 b win d)
