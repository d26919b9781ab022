-- ===== src/Decoder/Backend.antt =====
-- src/hwdecode/hw_decode.c: the choice of the decoder. `zero_copy` and `software` are the build's options
-- ENABLE_ZERO_COPY and ENABLE_SW_DECODE. The decoders of the other files are arguments: `detect` for
-- zc_hw_ffmpeg_detect, `ffmpeg` for zc_hw_ffmpeg_create and `sw` for zc_hw_sw_create; none is NULL.
use obs_zcamera.Prelude.{
  ◌≡◌, refl, Bool, true, false, not, ◌&&◌, Option, none, some, Text, codes, if◌then◌else◌, inl, inr,
  Bool-cases,
}
use obs_zcamera.Decoder.Nal.{Codec}

-- `ZC_HW_COUNT` also says that there is no decoder.
pub data HwBackend : Type 0 where
  auto cuda d3d11va videotoolbox software count : HwBackend

unfoldable pub zc_hw_backend_name : HwBackend → Text
zc_hw_backend_name auto = codes "Auto"
zc_hw_backend_name cuda = codes "CUDA (NVDEC)"
zc_hw_backend_name d3d11va = codes "D3D11VA"
zc_hw_backend_name videotoolbox = codes "VideoToolbox"
zc_hw_backend_name software = codes "Software"
zc_hw_backend_name count = codes "Unknown"

abbrev pub is_software : HwBackend → Bool
is_software software = true
is_software other = false

abbrev pub is_count : HwBackend → Bool
is_count count = true
is_count other = false

unfoldable pub zc_hw_resolve :
    (HwBackend → Codec → HwBackend) → Bool → Bool → HwBackend → Codec → HwBackend
zc_hw_resolve detect zero_copy enable_sw requested codec =
    let hw = detect requested codec in
    let fallback = if enable_sw then software else count in
    if zero_copy && not (is_software requested)
    then (if is_software hw then fallback else hw)
    else fallback

module _ {D : Type 0} where
  unfoldable pub or_fallback : Option D → Option D → Option D
  or_fallback none fallback = fallback
  or_fallback (some decoder) fallback = some decoder

  -- The other arguments of the creation are passed on as they are.
  unfoldable pub zc_hw_decoder_create :
      (HwBackend → Codec → Option D)
      → (Codec → Option D)
      → Bool
      → Bool
      → HwBackend
      → Codec
      → Option D
  zc_hw_decoder_create ffmpeg sw zero_copy enable_sw backend codec =
      let fallback = if enable_sw then sw codec else none in
      if zero_copy && (not (is_software backend) && not (is_count backend))
      then or_fallback (ffmpeg backend codec) fallback
      else fallback

  -- The decoder of hardware, if the build has it, it was not ruled out, detection names one and it opens.
  abbrev pub hardware :
      (HwBackend → Codec → HwBackend)
      → (HwBackend → Codec → Option D)
      → Bool
      → HwBackend
      → Codec
      → Option D
  hardware detect ffmpeg zero_copy requested codec =
      let hw = detect requested codec in
      if zero_copy && (not (is_software requested) && (not (is_software hw) && not (is_count hw)))
      then ffmpeg hw codec
      else none

  software-resolved :
      (ffmpeg : HwBackend → Codec → Option D) (sw : Codec → Option D) (zero_copy enable_sw : Bool)
      (codec : Codec)
      → zc_hw_decoder_create ffmpeg sw zero_copy enable_sw
          (if enable_sw then software else count)
          codec
        ≡ (if enable_sw then sw codec else none)
  unfolding zc_hw_decoder_create
  software-resolved ffmpeg sw true true codec = refl
  software-resolved ffmpeg sw true false codec = refl
  software-resolved ffmpeg sw false true codec = refl
  software-resolved ffmpeg sw false false codec = refl

  found-resolved :
      (ffmpeg : HwBackend → Codec → Option D) (sw : Codec → Option D) (enable_sw : Bool)
      (hw : HwBackend) (codec : Codec)
      → zc_hw_decoder_create ffmpeg sw true enable_sw
          (if is_software hw then (if enable_sw then software else count) else hw)
          codec
        ≡ or_fallback
            (if not (is_software hw) && not (is_count hw) then ffmpeg hw codec else none)
            (if enable_sw then sw codec else none)
  unfolding zc_hw_decoder_create or_fallback
  found-resolved ffmpeg sw true software codec = refl
  found-resolved ffmpeg sw false software codec = refl
  found-resolved ffmpeg sw enable_sw auto codec = refl
  found-resolved ffmpeg sw enable_sw cuda codec = refl
  found-resolved ffmpeg sw enable_sw d3d11va codec = refl
  found-resolved ffmpeg sw enable_sw videotoolbox codec = refl
  found-resolved ffmpeg sw enable_sw count codec = refl

  -- Whatever the build has, creating the decoder that zc_hw_resolve chose gives the hardware decoder where
  -- there is one that opens, else the software decoder if the build has it, else none.
  zc_hw_decoder_create-resolve :
      (detect : HwBackend → Codec → HwBackend) (ffmpeg : HwBackend → Codec → Option D)
      (sw : Codec → Option D) (zero_copy enable_sw : Bool) (requested : HwBackend) (codec : Codec)
      → zc_hw_decoder_create ffmpeg sw zero_copy enable_sw
          (zc_hw_resolve detect zero_copy enable_sw requested codec)
          codec
        ≡ or_fallback
            (hardware detect ffmpeg zero_copy requested codec)
            (if enable_sw then sw codec else none)
  unfolding zc_hw_resolve or_fallback
  zc_hw_decoder_create-resolve detect ffmpeg sw false enable_sw requested codec =
      software-resolved ffmpeg sw false enable_sw codec
  zc_hw_decoder_create-resolve detect ffmpeg sw true enable_sw requested codec =
      elim (Bool-cases (is_software requested)) [
        | inl ruled_out ↦ rw ruled_out (software-resolved ffmpeg sw true enable_sw codec)
        | inr wanted ↦ rw wanted (found-resolved ffmpeg sw enable_sw (detect requested codec) codec)
      ]
