-- ===== src/Decoder/Hardware.antt =====
-- src/hwdecode/hw_decode_ffmpeg.cpp: the choice of the device and of the pixel format of FFmpeg's decoders. The
-- hardware configurations of the decoder are a list, each with its method flag and its device; `creates` says
-- whether av_hwdevice_ctx_create opens a device. A pixel format is its number, and none is AV_PIX_FMT_NONE.
use obs_zcamera.Prelude.{
  ℕ, ◌≡◌, refl, ap, ◌∙◌, Bool, true, false, ◌&&◌, Option, none, some, List, [], ◌∷◌, any, ◌==◌,
  if◌then◌else◌, Bool-cases, inl, inr,
}
use obs_zcamera.Decoder.Nal.{Codec, h264, hevc}
use obs_zcamera.Decoder.Backend.{HwBackend, cuda, d3d11va, videotoolbox, software}

-- What the code is built for.
pub data System : Type 0 where
  windows apple other_system : System

pub data Device : Type 0 where
  no_device cuda_device d3d11va_device videotoolbox_device qsv_device dxva2_device : Device

abbrev pub device_code : Device → ℕ
device_code no_device = 0
device_code cuda_device = 1
device_code d3d11va_device = 2
device_code videotoolbox_device = 3
device_code qsv_device = 4
device_code dxva2_device = 5

unfoldable pub zc_to_hw_type : System → HwBackend → Device
zc_to_hw_type windows cuda = cuda_device
zc_to_hw_type windows d3d11va = d3d11va_device
zc_to_hw_type apple videotoolbox = videotoolbox_device
zc_to_hw_type system backend = no_device

-- The table as it is declared: for two of the systems no AV_HWDEVICE_TYPE_NONE ends it.
abbrev pub priority : System → List Device
priority windows = d3d11va_device ∷ []
priority apple = videotoolbox_device ∷ []
priority other_system = no_device ∷ []

abbrev pub is_config : Device → Bool × Device → Bool
is_config device (method, other) = method && device_code other == device_code device

-- The first configuration for the device decides.
unfoldable pub try_device : (Device → Bool) → Device → List (Bool × Device) → Bool
try_device creates wanted [] = false
try_device creates wanted (config ∷ configs) =
    let rest = try_device creates wanted configs in
    if is_config wanted config then creates wanted else rest

-- Past the end of the table the code reads on, so that there is no result.
unfoldable pub pick_loop : (Device → Bool) → List (Bool × Device) → List Device → Option Device
pick_loop creates configs [] = none
pick_loop creates configs (no_device ∷ devices) = some no_device
pick_loop creates configs (device ∷ devices) =
    let rest = pick_loop creates configs devices in
    if try_device creates device configs then some device else rest

unfoldable pub pick_hw_device :
    System → (Device → Bool) → Option (List (Bool × Device)) → HwBackend → Option Device
pick_hw_device system creates none requested = some no_device
pick_hw_device system creates (some configs) requested =
    let picked = pick_loop creates configs (priority system) in
    let explicit = zc_to_hw_type system requested in
    if device_code explicit == 0 then picked else some explicit

abbrev pub backend_of : Device → HwBackend
backend_of cuda_device = cuda
backend_of d3d11va_device = d3d11va
backend_of videotoolbox_device = videotoolbox
backend_of other = software

-- `codec` is the decoder that FFmpeg finds, with its configurations.
unfoldable pub zc_hw_ffmpeg_detect :
    System → (Device → Bool) → Option (List (Bool × Device)) → HwBackend → Option HwBackend
zc_hw_ffmpeg_detect system creates codec requested =
    elim (pick_hw_device system creates codec requested) [
      | none ↦ none
      | some device ↦ some (backend_of device)
    ]

abbrev pub head_of : List ℕ → Option ℕ
head_of [] = none
head_of (f ∷ formats) = some f

-- How the loop over what is offered ends: it breaks or runs out, or it returns the first format.
pub data Scan : Type 0 where
  goes_on first_format : Scan

unfoldable pub scan_formats : ℕ → List ℕ → Scan
scan_formats format [] = goes_on
scan_formats format (f ∷ []) = if f == format then goes_on else first_format
scan_formats format (f ∷ g ∷ formats) =
    let rest = scan_formats format (g ∷ formats) in if f == format then goes_on else rest

-- What the callback reads: the format of the hardware, the codec, and whether the profile of the stream is
-- AV_PROFILE_H264_BASELINE.
pub record Context : Type 0 where
  pub hw_pix_fmt : Option ℕ
  pub codec : Codec
  pub is_baseline : Bool

abbrev pub is_h264 : Codec → Bool
is_h264 h264 = true
is_h264 hevc = false

-- The format, and whether AV_HWACCEL_FLAG_ALLOW_PROFILE_MISMATCH is set; `d3d11` is the number of
-- AV_PIX_FMT_D3D11.
unfoldable pub zc_get_format : ℕ → Context → List ℕ → Option ℕ × Bool
zc_get_format d3d11 context offered = elim context.hw_pix_fmt [
  | none ↦ (head_of offered, false)
  | some format ↦ elim (scan_formats format offered) [
    | first_format ↦ (head_of offered, false)
    | goes_on ↦ (some format, format == d3d11 && (is_h264 context.codec && context.is_baseline))
  ]
]

try_device-any :
    (creates : Device → Bool) (device : Device) (configs : List (Bool × Device))
    → try_device creates device configs ≡ (any (is_config device) configs && creates device)
unfolding try_device
try_device-any creates wanted [] = refl
try_device-any creates wanted (config ∷ configs) = elim (Bool-cases (is_config wanted config)) [
  | inl e ↦ rw e refl
  | inr e ↦ rw e (try_device-any creates wanted configs)
]

pick_hw_device-priority :
    (system : System) (creates : Device → Bool) (configs : List (Bool × Device))
    (requested : HwBackend)
    → zc_to_hw_type system requested ≡ no_device
    → pick_hw_device system creates (some configs) requested
      ≡ pick_loop creates configs (priority system)
unfolding pick_hw_device
pick_hw_device-priority system creates configs requested e =
    ap (λ d. if device_code d == 0 then pick_loop creates configs (priority system) else some d) e

pick_loop-windows :
    (creates : Device → Bool) (configs : List (Bool × Device))
    → pick_loop creates configs (priority windows)
      ≡ (if try_device creates d3d11va_device configs then some d3d11va_device else none)
unfolding pick_loop
pick_loop-windows creates configs = refl

named_backend :
    (b : Bool)
    → (elim (if b then some d3d11va_device else none) [
      | none ↦ none
      | some device ↦ some (backend_of device)
    ])
      ≡ (if b then some d3d11va else none)
named_backend true = refl
named_backend false = refl

-- On Windows, where the backend is not requested by its name: D3D11VA is chosen if the decoder has a
-- configuration for it and the device opens, and otherwise the code reads past the end of its table, which
-- nothing ends.
pub zc_hw_ffmpeg_detect-windows :
    (creates : Device → Bool) (configs : List (Bool × Device)) (requested : HwBackend)
    → zc_to_hw_type windows requested ≡ no_device
    → zc_hw_ffmpeg_detect windows creates (some configs) requested ≡ (
        if any (is_config d3d11va_device) configs && creates d3d11va_device
        then some d3d11va
        else none)
unfolding zc_hw_ffmpeg_detect
zc_hw_ffmpeg_detect-windows creates configs requested e =
    ap (λ o. elim o [ none ↦ none | some device ↦ some (backend_of device) ])
      (pick_hw_device-priority windows creates configs requested e
        ∙ pick_loop-windows creates configs
        ∙ ap (λ b. if b then some d3d11va_device else none)
            (try_device-any creates d3d11va_device configs))
    ∙ named_backend (any (is_config d3d11va_device) configs && creates d3d11va_device)
