-- ===== src/Picture.antt =====
-- src/zc_source.cpp: the picture of the software decoder, from `outputVideo`, which copies its planes and
-- converts it, to `videoRender`, which uploads it. A buffer is its number of bytes; the bytes themselves
-- are left to memcpy and swscale. `opens` says whether sws_getContext makes a convertor, `creates` whether
-- gs_texture_create makes a texture.
pub mod Bounds
use obs_zcamera.Prelude.{
  ℕ, zero, suc, ◌+◌, ◌*◌, ◌/◌, ◌%◌, ◌^◌, Bool, true, false, not, ◌&&◌, ◌||◌, Option, none, some,
  List, [], ◌∷◌, ltb, ◌==◌, if◌then◌else◌, replicate, get_or,
}

pub data Format : Type 0 where
  no_format nv12 i420 p010 i010 other_format : Format

abbrev pub format_code : Format → ℕ
format_code no_format = 0
format_code nv12 = 1
format_code i420 = 2
format_code p010 = 3
format_code i010 = 4
format_code other_format = 5

-- `obs_source_frame2`: the numbers of bytes of a row, by planes, and whether the first plane is there.
pub record Picture : Type 0 where
  pub format : Format
  pub width : ℕ
  pub height : ℕ
  pub timestamp : ℕ
  pub has_data : Bool
  pub strides : List ℕ

-- What a convertor and a texture are made for.
pub record Shape : Type 0 where
  pub format : Format
  pub width : ℕ
  pub height : ℕ

-- One of the `planes`, with its `planeSize`, and its `linesize`.
pub record Plane : Type 0 where
  pub buffer : Option ℕ
  pub linesize : ℕ

-- `zc_cpu_frame`, `hasCpuFrame_` and `cpuTex_` with its format and size.
pub record Cpu : Type 0 where
  pub shape : Shape
  pub planes : List Plane
  pub rgba : Option ℕ
  pub sws : Option Shape
  pub has_frame : Bool
  pub texture : Option Shape

abbrev pub max_av_planes : ℕ
max_av_planes = 8

abbrev pub no_plane : Plane
no_plane = record { buffer = none; linesize = 0 }

abbrev pub no_shape : Shape
no_shape = record { format = no_format; width = 0; height = 0 }

-- As it is constructed.
abbrev pub no_cpu : Cpu
no_cpu = record {
  shape = no_shape;
  planes = replicate max_av_planes no_plane;
  rgba = none;
  sws = none;
  has_frame = false;
  texture = none;
}

unfoldable pub planar : Format → Bool
planar nv12 = true
planar i420 = true
planar p010 = true
planar i010 = true
planar other = false

unfoldable pub plane_count : Format → ℕ
plane_count nv12 = 2
plane_count p010 = 2
plane_count i420 = 3
plane_count i010 = 3
plane_count other = 1

-- The bytes of one plane that are copied: the first has all rows, the others half of them.
unfoldable pub plane_bytes : Picture → ℕ → ℕ
plane_bytes picture zero = get_or picture.strides zero 0 * picture.height % 2 ^ 32
plane_bytes picture (suc i) = get_or picture.strides (suc i) 0 * (picture.height / 2) % 2 ^ 32

-- A buffer that is not there, or too small, is allocated anew.
unfoldable pub grown : Option ℕ → ℕ → ℕ
grown none bytes = bytes
grown (some held) bytes = if ltb held bytes then bytes else held

unfoldable pub freed : Plane → Plane
freed plane = elim plane.buffer [ none ↦ plane | some held ↦ no_plane ]

-- The planes of the picture, from plane `i` on, are copied; the others are freed.
unfoldable pub copy_planes : Picture → ℕ → ℕ → List Plane → List Plane
copy_planes picture i zero [] = []
copy_planes picture i zero (plane ∷ planes) = freed plane ∷ copy_planes picture (suc i) zero planes
copy_planes picture i (suc n) [] = []
copy_planes picture i (suc n) (plane ∷ planes) =
    record {
      buffer = some (grown plane.buffer (plane_bytes picture i));
      linesize = get_or picture.strides i 0;
    }
    ∷ copy_planes picture (suc i) n planes

-- The bytes of the converted picture.
unfoldable pub rgba_bytes : Shape → ℕ
rgba_bytes shape = shape.width * shape.height * 4 % 2 ^ 32

unfoldable pub same_shape : Shape → Shape → Bool
same_shape s t =
    format_code s.format == format_code t.format && (s.width == t.width && s.height == t.height)

-- What was made for this shape, or else a new one.
unfoldable pub made_for : (Shape → Bool) → Option Shape → Shape → Option Shape
made_for opens none shape = if opens shape then some shape else none
made_for opens (some old) shape =
    if same_shape old shape then some old else (if opens shape then some shape else none)

abbrev pub is_some {ℓ} : {A : Type ℓ} → Option A → Bool
is_some none = false
is_some (some a) = true

abbrev pub shape_of : Picture → Shape
shape_of picture = record {
  format = picture.format;
  width = picture.width;
  height = picture.height;
}

-- The part of `outputVideo` for a picture of the CPU.
unfoldable pub convert : (Shape → Bool) → Picture → Cpu → Cpu
convert opens picture cpu =
    let shape = shape_of picture in
    let sws = made_for opens cpu.sws shape in
    if not (planar picture.format) || (not picture.has_data || get_or picture.strides 0 0 == 0)
    then record cpu { shape = shape; has_frame = false }
    else record cpu {
      shape = shape;
      planes = copy_planes picture 0 (plane_count picture.format) cpu.planes;
      rgba = some (grown cpu.rgba (rgba_bytes shape));
      sws = sws;
      has_frame = is_some sws;
    }

-- The part of `videoRender` for it, and whether the texture has it.
unfoldable pub upload : (Shape → Bool) → Cpu → Bool × Cpu
upload creates cpu =
    let texture = made_for creates cpu.texture cpu.shape in
    if cpu.shape.width == 0 || (cpu.shape.height == 0 || not (is_some cpu.rgba))
    then (false, record cpu { has_frame = false })
    else (is_some texture, record cpu { texture = texture; has_frame = false })

abbrev pub emptied : List Plane → List Plane
emptied [] = []
emptied (plane ∷ planes) = no_plane ∷ emptied planes

-- The end of `stop`: all is freed but the texture.
unfoldable pub free_cpu : Cpu → Cpu
free_cpu cpu = record cpu {
  planes = emptied cpu.planes;
  rgba = none;
  sws = none;
  has_frame = false;
}
