-- ===== src/Connector/Proto/Layout.antt =====
-- The structures of the pipe are read back as they were written.
use native.Mathlib.Nat.{pow-suc}
use obs_zcamera.Prelude.{
  ℕ, zero, suc, ◌+◌, ◌/◌, ◌^◌, ◌<◌, ◌≡◌, refl, ap, ◌∙◌, some, [], Text, length, take, arith,
  take-length, le→not_ltb,
}
use obs_zcamera.Connector.Proto.{
  le_bytes, little_endian, VideoMeta, AudioMeta, BaseMeta, Metadata, VideoData, AudioData,
  message_bytes, base_meta_bytes, video_meta_bytes, audio_meta_bytes, metadata_bytes,
  video_data_bytes, audio_data_bytes, base_meta_at, video_meta_at, audio_meta_at, as_metadata,
  as_video_data, as_audio_data, as_message,
}

pub little_endian-le_bytes : (k n : ℕ) → n < 256 ^ k → little_endian (le_bytes k n) ≡ n
unfolding little_endian le_bytes
little_endian-le_bytes zero n h = omega arith
little_endian-le_bytes (suc k) n h =
    omega (arith, little_endian-le_bytes k (n / 256) (omega (arith, pow-suc 256 k)))

-- The numbers fit into their fields.
abbrev pub FitsBase : BaseMeta → Type 0
FitsBase m = (m.pts_is_wall_clock < 2 ^ 16) × (m.tc_drop_frame < 2 ^ 16) × (m.timecode < 2 ^ 32)

abbrev pub FitsVideo : VideoMeta → Type 0
FitsVideo m =
    (m.width < 2 ^ 32)
    × (m.height < 2 ^ 32)
    × (m.timescale < 2 ^ 32)
    × (m.unit < 2 ^ 32)
    × (m.gop < 2 ^ 32)
    × (m.encoder < 2 ^ 32)

abbrev pub FitsAudio : AudioMeta → Type 0
FitsAudio m =
    (m.timescale < 2 ^ 32)
    × (m.unit < 2 ^ 32)
    × (m.sample_rate < 2 ^ 32)
    × (m.sample_size < 2 ^ 32)
    × (m.channel < 2 ^ 32)
    × (m.bitrate < 2 ^ 32)
    × (m.encoder < 2 ^ 32)

pub le4 : (n : ℕ) → n < 2 ^ 32 → little_endian (le_bytes 4 n) ≡ n
le4 n h = little_endian-le_bytes 4 n (omega (arith, h))

le8 : (n : ℕ) → n < 2 ^ 64 → little_endian (le_bytes 8 n) ≡ n
le8 n h = little_endian-le_bytes 8 n (omega (arith, h))

base_meta_at-written :
    (m : BaseMeta) (rest : Text) → FitsBase m → base_meta_at 0 (base_meta_bytes m rest) ≡ m
unfolding base_meta_at base_meta_bytes le_bytes
base_meta_at-written m rest (h1, h2, h3) =
    rw
      (
        little_endian-le_bytes 2 m.pts_is_wall_clock h1,
        little_endian-le_bytes 2 m.tc_drop_frame h2,
        le4 m.timecode h3,
      )
      refl

video_meta_at-written :
    (b : BaseMeta) (m : VideoMeta) (rest : Text)
    → FitsVideo m
    → video_meta_at 8 (base_meta_bytes b (video_meta_bytes m rest)) ≡ m
unfolding video_meta_at base_meta_bytes video_meta_bytes le_bytes
video_meta_at-written b m rest (h1, h2, h3, h4, h5, h6) =
    rw
      (
        le4 m.width h1,
        le4 m.height h2,
        le4 m.timescale h3,
        le4 m.unit h4,
        le4 m.gop h5,
        le4 m.encoder h6,
      )
      refl

audio_meta_at-written :
    (b : BaseMeta) (v : VideoMeta) (m : AudioMeta) (rest : Text)
    → FitsAudio m
    → audio_meta_at 32 (base_meta_bytes b (video_meta_bytes v (audio_meta_bytes m rest))) ≡ m
unfolding audio_meta_at base_meta_bytes video_meta_bytes audio_meta_bytes le_bytes
audio_meta_at-written b v m rest (h1, h2, h3, h4, h5, h6, h7) =
    rw
      (
        le4 m.timescale h1,
        le4 m.unit h2,
        le4 m.sample_rate h3,
        le4 m.sample_size h4,
        le4 m.channel h5,
        le4 m.bitrate h6,
        le4 m.encoder h7,
      )
      refl

abbrev pub FitsMetadata : Metadata → Type 0
FitsMetadata m = FitsBase m.meta × FitsVideo m.vmeta × FitsAudio m.ameta

pub length-metadata : (m : Metadata) → length (metadata_bytes m) ≡ 60
unfolding metadata_bytes base_meta_bytes video_meta_bytes audio_meta_bytes le_bytes
length-metadata m = refl

pub as_metadata-written : (m : Metadata) → FitsMetadata m → as_metadata (metadata_bytes m) ≡ some m
unfolding as_metadata metadata_bytes
as_metadata-written m (hb, hv, ha) =
    rw
      (
        le→not_ltb (length (metadata_bytes m)) 60 (omega (arith, length-metadata m)),
        base_meta_at-written m.meta (video_meta_bytes m.vmeta (audio_meta_bytes m.ameta [])) hb,
        video_meta_at-written m.meta m.vmeta (audio_meta_bytes m.ameta []) hv,
        audio_meta_at-written m.meta m.vmeta m.ameta [] ha,
      )
      refl

-- A frame whose pointer leads to exactly the bytes that it counts.
abbrev pub IsVideoData : VideoData → Type 0
IsVideoData v =
    (v.pts < 2 ^ 64)
    × (v.ntp_timestamp < 2 ^ 64)
    × (v.frm_no < 2 ^ 32)
    × (v.kind < 2 ^ 32)
    × (v.len < 2 ^ 64)
    × (v.len ≡ length v.data_bytes)

abbrev pub IsAudioData : AudioData → Type 0
IsAudioData a =
    (a.pts < 2 ^ 64) × (a.ntp_timestamp < 2 ^ 64) × (a.len < 2 ^ 64) × (a.len ≡ length a.data_bytes)

pub as_video_data-written :
    (v : VideoData) → IsVideoData v → as_video_data (video_data_bytes v) ≡ some v
unfolding as_video_data video_data_bytes le_bytes
as_video_data-written v (h1, h2, h3, h4, h5, counted) =
    let whole = ap (λ n. take n v.data_bytes) counted ∙ take-length v.data_bytes in
    rw (le8 v.pts h1, le8 v.ntp_timestamp h2, le4 v.frm_no h3, le4 v.kind h4, le8 v.len h5, whole)
      (ground arith)

pub as_audio_data-written :
    (a : AudioData) → IsAudioData a → as_audio_data (audio_data_bytes a) ≡ some a
unfolding as_audio_data audio_data_bytes le_bytes
as_audio_data-written a (h1, h2, h3, counted) =
    let whole = ap (λ n. take n a.data_bytes) counted ∙ take-length a.data_bytes in
    rw (le8 a.pts h1, le8 a.ntp_timestamp h2, le8 a.len h3, whole) (ground arith)

pub as_message-written :
    (kind len : ℕ) (value : Text)
    → kind < 2 ^ 32
    → len < 2 ^ 32
    → as_message (message_bytes kind len value)
      ≡ some (record { kind = kind; len = len; value = value })
unfolding as_message message_bytes le_bytes
as_message-written kind len value hk hl = rw (le4 kind hk, le4 len hl) (ground arith)

pub length-video_data :
    (v : VideoData) → length (video_data_bytes v) ≡ 32 + length (take v.len v.data_bytes)
unfolding video_data_bytes le_bytes
length-video_data v = omega arith

pub length-audio_data :
    (a : AudioData) → length (audio_data_bytes a) ≡ 24 + length (take a.len a.data_bytes)
unfolding audio_data_bytes le_bytes
length-audio_data a = omega arith

pub length-message :
    (kind len : ℕ) (value : Text) → length (message_bytes kind len value) ≡ 8 + length value
unfolding message_bytes le_bytes
length-message kind len value = omega arith
