-- ===== src/Connector/Proto.antt =====
-- ssp_connector/ssp_connector_proto.h: the packed structures on the pipe. Both processes run on the
-- same little-endian 64-bit machine, so that a structure is its fields' bytes, the lowest first, and a
-- `size_t` has eight bytes.
pub mod Layout
use obs_zcamera.Prelude.{
  ℕ, zero, suc, ◌+◌, ◌*◌, ◌/◌, ◌%◌, ◌^◌, Bool, true, false, Option, none, some, List, [], ◌∷◌, ◌++◌,
  Text, length, take, drop, ltb, if◌then◌else◌,
}

-- An unsigned number in memory, of `k` bytes.
unfoldable pub le_bytes : ℕ → ℕ → Text
le_bytes zero n = []
le_bytes (suc k) n = (n % 256) ∷ le_bytes k (n / 256)

unfoldable pub little_endian : Text → ℕ
little_endian [] = 0
little_endian (b ∷ bs) = b + 256 * little_endian bs

-- The field of `k` bytes at an offset of a structure.
abbrev pub member : ℕ → ℕ → Text → ℕ
member offset k value = little_endian (take k (drop offset value))

pub record VideoMeta : Type 0 where
  pub width : ℕ
  pub height : ℕ
  pub timescale : ℕ
  pub unit : ℕ
  pub gop : ℕ
  pub encoder : ℕ

pub record AudioMeta : Type 0 where
  pub timescale : ℕ
  pub unit : ℕ
  pub sample_rate : ℕ
  pub sample_size : ℕ
  pub channel : ℕ
  pub bitrate : ℕ
  pub encoder : ℕ

pub record BaseMeta : Type 0 where
  pub pts_is_wall_clock : ℕ
  pub tc_drop_frame : ℕ
  pub timecode : ℕ

pub record Metadata : Type 0 where
  pub meta : BaseMeta
  pub vmeta : VideoMeta
  pub ameta : AudioMeta

-- A frame: `data` is the memory that its pointer leads to, up to the end of the allocation.
pub record VideoData : Type 0 where
  pub pts : ℕ
  pub ntp_timestamp : ℕ
  pub frm_no : ℕ
  pub kind : ℕ
  pub len : ℕ
  pub data_bytes : Text

pub record AudioData : Type 0 where
  pub pts : ℕ
  pub ntp_timestamp : ℕ
  pub len : ℕ
  pub data_bytes : Text

pub data MessageType : Type 0 where
  meta_data_msg video_data_msg audio_data_msg recv_buffer_full_msg disconnect_msg
        connection_connected_msg exception_msg connector_ok_msg :
      MessageType

unfoldable pub type_code : MessageType → ℕ
type_code meta_data_msg = 1
type_code video_data_msg = 2
type_code audio_data_msg = 3
type_code recv_buffer_full_msg = 4
type_code disconnect_msg = 5
type_code connection_connected_msg = 6
type_code exception_msg = 7
type_code connector_ok_msg = 8

-- `sizeof`.
abbrev pub message_size : ℕ
message_size = 8

abbrev pub metadata_size : ℕ
metadata_size = 60

abbrev pub video_data_size : ℕ
video_data_size = 32

abbrev pub audio_data_size : ℕ
audio_data_size = 24

-- `Message`, with as much of `value` as was allocated.
pub record Message : Type 0 where
  pub kind : ℕ
  pub len : ℕ
  pub value : Text

-- The bytes of each structure.
unfoldable pub message_bytes : ℕ → ℕ → Text → Text
message_bytes kind len value = le_bytes 4 kind ++ (le_bytes 4 len ++ value)

unfoldable pub base_meta_bytes : BaseMeta → Text → Text
base_meta_bytes m rest =
    le_bytes 2 m.pts_is_wall_clock
    ++ (le_bytes 2 m.tc_drop_frame ++ (le_bytes 4 m.timecode ++ rest))

unfoldable pub video_meta_bytes : VideoMeta → Text → Text
video_meta_bytes m rest =
    le_bytes 4 m.width
    ++ (le_bytes 4 m.height
        ++ (le_bytes 4 m.timescale
            ++ (le_bytes 4 m.unit ++ (le_bytes 4 m.gop ++ (le_bytes 4 m.encoder ++ rest)))))

unfoldable pub audio_meta_bytes : AudioMeta → Text → Text
audio_meta_bytes m rest =
    le_bytes 4 m.timescale
    ++ (le_bytes 4 m.unit
        ++ (le_bytes 4 m.sample_rate
            ++ (le_bytes 4 m.sample_size
                ++ (le_bytes 4 m.channel
                    ++ (le_bytes 4 m.bitrate ++ (le_bytes 4 m.encoder ++ rest))))))

unfoldable pub metadata_bytes : Metadata → Text
metadata_bytes m = base_meta_bytes m.meta (video_meta_bytes m.vmeta (audio_meta_bytes m.ameta []))

unfoldable pub video_data_bytes : VideoData → Text
video_data_bytes v =
    le_bytes 8 v.pts
    ++ (le_bytes 8 v.ntp_timestamp
        ++ (le_bytes 4 v.frm_no
            ++ (le_bytes 4 v.kind ++ (le_bytes 8 v.len ++ take v.len v.data_bytes))))

unfoldable pub audio_data_bytes : AudioData → Text
audio_data_bytes a =
    le_bytes 8 a.pts
    ++ (le_bytes 8 a.ntp_timestamp ++ (le_bytes 8 a.len ++ take a.len a.data_bytes))

-- A message's value as a structure, from an offset; none where the structure does not fit in, which the
-- code does not test and reads memory outside the message.
unfoldable pub base_meta_at : ℕ → Text → BaseMeta
base_meta_at o value = record {
  pts_is_wall_clock = member o 2 value;
  tc_drop_frame = member (o + 2) 2 value;
  timecode = member (o + 4) 4 value;
}

unfoldable pub video_meta_at : ℕ → Text → VideoMeta
video_meta_at o value = record {
  width = member o 4 value;
  height = member (o + 4) 4 value;
  timescale = member (o + 8) 4 value;
  unit = member (o + 12) 4 value;
  gop = member (o + 16) 4 value;
  encoder = member (o + 20) 4 value;
}

unfoldable pub audio_meta_at : ℕ → Text → AudioMeta
audio_meta_at o value = record {
  timescale = member o 4 value;
  unit = member (o + 4) 4 value;
  sample_rate = member (o + 8) 4 value;
  sample_size = member (o + 12) 4 value;
  channel = member (o + 16) 4 value;
  bitrate = member (o + 20) 4 value;
  encoder = member (o + 24) 4 value;
}

unfoldable pub as_metadata : Text → Option Metadata
as_metadata value =
    if ltb (length value) metadata_size
    then none
    else some (record {
      meta = base_meta_at 0 value;
      vmeta = video_meta_at 8 value;
      ameta = audio_meta_at 32 value;
    })

unfoldable pub as_video_data : Text → Option VideoData
as_video_data value =
    if ltb (length value) video_data_size
    then none
    else some (record {
      pts = member 0 8 value;
      ntp_timestamp = member 8 8 value;
      frm_no = member 16 4 value;
      kind = member 20 4 value;
      len = member 24 8 value;
      data_bytes = drop 32 value;
    })

unfoldable pub as_audio_data : Text → Option AudioData
as_audio_data value =
    if ltb (length value) audio_data_size
    then none
    else some (record {
      pts = member 0 8 value;
      ntp_timestamp = member 8 8 value;
      len = member 16 8 value;
      data_bytes = drop 24 value;
    })

unfoldable pub as_message : Text → Option Message
as_message value =
    if ltb (length value) message_size
    then none
    else some (record { kind = member 0 4 value; len = member 4 4 value; value = drop 8 value })
