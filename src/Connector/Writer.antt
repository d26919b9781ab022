-- ===== src/Connector/Writer.antt =====
-- ssp_connector/main.cpp: the process that reads the camera's stream with the SSP library and writes
-- each callback of it to its standard output as one message. `fwrite` stands for the C function on
-- stdout, given what was written before: the number of bytes that it took, and `ferror`.
pub mod Ends
use obs_zcamera.Prelude.{
  ℕ, zero, suc, ◌+◌, ◌-◌, ◌%◌, ◌^◌, Bool, true, false, Option, none, some, List, [], ◌∷◌, ◌++◌,
  Text, length, take, ◌==◌, if◌then◌else◌,
}
use obs_zcamera.Prelude.Int.{ℤ, pos, negsuc, to_int32}
use obs_zcamera.Connector.Proto.{
  VideoMeta, AudioMeta, BaseMeta, Metadata, VideoData, AudioData, message_bytes, metadata_bytes,
  video_data_bytes, audio_data_bytes, MessageType, meta_data_msg, video_data_msg, audio_data_msg,
  recv_buffer_full_msg, disconnect_msg, connection_connected_msg, exception_msg, connector_ok_msg,
  type_code, message_size, metadata_size, video_data_size, audio_data_size,
}

pub record Connector : Type 0 where
  pub written : Text
  -- `gSspClient->stop()` and `gLoop->quit()` were called.
  pub client_stopped : Bool
  pub loop_quit : Bool

-- `SspMeta` of the library, whose flags are `bool`.
pub record SspMeta : Type 0 where
  pub pts_is_wall_clock : Bool
  pub tc_drop_frame : Bool
  pub timecode : ℕ

abbrev pub flag : Bool → ℕ
flag true = 1
flag false = 0

-- The callbacks of the library.
pub data Event : Type 0 where
  video : VideoData → Event
  audio : AudioData → Event
  meta : VideoMeta → AudioMeta → SspMeta → Event
  exception : ℤ → Text → Event
  connected buffer_full disconnected : Event

abbrev pub Fwrite : Type 0
Fwrite = Text → Text → ℕ × Bool

-- `(uint32_t)code`.
unfoldable pub to_uint32 : ℤ → ℕ
to_uint32 (pos n) = n % 2 ^ 32
to_uint32 (negsuc n) = 2 ^ 32 - suc (n % 2 ^ 32)

-- `sz == len` of an int and a size_t.
unfoldable pub same_size : ℤ → ℕ → Bool
same_size (pos n) len = n == len
same_size (negsuc n) len = 2 ^ 64 - suc n == len

unfoldable pub msg_write : Fwrite → Text → Connector → ℤ × Connector
msg_write fwrite buf c =
    let (writed, failed) = fwrite c.written buf in
    let c' = record c { written = c.written ++ take writed buf } in
    if failed then (negsuc 0, c') else (to_int32 writed, c')

abbrev pub stop_all : Connector → Connector
stop_all c = record c { client_stopped = true; loop_quit = true }

-- A message is written, and what follows a message that was cut.
unfoldable pub send : Fwrite → Text → Connector → Connector
send fwrite buf c =
    let (sz, c') = msg_write fwrite buf c in if same_size sz (length buf) then c' else stop_all c'

-- `on_general_message`, `on_video`, `on_audio`, `on_meta`, `on_exception` and the lambda of `setup`.
unfoldable pub on_general_message : Fwrite → MessageType → Connector → Connector
on_general_message fwrite kind c = send fwrite (message_bytes (type_code kind) 0 []) c

unfoldable pub on_video : Fwrite → VideoData → Connector → Connector
on_video fwrite v c =
    send fwrite
      (message_bytes (type_code video_data_msg) ((video_data_size + v.len) % 2 ^ 32)
        (video_data_bytes v))
      c

unfoldable pub on_audio : Fwrite → AudioData → Connector → Connector
on_audio fwrite a c =
    send fwrite
      (message_bytes (type_code audio_data_msg) ((audio_data_size + a.len) % 2 ^ 32)
        (audio_data_bytes a))
      c

unfoldable pub to_base_meta : SspMeta → BaseMeta
to_base_meta m = record {
  pts_is_wall_clock = flag m.pts_is_wall_clock;
  tc_drop_frame = flag m.tc_drop_frame;
  timecode = m.timecode;
}

unfoldable pub on_meta : Fwrite → VideoMeta → AudioMeta → SspMeta → Connector → Connector
on_meta fwrite vmeta ameta m c =
    send fwrite
      (message_bytes (type_code meta_data_msg) metadata_size
        (metadata_bytes (record { meta = to_base_meta m; vmeta = vmeta; ameta = ameta })))
      c

unfoldable pub exception_bytes : ℤ → Text → Text
exception_bytes code description =
    message_bytes (type_code exception_msg) ((message_size + suc (length description)) % 2 ^ 32)
      (message_bytes (to_uint32 code) (suc (length description) % 2 ^ 32) (description ++ 0 ∷ []))

unfoldable pub on_exception : Fwrite → ℤ → Text → Connector → Connector
on_exception fwrite code description c =
    stop_all (msg_write fwrite (exception_bytes code description) c).1

unfoldable pub on_disconnected : Fwrite → Connector → Connector
on_disconnected fwrite c = stop_all (on_general_message fwrite disconnect_msg c)

unfoldable pub handle : Fwrite → Event → Connector → Connector
handle fwrite (video v) c = on_video fwrite v c
handle fwrite (audio a) c = on_audio fwrite a c
handle fwrite (meta vmeta ameta m) c = on_meta fwrite vmeta ameta m c
handle fwrite (exception code description) c = on_exception fwrite code description c
handle fwrite connected c = on_general_message fwrite connection_connected_msg c
handle fwrite buffer_full c = on_general_message fwrite recv_buffer_full_msg c
handle fwrite disconnected c = on_disconnected fwrite c

-- `setup`, and the loop's callbacks in their order.
unfoldable pub setup : Fwrite → Connector
setup fwrite =
    on_general_message fwrite connector_ok_msg
      (record { written = []; client_stopped = false; loop_quit = false })

unfoldable pub run : Fwrite → List Event → Connector → Connector
run fwrite [] c = c
run fwrite (e ∷ es) c = run fwrite es (handle fwrite e c)
