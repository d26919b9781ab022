-- ===== src/Connector/Reader/Messages.antt =====
-- What the connector writes for a callback of the SSP library, and what the plugin makes of it.
use obs_zcamera.Prelude.{
  ℕ, suc, ◌+◌, ◌%◌, ◌^◌, ◌<◌, ◌≡◌, refl, sym, ap, ◌∙◌, Bool, true, false, not, some, [], ◌∷◌, ◌++◌,
  Text, length, take, any, ◌==◌, arith, length-append, take-length, take-length_append,
  drop-length_append,
}
use obs_zcamera.Prelude.Int.{ℤ, pos, negsuc, to_int32}
use obs_zcamera.Connector.Proto.{
  le_bytes, Message, message_bytes, metadata_bytes, video_data_bytes, audio_data_bytes, type_code,
}
use obs_zcamera.Connector.Proto.Layout.{
  le4, FitsBase, FitsVideo, FitsAudio, IsVideoData, IsAudioData, as_metadata-written,
  as_video_data-written, as_audio_data-written, as_message-written, length-metadata,
  length-video_data, length-audio_data, length-message,
}
use obs_zcamera.Connector.Writer.{
  SspMeta, Event, video, audio, meta, exception, connected, buffer_full, disconnected, flag,
  to_uint32, to_base_meta,
}
use obs_zcamera.Connector.Reader.{
  Callback, got_meta, got_h264, got_audio, got_exception, got_buffer_full, got_disconnected,
  got_connected, c_string, ssp_meta, on_metadata, on_h264_data, on_audio_data, with_description,
  on_exception_message, dispatch,
}
use obs_zcamera.Connector.Reader.Pipes.{parse_message}

-- A message whose length counts its value comes off the front of the bytes.
pub parse_message-written :
    (m : Message) (rest : Text)
    → m.kind < 2 ^ 32
    → m.len < 2 ^ 32
    → length m.value ≡ m.len
    → parse_message (message_bytes m.kind m.len m.value ++ rest) ≡ some (m, rest)
unfolding message_bytes le_bytes
parse_message-written m rest hk hl counted =
    rw
      (
        le4 m.kind hk,
        le4 m.len hl,
        sym counted,
        take-length_append m.value rest,
        drop-length_append m.value rest,
      )
      (ground (arith, length-append m.value rest))

abbrev empty_message : ℕ → Message
empty_message kind = record { kind = kind; len = 0; value = [] }

-- The message of each callback.
abbrev pub message_of : Event → Message
message_of (video v) = record { kind = 2; len = (32 + v.len) % 2 ^ 32; value = video_data_bytes v }
message_of (audio a) = record { kind = 3; len = (24 + a.len) % 2 ^ 32; value = audio_data_bytes a }
message_of (meta vmeta ameta m) = record {
  kind = 1;
  len = 60;
  value = metadata_bytes (record { meta = to_base_meta m; vmeta = vmeta; ameta = ameta });
}
message_of (exception code description) = record {
  kind = 7;
  len = (8 + suc (length description)) % 2 ^ 32;
  value =
      message_bytes (to_uint32 code) (suc (length description) % 2 ^ 32) (description ++ 0 ∷ []);
}
message_of connected = empty_message 6
message_of buffer_full = empty_message 4
message_of disconnected = empty_message 5

-- Numbers of the sizes of their types, buffers that hold what they count, a message that the 32 bits of
-- its length count, and a description that is a C string.
abbrev IsInt : ℤ → Type 0
IsInt (pos n) = n < 2 ^ 31
IsInt (negsuc n) = n < 2 ^ 31

abbrev pub Fits : Event → Type 0
Fits (video v) = IsVideoData v × (32 + v.len < 2 ^ 32)
Fits (audio a) = IsAudioData a × (24 + a.len < 2 ^ 32)
Fits (meta vmeta ameta m) = FitsVideo vmeta × FitsAudio ameta × (m.timecode < 2 ^ 32)
Fits (exception code description) =
    IsInt code × (any (λ c. c == 0) description ≡ false) × (9 + length description < 2 ^ 32)
Fits connected = Unit
Fits buffer_full = Unit
Fits disconnected = Unit

-- What the plugin's callback gets.
abbrev pub delivered : Event → Callback
delivered (video v) = got_h264 v
delivered (audio a) = got_audio a
delivered (meta vmeta ameta m) = got_meta vmeta ameta m
delivered (exception code description) = got_exception code description
delivered connected = got_connected
delivered buffer_full = got_buffer_full
delivered disconnected = got_disconnected

c_string-written : (s : Text) → any (λ c. c == 0) s ≡ false → c_string (s ++ 0 ∷ []) ≡ some s
unfolding c_string
c_string-written [] h = refl
c_string-written (c ∷ s) h = ground (arith, c_string-written s)

to_int32-to_uint32 : (code : ℤ) → IsInt code → to_int32 (to_uint32 code) ≡ code
unfolding to_int32 to_uint32
to_int32-to_uint32 (pos n) h = ground arith
to_int32-to_uint32 (negsuc n) h = ground arith

flag-back : (b : Bool) → not (flag b == 0) ≡ b
flag-back true = refl
flag-back false = refl

flag_fits : (b : Bool) → flag b < 2 ^ 16
flag_fits true = omega arith
flag_fits false = omega arith

base_fits : (m : SspMeta) → m.timecode < 2 ^ 32 → FitsBase (to_base_meta m)
unfolding to_base_meta
base_fits m h = (flag_fits m.pts_is_wall_clock, flag_fits m.tc_drop_frame, h)

ssp_meta-to_base_meta : (m : SspMeta) → ssp_meta (to_base_meta m) ≡ m
unfolding ssp_meta to_base_meta
ssp_meta-to_base_meta m = rw (flag-back m.pts_is_wall_clock, flag-back m.tc_drop_frame) refl

to_uint32_lt : (code : ℤ) → to_uint32 code < 2 ^ 32
unfolding to_uint32
to_uint32_lt (pos n) = omega arith
to_uint32_lt (negsuc n) = omega arith

pub dispatch-message_of : (e : Event) → Fits e → dispatch (message_of e) ≡ delivered e
unfolding dispatch type_code on_h264_data on_audio_data on_metadata on_exception_message
    with_description
dispatch-message_of (video v) (h, _) = rw (as_video_data-written v h) refl
dispatch-message_of (audio a) (h, _) = rw (as_audio_data-written a h) refl
dispatch-message_of (meta vmeta ameta m) (hv, ha, ht) =
    let base = to_base_meta m in
    rw
      (
        as_metadata-written (record { meta = base; vmeta = vmeta; ameta = ameta })
            (base_fits m ht, hv, ha),
        ssp_meta-to_base_meta m,
      )
      refl
dispatch-message_of (exception code description) (hc, hz, hl) =
    rw
      (
        as_message-written (to_uint32 code) (suc (length description) % 2 ^ 32)
            (description ++ 0 ∷ []) (to_uint32_lt code) (omega arith),
        c_string-written description hz,
        to_int32-to_uint32 code hc,
      )
      refl
dispatch-message_of connected h = refl
dispatch-message_of buffer_full h = refl
dispatch-message_of disconnected h = refl

message_of-whole :
    (e : Event)
    → Fits e
    → ((message_of e).kind < 2 ^ 32)
      × ((message_of e).len < 2 ^ 32)
      × (length (message_of e).value ≡ (message_of e).len)
message_of-whole (video v) (h, hl) =
    let whole =
      ap (λ n. length (take n v.data_bytes)) h.5 ∙ ap length (take-length v.data_bytes) ∙ sym h.5 in
    (omega arith, omega arith, omega (arith, length-video_data v, whole, hl))
message_of-whole (audio a) (h, hl) =
    let whole =
      ap (λ n. length (take n a.data_bytes)) h.3 ∙ ap length (take-length a.data_bytes) ∙ sym h.3 in
    (omega arith, omega arith, omega (arith, length-audio_data a, whole, hl))
message_of-whole (meta vmeta ameta m) h = (
  omega arith,
  omega arith,
  length-metadata (record { meta = to_base_meta m; vmeta = vmeta; ameta = ameta }),
)
message_of-whole (exception code description) (hc, hz, hl) =
    let size =
      length-message (to_uint32 code) (suc (length description) % 2 ^ 32) (description ++ 0 ∷ []) in
    (omega arith, omega arith, omega (arith, size, length-append description (0 ∷ []), hl))
message_of-whole connected h = (omega arith, omega arith, refl)
message_of-whole buffer_full h = (omega arith, omega arith, refl)
message_of-whole disconnected h = (omega arith, omega arith, refl)

abbrev pub bytes_of : Message → Text
bytes_of m = message_bytes m.kind m.len m.value

-- The plugin parses the message of a callback.
pub parse_message-message_of :
    (e : Event) (rest : Text)
    → Fits e
    → parse_message (bytes_of (message_of e) ++ rest) ≡ some (message_of e, rest)
parse_message-message_of e rest h =
    let (kind, len, counted) = message_of-whole e h in
    parse_message-written (message_of e) rest kind len counted
