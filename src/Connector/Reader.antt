-- ===== src/Connector/Reader.antt =====
-- src/ssp-client-iso.cpp: the thread that reads the connector's messages from the pipe and calls the
-- plugin's callbacks. `read` stands for `os_process_pipe_read` of OBS: for at most so many bytes, the
-- bytes that it returned and the pipe after it; no bytes at the end of the pipe. `running` is read anew
-- in each round, and what it was then is the round's argument.
pub mod Pipes
pub mod Messages
pub mod Session
use mathlib.Core.Option
use obs_zcamera.Prelude.{
  ℕ, zero, suc, ◌+◌, ◌-◌, ◌≤◌, ◌<◌, ◌≡◌, Bool, true, false, not, Option, none, some, List, [], ◌∷◌,
  ◌++◌, Text, length, is_empty, ◌==◌, if◌then◌else◌,
}
use obs_zcamera.Prelude.Int.{ℤ, to_int32}
use obs_zcamera.Connector.Proto.{
  VideoMeta, AudioMeta, BaseMeta, Metadata, VideoData, AudioData, Message, MessageType,
  meta_data_msg, video_data_msg, audio_data_msg, recv_buffer_full_msg, disconnect_msg,
  connection_connected_msg, exception_msg, connector_ok_msg, type_code, message_size, as_metadata,
  as_video_data, as_audio_data, as_message, member,
}
use obs_zcamera.Connector.Writer.{SspMeta}

-- The callbacks, a message of no known type, and the reading of memory outside the message.
pub data Callback : Type 0 where
  got_meta : VideoMeta → AudioMeta → SspMeta → Callback
  got_h264 : VideoData → Callback
  got_audio : AudioData → Callback
  got_exception : ℤ → Text → Callback
  got_buffer_full got_disconnected got_connected protocol_error outside : Callback

-- The thread has yet to read the connector's greeting, is about to test `running`, or has returned.
pub data Thread : Type 0 where
  greeting loop_test returned : Thread

pub record Receiver (S : Type 0) : Type 0 where
  pub thread : Thread
  pub pipe : S
  pub called : List Callback

-- The string at a pointer, where a zero byte ends it.
unfoldable pub c_string : Text → Option Text
c_string [] = none
c_string (b ∷ bs) = let rest = c_string bs in if b == 0 then some [] else Option.map (◌∷◌ b) rest

unfoldable pub ssp_meta : BaseMeta → SspMeta
ssp_meta m = record {
  pts_is_wall_clock = not (m.pts_is_wall_clock == 0);
  tc_drop_frame = not (m.tc_drop_frame == 0);
  timecode = m.timecode;
}

-- `OnMetadata`, `OnH264Data`, `OnAudioData` and `OnException`.
unfoldable pub on_metadata : Option Metadata → Callback
on_metadata none = outside
on_metadata (some m) = got_meta m.vmeta m.ameta (ssp_meta m.meta)

unfoldable pub on_h264_data : Option VideoData → Callback
on_h264_data none = outside
on_h264_data (some v) = got_h264 v

unfoldable pub on_audio_data : Option AudioData → Callback
on_audio_data none = outside
on_audio_data (some a) = got_audio a

unfoldable pub with_description : ℤ → Option Text → Callback
with_description code none = outside
with_description code (some description) = got_exception code description

unfoldable pub on_exception_message : Option Message → Callback
on_exception_message none = outside
on_exception_message (some m) = with_description (to_int32 m.kind) (c_string m.value)

-- The `switch` of the thread.
unfoldable pub dispatch : Message → Callback
dispatch m =
    if m.kind == type_code meta_data_msg
    then on_metadata (as_metadata m.value)
    else (if m.kind == type_code video_data_msg
        then on_h264_data (as_video_data m.value)
        else (if m.kind == type_code audio_data_msg
            then on_audio_data (as_audio_data m.value)
            else (if m.kind == type_code recv_buffer_full_msg
                then got_buffer_full
                else (if m.kind == type_code disconnect_msg
                    then got_disconnected
                    else (if m.kind == type_code connection_connected_msg
                        then got_connected
                        else (if m.kind == type_code exception_msg
                            then on_exception_message (as_message m.value)
                            else protocol_error))))))

module _ {S : Type 0} (read : ℕ → S → Text × S) where
  -- The loop while bytes are missing. Each round takes a byte at least, so that as many rounds as bytes
  -- are enough: with no round left no byte is missing.
  unfoldable pub read_retry_loop : ℕ → ℕ → S → Text × S
  read_retry_loop zero missing s = ([], s)
  read_retry_loop (suc fuel) zero s = ([], s)
  read_retry_loop (suc fuel) (suc missing) s =
      let (cur, s') = read (suc missing) s in
      let (more, s'') = read_retry_loop fuel (suc missing - length cur) s' in
      if is_empty cur then ([], s') else (cur ++ more, s'')

  unfoldable pub read_retry : ℕ → S → Text × S
  read_retry size s = read_retry_loop size size s

  unfoldable pub msg_recv : S → Option Message × S
  msg_recv s =
      let (header, s') = read_retry message_size s in
      let kind = member 0 4 header in
      let len = member 4 4 header in
      let (body, s'') = read_retry len s' in
      if length header == message_size
      then (if len == 0
          then (some (record { kind = kind; len = len; value = [] }), s')
          else (if length body == len
              then (some (record { kind = kind; len = len; value = body }), s'')
              else (none, s'')))
      else (none, s')

  unfoldable pub greeted : Option Message → Receiver S → Receiver S
  greeted none r = record r { thread = returned }
  greeted (some m) r = record r {
    thread = if m.kind == type_code connector_ok_msg then loop_test else returned;
  }

  unfoldable pub received : Option Message → Receiver S → Receiver S
  received none r = record r { thread = returned }
  received (some m) r = record r { called = r.called ++ dispatch m ∷ [] }

  abbrev pub round_at : Thread → Bool → Receiver S → Receiver S
  round_at greeting running r = let (m, s) = msg_recv r.pipe in greeted m (record r { pipe = s })
  round_at loop_test true r = let (m, s) = msg_recv r.pipe in received m (record r { pipe = s })
  round_at loop_test false r = record r { thread = returned }
  round_at returned running r = r

  unfoldable pub receive_thread : List Bool → Receiver S → Receiver S
  receive_thread [] r = r
  receive_thread (running ∷ later) r = receive_thread later (round_at r.thread running r)

-- What the documentation of the pipe says: the bytes come in their order, no more than were asked for,
-- and none only at the end. `pending` is what the process will still have written when it ends.
pub record IsPipe {S : Type 0} (read : ℕ → S → Text × S) (pending : S → Text) : Type 0 where
  pub splits : (n : ℕ) (s : S) → pending s ≡ (read n s).0 ++ pending (read n s).1
  pub at_most : (n : ℕ) (s : S) → length (read n s).0 ≤ n
  pub ended : (n : ℕ) (s : S) → 0 < n → (read n s).0 ≡ [] → pending s ≡ []
