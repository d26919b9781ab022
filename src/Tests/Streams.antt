-- ===== src/Tests/Streams.antt =====
-- The elementary stream and the connector at concrete inputs.
use obs_zcamera.Prelude.{
  ℕ, ◌≡◌, ◌<◌, refl, sym, true, false, ◌||◌, none, some, List, [], ◌∷◌, ◌++◌, map, codes, arith,
  Text, any, ◌&&◌, length, ltb, if◌then◌else◌, take, drop, replicate, take-append-drop, length-take,
}
use Prim.Native.Nat.{zero, suc, min}
use obs_zcamera.Prelude.Int.{ℤ, pos}
use obs_zcamera.Decoder.Hardware.{
  windows, d3d11va_device, is_config, zc_to_hw_type, zc_hw_ffmpeg_detect,
  zc_hw_ffmpeg_detect-windows, scan_formats, zc_get_format,
}
use obs_zcamera.Decoder.Backend.{auto, d3d11va}
use obs_zcamera.Decoder.Bits.Stream.{bits}
use obs_zcamera.Decoder.Sps.{sps_hevc_bit_depth}
use obs_zcamera.Decoder.Sps.Written.{sps_hevc_bit_depth-hevc_rest}
use obs_zcamera.Decoder.Nal.{h264, hevc, long_code, nal_bit_depth, sps_bit_depth, annexb, passed}
use obs_zcamera.Decoder.Nal.Scan.Units.{unit, nal_bit_depth-unit, annexb-second_unit}
use obs_zcamera.Decoder.Nal.Ends.{nal_bit_depth-ends}
use obs_zcamera.Connector.Proto.{VideoData, message_bytes, le_bytes}
use obs_zcamera.Connector.Writer.{
  Event, video, exception, connected, Fwrite, Connector, setup, run, handle,
}
use obs_zcamera.Connector.Writer.Ends.{Ends, is_cut, is_last, handle-Ends}
use obs_zcamera.Connector.Reader.{
  IsPipe, Receiver, greeting, loop_test, returned, msg_recv, receive_thread,
}
use obs_zcamera.Connector.Reader.Pipes.{Parses, parse_message, msg_recv-parse_message}
use obs_zcamera.Connector.Reader.Messages.{message_of, bytes_of, Fits, delivered}
use obs_zcamera.Connector.Reader.Session.{TakesAll, AllFit, receive_thread-setup}
use obs_zcamera.Connector.Lifecycle.{new, do_start}
use obs_zcamera.Connector.Lifecycle.Runs
use obs_zcamera.Connector.Lifecycle.Runs.{IsTidy, Operation, stopping, restarting, run-IsTidy}

-- High profile, level 4.0, 4:2:0, 10 bits.
abbrev high_sps : Text
high_sps = 100 ∷ 0 ∷ 40 ∷ 166 ∷ []

abbrev tier_level : Text
tier_level = 2 ∷ 32 ∷ 0 ∷ 0 ∷ 0 ∷ 144 ∷ 0 ∷ 0 ∷ 0 ∷ 0 ∷ 0 ∷ 93 ∷ []

abbrev main10_sps : Text
main10_sps = 1 ∷ (tier_level ++ 162 ∷ 16 ∷ 192 ∷ [])

sps_hevc_bit_depth-hevc_rest_example : sps_hevc_bit_depth main10_sps ≡ pos 10
sps_hevc_bit_depth-hevc_rest_example =
    sps_hevc_bit_depth-hevc_rest main10_sps 0 1 (bits tier_level) 0 1 0 3 3 none 2 (replicate 6 0)
      refl refl (omega arith, omega arith, omega arith, omega arith) tt (omega arith)

nal_bit_depth-unit_example :
    nal_bit_depth h264 (long_code ++ unit (103 ∷ []) high_sps) ≡ some (sps_bit_depth h264 high_sps)
nal_bit_depth-unit_example =
    nal_bit_depth-unit h264 (103 ∷ []) high_sps (refl, ((λ e. cc e), tt)) refl refl (omega arith)

annexb-second_unit_example :
    annexb hevc
      (long_code ++ (unit (64 ∷ 1 ∷ []) (12 ∷ []) ++ (long_code ++ unit (66 ∷ 1 ∷ []) main10_sps)))
    ≡ passed
annexb-second_unit_example =
    annexb-second_unit hevc (64 ∷ 1 ∷ []) (12 ∷ []) (66 ∷ 1 ∷ []) main10_sps
      (refl, ((λ e. cc e), ((λ e. cc e), tt))) (refl, ((λ e. cc e), ((λ e. cc e), tt))) refl

nal_bit_depth-ends_example :
    (depth : ℤ) × (nal_bit_depth h264 (0 ∷ 0 ∷ 0 ∷ 1 ∷ 103 ∷ []) ≡ some depth)
nal_bit_depth-ends_example = nal_bit_depth-ends h264 (0 ∷ 0 ∷ 0 ∷ 1 ∷ 103 ∷ [])

-- A pipe that gives three bytes at most, and an output that takes everything.
abbrev trickle : ℕ → Text → Text × Text
trickle n s = (take (min n 3) s, drop (min n 3) s)

abbrev held : Text → Text
held s = s

take-none : (n : ℕ) (s : Text) → 0 < n → take n s ≡ [] → s ≡ []
take-none zero s h e = absurd (omega arith)
take-none (suc n) [] h e = refl
take-none (suc n) (x ∷ s) h e = cc

trickle-IsPipe : IsPipe trickle held
trickle-IsPipe = record {
  splits = λ n s. sym (take-append-drop (min n 3) s);
  at_most = λ n s. omega (arith, length-take (min n 3) s);
  ended = λ n s h e. take-none (min n 3) s (omega (arith, h)) e;
}

abbrev whole : Fwrite
whole before buf = (length buf, false)

whole-TakesAll : TakesAll whole
whole-TakesAll before buf = refl

abbrev picture : VideoData
picture = record {
  pts = 40;
  ntp_timestamp = 7;
  frm_no = 1;
  kind = 1;
  len = 2;
  data_bytes = codes "ab";
}

abbrev session : List Event
session = connected ∷ video picture ∷ exception (pos 5) (codes "no") ∷ []

abbrev sent : Text
sent = (run whole session (setup whole)).written

abbrev at_start : Receiver Text
at_start = record { thread = greeting; pipe = sent; called = [] }

session-AllFit : AllFit session
session-AllFit = (tt, (video_fits, ((omega arith, refl, omega arith), tt)))
  where
    video_fits : Fits (video picture)
    video_fits =
        ((omega arith, omega arith, omega arith, omega arith, omega arith, refl), omega arith)

receive_thread-setup_example :
    ((receive_thread trickle (replicate 5 true) at_start).called ≡ map delivered (take 4 session))
    × ((receive_thread trickle (replicate 5 true) at_start).thread
        ≡ (if ltb 3 4 then returned else loop_test))
receive_thread-setup_example =
    receive_thread-setup trickle held trickle-IsPipe whole whole-TakesAll session 4 sent
      session-AllFit refl

msg_recv-parse_message_example :
    Parses trickle held trickle-IsPipe
      (parse_message (bytes_of (message_of (video picture))))
      (msg_recv trickle (bytes_of (message_of (video picture))))
msg_recv-parse_message_example =
    msg_recv-parse_message trickle held trickle-IsPipe (bytes_of (message_of (video picture)))

-- An output that is full after five bytes of each message.
abbrev short_write : Fwrite
short_write before buf = (min 5 (length buf), false)

abbrev running : Connector
running = record { written = []; client_stopped = false; loop_quit = false }

handle-Ends_example :
    Ends running
      (is_cut (short_write [] (bytes_of (message_of connected))) (bytes_of (message_of connected))
        || is_last connected)
      (handle short_write connected running)
unfolding message_bytes le_bytes
handle-Ends_example =
    handle-Ends short_write (λ before buf. omega arith) connected running (omega arith)

abbrev history : List (Operation ℕ)
history = restarting (some 2) ∷ stopping ∷ []

run-IsTidy_example : IsTidy (Runs.run history (do_start (some 1) new))
run-IsTidy_example = run-IsTidy history (some 1)

-- A decoder with a configuration for D3D11VA, on a machine where no device opens.
zc_hw_ffmpeg_detect-windows_example :
    zc_hw_ffmpeg_detect windows (λ device. false) (some ((true, d3d11va_device) ∷ [])) auto ≡ (
      if any (is_config d3d11va_device) ((true, d3d11va_device) ∷ []) && false
      then some d3d11va
      else none)
unfolding zc_to_hw_type
zc_hw_ffmpeg_detect-windows_example =
    zc_hw_ffmpeg_detect-windows (λ device. false) ((true, d3d11va_device) ∷ []) auto refl

-- A stream of baseline profile on a decoder of D3D11, and a decoder whose format is not offered.
zc_get_format_lem :
    (zc_get_format 172
        (record { hw_pix_fmt = some 172; codec = h264; is_baseline = true })
        (0 ∷ 172 ∷ [])
      ≡ (some 172, true))
    × (zc_get_format 172
          (record { hw_pix_fmt = some 172; codec = h264; is_baseline = true })
          (0 ∷ 12 ∷ [])
        ≡ (some 0, false))
unfolding zc_get_format scan_formats
zc_get_format_lem = (refl, refl)
