-- ===== src/Tests/Sources.antt =====
-- The OBS source at a concrete address.
use obs_zcamera.Prelude.{
  ℕ, ◌≡◌, refl, true, false, none, some, List, [], ◌∷◌, inr, sym, true≢false, codes, take, ◌==◌,
  arith, if◌then◌else◌,
}
use obs_zcamera.Decoder.Nal.{h264}
use obs_zcamera.Decoder.Backend.{
  auto, cuda, d3d11va, zc_hw_decoder_create, zc_hw_resolve, or_fallback,
}
use obs_zcamera.Picture.{Picture, nv12}
use obs_zcamera.Video.{
  fit_depth_during, video_render, Build, Video, no_picture, gpu, cpu, no_video, on_packet, decode,
  fit_depth, sniff, rebuild, install_decoder, fresh_decoder, create_decoder, opened, chosen,
  output_video, drop_pending,
}
use obs_zcamera.Video.Owned.{tally}
use obs_zcamera.Video.Current.{IsCurrent}
use obs_zcamera.Video.Depth.{on_packet-depth, fit_depth_during-video_render}
use obs_zcamera.Source.{
  Settings, Source, no_thread, watchdog, wake, constructed, zc_source_destroy, Event, updates,
  metas, videos, renders, wakes, stops, disconnects, run,
}
use obs_zcamera.Source.Connection.{IsSound, run-IsSound}
use obs_zcamera.Source.Resources.{zc_source_destroy-released}
use obs_zcamera.Source.Stall.{Rebuilt, watchdog-Rebuilt}

-- A profile with the old backend and no address, and a source that has it in its name.
abbrev old_profile : Settings
old_profile = record {
  ip = [];
  backend = cuda;
  bitrate = 10;
  sync_mode = 0;
  wait_i_frame = false;
  low_noise = false;
}

abbrev fresh : Source ℕ ℕ
fresh = constructed (some (codes "ZCamera 10.0.0.2"))

-- A build with all decoders: decoder 1 is the software's, 2 that of hardware, and 3 the one for ten bits.
abbrev machine : Build ℕ
machine = record {
  detect = λ requested codec. d3d11va;
  ffmpeg = λ width height ten_bit backend codec. some (if ten_bit then 3 else 2);
  sw = λ codec. some 1;
  zero_copy = true;
  enable_sw = true;
  async = false;
  opens = λ shape. true;
  creates = λ shape. true;
}

abbrev small : Picture
small = record {
  format = nv12;
  width = 4;
  height = 2;
  timestamp = 0;
  has_data = true;
  strides = 4 ∷ 4 ∷ [];
}

-- Two surfaces are decoded, of which the second cannot be imported; then the software decodes a picture.
abbrev history : List (Event ℕ)
history =
    updates 5 old_profile
    ∷ metas 96 4 2
    ∷ videos 6 5 [] (gpu 70 4 2)
    ∷ renders 7 true
    ∷ videos 8 1 [] (gpu 71 4 2)
    ∷ renders 9 false
    ∷ videos 10 1 [] (cpu small)
    ∷ disconnects
    ∷ disconnects
    ∷ wakes 11
    ∷ disconnects
    ∷ stops
    ∷ []

run-IsSound_example : IsSound (run machine history fresh)
unfolding constructed
run-IsSound_example = run-IsSound machine history fresh (refl, refl, refl)

-- The steps up to the picture of the software.
abbrev shown : List (Event ℕ)
shown = take 7 history

zc_source_destroy-released_example :
    ((zc_source_destroy (run machine shown fresh)).video.built
      ≡ (zc_source_destroy (run machine shown fresh)).video.destroyed)
    × (tally (λ n. n == 70) (zc_source_destroy (run machine shown fresh)).video.decoded
        ≡ tally (λ n. n == 70) (zc_source_destroy (run machine shown fresh)).video.released)
zc_source_destroy-released_example =
    zc_source_destroy-released (λ n. n == 70) machine shown (some (codes "ZCamera 10.0.0.2")) refl

abbrev stalled : Source ℕ ℕ
stalled = record {
  name = none;
  settings = record old_profile { ip = codes "10.0.0.2" };
  client = some (codes "10.0.0.2", 10240);
  running = true;
  i_frame_shown = false;
  stopping = false;
  thread = no_thread;
  reconnect_joined = true;
  started_ns = 1;
  last_packet_ns = 7;
  video = record no_video { decoder = some 1; built = 1 ∷ [] };
  aborted = false;
}

watchdog-Rebuilt_example :
    Rebuilt 30000000000 stalled (wake 30000000000 (watchdog 20000000000 stalled))
watchdog-Rebuilt_example =
    watchdog-Rebuilt 20000000000 30000000000 stalled refl refl refl refl refl (omega arith)
      (omega arith) (omega arith)

-- A decoder of hardware that was built for eight bits, and a stream of ten.
abbrev deep : Video ℕ ℕ
deep = record no_video {
  decoder = some 2;
  backend = d3d11va;
  bit_depth_known = true;
  stream_ten_bit = true;
  built = 2 ∷ [];
}

deep-IsCurrent : IsCurrent machine deep
unfolding IsCurrent opened zc_hw_decoder_create or_fallback
deep-IsCurrent = (inr refl, λ e. absurd (true≢false (sym e)))

abbrev rebuilt : Video ℕ ℕ
rebuilt = on_packet machine auto 0 5 [] no_picture deep

on_packet-depth_example :
    rebuilt.decoder
    ≡ opened machine rebuilt.meta_w rebuilt.meta_h rebuilt.stream_ten_bit rebuilt.backend
        rebuilt.codec
unfolding on_packet decode fit_depth sniff rebuild install_decoder fresh_decoder create_decoder
    opened zc_hw_decoder_create chosen zc_hw_resolve or_fallback output_video drop_pending
on_packet-depth_example =
    on_packet-depth machine auto 0 5 [] no_picture deep deep-IsCurrent refl refl refl

-- The same decoder, with a surface that waits.
abbrev waiting_deep : Video ℕ ℕ
waiting_deep = record deep { pending = some 71; decoded = 71 ∷ [] }

abbrev fought : Video ℕ ℕ
fought = fit_depth_during (video_render machine true auto false) machine true auto waiting_deep

fit_depth_during-video_render_example :
    (fought.force_software ≡ true)
    × (fought.backend ≡ chosen machine auto h264 false)
    × (fought.decoder ≡ opened machine 0 0 true fought.backend h264)
fit_depth_during-video_render_example =
    fit_depth_during-video_render machine auto waiting_deep 71 refl refl
