-- ===== src/Video.antt =====
-- src/zc_source.cpp: the decoder of an OBS source and its pictures. A surface of the GPU is an `F`, which
-- the source owns from its decoding until it is released, and a decoder is a `D`; four lists, which the code
-- does not have, record what was built, destroyed, decoded and released. What the libraries answer is an
-- argument: the picture that a decoder makes of a packet, and whether a surface can be imported. Each function
-- is one step of the histories: that is an assumption, which the locks of the code do not give, since
-- `onVideoData` and `onMeta` free decoderMutex_ between their test and the new decoder. `fit_depth_during` has
-- that moment of `onVideoData`.
pub mod Owned
pub mod Software
pub mod Current
pub mod Depth
pub mod Buffers
use obs_zcamera.Prelude.{
  ℕ, Bool, true, false, not, ◌&&◌, ◌||◌, Option, none, some, List, [], ◌∷◌, ◌++◌, Text, leb, ◌==◌,
  if◌then◌else◌, same_flag,
}
use obs_zcamera.Prelude.Int.{ℤ, pos, negsuc}
use obs_zcamera.Decoder.Nal.{Codec, h264, hevc, nal_bit_depth}
use obs_zcamera.Decoder.Backend.{
  HwBackend, auto, software, is_software, zc_hw_resolve, zc_hw_decoder_create,
}
use obs_zcamera.Picture.{Picture, Shape, Cpu, no_cpu, convert, upload, free_cpu}

-- What the build and the machine have: its options, its decoders, of which those of hardware are made for a
-- size and a bit depth, its convertors and its textures. `async` is the source's.
pub record Build (D : Type 0) : Type 0 where
  pub detect : HwBackend → Codec → HwBackend
  pub ffmpeg : ℕ → ℕ → Bool → HwBackend → Codec → Option D
  pub sw : Codec → Option D
  pub zero_copy : Bool
  pub enable_sw : Bool
  pub async : Bool
  pub opens : Shape → Bool
  pub creates : Shape → Bool

-- What a decoder makes of a packet: a surface with its size, a picture of the CPU, or nothing.
pub data Decoded (F : Type 0) : Type 0 where
  no_picture : Decoded F
  gpu : F → ℕ → ℕ → Decoded F
  cpu : Picture → Decoded F

pub record Video (D F : Type 0) : Type 0 where
  pub decoder : Option D
  pub backend : HwBackend
  pub codec : Codec
  pub decoder_ten_bit : Bool
  pub bit_depth_known : Bool
  pub stream_ten_bit : Bool
  pub force_software : Bool
  pub meta_w : ℕ
  pub meta_h : ℕ
  pub last_width : ℕ
  pub last_height : ℕ
  pub pending : Option F
  pub drawn : Option F
  pub cpu_frame : Cpu
  -- Handed to OBS by an asynchronous source.
  pub outputs : List Picture
  pub built : List D
  pub destroyed : List D
  pub decoded : List F
  pub released : List F

abbrev pub listed {ℓ} : {A : Type ℓ} → Option A → List A
listed none = []
listed (some a) = a ∷ []

abbrev pub is_there {ℓ} : {A : Type ℓ} → Option A → Bool
is_there none = false
is_there (some a) = true

abbrev pub same_codec : Codec → Codec → Bool
same_codec h264 h264 = true
same_codec h264 hevc = false
same_codec hevc h264 = false
same_codec hevc hevc = true

-- `bd >= 8`, and then the depth, where the search ended.
unfoldable pub sniffed : Option ℤ → Option ℕ
sniffed (some (pos depth)) = if leb 8 depth then some depth else none
sniffed (some (negsuc n)) = none
sniffed none = none

-- `VIDEO_ENCODER_H264` is 96.
unfoldable pub codec_of : ℕ → Codec
codec_of encoder = if encoder == 96 then h264 else hevc

module _ {D : Type 0} where
  -- The backend that `createDecoder` resolves.
  unfoldable pub chosen : Build D → HwBackend → Codec → Bool → HwBackend
  chosen b requested codec forced =
      zc_hw_resolve b.detect b.zero_copy b.enable_sw
        (if forced || b.async then software else requested) codec

  unfoldable pub opened : Build D → ℕ → ℕ → Bool → HwBackend → Codec → Option D
  opened b width height ten_bit backend codec =
      zc_hw_decoder_create (b.ffmpeg width height ten_bit) b.sw b.zero_copy b.enable_sw backend
        codec

module _ {D F : Type 0} where
  -- As it is constructed.
  abbrev pub no_video : Video D F
  no_video = record {
    decoder = none;
    backend = software;
    codec = h264;
    decoder_ten_bit = false;
    bit_depth_known = false;
    stream_ten_bit = false;
    force_software = false;
    meta_w = 0;
    meta_h = 0;
    last_width = 0;
    last_height = 0;
    pending = none;
    drawn = none;
    cpu_frame = no_cpu;
    outputs = [];
    built = [];
    destroyed = [];
    decoded = [];
    released = [];
  }

  unfoldable pub create_decoder :
      Build D → HwBackend → ℕ → ℕ → Codec → Bool → Bool → Video D F → Option D × Video D F
  create_decoder b requested width height codec forced ten_bit v =
      let backend = chosen b requested codec forced in
      let fresh = opened b width height ten_bit backend codec in
      (fresh, record v { backend = backend; built = v.built ++ listed fresh })

  unfoldable pub install_decoder : Option D → Video D F → Video D F
  install_decoder fresh v = record v {
    decoder = fresh;
    destroyed = v.destroyed ++ listed v.decoder;
  }

  -- The surface that waits is released and forgotten.
  unfoldable pub drop_pending : Video D F → Video D F
  drop_pending v = record v { pending = none; released = v.released ++ listed v.pending }

  -- A decoder if the source runs, else none.
  unfoldable pub fresh_decoder :
      Build D → Bool → HwBackend → ℕ → ℕ → Codec → Bool → Bool → Video D F → Option D × Video D F
  fresh_decoder b running requested width height codec forced ten_bit v =
      if running then create_decoder b requested width height codec forced ten_bit v else (none, v)

  -- The same sequence in `onVideoData` and in `onMeta`.
  unfoldable pub rebuild :
      Build D → Bool → HwBackend → ℕ → ℕ → Codec → Bool → Bool → Video D F → Video D F
  rebuild b running requested width height codec forced ten_bit v =
      let (fresh, v') =
        fresh_decoder b running requested width height codec forced ten_bit (drop_pending v) in
      install_decoder fresh (record v' { codec = codec; decoder_ten_bit = ten_bit })

  unfoldable pub known_ten_bit : Video D F → Bool
  known_ten_bit v = if v.bit_depth_known then v.stream_ten_bit else false

  unfoldable pub on_meta : Build D → Bool → HwBackend → ℕ → ℕ → ℕ → Video D F → Video D F
  on_meta b running requested encoder width height v =
      let codec = codec_of encoder in
      let resized = is_there v.decoder && not (v.meta_w == width && v.meta_h == height) in
      let need_rebuild =
        not (is_there v.decoder)
        || (not (same_codec codec v.codec)
            || (resized || v.force_software && not (is_software v.backend))) in
      let v' = record v { meta_w = width; meta_h = height } in
      if need_rebuild
      then rebuild b running requested width height codec v.force_software (known_ten_bit v) v'
      else v'

  -- The depth that the packet says, where there is a decoder and the depth is not known.
  unfoldable pub learn : Option ℕ → Video D F → Video D F
  learn none v = v
  learn (some depth) v = record v { bit_depth_known = true; stream_ten_bit = leb 10 depth }

  unfoldable pub sniff : Text → Video D F → Video D F
  sniff packet v =
      if is_there v.decoder && not v.bit_depth_known
      then learn (sniffed (nal_bit_depth v.codec packet)) v
      else v

  -- The test of `onVideoData` under decoderMutex_.
  abbrev pub misses_depth : Video D F → Bool
  misses_depth v =
      v.bit_depth_known
      && (is_there v.decoder
          && (not (is_software v.backend) && not (same_flag v.decoder_ten_bit v.stream_ten_bit)))

  -- What it does after that, with the depth that it has kept.
  abbrev pub rebuild_depth : Build D → Bool → HwBackend → Bool → Video D F → Video D F
  rebuild_depth b running requested ten_bit v =
      rebuild b running requested v.meta_w v.meta_h v.codec false ten_bit v

  -- Both, with what the other threads do to the decoder between them: the mutex is free there.
  unfoldable pub fit_depth_during :
      (Video D F → Video D F) → Build D → Bool → HwBackend → Video D F → Video D F
  fit_depth_during meanwhile b running requested v =
      if misses_depth v then rebuild_depth b running requested v.stream_ten_bit (meanwhile v) else v

  -- Both, with nothing between them.
  unfoldable pub fit_depth : Build D → Bool → HwBackend → Video D F → Video D F
  unfolding fit_depth_during
  fit_depth b running requested v = fit_depth_during (λ w. w) b running requested v

  -- The asynchronous source hands the picture of the CPU to OBS, with the time as the settings want it; the
  -- other one keeps the surface in place of one that was not drawn, or converts the picture.
  unfoldable pub output_video : Build D → ℕ → ℕ → Decoded F → Video D F → Video D F
  output_video b sync now no_picture v = v
  output_video b sync now (gpu f width height) v =
      let v' = record v { decoded = v.decoded ++ (f ∷ []) } in
      if b.async then v' else record v' {
        pending = some f;
        released = v.released ++ listed v.pending;
        last_width = width;
        last_height = height;
      }
  output_video b sync now (cpu picture) v =
      let sized = record v { last_width = picture.width; last_height = picture.height } in
      let stamped = if sync == 0 then record picture { timestamp = now } else picture in
      if b.async
      then record sized { outputs = v.outputs ++ (stamped ∷ []) }
      else (if b.enable_sw
          then record sized { cpu_frame = convert b.opens picture v.cpu_frame }
          else v)

  unfoldable pub decode : Build D → ℕ → ℕ → Decoded F → Video D F → Video D F
  decode b sync now outcome v = if is_there v.decoder then output_video b sync now outcome v else v

  -- `onVideoData` of a packet that is not held back, as one step.
  unfoldable pub on_packet : Build D → HwBackend → ℕ → ℕ → Text → Decoded F → Video D F → Video D F
  on_packet b requested sync now packet outcome v =
      decode b sync now outcome (fit_depth b true requested (sniff packet v))

  -- A surface that cannot be imported: the rest of the connection is decoded in software.
  unfoldable pub fall_back : Build D → Bool → HwBackend → Video D F → Video D F
  fall_back b running requested v =
      let dropped = record (drop_pending v) { force_software = true } in
      if v.force_software
      then dropped
      else (let (fresh, v') =
            fresh_decoder b running requested v.last_width v.last_height v.codec true
              (known_ten_bit v) dropped in
          install_decoder fresh v')

  -- An imported surface takes the place of the one on screen.
  unfoldable pub take_pending : F → Video D F → Video D F
  take_pending f v = record v {
    pending = none;
    drawn = some f;
    released = v.released ++ listed v.drawn;
  }

  unfoldable pub upload_cpu : Build D → Video D F → Video D F
  upload_cpu b v =
      let (shown, cpu_frame) = upload b.creates v.cpu_frame in
      if shown
      then record v { cpu_frame = cpu_frame; drawn = none; released = v.released ++ listed v.drawn }
      else record v { cpu_frame = cpu_frame }

  -- `videoRender` after its watchdog; `importable` is the answer of the decoder's import.
  unfoldable pub video_render : Build D → Bool → HwBackend → Bool → Video D F → Video D F
  video_render b running requested importable v = elim v.pending [
    | some f ↦
        if is_there v.decoder && importable
        then take_pending f v
        else fall_back b running requested v
    | none ↦ if b.enable_sw && v.cpu_frame.has_frame then upload_cpu b v else v
  ]

  -- The part of `start` for the decoder.
  unfoldable pub start : Video D F → Video D F
  start v = record (install_decoder none v) {
    force_software = false;
    bit_depth_known = false;
    stream_ten_bit = false;
  }

  -- The end of `stop`.
  unfoldable pub stop : Video D F → Video D F
  stop v =
      let v' = drop_pending v in
      let v'' =
        install_decoder none
          (record v' { drawn = none; released = v'.released ++ listed v.drawn }) in
      record v'' { force_software = false; cpu_frame = free_cpu v.cpu_frame }
