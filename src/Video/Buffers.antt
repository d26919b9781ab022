-- ===== src/Video/Buffers.antt =====
-- The buffers of the picture of the CPU, over the operations on the video.
use obs_zcamera.Prelude.{
  ℕ, ◌≡◌, refl, Bool, true, false, ◌&&◌, Option, none, some, Text, if◌then◌else◌, Bool-cases, inl,
  inr,
}
use obs_zcamera.Decoder.Nal.{Codec, nal_bit_depth}
use obs_zcamera.Decoder.Backend.{HwBackend}
use obs_zcamera.Picture.{upload}
use obs_zcamera.Picture.Bounds.{
  IsReadable, convert-IsReadable, upload-IsReadable, free_cpu-IsReadable,
}
use obs_zcamera.Video.{
  Build, Decoded, no_picture, gpu, cpu, Video, is_there, create_decoder, install_decoder,
  drop_pending, fresh_decoder, rebuild, on_meta, learn, sniff, sniffed, fit_depth, output_video,
  decode, on_packet, fall_back, take_pending, upload_cpu, video_render, start, stop, known_ten_bit,
}

module _ {D F : Type 0} where
  -- A picture that waits has a buffer for all its pixels, and there are eight planes.
  unfoldable pub HasBuffers : Video D F → Type 0
  HasBuffers v = IsReadable v.cpu_frame

  pick-HasBuffers :
      (c : Bool) (x y : Video D F) → HasBuffers x → HasBuffers y → HasBuffers (if c then x else y)
  pick-HasBuffers true x y h k = h
  pick-HasBuffers false x y h k = k

  same-HasBuffers : (v w : Video D F) → w.cpu_frame ≡ v.cpu_frame → HasBuffers v → HasBuffers w
  unfolding HasBuffers
  same-HasBuffers v w e h = rw e h

  cpu_frame-rebuild :
      (b : Build D) (running : Bool) (requested : HwBackend) (width height : ℕ) (codec : Codec)
      (forced ten_bit : Bool) (v : Video D F)
      → (rebuild b running requested width height codec forced ten_bit v).cpu_frame ≡ v.cpu_frame
  unfolding rebuild fresh_decoder create_decoder install_decoder drop_pending
  cpu_frame-rebuild b true requested width height codec forced ten_bit v = refl
  cpu_frame-rebuild b false requested width height codec forced ten_bit v = refl

  rebuild-HasBuffers :
      (b : Build D) (running : Bool) (requested : HwBackend) (width height : ℕ) (codec : Codec)
      (forced ten_bit : Bool) (v : Video D F)
      → HasBuffers v
      → HasBuffers (rebuild b running requested width height codec forced ten_bit v)
  rebuild-HasBuffers b running requested width height codec forced ten_bit v h =
      same-HasBuffers v (rebuild b running requested width height codec forced ten_bit v)
        (cpu_frame-rebuild b running requested width height codec forced ten_bit v) h

  pub on_meta-HasBuffers :
      (b : Build D) (running : Bool) (requested : HwBackend) (encoder width height : ℕ)
      (v : Video D F)
      → HasBuffers v
      → HasBuffers (on_meta b running requested encoder width height v)
  unfolding on_meta
  on_meta-HasBuffers b running requested encoder width height v h =
      let v' = record v { meta_w = width; meta_h = height } in
      let h' = same-HasBuffers v v' refl h in
      pick-HasBuffers _ _ _
        (rebuild-HasBuffers b running requested width height _ v.force_software (known_ten_bit v) v'
          h')
        h'

  learn-HasBuffers : (o : Option ℕ) (v : Video D F) → HasBuffers v → HasBuffers (learn o v)
  unfolding learn HasBuffers
  learn-HasBuffers none v h = h
  learn-HasBuffers (some depth) v h = h

  sniff-HasBuffers : (packet : Text) (v : Video D F) → HasBuffers v → HasBuffers (sniff packet v)
  unfolding sniff
  sniff-HasBuffers packet v h =
      pick-HasBuffers _ _ _ (learn-HasBuffers (sniffed (nal_bit_depth v.codec packet)) v h) h

  fit_depth-HasBuffers :
      (b : Build D) (running : Bool) (requested : HwBackend) (v : Video D F)
      → HasBuffers v
      → HasBuffers (fit_depth b running requested v)
  unfolding fit_depth
  fit_depth-HasBuffers b running requested v h =
      pick-HasBuffers _ _ _
        (rebuild-HasBuffers b running requested v.meta_w v.meta_h v.codec false v.stream_ten_bit v
          h)
        h

  output_video-HasBuffers :
      (b : Build D) (sync now : ℕ) (outcome : Decoded F) (v : Video D F)
      → HasBuffers v
      → HasBuffers (output_video b sync now outcome v)
  unfolding output_video HasBuffers
  output_video-HasBuffers b sync now no_picture v h = h
  output_video-HasBuffers b sync now (gpu f width height) v h = elim (Bool-cases b.async) [
    | inl a ↦ rw a h
    | inr a ↦ rw a h
  ]
  output_video-HasBuffers b sync now (cpu picture) v h = elim (Bool-cases b.async) [
    | inl a ↦ rw a h
    | inr a ↦ elim (Bool-cases b.enable_sw) [
      | inl e ↦ rw (a, e) (convert-IsReadable b.opens picture v.cpu_frame h)
      | inr e ↦ rw (a, e) h
    ]
  ]

  pub on_packet-HasBuffers :
      (b : Build D) (requested : HwBackend) (sync now : ℕ) (packet : Text) (outcome : Decoded F)
      (v : Video D F)
      → HasBuffers v
      → HasBuffers (on_packet b requested sync now packet outcome v)
  unfolding on_packet decode
  on_packet-HasBuffers b requested sync now packet outcome v h =
      let h' =
        fit_depth-HasBuffers b true requested (sniff packet v) (sniff-HasBuffers packet v h) in
      pick-HasBuffers _ _ _ (output_video-HasBuffers b sync now outcome _ h') h'

  cpu_frame-fall_back :
      (b : Build D) (running : Bool) (requested : HwBackend) (v : Video D F)
      → (fall_back b running requested v).cpu_frame ≡ v.cpu_frame
  unfolding fall_back fresh_decoder create_decoder install_decoder drop_pending
  cpu_frame-fall_back b true requested v = elim (Bool-cases v.force_software) [
    | inl e ↦ rw e refl
    | inr e ↦ rw e refl
  ]
  cpu_frame-fall_back b false requested v = elim (Bool-cases v.force_software) [
    | inl e ↦ rw e refl
    | inr e ↦ rw e refl
  ]

  upload_cpu-HasBuffers : (b : Build D) (v : Video D F) → HasBuffers v → HasBuffers (upload_cpu b v)
  unfolding upload_cpu HasBuffers
  upload_cpu-HasBuffers b v h =
      let h' = upload-IsReadable b.creates v.cpu_frame h in
      elim (Bool-cases (upload b.creates v.cpu_frame).0) [ inl e ↦ rw e h' | inr e ↦ rw e h' ]

  render-HasBuffers :
      (b : Build D) (running : Bool) (requested : HwBackend) (importable : Bool) (o : Option F)
      (v : Video D F)
      → HasBuffers v
      → HasBuffers (elim o [
        | some f ↦
            if is_there v.decoder && importable
            then take_pending f v
            else fall_back b running requested v
        | none ↦ if b.enable_sw && v.cpu_frame.has_frame then upload_cpu b v else v
      ])
  unfolding take_pending
  render-HasBuffers b running requested importable none v h =
      pick-HasBuffers _ _ _ (upload_cpu-HasBuffers b v h) h
  render-HasBuffers b running requested importable (some f) v h =
      pick-HasBuffers (is_there v.decoder && importable) (take_pending f v)
        (fall_back b running requested v) (same-HasBuffers v (take_pending f v) refl h)
        (same-HasBuffers v (fall_back b running requested v)
          (cpu_frame-fall_back b running requested v) h)

  pub video_render-HasBuffers :
      (b : Build D) (running : Bool) (requested : HwBackend) (importable : Bool) (v : Video D F)
      → HasBuffers v
      → HasBuffers (video_render b running requested importable v)
  unfolding video_render
  video_render-HasBuffers b running requested importable v h =
      render-HasBuffers b running requested importable v.pending v h

  pub kept-HasBuffers :
      (v : Video D F) → HasBuffers v → HasBuffers (start v) × HasBuffers (drop_pending v)
  unfolding start install_decoder drop_pending HasBuffers
  kept-HasBuffers v h = (h, h)

  pub stop-HasBuffers : (v : Video D F) → HasBuffers v → HasBuffers (stop v)
  unfolding stop install_decoder drop_pending HasBuffers
  stop-HasBuffers v h = free_cpu-IsReadable v.cpu_frame h
