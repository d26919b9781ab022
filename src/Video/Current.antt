-- ===== src/Video/Current.antt =====
-- The decoder in place is the one for the stream as it is.
use obs_zcamera.Prelude.{
  ℕ, ◌≡◌, refl, sym, ap, ◌∙◌, Bool, true, false, not, ◌&&◌, Option, none, some, Text, ◌==◌, ==_iff,
  if◌then◌else◌, and-left, and-right, or-left, or-right, true_of_not, false_of_not, Bool-cases, inl,
  inr, ◌⊎◌, true≢false, same_flag,
}
use obs_zcamera.Decoder.Nal.{Codec, nal_bit_depth}
use obs_zcamera.Decoder.Backend.{HwBackend, is_software}
use obs_zcamera.Video.Software.{chosen_forced, software-or_none}
use obs_zcamera.Video.{
  Build, Decoded, no_picture, gpu, cpu, Video, is_there, same_codec, sniffed, opened, codec_of,
  create_decoder, install_decoder, drop_pending, fresh_decoder, rebuild, known_ten_bit, on_meta,
  learn, sniff, fit_depth, output_video, decode, on_packet,
}

pub not-there : {A : Type 0} (o : Option A) → is_there o ≡ true → ¬ (o ≡ none)
not-there o e n = true≢false (sym e ∙ ap is_there n)

module _ {D F : Type 0} where
  -- There is no decoder, or it is the one that is opened for the size of the last meta data, the bit depth,
  -- the backend and the codec that the source has noted; and after a surface could not be imported, there is
  -- none or it is that of the software.
  unfoldable pub IsCurrent : Build D → Video D F → Type 0
  IsCurrent b v =
      ((v.decoder ≡ none)
        ⊎ (v.decoder ≡ opened b v.meta_w v.meta_h v.decoder_ten_bit v.backend v.codec))
      × (v.force_software ≡ true → (v.decoder ≡ none) ⊎ (is_software v.backend ≡ true))

  pub pick-IsCurrent :
      (b : Build D) (c : Bool) (x y : Video D F)
      → (c ≡ true → IsCurrent b x)
      → (c ≡ false → IsCurrent b y)
      → IsCurrent b (if c then x else y)
  pick-IsCurrent b true x y h k = h refl
  pick-IsCurrent b false x y h k = k refl

  -- The fields that it is about.
  pub unchanged-IsCurrent :
      (b : Build D) (v w : Video D F)
      → (w.decoder ≡ v.decoder) × (w.backend ≡ v.backend) × (w.codec ≡ v.codec)
      → (w.decoder_ten_bit ≡ v.decoder_ten_bit) × (w.force_software ≡ v.force_software)
      → (w.meta_w ≡ v.meta_w) × (w.meta_h ≡ v.meta_h)
      → IsCurrent b v
      → IsCurrent b w
  unfolding IsCurrent
  unchanged-IsCurrent b v w (d, k, c) (t, f) (x, y) h = rw (d, k, c, t, f, x, y) h

  -- Where no decoder is in place.
  pub none-IsCurrent : (b : Build D) (v : Video D F) → v.decoder ≡ none → IsCurrent b v
  unfolding IsCurrent
  none-IsCurrent b v e = (inl e, λ f. inl e)

  rebuild-IsCurrent :
      (b : Build D) (running : Bool) (requested : HwBackend) (codec : Codec) (forced ten_bit : Bool)
      (v : Video D F)
      → (v.force_software ≡ true → forced ≡ true)
      → IsCurrent b (rebuild b running requested v.meta_w v.meta_h codec forced ten_bit v)
  unfolding rebuild fresh_decoder create_decoder install_decoder drop_pending IsCurrent
  rebuild-IsCurrent b false requested codec forced ten_bit v h = (inl refl, λ f. inl refl)
  rebuild-IsCurrent b true requested codec forced ten_bit v h = (
    inr refl,
    λ f.
        rw (h f, chosen_forced b requested codec)
          (software-or_none b v.meta_w v.meta_h ten_bit codec),
  )

  kept-IsCurrent :
      (b : Build D) (width height : ℕ) (v : Video D F)
      → not (is_there v.decoder) ≡ false
      → (is_there v.decoder && not (v.meta_w == width && v.meta_h == height)) ≡ false
      → IsCurrent b v
      → IsCurrent b (record v { meta_w = width; meta_h = height })
  kept-IsCurrent b width height v there same h =
      let sized = true_of_not (v.meta_w == width && v.meta_h == height) (
        ap (λ c. c && not (v.meta_w == width && v.meta_h == height))
          (sym (true_of_not (is_there v.decoder) there))
        ∙ same) in
      let w = (==_iff v.meta_w width).0 (and-left (v.meta_w == width) (v.meta_h == height) sized) in
      let e =
        (==_iff v.meta_h height).0 (and-right (v.meta_w == width) (v.meta_h == height) sized) in
      unchanged-IsCurrent b v (record v { meta_w = width; meta_h = height }) (refl, refl, refl)
        (refl, refl) (sym w, sym e) h

  pub on_meta-IsCurrent :
      (b : Build D) (running : Bool) (requested : HwBackend) (encoder width height : ℕ)
      (v : Video D F)
      → IsCurrent b v
      → IsCurrent b (on_meta b running requested encoder width height v)
  unfolding on_meta
  on_meta-IsCurrent b running requested encoder width height v h =
      let resized = is_there v.decoder && not (v.meta_w == width && v.meta_h == height) in
      let other = v.force_software && not (is_software v.backend) in
      let codec = not (same_codec (codec_of encoder) v.codec) in
      pick-IsCurrent b _ _ _
        (λ e.
          rebuild-IsCurrent b running requested (codec_of encoder) v.force_software
            (known_ten_bit v) (record v { meta_w = width; meta_h = height }) (λ f. f))
        (λ e.
          let rest = or-right (not (is_there v.decoder)) _ e in
          kept-IsCurrent b width height v (or-left (not (is_there v.decoder)) _ e)
            (or-left resized other (or-right codec _ rest)) h)

  learn-IsCurrent :
      (b : Build D) (o : Option ℕ) (v : Video D F) → IsCurrent b v → IsCurrent b (learn o v)
  unfolding learn IsCurrent
  learn-IsCurrent b none v h = h
  learn-IsCurrent b (some depth) v h = h

  sniff-IsCurrent :
      (b : Build D) (packet : Text) (v : Video D F) → IsCurrent b v → IsCurrent b (sniff packet v)
  unfolding sniff
  sniff-IsCurrent b packet v h =
      pick-IsCurrent b _ _ _ (λ e. learn-IsCurrent b (sniffed (nal_bit_depth v.codec packet)) v h)
        (λ e. h)

  -- A decoder of hardware is in place only where no import has failed.
  not-forced :
      (b : Build D) (v : Video D F)
      → IsCurrent b v
      → is_there v.decoder ≡ true
      → not (is_software v.backend) ≡ true
      → ¬ (v.force_software ≡ true)
  unfolding IsCurrent
  not-forced b v (built, forced) there hardware f = elim (forced f) [
    | inl n ↦ not-there v.decoder there n
    | inr s ↦ true≢false (sym s ∙ false_of_not (is_software v.backend) hardware)
  ]

  fit_depth-IsCurrent :
      (b : Build D) (running : Bool) (requested : HwBackend) (v : Video D F)
      → IsCurrent b v
      → IsCurrent b (fit_depth b running requested v)
  unfolding fit_depth
  fit_depth-IsCurrent b running requested v h =
      let unlike = not (same_flag v.decoder_ten_bit v.stream_ten_bit) in
      pick-IsCurrent b _ _ _
        (λ e.
          let rest = and-right v.bit_depth_known _ e in
          let hardware = and-left _ unlike (and-right (is_there v.decoder) _ rest) in
          rebuild-IsCurrent b running requested v.codec false v.stream_ten_bit v
            (λ f. absurd (not-forced b v h (and-left (is_there v.decoder) _ rest) hardware f)))
        (λ e. h)

  -- The fields that it is about, at once.
  abbrev pub view : Video D F → (Option D × HwBackend × Codec) × (Bool × Bool) × (ℕ × ℕ)
  view v =
      ((v.decoder, v.backend, v.codec), (v.decoder_ten_bit, v.force_software), (v.meta_w, v.meta_h))

  view-output_video :
      (b : Build D) (sync now : ℕ) (outcome : Decoded F) (v : Video D F)
      → view (output_video b sync now outcome v) ≡ view v
  unfolding output_video
  view-output_video b sync now no_picture v = refl
  view-output_video b sync now (gpu f width height) v = elim (Bool-cases b.async) [
    | inl a ↦ rw a refl
    | inr a ↦ rw a refl
  ]
  view-output_video b sync now (cpu picture) v = elim (Bool-cases b.async) [
    | inl a ↦ rw a refl
    | inr a ↦ elim (Bool-cases b.enable_sw) [ inl e ↦ rw (a, e) refl | inr e ↦ rw (a, e) refl ]
  ]

  pub viewed-IsCurrent :
      (b : Build D) (v w : Video D F) → view w ≡ view v → IsCurrent b v → IsCurrent b w
  viewed-IsCurrent b v w e h =
      unchanged-IsCurrent b v w (ap (λ t. t.0.0) e, ap (λ t. t.0.1) e, ap (λ t. t.0.2) e)
        (ap (λ t. t.1.0) e, ap (λ t. t.1.1) e) (ap (λ t. t.2.0) e, ap (λ t. t.2.1) e) h

  output_video-IsCurrent :
      (b : Build D) (sync now : ℕ) (outcome : Decoded F) (v : Video D F)
      → IsCurrent b v
      → IsCurrent b (output_video b sync now outcome v)
  output_video-IsCurrent b sync now outcome v h =
      viewed-IsCurrent b v (output_video b sync now outcome v)
        (view-output_video b sync now outcome v) h

  pub on_packet-IsCurrent :
      (b : Build D) (requested : HwBackend) (sync now : ℕ) (packet : Text) (outcome : Decoded F)
      (v : Video D F)
      → IsCurrent b v
      → IsCurrent b (on_packet b requested sync now packet outcome v)
  unfolding on_packet decode
  on_packet-IsCurrent b requested sync now packet outcome v h =
      let h' =
        fit_depth-IsCurrent b true requested (sniff packet v) (sniff-IsCurrent b packet v h) in
      pick-IsCurrent b _ _ _ (λ e. output_video-IsCurrent b sync now outcome _ h') (λ e. h')
