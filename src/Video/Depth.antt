-- ===== src/Video/Depth.antt =====
-- The bit depth of the decoder.
use obs_zcamera.Prelude.{
  ℕ, ◌≡◌, refl, sym, ap, ap₂, ◌∙◌, Bool, true, false, not, ◌&&◌, Option, some, Text, if◌then◌else◌,
  Bool-cases, inl, inr, true≢false, same_flag,
}
use obs_zcamera.Decoder.Nal.{Codec}
use obs_zcamera.Video.Current.{not-there, IsCurrent, on_packet-IsCurrent}
use obs_zcamera.Decoder.Backend.{HwBackend, is_software}
use obs_zcamera.Video.{
  Build, Decoded, no_picture, gpu, cpu, Video, is_there, create_decoder, install_decoder, chosen,
  opened, misses_depth, rebuild_depth, fit_depth_during, video_render, fall_back, drop_pending,
  fresh_decoder, rebuild, sniff, fit_depth, output_video, decode, on_packet,
}

same_flag-equal : (a b : Bool) → not (same_flag a b) ≡ false → a ≡ b
same_flag-equal true true e = refl
same_flag-equal true false e = absurd (true≢false e)
same_flag-equal false true e = absurd (true≢false e)
same_flag-equal false false e = refl

module _ {D F : Type 0} where
  -- The fields that decide whether the decoder fits.
  abbrev depths : Video D F → (Option D × HwBackend) × (Bool × Bool × Bool)
  depths v = ((v.decoder, v.backend), (v.decoder_ten_bit, v.stream_ten_bit, v.bit_depth_known))

  depths-output_video :
      (b : Build D) (sync now : ℕ) (outcome : Decoded F) (v : Video D F)
      → depths (output_video b sync now outcome v) ≡ depths v
  unfolding output_video
  depths-output_video b sync now no_picture v = refl
  depths-output_video b sync now (gpu f width height) v = elim (Bool-cases b.async) [
    | inl a ↦ rw a refl
    | inr a ↦ rw a refl
  ]
  depths-output_video b sync now (cpu picture) v = elim (Bool-cases b.async) [
    | inl a ↦ rw a refl
    | inr a ↦ elim (Bool-cases b.enable_sw) [ inl e ↦ rw (a, e) refl | inr e ↦ rw (a, e) refl ]
  ]

  depths-decode :
      (b : Build D) (sync now : ℕ) (outcome : Decoded F) (v : Video D F)
      → depths (decode b sync now outcome v) ≡ depths v
  unfolding decode
  depths-decode b sync now outcome v = elim (Bool-cases (is_there v.decoder)) [
    | inl e ↦
        ap (λ c. depths (if c then output_video b sync now outcome v else v)) e
        ∙ depths-output_video b sync now outcome v
    | inr e ↦ ap (λ c. depths (if c then output_video b sync now outcome v else v)) e
  ]

  -- A decoder of hardware has the depth of the stream, if that is known.
  unfoldable IsFit : Video D F → Type 0
  IsFit v =
      is_there v.decoder ≡ true
      → v.bit_depth_known ≡ true
      → is_software v.backend ≡ false
      → v.decoder_ten_bit ≡ v.stream_ten_bit

  pick-IsFit :
      (c : Bool) (x y : Video D F)
      → (c ≡ true → IsFit x)
      → (c ≡ false → IsFit y)
      → IsFit (if c then x else y)
  pick-IsFit true x y h k = h refl
  pick-IsFit false x y h k = k refl

  rebuild-IsFit :
      (b : Build D) (running : Bool) (requested : HwBackend) (width height : ℕ) (codec : Codec)
      (forced : Bool) (v : Video D F)
      → IsFit (rebuild b running requested width height codec forced v.stream_ten_bit v)
  unfolding rebuild fresh_decoder create_decoder install_decoder drop_pending IsFit
  rebuild-IsFit b true requested width height codec forced v there known hardware = refl
  rebuild-IsFit b false requested width height codec forced v there known hardware = refl

  fits-IsFit :
      (v : Video D F)
      → (v.bit_depth_known
          && (is_there v.decoder
              && (not (is_software v.backend)
                  && not (same_flag v.decoder_ten_bit v.stream_ten_bit))))
        ≡ false
      → IsFit v
  unfolding IsFit
  fits-IsFit v e there known hardware = same_flag-equal v.decoder_ten_bit v.stream_ten_bit (
      sym (
        ap₂ ◌&&◌ known (
          ap₂ ◌&&◌ there
            (ap (λ s. not s && not (same_flag v.decoder_ten_bit v.stream_ten_bit)) hardware)))
      ∙ e)

  fit_depth-IsFit :
      (b : Build D) (running : Bool) (requested : HwBackend) (v : Video D F)
      → IsFit (fit_depth b running requested v)
  unfolding fit_depth
  fit_depth-IsFit b running requested v =
      pick-IsFit _ _ _ (λ e. rebuild-IsFit b running requested v.meta_w v.meta_h v.codec false v)
        (λ e. fits-IsFit v e)

  on_packet-flag :
      (b : Build D) (requested : HwBackend) (sync now : ℕ) (packet : Text) (outcome : Decoded F)
      (v : Video D F)
      → is_there (on_packet b requested sync now packet outcome v).decoder ≡ true
      → (on_packet b requested sync now packet outcome v).bit_depth_known ≡ true
      → is_software (on_packet b requested sync now packet outcome v).backend ≡ false
      → (on_packet b requested sync now packet outcome v).decoder_ten_bit
        ≡ (on_packet b requested sync now packet outcome v).stream_ten_bit
  unfolding on_packet IsFit
  on_packet-flag b requested sync now packet outcome v there known hardware =
      let w = fit_depth b true requested (sniff packet v) in
      let e = depths-decode b sync now outcome w in
      ap (λ t. t.1.0) e
      ∙ fit_depth-IsFit b true requested (sniff packet v) (sym (ap (λ t. is_there t.0.0) e) ∙ there)
          (sym (ap (λ t. t.1.2) e) ∙ known) (sym (ap (λ t. is_software t.0.1) e) ∙ hardware)
      ∙ sym (ap (λ t. t.1.1) e)

  current-opened :
      (b : Build D) (v : Video D F)
      → IsCurrent b v
      → is_there v.decoder ≡ true
      → v.decoder ≡ opened b v.meta_w v.meta_h v.decoder_ten_bit v.backend v.codec
  unfolding IsCurrent
  current-opened b v (inl e, forced) there = absurd (not-there v.decoder there e)
  current-opened b v (inr e, forced) there = e

  -- After each packet that is not held back and is handled as one step, from a decoder that is the one for the
  -- noted size, depth, backend and codec: where a decoder that is not the software's is in place and the depth
  -- of the stream is known, that decoder is the one which is opened for this depth, and the noted size, backend
  -- and codec.
  pub on_packet-depth :
      (b : Build D) (requested : HwBackend) (sync now : ℕ) (packet : Text) (outcome : Decoded F)
      (v : Video D F)
      → IsCurrent b v
      → is_there (on_packet b requested sync now packet outcome v).decoder ≡ true
      → (on_packet b requested sync now packet outcome v).bit_depth_known ≡ true
      → is_software (on_packet b requested sync now packet outcome v).backend ≡ false
      → let q = on_packet b requested sync now packet outcome v in
        q.decoder ≡ opened b q.meta_w q.meta_h q.stream_ten_bit q.backend q.codec
  on_packet-depth b requested sync now packet outcome v h there known hardware =
      let q = on_packet b requested sync now packet outcome v in
      current-opened b q (on_packet-IsCurrent b requested sync now packet outcome v h) there
      ∙ ap (λ ten_bit. opened b q.meta_w q.meta_h ten_bit q.backend q.codec)
          (on_packet-flag b requested sync now packet outcome v there known hardware)

  -- What a fall-back changes and keeps of the notes.
  noted-fall_back :
      (b : Build D) (requested : HwBackend) (v : Video D F)
      → let w = fall_back b true requested v in
        (w.force_software ≡ true)
        × (w.meta_w ≡ v.meta_w)
        × (w.meta_h ≡ v.meta_h)
        × (w.codec ≡ v.codec)
  unfolding fall_back fresh_decoder create_decoder install_decoder drop_pending
  noted-fall_back b requested v = elim (Bool-cases v.force_software) [
    | inl e ↦ rw e (refl, refl, refl, refl)
    | inr e ↦ rw e (refl, refl, refl, refl)
  ]

  video_render-fall_back :
      (b : Build D) (requested : HwBackend) (v : Video D F) (f : F)
      → v.pending ≡ some f
      → video_render b true requested false v ≡ fall_back b true requested v
  unfolding video_render
  video_render-fall_back b requested v f waits = elim (Bool-cases (is_there v.decoder)) [
    | inl e ↦ rw (waits, e) refl
    | inr e ↦ rw (waits, e) refl
  ]

  -- The decoder of a rebuild is made for the requested backend.
  rebuild_depth-requested :
      (b : Build D) (requested : HwBackend) (ten_bit : Bool) (w : Video D F)
      → let q = rebuild_depth b true requested ten_bit w in
        (q.force_software ≡ w.force_software)
        × (q.backend ≡ chosen b requested w.codec false)
        × (q.decoder ≡ opened b w.meta_w w.meta_h ten_bit q.backend w.codec)
  unfolding rebuild fresh_decoder create_decoder install_decoder drop_pending
  rebuild_depth-requested b requested ten_bit w = (refl, refl, refl)

  -- Where the graphics thread falls back to software between the test of the depth and the new decoder, since
  -- the surface that waits cannot be imported: the decoder that is installed then is made for the backend that
  -- the settings request, as if no import had failed, while the source counts as forced to software.
  pub fit_depth_during-video_render :
      (b : Build D) (requested : HwBackend) (v : Video D F) (f : F)
      → misses_depth v ≡ true
      → v.pending ≡ some f
      → let q = fit_depth_during (video_render b true requested false) b true requested v in
        (q.force_software ≡ true)
        × (q.backend ≡ chosen b requested v.codec false)
        × (q.decoder ≡ opened b v.meta_w v.meta_h v.stream_ten_bit q.backend v.codec)
  unfolding fit_depth_during
  fit_depth_during-video_render b requested v f misses waits =
      let w = video_render b true requested false v in
      let n = noted-fall_back b requested v in
      let e = video_render-fall_back b requested v f waits in
      let r = rebuild_depth-requested b requested v.stream_ten_bit w in
      let codec : w.codec ≡ v.codec = ap (λ x. x.codec) e ∙ n.3 in
      rw misses (
        r.0 ∙ ap (λ x. x.force_software) e ∙ n.0,
        r.1 ∙ ap (λ c. chosen b requested c false) codec,
        r.2 ∙ opened-cong _ _ (ap (λ x. x.meta_w) e ∙ n.1) (ap (λ x. x.meta_h) e ∙ n.2) codec,
      )
    where
      opened-cong :
          {w1 w2 h1 h2 : ℕ} {c1 c2 : Codec} (t : Bool) (k : HwBackend)
          → w1 ≡ w2
          → h1 ≡ h2
          → c1 ≡ c2
          → opened b w1 h1 t k c1 ≡ opened b w2 h2 t k c2
      opened-cong t k e1 e2 e3 = rw (e1, e2, e3)
