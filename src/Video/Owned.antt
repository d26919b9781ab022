-- ===== src/Video/Owned.antt =====
-- Every decoder is destroyed once, and every surface is released once.
use obs_zcamera.Prelude.{
  ℕ, ◌+◌, ◌≡◌, refl, sym, ap, ◌∙◌, Bool, true, false, ◌&&◌, Option, none, some, List, [], ◌∷◌, ◌++◌,
  append-nil, Text, if◌then◌else◌, arith, Bool-cases, inl, inr,
}
use obs_zcamera.Decoder.Nal.{Codec, nal_bit_depth}
use obs_zcamera.Decoder.Backend.{HwBackend}
use obs_zcamera.Picture.{Cpu, upload}
use obs_zcamera.Video.{
  Build, Decoded, no_picture, gpu, cpu, Video, no_video, listed, is_there, sniffed, codec_of,
  create_decoder, install_decoder, drop_pending, fresh_decoder, rebuild, known_ten_bit, on_meta,
  learn, sniff, fit_depth, output_video, decode, on_packet, fall_back, take_pending, upload_cpu,
  video_render, start, stop,
}

abbrev pub one : Bool → ℕ
one true = 1
one false = 0

-- How many have a property.
abbrev pub tally {ℓ} : {A : Type ℓ} → (A → Bool) → List A → ℕ
tally p [] = 0
tally p (x ∷ xs) = one (p x) + tally p xs

pub tally-append {ℓ} :
    {A : Type ℓ} (p : A → Bool) (xs ys : List A) → tally p (xs ++ ys) ≡ tally p xs + tally p ys
tally-append p [] ys = omega arith
tally-append p (x ∷ xs) ys = omega (arith, tally-append p xs ys)

module _ {D F : Type 0} (p : F → Bool) where
  -- The decoders that were built are those that were destroyed, in the same order, and then the one in place;
  -- of the surfaces with the property, as many were decoded as were released, wait or are on screen.
  unfoldable pub IsOwned : Video D F → Type 0
  IsOwned v =
      (v.built ≡ v.destroyed ++ listed v.decoder)
      × (tally p v.decoded
          ≡ tally p v.released + (tally p (listed v.pending) + tally p (listed v.drawn)))

  pick-IsOwned :
      (b : Bool) (x y : Video D F)
      → (b ≡ true → IsOwned x)
      → (b ≡ false → IsOwned y)
      → IsOwned (if b then x else y)
  pick-IsOwned true x y h k = h refl
  pick-IsOwned false x y h k = k refl

  forced-IsOwned : (v : Video D F) → IsOwned v → IsOwned (record v { force_software = true })
  unfolding IsOwned
  forced-IsOwned v h = h

  sized-IsOwned :
      (width height : ℕ) (v : Video D F)
      → IsOwned v
      → IsOwned (record v { meta_w = width; meta_h = height })
  unfolding IsOwned
  sized-IsOwned width height v h = h

  uploaded-IsOwned :
      (c : Cpu) (v : Video D F)
      → IsOwned v
      → IsOwned (record v { cpu_frame = c; drawn = none; released = v.released ++ listed v.drawn })
        × IsOwned (record v { cpu_frame = c })
  unfolding IsOwned
  uploaded-IsOwned c v (k, r) =
      ((k, omega (arith, r, tally-append p v.released (listed v.drawn))), (k, r))

  pub drop_pending-IsOwned : (v : Video D F) → IsOwned v → IsOwned (drop_pending v)
  unfolding IsOwned drop_pending
  drop_pending-IsOwned v (b, r) =
      (b, omega (arith, r, tally-append p v.released (listed v.pending)))

  -- The fresh decoder was added to those that were built, and the state is otherwise as it was.
  fresh_decoder-built :
      (b : Build D) (running : Bool) (requested : HwBackend) (width height : ℕ) (codec : Codec)
      (forced ten_bit : Bool) (v : Video D F)
      → let made = fresh_decoder b running requested width height codec forced ten_bit v in
        (made.1.built ≡ v.built ++ listed made.0)
        × ((made.1.destroyed ≡ v.destroyed) × (made.1.decoder ≡ v.decoder))
        × ((made.1.decoded ≡ v.decoded)
            × ((made.1.released ≡ v.released)
                × ((made.1.pending ≡ v.pending) × (made.1.drawn ≡ v.drawn))))
  unfolding fresh_decoder create_decoder
  fresh_decoder-built b true requested width height codec forced ten_bit v =
      (refl, (refl, refl), (refl, (refl, (refl, refl))))
  fresh_decoder-built b false requested width height codec forced ten_bit v =
      (sym (append-nil v.built), (refl, refl), (refl, (refl, (refl, refl))))

  -- Installing what was just built.
  install-IsOwned :
      (fresh : Option D) (v w : Video D F)
      → IsOwned v
      → w.built ≡ v.built ++ listed fresh
      → (w.destroyed ≡ v.destroyed) × (w.decoder ≡ v.decoder)
      → (w.decoded ≡ v.decoded)
        × ((w.released ≡ v.released) × ((w.pending ≡ v.pending) × (w.drawn ≡ v.drawn)))
      → IsOwned (install_decoder fresh w)
  unfolding IsOwned install_decoder
  install-IsOwned fresh v w (b, r) e (d, o) (c, (l, (q, s))) =
      (rw (e, d, o, b) refl, rw (c, l, q, s) r)

  rebuild-IsOwned :
      (b : Build D) (running : Bool) (requested : HwBackend) (width height : ℕ) (codec : Codec)
      (forced ten_bit : Bool) (v : Video D F)
      → IsOwned v
      → IsOwned (rebuild b running requested width height codec forced ten_bit v)
  unfolding rebuild
  rebuild-IsOwned b running requested width height codec forced ten_bit v h =
      let built =
        fresh_decoder-built b running requested width height codec forced ten_bit
          (drop_pending v) in
      let made =
        fresh_decoder b running requested width height codec forced ten_bit (drop_pending v) in
      install-IsOwned made.0 (drop_pending v)
        (record made.1 { codec = codec; decoder_ten_bit = ten_bit }) (drop_pending-IsOwned v h)
        built.0 built.1 built.2

  pub on_meta-IsOwned :
      (b : Build D) (running : Bool) (requested : HwBackend) (encoder width height : ℕ)
      (v : Video D F)
      → IsOwned v
      → IsOwned (on_meta b running requested encoder width height v)
  unfolding on_meta
  on_meta-IsOwned b running requested encoder width height v h =
      pick-IsOwned _ _ _
        (λ e.
          rebuild-IsOwned b running requested width height (codec_of encoder) v.force_software
            (known_ten_bit v) (record v { meta_w = width; meta_h = height })
            (sized-IsOwned width height v h))
        (λ e. sized-IsOwned width height v h)

  learn-IsOwned : (o : Option ℕ) (v : Video D F) → IsOwned v → IsOwned (learn o v)
  unfolding IsOwned learn
  learn-IsOwned none v h = h
  learn-IsOwned (some depth) v h = h

  sniff-IsOwned : (packet : Text) (v : Video D F) → IsOwned v → IsOwned (sniff packet v)
  unfolding sniff
  sniff-IsOwned packet v h =
      pick-IsOwned _ _ _ (λ e. learn-IsOwned (sniffed (nal_bit_depth v.codec packet)) v h) (λ e. h)

  fit_depth-IsOwned :
      (b : Build D) (running : Bool) (requested : HwBackend) (v : Video D F)
      → IsOwned v
      → IsOwned (fit_depth b running requested v)
  unfolding fit_depth
  fit_depth-IsOwned b running requested v h =
      pick-IsOwned _ _ _
        (λ e.
          rebuild-IsOwned b running requested v.meta_w v.meta_h v.codec false v.stream_ten_bit v h)
        (λ e. h)

  output_video-IsOwned :
      (b : Build D) (sync now : ℕ) (outcome : Decoded F) (v : Video D F)
      → b.async ≡ false
      → IsOwned v
      → IsOwned (output_video b sync now outcome v)
  unfolding IsOwned output_video
  output_video-IsOwned b sync now no_picture v a h = h
  output_video-IsOwned b sync now (gpu f width height) v a (k, r) = rw a (
    k,
    omega
        (arith, r, tally-append p v.decoded (f ∷ []), tally-append p v.released (listed v.pending)),
  )
  output_video-IsOwned b sync now (cpu picture) v a h = elim (Bool-cases b.enable_sw) [
    | inl e ↦ rw (a, e) h
    | inr e ↦ rw (a, e) h
  ]

  pub on_packet-IsOwned :
      (b : Build D) (requested : HwBackend) (sync now : ℕ) (packet : Text) (outcome : Decoded F)
      (v : Video D F)
      → b.async ≡ false
      → IsOwned v
      → IsOwned (on_packet b requested sync now packet outcome v)
  unfolding on_packet decode
  on_packet-IsOwned b requested sync now packet outcome v a h =
      let h' = fit_depth-IsOwned b true requested (sniff packet v) (sniff-IsOwned packet v h) in
      pick-IsOwned _ _ _ (λ e. output_video-IsOwned b sync now outcome _ a h') (λ e. h')

  fall_back-IsOwned :
      (b : Build D) (running : Bool) (requested : HwBackend) (v : Video D F)
      → IsOwned v
      → IsOwned (fall_back b running requested v)
  unfolding fall_back
  fall_back-IsOwned b running requested v h =
      let h' = forced-IsOwned (drop_pending v) (drop_pending-IsOwned v h) in
      let dropped = record (drop_pending v) { force_software = true } in
      let built =
        fresh_decoder-built b running requested v.last_width v.last_height v.codec true
          (known_ten_bit v) dropped in
      let made =
        fresh_decoder b running requested v.last_width v.last_height v.codec true (known_ten_bit v)
          dropped in
      pick-IsOwned v.force_software dropped (install_decoder made.0 made.1) (λ e. h')
        (λ e. install-IsOwned made.0 dropped made.1 h' built.0 built.1 built.2)

  take_pending-IsOwned :
      (f : F) (v : Video D F) → v.pending ≡ some f → IsOwned v → IsOwned (take_pending f v)
  unfolding IsOwned take_pending
  take_pending-IsOwned f v e (k, r) =
      let waits : tally p (listed v.pending) ≡ one (p f) + 0 = ap (λ o. tally p (listed o)) e in
      (k, omega (arith, r, waits, tally-append p v.released (listed v.drawn)))

  upload_cpu-IsOwned : (b : Build D) (v : Video D F) → IsOwned v → IsOwned (upload_cpu b v)
  unfolding upload_cpu
  upload_cpu-IsOwned b v h =
      let kept = uploaded-IsOwned (upload b.creates v.cpu_frame).1 v h in
      pick-IsOwned _ _ _ (λ e. kept.0) (λ e. kept.1)

  render-IsOwned :
      (b : Build D) (running : Bool) (requested : HwBackend) (importable : Bool) (o : Option F)
      (v : Video D F)
      → v.pending ≡ o
      → IsOwned v
      → IsOwned (elim o [
        | some f ↦
            if is_there v.decoder && importable
            then take_pending f v
            else fall_back b running requested v
        | none ↦ if b.enable_sw && v.cpu_frame.has_frame then upload_cpu b v else v
      ])
  render-IsOwned b running requested importable none v e h =
      pick-IsOwned _ _ _ (λ c. upload_cpu-IsOwned b v h) (λ c. h)
  render-IsOwned b running requested importable (some f) v e h =
      pick-IsOwned _ _ _ (λ c. take_pending-IsOwned f v e h)
        (λ c. fall_back-IsOwned b running requested v h)

  pub video_render-IsOwned :
      (b : Build D) (running : Bool) (requested : HwBackend) (importable : Bool) (v : Video D F)
      → IsOwned v
      → IsOwned (video_render b running requested importable v)
  unfolding video_render
  video_render-IsOwned b running requested importable v h =
      render-IsOwned b running requested importable v.pending v refl h

  pub start-IsOwned : (v : Video D F) → IsOwned v → IsOwned (start v)
  unfolding IsOwned start install_decoder
  start-IsOwned v (k, r) = (k ∙ sym (append-nil _), r)

  pub stop-IsOwned : (v : Video D F) → IsOwned v → IsOwned (stop v)
  unfolding IsOwned stop install_decoder drop_pending
  stop-IsOwned v (k, r) = (
    k ∙ sym (append-nil _),
    omega (
      arith,
      r,
      tally-append p v.released (listed v.pending),
      tally-append p (v.released ++ listed v.pending) (listed v.drawn),
    ),
  )

module _ (D : Type 0) {F : Type 0} (p : F → Bool) where
  pub no_video-IsOwned : IsOwned p (no_video {D = D})
  unfolding IsOwned
  no_video-IsOwned = (refl, refl)
