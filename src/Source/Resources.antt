-- ===== src/Source/Resources.antt =====
-- What the source owns over its life: its decoders, the surfaces and the buffers of the pictures.
use obs_zcamera.Prelude.{
  ◌≡◌, refl, sym, Bool, true, false, Option, none, List, ◌++◌, Text, arith, true≢false,
}
use obs_zcamera.Picture.Bounds.{IsReadable}
use obs_zcamera.Video.{Build, Video, listed, no_video, install_decoder, drop_pending}
use obs_zcamera.Video
use obs_zcamera.Video.Owned.{
  IsOwned, no_video-IsOwned, tally, tally-append, drop_pending-IsOwned, start-IsOwned, stop-IsOwned,
  on_packet-IsOwned, on_meta-IsOwned, video_render-IsOwned,
}
use obs_zcamera.Video.Buffers.{
  HasBuffers, on_meta-HasBuffers, on_packet-HasBuffers, video_render-HasBuffers, kept-HasBuffers,
  stop-HasBuffers,
}
use obs_zcamera.Source.{Event, constructed, run, zc_source_destroy, stop, teardown_connection}
use obs_zcamera.Source.Pictures.{run-Kept, video-join_thread}

module _ {D F : Type 0} where
  -- Whatever happens to a source that renders, after each event: the decoders that were built are those that
  -- were destroyed, in the same order, and then the one in place; and of the surfaces with any property, as
  -- many were decoded as were released, wait or are on screen.
  run-IsOwned :
      (p : F → Bool) (b : Build D) (es : List (Event F)) (name : Option Text)
      → b.async ≡ false
      → IsOwned p (run b es (constructed name)).video
  unfolding constructed
  run-IsOwned p b es name a =
      run-Kept b (IsOwned p) (start-IsOwned p) (stop-IsOwned p) (drop_pending-IsOwned p)
        (λ requested sync now packet outcome v h.
          on_packet-IsOwned p b requested sync now packet outcome v a h)
        (on_meta-IsOwned p b) (video_render-IsOwned p b) es (constructed name)
        (no_video-IsOwned D p)

  stopped-IsOwned :
      (p : F → Bool) (v : Video D F)
      → IsOwned p v
      → ((Video.stop v).built ≡ (Video.stop v).destroyed)
        × (tally p (Video.stop v).decoded ≡ tally p (Video.stop v).released)
  unfolding Video.stop install_decoder drop_pending IsOwned
  stopped-IsOwned p v (k, r) = (
    k,
    omega (
      arith,
      r,
      tally-append p v.released (listed v.pending),
      tally-append p (v.released ++ listed v.pending) (listed v.drawn),
    ),
  )

  -- When a source that renders is destroyed, whatever happened to it: every decoder that was built was
  -- destroyed, in the same order, and of the surfaces with any property as many were released as were decoded.
  pub zc_source_destroy-released :
      (p : F → Bool) (b : Build D) (es : List (Event F)) (name : Option Text)
      → b.async ≡ false
      → ((zc_source_destroy (run b es (constructed name))).video.built
          ≡ (zc_source_destroy (run b es (constructed name))).video.destroyed)
        × (tally p (zc_source_destroy (run b es (constructed name))).video.decoded
            ≡ tally p (zc_source_destroy (run b es (constructed name))).video.released)
  unfolding zc_source_destroy stop teardown_connection
  zc_source_destroy-released p b es name a =
      let q = run b es (constructed name) in
      let q' = record q { stopping = true; running = false; client = none } in
      rw (video-join_thread q.thread q') (stopped-IsOwned p q.video (run-IsOwned p b es name a))

  -- Whatever happens to a source: where a converted picture of the CPU waits for its upload, its buffer has
  -- four bytes for each pixel of the size that the upload reads, as far as a number of 32 bits counts them.
  run-IsReadable :
      (b : Build D) (es : List (Event F)) (name : Option Text)
      → IsReadable (run b es (constructed name)).video.cpu_frame
  unfolding constructed HasBuffers
  run-IsReadable b es name =
      run-Kept b HasBuffers (λ v h. (kept-HasBuffers v h).0) stop-HasBuffers
        (λ v h. (kept-HasBuffers v h).1) (on_packet-HasBuffers b) (on_meta-HasBuffers b)
        (video_render-HasBuffers b) es (constructed name) (refl, λ e. absurd (true≢false (sym e)))
