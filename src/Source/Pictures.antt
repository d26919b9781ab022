-- ===== src/Source/Pictures.antt =====
-- The decoder and the pictures of the source over its whole life.
use obs_zcamera.Prelude.{
  ℕ, ◌≡◌, refl, Bool, true, false, not, ◌&&◌, ◌||◌, none, List, [], ◌∷◌, Text, is_empty, ◌==◌,
  if◌then◌else◌,
}
use obs_zcamera.Decoder.Backend.{HwBackend}
use obs_zcamera.Video.{Build, Decoded, Video, drop_pending, listed}
use obs_zcamera.Video
use obs_zcamera.Source.{
  Settings, Source, Thread, no_thread, waiting, ended, or_named, same_settings, without_cuda, start,
  teardown_connection, join_thread, stop, update, activate, spawn, on_disconnected, watchdog,
  reconnect_now, wake_thread, wake, on_video_data, on_meta, video_render, Event, updates, activates,
  wakes, videos, metas, renders, stops, disconnects, handle, run,
}

module _ {D F : Type 0} where
  pub video-join_thread : (t : Thread) (q : Source D F) → (join_thread t q).video ≡ q.video
  unfolding join_thread
  video-join_thread no_thread q = refl
  video-join_thread waiting q = refl
  video-join_thread ended q = refl

-- What the operations on the video keep, every event of the source keeps.
module _ {D F : Type 0} (b : Build D) (Kept : Video D F → Type 0)
    (starts : (v : Video D F) → Kept v → Kept (Video.start v))
    (stopped : (v : Video D F) → Kept v → Kept (Video.stop v))
    (drops : (v : Video D F) → Kept v → Kept (drop_pending v))
    (packets : (requested : HwBackend) (sync now : ℕ) (packet : Text) (outcome : Decoded F)
        (v : Video D F)
      → Kept v
      → Kept (Video.on_packet b requested sync now packet outcome v))
    (described : (running : Bool) (requested : HwBackend) (encoder width height : ℕ) (v : Video D F)
      → Kept v
      → Kept (Video.on_meta b running requested encoder width height v))
    (rendered : (running : Bool) (requested : HwBackend) (importable : Bool) (v : Video D F)
      → Kept v
      → Kept (Video.video_render b running requested importable v)) where
  pick-Kept :
      (c : Bool) (x y : Source D F) → Kept x.video → Kept y.video → Kept (if c then x else y).video
  pick-Kept true x y h k = h
  pick-Kept false x y h k = k

  start-Kept : (now : ℕ) (q : Source D F) → Kept q.video → Kept (start now q).video
  unfolding start
  start-Kept now q h =
      pick-Kept (is_empty (or_named q.settings.ip q.name) || q.running) _ _ h (starts q.video h)

  stop-Kept : (q : Source D F) → Kept q.video → Kept (stop q).video
  unfolding stop teardown_connection
  stop-Kept q h =
      let q' = record q { stopping = true; running = false; client = none } in
      rw (video-join_thread q.thread q') (stopped q.video h)

  update-Kept :
      (now : ℕ) (s : Settings) (q : Source D F) → Kept q.video → Kept (update now s q).video
  unfolding update
  update-Kept now s q h =
      let wanted = record s { ip = or_named s.ip q.name; backend = without_cuda s.backend } in
      let q' = record (stop q) { settings = wanted } in
      pick-Kept (same_settings wanted q.settings) q (start now q') h
        (start-Kept now q' (stop-Kept q h))

  activate-Kept : (now : ℕ) (q : Source D F) → Kept q.video → Kept (activate now q).video
  unfolding activate
  activate-Kept now q h = pick-Kept q.running q (start now q) h (start-Kept now q h)

  spawn-Kept : (t : Thread) (q : Source D F) → Kept q.video → Kept (spawn t q).video
  unfolding spawn
  spawn-Kept no_thread q h = h
  spawn-Kept waiting q h = h
  spawn-Kept ended q h = h

  on_disconnected-Kept : (q : Source D F) → Kept q.video → Kept (on_disconnected q).video
  unfolding on_disconnected
  on_disconnected-Kept q h =
      pick-Kept (q.running && q.reconnect_joined)
        (spawn q.thread (record q { reconnect_joined = false })) q
        (spawn-Kept q.thread (record q { reconnect_joined = false }) h) h

  watchdog-Kept : (now : ℕ) (q : Source D F) → Kept q.video → Kept (watchdog now q).video
  unfolding watchdog
  watchdog-Kept now q h =
      pick-Kept _ q (on_disconnected (record q { last_packet_ns = now })) h
        (on_disconnected-Kept (record q { last_packet_ns = now }) h)

  reconnect_now-Kept : (now : ℕ) (q : Source D F) → Kept q.video → Kept (reconnect_now now q).video
  unfolding reconnect_now teardown_connection
  reconnect_now-Kept now q h =
      let q' = record (teardown_connection q) { video = drop_pending q.video } in
      pick-Kept q.stopping (teardown_connection q) (start now q') h
        (start-Kept now q' (drops q.video h))

  wake_thread-Kept :
      (now : ℕ) (t : Thread) (q : Source D F) → Kept q.video → Kept (wake_thread now t q).video
  unfolding wake_thread
  wake_thread-Kept now no_thread q h = h
  wake_thread-Kept now waiting q h =
      pick-Kept (not q.running || q.stopping) q (reconnect_now now q) h (reconnect_now-Kept now q h)
  wake_thread-Kept now ended q h = h

  on_video_data-Kept :
      (now type : ℕ) (packet : Text) (outcome : Decoded F) (q : Source D F)
      → Kept q.video
      → Kept (on_video_data b now type packet outcome q).video
  unfolding on_video_data
  on_video_data-Kept now type packet outcome q h = pick-Kept (not q.running) q _ h (
      pick-Kept (q.settings.wait_i_frame && (not q.i_frame_shown && not (type == 5))) _ _ h
        (packets q.settings.backend q.settings.sync_mode now packet outcome q.video h))

  handle-Kept : (e : Event F) (q : Source D F) → Kept q.video → Kept (handle b e q).video
  unfolding handle wake on_meta video_render
  handle-Kept (updates now s) q h = update-Kept now s q h
  handle-Kept (activates now) q h = activate-Kept now q h
  handle-Kept (wakes now) q h = wake_thread-Kept now q.thread q h
  handle-Kept (videos now type packet outcome) q h = on_video_data-Kept now type packet outcome q h
  handle-Kept (metas encoder width height) q h =
      described q.running q.settings.backend encoder width height q.video h
  handle-Kept (renders now importable) q h =
      rendered _ _ importable (watchdog now q).video (watchdog-Kept now q h)
  handle-Kept stops q h = stop-Kept q h
  handle-Kept disconnects q h = on_disconnected-Kept q h

  pub run-Kept : (es : List (Event F)) (q : Source D F) → Kept q.video → Kept (run b es q).video
  unfolding run
  run-Kept [] q h = h
  run-Kept (e ∷ es) q h = run-Kept es (handle b e q) (handle-Kept e q h)
