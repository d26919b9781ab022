-- ===== src/Source.antt =====
-- src/zc_source.cpp: the settings and the connection of an OBS source. A client is the address and the
-- buffer size that it was made with; `D` stands for the decoders and `F` for the surfaces, and `name` is the
-- source's name in OBS. Each method is one step of a history, which is an assumption about its threads;
-- the reconnect thread waits, or its wait is over, between two of them.
pub mod Applied
pub mod Connection
pub mod Stall
pub mod Pictures
pub mod Resources
use obs_zcamera.Prelude.{
  ℕ, zero, suc, ◌+◌, ◌-◌, ◌*◌, ◌/◌, ◌%◌, ◌^◌, Bool, true, false, not, ◌&&◌, ◌||◌, Option, none,
  some, List, [], ◌∷◌, Text, codes, is_empty, length, drop, starts_with, text_eq, ltb, leb, ◌==◌,
  if◌then◌else◌, same_flag,
}
use obs_zcamera.Decoder.Backend.{HwBackend, auto, cuda, d3d11va, videotoolbox, software, count}
use obs_zcamera.Video.{Build, Decoded, Video, drop_pending, no_video}
use obs_zcamera.Video

-- What `update` reads from OBS, and the fields that keep it.
pub record Settings : Type 0 where
  pub ip : Text
  pub backend : HwBackend
  pub bitrate : ℕ
  pub sync_mode : ℕ
  pub wait_i_frame : Bool
  pub low_noise : Bool

-- `reconnectThread_`: none, one that waits, and one that has ended and was not joined.
pub data Thread : Type 0 where
  no_thread waiting ended : Thread

pub record Source (D F : Type 0) : Type 0 where
  pub name : Option Text
  pub settings : Settings
  pub client : Option (Text × ℕ)
  pub running : Bool
  pub i_frame_shown : Bool
  pub stopping : Bool
  pub thread : Thread
  pub reconnect_joined : Bool
  pub started_ns : ℕ
  pub last_packet_ns : ℕ
  pub video : Video D F
  -- A thread was assigned over one that was not joined.
  pub aborted : Bool

-- `ipFromSourceName`.
abbrev pub source_prefix : Text
source_prefix = codes "ZCamera "

unfoldable pub ip_from_source_name : Option Text → Text
ip_from_source_name none = []
ip_from_source_name (some full) =
    if leb (length full) (length source_prefix) || not (starts_with full source_prefix)
    then []
    else drop (length source_prefix) full

-- `ip.empty()`, then the name's address.
unfoldable pub or_named : Text → Option Text → Text
or_named ip name = if is_empty ip then ip_from_source_name name else ip

-- `ZC_STALL_TIMEOUT_MS`, and the first of the delays of the reconnect thread.
abbrev pub stall_timeout : ℕ
stall_timeout = 10000

-- Equality of two backends by their codes.
abbrev pub backend_code : HwBackend → ℕ
backend_code auto = 0
backend_code cuda = 1
backend_code d3d11va = 2
backend_code videotoolbox = 3
backend_code software = 4
backend_code count = 5

unfoldable pub without_cuda : HwBackend → HwBackend
without_cuda cuda = auto
without_cuda backend = backend

unfoldable pub same_settings : Settings → Settings → Bool
same_settings s t =
    text_eq s.ip t.ip
    && (backend_code s.backend == backend_code t.backend
        && (s.bitrate == t.bitrate
            && (s.sync_mode == t.sync_mode
                && (same_flag s.wait_i_frame t.wait_i_frame && same_flag s.low_noise t.low_noise))))

module _ {D F : Type 0} where
  -- `start` at a time, with the client's Start.
  unfoldable pub start : ℕ → Source D F → Source D F
  start now q =
      let ip = or_named q.settings.ip q.name in
      let named = record q { settings = record q.settings { ip = ip } } in
      if is_empty ip || q.running then named else record named {
        video = Video.start q.video;
        stopping = false;
        client = some (ip, q.settings.bitrate * 1024 % 2 ^ 32);
        started_ns = now;
        last_packet_ns = 0;
        running = true;
        i_frame_shown = false;
      }

  unfoldable pub teardown_connection : Source D F → Source D F
  teardown_connection q = record q { running = false; client = none }

  -- A thread that waits wakes up, sees `stopping`, lowers it and ends; `stop` joins it.
  unfoldable pub join_thread : Thread → Source D F → Source D F
  join_thread no_thread q = q
  join_thread waiting q = record q { thread = no_thread; reconnect_joined = true; stopping = false }
  join_thread ended q = record q { thread = no_thread; reconnect_joined = true }

  unfoldable pub stop : Source D F → Source D F
  stop q =
      let q' = teardown_connection (record q { stopping = true }) in
      let q'' = teardown_connection (join_thread q'.thread q') in
      record q'' { video = Video.stop q''.video }

  unfoldable pub update : ℕ → Settings → Source D F → Source D F
  update now s q =
      let wanted = record s { ip = or_named s.ip q.name; backend = without_cuda s.backend } in
      if same_settings wanted q.settings
      then q
      else (let q' = stop q in start now (record q' { settings = wanted }))

  unfoldable pub activate : ℕ → Source D F → Source D F
  activate now q = if q.running then q else start now q

  -- The thread that has ended is joined, and a new one starts, which waits.
  unfoldable pub spawn : Thread → Source D F → Source D F
  spawn waiting q = record q { thread = waiting; aborted = true }
  spawn other q = record q { thread = waiting }

  unfoldable pub on_disconnected : Source D F → Source D F
  on_disconnected q =
      if q.running && q.reconnect_joined
      then spawn q.thread (record q { reconnect_joined = false })
      else q

  unfoldable pub watchdog : ℕ → Source D F → Source D F
  watchdog now q =
      let since = if q.last_packet_ns == 0 then q.started_ns else q.last_packet_ns in
      if not q.running
        || (since == 0 || ltb ((now + 2 ^ 64 - since) % 2 ^ 64 / 1000000) stall_timeout)
      then q
      else on_disconnected (record q { last_packet_ns = now })

  unfoldable pub reconnect_now : ℕ → Source D F → Source D F
  reconnect_now now q =
      let q' = teardown_connection q in
      if q.stopping then q' else start now (record q' { video = drop_pending q'.video })

  -- The wait of the reconnect thread is over: one attempt, and the thread ends.
  unfoldable pub wake_thread : ℕ → Thread → Source D F → Source D F
  wake_thread now waiting q =
      let q' = if not q.running || q.stopping then q else reconnect_now now q in
      record q' { stopping = false; reconnect_joined = true; thread = ended }
  wake_thread now other q = q

  unfoldable pub wake : ℕ → Source D F → Source D F
  wake now q = wake_thread now q.thread q

  -- A packet is held back until the first picture that is whole, of type 5, where the settings want it.
  unfoldable pub on_video_data : Build D → ℕ → ℕ → Text → Decoded F → Source D F → Source D F
  on_video_data b now type packet outcome q =
      let stamped = record q { last_packet_ns = now } in
      let shown = record stamped { i_frame_shown = q.settings.wait_i_frame || q.i_frame_shown } in
      if not q.running
      then q
      else (if q.settings.wait_i_frame && (not q.i_frame_shown && not (type == 5))
          then stamped
          else record shown {
            video =
                Video.on_packet b q.settings.backend q.settings.sync_mode now packet outcome
                  q.video;
          })

  unfoldable pub on_meta : Build D → ℕ → ℕ → ℕ → Source D F → Source D F
  on_meta b encoder width height q = record q {
    video = Video.on_meta b q.running q.settings.backend encoder width height q.video;
  }

  unfoldable pub video_render : Build D → ℕ → Bool → Source D F → Source D F
  video_render b now importable q =
      let q' = watchdog now q in
      record q' { video = Video.video_render b q'.running q'.settings.backend importable q'.video }

  -- As it is constructed, before it gets settings; a source is destroyed after `stop`.
  unfoldable pub constructed : Option Text → Source D F
  constructed name = record {
    name = name;
    settings = record {
      ip = [];
      backend = auto;
      bitrate = 0;
      sync_mode = 0;
      wait_i_frame = false;
      low_noise = false;
    };
    client = none;
    running = false;
    i_frame_shown = false;
    stopping = false;
    thread = no_thread;
    reconnect_joined = true;
    started_ns = 0;
    last_packet_ns = 0;
    video = no_video;
    aborted = false;
  }

  unfoldable pub zc_source_create : ℕ → Option Text → Settings → Source D F
  zc_source_create now name settings = update now settings (constructed name)

  unfoldable pub zc_source_destroy : Source D F → Source D F
  zc_source_destroy q = stop q

-- What happens to the source: a packet with its type, a message of meta data with the encoder and the size,
-- and a rendering, which is told whether the surface that waits can be imported.
pub data Event (F : Type 0) : Type 0 where
  updates : ℕ → Settings → Event F
  activates wakes : ℕ → Event F
  videos : ℕ → ℕ → Text → Decoded F → Event F
  metas : ℕ → ℕ → ℕ → Event F
  renders : ℕ → Bool → Event F
  stops disconnects : Event F

module _ {D F : Type 0} (b : Build D) where
  unfoldable pub handle : Event F → Source D F → Source D F
  handle (updates now s) q = update now s q
  handle (activates now) q = activate now q
  handle (wakes now) q = wake now q
  handle (videos now type packet outcome) q = on_video_data b now type packet outcome q
  handle (metas encoder width height) q = on_meta b encoder width height q
  handle (renders now importable) q = video_render b now importable q
  handle stops q = stop q
  handle disconnects q = on_disconnected q

  unfoldable pub run : List (Event F) → Source D F → Source D F
  run [] q = q
  run (e ∷ es) q = run es (handle e q)
