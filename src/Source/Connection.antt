-- ===== src/Source/Connection.antt =====
-- The connection of the source: what every history keeps, and what the watchdog does.
use obs_zcamera.Prelude.{
  ℕ, ◌≡◌, refl, sym, ap, ap₂, ◌∙◌, Bool, true, false, not, ◌&&◌, ◌||◌, Option, none, some, List, [],
  ◌∷◌, Text, is_empty, ◌==◌, if◌then◌else◌, and-right, Bool-cases, inl, inr, true≢false,
}
use obs_zcamera.Video.{Build, Decoded, drop_pending}
use obs_zcamera.Source.{
  Settings, Source, Thread, no_thread, waiting, ended, or_named, same_settings, without_cuda, start,
  teardown_connection, join_thread, stop, update, activate, spawn, on_disconnected, watchdog,
  reconnect_now, wake_thread, wake, on_video_data, on_meta, video_render, Event, updates, activates,
  wakes, videos, metas, renders, stops, disconnects, handle, run,
}

abbrev pub is_waiting : Thread → Bool
is_waiting waiting = true
is_waiting other = false

-- A client goes to an address, which is that of the settings.
abbrev Leads : Bool → Option (Text × ℕ) → Text → Type 0
Leads running none ip = running ≡ false
Leads running (some (to, size)) ip = (running ≡ true) × (to ≡ ip) × (is_empty ip ≡ false)

-- The source runs exactly with a client, which goes to the address of the settings; one reconnect thread
-- waits at most, and exactly if the flag says so; no thread was assigned over one that was not joined.
abbrev pub IsSound : {D F : Type 0} → Source D F → Type 0
IsSound q =
    Leads q.running q.client q.settings.ip
    × (q.reconnect_joined ≡ not (is_waiting q.thread))
    × (q.aborted ≡ false)

abbrev IsStill : {D F : Type 0} → Source D F → Type 0
IsStill q = (q.running ≡ false) × (q.client ≡ none)

still-of : (r : Bool) (o : Option (Text × ℕ)) (ip : Text) → r ≡ false → Leads r o ip → o ≡ none
still-of r none ip e l = refl
still-of r (some client) ip e l = absurd (true≢false (sym l.0 ∙ e))

not-true : (b : Bool) → true ≡ not b → b ≡ false
not-true true e = cc
not-true false e = refl

module _ {D F : Type 0} where
  start-IsSound :
      (now : ℕ) (q : Source D F)
      → IsStill q
      → q.reconnect_joined ≡ not (is_waiting q.thread)
      → q.aborted ≡ false
      → IsSound (start now q)
  unfolding start
  start-IsSound now q (r, c) j a = elim (Bool-cases (is_empty (or_named q.settings.ip q.name))) [
    | inl e ↦ rw (e, c) (r, j, a)
    | inr e ↦ rw (e, r) ((refl, refl, e), j, a)
  ]

  pick-IsSound :
      (b : Bool) (x y : Source D F)
      → (b ≡ true → IsSound x)
      → (b ≡ false → IsSound y)
      → IsSound (if b then x else y)
  pick-IsSound true x y h k = h refl
  pick-IsSound false x y h k = k refl

  activate-IsSound : (now : ℕ) (q : Source D F) → IsSound q → IsSound (activate now q)
  unfolding activate
  activate-IsSound now q (l, j, a) =
      pick-IsSound q.running q (start now q) (λ on. (l, j, a))
        (λ off. start-IsSound now q (off, still-of q.running q.client q.settings.ip off l) j a)

  joins :
      (t : Thread) (q : Source D F)
      → q.thread ≡ t
      → q.reconnect_joined ≡ not (is_waiting q.thread)
      → q.aborted ≡ false
      → ((join_thread t q).reconnect_joined ≡ not (is_waiting (join_thread t q).thread))
        × ((join_thread t q).aborted ≡ false)
  unfolding join_thread
  joins no_thread q e j a = (j, a)
  joins waiting q e j a = (refl, a)
  joins ended q e j a = (refl, a)

  stop-IsSound : (q : Source D F) → IsSound q → IsSound (stop q)
  unfolding stop teardown_connection
  stop-IsSound q (l, j, a) =
      let joined =
        joins q.thread (record q { stopping = true; running = false; client = none }) refl j a in
      (refl, joined.0, joined.1)

  update-IsSound : (now : ℕ) (s : Settings) (q : Source D F) → IsSound q → IsSound (update now s q)
  unfolding update stop teardown_connection
  update-IsSound now s q (l, j, a) =
      let wanted = record s { ip = or_named s.ip q.name; backend = without_cuda s.backend } in
      let q' = record (stop q) { settings = wanted } in
      let sound = stop-IsSound q (l, j, a) in
      pick-IsSound (same_settings wanted q.settings) q (start now q') (λ same. (l, j, a))
        (λ changed. start-IsSound now q' (refl, refl) sound.1 sound.2)

  spawn-IsSound :
      (t : Thread) (q : Source D F)
      → is_waiting t ≡ false
      → Leads q.running q.client q.settings.ip
      → q.reconnect_joined ≡ false
      → q.aborted ≡ false
      → IsSound (spawn t q)
  unfolding spawn
  spawn-IsSound no_thread q w l j a = (l, j, a)
  spawn-IsSound waiting q w l j a = absurd (true≢false w)
  spawn-IsSound ended q w l j a = (l, j, a)

  on_disconnected-IsSound : (q : Source D F) → IsSound q → IsSound (on_disconnected q)
  unfolding on_disconnected
  on_disconnected-IsSound q (l, j, a) =
      pick-IsSound (q.running && q.reconnect_joined)
        (spawn q.thread (record q { reconnect_joined = false })) q
        (λ on.
          let ended_or_none =
            not-true (is_waiting q.thread) (sym (and-right q.running q.reconnect_joined on) ∙ j) in
          spawn-IsSound q.thread (record q { reconnect_joined = false }) ended_or_none l refl a)
        (λ off. (l, j, a))

  watchdog-IsSound : (now : ℕ) (q : Source D F) → IsSound q → IsSound (watchdog now q)
  unfolding watchdog
  watchdog-IsSound now q (l, j, a) =
      pick-IsSound _ q (on_disconnected (record q { last_packet_ns = now })) (λ e. (l, j, a))
        (λ e. on_disconnected-IsSound (record q { last_packet_ns = now }) (l, j, a))

  reconnect_now-IsSound : (now : ℕ) (q : Source D F) → IsSound q → IsSound (reconnect_now now q)
  unfolding reconnect_now teardown_connection
  reconnect_now-IsSound now q (l, j, a) =
      pick-IsSound q.stopping (teardown_connection q)
        (start now (record (teardown_connection q) { video = drop_pending q.video }))
        (λ e. (refl, j, a))
        (λ e.
          start-IsSound now (record (teardown_connection q) { video = drop_pending q.video })
            (refl, refl) j a)

  wake_thread-IsSound :
      (now : ℕ) (t : Thread) (q : Source D F) → IsSound q → IsSound (wake_thread now t q)
  unfolding wake_thread
  wake_thread-IsSound now no_thread q s = s
  wake_thread-IsSound now waiting q s =
      let sound =
        pick-IsSound (not q.running || q.stopping) q (reconnect_now now q) (λ e. s)
          (λ e. reconnect_now-IsSound now q s) in
      (sound.0, refl, sound.2)
  wake_thread-IsSound now ended q s = s

  on_video_data-IsSound :
      (b : Build D) (now type : ℕ) (packet : Text) (outcome : Decoded F) (q : Source D F)
      → IsSound q
      → IsSound (on_video_data b now type packet outcome q)
  unfolding on_video_data
  on_video_data-IsSound b now type packet outcome q (l, j, a) =
      pick-IsSound (not q.running) q _ (λ e. (l, j, a))
        (λ e.
          pick-IsSound (q.settings.wait_i_frame && (not q.i_frame_shown && not (type == 5))) _ _
            (λ f. (l, j, a)) (λ f. (l, j, a)))

  handle-IsSound : (b : Build D) (e : Event F) (q : Source D F) → IsSound q → IsSound (handle b e q)
  unfolding handle wake on_meta video_render
  handle-IsSound b (updates now s) q h = update-IsSound now s q h
  handle-IsSound b (activates now) q h = activate-IsSound now q h
  handle-IsSound b (wakes now) q h = wake_thread-IsSound now q.thread q h
  handle-IsSound b (videos now type packet outcome) q h =
      on_video_data-IsSound b now type packet outcome q h
  handle-IsSound b (metas encoder width height) q (l, j, a) = (l, j, a)
  handle-IsSound b (renders now importable) q h =
      let sound = watchdog-IsSound now q h in (sound.0, sound.1, sound.2)
  handle-IsSound b stops q h = stop-IsSound q h
  handle-IsSound b disconnects q h = on_disconnected-IsSound q h

  -- These hold after every history that starts where they hold, as in a new source: the source runs exactly
  -- with a client, which goes to the address of its settings; one reconnect thread waits at most, and a new
  -- one is never assigned over one that was not joined.
  pub run-IsSound :
      (b : Build D) (es : List (Event F)) (q : Source D F) → IsSound q → IsSound (run b es q)
  unfolding run
  run-IsSound b [] q h = h
  run-IsSound b (e ∷ es) q h = run-IsSound b es (handle b e q) (handle-IsSound b e q h)

  spawn-waits :
      (t : Thread) (q : Source D F)
      → is_waiting t ≡ false
      → spawn t q ≡ record q { thread = waiting }
  unfolding spawn
  spawn-waits no_thread q w = refl
  spawn-waits waiting q w = absurd (true≢false w)
  spawn-waits ended q w = refl

  -- The thread of a source that runs waits after a disconnect, unless it did before.
  pub on_disconnected-waits :
      (q : Source D F)
      → q.running ≡ true
      → q.reconnect_joined ≡ true
      → is_waiting q.thread ≡ false
      → on_disconnected q ≡ record q { reconnect_joined = false; thread = waiting }
  unfolding on_disconnected
  on_disconnected-waits q r j w =
      ap (λ b. if b then spawn q.thread (record q { reconnect_joined = false }) else q)
        (ap₂ ◌&&◌ r j)
      ∙ spawn-waits q.thread (record q { reconnect_joined = false }) w
