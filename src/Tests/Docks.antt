-- ===== src/Tests/Docks.antt =====
-- The control dock at concrete cameras, replies and moves of the mouse.
use obs_zcamera.Prelude.{
  ℕ, ◌≡◌, refl, Bool, true, false, not, ◌&&◌, ◌||◌, none, some, List, [], ◌∷◌, map, Text, codes,
  contains, ltb, ◌==◌,
}
use obs_zcamera.Prelude.Int.{pos}
use obs_zcamera.Schema.Naming.{host_from_source_name}
use obs_zcamera.Schema.Trace.{trace_state_from_int, ready_for_record}
use obs_zcamera.Dock.Pad.{
  Pad, idle, Geometry, presses, moves, releases, mouse_press, press_sector, mouse_move, move_sector,
  mouse_release,
}
use obs_zcamera.Dock.Pad
use obs_zcamera.Dock.Pad.Stops.{still, run-stops}
use obs_zcamera.Dock.Presets.{
  Panel, no_info, slot_info, trace_query, record_stop, after_stop, primary_clicked, on_timer,
  primaries, replies, fires, pages, slots, selected_is_named, on_slot_clicked,
}
use obs_zcamera.Dock.Presets
use obs_zcamera.Dock.Presets.Enabled.{IsAligned, rules, run-IsAligned}
use obs_zcamera.Dock.Presets.Reload.{run-reload_none}
use obs_zcamera.Dock.Rail.{Dock, cameras_of, hosts_of, rows_of, scans, clicks, handle, run}
use obs_zcamera.Dock.Rail.Lists.{distinct}
use obs_zcamera.Dock.Rail.Hosts.{found_hosts, rows_of-hosts}
use obs_zcamera.Dock.Rail.Painted.{IsPainted, fresh_row, run-rows}
use obs_zcamera.Dock.Stream.{
  app_stream1, stream1, selects, connects, loads, discovered, answered, write, write_stream_params,
}
use obs_zcamera.Dock.Stream
use obs_zcamera.Dock.Stream.Origin.{IsOwn, run-IsOwn, run-second_discovery}

-- The same camera found twice, and one that is only a source.
abbrev twice : List (Text × Text)
twice = (codes "E2", codes "10.0.0.2") ∷ (codes "E2 old", codes "10.0.0.2") ∷ []

abbrev held : List Text
held = codes "ZCamera 10.0.0.9" ∷ codes "Scene" ∷ []

abbrev empty_dock : Dock
empty_dock = record {
  rail = record { items = []; added = [] };
  current_host = [];
  reachable_hosts = [];
  unreachable_hosts = [];
}

rows_of-hosts_example :
    (distinct (hosts_of (rows_of twice held empty_dock)) ≡ true)
    × (contains (hosts_of (rows_of twice held empty_dock)) (codes "10.0.0.9") ≡ (
        not false
        && (contains (found_hosts twice) (codes "10.0.0.9")
            || contains (map host_from_source_name held) (codes "10.0.0.9"))))
rows_of-hosts_example = rows_of-hosts twice held empty_dock (codes "10.0.0.9")

abbrev plain : Text → Text
plain t = t

run-rows_example :
    (handle plain
      (clicks held (codes "10.0.0.9") true)
      (run plain (scans twice held ∷ []) empty_dock)).rail.items
    ≡ map (fresh_row plain held) (
        cameras_of
          (handle plain
            (clicks held (codes "10.0.0.9") true)
            (run plain (scans twice held ∷ []) empty_dock)).rail)
unfolding IsPainted
run-rows_example =
    run-rows plain (scans twice held ∷ []) (clicks held (codes "10.0.0.9") true) empty_dock refl

-- A panel that found the camera recording.
abbrev taking : Panel
taking = record {
  has_client = true;
  connected = true;
  trace_mode = true;
  page = 0;
  selected = none;
  trace_state = pos 1;
  info = [];
  buttons = record {
    primary = true;
    secondary = false;
    delete = false;
    rename = false;
    pages = false;
  };
  stale = false;
}

run-reload_none_example :
    (primary_clicked taking ≡ (taking, (record_stop ∷ [], after_stop ∷ [])))
    × (on_timer after_stop taking ≡ trace_query ∷ slot_info true none ∷ [])
    × (Presets.run (primaries ∷ fires after_stop ∷ replies true none no_info ∷ []) taking ≡ none)
unfolding trace_state_from_int
run-reload_none_example = run-reload_none taking no_info refl refl refl refl refl refl

abbrev at_rest : Pad
at_rest = record { mode = idle; active = none; has_client = true; speed = 5; sent = [] }

-- Points are numbers: below 8 those of the sectors, 8 the middle, and the others outside.
abbrev flat : Geometry ℕ
flat = record {
  direction_at = λ n. elim (ltb n 8) [ true ↦ some n | false ↦ none ];
  in_center = λ n. n == 8;
  analog = λ speed n. (pos n, pos speed);
}

run-stops_example :
    still (Pad.run flat (presses true 3 ∷ moves 9 ∷ releases true ∷ []) at_rest).sent ≡ true
unfolding Pad.run Pad.handle mouse_press press_sector mouse_move move_sector mouse_release
    Pad.move_in_direction Pad.move Pad.tell Pad.stop_moving
run-stops_example =
    run-stops flat (presses true 3 ∷ moves 9 ∷ releases true ∷ []) at_rest refl refl refl

-- The first page, with its second slot selected, and the state after that.
abbrev page_one : Panel
page_one = record taking { trace_state = pos 6; buttons = rules true ready_for_record false false }

abbrev second_selected : Panel
second_selected = on_slot_clicked 1 page_one

run-IsAligned_example : IsAligned second_selected
unfolding IsAligned selected_is_named trace_state_from_int Presets.run Presets.handle
    on_slot_clicked
run-IsAligned_example =
    run-IsAligned (slots 1 ∷ []) page_one second_selected (refl, refl, λ e. refl) refl

abbrev bar : Stream.Panel ℕ
bar = record {
  client = some 4;
  connected = true;
  stream_index = none;
  stream_doc = none;
  origin = none;
}

-- A document is a number that is not 0.
abbrev nonzero : ℕ → Bool
nonzero n = not (n == 0)

run-IsOwn_example : IsOwn (
    Stream.run nonzero
      (loads ∷ discovered 4 7 ∷ selects (some 5) ∷ answered 4 app_stream1 8 ∷ [])
      bar)
unfolding IsOwn
run-IsOwn_example =
    run-IsOwn nonzero (loads ∷ discovered 4 7 ∷ selects (some 5) ∷ answered 4 app_stream1 8 ∷ [])
      bar tt

abbrev params : List (Text × Text)
params = (codes "bitrate", codes "20000") ∷ []

run-second_discovery_example :
    let after = Stream.run nonzero (discovered 4 7 ∷ discovered 4 0 ∷ []) bar in
    (after.stream_doc ≡ some 7)
    × (after.origin ≡ some (4, app_stream1))
    × (write_stream_params params after ≡ write 4 stream1 params ∷ [])
run-second_discovery_example = run-second_discovery nonzero 4 7 0 params bar refl refl refl
