-- ===== src/Client/Commands.antt =====
-- The commands of zc_camera_client.cpp: each enqueues one request.
use obs_zcamera.Prelude.{
  ℕ, suc, ◌*◌, ◌-◌, true, false, none, some, List, [], ◌∷◌, Text, codes, if◌then◌else◌, ◌==◌,
}
use obs_zcamera.Prelude.Int.{ℤ, pos, negsuc, int_text}
use obs_zcamera.Prelude.Json.{Json}
use obs_zcamera.Schema.Wire.{
  Query, preset_query, ptrace_query, stream_setting_query, preset_thumbnail_path,
  ptrace_thumbnail_path,
}
use obs_zcamera.Client.{Client, Action, get, get_query, default_timeout, set_recording}

-- `seconds * 1000`, in an int that is wide enough.
unfoldable pub milliseconds : ℤ → ℤ
milliseconds (pos n) = pos (n * 1000)
milliseconds (negsuc n) = negsuc (suc n * 1000 - 1)

module _ {V D : Type 0} where
  -- `sendQuery`, `sendPreset` and `sendPtrace`.
  unfoldable pub send_query : Text → Query → List (Action V D)
  send_query path query = get_query path query default_timeout ∷ []

  unfoldable pub send_preset : Text → ℤ → Query → List (Action V D)
  unfolding preset_query
  send_preset action index extra =
      get_query (codes "/ctrl/preset") (preset_query action index extra) default_timeout ∷ []

  unfoldable pub send_ptrace : Text → ℤ → Query → List (Action V D)
  unfolding ptrace_query
  send_ptrace action index extra =
      get_query (codes "/ctrl/ptrace") (ptrace_query action index extra) default_timeout ∷ []

  unfoldable pub start_recording : Client V D → Client V D × List (Action V D)
  unfolding send_query set_recording
  start_recording c =
      (set_recording true c, send_query (codes "/ctrl/rec") ((codes "action", codes "start") ∷ []))

  unfoldable pub stop_recording : Client V D → Client V D × List (Action V D)
  unfolding send_query set_recording
  stop_recording c =
      (set_recording false c, send_query (codes "/ctrl/rec") ((codes "action", codes "stop") ∷ []))

  unfoldable pub capture_photo : List (Action V D)
  unfolding send_query
  capture_photo = send_query (codes "/ctrl/still") ((codes "action", codes "cap") ∷ [])

  unfoldable pub set_mode : Text → List (Action V D)
  unfolding send_query
  set_mode mode = send_query (codes "/ctrl/mode") ((codes "action", mode) ∷ [])

  unfoldable pub lens_zoom_in : ℤ → List (Action V D)
  unfolding send_query int_text
  lens_zoom_in speed =
      send_query (codes "/ctrl/lens")
        ((codes "action", codes "zoomin") ∷ (codes "fspeed", int_text speed) ∷ [])

  unfoldable pub lens_zoom_out : ℤ → List (Action V D)
  unfolding send_query int_text
  lens_zoom_out speed =
      send_query (codes "/ctrl/lens")
        ((codes "action", codes "zoomout") ∷ (codes "fspeed", int_text speed) ∷ [])

  unfoldable pub lens_zoom_stop : List (Action V D)
  unfolding send_query
  lens_zoom_stop = send_query (codes "/ctrl/lens") ((codes "action", codes "zoomstop") ∷ [])

  unfoldable pub lens_focus_near : ℤ → List (Action V D)
  unfolding send_query int_text
  lens_focus_near speed =
      send_query (codes "/ctrl/lens")
        ((codes "action", codes "focusnear") ∷ (codes "fspeed", int_text speed) ∷ [])

  unfoldable pub lens_focus_far : ℤ → List (Action V D)
  unfolding send_query int_text
  lens_focus_far speed =
      send_query (codes "/ctrl/lens")
        ((codes "action", codes "focusfar") ∷ (codes "fspeed", int_text speed) ∷ [])

  unfoldable pub lens_focus_stop : List (Action V D)
  unfolding send_query
  lens_focus_stop = send_query (codes "/ctrl/lens") ((codes "action", codes "focusstop") ∷ [])

  unfoldable pub af_one_push : List (Action V D)
  unfolding send_query
  af_one_push = send_query (codes "/ctrl/af") ([])

  unfoldable pub ptz_move : ℤ → ℤ → List (Action V D)
  unfolding send_query int_text
  ptz_move pan_speed tilt_speed = send_query (codes "/ctrl/pt") (
      (codes "action", codes "pt")
      ∷ (codes "pan_speed", int_text pan_speed)
      ∷ (codes "tilt_speed", int_text tilt_speed)
      ∷ [])

  unfoldable pub ptz_stop : List (Action V D)
  unfolding send_query
  ptz_stop = send_query (codes "/ctrl/pt") ((codes "action", codes "stop") ∷ [])

  unfoldable pub ptz_home : List (Action V D)
  unfolding send_query
  ptz_home = send_query (codes "/ctrl/pt") ((codes "action", codes "home") ∷ [])

  unfoldable pub ptz_preset_set : ℤ → List (Action V D)
  unfolding send_preset
  ptz_preset_set index = send_preset (codes "set") index ([])

  unfoldable pub ptz_preset_recall : ℤ → List (Action V D)
  unfolding send_preset
  ptz_preset_recall index = send_preset (codes "recall") index ([])

  unfoldable pub ptz_preset_delete : ℤ → List (Action V D)
  unfolding send_preset
  ptz_preset_delete index = send_preset (codes "del") index ([])

  unfoldable pub ptz_preset_info : ℤ → List (Action V D)
  unfolding send_preset
  ptz_preset_info index = send_preset (codes "get_info") index ([])

  unfoldable pub ptz_preset_set_name : ℤ → Text → List (Action V D)
  unfolding send_preset
  ptz_preset_set_name index name =
      send_preset (codes "set_name") index ((codes "new_name", name) ∷ [])

  unfoldable pub ptz_preset_set_speed_unit : ℤ → ℤ → List (Action V D)
  unfolding send_preset int_text
  ptz_preset_set_speed_unit index unit =
      send_preset (codes "preset_speed") index ((codes "preset_speed_unit", int_text unit) ∷ [])

  unfoldable pub ptz_preset_set_speed_by_index : ℤ → ℤ → List (Action V D)
  unfolding send_preset int_text
  ptz_preset_set_speed_by_index index speed =
      send_preset (codes "preset_speed") index ((codes "preset_speed", int_text speed) ∷ [])

  unfoldable pub ptz_preset_set_speed_by_duration : ℤ → ℤ → List (Action V D)
  unfolding send_preset int_text milliseconds
  ptz_preset_set_speed_by_duration index seconds =
      send_preset (codes "preset_speed") index
        ((codes "preset_time", int_text (milliseconds seconds)) ∷ [])

  unfoldable pub ptrace_delete : ℤ → List (Action V D)
  unfolding send_ptrace
  ptrace_delete index = send_ptrace (codes "del") index ([])

  unfoldable pub ptrace_set_name : ℤ → Text → List (Action V D)
  unfolding send_ptrace
  ptrace_set_name index name = send_ptrace (codes "set_name") index ((codes "new_name", name) ∷ [])

  unfoldable pub ptrace_record_start : ℤ → List (Action V D)
  unfolding send_ptrace
  ptrace_record_start index = send_ptrace (codes "rec_start") index ([])

  unfoldable pub ptrace_record_stop : List (Action V D)
  unfolding send_ptrace
  ptrace_record_stop = send_ptrace (codes "rec_stop") (negsuc 0) ([])

  unfoldable pub ptrace_play_prepare : ℤ → List (Action V D)
  unfolding send_ptrace
  ptrace_play_prepare index = send_ptrace (codes "play_prepare") index ([])

  unfoldable pub ptrace_play_start : List (Action V D)
  unfolding send_ptrace
  ptrace_play_start = send_ptrace (codes "play_start") (negsuc 0) ([])

  unfoldable pub ptrace_play_stop : List (Action V D)
  unfolding send_ptrace
  ptrace_play_stop = send_ptrace (codes "play_stop") (negsuc 0) ([])

  unfoldable pub ptrace_read_state : List (Action V D)
  unfolding send_ptrace
  ptrace_read_state = send_ptrace (codes "query") (negsuc 0) ([])

  unfoldable pub ptrace_info : ℤ → List (Action V D)
  unfolding send_ptrace
  ptrace_info index = send_ptrace (codes "get_info") index ([])

  unfoldable pub ptz_preset_thumbnail : ℕ → List (Action V D)
  ptz_preset_thumbnail index = get (preset_thumbnail_path index) default_timeout ∷ []

  unfoldable pub ptrace_thumbnail : ℕ → List (Action V D)
  ptrace_thumbnail index = get (ptrace_thumbnail_path index) default_timeout ∷ []

  -- `sendStreamSetting`: a read where `params` is empty.
  unfoldable pub send_stream_setting : Text → Query → List (Action V D)
  send_stream_setting index params =
      get_query (codes "/ctrl/stream_setting") (stream_setting_query index params) default_timeout
      ∷ []

-- What the callbacks of the requests are given.
module _ {V D : Type 0} (json : Json V D) where
  -- `ptzPresetInfo`, `ptraceInfo` and `sendStreamSetting`: an empty object where there is no answer.
  unfoldable pub object_reply : Text → V
  object_reply body = elim (json.parse_object body) [ none ↦ json.empty | some doc ↦ doc ]

  -- `ptraceQuery`: -1 where there is no answer.
  unfoldable pub trace_reply : Text → ℤ
  trace_reply body = elim (json.parse_object body) [
    | none ↦ negsuc 0
    | some doc ↦ json.to_int (json.field doc (codes "st_code")) (negsuc 0)
  ]

-- The thumbnails: the bytes of a reply with status 200.
unfoldable pub thumbnail_reply : ℕ → Text → Text
thumbnail_reply status body = if status == 200 then body else []
