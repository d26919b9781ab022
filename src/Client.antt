-- ===== src/Client.antt =====
-- src/cameractrl/zc_camera_client.cpp: the client of one camera, over the transport's origin, the
-- notifier and the settings engine. A request is an action here: `get` and `get_query` enqueue it at
-- the transport's queue, and what its reply does is the handler of that request.
pub mod Commands
pub mod Connection
pub mod Events
use obs_zcamera.Prelude.{
  ℕ, zero, suc, ◌*◌, ◌-◌, Bool, true, false, not, ◌&&◌, ◌||◌, Option, none, some, List, [], ◌∷◌,
  ◌++◌, map, Text, codes, is_empty, starts_with, text_eq, if◌then◌else◌, ltb,
}
use obs_zcamera.Prelude.Int.{ℤ, pos, negsuc, eq_pos}
use obs_zcamera.Prelude.Json.{Json}
use obs_zcamera.Schema.Wire.{Query, model_name, camera_supports_ptz}
use obs_zcamera.Transport.Digest.{Auth, Credentials, Reply, set_credentials}
use obs_zcamera.Transport.Session.{upgrade_header_block}
use obs_zcamera.Transport.Origin.{Origin, Candidate, negotiate_origin}
use obs_zcamera.Notifier
use obs_zcamera.Notifier.{Notifier, start_notifier, stop_notifier}

pub record Client (V D : Type 0) : Type 0 where
  pub origin : Origin
  pub notifier : Notifier
  pub connected : Bool
  pub host : Text
  pub mode : Text
  pub recording : Bool
  pub temperature : D
  pub model : Text
  pub supports_ptz : Bool
  pub hud_values : V

pub data Action (V D : Type 0) : Type 0 where
  -- `transport_.get` and `transport_.getQuery`, with their timeouts.
  get : Text → ℕ → Action V D
  get_query : Text → Query → ℕ → Action V D
  notifier_action : Notifier.Action V → Action V D
  status_changed : V → Action V D
  mode_changed : Text → Action V D
  recording_started recording_stopped : Action V D
  recording_duration recording_remaining : ℤ → Action V D
  temperature_changed : D → Action V D
  config_changed : Text → Text → Action V D
  af_area_changed : D → D → D → D → Action V D
  camera_info_changed : Action V D
  connection_state_changed : Bool → Action V D

-- The default timeout of a request.
abbrev pub default_timeout : ℕ
default_timeout = 20000

module _ {V D : Type 0} where
  -- `setRecording`.
  unfoldable pub set_recording : Bool → Client V D → Client V D
  set_recording rec c = record c { recording = rec }

  -- `refreshStatus` and `refreshCameraInfo`.
  abbrev pub refresh_status : Action V D
  refresh_status = get (codes "/camera_status") default_timeout

  abbrev pub refresh_camera_info : Action V D
  refresh_camera_info = get (codes "/info") default_timeout

  -- `connect` after the negotiation.
  unfoldable pub after_negotiation :
      Text → Credentials → Bool × Origin → Client V D → Bool × Client V D × List (Action V D)
  after_negotiation host creds (answered, origin) c =
      let c' = record c { host = host; origin = origin } in
      let started =
        start_notifier {V = V} host (starts_with origin.base_url (codes "https://"))
          (upgrade_header_block origin.auth) c.notifier in
      if not answered
      then (false, c', [])
      else (if origin.auth_required && is_empty creds.username then (false, c', []) else (
        true,
        record c' { notifier = started.0; connected = true },
        map notifier_action started.1
            ++ refresh_status ∷ refresh_camera_info ∷ connection_state_changed true ∷ [],
      ))

  -- `connect`; the replies to the probes and the client nonces drawn are arguments.
  unfoldable pub connect :
      (Candidate → Reply)
      → (Candidate → Text)
      → Text
      → ℤ
      → Credentials
      → Client V D
      → Bool × Client V D × List (Action V D)
  connect reply_of cnonce_of host port creds c =
      after_negotiation host creds
        (negotiate_origin reply_of cnonce_of host port
          (record c.origin { auth = set_credentials creds c.origin.auth }))
        c

  -- `disconnect`.
  unfoldable pub disconnect : Client V D → Client V D × List (Action V D)
  unfolding stop_notifier
  disconnect c =
      let stopped = stop_notifier {V = V} c.notifier in
      (
        record c {
          notifier = stopped.0;
          connected = false;
          mode = [];
          recording = false;
          model = [];
          supports_ptz = false;
        },
        map notifier_action stopped.1
            ++ ((if c.connected then get (codes "/ctrl/session?action=quit") 1000 ∷ [] else [])
                ++ camera_info_changed ∷ connection_state_changed false ∷ []),
      )

module _ {V D : Type 0} (json : Json V D) (text_to_int : Text → Option ℤ) where
  abbrev pub text_field : V → Text → Text
  text_field o name = json.to_text (json.field o name)

  abbrev pub first_of : Text → Text → Text
  first_of s t = if is_empty s then t else s

  -- `camera_status`: the status, and what it says of the temperature and the mode.
  unfoldable pub on_camera_status : V → List (Action V D)
  on_camera_status o =
      status_changed o
      ∷ ((if json.has o (codes "temperature")
            then temperature_changed (json.to_double (json.field o (codes "temperature"))) ∷ []
            else [])
          ++ (if json.has o (codes "mode")
              then mode_changed (text_field o (codes "mode")) ∷ []
              else []))

  abbrev pub is_positive : ℤ → Bool
  is_positive (pos n) = ltb 0 n
  is_positive (negsuc n) = false

  unfoldable pub on_rec_duration : V → List (Action V D)
  on_rec_duration o =
      let seconds = json.to_int (json.field o (codes "value")) (pos 0) in
      if eq_pos (json.to_int (json.field o (codes "index")) (pos 0)) 1 && is_positive seconds
      then recording_duration seconds ∷ []
      else []

  abbrev pub remaining : Option ℤ → Option ℤ → List (Action V D)
  remaining (some seconds) second = recording_remaining seconds ∷ []
  remaining none (some seconds) = recording_remaining seconds ∷ []
  remaining none none = []

  unfoldable pub on_config_changed : V → List (Action V D)
  on_config_changed o =
      let key =
        first_of (text_field o (codes "key"))
          (first_of (text_field o (codes "config_key")) (text_field o (codes "k"))) in
      let text = first_of (text_field o (codes "value")) (text_field o (codes "v")) in
      if is_empty key then [] else config_changed key text ∷ []

  -- `handleWsEvent`.
  unfoldable pub handle_ws_event : Text → V → Client V D → Client V D × List (Action V D)
  unfolding set_recording
  handle_ws_event what o c =
      if text_eq what (codes "camera_status")
      then (c, on_camera_status o)
      else (if text_eq what (codes "RecStarted")
          then (set_recording true c, recording_started ∷ [])
          else (if text_eq what (codes "RecStoped")
              then (set_recording false c, recording_stopped ∷ [])
              else (if text_eq what (codes "RecUpdateDur")
                  then (c, on_rec_duration o)
                  else (if text_eq what (codes "RecUpdateRemain")
                      then (
                        c,
                        remaining (text_to_int (text_field o (codes "value")))
                            (text_to_int (text_field o (codes "msg"))),
                      )
                      else (if text_eq what (codes "ModeChanged")
                          then (
                            record c { mode = text_field o (codes "value") },
                            mode_changed (text_field o (codes "value")) ∷ [],
                          )
                          else (if text_eq what (codes "TempUpdate")
                              then (
                                c,
                                temperature_changed (json.to_double (json.field o (codes "value")))
                                    ∷ [],
                              )
                              else (if text_eq what (codes "ConfigChanged")
                                  then (c, on_config_changed o)
                                  else (if text_eq what (codes "UpdateAfArea")
                                      then (
                                        c,
                                        af_area_changed
                                              (json.to_double (json.field o (codes "roi_x")))
                                              (json.to_double (json.field o (codes "roi_y")))
                                              (json.to_double (json.field o (codes "roi_w")))
                                              (json.to_double (json.field o (codes "roi_h")))
                                            ∷ [],
                                      )
                                      else (c, [])))))))))

  -- The reply to `refreshCameraInfo`.
  unfoldable pub on_info_reply : Text → Client V D → Client V D × List (Action V D)
  unfolding model_name camera_supports_ptz
  on_info_reply body c = elim (json.parse_object body) [
    | none ↦ (c, [])
    | some info ↦ (
      record c { model = model_name json info; supports_ptz = camera_supports_ptz json info },
      camera_info_changed ∷ [],
    )
  ]

  -- The reply to `refreshStatus`.
  unfoldable pub on_status_reply : Text → Client V D → Client V D × List (Action V D)
  on_status_reply body c = elim (json.parse_object body) [
    | none ↦ (c, [])
    | some doc ↦ (record c { hud_values = doc }, status_changed doc ∷ [])
  ]
