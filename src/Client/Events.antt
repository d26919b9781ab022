-- ===== src/Client/Events.antt =====
-- What the accessors of zc_camera_client.cpp show after a history of notifications and commands.
use obs_zcamera.Prelude.{
  ◌≡◌, refl, sym, ap, ◌∙◌, Bool, true, false, Option, List, [], ◌∷◌, ◌++◌, Text, codes, text_eq,
  text_eq_iff, arith, if◌then◌else◌, Bool-cases, inl, inr,
}
use obs_zcamera.Prelude.Int.{ℤ}
use obs_zcamera.Prelude.Json.{Json}
use obs_zcamera.Client.{Client, Action, handle_ws_event, disconnect, on_info_reply, on_status_reply}
use obs_zcamera.Client.Commands.{start_recording, stop_recording}

-- What reaches a connected client: a notification with its name, a command, the reply to a request
-- for the status or the camera's description, and the end of the connection.
pub data Input (V : Type 0) : Type 0 where
  notified : Text → V → Input V
  record_start record_stop disconnects : Input V
  info_reply status_reply : Text → Input V

module _ {V D : Type 0} (json : Json V D) (text_to_int : Text → Option ℤ) where
  unfoldable pub handle : Input V → Client V D → Client V D × List (Action V D)
  unfolding handle_ws_event start_recording stop_recording disconnect on_info_reply on_status_reply
  handle (notified what o) c = handle_ws_event json text_to_int what o c
  handle record_start c = start_recording c
  handle record_stop c = stop_recording c
  handle disconnects c = disconnect c
  handle (info_reply body) c = on_info_reply json text_to_int body c
  handle (status_reply body) c = on_status_reply json text_to_int body c

  unfoldable pub run : List (Input V) → Client V D → Client V D × List (Action V D)
  unfolding handle
  run [] c = (c, [])
  run (i ∷ is) c =
      let (c', actions) = handle i c in let (last, more) = run is c' in (last, actions ++ more)

-- Whether a recording runs, by the last input that says so.
abbrev pub last_recording : {V : Type 0} → Bool → List (Input V) → Bool
last_recording known [] = known
last_recording known (notified what o ∷ more) =
    last_recording
      (if text_eq what (codes "RecStarted")
        then true
        else (if text_eq what (codes "RecStoped") then false else known))
      more
last_recording known (record_start ∷ more) = last_recording true more
last_recording known (record_stop ∷ more) = last_recording false more
last_recording known (disconnects ∷ more) = last_recording false more
last_recording known (info_reply body ∷ more) = last_recording known more
last_recording known (status_reply body ∷ more) = last_recording known more

module _ {V D : Type 0} (json : Json V D) (text_to_int : Text → Option ℤ) where
  notified-recording :
      (what : Text) (o : V) (c : Client V D)
      → (handle_ws_event json text_to_int what o c).0.recording ≡ (
          if text_eq what (codes "RecStarted")
          then true
          else (if text_eq what (codes "RecStoped") then false else c.recording))
  unfolding handle_ws_event
  notified-recording what o c = elim (Bool-cases (text_eq what (codes "camera_status"))) [
    | inl e ↦
        let w = (text_eq_iff what (codes "camera_status")).0 e in rw w (unfold text_eq in refl)
    | inr other ↦ rw other (ground arith)
  ]

  handle-recording :
      (i : Input V) (c : Client V D)
      → (handle json text_to_int i c).0.recording ≡ last_recording c.recording (i ∷ [])
  unfolding handle
  handle-recording (notified what o) c = notified-recording what o c
  handle-recording record_start c = refl
  handle-recording record_stop c = refl
  handle-recording disconnects c = refl
  handle-recording (info_reply body) c = ground arith
  handle-recording (status_reply body) c = ground arith

  last_recording-cons :
      (known : Bool) (i : Input V) (is : List (Input V))
      → last_recording known (i ∷ is) ≡ last_recording (last_recording known (i ∷ [])) is
  last_recording-cons known (notified what o) is = refl
  last_recording-cons known _ is = refl

  -- After any history `isRecording` shows what the last recording command, RecStarted or RecStoped
  -- notification or disconnect said.
  pub run-recording :
      (is : List (Input V)) (c : Client V D)
      → (run json text_to_int is c).0.recording ≡ last_recording c.recording is
  unfolding run
  run-recording [] c = refl
  run-recording (i ∷ is) c =
      run-recording is (handle json text_to_int i c).0
      ∙ ap (λ b. last_recording b is) (handle-recording i c)
      ∙ sym (last_recording-cons c.recording i is)

  handle-temperature :
      (i : Input V) (c : Client V D) → (handle json text_to_int i c).0.temperature ≡ c.temperature
  unfolding handle
  handle-temperature (notified what o) c = ground arith
  handle-temperature (info_reply body) c = ground arith
  handle-temperature (status_reply body) c = ground arith
  handle-temperature _ c = refl

  -- No notification, command or reply ever changes the temperature that the client shows, although
  -- the notifications report it.
  run-temperature :
      (is : List (Input V)) (c : Client V D)
      → (run json text_to_int is c).0.temperature ≡ c.temperature
  unfolding run
  run-temperature [] c = refl
  run-temperature (i ∷ is) c =
      run-temperature is (handle json text_to_int i c).0 ∙ handle-temperature i c
