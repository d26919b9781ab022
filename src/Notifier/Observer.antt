-- ===== src/Notifier/Observer.antt =====
-- What the listeners of `socketStateChanged` know.
use obs_zcamera.Prelude.{◌≡◌, refl, ap, ◌∙◌, Bool, List, [], ◌∷◌, ◌++◌, arith}
use obs_zcamera.Prelude.Json.{Json}
use obs_zcamera.Notifier.{
  Notifier, Action, state_changed, Event, start, stop, connected, disconnected, timeout,
  socket_error, text_message, do_connect, start_notifier, stop_notifier, on_connected,
  on_disconnected, on_socket_error, schedule_reconnect, on_text_message, handle, run,
}

-- The state that a listener holds after some actions: the last one that it was told.
abbrev pub told : {V : Type 0} → Bool → List (Action V) → Bool
told known [] = known
told known (state_changed live ∷ more) = told live more
told known (_ ∷ more) = told known more

told-append :
    {V : Type 0} (known : Bool) (xs ys : List (Action V))
    → told known (xs ++ ys) ≡ told (told known xs) ys
told-append known [] ys = refl
told-append known (state_changed live ∷ xs) ys = told-append live xs ys
told-append known (_ ∷ xs) ys = told-append known xs ys

module _ {V D : Type 0} (json : Json V D) where
  handle-told :
      (e : Event) (n : Notifier) → told n.live (handle json e n).1 ≡ (handle json e n).0.live
  unfolding handle start_notifier stop_notifier on_connected on_disconnected on_socket_error
      schedule_reconnect do_connect on_text_message
  handle-told (start host https_origin headers) n = ground arith
  handle-told stop n = refl
  handle-told connected n = refl
  handle-told disconnected n = ground arith
  handle-told timeout n = ground arith
  handle-told (socket_error e) n = ground arith
  handle-told (text_message msg) n = ground arith

  -- At every moment the last state that was signalled is the state of the notifier: a listener that
  -- was right before a history of events is right after it.
  pub run-told :
      (es : List Event) (n : Notifier) → told n.live (run json es n).1 ≡ (run json es n).0.live
  unfolding run
  run-told [] n = refl
  run-told (e ∷ es) n =
      told-append n.live (handle json e n).1 (run json es (handle json e n).0).1
      ∙ ap (λ known. told known (run json es (handle json e n).0).1) (handle-told e n)
      ∙ run-told es (handle json e n).0
