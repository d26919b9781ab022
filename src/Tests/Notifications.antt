-- ===== src/Tests/Notifications.antt =====
-- The reconnects of the notifier at concrete histories.
use obs_zcamera.Prelude.{◌≡◌, false, [], ◌∷◌, codes, any}
use obs_zcamera.Notifier
use obs_zcamera.Notifier.{
  Notifier, delay_ms, open_socket, handle, run, start, stop, connected, disconnected, timeout,
  socket_error, text_message,
}
use obs_zcamera.Notifier.Reconnect.{run-stop, is_reopening, IsStopped}
use obs_zcamera.Tests.Sample.{json}

abbrev running : Notifier
running = record Notifier.new { host = codes "10.0.0.2"; stopped = false }

run-stop_example :
    IsStopped (run json (stop ∷ disconnected ∷ timeout ∷ []) running).0
    × (any is_reopening (run json (stop ∷ disconnected ∷ timeout ∷ []) running).1 ≡ false)
run-stop_example = run-stop json (disconnected ∷ timeout ∷ []) running tt
