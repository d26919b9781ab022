-- ===== src/Tests/Clients.antt =====
-- The camera client at concrete replies and notifications.
use obs_zcamera.Prelude.{ℕ, false, [], Text, codes}
use obs_zcamera.Notifier
use obs_zcamera.Client.{Client}
use obs_zcamera.Tests.Sample.{auth}

abbrev client : Client Text ℕ
client = record {
  origin = record { host = []; base_url = []; auth_required = false; auth = auth };
  notifier = Notifier.new;
  connected = false;
  host = [];
  mode = [];
  recording = false;
  temperature = 0;
  model = [];
  supports_ptz = false;
  hud_values = codes "{}";
}
