-- ===== src/Tests/Requests.antt =====
-- The request queue and the origin negotiation at concrete inputs.
use obs_zcamera.Prelude.{
  ◌≡◌, ◌≤◌, ◌+◌, ◌*◌, refl, Bool, false, none, List, [], ◌∷◌, ◌++◌, Text, codes, text_eq,
  if◌then◌else◌,
}
use obs_zcamera.Prelude.Int.{pos}
use obs_zcamera.Transport.Digest.{Reply}
use obs_zcamera.Transport.Queue.{Request, Transport, Event, ask, finished, run}
use obs_zcamera.Transport.Queue.Serial.{
  IsSerial, run-IsSerial, delivered, outstanding, all_arrivals,
}
use obs_zcamera.Transport.Queue.Retry.{run-attempts-le, attempts, count, spare}
use obs_zcamera.Transport.Origin.{
  Candidate, Origin, negotiate_origin, Chooses, negotiate_origin-Chooses,
}
use obs_zcamera.Tests.Sample.{auth, ok_reply, login_reply, request_of}

abbrev idle : Transport
idle = record { auth = auth; busy = false; queue = []; flight = none }

idle-IsSerial : IsSerial idle
idle-IsSerial = record { flagged = refl; waiting = λ e. refl }

abbrev md5 : Text → Text
md5 s = s

-- Two requests, a login for the first, its reply, whose callback asks for a third, and so on.
abbrev history : List Event
history =
    ask (request_of (codes "/info"))
    ∷ ask (request_of (codes "/camera_status"))
    ∷ finished (codes "c1") login_reply []
    ∷ finished (codes "c2") ok_reply (request_of (codes "/ctrl/get") ∷ [])
    ∷ finished (codes "c3") ok_reply []
    ∷ []

run-IsSerial_example :
    IsSerial (run md5 history idle).0
    × (delivered (run md5 history idle).1 ++ outstanding (run md5 history idle).0
        ≡ outstanding idle ++ all_arrivals md5 history idle)
run-IsSerial_example = run-IsSerial md5 history idle idle-IsSerial

-- The requests of the one path.
abbrev is_info : Request → Bool
is_info r = text_eq r.url (codes "/info")

run-attempts-le_example :
    attempts is_info (run md5 history idle).1
    ≤ spare is_info idle + 2 * count is_info (all_arrivals md5 history idle)
run-attempts-le_example = run-attempts-le md5 is_info history idle idle-IsSerial

abbrev origin : Origin
origin = record { host = []; base_url = []; auth_required = false; auth = auth }

-- A camera that answers over https only, with a login.
abbrev reply_of : Candidate → Reply
reply_of c =
    if text_eq c.scheme (codes "https") then login_reply else record ok_reply { status = 0 }

abbrev cnonce_of : Candidate → Text
cnonce_of c = codes "c0"

negotiate_origin-Chooses_example :
    Chooses reply_of cnonce_of
      (codes "10.0.0.2")
      (pos 80)
      origin
      (negotiate_origin reply_of cnonce_of (codes "10.0.0.2") (pos 80) origin)
negotiate_origin-Chooses_example =
    negotiate_origin-Chooses reply_of cnonce_of (codes "10.0.0.2") (pos 80) origin
