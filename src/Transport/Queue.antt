-- ===== src/Transport/Queue.antt =====
-- The request queue of zc_http_transport.cpp: one request at a time, in order, and one transparent
-- retry after a 401. What a callback does, besides reading its response, is the list of requests
-- that it enqueues; it stands in the event that delivers the reply.
pub mod Serial
pub mod Retry
use obs_zcamera.Prelude.{
  ℕ, zero, suc, Bool, true, false, not, ◌&&◌, Option, none, some, List, [], ◌∷◌, ◌++◌, Text, codes,
  is_empty, ◌==◌, if◌then◌else◌,
}
use obs_zcamera.Transport.Digest.{Auth, Reply, parse_challenge, build_authorization}
use obs_zcamera.Transport.Session.{capture_session}

-- A request: its URL, the encoded path and query of that, and the body; a body makes it a POST.
pub record Request : Type 0 where
  pub url : Text
  pub path : Text
  pub query : Text
  pub body : Text

-- The request under way, and its retries left.
pub record Flight : Type 0 where
  pub request : Request
  pub retries : ℕ

pub record Transport : Type 0 where
  pub auth : Auth
  pub busy : Bool
  pub queue : List Request
  pub flight : Option Flight

-- The response that a callback is given.
pub record Response : Type 0 where
  pub status_code : ℕ
  pub body : Text
  pub error_text : Text
  pub final_url : Text
  pub timed_out : Bool

pub data Action : Type 0 where
  -- A request on the wire, with its Authorization, Cookie and x-auth-token headers.
  transmit : Request → Text → Text → Text → Action
  -- The callback of a request.
  deliver : Request → Response → Action

abbrev pub is_post : Request → Bool
is_post r = not (is_empty r.body)

-- The URI that is authenticated: the path, and the query if there is one.
abbrev pub request_uri : Request → Text
request_uri r = if is_empty r.query then r.path else r.path ++ b'?' ∷ r.query

abbrev pub method_of : Request → Text
method_of r = if is_post r then codes "POST" else codes "GET"

unfoldable pub response_of : Reply → Response
response_of reply = record {
  status_code = reply.status;
  body = reply.body;
  error_text = if reply.network_error && reply.status == 0 then reply.error_text else [];
  final_url = reply.final_url;
  timed_out = reply.timed_out;
}

-- What reaches the transport: a request of a client, or the reply to the request under way with
-- the client nonce drawn and the requests that the callback enqueues.
pub data Event : Type 0 where
  ask : Request → Event
  finished : Text → Reply → List Request → Event

-- Whether a reply asks for the retry, besides its challenge.
abbrev pub may_retry : ℕ → Reply → Auth → Bool
may_retry zero reply a = false
may_retry (suc n) reply a = reply.status == 401 && not (is_empty a.creds.username)

abbrev pub fewer : ℕ → ℕ
fewer zero = zero
fewer (suc n) = n

module _ (md5hex : Text → Text) where
  -- `send` and `doRequest`.
  unfoldable pub do_request : Flight → Transport → Transport × List Action
  unfolding build_authorization
  do_request f t =
      let a = build_authorization md5hex (method_of f.request) (request_uri f.request) t.auth in
      (
        record t { auth = a; flight = some f },
        transmit f.request a.auth_header a.cookie a.token ∷ [],
      )

  -- `pump`.
  unfoldable pub pump_queue : List Request → Transport → Transport × List Action
  unfolding do_request
  pump_queue [] t = (t, [])
  pump_queue (r ∷ rest) t =
      do_request (record { request = r; retries = 1 }) (record t { busy = true; queue = rest })

  unfoldable pub pump : Transport → Transport × List Action
  unfolding pump_queue
  pump t = if t.busy then (t, []) else pump_queue t.queue t

  -- `enqueue`, which `get`, `getQuery` and `post` call.
  unfoldable pub enqueue : Request → Transport → Transport × List Action
  unfolding pump
  enqueue r t = pump (record t { queue = t.queue ++ r ∷ [] })

  -- The requests that a callback enqueues, one after the other.
  unfoldable pub enqueue_all : List Request → Transport → Transport × List Action
  unfolding enqueue
  enqueue_all [] t = (t, [])
  enqueue_all (r ∷ rs) t =
      let (t', actions) = enqueue r t in
      let (last, more) = enqueue_all rs t' in (last, actions ++ more)

  -- The end of `onFinished`: the callback runs, and then the queue goes on.
  unfoldable pub complete : Request → Response → List Request → Transport → Transport × List Action
  unfolding enqueue_all pump
  complete r response more t =
      let (t', actions) = enqueue_all more (record t { busy = false; flight = none }) in
      let (last, rest) = pump t' in (last, deliver r response ∷ (actions ++ rest))

  -- `onFinished`. The challenge is only parsed where a retry is possible.
  unfoldable pub on_finished :
      Text → Reply → List Request → Flight → Transport → Transport × List Action
  on_finished cnonce reply more f t =
      let a = capture_session reply t.auth in
      let (parsed, usable) = parse_challenge cnonce reply a in
      if may_retry f.retries reply a
      then (if usable
          then do_request (record { request = f.request; retries = fewer f.retries })
              (record t { auth = parsed })
          else complete f.request (response_of reply) more (record t { auth = parsed }))
      else complete f.request (response_of reply) more (record t { auth = a })

  unfoldable pub handle : Event → Transport → Transport × List Action
  unfolding enqueue on_finished
  handle (ask r) t = enqueue r t
  handle (finished cnonce reply more) t = elim t.flight [
    | none ↦ (t, [])
    | some f ↦ on_finished cnonce reply more f t
  ]

  unfoldable pub run : List Event → Transport → Transport × List Action
  unfolding handle
  run [] t = (t, [])
  run (e ∷ es) t =
      let (t', actions) = handle e t in let (last, more) = run es t' in (last, actions ++ more)
