-- ===== src/Dock/Stream.antt =====
-- src/ui/zc_control_dock.cpp: the stream bar of the settings panel. A client is a number, `J` stands for
-- QJsonObject and `is_document` for isStreamDocument; a reply is the call of the function that was given with
-- the request, with what that function captured. `origin` says which client and index the shown document was
-- read from, which the code does not keep.
pub mod Origin
use obs_zcamera.Prelude.{
  ℕ, Bool, true, false, not, ◌&&◌, ◌||◌, Option, none, some, List, [], ◌∷◌, Text, ◌==◌,
  if◌then◌else◌,
}

-- `kAppStreamIndex` and `kLegacyStreamIndex`.
pub data Index : Type 0 where
  app_stream1 stream1 : Index

pub record Panel (J : Type 0) : Type 0 where
  pub client : Option ℕ
  pub connected : Bool
  pub stream_index : Option Index
  pub stream_doc : Option J
  pub origin : Option (ℕ × Index)

-- A request that is sent: the discovery of the index, a read, and a write of parameters.
pub data Request : Type 0 where
  discover : ℕ → Request
  read : ℕ → Index → Request
  write : ℕ → Index → List (Text × Text) → Request

abbrev pub same_index : Index → Index → Bool
same_index app_stream1 app_stream1 = true
same_index app_stream1 stream1 = false
same_index stream1 app_stream1 = false
same_index stream1 stream1 = true

abbrev pub is_client : Option ℕ → ℕ → Bool
is_client none c = false
is_client (some d) c = c == d

abbrev pub is_index : Option Index → Index → Bool
is_index none i = false
is_index (some j) i = same_index i j

unfoldable pub request_stream : Option ℕ → Option Index → List Request
request_stream none index = []
request_stream (some c) none = discover c ∷ []
request_stream (some c) (some index) = read c index ∷ []

module _ {J : Type 0} where
  unfoldable pub set_client : Option ℕ → Panel J → Panel J
  set_client client panel = record panel {
    client = client;
    connected = false;
    stream_index = none;
    stream_doc = none;
    origin = none;
  }

  unfoldable pub load_stream : Panel J → List Request
  load_stream panel = if panel.connected then request_stream panel.client panel.stream_index else []

  -- The bar shows a document that was read by a client from an index.
  unfoldable pub paint : ℕ → Index → J → Panel J → Panel J
  paint c index doc panel = record panel { stream_doc = some doc; origin = some (c, index) }

  -- The reply to the discovery; an index that has no document makes it the older one, which is read.
  unfoldable pub on_discovered : (J → Bool) → ℕ → J → Panel J → Panel J × List Request
  on_discovered is_document c doc panel =
      let older = record panel { stream_index = some stream1 } in
      if not (is_client panel.client c)
      then (panel, [])
      else (if is_document doc
          then (paint c app_stream1 doc (record panel { stream_index = some app_stream1 }), [])
          else (older, load_stream older))

  -- The reply to a read or to a write.
  unfoldable pub on_document : (J → Bool) → ℕ → Index → J → Panel J → Panel J
  on_document is_document c index doc panel =
      if not (is_client panel.client c)
        || (not (is_index panel.stream_index index) || not (is_document doc))
      then panel
      else paint c index doc panel

  unfoldable pub write_stream_params : List (Text × Text) → Panel J → List Request
  write_stream_params params panel = elim panel.client [
    | none ↦ []
    | some c ↦ elim panel.stream_index [ none ↦ [] | some index ↦ write c index params ∷ [] ]
  ]

-- What happens to the panel.
pub data Event (J : Type 0) : Type 0 where
  selects : Option ℕ → Event J
  connects loads : Event J
  writes : List (Text × Text) → Event J
  discovered : ℕ → J → Event J
  answered : ℕ → Index → J → Event J

module _ {J : Type 0} (is_document : J → Bool) where
  unfoldable pub handle : Event J → Panel J → Panel J × List Request
  handle (selects client) panel = (set_client client panel, [])
  handle connects panel = (record panel { connected = true }, [])
  handle loads panel = (panel, load_stream panel)
  handle (writes params) panel = (panel, write_stream_params params panel)
  handle (discovered c doc) panel = on_discovered is_document c doc panel
  handle (answered c index doc) panel = (on_document is_document c index doc panel, [])

  unfoldable pub run : List (Event J) → Panel J → Panel J
  run [] panel = panel
  run (e ∷ es) panel = run es (handle e panel).0
