-- ===== src/Transport/Origin.antt =====
-- The origin negotiation of zc_http_transport.cpp. What each probed origin replies, and the client
-- nonce drawn for it, are arguments; a probe that gets no HTTP answer has status 0.
use obs_zcamera.Prelude.{
  ℕ, zero, suc, ◌≤◌, ◌<◌, ◌⊎◌, inl, inr, Bool-cases, ◌≡◌, refl, Bool, true, false, ◌&&◌, ◌||◌, List,
  [], ◌∷◌, ◌++◌, Text, arith, codes, ltb, leb, ◌==◌, if◌then◌else◌, decimal,
}
use obs_zcamera.Prelude.Int.{ℤ, pos, negsuc}
use obs_zcamera.Transport.Digest.{
  Auth, Credentials, Reply, parse_challenge, set_credentials, accept_challenge,
}
use obs_zcamera.Transport.Session.{capture_session}

pub record Candidate : Type 0 where
  pub scheme : Text
  pub port : ℕ

-- The transport's fields that the negotiation sets.
pub record Origin : Type 0 where
  pub host : Text
  pub base_url : Text
  pub auth_required : Bool
  pub auth : Auth

abbrev pub first_port : ℤ → ℕ
first_port (pos zero) = 80
first_port (pos (suc n)) = suc n
first_port (negsuc n) = 80

unfoldable pub candidates : ℤ → List Candidate
candidates port =
    record { scheme = codes "http"; port = first_port port }
    ∷ record { scheme = codes "https"; port = 443 }
    ∷ record { scheme = codes "https"; port = 80 }
    ∷ []

abbrev pub is_challenged : Reply → Bool
is_challenged reply = reply.status == 401 || reply.status == 403

-- Any HTTP answer, also one that asks for a login.
abbrev pub is_answer : Reply → Bool
is_answer reply = leb 200 reply.status && ltb reply.status 500

abbrev pub base_of : Candidate → Text → Text
base_of c host = c.scheme ++ (codes "://" ++ (host ++ b':' ∷ decimal c.port))

-- What one probe's reply leaves behind.
unfoldable pub probed : Text → Reply → Origin → Origin
probed cnonce reply o = record o {
  auth_required = is_challenged reply || o.auth_required;
  auth =
      capture_session reply
        (if is_challenged reply then (parse_challenge cnonce reply o.auth).0 else o.auth);
}

-- A challenge never brings an Authorization header with it.
pub parse_challenge-unauthorized :
    (cnonce : Text) (reply : Reply) (a : Auth)
    → a.auth_header ≡ []
    → (parse_challenge cnonce reply a).0.auth_header ≡ []
unfolding parse_challenge accept_challenge
parse_challenge-unauthorized cnonce reply a e = ground arith

-- An HTTP answer: 200 to 499.
abbrev pub IsAnswer : Reply → Type 0
IsAnswer reply = (200 ≤ reply.status) × (reply.status < 500)

IsAnswer-cases :
    (reply : Reply)
    → ((is_answer reply ≡ true) × IsAnswer reply) ⊎ ((is_answer reply ≡ false) × (¬ IsAnswer reply))
IsAnswer-cases reply = elim (Bool-cases (is_answer reply)) [
  | inl e ↦ inl (e, ground arith)
  | inr e ↦ inr (e, λ a. ground arith)
]

-- The port that is probed over http.
abbrev pub port_or_80 : ℤ → ℕ
port_or_80 (pos n) = if ltb 0 n then n else 80
port_or_80 (negsuc n) = 80

first_port-port_or_80 : (port : ℤ) → first_port port ≡ port_or_80 port
first_port-port_or_80 (pos zero) = refl
first_port-port_or_80 (pos (suc n)) = ground arith
first_port-port_or_80 (negsuc n) = refl

module _ (reply_of : Candidate → Reply) (cnonce_of : Candidate → Text) where
  unfoldable pub try_all : List Candidate → Origin → Bool × Origin
  unfolding probed
  try_all [] o = (false, o)
  try_all (c ∷ cs) o =
      let o' = probed (cnonce_of c) (reply_of c) o in
      let rest = try_all cs o' in
      if is_answer (reply_of c) then (true, record o' { base_url = base_of c o.host }) else rest

  -- `negotiateOrigin`.
  unfoldable pub negotiate_origin : Text → ℤ → Origin → Bool × Origin
  unfolding try_all candidates
  negotiate_origin host port o = try_all (candidates port) (record o { host = host })

  -- The origin is locked, with this base URL, or the negotiation has failed and keeps the old one.
  abbrev Locks : Text → Bool × Origin → Type 0
  Locks url out = (out.0 ≡ true) × (out.1.base_url ≡ url)

  abbrev Fails : Origin → Bool × Origin → Type 0
  Fails o out = (out.0 ≡ false) × (out.1.base_url ≡ o.base_url)

  -- The negotiation as a table: http at the port given, or at 80 where that is not positive, then https at
  -- 443, then https at 80.
  abbrev pub Chooses : Text → ℤ → Origin → Bool × Origin → Type 0
  Chooses host port o out =
      let n = port_or_80 port in
      let first = reply_of (record { scheme = codes "http"; port = n }) in
      let second = reply_of (record { scheme = codes "https"; port = 443 }) in
      let third = reply_of (record { scheme = codes "https"; port = 80 }) in
      (IsAnswer first × Locks (codes "http://" ++ (host ++ b':' ∷ decimal n)) out)
      ⊎ (((¬ IsAnswer first)
            × IsAnswer second
            × Locks (codes "https://" ++ (host ++ codes ":443")) out)
          ⊎ (((¬ IsAnswer first)
                × (¬ IsAnswer second)
                × IsAnswer third
                × Locks (codes "https://" ++ (host ++ codes ":80")) out)
              ⊎ ((¬ IsAnswer first) × (¬ IsAnswer second) × (¬ IsAnswer third) × Fails o out)))

  -- The negotiation probes http at the port given, or at 80 where that is not positive, then https at 443, then
  -- https at 80. It locks the first of them that answers with a status from 200 to 499, with the base URL of
  -- that probe and not the one that a redirect led to, and fails, with the old base URL, exactly if none does.
  pub negotiate_origin-Chooses :
      (host : Text) (port : ℤ) (o : Origin) → Chooses host port o (negotiate_origin host port o)
  unfolding negotiate_origin candidates try_all probed decimal
  negotiate_origin-Chooses host port o =
      let n = port_or_80 port in
      let first = reply_of (record { scheme = codes "http"; port = n }) in
      let second = reply_of (record { scheme = codes "https"; port = 443 }) in
      let third = reply_of (record { scheme = codes "https"; port = 80 }) in
      let same = first_port-port_or_80 port in
      elim (IsAnswer-cases first) [
        | inl (e, a) ↦ inl (a, rw (same, e) (refl, refl))
        | inr (e, not1) ↦ elim (IsAnswer-cases second) [
          | inl (e', a) ↦ inr (inl (not1, a, rw (same, e, e') (refl, refl)))
          | inr (e', not2) ↦ elim (IsAnswer-cases third) [
            | inl (e'', a) ↦ inr (inr (inl (not1, not2, a, rw (same, e, e', e'') (refl, refl))))
            | inr (e'', not3) ↦
                inr (inr (inr (not1, not2, not3, rw (same, e, e', e'') (refl, refl))))
          ]
        ]
      ]

  try_all-unauthorized :
      (cs : List Candidate) (o : Origin)
      → o.auth.auth_header ≡ []
      → (try_all cs o).1.auth.auth_header ≡ []
  unfolding try_all probed capture_session
  try_all-unauthorized [] o e = e
  try_all-unauthorized (c ∷ cs) o e =
      let first : (probed (cnonce_of c) (reply_of c) o).auth.auth_header ≡ [] =
        ground (arith, parse_challenge-unauthorized (cnonce_of c) (reply_of c) o.auth e) in
      ground (arith, first, try_all-unauthorized cs (probed (cnonce_of c) (reply_of c) o))

  -- Right after new credentials the negotiation leaves no Authorization header, whatever the camera
  -- replies: only a later request builds one.
  pub negotiate_origin-unauthorized :
      (creds : Credentials) (host : Text) (port : ℤ) (o : Origin)
      → (negotiate_origin host port
          (record o { auth = set_credentials creds o.auth })).1.auth.auth_header
        ≡ []
  unfolding negotiate_origin set_credentials
  negotiate_origin-unauthorized creds host port o =
      try_all-unauthorized (candidates port)
        (record o { host = host; auth = set_credentials creds o.auth }) refl
