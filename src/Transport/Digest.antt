-- ===== src/Transport/Digest.antt =====
-- The Digest authentication of zc_http_transport.cpp.
pub mod Params
pub mod Nonce
use obs_zcamera.Prelude.{
  ℕ, zero, suc, Bool, true, false, not, ◌||◌, Option, none, some, List, [], ◌∷◌, ◌++◌, map, Text,
  codes, length, take, drop, get_or, is_empty, ltb, ◌==◌, if◌then◌else◌, text_eq, starts_with,
  index_of, split, trimmed, lower, same_ignoring_case, decimal, right_justified,
}

-- What the source reads of a QNetworkReply.
pub record Reply : Type 0 where
  pub status : ℕ
  pub body : Text
  pub network_error : Bool
  pub timed_out : Bool
  pub error_text : Text
  pub final_url : Text
  pub challenge_x : Text
  pub challenge : Text
  pub set_cookie : Text
  pub x_auth_token : Text

pub record Credentials : Type 0 where
  pub username : Text
  pub password : Text

-- The Digest and session fields of the transport.
pub record Auth : Type 0 where
  pub creds : Credentials
  pub realm : Text
  pub nonce : Text
  pub opaque : Text
  pub qop : Text
  pub auth_qop : Text
  pub auth_header : Text
  pub cnonce : Text
  pub nc : ℕ
  pub md5_sess : Bool
  pub cookie : Text
  pub token : Text

abbrev alphabet : Text
alphabet = codes "abcdefghijklmnopqrstuvwxyz0123456789"

-- `makeCnonce`, from the numbers that it draws.
unfoldable pub make_cnonce : List ℕ → Text
make_cnonce draws = map (λ i. get_or alphabet i 0) draws

-- `qval`.
unfoldable pub quoted : Text → Text
quoted s = b'"' ∷ (s ++ b'"' ∷ [])

-- The name of one parameter of a challenge.
unfoldable pub param_name : Text → Text
param_name raw = let k = trimmed raw in if starts_with k (b',' ∷ []) then trimmed (drop 1 k) else k

-- The value of a parameter and what follows it; `none` where a quote is not closed.
unfoldable pub param_value : Text → Option (Text × Text)
param_value [] = some ([], [])
param_value (c ∷ s) =
    if c == b'"'
    then (elim (index_of b'"' s) [ none ↦ none | some end ↦ some (take end s, drop (suc end) s) ])
    else (elim (index_of b',' (c ∷ s)) [
      | none ↦ some (trimmed (c ∷ s), [])
      | some end ↦ some (trimmed (take end (c ∷ s)), drop end (c ∷ s))
    ])

-- The loop of `digestParam`, on what is left of the text; the outer `none` means that the fuel ran
-- out, and `some []` that the parameter is not there.
unfoldable pub digest_param_loop : ℕ → Text → Text → Option Text
unfolding param_name param_value
digest_param_loop zero src key = none
digest_param_loop (suc fuel) src key = elim (index_of b'=' src) [
  | none ↦ some []
  | some eq ↦ elim (param_value (drop (suc eq) src)) [
    | none ↦ some []
    | some (v, rest) ↦ elim (text_eq (lower (param_name (take eq src))) key) [
      | true ↦ some v
      | false ↦ digest_param_loop fuel rest key
    ]
  ]
]

abbrev pub found_or_empty : Option Text → Text
found_or_empty none = []
found_or_empty (some v) = v

-- `digestParam`: each round takes at least the character `=`.
unfoldable pub digest_param : Text → Text → Text
unfolding digest_param_loop
digest_param src key = found_or_empty (digest_param_loop (suc (length src)) src key)

-- `setCredentials`.
unfoldable pub set_credentials : Credentials → Auth → Auth
set_credentials creds a = record a { creds = creds; auth_header = []; nonce = []; nc = 0 }

-- The challenge that is read: the camera's own header, or else the standard one.
unfoldable pub challenge_of : Reply → Text
challenge_of reply =
    trimmed (if is_empty reply.challenge_x then reply.challenge else reply.challenge_x)

-- The parameters of a Digest challenge; `none` for any other scheme.
unfoldable pub digest_challenge : Text → Option Text
digest_challenge challenge =
    if ltb (length challenge) 6 || not (text_eq (lower (take 6 challenge)) (codes "digest"))
    then none
    else some (trimmed (drop 6 challenge))

-- The end of `parseChallenge`, with a nonce: only a new one resets the count and the cached header.
unfoldable pub accept_challenge : Text → Text → Text → Auth → Auth
accept_challenge cnonce challenge nonce a =
    let read = record a {
      realm = digest_param challenge (codes "realm");
      opaque = digest_param challenge (codes "opaque");
      qop = digest_param challenge (codes "qop");
      md5_sess = same_ignoring_case (digest_param challenge (codes "algorithm")) (codes "MD5-sess");
    } in
    if text_eq nonce a.nonce
    then read
    else record read { nonce = nonce; nc = 0; cnonce = cnonce; auth_header = [] }

-- `parseChallenge`, with the client nonce that it draws if it needs one.
unfoldable pub parse_challenge : Text → Reply → Auth → Auth × Bool
parse_challenge cnonce reply a = elim (digest_challenge (challenge_of reply)) [
  | none ↦ (a, false)
  | some challenge ↦
      if is_empty (digest_param challenge (codes "nonce"))
      then (a, false)
      else (accept_challenge cnonce challenge (digest_param challenge (codes "nonce")) a, true)
]

-- The qop that is used: `auth` if it is offered, or else the first that is.
unfoldable pub offers_auth : List Text → Bool
offers_auth [] = false
offers_auth (q ∷ qs) = same_ignoring_case (trimmed q) (codes "auth") || offers_auth qs

abbrev pub first_of_list : List Text → Text
first_of_list [] = []
first_of_list (q ∷ qs) = q

unfoldable pub choose_qop : Text → Text
unfolding offers_auth
choose_qop offered =
    if is_empty offered
    then []
    else (if offers_auth (split b',' offered)
        then codes "auth"
        else trimmed (first_of_list (split b',' offered)))

abbrev colon : Text
colon = b':' ∷ []

module _ (md5hex : Text → Text) where
  -- `ha1`.
  unfoldable pub ha1 : Text → Text → Text → Text → Text → Bool → Text
  ha1 user realm pass nonce cnonce md5_sess =
      let h = md5hex (user ++ (colon ++ (realm ++ (colon ++ pass)))) in
      if md5_sess then md5hex (h ++ (colon ++ (nonce ++ (colon ++ cnonce)))) else h

  -- `ha2`.
  unfoldable pub ha2 : Text → Text → Text
  ha2 method uri = md5hex (method ++ (colon ++ uri))

  -- The response of `buildAuthorization`.
  unfoldable pub digest_response : Text → Text → Text → Text → Auth → Text
  unfolding ha1 ha2
  digest_response method uri qop nc a =
      let a1 = ha1 a.creds.username a.realm a.creds.password a.nonce a.cnonce a.md5_sess in
      let a2 = ha2 method uri in
      if is_empty qop
      then md5hex (a1 ++ (colon ++ (a.nonce ++ (colon ++ a2))))
      else md5hex (
          a1
          ++ (colon
              ++ (a.nonce
                  ++ (colon
                      ++ (nc ++ (colon ++ (a.cnonce ++ (colon ++ (qop ++ (colon ++ a2))))))))))

  -- The header that it caches.
  unfoldable pub authorization : Text → Text → Text → Text → Auth → Text
  unfolding digest_response quoted
  authorization method uri qop nc a =
      codes "Digest username="
      ++ (quoted a.creds.username
          ++ (codes ", realm="
              ++ (quoted a.realm
                  ++ (codes ", nonce="
                      ++ (quoted a.nonce
                          ++ (codes ", uri="
                              ++ (quoted uri
                                  ++ (codes ", response="
                                      ++ (quoted (digest_response method uri qop nc a)
                                          ++ ((if is_empty qop
                                                then []
                                                else codes ", qop="
                                                  ++ (qop
                                                      ++ (codes ", nc="
                                                          ++ (nc
                                                            ++ (codes ", cnonce="
                                                            ++ quoted a.cnonce)))))
                                              ++ ((if is_empty a.opaque
                                                    then []
                                                    else codes ", opaque=" ++ quoted a.opaque)
                                                  ++ (if a.md5_sess
                                                      then codes ", algorithm=MD5-sess"
                                                      else []))))))))))))

  -- The nonce count on the wire.
  unfoldable pub nc_text : ℕ → Text
  nc_text nc = right_justified 8 b'0' (decimal nc)

  -- `buildAuthorization`.
  unfoldable pub build_authorization : Text → Text → Auth → Auth
  build_authorization method uri a =
      if is_empty a.nonce || is_empty a.creds.username then a else record a {
        auth_qop = choose_qop a.qop;
        nc = suc a.nc;
        auth_header = authorization method uri (choose_qop a.qop) (nc_text (suc a.nc)) a;
      }
