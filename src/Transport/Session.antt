-- ===== src/Transport/Session.antt =====
-- The session state of zc_http_transport.cpp: the cookie and the token, and the header lines that
-- the WebSocket upgrade takes over.
use obs_zcamera.Prelude.{
  none, some, [], ◌∷◌, ◌++◌, Text, codes, take, is_empty, if◌then◌else◌, index_of, trimmed,
}
use obs_zcamera.Transport.Digest.{Auth, Reply}

abbrev crlf : Text
crlf = 13 ∷ 10 ∷ []

-- The first part of a Set-Cookie value.
unfoldable pub cookie_of : Text → Text
cookie_of set_cookie = elim (index_of b';' set_cookie) [
  | none ↦ trimmed set_cookie
  | some semi ↦ trimmed (take semi set_cookie)
]

-- `captureSession`.
unfoldable pub capture_session : Reply → Auth → Auth
unfolding cookie_of
capture_session reply a = record a {
  cookie =
      if is_empty reply.set_cookie
      then a.cookie
      else (if is_empty (cookie_of reply.set_cookie) then a.cookie else cookie_of reply.set_cookie);
  token = if is_empty reply.x_auth_token then a.token else reply.x_auth_token;
}

abbrev pub header_if : Text → Text → Text
header_if name value = if is_empty value then [] else name ++ (value ++ crlf)

-- `upgradeHeaderBlock`.
unfoldable pub upgrade_header_block : Auth → Text
upgrade_header_block a =
    header_if (codes "Authorization: ") a.auth_header
    ++ (header_if (codes "Cookie: ") a.cookie ++ header_if (codes "x-auth-token: ") a.token)
