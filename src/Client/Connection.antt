-- ===== src/Client/Connection.antt =====
-- What `connect` and `disconnect` of zc_camera_client.cpp leave behind.
use obs_zcamera.Prelude.{◌≡◌, sym, ap, ◌∙◌, Bool, true, List, [], ◌++◌, Text, codes, arith}
use obs_zcamera.Prelude.Int.{ℤ}
use obs_zcamera.Transport.Digest.{Auth, Credentials, Reply, set_credentials}
use obs_zcamera.Transport.Session.{upgrade_header_block, header_if}
use obs_zcamera.Transport.Origin.{
  Origin, Candidate, negotiate_origin, negotiate_origin-unauthorized,
}
use obs_zcamera.Notifier.{start_notifier}
use obs_zcamera.Client.{Client, Action, after_negotiation, connect}

-- The header lines of the upgrade without an Authorization line.
abbrev pub session_lines : Auth → Text
session_lines a =
    header_if (codes "Cookie: ") a.cookie ++ header_if (codes "x-auth-token: ") a.token

upgrade_header_block-unauthorized :
    (a : Auth) → a.auth_header ≡ [] → upgrade_header_block a ≡ session_lines a
unfolding upgrade_header_block
upgrade_header_block-unauthorized a e = rw e

module _ {V D : Type 0} where
  after_negotiation-headers :
      (host : Text) (creds : Credentials) (out : Bool × Origin) (c c' : Client V D)
      (actions : List (Action V D))
      → after_negotiation host creds out c ≡ (true, c', actions)
      → (c'.origin ≡ out.1)
        × (c'.notifier.extra_headers ≡ upgrade_header_block out.1.auth)
        × (c'.connected ≡ true)
        × (out.0 ≡ true)
  unfolding after_negotiation start_notifier
  after_negotiation-headers host creds out c c' actions e = ground arith

  -- A connection that succeeds starts the notifications without an Authorization header, whatever
  -- the camera replied and whatever the credentials are: the headers of the upgrade are the cookie
  -- and the token alone.
  connect-unauthorized :
      (reply_of : Candidate → Reply) (cnonce_of : Candidate → Text) (host : Text) (port : ℤ)
      (creds : Credentials) (c c' : Client V D) (actions : List (Action V D))
      → connect reply_of cnonce_of host port creds c ≡ (true, c', actions)
      → c'.notifier.extra_headers ≡ session_lines c'.origin.auth
  unfolding connect
  connect-unauthorized reply_of cnonce_of host port creds c c' actions e =
      let out =
        negotiate_origin reply_of cnonce_of host port
          (record c.origin { auth = set_credentials creds c.origin.auth }) in
      let shown = after_negotiation-headers host creds out c c' actions e in
      let bare = negotiate_origin-unauthorized reply_of cnonce_of creds host port c.origin in
      shown.1
      ∙ upgrade_header_block-unauthorized out.1.auth bare
      ∙ ap (λ (o : Origin). session_lines o.auth) (sym shown.0)
