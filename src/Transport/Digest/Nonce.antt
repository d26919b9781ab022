-- ===== src/Transport/Digest/Nonce.antt =====
-- The nonce count of zc_http_transport.cpp.
use obs_zcamera.Prelude.{
  ℕ, suc, ◌+◌, ◌≡◌, refl, false, List, [], ◌∷◌, Text, arith, codes, is_empty, text_eq_iff, none,
  some, Option-cases, Bool-cases, sym, ap, ◌∙◌, subst, inl, inr,
}
use obs_zcamera.Transport.Digest.{
  Auth, Reply, Credentials, digest_param, challenge_of, digest_challenge, accept_challenge,
  parse_challenge, build_authorization,
}

-- What happens to the Digest state: a request is signed, or a reply's challenge is read.
pub data Step : Type 0 where
  signs : Text → Text → Step
  challenged : Text → Reply → Step

module _ (md5hex : Text → Text) where
  unfoldable pub after_steps : List Step → Auth → Auth
  after_steps [] a = a
  after_steps (signs method uri ∷ steps) a =
      after_steps steps (build_authorization md5hex method uri a)
  after_steps (challenged cnonce reply ∷ steps) a =
      after_steps steps (parse_challenge cnonce reply a).0

-- Every challenge that is read names this nonce again.
abbrev pub Repeats : Text → List Step → Type 0
Repeats nonce [] = Unit
Repeats nonce (signs method uri ∷ steps) = Repeats nonce steps
Repeats nonce (challenged cnonce reply ∷ steps) =
    (elim (digest_challenge (challenge_of reply)) [
      | none ↦ Unit
      | some challenge ↦ digest_param challenge (codes "nonce") ≡ nonce
    ])
    × Repeats nonce steps

abbrev pub signed : List Step → ℕ
signed [] = 0
signed (signs method uri ∷ steps) = suc (signed steps)
signed (challenged cnonce reply ∷ steps) = signed steps

same_nonce :
    (cnonce challenge nonce : Text) (a : Auth)
    → nonce ≡ a.nonce
    → let b = accept_challenge cnonce challenge nonce a in
      (b.nonce ≡ a.nonce) × (b.nc ≡ a.nc) × (b.creds ≡ a.creds) × (b.cnonce ≡ a.cnonce)
unfolding accept_challenge
same_nonce cnonce challenge nonce a e = ground (arith, text_eq_iff nonce a.nonce)

parse-same_nonce :
    (cnonce : Text) (reply : Reply) (steps : List Step) (a : Auth)
    → Repeats a.nonce (challenged cnonce reply ∷ steps)
    → let b = (parse_challenge cnonce reply a).0 in
      (b.nonce ≡ a.nonce) × (b.nc ≡ a.nc) × (b.creds ≡ a.creds) × (b.cnonce ≡ a.cnonce)
unfolding parse_challenge
parse-same_nonce cnonce reply steps a h =
    elim (Option-cases (digest_challenge (challenge_of reply))) [
      | inl other ↦ rw (other, parse_challenge) (refl, refl, refl, refl)
      | inr (challenge, found) ↦
          let h' : (digest_param challenge (codes "nonce") ≡ a.nonce) × Repeats a.nonce steps =
            rw (found, Repeats) at h in
          elim (Bool-cases (is_empty (digest_param challenge (codes "nonce")))) [
            | inl nothing ↦ rw (found, parse_challenge, nothing) (refl, refl, refl, refl)
            | inr named ↦
                rw (found, parse_challenge, named)
                  (same_nonce cnonce challenge (digest_param challenge (codes "nonce")) a h'.0)
          ]
    ]

module _ (md5hex : Text → Text) where
  signs-counts :
      (method uri : Text) (a : Auth)
      → is_empty a.nonce ≡ false
      → is_empty a.creds.username ≡ false
      → let b = build_authorization md5hex method uri a in
        (b.nonce ≡ a.nonce) × (b.nc ≡ suc a.nc) × (b.creds ≡ a.creds) × (b.cnonce ≡ a.cnonce)
  unfolding build_authorization
  signs-counts method uri a n u = rw (n, u) (refl, refl, refl, refl)

  -- While the camera repeats its nonce, every signed request counts one further under the same
  -- nonce and the same client nonce, so that no count is used twice: a challenge that is read again
  -- does not set the count back. The nonce and the user name must not be empty.
  pub after_steps-nc :
      (steps : List Step) (a : Auth)
      → Repeats a.nonce steps
      → is_empty a.nonce ≡ false
      → is_empty a.creds.username ≡ false
      → ((after_steps md5hex steps a).nonce ≡ a.nonce)
        × ((after_steps md5hex steps a).nc ≡ a.nc + signed steps)
        × ((after_steps md5hex steps a).cnonce ≡ a.cnonce)
  unfolding after_steps
  after_steps-nc [] a h n u = (refl, omega arith, refl)
  after_steps-nc (signs method uri ∷ steps) a h n u =
      let (nonce, count, creds, cnonce) = signs-counts method uri a n u in
      let (kept, counted, client) =
        after_steps-nc steps (build_authorization md5hex method uri a)
          (subst (λ k. Repeats k steps) (sym nonce) h) (ap is_empty nonce ∙ n)
          (ap (λ (c : Credentials). is_empty c.username) creds ∙ u) in
      (kept ∙ nonce, omega (arith, counted, count), client ∙ cnonce)
  after_steps-nc (challenged cnonce reply ∷ steps) a h n u =
      let (nonce, count, creds, drawn) = parse-same_nonce cnonce reply steps a h in
      let (kept, counted, client) =
        after_steps-nc steps (parse_challenge cnonce reply a).0
          (subst (λ k. Repeats k steps) (sym nonce) h.1) (ap is_empty nonce ∙ n)
          (ap (λ (c : Credentials). is_empty c.username) creds ∙ u) in
      (kept ∙ nonce, omega (arith, counted, count), client ∙ drawn)
