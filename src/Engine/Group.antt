-- ===== src/Engine/Group.antt =====
-- Reading a catalog in zc_settings_engine.cpp: in one batch, and key by key.
use obs_zcamera.Prelude.{
  ℕ, suc, ◌≡◌, refl, sym, ◌∙◌, true, none, some, List, [], ◌∷◌, ◌++◌, append_assoc, append-nil,
  Text, length, text_eq_refl, arith, if◌then◌else◌, Bool-cases, inl, inr,
}
use obs_zcamera.Prelude.Json.{Json}
use obs_zcamera.Prelude.Dict.{insert, lookup-insert}
use obs_zcamera.Engine.{
  Engine, Action, group_refreshed, group_done, group_keys_of, read_reply, on_key_reply,
  on_group_key, on_group_replies, blank, value, definition,
}

-- How often the end of a group read is reported to its caller.
abbrev pub endings : List Action → ℕ
endings [] = 0
endings (group_done ok ∷ more) = suc (endings more)
endings (_ ∷ more) = endings more

module _ {V D : Type 0} (json : Json V D) (zero_double : D) where
  -- The keys of the replies that do not say that the camera lacks them, in order.
  abbrev pub supported_keys : List (Text × Text) → List Text
  supported_keys [] = []
  supported_keys ((key, body) ∷ replies) =
      if (read_reply json zero_double key body).supported
      then key ∷ supported_keys replies
      else supported_keys replies

  read_reply-key : (key body : Text) → (read_reply json zero_double key body).key ≡ key
  unfolding read_reply
  read_reply-key key body = ground arith

  group_keys_of-insert :
      (catalog : Text) (keys : List Text) (s : Engine D)
      → group_keys_of catalog (record s { group_keys = insert catalog keys s.group_keys }) ≡ keys
  unfolding group_keys_of
  group_keys_of-insert catalog keys s =
      ground (arith, lookup-insert catalog catalog keys s.group_keys, text_eq_refl catalog)

  abbrev kept_keys : Text → Text → List Text → List Text
  kept_keys key body ok =
      if (read_reply json zero_double key body).supported then ok ++ key ∷ [] else ok

  on_group_key-waits :
      (catalog key body : Text) (n : ℕ) (ok : List Text) (s : Engine D)
      → on_group_key json zero_double catalog
          (read_reply json zero_double key body)
          (record { pending = suc (suc n); ok_keys = ok })
          s
        ≡ (record { pending = suc n; ok_keys = kept_keys key body ok }, s, [])
  unfolding on_group_key
  on_group_key-waits catalog key body n ok s = ground (arith, read_reply-key key body)

  on_group_key-ends :
      (catalog key body : Text) (ok : List Text) (s : Engine D)
      → on_group_key json zero_double catalog
          (read_reply json zero_double key body)
          (record { pending = 1; ok_keys = ok })
          s
        ≡ (
          record { pending = 0; ok_keys = kept_keys key body ok },
          record s { group_keys = insert catalog (kept_keys key body ok) s.group_keys },
          group_refreshed catalog ∷ group_done true ∷ [],
        )
  unfolding on_group_key
  on_group_key-ends catalog key body ok s = rw (read_reply-key key body)

  endings-on_key_reply :
      (key body : Text) (s : Engine D) (more : List Action)
      → endings ((on_key_reply json zero_double key body s).1 ++ more) ≡ endings more
  unfolding on_key_reply
  endings-on_key_reply key body s more = refl

  kept_keys-supported :
      (key body : Text) (replies : List (Text × Text)) (ok : List Text)
      → kept_keys key body ok ++ supported_keys replies
        ≡ ok ++ supported_keys ((key, body) ∷ replies)
  kept_keys-supported key body replies ok =
      elim (Bool-cases (read_reply json zero_double key body).supported) [
        | inl there ↦ rw there (append_assoc ok (key ∷ []) (supported_keys replies))
        | inr lacking ↦ rw lacking
      ]

  -- A catalog that is read key by key, once a reply to each request has come: the keys kept for the
  -- catalog are those that the camera does not reject, in the order of the requests, and the end of
  -- the read is reported exactly once.
  on_group_replies-keys :
      (catalog key body : Text) (replies : List (Text × Text)) (ok : List Text) (s : Engine D)
      → let out =
          on_group_replies json zero_double catalog
            ((key, body) ∷ replies)
            (record { pending = suc (length replies); ok_keys = ok })
            s in
        (group_keys_of catalog out.0 ≡ ok ++ supported_keys ((key, body) ∷ replies))
        × (endings out.1 ≡ 1)
  unfolding on_group_replies
  on_group_replies-keys catalog key body [] ok s =
      let s' = (on_key_reply json zero_double key body s).0 in
      rw (on_group_key-ends catalog key body ok s') (
        group_keys_of-insert catalog (kept_keys key body ok) s'
            ∙ sym (append-nil _)
            ∙ kept_keys-supported key body [] ok,
        endings-on_key_reply key body s _,
      )
  on_group_replies-keys catalog key body ((k, b) ∷ replies) ok s =
      let s' = (on_key_reply json zero_double key body s).0 in
      let rest = on_group_replies-keys catalog k b replies (kept_keys key body ok) s' in
      rw (on_group_key-waits catalog key body (length replies) ok s') (
        rest.0 ∙ kept_keys-supported key body ((k, b) ∷ replies) ok,
        endings-on_key_reply key body s _ ∙ rest.1,
      )

  -- A key whose reply is no JSON object (a timeout, an error page) counts as supported, and its
  -- cached value and metadata are overwritten by empty ones.
  pub on_key_reply-unanswered :
      (key body : Text) (s : Engine D)
      → json.parse_object body ≡ none
      → let s' = (on_key_reply json zero_double key body s).0 in
        (value key s' ≡ [])
        × (definition key s' ≡ some (blank json zero_double key))
        × (supported_keys ((key, body) ∷ []) ≡ key ∷ [])
  unfolding on_key_reply read_reply value definition
  on_key_reply-unanswered key body s e = ground (
    arith,
    lookup-insert key key [] s.values,
    lookup-insert key key (blank json zero_double key) s.defs,
    text_eq_refl key,
  )
