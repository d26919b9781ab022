-- ===== src/Engine/Coherent.antt =====
-- What the listeners of `valueChanged` know about the cache.
use obs_zcamera.Prelude.{
  ℕ, ◌≡◌, refl, sym, ap, ◌∙◌, List, [], ◌∷◌, ◌++◌, Text, codes, is_empty, text_eq, text_eq_iff,
  arith, if◌then◌else◌, ◌==◌, Bool-cases, Option-cases, inl, inr, map,
}
use obs_zcamera.Prelude.Json.{Json}
use obs_zcamera.Prelude.Dict.{Dict, lookup, insert, lookup-insert}
use obs_zcamera.Schema.Tables.{CatalogDef, catalogs, keys_of, dependents, dependency_rules}
use obs_zcamera.Engine.{
  Engine, Action, value_changed, value, on_written, read_groups, read_group, key_request,
  setting_of, read_reply, on_key_reply, apply_cfg, apply_cfgs, apply_batch, or_empty,
  apply_dependencies, cfgs_of, read_group_by_keys, on_batch_reply,
}

-- The value of a key that a listener holds after some actions.
abbrev pub told : Text → Text → List Action → Text
told key known [] = known
told key known (value_changed k v ∷ more) = told key (if text_eq k key then v else known) more
told key known (_ ∷ more) = told key known more

told-append :
    (key known : Text) (xs ys : List Action)
    → told key known (xs ++ ys) ≡ told key (told key known xs) ys
told-append key known [] ys = refl
told-append key known (value_changed k v ∷ xs) ys =
    told-append key (if text_eq k key then v else known) xs ys
told-append key known (_ ∷ xs) ys = told-append key known xs ys

module _ {D : Type 0} where
  told-read_groups :
      (key known : Text) (cs : List Text) (s : Engine D) → told key known (read_groups cs s) ≡ known
  unfolding read_groups read_group
  told-read_groups key known [] s = refl
  told-read_groups key known (c ∷ cs) s = ground (
    arith,
    told-append key known (read_group c s) (read_groups cs s),
    told-read_groups key known cs s,
  )

or_empty-insert :
    (k key v : Text) (m : Dict Text)
    → or_empty (lookup key (insert k v m)) ≡ (if text_eq k key then v else or_empty (lookup key m))
or_empty-insert k key v m = ground (arith, lookup-insert k key v m)

told-on_written :
    {D : Type 0} (key k text : Text) (status : ℕ) (s : Engine D)
    → told key (value key s) (on_written k text status s).1
      ≡ value key (on_written k text status s).0
unfolding on_written value apply_dependencies
told-on_written key k text status s = elim (Bool-cases (status == 200)) [
  | inr refused ↦ rw refused
  | inl written ↦
      let s' = record s { values = insert k text s.values } in
      rw written (
        told-append key (if text_eq k key then text else value key s) (apply_dependencies k s') _
        ∙ told-read_groups key (if text_eq k key then text else value key s)
            (dependents k dependency_rules) s'
        ∙ sym (or_empty-insert k key text s.values))
]

-- Told of the new value of one key, or not told because it had that value before, a listener agrees.
told-insert :
    (k key v : Text) (m : Dict Text)
    → told key
        (or_empty (lookup key m))
        (if text_eq (or_empty (lookup k m)) v then [] else value_changed k v ∷ [])
      ≡ or_empty (lookup key (insert k v m))
told-insert k key v m =
    ground
      (arith, or_empty-insert k key v m, text_eq_iff k key, text_eq_iff (or_empty (lookup k m)) v)

told-requests : (key known : Text) (ks : List Text) → told key known (map key_request ks) ≡ known
told-requests key known [] = refl
told-requests key known (k ∷ ks) = told-requests key known ks

told-read_group_by_keys :
    {D : Type 0} (key catalog : Text) (table : List CatalogDef) (s : Engine D)
    → told key (value key s) (read_group_by_keys catalog table s).1
      ≡ value key (read_group_by_keys catalog table s).0
unfolding read_group_by_keys value
told-read_group_by_keys key catalog table s = by_keys (keys_of catalog table) refl
  where
    by_keys :
        (ks : List Text)
        → keys_of catalog table ≡ ks
        → told key (value key s) (read_group_by_keys catalog table s).1
          ≡ value key (read_group_by_keys catalog table s).0
    by_keys [] e = rw (e, read_group_by_keys)
    by_keys (k ∷ ks) e = rw (e, read_group_by_keys) (told-requests key (value key s) ks)

module _ {V D : Type 0} (json : Json V D) (zero_double : D) where
  told-cfg :
      (key : Text) (o : V) (s : Engine D)
      → told key (value key s) (apply_cfg json zero_double o s).1
        ≡ value key (apply_cfg json zero_double o s).0
  unfolding apply_cfg value
  told-cfg key o s =
      let k = json.to_text (json.field o (codes "key")) in
      elim (Bool-cases (is_empty k)) [
        | inl nameless ↦ rw nameless
        | inr named ↦ rw named (told-insert k key (setting_of json zero_double k o).value s.values)
      ]

  told-cfgs :
      (key : Text) (os : List V) (s : Engine D)
      → told key (value key s) (apply_cfgs json zero_double os s).1
        ≡ value key (apply_cfgs json zero_double os s).0
  unfolding apply_cfgs
  told-cfgs key [] s = refl
  told-cfgs key (o ∷ os) s =
      let s' = (apply_cfg json zero_double o s).0 in
      told-append key (value key s) (apply_cfg json zero_double o s).1
        (apply_cfgs json zero_double os s').1
      ∙ ap (λ known. told key known (apply_cfgs json zero_double os s').1) (told-cfg key o s)
      ∙ told-cfgs key os s'

  told-apply_batch :
      (key catalog : Text) (doc : V) (s : Engine D)
      → told key (value key s) (apply_batch json zero_double catalog doc s).1
        ≡ value key (apply_batch json zero_double catalog doc s).0
  unfolding apply_batch value
  told-apply_batch key catalog doc s =
      told-append key (value key s) (apply_cfgs json zero_double (cfgs_of json zero_double doc) s).1
        _
      ∙ told-cfgs key (cfgs_of json zero_double doc) s

  -- The reply to a group read tells the listeners of `valueChanged` every value that it changes: a
  -- listener that agreed with the cache on a key agrees with it after the reply, whatever the reply
  -- is.
  pub told-on_batch_reply :
      (key catalog body : Text) (s : Engine D)
      → told key (value key s) (on_batch_reply json zero_double catalog body s).1
        ≡ value key (on_batch_reply json zero_double catalog body s).0
  unfolding on_batch_reply
  told-on_batch_reply key catalog body s = elim (Option-cases (json.parse_object body)) [
    | inl none_there ↦
        rw (none_there, on_batch_reply) (told-read_group_by_keys key catalog catalogs s)
    | inr (doc, parsed) ↦ elim (Bool-cases (is_empty (cfgs_of json zero_double doc))) [
      | inl nothing ↦
          rw (parsed, on_batch_reply, nothing) (told-read_group_by_keys key catalog catalogs s)
      | inr given ↦
          rw (parsed, on_batch_reply, given)
            (told-append key (value key s) (apply_batch json zero_double catalog doc s).1 _
              ∙ told-apply_batch key catalog doc s)
    ]
  ]

  told-on_key_reply :
      (key k body : Text) (s : Engine D)
      → told key (value key s) (on_key_reply json zero_double k body s).1
        ≡ value key (on_key_reply json zero_double k body s).0
  unfolding on_key_reply value
  told-on_key_reply key k body s =
      sym (or_empty-insert k key (read_reply json zero_double k body).value s.values)

  -- A listener of `valueChanged` that agreed with the cache on a key agrees with it after the reply to
  -- a read of one key and after the reply to a write, whatever the replies are.
  told-on_reply :
      (key k text body : Text) (status : ℕ) (s : Engine D)
      → (told key (value key s) (on_key_reply json zero_double k body s).1
          ≡ value key (on_key_reply json zero_double k body s).0)
        × (told key (value key s) (on_written k text status s).1
            ≡ value key (on_written k text status s).0)
  told-on_reply key k text body status s =
      (told-on_key_reply key k body s, told-on_written key k text status s)
