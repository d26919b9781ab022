-- ===== src/Engine.antt =====
-- src/cameractrl/zc_settings_engine.cpp: the cache of the camera's settings.
-- A method or a reply's handler returns the new cache and what it does, in order. A request is an
-- action here; what its reply does is the handler of that request. A transport is set from the
-- start, as the camera client does, except where `has_transport` says so.
pub mod Group
pub mod Coherent
use obs_zcamera.Prelude.{
  ℕ, zero, suc, ◌-◌, Bool, true, false, ◌&&◌, Option, none, some, List, [], ◌∷◌, ◌++◌, map, Text,
  codes, is_empty, length, contains, text_eq, if◌then◌else◌, ◌==◌,
}
use obs_zcamera.Prelude.Int.{ℤ, pos, eq_pos}
use obs_zcamera.Prelude.Json.{Json}
use obs_zcamera.Prelude.Dict.{Dict, lookup, insert}
use obs_zcamera.Schema.Tables.{
  CatalogDef, DependencyRule, catalogs, dependency_rules, keys_of, dependents,
}
use obs_zcamera.Schema.Wire.{Query}

-- `ZcSettingValue`.
pub record SettingValue (D : Type 0) : Type 0 where
  pub key : Text
  pub value : Text
  pub kind : ℤ
  pub read_only : Bool
  pub supported : Bool
  pub choices : List Text
  pub min : D
  pub max : D
  pub step : D

pub record Engine (D : Type 0) : Type 0 where
  pub has_transport : Bool
  pub values : Dict Text
  pub defs : Dict (SettingValue D)
  pub group_keys : Dict (List Text)

-- What a reply is for.
pub data Task : Type 0 where
  batch : Text → Task
  key_read : Text → Task
  key_write : Text → Text → Task

pub data Action : Type 0 where
  request : Text → Query → Task → Action
  value_changed : Text → Text → Action
  group_refreshed : Text → Action
  write_finished : Text → Bool → Action
  -- The callback of a group read.
  group_done : Bool → Action

abbrev pub or_empty : Option Text → Text
or_empty none = []
or_empty (some v) = v

abbrev pub or_no_keys : Option (List Text) → List Text
or_no_keys none = []
or_no_keys (some keys) = keys

abbrev pub key_request : Text → Action
key_request key = request (codes "/ctrl/get") ((codes "k", key) ∷ []) (key_read key)

-- The counters that the replies of `readGroupByKeys` share.
pub record GroupRead : Type 0 where
  pub pending : ℕ
  pub ok_keys : List Text

module _ {D : Type 0} where
  -- `value`, `definition` and `groupKeys`.
  unfoldable pub value : Text → Engine D → Text
  value key s = or_empty (lookup key s.values)

  unfoldable pub definition : Text → Engine D → Option (SettingValue D)
  definition key s = lookup key s.defs

  unfoldable pub group_keys_of : Text → Engine D → List Text
  group_keys_of catalog s = or_no_keys (lookup catalog s.group_keys)

  -- `readGroup`.
  unfoldable pub read_group : Text → Engine D → List Action
  read_group catalog s =
      if s.has_transport
      then request (codes "/ctrl/getbatch") ((codes "catalog", catalog) ∷ []) (batch catalog) ∷ []
      else group_done false ∷ []

  -- The first part of `readGroupByKeys`: the requests for the keys of the catalog.
  unfoldable pub read_group_by_keys : Text → List CatalogDef → Engine D → Engine D × List Action
  read_group_by_keys catalog table s = elim (keys_of catalog table) [
    | [] ↦ (
      record s { group_keys = insert catalog [] s.group_keys },
      group_refreshed catalog ∷ group_done false ∷ [],
    )
    | k ∷ ks ↦ (s, map key_request (k ∷ ks))
  ]

  -- `writeKey`.
  unfoldable pub write_key : Text → Text → Engine D → List Action
  write_key key text s =
      if s.has_transport
      then request (codes "/ctrl/set") ((key, text) ∷ []) (key_write key text) ∷ []
      else write_finished key false ∷ []

  unfoldable pub read_groups : List Text → Engine D → List Action
  unfolding read_group
  read_groups [] s = []
  read_groups (c ∷ cs) s = read_group c s ++ read_groups cs s

  -- `applyDependencies`.
  unfoldable pub apply_dependencies : Text → Engine D → List Action
  unfolding read_groups
  apply_dependencies key s = read_groups (dependents key dependency_rules) s

  -- The reply to a write.
  unfoldable pub on_written : Text → Text → ℕ → Engine D → Engine D × List Action
  on_written key text status s =
      if status == 200
      then (let s' = record s { values = insert key text s.values } in
          (
            s',
            value_changed key text ∷ (apply_dependencies key s' ++ write_finished key true ∷ []),
          ))
      else (s, write_finished key false ∷ [])

module _ {V D : Type 0} (json : Json V D) (zero_double : D) where
  -- `jsonScalar`.
  unfoldable pub json_scalar : V → Text
  json_scalar v =
      if json.is_string v
      then json.to_text v
      else (if json.is_double v
          then json.double_text (json.to_double v)
          else (if json.is_bool v then (if json.to_bool v then codes "1" else codes "0") else []))

  abbrev pub int_field : V → Text → ℤ
  int_field o name = json.to_int (json.field o name) (pos 0)

  abbrev pub double_field : V → Text → D
  double_field o name = json.to_double (json.field o name)

  -- The fields that `readKey` and `applyBatch` read of an object.
  unfoldable pub setting_of : Text → V → SettingValue D
  unfolding json_scalar
  setting_of key o = record {
    key = key;
    value = json_scalar (json.field o (codes "value"));
    kind = int_field o (codes "type");
    read_only = eq_pos (int_field o (codes "ro")) 1;
    supported = eq_pos (int_field o (codes "code")) 0;
    choices = map json.to_text (json.to_array (json.field o (codes "opts")));
    min = double_field o (codes "min");
    max = double_field o (codes "max");
    step = double_field o (codes "step");
  }

  -- A `ZcSettingValue` with its default members.
  abbrev pub blank : Text → SettingValue D
  blank key = record {
    key = key;
    value = [];
    kind = pos 0;
    read_only = false;
    supported = true;
    choices = [];
    min = zero_double;
    max = zero_double;
    step = zero_double;
  }

  unfoldable pub read_reply : Text → Text → SettingValue D
  unfolding setting_of
  read_reply key body = elim (json.parse_object body) [
    | none ↦ blank key
    | some o ↦ setting_of key o
  ]

  -- The reply to `readKey`.
  unfoldable pub on_key_reply : Text → Text → Engine D → Engine D × List Action
  on_key_reply key body s =
      let v = read_reply key body in
      (
        record s { values = insert key v.value s.values; defs = insert key v s.defs },
        value_changed key v.value ∷ [],
      )

  -- One round of the loop of `applyBatch`: a nameless entry is skipped.
  unfoldable pub apply_cfg : V → Engine D → Engine D × List Action
  apply_cfg o s =
      let key = json.to_text (json.field o (codes "key")) in
      let def = setting_of key o in
      if is_empty key then (s, []) else (
        record s { values = insert key def.value s.values; defs = insert key def s.defs },
        if text_eq (value key s) def.value then [] else value_changed key def.value ∷ [],
      )

  unfoldable pub apply_cfgs : List V → Engine D → Engine D × List Action
  unfolding apply_cfg
  apply_cfgs [] s = (s, [])
  apply_cfgs (o ∷ os) s =
      let (s', actions) = apply_cfg o s in
      let (last, more) = apply_cfgs os s' in (last, actions ++ more)

  abbrev pub keep_named : Text → List Text → List Text
  keep_named key keys = if is_empty key then keys else key ∷ keys

  -- The keys that the loop collects, in the camera's order.
  unfoldable pub cfg_keys : List V → List Text
  cfg_keys [] = []
  cfg_keys (o ∷ os) = keep_named (json.to_text (json.field o (codes "key"))) (cfg_keys os)

  abbrev pub cfgs_of : V → List V
  cfgs_of doc = json.to_array (json.field doc (codes "cfgs"))

  -- `applyBatch`.
  unfoldable pub apply_batch : Text → V → Engine D → Engine D × List Action
  apply_batch catalog doc s =
      let (s', actions) = apply_cfgs (cfgs_of doc) s in
      (
        record s' { group_keys = insert catalog (cfg_keys (cfgs_of doc)) s'.group_keys },
        actions ++ group_refreshed catalog ∷ [],
      )

  abbrev pub and_then : Action → Engine D × List Action → Engine D × List Action
  and_then a (s, actions) = (s, actions ++ a ∷ [])

  -- The reply to `readGroup`: no JSON object, or no settings, falls back to the keys one by one.
  unfoldable pub on_batch_reply : Text → Text → Engine D → Engine D × List Action
  on_batch_reply catalog body s = elim (json.parse_object body) [
    | none ↦ read_group_by_keys catalog catalogs s
    | some doc ↦
        if is_empty (cfgs_of doc)
        then read_group_by_keys catalog catalogs s
        else and_then (group_done true) (apply_batch catalog doc s)
  ]

  -- The lambda of `readGroupByKeys`, after the reply of one key: `--*pending == 0` ends the group.
  unfoldable pub on_group_key :
      Text → SettingValue D → GroupRead → Engine D → GroupRead × Engine D × List Action
  on_group_key catalog v g s =
      let keys = if v.supported then g.ok_keys ++ v.key ∷ [] else g.ok_keys in
      let g' : GroupRead = record { pending = g.pending - 1; ok_keys = keys } in
      if g.pending - 1 == 0
      then (
        g',
        record s { group_keys = insert catalog keys s.group_keys },
        group_refreshed catalog ∷ group_done true ∷ [],
      )
      else (g', s, [])

  -- The replies of a group that is read key by key: the transport delivers them in the order of the
  -- requests.
  unfoldable pub on_group_replies :
      Text → List (Text × Text) → GroupRead → Engine D → Engine D × List Action
  on_group_replies catalog [] g s = (s, [])
  on_group_replies catalog ((key, body) ∷ replies) g s =
      let (s', changed) = on_key_reply key body s in
      let (g', s'', ended) = on_group_key catalog (read_reply key body) g s' in
      let (last, more) = on_group_replies catalog replies g' s'' in
      (last, changed ++ (ended ++ more))
