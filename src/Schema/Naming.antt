-- ===== src/Schema/Naming.antt =====
-- The names of the OBS sources in zc_settings_schema.cpp.
use obs_zcamera.Prelude.{
  ◌≡◌, ◌≢◌, refl, sym, true, [], ◌∷◌, ◌++◌, Text, codes, starts_with, length, drop, arith,
  if◌then◌else◌, Bool-cases, inl, inr,
}

abbrev prefix : Text
prefix = codes "ZCamera "

-- `cameraSourceName`.
unfoldable pub camera_source_name : Text → Text
camera_source_name host = prefix ++ host

-- `hostFromSourceName`.
unfoldable pub host_from_source_name : Text → Text
unfolding starts_with
host_from_source_name name = if starts_with name prefix then drop (length prefix) name else []

starts_with-split : (s p : Text) → starts_with s p ≡ true → s ≡ p ++ drop (length p) s
unfolding starts_with
starts_with-split s [] h = refl
starts_with-split [] (c ∷ p) h = cc h
starts_with-split (d ∷ s) (c ∷ p) h = ground (arith, starts_with-split s p)

read_back : (host : Text) → host_from_source_name (camera_source_name host) ≡ host
unfolding host_from_source_name camera_source_name
read_back host = refl

named_after :
    (name : Text)
    → host_from_source_name name ≢ []
    → camera_source_name (host_from_source_name name) ≡ name
unfolding host_from_source_name camera_source_name
named_after name h = elim (Bool-cases (starts_with name prefix)) [
  | inl ours ↦ rw ours (sym (starts_with-split name prefix ours))
  | inr other ↦ absurd (h (rw other))
]

-- The address comes back out of a camera's source name, for every address; and every source whose
-- name gives an address at all is named after that address.
host_from_source_name-camera_source_name :
    ((host : Text) → host_from_source_name (camera_source_name host) ≡ host)
    × ((name : Text)
        → host_from_source_name name ≢ []
        → camera_source_name (host_from_source_name name) ≡ name)
host_from_source_name-camera_source_name = (read_back, named_after)
