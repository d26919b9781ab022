-- ===== src/Discovery/Listing.antt =====
-- The listing of the cameras: the iterator and the search of the control dock.
use obs_zcamera.Prelude.{
  ℕ, zero, suc, ◌/◌, ◌≤◌, ◌≡◌, refl, ap, ◌∙◌, true, false, not, ◌&&◌, none, some, List, [], ◌∷◌,
  Text, length, is_empty, ltb, leb, if◌then◌else◌, arith, Bool-cases, inl, inr,
}
use obs_zcamera.Discovery.{
  MdnsRecord, Discovery, DeviceItem, has_next, next, keep_addressed, search_loop, search,
}
use obs_zcamera.Discovery.Known.{IsKnown, IsEntry, AllEntries}

module _ {A B : Type 0} (a_text : A → Text) (aaaa_text : B → Text) where
  -- The camera of an entry: its key, and its IPv4 address where it has one, else its IPv6 address.
  abbrev pub device : Text × MdnsRecord A B → DeviceItem
  device (k, r) = record {
    device_name = k;
    ip_address = if r.has_a then a_text r.a_record else aaaa_text r.aaaa_record;
  }

  -- The cameras that answered in time and have an address, in the order of the entries.
  abbrev pub cameras : ℕ → List (Text × MdnsRecord A B) → List DeviceItem
  cameras time [] = []
  cameras time ((k, r) ∷ m) =
      if leb time r.last_available && not (is_empty (device (k, r)).ip_address)
      then device (k, r) ∷ cameras time m
      else cameras time m

  search_loop-empty : (fuel time : ℕ) → search_loop a_text aaaa_text fuel time [] ≡ []
  unfolding search_loop has_next next
  search_loop-empty zero time = refl
  search_loop-empty (suc fuel) time = refl

  -- An entry that `next` passes over does not count.
  search_loop-skip :
      (fuel time : ℕ) (x : Text × MdnsRecord A B) (m : List (Text × MdnsRecord A B))
      → next a_text aaaa_text time (x ∷ m) ≡ next a_text aaaa_text time m
      → search_loop a_text aaaa_text (suc fuel) time (x ∷ m)
        ≡ search_loop a_text aaaa_text (suc fuel) time m
  unfolding search_loop has_next keep_addressed next
  search_loop-skip fuel time x [] e =
      ap (λ n. keep_addressed n.0 (search_loop a_text aaaa_text fuel time n.1)) e ∙ nothing
    where
      nothing : keep_addressed none (search_loop a_text aaaa_text fuel time []) ≡ []
      nothing = search_loop-empty fuel time
  search_loop-skip fuel time x (y ∷ m) e =
      ap (λ n. keep_addressed n.0 (search_loop a_text aaaa_text fuel time n.1)) e

  -- An entry that `next` gives is kept where it has an address.
  search_loop-take :
      (fuel time : ℕ) (x : Text × MdnsRecord A B) (m : List (Text × MdnsRecord A B))
      (item : DeviceItem)
      → next a_text aaaa_text time (x ∷ m) ≡ (some item, m)
      → search_loop a_text aaaa_text (suc fuel) time (x ∷ m) ≡ (
          if is_empty item.ip_address
          then search_loop a_text aaaa_text fuel time m
          else item ∷ search_loop a_text aaaa_text fuel time m)
  unfolding search_loop has_next keep_addressed
  search_loop-take fuel time x m item e =
      ap (λ n. keep_addressed n.0 (search_loop a_text aaaa_text fuel time n.1)) e

  next-device :
      (time : ℕ) (k : Text) (r : MdnsRecord A B) (m : List (Text × MdnsRecord A B))
      → IsEntry k r
      → leb time r.last_available ≡ true
      → next a_text aaaa_text time ((k, r) ∷ m) ≡ (some (device (k, r)), m)
  unfolding next
  next-device time k r m (name, p, address) fresh =
      let now : ltb r.last_available time ≡ false = ground arith in
      elim (Bool-cases r.has_a) [
        | inl four ↦ rw (now, four, name) refl
        | inr six ↦ rw (now, six, rw six at address, name) refl
      ]

  next-old :
      (time : ℕ) (k : Text) (r : MdnsRecord A B) (m : List (Text × MdnsRecord A B))
      → leb time r.last_available ≡ false
      → next a_text aaaa_text time ((k, r) ∷ m) ≡ next a_text aaaa_text time m
  unfolding next
  next-old time k r m old =
      let late : ltb r.last_available time ≡ true = ground arith in rw late refl

  search_loop-cameras :
      (fuel time : ℕ) (m : List (Text × MdnsRecord A B))
      → length m ≤ fuel
      → AllEntries m
      → search_loop a_text aaaa_text fuel time m ≡ cameras time m
  search_loop-cameras fuel time [] h e = search_loop-empty fuel time
  search_loop-cameras zero time (x ∷ m) h e = absurd (omega arith)
  search_loop-cameras (suc fuel) time ((k, r) ∷ m) h (e, es) =
      elim (Bool-cases (leb time r.last_available)) [
        | inl fresh ↦
            let taken =
              search_loop-take fuel time (k, r) m (device (k, r))
                (next-device time k r m e fresh) in
            let rest = search_loop-cameras fuel time m (omega arith) es in
            elim (Bool-cases (is_empty (device (k, r)).ip_address)) [
              | inl no_address ↦ taken ∙ rw (fresh, no_address) rest
              | inr address ↦ taken ∙ rw (fresh, address, rest) refl
            ]
        | inr old ↦
            search_loop-skip fuel time (k, r) m (next-old time k r m old)
            ∙ rw old (search_loop-cameras (suc fuel) time m (omega arith) es)
      ]

  -- A search at the time `now`, in nanoseconds, finds the cameras that answered within the lifetime and
  -- whose address has a text, under the names of their entries and in the order of the names.
  pub search-cameras :
      (now : ℕ) (d : Discovery A B)
      → IsKnown d
      → search a_text aaaa_text now d ≡ cameras (now / 1000000) d.ssp_records
  unfolding search
  search-cameras now d (h, o) =
      search_loop-cameras (length d.ssp_records) (now / 1000000) d.ssp_records (omega arith) h
