-- ===== src/Discovery.antt =====
-- src/ssp-mdns.cpp and src/ssp-mdns.h: the cameras that answer the mDNS query, and their listing, which
-- src/ui/zc_control_dock.cpp reads. An answer is a value with what the mDNS library parsed from it; `A`
-- and `B` stand for `sockaddr_in` and `sockaddr_in6`.
pub mod Known
pub mod Answers
pub mod Listing
use obs_zcamera.Prelude.{
  ℕ, zero, suc, ◌+◌, ◌-◌, ◌*◌, ◌/◌, Bool, true, false, ◌&&◌, ◌||◌, Option, none, some, List, [],
  ◌∷◌, ◌++◌, Text, codes, length, take, is_empty, ltb, ◌==◌, if◌then◌else◌,
}

-- `operator<` of std::string.
unfoldable pub text_lt : Text → Text → Bool
text_lt [] [] = false
text_lt [] (d ∷ t) = true
text_lt (c ∷ s) [] = false
text_lt (c ∷ s) (d ∷ t) = ltb c d || (c == d && text_lt s t)

-- `records[k] = v` of a std::map, whose entries stand in the order of their keys.
unfoldable pub assign : {V : Type 0} → Text → V → List (Text × V) → List (Text × V)
assign k v [] = (k, v) ∷ []
assign k v ((j, w) ∷ m) =
    let rest = assign k v m in
    if text_lt k j then (k, v) ∷ (j, w) ∷ m else (if text_lt j k then (j, w) ∷ rest else (j, v) ∷ m)

pub record MdnsRecord (A B : Type 0) : Type 0 where
  pub has_ptr : Bool
  pub ptr_record : Text
  pub has_a : Bool
  pub a_record : A
  pub has_aaaa : Bool
  pub aaaa_record : B
  pub last_available : ℕ

pub data RecordType : Type 0 where
  type_ptr type_a type_aaaa type_other : RecordType

pub data Family : Type 0 where
  inet inet6 other_family : Family

-- The arguments of the callback, what the mDNS library parses from the record (only the part of the
-- record's type counts), and the clock in nanoseconds.
pub record Answer (A B : Type 0) : Type 0 where
  pub transaction_id : ℕ
  pub rtype : RecordType
  pub family : Family
  pub name : Text
  pub addr : A
  pub addr6 : B
  pub now : ℕ

pub record Discovery (A B : Type 0) : Type 0 where
  pub current_transaction_id : ℕ
  pub current : MdnsRecord A B
  pub ssp_records : List (Text × MdnsRecord A B)
  pub running : Bool

-- `ZCAM_QUERY_DOMAIN`, and the milliseconds that an answer keeps a camera in the list.
abbrev pub query_domain : Text
query_domain = codes "_eagle._tcp.local"

abbrev pub lifetime : ℕ
lifetime = 60 * 1000

unfoldable pub available : ℕ → ℕ
available now = now / 1000000 + lifetime

module _ {A B : Type 0} where
  unfoldable pub new_transaction : ℕ → Discovery A B → Discovery A B
  new_transaction id d = if id == d.current_transaction_id then d else record d {
    current_transaction_id = id;
    current = record d.current { has_ptr = false; has_a = false; has_aaaa = false };
  }

  -- The name without the dot, the domain and the dot behind it. A shorter name makes the length of the
  -- string negative, and its constructor throws: none.
  unfoldable pub on_ptr : Text → ℕ → Discovery A B → Option (Discovery A B)
  on_ptr name now d =
      if ltb (length name) (length query_domain + 2)
      then none
      else some (record d {
        current = record d.current {
          ptr_record = take (length name - length query_domain - 2) name;
          last_available = available now;
          has_ptr = true;
        };
      })

  unfoldable pub store : Discovery A B → Discovery A B
  store d = record d { ssp_records = assign d.current.ptr_record d.current d.ssp_records }

  unfoldable pub on_a : A → ℕ → Discovery A B → Discovery A B
  on_a addr now d = store (record d {
    current = record d.current { a_record = addr; has_a = true; last_available = available now };
  })

  unfoldable pub on_aaaa : B → ℕ → Discovery A B → Discovery A B
  on_aaaa addr now d = store (record d {
    current = record d.current {
      aaaa_record = addr;
      has_aaaa = true;
      last_available = available now;
    };
  })

  unfoldable pub on_record :
      RecordType → Family → Answer A B → Discovery A B → Option (Discovery A B)
  on_record type_ptr family r d = on_ptr r.name r.now d
  on_record type_a inet r d = some (if d.current.has_ptr then on_a r.addr r.now d else d)
  on_record type_aaaa inet6 r d = some (if d.current.has_ptr then on_aaaa r.addr6 r.now d else d)
  on_record rtype family r d = some d

  unfoldable pub query_callback : Answer A B → Discovery A B → Option (Discovery A B)
  query_callback r d = on_record r.rtype r.family r (new_transaction r.transaction_id d)

  -- `create_mdns_loop` and `stop_mdns_loop`, without the thread that asks again and again.
  unfoldable pub create_mdns_loop : Discovery A B → Discovery A B
  create_mdns_loop d = record d { ssp_records = []; running = true }

  unfoldable pub stop_mdns_loop : Discovery A B → Discovery A B
  stop_mdns_loop d = record d { ssp_records = []; running = false }

-- What happens to the state.
pub data Event (A B : Type 0) : Type 0 where
  answer : Answer A B → Event A B
  create stop : Event A B

module _ {A B : Type 0} where
  unfoldable pub handle : Event A B → Discovery A B → Option (Discovery A B)
  handle (answer r) d = query_callback r d
  handle create d = some (create_mdns_loop d)
  handle stop d = some (stop_mdns_loop d)

  unfoldable pub run : List (Event A B) → Discovery A B → Option (Discovery A B)
  run [] d = some d
  run (e ∷ es) d = elim (handle e d) [ none ↦ none | some d' ↦ run es d' ]

-- `ssp_device_item`.
pub record DeviceItem : Type 0 where
  pub device_name : Text
  pub ip_address : Text

-- `ipv4_address_to_string` and `ipv6_address_to_string` with a buffer of `capacity` bytes: what
-- `getnameinfo` returned, none where it failed, and whether the address has a port. `snprintf` writes one
-- byte less than the buffer has.
unfoldable pub clipped : ℕ → Text → Text
clipped capacity s = take (capacity - 1) s

unfoldable pub ipv4_address_to_string : ℕ → Option (Text × Text) → Bool → Text
ipv4_address_to_string capacity none has_port = []
ipv4_address_to_string capacity (some (host, service)) has_port =
    clipped capacity (if has_port then host ++ b':' ∷ service else host)

unfoldable pub ipv6_address_to_string : ℕ → Option (Text × Text) → Bool → Text
ipv6_address_to_string capacity none has_port = []
ipv6_address_to_string capacity (some (host, service)) has_port =
    clipped capacity (if has_port then b'[' ∷ (host ++ (codes "]:" ++ service)) else host)

-- The search of the control dock leaves items without an address out.
unfoldable pub keep_addressed : Option DeviceItem → List DeviceItem → List DeviceItem
keep_addressed none found = found
keep_addressed (some item) found = if is_empty item.ip_address then found else item ∷ found

-- `a_text` and `aaaa_text` are these two with `addrbuffer`, on a record's addresses. An iterator is the
-- clock in milliseconds and the entries that are left.
module _ {A B : Type 0} (a_text : A → Text) (aaaa_text : B → Text) where
  unfoldable pub has_next : List (Text × MdnsRecord A B) → Bool
  has_next [] = false
  has_next (entry ∷ iter) = true

  unfoldable pub next :
      ℕ → List (Text × MdnsRecord A B) → Option DeviceItem × List (Text × MdnsRecord A B)
  next current_time [] = (none, [])
  next current_time ((k, r) ∷ iter) =
      let rest = next current_time iter in
      if ltb r.last_available current_time
      then rest
      else (if r.has_a
          then (some (record { device_name = r.ptr_record; ip_address = a_text r.a_record }), iter)
          else (if r.has_aaaa
              then (
                some (record { device_name = r.ptr_record; ip_address = aaaa_text r.aaaa_record }),
                iter,
              )
              else rest))

  -- The loop of the control dock's search. A round takes an entry at least, so that as many rounds as
  -- entries are enough.
  unfoldable pub search_loop : ℕ → ℕ → List (Text × MdnsRecord A B) → List DeviceItem
  search_loop zero current_time iter = []
  search_loop (suc fuel) current_time iter =
      let (item, iter') = next current_time iter in
      let later = search_loop fuel current_time iter' in
      if has_next iter then keep_addressed item later else []

  unfoldable pub search : ℕ → Discovery A B → List DeviceItem
  search now d = search_loop (length d.ssp_records) (now / 1000000) d.ssp_records
