-- ===== src/Discovery/Answers.antt =====
-- Histories of answers.
use obs_zcamera.Prelude.{
  ℕ, ◌+◌, ◌-◌, ◌/◌, ◌≤◌, ◌<◌, ◌≡◌, refl, sym, ap, ◌∙◌, Bool, true, false, ◌||◌, Option, none, some,
  List, [], ◌∷◌, Text, length, take, codes, text_eq, ==_iff, ◌++◌, length-append,
  take-length_append, ◌==◌, if◌then◌else◌, arith, Bool-cases, inl, inr, le→not_ltb, lt→ltb,
}
use obs_zcamera.Prelude.Dict.{lookup}
use obs_zcamera.Discovery.{
  MdnsRecord, RecordType, type_ptr, type_a, type_aaaa, type_other, Family, inet, inet6,
  other_family, Answer, Discovery, query_domain, new_transaction, available, on_ptr, store, on_a,
  on_aaaa, on_record, query_callback, create_mdns_loop, stop_mdns_loop, Event, answer, create, stop,
  handle, run,
}
use obs_zcamera.Discovery.Known.{IsKnown, store-IsKnown, lookup-assign}

domain_size : length query_domain + 2 ≡ 19
unfolding codes
domain_size = refl

or-true : (b : Bool) → (b || true) ≡ true
or-true true = refl
or-true false = refl

module _ {A B : Type 0} where
  -- A pointer record names a service: it is no shorter than the domain with its dots.
  abbrev pub IsNamed : Event A B → Type 0
  IsNamed (answer r) = r.rtype ≡ type_ptr → 19 ≤ length r.name
  IsNamed create = Unit
  IsNamed stop = Unit

  abbrev pub AllNamed : List (Event A B) → Type 0
  AllNamed [] = Unit
  AllNamed (e ∷ es) = IsNamed e × AllNamed es

  -- The new state, which is known.
  abbrev Known : Option (Discovery A B) → Type 0
  Known out = (d' : Discovery A B) × ((out ≡ some d') × IsKnown d')

  new_transaction-IsKnown :
      (id : ℕ) (d : Discovery A B) → IsKnown d → IsKnown (new_transaction id d)
  unfolding new_transaction
  new_transaction-IsKnown id d h = elim (Bool-cases (id == d.current_transaction_id)) [
    | inl same ↦ rw same h
    | inr new ↦ rw new h
  ]

  on_ptr-Known :
      (name : Text) (now : ℕ) (d : Discovery A B)
      → 19 ≤ length name
      → IsKnown d
      → Known (on_ptr name now d)
  unfolding on_ptr
  on_ptr-Known name now d long h = rw (domain_size, le→not_ltb (length name) 19 long) (_, (refl, h))

  on_a-IsKnown :
      (addr : A) (now : ℕ) (d : Discovery A B)
      → d.current.has_ptr ≡ true
      → IsKnown d
      → IsKnown (on_a addr now d)
  unfolding on_a
  on_a-IsKnown addr now d p h =
      store-IsKnown
        (record d {
          current = record d.current {
            a_record = addr;
            has_a = true;
            last_available = available now;
          };
        })
        (refl, p, refl) h

  on_aaaa-IsKnown :
      (addr : B) (now : ℕ) (d : Discovery A B)
      → d.current.has_ptr ≡ true
      → IsKnown d
      → IsKnown (on_aaaa addr now d)
  unfolding on_aaaa
  on_aaaa-IsKnown addr now d p h =
      store-IsKnown
        (record d {
          current = record d.current {
            aaaa_record = addr;
            has_aaaa = true;
            last_available = available now;
          };
        })
        (refl, p, or-true d.current.has_a) h

  pick-IsKnown :
      (b : Bool) (d' d : Discovery A B)
      → (b ≡ true → IsKnown d')
      → IsKnown d
      → IsKnown (if b then d' else d)
  pick-IsKnown true d' d h k = h refl
  pick-IsKnown false d' d h k = k

  on_record-Known :
      (t : RecordType) (f : Family) (r : Answer A B) (d : Discovery A B)
      → (t ≡ type_ptr → 19 ≤ length r.name)
      → IsKnown d
      → Known (on_record t f r d)
  unfolding on_record
  on_record-Known type_ptr f r d named h = on_ptr-Known r.name r.now d (named refl) h
  on_record-Known type_a inet r d named h = (
    _,
    (
      refl,
      pick-IsKnown d.current.has_ptr (on_a r.addr r.now d) d (λ p. on_a-IsKnown r.addr r.now d p h)
          h,
    ),
  )
  on_record-Known type_a inet6 r d named h = (d, (refl, h))
  on_record-Known type_a other_family r d named h = (d, (refl, h))
  on_record-Known type_aaaa inet6 r d named h = (
    _,
    (
      refl,
      pick-IsKnown d.current.has_ptr (on_aaaa r.addr6 r.now d) d
          (λ p. on_aaaa-IsKnown r.addr6 r.now d p h) h,
    ),
  )
  on_record-Known type_aaaa inet r d named h = (d, (refl, h))
  on_record-Known type_aaaa other_family r d named h = (d, (refl, h))
  on_record-Known type_other f r d named h = (d, (refl, h))

  handle-Known : (e : Event A B) (d : Discovery A B) → IsNamed e → IsKnown d → Known (handle e d)
  unfolding handle query_callback create_mdns_loop stop_mdns_loop
  handle-Known (answer r) d named h =
      on_record-Known r.rtype r.family r (new_transaction r.transaction_id d) named
        (new_transaction-IsKnown r.transaction_id d h)
  handle-Known create d named h = (_, (refl, (tt, tt)))
  handle-Known stop d named h = (_, (refl, (tt, tt)))

  -- If every pointer record names a service, the query thread takes any answers in any order. From a map
  -- for which this holds, as the empty one, on: the keys are in ascending order, and each entry has a name,
  -- which is its key, and an address.
  pub run-IsKnown :
      (es : List (Event A B)) (d : Discovery A B)
      → AllNamed es
      → IsKnown d
      → (d' : Discovery A B) × ((run es d ≡ some d') × IsKnown d')
  unfolding run
  run-IsKnown [] d named h = (d, (refl, h))
  run-IsKnown (e ∷ es) d (n, named) h =
      let (d', (out, h')) = handle-Known e d n h in rw (out, run) (run-IsKnown es d' named h')

  -- An answer whose pointer record is shorter than the domain with its dots throws, whatever came before.
  pub query_callback-short :
      (r : Answer A B) (d : Discovery A B)
      → r.rtype ≡ type_ptr
      → length r.name < 19
      → query_callback r d ≡ none
  unfolding query_callback on_record on_ptr
  query_callback-short r d p short = rw (p, domain_size, lt→ltb (length r.name) 19 short) refl

  new_transaction-keeps :
      (id : ℕ) (d : Discovery A B)
      → ((new_transaction id d).current_transaction_id ≡ id)
        × ((new_transaction id d).ssp_records ≡ d.ssp_records)
  unfolding new_transaction
  new_transaction-keeps id d = elim (Bool-cases (id == d.current_transaction_id)) [
    | inl same ↦ rw same (sym ((==_iff id d.current_transaction_id).0 same), refl)
    | inr new ↦ rw new (refl, refl)
  ]

  new_transaction-same :
      (id : ℕ) (d : Discovery A B) → d.current_transaction_id ≡ id → new_transaction id d ≡ d
  unfolding new_transaction
  new_transaction-same id d e = rw ((==_iff id d.current_transaction_id).1 (sym e)) refl

  -- The state after a pointer record in a transaction.
  abbrev pointed : Answer A B → Text → Discovery A B → Discovery A B
  pointed p camera d =
      let t = new_transaction p.transaction_id d in
      record t {
        current = record t.current {
          ptr_record = camera;
          last_available = available p.now;
          has_ptr = true;
        };
      }

  query_callback-pointed :
      (p : Answer A B) (camera suffix : Text) (d : Discovery A B)
      → p.rtype ≡ type_ptr
      → p.name ≡ camera ++ suffix
      → length suffix ≡ 19
      → query_callback p d ≡ some (pointed p camera d)
  unfolding query_callback on_record on_ptr
  query_callback-pointed p camera suffix d t e l =
      let size : length p.name ≡ length camera + 19 =
        ap length e ∙ length-append camera suffix ∙ ap (λ n. length camera + n) l in
      let cut : length p.name - length query_domain - 2 ≡ length camera =
        omega (arith, size, domain_size) in
      let name : take (length p.name - length query_domain - 2) p.name ≡ camera =
        ap (λ n. take n p.name) cut
        ∙ ap (take (length camera)) e
        ∙ take-length_append camera suffix in
      rw (t, domain_size, le→not_ltb (length p.name) 19 (omega (arith, size)), name) refl

  abbrev heard : Answer A B → MdnsRecord A B → MdnsRecord A B
  heard q r = record r { a_record = q.addr; has_a = true; last_available = q.now / 1000000 + 60000 }

  query_callback-address :
      (q : Answer A B) (d : Discovery A B)
      → q.rtype ≡ type_a
      → q.family ≡ inet
      → d.current.has_ptr ≡ true
      → d.current_transaction_id ≡ q.transaction_id
      → query_callback q d ≡ some (on_a q.addr q.now d)
  unfolding query_callback on_record
  query_callback-address q d t f p same =
      ap (on_record q.rtype q.family q) (new_transaction-same q.transaction_id d same)
      ∙ rw (t, f, p) refl

  run-two :
      (e e' : Event A B) (d d1 d2 : Discovery A B)
      → handle e d ≡ some d1
      → handle e' d1 ≡ some d2
      → run (e ∷ e' ∷ []) d ≡ some d2
  unfolding run
  run-two e e' d d1 d2 h k = rw (h, run, k) refl

  -- A camera answers with a pointer record, its name before 19 bytes of domain and dots, and then with an
  -- IPv4 address in the same transaction. It then has an entry with that address, available for a minute
  -- from the second record on, and every other entry is what it was.
  run-answered :
      (p q : Answer A B) (camera suffix : Text) (d : Discovery A B)
      → p.rtype ≡ type_ptr
      → p.name ≡ camera ++ suffix
      → length suffix ≡ 19
      → q.rtype ≡ type_a
      → q.family ≡ inet
      → q.transaction_id ≡ p.transaction_id
      → (d' : Discovery A B) × (r : MdnsRecord A B) × ((run (answer p ∷ answer q ∷ []) d ≡ some d')
          × ((r.has_a ≡ true)
              × (r.a_record ≡ q.addr)
              × (r.last_available ≡ q.now / 1000000 + 60000))
          × ((j : Text)
              → lookup j d'.ssp_records
                ≡ (if text_eq camera j then some r else lookup j d.ssp_records)))
  unfolding on_a store available handle query_callback
  run-answered p q camera suffix d tp e l tq f same =
      let first = query_callback-pointed p camera suffix d tp e l in
      let d1 = pointed p camera d in
      let kept = new_transaction-keeps p.transaction_id d in
      let second = query_callback-address q d1 tq f refl (kept.0 ∙ sym same) in
      let d2 = on_a q.addr q.now d1 in
      let stored = λ (j : Text).
        lookup-assign camera j (heard q d1.current) d1.ssp_records
        ∙ ap (λ m. if text_eq camera j then some (heard q d1.current) else lookup j m) kept.1 in
      (
        d2,
        heard q d1.current,
        (run-two (answer p) (answer q) d d1 d2 first second, (refl, refl, refl), stored),
      )
