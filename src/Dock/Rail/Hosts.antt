-- ===== src/Dock/Rail/Hosts.antt =====
-- The addresses in the rail: which they are, and that none has two rows.
use obs_zcamera.Prelude.{
  ◌≡◌, refl, ap, ◌∙◌, Bool, true, false, not, ◌&&◌, ◌||◌, List, [], ◌∷◌, ◌++◌, map, Text, is_empty,
  text_eq, text_eq_iff, text_eq_refl, contains, Bool-cases, inl, inr,
}
use obs_zcamera.Schema.Naming.{host_from_source_name}
use obs_zcamera.Dock.Rail.{
  Camera, Dock, discovered_rows, source_hosts, without, sorted, hosts_of, source_row, rows_of,
}
use obs_zcamera.Dock.Rail.Lists.{
  distinct, contains-append, contains-sorted, contains-without, distinct-append, distinct-sorted,
  distinct-without,
}

abbrev pub found_hosts : List (Text × Text) → List Text
found_hosts found = map (λ pair. pair.1) found

contains-discovered_rows :
    (unreachable seen : List Text) (found : List (Text × Text)) (h : Text)
    → contains (hosts_of (discovered_rows unreachable seen found)) h
      ≡ (not (contains seen h) && (not (is_empty h) && contains (found_hosts found) h))
unfolding contains discovered_rows
contains-discovered_rows unreachable seen [] h = elim (Bool-cases (contains seen h)) [
  | inl s ↦ rw s refl
  | inr s ↦ elim (Bool-cases (is_empty h)) [ inl e ↦ rw (s, e) refl | inr e ↦ rw (s, e) refl ]
]
contains-discovered_rows unreachable seen ((name, x) ∷ found) h =
    let rest = contains-discovered_rows unreachable seen found h in
    let more = contains-discovered_rows unreachable (x ∷ seen) found h in
    elim (Bool-cases (text_eq x h)) [
      | inl same ↦
          let e = (text_eq_iff x h).0 same in
          elim (Bool-cases (contains seen h)) [
            | inl s ↦ elim (Bool-cases (is_empty h)) [
              | inl n ↦ rw (e, n, rest, s) refl
              | inr n ↦ rw (e, n, s, rest, s) refl
            ]
            | inr s ↦ elim (Bool-cases (is_empty h)) [
              | inl n ↦ rw (e, n, rest, n) refl
              | inr n ↦ rw (e, n, s, text_eq_refl h) refl
            ]
          ]
      | inr other ↦ elim (Bool-cases (is_empty x || contains seen x)) [
        | inl s ↦ rw (s, rest, other) refl
        | inr s ↦ rw (s, other, more, other) refl
      ]
    ]

-- The address that is looked for is not among those with a row.
fresh-discovered_rows :
    (unreachable seen : List Text) (found : List (Text × Text)) (h : Text)
    → contains seen h ≡ true
    → contains (hosts_of (discovered_rows unreachable seen found)) h ≡ false
fresh-discovered_rows unreachable seen found h s =
    contains-discovered_rows unreachable seen found h
    ∙ ap (λ b. not b && (not (is_empty h) && contains (found_hosts found) h)) s

distinct-discovered_rows :
    (unreachable seen : List Text) (found : List (Text × Text))
    → distinct (hosts_of (discovered_rows unreachable seen found)) ≡ true
unfolding discovered_rows contains
distinct-discovered_rows unreachable seen [] = refl
distinct-discovered_rows unreachable seen ((name, x) ∷ found) =
    let rest = distinct-discovered_rows unreachable seen found in
    let more = distinct-discovered_rows unreachable (x ∷ seen) found in
    let front : contains (x ∷ seen) x ≡ true = ap (λ b. b || contains seen x) (text_eq_refl x) in
    let alone = fresh-discovered_rows unreachable (x ∷ seen) found x front in
    elim (Bool-cases (is_empty x || contains seen x)) [
      | inl s ↦ rw s rest
      | inr s ↦ rw (s, alone) more
    ]

contains-source_hosts :
    (sources : List Text) (h : Text)
    → contains (source_hosts sources) h
      ≡ (not (is_empty h) && contains (map host_from_source_name sources) h)
unfolding contains source_hosts
contains-source_hosts [] h = elim (Bool-cases (is_empty h)) [
  | inl e ↦ rw e refl
  | inr e ↦ rw e refl
]
contains-source_hosts (source ∷ sources) h =
    let x = host_from_source_name source in
    let rest = contains-source_hosts sources h in
    elim (Bool-cases (text_eq x h)) [
      | inl same ↦
          let e = (text_eq_iff x h).0 same in
          elim (Bool-cases (is_empty h)) [
            | inl n ↦ rw (e, n, rest, n) refl
            | inr n ↦ elim (Bool-cases (contains (source_hosts sources) h)) [
              | inl s ↦ rw (e, n, s, s, text_eq_refl h) refl
              | inr s ↦ rw (e, n, s, text_eq_refl h) refl
            ]
          ]
      | inr other ↦ elim (Bool-cases (is_empty x || contains (source_hosts sources) x)) [
        | inl s ↦ rw (s, rest, other) refl
        | inr s ↦ rw (s, other, rest) refl
      ]
    ]

distinct-source_hosts : (sources : List Text) → distinct (source_hosts sources) ≡ true
unfolding source_hosts
distinct-source_hosts [] = refl
distinct-source_hosts (source ∷ sources) =
    let x = host_from_source_name source in
    let rest = distinct-source_hosts sources in
    elim (Bool-cases (is_empty x)) [
      | inl n ↦ rw n rest
      | inr n ↦ elim (Bool-cases (contains (source_hosts sources) x)) [
        | inl s ↦ rw (n, s) rest
        | inr s ↦ rw (n, s, s) rest
      ]
    ]

hosts_of-append : (cs ds : List Camera) → hosts_of (cs ++ ds) ≡ hosts_of cs ++ hosts_of ds
hosts_of-append [] ds = refl
hosts_of-append (c ∷ cs) ds = ap (◌∷◌ c.host) (hosts_of-append cs ds)

hosts_of-source_rows :
    (dock : Dock) (hosts : List Text) → hosts_of (map (source_row dock) hosts) ≡ hosts
unfolding source_row
hosts_of-source_rows dock [] = refl
hosts_of-source_rows dock (h ∷ hosts) = ap (◌∷◌ h) (hosts_of-source_rows dock hosts)

-- The addresses of the rows of a scan.
hosts_of-rows_of :
    (found : List (Text × Text)) (sources : List Text) (dock : Dock)
    → let seen = hosts_of (discovered_rows dock.unreachable_hosts [] found) in
      hosts_of (rows_of found sources dock) ≡ seen ++ sorted (without seen (source_hosts sources))
unfolding rows_of
hosts_of-rows_of found sources dock =
    hosts_of-append (discovered_rows dock.unreachable_hosts [] found) _
    ∙ ap (λ hs. hosts_of (discovered_rows dock.unreachable_hosts [] found) ++ hs)
        (hosts_of-source_rows dock _)

rows_of-distinct :
    (found : List (Text × Text)) (sources : List Text) (dock : Dock)
    → distinct (hosts_of (rows_of found sources dock)) ≡ true
rows_of-distinct found sources dock =
    let seen = hosts_of (discovered_rows dock.unreachable_hosts [] found) in
    let extra = without seen (source_hosts sources) in
    ap distinct (hosts_of-rows_of found sources dock)
    ∙ distinct-append seen (sorted extra) (distinct-discovered_rows dock.unreachable_hosts [] found)
        (distinct-sorted extra
          ∙ distinct-without seen (source_hosts sources) (distinct-source_hosts sources))
        (λ h c.
          contains-sorted extra h
          ∙ contains-without seen (source_hosts sources) h
          ∙ ap (λ b. not b && contains (source_hosts sources) h) c)

merged : (n a b : Bool) → ((n && a) || (not (n && a) && (n && b))) ≡ (n && (a || b))
merged true true b = refl
merged true false b = refl
merged false a b = refl

rows_of-members :
    (found : List (Text × Text)) (sources : List Text) (dock : Dock) (h : Text)
    → contains (hosts_of (rows_of found sources dock)) h ≡ (
        not (is_empty h)
        && (contains (found_hosts found) h || contains (map host_from_source_name sources) h))
unfolding contains
rows_of-members found sources dock h =
    let seen = hosts_of (discovered_rows dock.unreachable_hosts [] found) in
    let extra = without seen (source_hosts sources) in
    let there : contains seen h ≡ (not (is_empty h) && contains (found_hosts found) h) =
      contains-discovered_rows dock.unreachable_hosts [] found h in
    ap (λ hs. contains hs h) (hosts_of-rows_of found sources dock)
    ∙ contains-append seen (sorted extra) h
    ∙ ap (λ b. contains seen h || b)
        (contains-sorted extra h
          ∙ contains-without seen (source_hosts sources) h
          ∙ ap (λ b. not (contains seen h) && b) (contains-source_hosts sources h))
    ∙ ap (λ b. b || (not b && (not (is_empty h) && contains (map host_from_source_name sources) h)))
        there
    ∙ merged (not (is_empty h)) (contains (found_hosts found) h)
        (contains (map host_from_source_name sources) h)

-- No address has two rows, whatever the discovery found, how often it found it, and whatever sources there are;
-- and the rows are those of the addresses that the discovery found and those that a source is named after, and
-- of no other, where an empty address counts for neither.
pub rows_of-hosts :
    (found : List (Text × Text)) (sources : List Text) (dock : Dock) (h : Text)
    → (distinct (hosts_of (rows_of found sources dock)) ≡ true)
      × (contains (hosts_of (rows_of found sources dock)) h ≡ (
          not (is_empty h)
          && (contains (found_hosts found) h || contains (map host_from_source_name sources) h)))
rows_of-hosts found sources dock h =
    (rows_of-distinct found sources dock, rows_of-members found sources dock h)
