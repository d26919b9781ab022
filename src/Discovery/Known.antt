-- ===== src/Discovery/Known.antt =====
-- The map of the cameras: its order, what its entries hold, and what an answer changes.
use obs_zcamera.Prelude.{
  ◌≡◌, refl, sym, ap, ◌∙◌, true, false, ◌||◌, some, List, [], ◌∷◌, Text, text_eq, text_eq→eq,
  if◌then◌else◌, arith, Bool-cases, inl, inr, true≢false,
}
use obs_zcamera.Prelude.Dict.{lookup}
use obs_zcamera.Discovery.{text_lt, assign, MdnsRecord, Discovery, store}

-- Two keys of which none is before the other are the same, and no key is before itself.
text_lt-eq : (s t : Text) → text_lt s t ≡ false → text_lt t s ≡ false → s ≡ t
unfolding text_lt
text_lt-eq [] [] h k = refl
text_lt-eq [] (d ∷ t) h k = cc
text_lt-eq (c ∷ s) [] h k = cc
text_lt-eq (c ∷ s) (d ∷ t) h k = ground (arith, text_lt-eq s t)

text_lt_irrefl : (s : Text) → text_lt s s ≡ false
unfolding text_lt
text_lt_irrefl [] = refl
text_lt_irrefl (c ∷ s) = ground (arith, text_lt_irrefl s)

text_eq-of-lt : (i k : Text) → text_lt i k ≡ true → text_eq k i ≡ false
text_eq-of-lt i k h = elim (Bool-cases (text_eq k i)) [
  | inl e ↦ absurd (true≢false (sym h ∙ ap (text_lt i) (text_eq→eq k i e) ∙ text_lt_irrefl i))
  | inr e ↦ e
]

module _ {V : Type 0} where
  -- The keys of neighbours are in order.
  abbrev pub Before : Text → List (Text × V) → Type 0
  Before j [] = Unit
  Before j ((i, v) ∷ m) = text_lt j i ≡ true

  abbrev pub Ascending : List (Text × V) → Type 0
  Ascending [] = Unit
  Ascending ((j, v) ∷ m) = Before j m × Ascending m

  assign-Before :
      (j k : Text) (v : V) (m : List (Text × V))
      → text_lt j k ≡ true
      → Before j m
      → Before j (assign k v m)
  unfolding assign
  assign-Before j k v [] h b = h
  assign-Before j k v ((i, w) ∷ m) h b = elim (Bool-cases (text_lt k i)) [
    | inl before ↦ rw before h
    | inr after ↦ elim (Bool-cases (text_lt i k)) [
      | inl later ↦ rw (after, later) b
      | inr same ↦ rw (after, same) b
    ]
  ]

  pub assign-Ascending :
      (k : Text) (v : V) (m : List (Text × V)) → Ascending m → Ascending (assign k v m)
  unfolding assign
  assign-Ascending k v [] h = (tt, tt)
  assign-Ascending k v ((i, w) ∷ m) (b, h) = elim (Bool-cases (text_lt k i)) [
    | inl before ↦ rw before (before, (b, h))
    | inr after ↦ elim (Bool-cases (text_lt i k)) [
      | inl later ↦ rw (after, later) (assign-Before i k v m later b, assign-Ascending k v m h)
      | inr same ↦ rw (after, same) (b, h)
    ]
  ]

  same_key :
      (i j : Text) (v w : V) (m : List (Text × V))
      → (if text_eq i j then some v else lookup j m)
        ≡ (if text_eq i j then some v else (if text_eq i j then some w else lookup j m))
  same_key i j v w m = elim (Bool-cases (text_eq i j)) [
    | inl here ↦ rw here refl
    | inr there ↦ rw there refl
  ]

  pub lookup-assign :
      (k j : Text) (v : V) (m : List (Text × V))
      → lookup j (assign k v m) ≡ (if text_eq k j then some v else lookup j m)
  unfolding assign lookup
  lookup-assign k j v [] = refl
  lookup-assign k j v ((i, w) ∷ m) = elim (Bool-cases (text_lt k i)) [
    | inl before ↦ rw before refl
    | inr after ↦ elim (Bool-cases (text_lt i k)) [
      | inl later ↦ elim (Bool-cases (text_eq i j)) [
        | inl here ↦
            let other = ap (text_eq k) (sym (text_eq→eq i j here)) ∙ text_eq-of-lt i k later in
            rw (after, later, here, other) refl
        | inr there ↦ rw (after, later, there) (lookup-assign k j v m)
      ]
      | inr same ↦
          let equal = text_lt-eq k i after same in rw (after, same, equal) (same_key i j v w m)
    ]
  ]

module _ {A B : Type 0} where
  -- An entry has the name of its key, and an address.
  abbrev pub IsEntry : Text → MdnsRecord A B → Type 0
  IsEntry k r = (r.ptr_record ≡ k) × (r.has_ptr ≡ true) × ((r.has_a || r.has_aaaa) ≡ true)

  abbrev pub AllEntries : List (Text × MdnsRecord A B) → Type 0
  AllEntries [] = Unit
  AllEntries ((k, r) ∷ m) = IsEntry k r × AllEntries m

  abbrev pub IsKnown : Discovery A B → Type 0
  IsKnown d = AllEntries d.ssp_records × Ascending d.ssp_records

  assign-AllEntries :
      (k : Text) (r : MdnsRecord A B) (m : List (Text × MdnsRecord A B))
      → IsEntry k r
      → AllEntries m
      → AllEntries (assign k r m)
  unfolding assign
  assign-AllEntries k r [] e h = (e, tt)
  assign-AllEntries k r ((j, w) ∷ m) e (f, h) = elim (Bool-cases (text_lt k j)) [
    | inl before ↦ rw before (e, (f, h))
    | inr after ↦ elim (Bool-cases (text_lt j k)) [
      | inl later ↦ rw (after, later) (f, assign-AllEntries k r m e h)
      | inr same ↦
          let equal = text_lt-eq k j after same in rw (after, same) ((e.0 ∙ equal, e.1, e.2), h)
    ]
  ]

  pub store-IsKnown :
      (d : Discovery A B) → IsEntry d.current.ptr_record d.current → IsKnown d → IsKnown (store d)
  unfolding store
  store-IsKnown d e (h, o) = (
    assign-AllEntries d.current.ptr_record d.current d.ssp_records e h,
    assign-Ascending d.current.ptr_record d.current d.ssp_records o,
  )
