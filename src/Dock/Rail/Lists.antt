-- ===== src/Dock/Rail/Lists.antt =====
-- Lists of addresses as sets: membership, repetitions, and sorting.
use obs_zcamera.Prelude.{
  ◌≡◌, refl, sym, ap, ap₂, ◌∙◌, Bool, true, false, not, ◌&&◌, ◌||◌, List, [], ◌∷◌, ◌++◌, Text,
  text_eq, text_eq_iff, text_eq_refl, contains, Bool-cases, inl, inr, true≢false,
}
use obs_zcamera.Discovery.{text_lt}
use obs_zcamera.Dock.Rail.{without, insert_sorted, sorted}

-- No text stands in the list twice.
abbrev pub distinct : List Text → Bool
distinct [] = true
distinct (x ∷ xs) = not (contains xs x) && distinct xs

text_eq_sym : (s t : Text) → text_eq s t ≡ text_eq t s
text_eq_sym s t = elim (Bool-cases (text_eq s t)) [
  | inl e ↦ e ∙ sym (text_eq_refl s) ∙ ap (λ r. text_eq r s) ((text_eq_iff s t).0 e)
  | inr e ↦ elim (Bool-cases (text_eq t s)) [
    | inl f ↦
        absurd
          (true≢false (sym (text_eq_refl t) ∙ ap (λ r. text_eq r t) ((text_eq_iff t s).0 f) ∙ e))
    | inr f ↦ e ∙ sym f
  ]
]

or_swap : (a b c : Bool) → (a || (b || c)) ≡ (b || (a || c))
or_swap true true c = refl
or_swap true false c = refl
or_swap false b c = refl

or_assoc : (a b c : Bool) → ((a || b) || c) ≡ (a || (b || c))
or_assoc true b c = refl
or_assoc false b c = refl

pub contains-append :
    (xs ys : List Text) (h : Text) → contains (xs ++ ys) h ≡ (contains xs h || contains ys h)
unfolding contains
contains-append [] ys h = refl
contains-append (x ∷ xs) ys h =
    ap (λ b. text_eq x h || b) (contains-append xs ys h)
    ∙ sym (or_assoc (text_eq x h) (contains xs h) (contains ys h))

contains-insert_sorted :
    (x : Text) (xs : List Text) (h : Text)
    → contains (insert_sorted x xs) h ≡ (text_eq x h || contains xs h)
unfolding contains insert_sorted
contains-insert_sorted x [] h = refl
contains-insert_sorted x (y ∷ xs) h = elim (Bool-cases (text_lt y x)) [
  | inl e ↦ rw e (
      ap (λ b. text_eq y h || b) (contains-insert_sorted x xs h)
      ∙ or_swap (text_eq y h) (text_eq x h) (contains xs h))
  | inr e ↦ rw e refl
]

pub contains-sorted : (xs : List Text) (h : Text) → contains (sorted xs) h ≡ contains xs h
unfolding contains sorted
contains-sorted [] h = refl
contains-sorted (x ∷ xs) h =
    contains-insert_sorted x (sorted xs) h ∙ ap (λ b. text_eq x h || b) (contains-sorted xs h)

swap_heads : (a b c d : Bool) → (not (a || b) && (not c && d)) ≡ (not (a || c) && (not b && d))
swap_heads true b c d = refl
swap_heads false true true d = refl
swap_heads false true false d = refl
swap_heads false false true d = refl
swap_heads false false false d = refl

distinct-insert_sorted :
    (x : Text) (xs : List Text)
    → distinct (insert_sorted x xs) ≡ (not (contains xs x) && distinct xs)
unfolding insert_sorted contains
distinct-insert_sorted x [] = refl
distinct-insert_sorted x (y ∷ xs) = elim (Bool-cases (text_lt y x)) [
  | inl e ↦
      rw (e, contains-insert_sorted x xs y, distinct-insert_sorted x xs, text_eq_sym x y)
        (swap_heads (text_eq y x) (contains xs y) (contains xs x) (distinct xs))
  | inr e ↦ rw e refl
]

pub distinct-sorted : (xs : List Text) → distinct (sorted xs) ≡ distinct xs
unfolding sorted
distinct-sorted [] = refl
distinct-sorted (x ∷ xs) =
    distinct-insert_sorted x (sorted xs)
    ∙ ap₂ (λ a b. not a && b) (contains-sorted xs x) (distinct-sorted xs)

-- Equal texts are in the same lists, and are empty alike.
same-contains : (xs : List Text) (s t : Text) → text_eq s t ≡ true → contains xs s ≡ contains xs t
same-contains xs s t e = ap (contains xs) ((text_eq_iff s t).0 e)

absorbs : (a b c : Bool) → (a ≡ true → b ≡ c) → (a && b) ≡ (a && c)
absorbs true b c h = h refl
absorbs false b c h = refl

pub contains-without :
    (seen hosts : List Text) (h : Text)
    → contains (without seen hosts) h ≡ (not (contains seen h) && contains hosts h)
unfolding contains
contains-without seen [] h = elim (Bool-cases (contains seen h)) [
  | inl e ↦ rw e refl
  | inr e ↦ rw e refl
]
contains-without seen (x ∷ hosts) h = elim (Bool-cases (text_eq x h)) [
  | inl same ↦
      let e = same-contains seen x h same in
      elim (Bool-cases (contains seen h)) [
        | inl s ↦ rw (e, s, contains-without seen hosts h, s) refl
        | inr s ↦ rw (e, s, same) refl
      ]
  | inr other ↦ elim (Bool-cases (contains seen x)) [
    | inl s ↦ rw (s, other) (contains-without seen hosts h)
    | inr s ↦ rw (s, other) (contains-without seen hosts h)
  ]
]

pub and_true : (a b : Bool) → a ≡ true → b ≡ true → (a && b) ≡ true
and_true a b e f = ap₂ ◌&&◌ e f

pub and-0 : (a b : Bool) → (a && b) ≡ true → (a ≡ true) × (b ≡ true)
and-0 true b e = (refl, e)
and-0 false b e = absurd (true≢false (sym e))

pub distinct-without :
    (seen hosts : List Text) → distinct hosts ≡ true → distinct (without seen hosts) ≡ true
distinct-without seen [] d = refl
distinct-without seen (x ∷ hosts) d =
    let parts = and-0 (not (contains hosts x)) (distinct hosts) d in
    let rest = distinct-without seen hosts parts.1 in
    elim (Bool-cases (contains seen x)) [
      | inl s ↦ rw s rest
      | inr s ↦
          rw (s, contains-without seen hosts x, s)
            (and_true (not (contains hosts x)) (distinct (without seen hosts)) parts.0 rest)
    ]

or_false : (a : Bool) → (a || false) ≡ a
or_false true = refl
or_false false = refl

or_true : (a b : Bool) → b ≡ true → (a || b) ≡ true
or_true true b e = refl
or_true false b e = e

pub distinct-append :
    (xs ys : List Text)
    → distinct xs ≡ true
    → distinct ys ≡ true
    → ((h : Text) → contains xs h ≡ true → contains ys h ≡ false)
    → distinct (xs ++ ys) ≡ true
unfolding contains
distinct-append [] ys d e apart = e
distinct-append (x ∷ xs) ys d e apart =
    let parts = and-0 (not (contains xs x)) (distinct xs) d in
    let there = ap (λ b. b || contains xs x) (text_eq_refl x) in
    let alone : not (contains (xs ++ ys) x) ≡ true =
      ap not (contains-append xs ys x)
      ∙ ap (λ b. not (contains xs x || b)) (apart x there)
      ∙ ap not (or_false (contains xs x))
      ∙ parts.0 in
    and_true (not (contains (xs ++ ys) x)) (distinct (xs ++ ys)) alone
      (distinct-append xs ys parts.1 e (λ h c. apart h (or_true (text_eq x h) (contains xs h) c)))
