-- ===== src/Dock/Rail/Sets.antt =====
-- Lists of addresses as sets: equality, and the addresses that are sources.
use obs_zcamera.Prelude.{
  ◌≡◌, refl, sym, ap, ap₂, ◌∙◌, Bool, true, false, ◌&&◌, ◌||◌, List, [], ◌∷◌, Text, text_eq,
  text_eq_iff, text_eq_refl, contains, Bool-cases, inl, inr, true≢false,
}
use obs_zcamera.Dock.Rail.{all_in, same_set, is_camera_added, added_among}

and-both : (a b : Bool) → (a && b) ≡ true → (a ≡ true) × (b ≡ true)
and-both true b e = (refl, e)
and-both false b e = absurd (true≢false (sym e))

or-either :
    (a b c : Bool) → (a || b) ≡ true → (a ≡ true → c ≡ true) → (b ≡ true → c ≡ true) → c ≡ true
or-either true b c e h k = h refl
or-either false b c e h k = k e

all_in-contains :
    (xs ys : List Text) (h : Text)
    → all_in xs ys ≡ true
    → contains xs h ≡ true
    → contains ys h ≡ true
unfolding contains
all_in-contains [] ys h a c = absurd (true≢false (sym c))
all_in-contains (x ∷ xs) ys h a c =
    let parts = and-both (contains ys x) (all_in xs ys) a in
    or-either (text_eq x h) (contains xs h) (contains ys h) c
      (λ e. ap (contains ys) (sym ((text_eq_iff x h).0 e)) ∙ parts.0)
      (all_in-contains xs ys h parts.1)

both_ways : (a b : Bool) → (a ≡ true → b ≡ true) → (b ≡ true → a ≡ true) → a ≡ b
both_ways true b h k = sym (h refl)
both_ways false true h k = k refl
both_ways false false h k = refl

pub or_left_true : (a b : Bool) → b ≡ true → (a || b) ≡ true
or_left_true true b e = refl
or_left_true false b e = e

pub and_true_right : (a : Bool) → (a && true) ≡ a
and_true_right true = refl
and_true_right false = refl

-- Equal sets have the same members.
pub same_set-contains :
    (xs ys : List Text) (h : Text) → same_set xs ys ≡ true → contains xs h ≡ contains ys h
unfolding same_set
same_set-contains xs ys h e =
    let parts = and-both (all_in xs ys) (all_in ys xs) e in
    both_ways (contains xs h) (contains ys h) (all_in-contains xs ys h parts.0)
      (all_in-contains ys xs h parts.1)

all_in_more : (xs ys : List Text) (y : Text) → all_in xs ys ≡ true → all_in xs (y ∷ ys) ≡ true
unfolding contains
all_in_more [] ys y e = refl
all_in_more (x ∷ xs) ys y e =
    let parts = and-both (contains ys x) (all_in xs ys) e in
    ap₂ ◌&&◌ (or_left_true (text_eq y x) (contains ys x) parts.0) (all_in_more xs ys y parts.1)

all_in_refl : (xs : List Text) → all_in xs xs ≡ true
unfolding contains
all_in_refl [] = refl
all_in_refl (x ∷ xs) =
    ap₂ ◌&&◌ (ap (λ b. b || contains xs x) (text_eq_refl x)) (all_in_more xs xs x (all_in_refl xs))

pub same_set_refl : (xs : List Text) → same_set xs xs ≡ true
unfolding same_set
same_set_refl xs = ap₂ ◌&&◌ (all_in_refl xs) (all_in_refl xs)

pub contains-added_among :
    (sources hosts : List Text) (h : Text)
    → contains (added_among sources hosts) h ≡ (is_camera_added sources h && contains hosts h)
unfolding contains
contains-added_among sources [] h = elim (Bool-cases (is_camera_added sources h)) [
  | inl e ↦ rw e refl
  | inr e ↦ rw e refl
]
contains-added_among sources (x ∷ hosts) h =
    let rest = contains-added_among sources hosts h in
    elim (Bool-cases (text_eq x h)) [
      | inl same ↦
          let e = ap (is_camera_added sources) ((text_eq_iff x h).0 same) in
          elim (Bool-cases (is_camera_added sources h)) [
            | inl s ↦ rw (e, s, same) refl
            | inr s ↦ rw (e, s, rest, s) refl
          ]
      | inr other ↦ elim (Bool-cases (is_camera_added sources x)) [
        | inl s ↦ rw (s, other) rest
        | inr s ↦ rw (s, other) rest
      ]
    ]
