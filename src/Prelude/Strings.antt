-- ===== src/Prelude/Strings.antt =====
-- Texts: a QString as its UTF-16 code units and a QByteArray as its bytes, both lists of numbers.
-- The functions are the Qt calls that the source makes on them, as Qt documents them.
use Prim.Native.Char.{code}
use Prim.Native.Nat.{ℕ, zero, suc, ◌+◌, ◌-◌, ◌/◌, ◌%◌}
use Prim.Native.String.{String}
use mathlib.Core.Path.{◌≡◌, refl, sym, ap, ◌∙◌}
use mathlib.Core.Bool.{Bool, true, false, ◌&&◌, ◌||◌}
use mathlib.Core.Logic.{◌↔◌}
use mathlib.Core.List.{List, [], ◌∷◌, ◌++◌, map, reverse}
use mathlib.Core.Option.{Option, none, some}
use mathlib.Core.Option
use native.Mathlib.Omega.{arith}
use obs_zcamera.Prelude.Lists.{length, replicate}
use obs_zcamera.Prelude.Tests.{ltb, leb, ◌==◌, if◌then◌else◌}

abbrev pub Text : Type 0
Text = List ℕ

-- The code points of a literal: its code units and its bytes, since the literals are ASCII.
abbrev pub codes : String → Text
codes String.[] = []
codes (String.◌∷◌ c s) = code c ∷ codes s

unfoldable pub text_eq : Text → Text → Bool
text_eq [] [] = true
text_eq [] (y ∷ ys) = false
text_eq (x ∷ xs) [] = false
text_eq (x ∷ xs) (y ∷ ys) = (x == y) && text_eq xs ys

pub text_eq→eq : (s t : Text) → text_eq s t ≡ true → s ≡ t
unfolding text_eq
text_eq→eq [] [] h = refl
text_eq→eq [] (y ∷ ys) h = ground arith
text_eq→eq (x ∷ xs) [] h = ground arith
text_eq→eq (x ∷ xs) (y ∷ ys) h = ground (arith, text_eq→eq xs ys)

pub text_eq_refl : (s : Text) → text_eq s s ≡ true
unfolding text_eq
text_eq_refl [] = refl
text_eq_refl (x ∷ xs) = ground (arith, text_eq_refl xs)

pub text_eq_iff : (s t : Text) → (text_eq s t ≡ true) ↔ (s ≡ t)
text_eq_iff s t = (text_eq→eq s t, λ e. ap (text_eq s) (sym e) ∙ text_eq_refl s)

-- QStringList::contains.
unfoldable pub contains : List Text → Text → Bool
contains [] s = false
contains (t ∷ ts) s = text_eq t s || contains ts s

-- QString::startsWith / QByteArray::startsWith.
unfoldable pub starts_with : Text → Text → Bool
starts_with s [] = true
starts_with [] (p ∷ ps) = false
starts_with (c ∷ s) (p ∷ ps) = (c == p) && starts_with s ps

-- indexOf of one character: the offset of its first occurrence.
unfoldable pub index_of : ℕ → Text → Option ℕ
index_of c [] = none
index_of c (x ∷ xs) = if x == c then some 0 else Option.map suc (index_of c xs)

unfoldable pub is_space : ℕ → Bool
is_space c = c == 32 || (leb 9 c && leb c 13)

unfoldable pub trim_left : Text → Text
unfolding is_space
trim_left [] = []
trim_left (c ∷ s) = if is_space c then trim_left s else c ∷ s

unfoldable pub trimmed : Text → Text
unfolding trim_left
trimmed s = reverse (trim_left (reverse (trim_left s)))

-- ASCII lower case.
unfoldable pub to_lower : ℕ → ℕ
to_lower c = if leb 65 c && leb c 90 then c + 32 else c

unfoldable pub lower : Text → Text
unfolding to_lower
lower s = map to_lower s

-- compare(…, Qt::CaseInsensitive) == 0, on ASCII.
unfoldable pub same_ignoring_case : Text → Text → Bool
unfolding lower text_eq
same_ignoring_case s t = text_eq (lower s) (lower t)

-- indexOf of a text: the offset of its first occurrence.
unfoldable pub index_of_text : Text → Text → Option ℕ
unfolding starts_with
index_of_text needle [] = if starts_with [] needle then some 0 else none
index_of_text needle (c ∷ s) =
    if starts_with (c ∷ s) needle then some 0 else Option.map suc (index_of_text needle s)

abbrev pub push_front : ℕ → List Text → List Text
push_front c [] = (c ∷ []) ∷ []
push_front c (part ∷ parts) = (c ∷ part) ∷ parts

-- split(separator): one part more than there are separators.
unfoldable pub split : ℕ → Text → List Text
split separator [] = [] ∷ []
split separator (c ∷ s) =
    let rest = split separator s in if c == separator then [] ∷ rest else push_front c rest

-- The decimal digits of a number; `n + 1` rounds are enough.
unfoldable pub decimal_from : ℕ → ℕ → Text
decimal_from zero n = []
decimal_from (suc fuel) n =
    let front = decimal_from fuel (n / 10) in
    if ltb n 10 then (b'0' + n) ∷ [] else front ++ (b'0' + n % 10) ∷ []

-- `number(n)`.
unfoldable pub decimal : ℕ → Text
unfolding decimal_from
decimal n = decimal_from (suc n) n

-- `rightJustified(width, fill)`, which never cuts.
unfoldable pub right_justified : ℕ → ℕ → Text → Text
right_justified width fill s = replicate (width - length s) fill ++ s

-- A list of literals.
abbrev pub texts : List String → List Text
texts [] = []
texts (s ∷ ss) = codes s ∷ texts ss
