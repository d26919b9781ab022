-- ===== src/Tests/Sample.antt =====
-- Concrete values that the tests share, and a small reader in the place of Qt's JSON classes.
use obs_zcamera.Prelude.{
  ℕ, zero, suc, ◌+◌, ◌-◌, ◌*◌, ◌/◌, ◌%◌, ◌<◌, ◌≡◌, refl, false, not, Option, none, some, [], ◌∷◌,
  ◌++◌, Text, codes, is_empty, split, take, drop, length, starts_with, index_of, index_of_text,
  decimal, decimal_from, if◌then◌else◌, ltb, arith, Bool-cases, inl, inr,
}
use obs_zcamera.Prelude.Int.{ℤ, pos}
use obs_zcamera.Prelude.Json.{Json}
use obs_zcamera.Transport.Digest.{Auth, Reply}
use obs_zcamera.Transport.Queue.{Request}

-- The number that decimal digits write.
abbrev pub number : ℕ → Text → ℕ
number acc [] = acc
number acc (c ∷ s) = number (acc * 10 + (c - 48)) s

number-snoc : (acc c : ℕ) (s : Text) → number acc (s ++ c ∷ []) ≡ number acc s * 10 + (c - 48)
number-snoc acc c [] = refl
number-snoc acc c (d ∷ s) = number-snoc (acc * 10 + (d - 48)) c s

number-decimal_from : (fuel n : ℕ) → n < fuel → number 0 (decimal_from fuel n) ≡ n
unfolding decimal_from
number-decimal_from zero n h = absurd (omega arith)
number-decimal_from (suc fuel) n h = elim (Bool-cases (ltb n 10)) [
  | inl small ↦ rw small (omega arith)
  | inr large ↦
      rw (large, number-snoc 0 (48 + n % 10) (decimal_from fuel (n / 10)))
        (omega (arith, number-decimal_from fuel (n / 10) (ground arith)))
]

pub number-decimal : (n : ℕ) → number 0 (decimal n) ≡ n
unfolding decimal
number-decimal n = number-decimal_from (suc n) n (omega arith)

abbrev pub read_int : Text → Option ℤ
read_int s = some (pos (number 0 s))

-- What follows `"name":`, up to the next comma, brace or closing bracket.
abbrev up_to : ℕ → Text → Text
up_to c s = elim (index_of c s) [ none ↦ s | some at ↦ take at s ]

abbrev value_at : Text → Text
value_at s = if starts_with s (b'[' ∷ []) then up_to b']' (drop 1 s) else up_to b',' (up_to b'}' s)

abbrev quoted_name : Text → Text
quoted_name name = b'"' ∷ (name ++ b'"' ∷ b':' ∷ [])

abbrev field_of : Text → Text → Text
field_of o name = elim (index_of_text (quoted_name name) o) [
  | none ↦ []
  | some at ↦ value_at (drop (at + length (quoted_name name)) o)
]

-- Objects and values are their own text here, and the elements of an array stand between `;`.
abbrev pub json : Json Text ℕ
json = record {
  parse_object = λ s. if starts_with s (b'{' ∷ []) then some s else none;
  empty = codes "{}";
  has = λ o name. not (is_empty (field_of o name));
  field = field_of;
  is_string = λ v. not (is_empty v);
  is_double = λ v. false;
  is_bool = λ v. false;
  to_text = λ v. v;
  to_double = λ v. number 0 v;
  to_bool = λ v. false;
  to_array = λ v. if is_empty v then [] else split b';' v;
  to_int = λ v d. if is_empty v then d else pos (number 0 v);
  double_text = decimal;
}

abbrev pub auth : Auth
auth = record {
  creds = record { username = codes "admin"; password = codes "secret" };
  realm = [];
  nonce = [];
  opaque = [];
  qop = [];
  auth_qop = [];
  auth_header = [];
  cnonce = [];
  nc = 0;
  md5_sess = false;
  cookie = [];
  token = [];
}

abbrev pub ok_reply : Reply
ok_reply = record {
  status = 200;
  body = codes "{}";
  network_error = false;
  timed_out = false;
  error_text = [];
  final_url = [];
  challenge_x = [];
  challenge = [];
  set_cookie = codes "sid=7; Path=/";
  x_auth_token = [];
}

abbrev pub login_reply : Reply
login_reply = record ok_reply {
  status = 401;
  challenge = codes "Digest realm=\"cam\", nonce=\"n1\", qop=\"auth\"";
}

abbrev pub request_of : Text → Request
request_of path = record { url = path; path = path; query = []; body = [] }
