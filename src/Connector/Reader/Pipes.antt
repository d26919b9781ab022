-- ===== src/Connector/Reader/Pipes.antt =====
-- The reading of messages from a pipe as the parsing of the bytes that the pipe holds.
use obs_zcamera.Prelude.{
  ℕ, zero, suc, ◌-◌, ◌≤◌, ◌<◌, ◌≡◌, refl, sym, ap, ◌∙◌, true, false, Option, none, some, [], ◌∷◌,
  ◌++◌, Text, length, take, drop, is_empty, ltb, ltb→lt, not_ltb→le, ◌||◌, ◌==◌, if◌then◌else◌,
  arith, Bool-cases, inl, inr, length-take,
}
use obs_zcamera.Connector.Proto.{Message, message_size, member}
use obs_zcamera.Connector.Reader.{read_retry_loop, read_retry, msg_recv, IsPipe}

take-append_ge :
    (xs ys : Text) (n : ℕ) → length xs ≤ n → take n (xs ++ ys) ≡ xs ++ take (n - length xs) ys
take-append_ge [] ys n h = ap (λ k. take k ys) (omega arith)
take-append_ge (x ∷ xs) ys zero h = absurd (omega arith)
take-append_ge (x ∷ xs) ys (suc n) h = ground (arith, take-append_ge xs ys n)

drop-append_ge :
    (xs ys : Text) (n : ℕ) → length xs ≤ n → drop n (xs ++ ys) ≡ drop (n - length xs) ys
drop-append_ge [] ys n h = ap (λ k. drop k ys) (omega arith)
drop-append_ge (x ∷ xs) ys zero h = absurd (omega arith)
drop-append_ge (x ∷ xs) ys (suc n) h = ground (arith, drop-append_ge xs ys n)

is_empty_iff : (xs : Text) → is_empty xs ≡ true → xs ≡ []
is_empty_iff [] e = refl
is_empty_iff (x ∷ xs) e = cc

nonempty : (xs : Text) → is_empty xs ≡ false → 0 < length xs
nonempty [] e = cc
nonempty (x ∷ xs) e = omega arith

-- The first message of some bytes and the bytes behind it, none where they end before the message does.
abbrev pub parse_message : Text → Option (Message × Text)
parse_message bs =
    let header = take message_size bs in
    let body = drop message_size bs in
    let len = member 4 4 header in
    if ltb (length bs) message_size || ltb (length body) len
    then none
    else some (record { kind = member 0 4 header; len = len; value = take len body }, drop len body)

==-refl_of : (a b : ℕ) → a ≡ b → (a == b) ≡ true
==-refl_of a b e = ground arith

==-ne : (a b : ℕ) → a < b → (a == b) ≡ false
==-ne a b e = ground arith

==-ne' : (n : ℕ) → (suc n == 0) ≡ false
==-ne' n = ground arith

module _ {S : Type 0} (read : ℕ → S → Text × S) (pending : S → Text)
    (pipe : IsPipe read pending) where
  -- The bytes that were asked for, or all that are left.
  abbrev pub Takes : ℕ → S → Text × S → Type 0
  Takes n s out = (out.0 ≡ take n (pending s)) × (pending out.1 ≡ drop n (pending s))

  read_retry_loop-Takes :
      (fuel n : ℕ) (s : S) → n ≤ fuel → Takes n s (read_retry_loop read fuel n s)
  unfolding read_retry_loop
  read_retry_loop-Takes zero zero s h = (refl, refl)
  read_retry_loop-Takes zero (suc n) s h = absurd (omega arith)
  read_retry_loop-Takes (suc fuel) zero s h = (refl, refl)
  read_retry_loop-Takes (suc fuel) (suc n) s h =
      let cur = (read (suc n) s).0 in
      let s' = (read (suc n) s).1 in
      let split = pipe.splits (suc n) s in
      let fits = pipe.at_most (suc n) s in
      elim (Bool-cases (is_empty cur)) [
        | inl none_left ↦
            let nothing = pipe.ended (suc n) s (omega arith) (is_empty_iff cur none_left) in
            let empty =
              ap (λ c. c ++ pending s') (sym (is_empty_iff cur none_left)) ∙ sym split ∙ nothing in
            rw (none_left, nothing) (refl, empty)
        | inr some_left ↦
            let progress = nonempty cur some_left in
            let rest =
              read_retry_loop-Takes fuel (suc n - length cur) s' (omega (arith, progress, h)) in
            rw
              (
                some_left,
                rest.0,
                rest.1,
                split,
                take-append_ge cur (pending s') (suc n) fits,
                drop-append_ge cur (pending s') (suc n) fits,
              )
              (refl, refl)
      ]

  pub read_retry-Takes : (n : ℕ) (s : S) → Takes n s (read_retry read n s)
  unfolding read_retry
  read_retry-Takes n s = read_retry_loop-Takes n n s (omega arith)

  abbrev pub Parses : Option (Message × Text) → Option Message × S → Type 0
  Parses none out = out.0 ≡ none
  Parses (some (m, rest)) out = (out.0 ≡ some m) × (pending out.1 ≡ rest)

  after_header :
      (kind len : ℕ) (body : Text) (s : S)
      → pending s ≡ body
      → Parses
          (if ltb (length body) len
            then none
            else some (record { kind = kind; len = len; value = take len body }, drop len body))
          (if len == 0
            then (some (record { kind = kind; len = len; value = [] }), s)
            else (if length (read_retry read len s).0 == len
                then (
                  some (record { kind = kind; len = len; value = (read_retry read len s).0 }),
                  (read_retry read len s).1,
                )
                else (none, (read_retry read len s).1)))
  after_header kind zero body s e = ground arith
  after_header kind (suc n) body s e =
      let len = suc n in
      let out = read_retry-Takes len s in
      let got = out.0 ∙ ap (take len) e in
      let left = out.1 ∙ ap (drop len) e in
      let size = length-take len body in
      elim (Bool-cases (ltb (length body) len)) [
        | inl short ↦
            let cut =
              ==-ne (length (take len body)) len
                (omega (arith, size, ltb→lt (length body) len short)) in
            rw (short, got, cut, ==-ne' n) refl
        | inr long ↦
            let full =
              ==-refl_of (length (take len body)) len
                (omega (arith, size, not_ltb→le (length body) len long)) in
            rw (long, got, full, ==-ne' n, left) (refl, refl)
      ]

  -- Whatever the pieces are in which the pipe gives its bytes, msg_recv returns the first message of the
  -- bytes and leaves those behind it, and returns none exactly where they end before the message does.
  pub msg_recv-parse_message : (s : S) → Parses (parse_message (pending s)) (msg_recv read s)
  unfolding msg_recv
  msg_recv-parse_message s =
      let bs = pending s in
      let header = take 8 bs in
      let len = member 4 4 header in
      let first = read_retry-Takes 8 s in
      let s' = (read_retry read 8 s).1 in
      let size = length-take 8 bs in
      elim (Bool-cases (ltb (length bs) 8)) [
        | inl short ↦
            let cut = ==-ne (length header) 8 (omega (arith, size, ltb→lt (length bs) 8 short)) in
            rw (short, first.0, cut) refl
        | inr long ↦
            let full =
              ==-refl_of (length header) 8 (omega (arith, size, not_ltb→le (length bs) 8 long)) in
            rw (long, first.0, full) (after_header (member 0 4 header) len (drop 8 bs) s' first.1)
      ]
