-- ===== src/Decoder/Nal/Escape.antt =====
-- The emulation prevention of H.264 and H.265, written from the standards, and its removal by
-- `zc_nal_to_rbsp` of hw_decode.c.
use obs_zcamera.Prelude.{
  ℕ, zero, suc, ◌≤◌, ◌<◌, ◌≡◌, ◌≢◌, refl, ap, ◌∙◌, false, ◌&&◌, [], ◌∷◌, Text, leb, ◌==◌,
  if◌then◌else◌, arith, Bool-cases, inl, inr,
}
use obs_zcamera.Decoder.Nal.{is_escape, to_rbsp}

-- A byte up to 3 behind two zeros gets a 3 before it. The number counts the zeros at the end of what
-- is written.
abbrev pub zeros_after : ℕ → ℕ → ℕ
zeros_after count zero = suc count
zeros_after count (suc b) = 0

abbrev pub escape : ℕ → Text → Text
escape count [] = []
escape count (b ∷ s) =
    let held = escape (zeros_after 0 b) s in
    let plain = escape (zeros_after count b) s in
    if count == 2 && leb b 3 then 3 ∷ b ∷ held else b ∷ plain

-- The removal, started behind `count` zeros that are not removed yet.
abbrev pub after_zeros : ℕ → Text → Text
after_zeros zero s = s
after_zeros (suc count) s = 0 ∷ after_zeros count s

-- A byte that starts no escape stays, in the three places where the proof meets one.
to_rbsp-nonzero : (b : ℕ) (s : Text) → b ≢ 0 → to_rbsp (b ∷ s) ≡ b ∷ to_rbsp s
unfolding to_rbsp
to_rbsp-nonzero b [] h = refl
to_rbsp-nonzero b (c ∷ []) h = refl
to_rbsp-nonzero b (c ∷ d ∷ s) h =
    let kept : is_escape b c d ≡ false = ground arith in rw (kept, to_rbsp)

to_rbsp-one_zero : (b : ℕ) (s : Text) → b ≢ 0 → to_rbsp (0 ∷ b ∷ s) ≡ 0 ∷ b ∷ to_rbsp s
unfolding to_rbsp
to_rbsp-one_zero b [] h = refl
to_rbsp-one_zero b (c ∷ s) h =
    let kept : is_escape 0 b c ≡ false = ground arith in
    rw (kept, to_rbsp) (ap (◌∷◌ 0) (to_rbsp-nonzero b (c ∷ s) h))

to_rbsp-two_zeros : (b : ℕ) (s : Text) → 3 < b → to_rbsp (0 ∷ 0 ∷ b ∷ s) ≡ 0 ∷ 0 ∷ b ∷ to_rbsp s
unfolding to_rbsp
to_rbsp-two_zeros b s h =
    let kept : is_escape 0 0 b ≡ false = ground arith in
    rw (kept, to_rbsp) (ap (◌∷◌ 0) (to_rbsp-one_zero b s (λ e. omega (arith, e))))

escape_zero-cons :
    (b : ℕ) (s : Text)
    → to_rbsp (escape 0 s) ≡ s
    → to_rbsp (0 ∷ escape 1 s) ≡ 0 ∷ s
    → to_rbsp (escape 0 (b ∷ s)) ≡ b ∷ s
escape_zero-cons zero s none_before one_before = one_before
escape_zero-cons (suc b) s none_before one_before =
    to_rbsp-nonzero (suc b) (escape 0 s) (λ e. cc e) ∙ ap (◌∷◌ (suc b)) none_before

pub zeros_after-nonzero : (count b : ℕ) → b ≢ 0 → zeros_after count b ≡ 0
zeros_after-nonzero count zero h = absurd (h refl)
zeros_after-nonzero count (suc b) h = refl

to_rbsp-escape_from :
    (count : ℕ) (s : Text)
    → count ≤ 2
    → to_rbsp (after_zeros count (escape count s)) ≡ after_zeros count s
unfolding to_rbsp
to_rbsp-escape_from zero [] h = refl
to_rbsp-escape_from (suc zero) [] h = refl
to_rbsp-escape_from (suc (suc zero)) [] h = refl
to_rbsp-escape_from (suc (suc (suc count))) s h = absurd (omega arith)
to_rbsp-escape_from zero (b ∷ s) h =
    escape_zero-cons b s (to_rbsp-escape_from 0 s (omega arith))
      (to_rbsp-escape_from 1 s (omega arith))
to_rbsp-escape_from (suc zero) (zero ∷ s) h = to_rbsp-escape_from 2 s (omega arith)
to_rbsp-escape_from (suc zero) (suc b ∷ s) h =
    to_rbsp-one_zero (suc b) (escape 0 s) (λ e. cc e)
    ∙ ap (λ t. 0 ∷ suc b ∷ t) (to_rbsp-escape_from 0 s (omega arith))
to_rbsp-escape_from (suc (suc zero)) (b ∷ s) h = elim (Bool-cases (leb b 3)) [
  | inl held ↦ rw held (
      ap (λ t. 0 ∷ 0 ∷ t)
        (escape_zero-cons b s (to_rbsp-escape_from 0 s (omega arith))
          (to_rbsp-escape_from 1 s (omega arith))))
  | inr plain ↦
      let large : 3 < b = ground arith in
      let none_left = zeros_after-nonzero 2 b (λ e. omega (arith, e, large)) in
      rw (plain, none_left)
        (to_rbsp-two_zeros b (escape 0 s) large
          ∙ ap (λ t. 0 ∷ 0 ∷ b ∷ t) (to_rbsp-escape_from 0 s (omega arith)))
]

-- `zc_nal_to_rbsp` removes exactly the emulation prevention: whatever the payload, it comes back out
-- of what the standards' escape writes for it.
pub to_rbsp-escape : (s : Text) → to_rbsp (escape 0 s) ≡ s
to_rbsp-escape s = to_rbsp-escape_from 0 s (omega arith)
