-- ===== src/Decoder/Nal/Scan.antt =====
-- The Annex-B pass of `zc_nal_bit_depth` in hw_decode.c, over units that the standards' escape wrote.
pub mod Units
use obs_zcamera.Prelude.{
  ℕ, zero, suc, ◌+◌, ◌≤◌, ◌<◌, ◌≡◌, ◌≢◌, refl, sym, ap, ◌∙◌, Bool, true, false, Option, none, some,
  List, [], ◌∷◌, ◌++◌, Text, length, leb, ltb, ◌==◌, if◌then◌else◌, arith, Bool-cases, inl, inr,
  starts_with,
}
use obs_zcamera.Decoder.Nal.{short_code, long_code, find_from}
use obs_zcamera.Decoder.Nal.Escape.{zeros_after, escape, after_zeros, zeros_after-nonzero}

find_from-nonzero : (i b : ℕ) (s : Text) → b ≢ 0 → find_from i (b ∷ s) ≡ find_from (suc i) s
unfolding find_from starts_with
find_from-nonzero i b s h = ground arith

find_from-one_zero :
    (i b : ℕ) (s : Text) → b ≢ 0 → find_from i (0 ∷ b ∷ s) ≡ find_from (suc (suc i)) s
unfolding find_from starts_with
find_from-one_zero i b s h = ground arith

find_from-two_zeros :
    (i b : ℕ) (s : Text) → 1 < b → find_from i (0 ∷ 0 ∷ b ∷ s) ≡ find_from (suc (suc (suc i))) s
unfolding find_from starts_with
find_from-two_zeros i b s h = ground arith

-- What a scan finds in a text behind up to two zeros, by the offset at which the text starts.
abbrev pub Finds : Text → (ℕ → Option ℕ) → Type 0
Finds tail found = (j c : ℕ) → c ≤ 2 → find_from j (after_zeros c tail) ≡ found (j + c)

module _ (tail : Text) (found : ℕ → Option ℕ) (ends : Finds tail found) where
  find_none-cons :
      (i b : ℕ) (s : Text)
      → ((j : ℕ) → find_from j (escape 0 s ++ tail) ≡ found (j + length (escape 0 s)))
      → ((j : ℕ) → find_from j (0 ∷ escape 1 s ++ tail) ≡ found (j + 1 + length (escape 1 s)))
      → find_from i (escape 0 (b ∷ s) ++ tail) ≡ found (i + length (escape 0 (b ∷ s)))
  find_none-cons i zero s none_before one_before = one_before i ∙ ap found (omega arith)
  find_none-cons i (suc b) s none_before one_before =
      find_from-nonzero i (suc b) (escape 0 s ++ tail) (λ e. cc e)
      ∙ none_before (suc i)
      ∙ ap found (omega arith)

  -- No start code stands in an escaped text: the scan goes on to what follows it.
  pub find_from-escape :
      (count i : ℕ) (s : Text)
      → count ≤ 2
      → find_from i (after_zeros count (escape count s ++ tail))
        ≡ found (i + count + length (escape count s))
  find_from-escape count i [] h = ends i count h ∙ ap found (omega arith)
  find_from-escape (suc (suc (suc count))) i (b ∷ s) h = absurd (omega arith)
  find_from-escape zero i (b ∷ s) h =
      find_none-cons i b s (λ j. find_from-escape 0 j s (omega arith) ∙ ap found (omega arith))
        (λ j. find_from-escape 1 j s (omega arith))
      ∙ ap found (omega arith)
  find_from-escape (suc zero) i (zero ∷ s) h =
      find_from-escape 2 i s (omega arith) ∙ ap found (omega arith)
  find_from-escape (suc zero) i (suc b ∷ s) h =
      find_from-one_zero i (suc b) (escape 0 s ++ tail) (λ e. cc e)
      ∙ find_from-escape 0 (suc (suc i)) s (omega arith)
      ∙ ap found (omega arith)
  find_from-escape (suc (suc zero)) i (b ∷ s) h = elim (Bool-cases (leb b 3)) [
    | inl held ↦ rw held (
        find_from-two_zeros i 3 (escape 0 (b ∷ s) ++ tail) (omega arith)
        ∙ find_none-cons (suc (suc (suc i))) b s
            (λ j. find_from-escape 0 j s (omega arith) ∙ ap found (omega arith))
            (λ j. find_from-escape 1 j s (omega arith))
        ∙ ap found (omega arith))
    | inr plain ↦
        let large : 3 < b = ground arith in
        let none_left = zeros_after-nonzero 2 b (λ e. omega (arith, e, large)) in
        rw (plain, none_left)
          (find_from-two_zeros i b (escape 0 s ++ tail) (omega arith)
            ∙ find_from-escape 0 (suc (suc (suc i))) s (omega arith)
            ∙ ap found (omega arith))
  ]

-- The end of the data, and a start code with another unit behind it.
pub ends_with_nothing : Finds [] (λ k. none)
unfolding find_from starts_with
ends_with_nothing j zero h = refl
ends_with_nothing j (suc zero) h = refl
ends_with_nothing j (suc (suc zero)) h = refl
ends_with_nothing j (suc (suc (suc c))) h = absurd (omega arith)

pub ends_with_code : (unit : Text) → Finds (long_code ++ unit) (λ k. some (k + 4))
unfolding find_from starts_with
ends_with_code unit j zero h = ap some (omega arith)
ends_with_code unit j (suc zero) h = ap some (omega arith)
ends_with_code unit j (suc (suc zero)) h = ap some (omega arith)
ends_with_code unit j (suc (suc (suc c))) h = absurd (omega arith)
