-- ===== src/Transport/Digest/Params.antt =====
-- `digestParam` of zc_http_transport.cpp.
use obs_zcamera.Prelude.{
  ℕ, zero, suc, ◌≤◌, ◌<◌, ◌≡◌, ◌≢◌, none, some, [], ◌∷◌, Text, arith, length, drop, take, text_eq,
  ◌==◌, lower, index_of, Option-cases, Bool-cases, inl, inr, length-drop,
}
use obs_zcamera.Transport.Digest.{param_name, param_value, digest_param_loop}

index_of-lt : (c : ℕ) (s : Text) (at : ℕ) → index_of c s ≡ some at → at < length s
unfolding index_of
index_of-lt c [] at e = cc e
index_of-lt c (x ∷ s) at e = elim (Option-cases (index_of c s)) [
  | inl missing ↦ ground (arith, missing)
  | inr (k, found) ↦ ground (arith, found, index_of-lt c s k found)
]

-- A value leaves no more text than there was.
param_value-shorter : (s v rest : Text) → param_value s ≡ some (v, rest) → length rest ≤ length s
unfolding param_value
param_value-shorter [] v rest e = ground arith
param_value-shorter (c ∷ s) v rest e = elim (Bool-cases (c == b'"')) [
  | inl quote ↦ elim (Option-cases (index_of b'"' s)) [
    | inl unclosed ↦ absurd (ground (arith, unclosed))
    | inr (end, found) ↦ ground (arith, found, length-drop (suc end) s)
  ]
  | inr bare ↦ elim (Option-cases (index_of b',' (c ∷ s))) [
    | inl last ↦ ground (arith, last)
    | inr (end, found) ↦ ground (arith, found, length-drop end (c ∷ s))
  ]
]

digest_param_loop-ne-none :
    (fuel : ℕ) (src key : Text) → length src < fuel → digest_param_loop fuel src key ≢ none
unfolding digest_param_loop
digest_param_loop-ne-none zero src key h = absurd (omega arith)
digest_param_loop-ne-none (suc fuel) src key h = elim (Option-cases (index_of b'=' src)) [
  | inl missing ↦ rw (missing, digest_param_loop) (λ e. cc e)
  | inr (eq, found) ↦ elim (Option-cases (param_value (drop (suc eq) src))) [
    | inl broken ↦ rw (found, digest_param_loop, broken) (λ e. cc e)
    | inr ((v, rest), read) ↦ elim (Bool-cases (text_eq (lower (param_name (take eq src))) key)) [
      | inl same ↦ rw (found, digest_param_loop, read, same) (λ e. cc e)
      | inr other ↦
          rw (found, digest_param_loop, read, other)
            (digest_param_loop-ne-none fuel rest key (
              omega (
                arith,
                param_value-shorter (drop (suc eq) src) v rest read,
                length-drop (suc eq) src,
                index_of-lt b'=' src eq found,
              )))
    ]
  ]
]

-- The loop of `digestParam` ends on every challenge, for every key: a round for each of its bytes
-- and one more are enough.
digest_param_loop-ends :
    (src key : Text) → (v : Text) × (digest_param_loop (suc (length src)) src key ≡ some v)
digest_param_loop-ends src key =
    elim (Option-cases (digest_param_loop (suc (length src)) src key)) [
      | inl stuck ↦
          absurd (digest_param_loop-ne-none (suc (length src)) src key (omega arith) stuck)
      | inr ended ↦ ended
    ]
