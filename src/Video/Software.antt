-- ===== src/Video/Software.antt =====
-- The decoder of the software, and where it is the one that is made.
use obs_zcamera.Prelude.{
  ℕ, ◌≡◌, refl, ap, ◌∙◌, Bool, true, none, if◌then◌else◌, Bool-cases, inl, inr, ◌⊎◌,
}
use obs_zcamera.Decoder.Nal.{Codec}
use obs_zcamera.Decoder.Backend.{
  HwBackend, software, count, is_software, zc_hw_resolve, zc_hw_decoder_create,
}
use obs_zcamera.Video.{Build, chosen, opened}

abbrev pub soft_backend : Bool → HwBackend
soft_backend enable_sw = if enable_sw then software else count

module _ {D : Type 0} where
  -- In software, by the source or by the fallback.
  pub chosen_forced :
      (b : Build D) (requested : HwBackend) (codec : Codec)
      → chosen b requested codec true ≡ soft_backend b.enable_sw
  unfolding chosen zc_hw_resolve
  chosen_forced b requested codec = elim (Bool-cases b.zero_copy) [
    | inl e ↦ rw e refl
    | inr e ↦ rw e refl
  ]

  -- The size and the depth do not matter to it.
  pub opened_soft :
      (b : Build D) (width height : ℕ) (ten_bit : Bool) (codec : Codec)
      → opened b width height ten_bit (soft_backend b.enable_sw) codec
        ≡ (if b.enable_sw then b.sw codec else none)
  unfolding opened zc_hw_decoder_create
  opened_soft b width height ten_bit codec = elim (Bool-cases b.enable_sw) [
    | inl e ↦ elim (Bool-cases b.zero_copy) [ inl z ↦ rw (e, z) refl | inr z ↦ rw (e, z) refl ]
    | inr e ↦ elim (Bool-cases b.zero_copy) [ inl z ↦ rw (e, z) refl | inr z ↦ rw (e, z) refl ]
  ]

  pub software-or_none :
      (b : Build D) (width height : ℕ) (ten_bit : Bool) (codec : Codec)
      → (opened b width height ten_bit (soft_backend b.enable_sw) codec ≡ none)
        ⊎ (is_software (soft_backend b.enable_sw) ≡ true)
  software-or_none b width height ten_bit codec = elim (Bool-cases b.enable_sw) [
    | inl e ↦ inr (ap (λ x. is_software (soft_backend x)) e)
    | inr e ↦
        inl (opened_soft b width height ten_bit codec ∙ ap (λ x. if x then b.sw codec else none) e)
  ]
