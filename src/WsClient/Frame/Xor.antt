-- ===== src/WsClient/Frame/Xor.antt =====
-- The masking of zc_ws_client.cpp, and that of RFC 6455. The law of one byte is checked at every
-- pair of bytes.
use Prim.Native.Nat.{bit_xor}
use obs_zcamera.Prelude.{
  ℕ, zero, suc, ◌+◌, ◌%◌, ◌<◌, ◌≡◌, ◌∙◌, refl, ap, Bool, true, false, [], ◌∷◌, Text, arith, length,
  get_or, ◌==◌, ==_iff, if◌then◌else◌,
}
use obs_zcamera.WsClient.Frame.{xor_mask}

-- Every number of the text is a byte.
abbrev pub AllBytes : Text → Type 0
AllBytes [] = Unit
AllBytes (b ∷ bs) = (b < 256) × AllBytes bs

-- The law at one pair of bytes, along the masks below `m`, and in all rows below `x`.
is_undone : ℕ → ℕ → Bool
is_undone x m = bit_xor (bit_xor x m) m == x

row_undone : ℕ → ℕ → Bool
row_undone x zero = true
row_undone x (suc m) = if is_undone x m then row_undone x m else false

rows_undone : ℕ → Bool
rows_undone zero = true
rows_undone (suc x) = if row_undone x 256 then rows_undone x else false

row_undone-at : (x m k : ℕ) → row_undone x m ≡ true → k < m → is_undone x k ≡ true
unfolding row_undone
row_undone-at x zero k row lt = absurd (omega arith)
row_undone-at x (suc m) k row lt = ground (arith, row_undone-at x m k)

rows_undone-at : (n x : ℕ) → rows_undone n ≡ true → x < n → row_undone x 256 ≡ true
unfolding rows_undone
rows_undone-at zero x rows lt = absurd (omega arith)
rows_undone-at (suc n) x rows lt = ground (arith, rows_undone-at n x)

bytes_undone : rows_undone 256 ≡ true
unfolding rows_undone row_undone is_undone
bytes_undone = refl

bit_xor_twice : (x m : ℕ) → x < 256 → m < 256 → bit_xor (bit_xor x m) m ≡ x
unfolding is_undone
bit_xor_twice x m below masked =
    (==_iff _ x).0 (row_undone-at x 256 m (rows_undone-at 256 x bytes_undone below) masked)

get_or-AllBytes : (bytes : Text) (i : ℕ) → AllBytes bytes → get_or bytes i 0 < 256
get_or-AllBytes [] i h = omega arith
get_or-AllBytes (b ∷ bs) zero h = h.0
get_or-AllBytes (b ∷ bs) (suc i) h = get_or-AllBytes bs i h.1

pub xor_mask_twice :
    (mask : Text) (i : ℕ) (bytes : Text)
    → AllBytes mask
    → AllBytes bytes
    → xor_mask mask i (xor_mask mask i bytes) ≡ bytes
unfolding xor_mask
xor_mask_twice mask i [] h k = refl
xor_mask_twice mask i (b ∷ bs) h k = cc (
  bit_xor_twice b (get_or mask (i % 4) 0) k.0 (get_or-AllBytes mask (i % 4) h),
  xor_mask_twice mask (suc i) bs h k.1,
)

pub length-xor_mask :
    (mask : Text) (i : ℕ) (bytes : Text) → length (xor_mask mask i bytes) ≡ length bytes
unfolding xor_mask
length-xor_mask mask i [] = refl
length-xor_mask mask i (b ∷ bs) = ap suc (length-xor_mask mask (suc i) bs)

-- The masking of RFC 6455, written from the standard: the octets of the key take turns, the first
-- one at the first octet of the payload.
abbrev pub masked : ℕ → ℕ → ℕ → ℕ → Text → Text
masked k0 k1 k2 k3 [] = []
masked k0 k1 k2 k3 (b ∷ bs) = bit_xor b k0 ∷ masked k1 k2 k3 k0 bs

xor_mask-turns :
    (mask : Text) (i : ℕ) (bytes : Text)
    → xor_mask mask i bytes
      ≡ masked
          (get_or mask (i % 4) 0)
          (get_or mask ((i + 1) % 4) 0)
          (get_or mask ((i + 2) % 4) 0)
          (get_or mask ((i + 3) % 4) 0)
          bytes
unfolding xor_mask
xor_mask-turns mask i [] = refl
xor_mask-turns mask i (b ∷ bs) =
    ap (λ more. bit_xor b (get_or mask (i % 4) 0) ∷ more)
      (xor_mask-turns mask (suc i) bs ∙ masked-cong)
  where
    masked-cong :
        masked
          (get_or mask (suc i % 4) 0)
          (get_or mask ((suc i + 1) % 4) 0)
          (get_or mask ((suc i + 2) % 4) 0)
          (get_or mask ((suc i + 3) % 4) 0)
          bs
        ≡ masked
            (get_or mask ((i + 1) % 4) 0)
            (get_or mask ((i + 2) % 4) 0)
            (get_or mask ((i + 3) % 4) 0)
            (get_or mask (i % 4) 0)
            bs
    masked-cong =
        let e1 : suc i % 4 ≡ (i + 1) % 4 = omega arith in
        let e2 : (suc i + 1) % 4 ≡ (i + 2) % 4 = omega arith in
        let e3 : (suc i + 2) % 4 ≡ (i + 3) % 4 = omega arith in
        let e4 : (suc i + 3) % 4 ≡ i % 4 = omega arith in rw (e1, e2, e3, e4)

pub xor_mask-masked :
    (mask bytes : Text)
    → xor_mask mask 0 bytes
      ≡ masked (get_or mask 0 0) (get_or mask 1 0) (get_or mask 2 0) (get_or mask 3 0) bytes
xor_mask-masked mask bytes = xor_mask-turns mask 0 bytes
