-- ===== src/Channel/Distinct.antt =====
-- src/channel.rs: `derive_nonce` tells the counters of a `u64` apart.
use cbcl_pairing.Common.{
  ℕ, zero, suc, ◌*◌, ◌/◌, ◌%◌, ◌<◌, ◌≡◌, refl, [], ◌∷◌, ◌++◌, Octets, u8_mod, u64_mod, length,
  length-append, arith, xor_cancel,
}
use cbcl_pairing.Channel.Nonce.{be_bytes, xor_zip, derive_nonce}

length-be_bytes : (k n : ℕ) → length (be_bytes k n) ≡ k
unfolding be_bytes
length-be_bytes zero n = refl
length-be_bytes (suc k) n = omega (
  arith,
  length-append (be_bytes k (n / u8_mod)) (n % u8_mod ∷ []),
  length-be_bytes k (n / u8_mod),
)

-- Two lists of octets that end in one more octet.
snoc_parts :
    (xs ys : Octets) (a b : ℕ)
    → length xs ≡ length ys
    → xs ++ (a ∷ []) ≡ ys ++ (b ∷ [])
    → (xs ≡ ys) × (a ≡ b)
snoc_parts [] [] a b l h = ground arith
snoc_parts [] (y ∷ ys) a b l h = absurd (omega arith)
snoc_parts (x ∷ xs) [] a b l h = absurd (omega arith)
snoc_parts (x ∷ xs) (y ∷ ys) a b l h = ground (arith, snoc_parts xs ys a b)

-- How many numbers fit that many octets.
abbrev span : ℕ → ℕ
span zero = 1
span (suc k) = u8_mod * span k

be_bytes_apart : (k a b : ℕ) → a < span k → b < span k → be_bytes k a ≡ be_bytes k b → a ≡ b
unfolding be_bytes
be_bytes_apart zero a b p q h = omega arith
be_bytes_apart (suc k) a b p q h =
    let (high, low) =
      snoc_parts (be_bytes k (a / u8_mod)) (be_bytes k (b / u8_mod)) (a % u8_mod) (b % u8_mod)
        (omega (arith, length-be_bytes k (a / u8_mod), length-be_bytes k (b / u8_mod))) h in
    let same = be_bytes_apart k (a / u8_mod) (b / u8_mod) (omega arith) (omega arith) high in
    omega arith

xor_zip_cancel :
    (iv xs ys : Octets)
    → length xs ≡ length iv
    → length ys ≡ length iv
    → xor_zip iv xs ≡ xor_zip iv ys
    → xs ≡ ys
unfolding xor_zip
xor_zip_cancel [] [] [] p q h = refl
xor_zip_cancel [] (x ∷ xs) ys p q h = absurd (omega arith)
xor_zip_cancel [] [] (y ∷ ys) p q h = absurd (omega arith)
xor_zip_cancel (i ∷ iv) [] ys p q h = absurd (omega arith)
xor_zip_cancel (i ∷ iv) (x ∷ xs) [] p q h = absurd (omega arith)
xor_zip_cancel (i ∷ iv) (x ∷ xs) (y ∷ ys) p q h =
    ground (arith, xor_cancel i x y, xor_zip_cancel iv xs ys)

-- Under one IV of twelve octets, two counters that fit a `u64` have the same nonce only if they
-- are the same.
pub derive_nonce_apart :
    (iv : Octets) (a b : ℕ)
    → length iv ≡ 12
    → a < u64_mod
    → b < u64_mod
    → derive_nonce iv a ≡ derive_nonce iv b
    → a ≡ b
unfolding derive_nonce
derive_nonce_apart (i ∷ j ∷ k ∷ l ∷ rest) a b n p q h = be_bytes_apart 8 a b p q (
    xor_zip_cancel rest (be_bytes 8 a) (be_bytes 8 b) (omega (arith, length-be_bytes 8 a))
      (omega (arith, length-be_bytes 8 b)) (ground arith))
derive_nonce_apart [] a b n p q h = absurd (omega arith)
derive_nonce_apart (i ∷ []) a b n p q h = absurd (omega arith)
derive_nonce_apart (i ∷ j ∷ []) a b n p q h = absurd (omega arith)
derive_nonce_apart (i ∷ j ∷ k ∷ []) a b n p q h = absurd (omega arith)
