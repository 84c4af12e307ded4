-- ===== src/Channel/Nonce.antt =====
-- src/channel.rs: the nonce of a sealed frame, `derive_nonce`, and the directions of a side.
use cbcl_pairing.Common.{ℕ, suc, zero, ◌/◌, ◌%◌, [], ◌∷◌, ◌++◌, Octets, u8_mod}
use Prim.Native.Nat.{bit_xor}
use cbcl_pairing.Wire.{Side, Direction}

-- `u64::to_be_bytes`: as many octets as asked for, the most significant one first.
unfoldable pub be_bytes : ℕ → ℕ → Octets
be_bytes zero n = []
be_bytes (suc k) n = be_bytes k (n / u8_mod) ++ (n % u8_mod ∷ [])

-- The loop: each octet with the counter's octet beside it, as far as both go.
unfoldable pub xor_zip : Octets → Octets → Octets
xor_zip [] ys = []
xor_zip (x ∷ xs) [] = x ∷ xs
xor_zip (x ∷ xs) (y ∷ ys) = bit_xor x y ∷ xor_zip xs ys

-- `nonce[4..]` is what lies behind the first four octets.
unfoldable pub derive_nonce : Octets → ℕ → Octets
derive_nonce (a ∷ b ∷ c ∷ d ∷ rest) counter = a ∷ b ∷ c ∷ d ∷ xor_zip rest (be_bytes 8 counter)
derive_nonce short counter = short

abbrev pub direction_number : Direction → ℕ
direction_number Direction.allocator_to_claimant = 0
direction_number Direction.claimant_to_allocator = 1

abbrev pub send_direction : Side → Direction
send_direction Side.allocator = Direction.allocator_to_claimant
send_direction Side.claimant = Direction.claimant_to_allocator

abbrev pub receive_direction : Side → Direction
receive_direction Side.allocator = Direction.claimant_to_allocator
receive_direction Side.claimant = Direction.allocator_to_claimant
