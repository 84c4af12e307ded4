-- ===== src/Limiter/Peers.antt =====
-- src/limiter.rs: `peer_key`, the pseudonym of a peer address. The parser of addresses (the
-- standard library's) and the keyed hash are parameters.
use cbcl_pairing.Common.{ℕ, Octets, [], ◌∷◌, ◌++◌, Option, none, some, ascii}
use cbcl_pairing.Limiter.{PeerKey}

-- `std::net::IpAddr`, by its octets: four of them, or sixteen.
pub data IpAddr : Type 0 where
  v4 : Octets → IpAddr
  v6 : Octets → IpAddr

-- `str::parse::<IpAddr>` on the octets of a text, `Ipv6Addr::to_ipv4_mapped`, and HMAC-SHA-256 of
-- a message under a key.
pub record PeerEnv : Type 0 where
  pub parse_address : Octets → Option IpAddr
  pub to_ipv4_mapped : Octets → Option Octets
  pub hmac_sha256 : Octets → Octets → Octets

-- `octets()[..8]`
abbrev pub take : ℕ → Octets → Octets
take ℕ.zero b = []
take (ℕ.suc n) [] = []
take (ℕ.suc n) (x ∷ b) = x ∷ take n b

-- What is hashed behind the label.
unfoldable pub peer_message : PeerEnv → Octets → Octets
peer_message env address = elim (env.parse_address address) [
  | none ↦ 0 ∷ address
  | some (v4 octets) ↦ 4 ∷ octets
  | some (v6 octets) ↦ elim (env.to_ipv4_mapped octets) [
    | none ↦ 6 ∷ take 8 octets
    | some mapped ↦ 4 ∷ mapped
  ]
]

unfoldable pub peer_key : PeerEnv → Octets → Octets → PeerKey
unfolding peer_message
peer_key env operator_key address =
    env.hmac_sha256 operator_key (ascii "cbcl-pairing-peer/v1" ++ peer_message env address)
