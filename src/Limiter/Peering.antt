-- ===== src/Limiter/Peering.antt =====
-- src/limiter.rs: which peers share a pseudonym.
use cbcl_pairing.Common.{◌≡◌, Octets, none, some, refl}
use cbcl_pairing.Limiter.Peers.{v4, v6, PeerEnv, peer_message, take}

-- Two addresses are the same peer: the same four octets, also when mapped into IPv6, or the same
-- /64 prefix of IPv6.
pub data IsSamePeer (env : PeerEnv) : Octets → Octets → Type 0 where
  same_v4 :
      {a b octets : Octets}
      → env.parse_address a ≡ some (v4 octets)
      → env.parse_address b ≡ some (v4 octets)
      → IsSamePeer env a b
  mapped_v4 :
      {a b octets mapped : Octets}
      → env.parse_address a ≡ some (v4 mapped)
      → env.parse_address b ≡ some (v6 octets)
      → env.to_ipv4_mapped octets ≡ some mapped
      → IsSamePeer env a b
  same_network :
      {a b p q : Octets}
      → env.parse_address a ≡ some (v6 p)
      → env.parse_address b ≡ some (v6 q)
      → env.to_ipv4_mapped p ≡ none
      → env.to_ipv4_mapped q ≡ none
      → take 8 p ≡ take 8 q
      → IsSamePeer env a b

pub peer_message-IsSamePeer :
    (env : PeerEnv) {a b : Octets} → IsSamePeer env a b → peer_message env a ≡ peer_message env b
unfolding peer_message
peer_message-IsSamePeer env (same_v4 h k) = rw (h, k, peer_message) refl
peer_message-IsSamePeer env (mapped_v4 h k m) = rw (h, k, m, peer_message) refl
peer_message-IsSamePeer env (same_network h k m n e) = rw (h, k, m, n, e, peer_message) refl
