-- ===== src/Channel/Confirming.antt =====
-- src/channel.rs: two endpoints that ran the same key exchange confirm each other.
use cbcl_pairing.Common.{◌≡◌, Octets, some, length, ok, octets_beq_iff, sym, arith}
use cbcl_pairing.Wire.{Side}
use cbcl_pairing.Channel.{PendingChannel, SecureChannel}
use cbcl_pairing.Channel.Schedule.{Crypto, new_channel, confirm, activate, finished}
use cbcl_pairing.Channel.Delivery.{IsMirror}

-- Exactly the expected Finished value, of 64 octets, is accepted, and it activates the channel.
confirm_ok :
    (p : PendingChannel) (peer_finished : Octets)
    → length p.peer_finished ≡ 64
    → peer_finished ≡ p.peer_finished
    → confirm p peer_finished ≡ ok (activate p p.local_side)
unfolding confirm
confirm_ok p peer_finished size same = ground (arith, octets_beq_iff p.peer_finished peer_finished)

-- What the channel relies on of HMAC-SHA-512: 64 octets come out.
pub record IsMac (c : Crypto) : Type 0 where
  pub full : (key message code : Octets) → c.hmac_sha512 key message ≡ some code → length code ≡ 64

-- The two endpoints derive the same secrets, and each expects the other's Finished value.
record Agree (p q : PendingChannel) : Type 0 where
  first : p.local_side ≡ Side.allocator
  second : q.local_side ≡ Side.claimant
  transcript : p.transcript_hash ≡ q.transcript_hash
  secrets : p.secrets ≡ q.secrets
  expects_q : p.peer_finished ≡ q.local_finished
  expects_p : q.peer_finished ≡ p.local_finished

new_channel-Agree :
    (c : Crypto) (isk context frame_a frame_c : Octets) (p q : PendingChannel)
    → new_channel c Side.allocator isk context frame_a frame_c ≡ ok p
    → new_channel c Side.claimant isk context frame_a frame_c ≡ ok q
    → Agree p q
unfolding new_channel
new_channel-Agree c isk context frame_a frame_c p q h k = ground arith

new_channel-sized :
    (c : Crypto) (side : Side) (isk context frame_a frame_c : Octets) (p : PendingChannel)
    → IsMac c
    → new_channel c side isk context frame_a frame_c ≡ ok p
    → (length p.local_finished ≡ 64) × (length p.peer_finished ≡ 64)
unfolding new_channel finished
new_channel-sized c side isk context frame_a frame_c p law h = grind (arith, law.full)

-- With a code of 64 octets: if both endpoints derive their channel from the same session key,
-- public context and key exchange frames, each accepts the other's Finished value, and the two
-- confirmed channels are ready for one another, in both directions.
pub confirm-new_channel :
    (c : Crypto) (isk context frame_a frame_c : Octets) (p q : PendingChannel)
    → IsMac c
    → new_channel c Side.allocator isk context frame_a frame_c ≡ ok p
    → new_channel c Side.claimant isk context frame_a frame_c ≡ ok q
    → (s : SecureChannel) × (t : SecureChannel) × (confirm p q.local_finished ≡ ok s)
      × (confirm q p.local_finished ≡ ok t)
      × IsMirror s t
      × IsMirror t s
unfolding activate
confirm-new_channel c isk context frame_a frame_c p q law h k =
    let agree = new_channel-Agree c isk context frame_a frame_c p q h k in
    let (p_own, p_peer) = new_channel-sized c Side.allocator isk context frame_a frame_c p law h in
    let (q_own, q_peer) = new_channel-sized c Side.claimant isk context frame_a frame_c q law k in
    (
      activate p p.local_side,
      activate q q.local_side,
      confirm_ok p q.local_finished p_peer (sym agree.expects_q),
      confirm_ok q p.local_finished q_peer (sym agree.expects_p),
      ground arith,
      ground arith,
    )
