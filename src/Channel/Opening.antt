-- ===== src/Channel/Opening.antt =====
-- src/channel.rs: what `open` accepts, and how it fails closed.
use cbcl_pairing.Common.{
  ℕ, ◌+◌, ◌≤◌, ◌≡◌, ◌≢◌, ◌↔◌, Octets, none, some, true, false, length, ok, err, arith, checked_add,
}
use cbcl_pairing.Wire.{ChannelFrame, Direction}
use cbcl_pairing.Channel.{ChannelError, SecureChannel, max_sealed_plaintext}
use cbcl_pairing.Channel.Nonce.{derive_nonce, receive_direction}
use cbcl_pairing.Channel.Schedule.{Crypto, sealed_aad}
use cbcl_pairing.Channel.Seal.{
  seal, open_frame, open_sealed, open_under, decrypted, fail, same_direction,
}

-- The frame is the next one of the peer's direction, within the size bounds, and its ciphertext
-- is authentic and decrypts to the plaintext.
pub record IsNext (c : Crypto) (s : SecureChannel) (d : Direction) (n : ℕ) (ct p : Octets)
    : Type 0 where
  pub way : d ≡ receive_direction s.local_side
  pub counter : s.next_receive_counter ≡ some n
  pub long : 17 ≤ length ct
  pub short : length ct ≤ max_sealed_plaintext + 16
  pub authentic :
      (aad : Octets) × (sealed_aad c d n s.transcript_hash ≡ ok aad)
      × (c.takes_key s.receive_key ≡ true)
      × (c.decrypt s.receive_key (derive_nonce s.receive_iv n) ct aad ≡ some p)

same_direction→eq : (d e : Direction) → same_direction d e ≡ true → d ≡ e
same_direction→eq d e h = ground arith

open_accepts :
    (c : Crypto) (s : SecureChannel) (d : Direction) (n : ℕ) (ct p : Octets)
    → (open_sealed c s d n ct).1 ≡ ok p
    → IsNext c s d n ct p
unfolding open_sealed open_under decrypted fail
open_accepts c s d n ct p h = ground arith

accepts_open :
    (c : Crypto) (s : SecureChannel) (d : Direction) (n : ℕ) (ct p : Octets)
    → IsNext c s d n ct p
    → (open_sealed c s d n ct).1 ≡ ok p
unfolding open_sealed open_under decrypted fail
accepts_open c s d n ct p k = let (aad, bound, keyed, opened) = k.authentic in ground arith

-- A live channel opens a sealed frame to a plaintext exactly if the frame travels in the peer's
-- direction, carries the next counter, is within the size bounds and decrypts to that plaintext
-- under the receive key, the nonce of its counter and the additional data of this channel.
pub open_iff :
    (c : Crypto) (s : SecureChannel) (d : Direction) (n : ℕ) (ct p : Octets)
    → s.is_terminal ≡ false
    → ((open_frame c s (ChannelFrame.sealed d n ct)).1 ≡ ok p) ↔ IsNext c s d n ct p
unfolding open_frame
open_iff c s d n ct p live = (
  λ h. ground (arith, open_accepts c s d n ct p),
  λ k. ground (arith, accepts_open c s d n ct p k),
)

-- Every later operation is refused, and changes nothing.
abbrev pub IsClosed : Crypto → SecureChannel → Type 0
IsClosed c s =
    ((plaintext : Octets) → seal c s plaintext ≡ (s, err ChannelError.terminal))
    × ((frame : ChannelFrame) → open_frame c s frame ≡ (s, err ChannelError.terminal))

terminal-IsClosed : (c : Crypto) (s : SecureChannel) → s.is_terminal ≡ true → IsClosed c s
unfolding seal open_frame
terminal-IsClosed c s h = (λ plaintext. ground arith, λ frame. ground arith)

fails_terminal :
    (c : Crypto) (s : SecureChannel) (frame : ChannelFrame) (e : ChannelError)
    → (open_frame c s frame).1 ≡ err e
    → e ≢ ChannelError.encoding
    → e ≢ ChannelError.encryption
    → (open_frame c s frame).0.is_terminal ≡ true
unfolding open_frame open_sealed open_under decrypted fail sealed_aad
fails_terminal c s frame e h p q = ground arith

-- When `open` refuses a frame, then, unless the local encoder or the local key failed, the
-- channel is closed: every later `seal` and `open` is refused and changes nothing.
pub open_fails-IsClosed :
    (c : Crypto) (s : SecureChannel) (frame : ChannelFrame) (e : ChannelError)
    → (open_frame c s frame).1 ≡ err e
    → e ≢ ChannelError.encoding
    → e ≢ ChannelError.encryption
    → IsClosed c (open_frame c s frame).0
open_fails-IsClosed c s frame e h p q =
    terminal-IsClosed c (open_frame c s frame).0 (fails_terminal c s frame e h p q)

-- The error of a replayed frame: no counter is left, or another one is expected.
abbrev pub replay_error : ℕ → ChannelError
replay_error n = elim (checked_add n 1) [
  | none ↦ ChannelError.counter_exhausted
  | some next ↦ ChannelError.counter_mismatch
]
