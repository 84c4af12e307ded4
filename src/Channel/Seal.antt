-- ===== src/Channel/Seal.antt =====
-- src/channel.rs: `seal` and `open` of the confirmed channel. Both return the channel beside their
-- result.
use cbcl_pairing.Common.{
  ℕ, ◌+◌, Octets, octets_ordered, Bool, true, Option, none, some, not, ◌||◌, ◌&&◌, if◌then◌else◌,
  nat_beq, ltb, leb, is_empty, length, checked_add, Outcome, ok, err, panic, ◌>>=◌, ok_or,
}
use cbcl_pairing.Wire.{Direction, ChannelFrame, sealed}
use cbcl_pairing.Channel.{ChannelError, SecureChannel, max_sealed_plaintext}
use cbcl_pairing.Channel.Nonce.{direction_number, send_direction, receive_direction, derive_nonce}
use cbcl_pairing.Channel.Schedule.{Crypto, sealed_aad}

abbrev pub same_direction : Direction → Direction → Bool
same_direction d e = nat_beq (direction_number d) (direction_number e)

-- What `seal` computes under one counter.
unfoldable pub seal_under : Crypto → SecureChannel → Octets → ℕ → Outcome ChannelError Octets
seal_under c s plaintext counter = do
  aad ← sealed_aad c (send_direction s.local_side) counter s.transcript_hash
  if c.takes_key s.send_key
      then ok_or (c.encrypt s.send_key (derive_nonce s.send_iv counter) plaintext aad)
          ChannelError.encryption
      else err ChannelError.encryption

-- The counter moves on only when there is a frame.
unfoldable pub sent :
    SecureChannel
    → ℕ
    → Outcome ChannelError Octets
    → SecureChannel × Outcome ChannelError ChannelFrame
sent s counter (ok ciphertext) = (
  record s { next_send_counter = checked_add counter 1 },
  ok (sealed (send_direction s.local_side) counter ciphertext),
)
sent s counter (err e) = (s, err e)
sent s counter panic = (s, panic)

unfoldable pub seal :
    Crypto → SecureChannel → Octets → SecureChannel × Outcome ChannelError ChannelFrame
seal c s plaintext =
    if s.is_terminal
    then (s, err ChannelError.terminal)
    else if is_empty plaintext || ltb max_sealed_plaintext (length plaintext)
    then (s, err ChannelError.message_size)
    else elim s.next_send_counter [
      | none ↦ (s, err ChannelError.counter_exhausted)
      | some counter ↦ sent s counter (seal_under c s plaintext counter)
    ]

abbrev pub Opened : Type 0
Opened = SecureChannel × Outcome ChannelError Octets

-- A failure of the peer's frame is terminal.
unfoldable pub fail : SecureChannel → ChannelError → Opened
fail s e = (record s { is_terminal = true }, err e)

unfoldable pub decrypted : SecureChannel → ℕ → Option Octets → Opened
unfolding fail
decrypted s counter none = fail s ChannelError.invalid_tag
decrypted s counter (some plaintext) =
    (record s { next_receive_counter = checked_add counter 1 }, ok plaintext)

unfoldable pub open_under :
    Crypto → SecureChannel → ℕ → Octets → Outcome ChannelError Octets → Opened
unfolding decrypted
open_under c s counter ciphertext (ok aad) =
    if c.takes_key s.receive_key
    then decrypted s counter
        (c.decrypt s.receive_key (derive_nonce s.receive_iv counter) ciphertext aad)
    else (s, err ChannelError.encryption)
open_under c s counter ciphertext (err e) = (s, err e)
open_under c s counter ciphertext panic = (s, panic)

unfoldable pub open_sealed : Crypto → SecureChannel → Direction → ℕ → Octets → Opened
open_sealed c s direction counter ciphertext =
    if not (same_direction direction (receive_direction s.local_side))
    then fail s ChannelError.direction_mismatch
    else elim s.next_receive_counter [
      | none ↦ fail s ChannelError.counter_exhausted
      | some expected_counter ↦
          if not (nat_beq counter expected_counter)
          then fail s ChannelError.counter_mismatch
          else if not
              (leb 17 (length ciphertext) && leb (length ciphertext) (max_sealed_plaintext + 16))
          then fail s ChannelError.message_size
          else open_under c s counter ciphertext (sealed_aad c direction counter s.transcript_hash)
    ]

unfoldable pub open_frame : Crypto → SecureChannel → ChannelFrame → Opened
open_frame c s frame = if s.is_terminal then (s, err ChannelError.terminal) else elim frame [
  | ChannelFrame.cpace side a b ↦ fail s ChannelError.unexpected_frame
  | ChannelFrame.finished side a b ↦ fail s ChannelError.unexpected_frame
  | ChannelFrame.sealed direction counter ciphertext ↦ open_sealed c s direction counter ciphertext
]
