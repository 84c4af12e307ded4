-- ===== src/Channel/Examples.antt =====
-- The theorems on src/channel.rs at a concrete channel, with stand-ins for the hashes, the encoder
-- and the cipher.
use cbcl_pairing.Common.{
  ℕ, zero, suc, ◌≡◌, ◌↔◌, refl, [], ◌∷◌, ◌++◌, Octets, some, true, false, ok, err, arith,
}
use cbcl_pairing.Wire.{Side, Direction, ChannelFrame}
use cbcl_pairing.Channel.{ChannelError, PendingChannel, SecureChannel}
use cbcl_pairing.Channel.Schedule.{
  Crypto, new_channel, confirm, finished, expand, calculate_transcript_hash, sealed_aad,
}
use cbcl_pairing.Channel.Seal.{
  seal, seal_under, sent, open_frame, open_sealed, open_under, decrypted, fail,
}
use cbcl_pairing.Channel.History.{
  confirmed, seals, Numbered, Unrepeated, EncryptedWith, nonces, Life-Unrepeated,
}
use cbcl_pairing.Channel.Delivery.{IsAead, IsMirror, silent, sends, receive_all, receive_all-Sends}
use cbcl_pairing.Channel.Opening.{IsNext, IsClosed, open_iff, open_fails-IsClosed}
use cbcl_pairing.Channel.Confirming.{IsMac, confirm-new_channel}

abbrev filled : ℕ → Octets
filled zero = []
filled (suc n) = 0 ∷ filled n

-- The tag stands in front, and is not checked.
abbrev drop : ℕ → Octets → Octets
drop zero b = b
drop (suc n) [] = []
drop (suc n) (x ∷ b) = drop n b

abbrev plain : Crypto
plain = record {
  to_canonical_vec = λ v. some [];
  sha512 = λ b. b;
  hkdf_expand = λ key info n. some (filled n);
  hmac_sha512 = λ key message. some (filled 64);
  takes_key = λ key. true;
  encrypt = λ key nonce p aad. some (filled 16 ++ p);
  decrypt = λ key nonce ct aad. some (drop 16 ct);
}

plain-IsAead : IsAead plain
plain-IsAead = record {
  undoes = λ key nonce p aad ct h. ground arith;
  tag = λ key nonce p aad ct h. ground arith;
}

plain-IsMac : IsMac plain
plain-IsMac = record { full = λ key message code h. ground arith }

abbrev alice : SecureChannel
alice = record {
  local_side = Side.allocator;
  transcript_hash = 1 ∷ [];
  send_key = 2 ∷ [];
  receive_key = 3 ∷ [];
  send_iv = filled 12;
  receive_iv = filled 12;
  exporter = [];
  next_send_counter = some 0;
  next_receive_counter = some 0;
  is_terminal = false;
}

abbrev bob : SecureChannel
bob = record {
  local_side = Side.claimant;
  transcript_hash = 1 ∷ [];
  send_key = 3 ∷ [];
  receive_key = 2 ∷ [];
  send_iv = filled 12;
  receive_iv = filled 12;
  exporter = [];
  next_send_counter = some 0;
  next_receive_counter = some 0;
  is_terminal = false;
}

abbrev first : ChannelFrame
first = ChannelFrame.sealed Direction.allocator_to_claimant 0 (filled 16 ++ (5 ∷ []))

abbrev second : ChannelFrame
second = ChannelFrame.sealed Direction.allocator_to_claimant 1 (filled 16 ++ (6 ∷ []))

seal_first : (seal plain alice (5 ∷ [])).1 ≡ ok first
unfolding seal sent seal_under sealed_aad
seal_first = refl

seal_second : (seal plain (seal plain alice (5 ∷ [])).0 (6 ∷ [])).1 ≡ ok second
unfolding seal sent seal_under sealed_aad
seal_second = refl

Life-Unrepeated_example :
    Numbered Direction.allocator_to_claimant 0 (first ∷ second ∷ [])
    × ((seal plain (seal plain alice (5 ∷ [])).0 (6 ∷ [])).0.send_key ≡ 2 ∷ [])
    × ((seal plain (seal plain alice (5 ∷ [])).0 (6 ∷ [])).0.send_iv ≡ filled 12)
    × EncryptedWith plain (2 ∷ []) (first ∷ second ∷ []) (nonces (filled 12) (first ∷ second ∷ []))
    × Unrepeated (nonces (filled 12) (first ∷ second ∷ []))
Life-Unrepeated_example =
    Life-Unrepeated refl refl
      (seals (6 ∷ []) second (seals (5 ∷ []) first confirmed seal_first) seal_second)

receive_all-Sends_example :
    ((receive_all plain bob (first ∷ second ∷ [])).1 ≡ ok ((5 ∷ []) ∷ (6 ∷ []) ∷ []))
    × IsMirror
        (seal plain (seal plain alice (5 ∷ [])).0 (6 ∷ [])).0
        (receive_all plain bob (first ∷ second ∷ [])).0
receive_all-Sends_example =
    receive_all-Sends bob plain-IsAead (ground arith)
      (sends (5 ∷ []) first seal_first (sends (6 ∷ []) second seal_second silent))

open_iff_example :
    ((open_frame plain bob first).1 ≡ ok (5 ∷ []))
    ↔ IsNext plain bob Direction.allocator_to_claimant 0 (filled 16 ++ (5 ∷ [])) (5 ∷ [])
open_iff_example =
    open_iff plain bob Direction.allocator_to_claimant 0 (filled 16 ++ (5 ∷ [])) (5 ∷ []) refl

open_second : (open_frame plain bob second).1 ≡ err ChannelError.counter_mismatch
unfolding open_frame open_sealed open_under decrypted fail sealed_aad
open_second = refl

open_fails-IsClosed_example : IsClosed plain (open_frame plain bob second).0
open_fails-IsClosed_example =
    open_fails-IsClosed plain bob second ChannelError.counter_mismatch open_second (λ h. cc)
      (λ h. cc)

abbrev pending : Side → PendingChannel
pending side = record {
  local_side = side;
  transcript_hash = [];
  local_finished = filled 64;
  peer_finished = filled 64;
  secrets = record {
    key_allocator_to_claimant = filled 32;
    key_claimant_to_allocator = filled 32;
    iv_allocator_to_claimant = filled 12;
    iv_claimant_to_allocator = filled 12;
    exporter = filled 32;
  };
}

pending_allocator : new_channel plain Side.allocator [] [] [] [] ≡ ok (pending Side.allocator)
unfolding new_channel finished expand calculate_transcript_hash
pending_allocator = refl

pending_claimant : new_channel plain Side.claimant [] [] [] [] ≡ ok (pending Side.claimant)
unfolding new_channel finished expand calculate_transcript_hash
pending_claimant = refl

confirm-new_channel_example :
    (s : SecureChannel) × (t : SecureChannel) × (confirm (pending Side.allocator) (filled 64)
      ≡ ok s)
    × (confirm (pending Side.claimant) (filled 64) ≡ ok t)
    × IsMirror s t
    × IsMirror t s
confirm-new_channel_example =
    confirm-new_channel plain [] [] [] [] (pending Side.allocator) (pending Side.claimant)
      plain-IsMac pending_allocator pending_claimant
