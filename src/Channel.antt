-- ===== src/Channel.antt =====
-- src/channel.rs: the state of the confirmed channel between two endpoints. The operations are in
-- the modules below.
pub mod Nonce
pub mod Schedule
pub mod Seal
pub mod Results
pub mod Distinct
pub mod Sealing
pub mod History
pub mod Delivery
pub mod Opening
pub mod Confirming
mod Examples
use cbcl_pairing.Common.{ℕ, Octets, Option, Bool}
use cbcl_pairing.Wire.{Side}

abbrev pub max_sealed_plaintext : ℕ
max_sealed_plaintext = 69556

pub data ChannelError : Type 0 where
  finished_mismatch direction_mismatch counter_mismatch invalid_tag message_size counter_exhausted
        terminal unexpected_frame encoding key_schedule encryption invalid_context :
      ChannelError

pub record PendingSecrets : Type 0 where
  pub key_allocator_to_claimant : Octets
  pub key_claimant_to_allocator : Octets
  pub iv_allocator_to_claimant : Octets
  pub iv_claimant_to_allocator : Octets
  pub exporter : Octets

pub record PendingChannel : Type 0 where
  pub local_side : Side
  pub transcript_hash : Octets
  pub local_finished : Octets
  pub peer_finished : Octets
  pub secrets : PendingSecrets

pub record SecureChannel : Type 0 where
  pub local_side : Side
  pub transcript_hash : Octets
  pub send_key : Octets
  pub receive_key : Octets
  pub send_iv : Octets
  pub receive_iv : Octets
  pub exporter : Octets
  pub next_send_counter : Option ℕ
  pub next_receive_counter : Option ℕ
  pub is_terminal : Bool
