-- ===== src/Wire.antt =====
-- src/wire.rs: the recognised protocol values that the relay and the channel exchange. Their CBOR
-- encoding is not modelled here.
use cbcl_pairing.Common.{ℕ, Option, Octets, ◌++◌, ◌∷◌, ascii}

-- `ClaimToken([u8; 16])`.
abbrev pub ClaimToken : Type 0
ClaimToken = Octets

pub data CloseReason : Type 0 where
  closed crowded expired conflict : CloseReason

pub data Locator : Type 0 where
  direct : Octets → Locator
  nameplate : ℕ → Locator

pub data ClientMessage : Type 0 where
  bind : ClientMessage
  allocate : (locator_mode : ℕ) (ttl_seconds : Option ℕ) → ClientMessage
  claim : Locator → ClientMessage
  allocate_v2 : (mailbox_id claim_commitment : Octets) (ttl_seconds : Option ℕ) → ClientMessage
  claim_v2 : (mailbox_id : Octets) → ClaimToken → ClientMessage
  open_member : (mailbox_id membership_token : Octets) → ClientMessage
  put : (seq : ℕ) (body : Octets) → ClientMessage
  ack : (peer_seq : ℕ) → ClientMessage
  close ping : ClientMessage

pub data ServerMessage : Type 0 where
  welcome : ServerMessage
  allocated :
      (mailbox_id membership_token : Octets) (nameplate : Option ℕ) (expires_at : ℕ) → ServerMessage
  claimed : (mailbox_id membership_token : Octets) (expires_at : ℕ) → ServerMessage
  allocated_v2 : (mailbox_id membership_token : Octets) (expires_at : ℕ) → ServerMessage
  claimed_v2 : (mailbox_id membership_token : Octets) (expires_at : ℕ) → ServerMessage
  frame : (peer_seq : ℕ) (body : Octets) → ServerMessage
  acknowledged : (seq : ℕ) → ServerMessage
  closed : CloseReason → ServerMessage
  error : ℕ → ServerMessage
  pong : ServerMessage

pub data Side : Type 0 where
  allocator claimant : Side

pub data Direction : Type 0 where
  allocator_to_claimant claimant_to_allocator : Direction

pub data ChannelFrame : Type 0 where
  cpace : Side → Octets → Octets → ChannelFrame
  finished : Side → Octets → Octets → ChannelFrame
  sealed : Direction → ℕ → Octets → ChannelFrame

-- The hash is a third-party function, `sha2::Sha256`.
unfoldable pub claim_commitment : (Octets → Octets) → Octets → ClaimToken → Octets
claim_commitment sha256 mailbox_id claim_token =
    sha256 (ascii "cbcl-pairing claim-v2 commitment" ++ (0 ∷ (mailbox_id ++ claim_token)))

pub record Invitation : Type 0 where
  pub application : Octets
  pub relay_origin : Octets
  pub locator : Locator
  pub secret : Octets
  pub expected_allocator_key : Option Octets
  pub expected_claimant_key : Option Octets

pub record SealedPlaintext : Type 0 where
  pub control : Octets
  pub body : Option Octets

pub record PairingIntent : Type 0 where
  pub application : Octets
  pub action : Octets
  pub allocator_claim : Octets
  pub claimant_claim : Octets
  pub authority_summary : Octets
  pub intent_nonce : Octets

pub data Decision : Type 0 where
  approve decline : Decision

pub record PairingDecision : Type 0 where
  pub intent_digest : Octets
  pub decision : Decision

pub record ApplicationPayload : Type 0 where
  pub intent_digest : Octets
  pub payload_type : Octets
  pub body : Octets

-- The recognisers and the deterministic encoders, each of which may refuse.
pub record WireCodec : Type 0 where
  pub decode_invitation : Octets → Option Invitation
  pub decode_sealed_plaintext : Octets → Option SealedPlaintext
  pub decode_pairing_intent : Octets → Option PairingIntent
  pub decode_pairing_decision : Octets → Option PairingDecision
  pub decode_application_payload : Octets → Option ApplicationPayload
  pub encode_sealed_plaintext : SealedPlaintext → Option Octets
  pub encode_pairing_intent : PairingIntent → Option Octets
  pub encode_pairing_decision : PairingDecision → Option Octets
  pub encode_application_payload : ApplicationPayload → Option Octets
  pub encode_channel_frame : ChannelFrame → Option Octets
