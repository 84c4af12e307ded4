-- ===== src/Profile.antt =====
-- src/profile.rs: the values that a profile and an endpoint exchange, and the trait
-- `ApplicationProfile`. The profiles themselves are not modelled.
use cbcl_pairing.Common.{Bool, Octets, List, Option}
use cbcl_pairing.Wire.{Invitation, PairingIntent, ApplicationPayload}

pub record DisplayField : Type 0 where
  pub label : Octets
  pub value : Octets
  pub claimed_by_secret_holder : Bool

pub record DisplayIntent : Type 0 where
  pub application : Octets
  pub action : Octets
  pub authority_summary : Octets
  pub fields : List DisplayField

-- `ProfileBinding([u8; 32])`
abbrev pub ProfileBinding : Type 0
ProfileBinding = Octets

-- `into_parts` is the pair of both.
pub record ProfileIntent : Type 0 where
  pub display : DisplayIntent
  pub binding : ProfileBinding

pub record RecognisedPayload : Type 0 where
  pub application : Octets
  pub payload_type : Octets
  pub body : Octets

pub record AuthorisedGrant : Type 0 where
  pub application : Octets
  pub payload_type : Octets
  pub body : Octets

-- The trait, over the state `P` of what implements it. Its errors are all treated alike.
pub record ApplicationProfile (P : Type 0) : Type 0 where
  pub recognise_invitation : P → Invitation → Bool
  pub recognise_intent : P → PairingIntent → P × Option ProfileIntent
  pub recognise_payload : P → ProfileBinding → ApplicationPayload → Option RecognisedPayload
  pub authorize_payload : P → RecognisedPayload → P × Option AuthorisedGrant
