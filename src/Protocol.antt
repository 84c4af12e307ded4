-- ===== src/Protocol.antt =====
-- src/cbcl_protocol.rs: the roles, the performatives and the verdicts, and the interface of the
-- monitors and of the builders of controls, which rest on the third-party CBCL engine.
use cbcl_pairing.Common.{Octets, List, Option}

pub data PairingRole : Type 0 where
  allocator claimant : PairingRole

pub data BootstrapPerformative : Type 0 where
  cpace_a cpace_b finished_a finished_b : BootstrapPerformative

pub data SessionPerformative : Type 0 where
  intent approve decline payload : SessionPerformative

pub data ProtocolVerdict : Type 0 where
  valid unknown violation : ProtocolVerdict

-- `CeremonyKeyId(String)`
abbrev pub CeremonyKeyId : Type 0
CeremonyKeyId = Octets

pub record Admission : Type 0 where
  pub verdict : ProtocolVerdict
  pub content_hash : Octets
  pub signer : CeremonyKeyId

-- `BootstrapMonitor` is `B`, `SessionMonitor` is `S` and `CeremonySigningKey` is `K`. A method that
-- takes `&mut self` returns the monitor beside its result; every error is `none`. What a control is
-- caused by is a list of content hashes.
pub record Monitors (B S K : Type 0) : Type 0 where
  pub ceremony_id : Octets → Octets
  pub admit_bootstrap : B → BootstrapPerformative → Octets → Octets → B × Option Admission
  pub role_key : B → PairingRole → Option CeremonyKeyId
  pub public_key_bytes : CeremonyKeyId → Option Octets
  pub open_for_ceremony :
      Octets → PairingRole → CeremonyKeyId → CeremonyKeyId → Octets → Option (S × Admission)
  pub admit_session : S → SessionPerformative → Octets → Octets → S × Option Admission
  pub root_hash : S → Octets
  pub build_bootstrap_control :
      K → BootstrapPerformative → Octets → Octets → List Octets → Option Octets
  pub build_session_control :
      K → SessionPerformative → Octets → CeremonyKeyId → Octets → Octets → Option Octets
  pub build_session_opener : K → CeremonyKeyId → Octets → Option Octets
