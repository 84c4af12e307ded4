-- ===== src/Endpoint/Terminating.antt =====
-- src/endpoint.rs: `terminate`, `fail`, `ensure_live`, the ceremony keys of the roles, and sealing.
use cbcl_pairing.Common.{
  Octets, octets_ordered, ◌==◌, [], Option, none, some, Bool, true, false, not, ◌||◌, if◌then◌else◌,
  Outcome, ok, err, panic,
}
use cbcl_pairing.Wire.{ChannelFrame}
use cbcl_pairing.Protocol.{
  Admission, CeremonyKeyId, PairingRole, ProtocolVerdict, SessionPerformative,
}
use cbcl_pairing.Channel.{ChannelError, SecureChannel}
use cbcl_pairing.Channel.Seal.{seal}
use cbcl_pairing.Endpoint.{EndpointEnv, EndpointReducer, ReducerError, TerminalReason}
use cbcl_pairing.Endpoint.Actions.{Action, ◌>>=◌, require}
use cbcl_pairing.Endpoint.Invitations.{spend}

-- The key of a role, once a control of the role was admitted.
abbrev pub role_key_of :
    {B : Type 0}
    → (B → PairingRole → Option CeremonyKeyId)
    → Option B
    → PairingRole
    → Option CeremonyKeyId
role_key_of role_key none role = none
role_key_of role_key (some b) role = role_key b role

-- The digest of an actual key is not the expected one; a key that is not there yet is no mismatch.
abbrev wrong_digest : (Octets → Octets) → Option Octets → Octets → Bool
wrong_digest sha256 none expected = true
wrong_digest sha256 (some bytes) expected = not (sha256 bytes == expected)

abbrev wrong_key :
    (Octets → Octets)
    → (CeremonyKeyId → Option Octets)
    → Option Octets
    → Option CeremonyKeyId
    → Bool
wrong_key sha256 public_key_bytes none actual = false
wrong_key sha256 public_key_bytes (some expected) none = false
wrong_key sha256 public_key_bytes (some expected) (some actual) =
    wrong_digest sha256 (public_key_bytes actual) expected

module _ {B S K P : Type 0} where
  unfoldable pub terminate : TerminalReason → EndpointReducer B S K P → EndpointReducer B S K P
  unfolding spend
  terminate reason s = record s {
    terminal = some reason;
    invitation = spend s.invitation;
    ceremony_key = none;
    pending_channel = none;
    channel = none;
    bootstrap = none;
    session = none;
    local_finished = none;
    pending_finished = none;
    pending_applications = [];
    intent = none;
    decision = none;
    payload_control_hash = none;
    outbound_payload_sent = false;
  }

  abbrev pub fail :
      {A : Type 0} → TerminalReason → ReducerError → Action (EndpointReducer B S K P) A
  fail reason error s = (terminate reason s, err error)

  abbrev pub ensure_live : Action (EndpointReducer B S K P) (Unit {0})
  ensure_live s = elim s.terminal [
    | none ↦ (s, ok tt)
    | some reason ↦ (s, err ReducerError.terminal)
  ]

  module _ (env : EndpointEnv B S K P) where
    abbrev pub role_key : PairingRole → Action (EndpointReducer B S K P) CeremonyKeyId
    role_key role s =
        require (role_key_of env.monitors.role_key s.bootstrap role) ReducerError.phase s

    abbrev pub has_wrong_key : EndpointReducer B S K P → Option Octets → PairingRole → Bool
    has_wrong_key s expected role =
        wrong_key env.sha256 env.monitors.public_key_bytes expected
          (role_key_of env.monitors.role_key s.bootstrap role)

    unfoldable pub validate_expected_role_keys : Action (EndpointReducer B S K P) (Unit {0})
    validate_expected_role_keys s =
        if has_wrong_key s s.expected_role_keys.0 PairingRole.allocator
          || has_wrong_key s s.expected_role_keys.1 PairingRole.claimant
        then fail TerminalReason.protocol_violation ReducerError.protocol s
        else (s, ok tt)

    -- The channel after `seal`, with its result.
    unfoldable pub sealed_by :
        SecureChannel × Outcome ChannelError ChannelFrame
        → Action (EndpointReducer B S K P) ChannelFrame
    sealed_by (channel, ok frame) s = (record s { channel = some channel }, ok frame)
    sealed_by (channel, err e) s =
        fail TerminalReason.channel ReducerError.channel (record s { channel = some channel })
    sealed_by (channel, panic) s = (record s { channel = some channel }, panic)

    unfoldable pub seal_control :
        Octets → Option Octets → Action (EndpointReducer B S K P) ChannelFrame
    unfolding sealed_by
    seal_control control body s =
        (do
          plaintext ←
              require (env.wire.encode_sealed_plaintext (record { control = control; body = body }))
                ReducerError.recognition
          channel ← require s.channel ReducerError.phase
          sealed_by (seal env.crypto channel plaintext))
          s

    -- A session control of this endpoint must be valid at once.
    unfoldable pub session_admitted : S × Option Admission → Action (EndpointReducer B S K P) Octets
    session_admitted (session, none) s =
        (record s { session = some session }, err ReducerError.protocol)
    session_admitted (session, some admission) s = elim admission.verdict [
      | ProtocolVerdict.valid ↦ (record s { session = some session }, ok admission.content_hash)
      | _ ↦
          fail TerminalReason.protocol_violation ReducerError.protocol
            (record s { session = some session })
    ]

    unfoldable pub admit_local_session :
        SessionPerformative → Octets → Octets → Action (EndpointReducer B S K P) Octets
    unfolding session_admitted
    admit_local_session performative control body s =
        (do
          session ← require s.session ReducerError.phase
          session_admitted (env.monitors.admit_session session performative control body))
          s
