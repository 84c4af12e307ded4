-- ===== src/Endpoint/Standins.antt =====
-- A concrete endpoint of src/endpoint.rs: stand-ins for the monitors, the profile, the recognisers
-- and the cryptography, and a claimant that has started.
use cbcl_pairing.Common.{
  ℕ, zero, suc, Octets, octets_ordered, [], ◌∷◌, none, some, Bool, true, false, if◌then◌else◌,
  nat_beq,
}
use cbcl_pairing.Wire.{
  ApplicationPayload, ChannelFrame, Direction, Locator, PairingIntent, Side, WireCodec,
}
use cbcl_pairing.Profile.{ApplicationProfile}
use cbcl_pairing.Protocol.{Admission, Monitors, ProtocolVerdict}
use cbcl_pairing.Channel.{PendingChannel}
use cbcl_pairing.Channel.Schedule.{Crypto}
use cbcl_pairing.Endpoint.{EndpointEnv, EndpointReducer, InvitationRecord, InvitationStatus}
use cbcl_pairing.Endpoint.Finishing.{fresh}

abbrev pub filled : ℕ → ℕ → Octets
filled b zero = []
filled b (suc n) = b ∷ filled b n

-- Every control is valid; its hash is the control.
abbrev pub valid : Octets → Admission
valid control = record { verdict = ProtocolVerdict.valid; content_hash = control; signer = [] }

abbrev pub open_monitors : Monitors (Unit {0}) (Unit {0}) (Unit {0})
open_monitors = record {
  ceremony_id = λ invitation. invitation;
  admit_bootstrap = λ b p control body. (tt, some (valid control));
  role_key = λ b role. some [];
  public_key_bytes = λ key. some key;
  open_for_ceremony = λ ceremony role allocator claimant opener. some (tt, valid opener);
  admit_session = λ m p control body. (tt, some (valid control));
  root_hash = λ m. [];
  build_bootstrap_control = λ key p ceremony body causes. some [];
  build_session_control = λ key p ceremony peer body cause. some (4 ∷ []);
  build_session_opener = λ key peer ceremony. some (1 ∷ []);
}

abbrev pub open_profile : ApplicationProfile (Unit {0})
open_profile = record {
  recognise_invitation = λ p invitation. true;
  recognise_intent = λ p value. (
    tt,
    some (record {
      display = record { application = []; action = []; authority_summary = []; fields = [] };
      binding = [];
    }),
  );
  recognise_payload =
      λ p binding payload. some (record { application = []; payload_type = []; body = [] });
  authorize_payload =
      λ p payload. (tt, some (record { application = []; payload_type = []; body = [] }));
}

-- The first octet says which value it is.
abbrev pub first_is : ℕ → Octets → Bool
first_is n [] = false
first_is n (b ∷ rest) = nat_beq b n

abbrev pub small_intent : PairingIntent
small_intent = record {
  application = [];
  action = [];
  allocator_claim = [];
  claimant_claim = [];
  authority_summary = [];
  intent_nonce = [];
}

abbrev pub small_payload : ApplicationPayload
small_payload = record { intent_digest = 9 ∷ []; payload_type = []; body = [] }

abbrev pub open_wire : WireCodec
open_wire = record {
  decode_invitation = λ b. some (record {
    application = [];
    relay_origin = [];
    locator = Locator.nameplate 0;
    secret = [];
    expected_allocator_key = none;
    expected_claimant_key = none;
  });
  decode_sealed_plaintext = λ b.
      if first_is 1 b
      then some (record { control = 1 ∷ []; body = none })
      else some (record { control = b; body = some b });
  decode_pairing_intent = λ b. if first_is 2 b then some small_intent else none;
  decode_pairing_decision = λ b. none;
  decode_application_payload = λ b. if first_is 3 b then some small_payload else none;
  encode_sealed_plaintext = λ p. some (4 ∷ []);
  encode_pairing_intent = λ v. some (9 ∷ []);
  encode_pairing_decision = λ v. some (5 ∷ []);
  encode_application_payload = λ v. some (6 ∷ []);
  encode_channel_frame = λ f. some (7 ∷ []);
}

abbrev pub open_crypto : Crypto
open_crypto = record {
  to_canonical_vec = λ v. some [];
  sha512 = λ b. b;
  hkdf_expand = λ key info n. some [];
  hmac_sha512 = λ key b. some [];
  takes_key = λ key. true;
  encrypt = λ key nonce plaintext aad. some plaintext;
  decrypt = λ key nonce ciphertext aad. some ciphertext;
}

abbrev pub env : EndpointEnv (Unit {0}) (Unit {0}) (Unit {0}) (Unit {0})
env = record {
  monitors = open_monitors;
  profile = open_profile;
  wire = open_wire;
  crypto = open_crypto;
  sha256 = λ b. b;
}

abbrev pub Reducer : Type 0
Reducer = EndpointReducer (Unit {0}) (Unit {0}) (Unit {0}) (Unit {0})

abbrev pub bound_record : InvitationRecord
bound_record = record {
  invitation_digest = 8 ∷ [];
  status = InvitationStatus.bound;
  binding = some (filled 2 32);
}

abbrev pub pending : PendingChannel
pending = record {
  local_side = Side.claimant;
  transcript_hash = [];
  local_finished = filled 6 64;
  peer_finished = filled 5 64;
  secrets = record {
    key_allocator_to_claimant = [];
    key_claimant_to_allocator = [];
    iv_allocator_to_claimant = [];
    iv_claimant_to_allocator = [];
    exporter = [];
  };
}

abbrev pub started : Reducer
started =
    fresh env Side.claimant (8 ∷ [])
      (record {
        application = [];
        relay_origin = [];
        locator = Locator.nameplate 0;
        secret = [];
        expected_allocator_key = none;
        expected_claimant_key = none;
      })
      bound_record tt tt pending [] [] tt

abbrev pub frame_of : ℕ → ChannelFrame
frame_of n = ChannelFrame.sealed Direction.allocator_to_claimant n (filled (suc n) 17)
