-- ===== src/Endpoint/Receiving.antt =====
-- src/endpoint.rs: `receive_frame` and the sealed frames.
use cbcl_pairing.Common.{
  Octets, octets_ordered, ◌==◌, List, [], Option, none, some, is_some, Bool, true, false, not, ◌||◌,
  ◌&&◌, if◌then◌else◌, Outcome, ok, err, panic,
}
use cbcl_pairing.Wire.{ChannelFrame, SealedPlaintext, Side, WireCodec}
use cbcl_pairing.Protocol.{PairingRole}
use cbcl_pairing.Channel.{ChannelError, SecureChannel}
use cbcl_pairing.Channel.Seal.{open_frame}
use cbcl_pairing.Endpoint.{
  DecodedApplication, EndpointEffect, EndpointEnv, EndpointReducer, ReducerError, TerminalReason,
}
use cbcl_pairing.Endpoint.Actions.{Action, ◌>>=◌, ◌>>◌, pure, require}
use cbcl_pairing.Endpoint.Terminating.{ensure_live, fail, role_key, terminate}
use cbcl_pairing.Endpoint.Finishing.{same_side}
use cbcl_pairing.Endpoint.Confirming.{receive_finished, session_opened}
use cbcl_pairing.Endpoint.Retrying.{admit_application}

unfoldable pub decode_application : WireCodec → Octets → Option DecodedApplication
decode_application wire body = elim (wire.decode_pairing_intent body) [
  | some value ↦ some (DecodedApplication.intent value)
  | none ↦ elim (wire.decode_pairing_decision body) [
    | some value ↦ some (DecodedApplication.decision value)
    | none ↦ elim (wire.decode_application_payload body) [
      | some value ↦ some (DecodedApplication.payload value)
      | none ↦ none
    ]
  ]
]

-- Equality of digests that may be missing.
abbrev pub same_digest : Option Octets → Option Octets → Bool
same_digest none none = true
same_digest (some a) (some b) = a == b
same_digest _ _ = false

abbrev pub is_declined : Option TerminalReason → Bool
is_declined (some TerminalReason.declined) = true
is_declined _ = false

module _ {B S K P : Type 0} (env : EndpointEnv B S K P) where
  abbrev pub channel_frame_digest : ChannelFrame → Option Octets
  channel_frame_digest frame = elim (env.wire.encode_channel_frame frame) [
    | none ↦ none
    | some encoded ↦ some (env.sha256 encoded)
  ]

  -- The channel after `open`, with its result.
  unfoldable pub opened_by :
      SecureChannel × Outcome ChannelError Octets → Action (EndpointReducer B S K P) Octets
  unfolding terminate
  opened_by (channel, ok plaintext) s = (record s { channel = some channel }, ok plaintext)
  opened_by (channel, err e) s =
      fail TerminalReason.channel ReducerError.channel (record s { channel = some channel })
  opened_by (channel, panic) s = (record s { channel = some channel }, panic)

  -- `None` and every error end the endpoint.
  unfoldable pub require_or_fail :
      {A : Type 0} → Option A → TerminalReason → ReducerError → Action (EndpointReducer B S K P) A
  unfolding terminate
  require_or_fail none reason error s = fail reason error s
  require_or_fail (some a) reason error s = (s, ok a)

  unfoldable pub receive_opener :
      SealedPlaintext → Action (EndpointReducer B S K P) (List EndpointEffect)
  unfolding terminate require_or_fail session_opened
  receive_opener plaintext s =
      if not (same_side s.side Side.claimant) || is_some plaintext.body
      then fail TerminalReason.protocol_violation ReducerError.protocol s
      else (do
        allocator ← role_key env PairingRole.allocator
        claimant ← role_key env PairingRole.claimant
        opened ← λ s.
            require_or_fail
              (env.monitors.open_for_ceremony s.ceremony PairingRole.claimant allocator claimant
                plaintext.control)
              TerminalReason.protocol_violation ReducerError.protocol s
        session_opened env opened
        pure [])
          s

  unfoldable pub receive_application :
      SealedPlaintext → Action (EndpointReducer B S K P) (List EndpointEffect)
  unfolding require_or_fail admit_application
  receive_application plaintext = do
    body ← require_or_fail plaintext.body TerminalReason.malformed ReducerError.recognition
    decoded ←
        require_or_fail (decode_application env.wire body) TerminalReason.malformed
          ReducerError.recognition
    admit_application env plaintext decoded

  -- A decline is recorded with the frame that carried it.
  unfoldable pub replay_noted : Octets → Action (EndpointReducer B S K P) (Unit {0})
  replay_noted frame_digest s =
      if is_declined s.terminal
      then (record s { terminal_replay_frame_digest = some frame_digest }, ok tt)
      else (s, ok tt)

  unfoldable pub receive_sealed :
      ChannelFrame → Action (EndpointReducer B S K P) (List EndpointEffect)
  unfolding opened_by require_or_fail receive_opener receive_application replay_noted
  receive_sealed frame = do
    frame_digest ← require (channel_frame_digest frame) ReducerError.recognition
    channel ← λ s. require s.channel ReducerError.phase s
    bytes ← opened_by (open_frame env.crypto channel frame)
    plaintext ←
        require_or_fail (env.wire.decode_sealed_plaintext bytes) TerminalReason.malformed
          ReducerError.recognition
    λ s. elim s.session [
      | none ↦ receive_opener plaintext s
      | some session ↦
          (do effects ← receive_application plaintext; replay_noted frame_digest; pure effects) s
    ]

  abbrev pub dispatched : ChannelFrame → Action (EndpointReducer B S K P) (List EndpointEffect)
  dispatched (ChannelFrame.finished side control value) s =
      receive_finished env side control value s
  dispatched (ChannelFrame.sealed direction counter ciphertext) s =
      receive_sealed (ChannelFrame.sealed direction counter ciphertext) s
  dispatched (ChannelFrame.cpace side control body) s =
      fail TerminalReason.protocol_violation ReducerError.phase s

  -- A frame that ended the endpoint by a decline may come again.
  unfoldable pub receive_frame :
      ChannelFrame → Action (EndpointReducer B S K P) (List EndpointEffect)
  unfolding terminate receive_finished receive_sealed
  receive_frame frame s = elim s.terminal [
    | some reason ↦
        if is_declined (some reason)
          && same_digest s.terminal_replay_frame_digest (channel_frame_digest frame)
        then (s, ok [])
        else (s, err ReducerError.terminal)
    | none ↦ (ensure_live >> dispatched frame) s
  ]
