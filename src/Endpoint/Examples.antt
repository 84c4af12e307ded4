-- ===== src/Endpoint/Examples.antt =====
-- The theorems on src/endpoint.rs at a concrete claimant.
use cbcl_pairing.Common.{
  ◌≤◌, ◌≡◌, ◌≢◌, refl, octets_cmp, octets_ordered, [], ◌∷◌, some, true, err, panic,
}
use cbcl_pairing.Wire.{ChannelFrame, CloseReason, Decision, Side}
use cbcl_pairing.Protocol.{BootstrapPerformative}
use cbcl_pairing.Channel.Nonce.{derive_nonce}
use cbcl_pairing.Channel.Schedule.{activate, confirm, sealed_aad}
use cbcl_pairing.Channel.Seal.{
  decrypted, open_frame, open_sealed, open_under, seal, seal_under, sent,
}
use cbcl_pairing.Endpoint.{DecodedApplication, ReducerError, TerminalReason}
use cbcl_pairing.Endpoint.Finishing.{
  bootstrap_admitted, build_finished, finished_admitted, local_finished_frame, new,
}
use cbcl_pairing.Endpoint.Invitations.{spend}
use cbcl_pairing.Endpoint.Terminating.{
  admit_local_session, seal_control, sealed_by, session_admitted, terminate,
  validate_expected_role_keys,
}
use cbcl_pairing.Endpoint.Confirming.{
  confirmed, finished_allowed, finished_answered, receive_finished, session_opened,
}
use cbcl_pairing.Endpoint.Applying.{
  apply_application, apply_decision, apply_intent, decision_recorded, apply_payload,
  intent_recognised, payload_authorized, payload_recognised,
}
use cbcl_pairing.Endpoint.Retrying.{
  admit_application, application_admitted, retry_pending, retry_round, retry_rounds,
  session_answered, submit,
}
use cbcl_pairing.Endpoint.Receiving.{
  decode_application, opened_by, receive_application, receive_frame, receive_opener, receive_sealed,
  replay_noted, require_or_fail,
}
use cbcl_pairing.Endpoint.Sending.{
  cancel, decide, decide_live, decision_sent, first_decision, send_control,
}
use cbcl_pairing.Endpoint.Views.{grants}
use cbcl_pairing.Endpoint.Soundness.{IsOnce, IsSound}
use cbcl_pairing.Endpoint.Ended.{IsRefused, ended_refuses, endpoint_answers}
use cbcl_pairing.Endpoint.Reach.{
  Reachable, reducer-IsSound, Reachable-IsOnce, grant_needs_approval, received, created, finished,
  decided,
}
use cbcl_pairing.Endpoint.Standins.{
  filled, small_intent, small_payload, env, Reducer, bound_record, pending, started, frame_of,
}

-- The claimant confirms the channel, opens the session, shows the intent, approves it and gets the
-- payload.
abbrev confirmed_one : Reducer
confirmed_one =
    (receive_frame env (ChannelFrame.finished Side.allocator (7 ∷ []) (filled 5 64))
      (local_finished_frame env started).0).0

abbrev shown_one : Reducer
shown_one = (receive_frame env (frame_of 1) (receive_frame env (frame_of 0) confirmed_one).0).0

abbrev approved_one : Reducer
approved_one = (decide env Decision.approve shown_one).0

abbrev paid_one : Reducer
paid_one = (receive_frame env (frame_of 2) approved_one).0

-- What the calls of its caller released: one grant, after the approval.
history : Reachable env true 1 paid_one
unfolding local_finished_frame build_finished bootstrap_admitted finished_admitted
    validate_expected_role_keys receive_frame receive_finished confirmed finished_allowed
    finished_answered confirm activate spend receive_sealed opened_by require_or_fail receive_opener
    session_opened receive_application replay_noted decode_application admit_application submit
    session_answered application_admitted retry_pending retry_round retry_rounds apply_application
    apply_intent apply_payload intent_recognised payload_authorized payload_recognised open_frame
    open_sealed open_under decrypted sealed_aad derive_nonce decide decide_live first_decision
    decision_sent send_control admit_local_session session_admitted seal_control sealed_by seal
    seal_under sent octets_cmp new grants
history =
    received (frame_of 2)
      (decided Decision.approve
        (received (frame_of 1)
          (received (frame_of 0)
            (received (ChannelFrame.finished Side.allocator (7 ∷ []) (filled 5 64))
              (finished
                (created {s = started} Side.claimant (8 ∷ []) bound_record tt tt pending [] [] tt
                  refl)
                refl)
              refl)
            refl)
          refl)
        refl)
      refl

grant_needs_approval_example : (1 ≤ 1) × (1 ≤ 1 → (true ≡ true) × (paid_one.side ≡ Side.claimant))
grant_needs_approval_example = grant_needs_approval env history

reducer-IsSound_example : IsSound paid_one
reducer-IsSound_example = reducer-IsSound env history

Reachable-IsOnce_example : (1 ≤ paid_one.delivered_payloads) × IsOnce paid_one
Reachable-IsOnce_example = Reachable-IsOnce env history

ended_refuses_example :
    let ended = (cancel env started).0 in IsRefused ended (local_finished_frame env ended)
unfolding cancel terminate
ended_refuses_example =
    (ended_refuses env TerminalReason.cancelled (cancel env started).0 BootstrapPerformative.cpace_a
      [] [] (frame_of 0) small_intent Decision.approve small_payload CloseReason.expired refl).1

endpoint_answers_example : (receive_frame env (frame_of 0) paid_one).1 ≢ panic
endpoint_answers_example =
    (endpoint_answers env true 1 paid_one BootstrapPerformative.cpace_a [] [] (frame_of 0)
      small_intent Decision.approve small_payload CloseReason.expired history).7

-- An allocator with a decline and a further control that wait: the decline ends the endpoint, the
-- control after it finds no session, and the call fails.
abbrev declining : Reducer
declining = record started {
  side = Side.allocator;
  session = some tt;
  intent = some (record { digest = 9 ∷ []; control_hash = []; profile_binding = [] });
  pending_applications =
      record {
        plaintext = record { control = 1 ∷ []; body = some (1 ∷ []) };
        decoded =
            DecodedApplication.decision
              (record { intent_digest = 9 ∷ []; decision = Decision.decline });
      }
      ∷ record {
        plaintext = record { control = 2 ∷ []; body = some (2 ∷ []) };
        decoded = DecodedApplication.payload small_payload;
      }
      ∷ [];
}

declined_close_is_lost :
    ((retry_pending env declining).1 ≡ err ReducerError.phase)
    × ((retry_pending env declining).0.terminal ≡ some TerminalReason.declined)
unfolding retry_pending retry_rounds retry_round submit session_answered apply_application
    apply_decision decision_recorded terminate octets_cmp
declined_close_is_lost = (refl, refl)
