-- ===== src/Endpoint/Accepting.antt =====
-- src/endpoint.rs: `receive_frame` keeps the invariant and releases a grant only with consent.
use cbcl_pairing.Common.{
  ◌≡◌, inl, inr, refl, Octets, [], Option, none, some, is_some, not, ◌||◌, ◌&&◌, true, Outcome, ok,
  err, panic, arith,
}
use cbcl_pairing.Wire.{ChannelFrame, SealedPlaintext, Side}
use cbcl_pairing.Protocol.{PairingRole}
use cbcl_pairing.Channel.{ChannelError, SecureChannel}
use cbcl_pairing.Channel.Seal.{open_frame}
use cbcl_pairing.Channel.Results.{IsResult, open_frame-IsResult}
use cbcl_pairing.Endpoint.{EndpointEnv, EndpointReducer, ReducerError, TerminalReason}
use cbcl_pairing.Endpoint.Terminating.{ensure_live, role_key_of}
use cbcl_pairing.Endpoint.Finishing.{same_side}
use cbcl_pairing.Endpoint.Confirming.{session_opened}
use cbcl_pairing.Endpoint.Receiving.{
  channel_frame_digest, decode_application, dispatched, is_declined, opened_by, receive_application,
  receive_frame, receive_opener, receive_sealed, replay_noted, require_or_fail, same_digest,
}
use cbcl_pairing.Endpoint.Views.{Steps-refl, grants, silent}
use cbcl_pairing.Endpoint.Soundness.{IsLive, IsLive-IsOnce, IsSound, Runs, IsEnded-as}
use cbcl_pairing.Endpoint.Keeping.{
  Runs-after, Runs-bind, Runs-chain, Runs-fail, Runs-if, Runs-match, Runs-need, Runs-ok, Runs-quiet,
  Runs-IsSound, Runs-still,
}
use cbcl_pairing.Endpoint.Opening.{ensure_live-Runs, replaced-IsLive, replaced-Steps}
use cbcl_pairing.Endpoint.Establishing.{receive_finished-Runs, session_opened-Runs}
use cbcl_pairing.Endpoint.Retaining.{admit_application-Runs}

module _ {B S K P : Type 0} (env : EndpointEnv B S K P) where
  opened_by-Runs :
      (r : SecureChannel × Outcome ChannelError Octets) (s : EndpointReducer B S K P)
      → IsResult r
      → is_some s.channel ≡ true
      → IsLive s
      → Runs IsLive silent s (opened_by env r s)
  unfolding opened_by
  opened_by-Runs (c, ok bytes) s d e h =
      let t : EndpointReducer B S K P = record s { channel = some c } in
      Runs-after s t _ (replaced-Steps c s) (Runs-ok t (replaced-IsLive c s e h))
  opened_by-Runs (c, err x) s d e h =
      let t : EndpointReducer B S K P = record s { channel = some c } in
      Runs-after s t _ (replaced-Steps c s) (Runs-fail _ _ t (IsLive-IsOnce s h))
  opened_by-Runs (c, panic) s d e h = elim d.answered [ ]

  require_or_fail-Runs :
      {A : Type 0} (o : Option A) (reason : TerminalReason) (e : ReducerError)
      (s : EndpointReducer B S K P)
      → IsLive s
      → Runs IsLive silent s (require_or_fail env o reason e s)
  unfolding require_or_fail
  require_or_fail-Runs none reason e s h = Runs-fail _ _ s (IsLive-IsOnce s h)
  require_or_fail-Runs (some a) reason e s h = Runs-ok s h

  receive_opener-Runs :
      (plaintext : SealedPlaintext) (s : EndpointReducer B S K P)
      → IsLive s
      → Runs IsLive grants s (receive_opener env plaintext s)
  unfolding receive_opener grants
  receive_opener-Runs plaintext s h =
      Runs-if (not (same_side s.side Side.claimant) || is_some plaintext.body)
        (λ _. Runs-fail _ _ s (IsLive-IsOnce s h))
        λ _.
          Runs-need (role_key_of env.monitors.role_key s.bootstrap PairingRole.allocator) _ _ h
            λ a _.
              Runs-need (role_key_of env.monitors.role_key s.bootstrap PairingRole.claimant) _ _ h
                λ c _.
                  Runs-bind
                    (require_or_fail env
                      (env.monitors.open_for_ceremony s.ceremony PairingRole.claimant a c
                        plaintext.control)
                      TerminalReason.protocol_violation ReducerError.protocol s)
                    (require_or_fail-Runs _ _ _ s h)
                    λ opened t ht _.
                      Runs-bind (session_opened env opened t) (session_opened-Runs env opened t ht)
                        λ _ u hu _. Runs-quiet [] u refl hu

  receive_application-Runs :
      (plaintext : SealedPlaintext) (s : EndpointReducer B S K P)
      → IsLive s
      → Runs IsSound grants s (receive_application env plaintext s)
  unfolding receive_application
  receive_application-Runs plaintext s h =
      Runs-bind
        (require_or_fail env plaintext.body TerminalReason.malformed ReducerError.recognition s)
        (require_or_fail-Runs _ _ _ s h)
        λ body t ht _.
          Runs-bind
            (require_or_fail env (decode_application env.wire body) TerminalReason.malformed
              ReducerError.recognition t)
            (require_or_fail-Runs _ _ _ t ht)
            λ decoded u hu _. admit_application-Runs env plaintext decoded u hu

  noted-IsSound :
      (d : Octets) (s : EndpointReducer B S K P)
      → IsSound s
      → IsSound (record s { terminal_replay_frame_digest = some d })
  noted-IsSound d s (inl h) = inl h
  noted-IsSound d s (inr h) =
      inr (IsEnded-as s.pending_applications (some d) s h.erased.pending_applications h)

  replay_noted-Runs :
      (d : Octets) (s : EndpointReducer B S K P)
      → IsSound s
      → Runs IsSound silent s (replay_noted env d s)
  unfolding replay_noted
  replay_noted-Runs d s h =
      Runs-if (is_declined s.terminal) (λ _. record { ran = (noted-IsSound d s h, Steps-refl _) })
        (λ _. record { ran = (h, Steps-refl _) })

  receive_sealed-Runs :
      (frame : ChannelFrame) (s : EndpointReducer B S K P)
      → IsLive s
      → Runs IsSound grants s (receive_sealed env frame s)
  unfolding receive_sealed
  receive_sealed-Runs frame s h = Runs-need (channel_frame_digest env frame) _ _ h λ d _.
      Runs-need s.channel _ _ h λ c e.
        Runs-bind (opened_by env (open_frame env.crypto c frame) s)
          (opened_by-Runs _ s (open_frame-IsResult env.crypto c frame) (ground (arith, e)) h)
          λ bytes t ht _.
            Runs-bind
              (require_or_fail env (env.wire.decode_sealed_plaintext bytes) TerminalReason.malformed
                ReducerError.recognition t)
              (require_or_fail-Runs _ _ _ t ht)
              λ plaintext u hu _.
                Runs-match u.session (λ _. Runs-IsSound u _ (receive_opener-Runs plaintext u hu))
                  λ m _.
                    Runs-chain (receive_application env plaintext u)
                      (receive_application-Runs plaintext u hu)
                      λ effects v hv sv.
                        Runs-chain (replay_noted env d v)
                          (Runs-still _ sv (replay_noted-Runs d v hv))
                          λ _ w hw sw. record { ran = (hw, sw) }

  dispatched-Runs :
      (frame : ChannelFrame) (s : EndpointReducer B S K P)
      → IsLive s
      → Runs IsSound grants s (dispatched env frame s)
  dispatched-Runs (ChannelFrame.finished side control value) s h =
      Runs-IsSound s _ (receive_finished-Runs env side control value s h)
  dispatched-Runs (ChannelFrame.sealed d n c) s h =
      receive_sealed-Runs (ChannelFrame.sealed d n c) s h
  dispatched-Runs (ChannelFrame.cpace side a b) s h = Runs-fail _ _ s (IsLive-IsOnce s h)

  pub receive_frame-Runs :
      (frame : ChannelFrame) (s : EndpointReducer B S K P)
      → IsSound s
      → Runs IsSound grants s (receive_frame env frame s)
  unfolding receive_frame grants
  receive_frame-Runs frame s h =
      Runs-match s.terminal
        (λ _.
          Runs-bind (ensure_live s) (ensure_live-Runs s h) λ _ t ht _. dispatched-Runs frame t ht)
        (λ reason e.
          Runs-if
            (is_declined (some reason)
              && same_digest s.terminal_replay_frame_digest (channel_frame_digest env frame))
            (λ _. record { ran = (h, Steps-refl _) })
            (λ _. record { ran = (h, (0, Steps-refl _)) }))
