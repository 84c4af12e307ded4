-- ===== src/Relay/Examples/Deliveries.antt =====
-- The delivery of a body through the relay service of src/relay.rs, at a concrete service: two
-- connections share a mailbox, the first puts a body, and the second opens the mailbox.
use cbcl_pairing.Common.{
  ◌≡◌, ◌≢◌, ◌++◌, refl, Octets, true, [], ◌∷◌, some, octets_ordered, nat_ordered, pair_ordered,
  octets_cmp, lookup, insert, remove, has, set_insert, set_remove, ok, arith,
}
use cbcl_pairing.Wire.{ClientMessage, Locator}
use cbcl_pairing.Mailbox.{AdmissionSnapshot, Mailbox, MailboxStatus, MemberState, Membership}
use cbcl_pairing.Mailbox.Queue.{queue}
use cbcl_pairing.Mailbox.Claims as MailboxClaims
use cbcl_pairing.Mailbox.Step as MailboxStep
use cbcl_pairing.Mailbox.Allocate as MailboxAllocate
use cbcl_pairing.Limiter.{LimitDecision, Operation, index}
use cbcl_pairing.Limiter.Check.{
  sweep_if_due, check, check_dimension, check_new, check_known, admit, retry, take_recency,
  keep_swept, observe_time, sweep_at, sweep_inner, drop_all, drop_dimension, stale, is_stale,
  prune_all, evict_first,
}
use cbcl_pairing.Limiter.Check as LimiterCheck
use cbcl_pairing.Limiter.Admit.{attempt, count_attempt, prune_attempts, prune, start_cooldown}
use cbcl_pairing.Limiter.Peers.{peer_key}
use cbcl_pairing.Observability.{record_operation, set_gauges}
use cbcl_pairing.Relay.{RelayRandomness, RelayService}
use cbcl_pairing.Relay.Messages.{actor_outcome, claimed_expiry, operation}
use cbcl_pairing.Relay.Attaching.{attach, clear_membership, displace, join_connection, leave_route}
use cbcl_pairing.Relay.Committing.{
  account_stored, after_stored, commit, projected_queue_bytes, store_mailbox,
}
use cbcl_pairing.Mailbox.Frames.{put, put_new}
use cbcl_pairing.Relay.Allocating.{allocate, allocate_named, choose_nameplate, enrol, enrolled}
use cbcl_pairing.Relay.Claiming.{
  after_claim, claim, claim_resolved, claimed_or_closed, joined, resolve,
}
use cbcl_pairing.Relay.Members.{after_command, command_of, mailbox_command, member_command}
use cbcl_pairing.Relay.Handling.{
  answered, bind, dispatch, finish, handle, handle_checked, is_bound, refresh_gauges,
}
use cbcl_pairing.Relay.Delivering.{put_answer}
use cbcl_pairing.Relay.Arriving.{put_routed}
use cbcl_pairing.Relay.Offering.{framed, put_reaches}
use cbcl_pairing.Relay.Reach.{Reachable-IsSound, handled}
use cbcl_pairing.Mailbox.Sending.{stored_put}
use cbcl_pairing.Mailbox.Snapshot.{snapshot}
use cbcl_pairing.Storage.Record.{encode, sequence_value, sequence_values}
use cbcl_pairing.Storage.Store.{MemoryMailboxStore}
use cbcl_pairing.Relay.Soundness.{IsSound}
use cbcl_pairing.Relay.Examples.{
  allocated, allocated-Reachable, dice, env, env-IsTotal, env-LoadsValid,
}

abbrev dice_2 : RelayRandomness
dice_2 = record { mailbox_id = 8 ∷ []; membership_token = 7 ∷ []; nameplate = 43 }

abbrev bound_2 : RelayService (MemoryMailboxStore)
bound_2 = (handle env allocated 2 (8 ∷ []) 102 dice_2 ClientMessage.bind).0

abbrev paired : RelayService (MemoryMailboxStore)
paired =
    (handle env bound_2 2 (8 ∷ []) 103 dice_2 (ClientMessage.claim (Locator.direct (5 ∷ [])))).0

paired-IsSound : IsSound env.sha256 paired
paired-IsSound = Reachable-IsSound env [] env-IsTotal env-LoadsValid (
    handled 2 (8 ∷ []) 103 dice_2 (ClientMessage.claim (Locator.direct (5 ∷ [])))
      (handled 2 (8 ∷ []) 102 dice_2 ClientMessage.bind allocated-Reachable refl) refl)

abbrev newcomer : MemberState
newcomer = record { hash = 0 ∷ 7 ∷ []; next_seq = 0; frames = [] }

abbrev held : Mailbox
held = record {
  mailbox_id = 5 ∷ [];
  nameplate = some 42;
  expires_at = 701;
  status = MailboxStatus.paired;
  admission = AdmissionSnapshot.v1;
  allocator = record { hash = 0 ∷ 6 ∷ []; next_seq = 0; frames = [] };
  claimant = some newcomer;
  queue_bytes = 0;
}

abbrev body : Octets
body = 1 ∷ 2 ∷ []

abbrev put_body : ClientMessage
put_body = ClientMessage.put 0 body

paired_facts :
    (lookup (5 ∷ []) paired.mailboxes ≡ some held)
    × (lookup 1 paired.connections
        ≡ some (record {
          bound = true;
          membership = some (record { mailbox_id = 5 ∷ []; membership = Membership.allocator });
        }))
    × (is_bound (lookup 2 paired.connections) ≡ true)
    × (paired.queue_bytes ≡ 0)
    × (paired.config.capacity.queue_bytes ≡ 1000)
    × (lookup (5 ∷ [], 1) paired.routes ≡ some 2)
    × ((check env.peers paired.limiter Operation.put (9 ∷ []) 120).1 ≡ ok (LimitDecision.allowed 1))
    × ((check env.peers
          (handle env paired 1 (9 ∷ []) 120 dice put_body).0.limiter
          Operation.open_member
          (8 ∷ [])
          130).1
        ≡ ok (LimitDecision.allowed 1))
    × ((env.store.put paired.store
          (stored_put env.sha256 held Membership.allocator held.allocator body)).1
        ≡ ok tt)
    × ((env.store.put
          (handle env paired 1 (9 ∷ []) 120 dice put_body).0.store
          (stored_put env.sha256 held Membership.allocator held.allocator body)).1
        ≡ ok tt)
unfolding refresh_gauges set_gauges handle handle_checked answered dispatch bind finish
    record_operation allocate allocate_named choose_nameplate enrol enrolled attach leave_route
    displace join_connection clear_membership actor_outcome operation sweep_if_due check
    check_dimension check_new check_known admit retry take_recency keep_swept observe_time sweep_at
    sweep_inner drop_all drop_dimension stale is_stale prune_all evict_first peer_key
    MailboxAllocate.allocate lookup insert remove has set_insert set_remove attempt count_attempt
    prune_attempts prune start_cooldown LimiterCheck.sweep index octets_cmp claim claim_resolved
    resolve after_claim claimed_or_closed joined claimed_expiry commit store_mailbox after_stored
    account_stored MailboxStep.transition MailboxStep.dispatch MailboxClaims.claim member_command
    command_of after_command mailbox_command projected_queue_bytes put put_new encode
    sequence_values sequence_value snapshot
paired_facts = (refl, refl, refl, refl, refl, refl, refl, refl, refl, refl)

put_routed_example :
    let (t, result) = handle env paired 1 (9 ∷ []) 120 dice put_body in
    (result ≡ ok (put_answer 1 (lookup (5 ∷ [], 1) paired.routes) 0 body))
    × (n : Mailbox) × (lookup (5 ∷ []) t.mailboxes ≡ some n)
    × (queue n Membership.allocator ≡ queue held Membership.allocator ++ ((0, body) ∷ []))
    × (queue n Membership.claimant ≡ queue held Membership.claimant)
    × ((j : Octets) → j ≢ 5 ∷ [] → lookup j t.mailboxes ≡ lookup j paired.mailboxes)
put_routed_example =
    put_routed env paired 1 (9 ∷ []) 120 dice (5 ∷ []) Membership.allocator held held.allocator body
      1 paired_facts.8 paired-IsSound paired_facts.1 paired_facts.0 refl (omega arith) refl
      (omega arith) (omega arith) (omega arith) (omega (arith, paired_facts.3, paired_facts.4))
      (omega (arith, paired_facts.4)) paired_facts.6

put_reaches_example :
    (handle env
      (handle env paired 1 (9 ∷ []) 120 dice put_body).0
      2
      (8 ∷ [])
      130
      dice_2
      (ClientMessage.open_member (5 ∷ []) (7 ∷ []))).1
    ≡ ok (framed 2 (0, body) ∷ [])
put_reaches_example =
    put_reaches env env-IsTotal paired 1 (9 ∷ []) 120 dice (5 ∷ []) Membership.allocator held
      held.allocator body 1 paired_facts.8 paired-IsSound paired_facts.1 paired_facts.0 refl
      (omega arith) refl (omega arith) (omega arith) (omega arith)
      (omega (arith, paired_facts.3, paired_facts.4)) (omega (arith, paired_facts.4)) paired_facts.6
      newcomer 2 (8 ∷ []) 130 dice_2 (7 ∷ []) 1 paired_facts.9 refl paired_facts.2 (omega arith)
      refl paired_facts.7
