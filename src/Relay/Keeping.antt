-- ===== src/Relay/Keeping.antt =====
-- src/relay.rs: committing, allocating and the commands of the members keep the service sound.
use cbcl_pairing.Common.{
  ℕ, ◌-◌, ◌≤◌, saturating_add, Octets, octets_ordered, nat_ordered, pair_ordered, ◌≡◌,
  length-insert, refl, subst, ◌∙◌, Safe, Returns, ◌≢◌, Option, none, some, Option-cases, inl, inr,
  lookup, checked_sub, Outcome, ok, err, panic, arith,
}
use cbcl_pairing.Wire.{CloseReason}
use cbcl_pairing.Mailbox.{Mailbox, MailboxCommand, MailboxTransition, Membership}
use cbcl_pairing.Mailbox.Terminal.{Attempt, reap, terminate}
use cbcl_pairing.Mailbox.Step.{dispatch, transition}
use cbcl_pairing.Mailbox.Claims.{claim, claim_v2, close, open_member}
use cbcl_pairing.Mailbox.Frames.{ack, acknowledged}
use cbcl_pairing.Mailbox.Drain.{delete_bodies_lem, terminate_lem}
use cbcl_pairing.Mailbox.Invariant.{IsValid}
use cbcl_pairing.Mailbox.Safety.Step.{transition-IsSafe}
use cbcl_pairing.Mailbox.Identity.{IsSame, transition-IsSame}
use cbcl_pairing.Storage.{StoreError}
use cbcl_pairing.Relay.{RelayEnv, RelayService}
use cbcl_pairing.Relay.Committing.{
  account_stored, after_stored, bytes_of, commit, exchanged, store_mailbox,
}
use cbcl_pairing.Relay.Accounting.{replace-IsAccounted, total-remove}
use cbcl_pairing.Relay.Naming.{replace-IsNamed}
use cbcl_pairing.Relay.Soundness.{IsSound, IsTotal, Keeps, remove_mailbox-Keeps}

-- A command that puts nothing into a queue.
abbrev pub IsCalm : MailboxCommand → Type 0
IsCalm (MailboxCommand.put sender seq body) = ⊥
IsCalm _ = Unit

-- A result with no more bytes queued than the mailbox has.
abbrev pub Calms : Mailbox → Attempt → Type 0
Calms m = Returns (λ t. bytes_of t.state ≤ m.queue_bytes)

terminate-Calms :
    (m : Mailbox) (r : CloseReason) (sha256 : Octets → Octets)
    → IsValid sha256 m
    → Calms m (terminate m r)
terminate-Calms m r sha256 v = rw (terminate_lem m r v.accounted) (ground arith)

reap-Calms :
    (m : Mailbox) (now : ℕ) (sha256 : Octets → Octets) → IsValid sha256 m → Calms m (reap m now)
unfolding reap
reap-Calms m now sha256 v = ground (arith, delete_bodies_lem m v.accounted)

dispatch-Calms :
    (sha256 : Octets → Octets) (m : Mailbox) (c : MailboxCommand)
    → IsCalm c
    → IsValid sha256 m
    → Calms m (dispatch sha256 m c)
unfolding dispatch claim claim_v2 open_member close ack acknowledged
dispatch-Calms sha256 m (MailboxCommand.claim hash) q v =
    ground (arith, terminate-Calms m CloseReason.crowded sha256 v)
dispatch-Calms sha256 m (MailboxCommand.claim_v2 hash token) q v = ground arith
dispatch-Calms sha256 m (MailboxCommand.open_member hash) q v = ground arith
dispatch-Calms sha256 m (MailboxCommand.put sender seq body) q v = elim q [ ]
dispatch-Calms sha256 m (MailboxCommand.ack Membership.allocator seq) q v = ground arith
dispatch-Calms sha256 m (MailboxCommand.ack Membership.claimant seq) q v = ground arith
dispatch-Calms sha256 m (MailboxCommand.close sender) q v =
    ground (arith, terminate-Calms m CloseReason.closed sha256 v)

pub transition-Calms :
    (sha256 : Octets → Octets) (m : Mailbox) (now : ℕ) (c : MailboxCommand)
    → IsCalm c
    → IsValid sha256 m
    → Calms m (transition sha256 m now c)
unfolding transition
transition-Calms sha256 m now c q v =
    ground (arith, reap-Calms m now sha256 v, dispatch-Calms sha256 m c q v)

module _ (sha256 : Octets → Octets) where
  -- A state that a successful transition of the mailbox may return.
  abbrev pub Succeeds : Mailbox → Option Mailbox → Type 0
  Succeeds m none = Unit
  Succeeds m (some n) = IsValid sha256 n × IsSame m n

  pub transition-Succeeds :
      (m : Mailbox) (now : ℕ) (c : MailboxCommand) (t : MailboxTransition)
      → IsValid sha256 m
      → transition sha256 m now c ≡ ok t
      → Succeeds m t.state
  transition-Succeeds m now c t v e = elim (Option-cases t.state) [
    | inl gone ↦ rw gone tt
    | inr (n, kept) ↦ rw kept (
      ground (arith, transition-IsSafe sha256 m now c v, kept),
      transition-IsSame sha256 m n now c t v e kept,
    )
  ]

  -- A transition that does not panic, to such a state.
  abbrev pub Follows : Mailbox → Attempt → Type 0
  Follows m = Safe (λ t. Succeeds m t.state)

  Follows-cases :
      (m : Mailbox) (a : Attempt)
      → a ≢ panic
      → ((t : MailboxTransition) → a ≡ ok t → Succeeds m t.state)
      → Follows m a
  Follows-cases m (ok t) alive h = h t refl
  Follows-cases m (err e) alive h = tt
  Follows-cases m panic alive h = alive refl

  pub transition-Follows :
      (m : Mailbox) (now : ℕ) (c : MailboxCommand)
      → IsValid sha256 m
      → Follows m (transition sha256 m now c)
  transition-Follows m now c v =
      Follows-cases m (transition sha256 m now c)
        (λ e. ground (arith, transition-IsSafe sha256 m now c v))
        (λ t e. transition-Succeeds m now c t v e)

-- The queues have room for the bytes `new` in place of `old`.
abbrev pub Affords : {S : Type 0} → RelayService S → ℕ → ℕ → Type 0
Affords s old new = saturating_add (s.queue_bytes - old) new ≤ s.config.capacity.queue_bytes

Affords-le :
    {S : Type 0} (s : RelayService S) (old new : ℕ)
    → s.queue_bytes ≤ s.config.capacity.queue_bytes
    → old ≤ s.queue_bytes
    → new ≤ old
    → Affords s old new
Affords-le s old new h le fewer = ground (arith, h, le, fewer)

module _ {S : Type 0} (sha256 : Octets → Octets) where
  -- A mailbox that gives bytes back leaves the rest within the budget.
  pub calm-Affords :
      (s : RelayService S) (id : Octets) (m : Mailbox) (new : ℕ)
      → IsSound sha256 s
      → lookup id s.mailboxes ≡ some m
      → new ≤ m.queue_bytes
      → Affords s m.queue_bytes new
  calm-Affords s id m new h e fewer =
      Affords-le s m.queue_bytes new h.budget
        (ground (arith, total-remove id s.mailboxes h.accounted.distinct, h.accounted.exact, e))
        fewer

  account_stored-Keeps :
      (s : RelayService S) (id : Octets) (old new : Mailbox) (o : Option ℕ)
      → IsSound sha256 s
      → lookup id s.mailboxes ≡ some old
      → Succeeds sha256 old (some new)
      → Affords s old.queue_bytes new.queue_bytes
      → exchanged (checked_sub s.queue_bytes old.queue_bytes) new.queue_bytes ≡ o
      → Keeps sha256 (account_stored s id new o)
  unfolding account_stored
  account_stored-Keeps s id old new none h e (v, same) fits x = h
  account_stored-Keeps s id old new (some sum) h e (v, same) fits x = record {
    routed = h.routed;
    accounted =
        replace-IsAccounted sha256 id old new sum h.accounted e v
          (same.mailbox_id ∙ h.accounted.filed id old e) same.expires_at (ground arith);
    bounded = ground (arith, length-insert id new s.mailboxes, e, h.bounded);
    budget = ground (arith, fits, x);
    named = replace-IsNamed s.mailboxes s.nameplates id old h.named new e same.nameplate;
  }

  after_stored-Keeps :
      (s : RelayService S) (id : Octets) (old new : Mailbox)
      (answer : Outcome StoreError (Unit {0}))
      → IsSound sha256 s
      → lookup id s.mailboxes ≡ some old
      → Succeeds sha256 old (some new)
      → Affords s old.queue_bytes new.queue_bytes
      → answer ≢ panic
      → Keeps sha256 (after_stored s id new answer)
  unfolding after_stored
  after_stored-Keeps s id old new (ok u) h e n fits alive =
      rw e (account_stored-Keeps s id old new _ h e n fits refl)
  after_stored-Keeps s id old new (err u) h e n fits alive = h
  after_stored-Keeps s id old new panic h e n fits alive = alive refl

  store_mailbox-Keeps :
      (env : RelayEnv S) (s : RelayService S) (id : Octets) (old new : Mailbox)
      → IsTotal env.store
      → IsSound sha256 s
      → lookup id s.mailboxes ≡ some old
      → Succeeds sha256 old (some new)
      → Affords s old.queue_bytes new.queue_bytes
      → Keeps sha256 (store_mailbox env s id new)
  unfolding store_mailbox
  store_mailbox-Keeps env s id old new alive h e n fits =
      let (kept, answer) = env.store.put s.store new in
      after_stored-Keeps (record s { store = kept }) id old new answer
        (record {
          routed = h.routed;
          accounted = h.accounted;
          bounded = h.bounded;
          budget = h.budget;
          named = h.named;
        })
        e n fits (alive.put s.store new)

  pub commit-Keeps :
      (env : RelayEnv S) (s : RelayService S) (id : Octets) (m : Mailbox) (t : MailboxTransition)
      → IsTotal env.store
      → IsSound sha256 s
      → lookup id s.mailboxes ≡ some m
      → Succeeds sha256 m t.state
      → Affords s m.queue_bytes (bytes_of t.state)
      → Keeps sha256 (commit env s id t)
  unfolding commit
  commit-Keeps env s id m t alive h e n fits = elim (Option-cases t.state) [
    | inl gone ↦ rw (gone, e, commit) (remove_mailbox-Keeps sha256 env s id alive h)
    | inr (new, kept) ↦
        rw (kept, commit)
          (store_mailbox-Keeps env s id m new alive h e (subst (Succeeds sha256 m) kept n)
            (subst (λ x. Affords s m.queue_bytes (bytes_of x)) kept fits))
  ]
