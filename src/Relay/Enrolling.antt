-- ===== src/Relay/Enrolling.antt =====
-- src/relay.rs: allocation keeps the service sound.
use cbcl_pairing.Common.{
  ℕ, Octets, octets_ordered, nat_ordered, pair_ordered, ◌≡◌, ◌<◌, length, length-insert, refl, ◌≢◌,
  Option, none, not, lookup, Outcome, ok, err, panic, Safe, arith,
}
use cbcl_pairing.Wire.{ServerMessage}
use cbcl_pairing.Mailbox.{Mailbox, MailboxError, MembershipHash, AllocationInput, V2AllocationInput}
use cbcl_pairing.Mailbox.Allocate as MailboxAllocate
use cbcl_pairing.Mailbox.Invariant.{IsValid}
use cbcl_pairing.Mailbox.Reach.{allocate-IsValid, allocate_v2-IsValid}
use cbcl_pairing.Storage.{StoreError}
use cbcl_pairing.Limiter.{operation_ordered}
use cbcl_pairing.Relay.{ConnectionId, RelayEnv, RelayRandomness, RelayService}
use cbcl_pairing.Relay.Allocating.{
  Reply, is_full, allocate, allocate_named, allocate_v2, choose_nameplate, enrol, enrolled,
  has_membership, refuse,
}
use cbcl_pairing.Relay.Accounting.{insert-IsAccounted}
use cbcl_pairing.Relay.Naming.{IsFree, insert-IsNamed}
use cbcl_pairing.Relay.Soundness.{IsSound, IsTotal, Keeps, attach-IsSound}
use cbcl_pairing.Relay.Committed.{if-Keeps, if_not-Keeps}

module _ {S : Type 0} (env : RelayEnv S) (alive : IsTotal env.store) where
  abbrev Sound : RelayService S → Type 0
  Sound = IsSound env.sha256

  abbrev KeepsAll : Reply S → Type 0
  KeepsAll = Keeps env.sha256

  -- The identifier is new, and one more mailbox is within the capacity.
  abbrev HasRoom : RelayService S → Octets → Type 0
  HasRoom s id =
      (lookup id s.mailboxes ≡ none) × (length s.mailboxes < s.config.capacity.open_mailboxes)

  -- A mailbox made for an identifier and a nameplate.
  abbrev IsNew : Octets → Option ℕ → Mailbox → Type 0
  IsNew id plate m =
      IsValid env.sha256 m × (m.mailbox_id ≡ id) × (m.queue_bytes ≡ 0) × (m.nameplate ≡ plate)

  abbrev Makes : Octets → Option ℕ → Outcome MailboxError Mailbox → Type 0
  Makes id plate = Safe (IsNew id plate)

  allocate-Makes :
      (i : AllocationInput) → Makes i.mailbox_id i.nameplate (MailboxAllocate.allocate i)
  unfolding MailboxAllocate.allocate
  allocate-Makes i = ground (arith, allocate-IsValid env.sha256 i)

  allocate_v2-Makes :
      (i : V2AllocationInput) → Makes i.mailbox_id none (MailboxAllocate.allocate_v2 i)
  unfolding MailboxAllocate.allocate_v2
  allocate_v2-Makes i = ground (arith, allocate_v2-IsValid env.sha256 i)

  enrolled-Keeps :
      (s : RelayService S) (c : ConnectionId) (id : Octets) (hash : MembershipHash) (m : Mailbox)
      (plate : Option ℕ) (message : ℕ → ServerMessage) (answer : Outcome StoreError (Unit {0}))
      → Sound s
      → HasRoom s id
      → IsFree plate s.nameplates
      → IsNew id plate m
      → answer ≢ panic
      → KeepsAll (enrolled s c id hash m plate message answer)
  unfolding enrolled
  enrolled-Keeps s c id hash m plate message (ok u) h e free (v, i, q, p) n =
      attach-IsSound env.sha256 _ c _ (record {
        routed = h.routed;
        accounted =
            insert-IsAccounted env.sha256 id m s.queue_bytes h.accounted e.0 v i
              (ground (arith, q));
        bounded = ground (arith, length-insert id m s.mailboxes, e);
        budget = h.budget;
        named = insert-IsNamed s.mailboxes s.nameplates id m h.named plate e.0 free p;
      })
  enrolled-Keeps s c id hash m plate message (err x) h e free new n = h
  enrolled-Keeps s c id hash m plate message panic h e free new n = n refl

  enrol-Keeps :
      (s : RelayService S) (c : ConnectionId) (id : Octets) (hash : MembershipHash)
      (plate : Option ℕ) (message : ℕ → ServerMessage) (a : Outcome MailboxError Mailbox)
      → Sound s
      → HasRoom s id
      → IsFree plate s.nameplates
      → Makes id plate a
      → KeepsAll (enrol env s c id hash plate message a)
  unfolding enrol
  enrol-Keeps s c id hash plate message (ok m) h e free new =
      let (kept, answer) = env.store.put s.store m in
      enrolled-Keeps (record s { store = kept }) c id hash m plate message answer
        (record {
          routed = h.routed;
          accounted = h.accounted;
          bounded = h.bounded;
          budget = h.budget;
          named = h.named;
        })
        e free new (alive.put s.store m)
  enrol-Keeps s c id hash plate message (err x) h e free new = h
  enrol-Keeps s c id hash plate message panic h e free new = new

  allocate_named-Keeps :
      (s : RelayService S) (c : ConnectionId) (now : ℕ) (r : RelayRandomness) (ttl : Option ℕ)
      (plate : Outcome ℕ (Option ℕ))
      → Sound s
      → HasRoom s r.mailbox_id
      → Safe (λ p. IsFree p s.nameplates) plate
      → KeepsAll (allocate_named env s c now r ttl plate)
  unfolding allocate_named
  allocate_named-Keeps s c now r ttl (ok plate) h e free =
      enrol-Keeps s c r.mailbox_id _ plate _ _ h e free (
        allocate-Makes (record {
          mailbox_id = r.mailbox_id;
          nameplate = plate;
          allocator_hash = env.sha256 r.membership_token;
          now = now;
          ttl_seconds = ttl;
        }))
  allocate_named-Keeps s c now r ttl (err code) h e free = h
  allocate_named-Keeps s c now r ttl panic h e free = free

  choose_nameplate-IsFree :
      (s : RelayService S) (mode plate : ℕ)
      → Safe (λ p. IsFree p s.nameplates) (choose_nameplate s mode plate)
  unfolding choose_nameplate
  choose_nameplate-IsFree s mode plate = ground arith

  pub allocate-Keeps :
      (s : RelayService S) (c : ConnectionId) (now : ℕ) (r : RelayRandomness) (mode : ℕ)
      (ttl : Option ℕ)
      → Sound s
      → KeepsAll (allocate env s c now r mode ttl)
  unfolding allocate
  allocate-Keeps s c now r mode ttl h =
      if-Keeps env alive (not s.config.allocation_enabled) (refuse s c 503) _ h (
        if-Keeps env alive (has_membership s c) (refuse s c 409) _ h (
          if_not-Keeps env alive (is_full s r.mailbox_id (env.sha256 r.membership_token))
            (refuse s c 503) _ h
            (λ free.
              allocate_named-Keeps s c now r ttl (choose_nameplate s mode r.nameplate) h
                (ground (arith, free), ground (arith, free))
                (choose_nameplate-IsFree s mode r.nameplate))))

  pub allocate_v2-Keeps :
      (s : RelayService S) (c : ConnectionId) (now : ℕ) (token id commitment : Octets)
      (ttl : Option ℕ)
      → Sound s
      → KeepsAll (allocate_v2 env s c now token id commitment ttl)
  unfolding allocate_v2
  allocate_v2-Keeps s c now token id commitment ttl h =
      if-Keeps env alive (not s.config.allocation_enabled) (refuse s c 503) _ h (
        if-Keeps env alive (has_membership s c) (refuse s c 409) _ h (
          if_not-Keeps env alive (is_full s id (env.sha256 token)) (refuse s c 503) _ h (λ free.
            enrol-Keeps s c id _ none _ _ h (ground (arith, free), ground (arith, free)) tt
              (allocate_v2-Makes (record {
                mailbox_id = id;
                allocator_hash = env.sha256 token;
                claim_commitment = commitment;
                now = now;
                ttl_seconds = ttl;
              })))))
