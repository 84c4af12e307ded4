-- ===== src/Relay/Soundness.antt =====
-- src/relay.rs: the sound service, and that attaching, leaving and removing keep it sound.
use cbcl_pairing.Common.{
  ℕ, Octets, octets_ordered, nat_ordered, pair_ordered, ◌≡◌, ◌≤◌, length, length-remove-le, refl,
  ◌≢◌, Option, none, some, lookup, checked_sub, Outcome, ok, err, panic, arith,
}
use cbcl_pairing.Mailbox.{Membership, Mailbox}
use cbcl_pairing.Storage.{StoreError}
use cbcl_pairing.Storage.Store.{MailboxStore}
use cbcl_pairing.Relay.{ConnectionId, RelayEnv, RelayService, SessionMembership}
use cbcl_pairing.Relay.Attaching.{
  Step, and_then, attach, disconnect, displace, join_connection, leave_route, membership_of,
}
use cbcl_pairing.Relay.Removing.{
  account_removed, after_store_removed, drop_route, remove_mailbox, remove_mailbox_indexes,
  removed_from, unroute,
}
use cbcl_pairing.Relay.Routing.{IsRouted, attach-IsRouted}
use cbcl_pairing.Relay.Unrouting.{disconnect-IsRouted, unroute-IsRouted}
use cbcl_pairing.Relay.Naming.{IsNamed, remove-IsNamed}
use cbcl_pairing.Relay.Accounting.{IsAccounted, total-remove, remove-IsAccounted}

-- The store does not panic.
pub record IsTotal {S : Type 0} (store : MailboxStore S) : Type 0 where
  pub put : (s : S) (m : Mailbox) → (store.put s m).1 ≢ panic
  pub remove : (s : S) (id : Octets) → (store.remove s id).1 ≢ panic

-- What the connections do not touch.
pub record IsSameMailboxes {S : Type 0} (s t : RelayService S) : Type 0 where
  pub mailboxes : t.mailboxes ≡ s.mailboxes
  pub expiries : t.expiries ≡ s.expiries
  pub queue_bytes : t.queue_bytes ≡ s.queue_bytes
  pub config : t.config ≡ s.config
  pub nameplates : t.nameplates ≡ s.nameplates

module _ {S : Type 0} where
  leave_route-IsSameMailboxes :
      (s : RelayService S) (c : ConnectionId) (o : Option SessionMembership)
      → IsSameMailboxes s (leave_route s c o)
  unfolding leave_route
  leave_route-IsSameMailboxes s c o = record {
    mailboxes = ground arith;
    expiries = ground arith;
    queue_bytes = ground arith;
    config = ground arith;
    nameplates = ground arith;
  }

  attach-IsSameMailboxes :
      (s : RelayService S) (c : ConnectionId) (m : SessionMembership)
      → IsSameMailboxes s (attach s c m)
  unfolding attach displace join_connection
  attach-IsSameMailboxes s c m =
      let left = leave_route-IsSameMailboxes s c (membership_of (lookup c s.connections)) in
      record {
        mailboxes = ground (arith, left.mailboxes);
        expiries = ground (arith, left.expiries);
        queue_bytes = ground (arith, left.queue_bytes);
        config = ground (arith, left.config);
        nameplates = ground (arith, left.nameplates);
      }

  disconnect-IsSameMailboxes :
      (s : RelayService S) (c : ConnectionId) → IsSameMailboxes s (disconnect s c)
  unfolding disconnect leave_route
  disconnect-IsSameMailboxes s c = record {
    mailboxes = ground arith;
    expiries = ground arith;
    queue_bytes = ground arith;
    config = ground arith;
    nameplates = ground arith;
  }

  pub unroute-IsSameMailboxes :
      (s : RelayService S) (id : Octets) (member : Membership)
      → IsSameMailboxes s (unroute s id member)
  unfolding unroute drop_route
  unroute-IsSameMailboxes s id member = record {
    mailboxes = ground arith;
    expiries = ground arith;
    queue_bytes = ground arith;
    config = ground arith;
    nameplates = ground arith;
  }

module _ {S : Type 0} (sha256 : Octets → Octets) where
  -- The routes mirror the memberships, and the mailboxes are accounted for, and they and their
  -- queues not too many.
  pub record IsSound (s : RelayService S) : Type 0 where
    pub routed : IsRouted s.routes s.connections
    pub accounted : IsAccounted sha256 s.mailboxes s.expiries s.queue_bytes
    pub bounded : length s.mailboxes ≤ s.config.capacity.open_mailboxes
    pub budget : s.queue_bytes ≤ s.config.capacity.queue_bytes
    pub named : IsNamed s.mailboxes s.nameplates

  -- A step that does not panic, and that leaves a sound service, also with an error.
  abbrev pub Keeps : {A : Type 0} → Step S A → Type 0
  Keeps (s, ok a) = IsSound s
  Keeps (s, err e) = IsSound s
  Keeps (s, panic) = ⊥

  pub Keeps-IsSound : {A : Type 0} (step : Step S A) → Keeps step → IsSound step.0
  Keeps-IsSound (s, ok a) h = h
  Keeps-IsSound (s, err e) h = h
  Keeps-IsSound (s, panic) h = elim h [ ]

  pub and_then-Keeps :
      {A B : Type 0} (step : Step S A) (f : RelayService S → A → Step S B)
      → Keeps step
      → ((s : RelayService S) (a : A) → IsSound s → Keeps (f s a))
      → Keeps (and_then step f)
  and_then-Keeps (s, ok a) f h g = g s a h
  and_then-Keeps (s, err e) f h g = h
  and_then-Keeps (s, panic) f h g = h

  pub same-IsAccounted :
      (s t : RelayService S)
      → IsSameMailboxes s t
      → IsAccounted sha256 s.mailboxes s.expiries s.queue_bytes
      → IsAccounted sha256 t.mailboxes t.expiries t.queue_bytes
  same-IsAccounted s t e h = rw (e.mailboxes, e.expiries, e.queue_bytes) h

  same-bounded :
      (s t : RelayService S)
      → IsSameMailboxes s t
      → length s.mailboxes ≤ s.config.capacity.open_mailboxes
      → length t.mailboxes ≤ t.config.capacity.open_mailboxes
  same-bounded s t e h = rw (e.mailboxes, e.config) h

  same-budget :
      (s t : RelayService S)
      → IsSameMailboxes s t
      → s.queue_bytes ≤ s.config.capacity.queue_bytes
      → t.queue_bytes ≤ t.config.capacity.queue_bytes
  same-budget s t e h = rw (e.queue_bytes, e.config) h

  same-IsNamed :
      (s t : RelayService S)
      → IsSameMailboxes s t
      → IsNamed s.mailboxes s.nameplates
      → IsNamed t.mailboxes t.nameplates
  same-IsNamed s t e h = rw (e.mailboxes, e.nameplates) h

  pub attach-IsSound :
      (s : RelayService S) (c : ConnectionId) (m : SessionMembership)
      → IsSound s
      → IsSound (attach s c m)
  attach-IsSound s c m h = record {
    routed = attach-IsRouted s c m h.routed;
    accounted = same-IsAccounted s (attach s c m) (attach-IsSameMailboxes s c m) h.accounted;
    bounded = same-bounded s (attach s c m) (attach-IsSameMailboxes s c m) h.bounded;
    budget = same-budget s (attach s c m) (attach-IsSameMailboxes s c m) h.budget;
    named = same-IsNamed s (attach s c m) (attach-IsSameMailboxes s c m) h.named;
  }

  pub disconnect-IsSound :
      (s : RelayService S) (c : ConnectionId) → IsSound s → IsSound (disconnect s c)
  disconnect-IsSound s c h = record {
    routed = disconnect-IsRouted s c h.routed;
    accounted = same-IsAccounted s (disconnect s c) (disconnect-IsSameMailboxes s c) h.accounted;
    bounded = same-bounded s (disconnect s c) (disconnect-IsSameMailboxes s c) h.bounded;
    budget = same-budget s (disconnect s c) (disconnect-IsSameMailboxes s c) h.budget;
    named = same-IsNamed s (disconnect s c) (disconnect-IsSameMailboxes s c) h.named;
  }

  unroute-IsSound :
      (s : RelayService S) (id : Octets) (member : Membership)
      → IsSound s
      → IsSound (unroute s id member)
  unroute-IsSound s id member h = record {
    routed = unroute-IsRouted s id member h.routed;
    accounted =
        same-IsAccounted s (unroute s id member) (unroute-IsSameMailboxes s id member) h.accounted;
    bounded = same-bounded s (unroute s id member) (unroute-IsSameMailboxes s id member) h.bounded;
    budget = same-budget s (unroute s id member) (unroute-IsSameMailboxes s id member) h.budget;
    named = same-IsNamed s (unroute s id member) (unroute-IsSameMailboxes s id member) h.named;
  }

  account_removed-Keeps :
      (s : RelayService S) (id : Octets) (o : Option ℕ)
      → o ≢ none
      → ((left : ℕ) → o ≡ some left → IsSound (record s { queue_bytes = left }))
      → Keeps (account_removed s id o)
  unfolding account_removed
  account_removed-Keeps s id none there h = elim (there refl) [ ]
  account_removed-Keeps s id (some left) there h =
      let counted = record s { queue_bytes = left } in
      unroute-IsSound (unroute counted id Membership.allocator) id Membership.claimant
        (unroute-IsSound counted id Membership.allocator (h left refl))

  removed_from-Keeps :
      (s : RelayService S) (id : Octets) (o : Option Mailbox)
      → IsSound s
      → lookup id s.mailboxes ≡ o
      → Keeps (removed_from s id o)
  unfolding removed_from remove_mailbox_indexes
  removed_from-Keeps s id none h e = h
  removed_from-Keeps s id (some m) h e =
      let sum = total-remove id s.mailboxes h.accounted.distinct in
      let exact = h.accounted.exact in
      account_removed-Keeps _ id (checked_sub s.queue_bytes m.queue_bytes)
        (ground (arith, sum, exact, e))
        (λ left counted. record {
          routed = h.routed;
          accounted =
              remove-IsAccounted sha256 id m left h.accounted e (ground (arith, sum, exact, e));
          bounded = omega (arith, length-remove-le id s.mailboxes, h.bounded);
          budget = ground (arith, counted, h.budget);
          named = remove-IsNamed s.mailboxes s.nameplates id m h.named e;
        })

  after_store_removed-Keeps :
      (s : RelayService S) (id : Octets) (answer : Outcome StoreError (Unit {0}))
      → IsSound s
      → answer ≢ panic
      → Keeps (after_store_removed s id answer)
  unfolding after_store_removed
  after_store_removed-Keeps s id (ok u) h e = removed_from-Keeps s id (lookup id s.mailboxes) h refl
  after_store_removed-Keeps s id (err u) h e = h
  after_store_removed-Keeps s id panic h e = e refl

  pub remove_mailbox-Keeps :
      (env : RelayEnv S) (s : RelayService S) (id : Octets)
      → IsTotal env.store
      → IsSound s
      → Keeps (remove_mailbox env s id)
  unfolding remove_mailbox
  remove_mailbox-Keeps env s id alive h =
      let (kept, answer) = env.store.remove s.store id in
      after_store_removed-Keeps (record s { store = kept }) id answer
        (record {
          routed = h.routed;
          accounted = h.accounted;
          bounded = h.bounded;
          budget = h.budget;
          named = h.named;
        })
        (alive.remove s.store id)
