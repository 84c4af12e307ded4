-- ===== src/Relay/Removing.antt =====
-- src/relay.rs: `remove_mailbox` and `remove_mailbox_indexes`.
use cbcl_pairing.Common.{
  ℕ, Octets, octets_ordered, nat_ordered, pair_ordered, List, [], ◌∷◌, Option, none, some, lookup,
  remove, set_remove, set_insert, checked_sub, Outcome, ok, err, panic,
}
use cbcl_pairing.Mailbox.{Membership, Mailbox, MembershipHash}
use cbcl_pairing.Storage.{StoreError}
use cbcl_pairing.Relay.{ConnectionId, RelayEnv, RelayError, RelayService, SessionMembership}
use cbcl_pairing.Relay.Messages.{route_key}
use cbcl_pairing.Relay.Attaching.{Step, clear_membership}

-- `Mailbox::membership_hashes`
abbrev pub mailbox_hashes : Mailbox → List MembershipHash
mailbox_hashes m = elim m.claimant [
  | none ↦ m.allocator.hash ∷ []
  | some c ↦ m.allocator.hash ∷ c.hash ∷ []
]

abbrev pub insert_hashes : List MembershipHash → List MembershipHash → List MembershipHash
insert_hashes [] known = known
insert_hashes (h ∷ hs) known = insert_hashes hs (set_insert h known)

abbrev pub remove_hashes : List MembershipHash → List MembershipHash → List MembershipHash
remove_hashes [] known = known
remove_hashes (h ∷ hs) known = remove_hashes hs (set_remove h known)

abbrev pub free_nameplate : Option ℕ → List (ℕ × Octets) → List (ℕ × Octets)
free_nameplate none plates = plates
free_nameplate (some n) plates = remove n plates

module _ {S : Type 0} where
  -- The route of one membership goes, and its connection loses the membership.
  unfoldable pub drop_route :
      RelayService S → SessionMembership → Option ConnectionId → RelayService S
  drop_route s m none = s
  drop_route s m (some connection) = record s {
    routes = remove (route_key m) s.routes;
    connections = clear_membership connection (lookup connection s.connections) s.connections;
  }

  unfoldable pub unroute : RelayService S → Octets → Membership → RelayService S
  unfolding drop_route
  unroute s id member =
      let m : SessionMembership = record { mailbox_id = id; membership = member } in
      drop_route s m (lookup (route_key m) s.routes)

  unfoldable pub account_removed : RelayService S → Octets → Option ℕ → Step S (Unit {0})
  unfolding unroute
  account_removed s id none = (s, panic)
  account_removed s id (some left) = (
    unroute (unroute (record s { queue_bytes = left }) id Membership.allocator) id
        Membership.claimant,
    ok tt,
  )

  unfoldable pub remove_mailbox_indexes : RelayService S → Octets → Mailbox → Step S (Unit {0})
  unfolding account_removed
  remove_mailbox_indexes s id m =
      account_removed
        (record s {
          nameplates = free_nameplate m.nameplate s.nameplates;
          membership_hashes = remove_hashes (mailbox_hashes m) s.membership_hashes;
          expiries = set_remove (m.expires_at, id) s.expiries;
        })
        id (checked_sub s.queue_bytes m.queue_bytes)

  unfoldable pub removed_from : RelayService S → Octets → Option Mailbox → Step S (Unit {0})
  unfolding remove_mailbox_indexes
  removed_from s id none = (s, ok tt)
  removed_from s id (some m) =
      remove_mailbox_indexes (record s { mailboxes = remove id s.mailboxes }) id m

  unfoldable pub after_store_removed :
      RelayService S → Octets → Outcome StoreError (Unit {0}) → Step S (Unit {0})
  unfolding removed_from
  after_store_removed s id (ok u) = removed_from s id (lookup id s.mailboxes)
  after_store_removed s id (err e) = (s, err RelayError.storage)
  after_store_removed s id panic = (s, panic)

  unfoldable pub remove_mailbox : RelayEnv S → RelayService S → Octets → Step S (Unit {0})
  unfolding after_store_removed
  remove_mailbox env s id =
      let (kept, answer) = env.store.remove s.store id in
      after_store_removed (record s { store = kept }) id answer
