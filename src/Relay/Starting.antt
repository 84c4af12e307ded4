-- ===== src/Relay/Starting.antt =====
-- src/relay.rs: `with_store`, which builds the service over what the store retains.
use cbcl_pairing.Common.{
  ℕ, Octets, octets_ordered, nat_ordered, pair_ordered, List, [], ◌∷◌, Option, none, some, Bool,
  not, ◌||◌, ltb, nat_beq, length, is_some, if◌then◌else◌, lookup, insert, has, set_insert,
  checked_add, Outcome, ok, err, panic,
}
use cbcl_pairing.Limiter.{Limiter}
use cbcl_pairing.Limiter.Check as LimiterCheck
use cbcl_pairing.Limiter.{LimiterError}
use cbcl_pairing.Mailbox.{Mailbox, MembershipHash}
use cbcl_pairing.Storage.{StoreError}
use cbcl_pairing.Observability.{new_observability}
use cbcl_pairing.Relay.{RelayConfig, RelayEnv, RelayError, RelayService}
use cbcl_pairing.Relay.Removing.{mailbox_hashes}
use cbcl_pairing.Relay.Handling.{refresh_gauges}

-- What the loop over the loaded mailboxes has built.
pub record Retained : Type 0 where
  pub mailboxes : List (Octets × Mailbox)
  pub nameplates : List (ℕ × Octets)
  pub membership_hashes : List MembershipHash
  pub expiries : List (ℕ × Octets)
  pub queue_bytes : ℕ

-- A nameplate may not be there yet.
unfoldable pub add_nameplate : Option ℕ → Octets → List (ℕ × Octets) → Option (List (ℕ × Octets))
add_nameplate none id plates = some plates
add_nameplate (some n) id plates =
    if is_some (lookup n plates) then none else some (insert n id plates)

-- Neither may a membership hash.
unfoldable pub add_hashes : List MembershipHash → List MembershipHash → Option (List MembershipHash)
add_hashes [] known = some known
add_hashes (h ∷ hs) known =
    let added = add_hashes hs (set_insert h known) in if has h known then none else added

unfoldable pub retain_counted :
    Retained
    → Mailbox
    → List (ℕ × Octets)
    → List MembershipHash
    → Option ℕ
    → Outcome RelayError Retained
retain_counted r m plates hashes none = err RelayError.invalid_configuration
retain_counted r m plates hashes (some bytes) =
    if is_some (lookup m.mailbox_id r.mailboxes)
    then err RelayError.storage
    else ok (record {
      mailboxes = insert m.mailbox_id m r.mailboxes;
      nameplates = plates;
      membership_hashes = hashes;
      expiries = set_insert (m.expires_at, m.mailbox_id) r.expiries;
      queue_bytes = bytes;
    })

unfoldable pub retain_hashed :
    Retained
    → Mailbox
    → List (ℕ × Octets)
    → Option (List MembershipHash)
    → Outcome RelayError Retained
unfolding retain_counted
retain_hashed r m plates none = err RelayError.storage
retain_hashed r m plates (some hashes) =
    retain_counted r m plates hashes (checked_add r.queue_bytes m.queue_bytes)

unfoldable pub retain_named :
    Retained → Mailbox → Option (List (ℕ × Octets)) → Outcome RelayError Retained
unfolding retain_hashed add_hashes
retain_named r m none = err RelayError.storage
retain_named r m (some plates) =
    retain_hashed r m plates (add_hashes (mailbox_hashes m) r.membership_hashes)

-- One pass of the loop over the loaded mailboxes.
unfoldable pub retain : Retained → Mailbox → Outcome RelayError Retained
unfolding retain_named add_nameplate
retain r m = retain_named r m (add_nameplate m.nameplate m.mailbox_id r.nameplates)

unfoldable pub retain_all : Outcome RelayError Retained → List Mailbox → Outcome RelayError Retained
unfolding retain
retain_all r [] = r
retain_all (ok r) (m ∷ ms) = retain_all (retain r m) ms
retain_all (err e) (m ∷ ms) = err e
retain_all panic (m ∷ ms) = panic

abbrev pub nothing_retained : Retained
nothing_retained = record {
  mailboxes = [];
  nameplates = [];
  membership_hashes = [];
  expiries = [];
  queue_bytes = 0;
}

abbrev pub is_invalid : RelayConfig → Bool
is_invalid config =
    nat_beq config.capacity.open_mailboxes 0
    || (nat_beq config.capacity.queue_bytes 0
        || (nat_beq config.capacity.limiter_entries 0
            || not (nat_beq config.capacity.limiter_entries config.limiter.entry_cap)))

module _ {S : Type 0} where
  unfoldable pub over_retained :
      RelayConfig → Limiter → S → Outcome RelayError Retained → Outcome RelayError (RelayService S)
  unfolding refresh_gauges
  over_retained config limiter store (ok r) =
      if ltb config.capacity.open_mailboxes (length r.mailboxes)
        || ltb config.capacity.queue_bytes r.queue_bytes
      then err RelayError.invalid_configuration
      else ok (
          refresh_gauges (record {
            config = config;
            limiter = limiter;
            observability = new_observability config.capacity;
            store = store;
            mailboxes = r.mailboxes;
            nameplates = r.nameplates;
            membership_hashes = r.membership_hashes;
            expiries = r.expiries;
            queue_bytes = r.queue_bytes;
            connections = [];
            routes = [];
            last_log = none;
          }))
  over_retained config limiter store (err e) = err e
  over_retained config limiter store panic = panic

  unfoldable pub over_loaded :
      RelayConfig
      → Limiter
      → S
      → Outcome StoreError (List Mailbox)
      → Outcome RelayError (RelayService S)
  unfolding over_retained retain_all
  over_loaded config limiter store (ok ms) =
      over_retained config limiter store (retain_all (ok nothing_retained) ms)
  over_loaded config limiter store (err e) = err RelayError.storage
  over_loaded config limiter store panic = panic

  unfoldable pub over_limiter :
      RelayEnv S
      → RelayConfig
      → S
      → Outcome LimiterError Limiter
      → Outcome RelayError (RelayService S)
  unfolding over_loaded
  over_limiter env config store (ok limiter) =
      let (kept, loaded) = env.store.load store in over_loaded config limiter kept loaded
  over_limiter env config store (err e) = err RelayError.limiter
  over_limiter env config store panic = panic

  unfoldable pub with_store : RelayEnv S → RelayConfig → S → Outcome RelayError (RelayService S)
  unfolding over_limiter
  with_store env config store =
      if is_invalid config
      then err RelayError.invalid_configuration
      else over_limiter env config store (LimiterCheck.new config.operator_key config.limiter)
