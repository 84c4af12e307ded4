-- ===== src/Relay/Allocating.antt =====
-- src/relay.rs: `allocate` and `allocate_v2`.
use cbcl_pairing.Common.{
  ℕ, Octets, octets_ordered, nat_ordered, pair_ordered, List, [], ◌∷◌, Option, none, some, Bool,
  not, ◌||◌, ◌&&◌, leb, nat_beq, if◌then◌else◌, is_some, length, lookup, insert, has, set_insert,
  Outcome, ok, err, panic,
}
use cbcl_pairing.Wire.{ServerMessage}
use cbcl_pairing.Mailbox.{Membership, Mailbox, MailboxError, MembershipHash, max_nameplate}
use cbcl_pairing.Mailbox.Allocate as MailboxAllocate
use cbcl_pairing.Storage.{StoreError}
use cbcl_pairing.Relay.{
  ConnectionId, RelayEnv, RelayError, RelayRandomness, RelayService, RoutedMessage,
}
use cbcl_pairing.Relay.Messages.{mailbox_error, route, token_hash}
use cbcl_pairing.Relay.Attaching.{Step, attach, membership_of}

-- What a command returns: the messages to route.
abbrev pub Reply : Type 0 → Type 0
Reply S = Step S (List RoutedMessage)

abbrev pub insert_nameplate : Option ℕ → Octets → List (ℕ × Octets) → List (ℕ × Octets)
insert_nameplate none id plates = plates
insert_nameplate (some n) id plates = insert n id plates

module _ {S : Type 0} where
  -- One message, to the connection that asked.
  abbrev pub reply : RelayService S → ConnectionId → ServerMessage → Reply S
  reply s connection message = (s, ok (route connection message ∷ []))

  abbrev pub refuse : RelayService S → ConnectionId → ℕ → Reply S
  refuse s connection code = reply s connection (ServerMessage.error code)

  abbrev pub has_membership : RelayService S → ConnectionId → Bool
  has_membership s connection = is_some (membership_of (lookup connection s.connections))

  abbrev pub token_hash_exists : RelayService S → MembershipHash → Bool
  token_hash_exists s hash = has hash s.membership_hashes

  -- The locator mode: an error code, or the nameplate of the mailbox.
  unfoldable pub choose_nameplate : RelayService S → ℕ → ℕ → Outcome ℕ (Option ℕ)
  choose_nameplate s locator_mode nameplate =
      if nat_beq locator_mode 0
      then ok none
      else if nat_beq locator_mode 1
      then if leb nameplate max_nameplate && not (is_some (lookup nameplate s.nameplates))
        then ok (some nameplate)
        else err 503
      else err 400

  unfoldable pub enrolled :
      RelayService S
      → ConnectionId
      → Octets
      → MembershipHash
      → Mailbox
      → Option ℕ
      → (ℕ → ServerMessage)
      → Outcome StoreError (Unit {0})
      → Reply S
  enrolled s connection id hash m nameplate message (ok u) =
      reply
        (attach
          (record s {
            mailboxes = insert id m s.mailboxes;
            membership_hashes = set_insert hash s.membership_hashes;
            expiries = set_insert (m.expires_at, id) s.expiries;
            nameplates = insert_nameplate nameplate id s.nameplates;
          })
          connection (record { mailbox_id = id; membership = Membership.allocator }))
        connection (message m.expires_at)
  enrolled s connection id hash m nameplate message (err e) = (s, err RelayError.storage)
  enrolled s connection id hash m nameplate message panic = (s, panic)

  -- The tail that `allocate` and `allocate_v2` share, from the mailbox that was made.
  unfoldable pub enrol :
      RelayEnv S
      → RelayService S
      → ConnectionId
      → Octets
      → MembershipHash
      → Option ℕ
      → (ℕ → ServerMessage)
      → Outcome MailboxError Mailbox
      → Reply S
  unfolding enrolled
  enrol env s connection id hash nameplate message (ok m) =
      let (kept, answer) = env.store.put s.store m in
      enrolled (record s { store = kept }) connection id hash m nameplate message answer
  enrol env s connection id hash nameplate message (err e) = reply s connection (mailbox_error e)
  enrol env s connection id hash nameplate message panic = (s, panic)

  abbrev pub is_full : RelayService S → Octets → MembershipHash → Bool
  is_full s id hash =
      leb s.config.capacity.open_mailboxes (length s.mailboxes)
      || (is_some (lookup id s.mailboxes) || token_hash_exists s hash)

  unfoldable pub allocate_named :
      RelayEnv S
      → RelayService S
      → ConnectionId
      → ℕ
      → RelayRandomness
      → Option ℕ
      → Outcome ℕ (Option ℕ)
      → Reply S
  unfolding enrol
  allocate_named env s connection now r ttl (ok nameplate) =
      enrol env s connection r.mailbox_id (token_hash env.sha256 r.membership_token) nameplate
        (λ expires_at. ServerMessage.allocated r.mailbox_id r.membership_token nameplate expires_at)
        (MailboxAllocate.allocate (record {
          mailbox_id = r.mailbox_id;
          nameplate = nameplate;
          allocator_hash = token_hash env.sha256 r.membership_token;
          now = now;
          ttl_seconds = ttl;
        }))
  allocate_named env s connection now r ttl (err code) = refuse s connection code
  allocate_named env s connection now r ttl panic = (s, panic)

  unfoldable pub allocate :
      RelayEnv S → RelayService S → ConnectionId → ℕ → RelayRandomness → ℕ → Option ℕ → Reply S
  unfolding allocate_named choose_nameplate
  allocate env s connection now r locator_mode ttl =
      if not s.config.allocation_enabled
      then refuse s connection 503
      else if has_membership s connection
      then refuse s connection 409
      else if is_full s r.mailbox_id (token_hash env.sha256 r.membership_token)
      then refuse s connection 503
      else allocate_named env s connection now r ttl (choose_nameplate s locator_mode r.nameplate)

  unfoldable pub allocate_v2 :
      RelayEnv S → RelayService S → ConnectionId → ℕ → Octets → Octets → Octets → Option ℕ → Reply S
  unfolding enrol
  allocate_v2 env s connection now token id commitment ttl =
      if not s.config.allocation_enabled
      then refuse s connection 503
      else if has_membership s connection
      then refuse s connection 409
      else if is_full s id (token_hash env.sha256 token)
      then refuse s connection 503
      else enrol env s connection id (token_hash env.sha256 token) none
          (λ expires_at. ServerMessage.allocated_v2 id token expires_at)
          (MailboxAllocate.allocate_v2 (record {
            mailbox_id = id;
            allocator_hash = token_hash env.sha256 token;
            claim_commitment = commitment;
            now = now;
            ttl_seconds = ttl;
          }))
