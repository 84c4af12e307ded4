-- ===== src/Relay/Examples.antt =====
-- The theorems on src/relay.rs at a concrete service over the store in memory, with stand-ins for the
-- hashes, the codec and the parser of addresses.
mod Deliveries
use cbcl_pairing.Common.{
  Octets, octets_ordered, Option, ◌≡◌, refl, List, [], ◌∷◌, none, true, insert, lookup, remove, has,
  set_insert, set_remove, octets_cmp, ok, some, arith,
}
use cbcl_pairing.Wire.{ClientMessage, CloseReason, ServerMessage}
use cbcl_pairing.Limiter.Config.{new_config}
use cbcl_pairing.Limiter.Check.{
  new, fresh_limiter, sweep_if_due, check, check_dimension, check_new, check_known, admit, retry,
  take_recency, keep_swept, observe_time, sweep_at, sweep_inner, drop_all, drop_dimension, stale,
  is_stale, prune_all, evict_first,
}
use cbcl_pairing.Limiter.Check as LimiterCheck
use cbcl_pairing.Limiter.{index}
use cbcl_pairing.Limiter.Admit.{attempt, count_attempt, prune_attempts, prune, start_cooldown}
use cbcl_pairing.Limiter.Peers.{peer_key}
use cbcl_pairing.Mailbox.Allocate as MailboxAllocate
use cbcl_pairing.Relay.Removing.{
  remove_mailbox, after_store_removed, removed_from, remove_mailbox_indexes, account_removed,
  unroute, drop_route,
}
use cbcl_pairing.Relay.Attaching.{
  attach, leave_route, displace, join_connection, clear_membership, terminal_routes,
}
use cbcl_pairing.Relay.Allocating.{allocate, allocate_named, choose_nameplate, enrol, enrolled}
use cbcl_pairing.Observability.{new_observability, set_gauges, record_operation}
use cbcl_pairing.Relay.{RelayConfig, RelayEnv, RelayRandomness, RelayService}
use cbcl_pairing.Relay.Handling.{
  handle, handle_checked, answered, dispatch, bind, finish, refresh_gauges,
}
use cbcl_pairing.Relay.Reaping.{emergency_close, sweep, sweep_loop, first_due}
use cbcl_pairing.Relay.Starting.{over_limiter, over_loaded, over_retained, retain_all, with_store}
use cbcl_pairing.Relay.Soundness.{IsSound, IsTotal}
use cbcl_pairing.Relay.Memory.{memory_env, memory_env-LoadsValid, memory_store-IsTotal}
use cbcl_pairing.Cbor.{Codec}
use cbcl_pairing.Limiter.Peers.{PeerEnv}
use cbcl_pairing.Mailbox.Snapshot.{snapshot, sort_by_seq}
use cbcl_pairing.Storage.Record.{encode, sequence_values}
use cbcl_pairing.Storage.Store.{MemoryMailboxStore, decode_all}
use cbcl_pairing.Relay.Loading.{LoadsValid}
use cbcl_pairing.Relay.Allocating.{Reply}
use cbcl_pairing.Relay.Messages.{route, actor_outcome, operation}
use cbcl_pairing.Relay.Expiring.{sweep_reaps, unexpired}
use cbcl_pairing.Relay.Nameplates.{first_available_nameplate}
use cbcl_pairing.Relay.Available.{IsFirstUnused, first_available_nameplate-IsFirstUnused}
use cbcl_pairing.Relay.Reach.{
  IsAnswer, IsDone, Reachable, Reachable-IsSound, service_answers, handled, started,
}

-- A codec that writes nothing, and reads nothing back.
abbrev blank : Codec
blank = record { to_canonical_vec = λ v. some []; from_reader = λ b. none }

abbrev nowhere : PeerEnv
nowhere = record {
  parse_address = λ a. none;
  to_ipv4_mapped = λ o. none;
  hmac_sha256 = λ key message. message;
}

abbrev env : RelayEnv MemoryMailboxStore
env = memory_env blank nowhere (λ a. 0 ∷ a)

env-IsTotal : IsTotal env.store
env-IsTotal = memory_store-IsTotal blank (λ a. 0 ∷ a)

env-LoadsValid : LoadsValid env []
env-LoadsValid = memory_env-LoadsValid blank nowhere (λ a. 0 ∷ a) [] [] tt tt

-- One mailbox, a thousand bytes, two attempts in ten seconds.
abbrev small : RelayConfig
small = record {
  operator_key = 7 ∷ [];
  limiter = new_config (record { limit = 2; window_seconds = 10 }) 2 100;
  capacity = record { open_mailboxes = 1; queue_bytes = 1000; limiter_entries = 2 };
  allocation_enabled = true;
}

abbrev fresh : RelayService (MemoryMailboxStore)
fresh = refresh_gauges (record {
  config = small;
  limiter = fresh_limiter small.operator_key small.limiter;
  observability = new_observability small.capacity;
  store = [];
  mailboxes = [];
  nameplates = [];
  membership_hashes = [];
  expiries = [];
  queue_bytes = 0;
  connections = [];
  routes = [];
  last_log = none;
})

fresh-with_store : with_store env small [] ≡ ok fresh
unfolding with_store over_limiter over_loaded over_retained retain_all new decode_all
fresh-with_store = refl

abbrev dice : RelayRandomness
dice = record { mailbox_id = 5 ∷ []; membership_token = 6 ∷ []; nameplate = 42 }

abbrev bound : RelayService (MemoryMailboxStore)
bound = (handle env fresh 1 (9 ∷ []) 100 dice ClientMessage.bind).0

abbrev allocated : RelayService (MemoryMailboxStore)
allocated = (handle env bound 1 (9 ∷ []) 101 dice (ClientMessage.allocate 1 none)).0

allocated-Reachable : Reachable env [] allocated
allocated-Reachable =
    handled 1 (9 ∷ []) 101 dice (ClientMessage.allocate 1 none)
      (handled 1 (9 ∷ []) 100 dice ClientMessage.bind (started small fresh-with_store) refl) refl

Reachable-IsSound_example : IsSound env.sha256 allocated
Reachable-IsSound_example = Reachable-IsSound env [] env-IsTotal env-LoadsValid allocated-Reachable

service_answers_example :
    IsAnswer (handle env allocated 2 (9 ∷ []) 102 dice ClientMessage.bind).1
    × IsDone (sweep env allocated 102)
    × IsAnswer (emergency_close env allocated 102).1
service_answers_example =
    service_answers env [] env-IsTotal env-LoadsValid allocated 2 (9 ∷ []) 102 dice
      ClientMessage.bind allocated-Reachable

-- The service after a sweep, and the messages of it, once the mailbox has expired.
abbrev taken : Option (Reply (MemoryMailboxStore)) → RelayService (MemoryMailboxStore)
taken none = allocated
taken (some step) = step.0

abbrev swept : RelayService (MemoryMailboxStore)
swept = taken (sweep env allocated 800)

swept-sweep :
    sweep env allocated 800
    ≡ some (swept, ok (route 1 (ServerMessage.closed CloseReason.expired) ∷ []))
unfolding sweep sweep_loop first_due remove_mailbox after_store_removed removed_from
    remove_mailbox_indexes account_removed unroute drop_route clear_membership terminal_routes
    refresh_gauges set_gauges handle handle_checked answered dispatch bind finish record_operation
    allocate allocate_named choose_nameplate enrol enrolled attach leave_route displace
    join_connection actor_outcome operation sweep_if_due check check_dimension check_new check_known
    admit retry take_recency keep_swept observe_time sweep_at sweep_inner drop_all drop_dimension
    stale is_stale prune_all evict_first peer_key MailboxAllocate.allocate lookup insert remove has
    set_insert set_remove encode sequence_values snapshot attempt count_attempt prune_attempts prune
    start_cooldown LimiterCheck.sweep index octets_cmp
swept-sweep = refl

sweep_reaps_example :
    lookup (5 ∷ []) swept.mailboxes ≡ unexpired 800 (lookup (5 ∷ []) allocated.mailboxes)
sweep_reaps_example =
    sweep_reaps env env-IsTotal allocated swept 800
      (route 1 (ServerMessage.closed CloseReason.expired) ∷ []) (5 ∷ [])
      (Reachable-IsSound env [] env-IsTotal env-LoadsValid allocated-Reachable) swept-sweep

first_available_nameplate_example :
    IsFirstUnused allocated.mailboxes (first_available_nameplate allocated)
first_available_nameplate_example =
    first_available_nameplate-IsFirstUnused env [] allocated env-IsTotal env-LoadsValid
      allocated-Reachable
