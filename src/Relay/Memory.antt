-- ===== src/Relay/Memory.antt =====
-- src/storage.rs and src/relay.rs: the store in memory does what the service asks of its store.
use cbcl_pairing.Common.{Octets, Outcome, Safe, ◌≢◌, List, [], ◌∷◌, ok, err, panic, arith, refl}
use cbcl_pairing.Cbor.{Codec}
use cbcl_pairing.Limiter.Peers.{PeerEnv}
use cbcl_pairing.Mailbox.{Mailbox}
use cbcl_pairing.Mailbox.Snapshot.{MailboxSnapshot, SequenceSnapshot, snapshot}
use cbcl_pairing.Storage.Record.{Stored, encode, sequence_value, sequence_values}
use cbcl_pairing.Storage.Store.{
  MemoryMailboxStore, Retains, Retains-load, mailboxes, memory_store, put_record,
}
use cbcl_pairing.Relay.{RelayConfig, RelayEnv, RelayError, RelayService}
use cbcl_pairing.Relay.Starting.{with_store}
use cbcl_pairing.Relay.Soundness.{IsSound, IsTotal}
use cbcl_pairing.Relay.Loading.{AreValid, LoadsValid, with_store-IsSound}

sequence_values-ne-panic : (ss : List SequenceSnapshot) → sequence_values ss ≢ panic
unfolding sequence_values sequence_value
sequence_values-ne-panic [] h = ground arith
sequence_values-ne-panic (s ∷ ss) h = ground (arith, sequence_values-ne-panic ss)

encode-ne-panic : (c : Codec) (s : MailboxSnapshot) → encode c s ≢ panic
unfolding encode
encode-ne-panic c s h = ground (arith, sequence_values-ne-panic s.sequences)

put_record-ne-panic :
    (s : MemoryMailboxStore) (id : Octets) (r : Stored Octets)
    → r ≢ panic
    → (put_record s id r).1 ≢ panic
put_record-ne-panic s id (ok bytes) h e = ground arith
put_record-ne-panic s id (err x) h e = ground arith
put_record-ne-panic s id panic h e = h refl

pub memory_store-IsTotal : (c : Codec) (sha256 : Octets → Octets) → IsTotal (memory_store c sha256)
memory_store-IsTotal c sha256 = record {
  put = λ s m. put_record-ne-panic s (snapshot m).mailbox_id _ (encode-ne-panic c (snapshot m));
  remove = λ s id. ground arith;
}

-- The relay over the store in memory.
abbrev pub memory_env : Codec → PeerEnv → (Octets → Octets) → RelayEnv MemoryMailboxStore
memory_env c peers sha256 = record { store = memory_store c sha256; peers = peers; sha256 = sha256 }

-- A store in memory that holds the records of well-formed mailboxes loads these.
pub memory_env-LoadsValid :
    (c : Codec) (peers : PeerEnv) (sha256 : Octets → Octets) (s : MemoryMailboxStore)
    (ms : List (Octets × Mailbox))
    → Retains c sha256 s ms
    → AreValid sha256 (mailboxes ms)
    → LoadsValid (memory_env c peers sha256) s
memory_env-LoadsValid c peers sha256 s ms h v = rw (Retains-load c sha256 s ms h) v

-- `RelayService::new`
unfoldable pub new :
    Codec
    → PeerEnv
    → (Octets → Octets)
    → RelayConfig
    → Outcome RelayError (RelayService MemoryMailboxStore)
new c peers sha256 config = with_store (memory_env c peers sha256) config []

new-IsSound :
    (c : Codec) (peers : PeerEnv) (sha256 : Octets → Octets) (config : RelayConfig)
    → Safe (IsSound sha256) (new c peers sha256 config)
unfolding new
new-IsSound c peers sha256 config =
    with_store-IsSound (memory_env c peers sha256) config []
      (memory_env-LoadsValid c peers sha256 [] [] tt tt)
