-- ===== src/Storage/Store.antt =====
-- src/storage.rs: the trait `MailboxStore` as a record of methods over a state, and the store in
-- memory that implements it.
use cbcl_pairing.Common.{
  ◌≡◌, refl, Octets, octets_ordered, List, [], ◌∷◌, insert, remove, ok, err, panic, ◌>>=◌, ◌==◌,
  Bool-cases, inl, inr, arith,
}
use cbcl_pairing.Cbor.{Codec, IsCodec}
use cbcl_pairing.Mailbox.{Mailbox}
use cbcl_pairing.Mailbox.Invariant.{IsValid}
use cbcl_pairing.Mailbox.Snapshot.{snapshot}
use cbcl_pairing.Storage.Record.{Stored, encode}
use cbcl_pairing.Storage.Decode.{decode}
use cbcl_pairing.Storage.Retained.{HasWidths, decode-encode}

-- A method returns the store beside its result.
pub record MailboxStore (S : Type 0) : Type 0 where
  pub load : S → S × Stored (List Mailbox)
  pub put : S → Mailbox → S × Stored (Unit {0})
  pub remove : S → Octets → S × Stored (Unit {0})

-- `BTreeMap<[u8; 32], Vec<u8>>`
abbrev pub MemoryMailboxStore : Type 0
MemoryMailboxStore = List (Octets × Octets)

unfoldable pub decode_all : Codec → (Octets → Octets) → MemoryMailboxStore → Stored (List Mailbox)
decode_all c sha256 [] = ok []
decode_all c sha256 ((id, bytes) ∷ rest) = do
  m ← decode c sha256 bytes
  ms ← decode_all c sha256 rest
  ok (m ∷ ms)

abbrev pub put_record :
    MemoryMailboxStore → Octets → Stored Octets → MemoryMailboxStore × Stored (Unit {0})
put_record s id (ok bytes) = (insert id bytes s, ok tt)
put_record s id (err e) = (s, err e)
put_record s id panic = (s, panic)

abbrev pub memory_store : Codec → (Octets → Octets) → MailboxStore MemoryMailboxStore
memory_store c sha256 = record {
  load = λ s. (s, decode_all c sha256 s);
  put = λ s m. put_record s (snapshot m).mailbox_id (encode c (snapshot m));
  remove = λ s id. (remove id s, ok tt);
}

-- The mailboxes of a map, in the order of the map.
abbrev pub mailboxes : List (Octets × Mailbox) → List Mailbox
mailboxes [] = []
mailboxes ((id, m) ∷ rest) = m ∷ mailboxes rest

module _ (c : Codec) (sha256 : Octets → Octets) where
  -- The store holds a record for each mailbox of the map, and nothing else.
  abbrev pub Retains : MemoryMailboxStore → List (Octets × Mailbox) → Type 0
  Retains [] [] = Unit
  Retains ((k, b) ∷ s) ((j, m) ∷ ms) = (k ≡ j) × (decode c sha256 b ≡ ok m) × Retains s ms
  Retains _ _ = ⊥

  pub Retains-load :
      (s : MemoryMailboxStore) (ms : List (Octets × Mailbox))
      → Retains s ms
      → decode_all c sha256 s ≡ ok (mailboxes ms)
  unfolding decode_all
  Retains-load [] [] h = refl
  Retains-load [] (x ∷ ms) h = elim h [ ]
  Retains-load (x ∷ s) [] h = elim h [ ]
  Retains-load ((k, b) ∷ s) ((j, m) ∷ ms) (same, here, h) = ground (arith, Retains-load s ms h)

  Retains-insert :
      (id : Octets) (bytes : Octets) (new : Mailbox)
      → decode c sha256 bytes ≡ ok new
      → (s : MemoryMailboxStore) (ms : List (Octets × Mailbox)) → Retains s ms
      → Retains (insert id bytes s) (insert id new ms)
  unfolding insert
  Retains-insert id bytes new e [] [] h = (refl, e, tt)
  Retains-insert id bytes new e [] (x ∷ ms) h = elim h [ ]
  Retains-insert id bytes new e (x ∷ s) [] h = elim h [ ]
  Retains-insert id bytes new e ((k, b) ∷ s) ((j, m) ∷ ms) (same, here, h) =
      rw same (elim (Bool-cases (id == j)) [
        | inl found ↦ rw found (refl, e, h)
        | inr other ↦ rw other (refl, here, Retains-insert id bytes new e s ms h)
      ])

  Retains-remove :
      (id : Octets) (s : MemoryMailboxStore) (ms : List (Octets × Mailbox))
      → Retains s ms
      → Retains (remove id s) (remove id ms)
  unfolding remove
  Retains-remove id [] [] h = tt
  Retains-remove id [] (x ∷ ms) h = elim h [ ]
  Retains-remove id (x ∷ s) [] h = elim h [ ]
  Retains-remove id ((k, b) ∷ s) ((j, m) ∷ ms) (same, here, h) =
      rw same (elim (Bool-cases (id == j)) [
        | inl found ↦ rw found (Retains-remove id s ms h)
        | inr other ↦ rw other (refl, here, Retains-remove id s ms h)
      ])

  -- The store in memory is a map of mailboxes, if the codec reads back what it wrote: `load`
  -- returns exactly the mailboxes of the map, `put` of a well-formed mailbox that can be
  -- encoded, and whose identifier, hashes, digests and commitment have 32 octets, replaces or
  -- adds it under its identifier, and `remove` takes the identifier out.
  pub memory_store_refines :
      (s : MemoryMailboxStore) (ms : List (Octets × Mailbox)) (m : Mailbox) (id b : Octets)
      → IsCodec c
      → Retains s ms
      → IsValid sha256 m
      → HasWidths m
      → encode c (snapshot m) ≡ ok b
      → let store = memory_store c sha256 in
        ((store.load s).1 ≡ ok (mailboxes ms))
        × ((store.put s m).1 ≡ ok tt)
        × Retains (store.put s m).0 (insert m.mailbox_id m ms)
        × Retains (store.remove s id).0 (remove id ms)
  unfolding snapshot
  memory_store_refines s ms m id b law h v w e =
      let back = decode-encode sha256 c m b law v w e in
      (
        Retains-load s ms h,
        rw e refl,
        rw e (Retains-insert m.mailbox_id b m back s ms h),
        Retains-remove id s ms h,
      )
