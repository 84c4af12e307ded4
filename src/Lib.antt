-- ===== src/Lib.antt =====
-- cbcl-pairing: a blind relay and the endpoints of a consent-gated pairing between two peers.
-- This library models the deterministic cores of the Rust crate and proves what they promise.
--
-- Two endpoints exchange frames through the relay. The relay (src/relay.rs) admits each command
-- through the limiter (src/limiter.rs), applies it to a mailbox (src/mailbox.rs), and routes what
-- comes out. The endpoints confirm a channel (src/channel.rs) and seal what they send; the relay
-- stores and forwards it unread.
--
-- - Common: Boolean tests, lists, maps and orders, machine words, and `Outcome`, what a function
--   that returns a `Result` can do (a value, an error, a panic). A `BTreeMap` is an association
--   list, a `BTreeSet` a list; byte strings are lists of octets.
-- - Wire: the recognised values of src/wire.rs that the other parts exchange, and the claim
--   commitment.
-- - Mailbox: src/mailbox.rs. `allocate`, `allocate_v2`, `transition` (with `claim`, `claim_v2`,
--   `open_member`, `put`, `ack`, `close`), `reap`, `snapshot` and `from_snapshot` bear the names
--   of the source. `Mailbox.Invariant` has the well-formed mailbox.
-- - Storage: src/storage.rs. `Record` is `encode`, `Decode` is `decode`, `Store` the trait
--   `MailboxStore` and the store in memory, `Names` the file names of the directory store, whose
--   effects on the file system are not modelled.
-- - Cbor: the values of the third-party CBOR library, and the interface of its reader and writer.
-- - Limiter: src/limiter.rs. `new`, `check`, `sweep` and `sweep_if_due` return the limiter beside
--   the answer; `Limiter.Admit` is what one attempt does to the entry of its dimension.
-- - Relay: src/relay.rs. `Starting` is `with_store`, `Memory` is `new`, `Handling` is `handle`,
--   with its commands in `Allocating`, `Claiming` and `Members`; `Attaching` has `attach` and
--   `disconnect`, `Committing` and `Removing` the changes to the mailboxes, `Reaping` is `sweep`
--   and `emergency_close`, `Nameplates` is `first_available_nameplate`, `Sampling` is
--   `sample_nameplate`. `Reach` has the services that the program can produce. A method returns
--   the service beside its result.
-- - Endpoint: src/endpoint.rs, the reducer of one side of a pairing. `Actions` are its methods:
--   state in, state and result out, so that what was written before an error stays. `Terminating`
--   has `terminate`, `fail` and sealing, `Finishing` and `Confirming` the calls up to the
--   session, `Applying` and `Retrying` the controls of the session, `Receiving` is
--   `receive_frame`, `Sending` the calls of the application, `Invitations` the record of an
--   invitation. The record `EndpointEnv` has what the reducer calls.
-- - Protocol and Profile: src/cbcl_protocol.rs and src/profile.rs, as the endpoint sees them: the
--   values, and the monitors and profiles as interfaces, of which nothing is assumed.
-- - Observability: src/observability.rs.
-- - Channel: src/channel.rs. `Schedule` is `PendingChannel` (`new_channel` is `new`), `Seal` is
--   `SecureChannel` (`open_frame` is `open`), `Nonce` is `derive_nonce`.
--
-- Hashes, the cipher, the CBOR encoder and the parser of addresses are third-party code:
-- arguments, or fields of a record of functions. What a theorem relies on of them is a
-- hypothesis. Constant-time comparison is equality, and the wiping of secrets is not modelled.
-- Numbers are natural numbers; where the source checks or saturates at the end of a `u64`, so
-- does the model. The loops on fuel are that of the relay's `sweep`: each pass removes one
-- expiry, so that their number is enough; and that of the endpoint's `retry_pending`: each pass
-- but the last removes a control, so that one more than there are is enough.
--
-- Not modelled: the credential/v2 ceremonies (src/credential_v2), the monitors over the
-- third-party CBCL engine and the built-in profiles (src/cbcl_protocol.rs, src/profile.rs), the
-- recognisers of src/wire.rs, which rest on a third-party CBOR reader and schema validator, the
-- key exchange (src/cpace.rs), and the relay binaries (src/bin), which are input and output
-- around the relay service.
pub mod Common
pub mod Cbor
pub mod Wire
pub mod Mailbox
pub mod Storage
pub mod Limiter
pub mod Channel
pub mod Observability
pub mod Relay
pub mod Profile
pub mod Protocol
pub mod Endpoint
