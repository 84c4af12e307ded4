-- ===== src/Storage.antt =====
-- src/storage.rs: the canonical record of a mailbox, and the stores of such records. The parts are
-- in the modules below.
pub mod Record
pub mod Decode
pub mod RoundTrip
pub mod Retained
pub mod Store
pub mod Names
pub mod Temporary
mod Examples

pub data StoreError : Type 0 where
  io malformed conflict : StoreError
