-- ===== src/Relay.antt =====
-- src/relay.rs: the state of the relay service, and what it is given. The operations are in the
-- modules below.
pub mod Messages
pub mod Attaching
pub mod Removing
pub mod Committing
pub mod Allocating
pub mod Claiming
pub mod Members
pub mod Handling
pub mod Nameplates
pub mod Sampling
pub mod Reaping
pub mod Starting
pub mod Routing
pub mod Unrouting
pub mod Accounting
pub mod Naming
pub mod Soundness
pub mod Keeping
pub mod Committed
pub mod Preserving
pub mod Enrolling
pub mod Serving
pub mod Sweeping
pub mod Closing
pub mod Expiring
pub mod Loading
pub mod Delivering
pub mod Arriving
pub mod Offering
pub mod Memory
pub mod Reach
pub mod Available
mod Examples
use cbcl_pairing.Common.{ℕ, Octets, List, Option, Bool}
use cbcl_pairing.Wire.{ServerMessage}
use cbcl_pairing.Mailbox.{Membership, Mailbox, MembershipHash}
use cbcl_pairing.Limiter.{Limiter, LimiterConfig}
use cbcl_pairing.Limiter.Peers.{PeerEnv}
use cbcl_pairing.Observability.{CapacityCaps, RelayObservability, RelayLogEvent}
use cbcl_pairing.Storage.Store.{MailboxStore}

abbrev pub ConnectionId : Type 0
ConnectionId = ℕ

pub record RelayRandomness : Type 0 where
  pub mailbox_id : Octets
  pub membership_token : Octets
  pub nameplate : ℕ

pub record RelayConfig : Type 0 where
  pub operator_key : Octets
  pub limiter : LimiterConfig
  pub capacity : CapacityCaps
  pub allocation_enabled : Bool

pub record RoutedMessage : Type 0 where
  pub connection : ConnectionId
  pub message : ServerMessage

pub data RelayError : Type 0 where
  invalid_configuration limiter storage : RelayError

pub record SessionMembership : Type 0 where
  pub mailbox_id : Octets
  pub membership : Membership

pub record ConnectionState : Type 0 where
  pub bound : Bool
  pub membership : Option SessionMembership

-- The key of a route, `([u8; 32], u8)`.
abbrev pub RouteKey : Type 0
RouteKey = Octets × ℕ

-- `S` is the state of the injected store.
pub record RelayService (S : Type 0) : Type 0 where
  pub config : RelayConfig
  pub limiter : Limiter
  pub observability : RelayObservability
  pub store : S
  pub mailboxes : List (Octets × Mailbox)
  pub nameplates : List (ℕ × Octets)
  pub membership_hashes : List MembershipHash
  pub expiries : List (ℕ × Octets)
  pub queue_bytes : ℕ
  pub connections : List (ConnectionId × ConnectionState)
  pub routes : List (RouteKey × ConnectionId)
  pub last_log : Option RelayLogEvent

-- The methods of the store, the limiter's parameters and the hash `sha2::Sha256`.
pub record RelayEnv (S : Type 0) : Type 0 where
  pub store : MailboxStore S
  pub peers : PeerEnv
  pub sha256 : Octets → Octets
