-- ===== src/Relay/Attaching.antt =====
-- src/relay.rs: `attach` and `disconnect`, the connections and the routes to them, and what a step
-- of the service returns.
use cbcl_pairing.Common.{
  Octets, octets_ordered, nat_ordered, pair_ordered, nat_beq, List, [], ◌∷◌, Option, none, some,
  Bool, false, if◌then◌else◌, lookup, insert, remove, Outcome, ok, err, panic,
}
use cbcl_pairing.Wire.{CloseReason, ServerMessage}
use cbcl_pairing.Relay.{
  ConnectionId, ConnectionState, RelayError, RelayService, RoutedMessage, SessionMembership,
}
use cbcl_pairing.Relay.Messages.{route, route_key}

-- A method that takes `&mut self` returns the service beside its result, also with an error.
abbrev pub Step : Type 0 → Type 0 → Type 0
Step S A = RelayService S × Outcome RelayError A

-- The `?` operator: what follows runs on the service that the call left.
abbrev pub and_then : {S A B : Type 0} → Step S A → (RelayService S → A → Step S B) → Step S B
and_then (s, ok a) f = f s a
and_then (s, err e) f = (s, err e)
and_then (s, panic) f = (s, panic)

abbrev pub membership_of : Option ConnectionState → Option SessionMembership
membership_of none = none
membership_of (some state) = state.membership

-- `entry(connection).or_default()`
abbrev pub or_default : Option ConnectionState → ConnectionState
or_default none = record { bound = false; membership = none }
or_default (some state) = state

-- `get_mut(..)` and `membership = None`, where there is one.
unfoldable pub clear_membership :
    ConnectionId
    → Option ConnectionState
    → List (ConnectionId × ConnectionState)
    → List (ConnectionId × ConnectionState)
clear_membership connection none connections = connections
clear_membership connection (some state) connections =
    insert connection (record state { membership = none }) connections

abbrev pub is_routed : ConnectionId → Option ConnectionId → Bool
is_routed connection none = false
is_routed connection (some c) = nat_beq c connection

-- `terminal_routes`
abbrev pub closed_to : CloseReason → Option ConnectionId → List RoutedMessage → List RoutedMessage
closed_to reason none rest = rest
closed_to reason (some connection) rest = route connection (ServerMessage.closed reason) ∷ rest

module _ {S : Type 0} where
  unfoldable pub leave_route :
      RelayService S → ConnectionId → Option SessionMembership → RelayService S
  leave_route s connection none = s
  leave_route s connection (some m) =
      if is_routed connection (lookup (route_key m) s.routes)
      then record s { routes = remove (route_key m) s.routes }
      else s

  -- The connection that had the route loses its membership.
  unfoldable pub displace : RelayService S → ConnectionId → Option ConnectionId → RelayService S
  displace s connection none = s
  displace s connection (some old) =
      if nat_beq old connection
      then s
      else record s { connections = clear_membership old (lookup old s.connections) s.connections }

  unfoldable pub join_connection :
      RelayService S → ConnectionId → SessionMembership → RelayService S
  join_connection s connection m = record s {
    connections =
        insert connection
          (record (or_default (lookup connection s.connections)) { membership = some m })
          s.connections;
  }

  unfoldable pub attach : RelayService S → ConnectionId → SessionMembership → RelayService S
  unfolding leave_route displace join_connection
  attach s connection m =
      let left = leave_route s connection (membership_of (lookup connection s.connections)) in
      let old = lookup (route_key m) left.routes in
      let routed = record left { routes = insert (route_key m) connection left.routes } in
      join_connection (displace routed connection old) connection m

  unfoldable pub disconnect : RelayService S → ConnectionId → RelayService S
  unfolding leave_route
  disconnect s connection = elim (lookup connection s.connections) [
    | none ↦ s
    | some state ↦
        leave_route (record s { connections = remove connection s.connections }) connection
          state.membership
  ]

  unfoldable pub terminal_routes : RelayService S → Octets → CloseReason → List RoutedMessage
  terminal_routes s id reason =
      closed_to reason (lookup (id, 0) s.routes) (closed_to reason (lookup (id, 1) s.routes) [])
