-- ===== src/Relay/Routing.antt =====
-- src/relay.rs: the routes and the memberships of the connections mirror each other, for `attach`.
use cbcl_pairing.Common.{
  octets_ordered, nat_ordered, pair_ordered, ◌≡◌, refl, ◌≢◌, List, Option, none, some,
  if◌then◌else◌, ◌==◌, lookup, insert, lookup-insert, lookup-remove, ==-iff, arith,
}
use cbcl_pairing.Relay.{ConnectionId, ConnectionState, RelayService, RouteKey, SessionMembership}
use cbcl_pairing.Relay.Messages.{route_key}
use cbcl_pairing.Relay.Attaching.{
  attach, clear_membership, displace, join_connection, leave_route, membership_of, or_default,
}

abbrev pub Routes : Type 0
Routes = List (RouteKey × ConnectionId)

abbrev pub Connections : Type 0
Connections = List (ConnectionId × ConnectionState)

abbrev pub member_key : Option SessionMembership → Option RouteKey
member_key none = none
member_key (some m) = some (route_key m)

-- The key of the membership that a connection has.
abbrev pub key_of : ConnectionId → Connections → Option RouteKey
key_of c connections = member_key (membership_of (lookup c connections))

-- A connection is on the route of a membership exactly if the membership is the connection's.
pub record IsRouted (routes : Routes) (connections : Connections) : Type 0 where
  pub forth :
      (k : RouteKey) (c : ConnectionId) → lookup k routes ≡ some c → key_of c connections ≡ some k
  pub back :
      (k : RouteKey) (c : ConnectionId) → key_of c connections ≡ some k → lookup k routes ≡ some c

-- The same for every connection but one, which is on no route.
record IsRoutedBut (but : ConnectionId) (routes : Routes) (connections : Connections) : Type 0 where
  away : (k : RouteKey) → lookup k routes ≢ some but
  forth :
      (k : RouteKey) (c : ConnectionId) → lookup k routes ≡ some c → key_of c connections ≡ some k
  back :
      (k : RouteKey) (c : ConnectionId)
      → c ≢ but
      → key_of c connections ≡ some k
      → lookup k routes ≡ some c

pub key_of-clear :
    (c d : ConnectionId) (connections : Connections)
    → key_of c (clear_membership d (lookup d connections) connections)
      ≡ (if c == d then none else key_of c connections)
unfolding clear_membership
key_of-clear c d connections =
    let e =
      lookup-insert c d (record (or_default (lookup d connections)) { membership = none })
        connections in
    ground (arith, ==-iff c d)

module _ {S : Type 0} where
  leave_route-IsRoutedBut :
      (s : RelayService S) (c : ConnectionId) (o : Option SessionMembership)
      → IsRouted s.routes s.connections
      → membership_of (lookup c s.connections) ≡ o
      → IsRoutedBut c (leave_route s c o).routes (leave_route s c o).connections
  unfolding leave_route
  leave_route-IsRoutedBut s c none h e = record {
    away = λ k found. ground (arith, h.forth k c found);
    forth = h.forth;
    back = λ k d other found. h.back k d found;
  }
  leave_route-IsRoutedBut s c (some m) h e =
      let here = h.back (route_key m) c (rw e refl) in
      record {
        away = λ k found. ground (
          arith,
          here,
          lookup-remove k (route_key m) s.routes,
          h.forth k c,
          ==-iff k (route_key m),
        );
        forth = λ k d found. ground (
          arith,
          here,
          lookup-remove k (route_key m) s.routes,
          h.forth k d,
          ==-iff k (route_key m),
        );
        back = λ k d other found. ground (
          arith,
          here,
          lookup-remove k (route_key m) s.routes,
          h.back k d,
          ==-iff k (route_key m),
        );
      }

  -- The key of a connection once another one was displaced and it has joined.
  key_of-join :
      (s : RelayService S) (c d : ConnectionId) (m : SessionMembership)
      → key_of d (join_connection s c m).connections
        ≡ (if d == c then some (route_key m) else key_of d s.connections)
  unfolding join_connection
  key_of-join s c d m =
      let joining = record (or_default (lookup c s.connections)) { membership = some m } in
      ground (arith, lookup-insert d c joining s.connections)

  displaced-IsRouted :
      (s : RelayService S) (c : ConnectionId) (m : SessionMembership) (old : Option ConnectionId)
      → IsRoutedBut c s.routes s.connections
      → lookup (route_key m) s.routes ≡ old
      → let routed = record s { routes = insert (route_key m) c s.routes } in
        let joined = join_connection (displace routed c old) c m in
        IsRouted joined.routes joined.connections
  unfolding displace join_connection
  displaced-IsRouted s c m none h e = record {
    forth = λ k d found. ground (
      arith,
      key_of-join (record s { routes = insert (route_key m) c s.routes }) c d m,
      lookup-insert k (route_key m) c s.routes,
      ==-iff k (route_key m),
      ==-iff d c,
      h.forth k d,
      h.away k,
    );
    back = λ k d found. ground (
      arith,
      key_of-join (record s { routes = insert (route_key m) c s.routes }) c d m,
      lookup-insert k (route_key m) c s.routes,
      ==-iff k (route_key m),
      ==-iff d c,
      h.back k d,
      h.away k,
    );
  }
  displaced-IsRouted s c m (some old) h e =
      let routed = record s { routes = insert (route_key m) c s.routes } in
      let displaced = displace routed c (some old) in
      let other : old ≢ c = λ same. h.away (route_key m) (rw (e, same) refl) in
      record {
        forth = λ k d found. ground (
          arith,
          key_of-join displaced c d m,
          key_of-clear d old s.connections,
          lookup-insert k (route_key m) c s.routes,
          ==-iff k (route_key m),
          ==-iff d c,
          ==-iff d old,
          h.forth k d,
          h.forth (route_key m) old e,
          h.away k,
        );
        back = λ k d found. ground (
          arith,
          key_of-join displaced c d m,
          key_of-clear d old s.connections,
          lookup-insert k (route_key m) c s.routes,
          ==-iff k (route_key m),
          ==-iff d c,
          ==-iff d old,
          h.back k d,
          h.away k,
        );
      }

  pub attach-IsRouted :
      (s : RelayService S) (c : ConnectionId) (m : SessionMembership)
      → IsRouted s.routes s.connections
      → IsRouted (attach s c m).routes (attach s c m).connections
  unfolding attach
  attach-IsRouted s c m h =
      let o = membership_of (lookup c s.connections) in
      let left = leave_route s c o in
      displaced-IsRouted left c m (lookup (route_key m) left.routes)
        (leave_route-IsRoutedBut s c o h refl) refl
