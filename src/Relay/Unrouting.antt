-- ===== src/Relay/Unrouting.antt =====
-- src/relay.rs: the routes and the memberships of the connections mirror each other, for
-- `disconnect` and the removal of a mailbox.
use cbcl_pairing.Common.{
  Octets, octets_ordered, nat_ordered, pair_ordered, ◌≡◌, refl, Option, none, some, Option-cases,
  inl, inr, lookup, remove, lookup-remove, ==-iff, arith,
}
use cbcl_pairing.Mailbox.{Membership}
use cbcl_pairing.Relay.{ConnectionId, RelayService, SessionMembership}
use cbcl_pairing.Relay.Messages.{route_key}
use cbcl_pairing.Relay.Attaching.{disconnect, leave_route, membership_of}
use cbcl_pairing.Relay.Removing.{drop_route, unroute}
use cbcl_pairing.Relay.Routing.{IsRouted, key_of-clear}

module _ {S : Type 0} where
  disconnected-IsRouted :
      (s : RelayService S) (c : ConnectionId) (o : Option SessionMembership)
      → IsRouted s.routes s.connections
      → membership_of (lookup c s.connections) ≡ o
      → let left = leave_route (record s { connections = remove c s.connections }) c o in
        IsRouted left.routes left.connections
  unfolding leave_route
  disconnected-IsRouted s c none h e = record {
    forth = λ k d found. ground (arith, lookup-remove d c s.connections, ==-iff d c, h.forth k d);
    back = λ k d found. ground (arith, lookup-remove d c s.connections, ==-iff d c, h.back k d);
  }
  disconnected-IsRouted s c (some m) h e =
      let here = h.back (route_key m) c (rw e refl) in
      record {
        forth = λ k d found. ground (
          arith,
          here,
          lookup-remove d c s.connections,
          ==-iff d c,
          h.forth k d,
          lookup-remove k (route_key m) s.routes,
          ==-iff k (route_key m),
          h.forth k c,
        );
        back = λ k d found. ground (
          arith,
          here,
          lookup-remove d c s.connections,
          ==-iff d c,
          h.back k d,
          lookup-remove k (route_key m) s.routes,
          ==-iff k (route_key m),
        );
      }

  pub disconnect-IsRouted :
      (s : RelayService S) (c : ConnectionId)
      → IsRouted s.routes s.connections
      → IsRouted (disconnect s c).routes (disconnect s c).connections
  unfolding disconnect
  disconnect-IsRouted s c h = elim (Option-cases (lookup c s.connections)) [
    | inl gone ↦ rw (gone, disconnect) h
    | inr (state, e) ↦ rw (e, disconnect) (disconnected-IsRouted s c state.membership h (rw e refl))
  ]

  drop_route-IsRouted :
      (s : RelayService S) (m : SessionMembership) (o : Option ConnectionId)
      → IsRouted s.routes s.connections
      → lookup (route_key m) s.routes ≡ o
      → IsRouted (drop_route s m o).routes (drop_route s m o).connections
  unfolding drop_route
  drop_route-IsRouted s m none h e = h
  drop_route-IsRouted s m (some c) h e = record {
    forth = λ k d found. ground (
      arith,
      key_of-clear d c s.connections,
      lookup-remove k (route_key m) s.routes,
      ==-iff k (route_key m),
      ==-iff d c,
      h.forth k d,
      h.forth (route_key m) c e,
    );
    back = λ k d found. ground (
      arith,
      key_of-clear d c s.connections,
      lookup-remove k (route_key m) s.routes,
      ==-iff k (route_key m),
      ==-iff d c,
      h.back k d,
    );
  }

  pub unroute-IsRouted :
      (s : RelayService S) (id : Octets) (member : Membership)
      → IsRouted s.routes s.connections
      → IsRouted (unroute s id member).routes (unroute s id member).connections
  unfolding unroute
  unroute-IsRouted s id member h =
      let m : SessionMembership = record { mailbox_id = id; membership = member } in
      drop_route-IsRouted s m (lookup (route_key m) s.routes) h refl
