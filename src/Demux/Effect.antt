-- ===== src/Demux/Effect.antt =====
-- What routes 1 and 2 of loft/src/dtls_mbed.rs may do to the maps.
use loft.Prelude.{ℕ, ◌≡◌, refl, Option, none, some, List, if_ind}
use loft.Prelude.Eq.{bytes_key, pair_eq, nat_eq}
use loft.Prelude.Assoc.{lookup, remove}
use loft.Quota.Defs.{ip_eq}
use loft.Demux.{
  SocketAddr, Maps, Sending, sent, full, disconnected, Sessions, Routed, send_by_cid,
  route_found_cid, route_cid, cid_of, send_by_addr, route_addr, route,
}

-- An entry goes only when the channel of the session that it names is disconnected.
pub data RouteEffect (s : Sessions) (m : Maps) (r : Routed) : Type 0 where
  kept : r.maps ≡ m → RouteEffect s m r
  dead_cid :
      (cid : List ℕ) (conn : ℕ)
      → lookup cid m.by_cid ≡ some conn
      → s.channel conn ≡ disconnected
      → r.maps ≡ record m { by_cid = remove cid m.by_cid }
      → RouteEffect s m r
  dead_addr :
      (peer : SocketAddr) (conn : ℕ)
      → lookup peer m.by_addr ≡ some conn
      → s.channel conn ≡ disconnected
      → r.maps ≡ record m { by_addr = remove peer m.by_addr }
      → RouteEffect s m r

module _ (s : Sessions) (m : Maps) where
  send_by_cid-Effect :
      (cid : List ℕ) (conn : ℕ) (g : Sending)
      → lookup cid m.by_cid ≡ some conn
      → s.channel conn ≡ g
      → RouteEffect s m (send_by_cid m cid conn g)
  send_by_cid-Effect cid conn sent held e = RouteEffect.kept refl
  send_by_cid-Effect cid conn full held e = RouteEffect.kept refl
  send_by_cid-Effect cid conn disconnected held e = RouteEffect.dead_cid cid conn held e refl

  route_found_cid-Effect :
      (cid : List ℕ) (o : Option ℕ)
      → lookup cid m.by_cid ≡ o
      → RouteEffect s m (route_found_cid s m cid o)
  route_found_cid-Effect cid none held = RouteEffect.kept refl
  route_found_cid-Effect cid (some conn) held =
      send_by_cid-Effect cid conn (s.channel conn) held refl

  route_cid-Effect : (o : Option (List ℕ)) → RouteEffect s m (route_cid s m o)
  route_cid-Effect none = RouteEffect.kept refl
  route_cid-Effect (some cid) = route_found_cid-Effect cid (lookup cid m.by_cid) refl

  send_by_addr-Effect :
      (peer : SocketAddr) (conn : ℕ) (g : Sending)
      → lookup peer m.by_addr ≡ some conn
      → s.channel conn ≡ g
      → RouteEffect s m (send_by_addr m peer conn g)
  send_by_addr-Effect peer conn sent held e = RouteEffect.kept refl
  send_by_addr-Effect peer conn full held e = RouteEffect.kept refl
  send_by_addr-Effect peer conn disconnected held e = RouteEffect.dead_addr peer conn held e refl

  route_addr-Effect :
      (peer : SocketAddr) (dgram : List ℕ) (o : Option ℕ)
      → lookup peer m.by_addr ≡ o
      → RouteEffect s m (route_addr s m peer dgram o)
  route_addr-Effect peer dgram none held = RouteEffect.kept refl
  route_addr-Effect peer dgram (some conn) held =
      if_ind (RouteEffect s m) _ (λ _. RouteEffect.kept refl)
        (λ _. send_by_addr-Effect peer conn (s.channel conn) held refl)

  -- Routing a datagram takes at most one entry from the maps, and only one whose session is gone.
  pub route-Effect : (peer : SocketAddr) (dgram : List ℕ) → RouteEffect s m (route s m peer dgram)
  unfolding route
  route-Effect peer dgram =
      if_ind (RouteEffect s m) _ (λ _. route_cid-Effect (cid_of dgram))
        (λ _. route_addr-Effect peer dgram (lookup peer m.by_addr) refl)
