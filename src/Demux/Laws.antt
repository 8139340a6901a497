-- ===== src/Demux/Laws.antt =====
-- Who gets a datagram, and what a session may remove from the maps (loft/src/dtls_mbed.rs).
use loft.Prelude.{
  ℕ, ◌≡◌, ◌≢◌, refl, sym, ap, ◌∙◌, true, false, Option, none, some, List, ==_iff, Bool-cases,
  if_ind, inl, inr, arith,
}
use loft.Prelude.Eq.{nat_eq, bytes_key, bytes_eq_iff, pair_eq, pair_beq_iff}
use loft.Prelude.Assoc.{lookup, lookup-remove}
use loft.Quota.Defs.{ip_eq}
use loft.Demux.{
  SocketAddr, Maps, Sending, sent, full, disconnected, Sessions, Routed, is_byte, content_type_cid,
  cid_of, send_by_cid, route_found_cid, route_cid, route, owns, remove_by_addr_if_mine,
  remove_by_cid_if_mine, cleaned,
}

-- What a record with a connection id may do.
abbrev pub IsCidOnly : Maps → Option (List ℕ) → Routed → Type 0
IsCidOnly m cid r =
    (r.is_unrouted ≡ false)
    × (r.maps.by_addr ≡ m.by_addr)
    × ((conn : ℕ)
        → r.delivered ≡ some conn
        → (c : List ℕ) × (cid ≡ some c) × (lookup c m.by_cid ≡ some conn))

send_by_cid-IsCidOnly :
    (m : Maps) (c : List ℕ) (conn : ℕ) (s : Sending)
    → lookup c m.by_cid ≡ some conn
    → IsCidOnly m (some c) (send_by_cid m c conn s)
send_by_cid-IsCidOnly m c conn sent held = (refl, refl, λ j e. (c, refl, held ∙ e))
send_by_cid-IsCidOnly m c conn full held = (refl, refl, λ j e. absurd (ground arith))
send_by_cid-IsCidOnly m c conn disconnected held = (refl, refl, λ j e. absurd (ground arith))

route_found_cid-IsCidOnly :
    (s : Sessions) (m : Maps) (c : List ℕ) (found : Option ℕ)
    → lookup c m.by_cid ≡ found
    → IsCidOnly m (some c) (route_found_cid s m c found)
route_found_cid-IsCidOnly s m c none held = (refl, refl, λ j e. absurd (ground arith))
route_found_cid-IsCidOnly s m c (some conn) held =
    send_by_cid-IsCidOnly m c conn (s.channel conn) held

route_cid-IsCidOnly :
    (s : Sessions) (m : Maps) (cid : Option (List ℕ)) → IsCidOnly m cid (route_cid s m cid)
route_cid-IsCidOnly s m none = (refl, refl, λ j e. absurd (ground arith))
route_cid-IsCidOnly s m (some c) = route_found_cid-IsCidOnly s m c (lookup c m.by_cid) refl

-- A datagram that begins as a `tls12_cid` record never reaches the stateless path and leaves the address
-- map alone, and if a session gets it, its connection id is the one that the record carries.
pub route-IsCidOnly :
    (s : Sessions) (m : Maps) (peer : SocketAddr) (dgram : List ℕ)
    → is_byte 0 content_type_cid dgram ≡ true
    → IsCidOnly m (cid_of dgram) (route s m peer dgram)
unfolding route
route-IsCidOnly s m peer dgram cid_type = rw cid_type (route_cid-IsCidOnly s m (cid_of dgram))

own_false : (conn : ℕ) (found : Option ℕ) → owns found conn ≡ false → found ≢ some conn
own_false conn found other e = ground (arith, ==_iff conn conn)

remove_by_addr-others :
    (m : Maps) (peer other : SocketAddr) (conn owner : ℕ)
    → owner ≢ conn
    → lookup other m.by_addr ≡ some owner
    → lookup other (remove_by_addr_if_mine m peer conn).by_addr ≡ some owner
unfolding remove_by_addr_if_mine
remove_by_addr-others m peer other conn owner differ held =
    elim (Bool-cases (owns (lookup peer m.by_addr) conn)) [
      | inr theirs ↦ rw theirs held
      | inl mine ↦
          rw (mine, lookup-remove peer other m.by_addr)
            (ground (arith, pair_beq_iff peer other, ==_iff owner conn, held, mine))
    ]

pub remove_by_addr-own :
    (m : Maps) (peer : SocketAddr) (conn : ℕ)
    → lookup peer (remove_by_addr_if_mine m peer conn).by_addr ≢ some conn
unfolding remove_by_addr_if_mine
remove_by_addr-own m peer conn = elim (Bool-cases (owns (lookup peer m.by_addr) conn)) [
  | inr theirs ↦ rw theirs (λ e. own_false conn (lookup peer m.by_addr) theirs e)
  | inl mine ↦
      rw (mine, lookup-remove peer peer m.by_addr) (λ e. ground (arith, pair_beq_iff peer peer))
]

pub remove_by_cid-own :
    (m : Maps) (cid : List ℕ) (conn : ℕ)
    → lookup cid (remove_by_cid_if_mine m cid conn).by_cid ≢ some conn
unfolding remove_by_cid_if_mine
remove_by_cid-own m cid conn = elim (Bool-cases (owns (lookup cid m.by_cid) conn)) [
  | inr theirs ↦ rw theirs (λ e. own_false conn (lookup cid m.by_cid) theirs e)
  | inl mine ↦ rw (mine, lookup-remove cid cid m.by_cid) (λ e. ground (arith, bytes_eq_iff cid cid))
]

pub by_addr-remove_by_cid :
    (m : Maps) (cid : List ℕ) (conn : ℕ) → (remove_by_cid_if_mine m cid conn).by_addr ≡ m.by_addr
unfolding remove_by_cid_if_mine
by_addr-remove_by_cid m cid conn =
    if_ind (λ (n : Maps). n.by_addr ≡ m.by_addr) (owns (lookup cid m.by_cid) conn) (λ _. refl)
      (λ _. refl)

-- A session that ends leaves the address entries of other sessions, even one under its own former
-- address, and no entry of its own under its address or its connection id.
pub lookup-cleaned :
    (m : Maps) (peer other : SocketAddr) (cid : List ℕ) (conn owner : ℕ)
    → owner ≢ conn
    → lookup other m.by_addr ≡ some owner
    → (lookup other (cleaned m peer cid conn).by_addr ≡ some owner)
      × (lookup peer (cleaned m peer cid conn).by_addr ≢ some conn)
      × (lookup cid (cleaned m peer cid conn).by_cid ≢ some conn)
unfolding cleaned
lookup-cleaned m peer other cid conn owner differ held =
    let left = remove_by_addr_if_mine m peer conn in
    let same = by_addr-remove_by_cid left cid conn in
    (
      ap (lookup other) same ∙ remove_by_addr-others m peer other conn owner differ held,
      (λ e. remove_by_addr-own m peer conn (sym (ap (lookup peer) same) ∙ e)),
      remove_by_cid-own left cid conn,
    )
