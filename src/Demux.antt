-- ===== src/Demux.antt =====
-- loft/src/dtls_mbed.rs: how the mbedTLS listener finds the session for a datagram, and the maps that it
-- and the sessions keep. The `canonical_peer` of loft/src/listen.rs gives the source of a datagram.
pub mod Laws
pub mod Effect
mod Tests
use loft.Prelude.{
  ℕ, ◌*◌, ◌/◌, ◌%◌, ◌^◌, Bool, true, false, ◌&&◌, Option, none, some, List, [], ◌∷◌, ◌++◌, length,
  take, drop, leb, ◌==◌, if◌then◌else◌,
}
use loft.Prelude.Eq.{nat_eq, bytes_key, pair_eq}
use loft.Prelude.Assoc.{lookup, insert, remove}
use loft.Coap.Wire.Defs.{be16}
use loft.Quota.Defs.{IpAddr, v4, v6, ip_eq, to_ipv4_mapped}

-- An address and a port.
abbrev pub SocketAddr : Type 0
SocketAddr = IpAddr × ℕ

abbrev pub to_canonical : IpAddr → IpAddr
to_canonical (v4 a) = v4 a
to_canonical (v6 a) = elim (to_ipv4_mapped a) [ some b ↦ v4 b | none ↦ v6 a ]

unfoldable pub canonical_peer : SocketAddr → SocketAddr
canonical_peer (ip, port) = (to_canonical ip, port)

abbrev pub content_type_cid : ℕ
content_type_cid = 25

abbrev pub content_type_handshake : ℕ
content_type_handshake = 22

-- `buf[i]` of a buffer that is long enough.
abbrev pub byte_at : ℕ → List ℕ → Option ℕ
byte_at i buf = elim (drop i buf) [ [] ↦ none | b ∷ bs ↦ some b ]

abbrev pub is_byte : ℕ → ℕ → List ℕ → Bool
is_byte i b buf = elim (byte_at i buf) [ none ↦ false | some c ↦ c == b ]

-- `CID_LEN` of mbedtls-ffi-shim/src/config.rs.
abbrev pub cid_len : ℕ
cid_len = 8

-- The server's connection id in a `tls12_cid` record.
unfoldable pub cid_of : List ℕ → Option (List ℕ)
cid_of dgram =
    if leb 21 (length dgram) && (is_byte 1 0xfe dgram && is_byte 2 0xfd dgram)
    then some (take cid_len (drop 11 dgram))
    else none

unfoldable pub is_plaintext_handshake : List ℕ → Bool
is_plaintext_handshake dgram =
    leb 5 (length dgram)
    && (is_byte 0 content_type_handshake dgram && (is_byte 3 0 dgram && is_byte 4 0 dgram))

-- The maps to sessions, which are named by their connection ids.
pub record Maps : Type 0 where
  pub by_addr : List (SocketAddr × ℕ)
  pub by_cid : List (List ℕ × ℕ)

-- What `try_send` into a session's channel gives.
pub data Sending : Type 0 where
  sent full disconnected : Sending

-- What the sessions are at this datagram: their channels, and whether they are established.
pub record Sessions : Type 0 where
  pub channel : ℕ → Sending
  pub is_established : ℕ → Bool

-- The maps, the session that got the datagram, and whether it goes on to the stateless path.
pub record Routed : Type 0 where
  pub maps : Maps
  pub delivered : Option ℕ
  pub is_unrouted : Bool

abbrev pub dropped : Maps → Routed
dropped m = record { maps = m; delivered = none; is_unrouted = false }

abbrev pub unrouted : Maps → Routed
unrouted m = record { maps = m; delivered = none; is_unrouted = true }

abbrev pub given : Maps → ℕ → Routed
given m conn = record { maps = m; delivered = some conn; is_unrouted = false }

-- Route 1, for a session found by connection id.
abbrev pub send_by_cid : Maps → List ℕ → ℕ → Sending → Routed
send_by_cid m cid conn sent = given m conn
send_by_cid m cid conn full = dropped m
send_by_cid m cid conn disconnected = dropped (record m { by_cid = remove cid m.by_cid })

abbrev pub route_found_cid : Sessions → Maps → List ℕ → Option ℕ → Routed
route_found_cid s m cid none = dropped m
route_found_cid s m cid (some conn) = send_by_cid m cid conn (s.channel conn)

abbrev pub route_cid : Sessions → Maps → Option (List ℕ) → Routed
route_cid s m none = dropped m
route_cid s m (some cid) = route_found_cid s m cid (lookup cid m.by_cid)

-- Route 2, for a session found by address.
abbrev pub send_by_addr : Maps → SocketAddr → ℕ → Sending → Routed
send_by_addr m peer conn sent = given m conn
send_by_addr m peer conn full = dropped m
send_by_addr m peer conn disconnected = unrouted (record m { by_addr = remove peer m.by_addr })

abbrev pub route_addr : Sessions → Maps → SocketAddr → List ℕ → Option ℕ → Routed
route_addr s m peer dgram none = unrouted m
route_addr s m peer dgram (some conn) =
    if is_plaintext_handshake dgram && s.is_established conn
    then unrouted m
    else send_by_addr m peer conn (s.channel conn)

-- Routes 1 and 2 of `listen_loop`.
unfoldable pub route : Sessions → Maps → SocketAddr → List ℕ → Routed
route s m peer dgram =
    if is_byte 0 content_type_cid dgram
    then route_cid s m (cid_of dgram)
    else route_addr s m peer dgram (lookup peer m.by_addr)

abbrev pub owns : Option ℕ → ℕ → Bool
owns none conn = false
owns (some c) conn = c == conn

unfoldable pub remove_by_addr_if_mine : Maps → SocketAddr → ℕ → Maps
remove_by_addr_if_mine m peer conn =
    if owns (lookup peer m.by_addr) conn then record m { by_addr = remove peer m.by_addr } else m

unfoldable pub remove_by_cid_if_mine : Maps → List ℕ → ℕ → Maps
remove_by_cid_if_mine m cid conn =
    if owns (lookup cid m.by_cid) conn then record m { by_cid = remove cid m.by_cid } else m

-- The entries that `promote` makes for a verified session.
unfoldable pub promoted : Maps → SocketAddr → List ℕ → ℕ → Maps
promoted m peer cid conn = record {
  by_addr = insert peer conn m.by_addr;
  by_cid = insert cid conn m.by_cid;
}

-- The end of a session's thread.
unfoldable pub cleaned : Maps → SocketAddr → List ℕ → ℕ → Maps
cleaned m peer cid conn = remove_by_cid_if_mine (remove_by_addr_if_mine m peer conn) cid conn
