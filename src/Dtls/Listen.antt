-- ===== src/Dtls/Listen.antt =====
-- loft/src/dtls.rs: `listen_loop` and `promote_connection`.
use loft.Prelude.{ℕ, ◌+◌, ◌≡◌, Bool, true, Option, none, some, List, ◌∷◌, if◌then◌else◌}
use loft.Prelude.Eq.{nat_eq, pair_eq}
use loft.Prelude.Assoc.{lookup, insert, remove}
use loft.Quota.Defs.{IpAddr, v4, ip_eq, ConnQuota, is_full, try_acquire, release}
use loft.Demux.{SocketAddr, Sending, sent, full, disconnected}
use loft.Shim.Session.{Credentials}
use loft.Dtls.Cookie.{Signer, on_verify}
use loft.Dtls.Io.{DgramIo}
use loft.Dtls.Shim.{Listened, retry, accepted, failed, dtlsv1_listen, is_positive}
use loft.Shim.Codes.{ℤ}

-- A stream of OpenSSL with its adapter, named by its channel: the address stamped for the cookie
-- callbacks, and the credentials that the PSK callback stashed.
pub record Stream : Type 0 where
  pub channel : ℕ
  pub io : DgramIo
  pub stamped : Option SocketAddr
  pub credentials : Option Credentials

pub record Listener : Type 0 where
  pub conns : List (SocketAddr × ℕ)
  pub quota : ConnQuota
  pub pending : Option Stream
  pub next_channel : ℕ

-- What is outside the code at one datagram: whether the set-up of a stream, the send into its channel and
-- the spawn of a thread succeed, the cookies that OpenSSL asked about, its version,
-- whether an address could be allocated, and the code of `DTLSv1_listen`.
pub record Attempt : Type 0 where
  pub can_set_up : Bool
  pub is_fed : Bool
  pub cookies : List (List ℕ)
  pub version : ℕ
  pub has_addr : Bool
  pub ret : ℤ
  pub can_spawn : Bool

-- A connection whose thread begins.
pub record Started : Type 0 where
  pub peer : SocketAddr
  pub permit : IpAddr
  pub stream : Stream

pub record Handled : Type 0 where
  pub listener : Listener
  pub started : Option Started

abbrev pub quiet : Listener → Handled
quiet l = record { listener = l; started = none }

abbrev pub placeholder : SocketAddr
placeholder = (v4 0, 0)

-- `PendingListen::new`.
abbrev pub new_stream : ℕ → Stream
new_stream channel = record {
  channel = channel;
  io = record { peer = placeholder; tick = 0; deadline = none };
  stamped = none;
  credentials = none;
}

-- `promote_connection`, under the lock of the map.
abbrev pub promote_connection : Attempt → SocketAddr → IpAddr → Stream → Listener → Handled
promote_connection a peer permit s l =
    let conns = insert peer s.channel l.conns in
    if a.can_spawn
    then record {
      listener = record l { conns = conns };
      started = some (record { peer = peer; permit = permit; stream = s });
    }
    else quiet (record l { conns = remove peer conns; quota = release l.quota permit })

abbrev pub admit : Attempt → SocketAddr → Stream → Listener → ConnQuota × Option IpAddr → Handled
admit a peer s l (q, none) = quiet (record l { quota = q; pending = none })
admit a peer s l (q, some permit) =
    promote_connection a peer permit s (record l { quota = q; pending = none })

-- What follows `dtlsv1_listen`.
abbrev pub on_listened : Attempt → SocketAddr → Stream → Listener → Listened → Handled
on_listened a peer s l retry = quiet (record l { pending = some s })
on_listened a peer s l accepted = admit a peer s l (try_acquire l.quota peer.0)
on_listened a peer s l failed = quiet (record l { pending = none })

-- The pending stream, stamped with the source.
abbrev pub stamp : SocketAddr → Stream → Stream
stamp peer s = record s { io = record s.io { peer = peer }; stamped = some peer }

abbrev pub feed : Attempt → SocketAddr → Stream → Listener → Handled
feed a peer s l =
    if a.is_fed
    then on_listened a peer (stamp peer s) l (dtlsv1_listen a.version a.has_addr a.ret)
    else quiet (record l { pending = none })

abbrev pub with_pending : Attempt → SocketAddr → Listener → Option Stream → Handled
with_pending a peer l none =
    if a.can_set_up
    then feed a peer (new_stream l.next_channel) (record l { next_channel = l.next_channel + 1 })
    else quiet l
with_pending a peer l (some s) = feed a peer s l

-- A source without a connection.
abbrev pub unknown : Attempt → SocketAddr → Listener → Handled
unknown a peer l = if is_full l.quota then quiet l else with_pending a peer l l.pending

abbrev pub on_sent : Attempt → SocketAddr → Listener → Sending → Handled
on_sent a peer l sent = quiet l
on_sent a peer l full = quiet l
on_sent a peer l disconnected = unknown a peer (record l { conns = remove peer l.conns })

abbrev pub on_found : Attempt → (ℕ → Sending) → SocketAddr → Listener → Option ℕ → Handled
on_found a channel peer l none = unknown a peer l
on_found a channel peer l (some c) = on_sent a peer l (channel c)

-- One turn of `listen_loop`.
unfoldable pub listen : Attempt → (ℕ → Sending) → SocketAddr → Listener → Handled
listen a channel peer l = on_found a channel peer l (lookup peer l.conns)

-- A cookie among several that the verifying callback accepts for a source.
pub data Accepts (sign : Signer) (peer : SocketAddr) : List (List ℕ) → Type 0 where
  here :
      (cookie : List ℕ) (rest : List (List ℕ))
      → on_verify sign (some peer) cookie ≡ true
      → Accepts sign peer (cookie ∷ rest)
  there :
      (cookie : List ℕ) (rest : List (List ℕ))
      → Accepts sign peer rest
      → Accepts sign peer (cookie ∷ rest)

-- The code of `DTLSv1_listen` is positive only after the cookie of the source was verified.
abbrev pub IsHonest : Signer → SocketAddr → Attempt → Type 0
IsHonest sign peer a = is_positive a.ret ≡ true → Accepts sign peer a.cookies
