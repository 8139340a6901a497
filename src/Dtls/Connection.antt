-- ===== src/Dtls/Connection.antt =====
-- loft/src/dtls.rs: `connection_thread`, `complete_handshake` and `serve_datagrams`, one round of a loop at
-- a time.
use loft.Prelude.{ℕ, ◌+◌, ◌-◌, Bool, Option, none, some, List, [], ◌∷◌, ◌++◌, ltb, if◌then◌else◌}
use loft.Quota.Defs.{IpAddr}
use loft.Demux.{SocketAddr}
use loft.Handler.Types.{DeviceSession, Call}
use loft.Handler.Block1.{Table}
use loft.Handler.Route.{Env}
use loft.Datagrams.{Entries, Conn, Clock, Processed, process_datagram}
use loft.Psk.{PskEntry}
use loft.Shim.Session.{Credentials}
use loft.TlsCommon.Asked.{ask}
use loft.Dtls.Io.{read_tick, idle_deadline}
use loft.Dtls.Listen.{Stream, Started}

-- Where a connection's thread is. The stream is dropped when the phase is `ended`.
pub data Phase : Type 0 where
  starting handshaking serving ended removed : Phase

pub record Thread : Type 0 where
  pub peer : SocketAddr
  pub permit : IpAddr
  pub stream : Stream
  pub phase : Phase
  pub began_at : ℕ
  pub session : Option DeviceSession
  pub dedup : Entries
  pub next_mid : ℕ
  pub last_activity : ℕ

-- The thread that `promote_connection` begins.
abbrev pub begin : Started → Thread
begin s = record {
  peer = s.peer;
  permit = s.permit;
  stream = s.stream;
  phase = starting;
  began_at = 0;
  session = none;
  dedup = [];
  next_mid = 0;
  last_activity = 0;
}

abbrev pub finish : Thread → Thread
finish t = record t { phase = ended }

-- The tick, the deadline and the MTU; `started` of `complete_handshake` is read after them.
unfoldable pub prepare : ℕ → ℕ → ℕ → Bool → Thread → Thread
prepare handshake_deadline now started is_mtu_set t =
    let armed : Thread = record t {
      stream = record t.stream {
        io = record t.stream.io { tick = read_tick; deadline = some (now + handshake_deadline) };
      };
    } in
    if is_mtu_set then record armed { phase = handshaking; began_at = started } else finish armed

-- What `accept` gives.
pub data Accepted : Type 0 where
  complete want_io failed : Accepted

-- What is outside the code in a round of the handshake: the resolver, the identities asked about, the
-- outcome, the instant, and the connection id and message id of a session that begins.
pub record Shake : Type 0 where
  pub resolver : List ℕ → Option PskEntry
  pub asked : List (Option (List ℕ) × List ℕ)
  pub outcome : Accepted
  pub now : ℕ
  pub conn_id : ℕ
  pub next_mid : ℕ

-- `authenticated_session`: without an identity nothing is served.
abbrev pub open_session : Shake → Thread → Option Credentials → Thread
open_session k t none = finish t
open_session k t (some (identity, token)) = record t {
  phase = serving;
  session = some (record { pigeon_id = identity; token = token; conn_id = k.conn_id });
  dedup = [];
  next_mid = k.next_mid;
  last_activity = k.now;
}

abbrev pub disarmed : Stream → Stream
disarmed s = record s { io = record s.io { deadline = none } }

abbrev pub on_accept : ℕ → Shake → Thread → Accepted → Thread
on_accept handshake_deadline k t complete =
    open_session k (record t { stream = disarmed t.stream }) t.stream.credentials
on_accept handshake_deadline k t want_io =
    if ltb handshake_deadline (k.now - t.began_at) then finish t else t
on_accept handshake_deadline k t failed = finish t

-- One round of `complete_handshake`, and what follows its success.
unfoldable pub shake : ℕ → Shake → Thread → Thread
shake handshake_deadline k t =
    let credentials = ask k.resolver k.asked t.stream.credentials in
    on_accept handshake_deadline k
      (record t { stream = record t.stream { credentials = credentials } }) k.outcome

-- What `ssl_read` gives; `Ok(0)` is `bytes_of []`.
pub data Read : Type 0 where
  bytes_of : List ℕ → Read
  want_read failed : Read

-- What is outside the code in a round of `serve_datagrams`.
pub record Turn : Type 0 where
  pub result : Read
  pub env : Env
  pub clock : Clock
  pub is_written : Bool
  pub now : ℕ

-- What the threads share: the Block1 table, the replies and the upstream calls.
pub record Shared : Type 0 where
  pub table : Table
  pub written : List (SocketAddr × List ℕ)
  pub calls : List Call

abbrev pub Round : Type 0
Round = Thread × Shared

-- A write goes to the peer of the adapter.
abbrev pub reply : Turn → Thread → Shared → Option (List ℕ) → Round
reply k t w none = (t, w)
reply k t w (some bytes) =
    if k.is_written
    then (t, record w { written = w.written ++ ((t.stream.io.peer, bytes) ∷ []) })
    else (finish t, w)

abbrev pub conn_of : Thread → Shared → Conn
conn_of t w = record { dedup = t.dedup; next_mid = t.next_mid; table = w.table }

abbrev pub processed : Turn → Thread → Shared → Processed → Round
processed k t w p =
    reply k (record t { dedup = p.conn.dedup; next_mid = p.conn.next_mid })
      (record w { table = p.conn.table; calls = w.calls ++ p.calls }) p.sent

-- The session is there once the thread serves.
abbrev pub process : Turn → List ℕ → Thread → Shared → Option DeviceSession → Round
process k bytes t w none = (t, w)
process k bytes t w (some session) =
    processed k t w (process_datagram k.env k.clock session bytes (conn_of t w))

abbrev pub on_read : Turn → Thread → Shared → Read → Round
on_read k t w (bytes_of []) = (finish t, w)
on_read k t w (bytes_of (b ∷ bs)) =
    process k (b ∷ bs) (record t { last_activity = k.now }) w t.session
on_read k t w want_read = (if ltb idle_deadline (k.now - t.last_activity) then finish t else t, w)
on_read k t w failed = (finish t, w)

-- One round of `serve_datagrams`.
unfoldable pub turn : Turn → Thread → Shared → Round
turn k t w = on_read k t w k.result
