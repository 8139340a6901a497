-- ===== src/Listener/Thread.antt =====
-- loft/src/dtls_mbed.rs: `session_thread`, one round of its two loops at a time.
use loft.Prelude.{
  ℕ, ◌-◌, ◌==◌, Bool, true, false, Option, none, some, List, [], ◌++◌, ltb, take, if◌then◌else◌,
}
use loft.Quota.Defs.{IpAddr}
use loft.Demux.{SocketAddr, Maps, remove_by_addr_if_mine, remove_by_cid_if_mine}
use loft.Handler.Types.{DeviceSession, Call}
use loft.Handler.Block1.{Table}
use loft.Handler.Route.{Env}
use loft.Datagrams.{Entries, Conn, Clock, Processed, process_datagram}
use loft.Shim.Codes.{ℤ}
use loft.Shim.Session.{
  Session, Credentials, HandshakeStatus, done, want_read, want_write, hello_verify_required,
  handshake_status, ReadStatus, data_of, peer_closed, read_status, is_written, negotiated,
  take_credentials,
}
use loft.Listener.Transport.{ConnState, take_migration, idle_deadline}
use loft.Listener.Cookie.{transport_id}
use loft.Listener.Library.{Outside, Callback, call}
use loft.Listener.Pending.{Started}

-- Where a session's thread is: in its loops, or in its clean-up after them.
pub data Phase : Type 0 where
  handshaking serving ended addr_removed cid_removed : Phase

-- The variables of a session's thread. The session is dropped when the phase is `ended`, so that its
-- channel is disconnected from then on.
pub record Thread : Type 0 where
  pub peer : SocketAddr
  pub cid : List ℕ
  pub permit : IpAddr
  pub session : Session ConnState
  pub phase : Phase
  pub began_at : ℕ
  pub is_established : Bool
  pub cid_active : Bool
  pub addr_routed : Bool
  pub device : Option Credentials
  pub dedup : Entries
  pub next_mid : ℕ
  pub last_activity : ℕ

-- The thread of a session that `promote` began, at its first instant.
abbrev pub begin : ℕ → Started → Thread
begin now s = record {
  peer = s.peer;
  cid = s.cid;
  permit = s.permit;
  session = s.session;
  phase = handshaking;
  began_at = now;
  is_established = false;
  cid_active = false;
  addr_routed = true;
  device = none;
  dedup = [];
  next_mid = 0;
  last_activity = now;
}

-- What a thread shares, and what its rounds do outside: the maps, the verified flag, the Block1 table, the
-- datagrams sent and the upstream calls.
pub record Shared : Type 0 where
  pub maps : Maps
  pub verified : Bool
  pub table : Table
  pub sent : List (SocketAddr × List ℕ)
  pub calls : List Call

abbrev pub Round : Type 0
Round = Thread × Shared

abbrev pub finish : Thread → Thread
finish t = record t { phase = ended }

-- One call of the library for a session. The transport id that was set before promotion stays.
unfoldable pub library : Outside → List Callback → Thread → Shared → Round
unfolding transport_id
library o cs t w =
    let x = call o cs (record {
      session = t.session;
      verified = w.verified;
      client_id = transport_id t.peer;
      sent = w.sent;
    }) in
    (record t { session = x.session }, record w { verified = x.verified; sent = x.sent })

-- What is outside the code in a round of the handshake loop: the callbacks and the code, those of
-- `mbedtls_ssl_get_peer_cid`, the instant, and the first message id.
pub record Shake : Type 0 where
  pub callbacks : List Callback
  pub code : ℤ
  pub cid_code : ℤ
  pub cid_enabled : ℤ
  pub now : ℕ
  pub next_mid : ℕ

abbrev pub unwrap_or_false : Option Bool → Bool
unwrap_or_false none = false
unwrap_or_false (some b) = b

-- After the handshake: a session without an identity is never served; without an id that was
-- negotiated, it gives up its entry in that map.
abbrev pub establish : ℕ → Shake → Bool → Thread → Shared → Option Credentials → Round
establish conn_id k cid_active t w none = (finish t, w)
establish conn_id k cid_active t w (some who) = (
  record t {
    phase = serving;
    is_established = true;
    cid_active = cid_active;
    device = some who;
    dedup = [];
    next_mid = k.next_mid;
    last_activity = k.now;
    addr_routed = true;
  },
  record w { maps = if cid_active then w.maps else remove_by_cid_if_mine w.maps t.cid conn_id },
)

abbrev pub on_done : ℕ → Shake → Thread → Shared → Round
on_done conn_id k t w =
    let taken =
      take_credentials (record t.session { io = record t.session.io { deadline = none } }) in
    establish conn_id k (unwrap_or_false (negotiated k.cid_code k.cid_enabled))
      (record t { session = taken.1 }) w taken.0

abbrev pub wait_on : ℕ → Shake → Thread → Shared → Round
wait_on handshake_deadline k t w =
    if ltb handshake_deadline (k.now - t.began_at) then (finish t, w) else (t, w)

abbrev pub on_shake : ℕ → ℕ → Shake → Thread → Shared → HandshakeStatus → Round
on_shake handshake_deadline conn_id k t w done = on_done conn_id k t w
on_shake handshake_deadline conn_id k t w want_read = wait_on handshake_deadline k t w
on_shake handshake_deadline conn_id k t w want_write = wait_on handshake_deadline k t w
on_shake handshake_deadline conn_id k t w hello_verify_required = (finish t, w)
on_shake handshake_deadline conn_id k t w (HandshakeStatus.failed e) = (finish t, w)

-- One round of the handshake loop.
unfoldable pub shake : Outside → ℕ → ℕ → Shake → Thread → Shared → Round
shake o handshake_deadline conn_id k t w =
    let r = library o k.callbacks t w in
    on_shake handshake_deadline conn_id k r.0 r.1 (handshake_status k.code)

-- What is outside the code in a round of the serving loop: the callbacks and the code of the read, the
-- bytes it gave, the backend and the clock of `process_datagram`, the callbacks and the code of the
-- write, and the instant.
pub record Turn : Type 0 where
  pub callbacks : List Callback
  pub code : ℤ
  pub bytes : List ℕ
  pub env : Env
  pub clock : Clock
  pub write_callbacks : List Callback
  pub write_code : ℤ
  pub now : ℕ

-- The first authenticated read of a session that has an id frees its address, and each one commits the
-- source of its datagram.
abbrev pub migrate : ℕ → Thread → Shared → Round
migrate conn_id t w =
    let moved = (take_migration t.session.io).1 in
    let maps = if t.addr_routed then remove_by_addr_if_mine w.maps t.peer conn_id else w.maps in
    if t.cid_active
    then (
      record t { addr_routed = false; session = record t.session { io = moved } },
      record w { maps = maps },
    )
    else (t, w)

-- The reply of `process_datagram` is written; a failure ends the session.
abbrev pub reply : Outside → Turn → Thread → Shared → Option (List ℕ) → Round
reply o k t w none = (t, w)
reply o k t w (some bytes) =
    let r = library o k.write_callbacks t w in
    if is_written k.write_code then r else (finish r.0, r.1)

abbrev pub conn_of : Thread → Shared → Conn
conn_of t w = record { dedup = t.dedup; next_mid = t.next_mid; table = w.table }

abbrev pub session_of : ℕ → Credentials → DeviceSession
session_of conn_id (identity, token) = record {
  pigeon_id = identity;
  token = token;
  conn_id = conn_id;
}

abbrev pub processed : Outside → Turn → Thread → Shared → Processed → Round
processed o k t w p =
    reply o k (record t { dedup = p.conn.dedup; next_mid = p.conn.next_mid })
      (record w { table = p.conn.table; calls = w.calls ++ p.calls }) p.sent

-- `device` is there once the session serves.
abbrev pub process : Outside → ℕ → Turn → ℕ → Thread → Shared → Option Credentials → Round
process o conn_id k n t w none = (t, w)
process o conn_id k n t w (some who) =
    processed o k t w
      (process_datagram k.env k.clock (session_of conn_id who) (take n k.bytes) (conn_of t w))

abbrev pub on_data : Outside → ℕ → Turn → ℕ → Thread → Shared → Round
on_data o conn_id k n t w =
    let r = migrate conn_id (record t { last_activity = k.now }) w in
    if n == 0 then r else process o conn_id k n r.0 r.1 r.0.device

abbrev pub idle_of : ℕ → Thread → ℕ
idle_of cid_idle t = if t.cid_active then cid_idle else idle_deadline

abbrev pub idle : ℕ → Turn → Thread → Shared → Round
idle cid_idle k t w =
    if ltb (idle_of cid_idle t) (k.now - t.last_activity) then (finish t, w) else (t, w)

abbrev pub on_read : Outside → ℕ → ℕ → Turn → Thread → Shared → ReadStatus → Round
on_read o cid_idle conn_id k t w (data_of n) = on_data o conn_id k n t w
on_read o cid_idle conn_id k t w ReadStatus.want_read = idle cid_idle k t w
on_read o cid_idle conn_id k t w ReadStatus.want_write = idle cid_idle k t w
on_read o cid_idle conn_id k t w peer_closed = (finish t, w)
on_read o cid_idle conn_id k t w (ReadStatus.failed e) = (finish t, w)

-- One round of the serving loop.
unfoldable pub turn : Outside → ℕ → ℕ → Turn → Thread → Shared → Round
turn o cid_idle conn_id k t w =
    let r = library o k.callbacks t w in on_read o cid_idle conn_id k r.0 r.1 (read_status k.code)
