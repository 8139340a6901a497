-- ===== src/Listener/Pending.antt =====
-- loft/src/dtls_mbed.rs: the stateless path of `listen_loop` (its route 3), `mint_cid` and `promote`.
use loft.Prelude.{
  ℕ, ◌+◌, Bool, true, false, Option, none, some, List, [], ◌∷◌, ◌||◌, not, if◌then◌else◌,
}
use loft.Prelude.Eq.{bytes_key}
use loft.Prelude.Assoc.{contains_key}
use loft.Quota.Defs.{IpAddr, v4, ConnQuota, is_full, try_acquire, release}
use loft.Demux.{SocketAddr, Maps, promoted, cleaned}
use loft.Shim.Codes.{ℤ, pos, int_beq}
use loft.Shim.Session.{
  Session, new_session, reset, HandshakeStatus, done, want_read, want_write, hello_verify_required,
  failed, handshake_status,
}
use loft.Shim.Config.{take_cookie_verified}
use loft.Listener.Transport.{ConnState, read_tick}
use loft.Listener.Cookie.{transport_id}
use loft.Listener.Library.{Outside, Context, Callback, call}

-- What the listener's thread keeps, and what it shares: the maps, the quota, the configuration's verified
-- flag and the counter of connections.
pub record Listener : Type 0 where
  pub maps : Maps
  pub quota : ConnQuota
  pub pending : Option (Session ConnState)
  pub verified : Bool
  pub next_conn_id : ℕ

-- What is outside the code at one datagram: whether the set-up of a pending session and the spawn of a
-- thread succeed, the codes of the library's setters, the draws of random ids (`none` is an error), the
-- callbacks and the code of the handshake, whether a session's thread checked a cookie with success
-- meanwhile, and the instant of promotion.
pub record Attempt : Type 0 where
  pub can_set_up : Bool
  pub reset_code : ℤ
  pub draws : List (Option (List ℕ))
  pub set_id_code : ℤ
  pub set_cid_code : ℤ
  pub callbacks : List Callback
  pub code : ℤ
  pub is_checked_elsewhere : Bool
  pub promoted_at : ℕ
  pub can_spawn : Bool

-- A session whose thread begins.
pub record Started : Type 0 where
  pub conn_id : ℕ
  pub peer : SocketAddr
  pub cid : List ℕ
  pub permit : IpAddr
  pub session : Session ConnState

-- The listener behind a datagram, what it sent, and the thread it began.
pub record Handled : Type 0 where
  pub listener : Listener
  pub sent : List (SocketAddr × List ℕ)
  pub started : Option Started

abbrev pub placeholder : SocketAddr
placeholder = (v4 0, 0)

-- The transport of `PendingListen::new`.
abbrev pub placeholder_io : ConnState
placeholder_io = record {
  committed_peer = placeholder;
  staged_peer = placeholder;
  pending = none;
  tick = 0;
  deadline = none;
}

-- `mint_cid`: draws until one is new to the map. A list that runs out stands for an error after it.
unfoldable pub mint_cid : Maps → List (Option (List ℕ)) → Option (List ℕ)
mint_cid m [] = none
mint_cid m (none ∷ draws) = none
mint_cid m (some cid ∷ draws) =
    let rest = mint_cid m draws in if contains_key cid m.by_cid then rest else some cid

abbrev pub quiet : Listener → Handled
quiet l = record { listener = l; sent = []; started = none }

-- `promote`: the map entries first, then the transport's tick and deadline, then the thread. When the
-- spawn fails, its closure is dropped with the permit.
abbrev pub promote :
    ℕ → Attempt → SocketAddr → List ℕ → IpAddr → Session ConnState → Listener → Handled
promote handshake_deadline a peer cid permit s l =
    let conn_id = l.next_conn_id in
    let maps = promoted l.maps peer cid conn_id in
    if a.can_spawn
    then record {
      listener = record l { maps = maps; next_conn_id = conn_id + 1 };
      sent = [];
      started = some (record {
        conn_id = conn_id;
        peer = peer;
        cid = cid;
        permit = permit;
        session = record s {
          io = record s.io {
            tick = read_tick;
            deadline = some (a.promoted_at + handshake_deadline);
          };
        };
      });
    }
    else record {
      listener = record l {
        maps = cleaned maps peer cid conn_id;
        next_conn_id = conn_id + 1;
        quota = release l.quota permit;
      };
      sent = [];
      started = none;
    }

-- A verified source: the pending session is taken, and its share is charged.
abbrev pub admit :
    ℕ
    → Attempt
    → SocketAddr
    → List ℕ
    → Session ConnState
    → Listener
    → ConnQuota × Option IpAddr
    → Handled
admit handshake_deadline a peer cid s l (q, none) = quiet (record l { quota = q; pending = none })
admit handshake_deadline a peer cid s l (q, some permit) =
    promote handshake_deadline a peer cid permit s (record l { quota = q; pending = none })

-- `l` holds the session and the flag as the handshake left them.
abbrev pub on_want : ℕ → Attempt → SocketAddr → List ℕ → Session ConnState → Listener → Handled
on_want handshake_deadline a peer cid s l =
    let flag = take_cookie_verified l.verified in
    let after : Listener = record l { verified = flag.1 } in
    if flag.0
    then admit handshake_deadline a peer cid s after (try_acquire after.quota peer.0)
    else quiet after

abbrev pub on_status :
    ℕ → Attempt → SocketAddr → List ℕ → Session ConnState → Listener → HandshakeStatus → Handled
on_status handshake_deadline a peer cid s l hello_verify_required = quiet l
on_status handshake_deadline a peer cid s l want_read = on_want handshake_deadline a peer cid s l
on_status handshake_deadline a peer cid s l want_write = on_want handshake_deadline a peer cid s l
on_status handshake_deadline a peer cid s l done = quiet (record l { pending = none })
on_status handshake_deadline a peer cid s l (failed e) = quiet l

-- The context of the handshake: the flag has been cleared and the transport id set.
abbrev pub cleared : SocketAddr → Session ConnState → Context
cleared peer s = record { session = s; verified = false; client_id = transport_id peer; sent = [] }

-- The handshake with the pending session, which has been reset and stamped.
unfoldable pub drive :
    Outside → ℕ → Attempt → SocketAddr → List ℕ → Session ConnState → Listener → Handled
unfolding transport_id
drive o handshake_deadline a peer cid s l =
    let x = call o a.callbacks (cleared peer s) in
    let after : Listener = record l {
      pending = some x.session;
      verified = x.verified || a.is_checked_elsewhere;
    } in
    let handled =
      on_status handshake_deadline a peer cid x.session after (handshake_status a.code) in
    record handled { sent = x.sent }

-- The pending session, stamped with the source and fed its datagram.
abbrev pub stamped : SocketAddr → List ℕ → Session ConnState → Session ConnState
stamped peer dgram s = record s {
  io = record s.io { committed_peer = peer; staged_peer = peer; pending = some (dgram, peer) };
}

abbrev pub with_cid :
    Outside → ℕ → Attempt → SocketAddr → Session ConnState → Listener → Option (List ℕ) → Handled
with_cid o handshake_deadline a peer s l none = quiet (record l { pending = some s })
with_cid o handshake_deadline a peer s l (some cid) =
    if not (int_beq a.set_id_code (pos 0)) || not (int_beq a.set_cid_code (pos 0))
    then quiet (record l { pending = none })
    else drive o handshake_deadline a peer cid s l

abbrev pub with_reset :
    Outside → ℕ → Attempt → SocketAddr → List ℕ → Listener → Bool × Session ConnState → Handled
with_reset o handshake_deadline a peer dgram l (false, s) = quiet (record l { pending = none })
with_reset o handshake_deadline a peer dgram l (true, s) =
    with_cid o handshake_deadline a peer (stamped peer dgram s) l (mint_cid l.maps a.draws)

abbrev pub with_pending :
    Outside → ℕ → Attempt → SocketAddr → List ℕ → Listener → Option (Session ConnState) → Handled
with_pending o handshake_deadline a peer dgram l none =
    if a.can_set_up
    then with_reset o handshake_deadline a peer dgram l
        (reset a.reset_code (new_session placeholder_io))
    else quiet l
with_pending o handshake_deadline a peer dgram l (some s) =
    with_reset o handshake_deadline a peer dgram l (reset a.reset_code s)

-- Route 3 of `listen_loop`, for a datagram that no session got.
unfoldable pub stateless : Outside → ℕ → Attempt → SocketAddr → List ℕ → Listener → Handled
stateless o handshake_deadline a peer dgram l =
    if is_full l.quota then quiet l else with_pending o handshake_deadline a peer dgram l l.pending
