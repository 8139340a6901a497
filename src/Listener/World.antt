-- ===== src/Listener/World.antt =====
-- loft/src/dtls_mbed.rs: the listener's thread and its sessions' threads together. Each of them takes steps
-- in any order; a step is a datagram for the listener, a round of a session's loop, or one action of a
-- session's clean-up.
use loft.Prelude.{
  ℕ, ◌+◌, ◌≡◌, Bool, true, false, Option, none, some, List, [], ◌∷◌, ◌++◌, if◌then◌else◌,
}
use loft.Prelude.Eq.{nat_eq}
use loft.Prelude.Assoc.{lookup, insert, remove}
use loft.Quota.Defs.{IpAddr, new_quota, try_acquire, release}
use loft.Quota.Books.{admitted}
use loft.Demux.{
  SocketAddr, canonical_peer, Maps, Sending, full, disconnected, Sessions, Routed, route,
  remove_by_addr_if_mine, remove_by_cid_if_mine,
}
use loft.Handler.Types.{Call}
use loft.Handler.Block1.{Table}
use loft.Listener.Library.{Outside}
use loft.Listener.Pending.{Listener, Attempt, Started, Handled, stateless}
use loft.Listener.Thread.{
  Phase, handshaking, serving, ended, addr_removed, cid_removed, Thread, begin, Shared, Round,
  Shake, shake, Turn, turn,
}

-- The permits that other listeners hold of the quota stand beside those of the threads.
pub record World : Type 0 where
  pub listener : Listener
  pub threads : List (ℕ × Thread)
  pub elsewhere : List IpAddr
  pub table : Table
  pub sent : List (SocketAddr × List ℕ)
  pub calls : List Call

abbrev pub is_running : Phase → Bool
is_running handshaking = true
is_running serving = true
is_running ended = false
is_running addr_removed = false
is_running cid_removed = false

-- `try_send`: the channel of a session that has been dropped is disconnected.
abbrev pub send_to : Bool → Option Thread → Sending
send_to has_room none = disconnected
send_to has_room (some t) =
    if is_running t.phase then (if has_room then Sending.sent else full) else disconnected

abbrev pub is_established_in : Option Thread → Bool
is_established_in none = false
is_established_in (some t) = t.is_established

abbrev pub sessions : (ℕ → Bool) → List (ℕ × Thread) → Sessions
sessions has_room threads = record {
  channel = λ conn. send_to (has_room conn) (lookup conn threads);
  is_established = λ conn. is_established_in (lookup conn threads);
}

abbrev pub with_thread : ℕ → Option Started → List (ℕ × Thread) → List (ℕ × Thread)
with_thread now none threads = threads
with_thread now (some s) threads = insert s.conn_id (begin now s) threads

abbrev pub after_stateless : ℕ → World → Handled → World
after_stateless now w h = record w {
  listener = h.listener;
  threads = with_thread now h.started w.threads;
  sent = w.sent ++ h.sent;
}

abbrev pub after_route : Outside → ℕ → Attempt → ℕ → SocketAddr → List ℕ → World → Routed → World
after_route o handshake_deadline a now peer dgram w r =
    let l : Listener = record w.listener { maps = r.maps } in
    if r.is_unrouted
    then after_stateless now w (stateless o handshake_deadline a peer dgram l)
    else record w { listener = l }

-- One turn of `listen_loop`.
unfoldable pub listen : Outside → ℕ → Attempt → (ℕ → Bool) → ℕ → SocketAddr → List ℕ → World → World
listen o handshake_deadline a has_room now src dgram w =
    after_route o handshake_deadline a now (canonical_peer src) dgram w
      (route (sessions has_room w.threads) w.listener.maps (canonical_peer src) dgram)

abbrev pub shared : World → Shared
shared w = record {
  maps = w.listener.maps;
  verified = w.listener.verified;
  table = w.table;
  sent = w.sent;
  calls = w.calls;
}

-- The world after a round of the thread of a connection.
abbrev pub after_round : ℕ → World → Round → World
after_round conn w (t, s) = record w {
  listener = record w.listener { maps = s.maps; verified = s.verified };
  threads = insert conn t w.threads;
  table = s.table;
  sent = s.sent;
  calls = s.calls;
}

abbrev pub moved_to : Phase → Thread → Thread
moved_to p t = record t { phase = p }

abbrev pub with_maps : Maps → World → World
with_maps m w = record w { listener = record w.listener { maps = m } }

abbrev pub with_phase : ℕ → Phase → Thread → World → World
with_phase conn p t w = record w { threads = insert conn (moved_to p t) w.threads }

-- The steps, for the two deadlines of the configuration. Every resolver that a step consults is one that
-- only gives credentials of `Granted`.
pub data Step (handshake_deadline cid_idle : ℕ) (Granted : Outside → Type 0)
    : World → World → Type 0 where
  datagram :
      (o : Outside) (a : Attempt) (has_room : ℕ → Bool) (now : ℕ) (src : SocketAddr)
      (dgram : List ℕ) (w : World)
      → Granted o
      → Step handshake_deadline cid_idle Granted w
          (listen o handshake_deadline a has_room now src dgram w)
  shaking :
      (o : Outside) (conn : ℕ) (k : Shake) (t : Thread) (w : World)
      → Granted o
      → lookup conn w.threads ≡ some t
      → t.phase ≡ handshaking
      → Step handshake_deadline cid_idle Granted w
          (after_round conn w (shake o handshake_deadline conn k t (shared w)))
  turning :
      (o : Outside) (conn : ℕ) (k : Turn) (t : Thread) (w : World)
      → Granted o
      → lookup conn w.threads ≡ some t
      → t.phase ≡ serving
      → Step handshake_deadline cid_idle Granted w
          (after_round conn w (turn o cid_idle conn k t (shared w)))
  panicking :
      (conn : ℕ) (t : Thread) (w : World)
      → lookup conn w.threads ≡ some t
      → is_running t.phase ≡ true
      → Step handshake_deadline cid_idle Granted w (with_phase conn ended t w)
  removing_addr :
      (conn : ℕ) (t : Thread) (w : World)
      → lookup conn w.threads ≡ some t
      → t.phase ≡ ended
      → Step handshake_deadline cid_idle Granted w (
          with_phase conn addr_removed t
            (with_maps (remove_by_addr_if_mine w.listener.maps t.peer conn) w))
  removing_cid :
      (conn : ℕ) (t : Thread) (w : World)
      → lookup conn w.threads ≡ some t
      → t.phase ≡ addr_removed
      → Step handshake_deadline cid_idle Granted w (
          with_phase conn cid_removed t
            (with_maps (remove_by_cid_if_mine w.listener.maps t.cid conn) w))
  exiting :
      (conn : ℕ) (t : Thread) (w : World)
      → lookup conn w.threads ≡ some t
      → t.phase ≡ cid_removed
      → Step handshake_deadline cid_idle Granted w (record w {
        threads = remove conn w.threads;
        listener = record w.listener { quota = release w.listener.quota t.permit };
      })
  -- Another listener takes a connection id, asks for a permit, or drops one.
  counting :
      (w : World)
      → Step handshake_deadline cid_idle Granted w
          (record w { listener = record w.listener { next_conn_id = w.listener.next_conn_id + 1 } })
  admitting :
      (addr : IpAddr) (w : World)
      → Step handshake_deadline cid_idle Granted w (record w {
        listener = record w.listener { quota = (try_acquire w.listener.quota addr).0 };
        elsewhere = admitted (try_acquire w.listener.quota addr).1 w.elsewhere;
      })
  dropping :
      (before after : List IpAddr) (ip : IpAddr) (w : World)
      → w.elsewhere ≡ before ++ (ip ∷ after)
      → Step handshake_deadline cid_idle Granted w (record w {
        listener = record w.listener { quota = release w.listener.quota ip };
        elsewhere = before ++ after;
      })

pub data Reach (handshake_deadline cid_idle : ℕ) (Granted : Outside → Type 0) (w : World)
    : World → Type 0 where
  here : Reach handshake_deadline cid_idle Granted w w
  next :
      {u v : World}
      → Reach handshake_deadline cid_idle Granted w u
      → Step handshake_deadline cid_idle Granted u v
      → Reach handshake_deadline cid_idle Granted w v

-- A listener that has just been started, with a new quota.
abbrev pub start : ℕ → ℕ → World
start max_total max_per_ip = record {
  listener = record {
    maps = record { by_addr = []; by_cid = [] };
    quota = new_quota max_total max_per_ip;
    pending = none;
    verified = false;
    next_conn_id = 1;
  };
  threads = [];
  elsewhere = [];
  table = [];
  sent = [];
  calls = [];
}
