-- ===== src/Dtls/World.antt =====
-- loft/src/dtls.rs: the listener's thread and the threads of its connections together, in any order.
use loft.Prelude.{ℕ, ◌≡◌, Bool, true, false, Option, none, some, List, [], ◌∷◌, ◌++◌, if◌then◌else◌}
use loft.Prelude.Eq.{nat_eq, pair_eq}
use loft.Prelude.Assoc.{lookup, insert, remove}
use loft.Quota.Defs.{IpAddr, ip_eq, new_quota, try_acquire, release}
use loft.Quota.Books.{admitted}
use loft.Demux.{SocketAddr, canonical_peer, Sending, sent, full, disconnected}
use loft.Psk.{PskEntry}
use loft.Dtls.Cookie.{Signer}
use loft.Dtls.Listen.{Listener, Attempt, Started, Handled, listen, IsHonest}
use loft.Dtls.Connection.{
  Phase, starting, handshaking, serving, ended, removed, Thread, begin, prepare, Shake, shake, Turn,
  Shared, Round, turn,
}

-- The permits that the mbedTLS listener holds of the quota stand beside those of the threads, and `presented`
-- has the cookies that OpenSSL asked about, with the source of their datagram, the latest first.
pub record World : Type 0 where
  pub listener : Listener
  pub threads : List (ℕ × Thread)
  pub elsewhere : List IpAddr
  pub presented : List (SocketAddr × List (List ℕ))
  pub shared : Shared

-- A stream that has been dropped disconnects its channel.
abbrev pub is_running : Phase → Bool
is_running starting = true
is_running handshaking = true
is_running serving = true
is_running ended = false
is_running removed = false

abbrev pub send_to : Bool → Option Thread → Sending
send_to has_room none = disconnected
send_to has_room (some t) =
    if is_running t.phase then (if has_room then sent else full) else disconnected

abbrev pub channels : (ℕ → Bool) → List (ℕ × Thread) → ℕ → Sending
channels has_room threads c = send_to (has_room c) (lookup c threads)

abbrev pub with_thread : Option Started → List (ℕ × Thread) → List (ℕ × Thread)
with_thread none threads = threads
with_thread (some s) threads = insert s.stream.channel (begin s) threads

abbrev pub after_listen : SocketAddr → Attempt → World → Handled → World
after_listen peer a w h = record w {
  listener = h.listener;
  threads = with_thread h.started w.threads;
  presented = (peer, a.cookies) ∷ w.presented;
}

abbrev pub with_thread_at : ℕ → Thread → World → World
with_thread_at c t w = record w { threads = insert c t w.threads }

abbrev pub after_turn : ℕ → World → Round → World
after_turn c w (t, s) = record w { threads = insert c t w.threads; shared = s }

pub data Step (sign : Signer) (handshake_deadline : ℕ)
    (Granted : (List ℕ → Option PskEntry) → Type 0) : World → World → Type 0 where
  datagram :
      (a : Attempt) (has_room : ℕ → Bool) (src : SocketAddr) (w : World)
      → IsHonest sign (canonical_peer src) a
      → Step sign handshake_deadline Granted w (
          after_listen
            (canonical_peer src)
            a
            w
            (listen a (channels has_room w.threads) (canonical_peer src) w.listener))
  preparing :
      (c now started : ℕ) (is_mtu_set : Bool) (t : Thread) (w : World)
      → lookup c w.threads ≡ some t
      → t.phase ≡ starting
      → Step sign handshake_deadline Granted w
          (with_thread_at c (prepare handshake_deadline now started is_mtu_set t) w)
  shaking :
      (c : ℕ) (k : Shake) (t : Thread) (w : World)
      → Granted k.resolver
      → lookup c w.threads ≡ some t
      → t.phase ≡ handshaking
      → Step sign handshake_deadline Granted w (with_thread_at c (shake handshake_deadline k t) w)
  turning :
      (c : ℕ) (k : Turn) (t : Thread) (w : World)
      → lookup c w.threads ≡ some t
      → t.phase ≡ serving
      → Step sign handshake_deadline Granted w (after_turn c w (turn k t w.shared))
  -- The removal of the map entry, which the end of `connection_thread` leads to, looks at the address only.
  removing :
      (c : ℕ) (t : Thread) (w : World)
      → lookup c w.threads ≡ some t
      → t.phase ≡ ended
      → Step sign handshake_deadline Granted w (
          with_thread_at c
            (record t { phase = removed })
            (record w { listener = record w.listener { conns = remove t.peer w.listener.conns } }))
  -- A panic unwinds past the removal.
  panicking :
      (c : ℕ) (t : Thread) (w : World)
      → lookup c w.threads ≡ some t
      → is_running t.phase ≡ true
      → Step sign handshake_deadline Granted w (with_thread_at c (record t { phase = removed }) w)
  exiting :
      (c : ℕ) (t : Thread) (w : World)
      → lookup c w.threads ≡ some t
      → t.phase ≡ removed
      → Step sign handshake_deadline Granted w (record w {
        threads = remove c w.threads;
        listener = record w.listener { quota = release w.listener.quota t.permit };
      })
  -- The mbedTLS listener, where it runs beside this one, asks for a permit of the same quota, or drops one.
  admitting :
      (addr : IpAddr) (w : World)
      → Step sign handshake_deadline Granted w (record w {
        listener = record w.listener { quota = (try_acquire w.listener.quota addr).0 };
        elsewhere = admitted (try_acquire w.listener.quota addr).1 w.elsewhere;
      })
  dropping :
      (before after : List IpAddr) (ip : IpAddr) (w : World)
      → w.elsewhere ≡ before ++ (ip ∷ after)
      → Step sign handshake_deadline Granted w (record w {
        listener = record w.listener { quota = release w.listener.quota ip };
        elsewhere = before ++ after;
      })

pub data Reach (sign : Signer) (handshake_deadline : ℕ)
    (Granted : (List ℕ → Option PskEntry) → Type 0) (w : World) : World → Type 0 where
  here : Reach sign handshake_deadline Granted w w
  next :
      {u v : World}
      → Reach sign handshake_deadline Granted w u
      → Step sign handshake_deadline Granted u v
      → Reach sign handshake_deadline Granted w v

-- A listener that has just been started, with a new quota.
abbrev pub start : ℕ → ℕ → World
start max_total max_per_ip = record {
  listener = record {
    conns = [];
    quota = new_quota max_total max_per_ip;
    pending = none;
    next_channel = 0;
  };
  threads = [];
  elsewhere = [];
  presented = [];
  shared = record { table = []; written = []; calls = [] };
}
