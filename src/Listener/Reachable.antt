-- ===== src/Listener/Reachable.antt =====
-- The listener and its sessions in every order of their steps (loft/src/dtls_mbed.rs).
use loft.Prelude.{ℕ, refl, Bool, List, if_ind, arith}
use loft.Prelude.Eq.{nat_eq, bytes_key, pair_eq}
use loft.Prelude.Assoc.{lookup}
use loft.Quota.Defs.{IpAddr, ip_eq}
use loft.Quota.Books.{
  IsSettled, Reach-IsSettled, admitted, try_acquire-IsSettled, release-IsSettled,
}
use loft.Quota.Books
use loft.Demux.{SocketAddr, canonical_peer, route}
use loft.Demux.Effect.{route-Effect}
use loft.Handler.Types.{Call}
use loft.Shim.Session.{Credentials}
use loft.Listener.Library.{Outside, Authenticated}
use loft.Listener.Pending.{Listener, Attempt, Handled, stateless}
use loft.Listener.Outcomes.{Effect, stateless-Effect}
use loft.Listener.World.{World, sessions, with_thread, listen, shared, Step, Reach, start}
use loft.Listener.Routes.{Threads}
use loft.Listener.Promoted.{later-AreRouted}
use loft.Quota.Permits.{permits, admitted-IsSettled, dropped-IsSettled}
use loft.Listener.Beginnings.{kept-IsSound, lost-IsSound, began-IsSound}
use loft.Listener.Upkeep.{served-IsSound, Progress-IsSound}
use loft.Listener.Cleanup.{panicked-IsSound, addr_removed-IsSound, cid_removed-IsSound}
use loft.Listener.Rounds.{authenticated-granted, Grants}
use loft.Listener.Serving.{turn-Served}
use loft.Listener.Shaking.{shake-Shook}
use loft.Listener.Invariant.{permit_of, IsSound, route-AreRouted, exited-IsSound}

abbrev pub IsSoundWorld : (Credentials → Type 0) → World → Type 0
IsSoundWorld P w =
    IsSound P w.listener.maps w.listener.quota w.listener.next_conn_id w.threads w.elsewhere w.calls

module _ (P : Credentials → Type 0) where
  -- What a datagram's handshake stashed was granted.
  earned-granted :
      (o : Outside) (a : Attempt) (who : Credentials)
      → Grants P o
      → Authenticated o who a.callbacks
      → P who
  earned-granted o a who grants h = authenticated-granted P o grants who a.callbacks h

  stateless-IsSound :
      (o : Outside) (a : Attempt) (peer : SocketAddr) (l : Listener) (h : Handled) (now : ℕ)
      (threads : Threads) (held : List IpAddr) (calls : List Call)
      → Grants P o
      → Effect o a peer l h
      → IsSound P l.maps l.quota l.next_conn_id threads held calls
      → IsSound P h.listener.maps h.listener.quota h.listener.next_conn_id
          (with_thread now h.started threads)
          held
          calls
  stateless-IsSound o a peer l h now threads held calls grants (Effect.kept none_ maps quota id) s =
      kept-IsSound P l.next_conn_id threads held calls l.maps _ l.quota _ _ now h.started none_ maps
        quota id s
  stateless-IsSound o a peer l h now threads held calls grants
        (Effect.unspawned cid permit none_ fresh got maps quota id) s =
      lost-IsSound P l.next_conn_id threads held calls l.maps _ l.quota _ _ now h.started peer cid
        permit none_ fresh got maps quota id s
  stateless-IsSound o a peer l h now threads held calls grants
        (Effect.began t some_ e maps quota id) s =
      began-IsSound P l.next_conn_id threads held calls l.maps _ l.quota _ _ now h.started peer t
        some_ e.peer e.fresh_id e.fresh_cid e.charged e.pinned
        (λ who c. earned-granted o a who grants (e.credentials who c)) maps quota id s

  listen-IsSound :
      (o : Outside) (deadline : ℕ) (a : Attempt) (has_room : ℕ → Bool) (now : ℕ) (src : SocketAddr)
      (dgram : List ℕ) (w : World)
      → Grants P o
      → IsSoundWorld P w
      → IsSoundWorld P (listen o deadline a has_room now src dgram w)
  unfolding listen
  listen-IsSound o deadline a has_room now src dgram w grants s =
      let peer = canonical_peer src in
      let r = route (sessions has_room w.threads) w.listener.maps peer dgram in
      let l : Listener = record w.listener { maps = r.maps } in
      let routed : IsSound P r.maps w.listener.quota w.listener.next_conn_id w.threads w.elsewhere
          w.calls =
        record {
          routed =
              route-AreRouted P w.listener.next_conn_id w.threads has_room w.listener.maps r
                (route-Effect (sessions has_room w.threads) w.listener.maps peer dgram) s.routed;
          distinct = s.distinct;
          settled = s.settled;
          orderly = s.orderly;
          granted = s.granted;
        } in
      if_ind (IsSoundWorld P) r.is_unrouted
        (λ _.
          stateless-IsSound o a peer l (stateless o deadline a peer dgram l) now w.threads
            w.elsewhere w.calls grants (stateless-Effect o deadline a peer l dgram).0 routed)
        (λ _. routed)

  Step-IsSound :
      (deadline cid_idle : ℕ) {u v : World}
      → Step deadline cid_idle (Grants P) u v
      → IsSoundWorld P u
      → IsSoundWorld P v
  Step-IsSound deadline cid_idle (Step.datagram o a has_room now src dgram w grants) s =
      listen-IsSound o deadline a has_room now src dgram w grants s
  Step-IsSound deadline cid_idle (Step.shaking o conn k t w grants found phase) s =
      let r =
        shake-Shook P conn o deadline k t (shared w) grants phase
          ((s.orderly conn t found).established phase).1 in
      Progress-IsSound P w.listener.next_conn_id w.threads w.elsewhere w.listener.quota conn t _
        (shared w) _ found s phase r.kept r.pinned r.progress
  Step-IsSound deadline cid_idle (Step.turning o conn k t w grants found phase) s =
      served-IsSound P w.listener.next_conn_id w.threads w.elsewhere w.listener.quota conn t _
        (shared w) _ found s phase (turn-Served P o grants cid_idle conn k t (shared w) phase)
  Step-IsSound deadline cid_idle (Step.panicking conn t w found phase) s =
      panicked-IsSound P w.listener.next_conn_id w.threads w.elsewhere w.listener.quota w.calls conn
        t w.listener.maps found s
  Step-IsSound deadline cid_idle (Step.removing_addr conn t w found phase) s =
      addr_removed-IsSound P w.listener.next_conn_id w.threads w.elsewhere w.listener.quota w.calls
        conn t w.listener.maps found s phase
  Step-IsSound deadline cid_idle (Step.removing_cid conn t w found phase) s =
      cid_removed-IsSound P w.listener.next_conn_id w.threads w.elsewhere w.listener.quota w.calls
        conn t w.listener.maps found s phase
  Step-IsSound deadline cid_idle (Step.exiting conn t w found phase) s =
      exited-IsSound P w.listener.next_conn_id w.threads w.listener.maps w.listener.quota conn t
        w.elsewhere w.calls found phase s
  Step-IsSound deadline cid_idle (Step.counting w) s = record {
    routed = later-AreRouted w.listener.maps w.threads w.listener.next_conn_id s.routed;
    distinct = s.distinct;
    settled = s.settled;
    orderly = s.orderly;
    granted = s.granted;
  }
  Step-IsSound deadline cid_idle (Step.admitting addr w) s = record {
    routed = s.routed;
    distinct = s.distinct;
    settled =
        admitted-IsSettled w.listener.quota (permits permit_of w.threads) w.elsewhere addr _ refl
          s.settled;
    orderly = s.orderly;
    granted = s.granted;
  }
  Step-IsSound deadline cid_idle (Step.dropping before after ip w e) s = record {
    routed = s.routed;
    distinct = s.distinct;
    settled =
        dropped-IsSettled w.listener.quota (permits permit_of w.threads) before after ip
          (rw e at s.settled);
    orderly = s.orderly;
    granted = s.granted;
  }

  -- From the start of a listener, after any datagrams, rounds of sessions, panics and clean-ups in any
  -- order: each map entry names a session with a thread, under that session's own address or minted
  -- id; a session that is in its handshake or negotiated an id is found under its id; the quota
  -- counts exactly the permits of the threads and of other listeners, within both ceilings; a session
  -- without an id replies to its own address alone; and every upstream call carries an identity
  -- and a token that a resolver granted together.
  pub Reach-IsSound :
      (deadline cid_idle max_total max_per_ip : ℕ) {w : World}
      → Reach deadline cid_idle (Grants P) (start max_total max_per_ip) w
      → IsSoundWorld P w
  unfolding lookup permits
  Reach-IsSound deadline cid_idle max_total max_per_ip Reach.here = record {
    routed = record {
      ids = λ c t h. absurd (ground arith);
      by_addr = λ a c h. absurd (ground arith);
      by_cid = λ k c h. absurd (ground arith);
      reachable = λ c t h need. absurd (ground arith);
    };
    distinct = tt;
    settled = Reach-IsSettled max_total max_per_ip Books.Reach.here;
    orderly = λ c t h. absurd (ground arith);
    granted = tt;
  }
  Reach-IsSound deadline cid_idle max_total max_per_ip (Reach.next r st) =
      Step-IsSound deadline cid_idle st (Reach-IsSound deadline cid_idle max_total max_per_ip r)
