-- ===== src/Listener/Invariant.antt =====
-- The invariant of the listener and its sessions (loft/src/dtls_mbed.rs), one kind of step at a time.
use loft.Prelude.{
  ℕ, ◌+◌, ◌≡◌, inl, inr, refl, sym, ap, ◌∙◌, Bool, true, false, none, some, List, [], ◌∷◌, ◌++◌,
  ◌&&◌, append_assoc, if◌then◌else◌, Option-cases, arith,
}
use loft.Prelude.Eq.{nat_eq, bytes_key, pair_eq}
use loft.Prelude.Assoc.{lookup, insert, remove, Distinct, insert-Distinct, remove-Distinct}
use loft.Quota.Defs.{IpAddr, ip_eq, ConnQuota, try_acquire, release}
use loft.Quota.Books.{IsSettled, try_acquire-IsSettled, release-IsSettled}
use loft.Demux.{SocketAddr, Maps, sent, full, disconnected, Routed, promoted, cleaned}
use loft.Demux.Effect.{RouteEffect}
use loft.Handler.Types.{Call}
use loft.Shim.Session.{Credentials}
use loft.Listener.Thread.{handshaking, cid_removed, Thread}
use loft.Listener.World.{is_running, send_to, sessions}
use loft.Listener.Routes.{
  Threads, AreRouted, removed_addr-AreRouted, lookup-remove_held, removed_cid-AreRouted,
  exited-AreRouted, insert_ind,
}
use loft.Listener.Promoted.{promoted-AreRouted, unspawned-AreRouted}
use loft.Quota.Permits.{
  permits, permits-insert_same, permits-insert_new, permits-remove, moved-IsSettled,
}
use loft.Listener.Rounds.{Has, CallsOf}
use loft.Listener.Shaking.{reply_peer}

abbrev pub permit_of : Thread → IpAddr
permit_of t = t.permit

-- What holds of one thread.
pub record IsOrderly (P : Credentials → Type 0) (t : Thread) : Type 0 where
  pub has : (who : Credentials) → Has t who → P who
  pub pinned : t.cid_active ≡ false → reply_peer t ≡ t.peer
  pub established : t.phase ≡ handshaking → (t.is_established ≡ false) × (t.cid_active ≡ false)

-- What holds of the whole, where `held` are the permits of other listeners.
pub record IsSound (P : Credentials → Type 0) (m : Maps) (q : ConnQuota) (next : ℕ)
    (threads : Threads) (held : List IpAddr) (calls : List Call) : Type 0 where
  pub routed : AreRouted m threads next
  pub distinct : Distinct threads
  pub settled : IsSettled q (permits permit_of threads ++ held)
  pub orderly : (c : ℕ) (t : Thread) → lookup c threads ≡ some t → IsOrderly P t
  pub granted : CallsOf P calls

-- Routing: an entry that goes had a session that is gone.
disconnected_free :
    (running has_room : Bool) (rest : Bool)
    → (if running then (if has_room then sent else full) else disconnected) ≡ disconnected
    → (running && rest) ≡ false
disconnected_free true true rest h = absurd (ground arith)
disconnected_free true false rest h = absurd (ground arith)
disconnected_free false has_room rest h = refl

module _ (P : Credentials → Type 0) (next : ℕ) (threads : Threads) where
  pub route-AreRouted :
      (has_room : ℕ → Bool) (m : Maps) (r : Routed)
      → RouteEffect (sessions has_room threads) m r
      → AreRouted m threads next
      → AreRouted r.maps threads next
  route-AreRouted has_room m r (RouteEffect.kept e) a = rw e a
  route-AreRouted has_room m r (RouteEffect.dead_addr peer conn held gone e) a =
      rw e (removed_addr-AreRouted m threads next peer a)
  route-AreRouted has_room m r (RouteEffect.dead_cid cid conn held gone e) a = rw e (
      removed_cid-AreRouted m threads next cid
        (λ c t entry found.
          let given : some conn ≡ some c = sym held ∙ entry in
          let it : conn ≡ c = ground arith in
          let its : lookup conn threads ≡ some t = rw it found in
          disconnected_free (is_running t.phase) (has_room conn) _
            (sym (ap (send_to (has_room conn)) its) ∙ gone))
        a)

  unused : (m : Maps) → AreRouted m threads next → lookup next threads ≡ none
  unused m r = elim (Option-cases (lookup next threads)) [
    | inl missing ↦ missing
    | inr (t, found) ↦ absurd (omega (arith, r.ids next t found))
  ]

  -- A session that begins.
  pub begun-IsSound :
      (m : Maps) (q : ConnQuota) (addr : IpAddr) (u : Thread) (held : List IpAddr)
      (calls : List Call)
      → (try_acquire q addr).1 ≡ some u.permit
      → lookup u.cid m.by_cid ≡ none
      → u.phase ≡ handshaking
      → IsOrderly P u
      → IsSound P m q next threads held calls
      → IsSound P
          (promoted m u.peer u.cid next)
          (try_acquire q addr).0
          (next + 1)
          (insert next u threads)
          held
          calls
  begun-IsSound m q addr u held calls got fresh phase mine s =
      let live = permits permit_of threads ++ held in
      let charged : IsSettled (try_acquire q addr).0 (u.permit ∷ live) =
        rw got at (try_acquire-IsSettled q live addr s.settled) in
      let placed = permits-insert_new permit_of threads next u (unused m s.routed) in
      record {
        routed = promoted-AreRouted m threads next u phase fresh s.routed;
        distinct = insert-Distinct next u threads s.distinct;
        settled =
            rw (placed, append_assoc (permits permit_of threads) (u.permit ∷ []) held)
              (moved-IsSettled (try_acquire q addr).0 (permits permit_of threads) held u.permit
                charged);
        orderly = insert_ind threads next u (λ c v. IsOrderly P v) mine s.orderly;
        granted = s.granted;
      }

  -- A session whose thread cannot be spawned.
  pub unspawned-IsSound :
      (m : Maps) (q : ConnQuota) (addr peer_ip : IpAddr) (peer : SocketAddr) (cid : List ℕ)
      (held : List IpAddr) (calls : List Call)
      → (try_acquire q addr).1 ≡ some peer_ip
      → lookup cid m.by_cid ≡ none
      → IsSound P m q next threads held calls
      → IsSound P
          (cleaned (promoted m peer cid next) peer cid next)
          (release (try_acquire q addr).0 peer_ip)
          (next + 1)
          threads
          held
          calls
  unspawned-IsSound m q addr permit peer cid held calls got fresh s =
      let live = permits permit_of threads ++ held in
      record {
        routed = unspawned-AreRouted m threads next peer cid fresh s.routed;
        distinct = s.distinct;
        settled =
            release-IsSettled (try_acquire q addr).0 [] live permit
              (rw got at (try_acquire-IsSettled q live addr s.settled));
        orderly = s.orderly;
        granted = s.granted;
      }

  -- A thread goes on, with the maps as its round left them.
  pub went_on-IsSound :
      (m n : Maps) (q : ConnQuota) (conn : ℕ) (t u : Thread) (held : List IpAddr)
      (calls more : List Call)
      → lookup conn threads ≡ some t
      → u.permit ≡ t.permit
      → AreRouted n (insert conn u threads) next
      → IsOrderly P u
      → CallsOf P more
      → IsSound P m q next threads held calls
      → IsSound P n q next (insert conn u threads) held more
  went_on-IsSound m n q conn t u held calls more found permit routed mine granted s = record {
    routed = routed;
    distinct = insert-Distinct conn u threads s.distinct;
    settled = rw (permits-insert_same permit_of threads conn t u found permit) s.settled;
    orderly = insert_ind threads conn u (λ c v. IsOrderly P v) mine s.orderly;
    granted = granted;
  }

  -- A thread exits.
  pub exited-IsSound :
      (m : Maps) (q : ConnQuota) (conn : ℕ) (t : Thread) (held : List IpAddr) (calls : List Call)
      → lookup conn threads ≡ some t
      → t.phase ≡ cid_removed
      → IsSound P m q next threads held calls
      → IsSound P m (release q t.permit) next (remove conn threads) held calls
  exited-IsSound m q conn t held calls found out s =
      let around = permits-remove permit_of threads conn t s.distinct found in
      record {
        routed = exited-AreRouted m threads next conn t found out s.routed;
        distinct = remove-Distinct conn threads s.distinct;
        settled =
            rw (around.3, append_assoc around.0 around.1 held)
              (release-IsSettled q around.0 (around.1 ++ held) t.permit
                (rw (around.2, append_assoc around.0 (t.permit ∷ around.1) held) at s.settled));
        orderly = λ c v h. s.orderly c v (lookup-remove_held threads conn c v h);
        granted = s.granted;
      }
