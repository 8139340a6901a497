-- ===== src/Listener/Upkeep.antt =====
-- The invariant of the listener when a session has gone through a round of its loops
-- (loft/src/dtls_mbed.rs).
use loft.Prelude.{
  ℕ, ◌≡◌, ◌⊎◌, inl, inr, refl, sym, ◌∙◌, true, false, some, List, if_ind, Bool-cases, arith,
}
use loft.Prelude.Eq.{nat_eq, bytes_key, pair_eq}
use loft.Prelude.Assoc.{lookup, insert}
use loft.Quota.Defs.{IpAddr, ip_eq, ConnQuota}
use loft.Demux.{SocketAddr, Maps, owns, remove_by_addr_if_mine, remove_by_cid_if_mine}
use loft.Shim.Session.{Credentials}
use loft.Listener.Thread.{
  Phase, handshaking, serving, ended, addr_removed, cid_removed, Thread, Shared,
}
use loft.Listener.World.{is_running}
use loft.Listener.Routes.{
  holds_addr, holds_cid, needs_cid, Threads, AreRouted, removed_addr-AreRouted,
  removed_cid-AreRouted, updated-AreRouted, lookup-insert_same,
}
use loft.Listener.Rounds.{Kept}
use loft.Listener.Serving.{Served}
use loft.Listener.Shaking.{reply_peer, Progress}
use loft.Listener.Invariant.{IsOrderly, IsSound, went_on-IsSound}

-- The maps when a thread goes on, and when it gives something up.
module _ (P : Credentials → Type 0) (next : ℕ) (threads : Threads) (held : List IpAddr)
    (q : ConnQuota) (conn : ℕ) where
  -- The maps of a thread that goes on and gives nothing up.
  holding-AreRouted :
      (m : Maps) (t u : Thread)
      → lookup conn threads ≡ some t
      → u.peer ≡ t.peer
      → u.cid ≡ t.cid
      → holds_addr u.phase ≡ true
      → holds_cid u.phase ≡ true
      → (needs_cid u ≡ true → needs_cid t ≡ true)
      → AreRouted m threads next
      → AreRouted m (insert conn u threads) next
  holding-AreRouted m t u found peer cid addr id needs r =
      updated-AreRouted m threads next conn t u found peer cid (λ _. addr) (λ _. id)
        (λ need. r.reachable conn t found (needs need)) r

  -- Entries that a session gives up itself.
  pub own_addr-AreRouted :
      (m : Maps) (peer : SocketAddr) (ts : Threads)
      → AreRouted m ts next
      → AreRouted (remove_by_addr_if_mine m peer conn) ts next
  unfolding remove_by_addr_if_mine
  own_addr-AreRouted m peer ts r =
      if_ind (λ (n : Maps). AreRouted n ts next) _ (λ _. removed_addr-AreRouted m ts next peer r)
        (λ _. r)

  pub own_cid-AreRouted :
      (m : Maps) (cid : List ℕ) (ts : Threads)
      → ((t : Thread) → lookup conn ts ≡ some t → needs_cid t ≡ false)
      → AreRouted m ts next
      → AreRouted (remove_by_cid_if_mine m cid conn) ts next
  unfolding remove_by_cid_if_mine
  own_cid-AreRouted m cid ts free r =
      if_ind (λ (n : Maps). AreRouted n ts next) (owns (lookup cid m.by_cid) conn)
        (λ mine.
          removed_cid-AreRouted m ts next cid
            (λ c t entry found.
              let it : conn ≡ c = ground (arith, mine, entry) in free t (rw it found))
            r)
        (λ _. r)

needs_kept :
    (t u : Thread)
    → is_running t.phase ≡ true
    → u.is_established ≡ t.is_established
    → u.cid_active ≡ t.cid_active
    → needs_cid u ≡ true
    → needs_cid t ≡ true
needs_kept t u runs established active need = ground (arith, runs, established, active, need)

loop_holds :
    (p : Phase) → (p ≡ serving) ⊎ (p ≡ ended) → (holds_addr p ≡ true) × (holds_cid p ≡ true)
loop_holds p (inl e) = rw e (refl, refl)
loop_holds p (inr e) = rw e (refl, refl)

running_holds :
    (p : Phase) → (is_running p ≡ true) ⊎ (p ≡ ended) → (holds_addr p ≡ true) × (holds_cid p ≡ true)
running_holds handshaking h = (refl, refl)
running_holds serving h = (refl, refl)
running_holds ended h = (refl, refl)
running_holds addr_removed h = absurd (ground arith)
running_holds cid_removed h = absurd (ground arith)

some_eq : (u v : Thread) → some u ≡ some v → u ≡ v
some_eq u v h = ground arith

-- No thread of the handshake loop is in these phases.
not_shaking : {A : Type 0} (p : Phase) → (p ≡ serving) ⊎ (p ≡ ended) → p ≡ handshaking → A
not_shaking p (inl e) h = absurd (ground (arith, e, h))
not_shaking p (inr e) h = absurd (ground (arith, e, h))

module _ (P : Credentials → Type 0) (next : ℕ) (threads : Threads) (held : List IpAddr)
    (q : ConnQuota) (conn : ℕ) (t u : Thread) (before after : Shared)
    (found : lookup conn threads ≡ some t)
    (s : IsSound P before.maps q next threads held before.calls) where
  mine : IsOrderly P t
  mine = s.orderly conn t found

  pub served-IsSound :
      t.phase ≡ serving
      → Served P conn (t, before) (u, after)
      → IsSound P after.maps q next (insert conn u threads) held after.calls
  unfolding mine
  served-IsSound serves r =
      let holds = loop_holds u.phase r.phase in
      let routed =
        holding-AreRouted P next threads held q conn before.maps t u found r.kept.peer r.kept.cid
          holds.0 holds.1 (needs_kept t u (rw serves refl) r.steady.established r.steady.cid_active)
          s.routed in
      went_on-IsSound P next threads before.maps after.maps q conn t u held before.calls after.calls
        found r.kept.permit
        (elim r.maps [
          | inl e ↦ rw e routed
          | inr e ↦ rw e (
              own_addr-AreRouted P next threads held q conn before.maps t.peer
                (insert conn u threads) routed)
        ])
        (record {
          has = r.kept.has mine.has;
          pinned = λ off.
              let was : t.cid_active ≡ false = sym r.steady.cid_active ∙ off in
              r.steady.pinned was ∙ mine.pinned was ∙ sym r.kept.peer;
          established = λ h. not_shaking u.phase r.phase h;
        })
        (r.kept.calls mine.has s.granted) s

  -- A thread that goes on within its loops and leaves the maps alone.
  pub holding-IsSound :
      (is_running u.phase ≡ true) ⊎ (u.phase ≡ ended)
      → Kept P (t, before) (u, after)
      → IsOrderly P u
      → (needs_cid u ≡ true → needs_cid t ≡ true)
      → after.maps ≡ before.maps
      → IsSound P after.maps q next (insert conn u threads) held after.calls
  unfolding mine
  holding-IsSound loops kept orderly needs same =
      let holds = running_holds u.phase loops in
      went_on-IsSound P next threads before.maps after.maps q conn t u held before.calls after.calls
        found kept.permit
        (rw same (
          holding-AreRouted P next threads held q conn before.maps t u found kept.peer kept.cid
            holds.0 holds.1 needs s.routed))
        orderly (kept.calls mine.has s.granted) s

  -- A session that is established. Its id is given up if it was not negotiated.
  established-IsSound :
      t.phase ≡ handshaking
      → Kept P (t, before) (u, after)
      → reply_peer u ≡ reply_peer t
      → u.phase ≡ serving
      → u.is_established ≡ true
      → (u.cid_active ≡ true → after.maps ≡ before.maps)
      → (u.cid_active ≡ false → after.maps ≡ remove_by_cid_if_mine before.maps t.cid conn)
      → IsSound P after.maps q next (insert conn u threads) held after.calls
  unfolding mine
  established-IsSound shakes kept pinned serves est on off =
      let unready = mine.established shakes in
      let routed =
        holding-AreRouted P next threads held q conn before.maps t u found kept.peer kept.cid
          (rw serves refl) (rw serves refl) (λ _. ground (arith, shakes, unready.0)) s.routed in
      went_on-IsSound P next threads before.maps after.maps q conn t u held before.calls after.calls
        found kept.permit
        (elim (Bool-cases u.cid_active) [
          | inl active ↦ rw (on active) routed
          | inr inactive ↦ rw (off inactive) (
              own_cid-AreRouted P next threads held q conn before.maps t.cid (insert conn u threads)
                (λ v h.
                  let it : u ≡ v = some_eq u v (sym (lookup-insert_same threads conn u) ∙ h) in
                  rw (← it) (ground (arith, serves, est, inactive)))
                routed)
        ])
        (record {
          has = kept.has mine.has;
          pinned = λ _. pinned ∙ mine.pinned unready.1 ∙ sym kept.peer;
          established = λ h. absurd (ground (arith, serves, h));
        })
        (kept.calls mine.has s.granted) s

  -- What an orderly thread is after a round of its handshake that does not establish it.
  shaken-IsOrderly :
      t.phase ≡ handshaking
      → Kept P (t, before) (u, after)
      → reply_peer u ≡ reply_peer t
      → (u.phase ≡ handshaking
          → (u.is_established ≡ t.is_established) × (u.cid_active ≡ t.cid_active))
      → IsOrderly P u
  unfolding mine
  shaken-IsOrderly shakes kept pinned same =
      let unready = mine.established shakes in
      record {
        has = kept.has mine.has;
        pinned = λ _. pinned ∙ mine.pinned unready.1 ∙ sym kept.peer;
        established = λ h. ((same h).0 ∙ unready.0, (same h).1 ∙ unready.1);
      }

  pub Progress-IsSound :
      t.phase ≡ handshaking
      → Kept P (t, before) (u, after)
      → reply_peer u ≡ reply_peer t
      → Progress conn (t, before) (u, after)
      → IsSound P after.maps q next (insert conn u threads) held after.calls
  Progress-IsSound shakes kept pinned (Progress.ongoing phase est active maps) =
      holding-IsSound (inl (rw phase refl)) kept
        (shaken-IsOrderly shakes kept pinned (λ _. (est, active)))
        (needs_kept t u (rw shakes refl) est active) maps
  Progress-IsSound shakes kept pinned (Progress.over phase maps) =
      holding-IsSound (inr phase) kept
        (shaken-IsOrderly shakes kept pinned (λ h. absurd (ground (arith, phase, h))))
        (λ need. absurd (ground (arith, phase, need))) maps
  Progress-IsSound shakes kept pinned (Progress.established who serves est dev on off) =
      established-IsSound shakes kept pinned serves est on off
