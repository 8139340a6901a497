-- ===== src/Listener/Serving.antt =====
-- What one round of the serving loop of loft/src/dtls_mbed.rs may do.
use loft.Prelude.{
  ℕ, ◌==◌, ◌≡◌, ◌⊎◌, inl, inr, refl, ◌∙◌, Option, none, some, List, ◌++◌, All-append, take, if_ind,
  arith,
}
use loft.Demux.{Maps, remove_by_addr_if_mine}
use loft.Datagrams.{Processed}
use loft.Datagrams.Process.{IsOwn, process_datagram-IsOwn}
use loft.Shim.Session.{
  Credentials, ReadStatus, data_of, want_read, want_write, peer_closed, failed, read_status,
  is_written,
}
use loft.Listener.Library.{Outside}
use loft.Listener.Thread.{
  serving, ended, Thread, Shared, Round, finish, library, Turn, migrate, reply, conn_of, session_of,
  processed, process, on_data, idle, on_read, turn,
}
use loft.Listener.Rounds.{
  own-CallsOf, Grants, Kept, Steady, same, then_, library-Kept, library-Steady, library-phase,
  library-maps,
}

-- A round that leaves the maps alone, of a session that serves until it ends.
pub record Calm (P : Credentials → Type 0) (before after : Round) : Type 0 where
  pub kept : Kept P before after
  pub steady : Steady before.0 after.0
  pub maps : after.1.maps ≡ before.1.maps
  pub phase : (after.0.phase ≡ serving) ⊎ (after.0.phase ≡ ended)

-- A round of the serving loop.
pub record Served (P : Credentials → Type 0) (conn : ℕ) (before after : Round) : Type 0 where
  pub kept : Kept P before after
  pub steady : Steady before.0 after.0
  pub maps :
      (after.1.maps ≡ before.1.maps)
      ⊎ (after.1.maps ≡ remove_by_addr_if_mine before.1.maps before.0.peer conn)
  pub phase : (after.0.phase ≡ serving) ⊎ (after.0.phase ≡ ended)

Steady-trans : (a b c : Thread) → Steady a b → Steady b c → Steady a c
Steady-trans a b c first second = record {
  established = second.established ∙ first.established;
  cid_active = second.cid_active ∙ first.cid_active;
  pinned = λ off. second.pinned (first.cid_active ∙ off) ∙ first.pinned off;
}

module _ (P : Credentials → Type 0) (o : Outside) (grants : Grants P o) where
  calm : (t : Thread) (w : Shared) → t.phase ≡ serving → Calm P (t, w) (t, w)
  calm t w serves = record {
    kept = same P (t, w);
    steady = record { established = refl; cid_active = refl; pinned = λ _. refl };
    maps = refl;
    phase = inl serves;
  }

  finished : (t : Thread) (w : Shared) → Calm P (t, w) (finish t, w)
  finished t w = record {
    kept = record {
      peer = refl;
      cid = refl;
      permit = refl;
      has = λ ok who h. ok who h;
      calls = λ ok h. h;
    };
    steady = record { established = refl; cid_active = refl; pinned = λ _. refl };
    maps = refl;
    phase = inr refl;
  }

  reply-Calm :
      (k : Turn) (t : Thread) (w : Shared) (bytes : Option (List ℕ))
      → t.phase ≡ serving
      → Calm P (t, w) (reply o k t w bytes)
  reply-Calm k t w none serves = calm t w serves
  reply-Calm k t w (some bytes) serves =
      let kept = library-Kept P o grants k.write_callbacks t w in
      let steady = library-Steady P o grants k.write_callbacks t w in
      if_ind (Calm P (t, w)) (is_written k.write_code)
        (λ _. record {
          kept = kept;
          steady = steady;
          maps = library-maps P o grants k.write_callbacks t w;
          phase = inl (library-phase P o grants k.write_callbacks t w ∙ serves);
        })
        (λ _. record {
          kept = record {
            peer = kept.peer;
            cid = kept.cid;
            permit = kept.permit;
            has = λ ok who h. kept.has ok who h;
            calls = kept.calls;
          };
          steady = record {
            established = steady.established;
            cid_active = steady.cid_active;
            pinned = steady.pinned;
          };
          maps = library-maps P o grants k.write_callbacks t w;
          phase = inr refl;
        })

  processed-Calm :
      (conn : ℕ) (k : Turn) (t : Thread) (w : Shared) (who : Credentials) (p : Processed)
      → t.phase ≡ serving
      → t.device ≡ some who
      → IsOwn (session_of conn who) p.calls
      → Calm P (t, w) (processed o k t w p)
  processed-Calm conn k t w who p serves dev own =
      let r =
        reply-Calm k (record t { dedup = p.conn.dedup; next_mid = p.conn.next_mid })
          (record w { table = p.conn.table; calls = w.calls ++ p.calls }) p.sent serves in
      record {
        kept = record {
          peer = r.kept.peer;
          cid = r.kept.cid;
          permit = r.kept.permit;
          has = λ ok. r.kept.has ok;
          calls = λ ok h.
              r.kept.calls ok (
                All-append _ w.calls p.calls h
                  (own-CallsOf P who p.calls (ok who (inr dev)) own.0));
        };
        steady = record {
          established = r.steady.established;
          cid_active = r.steady.cid_active;
          pinned = r.steady.pinned;
        };
        maps = r.maps;
        phase = r.phase;
      }

  process-Calm :
      (conn n : ℕ) (k : Turn) (t : Thread) (w : Shared) (device : Option Credentials)
      → t.phase ≡ serving
      → t.device ≡ device
      → Calm P (t, w) (process o conn k n t w device)
  process-Calm conn n k t w none serves dev = calm t w serves
  process-Calm conn n k t w (some who) serves dev =
      processed-Calm conn k t w who _ serves dev
        (process_datagram-IsOwn k.env k.clock (session_of conn who) (take n k.bytes) (conn_of t w))

  idle-Calm :
      (cid_idle : ℕ) (k : Turn) (t : Thread) (w : Shared)
      → t.phase ≡ serving
      → Calm P (t, w) (idle cid_idle k t w)
  idle-Calm cid_idle k t w serves =
      if_ind (Calm P (t, w)) _ (λ _. finished t w) (λ _. calm t w serves)

  calm_served : (conn : ℕ) (a b : Round) → Calm P a b → Served P conn a b
  calm_served conn a b c = record {
    kept = c.kept;
    steady = c.steady;
    maps = inl c.maps;
    phase = c.phase;
  }

  migrated :
      (conn : ℕ) (t : Thread) (w : Shared)
      → t.phase ≡ serving
      → Served P conn (t, w) (migrate conn t w)
  migrated conn t w serves =
      if_ind (Served P conn (t, w)) t.cid_active
        (λ on. record {
          kept = record {
            peer = refl;
            cid = refl;
            permit = refl;
            has = λ ok who h. ok who h;
            calls = λ ok h. h;
          };
          steady = record {
            established = refl;
            cid_active = refl;
            pinned = λ off. absurd (ground (arith, on, off));
          };
          maps =
              if_ind (λ (m : Maps). (m ≡ w.maps) ⊎ (m ≡ remove_by_addr_if_mine w.maps t.peer conn))
                t.addr_routed (λ _. inr refl) (λ _. inl refl);
          phase = inl serves;
        })
        (λ _. calm_served conn (t, w) (t, w) (calm t w serves))

  migrate-phase : (conn : ℕ) (t : Thread) (w : Shared) → (migrate conn t w).0.phase ≡ t.phase
  migrate-phase conn t w =
      if_ind (λ (r : Round). r.0.phase ≡ t.phase) t.cid_active (λ _. refl) (λ _. refl)

  -- A calm round before one of the serving loop, and one after it.
  after_calm : (conn : ℕ) (a b c : Round) → Calm P a b → Served P conn b c → Served P conn a c
  after_calm conn a b c first second = record {
    kept = then_ P a b c first.kept second.kept;
    steady = Steady-trans a.0 b.0 c.0 first.steady second.steady;
    maps = elim second.maps [
      | inl e ↦ inl (e ∙ first.maps)
      | inr e ↦ inr (rw (← first.maps, ← first.kept.peer) e)
    ];
    phase = second.phase;
  }

  before_calm : (conn : ℕ) (a b c : Round) → Served P conn a b → Calm P b c → Served P conn a c
  before_calm conn a b c first second = record {
    kept = then_ P a b c first.kept second.kept;
    steady = Steady-trans a.0 b.0 c.0 first.steady second.steady;
    maps = elim first.maps [ inl e ↦ inl (second.maps ∙ e) | inr e ↦ inr (second.maps ∙ e) ];
    phase = second.phase;
  }

  touched : ℕ → Thread → Thread
  touched now t = record t { last_activity = now }

  on_data-Served :
      (conn n : ℕ) (k : Turn) (t : Thread) (w : Shared)
      → t.phase ≡ serving
      → Served P conn (t, w) (on_data o conn k n t w)
  unfolding touched
  on_data-Served conn n k t w serves =
      let now = touched k.now t in
      let r = migrate conn now w in
      let first : Calm P (t, w) (now, w) = record {
        kept = record {
          peer = refl;
          cid = refl;
          permit = refl;
          has = λ ok who h. ok who h;
          calls = λ ok h. h;
        };
        steady = record { established = refl; cid_active = refl; pinned = λ _. refl };
        maps = refl;
        phase = inl serves;
      } in
      let moved = after_calm conn (t, w) (now, w) r first (migrated conn now w serves) in
      if_ind (Served P conn (t, w)) (n == 0) (λ _. moved)
        (λ _.
          before_calm conn (t, w) r _ moved
            (process-Calm conn n k r.0 r.1 r.0.device (migrate-phase conn now w ∙ serves) refl))

  on_read-Served :
      (cid_idle conn : ℕ) (k : Turn) (t : Thread) (w : Shared) (status : ReadStatus)
      → t.phase ≡ serving
      → Served P conn (t, w) (on_read o cid_idle conn k t w status)
  on_read-Served cid_idle conn k t w (data_of n) serves = on_data-Served conn n k t w serves
  on_read-Served cid_idle conn k t w want_read serves =
      calm_served conn (t, w) _ (idle-Calm cid_idle k t w serves)
  on_read-Served cid_idle conn k t w want_write serves =
      calm_served conn (t, w) _ (idle-Calm cid_idle k t w serves)
  on_read-Served cid_idle conn k t w peer_closed serves = calm_served conn (t, w) _ (finished t w)
  on_read-Served cid_idle conn k t w (failed e) serves = calm_served conn (t, w) _ (finished t w)

  -- A round of the serving loop keeps the session's addresses, id and permit, leaves all map entries but
  -- its own address alone, moves the peer of its replies only if an id was negotiated, and makes upstream
  -- calls only with credentials that the session had.
  pub turn-Served :
      (cid_idle conn : ℕ) (k : Turn) (t : Thread) (w : Shared)
      → t.phase ≡ serving
      → Served P conn (t, w) (turn o cid_idle conn k t w)
  unfolding turn
  turn-Served cid_idle conn k t w serves =
      let r = library o k.callbacks t w in
      let still = library-phase P o grants k.callbacks t w ∙ serves in
      after_calm conn (t, w) r _
        (record {
          kept = library-Kept P o grants k.callbacks t w;
          steady = library-Steady P o grants k.callbacks t w;
          maps = library-maps P o grants k.callbacks t w;
          phase = inl still;
        })
        (on_read-Served cid_idle conn k r.0 r.1 (read_status k.code) still)
