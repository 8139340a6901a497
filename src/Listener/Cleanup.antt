-- ===== src/Listener/Cleanup.antt =====
-- The invariant of the listener through the clean-up of a session's thread (loft/src/dtls_mbed.rs).
use loft.Prelude.{ℕ, ◌≡◌, refl, sym, ap, ◌∙◌, Bool, true, false, some, List, arith}
use loft.Prelude.Eq.{nat_eq, bytes_key, pair_eq}
use loft.Prelude.Assoc.{lookup, insert}
use loft.Quota.Defs.{IpAddr, ip_eq, ConnQuota}
use loft.Demux.{Maps, remove_by_addr_if_mine, remove_by_cid_if_mine}
use loft.Demux.Laws.{remove_by_addr-own, remove_by_cid-own, by_addr-remove_by_cid}
use loft.Handler.Types.{Call}
use loft.Shim.Session.{Credentials}
use loft.Listener.Thread.{Phase, handshaking, serving, ended, addr_removed, cid_removed, Thread}
use loft.Listener.World.{is_running}
use loft.Listener.Routes.{holds_addr, holds_cid, Threads, AreRouted, updated-AreRouted}
use loft.Listener.Upkeep.{own_addr-AreRouted, own_cid-AreRouted}
use loft.Listener.Invariant.{IsOrderly, IsSound, went_on-IsSound}

abbrev is_shaking : Phase → Bool
is_shaking handshaking = true
is_shaking serving = false
is_shaking ended = false
is_shaking addr_removed = false
is_shaking cid_removed = false

stopped : (p : Phase) → is_running p ≡ false → is_shaking p ≡ false
stopped handshaking off = absurd (ground arith)
stopped serving off = absurd (ground arith)
stopped ended off = refl
stopped addr_removed off = refl
stopped cid_removed off = refl

some_eq : (u v : Thread) → some u ≡ some v → u ≡ v
some_eq u v h = ground arith

module _ (P : Credentials → Type 0) (next : ℕ) (threads : Threads) (held : List IpAddr)
    (q : ConnQuota) (calls : List Call) (conn : ℕ) (t : Thread) (m : Maps)
    (found : lookup conn threads ≡ some t) (s : IsSound P m q next threads held calls) where
  in_phase : Phase → Thread
  in_phase p = record t { phase = p }

  in_phase-IsOrderly : (p : Phase) → is_shaking p ≡ false → IsOrderly P (in_phase p)
  unfolding in_phase
  in_phase-IsOrderly p off =
      let mine = s.orderly conn t found in
      record {
        has = λ who h. mine.has who h;
        pinned = mine.pinned;
        established = λ h. absurd (ground (arith, off, ap is_shaking h));
      }

  moved-IsSound :
      (p : Phase) (n : Maps)
      → is_running p ≡ false
      → (lookup t.peer n.by_addr ≡ some conn → holds_addr p ≡ true)
      → (lookup t.cid n.by_cid ≡ some conn → holds_cid p ≡ true)
      → AreRouted n threads next
      → IsSound P n q next (insert conn (record t { phase = p }) threads) held calls
  unfolding in_phase
  moved-IsSound p n off addr cid routed =
      went_on-IsSound P next threads m n q conn t (record t { phase = p }) held calls calls found
        refl
        (updated-AreRouted n threads next conn t (record t { phase = p }) found refl refl addr cid
          (λ need. absurd (ground (arith, off, need))) routed)
        (in_phase-IsOrderly p (stopped p off)) s.granted s

  -- A session whose clean-up has gone so far has no entry under its address.
  addr_is_gone :
      t.phase ≡ addr_removed → lookup t.peer m.by_addr ≡ some conn → holds_addr cid_removed ≡ true
  addr_is_gone over e =
      let entry = s.routed.by_addr t.peer conn e in
      let it : t ≡ entry.0 = some_eq t entry.0 (sym found ∙ entry.1) in
      absurd (ground (arith, over, entry.3, ap (λ (x : Thread). x.phase) it))

  -- A panic in a session's thread unwinds to its clean-up.
  pub panicked-IsSound :
      IsSound P m q next (insert conn (record t { phase = ended }) threads) held calls
  panicked-IsSound = moved-IsSound ended m refl (λ _. refl) (λ _. refl) s.routed

  pub addr_removed-IsSound :
      t.phase ≡ ended
      → IsSound P
          (remove_by_addr_if_mine m t.peer conn)
          q
          next
          (insert conn (record t { phase = addr_removed }) threads)
          held
          calls
  addr_removed-IsSound over =
      moved-IsSound addr_removed (remove_by_addr_if_mine m t.peer conn) refl
        (λ e. absurd (remove_by_addr-own m t.peer conn e)) (λ _. refl)
        (own_addr-AreRouted P next threads held q conn m t.peer threads s.routed)

  pub cid_removed-IsSound :
      t.phase ≡ addr_removed
      → IsSound P
          (remove_by_cid_if_mine m t.cid conn)
          q
          next
          (insert conn (record t { phase = cid_removed }) threads)
          held
          calls
  cid_removed-IsSound over =
      moved-IsSound cid_removed (remove_by_cid_if_mine m t.cid conn) refl
        (λ e. addr_is_gone over (sym (ap (lookup t.peer) (by_addr-remove_by_cid m t.cid conn)) ∙ e))
        (λ e. absurd (remove_by_cid-own m t.cid conn e))
        (own_cid-AreRouted P next threads held q conn m t.cid threads
          (λ v h. let it : t ≡ v = some_eq t v (sym found ∙ h) in rw (← it) (ground (arith, over)))
          s.routed)
