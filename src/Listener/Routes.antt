-- ===== src/Listener/Routes.antt =====
-- The maps of loft/src/dtls_mbed.rs against the sessions that have threads.
use loft.Prelude.{
  ℕ, ◌<◌, ◌≡◌, ◌≢◌, inl, inr, refl, sym, ap, ◌∙◌, Bool, true, false, ◌&&◌, ◌||◌, not, Option, none,
  some, List, ◌==◌, ==_iff, if◌then◌else◌, Bool-cases, bytes_eq, arith,
}
use loft.Prelude.Eq.{nat_eq, bytes_key, bytes_eq_iff, pair_eq, pair_beq}
use loft.Prelude.Assoc.{lookup, insert, remove, lookup-insert, lookup-remove}
use loft.Quota.Defs.{ip_eq}
use loft.Demux.{SocketAddr, Maps}
use loft.Listener.Thread.{Phase, handshaking, serving, ended, addr_removed, cid_removed, Thread}
use loft.Listener.World.{is_running}

-- Whether a session may still have its entry in each map.
abbrev pub holds_addr : Phase → Bool
holds_addr handshaking = true
holds_addr serving = true
holds_addr ended = true
holds_addr addr_removed = false
holds_addr cid_removed = false

abbrev pub holds_cid : Phase → Bool
holds_cid handshaking = true
holds_cid serving = true
holds_cid ended = true
holds_cid addr_removed = true
holds_cid cid_removed = false

-- A session that its connection id must reach: one whose handshake goes on, or that negotiated an id.
abbrev pub needs_cid : Thread → Bool
needs_cid t = is_running t.phase && (not t.is_established || t.cid_active)

abbrev pub Threads : Type 0
Threads = List (ℕ × Thread)

pub record AreRouted (m : Maps) (threads : Threads) (next : ℕ) : Type 0 where
  pub ids : (c : ℕ) (t : Thread) → lookup c threads ≡ some t → c < next
  pub by_addr :
      (a : SocketAddr) (c : ℕ)
      → lookup a m.by_addr ≡ some c
      → (t : Thread) × (lookup c threads ≡ some t) × (t.peer ≡ a) × (holds_addr t.phase ≡ true)
  pub by_cid :
      (cid : List ℕ) (c : ℕ)
      → lookup cid m.by_cid ≡ some c
      → (t : Thread) × (lookup c threads ≡ some t) × (t.cid ≡ cid) × (holds_cid t.phase ≡ true)
  pub reachable :
      (c : ℕ) (t : Thread)
      → lookup c threads ≡ some t
      → needs_cid t ≡ true
      → lookup t.cid m.by_cid ≡ some c

-- Fewer entries, none of them needed.
pub fewer-AreRouted :
    (m n : Maps) (threads : Threads) (next : ℕ)
    → ((a : SocketAddr) (c : ℕ) → lookup a n.by_addr ≡ some c → lookup a m.by_addr ≡ some c)
    → ((cid : List ℕ) (c : ℕ) → lookup cid n.by_cid ≡ some c → lookup cid m.by_cid ≡ some c)
    → ((c : ℕ) (t : Thread)
        → lookup c threads ≡ some t
        → needs_cid t ≡ true
        → lookup t.cid m.by_cid ≡ some c
        → lookup t.cid n.by_cid ≡ some c)
    → AreRouted m threads next
    → AreRouted n threads next
fewer-AreRouted m n threads next addr cid still r = record {
  ids = r.ids;
  by_addr = λ a c h. r.by_addr a c (addr a c h);
  by_cid = λ k c h. r.by_cid k c (cid k c h);
  reachable = λ c t h need. still c t h need (r.reachable c t h need);
}

removed_some :
    {V : Type 0} (test : Bool) (o : Option V) (v : V)
    → (if test then none else o) ≡ some v
    → o ≡ some v
removed_some true o v h = absurd (ground arith)
removed_some false o v h = h

pub removed_addr-AreRouted :
    (m : Maps) (threads : Threads) (next : ℕ) (peer : SocketAddr)
    → AreRouted m threads next
    → AreRouted (record m { by_addr = remove peer m.by_addr }) threads next
removed_addr-AreRouted m threads next peer r =
    fewer-AreRouted m (record m { by_addr = remove peer m.by_addr }) threads next
      (λ a c h. removed_some (pair_beq peer a) _ c (sym (lookup-remove peer a m.by_addr) ∙ h))
      (λ cid c h. h) (λ c t found need h. h) r

pub removed_cid-AreRouted :
    (m : Maps) (threads : Threads) (next : ℕ) (cid : List ℕ)
    → ((c : ℕ) (t : Thread)
        → lookup cid m.by_cid ≡ some c
        → lookup c threads ≡ some t
        → needs_cid t ≡ false)
    → AreRouted m threads next
    → AreRouted (record m { by_cid = remove cid m.by_cid }) threads next
removed_cid-AreRouted m threads next cid free r =
    fewer-AreRouted m (record m { by_cid = remove cid m.by_cid }) threads next (λ a c h. h)
      (λ k c h. removed_some (bytes_eq cid k) _ c (sym (lookup-remove cid k m.by_cid) ∙ h))
      (λ c t found need h. elim (Bool-cases (bytes_eq cid t.cid)) [
        | inl same ↦
            let it = (bytes_eq_iff cid t.cid).0 same in
            absurd (ground (arith, free c t (rw (← it) at h) found))
        | inr other ↦ lookup-remove cid t.cid m.by_cid ∙ rw other h
      ])
      r

pub lookup-insert_other :
    (threads : Threads) (conn c : ℕ) (u : Thread)
    → (conn == c) ≡ false
    → lookup c (insert conn u threads) ≡ lookup c threads
lookup-insert_other threads conn c u other = lookup-insert conn c u threads ∙ rw other refl

-- A property of all threads after one has gone on, begun or gone.
pub insert_ind :
    (threads : Threads) (conn : ℕ) (u : Thread) (P : ℕ → Thread → Type 0)
    → P conn u
    → ((c : ℕ) (v : Thread) → lookup c threads ≡ some v → P c v)
    → (c : ℕ) (v : Thread) → lookup c (insert conn u threads) ≡ some v
    → P c v
insert_ind threads conn u P mine theirs c v h = elim (Bool-cases (conn == c)) [
  | inr other ↦ theirs c v (sym (lookup-insert_other threads conn c u other) ∙ h)
  | inl same ↦
      let it = (==_iff conn c).0 same in
      let given : some u ≡ some v = sym (lookup-insert conn c u threads ∙ rw same refl) ∙ h in
      let this : u ≡ v = ground arith in rw (← it, ← this) mine
]

pub lookup-insert_same :
    (threads : Threads) (conn : ℕ) (u : Thread) → lookup conn (insert conn u threads) ≡ some u
lookup-insert_same threads conn u =
    lookup-insert conn conn u threads ∙ ground (arith, ==_iff conn conn)

-- A thread goes on. What it gives up is not in the maps any more, and what it needs it had.
module _ (m : Maps) (threads : Threads) (next conn : ℕ) (t u : Thread)
    (found : lookup conn threads ≡ some t) (peer : u.peer ≡ t.peer) (cid : u.cid ≡ t.cid)
    (addr_gone : lookup t.peer m.by_addr ≡ some conn → holds_addr u.phase ≡ true)
    (cid_gone : lookup t.cid m.by_cid ≡ some conn → holds_cid u.phase ≡ true)
    (needs : needs_cid u ≡ true → lookup t.cid m.by_cid ≡ some conn) where
  is_it :
      (c : ℕ) (v : Thread) → (conn == c) ≡ true → lookup c threads ≡ some v → (conn ≡ c) × (v ≡ t)
  is_it c v same held =
      let it = (==_iff conn c).0 same in (it, ground (arith, found, rw (← it) at held))

  addr_entry :
      (a : SocketAddr) (c : ℕ) (v : Thread)
      → lookup a m.by_addr ≡ some c
      → lookup c threads ≡ some v
      → v.peer ≡ a
      → holds_addr v.phase ≡ true
      → (w : Thread) × (lookup c (insert conn u threads) ≡ some w)
        × (w.peer ≡ a)
        × (holds_addr w.phase ≡ true)
  addr_entry a c v entry held at_peer phase = elim (Bool-cases (conn == c)) [
    | inr other ↦ (v, lookup-insert_other threads conn c u other ∙ held, at_peer, phase)
    | inl same ↦
        let it = is_it c v same held in
        let mine : t.peer ≡ a = ap (λ (x : Thread). x.peer) (sym it.1) ∙ at_peer in
        (
          u,
          rw (← it.0) (lookup-insert_same threads conn u),
          peer ∙ mine,
          addr_gone (rw (mine, it.0) entry),
        )
  ]

  cid_entry :
      (k : List ℕ) (c : ℕ) (v : Thread)
      → lookup k m.by_cid ≡ some c
      → lookup c threads ≡ some v
      → v.cid ≡ k
      → holds_cid v.phase ≡ true
      → (w : Thread) × (lookup c (insert conn u threads) ≡ some w)
        × (w.cid ≡ k)
        × (holds_cid w.phase ≡ true)
  cid_entry k c v entry held of_cid phase = elim (Bool-cases (conn == c)) [
    | inr other ↦ (v, lookup-insert_other threads conn c u other ∙ held, of_cid, phase)
    | inl same ↦
        let it = is_it c v same held in
        let mine : t.cid ≡ k = ap (λ (x : Thread). x.cid) (sym it.1) ∙ of_cid in
        (
          u,
          rw (← it.0) (lookup-insert_same threads conn u),
          cid ∙ mine,
          cid_gone (rw (mine, it.0) entry),
        )
  ]

  pub updated-AreRouted : AreRouted m threads next → AreRouted m (insert conn u threads) next
  updated-AreRouted r = record {
    ids = insert_ind threads conn u (λ c v. c < next) (r.ids conn t found) r.ids;
    by_addr = λ a c h. let e = r.by_addr a c h in addr_entry a c e.0 h e.1 e.2 e.3;
    by_cid = λ k c h. let e = r.by_cid k c h in cid_entry k c e.0 h e.1 e.2 e.3;
    reachable =
        insert_ind threads conn u (λ c v. needs_cid v ≡ true → lookup v.cid m.by_cid ≡ some c)
          (λ need. rw cid (needs need)) r.reachable;
  }

pub lookup-remove_held :
    (threads : Threads) (conn c : ℕ) (v : Thread)
    → lookup c (remove conn threads) ≡ some v
    → lookup c threads ≡ some v
lookup-remove_held threads conn c v h =
    removed_some (conn == c) _ v (sym (lookup-remove conn c threads) ∙ h)

-- Another thread stays.
lookup-remove_other :
    (threads : Threads) (conn c : ℕ) (t v : Thread)
    → lookup conn threads ≡ some t
    → lookup c threads ≡ some v
    → v ≢ t
    → lookup c (remove conn threads) ≡ some v
lookup-remove_other threads conn c t v found held differ =
    lookup-remove conn c threads ∙ elim (Bool-cases (conn == c)) [
      | inr other ↦ rw other held
      | inl same ↦
          let it = (==_iff conn c).0 same in
          let both : some v ≡ some t = sym held ∙ rw (← it) found in absurd (differ (ground arith))
    ]

-- A thread exits that has no entry any more.
pub exited-AreRouted :
    (m : Maps) (threads : Threads) (next conn : ℕ) (t : Thread)
    → lookup conn threads ≡ some t
    → t.phase ≡ cid_removed
    → AreRouted m threads next
    → AreRouted m (remove conn threads) next
exited-AreRouted m threads next conn t found out r = record {
  ids = λ c v h. r.ids c v (lookup-remove_held threads conn c v h);
  by_addr = λ a c h.
      let e = r.by_addr a c h in
      (
        e.0,
        lookup-remove_other threads conn c t e.0 found e.1
            (λ same. ground (arith, out, e.3, ap (λ (x : Thread). holds_addr x.phase) same)),
        e.2,
        e.3,
      );
  by_cid = λ k c h.
      let e = r.by_cid k c h in
      (
        e.0,
        lookup-remove_other threads conn c t e.0 found e.1
            (λ same. ground (arith, out, e.3, ap (λ (x : Thread). holds_cid x.phase) same)),
        e.2,
        e.3,
      );
  reachable = λ c v h need. r.reachable c v (lookup-remove_held threads conn c v h) need;
}
