-- ===== src/Listener/Promoted.antt =====
-- The maps of loft/src/dtls_mbed.rs when a session begins.
use loft.Prelude.{
  ℕ, ◌+◌, ◌<◌, ◌≡◌, inl, inr, refl, sym, ◌∙◌, Bool, true, false, Option, none, some, List, ◌==◌, ap,
  if◌then◌else◌, Bool-cases, bytes_eq, arith, ==_iff,
}
use loft.Prelude.Eq.{nat_eq, bytes_key, bytes_eq_iff, pair_eq, pair_beq_iff, pair_beq}
use loft.Prelude.Assoc.{lookup, insert, remove, lookup-insert, lookup-remove}
use loft.Quota.Defs.{ip_eq}
use loft.Demux.{SocketAddr, Maps, promoted, cleaned, remove_by_addr_if_mine, remove_by_cid_if_mine}
use loft.Listener.Thread.{Thread, handshaking}
use loft.Listener.Routes.{
  holds_addr, holds_cid, needs_cid, Threads, AreRouted, fewer-AreRouted, insert_ind,
  lookup-insert_other, lookup-insert_same,
}

-- A session begins: its connection id and its counter are new.
module _ (m : Maps) (threads : Threads) (next : ℕ) (u : Thread) (running : u.phase ≡ handshaking)
    (fresh : lookup u.cid m.by_cid ≡ none) (r : AreRouted m threads next) where
  is_new : (c : ℕ) (v : Thread) → lookup c threads ≡ some v → (next == c) ≡ false
  is_new c v held = ground (arith, r.ids c v held)

  new_addr :
      (a : SocketAddr) (c : ℕ)
      → lookup a (promoted m u.peer u.cid next).by_addr ≡ some c
      → (w : Thread) × (lookup c (insert next u threads) ≡ some w)
        × (w.peer ≡ a)
        × (holds_addr w.phase ≡ true)
  unfolding promoted
  new_addr a c h = elim (Bool-cases (pair_beq u.peer a)) [
    | inl same ↦
        let given : some next ≡ some c =
          sym (lookup-insert u.peer a next m.by_addr ∙ rw same refl) ∙ h in
        let id : next ≡ c = ground arith in
        (
          u,
          rw (← id) (lookup-insert_same threads next u),
          (pair_beq_iff u.peer a).0 same,
          rw running refl,
        )
    | inr other ↦
        let old : lookup a m.by_addr ≡ some c =
          sym (lookup-insert u.peer a next m.by_addr ∙ rw other refl) ∙ h in
        let e = r.by_addr a c old in
        (e.0, lookup-insert_other threads next c u (is_new c e.0 e.1) ∙ e.1, e.2, e.3)
  ]

  new_cid :
      (k : List ℕ) (c : ℕ)
      → lookup k (promoted m u.peer u.cid next).by_cid ≡ some c
      → (w : Thread) × (lookup c (insert next u threads) ≡ some w)
        × (w.cid ≡ k)
        × (holds_cid w.phase ≡ true)
  unfolding promoted
  new_cid k c h = elim (Bool-cases (bytes_eq u.cid k)) [
    | inl same ↦
        let given : some next ≡ some c =
          sym (lookup-insert u.cid k next m.by_cid ∙ rw same refl) ∙ h in
        let id : next ≡ c = ground arith in
        (
          u,
          rw (← id) (lookup-insert_same threads next u),
          (bytes_eq_iff u.cid k).0 same,
          rw running refl,
        )
    | inr other ↦
        let old : lookup k m.by_cid ≡ some c =
          sym (lookup-insert u.cid k next m.by_cid ∙ rw other refl) ∙ h in
        let e = r.by_cid k c old in
        (e.0, lookup-insert_other threads next c u (is_new c e.0 e.1) ∙ e.1, e.2, e.3)
  ]

  still_there :
      (c : ℕ) (v : Thread)
      → lookup v.cid m.by_cid ≡ some c
      → lookup v.cid (promoted m u.peer u.cid next).by_cid ≡ some c
  unfolding promoted
  still_there c v h =
      lookup-insert u.cid v.cid next m.by_cid ∙ elim (Bool-cases (bytes_eq u.cid v.cid)) [
        | inr other ↦ rw other h
        | inl same ↦
            let it = (bytes_eq_iff u.cid v.cid).0 same in
            let held : none ≡ some c = sym fresh ∙ rw it h in absurd (ground arith)
      ]

  its_own : lookup u.cid (promoted m u.peer u.cid next).by_cid ≡ some next
  unfolding promoted
  its_own = lookup-insert u.cid u.cid next m.by_cid ∙ ground (arith, bytes_eq_iff u.cid u.cid)

  pub promoted-AreRouted :
      AreRouted (promoted m u.peer u.cid next) (insert next u threads) (next + 1)
  promoted-AreRouted = record {
    ids =
        insert_ind threads next u (λ c v. c < next + 1) (omega arith)
          (λ c v held. omega (arith, r.ids c v held));
    by_addr = new_addr;
    by_cid = new_cid;
    reachable =
        insert_ind threads next u
          (λ c v. needs_cid v ≡ true → lookup v.cid (promoted m u.peer u.cid next).by_cid ≡ some c)
          (λ _. its_own) (λ c v held need. still_there c v (r.reachable c v held need));
  }

-- The counter may be taken further by others.
pub later-AreRouted :
    (m : Maps) (threads : Threads) (next : ℕ)
    → AreRouted m threads next
    → AreRouted m threads (next + 1)
later-AreRouted m threads next r = record {
  ids = λ c t h. omega (arith, r.ids c t h);
  by_addr = r.by_addr;
  by_cid = r.by_cid;
  reachable = r.reachable;
}

-- When the thread of a session cannot be spawned, its entries go again, and what they displaced stays gone.
module _ (m : Maps) (peer : SocketAddr) (cid : List ℕ) (n : ℕ) where
  mine_addr :
      remove_by_addr_if_mine (promoted m peer cid n) peer n
      ≡ record (promoted m peer cid n) { by_addr = remove peer (insert peer n m.by_addr) }
  unfolding promoted remove_by_addr_if_mine
  mine_addr =
      rw (lookup-insert peer peer n m.by_addr, (pair_beq_iff peer peer).1 refl, (==_iff n n).1 refl)
        refl

  mine_cid :
      (addrs : List (SocketAddr × ℕ))
      → remove_by_cid_if_mine (record { by_addr = addrs; by_cid = insert cid n m.by_cid }) cid n
        ≡ record { by_addr = addrs; by_cid = remove cid (insert cid n m.by_cid) }
  unfolding remove_by_cid_if_mine
  mine_cid addrs =
      rw (lookup-insert cid cid n m.by_cid, (bytes_eq_iff cid cid).1 refl, (==_iff n n).1 refl) refl

  pub cleaned-promoted : cleaned (promoted m peer cid n) peer cid n ≡ record {
    by_addr = remove peer (insert peer n m.by_addr);
    by_cid = remove cid (insert cid n m.by_cid);
  }
  unfolding cleaned promoted
  cleaned-promoted =
      ap (λ x. remove_by_cid_if_mine x cid n) mine_addr
      ∙ mine_cid (remove peer (insert peer n m.by_addr))

-- What is found after an entry has been made and taken away.
lookup-undone :
    (test : Bool) (o : Option ℕ) (n c : ℕ)
    → (if test then none else if test then some n else o) ≡ some c
    → o ≡ some c
lookup-undone true o n c h = absurd (ground arith)
lookup-undone false o n c h = h

pub unspawned-AreRouted :
    (m : Maps) (threads : Threads) (next : ℕ) (peer : SocketAddr) (cid : List ℕ)
    → lookup cid m.by_cid ≡ none
    → AreRouted m threads next
    → AreRouted (cleaned (promoted m peer cid next) peer cid next) threads (next + 1)
unspawned-AreRouted m threads next peer cid fresh r = rw (cleaned-promoted m peer cid next) (
    later-AreRouted _ threads next (
      fewer-AreRouted m _ threads next
        (λ a c h. lookup-undone (pair_beq peer a) _ next c (
          sym (
            lookup-remove peer a (insert peer next m.by_addr)
            ∙ rw (lookup-insert peer a next m.by_addr) refl)
          ∙ h))
        (λ k c h. lookup-undone (bytes_eq cid k) _ next c (
          sym (
            lookup-remove cid k (insert cid next m.by_cid)
            ∙ rw (lookup-insert cid k next m.by_cid) refl)
          ∙ h))
        (λ c t found need h.
          lookup-remove cid t.cid (insert cid next m.by_cid)
          ∙ rw (lookup-insert cid t.cid next m.by_cid) (elim (Bool-cases (bytes_eq cid t.cid)) [
            | inr other ↦ rw other h
            | inl same ↦
                let it = (bytes_eq_iff cid t.cid).0 same in
                let held : none ≡ some c = sym fresh ∙ rw it h in absurd (ground arith)
          ]))
        r))
