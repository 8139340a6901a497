-- ===== src/Quota/Permits.antt =====
-- The permits of loft/src/quota.rs that the threads of a listener hold.
use loft.Prelude.{
  ℕ, ◌≡◌, inl, inr, refl, ap, Option, none, some, List, [], ◌∷◌, ◌++◌, length-append, append_assoc,
  ◌==◌, ==_iff, Bool-cases, arith,
}
use loft.Prelude.Eq.{nat_eq}
use loft.Prelude.Assoc.{lookup, insert, remove, Distinct}
use loft.Quota.Defs.{IpAddr, ip_eq, ConnQuota, try_acquire, release}
use loft.Quota.Books.{
  count, count-drop, IsSettled, admitted, try_acquire-IsSettled, release-IsSettled,
}

-- Threads are named by numbers, and each holds a permit.
module _ {T : Type 0} (permit : T → IpAddr) where
  unfoldable pub permits : List (ℕ × T) → List IpAddr
  permits [] = []
  permits ((c, t) ∷ threads) = permit t ∷ permits threads

  pub permits-insert_same :
      (threads : List (ℕ × T)) (conn : ℕ) (t u : T)
      → lookup conn threads ≡ some t
      → permit u ≡ permit t
      → permits (insert conn u threads) ≡ permits threads
  unfolding permits insert lookup
  permits-insert_same [] conn t u found same = absurd (ground arith)
  permits-insert_same ((c, v) ∷ threads) conn t u found same = elim (Bool-cases (c == conn)) [
    | inl it ↦ let given : v ≡ t = ground (arith, found, it) in rw (it, same, given) refl
    | inr other ↦
        rw other
          (ap (λ ps. permit v ∷ ps) (permits-insert_same threads conn t u (rw other at found) same))
  ]

  pub permits-insert_new :
      (threads : List (ℕ × T)) (conn : ℕ) (u : T)
      → lookup conn threads ≡ none
      → permits (insert conn u threads) ≡ permits threads ++ (permit u ∷ [])
  unfolding permits insert lookup
  permits-insert_new [] conn u missing = refl
  permits-insert_new ((c, v) ∷ threads) conn u missing = elim (Bool-cases (c == conn)) [
    | inl it ↦ absurd (ground (arith, missing, it))
    | inr other ↦
        rw other
          (ap (λ ps. permit v ∷ ps) (permits-insert_new threads conn u (rw other at missing)))
  ]

  remove_missing :
      (threads : List (ℕ × T)) (conn : ℕ)
      → lookup conn threads ≡ none
      → remove conn threads ≡ threads
  unfolding remove lookup
  remove_missing [] conn h = refl
  remove_missing ((c, v) ∷ threads) conn h = elim (Bool-cases (c == conn)) [
    | inl it ↦ absurd (ground (arith, h, it))
    | inr other ↦ rw other (ap (λ r. (c, v) ∷ r) (remove_missing threads conn (rw other at h)))
  ]

  -- The permits around that of a thread which leaves.
  pub permits-remove :
      (threads : List (ℕ × T)) (conn : ℕ) (t : T)
      → Distinct threads
      → lookup conn threads ≡ some t
      → (before : List IpAddr) × (after : List IpAddr) × (permits threads
          ≡ before ++ (permit t ∷ after))
        × (permits (remove conn threads) ≡ before ++ after)
  unfolding permits remove lookup
  permits-remove [] conn t d found = absurd (ground arith)
  permits-remove ((c, v) ∷ threads) conn t d found = elim (Bool-cases (c == conn)) [
    | inl it ↦
        let given : v ≡ t = ground (arith, found, it) in
        let id = (==_iff c conn).0 it in
        (
          [],
          permits threads,
          rw given refl,
          rw it (ap permits (remove_missing threads conn (rw id at (d.0)))),
        )
    | inr other ↦
        let rest = permits-remove threads conn t d.1 (rw other at found) in
        (
          permit v ∷ rest.0,
          rest.1,
          ap (λ ps. permit v ∷ ps) rest.2,
          rw other (ap (λ ps. permit v ∷ ps) rest.3),
        )
  ]

-- Where a permit stands among the others has no part in the counts.
pub moved-IsSettled :
    (q : ConnQuota) (before after : List IpAddr) (ip : IpAddr)
    → IsSettled q (ip ∷ (before ++ after))
    → IsSettled q (before ++ (ip ∷ after))
unfolding count
moved-IsSettled q before after ip s =
    let same = λ (j : IpAddr). count-drop before after ip j in
    record {
      total = omega (arith, s.total, length-append before (ip ∷ after), length-append before after);
      per_ip = λ j. rw (same j) (s.per_ip j);
      ceiling = s.ceiling;
      share = λ j. omega (arith, s.share j, same j);
    }

-- Another listener takes a permit, or is refused.
pub admitted-IsSettled :
    (q : ConnQuota) (own held : List IpAddr) (addr : IpAddr) (o : Option IpAddr)
    → (try_acquire q addr).1 ≡ o
    → IsSettled q (own ++ held)
    → IsSettled (try_acquire q addr).0 (own ++ admitted o held)
admitted-IsSettled q own held addr none e s = rw e at (try_acquire-IsSettled q (own ++ held) addr s)
admitted-IsSettled q own held addr (some ip) e s =
    moved-IsSettled (try_acquire q addr).0 own held ip
      (rw e at (try_acquire-IsSettled q (own ++ held) addr s))

pub dropped-IsSettled :
    (q : ConnQuota) (own before after : List IpAddr) (ip : IpAddr)
    → IsSettled q (own ++ (before ++ (ip ∷ after)))
    → IsSettled (release q ip) (own ++ (before ++ after))
dropped-IsSettled q own before after ip s = rw (← append_assoc own before after) (
    release-IsSettled q (own ++ before) after ip (rw (← append_assoc own before (ip ∷ after)) at s))
