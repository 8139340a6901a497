-- ===== src/Dtls/Steady.antt =====
-- The map, the quota and the threads of loft/src/dtls.rs as one thread goes on or leaves.
use loft.Prelude.{
  ℕ, ◌<◌, ◌≡◌, inl, inr, refl, sym, ◌∙◌, Bool, true, false, Option, none, some, List, ◌∷◌, ◌++◌,
  append_assoc, ◌==◌, ==_iff, if◌then◌else◌, Bool-cases, arith,
}
use loft.Prelude.Eq.{nat_eq, pair_eq}
use loft.Prelude.Assoc.{lookup, insert, remove, lookup-insert, lookup-remove, Distinct}
use loft.Quota.Defs.{IpAddr, ip_eq, release}
use loft.Quota.Books.{release-IsSettled}
use loft.Quota.Permits.{permits-insert_same, permits-remove}
use loft.Dtls.Listen.{Listener}
use loft.Dtls.Connection.{Thread}
use loft.Dtls.Tidy.{Threads, permit_of, IsTidy}

some_eq : (u v : Thread) → some u ≡ some v → u ≡ v
some_eq u v h = ground arith

-- The threads after one has gone on, or has begun.
pub insert_ind :
    (threads : Threads) (c : ℕ) (u : Thread) (Q : ℕ → Thread → Type 0)
    → Q c u
    → ((d : ℕ) (v : Thread) → lookup d threads ≡ some v → Q d v)
    → (d : ℕ) (v : Thread) → lookup d (insert c u threads) ≡ some v
    → Q d v
insert_ind threads c u Q mine theirs d v h = elim (Bool-cases (c == d)) [
  | inr other ↦ theirs d v (sym (lookup-insert c d u threads ∙ rw other refl) ∙ h)
  | inl same ↦
      let it = (==_iff c d).0 same in
      let this = some_eq u v (sym (lookup-insert c d u threads ∙ rw same refl) ∙ h) in
      rw (← it, ← this) mine
]

pub removed_some :
    (test : Bool) (o : Option Thread) (v : Thread)
    → (if test then none else o) ≡ some v
    → o ≡ some v
removed_some true o v h = absurd (ground arith)
removed_some false o v h = h

module _ (elsewhere : List IpAddr) (threads : Threads) (l : Listener) (c : ℕ) (t : Thread)
    (found : lookup c threads ≡ some t) where
  unowned_still :
      (u : Thread) (d : ℕ) → lookup d threads ≡ none → lookup d (insert c u threads) ≡ none
  unowned_still u d h = elim (Bool-cases (c == d)) [
    | inr other ↦ lookup-insert c d u threads ∙ rw other h
    | inl same ↦
        let it = (==_iff c d).0 same in
        let both : some t ≡ none = sym found ∙ rw it h in absurd (ground arith)
  ]

  pub went_on-IsTidy :
      (u : Thread)
      → u.peer ≡ t.peer
      → u.permit ≡ t.permit
      → IsTidy elsewhere threads l
      → IsTidy elsewhere (insert c u threads) l
  went_on-IsTidy u peer permit r = record {
    routed = λ a d v entry held.
        insert_ind threads c u (λ d v. lookup a l.conns ≡ some d → v.peer ≡ a)
          (λ e. peer ∙ r.routed a c t e found) (λ d v h e. r.routed a d v e h) d v held entry;
    named = r.named;
    ids = insert_ind threads c u (λ d v. d < l.next_channel) (r.ids c t found) r.ids;
    pending = λ s h.
        let fresh = r.pending s h in
        record {
          older = fresh.older;
          unowned = unowned_still u s.channel fresh.unowned;
          unnamed = fresh.unnamed;
          anonymous = fresh.anonymous;
        };
    settled = rw (permits-insert_same permit_of threads c t u found permit) r.settled;
  }

  pub exited-IsTidy :
      Distinct threads
      → IsTidy elsewhere threads l
      → IsTidy elsewhere (remove c threads) (record l { quota = release l.quota t.permit })
  exited-IsTidy d r =
      let still : (k : ℕ) (v : Thread)
          → lookup k (remove c threads) ≡ some v
          → lookup k threads ≡ some v =
        λ k v h. removed_some (c == k) _ v (sym (lookup-remove c k threads) ∙ h) in
      let around = permits-remove permit_of threads c t d found in
      record {
        routed = λ a k v entry held. r.routed a k v entry (still k v held);
        named = r.named;
        ids = λ k v h. r.ids k v (still k v h);
        pending = λ s h.
            let fresh = r.pending s h in
            record {
              older = fresh.older;
              unowned = lookup-remove c s.channel threads ∙ elim (Bool-cases (c == s.channel)) [
                | inl same ↦ rw same refl
                | inr other ↦ rw other fresh.unowned
              ];
              unnamed = fresh.unnamed;
              anonymous = fresh.anonymous;
            };
        settled = rw around.3 (
            rw (append_assoc around.0 around.1 elsewhere) (
              release-IsSettled l.quota around.0 (around.1 ++ elsewhere) t.permit (
                rw (around.2, append_assoc around.0 (t.permit ∷ around.1) elsewhere) at
                  r.settled)));
      }
