-- ===== src/Dtls/Promotion.antt =====
-- What a verified source gets from the listener of loft/src/dtls.rs.
use loft.Prelude.{
  ℕ, ◌≡◌, ◌≢◌, ◌⊎◌, inl, inr, refl, sym, ap, ◌∙◌, none, some, List, [], ◌∷◌, ◌++◌, append_assoc,
  ◌==◌, ==_iff, if_ind, Bool-cases, arith,
}
use loft.Prelude.Eq.{nat_eq, pair_eq, pair_beq, pair_beq_iff}
use loft.Prelude.Assoc.{lookup, insert, remove, lookup-insert, lookup-remove}
use loft.Quota.Defs.{IpAddr, ip_eq, ConnQuota, try_acquire}
use loft.Quota.Books.{IsSettled, try_acquire-IsSettled, release-IsSettled}
use loft.Quota.Permits.{permits, permits-insert_new, moved-IsSettled}
use loft.Demux.{SocketAddr}
use loft.Dtls.Cookie.{Signer}
use loft.Dtls.Listen.{Stream, Listener, Attempt, Started, promote_connection, Accepts, IsHonest}
use loft.Dtls.Connection.{Thread, begin}
use loft.Dtls.Tidy.{Threads, permit_of, IsFresh, IsTidy, IsGood, some_of, undone, quiet-IsGood}

module _ (sign : Signer) (a : Attempt) (peer : SocketAddr) (elsewhere : List IpAddr)
    (threads : Threads) (honest : IsHonest sign peer a) where
  -- The threads when a connection begins.
  insert_found :
      (c d : ℕ) (u t : Thread)
      → lookup d (insert c u threads) ≡ some t
      → ((c ≡ d) × (u ≡ t)) ⊎ (lookup d threads ≡ some t)
  insert_found c d u t h = elim (Bool-cases (c == d)) [
    | inl same ↦
        inl
          ((==_iff c d).0 same, some_of u t (sym (lookup-insert c d u threads ∙ rw same refl) ∙ h))
    | inr other ↦ inr (sym (lookup-insert c d u threads ∙ rw other refl) ∙ h)
  ]

  entry_found :
      (l : Listener) (c d : ℕ) (b : SocketAddr)
      → lookup b (insert peer c l.conns) ≡ some d
      → ((peer ≡ b) × (c ≡ d)) ⊎ (lookup b l.conns ≡ some d)
  entry_found l c d b h = elim (Bool-cases (pair_beq peer b)) [
    | inl same ↦ inl (
      (pair_beq_iff peer b).0 same,
      some_of c d (sym (lookup-insert peer b c l.conns ∙ rw same refl) ∙ h),
    )
    | inr other ↦ inr (sym (lookup-insert peer b c l.conns ∙ rw other refl) ∙ h)
  ]

  begun_routed :
      (l : Listener) (c : ℕ) (u : Thread)
      → IsTidy elsewhere threads l
      → lookup c threads ≡ none
      → ((b : SocketAddr) → lookup b l.conns ≢ some c)
      → u.peer ≡ peer
      → (b : SocketAddr) (d : ℕ) (t : Thread) → lookup b (insert peer c l.conns) ≡ some d
      → lookup d (insert c u threads) ≡ some t
      → t.peer ≡ b
  begun_routed l c u r unowned unnamed at_peer b d t entry found =
      elim (insert_found c d u t found) [
        | inl (id, it) ↦ elim (entry_found l c d b entry) [
          | inl (here, _) ↦ rw (← it) (at_peer ∙ here)
          | inr old ↦ absurd (unnamed b (rw id old))
        ]
        | inr held ↦ elim (entry_found l c d b entry) [
          | inl (here, id) ↦
              let given : none ≡ some t = sym unowned ∙ rw id held in absurd (ground arith)
          | inr old ↦ r.routed b d t old held
        ]
      ]

  IsSettled-after_begin :
      (q : ConnQuota) (c : ℕ) (u : Thread)
      → IsSettled q (permits permit_of threads ++ elsewhere)
      → lookup c threads ≡ none
      → (try_acquire q peer.0).1 ≡ some u.permit
      → IsSettled (try_acquire q peer.0).0 (permits permit_of (insert c u threads) ++ elsewhere)
  IsSettled-after_begin q c u s unowned got =
      let live = permits permit_of threads in
      let charged : IsSettled (try_acquire q peer.0).0 (u.permit ∷ (live ++ elsewhere)) =
        rw got at (try_acquire-IsSettled q (live ++ elsewhere) peer.0 s) in
      rw
        (
          permits-insert_new permit_of threads c u unowned,
          append_assoc live (u.permit ∷ []) elsewhere,
        )
        (moved-IsSettled (try_acquire q peer.0).0 live elsewhere u.permit charged)

  pub promote-IsGood :
      (l : Listener) (s : Stream) (permit : IpAddr)
      → IsTidy elsewhere threads l
      → IsFresh threads l s
      → s.io.peer ≡ peer
      → Accepts sign peer a.cookies
      → (try_acquire l.quota peer.0).1 ≡ some permit
      → IsGood sign a peer elsewhere threads honest (
          promote_connection a peer permit s
            (record l { quota = (try_acquire l.quota peer.0).0; pending = none }))
  promote-IsGood l s permit r fresh pinned verified got =
      let u = begin (record { peer = peer; permit = permit; stream = s }) in
      if_ind (IsGood sign a peer elsewhere threads honest) a.can_spawn
        (λ _. record {
          tidy = record {
            routed = begun_routed l s.channel u r fresh.unowned fresh.unnamed refl;
            named = λ b d h. elim (entry_found l s.channel d b h) [
              | inl (_, id) ↦ rw (← id) fresh.older
              | inr old ↦ r.named b d old
            ];
            ids = λ d t h. elim (insert_found s.channel d u t h) [
              | inl (id, _) ↦ rw (← id) fresh.older
              | inr held ↦ r.ids d t held
            ];
            pending = λ p h. absurd (ground arith);
            settled = IsSettled-after_begin l.quota s.channel u r.settled fresh.unowned got;
          };
          earned = λ st h.
              let it = some_of (record { peer = peer; permit = permit; stream = s }) st h in
              rw (← it)
                (record { verified = verified; pinned = pinned; anonymous = fresh.anonymous });
          from = λ st h.
              let it = some_of (record { peer = peer; permit = permit; stream = s }) st h in
              ap (λ (x : Started). x.peer) (sym it);
        })
        (λ _.
          let live = permits permit_of threads ++ elsewhere in
          let still : (b : SocketAddr) (d : ℕ)
              → lookup b (remove peer (insert peer s.channel l.conns)) ≡ some d
              → lookup b l.conns ≡ some d =
            λ b d h. undone (pair_beq peer b) _ s.channel d (
              sym (
                lookup-remove peer b (insert peer s.channel l.conns)
                ∙ rw (lookup-insert peer b s.channel l.conns) refl)
              ∙ h) in
          quiet-IsGood sign a peer elsewhere threads honest _ (record {
            routed = λ b d t h found. r.routed b d t (still b d h) found;
            named = λ b d h. r.named b d (still b d h);
            ids = r.ids;
            pending = λ p h. absurd (ground arith);
            settled =
                release-IsSettled (try_acquire l.quota peer.0).0 [] live permit
                  (rw got at (try_acquire-IsSettled l.quota live peer.0 r.settled));
          }))
