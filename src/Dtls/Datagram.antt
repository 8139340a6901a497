-- ===== src/Dtls/Datagram.antt =====
-- What a datagram of any source does to the listener of loft/src/dtls.rs.
use loft.Prelude.{
  ℕ, ◌+◌, ◌≡◌, inl, inr, refl, sym, ap, ◌∙◌, Option, none, some, List, if_ind, Option-cases, arith,
}
use loft.Prelude.Eq.{nat_eq, pair_eq}
use loft.Prelude.Assoc.{lookup, remove}
use loft.Quota.Defs.{IpAddr, ip_eq, ConnQuota, is_full, try_acquire}
use loft.Quota.Books.{try_acquire-refused}
use loft.Demux.{SocketAddr, Sending, sent, full, disconnected}
use loft.Dtls.Cookie.{Signer}
use loft.Dtls.Listen.{
  Stream, Listener, Attempt, new_stream, admit, on_listened, stamp, feed, with_pending, unknown,
  on_sent, on_found, listen, Accepts, IsHonest,
}
use loft.Dtls.Tidy.{
  Threads, IsFresh, IsTidy, IsGood, forgotten-IsTidy, quiet-IsGood, without_pending, with_stream,
}
use loft.Dtls.Shim.{Listened, retry, accepted, failed, dtlsv1_listen, dtlsv1_listen-accepted}
use loft.Dtls.Promotion.{promote-IsGood}

module _ (sign : Signer) (a : Attempt) (peer : SocketAddr) (elsewhere : List IpAddr)
    (threads : Threads) (honest : IsHonest sign peer a) where
  admit-IsGood :
      (l : Listener) (s : Stream) (r : ConnQuota × Option IpAddr)
      → IsTidy elsewhere threads l
      → IsFresh threads l s
      → s.io.peer ≡ peer
      → Accepts sign peer a.cookies
      → try_acquire l.quota peer.0 ≡ r
      → IsGood sign a peer elsewhere threads honest (admit a peer s l r)
  admit-IsGood l s (q, none) tidy fresh pinned verified e =
      let same : q ≡ l.quota =
        sym (ap (λ (x : ConnQuota × Option IpAddr). x.0) e)
        ∙ try_acquire-refused l.quota peer.0 (ap (λ (x : ConnQuota × Option IpAddr). x.1) e) in
      quiet-IsGood sign a peer elsewhere threads honest _ (record {
        routed = tidy.routed;
        named = tidy.named;
        ids = tidy.ids;
        pending = λ p h. absurd (ground arith);
        settled = rw same tidy.settled;
      })
  admit-IsGood l s (q, some permit) tidy fresh pinned verified e =
      let quota = ap (λ (x : ConnQuota × Option IpAddr). x.0) e in
      rw (← quota) (
        promote-IsGood sign a peer elsewhere threads honest l s permit tidy fresh pinned verified
          (ap (λ (x : ConnQuota × Option IpAddr). x.1) e))

  on_listened-IsGood :
      (l : Listener) (s : Stream) (outcome : Listened)
      → dtlsv1_listen a.version a.has_addr a.ret ≡ outcome
      → IsTidy elsewhere threads l
      → IsFresh threads l s
      → s.io.peer ≡ peer
      → IsGood sign a peer elsewhere threads honest (on_listened a peer s l outcome)
  on_listened-IsGood l s retry e tidy fresh pinned =
      quiet-IsGood sign a peer elsewhere threads honest _
        (with_stream sign a peer elsewhere threads honest l s tidy fresh)
  on_listened-IsGood l s accepted e tidy fresh pinned =
      admit-IsGood l s (try_acquire l.quota peer.0) tidy fresh pinned
        (honest (dtlsv1_listen-accepted a.version a.has_addr a.ret e)) refl
  on_listened-IsGood l s failed e tidy fresh pinned =
      quiet-IsGood sign a peer elsewhere threads honest _
        (without_pending sign a peer elsewhere threads honest l tidy)

  feed-IsGood :
      (l : Listener) (s : Stream)
      → IsTidy elsewhere threads l
      → IsFresh threads l s
      → IsGood sign a peer elsewhere threads honest (feed a peer s l)
  feed-IsGood l s tidy fresh =
      if_ind (IsGood sign a peer elsewhere threads honest) a.is_fed
        (λ _.
          on_listened-IsGood l (stamp peer s) (dtlsv1_listen a.version a.has_addr a.ret) refl tidy
            (record {
              older = fresh.older;
              unowned = fresh.unowned;
              unnamed = fresh.unnamed;
              anonymous = fresh.anonymous;
            })
            refl)
        (λ _.
          quiet-IsGood sign a peer elsewhere threads honest _
            (without_pending sign a peer elsewhere threads honest l tidy))

  -- The channel of a new stream is new.
  new_stream-IsFresh :
      (l : Listener)
      → IsTidy elsewhere threads l
      → IsFresh threads (record l { next_channel = l.next_channel + 1 }) (new_stream l.next_channel)
  new_stream-IsFresh l tidy = record {
    older = omega arith;
    unowned = elim (Option-cases (lookup l.next_channel threads)) [
      | inl missing ↦ missing
      | inr (t, found) ↦ absurd (omega (arith, tidy.ids l.next_channel t found))
    ];
    unnamed = λ b e. omega (arith, tidy.named b l.next_channel e);
    anonymous = refl;
  }

  counted :
      (l : Listener)
      → IsTidy elsewhere threads l
      → l.pending ≡ none
      → IsTidy elsewhere threads (record l { next_channel = l.next_channel + 1 })
  counted l tidy empty = record {
    routed = tidy.routed;
    named = λ b c h. omega (arith, tidy.named b c h);
    ids = λ c t h. omega (arith, tidy.ids c t h);
    pending = λ s h. absurd (ground (arith, empty, h));
    settled = tidy.settled;
  }

  with_pending-IsGood :
      (l : Listener) (p : Option Stream)
      → l.pending ≡ p
      → IsTidy elsewhere threads l
      → IsGood sign a peer elsewhere threads honest (with_pending a peer l p)
  with_pending-IsGood l none e tidy =
      if_ind (IsGood sign a peer elsewhere threads honest) a.can_set_up
        (λ _. feed-IsGood _ _ (counted l tidy e) (new_stream-IsFresh l tidy))
        (λ _. quiet-IsGood sign a peer elsewhere threads honest l tidy)
  with_pending-IsGood l (some s) e tidy = feed-IsGood l s tidy (tidy.pending s e)

  unknown-IsGood :
      (l : Listener)
      → IsTidy elsewhere threads l
      → IsGood sign a peer elsewhere threads honest (unknown a peer l)
  unknown-IsGood l tidy =
      if_ind (IsGood sign a peer elsewhere threads honest) (is_full l.quota)
        (λ _. quiet-IsGood sign a peer elsewhere threads honest l tidy)
        (λ _. with_pending-IsGood l l.pending refl tidy)

  on_sent-IsGood :
      (l : Listener) (g : Sending)
      → IsTidy elsewhere threads l
      → IsGood sign a peer elsewhere threads honest (on_sent a peer l g)
  on_sent-IsGood l sent tidy = quiet-IsGood sign a peer elsewhere threads honest l tidy
  on_sent-IsGood l full tidy = quiet-IsGood sign a peer elsewhere threads honest l tidy
  on_sent-IsGood l disconnected tidy =
      unknown-IsGood (record l { conns = remove peer l.conns })
        (forgotten-IsTidy elsewhere threads l peer tidy)

  on_found-IsGood :
      (l : Listener) (channel : ℕ → Sending) (o : Option ℕ)
      → IsTidy elsewhere threads l
      → IsGood sign a peer elsewhere threads honest (on_found a channel peer l o)
  on_found-IsGood l channel none tidy = unknown-IsGood l tidy
  on_found-IsGood l channel (some c) tidy = on_sent-IsGood l (channel c) tidy

  pub listen-IsGood :
      (l : Listener) (channel : ℕ → Sending)
      → IsTidy elsewhere threads l
      → IsGood sign a peer elsewhere threads honest (listen a channel peer l)
  unfolding listen
  listen-IsGood l channel tidy = on_found-IsGood l channel (lookup peer l.conns) tidy
