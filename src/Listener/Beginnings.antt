-- ===== src/Listener/Beginnings.antt =====
-- The invariant of the listener when a datagram has been handled (loft/src/dtls_mbed.rs).
use loft.Prelude.{ℕ, ◌+◌, ◌≡◌, inl, inr, refl, sym, ◌∙◌, Option, none, some, List, arith}
use loft.Prelude.Eq.{nat_eq, bytes_key, pair_eq}
use loft.Prelude.Assoc.{lookup}
use loft.Quota.Defs.{IpAddr, ip_eq, ConnQuota, try_acquire, release}
use loft.Demux.{SocketAddr, Maps, promoted, cleaned}
use loft.Handler.Types.{Call}
use loft.Shim.Session.{Credentials}
use loft.Listener.Pending.{Started}
use loft.Listener.Thread.{begin}
use loft.Listener.World.{with_thread}
use loft.Listener.Routes.{Threads}
use loft.Listener.Invariant.{IsSound, begun-IsSound, unspawned-IsSound}

module _ (P : Credentials → Type 0) (next : ℕ) (threads : Threads) (held : List IpAddr)
    (calls : List Call) where
  -- The parts of a sound state, by what they are equal to.
  pub kept-IsSound :
      (m n : Maps) (q r : ConnQuota) (later now : ℕ) (o : Option Started)
      → o ≡ none
      → n ≡ m
      → r ≡ q
      → later ≡ next
      → IsSound P m q next threads held calls
      → IsSound P n r later (with_thread now o threads) held calls
  kept-IsSound m n q r later now o none_ maps quota counter s = rw (none_, maps, quota, counter) s

  pub lost-IsSound :
      (m n : Maps) (q r : ConnQuota) (later now : ℕ) (o : Option Started) (peer : SocketAddr)
      (cid : List ℕ) (permit : IpAddr)
      → o ≡ none
      → lookup cid m.by_cid ≡ none
      → (try_acquire q peer.0).1 ≡ some permit
      → n ≡ cleaned (promoted m peer cid next) peer cid next
      → r ≡ release (try_acquire q peer.0).0 permit
      → later ≡ next + 1
      → IsSound P m q next threads held calls
      → IsSound P n r later (with_thread now o threads) held calls
  lost-IsSound m n q r later now o peer cid permit none_ fresh got maps quota counter s =
      rw (none_, maps, quota, counter)
        (unspawned-IsSound P next threads m q peer.0 permit peer cid held calls got fresh s)

  pub began-IsSound :
      (m n : Maps) (q r : ConnQuota) (later now : ℕ) (o : Option Started) (peer : SocketAddr)
      (t : Started)
      → o ≡ some t
      → t.peer ≡ peer
      → t.conn_id ≡ next
      → lookup t.cid m.by_cid ≡ none
      → (try_acquire q peer.0).1 ≡ some t.permit
      → t.session.io.committed_peer ≡ peer
      → ((who : Credentials) → t.session.credentials ≡ some who → P who)
      → n ≡ promoted m peer t.cid t.conn_id
      → r ≡ (try_acquire q peer.0).0
      → later ≡ next + 1
      → IsSound P m q next threads held calls
      → IsSound P n r later (with_thread now o threads) held calls
  began-IsSound m n q r later now o peer t some_ at_peer id fresh got pinned ok maps quota counter
        s =
      rw (some_, maps, quota, counter, id, ← at_peer)
        (begun-IsSound P next threads m q t.peer.0 (begin now t) held calls (rw at_peer got) fresh
          refl
          (record {
            has = λ who h. elim h [ inl c ↦ ok who c | inr d ↦ absurd (ground arith) ];
            pinned = λ _. pinned ∙ sym at_peer;
            established = λ _. (refl, refl);
          })
          s)
