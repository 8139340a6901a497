-- ===== src/Dtls/Tidy.antt =====
-- What a datagram does to the map, the quota and the pending stream of loft/src/dtls.rs.
use loft.Prelude.{
  ℕ, ◌<◌, ◌≡◌, ◌≢◌, sym, ap, ◌∙◌, Bool, true, false, Option, none, some, List, ◌++◌, if◌then◌else◌,
  arith,
}
use loft.Prelude.Eq.{nat_eq, pair_eq, pair_beq}
use loft.Prelude.Assoc.{lookup, remove, lookup-remove}
use loft.Quota.Defs.{IpAddr, ip_eq}
use loft.Quota.Books.{IsSettled}
use loft.Quota.Permits.{permits}
use loft.Demux.{SocketAddr}
use loft.Dtls.Cookie.{Signer}
use loft.Dtls.Listen.{Stream, Listener, Attempt, Started, Handled, quiet, Accepts, IsHonest}
use loft.Dtls.Connection.{Thread}
use loft.Dtls.World.{with_thread}

abbrev pub Threads : Type 0
Threads = List (ℕ × Thread)

abbrev pub permit_of : Thread → IpAddr
permit_of t = t.permit

-- A stream that no thread owns and no map entry names.
pub record IsFresh (threads : Threads) (l : Listener) (s : Stream) : Type 0 where
  pub older : s.channel < l.next_channel
  pub unowned : lookup s.channel threads ≡ none
  pub unnamed : (a : SocketAddr) → lookup a l.conns ≢ some s.channel
  pub anonymous : s.credentials ≡ none

-- The permits that other listeners hold of the quota stand beside those of the threads.
pub record IsTidy (elsewhere : List IpAddr) (threads : Threads) (l : Listener) : Type 0 where
  pub routed :
      (a : SocketAddr) (c : ℕ) (t : Thread)
      → lookup a l.conns ≡ some c
      → lookup c threads ≡ some t
      → t.peer ≡ a
  pub named : (a : SocketAddr) (c : ℕ) → lookup a l.conns ≡ some c → c < l.next_channel
  pub ids : (c : ℕ) (t : Thread) → lookup c threads ≡ some t → c < l.next_channel
  pub pending : (s : Stream) → l.pending ≡ some s → IsFresh threads l s
  pub settled : IsSettled l.quota (permits permit_of threads ++ elsewhere)

-- What a connection has that begins.
pub record IsEarned (sign : Signer) (cookies : List (List ℕ)) (s : Started) : Type 0 where
  pub verified : Accepts sign s.peer cookies
  pub pinned : s.stream.io.peer ≡ s.peer
  pub anonymous : s.stream.credentials ≡ none

pub some_of : {A : Type 0} (x y : A) → some x ≡ some y → x ≡ y
some_of x y h = ap (λ o. elim o [ none ↦ x | some z ↦ z ]) h

removed_some :
    (test : Bool) (o : Option ℕ) (v : ℕ) → (if test then none else o) ≡ some v → o ≡ some v
removed_some true o v h = absurd (ground arith)
removed_some false o v h = h

pub undone :
    (test : Bool) (o : Option ℕ) (n c : ℕ)
    → (if test then none else if test then some n else o) ≡ some c
    → o ≡ some c
undone true o n c h = absurd (ground arith)
undone false o n c h = h

-- The entry under an address goes.
pub forgotten-IsTidy :
    (elsewhere : List IpAddr) (threads : Threads) (l : Listener) (peer : SocketAddr)
    → IsTidy elsewhere threads l
    → IsTidy elsewhere threads (record l { conns = remove peer l.conns })
forgotten-IsTidy elsewhere threads l peer r =
    let still : (a : SocketAddr) (c : ℕ)
        → lookup a (remove peer l.conns) ≡ some c
        → lookup a l.conns ≡ some c =
      λ a c h. removed_some (pair_beq peer a) _ c (sym (lookup-remove peer a l.conns) ∙ h) in
    record {
      routed = λ a c t h found. r.routed a c t (still a c h) found;
      named = λ a c h. r.named a c (still a c h);
      ids = r.ids;
      pending = λ s h.
          let fresh = r.pending s h in
          record {
            older = fresh.older;
            unowned = fresh.unowned;
            unnamed = λ a e. fresh.unnamed a (still a s.channel e);
            anonymous = fresh.anonymous;
          };
      settled = r.settled;
    }

module _ (sign : Signer) (a : Attempt) (peer : SocketAddr) (elsewhere : List IpAddr)
    (threads : Threads) (honest : IsHonest sign peer a) where
  -- A good outcome of a datagram.
  pub record IsGood (h : Handled) : Type 0 where
    pub tidy : IsTidy elsewhere (with_thread h.started threads) h.listener
    pub earned : (s : Started) → h.started ≡ some s → IsEarned sign a.cookies s
    pub from : (s : Started) → h.started ≡ some s → s.peer ≡ peer

  pub quiet-IsGood : (l : Listener) → IsTidy elsewhere threads l → IsGood (quiet l)
  quiet-IsGood l r = record {
    tidy = r;
    earned = λ s h. absurd (ground arith);
    from = λ s h. absurd (ground arith);
  }

  pub without_pending :
      (l : Listener)
      → IsTidy elsewhere threads l
      → IsTidy elsewhere threads (record l { pending = none })
  without_pending l r = record {
    routed = r.routed;
    named = r.named;
    ids = r.ids;
    pending = λ s h. absurd (ground arith);
    settled = r.settled;
  }

  pub with_stream :
      (l : Listener) (s : Stream)
      → IsTidy elsewhere threads l
      → IsFresh threads l s
      → IsTidy elsewhere threads (record l { pending = some s })
  with_stream l s r fresh = record {
    routed = r.routed;
    named = r.named;
    ids = r.ids;
    pending = λ u h.
        let it : s ≡ u = some_of s u h in
        rw (← it) (record {
          older = fresh.older;
          unowned = fresh.unowned;
          unnamed = fresh.unnamed;
          anonymous = fresh.anonymous;
        });
    settled = r.settled;
  }
