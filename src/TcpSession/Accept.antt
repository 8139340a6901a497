-- ===== src/TcpSession/Accept.antt =====
-- loft/src/tls_tcp.rs: the accept loop of `run_inner` with the threads that it begins, in every order of
-- arrivals and ends of threads.
use loft.Prelude.{
  ℕ, ◌+◌, ◌≡◌, ◌≤◌, refl, Bool, Option, none, some, List, [], if◌then◌else◌, if_ind, ==_iff, arith,
  append-nil,
}
use loft.Prelude.Eq.{nat_eq}
use loft.Prelude.Assoc.{
  lookup, insert, remove, lookup-insert, lookup-remove, Distinct, insert-Distinct, remove-Distinct,
}
use loft.Quota.Defs.{IpAddr, ip_eq, ConnQuota, new_quota, try_acquire, release}
use loft.Quota.Books
use loft.Quota.Books.{
  IsSettled, admitted, try_acquire-IsSettled, release-IsSettled, Reach-IsSettled,
}
use loft.Quota.Permits.{permits, permits-insert_new, permits-remove, moved-IsSettled}
use loft.Demux.{SocketAddr, canonical_peer}

-- `MAX_CONNECTIONS` and `MAX_CONNECTIONS_PER_IP` are `quota`'s; the threads hold their permits.
pub record Acceptor : Type 0 where
  pub quota : ConnQuota
  pub threads : List (ℕ × IpAddr)
  pub next_thread : ℕ

-- What `incoming` gives: an error, a socket that cannot name its peer, or one that can, with whether a
-- thread can be begun for it.
pub data Incoming : Type 0 where
  failed unnamed : Incoming
  from : SocketAddr → Bool → Incoming

-- The closure with the permit runs in a thread, or is dropped.
abbrev pub spawn : Bool → ConnQuota × Option IpAddr → Acceptor → Acceptor
spawn is_spawned (quota, none) a = record a { quota = quota }
spawn is_spawned (quota, some permit) a =
    if is_spawned
    then record {
      quota = quota;
      threads = insert a.next_thread permit a.threads;
      next_thread = a.next_thread + 1;
    }
    else record a { quota = release quota permit }

-- One round of the loop.
unfoldable pub on_incoming : Incoming → Acceptor → Acceptor
unfolding canonical_peer
on_incoming failed a = a
on_incoming unnamed a = a
on_incoming (from addr is_spawned) a =
    spawn is_spawned (try_acquire a.quota (canonical_peer addr).0) a

-- A thread ends, by whichever path, and drops its permit.
abbrev pub ended : ℕ → IpAddr → Acceptor → Acceptor
ended c permit a = record a { quota = release a.quota permit; threads = remove c a.threads }

pub data Step : Acceptor → Acceptor → Type 0 where
  arrival : (a : Acceptor) (i : Incoming) → Step a (on_incoming i a)
  exit :
      (a : Acceptor) (c : ℕ) (permit : IpAddr)
      → lookup c a.threads ≡ some permit
      → Step a (ended c permit a)

pub data Reach (a : Acceptor) : Acceptor → Type 0 where
  here : Reach a a
  next : {b c : Acceptor} → Reach a b → Step b c → Reach a c

abbrev pub start : ℕ → ℕ → Acceptor
start max_connections max_per_ip = record {
  quota = new_quota max_connections max_per_ip;
  threads = [];
  next_thread = 0;
}

abbrev pub permits_of : Acceptor → List IpAddr
permits_of a = permits (λ (ip : IpAddr). ip) a.threads

pub record IsAccounted (a : Acceptor) : Type 0 where
  pub settled : IsSettled a.quota (permits_of a)
  pub distinct : Distinct a.threads
  pub fresh : (c : ℕ) → a.next_thread ≤ c → lookup c a.threads ≡ none

spawn-IsAccounted :
    (is_spawned : Bool) (q : ConnQuota) (found : Option IpAddr) (a : Acceptor)
    → IsSettled q (admitted found (permits_of a))
    → IsAccounted a
    → IsAccounted (spawn is_spawned (q, found) a)
spawn-IsAccounted is_spawned q none a s h = record {
  settled = s;
  distinct = h.distinct;
  fresh = h.fresh;
}
spawn-IsAccounted is_spawned q (some permit) a s h =
    let live = permits_of a in
    if_ind IsAccounted is_spawned
      (λ _. record {
        settled =
            rw
              (permits-insert_new (λ (ip : IpAddr). ip) a.threads a.next_thread permit
                (h.fresh a.next_thread (omega arith)))
              (moved-IsSettled q live [] permit (rw (append-nil live) s));
        distinct = insert-Distinct a.next_thread permit a.threads h.distinct;
        fresh = λ c later.
            let apart = ==_iff a.next_thread c in
            let before = h.fresh c (omega (arith, later)) in
            ground (arith, lookup-insert a.next_thread c permit a.threads, apart, before, later);
      })
      (λ _. record {
        settled = release-IsSettled q [] live permit s;
        distinct = h.distinct;
        fresh = h.fresh;
      })

on_incoming-IsAccounted :
    (i : Incoming) (a : Acceptor) → IsAccounted a → IsAccounted (on_incoming i a)
unfolding on_incoming
on_incoming-IsAccounted failed a h = h
on_incoming-IsAccounted unnamed a h = h
on_incoming-IsAccounted (from addr is_spawned) a h =
    let source = (canonical_peer addr).0 in
    spawn-IsAccounted is_spawned (try_acquire a.quota source).0 (try_acquire a.quota source).1 a
      (try_acquire-IsSettled a.quota (permits_of a) source h.settled) h

ended-IsAccounted :
    (c : ℕ) (permit : IpAddr) (a : Acceptor)
    → lookup c a.threads ≡ some permit
    → IsAccounted a
    → IsAccounted (ended c permit a)
ended-IsAccounted c permit a found h =
    let around = permits-remove (λ (ip : IpAddr). ip) a.threads c permit h.distinct found in
    record {
      settled =
          rw around.3
            (release-IsSettled a.quota around.0 around.1 permit (rw around.2 at h.settled));
      distinct = remove-Distinct c a.threads h.distinct;
      fresh = λ k later.
          let before = h.fresh k later in ground (arith, lookup-remove c k a.threads, before);
    }

Step-IsAccounted : {a b : Acceptor} → Step a b → IsAccounted a → IsAccounted b
Step-IsAccounted (Step.arrival a i) h = on_incoming-IsAccounted i a h
Step-IsAccounted (Step.exit a c permit found) h = ended-IsAccounted c permit a found h

-- After any order of arrivals, refusals, failed spawns and ends of threads, the quota counts the threads
-- that live and no others, within both of its ceilings.
pub Reach-IsAccounted :
    (max_connections max_per_ip : ℕ) {a : Acceptor}
    → Reach (start max_connections max_per_ip) a
    → IsAccounted a
unfolding permits lookup
Reach-IsAccounted max_connections max_per_ip Reach.here = record {
  settled = Reach-IsSettled max_connections max_per_ip Books.Reach.here;
  distinct = tt;
  fresh = λ c later. refl;
}
Reach-IsAccounted max_connections max_per_ip (Reach.next r st) =
    Step-IsAccounted st (Reach-IsAccounted max_connections max_per_ip r)
