-- ===== src/Psk/Log.antt =====
-- The cache of loft/src/psk.rs against the log of what the source answered to calls of many threads.
use loft.Prelude.{
  ℕ, ◌≡◌, refl, ◌∙◌, Option, none, some, List, [], ◌∷◌, if◌then◌else◌, arith, bytes_eq,
}
use loft.Prelude.Eq.{bytes_key}
use loft.Prelude.Assoc.{lookup, lookup-insert}
use loft.Psk.{Answer, found, absent, unreachable, Entry, known, unknown, Cache, Ttls, settle}

-- A fetch that has been settled: when its call began, for which identity, and the answer.
pub record Settled : Type 0 where
  pub now : ℕ
  pub identity : List ℕ
  pub answer : Answer

-- The cache after settlements in the order in which they took the lock, the last one first.
unfoldable pub cache_of : Ttls → List Settled → Cache
cache_of c [] = []
cache_of c (s ∷ log) = (settle c s.now s.identity s.answer (cache_of c log)).1

-- What a settlement says of an identity, if it says anything.
abbrev pub verdict : ℕ → Answer → Option Entry → Option Entry
verdict now (found e) before = some (known e now)
verdict now absent before = some (unknown now)
verdict now unreachable before = before

-- The latest authoritative answer for an identity, read off the log.
unfoldable pub latest : List ℕ → List Settled → Option Entry
latest identity [] = none
latest identity (s ∷ log) =
    let before = latest identity log in
    if bytes_eq s.identity identity then verdict s.now s.answer before else before

pub lookup-settle :
    (c : Ttls) (now : ℕ) (who : List ℕ) (a : Answer) (cache : Cache) (identity : List ℕ)
    → lookup identity ((settle c now who a cache).1) ≡ (
        if bytes_eq who identity
        then verdict now a (lookup identity cache)
        else lookup identity cache)
unfolding settle
lookup-settle c now who (found e) cache identity = lookup-insert who identity (known e now) cache
lookup-settle c now who absent cache identity = lookup-insert who identity (unknown now) cache
lookup-settle c now who unreachable cache identity = ground arith

-- Whatever calls of however many threads have settled, the cache holds for each identity the latest
-- authoritative answer and nothing else: errors leave it alone, and no identity disturbs another.
pub lookup-cache_of :
    (c : Ttls) (log : List Settled) (identity : List ℕ)
    → lookup identity (cache_of c log) ≡ latest identity log
unfolding cache_of latest lookup
lookup-cache_of c [] identity = refl
lookup-cache_of c (s ∷ log) identity =
    lookup-settle c s.now s.identity s.answer (cache_of c log) identity
    ∙ rw (lookup-cache_of c log identity) refl
