-- ===== src/Psk/Resolve.antt =====
-- Where the credentials that `PskResolver::resolve` of loft/src/psk.rs gives come from.
use loft.Prelude.{
  ℕ, ◌-◌, ◌<◌, ◌≡◌, ◌⊎◌, refl, sym, ap, ◌∙◌, Option, none, some, List, [], ◌∷◌, ltb, ltb→lt,
  if◌then◌else◌, arith, Bool-cases, inl, inr, bytes_eq,
}
use loft.Prelude.Eq.{bytes_key, bytes_eq_iff}
use loft.Prelude.Assoc.{lookup}
use loft.Psk.{
  PskEntry, Answer, found, absent, unreachable, Entry, known, unknown, Cache, Ttls, cached, stale,
  settle, resolve_from, resolve,
}
use loft.Psk.Log.{Settled, cache_of, latest, verdict, lookup-cache_of}

-- A log holds the answer `found e` for the identity, of a call begun at `at`.
pub data Granted (identity : List ℕ) (e : PskEntry) (at : ℕ) : List Settled → Type 0 where
  here :
      (log : List Settled)
      → Granted identity e at (record { now = at; identity = identity; answer = found e } ∷ log)
  there :
      (s : Settled) (log : List Settled)
      → Granted identity e at log
      → Granted identity e at (s ∷ log)

Granted-verdict :
    (identity : List ℕ) (e : PskEntry) (at : ℕ) (now : ℕ) (who : List ℕ) (a : Answer)
    (log : List Settled)
    → (latest identity log ≡ some (known e at) → Granted identity e at log)
    → who ≡ identity
    → verdict now a (latest identity log) ≡ some (known e at)
    → Granted identity e at (record { now = now; identity = who; answer = a } ∷ log)
Granted-verdict identity e at now who (found f) log earlier same h =
    let entry : f ≡ e = ground arith in
    let time : now ≡ at = ground arith in rw (same, entry, time) (here log)
Granted-verdict identity e at now who absent log earlier same h = absurd (ground arith)
Granted-verdict identity e at now who unreachable log earlier same h = there _ log (earlier h)

latest-Granted :
    (identity : List ℕ) (e : PskEntry) (at : ℕ) (log : List Settled)
    → latest identity log ≡ some (known e at)
    → Granted identity e at log
unfolding latest
latest-Granted identity e at [] h = absurd (ground arith)
latest-Granted identity e at (s ∷ log) h = elim (Bool-cases (bytes_eq s.identity identity)) [
  | inl same ↦
      Granted-verdict identity e at s.now s.identity s.answer log (latest-Granted identity e at log)
        ((bytes_eq_iff s.identity identity).0 same) (rw same at h)
  | inr other ↦ there s log (latest-Granted identity e at log (rw other at h))
]

stale-Usable :
    (c : Ttls) (now : ℕ) (held : Option Entry) (e : PskEntry)
    → stale c now held ≡ some e
    → (at : ℕ) × (held ≡ some (known e at)) × (now - at < c.stale_grace)
unfolding stale
stale-Usable c now none e h = absurd (ground arith)
stale-Usable c now (some (unknown at)) e h = absurd (ground arith)
stale-Usable c now (some (known f at)) e h = elim (Bool-cases (ltb (now - at) c.stale_grace)) [
  | inl fresh ↦
      let given : some f ≡ some e = rw fresh at h in
      (at, ground arith, ltb→lt (now - at) c.stale_grace fresh)
  | inr old ↦ absurd (ground arith)
]

-- Where a credential may come from: the answer of this call, an entry that was fresh at the look, or one
-- that is in its grace when the source could not be reached.
abbrev pub Usable : Ttls → ℕ → Answer → Option Entry → Option Entry → PskEntry → Type 0
Usable c now answer held later e =
    (answer ≡ found e)
    ⊎ (((at : ℕ) × (held ≡ some (known e at)) × (now - at < c.positive_ttl))
        ⊎ ((answer ≡ unreachable)
            × ((at : ℕ) × (later ≡ some (known e at)) × (now - at < c.stale_grace))))

settle-Usable :
    (c : Ttls) (now : ℕ) (identity : List ℕ) (answer : Answer) (cache : Cache) (held : Option Entry)
    (e : PskEntry)
    → (settle c now identity answer cache).0 ≡ some e
    → Usable c now answer held (lookup identity cache) e
unfolding settle
settle-Usable c now identity (found f) cache held e h = inl (ground arith)
settle-Usable c now identity absent cache held e h = absurd (ground arith)
settle-Usable c now identity unreachable cache held e h =
    inr (inr (refl, stale-Usable c now (lookup identity cache) e h))

resolve_from-Usable :
    (c : Ttls) (now : ℕ) (identity : List ℕ) (answer : Answer) (looked later : Cache)
    (held : Option Entry) (e : PskEntry)
    → (resolve_from c now identity answer looked later (cached c now held)).result ≡ some e
    → Usable c now answer held (lookup identity later) e
unfolding cached
resolve_from-Usable c now identity answer looked later none e h =
    settle-Usable c now identity answer later none e h
resolve_from-Usable c now identity answer looked later (some (unknown at)) e h =
    elim (Bool-cases (ltb (now - at) c.negative_ttl)) [
      | inl fresh ↦ absurd (ground arith)
      | inr old ↦ settle-Usable c now identity answer later (some (unknown at)) e (rw old at h)
    ]
resolve_from-Usable c now identity answer looked later (some (known f at)) e h =
    elim (Bool-cases (ltb (now - at) c.positive_ttl)) [
      | inl fresh ↦
          let given : some f ≡ some e = rw fresh at h in
          inr (inl (at, ground arith, ltb→lt (now - at) c.positive_ttl fresh))
      | inr old ↦ settle-Usable c now identity answer later (some (known f at)) e (rw old at h)
    ]

-- The latest authoritative answer of a log for an identity granted this entry, in a call begun less than
-- `limit` ago.
abbrev pub GrantedWithin : ℕ → ℕ → List ℕ → PskEntry → List Settled → Type 0
GrantedWithin limit now identity e log =
    (at : ℕ) × (latest identity log ≡ some (known e at))
    × Granted identity e at log
    × (now - at < limit)

-- A credential is given out only if the source granted it for that very identity: in this call, or in
-- an earlier one that a log holds, which was the latest authoritative answer for the identity. The log is
-- that of the look and the answer began less than the positive TTL ago, or it is that of the settlement,
-- whatever others have settled in between, the source is unreachable now, and the answer began less than
-- the grace period ago.
pub resolve-Granted :
    (c : Ttls) (source : List ℕ → Answer) (now : ℕ) (identity : List ℕ) (log later : List Settled)
    (e : PskEntry)
    → (resolve c source now identity (cache_of c log) (cache_of c later)).result ≡ some e
    → (source identity ≡ found e)
      ⊎ (GrantedWithin c.positive_ttl now identity e log
          ⊎ ((source identity ≡ unreachable) × GrantedWithin c.stale_grace now identity e later))
unfolding resolve
resolve-Granted c source now identity log later e h =
    elim (resolve_from-Usable c now identity (source identity) (cache_of c log) (cache_of c later)
      (lookup identity (cache_of c log)) e h) [
        | inl here_and_now ↦ inl here_and_now
        | inr (inl (at, held, timely)) ↦
            let then_ = sym (lookup-cache_of c log identity) ∙ held in
            inr (inl (at, then_, latest-Granted identity e at log then_, timely))
        | inr (inr (down, (at, held, timely))) ↦
            let then_ = sym (lookup-cache_of c later identity) ∙ held in
            inr (inr (down, (at, then_, latest-Granted identity e at later then_, timely)))
      ]

-- A log without the settlements of other identities.
unfoldable pub own : List ℕ → List Settled → List Settled
own identity [] = []
own identity (s ∷ log) =
    let rest = own identity log in if bytes_eq s.identity identity then s ∷ rest else rest

latest-own :
    (identity : List ℕ) (log : List Settled)
    → latest identity (own identity log) ≡ latest identity log
unfolding own latest
latest-own identity [] = refl
latest-own identity (s ∷ log) = ground (arith, latest-own identity log)

resolve_from-same :
    (c : Ttls) (now : ℕ) (identity : List ℕ) (answer : Answer) (k1 k2 l1 l2 : Cache)
    (held : Option (Option PskEntry))
    → lookup identity l1 ≡ lookup identity l2
    → ((resolve_from c now identity answer k1 l1 held).result
        ≡ (resolve_from c now identity answer k2 l2 held).result)
      × ((resolve_from c now identity answer k1 l1 held).fetched
          ≡ (resolve_from c now identity answer k2 l2 held).fetched)
unfolding settle
resolve_from-same c now identity answer k1 k2 l1 l2 (some r) e = (refl, refl)
resolve_from-same c now identity (found f) k1 k2 l1 l2 none e = (refl, refl)
resolve_from-same c now identity absent k1 k2 l1 l2 none e = (refl, refl)
resolve_from-same c now identity unreachable k1 k2 l1 l2 none e = (ap (stale c now) e, refl)

lookup-own :
    (c : Ttls) (identity : List ℕ) (log : List Settled)
    → lookup identity (cache_of c log) ≡ lookup identity (cache_of c (own identity log))
lookup-own c identity log =
    lookup-cache_of c log identity
    ∙ sym (latest-own identity log)
    ∙ sym (lookup-cache_of c (own identity log) identity)

-- Identities do not disturb one another: what a call gives, and whether it asks the source, is the same
-- as if only the settlements of its own identity had ever happened, before it looked and while it waited.
pub resolve-own :
    (c : Ttls) (source : List ℕ → Answer) (now : ℕ) (identity : List ℕ) (log later : List Settled)
    → ((resolve c source now identity (cache_of c log) (cache_of c later)).result
        ≡ (resolve c source now identity
            (cache_of c (own identity log))
            (cache_of c (own identity later))).result)
      × ((resolve c source now identity (cache_of c log) (cache_of c later)).fetched
          ≡ (resolve c source now identity
              (cache_of c (own identity log))
              (cache_of c (own identity later))).fetched)
unfolding resolve
resolve-own c source now identity log later = rw (← lookup-own c identity log) (
    resolve_from-same c now identity (source identity) (cache_of c log)
      (cache_of c (own identity log)) (cache_of c later) (cache_of c (own identity later))
      (cached c now (lookup identity (cache_of c log))) (lookup-own c identity later))
