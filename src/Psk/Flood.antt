-- ===== src/Psk/Flood.antt =====
-- Which calls for an unknown identity reach the source of loft/src/psk.rs, however the threads interleave.
use loft.Prelude.{
  ℕ, ◌-◌, ◌≤◌, ◌<◌, ◌≡◌, ◌≢◌, refl, ◌∙◌, true, Option, none, some, List, [], ◌∷◌, All, lt→ltb,
  arith, if◌then◌else◌, bytes_eq, Bool-cases, inl, inr,
}
use loft.Prelude.Eq.{bytes_key, bytes_eq_iff}
use loft.Prelude.Assoc.{lookup}
use loft.Psk.{PskEntry, Answer, found, absent, unreachable, unknown, Cache, Ttls, cached, settle}
use loft.Psk.Log.{verdict, lookup-settle}

-- The two sections of `resolve` under the lock: a call looks into the cache, and a call whose fetch has come
-- back settles. Each has the identity and the instant at which its call began.
pub data Event : Type 0 where
  look : ℕ → List ℕ → Event
  settles : ℕ → List ℕ → Answer → Event

-- What the looks for an identity found: `none` goes on to the source.
unfoldable pub looks : Ttls → List ℕ → List Event → Cache → List (Option (Option PskEntry))
looks c identity [] cache = []
looks c identity (look now who ∷ events) cache =
    let rest = looks c identity events cache in
    if bytes_eq who identity then cached c now (lookup identity cache) ∷ rest else rest
looks c identity (settles now who answer ∷ events) cache =
    looks c identity events (settle c now who answer cache).1

-- The calls began less than the negative TTL after `start`, and the source does not know the identity: it
-- is absent, or the source cannot be reached.
abbrev pub IsUnknown : Ttls → List ℕ → ℕ → Event → Type 0
IsUnknown c identity start (look now who) =
    (bytes_eq who identity ≡ true → now - start < c.negative_ttl)
IsUnknown c identity start (settles now who answer) =
    (bytes_eq who identity ≡ true → (start ≤ now) × ((e : PskEntry) → answer ≢ found e))

-- An entry that says unknown, of a call that began at `start` or later.
abbrev Refuses : List ℕ → ℕ → Cache → Type 0
Refuses identity start cache = (at : ℕ) × (lookup identity cache ≡ some (unknown at)) × (start ≤ at)

own_settled :
    (c : Ttls) (identity : List ℕ) (start now : ℕ) (answer : Answer) (cache after : Cache)
    → (start ≤ now) × ((e : PskEntry) → answer ≢ found e)
    → Refuses identity start cache
    → lookup identity after ≡ verdict now answer (lookup identity cache)
    → Refuses identity start after
own_settled c identity start now (found e) cache after h r there = absurd (h.1 e refl)
own_settled c identity start now absent cache after h r there = (now, there, h.0)
own_settled c identity start now unreachable cache after h r there = (r.0, there ∙ r.1, r.2)

settle-Refuses :
    (c : Ttls) (identity : List ℕ) (start now : ℕ) (who : List ℕ) (answer : Answer) (cache : Cache)
    → IsUnknown c identity start (settles now who answer)
    → Refuses identity start cache
    → Refuses identity start (settle c now who answer cache).1
settle-Refuses c identity start now who answer cache not_known (at, held, late) =
    let there = lookup-settle c now who answer cache identity in
    elim (Bool-cases (bytes_eq who identity)) [
      | inr other ↦ (at, there ∙ rw (other, held) refl, late)
      | inl same ↦
          own_settled c identity start now answer cache _ (not_known same) (at, held, late)
            (there ∙ rw same refl)
    ]

looks-Refuses :
    (c : Ttls) (identity : List ℕ) (start : ℕ) (events : List Event) (cache : Cache)
    → All (IsUnknown c identity start) events
    → Refuses identity start cache
    → All (λ o. o ≡ some none) (looks c identity events cache)
unfolding looks cached
looks-Refuses c identity start [] cache hs r = tt
looks-Refuses c identity start (look now who ∷ events) cache hs r =
    let rest = looks-Refuses c identity start events cache hs.1 r in
    elim (Bool-cases (bytes_eq who identity)) [
      | inr other ↦ rw other rest
      | inl same ↦
          rw (same, r.1)
            (rw (lt→ltb (now - r.0) c.negative_ttl (omega (arith, hs.0 same, r.2))) refl, rest)
    ]
looks-Refuses c identity start (settles now who answer ∷ events) cache hs r =
    looks-Refuses c identity start events (settle c now who answer cache).1 hs.1
      (settle-Refuses c identity start now who answer cache hs.0 r)

-- Once one call for an identity that the source does not know has settled, whatever looks and settlements
-- of other calls for it and for others follow in any order, every call for it that began less than the
-- negative TTL after `start` is refused at its look. So the source is asked only by the calls that had
-- looked before that, as long as each call for the identity began at `start` or later and none of them
-- was granted a credential.
pub looks-refused :
    (c : Ttls) (identity : List ℕ) (start at : ℕ) (events : List Event) (cache : Cache)
    → start ≤ at
    → All (IsUnknown c identity start) events
    → All (λ o. o ≡ some none) (looks c identity events (settle c at identity absent cache).1)
looks-refused c identity start at events cache late hs =
    looks-Refuses c identity start events (settle c at identity absent cache).1 hs (
      at,
      lookup-settle c at identity absent cache identity
          ∙ rw ((bytes_eq_iff identity identity).1 refl) refl,
      late,
    )
