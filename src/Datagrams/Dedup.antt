-- ===== src/Datagrams/Dedup.antt =====
-- The duplicate cache of loft/src/dtls_common.rs: its size, evictions and lookups.
use loft.Prelude.{
  ℕ, suc, ◌-◌, ◌≤◌, ◌<◌, ◌≡◌, ◌≢◌, ◌⊎◌, refl, ◌∙◌, Option, none, some, List, [], ◌∷◌, length, ltb,
  leb, ◌==◌, ==_iff, leb→le, if◌then◌else◌, arith, Bool-cases, inl, inr,
}
use loft.Prelude.Eq.{nat_eq}
use loft.Prelude.Assoc.{
  lookup, insert, remove, Distinct, lookup-insert, lookup-remove, lookup-retain, length-insert,
  length-remove-le, length-retain-le, insert-Distinct, remove-Distinct, retain-Distinct, AllValues,
}
use loft.Datagrams.{
  Sent, Entries, ttl, max_entries, is_live, get, earlier, oldest, evict, record_sent,
}

-- Each message id stands once, and the size limit holds.
abbrev pub IsWithin : Entries → Type 0
IsWithin entries = Distinct entries × (length entries ≤ max_entries)

pub get-IsWithin :
    (now mid : ℕ) (entries : Entries) → IsWithin entries → IsWithin ((get now mid entries).1)
unfolding get
get-IsWithin now mid entries h = (
  retain-Distinct (is_live now) entries h.0,
  omega (arith, length-retain-le (is_live now) entries, h.1),
)

-- The oldest entry is in the cache, and none is older.
abbrev IsOldest : Entries → Option (ℕ × ℕ) → Type 0
IsOldest entries none = entries ≡ []
IsOldest entries (some (mid, at)) =
    ((bytes : List ℕ) × (lookup mid entries ≡ some (bytes, at)))
    × AllValues (λ (sent : Sent). at ≤ sent.1) entries

AllValues-le :
    (s t : ℕ) (entries : Entries)
    → s ≤ t
    → AllValues (λ (sent : Sent). t ≤ sent.1) entries
    → AllValues (λ (sent : Sent). s ≤ sent.1) entries
AllValues-le s t [] h hs = tt
AllValues-le s t ((mid, (bytes, at)) ∷ entries) h hs =
    (omega (arith, hs.0), AllValues-le s t entries h hs.1)

IsOldest-cons :
    (mid : ℕ) (bytes : List ℕ) (at : ℕ) (entries : Entries) (o : Option (ℕ × ℕ))
    → Distinct ((mid, (bytes, at)) ∷ entries)
    → IsOldest entries o
    → IsOldest ((mid, (bytes, at)) ∷ entries) (earlier (mid, at) o)
unfolding lookup
IsOldest-cons mid bytes at entries none distinct h =
    rw h ((bytes, ground (arith, ==_iff mid mid)), (omega arith, tt))
IsOldest-cons mid bytes at entries (some (k, t)) distinct h = elim (Bool-cases (leb at t)) [
  | inl first ↦ rw first (
    (bytes, ground (arith, ==_iff mid mid)),
    (omega arith, AllValues-le at t entries (leb→le at t first) h.1),
  )
  | inr later ↦
      rw later ((h.0.0, ground (arith, ==_iff mid k, distinct.0, h.0.1)), (ground arith, h.1))
]

oldest-IsOldest : (entries : Entries) → Distinct entries → IsOldest entries (oldest entries)
unfolding oldest
oldest-IsOldest [] h = refl
oldest-IsOldest ((mid, (bytes, at)) ∷ entries) h =
    IsOldest-cons mid bytes at entries (oldest entries) h (oldest-IsOldest entries h.1)

length-remove-lt :
    (k : ℕ) (sent : Sent) (entries : Entries)
    → lookup k entries ≡ some sent
    → length (remove k entries) < length entries
unfolding lookup remove
length-remove-lt k sent [] h = absurd (ground arith)
length-remove-lt k sent ((j, v) ∷ entries) h = elim (Bool-cases (j == k)) [
  | inl same ↦ rw same (omega (arith, length-remove-le k entries))
  | inr other ↦ rw other (omega (arith, length-remove-lt k sent entries (rw other at h)))
]

-- Evicting from a full cache makes room.
evict_room :
    (entries : Entries) (o : Option (ℕ × ℕ))
    → IsOldest entries o
    → length entries ≤ max_entries
    → length (evict o entries) < max_entries
evict_room entries none h bound = rw h (omega arith)
evict_room entries (some (k, t)) h bound =
    omega (arith, length-remove-lt k (h.0.0, t) entries h.0.1, bound)

evict-Distinct :
    (entries : Entries) (o : Option (ℕ × ℕ)) → Distinct entries → Distinct (evict o entries)
evict-Distinct entries none h = h
evict-Distinct entries (some (k, t)) h = remove-Distinct k entries h

length-insert-le :
    (mid : ℕ) (sent : Sent) (entries : Entries)
    → length (insert mid sent entries) ≤ suc (length entries)
length-insert-le mid sent entries = ground (arith, length-insert mid sent entries)

-- Recording a response keeps the cache within its 256 entries, each message id once.
pub record_sent-IsWithin :
    (now mid : ℕ) (response : List ℕ) (entries : Entries)
    → IsWithin entries
    → IsWithin (record_sent now mid response entries)
unfolding record_sent
record_sent-IsWithin now mid response entries h =
    elim (Bool-cases (leb max_entries (length entries))) [
      | inl full ↦
          let rest = evict (oldest entries) entries in
          rw full (
            insert-Distinct mid (response, now) rest (evict-Distinct entries (oldest entries) h.0),
            omega (
              arith,
              length-insert-le mid (response, now) rest,
              evict_room entries (oldest entries) (oldest-IsOldest entries h.0) h.1,
            ),
          )
      | inr room ↦ rw room (
        insert-Distinct mid (response, now) entries h.0,
        ground (arith, length-insert-le mid (response, now) entries),
      )
    ]

-- What is left of a recorded response after an eviction.
evict-keeps :
    (j at : ℕ) (bytes : List ℕ) (entries : Entries) (o : Option (ℕ × ℕ))
    → IsOldest entries o
    → lookup j entries ≡ some (bytes, at)
    → (lookup j (evict o entries) ≡ some (bytes, at))
      ⊎ AllValues (λ (sent : Sent). at ≤ sent.1) entries
evict-keeps j at bytes entries none h held = inl held
evict-keeps j at bytes entries (some (k, t)) h held = elim (Bool-cases (k == j)) [
  | inl same ↦ inr (
      let this : k ≡ j = (==_iff k j).0 same in
      let time : t ≡ at = ground (arith, h.0.1) in rw time at h.1)
  | inr other ↦ inl (rw (lookup-remove k j entries, other) held)
]

pub lookup-record_sent_self :
    (now mid : ℕ) (response : List ℕ) (entries : Entries)
    → lookup mid (record_sent now mid response entries) ≡ some (response, now)
unfolding record_sent
lookup-record_sent_self now mid response entries =
    let rest =
      if leb max_entries (length entries) then evict (oldest entries) entries else entries in
    lookup-insert mid mid (response, now) rest ∙ ground (arith, ==_iff mid mid)

rest_keeps :
    (now mid j at : ℕ) (response bytes : List ℕ) (entries : Entries)
    → IsWithin entries
    → lookup j entries ≡ some (bytes, at)
    → j ≢ mid
    → (lookup j (record_sent now mid response entries) ≡ some (bytes, at))
      ⊎ ((length entries ≡ max_entries) × AllValues (λ (sent : Sent). at ≤ sent.1) entries)
unfolding record_sent
rest_keeps now mid j at response bytes entries h held differ =
    elim (Bool-cases (leb max_entries (length entries))) [
      | inl full ↦
          elim (evict-keeps j at bytes entries (oldest entries) (oldest-IsOldest entries h.0)
            held) [
              | inl kept ↦ inl (
                  rw full (
                    lookup-insert mid j (response, now) (evict (oldest entries) entries)
                    ∙ ground (arith, ==_iff mid j)))
              | inr eldest ↦ inr (ground (arith, h.1), eldest)
            ]
      | inr room ↦
          inl (rw room (lookup-insert mid j (response, now) entries ∙ ground (arith, ==_iff mid j)))
    ]

-- Recording a response replaces the one that its message id had. Another is lost only if the cache was
-- full and none was older.
pub lookup-record_sent :
    (now mid j at : ℕ) (response bytes : List ℕ) (entries : Entries)
    → IsWithin entries
    → lookup j entries ≡ some (bytes, at)
    → j ≢ mid
    → (lookup mid (record_sent now mid response entries) ≡ some (response, now))
      × ((lookup j (record_sent now mid response entries) ≡ some (bytes, at))
          ⊎ ((length entries ≡ max_entries) × AllValues (λ (sent : Sent). at ≤ sent.1) entries))
unfolding record_sent
lookup-record_sent now mid j at response bytes entries h held differ = (
  lookup-record_sent_self now mid response entries,
  rest_keeps now mid j at response bytes entries h held differ,
)

-- A response is found again for 150 seconds from the instant it was recorded, and no longer.
pub get-record_sent :
    (now at mid : ℕ) (response : List ℕ) (entries : Entries)
    → IsWithin entries
    → (get now mid (record_sent at mid response entries)).0
      ≡ (if ltb (now - at) ttl then some response else none)
unfolding get
get-record_sent now at mid response entries h =
    let after = record_sent at mid response entries in
    let there : lookup mid after ≡ some (response, at) =
      lookup-record_sent_self at mid response entries in
    let found =
      lookup-retain (is_live now) mid after (record_sent-IsWithin at mid response entries h).0 in
    rw (found, there) (ground arith)
