-- ===== src/Datagrams/Age.antt =====
-- How many other datagrams it takes until a response is lost from the cache of loft/src/dtls_common.rs.
use loft.Prelude.{
  ℕ, suc, ◌+◌, ◌≤◌, ◌<◌, ◌≡◌, ◌≢◌, refl, Bool, inl, inr, Option, none, some, List, [], ◌∷◌, length,
  leb, le→leb, if◌then◌else◌, Bool-cases, arith,
}
use loft.Prelude.Eq.{nat_eq}
use loft.Prelude.Assoc.{lookup, insert, remove, retain, AllValues}
use loft.Datagrams.{Sent, Entries, max_entries, is_live, get, oldest, evict, record_sent}
use loft.Datagrams.Dedup.{IsWithin, lookup-record_sent}

-- The entries that were recorded at an instant or later.
unfoldable pub young : ℕ → Entries → ℕ
young at [] = 0
young at ((mid, (bytes, t)) ∷ entries) = (if leb at t then 1 else 0) + young at entries

young-retain-le :
    (at : ℕ) (p : Sent → Bool) (entries : Entries) → young at (retain p entries) ≤ young at entries
unfolding young retain
young-retain-le at p [] = omega arith
young-retain-le at p ((mid, (bytes, t)) ∷ entries) = ground (arith, young-retain-le at p entries)

pub young-get-le :
    (at now mid : ℕ) (entries : Entries) → young at (get now mid entries).1 ≤ young at entries
unfolding get
young-get-le at now mid entries = young-retain-le at (is_live now) entries

young-remove-le :
    (at mid : ℕ) (entries : Entries) → young at (remove mid entries) ≤ young at entries
unfolding young remove
young-remove-le at mid [] = omega arith
young-remove-le at mid ((k, (bytes, t)) ∷ entries) = ground (arith, young-remove-le at mid entries)

young-insert-le :
    (at mid : ℕ) (sent : Sent) (entries : Entries)
    → young at (insert mid sent entries) ≤ suc (young at entries)
unfolding young insert
young-insert-le at mid (bytes, now) [] = ground arith
young-insert-le at mid (bytes, now) ((k, (old, t)) ∷ entries) =
    ground (arith, young-insert-le at mid (bytes, now) entries)

young-evict-le :
    (at : ℕ) (o : Option (ℕ × ℕ)) (entries : Entries)
    → young at (evict o entries) ≤ young at entries
young-evict-le at none entries = omega arith
young-evict-le at (some (mid, t)) entries = young-remove-le at mid entries

pub young-record_sent-le :
    (at now mid : ℕ) (response : List ℕ) (entries : Entries)
    → young at (record_sent now mid response entries) ≤ suc (young at entries)
unfolding record_sent
young-record_sent-le at now mid response entries =
    elim (Bool-cases (leb max_entries (length entries))) [
      | inl full ↦
          let rest = evict (oldest entries) entries in
          rw full (
            omega (
              arith,
              young-insert-le at mid (response, now) rest,
              young-evict-le at (oldest entries) entries,
            ))
      | inr room ↦ rw room (young-insert-le at mid (response, now) entries)
    ]

young-length :
    (at : ℕ) (entries : Entries)
    → AllValues (λ (sent : Sent). at ≤ sent.1) entries
    → young at entries ≡ length entries
unfolding young
young-length at [] h = refl
young-length at ((mid, (bytes, t)) ∷ entries) h =
    rw (le→leb at t h.0) (omega (arith, young-length at entries h.1))

-- As long as fewer than 256 entries are as young as a response, recording another does not lose it.
pub record_sent-keeps :
    (now mid j at : ℕ) (response bytes : List ℕ) (entries : Entries)
    → IsWithin entries
    → lookup j entries ≡ some (bytes, at)
    → j ≢ mid
    → young at entries < max_entries
    → lookup j (record_sent now mid response entries) ≡ some (bytes, at)
record_sent-keeps now mid j at response bytes entries within held differ few =
    elim (lookup-record_sent now mid j at response bytes entries within held differ).1 [
      | inl kept ↦ kept
      | inr (full, eldest) ↦ absurd (omega (arith, young-length at entries eldest, full, few))
    ]
