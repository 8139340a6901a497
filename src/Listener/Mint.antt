-- ===== src/Listener/Mint.antt =====
-- loft/src/dtls_mbed.rs: the loop of `mint_cid` ends.
use loft.Prelude.{
  ℕ, ◌<◌, ◌≡◌, ◌≢◌, inl, inr, refl, sym, ◌∙◌, true, Option, some, none, List, [], ◌∷◌, map, length,
  All, bytes_eq, Bool-cases, arith,
}
use loft.Prelude.Eq.{bytes_key, bytes_eq_iff}
use loft.Prelude.Assoc.{
  lookup, contains_key, remove, contains_key-lookup, lookup-remove, length-remove-le,
}
use loft.Demux.{Maps}
use loft.Listener.Pending.{mint_cid}
use loft.Listener.Outcomes.{mint_cid-fresh}

abbrev pub Differ : List (List ℕ) → Type 0
Differ [] = Unit
Differ (c ∷ cs) = All (λ d. c ≢ d) cs × Differ cs

abbrev pub drawn : List (List ℕ) → List (Option (List ℕ))
drawn cs = map (λ c. some c) cs

length-remove_lt :
    (k : List ℕ) (m : List (List ℕ × ℕ)) → contains_key k m ≡ true → length (remove k m) < length m
unfolding contains_key remove
length-remove_lt k [] h = absurd (ground arith)
length-remove_lt k ((j, v) ∷ m) h = elim (Bool-cases (bytes_eq j k)) [
  | inl same ↦ rw same (omega (arith, length-remove-le k m))
  | inr other ↦ rw other (omega (arith, length-remove_lt k m (rw other at h)))
]

contains_key-remove :
    (k j : List ℕ) (m : List (List ℕ × ℕ)) → k ≢ j → contains_key j (remove k m) ≡ contains_key j m
contains_key-remove k j m differ = ground (
  arith,
  contains_key-lookup j m,
  contains_key-lookup j (remove k m),
  lookup-remove k j m,
  bytes_eq_iff k j,
)

without : Maps → List ℕ → Maps
without m k = record m { by_cid = remove k m.by_cid }

mint_cid-without :
    (m : Maps) (k : List ℕ) (cs : List (List ℕ))
    → All (λ d. k ≢ d) cs
    → mint_cid (without m k) (drawn cs) ≡ mint_cid m (drawn cs)
unfolding mint_cid without
mint_cid-without m k [] h = refl
mint_cid-without m k (c ∷ cs) h =
    rw (contains_key-remove k c m.by_cid h.0, mint_cid-without m k cs h.1) refl

-- As soon as more different ids have been drawn than there are in the map, one of them is minted.
pub mint_cid-ends :
    (m : Maps) (cs : List (List ℕ))
    → Differ cs
    → length m.by_cid < length cs
    → (cid : List ℕ) × (mint_cid m (drawn cs) ≡ some cid) × (lookup cid m.by_cid ≡ none)
unfolding mint_cid without
mint_cid-ends m [] d h = absurd (omega arith)
mint_cid-ends m (c ∷ cs) d h = elim (Bool-cases (contains_key c m.by_cid)) [
  | inr new ↦ rw new (c, refl, ground (arith, contains_key-lookup c m.by_cid, new))
  | inl old ↦
      let fewer = length-remove_lt c m.by_cid old in
      let rest = mint_cid-ends (without m c) cs d.1 (omega (arith, fewer)) in
      let same = sym (mint_cid-without m c cs d.0) ∙ rest.1 in
      rw old (rest.0, same, mint_cid-fresh m (drawn cs) rest.0 same)
]
