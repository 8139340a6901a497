-- ===== src/Prelude/Assoc.antt =====
-- A hash map as an association list: each key at most once, in no order that a caller may rely on.
use Prim.Native.Nat.{suc, ◌≤◌}
use mathlib.Core.Path.{◌≡◌, refl, ◌∙◌}
use mathlib.Core.Bool.{Bool, true, false}
use mathlib.Core.List.{List, [], ◌∷◌}
use mathlib.Core.Option.{Option, none, some}
use native.Mathlib.Omega.{arith}
use loft.Prelude.Tests.{if◌then◌else◌, Bool-cases}
use mathlib.Core.Logic.{inl, inr}
use loft.Prelude.Lists.{length}
use loft.Prelude.Eq.{Eq}

module _ {ℓ κ} {K : Type ℓ} {V : Type κ} ⦃e : Eq K⦄ where
  unfoldable pub lookup : K → List (K × V) → Option V
  lookup k [] = none
  lookup k ((j, v) ∷ m) = if e.beq j k then some v else lookup k m

  unfoldable pub contains_key : K → List (K × V) → Bool
  contains_key k [] = false
  contains_key k ((j, v) ∷ m) = if e.beq j k then true else contains_key k m

  unfoldable pub insert : K → V → List (K × V) → List (K × V)
  insert k v [] = (k, v) ∷ []
  insert k v ((j, w) ∷ m) =
      let rest = insert k v m in if e.beq j k then (k, v) ∷ m else (j, w) ∷ rest

  -- Drops every entry with the key, so that no lookup finds one.
  unfoldable pub remove : K → List (K × V) → List (K × V)
  remove k [] = []
  remove k ((j, v) ∷ m) = let rest = remove k m in if e.beq j k then rest else (j, v) ∷ rest

  pub lookup-insert :
      (k j : K) (v : V) (m : List (K × V))
      → lookup j (insert k v m) ≡ (if e.beq k j then some v else lookup j m)
  unfolding lookup insert
  lookup-insert k j v [] = refl
  lookup-insert k j v ((i, w) ∷ m) =
      ground (arith, e.beq_iff k j, e.beq_iff i k, e.beq_iff i j, lookup-insert k j v m)

  pub lookup-remove :
      (k j : K) (m : List (K × V))
      → lookup j (remove k m) ≡ (if e.beq k j then none else lookup j m)
  unfolding lookup remove
  lookup-remove k j [] = ground arith
  lookup-remove k j ((i, w) ∷ m) =
      ground (arith, e.beq_iff k j, e.beq_iff i k, e.beq_iff i j, lookup-remove k j m)

  pub contains_key-lookup :
      (k : K) (m : List (K × V))
      → contains_key k m ≡ (elim (lookup k m) [ none ↦ false | some v ↦ true ])
  unfolding contains_key lookup
  contains_key-lookup k [] = refl
  contains_key-lookup k ((j, v) ∷ m) = ground (arith, contains_key-lookup k m)

  pub length-insert :
      (k : K) (v : V) (m : List (K × V))
      → length (insert k v m) ≡ (if contains_key k m then length m else suc (length m))
  unfolding insert contains_key
  length-insert k v [] = refl
  length-insert k v ((j, w) ∷ m) = ground (arith, length-insert k v m)

  pub length-remove-le : (k : K) (m : List (K × V)) → length (remove k m) ≤ length m
  unfolding remove
  length-remove-le k [] = omega arith
  length-remove-le k ((j, w) ∷ m) = ground (arith, length-remove-le k m)

module _ {ℓ κ} {K : Type ℓ} {V : Type κ} where
  -- `HashMap::retain`.
  unfoldable pub retain : (V → Bool) → List (K × V) → List (K × V)
  retain p [] = []
  retain p ((k, v) ∷ m) = let rest = retain p m in if p v then (k, v) ∷ rest else rest

  pub length-retain-le : (p : V → Bool) (m : List (K × V)) → length (retain p m) ≤ length m
  unfolding retain
  length-retain-le p [] = omega arith
  length-retain-le p ((k, v) ∷ m) = ground (arith, length-retain-le p m)

-- A property of every value in a map.
module _ {ℓ κ} {K : Type ℓ} {V : Type κ} where
  abbrev pub AllValues {μ} : (V → Type μ) → List (K × V) → Type μ
  AllValues P [] = Unit {μ}
  AllValues P ((k, v) ∷ m) = P v × AllValues P m

abbrev pub filter_option {ℓ} : {A : Type ℓ} → (A → Bool) → Option A → Option A
filter_option p none = none
filter_option p (some v) = if p v then some v else none

-- Every key stands once.
module _ {ℓ κ} {K : Type ℓ} {V : Type κ} ⦃e : Eq K⦄ where
  abbrev pub Distinct : List (K × V) → Type κ
  Distinct [] = Unit {κ}
  Distinct ((k, v) ∷ m) = (lookup k m ≡ none) × Distinct m

  pub insert-Distinct : (k : K) (v : V) (m : List (K × V)) → Distinct m → Distinct (insert k v m)
  unfolding insert lookup
  insert-Distinct k v [] h = (refl, tt)
  insert-Distinct k v ((j, w) ∷ m) h = elim (Bool-cases (e.beq j k)) [
    | inl same ↦ rw same (rw (← (e.beq_iff j k).0 same) h.0, h.1)
    | inr other ↦ rw other (
      lookup-insert k j v m ∙ ground (arith, e.beq_iff k j, e.beq_iff j k, h.0),
      insert-Distinct k v m h.1,
    )
  ]

  pub remove-Distinct : (k : K) (m : List (K × V)) → Distinct m → Distinct (remove k m)
  unfolding remove
  remove-Distinct k [] h = tt
  remove-Distinct k ((j, w) ∷ m) h = elim (Bool-cases (e.beq j k)) [
    | inl same ↦ rw same (remove-Distinct k m h.1)
    | inr other ↦ rw other (lookup-remove k j m ∙ ground (arith, h.0), remove-Distinct k m h.1)
  ]

  lookup-retain-none :
      (p : V → Bool) (k : K) (m : List (K × V)) → lookup k m ≡ none → lookup k (retain p m) ≡ none
  unfolding retain lookup
  lookup-retain-none p k [] h = refl
  lookup-retain-none p k ((j, w) ∷ m) h = ground (arith, lookup-retain-none p k m)

  pub retain-Distinct : (p : V → Bool) (m : List (K × V)) → Distinct m → Distinct (retain p m)
  unfolding retain
  retain-Distinct p [] h = tt
  retain-Distinct p ((j, w) ∷ m) h = elim (Bool-cases (p w)) [
    | inl kept ↦ rw kept (lookup-retain-none p j m h.0, retain-Distinct p m h.1)
    | inr dropped ↦ rw dropped (retain-Distinct p m h.1)
  ]

  -- What is found after a `retain` is what was found before, if it passes the test.
  pub lookup-retain :
      (p : V → Bool) (k : K) (m : List (K × V))
      → Distinct m
      → lookup k (retain p m) ≡ filter_option p (lookup k m)
  unfolding retain lookup
  lookup-retain p k [] h = refl
  lookup-retain p k ((j, w) ∷ m) h =
      ground (arith, lookup-retain p k m h.1, lookup-retain-none p k m, e.beq_iff j k, h.0)

  -- A map in which nothing is found is empty.
  pub empty_of_lookup : (m : List (K × V)) → ((k : K) → lookup k m ≡ none) → m ≡ []
  unfolding lookup
  empty_of_lookup [] h = refl
  empty_of_lookup ((j, w) ∷ m) h = ground (arith, h j, e.beq_iff j j)

  -- Properties of all values after each operation.
  module _ {μ} (P : V → Type μ) where
    pub insert-AllValues :
        (k : K) (v : V) (m : List (K × V)) → P v → AllValues P m → AllValues P (insert k v m)
    unfolding insert
    insert-AllValues k v [] h hs = (h, tt)
    insert-AllValues k v ((j, w) ∷ m) h hs = elim (Bool-cases (e.beq j k)) [
      | inl same ↦ rw same (h, hs.1)
      | inr other ↦ rw other (hs.0, insert-AllValues k v m h hs.1)
    ]

    pub remove-AllValues : (k : K) (m : List (K × V)) → AllValues P m → AllValues P (remove k m)
    unfolding remove
    remove-AllValues k [] hs = tt
    remove-AllValues k ((j, w) ∷ m) hs = elim (Bool-cases (e.beq j k)) [
      | inl same ↦ rw same (remove-AllValues k m hs.1)
      | inr other ↦ rw other (hs.0, remove-AllValues k m hs.1)
    ]

    pub lookup-AllValues :
        (k : K) (m : List (K × V)) (v : V) → AllValues P m → lookup k m ≡ some v → P v
    unfolding lookup
    lookup-AllValues k [] v hs found = absurd (ground arith)
    lookup-AllValues k ((j, w) ∷ m) v hs found = elim (Bool-cases (e.beq j k)) [
      | inl same ↦ let it : w ≡ v = ground arith in rw it at (hs.0)
      | inr other ↦ lookup-AllValues k m v hs.1 (ground arith)
    ]

module _ {ℓ κ μ} {K : Type ℓ} {V : Type κ} (P : V → Type μ) where
  pub retain-AllValues :
      (p : V → Bool) (m : List (K × V)) → AllValues P m → AllValues P (retain p m)
  unfolding retain
  retain-AllValues p [] hs = tt
  retain-AllValues p ((j, w) ∷ m) hs = elim (Bool-cases (p w)) [
    | inl kept ↦ rw kept (hs.0, retain-AllValues p m hs.1)
    | inr dropped ↦ rw dropped (retain-AllValues p m hs.1)
  ]
