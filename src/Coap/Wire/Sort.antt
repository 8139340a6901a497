-- ===== src/Coap/Wire/Sort.antt =====
-- The stable sort of the encoder (`encode_options_and_payload` in loft/src/coap/message.rs).
use loft.Prelude.{
  ℕ, ◌+◌, ◌≤◌, ◌≡◌, refl, ◌∙◌, List, [], ◌∷◌, length, All, leb, arith, Bool-cases, inl, inr,
}
use loft.Coap.Message.{OptionEntry, values_of}
use loft.Coap.Wire.Defs.{insert, sort}

-- The numbers do not fall, and none is below `prev`.
abbrev pub Ordered : ℕ → List OptionEntry → Type 0
Ordered prev [] = Unit {0}
Ordered prev (o ∷ os) = (prev ≤ o.0) × Ordered o.0 os

insert-Ordered :
    (prev : ℕ) (o : OptionEntry) (os : List OptionEntry)
    → prev ≤ o.0
    → Ordered prev os
    → Ordered prev (insert o os)
unfolding insert
insert-Ordered prev o [] h k = (h, tt)
insert-Ordered prev o (p ∷ os) h k = ground (arith, insert-Ordered p.0 o os)

pub sort-Ordered : (os : List OptionEntry) → Ordered 0 (sort os)
unfolding sort
sort-Ordered [] = tt
sort-Ordered (o ∷ os) = insert-Ordered 0 o (sort os) (omega arith) (sort-Ordered os)

values_of-insert :
    (k : ℕ) (o : OptionEntry) (os : List OptionEntry)
    → values_of k (insert o os) ≡ values_of k (o ∷ os)
unfolding insert values_of
values_of-insert k o [] = refl
values_of-insert k o (p ∷ os) = ground (arith, values_of-insert k o os)

-- The stable sort by option number keeps the values of each number, in their order.
pub values_of-sort : (k : ℕ) (os : List OptionEntry) → values_of k (sort os) ≡ values_of k os
unfolding sort values_of
values_of-sort k [] = refl
values_of-sort k (o ∷ os) = values_of-insert k o (sort os) ∙ ground (arith, values_of-sort k os)

insert-All {κ} :
    (P : OptionEntry → Type κ) (o : OptionEntry) (os : List OptionEntry)
    → P o
    → All P os
    → All P (insert o os)
unfolding insert
insert-All P o [] h k = (h, tt)
insert-All P o (p ∷ os) h k = elim (Bool-cases (leb o.0 p.0)) [
  | inl e ↦ rw e (h, k)
  | inr e ↦ rw e (k.0, insert-All P o os h k.1)
]

pub sort-All {κ} : (P : OptionEntry → Type κ) (os : List OptionEntry) → All P os → All P (sort os)
unfolding sort
sort-All P [] h = tt
sort-All P (o ∷ os) h = insert-All P o (sort os) h.0 (sort-All P os h.1)

length-insert : (o : OptionEntry) (os : List OptionEntry) → length (insert o os) ≡ length os + 1
unfolding insert
length-insert o [] = omega arith
length-insert o (p ∷ os) = ground (arith, length-insert o os)

pub length-sort : (os : List OptionEntry) → length (sort os) ≡ length os
unfolding sort
length-sort [] = refl
length-sort (o ∷ os) = omega (arith, length-insert o (sort os), length-sort os)

-- An ordered list is left as it is.
pub sort-of-Ordered : (prev : ℕ) (os : List OptionEntry) → Ordered prev os → sort os ≡ os
unfolding sort insert
sort-of-Ordered prev [] h = refl
sort-of-Ordered prev (o ∷ []) h = refl
sort-of-Ordered prev (o ∷ p ∷ os) h = ground (arith, sort-of-Ordered o.0 (p ∷ os) h.1)
