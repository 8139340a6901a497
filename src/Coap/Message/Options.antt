-- ===== src/Coap/Message/Options.antt =====
-- CoAP uints and options, written and read (loft/src/coap/message.rs).
use Prim.Native.Nat.{bit_or}
use loft.Prelude.{
  ℕ, ◌+◌, ◌*◌, ◌/◌, ◌%◌, ◌^◌, ◌≤◌, ◌<◌, ◌≡◌, ◌≢◌, refl, ap, ◌∙◌, some, List, [], ◌∷◌, ◌++◌, length,
  All, arith, append-nil,
}
use loft.Prelude.Bits.{or_eight}
use loft.Coap.Message.Defs.{
  Message, OptionEntry, first, values_of, option_values, without, push_option,
}
use loft.Coap.Message.Uint.{
  encode_uint, fold_uint, read_uint, uint_of, option_uint, set_option_uint,
}

-- One byte shifted into an accumulator with room for it.
shift_in : (acc b : ℕ) → acc < 2 ^ 24 → b < 256 → bit_or (acc * 2 ^ 8 % 2 ^ 32) b ≡ acc * 256 + b
shift_in acc b h k = ground (arith, or_eight acc b)

length-encode_uint : (v : ℕ) → length (encode_uint v) ≤ 4
unfolding encode_uint
length-encode_uint v = ground arith

fold_uint-encode_uint : (v : ℕ) → v < 2 ^ 32 → fold_uint 0 (encode_uint v) ≡ v
unfolding fold_uint encode_uint
fold_uint-encode_uint v h = ground (
  arith,
  shift_in 0 (v / 2 ^ 24 % 256),
  shift_in (v / 2 ^ 24) (v / 2 ^ 16 % 256),
  shift_in (v / 2 ^ 16) (v / 2 ^ 8 % 256),
  shift_in (v / 2 ^ 8) (v % 256),
  shift_in 0 (v / 2 ^ 16 % 256),
  shift_in 0 (v / 2 ^ 8 % 256),
  shift_in 0 (v % 256),
)

read_uint-encode_uint : (v : ℕ) → v < 2 ^ 32 → read_uint (encode_uint v) ≡ some v
unfolding read_uint
read_uint-encode_uint v h = ground (arith, length-encode_uint v, fold_uint-encode_uint v h)

-- No leading zero byte: the encoding is the shortest one.
encode_uint_minimal : (v : ℕ) → first (encode_uint v) ≢ some 0
unfolding encode_uint
encode_uint_minimal v e = ground arith

-- A CoAP uint of at most 32 bits is written in at most four bytes, with no leading zero byte, and is
-- read back as itself.
pub uint_round_trip :
    (v : ℕ)
    → v < 2 ^ 32
    → (read_uint (encode_uint v) ≡ some v)
      × (length (encode_uint v) ≤ 4)
      × (first (encode_uint v) ≢ some 0)
uint_round_trip v h = (read_uint-encode_uint v h, length-encode_uint v, encode_uint_minimal v)

pub encode_uint-IsByte : (v : ℕ) → All (λ b. b < 256) (encode_uint v)
unfolding encode_uint
encode_uint-IsByte v = ground arith

pub values_of-append :
    (k : ℕ) (xs ys : List OptionEntry) → values_of k (xs ++ ys) ≡ values_of k xs ++ values_of k ys
unfolding values_of
values_of-append k [] ys = refl
values_of-append k ((n, v) ∷ xs) ys = ground (arith, values_of-append k xs ys)

values_of-without_self : (k : ℕ) (xs : List OptionEntry) → values_of k (without k xs) ≡ []
unfolding values_of without
values_of-without_self k [] = refl
values_of-without_self k ((n, v) ∷ xs) = ground (arith, values_of-without_self k xs)

values_of-without_ne :
    (k j : ℕ) (xs : List OptionEntry) → k ≢ j → values_of k (without j xs) ≡ values_of k xs
unfolding values_of without
values_of-without_ne k j [] h = refl
values_of-without_ne k j ((n, v) ∷ xs) h = ground (arith, values_of-without_ne k j xs h)

pub option_values-push_option_ne :
    (m : Message) (k j : ℕ) (v : List ℕ)
    → k ≢ j
    → option_values (push_option m j v) k ≡ option_values m k
unfolding values_of
option_values-push_option_ne m k j v h =
    values_of-append k m.options ((j, v) ∷ []) ∙ ground (arith, append-nil (values_of k m.options))

-- After `set_option_uint` the option has one value, the encoded one; a reader of another number sees
-- what it saw before, and the rest of the message stays.
pub set_option_uint_values :
    (m : Message) (j v k : ℕ)
    → (option_values (set_option_uint m j v) j ≡ encode_uint v ∷ [])
      × (k ≢ j → option_values (set_option_uint m j v) k ≡ option_values m k)
unfolding set_option_uint values_of
set_option_uint_values m j v k = (
  values_of-append j (without j m.options) ((j, encode_uint v) ∷ [])
      ∙ ground (arith, values_of-without_self j m.options),
  λ h.
      option_values-push_option_ne (record m { options = without j m.options }) k j (encode_uint v)
        h
      ∙ values_of-without_ne k j m.options h,
)

-- `option_uint` reads back what `set_option_uint` wrote.
pub option_uint-set_option_uint :
    (m : Message) (j v : ℕ) → v < 2 ^ 32 → option_uint (set_option_uint m j v) j ≡ some v
unfolding option_uint
option_uint-set_option_uint m j v h =
    ap (λ vs. uint_of (first vs)) ((set_option_uint_values m j v j).0) ∙ read_uint-encode_uint v h

pub option_uint-set_option_uint_ne :
    (m : Message) (j v k : ℕ) → k ≢ j → option_uint (set_option_uint m j v) k ≡ option_uint m k
unfolding option_uint
option_uint-set_option_uint_ne m j v k h =
    ap (λ vs. uint_of (first vs)) ((set_option_uint_values m j v k).1 h)
