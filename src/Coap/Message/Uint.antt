-- ===== src/Coap/Message/Uint.antt =====
-- CoAP uints: `encode_uint`, `option_uint` and `set_option_uint`.
use Prim.Native.Nat.{bit_or}
use loft.Prelude.{
  ℕ, suc, ◌*◌, ◌/◌, ◌%◌, ◌^◌, Option, none, some, List, [], ◌∷◌, length, drop, ltb, ◌==◌,
  if◌then◌else◌,
}
use loft.Coap.Message.Defs.{Message, first_option, without, push_option}

-- `value.to_be_bytes()` of a `u32`.
abbrev pub be32 : ℕ → List ℕ
be32 v = (v / 2 ^ 24 % 256) ∷ (v / 2 ^ 16 % 256) ∷ (v / 2 ^ 8 % 256) ∷ (v % 256) ∷ []

-- `take_while(|b| **b == 0).count()`
unfoldable pub leading_zeros : List ℕ → ℕ
leading_zeros [] = 0
leading_zeros (b ∷ bs) = if b == 0 then suc (leading_zeros bs) else 0

unfoldable pub encode_uint : ℕ → List ℕ
unfolding leading_zeros
encode_uint value = let bytes = be32 value in drop (leading_zeros bytes) bytes

-- `fold(0u32, |acc, b| (acc << 8) | u32::from(*b))`; a shift on `u32` drops the bits above 32.
unfoldable pub fold_uint : ℕ → List ℕ → ℕ
fold_uint acc [] = acc
fold_uint acc (b ∷ bs) = fold_uint (bit_or (acc * 2 ^ 8 % 2 ^ 32) b) bs

unfoldable pub read_uint : List ℕ → Option ℕ
unfolding fold_uint
read_uint v = if ltb 4 (length v) then none else some (fold_uint 0 v)

abbrev pub uint_of : Option (List ℕ) → Option ℕ
uint_of none = none
uint_of (some v) = read_uint v

unfoldable pub option_uint : Message → ℕ → Option ℕ
unfolding read_uint
option_uint m number = uint_of (first_option m number)

unfoldable pub set_option_uint : Message → ℕ → ℕ → Message
unfolding without encode_uint
set_option_uint m number value =
    push_option (record m { options = without number m.options }) number (encode_uint value)
