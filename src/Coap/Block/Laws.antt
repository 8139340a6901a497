-- ===== src/Coap/Block/Laws.antt =====
-- `Block` and its option value, and blocks capped to a size (loft/src/coap/block.rs).
use loft.Prelude.{
  ℕ, zero, suc, ◌+◌, ◌-◌, ◌*◌, ◌%◌, ◌^◌, ◌≤◌, ◌<◌, ◌≡◌, ◌↔◌, ◌⊎◌, refl, ap, ◌∙◌, min, true, some,
  leb, ◌==◌, if◌then◌else◌, arith, Bool-cases, inl, inr,
}
use native.Mathlib.Nat.{mul_assoc, add-zero, add-suc, pow-zero, pow-suc}
use native.Mathlib.Decide.{dec_le}
use loft.Prelude.Bits.{or_four, or_three}
use loft.Coap.Block.Defs.{
  Block, max_szx, size_for, size, offset, decode, from_bool, encode, capped, byte_range, more_after,
}

pub encode-sum :
    (b : Block) → b.num < 2 ^ 28 → encode b ≡ b.num * 16 + from_bool b.more * 8 + min b.szx max_szx
unfolding encode
encode-sum b h = ground (
  arith,
  or_four b.num (from_bool b.more * 8),
  or_three (b.num * 2 + from_bool b.more) (min b.szx max_szx),
)

-- A block with a 28-bit number and a legal size exponent is read back from its option value.
pub decode_block-encode :
    (b : Block) → b.num < 2 ^ 28 → b.szx ≤ max_szx → decode (encode b) ≡ some b
unfolding decode
decode_block-encode b h k = rw (encode-sum b h) (ground arith)

-- The other way round an option value is written back as itself, except that the reserved exponent 7
-- becomes 6.
pub encode_block-decode :
    (v : ℕ) (b : Block)
    → v < 2 ^ 32
    → decode v ≡ some b
    → encode b ≡ (if v % 8 == 7 then v - 1 else v)
unfolding decode
encode_block-decode v b h e = ground (arith, encode-sum b)

pub pow-pos : (n : ℕ) → 0 < 2 ^ n
pow-pos zero = rw pow-zero (omega arith)
pow-pos (suc n) = rw pow-suc (omega (arith, pow-pos n))

pub pow_add : (a b : ℕ) → 2 ^ (a + b) ≡ 2 ^ a * 2 ^ b
pow_add a zero = rw (add-zero, pow-zero) (omega arith)
pow_add a (suc b) =
    rw (add-suc, pow-suc, pow-suc) (omega (arith, ap (λ (t : ℕ). t * 2) (pow_add a b)))

capped_size :
    (b : Block) (limit : ℕ) → limit < b.szx → 2 ^ (b.szx - limit) * size_for limit ≡ size b
capped_size b limit h =
    let total : b.szx - limit + (limit + 4) ≡ b.szx + 4 = omega arith in
    rw (← pow_add (b.szx - limit) (limit + 4)) (ap (λ t. 2 ^ t) total)

mul_mono : (x y m : ℕ) → x ≤ y → x * m ≤ y * m
mul_mono x y m h = grind arith

capped_offset :
    (b : Block) (limit : ℕ)
    → limit < b.szx
    → (min (b.num * 2 ^ (b.szx - limit)) (2 ^ 32 - 1) * size_for limit ≡ offset b)
      ⊎ ((min (b.num * 2 ^ (b.szx - limit)) (2 ^ 32 - 1) ≡ 2 ^ 32 - 1)
          × (min (b.num * 2 ^ (b.szx - limit)) (2 ^ 32 - 1) * size_for limit ≤ offset b))
capped_offset b limit h =
    let wide = b.num * 2 ^ (b.szx - limit) in
    let whole : wide * size_for limit ≡ offset b =
      mul_assoc b.num (2 ^ (b.szx - limit)) (size_for limit)
      ∙ ap (λ t. b.num * t) (capped_size b limit h) in
    elim (dec_le wide (2 ^ 32 - 1)) [
      | yes fits ↦ let e : min wide (2 ^ 32 - 1) ≡ wide = omega arith in inl (rw e whole)
      | no over ↦ inr (omega arith, rw (← whole) (mul_mono _ wide (size_for limit) (omega arith)))
    ]

pub size_for-pos : (szx : ℕ) → 0 < size_for szx
size_for-pos szx = rw pow_add (omega (arith, pow-pos szx))

-- Capping never enlarges a block, keeps the `more` flag, and keeps the byte offset unless the number
-- saturates at 2 ^ 32 - 1.
pub offset-capped :
    (b : Block) (limit : ℕ)
    → ((capped b limit).szx ≤ limit)
      × ((capped b limit).more ≡ b.more)
      × ((offset (capped b limit) ≡ offset b)
          ⊎ (((capped b limit).num ≡ 2 ^ 32 - 1) × (offset (capped b limit) ≤ offset b)))
unfolding capped
offset-capped b limit = elim (Bool-cases (leb b.szx limit)) [
  | inl small ↦ rw small (ground arith, refl, inl refl)
  | inr large ↦ rw large (omega arith, refl, capped_offset b limit (ground arith))
]

-- The `more` flag tells whether the resource goes on past the last byte of the block's range.
pub more_after-byte_range :
    (b : Block) (total : ℕ) → (more_after b total ≡ true) ↔ ((byte_range b).1 + 1 < total)
unfolding more_after
more_after-byte_range b total =
    let filled = size_for-pos b.szx in (λ h. ground arith, λ h. ground arith)
