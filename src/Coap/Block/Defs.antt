-- ===== src/Coap/Block/Defs.antt =====
-- `Block` and its methods.
use Prim.Native.Nat.{bit_or}
use loft.Prelude.{
  ℕ, ◌+◌, ◌-◌, ◌*◌, ◌/◌, ◌%◌, ◌^◌, min, Bool, true, false, not, Option, some, ltb, leb, ◌==◌, codes,
  List, ◌>>=◌, if◌then◌else◌,
}
use loft.Prelude.Text.{trim, strip_prefix, split_once, parse_u64}

pub record Block : Type 0 where
  pub num : ℕ
  pub more : Bool
  pub szx : ℕ

abbrev pub max_szx : ℕ
max_szx = 6

-- `1 << (szx + 4)`
abbrev pub size_for : ℕ → ℕ
size_for szx = 2 ^ (szx + 4)

abbrev pub size : Block → ℕ
size b = size_for b.szx

-- The product of a `u32` and a size is below 2 ^ 64.
abbrev pub offset : Block → ℕ
offset b = b.num * size b

-- `value & 0x7`, `value >> 4` and `value & 0x8 != 0`.
unfoldable pub decode : ℕ → Option Block
decode value =
    some
      (record { num = value / 16; more = not (value / 8 % 2 == 0); szx = min (value % 8) max_szx })

abbrev pub from_bool : Bool → ℕ
from_bool true = 1
from_bool false = 0

-- `(num << 4) | (u32::from(more) << 3) | szx.min(MAX_SZX)`; the shift drops what passes 32 bits.
unfoldable pub encode : Block → ℕ
encode b = bit_or (bit_or (b.num * 16 % 2 ^ 32) (from_bool b.more * 8)) (min b.szx max_szx)

-- `num.saturating_mul(1 << (szx - max_szx))`
unfoldable pub capped : Block → ℕ → Block
capped b limit =
    if leb b.szx limit
    then b
    else record { num = min (b.num * 2 ^ (b.szx - limit)) (2 ^ 32 - 1); more = b.more; szx = limit }

abbrev pub byte_range : Block → ℕ × ℕ
byte_range b = (offset b, offset b + size b - 1)

unfoldable pub more_after : Block → ℕ → Bool
more_after b total = ltb (offset b + size b) total

-- `parse_content_range`: `bytes <start>-<end>/<total>`. Header values are ASCII.
unfoldable pub parse_content_range : List ℕ → Option (ℕ × ℕ × ℕ)
unfolding trim strip_prefix split_once parse_u64
parse_content_range value = do
  rest ← strip_prefix (codes "bytes ") (trim value)
  (range, total) ← split_once b'/' rest
  (start, end) ← split_once b'-' range
  first ← parse_u64 (trim start)
  last ← parse_u64 (trim end)
  size ← parse_u64 (trim total)
  some (first, last, size)
