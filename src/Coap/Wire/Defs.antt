-- ===== src/Coap/Wire/Defs.antt =====
-- Encoding and decoding of the options and payload region (loft/src/coap/message.rs).
use Prim.Native.Nat.{bit_or}
use loft.Prelude.{
  ℕ, zero, suc, ◌+◌, ◌-◌, ◌*◌, ◌/◌, ◌%◌, ◌^◌, List, [], ◌∷◌, ◌++◌, length, take, drop, is_empty,
  ltb, leb, ◌==◌, if◌then◌else◌,
}
use loft.Coap.Message.{Message, OptionEntry, push_option}

pub data DecodeError : Type 0 where
  truncated bad_option_encoding bad_token_length payload_marker_no_payload : DecodeError

-- Rust's `Result<_, DecodeError>`. `stuck` is no Rust value: a loop ran out of fuel.
pub data Decoded {ℓ} (A : Type ℓ) : Type ℓ where
  ok : A → Decoded A
  err : DecodeError → Decoded A
  stuck : Decoded A

infixl 5 ◌>>=◌
abbrev pub ◌>>=◌ {ℓ κ} : {A : Type ℓ} {B : Type κ} → Decoded A → (A → Decoded B) → Decoded B
ok a >>= f = f a
err e >>= f = err e
stuck >>= f = stuck

-- `sort_by_key(|(n, _)| *n)` is stable: an option stays behind the earlier ones of its number.
unfoldable pub insert : OptionEntry → List OptionEntry → List OptionEntry
insert o [] = o ∷ []
insert o (p ∷ os) = let rest = insert o os in if leb o.0 p.0 then o ∷ p ∷ os else p ∷ rest

unfoldable pub sort : List OptionEntry → List OptionEntry
sort [] = []
sort (o ∷ os) = insert o (sort os)

-- `to_be_bytes` and `from_be_bytes` of a `u16`.
abbrev pub be16 : ℕ → List ℕ
be16 v = (v / 256 % 256) ∷ (v % 256) ∷ []

abbrev pub from_be16 : ℕ → ℕ → ℕ
from_be16 a b = a * 256 + b

-- Nibble and extension bytes of an option delta or length; the casts cut to 8 and 16 bits.
unfoldable pub nibble_ext : ℕ → ℕ × List ℕ
nibble_ext value =
    if ltb value 13
    then (value % 256, [])
    else if ltb value 269
    then (13, ((value - 13) % 256) ∷ [])
    else (14, be16 ((value - 269) % 2 ^ 16))

-- What one option adds to the output after an option numbered `prev`. The list is sorted, so that
-- `number - prev` does not underflow; the length is cast to `u32`.
unfoldable pub encode_option : ℕ → OptionEntry → List ℕ
unfolding nibble_ext
encode_option prev (number, value) =
    let delta = nibble_ext (number - prev) in
    let len = nibble_ext (length value % 2 ^ 32) in
    bit_or (delta.0 * 16 % 256) len.0 ∷ (delta.1 ++ (len.1 ++ value))

unfoldable pub encode_sorted : ℕ → List OptionEntry → List ℕ
encode_sorted prev [] = []
encode_sorted prev (o ∷ os) = encode_option prev o ++ encode_sorted o.0 os

unfoldable pub encode_payload : List ℕ → List ℕ
encode_payload payload = if is_empty payload then [] else 0xFF ∷ payload

-- The bytes that `encode_options_and_payload` appends to its output.
unfoldable pub encode_options_and_payload : Message → List ℕ
encode_options_and_payload m = encode_sorted 0 (sort m.options) ++ encode_payload m.payload

-- The value of a nibble and what follows its extension.
unfoldable pub read_ext1 : List ℕ → Decoded (ℕ × List ℕ)
read_ext1 [] = err truncated
read_ext1 (first ∷ rest) = ok (13 + first, rest)

unfoldable pub read_ext2 : List ℕ → Decoded (ℕ × List ℕ)
read_ext2 (a ∷ b ∷ rest) = ok (269 + from_be16 a b, rest)
read_ext2 _ = err truncated

unfoldable pub read_nibble_ext : ℕ → List ℕ → Decoded (ℕ × List ℕ)
unfolding read_ext1 read_ext2
read_nibble_ext nibble buf =
    if leb nibble 12
    then ok (nibble, buf)
    else if nibble == 13
    then read_ext1 buf
    else if nibble == 14
    then read_ext2 buf
    else err bad_option_encoding

-- The option number, the value and the rest, from the bytes behind an option's first byte.
unfoldable pub read_option : ℕ → ℕ → List ℕ → Decoded (ℕ × List ℕ × List ℕ)
unfolding read_nibble_ext
read_option number byte buf = do
  (delta, buf1) ← read_nibble_ext (byte / 16) buf
  (len, buf2) ← read_nibble_ext (byte % 16) buf1
  if ltb (length buf2) len
      then err truncated
      else if ltb (2 ^ 16 - 1) (number + delta)
      then err bad_option_encoding
      else ok (number + delta, take len buf2, drop len buf2)

-- The `while !buf.is_empty()` loop; each round takes a byte at least.
unfoldable pub decode_loop : ℕ → ℕ → List ℕ → Message → Decoded Message
unfolding read_option
decode_loop fuel number [] msg = ok msg
decode_loop zero number (byte ∷ buf) msg = stuck
decode_loop (suc fuel) number (byte ∷ buf) msg =
    let rest = read_option number byte buf >>= λ (r : ℕ × List ℕ × List ℕ).
    decode_loop fuel r.0 r.2 (push_option msg r.0 r.1) in
    if byte == 0xFF
    then if is_empty buf then err payload_marker_no_payload else ok (record msg { payload = buf })
    else rest

unfoldable pub decode_options_and_payload : List ℕ → Message → Decoded Message
unfolding decode_loop
decode_options_and_payload buf msg = decode_loop (suc (length buf)) 0 buf msg
