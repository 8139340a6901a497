-- ===== src/Coap/Tcp/Defs.antt =====
-- `encode_frame`, `try_decode_frame` and `FrameDecoder`.
use Prim.Native.Nat.{bit_or}
use loft.Prelude.{
  ℕ, zero, suc, ◌+◌, ◌-◌, ◌*◌, ◌/◌, ◌%◌, ◌^◌, Option, none, some, List, [], ◌∷◌, ◌++◌, length, take,
  drop, ltb, leb, ◌==◌, if◌then◌else◌,
}
use loft.Coap.Message.{Message, bare, be32}
use loft.Coap.Wire.Defs.{
  Decoded, ok, err, ◌>>=◌, truncated, bad_token_length, be16, from_be16, encode_options_and_payload,
  decode_options_and_payload,
}
use loft.Coap.Udp.Defs.{max_token_len, token_len}

abbrev pub max_frame_body : ℕ
max_frame_body = 256 * 1024

-- The length nibble and the extension bytes of a body's length.
unfoldable pub len_ext : ℕ → ℕ × List ℕ
len_ext n =
    if ltb n 13
    then (n, [])
    else if ltb n 269
    then (13, ((n - 13) % 256) ∷ [])
    else if ltb n 65805
    then (14, be16 ((n - 269) % 2 ^ 16))
    else (15, be32 ((n - 65805) % 2 ^ 32))

-- `(len_nibble << 4) | tkl`, the extension, the code, the token, the body.
unfoldable pub encode_frame : Message → List ℕ
unfolding len_ext
encode_frame m =
    let body = encode_options_and_payload m in
    let tkl = token_len m in
    let len = len_ext (length body) in
    bit_or (len.0 * 16 % 256) tkl ∷ (len.1 ++ (m.code ∷ (take tkl m.token ++ body)))

abbrev pub from_be32 : ℕ → ℕ → ℕ → ℕ → ℕ
from_be32 a b c d = a * 2 ^ 24 + b * 2 ^ 16 + c * 2 ^ 8 + d

-- The body length and the count of extension bytes; `none` when they have not arrived.
unfoldable pub read_len1 : List ℕ → Option (ℕ × ℕ)
read_len1 [] = none
read_len1 (ext ∷ _) = some (13 + ext, 1)

unfoldable pub read_len2 : List ℕ → Option (ℕ × ℕ)
read_len2 (a ∷ b ∷ _) = some (269 + from_be16 a b, 2)
read_len2 _ = none

unfoldable pub read_len4 : List ℕ → Option (ℕ × ℕ)
read_len4 (a ∷ b ∷ c ∷ d ∷ _) = some (65805 + from_be32 a b c d, 4)
read_len4 _ = none

unfoldable pub read_len : ℕ → List ℕ → Option (ℕ × ℕ)
unfolding read_len1 read_len2 read_len4
read_len nibble rest =
    if leb nibble 12
    then some (nibble, 0)
    else if nibble == 13
    then read_len1 rest
    else if nibble == 14
    then read_len2 rest
    else read_len4 rest

-- `buf[i]`; the decoder checks the length of the buffer first.
abbrev pub at : List ℕ → ℕ → ℕ
at [] i = 0
at (x ∷ xs) zero = x
at (x ∷ xs) (suc i) = at xs i

-- The frame of `total` bytes at the head of `buf`, if that many have arrived.
unfoldable pub take_frame : List ℕ → ℕ → ℕ → ℕ → Decoded (Option (Message × ℕ))
take_frame buf ext_bytes tkl body_len =
    let total = 1 + ext_bytes + 1 + tkl + body_len in
    let token_start = 1 + ext_bytes + 1 in
    if ltb (length buf) total then ok none else do
      msg ←
          decode_options_and_payload (drop (token_start + tkl) (take total buf))
            (bare (at buf (1 + ext_bytes)) (take tkl (drop token_start buf)))
      ok (some (msg, total))

unfoldable pub with_len : List ℕ → ℕ → Option (ℕ × ℕ) → Decoded (Option (Message × ℕ))
with_len buf tkl none = ok none
with_len buf tkl (some (body_len, ext_bytes)) =
    if ltb max_frame_body body_len then err truncated else take_frame buf ext_bytes tkl body_len

unfoldable pub try_decode_frame : List ℕ → Decoded (Option (Message × ℕ))
try_decode_frame [] = ok none
try_decode_frame (first ∷ rest) =
    let tkl = first % 16 in
    if ltb max_token_len tkl
    then err bad_token_length
    else with_len (first ∷ rest) tkl (read_len (first / 16) rest)

-- A `FrameDecoder` is its buffer. `extend` appends to it.
abbrev pub extend : List ℕ → List ℕ → List ℕ
extend buf bytes = buf ++ bytes

-- The frame, if one is complete, and the buffer without it.
unfoldable pub drained : List ℕ → Option (Message × ℕ) → Decoded (Option Message × List ℕ)
drained buf none = ok (none, buf)
drained buf (some (msg, consumed)) = ok (some msg, drop consumed buf)

unfoldable pub next_frame : List ℕ → Decoded (Option Message × List ℕ)
unfolding drained
next_frame buf = try_decode_frame buf >>= drained buf
