-- ===== src/Handler/Firmware.antt =====
-- The firmware route: one ranged GET for each block.
use loft.Prelude.{
  ℕ, ◌+◌, ◌-◌, ◌*◌, min, Bool, false, not, ◌&&◌, Option, none, some, List, [], ◌∷◌, length, take,
  ltb, leb, ◌==◌, if◌then◌else◌, ◌>>=◌,
}
use loft.Prelude.Text.{from_str_radix}
use loft.Coap.Code
use loft.Coap.Message.{Message, response, set_option_uint, push_option}
use loft.Coap.Block.Defs.{Block, capped, encode, byte_range, more_after, parse_content_range}
use loft.Handler.Types.{UpstreamResponse, Fetched, ok, failed, diagnostic, slice}
use loft.Handler.Response.{error_response, served, with_size}

abbrev pub firmware_block : Option Block → ℕ → Block
firmware_block (some b) limit = capped b limit
firmware_block none limit = record { num = 0; more = false; szx = limit }

abbrev pub or_else : Option ℕ → ℕ → ℕ
or_else none d = d
or_else (some n) d = n

-- `resp.content_range.as_deref().and_then(block::parse_content_range)`
abbrev pub content_range_of : UpstreamResponse → Option (ℕ × ℕ × ℕ)
content_range_of r = r.content_range >>= parse_content_range

-- Content-Range's total, else the `X-Firmware-Size` header, else the length of the body.
abbrev pub total_size : UpstreamResponse → Option (ℕ × ℕ × ℕ) → ℕ
total_size r (some (_, _, total)) = total
total_size r none = or_else r.firmware_size (length r.body)

-- Whether the upstream answered with another range than the one asked for.
abbrev pub range_moved : Option (ℕ × ℕ × ℕ) → ℕ → Bool
range_moved none start = false
range_moved (some (got_start, _, _)) start = not (got_start == start)

-- A whole image is cut to the block's range.
unfoldable pub firmware_payload : UpstreamResponse → ℕ → ℕ → List ℕ
firmware_payload r start end =
    if r.status == 200 && ltb (end - start + 1) (length r.body)
    then slice r.body (min start (length r.body)) (min (end + 1) (length r.body))
    else r.body

-- `(0..take.len()).step_by(2).map(..).collect()`: a byte for each pair of digits, if all parse.
unfoldable pub hex_pairs : List ℕ → Option (List ℕ)
hex_pairs [] = some []
hex_pairs (a ∷ []) = some []
hex_pairs (a ∷ b ∷ cs) = hex_pairs cs >>= λ (bs : List ℕ).
    from_str_radix 255 16 (a ∷ b ∷ []) >>= λ (v : ℕ). some (v ∷ bs)

unfoldable pub hex_prefix_bytes : List ℕ → ℕ → Option (List ℕ)
hex_prefix_bytes hex n = if ltb (length hex) (n * 2) then none else hex_pairs (take (n * 2) hex)

abbrev pub with_etag : Option (List ℕ) → Message → Message
with_etag none out = out
with_etag (some etag) out = push_option out Code.etag etag

abbrev pub etag_of : UpstreamResponse → Option (List ℕ)
etag_of r = r.firmware_sha256 >>= λ hex. hex_prefix_bytes hex 8

-- The Content-Format and Block2 options of a block of the image.
abbrev pub firmware_head : Message → Block → ℕ → Message
firmware_head req b total =
    set_option_uint
      (set_option_uint (response Code.content req) Code.content_format Code.octet_stream)
      Code.block2 (encode (served b (more_after b total)))

-- The response once the range has been accepted.
unfoldable pub firmware_content : Message → UpstreamResponse → Block → ℕ → Message
firmware_content req r b total =
    record (with_etag (etag_of r) (with_size b total (firmware_head req b total))) {
      payload = firmware_payload r (byte_range b).0 (byte_range b).1;
    }

unfoldable pub firmware_checked : Message → UpstreamResponse → Block → Option (ℕ × ℕ × ℕ) → Message
firmware_checked req r b content_range =
    let start = (byte_range b).0 in
    let total = total_size r content_range in
    if range_moved content_range start
    then diagnostic req Code.bad_request "block out of range"
    else if leb total start && ltb 0 total
    then diagnostic req Code.bad_request "block out of range"
    else firmware_content req r b total

unfoldable pub firmware_response : Message → Fetched → Block → Message
firmware_response req failed b = error_response req failed
firmware_response req (ok r) b =
    if ltb r.status 300
    then firmware_checked req r b (content_range_of r)
    else error_response req (ok r)
