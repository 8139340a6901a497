-- ===== src/Handler/Response.antt =====
-- Responses from upstream answers in loft/src/handler.rs: `json_response`, `error_response` and
-- `echo_final_block1`.
pub mod Download
pub mod Limit
use loft.Prelude.{
  ℕ, ◌+◌, ◌%◌, ◌^◌, min, Bool, false, not, ◌&&◌, Option, none, some, List, length, take, ltb, leb,
  ◌==◌, if◌then◌else◌,
}
use loft.Coap.Code
use loft.Coap.Message.{Message, response, set_option_uint}
use loft.Coap.Block.Defs.{Block, max_szx, size_for, size, offset, capped, encode}
use loft.Handler.Types.{
  Transport, udp, tcp, Method, Fetched, ok, failed, block_of, diagnostic, slice,
}

-- `Handler::max_szx`.
abbrev pub max_szx_for : ℕ → Transport → ℕ
max_szx_for udp_max_szx udp = udp_max_szx
max_szx_for udp_max_szx tcp = max_szx

unfoldable pub error_code : ℕ → ℕ
error_code status =
    if status == 400
    then Code.bad_request
    else if status == 401
    then Code.unauthorized
    else if status == 403
    then Code.forbidden
    else if status == 404
    then Code.not_found
    else if status == 405
    then Code.method_not_allowed
    else if status == 413
    then Code.request_entity_too_large
    else if leb 500 status && leb status 599
    then Code.bad_gateway
    else Code.bad_request

-- The diagnostic payload is at most 128 bytes of the upstream's text.
unfoldable pub error_response : Message → Fetched → Message
error_response req (ok r) = record (response (error_code r.status) req) {
  payload = take 128 r.body;
}
error_response req failed = diagnostic req Code.gateway_timeout "upstream unreachable"

unfoldable pub success_code : Method → ℕ → ℕ
success_code Method.get status = if status == 201 then Code.created else Code.content
success_code Method.post status = if status == 201 then Code.created else Code.changed

-- The block to answer with: the one asked for, cut to the transport's size, or block 0 of a body that
-- is too large for a datagram.
unfoldable pub response_block : Option Block → ℕ → Transport → ℕ → Option Block
response_block (some b) limit transport len = some (capped b limit)
response_block none limit tcp len = none
response_block none limit udp len =
    if ltb (size_for limit) len then some (record { num = 0; more = false; szx = limit }) else none

-- The end of a block's slice of a body.
abbrev pub block_end : Block → List ℕ → ℕ
block_end b full = min (offset b + size b) (length full)

abbrev pub served : Block → Bool → Block
served b more = record { num = b.num; more = more; szx = b.szx }

-- `if b.num == 0 { out.set_option_uint(option::SIZE2, total as u32) }`
abbrev pub with_size : Block → ℕ → Message → Message
with_size b total out = if b.num == 0 then set_option_uint out Code.size2 (total % 2 ^ 32) else out

-- The Content-Format and Block2 options of a block of a body.
abbrev pub json_head : Message → ℕ → Block → List ℕ → Message
json_head req success b full =
    set_option_uint (set_option_uint (response success req) Code.content_format Code.json)
      Code.block2 (encode (served b (ltb (block_end b full) (length full))))

unfoldable pub json_block : Message → ℕ → List ℕ → Option Block → Message
json_block req success full none =
    record (set_option_uint (response success req) Code.content_format Code.json) { payload = full }
json_block req success full (some b) =
    if leb (length full) (offset b) && ltb 0 b.num
    then diagnostic req Code.bad_request "block out of range"
    else record (with_size b (length full) (json_head req success b full)) {
      payload = slice full (offset b) (block_end b full);
    }

unfoldable pub json_response : ℕ → Message → Fetched → Method → Transport → Message
json_response udp_max_szx req failed method transport = error_response req failed
json_response udp_max_szx req (ok r) method transport =
    if ltb r.status 300
    then json_block req (success_code method r.status) r.body (
        response_block (block_of req Code.block2) (max_szx_for udp_max_szx transport) transport
          (length r.body))
    else error_response req (ok r)

-- On the final response of a Block1 request the final option is echoed.
abbrev pub echo_block : Option Block → Message → Message
echo_block none out = out
echo_block (some b) out = if not b.more then set_option_uint out Code.block1 (encode b) else out

unfoldable pub echo_final_block1 : Message → Message → Message
echo_final_block1 req out = echo_block (block_of req Code.block1) out
