-- ===== src/Handler/Types.antt =====
-- What the handler's parts share: sessions, upstream calls (loft/src/upstream.rs) and diagnostics.
use Prim.Native.String.{String}
use loft.Prelude.{
  ℕ, ◌*◌, ◌^◌, ◌-◌, Option, none, some, List, [], length, take, drop, leb, ◌&&◌, codes,
  if◌then◌else◌,
}
use loft.Coap.Message.{Message, response, option_uint}
use loft.Coap.Block.Defs.{Block, decode}

pub data Transport : Type 0 where
  udp tcp : Transport

pub data Method : Type 0 where
  get post : Method

-- `DeviceSession`; its peer address serves logging alone.
pub record DeviceSession : Type 0 where
  pub pigeon_id : List ℕ
  pub token : List ℕ
  pub conn_id : ℕ

pub record UpstreamResponse : Type 0 where
  pub status : ℕ
  pub body : List ℕ
  pub content_range : Option (List ℕ)
  pub firmware_size : Option ℕ
  pub firmware_sha256 : Option (List ℕ)

-- The arguments of `Upstream::device_request`.
pub record Call : Type 0 where
  pub method : Method
  pub pigeon_id : List ℕ
  pub leaf : List ℕ
  pub bearer : List ℕ
  pub range : Option (ℕ × ℕ)
  pub body : Option (List ℕ × List ℕ)

-- `Result<UpstreamResponse, String>`; the error text is logged alone.
pub data Fetched : Type 0 where
  ok : UpstreamResponse → Fetched
  failed : Fetched

-- The backend, which another repository implements: it answers one call. A request makes at most one,
-- so a backend with a state of its own is one such function for each request.
abbrev pub Upstream : Type 0
Upstream = Call → Fetched

-- `req.option_uint(number).and_then(Block::decode)`.
abbrev pub and_decode : Option ℕ → Option Block
and_decode none = none
and_decode (some v) = decode v

unfoldable pub block_of : Message → ℕ → Option Block
block_of req number = and_decode (option_uint req number)

abbrev pub diagnostic : Message → ℕ → String → Message
diagnostic req coap_code text = record (response coap_code req) { payload = codes text }

-- `bytes.get(start..end).unwrap_or_default()`
unfoldable pub slice : List ℕ → ℕ → ℕ → List ℕ
slice bytes start end =
    if leb start end && leb end (length bytes) then take (end - start) (drop start bytes) else []

-- A time in nanoseconds, as `Duration::from_secs` gives it.
abbrev pub seconds : ℕ → ℕ
seconds n = n * 10 ^ 9
