-- ===== src/Coap/Code.antt =====
-- The code and option tables of loft/src/coap/message.rs. A code is one byte.
use Prim.Native.Nat.{bit_or}
use loft.Prelude.{ℕ, ◌*◌, ◌/◌, ◌%◌, ◌&&◌, Bool, not, ◌==◌}

-- `(class << 5) | detail` on a `u8`.
abbrev pub resp : ℕ → ℕ → ℕ
resp class detail = bit_or (class * 32 % 256) detail

abbrev pub class : ℕ → ℕ
class code = code / 32

abbrev pub empty : ℕ
empty = 0

abbrev pub get : ℕ
get = 1

abbrev pub post : ℕ
post = 2

abbrev pub created : ℕ
created = resp 2 1

abbrev pub changed : ℕ
changed = resp 2 4

abbrev pub content : ℕ
content = resp 2 5

abbrev pub continue : ℕ
continue = resp 2 31

abbrev pub bad_request : ℕ
bad_request = resp 4 0

abbrev pub unauthorized : ℕ
unauthorized = resp 4 1

abbrev pub bad_option : ℕ
bad_option = resp 4 2

abbrev pub forbidden : ℕ
forbidden = resp 4 3

abbrev pub not_found : ℕ
not_found = resp 4 4

abbrev pub method_not_allowed : ℕ
method_not_allowed = resp 4 5

abbrev pub request_entity_incomplete : ℕ
request_entity_incomplete = resp 4 8

abbrev pub request_entity_too_large : ℕ
request_entity_too_large = resp 4 13

abbrev pub bad_gateway : ℕ
bad_gateway = resp 5 2

abbrev pub service_unavailable : ℕ
service_unavailable = resp 5 3

abbrev pub gateway_timeout : ℕ
gateway_timeout = resp 5 4

abbrev pub csm : ℕ
csm = resp 7 1

abbrev pub ping : ℕ
ping = resp 7 2

abbrev pub pong : ℕ
pong = resp 7 3

abbrev pub release : ℕ
release = resp 7 4

abbrev pub abort : ℕ
abort = resp 7 5

unfoldable pub is_request : ℕ → Bool
is_request code = class code == 0 && not (code == empty)

unfoldable pub is_signaling : ℕ → Bool
is_signaling code = class code == 7

-- Option numbers.
abbrev pub uri_host : ℕ
uri_host = 3

abbrev pub etag : ℕ
etag = 4

abbrev pub observe : ℕ
observe = 6

abbrev pub uri_port : ℕ
uri_port = 7

abbrev pub uri_path : ℕ
uri_path = 11

abbrev pub content_format : ℕ
content_format = 12

abbrev pub uri_query : ℕ
uri_query = 15

abbrev pub block2 : ℕ
block2 = 23

abbrev pub block1 : ℕ
block1 = 27

abbrev pub size2 : ℕ
size2 = 28

abbrev pub size1 : ℕ
size1 = 60

-- `number & 1 == 1`
unfoldable pub is_critical : ℕ → Bool
is_critical number = number % 2 == 1

-- Content-Format values.
abbrev pub octet_stream : ℕ
octet_stream = 42

abbrev pub json : ℕ
json = 50
