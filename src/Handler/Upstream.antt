-- ===== src/Handler/Upstream.antt =====
-- loft/src/upstream.rs: `Dovecote`, which turns a call into an HTTP request and its answer into a response.
use loft.Prelude.{
  ℕ, zero, suc, ◌+◌, ◌/◌, ◌%◌, ◌≡◌, refl, sym, ap, Option, none, some, List, [], ◌∷◌, ◌++◌, All,
  append-nil, ltb, codes, if◌then◌else◌,
}
use loft.Prelude.Text.{parse_u64}
use loft.Config.{trim_end_matches}
use loft.Coap.Message.{Message, path_segments}
use loft.Handler.Types.{Transport, Method, DeviceSession, Call, Fetched, ok, failed}
use loft.Handler.Block1.{Table}
use loft.Handler.Route.{Env, handle}
use loft.Handler.Route.Identity.{Confined, handle-Confined}

-- The digits of a number, in front of `rest`; a number below 2 ^ 64 has at most 20.
unfoldable pub digits : ℕ → ℕ → List ℕ → List ℕ
digits zero n rest = rest
digits (suc fuel) n rest =
    let more = digits fuel (n / 10) ((48 + n % 10) ∷ rest) in
    if ltb n 10 then (48 + n) ∷ rest else more

unfoldable pub decimal : ℕ → List ℕ
unfolding digits
decimal n = digits 20 n []

-- A request of `reqwest`, with the headers that the code sets.
pub record HttpRequest : Type 0 where
  pub method : Method
  pub url : List ℕ
  pub authorization : List ℕ
  pub range : Option (List ℕ)
  pub content_type : Option (List ℕ)
  pub body : Option (List ℕ)

-- Its answer, when status, headers and body have all come in. Headers that are no text are `none`.
pub record HttpResponse : Type 0 where
  pub status : ℕ
  pub header : List ℕ → Option (List ℕ)
  pub body : List ℕ

-- `Dovecote::new` keeps the URL without slashes at its end.
unfoldable pub base_url : List ℕ → List ℕ
unfolding trim_end_matches
base_url url = trim_end_matches b'/' url

abbrev pub range_header : Option (ℕ × ℕ) → Option (List ℕ)
range_header none = none
range_header (some (start, end)) = some (codes "bytes=" ++ (decimal start ++ (b'-' ∷ decimal end)))

abbrev pub first_of : Option (List ℕ × List ℕ) → Option (List ℕ)
first_of none = none
first_of (some (bytes, content_type)) = some bytes

abbrev pub second_of : Option (List ℕ × List ℕ) → Option (List ℕ)
second_of none = none
second_of (some (bytes, content_type)) = some content_type

unfoldable pub request : List ℕ → Call → HttpRequest
unfolding decimal
request base c = record {
  method = c.method;
  url = base ++ (codes "/device/pigeons/" ++ (c.pigeon_id ++ (b'/' ∷ c.leaf)));
  authorization = codes "Bearer " ++ c.bearer;
  range = range_header c.range;
  content_type = second_of c.body;
  body = first_of c.body;
}

abbrev pub and_parse : Option (List ℕ) → Option ℕ
and_parse none = none
and_parse (some v) = parse_u64 v

-- `none` is an error of the transfer.
abbrev pub response_of : Option HttpResponse → Fetched
response_of none = failed
response_of (some r) = ok (record {
  status = r.status;
  body = r.body;
  content_range = r.header (codes "Content-Range");
  firmware_size = and_parse (r.header (codes "X-Firmware-Size"));
  firmware_sha256 = r.header (codes "X-Firmware-Sha256");
})

-- `http` is the client with the network behind it.
unfoldable pub device_request : List ℕ → (HttpRequest → Option HttpResponse) → Call → Fetched
unfolding request
device_request base http c = response_of (http (request base c))

-- A path as text, with a slash before each segment.
unfoldable pub slashed : List (List ℕ) → List ℕ
slashed [] = []
slashed (s ∷ path) = b'/' ∷ (s ++ slashed path)

-- What the backend sees of a call for a path.
pub record Mirrors (base token : List ℕ) (path : List (List ℕ)) (c : Call) : Type 0 where
  pub url : (request base c).url ≡ base ++ slashed path
  pub authorization : (request base c).authorization ≡ codes "Bearer " ++ token

confined-Mirrors :
    (base : List ℕ) {session : DeviceSession} {path : List (List ℕ)} {calls : List Call}
    → Confined session path calls
    → All (Mirrors base session.token path) calls
unfolding request slashed
confined-Mirrors base Confined.silent = tt
confined-Mirrors base {session = session} (Confined.own c who token named) = (
  record {
    url =
        rw (named, who)
          (ap
            (λ (leaf : List ℕ).
              base ++ (codes "/device/pigeons/" ++ (session.pigeon_id ++ (b'/' ∷ leaf))))
            (sym (append-nil c.leaf)));
    authorization = rw token refl;
  },
  tt,
)

-- The HTTP request that a request of a session causes names the same path as that request, below the base
-- URL, and carries the session's token.
pub handle-Mirrors :
    (base : List ℕ) (env : Env) (req : Message) (session : DeviceSession) (t : Transport)
    (table : Table)
    → All (Mirrors base session.token (path_segments req)) (handle env req session t table).calls
handle-Mirrors base env req session t table =
    confined-Mirrors base (handle-Confined env req session t table)
