-- ===== src/Handler/Tests.antt =====
-- Runs of loft/src/handler.rs for one session, and the laws at them.
use loft.Prelude.{All, ℕ, suc, ◌≡◌, refl, ap, some, none, List, [], ◌∷◌, codes, arith}
use loft.Prelude.Eq.{nat_eq, bytes_key, pair_eq}
use loft.Prelude.Assoc.{lookup, insert, remove, retain, contains_key}
use loft.Coap.Code
use loft.Coap.Message.{
  Message, bare, path_segments, without, encode_uint, option_uint, set_option_uint, values_of,
}
use loft.Coap.Block.Defs.{encode, decode}
use loft.Handler.Types.{udp, Method, DeviceSession, UpstreamResponse, ok, seconds, block_of}
use loft.Handler.Block1.{Table, assemble_body}
use loft.Handler.Route.Uploads.{handle-untouched}
use loft.Handler.Block1.{is_fresh, Key}
use loft.Prelude.Assoc.{filter_option}
use loft.Handler.Block1.Upload.{Arrival, send, answers, upload}
use loft.Handler.Response.Download.{download, download_all}
use loft.Handler.Response.Limit.{IsWithinLimit, json_response-IsWithinLimit}
use loft.Handler.Response.{json_response}
use loft.Handler.Route.{Env, handle, telemetry}
use loft.Handler.Route.Identity.{Confined, handle-Confined}
use loft.Handler.Route.Reply.{handle-token}
use loft.Handler.Upstream.{
  digits, decimal, base_url, request, device_request, slashed, Mirrors, handle-Mirrors,
}
use loft.Config.{trim_end_matches}

program : Unit {0}
unfolding lookup insert remove retain contains_key path_segments without encode_uint option_uint
    set_option_uint values_of encode decode block_of assemble_body digits decimal trim_end_matches
    base_url request device_request slashed
program = tt

abbrev session : DeviceSession
session = record { pigeon_id = codes "p1"; token = codes "secret"; conn_id = 1 }

-- A backend that answers every call with the same body.
abbrev answer : UpstreamResponse
answer = record {
  status = 200;
  body = 1 ∷ 2 ∷ 3 ∷ 4 ∷ 5 ∷ 6 ∷ 7 ∷ 8 ∷ 9 ∷ 10 ∷ 11 ∷ 12 ∷ 13 ∷ 14 ∷ 15 ∷ 16 ∷ 17 ∷ [];
  content_range = none;
  firmware_size = none;
  firmware_sha256 = none;
}

abbrev env : Env
env = record {
  upstream = λ _. ok answer;
  udp_max_szx = 6;
  swept_at = seconds 5;
  assembled_at = seconds 5;
}

abbrev part : ℕ → List ℕ → Message
part value payload = record {
  code = Code.post;
  token = 4 ∷ [];
  options =
      (Code.uri_path, codes "device")
      ∷ (Code.uri_path, codes "pigeons")
      ∷ (Code.uri_path, codes "p1")
      ∷ (Code.uri_path, telemetry)
      ∷ (Code.block1, value ∷ [])
      ∷ [];
  payload = payload;
}

-- The second block of an upload, its last.
abbrev upload_parts : List Arrival
upload_parts = (seconds 6, part 16 (3 ∷ [])) ∷ []

handle-Confined_example :
    Confined session
      (path_segments (part 8 (1 ∷ 2 ∷ [])))
      (handle env (part 8 (1 ∷ 2 ∷ [])) session udp []).calls
handle-Confined_example = handle-Confined env (part 8 (1 ∷ 2 ∷ [])) session udp []

handle-token_example : (handle env (part 8 (1 ∷ 2 ∷ [])) session udp []).reply.token ≡ 4 ∷ []
handle-token_example = handle-token env (part 8 (1 ∷ 2 ∷ [])) session udp []

upload_example :
    (send session telemetry ((seconds 5, part 8 (1 ∷ 2 ∷ [])) ∷ upload_parts) []).0
    ≡ answers [] ((seconds 5, part 8 (1 ∷ 2 ∷ [])) ∷ upload_parts)
unfolding program
upload_example =
    upload session telemetry (seconds 5) (part 8 (1 ∷ 2 ∷ [])) upload_parts [] tt (omega arith)
      ((0, refl), (0, refl)) (omega arith, tt) (omega arith)

abbrev other_upload : Table
other_upload = ((2, telemetry), record { data_bytes = 9 ∷ []; next_num = 1; touched = 0 }) ∷ []

abbrev other_key : Key
other_key = (2, telemetry)

handle-untouched_example :
    lookup other_key (handle env (part 8 (1 ∷ [])) session udp other_upload).table
    ≡ filter_option (is_fresh (seconds 5)) (lookup other_key other_upload)
unfolding program
handle-untouched_example =
    handle-untouched env (part 8 (1 ∷ [])) session udp other_key
      (λ leaf named e. omega (arith, ap (λ (k : Key). k.0) e)) other_upload (refl, tt)

-- Blocks of 16 bytes over a datagram transport: two of them.
download_all_example :
    download (bare Code.get (4 ∷ [])) 6 answer udp 0 (suc 17) 0 ≡ some answer.body
download_all_example =
    download_all (bare Code.get (4 ∷ [])) 6 answer udp 0 (omega arith) (omega arith) (omega arith)
      (omega arith)

-- A link that carries 16 bytes.
json_response-IsWithinLimit_example :
    IsWithinLimit 0 (json_response 0 (bare Code.get (4 ∷ [])) (ok answer) Method.get udp)
json_response-IsWithinLimit_example =
    json_response-IsWithinLimit 0 (bare Code.get (4 ∷ [])) (ok answer) Method.get

abbrev base : List ℕ
base = codes "https://api"

handle-Mirrors_example :
    All
      (Mirrors base (codes "secret") (path_segments (part 0 (1 ∷ []))))
      (handle env (part 0 (1 ∷ [])) session udp []).calls
handle-Mirrors_example = handle-Mirrors base env (part 0 (1 ∷ [])) session udp []

-- A range of a firmware image, and the size that the backend names.
range_run :
    (base_url (codes "https://api//") ≡ base)
    × (decimal 1054 ≡ codes "1054")
    × ((request base (record {
      method = Method.get;
      pigeon_id = codes "p1";
      leaf = codes "firmware";
      bearer = codes "secret";
      range = some (0, 1023);
      body = none;
    })).range
        ≡ some (codes "bytes=0-1023"))
unfolding program
range_run = (refl, refl, refl)
