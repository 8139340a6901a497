-- ===== src/Handler/Route.antt =====
-- `Handler::handle`: the checks, the routes, and what each does to the Block1 table and upstream.
pub mod Cases
pub mod Identity
pub mod Reply
pub mod Uploads
use loft.Prelude.{
  ℕ, not, ◌||◌, Option, none, some, List, [], ◌∷◌, ltb, ◌==◌, if◌then◌else◌, codes, bytes_eq,
}
use loft.Coap.Code
use loft.Coap.Code.{is_request}
use loft.Coap.Message.{Message, response, path_segments, unknown_critical_option}
use loft.Coap.Block.Defs.{byte_range}
use loft.Handler.Types.{
  Transport, Method, DeviceSession, Call, Fetched, ok, failed, Upstream, block_of, diagnostic,
}
use loft.Handler.Block1.{Table, BodyState, complete, interim, sweep_block1, assemble_body}
use loft.Handler.Response.{max_szx_for, error_response, json_response, echo_final_block1}
use loft.Handler.Firmware.{firmware_block, firmware_response}

abbrev pub known_options : List ℕ
known_options =
    Code.uri_host ∷ Code.etag ∷ Code.observe ∷ Code.uri_port ∷ Code.uri_path ∷ Code.content_format
    ∷ Code.uri_query ∷ Code.block2 ∷ Code.block1 ∷ Code.size2 ∷ Code.size1 ∷ []

abbrev pub device : List ℕ
device = codes "device"

abbrev pub pigeons : List ℕ
pigeons = codes "pigeons"

abbrev pub shadow : List ℕ
shadow = codes "shadow"

abbrev pub telemetry : List ℕ
telemetry = codes "telemetry"

abbrev pub logs : List ℕ
logs = codes "logs"

abbrev pub firmware : List ℕ
firmware = codes "firmware"

abbrev pub application_json : List ℕ
application_json = codes "application/json"

abbrev pub application_octet_stream : List ℕ
application_octet_stream = codes "application/octet-stream"

-- What a request leaves: the Block1 table, the response, and the upstream calls made, in order.
pub record Outcome : Type 0 where
  pub table : Table
  pub reply : Message
  pub calls : List Call

abbrev pub answered : Table → Message → Outcome
answered table reply = record { table = table; reply = reply; calls = [] }

-- The parts of `&self` and the environment that do not change during a request: the backend, the
-- datagram ceiling, and the clock when the sweep runs and when a block is assembled.
pub record Env : Type 0 where
  pub upstream : Upstream
  pub udp_max_szx : ℕ
  pub swept_at : ℕ
  pub assembled_at : ℕ

-- `upstream_call`: the session's identity and bearer token on the request.
abbrev pub device_call :
    DeviceSession → Method → List ℕ → Option (ℕ × ℕ) → Option (List ℕ × List ℕ) → Call
device_call session method leaf range body = record {
  method = method;
  pigeon_id = session.pigeon_id;
  leaf = leaf;
  bearer = session.token;
  range = range;
  body = body;
}

-- A call, and the response built from its answer.
abbrev pub asked : Env → Table → Call → (Fetched → Message) → Outcome
asked env table call respond = record {
  table = table;
  reply = respond (env.upstream call);
  calls = call ∷ [];
}

unfoldable pub get_shadow : Env → Message → DeviceSession → Transport → Table → Outcome
get_shadow env req session transport table =
    asked env table (device_call session Method.get shadow none none)
      λ resp. json_response env.udp_max_szx req resp Method.get transport

-- The response of `POST logs`.
unfoldable pub logs_response : Message → Fetched → Message
logs_response req failed = error_response req failed
logs_response req (ok r) =
    if ltb r.status 300 then response Code.changed req else error_response req (ok r)

-- A body that is complete goes upstream; otherwise the interim response is sent.
abbrev pub post_body :
    Env
    → Message
    → DeviceSession
    → List ℕ
    → List ℕ
    → (Fetched → Message)
    → BodyState × Table
    → Outcome
post_body env req session leaf content_type respond (complete body, table) =
    asked env table (device_call session Method.post leaf none (some (body, content_type)))
      λ resp. echo_final_block1 req (respond resp)
post_body env req session leaf content_type respond (interim msg, table) = answered table msg

-- `POST shadow` and `POST telemetry`.
unfoldable pub post_json : Env → Message → DeviceSession → Transport → List ℕ → Table → Outcome
post_json env req session transport leaf table =
    post_body env req session leaf application_json
      (λ resp. json_response env.udp_max_szx req resp Method.post transport)
      (assemble_body env.assembled_at req session leaf table)

unfoldable pub post_logs : Env → Message → DeviceSession → Table → Outcome
post_logs env req session table =
    post_body env req session logs application_octet_stream (logs_response req)
      (assemble_body env.assembled_at req session logs table)

unfoldable pub get_firmware : Env → Message → DeviceSession → Transport → Table → Outcome
get_firmware env req session transport table =
    let b = firmware_block (block_of req Code.block2) (max_szx_for env.udp_max_szx transport) in
    asked env table (device_call session Method.get firmware (some (byte_range b)) none)
      λ resp. firmware_response req resp b

-- The routes, once the identity has been checked.
unfoldable pub dispatch : Env → Message → DeviceSession → Transport → List ℕ → Table → Outcome
dispatch env req session transport leaf table =
    let not_allowed =
      answered table (diagnostic req Code.method_not_allowed "method not allowed") in
    if bytes_eq leaf shadow
    then if req.code == Code.get
      then get_shadow env req session transport table
      else if req.code == Code.post
      then post_json env req session transport shadow table
      else not_allowed
    else if bytes_eq leaf telemetry
    then if req.code == Code.post
      then post_json env req session transport telemetry table
      else not_allowed
    else if bytes_eq leaf logs
    then if req.code == Code.post then post_logs env req session table else not_allowed
    else if bytes_eq leaf firmware
    then if req.code == Code.get then get_firmware env req session transport table else not_allowed
    else answered table (diagnostic req Code.not_found "no such resource")

-- The path has exactly four segments, `device/pigeons/<id>/<leaf>`, and the id is the session's.
unfoldable pub route : Env → Message → DeviceSession → Transport → Table → List (List ℕ) → Outcome
route env req session transport table (seg_device ∷ seg_pigeons ∷ pigeon_id ∷ leaf ∷ []) =
    if not (bytes_eq seg_device device) || not (bytes_eq seg_pigeons pigeons)
    then answered table (diagnostic req Code.not_found "no such resource")
    else if not (bytes_eq pigeon_id session.pigeon_id)
    then answered table (diagnostic req Code.forbidden "pigeon id does not match identity")
    else dispatch env req session transport leaf table
route env req session transport table _ =
    answered table (diagnostic req Code.not_found "no such resource")

-- The checks behind the sweep.
unfoldable pub checked : Env → Message → DeviceSession → Transport → Table → Option ℕ → Outcome
checked env req session transport table (some number) =
    answered table (diagnostic req Code.bad_option "unrecognized critical option")
checked env req session transport table none =
    route env req session transport table (path_segments req)

unfoldable pub handle : Env → Message → DeviceSession → Transport → Table → Outcome
handle env req session transport table =
    let swept = sweep_block1 env.swept_at table in
    if not (is_request req.code)
    then answered swept (diagnostic req Code.bad_request "not a request")
    else checked env req session transport swept (unknown_critical_option req known_options)
