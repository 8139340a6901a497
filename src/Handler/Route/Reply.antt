-- ===== src/Handler/Route/Reply.antt =====
-- The response to a request, and the Block1 table behind it (loft/src/handler.rs).
use loft.Prelude.{
  ℕ, ◌+◌, ◌≡◌, refl, ◌∙◌, not, ◌&&◌, inl, inr, Option, none, some, List, ltb, leb, ◌==◌,
  Option-cases, if_ind, length,
}
use loft.Prelude.Eq.{nat_eq, bytes_key, pair_eq}
use loft.Prelude.Assoc.{lookup}
use loft.Coap.Code
use loft.Coap.Message.{Message, set_option_uint}
use loft.Coap.Block.Defs.{Block, encode, offset, byte_range}
use loft.Handler.Types.{
  Transport, Method, DeviceSession, UpstreamResponse, Fetched, ok, failed, block_of,
}
use loft.Handler.Block1.{
  Reassembly, Key, Table, max_block1_body, BodyState, complete, interim, sweep_block1, append_block,
  accept_block, start_upload, assemble_block, assemble_body,
}
use loft.Handler.Block1.Bounds.{IsBounded, sweep_block1-IsBounded, assemble_body-IsBounded}
use loft.Handler.Response.{
  error_response, json_head, json_block, json_response, echo_block, echo_final_block1, with_size,
}
use loft.Handler.Firmware.{
  firmware_response, firmware_checked, firmware_head, firmware_content, with_etag, etag_of,
  content_range_of, range_moved, total_size,
}
use loft.Handler.Route.{
  Outcome, Env, get_shadow, post_body, post_json, post_logs, get_firmware, handle, shadow,
  telemetry, logs, logs_response, application_json, application_octet_stream,
}
use loft.Handler.Route.Cases.{dispatch_ind, handle_ind}

abbrev Answers : Message → Message → Type 0
Answers req m = m.token ≡ req.token

set_option_uint-token : (m : Message) (n v : ℕ) → (set_option_uint m n v).token ≡ m.token
unfolding set_option_uint
set_option_uint-token m n v = refl

error_response-Answers : (req : Message) (f : Fetched) → Answers req (error_response req f)
unfolding error_response
error_response-Answers req (ok r) = refl
error_response-Answers req failed = refl

with_size-Answers :
    (req : Message) (b : Block) (total : ℕ) (m : Message)
    → Answers req m
    → Answers req (with_size b total m)
with_size-Answers req b total m h =
    if_ind (Answers req) (b.num == 0) (λ _. set_option_uint-token m Code.size2 _ ∙ h) (λ _. h)

json_block-Answers :
    (req : Message) (success : ℕ) (full : List ℕ) (b : Option Block)
    → Answers req (json_block req success full b)
unfolding json_block set_option_uint
json_block-Answers req success full none = refl
json_block-Answers req success full (some b) =
    if_ind (Answers req) (leb (length full) (offset b) && ltb 0 b.num) (λ _. refl)
      (λ _. with_size-Answers req b (length full) (json_head req success b full) refl)

json_response-Answers :
    (limit : ℕ) (req : Message) (f : Fetched) (m : Method) (t : Transport)
    → Answers req (json_response limit req f m t)
unfolding json_response
json_response-Answers limit req failed m t = error_response-Answers req failed
json_response-Answers limit req (ok r) m t =
    if_ind (Answers req) (ltb r.status 300) (λ _. json_block-Answers req _ r.body _)
      (λ _. error_response-Answers req (ok r))

echo_block-Answers :
    (req : Message) (b : Option Block) (m : Message) → Answers req m → Answers req (echo_block b m)
echo_block-Answers req none m h = h
echo_block-Answers req (some b) m h =
    if_ind (Answers req) (not b.more) (λ _. set_option_uint-token m Code.block1 (encode b) ∙ h)
      (λ _. h)

with_etag-Answers :
    (req : Message) (e : Option (List ℕ)) (m : Message)
    → Answers req m
    → Answers req (with_etag e m)
with_etag-Answers req none m h = h
with_etag-Answers req (some e) m h = h

firmware_content-Answers :
    (req : Message) (r : UpstreamResponse) (b : Block) (total : ℕ)
    → Answers req (firmware_content req r b total)
unfolding firmware_content set_option_uint
firmware_content-Answers req r b total =
    with_etag-Answers req (etag_of r) (with_size b total (firmware_head req b total))
      (with_size-Answers req b total (firmware_head req b total) refl)

firmware_response-Answers :
    (req : Message) (f : Fetched) (b : Block) → Answers req (firmware_response req f b)
unfolding firmware_response firmware_checked
firmware_response-Answers req failed b = error_response-Answers req failed
firmware_response-Answers req (ok r) b =
    if_ind (Answers req) (ltb r.status 300)
      (λ _.
        if_ind (Answers req) (range_moved (content_range_of r) (byte_range b).0) (λ _. refl)
          (λ _.
            if_ind (Answers req)
              (leb (total_size r (content_range_of r)) (byte_range b).0
                && ltb 0 (total_size r (content_range_of r)))
              (λ _. refl) (λ _. firmware_content-Answers req r b _)))
      (λ _. error_response-Answers req (ok r))

logs_response-Answers : (req : Message) (f : Fetched) → Answers req (logs_response req f)
unfolding logs_response
logs_response-Answers req failed = error_response-Answers req failed
logs_response-Answers req (ok r) =
    if_ind (Answers req) (ltb r.status 300) (λ _. refl) (λ _. error_response-Answers req (ok r))

-- An interim response of the reassembly answers the request too.
abbrev InterimAnswers : Message → BodyState × Table → Type 0
InterimAnswers req (complete body, table) = Unit {0}
InterimAnswers req (interim m, table) = Answers req m

accept_block-Answers :
    (now : ℕ) (req : Message) (b : Block) (key : Key) (table : Table) (found : Option Reassembly)
    → InterimAnswers req (accept_block now req b key table found)
unfolding accept_block append_block
accept_block-Answers now req b key table none = refl
accept_block-Answers now req b key table (some entry) =
    let P = InterimAnswers req in
    if_ind P (not (entry.next_num == b.num)) (λ _. refl)
      (λ _.
        if_ind P (ltb max_block1_body (length entry.data_bytes + length req.payload)) (λ _. refl)
          (λ _. if_ind P b.more (λ _. set_option_uint-token _ Code.block1 (encode b)) (λ _. tt)))

assemble_body-Answers :
    (now : ℕ) (req : Message) (session : DeviceSession) (leaf : List ℕ) (table : Table)
    → InterimAnswers req (assemble_body now req session leaf table)
unfolding assemble_body assemble_block
assemble_body-Answers now req session leaf table = elim (Option-cases (block_of req Code.block1)) [
  | inl whole ↦ rw whole tt
  | inr (b, blockwise) ↦
      let key : Key = (session.conn_id, leaf) in
      rw blockwise (
        if_ind (InterimAnswers req) (b.num == 0)
          (λ _. elim (Option-cases (start_upload now key table)) [
            | inl full ↦ rw full refl
            | inr (table', started) ↦
                rw started (accept_block-Answers now req b key table' (lookup key table'))
          ])
          (λ _. accept_block-Answers now req b key table (lookup key table)))
]

post_body-Answers :
    (env : Env) (req : Message) (session : DeviceSession) (leaf content_type : List ℕ)
    (respond : Fetched → Message) (b : BodyState × Table)
    → ((f : Fetched) → Answers req (respond f))
    → InterimAnswers req b
    → Answers req (post_body env req session leaf content_type respond b).reply
unfolding echo_final_block1
post_body-Answers env req session leaf content_type respond (complete body, table) h k =
    echo_block-Answers req (block_of req Code.block1) _ (h _)
post_body-Answers env req session leaf content_type respond (interim m, table) h k = k

-- The response to any request, on any route and whatever the backend answers, carries the request's
-- token.
pub handle-token :
    (env : Env) (req : Message) (session : DeviceSession) (t : Transport) (table : Table)
    → (handle env req session t table).reply.token ≡ req.token
unfolding get_shadow post_json post_logs get_firmware
handle-token env req session t table =
    let P = λ (o : Outcome). Answers req o.reply in
    let swept = sweep_block1 env.swept_at table in
    let body = λ (leaf : List ℕ). assemble_body-Answers env.assembled_at req session leaf swept in
    let json = λ (m : Method) (f : Fetched). json_response-Answers env.udp_max_szx req f m t in
    let posted = λ (f : Fetched). json_response env.udp_max_szx req f Method.post t in
    let assembled = λ (leaf : List ℕ). assemble_body env.assembled_at req session leaf swept in
    handle_ind P env req session t table (λ _ _. refl)
      (λ leaf named.
        dispatch_ind P env req session t swept leaf (λ _ _. refl) (λ _. json Method.get _)
          (λ _.
            post_body-Answers env req session shadow application_json posted (assembled shadow)
              (json Method.post) (body shadow))
          (λ _.
            post_body-Answers env req session telemetry application_json posted
              (assembled telemetry) (json Method.post) (body telemetry))
          (λ _.
            post_body-Answers env req session logs application_octet_stream (logs_response req)
              (assembled logs) (logs_response-Answers req) (body logs))
          (λ _. firmware_response-Answers req _ _))

post_body-IsBounded :
    (env : Env) (req : Message) (session : DeviceSession) (leaf content_type : List ℕ)
    (respond : Fetched → Message) (b : BodyState × Table)
    → IsBounded b.1
    → IsBounded (post_body env req session leaf content_type respond b).table
post_body-IsBounded env req session leaf content_type respond (complete body, table) h = h
post_body-IsBounded env req session leaf content_type respond (interim m, table) h = h

-- No request takes the Block1 table past its limits: 4096 uploads of at most 64 KiB each.
pub handle-IsBounded :
    (env : Env) (req : Message) (session : DeviceSession) (t : Transport) (table : Table)
    → IsBounded table
    → IsBounded (handle env req session t table).table
unfolding get_shadow post_json post_logs get_firmware
handle-IsBounded env req session t table bounded =
    let P = λ (o : Outcome). IsBounded o.table in
    let swept = sweep_block1 env.swept_at table in
    let settled = sweep_block1-IsBounded env.swept_at table bounded in
    let body =
      λ (leaf : List ℕ). assemble_body-IsBounded env.assembled_at req session leaf swept settled in
    let posted = λ (f : Fetched). json_response env.udp_max_szx req f Method.post t in
    let assembled = λ (leaf : List ℕ). assemble_body env.assembled_at req session leaf swept in
    handle_ind P env req session t table (λ _ _. settled)
      (λ leaf named.
        dispatch_ind P env req session t swept leaf (λ _ _. settled) (λ _. settled)
          (λ _.
            post_body-IsBounded env req session shadow application_json posted (assembled shadow)
              (body shadow))
          (λ _.
            post_body-IsBounded env req session telemetry application_json posted
              (assembled telemetry) (body telemetry))
          (λ _.
            post_body-IsBounded env req session logs application_octet_stream (logs_response req)
              (assembled logs) (body logs))
          (λ _. settled))
