-- ===== src/Handler/Route/Identity.antt =====
-- What a request to loft/src/handler.rs may ask of the backend.
use loft.Prelude.{ℕ, ◌≡◌, refl, none, some, List, [], ◌∷◌}
use loft.Coap.Message.{Message, path_segments}
use loft.Handler.Types.{Transport, Method, DeviceSession, Call, Fetched}
use loft.Handler.Block1.{Table, BodyState, complete, interim, assemble_body}
use loft.Handler.Route.{
  Env, device_call, get_shadow, post_body, post_json, post_logs, get_firmware, handle, dispatch,
  shadow, telemetry, logs, application_json, application_octet_stream, logs_response,
}
use loft.Handler.Response.{json_response}
use loft.Handler.Route.Cases.{resource, dispatch_ind, handle_ind}

-- The calls that a request with a path may make for a session: none, or one that presents the
-- session's identity and bearer token, where the path names that identity and the call's leaf.
pub data Confined (session : DeviceSession) (path : List (List ℕ)) : List Call → Type 0 where
  silent : Confined session path []
  own :
      (c : Call)
      → c.pigeon_id ≡ session.pigeon_id
      → c.bearer ≡ session.token
      → path ≡ resource session c.leaf
      → Confined session path (c ∷ [])

post_body-Confined :
    (path : List (List ℕ)) (env : Env) (req : Message) (session : DeviceSession)
    (leaf content_type : List ℕ) (respond : Fetched → Message) (b : BodyState × Table)
    → path ≡ resource session leaf
    → Confined session path (post_body env req session leaf content_type respond b).calls
post_body-Confined path env req session leaf content_type respond (complete body, table) named =
    own (device_call session Method.post leaf none (some (body, content_type))) refl refl named
post_body-Confined path env req session leaf content_type respond (interim msg, table) named =
    silent

module _ (env : Env) (req : Message) (session : DeviceSession) (t : Transport)
    (path : List (List ℕ)) where
  post_json-Confined :
      (leaf : List ℕ) (table : Table)
      → path ≡ resource session leaf
      → Confined session path (post_json env req session t leaf table).calls
  unfolding post_json
  post_json-Confined leaf table named =
      post_body-Confined path env req session leaf application_json
        (λ resp. json_response env.udp_max_szx req resp Method.post t)
        (assemble_body env.assembled_at req session leaf table) named

  dispatch-Confined :
      (leaf : List ℕ) (table : Table)
      → path ≡ resource session leaf
      → Confined session path (dispatch env req session t leaf table).calls
  unfolding get_shadow get_firmware post_logs
  dispatch-Confined leaf table named =
      dispatch_ind (λ o. Confined session path o.calls) env req session t table leaf (λ _ _. silent)
        (λ e. own _ refl refl (rw (← e) named))
        (λ e. post_json-Confined shadow table (rw (← e) named))
        (λ e. post_json-Confined telemetry table (rw (← e) named))
        (λ e.
          post_body-Confined path env req session logs application_octet_stream (logs_response req)
            (assemble_body env.assembled_at req session logs table) (rw (← e) named))
        (λ e. own _ refl refl (rw (← e) named))

-- A request makes no upstream call, or exactly one, which presents the session's own identity and
-- bearer token, and then the request's path is `device/pigeons/<that identity>/<the call's leaf>`.
pub handle-Confined :
    (env : Env) (req : Message) (session : DeviceSession) (t : Transport) (table : Table)
    → Confined session (path_segments req) (handle env req session t table).calls
handle-Confined env req session t table =
    handle_ind (λ o. Confined session (path_segments req) o.calls) env req session t table
      (λ _ _. silent)
      (λ leaf named. dispatch-Confined env req session t (path_segments req) leaf _ named)
