-- ===== src/Handler/Route/Uploads.antt =====
-- What a request to loft/src/handler.rs does to the uploads of other connections and leaves.
use loft.Prelude.{ℕ, ◌≡◌, ◌≢◌, refl, ◌∙◌, List}
use loft.Prelude.Eq.{nat_eq, bytes_key, pair_eq}
use loft.Prelude.Assoc.{lookup, Distinct, lookup-retain, filter_option}
use loft.Coap.Message.{Message, path_segments}
use loft.Handler.Types.{Transport, Method, DeviceSession, Fetched}
use loft.Handler.Block1.{
  Key, Table, is_fresh, sweep_block1, BodyState, complete, interim, assemble_body,
}
use loft.Handler.Block1.Isolation.{assemble_body-same}
use loft.Handler.Route.{
  Env, get_shadow, post_body, post_json, post_logs, get_firmware, dispatch, handle, logs,
  application_json, application_octet_stream, logs_response, shadow, telemetry,
}
use loft.Handler.Response.{json_response}
use loft.Handler.Route.Cases.{resource, dispatch_ind, handle_ind}

-- The table behind a call is the one that the body was assembled in.
post_body-table :
    (env : Env) (req : Message) (session : DeviceSession) (leaf content_type : List ℕ)
    (respond : Fetched → Message) (b : BodyState × Table)
    → (post_body env req session leaf content_type respond b).table ≡ b.1
post_body-table env req session leaf content_type respond (complete body, table) = refl
post_body-table env req session leaf content_type respond (interim msg, table) = refl

module _ (env : Env) (req : Message) (session : DeviceSession) (t : Transport) (other : Key)
    (apart : (leaf : List ℕ)
      → path_segments req ≡ resource session leaf
      → (session.conn_id, leaf) ≢ other) where
  posted-same :
      (leaf content_type : List ℕ) (respond : Fetched → Message) (table : Table)
      → path_segments req ≡ resource session leaf
      → lookup other
          (post_body env req session leaf content_type respond
            (assemble_body env.assembled_at req session leaf table)).table
        ≡ lookup other table
  posted-same leaf content_type respond table named =
      let b = assemble_body env.assembled_at req session leaf table in
      rw (post_body-table env req session leaf content_type respond b)
        (assemble_body-same env.assembled_at req session leaf table other (apart leaf named))

  dispatch-same :
      (leaf : List ℕ) (table : Table)
      → path_segments req ≡ resource session leaf
      → lookup other (dispatch env req session t leaf table).table ≡ lookup other table
  unfolding get_shadow get_firmware post_logs post_json
  dispatch-same leaf table named =
      dispatch_ind (λ o. lookup other o.table ≡ lookup other table) env req session t table leaf
        (λ _ _. refl) (λ _. refl)
        (λ e.
          posted-same shadow application_json
            (λ resp. json_response env.udp_max_szx req resp Method.post t) table (rw (← e) named))
        (λ e.
          posted-same telemetry application_json
            (λ resp. json_response env.udp_max_szx req resp Method.post t) table (rw (← e) named))
        (λ e. posted-same logs application_octet_stream (logs_response req) table (rw (← e) named))
        (λ _. refl)

  -- A request does to an upload of another connection, or of a leaf that its path does not name, what the
  -- sweep does and nothing else: it is dropped if it has been idle for the timeout, and else is as it was.
  pub handle-untouched :
      (table : Table)
      → Distinct table
      → lookup other (handle env req session t table).table
        ≡ filter_option (is_fresh env.swept_at) (lookup other table)
  unfolding sweep_block1
  handle-untouched table distinct =
      let swept = sweep_block1 env.swept_at table in
      handle_ind (λ o. lookup other o.table ≡ lookup other swept) env req session t table
        (λ _ _. refl) (λ leaf named. dispatch-same leaf swept named)
      ∙ lookup-retain (is_fresh env.swept_at) other table distinct
