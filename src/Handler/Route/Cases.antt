-- ===== src/Handler/Route/Cases.antt =====
-- To prove something of every outcome of `handle`: one case for a rejected request, and one for each
-- route.
use Prim.Native.String.{String}
use loft.Prelude.{
  ℕ, ◌≡◌, not, ◌||◌, Option, none, some, List, [], ◌∷◌, ◌==◌, if_ind, bytes_eq, bytes_eq→eq, arith,
}
use loft.Coap.Code
use loft.Coap.Code.{is_request}
use loft.Coap.Message.{Message, path_segments, unknown_critical_option}
use loft.Handler.Types.{Transport, DeviceSession, diagnostic}
use loft.Handler.Block1.{Table, sweep_block1}
use loft.Handler.Route.{
  Outcome, Env, answered, device, pigeons, shadow, telemetry, logs, firmware, known_options,
  get_shadow, post_json, post_logs, get_firmware, dispatch, route, checked, handle,
}

-- The path of a device's resource.
abbrev pub resource : DeviceSession → List ℕ → List (List ℕ)
resource session leaf = device ∷ pigeons ∷ session.pigeon_id ∷ leaf ∷ []

module _ (P : Outcome → Type 0) (env : Env) (req : Message) (session : DeviceSession)
    (t : Transport) (table : Table) where
  pub dispatch_ind :
      (leaf : List ℕ)
      → ((code : ℕ) (text : String) → P (answered table (diagnostic req code text)))
      → (leaf ≡ shadow → P (get_shadow env req session t table))
      → (leaf ≡ shadow → P (post_json env req session t shadow table))
      → (leaf ≡ telemetry → P (post_json env req session t telemetry table))
      → (leaf ≡ logs → P (post_logs env req session table))
      → (leaf ≡ firmware → P (get_firmware env req session t table))
      → P (dispatch env req session t leaf table)
  unfolding dispatch
  dispatch_ind leaf rejected on_shadow on_post_shadow on_telemetry on_logs on_firmware =
      let denied = rejected Code.method_not_allowed "method not allowed" in
      if_ind P (bytes_eq leaf shadow)
        (λ e.
          if_ind P (req.code == Code.get) (λ _. on_shadow (bytes_eq→eq leaf shadow e))
            (λ _.
              if_ind P (req.code == Code.post) (λ _. on_post_shadow (bytes_eq→eq leaf shadow e))
                (λ _. denied)))
        (λ _.
          if_ind P (bytes_eq leaf telemetry)
            (λ e.
              if_ind P (req.code == Code.post) (λ _. on_telemetry (bytes_eq→eq leaf telemetry e))
                (λ _. denied))
            (λ _.
              if_ind P (bytes_eq leaf logs)
                (λ e.
                  if_ind P (req.code == Code.post) (λ _. on_logs (bytes_eq→eq leaf logs e))
                    (λ _. denied))
                (λ _.
                  if_ind P (bytes_eq leaf firmware)
                    (λ e.
                      if_ind P (req.code == Code.get)
                        (λ _. on_firmware (bytes_eq→eq leaf firmware e)) (λ _. denied))
                    (λ _. rejected Code.not_found "no such resource"))))

  route_ind :
      (segments : List (List ℕ))
      → ((code : ℕ) (text : String) → P (answered table (diagnostic req code text)))
      → ((leaf : List ℕ)
          → segments ≡ resource session leaf
          → P (dispatch env req session t leaf table))
      → P (route env req session t table segments)
  unfolding route
  route_ind (d ∷ p ∷ id ∷ leaf ∷ []) rejected routed =
      if_ind P (not (bytes_eq d device) || not (bytes_eq p pigeons))
        (λ _. rejected Code.not_found "no such resource")
        (λ e.
          if_ind P (not (bytes_eq id session.pigeon_id))
            (λ _. rejected Code.forbidden "pigeon id does not match identity")
            (λ e'. routed leaf (
              ground (
                arith,
                bytes_eq→eq d device,
                bytes_eq→eq p pigeons,
                bytes_eq→eq id session.pigeon_id,
              ))))
  route_ind [] rejected routed = rejected Code.not_found "no such resource"
  route_ind (_ ∷ []) rejected routed = rejected Code.not_found "no such resource"
  route_ind (_ ∷ _ ∷ []) rejected routed = rejected Code.not_found "no such resource"
  route_ind (_ ∷ _ ∷ _ ∷ []) rejected routed = rejected Code.not_found "no such resource"
  route_ind (_ ∷ _ ∷ _ ∷ _ ∷ _ ∷ _) rejected routed = rejected Code.not_found "no such resource"

  checked_ind :
      (unknown : Option ℕ)
      → ((code : ℕ) (text : String) → P (answered table (diagnostic req code text)))
      → ((leaf : List ℕ)
          → path_segments req ≡ resource session leaf
          → P (dispatch env req session t leaf table))
      → P (checked env req session t table unknown)
  unfolding checked
  checked_ind (some n) rejected routed = rejected Code.bad_option "unrecognized critical option"
  checked_ind none rejected routed = route_ind (path_segments req) rejected routed

-- Either a diagnostic over the swept table, or the routes for a path that names the session's device.
pub handle_ind :
    (P : Outcome → Type 0) (env : Env) (req : Message) (session : DeviceSession) (t : Transport)
    (table : Table)
    → ((code : ℕ) (text : String)
        → P (answered (sweep_block1 env.swept_at table) (diagnostic req code text)))
    → ((leaf : List ℕ)
        → path_segments req ≡ resource session leaf
        → P (dispatch env req session t leaf (sweep_block1 env.swept_at table)))
    → P (handle env req session t table)
unfolding handle
handle_ind P env req session t table rejected routed =
    if_ind P (not (is_request req.code)) (λ _. rejected Code.bad_request "not a request")
      (λ _.
        checked_ind P env req session t (sweep_block1 env.swept_at table)
          (unknown_critical_option req known_options) rejected routed)
