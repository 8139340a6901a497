-- ===== src/Datagrams/Process.antt =====
-- What `process_datagram` of loft/src/dtls_common.rs may do with any bytes.
use loft.Prelude.{
  ℕ, ◌^◌, ◌≤◌, ◌<◌, ◌≡◌, refl, not, Option, none, some, List, [], ◌==◌, arith, All, length, if_ind,
}
use loft.Prelude.Eq.{nat_eq}
use loft.Coap.Code
use loft.Coap.Code.{is_request}
use loft.Coap.Wire.Defs.{Decoded, ok, err, stuck}
use loft.Coap.Udp.Defs.{
  Datagram, MessageType, confirmable, non_confirmable, acknowledgement, reset, decode,
}
use loft.Handler.Types.{DeviceSession, Call, udp}
use loft.Handler.Block1.Bounds.{IsBounded}
use loft.Handler.Route.{Env}
use loft.Handler.Route.Identity.{Confined, handle-Confined}
use loft.Handler.Route.Reply.{handle-IsBounded}
use loft.Datagrams.{
  get, Conn, Clock, Processed, heading, execute, answer_request, answer_empty, process_decoded,
  process_datagram,
}
use loft.Datagrams.Dedup.{IsWithin, get-IsWithin, record_sent-IsWithin}

-- A property of what a datagram leaves, from those of what leaves the connection alone, a replay and an
-- execution.
module _ {ℓ} (P : Processed → Type ℓ) (env : Env) (clock : Clock) (session : DeviceSession)
    (conn : Conn)
    (quiet : (sent : Option (List ℕ)) → P (record { sent = sent; conn = conn; calls = [] }))
    (replay : (d : Datagram) (sent : List ℕ)
      → P (record {
        sent = some sent;
        conn = record conn { dedup = (get clock.looked_at d.message_id conn.dedup).1 };
        calls = [];
      }))
    (run : (d : Datagram)
      → (get clock.looked_at d.message_id conn.dedup).0 ≡ none
      → P (
          execute env clock session d
            (record conn { dedup = (get clock.looked_at d.message_id conn.dedup).1 }))) where
  answer_empty_ind : (t : MessageType) (mid : ℕ) → P (answer_empty t mid conn)
  answer_empty_ind confirmable mid = quiet _
  answer_empty_ind non_confirmable mid = quiet none
  answer_empty_ind acknowledgement mid = quiet none
  answer_empty_ind reset mid = quiet none

  answer_request_ind :
      (d : Datagram) (hit : Option (List ℕ))
      → (get clock.looked_at d.message_id conn.dedup).0 ≡ hit
      → P (
          answer_request env clock session d conn
            (hit, (get clock.looked_at d.message_id conn.dedup).1))
  answer_request_ind d none e = run d e
  answer_request_ind d (some sent) e = replay d sent

  process_decoded_ind : (r : Decoded Datagram) → P (process_decoded env clock session conn r)
  unfolding process_decoded
  process_decoded_ind (err e) = quiet none
  process_decoded_ind stuck = quiet none
  process_decoded_ind (ok d) =
      if_ind P (d.message.code == Code.empty) (λ e. answer_empty_ind d.message_type d.message_id)
        (λ e.
          if_ind P (not (is_request d.message.code)) (λ e. quiet none)
            (λ e. answer_request_ind d (get clock.looked_at d.message_id conn.dedup).0 refl))

  pub process_ind : (bytes : List ℕ) → P (process_datagram env clock session bytes conn)
  unfolding process_datagram
  process_ind bytes = process_decoded_ind (decode bytes)

-- The state of a connection within its limits.
pub record IsSound (conn : Conn) : Type 0 where
  pub dedup : IsWithin conn.dedup
  pub table : IsBounded conn.table
  pub mid : conn.next_mid < 2 ^ 16

heading-bound : (t : MessageType) (mid next : ℕ) → next < 2 ^ 16 → (heading t mid next).2 < 2 ^ 16
heading-bound confirmable mid next h = h
heading-bound non_confirmable mid next h = omega arith
heading-bound acknowledgement mid next h = omega arith
heading-bound reset mid next h = omega arith

execute-IsSound :
    (env : Env) (clock : Clock) (session : DeviceSession) (d : Datagram) (conn : Conn)
    → IsSound conn
    → IsSound (execute env clock session d conn).conn
unfolding execute
execute-IsSound env clock session d conn sound = record {
  dedup = record_sent-IsWithin clock.recorded_at d.message_id _ conn.dedup sound.dedup;
  table = handle-IsBounded env d.message session udp conn.table sound.table;
  mid = heading-bound d.message_type d.message_id conn.next_mid sound.mid;
}

-- Whatever bytes arrive, a connection within its limits stays within them: 256 recorded responses, one
-- for each message id, a 16-bit counter, and the Block1 table's bounds.
pub process_datagram-IsSound :
    (env : Env) (clock : Clock) (session : DeviceSession) (bytes : List ℕ) (conn : Conn)
    → IsSound conn
    → IsSound (process_datagram env clock session bytes conn).conn
process_datagram-IsSound env clock session bytes conn sound =
    process_ind (λ p. IsSound p.conn) env clock session conn (λ sent. sound)
      (λ d sent. record {
        dedup = get-IsWithin clock.looked_at d.message_id conn.dedup sound.dedup;
        table = sound.table;
        mid = sound.mid;
      })
      (λ d _.
        execute-IsSound env clock session d
          (record conn { dedup = (get clock.looked_at d.message_id conn.dedup).1 })
          (record {
            dedup = get-IsWithin clock.looked_at d.message_id conn.dedup sound.dedup;
            table = sound.table;
            mid = sound.mid;
          }))
      bytes

-- At most one call, with the session's identity and bearer token.
abbrev pub IsOwn : DeviceSession → List Call → Type 0
IsOwn session calls =
    All (λ (c : Call). (c.pigeon_id ≡ session.pigeon_id) × (c.bearer ≡ session.token)) calls
    × (length calls ≤ 1)

confined-IsOwn :
    {session : DeviceSession} {path : List (List ℕ)} {calls : List Call}
    → Confined session path calls
    → IsOwn session calls
confined-IsOwn Confined.silent = (tt, omega arith)
confined-IsOwn (Confined.own c who token named) = (((who, token), tt), omega arith)

-- Whatever bytes a session sends, they cause at most one upstream call, which carries that session's
-- identity and bearer token.
pub process_datagram-IsOwn :
    (env : Env) (clock : Clock) (session : DeviceSession) (bytes : List ℕ) (conn : Conn)
    → IsOwn session (process_datagram env clock session bytes conn).calls
unfolding execute
process_datagram-IsOwn env clock session bytes conn =
    process_ind (λ p. IsOwn session p.calls) env clock session conn (λ sent. (tt, omega arith))
      (λ d sent. (tt, omega arith))
      (λ d _. confined-IsOwn (handle-Confined env d.message session udp conn.table)) bytes
