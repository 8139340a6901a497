-- ===== src/Datagrams/Replay.antt =====
-- What `process_datagram` of loft/src/dtls_common.rs answers, at first and on a retransmission.
use loft.Prelude.{ℕ, ◌<◌, ◌≡◌, refl, true, none, some, List, [], ◌∷◌, ◌+◌, suc, arith, All}
use loft.Prelude.Eq.{nat_eq}
use loft.Coap.Code
use loft.Coap.Code.{is_request}
use loft.Coap.Message.{Message}
use loft.Coap.Wire.Defs.{ok, be16, sort, encode_sorted, encode_payload, encode_options_and_payload}
use loft.Coap.Udp.Defs.{Datagram, confirmable, acknowledgement, first_byte, bits, encode, decode}
use loft.Handler.Types.{DeviceSession, udp}
use loft.Handler.Route.{Env, handle}
use loft.Handler.Route.Reply.{handle-token}
use loft.Datagrams.{
  max_entries, get, Conn, Clock, heading, execute, process_decoded, process_datagram,
}
use loft.Datagrams.Age.{young, young-get-le, young-record_sent-le}
use loft.Datagrams.Answers.{process-new, process-again}
use loft.Datagrams.Held.{Arrivals, after, others, IsSoon, Held, get-found, after-Held}
use loft.Datagrams.Dedup.{IsWithin, get-IsWithin, record_sent-IsWithin, lookup-record_sent_self}

-- A new confirmable request is answered with an acknowledgement that has its message id, and its token.
pub process_datagram-acknowledges :
    (env : Env) (clock : Clock) (session : DeviceSession) (bytes : List ℕ) (conn : Conn)
    (d : Datagram)
    → decode bytes ≡ ok d
    → d.message_type ≡ confirmable
    → is_request d.message.code ≡ true
    → (get clock.looked_at d.message_id conn.dedup).0 ≡ none
    → (m : Message) × (m.token ≡ d.message.token)
      × ((process_datagram env clock session bytes conn).sent
          ≡ some (
              encode (record {
                message_type = acknowledgement;
                message_id = d.message_id;
                message = m;
              })))
unfolding execute
process_datagram-acknowledges env clock session bytes conn d decoded con request new = (
  (handle env d.message session udp conn.table).reply,
  handle-token env d.message session udp conn.table,
  rw (process-new env clock session bytes conn d decoded request new, con) refl,
)

-- A confirmable datagram with code 0, a ping, is answered with the four bytes of a reset that has its
-- message id; the connection is left as it was and no upstream call is made.
pub process_datagram-ping :
    (env : Env) (clock : Clock) (session : DeviceSession) (bytes : List ℕ) (conn : Conn)
    (d : Datagram)
    → decode bytes ≡ ok d
    → d.message.code ≡ Code.empty
    → d.message_type ≡ confirmable
    → process_datagram env clock session bytes conn
      ≡ record { sent = some (112 ∷ 0 ∷ be16 d.message_id); conn = conn; calls = [] }
unfolding process_datagram process_decoded encode first_byte bits encode_options_and_payload
    encode_payload sort encode_sorted
process_datagram-ping env clock session bytes conn d decoded empty con =
    rw (decoded, empty, con) refl

-- A new request is handled once. Whatever datagrams arrive on its connection in between, the request among
-- them any number of times, when it arrives again it gets the answer to the first, byte for byte, and
-- makes no upstream call, as long as each arrival is within 150 seconds of the first answer, and those of
-- other datagrams, with the responses that were recorded no earlier than that answer, are fewer than the
-- 256 that the cache holds.
pub deliver-once :
    (env env' : Env) (clock clock' : Clock) (session : DeviceSession) (bytes : List ℕ) (conn : Conn)
    (d : Datagram) (arrivals : Arrivals)
    → decode bytes ≡ ok d
    → is_request d.message.code ≡ true
    → IsWithin conn.dedup
    → (get clock.looked_at d.message_id conn.dedup).0 ≡ none
    → young clock.recorded_at conn.dedup + others bytes arrivals < max_entries
    → All (λ (x : Env × Clock × List ℕ). IsSoon clock.recorded_at x.1) arrivals
    → IsSoon clock.recorded_at clock'
    → let first = process_datagram env clock session bytes conn in
      let again = process_datagram env' clock' session bytes (after session arrivals first.conn) in
      (again.sent ≡ first.sent) × (again.calls ≡ [])
unfolding execute
deliver-once env env' clock clock' session bytes conn d arrivals decoded request within new few soon
      soon' =
    let now = clock.looked_at in
    let at = clock.recorded_at in
    let live : Conn = record conn { dedup = (get now d.message_id conn.dedup).1 } in
    let h = heading d.message_type d.message_id conn.next_mid in
    let reply = (handle env d.message session udp conn.table).reply in
    let encoded = encode (record { message_type = h.0; message_id = h.1; message = reply }) in
    let first = process-new env clock session bytes conn d decoded request new in
    let held : Held d.message_id encoded at (suc (young at conn.dedup))
        (execute env clock session d live).conn.dedup =
      record {
        within =
            record_sent-IsWithin at d.message_id encoded live.dedup
              (get-IsWithin now d.message_id conn.dedup within);
        there = lookup-record_sent_self at d.message_id encoded live.dedup;
        few = omega (
          arith,
          young-record_sent-le at at d.message_id encoded live.dedup,
          young-get-le at now d.message_id conn.dedup,
        );
      } in
    let kept =
      after-Held d.message_id encoded at session bytes d decoded request refl arrivals
        (execute env clock session d live).conn (suc (young at conn.dedup)) (omega (arith, few))
        soon held in
    let then_ = after session arrivals (execute env clock session d live).conn in
    let hit =
      get-found clock'.looked_at d.message_id at encoded then_.dedup kept.1.within.0 kept.1.there
        soon' in
    rw first (
      rw (process-again env' clock' session bytes then_ d encoded decoded request hit) (refl, refl))
