-- ===== src/Datagrams/Answers.antt =====
-- What `process_datagram` of loft/src/dtls_common.rs makes of a request, new or not.
use loft.Prelude.{ℕ, ◌≡◌, refl, true, false, none, some, List, [], ◌==◌, arith}
use loft.Prelude.Eq.{nat_eq}
use loft.Coap.Code
use loft.Coap.Code.{is_request}
use loft.Coap.Wire.Defs.{ok}
use loft.Coap.Udp.Defs.{Datagram, decode}
use loft.Handler.Types.{DeviceSession}
use loft.Handler.Route.{Env}
use loft.Datagrams.{get, Conn, Clock, execute, process_decoded, process_datagram}

request-not_empty : (code : ℕ) → is_request code ≡ true → (code == Code.empty) ≡ false
unfolding is_request
request-not_empty code request = ground arith

-- What a datagram with this content is answered with if nothing is recorded for it.
pub process-new :
    (env : Env) (clock : Clock) (session : DeviceSession) (bytes : List ℕ) (conn : Conn)
    (d : Datagram)
    → decode bytes ≡ ok d
    → is_request d.message.code ≡ true
    → (get clock.looked_at d.message_id conn.dedup).0 ≡ none
    → process_datagram env clock session bytes conn
      ≡ execute env clock session d
          (record conn { dedup = (get clock.looked_at d.message_id conn.dedup).1 })
unfolding process_datagram process_decoded
process-new env clock session bytes conn d decoded request new =
    rw (decoded, request-not_empty d.message.code request, request, new) refl

-- A datagram that is a duplicate is answered with what is recorded.
pub process-again :
    (env : Env) (clock : Clock) (session : DeviceSession) (bytes : List ℕ) (conn : Conn)
    (d : Datagram) (sent : List ℕ)
    → decode bytes ≡ ok d
    → is_request d.message.code ≡ true
    → (get clock.looked_at d.message_id conn.dedup).0 ≡ some sent
    → process_datagram env clock session bytes conn ≡ record {
      sent = some sent;
      conn = record conn { dedup = (get clock.looked_at d.message_id conn.dedup).1 };
      calls = [];
    }
unfolding process_datagram process_decoded
process-again env clock session bytes conn d sent decoded request held =
    rw (decoded, request-not_empty d.message.code request, request, held) refl
