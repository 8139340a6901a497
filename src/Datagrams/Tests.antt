-- ===== src/Datagrams/Tests.antt =====
-- Runs of loft/src/dtls_common.rs on one connection, and the laws at them.
use loft.Prelude.{bytes_eq, ℕ, ◌≤◌, ◌≡◌, ◌⊎◌, refl, some, List, [], ◌∷◌, codes, arith}
use loft.Prelude.Eq.{nat_eq}
use loft.Prelude.Assoc.{lookup, insert, remove, retain, AllValues}
use loft.Coap.Code
use loft.Coap.Code.{is_request}
use loft.Coap.Message.{Message, bare}
use loft.Coap.Wire.Defs.{
  ok, read_ext1, read_ext2, read_nibble_ext, read_option, decode_loop, decode_options_and_payload,
}
use loft.Coap.Udp.Defs.{
  Datagram, confirmable, acknowledgement, first_byte, from_bits, bits, encode, decode, decode_body,
}
use loft.Handler.Types.{DeviceSession, Fetched, seconds}
use loft.Handler.Route.{Env}
use loft.Datagrams.{Sent, max_entries, get, oldest, record_sent, Conn, Clock, process_datagram}
use loft.Datagrams.Dedup.{IsWithin, lookup-record_sent}
use loft.Datagrams.Process.{IsSound, process_datagram-IsSound}
use loft.Datagrams.Replay.{process_datagram-acknowledges, deliver-once}
use loft.Datagrams.Held.{Arrivals, after, others}
use loft.Datagrams.Age.{young}
use loft.Datagrams.{Processed}

program : Unit {0}
unfolding lookup insert remove retain get oldest record_sent is_request first_byte from_bits bits
    encode decode decode_body read_ext1 read_ext2 read_nibble_ext read_option decode_loop
    decode_options_and_payload young others bytes_eq
program = tt

abbrev session : DeviceSession
session = record { pigeon_id = codes "p1"; token = codes "secret"; conn_id = 1 }

abbrev env : Env
env = record {
  upstream = λ _. Fetched.failed;
  udp_max_szx = 6;
  swept_at = seconds 5;
  assembled_at = seconds 5;
}

abbrev clock : Clock
clock = record { looked_at = seconds 5; recorded_at = seconds 6 }

-- A confirmable GET with message id 258 and a token of one byte.
abbrev fetch : List ℕ
fetch = 65 ∷ 1 ∷ 1 ∷ 2 ∷ 9 ∷ []

abbrev fetched : Datagram
fetched = record { message_type = confirmable; message_id = 258; message = bare Code.get (9 ∷ []) }

fetch_decoded : decode fetch ≡ ok fetched
unfolding program
fetch_decoded = refl

-- One response is on record.
abbrev conn : Conn
conn = record { dedup = (7, (1 ∷ [], seconds 1)) ∷ []; next_mid = 65535; table = [] }

conn_IsWithin : IsWithin conn.dedup
unfolding program
conn_IsWithin = ((refl, tt), omega arith)

conn_IsSound : IsSound conn
conn_IsSound = record {
  dedup = conn_IsWithin;
  table = record { entries = omega arith; bodies = tt; distinct = tt };
  mid = omega arith;
}

process_datagram-IsSound_example : IsSound (process_datagram env clock session fetch conn).conn
process_datagram-IsSound_example =
    process_datagram-IsSound env clock session fetch conn conn_IsSound

process_datagram-acknowledges_example :
    (m : Message) × (m.token ≡ 9 ∷ [])
    × ((process_datagram env clock session fetch conn).sent
        ≡ some (encode (record { message_type = acknowledgement; message_id = 258; message = m })))
unfolding program
process_datagram-acknowledges_example =
    process_datagram-acknowledges env clock session fetch conn fetched refl refl refl refl

-- A retransmission after 2 seconds, and another request.
abbrev between : Arrivals
between =
    (env, record { looked_at = seconds 8; recorded_at = seconds 8 }, fetch)
    ∷ (env, record { looked_at = seconds 9; recorded_at = seconds 9 }, 65 ∷ 1 ∷ 1 ∷ 3 ∷ 9 ∷ [])
    ∷ []

abbrev later : Clock
later = record { looked_at = seconds 106; recorded_at = seconds 106 }

abbrev first : Processed
first = process_datagram env clock session fetch conn

abbrev again : Processed
again = process_datagram env later session fetch (after session between first.conn)

deliver-once_example : (again.sent ≡ first.sent) × (again.calls ≡ [])
unfolding program
deliver-once_example =
    deliver-once env env clock later session fetch conn fetched between refl refl conn_IsWithin refl
      (omega arith) (omega arith, (omega arith, tt)) (omega arith)

lookup-record_sent_example :
    (lookup 258 (record_sent (seconds 6) 258 (2 ∷ []) conn.dedup) ≡ some (2 ∷ [], seconds 6))
    × ((lookup 7 (record_sent (seconds 6) 258 (2 ∷ []) conn.dedup) ≡ some (1 ∷ [], seconds 1))
        ⊎ ((1 ≡ max_entries) × AllValues (λ (sent : Sent). seconds 1 ≤ sent.1) conn.dedup))
unfolding program
lookup-record_sent_example =
    lookup-record_sent (seconds 6) 258 7 (seconds 1) (2 ∷ []) (1 ∷ []) conn.dedup conn_IsWithin refl
      (omega arith)
