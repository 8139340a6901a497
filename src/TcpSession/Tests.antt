-- ===== src/TcpSession/Tests.antt =====
-- Runs of the session loop of loft/src/tls_tcp.rs, and the law at them.
use loft.Prelude.{
  ℕ, ◌≡◌, ◌≢◌, ◌+◌, refl, true, false, Option, none, some, List, [], ◌∷◌, All, codes, if◌then◌else◌,
  bytes_eq, arith,
}
use loft.Coap.Utf8.{from_utf8_lossy}
use loft.Psk.{PskEntry}
use loft.TlsCommon.{is_utf8, resolve_psk_identity, psk_callback}
use loft.TlsCommon.Asked.{ask}
use loft.Handler.Types.{DeviceSession, Fetched, seconds}
use loft.Coap.Tcp.Defs.{
  encode_frame, len_ext, try_decode_frame, next_frame, read_len, with_len, take_frame, drained,
}
use loft.Coap.Wire.Defs.{
  sort, encode_sorted, encode_payload, encode_options_and_payload, decode_loop,
  decode_options_and_payload,
}
use loft.TcpSession.{World, send, react, drain, on_read, serve, opening}
use loft.TcpSession.Chunks.{joined, serve-joined}
use loft.TcpSession.Guard.{received, to_read, expired, read, write, io, io_all}
use loft.TcpSession.Handshake.{
  Attempt, would_block, complete, attempt, pending, stream_of, shake, guarded, Outside, Connected,
  connection_thread,
}
use loft.TcpSession.Bounded.{Timely, Paced, shake-in_time, shake-ends_soon}
use loft.TcpSession.Confined.{Confined, connection_thread-Confined}

program : Unit {0}
unfolding encode_frame len_ext try_decode_frame next_frame read_len with_len take_frame drained sort
    encode_sorted encode_payload encode_options_and_payload decode_loop decode_options_and_payload
    send react drain on_read serve opening joined bytes_eq from_utf8_lossy is_utf8
    resolve_psk_identity psk_callback ask expired read write io io_all attempt shake
    connection_thread Paced
program = tt

abbrev session : DeviceSession
session = record { pigeon_id = codes "p1"; token = codes "secret"; conn_id = 1 }

abbrev world : World
world = record {
  env = λ _. record {
    upstream = λ _. Fetched.failed;
    udp_max_szx = 6;
    swept_at = seconds 5;
    assembled_at = seconds 5;
  };
  accepts = λ before bytes. true;
}

-- The settings frame goes out; two pings with tokens, cut within the first, get their pongs.
pings :
    (serve world session
      ((1 ∷ []) ∷ (226 ∷ 5 ∷ 1 ∷ 226 ∷ 6 ∷ []) ∷ [])
      (opening world [], [])).0.written
    ≡ (0 ∷ 225 ∷ []) ∷ (1 ∷ 227 ∷ 5 ∷ []) ∷ (1 ∷ 227 ∷ 6 ∷ []) ∷ []
unfolding program
pings = refl

serve-joined_example :
    serve world session ((1 ∷ []) ∷ (226 ∷ 5 ∷ 1 ∷ 226 ∷ 6 ∷ []) ∷ []) (opening world [], [])
    ≡ serve world session ((1 ∷ 226 ∷ 5 ∷ 1 ∷ 226 ∷ 6 ∷ []) ∷ []) (opening world [], [])
unfolding program
serve-joined_example =
    serve-joined world session (opening world []) [] (1 ∷ []) ((226 ∷ 5 ∷ 1 ∷ 226 ∷ 6 ∷ []) ∷ [])
      (λ e. cc) ((λ e. cc), tt)

abbrev resolver : List ℕ → Option PskEntry
resolver identity =
    if bytes_eq identity (codes "p1")
    then some (record { psk = 7 ∷ []; token = codes "secret" })
    else none

-- The peer's first byte, a quiet tick, a byte that comes too late for the deadline.
abbrev slow : List Attempt
slow =
    record {
      calls = to_read 1 2 (some (22 ∷ [])) ∷ [];
      asked = [];
      outcome = would_block;
      now = seconds 1;
    }
    ∷ record {
      calls = to_read (seconds 3) (seconds 3) (some (23 ∷ [])) ∷ [];
      asked = [];
      outcome = would_block;
      now = seconds 3;
    }
    ∷ record { calls = []; asked = []; outcome = would_block; now = seconds 4 }
    ∷ []

late_byte :
    (stream_of (shake resolver 0 (seconds 2) slow (guarded 0 (seconds 2)))).tcp.carried
    ≡ (1, 2, received (22 ∷ [])) ∷ []
unfolding program
late_byte = refl

shake-in_time_example :
    All
      (Timely (0 + seconds 2))
      (stream_of (shake resolver 0 (seconds 2) slow (guarded 0 (seconds 2)))).tcp.carried
shake-in_time_example =
    shake-in_time resolver 0 (seconds 2) slow ((omega arith, tt), ((omega arith, tt), (tt, tt)))

shake-ends_soon_example :
    shake resolver 0 (seconds 2) slow (guarded 0 (seconds 2)) ≢ pending (guarded 0 (seconds 2))
unfolding program
shake-ends_soon_example =
    shake-ends_soon resolver 0 (seconds 2) slow (guarded 0 (seconds 2))
      ((λ _. omega arith), ((λ _. omega arith), ((λ _. omega arith), tt))) (omega arith)

-- A handshake that names the identity, and a ping.
abbrev outside : Outside
outside = record {
  is_tuned = true;
  has_ssl = true;
  resolver = resolver;
  started = 0;
  attempts =
      record {
        calls = to_read 1 2 (some (22 ∷ [])) ∷ [];
        asked = (some (codes "p1"), 0 ∷ 0 ∷ []) ∷ [];
        outcome = complete;
        now = 2;
      }
      ∷ [];
  conn_id = 1;
  reads = (1 ∷ 226 ∷ 5 ∷ []) ∷ [];
  world = world;
}

abbrev connected : Connected
connected = record {
  session = session;
  served = (serve world session ((1 ∷ 226 ∷ 5 ∷ []) ∷ []) (opening world [], [])).0;
  stream = record {
    tcp = record { deadline = 30; is_armed = false; carried = (1, 2, received (22 ∷ [])) ∷ [] };
    credentials = some (codes "p1", codes "secret");
  };
}

connected_run : connection_thread outside 30 [] ≡ some connected
unfolding program
connected_run = refl

connection_thread-Confined_example : Confined resolver connected
connection_thread-Confined_example =
    connection_thread-Confined outside [] 30 connected connected_run
