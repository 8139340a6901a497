-- ===== src/Datagrams.antt =====
-- loft/src/dtls_common.rs: duplicate detection, and the one code path for a decrypted datagram.
pub mod Age
pub mod Answers
pub mod Dedup
pub mod Held
pub mod Process
pub mod Replay
mod Tests
use loft.Prelude.{
  ℕ, suc, ◌+◌, ◌-◌, ◌%◌, ◌^◌, Bool, not, Option, none, some, List, [], ◌∷◌, length, ltb, leb, ◌==◌,
  if◌then◌else◌,
}
use loft.Prelude.Eq.{nat_eq}
use loft.Prelude.Assoc.{lookup, insert, remove, retain}
use loft.Coap.Code
use loft.Coap.Code.{is_request}
use loft.Coap.Message.{Message, bare}
use loft.Coap.Wire.Defs.{Decoded, ok, err, stuck}
use loft.Coap.Udp.Defs.{
  Datagram, MessageType, confirmable, non_confirmable, acknowledgement, reset, encode, decode,
}
use loft.Handler.Types.{DeviceSession, Call, udp, seconds}
use loft.Handler.Block1.{Table}
use loft.Handler.Route.{Env, handle}

-- An encoded response and the instant it was recorded at.
abbrev pub Sent : Type 0
Sent = List ℕ × ℕ

abbrev pub Entries : Type 0
Entries = List (ℕ × Sent)

-- `DedupCache::new`.
abbrev pub ttl : ℕ
ttl = seconds 150

abbrev pub max_entries : ℕ
max_entries = 256

-- `now.duration_since(*at) < ttl`, which stops at 0.
abbrev pub is_live : ℕ → Sent → Bool
is_live now (bytes, at) = ltb (now - at) ttl

abbrev pub bytes_of : Option Sent → Option (List ℕ)
bytes_of none = none
bytes_of (some (bytes, at)) = some bytes

-- `DedupCache::get`, which also drops what has expired.
unfoldable pub get : ℕ → ℕ → Entries → Option (List ℕ) × Entries
get now mid entries = let live = retain (is_live now) entries in (bytes_of (lookup mid live), live)

-- The earlier of an entry and the earliest of the rest.
abbrev pub earlier : ℕ × ℕ → Option (ℕ × ℕ) → Option (ℕ × ℕ)
earlier (mid, at) none = some (mid, at)
earlier (mid, at) (some (k, t)) = if leb at t then some (mid, at) else some (k, t)

-- `min_by_key`: the key and the instant of an oldest entry. Which of several that are equally old a
-- hash map gives is not specified; this is the first.
unfoldable pub oldest : Entries → Option (ℕ × ℕ)
oldest [] = none
oldest ((mid, (bytes, at)) ∷ entries) = earlier (mid, at) (oldest entries)

abbrev pub evict : Option (ℕ × ℕ) → Entries → Entries
evict none entries = entries
evict (some (mid, at)) entries = remove mid entries

-- `DedupCache::insert`.
unfoldable pub record_sent : ℕ → ℕ → List ℕ → Entries → Entries
record_sent now mid response entries =
    insert mid (response, now)
      (if leb max_entries (length entries) then evict (oldest entries) entries else entries)

-- What a connection and the handler behind it keep: the duplicates, the counter for messages of its own
-- and the Block1 table.
pub record Conn : Type 0 where
  pub dedup : Entries
  pub next_mid : ℕ
  pub table : Table

-- The instants at which `get` and `insert` read the clock.
pub record Clock : Type 0 where
  pub looked_at : ℕ
  pub recorded_at : ℕ

-- The datagram sent back, the state behind it, and the upstream calls made.
pub record Processed : Type 0 where
  pub sent : Option (List ℕ)
  pub conn : Conn
  pub calls : List Call

abbrev pub silent : Conn → Processed
silent conn = record { sent = none; conn = conn; calls = [] }

-- The type and message id of a response, and the counter behind it (`wrapping_add` on `u16`).
abbrev pub heading : MessageType → ℕ → ℕ → MessageType × ℕ × ℕ
heading confirmable mid next_mid = (acknowledgement, mid, next_mid)
heading non_confirmable mid next_mid =
    (non_confirmable, (next_mid + 1) % 2 ^ 16, (next_mid + 1) % 2 ^ 16)
heading acknowledgement mid next_mid =
    (non_confirmable, (next_mid + 1) % 2 ^ 16, (next_mid + 1) % 2 ^ 16)
heading reset mid next_mid = (non_confirmable, (next_mid + 1) % 2 ^ 16, (next_mid + 1) % 2 ^ 16)

-- A request that is no duplicate is handled, and what is sent is recorded.
unfoldable pub execute : Env → Clock → DeviceSession → Datagram → Conn → Processed
execute env clock session d conn =
    let o = handle env d.message session udp conn.table in
    let h = heading d.message_type d.message_id conn.next_mid in
    let encoded = encode (record { message_type = h.0; message_id = h.1; message = o.reply }) in
    record {
      sent = some encoded;
      conn = record {
        dedup = record_sent clock.recorded_at d.message_id encoded conn.dedup;
        next_mid = h.2;
        table = o.table;
      };
      calls = o.calls;
    }

-- A duplicate is answered with what was sent.
abbrev pub answer_request :
    Env → Clock → DeviceSession → Datagram → Conn → Option (List ℕ) × Entries → Processed
answer_request env clock session d conn (some cached, live) = record {
  sent = some cached;
  conn = record conn { dedup = live };
  calls = [];
}
answer_request env clock session d conn (none, live) =
    execute env clock session d (record conn { dedup = live })

-- A CoAP ping is answered with a reset.
abbrev pub answer_empty : MessageType → ℕ → Conn → Processed
answer_empty confirmable mid conn = record {
  sent =
      some
        (encode (record { message_type = reset; message_id = mid; message = bare Code.empty [] }));
  conn = conn;
  calls = [];
}
answer_empty _ mid conn = silent conn

unfoldable pub process_decoded : Env → Clock → DeviceSession → Conn → Decoded Datagram → Processed
process_decoded env clock session conn (err e) = silent conn
process_decoded env clock session conn stuck = silent conn
process_decoded env clock session conn (ok d) =
    if d.message.code == Code.empty
    then answer_empty d.message_type d.message_id conn
    else if not (is_request d.message.code)
    then silent conn
    else answer_request env clock session d conn (get clock.looked_at d.message_id conn.dedup)

unfoldable pub process_datagram : Env → Clock → DeviceSession → List ℕ → Conn → Processed
process_datagram env clock session bytes conn =
    process_decoded env clock session conn (decode bytes)
