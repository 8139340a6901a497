-- ===== src/TcpSession.antt =====
-- loft/src/tls_tcp.rs: the `coaps+tcp` session from its settings message on (`connection_thread`'s end and
-- `serve_frames`). TLS itself is a stream of decrypted bytes here.
pub mod Accept
pub mod Bounded
pub mod Chunks
pub mod Confined
pub mod Guard
pub mod Handshake
mod Tests
use loft.Prelude.{
  ℕ, zero, suc, ◌+◌, Bool, true, false, not, ◌||◌, Option, none, some, List, [], ◌∷◌, ◌++◌, length,
  ◌==◌, is_empty, if◌then◌else◌,
}
use loft.Coap.Code
use loft.Coap.Code.{is_request}
use loft.Coap.Message.{Message, bare}
use loft.Coap.Wire.Defs.{Decoded, ok, err, stuck}
use loft.Coap.Tcp.Defs.{encode_frame, next_frame, extend}
use loft.Handler.Types.{DeviceSession, Call, tcp}
use loft.Handler.Block1.{Table}
use loft.Handler.Route.{Env, Outcome, handle}

-- What a session has done: the Block1 table, the frames written, the upstream calls, the count of frames
-- read, and whether the loop goes on.
pub record Served : Type 0 where
  pub table : Table
  pub written : List (List ℕ)
  pub calls : List Call
  pub frames : ℕ
  pub is_open : Bool

-- The surroundings: the environment at each frame, and whether the peer takes a frame after those before.
pub record World : Type 0 where
  pub env : ℕ → Env
  pub accepts : List (List ℕ) → List ℕ → Bool

-- `stream.write_all(&encode_frame(msg))`; a failure ends the session.
unfoldable pub send : World → Message → Served → Served
send w m s =
    if w.accepts s.written (encode_frame m)
    then record s { written = s.written ++ (encode_frame m ∷ []) }
    else record s { is_open = false }

abbrev pub answer : World → Outcome → Served → Served
answer w o s = send w o.reply (record s { table = o.table; calls = s.calls ++ o.calls })

-- The reply to one message, and what follows it.
unfoldable pub react : World → DeviceSession → Message → Served → Served
react w session m before =
    let s : Served = record before { frames = before.frames + 1 } in
    if m.code == Code.csm
    then s
    else if m.code == Code.ping
    then send w (bare Code.pong m.token) s
    else if m.code == Code.pong
    then s
    else if m.code == Code.release || m.code == Code.abort
    then record s { is_open = false }
    else if is_request m.code
    then answer w (handle (w.env before.frames) m session tcp s.table) s
    else s

-- On a bad frame an abort is written, whether or not that works, and the session ends.
abbrev pub aborted : World → Served → Served
aborted w s = record (send w (bare Code.abort []) s) { is_open = false }

-- The inner loop's body; `go_on` is its next round. The decoder is gone when the session ends.
abbrev pub on_next :
    World
    → DeviceSession
    → (List ℕ → Served → Served × List ℕ)
    → Decoded (Option Message × List ℕ)
    → Served
    → Served × List ℕ
on_next w session go_on (err e) s = (aborted w s, [])
on_next w session go_on stuck s = (s, [])
on_next w session go_on (ok (none, rest)) s = (s, rest)
on_next w session go_on (ok (some m, rest)) s =
    let after = react w session m s in
    let next = go_on rest after in if after.is_open then next else (after, [])

-- The inner loop, which takes every frame that is complete off the buffer.
unfoldable pub drain : World → DeviceSession → ℕ → List ℕ → Served → Served × List ℕ
drain w session zero buf s = (s, buf)
drain w session (suc fuel) buf s = on_next w session (drain w session fuel) (next_frame buf) s

-- One read of the outer loop. A frame has at least two bytes, so the fuel is enough.
unfoldable pub on_read : World → DeviceSession → List ℕ → Served × List ℕ → Served × List ℕ
on_read w session bytes (s, buf) =
    let all = extend buf bytes in drain w session (suc (length all)) all s

-- The outer loop: the reads of the session in order, until one is empty or the session has ended.
unfoldable pub serve : World → DeviceSession → List (List ℕ) → Served × List ℕ → Served × List ℕ
serve w session [] (s, buf) = (s, buf)
serve w session (bytes ∷ reads) (s, buf) =
    let rest = serve w session reads (on_read w session bytes (s, buf)) in
    if not s.is_open || is_empty bytes then (s, buf) else rest

-- The session sends its settings first.
unfoldable pub opening : World → Table → Served
opening w table =
    send w (bare Code.csm [])
      (record { table = table; written = []; calls = []; frames = 0; is_open = true })
