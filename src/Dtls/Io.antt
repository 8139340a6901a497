-- ===== src/Dtls/Io.antt =====
-- loft/src/dtls.rs: `DgramIo`, the datagrams of a connection as a stream.
use loft.Prelude.{
  ℕ, ◌≤◌, ◌≡◌, Option, some, List, length, ltb, ap, ◌∙◌, le→leb, pick, if◌then◌else◌,
}
use loft.Handler.Types.{seconds}
use loft.Demux.{SocketAddr}
use loft.Listener.Transport.{is_past}

abbrev pub read_tick : ℕ
read_tick = seconds 1

abbrev pub idle_deadline : ℕ
idle_deadline = seconds 300

-- The adapter without its socket and its receiver.
pub record DgramIo : Type 0 where
  pub peer : SocketAddr
  pub tick : ℕ
  pub deadline : Option ℕ

-- What `recv_timeout` gives.
pub data Incoming : Type 0 where
  arrived : List ℕ → Incoming
  timeout disconnected : Incoming

-- `io::Result<usize>` with the bytes; an end of file is `got []`.
pub data ReadResult : Type 0 where
  got : List ℕ → ReadResult
  would_block timed_out end : ReadResult

-- A datagram that does not fit is dropped whole.
abbrev pub receive : ℕ → Incoming → ReadResult
receive capacity (arrived dgram) = if ltb capacity (length dgram) then would_block else got dgram
receive capacity timeout = would_block
receive capacity disconnected = end

-- `DgramIo::read`.
unfoldable pub read : ℕ → ℕ → Incoming → DgramIo → ReadResult
read now capacity incoming io =
    if is_past now io.deadline then timed_out else receive capacity incoming

-- Past the deadline of the handshake no datagram is delivered, however many arrive.
pub read-past_deadline :
    (now capacity : ℕ) (incoming : Incoming) (io : DgramIo) (deadline : ℕ)
    → io.deadline ≡ some deadline
    → deadline ≤ now
    → read now capacity incoming io ≡ timed_out
unfolding read
read-past_deadline now capacity incoming io deadline armed past =
    pick _ _ (ap (is_past now) armed ∙ le→leb deadline now past)
