-- ===== src/Listener/Transport.antt =====
-- loft/src/dtls_mbed.rs: `ConnState`, the transport of a session.
use loft.Prelude.{
  ℕ, ◌-◌, Bool, false, Option, none, some, List, ltb, leb, not, length, min, if◌then◌else◌,
}
use loft.Prelude.Eq.{nat_eq, pair_beq, pair_eq}
use loft.Quota.Defs.{ip_eq}
use loft.Handler.Types.{seconds}
use loft.Demux.{SocketAddr}
use loft.Shim.Timer.{TimerState, final_expired, remaining}
use loft.Shim.Session.{RecvOutcome, data_of, want_read, timer_expired, closed, failed}

abbrev pub read_tick : ℕ
read_tick = seconds 1

abbrev pub idle_deadline : ℕ
idle_deadline = seconds 300

-- A datagram and where it came from.
abbrev pub Delivery : Type 0
Delivery = List ℕ × SocketAddr

-- The socket and the receiver of the channel are left out: what they give is an argument.
pub record ConnState : Type 0 where
  pub committed_peer : SocketAddr
  pub staged_peer : SocketAddr
  pub pending : Option Delivery
  pub tick : ℕ
  pub deadline : Option ℕ

abbrev pub addr_beq : SocketAddr → SocketAddr → Bool
addr_beq a b = pair_beq a b

-- `ConnState::take_migration`.
unfoldable pub take_migration : ConnState → Option SocketAddr × ConnState
take_migration io =
    if not (addr_beq io.staged_peer io.committed_peer)
    then (some io.staged_peer, record io { committed_peer = io.staged_peer })
    else (none, io)

-- What `recv_timeout` on the session's channel gives.
pub data Incoming : Type 0 where
  arrived : Delivery → Incoming
  timeout disconnected : Incoming

abbrev pub at_most : Option ℕ → ℕ → ℕ
at_most none budget = budget
at_most (some limit) budget = min budget limit

abbrev pub left_until : ℕ → Option ℕ → Option ℕ
left_until now none = none
left_until now (some deadline) = some (deadline - now)

-- For how long `recv` may wait.
unfoldable pub budget : ℕ → TimerState → ConnState → ℕ
budget now timer io = at_most (left_until now io.deadline) (at_most (remaining now timer) io.tick)

abbrev pub is_past : ℕ → Option ℕ → Bool
is_past now none = false
is_past now (some deadline) = leb deadline now

-- A datagram that does not fit is dropped whole.
abbrev pub deliver : ℕ → Delivery → ConnState → RecvOutcome × ConnState
deliver capacity (dgram, src) io =
    if ltb capacity (length dgram)
    then (want_read, io)
    else (data_of (length dgram), record io { staged_peer = src })

-- The channel is read when nothing is pending; the status is asked for at the instant `later`.
abbrev pub recv_channel : ℕ → TimerState → ℕ → Incoming → ConnState → RecvOutcome × ConnState
recv_channel later timer capacity (arrived d) io = deliver capacity d io
recv_channel later timer capacity timeout io =
    (if final_expired later timer then timer_expired else want_read, io)
recv_channel later timer capacity disconnected io = (closed, io)

abbrev pub recv_from :
    ℕ → TimerState → ℕ → Incoming → Option Delivery → ConnState → RecvOutcome × ConnState
recv_from later timer capacity incoming none io = recv_channel later timer capacity incoming io
recv_from later timer capacity incoming (some d) io =
    deliver capacity d (record io { pending = none })

-- `ConnState::recv`, entered at `now`.
unfoldable pub recv : ℕ → ℕ → TimerState → ℕ → Incoming → ConnState → RecvOutcome × ConnState
recv now later timer capacity incoming io =
    if is_past now io.deadline
    then (failed, io)
    else recv_from later timer capacity incoming io.pending io
