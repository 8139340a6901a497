-- ===== src/Shim/Session.antt =====
-- mbedtls-ffi-shim/src/session.rs: a session's slot for credentials, its transport, and the meaning of the
-- library's return codes. The pointers, the allocation and the drop of a context are not modelled.
use loft.Prelude.{ℕ, ◌≡◌, Bool, true, Option, none, some, List, ◌||◌, min, if◌then◌else◌, arith}
use loft.Shim.Codes.{
  ℤ, pos, negsuc, int_beq, int_beq_iff, err_ssl_want_read, err_ssl_want_write, err_ssl_timeout,
  err_ssl_hello_verify_required, err_ssl_peer_close_notify, err_ssl_conn_eof, err_net_send_failed,
  err_net_recv_failed, ssl_cid_enabled,
}
use loft.Shim.Timer.{TimerState, new_timer}

pub data RecvOutcome : Type 0 where
  data_of : ℕ → RecvOutcome
  want_read timer_expired closed failed : RecvOutcome

pub data SendOutcome : Type 0 where
  sent : ℕ → SendOutcome
  failed : SendOutcome

pub data HandshakeStatus : Type 0 where
  done want_read want_write hello_verify_required : HandshakeStatus
  failed : ℤ → HandshakeStatus

pub data ReadStatus : Type 0 where
  data_of : ℕ → ReadStatus
  want_read want_write peer_closed : ReadStatus
  failed : ℤ → ReadStatus

-- An identity and a bearer token.
abbrev pub Credentials : Type 0
Credentials = List ℕ × List ℕ

-- `SessionCtx`: the header's slot, the timer and the transport.
pub record Session (C : Type 0) : Type 0 where
  pub credentials : Option Credentials
  pub timer : TimerState
  pub io : C

-- `Session::new`, when the library sets the context up.
abbrev pub new_session : {C : Type 0} → C → Session C
new_session io = record { credentials = none; timer = new_timer; io = io }

-- `Session::reset`: whether it succeeded, and the session. The timer and the transport stay.
abbrev pub reset : {C : Type 0} → ℤ → Session C → Bool × Session C
reset rc s = if int_beq rc (pos 0) then (true, record s { credentials = none }) else (Bool.false, s)

-- `Session::take_credentials`.
abbrev pub take_credentials : {C : Type 0} → Session C → Option Credentials × Session C
take_credentials s = (s.credentials, record s { credentials = none })

-- What `Session::handshake` makes of the library's code.
unfoldable pub handshake_status : ℤ → HandshakeStatus
handshake_status rc =
    if int_beq rc (pos 0)
    then done
    else if int_beq rc err_ssl_want_read
    then HandshakeStatus.want_read
    else if int_beq rc err_ssl_want_write
    then HandshakeStatus.want_write
    else if int_beq rc err_ssl_hello_verify_required
    then hello_verify_required
    else HandshakeStatus.failed rc

-- What `Session::read` makes of the library's code.
unfoldable pub read_status : ℤ → ReadStatus
read_status (pos n) = ReadStatus.data_of n
read_status (negsuc n) =
    if int_beq (negsuc n) err_ssl_want_read
    then ReadStatus.want_read
    else if int_beq (negsuc n) err_ssl_want_write
    then ReadStatus.want_write
    else if int_beq (negsuc n) err_ssl_peer_close_notify || int_beq (negsuc n) err_ssl_conn_eof
    then peer_closed
    else ReadStatus.failed (negsuc n)

-- `Session::write`: whether the library took the bytes.
abbrev pub is_written : ℤ → Bool
is_written (pos n) = true
is_written (negsuc n) = Bool.false

-- `c_int::MAX`.
abbrev pub int_max : ℕ
int_max = 2147483647

-- `send_tramp`; `none` is a panic of the transport.
unfoldable pub send_code : Option SendOutcome → ℤ
send_code none = err_net_send_failed
send_code (some (sent n)) = pos (min n int_max)
send_code (some SendOutcome.failed) = err_net_send_failed

-- `recv_tramp`; `none` is a panic of the transport.
unfoldable pub recv_code : Option RecvOutcome → ℤ
recv_code none = err_net_recv_failed
recv_code (some (RecvOutcome.data_of n)) = pos (min n int_max)
recv_code (some RecvOutcome.want_read) = err_ssl_want_read
recv_code (some timer_expired) = err_ssl_timeout
recv_code (some closed) = pos 0
recv_code (some RecvOutcome.failed) = err_net_recv_failed

-- `Session::peer_cid`: whether an id was negotiated, from the library's code and its `enabled`.
abbrev pub negotiated : ℤ → ℤ → Option Bool
negotiated rc enabled = if int_beq rc (pos 0) then some (int_beq enabled ssl_cid_enabled) else none

-- A handshake is taken for complete only on the library's code 0.
pub handshake_status-done : (rc : ℤ) → handshake_status rc ≡ done → rc ≡ pos 0
unfolding handshake_status
handshake_status-done rc h = ground (arith, int_beq_iff rc (pos 0))
