-- ===== src/TcpSession/Handshake.antt =====
-- loft/src/tls_tcp.rs: `connection_thread`, the handshake loop and the session after it.
use loft.Prelude.{
  ℕ, ◌+◌, ◌-◌, Bool, true, false, ◌&&◌, Option, none, some, List, [], ◌∷◌, ltb, if◌then◌else◌,
}
use loft.Psk.{PskEntry}
use loft.Shim.Session.{Credentials}
use loft.TlsCommon.Asked.{ask}
use loft.Handler.Types.{DeviceSession}
use loft.Handler.Block1.{Table}
use loft.TcpSession.{World, Served, serve, opening}
use loft.TcpSession.Guard.{GuardedTcp, Ask, io_all}

pub record SslStream : Type 0 where
  pub tcp : GuardedTcp
  pub credentials : Option Credentials

-- What `accept` and `handshake` give; `other` is the error of `HandshakeError` that sets up nothing.
pub data Accepted : Type 0 where
  complete would_block failure other : Accepted

-- What is outside the code in one attempt: the calls of the socket, the identities asked about, the outcome
-- and the instant after it.
pub record Attempt : Type 0 where
  pub calls : List Ask
  pub asked : List (Option (List ℕ) × List ℕ)
  pub outcome : Accepted
  pub now : ℕ

-- Where the loop is after its attempts.
pub data Shaken : Type 0 where
  pending : SslStream → Shaken
  refused : SslStream → Shaken
  established : SslStream → Shaken

abbrev pub stream_of : Shaken → SslStream
stream_of (pending s) = s
stream_of (refused s) = s
stream_of (established s) = s

unfoldable pub attempt : (List ℕ → Option PskEntry) → Attempt → SslStream → SslStream
unfolding io_all ask
attempt resolver a s = record {
  tcp = io_all a.calls s.tcp;
  credentials = ask resolver a.asked s.credentials;
}

-- The arms of the loop; `rest` are its next attempts.
abbrev pub on_attempt : ℕ → ℕ → ℕ → Accepted → SslStream → Shaken → Shaken
on_attempt started handshake_deadline now complete s rest = established s
on_attempt started handshake_deadline now would_block s rest =
    if ltb handshake_deadline (now - started) then refused s else rest
on_attempt started handshake_deadline now failure s rest = refused s
on_attempt started handshake_deadline now other s rest = refused s

unfoldable pub shake : (List ℕ → Option PskEntry) → ℕ → ℕ → List Attempt → SslStream → Shaken
unfolding attempt
shake resolver started handshake_deadline [] s = pending s
shake resolver started handshake_deadline (a ∷ more) s =
    let after = attempt resolver a s in
    let rest = shake resolver started handshake_deadline more after in
    on_attempt started handshake_deadline a.now a.outcome after rest

abbrev pub guarded : ℕ → ℕ → SslStream
guarded started handshake_deadline = record {
  tcp = record { deadline = started + handshake_deadline; is_armed = true; carried = [] };
  credentials = none;
}

-- The surroundings of a connection: whether the socket's options are set and `Ssl::new` works, the
-- resolver, the attempts, the reads of the session, and what a session meets.
pub record Outside : Type 0 where
  pub is_tuned : Bool
  pub has_ssl : Bool
  pub resolver : List ℕ → Option PskEntry
  pub started : ℕ
  pub attempts : List Attempt
  pub conn_id : ℕ
  pub reads : List (List ℕ)
  pub world : World

-- `authenticated_session`, and the session that it begins.
abbrev pub session_of : ℕ → Option Credentials → Option DeviceSession
session_of conn_id none = none
session_of conn_id (some (identity, token)) =
    some (record { pigeon_id = identity; token = token; conn_id = conn_id })

-- Established sessions read and write without the deadline.
abbrev pub disarmed : SslStream → SslStream
disarmed s = record s { tcp = record s.tcp { is_armed = false } }

-- A session that was served, and its stream.
pub record Connected : Type 0 where
  pub session : DeviceSession
  pub served : Served
  pub stream : SslStream

abbrev pub on_session : Outside → Table → SslStream → Option DeviceSession → Option Connected
on_session o table s none = none
on_session o table s (some session) = some (record {
  session = session;
  served = (serve o.world session o.reads (opening o.world table, [])).0;
  stream = disarmed s;
})

abbrev pub on_shaken : Outside → Table → Shaken → Option Connected
on_shaken o table (pending s) = none
on_shaken o table (refused s) = none
on_shaken o table (established s) = on_session o table s (session_of o.conn_id s.credentials)

-- The session that the thread has served, if it came to one.
unfoldable pub connection_thread : Outside → ℕ → Table → Option Connected
unfolding shake serve opening
connection_thread o handshake_deadline table =
    if o.is_tuned && o.has_ssl
    then on_shaken o table (
        shake o.resolver o.started handshake_deadline o.attempts
          (guarded o.started handshake_deadline))
    else none
