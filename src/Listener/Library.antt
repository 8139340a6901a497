-- ===== src/Listener/Library.antt =====
-- mbedtls-ffi-shim/src/session.rs: what a call of the library may do to a session of the listener.
use loft.Prelude.{ℕ, ◌≡◌, Bool, Option, List, [], ◌∷◌, ◌++◌, if◌then◌else◌}
use loft.Demux.{SocketAddr}
use loft.Shim.Codes.{ℤ, pos}
use loft.Shim.Timer.{set}
use loft.Shim.Session.{Session, Credentials}
use loft.Shim.Config.{
  KeyCalls, ResolvedPsk, Resolution, resolved, identity_bytes, psk_tramp, cookie_checked,
}
use loft.Listener.Transport.{ConnState, Incoming, recv}

-- What surrounds the library: the resolver behind the PSK callback, and `mbedtls_ssl_cookie_check` of a
-- cookie for a transport id.
pub record Outside : Type 0 where
  pub resolve : List ℕ → Resolution
  pub check : List ℕ → List ℕ → ℤ

-- A session in a call: the configuration's verified flag, the transport id that was set, and the
-- datagrams sent.
pub record Context : Type 0 where
  pub session : Session ConnState
  pub verified : Bool
  pub client_id : List ℕ
  pub sent : List (SocketAddr × List ℕ)

-- The callbacks, with what the library passes to them and what the system gives them.
pub data Callback : Type 0 where
  ask_psk : Option (List ℕ) → KeyCalls → Callback
  check_cookie : List ℕ → Callback
  receive : ℕ → ℕ → ℕ → Incoming → Callback
  send_record : List ℕ → Bool → Callback
  set_timer : ℕ → ℕ → ℕ → Callback

-- `ConnState::send` goes to the committed peer.
abbrev pub send : Bool → List ℕ → Context → Context
send ok bytes x =
    if ok then record x { sent = x.sent ++ ((x.session.io.committed_peer, bytes) ∷ []) } else x

abbrev pub on_callback : Outside → Context → Callback → Context
on_callback o x (ask_psk id k) = record x { session = (psk_tramp o.resolve k id x.session).session }
on_callback o x (check_cookie cookie) = record x {
  verified = cookie_checked (o.check cookie x.client_id) x.verified;
}
on_callback o x (receive now later capacity incoming) = record x {
  session = record x.session {
    io = (recv now later x.session.timer capacity incoming x.session.io).1;
  };
}
on_callback o x (send_record bytes ok) = send ok bytes x
on_callback o x (set_timer now int_ms fin_ms) = record x {
  session = record x.session { timer = set now int_ms fin_ms };
}

unfoldable pub call : Outside → List Callback → Context → Context
call o [] x = x
call o (c ∷ cs) x = call o cs (on_callback o x c)

-- Where the credentials of a session come from: the callbacks, or before them.
pub data Authenticated (o : Outside) (who : Credentials) : List Callback → Type 0 where
  here :
      (id : Option (List ℕ)) (k : KeyCalls) (cs : List Callback) (r : ResolvedPsk)
      → o.resolve (identity_bytes id) ≡ resolved r
      → who ≡ (r.identity, r.token)
      → Authenticated o who (ask_psk id k ∷ cs)
  there :
      (c : Callback) (cs : List Callback) → Authenticated o who cs → Authenticated o who (c ∷ cs)

-- A callback among several checked this cookie with success.
pub data Checked (o : Outside) (client_id : List ℕ) : List Callback → Type 0 where
  here :
      (cookie : List ℕ) (cs : List Callback)
      → o.check cookie client_id ≡ pos 0
      → Checked o client_id (check_cookie cookie ∷ cs)
  there :
      (c : Callback) (cs : List Callback) → Checked o client_id cs → Checked o client_id (c ∷ cs)
