-- ===== src/TcpSession/Confined.antt =====
-- Whose upstream calls a connection of loft/src/tls_tcp.rs makes.
use loft.Prelude.{
  ℕ, zero, suc, ◌-◌, ltb, ◌≡◌, inl, inr, refl, false, not, ◌&&◌, ◌||◌, Option, none, some, List, [],
  ◌∷◌, All, All-append, length, is_empty, if_ind, ◌==◌, arith,
}
use loft.Psk.{PskEntry}
use loft.Shim.Session.{Credentials}
use loft.TlsCommon.Asked.{ask-granted}
use loft.Coap.Code
use loft.Coap.Code.{is_request}
use loft.Coap.Message.{Message, bare}
use loft.Coap.Wire.Defs.{Decoded, ok, err, stuck}
use loft.Coap.Tcp.Defs.{encode_frame, next_frame, extend}
use loft.Handler.Types.{DeviceSession, Call, tcp}
use loft.Handler.Block1.{Table}
use loft.Handler.Route.{handle}
use loft.Handler.Route.Identity
use loft.Handler.Route.Identity.{handle-Confined}
use loft.TcpSession.{World, Served, send, react, on_next, drain, on_read, serve, opening}
use loft.TcpSession.Handshake.{
  SslStream, Accepted, complete, would_block, failure, other, Attempt, Shaken, pending, refused,
  established, stream_of, attempt, on_attempt, shake, guarded, Outside, Connected, session_of,
  on_session, on_shaken, connection_thread,
}

-- Every call carries the session's identity and bearer token.
abbrev pub AllOwn : DeviceSession → List Call → Type 0
AllOwn session calls =
    All (λ (c : Call). (c.pigeon_id ≡ session.pigeon_id) × (c.bearer ≡ session.token)) calls

confined-AllOwn :
    {session : DeviceSession} {path : List (List ℕ)} {calls : List Call}
    → Identity.Confined session path calls
    → AllOwn session calls
confined-AllOwn Identity.Confined.silent = tt
confined-AllOwn (Identity.Confined.own c who token named) = ((who, token), tt)

module _ (w : World) (session : DeviceSession) where
  send-calls : (m : Message) (s : Served) → (send w m s).calls ≡ s.calls
  unfolding send
  send-calls m s =
      if_ind (λ (r : Served). r.calls ≡ s.calls) (w.accepts s.written (encode_frame m)) (λ _. refl)
        (λ _. refl)

  sent-AllOwn :
      (m : Message) (s : Served) → AllOwn session s.calls → AllOwn session (send w m s).calls
  sent-AllOwn m s h = rw (send-calls m s) h

  react-AllOwn :
      (m : Message) (s : Served)
      → AllOwn session s.calls
      → AllOwn session (react w session m s).calls
  unfolding react
  react-AllOwn m s h =
      let own = λ (r : Served). AllOwn session r.calls in
      let made = handle (w.env s.frames) m session tcp s.table in
      if_ind own (m.code == Code.csm) (λ _. h)
        (λ _.
          if_ind own (m.code == Code.ping) (λ _. sent-AllOwn (bare Code.pong m.token) _ h)
            (λ _.
              if_ind own (m.code == Code.pong) (λ _. h)
                (λ _.
                  if_ind own (m.code == Code.release || m.code == Code.abort) (λ _. h)
                    (λ _.
                      if_ind own (is_request m.code)
                        (λ _. sent-AllOwn made.reply _ (
                          All-append _ s.calls made.calls h (
                            confined-AllOwn
                              (handle-Confined (w.env s.frames) m session tcp s.table))))
                        (λ _. h)))))

  abbrev Own : Served × List ℕ → Type 0
  Own r = AllOwn session r.0.calls

  on_next-AllOwn :
      (go_on : List ℕ → Served → Served × List ℕ) (d : Decoded (Option Message × List ℕ))
      (s : Served)
      → ((rest : List ℕ) (t : Served) → AllOwn session t.calls → Own (go_on rest t))
      → AllOwn session s.calls
      → Own (on_next w session go_on d s)
  on_next-AllOwn go_on (err e) s k h = sent-AllOwn (bare Code.abort []) s h
  on_next-AllOwn go_on stuck s k h = h
  on_next-AllOwn go_on (ok (none, rest)) s k h = h
  on_next-AllOwn go_on (ok (some m, rest)) s k h =
      let after = react w session m s in
      if_ind Own after.is_open (λ _. k rest after (react-AllOwn m s h)) (λ _. react-AllOwn m s h)

  drain-AllOwn :
      (fuel : ℕ) (buf : List ℕ) (s : Served)
      → AllOwn session s.calls
      → Own (drain w session fuel buf s)
  unfolding drain
  drain-AllOwn zero buf s h = h
  drain-AllOwn (suc fuel) buf s h =
      on_next-AllOwn (drain w session fuel) (next_frame buf) s (drain-AllOwn fuel) h

  serve-AllOwn :
      (reads : List (List ℕ)) (s : Served) (buf : List ℕ)
      → AllOwn session s.calls
      → Own (serve w session reads (s, buf))
  unfolding serve on_read
  serve-AllOwn [] s buf h = h
  serve-AllOwn (bytes ∷ reads) s buf h =
      let r = on_read w session bytes (s, buf) in
      if_ind Own (not s.is_open || is_empty bytes) (λ _. h)
        (λ _.
          serve-AllOwn reads r.0 r.1
            (drain-AllOwn (suc (length (extend buf bytes))) (extend buf bytes) s h))

-- The resolver gave this token for this identity.
abbrev pub Granted : (List ℕ → Option PskEntry) → Credentials → Type 0
Granted resolver who = (e : PskEntry) × (resolver who.0 ≡ some e) × (e.token ≡ who.1)

module _ (resolver : List ℕ → Option PskEntry) where
  abbrev IsEarned : SslStream → Type 0
  IsEarned s = (who : Credentials) → s.credentials ≡ some who → Granted resolver who

  attempt-IsEarned : (a : Attempt) (s : SslStream) → IsEarned s → IsEarned (attempt resolver a s)
  unfolding attempt
  attempt-IsEarned a s h who held =
      elim (ask-granted (Granted resolver) resolver a.asked s.credentials who
        (λ identity e hit. (e, hit, refl)) held) [
          | inl granted ↦ granted
          | inr before ↦ h who before
        ]

  on_attempt-IsEarned :
      (started limit now : ℕ) (outcome : Accepted) (s : SslStream) (rest : Shaken)
      → IsEarned s
      → IsEarned (stream_of rest)
      → IsEarned (stream_of (on_attempt started limit now outcome s rest))
  on_attempt-IsEarned started limit now complete s rest h k = h
  on_attempt-IsEarned started limit now would_block s rest h k =
      if_ind (λ r. IsEarned (stream_of r)) (ltb limit (now - started)) (λ _. h) (λ _. k)
  on_attempt-IsEarned started limit now failure s rest h k = h
  on_attempt-IsEarned started limit now other s rest h k = h

  shake-IsEarned :
      (started limit : ℕ) (attempts : List Attempt) (s : SslStream)
      → IsEarned s
      → IsEarned (stream_of (shake resolver started limit attempts s))
  unfolding shake
  shake-IsEarned started limit [] s h = h
  shake-IsEarned started limit (a ∷ more) s h =
      let now = attempt-IsEarned a s h in
      on_attempt-IsEarned started limit a.now a.outcome (attempt resolver a s) _ now
        (shake-IsEarned started limit more (attempt resolver a s) now)

-- What a connection that came to a session has done.
pub record Confined (resolver : List ℕ → Option PskEntry) (c : Connected) : Type 0 where
  pub granted : Granted resolver (c.session.pigeon_id, c.session.token)
  pub own : AllOwn c.session c.served.calls
  pub unguarded : c.stream.tcp.is_armed ≡ false

abbrev IsConfined : (List ℕ → Option PskEntry) → Option Connected → Type 0
IsConfined resolver none = Unit {0}
IsConfined resolver (some c) = Confined resolver c

opening-calls : (w : World) (table : Table) → (opening w table).calls ≡ []
unfolding opening
opening-calls w table =
    send-calls w (record { pigeon_id = []; token = []; conn_id = 0 }) (bare Code.csm []) _

module _ (o : Outside) (table : Table) where
  on_session-IsConfined :
      (s : SslStream) (found : Option Credentials)
      → ((who : Credentials) → found ≡ some who → Granted o.resolver who)
      → IsConfined o.resolver (on_session o table s (session_of o.conn_id found))
  on_session-IsConfined s none earned = tt
  on_session-IsConfined s (some (identity, token)) earned =
      let session : DeviceSession = record {
        pigeon_id = identity;
        token = token;
        conn_id = o.conn_id;
      } in
      record {
        granted = earned (identity, token) refl;
        own =
            serve-AllOwn o.world session o.reads (opening o.world table) []
              (rw (opening-calls o.world table) tt);
        unguarded = refl;
      }

  on_shaken-IsConfined :
      (r : Shaken) → IsEarned o.resolver (stream_of r) → IsConfined o.resolver (on_shaken o table r)
  on_shaken-IsConfined (pending s) earned = tt
  on_shaken-IsConfined (refused s) earned = tt
  on_shaken-IsConfined (established s) earned = on_session-IsConfined s s.credentials earned

  ended-IsConfined : (limit : ℕ) → IsConfined o.resolver (connection_thread o limit table)
  unfolding connection_thread
  ended-IsConfined limit =
      if_ind (IsConfined o.resolver) (o.is_tuned && o.has_ssl)
        (λ _.
          on_shaken-IsConfined
            (shake o.resolver o.started limit o.attempts (guarded o.started limit))
            (shake-IsEarned o.resolver o.started limit o.attempts (guarded o.started limit)
              (λ who h. absurd (ground arith))))
        (λ _. tt)

-- A connection that comes to a session serves it under an identity and a token that the resolver gave in
-- that connection's handshake, every upstream call it makes carries both, and its socket is no longer
-- under the deadline.
pub connection_thread-Confined :
    (o : Outside) (table : Table) (limit : ℕ) (c : Connected)
    → connection_thread o limit table ≡ some c
    → Confined o.resolver c
connection_thread-Confined o table limit c h = rw h at (ended-IsConfined o table limit)
