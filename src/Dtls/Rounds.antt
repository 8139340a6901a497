-- ===== src/Dtls/Rounds.antt =====
-- What a round of a connection's loops in loft/src/dtls.rs may do.
use loft.Prelude.{
  ℕ, ◌≡◌, ◌⊎◌, inl, inr, refl, sym, ap, ◌∙◌, Bool, Option, none, some, List, [], ◌∷◌, ◌++◌, All,
  All-append, append-nil, if_ind,
}
use loft.Demux.{SocketAddr}
use loft.Handler.Types.{DeviceSession}
use loft.Datagrams.{process_datagram}
use loft.Datagrams.Process.{process_datagram-IsOwn}
use loft.Shim.Session.{Credentials}
use loft.TlsCommon.Asked.{ask, GrantsPsk, ask-granted}
use loft.Listener.Rounds.{CallsOf, own-CallsOf}
use loft.Dtls.Connection.{
  Thread, finish, prepare, Accepted, complete, want_io, Shake, open_session, disarmed, on_accept,
  shake, Read, bytes_of, want_read, Turn, Shared, Round, reply, conn_of, process, on_read, turn,
}

-- The credentials in a stream, or those of the session that is served.
abbrev pub Has : Thread → Credentials → Type 0
Has t who =
    (t.stream.credentials ≡ some who)
    ⊎ ((s : DeviceSession) × (t.session ≡ some s) × (who ≡ (s.pigeon_id, s.token)))

abbrev of_session : DeviceSession → Credentials
of_session s = (s.pigeon_id, s.token)

-- What stays of a thread.
pub record Kept (P : Credentials → Type 0) (t u : Thread) : Type 0 where
  pub peer : u.peer ≡ t.peer
  pub permit : u.permit ≡ t.permit
  pub replies : u.stream.io.peer ≡ t.stream.io.peer
  pub has : ((who : Credentials) → Has t who → P who) → (who : Credentials) → Has u who → P who

-- Where the datagrams of a list go.
abbrev pub AllTo : SocketAddr → List (SocketAddr × List ℕ) → Type 0
AllTo peer written = All (λ (d : SocketAddr × List ℕ). d.0 ≡ peer) written

module _ (P : Credentials → Type 0) where
  same : (t : Thread) → Kept P t t
  same t = record { peer = refl; permit = refl; replies = refl; has = λ ok. ok }

  finished : (t : Thread) → Kept P t (finish t)
  finished t = record { peer = refl; permit = refl; replies = refl; has = λ ok who h. ok who h }

  pub prepare-Kept :
      (deadline now started : ℕ) (ok : Bool) (t : Thread)
      → Kept P t (prepare deadline now started ok t)
  unfolding prepare
  prepare-Kept deadline now started ok t =
      if_ind (Kept P t) ok
        (λ _. record { peer = refl; permit = refl; replies = refl; has = λ o who h. o who h })
        (λ _. record { peer = refl; permit = refl; replies = refl; has = λ o who h. o who h })

  served :
      (me : Credentials) (s : DeviceSession) {conn_id : ℕ}
      → some (record { pigeon_id = me.0; token = me.1; conn_id = conn_id }) ≡ some s
      → me ≡ (s.pigeon_id, s.token)
  served me s h = ap (λ (o : Option DeviceSession). elim o [ none ↦ me | some r ↦ of_session r ]) h

  open_session-Kept :
      (k : Shake) (t : Thread) (found : Option Credentials)
      → t.stream.credentials ≡ found
      → Kept P t (open_session k (record t { stream = disarmed t.stream }) found)
  open_session-Kept k t none e = record {
    peer = refl;
    permit = refl;
    replies = refl;
    has = λ ok who h. ok who h;
  }
  open_session-Kept k t (some me) e = record {
    peer = refl;
    permit = refl;
    replies = refl;
    has = λ ok who h. elim h [
      | inl held ↦ ok who (inl held)
      | inr (s, mine, it) ↦ ok who (inl (e ∙ ap (λ x. some x) (served me s mine ∙ sym it)))
    ];
  }

  on_accept-Kept :
      (deadline : ℕ) (k : Shake) (t : Thread) (outcome : Accepted)
      → Kept P t (on_accept deadline k t outcome)
  on_accept-Kept deadline k t complete = open_session-Kept k t t.stream.credentials refl
  on_accept-Kept deadline k t want_io = if_ind (Kept P t) _ (λ _. finished t) (λ _. same t)
  on_accept-Kept deadline k t Accepted.failed = finished t

  asked_for : Shake → Thread → Thread
  asked_for k t = record t {
    stream = record t.stream { credentials = ask k.resolver k.asked t.stream.credentials };
  }

  -- A round of the handshake keeps the connection's peer and permit, and leaves only credentials that
  -- were granted.
  pub shake-Kept :
      (deadline : ℕ) (k : Shake) (t : Thread)
      → GrantsPsk P k.resolver
      → Kept P t (shake deadline k t)
  unfolding shake asked_for
  shake-Kept deadline k t grants =
      let next = on_accept-Kept deadline k (asked_for k t) k.outcome in
      record {
        peer = next.peer;
        permit = next.permit;
        replies = next.replies;
        has = λ ok. next.has (λ who h. elim h [
          | inl held ↦
              elim (ask-granted P k.resolver k.asked t.stream.credentials who grants held) [
                | inl granted ↦ granted
                | inr before ↦ ok who (inl before)
              ]
          | inr dev ↦ ok who (inr dev)
        ]);
      }

  -- A round that a session serves.
  pub record Served (peer : SocketAddr) (before after : Round) : Type 0 where
    pub kept : Kept P before.0 after.0
    pub calls :
        ((who : Credentials) → Has before.0 who → P who)
        → CallsOf P before.1.calls
        → CallsOf P after.1.calls
    pub written :
        before.0.stream.io.peer ≡ peer
        → (more : List (SocketAddr × List ℕ)) × (after.1.written ≡ before.1.written ++ more)
          × AllTo peer more

  silent : (peer : SocketAddr) (t u : Thread) (w : Shared) → Kept P t u → Served peer (t, w) (u, w)
  silent peer t u w kept = record {
    kept = kept;
    calls = λ ok h. h;
    written = λ e. ([], sym (append-nil w.written), tt);
  }

  reply-Served :
      (peer : SocketAddr) (k : Turn) (t : Thread) (w : Shared) (bytes : Option (List ℕ))
      → Served peer (t, w) (reply k t w bytes)
  reply-Served peer k t w none = silent peer t t w (same t)
  reply-Served peer k t w (some bytes) =
      if_ind (Served peer (t, w)) k.is_written
        (λ _. record {
          kept = same t;
          calls = λ ok h. h;
          written = λ e. ((t.stream.io.peer, bytes) ∷ [], refl, (e, tt));
        })
        (λ _. silent peer t (finish t) w (finished t))

  process-Served :
      (peer : SocketAddr) (k : Turn) (bytes : List ℕ) (now : ℕ) (t : Thread) (w : Shared)
      (session : Option DeviceSession)
      → t.session ≡ session
      → Served peer (t, w) (process k bytes (record t { last_activity = now }) w session)
  process-Served peer k bytes now t w none e =
      silent peer t _ w
        (record { peer = refl; permit = refl; replies = refl; has = λ ok who h. ok who h })
  process-Served peer k bytes now t w (some s) e =
      let p = process_datagram k.env k.clock s bytes (conn_of t w) in
      let own = process_datagram-IsOwn k.env k.clock s bytes (conn_of t w) in
      let r =
        reply-Served peer k
          (record t { last_activity = now; dedup = p.conn.dedup; next_mid = p.conn.next_mid })
          (record w { table = p.conn.table; calls = w.calls ++ p.calls }) p.sent in
      record {
        kept = record {
          peer = r.kept.peer;
          permit = r.kept.permit;
          replies = r.kept.replies;
          has = λ ok. r.kept.has ok;
        };
        calls = λ ok h. r.calls ok (
            All-append _ w.calls p.calls h
              (own-CallsOf P (of_session s) p.calls (ok (of_session s) (inr (s, e, refl))) own.0));
        written = r.written;
      }

  on_read-Served :
      (peer : SocketAddr) (k : Turn) (t : Thread) (w : Shared) (r : Read)
      → Served peer (t, w) (on_read k t w r)
  on_read-Served peer k t w (bytes_of []) = silent peer t (finish t) w (finished t)
  on_read-Served peer k t w (bytes_of (b ∷ bs)) =
      process-Served peer k (b ∷ bs) k.now t w t.session refl
  on_read-Served peer k t w want_read =
      silent peer t _ w (if_ind (Kept P t) _ (λ _. finished t) (λ _. same t))
  on_read-Served peer k t w Read.failed = silent peer t (finish t) w (finished t)

  -- A round of a session's loop writes to its own peer alone, and makes upstream calls only with
  -- credentials that the session had.
  pub turn-Served :
      (peer : SocketAddr) (k : Turn) (t : Thread) (w : Shared) → Served peer (t, w) (turn k t w)
  unfolding turn
  turn-Served peer k t w = on_read-Served peer k t w k.result
