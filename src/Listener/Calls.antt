-- ===== src/Listener/Calls.antt =====
-- What one call of the library can and cannot do to a session of the listener, whatever its callbacks are.
use loft.Prelude.{
  ℕ, ◌≡◌, ◌⊎◌, inl, inr, refl, ◌∙◌, true, false, Option, none, some, List, [], ◌∷◌, All, All-append,
  if_ind, Bool-cases, arith,
}
use loft.Demux.{SocketAddr}
use loft.Shim.Codes.{pos, int_beq, int_beq_iff}
use loft.Shim.Timer.{TimerState}
use loft.Shim.Session.{Session, Credentials, RecvOutcome}
use loft.Shim.Config.{
  ResolvedPsk, KeyCalls, Resolution, resolved, PskAnswer, Answered, psk_tramp-Answered,
  cookie_checked,
}
use loft.Listener.Transport.{
  ConnState, Delivery, Incoming, arrived, timeout, disconnected, deliver, recv_channel, recv_from,
  recv,
}
use loft.Listener.Library.{
  Outside, Context, Callback, ask_psk, check_cookie, receive, send_record, set_timer, on_callback,
  call, Authenticated, Checked,
}

-- What `recv` leaves of the transport is the transport but for its source of the last datagram and its
-- pending datagram.
pub record SameRoute (before after : ConnState) : Type 0 where
  pub committed : after.committed_peer ≡ before.committed_peer
  pub tick : after.tick ≡ before.tick
  pub deadline : after.deadline ≡ before.deadline

same : (io : ConnState) → SameRoute io io
same io = record { committed = refl; tick = refl; deadline = refl }

deliver-SameRoute :
    (capacity : ℕ) (d : Delivery) (io : ConnState) → SameRoute io (deliver capacity d io).1
deliver-SameRoute capacity d io =
    if_ind (λ (r : RecvOutcome × ConnState). SameRoute io r.1) _ (λ _. same io)
      (λ _. record { committed = refl; tick = refl; deadline = refl })

recv_channel-SameRoute :
    (later : ℕ) (timer : TimerState) (capacity : ℕ) (i : Incoming) (io : ConnState)
    → SameRoute io (recv_channel later timer capacity i io).1
recv_channel-SameRoute later timer capacity (arrived d) io = deliver-SameRoute capacity d io
recv_channel-SameRoute later timer capacity timeout io = same io
recv_channel-SameRoute later timer capacity disconnected io = same io

recv_from-SameRoute :
    (later : ℕ) (timer : TimerState) (capacity : ℕ) (i : Incoming) (p : Option Delivery)
    (io : ConnState)
    → SameRoute io (recv_from later timer capacity i p io).1
recv_from-SameRoute later timer capacity i none io =
    recv_channel-SameRoute later timer capacity i io
recv_from-SameRoute later timer capacity i (some d) io =
    let r = deliver-SameRoute capacity d (record io { pending = none }) in
    record { committed = r.committed; tick = r.tick; deadline = r.deadline }

pub recv-SameRoute :
    (now later : ℕ) (timer : TimerState) (capacity : ℕ) (i : Incoming) (io : ConnState)
    → SameRoute io (recv now later timer capacity i io).1
unfolding recv
recv-SameRoute now later timer capacity i io =
    if_ind (λ (r : RecvOutcome × ConnState). SameRoute io r.1) _ (λ _. same io)
      (λ _. recv_from-SameRoute later timer capacity i io.pending io)

-- What a PSK callback leaves of the credentials and the transport.
Answered-credentials :
    {C : Type 0} {resolve : List ℕ → Resolution} {k : KeyCalls} {identity : List ℕ} {s : Session C}
    {a : PskAnswer C} (who : Credentials)
    → Answered resolve k identity s a
    → a.session.credentials ≡ some who
    → ((r : ResolvedPsk) × (resolve identity ≡ resolved r) × (who ≡ (r.identity, r.token)))
      ⊎ (s.credentials ≡ some who)
Answered-credentials who (Answered.accepted r e installed) h = inl (r, e, ground arith)
Answered-credentials who (Answered.refused why) h = inr h

Answered-io :
    {C : Type 0} {resolve : List ℕ → Resolution} {k : KeyCalls} {identity : List ℕ} {s : Session C}
    {a : PskAnswer C}
    → Answered resolve k identity s a
    → a.session.io ≡ s.io
Answered-io (Answered.accepted r e installed) = refl
Answered-io (Answered.refused why) = refl

on_callback-credentials :
    (o : Outside) (c : Callback) (cs : List Callback) (x : Context) (who : Credentials)
    → (on_callback o x c).session.credentials ≡ some who
    → Authenticated o who (c ∷ cs) ⊎ (x.session.credentials ≡ some who)
on_callback-credentials o (ask_psk id k) cs x who h =
    elim (Answered-credentials who (psk_tramp-Answered o.resolve k id x.session) h) [
      | inl (r, e, it) ↦ inl (Authenticated.here id k cs r e it)
      | inr earlier ↦ inr earlier
    ]
on_callback-credentials o (check_cookie cookie) cs x who h = inr h
on_callback-credentials o (receive now later capacity incoming) cs x who h = inr h
on_callback-credentials o (send_record bytes true) cs x who h = inr h
on_callback-credentials o (send_record bytes false) cs x who h = inr h
on_callback-credentials o (set_timer now int_ms fin_ms) cs x who h = inr h

-- After a call, the credentials of a session are those of an identity that the peer named in that call
-- and that was resolved, or they were there before.
pub call-credentials :
    (o : Outside) (cs : List Callback) (x : Context) (who : Credentials)
    → (call o cs x).session.credentials ≡ some who
    → Authenticated o who cs ⊎ (x.session.credentials ≡ some who)
unfolding call
call-credentials o [] x who h = inr h
call-credentials o (c ∷ cs) x who h = elim (call-credentials o cs (on_callback o x c) who h) [
  | inl later ↦ inl (Authenticated.there c cs later)
  | inr then_ ↦ on_callback-credentials o c cs x who then_
]

on_callback-client_id :
    (o : Outside) (c : Callback) (x : Context) → (on_callback o x c).client_id ≡ x.client_id
on_callback-client_id o (ask_psk id k) x = refl
on_callback-client_id o (check_cookie cookie) x = refl
on_callback-client_id o (receive now later capacity incoming) x = refl
on_callback-client_id o (send_record bytes true) x = refl
on_callback-client_id o (send_record bytes false) x = refl
on_callback-client_id o (set_timer now int_ms fin_ms) x = refl

on_callback-verified :
    (o : Outside) (c : Callback) (cs : List Callback) (x : Context)
    → (on_callback o x c).verified ≡ true
    → Checked o x.client_id (c ∷ cs) ⊎ (x.verified ≡ true)
unfolding cookie_checked
on_callback-verified o (ask_psk id k) cs x h = inr h
on_callback-verified o (check_cookie cookie) cs x h =
    elim (Bool-cases (int_beq (o.check cookie x.client_id) (pos 0))) [
      | inl ok ↦
          inl (Checked.here cookie cs ((int_beq_iff (o.check cookie x.client_id) (pos 0)).0 ok))
      | inr bad ↦ inr (rw bad at h)
    ]
on_callback-verified o (receive now later capacity incoming) cs x h = inr h
on_callback-verified o (send_record bytes true) cs x h = inr h
on_callback-verified o (send_record bytes false) cs x h = inr h
on_callback-verified o (set_timer now int_ms fin_ms) cs x h = inr h

-- The flag is raised in a call only by a cookie that is valid for the transport id of the session.
pub call-verified :
    (o : Outside) (cs : List Callback) (x : Context)
    → (call o cs x).verified ≡ true
    → Checked o x.client_id cs ⊎ (x.verified ≡ true)
unfolding call
call-verified o [] x h = inr h
call-verified o (c ∷ cs) x h = elim (call-verified o cs (on_callback o x c) h) [
  | inl later ↦ inl (Checked.there c cs (rw (on_callback-client_id o c x) at later))
  | inr then_ ↦ on_callback-verified o c cs x then_
]

-- The datagrams of a call: where they go.
abbrev pub AllTo : SocketAddr → List (SocketAddr × List ℕ) → Type 0
AllTo peer sent = All (λ (d : SocketAddr × List ℕ). d.0 ≡ peer) sent

pub record Pinned (before after : Context) : Type 0 where
  pub route : SameRoute before.session.io after.session.io
  pub replies :
      AllTo before.session.io.committed_peer before.sent
      → AllTo before.session.io.committed_peer after.sent

on_callback-Pinned : (o : Outside) (c : Callback) (x : Context) → Pinned x (on_callback o x c)
on_callback-Pinned o (ask_psk id k) x =
    let e = Answered-io (psk_tramp-Answered o.resolve k id x.session) in
    record { route = rw e (same x.session.io); replies = λ h. h }
on_callback-Pinned o (check_cookie cookie) x = record {
  route = same x.session.io;
  replies = λ h. h;
}
on_callback-Pinned o (receive now later capacity incoming) x = record {
  route = recv-SameRoute now later x.session.timer capacity incoming x.session.io;
  replies = λ h. h;
}
on_callback-Pinned o (send_record bytes true) x = record {
  route = same x.session.io;
  replies = λ h. All-append _ x.sent _ h (refl, tt);
}
on_callback-Pinned o (send_record bytes false) x = record {
  route = same x.session.io;
  replies = λ h. h;
}
on_callback-Pinned o (set_timer now int_ms fin_ms) x = record {
  route = same x.session.io;
  replies = λ h. h;
}

-- A call moves neither the peer that replies go to nor the deadline, whatever arrives in it and from
-- where, and all that it sends goes to that peer.
pub call-Pinned : (o : Outside) (cs : List Callback) (x : Context) → Pinned x (call o cs x)
unfolding call
call-Pinned o [] x = record { route = same x.session.io; replies = λ h. h }
call-Pinned o (c ∷ cs) x =
    let first = on_callback-Pinned o c x in
    let rest = call-Pinned o cs (on_callback o x c) in
    record {
      route = record {
        committed = rest.route.committed ∙ first.route.committed;
        tick = rest.route.tick ∙ first.route.tick;
        deadline = rest.route.deadline ∙ first.route.deadline;
      };
      replies = λ h.
          rw first.route.committed at (rest.replies (rw first.route.committed (first.replies h)));
    }
