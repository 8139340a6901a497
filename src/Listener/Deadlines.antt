-- ===== src/Listener/Deadlines.antt =====
-- The bounds on time in loft/src/dtls_mbed.rs: how long a read may wait, and when the loops end.
use loft.Prelude.{
  ℕ, ◌+◌, ◌-◌, ◌≤◌, ◌<◌, ◌≡◌, ◌≢◌, refl, ap, ◌∙◌, Bool, false, Option, none, some, lt→ltb, le→leb,
  pick, skip, arith,
}
use loft.Shim.Timer.{TimerState, remaining, final_expired-waited}
use loft.Shim.Session.{
  Credentials, RecvOutcome, timer_expired, HandshakeStatus, done, want_read, want_write,
  hello_verify_required, handshake_status, take_credentials, negotiated,
}
use loft.Listener.Transport.{
  ConnState, Incoming, timeout, at_most, left_until, budget, is_past, recv_from, recv,
}
use loft.Listener.Library.{Outside}
use loft.Listener.Thread.{
  handshaking, Thread, Shared, Round, finish, library, Shake, establish, wait_on, on_shake, shake,
  unwrap_or_false,
}

at_most-le : (limit : Option ℕ) (b : ℕ) → at_most limit b ≤ b
at_most-le none b = omega arith
at_most-le (some l) b = omega arith

at_most-limit : (limit : Option ℕ) (l b : ℕ) → limit ≡ some l → at_most limit b ≤ l
at_most-limit none l b h = absurd (ground arith)
at_most-limit (some k) l b h = ground arith

-- A read waits no longer than the tick, than what remains of the retransmission timer and than what is
-- left of the handshake's deadline.
pub budget-le :
    (now : ℕ) (timer : TimerState) (io : ConnState)
    → (budget now timer io ≤ io.tick)
      × ((r : ℕ) → remaining now timer ≡ some r → budget now timer io ≤ r)
      × ((d : ℕ) → io.deadline ≡ some d → budget now timer io ≤ d - now)
unfolding budget
budget-le now timer io =
    let inner = at_most (remaining now timer) io.tick in
    let outer = at_most-le (left_until now io.deadline) inner in
    (
      omega (arith, outer, at_most-le (remaining now timer) io.tick),
      (λ r h. omega (arith, outer, at_most-limit (remaining now timer) r io.tick h)),
      (λ d h. at_most-limit (left_until now io.deadline) (d - now) inner (ap (left_until now) h)),
    )

-- Past the deadline of its handshake a session is given no datagram, however many arrive.
pub recv-past_deadline :
    (now later capacity : ℕ) (timer : TimerState) (i : Incoming) (io : ConnState) (d : ℕ)
    → io.deadline ≡ some d
    → d ≤ now
    → recv now later timer capacity i io ≡ (RecvOutcome.failed, io)
unfolding recv
recv-past_deadline now later capacity timer i io d armed past =
    pick _ _ (ap (is_past now) armed ∙ le→leb d now past)

-- A read that waits in vain for all that remains of the retransmission timer reports it as expired.
pub recv-expired :
    (now later capacity : ℕ) (timer : TimerState) (io : ConnState) (r : ℕ)
    → is_past now io.deadline ≡ false
    → io.pending ≡ none
    → ((began : ℕ) → timer.start ≡ some began → began ≤ now)
    → remaining now timer ≡ some r
    → budget now timer io ≡ r
    → now + budget now timer io ≤ later
    → recv now later timer capacity timeout io ≡ (timer_expired, io)
unfolding recv
recv-expired now later capacity timer io r early empty past left whole waited =
    skip _ _ early
    ∙ ap (λ p. recv_from later timer capacity timeout p io) empty
    ∙ ap (λ (x : RecvOutcome). (x, io))
        (pick _ _ (final_expired-waited timer now later r past left (omega (arith, whole, waited))))

over_deadline :
    (deadline : ℕ) (k : Shake) (t : Thread) (w : Shared)
    → deadline < k.now - t.began_at
    → wait_on deadline k t w ≡ (finish t, w)
over_deadline deadline k t w late = pick _ _ (lt→ltb deadline (k.now - t.began_at) late)

establish-phase :
    (conn : ℕ) (k : Shake) (active : Bool) (t : Thread) (w : Shared) (found : Option Credentials)
    → (establish conn k active t w found).0.phase ≢ handshaking
establish-phase conn k active t w none h = absurd (ground arith)
establish-phase conn k active t w (some who) h = absurd (ground arith)

on_shake-phase :
    (deadline conn : ℕ) (k : Shake) (t : Thread) (w : Shared) (status : HandshakeStatus)
    → deadline < k.now - t.began_at
    → (on_shake deadline conn k t w status).0.phase ≢ handshaking
on_shake-phase deadline conn k t w done late h =
    let taken =
      take_credentials (record t.session { io = record t.session.io { deadline = none } }) in
    establish-phase conn k (unwrap_or_false (negotiated k.cid_code k.cid_enabled))
      (record t { session = taken.1 }) w taken.0 h
on_shake-phase deadline conn k t w want_read late h =
    absurd (ground (arith, ap (λ (r : Round). r.0.phase) (over_deadline deadline k t w late), h))
on_shake-phase deadline conn k t w want_write late h =
    absurd (ground (arith, ap (λ (r : Round). r.0.phase) (over_deadline deadline k t w late), h))
on_shake-phase deadline conn k t w hello_verify_required late h = absurd (ground arith)
on_shake-phase deadline conn k t w (HandshakeStatus.failed e) late h = absurd (ground arith)

library-began_at :
    (o : Outside) (k : Shake) (t : Thread) (w : Shared)
    → (library o k.callbacks t w).0.began_at ≡ t.began_at
unfolding library
library-began_at o k t w = refl

-- No round of the handshake loop that ends after the deadline leaves the handshake open, whatever the
-- peer sends and the library answers.
pub shake-ends :
    (o : Outside) (deadline conn : ℕ) (k : Shake) (t : Thread) (w : Shared)
    → deadline < k.now - t.began_at
    → (shake o deadline conn k t w).0.phase ≢ handshaking
unfolding shake
shake-ends o deadline conn k t w late =
    let r = library o k.callbacks t w in
    on_shake-phase deadline conn k r.0 r.1 (handshake_status k.code)
      (omega (arith, late, library-began_at o k t w))
