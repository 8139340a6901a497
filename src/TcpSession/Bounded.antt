-- ===== src/TcpSession/Bounded.antt =====
-- How long the handshake of loft/src/tls_tcp.rs lasts.
use loft.Prelude.{
  ℕ, ◌+◌, ◌*◌, ◌-◌, ◌≤◌, ◌<◌, ◌≡◌, ◌≢◌, refl, true, false, Option, none, some, List, [], ◌∷◌, All,
  All-append, length, ltb, Bool-cases, inl, inr, arith,
}
use loft.Handler.Types.{seconds}
use loft.Psk.{PskEntry}
use loft.TcpSession.Guard.{
  Transfer, GuardedTcp, carry, expired, read, write, Ask, to_read, to_write, io, io_all,
}
use loft.TcpSession.Handshake.{
  SslStream, Accepted, complete, would_block, failure, other, Attempt, Shaken, pending, stream_of,
  attempt, on_attempt, shake, guarded,
}

-- `HANDSHAKE_TICK`.
abbrev pub handshake_tick : ℕ
handshake_tick = seconds 1

-- A transfer that began before the deadline, and ended within a tick of it.
abbrev pub Timely : ℕ → ℕ × ℕ × Transfer → Type 0
Timely limit x = (x.0 < limit) × (x.1 < limit + handshake_tick)

-- The socket's timeouts of a tick return from every call that OpenSSL makes within it.
abbrev pub IsPrompt : Ask → Type 0
IsPrompt (to_read now later got) = later ≤ now + handshake_tick
IsPrompt (to_write now later got) = later ≤ now + handshake_tick

-- Armed with this deadline, and all that was carried is timely.
pub record IsInTime (limit : ℕ) (g : GuardedTcp) : Type 0 where
  pub armed : g.is_armed ≡ true
  pub due : g.deadline ≡ limit
  pub early : All (Timely limit) g.carried

carry-IsInTime :
    (limit now later : ℕ) (way : List ℕ → Transfer) (got : Option (List ℕ)) (g : GuardedTcp)
    → now < limit
    → later ≤ now + handshake_tick
    → IsInTime limit g
    → IsInTime limit (carry way now later got g).1
carry-IsInTime limit now later way none g fresh prompt h = h
carry-IsInTime limit now later way (some bytes) g fresh prompt h = record {
  armed = h.armed;
  due = h.due;
  early = All-append (Timely limit) g.carried _ h.early ((fresh, omega (arith, fresh, prompt)), tt);
}

fresh_of : (limit now : ℕ) (g : GuardedTcp) → IsInTime limit g → expired now g ≡ false → now < limit
unfolding expired
fresh_of limit now g h early = ground (arith, h.armed, h.due, early)

io-IsInTime :
    (limit : ℕ) (a : Ask) (g : GuardedTcp)
    → IsPrompt a
    → IsInTime limit g
    → IsInTime limit (io a g).1
unfolding io read write
io-IsInTime limit (to_read now later got) g prompt h = elim (Bool-cases (expired now g)) [
  | inl late ↦ rw late h
  | inr early ↦ rw early (
      carry-IsInTime limit now later Transfer.received got g (fresh_of limit now g h early) prompt
        h)
]
io-IsInTime limit (to_write now later got) g prompt h = elim (Bool-cases (expired now g)) [
  | inl late ↦ rw late h
  | inr early ↦
      rw early
        (carry-IsInTime limit now later Transfer.sent got g (fresh_of limit now g h early) prompt h)
]

io_all-IsInTime :
    (limit : ℕ) (asks : List Ask) (g : GuardedTcp)
    → All IsPrompt asks
    → IsInTime limit g
    → IsInTime limit (io_all asks g)
unfolding io_all
io_all-IsInTime limit [] g prompt h = h
io_all-IsInTime limit (a ∷ more) g prompt h =
    io_all-IsInTime limit more (io a g).1 prompt.1 (io-IsInTime limit a g prompt.0 h)

module _ (resolver : List ℕ → Option PskEntry) (started handshake_deadline : ℕ) where
  on_attempt-IsInTime :
      (limit now : ℕ) (outcome : Accepted) (s : SslStream) (rest : Shaken)
      → IsInTime limit s.tcp
      → IsInTime limit (stream_of rest).tcp
      → IsInTime limit (stream_of (on_attempt started handshake_deadline now outcome s rest)).tcp
  on_attempt-IsInTime limit now complete s rest h k = h
  on_attempt-IsInTime limit now would_block s rest h k =
      elim (Bool-cases (ltb handshake_deadline (now - started))) [
        | inl late ↦ rw late h
        | inr early ↦ rw early k
      ]
  on_attempt-IsInTime limit now failure s rest h k = h
  on_attempt-IsInTime limit now other s rest h k = h

  shake-IsInTime :
      (limit : ℕ) (attempts : List Attempt) (s : SslStream)
      → All (λ (a : Attempt). All IsPrompt a.calls) attempts
      → IsInTime limit s.tcp
      → IsInTime limit (stream_of (shake resolver started handshake_deadline attempts s)).tcp
  unfolding shake attempt
  shake-IsInTime limit [] s prompt h = h
  shake-IsInTime limit (a ∷ more) s prompt h =
      let now = io_all-IsInTime limit a.calls s.tcp prompt.0 h in
      on_attempt-IsInTime limit a.now a.outcome (attempt resolver a s) _ now
        (shake-IsInTime limit more (attempt resolver a s) prompt.1 now)

  -- If the socket's timeouts return from each call within a tick, then whatever OpenSSL asks of the socket
  -- and however the peer paces its bytes, the handshake begins no read or write that carries bytes at or
  -- after its deadline, and carries none a tick after it.
  pub shake-in_time :
      (attempts : List Attempt)
      → All (λ (a : Attempt). All IsPrompt a.calls) attempts
      → All
          (Timely (started + handshake_deadline))
          (stream_of (
            shake resolver started handshake_deadline attempts
              (guarded started handshake_deadline))).tcp.carried
  shake-in_time attempts prompt =
      (shake-IsInTime (started + handshake_deadline) attempts (guarded started handshake_deadline)
        prompt (record { armed = refl; due = refl; early = tt })).early

-- An attempt surfaces as blocked only after a tick of silence, which is what the socket's timeouts give.
unfoldable pub Paced : ℕ → List Attempt → Type 0
Paced since [] = Unit {0}
Paced since (a ∷ more) =
    (a.outcome ≡ would_block → since + handshake_tick ≤ a.now) × Paced a.now more

module _ (resolver : List ℕ → Option PskEntry) (started handshake_deadline : ℕ) where
  on_attempt-ends :
      (since now : ℕ) (outcome : Accepted) (s : SslStream) (rest : Shaken) (t : SslStream)
      → started ≤ since
      → (outcome ≡ would_block → since + handshake_tick ≤ now)
      → (started ≤ now
          → now ≤ started + handshake_deadline
          → since + handshake_tick ≤ now
          → rest ≢ pending t)
      → on_attempt started handshake_deadline now outcome s rest ≢ pending t
  on_attempt-ends since now complete s rest t after slow ends h = absurd (ground arith)
  on_attempt-ends since now would_block s rest t after slow ends h =
      elim (Bool-cases (ltb handshake_deadline (now - started))) [
        | inl late ↦ absurd (ground (arith, rw late at h))
        | inr early ↦
            ends (omega (arith, after, slow refl)) (ground arith) (slow refl) (rw early at h)
      ]
  on_attempt-ends since now failure s rest t after slow ends h = absurd (ground arith)
  on_attempt-ends since now other s rest t after slow ends h = absurd (ground arith)

  ends_since :
      (since : ℕ) (attempts : List Attempt) (s t : SslStream)
      → Paced since attempts
      → started ≤ since
      → since ≤ started + handshake_deadline
      → started + handshake_deadline < since + length attempts * handshake_tick
      → shake resolver started handshake_deadline attempts s ≢ pending t
  unfolding shake Paced
  ends_since since [] s t slow after before enough = absurd (omega (arith, before, enough))
  ends_since since (a ∷ more) s t slow after before enough =
      on_attempt-ends since a.now a.outcome (attempt resolver a s) _ t after slow.0
        (λ later early step.
          ends_since a.now more (attempt resolver a s) t slow.1 later early
            (omega (arith, enough, step)))

  -- A loop whose attempts block for a tick each ends once they are more than the ticks in its deadline.
  pub shake-ends_soon :
      (attempts : List Attempt) (t : SslStream)
      → Paced started attempts
      → handshake_deadline < length attempts * handshake_tick
      → shake resolver started handshake_deadline attempts (guarded started handshake_deadline)
        ≢ pending t
  shake-ends_soon attempts t slow enough =
      ends_since started attempts (guarded started handshake_deadline) t slow (omega arith)
        (omega arith) (omega (arith, enough))
