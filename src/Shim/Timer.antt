-- ===== src/Shim/Timer.antt =====
-- mbedtls-ffi-shim/src/session.rs: the retransmission timer. Instants are in nanoseconds.
use loft.Prelude.{
  ℕ, ◌+◌, ◌-◌, ◌*◌, ◌/◌, ◌≤◌, ◌≡◌, ◌↔◌, refl, Bool, true, Option, none, some, leb, ◌==◌,
  if◌then◌else◌, arith,
}
use loft.Shim.Codes.{ℤ, pos, minus, int_beq}

abbrev pub millis : ℕ → ℕ
millis n = n * 1000000

pub record TimerState : Type 0 where
  pub int_ms : ℕ
  pub fin_ms : ℕ
  pub start : Option ℕ

abbrev pub new_timer : TimerState
new_timer = record { int_ms = 0; fin_ms = 0; start = none }

-- `TimerState::set`, at the instant `now`.
unfoldable pub set : ℕ → ℕ → ℕ → TimerState
set now int_ms fin_ms = record {
  int_ms = int_ms;
  fin_ms = fin_ms;
  start = if fin_ms == 0 then none else some now;
}

abbrev pub status_after : TimerState → ℕ → ℤ
status_after t elapsed =
    if leb t.fin_ms elapsed then pos 2 else if leb t.int_ms elapsed then pos 1 else pos 0

abbrev pub status_since : TimerState → ℕ → Option ℕ → ℤ
status_since t now none = minus 1
status_since t now (some started) = status_after t ((now - started) / 1000000)

-- `TimerState::status`: -1 cancelled, 0 running, 1 and 2 after the two delays.
unfoldable pub status : ℕ → TimerState → ℤ
status now t = status_since t now t.start

unfoldable pub final_expired : ℕ → TimerState → Bool
unfolding status
final_expired now t = int_beq (status now t) (pos 2)

abbrev pub remaining_since : TimerState → ℕ → Option ℕ → Option ℕ
remaining_since t now none = none
remaining_since t now (some started) = some (millis t.fin_ms - (now - started))

unfoldable pub remaining : ℕ → TimerState → Option ℕ
remaining now t = remaining_since t now t.start

final_expired-since :
    (t : TimerState) (now : ℕ) (start : Option ℕ)
    → (int_beq (status_since t now start) (pos 2) ≡ true) ↔ (remaining_since t now start ≡ some 0)
final_expired-since t now none = (λ h. ground arith, λ h. ground arith)
final_expired-since t now (some started) = (λ h. ground arith, λ h. ground arith)

-- The timer is reported as expired exactly when no time remains, so a transport that waits for what
-- remains and the library that asks for the status do not disagree.
pub final_expired-remaining :
    (now : ℕ) (t : TimerState) → (final_expired now t ≡ true) ↔ (remaining now t ≡ some 0)
unfolding final_expired status remaining
final_expired-remaining now t = final_expired-since t now t.start

waited_since :
    (t : TimerState) (now later r : ℕ) (start : Option ℕ)
    → ((began : ℕ) → start ≡ some began → began ≤ now)
    → remaining_since t now start ≡ some r
    → now + r ≤ later
    → int_beq (status_since t later start) (pos 2) ≡ true
waited_since t now later r none past h wait = absurd (ground arith)
waited_since t now later r (some started) past h wait = ground (arith, past started refl)

-- Whoever waits for as long as remains, of a timer that was set before, finds the timer expired.
pub final_expired-waited :
    (t : TimerState) (now later r : ℕ)
    → ((began : ℕ) → t.start ≡ some began → began ≤ now)
    → remaining now t ≡ some r
    → now + r ≤ later
    → final_expired later t ≡ true
unfolding final_expired status remaining
final_expired-waited t now later r past h wait = waited_since t now later r t.start past h wait
