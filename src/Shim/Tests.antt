-- ===== src/Shim/Tests.antt =====
-- Runs of mbedtls-ffi-shim, and the laws at them.
use loft.Prelude.{ℕ, ◌≡◌, refl, none, some, List, [], ◌∷◌}
use loft.Shim.Codes.{pos, err_ssl_want_read, err_ssl_hello_verify_required}
use loft.Shim.Timer.{TimerState, set, status, final_expired, remaining, millis}
use loft.Shim.Session.{
  Session, new_session, handshake_status, read_status, recv_code, ReadStatus, hello_verify_required,
}
use loft.Shim.Config.{
  Resolution, resolved, rejected, Answered, KeyCalls, decoy, zeros, psk_tramp, identity_bytes,
  psk_tramp-Answered, got, interrupted, rng_getrandom,
}

program : Unit {0}
unfolding set status final_expired remaining handshake_status read_status recv_code psk_tramp
    rng_getrandom
program = tt

-- A timer of 100 and 400 ms, set at 1 s.
abbrev timer : TimerState
timer = record { int_ms = 100; fin_ms = 400; start = some 1000000000 }

set_run : set 1000000000 100 400 ≡ timer
unfolding program
set_run = refl

status_run : status 1200000000 timer ≡ pos 1
unfolding program
status_run = refl

remaining_run : remaining 1200000000 timer ≡ some (millis 200)
unfolding program
remaining_run = refl

codes_run : handshake_status err_ssl_hello_verify_required ≡ hello_verify_required
unfolding program
codes_run = refl

read_run : read_status err_ssl_want_read ≡ ReadStatus.want_read
unfolding program
read_run = refl

abbrev resolve : List ℕ → Resolution
resolve [] = rejected
resolve (b ∷ bs) = resolved (record { psk = 1 ∷ []; identity = b ∷ bs; token = 2 ∷ [] })

abbrev session : Session (Unit {0})
session = new_session tt

-- The resolved key can be installed; were it not, the random source would have failed after two bytes.
abbrev calls : KeyCalls
calls = record { installed = pos 0; drawn = 8 ∷ 9 ∷ []; decoy_installed = pos 0 }

decoy_run : (psk_tramp resolve calls none session).key ≡ decoy (8 ∷ 9 ∷ zeros 30)
unfolding program
decoy_run = refl

psk_tramp-Answered_example :
    Answered resolve calls
      (identity_bytes (some (7 ∷ [])))
      session
      (psk_tramp resolve calls (some (7 ∷ [])) session)
psk_tramp-Answered_example = psk_tramp-Answered resolve calls (some (7 ∷ [])) session

rng_run : rng_getrandom 32 0 (interrupted ∷ got 20 ∷ got 12 ∷ []) ≡ some (pos 0, 32)
unfolding program
rng_run = refl
