-- ===== src/Dtls/Shim.antt =====
-- dtls-ffi-shim/src/dtls_ffi.rs: what the wrappers make of OpenSSL's return codes.
use loft.Prelude.{
  ℕ, ◌+◌, ◌*◌, ◌<◌, ◌≡◌, Bool, true, false, Option, none, some, leb, ltb, ◌==◌, not, min,
  if◌then◌else◌, arith,
}
use loft.Shim.Codes.{ℤ, pos, negsuc, int_beq}

-- `ListenOutcome`, or an error. The peer is `BioAddr::to_socket_addr`, on which no caller relies.
pub data Listened : Type 0 where
  retry accepted failed : Listened

abbrev pub min_supported_openssl_version : ℕ
min_supported_openssl_version = 0x1010000f

abbrev pub dtls_listen_supported : ℕ → Bool
dtls_listen_supported version = leb min_supported_openssl_version version

abbrev pub listened : ℤ → Listened
listened (negsuc n) = failed
listened (pos n) = if n == 0 then retry else accepted

-- `dtlsv1_listen`, of the linked version, whether the address could be allocated, and the code.
unfoldable pub dtlsv1_listen : ℕ → Bool → ℤ → Listened
dtlsv1_listen version has_addr ret =
    if not (dtls_listen_supported version)
    then failed
    else if has_addr
    then listened ret
    else failed

abbrev pub is_positive : ℤ → Bool
is_positive (negsuc n) = false
is_positive (pos n) = ltb 0 n

-- `DTLS_CTRL_HANDLE_TIMEOUT`.
pub data HandleTimeoutOutcome : Type 0 where
  no_pending_timeout retransmitted : HandleTimeoutOutcome

abbrev pub dtls_handle_timeout : ℤ → Option HandleTimeoutOutcome
dtls_handle_timeout ret =
    if int_beq ret (pos 1)
    then some retransmitted
    else if int_beq ret (pos 0)
    then some no_pending_timeout
    else none

-- `n.max(0)`
abbrev pub at_least_zero : ℤ → ℕ
at_least_zero (pos n) = n
at_least_zero (negsuc n) = 0

-- `dtls_get_timeout`, in nanoseconds, of the code and of the seconds and microseconds written.
unfoldable pub dtls_get_timeout : ℤ → ℤ → ℤ → Option ℕ
dtls_get_timeout ret sec usec =
    if int_beq ret (pos 1)
    then some (at_least_zero sec * 1000000000 + min (at_least_zero usec) 999999 * 1000)
    else none

listened-accepted : (ret : ℤ) → listened ret ≡ accepted → is_positive ret ≡ true
listened-accepted (negsuc n) h = absurd (ground arith)
listened-accepted (pos n) h = ground arith

-- A peer is taken for accepted only when the library is recent enough and its code is positive.
pub dtlsv1_listen-accepted :
    (version : ℕ) (has_addr : Bool) (ret : ℤ)
    → dtlsv1_listen version has_addr ret ≡ accepted
    → is_positive ret ≡ true
unfolding dtlsv1_listen
dtlsv1_listen-accepted version has_addr ret h = listened-accepted ret (ground (arith, h))

-- The part of a timeout below the second is below a second, whatever the library writes.
pub dtls_get_timeout-bound :
    (ret sec usec : ℤ) (t : ℕ)
    → dtls_get_timeout ret sec usec ≡ some t
    → t < (at_least_zero sec + 1) * 1000000000
unfolding dtls_get_timeout
dtls_get_timeout-bound ret sec usec t h = ground (arith, h)
