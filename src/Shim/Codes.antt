-- ===== src/Shim/Codes.antt =====
-- mbedtls-ffi-shim/src/error.rs: the return codes that the wrapper matches on.
use loft.Prelude.{ℕ, ◌-◌, ◌≡◌, ◌↔◌, Bool, true, false, ◌==◌, arith}

-- `c_int`.
pub data ℤ : Type 0 where
  pos : ℕ → ℤ
  negsuc : ℕ → ℤ

-- `-n` of a literal that is not 0.
abbrev pub minus : ℕ → ℤ
minus n = negsuc (n - 1)

abbrev pub int_beq : ℤ → ℤ → Bool
int_beq (pos a) (pos b) = a == b
int_beq (pos a) (negsuc b) = false
int_beq (negsuc a) (pos b) = false
int_beq (negsuc a) (negsuc b) = a == b

pub int_beq_iff : (a b : ℤ) → (int_beq a b ≡ true) ↔ (a ≡ b)
int_beq_iff (pos a) (pos b) = (λ h. ground arith, λ h. ground arith)
int_beq_iff (pos a) (negsuc b) = (λ h. ground arith, λ h. ground arith)
int_beq_iff (negsuc a) (pos b) = (λ h. ground arith, λ h. ground arith)
int_beq_iff (negsuc a) (negsuc b) = (λ h. ground arith, λ h. ground arith)

abbrev pub err_ssl_want_read : ℤ
err_ssl_want_read = minus 0x6900

abbrev pub err_ssl_want_write : ℤ
err_ssl_want_write = minus 0x6880

abbrev pub err_ssl_timeout : ℤ
err_ssl_timeout = minus 0x6800

abbrev pub err_ssl_hello_verify_required : ℤ
err_ssl_hello_verify_required = minus 0x6A80

abbrev pub err_ssl_peer_close_notify : ℤ
err_ssl_peer_close_notify = minus 0x7880

abbrev pub err_ssl_conn_eof : ℤ
err_ssl_conn_eof = minus 0x7280

abbrev pub err_net_send_failed : ℤ
err_net_send_failed = minus 0x4E

abbrev pub err_net_recv_failed : ℤ
err_net_recv_failed = minus 0x4C

abbrev pub ssl_cid_enabled : ℤ
ssl_cid_enabled = pos 1
