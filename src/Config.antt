-- ===== src/Config.antt =====
-- loft/src/config.rs: the settings that are parsed, and where the service secret comes from.
pub mod Env
pub mod Laws
mod Tests
use loft.Prelude.{
  ℕ, zero, suc, ◌+◌, ◌&&◌, Option, none, some, List, [], ◌∷◌, leb, ◌==◌, bytes_eq, codes,
  if◌then◌else◌,
}
use loft.Prelude.Text.{trim, parse_u64}
use loft.Coap.Block.Defs.{max_szx, size_for}
use loft.Handler.Types.{seconds}

pub data DtlsStack : Type 0 where
  openssl mbedtls : DtlsStack

abbrev pub default_handshake_deadline_secs : ℕ
default_handshake_deadline_secs = 30

abbrev pub max_handshake_deadline_secs : ℕ
max_handshake_deadline_secs = 300

-- A refusal is `none`; its text is printed at start-up.
unfoldable pub parse_dtls_stack : Option (List ℕ) → Option DtlsStack
parse_dtls_stack none = some openssl
parse_dtls_stack (some value) =
    if bytes_eq value (codes "openssl")
    then some openssl
    else if bytes_eq value (codes "mbedtls")
    then some mbedtls
    else none

abbrev pub deadline_of : Option ℕ → Option ℕ
deadline_of none = none
deadline_of (some secs) =
    if leb 1 secs && leb secs max_handshake_deadline_secs then some (seconds secs) else none

unfoldable pub parse_handshake_deadline : Option (List ℕ) → Option ℕ
parse_handshake_deadline none = some (seconds default_handshake_deadline_secs)
parse_handshake_deadline (some raw) = deadline_of (parse_u64 (trim raw))

-- The first of `count` block size exponents from `szx` on whose size is `bytes`.
unfoldable pub find_szx : ℕ → ℕ → ℕ → Option ℕ
find_szx bytes zero szx = none
find_szx bytes (suc count) szx =
    let rest = find_szx bytes count (szx + 1) in if size_for szx == bytes then some szx else rest

unfoldable pub szx_for_bytes : ℕ → Option ℕ
unfolding find_szx
szx_for_bytes bytes = find_szx bytes (max_szx + 1) 0

abbrev pub szx_of : Option ℕ → Option ℕ
szx_of none = none
szx_of (some bytes) = szx_for_bytes bytes

unfoldable pub parse_udp_max_block : Option (List ℕ) → Option ℕ
parse_udp_max_block none = some max_szx
parse_udp_max_block (some raw) = szx_of (parse_u64 (trim raw))

-- What reading the credential file gives.
pub data CredentialFile : Type 0 where
  contents : List ℕ → CredentialFile
  not_found : CredentialFile
  unreadable : CredentialFile

abbrev trim_end_step : ℕ → ℕ → List ℕ → List ℕ
trim_end_step c b [] = if b == c then [] else b ∷ []
trim_end_step c b (d ∷ rest) = b ∷ d ∷ rest

-- `trim_end_matches`, for a byte.
unfoldable pub trim_end_matches : ℕ → List ℕ → List ℕ
trim_end_matches c [] = []
trim_end_matches c (b ∷ bs) = trim_end_step c b (trim_end_matches c bs)

-- `none` is an error at start-up. The file is read only where there is a credentials directory.
unfoldable pub resolve_service_secret : Option CredentialFile → Option (List ℕ) → Option (List ℕ)
resolve_service_secret none env_secret = env_secret
resolve_service_secret (some (contents text)) env_secret = some (trim_end_matches 10 text)
resolve_service_secret (some not_found) env_secret = env_secret
resolve_service_secret (some unreadable) env_secret = none
