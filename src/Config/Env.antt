-- ===== src/Config/Env.antt =====
-- loft/src/config.rs: `Config::from_env`, with the environment as a function of the names.
use Prim.Native.String.{String}
use loft.Prelude.{
  ℕ, ◌≤◌, ◌≡◌, refl, false, inl, inr, Option, none, some, List, is_empty, codes, if◌then◌else◌,
  Bool-cases, arith,
}
use loft.Prelude.Text.{trim, parse_u64}
use loft.Coap.Block.Defs.{max_szx}
use loft.Handler.Types.{seconds}
use loft.Psk.{default_positive_ttl}
use loft.Config.{
  DtlsStack, max_handshake_deadline_secs, parse_dtls_stack, deadline_of, parse_handshake_deadline,
  parse_udp_max_block, CredentialFile, trim_end_matches, resolve_service_secret,
}
use loft.Config.Laws.{parse_udp_max_block-le}

pub record Config : Type 0 where
  pub udp_listen : List ℕ
  pub tcp_listen : List ℕ
  pub dovecote_url : List ℕ
  pub service_secret : List ℕ
  pub psk_cache_ttl : ℕ
  pub dtls_stack : DtlsStack
  pub dtls_mbed_canary_addr : Option (List ℕ)
  pub dtls_cid_idle : ℕ
  pub handshake_deadline : ℕ
  pub udp_max_block_szx : ℕ

abbrev pub default_cid_idle : ℕ
default_cid_idle = seconds 21600

-- `std::env::var(key).ok()`
abbrev pub Vars : Type 0
Vars = List ℕ → Option (List ℕ)

abbrev pub unwrap_or {ℓ} : {A : Type ℓ} → A → Option A → A
unwrap_or default none = default
unwrap_or default (some a) = a

unfoldable pub env_or : Vars → String → String → List ℕ
env_or vars key default = unwrap_or (codes default) (vars (codes key))

abbrev pub and_parse : Option (List ℕ) → Option ℕ
and_parse none = none
and_parse (some v) = parse_u64 v

abbrev pub duration_or : ℕ → Option ℕ → ℕ
duration_or default none = default
duration_or default (some secs) = seconds secs

-- `.filter(|v| !v.trim().is_empty())`
abbrev pub unless_blank : Option (List ℕ) → Option (List ℕ)
unless_blank none = none
unless_blank (some v) = if is_empty (trim v) then none else some v

-- The settings once the fallible ones are known.
abbrev pub config_of : Vars → List ℕ → DtlsStack → ℕ → ℕ → Config
config_of vars secret stack deadline szx = record {
  udp_listen = env_or vars "LOFT_UDP_LISTEN" "0.0.0.0:5684";
  tcp_listen = env_or vars "LOFT_TCP_LISTEN" "0.0.0.0:5684";
  dovecote_url = trim_end_matches 47 (env_or vars "LOFT_DOVECOTE_URL" "https://api.pidgeiot.com");
  service_secret = secret;
  psk_cache_ttl = duration_or default_positive_ttl (and_parse (vars (codes "LOFT_PSK_TTL_SECS")));
  dtls_stack = stack;
  dtls_mbed_canary_addr = unless_blank (vars (codes "LOFT_DTLS_MBED_CANARY_ADDR"));
  dtls_cid_idle = duration_or default_cid_idle (and_parse (vars (codes "LOFT_DTLS_CID_IDLE_SECS")));
  handshake_deadline = deadline;
  udp_max_block_szx = szx;
}

-- `?` on each of the three that can fail.
abbrev pub parsed : Vars → List ℕ → Option DtlsStack → Option ℕ → Option ℕ → Option Config
parsed vars secret none deadline szx = none
parsed vars secret (some stack) none szx = none
parsed vars secret (some stack) (some deadline) none = none
parsed vars secret (some stack) (some deadline) (some szx) =
    some (config_of vars secret stack deadline szx)

abbrev pub with_secret : Vars → Option (List ℕ) → Option Config
with_secret vars none = none
with_secret vars (some secret) =
    if is_empty (trim secret)
    then none
    else parsed vars secret (parse_dtls_stack (vars (codes "LOFT_DTLS_STACK")))
        (parse_handshake_deadline (vars (codes "LOFT_HANDSHAKE_DEADLINE_SECS")))
        (parse_udp_max_block (vars (codes "LOFT_UDP_MAX_BLOCK_BYTES")))

-- `credentials` is what reading the credential file gives, where there is a directory for it. `none` is a
-- refusal to start.
unfoldable pub from_env : Option CredentialFile → Vars → Option Config
from_env credentials vars =
    with_secret vars (resolve_service_secret credentials (vars (codes "COAP_SERVICE_SECRET")))

-- What the listeners rely on.
pub record IsUsable (c : Config) : Type 0 where
  pub secret : is_empty (trim c.service_secret) ≡ false
  pub not_at_once : seconds 1 ≤ c.handshake_deadline
  pub soon : c.handshake_deadline ≤ seconds max_handshake_deadline_secs
  pub szx : c.udp_max_block_szx ≤ max_szx

deadline_of-within :
    (found : Option ℕ) (d : ℕ)
    → deadline_of found ≡ some d
    → (seconds 1 ≤ d) × (d ≤ seconds max_handshake_deadline_secs)
deadline_of-within none d h = absurd (ground arith)
deadline_of-within (some secs) d h = (ground arith, ground arith)

parse_handshake_deadline-within :
    (value : Option (List ℕ)) (d : ℕ)
    → parse_handshake_deadline value ≡ some d
    → (seconds 1 ≤ d) × (d ≤ seconds max_handshake_deadline_secs)
unfolding parse_handshake_deadline
parse_handshake_deadline-within none d h = (ground arith, ground arith)
parse_handshake_deadline-within (some raw) d h = deadline_of-within (parse_u64 (trim raw)) d h

parsed-IsUsable :
    (vars : Vars) (secret : List ℕ) (stack : Option DtlsStack) (deadline szx : Option ℕ)
    (c : Config)
    → is_empty (trim secret) ≡ false
    → ((d : ℕ) → deadline ≡ some d → (seconds 1 ≤ d) × (d ≤ seconds max_handshake_deadline_secs))
    → ((z : ℕ) → szx ≡ some z → z ≤ max_szx)
    → parsed vars secret stack deadline szx ≡ some c
    → IsUsable c
parsed-IsUsable vars secret none deadline szx c given within small h = absurd (ground arith)
parsed-IsUsable vars secret (some stack) none szx c given within small h = absurd (ground arith)
parsed-IsUsable vars secret (some stack) (some d) none c given within small h =
    absurd (ground arith)
parsed-IsUsable vars secret (some stack) (some d) (some z) c given within small h =
    let it : config_of vars secret stack d z ≡ c = ground (arith, h) in
    rw (← it) (record {
      secret = given;
      not_at_once = (within d refl).0;
      soon = (within d refl).1;
      szx = small z refl;
    })

with_secret-IsUsable :
    (vars : Vars) (found : Option (List ℕ)) (c : Config)
    → with_secret vars found ≡ some c
    → IsUsable c
with_secret-IsUsable vars none c h = absurd (ground arith)
with_secret-IsUsable vars (some secret) c h = elim (Bool-cases (is_empty (trim secret))) [
  | inl blank ↦ absurd (ground (arith, rw blank at h))
  | inr given ↦
      parsed-IsUsable vars secret (parse_dtls_stack (vars (codes "LOFT_DTLS_STACK")))
        (parse_handshake_deadline (vars (codes "LOFT_HANDSHAKE_DEADLINE_SECS")))
        (parse_udp_max_block (vars (codes "LOFT_UDP_MAX_BLOCK_BYTES"))) c given
        (parse_handshake_deadline-within (vars (codes "LOFT_HANDSHAKE_DEADLINE_SECS")))
        (parse_udp_max_block-le (vars (codes "LOFT_UDP_MAX_BLOCK_BYTES"))) (rw given at h)
]

-- Whatever the environment holds, settings with which the program starts have a secret that is not
-- blank, a handshake deadline of 1 to 300 seconds, and a UDP limit that is a CoAP block size.
pub from_env-IsUsable :
    (credentials : Option CredentialFile) (vars : Vars) (c : Config)
    → from_env credentials vars ≡ some c
    → IsUsable c
unfolding from_env
from_env-IsUsable credentials vars c h =
    with_secret-IsUsable vars
      (resolve_service_secret credentials (vars (codes "COAP_SERVICE_SECRET"))) c h
