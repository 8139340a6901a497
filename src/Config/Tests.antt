-- ===== src/Config/Tests.antt =====
-- Runs of loft/src/config.rs on the texts of its documentation, and the law at one of them.
use loft.Prelude.{◌≡◌, refl, some, none, [], ◌∷◌, codes, bytes_eq, if◌then◌else◌}
use loft.Prelude.Text.{drop_space, trim, to_digit, parse_digits, from_str_radix, parse_u64}
use loft.Handler.Types.{seconds}
use loft.Config.{
  openssl, mbedtls, parse_dtls_stack, parse_handshake_deadline, find_szx, szx_for_bytes,
  parse_udp_max_block, contents, not_found, unreadable, trim_end_matches, resolve_service_secret,
}
use loft.Config.Env.{Config, Vars, env_or, from_env, IsUsable, from_env-IsUsable}

program : Unit {0}
unfolding bytes_eq drop_space trim to_digit parse_digits from_str_radix parse_u64 parse_dtls_stack
    parse_handshake_deadline find_szx szx_for_bytes parse_udp_max_block trim_end_matches
    resolve_service_secret env_or from_env
program = tt

stacks :
    (parse_dtls_stack (some (codes "mbedtls")) ≡ some mbedtls)
    × (parse_dtls_stack (some (codes "wolfssl")) ≡ none)
unfolding program
stacks = (refl, refl)

deadlines :
    (parse_handshake_deadline (some (codes " 45 ")) ≡ some (seconds 45))
    × (parse_handshake_deadline (some (codes "301")) ≡ none)
    × (parse_handshake_deadline (some (codes "0")) ≡ none)
    × (parse_handshake_deadline none ≡ some (seconds 30))
unfolding program
deadlines = (refl, refl, refl, refl)

blocks :
    (parse_udp_max_block (some (codes "512")) ≡ some 5)
    × (parse_udp_max_block (some (codes "500")) ≡ none)
    × (parse_udp_max_block (some (codes "2048")) ≡ none)
unfolding program
blocks = (refl, refl, refl)

secrets :
    (resolve_service_secret (some (contents (115 ∷ 10 ∷ []))) (some (codes "env"))
      ≡ some (115 ∷ []))
    × (resolve_service_secret (some not_found) (some (codes "env")) ≡ some (codes "env"))
    × (resolve_service_secret (some unreadable) (some (codes "env")) ≡ none)
    × (resolve_service_secret none none ≡ none)
unfolding program
secrets = (refl, refl, refl, refl)

abbrev vars : Vars
vars name =
    if bytes_eq name (codes "COAP_SERVICE_SECRET")
    then some (codes "key")
    else if bytes_eq name (codes "LOFT_UDP_MAX_BLOCK_BYTES")
    then some (codes "512")
    else if bytes_eq name (codes "LOFT_DOVECOTE_URL")
    then some (codes "http://127.0.0.1:8787//")
    else none

abbrev config : Config
config = record {
  udp_listen = codes "0.0.0.0:5684";
  tcp_listen = codes "0.0.0.0:5684";
  dovecote_url = codes "http://127.0.0.1:8787";
  service_secret = codes "key";
  psk_cache_ttl = seconds 60;
  dtls_stack = openssl;
  dtls_mbed_canary_addr = none;
  dtls_cid_idle = seconds 21600;
  handshake_deadline = seconds 30;
  udp_max_block_szx = 5;
}

config_run : from_env (some not_found) vars ≡ some config
unfolding program
config_run = refl

from_env-IsUsable_example : IsUsable config
from_env-IsUsable_example = from_env-IsUsable (some not_found) vars config config_run

-- An ideographic space is white space, and a secret of one is blank.
blank_run : from_env none (λ name. some (0xe3 ∷ 0x80 ∷ 0x80 ∷ [])) ≡ none
unfolding program
blank_run = refl
