-- ===== src/TlsCommon/Granted.antt =====
-- loft/src/tls_common.rs over loft/src/psk.rs: who gets into a session at all.
use loft.Prelude.{ℕ, ◌≡◌, ◌⊎◌, true, Option, List}
use loft.Psk.{PskEntry, Answer, found, unreachable, Ttls, resolve}
use loft.Psk.Log.{Settled, cache_of}
use loft.Psk.Resolve.{GrantedWithin, resolve-Granted}
use loft.Shim.Config.{ResolvedPsk, resolved}
use loft.TlsCommon.{is_utf8, resolve_for_mbed, resolve_for_mbed-resolved}

-- `PskResolver::resolve` at one instant, with the answers that its source gives, for the cache it looks
-- into and the one it finds when the source has answered.
abbrev pub resolver_at :
    Ttls → (List ℕ → Answer) → ℕ → List Settled → List Settled → List ℕ → Option PskEntry
resolver_at c source now log later identity =
    (resolve c source now identity (cache_of c log) (cache_of c later)).result

-- What the source granted to an identity, now or as the logs have it.
abbrev pub IsGranted :
    Ttls → (List ℕ → Answer) → ℕ → List Settled → List Settled → List ℕ → PskEntry → Type 0
IsGranted c source now log later identity e =
    (source identity ≡ found e)
    ⊎ (GrantedWithin c.positive_ttl now identity e log
        ⊎ ((source identity ≡ unreachable) × GrantedWithin c.stale_grace now identity e later))

-- A DTLS handshake is given a key and a token only for the identity that the peer itself named, if that
-- is text, and only if the source granted that very key and token to that identity, now or in an answer
-- that the cache may still use.
pub resolve_for_mbed-IsGranted :
    (c : Ttls) (source : List ℕ → Answer) (now : ℕ) (log later : List Settled) (identity : List ℕ)
    (r : ResolvedPsk)
    → resolve_for_mbed (resolver_at c source now log later) identity ≡ resolved r
    → (r.identity ≡ identity)
      × (is_utf8 identity ≡ true)
      × IsGranted c source now log later identity (record { psk = r.psk; token = r.token })
resolve_for_mbed-IsGranted c source now log later identity r h =
    let from = resolve_for_mbed-resolved (resolver_at c source now log later) identity r h in
    (
      from.0,
      from.1,
      resolve-Granted c source now identity log later (record { psk = r.psk; token = r.token })
          from.2,
    )
