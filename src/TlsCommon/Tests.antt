-- ===== src/TlsCommon/Tests.antt =====
-- Runs of loft/src/tls_common.rs, and the laws at them.
use loft.Prelude.{ℕ, ◌≡◌, refl, true, Option, none, some, List, [], ◌∷◌, codes, bytes_eq}
use loft.Prelude.Eq.{bytes_key}
use loft.Prelude.Assoc.{lookup, insert}
use loft.Coap.Utf8.{from_utf8_lossy}
use loft.Psk.{
  PskEntry, Answer, found, absent, Ttls, with_positive_ttl, cached, stale, settle, resolve,
}
use loft.Psk.Log.{cache_of, latest}
use loft.Handler.Types.{seconds}
use loft.Shim.Config.{ResolvedPsk, resolved}
use loft.TlsCommon.{
  is_utf8, resolve_psk_identity, psk_callback, resolve_for_mbed, Given, psk_callback-Given,
}
use loft.TlsCommon.Granted.{resolver_at, IsGranted, resolve_for_mbed-IsGranted}

program : Unit {0}
unfolding bytes_eq lookup insert from_utf8_lossy is_utf8 resolve_psk_identity psk_callback
    resolve_for_mbed cached stale settle resolve cache_of latest
program = tt

abbrev ttls : Ttls
ttls = with_positive_ttl (seconds 60)

abbrev source : List ℕ → Answer
source [] = absent
source (b ∷ bs) = found (record { psk = 1 ∷ 2 ∷ []; token = 3 ∷ [] })

abbrev resolver : List ℕ → Option PskEntry
resolver = resolver_at ttls source (seconds 5) [] []

accepted_run :
    psk_callback resolver (some (codes "p1")) (0 ∷ 0 ∷ 0 ∷ []) none
    ≡ record { code = 2; psk_out = 1 ∷ 2 ∷ 0 ∷ []; credentials = some (codes "p1", 3 ∷ []) }
unfolding program
accepted_run = refl

-- A byte that is not UTF-8.
rejected_run :
    psk_callback resolver (some (0xff ∷ [])) (0 ∷ 0 ∷ 0 ∷ []) none
    ≡ record { code = 0; psk_out = 0 ∷ 0 ∷ 0 ∷ []; credentials = none }
unfolding program
rejected_run = refl

psk_callback-Given_example :
    Given resolver
      (0 ∷ 0 ∷ [])
      none
      (some (codes "p1"))
      (psk_callback resolver (some (codes "p1")) (0 ∷ 0 ∷ []) none)
psk_callback-Given_example = psk_callback-Given resolver (some (codes "p1")) (0 ∷ 0 ∷ []) none

abbrev granted : ResolvedPsk
granted = record { psk = 1 ∷ 2 ∷ []; identity = codes "p1"; token = 3 ∷ [] }

resolved_run : resolve_for_mbed resolver (codes "p1") ≡ resolved granted
unfolding program
resolved_run = refl

resolve_for_mbed-IsGranted_example :
    (codes "p1" ≡ codes "p1")
    × (is_utf8 (codes "p1") ≡ true)
    × IsGranted ttls source
        (seconds 5)
        []
        []
        (codes "p1")
        (record { psk = 1 ∷ 2 ∷ []; token = 3 ∷ [] })
resolve_for_mbed-IsGranted_example =
    resolve_for_mbed-IsGranted ttls source (seconds 5) [] [] (codes "p1") granted resolved_run
