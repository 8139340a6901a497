-- ===== src/Psk/Tests.antt =====
-- Runs of loft/src/psk.rs with the default durations, and the laws at them.
use loft.Prelude.{ℕ, ◌≡◌, ◌⊎◌, refl, some, none, List, [], ◌∷◌, codes, bytes_eq, All, arith}
use loft.Prelude.Assoc.{lookup, insert}
use loft.Prelude.Eq.{bytes_key}
use loft.Handler.Types.{seconds}
use loft.Psk.{
  PskEntry, found, absent, unreachable, Ttls, with_positive_ttl, cached, stale, settle, resolve,
  trim_end_slashes, lookup_url,
}
use loft.Psk.Log.{Settled, cache_of, latest, lookup-cache_of}
use loft.Psk.Resolve.{GrantedWithin, resolve-Granted, own, resolve-own}
use loft.Psk.Flood.{Event, look, settles, looks, looks-refused}

program : Unit {0}
unfolding bytes_eq lookup insert cached stale settle resolve cache_of latest own looks
    trim_end_slashes lookup_url
program = tt

abbrev ttls : Ttls
ttls = with_positive_ttl (seconds 60)

abbrev entry : PskEntry
entry = record { psk = 1 ∷ []; token = 2 ∷ [] }

abbrev p1 : List ℕ
p1 = codes "p1"

-- At 10 s the source granted `p1`; at 15 s it was asked for another identity; at 100 s it was down.
abbrev log : List Settled
log =
    record { now = seconds 100; identity = p1; answer = unreachable }
    ∷ record { now = seconds 15; identity = codes "p2"; answer = absent }
    ∷ record { now = seconds 10; identity = p1; answer = found entry }
    ∷ []

url_run : lookup_url (codes "https://api//") p1 ≡ codes "https://api/internal/coap-psk/p1"
unfolding program
url_run = refl

-- At 200 s, with the source down, the entry is served in its grace, also to a call that looked before it
-- was there.
stale_run :
    (resolve ttls (λ _. unreachable) (seconds 200) p1 (cache_of ttls []) (cache_of ttls log)).result
    ≡ some entry
unfolding program
stale_run = refl

grace_over :
    (resolve ttls (λ _. unreachable) (seconds 400) p1 (cache_of ttls []) (cache_of ttls log)).result
    ≡ none
unfolding program
grace_over = refl

resolve-Granted_example :
    (unreachable ≡ found entry)
    ⊎ (GrantedWithin (seconds 60) (seconds 200) p1 entry []
        ⊎ ((unreachable ≡ unreachable) × GrantedWithin (seconds 300) (seconds 200) p1 entry log))
resolve-Granted_example =
    resolve-Granted ttls (λ _. unreachable) (seconds 200) p1 [] log entry stale_run

lookup-cache_of_example : lookup p1 (cache_of ttls log) ≡ latest p1 log
lookup-cache_of_example = lookup-cache_of ttls log p1

resolve-own_example :
    ((resolve ttls (λ _. absent) (seconds 200) p1 (cache_of ttls log) (cache_of ttls log)).result
      ≡ (resolve ttls
          (λ _. absent)
          (seconds 200)
          p1
          (cache_of ttls (own p1 log))
          (cache_of ttls (own p1 log))).result)
    × ((resolve ttls (λ _. absent) (seconds 200) p1 (cache_of ttls log) (cache_of ttls log)).fetched
        ≡ (resolve ttls
            (λ _. absent)
            (seconds 200)
            p1
            (cache_of ttls (own p1 log))
            (cache_of ttls (own p1 log))).fetched)
resolve-own_example = resolve-own ttls (λ _. absent) (seconds 200) p1 log log

-- After the settlement of the call begun at 1 s: a look, another call in flight that settles, an answer for
-- another identity, and a look.
abbrev flood : List Event
flood =
    look (seconds 2) p1
    ∷ settles (seconds 1) p1 absent
    ∷ settles (seconds 3) (codes "p2") (found entry)
    ∷ look (seconds 9) p1
    ∷ []

looks-refused_example :
    All (λ o. o ≡ some none) (looks ttls p1 flood (settle ttls (seconds 1) p1 absent []).1)
unfolding program
looks-refused_example = looks-refused ttls p1 (seconds 1) (seconds 1) flood [] (omega arith) (
  (λ _. omega arith),
  (
    λ _. (omega arith, λ e h. absurd (ground arith)),
    (λ other. absurd (ground (arith, other)), ((λ _. omega arith), tt)),
  ),
)

-- Both of two calls that look before either settles reach the source.
race_run :
    looks ttls p1
      (look (seconds 1) p1 ∷ look (seconds 1) p1 ∷ settles (seconds 1) p1 absent ∷ [])
      []
    ≡ none ∷ none ∷ []
unfolding program
race_run = refl
