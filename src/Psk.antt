-- ===== src/Psk.antt =====
-- loft/src/psk.rs: identities resolved to credentials, with a positive and a negative cache.
pub mod Log
pub mod Resolve
pub mod Flood
mod Tests
use loft.Prelude.{
  ℕ, ◌-◌, ◌≡◌, Bool, Option, none, some, List, [], ◌∷◌, ◌++◌, ltb, ◌==◌, ◌||◌, codes, if◌then◌else◌,
}
use loft.Prelude.Eq.{bytes_key}
use loft.Prelude.Assoc.{lookup, insert}
use loft.Handler.Types.{seconds}

pub record PskEntry : Type 0 where
  pub psk : List ℕ
  pub token : List ℕ

-- `Result<Option<PskEntry>, String>`; the error text is logged alone.
pub data Answer : Type 0 where
  found : PskEntry → Answer
  absent : Answer
  unreachable : Answer

-- `wire::CoapPskLookup`.
pub record CoapPskLookup : Type 0 where
  pub identity : List ℕ
  pub secret : List ℕ
  pub token : List ℕ

-- What the HTTP client gives: a success whose body is or is not the JSON of a lookup, another status,
-- or a transport failure.
pub data HttpReply : Type 0 where
  success : Option CoapPskLookup → HttpReply
  status : ℕ → HttpReply
  transport : HttpReply

abbrev trim_end_step : ℕ → List ℕ → List ℕ
trim_end_step b [] = if b == b'/' then [] else b ∷ []
trim_end_step b (c ∷ rest) = b ∷ c ∷ rest

-- `trim_end_matches('/')`
unfoldable pub trim_end_slashes : List ℕ → List ℕ
trim_end_slashes [] = []
trim_end_slashes (b ∷ bs) = trim_end_step b (trim_end_slashes bs)

unfoldable pub lookup_url : List ℕ → List ℕ → List ℕ
lookup_url base_url identity = trim_end_slashes base_url ++ codes "/internal/coap-psk/" ++ identity

unfoldable pub fetch_answer : HttpReply → Answer
fetch_answer (success (some l)) = found (record { psk = l.secret; token = l.token })
fetch_answer (success none) = unreachable
fetch_answer (status code) = if code == 404 || code == 400 then absent else unreachable
fetch_answer transport = unreachable

-- `Entry`, with the instant of its fetch.
pub data Entry : Type 0 where
  known : PskEntry → ℕ → Entry
  unknown : ℕ → Entry

abbrev pub Cache : Type 0
Cache = List (List ℕ × Entry)

-- The durations of `PskResolver`.
pub record Ttls : Type 0 where
  pub positive_ttl : ℕ
  pub negative_ttl : ℕ
  pub stale_grace : ℕ

abbrev pub default_positive_ttl : ℕ
default_positive_ttl = seconds 60

-- `PskResolver::new`.
abbrev pub with_positive_ttl : ℕ → Ttls
with_positive_ttl positive_ttl = record {
  positive_ttl = positive_ttl;
  negative_ttl = seconds 10;
  stale_grace = seconds 300;
}

-- The first look into the cache: `some` is an early return. `duration_since` stops at 0.
unfoldable pub cached : Ttls → ℕ → Option Entry → Option (Option PskEntry)
cached c now none = none
cached c now (some (known e at)) = if ltb (now - at) c.positive_ttl then some (some e) else none
cached c now (some (unknown at)) = if ltb (now - at) c.negative_ttl then some none else none

unfoldable pub stale : Ttls → ℕ → Option Entry → Option PskEntry
stale c now none = none
stale c now (some (known e at)) = if ltb (now - at) c.stale_grace then some e else none
stale c now (some (unknown at)) = none

-- What follows a fetch. The lock was released for it, so the cache need not be the one looked into.
unfoldable pub settle : Ttls → ℕ → List ℕ → Answer → Cache → Option PskEntry × Cache
settle c now identity (found e) cache = (some e, insert identity (known e now) cache)
settle c now identity absent cache = (none, insert identity (unknown now) cache)
settle c now identity unreachable cache = (stale c now (lookup identity cache), cache)

-- The result, the cache behind it, and the identities the source was asked for.
pub record Resolved : Type 0 where
  pub result : Option PskEntry
  pub cache : Cache
  pub fetched : List (List ℕ)

abbrev pub after_fetch : List ℕ → Option PskEntry × Cache → Resolved
after_fetch identity (result, cache) = record {
  result = result;
  cache = cache;
  fetched = identity ∷ [];
}

abbrev pub resolve_from :
    Ttls → ℕ → List ℕ → Answer → Cache → Cache → Option (Option PskEntry) → Resolved
resolve_from c now identity answer looked later (some result) = record {
  result = result;
  cache = looked;
  fetched = [];
}
resolve_from c now identity answer looked later none =
    after_fetch identity (settle c now identity answer later)

-- `PskResolver::resolve`: the cache is looked into under the lock, and again when the answer of the source is
-- there. The lock is free in between, so that other calls may have settled: `later` is the cache as they
-- left it.
unfoldable pub resolve : Ttls → (List ℕ → Answer) → ℕ → List ℕ → Cache → Cache → Resolved
resolve c source now identity looked later =
    resolve_from c now identity (source identity) looked later
      (cached c now (lookup identity looked))
