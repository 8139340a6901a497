-- ===== src/TlsCommon.antt =====
-- loft/src/tls_common.rs: what the PSK callbacks of every listener share, and the callback for OpenSSL. The
-- set-up of an OpenSSL context is a sequence of calls of that library and is not modelled.
pub mod Asked
pub mod Granted
mod Tests
use loft.Prelude.{
  ℕ, ◌<◌, ◌≤◌, ◌≡◌, ◌⊎◌, inl, inr, refl, ap, Bool, true, false, Option, none, some, List, [], ◌∷◌,
  ◌++◌, ltb, length, drop, if◌then◌else◌, bytes_eq, Bool-cases, Option-cases, arith,
}
use loft.Prelude.Eq.{bytes_eq_iff}
use loft.Coap.Utf8.{from_utf8_lossy}
use loft.Psk.{PskEntry}
use loft.Shim.Session.{Credentials}
use loft.Shim.Config.{ResolvedPsk, Resolution, rejected, resolved}

-- `std::str::from_utf8(..).is_ok()`: bytes are UTF-8 exactly when the lossy conversion changes nothing.
unfoldable pub is_utf8 : List ℕ → Bool
is_utf8 bs = bytes_eq (from_utf8_lossy bs) bs

abbrev pub with_identity : List ℕ → Option PskEntry → Option (List ℕ × PskEntry)
with_identity identity none = none
with_identity identity (some entry) = some (identity, entry)

-- `resolve_psk_identity`; `resolver` is what `PskResolver::resolve` gives at this call.
unfoldable pub resolve_psk_identity :
    (List ℕ → Option PskEntry) → List ℕ → Option (List ℕ × PskEntry)
resolve_psk_identity resolver identity =
    if is_utf8 identity then with_identity identity (resolver identity) else none

-- `psk_out`, the session's credentials, and the length that OpenSSL gets; 0 aborts the handshake.
pub record OpensslPsk : Type 0 where
  pub code : ℕ
  pub psk_out : List ℕ
  pub credentials : Option Credentials

-- The key is copied to the front of the buffer.
abbrev pub give_psk : List ℕ → Option Credentials → Option (List ℕ × PskEntry) → OpensslPsk
give_psk out held none = record { code = 0; psk_out = out; credentials = held }
give_psk out held (some (identity, entry)) =
    if ltb (length out) (length entry.psk)
    then record { code = 0; psk_out = out; credentials = held }
    else record {
      code = length entry.psk;
      psk_out = entry.psk ++ drop (length entry.psk) out;
      credentials = some (identity, entry.token);
    }

-- `psk_callback`.
unfoldable pub psk_callback :
    (List ℕ → Option PskEntry) → Option (List ℕ) → List ℕ → Option Credentials → OpensslPsk
psk_callback resolver none out held = record { code = 0; psk_out = out; credentials = held }
psk_callback resolver (some identity) out held =
    give_psk out held (resolve_psk_identity resolver identity)

-- The closure of `build_config` in loft/src/dtls_mbed.rs.
abbrev pub as_resolution : Option (List ℕ × PskEntry) → Resolution
as_resolution none = rejected
as_resolution (some (identity, entry)) =
    resolved (record { psk = entry.psk; identity = identity; token = entry.token })

unfoldable pub resolve_for_mbed : (List ℕ → Option PskEntry) → List ℕ → Resolution
resolve_for_mbed resolver identity = as_resolution (resolve_psk_identity resolver identity)

-- An identity that is resolved is text, and the resolver gave the entry for that very text.
pub resolve_psk_identity-some :
    (resolver : List ℕ → Option PskEntry) (identity who : List ℕ) (e : PskEntry)
    → resolve_psk_identity resolver identity ≡ some (who, e)
    → (who ≡ identity) × (is_utf8 identity ≡ true) × (resolver identity ≡ some e)
unfolding resolve_psk_identity
resolve_psk_identity-some resolver identity who e h = elim (Bool-cases (is_utf8 identity)) [
  | inr bad ↦ absurd (ground arith)
  | inl text ↦ elim (Option-cases (resolver identity)) [
    | inl miss ↦ absurd (ground arith)
    | inr (f, hit) ↦ (ground arith, text, ground arith)
  ]
]

resolved_for_mbed :
    (identity : List ℕ) (o : Option (List ℕ × PskEntry)) (r : ResolvedPsk)
    → as_resolution o ≡ resolved r
    → o ≡ some (r.identity, record { psk = r.psk; token = r.token })
resolved_for_mbed identity none r h = absurd (ground arith)
resolved_for_mbed identity (some (who, e)) r h = ground arith

-- The two DTLS listeners and the TCP one cannot differ on who is admitted: what mbedTLS is given was
-- resolved by the same function.
pub resolve_for_mbed-resolved :
    (resolver : List ℕ → Option PskEntry) (identity : List ℕ) (r : ResolvedPsk)
    → resolve_for_mbed resolver identity ≡ resolved r
    → (r.identity ≡ identity)
      × (is_utf8 identity ≡ true)
      × (resolver identity ≡ some (record { psk = r.psk; token = r.token }))
unfolding resolve_for_mbed
resolve_for_mbed-resolved resolver identity r h =
    resolve_psk_identity-some resolver identity r.identity (record { psk = r.psk; token = r.token })
      (resolved_for_mbed identity (resolve_psk_identity resolver identity) r h)

-- What OpenSSL's callback may leave.
pub data Given (resolver : List ℕ → Option PskEntry) (out : List ℕ) (held : Option Credentials)
    : Option (List ℕ) → OpensslPsk → Type 0 where
  aborted :
      {id : Option (List ℕ)}
      → Given resolver out held id (record { code = 0; psk_out = out; credentials = held })
  accepted :
      (identity : List ℕ) (e : PskEntry)
      → is_utf8 identity ≡ true
      → resolver identity ≡ some e
      → length e.psk ≤ length out
      → Given resolver out held (some identity) (record {
        code = length e.psk;
        psk_out = e.psk ++ drop (length e.psk) out;
        credentials = some (identity, e.token);
      })

give_psk-Given :
    (resolver : List ℕ → Option PskEntry) (identity out : List ℕ) (held : Option Credentials)
    (o : Option (List ℕ × PskEntry))
    → resolve_psk_identity resolver identity ≡ o
    → Given resolver out held (some identity) (give_psk out held o)
give_psk-Given resolver identity out held none h = Given.aborted
give_psk-Given resolver identity out held (some (who, e)) h =
    let from = resolve_psk_identity-some resolver identity who e h in
    elim (Bool-cases (ltb (length out) (length e.psk))) [
      | inl long ↦ rw long Given.aborted
      | inr fits ↦ rw (fits, from.0) (Given.accepted identity e from.1 from.2 (ground arith))
    ]

-- OpenSSL's callback either aborts the handshake and leaves the buffer and the session as they were, or
-- it gives the whole key of the identity that the peer named, which is text and was resolved, and
-- stashes that identity with its token.
pub psk_callback-Given :
    (resolver : List ℕ → Option PskEntry) (id : Option (List ℕ)) (out : List ℕ)
    (held : Option Credentials)
    → Given resolver out held id (psk_callback resolver id out held)
unfolding psk_callback
psk_callback-Given resolver none out held = Given.aborted
psk_callback-Given resolver (some identity) out held =
    give_psk-Given resolver identity out held (resolve_psk_identity resolver identity) refl
