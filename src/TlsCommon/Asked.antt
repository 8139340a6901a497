-- ===== src/TlsCommon/Asked.antt =====
-- The identities that OpenSSL's PSK callback of loft/src/tls_common.rs is asked about in one call.
use loft.Prelude.{ℕ, ◌≡◌, ◌⊎◌, inl, inr, Option, some, List, [], ◌∷◌, arith}
use loft.Psk.{PskEntry}
use loft.Shim.Session.{Credentials}
use loft.TlsCommon.{OpensslPsk, psk_callback, Given, psk_callback-Given}

-- The PSK callback for each identity that OpenSSL asks about in one call, with its buffer.
unfoldable pub ask :
    (List ℕ → Option PskEntry)
    → List (Option (List ℕ) × List ℕ)
    → Option Credentials
    → Option Credentials
unfolding psk_callback
ask resolver [] held = held
ask resolver ((id, out) ∷ asked) held =
    ask resolver asked (psk_callback resolver id out held).credentials

-- Every entry that the resolver gives is one that `P` holds of, with the identity asked for.
abbrev pub GrantsPsk : (Credentials → Type 0) → (List ℕ → Option PskEntry) → Type 0
GrantsPsk P resolver =
    (identity : List ℕ) (e : PskEntry) → resolver identity ≡ some e → P (identity, e.token)

module _ (P : Credentials → Type 0) where
  given-granted :
      (resolver : List ℕ → Option PskEntry) (out : List ℕ) (held : Option Credentials)
      (id : Option (List ℕ)) (g : OpensslPsk) (who : Credentials)
      → GrantsPsk P resolver
      → Given resolver out held id g
      → g.credentials ≡ some who
      → P who ⊎ (held ≡ some who)
  given-granted resolver out held id g who grants Given.aborted h = inr h
  given-granted resolver out held id g who grants (Given.accepted identity e text hit fits) h =
      let it : (identity, e.token) ≡ who = ground arith in inl (rw (← it) (grants identity e hit))

  pub ask-granted :
      (resolver : List ℕ → Option PskEntry) (asked : List (Option (List ℕ) × List ℕ))
      (held : Option Credentials) (who : Credentials)
      → GrantsPsk P resolver
      → ask resolver asked held ≡ some who
      → P who ⊎ (held ≡ some who)
  unfolding ask
  ask-granted resolver [] held who grants h = inr h
  ask-granted resolver ((id, out) ∷ asked) held who grants h =
      elim (ask-granted resolver asked (psk_callback resolver id out held).credentials who grants
        h) [
          | inl granted ↦ inl granted
          | inr now ↦
              given-granted resolver out held id (psk_callback resolver id out held) who grants
                (psk_callback-Given resolver id out held) now
        ]
