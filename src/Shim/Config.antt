-- ===== src/Shim/Config.antt =====
-- mbedtls-ffi-shim/src/config.rs: the callbacks that the library runs in a handshake. The set-up of a
-- configuration is a sequence of calls of the library and is not modelled.
use loft.Prelude.{
  ℕ, zero, suc, ◌++◌, take, ◌+◌, ◌≤◌, ◌<◌, ◌≡◌, ◌⊎◌, refl, Bool, true, false, Option, none, some,
  List, [], ◌∷◌, ltb, if◌then◌else◌, if_ind, arith,
}
use loft.Shim.Codes.{ℤ, pos, minus, int_beq}
use loft.Shim.Session.{Session}

pub record ResolvedPsk : Type 0 where
  pub psk : List ℕ
  pub identity : List ℕ
  pub token : List ℕ

-- What the resolver callback does with an identity.
pub data Resolution : Type 0 where
  panicked rejected : Resolution
  resolved : ResolvedPsk → Resolution

-- The key that the handshake goes on with.
pub data HandshakeKey : Type 0 where
  key_of decoy : List ℕ → HandshakeKey
  no_key : HandshakeKey

-- What the calls of one callback give: the code of `mbedtls_ssl_set_hs_psk` for a resolved key, the random
-- bytes that were written before `rng_getrandom` returned, fewer than 32 if it failed, and the code of
-- `mbedtls_ssl_set_hs_psk` for the decoy.
pub record KeyCalls : Type 0 where
  pub installed : ℤ
  pub drawn : List ℕ
  pub decoy_installed : ℤ

abbrev pub zeros : ℕ → List ℕ
zeros zero = []
zeros (suc n) = 0 ∷ zeros n

-- The buffer of 32 bytes, zero where no random byte was written.
abbrev pub decoy_bytes : List ℕ → List ℕ
decoy_bytes drawn = take 32 (drawn ++ zeros 32)

abbrev pub decoy_key : KeyCalls → HandshakeKey
decoy_key k = if int_beq k.decoy_installed (pos 0) then decoy (decoy_bytes k.drawn) else no_key

-- The code that the library gets, the key it is left with, and the session.
pub record PskAnswer (C : Type 0) : Type 0 where
  pub code : ℤ
  pub key : HandshakeKey
  pub session : Session C

-- `reject_with_decoy_psk`: the code is 0 whatever fails.
abbrev pub reject_with_decoy_psk : {C : Type 0} → KeyCalls → Session C → PskAnswer C
reject_with_decoy_psk k s = record { code = pos 0; key = decoy_key k; session = s }

-- What follows `mbedtls_ssl_set_hs_psk`.
abbrev pub accept_psk : {C : Type 0} → KeyCalls → ResolvedPsk → Session C → PskAnswer C
accept_psk k r s =
    if int_beq k.installed (pos 0)
    then record {
      code = pos 0;
      key = key_of r.psk;
      session = record s { credentials = some (r.identity, r.token) };
    }
    else reject_with_decoy_psk k s

abbrev pub psk_answer : {C : Type 0} → KeyCalls → Resolution → Session C → PskAnswer C
psk_answer k panicked s = reject_with_decoy_psk k s
psk_answer k rejected s = reject_with_decoy_psk k s
psk_answer k (resolved r) s = accept_psk k r s

-- A null pointer is an empty identity.
abbrev pub identity_bytes : Option (List ℕ) → List ℕ
identity_bytes none = []
identity_bytes (some identity) = identity

unfoldable pub psk_tramp :
    {C : Type 0} → (List ℕ → Resolution) → KeyCalls → Option (List ℕ) → Session C → PskAnswer C
psk_tramp resolve k id s = psk_answer k (resolve (identity_bytes id)) s

-- `cookie_check_tramp`: the flag after the library's check gave `rc`; `rc` itself is passed on.
unfoldable pub cookie_checked : ℤ → Bool → Bool
cookie_checked rc verified = if int_beq rc (pos 0) then true else verified

-- `take_cookie_verified` of a server: the answer, and the flag that is left.
abbrev pub take_cookie_verified : Bool → Bool × Bool
take_cookie_verified verified = (verified, false)

-- What one `getrandom` gives: bytes, `EINTR`, or another error.
pub data Draw : Type 0 where
  got : ℕ → Draw
  interrupted failed : Draw

-- The calls that `rng_getrandom` makes from an offset on, its code and the offset reached; `none` while
-- it waits for another.
unfoldable pub rng_getrandom : ℕ → ℕ → List Draw → Option (ℤ × ℕ)
rng_getrandom len off [] = if ltb off len then none else some (pos 0, off)
rng_getrandom len off (interrupted ∷ draws) =
    let rest = rng_getrandom len off draws in if ltb off len then rest else some (pos 0, off)
rng_getrandom len off (failed ∷ draws) =
    if ltb off len then some (minus 1, off) else some (pos 0, off)
rng_getrandom len off (got n ∷ draws) =
    let rest = rng_getrandom len (off + n) draws in if ltb off len then rest else some (pos 0, off)

-- The random source never gives more than it is asked for.
abbrev pub Fits : ℕ → ℕ → List Draw → Type 0
Fits len off [] = Unit
Fits len off (interrupted ∷ draws) = Fits len off draws
Fits len off (failed ∷ draws) = Fits len off draws
Fits len off (got n ∷ draws) = (off + n ≤ len) × Fits len (off + n) draws

-- The random callback reports success only when the whole buffer has been filled, and never writes
-- beyond it.
pub rng_getrandom-fills :
    (len off : ℕ) (draws : List Draw) (code : ℤ) (at : ℕ)
    → off ≤ len
    → Fits len off draws
    → rng_getrandom len off draws ≡ some (code, at)
    → ((code ≡ pos 0) × (at ≡ len)) ⊎ ((code ≡ minus 1) × (at < len))
unfolding rng_getrandom
rng_getrandom-fills len off [] code at room fits h = ground arith
rng_getrandom-fills len off (interrupted ∷ draws) code at room fits h =
    ground (arith, rng_getrandom-fills len off draws code at room fits)
rng_getrandom-fills len off (failed ∷ draws) code at room fits h = ground arith
rng_getrandom-fills len off (got n ∷ draws) code at room fits h =
    ground (arith, rng_getrandom-fills len (off + n) draws code at fits.0 fits.1)

-- What the callback may leave of a session `s`.
pub data Answered {C : Type 0} (resolve : List ℕ → Resolution) (k : KeyCalls) (identity : List ℕ)
    (s : Session C) : PskAnswer C → Type 0 where
  accepted :
      (r : ResolvedPsk)
      → resolve identity ≡ resolved r
      → int_beq k.installed (pos 0) ≡ true
      → Answered resolve k identity s (record {
        code = pos 0;
        key = key_of r.psk;
        session = record s { credentials = some (r.identity, r.token) };
      })
  refused :
      ((r : ResolvedPsk) → resolve identity ≡ resolved r → int_beq k.installed (pos 0) ≡ false)
      → Answered resolve k identity s (record { code = pos 0; key = decoy_key k; session = s })

psk_answer-Answered :
    {C : Type 0} (resolve : List ℕ → Resolution) (k : KeyCalls) (identity : List ℕ) (s : Session C)
    (r : Resolution)
    → resolve identity ≡ r
    → Answered resolve k identity s (psk_answer k r s)
psk_answer-Answered resolve k identity s panicked e = Answered.refused (λ p h. ground (arith, e, h))
psk_answer-Answered resolve k identity s rejected e = Answered.refused (λ p h. ground (arith, e, h))
psk_answer-Answered resolve k identity s (resolved p) e =
    if_ind (Answered resolve k identity s) (int_beq k.installed (pos 0))
      (λ installed. Answered.accepted p e installed) (λ failed. Answered.refused (λ q h. failed))

-- The PSK callback never fails the handshake by its code, so that an unknown identity cannot be told
-- from a wrong key. When the identity is resolved and its key can be installed, that key and those
-- credentials are left. In every other case the session is as it was, and the key is the decoy: the 32
-- bytes of the buffer, zero where no random byte was written, or none if it cannot be installed either.
pub psk_tramp-Answered :
    {C : Type 0} (resolve : List ℕ → Resolution) (k : KeyCalls) (id : Option (List ℕ))
    (s : Session C)
    → Answered resolve k (identity_bytes id) s (psk_tramp resolve k id s)
unfolding psk_tramp
psk_tramp-Answered resolve k id s =
    psk_answer-Answered resolve k (identity_bytes id) s (resolve (identity_bytes id)) refl
