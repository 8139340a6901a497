-- ===== src/Dtls/Cookie.antt =====
-- loft/src/dtls.rs: the cookie of a source, and the two callbacks that OpenSSL runs.
use loft.Prelude.{
  ℕ, ◌≡◌, ◌↔◌, refl, sym, ◌∙◌, Bool, true, false, ◌&&◌, Option, none, some, List, ◌++◌, length, ltb,
  ◌==◌, ==_iff, if◌then◌else◌, bytes_eq, arith,
}
use loft.Prelude.Eq.{bytes_eq_iff}
use loft.Demux.{SocketAddr}
use loft.Quota.Defs.{v4, v6}
use loft.Listener.Cookie.{be_bytes, octets, transport_id, FitsAddr, transport_id-injective}

-- The keyed hash of OpenSSL; `none` is an error.
abbrev pub Signer : Type 0
Signer = List ℕ → Option (List ℕ)

unfoldable pub cookie_material : SocketAddr → List ℕ
cookie_material (v4 ip, port) = be_bytes 4 ip ++ be_bytes 2 port
cookie_material (v6 ip, port) = be_bytes 16 ip ++ be_bytes 2 port

unfoldable pub generate_cookie : Signer → SocketAddr → Option (List ℕ)
generate_cookie sign peer = sign (cookie_material peer)

-- `memcmp::eq` is asked only about slices of the same length.
abbrev pub is_expected : List ℕ → Option (List ℕ) → Bool
is_expected cookie none = false
is_expected cookie (some expected) = length cookie == length expected && bytes_eq cookie expected

unfoldable pub verify_cookie : Signer → SocketAddr → List ℕ → Bool
verify_cookie sign peer cookie = is_expected cookie (generate_cookie sign peer)

-- A cookie that fits the buffer of OpenSSL.
abbrev pub fitting : ℕ → Option (List ℕ) → Option (List ℕ)
fitting room none = none
fitting room (some cookie) = if ltb room (length cookie) then none else some cookie

-- The generating callback, for the address that the listener stamped; `none` fails the exchange.
unfoldable pub on_generate : Signer → Option SocketAddr → ℕ → Option (List ℕ)
on_generate sign none room = none
on_generate sign (some peer) room = fitting room (generate_cookie sign peer)

unfoldable pub on_verify : Signer → Option SocketAddr → List ℕ → Bool
on_verify sign none cookie = false
on_verify sign (some peer) cookie = verify_cookie sign peer cookie

same_material : (peer : SocketAddr) → cookie_material peer ≡ transport_id peer
unfolding cookie_material transport_id octets
same_material (v4 ip, port) = refl
same_material (v6 ip, port) = refl

-- Sources that may occur are never given the same bytes to sign.
pub cookie_material-injective :
    (a b : SocketAddr) → FitsAddr a → FitsAddr b → cookie_material a ≡ cookie_material b → a ≡ b
cookie_material-injective a b ha hb h =
    transport_id-injective a b ha hb (sym (same_material a) ∙ h ∙ same_material b)

expected_iff :
    (cookie : List ℕ) (o : Option (List ℕ)) → (is_expected cookie o ≡ true) ↔ (o ≡ some cookie)
expected_iff cookie none = (λ h. absurd (ground arith), λ h. absurd (ground arith))
expected_iff cookie (some expected) = (
  λ h. ground (arith, h, bytes_eq_iff cookie expected),
  λ h. ground (arith, h, bytes_eq_iff cookie expected, ==_iff (length cookie) (length expected)),
)

-- A cookie is accepted exactly when it is the one that signs the source.
pub verify_cookie_iff :
    (sign : Signer) (peer : SocketAddr) (cookie : List ℕ)
    → (verify_cookie sign peer cookie ≡ true) ↔ (generate_cookie sign peer ≡ some cookie)
unfolding verify_cookie
verify_cookie_iff sign peer cookie = expected_iff cookie (generate_cookie sign peer)

fitting_held :
    (room : ℕ) (o : Option (List ℕ)) (cookie : List ℕ)
    → fitting room o ≡ some cookie
    → o ≡ some cookie
fitting_held room none cookie h = absurd (ground arith)
fitting_held room (some c) cookie h = ground arith

-- With a hash in which no two inputs collide, a cookie that was generated for one source is accepted from
-- that source and from no other.
pub on_verify-on_generate :
    (sign : Signer) (a b : SocketAddr) (room : ℕ) (cookie : List ℕ)
    → ((m n c : List ℕ) → sign m ≡ some c → sign n ≡ some c → m ≡ n)
    → FitsAddr a
    → FitsAddr b
    → on_generate sign (some a) room ≡ some cookie
    → (on_verify sign (some b) cookie ≡ true) ↔ (a ≡ b)
unfolding on_generate on_verify generate_cookie
on_verify-on_generate sign a b room cookie free ha hb made =
    let signed = fitting_held room (sign (cookie_material a)) cookie made in
    (
      (λ ok. cookie_material-injective a b ha hb (
          free (cookie_material a) (cookie_material b) cookie signed
            ((verify_cookie_iff sign b cookie).0 ok))),
      (λ e. (verify_cookie_iff sign b cookie).1 (rw (← e) signed)),
    )
