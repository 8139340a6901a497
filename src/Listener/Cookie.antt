-- ===== src/Listener/Cookie.antt =====
-- loft/src/dtls_mbed.rs: `transport_id`, the bytes that a cookie is bound to.
use loft.Prelude.{
  ℕ, ◌/◌, ◌%◌, ◌^◌, ◌<◌, ◌≡◌, ap, refl, sym, ◌∙◌, suc, zero, List, [], ◌∷◌, ◌++◌, length, take,
  drop, take-front, drop-front, length-append, arith,
}
use loft.Quota.Defs.{IpAddr, v4, v6}
use loft.Demux.{SocketAddr}

-- The `n` low bytes of a number, the highest first.
unfoldable pub be_bytes : ℕ → ℕ → List ℕ
be_bytes zero a = []
be_bytes (suc n) a = be_bytes n (a / 256) ++ (a % 256 ∷ [])

-- `octets()`
unfoldable pub octets : IpAddr → List ℕ
unfolding be_bytes
octets (v4 a) = be_bytes 4 a
octets (v6 a) = be_bytes 16 a

unfoldable pub transport_id : SocketAddr → List ℕ
unfolding octets be_bytes
transport_id (ip, port) = octets ip ++ be_bytes 2 port

-- An address as it can occur: 32 or 128 bits, and a 16-bit port.
abbrev pub FitsIp : IpAddr → Type 0
FitsIp (v4 a) = a < 256 ^ 4
FitsIp (v6 a) = a < 256 ^ 16

abbrev pub FitsAddr : SocketAddr → Type 0
FitsAddr (ip, port) = FitsIp ip × (port < 256 ^ 2)

pub length-be_bytes : (n a : ℕ) → length (be_bytes n a) ≡ n
unfolding be_bytes
length-be_bytes zero a = omega arith
length-be_bytes (suc n) a =
    omega (arith, length-be_bytes n (a / 256), length-append (be_bytes n (a / 256)) (a % 256 ∷ []))

-- Lists that begin with parts of the same length.
front_eq :
    (n : ℕ) (xs ys us vs : List ℕ)
    → n ≡ length xs
    → n ≡ length ys
    → xs ++ us ≡ ys ++ vs
    → (xs ≡ ys) × (us ≡ vs)
front_eq n xs ys us vs hx hy h = (
  sym (take-front n xs us hx) ∙ ap (take n) h ∙ take-front n ys vs hy,
  sym (drop-front n xs us hx) ∙ ap (drop n) h ∙ drop-front n ys vs hy,
)

head_eq : (x y : ℕ) → x ∷ [] ≡ y ∷ [] → x ≡ y
head_eq x y h = ground arith

be_bytes-injective : (n a b : ℕ) → a < 256 ^ n → b < 256 ^ n → be_bytes n a ≡ be_bytes n b → a ≡ b
unfolding be_bytes
be_bytes-injective zero a b ha hb h = omega arith
be_bytes-injective (suc n) a b ha hb h =
    let split =
      front_eq n (be_bytes n (a / 256)) (be_bytes n (b / 256)) (a % 256 ∷ []) (b % 256 ∷ [])
        (sym (length-be_bytes n (a / 256))) (sym (length-be_bytes n (b / 256))) h in
    let high : a / 256 ≡ b / 256 =
      be_bytes-injective n (a / 256) (b / 256) (omega arith) (omega arith) split.0 in
    let low = head_eq (a % 256) (b % 256) split.1 in omega (arith, high, low)

octets_with :
    (n m a b p q : ℕ) → be_bytes n a ++ be_bytes 2 p ≡ be_bytes m b ++ be_bytes 2 q → n ≡ m
octets_with n m a b p q h =
    let lengths = ap length h in
    omega (
      arith,
      lengths,
      length-append (be_bytes n a) (be_bytes 2 p),
      length-append (be_bytes m b) (be_bytes 2 q),
      length-be_bytes n a,
      length-be_bytes m b,
      length-be_bytes 2 p,
      length-be_bytes 2 q,
    )

same_family :
    (n a b p q : ℕ)
    → a < 256 ^ n
    → b < 256 ^ n
    → p < 256 ^ 2
    → q < 256 ^ 2
    → be_bytes n a ++ be_bytes 2 p ≡ be_bytes n b ++ be_bytes 2 q
    → (a ≡ b) × (p ≡ q)
same_family n a b p q ha hb hp hq h =
    let split =
      front_eq n (be_bytes n a) (be_bytes n b) (be_bytes 2 p) (be_bytes 2 q)
        (sym (length-be_bytes n a)) (sym (length-be_bytes n b)) h in
    (be_bytes-injective n a b ha hb split.0, be_bytes-injective 2 p q hp hq split.1)

-- Two sources that may occur have the same encoding only if they are the same: neither the families nor
-- an address and a port can be confused.
pub transport_id-injective :
    (a b : SocketAddr) → FitsAddr a → FitsAddr b → transport_id a ≡ transport_id b → a ≡ b
unfolding transport_id octets
transport_id-injective (v4 a, p) (v4 b, q) (ha, hp) (hb, hq) h =
    let same = same_family 4 a b p q ha hb hp hq h in rw (same.0, same.1) refl
transport_id-injective (v6 a, p) (v6 b, q) (ha, hp) (hb, hq) h =
    let same = same_family 16 a b p q ha hb hp hq h in rw (same.0, same.1) refl
transport_id-injective (v4 a, p) (v6 b, q) ha hb h =
    absurd (omega (arith, octets_with 4 16 a b p q h))
transport_id-injective (v6 a, p) (v4 b, q) ha hb h =
    absurd (omega (arith, octets_with 16 4 a b p q h))
