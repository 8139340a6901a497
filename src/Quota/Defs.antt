-- ===== src/Quota/Defs.antt =====
-- `ConnQuota`, `bucket` and `ConnPermit`. A permit is the bucket that it counts in; its `Drop` is
-- `release`.
use loft.Prelude.{
  ℕ, ◌+◌, ◌-◌, ◌*◌, ◌/◌, ◌%◌, ◌^◌, ◌≡◌, ◌↔◌, Bool, true, false, Option, none, some, List, [], leb,
  ◌==◌, if◌then◌else◌, arith,
}
use loft.Prelude.Eq.{Eq}
use loft.Prelude.Assoc.{lookup, insert, remove}

-- `IpAddr`: 32 and 128 bits.
pub data IpAddr : Type 0 where
  v4 : ℕ → IpAddr
  v6 : ℕ → IpAddr

abbrev pub ip_beq : IpAddr → IpAddr → Bool
ip_beq (v4 a) (v4 b) = a == b
ip_beq (v4 a) (v6 b) = false
ip_beq (v6 a) (v4 b) = false
ip_beq (v6 a) (v6 b) = a == b

pub ip_beq_iff : (a b : IpAddr) → (ip_beq a b ≡ true) ↔ (a ≡ b)
ip_beq_iff (v4 a) (v4 b) = (λ h. ground arith, λ h. ground arith)
ip_beq_iff (v4 a) (v6 b) = (λ h. ground arith, λ h. ground arith)
ip_beq_iff (v6 a) (v4 b) = (λ h. ground arith, λ h. ground arith)
ip_beq_iff (v6 a) (v6 b) = (λ h. ground arith, λ h. ground arith)

instance abbrev pub ip_eq : Eq IpAddr
ip_eq = record { beq = ip_beq; beq_iff = ip_beq_iff }

-- `Ipv6Addr::to_ipv4_mapped`: `::ffff:a.b.c.d` is the IPv4 address in its low 32 bits.
unfoldable pub to_ipv4_mapped : ℕ → Option ℕ
to_ipv4_mapped a = if a / 2 ^ 32 == 0xffff then some (a % 2 ^ 32) else none

-- `u128::from(v6) & (!0u128 << 64)`
abbrev pub prefix64 : ℕ → ℕ
prefix64 a = a / 2 ^ 64 * 2 ^ 64

unfoldable pub bucket : IpAddr → IpAddr
unfolding to_ipv4_mapped
bucket (v4 a) = v4 a
bucket (v6 a) = elim (to_ipv4_mapped a) [ some b ↦ v4 b | none ↦ v6 (prefix64 a) ]

pub record ConnQuota : Type 0 where
  pub max_total : ℕ
  pub max_per_ip : ℕ
  pub total : ℕ
  pub per_ip : List (IpAddr × ℕ)

unfoldable pub new_quota : ℕ → ℕ → ConnQuota
new_quota max_total max_per_ip = record {
  max_total = max_total;
  max_per_ip = max_per_ip;
  total = 0;
  per_ip = [];
}

unfoldable pub is_full : ConnQuota → Bool
is_full q = leb q.max_total q.total

abbrev pub unwrap_or_zero : Option ℕ → ℕ
unwrap_or_zero none = 0
unwrap_or_zero (some n) = n

-- `per_ip.get(&ip).copied().unwrap_or(0)`
abbrev pub held : ConnQuota → IpAddr → ℕ
held q ip = unwrap_or_zero (lookup ip q.per_ip)

unfoldable pub try_acquire : ConnQuota → IpAddr → ConnQuota × Option IpAddr
unfolding bucket
try_acquire q addr =
    let ip = bucket addr in
    if leb q.max_total q.total
    then (q, none)
    else if leb q.max_per_ip (held q ip)
    then (q, none)
    else (record q { per_ip = insert ip (held q ip + 1) q.per_ip; total = q.total + 1 }, some ip)

abbrev pub release_ip : Option ℕ → IpAddr → List (IpAddr × ℕ) → List (IpAddr × ℕ)
release_ip none ip m = m
release_ip (some n) ip m = if n - 1 == 0 then remove ip m else insert ip (n - 1) m

-- `Drop for ConnPermit`.
unfoldable pub release : ConnQuota → IpAddr → ConnQuota
release q ip = record q {
  total = q.total - 1;
  per_ip = release_ip (lookup ip q.per_ip) ip q.per_ip;
}
