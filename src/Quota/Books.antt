-- ===== src/Quota/Books.antt =====
-- The counts of loft/src/quota.rs against the permits that are live, as connections come and go.
use loft.Prelude.{
  ℕ, ◌+◌, ◌-◌, ◌*◌, ◌/◌, ◌^◌, ◌≤◌, ◌<◌, ◌≡◌, ◌≢◌, ◌⊎◌, inl, inr, refl, Option, none, some, List, [],
  ◌∷◌, ◌++◌, length, leb, ◌==◌, ◌↔◌, if◌then◌else◌, arith, length-append, Bool-cases,
}
use loft.Prelude.Assoc.{lookup, lookup-insert, lookup-remove, empty_of_lookup}
use loft.Quota.Defs.{
  IpAddr, v4, v6, ip_eq, ip_beq, ip_beq_iff, bucket, ConnQuota, new_quota, held, try_acquire,
  release, release_ip,
}

-- The permits of a bucket among those that are live.
unfoldable pub count : IpAddr → List IpAddr → ℕ
count ip [] = 0
count ip (p ∷ ps) = (if ip_beq p ip then 1 else 0) + count ip ps

pub count-append :
    (ip : IpAddr) (xs ys : List IpAddr) → count ip (xs ++ ys) ≡ count ip xs + count ip ys
unfolding count
count-append ip [] ys = omega arith
count-append ip (x ∷ xs) ys = omega (arith, count-append ip xs ys)

abbrev pub entry : ℕ → Option ℕ
entry n = if n == 0 then none else some n

pub record IsSettled (q : ConnQuota) (live : List IpAddr) : Type 0 where
  pub total : q.total ≡ length live
  pub per_ip : (ip : IpAddr) → lookup ip q.per_ip ≡ entry (count ip live)
  pub ceiling : q.total ≤ q.max_total
  pub share : (ip : IpAddr) → count ip live ≤ q.max_per_ip

-- A listener's quota and the permits that its connections hold.
pub record Table : Type 0 where
  pub quota : ConnQuota
  pub live : List IpAddr

-- The permits after an attempt.
abbrev pub admitted : Option IpAddr → List IpAddr → List IpAddr
admitted none live = live
admitted (some ip) live = ip ∷ live

-- A connection asks for admission, or a live permit is dropped.
pub data Step : Table → Table → Type 0 where
  attempt :
      (q : ConnQuota) (live : List IpAddr) (addr : IpAddr)
      → Step
          (record { quota = q; live = live })
          (record { quota = (try_acquire q addr).0; live = admitted (try_acquire q addr).1 live })
  drop_permit :
      (q : ConnQuota) (before after : List IpAddr) (ip : IpAddr) (live : List IpAddr)
      → live ≡ before ++ (ip ∷ after)
      → Step
          (record { quota = q; live = live })
          (record { quota = release q ip; live = before ++ after })

pub data Reach (s : Table) : Table → Type 0 where
  here : Reach s s
  next : {t u : Table} → Reach s t → Step t u → Reach s u

abbrev pub start : ℕ → ℕ → Table
start max_total max_per_ip = record { quota = new_quota max_total max_per_ip; live = [] }

held-count :
    (q : ConnQuota) (live : List IpAddr) (ip : IpAddr)
    → IsSettled q live
    → held q ip ≡ count ip live
held-count q live ip s = ground (arith, s.per_ip ip)

pub try_acquire-IsSettled :
    (q : ConnQuota) (live : List IpAddr) (addr : IpAddr)
    → IsSettled q live
    → IsSettled (try_acquire q addr).0 (admitted (try_acquire q addr).1 live)
unfolding try_acquire
try_acquire-IsSettled q live addr s = elim (Bool-cases (leb q.max_total q.total)) [
  | inl full ↦ rw full s
  | inr room ↦ elim (Bool-cases (leb q.max_per_ip (held q (bucket addr)))) [
    | inl exhausted ↦ rw (room, exhausted) s
    | inr fair ↦
        rw (room, fair)
          (record {
            total = omega (arith, s.total);
            per_ip = λ ip.
                unfold count in
                ground (
                  arith,
                  s.per_ip ip,
                  lookup-insert (bucket addr) ip (held q (bucket addr) + 1) q.per_ip,
                  ip_beq_iff (bucket addr) ip,
                );
            ceiling = ground arith;
            share = λ ip.
                unfold count in
                ground (
                  arith,
                  s.share ip,
                  ip_beq_iff (bucket addr) ip,
                  held-count q live (bucket addr) s,
                );
          })
  ]
]

-- The count of a bucket with one of its permits gone.
pub count-drop :
    (before after : List IpAddr) (ip j : IpAddr)
    → count j (before ++ (ip ∷ after)) ≡ (if ip_beq ip j then 1 else 0) + count j (before ++ after)
count-drop before after ip j =
    let front = count-append j before (ip ∷ after) in
    let rest = count-append j before after in unfold count in omega (arith, front, rest)

release_ip-entry :
    (q : ConnQuota) (before after : List IpAddr) (ip j : IpAddr)
    → IsSettled q (before ++ (ip ∷ after))
    → lookup j (release_ip (lookup ip q.per_ip) ip q.per_ip) ≡ entry (count j (before ++ after))
release_ip-entry q before after ip j s = ground (
  arith,
  s.per_ip ip,
  s.per_ip j,
  count-drop before after ip ip,
  count-drop before after ip j,
  ip_beq_iff ip ip,
  ip_beq_iff ip j,
  lookup-insert ip j (count ip (before ++ (ip ∷ after)) - 1) q.per_ip,
  lookup-remove ip j q.per_ip,
)

pub release-IsSettled :
    (q : ConnQuota) (before after : List IpAddr) (ip : IpAddr)
    → IsSettled q (before ++ (ip ∷ after))
    → IsSettled (release q ip) (before ++ after)
unfolding release
release-IsSettled q before after ip s = record {
  total = omega (arith, s.total, length-append before (ip ∷ after), length-append before after);
  per_ip = λ j. release_ip-entry q before after ip j s;
  ceiling = omega (arith, s.ceiling);
  share = λ j. omega (arith, s.share j, count-drop before after ip j);
}

Step-IsSettled : {t u : Table} → Step t u → IsSettled t.quota t.live → IsSettled u.quota u.live
Step-IsSettled (attempt q live addr) s = try_acquire-IsSettled q live addr s
Step-IsSettled (drop_permit q before after ip live e) s =
    release-IsSettled q before after ip (rw e at s)

-- From an empty table, after any attempts and drops in any order: the total is the number of live
-- permits and within its ceiling, each bucket's count is that of its live permits and within its
-- share, and a bucket with no permit has no entry.
pub Reach-IsSettled :
    (max_total max_per_ip : ℕ) {t : Table}
    → Reach (start max_total max_per_ip) t
    → IsSettled t.quota t.live
unfolding new_quota count lookup
Reach-IsSettled max_total max_per_ip here = record {
  total = refl;
  per_ip = λ ip. refl;
  ceiling = omega arith;
  share = λ ip. omega arith;
}
Reach-IsSettled max_total max_per_ip (next r st) =
    Step-IsSettled st (Reach-IsSettled max_total max_per_ip r)

-- When every permit has been dropped, no per-address entry is left and the total is 0.
pub Reach-no_residue :
    (max_total max_per_ip : ℕ) {q : ConnQuota}
    → Reach (start max_total max_per_ip) (record { quota = q; live = [] })
    → (q.per_ip ≡ []) × (q.total ≡ 0)
unfolding count
Reach-no_residue max_total max_per_ip r =
    let s = Reach-IsSettled max_total max_per_ip r in
    (empty_of_lookup _ (λ ip. s.per_ip ip), s.total)

-- Admission is refused exactly when the table is full or the source's bucket has its whole share.
pub try_acquire-refuses :
    (q : ConnQuota) (live : List IpAddr) (addr : IpAddr)
    → IsSettled q live
    → ((try_acquire q addr).1 ≡ none)
      ↔ ((q.max_total ≤ length live) ⊎ (q.max_per_ip ≤ count (bucket addr) live))
unfolding try_acquire
try_acquire-refuses q live addr s =
    let now = held-count q live (bucket addr) s in
    (λ h. ground (arith, s.total, now), λ h. ground (arith, s.total, now))

-- A refusal changes nothing.
pub try_acquire-refused :
    (q : ConnQuota) (addr : IpAddr) → (try_acquire q addr).1 ≡ none → (try_acquire q addr).0 ≡ q
unfolding try_acquire
try_acquire-refused q addr h = ground arith

-- An IPv4 source counts in one bucket whether it is seen as itself or mapped into IPv6.
pub bucket-mapped : (a : ℕ) → a < 2 ^ 32 → bucket (v6 (0xffff * 2 ^ 32 + a)) ≡ bucket (v4 a)
unfolding bucket
bucket-mapped a h = ground arith

-- Two IPv6 sources that are not mapped IPv4 share a bucket exactly when they share a /64.
pub bucket-eq_iff :
    (a b : ℕ)
    → a / 2 ^ 32 ≢ 0xffff
    → b / 2 ^ 32 ≢ 0xffff
    → (bucket (v6 a) ≡ bucket (v6 b)) ↔ (a / 2 ^ 64 ≡ b / 2 ^ 64)
unfolding bucket
bucket-eq_iff a b ha hb = (λ e. ground arith, λ e. ground arith)
