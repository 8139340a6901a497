-- ===== src/Datagrams/Held.antt =====
-- How long a response stays on record in loft/src/dtls_common.rs, whatever else arrives.
use loft.Prelude.{
  ℕ, ◌-◌, ◌<◌, ◌≡◌, refl, true, none, some, List, [], ◌∷◌, bytes_eq, bytes_eq→eq, ◌+◌, ◌≤◌, ◌≢◌,
  suc, if◌then◌else◌, Bool-cases, inl, inr, lt→ltb, arith, All,
}
use loft.Prelude.Eq.{nat_eq}
use loft.Prelude.Assoc.{lookup, Distinct, lookup-retain}
use loft.Coap.Code.{is_request}
use loft.Coap.Wire.Defs.{ok}
use loft.Coap.Udp.Defs.{Datagram, decode}
use loft.Handler.Types.{DeviceSession}
use loft.Handler.Route.{Env}
use loft.Datagrams.{
  Entries, ttl, max_entries, record_sent, is_live, get, Conn, Clock, execute, process_datagram,
}
use loft.Datagrams.Process.{process_ind}
use loft.Datagrams.Age.{young, young-get-le, young-record_sent-le, record_sent-keeps}
use loft.Datagrams.Dedup.{IsWithin, get-IsWithin, record_sent-IsWithin}
use loft.Datagrams.Answers.{process-again}

get-held :
    (now other mid at : ℕ) (sent : List ℕ) (entries : Entries)
    → Distinct entries
    → lookup mid entries ≡ some (sent, at)
    → now - at < ttl
    → lookup mid (get now other entries).1 ≡ some (sent, at)
unfolding get
get-held now other mid at sent entries distinct held soon =
    rw (lookup-retain (is_live now) mid entries distinct, held, lt→ltb (now - at) ttl soon) refl

pub get-found :
    (now mid at : ℕ) (sent : List ℕ) (entries : Entries)
    → Distinct entries
    → lookup mid entries ≡ some (sent, at)
    → now - at < ttl
    → (get now mid entries).0 ≡ some sent
unfolding get
get-found now mid at sent entries distinct held soon =
    rw (lookup-retain (is_live now) mid entries distinct, held, lt→ltb (now - at) ttl soon) refl

-- The datagrams of a connection in the order of their arrival, each with its surroundings.
abbrev pub Arrivals : Type 0
Arrivals = List (Env × Clock × List ℕ)

-- The connection after datagrams.
unfoldable pub after : DeviceSession → Arrivals → Conn → Conn
after session [] conn = conn
after session ((env, clock, bytes) ∷ arrivals) conn =
    after session arrivals (process_datagram env clock session bytes conn).conn

-- How many of them are not this one.
unfoldable pub others : List ℕ → Arrivals → ℕ
others bytes [] = 0
others bytes ((env, clock, other) ∷ arrivals) =
    (if bytes_eq other bytes then 0 else 1) + others bytes arrivals

-- The cache is looked into within the lifetime of what was recorded at an instant.
abbrev pub IsSoon : ℕ → Clock → Type 0
IsSoon at clock = clock.looked_at - at < ttl

-- A response is recorded, and at most `n` entries are as young.
pub record Held (mid : ℕ) (sent : List ℕ) (at n : ℕ) (entries : Entries) : Type 0 where
  pub within : IsWithin entries
  pub there : lookup mid entries ≡ some (sent, at)
  pub few : young at entries ≤ n

module _ (mid : ℕ) (sent : List ℕ) (at : ℕ) where
  get-Held :
      (now other n : ℕ) (entries : Entries)
      → now - at < ttl
      → Held mid sent at n entries
      → Held mid sent at n (get now other entries).1
  get-Held now other n entries soon h = record {
    within = get-IsWithin now other entries h.within;
    there = get-held now other mid at sent entries h.within.0 h.there soon;
    few = omega (arith, young-get-le at now other entries, h.few);
  }

  record_sent-Held :
      (now other n : ℕ) (response : List ℕ) (entries : Entries)
      → mid ≢ other
      → n < max_entries
      → Held mid sent at n entries
      → Held mid sent at (suc n) (record_sent now other response entries)
  record_sent-Held now other n response entries differ room h = record {
    within = record_sent-IsWithin now other response entries h.within;
    there =
        record_sent-keeps now other mid at response sent entries h.within h.there differ
          (omega (arith, h.few, room));
    few = omega (arith, young-record_sent-le at now other response entries, h.few);
  }

  more-Held :
      (n : ℕ) (entries : Entries) → Held mid sent at n entries → Held mid sent at (suc n) entries
  more-Held n entries h = record { within = h.within; there = h.there; few = omega (arith, h.few) }

  -- A new request has another message id than the one that is recorded.
  differs :
      (now other n : ℕ) (entries : Entries)
      → now - at < ttl
      → Held mid sent at n entries
      → (get now other entries).0 ≡ none
      → mid ≢ other
  differs now other n entries soon h new same =
      let hit = get-found now mid at sent entries h.within.0 h.there soon in
      absurd (ground (arith, hit, rw (← same) at new))

  -- Any datagram, within the lifetime and with room for one more.
  process-Held :
      (env : Env) (clock : Clock) (session : DeviceSession) (bytes : List ℕ) (conn : Conn) (n : ℕ)
      → IsSoon at clock
      → n < max_entries
      → Held mid sent at n conn.dedup
      → Held mid sent at (suc n) (process_datagram env clock session bytes conn).conn.dedup
  unfolding execute
  process-Held env clock session bytes conn n soon room h =
      let live : (d : Datagram)
          → Held mid sent at n (get clock.looked_at d.message_id conn.dedup).1 =
        λ d. get-Held clock.looked_at d.message_id n conn.dedup soon h in
      process_ind (λ p. Held mid sent at (suc n) p.conn.dedup) env clock session conn
        (λ _. more-Held n conn.dedup h) (λ d _. more-Held n _ (live d))
        (λ d new.
          record_sent-Held clock.recorded_at d.message_id n _ _
            (differs clock.looked_at d.message_id n conn.dedup soon h new) room (live d))
        bytes

  -- The request itself.
  again-Held :
      (env : Env) (clock : Clock) (session : DeviceSession) (bytes : List ℕ) (conn : Conn) (n : ℕ)
      (d : Datagram)
      → decode bytes ≡ ok d
      → is_request d.message.code ≡ true
      → d.message_id ≡ mid
      → IsSoon at clock
      → Held mid sent at n conn.dedup
      → Held mid sent at n (process_datagram env clock session bytes conn).conn.dedup
  again-Held env clock session bytes conn n d decoded request id soon h =
      let hit = get-found clock.looked_at mid at sent conn.dedup h.within.0 h.there soon in
      rw (process-again env clock session bytes conn d sent decoded request (rw id hit))
        (get-Held clock.looked_at d.message_id n conn.dedup soon h)

  -- The request itself, and any others.
  pub after-Held :
      (session : DeviceSession) (bytes : List ℕ) (d : Datagram)
      → decode bytes ≡ ok d
      → is_request d.message.code ≡ true
      → d.message_id ≡ mid
      → (arrivals : Arrivals) (conn : Conn) (n : ℕ) → n + others bytes arrivals ≤ max_entries
      → All (λ (x : Env × Clock × List ℕ). IsSoon at x.1) arrivals
      → Held mid sent at n conn.dedup
      → (m : ℕ) × Held mid sent at m (after session arrivals conn).dedup
  unfolding after others
  after-Held session bytes d decoded request id [] conn n room soon h = (n, h)
  after-Held session bytes d decoded request id ((env, clock, other) ∷ arrivals) conn n room soon
        h =
      elim (Bool-cases (bytes_eq other bytes)) [
        | inl same ↦
            let decoded' : decode other ≡ ok d = rw (bytes_eq→eq other bytes same) decoded in
            let count : n + (0 + others bytes arrivals) ≤ max_entries = rw same at room in
            after-Held session bytes d decoded request id arrivals _ n (omega (arith, count)) soon.1
              (again-Held env clock session other conn n d decoded' request id soon.0 h)
        | inr differ ↦
            let count : n + (1 + others bytes arrivals) ≤ max_entries = rw differ at room in
            after-Held session bytes d decoded request id arrivals _ (suc n) (omega (arith, count))
              soon.1 (process-Held env clock session other conn n soon.0 (omega (arith, count)) h)
      ]
