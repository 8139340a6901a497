-- ===== src/Listener/Tests.antt =====
-- Runs of loft/src/dtls_mbed.rs from the first datagram of a device to a served session, and the laws at
-- them.
use loft.Prelude.{
  ℕ, ◌≡◌, ◌≢◌, refl, Bool, true, false, none, some, List, [], ◌∷◌, codes, bytes_eq, arith,
  if◌then◌else◌,
}
use loft.Prelude.Eq.{nat_eq, bytes_key, pair_eq}
use loft.Prelude.Assoc.{lookup, insert, remove, contains_key}
use loft.Quota.Defs.{v4, ip_eq, to_ipv4_mapped, bucket, new_quota, is_full, try_acquire, release}
use loft.Demux.{
  SocketAddr, canonical_peer, Maps, cid_of, is_plaintext_handshake, route, promoted, cleaned,
  remove_by_addr_if_mine, remove_by_cid_if_mine,
}
use loft.Shim.Codes.{ℤ, pos, minus, err_ssl_want_read}
use loft.Shim.Timer.{TimerState, set, status, final_expired, remaining}
use loft.Shim.Session.{Credentials, handshake_status, read_status, timer_expired}
use loft.Shim.Config.{KeyCalls, Resolution, rejected, resolved, psk_tramp, cookie_checked}
use loft.Listener.Transport.{ConnState, Incoming, arrived, timeout, take_migration, budget, recv}
use loft.Listener.Cookie.{be_bytes, octets, transport_id}
use loft.Listener.Library.{Outside, Context, ask_psk, check_cookie, receive, send_record, call}
use loft.Listener.Calls.{AllTo, Pinned, call-Pinned}
use loft.Listener.Pending.{Attempt, mint_cid, drive, stateless}
use loft.Listener.Outcomes.{Effect, stateless-Effect}
use loft.Listener.Mint.{drawn, mint_cid-ends}
use loft.Listener.Thread.{handshaking, Thread, Shake, library, shake, turn}
use loft.Listener.Deadlines.{recv-expired, shake-ends}
use loft.Listener.World.{World, listen, Step, Reach, start, shared, after_round}
use loft.Listener.Rounds.{Grants}
use loft.Listener.Reachable.{IsSoundWorld, Reach-IsSound}

program : Unit {0}
unfolding bytes_eq lookup insert remove contains_key to_ipv4_mapped bucket new_quota is_full
    try_acquire release canonical_peer cid_of is_plaintext_handshake route promoted cleaned
    remove_by_addr_if_mine remove_by_cid_if_mine set status final_expired remaining handshake_status
    read_status psk_tramp cookie_checked take_migration budget recv be_bytes octets transport_id
    call mint_cid drive stateless library shake turn listen
program = tt

abbrev installs : KeyCalls
installs = record { installed = pos 0; drawn = []; decoy_installed = pos 0 }

abbrev device : SocketAddr
device = (v4 5, 5684)

-- The cookie of an address is the encoding of the address here, and every identity is known.
abbrev resolve : List ℕ → Resolution
resolve [] = rejected
resolve (b ∷ bs) = resolved (record { psk = 1 ∷ []; identity = b ∷ bs; token = 2 ∷ [] })

abbrev check : List ℕ → List ℕ → ℤ
check cookie info = if bytes_eq cookie info then pos 0 else minus 1

abbrev outside : Outside
outside = record { resolve = resolve; check = check }

abbrev hello : List ℕ
hello = 22 ∷ 0xfe ∷ 0xfd ∷ 0 ∷ 0 ∷ []

abbrev cid : List ℕ
cid = 9 ∷ 0 ∷ 0 ∷ 0 ∷ 0 ∷ 0 ∷ 0 ∷ 0 ∷ []

abbrev device_id : List ℕ
device_id = 0 ∷ 0 ∷ 0 ∷ 5 ∷ 22 ∷ 52 ∷ []

-- The datagram with the cookie: it is taken in, checked and answered, and the library waits for more.
abbrev verified : Attempt
verified = record {
  can_set_up = true;
  reset_code = pos 0;
  draws = some cid ∷ [];
  set_id_code = pos 0;
  set_cid_code = pos 0;
  callbacks =
      receive 0 0 2048 Incoming.timeout ∷ check_cookie device_id ∷ send_record (1 ∷ []) true ∷ [];
  code = err_ssl_want_read;
  is_checked_elsewhere = false;
  promoted_at = 100;
  can_spawn = true;
}

abbrev unverified : Attempt
unverified = record verified { callbacks = check_cookie (7 ∷ []) ∷ [] }

id_run : transport_id device ≡ device_id
unfolding program
id_run = refl

abbrev fresh : World
fresh = start 2 1

abbrev room : ℕ → Bool
room conn = true

abbrev promoted_world : World
promoted_world = listen outside 1000 verified room 100 device hello fresh

routes_run :
    promoted_world.listener.maps ≡ record { by_addr = (device, 1) ∷ []; by_cid = (cid, 1) ∷ [] }
unfolding program
routes_run = refl

sent_run : promoted_world.sent ≡ (device, 1 ∷ []) ∷ []
unfolding program
sent_run = refl

-- Without a valid cookie nothing is kept.
spoofed_run :
    (listen outside 1000 unverified room 100 device hello fresh).listener.maps ≡ fresh.listener.maps
unfolding program
spoofed_run = refl

abbrev thread : Thread
thread = record {
  peer = device;
  cid = cid;
  permit = v4 5;
  session = record {
    credentials = none;
    timer = record { int_ms = 0; fin_ms = 0; start = none };
    io = record {
      committed_peer = device;
      staged_peer = device;
      pending = none;
      tick = 1000000000;
      deadline = some 1100;
    };
  };
  phase = handshaking;
  began_at = 100;
  is_established = false;
  cid_active = false;
  addr_routed = true;
  device = none;
  dedup = [];
  next_mid = 0;
  last_activity = 100;
}

thread_run : lookup 1 promoted_world.threads ≡ some thread
unfolding program
thread_run = refl

-- The flight with the identity; an id is negotiated.
abbrev finishing : Shake
finishing = record {
  callbacks = ask_psk (some (codes "p1")) installs ∷ [];
  code = pos 0;
  cid_code = pos 0;
  cid_enabled = pos 1;
  now = 200;
  next_mid = 40;
}

abbrev served_world : World
served_world =
    after_round 1 promoted_world (shake outside 1000 1 finishing thread (shared promoted_world))

established_run :
    (shake outside 1000 1 finishing thread (shared promoted_world)).0.device
    ≡ some (codes "p1", 2 ∷ [])
unfolding program
established_run = refl

-- The token that the resolver gives.
abbrev HasToken : Credentials → Type 0
HasToken who = who.1 ≡ 2 ∷ []

grants : Grants HasToken outside
grants [] r e = absurd (ground arith)
grants (b ∷ bs) r e = ground arith

reached : Reach 1000 2000 (Grants HasToken) (start 2 1) served_world
unfolding program
reached =
    Reach.next
      (Reach.next Reach.here (Step.datagram outside verified room 100 device hello fresh grants))
      (Step.shaking outside 1 finishing thread promoted_world grants thread_run refl)

Reach-IsSound_example : IsSoundWorld HasToken served_world
Reach-IsSound_example = Reach-IsSound HasToken 1000 2000 2 1 reached

stateless-Effect_example :
    Effect outside verified device fresh.listener
      (stateless outside 1000 verified device hello fresh.listener)
    × AllTo device (stateless outside 1000 verified device hello fresh.listener).sent
stateless-Effect_example = stateless-Effect outside 1000 verified device fresh.listener hello

abbrev context : Context
context = record { session = thread.session; verified = false; client_id = device_id; sent = [] }

-- A record from elsewhere does not move the replies.
call-Pinned_example :
    Pinned context (call outside (receive 150 150 2048 (arrived (hello, (v4 9, 1))) ∷ []) context)
call-Pinned_example =
    call-Pinned outside (receive 150 150 2048 (arrived (hello, (v4 9, 1))) ∷ []) context

shake-ends_example :
    (shake outside 50 1 finishing thread (shared promoted_world)).0.phase ≢ handshaking
shake-ends_example = shake-ends outside 50 1 finishing thread (shared promoted_world) (omega arith)

-- A map with one id, and two draws.
abbrev one : Maps
one = record { by_addr = []; by_cid = (cid, 1) ∷ [] }

mint_cid-ends_example :
    (c : List ℕ) × (mint_cid one (drawn (cid ∷ (1 ∷ []) ∷ [])) ≡ some c)
    × (lookup c one.by_cid ≡ none)
mint_cid-ends_example =
    mint_cid-ends one (cid ∷ (1 ∷ []) ∷ []) (((λ e. absurd (ground arith)), tt), (tt, tt))
      (omega arith)

abbrev armed : TimerState
armed = record { int_ms = 100; fin_ms = 400; start = some 0 }

abbrev quiet_io : ConnState
quiet_io = record thread.session.io { deadline = none }

recv-expired_example : recv 0 400000000 armed 2048 timeout quiet_io ≡ (timer_expired, quiet_io)
unfolding program
recv-expired_example =
    recv-expired 0 400000000 2048 armed quiet_io 400000000 refl refl (λ b e. ground arith) refl refl
      (omega arith)
