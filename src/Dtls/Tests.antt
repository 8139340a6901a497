-- ===== src/Dtls/Tests.antt =====
-- Runs of loft/src/dtls.rs, and the laws at them.
use loft.Prelude.{
  ℕ, ◌≡◌, ◌↔◌, refl, Bool, true, false, Option, none, some, List, [], ◌∷◌, bytes_eq, arith,
}
use loft.Prelude.Eq.{nat_eq, pair_eq}
use loft.Prelude.Assoc.{lookup, insert, remove}
use loft.Quota.Defs.{v4, ip_eq, to_ipv4_mapped, bucket, new_quota, is_full, try_acquire, release}
use loft.Demux.{SocketAddr, canonical_peer}
use loft.Coap.Utf8.{from_utf8_lossy}
use loft.Psk.{PskEntry}
use loft.Shim.Session.{Credentials}
use loft.TlsCommon.{is_utf8, resolve_psk_identity, psk_callback}
use loft.Listener.Cookie.{be_bytes}
use loft.Dtls.Cookie.{
  Signer, cookie_material, generate_cookie, verify_cookie, on_generate, on_verify,
  on_verify-on_generate,
}
use loft.Dtls.Io.{arrived, would_block, read}
use loft.Shim.Codes.{pos}
use loft.Dtls.Shim.{dtlsv1_listen}
use loft.Dtls.Listen.{Attempt, listen}
use loft.Dtls.Connection.{Thread, starting, prepare, shake}
use loft.Dtls.World.{World, channels, after_listen, with_thread_at, start}
use loft.TlsCommon.Asked.{GrantsPsk, ask}

program : Unit {0}
unfolding bytes_eq lookup insert remove to_ipv4_mapped bucket new_quota is_full try_acquire release
    canonical_peer from_utf8_lossy is_utf8 resolve_psk_identity psk_callback be_bytes
    cookie_material generate_cookie verify_cookie on_generate on_verify read dtlsv1_listen listen
    prepare ask shake
program = tt

-- Everything signs as itself.
abbrev sign : Signer
sign m = some m

abbrev device : SocketAddr
device = (v4 5, 5684)

abbrev other : SocketAddr
other = (v4 5, 5685)

abbrev cookie : List ℕ
cookie = 0 ∷ 0 ∷ 0 ∷ 5 ∷ 22 ∷ 52 ∷ []

made : on_generate sign (some device) 255 ≡ some cookie
unfolding program
made = refl

on_verify-on_generate_example : (on_verify sign (some other) cookie ≡ true) ↔ (device ≡ other)
on_verify-on_generate_example =
    on_verify-on_generate sign device other 255 cookie (λ m n c h k. ground (arith, h, k))
      (omega arith, omega arith) (omega arith, omega arith) made

-- A datagram that does not fit is no truncated one.
oversized :
    read 0 2 (arrived (1 ∷ 2 ∷ 3 ∷ [])) (record { peer = device; tick = 0; deadline = some 10 })
    ≡ would_block
unfolding program
oversized = refl

abbrev verified : Attempt
verified = record {
  can_set_up = true;
  is_fed = true;
  cookies = cookie ∷ [];
  version = 0x30000000;
  has_addr = true;
  ret = pos 1;
  can_spawn = true;
}

abbrev room : ℕ → Bool
room c = true

abbrev fresh : World
fresh = start 2 2

abbrev first_world : World
first_world =
    after_listen device verified fresh
      (listen verified (channels room fresh.threads) device fresh.listener)

conns_run : first_world.listener.conns ≡ (device, 0) ∷ []
unfolding program
conns_run = refl

abbrev resolver : List ℕ → Option PskEntry
resolver identity = some (record { psk = 1 ∷ []; token = 2 ∷ [] })

abbrev HasToken : Credentials → Type 0
HasToken who = who.1 ≡ 2 ∷ []

grants : GrantsPsk HasToken resolver
grants identity e h = ground arith

abbrev thread : ℕ → Thread
thread channel = record {
  peer = device;
  permit = v4 5;
  stream = record {
    channel = channel;
    io = record { peer = device; tick = 0; deadline = none };
    stamped = some device;
    credentials = none;
  };
  phase = starting;
  began_at = 0;
  session = none;
  dedup = [];
  next_mid = 0;
  last_activity = 0;
}

-- The MTU cannot be set, and the thread of the first connection is at its end.
abbrev ending_world : World
ending_world = with_thread_at 0 (prepare 1000 0 0 false (thread 0)) first_world

-- Before it has removed its entry, the device comes back, and earns a new connection.
abbrev second_world : World
second_world =
    after_listen device verified ending_world
      (listen verified (channels room ending_world.threads) device ending_world.listener)

second_run : second_world.listener.conns ≡ (device, 1) ∷ []
unfolding program
second_run = refl

ended_run : lookup 0 second_world.threads ≡ some (prepare 1000 0 0 false (thread 0))
unfolding program
ended_run = refl

-- The end of the first thread then takes the entry of the second connection, which still runs.
abbrev removed_conns : List (SocketAddr × ℕ)
removed_conns = remove device second_world.listener.conns

lost_run : removed_conns ≡ []
unfolding program
lost_run = refl

running_run : lookup 1 second_world.threads ≡ some (thread 1)
unfolding program
running_run = refl
