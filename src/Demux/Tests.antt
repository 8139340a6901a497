-- ===== src/Demux/Tests.antt =====
-- Runs of the routing of loft/src/dtls_mbed.rs with two sessions, and the laws at them.
use loft.Prelude.{
  ℕ, ◌+◌, ◌*◌, ◌^◌, ◌≡◌, refl, true, false, some, none, List, [], ◌∷◌, ◌++◌, bytes_eq,
}
use loft.Prelude.Eq.{nat_eq, bytes_key, pair_eq}
use loft.Prelude.Assoc.{lookup, insert, remove}
use loft.Quota.Defs.{v4, v6, ip_eq, to_ipv4_mapped}
use loft.Demux.{
  SocketAddr, canonical_peer, Maps, Sessions, sent, cid_of, is_plaintext_handshake, route, promoted,
  cleaned, remove_by_addr_if_mine, remove_by_cid_if_mine,
}
use loft.Demux.Laws.{IsCidOnly, route-IsCidOnly}

program : Unit {0}
unfolding bytes_eq lookup insert remove to_ipv4_mapped canonical_peer cid_of is_plaintext_handshake
    route promoted cleaned remove_by_addr_if_mine remove_by_cid_if_mine
program = tt

abbrev home : SocketAddr
home = (v4 5, 5684)

abbrev cid : ℕ → List ℕ
cid n = n ∷ 0 ∷ 0 ∷ 0 ∷ 0 ∷ 0 ∷ 0 ∷ 0 ∷ []

-- Session 1 was promoted at an address that session 2 then took over.
abbrev maps : Maps
maps = promoted (promoted (record { by_addr = []; by_cid = [] }) home (cid 1) 1) home (cid 2) 2

abbrev sessions : Sessions
sessions = record { channel = λ _. sent; is_established = λ _. true }

-- A record that carries the connection id of session 1.
abbrev record_of_1 : List ℕ
record_of_1 = 25 ∷ 0xfe ∷ 0xfd ∷ 0 ∷ 1 ∷ 0 ∷ 0 ∷ 0 ∷ 0 ∷ 0 ∷ 1 ∷ (cid 1 ++ (0 ∷ 0 ∷ []))

by_cid :
    route sessions maps (v4 9, 1) record_of_1
    ≡ record { maps = maps; delivered = some 1; is_unrouted = false }
unfolding program
by_cid = refl

-- A plaintext handshake record from the address of an established session goes to the stateless path.
reused :
    route sessions maps home (22 ∷ 0xfe ∷ 0xfd ∷ 0 ∷ 0 ∷ [])
    ≡ record { maps = maps; delivered = none; is_unrouted = true }
unfolding program
reused = refl

folded : canonical_peer (v6 (0xffff * 2 ^ 32 + 5), 5684) ≡ home
unfolding program
folded = refl

route-IsCidOnly_example :
    IsCidOnly maps (cid_of record_of_1) (route sessions maps (v4 9, 1) record_of_1)
route-IsCidOnly_example = route-IsCidOnly sessions maps (v4 9, 1) record_of_1 refl
