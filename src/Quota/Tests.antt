-- ===== src/Quota/Tests.antt =====
-- Runs of loft/src/quota.rs with a table of two connections, one for each source, and the laws at them.
use loft.Prelude.{◌+◌, ◌*◌, ◌^◌, ◌≤◌, ◌≡◌, ◌↔◌, ◌⊎◌, refl, some, none, [], ◌∷◌, length}
use loft.Prelude.Assoc.{lookup, insert, remove}
use loft.Quota.Defs.{
  v4, v6, ip_eq, to_ipv4_mapped, bucket, ConnQuota, new_quota, is_full, try_acquire, release,
}
use loft.Quota.Books.{
  count, IsSettled, Step, Reach, start, Reach-IsSettled, try_acquire-refuses, try_acquire-refused,
}

program : Unit {0}
unfolding lookup insert remove to_ipv4_mapped bucket new_quota is_full try_acquire release count
program = tt

abbrev one : ConnQuota
one = record { total = 1; max_total = 2; max_per_ip = 1; per_ip = (v4 5, 1) ∷ [] }

first_run : try_acquire (new_quota 2 1) (v4 5) ≡ (one, some (v4 5))
unfolding program
first_run = refl

-- The same host through a dual-stack socket.
second_run : try_acquire one (v6 (0xffff * 2 ^ 32 + 5)) ≡ (one, none)
unfolding program
second_run = refl

reached : Reach (start 2 1) (record { quota = one; live = v4 5 ∷ [] })
unfolding program
reached = Reach.next Reach.here (Step.attempt (new_quota 2 1) [] (v4 5))

Reach-IsSettled_example : IsSettled one (v4 5 ∷ [])
Reach-IsSettled_example = Reach-IsSettled 2 1 reached

try_acquire-refuses_example :
    ((try_acquire one (v6 (0xffff * 2 ^ 32 + 5))).1 ≡ none)
    ↔ ((2 ≤ length (v4 5 ∷ [])) ⊎ (1 ≤ count (bucket (v6 (0xffff * 2 ^ 32 + 5))) (v4 5 ∷ [])))
try_acquire-refuses_example =
    try_acquire-refuses one (v4 5 ∷ []) (v6 (0xffff * 2 ^ 32 + 5)) (Reach-IsSettled 2 1 reached)

try_acquire-refused_example : (try_acquire one (v6 (0xffff * 2 ^ 32 + 5))).0 ≡ one
unfolding program
try_acquire-refused_example = try_acquire-refused one (v6 (0xffff * 2 ^ 32 + 5)) refl
