-- ===== src/Handler/Response/Limit.antt =====
-- The size of what `json_response` of loft/src/handler.rs puts into a datagram.
use loft.Prelude.{
  ℕ, ◌+◌, ◌-◌, ◌*◌, ◌^◌, ◌≤◌, ◌≡◌, ◌⊎◌, sym, ◌∙◌, ap, false, ◌&&◌, some, List, length, drop, ltb,
  leb, Bool-cases, Option-cases, inl, inr, arith, length-take,
}
use loft.Coap.Code
use loft.Coap.Message.{Message}
use loft.Coap.Block.Defs.{Block, size_for, offset, capped}
use loft.Coap.Block.Laws.{offset-capped, pow_add, pow-pos}
use loft.Handler.Types.{udp, Method, Fetched, ok, failed, block_of, slice}
use loft.Handler.Response.{
  error_code, error_response, json_block, json_response, response_block, block_end, success_code,
}

-- A payload within a block of the limit, or that of an error (class 4 or 5) within 128 bytes.
abbrev pub IsWithinLimit : ℕ → Message → Type 0
IsWithinLimit limit m =
    (length m.payload ≤ size_for limit) ⊎ ((128 ≤ m.code) × (length m.payload ≤ 128))

error_code-class : (status : ℕ) → 128 ≤ error_code status
unfolding error_code
error_code-class status = ground arith

length-slice : (bytes : List ℕ) (start end : ℕ) → length (slice bytes start end) ≤ end - start
unfolding slice
length-slice bytes start end = ground (arith, length-take (end - start) (drop start bytes))

size_for_mono : (a b : ℕ) → a ≤ b → size_for a ≤ size_for b
size_for_mono a b h =
    let total : b - a + (a + 4) ≡ b + 4 = omega arith in
    let factor : size_for b ≡ 2 ^ (b - a) * size_for a =
      ap (λ n. 2 ^ n) (sym total) ∙ pow_add (b - a) (a + 4) in
    rw factor (grind (arith, pow-pos (b - a)))

error_response-IsWithinLimit :
    (limit : ℕ) (req : Message) (f : Fetched) → IsWithinLimit limit (error_response req f)
unfolding error_response
error_response-IsWithinLimit limit req (ok r) =
    inr (error_code-class r.status, omega (arith, length-take 128 r.body))
error_response-IsWithinLimit limit req failed = inr (omega arith, omega arith)

json_block-IsWithinLimit :
    (limit : ℕ) (req : Message) (success : ℕ) (full : List ℕ) (b : Block)
    → b.szx ≤ limit
    → IsWithinLimit limit (json_block req success full (some b))
unfolding json_block
json_block-IsWithinLimit limit req success full b h =
    elim (Bool-cases (leb (length full) (offset b) && ltb 0 b.num)) [
      | inl outside ↦ rw outside (inr (omega arith, omega arith))
      | inr inside ↦ rw inside (
          inl (
            omega (
              arith,
              length-slice full (offset b) (block_end b full),
              size_for_mono b.szx limit h,
            )))
    ]

-- On UDP the payload of every JSON response, whatever the backend answers and whatever block the client
-- asks for, is at most one block of the limit; only that of an error, with a code of class 4 or 5, may be
-- larger, and then has at most 128 bytes.
pub json_response-IsWithinLimit :
    (limit : ℕ) (req : Message) (f : Fetched) (method : Method)
    → IsWithinLimit limit (json_response limit req f method udp)
unfolding json_response response_block
json_response-IsWithinLimit limit req failed method = error_response-IsWithinLimit limit req failed
json_response-IsWithinLimit limit req (ok r) method = elim (Bool-cases (ltb r.status 300)) [
  | inr failed_status ↦ rw failed_status (error_response-IsWithinLimit limit req (ok r))
  | inl fine ↦ elim (Option-cases (block_of req Code.block2)) [
    | inr (b, asked) ↦
        rw (fine, asked)
          (json_block-IsWithinLimit limit req (success_code method r.status) r.body (capped b limit)
            (offset-capped b limit).0)
    | inl whole ↦ elim (Bool-cases (ltb (size_for limit) (length r.body))) [
      | inl large ↦
          rw (fine, whole, large)
            (json_block-IsWithinLimit limit req (success_code method r.status) r.body
              (record { num = 0; more = false; szx = limit }) (omega arith))
      | inr small ↦ rw (fine, whole, small) (unfold json_block in inl (ground arith))
    ]
  ]
]
