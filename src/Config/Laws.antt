-- ===== src/Config/Laws.antt =====
-- Which settings loft/src/config.rs accepts.
use loft.Prelude.{
  ℕ, zero, suc, ◌≤◌, ◌≡◌, ◌↔◌, refl, sym, ap, Option, none, some, List, Option-cases, inl, inr,
  arith,
}
use loft.Prelude.Text.{trim, parse_u64}
use loft.Coap.Block.Defs.{max_szx, size_for}
use loft.Config.{find_szx, szx_for_bytes, parse_udp_max_block}

szx_for_bytes-of : (szx : ℕ) → szx ≤ max_szx → szx_for_bytes (size_for szx) ≡ some szx
unfolding szx_for_bytes find_szx
szx_for_bytes-of zero h = refl
szx_for_bytes-of (suc zero) h = refl
szx_for_bytes-of (suc (suc zero)) h = refl
szx_for_bytes-of (suc (suc (suc zero))) h = refl
szx_for_bytes-of (suc (suc (suc (suc zero)))) h = refl
szx_for_bytes-of (suc (suc (suc (suc (suc zero))))) h = refl
szx_for_bytes-of (suc (suc (suc (suc (suc (suc zero)))))) h = refl
szx_for_bytes-of (suc (suc (suc (suc (suc (suc (suc n))))))) h = absurd (omega arith)

-- The exponent for a size of bytes is the one whose size it is.
szx_for_bytes-size_for :
    (bytes szx : ℕ) → (szx_for_bytes bytes ≡ some szx) ↔ ((size_for szx ≡ bytes) × (szx ≤ max_szx))
unfolding szx_for_bytes find_szx
szx_for_bytes-size_for bytes szx = (λ h. ground arith, λ h. rw (← h.0) (szx_for_bytes-of szx h.1))

-- A UDP block limit is accepted exactly when it is the decimal text of a CoAP block size, 16 to 1024
-- bytes, and the limit is that size's exponent.
pub parse_udp_max_block_iff :
    (raw : List ℕ) (szx : ℕ)
    → (parse_udp_max_block (some raw) ≡ some szx)
      ↔ ((parse_u64 (trim raw) ≡ some (size_for szx)) × (szx ≤ max_szx))
unfolding parse_udp_max_block
parse_udp_max_block_iff raw szx = elim (Option-cases (parse_u64 (trim raw))) [
  | inl none_read ↦ rw none_read (λ h. absurd (ground arith), λ h. absurd (ground arith))
  | inr (bytes, read) ↦ rw read (
    λ h. let found = (szx_for_bytes-size_for bytes szx).0 h in (ap some (sym found.0), found.1),
    λ h. (szx_for_bytes-size_for bytes szx).1 (ground (arith, h.0), h.1),
  )
]

pub parse_udp_max_block-le :
    (value : Option (List ℕ)) (szx : ℕ) → parse_udp_max_block value ≡ some szx → szx ≤ max_szx
unfolding parse_udp_max_block
parse_udp_max_block-le none szx h = ground arith
parse_udp_max_block-le (some raw) szx h = ((parse_udp_max_block_iff raw szx).0 h).1
