-- ===== src/Handler/Response/Download.antt =====
-- A body fetched block by block through `json_response` of loft/src/handler.rs.
use loft.Prelude.{
  ℕ, zero, suc, ◌+◌, ◌-◌, ◌*◌, ◌^◌, ◌%◌, ◌≤◌, ◌<◌, ◌≡◌, ◌⊎◌, ◌≢◌, refl, ap, ◌∙◌, min, false, ◌&&◌,
  inl, inr, Option, none, some, List, ◌++◌, ltb, leb, ◌==◌, length, drop, drop-drop,
  take-append-drop, take_of_length-le, length-drop, if◌then◌else◌, arith, Bool-cases, le→leb,
  lt→ltb,
}
use native.Mathlib.Decide.{dec_lt}
use loft.Coap.Code
use loft.Coap.Message.{Message, response, set_option_uint, option_uint}
use loft.Coap.Message.Options.{option_uint-set_option_uint, option_uint-set_option_uint_ne}
use loft.Coap.Block.Defs.{Block, size_for, max_szx, encode, offset, capped}
use loft.Coap.Block.Laws.{decode_block-encode, encode-sum, size_for-pos}
use loft.Handler.Types.{Transport, Method, UpstreamResponse, ok, block_of, slice}
use loft.Handler.Response.{
  response_block, max_szx_for, json_head, json_block, json_response, success_code, with_size,
  served, block_end,
}

-- A client's block at a place in the body: what it gets, and what is still to come.
slice-rest :
    (full : List ℕ) (start step : ℕ)
    → start + step < length full
    → slice full start (min (start + step) (length full)) ++ drop (start + step) full
      ≡ drop start full
unfolding slice
slice-rest full start step h =
    let inner : min (start + step) (length full) ≡ start + step = omega arith in
    let width : start + step - start ≡ step = omega arith in
    rw
      (
        inner,
        le→leb start (start + step) (omega arith),
        le→leb (start + step) (length full) (omega arith),
        width,
        ← drop-drop start step full,
      )
      (take-append-drop step (drop start full))

slice-last :
    (full : List ℕ) (start step : ℕ)
    → start ≤ length full
    → length full ≤ start + step
    → slice full start (min (start + step) (length full)) ≡ drop start full
unfolding slice
slice-last full start step h k =
    let inner : min (start + step) (length full) ≡ length full = omega arith in
    rw (inner, le→leb start (length full) h, le→leb (length full) (length full) (omega arith))
      (take_of_length-le (length full - start) (drop start full)
        (omega (arith, length-drop start full)))

option_uint-payload :
    (m : Message) (bytes : List ℕ) (number : ℕ)
    → option_uint (record m { payload = bytes }) number ≡ option_uint m number
unfolding option_uint
option_uint-payload m bytes number = refl

encode-small : (b : Block) → b.num < 2 ^ 28 → encode b < 2 ^ 32
encode-small b small = rw (encode-sum b small) (ground arith)

distinct : Code.block2 ≢ Code.size2
distinct e = omega arith

option_uint-with_size :
    (b : Block) (total : ℕ) (out : Message)
    → option_uint (with_size b total out) Code.block2 ≡ option_uint out Code.block2
option_uint-with_size b total out = elim (Bool-cases (b.num == 0)) [
  | inl first ↦
      rw first (option_uint-set_option_uint_ne out Code.size2 (total % 2 ^ 32) Code.block2 distinct)
  | inr later ↦ rw later refl
]

-- The Block2 option of a block response names the block and says whether more follows.
block_of-json_block :
    (req : Message) (success : ℕ) (full : List ℕ) (b : Block)
    → b.num < 2 ^ 28
    → b.szx ≤ max_szx
    → leb (length full) (offset b) && ltb 0 b.num ≡ false
    → block_of (json_block req success full (some b)) Code.block2
      ≡ some (served b (ltb (block_end b full) (length full)))
unfolding block_of json_block
block_of-json_block req success full b small legal inside =
    let s : Block = served b (ltb (block_end b full) (length full)) in
    rw
      (
        inside,
        option_uint-payload (with_size b (length full) (json_head req success b full))
            (slice full (offset b) (block_end b full)) Code.block2,
        option_uint-with_size b (length full) (json_head req success b full),
        option_uint-set_option_uint
            (set_option_uint (response success req) Code.content_format Code.json) Code.block2
            (encode s) (encode-small s small),
      )
      (decode_block-encode s small legal)

-- A client that asks for block after block of a body, until a response says that no more follows.
abbrev pub prepend : List ℕ → Option (List ℕ) → Option (List ℕ)
prepend bytes none = none
prepend bytes (some rest) = some (bytes ++ rest)

unfoldable pub read_on : Option Block → List ℕ → Option (List ℕ) → Option (List ℕ)
read_on none bytes rest = none
read_on (some b) bytes rest = if b.more then prepend bytes rest else some bytes

abbrev pub block_at : ℕ → ℕ → Block
block_at k szx = record { num = k; more = false; szx = szx }

-- The client's request for a block: its request with the Block2 option set.
abbrev pub ask : Message → ℕ → ℕ → Message
ask req szx k = set_option_uint req Code.block2 (encode (block_at k szx))

abbrev pub reply : Message → ℕ → UpstreamResponse → Transport → ℕ → ℕ → Message
reply req limit r transport szx k = json_response limit (ask req szx k) (ok r) Method.get transport

unfoldable pub download : Message → ℕ → UpstreamResponse → Transport → ℕ → ℕ → ℕ → Option (List ℕ)
download req limit r transport szx zero k = none
download req limit r transport szx (suc fuel) k =
    let out = reply req limit r transport szx k in
    read_on (block_of out Code.block2) out.payload (download req limit r transport szx fuel (suc k))

module _ (req : Message) (limit : ℕ) (r : UpstreamResponse) (transport : Transport) (szx : ℕ)
    (fits : szx ≤ max_szx_for limit transport) (legal : szx ≤ max_szx) (fine : r.status < 300)
    (short : length r.body < 2 ^ 28) where
  inside_guard :
      (k : ℕ)
      → (k * size_for szx < length r.body) ⊎ (k ≡ 0)
      → leb (length r.body) (offset (block_at k szx)) && ltb 0 k ≡ false
  inside_guard k inside = ground arith

  small_number : (k : ℕ) → (k * size_for szx < length r.body) ⊎ (k ≡ 0) → k < 2 ^ 28
  small_number k inside = grind (arith, size_for-pos szx)

  asked_block : (k : ℕ) → capped (block_at k szx) (max_szx_for limit transport) ≡ block_at k szx
  unfolding capped
  asked_block k = rw (le→leb szx (max_szx_for limit transport) fits) refl

  asks : (k : ℕ) → k < 2 ^ 28 → block_of (ask req szx k) Code.block2 ≡ some (block_at k szx)
  unfolding block_of
  asks k small =
      rw
        (option_uint-set_option_uint req Code.block2 (encode (block_at k szx))
          (encode-small (block_at k szx) small))
        (decode_block-encode (block_at k szx) small legal)

  reply-json :
      (k : ℕ)
      → k < 2 ^ 28
      → reply req limit r transport szx k
        ≡ json_block
            (ask req szx k)
            (success_code Method.get r.status)
            r.body
            (some (block_at k szx))
  unfolding json_response response_block
  reply-json k small = rw (lt→ltb r.status 300 fine, asks k small, asked_block k) refl

  reply-payload :
      (k : ℕ)
      → (k * size_for szx < length r.body) ⊎ (k ≡ 0)
      → (reply req limit r transport szx k).payload
        ≡ slice r.body (k * size_for szx) (min (k * size_for szx + size_for szx) (length r.body))
  unfolding json_block
  reply-payload k inside = rw (reply-json k (small_number k inside), inside_guard k inside) refl

  reply-block :
      (k : ℕ)
      → (k * size_for szx < length r.body) ⊎ (k ≡ 0)
      → block_of (reply req limit r transport szx k) Code.block2
        ≡ some (
            served
              (block_at k szx)
              (ltb (min (k * size_for szx + size_for szx) (length r.body)) (length r.body)))
  reply-block k inside = rw (reply-json k (small_number k inside)) (
      block_of-json_block (ask req szx k) (success_code Method.get r.status) r.body (block_at k szx)
        (small_number k inside) legal (inside_guard k inside))

  download-from :
      (fuel k : ℕ)
      → (k * size_for szx < length r.body) ⊎ (k ≡ 0)
      → length r.body - k * size_for szx < fuel
      → download req limit r transport szx fuel k ≡ some (drop (k * size_for szx) r.body)
  unfolding download read_on
  download-from zero k inside enough = ground arith
  download-from (suc fuel) k inside enough =
      elim (dec_lt (k * size_for szx + size_for szx) (length r.body)) [
        | yes more ↦
            let on : min (k * size_for szx + size_for szx) (length r.body) < length r.body =
              omega arith in
            let next : suc k * size_for szx ≡ k * size_for szx + size_for szx = grind arith in
            let width = size_for-pos szx in
            let later : download req limit r transport szx fuel (suc k)
                ≡ some (drop (k * size_for szx + size_for szx) r.body) =
              download-from fuel (suc k) (inl (rw next more)) (rw next (omega arith))
              ∙ ap (λ n. some (drop n r.body)) next in
            rw
              (
                reply-block k inside,
                reply-payload k inside,
                lt→ltb (min (k * size_for szx + size_for szx) (length r.body)) (length r.body) on,
                later,
              )
              (ap some (slice-rest r.body (k * size_for szx) (size_for szx) more))
        | no last ↦
            let whole : min (k * size_for szx + size_for szx) (length r.body) ≡ length r.body =
              omega arith in
            let past : k * size_for szx ≤ length r.body = ground arith in
            let stop : ltb (length r.body) (length r.body) ≡ false = ground arith in
            rw (reply-block k inside, reply-payload k inside, whole, stop)
              (ap some (
                rw (← whole)
                  (slice-last r.body (k * size_for szx) (size_for szx) past (omega arith))))
      ]

  -- A client that asks for block 0, 1, 2 and so on in one size, within the transport's limit, of a body
  -- below 2 ^ 28 bytes that the backend answers with success, receives that body whole: one request for
  -- each byte of it and one more are enough.
  pub download_all : download req limit r transport szx (suc (length r.body)) 0 ≡ some r.body
  download_all =
      let front : 0 * size_for szx ≡ 0 = omega arith in
      download-from (suc (length r.body)) 0 (inr refl) (omega arith)
      ∙ ap (λ n. some (drop n r.body)) front
