-- ===== src/Coap/Utf8.antt =====
-- Rust's `String::from_utf8_lossy`, which `Message::path_segments` calls: each maximal prefix of an
-- ill-formed sequence becomes U+FFFD. A `String` is the list of its UTF-8 bytes.
use loft.Prelude.{
  ℕ, ◌-◌, ◌<◌, ◌≡◌, refl, Bool, ◌&&◌, List, [], ◌∷◌, ◌++◌, All, ltb, leb, ◌==◌, if◌then◌else◌,
  arith,
}

-- A sequence that has begun: the bytes read, the range of the next byte, and how many more follow it.
pub data State : Type 0 where
  start : State
  inside : List ℕ → ℕ → ℕ → ℕ → State

abbrev replacement : List ℕ
replacement = 0xEF ∷ 0xBF ∷ 0xBD ∷ []

between : ℕ → ℕ → ℕ → Bool
between lo hi b = leb lo b && leb b hi

-- A byte where a character begins: what is written, and the next state.
begin : ℕ → List ℕ × State
unfolding between
begin b =
    if ltb b 0x80
    then (b ∷ [], start)
    else if between 0xC2 0xDF b
    then ([], inside (b ∷ []) 0x80 0xBF 0)
    else if b == 0xE0
    then ([], inside (b ∷ []) 0xA0 0xBF 1)
    else if b == 0xED
    then ([], inside (b ∷ []) 0x80 0x9F 1)
    else if between 0xE1 0xEF b
    then ([], inside (b ∷ []) 0x80 0xBF 1)
    else if b == 0xF0
    then ([], inside (b ∷ []) 0x90 0xBF 2)
    else if between 0xF1 0xF3 b
    then ([], inside (b ∷ []) 0x80 0xBF 2)
    else if b == 0xF4
    then ([], inside (b ∷ []) 0x80 0x8F 2)
    else (replacement, start)

-- A byte that may continue the sequence. One that does not is read again as a beginning.
step : State → ℕ → List ℕ × State
unfolding begin
step start b = begin b
step (inside read lo hi left) b =
    if between lo hi b
    then if left == 0
      then (read ++ (b ∷ []), start)
      else ([], inside (read ++ (b ∷ [])) 0x80 0xBF (left - 1))
    else (replacement ++ (begin b).0, (begin b).1)

decode_from : State → List ℕ → List ℕ
unfolding step
decode_from start [] = []
decode_from (inside read lo hi left) [] = replacement
decode_from s (b ∷ bs) = let r = step s b in r.0 ++ decode_from r.1 bs

unfoldable pub from_utf8_lossy : List ℕ → List ℕ
unfolding decode_from
from_utf8_lossy bs = decode_from start bs

-- ASCII text is unchanged.
pub from_utf8_lossy_ascii : (bs : List ℕ) → All (λ b. b < 0x80) bs → from_utf8_lossy bs ≡ bs
unfolding from_utf8_lossy
from_utf8_lossy_ascii [] h = refl
from_utf8_lossy_ascii (b ∷ bs) h = ground (arith, from_utf8_lossy_ascii bs h.1)
