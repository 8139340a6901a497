-- ===== src/Prelude/Text.antt =====
-- What the source uses of Rust's `str`, on text as the list of its UTF-8 bytes.
use Prim.Native.Nat.{ℕ, zero, suc, ◌+◌, ◌-◌, ◌*◌, ◌^◌, ◌≤◌}
use mathlib.Core.Path.{◌≡◌}
use mathlib.Core.Bool.{Bool, ◌&&◌, ◌||◌}
use mathlib.Core.List.{List, [], ◌∷◌, reverse}
use mathlib.Core.Option.{Option, none, some}
use native.Mathlib.Omega.{arith}
use loft.Prelude.Tests.{ltb, leb, ◌==◌, if◌then◌else◌, Option-cases}
use mathlib.Core.Logic.{inl, inr}

abbrev pub is_space : ℕ → Bool
is_space c = c == 32 || (leb 9 c && leb c 13)

-- Characters of two and three bytes with the property `White_Space`.
abbrev pub is_space2 : ℕ → ℕ → Bool
is_space2 a b = a == 0xc2 && (b == 0x85 || b == 0xa0)

abbrev pub is_space3 : ℕ → ℕ → ℕ → Bool
is_space3 a b c =
    (a == 0xe1 && b == 0x9a && c == 0x80)
    || (a == 0xe2
        && b == 0x80
        && ((leb 0x80 c && leb c 0x8a) || c == 0xa8 || c == 0xa9 || c == 0xaf))
    || (a == 0xe2 && b == 0x81 && c == 0x9f)
    || (a == 0xe3 && b == 0x80 && c == 0x80)

-- How many bytes the white space in front has, 0 if there is none, and that at the end of the reversed text.
abbrev pub space_len : List ℕ → ℕ
space_len [] = 0
space_len (a ∷ []) = if is_space a then 1 else 0
space_len (a ∷ b ∷ []) = if is_space a then 1 else if is_space2 a b then 2 else 0
space_len (a ∷ b ∷ c ∷ cs) =
    if is_space a then 1 else if is_space2 a b then 2 else if is_space3 a b c then 3 else 0

abbrev pub space_len_back : List ℕ → ℕ
space_len_back [] = 0
space_len_back (a ∷ []) = if is_space a then 1 else 0
space_len_back (a ∷ b ∷ []) = if is_space a then 1 else if is_space2 b a then 2 else 0
space_len_back (a ∷ b ∷ c ∷ cs) =
    if is_space a then 1 else if is_space2 b a then 2 else if is_space3 c b a then 3 else 0

-- White space goes from the front, after so many bytes that go anyway.
unfoldable pub drop_space : (List ℕ → ℕ) → ℕ → List ℕ → List ℕ
drop_space len n [] = []
drop_space len (suc n) (c ∷ cs) = drop_space len n cs
drop_space len zero (c ∷ cs) =
    let here = len (c ∷ cs) in
    let rest = drop_space len (here - 1) cs in if here == 0 then c ∷ cs else rest

unfoldable pub trim : List ℕ → List ℕ
unfolding drop_space
trim s = reverse (drop_space space_len_back 0 (reverse (drop_space space_len 0 s)))

unfoldable pub strip_prefix : List ℕ → List ℕ → Option (List ℕ)
strip_prefix [] s = some s
strip_prefix (p ∷ ps) [] = none
strip_prefix (p ∷ ps) (c ∷ cs) = let rest = strip_prefix ps cs in if p == c then rest else none

abbrev pub cons_first : ℕ → Option (List ℕ × List ℕ) → Option (List ℕ × List ℕ)
cons_first c none = none
cons_first c (some (a, b)) = some (c ∷ a, b)

-- `split_once`: the parts before and after the first `sep`.
unfoldable pub split_once : ℕ → List ℕ → Option (List ℕ × List ℕ)
split_once sep [] = none
split_once sep (c ∷ cs) =
    let rest = split_once sep cs in if c == sep then some ([], cs) else cons_first c rest

-- The value of a digit in a radix up to 16, by `char::to_digit`.
unfoldable pub to_digit : ℕ → ℕ → Option ℕ
to_digit radix c =
    let value =
      if leb b'0' c && leb c b'9'
      then c - b'0'
      else if leb b'a' c && leb c b'z'
      then c - b'a' + 10
      else if leb b'A' c && leb c b'Z'
      then c - b'A' + 10
      else 36 in
    if ltb value radix then some value else none

abbrev pub shift_digit : ℕ → ℕ → ℕ → Option ℕ → Option ℕ
shift_digit limit radix acc none = none
shift_digit limit radix acc (some d) =
    if ltb limit (acc * radix + d) then none else some (acc * radix + d)

-- Digits to the end, each checked against the largest value.
unfoldable pub parse_digits : ℕ → ℕ → ℕ → List ℕ → Option ℕ
unfolding to_digit
parse_digits limit radix acc [] = some acc
parse_digits limit radix acc (c ∷ cs) = elim (shift_digit limit radix acc (to_digit radix c)) [
  | none ↦ none
  | some acc' ↦ parse_digits limit radix acc' cs
]

-- `from_str_radix` of an unsigned type: digits behind an optional `+`.
unfoldable pub from_str_radix : ℕ → ℕ → List ℕ → Option ℕ
unfolding parse_digits
from_str_radix limit radix [] = none
from_str_radix limit radix (c ∷ []) =
    if c == b'+' then none else parse_digits limit radix 0 (c ∷ [])
from_str_radix limit radix (c ∷ d ∷ cs) =
    if c == b'+'
    then parse_digits limit radix 0 (d ∷ cs)
    else parse_digits limit radix 0 (c ∷ d ∷ cs)

unfoldable pub parse_u64 : List ℕ → Option ℕ
unfolding from_str_radix
parse_u64 s = from_str_radix (2 ^ 64 - 1) 10 s

shift_digit-le :
    (limit radix acc : ℕ) (d : Option ℕ) (a : ℕ)
    → shift_digit limit radix acc d ≡ some a
    → a ≤ limit
shift_digit-le limit radix acc none a e = absurd (ground arith)
shift_digit-le limit radix acc (some d) a e = ground arith

parse_digits-le :
    (limit radix acc : ℕ) (s : List ℕ) (n : ℕ)
    → acc ≤ limit
    → parse_digits limit radix acc s ≡ some n
    → n ≤ limit
unfolding parse_digits
parse_digits-le limit radix acc [] n h e = ground arith
parse_digits-le limit radix acc (c ∷ cs) n h e =
    elim (Option-cases (shift_digit limit radix acc (to_digit radix c))) [
      | inl p ↦ absurd (ground arith)
      | inr (a, p) ↦
          parse_digits-le limit radix a cs n (shift_digit-le limit radix acc (to_digit radix c) a p)
            (ground arith)
    ]

-- What parses is within the limit.
pub from_str_radix-le :
    (limit radix : ℕ) (s : List ℕ) (n : ℕ) → from_str_radix limit radix s ≡ some n → n ≤ limit
unfolding from_str_radix
from_str_radix-le limit radix [] n e = absurd (ground arith)
from_str_radix-le limit radix (c ∷ []) n e =
    ground (arith, parse_digits-le limit radix 0 (c ∷ []) n (omega arith))
from_str_radix-le limit radix (c ∷ d ∷ cs) n e = ground (
  arith,
  parse_digits-le limit radix 0 (d ∷ cs) n (omega arith),
  parse_digits-le limit radix 0 (c ∷ d ∷ cs) n (omega arith),
)
