-- ===== src/Coap/Message/Defs.antt =====
-- `Message`, its constructors and its readers.
use loft.Prelude.{
  ℕ, Bool, false, not, ◌&&◌, ◌||◌, Option, none, some, List, [], ◌∷◌, ◌++◌, map, ◌==◌,
  if◌then◌else◌,
}
use loft.Coap.Code.{is_critical, uri_path}
use loft.Coap.Utf8.{from_utf8_lossy}

abbrev pub OptionEntry : Type 0
OptionEntry = ℕ × List ℕ

pub record Message : Type 0 where
  pub code : ℕ
  pub token : List ℕ
  pub options : List OptionEntry
  pub payload : List ℕ

-- `Message::default()` with a code and a token.
abbrev pub bare : ℕ → List ℕ → Message
bare code token = record { code = code; token = token; options = []; payload = [] }

abbrev pub response : ℕ → Message → Message
response code request = bare code request.token

-- The values of the options with a number, in order.
unfoldable pub values_of : ℕ → List OptionEntry → List (List ℕ)
values_of number [] = []
values_of number ((n, v) ∷ os) =
    let rest = values_of number os in if n == number then v ∷ rest else rest

abbrev pub option_values : Message → ℕ → List (List ℕ)
option_values m number = values_of number m.options

abbrev pub first {ℓ} : {A : Type ℓ} → List A → Option A
first [] = none
first (x ∷ xs) = some x

abbrev pub first_option : Message → ℕ → Option (List ℕ)
first_option m number = first (option_values m number)

-- `self.options.retain(|(n, _)| *n != number)`
unfoldable pub without : ℕ → List OptionEntry → List OptionEntry
without number [] = []
without number ((n, v) ∷ os) =
    let rest = without number os in if n == number then rest else (n, v) ∷ rest

abbrev pub push_option : Message → ℕ → List ℕ → Message
push_option m number value = record m { options = m.options ++ ((number, value) ∷ []) }

unfoldable pub path_segments : Message → List (List ℕ)
path_segments m = map from_utf8_lossy (option_values m uri_path)

unfoldable pub contains : List ℕ → ℕ → Bool
contains [] n = false
contains (k ∷ ks) n = k == n || contains ks n

-- The `find` of `unknown_critical_option`.
unfoldable pub find_critical : List ℕ → List OptionEntry → Option ℕ
find_critical known [] = none
find_critical known ((n, v) ∷ os) =
    let rest = find_critical known os in
    if is_critical n && not (contains known n) then some n else rest

abbrev pub unknown_critical_option : Message → List ℕ → Option ℕ
unknown_critical_option m known = find_critical known m.options
