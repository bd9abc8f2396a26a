-- ===== src/Wql/Names.antt =====
-- runtime/src/wql/parser.rs: `parse_temporal_from_name` and `extract_base_field_name`, with the
-- functions of `str` that they use.
use Prim.Native.String.{String, [], ◌∷◌}
use Prim.Native.Char.{Char, code as char_code}
use agentic_vision.Prelude.{
  ℕ, zero, suc, ◌+◌, ◌*◌, ◌-◌, ◌^◌, Option, none, some, Bool, true, false, ◌&&◌, ◌==◌, leb, ltb,
  if◌then◌else◌, str_eq,
}
use agentic_vision.Prelude.Int.{ℤ, pos, negsuc}
use agentic_vision.Wql.Syntax.{
  TemporalFunc, value_ago, trend, predicted, best_historic, best_historic_domain,
}

abbrev pub same_char : Char → Char → Bool
same_char c d = char_code c == char_code d

unfoldable pub strip_prefix : String → String → Option String
strip_prefix [] s = some s
strip_prefix (c ∷ p) [] = none
strip_prefix (c ∷ p) (d ∷ s) = if same_char c d then strip_prefix p s else none

abbrev after_char : Char → Option String → Option String
after_char c none = none
after_char c (some s) = some (c ∷ s)

unfoldable pub strip_suffix : String → String → Option String
strip_suffix t [] = if str_eq [] t then some [] else none
strip_suffix t (c ∷ s) =
    let later = strip_suffix t s in if str_eq (c ∷ s) t then some [] else after_char c later

-- What stands before and behind the last character with this code: `rfind` and the two slices.
unfoldable pub split_last : ℕ → String → Option (String × String)
split_last u [] = none
split_last u (c ∷ s) = elim (split_last u s) [
  | some (before, after) ↦ some (c ∷ before, after)
  | none ↦ if char_code c == u then some ([], s) else none
]

-- The digits of a decimal number, which has one at least.
unfoldable pub digits : String → ℕ → Option ℕ
digits [] n = some n
digits (c ∷ s) n =
    let d = char_code c in
    let later = digits s (n * 10 + (d - 48)) in if leb 48 d && leb d 57 then later else none

abbrev pub digits_of : String → Option ℕ
digits_of [] = none
digits_of (c ∷ s) = digits (c ∷ s) 0

-- `str::parse::<i64>`.
abbrev in_i64 : Option ℕ → Option ℤ
in_i64 none = none
in_i64 (some n) = if ltb n (2 ^ 63) then some (pos n) else none

abbrev negated_i64 : Option ℕ → Option ℤ
negated_i64 none = none
negated_i64 (some zero) = some (pos 0)
negated_i64 (some (suc n)) = if ltb n (2 ^ 63) then some (negsuc n) else none

unfoldable pub parse_i64 : String → Option ℤ
parse_i64 [] = none
parse_i64 (c ∷ s) =
    if char_code c == 45
    then negated_i64 (digits_of s)
    else if char_code c == 43
    then in_i64 (digits_of s)
    else in_i64 (digits_of (c ∷ s))

-- `…_30d`: the days behind the last underscore.
unfoldable pub days_behind : String → Option ℤ
days_behind s = elim (split_last 95 s) [
  | none ↦ none
  | some (before, duration) ↦ elim (strip_suffix "d" duration) [
    | none ↦ none
    | some number ↦ parse_i64 number
  ]
]

abbrev is_some {ℓ} : {A : Type ℓ} → Option A → Bool
is_some none = false
is_some (some a) = true

unfoldable pub or_historic : String → Option TemporalFunc
or_historic name =
    if is_some (strip_prefix "best_historic_" name)
    then (if is_some (strip_suffix "_domain" name)
        then some best_historic_domain
        else some best_historic)
    else none

unfoldable pub or_predicted : String → Option TemporalFunc
or_predicted name = elim (strip_prefix "predicted_" name) [
  | none ↦ or_historic name
  | some rest ↦ elim (days_behind rest) [
    | some days ↦ some (predicted days)
    | none ↦ or_historic name
  ]
]

unfoldable pub or_trend : String → Option TemporalFunc
or_trend name = if is_some (strip_suffix "_trend" name) then some trend else or_predicted name

unfoldable pub parse_temporal_from_name : String → Option TemporalFunc
parse_temporal_from_name name = elim (strip_suffix "_ago" name) [
  | none ↦ or_trend name
  | some without_ago ↦ elim (days_behind without_ago) [
    | some days ↦ some (value_ago days)
    | none ↦ or_trend name
  ]
]

-- `name[..idx]` for the last underscore, or what the other cases give.
abbrev before_last : String → String → String
before_last s otherwise = elim (split_last 95 s) [
  | some (before, after) ↦ before
  | none ↦ otherwise
]

unfoldable pub base_of_historic : String → String
base_of_historic name = elim (strip_prefix "best_historic_" name) [
  | some stripped ↦ stripped
  | none ↦ name
]

unfoldable pub base_of_predicted : String → String
base_of_predicted name = elim (strip_prefix "predicted_" name) [
  | some rest ↦ before_last rest (base_of_historic name)
  | none ↦ base_of_historic name
]

unfoldable pub base_of_trend : String → String
base_of_trend name = elim (strip_suffix "_trend" name) [
  | some stripped ↦ stripped
  | none ↦ base_of_predicted name
]

unfoldable pub extract_base_field_name : String → String
extract_base_field_name name = elim (strip_suffix "_ago" name) [
  | some without_ago ↦ before_last without_ago (base_of_trend name)
  | none ↦ base_of_trend name
]
