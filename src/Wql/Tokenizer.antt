-- ===== src/Wql/Tokenizer.antt =====
-- runtime/src/wql/parser.rs: `tokenize`, and `parse` with it. The tables of Unicode and the parser of
-- floats are the parameter `Text`; the input is what is left of it, and the fuel its length.
pub mod Fuel
use Prim.Native.Char.{Char, code}
use agentic_vision.Prelude.{
  ℕ, zero, suc, ◌-◌, String, Option, none, some, List, [], ◌∷◌, Bool, true, false, ◌&&◌, ◌||◌, not,
  ◌==◌, if◌then◌else◌, str_eq,
}
use agentic_vision.Wql.Syntax.{
  F64, Token, keyword, ident, number, string_lit, op_token, comma, star, eof, unterminated_string,
  invalid_number, unexpected_character, out_of_fuel, Parsed, ok, fail, ◌>>=◌, WqlQuery,
}
use agentic_vision.Wql.Chars.{
  chars, uncons, one_char, push_front, take_while, is_ascii_digit, starts_with_digit, is_operator,
}
use agentic_vision.Wql.Planner.{any}
use agentic_vision.Wql.Parser.{NumberOps, parse_tokens}

-- `char::is_whitespace`, `is_alphabetic` and `is_numeric`, `str::to_uppercase` and
-- `str::parse::<f64>`.
pub record Text : Type 0 where
  pub is_whitespace : Char → Bool
  pub is_alphabetic : Char → Bool
  pub is_numeric : Char → Bool
  pub to_uppercase : String → String
  pub parse_f64 : String → Option F64

-- The bit patterns of 1.0 and 0.0.
abbrev pub one : F64
one = 0x3FF0000000000000

abbrev pub zero_float : F64
zero_float = 0

abbrev pub keywords : List String
keywords =
    "SELECT" ∷ "FROM" ∷ "WHERE" ∷ "JOIN" ∷ "ON" ∷ "AND" ∷ "OR" ∷ "ORDER" ∷ "BY" ∷ "ASC" ∷ "DESC"
    ∷ "LIMIT" ∷ "ACROSS" ∷ "AS" ∷ "TRUE" ∷ "FALSE" ∷ []

-- What a round pushes, if anything, and what is left.
abbrev pub Round : Type 0
Round = Parsed (List Token × String)

module _ (text : Text) where
  -- `start` is the position behind the quote.
  unfoldable pub string_round : ℕ → String → Round
  string_round start s =
      let (body, rest) = take_while (λ c. not (code c == 39)) s in
      elim (uncons rest) [
        | none ↦ fail (unterminated_string start)
        | some (quote, rest') ↦ ok (string_lit body ∷ [], rest')
      ]

  abbrev pub in_number : Char → Bool
  in_number c = is_ascii_digit c || code c == 46

  unfoldable pub parsed_number : String → String → Round
  parsed_number num_str rest = elim (text.parse_f64 num_str) [
    | none ↦ fail (invalid_number num_str)
    | some num ↦ ok (number num ∷ [], rest)
  ]

  -- `c` is a minus sign or a digit.
  unfoldable pub number_round : Char → String → Round
  number_round c s =
      let (body, rest) = take_while in_number s in parsed_number (push_front c body) rest

  unfoldable pub operator_round : Char → String → Round
  operator_round c s = elim (uncons s) [
    | none ↦ ok (op_token (one_char c) ∷ [], s)
    | some (d, rest) ↦
        if code d == 61
        then ok (op_token (push_front c (one_char d)) ∷ [], rest)
        else ok (op_token (one_char c) ∷ [], s)
  ]

  abbrev pub in_word : Char → Bool
  in_word c = text.is_alphabetic c || (text.is_numeric c || (code c == 95 || code c == 46))

  unfoldable pub word_token : String → Token
  word_token word =
      let upper = text.to_uppercase word in
      if any (λ k. str_eq k upper) keywords
      then (if str_eq upper "TRUE"
          then number one
          else if str_eq upper "FALSE"
          then number zero_float
          else keyword upper)
      else ident word

  unfoldable pub word_round : Char → String → Round
  word_round c s =
      let (word, rest) = take_while in_word (push_front c s) in ok (word_token word ∷ [], rest)

  -- A round at the position `i`, on `c` with `s` behind it.
  unfoldable pub round : ℕ → Char → String → Round
  round i c s =
      if text.is_whitespace c
      then ok ([], s)
      else if code c == 39
      then string_round (suc i) s
      else if is_ascii_digit c || (code c == 45 && starts_with_digit s)
      then number_round c s
      else if is_operator c
      then operator_round c s
      else if code c == 44
      then ok (comma ∷ [], s)
      else if code c == 42
      then ok (star ∷ [], s)
      else if text.is_alphabetic c || code c == 95
      then word_round c s
      else fail (unexpected_character (code c) i)

  abbrev pub push_all : List Token → List Token → List Token
  push_all [] tokens = tokens
  push_all (t ∷ ts) tokens = t ∷ push_all ts tokens

  -- `total` is the number of characters of the whole input.
  unfoldable pub tokenize_from : ℕ → ℕ → String → Parsed (List Token)
  tokenize_from total zero s = fail out_of_fuel
  tokenize_from total (suc fuel) s = elim (uncons s) [
    | none ↦ ok (eof ∷ [])
    | some (c, rest) ↦ do
      (tokens, rest') ← round (total - chars s) c rest
      later ← tokenize_from total fuel rest'
      ok (push_all tokens later)
  ]

  unfoldable pub tokenize : String → Parsed (List Token)
  tokenize input = tokenize_from (chars input) (suc (chars input)) input

  -- `parse`, which does not look at what the clauses leave.
  unfoldable pub parse : NumberOps → String → Parsed WqlQuery
  parse ops query = do
    tokens ← tokenize query
    (parsed, unread) ← parse_tokens ops tokens
    ok parsed
