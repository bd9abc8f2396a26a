-- ===== src/Wql/Tokenizer/Fuel.antt =====
-- `tokenize` and `parse` of runtime/src/wql/parser.rs return on every text: each round of the
-- tokenizer takes a character.
use Prim.Native.Char.{Char, code}
use agentic_vision.Prelude.{
  ℕ, zero, suc, ◌<◌, ◌≤◌, ◌≡◌, ◌≢◌, refl, String, List, true, arith, Bool-cases, Option-cases, inl,
  inr, ◌-◌, ◌&&◌, ◌||◌, ◌==◌, not,
}
use agentic_vision.Wql.Syntax.{Token, WqlError, out_of_fuel, Parsed, ok, fail, ◌>>=◌}
use agentic_vision.Wql.Chars.{
  chars, uncons, take_while, uncons-chars, take_while-le, take_while_first, is_ascii_digit,
  starts_with_digit, is_operator,
}
use agentic_vision.Wql.Parser.{NumberOps, parse_tokens}
use agentic_vision.Wql.Parser.Fuel.{Fueled, IsWithin, ok-IsWithin}
use agentic_vision.Wql.Parser.Returns.{bind-Fueled, ok-Fueled, parse_tokens-Fueled}
use agentic_vision.Wql.Tokenizer.{
  Text, string_round, in_number, parsed_number, number_round, operator_round, in_word, word_round,
  round, tokenize_from, tokenize, parse,
}

abbrev remaining : List Token × String → ℕ
remaining x = chars x.1

fail-IsWithin :
    {A : Type 0} (size : A → ℕ) (n : ℕ) (e : WqlError) → e ≢ out_of_fuel → IsWithin size n (fail e)
fail-IsWithin size n e h = record { small = λ a p. absurd (cc p); fueled = λ p. h (cc p) }

bind_small :
    {A B : Type 0} {size : A → ℕ} {n : ℕ} (r : Parsed A) (f : A → Parsed B)
    → IsWithin size n r
    → ((a : A) → size a ≤ n → Fueled (f a))
    → Fueled (r >>= f)
bind_small (ok a) f h k = k a (h.small a refl)
bind_small (fail e) f h k = λ p. h.fueled (cc p)

module _ (text : Text) where
  string_round-IsWithin :
      (start : ℕ) (s : String) → IsWithin remaining (chars s) (string_round text start s)
  unfolding string_round
  string_round-IsWithin start s =
      let quoted = take_while (λ c. not (code c == 39)) s in
      elim (Option-cases (uncons quoted.1)) [
        | inl e ↦ rw (e, string_round) (fail-IsWithin remaining _ _ (λ p. cc p))
        | inr ((quote, rest), e) ↦
            rw (e, string_round)
              (ok-IsWithin remaining _ _ (
                omega (
                  arith,
                  take_while-le (λ c. not (code c == 39)) s,
                  uncons-chars quoted.1 quote rest e,
                )))
      ]

  parsed_number-IsWithin :
      (n : ℕ) (num_str rest : String)
      → chars rest ≤ n
      → IsWithin remaining n (parsed_number text num_str rest)
  unfolding parsed_number
  parsed_number-IsWithin n num_str rest h = elim (Option-cases (text.parse_f64 num_str)) [
    | inl e ↦ rw (e, parsed_number) (fail-IsWithin remaining _ _ (λ p. cc p))
    | inr (num, e) ↦ rw (e, parsed_number) (ok-IsWithin remaining _ _ h)
  ]

  number_round-IsWithin :
      (c : Char) (s : String) → IsWithin remaining (chars s) (number_round text c s)
  unfolding number_round
  number_round-IsWithin c s =
      parsed_number-IsWithin (chars s) _ _ (take_while-le (in_number text) s)

  operator_round-IsWithin :
      (c : Char) (s : String) → IsWithin remaining (chars s) (operator_round text c s)
  unfolding operator_round
  operator_round-IsWithin c s = elim (Option-cases (uncons s)) [
    | inl e ↦ rw (e, operator_round) (ok-IsWithin remaining _ _ (omega arith))
    | inr ((d, rest), e) ↦ elim (Bool-cases (code d == 61)) [
      | inl f ↦
          rw (e, operator_round, f)
            (ok-IsWithin remaining _ _ (omega (arith, uncons-chars s d rest e)))
      | inr f ↦ rw (e, operator_round, f) (ok-IsWithin remaining _ _ (omega arith))
    ]
  ]

  word_round-IsWithin :
      (c : Char) (s : String)
      → (text.is_alphabetic c || code c == 95) ≡ true
      → IsWithin remaining (chars s) (word_round text c s)
  unfolding word_round
  word_round-IsWithin c s h =
      let first : in_word text c ≡ true = ground arith in
      ok-IsWithin remaining _ _ (take_while_first (in_word text) c s first)

  round-IsWithin : (i : ℕ) (c : Char) (s : String) → IsWithin remaining (chars s) (round text i c s)
  unfolding round
  round-IsWithin i c s = elim (Bool-cases (text.is_whitespace c)) [
    | inl a ↦ rw a (ok-IsWithin remaining _ _ (omega arith))
    | inr a ↦ elim (Bool-cases (code c == 39)) [
      | inl b ↦ rw (a, b) (string_round-IsWithin (suc i) s)
      | inr b ↦ elim (Bool-cases (is_ascii_digit c || (code c == 45 && starts_with_digit s))) [
        | inl d ↦ rw (a, b, d) (number_round-IsWithin c s)
        | inr d ↦ elim (Bool-cases (is_operator c)) [
          | inl e ↦ rw (a, b, d, e) (operator_round-IsWithin c s)
          | inr e ↦ elim (Bool-cases (code c == 44)) [
            | inl f ↦ rw (a, b, d, e, f) (ok-IsWithin remaining _ _ (omega arith))
            | inr f ↦ elim (Bool-cases (code c == 42)) [
              | inl g ↦ rw (a, b, d, e, f, g) (ok-IsWithin remaining _ _ (omega arith))
              | inr g ↦ elim (Bool-cases (text.is_alphabetic c || code c == 95)) [
                | inl h ↦ rw (a, b, d, e, f, g, h) (word_round-IsWithin c s h)
                | inr h ↦ rw (a, b, d, e, f, g, h) (fail-IsWithin remaining _ _ (λ p. cc p))
              ]
            ]
          ]
        ]
      ]
    ]
  ]

  tokenize_from-Fueled :
      (total fuel : ℕ) (s : String) → chars s < fuel → Fueled (tokenize_from text total fuel s)
  unfolding tokenize_from
  tokenize_from-Fueled total zero s h = absurd (omega arith)
  tokenize_from-Fueled total (suc fuel) s h = elim (Option-cases (uncons s)) [
    | inl e ↦ rw (e, tokenize_from) (ok-Fueled _)
    | inr ((c, rest), e) ↦
        let step = round-IsWithin (total - chars s) c rest in
        rw (e, tokenize_from)
          (bind_small (round text (total - chars s) c rest) _ step (λ x j.
            bind-Fueled (tokenize_from text total fuel x.1) _
              (tokenize_from-Fueled total fuel x.1 (omega (arith, uncons-chars s c rest e)))
              (λ later. ok-Fueled _)))
  ]

  -- The tokenizer and the parser behind it are never out of fuel: parse returns a query or one of
  -- the errors of the code on every text.
  pub parse-Fueled : (ops : NumberOps) (query : String) → parse text ops query ≢ fail out_of_fuel
  unfolding parse tokenize
  parse-Fueled ops query =
      bind-Fueled (tokenize text query) _
        (tokenize_from-Fueled (chars query) (suc (chars query)) query (omega arith))
        (λ tokens.
          bind-Fueled (parse_tokens ops tokens) _ (parse_tokens-Fueled ops tokens)
            (λ x. ok-Fueled _))
