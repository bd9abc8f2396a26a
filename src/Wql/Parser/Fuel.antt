-- ===== src/Wql/Parser/Fuel.antt =====
-- The parser of runtime/src/wql/parser.rs is never out of fuel: each round of a loop takes a token.
use agentic_vision.Prelude.{
  ℕ, zero, suc, ◌<◌, ◌≤◌, ◌≡◌, ◌≢◌, refl, subst, String, List, [], ◌∷◌, arith, length, Bool-cases,
  inl, inr,
}
use agentic_vision.Wql.Syntax.{Token, out_of_fuel, Parsed, ok, fail, ◌>>=◌, Parser}
use agentic_vision.Wql.Parser.{
  NumberOps, comma_separated, after_item, is_comma, expect_keyword, expect_ident, tail, parse_alias,
  parse_single_field, parse_model_ref, expect_equals, parse_join, operator_of, parse_operator,
  parse_value, parse_comparison, parse_direction, parse_order_field, parse_limit,
}

abbrev pub Fueled : {A : Type 0} → Parsed A → Type 0
Fueled r = r ≢ fail out_of_fuel

-- A result that is not out of fuel, and no larger than `n` where there is one.
pub record IsWithin {A : Type 0} (size : A → ℕ) (n : ℕ) (r : Parsed A) : Type 0 where
  pub small : (a : A) → r ≡ ok a → size a ≤ n
  pub fueled : Fueled r

pub ok-IsWithin : {A : Type 0} (size : A → ℕ) (n : ℕ) (a : A) → size a ≤ n → IsWithin size n (ok a)
ok-IsWithin size n a h = record {
  small = λ b e. subst (λ c. size c ≤ n) (cc e) h;
  fueled = λ e. cc e;
}

module _ {A B : Type 0} (size : A → ℕ) (m : ℕ) (size' : B → ℕ) (n : ℕ) where
  pub bind-IsWithin :
      (r : Parsed A) (f : A → Parsed B)
      → IsWithin size m r
      → ((a : A) → size a ≤ m → IsWithin size' n (f a))
      → IsWithin size' n (r >>= f)
  bind-IsWithin (ok a) f h k = k a (h.small a refl)
  bind-IsWithin (fail e) f h k = record {
    small = λ b p. absurd (cc p);
    fueled = λ p. h.fueled (cc p);
  }

-- What is left, with the token that was taken.
abbrev pub left : {A : Type 0} → A × List Token → ℕ
left x = suc (length x.1)

abbrev pub rest_and_one : List Token → ℕ
rest_and_one ts = suc (length ts)

pub expect_ident-IsWithin :
    {n : ℕ} (what : String) (ts : List Token)
    → length ts ≤ n
    → IsWithin left n (expect_ident what ts)
expect_ident-IsWithin what ts h = record { small = λ a e. ground arith; fueled = λ e. ground arith }

pub expect_keyword-IsWithin :
    {n : ℕ} (word : String) (ts : List Token)
    → length ts ≤ n
    → IsWithin rest_and_one n (expect_keyword word ts)
unfolding expect_keyword
expect_keyword-IsWithin word ts h = record {
  small = λ a e. ground arith;
  fueled = λ e. ground arith;
}

expect_equals-IsWithin :
    {n : ℕ} (ts : List Token) → length ts ≤ n → IsWithin rest_and_one n (expect_equals ts)
unfolding expect_equals
expect_equals-IsWithin ts h = record { small = λ a e. ground arith; fueled = λ e. ground arith }

parse_operator-IsWithin :
    {n : ℕ} (ts : List Token) → length ts ≤ n → IsWithin left n (parse_operator ts)
unfolding parse_operator operator_of
parse_operator-IsWithin ts h = record { small = λ a e. ground arith; fueled = λ e. ground arith }

parse_value-IsWithin :
    {n : ℕ} (ops : NumberOps) (ts : List Token)
    → length ts ≤ n
    → IsWithin left n (parse_value ops ts)
unfolding parse_value
parse_value-IsWithin ops ts h = record { small = λ a e. ground arith; fueled = λ e. ground arith }

pub parse_limit-IsWithin :
    {n : ℕ} (ops : NumberOps) (ts : List Token)
    → length ts ≤ n
    → IsWithin left n (parse_limit ops ts)
unfolding parse_limit
parse_limit-IsWithin ops ts h = record { small = λ a e. ground arith; fueled = λ e. ground arith }

pub length-tail : (ts : List Token) → length (tail ts) ≤ length ts
length-tail [] = omega arith
length-tail (t ∷ ts) = omega arith

parse_alias-le : (ts : List Token) → length (parse_alias ts).1 ≤ length ts
unfolding parse_alias
parse_alias-le ts = ground arith

parse_direction-le : (ts : List Token) → length (parse_direction ts).1 ≤ length ts
unfolding parse_direction
parse_direction-le ts = ground arith

module _ {n : ℕ} (ts : List Token) (h : length ts ≤ n) where
  pub parse_single_field-IsWithin : IsWithin left n (parse_single_field ts)
  unfolding parse_single_field
  parse_single_field-IsWithin =
      bind-IsWithin left n left n (expect_ident "field name" ts) _
        (expect_ident-IsWithin "field name" ts h)
        (λ x k. ok-IsWithin left n _ (omega (arith, parse_alias-le x.1)))

  pub parse_order_field-IsWithin : IsWithin left n (parse_order_field ts)
  unfolding parse_order_field
  parse_order_field-IsWithin =
      bind-IsWithin left n left n (expect_ident "field name in ORDER BY" ts) _
        (expect_ident-IsWithin "field name in ORDER BY" ts h)
        (λ x k. ok-IsWithin left n _ (omega (arith, parse_direction-le x.1)))

  pub parse_model_ref-IsWithin : IsWithin left n (parse_model_ref ts)
  unfolding parse_model_ref
  parse_model_ref-IsWithin =
      bind-IsWithin left n left n (expect_ident "model name" ts) _
        (expect_ident-IsWithin "model name" ts h) (λ x k. ok-IsWithin left n _ k)

  pub parse_join-IsWithin : IsWithin left n (parse_join ts)
  unfolding parse_join
  parse_join-IsWithin =
      bind-IsWithin left n left n _ _ (expect_ident-IsWithin "model name after JOIN" ts h) (λ x1 k1.
        bind-IsWithin rest_and_one n left n _ _ (expect_keyword-IsWithin "ON" x1.1 (omega arith))
          (λ ts2 k2.
            bind-IsWithin left n left n _ _
              (expect_ident-IsWithin "field name after ON" ts2 (omega arith))
              (λ x3 k3.
                bind-IsWithin rest_and_one n left n _ _ (expect_equals-IsWithin x3.1 (omega arith))
                  (λ ts4 k4.
                    bind-IsWithin left n left n _ _
                      (expect_ident-IsWithin "field name after '='" ts4 (omega arith))
                      (λ x5 k5. ok-IsWithin left n _ k5)))))

  pub parse_comparison-IsWithin : (ops : NumberOps) → IsWithin left n (parse_comparison ops ts)
  unfolding parse_comparison
  parse_comparison-IsWithin ops =
      bind-IsWithin left n left n _ _ (expect_ident-IsWithin "field name in WHERE" ts h) (λ x1 k1.
        bind-IsWithin left n left n _ _ (parse_operator-IsWithin x1.1 (omega arith)) (λ x2 k2.
          bind-IsWithin left n left n _ _ (parse_value-IsWithin ops x2.1 (omega arith))
            (λ x3 k3. ok-IsWithin left n _ k3)))

module _ {A : Type 0} (item : Parser A)
    (steps : (ts : List Token) → IsWithin left (length ts) (item ts)) where
  after_item-IsWithin :
      (n : ℕ) (a : A) (ts : List Token) (later : Parsed (List A × List Token))
      → suc (length ts) ≤ n
      → IsWithin left n later
      → IsWithin left n (after_item a ts later)
  unfolding after_item
  after_item-IsWithin n a ts later h k = elim (Bool-cases (is_comma ts)) [
    | inl e ↦
        rw (e, after_item) (bind-IsWithin left n left n later _ k (λ x j. ok-IsWithin left n _ j))
    | inr e ↦ rw (e, after_item) (ok-IsWithin left n _ h)
  ]

  pub comma_separated-IsWithin :
      (n fuel : ℕ) (ts : List Token)
      → length ts < fuel
      → length ts ≤ n
      → IsWithin left n (comma_separated item fuel ts)
  unfolding comma_separated
  comma_separated-IsWithin n zero ts h k = absurd (omega arith)
  comma_separated-IsWithin n (suc fuel) ts h k =
      bind-IsWithin left (length ts) left n (item ts) _ (steps ts) (λ x j.
        after_item-IsWithin n x.0 x.1 _ (omega arith) (
          comma_separated-IsWithin n fuel (tail x.1) (omega (arith, length-tail x.1))
            (omega (arith, length-tail x.1))))
