-- ===== src/Wql/Parser/Returns.antt =====
-- The parser of runtime/src/wql/parser.rs returns a query or one of the errors of the code on every
-- list of tokens.
use agentic_vision.Prelude.{
  ℕ, zero, suc, ◌<◌, ◌≤◌, ◌≢◌, String, List, ◌∷◌, arith, length, Bool-cases, inl, inr,
}
use agentic_vision.Wql.Syntax.{WhereExpr, Token, star, out_of_fuel, Parsed, ok, fail, ◌>>=◌, Parser}
use agentic_vision.Wql.Parser.{
  NumberOps, comma_separated, peek_keyword, expect_keyword, expect_ident, tail, parse_single_field,
  parse_select_fields, parse_join, parse_joins, parse_comparison, after_comparison,
  parse_where_expr, parse_domain_list, parse_order_field, parse_order_by, optional,
  parse_order_clause, parse_limit, parse_where, parse_tokens,
}
use agentic_vision.Wql.Parser.Fuel.{
  Fueled, IsWithin, ok-IsWithin, bind-IsWithin, left, expect_ident-IsWithin,
  expect_keyword-IsWithin, parse_limit-IsWithin, length-tail, parse_single_field-IsWithin,
  parse_order_field-IsWithin, parse_model_ref-IsWithin, parse_join-IsWithin,
  parse_comparison-IsWithin, comma_separated-IsWithin,
}

-- What is left, where nothing need have been taken.
abbrev kept : {A : Type 0} → A × List Token → ℕ
kept x = length x.1

parse_joins-IsWithin :
    (n fuel : ℕ) (ts : List Token)
    → length ts < fuel
    → length ts ≤ n
    → IsWithin kept n (parse_joins fuel ts)
unfolding parse_joins
parse_joins-IsWithin n zero ts h k = absurd (omega arith)
parse_joins-IsWithin n (suc fuel) ts h k = elim (Bool-cases (peek_keyword "JOIN" ts)) [
  | inr e ↦ rw (e, parse_joins) (ok-IsWithin kept n _ k)
  | inl e ↦
      rw (e, parse_joins)
        (bind-IsWithin left (length ts) kept n (parse_join (tail ts)) _
          (parse_join-IsWithin (tail ts) (length-tail ts))
          (λ x j.
            bind-IsWithin kept n kept n (parse_joins fuel x.1) _
              (parse_joins-IsWithin n fuel x.1 (omega arith) (omega arith))
              (λ y i. ok-IsWithin kept n _ i)))
]

after_comparison-IsWithin :
    (n : ℕ) (l : WhereExpr) (ts : List Token) (right : Parsed (WhereExpr × List Token))
    → length ts ≤ n
    → IsWithin kept n right
    → IsWithin kept n (after_comparison l ts right)
unfolding after_comparison
after_comparison-IsWithin n l ts right h k = elim (Bool-cases (peek_keyword "AND" ts)) [
  | inl e ↦
      rw (e, after_comparison)
        (bind-IsWithin kept n kept n right _ k (λ x j. ok-IsWithin kept n _ j))
  | inr e ↦ elim (Bool-cases (peek_keyword "OR" ts)) [
    | inl f ↦
        rw (e, after_comparison, f)
          (bind-IsWithin kept n kept n right _ k (λ x j. ok-IsWithin kept n _ j))
    | inr f ↦ rw (e, after_comparison, f) (ok-IsWithin kept n _ h)
  ]
]

module _ (ops : NumberOps) where
  parse_where_expr-IsWithin :
      (n fuel : ℕ) (ts : List Token)
      → length ts < fuel
      → length ts ≤ n
      → IsWithin kept n (parse_where_expr ops fuel ts)
  unfolding parse_where_expr
  parse_where_expr-IsWithin n zero ts h k = absurd (omega arith)
  parse_where_expr-IsWithin n (suc fuel) ts h k =
      bind-IsWithin left (length ts) kept n (parse_comparison ops ts) _
        (parse_comparison-IsWithin ts (omega arith) ops)
        (λ x j. after_comparison-IsWithin n x.0 x.1 _ (omega arith) (
          parse_where_expr-IsWithin n fuel (tail x.1) (omega (arith, length-tail x.1))
            (omega (arith, length-tail x.1))))

comma_separated-all :
    {A : Type 0} (item : Parser A)
    → ((ts : List Token) → IsWithin left (length ts) (item ts))
    → (ts : List Token) → IsWithin left (length ts) (comma_separated item (suc (length ts)) ts)
comma_separated-all item steps ts =
    comma_separated-IsWithin item steps (length ts) (suc (length ts)) ts (omega arith) (omega arith)

parse_select_fields-IsWithin :
    (ts : List Token) → IsWithin left (length ts) (parse_select_fields ts)
unfolding parse_select_fields
parse_select_fields-IsWithin (star ∷ ts) = ok-IsWithin left _ _ (omega arith)
parse_select_fields-IsWithin ts =
    comma_separated-all parse_single_field (λ us. parse_single_field-IsWithin us (omega arith)) ts

pub bind-Fueled :
    {A B : Type 0} (r : Parsed A) (f : A → Parsed B)
    → Fueled r
    → ((a : A) → Fueled (f a))
    → Fueled (r >>= f)
bind-Fueled (ok a) f h k = k a
bind-Fueled (fail e) f h k = λ p. h (cc p)

pub ok-Fueled : {A : Type 0} (a : A) → Fueled (ok a)
ok-Fueled a = λ p. cc p

optional-Fueled :
    {A : Type 0} (word : String) (clause : Parser A) (ts : List Token)
    → ((us : List Token) → Fueled (clause us))
    → Fueled (optional word clause ts)
unfolding optional
optional-Fueled word clause ts h = elim (Bool-cases (peek_keyword word ts)) [
  | inl e ↦ rw (e, optional) (bind-Fueled (clause (tail ts)) _ (h (tail ts)) (λ x. ok-Fueled _))
  | inr e ↦ rw (e, optional) (ok-Fueled _)
]

keyword-Fueled : (word : String) (ts : List Token) → Fueled (expect_keyword word ts)
keyword-Fueled word ts = (expect_keyword-IsWithin {n = length ts} word ts (omega arith)).fueled

parse_domain_list-Fueled : (ts : List Token) → Fueled (parse_domain_list ts)
unfolding parse_domain_list
parse_domain_list-Fueled ts =
    (comma_separated-all (expect_ident "domain name")
      (λ us. expect_ident-IsWithin "domain name" us (omega arith)) ts).fueled

parse_order_clause-Fueled : (ts : List Token) → Fueled (parse_order_clause ts)
unfolding parse_order_clause parse_order_by
parse_order_clause-Fueled ts = bind-Fueled _ _ (keyword-Fueled "BY" ts) (λ us.
    (comma_separated-all parse_order_field (λ vs. parse_order_field-IsWithin vs (omega arith))
      us).fueled)

module _ (ops : NumberOps) where
  parse_where-Fueled : (ts : List Token) → Fueled (parse_where ops ts)
  unfolding parse_where
  parse_where-Fueled ts =
      (parse_where_expr-IsWithin ops (length ts) (suc (length ts)) ts (omega arith)
        (omega arith)).fueled

  -- The fuel of the parser's loops suffices on every list of tokens.
  pub parse_tokens-Fueled : (ts : List Token) → parse_tokens ops ts ≢ fail out_of_fuel
  unfolding parse_tokens
  parse_tokens-Fueled ts = bind-Fueled _ _ (keyword-Fueled "SELECT" ts) (λ ts1.
      bind-Fueled _ _ (parse_select_fields-IsWithin ts1).fueled (λ x2.
        bind-Fueled _ _ (keyword-Fueled "FROM" x2.1) (λ ts3.
          bind-Fueled _ _ (parse_model_ref-IsWithin {n = length ts3} ts3 (omega arith)).fueled
            (λ x4.
              bind-Fueled _ _
                (parse_joins-IsWithin (length x4.1) (suc (length x4.1)) x4.1 (omega arith)
                  (omega arith)).fueled
                (λ x5.
                  bind-Fueled _ _
                    (optional-Fueled "WHERE" (parse_where ops) x5.1 parse_where-Fueled)
                    (λ x6.
                      bind-Fueled _ _
                        (optional-Fueled "ACROSS" parse_domain_list x6.1 parse_domain_list-Fueled)
                        (λ x7.
                          bind-Fueled _ _
                            (optional-Fueled "ORDER" parse_order_clause x7.1
                              parse_order_clause-Fueled)
                            (λ x8.
                              bind-Fueled _ _
                                (optional-Fueled "LIMIT" (parse_limit ops) x8.1 (λ us.
                                  (parse_limit-IsWithin {n = length us} ops us
                                    (omega arith)).fueled))
                                (λ x9. ok-Fueled _)))))))))
