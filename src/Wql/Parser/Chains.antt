-- ===== src/Wql/Parser/Chains.antt =====
-- The parser of runtime/src/wql/parser.rs on the tokens of joins and conditions, of which any number
-- can follow each other.
use text.Mathlib.TextPositions.{eq_refl}
use agentic_vision.Prelude.{
  ℕ, zero, suc, ◌<◌, ◌≤◌, ◌≡◌, refl, String, List, [], ◌∷◌, true, arith, length,
}
use agentic_vision.Wql.Syntax.{
  JoinClause, ComparisonOp, eq, lt, gt, lte, gte, neq, conjunction, disjunction, WhereExpr, Token,
  keyword, op_token, Parsed, ok,
}
use agentic_vision.Wql.Parser.{
  NumberOps, peek_keyword, expect_keyword, tail, expect_equals, parse_join, parse_joins,
  operator_of, parse_operator, parse_value, parse_comparison, after_comparison, parse_where_expr,
  parse_where,
}
use agentic_vision.Wql.Written.{
  Literal, numeral, quoted, Test, Condition, just, both_of, either_of, show_join, show_joins,
  operator_text, literal_token, show_test, show_condition, literal_meant, test_meant,
  condition_meant,
}
use agentic_vision.Wql.Parser.Clauses.{NoWord}

parse_join-show :
    (j : JoinClause) (ts : List Token) → parse_join (tail (show_join j ts)) ≡ ok (j, ts)
unfolding parse_join expect_keyword expect_equals
parse_join-show j ts = refl

pub own_word : (word : String) (ts : List Token) → peek_keyword word (keyword word ∷ ts) ≡ true
unfolding peek_keyword
own_word word ts = eq_refl word

pub parse_joins-show :
    (fuel : ℕ) (js : List JoinClause) (ts : List Token)
    → length js < fuel
    → NoWord "JOIN" ts
    → parse_joins fuel (show_joins js ts) ≡ ok (js, ts)
unfolding parse_joins
parse_joins-show zero js ts h last = absurd (omega arith)
parse_joins-show (suc fuel) [] ts h last = rw (last, parse_joins) refl
parse_joins-show (suc fuel) (j ∷ js) ts h last =
    rw
      (
        own_word "JOIN" (tail (show_join j (show_joins js ts))),
        parse_joins,
        parse_join-show j (show_joins js ts),
        parse_joins-show fuel js ts (omega arith) last,
      )
      refl

pub length-show_joins :
    (js : List JoinClause) (ts : List Token) → length js ≤ length (show_joins js ts)
length-show_joins [] ts = omega arith
length-show_joins (j ∷ js) ts = omega (arith, length-show_joins js ts)

parse_operator-show :
    (op : ComparisonOp) (ts : List Token)
    → parse_operator (op_token (operator_text op) ∷ ts) ≡ ok (op, ts)
unfolding parse_operator operator_of
parse_operator-show eq ts = refl
parse_operator-show lt ts = refl
parse_operator-show gt ts = refl
parse_operator-show lte ts = refl
parse_operator-show gte ts = refl
parse_operator-show neq ts = refl

module _ (left : WhereExpr) (ts : List Token) where
  after_comparison-last :
      (right : Parsed (WhereExpr × List Token))
      → NoWord "AND" ts
      → NoWord "OR" ts
      → after_comparison left ts right ≡ ok (left, ts)
  unfolding after_comparison
  after_comparison-last right no_and no_or = rw (no_and, after_comparison, no_or) refl

  after_comparison-and :
      (expr : WhereExpr) (rest : List Token)
      → after_comparison left (keyword "AND" ∷ ts) (ok (expr, rest))
        ≡ ok (conjunction left expr, rest)
  unfolding after_comparison peek_keyword
  after_comparison-and expr rest = refl

  after_comparison-or :
      (expr : WhereExpr) (rest : List Token)
      → after_comparison left (keyword "OR" ∷ ts) (ok (expr, rest))
        ≡ ok (disjunction left expr, rest)
  unfolding after_comparison peek_keyword
  after_comparison-or expr rest = refl

abbrev depth : Condition → ℕ
depth (just t) = 0
depth (both_of t c) = suc (depth c)
depth (either_of t c) = suc (depth c)

module _ (ops : NumberOps) where
  parse_value-show :
      (l : Literal) (ts : List Token)
      → parse_value ops (literal_token l ∷ ts) ≡ ok (literal_meant ops l, ts)
  unfolding parse_value
  parse_value-show (numeral n) ts = refl
  parse_value-show (quoted s) ts = refl

  parse_comparison-show :
      (t : Test) (ts : List Token)
      → parse_comparison ops (show_test t ts) ≡ ok (test_meant ops t, ts)
  unfolding parse_comparison
  parse_comparison-show t ts =
      rw
        (
          parse_operator-show t.op (literal_token t.literal ∷ ts),
          parse_comparison,
          parse_value-show t.literal ts,
        )
        refl

  length-show_condition : (c : Condition) (ts : List Token) → depth c < length (show_condition c ts)
  length-show_condition (just t) ts = omega arith
  length-show_condition (both_of t c) ts = omega (arith, length-show_condition c ts)
  length-show_condition (either_of t c) ts = omega (arith, length-show_condition c ts)

  parse_where_expr-show :
      (fuel : ℕ) (c : Condition) (ts : List Token)
      → depth c < fuel
      → NoWord "AND" ts
      → NoWord "OR" ts
      → parse_where_expr ops fuel (show_condition c ts) ≡ ok (condition_meant ops c, ts)
  unfolding parse_where_expr
  parse_where_expr-show zero c ts h no_and no_or = absurd (omega arith)
  parse_where_expr-show (suc fuel) (just t) ts h no_and no_or =
      rw (parse_comparison-show t ts, parse_where_expr)
        (after_comparison-last (test_meant ops t) ts _ no_and no_or)
  parse_where_expr-show (suc fuel) (both_of t c) ts h no_and no_or =
      rw
        (
          parse_comparison-show t (keyword "AND" ∷ show_condition c ts),
          parse_where_expr,
          parse_where_expr-show fuel c ts (omega arith) no_and no_or,
        )
        (after_comparison-and (test_meant ops t) _ (condition_meant ops c) ts)
  parse_where_expr-show (suc fuel) (either_of t c) ts h no_and no_or =
      rw
        (
          parse_comparison-show t (keyword "OR" ∷ show_condition c ts),
          parse_where_expr,
          parse_where_expr-show fuel c ts (omega arith) no_and no_or,
        )
        (after_comparison-or (test_meant ops t) _ (condition_meant ops c) ts)

  pub parse_where-show :
      (c : Condition) (ts : List Token)
      → NoWord "AND" ts
      → NoWord "OR" ts
      → parse_where ops (show_condition c ts) ≡ ok (condition_meant ops c, ts)
  unfolding parse_where
  parse_where-show c ts no_and no_or =
      parse_where_expr-show _ c ts (omega (arith, length-show_condition c ts)) no_and no_or
