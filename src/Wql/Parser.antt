-- ===== src/Wql/Parser.antt =====
-- runtime/src/wql/parser.rs: the recursive descent over the tokens. The loops and the recursion of
-- WHERE have the number of tokens as fuel; `f64` casts are the parameter `NumberOps`.
pub mod Clauses
pub mod Chains
pub mod Fuel
pub mod Returns
pub mod RoundTrip
use agentic_vision.Prelude.{
  ℕ, zero, suc, String, str_eq, Option, none, some, List, [], ◌∷◌, Bool, true, false, if◌then◌else◌,
  length,
}
use agentic_vision.Prelude.Int.{ℤ}
use agentic_vision.Wql.Syntax.{
  F64, SelectField, ModelRef, JoinClause, ComparisonOp, eq, lt, gt, lte, gte, neq, WqlValue, float,
  integer, string, WhereExpr, comparison, conjunction, disjunction, OrderByField, WqlQuery, Token,
  keyword, ident, number, string_lit, op_token, comma, star, eof, WqlError, expected,
  unknown_operator, out_of_fuel, Parsed, ok, fail, ◌>>=◌, Parser,
}
use agentic_vision.Wql.Names.{parse_temporal_from_name, extract_base_field_name}

-- `n as i64`, if that cast and the one back give `n`, and `n as usize`.
pub record NumberOps : Type 0 where
  pub as_integer : F64 → Option ℤ
  pub as_usize : F64 → ℕ

abbrev pub head : List Token → Option Token
head [] = none
head (t ∷ ts) = some t

unfoldable pub expect_keyword : String → List Token → Parsed (List Token)
expect_keyword word (keyword k ∷ ts) =
    if str_eq k word then ok ts else fail (expected word (some (keyword k)))
expect_keyword word ts = fail (expected word (head ts))

unfoldable pub peek_keyword : String → List Token → Bool
peek_keyword word (keyword k ∷ ts) = str_eq k word
peek_keyword word ts = false

-- `*pos += 1`.
abbrev pub tail : List Token → List Token
tail [] = []
tail (t ∷ ts) = ts

abbrev pub expect_ident : String → Parser String
expect_ident what (ident name ∷ ts) = ok (name, ts)
expect_ident what ts = fail (expected what (head ts))

unfoldable pub is_comma : List Token → Bool
is_comma (comma ∷ ts) = true
is_comma ts = false

-- Behind an item: `later` is the rest of the loop behind a comma.
unfoldable pub after_item :
    {A : Type 0} → A → List Token → Parsed (List A × List Token) → Parsed (List A × List Token)
after_item a rest later = elim (is_comma rest) [
  | false ↦ ok (a ∷ [], rest)
  | true ↦ do (items, rest') ← later; ok (a ∷ items, rest')
]

-- `loop { item; if !Comma { break } }`.
unfoldable pub comma_separated : {A : Type 0} → Parser A → ℕ → Parser (List A)
comma_separated item zero ts = fail out_of_fuel
comma_separated item (suc fuel) ts = do
  (a, rest) ← item ts
  after_item a rest (comma_separated item fuel (tail rest))

abbrev pub field_of : String → Option String → SelectField
field_of name alias = elim (parse_temporal_from_name name) [
  | some f ↦ record { name = extract_base_field_name name; alias = alias; temporal_func = some f }
  | none ↦ record { name = name; alias = alias; temporal_func = none }
]

-- An AS that no name follows is consumed and forgotten.
unfoldable pub parse_alias : List Token → Option String × List Token
parse_alias ts =
    if peek_keyword "AS" ts
    then elim (tail ts) [
      | [] ↦ (none, [])
      | ◌∷◌ (ident alias) rest ↦ (some alias, rest)
      | ◌∷◌ t rest ↦ (none, t ∷ rest)
    ]
    else (none, ts)

unfoldable pub parse_single_field : Parser SelectField
parse_single_field ts = do
  (name, rest) ← expect_ident "field name" ts
  let (alias, rest') = parse_alias rest
  ok (field_of name alias, rest')

unfoldable pub parse_select_fields : Parser (List SelectField)
parse_select_fields (star ∷ ts) =
    ok (record { name = "*"; alias = none; temporal_func = none } ∷ [], ts)
parse_select_fields ts = comma_separated parse_single_field (suc (length ts)) ts

unfoldable pub parse_model_ref : Parser ModelRef
parse_model_ref ts = do
  (name, rest) ← expect_ident "model name" ts
  ok (record { name = name }, rest)

unfoldable pub expect_equals : List Token → Parsed (List Token)
expect_equals (op_token op ∷ ts) =
    if str_eq op "=" then ok ts else fail (expected "'=' in JOIN ON" (some (op_token op)))
expect_equals ts = fail (expected "'=' in JOIN ON" (head ts))

unfoldable pub parse_join : Parser JoinClause
parse_join ts = do
  (target, ts1) ← expect_ident "model name after JOIN" ts
  ts2 ← expect_keyword "ON" ts1
  (on_field, ts3) ← expect_ident "field name after ON" ts2
  ts4 ← expect_equals ts3
  (equals_field, ts5) ← expect_ident "field name after '='" ts4
  ok (record { target_model = target; on_field = on_field; equals_field = equals_field }, ts5)

unfoldable pub parse_joins : ℕ → Parser (List JoinClause)
parse_joins zero ts = fail out_of_fuel
parse_joins (suc fuel) ts = elim (peek_keyword "JOIN" ts) [
  | false ↦ ok ([], ts)
  | true ↦ do
    (join, rest) ← parse_join (tail ts)
    (later, rest') ← parse_joins fuel rest
    ok (join ∷ later, rest')
]

unfoldable pub operator_of : String → Parsed ComparisonOp
operator_of op =
    if str_eq op "="
    then ok eq
    else if str_eq op "<"
    then ok lt
    else if str_eq op ">"
    then ok gt
    else if str_eq op "<="
    then ok lte
    else if str_eq op ">="
    then ok gte
    else if str_eq op "!="
    then ok neq
    else fail (unknown_operator op)

unfoldable pub parse_operator : Parser ComparisonOp
parse_operator (op_token op ∷ ts) = do parsed ← operator_of op; ok (parsed, ts)
parse_operator ts = fail (expected "operator" (head ts))

module _ (ops : NumberOps) where
  unfoldable pub value_of : F64 → WqlValue
  value_of n = elim (ops.as_integer n) [ some i ↦ integer i | none ↦ float n ]

  unfoldable pub parse_value : Parser WqlValue
  parse_value (number n ∷ ts) = ok (value_of n, ts)
  parse_value (string_lit s ∷ ts) = ok (string s, ts)
  parse_value ts = fail (expected "value in comparison" (head ts))

  unfoldable pub parse_comparison : Parser WhereExpr
  parse_comparison ts = do
    (field, ts1) ← expect_ident "field name in WHERE" ts
    (op, ts2) ← parse_operator ts1
    (value, ts3) ← parse_value ts2
    ok (comparison field op value, ts3)

-- Behind a comparison: `right` is what the recursive call makes of the tokens behind AND or OR.
unfoldable pub after_comparison :
    WhereExpr → List Token → Parsed (WhereExpr × List Token) → Parsed (WhereExpr × List Token)
after_comparison left rest right = elim (peek_keyword "AND" rest) [
  | true ↦ do (expr, rest') ← right; ok (conjunction left expr, rest')
  | false ↦ elim (peek_keyword "OR" rest) [
    | true ↦ do (expr, rest') ← right; ok (disjunction left expr, rest')
    | false ↦ ok (left, rest)
  ]
]

module _ (ops : NumberOps) where
  unfoldable pub parse_where_expr : ℕ → Parser WhereExpr
  parse_where_expr zero ts = fail out_of_fuel
  parse_where_expr (suc fuel) ts = do
    (left, rest) ← parse_comparison ops ts
    after_comparison left rest (parse_where_expr fuel (tail rest))

unfoldable pub parse_domain_list : Parser (List String)
parse_domain_list ts = comma_separated (expect_ident "domain name") (suc (length ts)) ts

unfoldable pub parse_direction : List Token → Bool × List Token
parse_direction ts =
    if peek_keyword "DESC" ts
    then (false, tail ts)
    else if peek_keyword "ASC" ts
    then (true, tail ts)
    else (true, ts)

unfoldable pub parse_order_field : Parser OrderByField
parse_order_field ts = do
  (field, rest) ← expect_ident "field name in ORDER BY" ts
  let (ascending, rest') = parse_direction rest
  ok (record { field = field; ascending = ascending }, rest')

unfoldable pub parse_order_by : Parser (List OrderByField)
parse_order_by ts = comma_separated parse_order_field (suc (length ts)) ts

-- `if peek_keyword(…) { Some(clause?) } else { None }`.
unfoldable pub optional : {A : Type 0} → String → Parser A → Parser (Option A)
optional word clause ts = elim (peek_keyword word ts) [
  | false ↦ ok (none, ts)
  | true ↦ do (a, rest) ← clause (tail ts); ok (some a, rest)
]

unfoldable pub parse_order_clause : Parser (List OrderByField)
parse_order_clause ts = do rest ← expect_keyword "BY" ts; parse_order_by rest

module _ (ops : NumberOps) where
  unfoldable pub parse_limit : Parser ℕ
  parse_limit (number n ∷ ts) = ok (ops.as_usize n, ts)
  parse_limit ts = fail (expected "number after LIMIT" (head ts))

  unfoldable pub parse_where : Parser WhereExpr
  parse_where ts = parse_where_expr ops (suc (length ts)) ts

  -- `parse` behind the tokenizer; it returns the query and the tokens that it leaves unread.
  unfoldable pub parse_tokens : Parser WqlQuery
  parse_tokens ts = do
    ts1 ← expect_keyword "SELECT" ts
    (select, ts2) ← parse_select_fields ts1
    ts3 ← expect_keyword "FROM" ts2
    (from, ts4) ← parse_model_ref ts3
    (joins, ts5) ← parse_joins (suc (length ts4)) ts4
    (where_clause, ts6) ← optional "WHERE" parse_where ts5
    (across, ts7) ← optional "ACROSS" parse_domain_list ts6
    (order_by, ts8) ← optional "ORDER" parse_order_clause ts7
    (limit, ts9) ← optional "LIMIT" parse_limit ts8
    ok (
      record {
        select = select;
        from = from;
        joins = joins;
        where_clause = where_clause;
        across = across;
        order_by = order_by;
        limit = limit;
      },
      ts9,
    )
