-- ===== src/Wql/Examples.antt =====
-- Tests of the query language (runtime/src/wql), and the theorems at concrete inputs.
use Prim.Native.Char.{code}
use agentic_vision.Prelude.{
  ◌&&◌, ◌||◌, ℕ, ◌≤◌, ◌≡◌, ◌≢◌, refl, str_eq, none, some, List, [], ◌∷◌, true, false, not, ltb, leb,
  ◌==◌, compare, length, All, if◌then◌else◌,
}
use agentic_vision.Wql.Syntax.{
  number, comma, op_token, unterminated_string, value_ago, predicted, lt, gt, integer, comparison,
  WqlQuery, keyword, ident, eof, ok, fail, out_of_fuel,
}
use agentic_vision.Wql.Chars.{take_while, chars}
use agentic_vision.Wql.Tokenizer.{
  Text, tokenize, tokenize_from, round, word_round, word_token, operator_round, number_round,
  parsed_number, string_round, parse,
}
use agentic_vision.Wql.Tokenizer.Fuel.{parse-Fueled}
use mathlib.Core.List.{Perm}
use agentic_vision.Prelude.Int.{pos, negsuc}
use agentic_vision.Prelude.Sort.{Pairwise}
use agentic_vision.Wql.Names.{
  parse_temporal_from_name, extract_base_field_name, days_behind, strip_suffix, strip_prefix,
  split_last, parse_i64, digits, or_trend, or_predicted, base_of_trend, base_of_predicted,
}
use agentic_vision.Wql.Parser.{NumberOps, parse_tokens}
use agentic_vision.Wql.Written.{Query, fields, just, both_of, numeral, show_query, query_meant}
use agentic_vision.Wql.Parser.RoundTrip.{parse_tokens-show_query}
use agentic_vision.Wql.Planner.{NumberText, plan}
use agentic_vision.Wql.Executor.{
  Row, SiteMap, Numbers, execute, get_field, contains, project_row, in_order, sort_rows, is_skipped,
}
use agentic_vision.Wql.Pipeline.{answer, execute-plan}
use agentic_vision.Wql.Conditions.{satisfies}
use agentic_vision.Wql.Rows.{IsAskedFor, execute-plan_scope, execute-plan_meets}
use agentic_vision.Wql.Columns.{StandsBefore, sort_rows-IsSorted}
use agentic_vision.Wql.Executor

value_ago_name : parse_temporal_from_name "price_30d_ago" ≡ some (value_ago (pos 30))
unfolding parse_temporal_from_name days_behind strip_suffix split_last parse_i64 digits
value_ago_name = refl

predicted_name : parse_temporal_from_name "predicted_price_7d" ≡ some (predicted (pos 7))
unfolding parse_temporal_from_name or_trend or_predicted days_behind strip_suffix strip_prefix
    split_last parse_i64 digits
predicted_name = refl

predicted_base : extract_base_field_name "predicted_price_7d" ≡ "price"
unfolding extract_base_field_name base_of_trend base_of_predicted strip_suffix strip_prefix
    split_last
predicted_base = refl

-- Whole numbers in place of floats.
abbrev number_ops : NumberOps
number_ops = record { as_integer = λ n. some (pos n); as_usize = λ n. n }

abbrev cheap : Query
cheap = record {
  select =
      fields (record { written_name = "name"; alias = none })
        (record { written_name = "price_30d_ago"; alias = some "before" } ∷ []);
  from = "Product";
  joins = record { target_model = "Review"; on_field = "url"; equals_field = "url" } ∷ [];
  condition = some (
      both_of (record { field = "price"; op = lt; literal = numeral 200 })
        (just (record { field = "rating"; op = gt; literal = numeral 3 })));
  across = some ("amazon.com", "bestbuy.com" ∷ []);
  order_by = some (record { field = "price"; ascending = false }, []);
  limit = some 5;
}

parse_tokens-show_query_example :
    parse_tokens number_ops (show_query cheap (eof ∷ []))
    ≡ ok (query_meant number_ops cheap, eof ∷ [])
parse_tokens-show_query_example = parse_tokens-show_query number_ops cheap []

abbrev text : NumberText
text = record {
  of_float = λ n. if n == 200 then "200" else "3";
  of_integer = λ i. elim i [ pos n ↦ (if n == 200 then "200" else "3") | negsuc n ↦ "-" ];
}

abbrev numbers : Numbers
numbers = record {
  parse_f64 = λ s. if str_eq s "200" then some 200 else if str_eq s "3" then some 3 else none;
  less = λ a b. ltb a b;
  greater = λ a b. ltb b a;
  at_most = λ a b. leb a b;
  at_least = λ a b. leb b a;
  near = λ a b. a == b;
  far = λ a b. not (a == b);
  partial_cmp = λ a b. some (compare a b);
  of_integer = λ i. elim i [ pos n ↦ n | negsuc n ↦ 0 ];
  is_zero = λ v. v == 0;
  to_integer = λ v. pos v;
  to_f64 = λ v. v;
}

abbrev row : ℕ → ℕ → Row
row id price = record {
  domain = "amazon.com";
  url = "";
  node_id = id;
  fields = ("price", Executor.integer (pos price)) ∷ ("node_id", Executor.integer (pos id)) ∷ [];
}

-- A product page, and a page that is not one.
abbrev shop : SiteMap
shop = record { page_types = 4 ∷ 1 ∷ 4 ∷ []; urls = "/a" ∷ "/b" ∷ []; features = [] }

abbrev everything : WqlQuery
everything = record {
  select = record { name = "*"; alias = none; temporal_func = none } ∷ [];
  from = record { name = "Product" };
  joins = [];
  where_clause = some (comparison "node_id" lt (integer (pos 200)));
  across = none;
  order_by = none;
  limit = some 1;
}

execute-plan_example :
    execute numbers (plan text everything none) (("amazon.com", shop) ∷ [])
    ≡ some (answer numbers text everything none (("amazon.com", shop) ∷ []))
execute-plan_example = execute-plan numbers text everything none (("amazon.com", shop) ∷ [])

abbrev found : List Row
found = answer numbers text everything none (("amazon.com", shop) ∷ [])

execute-plan_scope_example :
    All (λ r. IsAskedFor none none r.domain) found × ((n : ℕ) → some 1 ≡ some n → length found ≤ n)
execute-plan_scope_example =
    execute-plan_scope numbers text everything none (("amazon.com", shop) ∷ []) found
      (execute-plan numbers text everything none (("amazon.com", shop) ∷ []))

execute-plan_meets_example :
    All (λ r. satisfies numbers text (comparison "node_id" lt (integer (pos 200))) r ≡ true) found
execute-plan_meets_example =
    execute-plan_meets numbers text everything none (("amazon.com", shop) ∷ []) found
      (execute-plan numbers text everything none (("amazon.com", shop) ∷ []))
      (comparison "node_id" lt (integer (pos 200))) refl refl

sort_rows-IsSorted_example :
    Perm (sort_rows numbers (row 1 10 ∷ row 2 30 ∷ []) "price" false) (row 1 10 ∷ row 2 30 ∷ [])
    × Pairwise
        (StandsBefore numbers "price" false)
        (sort_rows numbers (row 1 10 ∷ row 2 30 ∷ []) "price" false)
unfolding get_field
sort_rows-IsSorted_example =
    sort_rows-IsSorted numbers (row 1 10 ∷ row 2 30 ∷ []) "price" false
      ((pos 10, refl), ((pos 30, refl), tt))

-- ASCII in place of Unicode, and whole numbers in place of floats.
abbrev ascii : Text
ascii = record {
  is_whitespace = λ c. code c == 32;
  is_alphabetic =
      λ c. (leb 65 (code c) && leb (code c) 90) || (leb 97 (code c) && leb (code c) 122);
  is_numeric = λ c. leb 48 (code c) && leb (code c) 57;
  to_uppercase = λ s. s;
  parse_f64 = λ s. if str_eq s "-1.5" then some 15 else some 2;
}

tokens_of_query :
    tokenize ascii "SELECT a, b FROM M WHERE a>=-1.5 LIMIT 2"
    ≡ ok (
        keyword "SELECT"
        ∷ ident "a"
        ∷ comma
        ∷ ident "b"
        ∷ keyword "FROM"
        ∷ ident "M"
        ∷ keyword "WHERE"
        ∷ ident "a"
        ∷ op_token ">="
        ∷ number 15
        ∷ keyword "LIMIT"
        ∷ number 2
        ∷ eof
        ∷ [])
unfolding tokenize tokenize_from round word_round word_token operator_round number_round
    parsed_number take_while chars
tokens_of_query = refl

unterminated : tokenize ascii "SELECT 'a" ≡ fail (unterminated_string 8)
unfolding tokenize tokenize_from round word_round word_token string_round take_while chars
unterminated = refl

parse-Fueled_example : parse ascii number_ops "SELECT 'a" ≢ fail out_of_fuel
parse-Fueled_example = parse-Fueled ascii number_ops "SELECT 'a"
