-- ===== src/Wql/Written.antt =====
-- How the queries of runtime/src/wql/parser.rs are written as tokens, and the queries that they
-- stand for. A printer takes the tokens that come after.
use mathlib.Core.Option
use agentic_vision.Prelude.{String, Option, none, some, List, [], ◌∷◌, map, Bool, true, false}
use agentic_vision.Wql.Syntax.{
  F64, SelectField, JoinClause, ComparisonOp, eq, lt, gt, lte, gte, neq, WqlValue, string,
  WhereExpr, comparison, conjunction, disjunction, OrderByField, WqlQuery, Token, keyword, ident,
  number, string_lit, op_token, comma, star,
}
use agentic_vision.Wql.Parser.{NumberOps, field_of, value_of}

abbrev pub Printer : Type 0 → Type 0
Printer A = A → List Token → List Token

pub record WrittenField : Type 0 where
  pub written_name : String
  pub alias : Option String

pub data Selection : Type 0 where
  all_fields : Selection
  fields : WrittenField → List WrittenField → Selection

pub data Literal : Type 0 where
  numeral : F64 → Literal
  quoted : String → Literal

pub record Test : Type 0 where
  pub field : String
  pub op : ComparisonOp
  pub literal : Literal

-- AND and OR are read from the left with all that follows on their right, whichever comes first.
pub data Condition : Type 0 where
  just : Test → Condition
  both_of either_of : Test → Condition → Condition

pub record Query : Type 0 where
  pub select : Selection
  pub from : String
  pub joins : List JoinClause
  pub condition : Option Condition
  pub across : Option (String × List String)
  pub order_by : Option (OrderByField × List OrderByField)
  pub limit : Option F64

abbrev pub show_alias : Printer (Option String)
show_alias none ts = ts
show_alias (some alias) ts = keyword "AS" ∷ ident alias ∷ ts

abbrev pub show_field : Printer WrittenField
show_field f ts = ident f.written_name ∷ show_alias f.alias ts

abbrev pub show_items : {A : Type 0} → Printer A → Printer (A × List A)
show_items show (a, []) ts = show a ts
show_items show (a, b ∷ bs) ts = show a (comma ∷ show_items show (b, bs) ts)

abbrev pub show_selection : Printer Selection
show_selection all_fields ts = star ∷ ts
show_selection (fields f fs) ts = show_items show_field (f, fs) ts

abbrev pub show_join : Printer JoinClause
show_join j ts =
    keyword "JOIN"
    ∷ ident j.target_model
    ∷ keyword "ON"
    ∷ ident j.on_field
    ∷ op_token "="
    ∷ ident j.equals_field
    ∷ ts

abbrev pub show_joins : Printer (List JoinClause)
show_joins [] ts = ts
show_joins (j ∷ js) ts = show_join j (show_joins js ts)

abbrev pub operator_text : ComparisonOp → String
operator_text eq = "="
operator_text lt = "<"
operator_text gt = ">"
operator_text lte = "<="
operator_text gte = ">="
operator_text neq = "!="

abbrev pub literal_token : Literal → Token
literal_token (numeral n) = number n
literal_token (quoted s) = string_lit s

abbrev pub show_test : Printer Test
show_test t ts = ident t.field ∷ op_token (operator_text t.op) ∷ literal_token t.literal ∷ ts

abbrev pub show_condition : Printer Condition
show_condition (just t) ts = show_test t ts
show_condition (both_of t c) ts = show_test t (keyword "AND" ∷ show_condition c ts)
show_condition (either_of t c) ts = show_test t (keyword "OR" ∷ show_condition c ts)

abbrev pub show_domain : Printer String
show_domain d ts = ident d ∷ ts

abbrev pub show_direction : Printer Bool
show_direction true ts = keyword "ASC" ∷ ts
show_direction false ts = keyword "DESC" ∷ ts

abbrev pub show_order_field : Printer OrderByField
show_order_field o ts = ident o.field ∷ show_direction o.ascending ts

abbrev pub show_order : Printer (OrderByField × List OrderByField)
show_order os ts = keyword "BY" ∷ show_items show_order_field os ts

abbrev pub show_limit : Printer F64
show_limit n ts = number n ∷ ts

abbrev pub show_optional : {A : Type 0} → String → Printer A → Printer (Option A)
show_optional word show none ts = ts
show_optional word show (some a) ts = keyword word ∷ show a ts

module _ (q : Query) (ts : List Token) where
  abbrev pub limit_on : List Token
  limit_on = show_optional "LIMIT" show_limit q.limit ts

  abbrev pub order_on : List Token
  order_on = show_optional "ORDER" show_order q.order_by limit_on

  abbrev pub across_on : List Token
  across_on = show_optional "ACROSS" (show_items show_domain) q.across order_on

  abbrev pub where_on : List Token
  where_on = show_optional "WHERE" show_condition q.condition across_on

  abbrev pub joins_on : List Token
  joins_on = show_joins q.joins where_on

  abbrev pub show_query : List Token
  show_query = keyword "SELECT" ∷ show_selection q.select (keyword "FROM" ∷ ident q.from ∷ joins_on)

abbrev pub field_meant : WrittenField → SelectField
field_meant f = field_of f.written_name f.alias

abbrev pub items_meant : {A B : Type 0} → (A → B) → A × List A → List B
items_meant f (a, later) = f a ∷ map f later

abbrev pub selection_meant : Selection → List SelectField
selection_meant all_fields = record { name = "*"; alias = none; temporal_func = none } ∷ []
selection_meant (fields f fs) = items_meant field_meant (f, fs)

module _ (ops : NumberOps) where
  abbrev pub literal_meant : Literal → WqlValue
  literal_meant (numeral n) = value_of ops n
  literal_meant (quoted s) = string s

  abbrev pub test_meant : Test → WhereExpr
  test_meant t = comparison t.field t.op (literal_meant t.literal)

  abbrev pub condition_meant : Condition → WhereExpr
  condition_meant (just t) = test_meant t
  condition_meant (both_of t c) = conjunction (test_meant t) (condition_meant c)
  condition_meant (either_of t c) = disjunction (test_meant t) (condition_meant c)

  abbrev pub query_meant : Query → WqlQuery
  query_meant q = record {
    select = selection_meant q.select;
    from = record { name = q.from };
    joins = q.joins;
    where_clause = Option.map condition_meant q.condition;
    across = Option.map (items_meant (λ d. d)) q.across;
    order_by = Option.map (items_meant (λ o. o)) q.order_by;
    limit = Option.map ops.as_usize q.limit;
  }
