-- ===== src/Wql/Syntax.antt =====
-- runtime/src/wql/parser.rs: the syntax tree, the tokens, and the errors with which the parser gives
-- up. A `f64` is its bit pattern.
use agentic_vision.Prelude.{ℕ, String, Option, List, Bool}
use agentic_vision.Prelude.Int.{ℤ}

abbrev pub F64 : Type 0
F64 = ℕ

pub data TemporalFunc : Type 0 where
  value_ago : ℤ → TemporalFunc
  trend : TemporalFunc
  predicted : ℤ → TemporalFunc
  best_historic : TemporalFunc
  best_historic_domain : TemporalFunc

pub record SelectField : Type 0 where
  pub name : String
  pub alias : Option String
  pub temporal_func : Option TemporalFunc

pub record ModelRef : Type 0 where
  pub name : String

pub record JoinClause : Type 0 where
  pub target_model : String
  pub on_field : String
  pub equals_field : String

pub data ComparisonOp : Type 0 where
  eq lt gt lte gte neq : ComparisonOp

pub data WqlValue : Type 0 where
  float : F64 → WqlValue
  integer : ℤ → WqlValue
  string : String → WqlValue
  bool : Bool → WqlValue

pub data WhereExpr : Type 0 where
  comparison : (field : String) (op : ComparisonOp) (value : WqlValue) → WhereExpr
  conjunction : WhereExpr → WhereExpr → WhereExpr
  disjunction : WhereExpr → WhereExpr → WhereExpr

pub record OrderByField : Type 0 where
  pub field : String
  pub ascending : Bool

pub record WqlQuery : Type 0 where
  pub select : List SelectField
  pub from : ModelRef
  pub joins : List JoinClause
  pub where_clause : Option WhereExpr
  pub across : Option (List String)
  pub order_by : Option (List OrderByField)
  pub limit : Option ℕ

pub data Token : Type 0 where
  keyword : String → Token
  ident : String → Token
  number : F64 → Token
  string_lit : String → Token
  op_token : String → Token
  comma : Token
  star : Token
  eof : Token

-- A message is kept as the values that it is formatted from: what was expected and the token that
-- was found, or the characters and the position. `out_of_fuel` is none of the code's.
pub data WqlError : Type 0 where
  expected : (what : String) (found : Option Token) → WqlError
  unknown_operator : String → WqlError
  unterminated_string : (position : ℕ) → WqlError
  invalid_number : String → WqlError
  unexpected_character : (code : ℕ) (position : ℕ) → WqlError
  out_of_fuel : WqlError

pub data Parsed {ℓ} (A : Type ℓ) : Type ℓ where
  ok : A → Parsed A
  fail : WqlError → Parsed A

infixl 5 ◌>>=◌
abbrev pub ◌>>=◌ {ℓ κ} : {A : Type ℓ} {B : Type κ} → Parsed A → (A → Parsed B) → Parsed B
ok a >>= f = f a
fail e >>= f = fail e

-- A parser of the tokens that are still to come: `pos` is where the rest begins.
abbrev pub Parser : Type 0 → Type 0
Parser A = List Token → Parsed (A × List Token)
