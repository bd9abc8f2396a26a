-- ===== src/Wql/Planner.antt =====
-- runtime/src/wql/planner.rs: the plan of a query. What `format!` makes of numbers is the parameter
-- `NumberText`.
use agentic_vision.Prelude.{
  ℕ, String, str_eq, Option, none, some, List, [], ◌∷◌, ◌++◌, map, Bool, true, false, retain,
  if◌then◌else◌,
}
use agentic_vision.Prelude.Int.{ℤ}
use Prim.Native.String.{◌++◌ as append_text}
use agentic_vision.Wql.Syntax.{
  F64, TemporalFunc, value_ago, trend, predicted, best_historic, best_historic_domain, SelectField,
  JoinClause, ComparisonOp, eq, lt, gt, lte, gte, neq, WqlValue, float, integer, string, bool,
  WhereExpr, comparison, conjunction, disjunction, OrderByField, WqlQuery,
}

pub record NumberText : Type 0 where
  pub of_float : F64 → String
  pub of_integer : ℤ → String

pub data PlanStep : Type 0 where
  scan_model : (model : String) (domains : List String) → PlanStep
  filter : (field op value : String) → PlanStep
  join : (target_model relationship : String) → PlanStep
  temporal_enrich : List (String × String) → PlanStep
  sort : (field : String) (ascending : Bool) → PlanStep
  limit : (n : ℕ) → PlanStep
  project : (fields : List String) → PlanStep

-- `Ok(QueryPlan { steps })` is the only result.
pub record QueryPlan : Type 0 where
  pub steps : List PlanStep

unfoldable pub op_str : ComparisonOp → String
op_str eq = "="
op_str lt = "<"
op_str gt = ">"
op_str lte = "<="
op_str gte = ">="
op_str neq = "!="

abbrev pub is_some {ℓ} : {A : Type ℓ} → Option A → Bool
is_some none = false
is_some (some a) = true

abbrev pub any {ℓ} : {A : Type ℓ} → (A → Bool) → List A → Bool
any p [] = false
any p (x ∷ xs) = if p x then true else any p xs

-- The domains of ACROSS, else those of the schema, else none, for all of them.
unfoldable pub domains_of : Option (List String) → Option (List String) → List String
domains_of (some across) schema = across
domains_of none (some domains) = domains
domains_of none none = []

unfoldable pub sort_steps : Option (List OrderByField) → List PlanStep
sort_steps none = []
sort_steps (some order_by) = map (λ ob. sort ob.field ob.ascending) order_by

unfoldable pub limit_steps : Option ℕ → List PlanStep
limit_steps none = []
limit_steps (some n) = limit n ∷ []

unfoldable pub output_name : SelectField → String
output_name f = elim f.alias [ some alias ↦ alias | none ↦ f.name ]

unfoldable pub project_steps : List SelectField → List PlanStep
project_steps select =
    if any (λ f. str_eq f.name "*") select then [] else project (map output_name select) ∷ []

unfoldable pub join_steps : List JoinClause → List PlanStep
join_steps joins = map (λ j. join j.target_model j.on_field) joins

module _ (text : NumberText) where
  unfoldable pub val_str : WqlValue → String
  val_str (float f) = text.of_float f
  val_str (integer i) = text.of_integer i
  val_str (string s) = s
  val_str (bool true) = "true"
  val_str (bool false) = "false"

  -- The steps that are pushed; a disjunction is flattened as a conjunction is.
  unfoldable pub flatten_where : WhereExpr → List PlanStep
  flatten_where (comparison field op value) = filter field (op_str op) (val_str value) ∷ []
  flatten_where (conjunction left right) = flatten_where left ++ flatten_where right
  flatten_where (disjunction left right) = flatten_where left ++ flatten_where right

  unfoldable pub where_steps : Option WhereExpr → List PlanStep
  where_steps none = []
  where_steps (some where_clause) = flatten_where where_clause

  unfoldable pub func_name : Option TemporalFunc → String
  func_name (some (value_ago days)) = append_text "value_ago_" (text.of_integer days)
  func_name (some trend) = "trend"
  func_name (some (predicted days)) = append_text "predicted_" (text.of_integer days)
  func_name (some best_historic) = "best_historic"
  func_name (some best_historic_domain) = "best_historic_domain"
  func_name none = ""

  abbrev pub enrich_unless_empty : List (String × String) → List PlanStep
  enrich_unless_empty [] = []
  enrich_unless_empty (f ∷ fs) = temporal_enrich (f ∷ fs) ∷ []

  unfoldable pub temporal_steps : List SelectField → List PlanStep
  temporal_steps select = enrich_unless_empty (
      map (λ f. (f.name, func_name f.temporal_func)) (retain (λ f. is_some f.temporal_func) select))

  -- `schema` holds the domains of the unified schema, if there is one.
  unfoldable pub plan : WqlQuery → Option (List String) → QueryPlan
  plan query schema = record {
    steps =
        scan_model query.from.name (domains_of query.across schema)
        ∷ (where_steps query.where_clause
            ++ (join_steps query.joins
                ++ (temporal_steps query.select
                    ++ (sort_steps query.order_by
                        ++ (limit_steps query.limit ++ project_steps query.select)))));
  }
