-- ===== src/Wql/Conditions.antt =====
-- What a condition of a query asks of a row (runtime/src/wql/planner.rs and executor.rs), with the
-- operators as relations in place of their texts.
use agentic_vision.Prelude.{
  Bool, ◌&&◌, false, ◌≡◌, refl, String, str_eq, Option, none, some, true, false, not,
}
use agentic_vision.Wql.Syntax.{
  F64, ComparisonOp, eq, lt, gt, lte, gte, neq, comparison, conjunction, disjunction, WhereExpr,
}
use agentic_vision.Wql.Planner.{NumberText, op_str, val_str}
use agentic_vision.Wql.Executor
use agentic_vision.Wql.Executor.{
  Value, get_field, contains, keeps, compare_numbers, compare_strings, Row, SiteMap, Numbers,
  model_to_page_type, scan_nodes, scan, row_of, is_skipped, sort_rows, project_row, execute,
}
use agentic_vision.Wql.Pipeline.{meets}

module _ (numbers : Numbers) where
  -- The comparison that an operator stands for; `=` and `!=` allow a difference below 0.001.
  abbrev pub holds : ComparisonOp → F64 → F64 → Bool
  holds eq v t = numbers.near v t
  holds lt v t = numbers.less v t
  holds gt v t = numbers.greater v t
  holds lte v t = numbers.at_most v t
  holds gte v t = numbers.at_least v t
  holds neq v t = numbers.far v t

  -- Texts are compared for equality only; the other operators hold of any two.
  abbrev pub holds_of_texts : ComparisonOp → String → String → Bool
  holds_of_texts eq v value = str_eq v value
  holds_of_texts neq v value = not (str_eq v value)
  holds_of_texts op v value = true

  -- A number meets a comparison with what is written as a number; a field that is missing, or that
  -- is neither number nor text, meets none.
  abbrev pub satisfies_one : ComparisonOp → Option Value → String → Bool
  satisfies_one op (some (Executor.float v)) value = elim (numbers.parse_f64 value) [
    | none ↦ false
    | some t ↦ holds op v t
  ]
  satisfies_one op (some (Executor.integer v)) value = elim (numbers.parse_f64 value) [
    | none ↦ false
    | some t ↦ holds op (numbers.of_integer v) t
  ]
  satisfies_one op (some (Executor.string v)) value = holds_of_texts op v value
  satisfies_one op found value = false

  compare_numbers_holds :
      (op : ComparisonOp) (v t : F64) → compare_numbers numbers (op_str op) v t ≡ holds op v t
  unfolding compare_numbers op_str
  compare_numbers_holds eq v t = refl
  compare_numbers_holds lt v t = refl
  compare_numbers_holds gt v t = refl
  compare_numbers_holds lte v t = refl
  compare_numbers_holds gte v t = refl
  compare_numbers_holds neq v t = refl

  compare_strings_holds :
      (op : ComparisonOp) (v value : String)
      → compare_strings numbers (op_str op) v value ≡ holds_of_texts op v value
  unfolding compare_strings op_str
  compare_strings_holds eq v value = refl
  compare_strings_holds lt v value = refl
  compare_strings_holds gt v value = refl
  compare_strings_holds lte v value = refl
  compare_strings_holds gte v value = refl
  compare_strings_holds neq v value = refl

  matches_satisfies :
      (op : ComparisonOp) (found : Option Value) (value : String) (threshold : Option F64)
      → numbers.parse_f64 value ≡ threshold
      → Executor.matches numbers found threshold (op_str op) value ≡ satisfies_one op found value
  unfolding Executor.matches
  matches_satisfies op none value t e = refl
  matches_satisfies op (some (Executor.float v)) value none e = rw (e, satisfies_one) refl
  matches_satisfies op (some (Executor.float v)) value (some t) e =
      rw (e, satisfies_one) (compare_numbers_holds op v t)
  matches_satisfies op (some (Executor.integer v)) value none e = rw (e, satisfies_one) refl
  matches_satisfies op (some (Executor.integer v)) value (some t) e =
      rw (e, satisfies_one) (compare_numbers_holds op (numbers.of_integer v) t)
  matches_satisfies op (some (Executor.string v)) value t e = compare_strings_holds op v value
  matches_satisfies op (some (Executor.bool v)) value t e = refl
  matches_satisfies op (some Executor.null) value t e = refl

  module _ (text : NumberText) where
    -- A row satisfies a disjunction, too, only if it satisfies both its sides.
    abbrev pub satisfies : WhereExpr → Row → Bool
    satisfies (comparison field op value) row =
        satisfies_one op (get_field row.fields field) (val_str text value)
    satisfies (conjunction left right) row = satisfies left row && satisfies right row
    satisfies (disjunction left right) row = satisfies left row && satisfies right row

    pub meets-satisfies :
        (condition : WhereExpr) (row : Row)
        → meets numbers text condition row ≡ satisfies condition row
    unfolding keeps
    meets-satisfies (comparison field op value) row =
        matches_satisfies op (get_field row.fields field) (val_str text value) _ refl
    meets-satisfies (conjunction left right) row =
        rw (meets-satisfies left row, meets-satisfies right row) refl
    meets-satisfies (disjunction left right) row =
        rw (meets-satisfies left row, meets-satisfies right row) refl
