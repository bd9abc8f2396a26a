-- ===== src/Wql/Pipeline.antt =====
-- What the plan of runtime/src/wql/planner.rs makes runtime/src/wql/executor.rs compute: a scan, then
-- the rows that meet the condition, sorted, cut off and projected.
use agentic_vision.Prelude.{
  ℕ, ◌≡◌, refl, ap, ◌∙◌, String, str_eq, Option, none, some, List, [], ◌∷◌, ◌++◌, map, Bool, ◌&&◌,
  arith, retain, take, Bool-cases, inl, inr, if◌then◌else◌,
}
use agentic_vision.Wql.Syntax.{
  SelectField, JoinClause, WhereExpr, comparison, conjunction, disjunction, OrderByField, WqlQuery,
}
use agentic_vision.Wql.Planner.{
  NumberText, PlanStep, sort, op_str, val_str, any, domains_of, sort_steps, limit_steps,
  output_name, project_steps, join_steps, enrich_unless_empty, flatten_where, where_steps,
  temporal_steps, plan,
}
use agentic_vision.Wql.Executor.{
  Row, SiteMap, Numbers, scan, keeps, filter_rows, sort_rows, project_row, apply_step, apply_steps,
  find_scan_target, execute,
}

retain-retain :
    {A : Type 0} (p q : A → Bool) (xs : List A)
    → retain q (retain p xs) ≡ retain (λ x. p x && q x) xs
retain-retain p q [] = refl
retain-retain p q (x ∷ xs) = ground (arith, retain-retain p q xs)

module _ (numbers : Numbers) where
  apply_steps-append :
      (rows : List Row) (a b : List PlanStep)
      → apply_steps numbers rows (a ++ b) ≡ apply_steps numbers (apply_steps numbers rows a) b
  unfolding apply_steps
  apply_steps-append rows [] b = refl
  apply_steps-append rows (s ∷ a) b = apply_steps-append (apply_step numbers rows s) a b

  abbrev pub sorted_by : List Row → List OrderByField → List Row
  sorted_by rows [] = rows
  sorted_by rows (o ∷ os) = sorted_by (sort_rows numbers rows o.field o.ascending) os

  abbrev pub sorted : Option (List OrderByField) → List Row → List Row
  sorted none rows = rows
  sorted (some os) rows = sorted_by rows os

  abbrev pub limited : Option ℕ → List Row → List Row
  limited none rows = rows
  limited (some n) rows = take n rows

  abbrev pub projected : List SelectField → List Row → List Row
  projected select rows =
      if any (λ f. str_eq f.name "*") select
      then rows
      else map (project_row numbers (map output_name select)) rows

  sort_steps-sorted_by :
      (rows : List Row) (os : List OrderByField)
      → apply_steps numbers rows (map (λ ob. sort ob.field ob.ascending) os) ≡ sorted_by rows os
  unfolding apply_steps apply_step
  sort_steps-sorted_by rows [] = refl
  sort_steps-sorted_by rows (o ∷ os) =
      sort_steps-sorted_by (sort_rows numbers rows o.field o.ascending) os

  sort_steps-sorted :
      (rows : List Row) (order_by : Option (List OrderByField))
      → apply_steps numbers rows (sort_steps order_by) ≡ sorted order_by rows
  unfolding apply_steps sort_steps
  sort_steps-sorted rows none = refl
  sort_steps-sorted rows (some os) = sort_steps-sorted_by rows os

  limit_steps-limited :
      (rows : List Row) (n : Option ℕ) → apply_steps numbers rows (limit_steps n) ≡ limited n rows
  unfolding apply_steps apply_step limit_steps
  limit_steps-limited rows none = refl
  limit_steps-limited rows (some n) = refl

  project_steps-projected :
      (rows : List Row) (select : List SelectField)
      → apply_steps numbers rows (project_steps select) ≡ projected select rows
  unfolding apply_steps apply_step project_steps
  project_steps-projected rows select = elim (Bool-cases (any (λ f. str_eq f.name "*") select)) [
    | inl e ↦ rw e refl
    | inr e ↦ rw e refl
  ]

  join_steps-nothing :
      (rows : List Row) (joins : List JoinClause)
      → apply_steps numbers rows (join_steps joins) ≡ rows
  unfolding apply_steps apply_step join_steps
  join_steps-nothing rows [] = refl
  join_steps-nothing rows (j ∷ js) = join_steps-nothing rows js

  module _ (text : NumberText) where
    enrich-nothing :
        (rows : List Row) (fs : List (String × String))
        → apply_steps numbers rows (enrich_unless_empty text fs) ≡ rows
    unfolding apply_steps apply_step
    enrich-nothing rows [] = refl
    enrich-nothing rows (f ∷ fs) = refl

    temporal_steps-nothing :
        (rows : List Row) (select : List SelectField)
        → apply_steps numbers rows (temporal_steps text select) ≡ rows
    unfolding temporal_steps
    temporal_steps-nothing rows select = enrich-nothing rows _

    -- A row meets a condition if it meets all its comparisons, below a disjunction, too.
    abbrev pub meets : WhereExpr → Row → Bool
    meets (comparison field op value) row = keeps numbers field (op_str op) (val_str text value) row
    meets (conjunction left right) row = meets left row && meets right row
    meets (disjunction left right) row = meets left row && meets right row

    abbrev pub selected : Option WhereExpr → List Row → List Row
    selected none rows = rows
    selected (some condition) rows = retain (meets condition) rows

    flatten_where-retain :
        (rows : List Row) (condition : WhereExpr)
        → apply_steps numbers rows (flatten_where text condition) ≡ retain (meets condition) rows
    unfolding flatten_where apply_steps apply_step filter_rows
    flatten_where-retain rows (comparison field op value) = refl
    flatten_where-retain rows (conjunction left right) =
        apply_steps-append rows (flatten_where text left) (flatten_where text right)
        ∙ rw (flatten_where-retain rows left, flatten_where-retain (retain (meets left) rows) right)
            (retain-retain (meets left) (meets right) rows)
    flatten_where-retain rows (disjunction left right) =
        apply_steps-append rows (flatten_where text left) (flatten_where text right)
        ∙ rw (flatten_where-retain rows left, flatten_where-retain (retain (meets left) rows) right)
            (retain-retain (meets left) (meets right) rows)

    where_steps-selected :
        (rows : List Row) (condition : Option WhereExpr)
        → apply_steps numbers rows (where_steps text condition) ≡ selected condition rows
    unfolding where_steps apply_steps
    where_steps-selected rows none = refl
    where_steps-selected rows (some condition) = flatten_where-retain rows condition

    abbrev pub answer : WqlQuery → Option (List String) → List (String × SiteMap) → List Row
    answer q schema maps = projected q.select (
        limited q.limit (
          sorted q.order_by
            (selected q.where_clause (scan numbers q.from.name (domains_of q.across schema) maps))))

    steps-answer :
        (q : WqlQuery) (rows : List Row)
        → apply_steps numbers rows (
            where_steps text q.where_clause
            ++ (join_steps q.joins
                ++ (temporal_steps text q.select
                    ++ (sort_steps q.order_by ++ (limit_steps q.limit ++ project_steps q.select)))))
          ≡ projected q.select (limited q.limit (sorted q.order_by (selected q.where_clause rows)))
    steps-answer q rows =
        rw
          (
            apply_steps-append, where_steps-selected, apply_steps-append, join_steps-nothing,
            apply_steps-append, temporal_steps-nothing, apply_steps-append, sort_steps-sorted,
            apply_steps-append, limit_steps-limited,
          )
          (project_steps-projected _ q.select)

    -- A planned query returns the rows of the scan that meet every comparison of the condition,
    -- below a disjunction too, sorted by each field of ORDER BY in turn, at most as many as LIMIT
    -- says, with the fields that are named in the selection; joins and temporal functions do
    -- nothing.
    pub execute-plan :
        (q : WqlQuery) (schema : Option (List String)) (maps : List (String × SiteMap))
        → execute numbers (plan text q schema) maps ≡ some (answer q schema maps)
    unfolding execute plan find_scan_target apply_steps apply_step
    execute-plan q schema maps = ap some (unfold plan in steps-answer q _)
