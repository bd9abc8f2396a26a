-- ===== src/Wql/Rows.antt =====
-- The rows of a query (runtime/src/wql/executor.rs): where they come from, how many there are, in
-- which order, and which fields they keep.
use agentic_vision.Prelude.{
  not-false, ℕ, ◌⊎◌, eq_iff, sym, ◌∙◌, false, ◌≤◌, ◌≡◌, refl, ap, String, str_eq, Option, none,
  some, List, [], ◌∷◌, map, true, false, arith, length, length-take, Bool-cases, inl, inr, All,
  All-append, All-retain, All-kept, All-anything, All-take, ◌==◌, suc, not, All-map,
}
use agentic_vision.Prelude.Sort.{All-sort_by}
use agentic_vision.Wql.Syntax.{SelectField, WhereExpr, OrderByField, WqlQuery}
use agentic_vision.Wql.Planner.{NumberText, any, domains_of, plan, output_name}
use agentic_vision.Wql.Executor.{
  contains, Row, SiteMap, Numbers, model_to_page_type, scan_nodes, scan, row_of, is_skipped,
  sort_rows, project_row, execute,
}
use agentic_vision.Wql.Conditions.{satisfies, meets-satisfies}
use agentic_vision.Wql.Pipeline.{
  sorted_by, sorted, limited, projected, meets, selected, answer, execute-plan,
}

All-mapped :
    {P : Row → Type 0} (f : Row → Row)
    → ((r : Row) → P r → P (f r))
    → (rows : List Row) → All P rows
    → All P (map f rows)
All-mapped f keep [] h = tt
All-mapped f keep (r ∷ rows) h = (keep r h.0, All-mapped f keep rows h.1)

length-map : (f : Row → Row) (rows : List Row) → length (map f rows) ≡ length rows
length-map f [] = refl
length-map f (r ∷ rows) = ap suc (length-map f rows)

abbrev IsAmong : String → List String → Type 0
IsAmong domain [] = ⊥
IsAmong domain (name ∷ names) = (name ≡ domain) ⊎ IsAmong domain names

-- The domain is named after ACROSS, or without that by the schema; no names stand for all domains.
abbrev pub IsAskedFor : Option (List String) → Option (List String) → String → Type 0
IsAskedFor (some []) schema domain = Unit
IsAskedFor (some (name ∷ names)) schema domain = IsAmong domain (name ∷ names)
IsAskedFor none (some []) domain = Unit
IsAskedFor none (some (name ∷ names)) domain = IsAmong domain (name ∷ names)
IsAskedFor none none domain = Unit

contains-IsAmong :
    (names : List String) (domain : String) → contains names domain ≡ true → IsAmong domain names
contains-IsAmong [] domain h = absurd (cc h)
contains-IsAmong (name ∷ names) domain h = elim (Bool-cases (str_eq name domain)) [
  | inl e ↦ inl ((eq_iff name domain).0 e)
  | inr e ↦ inr (contains-IsAmong names domain (rw e at h))
]

module _ (numbers : Numbers) where
  scan_nodes-domain :
      (model domain : String) (site_map : SiteMap) (idx : ℕ) (page_types : List ℕ)
      → All (λ r. r.domain ≡ domain) (scan_nodes numbers model domain site_map idx page_types)
  unfolding scan_nodes row_of
  scan_nodes-domain model domain site_map idx [] = tt
  scan_nodes-domain model domain site_map idx (t ∷ ts) =
      elim (Bool-cases (not (t == model_to_page_type model))) [
        | inl e ↦ rw e (scan_nodes-domain model domain site_map (suc idx) ts)
        | inr e ↦ rw e (refl, scan_nodes-domain model domain site_map (suc idx) ts)
      ]

  -- Every row that is scanned is of a domain that was asked for; none asked for means all.
  pub scan-domains :
      (model : String) (domains : List String) (maps : List (String × SiteMap))
      → All (λ r. is_skipped numbers domains r.domain ≡ false) (scan numbers model domains maps)
  unfolding scan
  scan-domains model domains [] = tt
  scan-domains model domains ((domain, site_map) ∷ maps) =
      elim (Bool-cases (is_skipped numbers domains domain)) [
        | inl e ↦ rw e (scan-domains model domains maps)
        | inr e ↦ rw e (
            All-append _ _ _
              (All-map _ _ _ (λ r h. rw h e)
                (scan_nodes-domain model domain site_map 0 site_map.page_types))
              (scan-domains model domains maps))
      ]

  module _ (P : Row → Type 0) where
    All-sorted_by :
        (os : List OrderByField) (rows : List Row) → All P rows → All P (sorted_by numbers rows os)
    All-sorted_by [] rows h = h
    All-sorted_by (o ∷ os) rows h =
        All-sorted_by os (sort_rows numbers rows o.field o.ascending)
          (unfold sort_rows in All-sort_by _ P rows h)

    All-sorted :
        (order_by : Option (List OrderByField)) (rows : List Row)
        → All P rows
        → All P (sorted numbers order_by rows)
    All-sorted none rows h = h
    All-sorted (some os) rows h = All-sorted_by os rows h

    All-limited : (n : Option ℕ) (rows : List Row) → All P rows → All P (limited numbers n rows)
    All-limited none rows h = h
    All-limited (some n) rows h = All-take P n rows h

    All-projected :
        ((names : List String) (r : Row) → P r → P (project_row numbers names r))
        → (select : List SelectField) (rows : List Row) → All P rows
        → All P (projected numbers select rows)
    All-projected keep select rows h = elim (Bool-cases (any (λ f. str_eq f.name "*") select)) [
      | inl e ↦ rw e h
      | inr e ↦ rw e (
          All-mapped (project_row numbers (map output_name select)) (keep (map output_name select))
            rows h)
    ]

    All-projected_star :
        (select : List SelectField) (rows : List Row)
        → any (λ f. str_eq f.name "*") select ≡ true
        → All P rows
        → All P (projected numbers select rows)
    All-projected_star select rows star h = rw star h

    All-selected :
        (text : NumberText) (c : Option WhereExpr) (rows : List Row)
        → All P rows
        → All P (selected numbers text c rows)
    All-selected text none rows h = h
    All-selected text (some c) rows h = All-kept P (meets numbers text c) rows h

  length-projected :
      (select : List SelectField) (rows : List Row)
      → length (projected numbers select rows) ≡ length rows
  length-projected select rows = elim (Bool-cases (any (λ f. str_eq f.name "*") select)) [
    | inl e ↦ rw e refl
    | inr e ↦ rw e (length-map (project_row numbers (map output_name select)) rows)
  ]

  not_skipped :
      (names : List String) (name domain : String)
      → is_skipped numbers (name ∷ names) domain ≡ false
      → IsAmong domain (name ∷ names)
  not_skipped names name domain h = contains-IsAmong (name ∷ names) domain (not-false _ h)

  is_skipped-IsAskedFor :
      (across schema : Option (List String)) (domain : String)
      → is_skipped numbers (domains_of across schema) domain ≡ false
      → IsAskedFor across schema domain
  unfolding domains_of
  is_skipped-IsAskedFor (some []) schema domain h = tt
  is_skipped-IsAskedFor (some (name ∷ names)) schema domain h = not_skipped names name domain h
  is_skipped-IsAskedFor none (some []) domain h = tt
  is_skipped-IsAskedFor none (some (name ∷ names)) domain h = not_skipped names name domain h
  is_skipped-IsAskedFor none none domain h = tt

  module _ (text : NumberText) (q : WqlQuery) (schema : Option (List String))
      (maps : List (String × SiteMap)) (rows : List Row)
      (returned : execute numbers (plan text q schema) maps ≡ some rows) where
    rows-answer : rows ≡ answer numbers text q schema maps
    rows-answer = cc (execute-plan numbers text q schema maps, returned)

    -- The domain of each row that a query returns is one of those named after ACROSS, or without
    -- ACROSS by the schema; all domains are allowed if none is named. With LIMIT n there are n
    -- rows at most.
    pub execute-plan_scope :
        All (λ r. IsAskedFor q.across schema r.domain) rows
        × ((n : ℕ) → q.limit ≡ some n → length rows ≤ n)
    execute-plan_scope =
        let found = scan numbers q.from.name (domains_of q.across schema) maps in
        let met = selected numbers text q.where_clause found in
        let P : Row → Type 0 =
          λ r. is_skipped numbers (domains_of q.across schema) r.domain ≡ false in
        rw rows-answer (
          All-map _ _ _ (λ r h. is_skipped-IsAskedFor q.across schema r.domain h)
              (All-projected P (λ names r h. unfold project_row in h) q.select _
                (All-limited P q.limit _ (
                  All-sorted P q.order_by met (
                    All-selected P text q.where_clause found
                      (scan-domains q.from.name (domains_of q.across schema) maps))))),
          λ n e. rw e (
              rw (length-projected q.select)
                (omega (arith, length-take n (sorted numbers q.order_by met)))),
        )

    -- Every row that a query for all fields with a condition returns satisfies the condition: its
    -- field is a number that compares as the operator says with the value, which is written as a
    -- number, or it is a text, which is only compared for equality. A disjunction, too, is
    -- satisfied only if both its sides are.
    pub execute-plan_meets :
        (condition : WhereExpr)
        → q.where_clause ≡ some condition
        → any (λ f. str_eq f.name "*") q.select ≡ true
        → All (λ r. satisfies numbers text condition r ≡ true) rows
    execute-plan_meets condition e star =
        let found = scan numbers q.from.name (domains_of q.across schema) maps in
        let P : Row → Type 0 = λ r. satisfies numbers text condition r ≡ true in
        rw (rows-answer, e)
          (All-projected_star P q.select _ star (
            All-limited P q.limit _ (
              All-sorted P q.order_by _ (
                All-map _ P _ (λ r h. sym (meets-satisfies numbers text condition r) ∙ h.1)
                  (All-retain (λ r. Unit {0}) (meets numbers text condition) found
                    (All-anything found))))))
