-- ===== src/Wql/Executor.antt =====
-- runtime/src/wql/executor.rs: the rows that a plan returns. A HashMap is a list of entries in the
-- order in which it is iterated; what the code computes with floats is the parameter `Numbers`.
use Prim.Native.String.{compare as compare_text}
use agentic_vision.Prelude.{
  ℕ, suc, ◌%◌, ◌^◌, Ordering, compare, String, str_eq, Option, none, some, List, [], ◌∷◌, ◌++◌, map,
  Bool, true, false, not, ◌==◌, if◌then◌else◌, retain, take, get_elem?,
}
use agentic_vision.Prelude.Int.{ℤ, pos, negsuc}
use agentic_vision.Prelude.Sort.{sort_by}
use agentic_vision.Wql.Syntax.{F64}
use agentic_vision.Wql.Planner.{
  PlanStep, scan_model, filter, join, temporal_enrich, sort, limit, project, QueryPlan, any,
}

abbrev pub F32 : Type 0
F32 = ℕ

pub data Value : Type 0 where
  float : F64 → Value
  integer : ℤ → Value
  string : String → Value
  bool : Bool → Value
  null : Value

abbrev pub Fields : Type 0
Fields = List (String × Value)

pub record Row : Type 0 where
  pub domain : String
  pub url : String
  pub node_id : ℕ
  pub fields : Fields

-- What the executor reads of a site map: the page types of the nodes as their numbers, the urls and
-- the feature vectors.
pub record SiteMap : Type 0 where
  pub page_types : List ℕ
  pub urls : List String
  pub features : List (List F32)

-- The operations on `f32`, `f64` and `i64` that the code uses: `near` is `(v - t).abs() < 0.001`,
-- `far` is `(v - t).abs() >= 0.001`.
pub record Numbers : Type 0 where
  pub parse_f64 : String → Option F64
  pub less : F64 → F64 → Bool
  pub greater : F64 → F64 → Bool
  pub at_most : F64 → F64 → Bool
  pub at_least : F64 → F64 → Bool
  pub near : F64 → F64 → Bool
  pub far : F64 → F64 → Bool
  pub partial_cmp : F64 → F64 → Option Ordering
  pub of_integer : ℤ → F64
  pub is_zero : F32 → Bool
  pub to_integer : F32 → ℤ
  pub to_f64 : F32 → F64

unfoldable pub get_field : Fields → String → Option Value
get_field [] key = none
get_field (entry ∷ later) key = if str_eq entry.0 key then some entry.1 else get_field later key

-- `HashMap::insert`.
unfoldable pub insert_field : String → Value → Fields → Fields
insert_field key value [] = (key, value) ∷ []
insert_field key value (entry ∷ later) =
    let rest = insert_field key value later in
    if str_eq entry.0 key then (key, value) ∷ later else entry ∷ rest

abbrev pub contains : List String → String → Bool
contains names name = any (λ n. str_eq n name) names

-- The numbers of the variants of `PageType`.
unfoldable pub model_to_page_type : String → ℕ
model_to_page_type model =
    if str_eq model "Product"
    then 0x04
    else if contains ("Category" ∷ "ProductListing" ∷ []) model
    then 0x03
    else if str_eq model "Article"
    then 0x05
    else if str_eq model "Review"
    then 0x10
    else if str_eq model "FAQ"
    then 0x1E
    else if str_eq model "Organization"
    then 0x1C
    else if str_eq model "Contact"
    then 0x1D
    else if str_eq model "Cart"
    then 0x0A
    else if str_eq model "Checkout"
    then 0x09
    else if str_eq model "Account"
    then 0x0B
    else if str_eq model "Media"
    then 0x0E
    else if contains ("Site" ∷ "WebSite" ∷ "Home" ∷ []) model
    then 0x01
    else if str_eq model "Event"
    then 0x19
    else if contains ("Documentation" ∷ "Docs" ∷ []) model
    then 0x06
    else if contains ("Forum" ∷ "Discussion" ∷ []) model
    then 0x17
    else if contains ("Search" ∷ "SearchResults" ∷ []) model
    then 0x02
    else 0x00

unfoldable pub dim_map : String → List (String × ℕ)
dim_map model =
    if str_eq model "Product"
    then ("price", 48)
      ∷ ("original_price", 49)
      ∷ ("discount_percent", 50)
      ∷ ("availability", 51)
      ∷ ("rating", 52)
      ∷ ("review_count", 53)
      ∷ ("seller_reputation", 58)
      ∷ ("variant_count", 59)
      ∷ ("deal_score", 63)
      ∷ []
    else if str_eq model "Article"
    then ("word_count", 17)
      ∷ ("reading_level", 29)
      ∷ ("sentiment", 30)
      ∷ ("rating", 52)
      ∷ ("image_count", 20)
      ∷ []
    else ("rating", 52) ∷ ("image_count", 20) ∷ []

abbrev pub counted : List String
counted = "review_count" ∷ "variant_count" ∷ "word_count" ∷ "image_count" ∷ []

-- `feats[dim]` of an array of 128, which has every dimension that is asked for.
abbrev pub feature : List F32 → ℕ → F32
feature feats dim = elim (get_elem? feats dim) [ none ↦ 0 | some v ↦ v ]

module _ (numbers : Numbers) where
  unfoldable pub map_features : List F32 → List (String × ℕ) → Fields → Fields
  map_features feats [] fields = fields
  map_features feats ((name, dim) ∷ later) fields =
      let val = feature feats dim in
      map_features feats later (
        if numbers.is_zero val
        then fields
        else if contains counted name
        then insert_field name (integer (numbers.to_integer val)) fields
        else insert_field name (float (numbers.to_f64 val)) fields)

  unfoldable pub map_features_to_fields : List F32 → String → Fields → Fields
  map_features_to_fields feats model fields = map_features feats (dim_map model) fields

  unfoldable pub row_of : String → String → SiteMap → ℕ → Row
  row_of model domain site_map idx =
      let url : String = elim (get_elem? site_map.urls idx) [ none ↦ "" | some u ↦ u ] in
      let standard : Fields =
        insert_field "node_id" (integer (pos idx)) (insert_field "url" (string url) []) in
      record {
        domain = domain;
        url = url;
        node_id = idx % 2 ^ 32;
        fields = elim (get_elem? site_map.features idx) [
          | none ↦ standard
          | some feats ↦ map_features_to_fields feats model standard
        ];
      }

  -- The loop over the nodes from `idx` on.
  unfoldable pub scan_nodes : String → String → SiteMap → ℕ → List ℕ → List Row
  scan_nodes model domain site_map idx [] = []
  scan_nodes model domain site_map idx (page_type ∷ later) =
      let rest = scan_nodes model domain site_map (suc idx) later in
      if not (page_type == model_to_page_type model)
      then rest
      else row_of model domain site_map idx ∷ rest

  abbrev pub is_skipped : List String → String → Bool
  is_skipped [] domain = false
  is_skipped (d ∷ ds) domain = not (contains (d ∷ ds) domain)

  unfoldable pub scan : String → List String → List (String × SiteMap) → List Row
  scan model domains [] = []
  scan model domains ((domain, site_map) ∷ maps) =
      let rest = scan model domains maps in
      if is_skipped domains domain
      then rest
      else scan_nodes model domain site_map 0 site_map.page_types ++ rest

  unfoldable pub compare_numbers : String → F64 → F64 → Bool
  compare_numbers op v t =
      if str_eq op "<"
      then numbers.less v t
      else if str_eq op ">"
      then numbers.greater v t
      else if str_eq op "<="
      then numbers.at_most v t
      else if str_eq op ">="
      then numbers.at_least v t
      else if str_eq op "="
      then numbers.near v t
      else if str_eq op "!="
      then numbers.far v t
      else true

  unfoldable pub compare_strings : String → String → String → Bool
  compare_strings op v value =
      if str_eq op "="
      then str_eq v value
      else if str_eq op "!="
      then not (str_eq v value)
      else true

  unfoldable pub matches : Option Value → Option F64 → String → String → Bool
  matches (some (float v)) (some t) op value = compare_numbers op v t
  matches (some (integer v)) (some t) op value = compare_numbers op (numbers.of_integer v) t
  matches (some (string v)) threshold op value = compare_strings op v value
  matches found threshold op value = false

  unfoldable pub keeps : String → String → String → Row → Bool
  keeps field op value row = matches (get_field row.fields field) (numbers.parse_f64 value) op value

  unfoldable pub filter_rows : List Row → String → String → String → List Row
  filter_rows rows field op value = retain (keeps field op value) rows

  unfoldable pub compare_integers : ℤ → ℤ → Ordering
  compare_integers (pos a) (pos b) = compare a b
  compare_integers (pos a) (negsuc b) = Ordering.gt
  compare_integers (negsuc a) (pos b) = Ordering.lt
  compare_integers (negsuc a) (negsuc b) = compare b a

  abbrev or_equal : Option Ordering → Ordering
  or_equal none = Ordering.eq
  or_equal (some o) = o

  unfoldable pub compare_values : Option Value → Option Value → Ordering
  compare_values (some (float a)) (some (float b)) = or_equal (numbers.partial_cmp a b)
  compare_values (some (integer a)) (some (integer b)) = compare_integers a b
  compare_values (some (string a)) (some (string b)) = compare_text a b
  compare_values va vb = Ordering.eq

  abbrev pub not_greater : Ordering → Bool
  not_greater Ordering.gt = false
  not_greater o = true

  abbrev pub reverse : Ordering → Ordering
  reverse Ordering.lt = Ordering.gt
  reverse Ordering.eq = Ordering.eq
  reverse Ordering.gt = Ordering.lt

  unfoldable pub in_order : String → Bool → Row → Row → Bool
  in_order field ascending a b =
      let cmp = compare_values (get_field a.fields field) (get_field b.fields field) in
      not_greater (if ascending then cmp else reverse cmp)

  unfoldable pub sort_rows : List Row → String → Bool → List Row
  sort_rows rows field ascending = sort_by (in_order field ascending) rows

  unfoldable pub project_row : List String → Row → Row
  project_row names row = record row {
    fields = retain (λ entry. contains names entry.0) row.fields;
  }

  unfoldable pub apply_step : List Row → PlanStep → List Row
  apply_step rows (scan_model model domains) = rows
  apply_step rows (filter field op value) = filter_rows rows field op value
  apply_step rows (sort field ascending) = sort_rows rows field ascending
  apply_step rows (limit n) = take n rows
  apply_step rows (project names) = map (project_row names) rows
  apply_step rows (join target relationship) = rows
  apply_step rows (temporal_enrich fields) = rows

  unfoldable pub apply_steps : List Row → List PlanStep → List Row
  apply_steps rows [] = rows
  apply_steps rows (step ∷ steps) = apply_steps (apply_step rows step) steps

-- The first step that scans, or the error that there is none.
unfoldable pub find_scan_target : List PlanStep → Option (String × List String)
find_scan_target [] = none
find_scan_target (scan_model model domains ∷ steps) = some (model, domains)
find_scan_target (step ∷ steps) = find_scan_target steps

-- `none` is the error "no ScanModel step in plan".
unfoldable pub execute : Numbers → QueryPlan → List (String × SiteMap) → Option (List Row)
execute numbers plan maps = elim (find_scan_target plan.steps) [
  | none ↦ none
  | some (model, domains) ↦ some (apply_steps numbers (scan numbers model domains maps) plan.steps)
]
