-- ===== src/Wql/Columns.antt =====
-- Fields of the rows of a query (runtime/src/wql/executor.rs): what a projection keeps of them and
-- how they order the rows.
use mathlib.Core.List.{Perm}
use agentic_vision.Prelude.{
  ◌≡◌, refl, ◌∙◌, sym, subst, String, str_eq, eq_iff, none, some, List, [], ◌∷◌, Bool, true, false,
  arith, retain, Bool-cases, inl, inr, All, if◌then◌else◌,
}
use agentic_vision.Prelude.Int.{ℤ, pos, negsuc, ◌≤ℤ◌}
use agentic_vision.Prelude.Sort.{Pairwise, IsPreorder, sort_by-Pairwise, sort_by-perm}
use agentic_vision.Wql.Executor.{
  integer, Row, Fields, Numbers, contains, get_field, in_order, not_greater, reverse,
  compare_values, compare_integers, sort_rows, project_row,
}

get_field-retain :
    (names : List String) (fields : Fields) (key : String)
    → get_field (retain (λ entry. contains names entry.0) fields) key
      ≡ (if contains names key then get_field fields key else none)
unfolding get_field
get_field-retain names [] key = ground arith
get_field-retain names (entry ∷ later) key = elim (Bool-cases (str_eq entry.0 key)) [
  | inl e ↦
      let same : entry.0 ≡ key = (eq_iff entry.0 key).0 e in
      elim (Bool-cases (contains names entry.0)) [
        | inl c ↦
            let c' : contains names key ≡ true = subst (λ k. contains names k ≡ true) same c in
            rw (c, c', e) refl
        | inr c ↦
            let c' : contains names key ≡ false = subst (λ k. contains names k ≡ false) same c in
            rw (c, c') (get_field-retain names later key ∙ rw c' refl)
      ]
  | inr e ↦ elim (Bool-cases (contains names entry.0)) [
    | inl c ↦ rw (c, e) (get_field-retain names later key)
    | inr c ↦ rw (c, e) (get_field-retain names later key)
  ]
]

module _ (numbers : Numbers) where
  -- A projected row has the fields that are named, with their values, and no other.
  pub get_field-project_row :
      (names : List String) (row : Row) (key : String)
      → get_field (project_row numbers names row).fields key
        ≡ (if contains names key then get_field row.fields key else none)
  unfolding project_row
  get_field-project_row names row key = get_field-retain names row.fields key

  abbrev pub HasInteger : String → Row → Type 0
  HasInteger field row = (i : ℤ) × (get_field row.fields field ≡ some (integer i))

  abbrev pub at_or_before : Bool → ℤ → ℤ → Bool
  at_or_before ascending a b =
      let cmp = compare_integers numbers a b in
      not_greater numbers (if ascending then cmp else reverse numbers cmp)

  at_or_before-total :
      (ascending : Bool) (a b : ℤ)
      → at_or_before ascending a b ≡ false
      → at_or_before ascending b a ≡ true
  unfolding compare_integers
  at_or_before-total ascending a b h = ground arith

  at_or_before_trans :
      (ascending : Bool) (a b c : ℤ)
      → at_or_before ascending a b ≡ true
      → at_or_before ascending b c ≡ true
      → at_or_before ascending a c ≡ true
  unfolding compare_integers
  at_or_before_trans ascending a b c h k = ground arith

  at_or_before_le :
      (ascending : Bool) (i j : ℤ)
      → at_or_before ascending i j ≡ true
      → (if ascending then i ≤ℤ j else j ≤ℤ i)
  unfolding compare_integers
  at_or_before_le true (pos a) (pos b) h = ground arith
  at_or_before_le true (pos a) (negsuc b) h = absurd (cc h)
  at_or_before_le true (negsuc a) (pos b) h = tt
  at_or_before_le true (negsuc a) (negsuc b) h = ground arith
  at_or_before_le false (pos a) (pos b) h = ground arith
  at_or_before_le false (pos a) (negsuc b) h = tt
  at_or_before_le false (negsuc a) (pos b) h = absurd (cc h)
  at_or_before_le false (negsuc a) (negsuc b) h = ground arith

  in_order-integers :
      (field : String) (ascending : Bool) (a b : Row) (i j : ℤ)
      → get_field a.fields field ≡ some (integer i)
      → get_field b.fields field ≡ some (integer j)
      → in_order numbers field ascending a b ≡ at_or_before ascending i j
  unfolding in_order compare_values
  in_order-integers field ascending a b i j e f = rw (e, f, in_order, compare_values) refl

  in_order-IsPreorder :
      (field : String) (ascending : Bool)
      → IsPreorder (HasInteger field) (in_order numbers field ascending)
  in_order-IsPreorder field ascending = record {
    total = λ a b (i, e) (j, f) h.
        in_order-integers field ascending b a j i f e
        ∙ at_or_before-total ascending i j
            (sym (in_order-integers field ascending a b i j e f) ∙ h);
    trans = λ a b c (i, e) (j, f) (k, g) h l.
        in_order-integers field ascending a c i k e g
        ∙ at_or_before_trans ascending i j k
            (sym (in_order-integers field ascending a b i j e f) ∙ h)
            (sym (in_order-integers field ascending b c j k f g) ∙ l);
  }

  -- The field is an integer in both rows, the smaller one first, or the larger one.
  abbrev pub StandsBefore : String → Bool → Row → Row → Type 0
  StandsBefore field ascending a b =
      (i : ℤ) × (j : ℤ) × (get_field a.fields field ≡ some (integer i))
      × (get_field b.fields field ≡ some (integer j))
      × (if ascending then i ≤ℤ j else j ≤ℤ i)

  -- Sorting by a field that is an integer in every row loses and invents no row, and of two rows
  -- the one with the smaller integer stands first, or with the larger one if the order is to
  -- fall.
  pub sort_rows-IsSorted :
      (rows : List Row) (field : String) (ascending : Bool)
      → All (HasInteger field) rows
      → Perm (sort_rows numbers rows field ascending) rows
        × Pairwise (StandsBefore field ascending) (sort_rows numbers rows field ascending)
  unfolding sort_rows
  sort_rows-IsSorted rows field ascending h = (
    sort_by-perm (in_order numbers field ascending) rows,
    sort_by-Pairwise (in_order numbers field ascending) (HasInteger field)
        (in_order-IsPreorder field ascending) (StandsBefore field ascending)
        (λ a b (i, e) (j, f) h. (
          i,
          j,
          e,
          f,
          at_or_before_le ascending i j (sym (in_order-integers field ascending a b i j e f) ∙ h),
        ))
        rows h,
  )
