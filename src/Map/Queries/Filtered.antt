-- ===== src/Map/Queries/Filtered.antt =====
-- runtime/src/map/reader.rs: what `filter` answers.
use agentic_vision.Prelude.{
  Option, ◌↔◌, ℕ, All-anything, not-true, ◌^◌, take-append-drop, length-take, append-nil, ◌≡◌, ◌≤◌,
  refl, inl, inr, List, [], ◌∷◌, ◌++◌, Bool, true, false, not, ◌&&◌, none, some, ◌==◌, ltb,
  if◌then◌else◌, arith, length, take, drop, get_or, min, All, All-every, Bool-cases,
}
use mathlib.Core.List.{Perm}
use mathlib.Core.List.Perm
use agentic_vision.Prelude.Sort.{
  sort_by, sort_by-perm, length-sort_by, sort_by-IsSorted, IsSorted, IsSorted-Pairwise, Pairwise,
  IsPreorder,
}
use agentic_vision.Map.Types.{NodeRecord, SiteMap, feature_dim}
use agentic_vision.Map.Bytes.{ok}
use agentic_vision.Map.Floats.{Floats}
use agentic_vision.Map.Queries.{NodeQuery, NodeMatch, sort_key, match_order, sort_matches, filter}
use agentic_vision.Map.Queries.Criteria.{IsByteOrNone, IsSelected, meets_iff}
use agentic_vision.Map.Queries.Selected.{meets, all_matches, filter_from_lem}

any_order : {A : Type 0} (xs : List A) → IsSorted (λ a b. true) xs
any_order [] = tt
any_order (x ∷ xs) = (All-every (λ y. refl) xs, any_order xs)

limited_above :
    (limit n m k : ℕ)
    → n ≡ m
    → k ≡ min limit n
    → (ltb 0 limit && ltb limit n) ≡ true
    → k ≡ (if limit == 0 then m else min limit m)
limited_above limit n m k same cut e = ground arith

limited_below :
    (limit n m : ℕ)
    → n ≡ m
    → (ltb 0 limit && ltb limit n) ≡ false
    → n ≡ (if limit == 0 then m else min limit m)
limited_below limit n m same e = ground arith

module _ (ops : Floats) (site : SiteMap) (query : NodeQuery) where
  -- No feature by which the matches are sorted, or no later one that would stand before an earlier.
  abbrev pub IsInOrder : Option ℕ → Bool → NodeMatch → NodeMatch → Type 0
  IsInOrder none ascending a b = Unit
  IsInOrder (some dim) ascending a b =
      let value_a = get_or (get_or site.features a.index []) dim ops.zero in
      let value_b = get_or (get_or site.features b.index []) dim ops.zero in
      if ltb dim feature_dim
      then (if ascending then ops.lt value_b value_a ≡ false else ops.lt value_a value_b ≡ false)
      else Unit

  match_order-IsInOrder :
      (dim : ℕ) (ascending : Bool) (a b : NodeMatch)
      → match_order ops site dim ascending a b ≡ true
      → IsInOrder (some dim) ascending a b
  unfolding match_order
  match_order-IsInOrder dim true a b h = elim (Bool-cases (ltb dim feature_dim)) [
    | inl e ↦ rw e (not-true _ h)
    | inr e ↦ rw e tt
  ]
  match_order-IsInOrder dim false a b h = elim (Bool-cases (ltb dim feature_dim)) [
    | inl e ↦ rw e (not-true _ h)
    | inr e ↦ rw e tt
  ]

  wanted-IsInOrder :
      (by : Option ℕ) (ascending : Bool) (a b : NodeMatch)
      → elim by [
        | none ↦ true
        | some dim ↦ if ltb dim feature_dim then match_order ops site dim ascending a b else true
      ]
        ≡ true
      → IsInOrder by ascending a b
  wanted-IsInOrder none ascending a b h = tt
  wanted-IsInOrder (some dim) ascending a b h = elim (Bool-cases (ltb dim feature_dim)) [
    | inl e ↦ match_order-IsInOrder dim ascending a b (rw e at h)
    | inr e ↦ rw e tt
  ]

  -- The order that the query asks for; without one, any order will do.
  abbrev pub wanted : NodeMatch → NodeMatch → Bool
  wanted a b = elim query.sort_by_feature [
    | none ↦ true
    | some dim ↦
        if ltb dim feature_dim then match_order ops site dim query.sort_ascending a b else true
  ]

  abbrev sorted_by : ℕ → List NodeMatch → List NodeMatch
  sorted_by dim results = sort_by (match_order ops site dim query.sort_ascending) results

  -- What holds of the results, unsorted and sorted by any feature.
  sort_matches_cases :
      (P : List NodeMatch → Type 0) (results : List NodeMatch)
      → P results
      → ((dim : ℕ) → P (sorted_by dim results))
      → P (sort_matches ops site query results)
  unfolding sort_matches
  sort_matches_cases P results h k =
      elim query.sort_by_feature
        as (λ o. P (elim o [
          | none ↦ results
          | some dim ↦ if ltb dim feature_dim then sorted_by dim results else results
        ])) [
          | none ↦ h
          | some dim ↦
              elim (ltb dim feature_dim)
                as (λ b. P (if b then sorted_by dim results else results)) [
                  | true ↦ k dim
                  | false ↦ h
                ]
        ]

  sort_matches-perm :
      (results : List NodeMatch) → Perm (sort_matches ops site query results) results
  sort_matches-perm results =
      sort_matches_cases (λ r. Perm r results) results (Perm.refl results)
        (λ dim. sort_by-perm (match_order ops site dim query.sort_ascending) results)

  length-sort_matches :
      (results : List NodeMatch) → length (sort_matches ops site query results) ≡ length results
  length-sort_matches results =
      sort_matches_cases (λ r. length r ≡ length results) results refl
        (λ dim. length-sort_by (match_order ops site dim query.sort_ascending) results)

  module _ {Number : ℕ → Type 0} (order : IsPreorder Number (λ a b. not (ops.lt b a))) where
    abbrev KeyIsNumber : ℕ → NodeMatch → Type 0
    KeyIsNumber dim m = Number (sort_key ops site dim m)

    match_order-IsPreorder :
        (dim : ℕ) (ascending : Bool)
        → IsPreorder (KeyIsNumber dim) (match_order ops site dim ascending)
    unfolding match_order
    match_order-IsPreorder dim true = record {
      total = λ a b. order.total (sort_key ops site dim a) (sort_key ops site dim b);
      trans = λ a b c.
          order.trans (sort_key ops site dim a) (sort_key ops site dim b) (sort_key ops site dim c);
    }
    match_order-IsPreorder dim false = record {
      total = λ a b pa pb. order.total (sort_key ops site dim b) (sort_key ops site dim a) pb pa;
      trans = λ a b c pa pb pc h k.
          order.trans (sort_key ops site dim c) (sort_key ops site dim b) (sort_key ops site dim a)
            pc pb pa k h;
    }

    sort_matches-IsSorted :
        ((i dim : ℕ) → Number (get_or (get_or site.features i []) dim ops.zero))
        → (results : List NodeMatch) → IsSorted wanted (sort_matches ops site query results)
    unfolding sort_matches
    sort_matches-IsSorted numbers results =
        elim query.sort_by_feature
          as (λ o.
            IsSorted
              (λ a b. elim o [
                | none ↦ true
                | some dim ↦
                    if ltb dim feature_dim
                    then match_order ops site dim query.sort_ascending a b
                    else true
              ])
              (elim o [
                | none ↦ results
                | some dim ↦
                    if ltb dim feature_dim
                    then sort_by (match_order ops site dim query.sort_ascending) results
                    else results
              ])) [
                | none ↦ any_order results
                | some dim ↦
                    elim (ltb dim feature_dim)
                      as (λ b.
                        IsSorted
                          (λ x y.
                            if b then match_order ops site dim query.sort_ascending x y else true)
                          (if b
                            then sort_by (match_order ops site dim query.sort_ascending) results
                            else results)) [
                              | true ↦
                                  sort_by-IsSorted (match_order ops site dim query.sort_ascending)
                                    (KeyIsNumber dim)
                                    (match_order-IsPreorder dim query.sort_ascending) results
                                    (All-every (λ m. numbers m.index dim) results)
                              | false ↦ any_order results
                            ]
              ]

    -- If the comparison of floats is a total order on numbers and every feature is one, in a map
    -- of at most 2^32 nodes with a vector of 128 features and a URL for each, and required flags
    -- that are a byte: filter answers, and with the matches that it leaves out its answer is a
    -- permutation of the matches of the nodes that are selected. No later one of them has a
    -- smaller value of the feature to sort by, or a greater one if the order is to fall. The
    -- limit, if there is one, is the length of the answer unless there are fewer matches. A node
    -- is selected exactly if its type is one of those asked for, each feature that is asked for
    -- lies between its bounds, and it has all the bits of the required flags and none of the
    -- excluded ones.
    pub filter_best :
        ((i dim : ℕ) → Number (get_or (get_or site.features i []) dim ops.zero))
        → All (λ v. length v ≡ feature_dim) site.features
        → length site.features ≡ length site.nodes
        → length site.urls ≡ length site.nodes
        → length site.nodes ≤ 2 ^ 32
        → IsByteOrNone query.require_flags
        → (answer : List NodeMatch) × (left_out : List NodeMatch) × (filter ops site query
            ≡ ok answer)
          × (length answer ≡ (
              if query.limit == 0
              then length (all_matches ops site query 0 site.nodes)
              else min query.limit (length (all_matches ops site query 0 site.nodes))))
          × Perm (answer ++ left_out) (all_matches ops site query 0 site.nodes)
          × Pairwise (IsInOrder query.sort_by_feature query.sort_ascending) (answer ++ left_out)
          × ((i : ℕ) (node : NodeRecord)
              → (meets ops site query (i, node) ≡ true)
                ↔ IsSelected ops query (get_or site.features i []) node)
    unfolding filter
    filter_best numbers vectors as_many_vectors as_many_urls small byte =
        let all = all_matches ops site query 0 site.nodes in
        let sorted = sort_matches ops site query all in
        let found =
          filter_from_lem ops site query vectors 0 site.nodes (omega arith) (omega arith)
            (omega arith) in
        let same = length-sort_matches all in
        let in_order : Pairwise (IsInOrder query.sort_by_feature query.sort_ascending) sorted =
          IsSorted-Pairwise wanted (λ m. Unit {0})
            (IsInOrder query.sort_by_feature query.sort_ascending)
            (λ a b _ _ h. wanted-IsInOrder query.sort_by_feature query.sort_ascending a b h) sorted
            (All-anything sorted) (sort_matches-IsSorted numbers all) in
        elim (Bool-cases (ltb 0 query.limit && ltb query.limit (length sorted))) [
          | inl e ↦ (
            take query.limit sorted,
            drop query.limit sorted,
            rw (found, e) refl,
            limited_above query.limit (length sorted) (length all)
                (length (take query.limit sorted)) same (length-take query.limit sorted) e,
            rw (take-append-drop query.limit sorted) (sort_matches-perm all),
            rw (take-append-drop query.limit sorted) in_order,
            meets_iff ops site query byte,
          )
          | inr e ↦ (
            sorted,
            [],
            rw (found, e) refl,
            limited_below query.limit (length sorted) (length all) same e,
            rw (append-nil sorted) (sort_matches-perm all),
            rw (append-nil sorted) in_order,
            meets_iff ops site query byte,
          )
        ]
