-- ===== src/Map/Queries/Selected.antt =====
-- runtime/src/map/reader.rs: the nodes that `filter` selects.
use agentic_vision.Prelude.{
  ◌%◌, ◌^◌, ℕ, suc, ◌+◌, ◌≡◌, ◌≤◌, ◌<◌, refl, inl, inr, List, [], ◌∷◌, Bool, true, false, not, ◌&&◌,
  ◌||◌, none, some, ltb, leb, if◌then◌else◌, arith, length, get_or, retain, map, All, All-get_or,
  Bool-cases, ltb→lt, leb_false→lt,
}
use agentic_vision.Map.Types.{NodeRecord, SiteMap, feature_dim}
use agentic_vision.Map.Bytes.{ok}
use agentic_vision.Map.Floats.{Floats}
use agentic_vision.Map.Reader.{at_found}
use agentic_vision.Map.Queries.{
  FeatureRange, NodeQuery, NodeMatch, of_other_type, lacks_flags, has_excluded, key_features,
  is_below, is_above, is_outside, node_match, examine, filter_from,
}

-- To leave a round at the first test that fails is to test them all.
guards :
    {A : Type 0} (a b c d : Bool) (m : A)
    → (if a then ok none else if not b || c || d then ok none else ok (some m))
      ≡ ok (if not a && b && not c && not d then some m else none)
guards true b c d m = refl
guards false false c d m = refl
guards false true true d m = refl
guards false true false true m = refl
guards false true false false m = refl

-- The nodes with their indices.
abbrev pub indexed : ℕ → List NodeRecord → List (ℕ × NodeRecord)
indexed i [] = []
indexed i (node ∷ nodes) = (i, node) ∷ indexed (suc i) nodes

abbrev pub keys : List FeatureRange → List ℕ → List (ℕ × ℕ)
keys ranges vector =
    map (λ r. (r.dimension, get_or vector r.dimension 0))
      (retain (λ r. ltb r.dimension feature_dim) ranges)

keys_lem :
    (ranges : List FeatureRange) (vector : List ℕ)
    → length vector ≡ feature_dim
    → key_features ranges vector ≡ ok (keys ranges vector)
unfolding key_features
keys_lem [] vector h = refl
keys_lem (r ∷ ranges) vector h = elim (Bool-cases (ltb r.dimension feature_dim)) [
  | inl e ↦
      let inside : r.dimension < length vector = omega (arith, ltb→lt r.dimension feature_dim e) in
      rw (e, at_found vector r.dimension 0 inside, keys_lem ranges vector h) refl
  | inr e ↦ rw e (keys_lem ranges vector h)
]

module _ (ops : Floats) where
  -- A range of a dimension that no vector has is met.
  abbrev pub is_in_range : List ℕ → FeatureRange → Bool
  is_in_range vector r =
      let val = get_or vector r.dimension 0 in
      leb feature_dim r.dimension || not (is_below ops val r.min || is_above ops val r.max)

  abbrev pub is_in_ranges : List FeatureRange → List ℕ → Bool
  is_in_ranges [] vector = true
  is_in_ranges (r ∷ ranges) vector = is_in_range vector r && is_in_ranges ranges vector

  is_outside_lem :
      (ranges : List FeatureRange) (vector : List ℕ)
      → length vector ≡ feature_dim
      → is_outside ops ranges vector ≡ ok (not (is_in_ranges ranges vector))
  unfolding is_outside
  is_outside_lem [] vector h = refl
  is_outside_lem (r ∷ ranges) vector h = elim (Bool-cases (leb feature_dim r.dimension)) [
    | inl e ↦ rw e (is_outside_lem ranges vector h)
    | inr e ↦
        let inside : r.dimension < length vector =
          omega (arith, leb_false→lt feature_dim r.dimension e) in
        let val = get_or vector r.dimension 0 in
        rw (e, at_found vector r.dimension 0 inside, is_outside_lem ranges vector h)
          (elim (is_below ops val r.min || is_above ops val r.max)
            as (λ b.
              (if b then ok true else ok (not (is_in_ranges ranges vector)))
              ≡ ok (not (not b && is_in_ranges ranges vector))) [ true ↦ refl | false ↦ refl ])
  ]

module _ (ops : Floats) (site : SiteMap) (query : NodeQuery) where
  abbrev pub vector_of : ℕ → List ℕ
  vector_of i = get_or site.features i []

  -- The type is one of those asked for, each range is met, and the flags are right.
  abbrev pub meets : ℕ × NodeRecord → Bool
  meets entry =
      not (of_other_type query.page_types entry.1.page_type)
      && is_in_ranges ops query.feature_ranges (vector_of entry.0)
      && not (lacks_flags query.require_flags entry.1.flags)
      && not (has_excluded query.exclude_flags entry.1.flags)

  abbrev pub matched : ℕ × NodeRecord → NodeMatch
  matched entry = record {
    index = entry.0;
    url = get_or site.urls entry.0 [];
    page_type = entry.1.page_type;
    confidence = ops.div (ops.from_u32 entry.1.confidence) (ops.from_u32 255);
    features = keys query.feature_ranges (vector_of entry.0);
    similarity = none;
  }

  -- The matches of the nodes from number `i` on.
  abbrev pub all_matches : ℕ → List NodeRecord → List NodeMatch
  all_matches i nodes = map matched (retain meets (indexed i nodes))

  module _ (vectors : All (λ v. length v ≡ feature_dim) site.features) where
    examine_lem :
        (i : ℕ) (node : NodeRecord)
        → i < 2 ^ 32
        → i < length site.features
        → i < length site.urls
        → examine ops site query i node
          ≡ ok (if meets (i, node) then some (matched (i, node)) else none)
    unfolding examine node_match
    examine_lem i node small in_features in_urls =
        let index : i % 2 ^ 32 ≡ i = omega arith in
        let sized =
          All-get_or (λ v. length v ≡ feature_dim) site.features i [] in_features vectors in
        rw
          (
            index,
            at_found site.features i [] in_features,
            at_found site.urls i [] in_urls,
            is_outside_lem ops query.feature_ranges (vector_of i) sized,
            keys_lem query.feature_ranges (vector_of i) sized,
          )
          (guards (of_other_type query.page_types node.page_type)
            (is_in_ranges ops query.feature_ranges (vector_of i))
            (lacks_flags query.require_flags node.flags)
            (has_excluded query.exclude_flags node.flags) (matched (i, node)))

    pub filter_from_lem :
        (i : ℕ) (nodes : List NodeRecord)
        → i + length nodes ≤ 2 ^ 32
        → i + length nodes ≤ length site.features
        → i + length nodes ≤ length site.urls
        → filter_from ops site query i nodes ≡ ok (all_matches i nodes)
    unfolding filter_from
    filter_from_lem i [] small h k = refl
    filter_from_lem i (node ∷ nodes) small h k =
        rw
          (
            examine_lem i node (omega arith) (omega arith) (omega arith),
            filter_from_lem (suc i) nodes (omega arith) (omega arith) (omega arith),
          )
          (pushed_or_not (meets (i, node)))
      where
        pushed_or_not :
            (b : Bool)
            → ok (elim (if b then some (matched (i, node)) else none) [
              | none ↦ all_matches (suc i) nodes
              | some m ↦ m ∷ all_matches (suc i) nodes
            ])
              ≡ ok (
                  map matched (
                    if b
                    then (i, node) ∷ retain meets (indexed (suc i) nodes)
                    else retain meets (indexed (suc i) nodes)))
        pushed_or_not true = refl
        pushed_or_not false = refl
