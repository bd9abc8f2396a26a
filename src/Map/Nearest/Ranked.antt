-- ===== src/Map/Nearest/Ranked.antt =====
-- runtime/src/map/reader.rs: what `nearest` answers.
use mathlib.Core.List.{Perm}
use agentic_vision.Prelude.{
  not-true, ◌%◌, ◌^◌, ℕ, suc, ◌+◌, ◌≡◌, ◌≤◌, ◌<◌, refl, some, List, [], ◌∷◌, ◌++◌, false, not,
  arith, length, take, drop, get_or, map, min, All, All-take, length-take, take-append-drop,
}
use agentic_vision.Prelude.Sort.{
  sort_by, sort_by-perm, length-sort_by, sort_by-Pairwise, All-sort_by, Pairwise, IsPreorder,
}
use agentic_vision.Map.Types.{NodeRecord, SiteMap}
use agentic_vision.Map.Bytes.{ok}
use agentic_vision.Map.Floats.{Floats}
use agentic_vision.Map.Builder.{norm}
use agentic_vision.Map.Reader.{at_found}
use agentic_vision.Map.Queries.{NodeMatch}
use agentic_vision.Map.Nearest.{node_similarity, score_from, scored_above, to_matches, nearest}

module _ (ops : Floats) (site : SiteMap) (missing : NodeRecord) where
  -- The nodes from number `i` on, with their similarity.
  abbrev pub scores : List ℕ → ℕ → List (List ℕ) → List (ℕ × ℕ)
  scores target i [] = []
  scores target i (feat ∷ features) =
      (i, node_similarity ops target ((get_or site.nodes i missing).feature_norm) feat)
      ∷ scores target (suc i) features

  abbrev pub scored_match : ℕ × ℕ → NodeMatch
  scored_match scored = record {
    index = scored.0;
    url = get_or site.urls scored.0 [];
    page_type = (get_or site.nodes scored.0 missing).page_type;
    confidence =
        ops.div (ops.from_u32 ((get_or site.nodes scored.0 missing).confidence)) (ops.from_u32 255);
    features = [];
    similarity = some scored.1;
  }

  score_from_lem :
      (target : List ℕ) (i : ℕ) (features : List (List ℕ))
      → i + length features ≤ length site.nodes
      → length site.nodes ≤ 2 ^ 32
      → score_from ops site target i features ≡ ok (scores target i features)
  unfolding score_from
  score_from_lem target i [] h small = refl
  score_from_lem target i (feat ∷ features) h small =
      let index : i % 2 ^ 32 ≡ i = omega arith in
      rw
        (
          index,
          at_found site.nodes i missing (omega arith),
          score_from_lem target (suc i) features (omega arith) small,
        )
        refl

  abbrev IsListed : ℕ × ℕ → Type 0
  IsListed scored = (scored.0 < length site.nodes) × (scored.0 < length site.urls)

  scores-IsListed :
      (target : List ℕ) (i : ℕ) (features : List (List ℕ))
      → i + length features ≤ length site.nodes
      → i + length features ≤ length site.urls
      → All IsListed (scores target i features)
  scores-IsListed target i [] h k = tt
  scores-IsListed target i (feat ∷ features) h k = (
    (omega arith, omega arith),
    scores-IsListed target (suc i) features (omega arith) (omega arith),
  )

  to_matches_lem :
      (scored : List (ℕ × ℕ))
      → All IsListed scored
      → to_matches ops site scored ≡ ok (map scored_match scored)
  unfolding to_matches
  to_matches_lem [] h = refl
  to_matches_lem ((idx, sim) ∷ scored) h =
      rw
        (
          at_found site.urls idx [] h.0.1,
          at_found site.nodes idx missing h.0.0,
          to_matches_lem scored h.1,
        )
        refl

  length-scores :
      (target : List ℕ) (i : ℕ) (features : List (List ℕ))
      → length (scores target i features) ≡ length features
  length-scores target i [] = refl
  length-scores target i (feat ∷ features) = omega (arith, length-scores target (suc i) features)

  module _ {Number : ℕ → Type 0} (order : IsPreorder Number (λ a b. not (ops.lt b a))) where
    scored_above-IsPreorder : IsPreorder (λ (s : ℕ × ℕ). Number s.1) (scored_above ops)
    scored_above-IsPreorder = record {
      total = λ a b pa pb. order.total b.1 a.1 pb pa;
      trans = λ a b c pa pb pc h k. order.trans c.1 b.1 a.1 pc pb pa k h;
    }

    -- If the comparison of floats is a total order on numbers and every similarity is one, for a
    -- vector of which the norm is not zero, in a map of at most 2^32 nodes with a vector and a
    -- URL for each: nearest answers with the matches of k nodes, all of them if there are fewer.
    -- Put in a row, the nodes of the answer first and those that it leaves out behind, no node is
    -- more similar than one that stands before it.
    pub nearest_best :
        (target : List ℕ) (k : ℕ)
        → ops.is_zero (norm ops target) ≡ false
        → length site.features ≡ length site.nodes
        → length site.urls ≡ length site.nodes
        → length site.nodes ≤ 2 ^ 32
        → All (λ s. Number s.1) (scores target 0 site.features)
        → (best : List (ℕ × ℕ)) × (farther : List (ℕ × ℕ)) × (nearest ops site target k
            ≡ ok (map scored_match best))
          × (length best ≡ min k (length site.nodes))
          × Perm (best ++ farther) (scores target 0 site.features)
          × Pairwise (λ a b. ops.lt a.1 b.1 ≡ false) (best ++ farther)
    unfolding nearest
    nearest_best target k directed as_many_vectors as_many_urls small numbers =
        let all = scores target 0 site.features in
        let sorted = sort_by (scored_above ops) all in
        let listed = All-take IsListed k sorted (
          All-sort_by (scored_above ops) IsListed all
            (scores-IsListed target 0 site.features (omega arith) (omega arith))) in
        (
          take k sorted,
          drop k sorted,
          rw (directed, score_from_lem target 0 site.features (omega arith) small)
              (to_matches_lem (take k sorted) listed),
          omega (
            arith,
            length-take k sorted,
            length-sort_by (scored_above ops) all,
            length-scores target 0 site.features,
          ),
          rw (take-append-drop k sorted) (sort_by-perm (scored_above ops) all),
          rw (take-append-drop k sorted) (
              sort_by-Pairwise (scored_above ops) (λ s. Number s.1) scored_above-IsPreorder
                (λ a b. ops.lt a.1 b.1 ≡ false) (λ a b pa pb e. not-true (ops.lt a.1 b.1) e) all
                numbers),
        )
