-- ===== src/Vision/Similarity/Ranking.antt =====
-- `find_similar` (crates/agentic-vision/src/similarity.rs): the best matches, in order.
use mathlib.Core.List.{Perm}
use agentic_vision.Prelude.{
  ℕ, suc, ◌≤◌, Ordering, ◌≡◌, ◌≢◌, ap, ◌∙◌, some, List, [], ◌∷◌, ◌++◌, Bool, Bool-cases, inl, inr,
  refl, if◌then◌else◌, true, false, not, ◌==◌, arith, length, take, drop, min, retain, map, All,
  All-map, All-retain, All-take, misses, misses-retain-le, retain_comm, retain-map, misses-map,
  length-take, take-append-drop, take-retain-take, All-anything,
}
use agentic_vision.Prelude.Sort.{
  sort_by, Pairwise, IsPreorder, sort_by-Pairwise, sort_by-perm, length-sort_by, retain-sort_by,
  All-sort_by, misses-sort_by,
}
use agentic_vision.Vision.Types.{F32, SimilarityMatch, VisualObservation}
use agentic_vision.Vision.Similarity.{
  FloatOps, match_of, more_similar, candidates, find_similar, is_empty, cosine_similarity,
}

-- What IEEE 754 says of the comparisons of `f32`: a number is what equals itself.
pub record FloatOrder (ops : FloatOps) : Type 0 where
  pub ge_number : (x m : F32) → ops.ge32 x m ≡ true → ops.partial_cmp x x ≡ some Ordering.eq
  pub flip :
      (x y : F32) → ops.partial_cmp x y ≡ some Ordering.gt → ops.partial_cmp y x ≡ some Ordering.lt
  pub trans :
      (x y z : F32)
      → ops.partial_cmp y y ≡ some Ordering.eq
      → ops.partial_cmp x y ≢ some Ordering.gt
      → ops.partial_cmp y z ≢ some Ordering.gt
      → ops.partial_cmp x z ≢ some Ordering.gt

abbrev pub other_match : ℕ → SimilarityMatch → Bool
other_match id m = not (m.id == id)

abbrev pub other_observation : ℕ → VisualObservation → Bool
other_observation id o = not (o.id == id)

module _ (ops : FloatOps) (order : FloatOrder ops) where
  abbrev pub IsNumber : SimilarityMatch → Type 0
  IsNumber m = ops.partial_cmp m.similarity m.similarity ≡ some Ordering.eq

  more_similar_iff_not_gt :
      (a b : SimilarityMatch)
      → (more_similar ops a b ≡ true → ops.partial_cmp b.similarity a.similarity ≢ some Ordering.gt)
        × (ops.partial_cmp b.similarity a.similarity ≢ some Ordering.gt
            → more_similar ops a b ≡ true)
  unfolding more_similar
  more_similar_iff_not_gt a b = ground arith

  more_similar_gt :
      (a b : SimilarityMatch)
      → more_similar ops a b ≡ false
      → ops.partial_cmp b.similarity a.similarity ≡ some Ordering.gt
  unfolding more_similar
  more_similar_gt a b h = ground arith

  pub more_similar-IsPreorder : IsPreorder IsNumber (more_similar ops)
  more_similar-IsPreorder = record {
    total = λ a b pa pb h.
        (more_similar_iff_not_gt b a).1
          (λ e. cc (e, order.flip b.similarity a.similarity (more_similar_gt a b h)));
    trans = λ a b c pa pb pc h k. (more_similar_iff_not_gt a c).1 (
        order.trans c.similarity b.similarity a.similarity pb ((more_similar_iff_not_gt b c).0 k)
          ((more_similar_iff_not_gt a b).0 h));
  }

  -- The matches of the observations that have an embedding and are similar enough.
  abbrev pub good_matches : List F32 → F32 → List VisualObservation → List SimilarityMatch
  good_matches query m [] = []
  good_matches query m (o ∷ os) =
      let rest = good_matches query m os in
      let similarity = cosine_similarity ops query o.embedding in
      if is_empty o.embedding
      then rest
      else if ops.ge32 similarity m
      then record { id = o.id; similarity = similarity } ∷ rest
      else rest

  candidates-good_matches :
      (query : List F32) (observations : List VisualObservation) (m : F32)
      → candidates ops query observations m ≡ good_matches query m observations
  unfolding candidates match_of
  candidates-good_matches query [] m = refl
  candidates-good_matches query (o ∷ os) m = elim (Bool-cases (is_empty o.embedding)) [
    | inl e ↦ rw e (candidates-good_matches query os m)
    | inr e ↦
        let ih = candidates-good_matches query os m in
        elim (Bool-cases (ops.ge32 (cosine_similarity ops query o.embedding) m)) [
          | inl k ↦ rw (e, k, ih) refl
          | inr k ↦ rw (e, k, ih) refl
        ]
  ]

  candidates_at_least :
      (query : List F32) (observations : List VisualObservation) (m : F32)
      → All (λ c. ops.ge32 c.similarity m ≡ true) (candidates ops query observations m)
  unfolding candidates
  candidates_at_least query observations m =
      All-map _ _ _ (λ c k. k.1)
        (All-retain (λ c. Unit {0}) (λ c. ops.ge32 c.similarity m) _ (All-anything _))

  candidates_numbers :
      (query : List F32) (observations : List VisualObservation) (m : F32)
      → All IsNumber (candidates ops query observations m)
  candidates_numbers query observations m =
      All-map _ _ _ (λ c k. order.ge_number c.similarity m k)
        (candidates_at_least query observations m)

  -- If the comparison of floats is an order on numbers: with the matches that it leaves out, the
  -- result is a permutation of the matches of all observations that have an embedding whose
  -- similarity is at least min_similarity. It has top_k of them, or all if there are fewer, each
  -- with at least min_similarity, and no match is greater than one that stands before it, those
  -- that are left out standing behind the result.
  pub find_similar_best :
      (query : List F32) (observations : List VisualObservation) (top_k : ℕ) (m : F32)
      → (worse : List SimilarityMatch) × (length (find_similar ops query observations top_k m)
          ≡ min top_k (length (good_matches query m observations)))
        × All (λ c. ops.ge32 c.similarity m ≡ true) (find_similar ops query observations top_k m)
        × Perm
            (find_similar ops query observations top_k m ++ worse)
            (good_matches query m observations)
        × Pairwise
            (λ a b. ops.partial_cmp b.similarity a.similarity ≢ some Ordering.gt)
            (find_similar ops query observations top_k m ++ worse)
  unfolding find_similar
  find_similar_best query observations top_k m =
      let all = candidates ops query observations m in
      let same = candidates-good_matches query observations m in
      let sorted = sort_by (more_similar ops) all in
      (
        drop top_k sorted,
        rw (← same)
            (omega (arith, length-take top_k sorted, length-sort_by (more_similar ops) all)),
        All-take _ top_k sorted
            (All-sort_by (more_similar ops) _ all (candidates_at_least query observations m)),
        rw (take-append-drop top_k sorted, ← same) (sort_by-perm (more_similar ops) all),
        rw (take-append-drop top_k sorted) (
            sort_by-Pairwise (more_similar ops) IsNumber more_similar-IsPreorder
              (λ a b. ops.partial_cmp b.similarity a.similarity ≢ some Ordering.gt)
              (λ a b pa pb e. (more_similar_iff_not_gt a b).0 e) all
              (candidates_numbers query observations m)),
      )

  candidates_other :
      (query : List F32) (observations : List VisualObservation) (m : F32) (id : ℕ)
      → retain (other_match id) (candidates ops query observations m)
        ≡ candidates ops query (retain (other_observation id) observations) m
  unfolding candidates match_of
  candidates_other query observations m id =
      let enough = λ (c : SimilarityMatch). ops.ge32 c.similarity m in
      let embedded = λ (o : VisualObservation). not (is_empty o.embedding) in
      retain_comm (other_match id) enough _
      ∙ ap (retain enough) (
          retain-map (other_match id) (match_of ops query) (retain embedded observations)
          ∙ ap (map (match_of ops query))
              (retain_comm (other_observation id) embedded observations))

  misses-candidates-le :
      (query : List F32) (observations : List VisualObservation) (m : F32) (id : ℕ)
      → misses (other_match id) (candidates ops query observations m)
        ≤ misses (other_observation id) observations
  unfolding candidates match_of
  misses-candidates-le query observations m id =
      let embedded = retain (λ o. not (is_empty o.embedding)) observations in
      omega (
        arith,
        misses-retain-le (other_match id) (λ c. ops.ge32 c.similarity m)
            (map (match_of ops query) embedded),
        misses-map (other_match id) (match_of ops query) embedded,
        misses-retain-le (other_observation id) (λ o. not (is_empty o.embedding)) observations,
      )

  -- To ask for one match more and then to drop an id that at most one observation has, is to search
  -- among the other observations.
  pub find_similar_others :
      (query : List F32) (observations : List VisualObservation) (top_k : ℕ) (m : F32) (id : ℕ)
      → misses (other_observation id) observations ≤ 1
      → take top_k (retain (other_match id) (find_similar ops query observations (suc top_k) m))
        ≡ find_similar ops query (retain (other_observation id) observations) top_k m
  unfolding find_similar
  find_similar_others query observations top_k m id unique =
      let all = candidates ops query observations m in
      let sorted = sort_by (more_similar ops) all in
      take-retain-take (other_match id) top_k sorted (
        omega (
          arith,
          misses-sort_by (more_similar ops) (other_match id) all,
          misses-candidates-le query observations m id,
        ))
      ∙ ap (take top_k) (
          retain-sort_by (more_similar ops) IsNumber more_similar-IsPreorder (other_match id) all
            (candidates_numbers query observations m)
          ∙ ap (sort_by (more_similar ops)) (candidates_other query observations m id))
