-- ===== src/Vision/Similarity/Examples.antt =====
-- Tests of the similarity search (crates/agentic-vision/src/similarity.rs), and the theorems at
-- concrete inputs.
use mathlib.Core.List.{Perm}
use agentic_vision.Prelude.{
  ℕ, Ordering, ◌≢◌, ◌+◌, ◌*◌, ◌/◌, ◌≡◌, refl, compare, some, List, [], ◌∷◌, ◌++◌, arith, length,
  min, map, All, ◌==◌, leb, true,
}
use agentic_vision.Prelude.Sort.{sort_by, Pairwise}
use agentic_vision.Vision.Types.{VisualObservation, SimilarityMatch}
use agentic_vision.Vision.Store.Examples.{shot}
use agentic_vision.Vision.Similarity.{
  FloatOps, sums, quotient, cosine_similarity, match_of, more_similar, candidates, find_similar,
}
use agentic_vision.Vision.Similarity.Ranking.{FloatOrder, good_matches, find_similar_best}

-- Whole numbers in place of floats, with 100 * dot / (norm_a * norm_b) for the quotient.
abbrev pub whole : FloatOps
whole = record {
  to_f64 = λ x. x;
  to_f32 = λ x. x;
  zero64 = 0;
  zero32 = 0;
  add = λ x y. x + y;
  mul = λ x y. x * y;
  div = λ x y. x * 100 / y;
  sqrt = λ x. x;
  eq64 = λ x y. x == y;
  ge32 = λ x m. leb m x;
  partial_cmp = λ x y. some (compare x y);
}

pub whole-FloatOrder : FloatOrder whole
whole-FloatOrder = record {
  ge_number = λ x m h. ground arith;
  flip = λ x y h. ground arith;
  trans = λ x y z _ h k e. ground arith;
}

abbrev pub embedded : ℕ → List ℕ → VisualObservation
embedded id e = record (shot 100 1) { id = id; embedding = e }

abbrev pub corpus : List VisualObservation
corpus =
    embedded 1 (1 ∷ 0 ∷ []) ∷ embedded 2 [] ∷ embedded 3 (1 ∷ 1 ∷ []) ∷ embedded 4 (2 ∷ 0 ∷ []) ∷ []

best_two : map (λ m. m.id) (find_similar whole (1 ∷ 0 ∷ []) corpus 2 10) ≡ 1 ∷ 3 ∷ []
unfolding find_similar candidates match_of more_similar cosine_similarity sums quotient sort_by
best_two = refl

find_similar_best_example :
    (worse : List SimilarityMatch) × (length (find_similar whole (1 ∷ 0 ∷ []) corpus 2 10)
      ≡ min 2 (length (good_matches whole whole-FloatOrder (1 ∷ 0 ∷ []) 10 corpus)))
    × All (λ c. whole.ge32 c.similarity 10 ≡ true) (find_similar whole (1 ∷ 0 ∷ []) corpus 2 10)
    × Perm
        (find_similar whole (1 ∷ 0 ∷ []) corpus 2 10 ++ worse)
        (good_matches whole whole-FloatOrder (1 ∷ 0 ∷ []) 10 corpus)
    × Pairwise
        (λ a b. whole.partial_cmp b.similarity a.similarity ≢ some Ordering.gt)
        (find_similar whole (1 ∷ 0 ∷ []) corpus 2 10 ++ worse)
find_similar_best_example = find_similar_best whole whole-FloatOrder (1 ∷ 0 ∷ []) corpus 2 10
