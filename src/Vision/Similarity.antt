-- ===== src/Vision/Similarity.antt =====
-- crates/agentic-vision/src/similarity.rs: cosine similarity and the search for similar
-- observations. Floating point is the parameter `FloatOps`, over bit patterns.
pub mod Cosine
pub mod Ranking
pub mod Examples
use agentic_vision.Prelude.{
  ℕ, Ordering, Option, none, some, List, [], ◌∷◌, Bool, true, false, not, ◌||◌, ◌==◌, if◌then◌else◌,
  length, take, retain, map,
}
use agentic_vision.Prelude.Sort.{sort_by}
use agentic_vision.Vision.Types.{F32, SimilarityMatch, VisualObservation}

abbrev pub F64 : Type 0
F64 = ℕ

-- The operations of `f32` and `f64` that the code uses.
pub record FloatOps : Type 0 where
  pub to_f64 : F32 → F64
  pub to_f32 : F64 → F32
  pub zero64 : F64
  pub zero32 : F32
  pub add : F64 → F64 → F64
  pub mul : F64 → F64 → F64
  pub div : F64 → F64 → F64
  pub sqrt : F64 → F64
  pub eq64 : F64 → F64 → Bool
  pub ge32 : F32 → F32 → Bool
  pub partial_cmp : F32 → F32 → Option Ordering

-- The accumulators of the loop.
pub record Sums : Type 0 where
  pub dot : F64
  pub norm_a : F64
  pub norm_b : F64

abbrev pub is_empty {ℓ} : {A : Type ℓ} → List A → Bool
is_empty [] = true
is_empty (x ∷ xs) = false

module _ (ops : FloatOps) where
  open ops use {to_f64, to_f32, zero64, zero32, add, mul, div, sqrt, eq64, ge32, partial_cmp}

  -- `for (x, y) in a.iter().zip(b.iter())`.
  unfoldable pub sums : List F32 → List F32 → Sums → Sums
  sums [] bs s = s
  sums (a ∷ as') [] s = s
  sums (a ∷ as') (b ∷ bs) s =
      let x = to_f64 a in
      let y = to_f64 b in
      sums as' bs (record {
        dot = add s.dot (mul x y);
        norm_a = add s.norm_a (mul x x);
        norm_b = add s.norm_b (mul y y);
      })

  unfoldable pub quotient : Sums → F32
  quotient s =
      let denom = mul (sqrt s.norm_a) (sqrt s.norm_b) in
      if eq64 denom zero64 then zero32 else to_f32 (div s.dot denom)

  unfoldable pub cosine_similarity : List F32 → List F32 → F32
  cosine_similarity a b =
      if not (length a == length b) || is_empty a
      then zero32
      else quotient (sums a b (record { dot = zero64; norm_a = zero64; norm_b = zero64 }))

  unfoldable pub match_of : List F32 → VisualObservation → SimilarityMatch
  match_of query o = record { id = o.id; similarity = cosine_similarity query o.embedding }

  -- `b.similarity.partial_cmp(&a.similarity).unwrap_or(Equal)` is not `Greater`.
  unfoldable pub more_similar : SimilarityMatch → SimilarityMatch → Bool
  more_similar a b = elim (partial_cmp b.similarity a.similarity) [
    | none ↦ true
    | some Ordering.lt ↦ true
    | some Ordering.eq ↦ true
    | some Ordering.gt ↦ false
  ]

  -- The matches that the iterator collects.
  unfoldable pub candidates : List F32 → List VisualObservation → F32 → List SimilarityMatch
  candidates query observations min_similarity =
      retain (λ m. ge32 m.similarity min_similarity)
        (map (match_of query) (retain (λ o. not (is_empty o.embedding)) observations))

  unfoldable pub find_similar : List F32 → List VisualObservation → ℕ → F32 → List SimilarityMatch
  find_similar query observations top_k min_similarity =
      take top_k (sort_by more_similar (candidates query observations min_similarity))
