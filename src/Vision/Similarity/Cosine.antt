-- ===== src/Vision/Similarity/Cosine.antt =====
-- `cosine_similarity` (crates/agentic-vision/src/similarity.rs).
use agentic_vision.Prelude.{
  ◌≡◌, refl, ap, ◌∙◌, List, [], ◌∷◌, not, ◌||◌, ◌==◌, if◌then◌else◌, arith, length,
}
use agentic_vision.Vision.Types.{F32}
use agentic_vision.Vision.Similarity.{
  FloatOps, Sums, F64, sums, quotient, cosine_similarity, is_empty,
}

abbrev swapped : Sums → Sums
swapped s = record { dot = s.dot; norm_a = s.norm_b; norm_b = s.norm_a }

module _ (ops : FloatOps) (mul_comm : (x y : F64) → ops.mul x y ≡ ops.mul y x) where
  sums_swap : (a b : List F32) (s : Sums) → sums ops b a (swapped s) ≡ swapped (sums ops a b s)
  unfolding sums
  sums_swap [] [] s = refl
  sums_swap [] (y ∷ b) s = refl
  sums_swap (x ∷ a) [] s = refl
  sums_swap (x ∷ a) (y ∷ b) s =
      let fx = ops.to_f64 x in
      let fy = ops.to_f64 y in
      rw (mul_comm fy fx) (
        sums_swap a b (record {
          dot = ops.add s.dot (ops.mul fx fy);
          norm_a = ops.add s.norm_a (ops.mul fx fx);
          norm_b = ops.add s.norm_b (ops.mul fy fy);
        }))

  quotient_swap : (s : Sums) → quotient ops (swapped s) ≡ quotient ops s
  unfolding quotient
  quotient_swap s = rw (mul_comm (ops.sqrt s.norm_b) (ops.sqrt s.norm_a)) refl

  guard_swap :
      (a b : List F32)
      → (not (length b == length a) || is_empty b) ≡ (not (length a == length b) || is_empty a)
  guard_swap [] [] = refl
  guard_swap [] (y ∷ b) = ground arith
  guard_swap (x ∷ a) [] = ground arith
  guard_swap (x ∷ a) (y ∷ b) = ground arith

  -- If multiplication is commutative, as IEEE 754 has it, the similarity does not depend on which
  -- vector comes first, on the error paths too.
  pub cosine_similarity_comm :
      (a b : List F32) → cosine_similarity ops b a ≡ cosine_similarity ops a b
  unfolding cosine_similarity
  cosine_similarity_comm a b =
      let start : Sums = record { dot = ops.zero64; norm_a = ops.zero64; norm_b = ops.zero64 } in
      rw (guard_swap a b) (
        ap (λ t. if not (length a == length b) || is_empty a then ops.zero32 else t)
          (ap (quotient ops) (sums_swap a b start) ∙ quotient_swap (sums ops a b start)))
