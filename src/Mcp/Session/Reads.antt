-- ===== src/Mcp/Session/Reads.antt =====
-- crates/agentic-vision-mcp/src/session/manager.rs: the methods that only read the manager.
use agentic_vision.Prelude.{ℕ, ◌+◌, ◌%◌, ◌==◌, Option, none, some, List, not, take, retain}
use agentic_vision.Vision.Types.{F32, VisualObservation, VisualDiff, SimilarityMatch, u64_mod}
use agentic_vision.Vision.Result.{image}
use agentic_vision.Vision.Store
use agentic_vision.Vision.Diff.{Images, Floats, compute_diff}
use agentic_vision.Vision.Similarity.{FloatOps, cosine_similarity, find_similar}
use agentic_vision.Mcp.Types.{McpResult, ok, err, panic, capture_not_found, vision_error}
use agentic_vision.Mcp.Session.{VisionSessionManager}

-- Two captures by their ids, the first missing one reported.
unfoldable pub both :
    VisionSessionManager → ℕ → ℕ → McpResult (VisualObservation × VisualObservation)
both m id_a id_b = elim (Store.get m.store id_a) [
  | none ↦ err (capture_not_found id_a)
  | some a ↦ elim (Store.get m.store id_b) [
    | none ↦ err (capture_not_found id_b)
    | some b ↦ ok (a, b)
  ]
]

module _ (ops : FloatOps) where
  unfoldable pub compare_captures : VisionSessionManager → ℕ → ℕ → McpResult F32
  compare_captures m id_a id_b = elim (both m id_a id_b) [
    | ok (a, b) ↦ ok (cosine_similarity ops a.embedding b.embedding)
    | err e ↦ err e
    | panic ↦ panic
  ]

  -- `top_k + 1` wraps at 2^64.
  unfoldable pub similar_captures :
      VisionSessionManager → ℕ → ℕ → F32 → McpResult (List SimilarityMatch)
  similar_captures m capture_id top_k min_similarity = elim (Store.get m.store capture_id) [
    | none ↦ err (capture_not_found capture_id)
    | some obs ↦ ok (
        take top_k (
          retain (λ s. not (s.id == capture_id))
            (find_similar ops obs.embedding m.store.observations ((top_k + 1) % u64_mod)
              min_similarity)))
  ]

  unfoldable pub find_similar_by_embedding :
      VisionSessionManager → List F32 → ℕ → F32 → List SimilarityMatch
  find_similar_by_embedding m embedding top_k min_similarity =
      find_similar ops embedding m.store.observations top_k min_similarity

-- `load` is `image::load_from_memory`.
module _ (images : Images) (floats : Floats) (load : List ℕ → Option images.Image) where
  unfoldable pub diff_thumbnails : ℕ → ℕ → List ℕ → List ℕ → McpResult VisualDiff
  diff_thumbnails id_a id_b thumbnail_a thumbnail_b = elim (load thumbnail_a) [
    | none ↦ err (vision_error "Failed to load thumbnail A" (some image))
    | some img_a ↦ elim (load thumbnail_b) [
      | none ↦ err (vision_error "Failed to load thumbnail B" (some image))
      | some img_b ↦ ok (compute_diff images floats id_a id_b img_a img_b)
    ]
  ]

  unfoldable pub diff_captures : VisionSessionManager → ℕ → ℕ → McpResult VisualDiff
  diff_captures m id_a id_b = elim (both m id_a id_b) [
    | ok (a, b) ↦ diff_thumbnails id_a id_b a.thumbnail b.thumbnail
    | err e ↦ err e
    | panic ↦ panic
  ]
