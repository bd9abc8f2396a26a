-- ===== src/Map/Nearest.antt =====
-- runtime/src/map/reader.rs: `nearest`, the nodes whose features are most alike to a vector.
pub mod Ranked
use agentic_vision.Prelude.{
  ◌%◌, ◌^◌, ℕ, suc, none, some, List, [], ◌∷◌, Bool, not, if◌then◌else◌, take,
}
use agentic_vision.Prelude.Sort.{sort_by}
use agentic_vision.Map.Types.{SiteMap}
use agentic_vision.Map.Bytes.{Loaded, ok, ◌>>=◌}
use agentic_vision.Map.Floats.{Floats}
use agentic_vision.Map.Builder.{norm}
use agentic_vision.Map.Reader.{at}
use agentic_vision.Map.Queries.{NodeMatch}

module _ (ops : Floats) where
  -- `feat.iter().zip(target.iter()).map(|(a, b)| a * b).sum()`.
  unfoldable pub dot_from : ℕ → List ℕ → List ℕ → ℕ
  dot_from total [] target = total
  dot_from total (a ∷ feat) [] = total
  dot_from total (a ∷ feat) (b ∷ target) = dot_from (ops.add total (ops.mul a b)) feat target

  -- The similarity of a node with this norm.
  unfoldable pub node_similarity : List ℕ → ℕ → List ℕ → ℕ
  node_similarity target node_norm feat =
      if ops.is_zero node_norm
      then ops.minus_one
      else ops.div (dot_from ops.zero feat target) (ops.mul node_norm (norm ops target))

  unfoldable pub score_from : SiteMap → List ℕ → ℕ → List (List ℕ) → Loaded (List (ℕ × ℕ))
  score_from site target i [] = ok []
  score_from site target i (feat ∷ features) = do
    node ← at site.nodes i
    rest ← score_from site target (suc i) features
    ok ((i % 2 ^ 32, node_similarity target node.feature_norm feat) ∷ rest)

  -- The comparator does not answer `Greater`.
  abbrev pub scored_above : ℕ × ℕ → ℕ × ℕ → Bool
  scored_above a b = not (ops.lt a.1 b.1)

  unfoldable pub to_matches : SiteMap → List (ℕ × ℕ) → Loaded (List NodeMatch)
  to_matches site [] = ok []
  to_matches site ((idx, sim) ∷ scored) = do
    url ← at site.urls idx
    node ← at site.nodes idx
    rest ← to_matches site scored
    ok (
        record {
          index = idx;
          url = url;
          page_type = node.page_type;
          confidence = ops.div (ops.from_u32 node.confidence) (ops.from_u32 255);
          features = [];
          similarity = some sim;
        }
        ∷ rest)

  unfoldable pub nearest : SiteMap → List ℕ → ℕ → Loaded (List NodeMatch)
  nearest site target k = if ops.is_zero (norm ops target) then ok [] else (do
    scored ← score_from site target 0 site.features
    to_matches site (take k (sort_by scored_above scored)))
