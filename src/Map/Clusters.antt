-- ===== src/Map/Clusters.antt =====
-- runtime/src/map/builder.rs: `compute_clusters`, k-means over the vectors of features.
pub mod Bounds
use agentic_vision.Prelude.{
  ℕ, zero, suc, ◌+◌, ◌*◌, ◌/◌, ◌%◌, ◌^◌, List, [], ◌∷◌, map, ◌==◌, ltb, min, if◌then◌else◌, length,
  get_or, replicate, modify, same_list,
}
use agentic_vision.Map.Types.{feature_dim}
use agentic_vision.Map.Floats.{Floats}

-- The sums and the counts of the clusters.
pub record Totals : Type 0 where
  pub sums : List (List ℕ)
  pub counts : List ℕ

-- The nearest centroid so far.
pub record Best : Type 0 where
  pub cluster : ℕ
  pub dist : ℕ

-- `for i in 0..k`, from `i` on.
unfoldable pub spaced : ℕ → ℕ → ℕ → List (List ℕ) → List (List ℕ)
spaced zero i k features = []
spaced (suc left) i k features =
    get_or features (i * length features / k) [] ∷ spaced left (suc i) k features

module _ (ops : Floats) where
  -- `iter().zip().map(|(a, b)| (a - b) * (a - b)).sum()`, onto `total`.
  unfoldable pub distance : ℕ → List ℕ → List ℕ → ℕ
  distance total (a ∷ feat) (b ∷ centroid) =
      let diff = ops.sub a b in distance (ops.add total (ops.mul diff diff)) feat centroid
  distance total [] centroid = total
  distance total (a ∷ feat) [] = total

  -- The loop over the centroids, the next of which is the number `c`.
  unfoldable pub nearest_from : ℕ → Best → List ℕ → List (List ℕ) → ℕ
  unfolding distance
  nearest_from c best feat [] = best.cluster
  nearest_from c best feat (centroid ∷ centroids) =
      let dist = distance ops.zero feat centroid in
      let next : Best =
        if ops.lt dist best.dist then record { cluster = c % 2 ^ 16; dist = dist } else best in
      nearest_from (suc c) next feat centroids

  unfoldable pub assign : List (List ℕ) → List (List ℕ) → List ℕ
  unfolding nearest_from
  assign centroids features =
      map (λ feat. nearest_from 0 (record { cluster = 0; dist = ops.largest }) feat centroids)
        features

  unfoldable pub add_vector : List ℕ → List ℕ → List ℕ
  add_vector (s ∷ sums) (v ∷ vals) = ops.add s v ∷ add_vector sums vals
  add_vector sums [] = sums
  add_vector [] (v ∷ vals) = []

  unfoldable pub total_up : Totals → List ℕ → List (List ℕ) → Totals
  unfolding add_vector
  total_up totals (c ∷ assignments) (feat ∷ features) =
      total_up
        (record {
          sums = modify c (λ sum. add_vector sum feat) totals.sums;
          counts = modify c (λ n. (n + 1) % 2 ^ 32) totals.counts;
        })
        assignments features
  total_up totals [] features = totals
  total_up totals (c ∷ assignments) [] = totals

  unfoldable pub move_centroids : List (List ℕ) → List (List ℕ) → List ℕ → List (List ℕ)
  move_centroids (centroid ∷ centroids) (sum ∷ sums) (n ∷ counts) =
      (if ltb 0 n then map (λ s. ops.div s (ops.from_u32 n)) sum else centroid)
      ∷ move_centroids centroids sums counts
  move_centroids [] sums counts = []
  move_centroids (centroid ∷ centroids) [] counts = centroid ∷ centroids
  move_centroids (centroid ∷ centroids) (sum ∷ sums) [] = centroid ∷ centroids

  unfoldable pub recompute : List (List ℕ) → List ℕ → List (List ℕ) → List (List ℕ)
  unfolding total_up move_centroids
  recompute features assignments centroids =
      let k = length centroids in
      let empty : Totals = record {
        sums = replicate k (replicate feature_dim ops.zero);
        counts = replicate k 0;
      } in
      let totals = total_up empty assignments features in
      move_centroids centroids totals.sums totals.counts

  unfoldable pub rounds : ℕ → List (List ℕ) → List ℕ → List (List ℕ) → List ℕ × List (List ℕ)
  unfolding assign recompute
  rounds zero features assignments centroids = (assignments, centroids)
  rounds (suc left) features assignments centroids =
      let next = assign centroids features in
      let further = rounds left features next (recompute features next centroids) in
      if same_list next assignments then (next, centroids) else further

  unfoldable pub compute_clusters : List (List ℕ) → ℕ → List ℕ × List (List ℕ)
  unfolding rounds spaced
  compute_clusters features k =
      let n = length features in
      let clusters = min k n in
      if (n == 0)
      then ([], [])
      else if k == 0
      then ([], [])
      else rounds 20 features (replicate n 0) (spaced clusters 0 clusters features)
