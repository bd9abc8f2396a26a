-- ===== src/Map/Clusters/Bounds.antt =====
-- What the clusters of runtime/src/map/builder.rs are: each vector is assigned to a cluster that
-- exists, and a centroid is a vector.
use agentic_vision.Prelude.{
  ℕ, zero, suc, ◌+◌, ◌*◌, ◌/◌, ◌^◌, ◌≡◌, ◌≤◌, ◌<◌, refl, ap, ◌∙◌, List, [], ◌∷◌, map, false, ◌==◌,
  ltb, min, arith, length, replicate, All, All-modify, All-replicate, All-get_or, All-of_map,
  All-map, All-anything, length-map, length-replicate, same_list, Bool-cases, inl, inr,
}
use native.Mathlib.Nat.{div-lt_iff_lt-mul, mul_comm, mul-lt-mul_of_pos_left}
use agentic_vision.Map.Types.{feature_dim}
use agentic_vision.Map.Bytes.{FitsBytes}
use agentic_vision.Map.Serializer.Fits.{IsVector}
use agentic_vision.Map.Floats.{Floats, IsSized}
use agentic_vision.Map.Clusters.{
  Totals, Best, nearest_from, assign, add_vector, total_up, move_centroids, recompute, rounds,
  spaced, compute_clusters,
}

module _ (ops : Floats) where
  nearest_from-lt :
      (k c : ℕ) (best : Best) (feat : List ℕ) (centroids : List (List ℕ))
      → best.cluster < k
      → k ≤ 2 ^ 16
      → c + length centroids ≤ k
      → nearest_from ops c best feat centroids < k
  unfolding nearest_from
  nearest_from-lt k c best feat [] h small fits = h
  nearest_from-lt k c best feat (centroid ∷ centroids) h small fits =
      nearest_from-lt k (suc c) _ feat centroids (ground arith) small (omega arith)

  -- Each vector is assigned to one of the centroids.
  assign-lt :
      (centroids features : List (List ℕ))
      → 0 < length centroids
      → length centroids ≤ 2 ^ 16
      → All (λ c. c < length centroids) (assign ops centroids features)
  unfolding assign
  assign-lt centroids features some_k small =
      All-of_map (λ (feat : List ℕ). Unit {0}) _ _ features
        (λ feat u. nearest_from-lt (length centroids) 0 _ feat centroids some_k small (omega arith))
        (All-anything features)

  length-assign :
      (centroids features : List (List ℕ))
      → length (assign ops centroids features) ≡ length features
  unfolding assign
  length-assign centroids features = length-map _ features

  length-add_vector : (sums vals : List ℕ) → length (add_vector ops sums vals) ≡ length sums
  unfolding add_vector
  length-add_vector (s ∷ sums) (v ∷ vals) = ap suc (length-add_vector sums vals)
  length-add_vector [] [] = refl
  length-add_vector (s ∷ sums) [] = refl
  length-add_vector [] (v ∷ vals) = refl

  module _ (sized : IsSized ops) where
    add_vector-fits :
        (sums vals : List ℕ) → All (FitsBytes 4) sums → All (FitsBytes 4) (add_vector ops sums vals)
    unfolding add_vector
    add_vector-fits (s ∷ sums) (v ∷ vals) h = (sized.add s v, add_vector-fits sums vals h.1)
    add_vector-fits [] [] h = tt
    add_vector-fits (s ∷ sums) [] h = h
    add_vector-fits [] (v ∷ vals) h = tt

    add_vector-IsVector : (sums vals : List ℕ) → IsVector sums → IsVector (add_vector ops sums vals)
    add_vector-IsVector sums vals h = record {
      dim = length-add_vector sums vals ∙ h.dim;
      floats = add_vector-fits sums vals h.floats;
    }

    total_up-IsVector :
        (assignments : List ℕ) (features : List (List ℕ)) (totals : Totals)
        → All IsVector totals.sums
        → All IsVector (total_up ops totals assignments features).sums
    unfolding total_up
    total_up-IsVector (c ∷ assignments) (feat ∷ features) totals h =
        total_up-IsVector assignments features _ (
          All-modify IsVector c (λ sum. add_vector ops sum feat) totals.sums
            (λ sum k. add_vector-IsVector sum feat k) h)
    total_up-IsVector [] features totals h = h
    total_up-IsVector (c ∷ assignments) [] totals h = h

    divided-IsVector :
        (n : ℕ) (sum : List ℕ) → IsVector sum → IsVector (map (λ s. ops.div s (ops.from_u32 n)) sum)
    divided-IsVector n sum h = record {
      dim = length-map _ sum ∙ h.dim;
      floats =
          All-of_map (FitsBytes 4) (FitsBytes 4) _ sum (λ s k. sized.div s (ops.from_u32 n))
            h.floats;
    }

    move_centroids-IsVector :
        (centroids sums : List (List ℕ)) (counts : List ℕ)
        → All IsVector centroids
        → All IsVector sums
        → All IsVector (move_centroids ops centroids sums counts)
    unfolding move_centroids
    move_centroids-IsVector (centroid ∷ centroids) (sum ∷ sums) (n ∷ counts) h k =
        let rest = move_centroids-IsVector centroids sums counts h.1 k.1 in
        elim (Bool-cases (ltb 0 n)) [
          | inl e ↦ rw e (divided-IsVector n sum k.0, rest)
          | inr e ↦ rw e (h.0, rest)
        ]
    move_centroids-IsVector [] sums counts h k = tt
    move_centroids-IsVector (centroid ∷ centroids) [] counts h k = h
    move_centroids-IsVector (centroid ∷ centroids) (sum ∷ sums) [] h k = h

    zeros-IsVector : IsVector (replicate feature_dim ops.zero)
    zeros-IsVector = record {
      dim = length-replicate feature_dim ops.zero;
      floats = All-replicate (FitsBytes 4) feature_dim ops.zero sized.zero;
    }

    recompute-IsVector :
        (features : List (List ℕ)) (assignments : List ℕ) (centroids : List (List ℕ))
        → All IsVector centroids
        → All IsVector (recompute ops features assignments centroids)
    unfolding recompute
    recompute-IsVector features assignments centroids h = move_centroids-IsVector centroids _ _ h (
        total_up-IsVector assignments features _
          (All-replicate IsVector (length centroids) _ zeros-IsVector))

  length-move_centroids :
      (centroids sums : List (List ℕ)) (counts : List ℕ)
      → length (move_centroids ops centroids sums counts) ≡ length centroids
  unfolding move_centroids
  length-move_centroids (centroid ∷ centroids) (sum ∷ sums) (n ∷ counts) =
      ap suc (length-move_centroids centroids sums counts)
  length-move_centroids [] sums counts = refl
  length-move_centroids (centroid ∷ centroids) [] counts = refl
  length-move_centroids (centroid ∷ centroids) (sum ∷ sums) [] = refl

  length-recompute :
      (features : List (List ℕ)) (assignments : List ℕ) (centroids : List (List ℕ))
      → length (recompute ops features assignments centroids) ≡ length centroids
  unfolding recompute
  length-recompute features assignments centroids = length-move_centroids centroids _ _

-- Assignments and centroids that belong together, over `n` vectors.
pub record IsClustering (n k : ℕ) (clusters : List ℕ × List (List ℕ)) : Type 0 where
  pub assigned : length clusters.0 ≡ n
  pub within : All (λ c. c < k) clusters.0
  pub centroids : length clusters.1 ≡ k
  pub vectors : All IsVector clusters.1

module _ (ops : Floats) (sized : IsSized ops) where
  rounds-IsClustering :
      (fuel k : ℕ) (features : List (List ℕ)) (assignments : List ℕ) (centroids : List (List ℕ))
      → 0 < k
      → k ≤ 2 ^ 16
      → IsClustering (length features) k (assignments, centroids)
      → IsClustering (length features) k (rounds ops fuel features assignments centroids)
  unfolding rounds
  rounds-IsClustering zero k features assignments centroids some_k small h = h
  rounds-IsClustering (suc fuel) k features assignments centroids some_k small h =
      let next = assign ops centroids features in
      let within : All (λ c. c < k) next =
        All-map _ _ next (λ c p. omega (arith, p, h.centroids))
          (assign-lt ops centroids features (omega (arith, h.centroids))
            (omega (arith, h.centroids))) in
      let assigned = length-assign ops centroids features in
      let moved = recompute ops features next centroids in
      elim (Bool-cases (same_list next assignments)) [
        | inl e ↦ rw e (record {
          assigned = assigned;
          within = within;
          centroids = h.centroids;
          vectors = h.vectors;
        })
        | inr e ↦ rw e (
            rounds-IsClustering fuel k features next moved some_k small (record {
              assigned = assigned;
              within = within;
              centroids = length-recompute ops features next centroids ∙ h.centroids;
              vectors = recompute-IsVector ops sized features next centroids h.vectors;
            }))
      ]

  length-spaced :
      (left i k : ℕ) (features : List (List ℕ)) → length (spaced left i k features) ≡ left
  unfolding spaced
  length-spaced zero i k features = refl
  length-spaced (suc left) i k features = ap suc (length-spaced left (suc i) k features)

  spaced-IsVector :
      (left i k : ℕ) (features : List (List ℕ))
      → i + left ≤ k
      → 0 < length features
      → All IsVector features
      → All IsVector (spaced left i k features)
  unfolding spaced
  spaced-IsVector zero i k features fits some_n h = tt
  spaced-IsVector (suc left) i k features fits some_n h =
      let n = length features in
      let below : n * i < n * k = mul-lt-mul_of_pos_left (omega arith) some_n in
      let inside : i * n / k < n =
        let some_k : 0 < k = omega arith in
        (div-lt_iff_lt-mul some_k).1 (rw (mul_comm i n) below) in
      (
        All-get_or IsVector features (i * n / k) [] inside h,
        spaced-IsVector left (suc i) k features (omega arith) some_n h,
      )

  -- Of one vector or more, and k from 1 to 2^16, compute_clusters makes the smaller of k and the
  -- number of vectors clusters; each vector is assigned to one of them, and each centroid is a
  -- vector of 128 floats.
  pub compute_clusters-IsClustering :
      (features : List (List ℕ)) (k : ℕ)
      → All IsVector features
      → 0 < length features
      → 0 < k
      → k ≤ 2 ^ 16
      → IsClustering (length features) (min k (length features)) (compute_clusters ops features k)
  unfolding compute_clusters
  compute_clusters-IsClustering features k h some_n some_k small =
      let n = length features in
      let clusters = min k n in
      let n_not_zero : (n == 0) ≡ false = ground arith in
      let k_not_zero : (k == 0) ≡ false = ground arith in
      rw (n_not_zero, k_not_zero)
        (rounds-IsClustering 20 clusters features (replicate n 0)
          (spaced clusters 0 clusters features) (omega arith) (omega arith)
          (record {
            assigned = length-replicate n 0;
            within = All-replicate (λ c. c < clusters) n 0 (omega arith);
            centroids = length-spaced clusters 0 clusters features;
            vectors = spaced-IsVector clusters 0 clusters features (omega arith) some_n h;
          }))
