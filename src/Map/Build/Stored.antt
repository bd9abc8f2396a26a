-- ===== src/Map/Build/Stored.antt =====
-- A map that was built is well formed, and is read back from the file that is written of it
-- (runtime/src/map).
use agentic_vision.Prelude.{
  ℕ, suc, ◌+◌, ◌%◌, ◌^◌, ◌≡◌, ◌<◌, refl, sym, ap, ◌∙◌, subst, List, [], ◌∷◌, map, true, min, arith,
  length, All, All-modify, All-of_map, All-map, length-map,
}
use agentic_vision.Prelude.Sort.{All-sort_by, length-sort_by}
use agentic_vision.Map.Types.{NodeRecord}
use agentic_vision.Map.Utf8.{from_utf8}
use agentic_vision.Map.Bytes.{FitsBytes, ok}
use agentic_vision.Map.Serializer.Fits.{FitsNode, FitsEdge, FitsAction, IsVector, IsWellFormed}
use agentic_vision.Map.Floats.{Floats, IsSized}
use agentic_vision.Map.Serializer.{url_data_of, serialize}
use agentic_vision.Map.Deserializer.{deserialize}
use agentic_vision.Map.Deserializer.RoundTrip.{stored, deserialize-serialize}
use agentic_vision.Map.Clusters.{compute_clusters}
use agentic_vision.Map.Clusters.Bounds.{IsClustering, compute_clusters-IsClustering}
use agentic_vision.Map.Builder.{EdgeData, ActionData, SiteMapBuilder, new}
use agentic_vision.Map.Build.{
  prefix_sums, csr_index, one_more_out, one_more_in, count_links, by_source, by_node, edges_sorted,
  actions_sorted, cluster_target, build,
}
use agentic_vision.Map.Build.Csr.{length-csr_index}
use agentic_vision.Map.Build.Degrees.{length-count_links}
use agentic_vision.Map.Builder.Calls.{BuilderCall, IsCall, IsBuilder, run_calls}
use agentic_vision.Map.Builder.Ordered.{run_calls-IsBuilder, new-IsBuilder}

-- What is built can be counted in the file.
pub record IsCountable (now : ℕ) (b : SiteMapBuilder) : Type 0 where
  pub domain : FitsBytes 2 (length b.domain)
  pub clock : FitsBytes 8 now
  pub nodes : FitsBytes 4 (length b.nodes)
  pub edges : FitsBytes 4 (length b.edges)
  pub actions : FitsBytes 4 (length b.actions)
  pub urls : FitsBytes 4 (length (url_data_of b.urls))

prefix_sums-fits :
    (total : ℕ) (counts : List ℕ) → FitsBytes 4 total → All (FitsBytes 4) (prefix_sums total counts)
unfolding prefix_sums
prefix_sums-fits total [] h = (h, tt)
prefix_sums-fits total (n ∷ counts) h =
    (h, prefix_sums-fits ((total + n) % 2 ^ 32) counts (omega arith))

csr_index-fits : (n : ℕ) (keys : List ℕ) → All (FitsBytes 4) (csr_index n keys)
unfolding csr_index
csr_index-fits n keys = prefix_sums-fits 0 _ (omega arith)

one_more_out-FitsNode : (node : NodeRecord) → FitsNode node → FitsNode (one_more_out node)
unfolding one_more_out
one_more_out-FitsNode node h = record {
  confidence = h.confidence;
  freshness = h.freshness;
  flags = h.flags;
  content_hash = h.content_hash;
  rendered_at = h.rendered_at;
  http_status = h.http_status;
  depth = h.depth;
  inbound_count = h.inbound_count;
  outbound_count = omega arith;
  feature_norm = h.feature_norm;
  reserved = h.reserved;
}

one_more_in-FitsNode : (node : NodeRecord) → FitsNode node → FitsNode (one_more_in node)
unfolding one_more_in
one_more_in-FitsNode node h = record {
  confidence = h.confidence;
  freshness = h.freshness;
  flags = h.flags;
  content_hash = h.content_hash;
  rendered_at = h.rendered_at;
  http_status = h.http_status;
  depth = h.depth;
  inbound_count = omega arith;
  outbound_count = h.outbound_count;
  feature_norm = h.feature_norm;
  reserved = h.reserved;
}

count_links-FitsNode :
    (edges : List EdgeData) (nodes : List NodeRecord)
    → All FitsNode nodes
    → All FitsNode (count_links edges nodes)
unfolding count_links
count_links-FitsNode [] nodes h = h
count_links-FitsNode (ed ∷ edges) nodes h = count_links-FitsNode edges _ (
    All-modify FitsNode ed.edge.target_node one_more_in _ one_more_in-FitsNode
      (All-modify FitsNode ed.source one_more_out nodes one_more_out-FitsNode h))

module _ (ops : Floats) (sized : IsSized ops) where
  cluster_target_range :
      (n : ℕ) → n < 2 ^ 32 → (0 < cluster_target ops n) × (cluster_target ops n < 2 ^ 16)
  unfolding cluster_target
  cluster_target_range n h = let root = sized.root n h in (ground arith, ground arith)

  -- The clusters of a builder with any number of nodes.
  clusters-IsClustering :
      (features : List (List ℕ))
      → All IsVector features
      → length features < 2 ^ 32
      → (k : ℕ) × (k < 2 ^ 16)
        × IsClustering
            (length features)
            k
            (compute_clusters ops features (cluster_target ops (length features)))
  unfolding compute_clusters
  clusters-IsClustering [] h fits =
      (0, omega arith, record { assigned = refl; within = tt; centroids = refl; vectors = tt })
  clusters-IsClustering (v ∷ features) h fits =
      let n = length (v ∷ features) in
      let (some_k, small) = cluster_target_range n fits in
      (
        min (cluster_target ops n) n,
        omega (arith, small),
        compute_clusters-IsClustering ops sized (v ∷ features) (cluster_target ops n) h
            (omega arith) some_k (omega (arith, small)),
      )

  -- The same, counted by the nodes.
  built-IsClustering :
      (b : SiteMapBuilder)
      → IsBuilder b
      → FitsBytes 4 (length b.nodes)
      → (k : ℕ) × (k < 2 ^ 16)
        × IsClustering
            (length b.nodes)
            k
            (compute_clusters ops b.features (cluster_target ops (length b.nodes)))
  built-IsClustering b h fits =
      subst
        (λ n.
          (k : ℕ) × (k < 2 ^ 16)
          × IsClustering n k (compute_clusters ops b.features (cluster_target ops n)))
        h.feature_count
        (clusters-IsClustering b.features h.features (omega (arith, h.feature_count, fits)))

  pub build-IsWellFormed :
      (now : ℕ) (b : SiteMapBuilder)
      → IsBuilder b
      → IsCountable now b
      → IsWellFormed (build ops now b)
  unfolding build
  build-IsWellFormed now b h few =
      let n = length b.nodes in
      let edges = edges_sorted b in
      let actions = actions_sorted b in
      let edge_size : length edges ≡ length b.edges = length-sort_by by_source b.edges in
      let action_size : length actions ≡ length b.actions = length-sort_by by_node b.actions in
      let sources = map (λ (ed : EdgeData). ed.source) edges in
      let owners = map (λ (ad : ActionData). ad.node) actions in
      let small_n : n % 2 ^ 32 ≡ n = omega (arith, few.nodes) in
      let small_edges : length edges % 2 ^ 32 ≡ length edges =
        omega (arith, few.edges, edge_size) in
      let (k, small, clusters) = built-IsClustering b h few.nodes in
      let centroids = (compute_clusters ops b.features (cluster_target ops n)).1 in
      let small_k : length centroids % 2 ^ 16 ≡ length centroids =
        omega (arith, clusters.centroids, small) in
      record {
        header = record {
          magic = refl;
          version = omega arith;
          domain = h.domain;
          domain_length = few.domain;
          mapped_at = few.clock;
          node_count = omega arith;
          edge_count = omega arith;
          cluster_count = omega arith;
          flags = ground arith;
        };
        counts = record {
          nodes = length-count_links edges b.nodes ∙ sym small_n;
          edges = length-map (λ ed. ed.edge) edges ∙ sym small_edges;
          edge_index = length-csr_index n sources ∙ ap suc (sym small_n);
          features = h.feature_count ∙ sym small_n;
          actions = omega (
            arith,
            few.actions,
            action_size,
            length-map (λ (ad : ActionData). ad.action) actions,
          );
          action_index = length-csr_index n owners ∙ ap suc (sym small_n);
          assignments = clusters.assigned ∙ sym small_n;
          centroids = sym small_k;
          urls = h.url_count ∙ sym small_n;
          url_bytes = few.urls;
        };
        nodes =
            count_links-FitsNode edges b.nodes
              (All-map _ FitsNode b.nodes (λ node f. f.fits) h.nodes);
        edges =
            All-of_map _ FitsEdge (λ ed. ed.edge) edges (λ ed f. f)
              (All-sort_by by_source (λ ed. FitsEdge ed.edge) b.edges h.edges);
        edge_index = csr_index-fits n sources;
        features = h.features;
        actions =
            All-of_map _ FitsAction (λ ad. ad.action) actions (λ ad f. f)
              (All-sort_by by_node (λ ad. FitsAction ad.action) b.actions h.actions);
        action_index = csr_index-fits n owners;
        assignments =
            All-map _ (FitsBytes 2) _ (λ c below. omega (arith, below, small)) clusters.within;
        centroids = clusters.vectors;
        urls = h.urls;
      }

  -- From a new builder, any sequence of calls with arguments in range and URLs without a NUL
  -- byte, which ends a URL in the file, followed by build, gives a map that is read back from its
  -- file with all that the file holds, as long as it can be counted in the file's fields: the
  -- file does not say whether an action can be executed over HTTP.
  pub deserialize-build :
      (now : ℕ) (domain : List ℕ) (calls : List BuilderCall)
      → from_utf8 domain ≡ true
      → All IsCall calls
      → IsCountable now (run_calls ops calls (new domain))
      → deserialize (serialize (build ops now (run_calls ops calls (new domain))))
        ≡ ok (stored (build ops now (run_calls ops calls (new domain))))
  deserialize-build now domain calls valid arguments few =
      let b = run_calls ops calls (new domain) in
      deserialize-serialize (build ops now b) (
        build-IsWellFormed now b
          (run_calls-IsBuilder ops sized calls (new domain) arguments (new-IsBuilder domain valid))
          few)
