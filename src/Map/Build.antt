-- ===== src/Map/Build.antt =====
-- runtime/src/map/builder.rs: `SiteMapBuilder::build`, which sorts the edges and the actions by
-- node and indexes them.
pub mod Csr
pub mod Links
pub mod Degrees
pub mod Stored
use agentic_vision.Prelude.{
  ℕ, ◌+◌, ◌-◌, ◌/◌, ◌%◌, ◌^◌, List, [], ◌∷◌, map, Bool, leb, ltb, min, max, if◌then◌else◌, length,
  replicate, modify,
}
use agentic_vision.Prelude.Sort.{sort_by}
use agentic_vision.Map.Types.{NodeRecord, SiteMap, sitemap_magic, format_version}
use agentic_vision.Map.Floats.{Floats}
use agentic_vision.Map.Clusters.{compute_clusters}
use agentic_vision.Map.Builder.{EdgeData, ActionData, SiteMapBuilder}

-- `counts[key] += 1` for each key; a key without a counter is passed over.
unfoldable pub count_keys : List ℕ → List ℕ → List ℕ
count_keys counts [] = counts
count_keys counts (key ∷ keys) = count_keys (modify key (λ n. (n + 1) % 2 ^ 32) counts) keys

-- `index[i + 1] = index[i] + counts[i]`.
unfoldable pub prefix_sums : ℕ → List ℕ → List ℕ
prefix_sums total [] = total ∷ []
prefix_sums total (n ∷ counts) = total ∷ prefix_sums ((total + n) % 2 ^ 32) counts

-- The index over things that are sorted by their keys.
unfoldable pub csr_index : ℕ → List ℕ → List ℕ
unfolding count_keys prefix_sums
csr_index node_count keys = prefix_sums 0 (count_keys (replicate node_count 0) keys)

-- `saturating_add(1)` on a `u16`.
abbrev pub saturating_suc : ℕ → ℕ
saturating_suc n = min (n + 1) (2 ^ 16 - 1)

unfoldable pub one_more_out : NodeRecord → NodeRecord
one_more_out node = record {
  page_type = node.page_type;
  confidence = node.confidence;
  freshness = node.freshness;
  flags = node.flags;
  content_hash = node.content_hash;
  rendered_at = node.rendered_at;
  http_status = node.http_status;
  depth = node.depth;
  inbound_count = node.inbound_count;
  outbound_count = saturating_suc node.outbound_count;
  feature_norm = node.feature_norm;
  reserved = node.reserved;
}

unfoldable pub one_more_in : NodeRecord → NodeRecord
one_more_in node = record {
  page_type = node.page_type;
  confidence = node.confidence;
  freshness = node.freshness;
  flags = node.flags;
  content_hash = node.content_hash;
  rendered_at = node.rendered_at;
  http_status = node.http_status;
  depth = node.depth;
  inbound_count = saturating_suc node.inbound_count;
  outbound_count = node.outbound_count;
  feature_norm = node.feature_norm;
  reserved = node.reserved;
}

-- An edge outside the nodes counts nowhere.
unfoldable pub count_links : List EdgeData → List NodeRecord → List NodeRecord
unfolding one_more_out one_more_in
count_links [] nodes = nodes
count_links (ed ∷ edges) nodes =
    count_links edges (modify ed.edge.target_node one_more_in (modify ed.source one_more_out nodes))

abbrev pub by_source : EdgeData → EdgeData → Bool
by_source a b = leb a.source b.source

abbrev pub by_node : ActionData → ActionData → Bool
by_node a b = leb a.node b.node

abbrev pub edges_sorted : SiteMapBuilder → List EdgeData
edges_sorted b = sort_by by_source b.edges

abbrev pub actions_sorted : SiteMapBuilder → List ActionData
actions_sorted b = sort_by by_node b.actions

module _ (ops : Floats) where
  unfoldable pub cluster_target : ℕ → ℕ
  cluster_target n = if ltb n 30 then max 1 (n / 3) else max 3 (ops.root_of_tenth n)

  unfoldable pub build : (now : ℕ) → SiteMapBuilder → SiteMap
  unfolding csr_index count_links cluster_target
  build now b =
      let node_count = length b.nodes in
      let edges = edges_sorted b in
      let actions = actions_sorted b in
      let clusters = compute_clusters ops b.features (cluster_target node_count) in
      record {
        header = record {
          magic = sitemap_magic;
          format_version = format_version;
          domain = b.domain;
          mapped_at = now;
          node_count = node_count % 2 ^ 32;
          edge_count = length edges % 2 ^ 32;
          cluster_count = length clusters.1 % 2 ^ 16;
          flags = if b.has_sitemap then 1 else 0;
        };
        nodes = count_links edges b.nodes;
        edges = map (λ ed. ed.edge) edges;
        edge_index = csr_index node_count (map (λ ed. ed.source) edges);
        features = b.features;
        actions = map (λ ad. ad.action) actions;
        action_index = csr_index node_count (map (λ ad. ad.node) actions);
        cluster_assignments = clusters.0;
        cluster_centroids = clusters.1;
        urls = b.urls;
      }
