-- ===== src/Map/Serializer/Fits.antt =====
-- The well-formed site maps of runtime/src/map: what the types of Rust and the counts of the header
-- promise of a `SiteMap`.
use agentic_vision.Prelude.{ℕ, suc, ◌≡◌, ◌≢◌, ◌≤◌, List, true, length, All}
use agentic_vision.Map.Types.{
  NodeRecord, EdgeRecord, ActionRecord, SiteMap, sitemap_magic, format_version, feature_dim,
}
use agentic_vision.Map.Utf8.{from_utf8}
use agentic_vision.Map.Bytes.{FitsBytes, FitsI32}
use agentic_vision.Map.Serializer.{url_data_of}

pub record FitsNode (node : NodeRecord) : Type 0 where
  pub confidence : FitsBytes 1 node.confidence
  pub freshness : FitsBytes 1 node.freshness
  pub flags : FitsBytes 1 node.flags
  pub content_hash : FitsBytes 4 node.content_hash
  pub rendered_at : FitsBytes 4 node.rendered_at
  pub http_status : FitsBytes 2 node.http_status
  pub depth : FitsBytes 2 node.depth
  pub inbound_count : FitsBytes 2 node.inbound_count
  pub outbound_count : FitsBytes 2 node.outbound_count
  pub feature_norm : FitsBytes 4 node.feature_norm
  pub reserved : FitsBytes 4 node.reserved

pub record FitsEdge (edge : EdgeRecord) : Type 0 where
  pub target_node : FitsBytes 4 edge.target_node
  pub weight : FitsBytes 1 edge.weight
  pub flags : FitsBytes 1 edge.flags
  pub reserved : FitsBytes 1 edge.reserved

pub record FitsAction (action : ActionRecord) : Type 0 where
  pub category : FitsBytes 1 action.opcode.category
  pub action_byte : FitsBytes 1 action.opcode.action
  pub target_node : FitsI32 action.target_node
  pub cost_hint : FitsBytes 1 action.cost_hint
  pub risk : FitsBytes 1 action.risk

pub record IsVector (vector : List ℕ) : Type 0 where
  pub dim : length vector ≡ feature_dim
  pub floats : All (FitsBytes 4) vector

-- A Rust string without a NUL.
pub record IsUrl (url : List ℕ) : Type 0 where
  pub valid : from_utf8 url ≡ true
  pub no_nul : All (λ b. b ≢ 0) url

-- The header.
pub record FitsHeader (site : SiteMap) : Type 0 where
  pub magic : site.header.magic ≡ sitemap_magic
  pub version : site.header.format_version ≤ format_version
  pub domain : from_utf8 site.header.domain ≡ true
  pub domain_length : FitsBytes 2 (length site.header.domain)
  pub mapped_at : FitsBytes 8 site.header.mapped_at
  pub node_count : FitsBytes 4 site.header.node_count
  pub edge_count : FitsBytes 4 site.header.edge_count
  pub cluster_count : FitsBytes 2 site.header.cluster_count
  pub flags : FitsBytes 2 site.header.flags

-- The tables are as long as the header says.
pub record HasCounts (site : SiteMap) : Type 0 where
  pub nodes : length site.nodes ≡ site.header.node_count
  pub edges : length site.edges ≡ site.header.edge_count
  pub edge_index : length site.edge_index ≡ suc site.header.node_count
  pub features : length site.features ≡ site.header.node_count
  pub actions : FitsBytes 4 (length site.actions)
  pub action_index : length site.action_index ≡ suc site.header.node_count
  pub assignments : length site.cluster_assignments ≡ site.header.node_count
  pub centroids : length site.cluster_centroids ≡ site.header.cluster_count
  pub urls : length site.urls ≡ site.header.node_count
  pub url_bytes : FitsBytes 4 (length (url_data_of site.urls))

pub record IsWellFormed (site : SiteMap) : Type 0 where
  pub header : FitsHeader site
  pub counts : HasCounts site
  pub nodes : All FitsNode site.nodes
  pub edges : All FitsEdge site.edges
  pub edge_index : All (FitsBytes 4) site.edge_index
  pub features : All IsVector site.features
  pub actions : All FitsAction site.actions
  pub action_index : All (FitsBytes 4) site.action_index
  pub assignments : All (FitsBytes 2) site.cluster_assignments
  pub centroids : All IsVector site.cluster_centroids
  pub urls : All IsUrl site.urls
