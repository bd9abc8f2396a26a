-- ===== src/Map/Builder.antt =====
-- runtime/src/map/builder.rs: `SiteMapBuilder`. The clock is an argument of `build`.
pub mod Calls
pub mod Ordered
use agentic_vision.Prelude.{
  ℕ, zero, suc, ◌+◌, ◌*◌, ◌/◌, ◌%◌, ◌^◌, List, [], ◌∷◌, ◌++◌, Bool, false, ◌&&◌, ltb, max,
  if◌then◌else◌, length, get_or, modify,
}
use agentic_vision.Prelude.Int.{ℤ}
use agentic_vision.Map.Kinds.{PageType, EdgeType}
use agentic_vision.Map.Types.{NodeRecord, EdgeRecord, OpCode, ActionRecord, feature_dim}
use agentic_vision.Map.Floats.{Floats}

pub record EdgeData : Type 0 where
  pub source : ℕ
  pub edge : EdgeRecord

pub record ActionData : Type 0 where
  pub node : ℕ
  pub action : ActionRecord

pub record SiteMapBuilder : Type 0 where
  pub domain : List ℕ
  pub urls : List (List ℕ)
  pub nodes : List NodeRecord
  pub features : List (List ℕ)
  pub edges : List EdgeData
  pub actions : List ActionData
  pub has_sitemap : Bool

unfoldable pub new : List ℕ → SiteMapBuilder
new domain = record {
  domain = domain;
  urls = [];
  nodes = [];
  features = [];
  edges = [];
  actions = [];
  has_sitemap = false;
}

unfoldable pub set_has_sitemap : Bool → SiteMapBuilder → SiteMapBuilder
set_has_sitemap has b = record {
  domain = b.domain;
  urls = b.urls;
  nodes = b.nodes;
  features = b.features;
  edges = b.edges;
  actions = b.actions;
  has_sitemap = has;
}

abbrev pub with_features : List (List ℕ) → SiteMapBuilder → SiteMapBuilder
with_features features b = record {
  domain = b.domain;
  urls = b.urls;
  nodes = b.nodes;
  features = features;
  edges = b.edges;
  actions = b.actions;
  has_sitemap = b.has_sitemap;
}

abbrev pub with_nodes : List NodeRecord → SiteMapBuilder → SiteMapBuilder
with_nodes nodes b = record {
  domain = b.domain;
  urls = b.urls;
  nodes = nodes;
  features = b.features;
  edges = b.edges;
  actions = b.actions;
  has_sitemap = b.has_sitemap;
}

unfoldable pub add_edge : ℕ → ℕ → EdgeType → ℕ → ℕ → SiteMapBuilder → SiteMapBuilder
add_edge source to edge_type weight flags b = record {
  domain = b.domain;
  urls = b.urls;
  nodes = b.nodes;
  features = b.features;
  edges =
      b.edges
      ++ record {
        source = source;
        edge = record {
          target_node = to;
          edge_type = edge_type;
          weight = weight;
          flags = flags;
          reserved = 0;
        };
      }
        ∷ [];
  actions = b.actions;
  has_sitemap = b.has_sitemap;
}

-- `add_action` and, with `http`, `add_action_http`.
unfoldable pub add_action : Bool → ℕ → OpCode → ℤ → ℕ → ℕ → SiteMapBuilder → SiteMapBuilder
add_action http node opcode target_node cost_hint risk b = record {
  domain = b.domain;
  urls = b.urls;
  nodes = b.nodes;
  features = b.features;
  edges = b.edges;
  actions =
      b.actions
      ++ record {
        node = node;
        action = record {
          opcode = opcode;
          target_node = target_node;
          cost_hint = cost_hint;
          risk = risk;
          http_executable = http;
        };
      }
        ∷ [];
  has_sitemap = b.has_sitemap;
}

-- `a | b` of a byte.
unfoldable pub bit_or : ℕ → ℕ → ℕ → ℕ
bit_or zero a b = 0
bit_or (suc w) a b = max (a % 2) (b % 2) + 2 * bit_or w (a / 2) (b / 2)

abbrev pub set_flags : ℕ → NodeRecord → NodeRecord
set_flags flags node = record {
  page_type = node.page_type;
  confidence = node.confidence;
  freshness = node.freshness;
  flags = flags;
  content_hash = node.content_hash;
  rendered_at = node.rendered_at;
  http_status = node.http_status;
  depth = node.depth;
  inbound_count = node.inbound_count;
  outbound_count = node.outbound_count;
  feature_norm = node.feature_norm;
  reserved = node.reserved;
}

unfoldable pub merge_flags : ℕ → ℕ → SiteMapBuilder → SiteMapBuilder
unfolding bit_or
merge_flags node flags b =
    with_nodes (modify node (λ n. set_flags (bit_or 8 n.flags flags) n) b.nodes) b

-- The assignment to `self.features[idx][dimension]`.
unfoldable pub update_feature : ℕ → ℕ → ℕ → SiteMapBuilder → SiteMapBuilder
update_feature node dimension value b =
    if ltb dimension feature_dim
    then with_features (modify node (modify dimension (λ old. value)) b.features) b
    else b

module _ (ops : Floats) where
  unfoldable pub sum_squares : ℕ → List ℕ → ℕ
  sum_squares total [] = total
  sum_squares total (f ∷ features) = sum_squares (ops.add total (ops.mul f f)) features

  unfoldable pub norm : List ℕ → ℕ
  unfolding sum_squares
  norm features = ops.sqrt (sum_squares ops.zero features)

  unfoldable pub get_feature : ℕ → ℕ → SiteMapBuilder → ℕ
  get_feature node dimension b =
      if ltb node (length b.features) && ltb dimension feature_dim
      then get_or (get_or b.features node []) dimension ops.zero
      else ops.zero

  -- The builder with the node, and its index.
  unfoldable pub add_node : List ℕ → PageType → List ℕ → ℕ → SiteMapBuilder → ℕ × SiteMapBuilder
  unfolding norm
  add_node url page_type features confidence b = (
    length b.nodes % 2 ^ 32,
    record {
      domain = b.domain;
      urls = b.urls ++ url ∷ [];
      nodes =
          b.nodes
          ++ record {
            page_type = page_type;
            confidence = confidence;
            freshness = 0;
            flags = 0;
            content_hash = 0;
            rendered_at = 0;
            http_status = 0;
            depth = 0;
            inbound_count = 0;
            outbound_count = 0;
            feature_norm = norm features;
            reserved = 0;
          }
            ∷ [];
      features = b.features ++ features ∷ [];
      edges = b.edges;
      actions = b.actions;
      has_sitemap = b.has_sitemap;
    },
  )

  unfoldable pub mark_rendered : List ℕ → NodeRecord → NodeRecord
  unfolding norm bit_or
  mark_rendered features node = record {
    page_type = node.page_type;
    confidence = node.confidence;
    freshness = 255;
    flags = bit_or 8 node.flags 1;
    content_hash = node.content_hash;
    rendered_at = node.rendered_at;
    http_status = node.http_status;
    depth = node.depth;
    inbound_count = node.inbound_count;
    outbound_count = node.outbound_count;
    feature_norm = norm features;
    reserved = node.reserved;
  }

  unfoldable pub set_rendered : ℕ → List ℕ → SiteMapBuilder → SiteMapBuilder
  unfolding mark_rendered
  set_rendered node features b =
      with_features (modify node (λ old. features) b.features)
        (with_nodes (modify node (mark_rendered features) b.nodes) b)
