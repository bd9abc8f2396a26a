-- ===== src/Collective/Delta.antt =====
-- runtime/src/collective/delta.rs: `compute_delta` and `apply_delta`. The clock is the argument
-- `now`. A hash set is the list of its members in the order in which they were put in.
use agentic_vision.Prelude.{
  ℕ, suc, ◌-◌, ◌%◌, ◌^◌, Option, none, some, List, [], ◌∷◌, ◌++◌, Bool, false, not, ◌&&◌, ◌||◌,
  ◌==◌, ltb, if◌then◌else◌, length, get_elem?, get_or, modify, retain, same_list, take, drop,
}
use agentic_vision.Prelude.Bytes.{to_le_bytes}
use agentic_vision.Map.Kinds.{page_code}
use agentic_vision.Map.Types.{MapHeader, NodeRecord, EdgeRecord, SiteMap}
use agentic_vision.Map.Bytes.{Loaded, ok, panic, ◌>>=◌}
use agentic_vision.Collective.Hash.{
  fnv_hash, rotate_left, hashed_string, hashed_strings, hashed_vectors,
}

pub record CompactNode : Type 0 where
  pub url_hash : ℕ
  pub url : List ℕ
  pub page_type : ℕ
  pub features : List (ℕ × ℕ)

-- `FeatureDelta` is its list of changed dimensions; `schema_delta` is always `None`.
pub record MapDelta : Type 0 where
  pub domain : List ℕ
  pub base_hash : List ℕ
  pub timestamp : ℕ
  pub cortex_instance_id : List ℕ
  pub nodes_added : List CompactNode
  pub nodes_removed : List ℕ
  pub nodes_modified : List (ℕ × List (ℕ × ℕ))
  pub edges_added : List (ℕ × ℕ)
  pub edges_removed : List (ℕ × ℕ)

-- What the code uses of floats, and the `fnv` crate over the bytes that are written to it.
pub record Outside : Type 0 where
  -- `(new - old).abs() > 0.001`.
  pub differs : (new old : ℕ) → Bool
  -- `v != 0.0`.
  pub not_zero : ℕ → Bool
  pub fnv_finish : List ℕ → ℕ

-- The last index at which the map from URLs to indexes has the URL.
unfoldable pub url_index : ℕ → List ℕ → List (List ℕ) → Option ℕ
url_index i url [] = none
url_index i url (u ∷ urls) = elim (url_index (suc i) url urls) [
  | some j ↦ some j
  | none ↦ if same_list url u then some i else none
]

abbrev pub same_pair : ℕ × ℕ → ℕ × ℕ → Bool
same_pair a b = (a.0 == b.0) && (a.1 == b.1)

abbrev pub has_pair : ℕ × ℕ → List (ℕ × ℕ) → Bool
has_pair a [] = false
has_pair a (b ∷ pairs) = same_pair a b || has_pair a pairs

abbrev pub insert_pair : ℕ × ℕ → List (ℕ × ℕ) → List (ℕ × ℕ)
insert_pair a pairs = if has_pair a pairs then pairs else pairs ++ a ∷ []

-- The pairs of one node, from edges in its range.
unfoldable pub pairs_of : ℕ → List EdgeRecord → List (ℕ × ℕ) → List (ℕ × ℕ)
pairs_of src [] pairs = pairs
pairs_of src (edge ∷ edges) pairs = pairs_of src edges (insert_pair (src, edge.target_node) pairs)

unfoldable pub pairs_from : SiteMap → ℕ → List NodeRecord → List (ℕ × ℕ) → List (ℕ × ℕ)
unfolding pairs_of
pairs_from site src [] pairs = pairs
pairs_from site src (node ∷ nodes) pairs =
    let next : List (ℕ × ℕ) = elim (get_elem? site.edge_index src) [
      | none ↦ pairs
      | some edge_start ↦
          let edge_end = get_or site.edge_index (suc src) (length site.edges) in
          pairs_of (src % 2 ^ 32) (take (edge_end - edge_start) (drop edge_start site.edges)) pairs
    ] in
    pairs_from site (suc src) nodes next

unfoldable pub collect_edge_pairs : SiteMap → List (ℕ × ℕ)
unfolding pairs_from
collect_edge_pairs site = pairs_from site 0 site.nodes []

-- Nothing is pushed where nothing has changed.
abbrev pub entry_of : ℕ → List (ℕ × ℕ) → List (ℕ × List (ℕ × ℕ))
entry_of idx [] = []
entry_of idx (c ∷ cs) = (idx, c ∷ cs) ∷ []

module _ (out : Outside) where
  unfoldable pub hash_map : SiteMap → List ℕ
  hash_map site =
      let bytes = hashed_string site.header.domain (
        to_le_bytes 4 site.header.node_count
        ++ (to_le_bytes 4 site.header.edge_count
            ++ hashed_strings site.urls (hashed_vectors site.features))) in
      let h = out.fnv_finish bytes in
      to_le_bytes 8 h
      ++ (to_le_bytes 8 (rotate_left h 16)
          ++ (to_le_bytes 8 (rotate_left h 32) ++ to_le_bytes 8 (rotate_left h 48)))

  -- The dimensions from `dim` on in which the vectors differ.
  unfoldable pub changed_from : ℕ → (old new : List ℕ) → List (ℕ × ℕ)
  changed_from dim (o ∷ old) (v ∷ new) =
      let rest = changed_from (suc dim) old new in
      if out.differs v o then (dim % 256, v) ∷ rest else rest
  changed_from dim [] new = []
  changed_from dim (o ∷ old) [] = []

  unfoldable pub sparse_from : ℕ → List ℕ → List (ℕ × ℕ)
  sparse_from dim [] = []
  sparse_from dim (v ∷ feats) =
      let rest = sparse_from (suc dim) feats in
      if out.not_zero v then (dim % 256, v) ∷ rest else rest

  -- The entry for a URL of both maps, if its features have changed.
  unfoldable pub modified_node :
      (old_map new_map : SiteMap) → (old_idx new_idx : ℕ) → List (ℕ × List (ℕ × ℕ))
  unfolding changed_from
  modified_node old_map new_map old_idx new_idx =
      let changed =
        changed_from 0 (get_or old_map.features old_idx []) (get_or new_map.features new_idx []) in
      if ltb new_idx (length new_map.features) && ltb old_idx (length old_map.features)
      then entry_of (new_idx % 2 ^ 32) changed
      else []

  unfoldable pub modified_from :
      (old_map new_map : SiteMap) → ℕ → List (List ℕ) → List (ℕ × List (ℕ × ℕ))
  unfolding modified_node
  modified_from old_map new_map new_idx [] = []
  modified_from old_map new_map new_idx (url ∷ urls) =
      let rest = modified_from old_map new_map (suc new_idx) urls in
      elim (url_index 0 url old_map.urls) [
        | none ↦ rest
        | some old_idx ↦ modified_node old_map new_map old_idx new_idx ++ rest
      ]

  unfoldable pub added_node : SiteMap → ℕ → List ℕ → CompactNode
  unfolding sparse_from
  added_node new_map new_idx url = record {
    url_hash = fnv_hash url;
    url = url;
    page_type = elim (get_elem? new_map.nodes new_idx) [
      | none ↦ 0
      | some node ↦ page_code node.page_type
    ];
    features = elim (get_elem? new_map.features new_idx) [
      | none ↦ []
      | some feats ↦ sparse_from 0 feats
    ];
  }

  unfoldable pub added_from : (old_map new_map : SiteMap) → ℕ → List (List ℕ) → List CompactNode
  unfolding added_node
  added_from old_map new_map new_idx [] = []
  added_from old_map new_map new_idx (url ∷ urls) =
      let rest = added_from old_map new_map (suc new_idx) urls in
      elim (url_index 0 url old_map.urls) [
        | none ↦ added_node new_map new_idx url ∷ rest
        | some old_idx ↦ rest
      ]

  unfoldable pub removed_from : SiteMap → ℕ → List (List ℕ) → List ℕ
  removed_from new_map old_idx [] = []
  removed_from new_map old_idx (url ∷ urls) =
      let rest = removed_from new_map (suc old_idx) urls in
      elim (url_index 0 url new_map.urls) [ none ↦ old_idx % 2 ^ 32 ∷ rest | some i ↦ rest ]

  unfoldable pub compute_delta : (now : ℕ) → (old_map new_map : SiteMap) → List ℕ → MapDelta
  unfolding hash_map modified_from added_from removed_from url_index
  compute_delta now old_map new_map instance_id =
      let old_edges = collect_edge_pairs old_map in
      let new_edges = collect_edge_pairs new_map in
      record {
        domain = new_map.header.domain;
        base_hash = hash_map old_map;
        timestamp = now;
        cortex_instance_id = instance_id;
        nodes_added = added_from old_map new_map 0 new_map.urls;
        nodes_removed = removed_from new_map 0 old_map.urls;
        nodes_modified = modified_from old_map new_map 0 new_map.urls;
        edges_added = retain (λ pair. not (has_pair pair old_edges)) new_edges;
        edges_removed = retain (λ pair. not (has_pair pair new_edges)) old_edges;
      }

-- `features[dim] = value` for each change; a dimension outside the vector panics.
unfoldable pub set_dims : List (ℕ × ℕ) → List ℕ → Loaded (List ℕ)
set_dims [] feats = ok feats
set_dims ((dim, value) ∷ changes) feats =
    let rest = set_dims changes (modify dim (λ old. value) feats) in
    if ltb dim (length feats) then rest else panic

unfoldable pub apply_modified : List (ℕ × List (ℕ × ℕ)) → List (List ℕ) → Loaded (List (List ℕ))
unfolding set_dims
apply_modified [] features = ok features
apply_modified ((idx, changes) ∷ modified) features = elim (get_elem? features idx) [
  | none ↦ apply_modified modified features
  | some feats ↦
      (set_dims changes feats)
      >>= (λ next. apply_modified modified (modify idx (λ old. next) features))
]

abbrev pub at_time : ℕ → MapHeader → MapHeader
at_time timestamp header = record {
  magic = header.magic;
  format_version = header.format_version;
  domain = header.domain;
  mapped_at = timestamp;
  node_count = header.node_count;
  edge_count = header.edge_count;
  cluster_count = header.cluster_count;
  flags = header.flags;
}

abbrev pub with_features : List (List ℕ) → SiteMap → SiteMap
with_features features site = record {
  header = site.header;
  nodes = site.nodes;
  edges = site.edges;
  edge_index = site.edge_index;
  features = features;
  actions = site.actions;
  action_index = site.action_index;
  cluster_assignments = site.cluster_assignments;
  cluster_centroids = site.cluster_centroids;
  urls = site.urls;
}

abbrev pub with_header : MapHeader → SiteMap → SiteMap
with_header header site = record {
  header = header;
  nodes = site.nodes;
  edges = site.edges;
  edge_index = site.edge_index;
  features = site.features;
  actions = site.actions;
  action_index = site.action_index;
  cluster_assignments = site.cluster_assignments;
  cluster_centroids = site.cluster_centroids;
  urls = site.urls;
}

-- Nodes and edges that were added or removed are passed over.
unfoldable pub apply_delta : MapDelta → SiteMap → Loaded SiteMap
unfolding apply_modified
apply_delta delta site = do
  features ← apply_modified delta.nodes_modified site.features
  ok (with_header (at_time delta.timestamp site.header) (with_features features site))
