-- ===== src/Map/Reader.antt =====
-- runtime/src/map/reader.rs: the reads through the indexes, and `update_node`. What is out of range
-- panics.
use agentic_vision.Prelude.{
  ◌<◌, ◌≡◌, refl, arith, get_or, zero, ◌∷◌, ℕ, suc, ◌-◌, none, some, List, [], leb, ◌&&◌,
  if◌then◌else◌, length, take, drop, get_elem?, modify, ltb,
}
use agentic_vision.Map.Types.{NodeRecord, EdgeRecord, ActionRecord, SiteMap}
use agentic_vision.Map.Bytes.{Loaded, ok, panic, ◌>>=◌}

-- `xs[i]`.
abbrev pub at : {A : Type 0} → List A → ℕ → Loaded A
at xs i = elim (get_elem? xs i) [ none ↦ panic | some x ↦ ok x ]

pub at_found :
    {A : Type 0} (xs : List A) (i : ℕ) (d : A) → i < length xs → at xs i ≡ ok (get_or xs i d)
at_found [] i d h = absurd (omega arith)
at_found (x ∷ xs) zero d h = refl
at_found (x ∷ xs) (suc i) d h = at_found xs i d (omega arith)

module _ {A : Type 0} where
  -- `&items[start..end]`.
  unfoldable pub range : List A → ℕ → ℕ → Loaded (List A)
  range items start end =
      if leb start end && leb end (length items)
      then ok (take (end - start) (drop start items))
      else panic

  -- The items of a node, by the index over them.
  unfoldable pub csr_slice : List A → List ℕ → ℕ → Loaded (List A)
  unfolding range
  csr_slice items index n = do start ← at index n; end ← at index (suc n); range items start end

unfoldable pub edges_from : SiteMap → ℕ → Loaded (List EdgeRecord)
unfolding csr_slice
edges_from site n =
    if leb (length site.nodes) n then ok [] else csr_slice site.edges site.edge_index n

unfoldable pub actions_for : SiteMap → ℕ → Loaded (List ActionRecord)
unfolding csr_slice
actions_for site n =
    if leb (length site.nodes) n then ok [] else csr_slice site.actions site.action_index n

unfoldable pub node_url : SiteMap → ℕ → Loaded (List ℕ)
node_url site n = at site.urls n

unfoldable pub node_features : SiteMap → ℕ → Loaded (List ℕ)
node_features site n = at site.features n

-- `&mut self`: the map that it leaves behind. A panic comes after the node is written, so no map is
-- left then.
unfoldable pub update_node : SiteMap → ℕ → NodeRecord → List ℕ → Loaded SiteMap
update_node site index node vector =
    if ltb index (length site.nodes)
    then (if ltb index (length site.features)
        then ok (record {
          header = site.header;
          nodes = modify index (λ old. node) site.nodes;
          edges = site.edges;
          edge_index = site.edge_index;
          features = modify index (λ old. vector) site.features;
          actions = site.actions;
          action_index = site.action_index;
          cluster_assignments = site.cluster_assignments;
          cluster_centroids = site.cluster_centroids;
          urls = site.urls;
        })
        else panic)
    else ok site
