-- ===== src/Map/Builder/Calls.antt =====
-- The builder of runtime/src/map/builder.rs from its calls: what any sequence of them leads to, and
-- that the map which is built is well formed.
use agentic_vision.Prelude.{ℕ, ◌≡◌, List, [], ◌∷◌, Bool, true, length, All}
use agentic_vision.Prelude.Int.{ℤ}
use agentic_vision.Map.Kinds.{PageType, EdgeType}
use agentic_vision.Map.Types.{NodeRecord, OpCode}
use agentic_vision.Map.Utf8.{from_utf8}
use agentic_vision.Map.Bytes.{FitsBytes, FitsI32}
use agentic_vision.Map.Serializer.Fits.{FitsNode, FitsEdge, FitsAction, IsVector, IsUrl}
use agentic_vision.Map.Floats.{Floats}
use agentic_vision.Map.Builder.{
  SiteMapBuilder, set_has_sitemap, add_node, add_edge, add_action, set_rendered, update_feature,
  merge_flags,
}

-- The calls that change a builder.
pub data BuilderCall : Type 0 where
  sitemap_set : Bool → BuilderCall
  node_added : (url : List ℕ) → PageType → (features : List ℕ) → (confidence : ℕ) → BuilderCall
  edge_added : (source to : ℕ) → EdgeType → (weight flags : ℕ) → BuilderCall
  action_added : (http : Bool) → (node : ℕ) → OpCode → ℤ → (cost_hint risk : ℕ) → BuilderCall
  rendered_with : (node : ℕ) → (features : List ℕ) → BuilderCall
  feature_updated : (node dimension value : ℕ) → BuilderCall
  flags_merged : (node flags : ℕ) → BuilderCall

-- The arguments have the range of their types; a URL has no NUL.
unfoldable pub IsCall : BuilderCall → Type 0
IsCall (sitemap_set has) = Unit
IsCall (node_added url page_type features confidence) =
    IsUrl url × IsVector features × FitsBytes 1 confidence
IsCall (edge_added source to edge_type weight flags) =
    FitsBytes 4 to × FitsBytes 1 weight × FitsBytes 1 flags
IsCall (action_added http node opcode target_node cost_hint risk) =
    FitsBytes 1 opcode.category
    × FitsBytes 1 opcode.action
    × FitsI32 target_node
    × FitsBytes 1 cost_hint
    × FitsBytes 1 risk
IsCall (rendered_with node features) = IsVector features
IsCall (feature_updated node dimension value) = FitsBytes 4 value
IsCall (flags_merged node flags) = FitsBytes 1 flags

-- A node that no edge has been counted for.
pub record IsFresh (node : NodeRecord) : Type 0 where
  pub fits : FitsNode node
  pub outbound : node.outbound_count ≡ 0
  pub inbound : node.inbound_count ≡ 0

pub record IsBuilder (b : SiteMapBuilder) : Type 0 where
  pub domain : from_utf8 b.domain ≡ true
  pub url_count : length b.urls ≡ length b.nodes
  pub feature_count : length b.features ≡ length b.nodes
  pub urls : All IsUrl b.urls
  pub nodes : All IsFresh b.nodes
  pub features : All IsVector b.features
  pub edges : All (λ ed. FitsEdge ed.edge) b.edges
  pub actions : All (λ ad. FitsAction ad.action) b.actions

module _ (ops : Floats) where
  unfoldable pub apply_call : BuilderCall → SiteMapBuilder → SiteMapBuilder
  apply_call (sitemap_set has) b = set_has_sitemap has b
  apply_call (node_added url page_type features confidence) b =
      (add_node ops url page_type features confidence b).1
  apply_call (edge_added source to edge_type weight flags) b =
      add_edge source to edge_type weight flags b
  apply_call (action_added http node opcode target_node cost_hint risk) b =
      add_action http node opcode target_node cost_hint risk b
  apply_call (rendered_with node features) b = set_rendered ops node features b
  apply_call (feature_updated node dimension value) b = update_feature node dimension value b
  apply_call (flags_merged node flags) b = merge_flags node flags b

  unfoldable pub run_calls : List BuilderCall → SiteMapBuilder → SiteMapBuilder
  unfolding apply_call
  run_calls [] b = b
  run_calls (call ∷ calls) b = run_calls calls (apply_call call b)
