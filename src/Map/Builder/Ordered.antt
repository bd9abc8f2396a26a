-- ===== src/Map/Builder/Ordered.antt =====
-- Every call keeps a builder of runtime/src/map/builder.rs in order.
use agentic_vision.Prelude.{
  ℕ, zero, suc, ◌/◌, ◌^◌, ◌≡◌, ◌<◌, refl, sym, ◌∙◌, List, [], ◌∷◌, true, ltb, arith, All,
  All-append, All-modify, Bool-cases, inl, inr, length-append, length-modify, modify,
}
use native.Mathlib.Nat.{pow-suc}
use agentic_vision.Map.Kinds.{PageType}
use agentic_vision.Map.Types.{NodeRecord, feature_dim}
use agentic_vision.Map.Utf8.{from_utf8}
use agentic_vision.Map.Bytes.{FitsBytes}
use agentic_vision.Map.Serializer.Fits.{FitsEdge, FitsAction, IsVector, IsUrl}
use agentic_vision.Map.Floats.{Floats, IsSized}
use agentic_vision.Map.Builder.{
  SiteMapBuilder, new, set_has_sitemap, add_node, add_edge, add_action, set_rendered,
  update_feature, merge_flags, bit_or, norm, mark_rendered, set_flags,
}
use agentic_vision.Map.Builder.Calls.{
  BuilderCall, sitemap_set, node_added, edge_added, action_added, rendered_with, feature_updated,
  flags_merged, IsCall, IsFresh, IsBuilder, apply_call, run_calls,
}

bit_or-lt : (w a b : ℕ) → bit_or w a b < 2 ^ w
unfolding bit_or
bit_or-lt zero a b = omega arith
bit_or-lt (suc w) a b = omega (arith, bit_or-lt w (a / 2) (b / 2), pow-suc 2 w)

modify-IsVector :
    (dimension value : ℕ) (v : List ℕ)
    → FitsBytes 4 value
    → IsVector v
    → IsVector (modify dimension (λ old. value) v)
modify-IsVector dimension value v h k = record {
  dim = length-modify dimension _ v ∙ k.dim;
  floats = All-modify (FitsBytes 4) dimension (λ old. value) v (λ old p. h) k.floats;
}

module _ (ops : Floats) where
  module _ (sized : IsSized ops) where
    new_node-IsFresh :
        (page_type : PageType) (features : List ℕ) (confidence : ℕ)
        → FitsBytes 1 confidence
        → IsFresh (record {
          page_type = page_type;
          confidence = confidence;
          freshness = 0;
          flags = 0;
          content_hash = 0;
          rendered_at = 0;
          http_status = 0;
          depth = 0;
          inbound_count = 0;
          outbound_count = 0;
          feature_norm = norm ops features;
          reserved = 0;
        })
    unfolding norm
    new_node-IsFresh page_type features confidence h = record {
      fits = record {
        confidence = h;
        freshness = omega arith;
        flags = omega arith;
        content_hash = omega arith;
        rendered_at = omega arith;
        http_status = omega arith;
        depth = omega arith;
        inbound_count = omega arith;
        outbound_count = omega arith;
        feature_norm = sized.sqrt _;
        reserved = omega arith;
      };
      outbound = refl;
      inbound = refl;
    }

    mark_rendered-IsFresh :
        (features : List ℕ) (node : NodeRecord)
        → IsFresh node
        → IsFresh (mark_rendered ops features node)
    unfolding mark_rendered norm
    mark_rendered-IsFresh features node h = record {
      fits = record {
        confidence = h.fits.confidence;
        freshness = omega arith;
        flags = bit_or-lt 8 node.flags 1;
        content_hash = h.fits.content_hash;
        rendered_at = h.fits.rendered_at;
        http_status = h.fits.http_status;
        depth = h.fits.depth;
        inbound_count = h.fits.inbound_count;
        outbound_count = h.fits.outbound_count;
        feature_norm = sized.sqrt _;
        reserved = h.fits.reserved;
      };
      outbound = h.outbound;
      inbound = h.inbound;
    }

    set_flags-IsFresh :
        (flags : ℕ) (node : NodeRecord)
        → IsFresh node
        → IsFresh (set_flags (bit_or 8 node.flags flags) node)
    set_flags-IsFresh flags node h = record {
      fits = record {
        confidence = h.fits.confidence;
        freshness = h.fits.freshness;
        flags = bit_or-lt 8 node.flags flags;
        content_hash = h.fits.content_hash;
        rendered_at = h.fits.rendered_at;
        http_status = h.fits.http_status;
        depth = h.fits.depth;
        inbound_count = h.fits.inbound_count;
        outbound_count = h.fits.outbound_count;
        feature_norm = h.fits.feature_norm;
        reserved = h.fits.reserved;
      };
      outbound = h.outbound;
      inbound = h.inbound;
    }

    -- Each call keeps the builder in order.
    apply_call-IsBuilder :
        (call : BuilderCall) (b : SiteMapBuilder)
        → IsCall call
        → IsBuilder b
        → IsBuilder (apply_call ops call b)
    unfolding apply_call IsCall set_has_sitemap add_node add_edge add_action set_rendered
        update_feature merge_flags
    apply_call-IsBuilder (sitemap_set has) b c h = record {
      domain = h.domain;
      url_count = h.url_count;
      feature_count = h.feature_count;
      urls = h.urls;
      nodes = h.nodes;
      features = h.features;
      edges = h.edges;
      actions = h.actions;
    }
    apply_call-IsBuilder (node_added url page_type features confidence) b c h = record {
      domain = h.domain;
      url_count =
          omega
            (arith, h.url_count, length-append b.urls (url ∷ []), length-append b.nodes (_ ∷ []));
      feature_count = omega (
        arith,
        h.feature_count,
        length-append b.features (features ∷ []),
        length-append b.nodes (_ ∷ []),
      );
      urls = All-append IsUrl b.urls (url ∷ []) h.urls (c.0, tt);
      nodes =
          All-append IsFresh b.nodes _ h.nodes
            (new_node-IsFresh page_type features confidence c.2, tt);
      features = All-append IsVector b.features (features ∷ []) h.features (c.1, tt);
      edges = h.edges;
      actions = h.actions;
    }
    apply_call-IsBuilder (edge_added source to edge_type weight flags) b c h = record {
      domain = h.domain;
      url_count = h.url_count;
      feature_count = h.feature_count;
      urls = h.urls;
      nodes = h.nodes;
      features = h.features;
      edges =
          All-append (λ ed. FitsEdge ed.edge) b.edges _ h.edges
            (record { target_node = c.0; weight = c.1; flags = c.2; reserved = omega arith }, tt);
      actions = h.actions;
    }
    apply_call-IsBuilder (action_added http node opcode target_node cost_hint risk) b c h = record {
      domain = h.domain;
      url_count = h.url_count;
      feature_count = h.feature_count;
      urls = h.urls;
      nodes = h.nodes;
      features = h.features;
      edges = h.edges;
      actions =
          All-append (λ ad. FitsAction ad.action) b.actions _ h.actions
            (
              record {
                category = c.0;
                action_byte = c.1;
                target_node = c.2;
                cost_hint = c.3;
                risk = c.4;
              },
              tt,
            );
    }
    apply_call-IsBuilder (rendered_with node features) b c h = record {
      domain = h.domain;
      url_count = h.url_count ∙ sym (length-modify node (mark_rendered ops features) b.nodes);
      feature_count =
          length-modify node (λ old. features) b.features
          ∙ h.feature_count
          ∙ sym (length-modify node (mark_rendered ops features) b.nodes);
      urls = h.urls;
      nodes =
          All-modify IsFresh node (mark_rendered ops features) b.nodes
            (mark_rendered-IsFresh features) h.nodes;
      features = All-modify IsVector node (λ old. features) b.features (λ old k. c) h.features;
      edges = h.edges;
      actions = h.actions;
    }
    apply_call-IsBuilder (feature_updated node dimension value) b c h =
        elim (Bool-cases (ltb dimension feature_dim)) [
          | inl e ↦ rw e (record {
            domain = h.domain;
            url_count = h.url_count;
            feature_count =
                length-modify node (modify dimension (λ old. value)) b.features ∙ h.feature_count;
            urls = h.urls;
            nodes = h.nodes;
            features =
                All-modify IsVector node (modify dimension (λ old. value)) b.features
                  (λ v k. modify-IsVector dimension value v c k) h.features;
            edges = h.edges;
            actions = h.actions;
          })
          | inr e ↦ rw e h
        ]
    apply_call-IsBuilder (flags_merged node flags) b c h =
        let merge : NodeRecord → NodeRecord = λ n. set_flags (bit_or 8 n.flags flags) n in
        record {
          domain = h.domain;
          url_count = h.url_count ∙ sym (length-modify node merge b.nodes);
          feature_count = h.feature_count ∙ sym (length-modify node merge b.nodes);
          urls = h.urls;
          nodes = All-modify IsFresh node merge b.nodes (set_flags-IsFresh flags) h.nodes;
          features = h.features;
          edges = h.edges;
          actions = h.actions;
        }

    -- Any sequence of calls with arguments in range keeps the builder in order: as many URLs and
    -- vectors as nodes, each field in the range of its type, and no edge counted yet.
    pub run_calls-IsBuilder :
        (calls : List BuilderCall) (b : SiteMapBuilder)
        → All IsCall calls
        → IsBuilder b
        → IsBuilder (run_calls ops calls b)
    unfolding run_calls
    run_calls-IsBuilder [] b c h = h
    run_calls-IsBuilder (call ∷ calls) b c h =
        run_calls-IsBuilder calls (apply_call ops call b) c.1 (apply_call-IsBuilder call b c.0 h)

pub new-IsBuilder : (domain : List ℕ) → from_utf8 domain ≡ true → IsBuilder (new domain)
unfolding new
new-IsBuilder domain h = record {
  domain = h;
  url_count = refl;
  feature_count = refl;
  urls = tt;
  nodes = tt;
  features = tt;
  edges = tt;
  actions = tt;
}
