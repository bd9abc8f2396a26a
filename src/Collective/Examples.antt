-- ===== src/Collective/Examples.antt =====
-- The theorems on runtime/src/collective at concrete inputs.
use agentic_vision.Prelude.{
  ℕ, ◌≡◌, ◌<◌, ◌^◌, refl, some, List, [], ◌∷◌, not, ◌==◌, arith, replicate, get_elem?, All,
  All-replicate,
}
use agentic_vision.Map.Kinds.{account}
use agentic_vision.Map.Types.{NodeRecord, SiteMap, feature_dim, sitemap_magic}
use agentic_vision.Map.Bytes.{ok}
use agentic_vision.Map.Serializer.Fits.{IsVector}
use agentic_vision.Collective.Delta.{
  Outside, compute_delta, apply_delta, at_time, with_header, with_features, url_index,
}
use agentic_vision.Collective.Apply.{merge_vectors, apply_delta-compute_delta}
use agentic_vision.Collective.Strip.{strip_private_data}
use agentic_vision.Collective.Strip.Zeroed.{strip_private_data_lem, stripped_value}

abbrev outside : Outside
outside = record {
  differs = λ a b. not (a == b);
  not_zero = λ a. not (a == 0);
  fnv_finish = λ bytes. 0;
}

abbrev walled : NodeRecord
walled = record {
  page_type = account;
  confidence = 200;
  freshness = 0;
  flags = 16;
  content_hash = 0;
  rendered_at = 0;
  http_status = 0;
  depth = 0;
  inbound_count = 0;
  outbound_count = 0;
  feature_norm = 0;
  reserved = 0;
}

-- One page, each feature of which is `f`.
abbrev one_page : ℕ → SiteMap
one_page f = record {
  header = record {
    magic = sitemap_magic;
    format_version = 1;
    domain = [];
    mapped_at = 1;
    node_count = 1;
    edge_count = 0;
    cluster_count = 0;
    flags = 0;
  };
  nodes = walled ∷ [];
  edges = [];
  edge_index = 0 ∷ 0 ∷ [];
  features = replicate feature_dim f ∷ [];
  actions = [];
  action_index = 0 ∷ 0 ∷ [];
  cluster_assignments = 0 ∷ [];
  cluster_centroids = [];
  urls = (0x68 ∷ []) ∷ [];
}

url_found : url_index 0 (0x68 ∷ []) ((0x68 ∷ []) ∷ []) ≡ some 0
unfolding url_index
url_found = refl

apply_delta-compute_delta_example :
    apply_delta (compute_delta outside 9 (one_page 1) (one_page 2) []) (one_page 1)
    ≡ ok (
        with_header (at_time 9 (one_page 1).header) (
          with_features
            (merge_vectors outside (one_page 1).features (one_page 2).features)
            (one_page 1)))
apply_delta-compute_delta_example =
    apply_delta-compute_delta outside 9 (one_page 1) (one_page 2) [] refl indexed refl refl
      (omega arith) vectors
  where
    indexed : (url_index 0 (0x68 ∷ []) ((0x68 ∷ []) ∷ []) ≡ some 0) × Unit {0}
    indexed = (url_found, tt)

    vectors : All IsVector ((one_page 1).features)
    vectors = (
      record { dim = refl; floats = All-replicate (λ v. v < 256 ^ 4) feature_dim 1 (omega arith) },
      tt,
    )

strip_private_data_lem_example :
    (stripped : List ℕ) × (get_elem? (strip_private_data (one_page 7)).features 0 ≡ some stripped)
    × ((dim f : ℕ)
        → get_elem? (replicate feature_dim 7) dim ≡ some f
        → get_elem? stripped dim ≡ some (stripped_value walled dim f))
strip_private_data_lem_example =
    strip_private_data_lem (one_page 7) 0 walled (replicate feature_dim 7) refl refl refl
