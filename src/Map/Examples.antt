-- ===== src/Map/Examples.antt =====
-- Tests of runtime/src/map, and the theorems at concrete inputs.
use agentic_vision.Prelude.{
  ℕ, ◌+◌, ◌-◌, ◌^◌, ◌≡◌, ◌<◌, refl, some, List, [], ◌∷◌, ◌++◌, map, true, false, ◌==◌, arith,
  length, replicate, retain, min, get_elem?, All, All-replicate,
}
use agentic_vision.Prelude.Bytes.{to_le_bytes}
use agentic_vision.Prelude.Int.{negsuc}
use agentic_vision.Map.Kinds.{home, article, navigation}
use agentic_vision.Map.Types.{NodeRecord, feature_dim}
use agentic_vision.Map.Utf8.{valid_from, lead}
use agentic_vision.Map.Bytes.{write_many, ok, fail, checksum_mismatch}
use agentic_vision.Map.Crc.{crc32}
use agentic_vision.Map.Serializer.Fits.{IsVector}
use agentic_vision.Map.Floats.{Floats, IsSized}
use agentic_vision.Map.Serializer.{serialize, url_data_of}
use agentic_vision.Map.Deserializer.{deserialize}
use agentic_vision.Map.Deserializer.RoundTrip.{stored}
use agentic_vision.Map.Crc.Corruption.{deserialize_corrupted}
use agentic_vision.Map.Clusters.{compute_clusters}
use agentic_vision.Map.Clusters.Bounds.{IsClustering, compute_clusters-IsClustering}
use agentic_vision.Map.Builder.{
  SiteMapBuilder, new, add_node, add_edge, add_action, set_has_sitemap, norm,
}
use agentic_vision.Map.Build.{build}
use agentic_vision.Map.Builder.Calls.{
  BuilderCall, node_added, edge_added, action_added, sitemap_set, IsCall, IsBuilder, run_calls,
  apply_call,
}
use agentic_vision.Map.Builder.Ordered.{run_calls-IsBuilder, new-IsBuilder}
use agentic_vision.Map.Build.Stored.{IsCountable, deserialize-build}
use agentic_vision.Map.Reader.{edges_from}
use agentic_vision.Map.Build.Degrees.{edges_of, edges_from-build, degrees}
use agentic_vision.Map.Paths.Walks.{IsCostAddition}
use agentic_vision.Map.Paths.{PathConstraints, hops, find_path}
use agentic_vision.Map.Paths.Found.{IsAnswer}
use agentic_vision.Map.Paths.Routes.{find_path-build}

-- Floats that are all zero.
abbrev pub flat : Floats
flat = record {
  zero = 0;
  is_zero = λ a. true;
  minus_one = 0;
  largest = 0;
  add = λ a b. 0;
  sub = λ a b. 0;
  mul = λ a b. 0;
  div = λ a b. 0;
  sqrt = λ a. 0;
  lt = λ a b. false;
  from_u32 = λ n. 0;
  root_of_tenth = λ n. 0;
}

flat-IsSized : IsSized flat
flat-IsSized = record {
  zero = omega arith;
  add = λ a b. omega arith;
  div = λ a b. omega arith;
  sqrt = λ a. omega arith;
  root = λ n h. omega arith;
}

abbrev pub blank : List ℕ
blank = replicate feature_dim 0

blank-IsVector : IsVector blank
blank-IsVector = record {
  dim = refl;
  floats = All-replicate (λ v. v < 256 ^ 4) feature_dim 0 (omega arith);
}

-- Two pages "h" and "a", of which the first links to the second.
abbrev pub calls : List BuilderCall
calls =
    node_added (0x68 ∷ []) home blank 200
    ∷ node_added (0x61 ∷ []) article blank 180
    ∷ edge_added 0 1 navigation 2 0
    ∷ edge_added 1 0 navigation 3 1
    ∷ edge_added 0 0 navigation 4 0
    ∷ action_added true 1 (record { category = 2; action = 0 }) (negsuc 0) 0 1
    ∷ sitemap_set true
    ∷ []

abbrev pub domain : List ℕ
domain = 0x68 ∷ 0x61 ∷ []

abbrev pub pages : SiteMapBuilder
pages = run_calls flat calls (new domain)

calls-IsCall : All IsCall calls
unfolding IsCall valid_from lead
calls-IsCall = (
  (record { valid = refl; no_nul = (λ e. cc e, tt) }, blank-IsVector, omega arith),
  (
    (record { valid = refl; no_nul = (λ e. cc e, tt) }, blank-IsVector, omega arith),
    (
      (omega arith, omega arith, omega arith),
      (
        (omega arith, omega arith, omega arith),
        (
          (omega arith, omega arith, omega arith),
          ((omega arith, omega arith, omega arith, omega arith, omega arith), (tt, tt)),
        ),
      ),
    ),
  ),
)

domain-utf8 : valid_from 0 0 0 domain ≡ true
unfolding valid_from lead
domain-utf8 = refl

small_urls : length (url_data_of pages.urls) < 2 ^ 32
unfolding run_calls apply_call new add_node add_edge add_action set_has_sitemap write_many
small_urls = omega arith

pages-IsCountable : IsCountable 5 pages
unfolding run_calls apply_call new add_node add_edge add_action set_has_sitemap
pages-IsCountable = record {
  domain = omega arith;
  clock = omega arith;
  nodes = omega arith;
  edges = omega arith;
  actions = omega arith;
  urls = small_urls;
}

deserialize-build_example :
    deserialize (serialize (build flat 5 pages)) ≡ ok (stored (build flat 5 pages))
deserialize-build_example =
    deserialize-build flat flat-IsSized 5 domain calls domain-utf8 calls-IsCall pages-IsCountable

run_calls-IsBuilder_example : IsBuilder (run_calls flat calls (new domain))
run_calls-IsBuilder_example =
    run_calls-IsBuilder flat flat-IsSized calls (new domain) calls-IsCall
      (new-IsBuilder domain domain-utf8)

deserialize_corrupted_example :
    deserialize ((7 ∷ 4 ∷ 9 ∷ []) ++ to_le_bytes 4 (crc32 (7 ∷ 3 ∷ 9 ∷ [])))
    ≡ fail (checksum_mismatch (crc32 (7 ∷ 3 ∷ 9 ∷ [])) (crc32 (7 ∷ 4 ∷ 9 ∷ [])))
deserialize_corrupted_example =
    deserialize_corrupted (9 ∷ []) 3 4 (omega arith, tt) (omega arith) (omega arith) (7 ∷ [])
      (λ e. absurd (omega (arith, e)))

few_edges : length pages.edges < 2 ^ 32
unfolding run_calls apply_call new add_node add_edge add_action set_has_sitemap
few_edges = omega arith

edges_from-build_example : edges_from (build flat 5 pages) 0 ≡ ok (edges_of pages 0)
edges_from-build_example = edges_from-build flat 5 pages 0 few_edges

-- The two links of the first page, in the order in which they were added.
edges_of_first : map (λ e. e.weight) (edges_of pages 0) ≡ 2 ∷ 4 ∷ []
unfolding run_calls apply_call new add_node add_edge add_action set_has_sitemap
edges_of_first = refl

first_page : NodeRecord
first_page = record {
  page_type = home;
  confidence = 200;
  freshness = 0;
  flags = 0;
  content_hash = 0;
  rendered_at = 0;
  http_status = 0;
  depth = 0;
  inbound_count = 0;
  outbound_count = 0;
  feature_norm = 0;
  reserved = 0;
}

first_page_there : get_elem? pages.nodes 0 ≡ some first_page
unfolding run_calls apply_call new add_node add_edge add_action set_has_sitemap norm first_page
first_page_there = refl

fresh_page : (first_page.outbound_count ≡ 0) × (first_page.inbound_count ≡ 0)
unfolding first_page
fresh_page = (refl, refl)

degrees_example :
    (found : NodeRecord) × (get_elem? (build flat 5 pages).nodes 0 ≡ some found)
    × (found.outbound_count ≡ min (length (retain (λ ed. ed.source == 0) pages.edges)) (2 ^ 16 - 1))
    × (found.inbound_count
        ≡ min (length (retain (λ ed. ed.edge.target_node == 0) pages.edges)) (2 ^ 16 - 1))
degrees_example = degrees flat 5 pages 0 first_page first_page_there fresh_page.0 fresh_page.1

compute_clusters-IsClustering_example :
    IsClustering 2 1 (compute_clusters flat (blank ∷ blank ∷ []) 1)
compute_clusters-IsClustering_example =
    compute_clusters-IsClustering flat flat-IsSized (blank ∷ blank ∷ []) 1
      (blank-IsVector, (blank-IsVector, tt)) (omega arith) (omega arith) (omega arith)

abbrev public_hops : PathConstraints
public_hops = record { avoid_auth = true; avoid_state_changes = false; minimize = hops }

plus-IsCostAddition : IsCostAddition (λ a b. a + b)
plus-IsCostAddition = record { grows = λ a b. omega arith; mono = λ a b c h. omega arith }

page_count : length pages.nodes ≡ 2
unfolding run_calls apply_call new add_node add_edge add_action set_has_sitemap
page_count = refl

find_path-build_example :
    IsAnswer
      (λ a b. a + b)
      public_hops
      (build flat 5 pages)
      (edges_of pages)
      0
      1
      (find_path (λ a b. a + b) (build flat 5 pages) 0 1 public_hops)
find_path-build_example =
    find_path-build (λ a b. a + b) flat 5 pages public_hops 0 1 plus-IsCostAddition few_edges
      (omega (arith, page_count)) (omega (arith, page_count))
