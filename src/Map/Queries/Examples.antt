-- ===== src/Map/Queries/Examples.antt =====
-- The queries of runtime/src/map/reader.rs at concrete inputs.
use mathlib.Core.List.{Perm}
use agentic_vision.Prelude.{
  false, ◌↔◌, get_or, ℕ, ◌≡◌, refl, none, some, List, [], ◌∷◌, ◌++◌, true, not, ◌==◌, ltb, arith,
  length, replicate, map,
}
use agentic_vision.Prelude.Sort.{sort_by, IsPreorder, Pairwise}
use agentic_vision.Map.Kinds.{PageType, home, article, page_code}
use agentic_vision.Map.Types.{NodeRecord, SiteMap, feature_dim, sitemap_magic}
use agentic_vision.Map.Bytes.{ok}
use agentic_vision.Map.Floats.{Floats}
use agentic_vision.Map.Builder.{norm, sum_squares}
use agentic_vision.Map.Queries.{
  NodeQuery, NodeMatch, filter, filter_from, examine, of_other_type, contains_type, is_outside,
  is_below, is_above, lacks_flags, bit_and, has_excluded, node_match, key_features, sort_matches,
  match_order,
}
use agentic_vision.Map.Queries.Filtered.{filter_best, IsInOrder}
use agentic_vision.Map.Queries.Criteria.{IsSelected}
use agentic_vision.Map.Queries.Selected.{all_matches, meets}
use agentic_vision.Map.Nearest.{nearest}
use agentic_vision.Map.Nearest.Ranked.{nearest_best, scores, scored_match}

-- Numbers that are their own bit patterns.
abbrev whole : Floats
whole = record {
  zero = 0;
  is_zero = λ a. a == 0;
  minus_one = 0;
  largest = 0;
  add = λ a b. 1;
  sub = λ a b. 0;
  mul = λ a b. 1;
  div = λ a b. a;
  sqrt = λ a. 1;
  lt = ltb;
  from_u32 = λ n. n;
  root_of_tenth = λ n. 0;
}

whole-IsPreorder : IsPreorder (λ n. Unit {0}) (λ a b. not (whole.lt b a))
whole-IsPreorder = record {
  total = λ a b pa pb h. ground arith;
  trans = λ a b c pa pb pc h k. ground arith;
}

abbrev node : PageType → NodeRecord
node page_type = record {
  page_type = page_type;
  confidence = 255;
  freshness = 255;
  flags = 1;
  content_hash = 0;
  rendered_at = 0;
  http_status = 200;
  depth = 0;
  inbound_count = 0;
  outbound_count = 0;
  feature_norm = 1;
  reserved = 0;
}

-- Three pages, of features that are 1, 3 and 2.
abbrev three_pages : SiteMap
three_pages = record {
  header = record {
    magic = sitemap_magic;
    format_version = 1;
    domain = [];
    mapped_at = 1;
    node_count = 3;
    edge_count = 0;
    cluster_count = 0;
    flags = 0;
  };
  nodes = node home ∷ node article ∷ node article ∷ [];
  edges = [];
  edge_index = 0 ∷ 0 ∷ 0 ∷ 0 ∷ [];
  features = replicate feature_dim 1 ∷ replicate feature_dim 3 ∷ replicate feature_dim 2 ∷ [];
  actions = [];
  action_index = 0 ∷ 0 ∷ 0 ∷ 0 ∷ [];
  cluster_assignments = 0 ∷ 0 ∷ 0 ∷ [];
  cluster_centroids = [];
  urls = (0x68 ∷ []) ∷ (0x61 ∷ []) ∷ (0x62 ∷ []) ∷ [];
}

-- The article with the least first feature.
abbrev least_article : NodeQuery
least_article = record {
  page_types = some (article ∷ []);
  feature_ranges = (record { dimension = 0; min = some 1; max = none }) ∷ [];
  require_flags = some 1;
  exclude_flags = some 2;
  sort_by_feature = some 0;
  sort_ascending = true;
  limit = 1;
}

abbrev least_match : NodeMatch
least_match = record {
  index = 2;
  url = 0x62 ∷ [];
  page_type = article;
  confidence = 255;
  features = (0, 2) ∷ [];
  similarity = none;
}

least_found : filter whole three_pages least_article ≡ ok (least_match ∷ [])
unfolding filter filter_from examine of_other_type contains_type page_code is_outside is_below
    is_above lacks_flags bit_and has_excluded node_match key_features sort_matches sort_by
    match_order
least_found = refl

filter_best_example :
    (answer : List NodeMatch) × (left_out : List NodeMatch) × (filter whole three_pages
        least_article
      ≡ ok answer)
    × (length answer ≡ 1)
    × Perm (answer ++ left_out) (all_matches whole three_pages least_article 0 three_pages.nodes)
    × Pairwise (IsInOrder whole three_pages least_article (some 0) true) (answer ++ left_out)
    × ((i : ℕ) (node : NodeRecord)
        → (meets whole three_pages least_article (i, node) ≡ true)
          ↔ IsSelected whole least_article (get_or three_pages.features i []) node)
unfolding of_other_type contains_type page_code is_below is_above lacks_flags bit_and has_excluded
filter_best_example =
    filter_best whole three_pages least_article whole-IsPreorder (λ i dim. tt)
      (refl, (refl, (refl, tt))) refl refl (omega arith) (omega arith)

toward : norm whole (1 ∷ []) ≡ 1
unfolding norm sum_squares
toward = refl

nearest_best_example :
    (best : List (ℕ × ℕ)) × (farther : List (ℕ × ℕ)) × (nearest whole three_pages (1 ∷ []) 2
      ≡ ok (map (scored_match whole three_pages (node home)) best))
    × (length best ≡ 2)
    × Perm (best ++ farther) (scores whole three_pages (node home) (1 ∷ []) 0 three_pages.features)
    × Pairwise (λ a b. whole.lt a.1 b.1 ≡ false) (best ++ farther)
nearest_best_example =
    nearest_best whole three_pages (node home) whole-IsPreorder (1 ∷ []) 2 (rw toward refl) refl
      refl (omega arith) (tt, (tt, (tt, tt)))
