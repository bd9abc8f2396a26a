-- ===== src/Map/Queries.antt =====
-- runtime/src/map/reader.rs: `filter`, and the types of a query.
pub mod Selected
pub mod Bits
pub mod Criteria
pub mod Filtered
pub mod Examples
use agentic_vision.Prelude.{
  ◌^◌, ℕ, zero, suc, ◌+◌, ◌*◌, ◌/◌, ◌%◌, Option, none, some, List, [], ◌∷◌, Bool, true, false, not,
  ◌&&◌, ◌||◌, ◌==◌, ltb, leb, if◌then◌else◌, length, take, get_or,
}
use agentic_vision.Prelude.Sort.{sort_by}
use agentic_vision.Map.Kinds.{PageType, page_code}
use agentic_vision.Map.Types.{NodeRecord, SiteMap, feature_dim}
use agentic_vision.Map.Bytes.{Loaded, ok, ◌>>=◌}
use agentic_vision.Map.Floats.{Floats}
use agentic_vision.Map.Reader.{at}

pub record FeatureRange : Type 0 where
  pub dimension : ℕ
  pub min : Option ℕ
  pub max : Option ℕ

pub record NodeQuery : Type 0 where
  pub page_types : Option (List PageType)
  pub feature_ranges : List FeatureRange
  pub require_flags : Option ℕ
  pub exclude_flags : Option ℕ
  pub sort_by_feature : Option ℕ
  pub sort_ascending : Bool
  pub limit : ℕ

pub record NodeMatch : Type 0 where
  pub index : ℕ
  pub url : List ℕ
  pub page_type : PageType
  pub confidence : ℕ
  pub features : List (ℕ × ℕ)
  pub similarity : Option ℕ

-- The `w` low bits of `a & b`.
unfoldable pub bit_and : ℕ → ℕ → ℕ → ℕ
bit_and zero a b = 0
bit_and (suc w) a b = (a % 2) * (b % 2) + 2 * bit_and w (a / 2) (b / 2)

-- `types.contains(page_type)`.
unfoldable pub contains_type : List PageType → PageType → Bool
contains_type [] t = false
contains_type (u ∷ us) t = (page_code u == page_code t) || contains_type us t

unfoldable pub of_other_type : Option (List PageType) → PageType → Bool
of_other_type none t = false
of_other_type (some types) t = not (contains_type types t)

unfoldable pub lacks_flags : Option ℕ → ℕ → Bool
lacks_flags none flags = false
lacks_flags (some req) flags = not (bit_and 8 flags req == req)

unfoldable pub has_excluded : Option ℕ → ℕ → Bool
has_excluded none flags = false
has_excluded (some exc) flags = not (bit_and 8 flags exc == 0)

-- The features of the ranges, for the result.
unfoldable pub key_features : List FeatureRange → List ℕ → Loaded (List (ℕ × ℕ))
key_features [] features = ok []
key_features (range ∷ ranges) features =
    let rest = key_features ranges features in
    if ltb range.dimension feature_dim
    then (do val ← at features range.dimension; others ← rest; ok ((range.dimension, val) ∷ others))
    else rest

module _ (ops : Floats) where
  -- `val < min`, if there is a `min`.
  unfoldable pub is_below : ℕ → Option ℕ → Bool
  is_below val none = false
  is_below val (some min) = ops.lt val min

  unfoldable pub is_above : ℕ → Option ℕ → Bool
  is_above val none = false
  is_above val (some max) = ops.lt max val

  -- The loop over the ranges, with its `skip`.
  unfoldable pub is_outside : List FeatureRange → List ℕ → Loaded Bool
  is_outside [] features = ok false
  is_outside (range ∷ ranges) features =
      let rest = is_outside ranges features in
      if leb feature_dim range.dimension then rest else (do
        val ← at features range.dimension
        if is_below val range.min || is_above val range.max then ok true else rest)

  -- What is pushed for a node that passes the tests.
  unfoldable pub node_match :
      SiteMap → NodeQuery → ℕ → NodeRecord → List ℕ → Loaded (Option NodeMatch)
  node_match site query i node features = do
    key ← key_features query.feature_ranges features
    url ← at site.urls i
    ok (
        some (record {
          index = i % 2 ^ 32;
          url = url;
          page_type = node.page_type;
          confidence = ops.div (ops.from_u32 node.confidence) (ops.from_u32 255);
          features = key;
          similarity = none;
        }))

  -- One round of the loop over the nodes.
  unfoldable pub examine : SiteMap → NodeQuery → ℕ → NodeRecord → Loaded (Option NodeMatch)
  examine site query i node = if of_other_type query.page_types node.page_type then ok none else (do
    features ← at site.features i
    skip ← is_outside query.feature_ranges features
    if skip
          || lacks_flags query.require_flags node.flags
          || has_excluded query.exclude_flags node.flags
        then ok none
        else node_match site query i node features)

  unfoldable pub filter_from : SiteMap → NodeQuery → ℕ → List NodeRecord → Loaded (List NodeMatch)
  filter_from site query i [] = ok []
  filter_from site query i (node ∷ nodes) = do
    found ← examine site query i node
    rest ← filter_from site query (suc i) nodes
    ok (elim found [ none ↦ rest | some m ↦ m ∷ rest ])

  -- `self.features[a.index][sort_dim]`: a result has the index of a vector that was read.
  abbrev pub sort_key : SiteMap → ℕ → NodeMatch → ℕ
  sort_key site dim m = get_or (get_or site.features m.index []) dim ops.zero

  -- The comparator does not answer `Greater`.
  unfoldable pub match_order : SiteMap → ℕ → Bool → NodeMatch → NodeMatch → Bool
  match_order site dim ascending a b =
      if ascending
      then not (ops.lt (sort_key site dim b) (sort_key site dim a))
      else not (ops.lt (sort_key site dim a) (sort_key site dim b))

  unfoldable pub sort_matches : SiteMap → NodeQuery → List NodeMatch → List NodeMatch
  sort_matches site query results = elim query.sort_by_feature [
    | none ↦ results
    | some dim ↦
        if ltb dim feature_dim
        then sort_by (match_order site dim query.sort_ascending) results
        else results
  ]

  unfoldable pub filter : SiteMap → NodeQuery → Loaded (List NodeMatch)
  filter site query = do
    found ← filter_from site query 0 site.nodes
    let results = sort_matches site query found
    ok (
        if ltb 0 query.limit && ltb query.limit (length results)
        then take query.limit results
        else results)
