-- ===== src/Collective/Strip.antt =====
-- runtime/src/collective/delta.rs: `strip_private_data`, and what is left of a map after it.
pub mod Zeroed
use agentic_vision.Prelude.{
  ℕ, zero, suc, ◌+◌, ◌≡◌, ◌≤◌, ◌<◌, refl, sym, ◌∙◌, some, List, [], ◌∷◌, map, Bool, true, false,
  ◌||◌, ◌==◌, leb, if◌then◌else◌, arith, length, get_elem?, modify, replicate, Bool-cases, inl, inr,
  get_elem?-modify, get_elem?-map, get_elem?-lt, ==_refl,
}
use agentic_vision.Map.Types.{NodeRecord, SiteMap, feature_dim, is_auth_required}
use agentic_vision.Map.Paths.Walks.{mem}
use agentic_vision.Collective.Delta.{with_features}

abbrev pub zero_float : ℕ
zero_float = 0

-- `iter_mut().skip(from)`, each set to 0.0.
unfoldable pub zero_behind : ℕ → List ℕ → List ℕ
zero_behind left [] = []
zero_behind zero (f ∷ features) = zero_float ∷ zero_behind zero features
zero_behind (suc left) (f ∷ features) = f ∷ zero_behind left features

unfoldable pub strip_features : List ℕ → List ℕ
unfolding zero_behind
strip_features features =
    zero_behind 112 (modify 89 (λ old. zero_float) (modify 88 (λ old. zero_float) features))

-- The indexes of the nodes, from `i` on, that require authorization.
unfoldable pub auth_indices : ℕ → List NodeRecord → List ℕ
auth_indices i [] = []
auth_indices i (node ∷ nodes) =
    let rest = auth_indices (suc i) nodes in if is_auth_required node.flags then i ∷ rest else rest

unfoldable pub clear_at : List ℕ → List (List ℕ) → List (List ℕ)
clear_at [] features = features
clear_at (idx ∷ indices) features =
    clear_at indices (modify idx (λ old. replicate feature_dim zero_float) features)

unfoldable pub strip_private_data : SiteMap → SiteMap
unfolding strip_features auth_indices clear_at
strip_private_data site =
    with_features (clear_at (auth_indices 0 site.nodes) (map strip_features site.features)) site
