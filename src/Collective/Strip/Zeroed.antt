-- ===== src/Collective/Strip/Zeroed.antt =====
-- What `strip_private_data` of runtime/src/collective/delta.rs leaves of a map.
use agentic_vision.Prelude.{
  ℕ, zero, suc, ◌+◌, ◌≡◌, ◌≤◌, ◌<◌, refl, sym, ◌∙◌, some, List, [], ◌∷◌, map, Bool, true, false,
  ◌||◌, ◌==◌, leb, if◌then◌else◌, arith, length, get_elem?, modify, replicate, Bool-cases, inl, inr,
  get_elem?-modify, get_elem?-map, get_elem?-lt, ==_refl,
}
use agentic_vision.Map.Types.{NodeRecord, SiteMap, feature_dim, is_auth_required}
use agentic_vision.Map.Paths.Walks.{mem}
use agentic_vision.Collective.Strip.{
  zero_float, zero_behind, strip_features, auth_indices, clear_at, strip_private_data,
}

-- Dimensions that tell of a session or of the user.
abbrev pub is_private : ℕ → Bool
is_private dim = (dim == 88) || ((dim == 89) || leb 112 dim)

zero_behind_lem :
    (left : ℕ) (features : List ℕ) (dim f : ℕ)
    → get_elem? (zero_behind left features) dim ≡ some f
    → (left ≤ dim)
    → f ≡ zero_float
unfolding zero_behind
zero_behind_lem left [] dim f e h = absurd (cc e)
zero_behind_lem zero (x ∷ features) zero f e h = let same : zero_float ≡ f = cc e in sym same
zero_behind_lem zero (x ∷ features) (suc dim) f e h =
    zero_behind_lem zero features dim f e (omega arith)
zero_behind_lem (suc left) (x ∷ features) zero f e h = absurd (omega arith)
zero_behind_lem (suc left) (x ∷ features) (suc dim) f e h =
    zero_behind_lem left features dim f e (omega arith)

zero_behind_kept :
    (left : ℕ) (features : List ℕ) (dim : ℕ)
    → dim < left
    → get_elem? (zero_behind left features) dim ≡ get_elem? features dim
unfolding zero_behind
zero_behind_kept left [] dim h = refl
zero_behind_kept zero (x ∷ features) dim h = absurd (omega arith)
zero_behind_kept (suc left) (x ∷ features) zero h = refl
zero_behind_kept (suc left) (x ∷ features) (suc dim) h =
    zero_behind_kept left features dim (omega arith)

get_elem?-replicate : (n : ℕ) (a : ℕ) (i b : ℕ) → get_elem? (replicate n a) i ≡ some b → b ≡ a
get_elem?-replicate zero a i b e = absurd (cc e)
get_elem?-replicate (suc n) a zero b e = let same : a ≡ b = cc e in sym same
get_elem?-replicate (suc n) a (suc i) b e = get_elem?-replicate n a i b e

module _ {A : Type 0} where
  modify_here :
      (i : ℕ) (f : A → A) (xs : List A) (y : A)
      → get_elem? (modify i f xs) i ≡ some y
      → (x : A) × (get_elem? xs i ≡ some x) × (y ≡ f x)
  modify_here i f [] y e = absurd (cc e)
  modify_here zero f (x ∷ xs) y e = (x, refl, cc e)
  modify_here (suc i) f (x ∷ xs) y e = modify_here i f xs y e

  modify_there :
      (i j : ℕ) (f : A → A) (xs : List A)
      → (i == j) ≡ false
      → get_elem? (modify i f xs) j ≡ get_elem? xs j
  modify_there i j f [] h = refl
  modify_there zero zero f (x ∷ xs) h = absurd (cc h)
  modify_there zero (suc j) f (x ∷ xs) h = refl
  modify_there (suc i) zero f (x ∷ xs) h = refl
  modify_there (suc i) (suc j) f (x ∷ xs) h = modify_there i j f xs (ground (arith, h))

strip_features_zero :
    (features : List ℕ) (dim f : ℕ)
    → is_private dim ≡ true
    → get_elem? (strip_features features) dim ≡ some f
    → f ≡ zero_float
unfolding strip_features
strip_features_zero features dim f h e =
    let one = modify 88 (λ (old : ℕ). zero_float) features in
    let two = modify 89 (λ (old : ℕ). zero_float) one in
    elim (Bool-cases (leb 112 dim)) [
      | inl k ↦ zero_behind_lem 112 two dim f e (ground (arith, k))
      | inr k ↦
          let kept : get_elem? two dim ≡ some f =
            sym (zero_behind_kept 112 two dim (ground (arith, k))) ∙ e in
          elim (Bool-cases (dim == 89)) [
            | inl m ↦
                let at_89 : dim ≡ 89 = ground (arith, m) in
                (modify_here 89 (λ (old : ℕ). zero_float) one f (rw at_89 at kept)).2
            | inr m ↦
                let at_88 : dim ≡ 88 = ground (arith, m, k, h) in
                let other : (89 == 88) ≡ false = refl in
                let kept_88 : get_elem? two 88 ≡ some f = rw at_88 at kept in
                (modify_here 88 (λ (old : ℕ). zero_float) features f
                  (sym (modify_there 89 88 (λ (old : ℕ). zero_float) one other) ∙ kept_88)).2
          ]
    ]

strip_features_kept :
    (features : List ℕ) (dim : ℕ)
    → is_private dim ≡ false
    → get_elem? (strip_features features) dim ≡ get_elem? features dim
unfolding strip_features
strip_features_kept features dim h =
    let one = modify 88 (λ (old : ℕ). zero_float) features in
    let two = modify 89 (λ (old : ℕ). zero_float) one in
    zero_behind_kept 112 two dim (ground (arith, h))
    ∙ modify_there 89 dim (λ (old : ℕ). zero_float) one (ground (arith, h))
    ∙ modify_there 88 dim (λ (old : ℕ). zero_float) features (ground (arith, h))

zero_behind_total :
    (left : ℕ) (features : List ℕ) (dim f : ℕ)
    → get_elem? features dim ≡ some f
    → (g : ℕ) × (get_elem? (zero_behind left features) dim ≡ some g)
unfolding zero_behind
zero_behind_total left [] dim f e = absurd (cc e)
zero_behind_total zero (x ∷ features) zero f e = (zero_float, refl)
zero_behind_total zero (x ∷ features) (suc dim) f e = zero_behind_total zero features dim f e
zero_behind_total (suc left) (x ∷ features) zero f e = (x, refl)
zero_behind_total (suc left) (x ∷ features) (suc dim) f e = zero_behind_total left features dim f e

-- A dimension of the features after the strip.
strip_features_lem :
    (features : List ℕ) (dim f : ℕ)
    → get_elem? features dim ≡ some f
    → get_elem? (strip_features features) dim ≡ some (if is_private dim then zero_float else f)
unfolding strip_features
strip_features_lem features dim f e = elim (Bool-cases (is_private dim)) [
  | inl h ↦
      let one = get_elem?-modify 88 (λ (old : ℕ). zero_float) features dim f e in
      let two =
        get_elem?-modify 89 (λ (old : ℕ). zero_float) (modify 88 (λ (old : ℕ). zero_float) features)
          dim _ one in
      let (g, at_dim) = zero_behind_total 112 _ dim _ two in
      let is_zero : g ≡ zero_float = strip_features_zero features dim g h at_dim in
      at_dim ∙ rw (h, is_zero) refl
  | inr h ↦ strip_features_kept features dim h ∙ e ∙ rw h refl
]

abbrev cleared : List ℕ
cleared = replicate feature_dim zero_float

clear_at_lem :
    (indices : List ℕ) (features : List (List ℕ)) (i : ℕ) (feats : List ℕ)
    → get_elem? features i ≡ some feats
    → get_elem? (clear_at indices features) i ≡ some (if mem i indices then cleared else feats)
unfolding clear_at
clear_at_lem [] features i feats e = e
clear_at_lem (idx ∷ indices) features i feats e =
    let next = get_elem?-modify idx (λ (old : List ℕ). cleared) features i feats e in
    let ih = clear_at_lem indices (modify idx (λ old. cleared) features) i _ next in
    elim (Bool-cases (idx == i)) [
      | inl h ↦
          let here : (i == idx) ≡ true = ground (arith, h) in
          elim (Bool-cases (mem i indices)) [
            | inl m ↦ rw (h, m) at ih ∙ rw here refl
            | inr m ↦ rw (h, m) at ih ∙ rw here refl
          ]
      | inr h ↦ let apart : (i == idx) ≡ false = ground (arith, h) in ih ∙ rw (h, apart) refl
    ]

-- The indices are those of the nodes.
not_before : (nodes : List NodeRecord) (i k : ℕ) → i < k → mem i (auth_indices k nodes) ≡ false
unfolding auth_indices
not_before [] i k h = refl
not_before (node ∷ nodes) i k h = elim (Bool-cases (is_auth_required node.flags)) [
  | inl e ↦
      let apart : (i == k) ≡ false = ground arith in
      rw (e, apart) (not_before nodes i (suc k) (omega arith))
  | inr e ↦ rw e (not_before nodes i (suc k) (omega arith))
]

auth_indices_lem :
    (nodes : List NodeRecord) (k j : ℕ) (node : NodeRecord)
    → get_elem? nodes j ≡ some node
    → mem (k + j) (auth_indices k nodes) ≡ is_auth_required node.flags
unfolding auth_indices
auth_indices_lem [] k j node e = absurd (cc e)
auth_indices_lem (x ∷ nodes) k zero node e =
    let same : x ≡ node = cc e in
    let at_k : k + 0 ≡ k = omega arith in
    elim (Bool-cases (is_auth_required x.flags)) [
      | inl a ↦ rw (at_k, a, ==_refl k, ← same, a) refl
      | inr a ↦ rw (at_k, a, ← same, a) (not_before nodes k (suc k) (omega arith))
    ]
auth_indices_lem (x ∷ nodes) k (suc j) node e =
    let shift : k + suc j ≡ suc k + j = omega arith in
    let apart : (suc k + j == k) ≡ false = ground arith in
    let ih = auth_indices_lem nodes (suc k) j node e in
    elim (Bool-cases (is_auth_required x.flags)) [
      | inl a ↦ rw (shift, a, apart) ih
      | inr a ↦ rw (shift, a) ih
    ]

-- A dimension of a node after the strip.
abbrev pub stripped_value : NodeRecord → ℕ → ℕ → ℕ
stripped_value node dim f =
    if is_auth_required node.flags then zero_float else if is_private dim then zero_float else f

replicate_at : (n a i : ℕ) → i < n → get_elem? (replicate n a) i ≡ some a
replicate_at zero a i h = absurd (omega arith)
replicate_at (suc n) a zero h = refl
replicate_at (suc n) a (suc i) h = replicate_at n a i (omega arith)

-- After strip_private_data every feature of a node that requires authorization is zero; of any
-- other node the features 88, 89 and from 112 on are zero, and the rest is as it was.
pub strip_private_data_lem :
    (site : SiteMap) (i : ℕ) (node : NodeRecord) (feats : List ℕ)
    → get_elem? site.nodes i ≡ some node
    → get_elem? site.features i ≡ some feats
    → length feats ≡ feature_dim
    → (stripped : List ℕ) × (get_elem? (strip_private_data site).features i ≡ some stripped)
      × ((dim f : ℕ)
          → get_elem? feats dim ≡ some f
          → get_elem? stripped dim ≡ some (stripped_value node dim f))
unfolding strip_private_data
strip_private_data_lem site i node feats at_node at_feats size =
    let zero_i : 0 + i ≡ i = omega arith in
    let auth : mem i (auth_indices 0 site.nodes) ≡ is_auth_required node.flags =
      let found = auth_indices_lem site.nodes 0 i node at_node in rw zero_i at found in
    let there =
      clear_at_lem (auth_indices 0 site.nodes) (map strip_features site.features) i
        (strip_features feats) (get_elem?-map strip_features site.features i feats at_feats) in
    elim (Bool-cases (is_auth_required node.flags)) [
      | inl a ↦ (
        cleared,
        there ∙ rw (auth, a) refl,
        λ dim f e. rw a (
            replicate_at feature_dim zero_float dim
              (omega (arith, size, get_elem?-lt feats dim f e))),
      )
      | inr a ↦ (
        strip_features feats,
        there ∙ rw (auth, a) refl,
        λ dim f e. rw a (strip_features_lem feats dim f e),
      )
    ]
