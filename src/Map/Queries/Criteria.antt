-- ===== src/Map/Queries/Criteria.antt =====
-- The criteria of a query of runtime/src/map/reader.rs, as relations between the query and a node.
use agentic_vision.Prelude.{
  ℕ, ◌^◌, ◌≡◌, ◌≤◌, ◌<◌, ◌↔◌, ◌⊎◌, refl, ap, ◌∙◌, sym, inl, inr, Option, none, some, List, [], ◌∷◌,
  Bool, true, false, not, ◌&&◌, ◌||◌, ◌==◌, ==_iff, ==_refl, leb, leb→le, le→leb, get_or, All,
  Bool-cases,
}
use agentic_vision.Map.Kinds.{PageType, page_code, page_type_from_u8, page_type_from_u8-page_code}
use agentic_vision.Map.Types.{NodeRecord, SiteMap, feature_dim}
use agentic_vision.Map.Floats.{Floats}
use agentic_vision.Map.Queries.{
  FeatureRange, NodeQuery, bit_and, contains_type, of_other_type, lacks_flags, has_excluded,
  is_below, is_above,
}
use agentic_vision.Map.Queries.Bits.{HasBits, HasNoBits, HasBits-iff, HasNoBits-iff}
use agentic_vision.Map.Queries.Selected.{is_in_range, is_in_ranges, meets}

-- The type is one of the list; without a list, any type will do.
abbrev pub IsOneOf : List PageType → PageType → Type 0
IsOneOf [] t = ⊥
IsOneOf (u ∷ us) t = (u ≡ t) ⊎ IsOneOf us t

abbrev pub IsWantedType : Option (List PageType) → PageType → Type 0
IsWantedType none t = Unit
IsWantedType (some types) t = IsOneOf types t

abbrev pub HasRequired : Option ℕ → ℕ → Type 0
HasRequired none flags = Unit
HasRequired (some req) flags = HasBits 8 flags req

abbrev pub HasNoExcluded : Option ℕ → ℕ → Type 0
HasNoExcluded none flags = Unit
HasNoExcluded (some exc) flags = HasNoBits 8 flags exc

-- Flags are a byte.
abbrev pub IsByteOrNone : Option ℕ → Type 0
IsByteOrNone none = Unit
IsByteOrNone (some flags) = flags < 2 ^ 8

same_code : (u t : PageType) → page_code u ≡ page_code t → u ≡ t
same_code u t e =
    sym (page_type_from_u8-page_code u) ∙ (ap page_type_from_u8 e ∙ page_type_from_u8-page_code t)

or_right : (p q : Bool) → q ≡ true → (p || q) ≡ true
or_right true q h = refl
or_right false q h = h

contains_type_iff : (us : List PageType) (t : PageType) → (contains_type us t ≡ true) ↔ IsOneOf us t
unfolding contains_type
contains_type_iff [] t = (λ e. cc e, λ h. absurd h)
contains_type_iff (u ∷ us) t = (
  λ h. elim (Bool-cases (page_code u == page_code t)) [
    | inl e ↦ inl (same_code u t ((==_iff (page_code u) (page_code t)).0 e))
    | inr e ↦ inr ((contains_type_iff us t).0 (rw e at h))
  ],
  λ h. elim h [
    | inl k ↦ rw (k, ==_refl (page_code t)) refl
    | inr k ↦ or_right _ _ ((contains_type_iff us t).1 k)
  ],
)

-- Each of the four tests of a round passes.
passes_iff :
    {A B C D : Type 0} (a b c d : Bool)
    → ((not a ≡ true) ↔ A)
    → ((b ≡ true) ↔ B)
    → ((not c ≡ true) ↔ C)
    → ((not d ≡ true) ↔ D)
    → ((not a && b && not c && not d) ≡ true) ↔ (A × B × C × D)
passes_iff true b c d f g h k = (λ e. absurd (cc e), λ (x, y, z, w). cc (f.1 x))
passes_iff false false c d f g h k = (λ e. absurd (cc e), λ (x, y, z, w). cc (g.1 y))
passes_iff false true true d f g h k = (λ e. absurd (cc e), λ (x, y, z, w). cc (h.1 z))
passes_iff false true false true f g h k = (λ e. absurd (cc e), λ (x, y, z, w). cc (k.1 w))
passes_iff false true false false f g h k =
    (λ e. (f.0 refl, g.0 refl, h.0 refl, k.0 refl), λ t. refl)

not_iff : (b : Bool) → (not b ≡ true) ↔ (b ≡ false)
not_iff true = (λ e. cc e, λ e. cc e)
not_iff false = (λ e. refl, λ e. refl)

not-not_iff : (b : Bool) → (not (not b) ≡ true) ↔ (b ≡ true)
not-not_iff true = (λ e. refl, λ e. refl)
not-not_iff false = (λ e. cc e, λ e. cc e)

of_other_type_iff :
    (types : Option (List PageType)) (t : PageType)
    → (not (of_other_type types t) ≡ true) ↔ IsWantedType types t
unfolding of_other_type
of_other_type_iff none t = (λ e. tt, λ h. refl)
of_other_type_iff (some types) t =
    let (to, from) = not-not_iff (contains_type types t) in
    let (mean, say) = contains_type_iff types t in (λ e. mean (to e), λ h. from (say h))

lacks_flags_iff :
    (req : Option ℕ) (flags : ℕ)
    → IsByteOrNone req
    → (not (lacks_flags req flags) ≡ true) ↔ HasRequired req flags
unfolding lacks_flags
lacks_flags_iff none flags small = (λ e. tt, λ h. refl)
lacks_flags_iff (some req) flags small =
    let (to, from) = not-not_iff (bit_and 8 flags req == req) in
    let (mean, say) = HasBits-iff 8 flags req small in
    let same = ==_iff (bit_and 8 flags req) req in
    (λ e. mean (same.0 (to e)), λ h. from (same.1 (say h)))

has_excluded_iff :
    (exc : Option ℕ) (flags : ℕ) → (not (has_excluded exc flags) ≡ true) ↔ HasNoExcluded exc flags
unfolding has_excluded
has_excluded_iff none flags = (λ e. tt, λ h. refl)
has_excluded_iff (some exc) flags =
    let (to, from) = not-not_iff (bit_and 8 flags exc == 0) in
    let (mean, say) = HasNoBits-iff 8 flags exc in
    let same = ==_iff (bit_and 8 flags exc) 0 in
    (λ e. mean (same.0 (to e)), λ h. from (same.1 (say h)))

module _ (ops : Floats) where
  abbrev pub IsAtLeast : ℕ → Option ℕ → Type 0
  IsAtLeast val none = Unit
  IsAtLeast val (some min) = ops.lt val min ≡ false

  abbrev pub IsAtMost : ℕ → Option ℕ → Type 0
  IsAtMost val none = Unit
  IsAtMost val (some max) = ops.lt max val ≡ false

  -- The feature lies between the two bounds, or no vector has the dimension.
  abbrev pub IsInRange : List ℕ → FeatureRange → Type 0
  IsInRange vector r =
      (feature_dim ≤ r.dimension)
      ⊎ (IsAtLeast (get_or vector r.dimension 0) r.min
          × IsAtMost (get_or vector r.dimension 0) r.max)

  bounds_iff :
      (val : ℕ) (min max : Option ℕ)
      → (not (is_below ops val min || is_above ops val max) ≡ true)
        ↔ (IsAtLeast val min × IsAtMost val max)
  unfolding is_below is_above
  bounds_iff val none none = (λ e. (tt, tt), λ h. refl)
  bounds_iff val none (some max) =
      let (to, from) = not_iff (ops.lt max val) in (λ e. (tt, to e), λ h. from h.1)
  bounds_iff val (some min) none = elim (Bool-cases (ops.lt val min)) [
    | inl k ↦ (λ e. absurd (cc (rw k at e)), λ h. cc h.0)
    | inr k ↦ (λ e. (k, tt), λ h. rw k refl)
  ]
  bounds_iff val (some min) (some max) = elim (Bool-cases (ops.lt val min)) [
    | inl k ↦ (λ e. absurd (cc (rw k at e)), λ h. cc h.0)
    | inr k ↦
        let (to, from) = not_iff (ops.lt max val) in
        (λ e. (k, to (rw k at e)), λ h. rw k (from h.1))
  ]

  is_in_range_iff :
      (vector : List ℕ) (r : FeatureRange) → (is_in_range ops vector r ≡ true) ↔ IsInRange vector r
  is_in_range_iff vector r =
      let (to, from) = bounds_iff (get_or vector r.dimension 0) r.min r.max in
      elim (Bool-cases (leb feature_dim r.dimension)) [
        | inl k ↦ (λ e. inl (leb→le feature_dim r.dimension k), λ h. rw k refl)
        | inr k ↦ (
          λ e. inr (to (rw k at e)),
          λ h. elim h [
            | inl j ↦ rw (le→leb feature_dim r.dimension j) refl
            | inr j ↦ rw k (from j)
          ],
        )
      ]

  is_in_ranges_iff :
      (ranges : List FeatureRange) (vector : List ℕ)
      → (is_in_ranges ops ranges vector ≡ true) ↔ All (IsInRange vector) ranges
  is_in_ranges_iff [] vector = (λ e. tt, λ h. refl)
  is_in_ranges_iff (r ∷ ranges) vector =
      let (to, from) = is_in_range_iff vector r in
      let (mean, say) = is_in_ranges_iff ranges vector in
      elim (Bool-cases (is_in_range ops vector r)) [
        | inl k ↦ (λ e. (to k, mean (rw k at e)), λ h. rw k (say h.1))
        | inr k ↦ (λ e. absurd (cc (rw k at e)), λ h. cc (k, from h.0))
      ]

  -- The node, with its vector, is what the query asks for.
  abbrev pub IsSelected : NodeQuery → List ℕ → NodeRecord → Type 0
  IsSelected query vector node =
      IsWantedType query.page_types node.page_type
      × All (IsInRange vector) query.feature_ranges
      × HasRequired query.require_flags node.flags
      × HasNoExcluded query.exclude_flags node.flags

  pub meets_iff :
      (site : SiteMap) (query : NodeQuery)
      → IsByteOrNone query.require_flags
      → (i : ℕ) (node : NodeRecord)
      → (meets ops site query (i, node) ≡ true) ↔ IsSelected query (get_or site.features i []) node
  meets_iff site query small i node =
      passes_iff _ _ _ _ (of_other_type_iff query.page_types node.page_type)
        (is_in_ranges_iff query.feature_ranges (get_or site.features i []))
        (lacks_flags_iff query.require_flags node.flags small)
        (has_excluded_iff query.exclude_flags node.flags)
