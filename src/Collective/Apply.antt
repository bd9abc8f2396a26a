-- ===== src/Collective/Apply.antt =====
-- runtime/src/collective/delta.rs: a delta, applied to the map that it was computed from.
use agentic_vision.Prelude.{
  ℕ, suc, ◌+◌, ◌%◌, ◌^◌, ◌≡◌, ◌≤◌, ◌<◌, refl, sym, ap, ◌∙◌, some, List, [], ◌∷◌, ◌++◌, true, ltb,
  if◌then◌else◌, arith, length, get_elem?, get_or, modify, All, Bool-cases, inl, inr, length-append,
  append_assoc, lt→ltb,
}
use agentic_vision.Map.Types.{SiteMap}
use agentic_vision.Map.Bytes.{ok}
use agentic_vision.Map.Serializer.Fits.{IsVector}
use agentic_vision.Collective.Delta.{
  Outside, url_index, entry_of, changed_from, modified_node, modified_from, compute_delta, set_dims,
  apply_modified, apply_delta, at_time, with_features, with_header,
}

modify_middle :
    {A : Type 0} (f : A → A) (before : List A) (x : A) (after : List A)
    → modify (length before) f (before ++ x ∷ after) ≡ before ++ f x ∷ after
modify_middle f [] x after = refl
modify_middle f (b ∷ before) x after = ap (λ t. b ∷ t) (modify_middle f before x after)

get_elem?_middle :
    {A : Type 0} (before : List A) (x : A) (after : List A)
    → get_elem? (before ++ x ∷ after) (length before) ≡ some x
get_elem?_middle [] x after = refl
get_elem?_middle (b ∷ before) x after = get_elem?_middle before x after

get_or_middle :
    {A : Type 0} (before : List A) (x : A) (after : List A) (d : A)
    → get_or (before ++ x ∷ after) (length before) d ≡ x
get_or_middle [] x after d = refl
get_or_middle (b ∷ before) x after d = get_or_middle before x after d

-- One more in front.
shift_one :
    {A : Type 0} (before : List A) (x : A) (after : List A)
    → (before ++ x ∷ []) ++ after ≡ before ++ x ∷ after
shift_one before x after = append_assoc before (x ∷ []) after

length_one :
    {A : Type 0} (before : List A) (x : A) → length (before ++ x ∷ []) ≡ suc (length before)
length_one before x = omega (arith, length-append before (x ∷ []))

apply_changes :
    (before : List (List ℕ)) (old merged : List ℕ) (after : List (List ℕ)) (changes : List (ℕ × ℕ))
    (rest : List (ℕ × List (ℕ × ℕ)))
    → set_dims changes old ≡ ok merged
    → apply_modified (entry_of (length before) changes ++ rest) (before ++ old ∷ after)
      ≡ apply_modified rest (before ++ merged ∷ after)
unfolding apply_modified set_dims
apply_changes before old merged after [] rest e =
    let same : old ≡ merged = cc e in ap (λ t. apply_modified rest (before ++ t ∷ after)) same
apply_changes before old merged after (c ∷ cs) rest e =
    rw
      (
        apply_modified,
        get_elem?_middle before old after,
        e,
        modify_middle (λ t. merged) before old after,
      )
      refl

module _ (out : Outside) where
  -- The new value where the two differ, the old one where they do not.
  abbrev pub merge_vector : List ℕ → List ℕ → List ℕ
  merge_vector (o ∷ old) (v ∷ new) = (if out.differs v o then v else o) ∷ merge_vector old new
  merge_vector [] new = []
  merge_vector (o ∷ old) [] = o ∷ old

  abbrev pub merge_vectors : List (List ℕ) → List (List ℕ) → List (List ℕ)
  merge_vectors (o ∷ olds) (v ∷ news) = merge_vector o v ∷ merge_vectors olds news
  merge_vectors [] news = []
  merge_vectors (o ∷ olds) [] = o ∷ olds

  set_dims-changed_from :
      (before old new : List ℕ)
      → length before + length old ≤ 256
      → set_dims (changed_from out (length before) old new) (before ++ old)
        ≡ ok (before ++ merge_vector old new)
  unfolding changed_from set_dims
  set_dims-changed_from before [] new h = refl
  set_dims-changed_from before (o ∷ old) [] h = refl
  set_dims-changed_from before (o ∷ old) (v ∷ new) h = elim (Bool-cases (out.differs v o)) [
    | inl e ↦
        let dim = length before in
        let small : dim % 256 ≡ dim = omega arith in
        let inside : ltb dim (length (before ++ o ∷ old)) ≡ true =
          lt→ltb _ _ (omega (arith, length-append before (o ∷ old))) in
        let ih =
          set_dims-changed_from (before ++ v ∷ []) old new (omega (arith, length_one before v)) in
        let ih_here =
          rw
            (length_one before v, shift_one before v old, shift_one before v (merge_vector old new))
            at ih in
        rw (e, small, inside, modify_middle (λ t. v) before o old) ih_here
    | inr e ↦
        let ih =
          set_dims-changed_from (before ++ o ∷ []) old new (omega (arith, length_one before o)) in
        let ih_here =
          rw
            (length_one before o, shift_one before o old, shift_one before o (merge_vector old new))
            at ih in
        rw e ih_here
  ]

  set_dims_merges :
      (old new : List ℕ)
      → length old ≤ 256
      → set_dims (changed_from out 0 old new) old ≡ ok (merge_vector old new)
  set_dims_merges old new h = set_dims-changed_from [] old new (omega arith)

  -- The entries for URLs that stand at the same index in both maps.
  abbrev entries_from : ℕ → List (List ℕ) → List (List ℕ) → List (ℕ × List (ℕ × ℕ))
  entries_from idx (o ∷ olds) (v ∷ news) =
      entry_of idx (changed_from out 0 o v) ++ entries_from (suc idx) olds news
  entries_from idx [] news = []
  entries_from idx (o ∷ olds) [] = []

  apply_entries :
      (before olds news : List (List ℕ))
      → All IsVector olds
      → apply_modified (entries_from (length before) olds news) (before ++ olds)
        ≡ ok (before ++ merge_vectors olds news)
  unfolding apply_modified
  apply_entries before [] news h = refl
  apply_entries before (o ∷ olds) [] h = refl
  apply_entries before (o ∷ olds) (v ∷ news) h =
      let merged = merge_vector o v in
      let ih = apply_entries (before ++ merged ∷ []) olds news h.1 in
      let ih_here =
        rw
          (
            length_one before merged,
            shift_one before merged olds,
            shift_one before merged (merge_vectors olds news),
          )
          at ih in
      apply_changes before o merged olds (changed_from out 0 o v)
        (entries_from (suc (length before)) olds news)
        (set_dims_merges o v (omega (arith, h.0.dim)))
      ∙ ih_here

  -- Each URL is found at its own index.
  abbrev pub IsIndexed : ℕ → List (List ℕ) → List (List ℕ) → Type 0
  IsIndexed idx all [] = Unit
  IsIndexed idx all (url ∷ urls) = (url_index 0 url all ≡ some idx) × IsIndexed (suc idx) all urls

  modified_from_found :
      (old_map new_map : SiteMap) (idx old_idx : ℕ) (url : List ℕ) (urls : List (List ℕ))
      → url_index 0 url old_map.urls ≡ some old_idx
      → modified_from out old_map new_map idx (url ∷ urls)
        ≡ modified_node out old_map new_map old_idx idx
          ++ modified_from out old_map new_map (suc idx) urls
  unfolding modified_from
  modified_from_found old_map new_map idx old_idx url urls e = rw (modified_from, e) refl

  modified_node_lem :
      (old_map new_map : SiteMap) (idx old_idx : ℕ) (o v : List ℕ)
      → ltb idx (length new_map.features) ≡ true
      → ltb old_idx (length old_map.features) ≡ true
      → get_or old_map.features old_idx [] ≡ o
      → get_or new_map.features idx [] ≡ v
      → idx < 2 ^ 32
      → modified_node out old_map new_map old_idx idx ≡ entry_of idx (changed_from out 0 o v)
  unfolding modified_node
  modified_node_lem old_map new_map idx old_idx o v h k eo ev small =
      let index : idx % 2 ^ 32 ≡ idx = omega arith in simp (modified_node, h, k, eo, ev, index)

  modified_from_same :
      (old_map new_map : SiteMap) (before_old before_new olds news urls : List (List ℕ))
      → old_map.features ≡ before_old ++ olds
      → new_map.features ≡ before_new ++ news
      → length before_old ≡ length before_new
      → length olds ≡ length urls
      → length news ≡ length urls
      → length before_new + length urls ≤ 2 ^ 32
      → IsIndexed (length before_new) old_map.urls urls
      → modified_from out old_map new_map (length before_new) urls
        ≡ entries_from (length before_new) olds news
  unfolding modified_from
  modified_from_same old_map new_map bo bn [] news [] eo en size so sn small h = refl
  modified_from_same old_map new_map bo bn (o ∷ olds) news [] eo en size so sn small h =
      absurd (omega arith)
  modified_from_same old_map new_map bo bn [] news (url ∷ urls) eo en size so sn small h =
      absurd (omega arith)
  modified_from_same old_map new_map bo bn (o ∷ olds) [] (url ∷ urls) eo en size so sn small h =
      absurd (omega arith)
  modified_from_same old_map new_map bo bn (o ∷ olds) (v ∷ news) (url ∷ urls) eo en size so sn small
        h =
      let idx = length bn in
      let inside_old : ltb idx (length old_map.features) ≡ true =
        rw eo (lt→ltb _ _ (omega (arith, size, length-append bo (o ∷ olds)))) in
      let inside_new : ltb idx (length new_map.features) ≡ true =
        rw en (lt→ltb _ _ (omega (arith, length-append bn (v ∷ news)))) in
      let old_there : get_or old_map.features idx [] ≡ o =
        rw (eo, ← size) (get_or_middle bo o olds []) in
      let new_there : get_or new_map.features idx [] ≡ v = rw en (get_or_middle bn v news []) in
      let ih =
        modified_from_same old_map new_map (bo ++ o ∷ []) (bn ++ v ∷ []) olds news urls
          (eo ∙ sym (shift_one bo o olds)) (en ∙ sym (shift_one bn v news))
          (omega (arith, size, length_one bo o, length_one bn v)) (omega arith) (omega arith)
          (omega (arith, length_one bn v)) (rw (length_one bn v) h.1) in
      let ih_here = rw (length_one bn v) at ih in
      let node =
        modified_node_lem old_map new_map idx idx o v inside_new inside_old old_there new_there
          (omega arith) in
      modified_from_found old_map new_map idx idx url urls h.0 ∙ rw (node, ih_here) refl

  -- Between two versions of a map that list the same URLs in the same order, no URL twice, and at
  -- most 2^32 of them, applying the computed delta to the old version takes over each feature
  -- that differs by more than the threshold, keeps every other one, and sets the time.
  pub apply_delta-compute_delta :
      (now : ℕ) (old_map new_map : SiteMap) (instance_id : List ℕ)
      → new_map.urls ≡ old_map.urls
      → IsIndexed 0 old_map.urls old_map.urls
      → length old_map.features ≡ length old_map.urls
      → length new_map.features ≡ length new_map.urls
      → length new_map.urls ≤ 2 ^ 32
      → All IsVector old_map.features
      → apply_delta (compute_delta out now old_map new_map instance_id) old_map
        ≡ ok (
            with_header
              (at_time now old_map.header)
              (with_features (merge_vectors old_map.features new_map.features) old_map))
  unfolding apply_delta compute_delta
  apply_delta-compute_delta now old_map new_map instance_id same distinct so sn small vectors =
      let entries =
        modified_from_same old_map new_map [] [] old_map.features new_map.features new_map.urls refl
          refl refl (so ∙ ap length (sym same)) sn (omega arith) (rw same distinct) in
      simp (entries, apply_entries [] old_map.features new_map.features vectors)
