-- ===== src/Map/Build/Links.antt =====
-- The edges and the actions of a node in a map that `SiteMapBuilder::build` made
-- (runtime/src/map/builder.rs and reader.rs).
use agentic_vision.Prelude.{
  ℕ, suc, ◌+◌, ◌-◌, ◌^◌, ◌<◌, ◌≡◌, refl, ap, ◌∙◌, List, [], ◌∷◌, ◌++◌, map, true, leb, arith,
  length, retain, All, All-map, All-retain, All-anything, length-append, take-append_length,
  drop-append_length, length-map, le→leb, leb→le, leb_false→lt,
}
use agentic_vision.Prelude.Sort.{
  IsSorted, IsPreorder, sort_by, sort_by-IsSorted, retain-sort_by, sort_by_sorted, length-sort_by,
}
use agentic_vision.Map.Bytes.{ok}
use agentic_vision.Map.Build.{csr_index}
use agentic_vision.Map.Reader.{range, csr_slice}
use agentic_vision.Map.Build.Csr.{
  by_key, of_key, sorted_split, before, behind, length-before, length-of_key, smaller, smaller-suc,
  csr_index_entry,
}

map_append : {A B : Type 0} (f : A → B) (xs ys : List A) → map f (xs ++ ys) ≡ map f xs ++ map f ys
map_append f [] ys = refl
map_append f (x ∷ xs) ys = ap (λ t. f x ∷ t) (map_append f xs ys)

range_middle :
    {B : Type 0} (xs ys zs : List B) (start end : ℕ)
    → start ≡ length xs
    → end ≡ length xs + length ys
    → range (xs ++ (ys ++ zs)) start end ≡ ok ys
unfolding range
range_middle xs ys zs start end e f =
    let inside : leb end (length (xs ++ (ys ++ zs))) ≡ true =
      le→leb _ _ (omega (arith, length-append xs (ys ++ zs), length-append ys zs)) in
    let ordered : leb start end ≡ true = le→leb _ _ (omega arith) in
    let size : end - start ≡ length ys = omega arith in
    rw (ordered, inside, size, e, drop-append_length xs (ys ++ zs), take-append_length ys zs) refl

module _ {A B : Type 0} (key : A → ℕ) (val : A → B) where
  by_key-IsPreorder : IsPreorder (λ (x : A). Unit {0}) (by_key key)
  by_key-IsPreorder = record {
    total = λ a b pa pb e. le→leb _ _ (omega (arith, leb_false→lt _ _ e));
    trans = λ a b c pa pb pc e f. le→leb _ _ (omega (arith, leb→le _ _ e, leb→le _ _ f));
  }

  csr_slice_lem :
      (n i : ℕ) (xs : List A)
      → length xs < 2 ^ 32
      → i < n
      → IsSorted (by_key key) xs
      → csr_slice (map val xs) (csr_index n (map key xs)) i
        ≡ ok (map val (retain (of_key key i) xs))
  unfolding csr_slice
  csr_slice_lem n i xs fits h sorted =
      let keys = map key xs in
      let few : length keys < 2 ^ 32 = omega (arith, length-map key xs) in
      let first = retain (before key i) xs in
      let here = retain (of_key key i) xs in
      let last = retain (behind key i) xs in
      let parts : map val xs ≡ map val first ++ (map val here ++ map val last) =
        ap (map val) (sorted_split key i xs sorted)
        ∙ map_append val first (here ++ last)
        ∙ ap (λ t. map val first ++ t) (map_append val here last) in
      rw
        (
          csr_index_entry n keys few i (omega arith),
          csr_index_entry n keys few (suc i) (omega arith),
          parts,
        )
        (range_middle (map val first) (map val here) (map val last) (smaller i keys)
          (smaller (suc i) keys) (omega (arith, length-before key i xs, length-map val first))
          (omega (
            arith,
            length-before key i xs,
            length-map val first,
            length-map val here,
            length-of_key key i xs,
            smaller-suc i keys,
          )))

  -- Things of one key are sorted.
  one_key-IsSorted : (i : ℕ) (xs : List A) → All (λ x. key x ≡ i) xs → IsSorted (by_key key) xs
  one_key-IsSorted i [] h = tt
  one_key-IsSorted i (x ∷ xs) h =
      (All-map _ _ xs (λ y k. le→leb _ _ (omega (arith, h.0, k))) h.1, one_key-IsSorted i xs h.1)

  -- The sort leaves the things of one key in their order.
  of_key-sort_by :
      (i : ℕ) (xs : List A)
      → retain (of_key key i) (sort_by (by_key key) xs) ≡ retain (of_key key i) xs
  of_key-sort_by i xs =
      let kept = retain (of_key key i) xs in
      let same_key =
        All-map _ (λ x. key x ≡ i) kept (λ x k. ground (arith, k.1))
          (All-retain _ (of_key key i) xs (All-anything xs)) in
      retain-sort_by (by_key key) _ by_key-IsPreorder (of_key key i) xs (All-anything xs)
      ∙ sort_by_sorted (by_key key) kept (one_key-IsSorted i kept same_key)

  pub csr_slice-sort_by :
      (n i : ℕ) (xs : List A)
      → length xs < 2 ^ 32
      → i < n
      → csr_slice
          (map val (sort_by (by_key key) xs))
          (csr_index n (map key (sort_by (by_key key) xs)))
          i
        ≡ ok (map val (retain (of_key key i) xs))
  csr_slice-sort_by n i xs fits h =
      let sorted = sort_by (by_key key) xs in
      csr_slice_lem n i sorted (omega (arith, length-sort_by (by_key key) xs)) h
        (sort_by-IsSorted (by_key key) _ by_key-IsPreorder xs (All-anything xs))
      ∙ ap (λ t. ok (map val t)) (of_key-sort_by i xs)
