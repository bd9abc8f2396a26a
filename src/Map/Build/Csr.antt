-- ===== src/Map/Build/Csr.antt =====
-- The indexes of runtime/src/map/builder.rs: over things that are sorted by key, the two entries of
-- a key cut out the things of that key.
use agentic_vision.Prelude.{
  ℕ, zero, suc, ◌+◌, ◌%◌, ◌^◌, ◌≤◌, ◌<◌, ◌≡◌, refl, sym, ap, ◌∙◌, List, [], ◌∷◌, ◌++◌, map, Bool,
  true, false, ◌==◌, leb, ltb, if◌then◌else◌, arith, length, replicate, get_or, modify, retain, All,
  All-map, Bool-cases, inl, inr, length-modify, length-replicate,
}
use agentic_vision.Prelude.Sort.{IsSorted}
use agentic_vision.Map.Bytes.{ok}
use agentic_vision.Map.Build.{count_keys, prefix_sums, csr_index}
use agentic_vision.Map.Reader.{at}

get_or-modify :
    (k : ℕ) (f : ℕ → ℕ) (xs : List ℕ) (i : ℕ)
    → i < length xs
    → get_or (modify k f xs) i 0 ≡ (if k == i then f (get_or xs i 0) else get_or xs i 0)
get_or-modify k f [] i h = absurd (omega arith)
get_or-modify zero f (x ∷ xs) zero h = refl
get_or-modify zero f (x ∷ xs) (suc i) h = ground arith
get_or-modify (suc k) f (x ∷ xs) zero h = ground arith
get_or-modify (suc k) f (x ∷ xs) (suc i) h =
    let ih = get_or-modify k f xs i (omega arith) in ground arith

abbrev pub occurrences : ℕ → List ℕ → ℕ
occurrences i [] = 0
occurrences i (key ∷ keys) = if key == i then suc (occurrences i keys) else occurrences i keys

abbrev pub smaller : ℕ → List ℕ → ℕ
smaller i [] = 0
smaller i (key ∷ keys) = if ltb key i then suc (smaller i keys) else smaller i keys

occurrences-le : (i : ℕ) (keys : List ℕ) → occurrences i keys ≤ length keys
occurrences-le i [] = omega arith
occurrences-le i (key ∷ keys) = ground (arith, occurrences-le i keys)

pub smaller-suc :
    (i : ℕ) (keys : List ℕ) → smaller (suc i) keys ≡ smaller i keys + occurrences i keys
smaller-suc i [] = refl
smaller-suc i (key ∷ keys) = ground (arith, smaller-suc i keys)

smaller-zero : (keys : List ℕ) → smaller 0 keys ≡ 0
smaller-zero [] = refl
smaller-zero (key ∷ keys) = ground (arith, smaller-zero keys)

smaller-le : (i : ℕ) (keys : List ℕ) → smaller i keys ≤ length keys
smaller-le i [] = omega arith
smaller-le i (key ∷ keys) = ground (arith, smaller-le i keys)

length-count_keys : (counts keys : List ℕ) → length (count_keys counts keys) ≡ length counts
unfolding count_keys
length-count_keys counts [] = refl
length-count_keys counts (key ∷ keys) =
    length-count_keys (modify key (λ n. (n + 1) % 2 ^ 32) counts) keys ∙ length-modify key _ counts

get_or-count_keys :
    (counts keys : List ℕ) (i : ℕ)
    → i < length counts
    → get_or counts i 0 + length keys < 2 ^ 32
    → get_or (count_keys counts keys) i 0 ≡ get_or counts i 0 + occurrences i keys
unfolding count_keys
get_or-count_keys counts [] i h fits = omega arith
get_or-count_keys counts (key ∷ keys) i h fits =
    let next = modify key (λ n. (n + 1) % 2 ^ 32) counts in
    let one = get_or-modify key (λ n. (n + 1) % 2 ^ 32) counts i h in
    let inside : i < length next =
      omega (arith, length-modify key (λ n. (n + 1) % 2 ^ 32) counts) in
    let ih = get_or-count_keys next keys i inside in ground arith

get_or-replicate : (n i : ℕ) → get_or {A = ℕ} (replicate n 0) i 0 ≡ 0
get_or-replicate zero i = refl
get_or-replicate (suc n) zero = refl
get_or-replicate (suc n) (suc i) = get_or-replicate n i

length-prefix_sums :
    (total : ℕ) (counts : List ℕ) → length (prefix_sums total counts) ≡ suc (length counts)
unfolding prefix_sums
length-prefix_sums total [] = refl
length-prefix_sums total (n ∷ counts) = ap suc (length-prefix_sums ((total + n) % 2 ^ 32) counts)

-- The sums of counts that are those of `keys` from `k` on.
get_or-prefix_sums :
    (keys : List ℕ) (k total : ℕ) (counts : List ℕ) (i : ℕ)
    → length keys < 2 ^ 32
    → total ≡ smaller k keys
    → ((j : ℕ) → j < length counts → get_or counts j 0 ≡ occurrences (k + j) keys)
    → i ≤ length counts
    → get_or (prefix_sums total counts) i 0 ≡ smaller (k + i) keys
unfolding prefix_sums
get_or-prefix_sums keys k total [] zero fits e h inside =
    let shift : k + 0 ≡ k = omega arith in rw shift e
get_or-prefix_sums keys k total [] (suc i) fits e h inside = absurd (omega arith)
get_or-prefix_sums keys k total (n ∷ counts) zero fits e h inside =
    let shift : k + 0 ≡ k = omega arith in rw shift e
get_or-prefix_sums keys k total (n ∷ counts) (suc i) fits e h inside =
    let shift : k + suc i ≡ suc k + i = omega arith in
    let here : k + 0 ≡ k = omega arith in
    let first : n ≡ occurrences k keys = let h0 = h 0 (omega arith) in rw here at h0 in
    let small : (total + n) % 2 ^ 32 ≡ smaller (suc k) keys =
      omega (arith, smaller-suc k keys, smaller-le (suc k) keys) in
    let later : (j : ℕ) → j < length counts → get_or counts j 0 ≡ occurrences (suc k + j) keys =
      λ j inside_j.
        let move : k + suc j ≡ suc k + j = omega arith in
        let hj = h (suc j) (omega arith) in rw move at hj in
    rw shift (
      get_or-prefix_sums keys (suc k) ((total + n) % 2 ^ 32) counts i fits small later
        (omega arith))

at-get_or : (xs : List ℕ) (i : ℕ) → i < length xs → at xs i ≡ ok (get_or xs i 0)
at-get_or [] i h = absurd (omega arith)
at-get_or (x ∷ xs) zero h = refl
at-get_or (x ∷ xs) (suc i) h = at-get_or xs i (omega arith)

pub length-csr_index : (n : ℕ) (keys : List ℕ) → length (csr_index n keys) ≡ suc n
unfolding csr_index
length-csr_index n keys =
    length-prefix_sums 0 (count_keys (replicate n 0) keys)
    ∙ ap suc (length-count_keys (replicate n 0) keys ∙ length-replicate n 0)

module _ (n : ℕ) (keys : List ℕ) (fits : length keys < 2 ^ 32) where
  abbrev zeros : List ℕ
  zeros = replicate n 0

  size : length (count_keys zeros keys) ≡ n
  size = length-count_keys zeros keys ∙ length-replicate n 0

  counted :
      (j : ℕ)
      → j < length (count_keys zeros keys)
      → get_or (count_keys zeros keys) j 0 ≡ occurrences (0 + j) keys
  counted j hj =
      let shift : 0 + j ≡ j = omega arith in
      let none_yet = get_or-replicate n j in
      let inside : j < length zeros = omega (arith, size, length-replicate {A = ℕ} n 0) in
      rw shift (
        omega
          (arith, none_yet, get_or-count_keys zeros keys j inside (omega (arith, none_yet, fits))))

  entry : (i : ℕ) → i ≤ n → get_or (csr_index n keys) i 0 ≡ smaller i keys
  unfolding csr_index
  entry i h =
      let shift : 0 + i ≡ i = omega arith in
      let sums =
        get_or-prefix_sums keys 0 0 (count_keys zeros keys) i fits (sym (smaller-zero keys)) counted
          (omega (arith, size)) in
      sums ∙ ap (λ j. smaller j keys) shift

  -- An entry counts the keys below it.
  pub csr_index_entry : (i : ℕ) → i ≤ n → at (csr_index n keys) i ≡ ok (smaller i keys)
  csr_index_entry i h =
      at-get_or (csr_index n keys) i (omega (arith, length-csr_index n keys)) ∙ ap ok (entry i h)

retain_none :
    {A : Type 0} (p : A → Bool) (xs : List A) → All (λ x. p x ≡ false) xs → retain p xs ≡ []
retain_none p [] h = refl
retain_none p (x ∷ xs) h = rw h.0 (retain_none p xs h.1)

module _ {A : Type 0} (key : A → ℕ) where
  abbrev pub by_key : A → A → Bool
  by_key a b = leb (key a) (key b)

  abbrev pub of_key : ℕ → A → Bool
  of_key i x = key x == i

  abbrev pub before : ℕ → A → Bool
  before i x = ltb (key x) i

  abbrev pub behind : ℕ → A → Bool
  behind i x = ltb i (key x)

  pub length-before : (i : ℕ) (xs : List A) → length (retain (before i) xs) ≡ smaller i (map key xs)
  length-before i [] = refl
  length-before i (x ∷ xs) = ground (arith, length-before i xs)

  pub length-of_key :
      (i : ℕ) (xs : List A) → length (retain (of_key i) xs) ≡ occurrences i (map key xs)
  length-of_key i [] = refl
  length-of_key i (x ∷ xs) = ground (arith, length-of_key i xs)

  -- Sorted things stand in three runs: those before a key, those of it, those behind it.
  pub sorted_split :
      (i : ℕ) (xs : List A)
      → IsSorted by_key xs
      → xs ≡ retain (before i) xs ++ (retain (of_key i) xs ++ retain (behind i) xs)
  sorted_split i [] h = refl
  sorted_split i (x ∷ xs) h =
      let ih = sorted_split i xs h.1 in
      elim (Bool-cases (before i x)) [
        | inl e ↦
            let not_equal : of_key i x ≡ false = ground arith in
            let not_behind : behind i x ≡ false = ground arith in
            rw (e, not_equal, not_behind) (ap (λ t. x ∷ t) ih)
        | inr e ↦
            let none_before : retain (before i) xs ≡ [] =
              retain_none (before i) xs
                (All-map _ (λ y. before i y ≡ false) xs (λ y k. ground arith) h.0) in
            let ih_here = rw none_before at ih in
            elim (Bool-cases (of_key i x)) [
              | inl f ↦
                  let not_behind : behind i x ≡ false = ground arith in
                  rw (e, f, not_behind, none_before) (ap (λ t. x ∷ t) ih_here)
              | inr f ↦
                  let is_behind : behind i x ≡ true = ground arith in
                  let none_here : retain (of_key i) xs ≡ [] =
                    retain_none (of_key i) xs
                      (All-map _ (λ y. of_key i y ≡ false) xs (λ y k. ground arith) h.0) in
                  rw (e, f, is_behind, none_before, none_here)
                    (ap (λ t. x ∷ t) (rw none_here at ih_here))
            ]
      ]
