-- ===== src/Prelude/Sort.antt =====
-- `slice::sort_by`: the standard library promises a stable sort. It is written here as the stable
-- insertion sort, over the test `le a b` that the comparator does not answer `Greater` on a, b.
use mathlib.Core.Path.{◌≡◌, refl, ap, ◌∙◌, sym}
use mathlib.Core.Logic.{inl, inr}
use mathlib.Core.Bool.{Bool, true, false}
use mathlib.Core.List.{List, [], ◌∷◌, Perm}
use mathlib.Core.List.Perm
use native.Mathlib.Omega.{arith}
use Prim.Native.Nat.{suc}
use agentic_vision.Prelude.Tests.{if◌then◌else◌, Bool-cases}
use agentic_vision.Prelude.Lists.{All-zip, misses, All, All-kept, retain, length}

-- The comparators that the code passes are total preorders on the values that are sorted.
pub record IsPreorder {ℓ} {A : Type ℓ} (P : A → Type 0) (le : A → A → Bool) : Type ℓ where
  pub total : (a b : A) → P a → P b → le a b ≡ false → le b a ≡ true
  pub trans : (a b c : A) → P a → P b → P c → le a b ≡ true → le b c ≡ true → le a c ≡ true

-- Every element is so related to each that stands behind it.
abbrev pub Pairwise {ℓ κ} : {A : Type ℓ} → (A → A → Type κ) → List A → Type κ
Pairwise R [] = Unit
Pairwise R (x ∷ xs) = All (R x) xs × Pairwise R xs

module _ {ℓ} {A : Type ℓ} (le : A → A → Bool) where
  pub insert : A → List A → List A
  insert x [] = x ∷ []
  insert x (y ∷ ys) = if le x y then x ∷ y ∷ ys else y ∷ insert x ys

  unfoldable pub sort_by : List A → List A
  unfolding insert
  sort_by [] = []
  sort_by (x ∷ xs) = insert x (sort_by xs)

  abbrev pub IsSorted : List A → Type ℓ
  IsSorted [] = Unit
  IsSorted (x ∷ xs) = All (λ y. le x y ≡ true) xs × IsSorted xs

  insert-perm : (x : A) (ys : List A) → Perm (insert x ys) (x ∷ ys)
  unfolding insert
  insert-perm x [] = Perm.refl (x ∷ [])
  insert-perm x (y ∷ ys) = elim (Bool-cases (le x y)) [
    | inl e ↦ rw e (Perm.refl (x ∷ y ∷ ys))
    | inr e ↦ rw e (Perm.trans (Perm.cons y (insert-perm x ys)) (Perm.swap x y ys))
  ]

  -- Sorting loses and invents nothing.
  pub sort_by-perm : (xs : List A) → Perm (sort_by xs) xs
  unfolding sort_by
  sort_by-perm [] = Perm.refl []
  sort_by-perm (x ∷ xs) = Perm.trans (insert-perm x (sort_by xs)) (Perm.cons x (sort_by-perm xs))

  length-insert : (x : A) (ys : List A) → length (insert x ys) ≡ suc (length ys)
  unfolding insert
  length-insert x [] = refl
  length-insert x (y ∷ ys) = ground (arith, length-insert x ys)

  pub length-sort_by : (xs : List A) → length (sort_by xs) ≡ length xs
  unfolding sort_by
  length-sort_by [] = refl
  length-sort_by (x ∷ xs) = length-insert x (sort_by xs) ∙ ap suc (length-sort_by xs)

  pub All-insert {κ} : (P : A → Type κ) (x : A) (ys : List A) → P x → All P ys → All P (insert x ys)
  unfolding insert
  All-insert P x [] h k = (h, tt)
  All-insert P x (y ∷ ys) h k = elim (Bool-cases (le x y)) [
    | inl e ↦ rw e (h, k)
    | inr e ↦ rw e (k.0, All-insert P x ys h k.1)
  ]

  pub All-sort_by {κ} : (P : A → Type κ) (xs : List A) → All P xs → All P (sort_by xs)
  unfolding sort_by
  All-sort_by P [] h = tt
  All-sort_by P (x ∷ xs) h = All-insert P x (sort_by xs) h.0 (All-sort_by P xs h.1)

  insert-head : (x : A) (ys : List A) → All (λ y. le x y ≡ true) ys → insert x ys ≡ x ∷ ys
  unfolding insert
  insert-head x [] h = refl
  insert-head x (y ∷ ys) h = rw h.0

  -- A sorted list stays as it is.
  pub sort_by_sorted : (xs : List A) → IsSorted xs → sort_by xs ≡ xs
  unfolding sort_by
  sort_by_sorted [] h = refl
  sort_by_sorted (x ∷ xs) h = rw (sort_by_sorted xs h.1) (insert-head x xs h.0)

  pub misses-insert :
      (p : A → Bool) (x : A) (ys : List A) → misses p (insert x ys) ≡ misses p (x ∷ ys)
  unfolding insert
  misses-insert p x [] = refl
  misses-insert p x (y ∷ ys) = ground (arith, misses-insert p x ys)

  pub misses-sort_by : (p : A → Bool) (xs : List A) → misses p (sort_by xs) ≡ misses p xs
  unfolding sort_by
  misses-sort_by p [] = refl
  misses-sort_by p (x ∷ xs) = ground (arith, misses-insert p x (sort_by xs), misses-sort_by p xs)

  pub IsSorted-Pairwise {κ} :
      (P : A → Type 0) (R : A → A → Type κ)
      → ((a b : A) → P a → P b → le a b ≡ true → R a b)
      → (xs : List A) → All P xs
      → IsSorted xs
      → Pairwise R xs
  IsSorted-Pairwise P R f [] ps h = tt
  IsSorted-Pairwise P R f (x ∷ xs) ps h = (
    All-zip P (λ y. le x y ≡ true) (R x) xs (λ y py e. f x y ps.0 py e) ps.1 h.0,
    IsSorted-Pairwise P R f xs ps.1 h.1,
  )

  module _ (P : A → Type 0) (ord : IsPreorder P le) where
    -- What is behind `y` is behind whatever stands before `y`.
    behind :
        (x y : A) (ys : List A)
        → P x
        → P y
        → All P ys
        → le x y ≡ true
        → All (λ z. le y z ≡ true) ys
        → All (λ z. le x z ≡ true) ys
    behind x y ys px py ps e h =
        All-zip P (λ z. le y z ≡ true) (λ z. le x z ≡ true) ys
          (λ z pz k. ord.trans x y z px py pz e k) ps h

    insert-IsSorted : (x : A) (ys : List A) → P x → All P ys → IsSorted ys → IsSorted (insert x ys)
    unfolding insert
    insert-IsSorted x [] px ps h = (tt, tt)
    insert-IsSorted x (y ∷ ys) px ps h = elim (Bool-cases (le x y)) [
      | inl e ↦ rw e ((e, behind x y ys px ps.0 ps.1 e h.0), h)
      | inr e ↦ rw e (
        All-insert (λ z. le y z ≡ true) x ys (ord.total x y px ps.0 e) h.0,
        insert-IsSorted x ys px ps.1 h.1,
      )
    ]

    pub sort_by-IsSorted : (xs : List A) → All P xs → IsSorted (sort_by xs)
    unfolding sort_by
    sort_by-IsSorted [] ps = tt
    sort_by-IsSorted (x ∷ xs) ps =
        insert-IsSorted x (sort_by xs) ps.0 (All-sort_by P xs ps.1) (sort_by-IsSorted xs ps.1)

    -- The test of the sort, as a relation.
    pub sort_by-Pairwise {κ} :
        (R : A → A → Type κ)
        → ((a b : A) → P a → P b → le a b ≡ true → R a b)
        → (xs : List A) → All P xs
        → Pairwise R (sort_by xs)
    sort_by-Pairwise R f xs ps =
        IsSorted-Pairwise P R f (sort_by xs) (All-sort_by P xs ps) (sort_by-IsSorted xs ps)

    retain-insert :
        (p : A → Bool) (x : A) (ys : List A)
        → P x
        → All P ys
        → IsSorted ys
        → retain p (insert x ys) ≡ (if p x then insert x (retain p ys) else retain p ys)
    unfolding insert
    retain-insert p x [] px ps h = refl
    retain-insert p x (y ∷ ys) px ps h = elim (Bool-cases (le x y)) [
      | inl e ↦
          let rest = retain p (y ∷ ys) in
          let least = behind x y ys px ps.0 ps.1 e h.0 in
          rw e (
            ap (λ t. if p x then t else rest)
              (sym (insert-head x rest (All-kept (λ z. le x z ≡ true) p (y ∷ ys) (e, least)))))
      | inr e ↦ ground (arith, e, retain-insert p x ys px ps.1 h.1)
    ]

    -- The sort is stable: it commutes with dropping elements.
    pub retain-sort_by :
        (p : A → Bool) (xs : List A) → All P xs → retain p (sort_by xs) ≡ sort_by (retain p xs)
    unfolding sort_by
    retain-sort_by p [] ps = refl
    retain-sort_by p (x ∷ xs) ps =
        let sorted = sort_by xs in
        let step =
          retain-insert p x sorted ps.0 (All-sort_by P xs ps.1) (sort_by-IsSorted xs ps.1) in
        ground (arith, retain-sort_by p xs ps.1, step)
