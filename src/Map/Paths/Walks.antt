-- ===== src/Map/Paths/Walks.antt =====
-- The paths that `SiteMap::shortest_path` of runtime/src/map/reader.rs is to find, and what the
-- search keeps true.
use agentic_vision.Prelude.{
  ℕ, suc, ◌≤◌, ◌≡◌, ◌⊎◌, refl, sym, ap, subst, List, [], ◌∷◌, Bool, false, ◌||◌, ◌==◌, arith,
  length, All, All-map, Bool-cases, inl, inr,
}
use mathlib.Core.List.{Memᴰ}
use mathlib.Core.List.Memᴰ
use agentic_vision.Map.Paths.{Entry, entry_le, pop_least}

pub All-member {ℓ κ} :
    {A : Type ℓ} (P : A → Type κ) (a : A) (xs : List A) → Memᴰ a xs → All P xs → P a
All-member P a [] m h = absurd (Memᴰ.not-nil m)
All-member P a (x ∷ xs) (Memᴰ.head e) h = subst P (sym e) h.0
All-member P a (x ∷ xs) (Memᴰ.tail m) h = All-member P a xs m h.1

pub All-members {ℓ} : {A : Type ℓ} (xs : List A) → All (λ x. Memᴰ x xs) xs
All-members [] = tt
All-members (x ∷ xs) = (
  Memᴰ.head refl,
  All-map (λ y. Memᴰ y xs) (λ y. Memᴰ y (x ∷ xs)) xs (λ y m. Memᴰ.tail m) (All-members xs),
)

abbrev pub mem : ℕ → List ℕ → Bool
mem v [] = false
mem v (x ∷ xs) = (v == x) || mem v xs

-- What the addition of floats that are not negative promises.
pub record IsCostAddition (add : ℕ → ℕ → ℕ) : Type 0 where
  pub grows : (a b : ℕ) → a ≤ add a b
  pub mono : (a b c : ℕ) → a ≤ b → add a c ≤ add b c

-- The least entry is least, and nothing is lost.
pub record Pops (x : Entry) (xs : List Entry) (popped : Entry × List Entry) : Type 1 where
  pub least : All (λ (y : Entry). popped.0.0 ≤ y.0) popped.1
  pub all : (P : Entry → Type 0) → All P (x ∷ xs) → P popped.0 × All P popped.1
  pub keeps : (y : Entry) → Memᴰ y (x ∷ xs) → (y ≡ popped.0) ⊎ Memᴰ y popped.1
  pub size : length popped.1 ≡ length xs

keeps_first :
    {x z : Entry} {ys zs : List Entry} (w : Entry)
    → Memᴰ w (x ∷ ys)
    → (Memᴰ w ys → (w ≡ z) ⊎ Memᴰ w zs)
    → (w ≡ x) ⊎ Memᴰ w (z ∷ zs)
keeps_first w (Memᴰ.head e) f = inl e
keeps_first w (Memᴰ.tail m) f = elim (f m) [
  | inl e ↦ inr (Memᴰ.head e)
  | inr m' ↦ inr (Memᴰ.tail m')
]

keeps_later :
    {x z : Entry} {ys zs : List Entry} (w : Entry)
    → Memᴰ w (x ∷ ys)
    → (Memᴰ w ys → (w ≡ z) ⊎ Memᴰ w zs)
    → (w ≡ z) ⊎ Memᴰ w (x ∷ zs)
keeps_later w (Memᴰ.head e) f = inr (Memᴰ.head e)
keeps_later w (Memᴰ.tail m) f = elim (f m) [ inl e ↦ inl e | inr m' ↦ inr (Memᴰ.tail m') ]

pub pop_least-Pops : (x : Entry) (xs : List Entry) → Pops x xs (pop_least x xs)
unfolding pop_least
pop_least-Pops x [] = record {
  least = tt;
  all = λ P h. h;
  keeps = λ y m. Memᴰ.cases_cons m;
  size = refl;
}
pop_least-Pops x (y ∷ ys) =
    let later = pop_least-Pops y ys in
    let z = (pop_least y ys).0 in
    let zs = (pop_least y ys).1 in
    elim (Bool-cases (entry_le x z)) [
      | inl e ↦ rw e (record {
        least =
            let first : x.0 ≤ z.0 = ground arith in
            (
              first,
              All-map _ (λ (w : Entry). x.0 ≤ w.0) zs (λ w h. omega (arith, first, h)) later.least,
            );
        all = λ P h. (h.0, later.all P h.1);
        keeps = λ w m. keeps_first w m (later.keeps w);
        size = ap suc later.size;
      })
      | inr e ↦ rw e (record {
        least = (ground arith, later.least);
        all = λ P h. let q = later.all P h.1 in (q.0, (h.0, q.1));
        keeps = λ w m. keeps_later w m (later.keeps w);
        size = ap suc later.size;
      })
    ]
