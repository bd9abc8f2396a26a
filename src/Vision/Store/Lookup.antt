-- ===== src/Vision/Store/Lookup.antt =====
-- What `get` returns after the operations that write (crates/agentic-vision/src/types.rs).
use mathlib.Core.Option
use agentic_vision.Prelude.{
  ℕ, ◌<◌, ◌≡◌, refl, some, List, [], ◌∷◌, ◌++◌, All, arith, ◌==◌, if◌then◌else◌, find,
}
use agentic_vision.Vision.Types.{VisualObservation, VisualMemoryStore}
use agentic_vision.Vision.Store.{get, add, get_mut, update_first}
use agentic_vision.Vision.Store.Ids.{IsWellFormed}

find-concat :
    (os : List VisualObservation) (o : VisualObservation) (j : ℕ)
    → All (λ p. p.id < o.id) os
    → find (λ p. p.id == j) (os ++ o ∷ [])
      ≡ (if o.id == j then some o else find (λ p. p.id == j) os)
find-concat [] o j h = refl
find-concat (p ∷ os) o j h = ground (arith, find-concat os o j h.1)

-- In a well-formed store get finds the added observation at the id that add returned, and finds
-- at every other id what it found before.
pub get-add :
    (store : VisualMemoryStore) (obs : VisualObservation) (now j : ℕ)
    → IsWellFormed store
    → get (add store obs now).0 j ≡ (
        if (add store obs now).1 == j
        then some (record obs { id = (add store obs now).1 })
        else get store j)
unfolding get add
get-add store obs now j h =
    find-concat store.observations (record obs { id = store.next_id }) j h.bounded

module _ (f : VisualObservation → VisualObservation)
    (keeps : (o : VisualObservation) → (f o).id ≡ o.id) where
  find-update_first :
      (os : List VisualObservation) (i j : ℕ)
      → find (λ o. o.id == j) (update_first f i os)
        ≡ (if i == j then Option.map f (find (λ o. o.id == j) os) else find (λ o. o.id == j) os)
  unfolding update_first
  find-update_first [] i j = ground arith
  find-update_first (o ∷ os) i j = ground (arith, keeps o, find-update_first os i j)

  -- A write through get_mut that keeps the id is seen at that id and at no other.
  pub get-get_mut :
      (store : VisualMemoryStore) (i j : ℕ)
      → get (get_mut f store i) j ≡ (if i == j then Option.map f (get store j) else get store j)
  unfolding get get_mut
  get-get_mut store i j = find-update_first store.observations i j

get_id_find :
    (os : List VisualObservation) (j : ℕ) (o : VisualObservation)
    → find (λ p. p.id == j) os ≡ some o
    → o.id ≡ j
get_id_find [] j o h = cc
get_id_find (p ∷ os) j o h = ground (arith, get_id_find os j o)

-- What `get` returns has the id that was asked for.
pub get_id :
    (store : VisualMemoryStore) (j : ℕ) (o : VisualObservation) → get store j ≡ some o → o.id ≡ j
unfolding get
get_id store j o h = get_id_find store.observations j o h
