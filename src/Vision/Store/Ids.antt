-- ===== src/Vision/Store/Ids.antt =====
-- Identifiers in a `VisualMemoryStore` (crates/agentic-vision/src/types.rs): they are given out in
-- increasing order and never twice.
use agentic_vision.Prelude.{
  ℕ, ◌+◌, ◌≤◌, ◌<◌, ◌≡◌, sym, subst, List, [], ◌∷◌, ◌++◌, All, All-append, All-map, arith,
  Bool-cases, inl, inr, ◌==◌,
}
use agentic_vision.Vision.Types.{VisualObservation, VisualMemoryStore, u64_mod}
use agentic_vision.Vision.Store.{new, add, get_mut, update_first}

-- Each observation's id is below those behind it.
abbrev pub Increasing : List VisualObservation → Type 0
Increasing [] = Unit
Increasing (o ∷ os) = All (λ p. o.id < p.id) os × Increasing os

pub record IsWellFormed (store : VisualMemoryStore) : Type 0 where
  pub positive : All (λ o. 1 ≤ o.id) store.observations
  pub bounded : All (λ o. o.id < store.next_id) store.observations
  pub increasing : Increasing store.observations
  pub next_positive : 1 ≤ store.next_id

pub new-IsWellFormed : (dim now : ℕ) → IsWellFormed (new dim now)
unfolding new
new-IsWellFormed dim now = record {
  positive = tt;
  bounded = tt;
  increasing = tt;
  next_positive = omega arith;
}

Increasing-append :
    (os : List VisualObservation) (o : VisualObservation)
    → Increasing os
    → All (λ p. p.id < o.id) os
    → Increasing (os ++ o ∷ [])
Increasing-append [] o h k = (tt, tt)
Increasing-append (p ∷ os) o h k =
    (All-append (λ q. p.id < q.id) os (o ∷ []) h.0 (k.0, tt), Increasing-append os o h.1 k.1)

-- Adding an observation keeps a store well formed, as long as the id after the next one is below
-- 2^64: the ids are positive, increasing and below the next one.
pub add-IsWellFormed :
    (store : VisualMemoryStore) (obs : VisualObservation) (now : ℕ)
    → IsWellFormed store
    → store.next_id + 1 < u64_mod
    → IsWellFormed (add store obs now).0
unfolding add
add-IsWellFormed store obs now h fits =
    let o = record obs { id = store.next_id } in
    let os = store.observations in
    record {
      positive = All-append (λ p. 1 ≤ p.id) os (o ∷ []) h.positive (h.next_positive, tt);
      bounded =
          All-append _ os (o ∷ []) (All-map _ _ os (λ p k. omega arith) h.bounded)
            (omega arith, tt);
      increasing = Increasing-append os o h.increasing h.bounded;
      next_positive = omega arith;
    }

module _ (f : VisualObservation → VisualObservation)
    (keeps : (o : VisualObservation) → (f o).id ≡ o.id) (id : ℕ) where
  All-update_first :
      (P : ℕ → Type 0) (os : List VisualObservation)
      → All (λ o. P o.id) os
      → All (λ o. P o.id) (update_first f id os)
  unfolding update_first
  All-update_first P [] h = tt
  All-update_first P (o ∷ os) h = elim (Bool-cases (o.id == id)) [
    | inl e ↦ rw e (subst P (sym (keeps o)) h.0, h.1)
    | inr e ↦ rw e (h.0, All-update_first P os h.1)
  ]

  Increasing-update_first :
      (os : List VisualObservation) → Increasing os → Increasing (update_first f id os)
  unfolding update_first
  Increasing-update_first [] h = tt
  Increasing-update_first (o ∷ os) h = elim (Bool-cases (o.id == id)) [
    | inl e ↦ rw e (rw (keeps o) h)
    | inr e ↦ rw e (All-update_first (λ i. o.id < i) os h.0, Increasing-update_first os h.1)
  ]

  -- A write that keeps the id keeps the store well formed.
  pub get_mut-IsWellFormed :
      (store : VisualMemoryStore) → IsWellFormed store → IsWellFormed (get_mut f store id)
  unfolding get_mut
  get_mut-IsWellFormed store h = record {
    positive = All-update_first (λ i. 1 ≤ i) store.observations h.positive;
    bounded = All-update_first (λ i. i < store.next_id) store.observations h.bounded;
    increasing = Increasing-update_first store.observations h.increasing;
    next_positive = h.next_positive;
  }
