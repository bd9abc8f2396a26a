-- ===== src/Vision/Store/Queries.antt =====
-- The queries of `VisualMemoryStore` (crates/agentic-vision/src/types.rs).
use mathlib.Core.List.{Perm}
use agentic_vision.Prelude.{
  ℕ, ◌+◌, ◌≤◌, ◌≡◌, List, [], ◌∷◌, ◌++◌, leb→le, arith, ◌==◌, leb, ◌&&◌, if◌then◌else◌, retain,
  drop, length, length-take, take-append-drop, All-anything, min, append-nil, retain-append,
}
use agentic_vision.Prelude.Sort.{
  sort_by, Pairwise, IsPreorder, sort_by-Pairwise, sort_by-perm, length-sort_by,
}
use agentic_vision.Vision.Types.{VisualObservation, VisualMemoryStore}
use agentic_vision.Vision.Store.{add, count, by_session, in_time_range, recent, newer_first}

newer_first-IsPreorder : IsPreorder (λ (o : VisualObservation). Unit) newer_first
newer_first-IsPreorder = record {
  total = λ a b _ _ h. ground arith;
  trans = λ a b c _ _ _ h k. ground arith;
}

-- The result of recent has as many observations as there are, limit at most. With the
-- observations that it leaves out they are those of the store, and none of them has a later
-- timestamp than one that stands before it, so nothing left out is newer than something returned.
pub recent_newest :
    (store : VisualMemoryStore) (limit : ℕ)
    → (older : List VisualObservation) × (length (recent store limit) ≡ min limit (count store))
      × Perm (recent store limit ++ older) store.observations
      × Pairwise (λ a b. b.timestamp ≤ a.timestamp) (recent store limit ++ older)
unfolding recent count
recent_newest store limit =
    let sorted = sort_by newer_first store.observations in
    (
      drop limit sorted,
      omega (arith, length-take limit sorted, length-sort_by newer_first store.observations),
      rw (take-append-drop limit sorted) (sort_by-perm newer_first store.observations),
      rw (take-append-drop limit sorted) (
          sort_by-Pairwise newer_first _ newer_first-IsPreorder (λ a b. b.timestamp ≤ a.timestamp)
            (λ a b pa pb e. leb→le b.timestamp a.timestamp e) store.observations (All-anything _)),
    )

-- An added observation comes last in its own session, and in no other.
pub by_session-add :
    (store : VisualMemoryStore) (obs : VisualObservation) (now session_id : ℕ)
    → by_session (add store obs now).0 session_id ≡ (
        if obs.session_id == session_id
        then by_session store session_id ++ record obs { id = (add store obs now).1 } ∷ []
        else by_session store session_id)
unfolding by_session add
by_session-add store obs now session_id =
    rw retain-append
      (ground (arith, append-nil (retain (λ o. o.session_id == session_id) store.observations)))

split_range :
    (os : List VisualObservation) (a b c : ℕ)
    → a ≤ b + 1
    → b ≤ c
    → length (retain (λ o. leb a o.timestamp && leb o.timestamp c) os)
      ≡ length (retain (λ o. leb a o.timestamp && leb o.timestamp b) os)
        + length (retain (λ o. leb (b + 1) o.timestamp && leb o.timestamp c) os)
split_range [] a b c h k = omega arith
split_range (o ∷ os) a b c h k = ground (arith, split_range os a b c h k)

-- Cut a time range in two: the observations of the whole are counted by those of the parts, each
-- in one.
pub in_time_range_split :
    (store : VisualMemoryStore) (a b c : ℕ)
    → a ≤ b + 1
    → b ≤ c
    → length (in_time_range store a c)
      ≡ length (in_time_range store a b) + length (in_time_range store (b + 1) c)
unfolding in_time_range
in_time_range_split store a b c h k = split_range store.observations a b c h k
