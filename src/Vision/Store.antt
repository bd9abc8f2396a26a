-- ===== src/Vision/Store.antt =====
-- crates/agentic-vision/src/types.rs: the methods of `VisualMemoryStore`. The clock is the argument
-- `now`, in seconds since the epoch. `get_mut` is the update of the observation that `get` finds.
pub mod Ids
pub mod Lookup
pub mod Queries
pub mod Examples
use agentic_vision.Prelude.{
  ℕ, ◌+◌, ◌%◌, Option, some, List, [], ◌∷◌, ◌++◌, Bool, ◌&&◌, ◌==◌, leb, if◌then◌else◌, length,
  take, retain, find,
}
use agentic_vision.Prelude.Sort.{sort_by}
use agentic_vision.Vision.Types.{VisualObservation, VisualMemoryStore, u64_mod}

unfoldable pub new : ℕ → ℕ → VisualMemoryStore
new embedding_dim now = record {
  observations = [];
  embedding_dim = embedding_dim;
  next_id = 1;
  session_count = 0;
  created_at = now;
  updated_at = now;
}

unfoldable pub get : VisualMemoryStore → ℕ → Option VisualObservation
get store id = find (λ o. o.id == id) store.observations

-- What a write through the reference of `get_mut` does: the first observation with the id changes.
unfoldable pub update_first :
    (VisualObservation → VisualObservation) → ℕ → List VisualObservation → List VisualObservation
update_first f id [] = []
update_first f id (o ∷ os) = if o.id == id then f o ∷ os else o ∷ update_first f id os

unfoldable pub get_mut :
    (VisualObservation → VisualObservation) → VisualMemoryStore → ℕ → VisualMemoryStore
unfolding update_first
get_mut f store id = record store { observations = update_first f id store.observations }

-- `next_id` wraps at 2^64, as in a release build.
unfoldable pub add : VisualMemoryStore → VisualObservation → ℕ → VisualMemoryStore × ℕ
add store obs now =
    let id = store.next_id in
    (
      record store {
        observations = store.observations ++ record obs { id = id } ∷ [];
        next_id = (store.next_id + 1) % u64_mod;
        updated_at = now;
      },
      id,
    )

unfoldable pub count : VisualMemoryStore → ℕ
count store = length store.observations

unfoldable pub by_session : VisualMemoryStore → ℕ → List VisualObservation
by_session store session_id = retain (λ o. o.session_id == session_id) store.observations

unfoldable pub in_time_range : VisualMemoryStore → ℕ → ℕ → List VisualObservation
in_time_range store start end =
    retain (λ o. leb start o.timestamp && leb o.timestamp end) store.observations

-- `b.timestamp.cmp(&a.timestamp)` is not `Greater`.
abbrev pub newer_first : VisualObservation → VisualObservation → Bool
newer_first a b = leb b.timestamp a.timestamp

unfoldable pub recent : VisualMemoryStore → ℕ → List VisualObservation
recent store limit = take limit (sort_by newer_first store.observations)
