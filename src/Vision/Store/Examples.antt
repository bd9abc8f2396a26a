-- ===== src/Vision/Store/Examples.antt =====
-- Tests of the store (crates/agentic-vision/src/types.rs), and the theorems at concrete inputs.
use mathlib.Core.List.{Perm}
use agentic_vision.Prelude.{
  ℕ, ◌≤◌, ◌≡◌, refl, none, some, List, [], ◌∷◌, ◌++◌, arith, length, min, map,
}
use agentic_vision.Prelude.Sort.{Pairwise, sort_by}
use agentic_vision.Vision.Types.{VisualObservation, VisualMemoryStore, clipboard}
use agentic_vision.Vision.Store.{new, get, get_mut, add, count, by_session, recent}
use agentic_vision.Vision.Store.Ids.{IsWellFormed, add-IsWellFormed, get_mut-IsWellFormed}
use agentic_vision.Vision.Store.Lookup.{get-add}
use agentic_vision.Vision.Store.Queries.{recent_newest, by_session-add}

abbrev pub shot : ℕ → ℕ → VisualObservation
shot time session = record {
  id = 0;
  timestamp = time;
  session_id = session;
  source = clipboard;
  embedding = [];
  thumbnail = 0xFF ∷ 0xD8 ∷ [];
  metadata = record {
    width = 512;
    height = 288;
    original_width = 1920;
    original_height = 1080;
    labels = "test" ∷ [];
    description = none;
  };
  memory_link = none;
}

abbrev at : ℕ → ℕ → ℕ → VisualObservation
at id time session = record (shot time session) { id = id }

abbrev pub two_shots : VisualMemoryStore
two_shots = record {
  observations = at 1 100 1 ∷ at 2 250 2 ∷ [];
  embedding_dim = 512;
  next_id = 3;
  session_count = 2;
  created_at = 90;
  updated_at = 250;
}

built :
    (add (add (new 512 90) (shot 100 1) 100).0 (shot 250 2) 250).0
    ≡ record two_shots { session_count = 0 }
unfolding add new
built = refl

newest : map (λ o. o.id) (recent two_shots 1) ≡ 2 ∷ []
unfolding recent sort_by
newest = refl

two_shots-IsWellFormed : IsWellFormed two_shots
two_shots-IsWellFormed = omega arith

add-IsWellFormed_example : IsWellFormed (add two_shots (shot 300 2) 300).0
add-IsWellFormed_example =
    add-IsWellFormed two_shots (shot 300 2) 300 two_shots-IsWellFormed (omega arith)

abbrev linked : VisualObservation → VisualObservation
linked o = record o { memory_link = some 7 }

get_mut-IsWellFormed_example : IsWellFormed (get_mut linked two_shots 2)
get_mut-IsWellFormed_example =
    get_mut-IsWellFormed linked (λ o. refl) 2 two_shots two_shots-IsWellFormed

get-add_example : get (add two_shots (shot 300 2) 300).0 3 ≡ some (at 3 300 2)
unfolding add
get-add_example = get-add two_shots (shot 300 2) 300 3 two_shots-IsWellFormed

recent_newest_example :
    (older : List VisualObservation) × (length (recent two_shots 1) ≡ min 1 (count two_shots))
    × Perm (recent two_shots 1 ++ older) two_shots.observations
    × Pairwise (λ a b. b.timestamp ≤ a.timestamp) (recent two_shots 1 ++ older)
recent_newest_example = recent_newest two_shots 1

by_session-add_example :
    by_session (add two_shots (shot 300 2) 300).0 2 ≡ by_session two_shots 2 ++ at 3 300 2 ∷ []
unfolding add
by_session-add_example = by_session-add two_shots (shot 300 2) 300 2
