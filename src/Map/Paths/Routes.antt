-- ===== src/Map/Paths/Routes.antt =====
-- Finding a path in a map that was built (runtime/src/navigation/pathfinder.rs over
-- runtime/src/map/builder.rs and reader.rs).
use agentic_vision.Prelude.{ℕ, ◌^◌, ◌<◌, ◌≡◌, arith, length}
use agentic_vision.Map.Floats.{Floats}
use agentic_vision.Map.Builder.{SiteMapBuilder}
use agentic_vision.Map.Build.{build, edges_sorted}
use agentic_vision.Map.Build.Degrees.{edges_of, edges_from-build, length-count_links}
use agentic_vision.Map.Paths.Walks.{IsCostAddition}
use agentic_vision.Map.Paths.{PathConstraints, find_path}
use agentic_vision.Map.Paths.Found.{IsAnswer, shortest_path-IsAnswer}

length-build_nodes :
    (ops : Floats) (now : ℕ) (b : SiteMapBuilder) → length (build ops now b).nodes ≡ length b.nodes
unfolding build
length-build_nodes ops now b = length-count_links (edges_sorted b) b.nodes

-- In a map that was built, with fewer than 2^32 edges, and with an addition of costs that grows
-- and is monotone: between two of its nodes find_path answers with a walk over permitted edges,
-- as it was added to the builder, whose cost no other walk is below, or with none exactly if
-- there is no walk. (The fuel, one round for each edge and two more, suffices.)
pub find_path-build :
    (add : ℕ → ℕ → ℕ) (ops : Floats) (now : ℕ) (b : SiteMapBuilder) (constraints : PathConstraints)
    (source to : ℕ)
    → IsCostAddition add
    → length b.edges < 2 ^ 32
    → source < length b.nodes
    → to < length b.nodes
    → IsAnswer add constraints
        (build ops now b)
        (edges_of b)
        source
        to
        (find_path add (build ops now b) source to constraints)
unfolding find_path
find_path-build add ops now b constraints source to laws fits from_inside to_inside =
    let size = length-build_nodes ops now b in
    shortest_path-IsAnswer add constraints (build ops now b) (edges_of b) laws
      (λ u h. edges_from-build ops now b u fits) source to (omega (arith, size))
      (omega (arith, size))
