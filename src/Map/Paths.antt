-- ===== src/Map/Paths.antt =====
-- runtime/src/map/reader.rs: `SiteMap::shortest_path`. A cost is the whole number that the `f32`
-- stands for; `add` is the addition of such floats. The vectors `dist` and `prev` are functions of
-- the index. The heap is the list of its entries.
pub mod Walks
pub mod Relaxing
pub mod Expanding
pub mod Dijkstra
pub mod Shortest
pub mod Found
pub mod Routes
use agentic_vision.Prelude.{
  ℕ, zero, suc, ◌+◌, ◌-◌, Option, none, some, List, [], ◌∷◌, Bool, true, false, not, ◌&&◌, ◌||◌,
  ◌==◌, leb, ltb, if◌then◌else◌, length,
}
use agentic_vision.Map.Types.{EdgeRecord, OpCode, SiteMap, requires_auth, changes_state}
use agentic_vision.Map.Bytes.{Loaded, ok, fail, panic}
use agentic_vision.Map.Reader.{edges_from}

pub data PathMinimize : Type 0 where
  hops weight state_changes : PathMinimize

pub record PathConstraints : Type 0 where
  pub avoid_auth : Bool
  pub avoid_state_changes : Bool
  pub minimize : PathMinimize

pub record PathAction : Type 0 where
  pub at_node : ℕ
  pub opcode : OpCode

pub record SitePath : Type 0 where
  pub nodes : List ℕ
  pub total_weight : ℕ
  pub hop_count : ℕ
  pub required_actions : List PathAction

-- An entry of the heap: the cost, and the node.
abbrev pub Entry : Type 0
Entry = ℕ × ℕ

pub record Search : Type 0 where
  pub dist : ℕ → Option ℕ
  -- `u32::MAX`, which is no node of a map of fewer than 2^32 nodes, is `none`.
  pub prev : ℕ → Option ℕ
  pub heap : List Entry

-- `unreachable` is the answer `None`.
pub data Searched (A : Type 0) : Type 0 where
  found : A → Searched A
  unreachable panics out_of_fuel : Searched A

infixl 5 ◌>>=◌
abbrev pub ◌>>=◌ : {A B : Type 0} → Searched A → (A → Searched B) → Searched B
found a >>= f = f a
unreachable >>= f = unreachable
panics >>= f = panics
out_of_fuel >>= f = out_of_fuel

abbrev pub searched : {A : Type 0} → Loaded A → Searched A
searched (ok a) = found a
searched (fail e) = panics
searched panic = panics

unfoldable pub permitted : PathConstraints → ℕ → EdgeRecord → Bool
permitted constraints n edge =
    ltb edge.target_node n
    && (not (constraints.avoid_auth && requires_auth edge.flags)
        && not (constraints.avoid_state_changes && changes_state edge.flags))

unfoldable pub edge_cost : PathMinimize → EdgeRecord → ℕ
edge_cost hops edge = 1
edge_cost weight edge = edge.weight
edge_cost state_changes edge = if changes_state edge.flags then 10 else 1

-- `new_cost < dist`, where no distance is the infinite one.
abbrev pub below : ℕ → Option ℕ → Bool
below cost none = true
below cost (some d) = ltb cost d

-- `cost > dist`.
abbrev pub stale : ℕ → Option ℕ → Bool
stale cost none = false
stale cost (some d) = ltb d cost

abbrev pub set : {A : Type 0} → ℕ → A → (ℕ → A) → ℕ → A
set i a f j = if j == i then a else f j

-- The order of the pairs (cost, node).
abbrev pub entry_le : Entry → Entry → Bool
entry_le a b = ltb a.0 b.0 || ((a.0 == b.0) && leb a.1 b.1)

-- The least entry, and the others.
unfoldable pub pop_least : Entry → List Entry → Entry × List Entry
pop_least x [] = (x, [])
pop_least x (y ∷ ys) =
    let popped = pop_least y ys in
    if entry_le x popped.0 then (x, popped.0 ∷ popped.1) else (popped.0, x ∷ popped.1)

abbrev pub with_heap : List Entry → Search → Search
with_heap heap st = record { dist = st.dist; prev = st.prev; heap = heap }

unfoldable pub start : ℕ → Search
start source = record {
  dist = set source (some 0) (λ i. none);
  prev = λ i. none;
  heap = (0, source) ∷ [];
}

abbrev pub sum_below : ℕ → (ℕ → ℕ) → ℕ
sum_below zero f = 0
sum_below (suc n) f = f n + sum_below n f

module _ (add : ℕ → ℕ → ℕ) (constraints : PathConstraints) (n : ℕ) where
  unfoldable pub relax : ℕ → ℕ → EdgeRecord → Search → Search
  relax cost node edge st =
      let target = edge.target_node in
      let new_cost = add cost (edge_cost constraints.minimize edge) in
      if permitted constraints n edge && below new_cost (st.dist target)
      then record {
        dist = set target (some new_cost) st.dist;
        prev = set target (some node) st.prev;
        heap = (new_cost, target) ∷ st.heap;
      }
      else st

  unfoldable pub relax_all : ℕ → ℕ → List EdgeRecord → Search → Search
  unfolding relax
  relax_all cost node [] st = st
  relax_all cost node (edge ∷ edges) st = relax_all cost node edges (relax cost node edge st)

  module _ (site : SiteMap) (to : ℕ) where
    -- What follows a pop that is not of the goal.
    unfoldable pub expand : Entry → Search → Searched Search
    unfolding relax_all
    expand entry st = if stale entry.0 (st.dist entry.1) then found st else do
      edges ← searched (edges_from site entry.1)
      found (relax_all entry.0 entry.1 edges st)

    unfoldable pub run_search : ℕ → Search → Searched Search
    unfolding expand pop_least
    run_search zero st = out_of_fuel
    run_search (suc fuel) st = elim st.heap [
      | [] ↦ found st
      | ◌∷◌ x xs ↦
          let popped = pop_least x xs in
          elim (popped.0.1 == to) [
            | true ↦ found st
            | false ↦ (expand popped.0 (with_heap popped.1 st)) >>= (λ next. run_search fuel next)
          ]
    ]

-- The nodes from the source on to `current`, and then `path`.
unfoldable pub reconstruct : (ℕ → Option ℕ) → ℕ → ℕ → ℕ → List ℕ → Searched (List ℕ)
reconstruct prev source zero current path = out_of_fuel
reconstruct prev source (suc fuel) current path =
    if current == source then found (source ∷ path) else elim (prev current) [
      | none ↦ unreachable
      | some before ↦ reconstruct prev source fuel before (current ∷ path)
    ]

abbrev pub degree : SiteMap → ℕ → ℕ
degree site u = elim (edges_from site u) [ ok edges ↦ length edges | fail e ↦ 0 | panic ↦ 0 ]

-- Each pop takes an entry, and each edge puts one in at most once.
abbrev pub enough : SiteMap → ℕ
enough site = suc (suc (sum_below (length site.nodes) (degree site)))

unfoldable pub path_to : (source to fuel : ℕ) → Search → Searched SitePath
unfolding reconstruct
path_to source to fuel st = elim (st.dist to) [
  | none ↦ unreachable
  | some total ↦ (reconstruct st.prev source fuel to []) >>= (λ nodes. found (record {
    nodes = nodes;
    total_weight = total;
    hop_count = length nodes - 1;
    required_actions = [];
  }))
]

module _ (add : ℕ → ℕ → ℕ) where
  unfoldable pub shortest_path : SiteMap → (source to : ℕ) → PathConstraints → Searched SitePath
  unfolding run_search start path_to
  shortest_path site source to constraints =
      let n = length site.nodes in
      let fuel = enough site in
      if leb n source || leb n to
      then unreachable
      else (run_search add constraints n site to fuel (start source))
        >>= (λ st. path_to source to (suc (suc fuel)) st)

  -- runtime/src/navigation/pathfinder.rs.
  unfoldable pub find_path : SiteMap → (source to : ℕ) → PathConstraints → Searched SitePath
  unfolding shortest_path
  find_path site source to constraints = shortest_path site source to constraints
