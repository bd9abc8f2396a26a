-- ===== src/Map/Paths/Shortest.antt =====
-- `SiteMap::shortest_path` (runtime/src/map/reader.rs) finds a walk from the source to the goal that
-- no other is cheaper than, and answers `None` exactly if there is none.
use agentic_vision.Prelude.{
  ℕ, zero, suc, ◌+◌, ◌≤◌, ◌<◌, ◌≡◌, ◌⊎◌, refl, ap, ◌∙◌, subst, some, List, [], ◌∷◌, true, false,
  ◌==◌, arith, length, Bool-cases, inl, inr, ==_iff,
}
use mathlib.Core.List.{Memᴰ}
use mathlib.Core.List.Memᴰ
use agentic_vision.Map.Types.{EdgeRecord, SiteMap}
use agentic_vision.Map.Bytes.{ok}
use agentic_vision.Map.Reader.{edges_from}
use agentic_vision.Map.Paths.{
  PathConstraints, Entry, Search, Searched, found, ◌>>=◌, edge_cost, with_heap, pop_least, expand,
  run_search,
}
use agentic_vision.Map.Paths.Walks.{mem, IsCostAddition, pop_least-Pops, All-member}
use agentic_vision.Map.Paths.Relaxing.{Within, IsRelaxed, Walk, stay, go}
use agentic_vision.Map.Paths.Expanding.{popped_entries}
use agentic_vision.Map.Paths.Dijkstra.{pending, InvariantHere, expand-Expanded}

List-cases : {A : Type 0} (xs : List A) → (xs ≡ []) ⊎ ((y : A) × (ys : List A) × (xs ≡ y ∷ ys))
List-cases [] = inl refl
List-cases (x ∷ xs) = inr (x, xs, refl)

module _ (add : ℕ → ℕ → ℕ) (laws : IsCostAddition add) (constraints : PathConstraints)
    (site : SiteMap) (n : ℕ) (links : ℕ → List EdgeRecord)
    (linked : (u : ℕ) → u < n → edges_from site u ≡ ok (links u)) (source to : ℕ) where
  abbrev InvHere : ℕ → List ℕ → Search → Type 0
  InvHere cost done st =
      InvariantHere add laws constraints site n links linked source to cost done st

  abbrev WalkHere : List ℕ → ℕ → ℕ → Type 0
  WalkHere ns v w = Walk add constraints n links source ns v w

  -- A walk ends at an expanded node that is no further, or costs what is in the heap.
  walk_bound :
      (cost : ℕ) (done : List ℕ) (st : Search)
      → InvHere cost done st
      → (ns : List ℕ) (v w : ℕ) → WalkHere ns v w
      → ((mem v done ≡ true) × Within st.dist v w) ⊎ ((y : Entry) × Memᴰ y st.heap × (y.0 ≤ w))
  walk_bound cost done st inv ns v w stay = elim (Bool-cases (mem source done)) [
    | inl e ↦ inl (e, (0, inv.core.origin, omega arith))
    | inr e ↦ inr ((0, source), inv.core.queued source 0 inv.core.origin e, omega arith)
  ]
  walk_bound cost done st inv ns' v' w' (go {ns} {u} {w} walk e m p v x ev ex) =
      elim (walk_bound cost done st inv ns u w walk) [
        | inl (expanded, (d, at_u, small)) ↦
            let (dv, at_v, bound) =
              All-member (IsRelaxed add constraints n d st.dist) e (links u) m
                (inv.settled u d expanded at_u) p in
            let more = laws.mono d w (edge_cost constraints.minimize e) small in
            let at_v' : st.dist v ≡ some dv = rw ev at_v in
            let le : dv ≤ x = omega (arith, bound, more, ex) in
            elim (Bool-cases (mem v done)) [
              | inl f ↦ inl (f, (dv, at_v', le))
              | inr f ↦ inr ((dv, v), inv.core.queued v dv at_v' f, le)
            ]
        | inr (y, there, small) ↦
            let more = laws.grows w (edge_cost constraints.minimize e) in
            inr (y, there, omega (arith, small, more, ex))
      ]

  -- The search ended in `final`.
  pub record Ended (done : List ℕ) (fuel : ℕ) (result : Searched Search) : Type 0 where
    pub final : Search
    pub cost_last : ℕ
    pub done_last : List ℕ
    pub outcome : result ≡ found final
    pub holds : InvHere cost_last done_last final
    pub best : (ns : List ℕ) (w : ℕ) → WalkHere ns to w → Within final.dist to w
    pub longer : length done_last ≤ length done + fuel

  goal_popped :
      (cost : ℕ) (done : List ℕ) (st : Search) (x : Entry) (xs : List Entry)
      → InvHere cost done st
      → st.heap ≡ x ∷ xs
      → ((pop_least x xs).0.1 == to) ≡ true
      → (ns : List ℕ) (w : ℕ) → WalkHere ns to w
      → Within st.dist to w
  goal_popped cost done st x xs inv filled goal ns w walk =
      let popped = (pop_least x xs).0 in
      let others = (pop_least x xs).1 in
      let pops = pop_least-Pops x xs in
      elim (walk_bound cost done st inv ns to w walk) [
        | inl (expanded, within) ↦ within
        | inr (y, there, small) ↦
            let (d, at_popped, near) =
              (popped_entries add laws constraints n links source cost done st inv x xs
                filled).0.1 in
            let same : popped.1 ≡ to = (==_iff popped.1 to).0 goal in
            let least : popped.0 ≤ y.0 = elim (pops.keeps y (subst (λ t. Memᴰ y t) filled there)) [
              | inl e ↦
                  let equal : y.0 ≡ popped.0 = ap (λ (t : Entry). t.0) e in omega (arith, equal)
              | inr m ↦ All-member (λ (z : Entry). popped.0 ≤ z.0) y others m pops.least
            ] in
            (d, rw (← same) at_popped, omega (arith, near, least, small))
      ]

  -- What one round does.
  search_empty :
      (fuel : ℕ) (st : Search)
      → st.heap ≡ []
      → run_search add constraints n site to (suc fuel) st ≡ found st
  unfolding run_search
  search_empty fuel st e = simp (e, run_search)

  module _ (fuel : ℕ) (st : Search) (x : Entry) (xs : List Entry) (filled : st.heap ≡ x ∷ xs) where
    search_goal :
        ((pop_least x xs).0.1 == to) ≡ true
        → run_search add constraints n site to (suc fuel) st ≡ found st
    unfolding run_search
    search_goal goal = simp (filled, goal, run_search)

    search_on :
        ((pop_least x xs).0.1 == to) ≡ false
        → run_search add constraints n site to (suc fuel) st ≡ (
            (expand add constraints n site to (pop_least x xs).0 (with_heap (pop_least x xs).1 st))
            >>= (λ next. run_search add constraints n site to fuel next))
    unfolding run_search
    search_on on = simp (filled, on, run_search)

  pub run_search-Ended :
      (fuel cost : ℕ) (done : List ℕ) (st : Search)
      → InvHere cost done st
      → length st.heap + pending links n done < fuel
      → Ended done fuel (run_search add constraints n site to fuel st)
  unfolding run_search
  run_search-Ended zero cost done st inv h = absurd (omega arith)
  run_search-Ended (suc fuel) cost done st inv h = elim (List-cases st.heap) [
    | inl e ↦ record {
      final = st;
      cost_last = cost;
      done_last = done;
      outcome = search_empty fuel st e;
      holds = inv;
      best = λ ns w walk. elim (walk_bound cost done st inv ns to w walk) [
        | inl (expanded, within) ↦ within
        | inr (y, there, small) ↦ absurd (Memᴰ.not-nil (subst (λ t. Memᴰ y t) e there))
      ];
      longer = omega arith;
    }
    | inr (x, xs, filled) ↦ elim (Bool-cases ((pop_least x xs).0.1 == to)) [
      | inl goal ↦ record {
        final = st;
        cost_last = cost;
        done_last = done;
        outcome = search_goal fuel st x xs filled goal;
        holds = inv;
        best = goal_popped cost done st x xs inv filled goal;
        longer = omega arith;
      }
      | inr on ↦
          let ex =
            expand-Expanded add laws constraints site n links linked source to cost done st inv x xs
              filled in
          let size : length st.heap ≡ suc (length xs) = ap length filled in
          let rest =
            run_search-Ended fuel (pop_least x xs).0.0 ex.done_next ex.next ex.holds
              (omega (arith, ex.less, size)) in
          record {
            final = rest.final;
            cost_last = rest.cost_last;
            done_last = rest.done_last;
            outcome = search_on fuel st x xs filled on ∙ rw ex.outcome rest.outcome;
            holds = rest.holds;
            best = rest.best;
            longer = omega (arith, rest.longer, ex.longer);
          }
    ]
  ]
