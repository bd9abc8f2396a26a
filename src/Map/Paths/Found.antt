-- ===== src/Map/Paths/Found.antt =====
-- The answer of `SiteMap::shortest_path` (runtime/src/map/reader.rs): the path is read off the
-- predecessors.
use agentic_vision.Prelude.{
  ℕ, zero, suc, ◌+◌, ◌-◌, ◌≤◌, ◌<◌, ◌≡◌, refl, sym, ap, ◌∙◌, subst, some, List, [], ◌∷◌, ◌++◌, true,
  false, ◌==◌, arith, length, Option-cases, Bool-cases, inl, inr, ==_iff, ==_refl, append_assoc,
  append-nil, lt→leb_false,
}
use mathlib.Core.List.{Memᴰ}
use agentic_vision.Map.Types.{EdgeRecord, SiteMap}
use agentic_vision.Map.Bytes.{ok}
use agentic_vision.Map.Reader.{edges_from}
use agentic_vision.Map.Paths.{
  PathConstraints, Search, SitePath, Searched, found, unreachable, sum_below, start, reconstruct,
  degree, enough, path_to, shortest_path,
}
use agentic_vision.Map.Paths.Walks.{mem, IsCostAddition}
use agentic_vision.Map.Paths.Relaxing.{Within, Chain, Reached, Walk, stay, go}
use agentic_vision.Map.Paths.Dijkstra.{pending, InvariantHere}
use agentic_vision.Map.Paths.Shortest.{run_search-Ended}

module _ (add : ℕ → ℕ → ℕ) (laws : IsCostAddition add) (constraints : PathConstraints)
    (site : SiteMap) (n : ℕ) (links : ℕ → List EdgeRecord)
    (linked : (u : ℕ) → u < n → edges_from site u ≡ ok (links u)) (source to : ℕ) where
  abbrev InvHere : ℕ → List ℕ → Search → Type 0
  InvHere cost done st =
      InvariantHere add laws constraints site n links linked source to cost done st

  abbrev WalkHere : List ℕ → ℕ → ℕ → Type 0
  WalkHere ns v w = Walk add constraints n links source ns v w

  start-Invariant : source < n → InvHere 0 [] (start source)
  unfolding start
  start-Invariant inside = record {
    core = record {
      origin = rw (==_refl source) refl;
      reached = λ v d e. elim (Bool-cases (v == source)) [
        | inl f ↦ inl ((==_iff v source).0 f)
        | inr f ↦ absurd (cc (rw f at e))
      ];
      queued = λ v d e h. elim (Bool-cases (v == source)) [
        | inl f ↦
            let zero_d : 0 ≡ d = cc (rw f at e) in
            let same : v ≡ source = (==_iff v source).0 f in Memᴰ.head (rw (← zero_d, same) refl)
        | inr f ↦ absurd (cc (rw f at e))
      ];
      entries = ((omega arith, (0, rw (==_refl source) refl, omega arith), inside), tt);
      near = λ u h. absurd (cc h);
      chain = tt;
    };
    settled = λ u d h. absurd (cc h);
  }

  module _ (cost : ℕ) (all : List ℕ) (st : Search) (inv : InvHere cost all st) where
    -- The path back from `v` is read off as a walk.
    pub record Rebuilt (fuel v d : ℕ) (path : List ℕ) : Type 0 where
      pub nodes : List ℕ
      pub read : reconstruct st.prev source fuel v path ≡ found (nodes ++ path)
      pub walk : WalkHere nodes v d

    Rebuilt-source :
        (fuel v d : ℕ) (path : List ℕ)
        → v ≡ source
        → st.dist v ≡ some d
        → Rebuilt (suc fuel) v d path
    unfolding reconstruct
    Rebuilt-source fuel v d path here e =
        let at_source : st.dist source ≡ some d = rw here at e in
        let zero_d : 0 ≡ d = cc (inv.core.origin, at_source) in
        record {
          nodes = source ∷ [];
          read = rw (here, ==_refl source) refl;
          walk =
              subst (λ t. WalkHere (source ∷ []) t d) (sym here)
                (subst (λ t. WalkHere (source ∷ []) source t) zero_d stay);
        }

    Rebuilt-step :
        (fuel v d : ℕ) (path : List ℕ)
        → (v == source) ≡ false
        → (r : Reached add constraints n links source st all v d)
        → Rebuilt fuel r.via r.via_dist (v ∷ path)
        → Rebuilt (suc fuel) v d path
    unfolding reconstruct
    Rebuilt-step fuel v d path apart r before = record {
      nodes = before.nodes ++ v ∷ [];
      read =
          rw (apart, r.before)
            (before.read ∙ ap found (sym (append_assoc before.nodes (v ∷ []) path)));
      walk = go before.walk r.edge r.linked r.permit v d r.target r.total;
    }

    rebuild :
        (done : List ℕ) (fuel v d : ℕ) (path : List ℕ)
        → Chain source st.prev done
        → length done < fuel
        → mem v done ≡ true
        → st.dist v ≡ some d
        → Rebuilt fuel v d path
    rebuild [] fuel v d path chain h m e = absurd (cc m)
    rebuild (x ∷ done) zero v d path chain h m e = absurd (omega arith)
    rebuild (x ∷ done) (suc fuel) v d path chain h m e = elim (Bool-cases (v == source)) [
      | inl f ↦ Rebuilt-source fuel v d path ((==_iff v source).0 f) e
      | inr apart ↦ elim (Bool-cases (v == x)) [
        | inl f ↦
            let same : v ≡ x = (==_iff v x).0 f in
            elim (inv.core.reached v d e) [
              | inl here ↦ absurd (ground (arith, here, apart))
              | inr r ↦ elim chain.0 [
                | inl here ↦
                    let equal : v ≡ source = same ∙ here in absurd (ground (arith, equal, apart))
                | inr (u, prev_x, there) ↦
                    let prev_v : st.prev v ≡ some u = rw same prev_x in
                    let via : u ≡ r.via = cc (prev_v, r.before) in
                    Rebuilt-step fuel v d path apart r (
                      rebuild done fuel r.via r.via_dist (v ∷ path) chain.1 (omega arith)
                        (rw (← via) there) r.known)
              ]
            ]
        | inr f ↦
            let later : mem v done ≡ true = ground (arith, m, f) in
            rebuild done (suc fuel) v d path chain.1 (omega arith) later e
      ]
    ]

    rebuild_any :
        (fuel v d : ℕ) → length all < fuel → st.dist v ≡ some d → Rebuilt (suc fuel) v d []
    rebuild_any fuel v d h e = elim (Bool-cases (v == source)) [
      | inl f ↦ Rebuilt-source fuel v d [] ((==_iff v source).0 f) e
      | inr apart ↦ elim (inv.core.reached v d e) [
        | inl here ↦ absurd (ground (arith, here, apart))
        | inr r ↦
            Rebuilt-step fuel v d [] apart r
              (rebuild all fuel r.via r.via_dist (v ∷ []) inv.core.chain h r.expanded r.known)
      ]
    ]

-- The answer is a cheapest walk, or there is none.
module _ (add : ℕ → ℕ → ℕ) (constraints : PathConstraints) (site : SiteMap)
    (links : ℕ → List EdgeRecord) where
  abbrev pub WalkOf : ℕ → List ℕ → ℕ → ℕ → Type 0
  WalkOf source ns v w = Walk add constraints (length site.nodes) links source ns v w

  pub record IsCheapest (source to : ℕ) (path : SitePath) : Type 0 where
    pub walk : WalkOf source path.nodes to path.total_weight
    pub least : (ns : List ℕ) (w : ℕ) → WalkOf source ns to w → path.total_weight ≤ w
    pub hops : path.hop_count ≡ length path.nodes - 1

  pub data IsAnswer (source to : ℕ) : Searched SitePath → Type 0 where
    shortest : (path : SitePath) → IsCheapest source to path → IsAnswer source to (found path)
    no_walk : ((ns : List ℕ) (w : ℕ) → ¬ WalkOf source ns to w) → IsAnswer source to unreachable

  sum_below_same :
      (f g : ℕ → ℕ) (k : ℕ) → ((u : ℕ) → u < k → f u ≡ g u) → sum_below k f ≡ sum_below k g
  sum_below_same f g zero h = refl
  sum_below_same f g (suc k) h =
      omega (arith, h k (omega arith), sum_below_same f g k (λ u p. h u (omega arith)))

  module _ (laws : IsCostAddition add)
      (linked : (u : ℕ) → u < length site.nodes → edges_from site u ≡ ok (links u)) where
    degrees_pending :
        sum_below (length site.nodes) (degree site) ≡ pending links (length site.nodes) []
    degrees_pending =
        sum_below_same (degree site) (λ u. length (links u)) (length site.nodes)
          (λ u h. rw (degree, linked u h) refl)

    -- The answer where the search ended in `st`.
    path_to-IsAnswer :
        (source to cost : ℕ) (done : List ℕ) (st : Search)
        → InvariantHere add laws constraints site
            (length site.nodes)
            links
            linked
            source
            to
            cost
            done
            st
        → ((ns : List ℕ) (w : ℕ) → WalkOf source ns to w → Within st.dist to w)
        → (fuel : ℕ) → length done < fuel
        → IsAnswer source to (path_to source to (suc fuel) st)
    unfolding path_to
    path_to-IsAnswer source to cost done st inv best fuel h = elim (Option-cases (st.dist to)) [
      | inl e ↦
          rw (e, path_to)
            (no_walk (λ ns w walk. let (d, at_to, small) = best ns w walk in cc (e, at_to)))
      | inr (d, e) ↦
          let back =
            rebuild_any add laws constraints site (length site.nodes) links linked source to cost
              done st inv fuel to d h e in
          rw (e, path_to, back.read, append-nil back.nodes)
            (shortest _ (record {
              walk = back.walk;
              least = λ ns w walk.
                  let (d', at_to, small) = best ns w walk in
                  let same : d ≡ d' = cc (e, at_to) in omega (arith, same, small);
              hops = refl;
            }))
    ]

    pub shortest_path-IsAnswer :
        (source to : ℕ)
        → source < length site.nodes
        → to < length site.nodes
        → IsAnswer source to (shortest_path add site source to constraints)
    unfolding shortest_path
    shortest_path-IsAnswer source to from_inside to_inside =
        let n = length site.nodes in
        let inv = start-Invariant add laws constraints site n links linked source to from_inside in
        let room : 1 + pending links n [] < enough site = omega (arith, degrees_pending) in
        let ended =
          run_search-Ended add laws constraints site n links linked source to (enough site) 0 []
            (start source) inv (unfold start in room) in
        rw (lt→leb_false n source from_inside, lt→leb_false n to to_inside, ended.outcome)
          (path_to-IsAnswer source to ended.cost_last ended.done_last ended.final ended.holds
            ended.best (suc (enough site)) (omega (arith, ended.longer)))
