-- ===== src/Map/Paths/Dijkstra.antt =====
-- The loop of `SiteMap::shortest_path` (runtime/src/map/reader.rs): its fuel is enough, and where it
-- ends no walk to the goal is shorter than the distance of the goal.
use agentic_vision.Prelude.{
  ℕ, zero, suc, ◌+◌, ◌≤◌, ◌<◌, ◌≡◌, refl, sym, ap, ◌∙◌, subst, some, List, ◌∷◌, true, false, ◌==◌,
  if◌then◌else◌, arith, length, All, Bool-cases, inl, inr, ==_iff,
}
use agentic_vision.Map.Types.{EdgeRecord, SiteMap}
use agentic_vision.Map.Bytes.{ok}
use agentic_vision.Map.Reader.{edges_from}
use agentic_vision.Map.Paths.{
  PathConstraints, Entry, Search, Searched, found, stale, relax_all, with_heap, pop_least,
  sum_below, expand,
}
use agentic_vision.Map.Paths.Walks.{mem, IsCostAddition, pop_least-Pops, All-members}
use agentic_vision.Map.Paths.Relaxing.{IsRelaxed}
use agentic_vision.Map.Paths.Expanding.{
  Invariant, Relaxed-Lower, relax_all-Kept, relax_all-Relaxed, popped_idle, popped_fresh,
  popped_known, popped_entries,
}

-- The edges that nodes which are not done may still put into the heap.
abbrev pub pending : (ℕ → List EdgeRecord) → ℕ → List ℕ → ℕ
pending links n done = sum_below n (λ u. if mem u done then 0 else length (links u))

module _ (links : ℕ → List EdgeRecord) (node : ℕ) (done : List ℕ)
    (fresh : mem node done ≡ false) where
  pending_before : (k : ℕ) → k ≤ node → pending links k (node ∷ done) ≡ pending links k done
  pending_before zero h = refl
  pending_before (suc k) h =
      let other : (k == node) ≡ false = ground arith in
      rw other (
        ap (λ t. (if mem k done then 0 else length (links k)) + t) (pending_before k (omega arith)))

  pending_drop :
      (k : ℕ)
      → node < k
      → pending links k (node ∷ done) + length (links node) ≡ pending links k done
  pending_drop zero h = absurd (omega arith)
  pending_drop (suc k) h = elim (Bool-cases (k == node)) [
    | inl e ↦
        let same : k ≡ node = (==_iff k node).0 e in
        let fresh_k : mem k done ≡ false = rw same fresh in
        let rest = pending_before k (omega (arith, same)) in
        let size : length (links k) ≡ length (links node) = ap (λ t. length (links t)) same in
        rw (e, fresh_k) (omega (arith, rest, size))
    | inr e ↦
        let further : node < k = ground (arith, e) in
        let rest = pending_drop k further in rw e (omega (arith, rest))
  ]

module _ (add : ℕ → ℕ → ℕ) (laws : IsCostAddition add) (constraints : PathConstraints)
    (site : SiteMap) (n : ℕ) (links : ℕ → List EdgeRecord)
    (linked : (u : ℕ) → u < n → edges_from site u ≡ ok (links u)) (source to : ℕ) where
  abbrev pub InvariantHere : ℕ → List ℕ → Search → Type 0
  InvariantHere cost done st = Invariant add laws constraints n links source cost done st

  -- The state after an expansion.
  pub record Expanded (entry : Entry) (done : List ℕ) (size : ℕ) (result : Searched Search)
      : Type 0 where
    pub next : Search
    pub done_next : List ℕ
    pub outcome : result ≡ found next
    pub holds : InvariantHere entry.0 done_next next
    pub less : length next.heap + pending links n done_next ≤ size + pending links n done
    pub longer : length done_next ≤ suc (length done)

  module _ (cost : ℕ) (done : List ℕ) (st : Search) (inv : InvariantHere cost done st) (x : Entry)
      (xs : List Entry) (filled : st.heap ≡ x ∷ xs) where
    abbrev entry : Entry
    entry = (pop_least x xs).0

    abbrev left : Search
    left = with_heap (pop_least x xs).1 st

    size_left : length left.heap ≡ length xs
    size_left = (pop_least-Pops x xs).size

    expand-stale :
        stale entry.0 (st.dist entry.1) ≡ true
        → Expanded entry done (length xs) (expand add constraints n site to entry left)
    unfolding expand
    expand-stale e = rw e (record {
      next = left;
      done_next = done;
      outcome = refl;
      holds =
          popped_idle add laws constraints n links source cost done st inv x xs filled
            (λ v d at_v h same.
              let at_entry : st.dist entry.1 ≡ some d =
                subst (λ t. st.dist t ≡ some d) (ap (λ (t : Entry). t.1) same) at_v in
              let worse = rw (at_entry, stale) at e in
              let equal : d ≡ entry.0 = ap (λ (t : Entry). t.0) same in
              ground (arith, worse, equal));
      less = omega (arith, size_left);
      longer = omega arith;
    })

    module _ (current : stale entry.0 (st.dist entry.1) ≡ false) where
      entry-lt : entry.1 < n
      entry-lt =
          (popped_entries add laws constraints n links source cost done st inv x xs filled).0.2

      expand_again :
          mem entry.1 done ≡ true
          → Expanded entry done (length xs) (expand add constraints n site to entry left)
      unfolding expand
      expand_again again =
          let (d, at_entry, small) = inv.core.near entry.1 again in
          let no_less = rw (at_entry, stale) at current in
          let first =
            (popped_entries add laws constraints n links source cost done st inv x xs filled).0.0 in
          let same : d ≡ entry.0 = ground (arith, small, no_less, first) in
          let settled = inv.settled entry.1 entry.0 again (rw same at at_entry) in
          rw
            (
              current,
              linked entry.1 entry-lt,
              relax_all-Relaxed add laws constraints n links source entry.0 entry.1 (links entry.1)
                  left settled,
            )
            (record {
              next = left;
              done_next = done;
              outcome = refl;
              holds =
                  popped_idle add laws constraints n links source cost done st inv x xs filled
                    (λ v d' at_v h same_entry.
                      let there : v ≡ entry.1 = ap (λ (t : Entry). t.1) same_entry in
                      let done_v : mem v done ≡ true = rw there again in cc (h, done_v));
              less = omega (arith, size_left);
              longer = omega arith;
            })

      expand_fresh :
          mem entry.1 done ≡ false
          → Expanded entry done (length xs) (expand add constraints n site to entry left)
      unfolding expand
      expand_fresh fresh =
          let core =
            popped_fresh add laws constraints n links source cost done st inv x xs filled fresh
              current in
          let known =
            popped_known add laws constraints n links source cost done st inv x xs filled fresh
              current in
          let edges = links entry.1 in
          let here : mem entry.1 (entry.1 ∷ done) ≡ true = ground arith in
          let kept =
            relax_all-Kept add laws constraints n links source entry.0 entry.1 (entry.1 ∷ done)
              edges left core here known (All-members edges) in
          let next = relax_all add constraints n entry.0 entry.1 edges left in
          rw (current, linked entry.1 entry-lt)
            (record {
              next = next;
              done_next = entry.1 ∷ done;
              outcome = refl;
              holds = record {
                core = kept.core;
                settled = λ u d h at_u. elim (Bool-cases (u == entry.1)) [
                  | inl e ↦
                      let same : u ≡ entry.1 = (==_iff u entry.1).0 e in
                      let known_next = kept.lower.same entry.1 here ∙ known in
                      let at_entry = subst (λ t. next.dist t ≡ some d) same at_u in
                      let equal : entry.0 ≡ d = cc (known_next, at_entry) in
                      subst (λ t. All (IsRelaxed add constraints n t next.dist) (links u)) equal
                        (subst (λ t. All (IsRelaxed add constraints n entry.0 next.dist) (links t))
                          (sym same) kept.relaxed)
                  | inr e ↦
                      let old : mem u done ≡ true = ground (arith, h, e) in
                      let before : st.dist u ≡ some d = sym (kept.lower.same u h) ∙ at_u in
                      Relaxed-Lower add laws constraints n links source d (links u) kept.lower
                        (inv.settled u d old before)
                ];
              };
              less =
                  omega
                    (arith, size_left, kept.size, pending_drop links entry.1 done fresh n entry-lt);
              longer = omega arith;
            })

    pub expand-Expanded :
        Expanded entry done (length xs) (expand add constraints n site to entry left)
    expand-Expanded = elim (Bool-cases (stale entry.0 (st.dist entry.1))) [
      | inl e ↦ expand-stale e
      | inr e ↦ elim (Bool-cases (mem entry.1 done)) [
        | inl m ↦ expand_again e m
        | inr m ↦ expand_fresh e m
      ]
    ]
