-- ===== src/Map/Paths/Expanding.antt =====
-- Expanding a node in the search of `SiteMap::shortest_path` (runtime/src/map/reader.rs): all of its
-- edges are followed, and it is done.
use agentic_vision.Prelude.{
  ℕ, ◌≤◌, ◌≡◌, ◌≢◌, ◌⊎◌, refl, ap, ◌∙◌, subst, Option, some, List, [], ◌∷◌, true, false, ◌==◌, ltb,
  arith, length, All, All-map, All-zip, Bool-cases, inl, inr, ==_iff,
}
use mathlib.Core.List.{Memᴰ}
use agentic_vision.Map.Types.{EdgeRecord}
use agentic_vision.Map.Paths.{
  PathConstraints, Entry, Search, permitted, stale, relax, relax_all, with_heap, pop_least,
}
use agentic_vision.Map.Paths.Walks.{mem, IsCostAddition, Pops, pop_least-Pops}
use agentic_vision.Map.Paths.Relaxing.{
  Within, cost_of, IsEntry, Core, Lower, IsRelaxed, Kept, stays-Lower, relax-Kept,
}

module _ (add : ℕ → ℕ → ℕ) (laws : IsCostAddition add) (constraints : PathConstraints) (n : ℕ)
    (links : ℕ → List EdgeRecord) (source : ℕ) where
  abbrev CoreHere : ℕ → List ℕ → Search → Type 0
  CoreHere = Core add constraints n links source

  abbrev Relaxed : ℕ → (ℕ → Option ℕ) → EdgeRecord → Type 0
  Relaxed cost dist e = IsRelaxed add constraints n cost dist e

  Within-Lower :
      {done : List ℕ} {st next : Search} (v w : ℕ)
      → Lower done st next
      → Within st.dist v w
      → Within next.dist v w
  Within-Lower v w lower (d, e, small) =
      let (d', e', small') = lower.smaller v d e in (d', e', omega (arith, small, small'))

  pub Relaxed-Lower :
      {done : List ℕ} {st next : Search} (cost : ℕ) (edges : List EdgeRecord)
      → Lower done st next
      → All (Relaxed cost st.dist) edges
      → All (Relaxed cost next.dist) edges
  Relaxed-Lower {done} {st} {next} cost edges lower h =
      All-map (Relaxed cost st.dist) (Relaxed cost next.dist) edges
        (λ e k p. Within-Lower e.target_node _ lower (k p)) h

  Lower-trans :
      {done : List ℕ} {st mid next : Search}
      → Lower done st mid
      → Lower done mid next
      → Lower done st next
  Lower-trans one two = record {
    smaller = λ v d e.
        let (d', e', small) = one.smaller v d e in
        let (d'', e'', small') = two.smaller v d' e' in (d'', e'', omega (arith, small, small'));
    same = λ u h. two.same u h ∙ one.same u h;
  }

  abbrev KeptHere : ℕ → ℕ → List ℕ → Search → Search → List EdgeRecord → ℕ → Type 0
  KeptHere cost node done st next edges room =
      Kept add constraints n links source laws cost node done st next edges room

  pub relax_all-Kept :
      (cost node : ℕ) (done : List ℕ) (edges : List EdgeRecord) (st : Search)
      → CoreHere cost done st
      → mem node done ≡ true
      → st.dist node ≡ some cost
      → All (λ e. Memᴰ e (links node)) edges
      → KeptHere cost node done st
          (relax_all add constraints n cost node edges st)
          edges
          (length edges)
  unfolding relax_all
  relax_all-Kept cost node done [] st core expanded known linked = record {
    core = core;
    lower = stays-Lower add constraints n links source laws cost node done st;
    relaxed = tt;
    size = omega arith;
  }
  relax_all-Kept cost node done (edge ∷ edges) st core expanded known linked =
      let mid = relax add constraints n cost node edge st in
      let one =
        relax-Kept add constraints n links source laws cost node done st edge core expanded known
          linked.0 in
      let known_mid = one.lower.same node expanded ∙ known in
      let rest = relax_all-Kept cost node done edges mid one.core expanded known_mid linked.1 in
      record {
        core = rest.core;
        lower = Lower-trans one.lower rest.lower;
        relaxed = ((Relaxed-Lower cost (edge ∷ []) rest.lower one.relaxed).0, rest.relaxed);
        size = omega (arith, one.size, rest.size);
      }

  -- Edges that have been looked at change nothing more.
  pub relax_all-Relaxed :
      (cost node : ℕ) (edges : List EdgeRecord) (st : Search)
      → All (Relaxed cost st.dist) edges
      → relax_all add constraints n cost node edges st ≡ st
  unfolding relax_all relax
  relax_all-Relaxed cost node [] st h = refl
  relax_all-Relaxed cost node (edge ∷ edges) st h =
      let new = add cost (cost_of add constraints n links source edge) in
      let rest = relax_all-Relaxed cost node edges st h.1 in
      elim (Bool-cases (permitted constraints n edge)) [
        | inl p ↦
            let (d, e, small) = h.0 p in
            let no_better : ltb new d ≡ false = ground (arith, small) in rw (p, e, no_better) rest
        | inr p ↦ rw p rest
      ]

  -- What the search keeps true: the edges of expanded nodes have been looked at.
  pub record Invariant (cost : ℕ) (done : List ℕ) (st : Search) : Type 0 where
    pub core : CoreHere cost done st
    pub settled :
        (u d : ℕ) → mem u done ≡ true → st.dist u ≡ some d → All (Relaxed d st.dist) (links u)

  module _ (cost : ℕ) (done : List ℕ) (st : Search) (inv : Invariant cost done st) where
    module _ (x : Entry) (xs : List Entry) (filled : st.heap ≡ x ∷ xs) where
      abbrev popped : Entry
      popped = (pop_least x xs).0

      abbrev others : List Entry
      others = (pop_least x xs).1

      pops : Pops x xs (pop_least x xs)
      pops = pop_least-Pops x xs

      pub popped_entries :
          IsEntry add constraints n links source cost st.dist popped
          × All (IsEntry add constraints n links source cost st.dist) others
      popped_entries =
          pops.all (IsEntry add constraints n links source cost st.dist)
            (rw filled at inv.core.entries)

      others-IsEntry : All (IsEntry add constraints n links source popped.0 st.dist) others
      others-IsEntry =
          All-zip (λ (y : Entry). popped.0 ≤ y.0)
            (IsEntry add constraints n links source cost st.dist)
            (IsEntry add constraints n links source popped.0 st.dist) others
            (λ y least h. (least, h.1, h.2)) pops.least popped_entries.1

      queued_others :
          (v d : ℕ)
          → st.dist v ≡ some d
          → mem v done ≡ false
          → ((d, v) ≡ popped) ⊎ Memᴰ (d, v) others
      queued_others v d e h =
          pops.keeps (d, v) (subst (λ t. Memᴰ (d, v) t) filled (inv.core.queued v d e h))

      near_popped : (u : ℕ) → mem u done ≡ true → Within st.dist u popped.0
      near_popped u h =
          let (d, e, small) = inv.core.near u h in (d, e, omega (arith, small, popped_entries.0.0))

      -- The entry was of no use: it is dropped.
      pub popped_idle :
          ((v d : ℕ) → st.dist v ≡ some d → mem v done ≡ false → (d, v) ≢ popped)
          → Invariant popped.0 done (with_heap others st)
      popped_idle idle = record {
        core = record {
          origin = inv.core.origin;
          reached = λ v d e. elim (inv.core.reached v d e) [
            | inl here ↦ inl here
            | inr r ↦ inr (record {
              via = r.via;
              via_dist = r.via_dist;
              edge = r.edge;
              before = r.before;
              expanded = r.expanded;
              known = r.known;
              linked = r.linked;
              permit = r.permit;
              target = r.target;
              total = r.total;
            })
          ];
          queued = λ v d e h. elim (queued_others v d e h) [
            | inl same ↦ absurd (idle v d e h same)
            | inr m ↦ m
          ];
          entries = others-IsEntry;
          near = near_popped;
          chain = inv.core.chain;
        };
        settled = inv.settled;
      }

      module _ (fresh : mem popped.1 done ≡ false)
          (current : stale popped.0 (st.dist popped.1) ≡ false) where
        pub popped_known : st.dist popped.1 ≡ some popped.0
        popped_known =
            let (d, e, small) = popped_entries.0.1 in
            let no_less = rw (e, stale) at current in
            let same : d ≡ popped.0 = ground (arith, small, no_less) in rw (← same) e

        more_done : (u : ℕ) → mem u done ≡ true → mem u (popped.1 ∷ done) ≡ true
        more_done u h = ground (arith, h)

        popped_chain :
            (popped.1 ≡ source) ⊎ ((u : ℕ) × (st.prev popped.1 ≡ some u) × (mem u done ≡ true))
        popped_chain = elim (inv.core.reached popped.1 popped.0 popped_known) [
          | inl here ↦ inl here
          | inr r ↦ inr (r.via, r.before, r.expanded)
        ]

        -- The entry is that of a node which is expanded now.
        pub popped_fresh : CoreHere popped.0 (popped.1 ∷ done) (with_heap others st)
        popped_fresh = record {
          origin = inv.core.origin;
          reached = λ v d e. elim (inv.core.reached v d e) [
            | inl here ↦ inl here
            | inr r ↦ inr (record {
              via = r.via;
              via_dist = r.via_dist;
              edge = r.edge;
              before = r.before;
              expanded = more_done r.via r.expanded;
              known = r.known;
              linked = r.linked;
              permit = r.permit;
              target = r.target;
              total = r.total;
            })
          ];
          queued = λ v d e h.
              let not_done : mem v done ≡ false = ground (arith, h) in
              let not_popped : (v == popped.1) ≡ false = ground (arith, h) in
              elim (queued_others v d e not_done) [
                | inl same ↦
                    let equal : v ≡ popped.1 = ap (λ (t : Entry). t.1) same in
                    absurd (ground (arith, equal, not_popped))
                | inr m ↦ m
              ];
          entries = others-IsEntry;
          near = λ u h. elim (Bool-cases (u == popped.1)) [
            | inl e ↦
                let same : u ≡ popped.1 = (==_iff u popped.1).0 e in
                (popped.0, rw same popped_known, omega arith)
            | inr e ↦ let old : mem u done ≡ true = ground (arith, h, e) in near_popped u old
          ];
          chain = (popped_chain, inv.core.chain);
        }
