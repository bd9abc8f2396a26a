-- ===== src/Map/Paths/Relaxing.antt =====
-- The search of `SiteMap::shortest_path` (runtime/src/map/reader.rs): what holds of its vectors and
-- its heap, and that following one edge keeps it.
use agentic_vision.Prelude.{
  ℕ, ◌+◌, ◌≤◌, ◌<◌, ◌≡◌, ◌⊎◌, refl, sym, subst, Option, some, List, [], ◌∷◌, ◌++◌, Bool, true,
  false, ◌==◌, ltb, arith, length, All, All-map, Option-cases, Bool-cases, inl, inr, ==_iff,
  ==_refl, ltb→lt,
}
use mathlib.Core.List.{Memᴰ}
use agentic_vision.Map.Types.{EdgeRecord}
use agentic_vision.Map.Paths.{
  PathConstraints, Entry, Search, permitted, edge_cost, set, below, relax,
}
use agentic_vision.Map.Paths.Walks.{mem, IsCostAddition}

-- A distance that is known, and at most `w`.
abbrev pub Within : (ℕ → Option ℕ) → ℕ → ℕ → Type 0
Within dist v w = (d : ℕ) × (dist v ≡ some d) × (d ≤ w)

pub permitted_inside :
    (constraints : PathConstraints) (n : ℕ) (edge : EdgeRecord)
    → permitted constraints n edge ≡ true
    → edge.target_node < n
unfolding permitted
permitted_inside constraints n edge h = elim (Bool-cases (ltb edge.target_node n)) [
  | inl e ↦ ltb→lt _ _ e
  | inr e ↦ absurd (cc (rw (e, permitted) at h))
]

-- A state with the same or smaller distances.
pub record Lower (done : List ℕ) (st next : Search) : Type 0 where
  pub smaller : (v d : ℕ) → st.dist v ≡ some d → Within next.dist v d
  pub same : (u : ℕ) → mem u done ≡ true → next.dist u ≡ st.dist u

-- The edge has been looked at: its end is no further than over it.
abbrev pub IsRelaxed :
    (ℕ → ℕ → ℕ) → PathConstraints → (n cost : ℕ) → (ℕ → Option ℕ) → EdgeRecord → Type 0
IsRelaxed add constraints n cost dist e =
    permitted constraints n e ≡ true
    → Within dist e.target_node (add cost (edge_cost constraints.minimize e))

module _ (source : ℕ) where
  -- Each expanded node but the source was reached from one that was expanded before it.
  abbrev pub Chain : (ℕ → Option ℕ) → List ℕ → Type 0
  Chain prev [] = Unit
  Chain prev (v ∷ done) =
      ((v ≡ source) ⊎ ((u : ℕ) × (prev v ≡ some u) × (mem u done ≡ true))) × Chain prev done

  Chain-set :
      (prev : ℕ → Option ℕ) (done : List ℕ) (t : ℕ) (x : Option ℕ)
      → mem t done ≡ false
      → Chain prev done
      → Chain (set t x prev) done
  Chain-set prev [] t x h c = tt
  Chain-set prev (v ∷ done) t x h c =
      let other : (v == t) ≡ false = ground arith in
      let later : mem t done ≡ false = ground arith in
      (rw other c.0, Chain-set prev done t x later c.1)

module _ (add : ℕ → ℕ → ℕ) (constraints : PathConstraints) (n : ℕ) (links : ℕ → List EdgeRecord)
    (source : ℕ) where
  abbrev pub cost_of : EdgeRecord → ℕ
  cost_of e = edge_cost constraints.minimize e

  abbrev pub allowed : EdgeRecord → Bool
  allowed e = permitted constraints n e

  -- A walk over allowed edges from the source: its nodes, its end, and its cost.
  pub data Walk : List ℕ → ℕ → ℕ → Type 0 where
    stay : Walk (source ∷ []) source 0
    go :
        {ns : List ℕ} {u w : ℕ}
        → Walk ns u w
        → (e : EdgeRecord) → Memᴰ e (links u)
        → allowed e ≡ true
        → (v x : ℕ) → v ≡ e.target_node
        → x ≡ add w (cost_of e)
        → Walk (ns ++ v ∷ []) v x

  -- The distance `d` of `v` is that over an expanded node.
  pub record Reached (st : Search) (done : List ℕ) (v d : ℕ) : Type 0 where
    pub via : ℕ
    pub via_dist : ℕ
    pub edge : EdgeRecord
    pub before : st.prev v ≡ some via
    pub expanded : mem via done ≡ true
    pub known : st.dist via ≡ some via_dist
    pub linked : Memᴰ edge (links via)
    pub permit : allowed edge ≡ true
    pub target : v ≡ edge.target_node
    pub total : d ≡ add via_dist (cost_of edge)

  -- An entry of the heap, where `cost` was the last one popped.
  abbrev pub IsEntry : ℕ → (ℕ → Option ℕ) → Entry → Type 0
  IsEntry cost dist x = (cost ≤ x.0) × Within dist x.1 x.0 × (x.1 < n)

  -- `done` are the nodes that were expanded, the last one first.
  pub record Core (cost : ℕ) (done : List ℕ) (st : Search) : Type 0 where
    pub origin : st.dist source ≡ some 0
    pub reached : (v d : ℕ) → st.dist v ≡ some d → (v ≡ source) ⊎ Reached st done v d
    pub queued : (v d : ℕ) → st.dist v ≡ some d → mem v done ≡ false → Memᴰ (d, v) st.heap
    pub entries : All (IsEntry cost st.dist) st.heap
    pub near : (u : ℕ) → mem u done ≡ true → Within st.dist u cost
    pub chain : Chain source st.prev done

  module _ (laws : IsCostAddition add) (cost node : ℕ) (done : List ℕ) (st : Search) where
    module _ (core : Core cost done st) (expanded : mem node done ≡ true)
        (known : st.dist node ≡ some cost) (edge : EdgeRecord) (linked : Memᴰ edge (links node))
        (permit : allowed edge ≡ true)
        (improves : below (add cost (cost_of edge)) (st.dist edge.target_node) ≡ true) where
      abbrev target : ℕ
      target = edge.target_node

      abbrev new_cost : ℕ
      new_cost = add cost (cost_of edge)

      abbrev improved : Search
      improved = record {
        dist = set target (some new_cost) st.dist;
        prev = set target (some node) st.prev;
        heap = (new_cost, target) ∷ st.heap;
      }

      new_cost-ge : cost ≤ new_cost
      new_cost-ge = laws.grows cost (cost_of edge)

      improves_on : (d : ℕ) → st.dist target ≡ some d → new_cost < d
      improves_on d e = ltb→lt _ _ (rw (e, below) at improves)

      not_done : mem target done ≡ false
      not_done = elim (Bool-cases (mem target done)) [
        | inl e ↦
            let (d, at_d, small) = core.near target e in
            absurd (omega (arith, improves_on d at_d, small, new_cost-ge))
        | inr e ↦ e
      ]

      other : (u : ℕ) → mem u done ≡ true → (u == target) ≡ false
      other u h = elim (Bool-cases (u == target)) [
        | inl e ↦
            let same : u ≡ target = (==_iff u target).0 e in
            absurd (cc (subst (λ t. mem t done ≡ true) same h, not_done))
        | inr e ↦ e
      ]

      target-lt : target < n
      target-lt = permitted_inside constraints n edge permit

      other_source : (source == target) ≡ false
      other_source = elim (Bool-cases (source == target)) [
        | inl e ↦
            let same : source ≡ target = (==_iff source target).0 e in
            let zero_there = subst (λ t. st.dist t ≡ some 0) same core.origin in
            absurd (omega (arith, improves_on 0 zero_there))
        | inr e ↦ e
      ]

      improved-Lower : Lower done st improved
      improved-Lower = record {
        smaller = λ v d e. elim (Bool-cases (v == target)) [
          | inl f ↦
              let at_target = subst (λ t. st.dist t ≡ some d) ((==_iff v target).0 f) e in
              (new_cost, rw f refl, omega (arith, improves_on d at_target))
          | inr f ↦ (d, rw f e, omega arith)
        ];
        same = λ u h. rw (other u h) refl;
      }

      improved-Reached :
          (v d : ℕ) → improved.dist v ≡ some d → (v ≡ source) ⊎ Reached improved done v d
      improved-Reached v d e = elim (Bool-cases (v == target)) [
        | inl f ↦
            let new : new_cost ≡ d = cc (rw f at e) in
            inr (record {
              via = node;
              via_dist = cost;
              edge = edge;
              before = rw f refl;
              expanded = expanded;
              known = rw (other node expanded) known;
              linked = linked;
              permit = permit;
              target = (==_iff v target).0 f;
              total = sym new;
            })
        | inr f ↦ elim (core.reached v d (rw f at e)) [
          | inl here ↦ inl here
          | inr r ↦ inr (record {
            via = r.via;
            via_dist = r.via_dist;
            edge = r.edge;
            before = rw f r.before;
            expanded = r.expanded;
            known = rw (other r.via r.expanded) r.known;
            linked = r.linked;
            permit = r.permit;
            target = r.target;
            total = r.total;
          })
        ]
      ]

      improved-queued :
          (v d : ℕ) → improved.dist v ≡ some d → mem v done ≡ false → Memᴰ (d, v) improved.heap
      improved-queued v d e h = elim (Bool-cases (v == target)) [
        | inl f ↦
            let new : new_cost ≡ d = cc (rw f at e) in
            let same : v ≡ target = (==_iff v target).0 f in Memᴰ.head (rw (← new, same) refl)
        | inr f ↦ Memᴰ.tail (core.queued v d (rw f at e) h)
      ]

      improved-entry : (x : Entry) → IsEntry cost st.dist x → IsEntry cost improved.dist x
      improved-entry x h =
          let (d, at_x, small) = h.1 in
          let (d', at_x', small') = improved-Lower.smaller x.1 d at_x in
          (h.0, (d', at_x', omega (arith, small, small')), h.2)

      -- Writing the better distance down keeps what holds of the search.
      improved-Core : Core cost done improved
      improved-Core = record {
        origin = rw other_source core.origin;
        reached = improved-Reached;
        queued = improved-queued;
        entries = (
          (new_cost-ge, (new_cost, rw (==_refl target) refl, omega arith), target-lt),
          All-map (IsEntry cost st.dist) (IsEntry cost improved.dist) st.heap improved-entry
              core.entries,
        );
        near = λ u h. let (d, at_u, small) = core.near u h in (d, rw (other u h) at_u, small);
        chain = Chain-set source st.prev done target (some node) not_done core.chain;
      }

    pub record Kept (next : Search) (edges : List EdgeRecord) (room : ℕ) : Type 0 where
      pub core : Core cost done next
      pub lower : Lower done st next
      pub relaxed : All (IsRelaxed add constraints n cost next.dist) edges
      pub size : length next.heap ≤ length st.heap + room

    pub stays-Lower : Lower done st st
    stays-Lower = record { smaller = λ v d e. (d, e, omega arith); same = λ u h. refl }

    pub relax-Kept :
        (edge : EdgeRecord)
        → Core cost done st
        → mem node done ≡ true
        → st.dist node ≡ some cost
        → Memᴰ edge (links node)
        → Kept (relax add constraints n cost node edge st) (edge ∷ []) 1
    unfolding relax
    relax-Kept edge core expanded known linked =
        let new = add cost (cost_of edge) in
        let old = st.dist edge.target_node in
        elim (Bool-cases (allowed edge)) [
          | inl p ↦ elim (Bool-cases (below new old)) [
            | inl b ↦
                let next = improved core expanded known edge linked p b in
                rw (p, b)
                  (record {
                    core = improved-Core core expanded known edge linked p b;
                    lower = improved-Lower core expanded known edge linked p b;
                    relaxed = (λ q. (new, rw (==_refl edge.target_node) refl, omega arith), tt);
                    size = omega arith;
                  })
            | inr b ↦
                rw (p, b)
                  (record {
                    core = core;
                    lower = stays-Lower;
                    relaxed = (
                      λ q. elim (Option-cases old) [
                        | inl e ↦ absurd (cc (rw (e, below) at b))
                        | inr (d, e) ↦ (d, e, let far = rw (e, below) at b in ground (arith, far))
                      ],
                      tt,
                    );
                    size = omega arith;
                  })
          ]
          | inr p ↦ rw p (record {
            core = core;
            lower = stays-Lower;
            relaxed = (λ q. absurd (cc (p, q)), tt);
            size = omega arith;
          })
        ]
