-- ===== src/Map/Build/Degrees.antt =====
-- How many edges of a built map enter and leave a node (runtime/src/map/builder.rs).
use agentic_vision.Prelude.{
  ℕ, suc, ◌+◌, ◌-◌, ◌^◌, ◌<◌, ◌≡◌, refl, sym, ◌∙◌, some, List, [], ◌∷◌, map, Bool, true, false, not,
  ◌==◌, leb, ltb, min, arith, length, get_elem?, get_elem?-modify, modify, retain, misses,
  Bool-cases, inl, inr, length-modify, if◌then◌else◌,
}
use agentic_vision.Prelude.Sort.{sort_by, misses-sort_by}
use agentic_vision.Map.Types.{EdgeRecord, NodeRecord, ActionRecord}
use agentic_vision.Map.Bytes.{ok}
use agentic_vision.Map.Floats.{Floats}
use agentic_vision.Map.Builder.{EdgeData, SiteMapBuilder}
use agentic_vision.Map.Build.{
  one_more_out, one_more_in, count_links, build, by_source, edges_sorted,
}
use agentic_vision.Map.Reader.{edges_from, actions_for}
use agentic_vision.Map.Build.Csr.{occurrences}
use agentic_vision.Map.Build.Links.{csr_slice-sort_by}

pub length-count_links :
    (edges : List EdgeData) (nodes : List NodeRecord)
    → length (count_links edges nodes) ≡ length nodes
unfolding count_links
length-count_links [] nodes = refl
length-count_links (ed ∷ edges) nodes =
    length-count_links edges _
    ∙ length-modify ed.edge.target_node one_more_in (modify ed.source one_more_out nodes)
    ∙ length-modify ed.source one_more_out nodes

abbrev pub edges_of : SiteMapBuilder → ℕ → List EdgeRecord
edges_of b n =
    if ltb n (length b.nodes)
    then map (λ ed. ed.edge) (retain (λ ed. ed.source == n) b.edges)
    else []

abbrev pub actions_of : SiteMapBuilder → ℕ → List ActionRecord
actions_of b n =
    if ltb n (length b.nodes)
    then map (λ ad. ad.action) (retain (λ ad. ad.node == n) b.actions)
    else []

module _ (ops : Floats) (now : ℕ) (b : SiteMapBuilder) (n : ℕ) where
  -- With fewer than 2^32 edges, the edges of a node in a built map are those that were added for
  -- it, in the order in which they were added; a node outside the map has none.
  pub edges_from-build :
      length b.edges < 2 ^ 32 → edges_from (build ops now b) n ≡ ok (edges_of b n)
  unfolding edges_from build
  edges_from-build fits =
      let size = length-count_links (edges_sorted b) b.nodes in
      elim (Bool-cases (ltb n (length b.nodes))) [
        | inl e ↦
            let inside : leb (length b.nodes) n ≡ false = ground arith in
            rw (size, inside, e)
              (csr_slice-sort_by (λ ed. ed.source) (λ ed. ed.edge) (length b.nodes) n b.edges fits
                (ground arith))
        | inr e ↦
            let outside : leb (length b.nodes) n ≡ true = ground arith in rw (size, outside, e) refl
      ]

  pub actions_for-build :
      length b.actions < 2 ^ 32 → actions_for (build ops now b) n ≡ ok (actions_of b n)
  unfolding actions_for build
  actions_for-build fits =
      let size = length-count_links (edges_sorted b) b.nodes in
      elim (Bool-cases (ltb n (length b.nodes))) [
        | inl e ↦
            let inside : leb (length b.nodes) n ≡ false = ground arith in
            rw (size, inside, e)
              (csr_slice-sort_by (λ ad. ad.node) (λ ad. ad.action) (length b.nodes) n b.actions fits
                (ground arith))
        | inr e ↦
            let outside : leb (length b.nodes) n ≡ true = ground arith in rw (size, outside, e) refl
      ]

abbrev limit : ℕ
limit = 2 ^ 16 - 1

-- A node whose counts are as they were when `outbound` and `inbound` edges less had been seen.
record Counts (node : NodeRecord) (outbound inbound : ℕ) : Type 0 where
  outbound_count : node.outbound_count ≡ min outbound limit
  inbound_count : node.inbound_count ≡ min inbound limit

abbrev after_out : EdgeData → ℕ → NodeRecord → NodeRecord
after_out ed n node = if ed.source == n then one_more_out node else node

abbrev after_in : EdgeData → ℕ → NodeRecord → NodeRecord
after_in ed n node = if ed.edge.target_node == n then one_more_in node else node

after_out-Counts :
    (ed : EdgeData) (n : ℕ) (node : NodeRecord) (o i : ℕ)
    → Counts node o i
    → Counts (after_out ed n node) (if ed.source == n then suc o else o) i
unfolding one_more_out
after_out-Counts ed n node o i h = elim (Bool-cases (ed.source == n)) [
  | inl e ↦
      rw e (record {
        outbound_count = omega (arith, h.outbound_count);
        inbound_count = h.inbound_count;
      })
  | inr e ↦ rw e h
]

after_in-Counts :
    (ed : EdgeData) (n : ℕ) (node : NodeRecord) (o i : ℕ)
    → Counts node o i
    → Counts (after_in ed n node) o (if ed.edge.target_node == n then suc i else i)
unfolding one_more_in
after_in-Counts ed n node o i h = elim (Bool-cases (ed.edge.target_node == n)) [
  | inl e ↦
      rw e (record {
        outbound_count = h.outbound_count;
        inbound_count = omega (arith, h.inbound_count);
      })
  | inr e ↦ rw e h
]

abbrev sources : List EdgeData → List ℕ
sources edges = map (λ ed. ed.source) edges

abbrev targets : List EdgeData → List ℕ
targets edges = map (λ ed. ed.edge.target_node) edges

if_suc : (t : Bool) (a b : ℕ) → (if t then suc a else a) + b ≡ a + (if t then suc b else b)
if_suc true a b = omega arith
if_suc false a b = refl

count_links_node :
    (edges : List EdgeData) (nodes : List NodeRecord) (n : ℕ) (node : NodeRecord) (o i : ℕ)
    → get_elem? nodes n ≡ some node
    → Counts node o i
    → (found : NodeRecord) × (get_elem? (count_links edges nodes) n ≡ some found)
      × Counts found (o + occurrences n (sources edges)) (i + occurrences n (targets edges))
unfolding count_links
count_links_node [] nodes n node o i e h =
    let eo : o + 0 ≡ o = omega arith in let ei : i + 0 ≡ i = omega arith in (node, e, rw (eo, ei) h)
count_links_node (ed ∷ edges) nodes n node o i e h =
    let left = after_out ed n node in
    let next = after_in ed n left in
    let there =
      get_elem?-modify ed.edge.target_node one_more_in (modify ed.source one_more_out nodes) n left
        (get_elem?-modify ed.source one_more_out nodes n node e) in
    let counted = after_in-Counts ed n left _ i (after_out-Counts ed n node o i h) in
    let (found, at_n, counts) = count_links_node edges _ n next _ _ there counted in
    let out = if_suc (ed.source == n) o (occurrences n (sources edges)) in
    let in_ = if_suc (ed.edge.target_node == n) i (occurrences n (targets edges)) in
    (found, at_n, rw (out, in_) at counts)

occurrences-misses :
    {A : Type 0} (f : A → ℕ) (n : ℕ) (xs : List A)
    → occurrences n (map f xs) ≡ misses (λ x. not (f x == n)) xs
occurrences-misses f n [] = refl
occurrences-misses f n (x ∷ xs) = ground (arith, occurrences-misses f n xs)

occurrences-sort_by :
    {A : Type 0} (le : A → A → Bool) (f : A → ℕ) (n : ℕ) (xs : List A)
    → occurrences n (map f (sort_by le xs)) ≡ occurrences n (map f xs)
occurrences-sort_by le f n xs =
    occurrences-misses f n (sort_by le xs)
    ∙ misses-sort_by le (λ x. not (f x == n)) xs
    ∙ sym (occurrences-misses f n xs)

length-retain :
    {A : Type 0} (f : A → ℕ) (n : ℕ) (xs : List A)
    → length (retain (λ x. f x == n) xs) ≡ occurrences n (map f xs)
length-retain f n [] = refl
length-retain f n (x ∷ xs) = ground (arith, length-retain f n xs)

module _ (ops : Floats) (now : ℕ) (b : SiteMapBuilder) (n : ℕ) (node : NodeRecord) where
  -- A node that had no edge counted has in the built map as many outgoing and incoming edges as
  -- were added, but 65,535 at most.
  pub degrees :
      get_elem? b.nodes n ≡ some node
      → node.outbound_count ≡ 0
      → node.inbound_count ≡ 0
      → (found : NodeRecord) × (get_elem? (build ops now b).nodes n ≡ some found)
        × (found.outbound_count ≡ min (length (retain (λ ed. ed.source == n) b.edges)) (2 ^ 16 - 1))
        × (found.inbound_count
            ≡ min (length (retain (λ ed. ed.edge.target_node == n) b.edges)) (2 ^ 16 - 1))
  unfolding build
  degrees e eo ei =
      let start : Counts node 0 0 = record {
        outbound_count = omega (arith, eo);
        inbound_count = omega (arith, ei);
      } in
      let (found, at_n, counts) = count_links_node (edges_sorted b) b.nodes n node 0 0 e start in
      let out = occurrences-sort_by by_source (λ ed. ed.source) n b.edges in
      let in_ = occurrences-sort_by by_source (λ ed. ed.edge.target_node) n b.edges in
      (
        found,
        at_n,
        omega (arith, counts.outbound_count, out, length-retain (λ ed. ed.source) n b.edges),
        omega
            (arith, counts.inbound_count, in_, length-retain (λ ed. ed.edge.target_node) n b.edges),
      )
