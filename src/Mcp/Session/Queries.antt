-- ===== src/Mcp/Session/Queries.antt =====
-- Requests of a session manager that look captures up by their ids
-- (crates/agentic-vision-mcp/src/session/manager.rs).
use agentic_vision.Prelude.{
  ℕ, suc, ◌+◌, ◌<◌, ◌≤◌, ◌≡◌, refl, none, some, List, [], ◌∷◌, true, arith, Bool-cases, inl, inr,
  All, All-map, ◌%◌, ◌∙◌, sym, ap, misses, retain, ◌==◌, if◌then◌else◌, Option, Option-cases,
}
use agentic_vision.Vision.Types.{F32, VisualObservation, VisualDiff, u64_mod}
use agentic_vision.Vision.Store
use agentic_vision.Vision.Store.Ids.{IsWellFormed, Increasing}
use agentic_vision.Vision.Store.Lookup.{get-get_mut}
use agentic_vision.Vision.Similarity.{FloatOps, find_similar}
use agentic_vision.Vision.Similarity.Ranking.{FloatOrder, find_similar_others, other_observation}
use agentic_vision.Vision.Storage.{Codec}
use agentic_vision.Vision.Diff.{Images, Floats, compute_diff}
use agentic_vision.Vision.Diff.Compare.{compute_diff_symmetric}
use agentic_vision.Mcp.Types.{McpResult, ok, err, panic, capture_not_found}
use agentic_vision.Mcp.Session.{VisionSessionManager, World, done, link}
use agentic_vision.Mcp.Session.Reads.{similar_captures, both, diff_captures, diff_thumbnails}

misses_above :
    (id : ℕ) (os : List VisualObservation)
    → All (λ o. id < o.id) os
    → misses (other_observation id) os ≡ 0
misses_above id [] h = refl
misses_above id (o ∷ os) h = ground (arith, misses_above id os h.1)

misses-Increasing-le :
    (id : ℕ) (os : List VisualObservation) → Increasing os → misses (other_observation id) os ≤ 1
misses-Increasing-le id [] h = omega arith
misses-Increasing-le id (o ∷ os) h = elim (Bool-cases (o.id == id)) [
  | inl e ↦
      let same : o.id ≡ id = ground arith in
      rw e (omega (arith, misses_above id os (All-map _ _ os (λ p k. omega arith) h.0)))
  | inr e ↦ rw e (misses-Increasing-le id os h.1)
]

module _ (ops : FloatOps) (order : FloatOrder ops) where
  -- If the comparison of floats is an order on numbers, the store is well formed and top_k + 1 is
  -- below 2^64: the captures similar to a stored one are what the search finds among the others.
  pub similar_captures-find_similar :
      (m : VisionSessionManager) (capture_id top_k : ℕ) (min_similarity : F32)
      (obs : VisualObservation)
      → IsWellFormed m.store
      → top_k + 1 < u64_mod
      → Store.get m.store capture_id ≡ some obs
      → similar_captures ops m capture_id top_k min_similarity
        ≡ ok (
            find_similar ops obs.embedding
              (retain (other_observation capture_id) m.store.observations)
              top_k
              min_similarity)
  unfolding similar_captures
  similar_captures-find_similar m capture_id top_k min_similarity obs wf small found =
      let one_more : (top_k + 1) % u64_mod ≡ suc top_k = omega arith in
      rw (found, similar_captures, one_more)
        (ap ok (
          find_similar_others ops order obs.embedding m.store.observations top_k min_similarity
            capture_id (misses-Increasing-le capture_id m.store.observations wf.increasing)))

module _ (json : Codec) (m : VisionSessionManager) (w : World) (capture_id node : ℕ) where
  abbrev linked : VisualObservation → VisualObservation
  linked o = record o { memory_link = some node }

  link_found :
      (obs : VisualObservation)
      → Store.get m.store capture_id ≡ some obs
      → link json m w capture_id node
        ≡ done
            (record m { store = Store.get_mut linked m.store capture_id; dirty = true })
            w
            (ok tt)
  unfolding link
  link_found obs e = rw (e, link) refl

  get-linked :
      (obs : VisualObservation) (id : ℕ)
      → Store.get m.store capture_id ≡ some obs
      → Store.get (Store.get_mut linked m.store capture_id) id
        ≡ (if capture_id == id then some (linked obs) else Store.get m.store id)
  get-linked obs id e = elim (Bool-cases (capture_id == id)) [
    | inl same ↦
        let here : capture_id ≡ id = ground arith in
        get-get_mut linked (λ o. refl) m.store capture_id id ∙ rw (same, sym here, e) refl
    | inr differ ↦ get-get_mut linked (λ o. refl) m.store capture_id id ∙ rw differ refl
  ]

  -- A link to a stored capture succeeds, changes that observation and no other, and leaves the
  -- manager dirty; without such an observation it reports the id and leaves the manager and the
  -- world as they were.
  pub link-get :
      (id : ℕ)
      → (Store.get m.store capture_id ≡ none
          → link json m w capture_id node ≡ done m w (err (capture_not_found capture_id)))
        × ((obs : VisualObservation)
            → Store.get m.store capture_id ≡ some obs
            → ((link json m w capture_id node).result ≡ ok tt)
              × ((link json m w capture_id node).manager.dirty ≡ true)
              × (Store.get (link json m w capture_id node).manager.store id ≡ (
                  if capture_id == id
                  then some (record obs { memory_link = some node })
                  else Store.get m.store id)))
  unfolding link
  link-get id =
      (λ e. rw (e, link) refl, λ obs e. rw (link_found obs e) (refl, refl, get-linked obs id e))

module _ (images : Images) (floats : Floats) (load : List ℕ → Option images.Image)
    (m : VisionSessionManager) (i j : ℕ) where
  both_found :
      (r : McpResult (VisualObservation × VisualObservation)) (d : VisualDiff)
      → both m i j ≡ r
      → diff_captures images floats load m i j ≡ ok d
      → (a : VisualObservation) × (b : VisualObservation) × (both m i j ≡ ok (a, b))
        × (diff_thumbnails images floats load i j a.thumbnail b.thumbnail ≡ ok d)
  unfolding diff_captures
  both_found (ok (a, b)) d e h = (a, b, e, rw (e, diff_captures) at h)
  both_found (err x) d e h = absurd (cc (let k = rw (e, diff_captures) at h in k))
  both_found panic d e h = absurd (cc (let k = rw (e, diff_captures) at h in k))

  both_swap : (a b : VisualObservation) → both m i j ≡ ok (a, b) → both m j i ≡ ok (b, a)
  unfolding both
  both_swap a b h = elim (Option-cases (Store.get m.store i)) [
    | inl e ↦ absurd (cc (let k = rw (e, both) at h in k))
    | inr (x, e) ↦ elim (Option-cases (Store.get m.store j)) [
      | inl f ↦ absurd (cc (let k = rw (e, both, f) at h in k))
      | inr (y, f) ↦ let k : ok (x, y) ≡ ok (a, b) = rw (e, both, f) at h in rw (f, both, e) (cc k)
    ]
  ]

  diff_thumbnails_swap :
      (s t : List ℕ) (d : VisualDiff)
      → diff_thumbnails images floats load i j s t ≡ ok d
      → diff_thumbnails images floats load j i t s ≡ ok (record d { before_id = j; after_id = i })
  unfolding diff_thumbnails
  diff_thumbnails_swap s t d h = elim (Option-cases (load s)) [
    | inl e ↦ absurd (cc (let k = rw (e, diff_thumbnails) at h in k))
    | inr (x, e) ↦ elim (Option-cases (load t)) [
      | inl f ↦ absurd (cc (let k = rw (e, diff_thumbnails, f) at h in k))
      | inr (y, f) ↦
          let k : ok (compute_diff images floats i j x y) ≡ ok d =
            rw (e, diff_thumbnails, f) at h in
          let same : compute_diff images floats i j x y ≡ d = cc k in
          rw (f, diff_thumbnails, e)
            (ap ok (
              compute_diff_symmetric images floats i j x y
              ∙ ap (λ (v : VisualDiff). record v { before_id = j; after_id = i }) same))
    ]
  ]

  -- If two captures can be compared pixel by pixel, they can in the other order, with the same
  -- result up to the two ids.
  pub diff_captures_symmetric :
      (d : VisualDiff)
      → diff_captures images floats load m i j ≡ ok d
      → diff_captures images floats load m j i ≡ ok (record d { before_id = j; after_id = i })
  unfolding diff_captures
  diff_captures_symmetric d h =
      let (a, b, found, differ) = both_found (both m i j) d refl h in
      rw (both_swap a b found, diff_captures)
        (diff_thumbnails_swap a.thumbnail b.thumbnail d differ)
