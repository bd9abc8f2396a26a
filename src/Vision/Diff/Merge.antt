-- ===== src/Vision/Diff/Merge.antt =====
-- `merge_adjacent_regions` (crates/agentic-vision/src/diff.rs): it ends, it loses no region, and
-- what it returns cannot be merged further.
use agentic_vision.Prelude.{
  ℕ, zero, suc, ◌+◌, ◌≤◌, ◌<◌, ◌≡◌, refl, sym, ap, ◌⊎◌, inl, inr, List, [], ◌∷◌, true, false, arith,
  length, All, All-map, Bool, not, ◌||◌, Bool-cases, ltb, ltb→lt, lt→ltb, ◌∙◌,
}
use mathlib.Core.Logic.{⊎_elim}
use mathlib.Core.Bool.{false≢true}
use agentic_vision.Prelude.Sort.{Pairwise}
use agentic_vision.Vision.Types.{Rect}
use agentic_vision.Vision.Diff.{
  rects_adjacent, merge_rects, absorb, merge_pass, merge_loop, merge_adjacent_regions,
}

-- The first rectangle lies inside the second.
pub record Within (r q : Rect) : Type 0 where
  pub left : q.x ≤ r.x
  pub top : q.y ≤ r.y
  pub right : r.x + r.w ≤ q.x + q.w
  pub bottom : r.y + r.h ≤ q.y + q.h

-- The rectangle lies inside one of the list.
abbrev pub Covered : Rect → List Rect → Type 0
Covered r [] = ⊥
Covered r (q ∷ qs) = Within r q ⊎ Covered r qs

-- There is a free column or a free row between the two.
abbrev pub Apart : Rect → Rect → Type 0
Apart a b = (a.x + a.w < b.x) ⊎ ((b.x + b.w < a.x) ⊎ ((a.y + a.h < b.y) ⊎ (b.y + b.h < a.y)))

-- Any two rectangles of the list are apart.
abbrev pub Separated : List Rect → Type 0
Separated rs = Pairwise Apart rs

apart_or_not :
    (p q r s : Bool)
    → not (p || (q || (r || s))) ≡ false
    → (p ≡ true) ⊎ ((q ≡ true) ⊎ ((r ≡ true) ⊎ (s ≡ true)))
apart_or_not true q r s e = inl refl
apart_or_not false true r s e = inr (inl refl)
apart_or_not false false true s e = inr (inr (inl refl))
apart_or_not false false false true e = inr (inr (inr refl))
apart_or_not false false false false e = absurd (cc e)

not_adjacent : (a b : Rect) → rects_adjacent a b ≡ false → Apart a b
unfolding rects_adjacent
not_adjacent a b e = elim (apart_or_not _ _ _ _ e) [
  | inl h ↦ inl (ltb→lt _ _ h)
  | inr (inl h) ↦ inr (inl (ltb→lt _ _ h))
  | inr (inr (inl h)) ↦ inr (inr (inl (ltb→lt _ _ h)))
  | inr (inr (inr h)) ↦ inr (inr (inr (ltb→lt _ _ h)))
]

pub Within-refl : (r : Rect) → Within r r
Within-refl r = omega arith

Within-merge_left : (r a b : Rect) → Within r a → Within r (merge_rects a b)
unfolding merge_rects
Within-merge_left r a b h = omega arith

Within-merge_right : (r a b : Rect) → Within r b → Within r (merge_rects a b)
unfolding merge_rects
Within-merge_right r a b h = omega arith

pub absorb_hit :
    (a b : Rect) (bs : List Rect)
    → rects_adjacent a b ≡ true
    → absorb a (b ∷ bs) ≡ record (absorb (merge_rects a b) bs) { merged = true }
unfolding absorb
absorb_hit a b bs e = rw e

pub absorb_miss :
    (a b : Rect) (bs : List Rect)
    → rects_adjacent a b ≡ false
    → absorb a (b ∷ bs) ≡ record (absorb a bs) { rest = b ∷ (absorb a bs).rest }
unfolding absorb
absorb_miss a b bs e = rw e

absorb-Covered :
    (r a : Rect) (bs : List Rect)
    → Covered r (a ∷ bs)
    → Covered r ((absorb a bs).rect ∷ (absorb a bs).rest)
absorb-Covered r a [] h = unfold absorb in h
absorb-Covered r a (b ∷ bs) h = elim (Bool-cases (rects_adjacent a b)) [
  | inl e ↦ rw (absorb_hit a b bs e) (
      absorb-Covered r (merge_rects a b) bs (elim h [
        | inl in_a ↦ inl (Within-merge_left r a b in_a)
        | inr (inl in_b) ↦ inl (Within-merge_right r a b in_b)
        | inr (inr later) ↦ inr later
      ]))
  | inr e ↦
      let kept = λ (k : Covered r (a ∷ bs)). absorb-Covered r a bs k in
      rw (absorb_miss a b bs e) (elim h [
        | inl in_a ↦ ⊎_elim inl (λ k. inr (inr k)) (kept (inl in_a))
        | inr (inl in_b) ↦ inr (inl in_b)
        | inr (inr later) ↦ ⊎_elim inl (λ k. inr (inr k)) (kept (inr later))
      ])
]

length-absorb :
    (a : Rect) (bs : List Rect)
    → (length (absorb a bs).rest ≤ length bs)
      × ((absorb a bs).merged ≡ true → length (absorb a bs).rest < length bs)
length-absorb a [] = unfold absorb in ground arith
length-absorb a (b ∷ bs) = elim (Bool-cases (rects_adjacent a b)) [
  | inl e ↦
      let (short, _) = length-absorb (merge_rects a b) bs in
      rw (absorb_hit a b bs e) (omega (arith, short), λ _. omega (arith, short))
  | inr e ↦
      let (short, less) = length-absorb a bs in
      rw (absorb_miss a b bs e) (omega (arith, short), λ m. omega (arith, less m))
]

absorb_unmerged :
    (a : Rect) (bs : List Rect)
    → (absorb a bs).merged ≡ false
    → ((absorb a bs).rect ≡ a)
      × ((absorb a bs).rest ≡ bs)
      × All (λ q. rects_adjacent a q ≡ false) bs
absorb_unmerged a [] h = unfold absorb in (refl, refl, tt)
absorb_unmerged a (b ∷ bs) h = elim (Bool-cases (rects_adjacent a b)) [
  | inl e ↦ absurd (false≢true (sym (rw (absorb_hit a b bs e) at h)))
  | inr e ↦
      let (same, kept, apart) = absorb_unmerged a bs (rw (absorb_miss a b bs e) at h) in
      rw (absorb_miss a b bs e) (same, ap (λ t. b ∷ t) kept, (e, apart))
]

merge_pass-Covered :
    (r : Rect) (fuel : ℕ) (rs : List Rect) → Covered r rs → Covered r (merge_pass fuel rs).0
unfolding merge_pass
merge_pass-Covered r zero rs h = h
merge_pass-Covered r (suc fuel) [] h = h
merge_pass-Covered r (suc fuel) (a ∷ rs) h =
    ⊎_elim inl (λ k. inr (merge_pass-Covered r fuel (absorb a rs).rest k)) (absorb-Covered r a rs h)

-- A pass never adds rectangles, and drops one if it has merged.
length-merge_pass :
    (fuel : ℕ) (rs : List Rect)
    → (length (merge_pass fuel rs).0 ≤ length rs)
      × ((merge_pass fuel rs).1 ≡ true → length (merge_pass fuel rs).0 < length rs)
unfolding merge_pass
length-merge_pass zero rs = (omega arith, λ m. absurd (cc))
length-merge_pass (suc fuel) [] = (omega arith, λ m. absurd (cc))
length-merge_pass (suc fuel) (a ∷ rs) =
    ground (arith, length-absorb a rs, length-merge_pass fuel (absorb a rs).rest)

-- A pass that has merged nothing has changed nothing, and found no adjacent pair.
merge_pass_unmerged :
    (fuel : ℕ) (rs : List Rect)
    → length rs ≤ fuel
    → (merge_pass fuel rs).1 ≡ false
    → ((merge_pass fuel rs).0 ≡ rs) × Separated rs
unfolding merge_pass
merge_pass_unmerged zero [] n h = (refl, tt)
merge_pass_unmerged zero (a ∷ rs) n h = absurd (omega arith)
merge_pass_unmerged (suc fuel) [] n h = (refl, tt)
merge_pass_unmerged (suc fuel) (a ∷ rs) n h =
    let unmerged : (absorb a rs).merged ≡ false = ground arith in
    let (same, kept, apart) = absorb_unmerged a rs unmerged in
    let quiet : (merge_pass fuel (absorb a rs).rest).1 ≡ false = ground arith in
    let (later, separated) = merge_pass_unmerged fuel rs (omega arith) (rw kept at quiet) in
    (rw (same, kept, later) refl, (All-map _ _ _ (λ q e. not_adjacent a q e) apart, separated))

merge_loop-Covered :
    (r : Rect) (fuel : ℕ) (rs : List Rect) → Covered r rs → Covered r (merge_loop fuel rs)
unfolding merge_loop
merge_loop-Covered r zero rs h = h
merge_loop-Covered r (suc fuel) rs h =
    let kept = merge_pass-Covered r (length rs) rs h in
    elim (Bool-cases (merge_pass (length rs) rs).1) [
      | inl e ↦ rw (e, merge_loop) (merge_loop-Covered r fuel (merge_pass (length rs) rs).0 kept)
      | inr e ↦ rw (e, merge_loop) kept
    ]

merge_loop-Separated :
    (fuel : ℕ) (rs : List Rect) → length rs ≤ fuel → Separated (merge_loop fuel rs)
unfolding merge_loop
merge_loop-Separated zero [] n = tt
merge_loop-Separated zero (a ∷ rs) n = absurd (omega arith)
merge_loop-Separated (suc fuel) rs n = elim (Bool-cases (merge_pass (length rs) rs).1) [
  | inl e ↦
      let less = (length-merge_pass (length rs) rs).1 e in
      rw (e, merge_loop)
        (merge_loop-Separated fuel (merge_pass (length rs) rs).0 (omega (arith, less)))
  | inr e ↦
      let (same, separated) = merge_pass_unmerged (length rs) rs (omega arith) e in
      rw (e, merge_loop, same) separated
]

few-Separated : (rs : List Rect) → length rs < 2 → Separated rs
few-Separated [] n = tt
few-Separated (a ∷ []) n = (tt, tt)
few-Separated (a ∷ b ∷ rs) n = absurd (omega arith)

Apart-adjacent : (a b : Rect) → Apart a b → rects_adjacent a b ≡ false
unfolding rects_adjacent
Apart-adjacent a b (inl h) = rw (lt→ltb _ _ h) refl
Apart-adjacent a b (inr (inl h)) = ground arith
Apart-adjacent a b (inr (inr (inl h))) = ground arith
Apart-adjacent a b (inr (inr (inr h))) = ground arith

absorb-nothing :
    (a : Rect) (bs : List Rect)
    → All (Apart a) bs
    → absorb a bs ≡ record { rect = a; rest = bs; merged = false }
unfolding absorb
absorb-nothing a [] h = refl
absorb-nothing a (b ∷ bs) h =
    absorb_miss a b bs (Apart-adjacent a b h.0) ∙ rw (absorb-nothing a bs h.1) refl

merge_pass-nothing : (fuel : ℕ) (rs : List Rect) → Separated rs → merge_pass fuel rs ≡ (rs, false)
unfolding merge_pass
merge_pass-nothing zero rs h = refl
merge_pass-nothing (suc fuel) [] h = refl
merge_pass-nothing (suc fuel) (a ∷ rs) h =
    rw (absorb-nothing a rs h.0, merge_pass-nothing fuel rs h.1) refl

merge_loop-nothing : (fuel : ℕ) (rs : List Rect) → Separated rs → merge_loop fuel rs ≡ rs
unfolding merge_loop
merge_loop-nothing zero rs h = refl
merge_loop-nothing (suc fuel) rs h =
    let same = merge_pass-nothing (length rs) rs h in
    rw (ap (λ t. t.1) same, merge_loop) (ap (λ t. t.0) same)

module _ (rs : List Rect) where
  merged-Separated : Separated (merge_adjacent_regions rs)
  unfolding merge_adjacent_regions
  merged-Separated = elim (Bool-cases (ltb (length rs) 2)) [
    | inl e ↦ rw e (few-Separated rs (ltb→lt _ _ e))
    | inr e ↦ rw e (merge_loop-Separated (length rs) rs (omega arith))
  ]

  -- Each rectangle that goes into the merge lies inside one of the result.
  pub merge_adjacent_regions-Covered :
      (r : Rect) → Covered r rs → Covered r (merge_adjacent_regions rs)
  unfolding merge_adjacent_regions
  merge_adjacent_regions-Covered r h = elim (Bool-cases (ltb (length rs) 2)) [
    | inl e ↦ rw e h
    | inr e ↦ rw e (merge_loop-Covered r (length rs) rs h)
  ]

  merged-nothing : Separated rs → merge_adjacent_regions rs ≡ rs
  unfolding merge_adjacent_regions
  merged-nothing h = elim (Bool-cases (ltb (length rs) 2)) [
    | inl e ↦ rw e refl
    | inr e ↦ rw e (merge_loop-nothing (length rs) rs h)
  ]

  -- When the merging loop ends, there is a free column or a free row between any two of the
  -- rectangles, each rectangle that went in lies inside one of the result, and a list in which
  -- any two were apart already stays as it was. (The fuel, one round for each rectangle,
  -- suffices: a round that merges leaves fewer.)
  pub merge_adjacent_regions-Separated :
      Separated (merge_adjacent_regions rs)
      × ((r : Rect) → Covered r rs → Covered r (merge_adjacent_regions rs))
      × (Separated rs → merge_adjacent_regions rs ≡ rs)
  merge_adjacent_regions-Separated =
      (merged-Separated, merge_adjacent_regions-Covered, merged-nothing)
