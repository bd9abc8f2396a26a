-- ===== src/Vision/Diff/Bounds.antt =====
-- Merging keeps the regions inside the image (crates/agentic-vision/src/diff.rs).
use agentic_vision.Prelude.{
  ℕ, zero, suc, ◌+◌, ◌≤◌, inl, inr, List, [], ◌∷◌, arith, length, All, Bool-cases, ltb,
}
use agentic_vision.Vision.Types.{Rect}
use agentic_vision.Vision.Diff.{
  rects_adjacent, merge_rects, absorb, merge_pass, merge_loop, merge_adjacent_regions,
}
use agentic_vision.Vision.Diff.Merge.{absorb_hit, absorb_miss}

-- A rectangle inside the box of the given width and height, at least `least` wide.
pub record Fits (width height least : ℕ) (r : Rect) : Type 0 where
  pub right : r.x + r.w ≤ width
  pub bottom : r.y + r.h ≤ height
  pub wide : least ≤ r.w

module _ (width height least : ℕ) where
  merge_rects-Fits :
      (a b : Rect)
      → Fits width height least a
      → Fits width height least b
      → Fits width height least (merge_rects a b)
  unfolding merge_rects
  merge_rects-Fits a b h k = omega arith

  absorb-Fits :
      (a : Rect) (bs : List Rect)
      → Fits width height least a
      → All (Fits width height least) bs
      → Fits width height least (absorb a bs).rect
        × All (Fits width height least) (absorb a bs).rest
  absorb-Fits a [] h k = unfold absorb in (h, tt)
  absorb-Fits a (b ∷ bs) h k = elim (Bool-cases (rects_adjacent a b)) [
    | inl e ↦
        rw (absorb_hit a b bs e) (absorb-Fits (merge_rects a b) bs (merge_rects-Fits a b h k.0) k.1)
    | inr e ↦
        let (rect, rest) = absorb-Fits a bs h k.1 in rw (absorb_miss a b bs e) (rect, (k.0, rest))
  ]

  merge_pass-Fits :
      (fuel : ℕ) (rs : List Rect)
      → All (Fits width height least) rs
      → All (Fits width height least) (merge_pass fuel rs).0
  unfolding merge_pass
  merge_pass-Fits zero rs h = h
  merge_pass-Fits (suc fuel) [] h = h
  merge_pass-Fits (suc fuel) (a ∷ rs) h =
      let (rect, rest) = absorb-Fits a rs h.0 h.1 in
      (rect, merge_pass-Fits fuel (absorb a rs).rest rest)

  merge_loop-Fits :
      (fuel : ℕ) (rs : List Rect)
      → All (Fits width height least) rs
      → All (Fits width height least) (merge_loop fuel rs)
  unfolding merge_loop
  merge_loop-Fits zero rs h = h
  merge_loop-Fits (suc fuel) rs h =
      let kept = merge_pass-Fits (length rs) rs h in
      elim (Bool-cases (merge_pass (length rs) rs).1) [
        | inl e ↦ rw (e, merge_loop) (merge_loop-Fits fuel (merge_pass (length rs) rs).0 kept)
        | inr e ↦ rw (e, merge_loop) kept
      ]

  pub merge_adjacent_regions-Fits :
      (rs : List Rect)
      → All (Fits width height least) rs
      → All (Fits width height least) (merge_adjacent_regions rs)
  unfolding merge_adjacent_regions
  merge_adjacent_regions-Fits rs h = elim (Bool-cases (ltb (length rs) 2)) [
    | inl e ↦ rw e h
    | inr e ↦ rw e (merge_loop-Fits (length rs) rs h)
  ]
