-- ===== src/Vision/Diff/Blind.antt =====
-- What `find_changed_regions` does not look at (crates/agentic-vision/src/diff.rs).
use agentic_vision.Prelude.{
  ℕ, zero, suc, ◌+◌, ◌-◌, ◌*◌, ◌%◌, ◌≤◌, ◌<◌, ◌≡◌, refl, arith, ltb, if◌then◌else◌, min,
}
use native.Mathlib.Nat.{le_trans, mul-le-mul_right}
use agentic_vision.Vision.Types.{u32_mod}
use agentic_vision.Vision.Diff.{
  GrayImage, count_row, count_rows, cell_region, cells_row, cells, cell_size, cell_count,
  grid_regions, find_changed_regions,
}

within : (i n k : ℕ) → i + suc n ≤ k → i + 1 ≤ k
within i n k h = omega arith

-- Two images of one size that agree left of `right` and above `bottom`.
module _ (width height : ℕ) (p q : ℕ → ℕ → ℕ) (right bottom threshold : ℕ)
    (agree : (x y : ℕ) → x < right → y < bottom → p x y ≡ q x y) where
  abbrev img_p : GrayImage
  img_p = record { width = width; height = height; pixel = p }

  abbrev img_q : GrayImage
  img_q = record { width = width; height = height; pixel = q }

  count_row_agree :
      (y n x c : ℕ)
      → x + n ≤ right
      → y < bottom
      → count_row img_p threshold y n x c ≡ count_row img_q threshold y n x c
  unfolding count_row
  count_row_agree y zero x c h k = refl
  count_row_agree y (suc n) x c h k = rw (agree x y (omega arith) k) (
      count_row_agree y n (x + 1) (if ltb threshold (q x y) then (c + 1) % u32_mod else c)
        (omega arith) k)

  count_rows_agree :
      (x0 cols n y c : ℕ)
      → x0 + cols ≤ right
      → y + n ≤ bottom
      → count_rows img_p threshold x0 cols n y c ≡ count_rows img_q threshold x0 cols n y c
  unfolding count_rows
  count_rows_agree x0 cols zero y c h k = refl
  count_rows_agree x0 cols (suc n) y c h k =
      rw (count_row_agree y cols x0 c h (omega arith))
        (count_rows_agree x0 cols n (y + 1) (count_row img_q threshold y cols x0 c) h (omega arith))

  module _ (cell_w cell_h : ℕ) where
    cell_region_agree :
        (gy gx : ℕ)
        → (gx + 1) * cell_w ≤ right
        → (gy + 1) * cell_h ≤ bottom
        → cell_region img_p threshold cell_w cell_h gy gx
          ≡ cell_region img_q threshold cell_w cell_h gy gx
    unfolding cell_region
    cell_region_agree gy gx h k =
        let x0 = gx * cell_w in
        let y0 = gy * cell_h in
        let cols = min ((gx + 1) * cell_w) width - x0 in
        let rows = min ((gy + 1) * cell_h) height - y0 in
        rw (count_rows_agree x0 cols rows y0 0 (omega arith) (omega arith)) refl

    cells_row_agree :
        (columns gy n gx : ℕ)
        → columns * cell_w ≤ right
        → (gy + 1) * cell_h ≤ bottom
        → gx + n ≤ columns
        → cells_row img_p threshold cell_w cell_h gy n gx
          ≡ cells_row img_q threshold cell_w cell_h gy n gx
    unfolding cells_row
    cells_row_agree columns gy zero gx h k m = refl
    cells_row_agree columns gy (suc n) gx h k m =
        rw
          (
            cell_region_agree gy gx (le_trans (mul-le-mul_right cell_w (within gx n columns m)) h)
                k,
            cells_row_agree columns gy n (gx + 1) h k (omega arith),
          )
          refl

    cells_agree :
        (columns rows n gy : ℕ)
        → columns * cell_w ≤ right
        → rows * cell_h ≤ bottom
        → gy + n ≤ rows
        → cells img_p threshold cell_w cell_h columns n gy
          ≡ cells img_q threshold cell_w cell_h columns n gy
    unfolding cells
    cells_agree columns rows zero gy h k m = refl
    cells_agree columns rows (suc n) gy h k m =
        rw
          (
            cells_row_agree columns gy columns 0 h
                (le_trans (mul-le-mul_right cell_h (within gy n rows m)) k) (omega arith),
            cells_agree columns rows n (gy + 1) h k (omega arith),
          )
          refl

-- The grid leaves a strip at the right and at the bottom out: images of one size that agree on
-- the pixels of whole cells have the same regions, whatever they are in the strip.
pub find_changed_regions_blind :
    (width height : ℕ) (p q : ℕ → ℕ → ℕ) (threshold : ℕ)
    → ((x y : ℕ)
        → x < cell_count width * cell_size width
        → y < cell_count height * cell_size height
        → p x y ≡ q x y)
    → find_changed_regions (record { width = width; height = height; pixel = p }) threshold
      ≡ find_changed_regions (record { width = width; height = height; pixel = q }) threshold
unfolding find_changed_regions grid_regions
find_changed_regions_blind width height p q threshold agree =
    rw
      (cells_agree width height p q _ _ threshold agree (cell_size width) (cell_size height)
        (cell_count width) (cell_count height) (cell_count height) 0 (omega arith) (omega arith)
        (omega arith))
      refl
