-- ===== src/Vision/Diff/Coverage.antt =====
-- `find_changed_regions` misses no cell of its grid that has changed
-- (crates/agentic-vision/src/diff.rs).
use agentic_vision.Prelude.{
  ℕ, zero, suc, ◌+◌, ◌-◌, ◌*◌, ◌/◌, ◌%◌, Bool-cases, ◌≤◌, ◌<◌, ◌≡◌, refl, inl, inr, List, [], ◌∷◌,
  ◌++◌, false, ◌||◌, arith, ◌==◌, ltb, min, lt→ltb, le→leb,
}
use agentic_vision.Vision.Types.{Rect, u32_mod}
use agentic_vision.Vision.Diff.{
  GrayImage, min_region_size, count_row, count_rows, cell_region, cells_row, cells, cell_size,
  cell_count, grid_regions, find_changed_regions,
}
use agentic_vision.Vision.Diff.Merge.{Covered, Within-refl, merge_adjacent_regions-Covered}
use agentic_vision.Vision.Diff.Pixels.{count_from, sum_from, count_from-le, sum_from-le}

Covered-append_left : (r : Rect) (xs ys : List Rect) → Covered r xs → Covered r (xs ++ ys)
Covered-append_left r [] ys h = absurd h
Covered-append_left r (x ∷ xs) ys (inl h) = inl h
Covered-append_left r (x ∷ xs) ys (inr h) = inr (Covered-append_left r xs ys h)

Covered-append_right : (r : Rect) (xs ys : List Rect) → Covered r ys → Covered r (xs ++ ys)
Covered-append_right r [] ys h = h
Covered-append_right r (x ∷ xs) ys h = inr (Covered-append_right r xs ys h)

product_positive : (a b : ℕ) → 0 < a → 0 < b → 0 < a * b
product_positive (suc a) (suc b) h k = omega arith
product_positive zero b h k = absurd (omega arith)
product_positive (suc a) zero h k = absurd (omega arith)

module _ (img : GrayImage) (threshold : ℕ) where
  -- The pixels above the threshold in a rectangle.
  abbrev pub above : ℕ → ℕ → ℕ → ℕ → ℕ
  above x0 y0 cols rows =
      sum_from (λ y. count_from (λ x. ltb threshold (img.pixel x y)) cols x0) rows y0

  count_row_lem :
      (y n x c : ℕ)
      → c < u32_mod
      → count_row img threshold y n x c
        ≡ (c + count_from (λ x. ltb threshold (img.pixel x y)) n x) % u32_mod
  unfolding count_row
  count_row_lem y zero x c h = omega arith
  count_row_lem y (suc n) x c h = elim (Bool-cases (ltb threshold (img.pixel x y))) [
    | inl e ↦ rw e (omega (arith, count_row_lem y n (x + 1) ((c + 1) % u32_mod) (omega arith)))
    | inr e ↦ rw e (omega (arith, count_row_lem y n (x + 1) c h))
  ]

  -- The counting loops of a cell compute that number.
  pub count_rows_lem :
      (x0 cols n y c : ℕ)
      → c < u32_mod
      → count_rows img threshold x0 cols n y c ≡ (c + above x0 y cols n) % u32_mod
  unfolding count_rows
  count_rows_lem x0 cols zero y c h = omega arith
  count_rows_lem x0 cols (suc n) y c h =
      let row = count_row_lem y cols x0 c h in
      omega (
        arith,
        count_rows_lem x0 cols n (y + 1) (count_row img threshold y cols x0 c) (omega (arith, row)),
        row,
      )

  above-le : (x0 y cols rows : ℕ) → above x0 y cols rows ≤ cols * rows
  above-le x0 y cols rows = omega (
    arith,
    sum_from-le (λ y. count_from (λ x. ltb threshold (img.pixel x y)) cols x0) cols rows y
        (λ y. count_from-le (λ x. ltb threshold (img.pixel x y)) cols x0),
  )

  module _ (cell_w cell_h : ℕ) (r : Rect) where
    cells_row-Covered :
        (gy n start k : ℕ)
        → k < n
        → cell_region img threshold cell_w cell_h gy (start + k) ≡ r ∷ []
        → Covered r (cells_row img threshold cell_w cell_h gy n start)
    unfolding cells_row
    cells_row-Covered gy zero start k h e = absurd (omega arith)
    cells_row-Covered gy (suc n) start zero h e =
        let at_start : start + 0 ≡ start = omega arith in
        rw (rw at_start at e) (inl (Within-refl r))
    cells_row-Covered gy (suc n) start (suc k) h e =
        let next : start + suc k ≡ start + 1 + k = omega arith in
        Covered-append_right r (cell_region img threshold cell_w cell_h gy start) _
          (cells_row-Covered gy n (start + 1) k (omega arith) (rw next at e))

    cells-Covered :
        (columns n start k gx : ℕ)
        → k < n
        → gx < columns
        → cell_region img threshold cell_w cell_h (start + k) gx ≡ r ∷ []
        → Covered r (cells img threshold cell_w cell_h columns n start)
    unfolding cells
    cells-Covered columns zero start k gx h hx e = absurd (omega arith)
    cells-Covered columns (suc n) start zero gx h hx e =
        let at_start : start + 0 ≡ start = omega arith in
        let from_zero : 0 + gx ≡ gx = omega arith in
        Covered-append_left r (cells_row img threshold cell_w cell_h start columns 0) _
          (cells_row-Covered start columns 0 gx hx (rw (from_zero, ← at_start) e))
    cells-Covered columns (suc n) start (suc k) gx h hx e =
        let next : start + suc k ≡ start + 1 + k = omega arith in
        Covered-append_right r (cells_row img threshold cell_w cell_h start columns 0) _
          (cells-Covered columns n (start + 1) k gx (omega arith) hx (rw next at e))

  module _ (gx gy : ℕ) where
    -- The cell in column gx and row gy of the grid.
    abbrev pub cell_at : Rect
    cell_at = record {
      x = gx * cell_size img.width;
      y = gy * cell_size img.height;
      w = min ((gx + 1) * cell_size img.width) img.width - gx * cell_size img.width;
      h = min ((gy + 1) * cell_size img.height) img.height - gy * cell_size img.height;
    }

    cell_region_hot :
        min_region_size ≤ cell_at.w
        → 0 < cell_at.h
        → cell_at.w * cell_at.h < u32_mod
        → cell_at.w * cell_at.h / 10 < above cell_at.x cell_at.y cell_at.w cell_at.h
        → cell_region img threshold (cell_size img.width) (cell_size img.height) gy gx
          ≡ cell_at ∷ []
    unfolding cell_region
    cell_region_hot wide tall small hot =
        let counted = count_rows_lem cell_at.x cell_at.w cell_at.h cell_at.y 0 (omega arith) in
        let size = cell_at.w * cell_at.h in
        let number = above cell_at.x cell_at.y cell_at.w cell_at.h in
        let whole_size : size % u32_mod ≡ size = omega arith in
        let whole_number : (0 + number) % u32_mod ≡ number =
          omega (arith, above-le cell_at.x cell_at.y cell_at.w cell_at.h) in
        rw
          (
            counted,
            whole_size,
            whole_number,
            lt→ltb 0 size (product_positive cell_at.w cell_at.h (omega arith) tall),
            lt→ltb (size / 10) number hot,
            le→leb min_region_size cell_at.w wide,
          )
          refl

    -- A cell of the grid that is ten pixels wide or more and has fewer than 2^32 pixels, and in
    -- which more than a tenth of the pixels are above the threshold, lies inside a region of the
    -- result.
    pub find_changed_regions-Covered :
        0 < img.width
        → 0 < img.height
        → gx < cell_count img.width
        → gy < cell_count img.height
        → min_region_size ≤ cell_at.w
        → 0 < cell_at.h
        → cell_at.w * cell_at.h < u32_mod
        → cell_at.w * cell_at.h / 10 < above cell_at.x cell_at.y cell_at.w cell_at.h
        → Covered cell_at (find_changed_regions img threshold)
    unfolding find_changed_regions grid_regions
    find_changed_regions-Covered w_pos h_pos hx hy wide tall small hot =
        let nonempty : (img.width == 0 || img.height == 0) ≡ false = ground arith in
        let from_zero : 0 + gy ≡ gy = omega arith in
        rw nonempty (
          merge_adjacent_regions-Covered _ cell_at (
            cells-Covered (cell_size img.width) (cell_size img.height) cell_at
              (cell_count img.width) (cell_count img.height) 0 gy gx hy hx
              (rw from_zero (cell_region_hot wide tall small hot))))
