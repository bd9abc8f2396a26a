-- ===== src/Vision/Diff/Regions.antt =====
-- `find_changed_regions` (crates/agentic-vision/src/diff.rs): the grid of cells, and the merged
-- result.
use agentic_vision.Prelude.{
  ℕ, zero, suc, ◌+◌, ◌-◌, ◌*◌, ◌/◌, ◌%◌, ◌≤◌, ◌<◌, ◌≡◌, refl, inl, inr, [], Bool, true, false, ◌&&◌,
  ◌||◌, arith, ◌==◌, ltb, leb, All, All-append, Bool-cases, min, leb→le, ltb→lt, lt→leb_false,
}
use agentic_vision.Vision.Types.{u32_mod}
use agentic_vision.Vision.Diff.{
  GrayImage, min_region_size, merge_adjacent_regions, count_rows, cell_region, cells_row, cells,
  cell_size, grid_regions, find_changed_regions,
}
use agentic_vision.Vision.Diff.Merge.{Separated, merge_adjacent_regions-Separated}
use agentic_vision.Vision.Diff.Bounds.{Fits, merge_adjacent_regions-Fits}

factor_positive : (a b : ℕ) → 0 < a * b → 0 < b
factor_positive a zero h = absurd (omega arith)
factor_positive a (suc b) h = omega arith

mod_positive : (n : ℕ) → 0 < n % u32_mod → 0 < n
mod_positive n h = omega arith

&&_true : (p q : Bool) → (p && q) ≡ true → (p ≡ true) × (q ≡ true)
&&_true true q h = (refl, h)
&&_true false q h = absurd (cc)

box_Fits :
    (x0 x1 y0 y1 width height : ℕ)
    → x1 ≤ width
    → y1 ≤ height
    → 0 < y1 - y0
    → 10 ≤ x1 - x0
    → Fits width height min_region_size (record { x = x0; y = y0; w = x1 - x0; h = y1 - y0 })
box_Fits x0 x1 y0 y1 width height hx hy tall broad = omega arith

cell_rect-Fits :
    (x0 x1 y0 y1 width height changed : ℕ)
    → x1 ≤ width
    → y1 ≤ height
    → (ltb 0 (((x1 - x0) * (y1 - y0)) % u32_mod)
        && (ltb (((x1 - x0) * (y1 - y0)) % u32_mod / 10) changed && leb min_region_size (x1 - x0)))
      ≡ true
    → Fits width height min_region_size (record { x = x0; y = y0; w = x1 - x0; h = y1 - y0 })
cell_rect-Fits x0 x1 y0 y1 width height changed hx hy test =
    let (some_pixel, more) = &&_true _ _ test in
    let (_, wide) = &&_true _ _ more in
    let tall : 0 < y1 - y0 =
      factor_positive (x1 - x0) (y1 - y0) (mod_positive _ (ltb→lt _ _ some_pixel)) in
    let broad : 10 ≤ x1 - x0 = leb→le _ _ wide in box_Fits x0 x1 y0 y1 width height hx hy tall broad

module _ (img : GrayImage) (threshold : ℕ) where
  cell_region-Fits :
      (cell_w cell_h gy gx : ℕ)
      → All
          (Fits img.width img.height min_region_size)
          (cell_region img threshold cell_w cell_h gy gx)
  unfolding cell_region
  cell_region-Fits cell_w cell_h gy gx =
      let x0 = gx * cell_w in
      let y0 = gy * cell_h in
      let x1 = min ((gx + 1) * cell_w) img.width in
      let y1 = min ((gy + 1) * cell_h) img.height in
      let changed = count_rows img threshold x0 (x1 - x0) (y1 - y0) y0 0 in
      let total = ((x1 - x0) * (y1 - y0)) % u32_mod in
      elim (Bool-cases
        (ltb 0 total && (ltb (total / 10) changed && leb min_region_size (x1 - x0)))) [
          | inl e ↦ rw e (
            cell_rect-Fits x0 x1 y0 y1 img.width img.height changed (omega arith) (omega arith) e,
            tt,
          )
          | inr e ↦ rw e tt
        ]

  cells_row-Fits :
      (cell_w cell_h gy n gx : ℕ)
      → All
          (Fits img.width img.height min_region_size)
          (cells_row img threshold cell_w cell_h gy n gx)
  unfolding cells_row
  cells_row-Fits cell_w cell_h gy zero gx = tt
  cells_row-Fits cell_w cell_h gy (suc n) gx =
      All-append _ (cell_region img threshold cell_w cell_h gy gx) _
        (cell_region-Fits cell_w cell_h gy gx) (cells_row-Fits cell_w cell_h gy n (gx + 1))

  cells-Fits :
      (cell_w cell_h columns n gy : ℕ)
      → All
          (Fits img.width img.height min_region_size)
          (cells img threshold cell_w cell_h columns n gy)
  unfolding cells
  cells-Fits cell_w cell_h columns zero gy = tt
  cells-Fits cell_w cell_h columns (suc n) gy =
      All-append _ (cells_row img threshold cell_w cell_h gy columns 0) _
        (cells_row-Fits cell_w cell_h gy columns 0) (cells-Fits cell_w cell_h columns n (gy + 1))

  -- Every region of the result lies inside the image and is at least ten pixels wide.
  pub find_changed_regions-Fits :
      All (Fits img.width img.height min_region_size) (find_changed_regions img threshold)
  unfolding find_changed_regions grid_regions
  find_changed_regions-Fits = elim (Bool-cases (img.width == 0 || img.height == 0)) [
    | inl e ↦ rw e tt
    | inr e ↦
        rw e (
          merge_adjacent_regions-Fits img.width img.height min_region_size _ (cells-Fits _ _ _ _ 0))
  ]

  -- No two regions of the result overlap or touch.
  pub find_changed_regions-Separated : Separated (find_changed_regions img threshold)
  unfolding find_changed_regions
  find_changed_regions-Separated = elim (Bool-cases (img.width == 0 || img.height == 0)) [
    | inl e ↦ rw e tt
    | inr e ↦ rw e (merge_adjacent_regions-Separated (grid_regions img threshold)).0
  ]

-- A cell below ten pixels in width pushes nothing.
cell_region_narrow :
    (img : GrayImage) (threshold cell_w cell_h gy gx : ℕ)
    → cell_w < min_region_size
    → cell_region img threshold cell_w cell_h gy gx ≡ []
unfolding cell_region
cell_region_narrow img threshold cell_w cell_h gy gx h =
    let x0 = gx * cell_w in
    let x1 = min ((gx + 1) * cell_w) img.width in
    let e : leb min_region_size (x1 - x0) ≡ false = lt→leb_false _ _ (omega arith) in
    rw e (ground arith)

module _ (img : GrayImage) (threshold cell_w cell_h : ℕ)
    (none_pushed : (gy gx : ℕ) → cell_region img threshold cell_w cell_h gy gx ≡ []) where
  cells_row_empty : (gy n gx : ℕ) → cells_row img threshold cell_w cell_h gy n gx ≡ []
  unfolding cells_row
  cells_row_empty gy zero gx = refl
  cells_row_empty gy (suc n) gx = rw (none_pushed gy gx) (cells_row_empty gy n (gx + 1))

  pub cells_empty : (columns n gy : ℕ) → cells img threshold cell_w cell_h columns n gy ≡ []
  unfolding cells
  cells_empty columns zero gy = refl
  cells_empty columns (suc n) gy =
      rw (cells_row_empty gy columns 0) (cells_empty columns n (gy + 1))

merge_nothing : merge_adjacent_regions [] ≡ []
unfolding merge_adjacent_regions
merge_nothing = refl

pub find_changed_regions_empty :
    (img : GrayImage) (threshold : ℕ)
    → grid_regions img threshold ≡ []
    → find_changed_regions img threshold ≡ []
unfolding find_changed_regions
find_changed_regions_empty img threshold e = rw e (rw merge_nothing (ground arith))

-- In an image below 80 pixels in width no region is ever reported, whatever has changed: each
-- cell of the grid is an eighth of the width, and a region has to be ten pixels wide.
pub find_changed_regions_narrow :
    (img : GrayImage) (threshold : ℕ) → img.width < 80 → find_changed_regions img threshold ≡ []
unfolding grid_regions
find_changed_regions_narrow img threshold h =
    let cell_w = cell_size img.width in
    find_changed_regions_empty img threshold (
      cells_empty img threshold cell_w (cell_size img.height)
        (λ gy gx. cell_region_narrow img threshold cell_w _ gy gx (omega arith)) _ _ 0)
