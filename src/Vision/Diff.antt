-- ===== src/Vision/Diff.antt =====
-- crates/agentic-vision/src/diff.rs: change detection between two captures. The crate `image` is the
-- parameter `Images`, and the float arithmetic of the two ratios the parameter `Floats`.
pub mod Merge
pub mod Bounds
pub mod Pixels
pub mod Regions
pub mod Coverage
pub mod Blind
pub mod Compare
pub mod Examples
use agentic_vision.Prelude.{
  ℕ, zero, suc, ◌+◌, ◌-◌, ◌*◌, ◌/◌, ◌%◌, ◌≡◌, min, max, List, [], ◌∷◌, ◌++◌, Bool, true, false, not,
  ◌&&◌, ◌||◌, ◌==◌, ltb, leb, if◌then◌else◌, length,
}
use agentic_vision.Vision.Types.{F32, Rect, VisualDiff, u32_mod}

abbrev pub diff_threshold : ℕ
diff_threshold = 30

abbrev pub min_region_size : ℕ
min_region_size = 10

-- A grey image, as its dimensions and what `get_pixel` returns.
pub record GrayImage : Type 0 where
  pub width : ℕ
  pub height : ℕ
  pub pixel : ℕ → ℕ → ℕ

abbrev pub put_pixel : GrayImage → ℕ → ℕ → ℕ → GrayImage
put_pixel img x y d = record img {
  pixel = λ x' y'. if x' == x && y' == y then d else img.pixel x' y';
}

-- `(a as i16 - b as i16).unsigned_abs() as u8`.
abbrev pub abs_diff : ℕ → ℕ → ℕ
abs_diff a b = ((a - b) + (b - a)) % 256

-- The loop variables of `compute_diff`.
pub record DiffState : Type 0 where
  pub diff_img : GrayImage
  pub changed_pixels : ℕ

module _ (gray_a gray_b : GrayImage) where
  abbrev pub diff_at : ℕ → ℕ → ℕ
  diff_at x y = abs_diff (gray_a.pixel x y) (gray_b.pixel x y)

  -- The body of the inner loop.
  unfoldable pub diff_pixel : ℕ → ℕ → DiffState → DiffState
  diff_pixel y x s = record {
    diff_img = put_pixel s.diff_img x y (diff_at x y);
    changed_pixels =
        if ltb diff_threshold (diff_at x y) then s.changed_pixels + 1 else s.changed_pixels;
  }

  -- `for x in x..x + n`, and `for y in y..y + n` over rows of `width` pixels.
  unfoldable pub diff_row : ℕ → ℕ → ℕ → DiffState → DiffState
  diff_row y zero x s = s
  diff_row y (suc n) x s = diff_row y n (x + 1) (diff_pixel y x s)

  unfoldable pub diff_rows : ℕ → ℕ → ℕ → DiffState → DiffState
  diff_rows width zero y s = s
  diff_rows width (suc n) y s = diff_rows width n (y + 1) (diff_row y width 0 s)

  -- The image of differences and the number of changed pixels.
  unfoldable pub diff_images : ℕ → ℕ → DiffState
  diff_images target_w target_h = diff_rows target_w target_h 0 (record {
    diff_img = record { width = target_w; height = target_h; pixel = λ x y. 0 };
    changed_pixels = 0;
  })

unfoldable pub rects_adjacent : Rect → Rect → Bool
rects_adjacent a b =
    not
      (ltb (a.x + a.w) b.x || (ltb (b.x + b.w) a.x || (ltb (a.y + a.h) b.y || ltb (b.y + b.h) a.y)))

unfoldable pub merge_rects : Rect → Rect → Rect
merge_rects a b =
    let x = min a.x b.x in
    let y = min a.y b.y in
    let right = max (a.x + a.w) (b.x + b.w) in
    let bottom = max (a.y + a.h) (b.y + b.h) in
    record { x = x; y = y; w = right - x; h = bottom - y }

-- The loop over `j`: the rectangle at `i` takes in those behind it that are adjacent to what it has
-- become; the others stay in order. The flag is `merged`.
pub record Absorbed : Type 0 where
  pub rect : Rect
  pub rest : List Rect
  pub merged : Bool

unfoldable pub absorb : Rect → List Rect → Absorbed
absorb a [] = record { rect = a; rest = []; merged = false }
absorb a (b ∷ bs) =
    let hit = rects_adjacent a b in
    let r = absorb (if hit then merge_rects a b else a) bs in
    if hit then record r { merged = true } else record r { rest = b ∷ r.rest }

-- The loop over `i`, for at most as many rounds as there are rectangles.
unfoldable pub merge_pass : ℕ → List Rect → List Rect × Bool
merge_pass zero rs = (rs, false)
merge_pass (suc fuel) [] = ([], false)
merge_pass (suc fuel) (a ∷ rs) =
    let r = absorb a rs in
    let later = merge_pass fuel r.rest in (r.rect ∷ later.0, r.merged || later.1)

-- `while merged`.
unfoldable pub merge_loop : ℕ → List Rect → List Rect
merge_loop zero rs = rs
merge_loop (suc fuel) rs =
    let pass = merge_pass (length rs) rs in
    elim pass.1 [ true ↦ merge_loop fuel pass.0 | false ↦ pass.0 ]

unfoldable pub merge_adjacent_regions : List Rect → List Rect
merge_adjacent_regions rs = if ltb (length rs) 2 then rs else merge_loop (length rs) rs

-- The side of a cell: an eighth of the image's, and one pixel at least.
abbrev pub cell_size : ℕ → ℕ
cell_size side = max (side / 8) 1

-- How many cells stand along that side.
abbrev pub cell_count : ℕ → ℕ
cell_count side = max (side / cell_size side) 1

module _ (img : GrayImage) (threshold : ℕ) where
  -- The loops that count the pixels of a cell above the threshold.
  unfoldable pub count_row : ℕ → ℕ → ℕ → ℕ → ℕ
  count_row y zero x changed = changed
  count_row y (suc n) x changed =
      count_row y n (x + 1)
        (if ltb threshold (img.pixel x y) then (changed + 1) % u32_mod else changed)

  unfoldable pub count_rows : ℕ → ℕ → ℕ → ℕ → ℕ → ℕ
  count_rows x0 cols zero y changed = changed
  count_rows x0 cols (suc n) y changed = count_rows x0 cols n (y + 1) (count_row y cols x0 changed)

  -- The body of the loop over the cells: the regions that it pushes.
  unfoldable pub cell_region : ℕ → ℕ → ℕ → ℕ → List Rect
  cell_region cell_w cell_h gy gx =
      let x0 = gx * cell_w in
      let y0 = gy * cell_h in
      let x1 = min ((gx + 1) * cell_w) img.width in
      let y1 = min ((gy + 1) * cell_h) img.height in
      let changed = count_rows x0 (x1 - x0) (y1 - y0) y0 0 in
      let total = ((x1 - x0) * (y1 - y0)) % u32_mod in
      if ltb 0 total && (ltb (total / 10) changed && leb min_region_size (x1 - x0))
      then record { x = x0; y = y0; w = x1 - x0; h = y1 - y0 } ∷ []
      else []

  unfoldable pub cells_row : ℕ → ℕ → ℕ → ℕ → ℕ → List Rect
  cells_row cell_w cell_h gy zero gx = []
  cells_row cell_w cell_h gy (suc n) gx =
      cell_region cell_w cell_h gy gx ++ cells_row cell_w cell_h gy n (gx + 1)

  unfoldable pub cells : ℕ → ℕ → ℕ → ℕ → ℕ → List Rect
  cells cell_w cell_h columns zero gy = []
  cells cell_w cell_h columns (suc n) gy =
      cells_row cell_w cell_h gy columns 0 ++ cells cell_w cell_h columns n (gy + 1)

  -- The regions that the grid pushes, before they are merged.
  unfoldable pub grid_regions : List Rect
  grid_regions =
      let cell_w = cell_size img.width in
      let cell_h = cell_size img.height in
      cells cell_w cell_h (cell_count img.width) (cell_count img.height) 0

  unfoldable pub find_changed_regions : List Rect
  find_changed_regions =
      if img.width == 0 || img.height == 0 then [] else merge_adjacent_regions grid_regions

-- The crate `image`: what an image is, its dimensions, and `resize_exact` with `to_luma8` after it.
pub record Images : Type 1 where
  pub Image : Type 0
  pub dimensions : Image → ℕ × ℕ
  pub resize_luma : Image → ℕ → ℕ → GrayImage

-- `changed as f32 / total as f32`, `0.0` and `1.0 - x`.
pub record Floats : Type 0 where
  pub ratio : ℕ → ℕ → F32
  pub zero : F32
  pub one_minus : F32 → F32

module _ (images : Images) (floats : Floats) where
  open images use {Image, dimensions, resize_luma}

  unfoldable pub compute_diff : ℕ → ℕ → Image → Image → VisualDiff
  compute_diff before_id after_id img_a img_b =
      let (w_a, h_a) = dimensions img_a in
      let (w_b, h_b) = dimensions img_b in
      let target_w = min w_a w_b in
      let target_h = min h_a h_b in
      let gray_a = resize_luma img_a target_w target_h in
      let gray_b = resize_luma img_b target_w target_h in
      let s = diff_images gray_a gray_b target_w target_h in
      let total_pixels = target_w * target_h in
      let pixel_diff_ratio =
        if ltb 0 total_pixels then floats.ratio s.changed_pixels total_pixels else floats.zero in
      record {
        before_id = before_id;
        after_id = after_id;
        similarity = floats.one_minus pixel_diff_ratio;
        changed_regions = find_changed_regions s.diff_img diff_threshold;
        pixel_diff_ratio = pixel_diff_ratio;
      }
