-- ===== src/Vision/Diff/Examples.antt =====
-- Tests of the change detection (crates/agentic-vision/src/diff.rs), and the theorems at concrete
-- inputs.
use agentic_vision.Prelude.{
  ℕ, ◌-◌, ◌*◌, ◌/◌, ◌≡◌, refl, List, [], ◌∷◌, arith, leb, if◌then◌else◌, All,
}
use agentic_vision.Vision.Types.{Rect}
use agentic_vision.Vision.Diff.{
  GrayImage, Images, Floats, min_region_size, rects_adjacent, merge_rects, absorb, merge_pass,
  merge_loop, merge_adjacent_regions, compute_diff, find_changed_regions, grid_regions, cells,
  cells_row, cell_region, count_rows, count_row,
}
use agentic_vision.Vision.Diff.Merge.{Covered, Separated, merge_adjacent_regions-Separated}
use agentic_vision.Vision.Diff.Bounds.{Fits}
use agentic_vision.Vision.Diff.Regions.{
  find_changed_regions-Fits, find_changed_regions-Separated, find_changed_regions_narrow,
}
use agentic_vision.Vision.Diff.Coverage.{cell_at, find_changed_regions-Covered}
use agentic_vision.Vision.Diff.Blind.{find_changed_regions_blind}
use agentic_vision.Vision.Diff.Compare.{compute_diff_symmetric}

abbrev rect : ℕ → ℕ → ℕ → ℕ → Rect
rect x y w h = record { x = x; y = y; w = w; h = h }

-- The third rectangle is adjacent only to what the first two become.
abbrev chain : List Rect
chain = rect 0 0 10 10 ∷ rect 30 0 10 10 ∷ rect 10 0 20 5 ∷ rect 80 80 5 5 ∷ []

chain_merged : merge_adjacent_regions chain ≡ rect 0 0 40 10 ∷ rect 80 80 5 5 ∷ []
unfolding merge_adjacent_regions merge_loop merge_pass absorb rects_adjacent merge_rects
chain_merged = refl

merge_adjacent_regions-Separated_example :
    Separated (merge_adjacent_regions chain)
    × ((r : Rect) → Covered r chain → Covered r (merge_adjacent_regions chain))
    × (Separated chain → merge_adjacent_regions chain ≡ chain)
merge_adjacent_regions-Separated_example = merge_adjacent_regions-Separated chain

-- An image with its left part white.
abbrev pub stripe : ℕ → ℕ → ℕ → GrayImage
stripe width height from = record {
  width = width;
  height = height;
  pixel = λ x y. if leb from x then 255 else 0;
}

-- The last four of 100 columns belong to no cell; change there is not reported.
last_columns : find_changed_regions (stripe 100 8 96) 30 ≡ []
unfolding find_changed_regions merge_adjacent_regions merge_loop merge_pass grid_regions cells
    cells_row cell_region count_rows count_row
last_columns = refl

last_cell : find_changed_regions (stripe 100 8 84) 30 ≡ rect 84 0 12 8 ∷ []
unfolding find_changed_regions merge_adjacent_regions merge_loop merge_pass absorb rects_adjacent
    merge_rects grid_regions cells cells_row cell_region count_rows count_row
last_cell = refl

find_changed_regions-Fits_example :
    All (Fits 100 8 min_region_size) (find_changed_regions (stripe 100 8 50) 30)
find_changed_regions-Fits_example = find_changed_regions-Fits (stripe 100 8 50) 30

find_changed_regions-Separated_example : Separated (find_changed_regions (stripe 100 8 50) 30)
find_changed_regions-Separated_example = find_changed_regions-Separated (stripe 100 8 50) 30

find_changed_regions_narrow_example : find_changed_regions (stripe 79 50 0) 30 ≡ []
find_changed_regions_narrow_example = find_changed_regions_narrow (stripe 79 50 0) 30 (omega arith)

find_changed_regions-Covered_example :
    Covered (cell_at (stripe 100 8 50) 30 7 0) (find_changed_regions (stripe 100 8 50) 30)
find_changed_regions-Covered_example =
    find_changed_regions-Covered (stripe 100 8 50) 30 7 0 (omega arith) (omega arith) (omega arith)
      (omega arith) (omega arith) (omega arith) (omega arith) (omega arith)

find_changed_regions_blind_example :
    find_changed_regions (stripe 100 8 96) 30 ≡ find_changed_regions (stripe 100 8 100) 30
find_changed_regions_blind_example =
    find_changed_regions_blind 100 8 (stripe 100 8 96).pixel (stripe 100 8 100).pixel 30
      (λ x y hx hy. ground arith)

-- Images that are their own grey versions, and ratios in parts per thousand.
abbrev pub grey_images : Images
grey_images = record {
  Image = GrayImage;
  dimensions = λ img. (img.width, img.height);
  resize_luma = λ img w h. record { width = w; height = h; pixel = img.pixel };
}

abbrev pub permille : Floats
permille = record { ratio = λ a b. a * 1000 / b; zero = 0; one_minus = λ x. 1000 - x }

compute_diff_symmetric_example :
    compute_diff grey_images permille 2 1 (stripe 90 8 60) (stripe 100 8 50)
    ≡ record (compute_diff grey_images permille 1 2 (stripe 100 8 50) (stripe 90 8 60)) {
      before_id = 2;
      after_id = 1;
    }
compute_diff_symmetric_example =
    compute_diff_symmetric grey_images permille 1 2 (stripe 100 8 50) (stripe 90 8 60)
