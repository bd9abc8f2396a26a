-- ===== src/Vision/Diff/Compare.antt =====
-- `compute_diff` as a whole (crates/agentic-vision/src/diff.rs).
use agentic_vision.Prelude.{
  ℕ, zero, suc, ◌+◌, ◌-◌, ◌*◌, ◌/◌, ◌%◌, ◌≤◌, ◌≡◌, refl, ap, ◌∙◌, sym, fun_ext, [], arith, ltb, leb,
  ◌&&◌, if◌then◌else◌, min, Bool, false,
}
use agentic_vision.Vision.Types.{u32_mod}
use agentic_vision.Vision.Diff.{
  GrayImage, Images, Floats, compute_diff, diff_images, diff_at, abs_diff, diff_threshold,
  find_changed_regions, grid_regions, cell_region, cell_size,
}
use agentic_vision.Vision.Diff.Pixels.{
  count_from, sum_from, is_changed, changed_count, changed_count-le, diff_images_size,
  diff_images_pixels, diff_images_changed,
}
use agentic_vision.Vision.Diff.Regions.{cells_empty, find_changed_regions_empty}
use agentic_vision.Vision.Diff.Coverage.{above, count_rows_lem}

abs_diff_comm : (a b : ℕ) → abs_diff a b ≡ abs_diff b a
abs_diff_comm a b = omega arith

abs_diff_self : (a : ℕ) → abs_diff a a ≡ 0
abs_diff_self a = omega arith

count_from_ext :
    (p q : ℕ → Bool) (n i : ℕ) → ((j : ℕ) → p j ≡ q j) → count_from p n i ≡ count_from q n i
count_from_ext p q zero i h = refl
count_from_ext p q (suc n) i h = rw (h i, count_from_ext p q n (i + 1) h) refl

count_from_none : (p : ℕ → Bool) (n i : ℕ) → ((j : ℕ) → p j ≡ false) → count_from p n i ≡ 0
count_from_none p zero i h = refl
count_from_none p (suc n) i h = rw (h i, count_from_none p n (i + 1) h) (omega arith)

sum_from_zero : (f : ℕ → ℕ) (n i : ℕ) → ((j : ℕ) → f j ≡ 0) → sum_from f n i ≡ 0
sum_from_zero f zero i h = refl
sum_from_zero f (suc n) i h = rw (h i, sum_from_zero f n (i + 1) h) (omega arith)

cell_region_quiet :
    (img : GrayImage) (threshold cell_w cell_h gy gx : ℕ)
    → ((x0 y0 cols rows : ℕ) → above img threshold x0 y0 cols rows ≡ 0)
    → cell_region img threshold cell_w cell_h gy gx ≡ []
unfolding cell_region
cell_region_quiet img threshold cell_w cell_h gy gx h =
    let x0 = gx * cell_w in
    let y0 = gy * cell_h in
    let cols = min ((gx + 1) * cell_w) img.width - x0 in
    let rows = min ((gy + 1) * cell_h) img.height - y0 in
    let none : ltb ((cols * rows) % u32_mod / 10) ((0 + 0) % u32_mod) ≡ false = ground arith in
    rw (count_rows_lem img threshold x0 cols rows y0 0 (omega arith), h x0 y0 cols rows, none)
      (ground arith)

-- An image with no pixel above the threshold has no region.
quiet_image :
    (img : GrayImage) (threshold : ℕ)
    → ((x y : ℕ) → ltb threshold (img.pixel x y) ≡ false)
    → find_changed_regions img threshold ≡ []
unfolding grid_regions
quiet_image img threshold h =
    let none_above = λ (x0 y0 cols rows : ℕ).
      sum_from_zero (λ y. count_from (λ x. ltb threshold (img.pixel x y)) cols x0) rows y0
        (λ y. count_from_none (λ x. ltb threshold (img.pixel x y)) cols x0 (λ x. h x y)) in
    find_changed_regions_empty img threshold (
      cells_empty img threshold (cell_size img.width) (cell_size img.height)
        (λ gy gx. cell_region_quiet img threshold _ _ gy gx none_above) _ _ 0)

diff_images_comm :
    (a b : GrayImage) (w h : ℕ)
    → ((diff_images a b w h).changed_pixels ≡ (diff_images b a w h).changed_pixels)
      × ((diff_images a b w h).diff_img ≡ (diff_images b a w h).diff_img)
diff_images_comm a b w h =
    let count =
      λ (d : ℕ → ℕ → ℕ). sum_from (λ y. count_from (λ x. ltb diff_threshold (d x y)) w 0) h 0 in
    let flipped : diff_at a b ≡ diff_at b a =
      fun_ext (λ x. fun_ext (λ y. abs_diff_comm (a.pixel x y) (b.pixel x y))) in
    let pixels : (diff_images a b w h).diff_img.pixel ≡ (diff_images b a w h).diff_img.pixel =
      fun_ext (λ x. fun_ext (λ y.
        diff_images_pixels a b w h x y
        ∙ (ap (λ t. if leb 0 y && (ltb y (0 + h) && ltb x w) then t else 0)
              (abs_diff_comm (a.pixel x y) (b.pixel x y))
            ∙ sym (diff_images_pixels b a w h x y)))) in
    let width = (diff_images_size a b w h).0 ∙ sym (diff_images_size b a w h).0 in
    let height = (diff_images_size a b w h).1 ∙ sym (diff_images_size b a w h).1 in
    (
      diff_images_changed a b w h ∙ (ap count flipped ∙ sym (diff_images_changed b a w h)),
      λ i. record { width = width i; height = height i; pixel = pixels i },
    )

-- Two equal images: no pixel counts as changed, and there is no region.
diff_images_same :
    (a : GrayImage) (w h : ℕ)
    → ((diff_images a a w h).changed_pixels ≡ 0)
      × (find_changed_regions (diff_images a a w h).diff_img diff_threshold ≡ [])
diff_images_same a w h = (
  diff_images_changed a a w h
      ∙ sum_from_zero _ h 0 (λ y.
        count_from_none (is_changed a a y) w 0 (λ x. rw (abs_diff_self (a.pixel x y)) refl)),
  quiet_image (diff_images a a w h).diff_img diff_threshold
      (λ x y. rw (diff_images_pixels a a w h x y, abs_diff_self (a.pixel x y)) (ground arith)),
)

module _ (images : Images) (floats : Floats) where
  open images use {Image, dimensions, resize_luma}

  module _ (i j : ℕ) (a b : Image) where
    abbrev w : ℕ
    w = min (dimensions a).0 (dimensions b).0

    abbrev h : ℕ
    h = min (dimensions a).1 (dimensions b).1

    abbrev number : ℕ
    number = changed_count (resize_luma a w h) (resize_luma b w h) w h

    -- The ratio is that of the pixels of the common size that differ by more than the threshold,
    -- which are at most all.
    pub compute_diff_ratio :
        ((compute_diff images floats i j a b).pixel_diff_ratio
          ≡ (if ltb 0 (w * h) then floats.ratio number (w * h) else floats.zero))
        × (number ≤ w * h)
    unfolding compute_diff
    compute_diff_ratio = (
      rw (diff_images_changed (resize_luma a w h) (resize_luma b w h) w h) refl,
      changed_count-le (resize_luma a w h) (resize_luma b w h) w h,
    )

    -- Swapping the two images changes nothing but the two ids.
    pub compute_diff_symmetric :
        compute_diff images floats j i b a
        ≡ record (compute_diff images floats i j a b) { before_id = j; after_id = i }
    unfolding compute_diff
    compute_diff_symmetric =
        let width : min (dimensions b).0 (dimensions a).0 ≡ w = omega arith in
        let height : min (dimensions b).1 (dimensions a).1 ≡ h = omega arith in
        let (pixels, img) = diff_images_comm (resize_luma b w h) (resize_luma a w h) w h in
        rw (width, height, pixels, img) refl

  -- An image compared with itself: the ratio is that of no changed pixel, and there is no region.
  pub compute_diff_same :
      (i j : ℕ) (a : Image)
      → ((compute_diff images floats i j a a).changed_regions ≡ [])
        × ((compute_diff images floats i j a a).pixel_diff_ratio ≡ (
            let (w, h) = dimensions a in
            if ltb 0 (w * h) then floats.ratio 0 (w * h) else floats.zero))
  unfolding compute_diff
  compute_diff_same i j a =
      let (w, h) = dimensions a in
      let width : min w w ≡ w = omega arith in
      let height : min h h ≡ h = omega arith in
      let (none_changed, no_region) = diff_images_same (resize_luma a w h) w h in
      rw (width, height, none_changed, no_region) (refl, refl)
