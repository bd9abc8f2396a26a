-- ===== src/Vision/Diff/Pixels.antt =====
-- The loops of `compute_diff` over the pixels (crates/agentic-vision/src/diff.rs).
use agentic_vision.Prelude.{
  ℕ, zero, suc, ◌+◌, ◌*◌, ◌≤◌, ◌<◌, ◌≡◌, ◌∙◌, refl, Bool, ◌&&◌, arith, ◌==◌, ltb, leb,
  if◌then◌else◌,
}
use agentic_vision.Vision.Diff.{
  GrayImage, DiffState, diff_threshold, diff_at, diff_pixel, diff_row, diff_rows, diff_images,
}

-- How many of the `n` numbers from `i` on pass the test.
abbrev pub count_from : (ℕ → Bool) → ℕ → ℕ → ℕ
count_from p zero i = 0
count_from p (suc n) i = (if p i then 1 else 0) + count_from p n (i + 1)

-- The sum of `f` at the `n` numbers from `i` on.
abbrev pub sum_from : (ℕ → ℕ) → ℕ → ℕ → ℕ
sum_from f zero i = 0
sum_from f (suc n) i = f i + sum_from f n (i + 1)

pub count_from-le : (p : ℕ → Bool) (n i : ℕ) → count_from p n i ≤ n
count_from-le p zero i = omega arith
count_from-le p (suc n) i = ground (arith, count_from-le p n (i + 1))

pub sum_from-le : (f : ℕ → ℕ) (b n i : ℕ) → ((j : ℕ) → f j ≤ b) → sum_from f n i ≤ n * b
sum_from-le f b zero i h = omega arith
sum_from-le f b (suc n) i h = omega (arith, h i, sum_from-le f b n (i + 1) h)

module _ (gray_a gray_b : GrayImage) where
  abbrev pub is_changed : ℕ → ℕ → Bool
  is_changed y x = ltb diff_threshold (diff_at gray_a gray_b x y)

  -- The changed pixels, counted row by row.
  abbrev pub changed_count : ℕ → ℕ → ℕ
  changed_count w h = sum_from (λ y. count_from (is_changed y) w 0) h 0

  diff_row_changed :
      (y n x : ℕ) (s : DiffState)
      → (diff_row gray_a gray_b y n x s).changed_pixels
        ≡ s.changed_pixels + count_from (is_changed y) n x
  unfolding diff_row diff_pixel
  diff_row_changed y zero x s = omega arith
  diff_row_changed y (suc n) x s =
      ground (arith, diff_row_changed y n (x + 1) (diff_pixel gray_a gray_b y x s))

  diff_row_pixel :
      (y n x : ℕ) (s : DiffState) (x' y' : ℕ)
      → (diff_row gray_a gray_b y n x s).diff_img.pixel x' y' ≡ (
          if y' == y && (leb x x' && ltb x' (x + n))
          then diff_at gray_a gray_b x' y
          else s.diff_img.pixel x' y')
  unfolding diff_row diff_pixel
  diff_row_pixel y zero x s x' y' = ground arith
  diff_row_pixel y (suc n) x s x' y' =
      ground (arith, diff_row_pixel y n (x + 1) (diff_pixel gray_a gray_b y x s) x' y')

  diff_rows_changed :
      (w n y : ℕ) (s : DiffState)
      → (diff_rows gray_a gray_b w n y s).changed_pixels
        ≡ s.changed_pixels + sum_from (λ y. count_from (is_changed y) w 0) n y
  unfolding diff_rows
  diff_rows_changed w zero y s = omega arith
  diff_rows_changed w (suc n) y s =
      let s' = diff_row gray_a gray_b y w 0 s in
      omega (arith, diff_rows_changed w n (y + 1) s', diff_row_changed y w 0 s)

  diff_rows_pixel :
      (w n y : ℕ) (s : DiffState) (x' y' : ℕ)
      → (diff_rows gray_a gray_b w n y s).diff_img.pixel x' y' ≡ (
          if leb y y' && (ltb y' (y + n) && ltb x' w)
          then diff_at gray_a gray_b x' y'
          else s.diff_img.pixel x' y')
  unfolding diff_rows
  diff_rows_pixel w zero y s x' y' = ground arith
  diff_rows_pixel w (suc n) y s x' y' =
      let s' = diff_row gray_a gray_b y w 0 s in
      ground (arith, diff_rows_pixel w n (y + 1) s' x' y', diff_row_pixel y w 0 s x' y')

  diff_row_size :
      (y n x : ℕ) (s : DiffState)
      → ((diff_row gray_a gray_b y n x s).diff_img.width ≡ s.diff_img.width)
        × ((diff_row gray_a gray_b y n x s).diff_img.height ≡ s.diff_img.height)
  unfolding diff_row diff_pixel
  diff_row_size y zero x s = (refl, refl)
  diff_row_size y (suc n) x s = diff_row_size y n (x + 1) (diff_pixel gray_a gray_b y x s)

  diff_rows_size :
      (w n y : ℕ) (s : DiffState)
      → ((diff_rows gray_a gray_b w n y s).diff_img.width ≡ s.diff_img.width)
        × ((diff_rows gray_a gray_b w n y s).diff_img.height ≡ s.diff_img.height)
  unfolding diff_rows
  diff_rows_size w zero y s = (refl, refl)
  diff_rows_size w (suc n) y s =
      let (w1, h1) = diff_rows_size w n (y + 1) (diff_row gray_a gray_b y w 0 s) in
      let (w2, h2) = diff_row_size y w 0 s in (w1 ∙ w2, h1 ∙ h2)

  module _ (w h : ℕ) where
    pub diff_images_size :
        ((diff_images gray_a gray_b w h).diff_img.width ≡ w)
        × ((diff_images gray_a gray_b w h).diff_img.height ≡ h)
    unfolding diff_images
    diff_images_size = diff_rows_size w h 0 _

    -- Each pixel of the difference image is the absolute difference of the two images there.
    pub diff_images_pixel :
        (x y : ℕ)
        → x < w
        → y < h
        → (diff_images gray_a gray_b w h).diff_img.pixel x y ≡ diff_at gray_a gray_b x y
    unfolding diff_images
    diff_images_pixel x y hx hy = diff_rows_pixel w h 0 _ x y ∙ ground arith

    -- Outside the two images' common part nothing is written.
    pub diff_images_pixels :
        (x y : ℕ)
        → (diff_images gray_a gray_b w h).diff_img.pixel x y
          ≡ (if leb 0 y && (ltb y (0 + h) && ltb x w) then diff_at gray_a gray_b x y else 0)
    unfolding diff_images
    diff_images_pixels x y = diff_rows_pixel w h 0 _ x y

    -- The counter is the number of pixels that differ by more than the threshold.
    pub diff_images_changed : (diff_images gray_a gray_b w h).changed_pixels ≡ changed_count w h
    unfolding diff_images
    diff_images_changed = diff_rows_changed w h 0 _ ∙ omega arith

    pub changed_count-le : changed_count w h ≤ w * h
    changed_count-le = omega (
      arith,
      sum_from-le (λ y. count_from (is_changed y) w 0) w h 0
          (λ y. count_from-le (is_changed y) w 0),
    )
