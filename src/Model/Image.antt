-- ===== src/Model/Image.antt =====
-- The checks on the image data that a client sends: crates/unixnotis-core/src/model/image.rs.
-- i32 values are integers, usize values are numbers below 2 ^ 64.
use unix_notis.Prelude.{
  inr, inl, ℕ, ◌+◌, ◌*◌, ◌^◌, ◌%◌, ◌/◌, ◌≤◌, ◌<◌, ◌≡◌, not, ◌||◌, Option, none, some, arith, ltb,
  ◌==◌, Bool-cases, if◌then◌else◌,
}
use unix_notis.Prelude.Int.{ℤ, pos, negsuc}

abbrev pub max_image_bytes : ℕ
max_image_bytes = 256 * 1024

abbrev pub i32_limit : ℕ
i32_limit = 2 ^ 31

abbrev pub usize_limit : ℕ
usize_limit = 2 ^ 64

-- `usize::checked_mul`.
unfoldable pub checked_mul : ℕ → ℕ → Option ℕ
checked_mul a b = if ltb (a * b) usize_limit then some (a * b) else none

-- Of two positive values; `checked_mul` on i32.
unfoldable pub bytes_per_pixel : ℤ → ℤ → Option ℕ
bytes_per_pixel (negsuc b) channels = none
bytes_per_pixel (pos b) (negsuc c) = none
bytes_per_pixel (pos b) (pos c) =
    if b == 0 || c == 0
    then none
    else if not (ltb (b * c) i32_limit)
    then none
    else if not ((b * c) % 8 == 0)
    then none
    else some ((b * c) / 8)

-- The checks after the row's least length is known.
unfoldable pub fitting : ℕ → ℕ → ℕ → ℕ → Option ℕ
fitting height stride min_rowstride data_len =
    if ltb stride min_rowstride then none else elim (checked_mul stride height) [
      | none ↦ none
      | some required ↦ if ltb data_len required then none else some stride
    ]

-- The checks after the bytes of a pixel are known.
unfoldable pub stride_for : ℕ → ℕ → ℕ → ℕ → ℕ → Option ℕ
stride_for width height rowstride data_len per_pixel = elim (checked_mul width per_pixel) [
  | none ↦ none
  | some min_rowstride ↦
      fitting height (if ltb 0 rowstride then rowstride else min_rowstride) min_rowstride data_len
]

unfoldable pub normalized_rowstride : ℤ → ℤ → ℤ → ℤ → ℤ → ℕ → Option ℕ
normalized_rowstride (pos width) (pos height) (pos rowstride) bits_per_sample channels data_len =
    if data_len == 0 || ltb max_image_bytes data_len
    then none
    else if width == 0 || height == 0
    then none
    else elim (bytes_per_pixel bits_per_sample channels) [
      | none ↦ none
      | some per_pixel ↦ stride_for width height rowstride data_len per_pixel
    ]
normalized_rowstride width height rowstride bits_per_sample channels data_len = none

-- The pixel at column `x` of row `y`, of `b` bytes, ends within `h` rows of `stride` bytes.
pixel_fits :
    (x y w h b stride : ℕ) → x < w → y < h → w * b ≤ stride → y * stride + (x * b + b) ≤ stride * h
pixel_fits x y w h b stride in_row in_rows wide = grind (arith, in_row, in_rows, wide)

fitting-some :
    (height stride least data_len s : ℕ)
    → fitting height stride least data_len ≡ some s
    → (least ≤ s) × (s * height ≤ data_len)
unfolding fitting checked_mul
fitting-some height stride least data_len s h = (ground (arith, h), ground (arith, h))

pub stride_for-some :
    (width height rowstride data_len b s : ℕ)
    → stride_for width height rowstride data_len b ≡ some s
    → (width * b ≤ s) × (s * height ≤ data_len)
unfolding stride_for checked_mul
stride_for-some width height rowstride data_len b s h =
    elim (Bool-cases (ltb (width * b) usize_limit)) [
      | inl small ↦
          fitting-some height (if ltb 0 rowstride then rowstride else width * b) (width * b)
            data_len s (rw (small, stride_for, checked_mul) at h)
      | inr large ↦ cc (rw (large, stride_for, checked_mul) at h)
    ]

-- If the checks accept image data, every pixel of the image lies within the data, at the row
-- stride they return; and the data is not larger than the limit.
pub normalized_rowstride-in_bounds :
    (width height rowstride x y data_len b stride : ℕ) (bits channels : ℤ)
    → normalized_rowstride (pos width) (pos height) (pos rowstride) bits channels data_len
      ≡ some stride
    → bytes_per_pixel bits channels ≡ some b
    → x < width
    → y < height
    → (y * stride + (x * b + b) ≤ data_len) × (data_len ≤ max_image_bytes)
unfolding normalized_rowstride
normalized_rowstride-in_bounds width height rowstride x y data_len b stride bits channels h pixel
      in_row in_rows =
    elim (Bool-cases (data_len == 0 || ltb max_image_bytes data_len)) [
      | inl refused ↦ cc (rw (refused, normalized_rowstride) at h)
      | inr sized ↦ elim (Bool-cases (width == 0 || height == 0)) [
        | inl flat ↦ cc (rw (sized, flat, normalized_rowstride) at h)
        | inr solid ↦
            let (wide, enough) =
              stride_for-some width height rowstride data_len b stride
                (rw (sized, solid, pixel, normalized_rowstride) at h) in
            let fits = pixel_fits x y width height b stride in_row in_rows wide in
            (omega (arith, fits, enough), ground (arith, sized))
      ]
    ]
