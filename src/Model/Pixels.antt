-- ===== src/Model/Pixels.antt =====
-- Image data brought to four channels: normalize_image_data, expand_rgb_to_rgba and its two row
-- routines, and is_image_data_usable, of crates/unixnotis-core/src/model/image.rs. Whether the
-- processor has SSSE3 is an argument.
pub mod Rows
pub mod Usable
use Prim.Native.Nat.{bit_or}
use unix_notis.Prelude.{
  Bool, List, Option, [], drop, false, if◌then◌else◌, leb, length, ltb, max, min, none, not, some,
  suc, take, true, zero, ℕ, ◌*◌, ◌++◌, ◌+◌, ◌-◌, ◌/◌, ◌==◌, ◌||◌, ◌∷◌,
}
use unix_notis.Prelude.Int.{negsuc, pos, pos_part, ℤ}
use unix_notis.Model.{ImageData}
use unix_notis.Model.Image.{
  checked_mul, i32_limit, max_image_bytes, normalized_rowstride, usize_limit,
}

-- One pixel after the other; bytes after the last full pixel are left out.
unfoldable pub expand_rgb_row_scalar : List ℕ → List ℕ
expand_rgb_row_scalar [] = []
expand_rgb_row_scalar (r ∷ []) = []
expand_rgb_row_scalar (r ∷ g ∷ []) = []
expand_rgb_row_scalar (r ∷ g ∷ b ∷ rest) = r ∷ g ∷ b ∷ 255 ∷ expand_rgb_row_scalar rest

-- The byte at an index, zero past the end.
abbrev pub byte_at : List ℕ → ℕ → ℕ
byte_at [] i = 0
byte_at (x ∷ xs) zero = x
byte_at (x ∷ xs) (suc i) = byte_at xs i

-- `_mm_shuffle_epi8`, where a negative mask byte (none) gives zero, and `_mm_or_si128`.
abbrev pub shuffle : List ℕ → List (Option ℕ) → List ℕ
shuffle chunk [] = []
shuffle chunk (none ∷ mask) = 0 ∷ shuffle chunk mask
shuffle chunk (some i ∷ mask) = byte_at chunk i ∷ shuffle chunk mask

abbrev pub or_bytes : List ℕ → List ℕ → List ℕ
or_bytes [] bytes = []
or_bytes (a ∷ as') [] = []
or_bytes (a ∷ as') (b ∷ bs) = bit_or a b ∷ or_bytes as' bs

abbrev pub shuffle_mask : List (Option ℕ)
shuffle_mask =
    some 0
    ∷ some 1
    ∷ some 2
    ∷ none
    ∷ some 3
    ∷ some 4
    ∷ some 5
    ∷ none
    ∷ some 6
    ∷ some 7
    ∷ some 8
    ∷ none
    ∷ some 9
    ∷ some 10
    ∷ some 11
    ∷ none
    ∷ []

abbrev pub alpha_mask : List ℕ
alpha_mask = 0 ∷ 0 ∷ 0 ∷ 255 ∷ 0 ∷ 0 ∷ 0 ∷ 255 ∷ 0 ∷ 0 ∷ 0 ∷ 255 ∷ 0 ∷ 0 ∷ 0 ∷ 255 ∷ []

-- Four pixels at once, from a load of sixteen bytes.
unfoldable pub four_pixels : List ℕ → List ℕ
four_pixels src = or_bytes alpha_mask (shuffle (take 16 src) shuffle_mask)

-- The loop over the pixels that remain, by their number.
unfoldable pub tail_pixels : ℕ → List ℕ → List ℕ
tail_pixels zero src = []
tail_pixels (suc n) src =
    byte_at src 0 ∷ byte_at src 1 ∷ byte_at src 2 ∷ 255 ∷ tail_pixels n (drop 3 src)

-- The loop that loads, on fuel.
unfoldable pub simd_loop : ℕ → List ℕ → List ℕ
simd_loop zero src = tail_pixels (length src / 3) src
simd_loop (suc fuel) src =
    let rest = simd_loop fuel (drop 12 src) in
    if leb 16 (length src) then four_pixels src ++ rest else tail_pixels (length src / 3) src

unfoldable pub expand_rgb_row_ssse3 : List ℕ → List ℕ
expand_rgb_row_ssse3 src = simd_loop (length src) src

unfoldable pub expand_row : Bool → List ℕ → List ℕ
expand_row use_simd row = if use_simd then expand_rgb_row_ssse3 row else expand_rgb_row_scalar row

-- The rows from a row on. `saturating_mul` and `checked_add` on usize.
unfoldable pub expand_rows : Bool → ℕ → ℕ → List ℕ → ℕ → ℕ → Option (List ℕ)
expand_rows use_simd width rowstride bytes zero y = some []
expand_rows use_simd width rowstride bytes (suc rows) y =
    let rest = expand_rows use_simd width rowstride bytes rows (suc y) in
    let row_start = min (y * rowstride) (usize_limit - 1) in
    let row_end = row_start + width * 3 in
    if not (ltb row_end usize_limit) || ltb (length bytes) row_end then none else elim rest [
      | none ↦ none
      | some later ↦ some (expand_row use_simd (take (width * 3) (drop row_start bytes)) ++ later)
    ]

-- The expansion at a width, a height and a row stride that are not zero. A width and a height fit an
-- i32, so that their products with 3 and 4 fit a usize.
unfoldable pub expand_at : Bool → ℕ → ℕ → ℕ → ImageData → Option ImageData
expand_at use_simd width height rowstride image =
    let rgba = expand_rows use_simd width rowstride image.bytes height 0 in
    elim (checked_mul width height) [
      | none ↦ none
      | some pixel_count ↦ elim (checked_mul pixel_count 4) [
        | none ↦ none
        | some output_len ↦ if ltb max_image_bytes output_len then none else elim rgba [
          | none ↦ none
          | some bytes ↦ some (record {
            width = image.width;
            height = image.height;
            rowstride = pos (width * 4);
            has_alpha = true;
            bits_per_sample = image.bits_per_sample;
            channels = pos 4;
            bytes = bytes;
          })
        ]
      ]
    ]

-- `max(1) as usize`.
abbrev pub at_least_one : ℤ → ℕ
at_least_one n = max (pos_part n) 1

unfoldable pub expand_rgb_to_rgba : Bool → ImageData → Option ImageData
expand_rgb_to_rgba use_simd image =
    let width = at_least_one image.width in
    let rowstride = pos_part image.rowstride in
    expand_at use_simd width (at_least_one image.height)
      (if ltb 0 rowstride then rowstride else width * 3) image

abbrev pub is_int : ℕ → ℤ → Bool
is_int n (pos m) = m == n
is_int n (negsuc m) = false

unfoldable pub normalized : ImageData → Option ℕ
normalized image =
    normalized_rowstride image.width image.height image.rowstride image.bits_per_sample
      image.channels (length image.bytes)

unfoldable pub normalize_image_data : Bool → ImageData → Option ImageData
normalize_image_data use_simd image =
    if not (is_int 8 image.bits_per_sample) then none else elim (normalized image) [
      | none ↦ none
      | some rowstride ↦
          if not (ltb rowstride i32_limit)
          then none
          else let image = record image { rowstride = pos rowstride } in
            if is_int 4 image.channels
            then some image
            else if is_int 3 image.channels
            then expand_rgb_to_rgba use_simd image
            else none
    ]

abbrev pub max_image_dimension : ℕ
max_image_dimension = 256

unfoldable pub is_image_data_usable : ImageData → Bool
is_image_data_usable image =
    if pos_part image.width == 0 || pos_part image.height == 0
    then false
    else if ltb max_image_dimension (pos_part image.width)
        || ltb max_image_dimension (pos_part image.height)
    then false
    else if not (is_int 8 image.bits_per_sample) || not (is_int 4 image.channels)
    then false
    else elim (normalized image) [ none ↦ false | some stride ↦ true ]
