-- ===== src/Model/Pixels/Usable.antt =====
-- What comes out of the normalisation is accepted by the check that follows it.
use unix_notis.Prelude.{
  ==_iff, Bool, Bool-cases, Option-cases, ap, arith, if◌then◌else◌, inl, inr, length, ltb, refl,
  some, subst, sym, true, ℕ, ◌*◌, ◌<◌, ◌==◌, ◌||◌, ◌∙◌, ◌≡◌, ◌≤◌,
}
use unix_notis.Prelude.Int.{negsuc, pos, pos_part, ℤ}
use unix_notis.Model.{ImageData}
use unix_notis.Model.Image.{
  bytes_per_pixel, checked_mul, fitting, i32_limit, max_image_bytes, normalized_rowstride,
  stride_for, stride_for-some, usize_limit,
}
use unix_notis.Model.Pixels.Rows.{expand_rows-length}
use unix_notis.Model.Pixels.{
  at_least_one, expand_at, expand_rgb_to_rgba, expand_rows, is_image_data_usable, is_int,
  max_image_dimension, normalize_image_data, normalized,
}

is_int-pos : (n : ℕ) (z : ℤ) → is_int n z ≡ true → z ≡ pos n
is_int-pos n (pos m) h = ap pos ((==_iff m n).0 h)
is_int-pos n (negsuc m) h = cc

signs :
    (w h r bits channels : ℤ) (len s : ℕ)
    → normalized_rowstride w h r bits channels len ≡ some s
    → (w ≡ pos (pos_part w)) × (h ≡ pos (pos_part h)) × (r ≡ pos (pos_part r))
unfolding normalized_rowstride
signs (pos w) (pos h) (pos r) bits channels len s e = (refl, refl, refl)
signs (pos w) (pos h) (negsuc r) bits channels len s e = cc
signs (pos w) (negsuc h) r bits channels len s e = cc
signs (negsuc w) h r bits channels len s e = cc

-- Conditions under which the checks accept a layout of four bytes a pixel, and keep its stride.
accepted :
    (w h s len : ℕ)
    → 0 < w
    → 0 < h
    → w * 4 ≤ s
    → s * h ≤ len
    → 0 < len
    → len ≤ max_image_bytes
    → normalized_rowstride (pos w) (pos h) (pos s) (pos 8) (pos 4) len ≡ some s
unfolding normalized_rowstride bytes_per_pixel stride_for fitting checked_mul
accepted w h s len w0 h0 wide enough l0 small =
    let area : s ≤ s * h = grind (arith, h0) in
    ground (arith, w0, h0, wide, enough, l0, small, area)

-- What an accepted layout satisfies.
pub layout :
    (w h r len s b : ℕ) (bits channels : ℤ)
    → normalized_rowstride (pos w) (pos h) (pos r) bits channels len ≡ some s
    → bytes_per_pixel bits channels ≡ some b
    → (0 < w) × (0 < h) × (w * b ≤ s) × (s * h ≤ len) × (0 < len) × (len ≤ max_image_bytes)
unfolding normalized_rowstride
layout w h r len s b bits channels e pixel =
    elim (Bool-cases (len == 0 || ltb max_image_bytes len)) [
      | inl refused ↦ absurd (cc (rw (refused, normalized_rowstride) at e))
      | inr sized ↦ elim (Bool-cases (w == 0 || h == 0)) [
        | inl flat ↦ absurd (cc (rw (sized, flat, normalized_rowstride) at e))
        | inr solid ↦
            let (wide, enough) =
              stride_for-some w h r len b s (rw (sized, solid, pixel, normalized_rowstride) at e) in
            (
              ground (arith, solid),
              ground (arith, solid),
              wide,
              enough,
              ground (arith, sized),
              ground (arith, sized),
            )
      ]
    ]

usable_by :
    (image : ImageData) (w h s : ℕ)
    → image.width ≡ pos w
    → image.height ≡ pos h
    → image.rowstride ≡ pos s
    → image.bits_per_sample ≡ pos 8
    → image.channels ≡ pos 4
    → normalized_rowstride (pos w) (pos h) (pos s) (pos 8) (pos 4) (length image.bytes) ≡ some s
    → 0 < w
    → 0 < h
    → w ≤ max_image_dimension
    → h ≤ max_image_dimension
    → is_image_data_usable image ≡ true
unfolding is_image_data_usable normalized
usable_by image w h s ew eh es eb ec n w0 h0 w1 h1 =
    rw (ew, eh, es, eb, ec, n) (ground (arith, w0, h0, w1, h1))

-- The expanded image: its layout, and its bytes.
abbrev Expanded : Bool → ImageData → ImageData → ℕ → ℕ → ℕ → Type 0
Expanded use_simd image out w h r =
    (out ≡ record image {
      rowstride = pos (w * 4);
      has_alpha = true;
      channels = pos 4;
      bytes = out.bytes;
    })
    × (expand_rows use_simd w r image.bytes h 0 ≡ some out.bytes)
    × (w * h * 4 ≤ max_image_bytes)

expand_at-some :
    (use_simd : Bool) (image out : ImageData) (w h r : ℕ)
    → expand_at use_simd w h r image ≡ some out
    → Expanded use_simd image out w h r
unfolding expand_at checked_mul
expand_at-some use_simd image out w h r e = elim (Bool-cases (ltb (w * h) usize_limit)) [
  | inr a ↦ absurd (cc (rw (a, expand_at, checked_mul) at e))
  | inl a ↦ elim (Bool-cases (ltb (w * h * 4) usize_limit)) [
    | inr b ↦ absurd (cc (rw (a, b, expand_at, checked_mul) at e))
    | inl b ↦ elim (Bool-cases (ltb max_image_bytes (w * h * 4))) [
      | inl c ↦ absurd (cc (rw (a, b, c, expand_at, checked_mul) at e))
      | inr c ↦ elim (Option-cases (expand_rows use_simd w r image.bytes h 0)) [
        | inl n ↦ absurd (cc (rw (a, b, c, n, expand_at, checked_mul) at e))
        | inr (bytes, n) ↦
            let g = rw (a, b, c, n, expand_at, checked_mul) at e in
            let p : record image {
              rowstride = pos (w * 4);
              has_alpha = true;
              channels = pos 4;
              bytes = bytes;
            }
                ≡ out =
              cc in
            let q : bytes ≡ out.bytes = ap (λ i. i.bytes) p in
            (
              sym p
                  ∙ ap
                      (λ k. record image {
                        rowstride = pos (w * 4);
                        has_alpha = true;
                        channels = pos 4;
                        bytes = k;
                      })
                      q,
              n ∙ ap (λ k. some k) q,
              ground (arith, c),
            )
      ]
    ]
  ]
]

pub expand_rgb_to_rgba-some :
    (use_simd : Bool) (image out : ImageData) (w h r : ℕ)
    → image.width ≡ pos w
    → image.height ≡ pos h
    → image.rowstride ≡ pos r
    → 0 < w
    → 0 < h
    → 0 < r
    → expand_rgb_to_rgba use_simd image ≡ some out
    → Expanded use_simd image out w h r
unfolding expand_rgb_to_rgba
expand_rgb_to_rgba-some use_simd image out w h r ew eh er w0 h0 r0 e =
    let mw : at_least_one image.width ≡ w = ap at_least_one ew ∙ ground (arith, w0) in
    let mh : at_least_one image.height ≡ h = ap at_least_one eh ∙ ground (arith, h0) in
    let lr : (if ltb 0 (pos_part image.rowstride) then pos_part image.rowstride else w * 3) ≡ r =
      rw er (ground (arith, r0)) in
    expand_at-some use_simd image out w h r (rw (mw, mh, lr) at e)

-- The stride that is accepted covers a row, so that it is not zero.
three_channels :
    (use_simd : Bool) (image out : ImageData) (w h r s : ℕ)
    → image.width ≡ pos w
    → image.height ≡ pos h
    → image.bits_per_sample ≡ pos 8
    → image.channels ≡ pos 3
    → normalized_rowstride (pos w) (pos h) (pos r) (pos 8) (pos 3) (length image.bytes) ≡ some s
    → w ≤ max_image_dimension
    → h ≤ max_image_dimension
    → expand_rgb_to_rgba use_simd (record image { rowstride = pos s }) ≡ some out
    → is_image_data_usable out ≡ true
three_channels use_simd image out w h r s ew eh eb ec n w1 h1 e =
    let pixel : bytes_per_pixel (pos 8) (pos 3) ≡ some 3 = unfold bytes_per_pixel in (refl) in
    let (w0, h0, wide, enough, l0, small) =
      layout w h r (length image.bytes) s 3 (pos 8) (pos 3) n pixel in
    let (p, q, fits) =
      expand_rgb_to_rgba-some use_simd (record image { rowstride = pos s }) out w h s ew eh refl w0
        h0 (omega (arith, wide, w0)) e in
    let l = expand_rows-length use_simd w s image.bytes h 0 out.bytes w0 q in
    let area : 0 < h * (w * 4) = grind (arith, w0, h0) in
    let same : h * (w * 4) ≡ w * h * 4 = grind arith in
    let acc =
      accepted w h (w * 4) (length out.bytes) w0 h0 (omega arith) (grind (arith, l))
        (omega (arith, area, l)) (omega (arith, fits, same, l)) in
    usable_by out w h (w * 4) (ap (λ i. i.width) p ∙ ew) (ap (λ i. i.height) p ∙ eh)
      (ap (λ i. i.rowstride) p) (ap (λ i. i.bits_per_sample) p ∙ eb) (ap (λ i. i.channels) p) acc w0
      h0 w1 h1

four_channels :
    (image : ImageData) (w h r s : ℕ)
    → image.width ≡ pos w
    → image.height ≡ pos h
    → image.bits_per_sample ≡ pos 8
    → image.channels ≡ pos 4
    → normalized_rowstride (pos w) (pos h) (pos r) (pos 8) (pos 4) (length image.bytes) ≡ some s
    → w ≤ max_image_dimension
    → h ≤ max_image_dimension
    → is_image_data_usable (record image { rowstride = pos s }) ≡ true
four_channels image w h r s ew eh eb ec n w1 h1 =
    let pixel : bytes_per_pixel (pos 8) (pos 4) ≡ some 4 = unfold bytes_per_pixel in (refl) in
    let (w0, h0, wide, enough, l0, small) =
      layout w h r (length image.bytes) s 4 (pos 8) (pos 4) n pixel in
    usable_by (record image { rowstride = pos s }) w h s ew eh refl eb ec
      (accepted w h s (length image.bytes) w0 h0 wide enough l0 small) w0 h0 w1 h1

-- An image that the normalisation returns, and whose sides are within the limit, passes the check
-- that follows: eight bits a sample, four channels, a row stride and a size that fit its bytes.
pub normalize_image_data-usable :
    (use_simd : Bool) (image out : ImageData)
    → normalize_image_data use_simd image ≡ some out
    → pos_part image.width ≤ max_image_dimension
    → pos_part image.height ≤ max_image_dimension
    → is_image_data_usable out ≡ true
unfolding normalize_image_data normalized
normalize_image_data-usable use_simd image out e w1 h1 =
    elim (Bool-cases (is_int 8 image.bits_per_sample)) [
      | inr a ↦ absurd (cc (rw (a, normalize_image_data) at e))
      | inl a ↦ elim (Option-cases (normalized image)) [
        | inl n ↦ absurd (cc (rw (a, n, normalize_image_data) at e))
        | inr (s, n) ↦
            let (ew, eh, er) =
              signs image.width image.height image.rowstride image.bits_per_sample image.channels
                (length image.bytes) s (unfold normalized in (n)) in
            elim (Bool-cases (ltb s i32_limit)) [
              | inr b ↦ absurd (cc (rw (a, n, b, normalize_image_data) at e))
              | inl b ↦ elim (Bool-cases (is_int 4 image.channels)) [
                | inl c ↦
                    let b8 = is_int-pos 8 image.bits_per_sample a in
                    let c4 = is_int-pos 4 image.channels c in
                    let m : normalized_rowstride (pos (pos_part image.width))
                          (pos (pos_part image.height)) (pos (pos_part image.rowstride)) (pos 8)
                          (pos 4) (length image.bytes)
                        ≡ some s =
                      rw (sym ew, sym eh, sym er, sym b8, sym c4) n in
                    let p : record image { rowstride = pos s } ≡ out =
                      cc (rw (a, n, b, c, normalize_image_data) at e) in
                    subst (λ o. is_image_data_usable o ≡ true) p
                      (four_channels image (pos_part image.width) (pos_part image.height)
                        (pos_part image.rowstride) s ew eh b8 c4 m w1 h1)
                | inr c ↦ elim (Bool-cases (is_int 3 image.channels)) [
                  | inr d ↦ absurd (cc (rw (a, n, b, c, d, normalize_image_data) at e))
                  | inl d ↦
                      let b8 = is_int-pos 8 image.bits_per_sample a in
                      let c3 = is_int-pos 3 image.channels d in
                      let m : normalized_rowstride (pos (pos_part image.width))
                            (pos (pos_part image.height)) (pos (pos_part image.rowstride)) (pos 8)
                            (pos 3) (length image.bytes)
                          ≡ some s =
                        rw (sym ew, sym eh, sym er, sym b8, sym c3) n in
                      let p = rw (a, n, b, c, d, normalize_image_data) at e in
                      three_channels use_simd image out (pos_part image.width)
                        (pos_part image.height) (pos_part image.rowstride) s ew eh b8 c3 m w1 h1 p
                ]
              ]
            ]
      ]
    ]
