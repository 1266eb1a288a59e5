-- ===== src/Model/Pixels/Rows.antt =====
-- The two row routines agree, and what a pixel becomes.
use Prim.Native.Nat.{bit_or-bitwise, bit_or}
use unix_notis.Prelude.{
  Bool, Bool-cases, List, Option-cases, [], ap, arith, drop, false, inl, inr, leb, length,
  length-append, length-drop, length-take, ltb, min, not, refl, some, suc, sym, take, true, zero, ℕ,
  ◌*◌, ◌++◌, ◌+◌, ◌-◌, ◌/◌, ◌<◌, ◌||◌, ◌∙◌, ◌∷◌, ◌≡◌, ◌≤◌,
}
use unix_notis.Model.Pixels.{
  usize_limit, expand_rgb_row_scalar, expand_rgb_row_ssse3, expand_row, expand_rows, four_pixels,
  simd_loop, tail_pixels,
}

or_zero : (b : ℕ) → bit_or 0 b ≡ b
or_zero b = bit_or-bitwise 0 b

three :
    (xs : List ℕ)
    → 3 ≤ length xs
    → (a : ℕ) × (b : ℕ) × (c : ℕ) × (rest : List ℕ) × (xs ≡ a ∷ b ∷ c ∷ rest)
      × (length rest + 3 ≡ length xs)
three [] h = absurd (omega (arith, h))
three (a ∷ []) h = absurd (omega (arith, h))
three (a ∷ b ∷ []) h = absurd (omega (arith, h))
three (a ∷ b ∷ c ∷ rest) h = (a, b, c, rest, refl, omega arith)

tail_pixels-scalar :
    (n : ℕ) (xs : List ℕ)
    → n * 3 ≤ length xs
    → length xs < n * 3 + 3
    → tail_pixels n xs ≡ expand_rgb_row_scalar xs
unfolding tail_pixels expand_rgb_row_scalar
tail_pixels-scalar zero [] h g = refl
tail_pixels-scalar zero (a ∷ []) h g = refl
tail_pixels-scalar zero (a ∷ b ∷ []) h g = refl
tail_pixels-scalar zero (a ∷ b ∷ c ∷ rest) h g = absurd (omega (arith, g))
tail_pixels-scalar (suc n) [] h g = absurd (omega (arith, h))
tail_pixels-scalar (suc n) (a ∷ []) h g = absurd (omega (arith, h))
tail_pixels-scalar (suc n) (a ∷ b ∷ []) h g = absurd (omega (arith, h))
tail_pixels-scalar (suc n) (a ∷ b ∷ c ∷ rest) h g =
    ap (λ r. a ∷ b ∷ c ∷ 255 ∷ r) (tail_pixels-scalar n rest (omega (arith, h)) (omega (arith, g)))

-- Twelve bytes and what follows them.
four_pixels-cons :
    (a b c d e f g h i j k l : ℕ) (rest : List ℕ)
    → four_pixels (a ∷ b ∷ c ∷ d ∷ e ∷ f ∷ g ∷ h ∷ i ∷ j ∷ k ∷ l ∷ rest)
      ≡ a ∷ b ∷ c ∷ 255 ∷ d ∷ e ∷ f ∷ 255 ∷ g ∷ h ∷ i ∷ 255 ∷ j ∷ k ∷ l ∷ 255 ∷ []
unfolding four_pixels
four_pixels-cons a b c d e f g h i j k l rest = simp (or_zero) refl

four_pixels-scalar :
    (xs : List ℕ)
    → 12 ≤ length xs
    → four_pixels xs ++ expand_rgb_row_scalar (drop 12 xs) ≡ expand_rgb_row_scalar xs
four_pixels-scalar xs h =
    let (a, b, c, r1, e1, l1) = three xs (omega (arith, h)) in
    let (d, e, f, r2, e2, l2) = three r1 (omega (arith, h, l1)) in
    let (g, h', i, r3, e3, l3) = three r2 (omega (arith, h, l1, l2)) in
    let (j, k, l, r4, e4, l4) = three r3 (omega (arith, h, l1, l2, l3)) in
    rw (e1, e2, e3, e4)
      (unfold expand_rgb_row_scalar in
        (ap (λ r. r ++ expand_rgb_row_scalar r4) (four_pixels-cons a b c d e f g h' i j k l r4)))

simd_loop-scalar :
    (fuel : ℕ) (src : List ℕ) → length src ≤ fuel → simd_loop fuel src ≡ expand_rgb_row_scalar src
unfolding simd_loop
simd_loop-scalar zero src h = tail_pixels-scalar (length src / 3) src (omega arith) (omega arith)
simd_loop-scalar (suc fuel) src h = elim (Bool-cases (leb 16 (length src))) [
  | inl e ↦
      let long : 16 ≤ length src = ground (arith, e) in
      let rest = simd_loop-scalar fuel (drop 12 src) (omega (arith, h, long, length-drop 12 src)) in
      rw (e, rest) (four_pixels-scalar src (omega (arith, long)))
  | inr e ↦ rw e (tail_pixels-scalar (length src / 3) src (omega arith) (omega arith))
]

-- The SSSE3 routine writes what the scalar routine writes, on a row of any length.
pub expand_rgb_row_ssse3-scalar :
    (src : List ℕ) → expand_rgb_row_ssse3 src ≡ expand_rgb_row_scalar src
unfolding expand_rgb_row_ssse3
expand_rgb_row_ssse3-scalar src = simd_loop-scalar (length src) src (omega arith)

pub length-expand_rgb_row_scalar :
    (n : ℕ) (src : List ℕ) → length src ≡ n * 3 → length (expand_rgb_row_scalar src) ≡ n * 4
unfolding expand_rgb_row_scalar
length-expand_rgb_row_scalar zero [] h = omega arith
length-expand_rgb_row_scalar zero (a ∷ r) h = absurd (omega (arith, h))
length-expand_rgb_row_scalar (suc n) [] h = absurd (omega (arith, h))
length-expand_rgb_row_scalar (suc n) (a ∷ []) h = absurd (omega (arith, h))
length-expand_rgb_row_scalar (suc n) (a ∷ b ∷ []) h = absurd (omega (arith, h))
length-expand_rgb_row_scalar (suc n) (a ∷ b ∷ c ∷ rest) h =
    omega (arith, length-expand_rgb_row_scalar n rest (omega (arith, h)))

expand_row-scalar :
    (use_simd : Bool) (row : List ℕ) → expand_row use_simd row ≡ expand_rgb_row_scalar row
unfolding expand_row
expand_row-scalar true row = expand_rgb_row_ssse3-scalar row
expand_row-scalar false row = refl

-- A round of the rows that succeeds.
expand_rows-suc :
    (use_simd : Bool) (w s : ℕ) (bytes : List ℕ) (rows y : ℕ) (out : List ℕ)
    → 0 < w
    → expand_rows use_simd w s bytes (suc rows) y ≡ some out
    → (later : List ℕ) × (expand_rows use_simd w s bytes rows (suc y) ≡ some later)
      × (out ≡ expand_rgb_row_scalar (take (w * 3) (drop (y * s) bytes)) ++ later)
      × (y * s + w * 3 ≤ length bytes)
unfolding expand_rows
expand_rows-suc use_simd w s bytes rows y out w0 h =
    let start = min (y * s) (usize_limit - 1) in
    elim (Bool-cases
      (not (ltb (start + w * 3) usize_limit) || ltb (length bytes) (start + w * 3))) [
        | inl e ↦ absurd (cc (rw (e, expand_rows) at h))
        | inr e ↦
            let same : start ≡ y * s = ground (arith, e, w0) in
            elim (Option-cases (expand_rows use_simd w s bytes rows (suc y))) [
              | inl n ↦ absurd (cc (rw (e, n, expand_rows) at h))
              | inr (later, n) ↦
                  let g = rw (e, n, expand_rows) at h in
                  (
                    later,
                    n,
                    sym (
                        cc (
                          g,
                          expand_row-scalar use_simd (take (w * 3) (drop start bytes)),
                          ap (λ k. drop k bytes) same,
                        )),
                    ground (arith, same, e),
                  )
            ]
      ]

pub expand_rows-length :
    (use_simd : Bool) (w s : ℕ) (bytes : List ℕ) (rows y : ℕ) (out : List ℕ)
    → 0 < w
    → expand_rows use_simd w s bytes rows y ≡ some out
    → length out ≡ rows * (w * 4)
unfolding expand_rows
expand_rows-length use_simd w s bytes zero y out w0 h =
    let e : [] ≡ out = cc in ap length (sym e) ∙ omega arith
expand_rows-length use_simd w s bytes (suc rows) y out w0 h =
    let (later, e, f, g) = expand_rows-suc use_simd w s bytes rows y out w0 h in
    let row = take (w * 3) (drop (y * s) bytes) in
    let l1 : length row ≡ w * 3 =
      omega (arith, length-take (w * 3) (drop (y * s) bytes), length-drop (y * s) bytes, g) in
    let l2 = length-expand_rgb_row_scalar w row l1 in
    let l3 = expand_rows-length use_simd w s bytes rows (suc y) later w0 e in
    rw f (omega (arith, l2, l3, length-append (expand_rgb_row_scalar row) later))
