-- ===== src/Rules/Search.antt =====
-- `contains_ci` decides whether the needle stands in the haystack, letter case aside.
use unix_notis.Prelude.{
  ◌≢◌, ℕ, suc, ◌≤◌, ◌≡◌, refl, sym, ap, ◌∙◌, ◌↔◌, inl, inr, true, false, [], ◌∷◌, ◌++◌, map, Text,
  arith, length, take, ltb, Bool-cases, length-append, length-map, drop, take-append-drop, ◌≢◌,
}
use unix_notis.Rules.{lower, eq_ignore_ascii_case, any_window, contains_ci}

-- A stretch of `haystack` that reads as `needle` in lower case.
abbrev pub Occurs : Text → Text → Type 0
Occurs needle haystack =
    (before : Text) × (found : Text) × (after : Text) × (haystack ≡ before ++ (found ++ after))
    × (map lower found ≡ map lower needle)

eq_ignore_ascii_case_iff :
    (s t : Text) → (eq_ignore_ascii_case s t ≡ true) ↔ (map lower s ≡ map lower t)
unfolding eq_ignore_ascii_case
eq_ignore_ascii_case_iff [] [] = (λ h. refl, λ h. refl)
eq_ignore_ascii_case_iff [] (b ∷ bs) = (λ h. cc, λ h. cc)
eq_ignore_ascii_case_iff (a ∷ as') [] = (λ h. cc, λ h. cc)
eq_ignore_ascii_case_iff (a ∷ as') (b ∷ bs) = (
  λ h. ground (arith, eq_ignore_ascii_case_iff as' bs),
  λ h. ground (arith, eq_ignore_ascii_case_iff as' bs),
)

take_prefix : (xs ys : Text) → take (length xs) (xs ++ ys) ≡ xs
take_prefix [] ys = refl
take_prefix (x ∷ xs) ys = ap (λ r. x ∷ r) (take_prefix xs ys)

any_window_sound :
    (needle haystack : Text)
    → any_window (length needle) (λ w. eq_ignore_ascii_case w needle) haystack ≡ true
    → Occurs needle haystack
unfolding any_window
any_window_sound needle [] h = cc
any_window_sound needle (b ∷ bs) h =
    elim (Bool-cases (eq_ignore_ascii_case (take (length needle) (b ∷ bs)) needle)) [
      | inl here ↦ (
        [],
        take (length needle) (b ∷ bs),
        drop (length needle) (b ∷ bs),
        sym (take-append-drop (length needle) (b ∷ bs)),
        (eq_ignore_ascii_case_iff _ needle).0 here,
      )
      | inr later ↦
          let (before, found, after, e, same) = any_window_sound needle bs (ground arith) in
          (b ∷ before, found, after, ap (λ r. b ∷ r) e, same)
    ]

same_length :
    (found needle : Text) → map lower found ≡ map lower needle → length needle ≡ length found
same_length found needle h =
    sym (length-map lower needle) ∙ ap length (sym h) ∙ length-map lower found

any_window_complete :
    (needle before found after : Text)
    → needle ≢ []
    → map lower found ≡ map lower needle
    → any_window (length needle) (λ w. eq_ignore_ascii_case w needle) (before ++ (found ++ after))
      ≡ true
unfolding any_window
any_window_complete [] [] found after n h = absurd (n refl)
any_window_complete (c ∷ cs) [] [] after n h = cc
any_window_complete (c ∷ cs) [] (f ∷ fs) after n h =
    let same : length cs ≡ length fs = omega (arith, same_length (f ∷ fs) (c ∷ cs) h) in
    rw same (
      rw (take_prefix fs after)
        (ground (arith, (eq_ignore_ascii_case_iff (f ∷ fs) (c ∷ cs)).1 h, length-append fs after)))
any_window_complete needle (b ∷ before) found after n h =
    ground (arith, any_window_complete needle before found after n h)

Occurs-length : (needle haystack : Text) → Occurs needle haystack → length needle ≤ length haystack
Occurs-length needle haystack (before, found, after, e, same) = omega (
  arith,
  ap length e,
  length-append before (found ++ after),
  length-append found after,
  same_length found needle same,
)

contains_ci_complete :
    (c : ℕ) (cs haystack : Text) → Occurs (c ∷ cs) haystack → contains_ci haystack (c ∷ cs) ≡ true
unfolding contains_ci
contains_ci_complete c cs haystack o =
    let (before, found, after, e, same) = o in
    let fits : ltb (length haystack) (suc (length cs)) ≡ false =
      ground (arith, Occurs-length (c ∷ cs) haystack o) in
    rw fits (rw e (any_window_complete (c ∷ cs) before found after (λ h. cc) same))

-- `contains_ci` is true exactly when some stretch of the haystack equals the needle up to the case
-- of ASCII letters; the empty needle stands everywhere.
pub contains_ci_iff :
    (haystack needle : Text) → (contains_ci haystack needle ≡ true) ↔ Occurs needle haystack
unfolding contains_ci
contains_ci_iff haystack [] = (λ h. ([], [], haystack, refl, refl), λ o. refl)
contains_ci_iff haystack (c ∷ cs) =
    (λ h. any_window_sound (c ∷ cs) haystack (ground arith), contains_ci_complete c cs haystack)
