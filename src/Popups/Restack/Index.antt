-- ===== src/Popups/Restack/Index.antt =====
-- Where a row stands in a list, and that the position map knows it.
use unix_notis.Prelude.{
  ==_iff, Bool-cases, List, Option, [], ap, arith, drop, false, if◌then◌else◌, inl, inr, length,
  nat_eq, none, refl, some, subst, suc, sym, take, text_eq, ℕ, ◌++◌, ◌+◌, ◌==◌, ◌∷◌, ◌≡◌,
}
use unix_notis.Prelude.Maps.{Distinct, elem, insert, lookup, lookup-insert}
use unix_notis.Popups.Restack.{insert_at, remove_at, renumber}

unfoldable pub index_from : ℕ → ℕ → List ℕ → Option ℕ
index_from i id [] = none
index_from i id (x ∷ xs) = if x == id then some i else index_from (i + 1) id xs

-- The positions are those of the rows of the list.
abbrev pub Knows : List (ℕ × ℕ) → List ℕ → Type 0
Knows positions rows = (id : ℕ) → lookup id positions ≡ index_from 0 id rows

pub index_from_absent : (i id : ℕ) (xs : List ℕ) → elem id xs ≡ false → index_from i id xs ≡ none
unfolding index_from elem
index_from_absent i id [] h = refl
index_from_absent i id (x ∷ xs) h = ground (arith, h, index_from_absent (i + 1) id xs)

pub index_from-append :
    (i id : ℕ) (xs ys : List ℕ)
    → index_from i id (xs ++ ys)
      ≡ (if elem id xs then index_from i id xs else index_from (i + length xs) id ys)
unfolding index_from elem
index_from-append i id [] ys =
    let n : i + 0 ≡ i = omega arith in ap (λ n. index_from n id ys) (sym n)
index_from-append i id (x ∷ xs) ys =
    let n : i + suc (length xs) ≡ i + 1 + length xs = omega arith in
    ground (arith, index_from-append (i + 1) id xs ys, n)

pub lookup-renumber :
    (i id : ℕ) (xs : List ℕ) (p : List (ℕ × ℕ))
    → Distinct xs
    → lookup id (renumber i xs p) ≡ (if elem id xs then index_from i id xs else lookup id p)
unfolding renumber index_from elem
lookup-renumber i id [] p d = refl
lookup-renumber i id (x ∷ xs) p d =
    let rest = lookup-renumber (i + 1) id xs (insert x i p) d.1 in
    let inserted : lookup id (insert x i p) ≡ (if x == id then some i else lookup id p) =
      lookup-insert x id i p in
    elim (Bool-cases (x == id)) [
      | inl e ↦
          let same = (==_iff x id).0 e in
          let absent : elem id xs ≡ false = subst (λ k. elem k xs ≡ false) same d.0 in
          ground (arith, e, absent, inserted, rest)
      | inr e ↦ ground (arith, e, inserted, rest)
    ]

-- A row that is found splits the list.
pub index_from-split :
    (i id c : ℕ) (xs : List ℕ)
    → index_from i id xs ≡ some c
    → (a : List ℕ) × (b : List ℕ) × (xs ≡ a ++ id ∷ b) × (c ≡ i + length a) × (elem id a ≡ false)
unfolding index_from elem
index_from-split i id c [] h = cc
index_from-split i id c (x ∷ xs) h = elim (Bool-cases (x == id)) [
  | inl e ↦ ([], xs, ap (λ k. k ∷ xs) ((==_iff x id).0 e), ground (arith, e, h), refl)
  | inr e ↦
      let (a, b, p, q, r) = index_from-split (i + 1) id c xs (ground (arith, h, e)) in
      (x ∷ a, b, ap (λ r. x ∷ r) p, omega (arith, q), ground (arith, e, r))
]

pub insert_at-append : (x : ℕ) (xs ys : List ℕ) → insert_at (length xs) x (xs ++ ys) ≡ xs ++ x ∷ ys
unfolding insert_at
insert_at-append x [] ys = refl
insert_at-append x (y ∷ xs) ys = ap (λ r. y ∷ r) (insert_at-append x xs ys)

pub remove_at-append : (x : ℕ) (xs ys : List ℕ) → remove_at (length xs) (xs ++ x ∷ ys) ≡ xs ++ ys
unfolding remove_at
remove_at-append x [] ys = refl
remove_at-append x (y ∷ xs) ys = ap (λ r. y ∷ r) (remove_at-append x xs ys)

pub drop_one : (xs ys : List ℕ) → drop (length xs) (xs ++ ys) ≡ ys
drop_one [] ys = refl
drop_one (x ∷ xs) ys = drop_one xs ys

pub take_one : (xs ys : List ℕ) → take (length xs) (xs ++ ys) ≡ xs
take_one [] ys = refl
take_one (x ∷ xs) ys = ap (λ r. x ∷ r) (take_one xs ys)
