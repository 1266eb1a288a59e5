-- ===== src/Center/Blocks.antt =====
-- Splices between what stays before and after, and a block that is removed leaves no trace.
use mathlib.Core.List.{append_assoc}
use unix_notis.Prelude.{
  List, [], ap, drop, length, length-append, refl, sym, take, ◌++◌, ◌+◌, ◌∙◌, ◌∷◌, ◌≡◌,
}
use unix_notis.Center.{splice}

pub take_front {ℓ} : {A : Type ℓ} (xs ys : List A) → take (length xs) (xs ++ ys) ≡ xs
take_front [] ys = refl
take_front (x ∷ xs) ys = ap (λ r. x ∷ r) (take_front xs ys)

pub drop_one {ℓ} : {A : Type ℓ} (xs ys : List A) → drop (length xs) (xs ++ ys) ≡ ys
drop_one [] ys = refl
drop_one (x ∷ xs) ys = drop_one xs ys

drop_front {ℓ} :
    {A : Type ℓ} (xs ys zs : List A) → drop (length xs + length ys) (xs ++ (ys ++ zs)) ≡ zs
drop_front {A} xs ys zs =
    ap (λ n. drop n (xs ++ (ys ++ zs))) (sym (length-append xs ys))
    ∙ ap (λ (l : List A). drop (length (xs ++ ys)) l) (sym (append_assoc xs ys zs))
    ∙ drop_one (xs ++ ys) zs

-- A splice between what stays before and what stays after.
pub splice_between {ℓ} :
    {A : Type ℓ} (before gone come after : List A)
    → splice (length before) (length gone) come (before ++ (gone ++ after))
      ≡ before ++ (come ++ after)
unfolding splice
splice_between before gone come after =
    rw (take_front before (gone ++ after), drop_front before gone after) refl
