-- ===== src/Popups/Restack/Moved.antt =====
-- One round of the restack loop: the rows that are placed, the rest, and what is known of them.
use mathlib.Core.List.{append-nil, append_assoc}
use unix_notis.Prelude.{
  ==_iff, Bool-cases, List, [], ap, arith, false, inl, inr, length, length-append, max, min, nat_eq,
  none, refl, some, subst, sym, text_eq, true, ℕ, ◌++◌, ◌+◌, ◌-◌, ◌<◌, ◌==◌, ◌||◌, ◌∙◌, ◌∷◌, ◌≡◌,
}
use unix_notis.Prelude.Maps.{Distinct, beq_refl, elem, elem-append, lookup}
use unix_notis.Popups.Restack.{
  Restack, insert_at, mark, place, remove_at, row_at, renumber, restack_step,
}
use unix_notis.Popups.Restack.Index.{
  Knows, drop_one, index_from, index_from-append, index_from_absent, insert_at-append,
  lookup-renumber, remove_at-append, take_one,
}

abbrev pub state_of : List ℕ → List (ℕ × ℕ) → List ℕ → Restack
state_of working positions moved = record {
  working = working;
  positions = positions;
  moved = moved;
}

index_after :
    (done rest : List ℕ) (id : ℕ)
    → elem id done ≡ false
    → index_from 0 id (done ++ rest) ≡ index_from (length done) id rest
index_after done rest id apart =
    index_from-append 0 id done rest
    ∙ rw apart
        (let n : 0 + length done ≡ length done = omega arith in ap (λ k. index_from k id rest) n)

at_front : (i id : ℕ) (b : List ℕ) → index_from i id (id ∷ b) ≡ some i
unfolding index_from
at_front i id b = rw (beq_refl id) refl

-- A row that is not known yet.
pub new_row :
    (done rest : List ℕ) (id : ℕ) (p : List (ℕ × ℕ)) (moved : List ℕ)
    → Knows p (done ++ rest)
    → elem id (done ++ rest) ≡ false
    → restack_step (length done) id (state_of (done ++ rest) p moved)
      ≡ state_of (done ++ id ∷ rest) (renumber (length done) (id ∷ rest) p) (mark id moved)
unfolding restack_step place
new_row done rest id p moved knows absent =
    let s = state_of (done ++ rest) p moved in
    let unknown : lookup id p ≡ none = knows id ∙ index_from_absent 0 id (done ++ rest) absent in
    ap (λ o. place o (length done) id s) unknown
    ∙ rw (insert_at-append id done rest, drop_one done (id ∷ rest)) refl

-- A row that stands where it should.
pub placed_row :
    (done b : List ℕ) (id : ℕ) (p : List (ℕ × ℕ)) (moved : List ℕ)
    → Knows p (done ++ id ∷ b)
    → elem id done ≡ false
    → restack_step (length done) id (state_of (done ++ id ∷ b) p moved)
      ≡ state_of (done ++ id ∷ b) p moved
unfolding restack_step place
placed_row done b id p moved knows apart =
    let s = state_of (done ++ id ∷ b) p moved in
    let known : lookup id p ≡ some (length done) =
      knows id ∙ index_after done (id ∷ b) id apart ∙ at_front (length done) id b in
    ap (λ o. place o (length done) id s) known ∙ rw (beq_refl (length done)) refl

row_at-append : (d x : ℕ) (xs ys : List ℕ) → row_at (length xs) d (xs ++ x ∷ ys) ≡ x
unfolding row_at
row_at-append d x [] ys = refl
row_at-append d x (y ∷ xs) ys = row_at-append d x xs ys

-- A row that stands further down, behind a row and some others.
pub moved_row :
    (done between b : List ℕ) (id : ℕ) (p : List (ℕ × ℕ)) (moved : List ℕ)
    → Knows p (done ++ (between ++ id ∷ b))
    → elem id done ≡ false
    → elem id between ≡ false
    → 0 < length between
    → restack_step (length done) id (state_of (done ++ (between ++ id ∷ b)) p moved)
      ≡ state_of
          (done ++ id ∷ (between ++ b))
          (renumber (length done) (id ∷ between) p)
          (mark id moved)
unfolding restack_step place
moved_row done between b id p moved knows apart apart' far =
    let rows = done ++ (between ++ id ∷ b) in
    let s = state_of rows p moved in
    let t = length done in
    let c = t + length between in
    let known : lookup id p ≡ some c =
      knows id
      ∙ index_after done (between ++ id ∷ b) id apart
      ∙ index_from-append t id between (id ∷ b)
      ∙ rw apart' (at_front c id b) in
    let behind : (c == t) ≡ false = ground (arith, far) in
    let start : min t c ≡ t = omega arith in
    let count : max t c - t + 1 ≡ length (id ∷ between) = omega arith in
    let gone : remove_at c rows ≡ done ++ (between ++ b) =
      ap (λ k. remove_at k rows) (sym (length-append done between))
      ∙ ap (λ r. remove_at (length (done ++ between)) r) (sym (append_assoc done between (id ∷ b)))
      ∙ remove_at-append id (done ++ between) b
      ∙ append_assoc done between b in
    let taken : row_at c id rows ≡ id =
      ap (λ k. row_at k id rows) (sym (length-append done between))
      ∙ ap (row_at (length (done ++ between)) id) (sym (append_assoc done between (id ∷ b)))
      ∙ row_at-append id id (done ++ between) b in
    let back : insert_at t (row_at c id rows) (remove_at c rows) ≡ done ++ id ∷ (between ++ b) =
      ap (λ k. insert_at t k (remove_at c rows)) taken
      ∙ ap (insert_at t id) gone
      ∙ insert_at-append id done (between ++ b) in
    ap (λ o. place o t id s) known
    ∙ rw
        (behind, back, start, count, drop_one done (id ∷ (between ++ b)), take_one (id ∷ between) b)
        refl

pub apart_in : (x : ℕ) (xs ys : List ℕ) → Distinct (xs ++ ys) → elem x ys ≡ true → elem x xs ≡ false
unfolding elem
apart_in x [] ys d h = refl
apart_in x (y ∷ xs) ys d h = elim (Bool-cases (y == x)) [
  | inl e ↦
      let there : elem x (xs ++ ys) ≡ true = ground (arith, elem-append x xs ys, h) in
      absurd (cc (subst (λ k. elem k (xs ++ ys) ≡ false) ((==_iff y x).0 e) d.0, there))
  | inr e ↦ ground (arith, e, apart_in x xs ys d.1 h)
]

pub tail-Distinct : (xs ys : List ℕ) → Distinct (xs ++ ys) → Distinct ys
tail-Distinct [] ys d = d
tail-Distinct (x ∷ xs) ys d = tail-Distinct xs ys d.1

pub head-Distinct : (xs ys : List ℕ) → Distinct (xs ++ ys) → Distinct xs
unfolding elem
head-Distinct [] ys d = tt
head-Distinct (x ∷ xs) ys d = (ground (arith, elem-append x xs ys, d.0), head-Distinct xs ys d.1)

-- The same rows, with one of them further up.
pub elem-moved :
    (x id : ℕ) (between b : List ℕ) → elem x (between ++ id ∷ b) ≡ elem x (id ∷ (between ++ b))
unfolding elem
elem-moved x id between b = ground (arith, elem-append x between (id ∷ b), elem-append x between b)

elem-moved_behind :
    (x id : ℕ) (done between b : List ℕ)
    → elem x (done ++ (between ++ id ∷ b)) ≡ elem x (done ++ id ∷ (between ++ b))
elem-moved_behind x id done between b =
    elem-append x done (between ++ id ∷ b)
    ∙ ap (λ r. elem x done || r) (elem-moved x id between b)
    ∙ sym (elem-append x done (id ∷ (between ++ b)))

moved_front-Distinct :
    (id : ℕ) (between b : List ℕ) → Distinct (between ++ id ∷ b) → Distinct (id ∷ (between ++ b))
unfolding elem
moved_front-Distinct id [] b d = d
moved_front-Distinct id (x ∷ between) b d =
    let (here, rest) = moved_front-Distinct id between b d.1 in
    let other = sym (elem-moved x id between b) ∙ d.0 in
    (ground (arith, here, other, ==_iff x id, ==_iff id x), (ground (arith, other), rest))

pub moved-Distinct :
    (id : ℕ) (done between b : List ℕ)
    → Distinct (done ++ (between ++ id ∷ b))
    → Distinct (done ++ id ∷ (between ++ b))
moved-Distinct id [] between b d = moved_front-Distinct id between b d
moved-Distinct id (x ∷ done) between b d =
    (sym (elem-moved_behind x id done between b) ∙ d.0, moved-Distinct id done between b d.1)

in_front :
    (t x : ℕ) (done rest : List ℕ)
    → elem x done ≡ true
    → index_from t x (done ++ rest) ≡ index_from t x done
in_front t x done rest h = index_from-append t x done rest ∙ rw h refl

inside :
    (done window b : List ℕ) (x : ℕ)
    → Distinct (done ++ (window ++ b))
    → elem x window ≡ true
    → index_from 0 x (done ++ (window ++ b)) ≡ index_from (length done) x window
inside done window b x d there =
    let in_rows : elem x (window ++ b) ≡ true = ground (arith, elem-append x window b, there) in
    index_after done (window ++ b) x (apart_in x done (window ++ b) d in_rows)
    ∙ in_front (length done) x window b there

behind_window :
    (t x : ℕ) (window b : List ℕ)
    → elem x window ≡ false
    → index_from t x (window ++ b) ≡ index_from (t + length window) x b
behind_window t x window b h = index_from-append t x window b ∙ rw h refl

-- Writing the positions of a window is enough, if the rows outside it keep theirs.
window-Knows :
    (done window b rest : List ℕ) (p : List (ℕ × ℕ))
    → Knows p (done ++ rest)
    → Distinct (done ++ (window ++ b))
    → ((x : ℕ)
        → elem x window ≡ false
        → index_from (length done) x rest ≡ index_from (length done) x (window ++ b))
    → Knows (renumber (length done) window p) (done ++ (window ++ b))
window-Knows done window b rest p knows d outside x =
    let t = length done in
    let dw = head-Distinct window b (tail-Distinct done (window ++ b) d) in
    let written = lookup-renumber t x window p dw in
    written ∙ elim (Bool-cases (elem x window)) [
      | inl there ↦ rw there (sym (inside done window b x d there))
      | inr out ↦ rw out (
          knows x ∙ elim (Bool-cases (elem x done)) [
            | inl h ↦ in_front 0 x done rest h ∙ sym (in_front 0 x done (window ++ b) h)
            | inr h ↦
                index_after done rest x h ∙ outside x out ∙ sym (index_after done (window ++ b) x h)
          ])
    ]

pub new-Knows :
    (done rest : List ℕ) (id : ℕ) (p : List (ℕ × ℕ))
    → Knows p (done ++ rest)
    → Distinct (done ++ id ∷ rest)
    → Knows (renumber (length done) (id ∷ rest) p) (done ++ id ∷ rest)
unfolding elem
new-Knows done rest id p knows d =
    let nil : (id ∷ rest) ++ [] ≡ id ∷ rest = append-nil (id ∷ rest) in
    subst (λ r. Knows (renumber (length done) (id ∷ rest) p) (done ++ r)) nil
      (window-Knows done (id ∷ rest) [] rest p knows (subst (λ r. Distinct (done ++ r)) (sym nil) d)
        (λ x out.
          let gone : elem x rest ≡ false = ground (arith, out) in
          index_from_absent (length done) x rest gone
          ∙ sym (
              ap (index_from (length done) x) nil
              ∙ index_from_absent (length done) x (id ∷ rest) out)))

pub moved-Knows :
    (done between b : List ℕ) (id : ℕ) (p : List (ℕ × ℕ))
    → Knows p (done ++ (between ++ id ∷ b))
    → Distinct (done ++ id ∷ (between ++ b))
    → Knows (renumber (length done) (id ∷ between) p) (done ++ id ∷ (between ++ b))
unfolding elem index_from
moved-Knows done between b id p knows d =
    window-Knows done (id ∷ between) b (between ++ id ∷ b) p knows d (λ x out.
      let t = length done in
      let not_between : elem x between ≡ false = ground (arith, out) in
      let other : (id == x) ≡ false = ground (arith, out) in
      let n : t + length between + 1 ≡ t + 1 + length between = omega arith in
      behind_window t x between (id ∷ b) not_between
      ∙ rw other
          (ap (λ k. index_from k x b) n ∙ sym (behind_window (t + 1) x between b not_between)))
