-- ===== src/Popups/Restack/Rows.antt =====
-- One round of the loop over the rows to show: a row lands right behind the rows shown before it.
use mathlib.Core.List.{append-nil, append_assoc}
use unix_notis.Prelude.{
  ==_iff, Bool-cases, List, Option, [], ap, arith, false, inl, inr, keep_if, none, refl, some,
  subst, sym, true, ℕ, ◌++◌, ◌==◌, ◌∙◌, ◌∷◌, ◌≡◌, ◌⊎◌, nat_eq, Bool,
}
use unix_notis.Prelude.Maps.{beq_refl, elem, without, without_absent}
use unix_notis.Popups.Restack.{insert_after, reorder_child_after, show_row}

-- The row that the loop calls the previous one is the last of those already shown.
abbrev pub Ends : Option ℕ → List ℕ → Type 0
Ends none done = done ≡ []
Ends (some q) done = (d : List ℕ) × (done ≡ d ++ q ∷ []) × (elem q d ≡ false)

pub without-append :
    (id : ℕ) (xs ys : List ℕ) → without id (xs ++ ys) ≡ without id xs ++ without id ys
unfolding without
without-append id [] ys = refl
without-append id (x ∷ xs) ys = ground (arith, without-append id xs ys)

pub keep_if-absent :
    (id : ℕ) (xs : List ℕ) (p : ℕ → Bool) → elem id xs ≡ false → elem id (keep_if p xs) ≡ false
unfolding elem
keep_if-absent id [] p h = refl
keep_if-absent id (x ∷ xs) p h = ground (arith, h, keep_if-absent id xs p)

without-keep_if :
    (id : ℕ) (ids rest : List ℕ)
    → without id (keep_if (λ x. elem x (id ∷ ids)) rest)
      ≡ keep_if (λ x. elem x ids) (without id rest)
unfolding elem without
without-keep_if id ids [] = refl
without-keep_if id ids (x ∷ rest) =
    let rest_of = without-keep_if id ids rest in
    elim (Bool-cases (x == id)) [
      | inl e ↦
          let e' : (id == x) ≡ true = ground (arith, e, ==_iff x id, ==_iff id x) in
          rw (e', e) rest_of
      | inr e ↦
          let e' : (id == x) ≡ false = ground (arith, e, ==_iff x id, ==_iff id x) in
          elim (Bool-cases (elem x ids)) [
            | inl h ↦ rw (e', h, e, h) (ap (λ r. x ∷ r) rest_of)
            | inr h ↦ rw (e', h, e, h) rest_of
          ]
    ]

without_self : (id : ℕ) → without id (id ∷ []) ≡ []
unfolding without
without_self id = rw (beq_refl id) refl

in_place :
    (id : ℕ) (ids rest : List ℕ)
    → (b : List ℕ) × (rest ≡ id ∷ b) × (elem id b ≡ false)
    → keep_if (λ x. elem x (id ∷ ids)) rest ≡ id ∷ keep_if (λ x. elem x ids) (without id rest)
unfolding elem without
in_place id ids rest (b, here, apart) =
    let same : keep_if (λ x. elem x (id ∷ ids)) b ≡ keep_if (λ x. elem x ids) (without id b) =
      sym (
        without_absent id (keep_if (λ x. elem x (id ∷ ids)) b)
          (keep_if-absent id b (λ x. elem x (id ∷ ids)) apart))
      ∙ without-keep_if id ids b in
    subst (λ l. keep_if (λ x. elem x (id ∷ ids)) l ≡ id ∷ keep_if (λ x. elem x ids) (without id l))
      (sym here) (rw (beq_refl id) (ap (λ r. id ∷ r) same))

insert_after_last :
    (id q : ℕ) (d k : List ℕ) → elem q d ≡ false → insert_after id q (d ++ q ∷ k) ≡ d ++ q ∷ id ∷ k
unfolding insert_after elem
insert_after_last id q [] k h = rw (beq_refl q) refl
insert_after_last id q (x ∷ d) k h = ground (arith, h, insert_after_last id q d k)

reorder_behind :
    (id : ℕ) (previous : Option ℕ) (done k stack : List ℕ)
    → Ends previous done
    → without id stack ≡ done ++ k
    → reorder_child_after id previous stack ≡ done ++ id ∷ k
unfolding reorder_child_after
reorder_behind id none done k stack ends h =
    subst (λ l. without id stack ≡ l ++ k → (id ∷ without id stack) ≡ l ++ id ∷ k) (sym ends)
      (λ g. ap (λ r. id ∷ r) g) h
reorder_behind id (some q) done k stack (d, here, apart) h =
    ap (insert_after id q) (h ∙ ap (λ l. l ++ k) here ∙ append_assoc d (q ∷ []) k)
    ∙ insert_after_last id q d k apart
    ∙ sym (ap (λ l. l ++ id ∷ k) here ∙ append_assoc d (q ∷ []) (id ∷ k))

show_row_behind :
    (final : List ℕ) (id : ℕ) (ids : List ℕ) (previous : Option ℕ) (done rest : List ℕ)
    → Ends previous done
    → elem id done ≡ false
    → (elem id final ≡ true) ⊎ ((b : List ℕ) × (rest ≡ id ∷ b) × (elem id b ≡ false))
    → show_row final id previous (done ++ keep_if (λ x. elem x (id ∷ ids)) rest)
      ≡ done ++ id ∷ keep_if (λ x. elem x ids) (without id rest)
unfolding show_row
show_row_behind final id ids previous done rest ends apart known =
    let shown = keep_if (λ x. elem x (id ∷ ids)) rest in
    let stack = done ++ shown in
    let k = keep_if (λ x. elem x ids) (without id rest) in
    let gone : without id stack ≡ done ++ k =
      without-append id done shown
      ∙ ap (λ l. l ++ without id shown) (without_absent id done apart)
      ∙ ap (λ l. done ++ l) (without-keep_if id ids rest) in
    let gone' : without id (stack ++ id ∷ []) ≡ done ++ k =
      without-append id stack (id ∷ [])
      ∙ ap (λ l. without id stack ++ l) (without_self id)
      ∙ append-nil (without id stack)
      ∙ gone in
    elim (Bool-cases (elem id stack)) [
      | inr out ↦ rw out (reorder_behind id previous done k (stack ++ id ∷ []) ends gone')
      | inl there ↦ rw there (elim known [
        | inl moves ↦ rw moves (reorder_behind id previous done k stack ends gone)
        | inr stays ↦ elim (Bool-cases (elem id final)) [
          | inl moves ↦ rw moves (reorder_behind id previous done k stack ends gone)
          | inr calm ↦ rw calm (ap (λ l. done ++ l) (in_place id ids rest stays))
        ]
      ])
    ]

keep_if-append :
    (p : ℕ → Bool) (xs ys : List ℕ) → keep_if p (xs ++ ys) ≡ keep_if p xs ++ keep_if p ys
keep_if-append p [] ys = refl
keep_if-append p (x ∷ xs) ys = ground (arith, keep_if-append p xs ys)

without-keep_row :
    (p : ℕ → Bool) (id : ℕ) (xs : List ℕ) → without id (keep_if p xs) ≡ keep_if p (without id xs)
unfolding without
without-keep_row p id [] = refl
without-keep_row p id (x ∷ xs) =
    let rest = without-keep_row p id xs in
    elim (Bool-cases (p x)) [
      | inl k ↦ elim (Bool-cases (x == id)) [
        | inl e ↦ rw (k, e) rest
        | inr e ↦ rw (k, e, k) (ap (λ l. x ∷ l) rest)
      ]
      | inr k ↦ elim (Bool-cases (x == id)) [ inl e ↦ rw (k, e) rest | inr e ↦ rw (k, e, k) rest ]
    ]

hidden_row : (p : ℕ → Bool) (id : ℕ) (xs : List ℕ) → p id ≡ false → elem id (keep_if p xs) ≡ false
unfolding elem
hidden_row p id [] h = refl
hidden_row p id (x ∷ xs) h =
    let rest = hidden_row p id xs h in
    elim (Bool-cases (p x)) [
      | inl k ↦
          let differ : (x == id) ≡ false = elim (Bool-cases (x == id)) [
            | inl e ↦ cc (ap p ((==_iff x id).0 e), k, h)
            | inr e ↦ e
          ] in
          rw k (ground (arith, differ, rest))
      | inr k ↦ rw k rest
    ]

pub same_row :
    (has_row : ℕ → Bool) (id : ℕ) (done : List ℕ)
    → has_row id ≡ false
    → keep_if has_row (done ++ id ∷ []) ≡ keep_if has_row done
same_row has_row id done skip =
    keep_if-append has_row done (id ∷ []) ∙ rw skip (append-nil (keep_if has_row done))

-- What is left of the stack once a row is done, for a row that is skipped and for one that is shown.
pub skipped_row :
    (has_row : ℕ → Bool) (id : ℕ) (ids done rest : List ℕ)
    → has_row id ≡ false
    → keep_if has_row done ++ keep_if (λ x. elem x (id ∷ ids)) (keep_if has_row rest)
      ≡ keep_if has_row (done ++ id ∷ [])
        ++ keep_if (λ x. elem x ids) (keep_if has_row (without id rest))
skipped_row has_row id ids done rest skip =
    let wanted = keep_if (λ x. elem x (id ∷ ids)) (keep_if has_row rest) in
    let absent : elem id wanted ≡ false =
      keep_if-absent id (keep_if has_row rest) (λ x. elem x (id ∷ ids))
        (hidden_row has_row id rest skip) in
    let left : wanted ≡ keep_if (λ x. elem x ids) (keep_if has_row (without id rest)) =
      sym (without_absent id wanted absent)
      ∙ without-keep_if id ids (keep_if has_row rest)
      ∙ ap (keep_if (λ x. elem x ids)) (without-keep_row has_row id rest) in
    ap (λ l. keep_if has_row done ++ l) left
    ∙ ap (λ l. l ++ keep_if (λ x. elem x ids) (keep_if has_row (without id rest)))
        (sym (same_row has_row id done skip))

pub done_row :
    (has_row : ℕ → Bool) (id : ℕ) (done : List ℕ)
    → has_row id ≡ true
    → keep_if has_row (done ++ id ∷ []) ≡ keep_if has_row done ++ id ∷ []
done_row has_row id done shown = keep_if-append has_row done (id ∷ []) ∙ rw shown refl

pub shown_row :
    (has_row : ℕ → Bool) (final : List ℕ) (id : ℕ) (ids : List ℕ) (previous : Option ℕ)
    (done rest : List ℕ)
    → has_row id ≡ true
    → Ends previous (keep_if has_row done)
    → elem id done ≡ false
    → (elem id final ≡ true) ⊎ ((b : List ℕ) × (rest ≡ id ∷ b) × (elem id b ≡ false))
    → show_row final id previous
        (keep_if has_row done ++ keep_if (λ x. elem x (id ∷ ids)) (keep_if has_row rest))
      ≡ keep_if has_row (done ++ id ∷ [])
        ++ keep_if (λ x. elem x ids) (keep_if has_row (without id rest))
shown_row has_row final id ids previous done rest shown ends apart known =
    let kept = keep_if has_row done in
    let after = keep_if (λ x. elem x ids) (keep_if has_row (without id rest)) in
    let known' : (elem id final ≡ true)
        ⊎ ((b : List ℕ) × (keep_if has_row rest ≡ id ∷ b) × (elem id b ≡ false)) =
      elim known [
        | inl h ↦ inl h
        | inr (b, here, out) ↦ inr (
          keep_if has_row b,
          ap (keep_if has_row) here ∙ rw shown refl,
          keep_if-absent id b has_row out,
        )
      ] in
    show_row_behind final id ids previous kept (keep_if has_row rest) ends
      (keep_if-absent id done has_row apart) known'
    ∙ ap (λ l. kept ++ id ∷ keep_if (λ x. elem x ids) l) (without-keep_row has_row id rest)
    ∙ sym (append_assoc kept (id ∷ []) after)
    ∙ ap (λ l. l ++ after) (sym (done_row has_row id done shown))
