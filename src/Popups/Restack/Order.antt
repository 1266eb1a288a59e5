-- ===== src/Popups/Restack/Order.antt =====
-- The order of the widget stack after the restack of apply_visible_popups.
use mathlib.Core.List.{append-nil, append_assoc}
use unix_notis.Prelude.{
  Bool, ==_iff, Bool-cases, List, Option, [], ap, arith, false, inl, inr, keep_if, none, refl, some,
  subst, sym, true, ℕ, ◌++◌, ◌==◌, ◌∙◌, ◌∷◌, ◌≡◌, ◌⊎◌, nat_eq, length, length-append, suc,
}
use unix_notis.Prelude.Maps.{Distinct, beq_refl, elem, elem-append, lookup, without, without_absent}
use unix_notis.Popups.Restack.{
  visible_popup_restack_ids, Restack, mark, place, renumber, restack_step, restack_loop, show_rows,
  shown_stack,
}
use unix_notis.Popups.Restack.Index.{Knows, index_from_absent, lookup-renumber}
use unix_notis.Popups.Restack.Moved.{
  state_of, new_row, placed_row, moved_row, apart_in, tail-Distinct, moved-Distinct, moved-Knows,
  new-Knows,
}
use unix_notis.Popups.Restack.Rows.{
  shown_row, skipped_row, same_row, done_row, keep_if-absent, Ends, without-append,
}

-- A row that was moved once stays among the moved rows.
place_keeps :
    (o : Option ℕ) (target id x : ℕ) (s : Restack)
    → elem x s.moved ≡ true
    → elem x (place o target id s).moved ≡ true
unfolding place elem
place_keeps none target id x s h = ground (arith, h)
place_keeps (some c) target id x s h = ground (arith, h)

loop_keeps :
    (ids : List ℕ) (target x : ℕ) (s : Restack)
    → elem x s.moved ≡ true
    → elem x (restack_loop target ids s).moved ≡ true
unfolding restack_loop restack_step
loop_keeps [] target x s h = h
loop_keeps (id ∷ ids) target x s h =
    loop_keeps ids (suc target) x (restack_step target id s)
      (place_keeps (lookup id s.positions) target id x s h)

mark_self : (id : ℕ) (moved : List ℕ) → elem id (mark id moved) ≡ true
unfolding elem
mark_self id moved = ground (arith, beq_refl id)

split_at :
    (id : ℕ) (xs : List ℕ)
    → elem id xs ≡ true
    → (a : List ℕ) × (b : List ℕ) × (xs ≡ a ++ id ∷ b) × (elem id a ≡ false)
unfolding elem
split_at id [] h = absurd (cc h)
split_at id (x ∷ xs) h = elim (Bool-cases (x == id)) [
  | inl e ↦ ([], xs, ap (λ k. k ∷ xs) ((==_iff x id).0 e), refl)
  | inr e ↦
      let (a, b, here, apart) = split_at id xs (ground (arith, h, e)) in
      (x ∷ a, b, ap (λ l. x ∷ l) here, ground (arith, e, apart))
]

new_row-Distinct :
    (id : ℕ) (done rest : List ℕ)
    → Distinct (done ++ rest)
    → elem id (done ++ rest) ≡ false
    → Distinct (done ++ id ∷ rest)
unfolding elem
new_row-Distinct id [] rest d h = (h, d)
new_row-Distinct id (x ∷ done) rest d h =
    let apart : elem id (done ++ rest) ≡ false = ground (arith, h) in
    (
      ground (
        arith,
        d.0,
        h,
        elem-append x done rest,
        elem-append x done (id ∷ rest),
        ==_iff x id,
        ==_iff id x,
      ),
      new_row-Distinct id done rest d.1 apart,
    )

-- What one round leaves: the row behind those that are done, the positions known, and the row
-- marked unless it stood there already.
abbrev After : List ℕ → List ℕ → List ℕ → ℕ → List (ℕ × ℕ) → List ℕ → Type 0
After done rest left id p moved =
    (p' : List (ℕ × ℕ)) × (moved' : List ℕ) × (restack_step (length done) id
        (state_of (done ++ rest) p moved)
      ≡ state_of (done ++ id ∷ left) p' moved')
    × Knows p' (done ++ id ∷ left)
    × Distinct (done ++ id ∷ left)
    × ((elem id moved' ≡ true) ⊎ ((b : List ℕ) × (rest ≡ id ∷ b) × (elem id b ≡ false)))

new-After :
    (done rest : List ℕ) (id : ℕ) (p : List (ℕ × ℕ)) (moved : List ℕ)
    → Knows p (done ++ rest)
    → Distinct (done ++ rest)
    → elem id done ≡ false
    → elem id rest ≡ false
    → After done rest rest id p moved
new-After done rest id p moved knows d apart out =
    let absent : elem id (done ++ rest) ≡ false =
      ground (arith, elem-append id done rest, apart, out) in
    let d' = new_row-Distinct id done rest d absent in
    (
      renumber (length done) (id ∷ rest) p,
      mark id moved,
      new_row done rest id p moved knows absent,
      new-Knows done rest id p knows d',
      d',
      inl (mark_self id moved),
    )

moved-After :
    (done a b : List ℕ) (id : ℕ) (p : List (ℕ × ℕ)) (moved : List ℕ)
    → Knows p (done ++ (a ++ id ∷ b))
    → Distinct (done ++ (a ++ id ∷ b))
    → elem id done ≡ false
    → elem id a ≡ false
    → elem id b ≡ false
    → After done (a ++ id ∷ b) (a ++ b) id p moved
moved-After done [] b id p moved knows d apart apart' out =
    (p, moved, placed_row done b id p moved knows apart, knows, d, inr (b, refl, out))
moved-After done (x ∷ a) b id p moved knows d apart apart' out =
    let d' = moved-Distinct id done (x ∷ a) b d in
    (
      renumber (length done) (id ∷ x ∷ a) p,
      mark id moved,
      moved_row done (x ∷ a) b id p moved knows apart apart' (omega arith),
      moved-Knows done (x ∷ a) b id p knows d',
      d',
      inl (mark_self id moved),
    )

without_row :
    (id : ℕ) (a b : List ℕ)
    → elem id a ≡ false
    → elem id b ≡ false
    → without id (a ++ id ∷ b) ≡ a ++ b
unfolding without
without_row id a b apart out =
    without-append id a (id ∷ b)
    ∙ ap (λ l. l ++ without id (id ∷ b)) (without_absent id a apart)
    ∙ ap (λ l. a ++ l) (rw (beq_refl id) (without_absent id b out))

round-After :
    (done rest : List ℕ) (id : ℕ) (p : List (ℕ × ℕ)) (moved : List ℕ)
    → Knows p (done ++ rest)
    → Distinct (done ++ rest)
    → elem id done ≡ false
    → After done rest (without id rest) id p moved
round-After done rest id p moved knows d apart = elim (Bool-cases (elem id rest)) [
  | inr out ↦
      subst (λ l. After done rest l id p moved) (sym (without_absent id rest out))
        (new-After done rest id p moved knows d apart out)
  | inl there ↦
      let (a, b, here, apart') = split_at id rest there in
      let d' : Distinct (done ++ (a ++ id ∷ b)) = subst (λ l. Distinct (done ++ l)) here d in
      let out : elem id b ≡ false =
        (tail-Distinct a (id ∷ b) (tail-Distinct done (a ++ id ∷ b) d')).0 in
      subst (λ l. After done l (without id l) id p moved) (sym here)
        (subst (λ l. After done (a ++ id ∷ b) l id p moved) (sym (without_row id a b apart' out))
          (moved-After done a b id p moved (subst (λ l. Knows p (done ++ l)) here knows) d' apart
            apart' out))
]

keep_if-none : (xs : List ℕ) → keep_if (λ x. elem x []) xs ≡ []
unfolding elem
keep_if-none [] = refl
keep_if-none (x ∷ xs) = keep_if-none xs

show_rows-restack :
    (has_row : ℕ → Bool) (final ids done rest : List ℕ) (p : List (ℕ × ℕ)) (moved : List ℕ)
    (previous : Option ℕ)
    → Knows p (done ++ rest)
    → Distinct (done ++ rest)
    → Distinct (done ++ ids)
    → Ends previous (keep_if has_row done)
    → final ≡ (restack_loop (length done) ids (state_of (done ++ rest) p moved)).moved
    → show_rows has_row final ids previous
        (keep_if has_row done ++ keep_if (λ x. elem x ids) (keep_if has_row rest))
      ≡ keep_if has_row (done ++ ids)
unfolding show_rows restack_loop elem
show_rows-restack has_row final [] done rest p moved previous knows d fresh ends e =
    ap (λ l. keep_if has_row done ++ l) (keep_if-none (keep_if has_row rest))
    ∙ append-nil (keep_if has_row done)
    ∙ ap (keep_if has_row) (sym (append-nil done))
show_rows-restack has_row final (id ∷ ids) done rest p moved previous knows d fresh ends e =
    let here : elem id (id ∷ ids) ≡ true = rw (beq_refl id) refl in
    let apart = apart_in id done (id ∷ ids) fresh here in
    let (p', moved', step, knows', d', known) = round-After done rest id p moved knows d apart in
    let left = without id rest in
    let done' = done ++ id ∷ [] in
    let joined : (l : List ℕ) → done ++ id ∷ l ≡ done' ++ l =
      λ l. sym (append_assoc done (id ∷ []) l) in
    let count : suc (length done) ≡ length done' = omega (arith, length-append done (id ∷ [])) in
    let s' = state_of (done' ++ left) p' moved' in
    let e' : final ≡ (restack_loop (length done') ids s').moved =
      e
      ∙ ap (λ s. (restack_loop (suc (length done)) ids s).moved)
          (step ∙ ap (λ l. state_of l p' moved') (joined left))
      ∙ ap (λ k. (restack_loop k ids s').moved) count in
    let marked : (elem id moved' ≡ true) → elem id final ≡ true =
      λ h. ap (elem id) e' ∙ loop_keeps ids (length done') id s' h in
    let known' : (elem id final ≡ true) ⊎ ((b : List ℕ) × (rest ≡ id ∷ b) × (elem id b ≡ false)) =
      elim known [ inl h ↦ inl (marked h) | inr h ↦ inr h ] in
    let later = λ (last : Option ℕ) (ends' : Ends last (keep_if has_row done')).
      show_rows-restack has_row final ids done' left p' moved' last
        (subst (Knows p') (joined left) knows') (subst Distinct (joined left) d')
        (subst Distinct (joined ids) fresh) ends' e'
      ∙ ap (keep_if has_row) (sym (joined ids)) in
    elim (Bool-cases (has_row id)) [
      | inl shown ↦ rw shown (
          ap (show_rows has_row final ids (some id))
            (shown_row has_row final id ids previous done rest shown ends apart known')
          ∙ later (some id) (
            keep_if has_row done,
            done_row has_row id done shown,
            keep_if-absent id done has_row apart,
          ))
      | inr skip ↦ rw skip (
          ap (show_rows has_row final ids previous) (skipped_row has_row id ids done rest skip)
          ∙ later previous (subst (Ends previous) (sym (same_row has_row id done skip)) ends))
    ]

-- After the rows to show have been put on the stack, the stack holds exactly those of them that have
-- a widget, in the order wanted, whatever rows were visible before and in whatever order, when no row
-- is listed twice in either list: moving only the rows that `visible_popup_restack_ids` names is
-- enough.
pub shown_stack-desired :
    (has_row : ℕ → Bool) (previous desired : List ℕ)
    → Distinct previous
    → Distinct desired
    → shown_stack has_row previous desired ≡ keep_if has_row desired
unfolding shown_stack visible_popup_restack_ids lookup
shown_stack-desired has_row previous desired d fresh =
    show_rows-restack has_row (visible_popup_restack_ids previous desired) desired [] previous
      (renumber 0 previous []) [] none
      (λ id. lookup-renumber 0 id previous [] d ∙ elim (Bool-cases (elem id previous)) [
        | inl h ↦ rw h refl
        | inr h ↦ rw h (sym (index_from_absent 0 id previous h))
      ])
      d fresh refl refl
