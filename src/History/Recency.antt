-- ===== src/History/Recency.antt =====
-- The archive as a list of notifications, oldest first: the map and the deque of a well-formed
-- `HistoryStore` implement operations on that list.
use unix_notis.Prelude.{
  nat_eq, ℕ, ◌≡◌, refl, sym, ap, ◌∙◌, inl, inr, false, ==_iff, none, some, List, [], ◌∷◌, ◌++◌,
  arith, Bool-cases, Option-cases,
}
use unix_notis.Prelude.Maps.{
  elem-without_self, elem, insert, remove, without, lookup, lookup-insert, lookup-remove,
  lookup_present, without_absent,
}
use unix_notis.Model.{Notification}
use unix_notis.History.{HistoryStore, remove_entry, insert_entry}
use unix_notis.History.Valid.{insert_order, IsValid}

module _ {H : Type 0} where
  -- The archive, oldest entry first.
  unfoldable pub recent_of : List ℕ → List (ℕ × Notification H) → List (ℕ × Notification H)
  recent_of [] entries = []
  recent_of (id ∷ ids) entries =
      let rest = recent_of ids entries in
      elim (lookup id entries) [ none ↦ rest | some n ↦ (id, n) ∷ rest ]

  abbrev pub recent : HistoryStore H → List (ℕ × Notification H)
  recent h = recent_of h.order h.entries

  pub recent_of-append :
      (xs ys : List ℕ) (m : List (ℕ × Notification H))
      → recent_of (xs ++ ys) m ≡ recent_of xs m ++ recent_of ys m
  unfolding recent_of
  recent_of-append [] ys m = refl
  recent_of-append (x ∷ xs) ys m = ground (arith, recent_of-append xs ys m)

  recent_of-without :
      (id : ℕ) (ids : List ℕ) (m : List (ℕ × Notification H))
      → recent_of (without id ids) m ≡ remove id (recent_of ids m)
  unfolding recent_of without remove
  recent_of-without id [] m = refl
  recent_of-without id (x ∷ ids) m = ground (arith, recent_of-without id ids m)

  pub recent_of-remove :
      (id : ℕ) (ids : List ℕ) (m : List (ℕ × Notification H))
      → elem id ids ≡ false
      → recent_of ids (remove id m) ≡ recent_of ids m
  unfolding recent_of elem
  recent_of-remove id [] m h = refl
  recent_of-remove id (x ∷ ids) m h =
      ground (arith, recent_of-remove id ids m, lookup-remove id x m, ==_iff id x)

  recent_of-insert :
      (id : ℕ) (n : Notification H) (ids : List ℕ) (m : List (ℕ × Notification H))
      → elem id ids ≡ false
      → recent_of ids (insert id n m) ≡ recent_of ids m
  unfolding recent_of elem
  recent_of-insert id n [] m h = refl
  recent_of-insert id n (x ∷ ids) m h =
      ground (arith, recent_of-insert id n ids m, lookup-insert id x n m, ==_iff id x)

  recent_of_last :
      (n : Notification H) (m : List (ℕ × Notification H))
      → recent_of (n.id ∷ []) (insert n.id n m) ≡ (n.id, n) ∷ []
  unfolding recent_of
  recent_of_last n m = ground (arith, lookup-insert n.id n.id n m)

  -- On a well-formed archive `insert` drops the entry of the same id and adds the new one as newest.
  pub recent-insert_entry :
      (h : HistoryStore H) (n : Notification H)
      → IsValid h
      → recent (insert_entry h n) ≡ remove n.id (recent h) ++ (n.id, n) ∷ []
  unfolding insert_entry
  recent-insert_entry h n v = rw (
    insert_order n h.order h.entries v,
    recent_of-append (without n.id h.order) (n.id ∷ []) (insert n.id n h.entries),
    recent_of_last n h.entries,
    recent_of-insert n.id n (without n.id h.order) h.entries (elem-without_self n.id h.order),
    recent_of-without n.id h.order h.entries,
  )

  -- An id that the map lacks is not in the order.
  not_in_order :
      (h : HistoryStore H) (id : ℕ)
      → IsValid h
      → lookup id h.entries ≡ none
      → elem id h.order ≡ false
  not_in_order h id v e = elim (Bool-cases (elem id h.order)) [
    | inl there ↦
        let (n, found) = lookup_present id h.entries (sym (v.same_ids id) ∙ there) in cc (e, found)
    | inr absent ↦ absent
  ]

  -- On a well-formed archive `remove` drops exactly the entry of that id.
  pub recent-remove_entry :
      (h : HistoryStore H) (id : ℕ)
      → IsValid h
      → recent (remove_entry h id).0 ≡ remove id (recent h)
  unfolding remove_entry
  recent-remove_entry h id v = elim (Option-cases (lookup id h.entries)) [
    | inl e ↦
        rw (e, remove_entry)
          (ap (λ o. recent_of o h.entries) (sym (without_absent id h.order (not_in_order h id v e)))
            ∙ recent_of-without id h.order h.entries)
    | inr (n, e) ↦
        rw (e, remove_entry)
          (recent_of-remove id (without id h.order) h.entries (elem-without_self id h.order)
            ∙ recent_of-without id h.order h.entries)
  ]

  pub recent_absent :
      (h : HistoryStore H) (id : ℕ)
      → IsValid h
      → lookup id h.entries ≡ none
      → remove id (recent h) ≡ recent h
  recent_absent h id v e =
      sym (recent_of-without id h.order h.entries)
      ∙ ap (λ o. recent_of o h.entries) (without_absent id h.order (not_in_order h id v e))
