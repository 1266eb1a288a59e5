-- ===== src/History/Valid.antt =====
-- Well-formed archives: the map and the deque of a `HistoryStore` name the same ids, each once.
-- Every operation of store_history.rs keeps them so.
use unix_notis.Prelude.{
  nat_eq, ℕ, ◌≡◌, refl, sym, ap, ◌∙◌, inl, inr, not, ◌&&◌, ◌==◌, ==_iff, List, [], ◌∷◌, ◌++◌, arith,
  length, Bool-cases, Option-cases, if◌then◌else◌,
}
use unix_notis.Prelude.Maps.{
  elem-without_self, elem, insert, remove, without, keys, lookup, contains_key, elem-without,
  elem-append, length-keys, Distinct, contains_key-elem, without_absent, without-Distinct,
  snoc-Distinct, elem-keys-insert, elem-keys-remove, insert-Distinct, remove-Distinct,
  length-le_of_subset,
}
use unix_notis.Model.{Notification}
use unix_notis.History.{HistoryStore, new, remove_entry, insert_entry}

-- The order and the map name the same ids, each once.
pub record Agree {H : Type 0} (order : List ℕ) (entries : List (ℕ × Notification H)) : Type 0 where
  pub order_distinct : Distinct order
  pub keys_distinct : Distinct (keys entries)
  pub same_ids : (k : ℕ) → elem k order ≡ elem k (keys entries)

module _ {H : Type 0} where
  abbrev pub IsValid : HistoryStore H → Type 0
  IsValid h = Agree h.order h.entries

  pub new-IsValid : IsValid (new {H = H})
  unfolding new keys elem
  new-IsValid = record { order_distinct = tt; keys_distinct = tt; same_ids = λ k. refl }

  pub Agree-remove :
      (id : ℕ) (order : List ℕ) (entries : List (ℕ × Notification H))
      → Agree order entries
      → Agree (without id order) (remove id entries)
  Agree-remove id order entries a = record {
    order_distinct = without-Distinct id order a.order_distinct;
    keys_distinct = remove-Distinct id entries a.keys_distinct;
    same_ids = λ k.
        rw (elem-without id k order, elem-keys-remove id k entries)
          (ap (λ b. not (id == k) && b) (a.same_ids k));
  }

  -- The new order of `insert_entry`, whether or not the id was there.
  pub insert_order :
      (n : Notification H) (order : List ℕ) (entries : List (ℕ × Notification H))
      → Agree order entries
      → (if contains_key n.id entries then without n.id order else order) ++ n.id ∷ []
        ≡ without n.id order ++ n.id ∷ []
  insert_order n order entries a = elim (Bool-cases (contains_key n.id entries)) [
    | inl there ↦ rw there
    | inr new ↦ rw new (
        ap (λ o. o ++ n.id ∷ [])
          (sym (
            without_absent n.id order
              (a.same_ids n.id ∙ sym (contains_key-elem n.id entries) ∙ new))))
  ]

  pub Agree-insert :
      (n : Notification H) (order : List ℕ) (entries : List (ℕ × Notification H))
      → Agree order entries
      → Agree (without n.id order ++ n.id ∷ []) (insert n.id n entries)
  unfolding elem
  Agree-insert n order entries a = record {
    order_distinct =
        snoc-Distinct (without n.id order) n.id (without-Distinct n.id order a.order_distinct)
          (elem-without_self n.id order);
    keys_distinct = insert-Distinct n.id n entries a.keys_distinct;
    same_ids = λ k. ground (
      arith,
      elem-append k (without n.id order) (n.id ∷ []),
      elem-without n.id k order,
      elem-keys-insert n.id k n entries,
      a.same_ids k,
    );
  }

  pub insert_entry-IsValid :
      (h : HistoryStore H) (n : Notification H) → IsValid h → IsValid (insert_entry h n)
  unfolding insert_entry
  insert_entry-IsValid h n v =
      rw (insert_order n h.order h.entries v) (Agree-insert n h.order h.entries v)

  pub remove_entry-IsValid :
      (h : HistoryStore H) (id : ℕ) → IsValid h → IsValid (remove_entry h id).0
  unfolding remove_entry
  remove_entry-IsValid h id v = elim (Option-cases (lookup id h.entries)) [
    | inl e ↦ rw (e, remove_entry) v
    | inr (n, e) ↦ rw (e, remove_entry) (Agree-remove id h.order h.entries v)
  ]

  -- Taking the oldest id from the order takes one entry from the map.
  pub Agree-tail :
      (id : ℕ) (order : List ℕ) (entries : List (ℕ × Notification H))
      → Agree (id ∷ order) entries
      → Agree order (remove id entries)
  unfolding elem
  Agree-tail id order entries a = record {
    order_distinct = a.order_distinct.1;
    keys_distinct = remove-Distinct id entries a.keys_distinct;
    same_ids = λ k.
        ground
          (arith, elem-keys-remove id k entries, a.same_ids k, a.order_distinct.0, ==_iff id k);
  }

  pub Agree-length :
      (order : List ℕ) (entries : List (ℕ × Notification H))
      → Agree order entries
      → length order ≡ length entries
  Agree-length order entries a = omega (
    arith,
    length-keys entries,
    length-le_of_subset order (keys entries) a.order_distinct (λ k g. sym (a.same_ids k) ∙ g),
    length-le_of_subset (keys entries) order a.keys_distinct (λ k g. a.same_ids k ∙ g),
  )
