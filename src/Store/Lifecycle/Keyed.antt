-- ===== src/Store/Lifecycle/Keyed.antt =====
-- Map operations on notifications that stand under their own ids, and removal from the archive.
use unix_notis.Prelude.{
  nat_eq, ℕ, ◌≤◌, ◌≡◌, refl, sym, ap, inl, inr, false, none, some, List, [], ◌∷◌, arith, length,
  ==_iff, Bool-cases, Option-cases,
}
use unix_notis.Prelude.Maps.{
  elem, keys, remove, insert, lookup, length-without-le, length-keys, keys-remove, remove_absent,
  lookup_present,
}
use unix_notis.Model.{Notification}
use unix_notis.History.{HistoryStore, remove_entry}
use unix_notis.Store.Lifecycle.Archive.{Keyed}

pub length-remove-le {ℓ} :
    {V : Type ℓ} (id : ℕ) (m : List (ℕ × V)) → length (remove id m) ≤ length m
length-remove-le id m = omega (
  arith,
  length-keys m,
  length-keys (remove id m),
  ap length (keys-remove id m),
  length-without-le id (keys m),
)

module _ {H : Type 0} where
  pub remove-Keyed : (id : ℕ) (m : List (ℕ × Notification H)) → Keyed m → Keyed (remove id m)
  unfolding remove
  remove-Keyed id [] v = tt
  remove-Keyed id ((k, n) ∷ m) v = ground (arith, remove-Keyed id m v.1)

  pub insert-Keyed :
      (id : ℕ) (n : Notification H) (m : List (ℕ × Notification H))
      → n.id ≡ id
      → Keyed m
      → Keyed (insert id n m)
  unfolding insert
  insert-Keyed id n [] e v = (e, tt)
  insert-Keyed id n ((k, o) ∷ m) e v = ground (arith, insert-Keyed id n m e v.1, ==_iff k id)

  pub lookup-Keyed :
      (id : ℕ) (n : Notification H) (m : List (ℕ × Notification H))
      → Keyed m
      → lookup id m ≡ some n
      → n.id ≡ id
  unfolding lookup
  lookup-Keyed id n [] v h = cc
  lookup-Keyed id n ((k, o) ∷ m) v h = ground (arith, lookup-Keyed id n m v.1, ==_iff k id)

  pub lookup-none :
      (id : ℕ) (m : List (ℕ × Notification H)) → lookup id m ≡ none → elem id (keys m) ≡ false
  lookup-none id m e = elim (Bool-cases (elem id (keys m))) [
    | inl there ↦ let (n, found) = lookup_present id m there in cc (e, found)
    | inr absent ↦ absent
  ]

  pub remove_entry-entries :
      (h : HistoryStore H) (id : ℕ) → (remove_entry h id).0.entries ≡ remove id h.entries
  unfolding remove_entry
  remove_entry-entries h id = elim (Option-cases (lookup id h.entries)) [
    | inl e ↦ rw (e, remove_entry) (sym (remove_absent id h.entries (lookup-none id h.entries e)))
    | inr (n, e) ↦ rw (e, remove_entry) refl
  ]
