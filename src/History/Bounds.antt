-- ===== src/History/Bounds.antt =====
-- The size of the archive after `evict_to_limit`, from any state.
use unix_notis.Prelude.{
  nat_eq, ℕ, zero, suc, ◌+◌, ◌≤◌, ◌<◌, ◌≡◌, refl, true, List, [], ◌∷◌, arith, length, ap,
}
use unix_notis.Prelude.Maps.{
  elem, remove, keys, keys-remove, elem-without, length-keys, length-without-le,
}
use unix_notis.Model.{Notification}
use unix_notis.History.{HistoryStore, evict_loop, evict_to_limit, clear}

module _ {H : Type 0} where
  -- Every key of the map is listed.
  abbrev Covers : List ℕ → List (ℕ × Notification H) → Type 0
  Covers order entries = (k : ℕ) → elem k (keys entries) ≡ true → elem k order ≡ true

  Covers-remove :
      (id : ℕ) (order : List ℕ) (entries : List (ℕ × Notification H))
      → Covers (id ∷ order) entries
      → Covers order (remove id entries)
  unfolding elem
  Covers-remove id order entries c k h =
      ground (arith, c k, keys-remove id entries, elem-without id k (keys entries))

  no_keys : (entries : List (ℕ × Notification H)) → Covers [] entries → length entries ≡ 0
  unfolding elem keys
  no_keys [] c = refl
  no_keys ((k, n) ∷ m) c = absurd (ground (arith, c k))

  evict_loop-covered :
      (fuel max_entries : ℕ) (entries : List (ℕ × Notification H)) (order : List ℕ)
      → Covers order entries
      → length order < fuel
      → length (evict_loop fuel max_entries entries order).entries ≤ max_entries
  unfolding evict_loop
  evict_loop-covered zero max_entries entries order c h = elim h [ ]
  evict_loop-covered (suc fuel) max_entries entries [] c h = ground (arith, no_keys entries c)
  evict_loop-covered (suc fuel) max_entries entries (id ∷ order) c h = ground (
    arith,
    evict_loop-covered fuel max_entries (remove id entries) order (Covers-remove id order entries c)
        (omega arith),
  )

  length-remove-le :
      (id : ℕ) (entries : List (ℕ × Notification H)) → length (remove id entries) ≤ length entries
  length-remove-le id entries = omega (
    arith,
    length-keys entries,
    length-keys (remove id entries),
    ap length (keys-remove id entries),
    length-without-le id (keys entries),
  )

  evict_loop-bounded :
      (fuel max_entries : ℕ) (entries : List (ℕ × Notification H)) (order : List ℕ)
      → length order + length entries + 1 < fuel
      → length (evict_loop fuel max_entries entries order).entries ≤ max_entries
  unfolding evict_loop keys
  evict_loop-bounded zero max_entries entries order h = elim h [ ]
  evict_loop-bounded (suc fuel) max_entries [] [] h = ground arith
  evict_loop-bounded (suc fuel) max_entries ((k, n) ∷ m) [] h = ground (
    arith,
    evict_loop-covered fuel max_entries ((k, n) ∷ m) (keys ((k, n) ∷ m)) (λ j g. g)
        (omega (arith, length-keys ((k, n) ∷ m))),
  )
  evict_loop-bounded (suc fuel) max_entries entries (id ∷ order) h = ground (
    arith,
    length-remove-le id entries,
    evict_loop-bounded fuel max_entries (remove id entries) order,
  )

  -- From any map and any order of ids, `evict_to_limit` ends with at most `max_entries` entries.
  pub evict_to_limit-le :
      (h : HistoryStore H) (max_entries : ℕ)
      → length (evict_to_limit h max_entries).entries ≤ max_entries
  unfolding evict_to_limit clear
  evict_to_limit-le h max_entries = ground (
    arith,
    evict_loop-bounded (length h.order + length h.entries + 2) max_entries h.entries h.order
        (omega arith),
  )
