-- ===== src/History/Eviction.antt =====
-- `evict_to_limit` and `list_views` on well-formed archives, by way of the list of Recency.
use mathlib.Core.List.{reverse-cons, append-nil}
use unix_notis.Prelude.{
  drop_all, ◌==◌, drop_none, nat_eq, ℕ, zero, suc, ◌-◌, ◌<◌, ◌≡◌, refl, sym, ap, ◌∙◌, inl, inr,
  true, List, [], ◌∷◌, reverse, map, arith, length, leb, drop, Bool-cases, Option-cases,
  if◌then◌else◌,
}
use unix_notis.Prelude.Maps.{elem, remove, lookup, lookup_present}
use unix_notis.Model.{Notification, to_list_view}
use unix_notis.History.{
  evict_fuel, new, is_empty, HistoryStore, clear, evict_loop, evict_to_limit, list_views, views_of,
}
use unix_notis.History.Valid.{Agree, IsValid, Agree-tail, Agree-length, new-IsValid}
use unix_notis.History.Recency.{recent_of-remove, recent_of, recent, recent_of-append}

module _ {H : Type 0} where
  -- The oldest entry of a well-formed archive, and the rest.
  recent_of-cons :
      (id : ℕ) (order : List ℕ) (entries : List (ℕ × Notification H))
      → Agree (id ∷ order) entries
      → (n : Notification H) × (recent_of (id ∷ order) entries
          ≡ (id, n) ∷ recent_of order (remove id entries))
  unfolding recent_of elem
  recent_of-cons id order entries a =
      let (n, e) = lookup_present id entries (ground (arith, a.same_ids id)) in
      (n, rw (e, recent_of) (rw (recent_of-remove id order entries a.order_distinct.0) refl))

  length-recent_of :
      (order : List ℕ) (entries : List (ℕ × Notification H))
      → Agree order entries
      → length (recent_of order entries) ≡ length order
  length-recent_of [] entries a = unfold recent_of in refl
  length-recent_of (id ∷ order) entries a =
      let (n, e) = recent_of-cons id order entries a in
      let rest = length-recent_of order (remove id entries) (Agree-tail id order entries a) in
      rw e (ap suc rest)

  -- What the loop leaves is well formed, and is the newest part of what it was given.
  evict_loop-recent :
      (fuel max_entries : ℕ) (entries : List (ℕ × Notification H)) (order : List ℕ)
      → Agree order entries
      → length order < fuel
      → let kept = evict_loop fuel max_entries entries order in
        IsValid kept × (recent kept ≡ drop (length order - max_entries) (recent_of order entries))
  unfolding evict_loop
  evict_loop-recent zero max_entries entries order a h = elim h [ ]
  evict_loop-recent (suc fuel) max_entries entries [] a h =
      let fits : leb (length entries) max_entries ≡ true =
        ground (arith, Agree-length [] entries a) in
      rw fits (a, sym (drop_none (0 - max_entries) (recent_of [] entries) (omega arith)))
  evict_loop-recent (suc fuel) max_entries entries (id ∷ order) a h =
      let size = Agree-length (id ∷ order) entries a in
      let (n, e) = recent_of-cons id order entries a in
      elim (Bool-cases (leb (length entries) max_entries)) [
        | inl fits ↦
            rw fits (a, sym (drop_none (suc (length order) - max_entries) _ (ground arith)))
        | inr over ↦
            let more : suc (length order) - max_entries ≡ suc (length order - max_entries) =
              ground arith in
            let (v, rest) =
              evict_loop-recent fuel max_entries (remove id entries) order
                (Agree-tail id order entries a) (omega arith) in
            rw over (v, rest ∙ rw (e, more) refl)
      ]

  recent_of_nothing : (order : List ℕ) → recent_of {H = H} order [] ≡ []
  unfolding recent_of lookup
  recent_of_nothing [] = refl
  recent_of_nothing (id ∷ order) = recent_of_nothing order

  -- With no entry left, the order is emptied as well; a well-formed archive has none then.
  settled :
      (entries : List (ℕ × Notification H)) (order : List ℕ)
      → Agree order entries
      → let kept : HistoryStore H = record { entries = entries; order = order } in
        let result = if is_empty entries then record kept { order = [] } else kept in
        IsValid result × (recent result ≡ recent kept)
  unfolding new recent_of
  settled [] order v = (new-IsValid, sym (recent_of_nothing order))
  settled ((k, n) ∷ m) order v = (v, refl)

  -- On a well-formed archive `evict_to_limit` keeps exactly the newest `max_entries` entries, in
  -- their order, and leaves it well formed.
  pub evict_to_limit-recent :
      (h : HistoryStore H) (max_entries : ℕ)
      → IsValid h
      → IsValid (evict_to_limit h max_entries)
        × (recent (evict_to_limit h max_entries)
            ≡ drop (length (recent h) - max_entries) (recent h))
  unfolding evict_to_limit clear new recent_of
  evict_to_limit-recent h max_entries v = elim (Bool-cases (max_entries == 0)) [
    | inl none_kept ↦
        let all : length (recent h) - max_entries ≡ length (recent h) = ground arith in
        rw none_kept (new-IsValid, sym (rw all (drop_all (recent h))))
    | inr some_kept ↦
        let (kept_valid, kept_recent) =
          evict_loop-recent (evict_fuel h) max_entries h.entries h.order v (omega arith) in
        let (valid, same) = settled _ _ kept_valid in
        rw some_kept (valid, same ∙ kept_recent ∙ rw (length-recent_of h.order h.entries v) refl)
  ]

  views_of-recent_of :
      (ids : List ℕ) (m : List (ℕ × Notification H))
      → views_of ids m ≡ map (λ p. to_list_view p.1) (recent_of ids m)
  unfolding views_of recent_of
  views_of-recent_of [] m = refl
  views_of-recent_of (id ∷ ids) m = ground (arith, views_of-recent_of ids m)

  recent_of-reverse :
      (ids : List ℕ) (m : List (ℕ × Notification H))
      → recent_of (reverse ids) m ≡ reverse (recent_of ids m)
  unfolding recent_of
  recent_of-reverse [] m = refl
  recent_of-reverse (id ∷ ids) m =
      rw (reverse-cons id ids, recent_of-append (reverse ids) (id ∷ []) m, recent_of-reverse ids m)
        (elim (Option-cases (lookup id m)) [
          | inl e ↦ rw (e, recent_of) (append-nil _)
          | inr (n, e) ↦ rw (e, recent_of) (sym (reverse-cons (id, n) (recent_of ids m)))
        ])

  -- `list_views` shows the archive newest first.
  pub list_views-recent :
      (h : HistoryStore H) → list_views h ≡ map (λ p. to_list_view p.1) (reverse (recent h))
  unfolding list_views
  list_views-recent h =
      views_of-recent_of (reverse h.order) h.entries
      ∙ ap (map (λ p. to_list_view p.1)) (recent_of-reverse h.order h.entries)
