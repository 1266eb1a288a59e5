-- ===== src/History.antt =====
-- The bounded archive of closed notifications: crates/unixnotis-daemon/src/store/store_history.rs.
-- `entries` is the hash map and `order` the deque of ids, oldest first. The one place where the code
-- reads the map's iteration order is the recovery in `evict_to_limit`, which takes it as listed.
pub mod Bounds
pub mod Valid
pub mod Recency
pub mod Eviction
use unix_notis.Prelude.{
  nat_eq, ℕ, zero, suc, ◌+◌, Bool, true, false, ◌||◌, Option, none, some, List, [], ◌∷◌, ◌++◌,
  reverse, length, leb, ◌==◌, if◌then◌else◌,
}
use unix_notis.Prelude.Maps.{lookup, contains_key, insert, remove, without, keys}
use unix_notis.Model.{Notification, NotificationView, to_list_view}

pub record HistoryStore (H : Type 0) : Type 0 where
  pub entries : List (ℕ × Notification H)
  pub order : List ℕ

abbrev pub is_empty {ℓ} : {A : Type ℓ} → List A → Bool
is_empty [] = true
is_empty (x ∷ xs) = false

module _ {H : Type 0} where
  unfoldable pub new : HistoryStore H
  new = record { entries = []; order = [] }

  unfoldable pub len : HistoryStore H → ℕ
  len h = length h.entries

  unfoldable pub contains : HistoryStore H → ℕ → Bool
  contains h id = contains_key id h.entries

  unfoldable pub get : HistoryStore H → ℕ → Option (Notification H)
  get h id = lookup id h.entries

  unfoldable pub clear : HistoryStore H → HistoryStore H
  clear h = record { entries = []; order = [] }

  -- The loop of `list_views`, over the order from its new end.
  unfoldable pub views_of : List ℕ → List (ℕ × Notification H) → List NotificationView
  views_of [] entries = []
  views_of (id ∷ ids) entries =
      let rest = views_of ids entries in
      elim (lookup id entries) [ none ↦ rest | some n ↦ to_list_view n ∷ rest ]

  unfoldable pub list_views : HistoryStore H → List NotificationView
  unfolding views_of
  list_views h = views_of (reverse h.order) h.entries

  unfoldable pub remove_entry : HistoryStore H → ℕ → HistoryStore H × Option (Notification H)
  remove_entry h id = elim (lookup id h.entries) [
    | none ↦ (h, none)
    | some n ↦ (record h { entries = remove id h.entries; order = without id h.order }, some n)
  ]

  unfoldable pub insert_entry : HistoryStore H → Notification H → HistoryStore H
  insert_entry h n = record {
    entries = insert n.id n h.entries;
    order = (if contains_key n.id h.entries then without n.id h.order else h.order) ++ n.id ∷ [];
  }

  -- The `while` loop of `evict_to_limit`, on fuel: drop the oldest id until the map fits; when the
  -- order has run dry, list the map's own keys and go on.
  unfoldable pub evict_loop : ℕ → ℕ → List (ℕ × Notification H) → List ℕ → HistoryStore H
  evict_loop zero max_entries entries order = record { entries = entries; order = order }
  evict_loop (suc fuel) max_entries entries [] =
      let rest = evict_loop fuel max_entries entries (keys entries) in
      if leb (length entries) max_entries || is_empty (keys entries)
      then record { entries = entries; order = [] }
      else rest
  evict_loop (suc fuel) max_entries entries (id ∷ order) =
      let rest = evict_loop fuel max_entries (remove id entries) order in
      if leb (length entries) max_entries
      then record { entries = entries; order = id ∷ order }
      else rest

  -- Every round drops an id of the order, which is listed anew at most once.
  abbrev pub evict_fuel : HistoryStore H → ℕ
  evict_fuel h = length h.order + length h.entries + 2

  unfoldable pub evict_to_limit : HistoryStore H → ℕ → HistoryStore H
  evict_to_limit h max_entries =
      let kept = evict_loop (evict_fuel h) max_entries h.entries h.order in
      if max_entries == 0
      then clear h
      else if is_empty kept.entries
      then record kept { order = [] }
      else kept
