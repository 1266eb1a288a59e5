-- ===== src/Center/Index.antt =====
-- The ids of every group: crates/unixnotis-center/src/ui/list/list_index.rs. An entry is known here by
-- its id and its group.
use unix_notis.Prelude.{
  Bool, List, Option, Text, [], false, if◌then◌else◌, keep_if, length, nat_eq, none, some, text_beq,
  text_eq, true, ℕ, ◌++◌, ◌+◌, ◌==◌, ◌∷◌,
}
use unix_notis.Prelude.Maps.{insert, lookup, remove, without}

pub record NotificationList : Type 0 where
  pub entries : List (ℕ × Text)
  pub active_order : List ℕ
  pub history_order : List ℕ
  pub group_active_index : List (Text × List ℕ)
  pub group_history_index : List (Text × List ℕ)
  pub grouped_cache : List (Text × List ℕ)

unfoldable pub clear_group_indices : NotificationList → NotificationList
clear_group_indices s = record s {
  group_active_index = [];
  group_history_index = [];
  grouped_cache = [];
}

-- A missing bucket is empty.
abbrev pub or_empty : Option (List ℕ) → List ℕ
or_empty none = []
or_empty (some ids) = ids

abbrev pub bucket : Text → List (Text × List ℕ) → List ℕ
bucket key index = or_empty (lookup key index)

-- The cached list of a group: its active ids are listed before those of its history.
abbrev pub merged : List ℕ → List ℕ → Option (List ℕ)
merged active history =
    if length active + length history == 0 then none else some (active ++ history)

unfoldable pub cache_after : Text → Option (List ℕ) → List (Text × List ℕ) → List (Text × List ℕ)
cache_after key none cache = remove key cache
cache_after key (some ids) cache = insert key ids (remove key cache)

unfoldable pub sync_group_cache_for_key : Text → NotificationList → NotificationList
sync_group_cache_for_key key s =
    let ids = merged (bucket key s.group_active_index) (bucket key s.group_history_index) in
    record s { grouped_cache = cache_after key ids s.grouped_cache }

-- `entry(key).or_insert_with(VecDeque::new)` before the bucket changes.
unfoldable pub with_bucket : Text → List (Text × List ℕ) → List (Text × List ℕ)
with_bucket key index = elim (lookup key index) [ some ids ↦ index | none ↦ insert key [] index ]

abbrev pub is_front : ℕ → List ℕ → Bool
is_front id [] = false
is_front id (x ∷ xs) = x == id

-- The id at the front of its bucket, and nowhere else in it.
unfoldable pub to_front : Text → ℕ → List (Text × List ℕ) → List (Text × List ℕ)
to_front key id index =
    let ids = bucket key index in
    if is_front id ids
    then with_bucket key index
    else insert key (id ∷ without id ids) (with_bucket key index)

unfoldable pub with_index :
    Bool → (List (Text × List ℕ) → List (Text × List ℕ)) → NotificationList → NotificationList
with_index true change s = record s { group_active_index = change s.group_active_index }
with_index false change s = record s { group_history_index = change s.group_history_index }

unfoldable pub index_insert_front : Text → ℕ → Bool → NotificationList → NotificationList
index_insert_front key id is_active s =
    sync_group_cache_for_key key (with_index is_active (to_front key id) s)

unfoldable pub remove_from_group_bucket : Text → ℕ → List (Text × List ℕ) → List (Text × List ℕ)
remove_from_group_bucket key id index = elim (lookup key index) [
  | none ↦ index
  | some ids ↦
      let rest = without id ids in
      if length rest == 0 then remove key (insert key rest index) else insert key rest index
]

unfoldable pub index_remove : Text → ℕ → Bool → NotificationList → NotificationList
index_remove key id was_active s =
    sync_group_cache_for_key key (with_index was_active (remove_from_group_bucket key id) s)

abbrev pub index_of : Bool → NotificationList → List (Text × List ℕ)
index_of true s = s.group_active_index
index_of false s = s.group_history_index

unfoldable pub index_move_to_front : Text → ℕ → Bool → NotificationList → NotificationList
index_move_to_front key id is_active s =
    let moved = with_index is_active (to_front key id) s in
    if is_front id (bucket key (index_of is_active s))
    then moved
    else sync_group_cache_for_key key moved

-- The ids of an order whose entry is in the group.
unfoldable pub ids_in_group : Text → List (ℕ × Text) → List ℕ → List ℕ
ids_in_group key entries ids =
    keep_if (λ id. elim (lookup id entries) [ some app_key ↦ text_beq app_key key | none ↦ false ])
      ids

unfoldable pub set_bucket : Text → List ℕ → List (Text × List ℕ) → List (Text × List ℕ)
set_bucket key ids index = if length ids == 0 then remove key index else insert key ids index

unfoldable pub rebuild_group_index_for_key : Text → NotificationList → NotificationList
rebuild_group_index_for_key key s = sync_group_cache_for_key key (record s {
  group_active_index =
      set_bucket key (ids_in_group key s.entries s.active_order) s.group_active_index;
  group_history_index =
      set_bucket key (ids_in_group key s.entries s.history_order) s.group_history_index;
})
