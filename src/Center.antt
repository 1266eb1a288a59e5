-- ===== src/Center.antt =====
-- The rows of the notification centre: crates/unixnotis-center/src/ui/list/list_blocks.rs,
-- list_index.rs and the splice of list_update.rs. A group's key is its text; the objects of the list
-- store are of any type `I`, since only their positions matter here.
pub mod Blocks
pub mod Splice
pub mod Index
pub mod Grouped
use unix_notis.Prelude.{
  text_beq, text_beq_iff, ==_iff, ◌↔◌, ◌≡◌, true, false, ap, Bool, Eq, List, Text, [], drop,
  if◌then◌else◌, leb, length, ltb, min, nat_eq, reverse, suc, take, zero, ℕ, ◌&&◌, ◌++◌, ◌+◌, ◌-◌,
  ◌==◌, ◌∷◌,
}
use unix_notis.Prelude.Maps.{elem, keys}

pub data RowKey : Type 0 where
  group_header : Text → RowKey
  notification_row : ℕ → RowKey

-- The derived equality.
unfoldable pub row_key_beq : RowKey → RowKey → Bool
row_key_beq (group_header a) (group_header b) = text_beq a b
row_key_beq (group_header a) (notification_row b) = false
row_key_beq (notification_row a) (group_header b) = false
row_key_beq (notification_row a) (notification_row b) = a == b

pub row_key_beq_iff : (a b : RowKey) → (row_key_beq a b ≡ true) ↔ (a ≡ b)
unfolding row_key_beq
row_key_beq_iff (group_header a) (group_header b) =
    (λ h. ap group_header ((text_beq_iff a b).0 h), λ h. (text_beq_iff a b).1 (cc h))
row_key_beq_iff (group_header a) (notification_row b) = (λ h. cc h, λ h. cc h)
row_key_beq_iff (notification_row a) (group_header b) = (λ h. cc h, λ h. cc h)
row_key_beq_iff (notification_row a) (notification_row b) =
    (λ h. ap notification_row ((==_iff a b).0 h), λ h. (==_iff a b).1 (cc h))

instance abbrev pub row_key_eq : Eq RowKey
row_key_eq = record { beq = row_key_beq; beq_iff = row_key_beq_iff }

pub record GroupRange : Type 0 where
  pub start : ℕ
  pub len : ℕ

-- `collapsed_stack_depth`, for a count that fits.
unfoldable pub collapsed_stack_depth : ℕ → Bool → ℕ
collapsed_stack_depth count expanded = if expanded then 0 else min (count - 1) 2

unfoldable pub group_block_len : Bool → List ℕ → ℕ
group_block_len expanded ids = 1 + (if expanded then length ids else min (length ids) 1)

-- The rows of a group: its header, then every entry, or the first one where it is collapsed. An id
-- without an entry has no row.
unfoldable pub block_rows : List ℕ → List ℕ → List RowKey
block_rows entries [] = []
block_rows entries (id ∷ ids) =
    let rest = block_rows entries ids in
    if elem id entries then notification_row id ∷ rest else rest

unfoldable pub build_group_block : List ℕ → Bool → Text → List ℕ → List RowKey
build_group_block entries expanded key [] = []
build_group_block entries expanded key (id ∷ ids) =
    let rows = block_rows entries (if expanded then id ∷ ids else id ∷ []) in
    if elem id entries then group_header key ∷ rows else []

module _ {A : Type 0} ⦃e : Eq A⦄ where
  -- How many items two lists share at the front.
  unfoldable pub common_front : List A → List A → ℕ
  common_front [] ys = 0
  common_front (x ∷ xs) [] = 0
  common_front (x ∷ xs) (y ∷ ys) =
      let rest = common_front xs ys in if e.beq x y then suc rest else 0

  -- The second loop reads both lists from the back, down to the shared front.
  unfoldable pub common_prefix_suffix : List A → List A → ℕ × ℕ
  common_prefix_suffix current next =
      let prefix = common_front current next in
      (prefix, common_front (reverse (drop prefix current)) (reverse (drop prefix next)))

-- `splice` of a list store or a vector: at a position, so many items leave and others come.
unfoldable pub splice {ℓ} : {A : Type ℓ} → ℕ → ℕ → List A → List A → List A
splice position removals items xs = take position xs ++ (items ++ drop (position + removals) xs)

-- The store, its keys, and the range of every group.
pub record Rows (I : Type 0) : Type 0 where
  pub store : List I
  pub current_keys : List RowKey
  pub group_ranges : List (Text × GroupRange)

unfoldable pub shift_up : ℕ → ℕ → List (Text × GroupRange) → List (Text × GroupRange)
shift_up start delta [] = []
shift_up start delta ((key, range) ∷ ranges) =
    let rest = shift_up start delta ranges in
    if leb start range.start
    then (key, record range { start = range.start + delta }) ∷ rest
    else (key, range) ∷ rest

unfoldable pub shift_down : ℕ → ℕ → List (Text × GroupRange) → List (Text × GroupRange)
shift_down start delta [] = []
shift_down start delta ((key, range) ∷ ranges) =
    let rest = shift_down start delta ranges in
    if ltb start range.start
    then (key, record range { start = range.start - delta }) ∷ rest
    else (key, range) ∷ rest

module _ {I : Type 0} where
  -- The end of `rebuild_list`, with the new rows' keys, the rows and the groups' ranges: the keys say
  -- which rows are brought in, and every other object of the store stays.
  unfoldable pub splice_changed : List RowKey → List I → List (Text × GroupRange) → Rows I → Rows I
  splice_changed keys items group_ranges rows =
      let shared = common_prefix_suffix rows.current_keys keys in
      let prefix = shared.0 in
      let both = shared.0 + shared.1 in
      let current_mid = length rows.current_keys - both in
      let next_mid = length keys - both in
      let objects = take next_mid (drop prefix items) in
      record {
        store =
            if current_mid == 0 && next_mid == 0
            then rows.store
            else splice prefix current_mid objects rows.store;
        current_keys = keys;
        group_ranges = group_ranges;
      }

  -- `shift_group_ranges` with a positive delta, inclusive, and the number of rows inserted.
  unfoldable pub insert_block : ℕ → List I → List RowKey → Rows I → ℕ × Rows I
  insert_block start [] keys rows = (0, rows)
  insert_block start (item ∷ items) keys rows = (
    length (item ∷ items),
    record {
      store = splice start 0 (item ∷ items) rows.store;
      current_keys = splice start 0 keys rows.current_keys;
      group_ranges = shift_up start (length (item ∷ items)) rows.group_ranges;
    },
  )

  -- `shift_group_ranges` with a negative delta, exclusive.
  unfoldable pub remove_block : ℕ → ℕ → Rows I → Rows I
  remove_block start zero rows = rows
  remove_block start (suc len) rows = record {
    store = splice start (suc len) [] rows.store;
    current_keys = splice start (suc len) [] rows.current_keys;
    group_ranges = shift_down start (suc len) rows.group_ranges;
  }
