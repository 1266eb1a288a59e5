-- ===== src/Popups/Restack.antt =====
-- Which rows must move when the visible popups change: visible_popup_restack_ids of
-- crates/unixnotis-popups/src/ui/ui_popups/visibility.rs, and the loop of apply_visible_popups that
-- uses it on the widget stack.
pub mod Index
pub mod Moved
pub mod Rows
pub mod Order
use unix_notis.Prelude.{
  nat_eq, ℕ, zero, suc, ◌+◌, ◌-◌, Bool, true, false, ◌||◌, Option, none, some, List, [], ◌∷◌, ◌++◌,
  take, drop, keep_if, min, max, ◌==◌, if◌then◌else◌,
}
use unix_notis.Prelude.Maps.{elem, without, lookup, insert}

-- `Vec::insert` and `Vec::remove`, at an index within the list.
unfoldable pub insert_at : ℕ → ℕ → List ℕ → List ℕ
insert_at zero x xs = x ∷ xs
insert_at (suc i) x [] = x ∷ []
insert_at (suc i) x (y ∷ ys) = y ∷ insert_at i x ys

unfoldable pub remove_at : ℕ → List ℕ → List ℕ
remove_at i [] = []
remove_at zero (y ∷ ys) = ys
remove_at (suc i) (y ∷ ys) = y ∷ remove_at i ys

-- What `Vec::remove` returns; a default stands for the panic out of range.
unfoldable pub row_at : ℕ → ℕ → List ℕ → ℕ
row_at i default [] = default
row_at zero default (y ∷ ys) = y
row_at (suc i) default (y ∷ ys) = row_at i default ys

-- The loops that write the position of every row of a window, from an index on.
unfoldable pub renumber : ℕ → List ℕ → List (ℕ × ℕ) → List (ℕ × ℕ)
renumber index [] positions = positions
renumber index (id ∷ ids) positions = renumber (index + 1) ids (insert id index positions)

pub record Restack : Type 0 where
  pub working : List ℕ
  pub positions : List (ℕ × ℕ)
  pub moved : List ℕ

-- `HashSet::insert`.
abbrev pub mark : ℕ → List ℕ → List ℕ
mark id moved = if elem id moved then moved else id ∷ moved

-- A row whose place may be known goes to its target.
unfoldable pub place : Option ℕ → ℕ → ℕ → Restack → Restack
place none target id s =
    let working = insert_at target id s.working in
    record {
      working = working;
      positions = renumber target (drop target working) s.positions;
      moved = mark id s.moved;
    }
place (some current) target id s =
    let moved_id = row_at current id s.working in
    let working = insert_at target moved_id (remove_at current s.working) in
    let start = min target current in
    let end = max target current in
    if current == target then s else record {
      working = working;
      positions = renumber start (take (end - start + 1) (drop start working)) s.positions;
      moved = mark id s.moved;
    }

unfoldable pub restack_step : ℕ → ℕ → Restack → Restack
restack_step target id s = place (lookup id s.positions) target id s

unfoldable pub restack_loop : ℕ → List ℕ → Restack → Restack
restack_loop target [] s = s
restack_loop target (id ∷ ids) s = restack_loop (suc target) ids (restack_step target id s)

unfoldable pub visible_popup_restack_ids : List ℕ → List ℕ → List ℕ
visible_popup_restack_ids previous_visible desired_visible =
    (restack_loop 0 desired_visible (record {
      working = previous_visible;
      positions = renumber 0 previous_visible [];
      moved = [];
    })).moved

-- `reorder_child_after`: to the front, or right behind a row.
unfoldable pub insert_after : ℕ → ℕ → List ℕ → List ℕ
insert_after id previous [] = id ∷ []
insert_after id previous (x ∷ xs) =
    if x == previous then x ∷ id ∷ xs else x ∷ insert_after id previous xs

unfoldable pub reorder_child_after : ℕ → Option ℕ → List ℕ → List ℕ
reorder_child_after id none stack = id ∷ without id stack
reorder_child_after id (some previous) stack = insert_after id previous (without id stack)

-- One round of the loop over the rows to show: a row that is not in the stack is appended, and
-- it or a row that must move goes behind the row before it.
unfoldable pub show_row : List ℕ → ℕ → Option ℕ → List ℕ → List ℕ
show_row restack_ids id previous stack =
    if elem id stack
    then (if elem id restack_ids then reorder_child_after id previous stack else stack)
    else reorder_child_after id previous (stack ++ id ∷ [])

-- A row without an entry or a widget is skipped, and is not the row before the next one.
unfoldable pub show_rows : (ℕ → Bool) → List ℕ → List ℕ → Option ℕ → List ℕ → List ℕ
show_rows has_row restack_ids [] previous stack = stack
show_rows has_row restack_ids (id ∷ ids) previous stack =
    let skipped = show_rows has_row restack_ids ids previous stack in
    let shown =
      show_rows has_row restack_ids ids (some id) (show_row restack_ids id previous stack) in
    if has_row id then shown else skipped

-- The widget stack after `apply_visible_popups`, from the one with the widgets of the visible rows:
-- those that are no longer wanted leave it first. `has_row` says which popups have an entry, and so a
-- widget once they are materialized.
unfoldable pub shown_stack : (ℕ → Bool) → List ℕ → List ℕ → List ℕ
shown_stack has_row previous_visible desired_visible =
    show_rows has_row (visible_popup_restack_ids previous_visible desired_visible) desired_visible
      none (keep_if (λ id. elem id desired_visible) (keep_if has_row previous_visible))
