-- ===== src/Popups.antt =====
-- The popup client's list of popups, apart from its widgets: crates/unixnotis-popups/src/ui/
-- ui_popups/mod.rs, reconcile.rs and visibility.rs. An entry keeps whether its widgets are built;
-- rows that animate out after their removal are left aside.
pub mod Restack
pub mod Reconcile
use unix_notis.Prelude.{
  nat_eq, ℕ, zero, ◌≤◌, ◌≡◌, Bool, true, false, not, Option, none, some, List, [], ◌∷◌, ◌++◌, map,
  reverse, length, take, keep_if, min, ◌==◌, if◌then◌else◌,
}
use unix_notis.Prelude.Maps.{elem, without, lookup, insert, remove, contains_key}
use unix_notis.Model.{NotificationView}
use unix_notis.Model.Same.{same_view}
use unix_notis.Model.Control.{ControlState, popup_allowed_by_state}

pub record PopupEntry : Type 0 where
  pub notification : NotificationView
  pub materialized : Bool

pub record ReconcilePlan : Type 0 where
  pub stale_ids : List ℕ
  pub updates : List NotificationView
  pub desired_order : List ℕ

-- The configured `max_visible` is the one setting that is read.
pub record UiState : Type 0 where
  pub popups : List (ℕ × PopupEntry)
  pub popup_order : List ℕ
  pub visible_popups : List ℕ
  pub control_state : ControlState
  pub max_visible : ℕ

abbrev pub id_of : NotificationView → ℕ
id_of n = n.id

unfoldable pub desired_seed_popups : List NotificationView → ControlState → List NotificationView
desired_seed_popups active state = keep_if (λ n. popup_allowed_by_state n.urgency state) active

-- Rows that are missing locally, or differ.
unfoldable pub needs_update : List (ℕ × PopupEntry) → NotificationView → Bool
needs_update popups n = elim (lookup n.id popups) [
  | none ↦ true
  | some existing ↦ not (same_view existing.notification n)
]

unfoldable pub build_reconcile_plan :
    List (ℕ × PopupEntry) → List ℕ → List NotificationView → ReconcilePlan
build_reconcile_plan popups local_order desired = record {
  stale_ids = keep_if (λ id. not (elem id (map id_of desired))) local_order;
  updates = keep_if (needs_update popups) desired;
  desired_order = map id_of desired;
}

unfoldable pub visible_popup_target : ℕ → ℕ → ℕ
visible_popup_target total_popups max_visible = min total_popups max_visible

-- `remove_popup_internal` without the refresh, which the caller does.
unfoldable pub remove_popup_internal : UiState → ℕ → UiState
remove_popup_internal s id = record s {
  popups = remove id s.popups;
  popup_order = without id s.popup_order;
}

unfoldable pub add_popup_internal : UiState → NotificationView → UiState
add_popup_internal s n = if contains_key n.id s.popups then s else record s {
  popups = insert n.id (record { notification = n; materialized = false }) s.popups;
  popup_order = n.id ∷ s.popup_order;
}

unfoldable pub update_popup_internal : UiState → NotificationView → Bool → UiState
update_popup_internal s n show_popup =
    if not show_popup then remove_popup_internal s n.id else elim (lookup n.id s.popups) [
      | none ↦ add_popup_internal s n
      | some entry ↦ record s { popups = insert n.id (record entry { notification = n }) s.popups }
    ]

-- Builds or drops the widgets of a row, where there is one.
unfoldable pub set_materialized : Bool → ℕ → List (ℕ × PopupEntry) → List (ℕ × PopupEntry)
set_materialized flag id popups = elim (lookup id popups) [
  | none ↦ popups
  | some entry ↦ insert id (record entry { materialized = flag }) popups
]

unfoldable pub set_all : Bool → List ℕ → List (ℕ × PopupEntry) → List (ℕ × PopupEntry)
set_all flag [] popups = popups
set_all flag (id ∷ ids) popups = set_all flag ids (set_materialized flag id popups)

-- The rows of `apply_visible_popups`: those that leave lose their widgets, those that are shown get
-- them, and ids without an entry are skipped.
unfoldable pub apply_visible_popups : UiState → List ℕ → UiState
apply_visible_popups s desired =
    let leaving = keep_if (λ id. not (elem id desired)) s.visible_popups in
    let popups = set_all true desired (set_all false leaving s.popups) in
    record s { popups = popups; visible_popups = keep_if (λ id. contains_key id popups) desired }

unfoldable pub update_popup_visibility : UiState → UiState
update_popup_visibility s =
    if s.max_visible == 0
    then apply_visible_popups s []
    else apply_visible_popups s
        (take (visible_popup_target (length s.popup_order) s.max_visible) s.popup_order)

unfoldable pub remove_all : UiState → List ℕ → UiState
remove_all s [] = s
remove_all s (id ∷ ids) = remove_all (remove_popup_internal s id) ids

unfoldable pub update_all : UiState → List NotificationView → UiState
update_all s [] = s
update_all s (n ∷ ns) = update_all (update_popup_internal s n true) ns

unfoldable pub reconcile_seed : UiState → List NotificationView → UiState
reconcile_seed s active =
    let desired = desired_seed_popups active s.control_state in
    let plan = build_reconcile_plan s.popups s.popup_order desired in
    let updated = update_all (remove_all s plan.stale_ids) (reverse plan.updates) in
    update_popup_visibility (record updated { popup_order = plan.desired_order })
