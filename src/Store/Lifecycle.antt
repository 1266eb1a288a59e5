-- ===== src/Store/Lifecycle.antt =====
-- Insertion, closing, dismissal and eviction: crates/unixnotis-daemon/src/store/
-- store_lifecycle.rs. An `Instant` is a number of the monotonic clock.
pub mod Evict
pub mod Archive
pub mod Keyed
pub mod Invariant
pub mod Insert
pub mod Close
pub mod Remove
pub mod Outcome
pub mod Safety
pub mod Gates
use unix_notis.Prelude.{
  nat_eq, ℕ, ◌+◌, min, Bool, true, false, not, ◌&&◌, ◌||◌, Option, none, some, List, [], ◌∷◌,
  reverse, length, leb, ◌==◌, if◌then◌else◌,
}
use unix_notis.Prelude.Maps.{lookup, insert, remove, keys}
use unix_notis.Model.{Notification, Urgency, urgency_eq, as_u8, to_history}
use unix_notis.Model
use unix_notis.Model.Control.{
  CloseReason, undefined, ControlState, popup_allowed_by_state, should_archive_closed_notification,
}
use unix_notis.Rules.{apply_rules}
use unix_notis.History
use unix_notis.Store.{NotificationStore, DismissOutcome}
use unix_notis.Store.Identity.{next_id, can_replace_notification_for_sender}
use unix_notis.Store.Inhibit.{should_drop_inhibited}

-- `ACTIVE_HARD_CAP`.
abbrev pub active_hard_cap : ℕ
active_hard_cap = 12

pub record InsertOutcome (H : Type 0) : Type 0 where
  pub notification : Notification H
  pub replaced : Bool
  pub show_popup : Bool
  pub allow_sound : Bool
  pub evicted : List ℕ
  pub dropped : Bool

abbrev pub is_some {ℓ} : {A : Type ℓ} → Option A → Bool
is_some none = false
is_some (some a) = true

module _ {H : Type 0} where
  unfoldable pub push_history :
      NotificationStore H → Notification H → CloseReason → NotificationStore H
  push_history s n reason =
      if s.config.history.max_entries == 0
      then record s { history = History.clear s.history }
      else if not (
          should_archive_closed_notification reason n.is_transient
            s.config.history.transient_to_history)
      then s
      else record s {
        history =
            History.evict_to_limit (History.insert_entry s.history (to_history n))
              s.config.history.max_entries;
      }

  -- One round of either eviction loop, after `shift_remove_index(0)`.
  unfoldable pub evict_one : NotificationStore H → ℕ → Notification H → NotificationStore H
  evict_one s id n = push_history (record s { expirations = remove id s.expirations }) n undefined

  -- The loop for `max_active == 0`: archive everything. The list is what is left of `active`.
  unfoldable pub evict_all :
      List (ℕ × Notification H) → NotificationStore H → NotificationStore H × List ℕ
  evict_all [] s = (record s { active = [] }, [])
  evict_all ((id, n) ∷ active) s =
      let (s', evicted) = evict_all active (evict_one (record s { active = active }) id n) in
      (s', id ∷ evicted)

  -- The loop that stops at `max_active`: the oldest go first.
  unfoldable pub evict_over :
      ℕ → List (ℕ × Notification H) → NotificationStore H → NotificationStore H × List ℕ
  evict_over max_active [] s = (record s { active = [] }, [])
  evict_over max_active ((id, n) ∷ active) s =
      let rest = evict_over max_active active (evict_one (record s { active = active }) id n) in
      if leb (length ((id, n) ∷ active)) max_active
      then (record s { active = (id, n) ∷ active }, [])
      else (rest.0, id ∷ rest.1)

  unfoldable pub enforce_active_limit : NotificationStore H → NotificationStore H × List ℕ
  enforce_active_limit s =
      let max_active = min s.config.history.max_active active_hard_cap in
      if max_active == 0 then evict_all s.active s else evict_over max_active s.active s

  unfoldable pub should_show_popup : NotificationStore H → Notification H → Bool
  should_show_popup s n =
      if n.suppress_popup
      then false
      else popup_allowed_by_state (as_u8 n.urgency) (record {
        dnd_enabled = s.dnd_enabled;
        history_count = 0;
        inhibited = s.inhibited;
        inhibitor_count = s.inhibitor_count;
      })

  unfoldable pub should_play_sound : NotificationStore H → Notification H → Bool
  should_play_sound s n =
      if n.suppress_sound
      then false
      else if s.inhibited
      then false
      else if s.dnd_enabled
      then urgency_eq n.urgency Urgency.critical
      else true

  -- The new notification under its id: stale copies go, and it becomes the newest active one.
  unfoldable pub store_active : NotificationStore H → ℕ → Notification H → NotificationStore H
  store_active s id n = record s {
    active = insert id n (remove id s.active);
    history = (History.remove_entry s.history id).0;
    expirations = remove id s.expirations;
  }

  -- The id that a notification takes: the replaced one, or the next free one.
  unfoldable pub assign_id : NotificationStore H → Bool → ℕ → NotificationStore H × ℕ
  assign_id s replaced replaces_id = if replaced then (s, replaces_id) else next_id s

  unfoldable pub may_replace : NotificationStore H → Notification H → ℕ → Bool
  may_replace s n replaces_id =
      not (replaces_id == 0)
      && can_replace_notification_for_sender s replaces_id n.sender_name n.sender_pid
          n.sender_start_time

  unfoldable pub insert_dropped :
      NotificationStore H → Notification H → NotificationStore H × InsertOutcome H
  insert_dropped s n =
      let (s', id) = next_id s in
      (
        s',
        record {
          notification = record n { id = id };
          replaced = false;
          show_popup = false;
          allow_sound = false;
          evicted = [];
          dropped = true;
        },
      )

  unfoldable pub insert_kept :
      NotificationStore H → Notification H → ℕ → NotificationStore H × InsertOutcome H
  insert_kept s n replaces_id =
      let replaced = may_replace s n replaces_id in
      let (s', id) = assign_id s replaced replaces_id in
      let stored = record n { id = id } in
      let (s'', evicted) = enforce_active_limit (store_active s' id stored) in
      (
        s'',
        record {
          notification = stored;
          replaced = replaced;
          show_popup = should_show_popup s'' stored;
          allow_sound = should_play_sound s'' stored;
          evicted = evicted;
          dropped = false;
        },
      )

  unfoldable pub insert_notification :
      NotificationStore H → Notification H → ℕ → NotificationStore H × InsertOutcome H
  insert_notification s n replaces_id =
      let ruled = apply_rules s.config.rules n in
      if should_drop_inhibited s then insert_dropped s ruled else insert_kept s ruled replaces_id

  unfoldable pub close :
      NotificationStore H → ℕ → CloseReason → NotificationStore H × Option (Notification H)
  close s id reason =
      let removed = lookup id s.active in
      let s' = record s { active = remove id s.active; expirations = remove id s.expirations } in
      (elim removed [ none ↦ s' | some n ↦ push_history s' n reason ], removed)

  unfoldable pub dismiss_from_panel : NotificationStore H → ℕ → NotificationStore H × DismissOutcome
  dismiss_from_panel s id =
      let removed_active = is_some (lookup id s.active) in
      let (history, removed) = History.remove_entry s.history id in
      (
        record s {
          active = remove id s.active;
          expirations = (if removed_active then remove id s.expirations else s.expirations);
          history = history;
        },
        record { removed_active = removed_active; removed_history = is_some removed },
      )

  unfoldable pub drain_active_ids : NotificationStore H → NotificationStore H × List ℕ
  drain_active_ids s = (record s { active = []; expirations = [] }, reverse (keys s.active))

  unfoldable pub set_expiration : NotificationStore H → ℕ → Option ℕ → NotificationStore H
  set_expiration s id (some deadline) = record s { expirations = insert id deadline s.expirations }
  set_expiration s id none = record s { expirations = remove id s.expirations }

  unfoldable pub expiration_for : NotificationStore H → ℕ → Option ℕ
  expiration_for s id = lookup id s.expirations
