-- ===== src/Store.antt =====
-- The notification store's state, its do-not-disturb switch and its queries:
-- crates/unixnotis-daemon/src/store.rs. `&mut self` is a state passed and returned.
pub mod Inhibit
pub mod Identity
pub mod Lifecycle
pub mod Dnd
use unix_notis.Prelude.{
  nat_eq, ℕ, ◌+◌, ◌-◌, ◌^◌, min, Bool, true, false, not, ◌||◌, Option, none, some, List, [], ◌∷◌,
  map, reverse, Text, length, ◌==◌, if◌then◌else◌,
}
use unix_notis.Prelude.Maps.{lookup, values}
use unix_notis.Model.{Notification, NotificationView, to_view, to_list_view}
use unix_notis.Config.{Config}
use unix_notis.History.{HistoryStore}
use unix_notis.History

pub record Inhibitor : Type 0 where
  pub id : ℕ
  pub owner : Text
  pub reason : Text
  pub scope : ℕ

-- The persistence backend is its path; reading and writing it is I/O, and enters as arguments.
pub record DndStateStore : Type 0 where
  pub path : Text

pub record PersistedDndState : Type 0 where
  pub version : ℕ
  pub dnd_enabled : Bool

-- What `DndStateStore::load` may bring.
pub data Loaded : Type 0 where
  found : PersistedDndState → Loaded
  missing : Loaded
  failed : Loaded

pub record NotificationStore (H : Type 0) : Type 0 where
  pub config : Config
  pub next_id : ℕ  -- u32
  pub active : List (ℕ × Notification H)
  pub history : HistoryStore H
  pub expirations : List (ℕ × ℕ)
  pub dnd_enabled : Bool
  pub dnd_revision : ℕ  -- u64
  pub dnd_state_store : Option DndStateStore
  pub next_inhibitor_id : ℕ  -- u64
  pub inhibitors : List (ℕ × Inhibitor)
  pub inhibited : Bool
  pub inhibitor_count : ℕ  -- u32

pub record DndWrite : Type 0 where
  pub changed : Bool
  pub previous : Bool
  pub current : Bool
  pub revision : ℕ
  pub persist : Option DndStateStore

pub record DismissOutcome : Type 0 where
  pub removed_active : Bool
  pub removed_history : Bool

abbrev pub removed_any : DismissOutcome → Bool
removed_any outcome = outcome.removed_active || outcome.removed_history

abbrev pub u64_max : ℕ
u64_max = 2 ^ 64 - 1

-- `u64::saturating_add` and, on a 64-bit target, `usize::saturating_add`.
unfoldable pub saturating_add : ℕ → ℕ → ℕ
saturating_add a b = min (a + b) u64_max

abbrev pub dnd_state_version : ℕ
dnd_state_version = 1

-- Only a state of the known version replaces the configured default.
unfoldable pub initial_dnd : Config → Option DndStateStore → Loaded → Bool
initial_dnd config none loaded = config.dnd_default
initial_dnd config (some store) (found state) =
    if state.version == dnd_state_version then state.dnd_enabled else config.dnd_default
initial_dnd config (some store) missing = config.dnd_default
initial_dnd config (some store) failed = config.dnd_default

unfoldable pub bool_eq : Bool → Bool → Bool
bool_eq true b = b
bool_eq false b = not b

module _ {H : Type 0} where
  unfoldable pub new_with_state_store : Config → Option DndStateStore → Loaded → NotificationStore H
  new_with_state_store config store loaded = record {
    config = config;
    next_id = 1;
    active = [];
    history = History.new;
    expirations = [];
    dnd_enabled = initial_dnd config store loaded;
    dnd_revision = 0;
    dnd_state_store = store;
    next_inhibitor_id = 1;
    inhibitors = [];
    inhibited = false;
    inhibitor_count = 0;
  }

  unfoldable pub write_dnd : NotificationStore H → Bool → NotificationStore H × DndWrite
  unfolding bool_eq
  write_dnd s enabled =
      if bool_eq s.dnd_enabled enabled
      then (
        s,
        record {
          changed = false;
          previous = s.dnd_enabled;
          current = s.dnd_enabled;
          revision = s.dnd_revision;
          persist = none;
        },
      )
      else let revision = saturating_add s.dnd_revision 1 in
        (
          record s { dnd_enabled = enabled; dnd_revision = revision },
          record {
            changed = true;
            previous = s.dnd_enabled;
            current = enabled;
            revision = revision;
            persist = s.dnd_state_store;
          },
        )

  unfoldable pub set_dnd : NotificationStore H → Bool → NotificationStore H × DndWrite
  set_dnd s enabled = write_dnd s enabled

  unfoldable pub toggle_dnd : NotificationStore H → NotificationStore H × DndWrite
  toggle_dnd s = write_dnd s (not s.dnd_enabled)

  unfoldable pub rollback_dnd_write_if_current :
      NotificationStore H → DndWrite → NotificationStore H × Bool
  unfolding bool_eq
  rollback_dnd_write_if_current s write =
      if not write.changed
      then (s, false)
      else if not (s.dnd_revision == write.revision) || not (bool_eq s.dnd_enabled write.current)
      then (s, false)
      else (
        record s { dnd_enabled = write.previous; dnd_revision = saturating_add s.dnd_revision 1 },
        true,
      )

  unfoldable pub list_active : NotificationStore H → List NotificationView
  list_active s = map to_list_view (reverse (values s.active))

  unfoldable pub list_history : NotificationStore H → List NotificationView
  list_history s = History.list_views s.history

  unfoldable pub active_notification_view : NotificationStore H → ℕ → Option NotificationView
  active_notification_view s id = elim (lookup id s.active) [
    | none ↦ none
    | some n ↦ some (to_view n)
  ]

  unfoldable pub history_len : NotificationStore H → ℕ
  history_len s = History.len s.history

  unfoldable pub clear_history : NotificationStore H → NotificationStore H
  clear_history s = record s { history = History.clear s.history }
