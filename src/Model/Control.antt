-- ===== src/Model/Control.antt =====
-- The control-plane state and the two policies that daemon and clients share:
-- crates/unixnotis-core/src/control.rs.
use unix_notis.Prelude.{ℕ, Bool, true, false, ◌&&◌, not, ◌==◌, if◌then◌else◌}

pub record ControlState : Type 0 where
  pub dnd_enabled : Bool
  pub history_count : ℕ
  pub inhibited : Bool
  pub inhibitor_count : ℕ

pub record PopupGateState : Type 0 where
  pub dnd_enabled : Bool
  pub inhibited : Bool

pub data CloseReason : Type 0 where
  expired dismissed_by_user closed_by_call undefined : CloseReason

-- `Urgency::Critical as u8`.
abbrev critical_u8 : ℕ
critical_u8 = 2

unfoldable pub popup_allowed_by_state : ℕ → ControlState → Bool
popup_allowed_by_state urgency state =
    if state.inhibited then false else if state.dnd_enabled then urgency == critical_u8 else true

abbrev is_dismissed : CloseReason → Bool
is_dismissed dismissed_by_user = true
is_dismissed _ = false

unfoldable pub should_archive_closed_notification : CloseReason → Bool → Bool → Bool
should_archive_closed_notification reason is_transient transient_to_history =
    if is_dismissed reason
    then false
    else if is_transient && not transient_to_history
    then false
    else true

pub data PanelDebugLevel : Type 0 where
  off critical warn info verbose : PanelDebugLevel

-- The discriminants, by which the derived order compares.
abbrev debug_rank : PanelDebugLevel → ℕ
debug_rank off = 0
debug_rank critical = 1
debug_rank warn = 2
debug_rank info = 3
debug_rank verbose = 4
