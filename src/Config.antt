-- ===== src/Config.antt =====
-- The part of the configuration that the daemon's store reads: crates/unixnotis-core/src/config/
-- types.rs, layout/popup.rs and rules.rs, and the bounds that sanitize/pipeline.rs puts on it.
use unix_notis.Prelude.{ℕ, min, Bool, Option, none, some, List, Text, if◌then◌else◌, ◌==◌}
use unix_notis.Prelude.Int.{ℤ}
use unix_notis.Model.{Urgency}

pub data RuleUrgency : Type 0 where
  low normal critical : RuleUrgency

-- `RuleUrgency::from_u8`; the error text is not kept.
unfoldable pub from_u8 : ℕ → Option RuleUrgency
from_u8 value =
    if value == 0
    then some low
    else if value == 1
    then some normal
    else if value == 2
    then some critical
    else none

unfoldable pub rule_as_u8 : RuleUrgency → ℕ
rule_as_u8 low = 0
rule_as_u8 normal = 1
rule_as_u8 critical = 2

unfoldable pub to_urgency : RuleUrgency → Urgency
to_urgency low = Urgency.low
to_urgency normal = Urgency.normal
to_urgency critical = Urgency.critical

pub record RuleConfig : Type 0 where
  pub name : Option Text
  pub app : Option Text
  pub summary : Option Text
  pub body : Option Text
  pub category : Option Text
  pub urgency : Option RuleUrgency
  pub no_popup : Option Bool
  pub silent : Option Bool
  pub force_urgency : Option RuleUrgency
  pub expire_timeout_ms : Option ℤ
  pub resident : Option Bool
  pub transient : Option Bool

pub data InhibitMode : Type 0 where
  no_popups drop_all : InhibitMode

pub record HistoryConfig : Type 0 where
  pub max_entries : ℕ
  pub max_active : ℕ
  pub transient_to_history : Bool

-- Of `PopupConfig`, the two timeouts, in milliseconds.
pub record PopupConfig : Type 0 where
  pub default_timeout_ms : ℕ
  pub critical_timeout_ms : Option ℕ

-- `general.dnd_default` and `inhibit.mode` stand here without their one-field records.
pub record Config : Type 0 where
  pub dnd_default : Bool
  pub inhibit_mode : InhibitMode
  pub popups : PopupConfig
  pub history : HistoryConfig
  pub rules : List RuleConfig

abbrev pub max_history_entries : ℕ
max_history_entries = 5000

abbrev pub max_history_active : ℕ
max_history_active = 12

unfoldable pub sanitize_history : Config → Config
sanitize_history config =
    let active = min config.history.max_active max_history_active in
    let entries = min config.history.max_entries max_history_entries in
    record config {
      history = record (config.history) { max_entries = entries; max_active = min active entries };
    }
