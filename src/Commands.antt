-- ===== src/Commands.antt =====
-- The commands that widgets of the notification centre run: crates/unixnotis-center/src/ui/widgets/
-- utils/command/mod.rs and command_queue/. A duration is in milliseconds; `R` stands for the channel
-- that a result is sent to.
pub mod Coalesced
pub mod Delayed
pub mod Dispatch
pub mod Drain
use unix_notis.Prelude.{Bool, Option, Text, false, none, some, true, ℕ, ◌%◌, ◌*◌, ◌/◌}

pub data CommandKind : Type 0 where
  fast : CommandKind
  slow : CommandKind
  action : CommandKind

abbrev pub kind_beq : CommandKind → CommandKind → Bool
kind_beq fast fast = true
kind_beq fast slow = false
kind_beq fast action = false
kind_beq slow fast = false
kind_beq slow slow = true
kind_beq slow action = false
kind_beq action fast = false
kind_beq action slow = false
kind_beq action action = true

pub record CommandPlan : Type 0 where
  pub kind : CommandKind
  pub timeout_override : Option ℕ

unfoldable pub timeout : CommandPlan → ℕ
timeout plan = elim plan.timeout_override [
  | some limit ↦ limit
  | none ↦ elim plan.kind [ fast ↦ 350 | slow ↦ 800 | action ↦ 1200 ]
]

-- From the nanoseconds of the clock.
unfoldable pub jitter : CommandPlan → ℕ → ℕ
jitter plan nanos = elim plan.kind [
  | slow ↦ nanos % (200 * 1000000) / 1000000
  | fast ↦ 0
  | action ↦ 0
]

pub record CommandJob (R : Type 0) : Type 0 where
  pub cmd : Text
  pub plan : CommandPlan
  pub respond : Option R
  pub queued_at : ℕ
