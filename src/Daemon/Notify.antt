-- ===== src/Daemon/Notify.antt =====
-- The `Notify` call on the store, and the timeout it resolves: crates/unixnotis-daemon/src/daemon/
-- notifications.rs and notifications/payload.rs. Times are milliseconds of the monotonic clock.
use unix_notis.Prelude.{
  nat_eq, ℕ, ◌+◌, ◌<◌, ◌≡◌, inl, inr, Bool, false, ◌||◌, Option, none, some, arith, ◌==◌,
  Bool-cases, if◌then◌else◌,
}
use unix_notis.Prelude.Int.{ℤ, pos, negsuc}
use unix_notis.Model.{Notification, Urgency}
use unix_notis.Config.{Config}
use unix_notis.Store.{NotificationStore}
use unix_notis.Store.Lifecycle.{InsertOutcome, insert_notification, set_expiration}

-- The default timeouts by urgency; `?` on the critical one returns `None` at once.
unfoldable pub default_timeout : Config → Urgency → Option ℕ
default_timeout config Urgency.critical = config.popups.critical_timeout_ms
default_timeout config Urgency.low = some config.popups.default_timeout_ms
default_timeout config Urgency.normal = some config.popups.default_timeout_ms

-- `expire_timeout` in milliseconds: positive values are the caller's, negative ones ask for the
-- default.
unfoldable pub timeout_ms : Config → Urgency → ℤ → Option ℕ
timeout_ms config urgency (pos milliseconds) = some milliseconds
timeout_ms config urgency (negsuc k) = default_timeout config urgency

abbrev pub is_zero : ℤ → Bool
is_zero (pos n) = n == 0
is_zero (negsuc n) = false

-- The deadline after `now`, where the timeout is not zero.
unfoldable pub deadline_after : ℕ → Option ℕ → Option ℕ
deadline_after now none = none
deadline_after now (some milliseconds) =
    if milliseconds == 0 then none else some (now + milliseconds)

deadline_after-lt :
    (now deadline : ℕ) (timeout : Option ℕ)
    → deadline_after now timeout ≡ some deadline
    → now < deadline
unfolding deadline_after
deadline_after-lt now deadline none h = cc
deadline_after-lt now deadline (some milliseconds) h = ground (arith, h)

module _ {H : Type 0} where
  unfoldable pub resolve_expiration : Config → Notification H → ℕ → Option ℕ
  resolve_expiration config n now =
      if is_zero n.expire_timeout || n.is_resident
      then none
      else deadline_after now (timeout_ms config n.urgency n.expire_timeout)

  -- What `notify` does under the store's lock, and the timer it hands to the scheduler.
  unfoldable pub notify :
      NotificationStore H
      → Notification H
      → ℕ
      → ℕ
      → NotificationStore H × InsertOutcome H × Option ℕ
  notify s n replaces_id now =
      let (t, outcome) = insert_notification s n replaces_id in
      let expiration = resolve_expiration t.config outcome.notification now in
      if outcome.dropped
      then (t, outcome, none)
      else (set_expiration t outcome.notification.id expiration, outcome, expiration)

  -- A timer is set only for a notification that is not resident and whose timeout is not zero, and
  -- never for the present or the past.
  pub resolve_expiration_lem :
      (config : Config) (n : Notification H) (now deadline : ℕ)
      → resolve_expiration config n now ≡ some deadline
      → (now < deadline) × (n.is_resident ≡ false) × (is_zero n.expire_timeout ≡ false)
  unfolding resolve_expiration
  resolve_expiration_lem config n now deadline h =
      let timeout = timeout_ms config n.urgency n.expire_timeout in
      elim (Bool-cases (is_zero n.expire_timeout || n.is_resident)) [
        | inl never ↦ cc (rw never at h)
        | inr timed ↦ (
          deadline_after-lt now deadline timeout (rw timed at h),
          ground (arith, timed),
          ground (arith, timed),
        )
      ]
