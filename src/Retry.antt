-- ===== src/Retry.antt =====
-- Delays between attempts, in milliseconds: `Backoff` and `RetryLog` of crates/unixnotis-popups/src/
-- dbus/dbus_backoff.rs and crates/unixnotis-center/src/dbus/dbus_backoff.rs, and `RestartBackoff` of
-- crates/unixnotis-daemon/src/child_process/mod.rs. The clock is an argument of what reads it, and so
-- is the value drawn for a jitter.
pub mod Bounds
pub mod Refresh
use Prim.Native.Nat.{bit_or, bit_xor}
use unix_notis.Prelude.{
  Bool, false, if◌then◌else◌, leb, min, true, ℕ, ◌%◌, ◌*◌, ◌+◌, ◌-◌, ◌/◌, ◌==◌, ◌^◌,
}

abbrev pub backoff_jitter_ms : ℕ
backoff_jitter_ms = 120

pub record Backoff : Type 0 where
  pub base : ℕ
  pub current : ℕ
  pub max_delay : ℕ

unfoldable pub new_backoff : ℕ → ℕ → Backoff
new_backoff base_ms max_ms = record { base = base_ms; current = base_ms; max_delay = max_ms }

unfoldable pub reset : Backoff → Backoff
reset b = record b { current = b.base }

-- One round of xorshift64*, from the stored state and the clock's nanoseconds: an unset state takes
-- them, with the lowest bit set.
unfoldable pub next_jitter_seed : ℕ → ℕ → ℕ
next_jitter_seed nanos state =
    let v0 = if state == 0 then bit_or nanos 1 else state in
    let v1 = bit_xor v0 (v0 / 2 ^ 12) in
    let v2 = bit_xor v1 (v1 * 2 ^ 25 % 2 ^ 64) in
    let v3 = bit_xor v2 (v2 / 2 ^ 27) in v3 * 2685821657736338717 % 2 ^ 64

unfoldable pub jitter_duration : ℕ → ℕ → ℕ
jitter_duration max_ms drawn = if max_ms == 0 then 0 else drawn % max_ms

unfoldable pub advance : Backoff → Backoff
advance b = record b { current = min (b.current * 2) b.max_delay }

-- The popup client's and the notification centre's delay.
unfoldable pub next_sleep : ℕ → Backoff → ℕ × Backoff
next_sleep drawn b =
    (min (b.current + jitter_duration backoff_jitter_ms drawn) b.max_delay, advance b)

unfoldable pub center_next_sleep : ℕ → Backoff → ℕ × Backoff
center_next_sleep drawn b = (b.current + jitter_duration backoff_jitter_ms drawn, advance b)

pub record RetryLog : Type 0 where
  pub interval : ℕ
  pub last_warn : ℕ

-- The source stops the program where the clock is smaller than the interval.
unfoldable pub reset_log : ℕ → RetryLog → RetryLog
reset_log now log = record log { last_warn = now - log.interval }

unfoldable pub new_log : ℕ → ℕ → RetryLog
new_log now interval = reset_log now (record { interval = interval; last_warn = now })

-- Whether the message is a warning, and the log after it.
unfoldable pub log_with : ℕ → RetryLog → Bool × RetryLog
log_with now log =
    if leb log.interval (now - log.last_warn)
    then (true, record log { last_warn = now })
    else (false, log)

abbrev pub restart_base_ms : ℕ
restart_base_ms = 250

abbrev pub restart_max_ms : ℕ
restart_max_ms = 5000

abbrev pub healthy_runtime_secs : ℕ
healthy_runtime_secs = 30

-- The delay before a child process is started again, and the next `current`.
unfoldable pub next_delay : ℕ → ℕ → ℕ × ℕ
next_delay runtime current =
    if leb (healthy_runtime_secs * 1000) runtime
    then (0, 0)
    else let delay = if current == 0 then restart_base_ms else current in
      (delay, min (delay * 2) restart_max_ms)
