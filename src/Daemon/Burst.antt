-- ===== src/Daemon/Burst.antt =====
-- Limits on the signals that one sender may cause: crates/unixnotis-daemon/src/daemon/
-- signal_burst.rs. Times are nanoseconds of the monotonic clock; `now` enters as an argument, and
-- the mutex around the cache as the state passed.
pub mod Window
use unix_notis.Prelude.{
  length-keep_if-le, text_eq, ℕ, zero, suc, ◌+◌, ◌-◌, ◌^◌, ◌≤◌, ◌<◌, ◌≡◌, refl, sym, ap, ◌∙◌, ◌⊎◌,
  inl, inr, Bool, true, false, not, ◌&&◌, Option, none, some, List, [], ◌∷◌, ◌++◌, arith, length,
  keep_if, leb, ltb, ◌==◌, min, Text, Bool-cases, Option-cases, if◌then◌else◌,
}
use unix_notis.Prelude.Maps.{lookup, insert, contains_key, keys, elem}

pub data NotificationSignalMode : Type 0 where
  direct snapshot_only suppress : NotificationSignalMode

pub record NotificationBurstState : Type 0 where
  pub window_started : ℕ
  pub last_seen : ℕ
  pub count : ℕ  -- u16
  pub snapshot_emitted : Bool

-- `NOTIFICATION_SIGNAL_WINDOW`: one second.
abbrev pub signal_window : ℕ
signal_window = 1000000000

abbrev pub direct_signal_limit : ℕ
direct_signal_limit = 8

abbrev pub signal_track_limit : ℕ
signal_track_limit = 128

abbrev pub u16_max : ℕ
u16_max = 2 ^ 16 - 1

-- `duration_since` is zero for a later instant.
unfoldable pub retain_recent :
    ℕ → List (Text × NotificationBurstState) → List (Text × NotificationBurstState)
retain_recent now cache = keep_if (λ p. leb (now - p.1.last_seen) signal_window) cache

-- `or_insert_with`.
unfoldable pub entry_or_new : ℕ → Option NotificationBurstState → NotificationBurstState
entry_or_new now (some state) = state
entry_or_new now none = record {
  window_started = now;
  last_seen = now;
  count = 0;
  snapshot_emitted = false;
}

-- A fresh window, where the old one is over, and the event counted in it.
unfoldable pub count_event : ℕ → NotificationBurstState → NotificationBurstState
count_event now state =
    let fresh = ltb signal_window (now - state.window_started) in
    record {
      window_started = if fresh then now else state.window_started;
      last_seen = now;
      count = min ((if fresh then 0 else state.count) + 1) u16_max;
      snapshot_emitted = if fresh then false else state.snapshot_emitted;
    }

-- The mode of an event that has been counted; the first one over the limit marks its snapshot.
unfoldable pub mode_of : NotificationBurstState → NotificationBurstState × NotificationSignalMode
mode_of state =
    if leb state.count direct_signal_limit
    then (state, direct)
    else if not state.snapshot_emitted
    then (record state { snapshot_emitted = true }, snapshot_only)
    else (state, suppress)

unfoldable pub notification_signal_mode_for_sender :
    List (Text × NotificationBurstState)
    → Text
    → ℕ
    → List (Text × NotificationBurstState) × NotificationSignalMode
notification_signal_mode_for_sender cache sender now =
    let kept = retain_recent now cache in
    if leb signal_track_limit (length kept) && not (contains_key sender kept)
    then (kept, snapshot_only)
    else let (state, mode) = mode_of (count_event now (entry_or_new now (lookup sender kept))) in
      (insert sender state kept, mode)

pub length-insert :
    (sender : Text) (state : NotificationBurstState) (m : List (Text × NotificationBurstState))
    → length (insert sender state m) ≡ (if contains_key sender m then length m else length m + 1)
unfolding insert contains_key
length-insert sender state [] = refl
length-insert sender state ((k, v) ∷ m) = ground (arith, length-insert sender state m)

retain_recent-length-le :
    (now : ℕ) (cache : List (Text × NotificationBurstState))
    → length (retain_recent now cache) ≤ length cache
unfolding retain_recent
retain_recent-length-le now cache =
    length-keep_if-le (λ p. leb (now - p.1.last_seen) signal_window) cache

-- However many senders there are, at most 128 are tracked.
pub tracked-le :
    (cache : List (Text × NotificationBurstState)) (sender : Text) (now : ℕ)
    → length cache ≤ signal_track_limit
    → length (notification_signal_mode_for_sender cache sender now).0 ≤ signal_track_limit
unfolding notification_signal_mode_for_sender
tracked-le cache sender now h =
    let kept = retain_recent now cache in
    let fewer = retain_recent-length-le now cache in
    let counted = mode_of (count_event now (entry_or_new now (lookup sender kept))) in
    let grown = length-insert sender counted.0 kept in ground (arith, fewer, grown)
