-- ===== src/Examples/DaemonTests.antt =====
-- Tests of the daemon's theorems.
use unix_notis.Config.{max_history_entries}
use unix_notis.Daemon.Burst.{retain_recent, signal_track_limit}
use unix_notis.Daemon.Burst.Window.{Within, modes_from, signal_modes}
use unix_notis.Daemon.Expire.{Scheduler, wake}
use unix_notis.Daemon.Expire.Queue.{has_item}
use unix_notis.Daemon.Notify.{notify}
use unix_notis.Daemon.Reachable.{notified, started, stepped, Good, Reachable}
use unix_notis.Prelude.Maps.{contains_key, elem, lookup}
use unix_notis.Store.{missing, NotificationStore, new_with_state_store}
use unix_notis.Store.Lifecycle.{expiration_for}
use unix_notis.Prelude.{
  nat_eq, text_eq, if◌then◌else◌, ℕ, ◌≤◌, ◌<◌, ◌≡◌, refl, ◌↔◌, true, false, none, some, [], ◌∷◌,
  arith,
}
use unix_notis.Examples.{busy, fresh, config, bus_one}
use unix_notis.Daemon.Expire.Queue
use unix_notis.Prelude.{length}
use unix_notis.Daemon.Reachable.{Reachable-Good}
use unix_notis.Daemon.Expire.Wake.{wake_lem}
use unix_notis.Daemon.Burst.Window.{signal_modes-first}

-- The state after one notification.
abbrev first : NotificationStore ℕ
first = (notify (new_with_state_store config none missing) fresh 0 100).0

first-Reachable : Reachable config none missing first
first-Reachable =
    stepped (new_with_state_store config none missing) first started (notified fresh 0 100)

sane : config.history.max_entries ≤ max_history_entries
sane = omega arith

keeps_some : 0 < config.history.max_active
keeps_some = omega arith

-- A queue with the timer of notification 1, and a stale item.
abbrev queue : Scheduler
queue = record { heap = (2, 300) ∷ (1, 500) ∷ []; scheduled = (1, 500) ∷ [] }

queue-IsValid : Queue.IsValid queue
unfolding lookup has_item
queue-IsValid = record { covered = λ id deadline h. ground (arith, h); ordered = (omega arith, tt) }

none_tracked : contains_key bus_one (retain_recent 1000 []) ≡ false
unfolding contains_key retain_recent
none_tracked = refl

space : length (retain_recent 1000 []) < signal_track_limit
unfolding retain_recent
space = omega arith

within : Within 1000 (2000 ∷ 3000 ∷ [])
within = (omega arith, omega arith, (omega arith, omega arith, tt))

Reachable-Good_example : Good config first
Reachable-Good_example = Reachable-Good config none missing first sane keeps_some first-Reachable

wake_lem_example :
    let (q', t, ids) = wake 600 queue busy in
    Queue.IsValid q'
    × ((elem 1 ids ≡ true) ↔ (
        (d : ℕ) × (lookup 1 queue.scheduled ≡ some d)
        × (expiration_for busy 1 ≡ some d)
        × (d ≤ 600)))
    × (lookup 1 t.active ≡ (if elem 1 ids then none else lookup 1 busy.active))
wake_lem_example = wake_lem 600 1 queue busy queue-IsValid

signal_modes-first_example :
    signal_modes [] bus_one (1000 ∷ (2000 ∷ 3000 ∷ [])) ≡ modes_from 1 (1000 ∷ (2000 ∷ 3000 ∷ []))
signal_modes-first_example =
    signal_modes-first [] bus_one 1000 (2000 ∷ 3000 ∷ []) none_tracked space within
