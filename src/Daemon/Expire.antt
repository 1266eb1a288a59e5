-- ===== src/Daemon/Expire.antt =====
-- The expiration scheduler: crates/unixnotis-daemon/src/expire.rs. The binary heap is the list of
-- its items in the order in which it pops them, earliest deadline first (among equal deadlines the
-- code promises no order; the model has the newest first). The scheduler's own close of a
-- notification is the store's; the command that this close sends back to the scheduler's queue is
-- an ordinary `Cancel`, received later. No other task takes the store's lock in the middle of a
-- wake-up.
pub mod Queue
pub mod Due
pub mod Wake
use unix_notis.Prelude.{
  nat_eq, ℕ, zero, suc, ◌+◌, ◌*◌, ◌≤◌, ◌<◌, ◌≡◌, refl, sym, ap, ◌∙◌, ◌⊎◌, inl, inr, Bool, true,
  false, not, ◌&&◌, Option, none, some, List, [], ◌∷◌, ◌++◌, arith, length, min, leb, ltb, ◌==◌,
  max, Bool-cases, Option-cases, if◌then◌else◌,
}
use unix_notis.Prelude.Maps.{lookup, insert, remove, keys, elem}
use unix_notis.Model.Control.{CloseReason, expired}
use unix_notis.Store.{NotificationStore, u64_max}
use unix_notis.Store.Lifecycle.{close, expiration_for}

pub data ExpirationCommand : Type 0 where
  schedule : ℕ → ℕ → ExpirationCommand
  cancel : ℕ → ExpirationCommand

-- An id and its deadline.
abbrev pub ExpirationItem : Type 0
ExpirationItem = ℕ × ℕ

-- `BinaryHeap::push`.
unfoldable pub push : ExpirationItem → List ExpirationItem → List ExpirationItem
push item [] = item ∷ []
push item (other ∷ heap) =
    if leb item.1 other.1 then item ∷ other ∷ heap else other ∷ push item heap

-- The heap, and the latest deadline of each id.
pub record Scheduler : Type 0 where
  pub heap : List ExpirationItem
  pub scheduled : List (ℕ × ℕ)

unfoldable pub apply_command : ExpirationCommand → Scheduler → Scheduler
apply_command (schedule id deadline) q = record {
  scheduled = insert id deadline q.scheduled;
  heap = push (id, deadline) q.heap;
}
apply_command (cancel id) q = record q { scheduled = remove id q.scheduled }

unfoldable pub rebuild : List (ℕ × ℕ) → List ExpirationItem
rebuild [] = []
rebuild (item ∷ scheduled) = push item (rebuild scheduled)

unfoldable pub maybe_compact : Scheduler → Scheduler
unfolding rebuild
maybe_compact q =
    let live = length q.scheduled in
    if live == 0
    then record q { heap = [] }
    else if leb (length q.heap) (max (min (live * 4) u64_max) 128)
    then q
    else record q { heap = rebuild q.scheduled }

-- `map(|d| *d == item.deadline).unwrap_or(false)`.
unfoldable pub is_deadline : ℕ → Option ℕ → Bool
is_deadline deadline none = false
is_deadline deadline (some d) = d == deadline

module _ {H : Type 0} where
  -- One popped item (the code's second look at `scheduled` finds what the first one found): what is
  -- scheduled and stored after it, and whether it closed its notification.
  unfoldable pub fire :
      ExpirationItem
      → List (ℕ × ℕ)
      → NotificationStore H
      → List (ℕ × ℕ) × NotificationStore H × Bool
  fire (id, deadline) scheduled s =
      if not (is_deadline deadline (lookup id scheduled))
      then (scheduled, s, false)
      else if is_deadline deadline (expiration_for s id)
      then (remove id scheduled, (close s id expired).0, true)
      else (remove id scheduled, s, false)

  -- The loop of a wake-up at `now`: pop while due. The ids closed, in order, come with it.
  unfoldable pub fire_due :
      ℕ
      → List ExpirationItem
      → List (ℕ × ℕ)
      → NotificationStore H
      → Scheduler × NotificationStore H × List ℕ
  fire_due now [] scheduled s = (record { heap = []; scheduled = scheduled }, s, [])
  fire_due now ((id, deadline) ∷ heap) scheduled s =
      let (scheduled', s', closed) = fire (id, deadline) scheduled s in
      let (q, t, ids) = fire_due now heap scheduled' s' in
      if ltb now deadline
      then (record { heap = (id, deadline) ∷ heap; scheduled = scheduled }, s, [])
      else (q, t, if closed then id ∷ ids else ids)

  -- A wake-up at `now`.
  unfoldable pub wake :
      ℕ → Scheduler → NotificationStore H → Scheduler × NotificationStore H × List ℕ
  wake now q s = let (q', t, ids) = fire_due now q.heap q.scheduled s in (maybe_compact q', t, ids)
