-- ===== src/Store/Identity.antt =====
-- Ids and ownership: crates/unixnotis-daemon/src/store/store_identity.rs. Ids are `u32`, process
-- ids `u32`, start times `u64`.
pub mod Fresh
pub mod Ownership
use unix_notis.Prelude.{
  nat_eq, text_beq, ℕ, zero, suc, ◌+◌, ◌%◌, ◌^◌, max, Bool, true, false, not, ◌&&◌, ◌||◌, Option,
  none, some, List, [], ◌∷◌, Text, length, ◌==◌, if◌then◌else◌,
}
use unix_notis.Prelude.Maps.{lookup, contains_key}
use unix_notis.Model.{Notification}
use unix_notis.History
use unix_notis.History.{HistoryStore}
use unix_notis.Store.{NotificationStore, saturating_add}

abbrev pub u32_mod : ℕ
u32_mod = 2 ^ 32

-- `wrapping_add(1)`, with 1 in place of 0.
unfoldable pub bump : ℕ → ℕ
bump id = let next = (id + 1) % u32_mod in if next == 0 then 1 else next

-- `caller == owner`, both present.
abbrev pub same_text : Option Text → Option Text → Bool
same_text (some a) (some b) = text_beq a b
same_text (some a) none = false
same_text none b = false

abbrev pub same_number : Option ℕ → Option ℕ → Bool
same_number (some a) (some b) = a == b
same_number (some a) none = false
same_number none b = false

module _ {H : Type 0} where
  unfoldable pub notification_is_owned_by :
      Notification H → Option Text → Option ℕ → Option ℕ → Bool
  notification_is_owned_by n sender sender_pid sender_start_time =
      if same_text sender n.sender_name
      then true
      else if same_number sender_pid n.sender_pid
          && same_number sender_start_time n.sender_start_time
      then true
      else false

  unfoldable pub is_notification_owned_by :
      NotificationStore H → ℕ → Text → Option ℕ → Option ℕ → Bool
  is_notification_owned_by s id sender sender_pid sender_start_time = elim (lookup id s.active) [
    | none ↦ false
    | some n ↦ notification_is_owned_by n (some sender) sender_pid sender_start_time
  ]

  -- `self.active.get(&id).or_else(|| self.history.get(&id))`.
  unfoldable pub find_notification : NotificationStore H → ℕ → Option (Notification H)
  find_notification s id = elim (lookup id s.active) [
    | none ↦ History.get s.history id
    | some n ↦ some n
  ]

  unfoldable pub can_replace_notification_for_sender :
      NotificationStore H → ℕ → Option Text → Option ℕ → Option ℕ → Bool
  can_replace_notification_for_sender s id sender sender_pid sender_start_time =
      elim (find_notification s id) [
        | none ↦ false
        | some n ↦ notification_is_owned_by n sender sender_pid sender_start_time
      ]

  unfoldable pub is_used : NotificationStore H → ℕ → Bool
  is_used s id = contains_key id s.active || History.contains s.history id

  -- The `for` loop of `next_id`: at most so many candidates, from the given one.
  unfoldable pub search_id : NotificationStore H → ℕ → ℕ → Option ℕ
  search_id s zero candidate = none
  search_id s (suc attempts) candidate =
      let rest = search_id s attempts (bump candidate) in
      if not (is_used s candidate) then some candidate else rest

  unfoldable pub max_attempts : NotificationStore H → ℕ
  max_attempts s =
      let used = saturating_add (length s.active) (History.len s.history) in
      max (saturating_add used 1) 1

  unfoldable pub next_id : NotificationStore H → NotificationStore H × ℕ
  next_id s =
      let start = max s.next_id 1 in
      elim (search_id s (max_attempts s) start) [
        | some candidate ↦ (record s { next_id = bump candidate }, candidate)
        | none ↦ (record s { next_id = bump start }, start)
      ]
