-- ===== src/Daemon/Frames.antt =====
-- What each operation of the daemon leaves valid, and which settings it leaves alone.
use unix_notis.Prelude.{
  length-append, nat_eq, ℕ, zero, suc, ◌-◌, ◌%◌, ◌≤◌, ◌<◌, ◌≡◌, refl, subst, sym, ap, ◌∙◌, inl, inr,
  Bool, true, false, Option, none, some, List, [], ◌∷◌, ◌++◌, arith, length, drop, any, Bool-cases,
  Option-cases,
}
use unix_notis.Prelude.Maps.{elem, keys, values, remove, insert, lookup, Distinct}
use unix_notis.Model.{Notification}
use unix_notis.Model.Control.{CloseReason}
use unix_notis.Store.{NotificationStore, Inhibitor}
use unix_notis.Store.Inhibit.{should_drop_inhibited, u32_mod}
use unix_notis.Store.Inhibit.Cache.{CacheValid}
use unix_notis.Store.Lifecycle.{insert_notification, close, set_expiration, push_history}
use unix_notis.Store.Lifecycle.Evict.{active_limit, push_history-frame}
use unix_notis.Store.Lifecycle.Invariant.{IsValid}
use unix_notis.Store.Lifecycle.Insert.{insert_notification-IsValid}
use unix_notis.Store.Lifecycle.Close.{deactivate, close-none, close-some}
use unix_notis.Store.Lifecycle.Remove.{set_expiration-IsValid}
use unix_notis.Store.Lifecycle.Outcome.{insert-active}
use unix_notis.Store.Lifecycle.Gates.{
  SameSettings, SameSettings-trans, insert_notification-SameSettings,
}
use unix_notis.Daemon.Notify.{notify, resolve_expiration}
use unix_notis.History.{HistoryStore}
use unix_notis.Store.Lifecycle.{insert_dropped}
use unix_notis.Store.Inhibit.{inhibits_popups}

-- The newest entry stays, if any stays.
newest_stays {ℓ} :
    {V : Type ℓ} (j k : ℕ) (v : V) (m : List (ℕ × V))
    → j ≤ length m
    → elem k (keys (drop j (m ++ (k, v) ∷ []))) ≡ true
unfolding elem keys
newest_stays zero k v [] h = ground arith
newest_stays zero k v (p ∷ m) h = ground (arith, newest_stays zero k v m (omega arith))
newest_stays (suc j) k v [] h = absurd (omega (arith, h))
newest_stays (suc j) k v (p ∷ m) h = newest_stays j k v m (omega (arith, h))

module _ {H : Type 0} where
  pub SameSettings-CacheValid :
      (s t : NotificationStore H) → SameSettings s t → CacheValid s → CacheValid t
  SameSettings-CacheValid s t same v = record {
    count = same.inhibitor_count ∙ v.count ∙ ap (λ m. length m % u32_mod) (sym same.inhibitors);
    flag =
        same.inhibited
        ∙ v.flag
        ∙ ap (λ m. any (λ i. inhibits_popups i.scope) (values m)) (sym same.inhibitors);
    distinct = subst (λ m. Distinct (keys m)) (sym same.inhibitors) v.distinct;
    below = λ room k h.
        let lower =
          v.below (omega (arith, room, same.next_inhibitor_id)) k
            (ap (λ m. elem k (keys m)) (sym same.inhibitors) ∙ h) in
        omega (arith, lower, same.next_inhibitor_id);
  }

  -- Other lists and timers under the same settings.
  pub with_lists-SameSettings :
      (s : NotificationStore H) (active : List (ℕ × Notification H)) (history : HistoryStore H)
      (timers : List (ℕ × ℕ))
      → SameSettings s (record s { active = active; history = history; expirations = timers })
  with_lists-SameSettings s active history timers = record {
    config = refl;
    dnd_enabled = refl;
    dnd_revision = refl;
    dnd_state_store = refl;
    next_inhibitor_id = refl;
    inhibitors = refl;
    inhibited = refl;
    inhibitor_count = refl;
  }

  pub close-SameSettings :
      (s : NotificationStore H) (id : ℕ) (reason : CloseReason)
      → SameSettings s (close s id reason).0
  close-SameSettings s id reason = elim (Option-cases (lookup id s.active)) [
    | inl e ↦
        rw (close-none s id reason e)
          (with_lists-SameSettings s (remove id s.active) s.history (remove id s.expirations))
    | inr (n, e) ↦ rw (close-some s id reason n e) (
        rw (push_history-frame (deactivate s id) n reason) (
          with_lists-SameSettings s (remove id s.active)
            (push_history (deactivate s id) n reason).history (remove id s.expirations)))
  ]

  set_expiration-SameSettings :
      (s : NotificationStore H) (id : ℕ) (deadline : Option ℕ)
      → SameSettings s (set_expiration s id deadline)
  unfolding set_expiration
  set_expiration-SameSettings s id none =
      with_lists-SameSettings s s.active s.history (remove id s.expirations)
  set_expiration-SameSettings s id (some d) =
      with_lists-SameSettings s s.active s.history (insert id d s.expirations)

  -- Validity does not look at do-not-disturb and inhibitors.
  pub with_settings-IsValid :
      (s : NotificationStore H) (enabled : Bool) (revision next : ℕ)
      (inhibitors : List (ℕ × Inhibitor)) (inhibited : Bool) (count : ℕ)
      → IsValid s
      → IsValid (record s {
        dnd_enabled = enabled;
        dnd_revision = revision;
        next_inhibitor_id = next;
        inhibitors = inhibitors;
        inhibited = inhibited;
        inhibitor_count = count;
      })
  with_settings-IsValid s enabled revision next inhibitors inhibited count v = record {
    sound = record {
      active_distinct = v.sound.active_distinct;
      active_keyed = v.sound.active_keyed;
      history_fits = record {
        valid = v.sound.history_fits.valid;
        bounded = v.sound.history_fits.bounded;
      };
      apart = v.sound.apart;
      timers = v.sound.timers;
      next_id_IsId = v.sound.next_id_IsId;
    };
    active_bounded = v.active_bounded;
    entries_sane = v.entries_sane;
  }

  insert-newest :
      (s : NotificationStore H) (n : Notification H) (replaces_id : ℕ)
      → IsValid s
      → 0 < active_limit s
      → should_drop_inhibited s ≡ false
      → let (t, outcome) = insert_notification s n replaces_id in
        elem outcome.notification.id (keys t.active) ≡ true
  insert-newest s n replaces_id v some_room kept =
      let o = (insert_notification s n replaces_id).1 in
      let id = o.notification.id in
      let kept_list = (insert-active s n replaces_id v kept).1 in
      let rest = remove id s.active in
      let counted = length-append rest ((id, o.notification) ∷ []) in
      ap (λ m. elem id (keys m)) kept_list
      ∙ newest_stays (length (rest ++ (id, o.notification) ∷ []) - active_limit s) id o.notification
          rest (omega (arith, counted, some_room))

  insert-kept_or_dropped :
      (s : NotificationStore H) (n : Notification H) (replaces_id : ℕ)
      → should_drop_inhibited s ≡ true
      → (insert_notification s n replaces_id).1.dropped ≡ true
  unfolding insert_notification insert_dropped
  insert-kept_or_dropped s n replaces_id h = rw h refl

  -- A whole `Notify` keeps the store valid: the timer goes to an id that is active.
  pub notify-IsValid :
      (s : NotificationStore H) (n : Notification H) (replaces_id now : ℕ)
      → IsValid s
      → 0 < active_limit s
      → IsValid (notify s n replaces_id now).0
  unfolding notify
  notify-IsValid s n replaces_id now v some_room =
      let inserted = insert_notification-IsValid s n replaces_id v in
      let (t, o) = insert_notification s n replaces_id in
      elim (Bool-cases (should_drop_inhibited s)) [
        | inl drops ↦ rw (insert-kept_or_dropped s n replaces_id drops) inserted
        | inr keeps ↦ rw (insert-active s n replaces_id v keeps).3 (
            set_expiration-IsValid t o.notification.id
              (resolve_expiration t.config o.notification now)
              (inr (insert-newest s n replaces_id v some_room keeps)) inserted)
      ]

  pub notify-SameSettings :
      (s : NotificationStore H) (n : Notification H) (replaces_id now : ℕ)
      → IsValid s
      → SameSettings s (notify s n replaces_id now).0
  unfolding notify
  notify-SameSettings s n replaces_id now v =
      let inserted = insert_notification-SameSettings s n replaces_id v in
      let (t, o) = insert_notification s n replaces_id in
      elim (Bool-cases o.dropped) [
        | inl drops ↦ rw drops inserted
        | inr keeps ↦ rw keeps (
            SameSettings-trans inserted (
              set_expiration-SameSettings t o.notification.id
                (resolve_expiration t.config o.notification now)))
      ]
