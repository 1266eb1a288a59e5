-- ===== src/Store/Lifecycle/Outcome.antt =====
-- What `insert` does to the active list, and whose notifications it may touch.
use unix_notis.Prelude.{
  min, nat_eq, ℕ, ◌≡◌, refl, ap, Bool, true, false, List, [], ◌∷◌, ◌++◌, arith, drop, take,
}
use unix_notis.Prelude.Maps.{insert_absent, keys, remove, elem-keys-remove}
use unix_notis.Model.{Notification}
use unix_notis.Store.{NotificationStore}
use unix_notis.Store.Lifecycle.Invariant.{IsValid}
use unix_notis.Rules.{apply_rules}
use unix_notis.Rules.Effects.{apply_rules-SameOrigin}
use unix_notis.Store.Inhibit.{should_drop_inhibited}
use unix_notis.Store.Identity.{is_used, can_replace_notification_for_sender}
use unix_notis.Store.Identity.Fresh.{next_id-fresh}
use unix_notis.Config.{Config}
use unix_notis.Store.Lifecycle.{
  active_hard_cap, insert_notification, insert_kept, insert_dropped, may_replace, assign_id,
  store_active, enforce_active_limit,
}
use unix_notis.Store.Lifecycle.Evict.{surplus_of, active_limit, enforce_active_limit_lem}
use unix_notis.Store.Lifecycle.Insert.{room}

module _ {H : Type 0} where
  pub assign_id-frame :
      (s : NotificationStore H) (replaced : Bool) (id : ℕ)
      → IsValid s
      → (counter : ℕ) × ((assign_id s replaced id).0 ≡ record s { next_id = counter })
  unfolding assign_id
  assign_id-frame s true id v = (s.next_id, refl)
  assign_id-frame s false id v =
      let (free, i, c, same) = next_id-fresh s v.sound.next_id_IsId.1 (room s v) in (_, same)

  -- The list that an insertion makes before the limit is enforced.
  abbrev pub grown : NotificationStore H → ℕ → Notification H → List (ℕ × Notification H)
  grown s id n = remove id s.active ++ (id, n) ∷ []

  store_active-grown :
      (s u : NotificationStore H) (counter id : ℕ) (n : Notification H)
      → u ≡ record s { next_id = counter }
      → ((store_active u id n).active ≡ grown s id n) × ((store_active u id n).config ≡ s.config)
  unfolding store_active
  store_active-grown s u counter id n e = rw e (
    insert_absent id n (remove id s.active) (ground (arith, elem-keys-remove id id s.active)),
    refl,
  )

  enforced :
      (b : NotificationStore H) (all : List (ℕ × Notification H)) (limit : ℕ)
      → b.active ≡ all
      → active_limit b ≡ limit
      → ((enforce_active_limit b).0.active ≡ drop (surplus_of limit all) all)
        × ((enforce_active_limit b).1 ≡ keys (take (surplus_of limit all) all))
  enforced b all limit e l = rw (enforce_active_limit_lem b) (rw (← e, ← l) (refl, refl))

  insert_kept-active :
      (s : NotificationStore H) (n : Notification H) (replaces_id : ℕ)
      → IsValid s
      → let (t, outcome) = insert_kept s n replaces_id in
        let id = outcome.notification.id in
        let all = grown s id outcome.notification in
        let surplus = surplus_of (active_limit s) all in
        (outcome.notification ≡ record n { id = id })
        × (t.active ≡ drop surplus all)
        × (outcome.evicted ≡ keys (take surplus all))
        × (outcome.dropped ≡ false)
  unfolding insert_kept
  insert_kept-active s n replaces_id v =
      let u = assign_id s (may_replace s n replaces_id) replaces_id in
      let stored : Notification H = record n { id = u.1 } in
      let (counter, frame) = assign_id-frame s (may_replace s n replaces_id) replaces_id v in
      let (active, config) = store_active-grown s u.0 counter u.1 stored frame in
      let (kept, evicted) =
        enforced (store_active u.0 u.1 stored) (grown s u.1 stored) (active_limit s) active
          (ap (λ (c : Config). min c.history.max_active active_hard_cap) config) in
      (refl, kept, evicted, refl)

  -- An insertion that is not dropped: the ruled notification, under its id, becomes the newest of
  -- the active ones; what is over the limit goes from the old end, and is reported.
  pub insert-active :
      (s : NotificationStore H) (n : Notification H) (replaces_id : ℕ)
      → IsValid s
      → should_drop_inhibited s ≡ false
      → let (t, outcome) = insert_notification s n replaces_id in
        let id = outcome.notification.id in
        let all = grown s id outcome.notification in
        let surplus = surplus_of (active_limit s) all in
        (outcome.notification ≡ record (apply_rules s.config.rules n) { id = id })
        × (t.active ≡ drop surplus all)
        × (outcome.evicted ≡ keys (take surplus all))
        × (outcome.dropped ≡ false)
  unfolding insert_notification
  insert-active s n replaces_id v keep =
      rw (keep, insert_notification)
        (insert_kept-active s (apply_rules s.config.rules n) replaces_id v)

  -- A notification whose sender does not own the one it wants to replace gets an id of its own,
  -- which nothing in the store uses; this holds for notifications that are dropped as well.
  pub insert-unowned_fresh :
      (s : NotificationStore H) (n : Notification H) (replaces_id : ℕ)
      → IsValid s
      → can_replace_notification_for_sender s replaces_id n.sender_name n.sender_pid
          n.sender_start_time
        ≡ false
      → is_used s (insert_notification s n replaces_id).1.notification.id ≡ false
  unfolding insert_notification insert_kept insert_dropped may_replace assign_id
  insert-unowned_fresh s n replaces_id v foreign = ground (
    arith,
    foreign,
    (next_id-fresh s v.sound.next_id_IsId.1 (room s v)).0,
    (apply_rules-SameOrigin s.config.rules n).sender_name,
    (apply_rules-SameOrigin s.config.rules n).sender_pid,
    (apply_rules-SameOrigin s.config.rules n).sender_start_time,
  )
