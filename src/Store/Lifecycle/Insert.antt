-- ===== src/Store/Lifecycle/Insert.antt =====
-- `insert` keeps the store's invariant.
use unix_notis.Prelude.{
  nat_eq, ℕ, ◌+◌, ◌<◌, ◌≡◌, refl, ap, inl, inr, Bool, true, false, arith, length, Bool-cases,
}
use unix_notis.Prelude.Maps.{
  remove, insert-Distinct, remove-Distinct, elem-keys-insert, elem-keys-remove, lookup-remove,
}
use unix_notis.Model.{Notification}
use unix_notis.History.{remove_entry}
use unix_notis.History.Valid.{remove_entry-IsValid}
use unix_notis.Store.{NotificationStore}
use unix_notis.Store.Identity.{next_id, bump}
use unix_notis.Store.Identity.Fresh.{IsId, next_id-fresh}
use unix_notis.Store.Lifecycle.{
  apply_rules, should_drop_inhibited, store_active, insert_notification, insert_kept,
  insert_dropped, assign_id, may_replace,
}
use unix_notis.Store.Lifecycle.Archive.{HistoryFits}
use unix_notis.Store.Lifecycle.Keyed.{
  remove-Keyed, insert-Keyed, length-remove-le, remove_entry-entries,
}
use unix_notis.Store.Lifecycle.Invariant.{Sound, IsValid, enforce_active_limit-IsValid}

module _ {H : Type 0} where
  pub forget_entry-HistoryFits :
      (s : NotificationStore H) (id : ℕ)
      → HistoryFits s
      → HistoryFits (record s { history = (remove_entry s.history id).0 })
  forget_entry-HistoryFits s id f = record {
    valid = remove_entry-IsValid s.history id f.valid;
    bounded = omega (
      arith,
      length-remove-le id s.history.entries,
      ap length (remove_entry-entries s.history id),
    );
  }

  pub store_active-Sound :
      (s : NotificationStore H) (id : ℕ) (n : Notification H)
      → n.id ≡ id
      → Sound s
      → Sound (store_active s id n)
  unfolding store_active
  store_active-Sound s id n e v =
      let fits = forget_entry-HistoryFits s id v.history_fits in
      record {
        active_distinct =
            insert-Distinct id n (remove id s.active)
              (remove-Distinct id s.active v.active_distinct);
        active_keyed =
            insert-Keyed id n (remove id s.active) e (remove-Keyed id s.active v.active_keyed);
        history_fits = record { valid = fits.valid; bounded = fits.bounded };
        apart = λ k h. rw (remove_entry-entries s.history id) (
            ground (
              arith,
              h,
              elem-keys-remove id k s.history.entries,
              elem-keys-insert id k n (remove id s.active),
              elem-keys-remove id k s.active,
              v.apart k,
            ));
        timers = λ k h. ground (
          arith,
          h,
          lookup-remove id k s.expirations,
          elem-keys-insert id k n (remove id s.active),
          elem-keys-remove id k s.active,
          v.timers k,
        );
        next_id_IsId = v.next_id_IsId;
      }

  -- The number of stored notifications is far below the number of ids.
  pub room :
      (s : NotificationStore H)
      → IsValid s
      → length s.active + length s.history.entries < 4294967295
  room s v = omega (arith, v.active_bounded, v.entries_sane, v.sound.history_fits.bounded)

  -- Taking an id changes the counter alone.
  pub with_next_id-IsValid :
      (s : NotificationStore H) (id : ℕ) → IsId id → IsValid s → IsValid (record s { next_id = id })
  with_next_id-IsValid s id i v = record {
    sound = record {
      active_distinct = v.sound.active_distinct;
      active_keyed = v.sound.active_keyed;
      history_fits = record {
        valid = v.sound.history_fits.valid;
        bounded = v.sound.history_fits.bounded;
      };
      apart = v.sound.apart;
      timers = v.sound.timers;
      next_id_IsId = i;
    };
    active_bounded = v.active_bounded;
    entries_sane = v.entries_sane;
  }

  pub next_id-IsValid : (s : NotificationStore H) → IsValid s → IsValid (next_id s).0
  next_id-IsValid s v =
      let (free, i, counter, same) = next_id-fresh s v.sound.next_id_IsId.1 (room s v) in
      rw same (with_next_id-IsValid s (bump (next_id s).1) (rw same at counter) v)

  pub assign_id-IsValid :
      (s : NotificationStore H) (replaced : Bool) (id : ℕ)
      → IsValid s
      → IsValid (assign_id s replaced id).0
  unfolding assign_id
  assign_id-IsValid s true id v = v
  assign_id-IsValid s false id v = next_id-IsValid s v

  next_id-config : (s : NotificationStore H) → IsValid s → (next_id s).0.config ≡ s.config
  next_id-config s v =
      let (free, i, counter, same) = next_id-fresh s v.sound.next_id_IsId.1 (room s v) in
      ap (λ (t : NotificationStore H). t.config) same

  insert_kept-IsValid :
      (s : NotificationStore H) (n : Notification H) (replaces_id : ℕ)
      → IsValid s
      → IsValid (insert_kept s n replaces_id).0
  unfolding insert_kept
  insert_kept-IsValid s n replaces_id v =
      let assigned = assign_id s (may_replace s n replaces_id) replaces_id in
      let u = assign_id-IsValid s (may_replace s n replaces_id) replaces_id v in
      enforce_active_limit-IsValid
        (store_active assigned.0 assigned.1 (record n { id = assigned.1 }))
        (store_active-Sound assigned.0 assigned.1 (record n { id = assigned.1 }) refl u.sound)
        (unfold store_active in u.entries_sane)

  -- Inserting any notification, with any `replaces_id`, keeps the store valid: ids stay distinct,
  -- active and archived ids apart, both lists within their limits, and timers with active ids only.
  pub insert_notification-IsValid :
      (s : NotificationStore H) (n : Notification H) (replaces_id : ℕ)
      → IsValid s
      → IsValid (insert_notification s n replaces_id).0
  unfolding insert_notification insert_dropped
  insert_notification-IsValid s n replaces_id v = elim (Bool-cases (should_drop_inhibited s)) [
    | inl e ↦ rw e (next_id-IsValid s v)
    | inr e ↦ rw e (insert_kept-IsValid s (apply_rules s.config.rules n) replaces_id v)
  ]
