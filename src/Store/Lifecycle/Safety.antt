-- ===== src/Store/Lifecycle/Safety.antt =====
-- Nobody's notification is replaced by another sender, and what the popup and sound gates let pass.
use unix_notis.Prelude.{
  ◌≢◌, take-append-drop, Text, nat_eq, ℕ, ◌≡◌, refl, sym, ap, ◌∙◌, ◌⊎◌, inl, inr, true, false,
  Option, some, List, [], ◌∷◌, ◌++◌, arith, ==_iff, drop, take, Bool-cases, if◌then◌else◌,
}
use unix_notis.Prelude.Maps.{
  contains_key-elem, elem-keys, elem, keys, remove, lookup, lookup-remove,
}
use unix_notis.Model.{Notification}
use unix_notis.Store.{NotificationStore}
use unix_notis.Store.Lifecycle.Invariant.{IsValid}
use unix_notis.Rules.Effects.{apply_rules-SameOrigin}
use unix_notis.Store.Inhibit.{should_drop_inhibited}
use unix_notis.Store.Identity.{
  is_used, find_notification, notification_is_owned_by, can_replace_notification_for_sender,
}
use unix_notis.Store.Identity.Fresh.{next_id-fresh}
use unix_notis.Store.Lifecycle.{
  insert_notification, insert_kept, insert_dropped, may_replace, assign_id,
}
use unix_notis.Store.Lifecycle.Evict.{surplus_of, active_limit}
use unix_notis.Store.Lifecycle.Insert.{room}
use unix_notis.Store.Lifecycle.Outcome.{grown, insert-active}

lookup-append :
    {V : Type 0} (k : ℕ) (xs ys : List (ℕ × V))
    → lookup k (xs ++ ys) ≡ (if elem k (keys xs) then lookup k xs else lookup k ys)
unfolding lookup keys elem
lookup-append k [] ys = refl
lookup-append k ((j, v) ∷ xs) ys = ground (arith, lookup-append k xs ys)

module _ {H : Type 0} where
  -- The assigned id is unused, or the one to replace, which the sender owns.
  assigned_cases :
      (s : NotificationStore H) (n : Notification H) (replaces_id : ℕ)
      → IsValid s
      → let id = (insert_notification s n replaces_id).1.notification.id in
        (is_used s id ≡ false)
        ⊎ ((id ≡ replaces_id)
            × (can_replace_notification_for_sender s replaces_id n.sender_name n.sender_pid
                  n.sender_start_time
                ≡ true))
  unfolding insert_notification insert_kept insert_dropped may_replace assign_id
  assigned_cases s n replaces_id v = ground (
    arith,
    (next_id-fresh s v.sound.next_id_IsId.1 (room s v)).0,
    (apply_rules-SameOrigin s.config.rules n).sender_name,
    (apply_rules-SameOrigin s.config.rules n).sender_pid,
    (apply_rules-SameOrigin s.config.rules n).sender_start_time,
  )

  active-is_used :
      (s : NotificationStore H) (k : ℕ) (m : Notification H)
      → lookup k s.active ≡ some m
      → is_used s k ≡ true
  unfolding is_used
  active-is_used s k m e = ground (arith, contains_key-elem k s.active, elem-keys k s.active m e)

  unowned :
      (s : NotificationStore H) (k : ℕ) (m : Notification H) (name : Option Text)
      (pid start : Option ℕ)
      → lookup k s.active ≡ some m
      → notification_is_owned_by m name pid start ≡ false
      → can_replace_notification_for_sender s k name pid start ≡ false
  unfolding can_replace_notification_for_sender find_notification
  unowned s k m name pid start e foreign = ground arith

  -- The assigned id is not that of a notification which the sender does not own.
  assigned-ne :
      (s : NotificationStore H) (n m : Notification H) (replaces_id k : ℕ)
      → IsValid s
      → lookup k s.active ≡ some m
      → notification_is_owned_by m n.sender_name n.sender_pid n.sender_start_time ≡ false
      → (insert_notification s n replaces_id).1.notification.id ≢ k
  assigned-ne s n m replaces_id k v e foreign same = elim (assigned_cases s n replaces_id v) [
    | inl unused ↦ cc (unused, ap (is_used s) same, active-is_used s k m e)
    | inr (taken, owned) ↦ cc (
      owned,
      ap
          (λ i.
            can_replace_notification_for_sender s i n.sender_name n.sender_pid n.sender_start_time)
          (sym taken ∙ same),
      unowned s k m n.sender_name n.sender_pid n.sender_start_time e foreign,
    )
  ]

  dropped-active :
      (s : NotificationStore H) (n : Notification H) (replaces_id : ℕ)
      → IsValid s
      → should_drop_inhibited s ≡ true
      → (insert_notification s n replaces_id).0.active ≡ s.active
  unfolding insert_notification insert_dropped
  dropped-active s n replaces_id v drops =
      let (free, i, counter, same) = next_id-fresh s v.sound.next_id_IsId.1 (room s v) in
      rw drops (ap (λ (t : NotificationStore H). t.active) same)

  lookup-kept :
      (all : List (ℕ × Notification H)) (surplus k : ℕ)
      → elem k (keys (take surplus all)) ≡ false
      → lookup k (drop surplus all) ≡ lookup k all
  lookup-kept all surplus k h = ground (
    arith,
    ap (lookup k) (take-append-drop surplus all),
    lookup-append k (take surplus all) (drop surplus all),
  )

  lookup-snoc :
      (id k : ℕ) (n : Notification H) (m : List (ℕ × Notification H))
      → id ≢ k
      → lookup k (m ++ (id, n) ∷ []) ≡ lookup k m
  unfolding lookup
  lookup-snoc id k n [] ne = ground arith
  lookup-snoc id k n ((j, o) ∷ m) ne = ground (arith, lookup-snoc id k n m ne)

  lookup-grown :
      (s : NotificationStore H) (id k : ℕ) (n : Notification H)
      → id ≢ k
      → lookup k (grown s id n) ≡ lookup k s.active
  lookup-grown s id k n ne =
      lookup-snoc id k n (remove id s.active) ne
      ∙ ground (arith, lookup-remove id k s.active, ==_iff id k)

  -- Whatever id a sender asks to replace, an active notification that it does not own stays as it
  -- was, unless it is one of the evicted ones.
  pub insert-keeps_foreign :
      (s : NotificationStore H) (n m : Notification H) (replaces_id k : ℕ)
      → IsValid s
      → lookup k s.active ≡ some m
      → notification_is_owned_by m n.sender_name n.sender_pid n.sender_start_time ≡ false
      → elem k (insert_notification s n replaces_id).1.evicted ≡ false
      → lookup k (insert_notification s n replaces_id).0.active ≡ some m
  insert-keeps_foreign s n m replaces_id k v e foreign stays =
      elim (Bool-cases (should_drop_inhibited s)) [
        | inl drops ↦ ap (lookup k) (dropped-active s n replaces_id v drops) ∙ e
        | inr keeps ↦
            let (same, active, evicted, kept) = insert-active s n replaces_id v keeps in
            let id = (insert_notification s n replaces_id).1.notification.id in
            let stored = (insert_notification s n replaces_id).1.notification in
            ap (lookup k) active
            ∙ lookup-kept (grown s id stored) (surplus_of (active_limit s) (grown s id stored)) k
                (ap (elem k) (sym evicted) ∙ stays)
            ∙ lookup-grown s id k stored (assigned-ne s n m replaces_id k v e foreign)
            ∙ e
      ]
