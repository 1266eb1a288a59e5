-- ===== src/Store/Lifecycle/Close.antt =====
-- Closing, dismissing, draining and timers: each keeps the store valid, and what it does to the
-- active list and the archive.
use unix_notis.Prelude.{
  nat_eq, ℕ, ◌-◌, ◌≤◌, ◌<◌, ◌≡◌, refl, subst, sym, ap, inl, inr, true, false, none, some, [], ◌∷◌,
  ◌++◌, arith, length, drop, Bool-cases, Option-cases,
}
use unix_notis.Prelude.Maps.{
  lookup_absent, elem-keys, elem, keys, remove, lookup, remove-Distinct, elem-keys-remove,
  lookup-remove,
}
use unix_notis.Model.{Notification, to_history}
use unix_notis.Model.Control.{CloseReason, should_archive_closed_notification}
use unix_notis.History.{HistoryStore, insert_entry, evict_to_limit}
use unix_notis.History.Valid
use unix_notis.History.Valid.{remove_entry-IsValid, insert_entry-IsValid}
use unix_notis.History.Recency.{recent_absent, recent, recent-insert_entry}
use unix_notis.History.Eviction.{evict_to_limit-recent}
use unix_notis.Store.{NotificationStore}
use unix_notis.Store.Lifecycle.{push_history, close}
use unix_notis.Store.Lifecycle.Evict.{push_history-frame}
use unix_notis.Store.Lifecycle.Archive.{HistoryFits, push_history-HistoryFits, push_history-keys}
use unix_notis.Store.Lifecycle.Keyed.{remove-Keyed, length-remove-le, lookup-Keyed}
use unix_notis.Store.Lifecycle.Invariant.{Sound, IsValid}

module _ {H : Type 0} where
  -- Without one active notification and its timer, the store is as valid as before.
  abbrev pub deactivate : NotificationStore H → ℕ → NotificationStore H
  deactivate s id = record s { active = remove id s.active; expirations = remove id s.expirations }

  pub deactivate-IsValid :
      (s : NotificationStore H) (id : ℕ) → IsValid s → IsValid (deactivate s id)
  deactivate-IsValid s id v = record {
    sound = record {
      active_distinct = remove-Distinct id s.active v.sound.active_distinct;
      active_keyed = remove-Keyed id s.active v.sound.active_keyed;
      history_fits = record {
        valid = v.sound.history_fits.valid;
        bounded = v.sound.history_fits.bounded;
      };
      apart = λ k h. v.sound.apart k (ground (arith, h, elem-keys-remove id k s.active));
      timers = λ k h. ground (
        arith,
        h,
        elem-keys-remove id k s.active,
        lookup-remove id k s.expirations,
        v.sound.timers k,
      );
      next_id_IsId = v.sound.next_id_IsId;
    };
    active_bounded = omega (arith, length-remove-le id s.active, v.active_bounded);
    entries_sane = v.entries_sane;
  }

  -- Another archive keeps the store valid if it fits and stays apart from the active ids.
  pub with_history-IsValid :
      (s : NotificationStore H) (h : HistoryStore H)
      → Valid.IsValid h
      → length h.entries ≤ s.config.history.max_entries
      → ((k : ℕ) → elem k (keys s.active) ≡ true → elem k (keys h.entries) ≡ false)
      → IsValid s
      → IsValid (record s { history = h })
  with_history-IsValid s h valid bounded apart v = record {
    sound = record {
      active_distinct = v.sound.active_distinct;
      active_keyed = v.sound.active_keyed;
      history_fits = record { valid = valid; bounded = bounded };
      apart = apart;
      timers = v.sound.timers;
      next_id_IsId = v.sound.next_id_IsId;
    };
    active_bounded = v.active_bounded;
    entries_sane = v.entries_sane;
  }

  push_history-apart :
      (s : NotificationStore H) (n : Notification H) (reason : CloseReason)
      → elem n.id (keys s.active) ≡ false
      → Sound s
      → (k : ℕ) → elem k (keys s.active) ≡ true
      → elem k (keys (push_history s n reason).history.entries) ≡ false
  push_history-apart s n reason gone v k h =
      elim (Bool-cases (elem k (keys (push_history s n reason).history.entries))) [
        | inl there ↦ elim (push_history-keys s n reason k there) [
          | inl own ↦ cc (ap (λ i. elem i (keys s.active)) own, gone, h)
          | inr old ↦ cc (old, v.apart k h)
        ]
        | inr absent ↦ absent
      ]

  -- Archiving a notification whose id is no longer active keeps the store valid.
  push_history-IsValid :
      (s : NotificationStore H) (n : Notification H) (reason : CloseReason)
      → elem n.id (keys s.active) ≡ false
      → IsValid s
      → IsValid (push_history s n reason)
  push_history-IsValid s n reason gone v =
      let only = push_history-frame s n reason in
      let fits = push_history-HistoryFits s n reason v.sound.history_fits in
      let same_config = ap (λ (t : NotificationStore H). t.config.history.max_entries) only in
      subst IsValid (sym only) (
        with_history-IsValid s (push_history s n reason).history fits.valid
          (omega (arith, fits.bounded, same_config)) (push_history-apart s n reason gone v.sound) v)

  pub close-none :
      (s : NotificationStore H) (id : ℕ) (reason : CloseReason)
      → lookup id s.active ≡ none
      → close s id reason ≡ (deactivate s id, none)
  unfolding close
  close-none s id reason e = rw (e, close) refl

  pub close-some :
      (s : NotificationStore H) (id : ℕ) (reason : CloseReason) (n : Notification H)
      → lookup id s.active ≡ some n
      → close s id reason ≡ (push_history (deactivate s id) n reason, some n)
  unfolding close
  close-some s id reason n e = rw (e, close) refl

  -- Closing keeps the store valid, for every id and reason.
  pub close-IsValid :
      (s : NotificationStore H) (id : ℕ) (reason : CloseReason)
      → IsValid s
      → IsValid (close s id reason).0
  close-IsValid s id reason v = elim (Option-cases (lookup id s.active)) [
    | inl e ↦ rw (close-none s id reason e) (deactivate-IsValid s id v)
    | inr (n, e) ↦
        let own = lookup-Keyed id n s.active v.sound.active_keyed e in
        rw (close-some s id reason n e) (
          push_history-IsValid (deactivate s id) n reason
            (ground (arith, own, elem-keys-remove id n.id s.active)) (deactivate-IsValid s id v))
  ]

  -- What closing does: an unknown id changes nothing but a stale timer; an active notification
  -- leaves the active list with its timer, and is returned.
  pub close_lem :
      (s : NotificationStore H) (id : ℕ) (reason : CloseReason)
      → ((close s id reason).1 ≡ lookup id s.active)
        × ((close s id reason).0.active ≡ remove id s.active)
        × ((close s id reason).0.expirations ≡ remove id s.expirations)
  close_lem s id reason = elim (Option-cases (lookup id s.active)) [
    | inl e ↦ rw (close-none s id reason e, e) (refl, refl, refl)
    | inr (n, e) ↦
        let only = push_history-frame (deactivate s id) n reason in
        rw (close-some s id reason n e, e)
          (
            refl,
            ap (λ (t : NotificationStore H). t.active) only,
            ap (λ (t : NotificationStore H). t.expirations) only,
          )
  ]

  push_history_archived :
      (s : NotificationStore H) (n : Notification H) (reason : CloseReason)
      → 0 < s.config.history.max_entries
      → should_archive_closed_notification reason n.is_transient
          s.config.history.transient_to_history
        ≡ true
      → (push_history s n reason).history
        ≡ evict_to_limit (insert_entry s.history (to_history n)) s.config.history.max_entries
  unfolding push_history
  push_history_archived s n reason on archivable = ground arith

  -- What an archived notification does to the archive as a list.
  push_history-recent :
      (s : NotificationStore H) (n : Notification H) (reason : CloseReason)
      → HistoryFits s
      → lookup n.id s.history.entries ≡ none
      → 0 < s.config.history.max_entries
      → should_archive_closed_notification reason n.is_transient
          s.config.history.transient_to_history
        ≡ true
      → let archive = recent s.history ++ (n.id, to_history n) ∷ [] in
        recent (push_history s n reason).history
        ≡ drop (length archive - s.config.history.max_entries) archive
  push_history-recent s n reason fits absent on archivable =
      rw (push_history_archived s n reason on archivable) (
        rw
          ((evict_to_limit-recent (insert_entry s.history (to_history n))
            s.config.history.max_entries
            (insert_entry-IsValid s.history (to_history n) fits.valid)).1)
          (rw (recent-insert_entry s.history (to_history n) fits.valid)
            (unfold to_history in rw (recent_absent s.history n.id fits.valid absent) refl)))

  -- An active notification that is closed for an archivable reason, with a history that is not
  -- switched off, becomes the newest archived one; the oldest make room beyond `max_entries`.
  pub close-archives :
      (s : NotificationStore H) (id : ℕ) (reason : CloseReason) (n : Notification H)
      → IsValid s
      → lookup id s.active ≡ some n
      → 0 < s.config.history.max_entries
      → should_archive_closed_notification reason n.is_transient
          s.config.history.transient_to_history
        ≡ true
      → let archive = recent s.history ++ (id, to_history n) ∷ [] in
        recent (close s id reason).0.history
        ≡ drop (length archive - s.config.history.max_entries) archive
  unfolding close
  close-archives s id reason n v e on archivable =
      let own = lookup-Keyed id n s.active v.sound.active_keyed e in
      let absent : lookup n.id s.history.entries ≡ none =
        lookup_absent n.id s.history.entries
          (v.sound.apart n.id (rw own (elem-keys id s.active n e))) in
      let archived =
        push_history-recent (deactivate s id) n reason
          (deactivate-IsValid s id v).sound.history_fits absent on archivable in
      rw (close-some s id reason n e) (
        subst
          (λ k.
            let archive = recent s.history ++ (k, to_history n) ∷ [] in
            recent (push_history (deactivate s id) n reason).history
            ≡ drop (length archive - s.config.history.max_entries) archive)
          own archived)
