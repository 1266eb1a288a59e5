-- ===== src/Store/Lifecycle/Archive.antt =====
-- How archiving changes the history and the timers: from `push_history` to the whole surplus.
use unix_notis.Prelude.{
  nat_eq, ℕ, zero, suc, ◌≤◌, ◌≡◌, refl, ◌⊎◌, inl, inr, Bool, true, false, not, none, List, [], ◌∷◌,
  arith, length, ◌==◌, ==_iff, Bool-cases, if◌then◌else◌,
}
use unix_notis.Prelude.Maps.{
  lookup-remove, elem, keys, remove, lookup, elem-keys-remove, elem-keys-insert,
}
use unix_notis.Model.{Notification, to_history}
use unix_notis.Model.Control.{undefined, should_archive_closed_notification, CloseReason}
use unix_notis.History.{
  evict_fuel, HistoryStore, evict_loop, evict_to_limit, insert_entry, clear, new,
}
use unix_notis.History.Bounds.{evict_to_limit-le}
use unix_notis.History.Valid
use unix_notis.History.Valid.{insert_entry-IsValid, new-IsValid}
use unix_notis.History.Eviction.{evict_to_limit-recent}
use unix_notis.Store.{NotificationStore}
use unix_notis.Store.Lifecycle.{push_history, evict_one}
use unix_notis.Store.Lifecycle.Evict.{archive_surplus}

-- Each notification stands under its own id.
abbrev pub Keyed : {H : Type 0} → List (ℕ × Notification H) → Type 0
Keyed [] = Unit {0}
Keyed ((k, n) ∷ m) = (n.id ≡ k) × Keyed m

module _ {H : Type 0} where
  -- The archive is well formed and within the configured size.
  pub record HistoryFits (s : NotificationStore H) : Type 0 where
    pub valid : Valid.IsValid s.history
    pub bounded : length s.history.entries ≤ s.config.history.max_entries

  -- The three ways through `push_history`.
  push_history_cases {ℓ} :
      (P : NotificationStore H → Type ℓ) (s : NotificationStore H) (n : Notification H)
      (reason : CloseReason)
      → P (record s { history = clear s.history })
      → P s
      → P (record s {
        history =
            evict_to_limit (insert_entry s.history (to_history n)) s.config.history.max_entries;
      })
      → P (push_history s n reason)
  unfolding push_history
  push_history_cases P s n reason off skipped archived =
      elim (Bool-cases (s.config.history.max_entries == 0)) [
        | inl e ↦ rw e off
        | inr e ↦ rw e (
            choose (
              not (
                should_archive_closed_notification reason n.is_transient
                  s.config.history.transient_to_history)))
      ]
    where
      choose :
          (b : Bool)
          → P (
              if b then s else record s {
                history =
                    evict_to_limit
                      (insert_entry s.history (to_history n))
                      s.config.history.max_entries;
              })
      choose true = skipped
      choose false = archived

  pub push_history-HistoryFits :
      (s : NotificationStore H) (n : Notification H) (reason : CloseReason)
      → HistoryFits s
      → HistoryFits (push_history s n reason)
  unfolding clear new
  push_history-HistoryFits s n reason f =
      push_history_cases HistoryFits s n reason
        (record { valid = new-IsValid; bounded = omega arith }) f
        (record {
          valid =
              (evict_to_limit-recent (insert_entry s.history (to_history n))
                s.config.history.max_entries
                (insert_entry-IsValid s.history (to_history n) f.valid)).0;
          bounded =
              evict_to_limit-le (insert_entry s.history (to_history n))
                s.config.history.max_entries;
        })

  -- Eviction only takes entries away.
  evict_loop-keys :
      (fuel max_entries : ℕ) (entries : List (ℕ × Notification H)) (order : List ℕ) (k : ℕ)
      → elem k (keys (evict_loop fuel max_entries entries order).entries) ≡ true
      → elem k (keys entries) ≡ true
  unfolding evict_loop
  evict_loop-keys zero max_entries entries order k h = h
  evict_loop-keys (suc fuel) max_entries entries [] k h =
      ground (arith, evict_loop-keys fuel max_entries entries (keys entries) k)
  evict_loop-keys (suc fuel) max_entries entries (id ∷ order) k h = ground (
    arith,
    evict_loop-keys fuel max_entries (remove id entries) order k,
    elem-keys-remove id k entries,
  )

  evict_to_limit-keys :
      (h : HistoryStore H) (max_entries k : ℕ)
      → elem k (keys (evict_to_limit h max_entries).entries) ≡ true
      → elem k (keys h.entries) ≡ true
  unfolding evict_to_limit clear keys elem
  evict_to_limit-keys h max_entries k g =
      ground (arith, evict_loop-keys (evict_fuel h) max_entries h.entries h.order k)

  -- Archiving adds at most the id of the archived notification.
  pub push_history-keys :
      (s : NotificationStore H) (n : Notification H) (reason : CloseReason) (k : ℕ)
      → elem k (keys (push_history s n reason).history.entries) ≡ true
      → (n.id ≡ k) ⊎ (elem k (keys s.history.entries) ≡ true)
  unfolding clear keys elem to_history insert_entry
  push_history-keys s n reason k =
      push_history_cases
        (λ t.
          elem k (keys t.history.entries) ≡ true
          → (n.id ≡ k) ⊎ (elem k (keys s.history.entries) ≡ true))
        s n reason (λ h. cc) inr
        (λ h. ground (
          arith,
          evict_to_limit-keys (insert_entry s.history (to_history n)) s.config.history.max_entries k
              h,
          elem-keys-insert n.id k (to_history n) s.history.entries,
        ))

  evict_one-HistoryFits :
      (s : NotificationStore H) (id : ℕ) (n : Notification H)
      → HistoryFits s
      → HistoryFits (evict_one s id n)
  unfolding evict_one
  evict_one-HistoryFits s id n f =
      push_history-HistoryFits (record s { expirations = remove id s.expirations }) n undefined
        (record { valid = f.valid; bounded = f.bounded })

  pub archive_surplus-HistoryFits :
      (surplus : List (ℕ × Notification H)) (s : NotificationStore H)
      → HistoryFits s
      → HistoryFits (archive_surplus surplus s)
  unfolding archive_surplus
  archive_surplus-HistoryFits [] s f = f
  archive_surplus-HistoryFits ((id, n) ∷ surplus) s f =
      archive_surplus-HistoryFits surplus (evict_one s id n) (evict_one-HistoryFits s id n f)

  evict_one-keys :
      (s : NotificationStore H) (id : ℕ) (n : Notification H) (k : ℕ)
      → elem k (keys (evict_one s id n).history.entries) ≡ true
      → (n.id ≡ k) ⊎ (elem k (keys s.history.entries) ≡ true)
  unfolding evict_one
  evict_one-keys s id n k =
      push_history-keys (record s { expirations = remove id s.expirations }) n undefined k

  -- An id that the archive has afterwards was there, or belongs to the surplus.
  pub archive_surplus-keys :
      (surplus : List (ℕ × Notification H)) (s : NotificationStore H) (k : ℕ)
      → Keyed surplus
      → elem k (keys (archive_surplus surplus s).history.entries) ≡ true
      → (elem k (keys surplus) ≡ true) ⊎ (elem k (keys s.history.entries) ≡ true)
  unfolding archive_surplus keys elem
  archive_surplus-keys [] s k keyed h = inr h
  archive_surplus-keys ((id, n) ∷ surplus) s k keyed h =
      elim (archive_surplus-keys surplus (evict_one s id n) k keyed.1 h) [
        | inl later ↦ inl (ground arith)
        | inr before ↦ elim (evict_one-keys s id n k before) [
          | inl own ↦ inl (ground (arith, own, keyed.0, ==_iff id k))
          | inr old ↦ inr old
        ]
      ]

  evict_one-expirations :
      (s : NotificationStore H) (id : ℕ) (n : Notification H)
      → (evict_one s id n).expirations ≡ remove id s.expirations
  unfolding evict_one push_history
  evict_one-expirations s id n = ground arith

  -- The timers of the surplus are gone, and all others stay.
  pub archive_surplus-timers :
      (surplus : List (ℕ × Notification H)) (s : NotificationStore H) (k : ℕ)
      → lookup k (archive_surplus surplus s).expirations
        ≡ (if elem k (keys surplus) then none else lookup k s.expirations)
  unfolding archive_surplus keys elem
  archive_surplus-timers [] s k = refl
  archive_surplus-timers ((id, n) ∷ surplus) s k = ground (
    arith,
    archive_surplus-timers surplus (evict_one s id n) k,
    evict_one-expirations s id n,
    lookup-remove id k s.expirations,
  )
