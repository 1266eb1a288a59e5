-- ===== src/Store/Lifecycle/Remove.antt =====
-- Dismissing from the panel, clearing everything, and setting timers.
use unix_notis.Prelude.{
  nat_eq, ℕ, ◌≡◌, refl, ap, ◌∙◌, ◌⊎◌, true, false, Option, none, some, List, [], ◌∷◌, arith, ◌==◌,
  ==_iff, if◌then◌else◌,
}
use unix_notis.Prelude.Maps.{
  elem, keys, remove, insert, lookup, elem-keys-remove, lookup-remove, lookup-insert,
}
use unix_notis.Store.{NotificationStore}
use unix_notis.Store.Lifecycle.Invariant.{IsValid}
use unix_notis.History.{HistoryStore, remove_entry, clear, new}
use unix_notis.History.Valid.{new-IsValid}
use unix_notis.Store.{clear_history}
use unix_notis.Store.Lifecycle.{is_some, dismiss_from_panel, drain_active_ids, set_expiration}
use unix_notis.Store.Lifecycle.Keyed.{remove_entry-entries}
use unix_notis.Store.Lifecycle.Insert.{forget_entry-HistoryFits}
use unix_notis.Store.Lifecycle.Close.{deactivate, deactivate-IsValid, with_history-IsValid}

is_some-lookup {ℓ} :
    {V : Type ℓ} (id : ℕ) (m : List (ℕ × V)) → is_some (lookup id m) ≡ elem id (keys m)
unfolding lookup keys elem
is_some-lookup id [] = refl
is_some-lookup id ((k, w) ∷ m) = ground (arith, is_some-lookup id m)

module _ {H : Type 0} where
  with_timers-IsValid :
      (s : NotificationStore H) (timers : List (ℕ × ℕ))
      → ((k : ℕ) → elem k (keys s.active) ≡ false → lookup k timers ≡ none)
      → IsValid s
      → IsValid (record s { expirations = timers })
  with_timers-IsValid s timers only v = record {
    sound = record {
      active_distinct = v.sound.active_distinct;
      active_keyed = v.sound.active_keyed;
      history_fits = record {
        valid = v.sound.history_fits.valid;
        bounded = v.sound.history_fits.bounded;
      };
      apart = v.sound.apart;
      timers = only;
      next_id_IsId = v.sound.next_id_IsId;
    };
    active_bounded = v.active_bounded;
    entries_sane = v.entries_sane;
  }

  -- A timer for an active notification, or no timer for any id, keeps the store valid.
  pub set_expiration-IsValid :
      (s : NotificationStore H) (id : ℕ) (deadline : Option ℕ)
      → (deadline ≡ none) ⊎ (elem id (keys s.active) ≡ true)
      → IsValid s
      → IsValid (set_expiration s id deadline)
  unfolding set_expiration
  set_expiration-IsValid s id none c v =
      with_timers-IsValid s (remove id s.expirations)
        (λ k h. ground (arith, lookup-remove id k s.expirations, v.sound.timers k h)) v
  set_expiration-IsValid s id (some d) c v =
      with_timers-IsValid s (insert id d s.expirations)
        (λ k h.
          ground (arith, c, h, lookup-insert id k d s.expirations, v.sound.timers k h, ==_iff id k))
        v

  remove_entry-value : (h : HistoryStore H) (id : ℕ) → (remove_entry h id).1 ≡ lookup id h.entries
  unfolding remove_entry
  remove_entry-value h id = ground arith

  dismissed-IsValid :
      (s : NotificationStore H) (id : ℕ) (timers : List (ℕ × ℕ))
      → ((k : ℕ)
          → (if id == k then false else elem k (keys s.active)) ≡ false
          → lookup k timers ≡ none)
      → IsValid s
      → IsValid (record s {
        active = remove id s.active;
        expirations = timers;
        history = (remove_entry s.history id).0;
      })
  dismissed-IsValid s id timers only v =
      let fits = forget_entry-HistoryFits s id v.sound.history_fits in
      with_timers-IsValid (record (deactivate s id) { history = (remove_entry s.history id).0 })
        timers (λ k h. only k (ground (arith, h, elem-keys-remove id k s.active)))
        (with_history-IsValid (deactivate s id) (remove_entry s.history id).0 fits.valid
          fits.bounded
          (λ k h. rw (remove_entry-entries s.history id) (
            ground (
              arith,
              h,
              elem-keys-remove id k s.active,
              elem-keys-remove id k s.history.entries,
              v.sound.apart k,
            )))
          (deactivate-IsValid s id v))

  -- After a dismissal the id is neither active nor archived and has no timer, every other
  -- notification is where it was, and the outcome tells what was removed.
  pub dismiss_from_panel_lem :
      (s : NotificationStore H) (id k : ℕ)
      → IsValid s
      → let (t, outcome) = dismiss_from_panel s id in
        IsValid t
        × (lookup k t.active ≡ (if id == k then none else lookup k s.active))
        × (lookup k t.history.entries ≡ (if id == k then none else lookup k s.history.entries))
        × (lookup id t.expirations ≡ none)
        × (outcome.removed_active ≡ elem id (keys s.active))
        × (outcome.removed_history ≡ elem id (keys s.history.entries))
  unfolding dismiss_from_panel
  dismiss_from_panel_lem s id k v =
      let active_bit = is_some-lookup id s.active in
      (
        dismissed-IsValid s id _
            (λ j h. ground (
              arith,
              h,
              active_bit,
              v.sound.timers j,
              v.sound.timers id,
              lookup-remove id j s.expirations,
              ==_iff id j,
            ))
            v,
        lookup-remove id k s.active,
        rw (remove_entry-entries s.history id) (lookup-remove id k s.history.entries),
        ground (arith, active_bit, v.sound.timers id, lookup-remove id id s.expirations),
        active_bit,
        ap is_some (remove_entry-value s.history id) ∙ is_some-lookup id s.history.entries,
      )

  -- What `clear_all` runs under one lock leaves a valid store.
  pub clear_all-IsValid :
      (s : NotificationStore H) → IsValid s → IsValid (clear_history (drain_active_ids s).0)
  unfolding drain_active_ids clear_history clear new keys elem lookup
  clear_all-IsValid s v = record {
    sound = record {
      active_distinct = tt;
      active_keyed = tt;
      history_fits = record { valid = new-IsValid; bounded = omega arith };
      apart = λ k h. cc;
      timers = λ k h. refl;
      next_id_IsId = v.sound.next_id_IsId;
    };
    active_bounded = omega arith;
    entries_sane = v.entries_sane;
  }
