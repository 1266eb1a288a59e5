-- ===== src/Store/Lifecycle/Gates.antt =====
-- Which settings an insertion leaves alone, and what the popup and sound gates let pass.
use unix_notis.Prelude.{
  ◌↔◌, nat_eq, ℕ, ◌≡◌, refl, subst, sym, ◌∙◌, ◌⊎◌, inl, inr, Bool, true, false, arith, take,
  Bool-cases,
}
use unix_notis.Model.{as_u8, Urgency, Notification}
use unix_notis.Store.{NotificationStore}
use unix_notis.Store.Lifecycle.Invariant.{IsValid}
use unix_notis.Model.Control.{popup_allowed_by_state}
use unix_notis.Rules.{apply_rules}
use unix_notis.Store.Inhibit.{should_drop_inhibited}
use unix_notis.Store.Identity.{next_id}
use unix_notis.Store.Identity.Fresh.{next_id-fresh}
use unix_notis.Store.Lifecycle.{
  insert_notification, insert_kept, insert_dropped, may_replace, assign_id, store_active,
  enforce_active_limit, should_show_popup, should_play_sound,
}
use unix_notis.Store.Lifecycle.Evict.{
  surplus_of, active_limit, enforce_active_limit_lem, archive_surplus-Frame,
}
use unix_notis.Store.Lifecycle.Insert.{room}
use unix_notis.Store.Lifecycle.Outcome.{assign_id-frame}

-- What no notification may change: configuration, do-not-disturb and inhibitors.
pub record SameSettings {H : Type 0} (s t : NotificationStore H) : Type 0 where
  pub config : t.config ≡ s.config
  pub dnd_enabled : t.dnd_enabled ≡ s.dnd_enabled
  pub dnd_revision : t.dnd_revision ≡ s.dnd_revision
  pub dnd_state_store : t.dnd_state_store ≡ s.dnd_state_store
  pub next_inhibitor_id : t.next_inhibitor_id ≡ s.next_inhibitor_id
  pub inhibitors : t.inhibitors ≡ s.inhibitors
  pub inhibited : t.inhibited ≡ s.inhibited
  pub inhibitor_count : t.inhibitor_count ≡ s.inhibitor_count

module _ {H : Type 0} where
  pub SameSettings-trans :
      {s t u : NotificationStore H} → SameSettings s t → SameSettings t u → SameSettings s u
  SameSettings-trans a b = record {
    config = b.config ∙ a.config;
    dnd_enabled = b.dnd_enabled ∙ a.dnd_enabled;
    dnd_revision = b.dnd_revision ∙ a.dnd_revision;
    dnd_state_store = b.dnd_state_store ∙ a.dnd_state_store;
    next_inhibitor_id = b.next_inhibitor_id ∙ a.next_inhibitor_id;
    inhibitors = b.inhibitors ∙ a.inhibitors;
    inhibited = b.inhibited ∙ a.inhibited;
    inhibitor_count = b.inhibitor_count ∙ a.inhibitor_count;
  }

  counter-SameSettings :
      (s t : NotificationStore H) (counter : ℕ)
      → t ≡ record s { next_id = counter }
      → SameSettings s t
  counter-SameSettings s t counter e = subst (SameSettings s) (sym e) (ground arith)

  store_active-SameSettings :
      (s : NotificationStore H) (id : ℕ) (n : Notification H) → SameSettings s (store_active s id n)
  unfolding store_active
  store_active-SameSettings s id n = ground arith

  enforce_active_limit-SameSettings :
      (s : NotificationStore H) → SameSettings s (enforce_active_limit s).0
  enforce_active_limit-SameSettings s =
      let f = archive_surplus-Frame (take (surplus_of (active_limit s) s.active) s.active) s in
      rw (enforce_active_limit_lem s) (record {
        config = f.config;
        dnd_enabled = f.dnd_enabled;
        dnd_revision = f.dnd_revision;
        dnd_state_store = f.dnd_state_store;
        next_inhibitor_id = f.next_inhibitor_id;
        inhibitors = f.inhibitors;
        inhibited = f.inhibited;
        inhibitor_count = f.inhibitor_count;
      })

  pub insert_kept-SameSettings :
      (s : NotificationStore H) (n : Notification H) (replaces_id : ℕ)
      → IsValid s
      → SameSettings s (insert_kept s n replaces_id).0
  unfolding insert_kept
  insert_kept-SameSettings s n replaces_id v =
      let u = assign_id s (may_replace s n replaces_id) replaces_id in
      let (counter, frame) = assign_id-frame s (may_replace s n replaces_id) replaces_id v in
      let stored : Notification H = record n { id = u.1 } in
      SameSettings-trans (counter-SameSettings s u.0 counter frame) (
        SameSettings-trans (store_active-SameSettings u.0 u.1 stored)
          (enforce_active_limit-SameSettings (store_active u.0 u.1 stored)))

  pub insert_notification-SameSettings :
      (s : NotificationStore H) (n : Notification H) (replaces_id : ℕ)
      → IsValid s
      → SameSettings s (insert_notification s n replaces_id).0
  unfolding insert_notification insert_dropped
  insert_notification-SameSettings s n replaces_id v = elim (Bool-cases (should_drop_inhibited s)) [
    | inl drops ↦
        let (free, i, c, same) = next_id-fresh s v.sound.next_id_IsId.1 (room s v) in
        rw drops (counter-SameSettings s (next_id s).0 _ same)
    | inr keeps ↦ rw keeps (insert_kept-SameSettings s (apply_rules s.config.rules n) replaces_id v)
  ]

  abbrev pub Passes : NotificationStore H → Urgency → Bool → Type 0
  Passes s urgency suppressed =
      (suppressed ≡ false)
      × (s.inhibited ≡ false)
      × ((s.dnd_enabled ≡ false) ⊎ (urgency ≡ Urgency.critical))

  should_show_popup_iff :
      (s t : NotificationStore H) (n : Notification H) (u : Urgency)
      → SameSettings s t
      → n.urgency ≡ u
      → (should_show_popup t n ≡ true) ↔ Passes s u n.suppress_popup
  unfolding should_show_popup popup_allowed_by_state as_u8
  should_show_popup_iff s t n Urgency.low same e = (λ h. ground arith, λ h. ground arith)
  should_show_popup_iff s t n Urgency.normal same e = (λ h. ground arith, λ h. ground arith)
  should_show_popup_iff s t n Urgency.critical same e = (λ h. ground arith, λ h. ground arith)

  should_play_sound_iff :
      (s t : NotificationStore H) (n : Notification H) (u : Urgency)
      → SameSettings s t
      → n.urgency ≡ u
      → (should_play_sound t n ≡ true) ↔ Passes s u n.suppress_sound
  unfolding should_play_sound
  should_play_sound_iff s t n Urgency.low same e = (λ h. ground arith, λ h. ground arith)
  should_play_sound_iff s t n Urgency.normal same e = (λ h. ground arith, λ h. ground arith)
  should_play_sound_iff s t n Urgency.critical same e = (λ h. ground arith, λ h. ground arith)

  drops-inhibited : (s : NotificationStore H) → should_drop_inhibited s ≡ true → s.inhibited ≡ true
  unfolding should_drop_inhibited
  drops-inhibited s h = ground arith

  -- A popup is asked for exactly when no rule suppresses it, no inhibitor is active, and
  -- do-not-disturb is off or the ruled urgency is critical; this covers dropped notifications.
  pub insert-show_popup_iff :
      (s : NotificationStore H) (n : Notification H) (replaces_id : ℕ)
      → IsValid s
      → let outcome = (insert_notification s n replaces_id).1 in
        let ruled = apply_rules s.config.rules n in
        (outcome.show_popup ≡ true) ↔ Passes s ruled.urgency ruled.suppress_popup
  unfolding insert_notification insert_kept insert_dropped
  insert-show_popup_iff s n replaces_id v =
      let ruled = apply_rules s.config.rules n in
      elim (Bool-cases (should_drop_inhibited s)) [
        | inl drops ↦
            let inhibited = drops-inhibited s drops in rw drops (λ h. cc, λ h. cc (inhibited, h.1))
        | inr keeps ↦ rw keeps (
            should_show_popup_iff s (insert_kept s ruled replaces_id).0 _ ruled.urgency
              (insert_kept-SameSettings s ruled replaces_id v) refl)
      ]

  -- A sound is allowed exactly under the same conditions, with the rule for sounds.
  pub insert-allow_sound_iff :
      (s : NotificationStore H) (n : Notification H) (replaces_id : ℕ)
      → IsValid s
      → let outcome = (insert_notification s n replaces_id).1 in
        let ruled = apply_rules s.config.rules n in
        (outcome.allow_sound ≡ true) ↔ Passes s ruled.urgency ruled.suppress_sound
  unfolding insert_notification insert_kept insert_dropped
  insert-allow_sound_iff s n replaces_id v =
      let ruled = apply_rules s.config.rules n in
      elim (Bool-cases (should_drop_inhibited s)) [
        | inl drops ↦
            let inhibited = drops-inhibited s drops in rw drops (λ h. cc, λ h. cc (inhibited, h.1))
        | inr keeps ↦ rw keeps (
            should_play_sound_iff s (insert_kept s ruled replaces_id).0 _ ruled.urgency
              (insert_kept-SameSettings s ruled replaces_id v) refl)
      ]
