-- ===== src/Store/Lifecycle/Evict.antt =====
-- What `enforce_active_limit` does: the surplus goes to the archive, oldest first.
use unix_notis.Prelude.{
  nat_eq, ℕ, suc, ◌-◌, ◌≡◌, refl, ap, ◌∙◌, inl, inr, List, [], ◌∷◌, arith, length, min, take, drop,
  drop_all, take_all, leb, ◌==◌, Bool-cases,
}
use unix_notis.Prelude.Maps.{keys}
use unix_notis.Model.{Notification}
use unix_notis.Model.Control.{CloseReason}
use unix_notis.Store.{NotificationStore}
use unix_notis.Store.Lifecycle.{
  push_history, evict_one, evict_all, evict_over, enforce_active_limit, active_hard_cap,
}

module _ {H : Type 0} where
  -- Archiving changes the history alone, and looks at the configuration and the history alone.
  pub push_history-frame :
      (s : NotificationStore H) (n : Notification H) (reason : CloseReason)
      → push_history s n reason ≡ record s { history = (push_history s n reason).history }
  unfolding push_history
  push_history-frame s n reason = ground arith

  -- The surplus in turn: its timer goes, and it is archived.
  unfoldable pub archive_surplus :
      List (ℕ × Notification H) → NotificationStore H → NotificationStore H
  archive_surplus [] s = s
  archive_surplus ((id, n) ∷ surplus) s = archive_surplus surplus (evict_one s id n)

  abbrev pub with_active : NotificationStore H → List (ℕ × Notification H) → NotificationStore H
  with_active s active = record s { active = active }

  evict_one-with_active :
      (s : NotificationStore H) (active : List (ℕ × Notification H)) (id : ℕ) (n : Notification H)
      → evict_one (with_active s active) id n ≡ with_active (evict_one s id n) active
  unfolding evict_one push_history
  evict_one-with_active s active id n = ground arith

  archive_surplus-with_active :
      (surplus : List (ℕ × Notification H)) (s : NotificationStore H)
      (active : List (ℕ × Notification H))
      → archive_surplus surplus (with_active s active)
        ≡ with_active (archive_surplus surplus s) active
  unfolding archive_surplus
  archive_surplus-with_active [] s active = refl
  archive_surplus-with_active ((id, n) ∷ surplus) s active =
      ap (archive_surplus surplus) (evict_one-with_active s active id n)
      ∙ archive_surplus-with_active surplus (evict_one s id n) active

  -- One round before the rest: the list that the round leaves behind is overwritten later.
  archive_surplus-round :
      (surplus active rest : List (ℕ × Notification H)) (s : NotificationStore H) (id : ℕ)
      (n : Notification H)
      → with_active (archive_surplus surplus (evict_one (with_active s active) id n)) rest
        ≡ with_active (archive_surplus ((id, n) ∷ surplus) s) rest
  unfolding archive_surplus
  archive_surplus-round surplus active rest s id n =
      ap (λ (t : NotificationStore H). with_active (archive_surplus surplus t) rest)
        (evict_one-with_active s active id n)
      ∙ ap (λ (t : NotificationStore H). with_active t rest)
          (archive_surplus-with_active surplus (evict_one s id n) active)

  evict_all_lem :
      (active : List (ℕ × Notification H)) (s : NotificationStore H)
      → evict_all active s ≡ (with_active (archive_surplus active s) [], keys active)
  unfolding evict_all keys
  evict_all_lem [] s = unfold archive_surplus in refl
  evict_all_lem ((id, n) ∷ active) s =
      rw (evict_all_lem active (evict_one (with_active s active) id n)) (
        ap (λ (t : NotificationStore H). (t, id ∷ keys active))
          (archive_surplus-round active active [] s id n))

  -- How many of the active notifications are over the limit.
  abbrev pub surplus_of : ℕ → List (ℕ × Notification H) → ℕ
  surplus_of max_active active = length active - max_active

  abbrev evicts : ℕ → List (ℕ × Notification H) → NotificationStore H → NotificationStore H × List ℕ
  evicts k active s =
      (with_active (archive_surplus (take k active) s) (drop k active), keys (take k active))

  evict_over_lem :
      (max_active : ℕ) (active : List (ℕ × Notification H)) (s : NotificationStore H)
      → evict_over max_active active s ≡ evicts (surplus_of max_active active) active s
  unfolding evict_over archive_surplus keys
  evict_over_lem max_active [] s = let nothing : 0 - max_active ≡ 0 = omega arith in rw nothing refl
  evict_over_lem max_active ((id, n) ∷ active) s =
      elim (Bool-cases (leb (suc (length active)) max_active)) [
        | inl fits ↦
            let nothing : suc (length active) - max_active ≡ 0 = ground arith in
            rw (fits, nothing) refl
        | inr over ↦
            let more : suc (length active) - max_active ≡ suc (length active - max_active) =
              ground arith in
            let k = length active - max_active in
            rw (over, more)
              (rw (evict_over_lem max_active active (evict_one (with_active s active) id n)) (
                ap (λ (t : NotificationStore H). (t, id ∷ keys (take k active)))
                  (archive_surplus-round (take k active) active (drop k active) s id n)))
      ]

  abbrev pub active_limit : NotificationStore H → ℕ
  active_limit s = min s.config.history.max_active active_hard_cap

  -- Either loop of `enforce_active_limit` evicts exactly the oldest notifications over the limit:
  -- their ids are reported, oldest first, they are archived in that order, and the newest stay.
  pub enforce_active_limit_lem :
      (s : NotificationStore H)
      → let surplus = take (surplus_of (active_limit s) s.active) s.active in
        enforce_active_limit s ≡ (
          with_active
              (archive_surplus surplus s)
              (drop (surplus_of (active_limit s) s.active) s.active),
          keys surplus,
        )
  unfolding enforce_active_limit
  enforce_active_limit_lem s = elim (Bool-cases (active_limit s == 0)) [
    | inl zero_limit ↦
        let all : surplus_of (active_limit s) s.active ≡ length s.active = ground arith in
        rw (zero_limit, all) (rw (take_all s.active, drop_all s.active) (evict_all_lem s.active s))
    | inr some_limit ↦ rw some_limit (evict_over_lem (active_limit s) s.active s)
  ]

  -- What archiving the surplus leaves alone.
  pub record Frame (s t : NotificationStore H) : Type 0 where
    pub config : t.config ≡ s.config
    pub next_id : t.next_id ≡ s.next_id
    pub dnd_enabled : t.dnd_enabled ≡ s.dnd_enabled
    pub dnd_revision : t.dnd_revision ≡ s.dnd_revision
    pub dnd_state_store : t.dnd_state_store ≡ s.dnd_state_store
    pub next_inhibitor_id : t.next_inhibitor_id ≡ s.next_inhibitor_id
    pub inhibitors : t.inhibitors ≡ s.inhibitors
    pub inhibited : t.inhibited ≡ s.inhibited
    pub inhibitor_count : t.inhibitor_count ≡ s.inhibitor_count

  pub evict_one-Frame :
      (s : NotificationStore H) (id : ℕ) (n : Notification H) → Frame s (evict_one s id n)
  unfolding evict_one push_history
  evict_one-Frame s id n = ground arith

  pub archive_surplus-Frame :
      (surplus : List (ℕ × Notification H)) (s : NotificationStore H)
      → Frame s (archive_surplus surplus s)
  unfolding archive_surplus
  archive_surplus-Frame [] s = ground arith
  archive_surplus-Frame ((id, n) ∷ surplus) s =
      let first = evict_one-Frame s id n in
      let rest = archive_surplus-Frame surplus (evict_one s id n) in
      record {
        config = rest.config ∙ first.config;
        next_id = rest.next_id ∙ first.next_id;
        dnd_enabled = rest.dnd_enabled ∙ first.dnd_enabled;
        dnd_revision = rest.dnd_revision ∙ first.dnd_revision;
        dnd_state_store = rest.dnd_state_store ∙ first.dnd_state_store;
        next_inhibitor_id = rest.next_inhibitor_id ∙ first.next_inhibitor_id;
        inhibitors = rest.inhibitors ∙ first.inhibitors;
        inhibited = rest.inhibited ∙ first.inhibited;
        inhibitor_count = rest.inhibitor_count ∙ first.inhibitor_count;
      }
