-- ===== src/Daemon/Reachable.antt =====
-- Every state that the daemon's store can reach is valid. One step is what the daemon does under
-- one hold of the store's lock, so a run is any interleaving of its tasks.
use unix_notis.Prelude.{
  nat_eq, ℕ, ◌%◌, ◌≤◌, ◌<◌, ◌≡◌, refl, subst, ap, ◌∙◌, inl, inr, Bool, not, Option, List, [], arith,
  length, any, Text, Bool-cases, if◌then◌else◌,
}
use unix_notis.Prelude.Maps.{elem, keys, values, remove, insert, lookup}
use unix_notis.Model.{Notification}
use unix_notis.Model.Control.{CloseReason}
use unix_notis.Config.{Config, max_history_entries}
use unix_notis.Store.{
  NotificationStore, DndStateStore, Loaded, DndWrite, new_with_state_store, set_dnd, toggle_dnd,
  rollback_dnd_write_if_current, clear_history, Inhibitor,
}
use unix_notis.Store.Inhibit.{
  add_inhibitor, remove_inhibitor, remove_inhibitors_by_owner, u32_mod, refresh_inhibit_state,
}
use unix_notis.Store.Inhibit.Cache.{
  CacheValid, add_inhibitor-CacheValid, remove_inhibitors_by_owner_lem,
}
use unix_notis.Store.Lifecycle.{close, dismiss_from_panel, drain_active_ids}
use unix_notis.Store.Lifecycle.Invariant.{IsValid}
use unix_notis.Store.Lifecycle.Close.{close-IsValid}
use unix_notis.Daemon.Frames.{
  SameSettings-CacheValid, with_lists-SameSettings, close-SameSettings, with_settings-IsValid,
  notify-SameSettings, notify-IsValid,
}
use unix_notis.Store.Lifecycle.Remove.{dismiss_from_panel_lem, clear_all-IsValid}
use unix_notis.Store.Lifecycle.Gates.{SameSettings}
use unix_notis.Daemon.Notify.{notify}
use unix_notis.History.{HistoryStore}
use unix_notis.Store.Inhibit.{inhibits_popups}
use unix_notis.Prelude.{max, text_beq}
use unix_notis.History.{remove_entry, clear}
use unix_notis.History.Valid.{new-IsValid}
use unix_notis.Store.{saturating_add, bool_eq}
use unix_notis.Store.Dnd.{set_dnd-same, set_dnd-other, rollback_cases}
use unix_notis.Store.Inhibit.{retain_others}
use unix_notis.Store.Inhibit.Cache.{
  removed-CacheValid, remove_inhibitor_cases, remove_inhibitors_by_owner-some,
  remove_inhibitors_by_owner-none,
}
use unix_notis.Store.Lifecycle.{is_some}

-- One hold of the store's lock that changes the store: `Notify`; a close (by the caller, the
-- scheduler or the user); a dismissal; `ClearAll`; a write of do-not-disturb and the undoing of any
-- earlier one; and inhibitors that come, go, or lose their owner.
pub data Step {H : Type 0} (s : NotificationStore H) : NotificationStore H → Type 0 where
  notified : (n : Notification H) (replaces_id now : ℕ) → Step s (notify s n replaces_id now).0
  closed : (id : ℕ) (reason : CloseReason) → Step s (close s id reason).0
  dismissed : (id : ℕ) → Step s (dismiss_from_panel s id).0
  cleared : Step s (clear_history (drain_active_ids s).0)
  dnd_set : (enabled : Bool) → Step s (set_dnd s enabled).0
  dnd_toggled : Step s (toggle_dnd s).0
  dnd_rolled_back : (write : DndWrite) → Step s (rollback_dnd_write_if_current s write).0
  inhibitor_added :
      (owner reason : Text) (scope : ℕ) → Step s (add_inhibitor s owner reason scope).0
  inhibitor_removed : (id : ℕ) (owner : Text) → Step s (remove_inhibitor s id owner).0
  owner_lost : (owner : Text) → Step s (remove_inhibitors_by_owner s owner).0

-- The states of a daemon that started with a configuration.
pub data Reachable {H : Type 0} (config : Config) (backend : Option DndStateStore) (loaded : Loaded)
    : NotificationStore H → Type 0 where
  started : Reachable config backend loaded (new_with_state_store config backend loaded)
  stepped :
      (s t : NotificationStore H)
      → Reachable config backend loaded s
      → Step s t
      → Reachable config backend loaded t

pub record Good {H : Type 0} (config : Config) (s : NotificationStore H) : Type 0 where
  pub valid : IsValid s
  pub cache : CacheValid s
  pub configured : s.config ≡ config

module _ {H : Type 0} where
  started-Good :
      (config : Config) (backend : Option DndStateStore) (loaded : Loaded)
      → config.history.max_entries ≤ max_history_entries
      → Good config (new_with_state_store {H = H} config backend loaded)
  unfolding new_with_state_store keys unix_notis.History.new elem lookup values
  started-Good config backend loaded sane = record {
    valid = record {
      sound = record {
        active_distinct = tt;
        active_keyed = tt;
        history_fits = record { valid = new-IsValid; bounded = omega arith };
        apart = λ k h. cc;
        timers = λ k h. refl;
        next_id_IsId = omega arith;
      };
      active_bounded = omega arith;
      entries_sane = sane;
    };
    cache = record { count = omega arith; flag = refl; distinct = tt; below = λ room k h. cc };
    configured = refl;
  }

  -- Steps that change lists and timers only.
  lists-Good :
      (config : Config) (s t : NotificationStore H)
      → SameSettings s t
      → IsValid t
      → Good config s
      → Good config t
  lists-Good config s t same valid g = record {
    valid = valid;
    cache = SameSettings-CacheValid s t same g.cache;
    configured = same.config ∙ g.configured;
  }

  dismiss-SameSettings :
      (s : NotificationStore H) (id : ℕ) → SameSettings s (dismiss_from_panel s id).0
  unfolding dismiss_from_panel
  dismiss-SameSettings s id =
      with_lists-SameSettings s (remove id s.active) (remove_entry s.history id).0
        (if is_some (lookup id s.active) then remove id s.expirations else s.expirations)

  clear-SameSettings :
      (s : NotificationStore H) → SameSettings s (clear_history (drain_active_ids s).0)
  unfolding clear_history drain_active_ids
  clear-SameSettings s = with_lists-SameSettings s [] (clear s.history) []

  dnd-Good :
      (config : Config) (s : NotificationStore H) (enabled : Bool) (revision : ℕ)
      → Good config s
      → Good config (record s { dnd_enabled = enabled; dnd_revision = revision })
  dnd-Good config s enabled revision g = record {
    valid =
        with_settings-IsValid s enabled revision s.next_inhibitor_id s.inhibitors s.inhibited
          s.inhibitor_count g.valid;
    cache = record {
      count = g.cache.count;
      flag = g.cache.flag;
      distinct = g.cache.distinct;
      below = g.cache.below;
    };
    configured = g.configured;
  }

  set_dnd-Good :
      (config : Config) (s : NotificationStore H) (enabled : Bool)
      → Good config s
      → Good config (set_dnd s enabled).0
  set_dnd-Good config s enabled g = elim (Bool-cases (bool_eq s.dnd_enabled enabled)) [
    | inl e ↦ rw (set_dnd-same s enabled e) g
    | inr e ↦
        rw (set_dnd-other s enabled e)
          (dnd-Good config s enabled (saturating_add s.dnd_revision 1) g)
  ]

  toggle_dnd-Good :
      (config : Config) (s : NotificationStore H) → Good config s → Good config (toggle_dnd s).0
  unfolding toggle_dnd set_dnd
  toggle_dnd-Good config s g = set_dnd-Good config s (not s.dnd_enabled) g

  inhibitors-Good :
      (config : Config) (s : NotificationStore H) (next : ℕ) (all : List (ℕ × Inhibitor))
      → let t = refresh_inhibit_state (record s { next_inhibitor_id = next; inhibitors = all }) in
        CacheValid t → Good config s → Good config t
  unfolding refresh_inhibit_state
  inhibitors-Good config s next all c g = record {
    valid =
        with_settings-IsValid s s.dnd_enabled s.dnd_revision next all
          (any (λ i. inhibits_popups i.scope) (values all)) (length all % u32_mod) g.valid;
    cache = c;
    configured = g.configured;
  }

  add_inhibitor-Good :
      (config : Config) (s : NotificationStore H) (owner reason : Text) (scope : ℕ)
      → Good config s
      → Good config (add_inhibitor s owner reason scope).0
  unfolding add_inhibitor
  add_inhibitor-Good config s owner reason scope g =
      let token = max s.next_inhibitor_id 1 in
      inhibitors-Good config s (saturating_add token 1)
        (insert token (record { id = token; owner = owner; reason = reason; scope = scope })
          s.inhibitors)
        (add_inhibitor-CacheValid s owner reason scope g.cache) g

  remove_inhibitor-Good :
      (config : Config) (s : NotificationStore H) (id : ℕ) (owner : Text)
      → Good config s
      → Good config (remove_inhibitor s id owner).0
  remove_inhibitor-Good config s id owner g = elim (remove_inhibitor_cases s id owner) [
    | inl same ↦ rw same g
    | inr gone ↦ rw gone (
        inhibitors-Good config s s.next_inhibitor_id (remove id s.inhibitors)
          (removed-CacheValid s id g.cache) g)
  ]

  owner_lost-Good :
      (config : Config) (s : NotificationStore H) (owner : Text)
      → Good config s
      → Good config (remove_inhibitors_by_owner s owner).0
  owner_lost-Good config s owner g =
      let after = remove_inhibitors_by_owner_lem s owner g.cache in
      elim (Bool-cases (any (λ i. text_beq i.owner owner) (values s.inhibitors))) [
        | inl some_go ↦
            let e = remove_inhibitors_by_owner-some s owner some_go in
            rw e (
              inhibitors-Good config s s.next_inhibitor_id (retain_others owner s.inhibitors)
                (subst (λ r. CacheValid r.0) e after.0) g)
        | inr none_go ↦ rw (remove_inhibitors_by_owner-none s owner none_go) g
      ]

  Step-Good :
      (config : Config) (s t : NotificationStore H)
      → 0 < config.history.max_active
      → Good config s
      → Step s t
      → Good config t
  Step-Good config s t some_room g (notified n replaces_id now) =
      lists-Good config s (notify s n replaces_id now).0
        (notify-SameSettings s n replaces_id now g.valid)
        (notify-IsValid s n replaces_id now g.valid
          (omega (arith, some_room, ap (λ c. c.history.max_active) g.configured)))
        g
  Step-Good config s t some_room g (closed id reason) =
      lists-Good config s (close s id reason).0 (close-SameSettings s id reason)
        (close-IsValid s id reason g.valid) g
  Step-Good config s t some_room g (dismissed id) =
      lists-Good config s (dismiss_from_panel s id).0 (dismiss-SameSettings s id)
        (dismiss_from_panel_lem s id 0 g.valid).0 g
  Step-Good config s t some_room g cleared =
      lists-Good config s (clear_history (drain_active_ids s).0) (clear-SameSettings s)
        (clear_all-IsValid s g.valid) g
  Step-Good config s t some_room g (dnd_set enabled) = set_dnd-Good config s enabled g
  Step-Good config s t some_room g dnd_toggled = toggle_dnd-Good config s g
  Step-Good config s t some_room g (dnd_rolled_back write) = elim (rollback_cases s write) [
    | inl same ↦ rw same g
    | inr back ↦ rw back (dnd-Good config s write.previous (saturating_add s.dnd_revision 1) g)
  ]
  Step-Good config s t some_room g (inhibitor_added owner reason scope) =
      add_inhibitor-Good config s owner reason scope g
  Step-Good config s t some_room g (inhibitor_removed id owner) =
      remove_inhibitor-Good config s id owner g
  Step-Good config s t some_room g (owner_lost owner) = owner_lost-Good config s owner g

  -- Whatever a daemon that keeps at least one active notification is asked, in any order and
  -- interleaving: its store stays valid, its inhibitor cache right, and its configuration as it was.
  pub Reachable-Good :
      (config : Config) (backend : Option DndStateStore) (loaded : Loaded) (s : NotificationStore H)
      → config.history.max_entries ≤ max_history_entries
      → 0 < config.history.max_active
      → Reachable config backend loaded s
      → Good config s
  Reachable-Good config backend loaded s sane some_room started =
      started-Good config backend loaded sane
  Reachable-Good config backend loaded u sane some_room (stepped s t r step) =
      Step-Good config s t some_room (Reachable-Good config backend loaded s sane some_room r) step
