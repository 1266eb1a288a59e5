-- ===== src/Examples/StoreTests.antt =====
-- Tests of the store's theorems.
use unix_notis.History.Recency.{recent}
use unix_notis.Model.{to_history}
use unix_notis.Model.Control.{expired, should_archive_closed_notification}
use unix_notis.Prelude.{◌-◌, ◌+◌, ◌≢◌, ◌==◌, drop, length, take}
use unix_notis.Prelude.Maps.{contains_key, elem, insert, keys, lookup, remove}
use unix_notis.Rules.{apply_rule, apply_rules, rule_matches}
use unix_notis.Store.{Inhibitor, clear_history, set_dnd, u64_max}
use unix_notis.Store.Dnd.{finalize_dnd_write}
use unix_notis.Store.Identity.{
  next_id, bump, can_replace_notification_for_sender, find_notification, is_used,
  notification_is_owned_by, search_id, u32_mod,
}
use unix_notis.Store.Identity.Fresh.{IsId}
use unix_notis.Store.Inhibit.{err, ok, add_inhibitor, remove_inhibitor, should_drop_inhibited}
use unix_notis.Store.Inhibit.Cache.{CacheValid}
use unix_notis.Store.Lifecycle.{
  assign_id, close, dismiss_from_panel, enforce_active_limit, evict_over, insert_kept,
  insert_notification, may_replace, store_active,
}
use unix_notis.Store.Lifecycle.Evict.{active_limit, surplus_of}
use unix_notis.Store.Lifecycle.Gates.{Passes}
use unix_notis.Store.Lifecycle.Invariant.{IsValid}
use unix_notis.Store.Lifecycle.Outcome.{grown}
use unix_notis.Prelude.{
  nat_eq, text_eq, if◌then◌else◌, ◌≤◌, ◌<◌, ◌≡◌, refl, ◌⊎◌, ◌↔◌, true, false, none, some, [], ◌∷◌,
  ◌++◌, arith,
}
use unix_notis.Examples.{busy, note, fresh, later, mail, bus_one, bus_two}
use unix_notis.Examples.Data.{busy-IsValid, busy-CacheValid}
use unix_notis.Store.Lifecycle.Insert.{insert_notification-IsValid}
use unix_notis.Store.Lifecycle.Outcome.{insert-active}
use unix_notis.Store.Lifecycle.Safety.{insert-keeps_foreign}
use unix_notis.Store.Lifecycle.Outcome.{insert-unowned_fresh}
use unix_notis.Store.Lifecycle.Gates.{insert-show_popup_iff}
use unix_notis.Store.Lifecycle.Gates.{insert-allow_sound_iff}
use unix_notis.Store.Identity.Fresh.{next_id-fresh}
use unix_notis.Store.Lifecycle.Close.{close-archives}
use unix_notis.Store.Lifecycle.Remove.{dismiss_from_panel_lem}
use unix_notis.Store.Inhibit.Cache.{add_inhibitor_lem}
use unix_notis.Store.Inhibit.Cache.{remove_inhibitor_lem}
use unix_notis.Store.Dnd.{finalize-undoes}
use unix_notis.Store.Dnd.{finalize-keeps_newer}

busy-kept : should_drop_inhibited busy ≡ false
unfolding should_drop_inhibited
busy-kept = refl

two_there : lookup 2 busy.active ≡ some (note 2 bus_two 20)
unfolding lookup
two_there = refl

one_there : lookup 1 busy.active ≡ some (note 1 bus_one 10)
unfolding lookup
one_there = refl

two_foreign : notification_is_owned_by (note 2 bus_two 20) (some bus_one) (some 10) (some 5) ≡ false
unfolding notification_is_owned_by
two_foreign = refl

two_refused : can_replace_notification_for_sender busy 2 (some bus_one) (some 10) (some 5) ≡ false
unfolding can_replace_notification_for_sender find_notification notification_is_owned_by lookup
two_refused = refl

two_stays : elem 2 (insert_notification busy fresh 2).1.evicted ≡ false
unfolding insert_notification insert_kept should_drop_inhibited may_replace
    can_replace_notification_for_sender find_notification notification_is_owned_by lookup assign_id
    next_id search_id is_used store_active enforce_active_limit evict_over apply_rules rule_matches
    insert remove keys elem contains_key apply_rule bump unix_notis.Rules.contains_ci
    unix_notis.Rules.any_window unix_notis.Rules.eq_ignore_ascii_case unix_notis.Rules.lower
    unix_notis.Store.Identity.max_attempts unix_notis.Store.saturating_add unix_notis.History.len
    unix_notis.History.contains
two_stays = refl

few : busy.next_id < u32_mod
few = omega arith

few_stored : length busy.active + length busy.history.entries < 4294967295
few_stored = omega arith

archives : 0 < busy.config.history.max_entries
archives = omega arith

archivable : should_archive_closed_notification expired false false ≡ true
unfolding should_archive_closed_notification
archivable = refl

tokens_left : busy.next_inhibitor_id < u64_max
tokens_left = omega arith

two_left : busy.dnd_revision + 2 ≤ u64_max
two_left = omega arith

off_on : busy.dnd_enabled ≢ true
off_on = λ h. cc

two_later : busy.dnd_revision + 1 < later.dnd_revision
two_later = omega arith

insert_notification-IsValid_example : IsValid (insert_notification busy fresh 1).0
insert_notification-IsValid_example = insert_notification-IsValid busy fresh 1 busy-IsValid

insert-active_example :
    let (t, outcome) = insert_notification busy fresh 1 in
    let id = outcome.notification.id in
    let all = grown busy id outcome.notification in
    let surplus = surplus_of (active_limit busy) all in
    (outcome.notification ≡ record (apply_rules busy.config.rules fresh) { id = id })
    × (t.active ≡ drop surplus all)
    × (outcome.evicted ≡ keys (take surplus all))
    × (outcome.dropped ≡ false)
insert-active_example = insert-active busy fresh 1 busy-IsValid busy-kept

insert-keeps_foreign_example :
    lookup 2 (insert_notification busy fresh 2).0.active ≡ some (note 2 bus_two 20)
insert-keeps_foreign_example =
    insert-keeps_foreign busy fresh (note 2 bus_two 20) 2 2 busy-IsValid two_there two_foreign
      two_stays

insert-unowned_fresh_example :
    is_used busy (insert_notification busy fresh 2).1.notification.id ≡ false
insert-unowned_fresh_example = insert-unowned_fresh busy fresh 2 busy-IsValid two_refused

insert-show_popup_iff_example :
    let outcome = (insert_notification busy fresh 0).1 in
    let ruled = apply_rules busy.config.rules fresh in
    (outcome.show_popup ≡ true) ↔ Passes busy ruled.urgency ruled.suppress_popup
insert-show_popup_iff_example = insert-show_popup_iff busy fresh 0 busy-IsValid

insert-allow_sound_iff_example :
    let outcome = (insert_notification busy fresh 0).1 in
    let ruled = apply_rules busy.config.rules fresh in
    (outcome.allow_sound ≡ true) ↔ Passes busy ruled.urgency ruled.suppress_sound
insert-allow_sound_iff_example = insert-allow_sound_iff busy fresh 0 busy-IsValid

next_id-fresh_example :
    (is_used busy (next_id busy).1 ≡ false)
    × IsId (next_id busy).1
    × IsId (next_id busy).0.next_id
    × ((next_id busy).0 ≡ record busy { next_id = bump (next_id busy).1 })
next_id-fresh_example = next_id-fresh busy few few_stored

close-archives_example :
    let archive = recent busy.history ++ (1, to_history (note 1 bus_one 10)) ∷ [] in
    recent (close busy 1 expired).0.history
    ≡ drop (length archive - busy.config.history.max_entries) archive
close-archives_example =
    close-archives busy 1 expired (note 1 bus_one 10) busy-IsValid one_there archives archivable

dismiss_from_panel_lem_example :
    let (t, outcome) = dismiss_from_panel busy 1 in
    IsValid t
    × (lookup 2 t.active ≡ (if 1 == 2 then none else lookup 2 busy.active))
    × (lookup 2 t.history.entries ≡ (if 1 == 2 then none else lookup 2 busy.history.entries))
    × (lookup 1 t.expirations ≡ none)
    × (outcome.removed_active ≡ elem 1 (keys busy.active))
    × (outcome.removed_history ≡ elem 1 (keys busy.history.entries))
dismiss_from_panel_lem_example = dismiss_from_panel_lem busy 1 2 busy-IsValid

add_inhibitor_lem_example :
    let (t, token) = add_inhibitor busy bus_two mail 1 in
    (elem token (keys busy.inhibitors) ≡ false)
    × (busy.next_inhibitor_id ≤ token)
    × (token < t.next_inhibitor_id)
    × (lookup 2 t.inhibitors ≡ (
        if token == 2
        then some (record { id = token; owner = bus_two; reason = mail; scope = 1 })
        else lookup 2 busy.inhibitors))
add_inhibitor_lem_example = add_inhibitor_lem busy bus_two mail 1 2 busy-CacheValid tokens_left

remove_inhibitor_lem_example :
    let (t, result) = remove_inhibitor busy 1 bus_two in
    ((lookup 1 busy.inhibitors ≡ none) × (t ≡ busy) × (result ≡ ok false))
    ⊎ ((i : Inhibitor) × (lookup 1 busy.inhibitors ≡ some i)
        × (i.owner ≢ bus_two)
        × (t ≡ busy)
        × (result ≡ err (record { expected_owner = i.owner; actual_owner = bus_two })))
    ⊎ ((i : Inhibitor) × (lookup 1 busy.inhibitors ≡ some i)
        × (i.owner ≡ bus_two)
        × CacheValid t
        × (lookup 1 t.inhibitors ≡ (if 1 == 1 then none else lookup 1 busy.inhibitors))
        × (result ≡ ok true))
remove_inhibitor_lem_example = remove_inhibitor_lem busy 1 1 bus_two busy-CacheValid

finalize-undoes_example :
    let (t, write) = set_dnd busy true in
    finalize_dnd_write t write false ≡ (
      record busy { dnd_revision = busy.dnd_revision + 2 },
      record { failed = true; signalled = false },
    )
finalize-undoes_example = finalize-undoes busy true (record { path = mail }) refl off_on two_left

finalize-keeps_newer_example : (finalize_dnd_write later (set_dnd busy true).1 false).0 ≡ later
finalize-keeps_newer_example = finalize-keeps_newer busy later true two_later
