-- ===== src/Popups/Reconcile.antt =====
-- What the popup list holds after it was reconciled with the daemon's active notifications.
use mathlib.Core.List.{reverse-cons}
use unix_notis.Prelude.{
  ==_iff, Bool, Bool-cases, List, Option, Option-cases, [], ap, arith, false, if◌then◌else◌, inl,
  inr, keep_if, map, nat_eq, none, not, refl, reverse, some, subst, sym, text_eq, true, ℕ, ◌&&◌,
  ◌++◌, ◌==◌, ◌∙◌, ◌∷◌, ◌≡◌,
}
use unix_notis.Prelude.Maps.{
  Distinct, contains_key, contains_key-elem, elem, insert, lookup, lookup-insert, lookup-remove,
  lookup_present, remove,
}
use unix_notis.Model.{NotificationView}
use unix_notis.Model.Same.{same_view, same_view-eq}
use unix_notis.Popups.{
  same_view, PopupEntry, UiState, add_popup_internal, apply_visible_popups, build_reconcile_plan,
  desired_seed_popups, id_of, needs_update, reconcile_seed, remove_all, remove_popup_internal,
  set_all, set_materialized, update_all, update_popup_internal, update_popup_visibility,
}

abbrev pub Entries : Type 0
Entries = List (ℕ × PopupEntry)

-- The notification that a popup shows.
abbrev pub notification_of : Option PopupEntry → Option NotificationView
notification_of none = none
notification_of (some entry) = some entry.notification

unfoldable pub shown : ℕ → Entries → Option NotificationView
shown id popups = notification_of (lookup id popups)

-- The first notification with an id.
unfoldable pub find_view : ℕ → List NotificationView → Option NotificationView
find_view id [] = none
find_view id (n ∷ ns) = if n.id == id then some n else find_view id ns

shown-insert :
    (id k : ℕ) (e : PopupEntry) (m : Entries)
    → shown id (insert k e m) ≡ (if k == id then some e.notification else shown id m)
unfolding shown
shown-insert id k e m =
    ap notification_of (lookup-insert k id e m)
    ∙ elim (Bool-cases (k == id)) [ inl h ↦ rw h refl | inr h ↦ rw h refl ]

shown-remove :
    (id k : ℕ) (m : Entries) → shown id (remove k m) ≡ (if k == id then none else shown id m)
unfolding shown
shown-remove id k m =
    ap notification_of (lookup-remove k id m)
    ∙ elim (Bool-cases (k == id)) [ inl h ↦ rw h refl | inr h ↦ rw h refl ]

-- Building or dropping widgets changes no notification.
shown-set_materialized :
    (flag : Bool) (k id : ℕ) (m : Entries) → shown id (set_materialized flag k m) ≡ shown id m
unfolding set_materialized
shown-set_materialized flag k id m = elim (Option-cases (lookup k m)) [
  | inl e ↦
      let same : set_materialized flag k m ≡ m = rw (set_materialized, e) refl in ap (shown id) same
  | inr (entry, e) ↦
      let entry' : PopupEntry = record entry { materialized = flag } in
      let new : set_materialized flag k m ≡ insert k entry' m = rw (set_materialized, e) refl in
      let here : shown k m ≡ some entry.notification = unfold shown in (ap notification_of e) in
      ap (shown id) new ∙ shown-insert id k entry' m ∙ elim (Bool-cases (k == id)) [
        | inl h ↦
            rw h (subst (λ j. some entry.notification ≡ shown j m) ((==_iff k id).0 h) (sym here))
        | inr h ↦ rw h refl
      ]
]

shown-set_all :
    (flag : Bool) (ids : List ℕ) (id : ℕ) (m : Entries) → shown id (set_all flag ids m) ≡ shown id m
unfolding set_all
shown-set_all flag [] id m = refl
shown-set_all flag (k ∷ ks) id m =
    shown-set_all flag ks id (set_materialized flag k m) ∙ shown-set_materialized flag k id m

shown-apply_visible_popups :
    (s : UiState) (desired : List ℕ) (id : ℕ)
    → shown id (apply_visible_popups s desired).popups ≡ shown id s.popups
unfolding apply_visible_popups
shown-apply_visible_popups s desired id =
    shown-set_all true desired id _ ∙ shown-set_all false _ id s.popups

shown-update_popup_visibility :
    (s : UiState) (id : ℕ) → shown id (update_popup_visibility s).popups ≡ shown id s.popups
unfolding update_popup_visibility
shown-update_popup_visibility s id = elim (Bool-cases (s.max_visible == 0)) [
  | inl h ↦ rw h (shown-apply_visible_popups s [] id)
  | inr h ↦ rw h (shown-apply_visible_popups s _ id)
]

shown-remove_all :
    (s : UiState) (ids : List ℕ) (id : ℕ)
    → shown id (remove_all s ids).popups ≡ (if elem id ids then none else shown id s.popups)
unfolding remove_all remove_popup_internal elem
shown-remove_all s [] id = refl
shown-remove_all s (k ∷ ks) id =
    shown-remove_all (remove_popup_internal s k) ks id ∙ elim (Bool-cases (k == id)) [
      | inl h ↦
          rw (h, shown-remove id k s.popups)
            (elim (Bool-cases (elem id ks)) [ inl g ↦ rw g refl | inr g ↦ rw (g, h) refl ])
      | inr h ↦ rw (h, shown-remove id k s.popups, h) refl
    ]

not_contained : (k : ℕ) (m : Entries) → lookup k m ≡ none → contains_key k m ≡ false
not_contained k m h = elim (Bool-cases (contains_key k m)) [
  | inl there ↦
      let (v, e) = lookup_present k m (sym (contains_key-elem k m) ∙ there) in absurd (cc (h, e))
  | inr absent ↦ absent
]

shown-update :
    (s : UiState) (n : NotificationView) (id : ℕ)
    → shown id (update_popup_internal s n true).popups
      ≡ (if n.id == id then some n else shown id s.popups)
unfolding update_popup_internal add_popup_internal
shown-update s n id = elim (Option-cases (lookup n.id s.popups)) [
  | inl e ↦
      let absent : contains_key n.id s.popups ≡ false = not_contained n.id s.popups e in
      rw (e, absent)
        (shown-insert id n.id (record { notification = n; materialized = false }) s.popups)
  | inr (entry, e) ↦ rw e (shown-insert id n.id (record entry { notification = n }) s.popups)
]

update_all-append :
    (s : UiState) (xs ys : List NotificationView)
    → update_all s (xs ++ ys) ≡ update_all (update_all s xs) ys
unfolding update_all
update_all-append s [] ys = refl
update_all-append s (x ∷ xs) ys = update_all-append (update_popup_internal s x true) xs ys

abbrev or_else : Option NotificationView → Option NotificationView → Option NotificationView
or_else none b = b
or_else (some a) b = some a

shown-update_all :
    (s : UiState) (ns : List NotificationView) (id : ℕ)
    → shown id (update_all s (reverse ns)).popups ≡ or_else (find_view id ns) (shown id s.popups)
unfolding find_view update_all
shown-update_all s [] id = refl
shown-update_all s (n ∷ ns) id =
    ap (λ l. shown id (update_all s l).popups) (reverse-cons n ns)
    ∙ ap (λ t. shown id t.popups) (update_all-append s (reverse ns) (n ∷ []))
    ∙ shown-update (update_all s (reverse ns)) n id
    ∙ elim (Bool-cases (n.id == id)) [ inl h ↦ rw h refl | inr h ↦ rw h (shown-update_all s ns id) ]

find_view-absent :
    (id : ℕ) (ns : List NotificationView) → elem id (map id_of ns) ≡ false → find_view id ns ≡ none
unfolding find_view elem
find_view-absent id [] h = refl
find_view-absent id (n ∷ ns) h = ground (arith, h, find_view-absent id ns)

find_view-present :
    (id : ℕ) (ns : List NotificationView)
    → elem id (map id_of ns) ≡ true
    → (n : NotificationView) × (find_view id ns ≡ some n) × (n.id ≡ id)
unfolding find_view elem
find_view-present id [] h = absurd (unfold elem in (cc))
find_view-present id (n ∷ ns) h = elim (Bool-cases (n.id == id)) [
  | inl e ↦ (n, rw e refl, (==_iff n.id id).0 e)
  | inr e ↦ rw e (find_view-present id ns (ground (arith, h, e)))
]

absent_kept :
    (p : NotificationView → Bool) (id : ℕ) (ns : List NotificationView)
    → elem id (map id_of ns) ≡ false
    → find_view id (keep_if p ns) ≡ none
unfolding find_view elem
absent_kept p id [] h = refl
absent_kept p id (n ∷ ns) h = ground (arith, h, absent_kept p id ns)

-- Among notifications with ids of their own, the kept one with an id.
find_view-keep_if :
    (p : NotificationView → Bool) (id : ℕ) (ns : List NotificationView)
    → Distinct (map id_of ns)
    → find_view id (keep_if p ns)
      ≡ elim (find_view id ns) [ none ↦ none | some n ↦ if p n then some n else none ]
unfolding find_view
find_view-keep_if p id [] d = refl
find_view-keep_if p id (n ∷ ns) d = elim (Bool-cases (n.id == id)) [
  | inl e ↦
      let none_later =
        absent_kept p id ns
          (subst (λ j. elem j (map id_of ns) ≡ false) ((==_iff n.id id).0 e) d.0) in
      elim (Bool-cases (p n)) [ inl g ↦ rw (g, e, g) refl | inr g ↦ rw (g, e, g) none_later ]
  | inr e ↦ elim (Bool-cases (p n)) [
    | inl g ↦ rw (g, e) (find_view-keep_if p id ns d.1)
    | inr g ↦ rw (g, e) (find_view-keep_if p id ns d.1)
  ]
]

-- A popup of a notification that needs no update shows it already.
true_if-not : (b : Bool) → not b ≡ false → b ≡ true
true_if-not true h = refl
true_if-not false h = cc

up_to_date :
    (popups : Entries) (n : NotificationView)
    → needs_update popups n ≡ false
    → shown n.id popups ≡ some n
unfolding needs_update shown
up_to_date popups n h = elim (Option-cases (lookup n.id popups)) [
  | inl e ↦ absurd (cc (rw (needs_update, e) at h))
  | inr (entry, e) ↦
      let same : same_view entry.notification n ≡ true =
        true_if-not (same_view entry.notification n) (rw (needs_update, e) at h) in
      rw e (ap (λ v. some v) (same_view-eq entry.notification n same))
]

elem-keep_if :
    (p : ℕ → Bool) (id : ℕ) (ids : List ℕ) → elem id (keep_if p ids) ≡ (p id && elem id ids)
unfolding elem
elem-keep_if p id [] = ground arith
elem-keep_if p id (k ∷ ks) = elim (Bool-cases (k == id)) [
  | inl e ↦
      let pe : p k ≡ p id = ap p ((==_iff k id).0 e) in ground (arith, e, pe, elem-keep_if p id ks)
  | inr e ↦ ground (arith, e, elem-keep_if p id ks)
]

-- After a seed every popup shows one of the notifications that may pop up, and each of these has its
-- popup: for any id, what is shown is the notification with that id. No two of them have the same id,
-- and the ids of the popups before all stood in their order.
pub reconcile_seed-shown :
    (s : UiState) (active : List NotificationView) (id : ℕ)
    → Distinct (map id_of (desired_seed_popups active s.control_state))
    → (elem id s.popup_order ≡ false → shown id s.popups ≡ none)
    → shown id (reconcile_seed s active).popups
      ≡ find_view id (desired_seed_popups active s.control_state)
unfolding reconcile_seed build_reconcile_plan
reconcile_seed-shown s active id d known =
    let desired = desired_seed_popups active s.control_state in
    let ids = map id_of desired in
    let stale = keep_if (λ k. not (elem k ids)) s.popup_order in
    let updates = keep_if (needs_update s.popups) desired in
    let seen =
      shown-update_popup_visibility
        (record (update_all (remove_all s stale) (reverse updates)) { popup_order = ids }) id in
    seen
    ∙ shown-update_all (remove_all s stale) updates id
    ∙ rw
        (
          find_view-keep_if (needs_update s.popups) id desired d,
          shown-remove_all s stale id,
          elem-keep_if (λ k. not (elem k ids)) id s.popup_order,
        )
        (elim (Bool-cases (elem id ids)) [
          | inl there ↦
              let (n, found, same) = find_view-present id desired there in
              rw (there, found)
                (elim (Bool-cases (needs_update s.popups n)) [
                  | inl u ↦ rw u refl
                  | inr u ↦
                      rw u (subst (λ j. shown j s.popups ≡ some n) same (up_to_date s.popups n u))
                ])
          | inr absent ↦
              rw (absent, find_view-absent id desired absent)
                (elim (Bool-cases (elem id s.popup_order)) [
                  | inl old ↦ rw old refl
                  | inr new ↦ rw new (known new)
                ])
        ])
