-- ===== src/Store/Lifecycle/Invariant.antt =====
-- The invariant of the notification store, and that the eviction of the surplus restores it.
use unix_notis.Prelude.{
  nat_eq, ℕ, ◌≤◌, ◌≡◌, refl, sym, ap, ◌∙◌, inl, inr, true, false, ◌||◌, none, List, [], ◌∷◌, ◌++◌,
  arith, length, take, drop, take-append-drop, length-drop, ==_iff, Bool-cases,
}
use unix_notis.Prelude.Maps.{elem, keys, lookup, Distinct, elem-append, keys-append}
use unix_notis.Model.{Notification}
use unix_notis.Config.{max_history_entries}
use unix_notis.Store.{NotificationStore}
use unix_notis.Store.Identity.Fresh.{IsId}
use unix_notis.Store.Lifecycle.{enforce_active_limit}
use unix_notis.Store.Lifecycle.Evict.{
  archive_surplus, archive_surplus-Frame, with_active, surplus_of, active_limit,
  enforce_active_limit_lem,
}
use unix_notis.Store.Lifecycle.Archive.{
  Keyed, HistoryFits, archive_surplus-HistoryFits, archive_surplus-keys, archive_surplus-timers,
}

-- All but the bound on the active list, which an insertion breaks for a moment.
pub record Sound {H : Type 0} (s : NotificationStore H) : Type 0 where
  -- No id is active twice, and each notification stands under its own id.
  pub active_distinct : Distinct (keys s.active)
  pub active_keyed : Keyed s.active
  -- The archive is well formed and within its configured size.
  pub history_fits : HistoryFits s
  -- No id is both active and archived.
  pub apart : (k : ℕ) → elem k (keys s.active) ≡ true → elem k (keys s.history.entries) ≡ false
  -- Only active notifications have a timer.
  pub timers : (k : ℕ) → elem k (keys s.active) ≡ false → lookup k s.expirations ≡ none
  pub next_id_IsId : IsId s.next_id

pub record IsValid {H : Type 0} (s : NotificationStore H) : Type 0 where
  pub sound : Sound s
  pub open sound use *
  pub active_bounded : length s.active ≤ active_limit s
  -- The configuration went through `sanitize_history`.
  pub entries_sane : s.config.history.max_entries ≤ max_history_entries

module _ {H : Type 0} where
  Keyed-append : (xs ys : List (ℕ × Notification H)) → Keyed (xs ++ ys) → Keyed xs × Keyed ys
  Keyed-append [] ys k = (tt, k)
  Keyed-append ((i, n) ∷ xs) ys k = let (kx, ky) = Keyed-append xs ys k.1 in ((k.0, kx), ky)

Distinct-append :
    (xs ys : List ℕ)
    → Distinct (xs ++ ys)
    → Distinct ys × ((k : ℕ) → elem k ys ≡ true → elem k xs ≡ false)
unfolding elem
Distinct-append [] ys d = (d, λ k h. refl)
Distinct-append (x ∷ xs) ys d =
    let (dy, apart) = Distinct-append xs ys d.1 in
    (dy, λ k h. ground (arith, apart k h, elem-append x xs ys, d.0, ==_iff x k))

module _ {H : Type 0} where
  evicted-apart :
      (s : NotificationStore H) (xs ys : List (ℕ × Notification H)) (k : ℕ)
      → s.active ≡ xs ++ ys
      → Sound s
      → elem k (keys ys) ≡ true
      → elem k (keys (archive_surplus xs s).history.entries) ≡ false
  evicted-apart s xs ys k e v h =
      let split : keys s.active ≡ keys xs ++ keys ys = ap keys e ∙ keys-append xs ys in
      let (dy, apart) = Distinct-append (keys xs) (keys ys) (rw split at v.active_distinct) in
      let (kx, ky) = Keyed-append xs ys (rw e at v.active_keyed) in
      let active : elem k (keys s.active) ≡ true =
        ap (elem k) split ∙ elem-append k (keys xs) (keys ys) ∙ ground (arith, h) in
      elim (Bool-cases (elem k (keys (archive_surplus xs s).history.entries))) [
        | inl there ↦ elim (archive_surplus-keys xs s k kx there) [
          | inl evicted ↦ cc (evicted, apart k h)
          | inr old ↦ cc (old, v.apart k active)
        ]
        | inr absent ↦ absent
      ]

  evicted-timers :
      (s : NotificationStore H) (xs ys : List (ℕ × Notification H)) (k : ℕ)
      → s.active ≡ xs ++ ys
      → Sound s
      → elem k (keys ys) ≡ false
      → lookup k (archive_surplus xs s).expirations ≡ none
  evicted-timers s xs ys k e v h =
      let split : elem k (keys s.active) ≡ (elem k (keys xs) || elem k (keys ys)) =
        ap (λ m. elem k (keys m)) e
        ∙ ap (elem k) (keys-append xs ys)
        ∙ elem-append k (keys xs) (keys ys) in
      archive_surplus-timers xs s k ∙ ground (arith, split, v.timers k)

  evicted-Sound :
      (s : NotificationStore H) (xs ys : List (ℕ × Notification H))
      → s.active ≡ xs ++ ys
      → Sound s
      → Sound (with_active (archive_surplus xs s) ys)
  evicted-Sound s xs ys e v =
      let split : keys s.active ≡ keys xs ++ keys ys = ap keys e ∙ keys-append xs ys in
      let fits = archive_surplus-HistoryFits xs s v.history_fits in
      record {
        active_distinct = (Distinct-append (keys xs) (keys ys) (rw split at v.active_distinct)).0;
        active_keyed = (Keyed-append xs ys (rw e at v.active_keyed)).1;
        history_fits = record { valid = fits.valid; bounded = fits.bounded };
        apart = λ k. evicted-apart s xs ys k e v;
        timers = λ k. evicted-timers s xs ys k e v;
        next_id_IsId = rw (archive_surplus-Frame xs s).next_id v.next_id_IsId;
      }

  -- Enforcing the limit on a sound store makes it valid: at most `max_active`, and never more than
  -- 12, notifications are active, and what was evicted is consistently archived.
  pub enforce_active_limit-IsValid :
      (s : NotificationStore H)
      → Sound s
      → s.config.history.max_entries ≤ max_history_entries
      → IsValid (enforce_active_limit s).0
  enforce_active_limit-IsValid s v sane =
      let k = surplus_of (active_limit s) s.active in
      let xs = take k s.active in
      let ys = drop k s.active in
      rw (enforce_active_limit_lem s) (record {
        sound = evicted-Sound s xs ys (sym (take-append-drop k s.active)) v;
        active_bounded =
            rw (archive_surplus-Frame xs s).config (omega (arith, length-drop k s.active));
        entries_sane = rw (archive_surplus-Frame xs s).config sane;
      })
