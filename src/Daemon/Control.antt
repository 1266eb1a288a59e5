-- ===== src/Daemon/Control.antt =====
-- The inhibit and uninhibit calls: apply_inhibit and apply_uninhibit of crates/unixnotis-daemon/src/
-- daemon/control/inhibit.rs, and control/sanitize.rs. Whether a call is authorized is an argument, as
-- is `str::trim`; the signals that follow a change are in Announce.
use Prim.Native.Nat.{bit_and, bit_and-bitwise, digits}
use unix_notis.Prelude.{
  Bool, Bool-cases, List, Option, Text, [], any, arith, false, if◌then◌else◌, inl, inr, leb, length,
  min, nat_eq, none, refl, some, subst, suc, text_eq, true, zero, ℕ, ◌%◌, ◌/◌, ◌<◌, ◌==◌, ◌∙◌, ◌∷◌,
  ◌≡◌, ◌≤◌,
}
use unix_notis.Prelude.Maps.{insert, values}
use unix_notis.Store.{Inhibitor, NotificationStore}
use unix_notis.Store.Inhibit.{
  InhibitorOwnerMismatch, Removal, add_inhibitor, err, inhibit_scope_popups, inhibits_popups, ok,
  refresh_inhibit_state, remove_inhibitor,
}
use unix_notis.Store.Inhibit.Cache.{CacheValid}
use unix_notis.Daemon.Payload.{truncate_utf8_bytes}

abbrev pub max_active_inhibitors : ℕ
max_active_inhibitors = 128

-- `INHIBIT_SCOPE_ALL` is zero. Nothing is left of a scope with no flag that is known.
unfoldable pub normalize_inhibit_scope : ℕ → Option ℕ
normalize_inhibit_scope scope =
    if scope == 0
    then some 0
    else let normalized = bit_and scope inhibit_scope_popups in
      if normalized == 0 then none else some normalized

-- The text "manual".
abbrev pub default_reason : Text
default_reason = 109 ∷ 97 ∷ 110 ∷ 117 ∷ 97 ∷ 108 ∷ []

unfoldable pub sanitize_inhibit_reason : (Text → Text) → Text → Text
sanitize_inhibit_reason trim reason =
    let trimmed = trim reason in
    if length trimmed == 0 then default_reason else truncate_utf8_bytes trimmed 256

pub data InhibitResult : Type 0 where
  added : ℕ → InhibitResult
  access_denied : InhibitResult
  missing_sender : InhibitResult
  unsupported_scope : InhibitResult
  limit_reached : InhibitResult

pub data UninhibitResult : Type 0 where
  removed : UninhibitResult
  unknown_id : UninhibitResult
  not_owner : InhibitorOwnerMismatch → UninhibitResult
  no_sender : UninhibitResult

abbrev pub uninhibit_result : Removal → UninhibitResult
uninhibit_result (ok true) = removed
uninhibit_result (ok false) = unknown_id
uninhibit_result (err mismatch) = not_owner mismatch

digits-zero : (n a : ℕ) → digits (λ b. zero) min n a 0 ≡ 0
digits-zero zero a = refl
digits-zero (suc n) zero = refl
digits-zero (suc n) (suc a) = omega (arith, digits-zero n (suc a / 2))

bit_and_one : (a : ℕ) → bit_and a 1 ≡ a % 2
bit_and_one zero = bit_and-bitwise 0 1
bit_and_one (suc a) = bit_and-bitwise (suc a) 1 ∙ omega (arith, digits-zero a (suc a / 2))

any-insert :
    (p : Inhibitor → Bool) (id : ℕ) (i : Inhibitor) (m : List (ℕ × Inhibitor))
    → p i ≡ true
    → any p (values (insert id i m)) ≡ true
unfolding insert values
any-insert p id i [] h = ground (arith, h)
any-insert p id i ((j, k) ∷ m) h = ground (arith, h, any-insert p id i m)

length-insert-le :
    (id : ℕ) (i : Inhibitor) (m : List (ℕ × Inhibitor)) → length (insert id i m) ≤ suc (length m)
unfolding insert
length-insert-le id i [] = omega arith
length-insert-le id i ((j, k) ∷ m) = ground (arith, length-insert-le id i m)

-- The scopes that are accepted all hold back popups.
normalize_inhibit_scope-inhibits :
    (scope normalized : ℕ)
    → normalize_inhibit_scope scope ≡ some normalized
    → inhibits_popups normalized ≡ true
unfolding normalize_inhibit_scope inhibits_popups
normalize_inhibit_scope-inhibits scope normalized h = elim (Bool-cases (scope == 0)) [
  | inl all ↦
      let e : 0 ≡ normalized = ground (arith, all, h) in
      subst (λ k. inhibits_popups k ≡ true) e refl
  | inr other ↦
      (let e : 1 ≡ normalized = ground (arith, other, h, bit_and_one scope) in
        subst (λ k. inhibits_popups k ≡ true) e refl)
]

module _ {H : Type 0} where
  -- Once the scope is normalized.
  unfoldable pub inhibit_with :
      Text → Text → Option ℕ → NotificationStore H → NotificationStore H × InhibitResult
  inhibit_with owner reason none s = (s, unsupported_scope)
  inhibit_with owner reason (some normalized) s =
      let result = add_inhibitor s owner reason normalized in
      if leb max_active_inhibitors s.inhibitor_count
      then (s, limit_reached)
      else (result.0, added result.1)

  unfoldable pub apply_inhibit :
      (Text → Text)
      → Bool
      → Option Text
      → Text
      → ℕ
      → NotificationStore H
      → NotificationStore H × InhibitResult
  apply_inhibit trim false sender reason scope s = (s, access_denied)
  apply_inhibit trim true none reason scope s = (s, missing_sender)
  apply_inhibit trim true (some owner) reason scope s =
      inhibit_with owner (sanitize_inhibit_reason trim reason) (normalize_inhibit_scope scope) s

  unfoldable pub apply_uninhibit :
      ℕ → Option Text → NotificationStore H → NotificationStore H × UninhibitResult
  apply_uninhibit id none s = (s, no_sender)
  apply_uninhibit id (some owner) s =
      let result = remove_inhibitor s id owner in (result.0, uninhibit_result result.1)

  inhibit_with-inhibited :
      (owner reason : Text) (scope : Option ℕ) (id : ℕ) (s : NotificationStore H)
      → ((n : ℕ) → scope ≡ some n → inhibits_popups n ≡ true)
      → (inhibit_with owner reason scope s).1 ≡ added id
      → (inhibit_with owner reason scope s).0.inhibited ≡ true
  unfolding inhibit_with add_inhibitor refresh_inhibit_state
  inhibit_with-inhibited owner reason none id s f h = cc
  inhibit_with-inhibited owner reason (some n) id s f h =
      elim (Bool-cases (leb max_active_inhibitors s.inhibitor_count)) [
        | inl full ↦ absurd (cc (rw (inhibit_with, full) at h))
        | inr room ↦ rw room (any-insert (λ i. inhibits_popups i.scope) _ _ s.inhibitors (f n refl))
      ]

  inhibit_with-limit :
      (owner reason : Text) (scope : Option ℕ) (s : NotificationStore H)
      → CacheValid s
      → length s.inhibitors ≤ max_active_inhibitors
      → length (inhibit_with owner reason scope s).0.inhibitors ≤ max_active_inhibitors
  unfolding inhibit_with add_inhibitor refresh_inhibit_state
  inhibit_with-limit owner reason none s v l = l
  inhibit_with-limit owner reason (some n) s v l =
      elim (Bool-cases (leb max_active_inhibitors s.inhibitor_count)) [
        | inl full ↦ rw full l
        | inr room ↦
            let free : s.inhibitor_count < max_active_inhibitors = ground (arith, room) in
            rw room (omega (arith, length-insert-le _ _ s.inhibitors, free, v.count, l))
      ]

  -- An inhibitor that is added holds back popups from then on.
  pub apply_inhibit-inhibited :
      (trim : Text → Text) (authorized : Bool) (sender : Option Text) (reason : Text) (scope id : ℕ)
      (s : NotificationStore H)
      → (apply_inhibit trim authorized sender reason scope s).1 ≡ added id
      → (apply_inhibit trim authorized sender reason scope s).0.inhibited ≡ true
  unfolding apply_inhibit
  apply_inhibit-inhibited trim false sender reason scope id s h = cc
  apply_inhibit-inhibited trim true none reason scope id s h = cc
  apply_inhibit-inhibited trim true (some owner) reason scope id s h =
      inhibit_with-inhibited owner (sanitize_inhibit_reason trim reason)
        (normalize_inhibit_scope scope) id s (normalize_inhibit_scope-inhibits scope) h

  -- With a count that is right, no inhibit call makes more than 128 inhibitors.
  pub apply_inhibit-limit :
      (trim : Text → Text) (authorized : Bool) (sender : Option Text) (reason : Text) (scope : ℕ)
      (s : NotificationStore H)
      → CacheValid s
      → length s.inhibitors ≤ max_active_inhibitors
      → length (apply_inhibit trim authorized sender reason scope s).0.inhibitors
        ≤ max_active_inhibitors
  unfolding apply_inhibit
  apply_inhibit-limit trim false sender reason scope s v l = l
  apply_inhibit-limit trim true none reason scope s v l = l
  apply_inhibit-limit trim true (some owner) reason scope s v l =
      inhibit_with-limit owner (sanitize_inhibit_reason trim reason) (normalize_inhibit_scope scope)
        s v l
