-- ===== src/Rules.antt =====
-- Notification rules: crates/unixnotis-daemon/src/store/store_rules.rs. `&mut Notification` is a
-- notification returned; a text is its bytes.
pub mod Search
pub mod Effects
use unix_notis.Prelude.{
  ℕ, ◌+◌, zero, suc, Bool, true, false, ◌&&◌, ◌||◌, Option, none, some, List, [], ◌∷◌, Text, length,
  take, leb, ltb, ◌==◌, if◌then◌else◌, not,
}
use unix_notis.Prelude.Int.{ℤ, pos, negsuc, ltb_ℤ}
use unix_notis.Model.{Notification, Urgency, urgency_eq}
use unix_notis.Config.{RuleConfig, RuleUrgency, to_urgency}

-- `u8::to_ascii_lowercase`.
unfoldable pub lower : ℕ → ℕ
lower b = if leb b'A' b && leb b b'Z' then b + 32 else b

-- `<[u8]>::eq_ignore_ascii_case`.
unfoldable pub eq_ignore_ascii_case : Text → Text → Bool
eq_ignore_ascii_case [] [] = true
eq_ignore_ascii_case [] (b ∷ bs) = false
eq_ignore_ascii_case (a ∷ as') [] = false
eq_ignore_ascii_case (a ∷ as') (b ∷ bs) = lower a == lower b && eq_ignore_ascii_case as' bs

-- `bytes.windows(size).any(test)`: a window stands at each place that has `size` bytes left.
unfoldable pub any_window : ℕ → (Text → Bool) → Text → Bool
any_window size test [] = false
any_window size test (b ∷ bs) =
    (leb size (length (b ∷ bs)) && test (take size (b ∷ bs))) || any_window size test bs

abbrev pub is_empty : Text → Bool
is_empty [] = true
is_empty (b ∷ bs) = false

unfoldable pub contains_ci : Text → Text → Bool
contains_ci haystack needle =
    if is_empty needle
    then true
    else if ltb (length haystack) (length needle)
    then false
    else any_window (length needle) (λ window. eq_ignore_ascii_case window needle) haystack

-- A filter that is not set lets everything pass.
unfoldable pub filter_passes : Option Text → Text → Bool
filter_passes none value = true
filter_passes (some wanted) value = contains_ci value wanted

unfoldable pub category_passes : Option Text → Option Text → Bool
category_passes none value = true
category_passes (some wanted) none = false
category_passes (some wanted) (some value) = contains_ci value wanted

unfoldable pub urgency_passes : Option RuleUrgency → Urgency → Bool
urgency_passes none value = true
urgency_passes (some wanted) value = urgency_eq value (to_urgency wanted)

abbrev pub i32_min : ℤ
i32_min = negsuc 2147483647

abbrev pub i32_max : ℤ
i32_max = pos 2147483647

-- `clamp(i32::MIN as i64, i32::MAX as i64) as i32`.
unfoldable pub clamp_i32 : ℤ → ℤ
clamp_i32 value =
    if ltb_ℤ value i32_min then i32_min else if ltb_ℤ i32_max value then i32_max else value

abbrev pub or_else {ℓ} : {A : Type ℓ} → Option A → A → A
or_else none d = d
or_else (some a) d = a

abbrev forced : Option RuleUrgency → Urgency → Urgency
forced none u = u
forced (some r) u = to_urgency r

abbrev clamped : Option ℤ → ℤ → ℤ
clamped none t = t
clamped (some ms) t = clamp_i32 ms

module _ {H : Type 0} where
  unfoldable pub rule_matches : RuleConfig → Notification H → Bool
  unfolding filter_passes category_passes urgency_passes
  rule_matches rule n =
      filter_passes rule.app n.app_name
      && filter_passes rule.summary n.summary
      && filter_passes rule.body n.body
      && category_passes rule.category n.category
      && urgency_passes rule.urgency n.urgency

  unfoldable pub apply_rule : RuleConfig → Notification H → Notification H
  apply_rule rule n = record n {
    suppress_popup = or_else rule.no_popup n.suppress_popup;
    suppress_sound = or_else rule.silent n.suppress_sound;
    urgency = forced rule.force_urgency n.urgency;
    expire_timeout = clamped rule.expire_timeout_ms n.expire_timeout;
    is_resident = or_else rule.resident n.is_resident;
    is_transient = or_else rule.transient n.is_transient;
  }

  -- The loop of `apply_rules` over the configured rules.
  unfoldable pub apply_rules : List RuleConfig → Notification H → Notification H
  apply_rules [] n = n
  apply_rules (rule ∷ rules) n =
      apply_rules rules (if rule_matches rule n then apply_rule rule n else n)
