-- ===== src/Examples/PartTests.antt =====
-- Tests of the history's, the rules' and the ownership's theorems.
use unix_notis.Daemon.Payload.{is_char_boundary, truncate_utf8_bytes}
use unix_notis.History.{evict_to_limit}
use unix_notis.History.Recency.{recent}
use unix_notis.Model.Image.{
  bytes_per_pixel, checked_mul, fitting, max_image_bytes, normalized_rowstride, stride_for,
}
use unix_notis.Prelude.{◌+◌, ◌-◌, ◌*◌, drop, length, take}
use unix_notis.Prelude.Int.{pos}
use unix_notis.Prelude.Maps.{elem, keys}
use unix_notis.Rules.{apply_rules, contains_ci}
use unix_notis.Rules.Effects.{SameOrigin}
use unix_notis.Rules.Search.{Occurs}
use unix_notis.Store.Identity.{notification_is_owned_by}
use unix_notis.Store.Identity.Ownership.{SameKnown}
use unix_notis.Prelude.{
  nat_eq, text_eq, ℕ, ◌≤◌, ◌<◌, ◌≡◌, refl, ◌⊎◌, ◌↔◌, true, some, [], ◌∷◌, arith, Text,
}
use unix_notis.Examples.{note, fresh, silence_ai, mail, bus_one, bus_two}
use unix_notis.History.{HistoryStore}
use unix_notis.History.Valid.{IsValid}
use unix_notis.History.Eviction.{evict_to_limit-recent}
use unix_notis.History.Bounds.{evict_to_limit-le}
use unix_notis.Store.Identity.Ownership.{notification_is_owned_by_iff}
use unix_notis.Rules.Search.{contains_ci_iff}
use unix_notis.Rules.Effects.{apply_rules-SameOrigin}
use unix_notis.Daemon.Payload.{truncate_utf8_bytes_lem}
use unix_notis.Model.Image.{normalized_rowstride-in_bounds}

abbrev archive : HistoryStore ℕ
archive = record {
  entries = (1, note 1 bus_one 10) ∷ (2, note 2 bus_two 20) ∷ [];
  order = 2 ∷ 1 ∷ [];
}

archive-IsValid : IsValid archive
unfolding keys elem
archive-IsValid = record {
  order_distinct = (refl, (refl, tt));
  keys_distinct = (refl, (refl, tt));
  same_ids = λ k. ground arith;
}

-- "a" and the euro sign.
abbrev euro : Text
euro = 97 ∷ 226 ∷ 130 ∷ 172 ∷ []

one_boundary : is_char_boundary euro 1 ≡ true
unfolding is_char_boundary
one_boundary = refl

one_low : 1 ≤ 3
one_low = omega arith

one_within : 1 ≤ length euro
one_within = omega arith

two_pixels : normalized_rowstride (pos 2) (pos 1) (pos 0) (pos 8) (pos 4) 8 ≡ some 8
unfolding normalized_rowstride stride_for fitting checked_mul bytes_per_pixel
two_pixels = refl

four_bytes : bytes_per_pixel (pos 8) (pos 4) ≡ some 4
unfolding bytes_per_pixel
four_bytes = refl

column : 1 < 2
column = omega arith

row : 0 < 1
row = omega arith

evict_to_limit-recent_example :
    IsValid (evict_to_limit archive 1)
    × (recent (evict_to_limit archive 1) ≡ drop (length (recent archive) - 1) (recent archive))
evict_to_limit-recent_example = evict_to_limit-recent archive 1 archive-IsValid

evict_to_limit-le_example : length (evict_to_limit archive 1).entries ≤ 1
evict_to_limit-le_example = evict_to_limit-le archive 1

notification_is_owned_by_iff_example :
    (notification_is_owned_by fresh (some bus_two) (some 10) (some 5) ≡ true) ↔ (
      SameKnown (some bus_two) fresh.sender_name
      ⊎ (SameKnown (some 10) fresh.sender_pid × SameKnown (some 5) fresh.sender_start_time))
notification_is_owned_by_iff_example =
    notification_is_owned_by_iff fresh (some bus_two) (some 10) (some 5)

contains_ci_iff_example : (contains_ci mail (65 ∷ 73 ∷ []) ≡ true) ↔ Occurs (65 ∷ 73 ∷ []) mail
contains_ci_iff_example = contains_ci_iff mail (65 ∷ 73 ∷ [])

apply_rules-SameOrigin_example : SameOrigin (apply_rules (silence_ai ∷ []) fresh) fresh
apply_rules-SameOrigin_example = apply_rules-SameOrigin (silence_ai ∷ []) fresh

truncate_utf8_bytes_lem_example :
    let t = truncate_utf8_bytes euro 3 in
    (length t ≤ 3)
    × (t ≡ take (length t) euro)
    × (is_char_boundary euro (length t) ≡ true)
    × (1 ≤ length t)
truncate_utf8_bytes_lem_example = truncate_utf8_bytes_lem euro 3 1 one_boundary one_low one_within

normalized_rowstride-in_bounds_example : (0 * 8 + (1 * 4 + 4) ≤ 8) × (8 ≤ max_image_bytes)
normalized_rowstride-in_bounds_example =
    normalized_rowstride-in_bounds 2 1 0 1 0 8 4 8 (pos 8) (pos 4) two_pixels four_bytes column row
