-- ===== src/Store/Inhibit.antt =====
-- Inhibitors: crates/unixnotis-daemon/src/store/store_inhibit.rs and store_inhibitor_api.rs.
pub mod Cache
pub mod Listing
use Prim.Native.Nat.{bit_and}
use unix_notis.Prelude.{
  nat_eq, text_beq, ℕ, ◌%◌, ◌^◌, max, Bool, true, false, not, ◌&&◌, ◌||◌, Option, none, some, List,
  [], ◌∷◌, Text, length, any, leb, ◌==◌, if◌then◌else◌,
}
use unix_notis.Prelude.Maps.{lookup, insert, remove, values}
use unix_notis.Config.{Config, InhibitMode, no_popups, drop_all}
use unix_notis.Store.{NotificationStore, Inhibitor, saturating_add}

-- `INHIBIT_SCOPE_POPUPS`.
abbrev pub inhibit_scope_popups : ℕ
inhibit_scope_popups = 1

unfoldable pub inhibits_popups : ℕ → Bool
inhibits_popups scope = scope == 0 || not (bit_and scope inhibit_scope_popups == 0)

abbrev pub u32_mod : ℕ
u32_mod = 2 ^ 32

-- The owner on record, and the caller.
pub record InhibitorOwnerMismatch : Type 0 where
  pub expected_owner : Text
  pub actual_owner : Text

pub data Removal : Type 0 where
  ok : Bool → Removal
  err : InhibitorOwnerMismatch → Removal

-- `retain(|_, inhibitor| inhibitor.owner != owner)`.
unfoldable pub retain_others : Text → List (ℕ × Inhibitor) → List (ℕ × Inhibitor)
retain_others owner [] = []
retain_others owner ((id, i) ∷ m) =
    if text_beq i.owner owner then retain_others owner m else (id, i) ∷ retain_others owner m

-- A row of `list_inhibitors`: id, reason, scope, owner.
abbrev pub InhibitorInfo : Type 0
InhibitorInfo = ℕ × Text × ℕ × Text

unfoldable pub info_rows : List Inhibitor → List InhibitorInfo
info_rows [] = []
info_rows (i ∷ is) = (i.id, i.reason, i.scope, i.owner) ∷ info_rows is

-- `sort_by_key` on the id, a stable sort.
unfoldable pub insert_row : InhibitorInfo → List InhibitorInfo → List InhibitorInfo
insert_row r [] = r ∷ []
insert_row r (s ∷ rows) = if leb r.0 s.0 then r ∷ s ∷ rows else s ∷ insert_row r rows

unfoldable pub sort_rows : List InhibitorInfo → List InhibitorInfo
sort_rows [] = []
sort_rows (r ∷ rows) = insert_row r (sort_rows rows)

abbrev is_drop_all : InhibitMode → Bool
is_drop_all drop_all = true
is_drop_all no_popups = false

module _ {H : Type 0} where
  unfoldable pub refresh_inhibit_state : NotificationStore H → NotificationStore H
  refresh_inhibit_state s = record s {
    inhibitor_count = length s.inhibitors % u32_mod;
    inhibited = any (λ i. inhibits_popups i.scope) (values s.inhibitors);
  }

  unfoldable pub add_inhibitor : NotificationStore H → Text → Text → ℕ → NotificationStore H × ℕ
  add_inhibitor s owner reason scope =
      let id = max s.next_inhibitor_id 1 in
      let i : Inhibitor = record { id = id; owner = owner; reason = reason; scope = scope } in
      (
        refresh_inhibit_state (record s {
          next_inhibitor_id = saturating_add id 1;
          inhibitors = insert id i s.inhibitors;
        }),
        id,
      )

  unfoldable pub remove_inhibitor : NotificationStore H → ℕ → Text → NotificationStore H × Removal
  remove_inhibitor s id owner = elim (lookup id s.inhibitors) [
    | none ↦ (s, ok false)
    | some existing ↦
        if not (text_beq existing.owner owner)
        then (s, err (record { expected_owner = existing.owner; actual_owner = owner }))
        else (refresh_inhibit_state (record s { inhibitors = remove id s.inhibitors }), ok true)
  ]

  unfoldable pub remove_inhibitors_by_owner :
      NotificationStore H → Text → NotificationStore H × Bool
  remove_inhibitors_by_owner s owner =
      let kept = retain_others owner s.inhibitors in
      if length kept == length s.inhibitors
      then (record s { inhibitors = kept }, false)
      else (refresh_inhibit_state (record s { inhibitors = kept }), true)

  unfoldable pub list_inhibitors : NotificationStore H → List InhibitorInfo
  list_inhibitors s = sort_rows (info_rows (values s.inhibitors))

  unfoldable pub should_drop_inhibited : NotificationStore H → Bool
  should_drop_inhibited s = s.inhibited && is_drop_all s.config.inhibit_mode
