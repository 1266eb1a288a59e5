-- ===== src/Store/Inhibit/Listing.antt =====
-- The list of inhibitors that a client sees.
use unix_notis.Store.Inhibit.{InhibitorInfo, insert_row, sort_rows, info_rows, list_inhibitors}
use mathlib.Core.List.{Perm}
use mathlib.Core.List.Perm
use unix_notis.Store.{values, NotificationStore}
use unix_notis.Prelude.{inr, inl, leb, Bool-cases, ◌≤◌, List, [], ◌∷◌, arith}

-- Every id of the rows is at least `low`, and they rise.
abbrev pub Rising : List InhibitorInfo → Type 0
Rising [] = Unit {0}
Rising (r ∷ []) = Unit {0}
Rising (r ∷ s ∷ rows) = (r.0 ≤ s.0) × Rising (s ∷ rows)

insert_row-Rising :
    (r : InhibitorInfo) (rows : List InhibitorInfo) → Rising rows → Rising (insert_row r rows)
unfolding insert_row
insert_row-Rising r [] h = tt
insert_row-Rising r (s ∷ []) h = ground arith
insert_row-Rising r (s ∷ t ∷ rows) h =
    let rest = insert_row-Rising r (t ∷ rows) h.1 in ground (arith, h.0, h.1, rest)

insert_row-Perm :
    (r : InhibitorInfo) (rows : List InhibitorInfo) → Perm (insert_row r rows) (r ∷ rows)
unfolding insert_row
insert_row-Perm r [] = Perm.refl (r ∷ [])
insert_row-Perm r (s ∷ rows) = elim (Bool-cases (leb r.0 s.0)) [
  | inl e ↦ rw e (Perm.refl (r ∷ s ∷ rows))
  | inr e ↦ rw e (Perm.trans (Perm.cons s (insert_row-Perm r rows)) (Perm.swap r s rows))
]

sort_rows-Perm : (rows : List InhibitorInfo) → Perm (sort_rows rows) rows
unfolding sort_rows
sort_rows-Perm [] = Perm.refl []
sort_rows-Perm (r ∷ rows) =
    Perm.trans (insert_row-Perm r (sort_rows rows)) (Perm.cons r (sort_rows-Perm rows))

sort_rows-Rising : (rows : List InhibitorInfo) → Rising (sort_rows rows)
unfolding sort_rows
sort_rows-Rising [] = tt
sort_rows-Rising (r ∷ rows) = insert_row-Rising r (sort_rows rows) (sort_rows-Rising rows)

-- The listing rises by token and is a permutation of the rows of the inhibitors there are: none is
-- lost, none is doubled, whatever order the hash map has.
pub list_inhibitors_lem :
    {H : Type 0} (s : NotificationStore H)
    → Rising (list_inhibitors s) × Perm (list_inhibitors s) (info_rows (values s.inhibitors))
unfolding list_inhibitors
list_inhibitors_lem s = (
  sort_rows-Rising (info_rows (values s.inhibitors)),
  sort_rows-Perm (info_rows (values s.inhibitors)),
)
