-- ===== src/Center/Grouped.antt =====
-- The cache of every group is its active ids and then those of its history, each once.
use unix_notis.Prelude.{
  Bool, Bool-cases, List, Option, Option-cases, Text, [], ap, arith, false, if◌then◌else◌, inl, inr,
  keep_if, length, nat_eq, none, refl, some, subst, sym, text_beq, text_beq_iff, text_eq, true, ℕ,
  ◌==◌, ◌∙◌, ◌∷◌, ◌≡◌,
}
use unix_notis.Prelude.Maps.{
  Distinct, elem, elem-without_self, insert, lookup, lookup-insert, lookup-remove, remove, without,
  without-Distinct,
}
use unix_notis.Center.Index.{
  NotificationList, bucket, cache_after, ids_in_group, index_insert_front, index_move_to_front,
  index_remove, is_front, merged, or_empty, rebuild_group_index_for_key, remove_from_group_bucket,
  set_bucket, sync_group_cache_for_key, to_front, with_bucket, with_index,
}

abbrev pub merged_ids : Text → NotificationList → Option (List ℕ)
merged_ids key s = merged (bucket key s.group_active_index) (bucket key s.group_history_index)

-- The cache of every group is its active ids and then those of its history, or nothing where there
-- are none; and no id stands twice in a bucket.
abbrev pub IsGrouped : NotificationList → Type 0
IsGrouped s =
    ((key : Text) → lookup key s.grouped_cache ≡ merged_ids key s)
    × ((key : Text) → Distinct (bucket key s.group_active_index))
    × ((key : Text) → Distinct (bucket key s.group_history_index))

lookup-cache_after :
    (key k : Text) (ids : Option (List ℕ)) (cache : List (Text × List ℕ))
    → lookup k (cache_after key ids cache) ≡ (if text_beq key k then ids else lookup k cache)
unfolding cache_after
lookup-cache_after key k none cache = lookup-remove key k cache
lookup-cache_after key k (some ids) cache =
    ground (arith, lookup-insert key k ids (remove key cache), lookup-remove key k cache)

-- A change of a bucket that keeps the others, and keeps its ids apart.
abbrev IsChange : Text → List (Text × List ℕ) → List (Text × List ℕ) → Type 0
IsChange key before after =
    ((k : Text) → text_beq key k ≡ false → bucket k after ≡ bucket k before)
    × (((k : Text) → Distinct (bucket k before)) → (k : Text) → Distinct (bucket k after))

-- From what the changed bucket holds.
by_lookup :
    (key : Text) (before after : List (Text × List ℕ)) (ids : List ℕ)
    → ((k : Text) → bucket k after ≡ (if text_beq key k then ids else bucket k before))
    → (Distinct (bucket key before) → Distinct ids)
    → IsChange key before after
by_lookup key before after ids h d = (
  λ k other. h k ∙ rw other refl,
  λ apart k. rw (h k) (elim (Bool-cases (text_beq key k)) [
    | inl same ↦ rw same (d (apart key))
    | inr other ↦ rw other (apart k)
  ]),
)

bucket-insert :
    (key k : Text) (ids : List ℕ) (index : List (Text × List ℕ))
    → bucket k (insert key ids index) ≡ (if text_beq key k then ids else bucket k index)
bucket-insert key k ids index =
    ap or_empty (lookup-insert key k ids index)
    ∙ elim (Bool-cases (text_beq key k)) [ inl same ↦ rw same refl | inr other ↦ rw other refl ]

bucket-remove :
    (key k : Text) (index : List (Text × List ℕ))
    → bucket k (remove key index) ≡ (if text_beq key k then [] else bucket k index)
bucket-remove key k index =
    ap or_empty (lookup-remove key k index)
    ∙ elim (Bool-cases (text_beq key k)) [ inl same ↦ rw same refl | inr other ↦ rw other refl ]

bucket-with_bucket :
    (key k : Text) (index : List (Text × List ℕ))
    → bucket k (with_bucket key index) ≡ bucket k index
unfolding with_bucket
bucket-with_bucket key k index = elim (Option-cases (lookup key index)) [
  | inr (ids, e) ↦
      (let same : with_bucket key index ≡ index = rw (with_bucket, e) refl in ap (bucket k) same)
  | inl e ↦
      let new : with_bucket key index ≡ insert key [] index = rw (with_bucket, e) refl in
      let nothing : [] ≡ bucket key index = ap or_empty (sym e) in
      ap (bucket k) new ∙ bucket-insert key k [] index ∙ elim (Bool-cases (text_beq key k)) [
        | inl same ↦
            rw same (subst (λ j. [] ≡ bucket j index) ((text_beq_iff key k).0 same) nothing)
        | inr other ↦ rw other refl
      ]
]

to_front-IsChange :
    (key : Text) (id : ℕ) (index : List (Text × List ℕ))
    → IsChange key index (to_front key id index)
unfolding to_front
to_front-IsChange key id index = elim (Bool-cases (is_front id (bucket key index))) [
  | inl front ↦ rw front (
    λ k other. bucket-with_bucket key k index,
    λ apart k. rw (bucket-with_bucket key k index) (apart k),
  )
  | inr behind ↦ rw behind (
      by_lookup key index _ (id ∷ without id (bucket key index))
        (λ k.
          bucket-insert key k _ (with_bucket key index) ∙ rw (bucket-with_bucket key k index) refl)
        (λ d. (elem-without_self id (bucket key index), without-Distinct id (bucket key index) d)))
]

set_bucket-IsChange :
    (key : Text) (ids : List ℕ) (index : List (Text × List ℕ))
    → (Distinct (bucket key index) → Distinct ids)
    → IsChange key index (set_bucket key ids index)
unfolding set_bucket
set_bucket-IsChange key ids index d = elim (Bool-cases (length ids == 0)) [
  | inl e ↦ rw e (by_lookup key index _ [] (λ k. bucket-remove key k index) (λ _. tt))
  | inr e ↦ rw e (by_lookup key index _ ids (λ k. bucket-insert key k ids index) d)
]

remove-IsChange :
    (key : Text) (id : ℕ) (index : List (Text × List ℕ))
    → IsChange key index (remove_from_group_bucket key id index)
unfolding remove_from_group_bucket
remove-IsChange key id index = elim (Option-cases (lookup key index)) [
  | inl e ↦
      let same : remove_from_group_bucket key id index ≡ index =
        rw (remove_from_group_bucket, e) refl in
      subst (λ i. IsChange key index i) (sym same) (λ k other. refl, λ apart. apart)
  | inr (ids, e) ↦
      let here : bucket key index ≡ ids = ap or_empty e in
      let rest = without id ids in
      let left = insert key rest index in
      elim (Bool-cases (length rest == 0)) [
        | inl gone ↦
            let new : remove_from_group_bucket key id index ≡ remove key left =
              rw (remove_from_group_bucket, e, gone) refl in
            subst (λ i. IsChange key index i) (sym new)
              (by_lookup key index _ []
                (λ k. bucket-remove key k left ∙ elim (Bool-cases (text_beq key k)) [
                  | inl same ↦ rw same refl
                  | inr other ↦ rw other (bucket-insert key k rest index ∙ rw other refl)
                ])
                (λ _. tt))
        | inr more ↦
            let new : remove_from_group_bucket key id index ≡ left =
              rw (remove_from_group_bucket, e, more) refl in
            subst (λ i. IsChange key index i) (sym new)
              (by_lookup key index _ rest (λ k. bucket-insert key k rest index)
                (λ d. without-Distinct id ids (subst (λ l. Distinct l) here d)))
      ]
]

-- Syncing a group after one of its buckets changed.
sync-IsGrouped :
    (key : Text) (s : NotificationList) (active history : List (Text × List ℕ))
    → IsChange key s.group_active_index active
    → IsChange key s.group_history_index history
    → IsGrouped s
    → IsGrouped (
        sync_group_cache_for_key key
          (record s { group_active_index = active; group_history_index = history }))
unfolding sync_group_cache_for_key
sync-IsGrouped key s active history a h (cache, da, dh) = (
  λ k. lookup-cache_after key k _ s.grouped_cache ∙ elim (Bool-cases (text_beq key k)) [
    | inl same ↦ rw same (
        subst
          (λ j.
            merged (bucket key active) (bucket key history)
            ≡ merged (bucket j active) (bucket j history))
          ((text_beq_iff key k).0 same) refl)
    | inr other ↦ rw (other, a.0 k other, h.0 k other) (cache k)
  ],
  a.1 da,
  h.1 dh,
)

IsChange-refl : (key : Text) (index : List (Text × List ℕ)) → IsChange key index index
IsChange-refl key index = (λ k other. refl, λ apart. apart)

-- Moving an id to the front of its bucket.
pub index_insert_front-IsGrouped :
    (key : Text) (id : ℕ) (is_active : Bool) (s : NotificationList)
    → IsGrouped s
    → IsGrouped (index_insert_front key id is_active s)
unfolding index_insert_front with_index
index_insert_front-IsGrouped key id true s g =
    sync-IsGrouped key s _ _ (to_front-IsChange key id s.group_active_index)
      (IsChange-refl key s.group_history_index) g
index_insert_front-IsGrouped key id false s g =
    sync-IsGrouped key s _ _ (IsChange-refl key s.group_active_index)
      (to_front-IsChange key id s.group_history_index) g

-- Taking an id out of its bucket, and the bucket with it when it was the last.
pub index_remove-IsGrouped :
    (key : Text) (id : ℕ) (was_active : Bool) (s : NotificationList)
    → IsGrouped s
    → IsGrouped (index_remove key id was_active s)
unfolding index_remove with_index
index_remove-IsGrouped key id true s g =
    sync-IsGrouped key s _ _ (remove-IsChange key id s.group_active_index)
      (IsChange-refl key s.group_history_index) g
index_remove-IsGrouped key id false s g =
    sync-IsGrouped key s _ _ (IsChange-refl key s.group_active_index)
      (remove-IsChange key id s.group_history_index) g

-- An early return leaves an id that is at the front already; the cache is right without a sync.
with_bucket_front :
    (key : Text) (id : ℕ) (index : List (Text × List ℕ))
    → is_front id (bucket key index) ≡ true
    → (k : Text) → bucket k (to_front key id index) ≡ bucket k index
unfolding to_front
with_bucket_front key id index front k = rw front (bucket-with_bucket key k index)

pub index_move_to_front-IsGrouped :
    (key : Text) (id : ℕ) (is_active : Bool) (s : NotificationList)
    → IsGrouped s
    → IsGrouped (index_move_to_front key id is_active s)
unfolding index_move_to_front with_index
index_move_to_front-IsGrouped key id true s (c, a, h) =
    elim (Bool-cases (is_front id (bucket key s.group_active_index))) [
      | inl front ↦
          let same = with_bucket_front key id s.group_active_index front in
          rw front (λ k. rw (same k) (c k), λ k. rw (same k) (a k), h)
      | inr behind ↦ rw behind (
          sync-IsGrouped key s _ _ (to_front-IsChange key id s.group_active_index)
            (IsChange-refl key s.group_history_index) (c, a, h))
    ]
index_move_to_front-IsGrouped key id false s (c, a, h) =
    elim (Bool-cases (is_front id (bucket key s.group_history_index))) [
      | inl front ↦
          let same = with_bucket_front key id s.group_history_index front in
          rw front (λ k. rw (same k) (c k), a, λ k. rw (same k) (h k))
      | inr behind ↦ rw behind (
          sync-IsGrouped key s _ _ (IsChange-refl key s.group_active_index)
            (to_front-IsChange key id s.group_history_index) (c, a, h))
    ]

keep_if-absent :
    (p : ℕ → Bool) (x : ℕ) (xs : List ℕ) → elem x xs ≡ false → elem x (keep_if p xs) ≡ false
unfolding elem
keep_if-absent p x [] h = refl
keep_if-absent p x (y ∷ ys) h = ground (arith, h, keep_if-absent p x ys)

keep_if-Distinct : (p : ℕ → Bool) (xs : List ℕ) → Distinct xs → Distinct (keep_if p xs)
keep_if-Distinct p [] d = tt
keep_if-Distinct p (x ∷ xs) d = elim (Bool-cases (p x)) [
  | inl kept ↦ rw kept (keep_if-absent p x xs d.0, keep_if-Distinct p xs d.1)
  | inr left ↦ rw left (keep_if-Distinct p xs d.1)
]

-- Building both buckets of a group again from the two orders, in which no id stands twice.
pub rebuild_group_index-IsGrouped :
    (key : Text) (s : NotificationList)
    → Distinct s.active_order
    → Distinct s.history_order
    → IsGrouped s
    → IsGrouped (rebuild_group_index_for_key key s)
unfolding rebuild_group_index_for_key ids_in_group
rebuild_group_index-IsGrouped key s da dh g =
    sync-IsGrouped key s _ _
      (set_bucket-IsChange key _ s.group_active_index (λ _. keep_if-Distinct _ s.active_order da))
      (set_bucket-IsChange key _ s.group_history_index (λ _. keep_if-Distinct _ s.history_order dh))
      g

-- What happens to the groups: an id comes to the front, leaves, or moves to the front.
pub data IndexChange : Type 0 where
  inserted : Text → ℕ → Bool → IndexChange
  removed : Text → ℕ → Bool → IndexChange
  moved : Text → ℕ → Bool → IndexChange

unfoldable pub apply_change : IndexChange → NotificationList → NotificationList
apply_change (inserted key id is_active) s = index_insert_front key id is_active s
apply_change (removed key id was_active) s = index_remove key id was_active s
apply_change (moved key id is_active) s = index_move_to_front key id is_active s

unfoldable pub apply_changes : List IndexChange → NotificationList → NotificationList
apply_changes [] s = s
apply_changes (change ∷ changes) s = apply_changes changes (apply_change change s)

apply_change-IsGrouped :
    (change : IndexChange) (s : NotificationList) → IsGrouped s → IsGrouped (apply_change change s)
unfolding apply_change
apply_change-IsGrouped (inserted key id is_active) s g =
    index_insert_front-IsGrouped key id is_active s g
apply_change-IsGrouped (removed key id was_active) s g =
    index_remove-IsGrouped key id was_active s g
apply_change-IsGrouped (moved key id is_active) s g =
    index_move_to_front-IsGrouped key id is_active s g

-- After any changes of a list whose groups are right, the cache of every group is its active ids and
-- then those of its history, or nothing where there are none, and no bucket holds an id twice.
pub apply_changes-IsGrouped :
    (changes : List IndexChange) (s : NotificationList)
    → IsGrouped s
    → IsGrouped (apply_changes changes s)
unfolding apply_changes
apply_changes-IsGrouped [] s g = g
apply_changes-IsGrouped (change ∷ changes) s g =
    apply_changes-IsGrouped changes (apply_change change s) (apply_change-IsGrouped change s g)
