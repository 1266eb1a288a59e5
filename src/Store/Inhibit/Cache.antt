-- ===== src/Store/Inhibit/Cache.antt =====
-- The cached inhibitor flags always agree with the inhibitors, and tokens are fresh.
use unix_notis.Prelude.{
  nat_eq, text_beq, text_beq_iff, ℕ, ◌%◌, ◌≤◌, ◌<◌, ◌≡◌, refl, sym, ◌∙◌, ◌⊎◌, inl, inr, true, false,
  ◌||◌, none, some, List, [], ◌∷◌, arith, length, ◌==◌, ==_iff, any, max, Text, ◌≢◌, Bool-cases,
  Option-cases, if◌then◌else◌,
}
use unix_notis.Prelude.Maps.{
  elem, keys, values, remove, insert, lookup, Distinct, elem-keys-insert, elem-keys-remove,
  lookup-remove, lookup-insert, insert-Distinct, remove-Distinct,
}
use unix_notis.Store.{NotificationStore, Inhibitor, saturating_add, u64_max}
use unix_notis.Store.Inhibit.{
  inhibits_popups, u32_mod, retain_others, refresh_inhibit_state, add_inhibitor, remove_inhibitor,
  remove_inhibitors_by_owner, ok, err,
}

-- The cached count and flag are those of the inhibitors, no token stands twice, and until the
-- tokens run out, every token is below the next one.
pub record CacheValid {H : Type 0} (s : NotificationStore H) : Type 0 where
  pub count : s.inhibitor_count ≡ length s.inhibitors % u32_mod
  pub flag : s.inhibited ≡ any (λ i. inhibits_popups i.scope) (values s.inhibitors)
  pub distinct : Distinct (keys s.inhibitors)
  pub below :
      s.next_inhibitor_id < u64_max
      → (k : ℕ) → elem k (keys s.inhibitors) ≡ true
      → k < s.next_inhibitor_id

retain_others-length :
    (owner : Text) (m : List (ℕ × Inhibitor)) → length (retain_others owner m) ≤ length m
unfolding retain_others
retain_others-length owner [] = omega arith
retain_others-length owner ((j, i) ∷ m) = ground (arith, retain_others-length owner m)

retain_others-elem :
    (owner : Text) (k : ℕ) (m : List (ℕ × Inhibitor))
    → elem k (keys (retain_others owner m)) ≡ true
    → elem k (keys m) ≡ true
unfolding retain_others elem keys
retain_others-elem owner k [] h = h
retain_others-elem owner k ((j, i) ∷ m) h = ground (arith, h, retain_others-elem owner k m)

retain_others-Distinct :
    (owner : Text) (m : List (ℕ × Inhibitor))
    → Distinct (keys m)
    → Distinct (keys (retain_others owner m))
unfolding retain_others keys
retain_others-Distinct owner [] d = d
retain_others-Distinct owner ((j, i) ∷ m) d = elim (Bool-cases (text_beq i.owner owner)) [
  | inl e ↦ rw e (retain_others-Distinct owner m d.1)
  | inr e ↦ rw e (
    elim (Bool-cases (elem j (keys (retain_others owner m)))) [
      | inl there ↦ absurd (cc (retain_others-elem owner j m there, d.0))
      | inr absent ↦ absent
    ],
    retain_others-Distinct owner m d.1,
  )
]

retain_others-any :
    (owner : Text) (m : List (ℕ × Inhibitor))
    → any (λ i. text_beq i.owner owner) (values (retain_others owner m)) ≡ false
unfolding retain_others values
retain_others-any owner [] = refl
retain_others-any owner ((j, i) ∷ m) = ground (arith, retain_others-any owner m)

retain_others-same :
    (owner : Text) (m : List (ℕ × Inhibitor))
    → any (λ i. text_beq i.owner owner) (values m) ≡ false
    → retain_others owner m ≡ m
unfolding retain_others values
retain_others-same owner [] h = refl
retain_others-same owner ((j, i) ∷ m) h = ground (arith, h, retain_others-same owner m)

retain_others-shorter :
    (owner : Text) (m : List (ℕ × Inhibitor))
    → any (λ i. text_beq i.owner owner) (values m) ≡ true
    → length (retain_others owner m) < length m
unfolding retain_others values
retain_others-shorter owner [] h = cc
retain_others-shorter owner ((j, i) ∷ m) h =
    ground (arith, h, retain_others-shorter owner m, retain_others-length owner m)

module _ {H : Type 0} where
  pub refreshed-CacheValid :
      (s : NotificationStore H)
      → Distinct (keys s.inhibitors)
      → (s.next_inhibitor_id < u64_max
          → (k : ℕ) → elem k (keys s.inhibitors) ≡ true
          → k < s.next_inhibitor_id)
      → CacheValid (refresh_inhibit_state s)
  unfolding refresh_inhibit_state
  refreshed-CacheValid s d b = record { count = refl; flag = refl; distinct = d; below = b }

  -- Adding an inhibitor keeps the cache right.
  pub add_inhibitor-CacheValid :
      (s : NotificationStore H) (owner reason : Text) (scope : ℕ)
      → CacheValid s
      → CacheValid (add_inhibitor s owner reason scope).0
  unfolding add_inhibitor saturating_add
  add_inhibitor-CacheValid s owner reason scope v =
      let token = max s.next_inhibitor_id 1 in
      let i : Inhibitor = record { id = token; owner = owner; reason = reason; scope = scope } in
      refreshed-CacheValid
        (record s {
          next_inhibitor_id = saturating_add token 1;
          inhibitors = insert token i s.inhibitors;
        })
        (insert-Distinct token i s.inhibitors v.distinct)
        (λ room j h.
          below_after s.next_inhibitor_id j s.inhibitors room v.below
            (sym (elem-keys-insert token j i s.inhibitors) ∙ h))
    where
      below_after :
          (next j : ℕ) (m : List (ℕ × Inhibitor))
          → saturating_add (max next 1) 1 < u64_max
          → (next < u64_max → (k : ℕ) → elem k (keys m) ≡ true → k < next)
          → ((max next 1 == j) || elem j (keys m)) ≡ true
          → j < saturating_add (max next 1) 1
      below_after next j m room below h = elim (Bool-cases (elem j (keys m))) [
        | inl there ↦ let lower = below (omega (arith, room)) j there in omega (arith, lower, room)
        | inr absent ↦
            let same = (==_iff (max next 1) j).0 (ground (arith, h, absent)) in
            omega (arith, same, room)
      ]

  -- While tokens last, the token is new, not below any token handed out before, and stands for the
  -- inhibitor; the tokens after it are larger, and all other inhibitors stay.
  pub add_inhibitor_lem :
      (s : NotificationStore H) (owner reason : Text) (scope k : ℕ)
      → CacheValid s
      → s.next_inhibitor_id < u64_max
      → let (t, token) = add_inhibitor s owner reason scope in
        (elem token (keys s.inhibitors) ≡ false)
        × (s.next_inhibitor_id ≤ token)
        × (token < t.next_inhibitor_id)
        × (lookup k t.inhibitors ≡ (
            if token == k
            then some (record { id = token; owner = owner; reason = reason; scope = scope })
            else lookup k s.inhibitors))
  unfolding add_inhibitor saturating_add refresh_inhibit_state
  add_inhibitor_lem s owner reason scope k v room =
      let token = max s.next_inhibitor_id 1 in
      let i : Inhibitor = record { id = token; owner = owner; reason = reason; scope = scope } in
      (unused, omega arith, omega (arith, room), lookup-insert token k i s.inhibitors)
    where
      unused : elem (max s.next_inhibitor_id 1) (keys s.inhibitors) ≡ false
      unused = elim (Bool-cases (elem (max s.next_inhibitor_id 1) (keys s.inhibitors))) [
        | inl there ↦ absurd (omega (arith, v.below room (max s.next_inhibitor_id 1) there))
        | inr absent ↦ absent
      ]

  pub removed-CacheValid :
      (s : NotificationStore H) (id : ℕ)
      → CacheValid s
      → CacheValid (refresh_inhibit_state (record s { inhibitors = remove id s.inhibitors }))
  removed-CacheValid s id v =
      refreshed-CacheValid (record s { inhibitors = remove id s.inhibitors })
        (remove-Distinct id s.inhibitors v.distinct)
        (λ room j h. v.below room j (ground (arith, h, elem-keys-remove id j s.inhibitors)))

  -- Either way through `remove_inhibitor`.
  pub remove_inhibitor_cases :
      (s : NotificationStore H) (id : ℕ) (owner : Text)
      → ((remove_inhibitor s id owner).0 ≡ s)
        ⊎ ((remove_inhibitor s id owner).0
            ≡ refresh_inhibit_state (record s { inhibitors = remove id s.inhibitors }))
  unfolding remove_inhibitor
  remove_inhibitor_cases s id owner = elim (Option-cases (lookup id s.inhibitors)) [
    | inl e ↦ inl (rw (e, remove_inhibitor) refl)
    | inr (i, e) ↦ elim (Bool-cases (text_beq i.owner owner)) [
      | inl own ↦ inr (rw (e, remove_inhibitor) (rw own refl))
      | inr foreign ↦ inl (rw (e, remove_inhibitor) (rw foreign refl))
    ]
  ]

  -- Removing by token: an unknown token is no error and changes nothing; a caller that is not the
  -- owner gets an error and changes nothing; the owner removes that inhibitor alone.
  pub remove_inhibitor_lem :
      (s : NotificationStore H) (id k : ℕ) (owner : Text)
      → CacheValid s
      → let (t, result) = remove_inhibitor s id owner in
        ((lookup id s.inhibitors ≡ none) × (t ≡ s) × (result ≡ ok false))
        ⊎ ((i : Inhibitor) × (lookup id s.inhibitors ≡ some i)
            × (i.owner ≢ owner)
            × (t ≡ s)
            × (result ≡ err (record { expected_owner = i.owner; actual_owner = owner })))
        ⊎ ((i : Inhibitor) × (lookup id s.inhibitors ≡ some i)
            × (i.owner ≡ owner)
            × CacheValid t
            × (lookup k t.inhibitors ≡ (if id == k then none else lookup k s.inhibitors))
            × (result ≡ ok true))
  unfolding remove_inhibitor
  remove_inhibitor_lem s id k owner v = elim (Option-cases (lookup id s.inhibitors)) [
    | inl e ↦ inl (e, rw (e, remove_inhibitor) refl, rw (e, remove_inhibitor) refl)
    | inr (i, e) ↦ elim (Bool-cases (text_beq i.owner owner)) [
      | inl own ↦ inr (
          inr (
            i,
            e,
            (text_beq_iff i.owner owner).0 own,
            rw (e, remove_inhibitor) (rw own (removed-CacheValid s id v)),
            rw (e, remove_inhibitor)
                (rw own (unfold refresh_inhibit_state in lookup-remove id k s.inhibitors)),
            rw (e, remove_inhibitor) (rw own refl),
          ))
      | inr foreign ↦ inr (
          inl (
            i,
            e,
            λ same. cc ((text_beq_iff i.owner owner).1 same, foreign),
            rw (e, remove_inhibitor) (rw foreign refl),
            rw (e, remove_inhibitor) (rw foreign refl),
          ))
    ]
  ]

  pub remove_inhibitors_by_owner-some :
      (s : NotificationStore H) (owner : Text)
      → any (λ i. text_beq i.owner owner) (values s.inhibitors) ≡ true
      → remove_inhibitors_by_owner s owner
        ≡ (refresh_inhibit_state (record s { inhibitors = retain_others owner s.inhibitors }), true)
  unfolding remove_inhibitors_by_owner
  remove_inhibitors_by_owner-some s owner h =
      ground (arith, retain_others-shorter owner s.inhibitors h)

  pub remove_inhibitors_by_owner-none :
      (s : NotificationStore H) (owner : Text)
      → any (λ i. text_beq i.owner owner) (values s.inhibitors) ≡ false
      → remove_inhibitors_by_owner s owner ≡ (s, false)
  unfolding remove_inhibitors_by_owner
  remove_inhibitors_by_owner-none s owner h =
      rw (retain_others-same owner s.inhibitors h)
        (rw ((==_iff (length s.inhibitors) (length s.inhibitors)).1 refl) refl)

  -- Removing by owner leaves none of the owner's inhibitors and all others, reports whether any
  -- went, and keeps the cache right.
  pub remove_inhibitors_by_owner_lem :
      (s : NotificationStore H) (owner : Text)
      → CacheValid s
      → let (t, changed) = remove_inhibitors_by_owner s owner in
        CacheValid t
        × (t.inhibitors ≡ retain_others owner s.inhibitors)
        × (any (λ i. text_beq i.owner owner) (values t.inhibitors) ≡ false)
        × (changed ≡ any (λ i. text_beq i.owner owner) (values s.inhibitors))
  unfolding refresh_inhibit_state
  remove_inhibitors_by_owner_lem s owner v =
      elim (Bool-cases (any (λ i. text_beq i.owner owner) (values s.inhibitors))) [
        | inl some_go ↦ rw (remove_inhibitors_by_owner-some s owner some_go) (
          refreshed-CacheValid (record s { inhibitors = retain_others owner s.inhibitors })
              (retain_others-Distinct owner s.inhibitors v.distinct)
              (λ room j h. v.below room j (retain_others-elem owner j s.inhibitors h)),
          refl,
          retain_others-any owner s.inhibitors,
          sym some_go,
        )
        | inr none_go ↦
            rw (remove_inhibitors_by_owner-none s owner none_go)
              (v, sym (retain_others-same owner s.inhibitors none_go), none_go, sym none_go)
      ]
