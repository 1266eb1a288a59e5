-- ===== src/Commands/Coalesced/Valid.antt =====
-- The two parts of the queue agree after every step, and it stays within its capacity.
use unix_notis.Prelude.{
  Bool-cases, List, [], ap, arith, false, inl, inr, leb, length, length-append, refl, suc, sym,
  true, ◌++◌, ◌<◌, ◌∙◌, ◌∷◌, ◌≡◌, ◌≤◌,
}
use unix_notis.Prelude.Maps.{
  Distinct, beq_refl, contains_key, contains_key-elem, elem, elem-append, elem-keys-insert,
  elem-keys-remove, insert, insert-Distinct, insert_absent, keys, keys-insert, keys-remove,
  length-keys, length-without, remove, remove-Distinct, snoc-Distinct, without,
}
use unix_notis.Commands.{CommandJob}
use unix_notis.Commands.Coalesced.{
  CoalescedRefreshState, RefreshCommandKey, coalesced_refresh_capacity, evict_oldest, from_job,
  insert_coalesced_job, key_beq, key_beq_iff, key_eq, make_room, put_back,
}

-- The order lists each pending key once, and there are no more jobs than the capacity.
abbrev pub IsValid : {R : Type 0} → CoalescedRefreshState R → Type 0
IsValid s =
    Distinct s.order
    × Distinct (keys s.pending)
    × ((k : RefreshCommandKey) → elem k s.order ≡ elem k (keys s.pending))
    × (length s.pending ≤ coalesced_refresh_capacity)

single : (key j : RefreshCommandKey) → elem j (key ∷ []) ≡ key_beq key j
unfolding elem
single key j = ground arith

module _ {R : Type 0} where
  length-remove :
      (k : RefreshCommandKey) (m : List (RefreshCommandKey × CommandJob R))
      → Distinct (keys m)
      → elem k (keys m) ≡ true
      → suc (length (remove k m)) ≡ length m
  length-remove k m d h =
      let l : length (keys (remove k m)) ≡ length (without k (keys m)) =
        ap length (keys-remove k m) in
      omega (arith, length-without k (keys m) d h, l, length-keys (remove k m), length-keys m)

  -- Without the head of the order.
  pub dropped-IsValid :
      (pending : List (RefreshCommandKey × CommandJob R)) (key : RefreshCommandKey)
      (rest : List RefreshCommandKey)
      → IsValid (record { pending = pending; order = key ∷ rest })
      → IsValid (record { pending = remove key pending; order = rest })
        × (suc (length (remove key pending)) ≡ length pending)
  dropped-IsValid pending key rest (o, p, same, bound) =
      let there : elem key (keys pending) ≡ true =
        sym (same key) ∙ (unfold elem in (ground (arith, beq_refl key))) in
      let shorter = length-remove key pending p there in
      (
        (
          o.1,
          remove-Distinct key pending p,
          λ k.
              unfold elem in
              (ground (arith, elem-keys-remove key k pending, same k, o.0, key_beq_iff key k)),
          omega (arith, shorter, bound),
        ),
        shorter,
      )

  abbrev pub as_state :
      List (RefreshCommandKey × CommandJob R) → List RefreshCommandKey → CoalescedRefreshState R
  as_state pending order = record { pending = pending; order = order }

  evict_oldest-IsValid :
      (pending : List (RefreshCommandKey × CommandJob R)) (order : List RefreshCommandKey)
      → IsValid (as_state pending order)
      → 0 < length pending
      → IsValid (evict_oldest (as_state pending order)).1
        × (suc (length (evict_oldest (as_state pending order)).1.pending) ≡ length pending)
  unfolding evict_oldest
  evict_oldest-IsValid [] [] v h = absurd (omega (arith, h))
  evict_oldest-IsValid ((k, j) ∷ m) [] (o, p, same, bound) h =
      let x : elem k (keys ((k, j) ∷ m)) ≡ true =
        unfold elem keys in (ground (arith, beq_refl k)) in
      let y : elem k [] ≡ false = unfold elem in (refl) in absurd (cc (same k, x, y))
  evict_oldest-IsValid pending (key ∷ rest) v h = dropped-IsValid pending key rest v

  evict_oldest-absent :
      (pending : List (RefreshCommandKey × CommandJob R)) (order : List RefreshCommandKey)
      (k : RefreshCommandKey)
      → elem k (keys pending) ≡ false
      → elem k (keys (evict_oldest (as_state pending order)).1.pending) ≡ false
  unfolding evict_oldest
  evict_oldest-absent pending [] k h = h
  evict_oldest-absent pending (key ∷ rest) k h = ground (arith, elem-keys-remove key k pending, h)

  make_room-IsValid :
      (s : CoalescedRefreshState R)
      → IsValid s
      → IsValid (make_room s).1 × (length (make_room s).1.pending < coalesced_refresh_capacity)
  unfolding make_room
  make_room-IsValid s v = elim (Bool-cases (leb coalesced_refresh_capacity (length s.pending))) [
    | inl full ↦
        let f : coalesced_refresh_capacity ≤ length s.pending = ground (arith, full) in
        let (w, l) = evict_oldest-IsValid s.pending s.order v (omega (arith, f)) in
        rw full (w, omega (arith, l, v.3))
    | inr free ↦ rw free (v, ground (arith, free))
  ]

  make_room-absent :
      (s : CoalescedRefreshState R) (k : RefreshCommandKey)
      → elem k (keys s.pending) ≡ false
      → elem k (keys (make_room s).1.pending) ≡ false
  unfolding make_room
  make_room-absent s k h = elim (Bool-cases (leb coalesced_refresh_capacity (length s.pending))) [
    | inl full ↦ rw full (evict_oldest-absent s.pending s.order k h)
    | inr free ↦ rw free h
  ]

  -- A new job for a key that is there, and for one that is not, at either end of the order.
  replaced-IsValid :
      (s : CoalescedRefreshState R) (key : RefreshCommandKey) (job : CommandJob R)
      → IsValid s
      → elem key (keys s.pending) ≡ true
      → IsValid (record s { pending = insert key job s.pending })
  replaced-IsValid s key job (o, p, same, bound) h =
      let k : keys (insert key job s.pending) ≡ keys s.pending =
        rw (keys-insert key job s.pending, h) refl in
      (
        o,
        insert-Distinct key job s.pending p,
        λ j. same j ∙ ap (λ ks. elem j ks) (sym k),
        omega (
          arith,
          ap length k,
          length-keys (insert key job s.pending),
          length-keys s.pending,
          bound,
        ),
      )

  length-insert_new :
      (key : RefreshCommandKey) (job : CommandJob R) (m : List (RefreshCommandKey × CommandJob R))
      → elem key (keys m) ≡ false
      → length m < coalesced_refresh_capacity
      → length (insert key job m) ≤ coalesced_refresh_capacity
  length-insert_new key job m h l =
      rw (insert_absent key job m h) (omega (arith, l, length-append m ((key, job) ∷ [])))

  front-IsValid :
      (s : CoalescedRefreshState R) (key : RefreshCommandKey) (job : CommandJob R)
      → IsValid s
      → length s.pending < coalesced_refresh_capacity
      → elem key (keys s.pending) ≡ false
      → IsValid (record { pending = insert key job s.pending; order = key ∷ s.order })
  front-IsValid s key job (o, p, same, bound) l h = (
    (same key ∙ h, o),
    insert-Distinct key job s.pending p,
    λ j. unfold elem in (ground (arith, same j, elem-keys-insert key j job s.pending)),
    length-insert_new key job s.pending h l,
  )

  back-IsValid :
      (s : CoalescedRefreshState R) (key : RefreshCommandKey) (job : CommandJob R)
      → IsValid s
      → length s.pending < coalesced_refresh_capacity
      → elem key (keys s.pending) ≡ false
      → IsValid (record { pending = insert key job s.pending; order = s.order ++ key ∷ [] })
  back-IsValid s key job (o, p, same, bound) l h = (
    snoc-Distinct s.order key o (same key ∙ h),
    insert-Distinct key job s.pending p,
    λ j. ground (
      arith,
      same j,
      elem-keys-insert key j job s.pending,
      elem-append j s.order (key ∷ []),
      single key j,
    ),
    length-insert_new key job s.pending h l,
  )

  pub insert_coalesced_job-IsValid :
      (s : CoalescedRefreshState R) (job : CommandJob R)
      → IsValid s
      → IsValid (insert_coalesced_job s job).1
  unfolding insert_coalesced_job
  insert_coalesced_job-IsValid s job v = elim (Bool-cases (contains_key (from_job job) s.pending)) [
    | inl there ↦ rw there (
        replaced-IsValid s (from_job job) job v
          (sym (contains_key-elem (from_job job) s.pending) ∙ there))
    | inr new ↦
        let absent = sym (contains_key-elem (from_job job) s.pending) ∙ new in
        let (w, l) = make_room-IsValid s v in
        rw new (
          back-IsValid (make_room s).1 (from_job job) job w l
            (make_room-absent s (from_job job) absent))
  ]

  pub put_back-IsValid :
      (s : CoalescedRefreshState R) (key : RefreshCommandKey) (job : CommandJob R)
      → IsValid s
      → IsValid (put_back key job s)
  unfolding put_back
  put_back-IsValid s key job v = elim (Bool-cases (contains_key key s.pending)) [
    | inl there ↦
        rw there (replaced-IsValid s key job v (sym (contains_key-elem key s.pending) ∙ there))
    | inr new ↦
        let absent = sym (contains_key-elem key s.pending) ∙ new in
        let (w, l) = make_room-IsValid s v in
        rw new (front-IsValid (make_room s).1 key job w l (make_room-absent s key absent))
  ]
