-- ===== src/Commands/Drain/Rounds.antt =====
-- What the rounds of the drain thread send, and in which order.
use unix_notis.Prelude.{
  subst, Bool-cases, List, [], ap, arith, false, inl, inr, leb, length, refl, suc, sym, true, ◌∙◌,
  ◌∷◌, ◌≡◌, ℕ, zero, none, some, map, take, drop,
}
use unix_notis.Prelude.Maps.{
  elem, elem-keys-remove, insert, lookup, lookup-insert, lookup-remove, remove, contains_key,
  contains_key-elem, beq_refl,
}
use unix_notis.Commands.{Option, CommandJob}
use unix_notis.Commands.Coalesced.{
  CoalescedRefreshState, RefreshCommandKey, coalesced_refresh_capacity, key_beq, key_beq_iff,
  key_eq, make_room, put_back, take_next,
}
use unix_notis.Commands.Coalesced.Valid.{IsValid, as_state, dropped-IsValid, put_back-IsValid}
use unix_notis.Commands.Coalesced.Newest.{take_next-some}
use unix_notis.Commands.Dispatch.{Sent, accepted, full, disconnected}
use unix_notis.Commands.Drain.{StaysOpen, accepted_count, drain_loop}

elem-take :
    (n : ℕ) (k : RefreshCommandKey) (ks : List RefreshCommandKey)
    → elem k (take n ks) ≡ true
    → elem k ks ≡ true
unfolding elem
elem-take zero k ks h = cc h
elem-take (suc n) k [] h = h
elem-take (suc n) k (j ∷ ks) h = ground (arith, h, elem-take n k ks)

elem-drop :
    (n : ℕ) (k : RefreshCommandKey) (ks : List RefreshCommandKey)
    → elem k (drop n ks) ≡ true
    → elem k ks ≡ true
unfolding elem
elem-drop zero k ks h = h
elem-drop (suc n) k [] h = h
elem-drop (suc n) k (j ∷ ks) h = ground (arith, h, elem-drop n k ks)

-- What a round of the thread takes.
abbrev Taken : Type 0 → Type 0
Taken R = Option (RefreshCommandKey × CommandJob R) × CoalescedRefreshState R

module _ {R : Type 0} where
  drain_loop-empty :
      (answers : List Sent) (pending : List (RefreshCommandKey × CommandJob R))
      → drain_loop answers (as_state pending []) ≡ ([], as_state pending [])
  unfolding drain_loop take_next
  drain_loop-empty [] pending = refl
  drain_loop-empty (accepted ∷ answers) pending = drain_loop-empty answers pending
  drain_loop-empty (full ∷ answers) pending = drain_loop-empty answers pending
  drain_loop-empty (disconnected ∷ answers) pending = drain_loop-empty answers pending

  -- A job that is put back at once stands where it stood.
  put_back-same :
      (pending : List (RefreshCommandKey × CommandJob R)) (key : RefreshCommandKey)
      (rest : List RefreshCommandKey) (job : CommandJob R)
      → IsValid (as_state pending (key ∷ rest))
      → put_back key job (as_state (remove key pending) rest)
        ≡ as_state (insert key job (remove key pending)) (key ∷ rest)
  unfolding put_back make_room
  put_back-same pending key rest job v =
      let (w, shorter) = dropped-IsValid pending key rest v in
      let gone : contains_key key (remove key pending) ≡ false = ground (
        arith,
        contains_key-elem key (remove key pending),
        elem-keys-remove key key pending,
        beq_refl key,
      ) in
      let room : leb coalesced_refresh_capacity (length (remove key pending)) ≡ false =
        ground (arith, shorter, v.3) in
      rw (gone, room) refl

  lookup-put_back_same :
      (pending : List (RefreshCommandKey × CommandJob R)) (key : RefreshCommandKey)
      (job : CommandJob R) (k : RefreshCommandKey)
      → lookup key pending ≡ some job
      → lookup k (insert key job (remove key pending)) ≡ lookup k pending
  lookup-put_back_same pending key job k h =
      lookup-insert key k job (remove key pending) ∙ elim (Bool-cases (key_beq key k)) [
        | inl e ↦ rw e (sym h ∙ ap (λ i. lookup i pending) ((key_beq_iff key k).0 e))
        | inr e ↦ rw e (lookup-remove key k pending ∙ rw e refl)
      ]

  -- The jobs of the first keys were sent in their order, and the others wait as before.
  abbrev Drained :
      ℕ → CoalescedRefreshState R → List (CommandJob R) × CoalescedRefreshState R → Type 0
  Drained n s (sent, left) =
      (map (λ job. some job) sent ≡ map (λ k. lookup k s.pending) (take n s.order))
      × (left.order ≡ drop n s.order)
      × ((k : RefreshCommandKey)
          → elem k left.order ≡ true
          → lookup k left.pending ≡ lookup k s.pending)
      × IsValid left

  map-lookup :
      (p q : List (RefreshCommandKey × CommandJob R)) (ks : List RefreshCommandKey)
      → ((k : RefreshCommandKey) → elem k ks ≡ true → lookup k p ≡ lookup k q)
      → map (λ k. lookup k p) ks ≡ map (λ k. lookup k q) ks
  unfolding elem
  map-lookup p q [] h = refl
  map-lookup p q (k ∷ ks) h =
      let here : lookup k p ≡ lookup k q = h k (ground (arith, beq_refl k)) in
      let rest = map-lookup p q ks (λ j g. h j (ground (arith, g))) in cc (here, rest)

  -- The other keys keep their jobs when the head of the order is taken.
  lookup-taken :
      (pending : List (RefreshCommandKey × CommandJob R)) (key k : RefreshCommandKey)
      (rest : List RefreshCommandKey)
      → elem key rest ≡ false
      → elem k rest ≡ true
      → lookup k (remove key pending) ≡ lookup k pending
  lookup-taken pending key k rest out there =
      let differ : key_beq key k ≡ false = elim (Bool-cases (key_beq key k)) [
        | inl e ↦ cc (ap (λ i. elem i rest) ((key_beq_iff key k).0 e), out, there)
        | inr e ↦ e
      ] in
      lookup-remove key k pending ∙ rw differ refl

  accepted-Drained :
      (n : ℕ) (pending : List (RefreshCommandKey × CommandJob R)) (key : RefreshCommandKey)
      (rest : List RefreshCommandKey) (job : CommandJob R)
      (r : List (CommandJob R) × CoalescedRefreshState R)
      → IsValid (as_state pending (key ∷ rest))
      → lookup key pending ≡ some job
      → Drained n (as_state (remove key pending) rest) r
      → Drained (suc n) (as_state pending (key ∷ rest)) (job ∷ r.0, r.1)
  accepted-Drained n pending key rest job (sent, left) v e (was_sent, order, kept, w) =
      let out = v.0.0 in
      let others : map (λ k. lookup k (remove key pending)) (take n rest)
          ≡ map (λ k. lookup k pending) (take n rest) =
        map-lookup (remove key pending) pending (take n rest)
          (λ k h. lookup-taken pending key k rest out (elem-take n k rest h)) in
      (
        cc (e, was_sent, others),
        order,
        λ k h.
            let behind = elem-drop n k rest (sym (ap (elem k) order) ∙ h) in
            kept k h ∙ lookup-taken pending key k rest out behind,
        w,
      )

  refused-Drained :
      (n : ℕ) (pending : List (RefreshCommandKey × CommandJob R)) (order : List RefreshCommandKey)
      (again : List (RefreshCommandKey × CommandJob R))
      (r : List (CommandJob R) × CoalescedRefreshState R)
      → ((k : RefreshCommandKey) → lookup k again ≡ lookup k pending)
      → Drained n (as_state again order) r
      → Drained n (as_state pending order) r
  refused-Drained n pending order again (sent, left) same (was_sent, o, kept, w) = (
    was_sent ∙ map-lookup again pending (take n order) (λ k h. same k),
    o,
    λ k h. kept k h ∙ same k,
    w,
  )

  empty-Drained :
      (n : ℕ) (pending : List (RefreshCommandKey × CommandJob R))
      → IsValid (as_state pending [])
      → Drained n (as_state pending []) ([], as_state pending [])
  empty-Drained zero pending v = (refl, refl, λ k h. refl, v)
  empty-Drained (suc n) pending v = (refl, refl, λ k h. refl, v)

  drain_loop-accepted :
      (answers : List Sent) (s left : CoalescedRefreshState R) (key : RefreshCommandKey)
      (job : CommandJob R)
      → take_next s ≡ (some (key, job), left)
      → drain_loop (accepted ∷ answers) s
        ≡ (job ∷ (drain_loop answers left).0, (drain_loop answers left).1)
  unfolding drain_loop
  drain_loop-accepted answers s left key job h =
      ap
        (λ (t : Taken R). elim t.0 [
          | none ↦ drain_loop answers t.1
          | some item ↦ (item.1 ∷ (drain_loop answers t.1).0, (drain_loop answers t.1).1)
        ])
        h

  drain_loop-full :
      (answers : List Sent) (s left : CoalescedRefreshState R) (key : RefreshCommandKey)
      (job : CommandJob R)
      → take_next s ≡ (some (key, job), left)
      → drain_loop (full ∷ answers) s ≡ drain_loop answers (put_back key job left)
  unfolding drain_loop
  drain_loop-full answers s left key job h =
      ap
        (λ (t : Taken R). elim t.0 [
          | none ↦ drain_loop answers t.1
          | some item ↦ drain_loop answers (put_back item.0 item.1 t.1)
        ])
        h

  run-Drained :
      (answers : List Sent) (pending : List (RefreshCommandKey × CommandJob R))
      (order : List RefreshCommandKey)
      → StaysOpen answers
      → IsValid (as_state pending order)
      → Drained
          (accepted_count answers)
          (as_state pending order)
          (drain_loop answers (as_state pending order))
  unfolding drain_loop accepted_count
  run-Drained [] pending order open_still v = (refl, refl, λ k h. refl, v)
  run-Drained (disconnected ∷ answers) pending order (not_closed, open_still) v =
      absurd (not_closed refl)
  run-Drained (accepted ∷ answers) pending [] (not_closed, open_still) v =
      subst (Drained (suc (accepted_count answers)) (as_state pending []))
        (sym (drain_loop-empty (accepted ∷ answers) pending))
        (empty-Drained (suc (accepted_count answers)) pending v)
  run-Drained (accepted ∷ answers) pending (key ∷ rest) (not_closed, open_still) v =
      let (job, e, taken) = take_next-some pending key rest v in
      let left = as_state (remove key pending) rest in
      subst (Drained (suc (accepted_count answers)) (as_state pending (key ∷ rest)))
        (sym (drain_loop-accepted answers (as_state pending (key ∷ rest)) left key job taken))
        (accepted-Drained (accepted_count answers) pending key rest job (drain_loop answers left) v
          e
          (run-Drained answers (remove key pending) rest open_still
            (dropped-IsValid pending key rest v).0))
  run-Drained (full ∷ answers) pending [] (not_closed, open_still) v =
      subst (Drained (accepted_count answers) (as_state pending []))
        (sym (drain_loop-empty (full ∷ answers) pending))
        (empty-Drained (accepted_count answers) pending v)
  run-Drained (full ∷ answers) pending (key ∷ rest) (not_closed, open_still) v =
      let (job, e, taken) = take_next-some pending key rest v in
      let again = insert key job (remove key pending) in
      let back = put_back-same pending key rest job v in
      let w : IsValid (as_state again (key ∷ rest)) = subst IsValid back (
        put_back-IsValid (as_state (remove key pending) rest) key job
          (dropped-IsValid pending key rest v).0) in
      let left = as_state (remove key pending) rest in
      subst (Drained (accepted_count answers) (as_state pending (key ∷ rest)))
        (sym (
          drain_loop-full answers (as_state pending (key ∷ rest)) left key job taken
          ∙ ap (drain_loop answers) back))
        (refused-Drained (accepted_count answers) pending (key ∷ rest) again
          (drain_loop answers (as_state again (key ∷ rest)))
          (λ k. lookup-put_back_same pending key job k e)
          (run-Drained answers again (key ∷ rest) open_still w))

  -- While the workers' channel stays open and no other job is queued, the drain thread loses no job
  -- and keeps their order, however often it is refused: from a valid queue, once the workers have
  -- accepted n jobs, exactly the jobs of the first n keys of the order were sent, in that order (all
  -- jobs, when there are no more than n), and the others wait as before.
  pub drain_loop-sends :
      (answers : List Sent) (s : CoalescedRefreshState R)
      → StaysOpen answers
      → IsValid s
      → let n = accepted_count answers in
        let (sent, left) = drain_loop answers s in
        (map (λ job. some job) sent ≡ map (λ k. lookup k s.pending) (take n s.order))
        × (left.order ≡ drop n s.order)
        × (map (λ k. lookup k left.pending) left.order ≡ map (λ k. lookup k s.pending) left.order)
        × IsValid left
  drain_loop-sends answers s open_still v =
      let left = (drain_loop answers s).1 in
      let (was_sent, order, kept, w) = run-Drained answers s.pending s.order open_still v in
      (was_sent, order, map-lookup left.pending s.pending left.order kept, w)
