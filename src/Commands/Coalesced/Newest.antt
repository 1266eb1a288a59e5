-- ===== src/Commands/Coalesced/Newest.antt =====
-- The steps of the callers and of the drain thread, and which job stands for a key.
use unix_notis.Prelude.{
  Bool, Bool-cases, List, Option, [], arith, false, if◌then◌else◌, inl, inr, leb, length, none,
  refl, some, sym, true, ◌++◌, ◌∙◌, ◌∷◌, ◌≡◌,
}
use unix_notis.Prelude.Maps.{
  beq_refl, contains_key, elem, lookup, lookup-insert, lookup-remove, lookup_present, remove,
}
use unix_notis.Commands.{CommandJob}
use unix_notis.Commands.Coalesced.{
  CoalescedRefreshState, RefreshCommandKey, coalesced_refresh_capacity, evict_oldest, from_job,
  insert_coalesced_job, key_beq, key_eq, make_room, put_back, take_next,
}
use unix_notis.Commands.Coalesced.Valid.{
  IsValid, as_state, dropped-IsValid, insert_coalesced_job-IsValid, put_back-IsValid,
}

-- The queue, the job that the drain thread holds, and the jobs it has sent, the oldest first.
pub record Queue (R : Type 0) : Type 0 where
  pub state : CoalescedRefreshState R
  pub held : Option (RefreshCommandKey × CommandJob R)
  pub sent : List (CommandJob R)

-- What callers and the drain thread do, in any order that the lock allows.
pub data Step {R : Type 0} : Queue R → Queue R → Type 0 where
  enqueue :
      {q : Queue R} (job : CommandJob R)
      → Step q (record q { state = (insert_coalesced_job q.state job).1 })
  take_job :
      {q : Queue R}
      → q.held ≡ none
      → Step q (record q { state = (take_next q.state).1; held = (take_next q.state).0 })
  send_job :
      {q : Queue R} (key : RefreshCommandKey) (job : CommandJob R)
      → q.held ≡ some (key, job)
      → Step q (record q { held = none; sent = q.sent ++ job ∷ [] })
  refuse_job :
      {q : Queue R} (key : RefreshCommandKey) (job : CommandJob R)
      → q.held ≡ some (key, job)
      → Step q (record q { held = none; state = put_back key job q.state })

module _ {R : Type 0} where
  -- The drain thread finds a job for the key at the head of the order.
  pub take_next-some :
      (pending : List (RefreshCommandKey × CommandJob R)) (key : RefreshCommandKey)
      (rest : List RefreshCommandKey)
      → IsValid (as_state pending (key ∷ rest))
      → (job : CommandJob R) × (lookup key pending ≡ some job)
        × (take_next (as_state pending (key ∷ rest))
            ≡ (some (key, job), as_state (remove key pending) rest))
  unfolding take_next
  take_next-some pending key rest (o, p, same, bound) =
      let there : elem key (key ∷ rest) ≡ true = unfold elem in (ground (arith, beq_refl key)) in
      let (job, e) = lookup_present key pending (sym (same key) ∙ there) in
      (job, e, rw (e, take_next) refl)

  take_next-IsValid :
      (pending : List (RefreshCommandKey × CommandJob R)) (order : List RefreshCommandKey)
      → IsValid (as_state pending order)
      → IsValid (take_next (as_state pending order)).1
  take_next-IsValid pending [] v = unfold take_next in (v)
  take_next-IsValid pending (key ∷ rest) v =
      let (job, e, taken) = take_next-some pending key rest v in
      rw taken (dropped-IsValid pending key rest v).0

  -- The two parts agree and the queue stays within its capacity, whatever the callers and the drain
  -- thread do.
  pub Step-IsValid : {q q' : Queue R} → Step q q' → IsValid q.state → IsValid q'.state
  Step-IsValid (enqueue {q} job) v = insert_coalesced_job-IsValid q.state job v
  Step-IsValid (take_job {q} h) v = take_next-IsValid q.state.pending q.state.order v
  Step-IsValid (send_job key job h) v = v
  Step-IsValid (refuse_job {q} key job h) v = put_back-IsValid q.state key job v

  -- What stands for a key once the head of the order is dropped, if it is.
  unfoldable pub left_over :
      Bool → CoalescedRefreshState R → RefreshCommandKey → Option (CommandJob R)
  left_over false s k = lookup k s.pending
  left_over true s k = elim s.order [
    | [] ↦ lookup k s.pending
    | oldest ∷ rest ↦ if key_beq oldest k then none else lookup k s.pending
  ]

  lookup-evict_oldest :
      (pending : List (RefreshCommandKey × CommandJob R)) (order : List RefreshCommandKey)
      (k : RefreshCommandKey)
      → lookup k (evict_oldest (as_state pending order)).1.pending
        ≡ left_over (evict_oldest (as_state pending order)).0 (as_state pending order) k
  unfolding evict_oldest left_over
  lookup-evict_oldest pending [] k = refl
  lookup-evict_oldest pending (oldest ∷ rest) k = lookup-remove oldest k pending

  lookup-make_room :
      (s : CoalescedRefreshState R) (k : RefreshCommandKey)
      → lookup k (make_room s).1.pending ≡ left_over (make_room s).0 s k
  unfolding make_room
  lookup-make_room s k = elim (Bool-cases (leb coalesced_refresh_capacity (length s.pending))) [
    | inl full ↦ rw full (lookup-evict_oldest s.pending s.order k)
    | inr free ↦ rw free (unfold left_over in (refl))
  ]

  -- After a job is queued it stands for its key, whether or not another one stood there; and every
  -- other key keeps its job, but the head of the order when the outcome says that it was dropped.
  pub lookup-insert_coalesced_job :
      (s : CoalescedRefreshState R) (job : CommandJob R) (k : RefreshCommandKey)
      → lookup k (insert_coalesced_job s job).1.pending ≡ (
          if key_beq (from_job job) k
          then some job
          else left_over (insert_coalesced_job s job).0.evicted_oldest s k)
  unfolding insert_coalesced_job
  lookup-insert_coalesced_job s job k = elim (Bool-cases (contains_key (from_job job) s.pending)) [
    | inl there ↦ rw there (unfold left_over in (lookup-insert (from_job job) k job s.pending))
    | inr new ↦
        rw (new, sym (lookup-make_room s k))
          (lookup-insert (from_job job) k job (make_room s).1.pending)
  ]
