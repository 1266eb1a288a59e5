-- ===== src/Commands/Dispatch.antt =====
-- Where a command goes: enqueue_command, dispatch_ready_job and FallbackWorker::submit of crates/
-- unixnotis-center/src/ui/widgets/utils/command/command_queue/mod.rs. What the two channels answer to
-- a job is an argument, as are the clocks; a channel that accepts a job has it behind the earlier
-- ones. Counters and warnings are left aside.
use unix_notis.Prelude.{
  Bool, Bool-cases, List, Option, [], false, if◌then◌else◌, inl, inr, leb, length, none, refl, some,
  true, ℕ, ◌++◌, ◌+◌, ◌==◌, ◌∙◌, ◌∷◌, ◌≡◌, ◌⊎◌,
}
use unix_notis.Prelude.Maps.{beq_refl, lookup}
use unix_notis.Commands.{CommandJob, action, jitter, kind_beq}
use unix_notis.Commands.Coalesced.{
  CoalescedRefreshState, from_job, insert_coalesced_job, key_eq, kind_beq_iff,
}
use unix_notis.Commands.Coalesced.Newest.{lookup-insert_coalesced_job}
use unix_notis.Commands.Delayed.{
  DelayedJob, DelayedState, delayed_slow_capacity, try_enqueue_delayed_job,
}

-- The results of `try_send`.
pub data Sent : Type 0 where
  accepted : Sent
  full : Sent
  disconnected : Sent

-- The results of `FallbackWorker::submit`.
pub data Submitted : Type 0 where
  taken : Submitted
  no_room : Submitted
  unavailable : Submitted

-- The jobs that the workers' and the fallback worker's channel accepted and those that were run at
-- once, the oldest first, and the two queues that are kept here.
pub record Queues (R : Type 0) : Type 0 where
  pub worker : List (CommandJob R)
  pub fallback : List (CommandJob R)
  pub ran : List (CommandJob R)
  pub coalesced : CoalescedRefreshState R
  pub delayed : DelayedState R

-- The fallback worker cannot be reached.
abbrev pub IsUnavailable : Option Sent → Type 0
IsUnavailable fallback = (fallback ≡ none) ⊎ (fallback ≡ some disconnected)

module _ {R : Type 0} where
  -- A channel that is full or closed gives the job back.
  unfoldable pub try_send : Sent → CommandJob R → List (CommandJob R) → List (CommandJob R)
  try_send accepted job jobs = jobs ++ job ∷ []
  try_send full job jobs = jobs
  try_send disconnected job jobs = jobs

  -- The channel of the fallback worker may be missing.
  unfoldable pub submit : Option Sent → CommandJob R → Queues R → Submitted × Queues R
  submit none job q = (unavailable, q)
  submit (some accepted) job q = (taken, record q { fallback = try_send accepted job q.fallback })
  submit (some full) job q = (no_room, record q { fallback = try_send full job q.fallback })
  submit (some disconnected) job q =
      (unavailable, record q { fallback = try_send disconnected job q.fallback })

  -- `handle_job` on the caller's thread.
  unfoldable pub handle_job : CommandJob R → Queues R → Queues R
  handle_job job q = record q { ran = q.ran ++ job ∷ [] }

  unfoldable pub after_submit : CommandJob R → Submitted × Queues R → Queues R
  after_submit job (taken, q) = q
  after_submit job (no_room, q) = q
  after_submit job (unavailable, q) = handle_job job q

  unfoldable pub dispatch_ready_job : Sent → Option Sent → CommandJob R → Queues R → Queues R
  dispatch_ready_job accepted fallback job q = record q { worker = try_send accepted job q.worker }
  dispatch_ready_job full fallback job q =
      let q' = record q { worker = try_send full job q.worker } in
      if kind_beq job.plan.kind action
      then after_submit job (submit fallback job q')
      else record q' { coalesced = (insert_coalesced_job q.coalesced job).1 }
  dispatch_ready_job disconnected fallback job q = record q {
    worker = try_send disconnected job q.worker;
  }

  -- `now` and `nanos` are read from the clocks; `inline_fallback` says that no worker could start.
  unfoldable pub enqueue_command :
      Bool → ℕ → ℕ → Sent → Option Sent → CommandJob R → Queues R → Queues R
  enqueue_command true now nanos worker fallback job q = handle_job job q
  enqueue_command false now nanos worker fallback job q =
      let wait = jitter job.plan nanos in
      let delayed = try_enqueue_delayed_job q.delayed job (now + wait) delayed_slow_capacity in
      let ready = dispatch_ready_job worker fallback job q in
      if wait == 0
      then ready
      else elim delayed [ some later ↦ record q { delayed = later } | none ↦ ready ]

  -- The one place where a job is after it was queued, all other places being as they were; the last
  -- two are the losses.
  pub data Reached (inline_fallback : Bool) (worker : Sent) (fallback : Option Sent)
      (job : CommandJob R) (q : Queues R) : Queues R → Type 0 where
    at_worker :
        worker ≡ accepted
        → Reached inline_fallback worker fallback job q (record q { worker = q.worker ++ job ∷ [] })
    at_fallback :
        job.plan.kind ≡ action
        → worker ≡ full
        → Reached inline_fallback worker fallback job q
            (record q { fallback = q.fallback ++ job ∷ [] })
    at_once :
        (inline_fallback ≡ true) ⊎ ((job.plan.kind ≡ action) × IsUnavailable fallback)
        → Reached inline_fallback worker fallback job q (record q { ran = q.ran ++ job ∷ [] })
    at_coalesced :
        (state : CoalescedRefreshState R)
        → kind_beq job.plan.kind action ≡ false
        → worker ≡ full
        → lookup (from_job job) state.pending ≡ some job
        → Reached inline_fallback worker fallback job q (record q { coalesced = state })
    at_delayed :
        (state : DelayedState R) (last : DelayedJob R)
        → last.job ≡ job
        → state.pending ≡ q.delayed.pending ++ last ∷ []
        → Reached inline_fallback worker fallback job q (record q { delayed = state })
    dropped :
        job.plan.kind ≡ action
        → worker ≡ full
        → fallback ≡ some full
        → Reached inline_fallback worker fallback job q q
    closed : worker ≡ disconnected → Reached inline_fallback worker fallback job q q

  submit-Reached :
      (b : Bool) (fallback : Option Sent) (job : CommandJob R) (q : Queues R)
      → job.plan.kind ≡ action
      → Reached b full fallback job q (after_submit job (submit fallback job q))
  unfolding submit after_submit handle_job try_send
  submit-Reached b none job q h = at_once (inr (h, inl refl))
  submit-Reached b (some accepted) job q h = at_fallback h refl
  submit-Reached b (some full) job q h = dropped h refl refl
  submit-Reached b (some disconnected) job q h = at_once (inr (h, inr refl))

  coalesced-Reached :
      (b : Bool) (fallback : Option Sent) (job : CommandJob R) (q : Queues R)
      → kind_beq job.plan.kind action ≡ false
      → Reached b full fallback job q
          (record q { coalesced = (insert_coalesced_job q.coalesced job).1 })
  coalesced-Reached b fallback job q other =
      at_coalesced (insert_coalesced_job q.coalesced job).1 other refl (
        lookup-insert_coalesced_job q.coalesced job (from_job job)
        ∙ rw (beq_refl (from_job job)) refl)

  dispatch_ready_job-Reached :
      (b : Bool) (worker : Sent) (fallback : Option Sent) (job : CommandJob R) (q : Queues R)
      → Reached b worker fallback job q (dispatch_ready_job worker fallback job q)
  unfolding dispatch_ready_job try_send
  dispatch_ready_job-Reached b accepted fallback job q = at_worker refl
  dispatch_ready_job-Reached b disconnected fallback job q = closed refl
  dispatch_ready_job-Reached b full fallback job q =
      elim (Bool-cases (kind_beq job.plan.kind action)) [
        | inl act ↦
            rw act (submit-Reached b fallback job q ((kind_beq_iff job.plan.kind action).0 act))
        | inr other ↦ let kept = coalesced-Reached b fallback job q other in rw other kept
      ]

  -- A command that is queued is in one place afterwards: the workers or the fallback worker
  -- have it as their last job, it was run at once, it stands for its key among the coalesced ones, or
  -- it is the last of the delayed ones; the other places are as they were. It is nowhere only when the
  -- workers' channel is closed, or when it is an action and both channels are full; and it is run at
  -- once only when no worker could start, or when it is an action that the fallback worker cannot
  -- take.
  pub enqueue_command-Reached :
      (inline_fallback : Bool) (now nanos : ℕ) (worker : Sent) (fallback : Option Sent)
      (job : CommandJob R) (q : Queues R)
      → Reached inline_fallback worker fallback job q
          (enqueue_command inline_fallback now nanos worker fallback job q)
  unfolding enqueue_command try_enqueue_delayed_job handle_job
  enqueue_command-Reached true now nanos worker fallback job q = at_once (inl refl)
  enqueue_command-Reached false now nanos worker fallback job q =
      let wait = jitter job.plan nanos in
      let ready = dispatch_ready_job-Reached false worker fallback job q in
      elim (Bool-cases (wait == 0)) [
        | inl z ↦ rw z ready
        | inr z ↦ elim (Bool-cases (leb delayed_slow_capacity (length q.delayed.pending))) [
          | inl f ↦ rw (z, f) ready
          | inr f ↦ rw (z, f) (at_delayed _ _ refl refl)
        ]
      ]
