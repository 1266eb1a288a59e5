-- ===== src/Commands/Delayed.antt =====
-- The queue of slow commands that wait out their jitter, command_queue/delayed.rs of crates/
-- unixnotis-center/src/ui/widgets/utils/command, and where a job goes when it is dispatched.
use unix_notis.Prelude.{
  Bool, Bool-cases, List, Option, Option-cases, [], ap, arith, false, if◌then◌else◌, inl, inr, leb,
  length, ltb, min, none, refl, some, subst, suc, sym, true, zero, ℕ, ◌%◌, ◌&&◌, ◌++◌, ◌+◌, ◌-◌,
  ◌==◌, ◌^◌, ◌∙◌, ◌∷◌, ◌≡◌, ◌≤◌,
}
use unix_notis.Commands.{CommandJob}

abbrev pub delayed_slow_capacity : ℕ
delayed_slow_capacity = 128

pub record DelayedJob (R : Type 0) : Type 0 where
  pub ready_at : ℕ
  pub seq : ℕ
  pub job : CommandJob R

pub record DelayedState (R : Type 0) : Type 0 where
  pub pending : List (DelayedJob R)
  pub next_seq : ℕ

abbrev pub get_elem? : {A : Type 0} → List A → ℕ → Option A
get_elem? [] i = none
get_elem? (x ∷ xs) zero = some x
get_elem? (x ∷ xs) (suc i) = get_elem? xs i

some_injective : {A : Type 0} {a b : A} → some a ≡ some b → a ≡ b
some_injective h = cc

module _ {R : Type 0} where
  -- Nothing when the queue is full: the caller keeps the job.
  unfoldable pub try_enqueue_delayed_job :
      DelayedState R → CommandJob R → ℕ → ℕ → Option (DelayedState R)
  try_enqueue_delayed_job s job ready_at capacity =
      if leb capacity (length s.pending)
      then none
      else some (record {
        pending = s.pending ++ record { ready_at = ready_at; seq = s.next_seq; job = job } ∷ [];
        next_seq = (s.next_seq + 1) % 2 ^ 64;
      })

  -- The order of the pairs (ready_at, seq).
  abbrev pub sooner : DelayedJob R → DelayedJob R → Bool
  sooner a b =
      if ltb a.ready_at b.ready_at then true else a.ready_at == b.ready_at && ltb a.seq b.seq

  -- The least of the due jobs with its index, counted from an index on; the first of equal ones.
  unfoldable pub earliest_due : ℕ → ℕ → List (DelayedJob R) → Option (ℕ × DelayedJob R)
  earliest_due now i [] = none
  earliest_due now i (x ∷ xs) =
      let rest = earliest_due now (suc i) xs in
      if leb x.ready_at now
      then elim rest [
        | none ↦ some (i, x)
        | some (j, y) ↦ if sooner y x then some (j, y) else some (i, x)
      ]
      else rest

  unfoldable pub next_ready_delayed_job_index : List (DelayedJob R) → ℕ → Option ℕ
  next_ready_delayed_job_index pending now = elim (earliest_due now 0 pending) [
    | none ↦ none
    | some (i, x) ↦ some i
  ]

  unfoldable pub next_delayed_wake : List (DelayedJob R) → ℕ → Option ℕ
  next_delayed_wake [] now = none
  next_delayed_wake (x ∷ xs) now =
      let rest = next_delayed_wake xs now in
      elim rest [
        | none ↦ some (x.ready_at - now)
        | some delay ↦ some (min (x.ready_at - now) delay)
      ]

  -- No due job is sooner.
  abbrev pub NoneSooner : ℕ → DelayedJob R → List (DelayedJob R) → Type 0
  NoneSooner now x [] = Unit {0}
  NoneSooner now x (y ∷ ys) = (leb y.ready_at now ≡ true → sooner y x ≡ false) × NoneSooner now x ys

  NoneSooner-than :
      (now : ℕ) (x y : DelayedJob R) (ys : List (DelayedJob R))
      → sooner y x ≡ false
      → NoneSooner now y ys
      → NoneSooner now x ys
  NoneSooner-than now x y [] h n = tt
  NoneSooner-than now x y (z ∷ zs) h n =
      (λ due. ground (arith, h, n.0 due), NoneSooner-than now x y zs h n.1)

  NoneSooner-none :
      (now i : ℕ) (x : DelayedJob R) (ys : List (DelayedJob R))
      → earliest_due now i ys ≡ none
      → NoneSooner now x ys
  unfolding earliest_due
  NoneSooner-none now i x [] h = tt
  NoneSooner-none now i x (y ∷ ys) h = elim (Bool-cases (leb y.ready_at now)) [
    | inl due ↦ elim (Option-cases (earliest_due now (suc i) ys)) [
      | inl n ↦ absurd (cc (rw (due, n, earliest_due) at h))
      | inr ((k, z), n) ↦ elim (Bool-cases (sooner z y)) [
        | inl b ↦ absurd (cc (rw (due, n, b, earliest_due) at h))
        | inr b ↦ absurd (cc (rw (due, n, b, earliest_due) at h))
      ]
    ]
    | inr wait ↦ (
      λ due. absurd (cc (due, wait)),
      NoneSooner-none now (suc i) x ys (rw (wait, earliest_due) at h),
    )
  ]

  -- The job stands at its index, is due, and none of the due jobs is sooner.
  abbrev pub Earliest : ℕ → ℕ → List (DelayedJob R) → ℕ × DelayedJob R → Type 0
  Earliest now i pending found =
      (k : ℕ) × (found.0 ≡ i + k)
      × (get_elem? pending k ≡ some found.1)
      × (found.1.ready_at ≤ now)
      × NoneSooner now found.1 pending

  earliest_due-some :
      (now i : ℕ) (pending : List (DelayedJob R)) (found : ℕ × DelayedJob R)
      → earliest_due now i pending ≡ some found
      → Earliest now i pending found
  unfolding earliest_due
  earliest_due-some now i [] found h = cc
  earliest_due-some now i (y ∷ ys) found h =
      let self : sooner y y ≡ false = ground arith in
      elim (Bool-cases (leb y.ready_at now)) [
        | inr wait ↦
            let (k, e, f, d, n) =
              earliest_due-some now (suc i) ys found (rw (wait, earliest_due) at h) in
            (suc k, omega (arith, e), f, d, (λ due. absurd (cc (due, wait)), n))
        | inl due ↦
            let ready : y.ready_at ≤ now = ground (arith, due) in
            elim (Option-cases (earliest_due now (suc i) ys)) [
              | inl n ↦
                  subst (λ r. Earliest now i (y ∷ ys) r)
                    (some_injective (rw (due, n, earliest_due) at h))
                    (0, omega arith, refl, ready, (λ _. self, NoneSooner-none now (suc i) y ys n))
              | inr (r, n) ↦
                  let (k, e, f, d, m) = earliest_due-some now (suc i) ys r n in
                  elim (Bool-cases (sooner r.1 y)) [
                    | inl b ↦
                        subst (λ r. Earliest now i (y ∷ ys) r)
                          (some_injective (rw (due, n, b, earliest_due) at h))
                          (suc k, omega (arith, e), f, d, (λ _. ground (arith, b), m))
                    | inr b ↦
                        subst (λ r. Earliest now i (y ∷ ys) r)
                          (some_injective (rw (due, n, b, earliest_due) at h))
                          (
                            0,
                            omega arith,
                            refl,
                            ready,
                            (λ _. self, NoneSooner-than now y r.1 ys b m),
                          )
                  ]
            ]
      ]

  -- The index that the drain thread takes is that of a job that is due, and no other due job has an
  -- earlier time, or the same time and a smaller number.
  pub next_ready_delayed_job_index-some :
      (pending : List (DelayedJob R)) (now i : ℕ)
      → next_ready_delayed_job_index pending now ≡ some i
      → (x : DelayedJob R) × (get_elem? pending i ≡ some x)
        × (x.ready_at ≤ now)
        × NoneSooner now x pending
  unfolding next_ready_delayed_job_index
  next_ready_delayed_job_index-some pending now i h =
      elim (Option-cases (earliest_due now 0 pending)) [
        | inl n ↦ absurd (cc (rw (n, next_ready_delayed_job_index) at h))
        | inr (r, n) ↦
            let (k, e, f, d, m) = earliest_due-some now 0 pending r n in
            let same : k ≡ i =
              omega (arith, e, some_injective (rw (n, next_ready_delayed_job_index) at h)) in
            (r.1, ap (λ k. get_elem? pending k) (sym same) ∙ f, d, m)
      ]

  -- The thread waits no longer than until the first job is due, and not at all past that time.
  pub next_delayed_wake-some :
      (pending : List (DelayedJob R)) (now i : ℕ) (x : DelayedJob R)
      → get_elem? pending i ≡ some x
      → (delay : ℕ) × (next_delayed_wake pending now ≡ some delay) × (delay ≤ x.ready_at - now)
  unfolding next_delayed_wake
  next_delayed_wake-some [] now i x h = cc
  next_delayed_wake-some (y ∷ ys) now zero x h =
      let q = ap (λ (j : DelayedJob R). j.ready_at) (some_injective h) in
      elim (Option-cases (next_delayed_wake ys now)) [
        | inl n ↦ rw n (y.ready_at - now, refl, omega (arith, q))
        | inr (d, n) ↦ rw n (min (y.ready_at - now) d, refl, omega (arith, q))
      ]
  next_delayed_wake-some (y ∷ ys) now (suc i) x h =
      let (d, n, l) = next_delayed_wake-some ys now i x h in
      rw n (min (y.ready_at - now) d, refl, omega (arith, l))
