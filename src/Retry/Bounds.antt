-- ===== src/Retry/Bounds.antt =====
-- How long the delays are, and how often a warning is written.
use unix_notis.Prelude.{
  Bool-cases, List, [], ap, arith, if◌then◌else◌, inl, inr, leb, length, min, refl, suc, sym, zero,
  ℕ, ◌*◌, ◌+◌, ◌-◌, ◌<◌, ◌==◌, ◌^◌, ◌∙◌, ◌∷◌, ◌≡◌, ◌≤◌,
}
use unix_notis.Retry.{
  Backoff, RetryLog, advance, backoff_jitter_ms, center_next_sleep, healthy_runtime_secs,
  jitter_duration, log_with, new_backoff, next_delay, next_sleep, restart_base_ms, restart_max_ms,
}

-- The delays of a run, one for each value drawn.
unfoldable pub sleep_run : List ℕ → Backoff → List ℕ
sleep_run [] b = []
sleep_run (drawn ∷ rest) b = (next_sleep drawn b).0 ∷ sleep_run rest (next_sleep drawn b).1

unfoldable pub center_sleep_run : List ℕ → Backoff → List ℕ
center_sleep_run [] b = []
center_sleep_run (drawn ∷ rest) b =
    (center_next_sleep drawn b).0 ∷ center_sleep_run rest (center_next_sleep drawn b).1

abbrev pub AllAtMost : ℕ → List ℕ → Type 0
AllAtMost bound [] = Unit {0}
AllAtMost bound (x ∷ xs) = (x ≤ bound) × AllAtMost bound xs

-- No delay of the popup client is longer than the maximum, whatever is drawn.
pub sleep_run-AllAtMost : (drawn : List ℕ) (b : Backoff) → AllAtMost b.max_delay (sleep_run drawn b)
unfolding sleep_run next_sleep advance
sleep_run-AllAtMost [] b = tt
sleep_run-AllAtMost (d ∷ ds) b = (omega arith, sleep_run-AllAtMost ds (advance b))

pub jitter_duration-lt : (drawn : ℕ) → jitter_duration backoff_jitter_ms drawn < backoff_jitter_ms
unfolding jitter_duration
jitter_duration-lt drawn = omega arith

-- A delay of the notification centre stays below the maximum and the jitter's bound together, once
-- the current delay is within the maximum, as it is for a new backoff whose base is.
pub center_sleep_run-AllAtMost :
    (drawn : List ℕ) (b : Backoff)
    → b.current ≤ b.max_delay
    → AllAtMost (b.max_delay + 119) (center_sleep_run drawn b)
unfolding center_sleep_run center_next_sleep advance
center_sleep_run-AllAtMost [] b h = tt
center_sleep_run-AllAtMost (d ∷ ds) b h = (
  omega (arith, h, jitter_duration-lt d),
  center_sleep_run-AllAtMost ds (advance b) (unfold advance in (omega arith)),
)

unfoldable advance_many : ℕ → Backoff → Backoff
advance_many zero b = b
advance_many (suc n) b = advance_many n (advance b)

less_product : (m a q : ℕ) → m ≤ a → m * suc q ≤ a * suc q
less_product m a q h = grind (arith, h)

double : (c p : ℕ) → c * 2 * p ≡ c * (p * 2)
double c p = omega arith

min-times : (a m q : ℕ) → min (min a m * suc q) m ≡ min (a * suc q) m
min-times a m q = elim (Bool-cases (leb a m)) [
  | inl h ↦ (let e : min a m ≡ a = ground (arith, h) in ap (λ k. min (k * suc q) m) e)
  | inr h ↦
      let e : min a m ≡ m = ground (arith, h) in
      let f : m ≤ a = ground (arith, h) in
      let g : min (m * suc q) m ≡ min (a * suc q) m = omega (arith, f, less_product m a q f) in
      ap (λ k. min (k * suc q) m) e ∙ g
]

pow_pos : (n : ℕ) → (q : ℕ) × (2 ^ n ≡ suc q)
pow_pos zero = (0, omega arith)
pow_pos (suc n) = let (q, e) = pow_pos n in (q * 2 + 1, omega (arith, e))

doubled_bound : (c m n : ℕ) → min (min (c * 2) m * 2 ^ n) m ≡ min (c * 2 ^ suc n) m
doubled_bound c m n =
    let (q, e) = pow_pos n in
    let f : min (min (c * 2) m * 2 ^ n) m ≡ min (min (c * 2) m * suc q) m =
      ap (λ k. min (min (c * 2) m * k) m) e in
    let pow : 2 ^ suc n ≡ 2 ^ n * 2 = omega arith in
    let g : c * 2 * suc q ≡ c * 2 ^ suc n =
      ap (λ k. c * 2 * k) (sym e) ∙ double c (2 ^ n) ∙ ap (λ k. c * k) (sym pow) in
    f ∙ min-times (c * 2) m q ∙ ap (λ k. min k m) g

advance_many-current :
    (n : ℕ) (b : Backoff)
    → b.current ≤ b.max_delay
    → (advance_many n b).current ≡ min (b.current * 2 ^ n) b.max_delay
unfolding advance_many advance
advance_many-current zero b h = omega (arith, h)
advance_many-current (suc n) b h =
    let rest = advance_many-current n (advance b) (unfold advance in (omega arith)) in
    rest ∙ doubled_bound b.current b.max_delay n

advance_many-max : (n : ℕ) (b : Backoff) → (advance_many n b).max_delay ≡ b.max_delay
unfolding advance_many advance
advance_many-max zero b = refl
advance_many-max (suc n) b = advance_many-max n (advance b)

-- The state after a run of calls, one for each value drawn.
unfoldable pub after_sleeps : List ℕ → Backoff → Backoff
after_sleeps [] b = b
after_sleeps (drawn ∷ rest) b = after_sleeps rest (next_sleep drawn b).1

after_sleeps-advance_many :
    (drawn : List ℕ) (b : Backoff) → after_sleeps drawn b ≡ advance_many (length drawn) b
unfolding after_sleeps advance_many next_sleep
after_sleeps-advance_many [] b = refl
after_sleeps-advance_many (d ∷ ds) b = after_sleeps-advance_many ds (advance b)

-- The popup client's delay after any other calls of `next_sleep` since the backoff was made, whatever
-- those drew, when the base is within the maximum: the base, doubled once for each of these calls, and
-- the jitter on top, each within the maximum.
pub next_sleep-after :
    (earlier : List ℕ) (drawn base_ms max_ms : ℕ)
    → base_ms ≤ max_ms
    → (next_sleep drawn (after_sleeps earlier (new_backoff base_ms max_ms))).0
      ≡ min
          (min (base_ms * 2 ^ length earlier) max_ms + jitter_duration backoff_jitter_ms drawn)
          max_ms
unfolding next_sleep new_backoff
next_sleep-after earlier drawn base_ms max_ms h =
    rw
      (
        after_sleeps-advance_many earlier (new_backoff base_ms max_ms),
        advance_many-current (length earlier) (new_backoff base_ms max_ms) h,
        advance_many-max (length earlier) (new_backoff base_ms max_ms),
      )
      refl

-- A child process that is started again after n short runs in a row, and then fails once more.
unfoldable pub short_runs : ℕ → ℕ → ℕ
short_runs zero current = current
short_runs (suc n) current = short_runs n (next_delay 0 current).1

abbrev delay_of : ℕ → ℕ
delay_of c = if c == 0 then restart_base_ms else c

next_delay-short_runs_from :
    (n current runtime : ℕ)
    → runtime < healthy_runtime_secs * 1000
    → current ≤ restart_max_ms
    → (next_delay runtime (short_runs n current)).0 ≡ min (delay_of current * 2 ^ n) restart_max_ms
unfolding short_runs next_delay
next_delay-short_runs_from zero c runtime h g = ground (arith, h, g)
next_delay-short_runs_from (suc n) c runtime h g =
    let next = min (delay_of c * 2) restart_max_ms in
    let e : delay_of next ≡ next = ground arith in
    next_delay-short_runs_from n next runtime h (omega arith)
    ∙ ap (λ k. min (k * 2 ^ n) restart_max_ms) e
    ∙ doubled_bound (delay_of c) restart_max_ms n

-- Starting a child process again after n short runs waits the base delay doubled n times, within
-- the maximum.
pub next_delay-short_runs :
    (n runtime : ℕ)
    → runtime < healthy_runtime_secs * 1000
    → (next_delay runtime (short_runs n 0)).0 ≡ min (restart_base_ms * 2 ^ n) restart_max_ms
next_delay-short_runs n runtime h = next_delay-short_runs_from n 0 runtime h (omega arith)

-- The warnings of a run of failures at the given times.
unfoldable pub warnings : List ℕ → RetryLog → List ℕ
warnings [] log = []
warnings (now ∷ rest) log =
    let later = warnings rest (log_with now log).1 in
    if (log_with now log).0 then now ∷ later else later

abbrev pub Spaced : ℕ → ℕ → List ℕ → Type 0
Spaced gap from [] = Unit {0}
Spaced gap from (t ∷ ts) = (from + gap ≤ t) × Spaced gap t ts

-- While the log is not reset, two warnings are an interval apart, and the first stands an interval
-- after the last one of the log, where the interval is not zero.
pub warnings-Spaced :
    (times : List ℕ) (log : RetryLog)
    → 0 < log.interval
    → Spaced log.interval log.last_warn (warnings times log)
unfolding warnings log_with
warnings-Spaced [] log h = tt
warnings-Spaced (now ∷ rest) log h = elim (Bool-cases (leb log.interval (now - log.last_warn))) [
  | inl e ↦ rw e (ground (arith, e, h), warnings-Spaced rest (record log { last_warn = now }) h)
  | inr e ↦ rw e (warnings-Spaced rest log h)
]
