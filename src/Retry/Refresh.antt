-- ===== src/Retry/Refresh.antt =====
-- `RefreshBackoff` of crates/unixnotis-center/src/ui/widgets/utils/refresh_backoff.rs: how long a
-- command-driven widget waits for its next refresh. Times are in milliseconds.
use unix_notis.Prelude.{
  Bool, List, Option, [], arith, false, if◌then◌else◌, inl, inr, leb, max, min, none, refl, some,
  true, ℕ, ◌*◌, ◌+◌, ◌-◌, ◌<◌, ◌==◌, ◌^◌, ◌∷◌, ◌≡◌, ◌≤◌, ◌⊎◌,
}

pub record RefreshBackoff : Type 0 where
  pub next_due : Option ℕ
  pub stable_streak : ℕ
  pub error_streak : ℕ
  pub backoff_mult : ℕ

abbrev pub default_refresh_backoff : RefreshBackoff
default_refresh_backoff = record {
  next_due = none;
  stable_streak = 0;
  error_streak = 0;
  backoff_mult = 0;
}

unfoldable pub should_refresh : RefreshBackoff → ℕ → Bool → Bool
should_refresh b now true = true
should_refresh b now false = elim b.next_due [ some due ↦ leb due now | none ↦ true ]

unfoldable pub scale_duration : ℕ → ℕ → ℕ
scale_duration base mult = min (min (base * mult) (2 ^ 128 - 1)) (2 ^ 64 - 1)

-- `saturating_add(1)` on an unsigned byte.
abbrev pub next_streak : ℕ → ℕ
next_streak n = min (n + 1) 255

abbrev pub raised : ℕ → ℕ
raised mult = min (max mult 1 * 2) 4

unfoldable pub note_success : RefreshBackoff → ℕ → ℕ → Bool → RefreshBackoff
note_success b now base changed =
    let stable = if changed then 0 else next_streak b.stable_streak in
    let mult =
      if changed then 1 else if leb 2 stable then raised b.backoff_mult else b.backoff_mult in
    record {
      next_due = some (now + scale_duration base (max mult 1));
      stable_streak = stable;
      error_streak = 0;
      backoff_mult = mult;
    }

unfoldable pub note_error : RefreshBackoff → ℕ → ℕ → RefreshBackoff
note_error b now base =
    let errors = next_streak b.error_streak in
    let mult = if leb 2 errors then raised b.backoff_mult else 1 in
    record {
      next_due = some (now + scale_duration base (max mult 1));
      stable_streak = 0;
      error_streak = errors;
      backoff_mult = mult;
    }

unfoldable pub next_due_in : RefreshBackoff → ℕ → Option ℕ
next_due_in b now = elim b.next_due [ some due ↦ some (due - now) | none ↦ none ]

-- The outcome of a refresh, and the note taken of it.
pub data Outcome : Type 0 where
  succeeded : Bool → Outcome
  failed : Outcome

unfoldable pub note : Outcome → ℕ → ℕ → RefreshBackoff → RefreshBackoff
note (succeeded changed) now base b = note_success b now base changed
note failed now base b = note_error b now base

-- Notes with their times, the oldest first.
unfoldable pub note_all : ℕ → List (Outcome × ℕ) → RefreshBackoff → RefreshBackoff
note_all base [] b = b
note_all base ((o, now) ∷ rest) b = note_all base rest (note o now base b)

note-mult :
    (o : Outcome) (now base : ℕ) (b : RefreshBackoff)
    → b.backoff_mult ≤ 4
    → (note o now base b).backoff_mult ≤ 4
unfolding note note_success note_error
note-mult (succeeded true) now base b h = omega arith
note-mult (succeeded false) now base b h = ground (arith, h)
note-mult failed now base b h = ground (arith, h)

small : (m : ℕ) → m ≤ 4 → 1 ≤ m → (m ≡ 1) ⊎ ((m ≡ 2) ⊎ ((m ≡ 3) ⊎ (m ≡ 4)))
small m h g = omega (arith, h, g)

scale-bounds :
    (now base mult : ℕ)
    → mult ≤ 4
    → base * 4 < 2 ^ 64
    → (now + base ≤ now + scale_duration base (max mult 1))
      × (now + scale_duration base (max mult 1) ≤ now + base * 4)
unfolding scale_duration
scale-bounds now base mult h g = elim (small (max mult 1) (omega (arith, h)) (omega arith)) [
  | inl e ↦ rw e (omega (arith, g), omega (arith, g))
  | inr (inl e) ↦ rw e (omega (arith, g), omega (arith, g))
  | inr (inr (inl e)) ↦ rw e (omega (arith, g), omega (arith, g))
  | inr (inr (inr e)) ↦ rw e (omega (arith, g), omega (arith, g))
]

note-due :
    (o : Outcome) (now base : ℕ) (b : RefreshBackoff)
    → b.backoff_mult ≤ 4
    → base * 4 < 2 ^ 64
    → (due : ℕ) × ((note o now base b).next_due ≡ some due)
      × (now + base ≤ due)
      × (due ≤ now + base * 4)
unfolding note note_success note_error
note-due (succeeded changed) now base b h g =
    let m = (note (succeeded changed) now base b).backoff_mult in
    let (lo, hi) = scale-bounds now base m (note-mult (succeeded changed) now base b h) g in
    (now + scale_duration base (max m 1), refl, lo, hi)
note-due failed now base b h g =
    let m = (note failed now base b).backoff_mult in
    let (lo, hi) = scale-bounds now base m (note-mult failed now base b h) g in
    (now + scale_duration base (max m 1), refl, lo, hi)

note_all-mult :
    (base : ℕ) (notes : List (Outcome × ℕ)) (b : RefreshBackoff)
    → b.backoff_mult ≤ 4
    → (note_all base notes b).backoff_mult ≤ 4
unfolding note_all
note_all-mult base [] b h = h
note_all-mult base ((o, now) ∷ rest) b h =
    note_all-mult base rest (note o now base b) (note-mult o now base b h)

-- After any notes from the start and one more, with a base that four times over fits a machine
-- word, the next refresh is due no sooner than one base after that note and no later than four.
pub note_all-due :
    (notes : List (Outcome × ℕ)) (o : Outcome) (now base : ℕ)
    → base * 4 < 2 ^ 64
    → (due : ℕ) × ((note o now base (note_all base notes default_refresh_backoff)).next_due
        ≡ some due)
      × (now + base ≤ due)
      × (due ≤ now + base * 4)
note_all-due notes o now base h =
    let b = note_all base notes default_refresh_backoff in
    note-due o now base b (note_all-mult base notes default_refresh_backoff (omega arith)) h

-- Without force, a refresh is taken exactly when the time left is nothing.
pub should_refresh-next_due_in :
    (b : RefreshBackoff) (now left : ℕ)
    → next_due_in b now ≡ some left
    → should_refresh b now false ≡ (left == 0)
unfolding should_refresh next_due_in
should_refresh-next_due_in b now left h = ground (arith, h)
