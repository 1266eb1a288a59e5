-- ===== src/Store/Identity/Fresh.antt =====
-- `next_id` finds a free id: among as many distinct candidates as there are ids in use, and one more,
-- one is free.
use unix_notis.Prelude.{
  ◌≢◌, nat_eq, ℕ, zero, suc, ◌+◌, ◌-◌, ◌%◌, ◌≤◌, ◌<◌, ◌≡◌, refl, sym, ap, ◌∙◌, inl, inr, true,
  false, ◌==◌, none, some, List, [], ◌∷◌, ◌++◌, arith, length, max, Bool-cases, Option-cases,
  length-append,
}
use unix_notis.Prelude.Maps.{
  elem, keys, contains_key-elem, elem-append, Distinct, length-le_of_subset, length-keys,
}
use unix_notis.History
use unix_notis.Store.{NotificationStore, saturating_add}
use unix_notis.Store.Identity.{bump, is_used, search_id, max_attempts, next_id, u32_mod}

-- The ids that `next_id` tries, in order.
candidates : ℕ → ℕ → List ℕ
candidates zero c = []
candidates (suc k) c = c ∷ candidates k (bump c)

abbrev pub IsId : ℕ → Type 0
IsId id = (1 ≤ id) × (id < u32_mod)

bump-IsId : (c : ℕ) → IsId (bump c)
unfolding bump
bump-IsId c = ground arith

-- On ids, `bump` is the successor in a cycle of 2 ^ 32 - 1.
bump_cycle : (c : ℕ) → IsId c → bump c ≡ c % 4294967295 + 1
unfolding bump
bump_cycle c h = ground arith

elem-candidates :
    (k c x : ℕ)
    → IsId c
    → elem x (candidates k c) ≡ true
    → (j : ℕ) × (j < k) × (x ≡ (c - 1 + j) % 4294967295 + 1)
unfolding elem candidates
elem-candidates zero c x h m = cc
elem-candidates (suc k) c x h m = elim (Bool-cases (c == x)) [
  | inl here ↦ (0, omega arith, ground arith)
  | inr later ↦
      let (j, lt, e) = elem-candidates k (bump c) x (bump-IsId c) (ground arith) in
      (suc j, omega arith, omega (arith, bump_cycle c h))
]

candidates-Distinct : (k c : ℕ) → IsId c → k ≤ 4294967295 → Distinct (candidates k c)
unfolding candidates
candidates-Distinct zero c h le = tt
candidates-Distinct (suc k) c h le = (
  elim (Bool-cases (elem c (candidates k (bump c)))) [
    | inl again ↦
        let (j, lt, e) = elem-candidates k (bump c) c (bump-IsId c) again in
        absurd (omega (arith, bump_cycle c h))
    | inr never ↦ never
  ],
  candidates-Distinct k (bump c) (bump-IsId c) (omega arith),
)

length-candidates : (k c : ℕ) → length (candidates k c) ≡ k
unfolding candidates
length-candidates zero c = refl
length-candidates (suc k) c = ap suc (length-candidates k (bump c))

module _ {H : Type 0} (s : NotificationStore H) where
  used_ids : List ℕ
  used_ids = keys s.active ++ keys s.history.entries

  elem-used_ids : (id : ℕ) → is_used s id ≡ elem id used_ids
  unfolding is_used used_ids History.contains
  elem-used_ids id = ground (
    arith,
    contains_key-elem id s.active,
    contains_key-elem id s.history.entries,
    elem-append id (keys s.active) (keys s.history.entries),
  )

  search_id-none :
      (k c x : ℕ) → search_id s k c ≡ none → elem x (candidates k c) ≡ true → is_used s x ≡ true
  unfolding search_id candidates elem
  search_id-none zero c x h m = cc
  search_id-none (suc k) c x h m = ground (arith, search_id-none k (bump c) x)

  search_id-some :
      (k c id : ℕ) → IsId c → search_id s k c ≡ some id → (is_used s id ≡ false) × IsId id
  unfolding search_id
  search_id-some zero c id i h = cc
  search_id-some (suc k) c id i h = elim (Bool-cases (is_used s c)) [
    | inl taken ↦ search_id-some k (bump c) id (bump-IsId c) (rw taken at h)
    | inr free ↦ ground arith
  ]

  length-used_ids : length used_ids ≡ length s.active + length s.history.entries
  unfolding used_ids
  length-used_ids = omega (
    arith,
    length-append (keys s.active) (keys s.history.entries),
    length-keys s.active,
    length-keys s.history.entries,
  )

  attempts :
      length s.active + length s.history.entries < 4294967295
      → max_attempts s ≡ length s.active + length s.history.entries + 1
  unfolding max_attempts saturating_add History.len
  attempts room = omega arith

  search_id_total :
      (c : ℕ)
      → IsId c
      → length s.active + length s.history.entries < 4294967295
      → search_id s (max_attempts s) c ≢ none
  search_id_total c i room h =
      let tries = candidates-Distinct (max_attempts s) c i (omega (arith, attempts room)) in
      let all_used : (x : ℕ)
          → elem x (candidates (max_attempts s) c) ≡ true
          → elem x used_ids ≡ true =
        λ x m. sym (elem-used_ids x) ∙ search_id-none (max_attempts s) c x h m in
      omega (
        arith,
        length-le_of_subset (candidates (max_attempts s) c) used_ids tries all_used,
        length-candidates (max_attempts s) c,
        length-used_ids,
        attempts room,
      )

  -- While fewer than 2 ^ 32 - 1 notifications are stored, `next_id` gives an id that neither the
  -- active list nor the history uses, never 0, and keeps its counter an id; nothing else changes.
  pub next_id-fresh :
      s.next_id < u32_mod
      → length s.active + length s.history.entries < 4294967295
      → (is_used s (next_id s).1 ≡ false)
        × IsId (next_id s).1
        × IsId (next_id s).0.next_id
        × ((next_id s).0 ≡ record s { next_id = bump (next_id s).1 })
  unfolding next_id
  next_id-fresh small room =
      let start_id : IsId (max s.next_id 1) = omega arith in
      elim (Option-cases (search_id s (max_attempts s) (max s.next_id 1))) [
        | inl e ↦ absurd (search_id_total (max s.next_id 1) start_id room e)
        | inr (id, e) ↦
            let (free, i) = search_id-some (max_attempts s) (max s.next_id 1) id start_id e in
            rw (e, next_id) (free, i, bump-IsId id, refl)
      ]
