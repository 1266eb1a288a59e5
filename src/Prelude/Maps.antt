-- ===== src/Prelude/Maps.antt =====
-- Maps as association lists in insertion order: `IndexMap`, and `HashMap` where the order of the
-- entries is never observed. A key stands at most once in a map that these operations build.
use unix_notis.Prelude.{
  suc, ◌≤◌, ◌<◌, ◌≡◌, refl, ap, inl, inr, Bool, true, false, not, ◌&&◌, ◌||◌, Option, none, some,
  List, [], ◌∷◌, ◌++◌, arith, if◌then◌else◌, length, Bool-cases, Eq,
}

module _ {ℓ} {K : Type ℓ} ⦃e : Eq K⦄ where
  unfoldable pub elem : K → List K → Bool
  elem k [] = false
  elem k (j ∷ js) = e.beq j k || elem k js

  unfoldable pub without : K → List K → List K
  without k [] = []
  without k (j ∷ js) = if e.beq j k then without k js else j ∷ without k js

  -- No key stands twice.
  abbrev pub Distinct : List K → Type 0
  Distinct [] = Unit {0}
  Distinct (k ∷ ks) = (elem k ks ≡ false) × Distinct ks

  pub beq_refl : (k : K) → e.beq k k ≡ true
  beq_refl k = (e.beq_iff k k).1 refl

  pub elem-append : (k : K) (xs ys : List K) → elem k (xs ++ ys) ≡ (elem k xs || elem k ys)
  unfolding elem
  elem-append k [] ys = refl
  elem-append k (x ∷ xs) ys = ground (arith, elem-append k xs ys)

  pub elem-without :
      (k j : K) (xs : List K) → elem j (without k xs) ≡ (not (e.beq k j) && elem j xs)
  unfolding elem without
  elem-without k j [] = ground arith
  elem-without k j (x ∷ xs) =
      ground (arith, elem-without k j xs, e.beq_iff x k, e.beq_iff x j, e.beq_iff k j)

  pub elem-without_self : (k : K) (xs : List K) → elem k (without k xs) ≡ false
  elem-without_self k xs = ground (arith, elem-without k k xs, beq_refl k)

  pub without_absent : (k : K) (xs : List K) → elem k xs ≡ false → without k xs ≡ xs
  unfolding elem without
  without_absent k [] h = refl
  without_absent k (x ∷ xs) h = ground (arith, without_absent k xs)

  pub without-Distinct : (k : K) (xs : List K) → Distinct xs → Distinct (without k xs)
  unfolding without
  without-Distinct k [] d = tt
  without-Distinct k (x ∷ xs) d = ground (arith, without-Distinct k xs d.1, elem-without k x xs)

  pub append-Distinct :
      (xs ys : List K)
      → Distinct xs
      → Distinct ys
      → ((k : K) → elem k xs ≡ true → elem k ys ≡ false)
      → Distinct (xs ++ ys)
  unfolding elem
  append-Distinct [] ys d d' apart = d'
  append-Distinct (x ∷ xs) ys d d' apart = (
    ground (arith, elem-append x xs ys, apart x, beq_refl x),
    append-Distinct xs ys d.1 d' (λ k h. ground (arith, apart k)),
  )

  elem_ne : (k j : K) (xs : List K) → elem j xs ≡ true → elem k xs ≡ false → e.beq k j ≡ false
  elem_ne k j xs g h = elim (Bool-cases (e.beq k j)) [
    | inl same ↦ cc (g, h, (e.beq_iff k j).0 same)
    | inr other ↦ other
  ]

  pub snoc-Distinct :
      (xs : List K) (k : K) → Distinct xs → elem k xs ≡ false → Distinct (xs ++ k ∷ [])
  unfolding elem
  snoc-Distinct xs k d h =
      append-Distinct xs (k ∷ []) d (refl, tt) (λ j g. ground (arith, elem_ne k j xs g h))

  -- Removing a key that is there shortens a list of distinct keys by one.
  pub length-without :
      (k : K) (xs : List K)
      → Distinct xs
      → elem k xs ≡ true
      → suc (length (without k xs)) ≡ length xs
  unfolding elem without
  length-without k [] d h = cc
  length-without k (x ∷ xs) d h = elim (Bool-cases (e.beq x k)) [
    | inl hit ↦
        rw hit (ap (λ r. suc (length r)) (without_absent k xs (cc (d.0, (e.beq_iff x k).0 hit))))
    | inr miss ↦ rw miss (ap suc (length-without k xs d.1 (ground (arith, h, miss))))
  ]

  pub length-without-le : (k : K) (xs : List K) → length (without k xs) ≤ length xs
  unfolding without
  length-without-le k [] = omega arith
  length-without-le k (x ∷ xs) = ground (arith, length-without-le k xs)

  pub length-without-lt :
      (k : K) (xs : List K) → elem k xs ≡ true → length (without k xs) < length xs
  unfolding elem without
  length-without-lt k [] h = cc
  length-without-lt k (x ∷ xs) h = elim (Bool-cases (e.beq x k)) [
    | inl hit ↦ rw hit (omega (arith, length-without-le k xs))
    | inr miss ↦ rw miss (omega (arith, length-without-lt k xs (ground (arith, h, miss))))
  ]

module _ {ℓ κ} {K : Type ℓ} {V : Type κ} where
  unfoldable pub keys : List (K × V) → List K
  keys [] = []
  keys ((k, v) ∷ m) = k ∷ keys m

  unfoldable pub values : List (K × V) → List V
  values [] = []
  values ((k, v) ∷ m) = v ∷ values m

  pub keys-append : (m n : List (K × V)) → keys (m ++ n) ≡ keys m ++ keys n
  unfolding keys
  keys-append [] n = refl
  keys-append ((k, v) ∷ m) n = ap (λ r. k ∷ r) (keys-append m n)

  pub length-keys : (m : List (K × V)) → length (keys m) ≡ length m
  unfolding keys
  length-keys [] = refl
  length-keys ((k, v) ∷ m) = ap suc (length-keys m)

module _ {ℓ κ} {K : Type ℓ} {V : Type κ} ⦃e : Eq K⦄ where
  unfoldable pub lookup : K → List (K × V) → Option V
  lookup k [] = none
  lookup k ((j, v) ∷ m) = if e.beq j k then some v else lookup k m

  unfoldable pub contains_key : K → List (K × V) → Bool
  contains_key k [] = false
  contains_key k ((j, v) ∷ m) = e.beq j k || contains_key k m

  -- A present key keeps its place and takes the new value; a new key goes to the end.
  unfoldable pub insert : K → V → List (K × V) → List (K × V)
  insert k v [] = (k, v) ∷ []
  insert k v ((j, w) ∷ m) = if e.beq j k then (j, v) ∷ m else (j, w) ∷ insert k v m

  unfoldable pub remove : K → List (K × V) → List (K × V)
  remove k [] = []
  remove k ((j, w) ∷ m) = if e.beq j k then remove k m else (j, w) ∷ remove k m

  pub contains_key-elem : (k : K) (m : List (K × V)) → contains_key k m ≡ elem k (keys m)
  unfolding contains_key elem keys
  contains_key-elem k [] = refl
  contains_key-elem k ((j, v) ∷ m) = ground (arith, contains_key-elem k m)

  pub lookup-insert :
      (k j : K) (v : V) (m : List (K × V))
      → lookup j (insert k v m) ≡ (if e.beq k j then some v else lookup j m)
  unfolding lookup insert
  lookup-insert k j v [] = refl
  lookup-insert k j v ((i, w) ∷ m) =
      ground (arith, e.beq_iff k j, e.beq_iff i k, e.beq_iff i j, lookup-insert k j v m)

  pub lookup-remove :
      (k j : K) (m : List (K × V))
      → lookup j (remove k m) ≡ (if e.beq k j then none else lookup j m)
  unfolding lookup remove
  lookup-remove k j [] = ground arith
  lookup-remove k j ((i, w) ∷ m) =
      ground (arith, e.beq_iff k j, e.beq_iff i k, e.beq_iff i j, lookup-remove k j m)

  pub lookup_absent : (k : K) (m : List (K × V)) → elem k (keys m) ≡ false → lookup k m ≡ none
  unfolding lookup keys elem
  lookup_absent k [] h = refl
  lookup_absent k ((j, v) ∷ m) h = ground (arith, lookup_absent k m)

  pub lookup_present :
      (k : K) (m : List (K × V)) → elem k (keys m) ≡ true → (v : V) × (lookup k m ≡ some v)
  unfolding lookup keys elem
  lookup_present k [] h = absurd (unfold elem keys in (cc))
  lookup_present k ((j, v) ∷ m) h = elim (Bool-cases (e.beq j k)) [
    | inl hit ↦ (v, rw hit)
    | inr miss ↦ rw miss (lookup_present k m (ground arith))
  ]

  pub elem-keys : (k : K) (m : List (K × V)) (v : V) → lookup k m ≡ some v → elem k (keys m) ≡ true
  unfolding lookup keys elem
  elem-keys k [] v h = cc
  elem-keys k ((j, w) ∷ m) v h = ground (arith, elem-keys k m v)

  pub keys-remove : (k : K) (m : List (K × V)) → keys (remove k m) ≡ without k (keys m)
  unfolding keys remove without
  keys-remove k [] = refl
  keys-remove k ((j, v) ∷ m) = ground (arith, keys-remove k m)

  pub keys-insert :
      (k : K) (v : V) (m : List (K × V))
      → keys (insert k v m) ≡ (if elem k (keys m) then keys m else keys m ++ k ∷ [])
  unfolding keys insert elem
  keys-insert k v [] = refl
  keys-insert k v ((j, w) ∷ m) = ground (arith, keys-insert k v m)

  -- A new key goes to the end.
  pub insert_absent :
      (k : K) (v : V) (m : List (K × V)) → elem k (keys m) ≡ false → insert k v m ≡ m ++ (k, v) ∷ []
  unfolding keys insert elem
  insert_absent k v [] h = refl
  insert_absent k v ((j, w) ∷ m) h = ground (arith, insert_absent k v m)

  pub remove_absent : (k : K) (m : List (K × V)) → elem k (keys m) ≡ false → remove k m ≡ m
  unfolding keys remove elem
  remove_absent k [] h = refl
  remove_absent k ((j, w) ∷ m) h = ground (arith, remove_absent k m)

  pub elem-keys-insert :
      (k j : K) (v : V) (m : List (K × V))
      → elem j (keys (insert k v m)) ≡ (e.beq k j || elem j (keys m))
  unfolding keys insert elem
  elem-keys-insert k j v [] = refl
  elem-keys-insert k j v ((i, w) ∷ m) =
      ground (arith, elem-keys-insert k j v m, e.beq_iff i k, e.beq_iff i j, e.beq_iff k j)

  pub insert-Distinct :
      (k : K) (v : V) (m : List (K × V)) → Distinct (keys m) → Distinct (keys (insert k v m))
  insert-Distinct k v m d = rw (keys-insert k v m) (elim (Bool-cases (elem k (keys m))) [
    | inl there ↦ rw there d
    | inr new ↦ rw new (snoc-Distinct (keys m) k d new)
  ])

  pub remove-Distinct :
      (k : K) (m : List (K × V)) → Distinct (keys m) → Distinct (keys (remove k m))
  remove-Distinct k m d = rw (keys-remove k m) (without-Distinct k (keys m) d)

  pub elem-keys-remove :
      (k j : K) (m : List (K × V))
      → elem j (keys (remove k m)) ≡ (not (e.beq k j) && elem j (keys m))
  elem-keys-remove k j m = rw (keys-remove k m) (elem-without k j (keys m))

-- Distinct keys that all stand in a second list are no more than its items.
pub length-le_of_subset {ℓ} :
    {K : Type ℓ} ⦃e : Eq K⦄ (xs ys : List K)
    → Distinct xs
    → ((k : K) → elem k xs ≡ true → elem k ys ≡ true)
    → length xs ≤ length ys
unfolding elem
length-le_of_subset [] ys d h = omega arith
length-le_of_subset ⦃e⦄ (x ∷ xs) ys d h = omega (
  arith,
  length-without-lt x ys (h x (ground (arith, beq_refl x))),
  length-le_of_subset xs (without x ys) d.1
      (λ k g. ground (arith, h k, g, d.0, elem-without x k ys, e.beq_iff x k)),
)
