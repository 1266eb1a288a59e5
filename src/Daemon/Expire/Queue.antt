-- ===== src/Daemon/Expire/Queue.antt =====
-- The scheduler's heap is ordered and holds every scheduled deadline.
use unix_notis.Prelude.{
  nat_eq, ℕ, ◌+◌, ◌*◌, ◌≤◌, ◌≡◌, refl, inl, inr, Bool, true, false, ◌&&◌, ◌||◌, none, some, List,
  [], ◌∷◌, arith, length, leb, ◌==◌, ==_iff, max, min, Bool-cases,
}
use unix_notis.Prelude.Maps.{lookup, lookup-insert, lookup-remove}
use unix_notis.Store.{u64_max}
use unix_notis.Daemon.Expire.{
  ExpirationItem, ExpirationCommand, schedule, cancel, Scheduler, push, apply_command, rebuild,
  maybe_compact,
}

-- Deadlines do not fall.
abbrev pub Ordered : List ExpirationItem → Type 0
Ordered [] = Unit {0}
Ordered (i ∷ []) = Unit {0}
Ordered (i ∷ j ∷ heap) = (i.1 ≤ j.1) × Ordered (j ∷ heap)

unfoldable pub has_item : ℕ → ℕ → List ExpirationItem → Bool
has_item id deadline [] = false
has_item id deadline ((i, d) ∷ heap) = (i == id && d == deadline) || has_item id deadline heap

push-Ordered :
    (item : ExpirationItem) (heap : List ExpirationItem) → Ordered heap → Ordered (push item heap)
unfolding push
push-Ordered item [] h = tt
push-Ordered item (i ∷ []) h = ground arith
push-Ordered item (i ∷ j ∷ heap) h = ground (arith, h.0, h.1, push-Ordered item (j ∷ heap) h.1)

has_item-push :
    (id deadline i d : ℕ) (heap : List ExpirationItem)
    → has_item id deadline (push (i, d) heap)
      ≡ ((i == id && d == deadline) || has_item id deadline heap)
unfolding push has_item
has_item-push id deadline i d [] = refl
has_item-push id deadline i d ((j, e) ∷ heap) = ground (arith, has_item-push id deadline i d heap)

-- Every scheduled deadline has an item in the heap, which is ordered.
pub record IsValid (q : Scheduler) : Type 0 where
  pub covered :
      (id deadline : ℕ) → lookup id q.scheduled ≡ some deadline → has_item id deadline q.heap ≡ true
  pub ordered : Ordered q.heap

rebuild-Ordered : (scheduled : List (ℕ × ℕ)) → Ordered (rebuild scheduled)
unfolding rebuild
rebuild-Ordered [] = tt
rebuild-Ordered (item ∷ scheduled) =
    push-Ordered item (rebuild scheduled) (rebuild-Ordered scheduled)

rebuild-covered :
    (id deadline : ℕ) (scheduled : List (ℕ × ℕ))
    → lookup id scheduled ≡ some deadline
    → has_item id deadline (rebuild scheduled) ≡ true
unfolding rebuild lookup
rebuild-covered id deadline [] h = cc
rebuild-covered id deadline ((i, d) ∷ scheduled) h = ground (
  arith,
  h,
  rebuild-covered id deadline scheduled,
  has_item-push id deadline i d (rebuild scheduled),
)

-- Every command keeps the scheduler valid: a new deadline has its item, and a cancelled or
-- superseded one leaves at most a stale item behind.
pub apply_command-IsValid :
    (command : ExpirationCommand) (q : Scheduler) → IsValid q → IsValid (apply_command command q)
unfolding apply_command
apply_command-IsValid (schedule id deadline) q v = record {
  covered = λ k d h. ground (
    arith,
    h,
    lookup-insert id k deadline q.scheduled,
    has_item-push k d id deadline q.heap,
    v.covered k d,
  );
  ordered = push-Ordered (id, deadline) q.heap v.ordered;
}
apply_command-IsValid (cancel id) q v = record {
  covered = λ k d h. ground (arith, h, lookup-remove id k q.scheduled, v.covered k d);
  ordered = v.ordered;
}

length-push :
    (item : ExpirationItem) (heap : List ExpirationItem) → length (push item heap) ≡ length heap + 1
unfolding push
length-push item [] = refl
length-push item (i ∷ heap) = ground (arith, length-push item heap)

length-rebuild : (scheduled : List (ℕ × ℕ)) → length (rebuild scheduled) ≡ length scheduled
unfolding rebuild
length-rebuild [] = refl
length-rebuild (item ∷ scheduled) =
    ground (arith, length-push item (rebuild scheduled), length-rebuild scheduled)

lookup_empty : (k : ℕ) (m : List (ℕ × ℕ)) → length m ≡ 0 → lookup k m ≡ none
unfolding lookup
lookup_empty k [] h = refl
lookup_empty k (p ∷ m) h = absurd (omega (arith, h))

-- Compaction keeps the scheduler valid and the schedule as it is, and leaves at most four items
-- for each scheduled deadline, or 128 where those are more, so stale items never pile up.
pub maybe_compact_lem :
    (q : Scheduler)
    → IsValid q
    → let c = maybe_compact q in
      IsValid c × (c.scheduled ≡ q.scheduled) × (length c.heap ≤ max (length q.scheduled * 4) 128)
unfolding maybe_compact
maybe_compact_lem q v = elim (Bool-cases (length q.scheduled == 0)) [
  | inl idle ↦ rw idle (
    record {
      covered =
          λ k d h. cc (h, lookup_empty k q.scheduled ((==_iff (length q.scheduled) 0).0 idle));
      ordered = tt;
    },
    refl,
    omega arith,
  )
  | inr live ↦
      elim (Bool-cases (leb (length q.heap) (max (min (length q.scheduled * 4) u64_max) 128))) [
        | inl small ↦ rw live (rw small (v, refl, ground (arith, small)))
        | inr large ↦ rw live (
            rw large (
              record {
                covered = λ k d h. rebuild-covered k d q.scheduled h;
                ordered = rebuild-Ordered q.scheduled;
              },
              refl,
              omega (arith, length-rebuild q.scheduled),
            ))
      ]
]
