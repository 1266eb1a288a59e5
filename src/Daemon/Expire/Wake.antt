-- ===== src/Daemon/Expire/Wake.antt =====
-- Which notifications a wake-up closes.
use unix_notis.Prelude.{
  ltb→lt, ◌↔◌, nat_eq, ℕ, ◌≤◌, ◌≡◌, refl, sym, ap, ◌∙◌, inl, inr, true, false, ◌&&◌, none, some,
  List, [], ◌∷◌, arith, ltb, ◌==◌, ==_iff, Bool-cases, if◌then◌else◌,
}
use unix_notis.Prelude.Maps.{elem, lookup}
use unix_notis.Store.{NotificationStore}
use unix_notis.Store.Lifecycle.{expiration_for}
use unix_notis.Daemon.Expire.{ExpirationItem, Scheduler, fire, fire_due, wake}
use unix_notis.Daemon.Expire.Due.{
  fire-Fired, fire_due-stop, fire_due-go, elem-closed, has_item-le, Ordered-tail,
}
use unix_notis.Daemon.Expire.Queue.{Ordered, has_item, IsValid, maybe_compact_lem}

popped :
    (id e k d : ℕ) (heap : List ExpirationItem)
    → has_item k d ((id, e) ∷ heap) ≡ true
    → (id == k && e == d) ≡ false
    → has_item k d heap ≡ true
unfolding has_item
popped id e k d heap h other = ground (arith, h, other)

module _ {H : Type 0} where
  -- Nothing is closed early or by mistake: every notification that a wake-up closes had one deadline
  -- in the schedule and in the store, at or before the time of the wake-up.
  pub fire_due-due :
      (now k : ℕ) (heap : List ExpirationItem) (scheduled : List (ℕ × ℕ)) (s : NotificationStore H)
      → elem k (fire_due now heap scheduled s).2 ≡ true
      → (d : ℕ) × (lookup k scheduled ≡ some d) × (expiration_for s k ≡ some d) × (d ≤ now)
  unfolding fire_due elem
  fire_due-due now k [] scheduled s h = cc
  fire_due-due now k ((id, e) ∷ heap) scheduled s h = elim (Bool-cases (ltb now e)) [
    | inl stop ↦ cc (ap (λ r. elem k r.2) (fire_due-stop now id e heap scheduled s stop), h)
    | inr go ↦
        let f = fire-Fired id e scheduled s in
        let (after, t, closed) = fire (id, e) scheduled s in
        let ids = (fire_due now heap after t).2 in
        let split =
          sym (elem-closed k id closed ids)
          ∙ sym (ap (λ r. elem k r.2) (fire_due-go now id e heap scheduled s go))
          ∙ h in
        elim (Bool-cases (elem k ids)) [
          | inl later ↦
              let (d, listed, timer, due) = fire_due-due now k heap after t later in
              elim (f.timer k) [
                | inl same ↦ (d, (f.remaining k d listed).0, sym same ∙ timer, due)
                | inr (own, shut, none_left) ↦ cc (timer, none_left)
              ]
          | inr only ↦
              let own : (closed ≡ true) × (id ≡ k) =
                (ground (arith, split, only), (==_iff id k).0 (ground (arith, split, only))) in
              (
                e,
                ap (λ i. lookup i scheduled) (sym own.1) ∙ f.was_scheduled own.0,
                ap (expiration_for s) (sym own.1) ∙ f.was_due own.0,
                ground (arith, go),
              )
        ]
  ]

  -- Nothing due is missed: a scheduled deadline that is not later than the wake-up, that has its
  -- item in the heap and that the store still expects, closes its notification.
  pub fire_due_complete :
      (now k d : ℕ) (heap : List ExpirationItem) (scheduled : List (ℕ × ℕ))
      (s : NotificationStore H)
      → Ordered heap
      → has_item k d heap ≡ true
      → lookup k scheduled ≡ some d
      → expiration_for s k ≡ some d
      → d ≤ now
      → elem k (fire_due now heap scheduled s).2 ≡ true
  unfolding has_item
  fire_due_complete now k d [] scheduled s o there h g due = cc
  fire_due_complete now k d ((id, e) ∷ heap) scheduled s o there h g due =
      elim (Bool-cases (ltb now e)) [
        | inl stop ↦
            absurd (omega (arith, has_item-le k d id e heap o there, ltb→lt now e stop, due))
        | inr go ↦
            let f = fire-Fired id e scheduled s in
            let (after, t, closed) = fire (id, e) scheduled s in
            let ids = (fire_due now heap after t).2 in
            let split =
              ap (λ r. elem k r.2) (fire_due-go now id e heap scheduled s go)
              ∙ elem-closed k id closed ids in
            split ∙ elim (Bool-cases (id == k && e == d)) [
              | inl own ↦
                  let id_k = (==_iff id k).0 (ground (arith, own)) in
                  let e_d = (==_iff e d).0 (ground (arith, own)) in
                  let shut : closed ≡ true =
                    f.complete (ap (λ i. lookup i scheduled) id_k ∙ h ∙ ap some (sym e_d))
                      (ap (expiration_for s) id_k ∙ g ∙ ap some (sym e_d)) in
                  ground (arith, shut, own)
              | inr other ↦ elim (f.timer k) [
                | inl same ↦
                    let later =
                      fire_due_complete now k d heap after t (Ordered-tail (id, e) heap o)
                        (ground (arith, there, other)) (f.kept k d h other) (same ∙ g) due in
                    ground (arith, later)
                | inr (own, shut, none_left) ↦ ground (arith, shut, (==_iff id k).1 (sym own))
              ]
            ]
      ]

  -- The closed notifications leave the active list, and no others do.
  pub fire_due-active :
      (now k : ℕ) (heap : List ExpirationItem) (scheduled : List (ℕ × ℕ)) (s : NotificationStore H)
      → let (q, t, ids) = fire_due now heap scheduled s in
        lookup k t.active ≡ (if elem k ids then none else lookup k s.active)
  unfolding fire_due elem
  fire_due-active now k [] scheduled s = refl
  fire_due-active now k ((id, e) ∷ heap) scheduled s = elim (Bool-cases (ltb now e)) [
    | inl stop ↦ rw (fire_due-stop now id e heap scheduled s stop) refl
    | inr go ↦
        let f = fire-Fired id e scheduled s in
        let (after, t, closed) = fire (id, e) scheduled s in
        let ids = (fire_due now heap after t).2 in
        rw (fire_due-go now id e heap scheduled s go) (
          fire_due-active now k heap after t
          ∙ ground (arith, f.active k, elem-closed k id closed ids))
  ]

  fire_due-IsValid :
      (now : ℕ) (heap : List ExpirationItem) (scheduled : List (ℕ × ℕ)) (s : NotificationStore H)
      → IsValid (record { heap = heap; scheduled = scheduled })
      → IsValid (fire_due now heap scheduled s).0
  unfolding fire_due
  fire_due-IsValid now [] scheduled s v = v
  fire_due-IsValid now ((id, e) ∷ heap) scheduled s v = elim (Bool-cases (ltb now e)) [
    | inl stop ↦ rw (fire_due-stop now id e heap scheduled s stop) v
    | inr go ↦
        let f = fire-Fired id e scheduled s in
        let (after, t, closed) = fire (id, e) scheduled s in
        rw (fire_due-go now id e heap scheduled s go) (
          fire_due-IsValid now heap after t (record {
            covered = λ k d h.
                let (before, other) = f.remaining k d h in
                popped id e k d heap (v.covered k d before) other;
            ordered = Ordered-tail (id, e) heap v.ordered;
          }))
  ]

  -- A wake-up of a valid scheduler closes a notification exactly when the deadline scheduled for it
  -- is the one that the store still expects, and is not later than now. The notifications that it
  -- closes leave the active list, all others stay there as they were, and the scheduler stays valid.
  pub wake_lem :
      (now k : ℕ) (q : Scheduler) (s : NotificationStore H)
      → IsValid q
      → let (q', t, ids) = wake now q s in
        IsValid q'
        × ((elem k ids ≡ true) ↔ (
            (d : ℕ) × (lookup k q.scheduled ≡ some d) × (expiration_for s k ≡ some d) × (d ≤ now)))
        × (lookup k t.active ≡ (if elem k ids then none else lookup k s.active))
  unfolding wake
  wake_lem now k q s v = (
    (maybe_compact_lem (fire_due now q.heap q.scheduled s).0
        (fire_due-IsValid now q.heap q.scheduled s v)).0,
    (
      fire_due-due now k q.heap q.scheduled s,
      λ (d, scheduled, timer, due).
          fire_due_complete now k d q.heap q.scheduled s v.ordered (v.covered k d scheduled)
            scheduled timer due,
    ),
    fire_due-active now k q.heap q.scheduled s,
  )
