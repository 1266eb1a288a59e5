-- ===== src/Store/Dnd.antt =====
-- The do-not-disturb switch and its persistence:
-- crates/unixnotis-daemon/src/daemon/control/dnd.rs over the store of store.rs. The lock is
-- released between the write and the persistence, so other operations may come between; writing
-- the file is I/O, and enters as the result it has.
use unix_notis.Prelude.{
  Option-cases, ap, ◌↔◌, ℕ, ◌+◌, ◌≤◌, ◌<◌, ◌≡◌, refl, sym, ◌∙◌, ◌⊎◌, inl, inr, Bool, true, false,
  not, ◌||◌, none, some, arith, ◌==◌, ==_iff, ◌≢◌, Bool-cases, if◌then◌else◌,
}
use unix_notis.Store.{
  bool_eq, NotificationStore, DndWrite, DndStateStore, saturating_add, u64_max, write_dnd, set_dnd,
  toggle_dnd, rollback_dnd_write_if_current,
}

-- What the caller of `finalize_dnd_write` gets, and whether a state change is signalled.
pub record Finalized : Type 0 where
  pub failed : Bool
  pub signalled : Bool

bool_eq_iff : (a b : Bool) → (bool_eq a b ≡ true) ↔ (a ≡ b)
unfolding bool_eq
bool_eq_iff true b = (λ h. sym h, λ h. sym h)
bool_eq_iff false true = (λ h. h, λ h. h)
bool_eq_iff false false = (λ h. refl, λ h. refl)

bool_eq-not : (b : Bool) → bool_eq b (not b) ≡ false
unfolding bool_eq
bool_eq-not true = refl
bool_eq-not false = refl

not-not : (b : Bool) → not (not b) ≡ b
not-not true = refl
not-not false = refl

twice_up : (r : ℕ) → r + 2 ≤ u64_max → saturating_add (saturating_add r 1) 1 ≡ r + 2
unfolding saturating_add
twice_up r room = omega (arith, room)

module _ {H : Type 0} where
  -- `persisted` tells whether `store.persist(write.current)` returned `Ok`.
  unfoldable pub finalize_dnd_write :
      NotificationStore H → DndWrite → Bool → NotificationStore H × Finalized
  finalize_dnd_write s write persisted = elim write.persist [
    | none ↦ (s, record { failed = false; signalled = write.changed })
    | some store ↦
        if not persisted
        then (
          (rollback_dnd_write_if_current s write).0,
          record { failed = true; signalled = false },
        )
        else (s, record { failed = false; signalled = write.changed })
  ]

  pub set_dnd-same :
      (s : NotificationStore H) (enabled : Bool)
      → bool_eq s.dnd_enabled enabled ≡ true
      → set_dnd s enabled ≡ (
        s,
        record {
          changed = false;
          previous = s.dnd_enabled;
          current = s.dnd_enabled;
          revision = s.dnd_revision;
          persist = none;
        },
      )
  unfolding set_dnd write_dnd
  set_dnd-same s enabled e = rw e refl

  pub set_dnd-other :
      (s : NotificationStore H) (enabled : Bool)
      → bool_eq s.dnd_enabled enabled ≡ false
      → set_dnd s enabled ≡ (
        record s { dnd_enabled = enabled; dnd_revision = saturating_add s.dnd_revision 1 },
        record {
          changed = true;
          previous = s.dnd_enabled;
          current = enabled;
          revision = saturating_add s.dnd_revision 1;
          persist = s.dnd_state_store;
        },
      )
  unfolding set_dnd write_dnd
  set_dnd-other s enabled e = rw e refl

  rollback-current :
      (t : NotificationStore H) (write : DndWrite)
      → write.changed ≡ true
      → t.dnd_revision ≡ write.revision
      → t.dnd_enabled ≡ write.current
      → rollback_dnd_write_if_current t write ≡ (
        record t { dnd_enabled = write.previous; dnd_revision = saturating_add t.dnd_revision 1 },
        true,
      )
  unfolding rollback_dnd_write_if_current
  rollback-current t write changed revision current =
      rw
        (
          changed,
          (==_iff t.dnd_revision write.revision).1 revision,
          (bool_eq_iff t.dnd_enabled write.current).1 current,
        )
        refl

  rollback-newer :
      (t : NotificationStore H) (write : DndWrite)
      → (t.dnd_revision == write.revision) ≡ false
      → rollback_dnd_write_if_current t write ≡ (t, false)
  unfolding rollback_dnd_write_if_current
  rollback-newer t write newer = ground (arith, newer)

  -- Either way through `rollback_dnd_write_if_current`.
  pub rollback_cases :
      (s : NotificationStore H) (write : DndWrite)
      → let t = (rollback_dnd_write_if_current s write).0 in
        (t ≡ s)
        ⊎ (t ≡ record s {
          dnd_enabled = write.previous;
          dnd_revision = saturating_add s.dnd_revision 1;
        })
  unfolding rollback_dnd_write_if_current
  rollback_cases s write = elim (Bool-cases (not write.changed)) [
    | inl unchanged ↦ inl (rw unchanged refl)
    | inr changed ↦
        elim (Bool-cases
          (not (s.dnd_revision == write.revision) || not (bool_eq s.dnd_enabled write.current))) [
            | inl newer ↦ inl (rw changed (rw newer refl))
            | inr current ↦ inr (rw changed (rw current refl))
          ]
  ]

  -- Setting the switch gives it the wanted value. If it had that value already, nothing changes and
  -- nothing is to be persisted; otherwise the revision rises by one, and the new value is handed to
  -- the persistence backend, where there is one.
  pub set_dnd_lem :
      (s : NotificationStore H) (enabled : Bool)
      → s.dnd_revision < u64_max
      → let (t, write) = set_dnd s enabled in
        (t.dnd_enabled ≡ enabled)
        × (((s.dnd_enabled ≡ enabled) × (t ≡ s) × (write.changed ≡ false) × (write.persist ≡ none))
            ⊎ ((s.dnd_enabled ≢ enabled)
                × (t ≡ record s { dnd_enabled = enabled; dnd_revision = s.dnd_revision + 1 })
                × (write.changed ≡ true)
                × (write.persist ≡ s.dnd_state_store)))
  unfolding saturating_add
  set_dnd_lem s enabled room = elim (Bool-cases (bool_eq s.dnd_enabled enabled)) [
    | inl e ↦
        let same = (bool_eq_iff s.dnd_enabled enabled).0 e in
        rw (set_dnd-same s enabled e) (same, inl (same, refl, refl, refl))
    | inr e ↦ rw (set_dnd-other s enabled e) (
      refl,
      inr (
        λ same. cc ((bool_eq_iff s.dnd_enabled enabled).1 same, e),
        ap (λ r. record s { dnd_enabled = enabled; dnd_revision = r }) (omega (arith, room)),
        refl,
        refl,
      ),
    )
  ]

  -- Toggling twice gives the first value back, two revisions later.
  pub toggle_dnd-twice :
      (s : NotificationStore H)
      → s.dnd_revision + 2 ≤ u64_max
      → (toggle_dnd (toggle_dnd s).0).0 ≡ record s { dnd_revision = s.dnd_revision + 2 }
  unfolding toggle_dnd set_dnd
  toggle_dnd-twice s room = rw (set_dnd-other s (not s.dnd_enabled) (bool_eq-not s.dnd_enabled)) (
      rw
        (set_dnd-other
          (record s {
            dnd_enabled = not s.dnd_enabled;
            dnd_revision = saturating_add s.dnd_revision 1;
          })
          (not (not s.dnd_enabled)) (bool_eq-not (not s.dnd_enabled)))
        (ap
            (λ e. record s {
              dnd_enabled = e;
              dnd_revision = saturating_add (saturating_add s.dnd_revision 1) 1;
            })
            (not-not s.dnd_enabled)
          ∙ ap (λ r. record s { dnd_revision = r }) (twice_up s.dnd_revision room)))

  finalize-fails :
      (t : NotificationStore H) (write : DndWrite) (store : DndStateStore)
      → write.persist ≡ some store
      → write.changed ≡ true
      → t.dnd_revision ≡ write.revision
      → t.dnd_enabled ≡ write.current
      → finalize_dnd_write t write false ≡ (
        record t { dnd_enabled = write.previous; dnd_revision = saturating_add t.dnd_revision 1 },
        record { failed = true; signalled = false },
      )
  unfolding finalize_dnd_write rollback_dnd_write_if_current saturating_add
  finalize-fails t write store e changed revision current =
      rw (e, rollback-current t write changed revision current) refl

  not_equal :
      (s : NotificationStore H) (enabled : Bool)
      → s.dnd_enabled ≢ enabled
      → bool_eq s.dnd_enabled enabled ≡ false
  not_equal s enabled changes = elim (Bool-cases (bool_eq s.dnd_enabled enabled)) [
    | inl e ↦ absurd (changes ((bool_eq_iff s.dnd_enabled enabled).0 e))
    | inr e ↦ e
  ]

  -- If persisting a change fails and no other write came between, the switch has its old value
  -- again, under a revision later than the failed write's, and the caller gets the error.
  pub finalize-undoes :
      (s : NotificationStore H) (enabled : Bool) (store : DndStateStore)
      → s.dnd_state_store ≡ some store
      → s.dnd_enabled ≢ enabled
      → s.dnd_revision + 2 ≤ u64_max
      → let (t, write) = set_dnd s enabled in
        finalize_dnd_write t write false ≡ (
          record s { dnd_revision = s.dnd_revision + 2 },
          record { failed = true; signalled = false },
        )
  finalize-undoes s enabled store e changes room =
      rw (set_dnd-other s enabled (not_equal s enabled changes)) (
        finalize-fails
          (record s { dnd_enabled = enabled; dnd_revision = saturating_add s.dnd_revision 1 })
          (record {
            changed = true;
            previous = s.dnd_enabled;
            current = enabled;
            revision = saturating_add s.dnd_revision 1;
            persist = s.dnd_state_store;
          })
          store e refl refl refl
        ∙ ap (λ r. (record s { dnd_revision = r }, record { failed = true; signalled = false }))
            (twice_up s.dnd_revision room))

  -- If another write came between, a failed persistence undoes nothing: the store stays as the
  -- newer write left it.
  pub finalize-keeps_newer :
      (s t : NotificationStore H) (enabled : Bool)
      → s.dnd_revision + 1 < t.dnd_revision
      → (finalize_dnd_write t (set_dnd s enabled).1 false).0 ≡ t
  unfolding finalize_dnd_write saturating_add
  finalize-keeps_newer s t enabled newer = elim (Bool-cases (bool_eq s.dnd_enabled enabled)) [
    | inl e ↦ rw (set_dnd-same s enabled e) refl
    | inr e ↦ rw (set_dnd-other s enabled e) (elim (Option-cases s.dnd_state_store) [
      | inl absent ↦ rw absent refl
      | inr (store, there) ↦ rw there (
          ap (λ r. r.0)
            (rollback-newer t
              (record {
                changed = true;
                previous = s.dnd_enabled;
                current = enabled;
                revision = saturating_add s.dnd_revision 1;
                persist = some store;
              })
              (ground (arith, newer))))
    ])
  ]
