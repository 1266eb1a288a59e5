-- ===== src/Commands/Coalesced.antt =====
-- The queue of refresh commands that found the workers busy: command_queue/coalesced.rs of
-- crates/unixnotis-center/src/ui/widgets/utils/command. The drain thread and the callers are steps on
-- the shared state; the thread holds the one job it has taken between two locks.
pub mod Valid
pub mod Newest
use unix_notis.Prelude.{
  ==_iff, Bool, Eq, List, Option, Text, [], ap, arith, false, if◌then◌else◌, leb, length, min, none,
  refl, some, text_beq, text_beq_iff, true, ℕ, ◌&&◌, ◌++◌, ◌-◌, ◌==◌, ◌^◌, ◌↔◌, ◌∷◌, ◌≡◌,
}
use unix_notis.Prelude.Maps.{contains_key, insert, lookup, remove}
use unix_notis.Commands.{CommandJob, CommandKind, action, fast, kind_beq, slow, timeout}

abbrev pub coalesced_refresh_capacity : ℕ
coalesced_refresh_capacity = 256

pub record RefreshCommandKey : Type 0 where
  pub cmd : Text
  pub kind : CommandKind
  pub timeout_ms : Option ℕ

abbrev pub timeout_beq : Option ℕ → Option ℕ → Bool
timeout_beq none none = true
timeout_beq none (some b) = false
timeout_beq (some a) none = false
timeout_beq (some a) (some b) = a == b

abbrev pub key_beq : RefreshCommandKey → RefreshCommandKey → Bool
key_beq a b =
    text_beq a.cmd b.cmd && kind_beq a.kind b.kind && timeout_beq a.timeout_ms b.timeout_ms

pub kind_beq_iff : (a b : CommandKind) → (kind_beq a b ≡ true) ↔ (a ≡ b)
kind_beq_iff fast fast = (λ h. refl, λ h. refl)
kind_beq_iff fast slow = (λ h. cc, λ h. cc)
kind_beq_iff fast action = (λ h. cc, λ h. cc)
kind_beq_iff slow fast = (λ h. cc, λ h. cc)
kind_beq_iff slow slow = (λ h. refl, λ h. refl)
kind_beq_iff slow action = (λ h. cc, λ h. cc)
kind_beq_iff action fast = (λ h. cc, λ h. cc)
kind_beq_iff action slow = (λ h. cc, λ h. cc)
kind_beq_iff action action = (λ h. refl, λ h. refl)

timeout_beq_iff : (a b : Option ℕ) → (timeout_beq a b ≡ true) ↔ (a ≡ b)
timeout_beq_iff none none = (λ h. refl, λ h. refl)
timeout_beq_iff none (some b) = (λ h. cc, λ h. cc)
timeout_beq_iff (some a) none = (λ h. cc, λ h. cc)
timeout_beq_iff (some a) (some b) =
    (λ h. ap (λ k. some k) ((==_iff a b).0 h), λ h. ground (arith, h))

pub key_beq_iff : (a b : RefreshCommandKey) → (key_beq a b ≡ true) ↔ (a ≡ b)
key_beq_iff a b =
    let texts = text_beq_iff a.cmd b.cmd in
    let kinds = kind_beq_iff a.kind b.kind in
    let timeouts = timeout_beq_iff a.timeout_ms b.timeout_ms in
    (
      λ h.
          let t : text_beq a.cmd b.cmd ≡ true = ground (arith, h) in
          let k : kind_beq a.kind b.kind ≡ true = ground (arith, h) in
          let m : timeout_beq a.timeout_ms b.timeout_ms ≡ true = ground (arith, h) in
          cc (texts.0 t, kinds.0 k, timeouts.0 m),
      λ h.
          rw
            (
              texts.1 (ap (λ k. k.cmd) h),
              kinds.1 (ap (λ k. k.kind) h),
              timeouts.1 (ap (λ k. k.timeout_ms) h),
            )
            refl,
    )

instance abbrev pub key_eq : Eq RefreshCommandKey
key_eq = record { beq = key_beq; beq_iff = key_beq_iff }

module _ {R : Type 0} where
  -- The timeout is a number of milliseconds within a machine word.
  unfoldable pub from_job : CommandJob R → RefreshCommandKey
  from_job job = record {
    cmd = job.cmd;
    kind = job.plan.kind;
    timeout_ms = elim job.plan.timeout_override [
      | some timeout ↦ some (min timeout (2 ^ 64 - 1))
      | none ↦ none
    ];
  }

pub record CoalescedRefreshState (R : Type 0) : Type 0 where
  pub pending : List (RefreshCommandKey × CommandJob R)
  pub order : List RefreshCommandKey

pub record CoalescedInsertOutcome : Type 0 where
  pub replaced_existing : Bool
  pub evicted_oldest : Bool

module _ {R : Type 0} where
  -- Drops the oldest job, where there is one: whether it did, and the state after it.
  unfoldable pub evict_oldest : CoalescedRefreshState R → Bool × CoalescedRefreshState R
  evict_oldest s = elim s.order [
    | [] ↦ (false, s)
    | oldest ∷ rest ↦ (true, record { pending = remove oldest s.pending; order = rest })
  ]

  -- Room for a key that is not there.
  unfoldable pub make_room : CoalescedRefreshState R → Bool × CoalescedRefreshState R
  make_room s =
      if leb coalesced_refresh_capacity (length s.pending) then evict_oldest s else (false, s)

  unfoldable pub insert_coalesced_job :
      CoalescedRefreshState R → CommandJob R → CoalescedInsertOutcome × CoalescedRefreshState R
  insert_coalesced_job s job =
      let key = from_job job in
      if contains_key key s.pending
      then (
        record { replaced_existing = true; evicted_oldest = false },
        record s { pending = insert key job s.pending },
      )
      else let room = (make_room s).1 in
        (
          record { replaced_existing = false; evicted_oldest = (make_room s).0 },
          record { pending = insert key job room.pending; order = room.order ++ key ∷ [] },
        )

  -- One round of the drain thread up to the send: the job it takes, if any.
  unfoldable pub take_next :
      CoalescedRefreshState R → Option (RefreshCommandKey × CommandJob R) × CoalescedRefreshState R
  take_next s = elim s.order [
    | [] ↦ (none, s)
    | key ∷ rest ↦ elim (lookup key s.pending) [
      | none ↦ (none, record s { order = rest })
      | some job ↦ (some (key, job), record { pending = remove key s.pending; order = rest })
    ]
  ]

  -- The job goes back when the workers are still busy.
  unfoldable pub put_back :
      RefreshCommandKey → CommandJob R → CoalescedRefreshState R → CoalescedRefreshState R
  put_back key job s =
      if contains_key key s.pending
      then record s { pending = insert key job s.pending }
      else let room = (make_room s).1 in
        record { pending = insert key job room.pending; order = key ∷ room.order }
