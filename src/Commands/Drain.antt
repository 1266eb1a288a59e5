-- ===== src/Commands/Drain.antt =====
-- The drain thread of the coalesced refreshes: CoalescedRefreshQueue::drain_loop of crates/
-- unixnotis-center/src/ui/widgets/utils/command/command_queue/coalesced.rs. What the workers' channel
-- answers in each round is an argument; waiting for work, and the pause after a refusal, are left aside.
pub mod Rounds
use unix_notis.Prelude.{List, [], none, some, suc, ℕ, ◌∷◌, ◌≡◌}
use unix_notis.Commands.{CommandJob}
use unix_notis.Commands.Coalesced.{CoalescedRefreshState, put_back, take_next}
use unix_notis.Commands.Dispatch.{Sent, accepted, disconnected, full}

-- How many jobs the workers accept.
unfoldable pub accepted_count : List Sent → ℕ
accepted_count [] = 0
accepted_count (accepted ∷ answers) = suc (accepted_count answers)
accepted_count (full ∷ answers) = accepted_count answers
accepted_count (disconnected ∷ answers) = accepted_count answers

-- The workers' channel stays open.
abbrev pub StaysOpen : List Sent → Type 0
StaysOpen [] = Unit {0}
StaysOpen (answer ∷ answers) = ¬ (answer ≡ disconnected) × StaysOpen answers

module _ {R : Type 0} where
  -- Rounds with these answers: the jobs sent, and the queue after them. An answer is only read in a
  -- round that has a job to send; the thread ends when the channel is closed.
  unfoldable pub drain_loop :
      List Sent → CoalescedRefreshState R → List (CommandJob R) × CoalescedRefreshState R
  drain_loop [] s = ([], s)
  drain_loop (accepted ∷ answers) s =
      let rest = drain_loop answers (take_next s).1 in
      elim (take_next s).0 [ none ↦ rest | some item ↦ (item.1 ∷ rest.0, rest.1) ]
  drain_loop (full ∷ answers) s = elim (take_next s).0 [
    | none ↦ drain_loop answers (take_next s).1
    | some item ↦ drain_loop answers (put_back item.0 item.1 (take_next s).1)
  ]
  drain_loop (disconnected ∷ answers) s = elim (take_next s).0 [
    | none ↦ drain_loop answers (take_next s).1
    | some item ↦ ([], (take_next s).1)
  ]
