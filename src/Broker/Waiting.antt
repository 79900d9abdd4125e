-- ===== src/Broker/Waiting.antt =====
-- taskrunner/queue/broker.py: the loop of `reserve`, which gives the lock up while it waits. What
-- the other threads do to the queue, the worker and the set of completed tasks in that time is
-- chosen by the schedule, a list of rounds. In each of them the loop reads the clock.
use distributed_task_runner.Base.{
  String, Bool, false, ◌||◌, Option, none, some, List, [], ◌∷◌, if◌then◌else◌,
}
use distributed_task_runner.Base.Int.{ℤ, pos, eqb_ℤ, at_least, ◌+ℤ◌, ◌-ℤ◌}
use distributed_task_runner.Models.{WorkerInfo}
use distributed_task_runner.Broker.State.{Outcome, ok, raised, Ref, Broker}
use distributed_task_runner.Broker.Reserve.{attempt}

-- A round: the worker and the completed tasks as they are then, the readings of `time()` by the
-- promotion and for the lease, the reading of `monotonic()` after a round that found nothing, and
-- what the others do before the next round.
pub record Round : Type 0 where
  pub worker : WorkerInfo
  pub completed : List String
  pub now : ℤ
  pub leased : ℤ
  pub monotonic : ℤ
  pub meanwhile : Broker → Broker

-- `completed_dependencies or set()`: an empty set is replaced by one of the call's own, which later
-- completions do not reach.
unfoldable pub seen : (given now : List String) → List String
seen [] now = []
seen (x ∷ xs) now = now

-- `deadline = None if timeout is None else monotonic() + timeout`
unfoldable pub deadline_of : (started : ℤ) → Option ℤ → Option ℤ
unfolding ◌+ℤ◌
deadline_of started none = none
deadline_of started (some timeout) = some (started +ℤ timeout)

-- `timeout == 0` or no time remains.
unfoldable pub gives_up : (timeout deadline : Option ℤ) → (monotonic : ℤ) → Bool
unfolding at_least ◌-ℤ◌
gives_up (some timeout) (some deadline) monotonic =
    eqb_ℤ timeout (pos 0) || eqb_ℤ (at_least (pos 0) (deadline -ℤ monotonic)) (pos 0)
gives_up _ _ monotonic = false

-- `waiting` is a call that the schedule ends before it returns.
pub data Answer : Type 0 where
  waiting : Answer
  returned : Outcome (Option Ref) → Answer

unfoldable pub reserve_from :
    (given : List String) (lease_seconds : ℤ) (timeout deadline : Option ℤ)
    → List Round
    → Broker
    → Answer × Broker
unfolding seen gives_up attempt
reserve_from given lease_seconds timeout deadline [] b = (waiting, b)
reserve_from given lease_seconds timeout deadline (round ∷ rounds) b =
    let (result, b') =
      attempt round.now round.leased round.worker (seen given round.completed) lease_seconds b in
    let later = reserve_from given lease_seconds timeout deadline rounds (round.meanwhile b') in
    elim result [
      | raised e ↦ (returned (raised e), b')
      | ok (some r) ↦ (returned (ok (some r)), b')
      | ok none ↦
          if gives_up timeout deadline round.monotonic then (returned (ok none), b') else later
    ]

-- `reserve`, called with the set `given`.
unfoldable pub reserve :
    (given : List String) (lease_seconds : ℤ) (timeout : Option ℤ) (started : ℤ)
    → List Round
    → Broker
    → Answer × Broker
unfolding deadline_of reserve_from
reserve given lease_seconds timeout started rounds b =
    reserve_from given lease_seconds timeout (deadline_of started timeout) rounds b
