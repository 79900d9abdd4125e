-- ===== src/Broker/Reach.antt =====
-- taskrunner/queue/broker.py: the histories of a queue. Each method is a step, and the steps of
-- the threads that share the queue follow one another in any order.
use distributed_task_runner.Base.{ℕ, String, Option, List}
use distributed_task_runner.Base.Int.{ℤ}
use distributed_task_runner.Models.{TaskEnvelope, TaskStatus, WorkerInfo}
use distributed_task_runner.Broker.State.{Ref, Broker, new_queue}
use distributed_task_runner.Broker.Submit.{Arrival, submit, submit_many}
use distributed_task_runner.Broker.Reserve.{attempt}
use distributed_task_runner.Broker.Settle.{ack, complete, retry, cancel, requeue_expired_leases}
use distributed_task_runner.Broker.Views.{snapshot}
use distributed_task_runner.Broker.WellFormed.{WellFormed, new_queue-WellFormed}
use distributed_task_runner.Broker.Preserve.{
  submit-WellFormed, submit_many-WellFormed, ack-WellFormed, complete-WellFormed, retry-WellFormed,
  cancel-WellFormed, requeue_expired_leases-WellFormed,
}
use distributed_task_runner.Broker.Promote.{promote-WellFormed}
use distributed_task_runner.Broker.Attempt.{attempt-WellFormed}

-- The calls that change a queue, with what they read of the clock. `reserve` is a call of
-- `attempts` for each of its rounds; `batch` and `get` change nothing.
pub data Call : Type 0 where
  submits : (now pushed : ℤ) → Ref → Call
  submits_many : List Arrival → Call
  attempts : (now leased : ℤ) → WorkerInfo → List String → (lease_seconds : ℤ) → Call
  acks : String → Call
  completes : String → TaskStatus → Option String → Call
  retries : (now pushed : ℤ) → (task_id reason : String) → Call
  cancels : String → Call
  requeues : (now : ℤ) → (String → ℤ × ℤ) → Call
  snapshots : (now : ℤ) → Call

unfoldable pub step : Call → Broker → Broker
unfolding submit submit_many attempt ack complete retry cancel requeue_expired_leases snapshot
step (submits now pushed r) b = (submit now pushed r b).1
step (submits_many batch) b = (submit_many batch b).1
step (attempts now leased worker completed lease_seconds) b =
    (attempt now leased worker completed lease_seconds b).1
step (acks k) b = (ack k b).1
step (completes k status error) b = (complete k status error b).1
step (retries now pushed k reason) b = (retry now pushed k reason b).1
step (cancels k) b = (cancel k b).1
step (requeues now clock) b = (requeue_expired_leases now clock b).1
step (snapshots now) b = (snapshot now b).1

-- The queues that a history of calls makes of `b`.
pub data Reach (b : Broker) : Broker → Type 0 where
  here : Reach b b
  next : {c : Broker} → Reach b c → (call : Call) → Reach b (step call c)

pub step-WellFormed : (call : Call) (b : Broker) → WellFormed b → WellFormed (step call b)
unfolding step snapshot
step-WellFormed (submits now pushed r) b h = submit-WellFormed now pushed r b h
step-WellFormed (submits_many batch) b h = submit_many-WellFormed batch b h
step-WellFormed (attempts now leased worker completed lease_seconds) b h =
    attempt-WellFormed worker completed now leased lease_seconds b h
step-WellFormed (acks k) b h = ack-WellFormed k b h
step-WellFormed (completes k status error) b h = complete-WellFormed k status error b h
step-WellFormed (retries now pushed k reason) b h = retry-WellFormed now pushed k reason b h
step-WellFormed (cancels k) b h = cancel-WellFormed k b h
step-WellFormed (requeues now clock) b h = requeue_expired_leases-WellFormed now clock b h
step-WellFormed (snapshots now) b h = promote-WellFormed now b h

pub Reach-keeps-WellFormed : {b c : Broker} → WellFormed b → Reach b c → WellFormed c
Reach-keeps-WellFormed h here = h
Reach-keeps-WellFormed h (next r call) = step-WellFormed call _ (Reach-keeps-WellFormed h r)

-- Every history of calls on a new queue, in any order and whether the calls return or raise, leaves
-- it well formed: the entries of its heaps, the tasks in flight and the dead letters are in
-- `_tasks`, the heaps are in order, and a task is filed under its identifier.
pub Reach-WellFormed :
    (max_depth : ℕ) (objects : Ref → TaskEnvelope) {b : Broker}
    → Reach (new_queue max_depth objects) b
    → WellFormed b
Reach-WellFormed max_depth objects r =
    Reach-keeps-WellFormed (new_queue-WellFormed max_depth objects) r
