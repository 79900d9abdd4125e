-- ===== src/Client.antt =====
-- taskrunner/grpc/client.py: the calls of a `SchedulerClient` within its context. The stub is a
-- parameter: each of its calls sends a message and gives the reply, or `none` for an exception, and
-- the state in which it leaves what answers it. `none` of a call of the client is an exception too.
pub mod Heartbeats
pub mod Served
pub mod Sent
pub mod Tests
use distributed_task_runner.Base.{String, Bool, true, false, Option, none, some, if◌then◌else◌}
use distributed_task_runner.Base.Int.{ℤ}
use distributed_task_runner.Models.{Value, TaskSpec, TaskEnvelope, TaskResult, WorkerInfo}
use distributed_task_runner.Codec.{fits}
use distributed_task_runner.Codec.Specs.{SpecMessage, spec_to_proto}
use distributed_task_runner.Codec.Records.{
  WorkerMessage, TaskMessage, ResultMessage, worker_to_proto, task_from_proto, result_to_proto,
}
use distributed_task_runner.Server.{HeartbeatReply, unknown, known}

abbrev pub Call : Type 0 → Type 0 → Type 0 → Type 0
Call S Request Reply = Request → S → Option Reply × S

-- The methods of `SchedulerStub` that the client calls; a reply of `ReserveTask` has a task where
-- its `found` is true.
pub record Stub (S : Type 0) : Type 0 where
  pub submit_task : Call S SpecMessage TaskMessage
  pub register_worker : Call S WorkerMessage WorkerMessage
  pub heartbeat : Call S (String × ℤ) HeartbeatReply
  pub reserve_task : Call S (String × ℤ) (Option TaskMessage)
  pub report_result : Call S ResultMessage TaskMessage
  pub cancel_task : Call S String TaskMessage
  pub retry_task : Call S String TaskMessage

abbrev pub is_known : HeartbeatReply → Bool
is_known unknown = false
is_known (known worker) = true

abbrev pub read_reply : {Reply A : Type 0} → (Reply → Option A) → Option Reply → Option A
read_reply read none = none
read_reply read (some reply) = read reply

-- The call with the message, unless it cannot be made, and what is made of the reply.
abbrev pub sending :
    {S Request Reply A : Type 0}
    → Option Request
    → Call S Request Reply
    → (Reply → Option A)
    → S
    → Option A × S
sending none call read s = (none, s)
sending (some request) call read s = let (reply, s') = call request s in (read_reply read reply, s')

module _ {S : Type 0} (dumps : Value → String) (loads : String → Option Value) (stub : Stub S) where
  unfoldable pub submit_request : TaskSpec → S → Option TaskEnvelope × S
  unfolding spec_to_proto task_from_proto
  submit_request spec s =
      sending (spec_to_proto dumps spec) stub.submit_task (task_from_proto loads) s

  -- Nothing is read of the reply.
  unfoldable pub register_worker_request : WorkerInfo → S → Option WorkerMessage × S
  unfolding worker_to_proto
  register_worker_request worker s = sending (worker_to_proto worker) stub.register_worker some s

  unfoldable pub heartbeat_request : String → (running_tasks : ℤ) → S → Option Bool × S
  unfolding fits
  heartbeat_request worker_id running_tasks s =
      let request = if fits running_tasks then some (worker_id, running_tasks) else none in
      sending request stub.heartbeat (λ reply. some (is_known reply)) s

  -- The task of a reply, or None.
  unfoldable pub reserved_task : Option TaskMessage → Option (Option TaskEnvelope)
  unfolding task_from_proto
  reserved_task none = some none
  reserved_task (some message) = elim (task_from_proto loads message) [
    | none ↦ none
    | some task ↦ some (some task)
  ]

  unfoldable pub reserve_request :
      String → (timeout_seconds : ℤ) → S → Option (Option TaskEnvelope) × S
  unfolding reserved_task
  reserve_request worker_id timeout_seconds s =
      sending (some (worker_id, timeout_seconds)) stub.reserve_task reserved_task s

  unfoldable pub report_result_request : TaskResult → S → Option TaskEnvelope × S
  unfolding result_to_proto task_from_proto
  report_result_request result s =
      sending (some (result_to_proto dumps result)) stub.report_result (task_from_proto loads) s

  unfoldable pub cancel_request : String → S → Option TaskEnvelope × S
  unfolding task_from_proto
  cancel_request task_id s = sending (some task_id) stub.cancel_task (task_from_proto loads) s

  unfoldable pub retry_request : String → S → Option TaskEnvelope × S
  unfolding task_from_proto
  retry_request task_id s = sending (some task_id) stub.retry_task (task_from_proto loads) s
