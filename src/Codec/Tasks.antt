-- ===== src/Codec/Tasks.antt =====
-- taskrunner/grpc/codec.py: what arrives of a task that is sent.
use distributed_task_runner.Base.{◌≡◌, ◌≢◌, refl, true, Option, none, some, String}
use distributed_task_runner.Base.Int.{pos}
use distributed_task_runner.Base.Text.{or_text}
use distributed_task_runner.Models.{
  Value, TaskSpec, TaskEnvelope, TaskStatus, pending, queued, running, acked, succeeded, failed,
  retrying, cancelled, dead_lettered, status_text,
}
use distributed_task_runner.Models.Normal.{IsNormal}
use distributed_task_runner.Codec.{fits, to_status}
use distributed_task_runner.Codec.Specs.{SpecMessage, spec_to_proto, spec_from_proto}
use distributed_task_runner.Codec.Records.{
  TaskMessage, task_message, read_task, task_to_proto, task_from_proto,
}
use distributed_task_runner.Codec.Trip.{
  Reads, Arrived, given-text_of, spec_from_proto-spec_to_proto,
}

-- A task that a message can carry whole: its numbers are values of int32, `json` reads its payload
-- back, and none of its optional texts is the empty one.
pub record Sendable (dumps : Value → String) (loads : String → Option Value) (task : TaskEnvelope)
    : Type 0 where
  pub normal : IsNormal task.spec
  pub json : Reads dumps loads task.spec.payload
  pub keyed : task.spec.batch_key ≢ some ""
  pub priority_fits : fits task.spec.priority ≡ true
  pub retries_fit : fits task.spec.max_retries ≡ true
  pub attempts_fit : fits (pos task.attempts) ≡ true
  pub worker_named : task.assigned_worker ≢ some ""
  pub error_stated : task.last_error ≢ some ""

-- The task as it arrives: the deadline of its lease stays behind.
pub record TaskArrived (sent task : TaskEnvelope) : Type 0 where
  pub spec : Arrived sent.spec task.spec
  pub task_id : task.task_id ≡ sent.task_id
  pub created_at : task.created_at ≡ sent.created_at
  pub available_at : task.available_at ≡ sent.available_at
  pub attempts : task.attempts ≡ sent.attempts
  pub status : task.status ≡ sent.status
  pub last_error : task.last_error ≡ sent.last_error
  pub assigned_worker : task.assigned_worker ≡ sent.assigned_worker
  pub no_deadline : task.lease_deadline ≡ none

read_status :
    (status : TaskStatus) → to_status (or_text (status_text status) "pending") ≡ some status
unfolding to_status status_text or_text
read_status pending = refl
read_status queued = refl
read_status running = refl
read_status acked = refl
read_status succeeded = refl
read_status failed = refl
read_status retrying = refl
read_status cancelled = refl
read_status dead_lettered = refl

task_written :
    (dumps : Value → String) (task : TaskEnvelope) (sent : SpecMessage)
    → spec_to_proto dumps task.spec ≡ some sent
    → fits (pos task.attempts) ≡ true
    → task_to_proto dumps task ≡ some (task_message task sent)
unfolding task_to_proto
task_written dumps task sent written fitting = rw (written, task_to_proto, fitting) refl

task_read :
    (loads : String → Option Value) (task : TaskEnvelope) (sent : SpecMessage) (spec : TaskSpec)
    → spec_from_proto loads sent ≡ some spec
    → task_from_proto loads (task_message task sent)
      ≡ some (read_task (task_message task sent) spec task.status)
unfolding task_from_proto task_message
task_read loads task sent spec read = rw (read, task_from_proto, read_status task.status) refl

-- A task that a message can carry whole can be sent, and what is read of it is that task without
-- the deadline of its lease, with its specification as a specification arrives.
pub task_from_proto-task_to_proto :
    (dumps : Value → String) (loads : String → Option Value) (task : TaskEnvelope)
    → Sendable dumps loads task
    → (message : TaskMessage) × (arrived : TaskEnvelope) × (task_to_proto dumps task ≡ some message)
      × (task_from_proto loads message ≡ some arrived)
      × TaskArrived task arrived
unfolding task_message read_task
task_from_proto-task_to_proto dumps loads task h =
    let (sent, spec, written, read, arrived) =
      spec_from_proto-spec_to_proto dumps loads task.spec h.normal h.json h.keyed h.priority_fits
        h.retries_fit in
    (
      task_message task sent,
      read_task (task_message task sent) spec task.status,
      task_written dumps task sent written h.attempts_fit,
      task_read loads task sent spec read,
      record {
        spec = arrived;
        task_id = refl;
        created_at = refl;
        available_at = refl;
        attempts = refl;
        status = refl;
        last_error = given-text_of task.last_error h.error_stated;
        assigned_worker = given-text_of task.assigned_worker h.worker_named;
        no_deadline = refl;
      },
    )
