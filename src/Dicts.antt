-- ===== src/Dicts.antt =====
-- taskrunner/shared/models.py: the methods `to_dict`, each `asdict` with some of its fields replaced.
-- A time is the number of its ticks, as elsewhere.
use distributed_task_runner.Base.{String, Option, none, some, List, [], ◌∷◌}
use distributed_task_runner.Base.Int.{ℤ, pos}
use distributed_task_runner.Base.Dict.{Dict}
use distributed_task_runner.Models.{
  Value, Values, Fields, null, text, number, array, object, nil, cons, end, field, TaskSpec,
  TaskEnvelope, TaskResult, ClusterEvent, EventType, task_submitted, task_dispatched, task_finished,
  task_failed, worker_registered, worker_heartbeat, queue_pressure, status_text, duration_seconds,
  WorkerInfo, QueueSnapshot, Fraction, load,
}
use distributed_task_runner.Codec.{sorted, kind_text, worker_status_text}

unfoldable pub fields_of : Dict Value → Fields
fields_of [] = end
fields_of ((key, value) ∷ rest) = field key value (fields_of rest)

unfoldable pub texts : List String → Values
texts [] = nil
texts (s ∷ rest) = cons (text s) (texts rest)

unfoldable pub optional_text : Option String → Value
optional_text none = null
optional_text (some s) = text s

unfoldable pub optional_number : Option ℤ → Value
optional_number none = null
optional_number (some n) = number n

unfoldable pub spec_dict : TaskSpec → Value
unfolding fields_of kind_text texts sorted optional_text
spec_dict spec = object (
    fields_of (
      ("target", text spec.target)
      ∷ ("payload", object (fields_of spec.payload))
      ∷ ("kind", text (kind_text spec.kind))
      ∷ ("queue", text spec.queue)
      ∷ ("priority", number spec.priority)
      ∷ ("delay_seconds", number spec.delay_seconds)
      ∷ ("max_retries", number spec.max_retries)
      ∷ ("retry_backoff_seconds", number spec.retry_backoff_seconds)
      ∷ ("timeout_seconds", number spec.timeout_seconds)
      ∷ ("affinity", array (texts (sorted spec.affinity)))
      ∷ ("depends_on", array (texts (sorted spec.depends_on)))
      ∷ ("batch_key", optional_text spec.batch_key)
      ∷ []))

unfoldable pub task_dict : TaskEnvelope → Value
unfolding fields_of spec_dict status_text optional_text optional_number
task_dict task = object (
    fields_of (
      ("spec", spec_dict task.spec)
      ∷ ("task_id", text task.task_id)
      ∷ ("created_at", number task.created_at)
      ∷ ("available_at", number task.available_at)
      ∷ ("attempts", number (pos task.attempts))
      ∷ ("status", text (status_text task.status))
      ∷ ("last_error", optional_text task.last_error)
      ∷ ("assigned_worker", optional_text task.assigned_worker)
      ∷ ("lease_deadline", optional_number task.lease_deadline)
      ∷ []))

unfoldable pub result_dict : TaskResult → Value
unfolding fields_of status_text optional_text duration_seconds
result_dict result = object (
    fields_of (
      ("task_id", text result.task_id)
      ∷ ("worker_id", text result.worker_id)
      ∷ ("status", text (status_text result.status))
      ∷ ("started_at", number result.started_at)
      ∷ ("finished_at", number result.finished_at)
      ∷ ("result", result.result)
      ∷ ("error", optional_text result.error)
      ∷ ("duration_seconds", number (duration_seconds result))
      ∷ []))

-- `str(event_type)`
unfoldable pub event_type_text : EventType → String
event_type_text task_submitted = "task.submitted"
event_type_text task_dispatched = "task.dispatched"
event_type_text task_finished = "task.finished"
event_type_text task_failed = "task.failed"
event_type_text worker_registered = "worker.registered"
event_type_text worker_heartbeat = "worker.heartbeat"
event_type_text queue_pressure = "queue.pressure"

unfoldable pub event_dict : ClusterEvent → Value
unfolding fields_of event_type_text
event_dict event = object (
    fields_of (
      ("event_type", text (event_type_text event.event_type))
      ∷ ("payload", object (fields_of event.payload))
      ∷ ("event_id", text event.event_id)
      ∷ ("created_at", number event.created_at)
      ∷ []))

-- `shown` is the float of a quotient.
unfoldable pub worker_dict : (shown : Fraction → Value) → WorkerInfo → Value
unfolding fields_of texts sorted worker_status_text load
worker_dict shown worker = object (
    fields_of (
      ("worker_id", text worker.worker_id)
      ∷ ("host", text worker.host)
      ∷ ("pid", number worker.pid)
      ∷ ("queues", array (texts (sorted worker.queues)))
      ∷ ("capacity", number worker.capacity)
      ∷ ("labels", array (texts (sorted worker.labels)))
      ∷ ("status", text (worker_status_text worker.status))
      ∷ ("running_tasks", number worker.running_tasks)
      ∷ ("started_at", number worker.started_at)
      ∷ ("last_heartbeat", number worker.last_heartbeat)
      ∷ ("load", shown (load worker))
      ∷ []))

-- `asdict(snapshot)`
unfoldable pub snapshot_dict : (shown : Fraction → Value) → QueueSnapshot → Value
unfolding fields_of
snapshot_dict shown snapshot = object (
    fields_of (
      ("queued", number (pos snapshot.queued))
      ∷ ("delayed", number (pos snapshot.delayed))
      ∷ ("inflight", number (pos snapshot.inflight))
      ∷ ("dead_lettered", number (pos snapshot.dead_lettered))
      ∷ ("pressure", shown snapshot.pressure)
      ∷ []))
