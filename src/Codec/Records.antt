-- ===== src/Codec/Records.antt =====
-- taskrunner/grpc/codec.py: the functions for tasks, workers and results. The attempts of a task
-- are counted from 0. What a message lacks has the default of its class.
use distributed_task_runner.Base.{
  ℕ, String, ◌&&◌, Option, none, some, List, [], ◌∷◌, ◌==◌, if◌then◌else◌,
}
use distributed_task_runner.Base.Int.{ℤ, pos}
use distributed_task_runner.Base.Text.{or_text}
use distributed_task_runner.Models.{
  Value, null, TaskSpec, TaskEnvelope, TaskResult, TaskStatus, WorkerInfo, status_text,
}
use distributed_task_runner.Codec.{
  fits, sorted, set_of, text_of, given, number_or, to_status, worker_status_text, to_worker_status,
}
use distributed_task_runner.Codec.Specs.{SpecMessage, load_or_text, spec_to_proto, spec_from_proto}

pub record WorkerMessage : Type 0 where
  pub worker_id : String
  pub host : String
  pub pid : ℤ
  pub queues : List String
  pub capacity : ℤ
  pub labels : List String
  pub status : String
  pub running_tasks : ℤ

unfoldable pub worker_to_proto : WorkerInfo → Option WorkerMessage
unfolding fits sorted worker_status_text
worker_to_proto worker =
    if fits worker.pid && (fits worker.capacity && fits worker.running_tasks)
    then some (record {
      worker_id = worker.worker_id;
      host = worker.host;
      pid = worker.pid;
      queues = sorted worker.queues;
      capacity = worker.capacity;
      labels = sorted worker.labels;
      status = worker_status_text worker.status;
      running_tasks = worker.running_tasks;
    })
    else none

-- `set(queues or ["default"])`
unfoldable pub queues_of : List String → List String
unfolding set_of
queues_of [] = set_of ("default" ∷ [])
queues_of (x ∷ xs) = set_of (x ∷ xs)

-- The two times of a worker that is read are two readings of the clock.
unfoldable pub worker_from_proto : (started now : ℤ) → WorkerMessage → Option WorkerInfo
unfolding or_text to_worker_status queues_of set_of number_or
worker_from_proto started now message =
    elim (to_worker_status (or_text message.status "starting")) [
      | none ↦ none
      | some status ↦ some (record {
        worker_id = message.worker_id;
        host = message.host;
        pid = message.pid;
        queues = queues_of message.queues;
        capacity = number_or message.capacity (pos 1);
        labels = set_of message.labels;
        status = status;
        running_tasks = message.running_tasks;
        started_at = started;
        last_heartbeat = now;
      })
    ]

pub record TaskMessage : Type 0 where
  pub task_id : String
  pub spec : SpecMessage
  pub status : String
  pub attempts : ℕ
  pub assigned_worker : String
  pub last_error : String
  pub created_at : ℤ
  pub available_at : ℤ

-- `pb2.Task(…)`, around the message for the specification.
unfoldable pub task_message : TaskEnvelope → SpecMessage → TaskMessage
unfolding status_text text_of
task_message task spec = record {
  task_id = task.task_id;
  spec = spec;
  status = status_text task.status;
  attempts = task.attempts;
  assigned_worker = text_of task.assigned_worker;
  last_error = text_of task.last_error;
  created_at = task.created_at;
  available_at = task.available_at;
}

unfoldable pub task_to_proto : (Value → String) → TaskEnvelope → Option TaskMessage
unfolding spec_to_proto fits task_message
task_to_proto dumps task = elim (spec_to_proto dumps task.spec) [
  | none ↦ none
  | some spec ↦ if fits (pos task.attempts) then some (task_message task spec) else none
]

unfoldable pub read_task : TaskMessage → TaskSpec → TaskStatus → TaskEnvelope
unfolding given
read_task message spec status = record {
  spec = spec;
  task_id = message.task_id;
  created_at = message.created_at;
  available_at = message.available_at;
  attempts = message.attempts;
  status = status;
  last_error = given message.last_error;
  assigned_worker = given message.assigned_worker;
  lease_deadline = none;
}

unfoldable pub task_from_proto : (String → Option Value) → TaskMessage → Option TaskEnvelope
unfolding spec_from_proto or_text to_status read_task
task_from_proto loads message = elim (spec_from_proto loads message.spec) [
  | none ↦ none
  | some spec ↦ elim (to_status (or_text message.status "pending")) [
    | none ↦ none
    | some status ↦ some (read_task message spec status)
  ]
]

pub record ResultMessage : Type 0 where
  pub task_id : String
  pub worker_id : String
  pub status : String
  pub result_json : String
  pub error : String
  pub started_at : ℤ
  pub finished_at : ℤ

unfoldable pub result_to_proto : (Value → String) → TaskResult → ResultMessage
unfolding status_text text_of
result_to_proto dumps result = record {
  task_id = result.task_id;
  worker_id = result.worker_id;
  status = status_text result.status;
  result_json = dumps result.result;
  error = text_of result.error;
  started_at = result.started_at;
  finished_at = result.finished_at;
}

-- `None` where there is no text.
unfoldable pub read_json : (String → Option Value) → String → Value
unfolding load_or_text
read_json loads s = if s == "" then null else load_or_text loads s

unfoldable pub result_from_proto : (String → Option Value) → ResultMessage → Option TaskResult
unfolding or_text to_status read_json given
result_from_proto loads message = elim (to_status (or_text message.status "failed")) [
  | none ↦ none
  | some status ↦ some (record {
    task_id = message.task_id;
    worker_id = message.worker_id;
    status = status;
    started_at = message.started_at;
    finished_at = message.finished_at;
    result = read_json loads message.result_json;
    error = given message.error;
  })
]
