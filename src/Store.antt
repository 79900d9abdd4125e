-- ===== src/Store.antt =====
-- taskrunner/database/store.py: `SQLiteStore`, as what its statements do to the three tables. A
-- text column of JSON keeps the value that the text encodes. A table with a primary key is a
-- dictionary, in the order of insertion. `time()` is an argument.
pub mod Queries
use distributed_task_runner.Base.{ℕ, String, Option, none, some, List, [], ◌∷◌}
use distributed_task_runner.Base.Int.{ℤ}
use distributed_task_runner.Base.Dict.{Dict, lookup, insert}
use distributed_task_runner.Models.{
  Value, TaskSpec, TaskEnvelope, TaskStatus, TaskResult, WorkerInfo, offline,
}

pub record TaskRow : Type 0 where
  pub status : TaskStatus
  pub queue : String
  pub priority : ℤ
  pub attempts : ℕ
  pub target : String
  pub payload : Dict Value
  pub spec : TaskSpec
  pub result : Option TaskResult
  pub error : Option String
  pub assigned_worker : Option String
  pub created_at : ℤ
  pub updated_at : ℤ

pub record LogRow : Type 0 where
  pub entity_id : String
  pub level : String
  pub message : String
  pub created_at : ℤ

-- A row of `workers` has the fields of the worker that it was written for.
pub record Store : Type 0 where
  pub tasks : Dict TaskRow
  pub workers : Dict WorkerInfo
  pub logs : List LogRow

abbrev pub empty_store : Store
empty_store = record { tasks = []; workers = []; logs = [] }

-- The row that INSERT proposes.
unfoldable pub task_row : (now : ℤ) → TaskEnvelope → Option TaskResult → TaskRow
task_row now task result = record {
  status = task.status;
  queue = task.spec.queue;
  priority = task.spec.priority;
  attempts = task.attempts;
  target = task.spec.target;
  payload = task.spec.payload;
  spec = task.spec;
  result = result;
  error = task.last_error;
  assigned_worker = task.assigned_worker;
  created_at = task.created_at;
  updated_at = now;
}

-- COALESCE(excluded.result_json, tasks.result_json)
abbrev pub coalesce : Option TaskResult → Option TaskResult → Option TaskResult
coalesce (some new) old = some new
coalesce none old = old

-- ON CONFLICT(task_id) DO UPDATE SET …
unfoldable pub merge_task : (excluded old : TaskRow) → TaskRow
merge_task excluded old = record old {
  status = excluded.status;
  attempts = excluded.attempts;
  result = coalesce excluded.result old.result;
  error = excluded.error;
  assigned_worker = excluded.assigned_worker;
  updated_at = excluded.updated_at;
}

unfoldable pub merged : TaskRow → Option TaskRow → TaskRow
unfolding merge_task
merged row none = row
merged row (some old) = merge_task row old

unfoldable pub upsert_task : (now : ℤ) → TaskEnvelope → Option TaskResult → Store → Store
unfolding task_row merged lookup insert
upsert_task now task result store = record store {
  tasks =
      insert task.task_id (merged (task_row now task result) (lookup task.task_id store.tasks))
        store.tasks;
}

-- A conflict updates every column but `started_at`.
unfoldable pub merged_worker : WorkerInfo → Option WorkerInfo → WorkerInfo
merged_worker worker none = worker
merged_worker worker (some old) = record worker { started_at = old.started_at }

unfoldable pub upsert_worker : WorkerInfo → Store → Store
unfolding merged_worker lookup insert
upsert_worker worker store = record store {
  workers =
      insert worker.worker_id (merged_worker worker (lookup worker.worker_id store.workers))
        store.workers;
}

unfoldable pub mark_worker_offline : (now : ℤ) → String → Store → Store
unfolding lookup insert
mark_worker_offline now worker_id store = elim (lookup worker_id store.workers) [
  | none ↦ store
  | some row ↦ record store {
    workers =
        insert worker_id (record row { status = offline; last_heartbeat = now }) store.workers;
  }
]

-- The newest log is at the head. The callers give the level in capitals.
unfoldable pub append_log : (now : ℤ) → (entity_id level message : String) → Store → Store
append_log now entity_id level message store = record store {
  logs =
      record { entity_id = entity_id; level = level; message = message; created_at = now }
      ∷ store.logs;
}
