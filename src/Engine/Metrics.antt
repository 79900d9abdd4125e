-- ===== src/Engine/Metrics.antt =====
-- taskrunner/scheduler/engine.py: `metrics` and `build_worker_info`. The name of the host and the
-- identifier of the process are arguments.
use distributed_task_runner.Base.{ℕ, String, Option, none, some, List, [], ◌∷◌, map, length}
use distributed_task_runner.Base.Int.{ℤ, pos}
use distributed_task_runner.Base.Dict.{Dict, values}
use distributed_task_runner.Models.{Value, QueueSnapshot, Fraction, WorkerInfo, idle}
use distributed_task_runner.Dicts.{worker_dict}
use distributed_task_runner.Store.Queries.{task_counts}
use distributed_task_runner.Engine.State.{Engine}
use distributed_task_runner.Engine.Reports.{queue_snapshot}

-- The entries of the dictionary that `metrics` returns.
pub record Metrics : Type 0 where
  pub host : String
  pub pid : ℤ
  pub queue : QueueSnapshot
  pub workers : List Value
  pub tasks : Dict ℕ
  pub results : ℕ

unfoldable pub metrics :
    (Fraction → Value) → (host : String) (pid now : ℤ) → Engine → Metrics × Engine
unfolding queue_snapshot values worker_dict task_counts
metrics shown host pid now e =
    let (queue, e') = queue_snapshot now e in
    (
      record {
        host = host;
        pid = pid;
        queue = queue;
        workers = map (λ w. worker_dict shown (e'.worker_objects w)) (values e'.workers);
        tasks = task_counts e'.store;
        results = length e'.results;
      },
      e',
    )

-- `names or default` on a set that may be missing.
unfoldable pub set_or : Option (List String) → List String → List String
set_or none default = default
set_or (some []) default = default
set_or (some (x ∷ xs)) default = x ∷ xs

unfoldable pub build_worker_info :
    (host : String) (pid started now : ℤ)
    → (worker_id : String) (queues labels : Option (List String)) (capacity : ℤ) → WorkerInfo
unfolding set_or
build_worker_info host pid started now worker_id queues labels capacity = record {
  worker_id = worker_id;
  host = host;
  pid = pid;
  queues = set_or queues ("default" ∷ []);
  capacity = capacity;
  labels = set_or labels [];
  status = idle;
  running_tasks = pos 0;
  started_at = started;
  last_heartbeat = now;
}
