-- ===== src/Worker/Start.antt =====
-- taskrunner/workers/manager.py and executor.py: the construction of a `WorkerRuntime`, which makes
-- its executor. `none` is a ValueError.
use Prim.Native.String.{◌++◌}
use distributed_task_runner.Base.{String, Option, none, some, List, [], ◌∷◌, ◌==◌, if◌then◌else◌}
use distributed_task_runner.Base.Int.{ℤ, pos, eqb_ℤ, ltb_ℤ}
use distributed_task_runner.Models.{WorkerInfo, starting}
use distributed_task_runner.Config.{Settings, Platform, default_worker_capacity}
use distributed_task_runner.Engine.Metrics.{set_or}
use distributed_task_runner.Worker.Runtime.{Runtime, new_runtime}

-- The arguments of `run_worker`.
pub record WorkerArguments : Type 0 where
  pub worker_id : Option String
  pub queues : Option (List String)
  pub labels : Option (List String)
  pub capacity : Option ℤ

-- What the node tells: `uuid4().hex[:8]`, the name of the host, the process and the clock.
pub record Node : Type 0 where
  pub hex : String
  pub host : String
  pub pid : ℤ
  pub started : ℤ
  pub beat : ℤ

-- `worker_id or f"worker-{…}"`
unfoldable pub id_or : Option String → String → String
id_or none hex = "worker-" ++ hex
id_or (some id) hex = if id == "" then "worker-" ++ hex else id

-- `n or default`
unfoldable pub number_or_default : Option ℤ → ℤ → ℤ
number_or_default none default = default
number_or_default (some n) default = if eqb_ℤ n (pos 0) then default else n

unfoldable pub worker_info : Settings → WorkerArguments → Node → WorkerInfo
unfolding id_or set_or number_or_default
worker_info config args node = record {
  worker_id = id_or args.worker_id node.hex;
  host = node.host;
  pid = node.pid;
  queues = set_or args.queues ("default" ∷ []);
  capacity = number_or_default args.capacity config.worker_capacity;
  labels = set_or args.labels [];
  status = starting;
  running_tasks = pos 0;
  started_at = node.started;
  last_heartbeat = node.beat;
}

-- `self.max_processes` of a `TaskExecutor`.
unfoldable pub max_processes : Platform → Option ℤ → ℤ
unfolding number_or_default default_worker_capacity
max_processes platform asked = number_or_default asked (default_worker_capacity platform)

-- A `ProcessPoolExecutor` takes a positive number of workers only.
unfoldable pub run_worker : Platform → Settings → WorkerArguments → Node → Option Runtime
unfolding worker_info max_processes new_runtime
run_worker platform config args node =
    let worker : WorkerInfo = worker_info config args node in
    if ltb_ℤ (pos 0) (max_processes platform (some worker.capacity))
    then some (new_runtime worker)
    else none
