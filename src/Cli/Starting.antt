-- ===== src/Cli/Starting.antt =====
-- taskrunner/cli/main.py: the command `worker`, and the worker that it starts.
use distributed_task_runner.Base.{ℕ, ◌≡◌, ◌≢◌, String, Option, none, some, [], All, length}
use distributed_task_runner.Base.Int.{ℤ, pos, negsuc, ◌<ℤ◌}
use distributed_task_runner.Config.{Settings, Platform}
use distributed_task_runner.Worker.Runtime.{Runtime}
use distributed_task_runner.Worker.Start.{WorkerArguments, Node, run_worker}
use distributed_task_runner.Cli.{csv_set}
use distributed_task_runner.Cli.Parts.{Clean}

-- The options of `worker`.
pub record WorkerOptions : Type 0 where
  pub worker_id : Option String
  pub queues : String
  pub labels : String
  pub capacity : Option ℤ

unfoldable pub worker_arguments : WorkerOptions → WorkerArguments
unfolding csv_set
worker_arguments options = record {
  worker_id = options.worker_id;
  queues = some (csv_set options.queues);
  labels = some (csv_set options.labels);
  capacity = options.capacity;
}

unfoldable pub worker_command : Platform → Settings → WorkerOptions → Node → Option Runtime
unfolding worker_arguments run_worker
worker_command platform config options node =
    run_worker platform config (worker_arguments options) node

-- The worker has a name and a queue, the names of its queues and labels are such as `Clean` says, and
-- it has one consumer for each task of its capacity, which is positive.
pub record Ready (rt : Runtime) : Type 0 where
  pub named : rt.worker.worker_id ≢ ""
  pub has_queue : rt.worker.queues ≢ []
  pub queue_names : All Clean rt.worker.queues
  pub label_names : All Clean rt.worker.labels
  pub positive : pos 0 <ℤ rt.worker.capacity
  pub consumes : pos (length rt.slots) ≡ rt.worker.capacity

-- What the command does: it starts the worker, or refuses a negative capacity.
pub data Started (capacity : Option ℤ) (result : Option Runtime) : Type 0 where
  ready : (rt : Runtime) → result ≡ some rt → Ready rt → Started capacity result
  refused : (n : ℕ) → capacity ≡ some (negsuc n) → result ≡ none → Started capacity result
