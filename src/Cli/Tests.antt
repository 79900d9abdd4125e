-- ===== src/Cli/Tests.antt =====
-- taskrunner/cli/main.py: a worker that is started, and a task that is submitted_options, cancelled and retried.
use distributed_task_runner.Base.{◌∷◌, eq_iff, false, [], ◌≡◌, refl, none, some, arith}
use distributed_task_runner.Base.Int.{pos}
use distributed_task_runner.Config.{Platform, Settings, default_settings}
use distributed_task_runner.Worker.Start.{Node}
use distributed_task_runner.Cli.Starting.{WorkerOptions}
use distributed_task_runner.Broker.State.{new_queue}
use distributed_task_runner.Broker.Reserve.{attempt}
use distributed_task_runner.Broker.Submit
use distributed_task_runner.Engine.Workers
use distributed_task_runner.Models.{WorkerInfo, idle, new_envelope, io, end, TaskSpec}
use distributed_task_runner.Models.Normal.{IsNormal}
use distributed_task_runner.Codec.{fits}
use distributed_task_runner.Codec.Trip.{Arrived}
use distributed_task_runner.Engine.State.{Engine, new_engine}
use distributed_task_runner.Engine.Tasks.{submit, cancel_task, retry_task}
use distributed_task_runner.Engine.Tests.{cluster, stamp}
use distributed_task_runner.Client.Served.{Readings, servicer}
use distributed_task_runner.Client.Tests.{
  readings, dumps, loads, first, cancelled_first, retried_first,
}
use distributed_task_runner.Cli.Commands.{
  Tools, url_error, bad_parameter, submit_command, retry_command, cancel_command, queues_command,
  items,
}
use distributed_task_runner.Cli.Operators.{
  Shown, submit_command-Shown, cancel_and_retry_commands-Shown,
}
use distributed_task_runner.Cli.{SubmitOptions, submitted_spec}

-- A network on which every address is that of the servicer of the small cluster.
abbrev tools : Tools Engine
tools = record {
  dumps = dumps;
  loads = loads;
  shown = dumps;
  stub_at = λ target. servicer dumps loads readings;
  urlopen = λ url e. (url_error "refused", e);
}

-- A system without variables, on four processors.
abbrev platform : Platform
platform = record {
  environ = λ name. none;
  int = λ s. none;
  float = λ s. none;
  path = λ s. s;
  shown = λ n. "";
  cpu_count = some (pos 4);
}

abbrev settings : Settings
settings = record {
  scheduler_host = "127.0.0.1";
  scheduler_grpc_port = pos 50051;
  api_host = "127.0.0.1";
  api_port = pos 8080;
  sqlite_path = "data/taskrunner.db";
  heartbeat_interval_seconds = pos 2000000;
  heartbeat_timeout_seconds = pos 10000000;
  lease_seconds = pos 30000000;
  max_queue_depth = pos 10000;
  worker_capacity = pos 3;
  log_level = "INFO";
}

as_by_default : default_settings platform ≡ settings
unfolding default_settings
as_by_default = refl

abbrev node : Node
node = record { hex = "0a1b2c3d"; host = "h"; pid = pos 7; started = pos 1; beat = pos 1 }

-- No queue is named, and a capacity of 0 is as none.
abbrev options : WorkerOptions
options = record { worker_id = none; queues = " , "; labels = "gpu"; capacity = some (pos 0) }

abbrev submitted_options : SubmitOptions
submitted_options = record {
  task_path = "jobs.py";
  function = "run";
  payload = [];
  kind = io;
  queue = "images";
  priority = pos 0;
  delay = pos 0;
  retries = pos 3;
  affinity = "gpu, ";
}

submitted_options-IsNormal : IsNormal (submitted_spec submitted_options false)
unfolding submitted_spec
submitted_options-IsNormal = record {
  named = λ e. absurd (ground (arith, eq_iff "images" "", e));
  priority_nonneg = omega arith;
  delay_nonneg = omega arith;
  retries_nonneg = omega arith;
  backoff_nonneg = omega arith;
  timeout_least = omega arith;
}

-- A worker whose `reserve` waits in a thread while the task is submitted.
abbrev taker : WorkerInfo
taker = record {
  worker_id = "worker-9";
  host = "h";
  pid = pos 9;
  queues = "images" ∷ [];
  capacity = pos 1;
  labels = "gpu" ∷ [];
  status = idle;
  running_tasks = pos 0;
  started_at = pos 0;
  last_heartbeat = pos 0;
}

abbrev taking : Readings
taking = record readings {
  making = record readings.making {
    before_row =
        record {
          worker = taker;
          completed = [];
          lease_seconds = pos 30;
          now = pos 5;
          leased = pos 5;
        }
        ∷ [];
  };
}

abbrev taking_tools : Tools Engine
taking_tools = record tools { stub_at = λ target. servicer dumps loads taking }

submit_command-Shown_example :
    (arrived : TaskSpec) × Arrived (submitted_spec submitted_options false) arrived
    × Shown dumps
        (submit arrived taking.making stamp cluster)
        (submit_command taking_tools platform settings submitted_options "{}" false cluster)
unfolding fits items
submit_command-Shown_example =
    submit_command-Shown taking_tools platform settings taking submitted_options "{}" false end
      cluster refl refl submitted_options-IsNormal tt refl refl
      (λ e. absurd (ground (arith, eq_iff "worker-9" "", e)), tt) tt

-- The task that is returned has the worker that took it meanwhile.
already_taken :
    ((submit (submitted_spec submitted_options false) taking.making stamp cluster).1.queue.objects
      1).assigned_worker
    ≡ some "worker-9"
unfolding submit submitted_spec Submit.submit attempt Workers.register_worker new_engine
    new_envelope new_queue
already_taken = refl

cancel_and_retry_commands-Shown_example :
    Shown dumps
      (cancel_task "job" (pos 5) stamp cluster)
      (cancel_command tools platform settings "job" cluster)
    × Shown dumps
        (retry_task "job" (pos 5) (pos 5) (pos 5) cluster)
        (retry_command tools platform settings "job" cluster)
cancel_and_retry_commands-Shown_example =
    cancel_and_retry_commands-Shown tools platform settings readings "job" cluster refl
      (λ r done.
        first (cancel_task "job" (pos 5) stamp cluster) r cancelled_first.0 done cancelled_first.1)
      (λ r done.
        first (retry_task "job" (pos 5) (pos 5) (pos 5) cluster) r retried_first.0 done
          retried_first.1)

unreached :
    (queues_command tools platform settings cluster).0
    ≡ bad_parameter "cannot reach monitoring API at http://127.0.0.1:/queues: refused"
unfolding queues_command
unreached = refl
