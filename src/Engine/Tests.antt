-- ===== src/Engine/Tests.antt =====
-- taskrunner/scheduler/engine.py: a small cluster, and the theorems at it.
use distributed_task_runner.Base.{List, take, ◌≡◌, refl, inl, ◌⊎◌, none, some, [], ◌∷◌, arith}
use distributed_task_runner.Base.Int.{pos, ◌≤ℤ◌, ◌-ℤ◌}
use distributed_task_runner.Models.{
  TaskSpec, TaskResult, WorkerInfo, io, idle, offline, failed, text, new_envelope,
}
use distributed_task_runner.Broker.State.{Ref, queue_full, ok, raised, new_queue, depth}
use distributed_task_runner.Base.Dict.{lookup, values}
use distributed_task_runner.Broker.Submit
use distributed_task_runner.Broker.Retries.{Owns}
use distributed_task_runner.Config.{Settings}
use distributed_task_runner.Engine.State.{Engine, Stamp, new_engine}
use distributed_task_runner.Engine.Tasks.{Making, make_task, make_tasks, submit, submit_batch}
use distributed_task_runner.Engine.Batches.{SameBooks, submit_batch-partial}
use distributed_task_runner.Broker.Capacity.{AllFresh, enqueue_all}
use distributed_task_runner.Engine.Workers.{
  is_silent, register_worker, heartbeat, alive, heartbeat_reaper, autoscaling_recommendation,
}
use distributed_task_runner.Engine.Reports.{report_result}
use distributed_task_runner.Engine.Alive.{heartbeat_reaper-judged, heartbeat-survives}
use distributed_task_runner.Engine.Scaling.{autoscaling-bounds}
use distributed_task_runner.Engine.Outcomes.{Reported, report_result-Reported}
use distributed_task_runner.Engine.Services.{
  leases, starts, ends, history, no_services, Single, history-Single,
}

abbrev pub resize : TaskSpec
resize = record {
  target = "sample_tasks.image_job:run";
  payload = [];
  kind = io;
  queue = "images";
  priority = pos 10;
  delay_seconds = pos 0;
  max_retries = pos 2;
  retry_backoff_seconds = pos 5;
  timeout_seconds = pos 60000000;
  affinity = [];
  depends_on = [];
  batch_key = none;
}

abbrev settings : Settings
settings = record {
  scheduler_host = "127.0.0.1";
  scheduler_grpc_port = pos 50051;
  api_host = "127.0.0.1";
  api_port = pos 8080;
  sqlite_path = "data/taskrunner.db";
  worker_capacity = pos 1;
  log_level = "INFO";
  heartbeat_interval_seconds = pos 2;
  heartbeat_timeout_seconds = pos 8;
  lease_seconds = pos 30;
  max_queue_depth = pos 10;
}

abbrev silent_worker : WorkerInfo
silent_worker = record {
  worker_id = "worker-1";
  host = "localhost";
  pid = pos 1;
  queues = "images" ∷ [];
  capacity = pos 1;
  labels = [];
  status = idle;
  running_tasks = pos 0;
  started_at = pos 0;
  last_heartbeat = pos 0;
}

abbrev pub stamp : Stamp
stamp = record { event_id = "event"; created_at = pos 1 }

abbrev pub making : Making
making = record {
  task_id = "job";
  created = pos 1;
  available = pos 1;
  now = pos 1;
  pushed = pos 1;
  saved = pos 1;
  before_row = [];
  before_return = [];
}

-- One worker and one task.
abbrev pub cluster : Engine
cluster =
    (submit resize making stamp
      (register_worker (pos 1) 0 stamp (
        new_engine settings (λ r. new_envelope resize "none" (pos 0) (pos 0)) (λ w. silent_worker)
          0)).1).1

abbrev pub failure : TaskResult
failure = record {
  task_id = "job";
  worker_id = "worker-1";
  status = failed;
  started_at = pos 2;
  finished_at = pos 4;
  result = text "";
  error = some "no such file";
}

pub cluster-Owns : Owns "job" 0 cluster.queue
unfolding submit register_worker new_engine new_envelope Submit.submit new_queue
cluster-Owns = record { listed = refl; flying = inl refl }

report_result-Reported_example :
    let (outcome, e') = report_result failure "" (pos 5) (pos 5) (pos 5) (pos 5) stamp cluster in
    (outcome ≡ ok 0) × Reported failure (pos 5) (pos 5) 0 cluster e'
report_result-Reported_example =
    report_result-Reported failure "" (pos 5) (pos 5) (pos 5) (pos 5) stamp 0 cluster cluster-Owns

reaped : ((heartbeat_reaper (pos 20) (λ w. pos 20) cluster).worker_objects 0).status ≡ offline
unfolding submit register_worker new_engine new_envelope Submit.submit new_queue heartbeat_reaper
reaped = refl

heartbeat-survives_example :
    let (seen, e') = heartbeat "worker-1" (pos 1) (pos 19) stamp cluster in
    (seen ≡ some 0)
    × ((heartbeat_reaper (pos 20) (λ w. pos 20) e').worker_objects 0
        ≡ alive (pos 19) (pos 1) (cluster.worker_objects 0))
unfolding submit register_worker new_engine new_envelope Submit.submit new_queue ◌-ℤ◌
heartbeat-survives_example =
    heartbeat-survives "worker-1" (pos 1) (pos 19) (pos 20) stamp (λ w. pos 20) 0 cluster refl
      (omega arith)

heartbeat_reaper-judged_example :
    (heartbeat_reaper (pos 20) (λ w. pos 20) cluster).worker_objects 0
    ≡ record (cluster.worker_objects 0) { status = offline }
unfolding submit register_worker new_engine new_envelope Submit.submit new_queue is_silent
heartbeat_reaper-judged_example =
    heartbeat_reaper-judged (pos 20) (λ w. pos 20) 0 cluster (inl refl)

one_each : (w : Ref) → pos 0 ≤ℤ (cluster.worker_objects w).capacity
unfolding submit register_worker new_engine new_envelope Submit.submit new_queue
one_each w = ground arith

autoscaling-bounds_example :
    let recommendation = (autoscaling_recommendation (pos 20) cluster).0 in
    (pos 1 ≤ℤ recommendation.desired_workers)
    × (recommendation.desired_workers ≤ℤ pos 32)
    × ((pos recommendation.current_workers ≤ℤ recommendation.desired_workers)
        ⊎ (recommendation.desired_workers ≡ pos 32))
autoscaling-bounds_example = autoscaling-bounds (pos 20) cluster one_each

-- An engine with room for one task, and a batch of two.
abbrev narrow : Engine
narrow =
    new_engine (record settings { max_queue_depth = pos 1 })
      (λ r. new_envelope resize "none" (pos 0) (pos 0)) (λ w. silent_worker) 0

abbrev two : List (TaskSpec × Making)
two = (resize, making) ∷ (resize, record making { task_id = "next" }) ∷ []

two-Fresh : let (arrivals, made) = make_tasks two narrow in AllFresh arrivals made.queue
unfolding make_tasks make_task new_engine new_envelope new_queue lookup values Submit.enqueue
    Submit.enter
two-Fresh = (
  record { unlisted = refl; unused = tt },
  (record { unlisted = refl; unused = (λ e. absurd (omega (arith, e)), tt) }, tt),
)

submit_batch-partial_example :
    let (arrivals, made) = make_tasks two narrow in
    let (outcome, e') = submit_batch two (λ r. pos 1) stamp narrow in
    (outcome ≡ raised (queue_full made.queue.max_depth made.queue.max_depth))
    × (e'.queue ≡ enqueue_all (take 1 arrivals) made.queue)
    × SameBooks narrow e'
unfolding make_tasks make_task new_engine new_envelope new_queue depth
submit_batch-partial_example =
    submit_batch-partial two 1 (λ r. pos 1) stamp narrow refl two-Fresh (omega arith)

-- The lease reaper ends by an exception, and the services are started again.
history-Single_example : Single (history (starts ∷ ends leases ∷ starts ∷ []) no_services)
history-Single_example = history-Single (starts ∷ ends leases ∷ starts ∷ [])
