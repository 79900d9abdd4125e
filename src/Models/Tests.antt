-- ===== src/Models/Tests.antt =====
-- taskrunner/shared/models.py: a worker, and a task of a specification with fields out of range.
use distributed_task_runner.Base.{◌≡◌, refl, true, [], ◌∷◌, none}
use distributed_task_runner.Base.Int.{pos, negsuc}
use distributed_task_runner.Models.{
  TaskSpec, TaskEnvelope, WorkerInfo, normalized, new_envelope, accepts, cpu, busy,
}

abbrev careless : TaskSpec
careless = record {
  target = "sample_tasks.image_job:run";
  payload = [];
  kind = cpu;
  queue = "";
  priority = negsuc 4;
  delay_seconds = negsuc 0;
  max_retries = negsuc 2;
  retry_backoff_seconds = pos 0;
  timeout_seconds = pos 0;
  affinity = "gpu" ∷ [];
  depends_on = [];
  batch_key = none;
}

abbrev task : TaskEnvelope
task = new_envelope (normalized careless) "job" (pos 1) (pos 1)

abbrev gpu_worker : WorkerInfo
gpu_worker = record {
  worker_id = "worker-1";
  host = "localhost";
  pid = pos 1;
  queues = "default" ∷ "images" ∷ [];
  capacity = pos 4;
  labels = "ssd" ∷ "gpu" ∷ [];
  status = busy;
  running_tasks = pos 1;
  started_at = pos 0;
  last_heartbeat = pos 0;
}

taken : accepts gpu_worker task ≡ true
unfolding accepts new_envelope normalized
taken = refl
