-- ===== src/Broker/Tests.antt =====
-- taskrunner/queue/broker.py: small histories of a queue, and the theorems at them.
use distributed_task_runner.Base.{ℕ, ◌≡◌, ◌≢◌, refl, inl, none, some, [], ◌∷◌, eqb, if◌then◌else◌}
use distributed_task_runner.Base.Int.{pos}
use distributed_task_runner.Models.{TaskSpec, TaskEnvelope, WorkerInfo, io, idle, new_envelope}
use distributed_task_runner.Broker.State.{Ref, Broker, new_queue, ok}
use distributed_task_runner.Broker.Reserve.{promote, attempt}
use distributed_task_runner.Broker.Settle.{cancel, retry}
use distributed_task_runner.Broker.WellFormed.{WellFormed}
use distributed_task_runner.Broker.Choice.{Chosen}
use distributed_task_runner.Broker.Attempt.{OnLease, attempt-Chosen, attempt-OnLease}
use distributed_task_runner.Broker.Reach.{
  submits, retries, step, Reach, here, next, Reach-WellFormed,
}
use distributed_task_runner.Broker.Cancelled.{cancel-never_reserved}
use distributed_task_runner.Broker.Retries.{Owns, Retried, retry-Retried, retry_all, retry_all-fate}

abbrev pub spec : ℕ → TaskSpec
spec priority = record {
  target = "sample_tasks.io_job:run";
  payload = [];
  kind = io;
  queue = "default";
  priority = pos priority;
  delay_seconds = pos 0;
  max_retries = pos 1;
  retry_backoff_seconds = pos 5;
  timeout_seconds = pos 60000000;
  affinity = [];
  depends_on = [];
  batch_key = none;
}

abbrev pub objects : Ref → TaskEnvelope
objects r =
    if eqb r 0
    then new_envelope (spec 50) "slow" (pos 1) (pos 1)
    else new_envelope (spec 1) "fast" (pos 2) (pos 2)

abbrev pub worker : WorkerInfo
worker = record {
  worker_id = "worker-1";
  host = "localhost";
  pid = pos 1;
  queues = "default" ∷ [];
  capacity = pos 1;
  labels = [];
  status = idle;
  running_tasks = pos 0;
  started_at = pos 0;
  last_heartbeat = pos 0;
}

abbrev pub start : Broker
start = new_queue 10 objects

abbrev pub loaded : Broker
loaded = step (submits (pos 3) (pos 3) 1) (step (submits (pos 3) (pos 3) 0) start)

abbrev pub loading : Reach start loaded
loading = next (next here (submits (pos 3) (pos 3) 0)) (submits (pos 3) (pos 3) 1)

code : Unit {0}
unfolding new_queue new_envelope step
code = tt

fast_first : (attempt (pos 4) (pos 4) worker [] (pos 30) loaded).0 ≡ ok (some 1)
unfolding code
fast_first = refl

attempt-Chosen_example :
    Chosen worker [] (promote (pos 4) loaded) (attempt (pos 4) (pos 4) worker [] (pos 30) loaded).0
attempt-Chosen_example =
    attempt-Chosen worker [] (pos 4) (pos 4) (pos 30) loaded (Reach-WellFormed 10 objects loading)

attempt-OnLease_example :
    OnLease worker [] (pos 34) 1 (attempt (pos 4) (pos 4) worker [] (pos 30) loaded).1
unfolding code
attempt-OnLease_example = attempt-OnLease worker [] (pos 4) (pos 4) (pos 30) loaded 1 refl

Reach-WellFormed_example : WellFormed loaded
Reach-WellFormed_example = Reach-WellFormed 10 objects loading

-- The urgent task is cancelled and then retried: the other is handed out.
abbrev revived : Broker
revived = step (retries (pos 4) (pos 4) "fast" "manual retry") (cancel "fast" loaded).1

cancel-never_reserved_example : (revived.objects 0).task_id ≢ "fast"
unfolding code
cancel-never_reserved_example =
    cancel-never_reserved "fast" loaded revived 1 0 (pos 20) (pos 20) (pos 30) worker []
      (Reach-WellFormed 10 objects loading) refl
      (next here (retries (pos 4) (pos 4) "fast" "manual retry")) refl

loaded-Owns : Owns "fast" 1 loaded
unfolding code
loaded-Owns = record { listed = refl; flying = inl refl }

retry-Retried_example :
    ((retry (pos 4) (pos 4) "fast" "lost" loaded).0 ≡ ok 1)
    × Retried (pos 4) (pos 4) "fast" "lost" 1 loaded (retry (pos 4) (pos 4) "fast" "lost" loaded).1
retry-Retried_example = retry-Retried (pos 4) (pos 4) "fast" "lost" 1 loaded loaded-Owns

retry_all-fate_example :
    ((retry_all "fast" ((pos 4, pos 4, "a") ∷ (pos 5, pos 5, "b") ∷ []) loaded).objects 1).attempts
    ≡ 2
unfolding code
retry_all-fate_example =
    (retry_all-fate "fast" 1 (pos 4, pos 4, "a") ((pos 5, pos 5, "b") ∷ []) loaded loaded-Owns).0
