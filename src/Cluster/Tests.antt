-- ===== src/Cluster/Tests.antt =====
-- taskrunner/workers/ and scheduler/: the task of a small cluster, run and reported.
use distributed_task_runner.Base.{ℕ, refl, true, none, some, Option, String, [], arith, eq_iff}
use distributed_task_runner.Base.Int.{pos}
use distributed_task_runner.Models.{Value, null, TaskEnvelope, TaskResult, succeeded, new_envelope}
use distributed_task_runner.Broker.State.{new_queue}
use distributed_task_runner.Broker.Submit
use distributed_task_runner.Engine.State.{new_engine}
use distributed_task_runner.Engine.Tasks.{submit}
use distributed_task_runner.Engine.Workers
use distributed_task_runner.Engine.Tests.{cluster, cluster-Owns, stamp, making}
use distributed_task_runner.Client.{report_result_request}
use distributed_task_runner.Client.Served.{Readings, servicer}
use distributed_task_runner.Worker.Executor.{
  Ending, returned, threw, Called, plain, Host, execute, result_of, execute_by_kind,
}
use distributed_task_runner.Cluster.Settling.{Outcome, execute-settles}

-- A host whose functions all give back `None`.
abbrev host : Host ℕ ℕ
host = record {
  exists = λ p. true;
  resolve = λ p. p;
  from_file = λ p. some (returned 1);
  import_module = λ p f. returned 1;
  attribute = λ m f. returned (some 2);
  call = λ f payload. returned (plain null);
  pool = λ p called. given called;
  wait_for = λ timeout ending. ending;
}
  where
    given : Ending Called → Ending Value
    given (returned (plain v)) = returned v
    given (returned (Called.awaitable ending)) = ending
    given (threw x) = threw x
    given Ending.was_cancelled = Ending.was_cancelled
    given (Ending.escaped name) = Ending.escaped name

-- The task of the cluster, as a worker has it.
abbrev queued : TaskEnvelope
queued = cluster.queue.objects 0

abbrev readings : Readings
readings = record {
  making = record making { task_id = "next" };
  stamp = stamp;
  started = pos 4;
  now = pos 5;
  pushed = pos 5;
  saved = pos 5;
  logged = pos 5;
  completed_in = "";
  worker = 1;
  turns = [];
  resumed = λ e. e;
}

abbrev dumps : Value → String
dumps v = "null"

abbrev loads : String → Option Value
loads s = some null

abbrev done : TaskResult
done = result_of queued "worker-1" (pos 4) (pos 5) succeeded null none

execute-settles_example :
    Outcome
      (execute_by_kind host queued.spec.kind queued.spec.target queued.spec.payload)
      queued.task_id
      (pos 5)
      (pos 5)
      0
      cluster
      (report_result_request dumps loads (servicer dumps loads readings) done cluster).1
unfolding execute submit Workers.register_worker new_engine new_envelope Submit.submit new_queue
execute-settles_example =
    execute-settles host dumps loads readings queued "worker-1" (pos 4) (pos 5) done 0 cluster refl
      cluster-Owns (λ e. absurd (ground (arith, eq_iff "null" "", e))) refl
