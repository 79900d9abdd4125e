-- ===== src/Worker/Tests.antt =====
-- taskrunner/workers/: a small worker, and the theorems at it.
use distributed_task_runner.Base.{
  ◌≤◌, ℕ, ◌≡◌, refl, true, false, none, some, List, [], ◌∷◌, arith, suc,
}
use distributed_task_runner.Base.Int.{pos}
use distributed_task_runner.Models.{
  Value, null, number, TaskEnvelope, TaskResult, WorkerInfo, TaskSpec, io, idle, succeeded, failed,
  new_envelope,
}
use distributed_task_runner.Worker.Ipc.{
  IpcChannels, new_channels, write_shared_counters, read_shared_counters,
}
use distributed_task_runner.Worker.Counters.{read_shared_counters-write_shared_counters}
use distributed_task_runner.Worker.Executor.{
  Ending, returned, threw, Called, plain, Host, execute, result_of,
}
use distributed_task_runner.Worker.Outcomes.{execute-malformed}
use distributed_task_runner.Worker.Runtime.{
  broken, Runtime, running, slot_at, Happening, resumes, beats, stops, reserved, slept, begins,
  executed, reported, wakes, reporting, raises, known, done, step, after_all, new_runtime, count_of,
  shutdown,
}
use distributed_task_runner.Worker.Histories.{Sound, after_all-Sound}
use distributed_task_runner.Worker.Ends.{Counted, step-counters}
use distributed_task_runner.Worker.Stops.{awaits, raises-abandons}

abbrev worker : WorkerInfo
worker = record {
  worker_id = "w";
  host = "h";
  pid = pos 7;
  queues = "default" ∷ [];
  capacity = pos 2;
  labels = [];
  status = idle;
  running_tasks = pos 0;
  started_at = pos 0;
  last_heartbeat = pos 0;
}

abbrev job : TaskSpec
job = record {
  target = "run";
  payload = [];
  kind = io;
  queue = "default";
  priority = pos 1;
  delay_seconds = pos 0;
  max_retries = pos 0;
  retry_backoff_seconds = pos 0;
  timeout_seconds = pos 1000000;
  affinity = [];
  depends_on = [];
  batch_key = none;
}

abbrev task : TaskEnvelope
unfolding new_envelope
task = new_envelope job "t" (pos 0) (pos 0)

-- A host whose functions are all the one that gives back 3.
abbrev host : Host ℕ ℕ
host = record {
  exists = λ p. true;
  resolve = λ p. p;
  from_file = λ p. some (returned 1);
  import_module = λ p f. returned 1;
  attribute = λ m f. returned (some 2);
  call = λ f payload. returned (plain (number (pos 3)));
  pool = λ p called. given called;
  wait_for = λ timeout ending. ending;
}
  where
    given : Ending Called → Ending Value
    given (returned (plain v)) = returned v
    given (returned (Called.awaitable ending)) = ending
    given (threw x) = threw x
    given Ending.was_cancelled = Ending.was_cancelled
    given (Ending.escaped name) = Ending.escaped name

-- One consumer runs the task, and the other's `reserve` raises.
abbrev worker_history : List Happening
worker_history =
    resumes 0 slept
    ∷ resumes 1 slept
    ∷ resumes 0 (reserved (some task))
    ∷ resumes 0 begins
    ∷ beats done
    ∷ beats (known true)
    ∷ resumes 1 raises
    ∷ []

abbrev outcome : TaskResult
outcome = record {
  task_id = "t";
  worker_id = "w";
  status = succeeded;
  started_at = pos 1;
  finished_at = pos 2;
  result = null;
  error = none;
}

read_shared_counters-write_shared_counters_example :
    (ipc' : IpcChannels) × (write_shared_counters 3 70000 1 new_channels ≡ some ipc')
    × (read_shared_counters ipc' ≡ (3, 70000, 1))
    × (ipc'.task_queue ≡ new_channels.task_queue)
    × (ipc'.result_queue ≡ new_channels.result_queue)
read_shared_counters-write_shared_counters_example =
    read_shared_counters-write_shared_counters 3 70000 1 new_channels (omega arith) (omega arith)
      (omega arith)

after_all-Sound_example : Sound 2 (after_all worker_history (new_runtime worker))
unfolding count_of
after_all-Sound_example = after_all-Sound worker worker_history

before : Runtime
unfolding after_all new_runtime
before =
    after_all (resumes 0 (executed outcome) ∷ []) (after_all worker_history (new_runtime worker))

step-counters_example :
    let rt1 : Runtime = step (resumes 0 reported) before in
    let rt2 : Runtime = step (resumes 0 wakes) rt1 in
    (read_shared_counters rt1.ipc ≡ (running before.slots, rt1.completed, rt1.failed))
    × Counted outcome.error before.completed before.failed rt1.completed rt1.failed
    × (rt2.ipc ≡ rt1.ipc)
    × (running before.slots ≡ suc (running rt2.slots))
unfolding before
step-counters_example = step-counters 0 outcome before refl (omega arith) (omega arith)

-- Two consumers whose results are reported in one turn of the loop, before any callback runs.
both_report : Runtime
unfolding before
both_report =
    let second : Runtime = record before { slots = reporting outcome ∷ reporting outcome ∷ [] } in
    after_all (resumes 0 reported ∷ resumes 1 reported ∷ resumes 0 wakes ∷ resumes 1 wakes ∷ [])
      second

still_two : (read_shared_counters both_report.ipc).0 ≡ 2
unfolding both_report read_shared_counters
still_two = refl

-- The call of `execute` raises in the first consumer, which waits for it.
raises-abandons_example :
    let failed =
      after_all
        (beats done ∷ stops ∷ [])
        (step (resumes 0 raises) (after_all worker_history (new_runtime worker))) in
    let at_end = after_all (resumes 0 slept ∷ []) (step (resumes 0 wakes) failed) in
    let (ended, rt') = shutdown at_end in
    (slot_at 0 at_end.slots ≡ broken)
    × (suc (running at_end.slots) ≤ 2)
    × (ended ≡ false)
    × (rt'.executor_down ≡ at_end.executor_down)
    × (rt'.ipc_closed ≡ at_end.ipc_closed)
unfolding after_all new_runtime awaits
raises-abandons_example =
    raises-abandons 0 (beats done ∷ stops ∷ []) (resumes 0 slept ∷ [])
      (after_all worker_history (new_runtime worker)) (omega arith) refl

abbrev loaded_task : TaskEnvelope
loaded_task = record task { spec = record job { target = "jobs.py:run" } }

execute-malformed_example :
    execute host task "w" (pos 1) (pos 2)
    ≡ returned (
        result_of task "w" (pos 1) (pos 2) failed null (
          some
            "ValueError: target must use 'path/to/file.py:function_name' or 'module:function_name'"))
unfolding task
execute-malformed_example =
    execute-malformed host (λ p x. refl) (λ timeout x. refl) task "w" (pos 1) (pos 2)
      (
        (λ e. absurd (omega (arith, e))),
        ((λ e. absurd (omega (arith, e))), ((λ e. absurd (omega (arith, e))), tt)),
      )
