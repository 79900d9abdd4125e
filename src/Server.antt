-- ===== src/Server.antt =====
-- taskrunner/grpc/server.py: the methods of `SchedulerServicer`, each a message read, a call of the
-- engine, and a message made. `none` is an exception, which gRPC reports to the caller.
use distributed_task_runner.Base.{String, Option, none, some, List}
use distributed_task_runner.Base.Int.{ℤ, pos}
use distributed_task_runner.Models.{Value, second}
use distributed_task_runner.Broker.State.{Ref, Outcome, ok, raised}
use distributed_task_runner.Engine.State.{Engine, Stamp, write_worker}
use distributed_task_runner.Engine.Tasks.{Making, submit, cancel_task, retry_task}
use distributed_task_runner.Broker.Waiting.{Answer, waiting, returned}
use distributed_task_runner.Codec.{number_or}
use distributed_task_runner.Engine.Reserving.{Turn, reserve_task}
use distributed_task_runner.Engine.Workers.{register_worker, heartbeat}
use distributed_task_runner.Engine.Reports.{report_result}
use distributed_task_runner.Codec.Specs.{SpecMessage, spec_from_proto}
use distributed_task_runner.Codec.Records.{
  WorkerMessage, TaskMessage, ResultMessage, worker_to_proto, worker_from_proto, task_to_proto,
  result_from_proto,
}

-- The message for the task that a call of the engine returned.
unfoldable pub task_reply : (Value → String) → Outcome Ref × Engine → Option TaskMessage × Engine
unfolding task_to_proto
task_reply dumps (raised x, e) = (none, e)
task_reply dumps (ok r, e) = (task_to_proto dumps (e.queue.objects r), e)

module _ (dumps : Value → String) (loads : String → Option Value) where
  unfoldable pub submit_task_call :
      SpecMessage → Making → Stamp → Engine → Option TaskMessage × Engine
  unfolding spec_from_proto submit task_reply
  submit_task_call message making stamp e = elim (spec_from_proto loads message) [
    | none ↦ (none, e)
    | some spec ↦ task_reply dumps (submit spec making stamp e)
  ]

  unfoldable pub report_result_call :
      ResultMessage
      → (completed_in : String) → (now pushed saved logged : ℤ) → Stamp
      → Engine
      → Option TaskMessage × Engine
  unfolding result_from_proto report_result task_reply
  report_result_call message completed_in now pushed saved logged stamp e =
      elim (result_from_proto loads message) [
        | none ↦ (none, e)
        | some result ↦
            task_reply dumps (report_result result completed_in now pushed saved logged stamp e)
      ]

  unfoldable pub cancel_task_call :
      String → (saved : ℤ) → Stamp → Engine → Option TaskMessage × Engine
  unfolding cancel_task task_reply
  cancel_task_call task_id saved stamp e = task_reply dumps (cancel_task task_id saved stamp e)

  unfoldable pub retry_task_call :
      String → (now pushed saved : ℤ) → Engine → Option TaskMessage × Engine
  unfolding retry_task task_reply
  retry_task_call task_id now pushed saved e =
      task_reply dumps (retry_task task_id now pushed saved e)

-- The worker that is read is a new object, behind a reference `w` that is not in use.
unfoldable pub register_worker_call :
    (started read now : ℤ) → WorkerMessage → Ref → Stamp → Engine → Option WorkerMessage × Engine
unfolding worker_from_proto register_worker worker_to_proto
register_worker_call started read now message w stamp e =
    elim (worker_from_proto started read message) [
      | none ↦ (none, e)
      | some worker ↦
          let read_in : Engine = record e {
            worker_objects = write_worker w worker e.worker_objects;
          } in
          let (v, e') = register_worker now w stamp read_in in
          (worker_to_proto (e'.worker_objects v), e')
    ]

-- `known`, with the worker where it is so.
pub data HeartbeatReply : Type 0 where
  unknown : HeartbeatReply
  known : WorkerMessage → HeartbeatReply

unfoldable pub heartbeat_call :
    String → (running_tasks now : ℤ) → Stamp → Engine → Option HeartbeatReply × Engine
unfolding heartbeat worker_to_proto
heartbeat_call worker_id running_tasks now stamp e =
    let (seen, e') = heartbeat worker_id running_tasks now stamp e in
    elim seen [
      | none ↦ (some unknown, e')
      | some w ↦ elim (worker_to_proto (e'.worker_objects w)) [
        | none ↦ (none, e')
        | some message ↦ (some (known message), e')
      ]
    ]

-- The reply to `ReserveTask`: none yet, an exception, `found=False`, or a task.
pub data ReserveReply : Type 0 where
  no_reply failure not_found : ReserveReply
  found : TaskMessage → ReserveReply

unfoldable pub reserve_reply : (Value → String) → Answer × Engine → ReserveReply × Engine
unfolding task_to_proto
reserve_reply dumps (waiting, e) = (no_reply, e)
reserve_reply dumps (returned (raised x), e) = (failure, e)
reserve_reply dumps (returned (ok none), e) = (not_found, e)
reserve_reply dumps (returned (ok (some r)), e) = elim (task_to_proto dumps (e.queue.objects r)) [
  | none ↦ (failure, e)
  | some message ↦ (found message, e)
]

-- The default of a timeout that is missing is a second.
unfoldable pub reserve_task_call :
    (Value → String)
    → (worker_id : String) (timeout_seconds started saved : ℤ) → Stamp
    → List Turn
    → (resumed : Engine → Engine) → Engine
    → ReserveReply × Engine
unfolding number_or reserve_task reserve_reply
reserve_task_call dumps worker_id timeout_seconds started saved stamp turns resumed e =
    let timeout = number_or timeout_seconds (pos second) in
    reserve_reply dumps (reserve_task worker_id timeout started saved stamp turns resumed e)
