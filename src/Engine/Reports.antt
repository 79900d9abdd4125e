-- ===== src/Engine/Reports.antt =====
-- taskrunner/scheduler/engine.py: `report_result`, a turn of `_lease_reaper` and of
-- `_pressure_reporter`, and `queue_snapshot`.
use distributed_task_runner.Base.{String, Option, none, some, List, [], ◌∷◌, if◌then◌else◌, ◌==◌}
use distributed_task_runner.Base.Int.{ℤ, pos, leb_ℤ, eqb_ℤ, at_least, ◌-ℤ◌, ◌*ℤ◌}
use distributed_task_runner.Base.Dict.{lookup, insert}
use distributed_task_runner.Base.Text.{add, or_text}
use distributed_task_runner.Models.{
  text, number, TaskResult, TaskStatus, WorkerInfo, idle, busy, EventType, task_finished,
  task_failed, queue_pressure, duration_seconds, status_text, succeeded, cancelled, status_eqb,
  QueueSnapshot, Value,
}
use distributed_task_runner.Broker.State.{Ref, Broker, Outcome, ok, raised}
use distributed_task_runner.Broker.Settle.{complete, retry, requeue_expired_leases}
use distributed_task_runner.Broker.Views.{get, snapshot}
use distributed_task_runner.Store.{append_log}
use distributed_task_runner.Engine.State.{
  Engine, Stamp, announce, save_task, save_worker, set_drained,
}
use distributed_task_runner.Engine.Tasks.{after, save_tasks}

-- A worker that has one task less.
unfoldable pub freed : WorkerInfo → WorkerInfo
unfolding at_least ◌-ℤ◌
freed worker =
    let running_tasks = at_least (pos 0) (worker.running_tasks -ℤ pos 1) in
    record worker {
      running_tasks = running_tasks;
      status = if eqb_ℤ running_tasks (pos 0) then idle else busy;
    }

unfoldable pub free_worker : String → Engine → Engine
unfolding lookup freed save_worker
free_worker worker_id e = elim (lookup worker_id e.workers) [
  | none ↦ e
  | some w ↦ save_worker w (freed (e.worker_objects w)) e
]

-- `result.error or default`
unfoldable pub error_or : Option String → String → String
unfolding or_text
error_or none default = default
error_or (some error) default = or_text error default

-- The call of the queue that the status of a result asks for.
unfoldable pub settle : TaskResult → (now pushed : ℤ) → Broker → Outcome Ref × Broker
unfolding complete retry error_or
settle result now pushed queue =
    if status_eqb result.status succeeded
    then complete result.task_id succeeded none queue
    else if status_eqb result.status cancelled
    then complete result.task_id cancelled result.error queue
    else retry now pushed result.task_id (error_or result.error "task failed") queue

-- `self.completed_tasks.add(result.task_id)`, in the branch of a success.
unfoldable pub mark_completed : TaskResult → Engine → Engine
unfolding add
mark_completed result e =
    if status_eqb result.status succeeded
    then record e { completed_tasks = add result.task_id e.completed_tasks }
    else e

unfoldable pub event_of : TaskResult → EventType
event_of result = if status_eqb result.status succeeded then task_finished else task_failed

-- `"ERROR" if result.error else "INFO"`
unfoldable pub level_of : Option String → String
level_of none = "INFO"
level_of (some error) = if error == "" then "INFO" else "ERROR"

-- What is written to the store and kept for a result; `completed_in` is the text of its duration.
unfoldable pub keep_result :
    TaskResult → (completed_in : String) → (saved logged : ℤ) → Ref → Engine → Engine
unfolding insert save_task append_log level_of error_or
keep_result result completed_in saved logged r e =
    let e' : Engine =
      save_task saved r (some result)
        (record e { results = insert result.task_id result e.results }) in
    let message = error_or result.error completed_in in
    record e' { store = append_log logged result.task_id (level_of result.error) message e'.store }

unfoldable pub result_payload : TaskResult → TaskStatus → List (String × Value)
unfolding duration_seconds status_text
result_payload result status =
    ("task_id", text result.task_id)
    ∷ ("worker_id", text result.worker_id)
    ∷ ("status", text (status_text status))
    ∷ ("duration_seconds", number (duration_seconds result))
    ∷ []

-- What follows the call of the queue.
unfoldable pub reported :
    TaskResult → (completed_in : String) → (saved logged : ℤ) → Stamp → Ref → Engine → Ref × Engine
unfolding mark_completed keep_result result_payload announce event_of
reported result completed_in saved logged stamp r e =
    let e' : Engine = keep_result result completed_in saved logged r (mark_completed result e) in
    let payload = result_payload result (e'.queue.objects r).status in
    (r, set_drained (announce (event_of result) payload stamp e'))

unfoldable pub report_result :
    TaskResult
    → (completed_in : String) → (now pushed saved logged : ℤ) → Stamp
    → Engine
    → Outcome Ref × Engine
unfolding get free_worker settle reported
report_result result completed_in now pushed saved logged stamp e =
    elim (get result.task_id e.queue) [
      | raised x ↦ (raised x, e)
      | ok r ↦
          let e' : Engine = free_worker result.worker_id e in
          after (settle result now pushed e'.queue) e'
            (reported result completed_in saved logged stamp)
    ]

-- A turn of the loop of `_lease_reaper`: the thread's part, and the rest, before which others run.
-- An exception ends the loop for good.
unfoldable pub lease_reaper : (now : ℤ) → (String → ℤ × ℤ) → Engine → Outcome (List Ref) × Engine
unfolding requeue_expired_leases
lease_reaper now clock e =
    let (expired, queue) = requeue_expired_leases now clock e.queue in
    (expired, record e { queue = queue })

unfoldable pub save_expired : (clock : Ref → ℤ) → List Ref → Engine → Engine
unfolding save_tasks
save_expired clock expired e = save_tasks clock expired e

unfoldable pub queue_snapshot : (now : ℤ) → Engine → QueueSnapshot × Engine
unfolding snapshot
queue_snapshot now e =
    let (view, queue) = snapshot now e.queue in (view, record e { queue = queue })

-- A turn of the loop of `_pressure_reporter`; the pressure is at least 0.8 = 8 / 10. `shown` is the
-- value of the pressure in the event.
unfoldable pub pressure_reporter : (now : ℤ) → (shown : Value) → Stamp → Engine → Engine
unfolding queue_snapshot announce ◌*ℤ◌
pressure_reporter now shown stamp e =
    let (view, e') = queue_snapshot now e in
    if leb_ℤ (pos 8 *ℤ view.pressure.den) (pos 10 *ℤ view.pressure.num)
    then announce queue_pressure (("pressure", shown) ∷ []) stamp e'
    else e'
