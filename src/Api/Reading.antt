-- ===== src/Api/Reading.antt =====
-- taskrunner/api/app.py: the handlers that only read, and the rows of taskrunner/database/store.py
-- as dictionaries. `dumps` is `json.dumps`, and `shown` the float of a quotient.
use distributed_task_runner.Base.{ℕ, String, Option, none, some, List, [], ◌∷◌}
use distributed_task_runner.Base.Int.{ℤ, pos}
use distributed_task_runner.Base.Dict.{Dict}
use distributed_task_runner.Models.{
  Value, Values, null, text, number, array, object, nil, cons, Fraction, TaskResult, WorkerInfo,
  status_text,
}
use distributed_task_runner.Codec.{sorted, worker_status_text}
use distributed_task_runner.Dicts.{fields_of, texts, optional_text, result_dict, snapshot_dict}
use distributed_task_runner.Store.{TaskRow, LogRow}
use distributed_task_runner.Store.Queries.{recent_tasks, workers, logs}
use distributed_task_runner.Engine.State.{Engine}
use distributed_task_runner.Engine.Workers.{Recommendation}
use distributed_task_runner.Engine.Reports.{queue_snapshot}
use distributed_task_runner.Monitoring.{Usage, Process, Snapshot, aggregate}
use distributed_task_runner.Api.{Response, answer}

unfoldable pub result_json : (Value → String) → Option TaskResult → Value
unfolding result_dict
result_json dumps none = null
result_json dumps (some result) = text (dumps (result_dict result))

unfoldable pub task_row_dict : (Value → String) → String × TaskRow → Value
unfolding fields_of status_text optional_text result_json
task_row_dict dumps (task_id, row) = object (
    fields_of (
      ("task_id", text task_id)
      ∷ ("status", text (status_text row.status))
      ∷ ("queue", text row.queue)
      ∷ ("priority", number row.priority)
      ∷ ("attempts", number (pos row.attempts))
      ∷ ("target", text row.target)
      ∷ ("payload_json", text (dumps (object (fields_of row.payload))))
      ∷ ("result_json", result_json dumps row.result)
      ∷ ("error", optional_text row.error)
      ∷ ("assigned_worker", optional_text row.assigned_worker)
      ∷ ("created_at", number row.created_at)
      ∷ ("updated_at", number row.updated_at)
      ∷ []))

-- The two columns of JSON are read and come last.
unfoldable pub worker_row_dict : WorkerInfo → Value
unfolding fields_of texts sorted worker_status_text
worker_row_dict worker = object (
    fields_of (
      ("worker_id", text worker.worker_id)
      ∷ ("host", text worker.host)
      ∷ ("pid", number worker.pid)
      ∷ ("capacity", number worker.capacity)
      ∷ ("running_tasks", number worker.running_tasks)
      ∷ ("status", text (worker_status_text worker.status))
      ∷ ("started_at", number worker.started_at)
      ∷ ("last_heartbeat", number worker.last_heartbeat)
      ∷ ("queues", array (texts (sorted worker.queues)))
      ∷ ("labels", array (texts (sorted worker.labels)))
      ∷ []))

unfoldable pub log_row_dict : LogRow → Value
unfolding fields_of
log_row_dict log = object (
    fields_of (
      ("entity_id", text log.entity_id)
      ∷ ("level", text log.level)
      ∷ ("message", text log.message)
      ∷ ("created_at", number log.created_at)
      ∷ []))

-- `[f(x) for x in xs]`
unfoldable pub each : {A : Type 0} → (A → Value) → List A → Values
each f [] = nil
each f (x ∷ xs) = cons (f x) (each f xs)

unfoldable pub tasks_handler : (Value → String) → (limit : ℕ) → Engine → Response
unfolding each task_row_dict recent_tasks
tasks_handler dumps limit e =
    answer 200 (array (each (task_row_dict dumps) (recent_tasks limit e.store)))

unfoldable pub workers_handler : Engine → Response
unfolding each worker_row_dict workers
workers_handler e = answer 200 (array (each worker_row_dict (workers e.store)))

unfoldable pub logs_handler : (entity_id : String) (limit : ℕ) → Engine → Response
unfolding each log_row_dict logs
logs_handler entity_id limit e =
    answer 200 (array (each log_row_dict (logs entity_id limit e.store)))

unfoldable pub queues_handler : (Fraction → Value) → (now : ℤ) → Engine → Response × Engine
unfolding queue_snapshot snapshot_dict
queues_handler shown now e =
    let (view, e') = queue_snapshot now e in (answer 200 (snapshot_dict shown view), e')

unfoldable pub counts_of : Dict ℕ → Dict Value
counts_of [] = []
counts_of ((status, n) ∷ rest) = (status, number (pos n)) ∷ counts_of rest

unfoldable pub usage_of : Option Usage → (Usage → ℤ) → Value
usage_of none field = null
usage_of (some usage) field = number (field usage)

unfoldable pub process_dict : Snapshot → Value
unfolding fields_of usage_of
process_dict s = object (
    fields_of (
      ("pid", number s.pid)
      ∷ ("max_rss_kb", usage_of s.usage (λ u. u.max_rss_kb))
      ∷ ("user_cpu_seconds", usage_of s.usage (λ u. u.user_cpu_seconds))
      ∷ ("system_cpu_seconds", usage_of s.usage (λ u. u.system_cpu_seconds))
      ∷ []))

unfoldable pub autoscaling_dict : (Fraction → Value) → Recommendation → Value
unfolding fields_of
autoscaling_dict shown r = object (
    fields_of (
      ("current_workers", number (pos r.current_workers))
      ∷ ("desired_workers", number r.desired_workers)
      ∷ ("pressure", shown r.pressure)
      ∷ []))

unfoldable pub metrics_dict : (Fraction → Value) → Snapshot → Value
unfolding fields_of snapshot_dict each counts_of process_dict autoscaling_dict
metrics_dict shown s = object (
    fields_of (
      ("host", text s.engine.host)
      ∷ ("pid", number s.engine.pid)
      ∷ ("queue", snapshot_dict shown s.engine.queue)
      ∷ ("workers", array (each (λ w. w) s.engine.workers))
      ∷ ("tasks", object (fields_of (counts_of s.engine.tasks)))
      ∷ ("results", number (pos s.engine.results))
      ∷ ("uptime_seconds", number s.uptime_seconds)
      ∷ ("process", process_dict s)
      ∷ ("autoscaling", autoscaling_dict shown s.autoscaling)
      ∷ []))

unfoldable pub metrics_handler :
    (Fraction → Value) → (started_at : ℤ) → Process → Engine → Response × Engine
unfolding aggregate metrics_dict
metrics_handler shown started_at process e =
    let (s, e') = aggregate shown started_at process e in (answer 200 (metrics_dict shown s), e')

unfoldable pub health_handler :
    (Fraction → Value) → (started_at : ℤ) → Process → Engine → Response × Engine
unfolding aggregate metrics_dict fields_of
health_handler shown started_at process e =
    let (s, e') = aggregate shown started_at process e in
    (
      answer 200
          (object (fields_of (("status", text "ok") ∷ ("metrics", metrics_dict shown s) ∷ []))),
      e',
    )
