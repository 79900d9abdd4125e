-- ===== src/Api.antt =====
-- taskrunner/api/app.py: the bodies of the handlers, over the engine. FastAPI reads a request and
-- sends a response, whose body here is the value that a handler returns. The
-- handlers that change the engine stand here, those that read it in Reading.
pub mod Cancelling
pub mod Reading
pub mod Watching
pub mod Queues
pub mod Turns
pub mod Streams
mod Tests
use distributed_task_runner.Base.{ℕ, String, Option, List, [], ◌∷◌, map}
use distributed_task_runner.Base.Int.{ℤ}
use distributed_task_runner.Base.Dict.{Dict}
use distributed_task_runner.Models.{
  Value, Values, array, nil, cons, TaskKind, TaskSpec, normalized, TaskEnvelope, QueueSnapshot,
}
use distributed_task_runner.Dicts.{task_dict}
use distributed_task_runner.Store.{append_log}
use distributed_task_runner.Broker.State.{
  Ref, Error, queue_full, task_not_found, key_error, value_error, Outcome, ok, raised,
}
use distributed_task_runner.Engine.State.{Engine, Stamp}
use distributed_task_runner.Engine.Tasks.{Making, submit, submit_batch, cancel_task, retry_task}

-- A status code with a body or, in an HTTPException, with a detail; or an exception that leaves the
-- handler, which the framework answers by a status of 500.
pub data Response : Type 0 where
  answer : ℕ → Value → Response
  http_error : ℕ → String → Response
  unhandled : Error → Response

pub record SubmitTaskBody : Type 0 where
  pub target : String
  pub payload : Dict Value
  pub kind : TaskKind
  pub queue : String
  pub priority : ℤ
  pub delay_seconds : ℤ
  pub max_retries : ℤ
  pub retry_backoff_seconds : ℤ
  pub timeout_seconds : ℤ
  pub affinity : List String
  pub depends_on : List String
  pub batch_key : Option String

unfoldable pub to_spec : SubmitTaskBody → TaskSpec
unfolding normalized
to_spec body = normalized (record {
  target = body.target;
  payload = body.payload;
  kind = body.kind;
  queue = body.queue;
  priority = body.priority;
  delay_seconds = body.delay_seconds;
  max_retries = body.max_retries;
  retry_backoff_seconds = body.retry_backoff_seconds;
  timeout_seconds = body.timeout_seconds;
  affinity = body.affinity;
  depends_on = body.depends_on;
  batch_key = body.batch_key;
})

-- `task.to_dict()` for the task object that a call returned.
unfoldable pub dict_at : Engine → Ref → Value
unfolding task_dict
dict_at e r = task_dict (e.queue.objects r)

-- `except KeyError`, which QueueFullError is not.
unfoldable pub unless_key_error : Error → Response
unless_key_error (queue_full depth max_depth) = unhandled (queue_full depth max_depth)
unless_key_error (task_not_found task_id) = http_error 404 "task not found"
unless_key_error (key_error key) = http_error 404 "task not found"
unless_key_error value_error = unhandled value_error

-- `return task.to_dict()` behind a call of the engine that may have raised.
unfoldable pub respond :
    (status : ℕ) → (Error → Response) → Outcome Ref × Engine → Response × Engine
unfolding dict_at
respond status on_error (raised x, e) = (on_error x, e)
respond status on_error (ok r, e) = (answer status (dict_at e r), e)

unfoldable pub submit_handler : SubmitTaskBody → Making → Stamp → Engine → Response × Engine
unfolding to_spec submit respond
submit_handler body making stamp e = respond 202 unhandled (submit (to_spec body) making stamp e)

unfoldable pub to_specs : List (SubmitTaskBody × Making) → List (TaskSpec × Making)
unfolding to_spec
to_specs [] = []
to_specs ((body, making) ∷ rest) = (to_spec body, making) ∷ to_specs rest

unfoldable pub dicts_at : Engine → List Ref → Values
unfolding dict_at
dicts_at e [] = nil
dicts_at e (r ∷ rs) = cons (dict_at e r) (dicts_at e rs)

unfoldable pub respond_batch : Outcome (List Ref) × Engine → Response × Engine
unfolding dicts_at
respond_batch (raised x, e) = (unhandled x, e)
respond_batch (ok rs, e) = (answer 202 (array (dicts_at e rs)), e)

unfoldable pub submit_batch_handler :
    List (SubmitTaskBody × Making) → (saved : Ref → ℤ) → Stamp → Engine → Response × Engine
unfolding to_specs submit_batch respond_batch
submit_batch_handler tasks saved stamp e =
    respond_batch (submit_batch (to_specs tasks) saved stamp e)

unfoldable pub cancel_handler : String → (saved : ℤ) → Stamp → Engine → Response × Engine
unfolding cancel_task respond unless_key_error
cancel_handler task_id saved stamp e =
    respond 200 unless_key_error (cancel_task task_id saved stamp e)

-- What `background_tasks` runs once the response has been sent.
unfoldable pub log_retry : String → (logged : ℤ) → Response → Engine → Engine
unfolding append_log
log_retry task_id logged (answer status body) e = record e {
  store = append_log logged task_id "INFO" "manual retry requested" e.store;
}
log_retry task_id logged (http_error status detail) e = e
log_retry task_id logged (unhandled x) e = e

unfoldable pub retry_handler : String → (now pushed saved logged : ℤ) → Engine → Response × Engine
unfolding retry_task respond unless_key_error log_retry
retry_handler task_id now pushed saved logged e =
    let (response, e') = respond 200 unless_key_error (retry_task task_id now pushed saved e) in
    (response, log_retry task_id logged response e')
