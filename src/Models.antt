-- ===== src/Models.antt =====
-- taskrunner/shared/models.py: the enumerations, the task specification and its normal form, the
-- envelope, the result and the worker record. Times and durations, which are floats in the source,
-- are whole numbers of ticks of a microsecond. A quotient of numbers is kept as a fraction.
pub mod Normal
pub mod Accepts
mod Tests
mod Dynamic
pub use Dynamic.{Value, Values, Fields, null, text, number, array, object, nil, cons, end, field}
use distributed_task_runner.Base.{
  ℕ, zero, suc, ◌+◌, ◌*◌, ◌≤◌, ◌≡◌, refl, String, Bool, true, false, ◌&&◌, ◌||◌, not, Option, none,
  some, List, [], ◌∷◌, leb, ltb, ◌==◌, if◌then◌else◌,
}
use distributed_task_runner.Base.Int.{ℤ, pos, ltb_ℤ, leb_ℤ, at_least, ◌-ℤ◌}
use distributed_task_runner.Base.Dict.{Dict}
use distributed_task_runner.Base.Text.{elem, subset, meets, or_text}

pub data TaskKind : Type 0 where
  cpu io async scheduled : TaskKind

pub data TaskStatus : Type 0 where
  pending queued running acked succeeded failed retrying cancelled dead_lettered : TaskStatus

pub data WorkerStatus : Type 0 where
  starting idle busy draining offline : WorkerStatus

pub data EventType : Type 0 where
  task_submitted task_dispatched task_finished task_failed : EventType
  worker_registered worker_heartbeat queue_pressure : EventType

-- `==` and `in {…}` on the statuses.
abbrev pub status_eqb : TaskStatus → TaskStatus → Bool
status_eqb pending pending = true
status_eqb queued queued = true
status_eqb running running = true
status_eqb acked acked = true
status_eqb succeeded succeeded = true
status_eqb failed failed = true
status_eqb retrying retrying = true
status_eqb cancelled cancelled = true
status_eqb dead_lettered dead_lettered = true
status_eqb _ _ = false

-- `str(status)`, the value of the member.
unfoldable pub status_text : TaskStatus → String
status_text pending = "pending"
status_text queued = "queued"
status_text running = "running"
status_text acked = "acked"
status_text succeeded = "succeeded"
status_text failed = "failed"
status_text retrying = "retrying"
status_text cancelled = "cancelled"
status_text dead_lettered = "dead_lettered"

abbrev pub worker_status_eqb : WorkerStatus → WorkerStatus → Bool
worker_status_eqb starting starting = true
worker_status_eqb idle idle = true
worker_status_eqb busy busy = true
worker_status_eqb draining draining = true
worker_status_eqb offline offline = true
worker_status_eqb _ _ = false

-- Ticks in a second, and a tenth of a second.
abbrev pub second : ℕ
second = 1000000

abbrev pub tenth : ℕ
tenth = 100000

pub record TaskSpec : Type 0 where
  pub target : String
  pub payload : Dict Value
  pub kind : TaskKind
  pub queue : String
  pub priority : ℤ
  pub delay_seconds : ℤ
  pub max_retries : ℤ
  pub retry_backoff_seconds : ℤ
  pub timeout_seconds : ℤ
  pub affinity : List String
  pub depends_on : List String
  pub batch_key : Option String

unfoldable pub normalized : TaskSpec → TaskSpec
unfolding or_text at_least
normalized s = record {
  target = s.target;
  payload = s.payload;
  kind = s.kind;
  queue = or_text s.queue "default";
  priority = at_least (pos 0) s.priority;
  delay_seconds = at_least (pos 0) s.delay_seconds;
  max_retries = at_least (pos 0) s.max_retries;
  retry_backoff_seconds = at_least (pos 0) s.retry_backoff_seconds;
  timeout_seconds = at_least (pos tenth) s.timeout_seconds;
  affinity = s.affinity;
  depends_on = s.depends_on;
  batch_key = s.batch_key;
}

-- `attempts` starts at 0 and only grows.
pub record TaskEnvelope : Type 0 where
  pub spec : TaskSpec
  pub task_id : String
  pub created_at : ℤ
  pub available_at : ℤ
  pub attempts : ℕ
  pub status : TaskStatus
  pub last_error : Option String
  pub assigned_worker : Option String
  pub lease_deadline : Option ℤ

-- `TaskEnvelope(spec=spec)`: the identifier is drawn by `uuid4`, and the two times by two readings
-- of the clock.
unfoldable pub new_envelope : TaskSpec → String → ℤ → ℤ → TaskEnvelope
new_envelope spec task_id created available = record {
  spec = spec;
  task_id = task_id;
  created_at = created;
  available_at = available;
  attempts = 0;
  status = pending;
  last_error = none;
  assigned_worker = none;
  lease_deadline = none;
}

pub record TaskResult : Type 0 where
  pub task_id : String
  pub worker_id : String
  pub status : TaskStatus
  pub started_at : ℤ
  pub finished_at : ℤ
  pub result : Value
  pub error : Option String

unfoldable pub duration_seconds : TaskResult → ℤ
unfolding at_least ◌-ℤ◌
duration_seconds r = at_least (pos 0) (r.finished_at -ℤ r.started_at)

pub record WorkerInfo : Type 0 where
  pub worker_id : String
  pub host : String
  pub pid : ℤ
  pub queues : List String
  pub capacity : ℤ
  pub labels : List String
  pub status : WorkerStatus
  pub running_tasks : ℤ
  pub started_at : ℤ
  pub last_heartbeat : ℤ

-- `n / d`, for a divisor that is positive.
pub record Fraction : Type 0 where
  pub num : ℤ
  pub den : ℤ

-- `min(1.0, n / d)` is 1 unless n < d.
unfoldable pub load : WorkerInfo → Fraction
load w =
    if leb_ℤ w.capacity (pos 0)
    then record { num = pos 1; den = pos 1 }
    else if ltb_ℤ w.running_tasks w.capacity
    then record { num = w.running_tasks; den = w.capacity }
    else record { num = pos 1; den = pos 1 }

is_empty : List String → Bool
is_empty [] = true
is_empty (x ∷ xs) = false

unfoldable pub accepts : WorkerInfo → TaskEnvelope → Bool
unfolding is_empty elem meets
accepts w task =
    let queue_ok = elem task.spec.queue w.queues in
    let affinity_ok = is_empty task.spec.affinity || meets task.spec.affinity w.labels in
    queue_ok && affinity_ok && (worker_status_eqb w.status idle || worker_status_eqb w.status busy)

pub record QueueSnapshot : Type 0 where
  pub queued : ℕ
  pub delayed : ℕ
  pub inflight : ℕ
  pub dead_lettered : ℕ
  pub pressure : Fraction

pub record ClusterEvent : Type 0 where
  pub event_type : EventType
  pub payload : Dict Value
  pub event_id : String
  pub created_at : ℤ
