-- ===== src/Config.antt =====
-- taskrunner/shared/config.py: `Settings`, and how they are read from the environment. What `int`,
-- `float` and `Path` make of a text is a parameter, where `none` is a ValueError; a time is a number
-- of ticks.
pub mod Reading
mod Tests
use Prim.Native.String.{◌++◌}
use distributed_task_runner.Base.{ℕ, ◌-◌, String, Option, none, some, if◌then◌else◌, leb}
use distributed_task_runner.Base.Int.{ℤ, pos, negsuc, ◌-ℤ◌, at_least, eqb_ℤ}

pub record Settings : Type 0 where
  pub scheduler_host : String
  pub scheduler_grpc_port : ℤ
  pub api_host : String
  pub api_port : ℤ
  pub sqlite_path : String
  pub heartbeat_interval_seconds : ℤ
  pub heartbeat_timeout_seconds : ℤ
  pub lease_seconds : ℤ
  pub max_queue_depth : ℤ
  pub worker_capacity : ℤ
  pub log_level : String

-- `os.environ`, `int`, `float`, `str(Path(…))`, `str` of a number, and `os.cpu_count()`.
pub record Platform : Type 0 where
  pub environ : String → Option String
  pub int : String → Option ℤ
  pub float : String → Option ℤ
  pub path : String → String
  pub shown : ℤ → String
  pub cpu_count : Option ℤ

-- `os.cpu_count() or 2`
unfoldable pub cpus : Option ℤ → ℤ
cpus none = pos 2
cpus (some n) = if eqb_ℤ n (pos 0) then pos 2 else n

unfoldable pub default_worker_capacity : Platform → ℤ
unfolding at_least cpus ◌-ℤ◌
default_worker_capacity platform = at_least (pos 1) (cpus platform.cpu_count -ℤ pos 1)

-- `Settings()`
unfoldable pub default_settings : Platform → Settings
unfolding default_worker_capacity
default_settings platform = record {
  scheduler_host = "127.0.0.1";
  scheduler_grpc_port = pos 50051;
  api_host = "127.0.0.1";
  api_port = pos 8080;
  sqlite_path = platform.path "data/taskrunner.db";
  heartbeat_interval_seconds = pos 2000000;
  heartbeat_timeout_seconds = pos 10000000;
  lease_seconds = pos 30000000;
  max_queue_depth = pos 10000;
  worker_capacity = default_worker_capacity platform;
  log_level = "INFO";
}

-- `os.getenv(name, default)`
unfoldable pub getenv : Platform → String → String → String
getenv platform name default = elim (platform.environ name) [ none ↦ default | some s ↦ s ]

-- `int(os.getenv(name, str(default)))`, or with `float`: these read back what `str` writes of a number.
unfoldable pub number_env : Platform → (String → Option ℤ) → String → ℤ → Option ℤ
number_env platform read name default = elim (platform.environ name) [
  | none ↦ some default
  | some s ↦ read s
]

abbrev pub and_with : {A B : Type 0} → Option A → (A → Option B) → Option B
and_with none rest = none
and_with (some a) rest = rest a

-- The call of the class, once its numbers have been read: an exception of one of them is one of all.
unfoldable pub assemble :
    Platform
    → (grpc_port api_port interval timeout lease depth capacity : Option ℤ) → Option Settings
unfolding default_settings getenv
assemble platform grpc_port api_port interval timeout lease depth capacity =
    let d = default_settings platform in
    let text = getenv platform in
    and_with grpc_port (λ grpc_port. and_with api_port (λ api_port. and_with interval (λ interval.
      and_with timeout (λ timeout. and_with lease (λ lease. and_with depth (λ depth.
        and_with capacity (λ capacity. some (record {
          scheduler_host = text "TASKRUNNER_SCHEDULER_HOST" d.scheduler_host;
          scheduler_grpc_port = grpc_port;
          api_host = text "TASKRUNNER_API_HOST" d.api_host;
          api_port = api_port;
          sqlite_path = platform.path (text "TASKRUNNER_SQLITE_PATH" d.sqlite_path);
          heartbeat_interval_seconds = interval;
          heartbeat_timeout_seconds = timeout;
          lease_seconds = lease;
          max_queue_depth = depth;
          worker_capacity = capacity;
          log_level = text "TASKRUNNER_LOG_LEVEL" d.log_level;
        }))))))))

unfoldable pub from_env : Platform → Option Settings
unfolding default_settings number_env assemble
from_env platform =
    let d = default_settings platform in
    let int = number_env platform platform.int in
    let float = number_env platform platform.float in
    assemble platform (int "TASKRUNNER_SCHEDULER_GRPC_PORT" d.scheduler_grpc_port)
      (int "TASKRUNNER_API_PORT" d.api_port)
      (float "TASKRUNNER_HEARTBEAT_INTERVAL_SECONDS" d.heartbeat_interval_seconds)
      (float "TASKRUNNER_HEARTBEAT_TIMEOUT_SECONDS" d.heartbeat_timeout_seconds)
      (float "TASKRUNNER_LEASE_SECONDS" d.lease_seconds)
      (int "TASKRUNNER_MAX_QUEUE_DEPTH" d.max_queue_depth)
      (int "TASKRUNNER_WORKER_CAPACITY" d.worker_capacity)

unfoldable pub grpc_target : Platform → Settings → String
grpc_target platform settings =
    settings.scheduler_host ++ (":" ++ platform.shown settings.scheduler_grpc_port)
