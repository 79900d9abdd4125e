-- ===== src/Config/Tests.antt =====
-- taskrunner/shared/config.py: an environment with a host and two numbers.
use distributed_task_runner.Base.{◌≡◌, ◌⊎◌, String, Option, none, some, ◌==◌, if◌then◌else◌, refl}
use distributed_task_runner.Base.Int.{pos}
use distributed_task_runner.Config.{Settings, Platform, from_env}
use distributed_task_runner.Config.Reading.{Variable, Unreadable, Made, from_env-reads}

environment : String → Option String
environment name =
    if name == "TASKRUNNER_API_PORT"
    then some "8081"
    else if name == "TASKRUNNER_SCHEDULER_HOST"
    then some "scheduler"
    else if name == "TASKRUNNER_LEASE_SECONDS"
    then some "soon"
    else none

abbrev platform : Platform
platform = record {
  environ = environment;
  int = λ s. if s == "8081" then some (pos 8081) else none;
  float = λ s. none;
  path = λ s. s;
  shown = λ n. "50051";
  cpu_count = some (pos 4);
}

from_env-reads_example :
    ((v : Variable) × (from_env platform ≡ none) × Unreadable platform v)
    ⊎ ((s : Settings) × (from_env platform ≡ some s) × Made platform s)
from_env-reads_example = from_env-reads platform

refused : from_env platform ≡ none
unfolding from_env environment
refused = refl
