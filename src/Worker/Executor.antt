-- ===== src/Worker/Executor.antt =====
-- taskrunner/workers/executor.py: how a worker runs a task. What the interpreter, the two pools and
-- `asyncio.wait_for` answer is a parameter.
use Prim.Native.Char.{code}
use Prim.Native.String.{◌++◌}
use distributed_task_runner.Base.{
  ℕ, String, Bool, ◌||◌, Option, none, some, ◌==◌, eqb, if◌then◌else◌,
}
use distributed_task_runner.Base.Int.{ℤ}
use distributed_task_runner.Base.Dict.{Dict}
use distributed_task_runner.Models.{
  Value, null, TaskKind, cpu, io, async, scheduled, TaskStatus, TaskEnvelope, TaskResult, succeeded,
  failed,
}

-- An exception that is an `Exception`.
pub record PythonError : Type 0 where
  pub type_name : String
  pub message : String

-- How a call ends: with a value, with an `Exception`, with a CancelledError, or with another
-- exception that is no `Exception`, such as SystemExit.
pub data Ending (A : Type 0) : Type 0 where
  returned : A → Ending A
  threw : PythonError → Ending A
  was_cancelled : Ending A
  escaped : String → Ending A

abbrev pub then_call : {A B : Type 0} → Ending A → (A → Ending B) → Ending B
then_call (returned a) rest = rest a
then_call (threw x) rest = threw x
then_call was_cancelled rest = was_cancelled
then_call (escaped name) rest = escaped name

-- What a task's function returns: a value, or an awaitable with the ending of an `await` on it.
pub data Called : Type 0 where
  plain : Value → Called
  awaitable : Ending Value → Called

pub data Pool : Type 0 where
  processes threads : Pool

-- `exists` is `Path(p).exists()` and `resolve` is `str(Path(p).resolve())`. `from_file` runs the
-- module of a file, where `none` is a missing spec or loader, and `import_module` is `__import__`.
-- `attribute` is `getattr` with the default None, where `none` is what cannot be called. `pool` gives
-- the ending of a future from the ending of the call that runs in the pool.
pub record Host (Module Function : Type 0) : Type 0 where
  pub exists : String → Bool
  pub resolve : String → String
  pub from_file : String → Option (Ending Module)
  pub import_module : String → String → Ending Module
  pub attribute : Module → String → Ending (Option Function)
  pub call : Function → Dict Value → Ending Called
  pub pool : Pool → Ending Called → Ending Value
  pub wait_for : (timeout : ℤ) → Ending Value → Ending Value

abbrev pub colon : ℕ
colon = 58

-- `s.partition(sep)`, without its middle.
unfoldable pub partition : (sep : ℕ) → String → String × String
partition sep String.[] = ("", "")
partition sep (String.◌∷◌ c s) =
    let (before, behind) = partition sep s in
    if eqb (code c) sep then ("", s) else (String.◌∷◌ c before, behind)

-- `s.endswith(end)`
unfoldable pub ends_with : String → String → Bool
ends_with String.[] end = String.[] == end
ends_with (String.◌∷◌ c s) end = String.◌∷◌ c s == end || ends_with s end

unfoldable pub malformed : PythonError
malformed = record {
  type_name = "ValueError";
  message = "target must use 'path/to/file.py:function_name' or 'module:function_name'";
}

-- `func`, if it can be called.
unfoldable pub callable : {Function : Type 0} → String → Option Function → Ending Function
callable target none =
    threw (record { type_name = "AttributeError"; message = target ++ " is not callable" })
callable target (some func) = returned func

-- `await value` if it is an awaitable.
unfoldable pub awaited : Called → Ending Value
awaited (plain value) = returned value
awaited (awaitable ending) = ending

unfoldable pub result_of :
    TaskEnvelope
    → (worker_id : String) → (started finished : ℤ) → TaskStatus
    → Value
    → Option String
    → TaskResult
result_of task worker_id started finished status value error = record {
  task_id = task.task_id;
  worker_id = worker_id;
  status = status;
  started_at = started;
  finished_at = finished;
  result = value;
  error = error;
}

-- `f"{type(exc).__name__}: {exc}"`
unfoldable pub error_text : PythonError → String
error_text x = x.type_name ++ (": " ++ x.message)

-- What `execute` makes of the ending of the task.
unfoldable pub report :
    TaskEnvelope → (worker_id : String) → (started finished : ℤ) → Ending Value → Ending TaskResult
unfolding result_of error_text
report task worker_id started finished (returned value) =
    returned (result_of task worker_id started finished succeeded value none)
report task worker_id started finished (threw x) =
    returned (result_of task worker_id started finished failed null (some (error_text x)))
report task worker_id started finished was_cancelled = was_cancelled
report task worker_id started finished (escaped name) = escaped name

module _ {Module Function : Type 0} (host : Host Module Function) where
  unfoldable pub load_file : String → Ending Module
  load_file module_path =
      let path = host.resolve module_path in
      elim (host.from_file path) [
        | none ↦
            threw
              (record { type_name = "ImportError"; message = "cannot import task module " ++ path })
        | some module_ending ↦ module_ending
      ]

  unfoldable pub load_module : (module_path function_name : String) → Ending Module
  unfolding ends_with load_file
  load_module module_path function_name =
      if ends_with module_path ".py" || host.exists module_path
      then load_file module_path
      else host.import_module module_path function_name

  unfoldable pub load_callable : String → Ending Function
  unfolding partition malformed load_module callable
  load_callable target =
      let (module_path, function_name) = partition colon target in
      if module_path == "" || function_name == ""
      then threw malformed
      else then_call (load_module module_path function_name)
          (λ m. then_call (host.attribute m function_name) (callable target))

  unfoldable pub run_sync_target : String → Dict Value → Ending Called
  unfolding load_callable
  run_sync_target target payload = then_call (load_callable target) (λ f. host.call f payload)

  unfoldable pub execute_by_kind : TaskKind → String → Dict Value → Ending Value
  unfolding run_sync_target awaited
  execute_by_kind cpu target payload = host.pool processes (run_sync_target target payload)
  execute_by_kind async target payload = then_call (run_sync_target target payload) awaited
  execute_by_kind io target payload = host.pool threads (run_sync_target target payload)
  execute_by_kind scheduled target payload = host.pool threads (run_sync_target target payload)

  -- `started` and `finished` are the readings of the clock at the two ends.
  unfoldable pub execute :
      TaskEnvelope → (worker_id : String) → (started finished : ℤ) → Ending TaskResult
  unfolding execute_by_kind report
  execute task worker_id started finished =
      let spec = task.spec in
      let ending = execute_by_kind spec.kind spec.target spec.payload in
      report task worker_id started finished (host.wait_for spec.timeout_seconds ending)
