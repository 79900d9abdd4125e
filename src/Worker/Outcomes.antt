-- ===== src/Worker/Outcomes.antt =====
-- taskrunner/workers/executor.py and manager.py: what a worker reports of a task.
use text.Mathlib.TextLemmas.{append-ne-nil_of_right_ne-nil, cons≢nil, cons-append}
use Prim.Native.String.{◌++◌}
use distributed_task_runner.Base.{
  String, ◌≡◌, ◌≢◌, inl, inr, refl, sym, ◌∙◌, ap, true, false, some, arith, ◌==◌, eq_iff, All,
  Bool-cases,
}
use distributed_task_runner.Base.Int.{ℤ}
use distributed_task_runner.Base.Dict.{Dict}
use distributed_task_runner.Base.Text.{codes}
use distributed_task_runner.Models.{
  Value, null, TaskKind, cpu, io, async, scheduled, TaskEnvelope, TaskResult, failed, cancelled,
  status_eqb,
}
use distributed_task_runner.Worker.Executor.{
  PythonError, Ending, returned, threw, then_call, Pool, processes, threads, Host, colon, partition,
  malformed, load_callable, run_sync_target, awaited, execute_by_kind, result_of, error_text,
  report, execute,
}
use distributed_task_runner.Worker.Runtime.{has_error}

-- A text in front of another that is not empty.
behind_is_text : (s t : String) → t ≢ "" → (s ++ t == "") ≡ false
behind_is_text s t h = elim (Bool-cases (s ++ t == "")) [
  | inl e ↦ absurd (append-ne-nil_of_right_ne-nil s h ((eq_iff (s ++ t) "").0 e))
  | inr e ↦ e
]

pub has_error-error_text : (x : PythonError) → has_error (some (error_text x)) ≡ true
unfolding has_error error_text
has_error-error_text x =
    rw
      (behind_is_text x.type_name (": " ++ x.message)
        (λ e. cons≢nil (sym (cons-append _ " " x.message) ∙ e)))
      refl

-- A result of the task by the worker, either a success without an error or a failure with one.
pub record Reported (task : TaskEnvelope) (worker_id : String) (result : TaskResult) : Type 0 where
  pub names_task : result.task_id ≡ task.task_id
  pub names_worker : result.worker_id ≡ worker_id
  pub counted : has_error result.error ≡ status_eqb result.status failed
  pub never_cancelled : status_eqb result.status cancelled ≡ false

ReportedIf : TaskEnvelope → String → Ending TaskResult → Type 0
ReportedIf task worker_id (returned result) = Reported task worker_id result
ReportedIf task worker_id _ = Unit

-- A target that has no colon names no function.
partition_alone : (s : String) → All (λ c. c ≢ colon) (codes s) → (partition colon s).1 ≡ ""
unfolding partition
partition_alone String.[] h = refl
partition_alone (String.◌∷◌ c s) (h, hs) = ground (arith, h, partition_alone s hs)

module _ {Module Function : Type 0} (host : Host Module Function) where
  load_callable_alone :
      (target : String)
      → All (λ c. c ≢ colon) (codes target)
      → load_callable host target ≡ threw malformed
  unfolding load_callable
  load_callable_alone target h =
      let empty : ((partition colon target).1 == "") ≡ true = rw (partition_alone target h) refl in
      ground (arith, empty)

  run_sync_target_alone :
      (target : String) (payload : Dict Value)
      → All (λ c. c ≢ colon) (codes target)
      → run_sync_target host target payload ≡ threw malformed
  unfolding run_sync_target
  run_sync_target_alone target payload h =
      ap (λ f. then_call f (λ g. host.call g payload)) (load_callable_alone target h)

  execute_by_kind_alone :
      ((pool : Pool) (x : PythonError) → host.pool pool (threw x) ≡ threw x)
      → (kind : TaskKind) (target : String) (payload : Dict Value)
      → All (λ c. c ≢ colon) (codes target)
      → execute_by_kind host kind target payload ≡ threw malformed
  unfolding execute_by_kind
  execute_by_kind_alone pooled cpu target payload h =
      ap (host.pool processes) (run_sync_target_alone target payload h) ∙ pooled processes malformed
  execute_by_kind_alone pooled async target payload h =
      ap (λ c. then_call c awaited) (run_sync_target_alone target payload h)
  execute_by_kind_alone pooled io target payload h =
      ap (host.pool threads) (run_sync_target_alone target payload h) ∙ pooled threads malformed
  execute_by_kind_alone pooled scheduled target payload h =
      ap (host.pool threads) (run_sync_target_alone target payload h) ∙ pooled threads malformed

  -- Where the pools and `wait_for` pass an exception on, a task whose target has no colon fails,
  -- whatever its kind: its result says that the target is malformed.
  pub execute-malformed :
      ((pool : Pool) (x : PythonError) → host.pool pool (threw x) ≡ threw x)
      → ((timeout : ℤ) (x : PythonError) → host.wait_for timeout (threw x) ≡ threw x)
      → (task : TaskEnvelope) (worker_id : String) (started finished : ℤ)
      → All (λ c. c ≢ colon) (codes task.spec.target)
      → execute host task worker_id started finished
        ≡ returned (
            result_of task worker_id started finished failed null (
              some
                "ValueError: target must use 'path/to/file.py:function_name' or 'module:function_name'"))
  unfolding execute report malformed error_text
  execute-malformed pooled waited task worker_id started finished h =
      let spec = task.spec in
      rw
        (
          execute_by_kind_alone pooled spec.kind spec.target spec.payload h,
          waited spec.timeout_seconds malformed,
        )
        refl
