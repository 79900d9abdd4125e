-- ===== src/Cluster/Settling.antt =====
-- taskrunner/workers/executor.py, grpc/client.py, grpc/server.py and scheduler/engine.py: a task is
-- executed, its result is reported over the servicer, and the engine settles the task.
use distributed_task_runner.Base.{
  ◌≡◌, ◌≢◌, refl, sym, ap, subst, ◌∙◌, ◌⊎◌, inl, inr, String, true, false, not, Option, none, some,
  arith, ◌==◌,
}
use text.Mathlib.TextPositions.{eq_refl}
use distributed_task_runner.Base.Int.{ℤ}
use distributed_task_runner.Base.Text.{elem, or_text}
use distributed_task_runner.Models.{Value, null, TaskEnvelope, TaskResult, succeeded, failed}
use distributed_task_runner.Codec.Records.{result_to_proto}
use distributed_task_runner.Codec.Results.{result_from_proto-result_to_proto}
use distributed_task_runner.Broker.State
use distributed_task_runner.Broker.State.{Ref, Broker}
use distributed_task_runner.Broker.Retries.{Owns, Retried}
use distributed_task_runner.Engine.State.{Engine}
use distributed_task_runner.Engine.Reports.{error_or, report_result}
use distributed_task_runner.Engine.Outcomes.{
  Ended, Settled, succeeds, is_cancelled, fails, report_result-Reported,
}
use distributed_task_runner.Server.{task_reply}
use distributed_task_runner.Client.{report_result_request}
use distributed_task_runner.Client.Served.{Readings, servicer, report_call_reads}
use distributed_task_runner.Worker.Runtime.{has_error}
use distributed_task_runner.Worker.Outcomes.{has_error-error_text}
use distributed_task_runner.Worker.Executor.{
  PythonError, Ending, returned, threw, was_cancelled, escaped, Host, execute_by_kind, result_of,
  error_text, report, execute,
}

-- The result in an ending, or another.
abbrev result_in : Ending TaskResult → TaskResult → TaskResult
result_in (returned result) other = result
result_in _ other = other

-- A result that is reported is that of a value or that of an exception.
report_cases :
    (task : TaskEnvelope) (worker_id : String) (started finished : ℤ) (ending : Ending Value)
    (result : TaskResult)
    → report task worker_id started finished ending ≡ returned result
    → ((v : Value) × (ending ≡ returned v)
        × (result_of task worker_id started finished succeeded v none ≡ result))
      ⊎ ((x : PythonError) × (ending ≡ threw x)
          × (result_of task worker_id started finished failed null (some (error_text x)) ≡ result))
unfolding report
report_cases task worker_id started finished (returned v) result h =
    inl (v, refl, ap (λ y. result_in y result) h)
report_cases task worker_id started finished (threw x) result h =
    inr (x, refl, ap (λ y. result_in y result) h)
report_cases task worker_id started finished was_cancelled result h = absurd (cc)
report_cases task worker_id started finished (escaped name) result h = absurd (cc)

-- What a run of the task `r` makes of it: it has succeeded, and what depends on it may run; or it has
-- failed, and is retried or dead as `retry` decides.
pub data Outcome (ending : Ending Value) (k : String) (now pushed : ℤ) (r : Ref) (e e' : Engine)
    : Type 0 where
  ran :
      (v : Value)
      → ending ≡ returned v
      → Ended k succeeded none r e'.queue
      → elem k e'.completed_tasks ≡ true
      → Outcome ending k now pushed r e e'
  broke :
      (x : PythonError)
      → ending ≡ threw x
      → Retried now pushed k (error_text x) r e.queue e'.queue
      → ((name : String) → elem name e'.completed_tasks ≡ elem name e.completed_tasks)
      → Outcome ending k now pushed r e e'

succeeded-Settled :
    (result : TaskResult) (now pushed : ℤ) (r : Ref) (b b' : Broker)
    → result.status ≡ succeeded
    → Settled result now pushed r b b'
    → Ended result.task_id succeeded none r b'
succeeded-Settled result now pushed r b b' h (succeeds t ends) = ends
succeeded-Settled result now pushed r b b' h (is_cancelled t ends) = absurd (ground (arith, h, t))
succeeded-Settled result now pushed r b b' h (fails f g retried) = absurd (ground (arith, h, f))

failed-Settled :
    (result : TaskResult) (now pushed : ℤ) (r : Ref) (b b' : Broker)
    → result.status ≡ failed
    → Settled result now pushed r b b'
    → Retried now pushed result.task_id (error_or result.error "task failed") r b b'
failed-Settled result now pushed r b b' h (succeeds t ends) = absurd (ground (arith, h, t))
failed-Settled result now pushed r b b' h (is_cancelled t ends) = absurd (ground (arith, h, t))
failed-Settled result now pushed r b b' h (fails f g retried) = retried

text_stays : (x : PythonError) → error_or (some (error_text x)) "task failed" ≡ error_text x
unfolding error_or or_text has_error
text_stays x =
    let stated : not (error_text x == "") ≡ true = has_error-error_text x in ground (arith, stated)

text_stated : (x : PythonError) → some (error_text x) ≢ some ""
unfolding has_error
text_stated x e =
    let stated : has_error (some (error_text x)) ≡ true = has_error-error_text x in
    let empty : has_error (some (error_text x)) ≡ false = ap has_error e in
    let clash : true ≡ false = sym stated ∙ empty in absurd (cc)

-- The engine after a report over the servicer, whatever the client is told.
reply_state :
    (dumps : Value → String) (direct : State.Outcome Ref × Engine)
    → (task_reply dumps direct).1 ≡ direct.1
unfolding task_reply
reply_state dumps (State.raised x, e) = refl
reply_state dumps (State.ok r, e) = refl

request_state :
    (dumps : Value → String) (loads : String → Option Value) (at : Readings) (result : TaskResult)
    (e : Engine)
    → dumps result.result ≢ ""
    → loads (dumps result.result) ≡ some result.result
    → result.error ≢ some ""
    → (report_result_request dumps loads (servicer dumps loads at) result e).1
      ≡ (report_result result at.completed_in at.now at.pushed at.saved at.logged at.stamp e).1
unfolding report_result_request
request_state dumps loads at result e named json stated =
    let read = result_from_proto-result_to_proto dumps loads result named json stated in
    ap (λ p. p.1) (report_call_reads dumps loads at (result_to_proto dumps result) result e read)
    ∙ reply_state dumps
        (report_result result at.completed_in at.now at.pushed at.saved at.logged at.stamp e)

-- What the engine's own report makes of a value, and of an exception.
value_settles :
    (task : TaskEnvelope) (worker_id : String) (started finished : ℤ) (v : Value) (at : Readings)
    (r : Ref) (e : Engine) (ending : Ending Value)
    → ending ≡ returned v
    → Owns task.task_id r e.queue
    → let result = result_of task worker_id started finished succeeded v none in
      Outcome ending task.task_id at.now at.pushed r e
        (report_result result at.completed_in at.now at.pushed at.saved at.logged at.stamp e).1
unfolding result_of
value_settles task worker_id started finished v at r e ending gave owns =
    let result : TaskResult = result_of task worker_id started finished succeeded v none in
    let (_, said) =
      report_result-Reported result at.completed_in at.now at.pushed at.saved at.logged at.stamp r e
        owns in
    ran v gave (succeeded-Settled result at.now at.pushed r e.queue _ refl said.settled)
      (said.completed task.task_id ∙ rw eq_refl refl)

exception_settles :
    (task : TaskEnvelope) (worker_id : String) (started finished : ℤ) (x : PythonError)
    (at : Readings) (r : Ref) (e : Engine) (ending : Ending Value)
    → ending ≡ threw x
    → Owns task.task_id r e.queue
    → let result = result_of task worker_id started finished failed null (some (error_text x)) in
      Outcome ending task.task_id at.now at.pushed r e
        (report_result result at.completed_in at.now at.pushed at.saved at.logged at.stamp e).1
unfolding result_of
exception_settles task worker_id started finished x at r e ending raised owns =
    let result : TaskResult =
      result_of task worker_id started finished failed null (some (error_text x)) in
    let e' : Engine =
      (report_result result at.completed_in at.now at.pushed at.saved at.logged at.stamp e).1 in
    let (_, said) =
      report_result-Reported result at.completed_in at.now at.pushed at.saved at.logged at.stamp r e
        owns in
    let retried = failed-Settled result at.now at.pushed r e.queue _ refl said.settled in
    broke x raised
      (subst (λ reason. Retried at.now at.pushed task.task_id reason r e.queue e'.queue)
        (text_stays x) retried)
      said.completed

-- The run of a task, and what is reported of it: its status, its error and its identifier.
module _ {Module Function : Type 0} (host : Host Module Function) (dumps : Value → String)
    (loads : String → Option Value) (at : Readings) where
  -- A worker runs a task that the queue has and reports the result over the servicer; the result is
  -- one that `json` writes and reads back. If the task's function gave a value, the task has then
  -- succeeded, is no longer in flight, and is among the completed ones. If it raised an exception,
  -- or ran out of time, the task has been retried for that reason, and no task is completed by it.
  pub execute-settles :
      (task : TaskEnvelope) (worker_id : String) (started finished : ℤ) (result : TaskResult)
      (r : Ref) (e : Engine)
      → execute host task worker_id started finished ≡ returned result
      → Owns task.task_id r e.queue
      → dumps result.result ≢ ""
      → loads (dumps result.result) ≡ some result.result
      → let spec = task.spec in
        let ending =
          host.wait_for spec.timeout_seconds
            (execute_by_kind host spec.kind spec.target spec.payload) in
        let e' = (report_result_request dumps loads (servicer dumps loads at) result e).1 in
        Outcome ending task.task_id at.now at.pushed r e e'
  unfolding execute result_of
  execute-settles task worker_id started finished result r e done owns named json =
      let spec = task.spec in
      let ending =
        host.wait_for spec.timeout_seconds
          (execute_by_kind host spec.kind spec.target spec.payload) in
      let told = λ (stated : result.error ≢ some "").
        sym (request_state dumps loads at result e named json stated) in
      elim (report_cases task worker_id started finished ending result done) [
        | inl (v, gave, is) ↦
            subst (Outcome ending task.task_id at.now at.pushed r e)
              (told (λ n. let clash : none ≡ some "" = ap (λ y. y.error) is ∙ n in absurd (cc)))
              (subst
                (λ x.
                  Outcome ending task.task_id at.now at.pushed r e
                    (report_result x at.completed_in at.now at.pushed at.saved at.logged at.stamp
                      e).1)
                is (value_settles task worker_id started finished v at r e ending gave owns))
        | inr (x, raised, is) ↦
            subst (Outcome ending task.task_id at.now at.pushed r e)
              (told (λ n. text_stated x (ap (λ y. y.error) is ∙ n)))
              (subst
                (λ y.
                  Outcome ending task.task_id at.now at.pushed r e
                    (report_result y at.completed_in at.now at.pushed at.saved at.logged at.stamp
                      e).1)
                is (exception_settles task worker_id started finished x at r e ending raised owns))
      ]
