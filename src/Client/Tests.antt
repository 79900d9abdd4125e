-- ===== src/Client/Tests.antt =====
-- taskrunner/grpc/client.py: a heartbeat of a worker of a small cluster.
use distributed_task_runner.Base.{
  arith, eq_iff, ◌==◌, if◌then◌else◌, ◌≢◌, true, sym, ap, ◌∙◌, subst, Option, String, [], ◌≡◌, refl,
  none, some,
}
use distributed_task_runner.Base.Int.{pos}
use distributed_task_runner.Models.{
  null, object, end, Value, TaskEnvelope, TaskSpec, TaskResult, normalized, new_envelope,
}
use distributed_task_runner.Models.Normal.{IsNormal, normalized-IsNormal}
use distributed_task_runner.Broker.State.{Ref, Outcome, ok, new_queue}
use distributed_task_runner.Broker.Submit
use distributed_task_runner.Broker.Settle
use distributed_task_runner.Codec.Trip.{Reads}
use distributed_task_runner.Codec.Tasks.{Sendable}
use distributed_task_runner.Engine.Tasks.{submit, cancel_task, retry_task}
use distributed_task_runner.Engine.Reports.{report_result}
use distributed_task_runner.Engine.Submitting.{ref_of}
use distributed_task_runner.Client.Served.{Readings, servicer, Told, report_result_request-refines}
use distributed_task_runner.Engine.State.{Engine, new_engine}
use distributed_task_runner.Engine.Workers
use distributed_task_runner.Engine.Tests.{cluster, stamp, making, resize, failure}
use distributed_task_runner.Codec.{fits}
use distributed_task_runner.Server.{heartbeat_call}
use distributed_task_runner.Client.{Stub, heartbeat_request, report_result_request}
use distributed_task_runner.Client.Heartbeats.{Heard, heartbeat_request-refines}

-- A stub that reaches the servicer for heartbeats, and nothing else.
abbrev stub : Stub Engine
stub = record {
  submit_task = λ m e. (none, e);
  register_worker = λ m e. (none, e);
  heartbeat =
      λ (worker_id, running_tasks) e. heartbeat_call worker_id running_tasks (pos 9) stamp e;
  reserve_task = λ m e. (none, e);
  report_result = λ m e. (none, e);
  cancel_task = λ m e. (none, e);
  retry_task = λ m e. (none, e);
}

heartbeat_request-refines_example :
    let (told, e') = heartbeat_request (λ v. "") (λ s. some null) stub "worker-1" (pos 3) cluster in
    let (seen, direct) = Workers.heartbeat "worker-1" (pos 3) (pos 9) stamp cluster in
    (e' ≡ direct) × Heard direct.worker_objects seen told
unfolding fits
heartbeat_request-refines_example =
    heartbeat_request-refines (λ v. "") (λ s. some null) stub (pos 9) stamp "worker-1" (pos 3)
      cluster refl refl

abbrev pub readings : Readings
readings = record {
  making = record making { task_id = "next" };
  stamp = stamp;
  started = pos 4;
  now = pos 5;
  pushed = pos 5;
  saved = pos 5;
  logged = pos 5;
  completed_in = "";
  worker = 1;
  turns = [];
  resumed = λ e. e;
}

abbrev pub dumps : Value → String
dumps v = "null"

abbrev pub loads : String → Option Value
loads s = if s == "null" then some null else some (object end)

-- A task of the specification `resize` that has failed `attempts` times, the last time by `error`.
sendable :
    (task : TaskEnvelope) (error : Option String)
    → task.spec ≡ resize
    → fits (pos task.attempts) ≡ true
    → task.assigned_worker ≡ none
    → task.last_error ≡ error
    → error ≢ some ""
    → Sendable dumps loads task
unfolding fits
sendable task error spec attempts worker last stated = record {
  normal = subst IsNormal (sym spec) (unfold normalized in normalized-IsNormal resize);
  json = subst (λ (s : TaskSpec). Reads dumps loads s.payload) (sym spec) tt;
  keyed = subst (λ (s : TaskSpec). s.batch_key ≢ some "") (sym spec) (λ e. cc);
  priority_fits = subst (λ (s : TaskSpec). fits s.priority ≡ true) (sym spec) refl;
  retries_fit = subst (λ (s : TaskSpec). fits s.max_retries ≡ true) (sym spec) refl;
  attempts_fit = attempts;
  worker_named = λ e. cc;
  error_stated = λ e. stated (sym last ∙ e);
}

-- The task 0, if that is the one that a call returned.
pub first :
    (direct : Outcome Ref × Engine) (r : Ref)
    → direct.0 ≡ ok 0
    → direct.0 ≡ ok r
    → Sendable dumps loads (direct.1.queue.objects 0)
    → Sendable dumps loads (direct.1.queue.objects r)
first direct r is_first done h =
    subst (λ s. Sendable dumps loads (direct.1.queue.objects s))
      (ap (λ o. ref_of o 0) (sym is_first ∙ done)) h

pub cancelled_first :
    let direct = cancel_task "job" (pos 5) stamp cluster in
    (direct.0 ≡ ok 0) × Sendable dumps loads (direct.1.queue.objects 0)
unfolding cancel_task submit Workers.register_worker new_engine new_envelope Submit.submit new_queue
    fits Settle.cancel
cancelled_first = (refl, sendable _ none refl refl refl refl (λ e. cc))

pub retried_first :
    let direct = retry_task "job" (pos 5) (pos 5) (pos 5) cluster in
    (direct.0 ≡ ok 0) × Sendable dumps loads (direct.1.queue.objects 0)
unfolding retry_task submit Workers.register_worker new_engine new_envelope Submit.submit new_queue
    fits Settle.retry
retried_first = (
  refl,
  sendable _ (some "manual retry") refl refl refl refl
      (λ e. absurd (ground (arith, eq_iff "manual retry" "", e))),
)

-- A failure that leaves no value.
abbrev lost : TaskResult
lost = record failure { result = null }

reported_first :
    let direct = report_result lost "" (pos 5) (pos 5) (pos 5) (pos 5) stamp cluster in
    (direct.0 ≡ ok 0) × Sendable dumps loads (direct.1.queue.objects 0)
unfolding report_result submit Workers.register_worker new_engine new_envelope Submit.submit
    new_queue fits Settle.retry
reported_first = (
  refl,
  sendable _ (some "no such file") refl refl refl refl
      (λ e. absurd (ground (arith, eq_iff "no such file" "", e))),
)

report_result_request-refines_example :
    Told
      (report_result lost "" (pos 5) (pos 5) (pos 5) (pos 5) stamp cluster)
      (report_result_request dumps loads (servicer dumps loads readings) lost cluster)
report_result_request-refines_example =
    report_result_request-refines dumps loads readings lost cluster
      (λ e. absurd (ground (arith, eq_iff "null" "", e))) refl
      (λ e. absurd (ground (arith, eq_iff "no such file" "", e)))
      (λ r done.
        first (report_result lost "" (pos 5) (pos 5) (pos 5) (pos 5) stamp cluster) r
          reported_first.0 done reported_first.1)
