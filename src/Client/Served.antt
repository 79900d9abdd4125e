-- ===== src/Client/Served.antt =====
-- taskrunner/grpc/client.py and server.py: the calls of a client whose stub reaches the servicer, and
-- those of the engine. What the server reads of its clocks and draws is one record for each call.
use distributed_task_runner.Base.{
  ◌≡◌, ◌≢◌, refl, sym, ap, subst, ◌∙◌, String, true, Option, none, some, List,
}
use distributed_task_runner.Base.Int.{ℤ}
use distributed_task_runner.Models.{Value, TaskSpec, TaskEnvelope, TaskResult}
use distributed_task_runner.Models.Normal.{IsNormal}
use distributed_task_runner.Codec.{fits}
use distributed_task_runner.Codec.Specs.{SpecMessage, spec_to_proto, spec_from_proto}
use distributed_task_runner.Codec.Records.{
  ResultMessage, TaskMessage, task_from_proto, result_to_proto, result_from_proto,
}
use distributed_task_runner.Codec.Trip.{Reads, Arrived, spec_from_proto-spec_to_proto}
use distributed_task_runner.Codec.Results.{result_from_proto-result_to_proto}
use distributed_task_runner.Codec.Tasks.{Sendable, TaskArrived, task_from_proto-task_to_proto}
use distributed_task_runner.Broker.State.{Ref, Error, Outcome, ok, raised}
use distributed_task_runner.Engine.State.{Engine, Stamp}
use distributed_task_runner.Engine.Tasks.{Making, submit, cancel_task, retry_task}
use distributed_task_runner.Engine.Reserving.{Turn}
use distributed_task_runner.Engine.Submitting.{entered, Named, submit_object}
use distributed_task_runner.Engine.Reports.{report_result}
use distributed_task_runner.Server.{
  task_reply, submit_task_call, report_result_call, cancel_task_call, retry_task_call,
  register_worker_call, heartbeat_call, ReserveReply, no_reply, failure, not_found, found,
  reserve_task_call,
}
use distributed_task_runner.Client.Sent.{entered-Sendable, Taken-Sendable}
use distributed_task_runner.Client.{
  Stub, read_reply, submit_request, report_result_request, cancel_request, retry_request,
}

pub record Readings : Type 0 where
  pub making : Making
  pub stamp : Stamp
  pub started : ℤ
  pub now : ℤ
  pub pushed : ℤ
  pub saved : ℤ
  pub logged : ℤ
  pub completed_in : String
  pub worker : Ref
  pub turns : List Turn
  pub resumed : Engine → Engine

-- A client gets the reply, once there is one.
abbrev pub received : ReserveReply → Option (Option TaskMessage)
received no_reply = none
received failure = none
received not_found = some none
received (found message) = some (some message)

-- A network that delivers every request once, and every reply.
abbrev pub servicer : (Value → String) → (String → Option Value) → Readings → Stub Engine
servicer dumps loads at = record {
  submit_task = λ message e. submit_task_call dumps loads message at.making at.stamp e;
  register_worker =
      λ message e. register_worker_call at.started at.now at.saved message at.worker at.stamp e;
  heartbeat =
      λ (worker_id, running_tasks) e. heartbeat_call worker_id running_tasks at.now at.stamp e;
  reserve_task = λ (worker_id, timeout) e.
      let (reply, e') =
        reserve_task_call dumps worker_id timeout at.started at.saved at.stamp at.turns at.resumed
          e in
      (received reply, e');
  report_result = λ message e.
      report_result_call dumps loads message at.completed_in at.now at.pushed at.saved at.logged
        at.stamp e;
  cancel_task = λ task_id e. cancel_task_call dumps loads task_id at.saved at.stamp e;
  retry_task = λ task_id e. retry_task_call dumps loads task_id at.now at.pushed at.saved e;
}

-- What a client is told of a call of the engine: an exception, or the task as it arrives. The engine
-- is in either case as the call leaves it.
pub data Told (direct : Outcome Ref × Engine) (told : Option TaskEnvelope × Engine) : Type 0 where
  refused : (x : Error) → direct.0 ≡ raised x → told ≡ (none, direct.1) → Told direct told
  answered :
      (r : Ref) (task : TaskEnvelope)
      → direct.0 ≡ ok r
      → told ≡ (some task, direct.1)
      → TaskArrived (direct.1.queue.objects r) task
      → Told direct told

module _ (dumps : Value → String) (loads : String → Option Value) where
  abbrev read_task_reply : Option TaskMessage × Engine → Option TaskEnvelope × Engine
  read_task_reply (reply, e) = (read_reply (task_from_proto loads) reply, e)

  task_reply-Told :
      (direct : Outcome Ref × Engine)
      → ((r : Ref) → direct.0 ≡ ok r → Sendable dumps loads (direct.1.queue.objects r))
      → Told direct (read_task_reply (task_reply dumps direct))
  unfolding task_reply
  task_reply-Told (raised x, e) h = refused x refl refl
  task_reply-Told (ok r, e) h =
      let (message, task, sent, read, arrived) =
        task_from_proto-task_to_proto dumps loads (e.queue.objects r) (h r refl) in
      answered r task refl (rw (sent, read) refl) arrived

  pub report_call_reads :
      (at : Readings) (message : ResultMessage) (result : TaskResult) (e : Engine)
      → result_from_proto loads message ≡ some result
      → (servicer dumps loads at).report_result message e
        ≡ task_reply dumps
            (report_result result at.completed_in at.now at.pushed at.saved at.logged at.stamp e)
  unfolding report_result_call
  report_call_reads at message result e h = rw (h, report_result_call) refl

  submit_call_reads :
      (at : Readings) (message : SpecMessage) (spec : TaskSpec) (e : Engine)
      → spec_from_proto loads message ≡ some spec
      → (servicer dumps loads at).submit_task message e
        ≡ task_reply dumps (submit spec at.making at.stamp e)
  unfolding submit_task_call
  submit_call_reads at message spec e h = rw (h, submit_task_call) refl

  submit_request_sends :
      (at : Readings) (spec : TaskSpec) (message : SpecMessage) (e : Engine)
      → spec_to_proto dumps spec ≡ some message
      → submit_request dumps loads (servicer dumps loads at) spec e
        ≡ read_task_reply ((servicer dumps loads at).submit_task message e)
  unfolding submit_request
  submit_request_sends at spec message e h = rw (h, submit_request) refl

  -- A request to cancel a task, or to retry it, over the servicer leaves the engine as the call of
  -- the engine does. If that raises an exception, so does the request; if it returns a task, and a
  -- message can carry it whole, the client gets that task without its lease.
  pub cancel_and_retry-refine :
      (at : Readings) (task_id : String) (e : Engine)
      → let cancelling = cancel_task task_id at.saved at.stamp e in
        let retrying = retry_task task_id at.now at.pushed at.saved e in
        ((r : Ref) → cancelling.0 ≡ ok r → Sendable dumps loads (cancelling.1.queue.objects r))
        → ((r : Ref) → retrying.0 ≡ ok r → Sendable dumps loads (retrying.1.queue.objects r))
        → Told cancelling (cancel_request dumps loads (servicer dumps loads at) task_id e)
          × Told retrying (retry_request dumps loads (servicer dumps loads at) task_id e)
  unfolding cancel_request retry_request cancel_task_call retry_task_call
  cancel_and_retry-refine at task_id e h k = (
    task_reply-Told (cancel_task task_id at.saved at.stamp e) h,
    task_reply-Told (retry_task task_id at.now at.pushed at.saved e) k,
  )

  -- A report of a result over the servicer does to the engine what the engine's own report does, and
  -- tells the client of the task that this returns, or of its exception. The result is one that
  -- `json` writes and reads back, without an empty error.
  pub report_result_request-refines :
      (at : Readings) (result : TaskResult) (e : Engine)
      → dumps result.result ≢ ""
      → loads (dumps result.result) ≡ some result.result
      → result.error ≢ some ""
      → let direct =
          report_result result at.completed_in at.now at.pushed at.saved at.logged at.stamp e in
        ((r : Ref) → direct.0 ≡ ok r → Sendable dumps loads (direct.1.queue.objects r))
        → Told direct (report_result_request dumps loads (servicer dumps loads at) result e)
  unfolding report_result_request
  report_result_request-refines at result e named json stated h =
      let direct =
        report_result result at.completed_in at.now at.pushed at.saved at.logged at.stamp e in
      let read = result_from_proto-result_to_proto dumps loads result named json stated in
      subst (Told direct)
        (sym
          (ap read_task_reply (report_call_reads at (result_to_proto dumps result) result e read)))
        (task_reply-Told direct h)

  -- A specification in normal form that a message can carry arrives as one that may differ in the
  -- order of its sets and in a priority or backoff of 0; a submission over the servicer does to the
  -- engine what a submission of the specification that arrives does, and tells the client of its task,
  -- as it is when `submit` returns, or of its exception.
  pub submit_request-refines :
      (at : Readings) (spec : TaskSpec) (e : Engine)
      → IsNormal spec
      → Reads dumps loads spec.payload
      → spec.batch_key ≢ some ""
      → fits spec.priority ≡ true
      → fits spec.max_retries ≡ true
      → Named at.making.before_row
      → Named at.making.before_return
      → (arrived : TaskSpec) × Arrived spec arrived
        × Told
            (submit arrived at.making at.stamp e)
            (submit_request dumps loads (servicer dumps loads at) spec e)
  submit_request-refines at spec e normal json keyed p q first last =
      let (message, arrived, sent, read, same) =
        spec_from_proto-spec_to_proto dumps loads spec normal json keyed p q in
      let direct = submit arrived at.making at.stamp e in
      let path =
        submit_request_sends at spec message e sent
        ∙ ap read_task_reply (submit_call_reads at message arrived e read) in
      let made = entered-Sendable dumps loads spec arrived at.making json keyed p q same in
      let carried = λ (r : Ref) (done : direct.0 ≡ ok r).
        Taken-Sendable dumps loads (entered arrived at.making) (direct.1.queue.objects r)
          (submit_object arrived at.making at.stamp e r first last done) made in
      (arrived, same, subst (Told direct) (sym path) (task_reply-Told direct carried))
