-- ===== src/Cli/Operators.antt =====
-- taskrunner/cli/main.py: the commands of an operator, over a network that reaches the servicer, and
-- the calls of the engine.
use distributed_task_runner.Base.{◌≡◌, ap, String, Bool, true, Option, some}
use distributed_task_runner.Models.{Value, Fields, object, TaskSpec, TaskEnvelope}
use distributed_task_runner.Models.Normal.{IsNormal}
use distributed_task_runner.Codec.{fits}
use distributed_task_runner.Codec.Trip.{Reads, Arrived}
use distributed_task_runner.Codec.Tasks.{Sendable, TaskArrived}
use distributed_task_runner.Dicts.{task_dict}
use distributed_task_runner.Broker.State.{Ref, Error, Outcome, ok, raised}
use distributed_task_runner.Config.{Platform, Settings, grpc_target}
use distributed_task_runner.Engine.State.{Engine}
use distributed_task_runner.Engine.Tasks.{submit, cancel_task, retry_task}
use distributed_task_runner.Engine.Submitting.{Named}
use distributed_task_runner.Client.Served.{
  Readings, servicer, Told, refused, answered, cancel_and_retry-refine, submit_request-refines,
}
use distributed_task_runner.Cli.{SubmitOptions, submitted_spec}
use distributed_task_runner.Cli.Commands.{
  Command, prints, fails, Tools, items, payload_of, echo_task, client, submit_payload,
  submit_command, retry_command, cancel_command,
}

-- How a command ends whose call of the engine is `direct`: it fails where that raises an exception,
-- and prints the task that it returns, as this arrives. The engine is as the call leaves it.
pub data Shown (shown : Value → String) (direct : Outcome Ref × Engine) (result : Command × Engine)
    : Type 0 where
  failed :
      (x : Error) → direct.0 ≡ raised x → result ≡ (fails, direct.1) → Shown shown direct result
  printed :
      (r : Ref) (task : TaskEnvelope)
      → direct.0 ≡ ok r
      → TaskArrived (direct.1.queue.objects r) task
      → result ≡ (prints (shown (task_dict task)), direct.1)
      → Shown shown direct result

module _ (tools : Tools Engine) (platform : Platform) (settings : Settings) where
  echo_task-Shown :
      (direct : Outcome Ref × Engine) (told : Option TaskEnvelope × Engine)
      → Told direct told
      → Shown tools.shown direct (echo_task tools platform settings told)
  unfolding echo_task
  echo_task-Shown direct told (refused x raises is) =
      failed x raises (ap (echo_task tools platform settings) is)
  echo_task-Shown direct told (answered r task returns is arrived) =
      printed r task returns arrived (ap (echo_task tools platform settings) is)

  -- Where the address of the scheduler is that of the servicer: the commands `cancel` and `retry`
  -- leave the engine as its own calls do. A command fails if its call raises an exception; if that
  -- returns a task, and a message can carry it whole, it prints that task as it arrives.
  pub cancel_and_retry_commands-Shown :
      (at : Readings) (task_id : String) (e : Engine)
      → tools.stub_at (grpc_target platform settings) ≡ servicer tools.dumps tools.loads at
      → let cancelling = cancel_task task_id at.saved at.stamp e in
        let retrying = retry_task task_id at.now at.pushed at.saved e in
        ((r : Ref)
          → cancelling.0 ≡ ok r
          → Sendable tools.dumps tools.loads (cancelling.1.queue.objects r))
        → ((r : Ref)
            → retrying.0 ≡ ok r
            → Sendable tools.dumps tools.loads (retrying.1.queue.objects r))
        → Shown tools.shown cancelling (cancel_command tools platform settings task_id e)
          × Shown tools.shown retrying (retry_command tools platform settings task_id e)
  unfolding cancel_command retry_command client
  cancel_and_retry_commands-Shown at task_id e reaches h k =
      let (cancelled, retried) = cancel_and_retry-refine tools.dumps tools.loads at task_id e h k in
      (rw reaches (echo_task-Shown _ _ cancelled), rw reaches (echo_task-Shown _ _ retried))

  -- Where the address of the scheduler is that of the servicer, and the payload reads as a JSON
  -- object: if the specification of the options is in normal form and a message can carry it, it
  -- arrives as one that may differ in the order of its sets and in a priority of 0, and the command
  -- `submit` does to the engine what a submission of that does. It fails if that raises an exception,
  -- and else prints the new task as it is when `submit` returns: rounds of `reserve`, for workers with
  -- a name, may have taken it by then.
  pub submit_command-Shown :
      (at : Readings) (options : SubmitOptions) (payload : String) (exists : Bool) (fields : Fields)
      (e : Engine)
      → tools.stub_at (grpc_target platform settings) ≡ servicer tools.dumps tools.loads at
      → tools.loads payload ≡ some (object fields)
      → let spec = submitted_spec (record options { payload = items fields }) exists in
        IsNormal spec
        → Reads tools.dumps tools.loads (items fields)
        → fits options.priority ≡ true
        → fits options.retries ≡ true
        → Named at.making.before_row
        → Named at.making.before_return
        → (arrived : TaskSpec) × Arrived spec arrived
          × Shown tools.shown
              (submit arrived at.making at.stamp e)
              (submit_command tools platform settings options payload exists e)
  unfolding submit_command submit_payload submitted_spec payload_of client
  submit_command-Shown at options payload exists fields e reaches read normal json p q first last =
      let spec : TaskSpec = submitted_spec (record options { payload = items fields }) exists in
      let (arrived, same, told) =
        submit_request-refines tools.dumps tools.loads at spec e normal json (λ e. cc) p q first
          last in
      (arrived, same, rw (read, reaches) (echo_task-Shown _ _ told))
