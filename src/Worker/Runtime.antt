-- ===== src/Worker/Runtime.antt =====
-- taskrunner/workers/manager.py: `WorkerRuntime`. Its coroutines run one at a time, from one `await`
-- to the next, and `resume` is such a part of the consumer in a slot: it takes what the `await` gave.
-- The transport and the executor are what gives it.
use distributed_task_runner.Base.{
  ℕ, zero, suc, ◌+◌, Bool, true, false, Option, none, some, List, [], ◌∷◌, ◌++◌, String, not, ◌||◌,
  map, ◌==◌, if◌then◌else◌,
}
use distributed_task_runner.Base.Int.{ℤ, pos, negsuc}
use distributed_task_runner.Models.{TaskEnvelope, TaskResult, WorkerInfo, draining}
use distributed_task_runner.Dicts.{task_dict, result_dict}
use distributed_task_runner.Worker.Ipc.{IpcChannels, new_channels, write_shared_counters}

-- How an execution ends: it returns, or raises a CancelledError, or another exception.
pub data End : Type 0 where
  well called_off ill : End

-- Where a consumer stands: at its `reserve`, at its `sleep`, at the execution it has made and that
-- has not begun, at `execute` or `report_result` in that execution, at the execution that has ended
-- and whose callbacks have not run, or past its end: `broken` by an exception, and `finished` where it
-- has returned or been cancelled.
pub data Slot : Type 0 where
  reserving sleeping : Slot
  created executing : TaskEnvelope → Slot
  reporting : TaskResult → Slot
  settling : End → Slot
  finished broken : Slot

-- What the awaited call gives: a value of each, a CancelledError, or another exception. At `wakes` the
-- callbacks of an execution run: it leaves `self._running`, and its consumer goes on.
pub data Given : Type 0 where
  reserved : Option TaskEnvelope → Given
  slept begins wakes : Given
  executed : TaskResult → Given
  reported : Given
  cancels raises : Given

-- Where the heartbeat loop stands: at one of its three calls, or past its end.
pub data Pulse : Type 0 where
  asking registering resting ended lost : Pulse

-- What its call gives: whether the worker is known, an end, or an exception.
pub data Beat : Type 0 where
  known : Bool → Beat
  done fails : Beat

pub record Runtime : Type 0 where
  pub worker : WorkerInfo
  pub ipc : IpcChannels
  pub stop : Bool
  pub slots : List Slot
  pub pulse : Pulse
  pub completed : ℕ
  pub failed : ℕ
  pub executor_down : Bool
  pub ipc_closed : Bool

-- Whether the slot has an execution in `self._running`.
unfoldable pub in_running : Slot → ℕ
in_running reserving = 0
in_running sleeping = 0
in_running (created task) = 1
in_running (executing task) = 1
in_running (reporting result) = 1
in_running (settling how) = 1
in_running finished = 0
in_running broken = 0

-- `len(self._running)`
unfoldable pub running : List Slot → ℕ
unfolding in_running
running [] = 0
running (slot ∷ slots) = in_running slot + running slots

-- `range(capacity)` consumers. One that has not begun stands as one whose sleep is over: the test of
-- the loop is next.
unfoldable pub consumers : ℕ → List Slot
consumers zero = []
consumers (suc n) = sleeping ∷ consumers n

unfoldable pub count_of : ℤ → ℕ
count_of (pos n) = n
count_of (negsuc n) = 0

-- The state in which `_run_with_transport` waits for the stop.
unfoldable pub new_runtime : WorkerInfo → Runtime
unfolding new_channels consumers count_of
new_runtime worker = record {
  worker = worker;
  ipc = new_channels;
  stop = false;
  slots = consumers (count_of worker.capacity);
  pulse = resting;
  completed = 0;
  failed = 0;
  executor_down = false;
  ipc_closed = false;
}

-- `while not self._stop.is_set()`, and the `reserve` behind it.
unfoldable pub turn : Bool → Slot
turn stop = if stop then finished else reserving

-- `self._running` and the two counters, written to the shared memory.
unfoldable pub write_counters : Runtime → Option Runtime
unfolding running write_shared_counters
write_counters rt = elim (write_shared_counters (running rt.slots) rt.completed rt.failed rt.ipc) [
  | none ↦ none
  | some ipc ↦ some (record rt { ipc = ipc })
]

-- The slot and the runtime after a part of an execution that may raise at its end.
unfoldable pub or_ill : Slot → Runtime → Option Runtime → Slot × Runtime
or_ill slot rt none = (settling ill, rt)
or_ill slot rt (some rt') = (slot, rt')

-- `self.ipc.task_queue.put(task.to_dict())`, and the same of a result.
unfoldable pub put_task : TaskEnvelope → Runtime → Runtime
unfolding task_dict
put_task task rt =
    let ipc = rt.ipc in
    record rt { ipc = record ipc { task_queue = ipc.task_queue ++ task_dict task ∷ [] } }

unfoldable pub put_result : TaskResult → Runtime → Runtime
unfolding result_dict
put_result result rt =
    let ipc = rt.ipc in
    record rt { ipc = record ipc { result_queue = ipc.result_queue ++ result_dict result ∷ [] } }

-- `_execute_and_report` up to its first `await`.
unfoldable pub begin_execution : TaskEnvelope → Runtime → Slot × Runtime
unfolding put_task write_counters or_ill
begin_execution task rt =
    let put : Runtime = put_task task rt in or_ill (executing task) put (write_counters put)

-- `if result.error`
unfoldable pub has_error : Option String → Bool
has_error none = false
has_error (some error) = not (error == "")

-- The counter that a reported result adds to.
unfoldable pub count_result : TaskResult → Runtime → Runtime
unfolding has_error
count_result result rt =
    if has_error result.error
    then record rt { failed = suc rt.failed }
    else record rt { completed = suc rt.completed }

-- `_execute_and_report` behind its last `await`.
unfoldable pub end_execution : TaskResult → Runtime → Slot × Runtime
unfolding put_result count_result write_counters or_ill
end_execution result rt =
    let counted : Runtime = count_result result (put_result result rt) in
    or_ill (settling well) counted (write_counters counted)

-- The consumer behind its `await execution`.
unfoldable pub wake : End → Bool → Slot
unfolding turn
wake well stop = turn stop
wake called_off stop = finished
wake ill stop = broken

-- What is given to another `await` changes nothing.
unfoldable pub resume : Slot → Given → Runtime → Slot × Runtime
unfolding turn begin_execution end_execution wake
resume reserving (reserved none) rt = (sleeping, rt)
resume reserving (reserved (some task)) rt = (created task, rt)
resume reserving cancels rt = (finished, rt)
resume reserving raises rt = (broken, rt)
resume sleeping slept rt = (turn rt.stop, rt)
resume (created task) begins rt = begin_execution task rt
resume (executing task) (executed result) rt = (reporting result, rt)
resume (executing task) cancels rt = (settling called_off, rt)
resume (executing task) raises rt = (settling ill, rt)
resume (reporting result) reported rt = end_execution result rt
resume (reporting result) cancels rt = (settling called_off, rt)
resume (reporting result) raises rt = (settling ill, rt)
resume (settling how) wakes rt = (wake how rt.stop, rt)
resume slot given rt = (slot, rt)

-- A part of `_heartbeat_loop`.
unfoldable pub beat : Bool → Pulse → Beat → Pulse
beat stop asking (known is_known) = if is_known then resting else registering
beat stop asking fails = lost
beat stop registering done = resting
beat stop registering fails = lost
beat stop resting done = if stop then ended else asking
beat stop pulse given = pulse

-- What a heartbeat tells the scheduler.
unfoldable pub heartbeat_message : Runtime → String × ℕ
unfolding running
heartbeat_message rt = (rt.worker.worker_id, running rt.slots)

-- The slot `i`, and a slot in its place.
unfoldable pub slot_at : ℕ → List Slot → Slot
slot_at i [] = finished
slot_at zero (slot ∷ slots) = slot
slot_at (suc i) (slot ∷ slots) = slot_at i slots

unfoldable pub put_slot : ℕ → Slot → List Slot → List Slot
put_slot i new [] = []
put_slot zero new (slot ∷ slots) = new ∷ slots
put_slot (suc i) new (slot ∷ slots) = slot ∷ put_slot i new slots

-- What happens to a worker that runs; `stops` is `request_shutdown` or a signal.
pub data Happening : Type 0 where
  resumes : ℕ → Given → Happening
  beats : Beat → Happening
  stops : Happening

unfoldable pub step : Happening → Runtime → Runtime
unfolding slot_at resume put_slot beat
step (resumes i given) rt =
    let (slot, rt') = resume (slot_at i rt.slots) given rt in
    record rt' { slots = put_slot i slot rt'.slots }
step (beats given) rt = record rt { pulse = beat rt.stop rt.pulse given }
step stops rt = record rt { stop = true }

unfoldable pub after_all : List Happening → Runtime → Runtime
unfolding step
after_all [] rt = rt
after_all (h ∷ hs) rt = after_all hs (step h rt)

-- A consumer that is cancelled, with the execution it waits for: the executor raises the
-- cancellation again, and nothing is reported. One whose execution has ended is cancelled too, before
-- it learns how. The CancelledErrors are suppressed.
unfoldable pub cancel_slot : Slot → Slot
cancel_slot broken = broken
cancel_slot _ = finished

-- An `await` on the consumers raises what ended one of them.
unfoldable pub any_broken : List Slot → Bool
any_broken [] = false
any_broken (broken ∷ slots) = true
any_broken (_ ∷ slots) = any_broken slots

unfoldable pub is_lost : Pulse → Bool
is_lost lost = true
is_lost _ = false

-- The `finally` of `_run_with_transport`: whether it gets to its end, and the state that it leaves.
unfoldable pub shutdown : Runtime → Bool × Runtime
unfolding cancel_slot any_broken is_lost
shutdown rt =
    let worker = rt.worker in
    let cancelled : Runtime = record rt {
      worker = record worker { status = draining };
      slots = map cancel_slot rt.slots;
    } in
    if is_lost rt.pulse || any_broken rt.slots
    then (false, cancelled)
    else (true, record cancelled { executor_down = true; ipc_closed = true })
