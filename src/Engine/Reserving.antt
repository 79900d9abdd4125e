-- ===== src/Engine/Reserving.antt =====
-- taskrunner/scheduler/engine.py: `reserve_task`. The queue's `reserve` runs in a thread; while it
-- waits, and between its return and the rest of the method, the other methods run. So the method is
-- made of its start, the rounds of `reserve`, and what follows.
use distributed_task_runner.Base.{String, Option, none, some, List, [], ◌∷◌, if◌then◌else◌}
use distributed_task_runner.Base.Int.{ℤ, pos, ◌+ℤ◌}
use distributed_task_runner.Base.Dict.{lookup}
use distributed_task_runner.Models.{text, busy, offline, worker_status_eqb, task_dispatched}
use distributed_task_runner.Broker.State.{Ref, Outcome, ok, raised}
use distributed_task_runner.Broker.Reserve.{attempt}
use distributed_task_runner.Broker.Waiting.{seen, deadline_of, gives_up, Answer, waiting, returned}
use distributed_task_runner.Engine.State.{Engine, Stamp, announce, save_task, save_worker}

-- The worker for which a task is asked, unless the method returns `None` at once.
unfoldable pub asks : String → Engine → Option Ref
unfolding lookup
asks worker_id e = elim (lookup worker_id e.workers) [
  | none ↦ none
  | some w ↦ if worker_status_eqb (e.worker_objects w).status offline then none else some w
]

-- A round of `reserve` for the worker `w`, which sees its present fields; `given` is the set of the
-- completed tasks when the method started.
unfoldable pub reserve_round :
    (given : List String) (now leased : ℤ) → Ref → Engine → Outcome (Option Ref) × Engine
unfolding seen attempt
reserve_round given now leased w e =
    let completed = seen given e.completed_tasks in
    let (result, queue) =
      attempt now leased (e.worker_objects w) completed e.config.lease_seconds e.queue in
    (result, record e { queue = queue })

-- What follows when the thread has returned the task `r`.
unfoldable pub dispatched : (worker_id : String) (saved : ℤ) → Stamp → Ref → Ref → Engine → Engine
unfolding save_worker save_task announce ◌+ℤ◌
dispatched worker_id saved stamp w r e =
    let old = e.worker_objects w in
    let worker = record old { running_tasks = old.running_tasks +ℤ pos 1; status = busy } in
    let e' : Engine = save_task saved r none (save_worker w worker e) in
    let task = e'.queue.objects r in
    let payload =
      ("task_id", text task.task_id)
      ∷ ("worker_id", text worker_id)
      ∷ ("queue", text task.spec.queue)
      ∷ [] in
    announce task_dispatched payload stamp e'

-- A round of the thread, with what the others do before the next one.
pub record Turn : Type 0 where
  pub now : ℤ
  pub leased : ℤ
  pub monotonic : ℤ
  pub meanwhile : Engine → Engine

-- `self.queue.reserve(…)` in its thread.
unfoldable pub reserve_in_thread :
    (given : List String) (timeout : ℤ) (deadline : Option ℤ)
    → Ref
    → List Turn
    → Engine
    → Answer × Engine
unfolding reserve_round gives_up
reserve_in_thread given timeout deadline w [] e = (waiting, e)
reserve_in_thread given timeout deadline w (turn ∷ turns) e =
    let (result, e') = reserve_round given turn.now turn.leased w e in
    let later = reserve_in_thread given timeout deadline w turns (turn.meanwhile e') in
    elim result [
      | raised x ↦ (returned (raised x), e')
      | ok (some r) ↦ (returned (ok (some r)), e')
      | ok none ↦
          if gives_up (some timeout) deadline turn.monotonic
          then (returned (ok none), e')
          else later
    ]

-- The rest of `reserve_task`; `resumed` is what others do between the return of the thread and it.
unfoldable pub hand_out :
    (worker_id : String) (saved : ℤ)
    → Stamp
    → (resumed : Engine → Engine) → Ref
    → Answer × Engine
    → Answer × Engine
unfolding dispatched
hand_out worker_id saved stamp resumed w (waiting, e) = (waiting, e)
hand_out worker_id saved stamp resumed w (returned (raised x), e) = (returned (raised x), resumed e)
hand_out worker_id saved stamp resumed w (returned (ok none), e) = (returned (ok none), resumed e)
hand_out worker_id saved stamp resumed w (returned (ok (some r)), e) =
    (returned (ok (some r)), dispatched worker_id saved stamp w r (resumed e))

-- The whole of `reserve_task`, over a schedule of what the others do meanwhile.
unfoldable pub reserve_task :
    (worker_id : String) (timeout started saved : ℤ)
    → Stamp
    → List Turn
    → (resumed : Engine → Engine) → Engine
    → Answer × Engine
unfolding asks deadline_of reserve_in_thread hand_out
reserve_task worker_id timeout started saved stamp turns resumed e = elim (asks worker_id e) [
  | none ↦ (returned (ok none), e)
  | some w ↦
      let deadline = deadline_of started (some timeout) in
      hand_out worker_id saved stamp resumed w
        (reserve_in_thread e.completed_tasks timeout deadline w turns e)
]
