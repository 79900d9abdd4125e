-- ===== src/Broker/Settle.antt =====
-- taskrunner/queue/broker.py: `ack`, `complete`, `retry`, `cancel` and `requeue_expired_leases`.
use distributed_task_runner.Base.{
  suc, String, Bool, true, false, Option, none, some, List, [], ◌∷◌, if◌then◌else◌,
}
use distributed_task_runner.Base.Int.{ℤ, pos, ltb_ℤ, ◌+ℤ◌, ◌*ℤ◌}
use distributed_task_runner.Base.Dict.{Dict, lookup, insert, erase}
use distributed_task_runner.Base.Text.{add}
use distributed_task_runner.Models.{
  TaskEnvelope, TaskStatus, acked, cancelled, dead_lettered, retrying, status_eqb,
}
use distributed_task_runner.Broker.State.{
  task_not_found, Outcome, ok, raised, Ref, Broker, write, push, prepend,
}

-- `self._inflight.pop(task_id, None) or self._tasks.get(task_id)`, whose first part also changes
-- the queue: the task, and the queue after it.
unfoldable pub find_task : String → Broker → Option Ref
unfolding lookup
find_task task_id b = elim (lookup task_id b.inflight) [
  | some r ↦ some r
  | none ↦ lookup task_id b.tasks
]

unfoldable pub release : String → Broker → Broker
unfolding erase
release task_id b = record b { inflight = erase task_id b.inflight }

unfoldable pub ack : String → Broker → Outcome Ref × Broker
unfolding find_task release
ack task_id b = elim (find_task task_id b) [
  | none ↦ (raised (task_not_found task_id), release task_id b)
  | some r ↦
      let b' : Broker = release task_id b in
      let task = record (b'.objects r) { status = acked; lease_deadline = none } in
      (ok r, record b' { objects = write r task b'.objects })
]

-- The fields of a task that ends with `status`.
unfoldable pub ended : TaskStatus → Option String → TaskEnvelope → TaskEnvelope
ended status error task = record task { status = status; last_error = error; lease_deadline = none }

unfoldable pub complete : String → TaskStatus → Option String → Broker → Outcome Ref × Broker
unfolding find_task release ended insert
complete task_id status error b = elim (find_task task_id b) [
  | none ↦ (raised (task_not_found task_id), release task_id b)
  | some r ↦
      let b' : Broker = release task_id b in
      let task = ended status error (b'.objects r) in
      (
        ok r,
        record b' {
          objects = write r task b'.objects;
          dead_letter =
              if status_eqb status dead_lettered
              then insert task_id r b'.dead_letter
              else b'.dead_letter;
        },
      )
]

-- `time() + retry_backoff_seconds * attempts`
unfoldable pub backoff : (now : ℤ) → TaskEnvelope → ℤ
unfolding ◌+ℤ◌ ◌*ℤ◌
backoff now task = now +ℤ task.spec.retry_backoff_seconds *ℤ pos task.attempts

-- The first four assignments of `retry`.
unfoldable pub counted : String → TaskEnvelope → TaskEnvelope
counted reason task = record task {
  attempts = suc task.attempts;
  last_error = some reason;
  assigned_worker = none;
  lease_deadline = none;
}

unfoldable pub exhausted : TaskEnvelope → Bool
exhausted task = ltb_ℤ task.spec.max_retries (pos task.attempts)

-- The rest of `retry`, on a task that has been counted.
unfoldable pub retry_task : (now pushed : ℤ) → TaskEnvelope → Ref → Broker → Broker
unfolding exhausted backoff insert push
retry_task now pushed task r b =
    if exhausted task
    then record b {
      objects = write r (record task { status = dead_lettered }) b.objects;
      dead_letter = insert task.task_id r b.dead_letter;
    }
    else push pushed r (record b {
      objects =
          write r (record task { status = retrying; available_at = backoff now task }) b.objects;
    })

unfoldable pub retry : (now pushed : ℤ) → String → String → Broker → Outcome Ref × Broker
unfolding find_task release counted retry_task
retry now pushed task_id reason b = elim (find_task task_id b) [
  | none ↦ (raised (task_not_found task_id), release task_id b)
  | some r ↦ (ok r, retry_task now pushed (counted reason (b.objects r)) r (release task_id b))
]

unfoldable pub cancel : String → Broker → Outcome Ref × Broker
unfolding lookup add release
cancel task_id b = elim (lookup task_id b.tasks) [
  | none ↦ (raised (task_not_found task_id), b)
  | some r ↦
      let task = record (b.objects r) { status = cancelled } in
      let b' : Broker = record b {
        objects = write r task b.objects;
        cancelled = add task_id b.cancelled;
      } in
      (ok r, release task_id b')
]

abbrev expired_at : (now : ℤ) → Option ℤ → Bool
expired_at now none = false
expired_at now (some deadline) = ltb_ℤ deadline now

-- `task.lease_deadline is not None and task.lease_deadline < now`
unfoldable pub expired : (now : ℤ) → TaskEnvelope → Bool
expired now task = expired_at now task.lease_deadline

-- `self._inflight.pop(task_id, None)` and `task.assigned_worker = None`
unfoldable pub unassign : String → Ref → Broker → Broker
unfolding release
unassign task_id r b =
    let b' : Broker = release task_id b in
    record b' { objects = write r (record (b'.objects r) { assigned_worker = none }) b'.objects }

-- The body of the loop on one item of `_inflight`, with the two readings of the clock by `retry`.
unfoldable pub requeue_one : (now : ℤ) → ℤ × ℤ → String → Ref → Broker → Outcome Ref × Broker
unfolding unassign retry
requeue_one now (again, pushed) task_id r b =
    retry again pushed task_id "lease expired" (unassign task_id r b)

-- What follows a call of `retry` in the loop: an exception ends it.
abbrev pub and_then :
    Outcome Ref × Broker → (Broker → Outcome (List Ref) × Broker) → Outcome (List Ref) × Broker
and_then (raised e, b) rest = (raised e, b)
and_then (ok r, b) rest = prepend r (rest b)

-- The loop on a copy of the items of `_inflight`.
unfoldable pub requeue_items :
    (now : ℤ) → (String → ℤ × ℤ) → Dict Ref → Broker → Outcome (List Ref) × Broker
unfolding expired requeue_one
requeue_items now clock [] b = (ok [], b)
requeue_items now clock ((task_id, r) ∷ items) b = elim (expired now (b.objects r)) [
  | false ↦ requeue_items now clock items b
  | true ↦ and_then (requeue_one now (clock task_id) task_id r b) (requeue_items now clock items)
]

-- `requeue_expired_leases`; `clock` gives, for each task, the readings that are made for it.
unfoldable pub requeue_expired_leases :
    (now : ℤ) → (String → ℤ × ℤ) → Broker → Outcome (List Ref) × Broker
unfolding requeue_items
requeue_expired_leases now clock b = requeue_items now clock b.inflight b
