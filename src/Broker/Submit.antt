-- ===== src/Broker/Submit.antt =====
-- taskrunner/queue/broker.py: `submit` and `submit_many`.
use distributed_task_runner.Base.{List, [], ◌∷◌, leb, if◌then◌else◌}
use distributed_task_runner.Base.Int.{ℤ, ◌+ℤ◌}
use distributed_task_runner.Base.Dict.{insert}
use distributed_task_runner.Models.{TaskEnvelope, normalized, queued}
use distributed_task_runner.Broker.State.{
  queue_full, Outcome, ok, raised, Ref, Broker, write, depth, push, prepend,
}

-- The fields of a task that enters the queue.
unfoldable pub accepted : (now : ℤ) → TaskEnvelope → TaskEnvelope
unfolding normalized ◌+ℤ◌
accepted now task =
    let spec = normalized task.spec in
    record task { spec = spec; status = queued; available_at = now +ℤ spec.delay_seconds }

-- The four assignments that both methods make once they have found room for the task.
unfoldable pub enter : (now : ℤ) → Ref → Broker → Broker
unfolding accepted insert
enter now r b =
    let task = accepted now (b.objects r) in
    record b { objects = write r task b.objects; tasks = insert task.task_id r b.tasks }

unfoldable pub enqueue : (now pushed : ℤ) → Ref → Broker → Broker
unfolding enter push
enqueue now pushed r b = push pushed r (enter now r b)

unfoldable pub submit : (now pushed : ℤ) → Ref → Broker → Outcome Ref × Broker
unfolding depth enqueue
submit now pushed r b =
    if leb b.max_depth (depth b)
    then (raised (queue_full (depth b) b.max_depth), b)
    else (ok r, enqueue now pushed r b)

-- A task of a batch, with the readings of the clock that are made for it.
pub record Arrival : Type 0 where
  pub task : Ref
  pub now : ℤ
  pub pushed : ℤ

-- An exception leaves the tasks before it in the queue.
unfoldable pub submit_many : List Arrival → Broker → Outcome (List Ref) × Broker
unfolding depth enqueue
submit_many [] b = (ok [], b)
submit_many (a ∷ rest) b =
    let more = submit_many rest (enqueue a.now a.pushed a.task b) in
    if leb b.max_depth (depth b)
    then (raised (queue_full (depth b) b.max_depth), b)
    else prepend a.task more
