-- ===== src/Engine/Batches.antt =====
-- taskrunner/scheduler/engine.py: what a batch that is too long leaves behind.
use distributed_task_runner.Base.{
  ℕ, ◌+◌, ◌<◌, ◌≡◌, refl, ◌∙◌, false, List, [], ◌∷◌, arith, leb, length, take,
}
use distributed_task_runner.Base.Int.{ℤ}
use distributed_task_runner.Models.{TaskSpec}
use distributed_task_runner.Broker.State.{Error, queue_full, Ref, Broker, Outcome, raised, depth}
use distributed_task_runner.Broker.Submit.{submit_many}
use distributed_task_runner.Broker.Capacity.{AllFresh, enqueue_all, submit_many-fills}
use distributed_task_runner.Engine.State.{Engine, Stamp}
use distributed_task_runner.Engine.Tasks.{
  Making, make_task, make_tasks, after, batch_submitted, submit_batch,
}

-- The store, the bus and the flag of the engine are those of another.
pub record SameBooks (e e' : Engine) : Type 0 where
  pub store : e'.store ≡ e.store
  pub event_bus : e'.event_bus ≡ e.event_bus
  pub drained : e'.drained ≡ e.drained

make_tasks-SameBooks :
    (specs : List (TaskSpec × Making)) (e : Engine) → SameBooks e (make_tasks specs e).1
unfolding make_tasks make_task
make_tasks-SameBooks [] e = record { store = refl; event_bus = refl; drained = refl }
make_tasks-SameBooks ((spec, m) ∷ specs) e =
    let rest = make_tasks-SameBooks specs (make_task spec m e) in
    record { store = rest.store; event_bus = rest.event_bus; drained = rest.drained }

after-raised :
    {A B : Type 0} (p : Outcome A × Broker) (x : Error) (q : Broker) (e : Engine)
    (rest : A → Engine → B × Engine)
    → p ≡ (raised x, q)
    → after p e rest ≡ (raised x, record e { queue = q })
after-raised p x q e rest h = rw h

-- A batch of new tasks that is longer than the room of the queue raises the error of a full queue.
-- The first of its tasks, as many as there was room for, stay in the queue all the same, and of none
-- of them is there a row in the store or an event: the store and the bus are as they were.
pub submit_batch-partial :
    (specs : List (TaskSpec × Making)) (room : ℕ) (saved : Ref → ℤ) (stamp : Stamp) (e : Engine)
    → let (arrivals, made) = make_tasks specs e in
      depth made.queue + room ≡ made.queue.max_depth
      → AllFresh arrivals made.queue
      → room < length arrivals
      → let (outcome, e') = submit_batch specs saved stamp e in
        (outcome ≡ raised (queue_full made.queue.max_depth made.queue.max_depth))
        × (e'.queue ≡ enqueue_all (take room arrivals) made.queue)
        × SameBooks e e'
unfolding submit_batch
submit_batch-partial specs room saved stamp e fits fresh longer =
    let arrivals = (make_tasks specs e).0 in
    let made : Engine = (make_tasks specs e).1 in
    let error = queue_full made.queue.max_depth made.queue.max_depth in
    let left : Broker = enqueue_all (take room arrivals) made.queue in
    let too_long : leb (length arrivals) room ≡ false = ground arith in
    let full = submit_many-fills arrivals room made.queue fits fresh ∙ rw too_long refl in
    let books = make_tasks-SameBooks specs e in
    rw
      (after-raised (submit_many arrivals made.queue) error left made (batch_submitted saved stamp)
        full)
      (
        refl,
        refl,
        record { store = books.store; event_bus = books.event_bus; drained = books.drained },
      )
