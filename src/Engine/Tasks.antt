-- ===== src/Engine/Tasks.antt =====
-- taskrunner/scheduler/engine.py: `submit`, `submit_batch`, `cancel_task` and `retry_task`.
use distributed_task_runner.Base.{suc, String, none, List, [], ◌∷◌, length}
use distributed_task_runner.Base.Int.{ℤ, pos}
use distributed_task_runner.Models.{
  text, number, TaskSpec, normalized, new_envelope, status_text, cancelled, task_submitted,
  task_failed, WorkerInfo,
}
use distributed_task_runner.Broker.State.{Ref, Broker, Outcome, ok, raised, write}
use distributed_task_runner.Broker.Reserve.{attempt}
use distributed_task_runner.Broker.Submit.{Arrival, submit_many}
use distributed_task_runner.Broker.Submit
use distributed_task_runner.Broker.Settle
use distributed_task_runner.Engine.State.{Engine, Stamp, announce, save_task, set_drained}

-- A round of the queue's `reserve` that waits in a thread, with what it was called with.
pub record Round : Type 0 where
  pub worker : WorkerInfo
  pub completed : List String
  pub lease_seconds : ℤ
  pub now : ℤ
  pub leased : ℤ

unfoldable pub rounds_served : List Round → Engine → Engine
unfolding attempt
rounds_served [] e = e
rounds_served (x ∷ xs) e =
    let (result, queue) = attempt x.now x.leased x.worker x.completed x.lease_seconds e.queue in
    rounds_served xs (record e { queue = queue })

-- What `uuid4` and the clock answer for a task that is made, filed in the queue and saved. The threads
-- of `reserve` run meanwhile: the rounds between the filing of a single task and the saving of its
-- row, and those between that and the reading of the task that is returned.
pub record Making : Type 0 where
  pub task_id : String
  pub created : ℤ
  pub available : ℤ
  pub now : ℤ
  pub pushed : ℤ
  pub saved : ℤ
  pub before_row : List Round
  pub before_return : List Round

-- `TaskEnvelope(spec=spec.normalized())`, at the reference `next_task`.
unfoldable pub make_task : TaskSpec → Making → Engine → Engine
unfolding new_envelope normalized
make_task spec m e =
    let task = new_envelope (normalized spec) m.task_id m.created m.available in
    let queue : Broker = e.queue in
    record e {
      queue = record queue { objects = write e.next_task task queue.objects };
      next_task = suc e.next_task;
    }

-- The rest of a method after its call of the queue, which may have raised.
abbrev pub after :
    {A B : Type 0} → Outcome A × Broker → Engine → (A → Engine → B × Engine) → Outcome B × Engine
after (raised x, queue) e rest = (raised x, record e { queue = queue })
after (ok a, queue) e rest = let (b, e') = rest a (record e { queue = queue }) in (ok b, e')

unfoldable pub submitted : Making → Stamp → Ref → Engine → Ref × Engine
unfolding rounds_served save_task announce
submitted m stamp r e =
    let filed : Engine = rounds_served m.before_row e in
    let task = filed.queue.objects r in
    let payload = ("task_id", text task.task_id) ∷ ("queue", text task.spec.queue) ∷ [] in
    let told : Engine =
      set_drained (announce task_submitted payload stamp (save_task m.saved r none filed)) in
    (r, rounds_served m.before_return told)

unfoldable pub submit : TaskSpec → Making → Stamp → Engine → Outcome Ref × Engine
unfolding make_task submitted
submit spec m stamp e =
    let e' : Engine = make_task spec m e in
    after (Submit.submit m.now m.pushed e.next_task e'.queue) e' (submitted m stamp)

-- The tasks of a batch, in references that follow one another.
unfoldable pub make_tasks : List (TaskSpec × Making) → Engine → List Arrival × Engine
unfolding make_task
make_tasks [] e = ([], e)
make_tasks ((spec, m) ∷ rest) e =
    let (arrivals, e') = make_tasks rest (make_task spec m e) in
    (record { task = e.next_task; now = m.now; pushed = m.pushed } ∷ arrivals, e')

-- `clock` gives, for each task, the reading that is made for its row.
unfoldable pub save_tasks : (clock : Ref → ℤ) → List Ref → Engine → Engine
unfolding save_task
save_tasks clock [] e = e
save_tasks clock (r ∷ rs) e = save_tasks clock rs (save_task (clock r) r none e)

unfoldable pub batch_submitted : (saved : Ref → ℤ) → Stamp → List Ref → Engine → List Ref × Engine
unfolding save_tasks announce
batch_submitted saved stamp rs e =
    let payload = ("batch_size", number (pos (length rs))) ∷ [] in
    (rs, set_drained (announce task_submitted payload stamp (save_tasks saved rs e)))

unfoldable pub submit_batch :
    List (TaskSpec × Making) → (saved : Ref → ℤ) → Stamp → Engine → Outcome (List Ref) × Engine
unfolding make_tasks batch_submitted
submit_batch specs saved stamp e =
    let (arrivals, e') = make_tasks specs e in
    after (submit_many arrivals e'.queue) e' (batch_submitted saved stamp)

unfoldable pub task_cancelled : String → (saved : ℤ) → Stamp → Ref → Engine → Ref × Engine
unfolding save_task announce status_text
task_cancelled task_id saved stamp r e =
    let payload = ("task_id", text task_id) ∷ ("status", text (status_text cancelled)) ∷ [] in
    (r, announce task_failed payload stamp (save_task saved r none e))

unfoldable pub cancel_task : String → (saved : ℤ) → Stamp → Engine → Outcome Ref × Engine
unfolding task_cancelled
cancel_task task_id saved stamp e =
    after (Settle.cancel task_id e.queue) e (task_cancelled task_id saved stamp)

unfoldable pub retry_task : String → (now pushed saved : ℤ) → Engine → Outcome Ref × Engine
unfolding save_task
retry_task task_id now pushed saved e =
    after (Settle.retry now pushed task_id "manual retry" e.queue) e
      (λ r e'. (r, set_drained (save_task saved r none e')))
