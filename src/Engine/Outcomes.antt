-- ===== src/Engine/Outcomes.antt =====
-- taskrunner/scheduler/engine.py: what `report_result` leaves behind.
use distributed_task_runner.Base.{
  ◌≡◌, refl, sym, ap, subst, ◌∙◌, inl, inr, String, true, false, ◌||◌, ◌&&◌, Option, none, some,
  Bool-cases, Option-cases, ◌==◌,
}
use text.Mathlib.TextPositions.{eq_refl}
use distributed_task_runner.Base.Int.{ℤ}
use distributed_task_runner.Base.Dict.{lookup, lookup-insert_self, lookup-erase}
use distributed_task_runner.Base.Text.{elem, elem-add}
use distributed_task_runner.Models.{
  TaskResult, TaskStatus, TaskEnvelope, succeeded, cancelled, status_eqb,
}
use distributed_task_runner.Broker.State.{Ref, Broker, Outcome, ok}
use distributed_task_runner.Broker.Settle.{release, ended, complete}
use distributed_task_runner.Broker.Views.{get}
use distributed_task_runner.Broker.Preserve.{write_self}
use distributed_task_runner.Broker.Retries.{Owns, Owns-find_task, Retried, retry-Retried}
use distributed_task_runner.Store.{TaskRow, task_row, merge_task, merged, upsert_task, append_log}
use distributed_task_runner.Engine.State.{Engine, Stamp, announce, save_task, save_worker}
use distributed_task_runner.Engine.Tasks.{after}
use distributed_task_runner.Engine.Reports.{
  free_worker, error_or, settle, mark_completed, keep_result, reported, report_result,
}

-- The task has ended with `status` and `error`, and is no longer in flight.
pub record Ended (k : String) (status : TaskStatus) (error : Option String) (r : Ref) (b : Broker)
    : Type 0 where
  pub status_kept : (b.objects r).status ≡ status
  pub error_kept : (b.objects r).last_error ≡ error
  pub landed : lookup k b.inflight ≡ none

complete-Ended :
    (k : String) (status : TaskStatus) (error : Option String) (r : Ref) (b : Broker)
    → Owns k r b
    → ((complete k status error b).0 ≡ ok r) × Ended k status error r (complete k status error b).1
unfolding complete ended release
complete-Ended k status error r b o =
    let wrote = write_self r (ended status error (b.objects r)) b.objects in
    rw (Owns-find_task k r b o, complete)
      (
        refl,
        record {
          status_kept = ap (λ x. x.status) wrote;
          error_kept = ap (λ x. x.last_error) wrote;
          landed = rw (lookup-erase, eq_refl) refl;
        },
      )

-- What the status of a result makes of its task.
pub data Settled (result : TaskResult) (now pushed : ℤ) (r : Ref) (b b' : Broker) : Type 0 where
  succeeds :
      status_eqb result.status succeeded ≡ true
      → Ended result.task_id succeeded none r b'
      → Settled result now pushed r b b'
  is_cancelled :
      status_eqb result.status cancelled ≡ true
      → Ended result.task_id cancelled result.error r b'
      → Settled result now pushed r b b'
  fails :
      status_eqb result.status succeeded ≡ false
      → status_eqb result.status cancelled ≡ false
      → Retried now pushed result.task_id (error_or result.error "task failed") r b b'
      → Settled result now pushed r b b'

settle-Settled :
    (result : TaskResult) (now pushed : ℤ) (r : Ref) (b : Broker)
    → Owns result.task_id r b
    → ((settle result now pushed b).0 ≡ ok r)
      × Settled result now pushed r b (settle result now pushed b).1
unfolding settle
settle-Settled result now pushed r b o = elim (Bool-cases (status_eqb result.status succeeded)) [
  | inl t ↦
      let (done, ends) = complete-Ended result.task_id succeeded none r b o in
      rw t (done, succeeds t ends)
  | inr f ↦ elim (Bool-cases (status_eqb result.status cancelled)) [
    | inl t ↦
        let (done, ends) = complete-Ended result.task_id cancelled result.error r b o in
        rw (f, t) (done, is_cancelled t ends)
    | inr g ↦
        let (done, retried) =
          retry-Retried now pushed result.task_id (error_or result.error "task failed") r b o in
        rw (f, g) (done, fails f g retried)
  ]
]

-- The row shows the task and the result as they are.
pub record Shows (result : TaskResult) (task : TaskEnvelope) (row : TaskRow) : Type 0 where
  pub status : row.status ≡ task.status
  pub attempts : row.attempts ≡ task.attempts
  pub error : row.error ≡ task.last_error
  pub outcome : row.result ≡ some result

merged-Shows :
    (saved : ℤ) (result : TaskResult) (task : TaskEnvelope) (old : Option TaskRow)
    → Shows result task (merged (task_row saved task (some result)) old)
unfolding merged merge_task task_row
merged-Shows saved result task none = record {
  status = refl;
  attempts = refl;
  error = refl;
  outcome = refl;
}
merged-Shows saved result task (some old) = record {
  status = refl;
  attempts = refl;
  error = refl;
  outcome = refl;
}

-- The engine after a report on the task `r`: the queue's part, and that of the engine.
pub record Reported (result : TaskResult) (now pushed : ℤ) (r : Ref) (e e' : Engine) : Type 0 where
  pub settled : Settled result now pushed r e.queue e'.queue
  pub kept : lookup result.task_id e'.results ≡ some result
  pub row : TaskRow
  pub stored : lookup (e'.queue.objects r).task_id e'.store.tasks ≡ some row
  pub shows : Shows result (e'.queue.objects r) row
  pub completed :
      (name : String)
      → elem name e'.completed_tasks ≡ (
          (status_eqb result.status succeeded && (result.task_id == name))
          || elem name e.completed_tasks)
  pub woken : e'.drained ≡ true

free_worker-queue : (worker_id : String) (e : Engine) → (free_worker worker_id e).queue ≡ e.queue
unfolding free_worker save_worker
free_worker-queue worker_id e = elim (Option-cases (lookup worker_id e.workers)) [
  | inl absent ↦ rw (absent, free_worker) refl
  | inr (w, present) ↦ rw (present, free_worker) refl
]

free_worker-completed :
    (worker_id : String) (e : Engine)
    → (free_worker worker_id e).completed_tasks ≡ e.completed_tasks
unfolding free_worker save_worker
free_worker-completed worker_id e = elim (Option-cases (lookup worker_id e.workers)) [
  | inl absent ↦ rw (absent, free_worker) refl
  | inr (w, present) ↦ rw (present, free_worker) refl
]

mark_completed-elem :
    (result : TaskResult) (e : Engine) (name : String)
    → elem name (mark_completed result e).completed_tasks ≡ (
        (status_eqb result.status succeeded && (result.task_id == name))
        || elem name e.completed_tasks)
unfolding mark_completed
mark_completed-elem result e name = elim (Bool-cases (status_eqb result.status succeeded)) [
  | inl t ↦ rw t (elem-add result.task_id name e.completed_tasks)
  | inr f ↦ rw f
]

mark_completed-queue :
    (result : TaskResult) (e : Engine) → (mark_completed result e).queue ≡ e.queue
unfolding mark_completed
mark_completed-queue result e = elim (Bool-cases (status_eqb result.status succeeded)) [
  | inl t ↦ rw t
  | inr f ↦ rw f
]

after-ok :
    {A B : Type 0} (p : Outcome A × Broker) (a : A) (e : Engine) (rest : A → Engine → B × Engine)
    → p.0 ≡ ok a
    → after p e rest ≡ (let (b, e') = rest a (record e { queue = p.1 }) in (ok b, e'))
after-ok (o, queue) a e rest h = rw h

get-Owns : (k : String) (r : Ref) (b : Broker) → Owns k r b → get k b ≡ ok r
unfolding get
get-Owns k r b o = rw (o.listed, get) refl

module _ (result : TaskResult) (completed_in : String) (now pushed saved logged : ℤ) (stamp : Stamp)
    (r : Ref) (e : Engine) where
  reported-Reported :
      (e1 : Engine)
      → Settled result now pushed r e.queue e1.queue
      → e1.completed_tasks ≡ e.completed_tasks
      → Reported result now pushed r e (reported result completed_in saved logged stamp r e1).1
  unfolding reported keep_result save_task upsert_task append_log announce
  reported-Reported e1 settled same =
      let e2 : Engine = mark_completed result e1 in
      let task = e2.queue.objects r in
      record {
        settled =
            subst (Settled result now pushed r e.queue) (sym (mark_completed-queue result e1))
              settled;
        kept = lookup-insert_self result.task_id result e2.results;
        row = _;
        stored = lookup-insert_self task.task_id _ e2.store.tasks;
        shows = merged-Shows saved result task _;
        completed = λ name. mark_completed-elem result e1 name ∙ rw same refl;
        woken = refl;
      }

  -- A report on a task that the queue has returns it, settles it in the queue as the status of the
  -- result asks, keeps the result, saves a row that shows the task and the result as they are, and
  -- adds the task to the completed ones exactly if it succeeded.
  pub report_result-Reported :
      Owns result.task_id r e.queue
      → let (outcome, e') = report_result result completed_in now pushed saved logged stamp e in
        (outcome ≡ ok r) × Reported result now pushed r e e'
  unfolding report_result
  report_result-Reported o =
      let e1 : Engine = free_worker result.worker_id e in
      let o1 = subst (Owns result.task_id r) (sym (free_worker-queue result.worker_id e)) o in
      let (done, settled) = settle-Settled result now pushed r e1.queue o1 in
      let rest = reported result completed_in saved logged stamp in
      let ran = after-ok (settle result now pushed e1.queue) r e1 rest done in
      rw (get-Owns result.task_id r e.queue o, report_result, ran)
        (
          refl,
          reported-Reported (record e1 { queue = (settle result now pushed e1.queue).1 })
              (subst (λ q. Settled result now pushed r q (settle result now pushed e1.queue).1)
                (free_worker-queue result.worker_id e) settled)
              (free_worker-completed result.worker_id e),
        )
