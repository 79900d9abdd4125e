-- ===== src/Api/Cancelling.antt =====
-- taskrunner/api/app.py: what a request to cancel a task is answered.
use distributed_task_runner.Base.{
  ◌≡◌, refl, sym, subst, ap, ◌⊎◌, inl, inr, String, none, some, arith, Option-cases,
}
use distributed_task_runner.Base.Int.{ℤ}
use distributed_task_runner.Base.Dict.{lookup}
use distributed_task_runner.Models.{cancelled}
use distributed_task_runner.Dicts.{task_dict}
use distributed_task_runner.Broker.State.{Ref, Broker, task_not_found, Outcome, ok, raised}
use distributed_task_runner.Broker.Settle.{cancel, release}
use distributed_task_runner.Engine.State.{Engine, Stamp}
use distributed_task_runner.Engine.Tasks.{after, task_cancelled, cancel_task}
use distributed_task_runner.Api.{
  Response, answer, http_error, dict_at, unless_key_error, respond, cancel_handler,
}

cancel_missing :
    (task_id : String) (b : Broker)
    → lookup task_id b.tasks ≡ none
    → cancel task_id b ≡ (raised (task_not_found task_id), b)
unfolding cancel
cancel_missing task_id b h = rw (h, cancel) refl

cancel_listed :
    (task_id : String) (b : Broker) (r : Ref)
    → lookup task_id b.tasks ≡ some r
    → ((cancel task_id b).0 ≡ ok r) × (((cancel task_id b).1.objects r).status ≡ cancelled)
unfolding cancel release
cancel_listed task_id b r h = rw (h, cancel) (refl, ground arith)

-- The rest of the handler, behind the call of the queue.
rest_of :
    (task_id : String) (saved : ℤ) (stamp : Stamp) (e : Engine)
    → Outcome Ref × Broker
    → Response × Engine
rest_of task_id saved stamp e p =
    respond 200 unless_key_error (after p e (task_cancelled task_id saved stamp))

-- The answer is the task `r`, which is cancelled.
Answers : Ref → Response × Engine → Type 0
Answers r (response, e) =
    (response ≡ answer 200 (task_dict (e.queue.objects r)))
    × ((e.queue.objects r).status ≡ cancelled)

answer_listed :
    (task_id : String) (saved : ℤ) (stamp : Stamp) (e : Engine) (r : Ref) (queue : Broker)
    → (queue.objects r).status ≡ cancelled
    → Answers r (rest_of task_id saved stamp e (ok r, queue))
unfolding Answers rest_of respond dict_at task_cancelled
answer_listed task_id saved stamp e r queue status = (refl, status)

-- A request to cancel a task that the queue does not list is answered by a status of 404, and the
-- engine is as it was. For a task that it lists, the answer is 200 with the task as it then is,
-- whose status is cancelled; a task that is at its end or runs is no exception.
pub cancel_handler-answers :
    (task_id : String) (saved : ℤ) (stamp : Stamp) (e : Engine)
    → let (response, e') = cancel_handler task_id saved stamp e in
      ((lookup task_id e.queue.tasks ≡ none)
        × (response ≡ http_error 404 "task not found")
        × (e' ≡ e))
      ⊎ ((r : Ref) × (lookup task_id e.queue.tasks ≡ some r)
          × (response ≡ answer 200 (task_dict (e'.queue.objects r)))
          × ((e'.queue.objects r).status ≡ cancelled))
unfolding cancel_handler cancel_task rest_of respond unless_key_error Answers
cancel_handler-answers task_id saved stamp e = elim (Option-cases (lookup task_id e.queue.tasks)) [
  | inl missing ↦
      let all : cancel_handler task_id saved stamp e ≡ (http_error 404 "task not found", e) =
        ap (rest_of task_id saved stamp e) (cancel_missing task_id e.queue missing) in
      inl (missing, ap (λ p. p.0) all, ap (λ p. p.1) all)
  | inr (r, listed) ↦
      let queue : Broker = (cancel task_id e.queue).1 in
      let (found, status) = cancel_listed task_id e.queue r listed in
      let all : cancel_handler task_id saved stamp e ≡ rest_of task_id saved stamp e (ok r, queue) =
        λ i. rest_of task_id saved stamp e (found i, queue) in
      let (answered, ended) =
        subst (Answers r) (sym all) (answer_listed task_id saved stamp e r queue status) in
      inr (r, listed, answered, ended)
]
