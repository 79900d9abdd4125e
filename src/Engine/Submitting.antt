-- ===== src/Engine/Submitting.antt =====
-- taskrunner/scheduler/engine.py: the task that `submit` returns.
use distributed_task_runner.Base.{
  ◌≢◌, List, [], ◌∷◌, All, ◌≡◌, refl, ap, subst, ◌∙◌, inl, inr, leb, Bool-cases,
}
use distributed_task_runner.Base.Int.{ℤ}
use distributed_task_runner.Models.{TaskSpec, TaskEnvelope, normalized, new_envelope}
use distributed_task_runner.Broker.State.{Ref, Broker, Error, Outcome, ok, raised, depth}
use distributed_task_runner.Broker.Submit.{accepted, enter, enqueue}
use distributed_task_runner.Broker.Submit
use distributed_task_runner.Broker.Preserve.{write_self}
use distributed_task_runner.Broker.Accounted.{push-objects}
use distributed_task_runner.Engine.State.{Engine, Stamp, announce, save_task}
use distributed_task_runner.Engine.Tasks.{
  Making, Round, rounds_served, make_task, after, submitted, submit,
}
use distributed_task_runner.Broker.Reserve.{attempt}
use distributed_task_runner.Broker.Taken.{Taken, self-Taken, both-Taken, attempt-Taken}

-- The task as it enters the queue.
abbrev pub entered : TaskSpec → Making → TaskEnvelope
entered spec m = accepted m.now (new_envelope (normalized spec) m.task_id m.created m.available)

-- The reference in an outcome, or another.
abbrev pub ref_of : Outcome Ref → Ref → Ref
ref_of (ok r) s = r
ref_of (raised x) s = s

raised≢ok : {x : Error} {r : Ref} → ◌≡◌ {A = Outcome Ref} (raised x) (ok r) → ⊥
raised≢ok h = cc

entered_object :
    (now : ℤ) (r : Ref) (b : Broker) → (enter now r b).objects r ≡ accepted now (b.objects r)
unfolding enter
entered_object now r b = write_self r (accepted now (b.objects r)) b.objects

enqueued_object :
    (now pushed : ℤ) (r : Ref) (b : Broker)
    → (enqueue now pushed r b).objects r ≡ accepted now (b.objects r)
unfolding enqueue
enqueued_object now pushed r b =
    ap (λ (objects : Ref → TaskEnvelope). objects r) (push-objects pushed r (enter now r b))
    ∙ entered_object now r b

made_object :
    (spec : TaskSpec) (m : Making) (e : Engine)
    → let made : Engine = make_task spec m e in
      made.queue.objects e.next_task
      ≡ new_envelope (normalized spec) m.task_id m.created m.available
unfolding make_task
made_object spec m e =
    write_self e.next_task (new_envelope (normalized spec) m.task_id m.created m.available)
      e.queue.objects

-- What a call of the queue's `submit` returns, if it returns.
submit_queue :
    (now pushed : ℤ) (s : Ref) (b : Broker) (r : Ref)
    → (Submit.submit now pushed s b).0 ≡ ok r
    → (s ≡ r) × ((Submit.submit now pushed s b).1 ≡ enqueue now pushed s b)
unfolding Submit.submit
submit_queue now pushed s b r h = elim (Bool-cases (leb b.max_depth (depth b))) [
  | inl full ↦ absurd (raised≢ok (rw full at h))
  | inr room ↦ (ap (λ o. ref_of o s) (rw room at h), rw room refl)
]

-- The rounds of threads are those of workers with a name.
abbrev pub Named : List Round → Type 0
Named = All (λ x. x.worker.worker_id ≢ "")

rounds_served-Taken :
    (xs : List Round) (s : Ref) (e : Engine)
    → Named xs
    → Taken (e.queue.objects s) ((rounds_served xs e).queue.objects s)
unfolding rounds_served
rounds_served-Taken [] s e h = self-Taken (e.queue.objects s)
rounds_served-Taken (x ∷ xs) s e (named, h) =
    let next : Engine = record e {
      queue = (attempt x.now x.leased x.worker x.completed x.lease_seconds e.queue).1;
    } in
    both-Taken (e.queue.objects s) (next.queue.objects s) _
      (attempt-Taken x.worker x.completed x.now x.leased x.lease_seconds s e.queue named)
      (rounds_served-Taken xs s next h)

submitted-Taken :
    (m : Making) (stamp : Stamp) (r s : Ref) (e : Engine)
    → Named m.before_row
    → Named m.before_return
    → Taken (e.queue.objects s) ((submitted m stamp r e).1.queue.objects s)
unfolding submitted announce save_task
submitted-Taken m stamp r s e first last =
    both-Taken (e.queue.objects s) ((rounds_served m.before_row e).queue.objects s) _
      (rounds_served-Taken m.before_row s e first) (rounds_served-Taken m.before_return s _ last)

after_queue :
    (p : Outcome Ref × Broker) (m : Making) (stamp : Stamp) (e : Engine) (r : Ref)
    → Named m.before_row
    → Named m.before_return
    → (after p e (submitted m stamp)).0 ≡ ok r
    → (p.0 ≡ ok r) × Taken (p.1.objects r) ((after p e (submitted m stamp)).1.queue.objects r)
unfolding submitted
after_queue (raised x, q) m stamp e r first last h = absurd (raised≢ok h)
after_queue (ok s, q) m stamp e r first last h =
    (h, unfold submitted in submitted-Taken m stamp s r (record e { queue = q }) first last)

-- If `submit` returns a task, that is the one made of the specification, as the queue accepts it, or
-- as a round of a thread has taken it since.
pub submit_object :
    (spec : TaskSpec) (m : Making) (stamp : Stamp) (e : Engine) (r : Ref)
    → Named m.before_row
    → Named m.before_return
    → (submit spec m stamp e).0 ≡ ok r
    → Taken (entered spec m) ((submit spec m stamp e).1.queue.objects r)
unfolding submit
submit_object spec m stamp e r first last h =
    let made : Engine = make_task spec m e in
    let (done, taken) =
      after_queue (Submit.submit m.now m.pushed e.next_task made.queue) m stamp made r first last
        h in
    let (same, enqueued) = submit_queue m.now m.pushed e.next_task made.queue r done in
    let filed : (Submit.submit m.now m.pushed e.next_task made.queue).1.objects r ≡ entered spec m =
      subst
        (λ s. (Submit.submit m.now m.pushed e.next_task made.queue).1.objects s ≡ entered spec m)
        same
        (ap (λ (q : Broker). q.objects e.next_task) enqueued
          ∙ (enqueued_object m.now m.pushed e.next_task made.queue
              ∙ ap (accepted m.now) (made_object spec m e))) in
    subst (λ t. Taken t ((submit spec m stamp e).1.queue.objects r)) filed taken
