-- ===== src/Broker/Preserve.antt =====
-- taskrunner/queue/broker.py: each method keeps the queue well formed, whether it returns or raises.
use distributed_task_runner.Base.{
  ◌≡◌, refl, sym, ap, subst, inl, inr, String, Option, some, List, [], ◌∷◌, arith, leb, Bool-cases,
  Option-cases, All-map,
}
use distributed_task_runner.Base.Int.{ℤ}
use distributed_task_runner.Base.Dict.{Dict, lookup, insert}
use distributed_task_runner.Models.{
  TaskEnvelope, TaskStatus, status_eqb, cancelled, dead_lettered, retrying,
}
use distributed_task_runner.Broker.Entries.{ready_order, delayed_order}
use distributed_task_runner.Broker.State.{
  Ref, Broker, Outcome, ok, raised, write, queue_at, depth, prepend,
}
use distributed_task_runner.Broker.Submit.{accepted, enter, enqueue, submit, Arrival, submit_many}
use distributed_task_runner.Broker.Settle.{
  find_task, release, ack, ended, complete, counted, exhausted, backoff, retry_task, retry, cancel,
  and_then, expired, unassign, requeue_one, requeue_items, requeue_expired_leases,
}
use distributed_task_runner.Broker.WellFormed.{
  Known, WellFormed, Known-insert_self, Known-insert, push-WellFormed, Names-write,
  write-WellFormed, Within-insert, Names-insert, lookup_of_erase,
}

pub write_self :
    (r : Ref) (task : TaskEnvelope) (objects : Ref → TaskEnvelope) → write r task objects r ≡ task
write_self r task objects = ground arith

enter-Known :
    (now : ℤ) (r : Ref) (b : Broker)
    → Known (enter now r b).tasks ((enter now r b).objects r).task_id
unfolding enter
enter-Known now r b =
    let task = accepted now (b.objects r) in
    rw (write_self r task b.objects) (Known-insert_self task.task_id r b.tasks)

-- A task enters `_tasks`, and everything that was known stays known.
enter-WellFormed : (now : ℤ) (r : Ref) (b : Broker) → WellFormed b → WellFormed (enter now r b)
unfolding enter accepted
enter-WellFormed now r b h = record {
  ready = record {
    known = λ name. All-map (queue_at name b.ready) (λ e k. grow e.task_id k) (h.ready.known name);
    heap = h.ready.heap;
  };
  delayed = All-map b.delayed (λ e k. grow e.task_id k) h.delayed;
  delayed_heap = h.delayed_heap;
  inflight = λ k s e. grow k (h.inflight k s e);
  dead = λ k s e. grow k (h.dead k s e);
  task_names =
      Names-insert (write r task b.objects) b.tasks task.task_id r
        (ap (λ t. t.task_id) (write_self r task b.objects))
        (Names-write b.objects r task b.tasks refl h.task_names);
  inflight_names = Names-write b.objects r task b.inflight refl h.inflight_names;
}
  where
    task : TaskEnvelope
    task = accepted now (b.objects r)

    grow : (k : String) → Known b.tasks k → Known (insert task.task_id r b.tasks) k
    grow k = Known-insert k task.task_id r b.tasks

pub enqueue-WellFormed :
    (now pushed : ℤ) (r : Ref) (b : Broker) → WellFormed b → WellFormed (enqueue now pushed r b)
unfolding enqueue
enqueue-WellFormed now pushed r b h =
    push-WellFormed pushed r (enter now r b) (enter-WellFormed now r b h) (enter-Known now r b)

pub submit-WellFormed :
    (now pushed : ℤ) (r : Ref) (b : Broker) → WellFormed b → WellFormed (submit now pushed r b).1
unfolding submit
submit-WellFormed now pushed r b h = elim (Bool-cases (leb b.max_depth (depth b))) [
  | inl t ↦ rw t h
  | inr f ↦ rw f (enqueue-WellFormed now pushed r b h)
]

pub prepend_state : (r : Ref) (m : Outcome (List Ref) × Broker) → (prepend r m).1 ≡ m.1
prepend_state r (ok rs, b) = refl
prepend_state r (raised e, b) = refl

pub submit_many-WellFormed :
    (batch : List Arrival) (b : Broker) → WellFormed b → WellFormed (submit_many batch b).1
unfolding submit_many
submit_many-WellFormed [] b h = h
submit_many-WellFormed (a ∷ batch) b h = elim (Bool-cases (leb b.max_depth (depth b))) [
  | inl t ↦ rw t h
  | inr f ↦
      rw (f, prepend_state a.task (submit_many batch (enqueue a.now a.pushed a.task b)))
        (submit_many-WellFormed batch _ (enqueue-WellFormed a.now a.pushed a.task b h))
]

-- The task that `ack`, `complete` and `retry` find has the identifier that they are given.
pub find_task-Known :
    (k : String) (b : Broker) (r : Ref)
    → WellFormed b
    → find_task k b ≡ some r
    → ((b.objects r).task_id ≡ k) × Known b.tasks k
unfolding find_task
find_task-Known k b r h e = elim (Option-cases (lookup k b.inflight)) [
  | inl absent ↦
      let e' : lookup k b.tasks ≡ some r = (rw (absent, find_task) at e) in
      (h.task_names k r e', (r, e'))
  | inr (s, found) ↦
      let e' : lookup k b.inflight ≡ some r = ground arith in
      (h.inflight_names k r e', h.inflight k r e')
]

pub release-WellFormed : (k : String) (b : Broker) → WellFormed b → WellFormed (release k b)
unfolding release
release-WellFormed k b h = record {
  ready = h.ready;
  delayed = h.delayed;
  delayed_heap = h.delayed_heap;
  inflight = λ j r e. h.inflight j r (lookup_of_erase k j r b.inflight e);
  dead = h.dead;
  task_names = h.task_names;
  inflight_names = λ j r e. h.inflight_names j r (lookup_of_erase k j r b.inflight e);
}

dead-WellFormed :
    (k : String) (r : Ref) (b : Broker)
    → WellFormed b
    → Known b.tasks k
    → WellFormed (record b { dead_letter = insert k r b.dead_letter })
dead-WellFormed k r b h known = record {
  ready = h.ready;
  delayed = h.delayed;
  delayed_heap = h.delayed_heap;
  inflight = h.inflight;
  dead = Within-insert b.tasks b.dead_letter k r known h.dead;
  task_names = h.task_names;
  inflight_names = h.inflight_names;
}

pub ack-WellFormed : (k : String) (b : Broker) → WellFormed b → WellFormed (ack k b).1
unfolding ack
ack-WellFormed k b h = elim (Option-cases (find_task k b)) [
  | inl absent ↦ rw (absent, ack) (release-WellFormed k b h)
  | inr (r, found) ↦ rw (found, ack) (write-WellFormed r _ _ (release-WellFormed k b h) refl)
]

pub complete-WellFormed :
    (k : String) (status : TaskStatus) (error : Option String) (b : Broker)
    → WellFormed b
    → WellFormed (complete k status error b).1
unfolding complete ended
complete-WellFormed k status error b h = elim (Option-cases (find_task k b)) [
  | inl absent ↦ rw (absent, complete) (release-WellFormed k b h)
  | inr (r, found) ↦
      let h' = write-WellFormed r _ _ (release-WellFormed k b h) refl in
      elim (Bool-cases (status_eqb status dead_lettered)) [
        | inl t ↦
            rw (found, complete, t) (dead-WellFormed k r _ h' (find_task-Known k b r h found).1)
        | inr f ↦ rw (found, complete, f) h'
      ]
]

retry_task-WellFormed :
    (now pushed : ℤ) (task : TaskEnvelope) (r : Ref) (b : Broker)
    → WellFormed b
    → task.task_id ≡ (b.objects r).task_id
    → Known b.tasks task.task_id
    → WellFormed (retry_task now pushed task r b)
unfolding retry_task
retry_task-WellFormed now pushed task r b h same known = elim (Bool-cases (exhausted task)) [
  | inl t ↦ rw t (
      dead-WellFormed task.task_id r _
        (write-WellFormed r (record task { status = dead_lettered }) b h same) known)
  | inr f ↦
      let again = record task { status = retrying; available_at = backoff now task } in
      rw f (
        push-WellFormed pushed r _ (write-WellFormed r again b h same)
          (rw (write_self r again b.objects) known))
]

pub retry-WellFormed :
    (now pushed : ℤ) (k reason : String) (b : Broker)
    → WellFormed b
    → WellFormed (retry now pushed k reason b).1
unfolding retry counted
retry-WellFormed now pushed k reason b h = elim (Option-cases (find_task k b)) [
  | inl absent ↦ rw (absent, retry) (release-WellFormed k b h)
  | inr (r, found) ↦
      let (named, known) = find_task-Known k b r h found in
      rw (found, retry)
        (retry_task-WellFormed now pushed (counted reason (b.objects r)) r (release k b)
          (release-WellFormed k b h) refl (subst (Known b.tasks) (sym named) known))
]

pub cancel-WellFormed : (k : String) (b : Broker) → WellFormed b → WellFormed (cancel k b).1
unfolding cancel
cancel-WellFormed k b h = elim (Option-cases (lookup k b.tasks)) [
  | inl absent ↦ rw (absent, cancel) h
  | inr (r, found) ↦
      let h' = write-WellFormed r (record (b.objects r) { status = cancelled }) b h refl in
      rw (found, cancel)
        (release-WellFormed k _ (record {
          ready = h'.ready;
          delayed = h'.delayed;
          delayed_heap = h'.delayed_heap;
          inflight = h'.inflight;
          dead = h'.dead;
          task_names = h'.task_names;
          inflight_names = h'.inflight_names;
        }))
]

pub requeue_one-WellFormed :
    (now : ℤ) (clock : ℤ × ℤ) (k : String) (r : Ref) (b : Broker)
    → WellFormed b
    → WellFormed (requeue_one now clock k r b).1
unfolding requeue_one unassign
requeue_one-WellFormed now (again, pushed) k r b h =
    retry-WellFormed again pushed k "lease expired" (unassign k r b)
      (write-WellFormed r _ (release k b) (release-WellFormed k b h) refl)

pub and_then-state :
    (P : Broker → Type 0) (m : Outcome Ref × Broker) (rest : Broker → Outcome (List Ref) × Broker)
    → P m.1
    → ((b : Broker) → P b → P (rest b).1)
    → P (and_then m rest).1
and_then-state P (raised e, b) rest h keep = h
and_then-state P (ok r, b) rest h keep = rw (prepend_state r (rest b)) (keep b h)

requeue_items-WellFormed :
    (now : ℤ) (clock : String → ℤ × ℤ) (items : Dict Ref) (b : Broker)
    → WellFormed b
    → WellFormed (requeue_items now clock items b).1
unfolding requeue_items
requeue_items-WellFormed now clock [] b h = h
requeue_items-WellFormed now clock ((k, r) ∷ items) b h =
    elim (Bool-cases (expired now (b.objects r))) [
      | inl t ↦
          rw (t, requeue_items)
            (and_then-state WellFormed (requeue_one now (clock k) k r b)
              (requeue_items now clock items) (requeue_one-WellFormed now (clock k) k r b h)
              (requeue_items-WellFormed now clock items))
      | inr f ↦ rw (f, requeue_items) (requeue_items-WellFormed now clock items b h)
    ]

pub requeue_expired_leases-WellFormed :
    (now : ℤ) (clock : String → ℤ × ℤ) (b : Broker)
    → WellFormed b
    → WellFormed (requeue_expired_leases now clock b).1
unfolding requeue_expired_leases
requeue_expired_leases-WellFormed now clock b h = requeue_items-WellFormed now clock b.inflight b h
