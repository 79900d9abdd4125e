-- ===== src/Broker/Taken.antt =====
-- taskrunner/queue/broker.py: what a round of `reserve` may change of a task: that it is taken.
use distributed_task_runner.Base.{
  ◌≡◌, ◌≢◌, refl, ap, subst, ◌∙◌, ◌⊎◌, inl, inr, String, none, some, List, [], ◌∷◌, arith, eqb,
  Bool-cases, Option-cases, Option,
}
use distributed_task_runner.Base.Int.{ℤ, ◌+ℤ◌}
use distributed_task_runner.Base.Dict.{lookup}
use distributed_task_runner.Models.{TaskEnvelope, WorkerInfo}
use distributed_task_runner.Heapq.{remove}
use distributed_task_runner.Broker.Choice.{queue_cases}
use distributed_task_runner.Broker.Entries.{ReadyEntry, ready_order}
use distributed_task_runner.Broker.State.{Ref, Broker, Outcome, ok, raised, queue_at}
use distributed_task_runner.Broker.Snapshots.{promote_form}
use distributed_task_runner.Broker.Reserve.{
  Candidate, Drained, drained, missing, drain, scan, least, take_best, choose, pop_eligible, lease,
  hand_out, promote, attempt,
}

-- The task, or the same one with a worker that has a name.
pub record Taken (before after : TaskEnvelope) : Type 0 where
  pub same_spec : after.spec ≡ before.spec
  pub attempts : after.attempts ≡ before.attempts
  pub last_error : after.last_error ≡ before.last_error
  pub assigned :
      (after.assigned_worker ≡ before.assigned_worker)
      ⊎ ((worker_id : String) × (worker_id ≢ "") × (after.assigned_worker ≡ some worker_id))

pub self-Taken : (task : TaskEnvelope) → Taken task task
self-Taken task = record {
  same_spec = refl;
  attempts = refl;
  last_error = refl;
  assigned = inl refl;
}

pub both-Taken : (a b c : TaskEnvelope) → Taken a b → Taken b c → Taken a c
both-Taken a b c h k = record {
  same_spec = k.same_spec ∙ h.same_spec;
  attempts = k.attempts ∙ h.attempts;
  last_error = k.last_error ∙ h.last_error;
  assigned = elim k.assigned [
    | inr named ↦ inr named
    | inl same ↦ elim h.assigned [
      | inl was ↦ inl (same ∙ was)
      | inr (w, named, was) ↦ inr (w, named, same ∙ was)
    ]
  ];
}

drained_cases :
    (d : Drained)
    → ((retained : List ReadyEntry) × (found : List ReadyEntry) × (d ≡ drained retained found))
      ⊎ ((k : String) × (rest : List ReadyEntry) × (d ≡ missing k rest))
drained_cases (drained retained found) = inl (retained, found, refl)
drained_cases (missing k rest) = inr (k, rest, refl)

module _ (worker : WorkerInfo) (completed : List String) where
  scan-objects :
      (names : List String) (candidates : List Candidate) (b : Broker)
      → (scan worker completed names candidates b).1.objects ≡ b.objects
  unfolding scan
  scan-objects [] candidates b = refl
  scan-objects (name ∷ names) candidates b = elim (queue_cases (lookup name b.ready)) [
    | inl e ↦ rw (e, scan) (scan-objects names candidates b)
    | inr (inl e) ↦ rw (e, scan) (scan-objects names candidates b)
    | inr (inr (x, q, e)) ↦ elim (drained_cases (drain worker completed b (x ∷ q))) [
      | inl (retained, found, d) ↦ rw (e, scan, d) (scan-objects names _ _)
      | inr (k, rest, d) ↦ rw (e, scan, d) refl
    ]
  ]

take_best-objects : (best : Candidate) (b : Broker) → (take_best best b).1.objects ≡ b.objects
unfolding take_best
take_best-objects best b = elim (Option-cases (remove best.entry (queue_at best.queue b.ready))) [
  | inl e ↦ rw (e, take_best) refl
  | inr (q, e) ↦ elim (Option-cases (lookup best.entry.task_id b.tasks)) [
    | inl absent ↦ rw (e, take_best, absent) refl
    | inr (r, found) ↦ rw (e, take_best, found) refl
  ]
]

choose-objects : (p : Outcome (List Candidate) × Broker) → (choose p).1.objects ≡ p.1.objects
choose-objects (ok [], b) = refl
choose-objects (ok (c ∷ cs), b) = take_best-objects (least c cs) b
choose-objects (raised e, b) = refl

pop_eligible-objects :
    (worker : WorkerInfo) (completed : List String) (b : Broker)
    → (pop_eligible worker completed b).1.objects ≡ b.objects
unfolding pop_eligible
pop_eligible-objects worker completed b =
    choose-objects (scan worker completed worker.queues [] b)
    ∙ scan-objects worker completed worker.queues [] b

lease-Taken :
    (worker_id : String) (deadline : ℤ) (r s : Ref) (b : Broker)
    → worker_id ≢ ""
    → Taken (b.objects s) ((lease worker_id deadline r b).objects s)
unfolding lease
lease-Taken worker_id deadline r s b named = elim (Bool-cases (eqb r s)) [
  | inl e ↦
      let same : b.objects r ≡ b.objects s = ap b.objects (ground (arith, e)) in
      rw e (record {
        same_spec = ap (λ t. t.spec) same;
        attempts = ap (λ t. t.attempts) same;
        last_error = ap (λ t. t.last_error) same;
        assigned = inr (worker_id, named, refl);
      })
  | inr e ↦ rw e (self-Taken (b.objects s))
]

hand_out-Taken :
    (worker_id : String) (deadline : ℤ) (s : Ref) (p : Outcome (Option Ref) × Broker)
    → worker_id ≢ ""
    → Taken (p.1.objects s) ((hand_out worker_id deadline p).1.objects s)
hand_out-Taken worker_id deadline s (ok (some r), b) named =
    lease-Taken worker_id deadline r s b named
hand_out-Taken worker_id deadline s (ok none, b) named = self-Taken (b.objects s)
hand_out-Taken worker_id deadline s (raised e, b) named = self-Taken (b.objects s)

-- A round of `reserve` for a worker with a name takes a task or leaves it as it is.
pub attempt-Taken :
    (worker : WorkerInfo) (completed : List String) (now leased lease_seconds : ℤ) (s : Ref)
    (b : Broker)
    → worker.worker_id ≢ ""
    → Taken (b.objects s) ((attempt now leased worker completed lease_seconds b).1.objects s)
unfolding attempt
attempt-Taken worker completed now leased lease_seconds s b named =
    let (ready, delayed, form) = promote_form now b in
    let found = pop_eligible worker completed (promote now b) in
    let same : found.1.objects s ≡ b.objects s =
      ap (λ (g : Ref → TaskEnvelope). g s)
        (pop_eligible-objects worker completed (promote now b)
          ∙ ap (λ (x : Broker). x.objects) form) in
    subst (λ t. Taken t ((attempt now leased worker completed lease_seconds b).1.objects s)) same
      (hand_out-Taken worker.worker_id (leased +ℤ lease_seconds) s found named)
