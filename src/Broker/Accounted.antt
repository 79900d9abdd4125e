-- ===== src/Broker/Accounted.antt =====
-- taskrunner/queue/broker.py: where a task of `_tasks` is. A task that waits has an entry in the
-- heap of its queue or among the delayed, and one that runs is in flight.
use distributed_task_runner.Base.{
  ℕ, ◌≡◌, ◌≢◌, sym, ap, subst, ◌∙◌, ◌⊎◌, inl, inr, String, Bool, true, false, some, List, arith,
  ◌==◌, eq_iff, eqb, Bool-cases, Has,
}
use distributed_task_runner.Base.Int.{ℤ, ltb_ℤ}
use distributed_task_runner.Base.Dict.{Dict, lookup, erase, lookup-erase}
use distributed_task_runner.Base.Text.{elem}
use distributed_task_runner.Models.{
  TaskEnvelope, TaskStatus, TaskSpec, queued, retrying, running, acked,
}
use distributed_task_runner.Heapq.Laws.{Has-heappush}
use distributed_task_runner.Broker.Entries.{ReadyEntry, DelayedEntry, ready_order, delayed_order}
use distributed_task_runner.Broker.State.{
  Ref, Broker, is_terminal, queue_at, push_ready, push_delayed, push,
}
use distributed_task_runner.Broker.Settle.{find_task}
use distributed_task_runner.Broker.WellFormed.{WellFormed, queue_at-insert}
use distributed_task_runner.Broker.Preserve.{find_task-Known}
use distributed_task_runner.Broker.Filed.{push-Pushed}

-- The statuses of a task that waits for a worker.
unfoldable pub waits : TaskStatus → Bool
waits queued = true
waits retrying = true
waits _ = false

abbrev pub InReady : String → TaskSpec → Dict (List ReadyEntry) → Type 0
InReady k spec ready = (e : ReadyEntry) × Has e (queue_at spec.queue ready) × (e.task_id ≡ k)

abbrev pub InDelayed : String → List DelayedEntry → Type 0
InDelayed k delayed = (e : DelayedEntry) × Has e delayed × (e.task_id ≡ k)

abbrev pub Pending : String → TaskSpec → Broker → Type 0
Pending k spec b = InReady k spec b.ready ⊎ InDelayed k b.delayed

-- What accounts for the task `r` with the identifier `k`.
pub data Accounted (k : String) (r : Ref) (b : Broker) : Type 0 where
  dropped : elem k b.cancelled ≡ true → Accounted k r b
  waiting : waits (b.objects r).status ≡ true → Pending k (b.objects r).spec b → Accounted k r b
  leased : (b.objects r).status ≡ running → lookup k b.inflight ≡ some r → Accounted k r b
  settled : is_terminal (b.objects r).status ≡ true → Accounted k r b
  acknowledged : (b.objects r).status ≡ acked → Accounted k r b

-- Every task of `_tasks` is accounted for.
abbrev pub AllAccounted : Broker → Type 0
AllAccounted b = (k : String) (r : Ref) → lookup k b.tasks ≡ some r → Accounted k r b

-- The same but for the task `r`.
abbrev pub OthersAccounted : Ref → Broker → Type 0
OthersAccounted r b = (j : String) (s : Ref) → lookup j b.tasks ≡ some s → s ≢ r → Accounted j s b

-- What is accounted for stays so where its status, its specification and its lease are as before,
-- a cancelled task stays so, and one that waits keeps an entry.
pub Accounted-move :
    (k : String) (r : Ref) (b b' : Broker)
    → (b'.objects r).status ≡ (b.objects r).status
    → (b'.objects r).spec ≡ (b.objects r).spec
    → (elem k b.cancelled ≡ true → elem k b'.cancelled ≡ true)
    → (lookup k b.inflight ≡ some r → lookup k b'.inflight ≡ some r)
    → (waits (b.objects r).status ≡ true
        → Pending k (b.objects r).spec b
        → (elem k b.cancelled ≡ true) ⊎ Pending k (b.objects r).spec b')
    → Accounted k r b
    → Accounted k r b'
Accounted-move k r b b' st sp c f p (dropped d) = dropped (c d)
Accounted-move k r b b' st sp c f p (waiting w q) = elim (p w q) [
  | inl d ↦ dropped (c d)
  | inr m ↦ waiting (rw st w) (subst (λ x. Pending k x b') (sym sp) m)
]
Accounted-move k r b b' st sp c f p (leased w q) = leased (st ∙ w) (f q)
Accounted-move k r b b' st sp c f p (settled w) = settled (rw st w)
Accounted-move k r b b' st sp c f p (acknowledged w) = acknowledged (st ∙ w)

-- What `_push` leaves alone.
module _ (now : ℤ) (r : Ref) (b : Broker) where
  pub push-objects : (push now r b).objects ≡ b.objects
  push-objects = ap (λ (x : Broker). x.objects) (push-Pushed now r b).form

  pub push-tasks : (push now r b).tasks ≡ b.tasks
  push-tasks = ap (λ (x : Broker). x.tasks) (push-Pushed now r b).form

  pub push-cancelled : (push now r b).cancelled ≡ b.cancelled
  push-cancelled = ap (λ (x : Broker). x.cancelled) (push-Pushed now r b).form

  pub push-inflight : (push now r b).inflight ≡ b.inflight
  push-inflight = ap (λ (x : Broker). x.inflight) (push-Pushed now r b).form

-- `_push` drops no entry.
pub push_ready-InReady :
    (k : String) (spec : TaskSpec) (task : TaskEnvelope) (sequence : ℕ)
    (ready : Dict (List ReadyEntry))
    → InReady k spec ready
    → InReady k spec (push_ready task sequence ready)
unfolding push_ready
push_ready-InReady k spec task sequence ready (e, m, named) =
    elim (Bool-cases (task.spec.queue == spec.queue)) [
      | inl t ↦
          let here : Has e (queue_at task.spec.queue ready) =
            subst (λ n. Has e (queue_at n ready)) (sym ((eq_iff task.spec.queue spec.queue).0 t))
              m in
          (
            e,
            rw (queue_at-insert, t) (Has-heappush (queue_at task.spec.queue ready) _ e (inr here)),
            named,
          )
      | inr f ↦ (e, rw (queue_at-insert, f) m, named)
    ]

pub push-Pending :
    (k : String) (spec : TaskSpec) (now : ℤ) (r : Ref) (b : Broker)
    → Pending k spec b
    → Pending k spec (push now r b)
unfolding push push_delayed
push-Pending k spec now r b p = elim (Bool-cases (ltb_ℤ now (b.objects r).available_at)) [
  | inl t ↦ rw t (elim p [
    | inl m ↦ inl m
    | inr (e, m, named) ↦ inr (e, Has-heappush b.delayed _ e (inr m), named)
  ])
  | inr f ↦
      rw f (elim p [
        | inl m ↦ inl (push_ready-InReady k spec (b.objects r) _ b.ready m)
        | inr m ↦ inr m
      ])
]

-- The task that is pushed has an entry.
pub push-Pending_self :
    (now : ℤ) (r : Ref) (b : Broker)
    → Pending (b.objects r).task_id (b.objects r).spec (push now r b)
push-Pending_self now r b = elim (push-Pushed now r b).filed [
  | inl (late, (e, m, named, due)) ↦ inr (e, m, named)
  | inr (due, (e, m, named, priority, created)) ↦ inl (e, m, named)
]

found_flying :
    (k : String) (b : Broker) (s r : Ref)
    → lookup k b.inflight ≡ some s
    → find_task k b ≡ some r
    → s ≡ r
unfolding find_task
found_flying k b s r flying found =
    let p : some s ≡ some r = (rw (flying, find_task) at found) in ground arith

-- The end of `ack`, `complete` and `retry`: the task that was found is accounted for, it is out of
-- flight, and nothing else has changed but that entries may have come.
pub settle-AllAccounted :
    (k : String) (r : Ref) (b b' : Broker)
    → WellFormed b
    → find_task k b ≡ some r
    → OthersAccounted r b
    → b'.tasks ≡ b.tasks
    → b'.cancelled ≡ b.cancelled
    → b'.inflight ≡ erase k b.inflight
    → ((s : Ref) → s ≢ r → b'.objects s ≡ b.objects s)
    → ((j : String) (spec : TaskSpec) → Pending j spec b → Pending j spec b')
    → Accounted k r b'
    → AllAccounted b'
settle-AllAccounted k r b b' h found others tasks cancelled inflight same more done j s listed =
    elim (Bool-cases (eqb s r)) [
      | inl t ↦
          let p : s ≡ r = ground arith in
          let is_k : j ≡ k =
            sym (h.task_names j s was) ∙ ap (λ x. (b.objects x).task_id) p ∙ named in
          subst (λ x. Accounted j x b') (sym p) (subst (λ i. Accounted i r b') (sym is_k) done)
      | inr f ↦
          let other : s ≢ r = λ p. absurd (ground arith) in
          Accounted-move j s b b' (ap (λ x. x.status) (same s other))
            (ap (λ x. x.spec) (same s other)) (λ d. rw cancelled d) (landed other)
            (λ w p. inr (more j (b.objects s).spec p)) (others j s was other)
    ]
  where
    was : lookup j b.tasks ≡ some s
    was = subst (λ m. lookup j m ≡ some s) tasks listed

    named : (b.objects r).task_id ≡ k
    named = (find_task-Known k b r h found).0

    landed : s ≢ r → lookup j b.inflight ≡ some s → lookup j b'.inflight ≡ some s
    landed other flying = elim (Bool-cases (k == j)) [
      | inl t ↦
          let flying' : lookup k b.inflight ≡ some s =
            subst (λ i. lookup i b.inflight ≡ some s) (sym ((eq_iff k j).0 t)) flying in
          absurd (other (found_flying k b s r flying' found))
      | inr f ↦ rw (inflight, lookup-erase, f) flying
    ]
