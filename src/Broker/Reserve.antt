-- ===== src/Broker/Reserve.antt =====
-- taskrunner/queue/broker.py: `_promote_delayed_locked`, `_pop_eligible_locked` and `reserve`.
use distributed_task_runner.Base.{
  String, Bool, true, false, ◌&&◌, ◌||◌, Option, none, some, List, [], ◌∷◌, ◌++◌, map,
  if◌then◌else◌,
}
use distributed_task_runner.Base.Int.{ℤ, leb_ℤ, ◌+ℤ◌}
use distributed_task_runner.Base.Dict.{lookup, insert}
use distributed_task_runner.Base.Text.{elem, subset}
use distributed_task_runner.Models.{
  TaskEnvelope, WorkerInfo, accepts, running, cancelled, dead_lettered, status_eqb,
}
use distributed_task_runner.Heapq.{push_all, heapify, remove}
use distributed_task_runner.Broker.Entries.{
  ReadyEntry, DelayedEntry, ready_le, ready_same, ready_order,
}
use distributed_task_runner.Broker.State.{
  key_error, value_error, Outcome, ok, raised, Ref, Broker, write, queue_at, push_ready,
}

-- A delayed entry whose time has come goes to the ready queue of its task, unless the task is
-- gone, cancelled or dead.
unfoldable pub revive : DelayedEntry → Broker → Broker
unfolding lookup push_ready
revive e b = elim (lookup e.task_id b.tasks) [
  | none ↦ b
  | some r ↦
      let task = b.objects r in
      if status_eqb task.status cancelled || status_eqb task.status dead_lettered
      then b
      else record b { ready = push_ready task b.sequence b.ready }
]

-- The loop on `_delayed`, whose entries are those of the list.
unfoldable pub promote_from : (now : ℤ) → List DelayedEntry → Broker → Broker
unfolding revive
promote_from now [] b = record b { delayed = [] }
promote_from now (e ∷ q) b =
    let rest = promote_from now q (revive e b) in
    if leb_ℤ e.available_at now then rest else record b { delayed = e ∷ q }

-- `_promote_delayed_locked`
unfoldable pub promote : (now : ℤ) → Broker → Broker
unfolding promote_from
promote now b = promote_from now b.delayed b

-- What the worker may take, of the tasks whose dependencies are complete.
unfoldable pub eligible : WorkerInfo → List String → TaskEnvelope → Bool
unfolding accepts subset
eligible worker completed task = accepts worker task && subset task.spec.depends_on completed

-- The inner loop on one queue: the entries that it keeps and those that are candidates. A task that
-- is not in `_tasks` raises a KeyError, when the entries behind it are still in the queue.
pub data Drained : Type 0 where
  drained : (retained candidates : List ReadyEntry) → Drained
  missing : String → (queue : List ReadyEntry) → Drained

abbrev pub retain : ReadyEntry → Bool → Drained → Drained
retain e true (drained retained candidates) = drained (e ∷ retained) (e ∷ candidates)
retain e false (drained retained candidates) = drained (e ∷ retained) candidates
retain e found (missing k q) = missing k q

unfoldable pub drain : WorkerInfo → List String → Broker → List ReadyEntry → Drained
unfolding elem lookup eligible
drain worker completed b [] = drained [] []
drain worker completed b (e ∷ q) =
    let rest = drain worker completed b q in
    if elem e.task_id b.cancelled then rest else elim (lookup e.task_id b.tasks) [
      | none ↦ missing e.task_id q
      | some r ↦ retain e (eligible worker completed (b.objects r)) rest
    ]

pub record Candidate : Type 0 where
  pub entry : ReadyEntry
  pub queue : String

abbrev pub named : String → List ReadyEntry → List Candidate
named name = map (λ e. record { entry = e; queue = name })

-- The outer loop, on the worker's queues in the order in which the set is visited.
unfoldable pub scan :
    WorkerInfo
    → List String
    → List String
    → List Candidate
    → Broker
    → Outcome (List Candidate) × Broker
unfolding lookup insert drain push_all
scan worker completed [] candidates b = (ok candidates, b)
scan worker completed (name ∷ names) candidates b = elim (lookup name b.ready) [
  | none ↦ scan worker completed names candidates b
  | some [] ↦ scan worker completed names candidates b
  | some (e ∷ q) ↦ elim (drain worker completed b (e ∷ q)) [
    | missing k rest ↦ (raised (key_error k), record b { ready = insert name rest b.ready })
    | drained retained found ↦
        scan worker completed names (candidates ++ named name found)
          (record b { ready = insert name (push_all [] retained) b.ready })
  ]
]

unfoldable pub better : Candidate → Candidate → Candidate
unfolding ready_le
better best c = if ready_le best.entry c.entry then best else c

-- `min(candidates, key=…)`: the first of the least.
unfoldable pub least : Candidate → List Candidate → Candidate
unfolding better
least best [] = best
least best (c ∷ cs) = least (better best c) cs

-- The entry leaves its queue, and the task that it names is the result.
unfoldable pub take_best : Candidate → Broker → Outcome (Option Ref) × Broker
unfolding insert queue_at remove ready_same heapify lookup
take_best best b = elim (remove best.entry (queue_at best.queue b.ready)) [
  | none ↦ (raised value_error, b)
  | some q ↦
      let b' : Broker = record b { ready = insert best.queue (heapify q) b.ready } in
      elim (lookup best.entry.task_id b'.tasks) [
        | none ↦ (raised (key_error best.entry.task_id), b')
        | some r ↦ (ok (some r), b')
      ]
]

abbrev pub choose : Outcome (List Candidate) × Broker → Outcome (Option Ref) × Broker
choose (ok [], b) = (ok none, b)
choose (ok (c ∷ cs), b) = take_best (least c cs) b
choose (raised e, b) = (raised e, b)

-- `_pop_eligible_locked`
unfoldable pub pop_eligible : WorkerInfo → List String → Broker → Outcome (Option Ref) × Broker
unfolding scan least take_best
pop_eligible worker completed b = choose (scan worker completed worker.queues [] b)

-- The lease of a task that was found.
unfoldable pub lease : (worker_id : String) (deadline : ℤ) → Ref → Broker → Broker
unfolding insert
lease worker_id deadline r b =
    let task = record (b.objects r) {
      status = running;
      assigned_worker = some worker_id;
      lease_deadline = some deadline;
    } in
    record b { objects = write r task b.objects; inflight = insert task.task_id r b.inflight }

abbrev pub hand_out : String → ℤ → Outcome (Option Ref) × Broker → Outcome (Option Ref) × Broker
hand_out worker_id deadline (ok (some r), b) = (ok (some r), lease worker_id deadline r b)
hand_out worker_id deadline (ok none, b) = (ok none, b)
hand_out worker_id deadline (raised e, b) = (raised e, b)

-- One round of the loop of `reserve`, under the lock: `now` is read by the promotion, `leased` for
-- the deadline of the lease.
unfoldable pub attempt :
    (now leased : ℤ)
    → WorkerInfo
    → List String
    → (lease_seconds : ℤ) → Broker
    → Outcome (Option Ref) × Broker
unfolding promote pop_eligible lease ◌+ℤ◌
attempt now leased worker completed lease_seconds b =
    hand_out worker.worker_id (leased +ℤ lease_seconds)
      (pop_eligible worker completed (promote now b))
