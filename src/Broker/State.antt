-- ===== src/Broker/State.antt =====
-- taskrunner/queue/broker.py: the state of `InMemoryTaskQueue`, its errors, and what its methods
-- share: `depth` and `_push`. A task is an object that `_tasks`, `_inflight`, `_dead_letter` and
-- the callers share: `objects` gives the present fields of the object behind a reference.
-- Each reading of `time()` or `monotonic()` is an argument, named after its place.
use distributed_task_runner.Base.{
  ℕ, suc, ◌-◌, String, Bool, true, false, none, some, List, [], ◌∷◌, eqb, if◌then◌else◌, length,
  select,
}
use distributed_task_runner.Base.Int.{ℤ, ltb_ℤ}
use distributed_task_runner.Base.Dict.{Dict, lookup, insert, values}
use distributed_task_runner.Models.{
  TaskEnvelope, TaskStatus, succeeded, failed, cancelled, dead_lettered,
}
use distributed_task_runner.Heapq.{heappush}
use distributed_task_runner.Broker.Entries.{ReadyEntry, DelayedEntry, ready_order, delayed_order}

pub data Error : Type 0 where
  queue_full : (depth max_depth : ℕ) → Error
  task_not_found : String → Error
  key_error : String → Error
  value_error : Error

pub data Outcome {ℓ} (A : Type ℓ) : Type ℓ where
  ok : A → Outcome A
  raised : Error → Outcome A

-- A reference to a task object.
abbrev pub Ref : Type 0
Ref = ℕ

-- `max_depth` below 0 acts as 0 does. `cancelled` is a set; the sequence counts the entries.
pub record Broker : Type 0 where
  pub max_depth : ℕ
  pub objects : Ref → TaskEnvelope
  pub ready : Dict (List ReadyEntry)
  pub delayed : List DelayedEntry
  pub tasks : Dict Ref
  pub inflight : Dict Ref
  pub dead_letter : Dict Ref
  pub cancelled : List String
  pub sequence : ℕ

-- `InMemoryTaskQueue(max_depth)`, over the objects that the program has so far.
unfoldable pub new_queue : ℕ → (Ref → TaskEnvelope) → Broker
new_queue max_depth objects = record {
  max_depth = max_depth;
  objects = objects;
  ready = [];
  delayed = [];
  tasks = [];
  inflight = [];
  dead_letter = [];
  cancelled = [];
  sequence = 0;
}

-- An assignment to fields of the object behind `r`.
abbrev pub write : Ref → TaskEnvelope → (Ref → TaskEnvelope) → Ref → TaskEnvelope
write r task objects s = if eqb r s then task else objects s

unfoldable pub is_terminal : TaskStatus → Bool
is_terminal succeeded = true
is_terminal failed = true
is_terminal cancelled = true
is_terminal dead_lettered = true
is_terminal _ = false

unfoldable pub depth : Broker → ℕ
unfolding values is_terminal
depth b = length b.tasks - length (select (λ r. is_terminal (b.objects r).status) (values b.tasks))

-- `self._ready[name]` on a `defaultdict(list)`.
unfoldable pub queue_at : String → Dict (List ReadyEntry) → List ReadyEntry
unfolding lookup
queue_at name ready = elim (lookup name ready) [ none ↦ [] | some q ↦ q ]

unfoldable pub push_ready : TaskEnvelope → ℕ → Dict (List ReadyEntry) → Dict (List ReadyEntry)
unfolding insert queue_at heappush
push_ready task sequence ready =
    insert task.spec.queue
      (heappush (queue_at task.spec.queue ready) (record {
        priority = task.spec.priority;
        created_at = task.created_at;
        sequence = sequence;
        task_id = task.task_id;
      }))
      ready

unfoldable pub push_delayed : TaskEnvelope → ℕ → List DelayedEntry → List DelayedEntry
unfolding heappush
push_delayed task sequence delayed =
    heappush delayed
      (record { available_at = task.available_at; sequence = sequence; task_id = task.task_id })

-- `_push`
unfoldable pub push : (now : ℤ) → Ref → Broker → Broker
unfolding push_ready push_delayed
push now r b =
    let task = b.objects r in
    let sequence = suc b.sequence in
    if ltb_ℤ now task.available_at
    then record b { sequence = sequence; delayed = push_delayed task sequence b.delayed }
    else record b { sequence = sequence; ready = push_ready task sequence b.ready }

-- One more result in front of those of a loop.
abbrev pub prepend : Ref → Outcome (List Ref) × Broker → Outcome (List Ref) × Broker
prepend r (ok rs, b) = (ok (r ∷ rs), b)
prepend r (raised e, b) = (raised e, b)
