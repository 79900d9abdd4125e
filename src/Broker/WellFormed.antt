-- ===== src/Broker/WellFormed.antt =====
-- taskrunner/queue/broker.py: what each method keeps true of `InMemoryTaskQueue`, and the lemmas on
-- the parts that the methods share.
use distributed_task_runner.Base.{
  ℕ, ◌≡◌, sym, subst, ◌∙◌, inl, inr, String, some, List, arith, eqb, ◌==◌, eq_iff, if◌then◌else◌,
  Bool-cases, All,
}
use distributed_task_runner.Base.Int.{ℤ, ltb_ℤ}
use distributed_task_runner.Base.Dict.{Dict, lookup, insert, erase, lookup-insert, lookup-erase}
use distributed_task_runner.Models.{TaskEnvelope}
use distributed_task_runner.Heapq.{IsHeap}
use distributed_task_runner.Heapq.Laws.{All-heappush, heappush-IsHeap}
use distributed_task_runner.Broker.Entries.{ReadyEntry, ready_order, delayed_order}
use distributed_task_runner.Broker.State.{
  Ref, Broker, new_queue, write, queue_at, push_ready, push_delayed, push,
}

-- An identifier in `_tasks`.
abbrev pub Known : Dict Ref → String → Type 0
Known tasks k = (r : Ref) × (lookup k tasks ≡ some r)

-- A dict maps an identifier to an object that has it.
abbrev pub Names : (Ref → TaskEnvelope) → Dict Ref → Type 0
Names objects m = (k : String) (r : Ref) → lookup k m ≡ some r → (objects r).task_id ≡ k

abbrev pub Within : Dict Ref → Dict Ref → Type 0
Within tasks m = (k : String) (r : Ref) → lookup k m ≡ some r → Known tasks k

-- The entries of each heap name known tasks, and are in order.
pub record ReadyOk (tasks : Dict Ref) (ready : Dict (List ReadyEntry)) : Type 0 where
  pub known : (name : String) → All (λ e. Known tasks e.task_id) (queue_at name ready)
  pub heap : (name : String) → IsHeap (queue_at name ready)

pub record WellFormed (b : Broker) : Type 0 where
  pub ready : ReadyOk b.tasks b.ready
  pub delayed : All (λ e. Known b.tasks e.task_id) b.delayed
  pub delayed_heap : IsHeap b.delayed
  pub inflight : Within b.tasks b.inflight
  pub dead : Within b.tasks b.dead_letter
  pub task_names : Names b.objects b.tasks
  pub inflight_names : Names b.objects b.inflight

pub queue_at-insert :
    (name j : String) (q : List ReadyEntry) (ready : Dict (List ReadyEntry))
    → queue_at j (insert name q ready) ≡ (if name == j then q else queue_at j ready)
unfolding queue_at
queue_at-insert name j q ready = ground (arith, lookup-insert name j q ready)

pub Known-insert :
    (k j : String) (r : Ref) (tasks : Dict Ref) → Known tasks k → Known (insert j r tasks) k
Known-insert k j r tasks (s, e) = elim (Bool-cases (j == k)) [
  | inl t ↦ (r, rw (lookup-insert, t))
  | inr f ↦ (s, rw (lookup-insert, f) e)
]

pub Known-insert_self : (k : String) (r : Ref) (tasks : Dict Ref) → Known (insert k r tasks) k
Known-insert_self k r tasks = (r, ground (arith, lookup-insert k k r tasks, eq_iff k k))

-- A heap that replaces one of the queues.
pub insert-ReadyOk :
    (tasks : Dict Ref) (ready : Dict (List ReadyEntry)) (name : String) (q : List ReadyEntry)
    → ReadyOk tasks ready
    → All (λ e. Known tasks e.task_id) q
    → IsHeap q
    → ReadyOk tasks (insert name q ready)
insert-ReadyOk tasks ready name q h known heap = record {
  known = λ j. elim (Bool-cases (name == j)) [
    | inl t ↦ rw (queue_at-insert, t) known
    | inr f ↦ rw (queue_at-insert, f) (h.known j)
  ];
  heap = λ j. elim (Bool-cases (name == j)) [
    | inl t ↦ rw (queue_at-insert, t) heap
    | inr f ↦ rw (queue_at-insert, f) (h.heap j)
  ];
}

pub push_ready-ReadyOk :
    (tasks : Dict Ref) (ready : Dict (List ReadyEntry)) (task : TaskEnvelope) (sequence : ℕ)
    → ReadyOk tasks ready
    → Known tasks task.task_id
    → ReadyOk tasks (push_ready task sequence ready)
unfolding push_ready
push_ready-ReadyOk tasks ready task sequence h known =
    insert-ReadyOk tasks ready task.spec.queue _ h
      (All-heappush _ (queue_at task.spec.queue ready) _ known (h.known task.spec.queue))
      (heappush-IsHeap (queue_at task.spec.queue ready) _ (h.heap task.spec.queue))

pub push-WellFormed :
    (now : ℤ) (r : Ref) (b : Broker)
    → WellFormed b
    → Known b.tasks (b.objects r).task_id
    → WellFormed (push now r b)
unfolding push push_delayed
push-WellFormed now r b h known = elim (Bool-cases (ltb_ℤ now (b.objects r).available_at)) [
  | inl t ↦ rw t (record {
    ready = h.ready;
    delayed = All-heappush (λ e. Known b.tasks e.task_id) b.delayed _ known h.delayed;
    delayed_heap = heappush-IsHeap b.delayed _ h.delayed_heap;
    inflight = h.inflight;
    dead = h.dead;
    task_names = h.task_names;
    inflight_names = h.inflight_names;
  })
  | inr f ↦ rw f (record {
    ready = push_ready-ReadyOk b.tasks b.ready (b.objects r) _ h.ready known;
    delayed = h.delayed;
    delayed_heap = h.delayed_heap;
    inflight = h.inflight;
    dead = h.dead;
    task_names = h.task_names;
    inflight_names = h.inflight_names;
  })
]

pub Names-write :
    (objects : Ref → TaskEnvelope) (r : Ref) (task : TaskEnvelope) (m : Dict Ref)
    → task.task_id ≡ (objects r).task_id
    → Names objects m
    → Names (write r task objects) m
Names-write objects r task m same h k s e = elim (Bool-cases (eqb r s)) [
  | inl t ↦
      let p : r ≡ s = ground arith in
      rw t (same ∙ subst (λ x. (objects x).task_id ≡ k) (sym p) (h k s e))
  | inr f ↦ rw f (h k s e)
]

-- Assignments to a task that leave its identifier alone.
pub write-WellFormed :
    (r : Ref) (task : TaskEnvelope) (b : Broker)
    → WellFormed b
    → task.task_id ≡ (b.objects r).task_id
    → WellFormed (record b { objects = write r task b.objects })
write-WellFormed r task b h same = record {
  ready = h.ready;
  delayed = h.delayed;
  delayed_heap = h.delayed_heap;
  inflight = h.inflight;
  dead = h.dead;
  task_names = Names-write b.objects r task b.tasks same h.task_names;
  inflight_names = Names-write b.objects r task b.inflight same h.inflight_names;
}

-- A task that goes in flight.
pub Within-insert :
    (tasks m : Dict Ref) (k : String) (r : Ref)
    → Known tasks k
    → Within tasks m
    → Within tasks (insert k r m)
Within-insert tasks m k r known h j s e = elim (Bool-cases (k == j)) [
  | inl t ↦ subst (Known tasks) ((eq_iff k j).0 t) known
  | inr f ↦ h j s (rw (lookup-insert, f) at e)
]

pub Names-insert :
    (objects : Ref → TaskEnvelope) (m : Dict Ref) (k : String) (r : Ref)
    → (objects r).task_id ≡ k
    → Names objects m
    → Names objects (insert k r m)
Names-insert objects m k r named h j s e = elim (Bool-cases (k == j)) [
  | inl t ↦
      let p : some r ≡ some s = (rw (lookup-insert, t) at e) in
      let q : r ≡ s = ground arith in
      subst (λ x. (objects x).task_id ≡ j) q (named ∙ (eq_iff k j).0 t)
  | inr f ↦ h j s (rw (lookup-insert, f) at e)
]

pub lookup_of_erase :
    (k j : String) (r : Ref) (m : Dict Ref) → lookup j (erase k m) ≡ some r → lookup j m ≡ some r
lookup_of_erase k j r m e = ground (arith, lookup-erase k j m)

pub new_queue-WellFormed :
    (max_depth : ℕ) (objects : Ref → TaskEnvelope) → WellFormed (new_queue max_depth objects)
unfolding new_queue queue_at
new_queue-WellFormed max_depth objects = record {
  ready = record { known = λ name. tt; heap = λ name. tt };
  delayed = tt;
  delayed_heap = tt;
  inflight = λ k r e. absurd (ground arith);
  dead = λ k r e. absurd (ground arith);
  task_names = λ k r e. absurd (ground arith);
  inflight_names = λ k r e. absurd (ground arith);
}
