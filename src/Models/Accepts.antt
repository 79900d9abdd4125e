-- ===== src/Models/Accepts.antt =====
-- taskrunner/shared/models.py: which tasks a worker accepts, and its load.
use distributed_task_runner.Base.{
  ◌≡◌, refl, ◌⊎◌, inl, inr, ◌↔◌, String, true, ◌||◌, List, [], ◌∷◌, arith, Has, Bool-cases,
}
use distributed_task_runner.Base.Text.{elem, meets, elem-Has, Has-elem}
use distributed_task_runner.Models.{TaskEnvelope, WorkerInfo, idle, busy, is_empty, accepts}

abbrev pub Shares : List String → List String → Type 0
Shares xs ys = (x : String) × Has x xs × Has x ys

pub meets-Shares : (xs ys : List String) → meets xs ys ≡ true → Shares xs ys
unfolding meets
meets-Shares [] ys h = absurd (ground arith)
meets-Shares (x ∷ xs) ys h = elim (Bool-cases (elem x ys)) [
  | inl e ↦ (x, inl refl, elem-Has x ys e)
  | inr e ↦ let (y, m, n) = meets-Shares xs ys (rw e at h) in (y, inr m, n)
]

pub Shares-meets : (xs ys : List String) (x : String) → Has x xs → Has x ys → meets xs ys ≡ true
unfolding meets
Shares-meets [] ys x m n = absurd m
Shares-meets (y ∷ xs) ys x (inl e) n = ground (arith, Has-elem x ys n)
Shares-meets (y ∷ xs) ys x (inr m) n = ground (arith, Shares-meets xs ys x m n)

-- A worker can run a task if it serves the task's queue, has a label that the task asks
-- for (if it asks for any), and is idle or busy.
pub record CanRun (w : WorkerInfo) (task : TaskEnvelope) : Type 0 where
  pub serves : Has task.spec.queue w.queues
  pub labelled : (task.spec.affinity ≡ []) ⊎ Shares task.spec.affinity w.labels
  pub online : (w.status ≡ idle) ⊎ (w.status ≡ busy)

affinity_iff :
    (xs ys : List String) → ((is_empty xs || meets xs ys) ≡ true) ↔ ((xs ≡ []) ⊎ Shares xs ys)
unfolding is_empty
affinity_iff [] ys = (λ h. inl refl, λ h. refl)
affinity_iff (x ∷ xs) ys = (
  λ h. inr (meets-Shares (x ∷ xs) ys h),
  elim [ inl e ↦ cc | inr (y, m, n) ↦ Shares-meets (x ∷ xs) ys y m n ],
)

-- `accepts` answers true exactly for the tasks that the worker can run.
pub accepts_iff : (w : WorkerInfo) (task : TaskEnvelope) → (accepts w task ≡ true) ↔ CanRun w task
unfolding accepts
accepts_iff w task = (
  λ h. record {
    serves = elem-Has task.spec.queue w.queues (ground arith);
    labelled = (affinity_iff task.spec.affinity w.labels).0 (ground arith);
    online = ground arith;
  },
  λ c. ground (
    arith,
    Has-elem task.spec.queue w.queues c.serves,
    (affinity_iff task.spec.affinity w.labels).1 c.labelled,
    c.online,
  ),
)
