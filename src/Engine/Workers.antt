-- ===== src/Engine/Workers.antt =====
-- taskrunner/scheduler/engine.py: `register_worker`, `heartbeat`, a pass of `_heartbeat_reaper`,
-- and `autoscaling_recommendation`.
use distributed_task_runner.Base.{
  ℕ, ◌+◌, ◌/◌, map, String, Bool, ◌&&◌, not, none, some, Option, List, [], ◌∷◌, if◌then◌else◌,
  length, select,
}
use distributed_task_runner.Base.Int.{ℤ, pos, negsuc, ltb_ℤ, eqb_ℤ, ◌+ℤ◌, ◌-ℤ◌}
use distributed_task_runner.Base.Dict.{lookup, insert, values}
use distributed_task_runner.Models.{
  text, number, WorkerInfo, idle, busy, offline, worker_status_eqb, worker_registered,
  worker_heartbeat, Fraction,
}
use distributed_task_runner.Broker.State.{Ref}
use distributed_task_runner.Broker.Views.{snapshot}
use distributed_task_runner.Store.{mark_worker_offline}
use distributed_task_runner.Engine.State.{Engine, Stamp, announce, save_worker, set_drained}

unfoldable pub register_worker : (now : ℤ) → Ref → Stamp → Engine → Ref × Engine
unfolding save_worker announce insert
register_worker now w stamp e =
    let worker = record (e.worker_objects w) { status = idle; last_heartbeat = now } in
    let e' : Engine = record e { workers = insert worker.worker_id w e.workers } in
    let payload = ("worker_id", text worker.worker_id) ∷ [] in
    (w, set_drained (announce worker_registered payload stamp (save_worker w worker e')))

-- The fields of a worker that has sent a heartbeat.
unfoldable pub alive : (now running_tasks : ℤ) → WorkerInfo → WorkerInfo
alive now running_tasks worker = record worker {
  last_heartbeat = now;
  running_tasks = running_tasks;
  status = if eqb_ℤ running_tasks (pos 0) then idle else busy;
}

unfoldable pub heartbeat : String → (running_tasks now : ℤ) → Stamp → Engine → Option Ref × Engine
unfolding lookup alive save_worker announce
heartbeat worker_id running_tasks now stamp e = elim (lookup worker_id e.workers) [
  | none ↦ (none, e)
  | some w ↦
      let worker = alive now running_tasks (e.worker_objects w) in
      let payload =
        ("worker_id", text worker.worker_id) ∷ ("running_tasks", number running_tasks) ∷ [] in
      (some w, announce worker_heartbeat payload stamp (save_worker w worker e))
]

-- Not offline, and silent for longer than the timeout.
unfoldable pub is_silent : (now timeout : ℤ) → WorkerInfo → Bool
unfolding ◌-ℤ◌
is_silent now timeout worker =
    not (worker_status_eqb worker.status offline) && ltb_ℤ timeout (now -ℤ worker.last_heartbeat)

-- The body of the loop on the workers; `mark_worker_offline` reads the clock again.
unfoldable pub reap : (now : ℤ) → (clock : Ref → ℤ) → Ref → Engine → Engine
unfolding is_silent save_worker mark_worker_offline
reap now clock w e =
    let worker = e.worker_objects w in
    let e' : Engine = save_worker w (record worker { status = offline }) e in
    if is_silent now e.config.heartbeat_timeout_seconds worker
    then record e' { store = mark_worker_offline (clock w) worker.worker_id e'.store }
    else e

unfoldable pub reap_all : (now : ℤ) → (clock : Ref → ℤ) → List Ref → Engine → Engine
unfolding reap
reap_all now clock [] e = e
reap_all now clock (w ∷ ws) e = reap_all now clock ws (reap now clock w e)

-- A turn of the loop of `_heartbeat_reaper`, once it has slept.
unfoldable pub heartbeat_reaper : (now : ℤ) → (clock : Ref → ℤ) → Engine → Engine
unfolding values reap_all
heartbeat_reaper now clock e = reap_all now clock (values e.workers) e

pub record Recommendation : Type 0 where
  pub current_workers : ℕ
  pub desired_workers : ℤ
  pub pressure : Fraction

abbrev pub max_ℤ : ℤ → ℤ → ℤ
max_ℤ a b = if ltb_ℤ a b then b else a

abbrev pub min_ℤ : ℤ → ℤ → ℤ
min_ℤ a b = if ltb_ℤ b a then b else a

unfoldable pub sum : List ℤ → ℤ
unfolding ◌+ℤ◌
sum [] = pos 0
sum (x ∷ xs) = x +ℤ sum xs

-- `sum(…) or 1`
unfoldable pub or_one : ℤ → ℤ
or_one n = if eqb_ℤ n (pos 0) then pos 1 else n

-- `int(n / d)`, which rounds towards 0, for a divisor other than 0.
unfoldable pub quotient : ℕ → ℤ → ℤ
unfolding ◌-ℤ◌
quotient n (pos d) = pos (n / d)
quotient n (negsuc d) = pos 0 -ℤ pos (n / (d + 1))

unfoldable pub is_online : (Ref → WorkerInfo) → Ref → Bool
is_online objects w = not (worker_status_eqb (objects w).status offline)

-- What is recommended on a snapshot and the online workers.
unfoldable pub desired : (waiting : ℕ) → List WorkerInfo → ℤ
unfolding quotient or_one sum ◌+ℤ◌
desired waiting online =
    let total_capacity = or_one (sum (map (λ w. w.capacity) online)) in
    let backlog_ratio = quotient waiting total_capacity in
    max_ℤ (pos 1) (min_ℤ (pos 32) (backlog_ratio +ℤ pos (length online)))

unfoldable pub autoscaling_recommendation : (now : ℤ) → Engine → Recommendation × Engine
unfolding snapshot is_online desired values
autoscaling_recommendation now e =
    let (view, queue) = snapshot now e.queue in
    let online = map e.worker_objects (select (is_online e.worker_objects) (values e.workers)) in
    (
      record {
        current_workers = length online;
        desired_workers = desired (view.queued + view.delayed) online;
        pressure = view.pressure;
      },
      record e { queue = queue },
    )
