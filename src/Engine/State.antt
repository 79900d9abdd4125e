-- ===== src/Engine/State.antt =====
-- taskrunner/scheduler/engine.py: the state of `SchedulerEngine`, and what its methods share.
-- A worker is an object that the engine and a suspended `reserve_task` share: `worker_objects` has
-- the present fields of the object behind a reference. What the operating system and `uuid4` answer
-- is an argument.
use distributed_task_runner.Base.{
  ℕ, String, Bool, true, false, Option, List, [], eqb, if◌then◌else◌,
}
use distributed_task_runner.Base.Int.{ℤ, pos, negsuc}
use distributed_task_runner.Base.Dict.{Dict}
use distributed_task_runner.Models.{Value, TaskEnvelope, TaskResult, WorkerInfo, EventType}
use distributed_task_runner.Broker.State.{Ref, Broker, new_queue}
use distributed_task_runner.Config.{Settings}
use distributed_task_runner.Store.{Store, empty_store, upsert_task, upsert_worker}
use distributed_task_runner.Events.{EventBus, new_bus, publish}

-- `drained` is the flag of `_drain_event`; `next_task` is the first reference to no object yet.
pub record Engine : Type 0 where
  pub config : Settings
  pub queue : Broker
  pub store : Store
  pub event_bus : EventBus
  pub workers : Dict Ref
  pub worker_objects : Ref → WorkerInfo
  pub completed_tasks : List String
  pub results : Dict TaskResult
  pub drained : Bool
  pub next_task : Ref

-- The identifier and the time of an event that is made.
pub record Stamp : Type 0 where
  pub event_id : String
  pub created_at : ℤ

unfoldable pub announce : EventType → Dict Value → Stamp → Engine → Engine
unfolding publish
announce event_type payload stamp e = record e {
  event_bus =
      publish
        (record {
          event_type = event_type;
          payload = payload;
          event_id = stamp.event_id;
          created_at = stamp.created_at;
        })
        e.event_bus;
}

-- `self.store.upsert_task(task, result)` for the task object `r`.
unfoldable pub save_task : (now : ℤ) → Ref → Option TaskResult → Engine → Engine
unfolding upsert_task
save_task now r result e = record e { store = upsert_task now (e.queue.objects r) result e.store }

abbrev pub write_worker : Ref → WorkerInfo → (Ref → WorkerInfo) → Ref → WorkerInfo
write_worker w worker objects s = if eqb w s then worker else objects s

-- Assignments to the worker object `w`, and `self.store.upsert_worker(worker)`.
unfoldable pub save_worker : Ref → WorkerInfo → Engine → Engine
unfolding upsert_worker
save_worker w worker e = record e {
  worker_objects = write_worker w worker e.worker_objects;
  store = upsert_worker worker e.store;
}

-- `self._drain_event.set()`
abbrev pub set_drained : Engine → Engine
set_drained e = record e { drained = true }

-- A depth below 0 acts in the queue as 0 does: the queue is full, and its pressure is over 1.
unfoldable pub depth_of : ℤ → ℕ
depth_of (pos n) = n
depth_of (negsuc n) = 0

-- `SchedulerEngine(config)` with a queue, a store and a bus of its own; the bus keeps 1,000 events.
unfoldable pub new_engine : Settings → (Ref → TaskEnvelope) → (Ref → WorkerInfo) → Ref → Engine
unfolding depth_of
new_engine config tasks worker_objects next_task = record {
  config = config;
  queue = new_queue (depth_of config.max_queue_depth) tasks;
  store = empty_store;
  event_bus = new_bus 1000;
  workers = [];
  worker_objects = worker_objects;
  completed_tasks = [];
  results = [];
  drained = false;
  next_task = next_task;
}
