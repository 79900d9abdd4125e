-- ===== src/Broker/Filed.antt =====
-- taskrunner/queue/broker.py: where `_push` files a task, and what it leaves alone.
use distributed_task_runner.Base.{ℕ, suc, ◌≡◌, refl, ◌⊎◌, inl, inr, List, arith, Bool-cases, Has}
use text.Mathlib.TextPositions.{eq_refl}
use distributed_task_runner.Base.Int.{ℤ, ltb_ℤ, ◌≤ℤ◌, ◌<ℤ◌}
use distributed_task_runner.Base.Dict.{Dict}
use distributed_task_runner.Models.{TaskEnvelope}
use distributed_task_runner.Heapq.Laws.{Has-heappush}
use distributed_task_runner.Broker.Entries.{ReadyEntry, DelayedEntry, ready_order, delayed_order}
use distributed_task_runner.Broker.State.{Ref, Broker, queue_at, push_ready, push_delayed, push}
use distributed_task_runner.Broker.WellFormed.{queue_at-insert}

-- An entry for the task in the ready heap of its queue, under its priority.
abbrev pub IsReady : TaskEnvelope → Dict (List ReadyEntry) → Type 0
IsReady task ready =
    (e : ReadyEntry) × Has e (queue_at task.spec.queue ready)
    × (e.task_id ≡ task.task_id)
    × (e.priority ≡ task.spec.priority)
    × (e.created_at ≡ task.created_at)

-- An entry for the task among the delayed, under its time.
abbrev pub IsDelayed : TaskEnvelope → List DelayedEntry → Type 0
IsDelayed task delayed =
    (e : DelayedEntry) × Has e delayed
    × (e.task_id ≡ task.task_id)
    × (e.available_at ≡ task.available_at)

-- The task waits for its time if that is later than `now`, and is ready if not.
abbrev pub Filed : (now : ℤ) → TaskEnvelope → Broker → Type 0
Filed now task b =
    ((now <ℤ task.available_at) × IsDelayed task b.delayed)
    ⊎ ((task.available_at ≤ℤ now) × IsReady task b.ready)

pub push_ready-IsReady :
    (task : TaskEnvelope) (sequence : ℕ) (ready : Dict (List ReadyEntry))
    → IsReady task (push_ready task sequence ready)
unfolding push_ready
push_ready-IsReady task sequence ready = (
  entry,
  rw (queue_at-insert, eq_refl)
      (Has-heappush (queue_at task.spec.queue ready) entry entry (inl refl)),
  refl,
  refl,
  refl,
)
  where
    entry : ReadyEntry
    entry = record {
      priority = task.spec.priority;
      created_at = task.created_at;
      sequence = sequence;
      task_id = task.task_id;
    }

push_delayed-IsDelayed :
    (task : TaskEnvelope) (sequence : ℕ) (delayed : List DelayedEntry)
    → IsDelayed task (push_delayed task sequence delayed)
unfolding push_delayed
push_delayed-IsDelayed task sequence delayed =
    (entry, Has-heappush delayed entry entry (inl refl), refl, refl)
  where
    entry : DelayedEntry
    entry = record { available_at = task.available_at; sequence = sequence; task_id = task.task_id }

-- `_push` files the task behind the reference, and changes nothing but the heaps and the sequence.
pub record Pushed (now : ℤ) (r : Ref) (b b' : Broker) : Type 0 where
  pub ready : Dict (List ReadyEntry)
  pub delayed : List DelayedEntry
  pub form : b' ≡ record b { ready = ready; delayed = delayed; sequence = suc b.sequence }
  pub filed : Filed now (b.objects r) b'

pub push-Pushed : (now : ℤ) (r : Ref) (b : Broker) → Pushed now r b (push now r b)
unfolding push
push-Pushed now r b =
    let task = b.objects r in
    elim (Bool-cases (ltb_ℤ now task.available_at)) [
      | inl t ↦ rw t (record {
        ready = b.ready;
        delayed = push_delayed task (suc b.sequence) b.delayed;
        form = refl;
        filed = inl (ground arith, push_delayed-IsDelayed task (suc b.sequence) b.delayed);
      })
      | inr f ↦ rw f (record {
        ready = push_ready task (suc b.sequence) b.ready;
        delayed = b.delayed;
        form = refl;
        filed = inr (ground arith, push_ready-IsReady task (suc b.sequence) b.ready);
      })
    ]
