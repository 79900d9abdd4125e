-- ===== src/Broker/Snapshots.antt =====
-- taskrunner/queue/broker.py: what `snapshot` changes of the entries, which it may promote.
use Prim.Native.Nat.{max}
use distributed_task_runner.Base.{
  ℕ, ◌+◌, ◌≤◌, ◌≡◌, refl, ap, inl, inr, String, ◌||◌, List, [], ◌∷◌, arith, length, Bool-cases,
  Option-cases,
}
use distributed_task_runner.Base.Int.{ℤ, pos, leb_ℤ, ◌≤ℤ◌}
use distributed_task_runner.Base.Dict.{Dict, lookup, insert, values}
use distributed_task_runner.Models.{
  TaskEnvelope, QueueSnapshot, cancelled, dead_lettered, status_eqb,
}
use distributed_task_runner.Heapq.{heappush}
use distributed_task_runner.Heapq.Laws.{length-heappush}
use distributed_task_runner.Broker.Entries.{ReadyEntry, DelayedEntry, ready_order}
use distributed_task_runner.Broker.State.{Broker, queue_at, push_ready}
use distributed_task_runner.Broker.Reserve.{revive, promote_from, promote}
use distributed_task_runner.Broker.Promote.{revive_form}
use distributed_task_runner.Broker.Views.{total_length, counts, snapshot}

total-insert :
    (key : String) (q : List ReadyEntry) (ready : Dict (List ReadyEntry))
    → total_length (values (insert key q ready)) + length (queue_at key ready)
      ≡ total_length (values ready) + length q
unfolding total_length values insert queue_at lookup
total-insert key q [] = omega arith
total-insert key q ((name, old) ∷ rest) = ground (arith, total-insert key q rest)

total-push_ready :
    (task : TaskEnvelope) (sequence : ℕ) (ready : Dict (List ReadyEntry))
    → total_length (values (push_ready task sequence ready)) ≡ total_length (values ready) + 1
unfolding push_ready
total-push_ready task sequence ready =
    let entry : ReadyEntry = record {
      priority = task.spec.priority;
      created_at = task.created_at;
      sequence = sequence;
      task_id = task.task_id;
    } in
    let q = queue_at task.spec.queue ready in
    omega (arith, total-insert task.spec.queue (heappush q entry) ready, length-heappush q entry)

-- The entries that wait.
waiting : Broker → ℕ
waiting b = total_length (values b.ready) + length b.delayed

revive_adds :
    (e : DelayedEntry) (b : Broker)
    → total_length (values (revive e b).ready) ≤ total_length (values b.ready) + 1
unfolding revive
revive_adds e b = elim (Option-cases (lookup e.task_id b.tasks)) [
  | inl absent ↦ rw (absent, revive) (omega arith)
  | inr (r, found) ↦
      let task = b.objects r in
      elim (Bool-cases (status_eqb task.status cancelled || status_eqb task.status dead_lettered)) [
        | inl t ↦ rw (found, revive, t) (omega arith)
        | inr f ↦ rw (found, revive, f) (omega (arith, total-push_ready task b.sequence b.ready))
      ]
]

waiting-promote_from :
    (now : ℤ) (q : List DelayedEntry) (b : Broker)
    → waiting (promote_from now q b) ≤ total_length (values b.ready) + length q
unfolding promote_from waiting
waiting-promote_from now [] b = omega arith
waiting-promote_from now (e ∷ q) b = elim (Bool-cases (leb_ℤ e.available_at now)) [
  | inl due ↦ rw due (omega (arith, waiting-promote_from now q (revive e b), revive_adds e b))
  | inr later ↦ rw later (omega arith)
]

promote_from_form :
    (now : ℤ) (q : List DelayedEntry) (b : Broker)
    → (ready : Dict (List ReadyEntry)) × (delayed : List DelayedEntry) × (promote_from now q b
        ≡ record b { ready = ready; delayed = delayed })
unfolding promote_from
promote_from_form now [] b = (b.ready, [], refl)
promote_from_form now (e ∷ q) b = elim (Bool-cases (leb_ℤ e.available_at now)) [
  | inl due ↦
      let (kept, form, _) = revive_form e b in
      let (ready, delayed, rest) = promote_from_form now q (record b { ready = kept }) in
      rw (due, form) (ready, delayed, rest)
  | inr later ↦ rw later (b.ready, e ∷ q, refl)
]

pub promote_form :
    (now : ℤ) (b : Broker)
    → (ready : Dict (List ReadyEntry)) × (delayed : List DelayedEntry) × (promote now b
        ≡ record b { ready = ready; delayed = delayed })
unfolding promote
promote_form now b = promote_from_form now b.delayed b

-- What a snapshot shows of a later state of the queue, in which nothing but snapshots was taken.
pub record Shrunk (earlier later : QueueSnapshot) : Type 0 where
  pub waiting_less : later.queued + later.delayed ≤ earlier.queued + earlier.delayed
  pub inflight_same : later.inflight ≡ earlier.inflight
  pub dead_same : later.dead_lettered ≡ earlier.dead_lettered
  pub pressure_less : later.pressure.num ≤ℤ earlier.pressure.num
  pub same_depth : later.pressure.den ≡ earlier.pressure.den

pub counts-Shrunk : (now : ℤ) (b : Broker) → Shrunk (counts b) (counts (promote now b))
unfolding counts promote waiting
counts-Shrunk now b =
    let less = waiting-promote_from now b.delayed b in
    let (ready, delayed, form) = promote_from_form now b.delayed b in
    let flying : (promote now b).inflight ≡ b.inflight = ap (λ (x : Broker). x.inflight) form in
    let dead : (promote now b).dead_letter ≡ b.dead_letter =
      ap (λ (x : Broker). x.dead_letter) form in
    let depth : (promote now b).max_depth ≡ b.max_depth = ap (λ (x : Broker). x.max_depth) form in
    let same = ap length flying in
    record {
      waiting_less = less;
      inflight_same = same;
      dead_same = ap length dead;
      pressure_less = omega (arith, less, same);
      same_depth = ap (λ n. pos (max 1 n)) depth;
    }

-- A snapshot of a queue in which only an earlier one has been taken shows the same tasks in flight
-- and dead, and no more entries that wait: a promotion drops those of cancelled and dead tasks.
pub snapshot-Shrunk :
    (now later : ℤ) (b : Broker)
    → let (first, b') = snapshot now b in Shrunk first (snapshot later b').0
unfolding snapshot
snapshot-Shrunk now later b = counts-Shrunk later (promote now b)
