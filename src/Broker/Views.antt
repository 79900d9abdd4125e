-- ===== src/Broker/Views.antt =====
-- taskrunner/queue/broker.py: `batch`, `get` and `snapshot`.
use text.Mathlib.Text.{◌==◌}
use distributed_task_runner.Base.{
  ℕ, ◌+◌, String, Bool, false, ◌&&◌, Option, none, some, List, [], ◌∷◌, length, take, select,
}
use Prim.Native.Nat.{max}
use distributed_task_runner.Base.Int.{ℤ, pos}
use distributed_task_runner.Base.Dict.{lookup, values}
use distributed_task_runner.Models.{TaskEnvelope, queued, status_eqb, QueueSnapshot}
use distributed_task_runner.Broker.Entries.{ReadyEntry}
use distributed_task_runner.Broker.State.{task_not_found, Outcome, ok, raised, Ref, Broker}
use distributed_task_runner.Broker.Reserve.{promote}

abbrev is_key : Option String → String → Bool
is_key none key = false
is_key (some k) key = k == key

unfoldable pub in_batch : String → TaskEnvelope → Bool
in_batch key task = is_key task.spec.batch_key key && status_eqb task.status queued

-- `batch`, for `max_items` not below 0.
unfoldable pub batch : String → ℕ → Broker → List Ref
unfolding in_batch values
batch key max_items b = take max_items (select (λ r. in_batch key (b.objects r)) (values b.tasks))

unfoldable pub get : String → Broker → Outcome Ref
unfolding lookup
get task_id b = elim (lookup task_id b.tasks) [
  | none ↦ raised (task_not_found task_id)
  | some r ↦ ok r
]

-- `sum(len(queue) for queue in queues)`
unfoldable pub total_length : List (List ReadyEntry) → ℕ
total_length [] = 0
total_length (q ∷ queues) = length q + total_length queues

-- What `snapshot` reads off a queue whose delayed tasks have been promoted.
unfoldable pub counts : Broker → QueueSnapshot
unfolding total_length values
counts b =
    let queued = total_length (values b.ready) in
    let delayed = length b.delayed in
    let inflight = length b.inflight in
    record {
      queued = queued;
      delayed = delayed;
      inflight = inflight;
      dead_lettered = length b.dead_letter;
      pressure = record { num = pos (queued + delayed + inflight); den = pos (max 1 b.max_depth) };
    }

unfoldable pub snapshot : (now : ℤ) → Broker → QueueSnapshot × Broker
unfolding promote counts
snapshot now b = let b' : Broker = promote now b in (counts b', b')
