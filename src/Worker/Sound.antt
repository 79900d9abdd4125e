-- ===== src/Worker/Sound.antt =====
-- taskrunner/workers/manager.py: what holds of the slots, the counters and the queues of a worker in
-- every history.
use distributed_task_runner.Base.{
  ℕ, zero, suc, ◌+◌, ◌≤◌, ◌<◌, ◌≡◌, refl, ◌⊎◌, inl, inr, none, some, List, [], ◌∷◌, ◌++◌, Bool,
  true, false, arith, length, length-append, Bool-cases, Option-cases,
}
use distributed_task_runner.Models.{TaskEnvelope, TaskResult}
use distributed_task_runner.Dicts.{task_dict, result_dict}
use distributed_task_runner.Worker.Ipc.{write_shared_counters, pack, skip}
use distributed_task_runner.Worker.Runtime.{
  Slot, sleeping, reserving, created, executing, reporting, settling, well, finished, broken,
  Runtime, in_running, running, turn, write_counters, or_ill, begin_execution, put_task, put_result,
  has_error, count_result, end_execution, slot_at, put_slot,
}

-- Whether the execution of the slot has put its task in the queue.
unfoldable pub has_begun : Slot → ℕ
has_begun (executing task) = 1
has_begun (reporting result) = 1
has_begun _ = 0

unfoldable pub begun : List Slot → ℕ
unfolding has_begun
begun [] = 0
begun (slot ∷ slots) = has_begun slot + begun slots

pub length-put_slot :
    (i : ℕ) (s : Slot) (slots : List Slot) → length (put_slot i s slots) ≡ length slots
unfolding put_slot
length-put_slot i s [] = refl
length-put_slot zero s (t ∷ slots) = refl
length-put_slot (suc i) s (t ∷ slots) = omega (arith, length-put_slot i s slots)

pub running_le_length : (slots : List Slot) → running slots ≤ length slots
unfolding running in_running
running_le_length [] = omega arith
running_le_length (reserving ∷ slots) = omega (arith, running_le_length slots)
running_le_length (sleeping ∷ slots) = omega (arith, running_le_length slots)
running_le_length (created t ∷ slots) = omega (arith, running_le_length slots)
running_le_length (executing t ∷ slots) = omega (arith, running_le_length slots)
running_le_length (reporting r ∷ slots) = omega (arith, running_le_length slots)
running_le_length (settling e ∷ slots) = omega (arith, running_le_length slots)
running_le_length (finished ∷ slots) = omega (arith, running_le_length slots)
running_le_length (broken ∷ slots) = omega (arith, running_le_length slots)

-- A sum over the slots, in which one slot has been replaced.
pub running-put_slot :
    (i : ℕ) (s : Slot) (slots : List Slot)
    → i < length slots
    → running (put_slot i s slots) + in_running (slot_at i slots) ≡ running slots + in_running s
unfolding running put_slot slot_at
running-put_slot i s [] h = absurd (omega (arith, h))
running-put_slot zero s (t ∷ slots) h = omega arith
running-put_slot (suc i) s (t ∷ slots) h = omega (arith, running-put_slot i s slots (omega arith))

-- The same of the executions that have begun, of which a missing slot has none.
pub begun-put_slot :
    (i : ℕ) (s : Slot) (slots : List Slot)
    → begun (put_slot i s slots) + has_begun (slot_at i slots) ≤ begun slots + has_begun s
unfolding begun put_slot slot_at has_begun
begun-put_slot i s [] = omega arith
begun-put_slot zero s (t ∷ slots) = omega arith
begun-put_slot (suc i) s (t ∷ slots) = omega (arith, begun-put_slot i s slots)

-- A part of a consumer that leaves `slot` for `slot'`: what it adds to the queues and the counters.
pub record Moved (slot slot' : Slot) (rt rt' : Runtime) : Type 0 where
  pub same_slots : rt'.slots ≡ rt.slots
  pub ended :
      rt'.completed + rt'.failed + length rt.ipc.result_queue
      ≡ rt.completed + rt.failed + length rt'.ipc.result_queue
  pub put :
      rt'.completed + rt'.failed + has_begun slot' + length rt.ipc.task_queue
      ≤ rt.completed + rt.failed + has_begun slot + length rt'.ipc.task_queue

-- The counters are written, or do not fit; the queues stay.
write_counters_cases :
    (rt : Runtime)
    → (write_counters rt ≡ none)
      ⊎ ((bytes : List ℕ) × (write_counters rt
            ≡ some (record rt {
              ipc = record {
                task_queue = rt.ipc.task_queue;
                result_queue = rt.ipc.result_queue;
                shared_metrics = bytes;
              };
            })))
unfolding write_counters write_shared_counters
write_counters_cases rt = elim (Option-cases (pack (running rt.slots) rt.completed rt.failed)) [
  | inl e ↦ inl (rw (e, write_shared_counters, write_counters) refl)
  | inr (bytes, e) ↦
      inr
        (bytes ++ skip 24 rt.ipc.shared_metrics, rw (e, write_shared_counters, write_counters) refl)
]

or_ill-Moved :
    (slot s : Slot) (rt rt' : Runtime)
    → Moved slot s rt rt'
    → let (s', rt'') = or_ill s rt' (write_counters rt') in Moved slot s' rt rt''
unfolding or_ill has_begun
or_ill-Moved slot s rt rt' h = elim (write_counters_cases rt') [
  | inl e ↦ rw e (record { same_slots = h.same_slots; ended = h.ended; put = omega (arith, h.put) })
  | inr (bytes, e) ↦ rw e (record { same_slots = h.same_slots; ended = h.ended; put = h.put })
]

length-put_last : {A : Type 0} (xs : List A) (x : A) → length (xs ++ x ∷ []) ≡ length xs + 1
length-put_last xs x = length-append xs (x ∷ [])

pub begin_execution-Moved :
    (task : TaskEnvelope) (rt : Runtime)
    → let (slot, rt') = begin_execution task rt in Moved (created task) slot rt rt'
unfolding begin_execution has_begun put_task
begin_execution-Moved task rt =
    or_ill-Moved (created task) (executing task) rt (put_task task rt) (record {
      same_slots = refl;
      ended = refl;
      put = omega (arith, length-put_last rt.ipc.task_queue (task_dict task));
    })

pub count_result_sum :
    (result : TaskResult) (rt : Runtime)
    → (count_result result rt).completed + (count_result result rt).failed
      ≡ rt.completed + rt.failed + 1
unfolding count_result
count_result_sum result rt = ground (arith, Bool-cases (has_error result.error))

-- A counter is all that the count of a result changes.
pub record Same (rt rt' : Runtime) : Type 0 where
  pub ipc : rt'.ipc ≡ rt.ipc
  pub slots : rt'.slots ≡ rt.slots
  pub stop : rt'.stop ≡ rt.stop

pub count_result-Same : (result : TaskResult) (rt : Runtime) → Same rt (count_result result rt)
unfolding count_result
count_result-Same result rt = elim (Bool-cases (has_error result.error)) [
  | inl e ↦ rw e (record { ipc = refl; slots = refl; stop = refl })
  | inr e ↦ rw e (record { ipc = refl; slots = refl; stop = refl })
]

pub has_begun-turn : (stop : Bool) → has_begun (turn stop) ≡ 0
unfolding has_begun turn
has_begun-turn true = refl
has_begun-turn false = refl

pub end_execution-Moved :
    (result : TaskResult) (rt : Runtime)
    → let (slot, rt') = end_execution result rt in Moved (reporting result) slot rt rt'
unfolding end_execution has_begun put_result
end_execution-Moved result rt =
    let put : Runtime = put_result result rt in
    let counted : Runtime = count_result result put in
    let same = count_result-Same result put in
    let sum = count_result_sum result put in
    let longer = length-put_last rt.ipc.result_queue (result_dict result) in
    let tasks : length counted.ipc.task_queue ≡ length rt.ipc.task_queue = rw same.ipc refl in
    let results : length counted.ipc.result_queue ≡ length rt.ipc.result_queue + 1 =
      rw same.ipc longer in
    or_ill-Moved (reporting result) (settling well) rt counted (record {
      same_slots = same.slots;
      ended = omega (arith, sum, results);
      put = omega (arith, sum, tasks);
    })
