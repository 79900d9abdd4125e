-- ===== src/Worker/Histories.antt =====
-- taskrunner/workers/manager.py: the histories of a worker.
use distributed_task_runner.Base.{
  ℕ, Bool, zero, suc, ◌+◌, ◌≤◌, ◌≡◌, refl, ap, none, some, List, [], ◌∷◌, arith, length,
}
use distributed_task_runner.Models.{WorkerInfo}
use distributed_task_runner.Worker.Ipc.{new_channels}
use distributed_task_runner.Worker.Runtime.{
  Slot, sleeping, reserving, created, executing, reporting, settling, End, well, called_off, ill,
  wake, wakes, cancels, Given, reserved, slept, begins, executed, reported, raises, Runtime,
  running, consumers, count_of, new_runtime, turn, resume, slot_at, put_slot, Happening, resumes,
  beats, stops, step, after_all,
}
use distributed_task_runner.Worker.Sound.{
  has_begun, begun, length-put_slot, running_le_length, begun-put_slot, Moved, has_begun-turn,
  begin_execution-Moved, end_execution-Moved,
}

-- A part that touches nothing but its slot.
module _ (rt : Runtime) where
  only_slot : (s s' : Slot) → has_begun s' ≤ has_begun s → Moved s s' rt rt
  only_slot s s' h = record { same_slots = refl; ended = refl; put = omega (arith, h) }

has_begun-wake : (how : End) (stop : Bool) → has_begun (wake how stop) ≡ 0
unfolding has_begun wake
has_begun-wake well stop = has_begun-turn stop
has_begun-wake called_off stop = refl
has_begun-wake ill stop = refl

pub resume-Moved :
    (slot : Slot) (given : Given) (rt : Runtime)
    → let (slot', rt') = resume slot given rt in Moved slot slot' rt rt'
unfolding resume has_begun turn
resume-Moved reserving (reserved none) rt = only_slot rt _ _ (omega arith)
resume-Moved reserving (reserved (some task)) rt = only_slot rt _ _ (omega arith)
resume-Moved reserving cancels rt = only_slot rt _ _ (omega arith)
resume-Moved reserving raises rt = only_slot rt _ _ (omega arith)
resume-Moved sleeping slept rt =
    only_slot rt sleeping (turn rt.stop) (omega (arith, has_begun-turn rt.stop))
resume-Moved (created task) begins rt = begin_execution-Moved task rt
resume-Moved (executing task) (executed result) rt = only_slot rt _ _ (omega arith)
resume-Moved (executing task) cancels rt = only_slot rt _ _ (omega arith)
resume-Moved (executing task) raises rt = only_slot rt _ _ (omega arith)
resume-Moved (reporting result) reported rt = end_execution-Moved result rt
resume-Moved (reporting result) cancels rt = only_slot rt _ _ (omega arith)
resume-Moved (reporting result) raises rt = only_slot rt _ _ (omega arith)
resume-Moved (settling how) wakes rt =
    only_slot rt (settling how) (wake how rt.stop) (omega (arith, has_begun-wake how rt.stop))
resume-Moved _ _ rt = only_slot rt _ _ (omega arith)

-- The slots are `capacity` many and hold no more executions; a result is counted once for each that
-- is in the result queue; and each counted result, and each execution that has begun, has put a task
-- of its own in the task queue.
pub record Sound (capacity : ℕ) (rt : Runtime) : Type 0 where
  pub slots : length rt.slots ≡ capacity
  pub within : running rt.slots ≤ capacity
  pub counted : rt.completed + rt.failed ≡ length rt.ipc.result_queue
  pub served : rt.completed + rt.failed + begun rt.slots ≤ length rt.ipc.task_queue

length-consumers : (n : ℕ) → length (consumers n) ≡ n
unfolding consumers
length-consumers zero = refl
length-consumers (suc n) = omega (arith, length-consumers n)

begun-consumers : (n : ℕ) → begun (consumers n) ≡ 0
unfolding begun consumers has_begun
begun-consumers zero = refl
begun-consumers (suc n) = omega (arith, begun-consumers n)

new_runtime-Sound : (worker : WorkerInfo) → Sound (count_of worker.capacity) (new_runtime worker)
unfolding new_runtime new_channels
new_runtime-Sound worker =
    let n = count_of worker.capacity in
    record {
      slots = length-consumers n;
      within = omega (arith, running_le_length (consumers n), length-consumers n);
      counted = refl;
      served = omega (arith, begun-consumers n);
    }

step-Sound :
    (capacity : ℕ) (h : Happening) (rt : Runtime) → Sound capacity rt → Sound capacity (step h rt)
unfolding step
step-Sound capacity (resumes i given) rt s =
    let slot = slot_at i rt.slots in
    let slot' : Slot = (resume slot given rt).0 in
    let rt' : Runtime = (resume slot given rt).1 in
    let m = resume-Moved slot given rt in
    let all = length-put_slot i slot' rt'.slots in
    let kept : length rt'.slots ≡ length rt.slots = ap length m.same_slots in
    let before : begun (put_slot i slot' rt'.slots) + has_begun slot
        ≤ begun rt.slots + has_begun slot' =
      rw m.same_slots (begun-put_slot i slot' rt.slots) in
    record {
      slots = omega (arith, all, kept, s.slots);
      within = omega (arith, running_le_length (put_slot i slot' rt'.slots), all, kept, s.slots);
      counted = omega (arith, m.ended, s.counted);
      served = omega (arith, m.put, s.served, before);
    }
step-Sound capacity (beats given) rt s = record {
  slots = s.slots;
  within = s.within;
  counted = s.counted;
  served = s.served;
}
step-Sound capacity stops rt s = record {
  slots = s.slots;
  within = s.within;
  counted = s.counted;
  served = s.served;
}

after_all_keep :
    (capacity : ℕ) (history : List Happening) (rt : Runtime)
    → Sound capacity rt
    → Sound capacity (after_all history rt)
unfolding after_all
after_all_keep capacity [] rt s = s
after_all_keep capacity (h ∷ hs) rt s =
    after_all_keep capacity hs (step h rt) (step-Sound capacity h rt s)

-- In every history of a worker it runs at most as many tasks at once as its capacity says, the
-- results it has counted are as many as those it has put in the result queue, and together with the
-- executions that have begun they are at most as many as the tasks in the task queue.
pub after_all-Sound :
    (worker : WorkerInfo) (history : List Happening)
    → Sound (count_of worker.capacity) (after_all history (new_runtime worker))
after_all-Sound worker history =
    after_all_keep (count_of worker.capacity) history (new_runtime worker)
      (new_runtime-Sound worker)
