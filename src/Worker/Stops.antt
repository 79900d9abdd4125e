-- ===== src/Worker/Stops.antt =====
-- taskrunner/workers/manager.py: the shutdown of a worker.
use distributed_task_runner.Base.{
  ℕ, zero, suc, ◌≤◌, ◌<◌, ◌∙◌, ap, length, Bool, ◌≡◌, refl, inl, inr, List, [], ◌∷◌, true, false,
  ◌||◌, not, arith, map, Bool-cases,
}
use distributed_task_runner.Worker.Runtime.{
  Slot, reserving, executing, reporting, settling, ill, broken, Given, raises, wakes, wake, resume,
  resumes, beats, stops, step, Runtime, in_running, running, slot_at, Happening, after_all,
  cancel_slot, any_broken, is_lost, shutdown,
}
use distributed_task_runner.Worker.Sound.{length-put_slot, running_le_length}
use distributed_task_runner.Worker.Histories.{resume-Moved}
use distributed_task_runner.Worker.Doomed.{is_doomed, after_all-doomed, broken_stays}
use distributed_task_runner.Worker.Ends.{slot_at_put}

cancel_slot_idle : (slot : Slot) → in_running (cancel_slot slot) ≡ 0
unfolding cancel_slot in_running
cancel_slot_idle broken = refl
cancel_slot_idle slot = refl

running_cancelled : (slots : List Slot) → running (map cancel_slot slots) ≡ 0
unfolding running
running_cancelled [] = refl
running_cancelled (slot ∷ slots) = omega (arith, cancel_slot_idle slot, running_cancelled slots)

any_broken_at : (i : ℕ) (slots : List Slot) → slot_at i slots ≡ broken → any_broken slots ≡ true
unfolding slot_at any_broken
any_broken_at i [] h = absurd (ground arith)
any_broken_at zero (slot ∷ slots) h = rw h refl
any_broken_at (suc i) (broken ∷ slots) h = refl
any_broken_at (suc i) (slot ∷ slots) h = any_broken_at i slots h

-- A shutdown leaves no execution running, whether it gets to its end or not, and puts no result in a
-- queue for those that it cancels. It closes the executor and the channels unless an exception of the
-- transport has ended the heartbeat or a consumer before.
pub shutdown-stops :
    (rt : Runtime)
    → let (ended, rt') = shutdown rt in
      (running rt'.slots ≡ 0)
      × (rt'.ipc ≡ rt.ipc)
      × (ended ≡ not (is_lost rt.pulse || any_broken rt.slots))
      × (rt'.executor_down ≡ (ended || rt.executor_down))
      × (rt'.ipc_closed ≡ (ended || rt.ipc_closed))
unfolding shutdown
shutdown-stops rt = elim (Bool-cases (is_lost rt.pulse || any_broken rt.slots)) [
  | inl e ↦ rw e (running_cancelled rt.slots, refl, refl, refl, refl)
  | inr e ↦ rw e (running_cancelled rt.slots, refl, refl, refl, refl)
]

-- The consumer waits for a call of the transport or of the executor.
unfoldable pub awaits : Slot → Bool
awaits reserving = true
awaits (executing task) = true
awaits (reporting result) = true
awaits _ = false

raises-doomed :
    (slot : Slot) (rt : Runtime) → awaits slot ≡ true → is_doomed (resume slot raises rt).0 ≡ true
unfolding awaits is_doomed resume
raises-doomed reserving rt h = refl
raises-doomed (executing task) rt h = refl
raises-doomed (reporting result) rt h = refl
raises-doomed slot rt h = absurd (ground (arith, h))

wakes-broken :
    (slot : Slot) (rt : Runtime) → is_doomed slot ≡ true → (resume slot wakes rt).0 ≡ broken
unfolding is_doomed resume wake
wakes-broken (settling ill) rt h = refl
wakes-broken broken rt h = refl
wakes-broken slot rt h = absurd (ground (arith, h))

step_at_listed :
    (i : ℕ) (given : Given) (rt : Runtime)
    → i < length rt.slots
    → slot_at i (step (resumes i given) rt).slots ≡ (resume (slot_at i rt.slots) given rt).0
unfolding step
step_at_listed i given rt listed =
    let slot = slot_at i rt.slots in
    let same = (resume-Moved slot given rt).same_slots in
    rw same (slot_at_put i (resume slot given rt).0 rt.slots listed)

length-step : (h : Happening) (rt : Runtime) → length (step h rt).slots ≡ length rt.slots
unfolding step
length-step (resumes i given) rt =
    let slot = slot_at i rt.slots in
    let (slot', rt') = resume slot given rt in
    length-put_slot i slot' rt'.slots ∙ ap length (resume-Moved slot given rt).same_slots
length-step (beats given) rt = refl
length-step stops rt = refl

length-after_all :
    (history : List Happening) (rt : Runtime)
    → length (after_all history rt).slots ≡ length rt.slots
unfolding after_all
length-after_all [] rt = refl
length-after_all (h ∷ hs) rt = length-after_all hs (step h rt) ∙ length-step h rt

in_running_le : (slot : Slot) → in_running slot ≤ 1
unfolding in_running
in_running_le slot = ground arith

running_but :
    (i : ℕ) (slots : List Slot) → slot_at i slots ≡ broken → suc (running slots) ≤ length slots
unfolding slot_at running in_running
running_but i [] h = absurd (ground (arith, h))
running_but zero (slot ∷ slots) h = rw h (omega (arith, running_le_length slots))
running_but (suc i) (slot ∷ slots) h = omega (arith, in_running_le slot, running_but i slots h)

-- A call of the transport or of the executor raises an exception that is not a CancelledError, while
-- the consumer in the slot `i` of a worker waits for it. Whatever happens before and after the
-- callbacks of the execution, if there is one, have run: the consumer runs no task any longer, so that
-- there are fewer executions than slots; and a shutdown does not get to its end, and leaves the
-- executor and the channels as they were.
pub raises-abandons :
    (i : ℕ) (before later : List Happening) (rt : Runtime)
    → i < length rt.slots
    → awaits (slot_at i rt.slots) ≡ true
    → let failed = after_all before (step (resumes i raises) rt) in
      let at_end = after_all later (step (resumes i wakes) failed) in
      let (ended, rt') = shutdown at_end in
      (slot_at i at_end.slots ≡ broken)
      × (suc (running at_end.slots) ≤ length rt.slots)
      × (ended ≡ false)
      × (rt'.executor_down ≡ at_end.executor_down)
      × (rt'.ipc_closed ≡ at_end.ipc_closed)
raises-abandons i before later rt listed waits =
    let raised : Runtime = step (resumes i raises) rt in
    let failed : Runtime = after_all before raised in
    let woken : Runtime = step (resumes i wakes) failed in
    let at_end : Runtime = after_all later woken in
    let doomed : is_doomed (slot_at i raised.slots) ≡ true =
      ap is_doomed (step_at_listed i raises rt listed)
      ∙ raises-doomed (slot_at i rt.slots) rt waits in
    let still = after_all-doomed i before raised doomed in
    let kept : length failed.slots ≡ length rt.slots =
      length-after_all before raised ∙ length-step (resumes i raises) rt in
    let out : slot_at i woken.slots ≡ broken =
      step_at_listed i wakes failed (omega (arith, listed, kept))
      ∙ wakes-broken (slot_at i failed.slots) failed still in
    let at = broken_stays i later woken out in
    let many : length at_end.slots ≡ length rt.slots =
      length-after_all later woken ∙ (length-step (resumes i wakes) failed ∙ kept) in
    let (_, _, ended, executor, channels) = shutdown-stops at_end in
    let found = any_broken_at i at_end.slots at in
    let cut : (shutdown at_end).0 ≡ false = ground (arith, ended, found) in
    (
      at,
      omega (arith, running_but i at_end.slots at, many),
      cut,
      ground (arith, executor, cut),
      ground (arith, channels, cut),
    )
