-- ===== src/Worker/Ends.antt =====
-- taskrunner/workers/manager.py: what a worker writes to the shared counters when a result has
-- been reported.
use Prim.Native.Char.{Char}
use text.Mathlib.TextLemmas.{cons≢nil}
use distributed_task_runner.Base.{
  ℕ, zero, suc, ◌+◌, ◌<◌, ◌≡◌, refl, ◌∙◌, sym, ap, subst, some, List, [], ◌∷◌, Bool, true, false,
  arith, length, Option, none, String, ◌==◌, eq_iff, Bool-cases, inl, inr, if◌then◌else◌,
}
use distributed_task_runner.Models.{TaskResult}
use distributed_task_runner.Worker.Ipc.{word, read_shared_counters}
use distributed_task_runner.Worker.Counters.{read_shared_counters-write_shared_counters}
use distributed_task_runner.Worker.Runtime.{
  Slot, reporting, settling, well, wake, Given, reported, wakes, Runtime, in_running, running, turn,
  resume, write_counters, or_ill, end_execution, put_result, count_result, has_error, slot_at,
  put_slot, resumes, step,
}
use distributed_task_runner.Worker.Sound.{
  length-put_slot, running-put_slot, count_result-Same, count_result_sum,
}

in_running-wake : (stop : Bool) → in_running (wake well stop) ≡ 0
unfolding in_running wake turn
in_running-wake true = refl
in_running-wake false = refl

pub slot_at_put :
    (i : ℕ) (s : Slot) (slots : List Slot) → i < length slots → slot_at i (put_slot i s slots) ≡ s
unfolding slot_at put_slot
slot_at_put i s [] h = absurd (omega (arith, h))
slot_at_put zero s (t ∷ slots) h = refl
slot_at_put (suc i) s (t ∷ slots) h = slot_at_put i s slots (omega (arith, h))

slot_at_listed :
    (i : ℕ) (result : TaskResult) (slots : List Slot)
    → slot_at i slots ≡ reporting result
    → i < length slots
unfolding slot_at
slot_at_listed i result [] h = absurd (ground arith)
slot_at_listed zero result (t ∷ slots) h = omega arith
slot_at_listed (suc i) result (t ∷ slots) h = omega (arith, slot_at_listed i result slots h)

-- To `completed` and `failed` one result more is counted, as failed if it has an error that is not
-- empty, and as completed otherwise.
pub Counted : Option String → (completed failed completed' failed' : ℕ) → Type 0
Counted none c f c' f' = (c' ≡ suc c) × (f' ≡ f)
Counted (some String.[]) c f c' f' = (c' ≡ suc c) × (f' ≡ f)
Counted (some (String.◌∷◌ x s)) c f c' f' = (c' ≡ c) × (f' ≡ suc f)

cons_is_text : (x : Char) (s : String) → (String.◌∷◌ x s == "") ≡ false
cons_is_text x s = elim (Bool-cases (String.◌∷◌ x s == "")) [
  | inl e ↦ absurd (cons≢nil ((eq_iff (String.◌∷◌ x s) "").0 e))
  | inr e ↦ e
]

count_as-Counted :
    (error : Option String) (rt : Runtime)
    → let rt' : Runtime =
        if has_error error
        then record rt { failed = suc rt.failed }
        else record rt { completed = suc rt.completed } in
      Counted error rt.completed rt.failed rt'.completed rt'.failed
unfolding has_error Counted
count_as-Counted none rt = (refl, refl)
count_as-Counted (some String.[]) rt = (refl, refl)
count_as-Counted (some (String.◌∷◌ x s)) rt = rw (cons_is_text x s) (refl, refl)

count_result-Counted :
    (result : TaskResult) (rt : Runtime)
    → let rt' : Runtime = count_result result (put_result result rt) in
      Counted result.error rt.completed rt.failed rt'.completed rt'.failed
unfolding count_result put_result
count_result-Counted result rt = count_as-Counted result.error (put_result result rt)

-- Counters that fit are in the shared memory of the state that the writing leaves.
write_counters-reads :
    (rt : Runtime)
    → running rt.slots < word
    → rt.completed < word
    → rt.failed < word
    → (rt' : Runtime) × (write_counters rt ≡ some rt')
      × (rt'.slots ≡ rt.slots)
      × (rt'.completed ≡ rt.completed)
      × (rt'.failed ≡ rt.failed)
      × (read_shared_counters rt'.ipc ≡ (running rt.slots, rt.completed, rt.failed))
unfolding write_counters
write_counters-reads rt lr lc lf =
    let (ipc', e, read, _, _) =
      read_shared_counters-write_shared_counters (running rt.slots) rt.completed rt.failed rt.ipc lr
        lc lf in
    (record rt { ipc = ipc' }, rw (e, write_counters) refl, refl, refl, refl, read)

-- What `end_execution` leaves, when the counters fit.
end_execution-reads :
    (result : TaskResult) (rt : Runtime)
    → running rt.slots < word
    → suc (rt.completed + rt.failed) < word
    → let (slot, rt') = end_execution result rt in
      (slot ≡ settling well)
      × (rt'.slots ≡ rt.slots)
      × Counted result.error rt.completed rt.failed rt'.completed rt'.failed
      × (read_shared_counters rt'.ipc ≡ (running rt.slots, rt'.completed, rt'.failed))
unfolding end_execution or_ill put_result
end_execution-reads result rt lr lc =
    let counted : Runtime = count_result result (put_result result rt) in
    let same = count_result-Same result (put_result result rt) in
    let sum = count_result_sum result (put_result result rt) in
    let few : running counted.slots < word = rw same.slots lr in
    let (rt', e, slots, completed, failed, read) =
      write_counters-reads counted few (omega (arith, sum, lc)) (omega (arith, sum, lc)) in
    rw e (
      refl,
      slots ∙ same.slots,
      rw (completed, failed) (count_result-Counted result rt),
      read ∙ λ i. (ap running same.slots i, sym completed i, sym failed i),
    )

-- The state after a part of the consumer in slot `i`.
placed : ℕ → Slot × Runtime → Runtime
placed i (slot, rt) = record rt { slots = put_slot i slot rt.slots }

step_at :
    (i : ℕ) (given : Given) (rt : Runtime) (slot : Slot)
    → slot_at i rt.slots ≡ slot
    → step (resumes i given) rt ≡ placed i (resume slot given rt)
unfolding step placed
step_at i given rt slot at = ap (λ s. placed i (resume s given rt)) at

-- When a result has been reported and the counters fit in 64 bits, it is counted as failed if it has
-- an error that is not empty, and as completed otherwise; what is read from the shared memory is
-- these two counts and the number of executions that are in `self._running`, that which ends
-- included. When this leaves the set, later, the shared
-- memory stays as it is, and so shows one execution more than run.
pub step-counters :
    (i : ℕ) (result : TaskResult) (rt : Runtime)
    → slot_at i rt.slots ≡ reporting result
    → running rt.slots < word
    → suc (rt.completed + rt.failed) < word
    → let rt1 : Runtime = step (resumes i reported) rt in
      let rt2 : Runtime = step (resumes i wakes) rt1 in
      (read_shared_counters rt1.ipc ≡ (running rt.slots, rt1.completed, rt1.failed))
      × Counted result.error rt.completed rt.failed rt1.completed rt1.failed
      × (rt2.ipc ≡ rt1.ipc)
      × (running rt.slots ≡ suc (running rt2.slots))
unfolding resume in_running placed
step-counters i result rt at lr lc =
    let ended : Slot × Runtime = end_execution result rt in
    let (settles, slots, counts, read) = end_execution-reads result rt lr lc in
    let listed = slot_at_listed i result rt.slots at in
    let there : step (resumes i reported) rt ≡ placed i ended =
      step_at i reported rt (reporting result) at in
    let rt1 : Runtime = step (resumes i reported) rt in
    let left : rt1.slots ≡ put_slot i (settling well) rt.slots =
      ap (λ (r : Runtime). r.slots) there ∙ λ j. put_slot i (settles j) (slots j) in
    let at1 : slot_at i rt1.slots ≡ settling well =
      ap (slot_at i) left ∙ slot_at_put i (settling well) rt.slots listed in
    let woken : step (resumes i wakes) rt1 ≡ placed i (wake well rt1.stop, rt1) =
      step_at i wakes rt1 (settling well) at1 in
    let before = running-put_slot i (settling well) rt.slots listed in
    let one : in_running (slot_at i rt.slots) ≡ 1 = rw at refl in
    let same : running rt1.slots ≡ running rt.slots =
      ap running left ∙ omega (arith, before, one) in
    let still : i < length rt1.slots = rw (left, length-put_slot) listed in
    let after = running-put_slot i (wake well rt1.stop) rt1.slots still in
    let one_left : in_running (slot_at i rt1.slots) ≡ 1 = rw at1 refl in
    let none_left = in_running-wake rt1.stop in
    (
      subst
          (λ (r : Runtime). read_shared_counters r.ipc ≡ (running rt.slots, r.completed, r.failed))
          (sym there) read,
      subst (λ (r : Runtime). Counted result.error rt.completed rt.failed r.completed r.failed)
          (sym there) counts,
      ap (λ (r : Runtime). r.ipc) woken,
      subst (λ (r : Runtime). running rt.slots ≡ suc (running r.slots)) (sym woken)
          (omega (arith, same, after, one_left, none_left)),
    )
