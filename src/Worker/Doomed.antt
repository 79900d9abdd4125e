-- ===== src/Worker/Doomed.antt =====
-- taskrunner/workers/manager.py: a consumer that an exception has ended, whatever happens later.
use distributed_task_runner.Base.{
  ℕ, zero, suc, ◌≡◌, refl, ap, List, [], ◌∷◌, Bool, true, false, arith,
}
use distributed_task_runner.Worker.Runtime.{
  Slot, settling, ill, wake, broken, Given, wakes, Runtime, resume, slot_at, put_slot, Happening,
  resumes, beats, stops, step, after_all,
}
use distributed_task_runner.Worker.Histories.{resume-Moved}

-- An exception has ended the consumer, or the execution that it waits for.
unfoldable pub is_doomed : Slot → Bool
is_doomed (settling ill) = true
is_doomed broken = true
is_doomed _ = false

doomed_stays :
    (slot : Slot) (given : Given) (rt : Runtime)
    → is_doomed slot ≡ true
    → is_doomed (resume slot given rt).0 ≡ true
unfolding is_doomed resume wake
doomed_stays (settling ill) wakes rt h = refl
doomed_stays (settling ill) given rt h = refl
doomed_stays broken given rt h = refl
doomed_stays slot given rt h = absurd (ground (arith, h))

-- What no call takes from a slot, no history does.
module _ (P : Slot → Bool)
    (stays : (slot : Slot) (given : Given) (rt : Runtime)
      → P slot ≡ true
      → P (resume slot given rt).0 ≡ true) where
  -- `s` is the slot `i` after it has been put there, if there is such a slot.
  slot_at-put_slot :
      (i j : ℕ) (s : Slot) (slots : List Slot)
      → P (slot_at j slots) ≡ true
      → (P (slot_at i slots) ≡ true → P s ≡ true)
      → P (slot_at j (put_slot i s slots)) ≡ true
  unfolding slot_at put_slot
  slot_at-put_slot i j s [] h k = h
  slot_at-put_slot zero zero s (t ∷ slots) h k = k h
  slot_at-put_slot zero (suc j) s (t ∷ slots) h k = h
  slot_at-put_slot (suc i) zero s (t ∷ slots) h k = h
  slot_at-put_slot (suc i) (suc j) s (t ∷ slots) h k = slot_at-put_slot i j s slots h k

  step_keeps :
      (i : ℕ) (h : Happening) (rt : Runtime)
      → P (slot_at i rt.slots) ≡ true
      → P (slot_at i (step h rt).slots) ≡ true
  unfolding step
  step_keeps i (resumes j given) rt h =
      let slot = slot_at j rt.slots in
      let slot' : Slot = (resume slot given rt).0 in
      let same = (resume-Moved slot given rt).same_slots in
      rw same (slot_at-put_slot j i slot' rt.slots h (stays slot given rt))
  step_keeps i (beats given) rt h = h
  step_keeps i stops rt h = h

  after_all_keeps :
      (i : ℕ) (history : List Happening) (rt : Runtime)
      → P (slot_at i rt.slots) ≡ true
      → P (slot_at i (after_all history rt).slots) ≡ true
  unfolding after_all
  after_all_keeps i [] rt h = h
  after_all_keeps i (happening ∷ hs) rt h =
      after_all_keeps i hs (step happening rt) (step_keeps i happening rt h)

pub after_all-doomed :
    (i : ℕ) (history : List Happening) (rt : Runtime)
    → is_doomed (slot_at i rt.slots) ≡ true
    → is_doomed (slot_at i (after_all history rt).slots) ≡ true
after_all-doomed i history rt h = after_all_keeps is_doomed doomed_stays i history rt h

is_broken : Slot → Bool
is_broken broken = true
is_broken _ = false

broken_keeps :
    (slot : Slot) (given : Given) (rt : Runtime)
    → is_broken slot ≡ true
    → is_broken (resume slot given rt).0 ≡ true
unfolding is_broken resume
broken_keeps broken given rt h = refl
broken_keeps slot given rt h = absurd (ground (arith, h))

broken_is : (slot : Slot) → is_broken slot ≡ true → slot ≡ broken
unfolding is_broken
broken_is broken h = refl
broken_is slot h = absurd (ground (arith, h))

-- A consumer that an exception has ended stays so.
pub broken_stays :
    (i : ℕ) (history : List Happening) (rt : Runtime)
    → slot_at i rt.slots ≡ broken
    → slot_at i (after_all history rt).slots ≡ broken
unfolding is_broken
broken_stays i history rt h =
    broken_is _ (after_all_keeps is_broken broken_keeps i history rt (ap is_broken h))
