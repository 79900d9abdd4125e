-- ===== src/Broker/Runs.antt =====
-- taskrunner/queue/broker.py: what is promised of every history, at small ones.
use distributed_task_runner.Base.{
  ◌≡◌, refl, inl, true, some, [], ◌∷◌, map, if◌then◌else◌, arith, List, length, leb, take,
}
use distributed_task_runner.Base.Int.{pos, ◌+ℤ◌}
use distributed_task_runner.Base.Dict.{lookup}
use distributed_task_runner.Models.{new_envelope}
use distributed_task_runner.Broker.State.{Ref, Broker, queue_full, new_queue, ok, raised}
use distributed_task_runner.Broker.Submit.{Arrival, submit_many}
use distributed_task_runner.Broker.Reserve.{attempt}
use distributed_task_runner.Broker.Waiting.{Round, reserve}
use distributed_task_runner.Broker.Reach.{step, here, Reach-WellFormed}
use distributed_task_runner.Broker.Accounted.{waits, AllAccounted}
use distributed_task_runner.Broker.Live.{Reach-AllAccounted, attempt-serves}
use distributed_task_runner.Broker.Capacity.{AllFresh, enqueue_all, submit_many-fills}
use distributed_task_runner.Broker.Returns.{Answered, reserve-Answered}
use distributed_task_runner.Broker.Tests.{objects, worker, start, loaded, loading}

code : Unit {0}
unfolding new_queue new_envelope step
code = tt

Reach-AllAccounted_example : AllAccounted loaded
Reach-AllAccounted_example = Reach-AllAccounted 10 objects loading ((tt, tt), tt)

loaded_now : (lookup "fast" loaded.tasks ≡ some 1) × (waits (loaded.objects 1).status ≡ true)
unfolding code waits
loaded_now = (refl, refl)

attempt-serves_example :
    (s : Ref) × ((attempt (pos 4) (pos 4) worker [] (pos 30) loaded).0 ≡ ok (some s))
unfolding code
attempt-serves_example =
    attempt-serves worker [] (pos 4) (pos 4) (pos 30) "fast" 1 loaded
      (Reach-WellFormed 10 objects loading) Reach-AllAccounted_example loaded_now.0 loaded_now.1
      refl refl (λ e m named. absurd m)

-- A queue for one task, and a batch of two.
abbrev narrow : Broker
narrow = new_queue 1 objects

abbrev two : List Arrival
two =
    record { task = 0; now = pos 3; pushed = pos 3 }
    ∷ record { task = 1; now = pos 3; pushed = pos 3 }
    ∷ []

two-Fresh : AllFresh two narrow
unfolding code
two-Fresh = (
  record { unlisted = refl; unused = tt },
  (record { unlisted = refl; unused = (λ e. absurd (omega (arith, e)), tt) }, tt),
)

submit_many-fills_example : submit_many two narrow ≡ (
    if leb (length two) 1
    then (ok (map (λ a. a.task) two), enqueue_all two narrow)
    else (raised (queue_full 1 1), enqueue_all (take 1 two) narrow))
unfolding code
submit_many-fills_example = submit_many-fills two 1 narrow refl two-Fresh

-- A round that reads a clock a second after the start, with a timeout of a second.
abbrev round : Round
round = record {
  worker = worker;
  completed = [];
  now = pos 4;
  leased = pos 4;
  monotonic = pos 1000000;
  meanwhile = λ b. b;
}

reserve-Answered_example :
    Answered []
      (pos 30)
      (round ∷ [])
      (reserve [] (pos 30) (some (pos 1000000)) (pos 0) (round ∷ []) start)
unfolding ◌+ℤ◌
reserve-Answered_example =
    reserve-Answered [] (pos 30) (pos 0) (pos 1000000) (round ∷ []) start
      (Reach-WellFormed 10 objects here) (λ b h. h, tt) (round, inl refl, inl (omega arith))
