-- ===== src/Locks/Tests.antt =====
-- taskrunner/shared/locks.py: two callers of one lock.
use distributed_task_runner.Base.{◌≡◌, refl, List, [], ◌∷◌}
use distributed_task_runner.Locks.{
  new_manager, LockStep, arrives, resumes, times_out, leaves, lock_steps,
}
use distributed_task_runner.Locks.Exclusion.{Exclusive, lock_steps-Exclusive}

-- Callers 2 and 3 wait for caller 1; 2 is woken, gives up, and so 3 has the lock.
abbrev contended : List LockStep
contended =
    arrives "queue:default" 1
    ∷ arrives "queue:default" 2
    ∷ arrives "queue:default" 3
    ∷ leaves "queue:default" 1
    ∷ times_out "queue:default" 2
    ∷ resumes "queue:default" 3
    ∷ []

third_inside : ((lock_steps contended new_manager).locks "queue:default").inside ≡ 3 ∷ []
unfolding lock_steps new_manager
third_inside = refl

lock_steps-Exclusive_example : Exclusive ((lock_steps contended new_manager).locks "queue:default")
lock_steps-Exclusive_example = lock_steps-Exclusive contended "queue:default"
