-- ===== src/Store/Queries.antt =====
-- taskrunner/database/store.py: the statements that read. A row is given whole, and rows of the same
-- time, whose order SQL leaves open, stay in the order of the table.
use distributed_task_runner.Base.{
  ℕ, suc, String, none, some, List, [], ◌∷◌, ◌==◌, if◌then◌else◌, select, take,
}
use distributed_task_runner.Base.Int.{ℤ, ltb_ℤ}
use distributed_task_runner.Base.Dict.{Dict, lookup, insert, values}
use distributed_task_runner.Base.Text.{str_leb}
use distributed_task_runner.Models.{WorkerInfo, status_text}
use distributed_task_runner.Store.{TaskRow, LogRow, Store}

module _ {A : Type 0} (time : A → ℤ) where
  -- ORDER BY … DESC
  unfoldable pub file_recent : A → List A → List A
  file_recent a [] = a ∷ []
  file_recent a (x ∷ xs) = if ltb_ℤ (time a) (time x) then x ∷ file_recent a xs else a ∷ x ∷ xs

  unfoldable pub recent_first : List A → List A
  unfolding file_recent
  recent_first [] = []
  recent_first (x ∷ xs) = file_recent x (recent_first xs)

-- For a limit that is not below 0, as in `logs`.
unfoldable pub recent_tasks : (limit : ℕ) → Store → Dict TaskRow
unfolding recent_first
recent_tasks limit store = take limit (recent_first (λ entry. entry.1.updated_at) store.tasks)

unfoldable pub logs : (entity_id : String) (limit : ℕ) → Store → List LogRow
unfolding recent_first
logs entity_id limit store =
    take limit
      (recent_first (λ log. log.created_at) (select (λ log. log.entity_id == entity_id) store.logs))

-- ORDER BY worker_id
unfoldable pub file_worker : String → WorkerInfo → Dict WorkerInfo → Dict WorkerInfo
file_worker name worker [] = (name, worker) ∷ []
file_worker name worker ((other, next) ∷ rest) =
    if str_leb name other
    then (name, worker) ∷ (other, next) ∷ rest
    else (other, next) ∷ file_worker name worker rest

unfoldable pub by_worker_id : Dict WorkerInfo → Dict WorkerInfo
unfolding file_worker
by_worker_id [] = []
by_worker_id ((name, worker) ∷ rest) = file_worker name worker (by_worker_id rest)

unfoldable pub workers : Store → List WorkerInfo
unfolding by_worker_id values
workers store = values (by_worker_id store.workers)

-- COUNT(*) … GROUP BY status
unfoldable pub count_one : String → Dict ℕ → Dict ℕ
unfolding lookup insert
count_one status counts = elim (lookup status counts) [
  | none ↦ insert status 1 counts
  | some n ↦ insert status (suc n) counts
]

unfoldable pub count_all : List TaskRow → Dict ℕ
unfolding count_one status_text
count_all [] = []
count_all (row ∷ rows) = count_one (status_text row.status) (count_all rows)

unfoldable pub task_counts : Store → Dict ℕ
unfolding count_all values
task_counts store = count_all (values store.tasks)
