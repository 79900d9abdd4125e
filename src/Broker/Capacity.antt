-- ===== src/Broker/Capacity.antt =====
-- taskrunner/queue/broker.py: how many tasks the queue takes.
use distributed_task_runner.Base.{
  ℕ, zero, suc, ◌+◌, ◌≡◌, ◌≢◌, refl, sym, ap, ◌∙◌, inl, inr, String, true, false, none, List, [],
  ◌∷◌, map, arith, ◌==◌, eqb, leb, if◌then◌else◌, Bool-cases, length, take, select, All,
}
use distributed_task_runner.Base.Int.{ℤ}
use distributed_task_runner.Base.Dict.{Dict, lookup, insert, values}
use distributed_task_runner.Models.{TaskEnvelope}
use distributed_task_runner.Broker.State.{
  queue_full, Ref, Broker, ok, raised, write, is_terminal, depth, push,
}
use distributed_task_runner.Broker.Submit.{Arrival, accepted, enter, enqueue, submit_many}
use distributed_task_runner.Broker.Accounted.{push-objects, push-tasks}
use distributed_task_runner.Broker.Filed.{push-Pushed}
use distributed_task_runner.Broker.Preserve.{write_self}

-- The number of the listed tasks that have not ended.
unfoldable open_tasks : (Ref → TaskEnvelope) → List Ref → ℕ
open_tasks objects [] = 0
open_tasks objects (r ∷ rs) =
    (if is_terminal (objects r).status then 0 else 1) + open_tasks objects rs

length-open_tasks :
    (objects : Ref → TaskEnvelope) (rs : List Ref)
    → length rs ≡ open_tasks objects rs + length (select (λ r. is_terminal (objects r).status) rs)
unfolding open_tasks
length-open_tasks objects [] = omega arith
length-open_tasks objects (r ∷ rs) = ground (arith, length-open_tasks objects rs)

length-values : (d : Dict Ref) → length (values d) ≡ length d
unfolding values
length-values [] = refl
length-values ((k, r) ∷ d) = omega (arith, length-values d)

depth-open_tasks : (b : Broker) → depth b ≡ open_tasks b.objects (values b.tasks)
unfolding depth
depth-open_tasks b =
    omega (arith, length-open_tasks b.objects (values b.tasks), length-values b.tasks)

-- A task that is new to the queue: neither its identifier nor its object is in `_tasks`.
pub record Fresh (r : Ref) (b : Broker) : Type 0 where
  pub unlisted : lookup (b.objects r).task_id b.tasks ≡ none
  pub unused : All (λ s. s ≢ r) (values b.tasks)

open_tasks-write :
    (r : Ref) (task : TaskEnvelope) (objects : Ref → TaskEnvelope) (rs : List Ref)
    → All (λ s. s ≢ r) rs
    → open_tasks (write r task objects) rs ≡ open_tasks objects rs
unfolding open_tasks
open_tasks-write r task objects [] h = refl
open_tasks-write r task objects (s ∷ rs) (other, h) = elim (Bool-cases (eqb r s)) [
  | inl t ↦ absurd (other (ground arith))
  | inr f ↦ rw (f, open_tasks-write r task objects rs h) refl
]

open_tasks-insert :
    (k : String) (r : Ref) (objects : Ref → TaskEnvelope) (d : Dict Ref)
    → lookup k d ≡ none
    → is_terminal (objects r).status ≡ false
    → open_tasks objects (values (insert k r d)) ≡ suc (open_tasks objects (values d))
unfolding lookup insert values open_tasks
open_tasks-insert k r objects [] h t = ground arith
open_tasks-insert k r objects ((j, s) ∷ d) h t = elim (Bool-cases (j == k)) [
  | inl same ↦ absurd (ground arith)
  | inr f ↦
      let rest : lookup k d ≡ none = rw f at h in
      rw f (omega (arith, open_tasks-insert k r objects d rest t))
]

depth-push : (now : ℤ) (r : Ref) (b : Broker) → depth (push now r b) ≡ depth b
unfolding depth
depth-push now r b = rw (push-objects, push-tasks) refl

depth-enter : (now : ℤ) (r : Ref) (b : Broker) → Fresh r b → depth (enter now r b) ≡ suc (depth b)
unfolding enter
depth-enter now r b fresh =
    depth-open_tasks (enter now r b)
    ∙ open_tasks-insert task.task_id r (write r task b.objects) b.tasks
        (unfold accepted in fresh.unlisted)
        (rw (write_self r task b.objects) (unfold accepted in unfold is_terminal in refl))
    ∙ ap suc
        (open_tasks-write r task b.objects (values b.tasks) fresh.unused ∙ sym (depth-open_tasks b))
  where
    task : TaskEnvelope
    task = accepted now (b.objects r)

depth-enqueue :
    (now pushed : ℤ) (r : Ref) (b : Broker)
    → Fresh r b
    → depth (enqueue now pushed r b) ≡ suc (depth b)
unfolding enqueue
depth-enqueue now pushed r b fresh = depth-push pushed r (enter now r b) ∙ depth-enter now r b fresh

enqueue-max_depth :
    (now pushed : ℤ) (r : Ref) (b : Broker) → (enqueue now pushed r b).max_depth ≡ b.max_depth
unfolding enqueue enter
enqueue-max_depth now pushed r b =
    ap (λ (x : Broker). x.max_depth) (push-Pushed pushed r (enter now r b)).form

-- A batch that is accepted whole.
unfoldable pub enqueue_all : List Arrival → Broker → Broker
enqueue_all [] b = b
enqueue_all (a ∷ batch) b = enqueue_all batch (enqueue a.now a.pushed a.task b)

-- Each task of a batch is new to the queue that the tasks before it have made.
abbrev pub AllFresh : List Arrival → Broker → Type 0
AllFresh [] b = Unit
AllFresh (a ∷ batch) b = Fresh a.task b × AllFresh batch (enqueue a.now a.pushed a.task b)

depth-enqueue_all :
    (batch : List Arrival) (b : Broker)
    → AllFresh batch b
    → depth (enqueue_all batch b) ≡ depth b + length batch
unfolding enqueue_all
depth-enqueue_all [] b h = omega arith
depth-enqueue_all (a ∷ batch) b (fresh, h) = omega (
  arith,
  depth-enqueue_all batch (enqueue a.now a.pushed a.task b) h,
  depth-enqueue a.now a.pushed a.task b fresh,
)

room_left :
    (a : Arrival) (b : Broker) (room : ℕ)
    → Fresh a.task b
    → depth b + suc room ≡ b.max_depth
    → let b1 : Broker = enqueue a.now a.pushed a.task b in depth b1 + room ≡ b1.max_depth
room_left a b room fresh e =
    omega (
      arith,
      depth-enqueue a.now a.pushed a.task b fresh,
      enqueue-max_depth a.now a.pushed a.task b,
    )

-- On a queue with room for `room` more tasks, a batch of new tasks that is no longer than that is
-- accepted whole. A longer one raises the error of a full queue, and the first `room` of its tasks,
-- in their order, stay in the queue.
pub submit_many-fills :
    (batch : List Arrival) (room : ℕ) (b : Broker)
    → depth b + room ≡ b.max_depth
    → AllFresh batch b
    → submit_many batch b ≡ (
        if leb (length batch) room
        then (ok (map (λ a. a.task) batch), enqueue_all batch b)
        else (raised (queue_full b.max_depth b.max_depth), enqueue_all (take room batch) b))
unfolding submit_many enqueue_all
submit_many-fills [] room b e h = ground arith
submit_many-fills (a ∷ batch) zero b e h =
    let full : leb b.max_depth (depth b) ≡ true = ground arith in
    let same : depth b ≡ b.max_depth = omega arith in
    let longer : leb (suc (length batch)) 0 ≡ false = ground arith in rw (full, longer, same) refl
submit_many-fills (a ∷ batch) (suc room) b e (fresh, h) =
    let b1 = enqueue a.now a.pushed a.task b in
    let limit = enqueue-max_depth a.now a.pushed a.task b in
    let rest = submit_many-fills batch room b1 (room_left a b room fresh e) h in
    let vacant : leb b.max_depth (depth b) ≡ false = ground arith in
    elim (Bool-cases (leb (length batch) room)) [
      | inl t ↦
          let fits : leb (suc (length batch)) (suc room) ≡ true = ground arith in
          rw (vacant, rest, t, fits) refl
      | inr f ↦
          let longer : leb (suc (length batch)) (suc room) ≡ false = ground arith in
          rw (vacant, rest, f, longer, limit) refl
    ]
