-- ===== src/Broker/Kept.antt =====
-- taskrunner/queue/broker.py: the methods that submit and settle tasks lose none.
use distributed_task_runner.Base.{
  ◌≡◌, ◌≢◌, refl, sym, ap, subst, ◌∙◌, inl, inr, String, Bool, ◌||◌, Option, none, some, List, [],
  ◌∷◌, true, false, arith, ◌==◌, eq_iff, eqb, leb, Bool-cases, Option-cases,
}
use text.Mathlib.TextPositions.{eq_refl}
use distributed_task_runner.Base.Int.{ℤ}
use distributed_task_runner.Base.Dict.{lookup, insert, lookup-insert, lookup-erase}
use distributed_task_runner.Base.Text.{elem, add, elem-add}
use distributed_task_runner.Models.{TaskEnvelope, TaskStatus, retrying, cancelled}
use distributed_task_runner.Broker.State.{Ref, Broker, write, push, depth, is_terminal}
use distributed_task_runner.Broker.Submit.{Arrival, accepted, enter, enqueue, submit, submit_many}
use distributed_task_runner.Broker.Settle.{
  find_task, release, ack, ended, complete, counted, exhausted, backoff, retry_task, retry, cancel,
}
use distributed_task_runner.Broker.WellFormed.{WellFormed}
use distributed_task_runner.Broker.Preserve.{
  write_self, prepend_state, enqueue-WellFormed, find_task-Known,
}
use distributed_task_runner.Broker.Accounted.{
  waits, Pending, Accounted, dropped, waiting, settled, acknowledged, AllAccounted, OthersAccounted,
  Accounted-move, push-objects, push-tasks, push-cancelled, push-inflight, push-Pending,
  push-Pending_self, settle-AllAccounted,
}

pub write_other :
    (r s : Ref) (task : TaskEnvelope) (objects : Ref → TaskEnvelope)
    → s ≢ r
    → write r task objects s ≡ objects s
write_other r s task objects other = elim (Bool-cases (eqb r s)) [
  | inl t ↦ absurd (other (ground arith))
  | inr f ↦ rw f
]

others : (r : Ref) (b : Broker) → AllAccounted b → OthersAccounted r b
others r b a j s listed other = a j s listed

-- A task that waits and has just been pushed.
pushed_waits :
    (now : ℤ) (r : Ref) (k : String) (b : Broker)
    → (b.objects r).task_id ≡ k
    → waits (b.objects r).status ≡ true
    → Accounted k r (push now r b)
pushed_waits now r k b named w =
    let object : (push now r b).objects r ≡ b.objects r = ap (λ f. f r) (push-objects now r b) in
    waiting (rw object w) (
      subst (λ x. Pending k x.spec (push now r b)) (sym object)
        (subst (λ i. Pending i (b.objects r).spec (push now r b)) named
          (push-Pending_self now r b)))

enqueue-AllAccounted :
    (now pushed : ℤ) (r : Ref) (b : Broker)
    → WellFormed b
    → AllAccounted b
    → AllAccounted (enqueue now pushed r b)
unfolding enqueue enter
enqueue-AllAccounted now pushed r b h a j s listed = elim (Bool-cases (task.task_id == j)) [
  | inl t ↦
      let is_j = (eq_iff task.task_id j).0 t in
      let p : some r ≡ some s = (rw (lookup-insert, t) at was) in
      let q : r ≡ s = ground arith in
      subst (λ x. Accounted j x (push pushed r b1)) q
        (pushed_waits pushed r j b1 (ap (λ x. x.task_id) wrote ∙ is_j)
          (rw wrote (unfold accepted in unfold waits in refl)))
  | inr f ↦
      let before : lookup j b.tasks ≡ some s = (rw (lookup-insert, f) at was) in
      let other : s ≢ r = λ p.
        let named : task.task_id ≡ j =
          unfold accepted in subst (λ x. (b.objects x).task_id ≡ j) p (h.task_names j s before) in
        cc (f, (eq_iff task.task_id j).1 named) in
      let same : (push pushed r b1).objects s ≡ b.objects s =
        ap (λ f. f s) (push-objects pushed r b1) ∙ write_other r s task b.objects other in
      Accounted-move j s b (push pushed r b1) (ap (λ x. x.status) same) (ap (λ x. x.spec) same)
        (λ d. rw (push-cancelled pushed r b1) d)
        (λ e. subst (λ m. lookup j m ≡ some s) (sym (push-inflight pushed r b1)) e)
        (λ w p. inr (push-Pending j (b.objects s).spec pushed r b1 p)) (a j s before)
]
  where
    task : TaskEnvelope
    task = accepted now (b.objects r)

    b1 : Broker
    b1 = enter now r b

    wrote : b1.objects r ≡ task
    wrote = write_self r task b.objects

    was : lookup j (insert task.task_id r b.tasks) ≡ some s
    was = subst (λ m. lookup j m ≡ some s) (push-tasks pushed r b1) listed

pub submit-AllAccounted :
    (now pushed : ℤ) (r : Ref) (b : Broker)
    → WellFormed b
    → AllAccounted b
    → AllAccounted (submit now pushed r b).1
unfolding submit
submit-AllAccounted now pushed r b h a = elim (Bool-cases (leb b.max_depth (depth b))) [
  | inl t ↦ rw t a
  | inr f ↦ rw f (enqueue-AllAccounted now pushed r b h a)
]

pub submit_many-AllAccounted :
    (batch : List Arrival) (b : Broker)
    → WellFormed b
    → AllAccounted b
    → AllAccounted (submit_many batch b).1
unfolding submit_many
submit_many-AllAccounted [] b h a = a
submit_many-AllAccounted (x ∷ batch) b h a = elim (Bool-cases (leb b.max_depth (depth b))) [
  | inl t ↦ rw t a
  | inr f ↦
      let next = enqueue x.now x.pushed x.task b in
      rw (f, prepend_state x.task (submit_many batch next))
        (submit_many-AllAccounted batch next (enqueue-WellFormed x.now x.pushed x.task b h)
          (enqueue-AllAccounted x.now x.pushed x.task b h a))
]

-- A key that is not in flight is taken out of it in vain.
pub release-AllAccounted :
    (k : String) (b : Broker) → find_task k b ≡ none → AllAccounted b → AllAccounted (release k b)
unfolding release find_task
release-AllAccounted k b absent a j s listed =
    Accounted-move j s b (release k b) refl refl (λ d. d)
      (λ flying. elim (Bool-cases (k == j)) [
        | inl t ↦
            let is_j = (eq_iff k j).0 t in
            let gone : lookup k b.tasks ≡ none = elim (Option-cases (lookup k b.inflight)) [
              | inl e ↦ (rw (e, find_task) at absent)
              | inr (x, e) ↦ absurd (not_some x (rw (e, find_task) at absent))
            ] in
            absurd (not_some s (sym listed ∙ subst (λ i. lookup i b.tasks ≡ none) is_j gone))
        | inr f ↦ rw (lookup-erase, f) flying
      ])
      (λ w p. inr p) (a j s listed)
  where
    not_some : (x : Ref) → some x ≡ none → ⊥
    not_some x e = cc

pub ack-AllAccounted :
    (k : String) (b : Broker) → WellFormed b → AllAccounted b → AllAccounted (ack k b).1
unfolding ack release
ack-AllAccounted k b h a = elim (Option-cases (find_task k b)) [
  | inl absent ↦ rw (absent, ack) (release-AllAccounted k b absent a)
  | inr (r, found) ↦
      rw (found, ack)
        (settle-AllAccounted k r b _ h found (others r b a) refl refl refl
          (λ s other. write_other r s _ b.objects other) (λ j spec p. p)
          (acknowledged (rw (write_self r _ b.objects) refl)))
]

pub complete-AllAccounted :
    (k : String) (status : TaskStatus) (error : Option String) (b : Broker)
    → is_terminal status ≡ true
    → WellFormed b
    → AllAccounted b
    → AllAccounted (complete k status error b).1
unfolding complete release ended
complete-AllAccounted k status error b ends h a = elim (Option-cases (find_task k b)) [
  | inl absent ↦ rw (absent, complete) (release-AllAccounted k b absent a)
  | inr (r, found) ↦
      rw (found, complete)
        (settle-AllAccounted k r b _ h found (others r b a) refl refl refl
          (λ s other. write_other r s _ b.objects other) (λ j spec p. p)
          (settled (rw (write_self r _ b.objects) ends)))
]

-- `retry`, where the task that it finds need not be accounted for.
pub retry_others :
    (now pushed : ℤ) (k reason : String) (r : Ref) (b : Broker)
    → WellFormed b
    → find_task k b ≡ some r
    → OthersAccounted r b
    → AllAccounted (retry now pushed k reason b).1
unfolding retry retry_task counted
retry_others now pushed k reason r b h found a = elim (Bool-cases (exhausted task)) [
  | inl t ↦
      rw (found, retry, t)
        (settle-AllAccounted k r b _ h found a refl refl refl
          (λ s other. write_other r s _ b.objects other) (λ j spec p. p)
          (settled (rw (write_self r _ b.objects) (unfold is_terminal in refl))))
  | inr f ↦
      rw (found, retry, f)
        (settle-AllAccounted k r b (push pushed r b1) h found a (push-tasks pushed r b1)
          (push-cancelled pushed r b1) (push-inflight pushed r b1)
          (λ s other.
            ap (λ g. g s) (push-objects pushed r b1) ∙ write_other r s again b.objects other)
          (λ j spec p. push-Pending j spec pushed r b1 p)
          (pushed_waits pushed r k b1
            (ap (λ x. x.task_id) wrote ∙ (find_task-Known k b r h found).0)
            (rw wrote (unfold waits in refl))))
]
  where
    task : TaskEnvelope
    task = counted reason (b.objects r)

    again : TaskEnvelope
    again = record task { status = retrying; available_at = backoff now task }

    b1 : Broker
    b1 = record (release k b) { objects = write r again b.objects }

    wrote : b1.objects r ≡ again
    wrote = write_self r again b.objects

pub retry-AllAccounted :
    (now pushed : ℤ) (k reason : String) (b : Broker)
    → WellFormed b
    → AllAccounted b
    → AllAccounted (retry now pushed k reason b).1
unfolding retry
retry-AllAccounted now pushed k reason b h a = elim (Option-cases (find_task k b)) [
  | inl absent ↦ rw (absent, retry) (release-AllAccounted k b absent a)
  | inr (r, found) ↦ retry_others now pushed k reason r b h found (others r b a)
]

pub cancel-AllAccounted :
    (k : String) (b : Broker) → WellFormed b → AllAccounted b → AllAccounted (cancel k b).1
unfolding cancel release
cancel-AllAccounted k b h a = elim (Option-cases (lookup k b.tasks)) [
  | inl absent ↦ rw (absent, cancel) a
  | inr (r, found) ↦
      rw (found, cancel)
        (λ j s listed. elim (Bool-cases (k == j)) [
          | inl t ↦ dropped (
              subst (λ i. elem i (add k b.cancelled) ≡ true) ((eq_iff k j).0 t)
                (rw (elem-add, eq_refl)))
          | inr f ↦
              let other : s ≢ r = λ p.
                let named : k ≡ j =
                  sym (h.task_names k r found)
                  ∙ subst (λ x. (b.objects x).task_id ≡ j) p (h.task_names j s listed) in
                cc (f, (eq_iff k j).1 named) in
              let same =
                write_other r s (record (b.objects r) { status = cancelled }) b.objects other in
              Accounted-move j s b _ (ap (λ x. x.status) same) (ap (λ x. x.spec) same)
                (λ d. rw (elem-add, d) (or_true (k == j))) (λ e. rw (lookup-erase, f) e)
                (λ w p. inr p) (a j s listed)
        ])
]
  where
    or_true : (x : Bool) → (x || true) ≡ true
    or_true true = refl
    or_true false = refl
