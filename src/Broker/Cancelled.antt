-- ===== src/Broker/Cancelled.antt =====
-- taskrunner/queue/broker.py: what `cancel` promises. The set of cancelled tasks only grows.
use distributed_task_runner.Base.{
  ◌≡◌, ◌≢◌, refl, ap, subst, ◌∙◌, inl, inr, String, true, false, Option, none, some, List, [], ◌∷◌,
  arith, eq_iff, leb, Bool-cases, Option-cases,
}
use distributed_task_runner.Base.Int.{ℤ}
use distributed_task_runner.Base.Dict.{Dict, lookup}
use distributed_task_runner.Base.Text.{elem, elem-add}
use distributed_task_runner.Models.{WorkerInfo}
use distributed_task_runner.Broker.State.{Ref, Broker, Outcome, ok, raised, push, depth}
use distributed_task_runner.Broker.Submit.{Arrival, enter, enqueue, submit, submit_many}
use distributed_task_runner.Broker.Reserve.{promote, pop_eligible, lease, hand_out, attempt}
use distributed_task_runner.Broker.Settle.{
  release, ack, complete, retry_task, retry, cancel, expired, unassign, requeue_one, requeue_items,
  requeue_expired_leases,
}
use distributed_task_runner.Broker.Views.{snapshot}
use distributed_task_runner.Broker.WellFormed.{WellFormed}
use distributed_task_runner.Broker.Preserve.{cancel-WellFormed, prepend_state, and_then-state}
use distributed_task_runner.Broker.Promote.{promote-Refiled, promote-WellFormed}
use distributed_task_runner.Broker.Scan.{live}
use distributed_task_runner.Broker.Entries.{ReadyEntry}
use distributed_task_runner.Broker.Choice.{Chosen, pop_eligible-Searched}
use distributed_task_runner.Broker.Attempt.{attempt-Chosen}
use distributed_task_runner.Broker.Reach.{
  Call, submits, submits_many, attempts, acks, completes, retries, cancels, requeues, snapshots,
  step, Reach, here, next, Reach-keeps-WellFormed,
}

-- `b'` has the cancelled tasks of `b`.
abbrev Same : Broker → Broker → Type 0
Same b b' = b'.cancelled ≡ b.cancelled

push-Same : (now : ℤ) (r : Ref) (b : Broker) → Same b (push now r b)
unfolding push
push-Same now r b = ground arith

submit_many-Same : (batch : List Arrival) (b : Broker) → Same b (submit_many batch b).1
unfolding submit_many enqueue enter
submit_many-Same [] b = refl
submit_many-Same (a ∷ batch) b = elim (Bool-cases (leb b.max_depth (depth b))) [
  | inl t ↦ rw t
  | inr f ↦
      rw (f, prepend_state a.task (submit_many batch (enqueue a.now a.pushed a.task b)))
        (submit_many-Same batch (enqueue a.now a.pushed a.task b)
          ∙ push-Same a.pushed a.task (enter a.now a.task b))
]

retry-Same :
    (now pushed : ℤ) (k reason : String) (b : Broker) → Same b (retry now pushed k reason b).1
unfolding retry retry_task release push
retry-Same now pushed k reason b = ground arith

requeue_items-Same :
    (now : ℤ) (clock : String → ℤ × ℤ) (items : Dict Ref) (b : Broker)
    → Same b (requeue_items now clock items b).1
unfolding requeue_items requeue_one unassign release
requeue_items-Same now clock [] b = refl
requeue_items-Same now clock ((k, r) ∷ items) b = elim (Bool-cases (expired now (b.objects r))) [
  | inl t ↦
      rw (t, requeue_items)
        (and_then-state (Same b) (requeue_one now (clock k) k r b) (requeue_items now clock items)
          (retry-Same (clock k).0 (clock k).1 k "lease expired" (unassign k r b))
          (λ c same. requeue_items-Same now clock items c ∙ same))
  | inr f ↦ rw (f, requeue_items) (requeue_items-Same now clock items b)
]

promote-Same : (now : ℤ) (b : Broker) → WellFormed b → Same b (promote now b)
promote-Same now b h = ap (λ c. c.cancelled) (promote-Refiled now b h).form

not_live : (e : ReadyEntry) (ks : List String) → live ks e ≡ true → elem e.task_id ks ≡ false
not_live e ks h = ground arith

hand_out-Same :
    (worker_id : String) (deadline : ℤ) (b : Broker) (m : Outcome (Option Ref) × Broker)
    → Same b m.1
    → Same b (hand_out worker_id deadline m).1
unfolding lease
hand_out-Same worker_id deadline b (ok (some r), c) s = s
hand_out-Same worker_id deadline b (ok none, c) s = s
hand_out-Same worker_id deadline b (raised e, c) s = s

attempt-Same :
    (now leased lease_seconds : ℤ) (worker : WorkerInfo) (completed : List String) (b : Broker)
    → WellFormed b
    → Same b (attempt now leased worker completed lease_seconds b).1
unfolding attempt
attempt-Same now leased lease_seconds worker completed b h =
    let searched =
      pop_eligible-Searched worker completed (promote now b) (promote-WellFormed now b h) in
    hand_out-Same worker.worker_id _ b (pop_eligible worker completed (promote now b))
      (ap (λ c. c.cancelled) searched.form ∙ promote-Same now b h)

-- Once cancelled, a task stays among the cancelled.
step-cancelled :
    (k : String) (call : Call) (b : Broker)
    → WellFormed b
    → elem k b.cancelled ≡ true
    → elem k (step call b).cancelled ≡ true
unfolding step submit enqueue enter ack complete cancel release requeue_expired_leases snapshot
step-cancelled k (submits now pushed r) b h c = ground (arith, push-Same pushed r (enter now r b))
step-cancelled k (submits_many batch) b h c = rw (submit_many-Same batch b) c
step-cancelled k (attempts now leased worker completed lease_seconds) b h c =
    rw (attempt-Same now leased lease_seconds worker completed b h) c
step-cancelled k (acks j) b h c = ground arith
step-cancelled k (completes j status error) b h c = ground arith
step-cancelled k (retries now pushed j reason) b h c = rw (retry-Same now pushed j reason b) c
step-cancelled k (cancels j) b h c = ground (arith, elem-add j k b.cancelled)
step-cancelled k (requeues now clock) b h c = rw (requeue_items-Same now clock b.inflight b) c
step-cancelled k (snapshots now) b h c = rw (promote-Same now b h) c

Reach-cancelled :
    (k : String) {b c : Broker}
    → WellFormed b
    → elem k b.cancelled ≡ true
    → Reach b c
    → elem k c.cancelled ≡ true
Reach-cancelled k h e here = e
Reach-cancelled k h e (next r call) =
    step-cancelled k call _ (Reach-keeps-WellFormed h r) (Reach-cancelled k h e r)

-- A round of `reserve` hands out no task of the cancelled.
attempt-not_cancelled :
    (now leased lease_seconds : ℤ) (worker : WorkerInfo) (completed : List String) (b : Broker)
    (r : Ref)
    → WellFormed b
    → (attempt now leased worker completed lease_seconds b).0 ≡ ok (some r)
    → elem (b.objects r).task_id b.cancelled ≡ false
attempt-not_cancelled now leased lease_seconds worker completed b r h e =
    let chosen = attempt-Chosen worker completed now leased lease_seconds b h in
    let (c, found, known, first) = subst (Chosen worker completed (promote now b)) e chosen in
    let form = (promote-Refiled now b h).form in
    let named = (promote-WellFormed now b h).task_names c.entry.task_id r known in
    let p : (b.objects r).task_id ≡ c.entry.task_id =
      subst (λ (x : Broker). (x.objects r).task_id ≡ c.entry.task_id) form named in
    let q : live b.cancelled c.entry ≡ true =
      subst (λ (x : Broker). live x.cancelled c.entry ≡ true) form found.alive in
    rw p (not_live c.entry b.cancelled q)

cancel-elem :
    (k : String) (b : Broker) (r : Ref)
    → (cancel k b).0 ≡ ok r
    → elem k (cancel k b).1.cancelled ≡ true
unfolding cancel release
cancel-elem k b r e = elim (Option-cases (lookup k b.tasks)) [
  | inl absent ↦ absurd (ground arith)
  | inr (s, found) ↦ ground (arith, elem-add k k b.cancelled, eq_iff k k)
]

-- After a call of `cancel` that returned, on a queue that is well formed, no round of `reserve` hands
-- the task out, whatever calls come between: a call of `retry` on it does not bring it back.
pub cancel-never_reserved :
    (k : String) (b c : Broker) (s r : Ref) (now leased lease_seconds : ℤ) (worker : WorkerInfo)
    (completed : List String)
    → WellFormed b
    → (cancel k b).0 ≡ ok s
    → Reach (cancel k b).1 c
    → (attempt now leased worker completed lease_seconds c).0 ≡ ok (some r)
    → (c.objects r).task_id ≢ k
cancel-never_reserved k b c s r now leased lease_seconds worker completed h done reach e p =
    let start = cancel-WellFormed k b h in
    let still = Reach-cancelled k start (cancel-elem k b s done) reach in
    let free =
      attempt-not_cancelled now leased lease_seconds worker completed c r
        (Reach-keeps-WellFormed start reach) e in
    cc (subst (λ j. elem j c.cancelled ≡ false) p free)
