-- ===== src/Broker/Attempt.antt =====
-- taskrunner/queue/broker.py: one round of `reserve`, from the promotion to the lease.
use distributed_task_runner.Base.{
  ◌≡◌, refl, sym, ap, subst, String, Option, none, some, List, arith,
}
use distributed_task_runner.Base.Int.{ℤ, ◌+ℤ◌}
use distributed_task_runner.Base.Dict.{lookup, insert, lookup-insert_self}
use distributed_task_runner.Models.{TaskEnvelope, WorkerInfo, running}
use distributed_task_runner.Broker.State.{Ref, Broker, Outcome, ok, raised, write}
use distributed_task_runner.Broker.Reserve.{promote, lease, hand_out, pop_eligible, attempt}
use distributed_task_runner.Broker.WellFormed.{
  Known, WellFormed, write-WellFormed, Within-insert, Names-insert,
}
use distributed_task_runner.Broker.Preserve.{write_self}
use distributed_task_runner.Broker.Promote.{promote-WellFormed}
use distributed_task_runner.Broker.Choice.{
  Chosen, Searched, pop_eligible-Searched, pop_eligible-WellFormed,
}

lease-WellFormed :
    (worker_id : String) (deadline : ℤ) (r : Ref) (b : Broker)
    → WellFormed b
    → Known b.tasks (b.objects r).task_id
    → WellFormed (lease worker_id deadline r b)
unfolding lease
lease-WellFormed worker_id deadline r b h known = record {
  ready = w.ready;
  delayed = w.delayed;
  delayed_heap = w.delayed_heap;
  inflight = Within-insert b.tasks b.inflight (b.objects r).task_id r known h.inflight;
  dead = w.dead;
  task_names = w.task_names;
  inflight_names =
      Names-insert (write r task b.objects) b.inflight (b.objects r).task_id r
        (ap (λ t. t.task_id) (write_self r task b.objects)) w.inflight_names;
}
  where
    task : TaskEnvelope
    task = record (b.objects r) {
      status = running;
      assigned_worker = some worker_id;
      lease_deadline = some deadline;
    }

    w : WellFormed (record b { objects = write r task b.objects })
    w = write-WellFormed r task b h refl

module _ (worker : WorkerInfo) (completed : List String) where
  Chosen-Known :
      (b : Broker) (r : Ref)
      → WellFormed b
      → Chosen worker completed b (ok (some r))
      → Known b.tasks (b.objects r).task_id
  Chosen-Known b r h (c, f, known, first) =
      (r, subst (λ k. lookup k b.tasks ≡ some r) (sym (h.task_names c.entry.task_id r known)) known)

  hand_out-WellFormed :
      (deadline : ℤ) (b : Broker) (result : Outcome (Option Ref) × Broker)
      → WellFormed b
      → Searched worker completed b result
      → WellFormed result.1
      → WellFormed (hand_out worker.worker_id deadline result).1
  hand_out-WellFormed deadline b (ok (some r), b') h s w =
      lease-WellFormed worker.worker_id deadline r b' w (
        subst (λ (x : Broker). Known x.tasks (x.objects r).task_id) (sym s.form)
          (Chosen-Known b r h s.chosen))
  hand_out-WellFormed deadline b (ok none, b') h s w = w
  hand_out-WellFormed deadline b (raised e, b') h s w = w

  pub attempt-WellFormed :
      (now leased lease_seconds : ℤ) (b : Broker)
      → WellFormed b
      → WellFormed (attempt now leased worker completed lease_seconds b).1
  unfolding attempt
  attempt-WellFormed now leased lease_seconds b h =
      let p = promote-WellFormed now b h in
      hand_out-WellFormed _ (promote now b) (pop_eligible worker completed (promote now b)) p
        (pop_eligible-Searched worker completed (promote now b) p)
        (pop_eligible-WellFormed worker completed (promote now b) p)

  hand_out-result :
      (deadline : ℤ) (result : Outcome (Option Ref) × Broker)
      → (hand_out worker.worker_id deadline result).0 ≡ result.0
  hand_out-result deadline (ok (some r), b) = refl
  hand_out-result deadline (ok none, b) = refl
  hand_out-result deadline (raised e, b) = refl

  -- On a queue that is well formed a round of `reserve` raises nothing. It hands out the task of the
  -- first of the entries that are eligible once the delayed tasks that are due have been promoted,
  -- by priority, time of creation, sequence and identifier, and none only if none is eligible.
  pub attempt-Chosen :
      (now leased lease_seconds : ℤ) (b : Broker)
      → WellFormed b
      → Chosen worker completed
          (promote now b)
          (attempt now leased worker completed lease_seconds b).0
  unfolding attempt
  attempt-Chosen now leased lease_seconds b h =
      let p = promote-WellFormed now b h in
      subst (Chosen worker completed (promote now b))
        (sym (hand_out-result _ (pop_eligible worker completed (promote now b))))
        (pop_eligible-Searched worker completed (promote now b) p).chosen

  -- The marks of a task that is on lease in the queue `b`.
  pub record OnLease (deadline : ℤ) (r : Ref) (b : Broker) : Type 0 where
    pub is_running : (b.objects r).status ≡ running
    pub assigned : (b.objects r).assigned_worker ≡ some worker.worker_id
    pub expires : (b.objects r).lease_deadline ≡ some deadline
    pub in_flight : lookup (b.objects r).task_id b.inflight ≡ some r

  lease-OnLease :
      (deadline : ℤ) (r : Ref) (b : Broker)
      → OnLease deadline r (lease worker.worker_id deadline r b)
  unfolding lease
  lease-OnLease deadline r b = record {
    is_running = ap (λ t. t.status) wrote;
    assigned = ap (λ t. t.assigned_worker) wrote;
    expires = ap (λ t. t.lease_deadline) wrote;
    in_flight =
        subst (λ k. lookup k (insert (b.objects r).task_id r b.inflight) ≡ some r)
          (sym (ap (λ t. t.task_id) wrote)) (lookup-insert_self (b.objects r).task_id r b.inflight);
  }
    where
      task : TaskEnvelope
      task = record (b.objects r) {
        status = running;
        assigned_worker = some worker.worker_id;
        lease_deadline = some deadline;
      }

      wrote : write r task b.objects r ≡ task
      wrote = write_self r task b.objects

  hand_out-OnLease :
      (deadline : ℤ) (r : Ref) (result : Outcome (Option Ref) × Broker)
      → (hand_out worker.worker_id deadline result).0 ≡ ok (some r)
      → OnLease deadline r (hand_out worker.worker_id deadline result).1
  hand_out-OnLease deadline r (ok (some s), b) e =
      let p : s ≡ r = ground arith in
      subst (λ x. OnLease deadline x (lease worker.worker_id deadline s b)) p
        (lease-OnLease deadline s b)
  hand_out-OnLease deadline r (ok none, b) e = absurd (ground arith)
  hand_out-OnLease deadline r (raised x, b) e = absurd (ground arith)

  -- A task that a round hands out is running, assigned to the worker, in flight, and its lease ends
  -- `lease_seconds` after the time that was read for it.
  pub attempt-OnLease :
      (now leased lease_seconds : ℤ) (b : Broker) (r : Ref)
      → (attempt now leased worker completed lease_seconds b).0 ≡ ok (some r)
      → OnLease (leased +ℤ lease_seconds) r (attempt now leased worker completed lease_seconds b).1
  unfolding attempt
  attempt-OnLease now leased lease_seconds b r e =
      hand_out-OnLease _ r (pop_eligible worker completed (promote now b)) e
