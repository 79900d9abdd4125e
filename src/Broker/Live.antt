-- ===== src/Broker/Live.antt =====
-- taskrunner/queue/broker.py: no task is lost, and one that waits is served.
use distributed_task_runner.Base.{
  ℕ, ◌≡◌, refl, ap, inl, inr, subst, sym, String, true, false, Option, none, some, List, arith, Has,
  Has-select_cases,
}
use distributed_task_runner.Base.Int.{ℤ, ◌≤ℤ◌}
use distributed_task_runner.Base.Dict.{lookup}
use distributed_task_runner.Base.Text.{elem}
use distributed_task_runner.Models.{
  TaskEnvelope, TaskStatus, TaskSpec, WorkerInfo, accepts, queued, retrying, running, acked,
}
use distributed_task_runner.Models.Accepts.{accepts_iff}
use distributed_task_runner.Broker.Entries.{DelayedEntry}
use distributed_task_runner.Broker.State.{Ref, Broker, Outcome, ok, raised, new_queue, is_terminal}
use distributed_task_runner.Broker.Reserve.{Candidate, promote, eligible, attempt}
use distributed_task_runner.Broker.Views.{snapshot}
use distributed_task_runner.Broker.WellFormed.{WellFormed}
use distributed_task_runner.Broker.Promote.{promote-Refiled, later, promote-later}
use distributed_task_runner.Broker.Scan.{fits}
use distributed_task_runner.Broker.Choice.{Chosen, Eligible}
use distributed_task_runner.Broker.Attempt.{attempt-Chosen}
use distributed_task_runner.Broker.Reach.{
  Call, submits, submits_many, attempts, acks, completes, retries, cancels, requeues, snapshots,
  step, Reach, here, next, Reach-WellFormed,
}
use distributed_task_runner.Broker.Accounted.{
  waits, InReady, Pending, Accounted, dropped, waiting, leased, settled, acknowledged, AllAccounted,
}
use distributed_task_runner.Broker.Kept.{
  submit-AllAccounted, submit_many-AllAccounted, ack-AllAccounted, complete-AllAccounted,
  retry-AllAccounted, cancel-AllAccounted,
}
use distributed_task_runner.Broker.Requeued.{requeue_expired_leases-AllAccounted}
use distributed_task_runner.Broker.Promoted.{Waits, promote-Pending, promote-AllAccounted}
use distributed_task_runner.Broker.Serving.{attempt-AllAccounted}

-- `complete` is called with a terminal status, as the engine calls it.
abbrev pub Ends : Call → Type 0
Ends (completes k status error) = is_terminal status ≡ true
Ends _ = Unit

step-AllAccounted :
    (call : Call) (b : Broker)
    → Ends call
    → WellFormed b
    → AllAccounted b
    → AllAccounted (step call b)
unfolding step snapshot
step-AllAccounted (submits now pushed r) b c h a = submit-AllAccounted now pushed r b h a
step-AllAccounted (submits_many batch) b c h a = submit_many-AllAccounted batch b h a
step-AllAccounted (attempts now at worker completed lease_seconds) b c h a =
    attempt-AllAccounted worker completed now at lease_seconds b h a
step-AllAccounted (acks k) b c h a = ack-AllAccounted k b h a
step-AllAccounted (completes k status error) b c h a = complete-AllAccounted k status error b c h a
step-AllAccounted (retries now pushed k reason) b c h a =
    retry-AllAccounted now pushed k reason b h a
step-AllAccounted (cancels k) b c h a = cancel-AllAccounted k b h a
step-AllAccounted (requeues now clock) b c h a = requeue_expired_leases-AllAccounted now clock b h a
step-AllAccounted (snapshots now) b c h a = promote-AllAccounted now b h a

-- Each call of `complete` in the history is such a call.
abbrev pub AllEnd : {b c : Broker} → Reach b c → Type 0
AllEnd here = Unit
AllEnd (next reach call) = AllEnd reach × Ends call

new_queue-AllAccounted :
    (max_depth : ℕ) (objects : Ref → TaskEnvelope) → AllAccounted (new_queue max_depth objects)
unfolding new_queue lookup
new_queue-AllAccounted max_depth objects k r e = absurd (ground arith)

-- After every history of calls on a new queue, whose calls of `complete` give a terminal status, every
-- task of `_tasks` is accounted for: it is cancelled, or its status is terminal, as `depth` has it, or
-- it runs and is in flight, or it waits and has an entry in the heap of its queue or among the
-- delayed, or it is acknowledged: an `ack`, which takes it out of flight, has made its status `acked`.
pub Reach-AllAccounted :
    (max_depth : ℕ) (objects : Ref → TaskEnvelope) {b : Broker}
    (reach : Reach (new_queue max_depth objects) b)
    → AllEnd reach
    → AllAccounted b
Reach-AllAccounted max_depth objects here ends = new_queue-AllAccounted max_depth objects
Reach-AllAccounted max_depth objects (next reach call) (before, ends) =
    step-AllAccounted call _ ends (Reach-WellFormed max_depth objects reach)
      (Reach-AllAccounted max_depth objects reach before)

ready_now :
    (k : String) (now : ℤ) (spec : TaskSpec) (b : Broker)
    → WellFormed b
    → ((e : DelayedEntry) → Has e b.delayed → e.task_id ≡ k → e.available_at ≤ℤ now)
    → Pending k spec (promote now b)
    → InReady k spec (promote now b).ready
ready_now k now spec b h due (inl m) = m
ready_now k now spec b h due (inr (e, m, named)) =
    let (was, late) =
      Has-select_cases (later now) e b.delayed (subst (Has e) (promote-later now b h) m) in
    let soon = due e was named in absurd (ground arith)

not_running : (status : TaskStatus) → waits status ≡ true → status ≡ running → ⊥
unfolding waits
not_running status w is_running =
    let stuck : waits running ≡ true = subst (λ x. waits x ≡ true) is_running w in cc

not_acked : (status : TaskStatus) → waits status ≡ true → status ≡ acked → ⊥
unfolding waits
not_acked status w is_acked =
    let stuck : waits acked ≡ true = subst (λ x. waits x ≡ true) is_acked w in cc

not_both : (status : TaskStatus) → waits status ≡ true → is_terminal status ≡ true → ⊥
unfolding waits is_terminal
not_both queued w x = cc
not_both retrying w x = cc
not_both _ w x = ground arith

-- A task that waits and is not cancelled has an entry.
waits-Pending :
    (k : String) (r : Ref) (b : Broker)
    → waits (b.objects r).status ≡ true
    → elem k b.cancelled ≡ false
    → Accounted k r b
    → Pending k (b.objects r).spec b
waits-Pending k r b w f (dropped d) = cc
waits-Pending k r b w f (waiting x p) = p
waits-Pending k r b w f (leased is_running flying) =
    absurd (not_running (b.objects r).status w is_running)
waits-Pending k r b w f (settled x) = absurd (not_both (b.objects r).status w x)
waits-Pending k r b w f (acknowledged x) = absurd (not_acked (b.objects r).status w x)

-- A search with an eligible entry hands a task out.
serves :
    (worker : WorkerInfo) (completed : List String) (b : Broker) (c : Candidate)
    (result : Outcome (Option Ref))
    → Eligible worker completed b c
    → Chosen worker completed b result
    → (s : Ref) × (result ≡ ok (some s))
serves worker completed b c (ok (some s)) found chosen = (s, refl)
serves worker completed b c (ok none) found chosen = absurd (chosen c found)
serves worker completed b c (raised e) found chosen = absurd chosen

accepts-queue :
    (worker : WorkerInfo) (completed : List String) (task : TaskEnvelope)
    → eligible worker completed task ≡ true
    → Has task.spec.queue worker.queues
unfolding eligible
accepts-queue worker completed task h =
    let takes : accepts worker task ≡ true = ground arith in
    ((accepts_iff worker task).0 takes).serves

ready-Eligible :
    (worker : WorkerInfo) (completed : List String) (k : String) (r : Ref) (b : Broker)
    → lookup k b.tasks ≡ some r
    → elem k b.cancelled ≡ false
    → eligible worker completed (b.objects r) ≡ true
    → InReady k (b.objects r).spec b.ready
    → (c : Candidate) × Eligible worker completed b c
ready-Eligible worker completed k r b listed free takes (e, m, is_k) = (
  record { entry = e; queue = (b.objects r).spec.queue },
  record {
    named = accepts-queue worker completed (b.objects r) takes;
    present = m;
    alive = rw (is_k, free) refl;
    fitting =
        let found : lookup e.task_id b.tasks ≡ some r = rw is_k listed in rw (found, fits) takes;
  },
)

-- On a queue that is well formed and whose tasks are all accounted for, a round of `reserve` for a
-- worker that may take some waiting task hands a task out, where that task is not cancelled and no
-- entry delays it any longer.
pub attempt-serves :
    (worker : WorkerInfo) (completed : List String) (now leased_at lease_seconds : ℤ) (k : String)
    (r : Ref) (b : Broker)
    → WellFormed b
    → AllAccounted b
    → lookup k b.tasks ≡ some r
    → waits (b.objects r).status ≡ true
    → elem k b.cancelled ≡ false
    → eligible worker completed (b.objects r) ≡ true
    → ((e : DelayedEntry) → Has e b.delayed → e.task_id ≡ k → e.available_at ≤ℤ now)
    → (s : Ref) × ((attempt now leased_at worker completed lease_seconds b).0 ≡ ok (some s))
attempt-serves worker completed now leased_at lease_seconds k r b h a listed w free takes due =
    serves worker completed (promote now b) found.0
      (attempt now leased_at worker completed lease_seconds b).0 found.1
      (attempt-Chosen worker completed now leased_at lease_seconds b h)
  where
    form : promote now b ≡ record b {
      ready = (promote-Refiled now b h).ready;
      delayed = (promote-Refiled now b h).delayed;
    }
    form = (promote-Refiled now b h).form

    waits_now : Waits k r b
    waits_now = record { listed = listed; named = h.task_names k r listed; is_waiting = w }

    is_ready : InReady k (b.objects r).spec (promote now b).ready
    is_ready =
        ready_now k now (b.objects r).spec b h due
          (promote-Pending k r now b waits_now (waits-Pending k r b w free (a k r listed)))

    found : (c : Candidate) × Eligible worker completed (promote now b) c
    found =
        ready-Eligible worker completed k r (promote now b)
          (subst (λ (x : Broker). lookup k x.tasks ≡ some r) (sym form) listed)
          (subst (λ (x : Broker). elem k x.cancelled ≡ false) (sym form) free)
          (subst (λ (x : Broker). eligible worker completed (x.objects r) ≡ true) (sym form) takes)
          (subst (λ t. InReady k t (promote now b).ready)
            (ap (λ (x : Broker). (x.objects r).spec) (sym form)) is_ready)
