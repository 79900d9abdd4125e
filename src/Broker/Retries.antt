-- ===== src/Broker/Retries.antt =====
-- taskrunner/queue/broker.py: how often a task is tried again.
use distributed_task_runner.Base.{
  suc, ◌+◌, ◌≡◌, refl, sym, ap, subst, ◌∙◌, ◌⊎◌, inl, inr, String, true, false, none, some, List,
  [], ◌∷◌, arith, Bool-cases, length,
}
use text.Mathlib.TextPositions.{eq_refl}
use distributed_task_runner.Base.Int.{ℤ, pos, ◌≤ℤ◌, ◌<ℤ◌, ◌+ℤ◌, ◌*ℤ◌}
use distributed_task_runner.Base.Dict.{lookup, erase, lookup-insert_self, lookup-erase}
use distributed_task_runner.Models.{TaskEnvelope, dead_lettered, retrying}
use distributed_task_runner.Broker.State.{Ref, Broker, ok, write}
use distributed_task_runner.Broker.Settle.{
  find_task, release, backoff, counted, exhausted, retry_task, retry,
}
use distributed_task_runner.Broker.Preserve.{write_self}
use distributed_task_runner.Broker.Filed.{Filed, Pushed, push-Pushed}

-- `r` is the task that goes by the identifier `k`, in flight or not.
pub record Owns (k : String) (r : Ref) (b : Broker) : Type 0 where
  pub listed : lookup k b.tasks ≡ some r
  pub flying : (lookup k b.inflight ≡ none) ⊎ (lookup k b.inflight ≡ some r)

-- The task is out of retries and among the dead letters, and the heaps are as they were.
pub record Buried (r : Ref) (b b' : Broker) : Type 0 where
  pub spent : (b.objects r).spec.max_retries <ℤ pos (suc (b.objects r).attempts)
  pub dead : (b'.objects r).status ≡ dead_lettered
  pub lettered : lookup (b.objects r).task_id b'.dead_letter ≡ some r
  pub ready : b'.ready ≡ b.ready
  pub delayed : b'.delayed ≡ b.delayed

-- The task waits for another try, which is due after its backoff times the number of its attempts.
pub record Requeued (now pushed : ℤ) (r : Ref) (b b' : Broker) : Type 0 where
  pub left : pos (suc (b.objects r).attempts) ≤ℤ (b.objects r).spec.max_retries
  pub again : (b'.objects r).status ≡ retrying
  pub due :
      (b'.objects r).available_at
      ≡ now +ℤ (b.objects r).spec.retry_backoff_seconds *ℤ pos (suc (b.objects r).attempts)
  pub filed : Filed pushed (b'.objects r) b'

-- What a call of `retry` does to the task `r` with the identifier `k`.
pub record Retried (now pushed : ℤ) (k reason : String) (r : Ref) (b b' : Broker) : Type 0 where
  pub attempts : (b'.objects r).attempts ≡ suc (b.objects r).attempts
  pub reason_kept : (b'.objects r).last_error ≡ some reason
  pub unassigned : (b'.objects r).assigned_worker ≡ none
  pub unleased : (b'.objects r).lease_deadline ≡ none
  pub same_spec : (b'.objects r).spec ≡ (b.objects r).spec
  pub landed : lookup k b'.inflight ≡ none
  pub listed : b'.tasks ≡ b.tasks
  pub fate : Buried r b b' ⊎ Requeued now pushed r b b'

module _ (now pushed : ℤ) (k reason : String) (r : Ref) (b : Broker) where
  grounded : lookup k (erase k b.inflight) ≡ none
  grounded = rw (lookup-erase, eq_refl)

  bury :
      exhausted (counted reason (b.objects r)) ≡ true
      → Retried now pushed k reason r b
          (retry_task now pushed (counted reason (b.objects r)) r (release k b))
  unfolding retry_task counted exhausted release
  bury t = rw t (record {
    attempts = ap (λ x. x.attempts) wrote;
    reason_kept = ap (λ x. x.last_error) wrote;
    unassigned = ap (λ x. x.assigned_worker) wrote;
    unleased = ap (λ x. x.lease_deadline) wrote;
    same_spec = ap (λ x. x.spec) wrote;
    landed = grounded;
    listed = refl;
    fate = inl (record {
      spent = ground arith;
      dead = ap (λ x. x.status) wrote;
      lettered = lookup-insert_self (b.objects r).task_id r b.dead_letter;
      ready = refl;
      delayed = refl;
    });
  })
    where
      dead : TaskEnvelope
      dead = record (counted reason (b.objects r)) { status = dead_lettered }

      wrote : write r dead b.objects r ≡ dead
      wrote = write_self r dead b.objects

  requeue :
      exhausted (counted reason (b.objects r)) ≡ false
      → Retried now pushed k reason r b
          (retry_task now pushed (counted reason (b.objects r)) r (release k b))
  unfolding retry_task counted exhausted release backoff
  requeue f = rw f (pushed_again _ (push-Pushed pushed r b1))
    where
      task : TaskEnvelope
      task = counted reason (b.objects r)

      again : TaskEnvelope
      again = record task { status = retrying; available_at = backoff now task }

      b1 : Broker
      b1 = record b { inflight = erase k b.inflight; objects = write r again b.objects }

      wrote : write r again b.objects r ≡ again
      wrote = write_self r again b.objects

      pushed_again : (b' : Broker) → Pushed pushed r b1 b' → Retried now pushed k reason r b b'
      pushed_again b' p = record {
        attempts = ap (λ x. x.attempts) same;
        reason_kept = ap (λ x. x.last_error) same;
        unassigned = ap (λ x. x.assigned_worker) same;
        unleased = ap (λ x. x.lease_deadline) same;
        same_spec = ap (λ x. x.spec) same;
        landed = ap (λ x. lookup k x.inflight) p.form ∙ grounded;
        listed = ap (λ x. x.tasks) p.form;
        fate = inr (record {
          left = ground arith;
          again = ap (λ x. x.status) same;
          due = ap (λ x. x.available_at) same;
          filed =
              subst (λ x. Filed pushed x b') (sym (ap (λ (x : Broker). x.objects r) p.form))
                p.filed;
        });
      }
        where
          same : b'.objects r ≡ again
          same = ap (λ (x : Broker). x.objects r) p.form ∙ wrote

pub Owns-find_task : (k : String) (r : Ref) (b : Broker) → Owns k r b → find_task k b ≡ some r
unfolding find_task
Owns-find_task k r b o = elim o.flying [
  | inl absent ↦ rw (absent, find_task) o.listed
  | inr present ↦ rw (present, find_task)
]

-- A call of `retry` on a task that the queue has returns it with one more attempt, the reason as its
-- error, no worker, no lease, and out of flight. If its attempts now pass `max_retries`, it is dead
-- and among the dead letters, and the heaps are as they were. If not, it is due again after
-- its backoff times its attempts, and filed by that time: delayed, or in the ready heap of its queue under its priority.
pub retry-Retried :
    (now pushed : ℤ) (k reason : String) (r : Ref) (b : Broker)
    → Owns k r b
    → ((retry now pushed k reason b).0 ≡ ok r)
      × Retried now pushed k reason r b (retry now pushed k reason b).1
unfolding retry
retry-Retried now pushed k reason r b o =
    rw (Owns-find_task k r b o, retry)
      (
        refl,
        elim (Bool-cases (exhausted (counted reason (b.objects r)))) [
          | inl t ↦ bury now pushed k reason r b t
          | inr f ↦ requeue now pushed k reason r b f
        ],
      )

-- A task that fails again and again: a call of `retry` for each failure.
abbrev pub Failure : Type 0
Failure = ℤ × ℤ × String

unfoldable pub retry_all : String → List Failure → Broker → Broker
retry_all k [] b = b
retry_all k ((now, pushed, reason) ∷ fs) b = retry_all k fs (retry now pushed k reason b).1

Retried-Owns :
    (now pushed : ℤ) (k reason : String) (r : Ref) (b b' : Broker)
    → Owns k r b
    → Retried now pushed k reason r b b'
    → Owns k r b'
Retried-Owns now pushed k reason r b b' o d = record {
  listed = ap (lookup k) d.listed ∙ o.listed;
  flying = inl d.landed;
}

-- What `fs` failures make of a task: its attempts, and its status after the last of them.
pub record Tried (r : Ref) (b : Broker) (fs : List Failure) (b' : Broker) : Type 0 where
  pub attempts : (b'.objects r).attempts ≡ (b.objects r).attempts + length fs
  pub same_spec : (b'.objects r).spec ≡ (b.objects r).spec

pub retry_all-Tried :
    (k : String) (r : Ref) (fs : List Failure) (b : Broker)
    → Owns k r b
    → Tried r b fs (retry_all k fs b)
unfolding retry_all
retry_all-Tried k r [] b o = record { attempts = omega arith; same_spec = refl }
retry_all-Tried k r ((now, pushed, reason) ∷ fs) b o =
    let d = (retry-Retried now pushed k reason r b o).1 in
    let rest =
      retry_all-Tried k r fs (retry now pushed k reason b).1
        (Retried-Owns now pushed k reason r b _ o d) in
    record {
      attempts = omega (arith, d.attempts, rest.attempts);
      same_spec = rest.same_spec ∙ d.same_spec;
    }

-- Dead where the attempts have passed the limit of the specification, and waiting where not.
abbrev Standing : TaskEnvelope → Type 0
Standing task =
    ((task.spec.max_retries <ℤ pos task.attempts) × (task.status ≡ dead_lettered))
    ⊎ ((pos task.attempts ≤ℤ task.spec.max_retries) × (task.status ≡ retrying))

Retried-Standing :
    (now pushed : ℤ) (k reason : String) (r : Ref) (b b' : Broker)
    → Retried now pushed k reason r b b'
    → Standing (b'.objects r)
Retried-Standing now pushed k reason r b b' d = elim d.fate [
  | inl f ↦ inl (rw (d.attempts, d.same_spec) f.spent, f.dead)
  | inr f ↦ inr (rw (d.attempts, d.same_spec) f.left, f.again)
]

retry_all-Standing :
    (k : String) (r : Ref) (fs : List Failure) (b : Broker)
    → Owns k r b
    → Standing (b.objects r)
    → Standing ((retry_all k fs b).objects r)
unfolding retry_all
retry_all-Standing k r [] b o s = s
retry_all-Standing k r ((now, pushed, reason) ∷ fs) b o s =
    let d = (retry-Retried now pushed k reason r b o).1 in
    retry_all-Standing k r fs (retry now pushed k reason b).1
      (Retried-Owns now pushed k reason r b _ o d) (Retried-Standing now pushed k reason r b _ d)

-- The first failure and the `fs` behind it leave the task with that many more attempts. It is dead
-- if these are more than the retries that its specification allows, and waits for another try if
-- they are not.
pub retry_all-fate :
    (k : String) (r : Ref) (f : Failure) (fs : List Failure) (b : Broker)
    → Owns k r b
    → let before = b.objects r in
      let after = (retry_all k (f ∷ fs) b).objects r in
      let n = before.attempts + length (f ∷ fs) in
      (after.attempts ≡ n)
      × (((before.spec.max_retries <ℤ pos n) × (after.status ≡ dead_lettered))
          ⊎ ((pos n ≤ℤ before.spec.max_retries) × (after.status ≡ retrying)))
retry_all-fate k r (now, pushed, reason) fs b o =
    let d = (retry-Retried now pushed k reason r b o).1 in
    let o' = Retried-Owns now pushed k reason r b _ o d in
    let tried = retry_all-Tried k r ((now, pushed, reason) ∷ fs) b o in
    let s : Standing ((retry_all k ((now, pushed, reason) ∷ fs) b).objects r) =
      unfold retry_all in
      retry_all-Standing k r fs _ o' (Retried-Standing now pushed k reason r b _ d) in
    (tried.attempts, rw (tried.attempts, tried.same_spec) at s)
