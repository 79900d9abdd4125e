-- ===== src/Broker/Serving.antt =====
-- taskrunner/queue/broker.py: a round of `reserve` loses no task.
use distributed_task_runner.Base.{
  ◌≡◌, ◌≢◌, refl, sym, ap, subst, ◌∙◌, ◌⊎◌, inl, inr, String, true, false, Option, none, some, List,
  arith, ◌==◌, eq_iff, eqb, Bool-cases,
}
use distributed_task_runner.Base.Int.{ℤ}
use distributed_task_runner.Base.Dict.{lookup, lookup-insert}
use distributed_task_runner.Base.Text.{elem}
use distributed_task_runner.Models.{TaskEnvelope, TaskSpec, WorkerInfo, running}
use distributed_task_runner.Broker.Entries.{ReadyEntry}
use distributed_task_runner.Broker.State.{Ref, Broker, Outcome, ok, raised, write}
use distributed_task_runner.Broker.Reserve.{promote, pop_eligible, lease, hand_out, attempt}
use distributed_task_runner.Broker.WellFormed.{WellFormed}
use distributed_task_runner.Broker.Preserve.{write_self}
use distributed_task_runner.Broker.Promote.{promote-WellFormed}
use distributed_task_runner.Broker.Choice.{Handed, Searched, pop_eligible-Searched}
use distributed_task_runner.Broker.Accounted.{
  Pending, Accounted, leased, AllAccounted, Accounted-move,
}
use distributed_task_runner.Broker.Kept.{write_other}
use distributed_task_runner.Broker.Scan.{live}
use distributed_task_runner.Broker.Promoted.{promote-AllAccounted}

live_of :
    (k : String) (cancelled_ : List String) (e : ReadyEntry)
    → elem k cancelled_ ≡ false
    → e.task_id ≡ k
    → live cancelled_ e ≡ true
live_of k cs e f named = rw (named, f) refl

module _ (worker : WorkerInfo) (completed : List String) where
  -- A search drops the entries of cancelled tasks and of the task that it hands out, and no others.
  search-Pending :
      (k : String) (spec : TaskSpec) (b : Broker) (result : Outcome (Option Ref) × Broker)
      → Searched worker completed b result
      → Pending k spec b
      → (elem k b.cancelled ≡ true)
        ⊎ Pending k spec result.1
        ⊎ ((e : ReadyEntry) × (e.task_id ≡ k) × Handed worker completed b e result.0)
  search-Pending k spec b result s p = elim (Bool-cases (elem k b.cancelled)) [
    | inl t ↦ inl t
    | inr f ↦ inr (
        subst
          (λ (x : Broker).
            Pending k spec x
            ⊎ ((e : ReadyEntry) × (e.task_id ≡ k) × Handed worker completed b e result.0))
          (sym s.form)
          (elim p [
            | inr m ↦ inl (inr m)
            | inl (e, m, named) ↦ elim (s.kept spec.queue e m (live_of k b.cancelled e f named)) [
              | inl stays ↦ inl (inl (e, stays, named))
              | inr handed ↦ inr (e, named, handed)
            ]
          ]))
  ]

  -- The task `s` that is handed out is listed under its identifier.
  chosen-listed :
      (b : Broker) (s : Ref) (c : Broker)
      → WellFormed b
      → Searched worker completed b (ok (some s), c)
      → lookup (b.objects s).task_id b.tasks ≡ some s
  chosen-listed b s c h m =
      let (d, found, known, first) = m.chosen in
      subst (λ k. lookup k b.tasks ≡ some s) (sym (h.task_names d.entry.task_id s known)) known

  -- A search that hands nothing out.
  unserved-AllAccounted :
      (b : Broker) (result : Outcome (Option Ref) × Broker)
      → ((e : ReadyEntry) → Handed worker completed b e result.0 → ⊥)
      → Searched worker completed b result
      → AllAccounted b
      → AllAccounted result.1
  unserved-AllAccounted b result nobody s a k r listed = subst (Accounted k r) (sym s.form) (
      Accounted-move k r b (record b { ready = s.ready }) refl refl (λ d. d) (λ e. e)
        (λ w p. elim (search-Pending k (b.objects r).spec b result s p) [
          | inl d ↦ inl d
          | inr (inl m) ↦ inr (subst (λ (x : Broker). Pending k (b.objects r).spec x) s.form m)
          | inr (inr (e, named, handed)) ↦ absurd (nobody e handed)
        ])
        (a k r (subst (λ (x : Broker). lookup k x.tasks ≡ some r) s.form listed)))

  same_ref : (r s : Ref) → some r ≡ some s → r ≡ s
  same_ref r s e = cc

  -- A search that hands out the task `s`, and its lease.
  served-AllAccounted :
      (deadline : ℤ) (b : Broker) (s : Ref) (c : Broker)
      → WellFormed b
      → Searched worker completed b (ok (some s), c)
      → AllAccounted b
      → AllAccounted (lease worker.worker_id deadline s c)
  unfolding lease
  served-AllAccounted deadline b s c h m a k r listed = elim (Bool-cases (eqb s r)) [
    | inl t ↦
        let p : s ≡ r = ground arith in
        let is_k : (c.objects s).task_id ≡ k = own ∙ rw p (h.task_names k r was) in
        leased
          (subst (λ x. (write s task c.objects x).status ≡ running) p
            (ap (λ x. x.status) (write_self s task c.objects)))
          (rw (lookup-insert, (eq_iff (c.objects s).task_id k).1 is_k) (ap some p))
    | inr f ↦
        let other : r ≢ s = λ p. absurd (ground arith) in
        let same : write s task c.objects r ≡ b.objects r =
          write_other s r task c.objects other ∙ ap (λ (x : Broker). x.objects r) m.form in
        let apart : ((c.objects s).task_id == k) ≡ false = not_same other in
        Accounted-move k r b (lease worker.worker_id deadline s c) (ap (λ x. x.status) same)
          (ap (λ x. x.spec) same)
          (λ d. subst (λ (x : Broker). elem k x.cancelled ≡ true) (sym m.form) d)
          (λ e.
            rw (lookup-insert, apart)
              (subst (λ (x : Broker). lookup k x.inflight ≡ some r) (sym m.form) e))
          (λ w p. elim (search-Pending k (b.objects r).spec b (ok (some s), c) m p) [
            | inl d ↦ inl d
            | inr (inl q) ↦ inr q
            | inr (inr (e, named, handed)) ↦ absurd (
                other
                  (same_ref r s (sym was ∙ subst (λ i. lookup i b.tasks ≡ some s) named handed)))
          ])
          (a k r was)
  ]
    where
      task : TaskEnvelope
      task = record (c.objects s) {
        status = running;
        assigned_worker = some worker.worker_id;
        lease_deadline = some deadline;
      }

      was : lookup k b.tasks ≡ some r
      was = subst (λ (x : Broker). lookup k x.tasks ≡ some r) m.form listed

      own : (c.objects s).task_id ≡ (b.objects s).task_id
      own = ap (λ (x : Broker). (x.objects s).task_id) m.form

      not_same : r ≢ s → ((c.objects s).task_id == k) ≡ false
      not_same other = elim (Bool-cases ((c.objects s).task_id == k)) [
        | inr f ↦ f
        | inl t ↦
            let is_k : (b.objects s).task_id ≡ k = sym own ∙ (eq_iff (c.objects s).task_id k).0 t in
            absurd (
              other (
                same_ref r s (
                  sym was ∙ subst (λ i. lookup i b.tasks ≡ some s) is_k (chosen-listed b s c h m))))
      ]

  hand_out-AllAccounted :
      (deadline : ℤ) (b : Broker) (result : Outcome (Option Ref) × Broker)
      → WellFormed b
      → Searched worker completed b result
      → AllAccounted b
      → AllAccounted (hand_out worker.worker_id deadline result).1
  hand_out-AllAccounted deadline b (ok (some s), c) h m a = served-AllAccounted deadline b s c h m a
  hand_out-AllAccounted deadline b (ok none, c) h m a =
      unserved-AllAccounted b (ok none, c) (λ e handed. handed) m a
  hand_out-AllAccounted deadline b (raised x, c) h m a =
      unserved-AllAccounted b (raised x, c) (λ e handed. handed) m a

  pub attempt-AllAccounted :
      (now leased_at lease_seconds : ℤ) (b : Broker)
      → WellFormed b
      → AllAccounted b
      → AllAccounted (attempt now leased_at worker completed lease_seconds b).1
  unfolding attempt
  attempt-AllAccounted now leased_at lease_seconds b h a =
      let p = promote-WellFormed now b h in
      hand_out-AllAccounted _ (promote now b) (pop_eligible worker completed (promote now b)) p
        (pop_eligible-Searched worker completed (promote now b) p) (promote-AllAccounted now b h a)
