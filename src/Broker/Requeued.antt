-- ===== src/Broker/Requeued.antt =====
-- taskrunner/queue/broker.py: `requeue_expired_leases` loses no task.
use distributed_task_runner.Base.{
  ◌≡◌, refl, sym, ap, subst, ◌∙◌, inl, inr, String, none, some, [], ◌∷◌, true, false, arith, ◌==◌,
  eq_iff, eqb, Bool-cases, Option-cases,
}
use text.Mathlib.TextPositions.{eq_refl}
use distributed_task_runner.Base.Int.{ℤ}
use distributed_task_runner.Base.Dict.{Dict, lookup, erase, lookup-erase}
use distributed_task_runner.Models.{TaskEnvelope}
use distributed_task_runner.Broker.State.{Ref, Broker}
use distributed_task_runner.Broker.Settle.{
  find_task, release, retry, expired, unassign, requeue_one, requeue_items, requeue_expired_leases,
}
use distributed_task_runner.Broker.WellFormed.{WellFormed, write-WellFormed}
use distributed_task_runner.Broker.Preserve.{
  release-WellFormed, requeue_one-WellFormed, and_then-state,
}
use distributed_task_runner.Broker.Accounted.{Accounted, AllAccounted, Accounted-move}
use distributed_task_runner.Broker.Kept.{release-AllAccounted, retry_others}

-- A task whose lease has run out is out of flight for a moment, in which nothing accounts for it.
module _ (k : String) (r : Ref) (b : Broker) where
  unassign-one :
      (j : String) (x : Ref) → (k == j) ≡ false → Accounted j x b → Accounted j x (unassign k r b)
  unfolding unassign release
  unassign-one j x apart a =
      Accounted-move j x b (unassign k r b) (wrote (λ t. t.status) refl) (wrote (λ t. t.spec) refl)
        (λ d. d) (λ e. rw (lookup-erase, apart) e) (λ w p. inr p) a
    where
      wrote :
          {A : Type 0} (f : TaskEnvelope → A)
          → f (record (b.objects r) { assigned_worker = none }) ≡ f (b.objects r)
          → f ((unassign k r b).objects x) ≡ f (b.objects x)
      wrote f same = elim (Bool-cases (eqb r x)) [
        | inl t ↦ let p : r ≡ x = ground arith in rw t (same ∙ ap (λ y. f (b.objects y)) p)
        | inr g ↦ rw g
      ]

  unassign-listed :
      (j : String) (x : Ref)
      → ((k == j) ≡ true → ⊥)
      → AllAccounted b
      → lookup j b.tasks ≡ some x
      → Accounted j x (unassign k r b)
  unassign-listed j x apart a listed = elim (Bool-cases (k == j)) [
    | inl t ↦ absurd (apart t)
    | inr f ↦ unassign-one j x f (a j x listed)
  ]

  find_task-unassign : find_task k (unassign k r b) ≡ lookup k b.tasks
  unfolding find_task unassign release
  find_task-unassign =
      let gone : lookup k (erase k b.inflight) ≡ none = rw (lookup-erase, eq_refl) in
      rw (gone, find_task) refl

  unassign-WellFormed : WellFormed b → WellFormed (unassign k r b)
  unfolding unassign
  unassign-WellFormed h = write-WellFormed r _ (release k b) (release-WellFormed k b h) refl

  unassign-tasks : (unassign k r b).tasks ≡ b.tasks
  unfolding unassign release
  unassign-tasks = refl

  requeue_one-AllAccounted :
      (now : ℤ) (clock : ℤ × ℤ)
      → WellFormed b
      → AllAccounted b
      → AllAccounted (requeue_one now clock k r b).1
  unfolding requeue_one
  requeue_one-AllAccounted now (again, pushed) h a = elim (Option-cases (lookup k b.tasks)) [
    | inl absent ↦
        let gone = find_task-unassign ∙ absent in
        rw (gone, retry)
          (release-AllAccounted k (unassign k r b) gone (λ j x listed.
            let was : lookup j b.tasks ≡ some x = rw unassign-tasks at listed in
            unassign-listed j x
              (λ t.
                clash x (sym was ∙ subst (λ i. lookup i b.tasks ≡ none) ((eq_iff k j).0 t) absent))
              a was))
    | inr (s, known) ↦
        retry_others again pushed k "lease expired" s (unassign k r b) (unassign-WellFormed h)
          (find_task-unassign ∙ known)
          (λ j x listed other.
            let was : lookup j b.tasks ≡ some x = rw unassign-tasks at listed in
            unassign-listed j x
              (λ t. other (
                same_ref x s
                  (sym was ∙ subst (λ i. lookup i b.tasks ≡ some s) ((eq_iff k j).0 t) known)))
              a was)
  ]
    where
      clash : (x : Ref) → some x ≡ none → ⊥
      clash x e = cc

      same_ref : (x s : Ref) → some x ≡ some s → x ≡ s
      same_ref x s e = cc

-- The loop keeps both, since the second needs the first.
abbrev Both : Broker → Type 0
Both b = WellFormed b × AllAccounted b

requeue_items-Both :
    (now : ℤ) (clock : String → ℤ × ℤ) (items : Dict Ref) (b : Broker)
    → Both b
    → Both (requeue_items now clock items b).1
unfolding requeue_items
requeue_items-Both now clock [] b h = h
requeue_items-Both now clock ((k, r) ∷ items) b (h, a) =
    elim (Bool-cases (expired now (b.objects r))) [
      | inl t ↦
          rw (t, requeue_items)
            (and_then-state Both (requeue_one now (clock k) k r b) (requeue_items now clock items)
              (
                requeue_one-WellFormed now (clock k) k r b h,
                requeue_one-AllAccounted k r b now (clock k) h a,
              )
              (requeue_items-Both now clock items))
      | inr f ↦ rw (f, requeue_items) (requeue_items-Both now clock items b (h, a))
    ]

pub requeue_expired_leases-AllAccounted :
    (now : ℤ) (clock : String → ℤ × ℤ) (b : Broker)
    → WellFormed b
    → AllAccounted b
    → AllAccounted (requeue_expired_leases now clock b).1
unfolding requeue_expired_leases
requeue_expired_leases-AllAccounted now clock b h a =
    (requeue_items-Both now clock b.inflight b (h, a)).1
