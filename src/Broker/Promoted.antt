-- ===== src/Broker/Promoted.antt =====
-- taskrunner/queue/broker.py: `_promote_delayed_locked` loses no task.
use distributed_task_runner.Base.{
  ◌≡◌, refl, sym, ap, subst, ◌∙◌, ◌⊎◌, inl, inr, String, true, false, ◌||◌, some, List, [], ◌∷◌,
  arith, Bool-cases, Option-cases,
}
use distributed_task_runner.Base.Int.{ℤ, leb_ℤ}
use distributed_task_runner.Base.Dict.{lookup}
use distributed_task_runner.Base.Text.{elem}
use distributed_task_runner.Models.{
  TaskStatus, TaskSpec, queued, retrying, cancelled, dead_lettered, status_eqb,
}
use distributed_task_runner.Broker.Entries.{DelayedEntry}
use distributed_task_runner.Broker.State.{Ref, Broker}
use distributed_task_runner.Broker.Reserve.{revive, promote_from, promote}
use distributed_task_runner.Broker.WellFormed.{WellFormed}
use distributed_task_runner.Broker.Promote.{revive_form, promote-Refiled}
use distributed_task_runner.Broker.Filed.{push_ready-IsReady}
use distributed_task_runner.Broker.Accounted.{
  waits, InReady, InDelayed, Pending, AllAccounted, Accounted-move, push_ready-InReady,
}

not_ended :
    (status : TaskStatus)
    → waits status ≡ true
    → (status_eqb status cancelled || status_eqb status dead_lettered) ≡ false
unfolding waits
not_ended queued w = refl
not_ended retrying w = refl
not_ended _ w = ground arith

-- The task `r` is listed under its identifier `k` and waits.
pub record Waits (k : String) (r : Ref) (b : Broker) : Type 0 where
  pub listed : lookup k b.tasks ≡ some r
  pub named : (b.objects r).task_id ≡ k
  pub is_waiting : waits (b.objects r).status ≡ true

revive-InReady :
    (k : String) (spec : TaskSpec) (e : DelayedEntry) (b : Broker)
    → InReady k spec b.ready
    → InReady k spec (revive e b).ready
unfolding revive
revive-InReady k spec e b m = elim (Option-cases (lookup e.task_id b.tasks)) [
  | inl absent ↦ rw (absent, revive) m
  | inr (s, found) ↦
      elim (Bool-cases (
        status_eqb (b.objects s).status cancelled
        || status_eqb (b.objects s).status dead_lettered)) [
          | inl t ↦ rw (found, revive, t) m
          | inr f ↦
              rw (found, revive, f) (push_ready-InReady k spec (b.objects s) b.sequence b.ready m)
        ]
]

-- An entry for `k` that is revived is ready in the queue of its task.
revive-InReady_self :
    (k : String) (r : Ref) (e : DelayedEntry) (b : Broker)
    → Waits k r b
    → e.task_id ≡ k
    → InReady k (b.objects r).spec (revive e b).ready
unfolding revive
revive-InReady_self k r e b w is_k =
    let found : lookup e.task_id b.tasks ≡ some r = rw is_k w.listed in
    let (entry, m, named, priority, created) =
      push_ready-IsReady (b.objects r) b.sequence b.ready in
    rw (found, revive, not_ended (b.objects r).status w.is_waiting) (entry, m, named ∙ w.named)

promote_from-Pending :
    (k : String) (r : Ref) (now : ℤ) (q : List DelayedEntry) (b : Broker)
    → Waits k r b
    → InReady k (b.objects r).spec b.ready ⊎ InDelayed k q
    → Pending k (b.objects r).spec (promote_from now q b)
unfolding promote_from
promote_from-Pending k r now [] b w (inl m) = inl m
promote_from-Pending k r now [] b w (inr (e, m, named)) = absurd m
promote_from-Pending k r now (e ∷ q) b w p = elim (Bool-cases (leb_ℤ e.available_at now)) [
  | inr f ↦ rw f p
  | inl t ↦
      let (ready, form, keep) = revive_form e b in
      let moved : InReady k (b.objects r).spec ready ⊎ InDelayed k q =
        subst (λ (x : Broker). InReady k (b.objects r).spec x.ready ⊎ InDelayed k q) form after in
      rw (t, form)
        (promote_from-Pending k r now q (record b { ready = ready })
          (record { listed = w.listed; named = w.named; is_waiting = w.is_waiting }) moved)
]
  where
    after : InReady k (b.objects r).spec (revive e b).ready ⊎ InDelayed k q
    after = elim p [
      | inl m ↦ inl (revive-InReady k (b.objects r).spec e b m)
      | inr (d, inl first, named) ↦
          inl (revive-InReady_self k r e b w (ap (λ x. x.task_id) (sym first) ∙ named))
      | inr (d, inr rest, named) ↦ inr (d, rest, named)
    ]

-- A waiting task keeps an entry while the delayed entries that are due become ready.
pub promote-Pending :
    (k : String) (r : Ref) (now : ℤ) (b : Broker)
    → Waits k r b
    → Pending k (b.objects r).spec b
    → Pending k (b.objects r).spec (promote now b)
unfolding promote
promote-Pending k r now b w p = promote_from-Pending k r now b.delayed b w p

pub promote-AllAccounted :
    (now : ℤ) (b : Broker) → WellFormed b → AllAccounted b → AllAccounted (promote now b)
promote-AllAccounted now b h a k r listed =
    Accounted-move k r b (promote now b) (ap (λ (x : Broker). (x.objects r).status) form)
      (ap (λ (x : Broker). (x.objects r).spec) form)
      (λ d. subst (λ (x : Broker). elem k x.cancelled ≡ true) (sym form) d)
      (λ e. subst (λ (x : Broker). lookup k x.inflight ≡ some r) (sym form) e)
      (λ w p. inr (
        promote-Pending k r now b
          (record { listed = was; named = h.task_names k r was; is_waiting = w }) p))
      (a k r was)
  where
    form : promote now b ≡ record b {
      ready = (promote-Refiled now b h).ready;
      delayed = (promote-Refiled now b h).delayed;
    }
    form = (promote-Refiled now b h).form

    was : lookup k b.tasks ≡ some r
    was = subst (λ (x : Broker). lookup k x.tasks ≡ some r) form listed
