-- ===== src/Broker/Promote.antt =====
-- taskrunner/queue/broker.py: `_promote_delayed_locked`. It touches the heaps alone, and what it
-- leaves delayed is due later.
use distributed_task_runner.Base.{
  ◌≡◌, refl, sym, subst, inl, inr, Bool, true, false, ◌||◌, List, [], ◌∷◌, arith, ap, select,
  Bool-cases, Option-cases, All, All-map,
}
use distributed_task_runner.Base.Int.{ℤ, ltb_ℤ, leb_ℤ}
use distributed_task_runner.Base.Dict.{Dict, lookup}
use distributed_task_runner.Models.{status_eqb, cancelled, dead_lettered}
use distributed_task_runner.Heapq.{IsHeap}
use distributed_task_runner.Broker.Entries.{ReadyEntry, DelayedEntry, delayed_le, delayed_order}
use distributed_task_runner.Broker.State.{Broker, push_ready}
use distributed_task_runner.Broker.Reserve.{revive, promote_from, promote}
use distributed_task_runner.Broker.WellFormed.{Known, ReadyOk, WellFormed, push_ready-ReadyOk}

-- `b'` is `b` with other heaps, which name known tasks and are in order if those of `b` do and are.
pub record Refiled (b b' : Broker) : Type 0 where
  pub ready : Dict (List ReadyEntry)
  pub delayed : List DelayedEntry
  pub form : b' ≡ record b { ready = ready; delayed = delayed }
  pub ready_kept : WellFormed b → ReadyOk b.tasks ready
  pub delayed_kept : All (λ e. Known b.tasks e.task_id) delayed
  pub delayed_heap : IsHeap delayed

pub Refiled-WellFormed : (b b' : Broker) → Refiled b b' → WellFormed b → WellFormed b'
Refiled-WellFormed b b' m h = subst WellFormed (sym m.form) (record {
  ready = m.ready_kept h;
  delayed = m.delayed_kept;
  delayed_heap = m.delayed_heap;
  inflight = h.inflight;
  dead = h.dead;
  task_names = h.task_names;
  inflight_names = h.inflight_names;
})

pub revive_form :
    (e : DelayedEntry) (b : Broker)
    → (ready : Dict (List ReadyEntry)) × (revive e b ≡ record b { ready = ready })
      × (WellFormed b → ReadyOk b.tasks ready)
unfolding revive
revive_form e b = elim (Option-cases (lookup e.task_id b.tasks)) [
  | inl absent ↦ (b.ready, rw (absent, revive), λ h. h.ready)
  | inr (r, found) ↦
      let task = b.objects r in
      elim (Bool-cases (status_eqb task.status cancelled || status_eqb task.status dead_lettered)) [
        | inl t ↦ (b.ready, rw (found, revive, t), λ h. h.ready)
        | inr f ↦ (
          push_ready task b.sequence b.ready,
          rw (found, revive, f),
          λ h.
              push_ready-ReadyOk b.tasks b.ready task b.sequence h.ready
                (r, rw (h.task_names e.task_id r found) found),
        )
      ]
]

Refiled-step :
    (b b' : Broker) (ready : Dict (List ReadyEntry))
    → (WellFormed b → ReadyOk b.tasks ready)
    → Refiled (record b { ready = ready }) b'
    → Refiled b b'
Refiled-step b b' ready keep m = record {
  ready = m.ready;
  delayed = m.delayed;
  form = m.form;
  ready_kept = λ h. m.ready_kept (record {
    ready = keep h;
    delayed = h.delayed;
    delayed_heap = h.delayed_heap;
    inflight = h.inflight;
    dead = h.dead;
    task_names = h.task_names;
    inflight_names = h.inflight_names;
  });
  delayed_kept = m.delayed_kept;
  delayed_heap = m.delayed_heap;
}

promote_from-Refiled :
    (now : ℤ) (q : List DelayedEntry) (b : Broker)
    → All (λ e. Known b.tasks e.task_id) q
    → IsHeap q
    → Refiled b (promote_from now q b)
unfolding promote_from
promote_from-Refiled now [] b known heap = record {
  ready = b.ready;
  delayed = [];
  form = refl;
  ready_kept = λ h. h.ready;
  delayed_kept = tt;
  delayed_heap = tt;
}
promote_from-Refiled now (e ∷ q) b known heap = elim (Bool-cases (leb_ℤ e.available_at now)) [
  | inl t ↦
      let (ready, form, keep) = revive_form e b in
      rw (t, form)
        (Refiled-step b _ ready keep
          (promote_from-Refiled now q (record b { ready = ready }) known.1 heap.1))
  | inr f ↦ rw f (record {
    ready = b.ready;
    delayed = e ∷ q;
    form = refl;
    ready_kept = λ h. h.ready;
    delayed_kept = known;
    delayed_heap = heap;
  })
]

pub promote-Refiled : (now : ℤ) (b : Broker) → WellFormed b → Refiled b (promote now b)
unfolding promote
promote-Refiled now b h = promote_from-Refiled now b.delayed b h.delayed h.delayed_heap

pub promote-WellFormed : (now : ℤ) (b : Broker) → WellFormed b → WellFormed (promote now b)
promote-WellFormed now b h = Refiled-WellFormed b (promote now b) (promote-Refiled now b h) h

abbrev pub later : (now : ℤ) → DelayedEntry → Bool
later now e = ltb_ℤ now e.available_at

later_behind :
    (now : ℤ) (e y : DelayedEntry)
    → leb_ℤ e.available_at now ≡ false
    → delayed_le e y ≡ true
    → later now y ≡ true
unfolding delayed_le
later_behind now e y f l = ground arith

select-All :
    (now : ℤ) (q : List DelayedEntry) → All (λ e. later now e ≡ true) q → select (later now) q ≡ q
select-All now [] h = refl
select-All now (e ∷ q) h = rw (h.0, select-All now q h.1)

promote_from-later :
    (now : ℤ) (q : List DelayedEntry) (b : Broker)
    → IsHeap q
    → (promote_from now q b).delayed ≡ select (later now) q
unfolding promote_from
promote_from-later now [] b heap = refl
promote_from-later now (e ∷ q) b heap = elim (Bool-cases (leb_ℤ e.available_at now)) [
  | inl t ↦
      let due : later now e ≡ false = ground arith in
      rw (t, due) (promote_from-later now q (revive e b) heap.1)
  | inr f ↦
      let ahead : later now e ≡ true = ground arith in
      rw (f, ahead)
        (sym (ap (◌∷◌ e) (select-All now q (All-map q (λ y. later_behind now e y f) heap.0))))
]

-- Of the delayed entries the promotion leaves exactly those whose time is still to come.
pub promote-later :
    (now : ℤ) (b : Broker) → WellFormed b → (promote now b).delayed ≡ select (later now) b.delayed
unfolding promote
promote-later now b h = promote_from-later now b.delayed b h.delayed_heap
