-- ===== src/Broker/Choice.antt =====
-- taskrunner/queue/broker.py: which task `_pop_eligible_locked` hands out.
use distributed_task_runner.Base.{
  ◌≡◌, refl, sym, subst, ◌⊎◌, inl, inr, String, true, Option, none, some, List, [], ◌∷◌, arith,
  Bool-cases, ◌==◌, eq_iff, Option-cases, All, All-Has, Has,
}
use distributed_task_runner.Base.Dict.{Dict, lookup, insert}
use distributed_task_runner.Models.{WorkerInfo}
use distributed_task_runner.Heapq.{heapify, remove}
use distributed_task_runner.Heapq.Laws.{
  Has-heapify, Has-remove, remove_found, All-remove, All-heapify, heapify-IsHeap,
}
use distributed_task_runner.Broker.Entries.{ReadyEntry, ready_le, ready_same, ready_order}
use distributed_task_runner.Broker.State.{Ref, Broker, Outcome, ok, raised, queue_at}
use distributed_task_runner.Broker.Reserve.{Candidate, scan, least, take_best, choose, pop_eligible}
use distributed_task_runner.Broker.WellFormed.{
  Known, ReadyOk, WellFormed, insert-ReadyOk, queue_at-insert,
}
use distributed_task_runner.Broker.Least.{least_among, least_le}
use distributed_task_runner.Broker.Scan.{
  live, fits, drain_lem, Found, Visited, Visited-nil, Visited-skip, Visited-drained, Visited-cons,
}

refile-WellFormed :
    (b : Broker) (ready : Dict (List ReadyEntry))
    → WellFormed b
    → ReadyOk b.tasks ready
    → WellFormed (record b { ready = ready })
refile-WellFormed b ready h ok_ready = record {
  ready = ok_ready;
  delayed = h.delayed;
  delayed_heap = h.delayed_heap;
  inflight = h.inflight;
  dead = h.dead;
  task_names = h.task_names;
  inflight_names = h.inflight_names;
}

pub queue_cases :
    (o : Option (List ReadyEntry))
    → (o ≡ none) ⊎ (o ≡ some []) ⊎ ((e : ReadyEntry) × (q : List ReadyEntry) × (o ≡ some (e ∷ q)))
queue_cases none = inl refl
queue_cases (some []) = inr (inl refl)
queue_cases (some (e ∷ q)) = inr (inr (e, q, refl))

queue_at-none :
    (name : String) (ready : Dict (List ReadyEntry))
    → lookup name ready ≡ none
    → queue_at name ready ≡ []
unfolding queue_at
queue_at-none name ready e = rw (e, queue_at)

queue_at-some :
    (name : String) (ready : Dict (List ReadyEntry)) (q : List ReadyEntry)
    → lookup name ready ≡ some q
    → queue_at name ready ≡ q
unfolding queue_at
queue_at-some name ready q e = rw (e, queue_at)

same_task : (e d : ReadyEntry) → ready_same e d ≡ true → e.task_id ≡ d.task_id
unfolding ready_same
same_task e d h = ground (arith, eq_iff e.task_id d.task_id)

module _ (worker : WorkerInfo) (completed : List String) where
  -- The outcome of the loop on the queues `names`.
  record Scanned (names : List String) (before : List Candidate) (b : Broker)
      (result : Outcome (List Candidate) × Broker) : Type 0 where
    ready : Dict (List ReadyEntry)
    after : List Candidate
    form : result ≡ (ok after, record b { ready = ready })
    visited : Visited worker completed names b before ready after

  Scanned-cons :
      (name : String) (names : List String) (before between : List Candidate) (b : Broker)
      (ready : Dict (List ReadyEntry)) (result : Outcome (List Candidate) × Broker)
      → Visited worker completed (name ∷ []) b before ready between
      → Scanned names between (record b { ready = ready }) result
      → Scanned (name ∷ names) before b result
  Scanned-cons name names before between b ready result one rest = record {
    ready = rest.ready;
    after = rest.after;
    form = rest.form;
    visited =
        Visited-cons worker completed name names b before ready between rest.ready rest.after one
          rest.visited;
  }

  -- No KeyError is raised on a queue that is well formed.
  scan-Scanned :
      (names : List String) (before : List Candidate) (b : Broker)
      → WellFormed b
      → Scanned names before b (scan worker completed names before b)
  unfolding scan
  scan-Scanned [] before b h = record {
    ready = b.ready;
    after = before;
    form = refl;
    visited = Visited-nil worker completed b before h;
  }
  scan-Scanned (name ∷ names) before b h = elim (queue_cases (lookup name b.ready)) [
    | inl e ↦
        rw (e, scan)
          (Scanned-cons name names before before b b.ready _
            (Visited-skip worker completed name b before h (queue_at-none name b.ready e))
            (scan-Scanned names before b h))
    | inr (inl e) ↦
        rw (e, scan)
          (Scanned-cons name names before before b b.ready _
            (Visited-skip worker completed name b before h (queue_at-some name b.ready [] e))
            (scan-Scanned names before b h))
    | inr (inr (x, q, e)) ↦
        let is_q = queue_at-some name b.ready (x ∷ q) e in
        let one = Visited-drained worker completed name b before (x ∷ q) h is_q in
        let known = subst (All (λ y. Known b.tasks y.task_id)) is_q (h.ready.known name) in
        rw (e, scan, drain_lem worker completed b (x ∷ q) known)
          (Scanned-cons name names before _ b _ _ one
            (scan-Scanned names _ _ (refile-WellFormed b _ h one.heaps)))
  ]

  -- What `reserve` may hand out: the entry stands in one of the worker's queues, and its task is
  -- not cancelled and is one that the worker may take.
  abbrev pub Eligible : Broker → Candidate → Type 0
  Eligible b c = Found worker completed worker.queues b c

  -- The outcome of a search of the queue `b`: the first of the eligible entries, with its task, or
  -- nothing where none is eligible. No error is an outcome.
  abbrev pub Chosen : Broker → Outcome (Option Ref) → Type 0
  Chosen b (ok (some r)) =
      (c : Candidate) × Eligible b c
      × (lookup c.entry.task_id b.tasks ≡ some r)
      × ((d : Candidate) → Eligible b d → ready_le c.entry d.entry ≡ true)
  Chosen b (ok none) = (d : Candidate) → ¬ Eligible b d
  Chosen b (raised e) = ⊥

  fits_known :
      (b : Broker) (e : ReadyEntry)
      → fits worker completed b e ≡ true
      → (r : Ref) × (lookup e.task_id b.tasks ≡ some r)
  fits_known b e f = elim (Option-cases (lookup e.task_id b.tasks)) [
    | inl absent ↦ absurd (ground arith)
    | inr found ↦ found
  ]

  -- The entry is one of the task that is handed out.
  abbrev pub Handed : Broker → ReadyEntry → Outcome (Option Ref) → Type 0
  Handed b e (ok (some r)) = lookup e.task_id b.tasks ≡ some r
  Handed b e (ok none) = ⊥
  Handed b e (raised x) = ⊥

  -- What a search does: its outcome, and a queue that differs from `b` in the ready heaps alone.
  pub record Searched (b : Broker) (result : Outcome (Option Ref) × Broker) : Type 0 where
    pub chosen : Chosen b result.0
    pub ready : Dict (List ReadyEntry)
    pub form : result.1 ≡ record b { ready = ready }
    pub heaps : ReadyOk b.tasks ready
    pub kept :
        (name : String) (e : ReadyEntry)
        → Has e (queue_at name b.ready)
        → live b.cancelled e ≡ true
        → Has e (queue_at name ready) ⊎ Handed b e result.0

  -- The queue `best.queue` without the entry that is handed out: the others stay.
  take_best-kept :
      (best : Candidate) (ready : Dict (List ReadyEntry)) (q : List ReadyEntry) (name : String)
      (e : ReadyEntry)
      → remove best.entry (queue_at best.queue ready) ≡ some q
      → Has e (queue_at name ready)
      → Has e (queue_at name (insert best.queue (heapify q) ready))
        ⊎ (ready_same e best.entry ≡ true)
  take_best-kept best ready q name e removed m = elim (Bool-cases (best.queue == name)) [
    | inr f ↦ inl (rw (queue_at-insert, f) m)
    | inl t ↦
        let here : Has e (queue_at best.queue ready) =
          subst (λ n. Has e (queue_at n ready)) (sym ((eq_iff best.queue name).0 t)) m in
        elim (Has-remove best.entry (queue_at best.queue ready) q e removed here) [
          | inl same ↦ inr same
          | inr rest ↦ inl (rw (queue_at-insert, t) (Has-heapify q e rest))
        ]
  ]

  take_best-Searched :
      (best : Candidate) (b : Broker) (ready : Dict (List ReadyEntry))
      → ReadyOk b.tasks ready
      → Has best.entry (queue_at best.queue ready)
      → Eligible b best
      → ((d : Candidate) → Eligible b d → ready_le best.entry d.entry ≡ true)
      → ((name : String) (e : ReadyEntry)
          → Has e (queue_at name b.ready)
          → live b.cancelled e ≡ true
          → Has e (queue_at name ready))
      → Searched b (take_best best (record b { ready = ready }))
  unfolding take_best
  take_best-Searched best b ready ok_ready present f first stays =
      let (q, removed) = remove_found best.entry (queue_at best.queue ready) present in
      let (r, known) = fits_known b best.entry f.fitting in
      rw (removed, take_best, known)
        (record {
          chosen = (best, f, known, first);
          ready = insert best.queue (heapify q) ready;
          form = refl;
          heaps =
              insert-ReadyOk b.tasks ready best.queue (heapify q) ok_ready
                (All-heapify _ q (All-remove _ best.entry _ q removed (ok_ready.known best.queue)))
                (heapify-IsHeap q);
          kept = λ name e m l.
              elim (take_best-kept best ready q name e removed (stays name e m l)) [
                | inl left ↦ inl left
                | inr same ↦ inr (
                    subst (λ k. lookup k b.tasks ≡ some r) (sym (same_task e best.entry same))
                      known)
              ];
        })

  choose-Searched :
      (b : Broker) (ready : Dict (List ReadyEntry)) (cs : List Candidate)
      → Visited worker completed worker.queues b [] ready cs
      → Searched b (choose (ok cs, record b { ready = ready }))
  choose-Searched b ready [] v = record {
    chosen = v.finds;
    ready = ready;
    form = refl;
    heaps = v.heaps;
    kept = λ name e m l. inl (v.kept name e m l);
  }
  choose-Searched b ready (c ∷ cs) v = elim (v.sound (least c cs) (least_among c cs)) [
    | inl m ↦ absurd m
    | inr f ↦
        take_best-Searched (least c cs) b ready v.heaps
          (v.kept (least c cs).queue (least c cs).entry f.present f.alive) f
          (λ d g. All-Has _ (c ∷ cs) d (least_le c cs) (v.finds d g)) v.kept
  ]

  pub pop_eligible-Searched :
      (b : Broker) → WellFormed b → Searched b (pop_eligible worker completed b)
  unfolding pop_eligible
  pop_eligible-Searched b h =
      let m = scan-Scanned worker.queues [] b h in
      subst (λ s. Searched b (choose s)) (sym m.form) (choose-Searched b m.ready m.after m.visited)

  -- On a queue that is well formed `_pop_eligible_locked` raises nothing. It finds the first of the
  -- eligible entries in the order of priority, time of creation, sequence and identifier, and finds
  -- none only if none is eligible.
  pub pop_eligible-Chosen :
      (b : Broker) → WellFormed b → Chosen b (pop_eligible worker completed b).0
  pop_eligible-Chosen b h = (pop_eligible-Searched b h).chosen

  pub pop_eligible-WellFormed :
      (b : Broker) → WellFormed b → WellFormed (pop_eligible worker completed b).1
  pop_eligible-WellFormed b h =
      let s = pop_eligible-Searched b h in
      subst WellFormed (sym s.form) (refile-WellFormed b s.ready h s.heaps)
