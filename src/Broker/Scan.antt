-- ===== src/Broker/Scan.antt =====
-- taskrunner/queue/broker.py: the loops of `_pop_eligible_locked`. What they keep and what they
-- find is told by filters on the queues.
use distributed_task_runner.Base.{
  ◌≡◌, refl, sym, ap, subst, ◌∙◌, ◌⊎◌, inl, inr, String, Bool, true, false, none, some, List, [],
  ◌∷◌, ◌++◌, ◌==◌, eq_iff, if◌then◌else◌, Bool-cases, All, Has, select, Has-select,
  Has-select_cases, Has-append_left, Has-append_right, Has-append_cases, Has-map, All-select,
}
use distributed_task_runner.Base.Dict.{Dict, lookup, insert}
use distributed_task_runner.Base.Text.{elem}
use distributed_task_runner.Models.{WorkerInfo}
use distributed_task_runner.Heapq.{push_all}
use distributed_task_runner.Heapq.Laws.{
  Has-push_all, Has-push_all_cases, All-push_all, push_all-IsHeap,
}
use distributed_task_runner.Broker.Entries.{ReadyEntry, ready_order}
use distributed_task_runner.Broker.State.{Broker, queue_at}
use distributed_task_runner.Broker.Reserve.{eligible, drained, drain, Candidate, named}
use distributed_task_runner.Broker.WellFormed.{
  Known, ReadyOk, WellFormed, queue_at-insert, insert-ReadyOk,
}

-- An entry whose task is not cancelled.
abbrev pub live : List String → ReadyEntry → Bool
live cancelled e = if elem e.task_id cancelled then false else true

module _ (worker : WorkerInfo) (completed : List String) where
  -- An entry whose task the worker may take.
  abbrev pub fits : Broker → ReadyEntry → Bool
  fits b e = elim (lookup e.task_id b.tasks) [
    | none ↦ false
    | some r ↦ eligible worker completed (b.objects r)
  ]

  pub drain_lem :
      (b : Broker) (q : List ReadyEntry)
      → All (λ e. Known b.tasks e.task_id) q
      → drain worker completed b q
        ≡ drained (select (live b.cancelled) q) (select (fits b) (select (live b.cancelled) q))
  unfolding drain
  drain_lem b [] h = refl
  drain_lem b (e ∷ q) ((r, found), h) = elim (Bool-cases (elem e.task_id b.cancelled)) [
    | inl t ↦ rw (t, drain_lem b q h)
    | inr f ↦
        let fit : fits b e ≡ eligible worker completed (b.objects r) = rw (found, fits) in
        elim (Bool-cases (eligible worker completed (b.objects r))) [
          | inl t ↦ rw (f, fit, found, drain, t, drain_lem b q h)
          | inr g ↦ rw (f, fit, found, drain, g, drain_lem b q h)
        ]
  ]

  -- A candidate that comes from one of the queues `names`.
  pub record Found (names : List String) (b : Broker) (c : Candidate) : Type 0 where
    pub named : Has c.queue names
    pub present : Has c.entry (queue_at c.queue b.ready)
    pub alive : live b.cancelled c.entry ≡ true
    pub fitting : fits b c.entry ≡ true

  -- The queues `names` have been visited: the heaps are now those of `ready`, and the candidates
  -- `before` have become the candidates `after`.
  pub record Visited (names : List String) (b : Broker) (before : List Candidate)
      (ready : Dict (List ReadyEntry)) (after : List Candidate) : Type 0 where
    pub heaps : ReadyOk b.tasks ready
    pub kept :
        (name : String) (e : ReadyEntry)
        → Has e (queue_at name b.ready)
        → live b.cancelled e ≡ true
        → Has e (queue_at name ready)
    pub old :
        (name : String) (e : ReadyEntry)
        → Has e (queue_at name ready)
        → Has e (queue_at name b.ready)
    pub stay : (c : Candidate) → Has c before → Has c after
    pub finds : (c : Candidate) → Found names b c → Has c after
    pub sound : (c : Candidate) → Has c after → Has c before ⊎ Found names b c

  pub Visited-nil : (b : Broker) (cs : List Candidate) → WellFormed b → Visited [] b cs b.ready cs
  Visited-nil b cs h = record {
    heaps = h.ready;
    kept = λ name e m l. m;
    old = λ name e m. m;
    stay = λ c m. m;
    finds = λ c f. absurd f.named;
    sound = λ c m. inl m;
  }

  Found-weaken :
      (name : String) (names : List String) (b : Broker) (ready : Dict (List ReadyEntry))
      (c : Candidate)
      → (Has c.entry (queue_at c.queue ready) → Has c.entry (queue_at c.queue b.ready))
      → Found names (record b { ready = ready }) c
      → Found (name ∷ names) b c
  Found-weaken name names b ready c old f = record {
    named = inr f.named;
    present = old f.present;
    alive = f.alive;
    fitting = f.fitting;
  }

  -- One queue, and then the others.
  pub Visited-cons :
      (name : String) (names : List String) (b : Broker) (before : List Candidate)
      (ready : Dict (List ReadyEntry)) (between : List Candidate) (ready' : Dict (List ReadyEntry))
      (after : List Candidate)
      → Visited (name ∷ []) b before ready between
      → Visited names (record b { ready = ready }) between ready' after
      → Visited (name ∷ names) b before ready' after
  Visited-cons name names b before ready between ready' after one rest = record {
    heaps = rest.heaps;
    kept = λ n e m l. rest.kept n e (one.kept n e m l) l;
    old = λ n e m. one.old n e (rest.old n e m);
    stay = λ c m. rest.stay c (one.stay c m);
    finds = λ c f. elim f.named [
      | inl here ↦ rest.stay c (
          one.finds c (record {
            named = inl here;
            present = f.present;
            alive = f.alive;
            fitting = f.fitting;
          }))
      | inr there ↦ rest.finds c (record {
        named = there;
        present = one.kept c.queue c.entry f.present f.alive;
        alive = f.alive;
        fitting = f.fitting;
      })
    ];
    sound = λ c m. elim (rest.sound c m) [
      | inr f ↦ inr (Found-weaken name names b ready c (one.old c.queue c.entry) f)
      | inl n ↦ elim (one.sound c n) [
        | inl start ↦ inl start
        | inr f ↦ inr (record {
          named = elim f.named [ inl here ↦ inl here | inr m ↦ absurd m ];
          present = f.present;
          alive = f.alive;
          fitting = f.fitting;
        })
      ]
    ];
  }

  -- A queue that is missing or empty is passed over.
  pub Visited-skip :
      (name : String) (b : Broker) (cs : List Candidate)
      → WellFormed b
      → queue_at name b.ready ≡ []
      → Visited (name ∷ []) b cs b.ready cs
  Visited-skip name b cs h empty = record {
    heaps = h.ready;
    kept = λ n e m l. m;
    old = λ n e m. m;
    stay = λ c m. m;
    finds = λ c f. elim f.named [
      | inl here ↦
          absurd (subst (Has c.entry) (ap (λ n. queue_at n b.ready) here ∙ empty) f.present)
      | inr m ↦ absurd m
    ];
    sound = λ c m. inl m;
  }

  Has-named :
      (name : String) (c : Candidate) (es : List ReadyEntry)
      → Has c (named name es)
      → (c.queue ≡ name) × Has c.entry es
  Has-named name c [] m = absurd m
  Has-named name c (e ∷ es) (inl p) = (ap (λ d. d.queue) p, inl (ap (λ d. d.entry) p))
  Has-named name c (e ∷ es) (inr m) = let (n, h) = Has-named name c es m in (n, inr h)

  -- A queue that is not empty keeps the entries of the tasks that are not cancelled.
  pub Visited-drained :
      (name : String) (b : Broker) (cs : List Candidate) (q : List ReadyEntry)
      → WellFormed b
      → queue_at name b.ready ≡ q
      → Visited
          (name ∷ [])
          b
          cs
          (insert name (push_all [] (select (live b.cancelled) q)) b.ready)
          (cs ++ named name (select (fits b) (select (live b.cancelled) q)))
  Visited-drained name b cs q h is_q = record {
    heaps =
        insert-ReadyOk b.tasks b.ready name _ h.ready
          (All-push_all _ [] (select alive q)
            (All-select _ alive q (subst (All _) is_q (h.ready.known name))) tt)
          (push_all-IsHeap [] (select alive q) tt);
    kept = λ n e m l. elim (Bool-cases (name == n)) [
      | inl t ↦
          rw (queue_at-insert, t)
            (Has-push_all [] (select alive q) e (inr (Has-select alive e q (here n e t m) l)))
      | inr f ↦ rw (queue_at-insert, f) m
    ];
    old = λ n e m. elim (Bool-cases (name == n)) [
      | inl t ↦ there n e t (rw (queue_at-insert, t) at m)
      | inr f ↦ (rw (queue_at-insert, f) at m)
    ];
    stay = λ c m. Has-append_left c cs _ m;
    finds = λ c f. elim f.named [
      | inl is_name ↦ Has-append_right c cs _ (
          subst
            (λ n.
              Has (record { entry = c.entry; queue = n })
                (named name (select fit (select alive q))))
            (sym is_name)
            (Has-map _ c.entry (select fit (select alive q)) (
              Has-select fit c.entry (select alive q)
                (Has-select alive c.entry q
                  (subst (Has c.entry) is_q
                    (subst (λ n. Has c.entry (queue_at n b.ready)) is_name f.present))
                  f.alive)
                f.fitting)))
      | inr m ↦ absurd m
    ];
    sound = λ c m. elim (Has-append_cases c cs _ m) [
      | inl old ↦ inl old
      | inr new ↦
          let (is_name, chosen) = Has-named name c _ new in
          let (lives, fitting) = Has-select_cases fit c.entry (select alive q) chosen in
          let (present, alive_) = Has-select_cases alive c.entry q lives in
          inr (record {
            named = inl is_name;
            present =
                subst (λ n. Has c.entry (queue_at n b.ready)) (sym is_name)
                  (subst (Has c.entry) (sym is_q) present);
            alive = alive_;
            fitting = fitting;
          })
    ];
  }
    where
      alive : ReadyEntry → Bool
      alive = live b.cancelled

      fit : ReadyEntry → Bool
      fit = fits b

      here :
          (n : String) (e : ReadyEntry) → (name == n) ≡ true → Has e (queue_at n b.ready) → Has e q
      here n e t m =
          subst (Has e) is_q (subst (λ k. Has e (queue_at k b.ready)) (sym ((eq_iff name n).0 t)) m)

      there :
          (n : String) (e : ReadyEntry)
          → (name == n) ≡ true
          → Has e (push_all [] (select alive q))
          → Has e (queue_at n b.ready)
      there n e t m = elim (Has-push_all_cases [] (select alive q) e m) [
        | inl none' ↦ absurd none'
        | inr chosen ↦
            subst (λ k. Has e (queue_at k b.ready)) ((eq_iff name n).0 t)
              (subst (Has e) (sym is_q) (Has-select_cases alive e q chosen).0)
      ]
