-- ===== src/Engine/Services.antt =====
-- taskrunner/scheduler/engine.py: `start_background_services` and `stop_background_services`. A task
-- that has ended, by an exception, is taken out of the set by its callback.
use distributed_task_runner.Base.{
  ℕ, ◌+◌, ◌≤◌, ◌≡◌, refl, sym, subst, Bool, true, false, List, [], ◌∷◌, ◌++◌, arith, ◌⊎◌, inl, inr,
  Bool-cases, if◌then◌else◌,
}

pub data Loop : Type 0 where
  heartbeats leases pressure : Loop

-- `_background_tasks` and `_services_started`.
pub record Services : Type 0 where
  pub tasks : List Loop
  pub started : Bool

unfoldable pub no_services : Services
no_services = record { tasks = []; started = false }

unfoldable pub start_background_services : Services → Services
start_background_services s =
    if s.started
    then s
    else record { tasks = s.tasks ++ (heartbeats ∷ leases ∷ pressure ∷ []); started = true }

-- Each task is cancelled and awaited, and its callback takes it out.
unfoldable pub stop_background_services : Services → Services
stop_background_services s = record { tasks = []; started = false }

abbrev pub same_loop : Loop → Loop → Bool
same_loop heartbeats heartbeats = true
same_loop leases leases = true
same_loop pressure pressure = true
same_loop _ _ = false

-- `self._background_tasks.discard`, for a task of this loop.
unfoldable pub discard : Loop → List Loop → List Loop
discard loop [] = []
discard loop (x ∷ xs) = let rest = discard loop xs in if same_loop x loop then xs else x ∷ rest

unfoldable pub loop_ended : Loop → Services → Services
unfolding discard
loop_ended loop s = record s { tasks = discard loop s.tasks }

pub data ServiceEvent : Type 0 where
  starts stops : ServiceEvent
  ends : Loop → ServiceEvent

unfoldable pub happen : ServiceEvent → Services → Services
unfolding start_background_services stop_background_services loop_ended
happen starts s = start_background_services s
happen stops s = stop_background_services s
happen (ends loop) s = loop_ended loop s

unfoldable pub history : List ServiceEvent → Services → Services
unfolding happen
history [] s = s
history (h ∷ hs) s = history hs (happen h s)

-- How many tasks of a loop there are.
unfoldable pub times : Loop → List Loop → ℕ
times loop [] = 0
times loop (x ∷ xs) = (if same_loop x loop then 1 else 0) + times loop xs

-- Each loop runs at most once, and none runs unless the services are started.
pub record Single (s : Services) : Type 0 where
  pub once : (loop : Loop) → times loop s.tasks ≤ 1
  pub none_before : (s.started ≡ true) ⊎ (s.tasks ≡ [])

times-append :
    (loop : Loop) (xs ys : List Loop) → times loop (xs ++ ys) ≡ times loop xs + times loop ys
unfolding times
times-append loop [] ys = omega arith
times-append loop (x ∷ xs) ys = omega (arith, times-append loop xs ys)

times-all : (loop : Loop) → times loop (heartbeats ∷ leases ∷ pressure ∷ []) ≤ 1
unfolding times
times-all heartbeats = omega arith
times-all leases = omega arith
times-all pressure = omega arith

times-discard : (loop other : Loop) (xs : List Loop) → times loop (discard other xs) ≤ times loop xs
unfolding times discard
times-discard loop other [] = omega arith
times-discard loop other (x ∷ xs) = ground (arith, times-discard loop other xs)

all_started :
    (s : Services)
    → s.tasks ≡ []
    → Single (record { tasks = s.tasks ++ (heartbeats ∷ leases ∷ pressure ∷ []); started = true })
unfolding times
all_started s h = record {
  once = λ loop.
      let none_yet : times loop s.tasks ≡ 0 = rw h refl in
      omega (
        arith,
        times-append loop s.tasks (heartbeats ∷ leases ∷ pressure ∷ []),
        times-all loop,
        none_yet,
      );
  none_before = inl refl;
}

start-Single : (s : Services) → Single s → Single (start_background_services s)
unfolding start_background_services times
start-Single s h = elim (Bool-cases s.started) [
  | inl e ↦ subst Single (unfold start_background_services in (sym (rw e refl))) h
  | inr e ↦ rw e (all_started s (elim h.none_before [ inl t ↦ absurd (cc) | inr empty ↦ empty ]))
]

happen-Single : (h : ServiceEvent) (s : Services) → Single s → Single (happen h s)
unfolding happen stop_background_services loop_ended discard times
happen-Single starts s h = start-Single s h
happen-Single stops s h = record { once = λ loop. omega arith; none_before = inr refl }
happen-Single (ends loop) s h = record {
  once = λ other. omega (arith, times-discard other loop s.tasks, h.once other);
  none_before = elim h.none_before [ inl e ↦ inl e | inr e ↦ inr (rw e refl) ];
}

history_keep : (hs : List ServiceEvent) (s : Services) → Single s → Single (history hs s)
unfolding history
history_keep [] s h = h
history_keep (x ∷ hs) s h = history_keep hs (happen x s) (happen-Single x s h)

-- Whatever the order in which the services are started and stopped and their loops end, each loop
-- has one task at most, and none has one unless the services are started.
pub history-Single : (hs : List ServiceEvent) → Single (history hs no_services)
unfolding no_services times
history-Single hs =
    history_keep hs no_services (record { once = λ loop. omega arith; none_before = inr refl })
