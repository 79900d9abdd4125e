-- ===== src/Locks/Exclusion.antt =====
-- taskrunner/shared/locks.py: at most one caller at a time holds the lock of a key.
use distributed_task_runner.Base.{
  ℕ, ◌≡◌, refl, ap, ◌∙◌, Bool, true, false, not, ◌&&◌, List, [], ◌∷◌, ◌++◌, String, eqb, ◌==◌,
  arith, inl, inr, Bool-cases,
}
use distributed_task_runner.Locks.{
  Waiter, Lock, DistributedLockManager, new_lock, new_manager, wake_up_first, is_waiting, is_woken,
  any_waits, no_longer, is_inside, gone, arrive, get_lock, time_out, leave, LockStep, arrives,
  resumes, times_out, leaves, at_key, lock_step, lock_steps,
}

-- None of the waiters is awake.
unfoldable pub asleep : List Waiter → Bool
asleep [] = true
asleep (w ∷ ws) = not w.woken && asleep ws

-- The first waiter, if there is one, is awake, and no other is.
unfoldable pub first_woken : List Waiter → Bool
unfolding asleep
first_woken [] = true
first_woken (w ∷ ws) = w.woken && asleep ws

-- The lock is taken by the one caller inside, and all that wait sleep; or it is free, none is inside,
-- and the first of those that wait is awake.
pub data Exclusive (l : Lock) : Type 0 where
  held :
      (caller : ℕ)
      → l.locked ≡ true
      → l.inside ≡ caller ∷ []
      → asleep l.waiters ≡ true
      → Exclusive l
  free : l.locked ≡ false → l.inside ≡ [] → first_woken l.waiters ≡ true → Exclusive l

asleep-no_longer :
    (caller : ℕ) (ws : List Waiter) → asleep ws ≡ true → asleep (no_longer caller ws) ≡ true
unfolding asleep no_longer
asleep-no_longer caller [] h = refl
asleep-no_longer caller (w ∷ ws) h = ground (arith, h, asleep-no_longer caller ws)

asleep-append :
    (caller : ℕ) (ws : List Waiter)
    → asleep ws ≡ true
    → asleep (ws ++ record { caller = caller; woken = false } ∷ []) ≡ true
unfolding asleep
asleep-append caller [] h = refl
asleep-append caller (w ∷ ws) h = ground (arith, h, asleep-append caller ws)

wake-asleep : (ws : List Waiter) → asleep ws ≡ true → first_woken (wake_up_first ws) ≡ true
unfolding asleep first_woken wake_up_first
wake-asleep [] h = refl
wake-asleep (w ∷ ws) h = ground (arith, h)

is_woken-asleep : (caller : ℕ) (ws : List Waiter) → asleep ws ≡ true → is_woken caller ws ≡ false
unfolding asleep is_woken
is_woken-asleep caller [] h = refl
is_woken-asleep caller (w ∷ ws) h = ground (arith, h, is_woken-asleep caller ws)

-- The caller that is awake is the first, and those behind it sleep on.
woken_leaves :
    (caller : ℕ) (ws : List Waiter)
    → first_woken ws ≡ true
    → is_woken caller ws ≡ true
    → asleep (no_longer caller ws) ≡ true
unfolding first_woken is_woken no_longer
woken_leaves caller [] h e = refl
woken_leaves caller (w ∷ ws) h e =
    ground (arith, h, e, is_woken-asleep caller ws, asleep-no_longer caller ws)

-- A waiter that gives up while the lock is free leaves another awake.
wake-no_longer :
    (caller : ℕ) (ws : List Waiter)
    → first_woken ws ≡ true
    → first_woken (wake_up_first (no_longer caller ws)) ≡ true
unfolding first_woken no_longer wake_up_first
wake-no_longer caller [] h = refl
wake-no_longer caller (w ∷ ws) h = elim (Bool-cases (eqb w.caller caller)) [
  | inl e ↦ rw e (wake-asleep ws (ground (arith, h)))
  | inr e ↦ rw e (asleep-no_longer caller ws (ground (arith, h)))
]

first_woken-append :
    (caller : ℕ) (ws : List Waiter)
    → any_waits ws ≡ true
    → first_woken ws ≡ true
    → first_woken (ws ++ record { caller = caller; woken = false } ∷ []) ≡ true
unfolding any_waits first_woken
first_woken-append caller [] some_wait h = absurd (cc)
first_woken-append caller (w ∷ ws) some_wait h = ground (arith, h, asleep-append caller ws)

asleep_none : (ws : List Waiter) → any_waits ws ≡ false → asleep ws ≡ true
unfolding any_waits asleep
asleep_none [] e = refl
asleep_none (w ∷ ws) e = absurd (cc)

arrive-Exclusive : (caller : ℕ) (l : Lock) → Exclusive l → Exclusive (arrive caller l)
unfolding arrive
arrive-Exclusive caller l (held holder locked inside sleep) =
    rw locked (held holder refl inside (asleep-append caller l.waiters sleep))
arrive-Exclusive caller l (free locked inside awake) = elim (Bool-cases (any_waits l.waiters)) [
  | inl e ↦ rw (locked, e) (free refl inside (first_woken-append caller l.waiters e awake))
  | inr e ↦
      rw (locked, e) (held caller refl (ap (λ xs. caller ∷ xs) inside) (asleep_none l.waiters e))
]

get_lock-Exclusive : (caller : ℕ) (l : Lock) → Exclusive l → Exclusive (get_lock caller l)
unfolding get_lock
get_lock-Exclusive caller l (held holder locked inside sleep) =
    rw (is_woken-asleep caller l.waiters sleep) (held holder locked inside sleep)
get_lock-Exclusive caller l (free locked inside awake) =
    elim (Bool-cases (is_woken caller l.waiters)) [
      | inl e ↦
          rw e (
            held caller refl (ap (λ xs. caller ∷ xs) inside)
              (woken_leaves caller l.waiters awake e))
      | inr e ↦ rw e (free locked inside awake)
    ]

time_out-Exclusive : (caller : ℕ) (l : Lock) → Exclusive l → Exclusive (time_out caller l)
unfolding time_out
time_out-Exclusive caller l h = elim (Bool-cases (is_waiting caller l.waiters)) [
  | inl e ↦ rw e (elim h [
    | held holder locked inside sleep ↦
        held holder locked inside (rw locked (asleep-no_longer caller l.waiters sleep))
    | free locked inside awake ↦
        free locked inside (rw locked (wake-no_longer caller l.waiters awake))
  ])
  | inr e ↦ rw e h
]

leave-Exclusive : (caller : ℕ) (l : Lock) → Exclusive l → Exclusive (leave caller l)
unfolding leave is_inside gone
leave-Exclusive caller l (held holder locked inside sleep) = elim (Bool-cases (eqb holder caller)) [
  | inl e ↦
      let here : is_inside caller l.inside ≡ true =
        ap (is_inside caller) inside ∙ ground (arith, e) in
      let out : gone caller l.inside ≡ [] = ap (gone caller) inside ∙ ground (arith, e) in
      rw (here, locked) (free refl out (wake-asleep l.waiters sleep))
  | inr e ↦
      let there : is_inside caller l.inside ≡ false =
        ap (is_inside caller) inside ∙ ground (arith, e) in
      rw there (held holder locked inside sleep)
]
leave-Exclusive caller l (free locked inside awake) =
    let nobody : is_inside caller l.inside ≡ false = ap (is_inside caller) inside in
    rw nobody (free locked inside awake)

-- Every lock of the manager is exclusive.
unfoldable pub AllExclusive : DistributedLockManager → Type 0
AllExclusive m = (key : String) → Exclusive (m.locks key)

at_key-AllExclusive :
    (key : String) (f : Lock → Lock) (m : DistributedLockManager)
    → ((l : Lock) → Exclusive l → Exclusive (f l))
    → AllExclusive m
    → AllExclusive (at_key key f m)
unfolding AllExclusive at_key
at_key-AllExclusive key f m keep all other = elim (Bool-cases (other == key)) [
  | inl e ↦ rw e (keep (m.locks other) (all other))
  | inr e ↦ rw e (all other)
]

lock_step-AllExclusive :
    (h : LockStep) (m : DistributedLockManager) → AllExclusive m → AllExclusive (lock_step h m)
unfolding lock_step
lock_step-AllExclusive (arrives key caller) m all =
    at_key-AllExclusive key (arrive caller) m (arrive-Exclusive caller) all
lock_step-AllExclusive (resumes key caller) m all =
    at_key-AllExclusive key (get_lock caller) m (get_lock-Exclusive caller) all
lock_step-AllExclusive (times_out key caller) m all =
    at_key-AllExclusive key (time_out caller) m (time_out-Exclusive caller) all
lock_step-AllExclusive (leaves key caller) m all =
    at_key-AllExclusive key (leave caller) m (leave-Exclusive caller) all

lock_steps_keep :
    (hs : List LockStep) (m : DistributedLockManager)
    → AllExclusive m
    → AllExclusive (lock_steps hs m)
unfolding lock_steps
lock_steps_keep [] m all = all
lock_steps_keep (h ∷ hs) m all = lock_steps_keep hs (lock_step h m) (lock_step-AllExclusive h m all)

-- After any history of a new lock manager, in which callers arrive, are resumed, give up and leave in
-- any order: for each key, either the lock is taken, one caller is inside, and all that wait sleep;
-- or the lock is free, none is inside, and of those that wait the first, and only that, is awake.
pub lock_steps-Exclusive :
    (hs : List LockStep) (key : String) → Exclusive ((lock_steps hs new_manager).locks key)
unfolding AllExclusive new_manager new_lock first_woken
lock_steps-Exclusive hs key =
    let none_yet : AllExclusive new_manager = λ key. free refl refl refl in
    lock_steps_keep hs new_manager none_yet key
