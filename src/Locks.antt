-- ===== src/Locks.antt =====
-- taskrunner/shared/locks.py: `DistributedLockManager`, a lock of `asyncio` for each key. What the
-- event loop runs between two waits of a caller is one step; callers have numbers.
pub mod Exclusion
mod Tests
use distributed_task_runner.Base.{
  ℕ, Bool, true, false, not, ◌&&◌, ◌||◌, List, [], ◌∷◌, ◌++◌, String, eqb, ◌==◌, if◌then◌else◌,
}

-- A call of `acquire` that waits for its future; `woken` once the future has its result.
pub record Waiter : Type 0 where
  pub caller : ℕ
  pub woken : Bool

-- The lock of a key, and the callers that are at the `yield` of `acquire`.
pub record Lock : Type 0 where
  pub locked : Bool
  pub waiters : List Waiter
  pub inside : List ℕ

-- `self._locks`, a `defaultdict`: each key has a lock.
pub record DistributedLockManager : Type 0 where
  pub locks : String → Lock

unfoldable pub new_lock : Lock
new_lock = record { locked = false; waiters = []; inside = [] }

unfoldable pub new_manager : DistributedLockManager
unfolding new_lock
new_manager = record { locks = λ key. new_lock }

-- `asyncio.Lock` wakes its first waiter, unless that is awake already.
unfoldable pub wake_up_first : List Waiter → List Waiter
wake_up_first [] = []
wake_up_first (w ∷ ws) = record w { woken = true } ∷ ws

unfoldable pub is_waiting : ℕ → List Waiter → Bool
is_waiting caller [] = false
is_waiting caller (w ∷ ws) = eqb w.caller caller || is_waiting caller ws

unfoldable pub is_woken : ℕ → List Waiter → Bool
is_woken caller [] = false
is_woken caller (w ∷ ws) = (eqb w.caller caller && w.woken) || is_woken caller ws

unfoldable pub no_longer : ℕ → List Waiter → List Waiter
no_longer caller [] = []
no_longer caller (w ∷ ws) =
    let rest = no_longer caller ws in if eqb w.caller caller then ws else w ∷ rest

unfoldable pub is_inside : ℕ → List ℕ → Bool
is_inside caller [] = false
is_inside caller (x ∷ xs) = eqb x caller || is_inside caller xs

unfoldable pub gone : ℕ → List ℕ → List ℕ
gone caller [] = []
gone caller (x ∷ xs) = let rest = gone caller xs in if eqb x caller then xs else x ∷ rest

unfoldable pub any_waits : List Waiter → Bool
any_waits [] = false
any_waits (w ∷ ws) = true

-- `async with locks.acquire(key)`, up to the body, or up to the wait for the lock.
unfoldable pub arrive : ℕ → Lock → Lock
unfolding any_waits
arrive caller l =
    if l.locked || any_waits l.waiters
    then record l { waiters = l.waiters ++ record { caller = caller; woken = false } ∷ [] }
    else record l { locked = true; inside = caller ∷ l.inside }

-- The future of a call has its result: the call has the lock, and its body runs.
unfoldable pub get_lock : ℕ → Lock → Lock
unfolding is_woken no_longer
get_lock caller l =
    if is_woken caller l.waiters
    then record { locked = true; waiters = no_longer caller l.waiters; inside = caller ∷ l.inside }
    else l

-- `wait_for` gives up, and the call raises a `TimeoutError`: the wait is cancelled.
unfoldable pub time_out : ℕ → Lock → Lock
unfolding is_waiting no_longer wake_up_first
time_out caller l =
    let left : List Waiter = no_longer caller l.waiters in
    if is_waiting caller l.waiters
    then record l { waiters = if l.locked then left else wake_up_first left }
    else l

-- The body ends, by an exception or not. `release` raises a `RuntimeError` if the lock is free.
unfoldable pub leave : ℕ → Lock → Lock
unfolding is_inside gone wake_up_first
leave caller l =
    let out : Lock = record l { inside = gone caller l.inside } in
    let freed : Lock = record out { locked = false; waiters = wake_up_first l.waiters } in
    if is_inside caller l.inside then (if l.locked then freed else out) else l

pub data LockStep : Type 0 where
  arrives resumes times_out leaves : (key : String) → (caller : ℕ) → LockStep

-- What happens to the lock of a key.
unfoldable pub at_key : String → (Lock → Lock) → DistributedLockManager → DistributedLockManager
at_key key f m = record {
  locks = λ other. if other == key then f (m.locks other) else m.locks other;
}

unfoldable pub lock_step : LockStep → DistributedLockManager → DistributedLockManager
unfolding at_key arrive get_lock time_out leave
lock_step (arrives key caller) m = at_key key (arrive caller) m
lock_step (resumes key caller) m = at_key key (get_lock caller) m
lock_step (times_out key caller) m = at_key key (time_out caller) m
lock_step (leaves key caller) m = at_key key (leave caller) m

unfoldable pub lock_steps : List LockStep → DistributedLockManager → DistributedLockManager
unfolding lock_step
lock_steps [] m = m
lock_steps (h ∷ hs) m = lock_steps hs (lock_step h m)
