-- ===== src/Events.antt =====
-- taskrunner/shared/events.py: `EventBus`. A subscriber is the queue that its call of `subscribe`
-- made, under a number; the lock makes each method one step, since none waits while it holds it.
pub mod Delivery
mod Tests
use distributed_task_runner.Base.{
  ℕ, suc, ◌+◌, ◌-◌, Bool, List, [], ◌∷◌, ◌++◌, ltb, leb, eqb, if◌then◌else◌, length,
}
use distributed_task_runner.Models.{ClusterEvent}

-- `asyncio.Queue(maxsize=1_000)`
abbrev pub queue_size : ℕ
queue_size = 1000

pub record Subscriber : Type 0 where
  pub id : ℕ
  pub events : List ClusterEvent

-- `replay` is oldest first; `next_id` numbers the calls of `subscribe`.
pub record EventBus : Type 0 where
  pub replay_size : ℕ
  pub subscribers : List Subscriber
  pub replay : List ClusterEvent
  pub next_id : ℕ

unfoldable pub new_bus : ℕ → EventBus
new_bus replay_size = record {
  replay_size = replay_size;
  subscribers = [];
  replay = [];
  next_id = 0;
}

unfoldable pub drop : ℕ → List ClusterEvent → List ClusterEvent
drop n [] = []
drop n (x ∷ xs) = elim n [ ℕ.zero ↦ x ∷ xs | ℕ.suc m ↦ drop m xs ]

-- A deque that is longer than its limit loses its oldest entries.
unfoldable pub last : (maxlen : ℕ) → List ClusterEvent → List ClusterEvent
unfolding drop
last maxlen events = drop (length events - maxlen) events

unfoldable pub append : (maxlen : ℕ) → List ClusterEvent → ClusterEvent → List ClusterEvent
append maxlen events event = last maxlen (events ++ event ∷ [])

-- `put_nowait`, with `QueueFull` suppressed.
unfoldable pub put_nowait : ClusterEvent → Subscriber → Subscriber
put_nowait event s =
    if leb queue_size (length s.events) then s else record s { events = s.events ++ event ∷ [] }

unfoldable pub put_all : ClusterEvent → List Subscriber → List Subscriber
unfolding put_nowait
put_all event [] = []
put_all event (s ∷ rest) = put_nowait event s ∷ put_all event rest

unfoldable pub publish : ClusterEvent → EventBus → EventBus
unfolding append put_all
publish event bus = record bus {
  replay = append bus.replay_size bus.replay event;
  subscribers = put_all event bus.subscribers;
}

-- The first part of `subscribe`: the events to replay, and the number of the new subscriber.
unfoldable pub subscribe : (replay : Bool) → EventBus → (List ClusterEvent × ℕ) × EventBus
subscribe replay bus = (
  (if replay then bus.replay else [], bus.next_id),
  record bus {
    subscribers = record { id = bus.next_id; events = [] } ∷ bus.subscribers;
    next_id = suc bus.next_id;
  },
)

unfoldable pub without : ℕ → List Subscriber → List Subscriber
without id [] = []
without id (s ∷ rest) = if eqb s.id id then without id rest else s ∷ without id rest

-- The `finally` part: the subscriber is discarded.
unfoldable pub unsubscribe : ℕ → EventBus → EventBus
unfolding without
unsubscribe id bus = record bus { subscribers = without id bus.subscribers }
