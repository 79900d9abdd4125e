-- ===== src/Api/Watching.antt =====
-- taskrunner/api/app.py: the web socket `/events`, which sends a client what it subscribes to of the
-- bus of taskrunner/shared/events.py. A step is what runs between two waits.
use distributed_task_runner.Base.{
  ℕ, suc, Bool, true, false, List, [], ◌∷◌, ◌++◌, eqb, if◌then◌else◌,
}
use distributed_task_runner.Models.{ClusterEvent}
use distributed_task_runner.Events.{EventBus, Subscriber, publish, subscribe, unsubscribe}

-- A handler of `/events`: `pending` is what its subscription still replays, `sent` and `keepalives`
-- are what it and its keepalive have sent, and `handling` and `keeping` whether they run.
pub record Stream : Type 0 where
  pub bus : EventBus
  pub id : ℕ
  pub pending : List ClusterEvent
  pub sent : List ClusterEvent
  pub keepalives : ℕ
  pub connected : Bool
  pub handling : Bool
  pub keeping : Bool

-- The handler once its subscription has begun.
unfoldable pub open_stream : EventBus → Stream
unfolding subscribe
open_stream bus =
    let ((replayed, id), bus') = subscribe true bus in
    record {
      bus = bus';
      id = id;
      pending = replayed;
      sent = [];
      keepalives = 0;
      connected = true;
      handling = true;
      keeping = true;
    }

-- The queue of a subscriber.
unfoldable pub queue_of : ℕ → List Subscriber → List ClusterEvent
queue_of id [] = []
queue_of id (s ∷ rest) = if eqb s.id id then s.events else queue_of id rest

-- `queue.get()` on it, once it has an event.
unfoldable pub without_first : List ClusterEvent → List ClusterEvent
without_first [] = []
without_first (event ∷ events) = events

unfoldable pub take_event : ℕ → List Subscriber → List Subscriber
unfolding without_first
take_event id [] = []
take_event id (s ∷ rest) =
    let others = take_event id rest in
    if eqb s.id id then record s { events = without_first s.events } ∷ rest else s ∷ others

-- `send_json`: to a client that has gone it raises WebSocketDisconnect, at which the handler returns,
-- and cancels its keepalive.
unfoldable pub send_event : ClusterEvent → Stream → Stream
send_event event w =
    if w.connected
    then record w { sent = w.sent ++ event ∷ [] }
    else record w { handling = false; keeping = false }

-- A round of the loop: an event of the replay, or else of the queue, which it waits for.
unfoldable pub round_of : (pending queue : List ClusterEvent) → Stream → Stream
unfolding send_event take_event
round_of (event ∷ pending) queue w = send_event event (record w { pending = pending })
round_of [] (event ∷ queue) w =
    send_event event
      (record w { bus = record w.bus { subscribers = take_event w.id w.bus.subscribers } })
round_of [] [] w = w

unfoldable pub handle : Stream → Stream
unfolding round_of queue_of
handle w = if w.handling then round_of w.pending (queue_of w.id w.bus.subscribers) w else w

-- A round of `_websocket_keepalive`, which ends by an exception where the client has gone.
unfoldable pub keep_alive : Stream → Stream
keep_alive w =
    if w.keeping
    then if w.connected
      then record w { keepalives = suc w.keepalives }
      else record w { keeping = false }
    else w

-- The subscription of a handler that has returned is closed.
unfoldable pub close_stream : Stream → Stream
unfolding unsubscribe
close_stream w = if w.handling then w else record w { bus = unsubscribe w.id w.bus }

-- A turn of the handler, of the keepalive, of the closing, or of others: a publisher, the client that
-- goes, another that subscribes, or that closes its subscription.
pub data Doing : Type 0 where
  handles keeps closes goes joins : Doing
  publishes : ClusterEvent → Doing
  parts : (other : ℕ) → Doing

unfoldable pub watch : Doing → Stream → Stream
unfolding handle keep_alive close_stream subscribe publish unsubscribe
watch handles w = handle w
watch keeps w = keep_alive w
watch closes w = close_stream w
watch goes w = record w { connected = false }
watch joins w = record w { bus = (subscribe true w.bus).1 }
watch (publishes event) w = record w { bus = publish event w.bus }
watch (parts other) w = if eqb other w.id then w else record w { bus = unsubscribe other w.bus }

unfoldable pub watch_all : List Doing → Stream → Stream
unfolding watch
watch_all [] w = w
watch_all (d ∷ ds) w = watch_all ds (watch d w)
