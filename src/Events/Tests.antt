-- ===== src/Events/Tests.antt =====
-- taskrunner/shared/events.py: a bus that keeps two events, and the theorems at it.
use distributed_task_runner.Base.{◌≡◌, true, [], ◌∷◌, arith, take, List, String}
use distributed_task_runner.Base.Int.{pos}
use distributed_task_runner.Models.{ClusterEvent, text, task_submitted}
use distributed_task_runner.Events.{Subscriber, new_bus, queue_size, last, subscribe}
use distributed_task_runner.Events.Delivery.{publish_all, replay-publish_all, subscribe-receives}

abbrev event : String → ClusterEvent
event name = record {
  event_type = task_submitted;
  payload = ("task_id", text name) ∷ [];
  event_id = name;
  created_at = pos 1;
}

abbrev three : List ClusterEvent
three = event "a" ∷ event "b" ∷ event "c" ∷ []

replay-publish_all_example : (publish_all three (new_bus 2)).replay ≡ event "b" ∷ event "c" ∷ []
unfolding new_bus last
replay-publish_all_example = replay-publish_all three (new_bus 2) (omega arith)

subscribe-receives_example :
    let ((history, id), bus) = subscribe true (new_bus 2) in
    (history ≡ (new_bus 2).replay)
    × ((s : Subscriber) × (rest : List Subscriber) × ((publish_all three bus).subscribers
          ≡ s ∷ rest)
        × (s.id ≡ id)
        × (s.events ≡ take queue_size three))
subscribe-receives_example = subscribe-receives three (new_bus 2)
