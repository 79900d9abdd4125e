-- ===== src/Api/Tests.antt =====
-- taskrunner/api/app.py: a request to cancel a task, on an engine with one task, and a web socket.
use distributed_task_runner.Base.{
  refl, false, String, List, [], ◌∷◌, ◌++◌, ◌<◌, length, ◌≡◌, ◌⊎◌, none, some,
}
use distributed_task_runner.Base.Int.{pos}
use distributed_task_runner.Base.Dict.{lookup}
use distributed_task_runner.Models.{cancelled}
use distributed_task_runner.Dicts.{task_dict}
use distributed_task_runner.Broker.State.{Ref}
use distributed_task_runner.Engine.State.{Engine}
use distributed_task_runner.Engine.Tests.{cluster, stamp}
use distributed_task_runner.Models.{ClusterEvent, text, task_submitted}
use distributed_task_runner.Events.{last, EventBus, new_bus, queue_size}
use distributed_task_runner.Events.Delivery.{publish_all}
use distributed_task_runner.Api.Watching.{
  open_stream, Doing, handles, keeps, closes, goes, joins, publishes, parts, watch_all,
}
use distributed_task_runner.Api.Queues.{Within}
use distributed_task_runner.Api.Turns.{ahead}
use distributed_task_runner.Api.Streams.{published_in, watch_all-delivers}
use distributed_task_runner.Api.{answer, http_error, cancel_handler}
use distributed_task_runner.Api.Cancelling.{cancel_handler-answers}

cancel_handler-answers_example :
    let e : Engine = cluster in
    let (response, e') = cancel_handler "job" (pos 5) stamp e in
    ((lookup "job" e.queue.tasks ≡ none) × (response ≡ http_error 404 "task not found") × (e' ≡ e))
    ⊎ ((r : Ref) × (lookup "job" e.queue.tasks ≡ some r)
        × (response ≡ answer 200 (task_dict (e'.queue.objects r)))
        × ((e'.queue.objects r).status ≡ cancelled))
cancel_handler-answers_example = cancel_handler-answers "job" (pos 5) stamp cluster

abbrev event : String → ClusterEvent
event name = record {
  event_type = task_submitted;
  payload = ("task_id", text name) ∷ [];
  event_id = name;
  created_at = pos 1;
}

abbrev bus : EventBus
bus = publish_all (event "a" ∷ event "b" ∷ []) (new_bus 1)

-- A client gets "b" and "c", and goes before "d".
abbrev turns : List Doing
turns =
    publishes (event "c")
    ∷ handles
    ∷ joins
    ∷ keeps
    ∷ handles
    ∷ parts 1
    ∷ goes
    ∷ publishes (event "d")
    ∷ handles
    ∷ closes
    ∷ []

received : (watch_all turns (open_stream bus)).sent ≡ event "b" ∷ event "c" ∷ []
unfolding watch_all open_stream publish_all new_bus last
received = refl

watch_all-delivers_example :
    let w = watch_all turns (open_stream bus) in
    let all = bus.replay ++ published_in turns in
    Within w.sent all
    × ((w.handling ≡ false)
        ⊎ ((queue_size < length (published_in turns)) ⊎ (w.sent ++ ahead w ≡ all)))
watch_all-delivers_example = watch_all-delivers turns bus
