-- ===== src/Service.antt =====
-- taskrunner/scheduler/service.py: `run_scheduler`, from its start to its end. The servers are
-- libraries: what becomes of their tasks is told by what happens.
mod Tests
use distributed_task_runner.Base.{
  ◌≡◌, refl, sym, Bool, true, false, ◌⊎◌, inl, inr, List, [], ◌∷◌, Bool-cases, if◌then◌else◌,
}
use distributed_task_runner.Engine.Services.{
  Services, no_services, Loop, start_background_services, stop_background_services, loop_ended,
}

-- A task of `asyncio` that runs a server.
pub data Serving : Type 0 where
  serving stopped crashed : Serving

pub record Scheduler : Type 0 where
  pub services : Services
  pub stop : Bool
  pub grpc_task : Serving
  pub api_task : Serving

-- Up to `await stop.wait()`.
unfoldable pub start_scheduler : Scheduler
unfolding start_background_services no_services
start_scheduler = record {
  services = start_background_services no_services;
  stop = false;
  grpc_task = serving;
  api_task = serving;
}

-- While it waits: a signal comes, the HTTP server starts, whose `lifespan` starts the services, a
-- server ends by an exception, the HTTP server before or after the end of its `lifespan`, or a loop
-- of the engine does.
pub data Meanwhile : Type 0 where
  signals api_starts grpc_crashes : Meanwhile
  api_crashes : (lifespan_ended : Bool) → Meanwhile
  loop_crashes : Loop → Meanwhile

unfoldable pub meanwhile : Meanwhile → Scheduler → Scheduler
unfolding start_background_services stop_background_services loop_ended
meanwhile signals s = record s { stop = true }
meanwhile api_starts s = record s { services = start_background_services s.services }
meanwhile grpc_crashes s = record s { grpc_task = crashed }
meanwhile (api_crashes lifespan_ended) s = record s {
  api_task = crashed;
  services = if lifespan_ended then stop_background_services s.services else s.services;
}
meanwhile (loop_crashes loop) s = record s { services = loop_ended loop s.services }

unfoldable pub wait_stop : List Meanwhile → Scheduler → Scheduler
unfolding meanwhile
wait_stop [] s = s
wait_stop (m ∷ ms) s = wait_stop ms (meanwhile m s)

-- A task that is cancelled, or told to exit, ends; one that has crashed stays so.
unfoldable pub ends_as : Serving → Serving
ends_as serving = stopped
ends_as stopped = stopped
ends_as crashed = crashed

unfoldable pub is_crashed : Serving → Bool
is_crashed serving = false
is_crashed stopped = false
is_crashed crashed = true

-- `await api_task`, behind which the `lifespan` has stopped the services, and the engine's own stop.
unfoldable pub await_api : Scheduler → Bool × Scheduler
unfolding ends_as is_crashed stop_background_services
await_api s =
    let ended : Scheduler = record s { api_task = ends_as s.api_task } in
    let at_rest : Scheduler = record ended { services = stop_background_services s.services } in
    if is_crashed s.api_task then (false, ended) else (true, at_rest)

-- Behind the wait: whether the coroutine returns, and the state in which it ends. An exception of an
-- awaited task leaves it at once.
unfoldable pub stop_scheduler : Scheduler → Bool × Scheduler
unfolding ends_as is_crashed await_api
stop_scheduler s =
    let told : Scheduler = record s { grpc_task = ends_as s.grpc_task } in
    if is_crashed s.grpc_task then (false, told) else await_api told

-- If neither server has crashed, the scheduler returns, and no loop of the engine is left. If one
-- has, it raises that exception, and the loops that still ran are not stopped by it.
pub data Stopping (s : Scheduler) (result : Bool × Scheduler) : Type 0 where
  at_rest :
      result.0 ≡ true
      → is_crashed s.grpc_task ≡ false
      → is_crashed s.api_task ≡ false
      → result.1.services ≡ no_services
      → Stopping s result
  raises :
      result.0 ≡ false
      → (is_crashed s.grpc_task ≡ true) ⊎ (is_crashed s.api_task ≡ true)
      → result.1.services ≡ s.services
      → Stopping s result

pub stop_scheduler-Stopping : (s : Scheduler) → Stopping s (stop_scheduler s)
unfolding stop_scheduler await_api stop_background_services no_services
stop_scheduler-Stopping s = elim (Bool-cases (is_crashed s.grpc_task)) [
  | inl e ↦ rw e (raises refl (inl e) refl)
  | inr e ↦ elim (Bool-cases (is_crashed s.api_task)) [
    | inl f ↦ rw (e, f) (raises refl (inr f) refl)
    | inr f ↦ rw (e, f) (at_rest refl e f refl)
  ]
]
