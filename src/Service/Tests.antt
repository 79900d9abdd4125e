-- ===== src/Service/Tests.antt =====
-- taskrunner/scheduler/service.py: a scheduler whose gRPC server crashes before a signal comes.
use distributed_task_runner.Base.{◌≡◌, refl, false, [], ◌∷◌}
use distributed_task_runner.Engine.Services.{heartbeats, leases, pressure}
use distributed_task_runner.Service.{
  start_scheduler, wait_stop, api_starts, grpc_crashes, signals, stop_scheduler,
}

left_behind :
    let (returned, s) =
      stop_scheduler (wait_stop (api_starts ∷ grpc_crashes ∷ signals ∷ []) start_scheduler) in
    (returned ≡ false) × (s.services.tasks ≡ heartbeats ∷ leases ∷ pressure ∷ [])
unfolding stop_scheduler wait_stop start_scheduler
left_behind = (refl, refl)
