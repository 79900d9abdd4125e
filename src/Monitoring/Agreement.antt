-- ===== src/Monitoring/Agreement.antt =====
-- taskrunner/monitoring/metrics.py: how the parts of a snapshot agree, which are read one by one.
use distributed_task_runner.Base.{◌≡◌, refl, ◌∙◌, map, length, arith, ap, List}
use distributed_task_runner.Base.Int.{ℤ, ◌≤ℤ◌}
use distributed_task_runner.Base.Dict.{Dict, values}
use distributed_task_runner.Models.{Value, Fraction}
use distributed_task_runner.Dicts.{worker_dict}
use distributed_task_runner.Store.Queries.{task_counts}
use distributed_task_runner.Broker.State.{Broker}
use distributed_task_runner.Broker.Entries.{ReadyEntry, DelayedEntry}
use distributed_task_runner.Broker.Reserve.{promote}
use distributed_task_runner.Broker.Views
use distributed_task_runner.Broker.Views.{counts}
use distributed_task_runner.Broker.Snapshots.{counts-Shrunk, promote_form}
use distributed_task_runner.Engine.State.{Engine}
use distributed_task_runner.Engine.Workers.{autoscaling_recommendation}
use distributed_task_runner.Engine.Reports.{queue_snapshot}
use distributed_task_runner.Engine.Metrics.{metrics}
use distributed_task_runner.Monitoring.{Process, Snapshot, aggregate}

-- A snapshot of the engine, and the engine after it.
pub record Agrees (shown : Fraction → Value) (s : Snapshot) (e e' : Engine) : Type 0 where
  pub tasks : s.engine.tasks ≡ task_counts e.store
  pub workers :
      s.engine.workers ≡ map (λ w. worker_dict shown (e.worker_objects w)) (values e.workers)
  pub results : s.engine.results ≡ length e.results
  pub less_pressure : s.autoscaling.pressure.num ≤ℤ s.engine.queue.pressure.num
  pub same_depth : s.autoscaling.pressure.den ≡ s.engine.queue.pressure.den
  pub only_filing :
      (ready : Dict (List ReadyEntry)) × (delayed : List DelayedEntry) × (e'
        ≡ record e { queue = record e.queue { ready = ready; delayed = delayed } })

-- A snapshot of the metrics shows the rows, the workers and the results that the engine has, and
-- leaves the whole engine as it is, but for the entries of the queue's ready and delayed heaps. The
-- queue is read three times meanwhile:
-- the pressure behind the advice on scaling is at most the one that is shown, of the same depth.
pub aggregate-Agrees :
    (shown : Fraction → Value) (started_at : ℤ) (process : Process) (e : Engine)
    → let (s, e') = aggregate shown started_at process e in Agrees shown s e e'
unfolding aggregate metrics queue_snapshot autoscaling_recommendation Views.snapshot
aggregate-Agrees shown started_at process e =
    let b1 : Broker = promote process.first e.queue in
    let b2 : Broker = promote process.second b1 in
    let second = counts-Shrunk process.second b1 in
    let third = counts-Shrunk process.third b2 in
    record {
      tasks = refl;
      workers = refl;
      results = refl;
      less_pressure = omega (arith, second.pressure_less, third.pressure_less);
      same_depth = third.same_depth ∙ second.same_depth;
      only_filing =
          let (ready1, delayed1, form1) = promote_form process.first e.queue in
          let (ready2, delayed2, form2) = promote_form process.second b1 in
          let (ready, delayed, form3) = promote_form process.third b2 in
          let refile = λ (b : Broker). record b { ready = ready; delayed = delayed } in
          (
            ready,
            delayed,
            ap (λ (b : Broker). record e { queue = b })
                (form3 ∙ (ap refile form2 ∙ ap refile form1)),
          );
    }
