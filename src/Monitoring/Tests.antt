-- ===== src/Monitoring/Tests.antt =====
-- taskrunner/monitoring/metrics.py: the metrics of a small cluster.
use distributed_task_runner.Base.{none}
use distributed_task_runner.Base.Int.{pos}
use distributed_task_runner.Models.{null}
use distributed_task_runner.Engine.Tests.{cluster}
use distributed_task_runner.Monitoring.{Process, aggregate}
use distributed_task_runner.Monitoring.Agreement.{Agrees, aggregate-Agrees}

abbrev process : Process
process = record {
  host = "localhost";
  pid = pos 7;
  usage = none;
  first = pos 5;
  second = pos 6;
  uptime = pos 7;
  third = pos 8;
}

aggregate-Agrees_example :
    let (s, e') = aggregate (λ f. null) (pos 1) process cluster in Agrees (λ f. null) s cluster e'
aggregate-Agrees_example = aggregate-Agrees (λ f. null) (pos 1) process cluster
