-- ===== src/Monitoring.antt =====
-- taskrunner/monitoring/metrics.py: `MetricsAggregator.snapshot`. What the operating system tells of
-- the process is an argument; `none` is a host without the `resource` module.
pub mod Agreement
mod Tests
use distributed_task_runner.Base.{String, Option, ℕ}
use distributed_task_runner.Base.Int.{ℤ, ◌-ℤ◌}
use distributed_task_runner.Models.{Value, QueueSnapshot, Fraction}
use distributed_task_runner.Engine.State.{Engine}
use distributed_task_runner.Engine.Workers.{Recommendation, autoscaling_recommendation}
use distributed_task_runner.Engine.Reports.{queue_snapshot}
use distributed_task_runner.Engine.Metrics.{Metrics, metrics}

pub record Usage : Type 0 where
  pub max_rss_kb : ℤ
  pub user_cpu_seconds : ℤ
  pub system_cpu_seconds : ℤ

-- The process, and the readings of the clock, in their order.
pub record Process : Type 0 where
  pub host : String
  pub pid : ℤ
  pub usage : Option Usage
  pub first : ℤ
  pub second : ℤ
  pub uptime : ℤ
  pub third : ℤ

-- The dictionary that is returned: that of the engine, whose queue is replaced, and what is added.
pub record Snapshot : Type 0 where
  pub engine : Metrics
  pub uptime_seconds : ℤ
  pub pid : ℤ
  pub usage : Option Usage
  pub autoscaling : Recommendation

unfoldable pub aggregate :
    (Fraction → Value) → (started_at : ℤ) → Process → Engine → Snapshot × Engine
unfolding queue_snapshot metrics autoscaling_recommendation ◌-ℤ◌
aggregate shown started_at process e =
    let (queue, e1) = queue_snapshot process.first e in
    let (engine, e2) = metrics shown process.host process.pid process.second e1 in
    let (autoscaling, e3) = autoscaling_recommendation process.third e2 in
    (
      record {
        engine = record engine { queue = queue };
        uptime_seconds = process.uptime -ℤ started_at;
        pid = process.pid;
        usage = process.usage;
        autoscaling = autoscaling;
      },
      e3,
    )
