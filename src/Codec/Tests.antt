-- ===== src/Codec/Tests.antt =====
-- taskrunner/grpc/codec.py: a specification of priority 0, sent and read.
use distributed_task_runner.Base.{
  ◌≡◌, ◌≢◌, eq_iff, refl, String, Option, none, some, [], ◌∷◌, arith,
}
use distributed_task_runner.Base.Int.{pos}
use distributed_task_runner.Models.{
  Value, TaskSpec, TaskEnvelope, new_envelope, TaskResult, failed, normalized, text, io,
}
use distributed_task_runner.Models.Normal.{IsNormal, normalized-IsNormal}
use distributed_task_runner.Codec.{fits}
use distributed_task_runner.Codec.Specs.{SpecMessage, spec_to_proto, spec_from_proto}
use distributed_task_runner.Codec.Records.{
  TaskMessage, task_to_proto, task_from_proto, result_to_proto, result_from_proto,
}
use distributed_task_runner.Codec.Results.{result_from_proto-result_to_proto}
use distributed_task_runner.Codec.Tasks.{Sendable, TaskArrived, task_from_proto-task_to_proto}
use distributed_task_runner.Codec.Trip.{Arrived, spec_from_proto-spec_to_proto}

-- A library that writes and reads texts only.
abbrev dumps_text : Value → String
dumps_text (text s) = s
dumps_text _ = "null"

abbrev loads_text : String → Option Value
loads_text s = some (text s)

abbrev urgent : TaskSpec
urgent = record {
  target = "sample_tasks.io_job:run";
  payload = ("url", text "localhost") ∷ [];
  kind = io;
  queue = "io";
  priority = pos 0;
  delay_seconds = pos 0;
  max_retries = pos 3;
  retry_backoff_seconds = pos 1500000;
  timeout_seconds = pos 60000000;
  affinity = "ssd" ∷ "gpu" ∷ [];
  depends_on = [];
  batch_key = none;
}

urgent-IsNormal : IsNormal urgent
unfolding normalized
urgent-IsNormal = normalized-IsNormal urgent

spec_from_proto-spec_to_proto_example :
    (message : SpecMessage) × (arrived : TaskSpec) × (spec_to_proto dumps_text urgent
      ≡ some message)
    × (spec_from_proto loads_text message ≡ some arrived)
    × Arrived urgent arrived
unfolding fits
spec_from_proto-spec_to_proto_example =
    spec_from_proto-spec_to_proto dumps_text loads_text urgent urgent-IsNormal (refl, tt) (λ e. cc)
      refl refl

abbrev done : TaskResult
done = record {
  task_id = "job";
  worker_id = "worker-1";
  status = failed;
  started_at = pos 1;
  finished_at = pos 3;
  result = text "partial";
  error = some "no such file";
}

named : dumps_text done.result ≢ ""
named e = absurd (ground (arith, eq_iff "partial" "", e))

stated : done.error ≢ some ""
stated e = absurd (ground (arith, eq_iff "no such file" "", e))

result_from_proto-result_to_proto_example :
    result_from_proto loads_text (result_to_proto dumps_text done) ≡ some done
result_from_proto-result_to_proto_example =
    result_from_proto-result_to_proto dumps_text loads_text done named refl stated

abbrev task : TaskEnvelope
unfolding new_envelope
task = record (new_envelope urgent "job" (pos 1) (pos 2)) {
  attempts = 2;
  last_error = some "no such file";
}

task-Sendable : Sendable dumps_text loads_text task
unfolding fits task
task-Sendable = record {
  normal = urgent-IsNormal;
  json = (refl, tt);
  keyed = λ e. cc;
  priority_fits = refl;
  retries_fit = refl;
  attempts_fit = refl;
  worker_named = λ e. cc;
  error_stated = λ e. absurd (ground (arith, eq_iff "no such file" "", e));
}

task_from_proto-task_to_proto_example :
    (message : TaskMessage) × (arrived : TaskEnvelope) × (task_to_proto dumps_text task
      ≡ some message)
    × (task_from_proto loads_text message ≡ some arrived)
    × TaskArrived task arrived
task_from_proto-task_to_proto_example =
    task_from_proto-task_to_proto dumps_text loads_text task task-Sendable
