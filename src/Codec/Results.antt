-- ===== src/Codec/Results.antt =====
-- taskrunner/grpc/codec.py: what arrives of a result that is sent.
use distributed_task_runner.Base.{
  ◌≡◌, ◌≢◌, refl, String, Option, some, eq_iff, ◌==◌, Bool-cases, inl, inr,
}
use distributed_task_runner.Base.Text.{or_text}
use distributed_task_runner.Models.{
  Value, TaskStatus, pending, queued, running, acked, succeeded, failed, retrying, cancelled,
  dead_lettered, TaskResult, status_text,
}
use distributed_task_runner.Codec.{to_status}
use distributed_task_runner.Codec.Records.{read_json, result_to_proto, result_from_proto}
use distributed_task_runner.Codec.Trip.{load_or_text-dumps, given-text_of}

read_status :
    (status : TaskStatus) → to_status (or_text (status_text status) "failed") ≡ some status
unfolding to_status status_text or_text
read_status pending = refl
read_status queued = refl
read_status running = refl
read_status acked = refl
read_status succeeded = refl
read_status failed = refl
read_status retrying = refl
read_status cancelled = refl
read_status dead_lettered = refl

read_json-dumps :
    (loads : String → Option Value) (s : String) (value : Value)
    → s ≢ ""
    → loads s ≡ some value
    → read_json loads s ≡ value
unfolding read_json
read_json-dumps loads s value named h = elim (Bool-cases (s == "")) [
  | inl t ↦ absurd (named ((eq_iff s "").0 t))
  | inr f ↦ rw f (load_or_text-dumps loads s value h)
]

-- A result that `json` writes as a text that is not empty and reads back, and whose error is not the
-- empty text, arrives as it was sent.
pub result_from_proto-result_to_proto :
    (dumps : Value → String) (loads : String → Option Value) (result : TaskResult)
    → dumps result.result ≢ ""
    → loads (dumps result.result) ≡ some result.result
    → result.error ≢ some ""
    → result_from_proto loads (result_to_proto dumps result) ≡ some result
unfolding result_to_proto result_from_proto
result_from_proto-result_to_proto dumps loads result named json stated =
    rw
      (
        read_status result.status,
        result_from_proto,
        read_json-dumps loads (dumps result.result) result.result named json,
        given-text_of result.error stated,
      )
      refl
