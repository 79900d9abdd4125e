-- ===== src/Codec/Specs.antt =====
-- taskrunner/grpc/codec.py: `spec_to_proto` and `spec_from_proto`. Python's `json` is a parameter:
-- `dumps` with `default=str`, and `loads`, where `none` is a JSONDecodeError.
use distributed_task_runner.Base.{String, ◌&&◌, Option, none, some, List, [], ◌∷◌, if◌then◌else◌}
use distributed_task_runner.Base.Int.{ℤ, pos}
use distributed_task_runner.Base.Dict.{Dict}
use distributed_task_runner.Base.Text.{or_text}
use distributed_task_runner.Models.{Value, text, TaskKind, TaskSpec, normalized}
use distributed_task_runner.Codec.{
  fits, sorted, set_of, text_of, given, number_or, kind_text, to_kind,
}

pub record SpecMessage : Type 0 where
  pub target : String
  pub payload : Dict String
  pub kind : String
  pub queue : String
  pub priority : ℤ
  pub delay_seconds : ℤ
  pub max_retries : ℤ
  pub retry_backoff_seconds : ℤ
  pub timeout_seconds : ℤ
  pub affinity : List String
  pub depends_on : List String
  pub batch_key : String

unfoldable pub dump_all : (Value → String) → Dict Value → Dict String
dump_all dumps [] = []
dump_all dumps ((key, value) ∷ rest) = (key, dumps value) ∷ dump_all dumps rest

-- `json.loads(value)`, or the text itself where it is not JSON.
unfoldable pub load_or_text : (String → Option Value) → String → Value
load_or_text loads s = elim (loads s) [ none ↦ text s | some value ↦ value ]

unfoldable pub load_all : (String → Option Value) → Dict String → Dict Value
unfolding load_or_text
load_all loads [] = []
load_all loads ((key, s) ∷ rest) = (key, load_or_text loads s) ∷ load_all loads rest

-- `pb2.TaskSpec(…)`, whose numbers fit.
unfoldable pub spec_message : (Value → String) → TaskSpec → SpecMessage
unfolding dump_all kind_text sorted text_of
spec_message dumps spec = record {
  target = spec.target;
  payload = dump_all dumps spec.payload;
  kind = kind_text spec.kind;
  queue = spec.queue;
  priority = spec.priority;
  delay_seconds = spec.delay_seconds;
  max_retries = spec.max_retries;
  retry_backoff_seconds = spec.retry_backoff_seconds;
  timeout_seconds = spec.timeout_seconds;
  affinity = sorted spec.affinity;
  depends_on = sorted spec.depends_on;
  batch_key = text_of spec.batch_key;
}

unfoldable pub spec_to_proto : (Value → String) → TaskSpec → Option SpecMessage
unfolding fits spec_message
spec_to_proto dumps spec =
    if fits spec.priority && fits spec.max_retries then some (spec_message dumps spec) else none

-- The specification of a message whose kind is known.
unfoldable pub read_spec : (String → Option Value) → SpecMessage → TaskKind → TaskSpec
unfolding load_all or_text number_or set_of given normalized
read_spec loads message kind = normalized (record {
  target = message.target;
  payload = load_all loads message.payload;
  kind = kind;
  queue = or_text message.queue "default";
  priority = number_or message.priority (pos 100);
  delay_seconds = message.delay_seconds;
  max_retries = message.max_retries;
  retry_backoff_seconds = number_or message.retry_backoff_seconds (pos 1500000);
  timeout_seconds = number_or message.timeout_seconds (pos 60000000);
  affinity = set_of message.affinity;
  depends_on = set_of message.depends_on;
  batch_key = given message.batch_key;
})

unfoldable pub spec_from_proto : (String → Option Value) → SpecMessage → Option TaskSpec
unfolding or_text to_kind read_spec
spec_from_proto loads message = elim (to_kind (or_text message.kind "io")) [
  | none ↦ none
  | some kind ↦ some (read_spec loads message kind)
]
