-- ===== src/Codec/Trip.antt =====
-- taskrunner/grpc/codec.py: what arrives of a specification that is sent.
use distributed_task_runner.Base.{
  ◌≡◌, ◌≢◌, refl, sym, ap, ◌∙◌, inl, inr, ◌⊎◌, ℕ, String, Bool, true, false, ◌||◌, Option, none,
  some, List, [], ◌∷◌, Bool-cases, arith, eq_iff, ◌==◌, All,
}
use distributed_task_runner.Base.Int.{ℤ, pos, negsuc, pos_part, neg_part, ◌≤ℤ◌}
use distributed_task_runner.Base.Dict.{Dict}
use distributed_task_runner.Base.Text.{elem, elem-add, or_text, str_leb}
use distributed_task_runner.Models.{Value, TaskKind, cpu, io, async, scheduled, TaskSpec, tenth}
use distributed_task_runner.Models.Normal.{IsNormal, normalized_self}
use distributed_task_runner.Codec.{
  fits, place, sorted, set_of, text_of, given, number_or, kind_text, to_kind,
}
use distributed_task_runner.Codec.Specs.{
  SpecMessage, dump_all, load_or_text, load_all, spec_message, spec_to_proto, read_spec,
  spec_from_proto,
}

elem-place : (x y : String) (ys : List String) → elem x (place y ys) ≡ (y == x || elem x ys)
unfolding elem place
elem-place x y [] = refl
elem-place x y (z ∷ zs) = elim (Bool-cases (str_leb y z)) [
  | inl t ↦ rw t
  | inr f ↦ rw (f, elem-place x y zs) (swap (z == x) (y == x) (elem x zs))
]
  where
    swap : (a b c : Bool) → (a || (b || c)) ≡ (b || (a || c))
    swap true true c = refl
    swap true false c = refl
    swap false true c = refl
    swap false false c = refl

elem-sorted : (x : String) (xs : List String) → elem x (sorted xs) ≡ elem x xs
unfolding elem sorted
elem-sorted x [] = refl
elem-sorted x (y ∷ ys) = rw (elem-place x y (sorted ys), elem-sorted x ys)

elem-set_of : (x : String) (xs : List String) → elem x (set_of xs) ≡ elem x xs
unfolding elem set_of
elem-set_of x [] = refl
elem-set_of x (y ∷ ys) = rw (elem-add y x (set_of ys), elem-set_of x ys)

read_kind : (kind : TaskKind) → to_kind (or_text (kind_text kind) "io") ≡ some kind
unfolding to_kind kind_text or_text
read_kind cpu = refl
read_kind io = refl
read_kind async = refl
read_kind scheduled = refl

pub given-text_of : (o : Option String) → o ≢ some "" → given (text_of o) ≡ o
unfolding given text_of
given-text_of none h = refl
given-text_of (some s) h = ground (arith, eq_iff s "")

-- `json.loads` reads what `json.dumps` has written of the values of a payload.
abbrev pub Reads : (Value → String) → (String → Option Value) → Dict Value → Type 0
Reads dumps loads = All (λ entry. loads (dumps entry.1) ≡ some entry.1)

pub load_or_text-dumps :
    (loads : String → Option Value) (s : String) (value : Value)
    → loads s ≡ some value
    → load_or_text loads s ≡ value
unfolding load_or_text
load_or_text-dumps loads s value h = rw (h, load_or_text) refl

load_all-dump_all :
    (dumps : Value → String) (loads : String → Option Value) (payload : Dict Value)
    → Reads dumps loads payload
    → load_all loads (dump_all dumps payload) ≡ payload
unfolding load_all dump_all
load_all-dump_all dumps loads [] h = refl
load_all-dump_all dumps loads ((key, value) ∷ rest) h =
    rw (load_or_text-dumps loads (dumps value) value h.0, load_all-dump_all dumps loads rest h.1)
      refl

-- A number that is sent arrives as it is, except that 0 arrives as another.
abbrev pub ZeroAs : (default sent arrived : ℤ) → Type 0
ZeroAs default sent arrived =
    ((sent ≡ pos 0) × (arrived ≡ default)) ⊎ ((sent ≢ pos 0) × (arrived ≡ sent))

number_or-ZeroAs : (n default : ℤ) → ZeroAs default n (number_or n default)
unfolding number_or
number_or-ZeroAs (pos ℕ.zero) default = inl (refl, refl)
number_or-ZeroAs (pos (ℕ.suc n)) default =
    inr (λ e. absurd (omega (arith, ap pos_part e)), ground arith)
number_or-ZeroAs (negsuc n) default = inr (λ e. absurd (omega (arith, ap neg_part e)), ground arith)

-- What a specification may differ in when it arrives: the order of its sets, and two numbers whose
-- 0 is taken to be missing.
pub record Arrived (sent spec : TaskSpec) : Type 0 where
  pub target : spec.target ≡ sent.target
  pub payload : spec.payload ≡ sent.payload
  pub kind : spec.kind ≡ sent.kind
  pub queue : spec.queue ≡ sent.queue
  pub priority : ZeroAs (pos 100) sent.priority spec.priority
  pub delay : spec.delay_seconds ≡ sent.delay_seconds
  pub retries : spec.max_retries ≡ sent.max_retries
  pub backoff : ZeroAs (pos 1500000) sent.retry_backoff_seconds spec.retry_backoff_seconds
  pub timeout : spec.timeout_seconds ≡ sent.timeout_seconds
  pub affinity : (x : String) → elem x spec.affinity ≡ elem x sent.affinity
  pub depends_on : (x : String) → elem x spec.depends_on ≡ elem x sent.depends_on
  pub batch_key : spec.batch_key ≡ sent.batch_key

number_or_nonneg : (n default : ℤ) → pos 0 ≤ℤ n → pos 0 ≤ℤ default → pos 0 ≤ℤ number_or n default
unfolding number_or
number_or_nonneg n default h k = ground arith

or_text_named : (s : String) → s ≢ "" → or_text s "default" ≡ s
unfolding or_text
or_text_named s h = ground (arith, eq_iff s "")

number_or_least : (n : ℤ) → pos tenth ≤ℤ n → number_or n (pos 60000000) ≡ n
unfolding number_or
number_or_least n h = ground arith

module _ (dumps : Value → String) (loads : String → Option Value) (spec : TaskSpec) where
  -- What is read before `normalized`.
  abbrev raw : TaskSpec
  raw = record {
    target = spec.target;
    payload = load_all loads (dump_all dumps spec.payload);
    kind = spec.kind;
    queue = or_text spec.queue "default";
    priority = number_or spec.priority (pos 100);
    delay_seconds = spec.delay_seconds;
    max_retries = spec.max_retries;
    retry_backoff_seconds = number_or spec.retry_backoff_seconds (pos 1500000);
    timeout_seconds = number_or spec.timeout_seconds (pos 60000000);
    affinity = set_of (sorted spec.affinity);
    depends_on = set_of (sorted spec.depends_on);
    batch_key = given (text_of spec.batch_key);
  }

  raw-IsNormal : IsNormal spec → IsNormal raw
  raw-IsNormal h = record {
    named = λ e. h.named (sym (or_text_named spec.queue h.named) ∙ e);
    priority_nonneg = number_or_nonneg spec.priority (pos 100) h.priority_nonneg (omega arith);
    delay_nonneg = h.delay_nonneg;
    retries_nonneg = h.retries_nonneg;
    backoff_nonneg =
        number_or_nonneg spec.retry_backoff_seconds (pos 1500000) h.backoff_nonneg (omega arith);
    timeout_least = rw (number_or_least spec.timeout_seconds h.timeout_least) h.timeout_least;
  }

  arrives : IsNormal spec → spec_from_proto loads (spec_message dumps spec) ≡ some raw
  unfolding spec_from_proto spec_message read_spec
  arrives h =
      rw (read_kind spec.kind, spec_from_proto) (ap some (normalized_self raw (raw-IsNormal h)))

  raw-Arrived :
      IsNormal spec → Reads dumps loads spec.payload → spec.batch_key ≢ some "" → Arrived spec raw
  raw-Arrived h json keyed = record {
    target = refl;
    payload = load_all-dump_all dumps loads spec.payload json;
    kind = refl;
    queue = or_text_named spec.queue h.named;
    priority = number_or-ZeroAs spec.priority (pos 100);
    delay = refl;
    retries = refl;
    backoff = number_or-ZeroAs spec.retry_backoff_seconds (pos 1500000);
    timeout = number_or_least spec.timeout_seconds h.timeout_least;
    affinity = λ x. elem-set_of x (sorted spec.affinity) ∙ elem-sorted x spec.affinity;
    depends_on = λ x. elem-set_of x (sorted spec.depends_on) ∙ elem-sorted x spec.depends_on;
    batch_key = given-text_of spec.batch_key keyed;
  }

  -- A specification in normal form whose priority and retries are values of int32, whose payload
  -- `json` reads back, and whose batch key is not the empty text can be sent, and what is read is
  -- that specification up to the order of its sets, except that a priority of 0 arrives as 100 and
  -- a backoff of 0 as 1.5 seconds.
  pub spec_from_proto-spec_to_proto :
      IsNormal spec
      → Reads dumps loads spec.payload
      → spec.batch_key ≢ some ""
      → fits spec.priority ≡ true
      → fits spec.max_retries ≡ true
      → (message : SpecMessage) × (arrived : TaskSpec) × (spec_to_proto dumps spec ≡ some message)
        × (spec_from_proto loads message ≡ some arrived)
        × Arrived spec arrived
  spec_from_proto-spec_to_proto h json keyed p q = (
    spec_message dumps spec,
    raw,
    unfold spec_to_proto in rw (p, q) refl,
    arrives h,
    raw-Arrived h json keyed,
  )
