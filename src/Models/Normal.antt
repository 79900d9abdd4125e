-- ===== src/Models/Normal.antt =====
-- taskrunner/shared/models.py: what `normalized` establishes.
use distributed_task_runner.Base.{◌≡◌, ◌≢◌, String, arith, eq_iff}
use distributed_task_runner.Base.Int.{pos, ◌≤ℤ◌, at_least-le, at_least_self}
use distributed_task_runner.Base.Text.{or_text}
use distributed_task_runner.Models.{TaskSpec, normalized, tenth}

-- The form in which a specification enters the queue.
pub record IsNormal (s : TaskSpec) : Type 0 where
  pub named : s.queue ≢ ""
  pub priority_nonneg : pos 0 ≤ℤ s.priority
  pub delay_nonneg : pos 0 ≤ℤ s.delay_seconds
  pub retries_nonneg : pos 0 ≤ℤ s.max_retries
  pub backoff_nonneg : pos 0 ≤ℤ s.retry_backoff_seconds
  pub timeout_least : pos tenth ≤ℤ s.timeout_seconds

or_text-default : (s : String) → or_text s "default" ≢ ""
unfolding or_text
or_text-default s = ground (arith, eq_iff s "", eq_iff "default" "")

or_text_self : (s : String) → s ≢ "" → or_text s "default" ≡ s
unfolding or_text
or_text_self s h = ground (arith, eq_iff s "")

-- Whatever its fields, a specification is in normal form after `normalized`: a named queue, no
-- negative number, and a timeout of a tenth of a second at least.
pub normalized-IsNormal : (s : TaskSpec) → IsNormal (normalized s)
normalized-IsNormal s =
    unfold normalized in
    record {
      named = or_text-default s.queue;
      priority_nonneg = at_least-le (pos 0) s.priority;
      delay_nonneg = at_least-le (pos 0) s.delay_seconds;
      retries_nonneg = at_least-le (pos 0) s.max_retries;
      backoff_nonneg = at_least-le (pos 0) s.retry_backoff_seconds;
      timeout_least = at_least-le (pos tenth) s.timeout_seconds;
    }

-- `normalized` returns a specification in normal form as it is.
pub normalized_self : (s : TaskSpec) → IsNormal s → normalized s ≡ s
unfolding normalized
normalized_self s h = cc (
  or_text_self s.queue h.named,
  at_least_self (pos 0) s.priority h.priority_nonneg,
  at_least_self (pos 0) s.delay_seconds h.delay_nonneg,
  at_least_self (pos 0) s.max_retries h.retries_nonneg,
  at_least_self (pos 0) s.retry_backoff_seconds h.backoff_nonneg,
  at_least_self (pos tenth) s.timeout_seconds h.timeout_least,
)

-- A second call of `normalized` changes nothing.
pub normalized_idem : (s : TaskSpec) → normalized (normalized s) ≡ normalized s
normalized_idem s = normalized_self (normalized s) (normalized-IsNormal s)
