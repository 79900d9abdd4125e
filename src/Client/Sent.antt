-- ===== src/Client/Sent.antt =====
-- taskrunner/grpc/codec.py and scheduler/engine.py: a task that enters the queue of a specification
-- that has arrived in a message can be sent back.
use distributed_task_runner.Base.{
  ◌≡◌, ◌≢◌, refl, sym, ap, inl, inr, subst, ◌∙◌, true, arith, Option, some, String,
}
use distributed_task_runner.Base.Int.{ℤ, pos, at_least}
use distributed_task_runner.Models.{Value, TaskSpec, TaskEnvelope, normalized, new_envelope}
use distributed_task_runner.Models.Normal.{IsNormal, normalized-IsNormal}
use distributed_task_runner.Broker.Taken.{Taken}
use distributed_task_runner.Codec.{fits}
use distributed_task_runner.Codec.Trip.{Reads, Arrived, ZeroAs}
use distributed_task_runner.Codec.Tasks.{Sendable}
use distributed_task_runner.Broker.Submit.{accepted}
use distributed_task_runner.Engine.Tasks.{Making}
use distributed_task_runner.Engine.Submitting.{entered}

fits-at_least : (n : ℤ) → fits n ≡ true → fits (at_least (pos 0) n) ≡ true
unfolding fits at_least
fits-at_least n h = ground arith

fits-ZeroAs :
    (default sent arrived : ℤ)
    → fits sent ≡ true
    → fits default ≡ true
    → ZeroAs default sent arrived
    → fits arrived ≡ true
fits-ZeroAs default sent arrived h k (inl (zero, e)) = ap fits e ∙ k
fits-ZeroAs default sent arrived h k (inr (other, e)) = ap fits e ∙ h

pub entered-Sendable :
    (dumps : Value → String) (loads : String → Option Value) (spec arrived : TaskSpec) (m : Making)
    → Reads dumps loads spec.payload
    → spec.batch_key ≢ some ""
    → fits spec.priority ≡ true
    → fits spec.max_retries ≡ true
    → Arrived spec arrived
    → Sendable dumps loads (entered arrived m)
unfolding accepted new_envelope normalized
entered-Sendable dumps loads spec arrived m json keyed p q a = record {
  normal = normalized-IsNormal (normalized arrived);
  json = subst (Reads dumps loads) (sym a.payload) json;
  keyed = λ e. keyed (sym a.batch_key ∙ e);
  priority_fits = fits-at_least (at_least (pos 0) arrived.priority) (
      fits-at_least arrived.priority
        (fits-ZeroAs (pos 100) spec.priority arrived.priority p (unfold fits in refl) a.priority));
  retries_fit =
      fits-at_least (at_least (pos 0) arrived.max_retries)
        (fits-at_least arrived.max_retries (rw a.retries q));
  attempts_fit = unfold fits in refl;
  worker_named = λ e. cc;
  error_stated = λ e. cc;
}

-- A task that a worker with a name has taken can be sent, if it could before.
pub Taken-Sendable :
    (dumps : Value → String) (loads : String → Option Value) (before after : TaskEnvelope)
    → Taken before after
    → Sendable dumps loads before
    → Sendable dumps loads after
Taken-Sendable dumps loads before after t s = record {
  normal = subst IsNormal (sym t.same_spec) s.normal;
  json = subst (λ (x : TaskSpec). Reads dumps loads x.payload) (sym t.same_spec) s.json;
  keyed = subst (λ (x : TaskSpec). x.batch_key ≢ some "") (sym t.same_spec) s.keyed;
  priority_fits =
      subst (λ (x : TaskSpec). fits x.priority ≡ true) (sym t.same_spec) s.priority_fits;
  retries_fit = subst (λ (x : TaskSpec). fits x.max_retries ≡ true) (sym t.same_spec) s.retries_fit;
  attempts_fit = ap (λ n. fits (pos n)) t.attempts ∙ s.attempts_fit;
  worker_named = λ e. elim t.assigned [
    | inl same ↦ s.worker_named (sym same ∙ e)
    | inr (w, named, is) ↦ named (some_path (sym is ∙ e))
  ];
  error_stated = λ e. s.error_stated (sym t.last_error ∙ e);
}
  where
    some_path : {x y : String} → some x ≡ some y → x ≡ y
    some_path e = cc
