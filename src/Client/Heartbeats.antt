-- ===== src/Client/Heartbeats.antt =====
-- taskrunner/grpc/client.py and server.py: a heartbeat of a client that the servicer answers.
use distributed_task_runner.Base.{
  String, ◌≡◌, refl, inl, inr, Bool, true, false, Option, none, some, Option-cases, arith,
}
use distributed_task_runner.Base.Int.{ℤ}
use distributed_task_runner.Models.{Value, WorkerInfo}
use distributed_task_runner.Broker.State.{Ref}
use distributed_task_runner.Codec.{fits}
use distributed_task_runner.Codec.Records.{WorkerMessage, worker_to_proto}
use distributed_task_runner.Engine.State.{Engine, Stamp}
use distributed_task_runner.Engine.Workers
use distributed_task_runner.Server.{heartbeat_call, HeartbeatReply, unknown, known}
use distributed_task_runner.Client.{Stub, read_reply, is_known, heartbeat_request}

-- The numbers of a worker are values of int32.
abbrev pub Sends : WorkerInfo → Type 0
Sends w = (fits w.pid ≡ true) × (fits w.capacity ≡ true) × (fits w.running_tasks ≡ true)

-- What a client is told of a heartbeat: that the worker is not known, or that it is, where the reply
-- can carry it; where it cannot, the call raises an exception.
pub data Heard (worker_objects : Ref → WorkerInfo) (seen : Option Ref) (told : Option Bool)
    : Type 0 where
  is_unknown : seen ≡ none → told ≡ some false → Heard worker_objects seen told
  is_sent :
      (w : Ref)
      → seen ≡ some w
      → Sends (worker_objects w)
      → told ≡ some true
      → Heard worker_objects seen told
  too_large :
      (w : Ref)
      → seen ≡ some w
      → (Sends (worker_objects w) → ⊥)
      → told ≡ none
      → Heard worker_objects seen told

sent_fits : (w : WorkerInfo) (m : WorkerMessage) → worker_to_proto w ≡ some m → Sends w
unfolding worker_to_proto
sent_fits w m h = (ground (arith, h), ground (arith, h), ground (arith, h))

not_sent : (w : WorkerInfo) → worker_to_proto w ≡ none → Sends w → ⊥
unfolding worker_to_proto
not_sent w h (p, c, r) = ground (arith, h, p, c, r)

-- What the servicer replies, read by the client.
ToldOf : Option Ref × Engine → Option Bool × Engine → Type 0
ToldOf (seen, direct) (told, e) = (e ≡ direct) × Heard direct.worker_objects seen told

-- The part of `heartbeat_call` behind the call of the engine.
reply_of :
    (p : Option Ref × Engine)
    → let (seen, e) = p in
      let (reply, e') = elim seen as (λ s. Option HeartbeatReply × Engine) [
        | none ↦ (some unknown, e)
        | some w ↦
            elim (worker_to_proto (e.worker_objects w)) as (λ m. Option HeartbeatReply × Engine) [
              | none ↦ (none, e)
              | some message ↦ (some (known message), e)
            ]
      ] in
      ToldOf p (read_reply (λ r. some (is_known r)) reply, e')
unfolding ToldOf
reply_of (none, e) = (refl, is_unknown refl refl)
reply_of (some w, e) = elim (Option-cases (worker_to_proto (e.worker_objects w))) [
  | inl h ↦ rw h (refl, too_large w refl (not_sent (e.worker_objects w) h) refl)
  | inr (message, h) ↦ rw h (refl, is_sent w refl (sent_fits (e.worker_objects w) message h) refl)
]

heartbeat_call-ToldOf :
    (worker_id : String) (running_tasks now : ℤ) (stamp : Stamp) (e : Engine)
    → let (reply, e') = heartbeat_call worker_id running_tasks now stamp e in
      ToldOf
        (Workers.heartbeat worker_id running_tasks now stamp e)
        (read_reply (λ r. some (is_known r)) reply, e')
unfolding heartbeat_call ToldOf
heartbeat_call-ToldOf worker_id running_tasks now stamp e =
    reply_of (Workers.heartbeat worker_id running_tasks now stamp e)

-- A heartbeat of a client whose stub reaches the servicer, with a number of tasks that fits the
-- message, leaves the engine as a heartbeat of the engine itself does. If the engine does not know the
-- worker, the client is told so. If it does, the client is told so where the numbers of that worker
-- fit the reply, and where they do not, the call raises an exception.
pub heartbeat_request-refines :
    (dumps : Value → String) (loads : String → Option Value) (stub : Stub Engine) (now : ℤ)
    (stamp : Stamp) (worker_id : String) (running_tasks : ℤ) (e : Engine)
    → stub.heartbeat (worker_id, running_tasks) e
      ≡ heartbeat_call worker_id running_tasks now stamp e
    → fits running_tasks ≡ true
    → let (told, e') = heartbeat_request dumps loads stub worker_id running_tasks e in
      let (seen, direct) = Workers.heartbeat worker_id running_tasks now stamp e in
      (e' ≡ direct) × Heard direct.worker_objects seen told
unfolding heartbeat_request ToldOf
heartbeat_request-refines dumps loads stub now stamp worker_id running_tasks e served h =
    rw (h, served) (heartbeat_call-ToldOf worker_id running_tasks now stamp e)
